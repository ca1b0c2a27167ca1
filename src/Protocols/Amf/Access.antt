-- ===== src/Protocols/Amf/Access.antt =====
-- server/src/protocols/ozRtmpAmf.h and .cpp: how the session reads a record and builds an answer.
-- An object keeps its records twice, in the order in which they were added and in an index by name.
use ozonebase.Prelude.{ℕ, ◌≡◌, List, [], Option, none, some, arith, if◌then◌else◌}
use ozonebase.Libgen.Outcome.{Outcome, ok, panic}
use ozonebase.Libgen.Text.{same}
use ozonebase.Libgen.TextMap.{find, insert, or_else, find-insert}
use ozonebase.Protocols.Amf.{Amf0Record, number, string, object, Amf0Fields, end, field}

-- `getInt` before the conversion of the double, `getString` and `getObject`.
abbrev pub get_number : Amf0Record → Outcome ℕ
get_number (number bits) = ok bits
get_number _ = panic

abbrev pub get_string : Amf0Record → Outcome (List ℕ)
get_string (string bytes) = ok bytes
get_string _ = panic

abbrev pub get_object : Amf0Record → Outcome Amf0Fields
get_object (object _ fields) = ok fields
get_object _ = panic

-- `addRecord`: the new record comes last.
unfoldable pub add_record : Amf0Fields → List ℕ → Amf0Record → Amf0Fields
add_record end name value = field name value end
add_record (field n v fields) name value = field n v (add_record fields name value)

-- `mRecordIndex`.
abbrev pub RecordIndex : Type 0
RecordIndex = List (List ℕ × Amf0Record)

-- The index after the records of an object were added in their order.
unfoldable pub index_from : RecordIndex → Amf0Fields → RecordIndex
index_from index end = index
index_from index (field name value fields) = index_from (insert name value index) fields

unfoldable pub get_record : Amf0Fields → List ℕ → Option Amf0Record
get_record fields name = find name (index_from [] fields)

-- The first record of a name.
unfoldable pub first_record : Amf0Fields → List ℕ → Option Amf0Record
first_record end name = none
first_record (field n value fields) name =
    let later = first_record fields name in if same n name then some value else later

find-index_from :
    (fields : Amf0Fields) (index : RecordIndex) (name : List ℕ)
    → find name (index_from index fields) ≡ or_else (find name index) (first_record fields name)
unfolding index_from first_record
find-index_from end index name = ground arith
find-index_from (field n value fields) index name =
    ground
      (arith, find-index_from fields (insert n value index) name, find-insert n name value index)

-- Looking a name up in an object's index gives the first record of that name, if there is one.
pub get_record_lem :
    (fields : Amf0Fields) (name : List ℕ) → get_record fields name ≡ first_record fields name
unfolding get_record find
get_record_lem fields name = find-index_from fields [] name
