-- ===== src/Protocols/Amf.antt =====
-- server/src/protocols/ozRtmpAmf.cpp, the AMF0 half: records, their encoding and their decoding.
-- The bytes of a ByteBuffer are its contents (Libgen/Buffer); a read past them is a fault. A double
-- is the 64-bit pattern that is sent, on a machine that is not __arm__.
pub mod Encode
pub mod RoundTrip
pub mod Progress
pub mod Arrays
pub mod Access
use ozonebase.Prelude.{
  ℕ, zero, suc, ◌+◌, ◌%◌, ◌^◌, Bool, true, false, not, List, [], ◌∷◌, ◌++◌, ◌==◌, if◌then◌else◌,
  length,
}
use ozonebase.Libgen.Outcome.{Outcome, ok, panic, fault, thrown, spent, ◌>>=◌}
use ozonebase.Libgen.Bytes.{to_be, read_be, split_bytes}

-- `Amf0Record` with the records of its containers; the flag of a container is `mOpen`.
mutual
  pub data Amf0Record : Type 0 where
    number : ℕ → Amf0Record
    boolean : Bool → Amf0Record
    string : List ℕ → Amf0Record
    object : Bool → Amf0Fields → Amf0Record
    array : Bool → Amf0Fields → Amf0Record
    null : Amf0Record
    undefined : Amf0Record

  pub data Amf0Fields : Type 0 where
    end : Amf0Fields
    field : List ℕ → Amf0Record → Amf0Fields → Amf0Fields

-- The markers that the code gives a meaning.
abbrev pub number_marker : ℕ
number_marker = 0

abbrev pub boolean_marker : ℕ
boolean_marker = 1

abbrev pub string_marker : ℕ
string_marker = 2

abbrev pub object_marker : ℕ
object_marker = 3

abbrev pub null_marker : ℕ
null_marker = 5

abbrev pub undefined_marker : ℕ
undefined_marker = 6

abbrev pub array_marker : ℕ
array_marker = 8

abbrev pub object_end_marker : ℕ
object_end_marker = 9

-- A string with its length as a uint16_t before it; the bytes are all sent, whatever the length.
abbrev pub counted : List ℕ → List ℕ
counted bytes = to_be 2 (length bytes % 2 ^ 16) ++ bytes

-- The bytes that `encode` appends. There is no encoding of the undefined record.
unfoldable mutual
  pub encode : Amf0Record → Outcome (List ℕ)
  encode (number bits) = ok (number_marker ∷ to_be 8 bits)
  encode (boolean b) = ok (boolean_marker ∷ (if b then 1 else 0) ∷ [])
  encode (string bytes) = ok (string_marker ∷ counted bytes)
  encode (object _ fields) = encode_fields fields >>= λ body. ok (object_marker ∷ body)
  encode (array _ fields) =
      encode_fields fields >>= λ body. ok (array_marker ∷ 0 ∷ 0 ∷ 0 ∷ 0 ∷ body)
  encode null = ok (null_marker ∷ [])
  encode undefined = thrown

  pub encode_fields : Amf0Fields → Outcome (List ℕ)
  encode_fields end = ok (0 ∷ 0 ∷ object_end_marker ∷ [])
  encode_fields (field name value fields) = encode value >>= λ bytes.
      encode_fields fields >>= λ rest. ok (counted name ++ (bytes ++ rest))

-- What decoding leaves: a value and the bytes behind it.
abbrev pub Parsed : Type 0 → Type 0
Parsed A = Outcome (A × List ℕ)

-- The two bytes of a length.
unfoldable pub decode_length : List ℕ → Parsed ℕ
decode_length = read_be 2 0

unfoldable pub decode_string : List ℕ → Parsed (List ℕ)
decode_string bytes = decode_length bytes >>= λ r. split_bytes r.0 r.1

-- Whether the next byte ends a container.
unfoldable pub at_end : List ℕ → Outcome Bool
at_end [] = fault
at_end (b ∷ bytes) = ok (b == object_end_marker)

-- The constructor from a buffer: `decode` on a fuel that each record and each field takes one of.
-- The loop over the fields of a container ends at the end marker or with the bytes; it returns the
-- final `mOpen` with the fields.
unfoldable mutual
  pub decode : ℕ → List ℕ → Parsed Amf0Record
  decode zero bytes = spent
  decode (suc fuel) [] = fault
  decode (suc fuel) (marker ∷ bytes) =
      let object_fields = decode_fields fuel bytes >>= λ r. ok (object (r.0.1) (r.0.0), r.1) in
      let array_fields = decode_fields fuel bytes >>= λ r. ok (array (r.0.1) (r.0.0), r.1) in
      if marker == number_marker
      then (read_be 8 0 bytes >>= λ r. ok (number r.0, r.1))
      else if marker == boolean_marker
      then (read_be 1 0 bytes >>= λ r. ok (boolean (not (r.0 == 0)), r.1))
      else if marker == string_marker
      then (decode_string bytes >>= λ r. ok (string r.0, r.1))
      else if marker == object_marker
      then object_fields
      else if marker == array_marker
      then array_fields
      else if marker == null_marker
      then ok (null, bytes)
      else if marker == undefined_marker
      then ok (undefined, bytes)
      else thrown

  pub decode_fields : ℕ → List ℕ → Parsed (Amf0Fields × Bool)
  decode_fields zero bytes = spent
  decode_fields (suc fuel) [] = ok ((end, true), [])
  decode_fields (suc fuel) (b ∷ bytes) = decode_length (b ∷ bytes) >>= λ l.
      at_end (l.1) >>= λ closed. elim closed [
        | true ↦ split_bytes 1 (l.1) >>= λ r. ok ((end, false), r.1)
        | false ↦ split_bytes l.0 l.1 >>= λ n. decode fuel (n.1) >>= λ v.
            decode_fields fuel (v.1) >>= λ r. ok ((field n.0 v.0 (r.0.0), r.0.1), r.1)
      ]
