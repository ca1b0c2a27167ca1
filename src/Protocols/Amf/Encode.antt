-- ===== src/Protocols/Amf/Encode.antt =====
-- Which AMF0 records can be sent, and how many bytes and how much fuel they take.
use ozonebase.Prelude.{
  ℕ, suc, ◌+◌, ◌%◌, ◌^◌, ◌≤◌, ◌<◌, ◌≡◌, ◌≢◌, refl, ap, false, List, [], ◌∷◌, ◌++◌, arith, length,
  length-append,
}
use ozonebase.Libgen.Outcome.{ok, ◌>>=◌}
use ozonebase.Libgen.Bytes.{to_be, length-to_be}
use ozonebase.Protocols.Amf.{
  Amf0Record, number, boolean, string, object, array, null, undefined, Amf0Fields, end, field,
  encode, encode_fields, counted, at_end, object_end_marker,
}

-- A name that the decoder does not take for the end of its container.
abbrev pub IsName : List ℕ → Type 0
IsName [] = Unit {0}
IsName (c ∷ cs) = (c ≢ object_end_marker) × (length (c ∷ cs) < 2 ^ 16)

-- The records that come back as they were sent.
abbrev mutual
  pub IsSound : Amf0Record → Type 0
  IsSound (number bits) = bits < 2 ^ 64
  IsSound (boolean b) = Unit {0}
  IsSound (string bytes) = length bytes < 2 ^ 16
  IsSound (object o fields) = (o ≡ false) × AreSound fields
  IsSound (array o fields) = ⊥
  IsSound null = Unit {0}
  IsSound undefined = ⊥

  pub AreSound : Amf0Fields → Type 0
  AreSound end = Unit {0}
  AreSound (field name value fields) = IsName name × IsSound value × AreSound fields

-- The fuel that decoding takes.
abbrev mutual
  pub weight : Amf0Record → ℕ
  weight (number bits) = 1
  weight (boolean b) = 1
  weight (string bytes) = 1
  weight (object o fields) = suc (weight_fields fields)
  weight (array o fields) = suc (weight_fields fields)
  weight null = 1
  weight undefined = 1

  pub weight_fields : Amf0Fields → ℕ
  weight_fields end = 1
  weight_fields (field name value fields) = suc (weight value + weight_fields fields)

-- Sending, in one result: the bytes, that they are no fewer than the fuel, and that the first one
-- is not the end marker.
pub record Encoded (r : Amf0Record) (bytes : List ℕ) : Type 0 where
  pub sent : encode r ≡ ok bytes
  pub enough : weight r ≤ length bytes
  pub starts : (rest : List ℕ) → at_end (bytes ++ rest) ≡ ok false

pub record EncodedFields (fs : Amf0Fields) (bytes : List ℕ) : Type 0 where
  pub sent : encode_fields fs ≡ ok bytes
  pub enough : weight_fields fs ≤ length bytes

pub encode_fields-field :
    (name : List ℕ) (value : Amf0Record) (fields : Amf0Fields) (v f : List ℕ)
    → encode value ≡ ok v
    → encode_fields fields ≡ ok f
    → encode_fields (field name value fields) ≡ ok (counted name ++ (v ++ f))
unfolding encode encode_fields
encode_fields-field name value fields v f e h = rw (e, h)

length-field :
    (name v f : List ℕ)
    → length (counted name ++ (v ++ f)) ≡ length name + 2 + (length v + length f)
length-field name v f = omega (
  arith,
  length-append (counted name) (v ++ f),
  length-append (to_be 2 (length name % 2 ^ 16)) name,
  length-append v f,
  length-to_be 2 (length name % 2 ^ 16),
)

mutual
  unfolding encode encode_fields at_end

  pub encode-Encoded : (r : Amf0Record) → IsSound r → (bytes : List ℕ) × Encoded r bytes
  encode-Encoded (number bits) s =
      (_, record { sent = refl; enough = omega arith; starts = λ rest. refl })
  encode-Encoded (boolean b) s =
      (_, record { sent = refl; enough = omega arith; starts = λ rest. refl })
  encode-Encoded (string bytes) s =
      (_, record { sent = refl; enough = omega arith; starts = λ rest. refl })
  encode-Encoded (object o fields) s =
      let (body, e) = encode_fields-Encoded fields s.1 in
      (
        3 ∷ body,
        record {
          sent = ap (λ m. m >>= λ b. ok (3 ∷ b)) e.sent;
          enough = omega (arith, e.enough);
          starts = λ rest. refl;
        },
      )
  encode-Encoded (array o fields) s = absurd s
  encode-Encoded null s = (_, record { sent = refl; enough = omega arith; starts = λ rest. refl })
  encode-Encoded undefined s = absurd s

  pub encode_fields-Encoded :
      (fs : Amf0Fields) → AreSound fs → (bytes : List ℕ) × EncodedFields fs bytes
  encode_fields-Encoded end s = (_, record { sent = refl; enough = omega arith })
  encode_fields-Encoded (field name value fields) s =
      let (v, ev) = encode-Encoded value s.1 in
      let (f, ef) = encode_fields-Encoded fields s.2 in
      (
        counted name ++ (v ++ f),
        record {
          sent = encode_fields-field name value fields v f ev.sent ef.sent;
          enough = omega (arith, length-field name v f, ev.enough, ef.enough);
        },
      )
