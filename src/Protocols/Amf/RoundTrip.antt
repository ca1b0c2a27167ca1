-- ===== src/Protocols/Amf/RoundTrip.antt =====
-- Decoding what was encoded.
use ozonebase.Prelude.{
  ℕ, zero, suc, ◌+◌, ◌%◌, ◌^◌, ◌≤◌, ◌<◌, ◌≡◌, ◌≢◌, refl, sym, ap, ◌∙◌, Bool, true, false, List, [],
  ◌∷◌, ◌++◌, arith, length, length-append, append_assoc, if◌then◌else◌, subst,
}
use ozonebase.Libgen.Outcome.{ok, ok-injective, ◌>>=◌}
use ozonebase.Libgen.Bytes.{
  to_be, length-to_be, read_be, read_be-to_be, split_bytes, split_bytes-append,
}
use ozonebase.Protocols.Amf.{
  Amf0Record, number, boolean, string, object, array, null, undefined, Amf0Fields, end, field,
  encode, encode_fields, counted, at_end, decode, decode_fields, decode_length, decode_string,
}
use ozonebase.Protocols.Amf.Encode.{
  IsName, IsSound, AreSound, weight, weight_fields, encode-Encoded, encode_fields-Encoded,
  encode_fields-field,
}

decode_length-counted :
    (bytes rest : List ℕ)
    → length bytes < 2 ^ 16
    → decode_length (counted bytes ++ rest) ≡ ok (length bytes, bytes ++ rest)
unfolding decode_length
decode_length-counted bytes rest h =
    ap (read_be 2 0) (append_assoc (to_be 2 (length bytes % 2 ^ 16)) bytes rest)
    ∙ (read_be-to_be 2 (length bytes % 2 ^ 16) (bytes ++ rest) (omega arith)
        ∙ ap (λ k. ok (k, bytes ++ rest)) (omega arith))

decode_string-counted :
    (bytes rest : List ℕ)
    → length bytes < 2 ^ 16
    → decode_string (counted bytes ++ rest) ≡ ok (bytes, rest)
unfolding decode_string
decode_string-counted bytes rest h =
    ap (λ m. m >>= λ r. split_bytes r.0 r.1) (decode_length-counted bytes rest h)
    ∙ split_bytes-append bytes rest

length-IsName : (name : List ℕ) → IsName name → length name < 2 ^ 16
length-IsName [] n = omega arith
length-IsName (c ∷ cs) n = n.1

at_end-name :
    (name rest : List ℕ) → IsName name → at_end rest ≡ ok false → at_end (name ++ rest) ≡ ok false
unfolding at_end
at_end-name [] rest n h = h
at_end-name (c ∷ cs) rest n h = ground (arith, n.0)

-- One round of the loop over the fields.
decode_fields-field :
    (fuel n : ℕ) (bytes t₁ t₂ t₃ : List ℕ) (name : List ℕ) (value : Amf0Record)
    → decode_length bytes ≡ ok (n, t₁)
    → at_end t₁ ≡ ok false
    → split_bytes n t₁ ≡ ok (name, t₂)
    → decode fuel t₂ ≡ ok (value, t₃)
    → bytes ≢ []
    → decode_fields (suc fuel) bytes
      ≡ (decode_fields fuel t₃ >>= λ r. ok ((field name value (r.0.0), r.0.1), r.1))
unfolding decode_fields
decode_fields-field fuel n [] t₁ t₂ t₃ name value e₁ e₂ e₃ e₄ ne = absurd (ne refl)
decode_fields-field fuel n (b ∷ bytes) t₁ t₂ t₃ name value e₁ e₂ e₃ e₄ ne = rw (e₁, e₂, e₃, e₄)

decode_object :
    (fuel : ℕ) (bytes rest : List ℕ) (fs : Amf0Fields)
    → decode_fields fuel bytes ≡ ok ((fs, false), rest)
    → decode (suc fuel) (3 ∷ bytes) ≡ ok (object false fs, rest)
unfolding decode
decode_object fuel bytes rest fs e = rw e

decode_number :
    (fuel bits : ℕ) (rest : List ℕ)
    → bits < 2 ^ 64
    → decode (suc fuel) (0 ∷ (to_be 8 bits ++ rest)) ≡ ok (number bits, rest)
unfolding decode
decode_number fuel bits rest h = rw (read_be-to_be 8 bits rest h)

decode_boolean :
    (fuel : ℕ) (b : Bool) (rest : List ℕ)
    → decode (suc fuel) (1 ∷ (if b then 1 else 0) ∷ rest) ≡ ok (boolean b, rest)
unfolding decode read_be
decode_boolean fuel true rest = refl
decode_boolean fuel false rest = refl

decode_string_record :
    (fuel : ℕ) (bytes rest : List ℕ)
    → length bytes < 2 ^ 16
    → decode (suc fuel) (2 ∷ (counted bytes ++ rest)) ≡ ok (string bytes, rest)
unfolding decode
decode_string_record fuel bytes rest h = rw (decode_string-counted bytes rest h)

length-counted : (name tail : List ℕ) → 0 < length (counted name ++ tail)
length-counted name tail = omega (
  arith,
  length-append (counted name) tail,
  length-append (to_be 2 (length name % 2 ^ 16)) name,
  length-to_be 2 (length name % 2 ^ 16),
)

weight_fields_pos : (fs : Amf0Fields) → 0 < weight_fields fs
weight_fields_pos end = omega arith
weight_fields_pos (field name value fields) = omega arith

weight_pos : (r : Amf0Record) → 0 < weight r
weight_pos (number bits) = omega arith
weight_pos (boolean b) = omega arith
weight_pos (string bytes) = omega arith
weight_pos (object o fs) = omega arith
weight_pos (array o fs) = omega arith
weight_pos null = omega arith
weight_pos undefined = omega arith

-- Fuel that is not zero.
pred_of : (fuel n : ℕ) → 0 < n → n ≤ fuel → (k : ℕ) × (fuel ≡ suc k)
pred_of zero n p h = absurd (omega arith)
pred_of (suc k) n p h = (k, refl)

decode_null : (fuel : ℕ) (rest : List ℕ) → decode (suc fuel) (5 ∷ rest) ≡ ok (null, rest)
unfolding decode
decode_null fuel rest = refl

decode_fields-end :
    (fuel : ℕ) (rest : List ℕ)
    → decode_fields (suc fuel) (0 ∷ 0 ∷ 9 ∷ rest) ≡ ok ((end, false), rest)
unfolding decode_fields decode_length read_be at_end split_bytes
decode_fields-end fuel rest = refl

-- A field, from the round trips of its parts.
decode_fields-step :
    (fuel : ℕ) (name : List ℕ) (value : Amf0Record) (fields : Amf0Fields) (v f rest : List ℕ)
    → IsName name
    → ((tail : List ℕ) → at_end (v ++ tail) ≡ ok false)
    → ((tail : List ℕ) → decode fuel (v ++ tail) ≡ ok (value, tail))
    → decode_fields fuel (f ++ rest) ≡ ok ((fields, false), rest)
    → decode_fields (suc fuel) ((counted name ++ (v ++ f)) ++ rest)
      ≡ ok ((field name value fields, false), rest)
decode_fields-step fuel name value fields v f rest n starts hv hf =
    ap (decode_fields (suc fuel)) regroup
    ∙ (decode_fields-field fuel (length name) (counted name ++ tail) (name ++ tail) tail (f ++ rest)
          name value (decode_length-counted name tail (length-IsName name n))
          (at_end-name name tail n (starts (f ++ rest))) (split_bytes-append name tail)
          (hv (f ++ rest)) (nonempty)
        ∙ ap (λ m. m >>= λ r. ok ((field name value (r.0.0), r.0.1), r.1)) hf)
  where
    tail : List ℕ
    tail = v ++ (f ++ rest)

    regroup : (counted name ++ (v ++ f)) ++ rest ≡ counted name ++ tail
    regroup =
        append_assoc (counted name) (v ++ f) rest ∙ ap (◌++◌ (counted name)) (append_assoc v f rest)

    nonempty : counted name ++ tail ≢ []
    nonempty e = omega (arith, length-counted name tail, ap length e)

mutual
  unfolding encode encode_fields

  decode-encode_within :
      (r : Amf0Record)
      → IsSound r
      → (fuel : ℕ) (bytes rest : List ℕ) → encode r ≡ ok bytes
      → weight r ≤ suc fuel
      → decode (suc fuel) (bytes ++ rest) ≡ ok (r, rest)
  decode-encode_within (number bits) s fuel bytes rest e w =
      subst (λ b. decode (suc fuel) (b ++ rest) ≡ ok (number bits, rest)) (ok-injective e)
        (decode_number fuel bits rest s)
  decode-encode_within (boolean b) s fuel bytes rest e w =
      subst (λ x. decode (suc fuel) (x ++ rest) ≡ ok (boolean b, rest)) (ok-injective e)
        (decode_boolean fuel b rest)
  decode-encode_within (string text) s fuel bytes rest e w =
      subst (λ b. decode (suc fuel) (b ++ rest) ≡ ok (string text, rest)) (ok-injective e)
        (decode_string_record fuel text rest s)
  decode-encode_within (object o fields) s fuel bytes rest e w =
      let (body, x) = encode_fields-Encoded fields s.1 in
      let (k, p) = pred_of fuel (weight_fields fields) (weight_fields_pos fields) (omega arith) in
      let inner : decode_fields (suc k) (body ++ rest) ≡ ok ((fields, false), rest) =
        decode_fields-encode_fields_within fields s.1 k body rest x.sent (omega arith) in
      let same : 3 ∷ body ≡ bytes =
        ok-injective (sym (ap (λ m. m >>= λ b. ok (3 ∷ b)) x.sent) ∙ e) in
      subst (λ b. decode (suc fuel) (b ++ rest) ≡ ok (object o fields, rest)) same
        (rw (s.0, p) (decode_object (suc k) (body ++ rest) rest fields inner))
  decode-encode_within (array o fields) s fuel bytes rest e w = absurd s
  decode-encode_within null s fuel bytes rest e w =
      subst (λ b. decode (suc fuel) (b ++ rest) ≡ ok (null, rest)) (ok-injective e)
        (decode_null fuel rest)
  decode-encode_within undefined s fuel bytes rest e w = absurd s

  decode_fields-encode_fields_within :
      (fs : Amf0Fields)
      → AreSound fs
      → (fuel : ℕ) (bytes rest : List ℕ) → encode_fields fs ≡ ok bytes
      → weight_fields fs ≤ suc fuel
      → decode_fields (suc fuel) (bytes ++ rest) ≡ ok ((fs, false), rest)
  decode_fields-encode_fields_within end s fuel bytes rest e w =
      subst (λ b. decode_fields (suc fuel) (b ++ rest) ≡ ok ((end, false), rest)) (ok-injective e)
        (decode_fields-end fuel rest)
  decode_fields-encode_fields_within (field name value fields) s fuel bytes rest e w =
      let (v, xv) = encode-Encoded value s.1 in
      let (f, xf) = encode_fields-Encoded fields s.2 in
      let (k, p) = pred_of fuel (weight value) (weight_pos value) (omega arith) in
      let hf : decode_fields (suc k) (f ++ rest) ≡ ok ((fields, false), rest) =
        decode_fields-encode_fields_within fields s.2 k f rest xf.sent (omega arith) in
      let same : counted name ++ (v ++ f) ≡ bytes =
        ok-injective (sym (encode_fields-field name value fields v f xv.sent xf.sent) ∙ e) in
      subst
        (λ b. decode_fields (suc fuel) (b ++ rest) ≡ ok ((field name value fields, false), rest))
        same
        (rw p (
          decode_fields-step (suc k) name value fields v f rest s.0 xv.starts
            (λ tail. decode-encode_within value s.1 k v tail xv.sent (omega arith)) hf))

-- Every sound AMF0 record (64-bit numbers, strings and names shorter than 65536 bytes, no name
-- that begins with the byte 9, closed objects, no arrays) is encoded, and decoding its bytes
-- gives the record back and leaves exactly what followed them, on any fuel above their number.
pub decode-encode :
    (r : Amf0Record) (rest : List ℕ) (extra : ℕ)
    → IsSound r
    → (bytes : List ℕ) × (encode r ≡ ok bytes)
      × (decode (suc (length bytes + extra)) (bytes ++ rest) ≡ ok (r, rest))
decode-encode r rest extra s =
    let (bytes, x) = encode-Encoded r s in
    (
      bytes,
      x.sent,
      decode-encode_within r s (length bytes + extra) bytes rest x.sent (omega (arith, x.enough)),
    )
