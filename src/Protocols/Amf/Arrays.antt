-- ===== src/Protocols/Amf/Arrays.antt =====
-- Arrays are not read as they are sent: `Amf0Array::encode` sends a count of four bytes before the
-- fields, which the decoder takes for the first field.
use ozonebase.Prelude.{ℕ, zero, suc, ◌≡◌, sym, subst, Bool, List, [], ◌∷◌, ◌++◌}
use ozonebase.Libgen.Outcome.{ok, >>=-eq-ok, ok-injective}
use ozonebase.Libgen.Bytes.{read_be, split_bytes}
use ozonebase.Protocols.Amf.{
  Amf0Record, number, array, Amf0Fields, field, encode, encode_fields, at_end, decode,
  decode_fields, decode_length,
}

-- A record of which nothing is said but that it is an array with a nameless number in front.
abbrev pub StartsWithNumber : Amf0Record → Type 0
StartsWithNumber r =
    (bits : ℕ) × (o : Bool) × (fs : Amf0Fields) × (r ≡ array o (field [] (number bits) fs))

-- What comes behind the marker, read as a number.
zero-number :
    (fuel : ℕ) (bytes : List ℕ) {v : Amf0Record × List ℕ}
    → decode fuel (0 ∷ bytes) ≡ ok v
    → (bits : ℕ) × (v.0 ≡ number bits)
unfolding decode
zero-number zero bytes e = cc
zero-number (suc fuel) bytes e = let (r, _, h) = >>=-eq-ok (read_be 8 0 bytes) _ e in (r.0, cc)

array_fields :
    (fuel : ℕ) (bytes : List ℕ) {r : (Amf0Fields × Bool) × List ℕ}
    → decode_fields fuel (0 ∷ 0 ∷ 0 ∷ 0 ∷ bytes) ≡ ok r
    → (bits : ℕ) × (fs : Amf0Fields) × (r.0.0 ≡ field [] (number bits) fs)
unfolding decode_fields decode_length read_be at_end split_bytes
array_fields zero bytes e = cc
array_fields (suc fuel) bytes e =
    let (v, ev, e₁) = >>=-eq-ok (decode fuel (0 ∷ 0 ∷ bytes)) _ e in
    let (q, eq, e₂) = >>=-eq-ok (decode_fields fuel v.1) _ e₁ in
    let (bits, n) = zero-number fuel (0 ∷ bytes) ev in (bits, q.0.0, cc)

array_decoded :
    (fuel : ℕ) (bytes : List ℕ) {r : Amf0Record × List ℕ}
    → decode fuel (8 ∷ 0 ∷ 0 ∷ 0 ∷ 0 ∷ bytes) ≡ ok r
    → StartsWithNumber (r.0)
unfolding decode
array_decoded zero bytes e = cc
array_decoded (suc fuel) bytes e =
    let (q, eq, h) = >>=-eq-ok (decode_fields fuel (0 ∷ 0 ∷ 0 ∷ 0 ∷ bytes)) _ e in
    let (bits, fs, p) = array_fields fuel bytes eq in (bits, q.0.1, fs, cc)

-- Whatever array is encoded and whatever follows it: if decoding its bytes gives a record at
-- all, that is an array whose first field has the empty name and a number.
pub decode-encode_array :
    (o : Bool) (fields : Amf0Fields) (bytes rest : List ℕ) (fuel : ℕ) {r : Amf0Record × List ℕ}
    → encode (array o fields) ≡ ok bytes
    → decode fuel (bytes ++ rest) ≡ ok r
    → StartsWithNumber (r.0)
unfolding encode
decode-encode_array o fields bytes rest fuel {r} e d =
    let (body, _, h) = >>=-eq-ok (encode_fields fields) _ e in
    array_decoded fuel (body ++ rest)
      (subst (λ b. decode fuel (b ++ rest) ≡ ok r) (ok-injective (sym h)) d)
