-- ===== src/Protocols/Amf/Progress.antt =====
-- The decoder ends on every input, and never leaves more bytes than it was given.
use ozonebase.Prelude.{
  ℕ, zero, suc, ◌≤◌, ◌<◌, ◌≡◌, ◌≢◌, refl, subst, true, false, List, [], ◌∷◌, arith, length, ◌==◌,
  ◌⊎◌, inl, inr, Bool-cases,
}
use ozonebase.Libgen.Outcome.{ok, fault, thrown, spent}
use ozonebase.Libgen.Bytes.{read_be, split_bytes}
use ozonebase.Libgen.Progress.{
  Ends, Ends->>=, Ends-mono, read_be-Ends, split_bytes-Ends, Ends-pass, Ends-if,
}
use ozonebase.Protocols.Amf.{
  null, undefined, at_end, decode, decode_fields, decode_length, decode_string,
}

decode_string-Ends : (bytes : List ℕ) → Ends (length bytes) (decode_string bytes)
unfolding decode_string decode_length
decode_string-Ends bytes =
    Ends->>= (length bytes) (length bytes) (read_be 2 0 bytes) _ (read_be-Ends 2 0 bytes) λ r h.
      Ends-mono (split_bytes r.0 r.1) (length r.1) (length bytes) h (split_bytes-Ends r.0 r.1)

-- A field's length leaves fewer bytes than there were.
decode_length-Ends : (b : ℕ) (bytes : List ℕ) → Ends (length bytes) (decode_length (b ∷ bytes))
unfolding decode_length read_be
decode_length-Ends b [] = tt
decode_length-Ends b (c ∷ bytes) = omega arith

-- The three results of the test for the end.
at_end-cases :
    (bytes : List ℕ)
    → ((at_end bytes ≡ ok true) ⊎ (at_end bytes ≡ ok false)) ⊎ (at_end bytes ≡ fault)
unfolding at_end
at_end-cases [] = inr refl
at_end-cases (b ∷ bytes) = elim (Bool-cases (b == 9)) [
  | inl e ↦ inl (inl (rw e))
  | inr e ↦ inl (inr (rw e))
]

mutual
  unfolding decode decode_fields

  pub decode-Ends :
      (fuel : ℕ) (bytes : List ℕ) → length bytes < fuel → Ends (length bytes) (decode fuel bytes)
  decode-Ends zero bytes h = absurd (omega arith)
  decode-Ends (suc fuel) [] h = tt
  decode-Ends (suc fuel) (marker ∷ bytes) h =
      let n : ℕ = suc (length bytes) in
      let fields : Ends (length bytes) (decode_fields fuel bytes) =
        decode_fields-Ends fuel bytes (omega arith) in
      let le : length bytes ≤ n = omega arith in
      Ends-if n (marker == 0) _ _
        (Ends-pass n (length bytes) (read_be 8 0 bytes) _ le (read_be-Ends 8 0 bytes))
        (Ends-if n (marker == 1) _ _
          (Ends-pass n (length bytes) (read_be 1 0 bytes) _ le (read_be-Ends 1 0 bytes))
          (Ends-if n (marker == 2) _ _
            (Ends-pass n (length bytes) (decode_string bytes) _ le (decode_string-Ends bytes))
            (Ends-if n (marker == 3) _ _
              (Ends-pass n (length bytes) (decode_fields fuel bytes) _ le fields)
              (Ends-if n (marker == 8) _ _
                (Ends-pass n (length bytes) (decode_fields fuel bytes) _ le fields)
                (Ends-if n (marker == 5) (ok (null, bytes)) _ le
                  (Ends-if n (marker == 6) (ok (undefined, bytes)) thrown le tt))))))

  decode_fields-Ends :
      (fuel : ℕ) (bytes : List ℕ)
      → length bytes < fuel
      → Ends (length bytes) (decode_fields fuel bytes)
  decode_fields-Ends zero bytes h = absurd (omega arith)
  decode_fields-Ends (suc fuel) [] h = omega arith
  decode_fields-Ends (suc fuel) (b ∷ bytes) h =
      Ends->>= (suc (length bytes)) (length bytes) (decode_length (b ∷ bytes)) _
        (decode_length-Ends b bytes)
        λ l hl. elim (at_end-cases (l.1)) [
          | inl (inl e) ↦ rw e (
              Ends-pass (suc (length bytes)) (length (l.1)) (split_bytes 1 l.1) _ (omega arith)
                (split_bytes-Ends 1 l.1))
          | inl (inr e) ↦ rw e (
              Ends->>= (suc (length bytes)) (length (l.1)) (split_bytes l.0 l.1) _
                (split_bytes-Ends l.0 l.1)
                λ n hn.
                  Ends->>= (suc (length bytes)) (length (n.1)) (decode fuel n.1) _
                    (decode-Ends fuel n.1 (omega arith))
                    λ v hv.
                      Ends-pass (suc (length bytes)) (length (v.1)) (decode_fields fuel v.1) _
                        (omega arith) (decode_fields-Ends fuel v.1 (omega arith)))
          | inr e ↦ rw e tt
        ]

-- On more fuel than there are bytes the AMF0 decoder never runs out of it, whatever the bytes
-- are.
pub decode-ne-spent : (fuel : ℕ) (bytes : List ℕ) → length bytes < fuel → decode fuel bytes ≢ spent
decode-ne-spent fuel bytes h e = subst (Ends (length bytes)) e (decode-Ends fuel bytes h)
