-- ===== src/Libgen/Base64/RoundTrip.antt =====
-- Decoding what was encoded, and the shape of what is encoded.
use ozonebase.Prelude.{
  ℕ, ◌+◌, ◌*◌, ◌/◌, ◌<◌, ◌≡◌, refl, ap, ap₂, ◌%◌, ◌^◌, true, List, [], ◌∷◌, arith, length, ltb,
  lt→ltb, take_all,
}
use ozonebase.Libgen.Outcome.{ok}
use ozonebase.Libgen.Base64.{
  base64_char, is_base64, find_char, group_0, group_1, group_2, group_3, base64_encode, byte_0,
  byte_1, byte_2, base64_run, decode_groups, base64_decode,
}

-- A sequence of bytes.
abbrev pub AreBytes : List ℕ → Type 0
AreBytes [] = Unit {0}
AreBytes (b ∷ bs) = (b < 256) × AreBytes bs

find_char-base64_char : (i : ℕ) → i < 64 → find_char (base64_char i) ≡ i
unfolding find_char base64_char
find_char-base64_char i h = ground arith

is_base64-base64_char : (i : ℕ) → is_base64 (base64_char i) ≡ true
unfolding is_base64 base64_char
is_base64-base64_char i = ground arith

base64_run-base64_char :
    (i : ℕ) (cs : List ℕ) → base64_run (base64_char i ∷ cs) ≡ base64_char i ∷ base64_run cs
unfolding base64_run
base64_run-base64_char i cs = rw (is_base64-base64_char i)

base64_run-nil : base64_run [] ≡ []
unfolding base64_run
base64_run-nil = refl

base64_run-pad : (cs : List ℕ) → base64_run (b'=' ∷ cs) ≡ []
unfolding base64_run is_base64
base64_run-pad cs = refl

module _ (a b c : ℕ) (ha : a < 256) (hb : b < 256) (hc : c < 256) where
  byte_0-groups :
      byte_0 (find_char (base64_char (group_0 a))) (find_char (base64_char (group_1 a b))) ≡ a
  unfolding byte_0 group_0 group_1
  byte_0-groups =
      rw (find_char-base64_char (group_0 a) (omega arith))
        (rw (find_char-base64_char (group_1 a b) (omega arith)) (omega arith))

  byte_1-groups :
      byte_1 (find_char (base64_char (group_1 a b))) (find_char (base64_char (group_2 b c))) ≡ b
  unfolding byte_1 group_1 group_2
  byte_1-groups =
      rw (find_char-base64_char (group_1 a b) (omega arith))
        (rw (find_char-base64_char (group_2 b c) (omega arith)) (omega arith))

  byte_2-groups :
      byte_2 (find_char (base64_char (group_2 b c))) (find_char (base64_char (group_3 c))) ≡ c
  unfolding byte_2 group_2 group_3
  byte_2-groups =
      rw (find_char-base64_char (group_2 b c) (omega arith))
        (rw (find_char-base64_char (group_3 c) (omega arith)) (omega arith))

ruleset runs = (base64_run-base64_char, base64_run-pad)

decode_groups-base64_encode :
    (bytes : List ℕ) → AreBytes bytes → decode_groups (base64_run (base64_encode bytes)) ≡ bytes
unfolding base64_encode decode_groups
decode_groups-base64_encode [] h = rw base64_run-nil
decode_groups-base64_encode (a ∷ []) h =
    simp runs (ap (λ x. x ∷ []) (byte_0-groups a 0 0 h.0 (omega arith) (omega arith)))
decode_groups-base64_encode (a ∷ b ∷ []) h = simp runs (
    ap₂ (λ x y. x ∷ y ∷ []) (byte_0-groups a b 0 h.0 (h.1.0) (omega arith))
      (byte_1-groups a b 0 h.0 (h.1.0) (omega arith)))
decode_groups-base64_encode (a ∷ b ∷ c ∷ bytes) h = simp runs (
    ap₂ (λ x r. x ∷ r) (byte_0-groups a b c h.0 (h.1.0) (h.1.1.0))
      (ap₂ (λ y r. y ∷ r) (byte_1-groups a b c h.0 (h.1.0) (h.1.1.0))
        (ap₂ (λ z r. z ∷ r) (byte_2-groups a b c h.0 (h.1.0) (h.1.1.0))
          (decode_groups-base64_encode bytes (h.1.1.1)))))

-- An encoded sequence has four characters for each three bytes, and four for what remains.
pub length-base64_encode :
    (bytes : List ℕ) → length (base64_encode bytes) ≡ (length bytes + 2) / 3 * 4
unfolding base64_encode
length-base64_encode [] = omega arith
length-base64_encode (a ∷ []) = omega arith
length-base64_encode (a ∷ b ∷ []) = omega arith
length-base64_encode (a ∷ b ∷ c ∷ bytes) = omega (arith, length-base64_encode bytes)

-- Bytes whose encoding has fewer than 2^31 characters are given back when it is decoded, with no, one or two
-- padding characters.
pub base64_decode-base64_encode :
    (bytes : List ℕ)
    → AreBytes bytes
    → (length bytes + 2) / 3 * 4 < 2 ^ 31
    → base64_decode (base64_encode bytes) ≡ ok bytes
unfolding base64_decode
base64_decode-base64_encode bytes h small =
    let cs = base64_encode bytes in
    let size : length cs % 2 ^ 32 ≡ length cs = omega (arith, length-base64_encode bytes) in
    let fits : ltb (length cs % 2 ^ 32) (2 ^ 31) ≡ true =
      lt→ltb _ _ (omega (arith, length-base64_encode bytes)) in
    rw (fits, size, take_all (length cs) cs (omega arith), decode_groups-base64_encode bytes h) refl

-- A text whose size is a multiple of 2^32 decodes to nothing, whatever its characters are.
pub base64_decode-wraps : (cs : List ℕ) (n : ℕ) → length cs ≡ n * 2 ^ 32 → base64_decode cs ≡ ok []
unfolding base64_decode decode_groups
base64_decode-wraps cs n e =
    let none_left : length cs % 2 ^ 32 ≡ 0 = omega (arith, e) in rw (none_left, base64_run-nil) refl
