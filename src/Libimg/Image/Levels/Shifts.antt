-- ===== src/Libimg/Image/Levels/Shifts.antt =====
-- server/src/libimg/libimgImage.cpp: how far decay and boost shift, and what they do to one sample.
use ozonebase.Prelude.{
  ℕ, ◌+◌, ◌-◌, ◌*◌, ◌/◌, ◌^◌, ◌<◌, ◌≤◌, ◌≡◌, ◌≢◌, ◌⊎◌, inl, inr, refl, sym, ap, ◌∙◌, zero, suc,
  true, false, ltb→lt, lt→ltb, arith, ltb, if◌then◌else◌, ◌==◌, Bool-cases,
}
use native.Mathlib.Nat.{pow-suc, one-le-pow, pow-le-pow_right}
use ozonebase.Libgen.Outcome.{ok}
use ozonebase.Libimg.Colour.{clamp, to_byte}
use ozonebase.Libimg.Image.Levels.{shift_from, ref_shift, decayed, boosted, boosted_word}

eq_of : {a b : ℕ} → (a == b) ≡ true → a ≡ b
eq_of h = ground arith

-- What the search finds from the k-th power on.
abbrev Found : ℕ → ℕ → ℕ → Type 0
Found k fraction s =
    ((k < s) × (2 ^ s ≡ fraction)) ⊎ ((s ≡ 15) × ((j : ℕ) → k < j → j ≤ 15 → 2 ^ j ≢ fraction))

passed_over :
    (k fraction s : ℕ) → 2 ^ suc k ≢ fraction → Found (suc k) fraction s → Found k fraction s
passed_over k fraction s h (inl found) = inl (omega arith, found.1)
passed_over k fraction s h (inr none_there) = inr (
  none_there.0,
  λ j l m e. elim (Bool-cases (j == suc k)) [
    | inl same ↦ h (ap (λ n. 2 ^ n) (sym (eq_of same)) ∙ e)
    | inr other ↦ none_there.1 j (ground arith) m e
  ],
)

shift_from_lem :
    (fuel k fraction : ℕ)
    → k + suc fuel ≡ 16
    → (s : ℕ) × (shift_from (suc fuel) (2 ^ suc k) k fraction ≡ ok s)
      × (s ≤ 15)
      × Found k fraction s
unfolding shift_from
shift_from_lem zero k fraction e =
    let last : k ≡ 15 = omega arith in
    let done : ltb (2 ^ suc k) 65536 ≡ false = ap (λ n. ltb (2 ^ suc n) 65536) last in
    (k, rw done refl, omega arith, inr (last, λ j l m. absurd (omega arith)))
shift_from_lem (suc fuel) k fraction e =
    let bound : suc k ≤ 15 = omega arith in
    let power : 2 ^ suc k ≤ 2 ^ 15 = pow-le-pow_right (omega arith) bound in
    let next : k + 1 ≡ suc k = omega arith in
    let more : ltb (2 ^ suc k) 65536 ≡ true = lt→ltb (2 ^ suc k) 65536 (omega (arith, power)) in
    elim (Bool-cases (2 ^ suc k == fraction)) [
      | inl found ↦
          (suc k, rw (more, found) (ap ok next), omega arith, inl (omega arith, eq_of found))
      | inr other ↦
          let r = shift_from_lem fuel (suc k) fraction (omega arith) in
          let twice : 2 ^ suc k * 2 ≡ 2 ^ suc (suc k) = sym (pow-suc 2 (suc k)) in
          (
            r.0,
            rw (more, other) ((λ i. shift_from (suc fuel) (twice i) (next i) fraction) ∙ r.1),
            r.2,
            passed_over k fraction r.0 (ground arith) r.3,
          )
    ]

-- The shift is the exponent of a power of two, and 15 if the number is none of the 2nd to the 32768th: it
-- is never 0.
pub ref_shift_lem :
    (fraction : ℕ)
    → (s : ℕ) × (ref_shift fraction ≡ ok s)
      × (0 < s)
      × (s ≤ 15)
      × ((2 ^ s ≡ fraction) ⊎ ((s ≡ 15) × ((j : ℕ) → 0 < j → j ≤ 15 → 2 ^ j ≢ fraction)))
ref_shift_lem fraction =
    let r = shift_from_lem 15 0 fraction (omega arith) in
    elim r.3 [
      | inl found ↦ (r.0, r.1, found.0, r.2, inl found.1)
      | inr none_there ↦ (r.0, r.1, omega (arith, none_there.0), r.2, inr none_there)
    ]

not_less : (m n : ℕ) → m < n → 2 ^ m ≢ 2 ^ n
not_less m n h e =
    let less : 2 ^ suc m ≤ 2 ^ n = pow-le-pow_right (omega arith) h in
    omega (arith, pow-suc 2 m, one-le-pow m 2 (omega arith), less)

pow_injective : (m n : ℕ) → 2 ^ m ≡ 2 ^ n → m ≡ n
pow_injective m n e = elim (Bool-cases (ltb m n)) [
  | inl less ↦ absurd (not_less m n (ltb→lt m n less) e)
  | inr other ↦ elim (Bool-cases (ltb n m)) [
    | inl more ↦ absurd (not_less n m (ltb→lt n m more) (sym e))
    | inr neither ↦ ground arith
  ]
]

pub ref_shift-power : (s : ℕ) → 0 < s → s ≤ 15 → ref_shift (2 ^ s) ≡ ok s
ref_shift-power s h l =
    let r = ref_shift_lem (2 ^ s) in
    elim r.4 [
      | inl found ↦ r.1 ∙ ap ok (pow_injective r.0 s found)
      | inr none_there ↦ absurd (none_there.1 s h l refl)
    ]

-- A byte that is boosted past the last value becomes 0.
pub boosted_lem :
    (s v : ℕ) → (v < 256) → boosted s v ≡ (if ltb (v + v / 2 ^ s) 256 then v + v / 2 ^ s else 0)
unfolding boosted clamp to_byte
boosted_lem s v h = ground arith

pub boosted_word_lem :
    (s v : ℕ) → boosted_word s v ≡ (if ltb (v + v / 2 ^ s) 65536 then v + v / 2 ^ s else 0)
unfolding boosted_word clamp
boosted_word_lem s v = ground arith

pub decayed_lem : (s v : ℕ) → v < 256 → decayed s v ≡ v - v / 2 ^ s
unfolding decayed to_byte
decayed_lem s v h = ground arith
