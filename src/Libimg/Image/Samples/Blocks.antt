-- ===== src/Libimg/Image/Samples/Blocks.antt =====
-- Bytes found in lists that are put together.
use ozonebase.Prelude.{
  ℕ, zero, suc, ◌+◌, ◌*◌, ◌<◌, ◌≤◌, ◌≡◌, refl, sym, ap, ap₂, ◌∙◌, ◌⊎◌, inl, inr, arith, List, [],
  ◌∷◌, ◌++◌, length, Bool-cases, ltb, ltb→lt, replicate, take,
}
use ozonebase.Libgen.Outcome.{ok, fault, ok-injective}
use ozonebase.Libimg.Raster.{blocks, length-blocks, block_end}
use ozonebase.Libimg.Image.Samples.{byte_at}

pub byte_at-append_left :
    (xs ys : List ℕ) (k : ℕ) → k < length xs → byte_at (xs ++ ys) k ≡ byte_at xs k
unfolding byte_at
byte_at-append_left [] ys k h = absurd (omega arith)
byte_at-append_left (x ∷ xs) ys zero h = refl
byte_at-append_left (x ∷ xs) ys (suc k) h = byte_at-append_left xs ys k (omega arith)

pub byte_at-append_right :
    (xs ys : List ℕ) (k at : ℕ) → at ≡ length xs + k → byte_at (xs ++ ys) at ≡ byte_at ys k
unfolding byte_at
byte_at-append_right [] ys k at h = ap (byte_at ys) (omega arith)
byte_at-append_right (x ∷ xs) ys k zero h = absurd (omega arith)
byte_at-append_right (x ∷ xs) ys k (suc at) h = byte_at-append_right xs ys k at (omega arith)

-- A byte of the i-th of `n` blocks of `k` bytes.
pub byte_at-blocks :
    (n k i at : ℕ) (g : ℕ → List ℕ)
    → i < n
    → at < k
    → ((j : ℕ) → j < n → length (g j) ≡ k)
    → byte_at (blocks n g) (i * k + at) ≡ byte_at (g i) at
unfolding blocks
byte_at-blocks zero k i at g l h e = absurd (omega arith)
byte_at-blocks (suc n) k i at g l h e =
    let size : length (blocks n g) ≡ n * k = length-blocks n k g (λ j m. e j (omega arith)) in
    elim (Bool-cases (ltb i n)) [
      | inl before ↦
          let bound : i * k + k ≤ n * k = block_end i n k (ltb→lt i n before) in
          byte_at-append_left (blocks n g) (g n) (i * k + at) (omega (arith, size, bound))
          ∙ byte_at-blocks n k i at g (ltb→lt i n before) h (λ j m. e j (omega arith))
      | inr last ↦
          let same : i ≡ n = ground arith in
          byte_at-append_right (blocks n g) (g n) at (i * k + at)
            (omega (arith, size, ap (λ (j : ℕ). j * k) same))
          ∙ ap (λ j. byte_at (g j) at) (sym same)
    ]

-- The byte that is found, where there is one.
pub byte_of : List ℕ → ℕ → ℕ
byte_of [] k = 0
byte_of (b ∷ bytes) zero = b
byte_of (b ∷ bytes) (suc k) = byte_of bytes k

pub byte_at-byte_of :
    (bytes : List ℕ) (k : ℕ) → k < length bytes → byte_at bytes k ≡ ok (byte_of bytes k)
unfolding byte_at byte_of
byte_at-byte_of [] k h = absurd (omega arith)
byte_at-byte_of (b ∷ bytes) zero h = refl
byte_at-byte_of (b ∷ bytes) (suc k) h = byte_at-byte_of bytes k (omega arith)

-- A byte is found or not.
pub byte_at-cases :
    (bytes : List ℕ) (k : ℕ) → ((b : ℕ) × (byte_at bytes k ≡ ok b)) ⊎ (byte_at bytes k ≡ fault)
unfolding byte_at
byte_at-cases [] k = inr refl
byte_at-cases (b ∷ bytes) zero = inl (b, refl)
byte_at-cases (b ∷ bytes) (suc k) = byte_at-cases bytes k

pub byte_at-replicate : (n v k : ℕ) → k < n → byte_at (replicate n v) k ≡ ok v
unfolding byte_at
byte_at-replicate zero v k h = absurd (omega arith)
byte_at-replicate (suc n) v zero h = refl
byte_at-replicate (suc n) v (suc k) h = byte_at-replicate n v k (omega arith)

pub byte_at-take :
    (n : ℕ) (bytes : List ℕ) (k : ℕ) → k < n → byte_at (take n bytes) k ≡ byte_at bytes k
unfolding byte_at
byte_at-take zero bytes k h = absurd (omega arith)
byte_at-take (suc n) [] k h = refl
byte_at-take (suc n) (b ∷ bytes) zero h = refl
byte_at-take (suc n) (b ∷ bytes) (suc k) h = byte_at-take n bytes k (omega arith)

-- Lists with the same bytes.
pub byte_at_eq :
    (xs ys : List ℕ)
    → length xs ≡ length ys
    → ((k : ℕ) → k < length xs → byte_at xs k ≡ byte_at ys k)
    → xs ≡ ys
unfolding byte_at
byte_at_eq [] [] e h = refl
byte_at_eq [] (y ∷ ys) e h = absurd (omega arith)
byte_at_eq (x ∷ xs) [] e h = absurd (omega arith)
byte_at_eq (x ∷ xs) (y ∷ ys) e h =
    ap₂ (λ a rest. a ∷ rest) (ok-injective (h 0 (omega arith)))
      (byte_at_eq xs ys (omega arith) (λ k l. h (suc k) (omega arith)))
