-- ===== src/Libimg/Raster.antt =====
-- Bytes that a counted loop writes one block after another, and what is then found at an offset.
use ozonebase.Prelude.{
  ℕ, zero, suc, ◌+◌, ◌-◌, ◌*◌, ◌<◌, ◌≤◌, ◌≡◌, refl, sym, ap, ap₂, ◌∙◌, inl, inr, List, [], ◌∷◌,
  ◌++◌, arith, length, take, drop, length-append, append-nil, append_assoc, replicate, drop-append,
  drop-drop, take-take, take_all, drop-take, Bool-cases, ltb, ltb→lt,
}
use native.Mathlib.Nat.{mul-le-mul_right}
use ozonebase.Libgen.Outcome.{Outcome, ok, ◌>>=◌}

-- `for ( i = 0; i < n; i++ )` with a block that goes behind the others, and with one that goes before.
unfoldable pub gather : ℕ → (ℕ → Outcome (List ℕ)) → Outcome (List ℕ)
gather zero f = ok []
gather (suc n) f = gather n f >>= λ done. f n >>= λ next. ok (done ++ next)

unfoldable pub gather_back : ℕ → (ℕ → Outcome (List ℕ)) → Outcome (List ℕ)
gather_back zero f = ok []
gather_back (suc n) f = gather_back n f >>= λ done. f n >>= λ next. ok (next ++ done)

-- The bytes from an offset on.
abbrev pub slice : List ℕ → ℕ → ℕ → List ℕ
slice bytes at n = take n (drop at bytes)

-- Blocks one after another.
unfoldable pub blocks : ℕ → (ℕ → List ℕ) → List ℕ
blocks zero g = []
blocks (suc n) g = blocks n g ++ g n

pub gather-blocks :
    (n : ℕ) (f : ℕ → Outcome (List ℕ)) (g : ℕ → List ℕ)
    → ((i : ℕ) → i < n → f i ≡ ok (g i))
    → gather n f ≡ ok (blocks n g)
unfolding gather blocks
gather-blocks zero f g h = refl
gather-blocks (suc n) f g h =
    rw (gather-blocks n f g (λ i l. h i (omega arith)), h n (omega arith)) refl

pub length-blocks :
    (n k : ℕ) (g : ℕ → List ℕ) → ((i : ℕ) → i < n → length (g i) ≡ k) → length (blocks n g) ≡ n * k
unfolding blocks
length-blocks zero k g h = omega arith
length-blocks (suc n) k g h = omega (
  arith,
  length-append (blocks n g) (g n),
  length-blocks n k g (λ i l. h i (omega arith)),
  h n (omega arith),
)

-- A slice of the front of two lists.
take-drop-append :
    (n at : ℕ) (xs ys : List ℕ) → at + n ≤ length xs → slice (xs ++ ys) at n ≡ slice xs at n
take-drop-append zero zero xs ys h = refl
take-drop-append (suc n) zero [] ys h = absurd (omega arith)
take-drop-append (suc n) zero (x ∷ xs) ys h =
    ap (◌∷◌ x) (take-drop-append n zero xs ys (omega arith))
take-drop-append n (suc at) [] ys h = absurd (omega arith)
take-drop-append n (suc at) (x ∷ xs) ys h = take-drop-append n at xs ys (omega arith)

le_of_lt_suc : (i n : ℕ) → i < suc n → i ≤ n
le_of_lt_suc i n h = omega arith

-- Where the i-th of `n` blocks ends.
pub block_end : (i n k : ℕ) → i < n → i * k + k ≤ n * k
block_end i zero k h = absurd (omega arith)
block_end i (suc n) k h = omega (arith, mul-le-mul_right k (le_of_lt_suc i n h))

-- What is found inside the i-th of `n` blocks of `k` bytes.
pub slice-blocks :
    (n k i at c : ℕ) (g : ℕ → List ℕ)
    → i < n
    → at + c ≤ k
    → ((j : ℕ) → j < n → length (g j) ≡ k)
    → slice (blocks n g) (i * k + at) c ≡ slice (g i) at c
unfolding blocks
slice-blocks zero k i at c g l h e = absurd (omega arith)
slice-blocks (suc n) k i at c g l h e =
    let size : length (blocks n g) ≡ n * k = length-blocks n k g (λ j m. e j (omega arith)) in
    elim (Bool-cases (ltb i n)) [
      | inl before ↦
          let bound : i * k + k ≤ n * k = block_end i n k (ltb→lt i n before) in
          take-drop-append c (i * k + at) (blocks n g) (g n) (omega (arith, size, bound))
          ∙ slice-blocks n k i at c g (ltb→lt i n before) h (λ j m. e j (omega arith))
      | inr last ↦
          let same : i ≡ n = ground arith in
          let place : i * k + at ≡ length (blocks n g) + at =
            omega (arith, size, ap (λ (j : ℕ). j * k) same) in
          ap (take c) (drop-append (i * k + at) at (blocks n g) (g n) place)
          ∙ ap (λ j. slice (g j) at c) (sym same)
    ]

-- A slice of a slice.
pub slice-slice :
    (bytes : List ℕ) (a n b c : ℕ) → b + c ≤ n → slice (slice bytes a n) b c ≡ slice bytes (a + b) c
slice-slice bytes a n b c h =
    ap (take c) (drop-take b (n - b) n (drop a bytes) (omega arith))
    ∙ take-take c (n - b) (drop b (drop a bytes)) (omega arith)
    ∙ ap (take c) (drop-drop b a bytes)

-- The bytes of planes of rows of pixels.
abbrev pub raster : ℕ → ℕ → ℕ → (ℕ → ℕ → ℕ → List ℕ) → List ℕ
raster planes height width pixel =
    blocks planes (λ p. blocks height (λ y. blocks width (λ x. pixel p x y)))

module _ (planes height width step : ℕ) where
  -- Where a pixel ends.
  pub pixel_end :
      (p x y : ℕ)
      → p < planes
      → x < width
      → y < height
      → p * (height * (width * step)) + (y * (width * step) + x * step) + step
        ≤ planes * (height * (width * step))
  pixel_end p x y hp hx hy = omega (
    arith,
    block_end p planes (height * (width * step)) hp,
    block_end y height (width * step) hy,
    block_end x width step hx,
  )

  module _ (pixel : ℕ → ℕ → ℕ → List ℕ)
      (whole : (p x y : ℕ)
        → p < planes
        → x < width
        → y < height
        → length (pixel p x y) ≡ step) where
    length_row :
        (p y : ℕ)
        → p < planes
        → y < height
        → length (blocks width (λ x. pixel p x y)) ≡ width * step
    length_row p y hp hy =
        length-blocks width step (λ x. pixel p x y) (λ x hx. whole p x y hp hx hy)

    length_plane :
        (p : ℕ)
        → p < planes
        → length (blocks height (λ y. blocks width (λ x. pixel p x y))) ≡ height * (width * step)
    length_plane p hp =
        length-blocks height (width * step) (λ y. blocks width (λ x. pixel p x y))
          (λ y hy. length_row p y hp hy)

    pub length-raster :
        length (raster planes height width pixel) ≡ planes * (height * (width * step))
    length-raster =
        length-blocks planes (height * (width * step))
          (λ p. blocks height (λ y. blocks width (λ x. pixel p x y))) length_plane

    -- What is found at a pixel's place.
    pub slice-raster :
        (p x y : ℕ)
        → p < planes
        → x < width
        → y < height
        → slice
            (raster planes height width pixel)
            (p * (height * (width * step)) + (y * (width * step) + x * step))
            step
          ≡ pixel p x y
    slice-raster p x y hp hx hy =
        let in_row : x * step + step ≤ width * step = block_end x width step hx in
        let in_plane = block_end y height (width * step) hy in
        slice-blocks planes (height * (width * step)) p (y * (width * step) + x * step) step
          (λ p. blocks height (λ y. blocks width (λ x. pixel p x y))) hp
          (omega (arith, in_row, in_plane)) length_plane
        ∙ slice-blocks height (width * step) y (x * step) step
            (λ y. blocks width (λ x. pixel p x y)) hy in_row (λ y hy. length_row p y hp hy)
        ∙ ap (λ at. slice (blocks width (λ x. pixel p x y)) at step) (omega arith)
        ∙ slice-blocks width step x 0 step (λ x. pixel p x y) hx (omega arith)
            (λ x hx. whole p x y hp hx hy)
        ∙ take_all step (pixel p x y) (omega (arith, whole p x y hp hx hy))

-- Nested loops over planes, rows and pixels.
pub gather-raster :
    (planes height width : ℕ) (f : ℕ → ℕ → ℕ → Outcome (List ℕ)) (pixel : ℕ → ℕ → ℕ → List ℕ)
    → ((p x y : ℕ) → p < planes → x < width → y < height → f p x y ≡ ok (pixel p x y))
    → gather planes (λ p. gather height (λ y. gather width (λ x. f p x y)))
      ≡ ok (raster planes height width pixel)
gather-raster planes height width f pixel h =
    gather-blocks planes _ _ (λ p hp.
      gather-blocks height _ _ (λ y hy. gather-blocks width _ _ (λ x hx. h p x y hp hx hy)))

-- Blocks read from the other end.
pub blocks_front : (n : ℕ) (g : ℕ → List ℕ) → blocks (suc n) g ≡ g 0 ++ blocks n (λ i. g (suc i))
unfolding blocks
blocks_front zero g = sym (append-nil (g 0))
blocks_front (suc n) g =
    ap (λ front. front ++ g (suc n)) (blocks_front n g)
    ∙ append_assoc (g 0) (blocks n (λ i. g (suc i))) (g (suc n))

-- Only the blocks that there are count.
pub blocks_cong :
    (n : ℕ) (g h : ℕ → List ℕ) → ((i : ℕ) → i < n → g i ≡ h i) → blocks n g ≡ blocks n h
unfolding blocks
blocks_cong zero g h e = refl
blocks_cong (suc n) g h e =
    ap₂ (λ a b. a ++ b) (blocks_cong n g h (λ i l. e i (omega arith))) (e n (omega arith))

pub gather_back-blocks :
    (n : ℕ) (f : ℕ → Outcome (List ℕ)) (g : ℕ → List ℕ)
    → ((i : ℕ) → i < n → f i ≡ ok (g i))
    → gather_back n f ≡ ok (blocks n (λ i. g (n - 1 - i)))
unfolding gather_back blocks
gather_back-blocks zero f g h = refl
gather_back-blocks (suc n) f g h =
    let rest : gather_back n f ≡ ok (blocks n (λ i. g (n - 1 - i))) =
      gather_back-blocks n f g (λ i l. h i (omega arith)) in
    let last : f n ≡ ok (g n) = h n (omega arith) in
    rw (rest, last)
      (ap ok (
        ap₂ (λ a b. a ++ b) (ap g (omega arith)) (blocks_cong n _ _ (λ i l. ap g (omega arith)))
        ∙ sym (blocks_front n (λ i. g (suc n - 1 - i)))))

-- As many zeros as blocks of zeros have.
abbrev pub zeros : ℕ → List ℕ
zeros n = replicate n 0

zeros-sum : (a b : ℕ) → zeros (a + b) ≡ zeros a ++ zeros b
zeros-sum zero b = ap zeros (omega arith)
zeros-sum (suc a) b =
    let shifted : suc a + b ≡ suc (a + b) = omega arith in
    ap zeros shifted ∙ ap (◌∷◌ 0) (zeros-sum a b)

pub replicate-blocks : (n k : ℕ) → replicate (n * k) 0 ≡ blocks n (λ i. replicate k 0)
unfolding blocks
replicate-blocks zero k = let none_left : zero * k ≡ 0 = omega arith in ap zeros none_left
replicate-blocks (suc n) k =
    let one_more : suc n * k ≡ n * k + k = omega arith in
    ap zeros one_more ∙ zeros-sum (n * k) k ∙ ap (λ front. front ++ zeros k) (replicate-blocks n k)

pub drop-replicate : (n k : ℕ) → drop n (zeros (n + k)) ≡ zeros k
drop-replicate zero k = let same : zero + k ≡ k = omega arith in ap zeros same
drop-replicate (suc n) k =
    let shifted : suc n + k ≡ suc (n + k) = omega arith in
    ap (λ m. drop (suc n) (zeros m)) shifted ∙ drop-replicate n k

-- A slice as blocks.
take-sum : (m k : ℕ) (xs : List ℕ) → take (m + k) xs ≡ take m xs ++ take k (drop m xs)
take-sum zero k xs = let same : zero + k ≡ k = omega arith in ap (λ n. take n xs) same
take-sum (suc m) k [] = take_all (suc m + k) [] (omega arith) ∙ sym (take_all k [] (omega arith))
take-sum (suc m) k (x ∷ xs) =
    let shifted : suc m + k ≡ suc (m + k) = omega arith in
    ap (λ n. take n (x ∷ xs)) shifted ∙ ap (◌∷◌ x) (take-sum m k xs)

pub slice_in_pieces :
    (n k at : ℕ) (bytes : List ℕ)
    → slice bytes at (n * k) ≡ blocks n (λ x. slice bytes (at + x * k) k)
unfolding blocks
slice_in_pieces zero k at bytes =
    let none_left : zero * k ≡ 0 = omega arith in ap (slice bytes at) none_left
slice_in_pieces (suc n) k at bytes =
    let one_more : suc n * k ≡ n * k + k = omega arith in
    ap (slice bytes at) one_more
    ∙ take-sum (n * k) k (drop at bytes)
    ∙ ap₂ (λ a b. a ++ take k b) (slice_in_pieces n k at bytes) (drop-drop (n * k) at bytes)
