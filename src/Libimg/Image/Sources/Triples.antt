-- ===== src/Libimg/Image/Sources/Triples.antt =====
-- server/src/libimg/libimgImage.cpp: BGR and the packed bits of RGB.
use ozonebase.Prelude.{
  ℕ, zero, suc, ◌+◌, ◌-◌, ◌*◌, ◌/◌, ◌%◌, ◌<◌, ◌≤◌, ◌≡◌, refl, sym, ap, ◌∙◌, arith, List, [], ◌∷◌,
  length,
}
use native.Mathlib.Nat.{div-add-mod', mod-lt}
use ozonebase.Libgen.Outcome.{ok, ◌>>=◌}
use ozonebase.Libimg.Raster.{gather-blocks, blocks, length-blocks, block_end}
use ozonebase.Libimg.Image.Samples.{byte_at}
use ozonebase.Libimg.Image.Samples.Blocks.{byte_at-blocks, byte_of, byte_at-byte_of, byte_at_eq}
use ozonebase.Libimg.Image.Sources.{copy_bgr, fields}

-- What is copied of `n` pixels.
bgr_blocks : ℕ → List ℕ → List ℕ
bgr_blocks n src =
    blocks n (λ i. byte_of src (i * 3 + 2) ∷ byte_of src (i * 3 + 1) ∷ byte_of src (i * 3) ∷ [])

copy_bgr-blocks :
    (width height : ℕ) (src : List ℕ)
    → width * height * 3 ≤ length src
    → copy_bgr src width height ≡ ok (bgr_blocks (width * height) src)
unfolding copy_bgr bgr_blocks
copy_bgr-blocks width height src h = gather-blocks (width * height) _ _ (λ i l.
    let inside = block_end i (width * height) 3 l in
    rw
      (
        byte_at-byte_of src (i * 3 + 2) (omega (arith, inside)),
        byte_at-byte_of src (i * 3 + 1) (omega (arith, inside)),
        byte_at-byte_of src (i * 3) (omega (arith, inside)),
      )
      refl)

length-bgr_blocks : (n : ℕ) (src : List ℕ) → length (bgr_blocks n src) ≡ n * 3
unfolding bgr_blocks
length-bgr_blocks n src = length-blocks n 3 _ (λ i h. refl)

byte_at-bgr_blocks :
    (n i c : ℕ) (src : List ℕ)
    → i < n
    → c < 3
    → n * 3 ≤ length src
    → byte_at (bgr_blocks n src) (i * 3 + c) ≡ byte_at src (i * 3 + (2 - c))
unfolding bgr_blocks byte_at
byte_at-bgr_blocks n i zero src h l m =
    byte_at-blocks n 3 i 0 _ h l (λ j k. refl)
    ∙ sym (byte_at-byte_of src (i * 3 + 2) (omega (arith, block_end i n 3 h)))
byte_at-bgr_blocks n i (suc zero) src h l m =
    byte_at-blocks n 3 i 1 _ h l (λ j k. refl)
    ∙ sym (byte_at-byte_of src (i * 3 + 1) (omega (arith, block_end i n 3 h)))
byte_at-bgr_blocks n i (suc (suc zero)) src h l m =
    byte_at-blocks n 3 i 2 _ h l (λ j k. refl)
    ∙ sym (byte_at-byte_of src (i * 3) (omega (arith, block_end i n 3 h)))
    ∙ ap (byte_at src) (omega arith)
byte_at-bgr_blocks n i (suc (suc (suc c))) src h l m = absurd (omega arith)

twice :
    (n k : ℕ) (src : List ℕ)
    → k < n * 3
    → n * 3 ≡ length src
    → byte_at (bgr_blocks n (bgr_blocks n src)) k ≡ byte_at src k
twice n k src h e =
    let inner = length-bgr_blocks n src in
    let split = div-add-mod' k 3 in
    let c : k % 3 < 3 = mod-lt k (omega arith) in
    ap (byte_at (bgr_blocks n (bgr_blocks n src))) (sym split)
    ∙ byte_at-bgr_blocks n (k / 3) (k % 3) (bgr_blocks n src) (omega arith) c (omega (arith, inner))
    ∙ byte_at-bgr_blocks n (k / 3) (2 - k % 3) src (omega arith) (omega arith) (omega (arith, e))
    ∙ ap (byte_at src) (omega arith)

-- A source of BGR pixels that is copied is RGB, and copied once more it is as it was.
pub copy_bgr-copy_bgr :
    (width height : ℕ) (src : List ℕ)
    → width * height * 3 ≡ length src
    → (copy_bgr src width height >>= λ once. copy_bgr once width height) ≡ ok src
copy_bgr-copy_bgr width height src e =
    let n : ℕ = width * height in
    let inner = length-bgr_blocks n src in
    let outer = length-bgr_blocks n (bgr_blocks n src) in
    rw (copy_bgr-blocks width height src (omega (arith, e))) (
      copy_bgr-blocks width height (bgr_blocks n src) (omega (arith, inner))
      ∙ ap ok (
          byte_at_eq (bgr_blocks n (bgr_blocks n src)) src (omega (arith, outer, e))
            (λ k h. twice n k src (omega (arith, outer)) e)))

-- The red, green and blue of a pixel in two bytes are all of its bits.
pub fields-565 :
    (word : ℕ)
    → word < 65536
    → (r : ℕ) × (g : ℕ) × (b : ℕ) × (fields word 5 6 5 ≡ r ∷ g ∷ b ∷ [])
      × (r < 32)
      × (g < 64)
      × (b < 32)
      × (r * 2048 + g * 32 + b ≡ word)
fields-565 word h = (
  word / 2048 % 32 % 256,
  word / 32 % 64 % 256,
  word / 1 % 32 % 256,
  refl,
  omega arith,
  omega arith,
  omega arith,
  omega arith,
)
