-- ===== src/Libimg/Image/Geometry/Mirrored.antt =====
-- server/src/libimg/libimgImage.cpp: Image::flip from left to right, of an image in one plane.
use ozonebase.Prelude.{
  ℕ, zero, suc, ◌+◌, ◌-◌, ◌*◌, ◌<◌, ◌≡◌, refl, sym, ap, ap₂, ◌∙◌, inl, inr, true, false, List, ◌++◌,
  arith, length, ltb, lt→ltb, if◌then◌else◌, Bool-cases, length-replicate, drop,
}
use native.Mathlib.Nat.{mul-le-mul_left}
use ozonebase.Libgen.Outcome.{ok}
use ozonebase.Libgen.Buffer.{read_at, write_at}
use ozonebase.Libgen.Buffer.Room.{write_at-ok}
use ozonebase.Libimg.Raster.{
  zeros, gather, gather-blocks, blocks, blocks_front, blocks_cong, raster, length-blocks,
  replicate-blocks, drop-replicate,
}
use ozonebase.Libimg.Image.{Image, bytes_of}
use ozonebase.Libimg.Image.Layout.{IsImage}
use ozonebase.Libimg.Image.Geometry.{pixel, flip, flip_bytes, flip_rows}
use ozonebase.Libimg.Image.Geometry.Drawing.{stride_pos}
use ozonebase.Libimg.Image.Geometry.Pixels.{Laid-Sizes, length-pixel}
use ozonebase.Libimg.Image.Geometry.Made.{Shows}
use ozonebase.Libimg.Image.Geometry.Rows.{read_at-place}
use ozonebase.Libimg.Image.Geometry.Flip.{IsPacked, packed_planes, flip_drawn, flip_bytes-IsPacked}

-- A row in the opposite order.
abbrev mirrored : Image → ℕ → List ℕ
mirrored i y = blocks i.width (λ x. pixel i 0 (i.width - 1 - x) y)

-- The row that ends at `src`.
mirrored_row :
    (i : Image) (y src : ℕ)
    → IsImage i
    → 0 < i.planes
    → y < i.height
    → src ≡ suc y * i.stride
    → gather i.width (λ x. read_at (bytes_of i) (src - (x + 1) * i.pixel_step) i.pixel_step)
      ≡ ok (mirrored i y)
mirrored_row i y src v p hy e =
    let s = Laid-Sizes v.laid in
    gather-blocks i.width _ _ (λ x hx.
      let split : i.width ≡ (i.width - 1 - x) + (x + 1) = omega arith in
      read_at-place i 0 (i.width - 1 - x) y _ v p (omega arith) hy
        (omega (arith, e, s.row, ap (λ k. k * i.pixel_step) split)))

size-packed : (i : Image) → IsImage i → i.planes ≡ 1 → i.buffer.size ≡ i.height * i.stride
size-packed i v one =
    let s = Laid-Sizes v.laid in
    v.filled ∙ s.whole ∙ ap₂ (λ n k. n * (i.height * k)) one (sym s.row) ∙ omega arith

-- All rows but the last are written.
flip_rows_lem :
    (fuel m k : ℕ) (i : Image)
    → IsImage i
    → i.planes ≡ 1
    → 0 < i.stride
    → k + suc m ≡ i.height
    → m < fuel
    → flip_rows fuel i (suc k * i.stride) ≡ ok (blocks m (λ y. mirrored i (k + y)))
unfolding flip_rows blocks
flip_rows_lem zero m k i v one s h f = absurd (omega arith)
flip_rows_lem (suc fuel) zero k i v one s h f =
    let size : i.buffer.size ≡ suc k * i.stride =
      size-packed i v one ∙ ap (λ n. n * i.stride) (omega arith) in
    let done : ltb (suc k * i.stride) i.buffer.size ≡ false = ground (arith, size) in rw done refl
flip_rows_lem (suc fuel) (suc m) k i v one s h f =
    let size : i.buffer.size ≡ suc (suc (k + m)) * i.stride =
      size-packed i v one ∙ ap (λ n. n * i.stride) (omega arith) in
    let more : ltb (suc k * i.stride) i.buffer.size ≡ true =
      lt→ltb (suc k * i.stride) i.buffer.size (omega (arith, size)) in
    let row = mirrored_row i k (suc k * i.stride) v (omega arith) (omega arith) refl in
    let next : suc k * i.stride - i.width * i.pixel_step + 2 * i.stride ≡ suc (suc k) * i.stride =
      omega (arith, (Laid-Sizes v.laid).row) in
    let rest : flip_rows fuel i (suc k * i.stride - i.width * i.pixel_step + 2 * i.stride)
        ≡ ok (blocks m (λ y. mirrored i (suc k + y))) =
      ap (flip_rows fuel i) next
      ∙ flip_rows_lem fuel m (suc k) i v one s (omega arith) (omega arith) in
    let same : (a b : ℕ) → a ≡ b → mirrored i a ≡ mirrored i b = λ a b e. ap (mirrored i) e in
    rw (more, row, rest)
      (ap ok (
        ap₂ (λ a b. a ++ b) (same k (k + 0) (omega arith))
          (blocks_cong m _ _ (λ y l. same (suc k + y) (k + suc y) (omega arith)))
        ∙ sym (blocks_front m (λ y. mirrored i (k + y)))))

-- What the image shows then: the last row is black.
pub mirrored_cell : Image → ℕ → ℕ → ℕ → List ℕ
mirrored_cell i p x y =
    if ltb (y + 1) i.height then pixel i p (i.width - 1 - x) y else zeros i.pixel_step

mirrored_cell-above :
    (i : Image) (p x y : ℕ)
    → y + 1 < i.height
    → mirrored_cell i p x y ≡ pixel i p (i.width - 1 - x) y
unfolding mirrored_cell
mirrored_cell-above i p x y h = rw (lt→ltb (y + 1) i.height h) refl

mirrored_cell-last :
    (i : Image) (p x y : ℕ) → y + 1 ≡ i.height → mirrored_cell i p x y ≡ zeros i.pixel_step
unfolding mirrored_cell
mirrored_cell-last i p x y h =
    let stopped : ltb (y + 1) i.height ≡ false = ground arith in rw stopped refl

-- Rows with zeros behind them.
padded_rows :
    (m : ℕ) (i : Image)
    → IsImage i
    → suc m ≡ i.height
    → blocks m (λ y. mirrored i (0 + y)) ++ zeros i.stride
      ≡ blocks i.height (λ y. blocks i.width (λ x. mirrored_cell i 0 x y))
unfolding blocks
padded_rows m i v e =
    ap₂ (λ a b. a ++ b)
      (blocks_cong m _ _ (λ y l. blocks_cong i.width _ _ (λ x hx.
        let same : 0 + y ≡ y = omega arith in
        ap (pixel i 0 (i.width - 1 - x)) same ∙ sym (mirrored_cell-above i 0 x y (omega arith)))))
      (ap zeros (Laid-Sizes v.laid).row
        ∙ replicate-blocks i.width i.pixel_step
        ∙ blocks_cong i.width _ _ (λ x hx. sym (mirrored_cell-last i 0 x m (omega arith))))
    ∙ ap (λ n. blocks n (λ y. blocks i.width (λ x. mirrored_cell i 0 x y))) e

-- Bytes written over the front of zeros.
write_at-zeros :
    (bytes : List ℕ) (n k : ℕ)
    → n ≡ length bytes + k
    → write_at (zeros n) 0 bytes ≡ ok (bytes ++ zeros k)
write_at-zeros bytes n k e =
    let shifted : 0 + length bytes ≡ length bytes = omega arith in
    write_at-ok (zeros n) 0 bytes (omega (arith, length-replicate {A = ℕ} n 0))
    ∙ ap (λ rest. ok (bytes ++ rest))
        (ap₂ (λ m a. drop a (zeros m)) e shifted ∙ drop-replicate (length bytes) k)

length-mirrored_cell :
    (i : Image) (p x y : ℕ)
    → IsImage i
    → p < i.planes
    → x < i.width
    → y < i.height
    → length (mirrored_cell i p x y) ≡ i.pixel_step
length-mirrored_cell i p x y v hp hx hy = elim (Bool-cases (ltb (y + 1) i.height)) [
  | inl above ↦
      ap length (mirrored_cell-above i p x y (ground arith))
      ∙ length-pixel i p (i.width - 1 - x) y v hp (omega arith) hy
  | inr last ↦
      ap length (mirrored_cell-last i p x y (ground arith)) ∙ length-replicate i.pixel_step 0
]

-- A valid image in one plane, with a width and a height above 0, that is mirrored from left to
-- right has each row but the last in the opposite order. The last row is not copied: it is left
-- zero.
pub flip-mirrored_packed :
    (i : Image)
    → IsImage i
    → IsPacked i.format
    → 0 < i.width
    → 0 < i.height
    → (j : Image) × (flip i true ≡ ok j) × Shows i j i.width i.height (mirrored_cell i)
unfolding blocks
flip-mirrored_packed i v packed w h =
    let one : i.planes ≡ 1 = packed_planes i v packed in
    let m : ℕ = i.height - 1 in
    let last : suc m ≡ i.height = omega arith in
    let s : 0 < i.stride = stride_pos i v w in
    let size : i.buffer.size ≡ m * i.stride + i.stride =
      size-packed i v one ∙ ap (λ n. n * i.stride) (sym last) ∙ omega arith in
    let first : i.stride ≡ suc 0 * i.stride = omega arith in
    let rows : flip_bytes i.format true i ≡ ok (blocks m (λ y. mirrored i (0 + y))) =
      flip_bytes-IsPacked i.format true i packed
      ∙ ap (flip_rows (suc i.buffer.size) i) first
      ∙ flip_rows_lem (suc i.buffer.size) m 0 i v one s (omega arith)
          (omega (arith, size, mul-le-mul_left m s)) in
    let count : length (blocks m (λ y. mirrored i (0 + y))) ≡ m * i.stride =
      length-blocks m i.stride _ (λ y l.
        length-blocks i.width i.pixel_step _ (λ x hx.
          length-pixel i 0 (i.width - 1 - x) (0 + y) v (omega arith) (omega arith) (omega arith))
        ∙ sym (Laid-Sizes v.laid).row) in
    flip_drawn i true (mirrored_cell i) v
      (λ p x y hp hx hy. length-mirrored_cell i p x y v hp hx hy)
      (rw rows (
        write_at-zeros _ i.buffer.size i.stride (omega (arith, size, count))
        ∙ ap ok (padded_rows m i v last)
        ∙ ap (λ n. ok (raster n i.height i.width (mirrored_cell i))) (sym one)))
