-- ===== src/Libimg/Image/Geometry/Upside.antt =====
-- server/src/libimg/libimgImage.cpp: Image::flip from top to bottom.
use ozonebase.Prelude.{
  ℕ, zero, suc, ◌+◌, ◌-◌, ◌*◌, ◌<◌, ◌≤◌, ◌≡◌, sym, ap, ap₂, ◌∙◌, true, false, List, ◌++◌, arith,
  ltb, lt→ltb, ◌⊎◌, inl, inr,
}
use native.Mathlib.Nat.{mul_comm}
use ozonebase.Libgen.Outcome.{ok}
use ozonebase.Libgen.Buffer.{read_at}
use ozonebase.Libimg.Raster.{gather-blocks, blocks, blocks_front, blocks_cong, raster}
use ozonebase.Libimg.Image.{
  Format, undef, grey, grey16, rgb, rgb48, yuv, yuvj, yuvp, yuvjp, Image, Traits, traits, bytes_of,
}
use ozonebase.Libimg.Image.Layout.{IsImage}
use ozonebase.Libimg.Image.Geometry.{pixel, flip, flip_planes_up, flip_up}
use ozonebase.Libimg.Image.Geometry.Drawing.{stride_pos}
use ozonebase.Libimg.Image.Geometry.Pixels.{length-pixel}
use ozonebase.Libimg.Image.Geometry.Made.{Shows}
use ozonebase.Libimg.Image.Geometry.Rows.{read_at-whole_row}
use ozonebase.Libimg.Image.Geometry.Flip.{
  IsPlanar, IsPacked, yuvp-IsPlanar, yuvjp-IsPlanar, grey-IsPacked, grey16-IsPacked, rgb-IsPacked,
  rgb48-IsPacked, yuv-IsPacked, yuvj-IsPacked, packed_planes, flip_full, flip_bytes-IsPacked,
  flip_bytes-IsPlanar,
}

-- The row that is `y` rows above the row `k` of a plane.
abbrev row_above : Image → ℕ → ℕ → ℕ → List ℕ
row_above i p k y = blocks i.width (λ x. pixel i p x (k - 1 - y))

flip_up_lem :
    (fuel k : ℕ) (i : Image)
    → IsImage i
    → 0 < i.planes
    → 0 < i.stride
    → k ≤ i.height
    → k * i.stride < fuel
    → flip_up fuel i (k * i.stride) ≡ ok (blocks k (row_above i 0 k))
unfolding flip_up blocks
flip_up_lem zero k i v p s h f = absurd (omega arith)
flip_up_lem (suc fuel) zero i v p s h f =
    let start : zero * i.stride ≡ 0 = omega arith in ap (flip_up (suc fuel) i) start
flip_up_lem (suc fuel) (suc k) i v p s h f =
    let step : suc k * i.stride ≡ k * i.stride + i.stride = omega arith in
    let above : suc k * i.stride - i.stride ≡ k * i.stride = omega (arith, step) in
    let more : ltb 0 (suc k * i.stride) ≡ true =
      lt→ltb 0 (suc k * i.stride) (omega (arith, step)) in
    let row : read_at (bytes_of i) (suc k * i.stride - i.stride) i.stride
        ≡ ok (blocks i.width (λ x. pixel i 0 x k)) =
      read_at-whole_row i 0 k _ v p (omega arith) (omega (arith, above)) in
    let rest : flip_up fuel i (suc k * i.stride - i.stride) ≡ ok (blocks k (row_above i 0 k)) =
      ap (flip_up fuel i) above ∙ flip_up_lem fuel k i v p s (omega arith) (omega (arith, step)) in
    let same : (a b : ℕ)
        → a ≡ b
        → blocks i.width (λ x. pixel i 0 x a) ≡ blocks i.width (λ x. pixel i 0 x b) =
      λ a b e. ap (λ y. blocks i.width (λ x. pixel i 0 x y)) e in
    rw (more, row, rest)
      (ap ok (
        ap₂ (λ a b. a ++ b) (same k (suc k - 1 - 0) (omega arith))
          (blocks_cong k _ _ (λ y l. same (k - 1 - y) (suc k - 1 - suc y) (omega arith)))
        ∙ sym (blocks_front k (row_above i 0 (suc k)))))

row_from_end :
    (i : Image) (p y : ℕ)
    → IsImage i
    → y < i.height
    → i.height * i.stride + p * (i.height * i.stride) - (y + 1) * i.stride
      ≡ p * i.plane_size + (i.height - 1 - y) * i.stride
row_from_end i p y v hy =
    let plane : i.plane_size ≡ i.height * i.stride =
      v.laid.plane_size_is ∙ mul_comm i.stride i.height in
    let split : i.height ≡ (i.height - 1 - y) + (y + 1) = omega arith in
    omega (arith, ap (λ k. p * k) plane, ap (λ k. k * i.stride) split)

flip-upside_packed :
    (i : Image)
    → IsImage i
    → IsPacked i.format
    → 0 < i.width
    → (j : Image) × (flip i false ≡ ok j)
      × Shows i j i.width i.height (λ p x y. pixel i p x (i.height - 1 - y))
unfolding blocks
flip-upside_packed i v h w =
    let one : i.planes ≡ 1 = packed_planes i v h in
    flip_full i false (λ p x y. pixel i p x (i.height - 1 - y)) v
      (λ p x y hp hx hy. length-pixel i p x (i.height - 1 - y) v hp hx (omega arith))
      (flip_bytes-IsPacked i.format false i h
        ∙ flip_up_lem (suc (i.height * i.stride)) i.height i v (omega arith) (stride_pos i v w)
            (omega arith) (omega arith)
        ∙ ap (λ n. ok (raster n i.height i.width (λ p x y. pixel i p x (i.height - 1 - y))))
            (sym one))

flip-upside_planes :
    (i : Image)
    → IsImage i
    → IsPlanar i.format
    → (j : Image) × (flip i false ≡ ok j)
      × Shows i j i.width i.height (λ p x y. pixel i p x (i.height - 1 - y))
unfolding flip_planes_up
flip-upside_planes i v h =
    flip_full i false (λ p x y. pixel i p x (i.height - 1 - y)) v
      (λ p x y hp hx hy. length-pixel i p x (i.height - 1 - y) v hp hx (omega arith))
      (flip_bytes-IsPlanar i.format false i h
        ∙ gather-blocks i.planes _ _ (λ p hp. gather-blocks i.height _ _ (λ y hy.
          read_at-whole_row i p (i.height - 1 - y) _ v hp (omega arith) (row_from_end i p y v hy))))

-- A defined format is of one plane or of three.
planes_cases : (f : Format) (t : Traits) → traits f ≡ ok t → IsPacked f ⊎ IsPlanar f
planes_cases undef t d = absurd (cc d)
planes_cases grey t d = inl grey-IsPacked
planes_cases grey16 t d = inl grey16-IsPacked
planes_cases rgb t d = inl rgb-IsPacked
planes_cases rgb48 t d = inl rgb48-IsPacked
planes_cases yuv t d = inl yuv-IsPacked
planes_cases yuvj t d = inl yuvj-IsPacked
planes_cases yuvp t d = inr yuvp-IsPlanar
planes_cases yuvjp t d = inr yuvjp-IsPlanar

-- A valid image, with one plane or three, that is flipped from top to bottom is one of its format and size,
-- with the rows of each plane in the opposite order, if its rows are not empty.
pub flip-upside :
    (i : Image)
    → IsImage i
    → 0 < i.width
    → (j : Image) × (flip i false ≡ ok j)
      × Shows i j i.width i.height (λ p x y. pixel i p x (i.height - 1 - y))
flip-upside i v w = elim (planes_cases i.format v.traits_of v.defined) [
  | inl packed ↦ flip-upside_packed i v packed w
  | inr planar ↦ flip-upside_planes i v planar
]
