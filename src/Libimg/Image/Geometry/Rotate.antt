-- ===== src/Libimg/Image/Geometry/Rotate.antt =====
-- server/src/libimg/libimgImage.cpp: Image::rotate by 180 degrees.
use ozonebase.Prelude.{ℕ, ◌+◌, ◌-◌, ◌*◌, ◌<◌, ◌≡◌, ap, List, arith, length}
use ozonebase.Libgen.Outcome.{ok}
use ozonebase.Libimg.Raster.{gather-blocks, gather_back-blocks}
use ozonebase.Libimg.Image.{Image}
use ozonebase.Libimg.Image.Layout.{IsImage}
use ozonebase.Libimg.Image.Geometry.{pixel, rotate_half}
use ozonebase.Libimg.Image.Geometry.Pixels.{Laid-Sizes, length-pixel}
use ozonebase.Libimg.Image.Geometry.Made.{Shows, replace_raster, write_raster}
use ozonebase.Libimg.Image.Geometry.Rows.{read_at-place}

-- A valid image that is rotated by 180 degrees is one of its format and size, in which each plane
-- has its rows in the opposite order and each row its pixels.
pub rotate_half_lem :
    (i : Image)
    → IsImage i
    → (j : Image) × (rotate_half i ≡ ok j)
      × Shows i j i.width i.height (λ p x y. pixel i p (i.width - 1 - x) (i.height - 1 - y))
unfolding rotate_half
rotate_half_lem i v =
    let s = Laid-Sizes v.laid in
    let cell : ℕ → ℕ → ℕ → List ℕ = λ p x y. pixel i p (i.width - 1 - x) (i.height - 1 - y) in
    let whole : (p x y : ℕ)
        → p < i.planes
        → x < i.width
        → y < i.height
        → length (cell p x y) ≡ i.pixel_step =
      λ p x y hp hx hy.
        length-pixel i p (i.width - 1 - x) (i.height - 1 - y) v hp (omega arith) (omega arith) in
    let bytes = gather-blocks i.planes _ _ (λ p hp. gather_back-blocks i.height _ _ (λ y hy.
      gather_back-blocks i.width _ _ (λ x hx.
        read_at-place i p x y (p * i.plane_size + (y * i.width + x) * i.pixel_step) v hp hx hy
          (omega (arith, ap (λ k. y * k) s.row))))) in
    let r = replace_raster i cell _ v whole (write_raster i cell i.size v whole (omega arith)) in
    (r.0, rw bytes r.1, r.2)
