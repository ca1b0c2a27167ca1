-- ===== src/Libimg/Image/Geometry/Rows.antt =====
-- server/src/libimg/libimgImage.cpp: rows of an image, read in one piece or pixel by pixel.
use ozonebase.Prelude.{ℕ, ◌+◌, ◌*◌, ◌<◌, ◌≤◌, ◌≡◌, sym, ap, ◌∙◌, arith}
use native.Mathlib.Nat.{mul-le-mul_right}
use ozonebase.Libgen.Outcome.{ok}
use ozonebase.Libgen.Buffer.{read_at}
use ozonebase.Libgen.Buffer.Room.{read_at-ok}
use ozonebase.Libimg.Raster.{slice, blocks, blocks_cong, slice_in_pieces, block_end}
use ozonebase.Libimg.Image.{Image, bytes_of}
use ozonebase.Libimg.Image.Layout.{IsImage}
use ozonebase.Libimg.Image.Geometry.{pixel}
use ozonebase.Libimg.Image.Geometry.Pixels.{Laid-Sizes, length-bytes_of, read_at-pixel}

-- Pixels of a row that are one behind the other.
pub read_at-row :
    (i : Image) (p lo n y at : ℕ)
    → IsImage i
    → p < i.planes
    → lo + n ≤ i.width
    → y < i.height
    → at ≡ p * i.plane_size + (y * i.stride + lo * i.pixel_step)
    → read_at (bytes_of i) at (n * i.pixel_step) ≡ ok (blocks n (λ x. pixel i p (lo + x) y))
unfolding pixel
read_at-row i p lo n y at v hp hx hy e =
    let s = Laid-Sizes v.laid in
    let in_row = mul-le-mul_right i.pixel_step hx in
    let in_plane = block_end y i.height i.stride hy in
    let in_image = block_end p i.planes i.plane_size hp in
    let plane : i.plane_size ≡ i.height * i.stride = s.plane ∙ ap (λ k. i.height * k) (sym s.row) in
    let whole : i.size ≡ i.planes * i.plane_size = s.whole ∙ ap (λ k. i.planes * k) (sym s.plane) in
    read_at-ok (bytes_of i) at (n * i.pixel_step)
      (omega (arith, e, in_row, in_plane, in_image, plane, whole, s.row, length-bytes_of v))
    ∙ ap ok (
        slice_in_pieces n i.pixel_step at (bytes_of i)
        ∙ blocks_cong n _ _
            (λ x l. ap (λ from. slice (bytes_of i) from i.pixel_step) (omega (arith, e))))

-- A whole row.
pub read_at-whole_row :
    (i : Image) (p y at : ℕ)
    → IsImage i
    → p < i.planes
    → y < i.height
    → at ≡ p * i.plane_size + y * i.stride
    → read_at (bytes_of i) at i.stride ≡ ok (blocks i.width (λ x. pixel i p x y))
read_at-whole_row i p y at v hp hy e =
    let s = Laid-Sizes v.laid in
    ap (read_at (bytes_of i) at) s.row
    ∙ read_at-row i p 0 i.width y at v hp (omega arith) hy (omega (arith, e))
    ∙ ap ok (blocks_cong i.width _ _ (λ x l. ap (λ x. pixel i p x y) (omega arith)))

-- A pixel found from its place.
pub read_at-place :
    (i : Image) (p x y at : ℕ)
    → IsImage i
    → p < i.planes
    → x < i.width
    → y < i.height
    → at ≡ p * i.plane_size + (y * i.stride + x * i.pixel_step)
    → read_at (bytes_of i) at i.pixel_step ≡ ok (pixel i p x y)
read_at-place i p x y at v hp hx hy e =
    ap (λ from. read_at (bytes_of i) from i.pixel_step) e ∙ read_at-pixel i p x y v hp hx hy
