-- ===== src/Libimg/Image/Geometry/Flip.antt =====
-- server/src/libimg/libimgImage.cpp: what Image::flip makes of an image.
use ozonebase.Prelude.{
  ℕ, ◌+◌, ◌-◌, ◌*◌, ◌/◌, ◌<◌, ◌≡◌, refl, sym, ap, ◌∙◌, Bool, true, List, arith, length, replicate,
}
use ozonebase.Libgen.Outcome.{ok, ok-injective, ◌>>=◌, >>=_assoc}
use ozonebase.Libgen.Buffer.{read_at, write_at}
use ozonebase.Libimg.Raster.{gather-raster, raster}
use ozonebase.Libimg.Image.{
  Format, grey, grey16, rgb, rgb48, yuv, yuvj, yuvp, yuvjp, Image, Traits, traits, bytes_of,
}
use ozonebase.Libimg.Image.Layout.{IsImage}
use ozonebase.Libimg.Image.Geometry.{
  pixel, flip, flip_bytes, flip_packed, flip_planar, flip_plane_rows,
}
use ozonebase.Libimg.Image.Geometry.Pixels.{length-pixel}
use ozonebase.Libimg.Image.Geometry.Made.{Shows, replace_raster, write_raster}
use ozonebase.Libimg.Image.Geometry.Rows.{read_at-place}

-- What is drawn becomes the image.
pub flip_drawn :
    (i : Image) (left_right : Bool) (cell : ℕ → ℕ → ℕ → List ℕ)
    → IsImage i
    → ((p x y : ℕ) → p < i.planes → x < i.width → y < i.height → length (cell p x y) ≡ i.pixel_step)
    → (flip_bytes i.format left_right i >>= λ bytes. write_at (replicate i.buffer.size 0) 0 bytes)
      ≡ ok (raster i.planes i.height i.width cell)
    → (j : Image) × (flip i left_right ≡ ok j) × Shows i j i.width i.height cell
unfolding flip
flip_drawn i left_right cell v whole e =
    let r = replace_raster i cell _ v whole e in
    (r.0, sym (>>=_assoc (flip_bytes i.format left_right i) _ _) ∙ r.1, r.2)

-- The same for an image that is drawn to the end.
pub flip_full :
    (i : Image) (left_right : Bool) (cell : ℕ → ℕ → ℕ → List ℕ)
    → IsImage i
    → ((p x y : ℕ) → p < i.planes → x < i.width → y < i.height → length (cell p x y) ≡ i.pixel_step)
    → flip_bytes i.format left_right i ≡ ok (raster i.planes i.height i.width cell)
    → (j : Image) × (flip i left_right ≡ ok j) × Shows i j i.width i.height cell
flip_full i left_right cell v whole e =
    flip_drawn i left_right cell v whole (rw e (write_raster i cell i.buffer.size v whole v.filled))

-- The formats that have a plane for each component, and the others.
pub data IsPlanar : Format → Type 0 where
  yuvp-IsPlanar : IsPlanar yuvp
  yuvjp-IsPlanar : IsPlanar yuvjp

pub data IsPacked : Format → Type 0 where
  grey-IsPacked : IsPacked grey
  grey16-IsPacked : IsPacked grey16
  rgb-IsPacked : IsPacked rgb
  rgb48-IsPacked : IsPacked rgb48
  yuv-IsPacked : IsPacked yuv
  yuvj-IsPacked : IsPacked yuvj

traits-IsPlanar :
    (f : Format) (t : Traits)
    → IsPlanar f
    → traits f ≡ ok t
    → t.channels * ((t.depth - 1) / 8 + 1) ≡ 1
traits-IsPlanar f t yuvp-IsPlanar d =
    ap (λ (t : Traits). t.channels * ((t.depth - 1) / 8 + 1)) (sym (ok-injective d))
traits-IsPlanar f t yuvjp-IsPlanar d =
    ap (λ (t : Traits). t.channels * ((t.depth - 1) / 8 + 1)) (sym (ok-injective d))

traits-IsPacked : (f : Format) (t : Traits) → IsPacked f → traits f ≡ ok t → t.planes ≡ 1
traits-IsPacked f t grey-IsPacked d = ap (λ (t : Traits). t.planes) (sym (ok-injective d))
traits-IsPacked f t grey16-IsPacked d = ap (λ (t : Traits). t.planes) (sym (ok-injective d))
traits-IsPacked f t rgb-IsPacked d = ap (λ (t : Traits). t.planes) (sym (ok-injective d))
traits-IsPacked f t rgb48-IsPacked d = ap (λ (t : Traits). t.planes) (sym (ok-injective d))
traits-IsPacked f t yuv-IsPacked d = ap (λ (t : Traits). t.planes) (sym (ok-injective d))
traits-IsPacked f t yuvj-IsPacked d = ap (λ (t : Traits). t.planes) (sym (ok-injective d))

pub planar_step : (i : Image) → IsImage i → IsPlanar i.format → i.pixel_step ≡ 1
planar_step i v h = v.laid.pixel_step_is ∙ traits-IsPlanar i.format v.traits_of h v.defined

pub packed_planes : (i : Image) → IsImage i → IsPacked i.format → i.planes ≡ 1
packed_planes i v h = v.laid.planes_is ∙ traits-IsPacked i.format v.traits_of h v.defined

pub flip_bytes-IsPlanar :
    (f : Format) (left_right : Bool) (i : Image)
    → IsPlanar f
    → flip_bytes f left_right i ≡ flip_planar left_right i
flip_bytes-IsPlanar f left_right i yuvp-IsPlanar = refl
flip_bytes-IsPlanar f left_right i yuvjp-IsPlanar = refl

pub flip_bytes-IsPacked :
    (f : Format) (left_right : Bool) (i : Image)
    → IsPacked f
    → flip_bytes f left_right i ≡ flip_packed left_right i
flip_bytes-IsPacked f left_right i grey-IsPacked = refl
flip_bytes-IsPacked f left_right i grey16-IsPacked = refl
flip_bytes-IsPacked f left_right i rgb-IsPacked = refl
flip_bytes-IsPacked f left_right i rgb48-IsPacked = refl
flip_bytes-IsPacked f left_right i yuv-IsPacked = refl
flip_bytes-IsPacked f left_right i yuvj-IsPacked = refl

mirrored_place :
    (i : Image) (p x y : ℕ)
    → IsImage i
    → i.pixel_step ≡ 1
    → x < i.width
    → i.stride + p * (i.stride * i.height) + y * i.stride - (x + 1)
      ≡ p * i.plane_size + (y * i.stride + (i.width - 1 - x) * i.pixel_step)
mirrored_place i p x y v one hx =
    let row : i.stride ≡ i.width = v.laid.stride_is ∙ ap (λ k. k * i.width) one ∙ omega arith in
    let last : (i.width - 1 - x) * i.pixel_step ≡ i.width - 1 - x =
      ap (λ k. (i.width - 1 - x) * k) one ∙ omega arith in
    omega (arith, row, last, ap (λ k. p * k) v.laid.plane_size_is)

-- A valid image in three planes that is mirrored from left to right has in each row of each plane
-- the pixels of the row in the opposite order.
pub flip-mirrored_planes :
    (i : Image)
    → IsImage i
    → IsPlanar i.format
    → (j : Image) × (flip i true ≡ ok j)
      × Shows i j i.width i.height (λ p x y. pixel i p (i.width - 1 - x) y)
unfolding flip_plane_rows
flip-mirrored_planes i v h =
    let one : i.pixel_step ≡ 1 = planar_step i v h in
    flip_full i true (λ p x y. pixel i p (i.width - 1 - x) y) v
      (λ p x y hp hx hy. length-pixel i p (i.width - 1 - x) y v hp (omega arith) hy)
      (flip_bytes-IsPlanar i.format true i h
        ∙ gather-raster i.planes i.height i.width _ _ (λ p x y hp hx hy.
          ap (read_at (bytes_of i) (i.stride + p * (i.stride * i.height) + y * i.stride - (x + 1)))
            (sym one)
          ∙ read_at-place i p (i.width - 1 - x) y _ v hp (omega arith) hy
              (mirrored_place i p x y v one hx)))
