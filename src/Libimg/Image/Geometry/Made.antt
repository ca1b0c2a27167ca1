-- ===== src/Libimg/Image/Geometry/Made.antt =====
-- server/src/libimg/libimgImage.cpp: images that are made pixel by pixel from an image.
use ozonebase.Prelude.{
  ℕ, ◌-◌, ◌/◌, ◌+◌, ◌*◌, ◌^◌, ◌<◌, ◌≡◌, refl, sym, ap, ap₂, subst, ◌∙◌, List, arith, length,
  replicate, length-replicate,
}
use native.Mathlib.Nat.{mul_comm}
use ozonebase.Libgen.Outcome.{Outcome, ok, ◌>>=◌}
use ozonebase.Libgen.Buffer
use ozonebase.Libgen.Buffer.{write_at}
use ozonebase.Libgen.Buffer.Resize.{assign_lem}
use ozonebase.Libgen.Buffer.Fresh.{write_at_all}
use ozonebase.Libimg.Raster.{raster, length-raster}
use ozonebase.Libimg.Image.{Image, bytes_of}
use ozonebase.Libimg.Image.Layout.{Laid, IsImage, byte_count, Laid-buffer, Holds-IsImage}
use ozonebase.Libimg.Image.Geometry.{pixel, redraw}
use ozonebase.Libimg.Image.Geometry.Drawing.{redraw_lem}
use ozonebase.Libimg.Image.Geometry.Pixels.{Sizes, Laid-Sizes, pixel-raster}

-- A valid image of the format and planes of another one, of a size, with given pixels.
pub record Shows (i j : Image) (width height : ℕ) (cell : ℕ → ℕ → ℕ → List ℕ) : Type 0 where
  pub image : IsImage j
  pub format_kept : j.format ≡ i.format
  pub planes_kept : j.planes ≡ i.planes
  pub step_kept : j.pixel_step ≡ i.pixel_step
  pub width_is : j.width ≡ width
  pub height_is : j.height ≡ height
  pub shows : (p x y : ℕ) → p < i.planes → x < width → y < height → pixel j p x y ≡ cell p x y

product_order : (s w h p : ℕ) → s * w * h * p ≡ p * (h * (w * s))
product_order s w h p =
    mul_comm (s * w * h) p ∙ ap (λ k. p * k) (mul_comm (s * w) h ∙ ap (λ k. h * k) (mul_comm s w))

module _ (i : Image) (v : IsImage i) (width height : ℕ) (cell : ℕ → ℕ → ℕ → List ℕ)
    (whole : (p x y : ℕ)
      → p < i.planes
      → x < width
      → y < height
      → length (cell p x y) ≡ i.pixel_step) where
  -- An image laid out like `i` whose bytes are those of the cells.
  raster-Shows :
      (j : Image)
      → IsImage j
      → Laid j i.format v.traits_of width height
      → bytes_of j ≡ raster i.planes height width cell
      → Shows i j width height cell
  raster-Shows j w l e =
      let planes : j.planes ≡ i.planes = l.planes_is ∙ sym v.laid.planes_is in
      let step : j.pixel_step ≡ i.pixel_step = l.pixel_step_is ∙ sym v.laid.pixel_step_is in
      let sizes : Sizes j i.planes width height =
        subst (λ n. Sizes j n width height) planes
          (Laid-Sizes {t = v.traits_of}
            (subst (λ f. Laid j f v.traits_of width height) (sym l.format_is) l)) in
      record {
        image = w;
        format_kept = l.format_is;
        planes_kept = planes;
        step_kept = step;
        width_is = l.width_is;
        height_is = l.height_is;
        shows =
            pixel-raster j i.planes width height cell sizes e
              (λ p x y hp hx hy. whole p x y hp hx hy ∙ sym step);
      }

  -- How many bytes such an image has.
  byte_count-raster :
      byte_count v.traits_of width height ≡ i.planes * (height * (width * i.pixel_step))
  byte_count-raster =
      product_order (v.traits_of.channels * ((v.traits_of.depth - 1) / 8 + 1)) width height
        v.traits_of.planes
      ∙ ap₂ (λ p s. p * (height * (width * s))) (sym v.laid.planes_is) (sym v.laid.pixel_step_is)

  pub redraw-raster :
      (draw : Image → Outcome (List ℕ))
      → ((c : Image)
          → Laid c i.format v.traits_of width height
          → bytes_of c ≡ replicate (i.planes * (height * (width * i.pixel_step))) 0
          → draw c ≡ ok (raster i.planes height width cell))
      → i.planes * (height * (width * i.pixel_step)) < 2 ^ 31
      → 0 < width
      → 0 < height
      → (j : Image) × (redraw i width height draw ≡ ok j) × Shows i j width height cell
  redraw-raster draw draws s w h =
      let size = length-raster i.planes height width i.pixel_step cell whole in
      let r =
        redraw_lem i v width height draw (raster i.planes height width cell)
          (λ c l e. draws c l (e ∙ ap (λ n. replicate n 0) byte_count-raster))
          (size ∙ sym byte_count-raster) (subst (λ n. n < 2 ^ 31) (sym size) s) w h in
      (r.0, r.1, raster-Shows r.0 r.2 r.3 r.4)

-- The same for an image whose bytes are replaced by as many others.
pub replace_raster :
    (i : Image) (cell : ℕ → ℕ → ℕ → List ℕ) (written : Outcome (List ℕ))
    → IsImage i
    → ((p x y : ℕ) → p < i.planes → x < i.width → y < i.height → length (cell p x y) ≡ i.pixel_step)
    → written ≡ ok (raster i.planes i.height i.width cell)
    → (j : Image) × ((written >>= λ w.
          Buffer.assign i.buffer w >>= λ r. ok (record i { buffer = r.1 }))
        ≡ ok j)
      × Shows i j i.width i.height cell
replace_raster i cell written v whole e =
    let bytes = raster i.planes i.height i.width cell in
    let size : length bytes ≡ i.size =
      length-raster i.planes i.height i.width i.pixel_step cell whole
      ∙ sym (Laid-Sizes v.laid).whole in
    let stored =
      assign_lem i.buffer bytes v.valid v.owned
        (omega (arith, size, v.filled, v.valid.room, v.valid.small)) in
    let b = stored.0 in
    (
      record i { buffer = b },
      rw (e, stored.1) refl,
      raster-Shows i v i.width i.height cell whole (record i { buffer = b })
          (Holds-IsImage i b v.traits_of i.format i.width i.height bytes v.defined v.laid stored.2
            size)
          (Laid-buffer i b v.traits_of i.format i.width i.height v.laid) stored.2.shows,
    )

-- All of the bytes written over zeros.
pub write_raster :
    (i : Image) (cell : ℕ → ℕ → ℕ → List ℕ) (n : ℕ)
    → IsImage i
    → ((p x y : ℕ) → p < i.planes → x < i.width → y < i.height → length (cell p x y) ≡ i.pixel_step)
    → n ≡ i.size
    → write_at (replicate n 0) 0 (raster i.planes i.height i.width cell)
      ≡ ok (raster i.planes i.height i.width cell)
write_raster i cell n v whole e =
    write_at_all (replicate n 0) (raster i.planes i.height i.width cell) (
      length-raster i.planes i.height i.width i.pixel_step cell whole
      ∙ sym (Laid-Sizes v.laid).whole
      ∙ sym e
      ∙ sym (length-replicate n 0))
