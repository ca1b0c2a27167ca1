-- ===== src/Libimg/Image/Geometry/Pixels.antt =====
-- server/src/libimg/libimgImage.cpp: the pixels of images, and images that are made pixel by pixel.
use ozonebase.Prelude.{
  ℕ, ◌+◌, ◌*◌, ◌<◌, ◌≤◌, ◌≡◌, sym, ap, ap₂, ◌∙◌, List, arith, length, drop, length-take,
  length-drop,
}
use native.Mathlib.Nat.{mul_comm}
use ozonebase.Libgen.Outcome.{ok}
use ozonebase.Libgen.Buffer.{read_at}
use ozonebase.Libgen.Buffer.Room.{read_at-ok, length-contents}
use ozonebase.Libimg.Raster.{slice, raster, pixel_end, slice-raster}
use ozonebase.Libimg.Image.{Image, Traits, bytes_of}
use ozonebase.Libimg.Image.Layout.{Laid, IsImage}
use ozonebase.Libimg.Image.Geometry.{pixel}

-- The sizes of a laid out image, in the order of nested loops.
pub record Sizes (i : Image) (planes width height : ℕ) : Type 0 where
  pub row : i.stride ≡ width * i.pixel_step
  pub plane : i.plane_size ≡ height * (width * i.pixel_step)
  pub whole : i.size ≡ planes * (height * (width * i.pixel_step))

pub Laid-Sizes :
    {i : Image} {t : Traits} {width height : ℕ}
    → Laid i i.format t width height
    → Sizes i i.planes width height
Laid-Sizes {i} {t} {width} {height} l =
    let row : i.stride ≡ width * i.pixel_step = l.stride_is ∙ mul_comm i.pixel_step width in
    let plane : i.plane_size ≡ height * (width * i.pixel_step) =
      l.plane_size_is ∙ mul_comm i.stride height ∙ ap (λ k. height * k) row in
    record {
      row = row;
      plane = plane;
      whole =
          l.size_is ∙ mul_comm i.plane_size t.planes ∙ ap₂ (λ n k. n * k) (sym l.planes_is) plane;
    }

pub length-bytes_of : {i : Image} → IsImage i → length (bytes_of i) ≡ i.size
length-bytes_of v = length-contents v.valid ∙ v.filled

-- A pixel's place as a number of bytes.
place_eq :
    (i : Image) (planes width height p x y : ℕ)
    → Sizes i planes width height
    → p * i.plane_size + (y * i.stride + x * i.pixel_step)
      ≡ p * (height * (width * i.pixel_step)) + (y * (width * i.pixel_step) + x * i.pixel_step)
place_eq i planes width height p x y s =
    ap₂ (λ a b. p * a + (y * b + x * i.pixel_step)) s.plane s.row

-- A pixel inside a valid image is read without a fault, and has the bytes of a step.
pub pixel_inside :
    (i : Image) (p x y : ℕ)
    → IsImage i
    → p < i.planes
    → x < i.width
    → y < i.height
    → p * i.plane_size + (y * i.stride + x * i.pixel_step) + i.pixel_step ≤ length (bytes_of i)
pixel_inside i p x y v hp hx hy =
    let s = Laid-Sizes v.laid in
    omega (
      arith,
      place_eq i i.planes i.width i.height p x y s,
      pixel_end i.planes i.height i.width i.pixel_step p x y hp hx hy,
      s.whole,
      length-bytes_of v,
    )

pub read_at-pixel :
    (i : Image) (p x y : ℕ)
    → IsImage i
    → p < i.planes
    → x < i.width
    → y < i.height
    → read_at (bytes_of i) (p * i.plane_size + (y * i.stride + x * i.pixel_step)) i.pixel_step
      ≡ ok (pixel i p x y)
unfolding pixel
read_at-pixel i p x y v hp hx hy =
    read_at-ok (bytes_of i) (p * i.plane_size + (y * i.stride + x * i.pixel_step)) i.pixel_step
      (pixel_inside i p x y v hp hx hy)

length-slice : (bytes : List ℕ) (at n : ℕ) → at + n ≤ length bytes → length (slice bytes at n) ≡ n
length-slice bytes at n h = omega (arith, length-take n (drop at bytes), length-drop at bytes)

pub length-pixel :
    (i : Image) (p x y : ℕ)
    → IsImage i
    → p < i.planes
    → x < i.width
    → y < i.height
    → length (pixel i p x y) ≡ i.pixel_step
unfolding pixel
length-pixel i p x y v hp hx hy =
    length-slice (bytes_of i) (p * i.plane_size + (y * i.stride + x * i.pixel_step)) i.pixel_step
      (pixel_inside i p x y v hp hx hy)

-- The pixels of an image whose bytes are known.
pub pixel-raster :
    (j : Image) (planes width height : ℕ) (cell : ℕ → ℕ → ℕ → List ℕ)
    → Sizes j planes width height
    → bytes_of j ≡ raster planes height width cell
    → ((p x y : ℕ) → p < planes → x < width → y < height → length (cell p x y) ≡ j.pixel_step)
    → (p x y : ℕ) → p < planes
    → x < width
    → y < height
    → pixel j p x y ≡ cell p x y
unfolding pixel
pixel-raster j planes width height cell s e whole p x y hp hx hy =
    ap₂ (λ bytes at. slice bytes at j.pixel_step) e (place_eq j planes width height p x y s)
    ∙ slice-raster planes height width j.pixel_step cell whole p x y hp hx hy
