-- ===== src/Libimg/Image/Samples/Places.antt =====
-- server/src/libimg/libimgImage.cpp: the samples of a valid image are there, and are bytes.
use ozonebase.Prelude.{
  ℕ, zero, suc, ◌+◌, ◌*◌, ◌<◌, ◌≤◌, ◌≡◌, refl, sym, ap, ◌∙◌, arith, List, [], ◌∷◌, length, ℤ, pos,
  ◌+ℤ◌, ◌/◌,
}
use ozonebase.Libgen.Outcome.{Outcome, ok, fault}
use ozonebase.Libimg.Raster.{block_end}
use ozonebase.Libimg.Colour.{clamp, to_byte, rgb2yuvj_y, yuv2yuvj_y}
use ozonebase.Libimg.Image.{
  Format, undef, grey, grey16, rgb, rgb48, yuv, yuvj, yuvp, yuvjp, Image, bytes_of, traits, Traits,
}
use ozonebase.Libimg.Image.Layout.{IsImage}
use ozonebase.Libimg.Image.Geometry.Pixels.{length-bytes_of}
use ozonebase.Libimg.Image.Samples.{
  byte_at, of_bytes, of_byte, y_in, total, red_in, red_xy, y_xy, offset_of,
}
use ozonebase.Libimg.Image.Samples.Sums.{Extent, IsImage-Extent, known, add_up, total_in-y_in}

pub data AllBytes : List ℕ → Type 0 where
  no_byte : AllBytes []
  one_byte : (b : ℕ) (rest : List ℕ) → b < 256 → AllBytes rest → AllBytes (b ∷ rest)

-- An outcome that is a byte.
abbrev pub Byte : Outcome ℕ → Type 0
Byte o = (b : ℕ) × (o ≡ ok b) × (b < 256)

pub byte_at-Byte :
    (bytes : List ℕ) (k : ℕ) → AllBytes bytes → k < length bytes → Byte (byte_at bytes k)
unfolding byte_at
byte_at-Byte bytes k no_byte h = absurd (omega arith)
byte_at-Byte bytes zero (one_byte b rest l a) h = (b, refl, l)
byte_at-Byte bytes (suc k) (one_byte b rest l a) h = byte_at-Byte rest k a (omega arith)

to_byte-Byte : (x : ℤ) → to_byte x < 256
unfolding to_byte
to_byte-Byte x = omega arith

rgb2yuvj_y-Byte : (r g b : ℕ) → rgb2yuvj_y r g b < 256
unfolding rgb2yuvj_y
rgb2yuvj_y-Byte r g b =
    to_byte-Byte (
      clamp (pos (299 * r / 1000) +ℤ pos (587 * g / 1000) +ℤ pos (114 * b / 1000)) (pos 0)
        (pos 255))

yuv2yuvj_y-Byte : (y : ℕ) → yuv2yuvj_y y < 256
unfolding yuv2yuvj_y
yuv2yuvj_y-Byte y = grind (arith, to_byte-Byte)

pub of_bytes-Byte :
    (f : ℕ → ℕ → ℕ → ℕ) (i : Image) (a b c : ℕ)
    → ((x y z : ℕ) → f x y z < 256)
    → AllBytes (bytes_of i)
    → a < length (bytes_of i)
    → b < length (bytes_of i)
    → c < length (bytes_of i)
    → Byte (of_bytes f i a b c)
of_bytes-Byte f i a b c h all la lb lc =
    let x = byte_at-Byte (bytes_of i) a all la in
    let y = byte_at-Byte (bytes_of i) b all lb in
    let z = byte_at-Byte (bytes_of i) c all lc in
    (f x.0 y.0 z.0, rw (x.1, y.1, z.1) refl, h x.0 y.0 z.0)

pub of_byte-Byte :
    (f : ℕ → ℕ) (i : Image) (a : ℕ)
    → ((x : ℕ) → f x < 256)
    → AllBytes (bytes_of i)
    → a < length (bytes_of i)
    → Byte (of_byte f i a)
of_byte-Byte f i a h all la =
    let x = byte_at-Byte (bytes_of i) a all la in (f x.0, rw x.1 refl, h x.0)

pub y_in-Byte :
    (f : Format) (i : Image) (t : Traits) (p : ℕ)
    → traits f ≡ ok t
    → Extent i t
    → length (bytes_of i) ≡ i.buffer.size
    → AllBytes (bytes_of i)
    → p < i.pixels
    → Byte (y_in f i p)
y_in-Byte undef i t p d x len all h = absurd (cc d)
y_in-Byte grey i t p d x len all h =
    let x' = known d x in
    let end = block_end p i.pixels i.pixel_step h in
    let at : ℕ = p * i.pixel_step in
    byte_at-Byte (bytes_of i) at all (omega (arith, len, x'.step, x'.plane, x'.size, end))
y_in-Byte grey16 i t p d x len all h =
    let x' = known d x in
    let end = block_end p i.pixels i.pixel_step h in
    let at : ℕ = p * i.pixel_step in
    byte_at-Byte (bytes_of i) at all (omega (arith, len, x'.step, x'.plane, x'.size, end))
y_in-Byte rgb i t p d x len all h =
    let x' = known d x in
    let end = block_end p i.pixels i.pixel_step h in
    let at : ℕ = p * i.pixel_step in
    of_bytes-Byte rgb2yuvj_y i at (at + 1) (at + 2) rgb2yuvj_y-Byte all
      (omega (arith, len, x'.step, x'.plane, x'.size, end))
      (omega (arith, len, x'.step, x'.plane, x'.size, end))
      (omega (arith, len, x'.step, x'.plane, x'.size, end))
y_in-Byte rgb48 i t p d x len all h =
    let x' = known d x in
    let end = block_end p i.pixels i.pixel_step h in
    let at : ℕ = p * i.pixel_step in
    of_bytes-Byte rgb2yuvj_y i at (at + 2) (at + 4) rgb2yuvj_y-Byte all
      (omega (arith, len, x'.step, x'.plane, x'.size, end))
      (omega (arith, len, x'.step, x'.plane, x'.size, end))
      (omega (arith, len, x'.step, x'.plane, x'.size, end))
y_in-Byte yuv i t p d x len all h =
    let x' = known d x in
    let end = block_end p i.pixels i.pixel_step h in
    let at : ℕ = p * i.pixel_step in
    of_byte-Byte yuv2yuvj_y i at yuv2yuvj_y-Byte all
      (omega (arith, len, x'.step, x'.plane, x'.size, end))
y_in-Byte yuvj i t p d x len all h =
    let x' = known d x in
    let end = block_end p i.pixels i.pixel_step h in
    let at : ℕ = p * i.pixel_step in
    byte_at-Byte (bytes_of i) at all (omega (arith, len, x'.step, x'.plane, x'.size, end))
y_in-Byte yuvp i t p d x len all h =
    let x' = known d x in
    let plane : i.plane_size ≡ i.pixels * 1 = x'.plane ∙ ap (λ s. i.pixels * s) x'.step in
    of_byte-Byte yuv2yuvj_y i p yuv2yuvj_y-Byte all (omega (arith, len, plane, x'.size))
y_in-Byte yuvjp i t p d x len all h =
    let x' = known d x in
    let plane : i.plane_size ≡ i.pixels * 1 = x'.plane ∙ ap (λ s. i.pixels * s) x'.step in
    byte_at-Byte (bytes_of i) p all (omega (arith, len, plane, x'.size))

add_up-bounded :
    (n k : ℕ) (f : ℕ → Outcome ℕ)
    → ((p : ℕ) → p < k + n → Byte (f p))
    → (t : ℕ) × (add_up n k f ≡ ok t) × (t ≤ 255 * n)
unfolding add_up
add_up-bounded zero k f h = (0, refl, omega arith)
add_up-bounded (suc n) k f h =
    let first = h k (omega arith) in
    let rest = add_up-bounded n (suc k) f (λ p l. h p (omega arith)) in
    (first.0 + rest.0, rw (first.1, rest.1) refl, omega arith)

-- The total of a valid image, whose samples are bytes, is what the luminances of its pixels add up
-- to, and at most 255 for each.
pub total-y_in :
    (i : Image)
    → IsImage i
    → AllBytes (bytes_of i)
    → (t : ℕ) × (total i ≡ ok t)
      × (add_up i.pixels 0 (y_in i.format i) ≡ ok t)
      × (t ≤ 255 * i.pixels)
unfolding total
total-y_in i v all =
    let x = IsImage-Extent i v in
    let r = add_up-bounded i.pixels 0 (y_in i.format i) (λ p h.
      y_in-Byte i.format i v.traits_of p v.defined x (length-bytes_of v ∙ sym v.filled) all
        (omega arith)) in
    (r.0, total_in-y_in i.format i v.traits_of v.defined x ∙ r.1, r.1, r.2)

byte_at-outside : (bytes : List ℕ) (k : ℕ) → length bytes ≤ k → byte_at bytes k ≡ fault
unfolding byte_at
byte_at-outside [] k h = refl
byte_at-outside (b ∷ bytes) zero h = absurd (omega arith)
byte_at-outside (b ∷ bytes) (suc k) h = byte_at-outside bytes k (omega arith)

-- The red of an RGB pixel by its coordinates is looked for outside the image from the first pixel on that
-- has a third of the image before it, since the step is counted twice.
pub red_xy-outside :
    (i : Image) (x y : ℕ)
    → IsImage i
    → i.format ≡ rgb
    → x < i.width
    → y < i.height
    → i.pixels ≤ 3 * (x + y * i.width)
    → red_xy i x y ≡ fault
unfolding red_xy
red_xy-outside i x y v e hx hy h =
    let known_here : ok v.traits_of ≡ traits rgb = sym v.defined ∙ ap traits e in
    let here = known (sym known_here) (IsImage-Extent i v) in
    let place : offset_of i x y * i.pixel_step ≡ 9 * (x + y * i.width) =
      ap (λ s. (x + y * i.width) * s * s) here.step ∙ omega arith in
    let size : length (bytes_of i) ≡ 3 * i.pixels =
      length-bytes_of v
      ∙ sym v.filled
      ∙ here.size
      ∙ ap (λ s. s * 1) (here.plane ∙ ap (λ s. i.pixels * s) here.step)
      ∙ omega arith in
    ap (λ f. red_in f i (offset_of i x y)) e
    ∙ byte_at-outside (bytes_of i) (offset_of i x y * i.pixel_step) (omega (arith, place, size))

-- Where a pixel is one byte, its luminance by its coordinates is that of the pixel.
pub y_xy_lem :
    (i : Image) (x y : ℕ) → i.pixel_step ≡ 1 → y_xy i x y ≡ y_in i.format i (x + y * i.width)
unfolding y_xy
y_xy_lem i x y one = ap (y_in i.format i) (ap (λ s. (x + y * i.width) * s) one ∙ omega arith)
