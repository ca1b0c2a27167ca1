-- ===== src/Libimg/Image/Convert/Counts.antt =====
-- server/src/libimg/libimgImage.cpp: how many pixels a conversion goes through, and what it reads of them.
use ozonebase.Prelude.{ℕ, ◌+◌, ◌*◌, ◌<◌, ◌≡◌, refl, sym, ap, ◌∙◌, arith, List, length}
use native.Mathlib.Nat.{div-eq_of_lt-le}
use ozonebase.Libgen.Outcome.{Outcome, ok, fault, panic, thrown, spent}
use ozonebase.Libgen.Buffer
use ozonebase.Libgen.Buffer.Room.{length-contents}
use ozonebase.Libgen.Buffer.Fresh.{erase-IsValid, size-erase, adopted-erase}
use ozonebase.Libimg.Raster.{block_end, gather-blocks, blocks}
use ozonebase.Libimg.Colour.{to_byte, rgb2yuvj_u, rgb2yuvj_v, yuv2yuvj_uv}
use ozonebase.Libimg.Image.{
  Format, undef, grey, grey16, rgb, rgb48, yuv, yuvj, yuvp, yuvjp, Image, Traits, traits, bytes_of,
}
use ozonebase.Libimg.Image.Layout.{IsImage, Holds-IsImage}
use ozonebase.Libimg.Image.Samples.{u_in, v_in}
use ozonebase.Libimg.Image.Samples.Sums.{Extent, known}
use ozonebase.Libimg.Image.Samples.Places.{
  AllBytes, Byte, byte_at-Byte, of_bytes-Byte, of_byte-Byte,
}
use ozonebase.Libimg.Image.Convert.{steps_to, read_count, ones, threes}

pub steps_to-multiple : (n step : ℕ) → 0 < step → steps_to (n * step) step ≡ n
steps_to-multiple n step h = div-eq_of_lt-le step (omega arith) (omega arith)

pub read_count-pixels :
    (f : Format) (i : Image) (t : Traits) → traits f ≡ ok t → Extent i t → read_count f i ≡ i.pixels
read_count-pixels undef i t d x = absurd (cc d)
read_count-pixels grey i t d x =
    let x' = known d x in
    let size : i.buffer.size ≡ i.pixels * 1 =
      x'.size ∙ omega (arith, x'.plane, ap (λ s. i.pixels * s) x'.step) in
    ap (λ n. steps_to n 1) size ∙ steps_to-multiple i.pixels 1 (omega (arith, x'.step))
read_count-pixels grey16 i t d x =
    let x' = known d x in
    let size : i.buffer.size ≡ i.pixels * i.pixel_step = x'.size ∙ omega (arith, x'.plane) in
    ap (λ n. steps_to n i.pixel_step) size
    ∙ steps_to-multiple i.pixels i.pixel_step (omega (arith, x'.step))
read_count-pixels rgb i t d x =
    let x' = known d x in
    let size : i.buffer.size ≡ i.pixels * i.pixel_step = x'.size ∙ omega (arith, x'.plane) in
    ap (λ n. steps_to n i.pixel_step) size
    ∙ steps_to-multiple i.pixels i.pixel_step (omega (arith, x'.step))
read_count-pixels rgb48 i t d x =
    let x' = known d x in
    let size : i.buffer.size ≡ i.pixels * i.pixel_step = x'.size ∙ omega (arith, x'.plane) in
    ap (λ n. steps_to n i.pixel_step) size
    ∙ steps_to-multiple i.pixels i.pixel_step (omega (arith, x'.step))
read_count-pixels yuv i t d x =
    let x' = known d x in
    let size : i.buffer.size ≡ i.pixels * 3 =
      x'.size ∙ omega (arith, x'.plane, ap (λ s. i.pixels * s) x'.step) in
    ap (λ n. steps_to n 3) size ∙ steps_to-multiple i.pixels 3 (omega (arith, x'.step))
read_count-pixels yuvj i t d x =
    let x' = known d x in
    let size : i.buffer.size ≡ i.pixels * 3 =
      x'.size ∙ omega (arith, x'.plane, ap (λ s. i.pixels * s) x'.step) in
    ap (λ n. steps_to n 3) size ∙ steps_to-multiple i.pixels 3 (omega (arith, x'.step))
read_count-pixels yuvp i t d x =
    let x' = known d x in omega (arith, x'.size, x'.plane, ap (λ s. i.pixels * s) x'.step)
read_count-pixels yuvjp i t d x =
    let x' = known d x in omega (arith, x'.size, x'.plane, ap (λ s. i.pixels * s) x'.step)

rgb2yuvj_u-Byte : (r g b : ℕ) → rgb2yuvj_u r g b < 256
unfolding rgb2yuvj_u to_byte
rgb2yuvj_u-Byte r g b = omega arith

rgb2yuvj_v-Byte : (r g b : ℕ) → rgb2yuvj_v r g b < 256
unfolding rgb2yuvj_v to_byte
rgb2yuvj_v-Byte r g b = omega arith

yuv2yuvj_uv-Byte : (c : ℕ) → yuv2yuvj_uv c < 256
unfolding yuv2yuvj_uv to_byte
yuv2yuvj_uv-Byte c = ground arith

pub u_in-Byte :
    (f : Format) (i : Image) (t : Traits) (p : ℕ)
    → traits f ≡ ok t
    → Extent i t
    → length (bytes_of i) ≡ i.buffer.size
    → AllBytes (bytes_of i)
    → p < i.pixels
    → Byte (u_in f i p)
u_in-Byte undef i t p d x len all h = absurd (cc d)
u_in-Byte grey i t p d x len all h = (128, refl, omega arith)
u_in-Byte grey16 i t p d x len all h = (128, refl, omega arith)
u_in-Byte rgb i t p d x len all h =
    let x' = known d x in
    let end = block_end p i.pixels i.pixel_step h in
    let at : ℕ = p * i.pixel_step in
    of_bytes-Byte rgb2yuvj_u i at (at + 1) (at + 2) rgb2yuvj_u-Byte all
      (omega (arith, len, x'.step, x'.plane, x'.size, end))
      (omega (arith, len, x'.step, x'.plane, x'.size, end))
      (omega (arith, len, x'.step, x'.plane, x'.size, end))
u_in-Byte rgb48 i t p d x len all h =
    let x' = known d x in
    let end = block_end p i.pixels i.pixel_step h in
    let at : ℕ = p * i.pixel_step in
    of_bytes-Byte rgb2yuvj_u i at (at + 2) (at + 4) rgb2yuvj_u-Byte all
      (omega (arith, len, x'.step, x'.plane, x'.size, end))
      (omega (arith, len, x'.step, x'.plane, x'.size, end))
      (omega (arith, len, x'.step, x'.plane, x'.size, end))
u_in-Byte yuv i t p d x len all h =
    let x' = known d x in
    let end = block_end p i.pixels i.pixel_step h in
    let at : ℕ = p * i.pixel_step in
    of_byte-Byte yuv2yuvj_uv i (at + 1) yuv2yuvj_uv-Byte all
      (omega (arith, len, x'.step, x'.plane, x'.size, end))
u_in-Byte yuvj i t p d x len all h =
    let x' = known d x in
    let end = block_end p i.pixels i.pixel_step h in
    let at : ℕ = p * i.pixel_step in
    byte_at-Byte (bytes_of i) (at + 1) all (omega (arith, len, x'.step, x'.plane, x'.size, end))
u_in-Byte yuvp i t p d x len all h =
    let x' = known d x in
    let plane : i.plane_size ≡ i.pixels * 1 = x'.plane ∙ ap (λ s. i.pixels * s) x'.step in
    of_byte-Byte yuv2yuvj_uv i (p + i.plane_size) yuv2yuvj_uv-Byte all
      (omega (arith, len, plane, x'.size))
u_in-Byte yuvjp i t p d x len all h =
    let x' = known d x in
    let plane : i.plane_size ≡ i.pixels * 1 = x'.plane ∙ ap (λ s. i.pixels * s) x'.step in
    byte_at-Byte (bytes_of i) (p + i.plane_size) all (omega (arith, len, plane, x'.size))

pub v_in-Byte :
    (f : Format) (i : Image) (t : Traits) (p : ℕ)
    → traits f ≡ ok t
    → Extent i t
    → length (bytes_of i) ≡ i.buffer.size
    → AllBytes (bytes_of i)
    → p < i.pixels
    → Byte (v_in f i p)
v_in-Byte undef i t p d x len all h = absurd (cc d)
v_in-Byte grey i t p d x len all h = (128, refl, omega arith)
v_in-Byte grey16 i t p d x len all h = (128, refl, omega arith)
v_in-Byte rgb i t p d x len all h =
    let x' = known d x in
    let end = block_end p i.pixels i.pixel_step h in
    let at : ℕ = p * i.pixel_step in
    of_bytes-Byte rgb2yuvj_v i at (at + 1) (at + 2) rgb2yuvj_v-Byte all
      (omega (arith, len, x'.step, x'.plane, x'.size, end))
      (omega (arith, len, x'.step, x'.plane, x'.size, end))
      (omega (arith, len, x'.step, x'.plane, x'.size, end))
v_in-Byte rgb48 i t p d x len all h =
    let x' = known d x in
    let end = block_end p i.pixels i.pixel_step h in
    let at : ℕ = p * i.pixel_step in
    of_bytes-Byte rgb2yuvj_v i at (at + 2) (at + 4) rgb2yuvj_v-Byte all
      (omega (arith, len, x'.step, x'.plane, x'.size, end))
      (omega (arith, len, x'.step, x'.plane, x'.size, end))
      (omega (arith, len, x'.step, x'.plane, x'.size, end))
v_in-Byte yuv i t p d x len all h =
    let x' = known d x in
    let end = block_end p i.pixels i.pixel_step h in
    let at : ℕ = p * i.pixel_step in
    of_byte-Byte yuv2yuvj_uv i (at + 2) yuv2yuvj_uv-Byte all
      (omega (arith, len, x'.step, x'.plane, x'.size, end))
v_in-Byte yuvj i t p d x len all h =
    let x' = known d x in
    let end = block_end p i.pixels i.pixel_step h in
    let at : ℕ = p * i.pixel_step in
    byte_at-Byte (bytes_of i) (at + 2) all (omega (arith, len, x'.step, x'.plane, x'.size, end))
v_in-Byte yuvp i t p d x len all h =
    let x' = known d x in
    let plane : i.plane_size ≡ i.pixels * 1 = x'.plane ∙ ap (λ s. i.pixels * s) x'.step in
    of_byte-Byte yuv2yuvj_uv i (p + 2 * i.plane_size) yuv2yuvj_uv-Byte all
      (omega (arith, len, plane, x'.size))
v_in-Byte yuvjp i t p d x len all h =
    let x' = known d x in
    let plane : i.plane_size ≡ i.pixels * 1 = x'.plane ∙ ap (λ s. i.pixels * s) x'.step in
    byte_at-Byte (bytes_of i) (p + 2 * i.plane_size) all (omega (arith, len, plane, x'.size))

-- What an outcome gives, if anything.
pub value_of : Outcome ℕ → ℕ
value_of (ok v) = v
value_of fault = 0
value_of panic = 0
value_of thrown = 0
value_of spent = 0

pub Byte-value_of : (o : Outcome ℕ) → Byte o → o ≡ ok (value_of o)
unfolding value_of
Byte-value_of o b = b.1 ∙ ap ok (ap value_of (sym b.1))

pub ones-blocks :
    (n : ℕ) (f : ℕ → Outcome ℕ) (write : ℕ → List ℕ)
    → ((p : ℕ) → p < n → Byte (f p))
    → ones n f write ≡ ok (blocks n (λ p. write (value_of (f p))))
unfolding value_of
ones-blocks n f write h = gather-blocks n _ _ (λ p l. rw (Byte-value_of (f p) (h p l)) refl)

pub threes-blocks :
    (n : ℕ) (f g h : ℕ → Outcome ℕ) (write : ℕ → ℕ → ℕ → List ℕ)
    → ((p : ℕ) → p < n → Byte (f p))
    → ((p : ℕ) → p < n → Byte (g p))
    → ((p : ℕ) → p < n → Byte (h p))
    → threes n f g h write
      ≡ ok (blocks n (λ p. write (value_of (f p)) (value_of (g p)) (value_of (h p))))
unfolding value_of
threes-blocks n f g h write u v w = gather-blocks n _ _ (λ p l.
    rw (Byte-value_of (f p) (u p l), Byte-value_of (g p) (v p l), Byte-value_of (h p) (w p l)) refl)

-- An erased image is as valid as it was.
pub erased-IsImage : (i : Image) → IsImage i → IsImage (record i { buffer = Buffer.erase i.buffer })
erased-IsImage i v =
    let valid = erase-IsValid i.buffer v.valid in
    Holds-IsImage i (Buffer.erase i.buffer) v.traits_of i.format i.width i.height
      (Buffer.contents (Buffer.erase i.buffer)) v.defined v.laid
      (record { valid = valid; shows = refl; owned = adopted-erase i.buffer ∙ v.owned })
      (length-contents valid ∙ size-erase i.buffer ∙ v.filled)
