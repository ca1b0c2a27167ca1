-- ===== src/Libimg/Image/Delta/Distances.antt =====
-- server/src/libimg/libimgImage.cpp: what yDelta shows.
use ozonebase.Prelude.{
  ℕ, ◌+◌, ◌-◌, ◌%◌, ◌*◌, ◌^◌, ◌<◌, ◌≡◌, refl, sym, ap, ap₂, ◌∙◌, arith, Bool, true, false, ◌&&◌,
  List, [], ◌∷◌, length, ◌==◌, subst,
}
use ozonebase.Libgen.Outcome.{Outcome, ok, ◌>>=◌}
use ozonebase.Libgen.Buffer.{zeroed, copy_of}
use ozonebase.Libgen.Buffer.Resize.{copy_of-Holds}
use ozonebase.Libimg.Raster.{gather-blocks, blocks, length-blocks}
use ozonebase.Libimg.Image.{
  Format, undef, grey, grey16, rgb, rgb48, yuv, yuvj, yuvp, yuvjp, format_code, Image, Traits,
  traits, grey_space, bytes_of,
}
use ozonebase.Libimg.Image.Layout.{IsImage, Holds-IsImage, size-Laid}
use ozonebase.Libimg.Image.Geometry.Drawing.{new_image_lem, drawn_lem}
use ozonebase.Libimg.Image.Geometry.Pixels.{length-bytes_of}
use ozonebase.Libimg.Image.Levels.Bytes.{coded}
use ozonebase.Libimg.Image.Samples.{byte_at, y_in}
use ozonebase.Libimg.Image.Samples.Blocks.{byte_at-blocks}
use ozonebase.Libimg.Image.Samples.Sums.{Extent, IsImage-Extent, known}
use ozonebase.Libimg.Image.Samples.Places.{AllBytes, y_in-Byte}
use ozonebase.Libimg.Image.Convert.{steps_to}
use ozonebase.Libimg.Image.Convert.Counts.{steps_to-multiple, value_of, Byte-value_of}
use ozonebase.Libimg.Image.Delta.{
  delta_byte, ref_count, cmp_count, ref_y, deltas, delta_bytes, correction, delta_format, y_delta,
}

packed_count :
    (i : Image)
    → 0 < i.pixel_step
    → i.plane_size ≡ i.pixels * i.pixel_step
    → i.buffer.size ≡ i.plane_size * 1
    → ref_count i ≡ i.pixels
packed_count i s plane size =
    ap (λ n. steps_to n i.pixel_step) (size ∙ omega (arith, plane))
    ∙ steps_to-multiple i.pixels i.pixel_step s

cmp_count-pixels :
    (g : Format) (i : Image) (t : Traits)
    → traits g ≡ ok t
    → Extent i t
    → i.plane_size ≡ i.stride * i.height
    → cmp_count g i ≡ i.pixels
cmp_count-pixels undef i t d x e = absurd (cc d)
cmp_count-pixels grey i t d x e =
    let x' = known d x in packed_count i (omega (arith, x'.step)) x'.plane x'.size
cmp_count-pixels grey16 i t d x e =
    let x' = known d x in packed_count i (omega (arith, x'.step)) x'.plane x'.size
cmp_count-pixels rgb i t d x e =
    let x' = known d x in packed_count i (omega (arith, x'.step)) x'.plane x'.size
cmp_count-pixels rgb48 i t d x e =
    let x' = known d x in packed_count i (omega (arith, x'.step)) x'.plane x'.size
cmp_count-pixels yuv i t d x e =
    let x' = known d x in packed_count i (omega (arith, x'.step)) x'.plane x'.size
cmp_count-pixels yuvj i t d x e =
    let x' = known d x in packed_count i (omega (arith, x'.step)) x'.plane x'.size
cmp_count-pixels yuvp i t d x e =
    let x' = known d x in omega (arith, e, x'.plane, ap (λ s. i.pixels * s) x'.step)
cmp_count-pixels yuvjp i t d x e =
    let x' = known d x in omega (arith, e, x'.plane, ap (λ s. i.pixels * s) x'.step)

ref_y-rgb48 :
    (g : Format) (i : Image) (p : ℕ)
    → (format_code g == 7) ≡ false
    → ref_y rgb48 g i p ≡ y_in rgb48 i p
ref_y-rgb48 undef i p h = refl
ref_y-rgb48 grey i p h = refl
ref_y-rgb48 grey16 i p h = refl
ref_y-rgb48 rgb i p h = refl
ref_y-rgb48 rgb48 i p h = refl
ref_y-rgb48 yuv i p h = refl
ref_y-rgb48 yuvj i p h = refl
ref_y-rgb48 yuvjp i p h = refl
ref_y-rgb48 yuvp i p h = absurd (cc h)

-- Which loop is taken: the luminances of both images are compared, but for words with words and for the
-- wide RGB with planes.
delta_bytes-deltas :
    (f g : Format) (i image : Image) (t u : Traits) (corr : ℕ)
    → traits f ≡ ok t
    → traits g ≡ ok u
    → Extent i t
    → Extent image u
    → image.plane_size ≡ image.stride * image.height
    → i.pixels ≡ image.pixels
    → (format_code f == 2) ≡ false
    → ((format_code f == 4) && (format_code g == 7)) ≡ false
    → delta_bytes f g i image corr ≡ deltas i.pixels (y_in g image) (y_in f i) corr (λ d. d ∷ [])
delta_bytes-deltas undef g i image t u corr d e x y s same h k = absurd (cc d)
delta_bytes-deltas grey16 g i image t u corr d e x y s same h k = absurd (cc h)
delta_bytes-deltas grey g i image t u corr d e x y s same h k =
    let x' = known d x in
    ap (λ n. deltas n (y_in g image) (y_in grey i) corr (λ d. d ∷ []))
      (packed_count i (omega (arith, x'.step)) x'.plane x'.size)
delta_bytes-deltas rgb g i image t u corr d e x y s same h k =
    let x' = known d x in
    ap (λ n. deltas n (y_in g image) (y_in rgb i) corr (λ d. d ∷ []))
      (packed_count i (omega (arith, x'.step)) x'.plane x'.size)
delta_bytes-deltas yuv g i image t u corr d e x y s same h k =
    let x' = known d x in
    ap (λ n. deltas n (y_in g image) (y_in yuv i) corr (λ d. d ∷ []))
      (packed_count i (omega (arith, x'.step)) x'.plane x'.size)
delta_bytes-deltas yuvj g i image t u corr d e x y s same h k =
    let x' = known d x in
    ap (λ n. deltas n (y_in g image) (y_in yuvj i) corr (λ d. d ∷ []))
      (packed_count i (omega (arith, x'.step)) x'.plane x'.size)
delta_bytes-deltas rgb48 g i image t u corr d e x y s same h k =
    let x' = known d x in
    ap (λ n. deltas n (y_in g image) (ref_y rgb48 g i) corr (λ d. d ∷ []))
      (packed_count i (omega (arith, x'.step)) x'.plane x'.size)
    ∙ (λ q. deltas i.pixels (y_in g image) (λ p. ref_y-rgb48 g i p k q) corr (λ d. d ∷ []))
delta_bytes-deltas yuvp g i image t u corr d e x y s same h k =
    ap (λ n. deltas n (y_in g image) (y_in yuvp i) corr (λ d. d ∷ []))
      (cmp_count-pixels g image u e y s ∙ sym same)
delta_bytes-deltas yuvjp g i image t u corr d e x y s same h k =
    ap (λ n. deltas n (y_in g image) (y_in yuvjp i) corr (λ d. d ∷ []))
      (cmp_count-pixels g image u e y s ∙ sym same)

delta_format-grey : (f : Format) → (format_code f == 2) ≡ false → delta_format f ≡ grey
delta_format-grey undef h = refl
delta_format-grey grey h = refl
delta_format-grey grey16 h = absurd (cc h)
delta_format-grey rgb h = refl
delta_format-grey rgb48 h = refl
delta_format-grey yuv h = refl
delta_format-grey yuvj h = refl
delta_format-grey yuvp h = refl
delta_format-grey yuvjp h = refl

-- What is written for a pixel.
pixel_delta : Image → Image → ℕ → ℕ → List ℕ
pixel_delta i image corr p =
    delta_byte (value_of (y_in image.format image p)) (value_of (y_in i.format i p)) corr ∷ []

luminance :
    (i : Image)
    → IsImage i
    → (p : ℕ) → AllBytes (bytes_of i)
    → p < i.pixels
    → y_in i.format i p ≡ ok (value_of (y_in i.format i p))
luminance i v p all l = Byte-value_of (y_in i.format i p) (
    y_in-Byte i.format i v.traits_of p v.defined (IsImage-Extent i v)
      (length-bytes_of v ∙ sym v.filled) all l)

delta_of :
    {A : Type 0} (f : ℕ → ℕ → Outcome A) {o o' : Outcome ℕ} {c r : ℕ}
    → o ≡ ok c
    → o' ≡ ok r
    → (o >>= λ c. o' >>= λ r. f c r) ≡ f c r
delta_of f e e' = ap₂ (λ o o'. o >>= λ c. o' >>= λ r. f c r) e e'

deltas-blocks :
    (i image : Image) (v : IsImage i) (w : IsImage image) (corr : ℕ)
    → AllBytes (bytes_of i)
    → AllBytes (bytes_of image)
    → i.pixels ≡ image.pixels
    → deltas i.pixels (y_in image.format image) (y_in i.format i) corr (λ d. d ∷ [])
      ≡ ok (blocks i.pixels (pixel_delta i image corr))
unfolding pixel_delta
deltas-blocks i image v w corr all all' same =
    gather-blocks i.pixels _ (pixel_delta i image corr) (λ p l.
      delta_of (λ c r. ok (delta_byte c r corr ∷ []))
        (luminance image w p all' (subst (λ n. p < n) same l)) (luminance i v p all l))

byte_at_first : (b : ℕ) → byte_at (b ∷ []) 0 ≡ ok b
unfolding byte_at
byte_at_first b = refl

-- The distance on the numbers from zero, where one of the two differences is zero.
delta_byte-distance : (c r corr : ℕ) → delta_byte c r corr ≡ (c - (r + corr) + (r + corr - c)) % 256
unfolding delta_byte
delta_byte-distance c r corr = ap (λ d. d % 256) (ground arith)

-- Of two valid images of the same size, of fewer than 2^31 pixels, of which the first has not
-- words, nor the wide RGB where the second has YUV planes: where the correction has a value, their
-- difference is a valid grey image of their size, in which a pixel is the distance of the second
-- image's luminance from the sum of the first one's and the correction, modulo 256.
pub y_delta_lem :
    (i image : Image) (correct : Bool) (corr : ℕ)
    → IsImage i
    → IsImage image
    → AllBytes (bytes_of i)
    → AllBytes (bytes_of image)
    → i.width ≡ image.width
    → i.height ≡ image.height
    → (format_code i.format == 2) ≡ false
    → ((format_code i.format == 4) && (format_code image.format == 7)) ≡ false
    → i.width * i.height < 2 ^ 31
    → correction i image correct ≡ ok corr
    → (j : Image) × (y_delta i image correct ≡ ok j)
      × IsImage j
      × (j.format ≡ grey)
      × (j.width ≡ i.width)
      × (j.height ≡ i.height)
      × ((p : ℕ)
          → p < i.pixels
          → y_in grey j p ≡ (
              y_in image.format image p >>= λ c.
              y_in i.format i p >>= λ r. ok ((c - (r + corr) + (r + corr - c)) % 256)))
unfolding y_delta pixel_delta
y_delta_lem i image correct corr v w all all' ew eh h k s e =
    let same : i.pixels ≡ image.pixels =
      v.laid.pixels_is ∙ ap₂ (λ a b. a * b) ew eh ∙ sym w.laid.pixels_is in
    let n : ℕ = i.width * i.height in
    let bytes = blocks i.pixels (pixel_delta i image corr) in
    let drawn_bytes : delta_bytes i.format image.format i image corr ≡ ok bytes =
      delta_bytes-deltas i.format image.format i image v.traits_of w.traits_of corr v.defined
        w.defined (IsImage-Extent i v) (IsImage-Extent image w) w.laid.plane_size_is same h k
      ∙ deltas-blocks i image v w corr all all' same in
    let size : length bytes ≡ n =
      length-blocks i.pixels 1 (pixel_delta i image corr) (λ p l. refl)
      ∙ omega (arith, v.laid.pixels_is) in
    let new =
      new_image_lem grey (record { space = grey_space; channels = 1; planes = 1; depth = 8 })
        i.width i.height refl (omega (arith, s)) in
    let put = drawn_lem new.0 n bytes (new.3 ∙ ap zeroed (omega arith)) size in
    let held = copy_of-Holds bytes (omega (arith, s, size)) in
    let j : Image = record new.0 { buffer = copy_of bytes } in
    let wide : (i.width == image.width) ≡ true = ground arith in
    let high : (i.height == image.height) ≡ true = ground arith in
    let step : j.pixel_step ≡ 1 = new.2.pixel_step_is in
    (
      j,
      rw
          (
            wide,
            high,
            coded i.format v.traits_of v.defined,
            coded image.format w.traits_of w.defined,
            delta_format-grey i.format h,
            new.1,
            e,
            drawn_bytes,
          )
          put,
      Holds-IsImage new.0 (copy_of bytes) _ grey i.width i.height bytes refl new.2 held
          (size ∙ omega (arith, size-Laid new.0 _ grey i.width i.height new.2)),
      new.2.format_is,
      new.2.width_is,
      new.2.height_is,
      λ p l.
          ap₂ byte_at held.shows (omega (arith, ap (λ s. p * s) step))
          ∙ byte_at-blocks i.pixels 1 p 0 (pixel_delta i image corr) l (omega arith) (λ q m. refl)
          ∙ byte_at_first _
          ∙ ap ok (delta_byte-distance _ _ corr)
          ∙ sym (
              delta_of (λ c r. ok ((c - (r + corr) + (r + corr - c)) % 256))
                (luminance image w p all' (subst (λ n. p < n) same l)) (luminance i v p all l)),
    )
