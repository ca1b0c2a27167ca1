-- ===== src/Libimg/Image/Convert/Luminance.antt =====
-- server/src/libimg/libimgImage.cpp: a conversion to a format of the full range keeps the luminances.
use ozonebase.Prelude.{
  ℕ, ◌*◌, ◌<◌, ◌≡◌, refl, sym, ap, ap₂, ◌∙◌, arith, List, [], ◌∷◌, ◌++◌, length, length-append,
  false, true, ◌==◌, subst,
}
use ozonebase.Libgen.Outcome.{Outcome, ok, ok-injective}
use ozonebase.Libgen.Buffer
use ozonebase.Libimg.Raster.{blocks, length-blocks}
use ozonebase.Libimg.Image.{
  Format, grey, grey16, yuvj, yuvjp, format_code, Image, Traits, traits, bytes_of,
}
use ozonebase.Libimg.Image.Layout.{IsImage, Laid}
use ozonebase.Libimg.Image.Geometry.Pixels.{length-bytes_of}
use ozonebase.Libimg.Image.Levels.Bytes.{redrawn, coded}
use ozonebase.Libimg.Image.Samples.{byte_at, y_in, u_in, v_in}
use ozonebase.Libimg.Image.Samples.Blocks.{byte_at-blocks, byte_at-append_left}
use ozonebase.Libimg.Image.Samples.Sums.{Extent, IsImage-Extent, known}
use ozonebase.Libimg.Image.Samples.Places.{AllBytes, Byte, y_in-Byte}
use ozonebase.Libimg.Image.Convert.{convert, converted, steps_to, ones, threes, planes_in}
use ozonebase.Libimg.Image.Convert.Counts.{
  steps_to-multiple, read_count-pixels, u_in-Byte, v_in-Byte, value_of, Byte-value_of, ones-blocks,
  threes-blocks, erased-IsImage,
}

-- The formats whose luminance has the full range and is stored by itself.
pub data IsLuminant : Format → Type 0 where
  grey-IsLuminant : IsLuminant grey
  grey16-IsLuminant : IsLuminant grey16
  yuvj-IsLuminant : IsLuminant yuvj
  yuvjp-IsLuminant : IsLuminant yuvjp

-- A block whose first byte is given.
first_of :
    (n k : ℕ) (g : ℕ → List ℕ) (f : ℕ → ℕ) (p : ℕ)
    → p < n
    → 0 < k
    → ((j : ℕ) → length (g j) ≡ k)
    → ((j : ℕ) → byte_at (g j) 0 ≡ ok (f j))
    → byte_at (blocks n g) (p * k) ≡ ok (f p)
first_of n k g f p h s e first =
    ap (byte_at (blocks n g)) (omega arith) ∙ byte_at-blocks n k p 0 g h s (λ j l. e j) ∙ first p

-- What is written of pixels whose samples are there.
module _ (f : Format) (image : Image) (n : ℕ) (y_given : (p : ℕ) → p < n → Byte (y_in f image p))
    (u_given : (p : ℕ) → p < n → Byte (u_in f image p))
    (v_given : (p : ℕ) → p < n → Byte (v_in f image p)) where
  abbrev given : ℕ → ℕ
  given p = value_of (y_in f image p)

  abbrev Written : ℕ → Outcome (List ℕ) → ℕ → Type 0
  Written size o step =
      (bytes : List ℕ) × (o ≡ ok bytes)
      × (length bytes ≡ size)
      × ((p : ℕ) → p < n → byte_at bytes (p * step) ≡ ok (given p))

  one_each : (p : ℕ) → p < n → byte_at (blocks n (λ p. given p ∷ [])) (p * 1) ≡ ok (given p)
  unfolding byte_at
  one_each p h = first_of n 1 (λ p. given p ∷ []) given p h (omega arith) (λ j. refl) (λ j. refl)

  to_grey-Written : Written (n * 1) (ones n (y_in f image) (λ a. a ∷ [])) 1
  to_grey-Written =
      let g : ℕ → List ℕ = λ p. given p ∷ [] in
      (
        blocks n g,
        ones-blocks n (y_in f image) (λ a. a ∷ []) y_given,
        length-blocks n 1 g (λ i h. refl),
        one_each,
      )

  to_grey16-Written : Written (n * 2) (ones n (y_in f image) (λ a. a ∷ 0 ∷ [])) 2
  unfolding byte_at
  to_grey16-Written =
      let g : ℕ → List ℕ = λ p. given p ∷ 0 ∷ [] in
      (
        blocks n g,
        ones-blocks n (y_in f image) (λ a. a ∷ 0 ∷ []) y_given,
        length-blocks n 2 g (λ i h. refl),
        λ p h. first_of n 2 g given p h (omega arith) (λ j. refl) (λ j. refl),
      )

  to_yuvj-Written :
      Written
        (n * 3)
        (threes n (y_in f image) (u_in f image) (v_in f image) (λ a b c. a ∷ b ∷ c ∷ []))
        3
  unfolding byte_at
  to_yuvj-Written =
      let g : ℕ → List ℕ =
        λ p. given p ∷ value_of (u_in f image p) ∷ value_of (v_in f image p) ∷ [] in
      (
        blocks n g,
        threes-blocks n (y_in f image) (u_in f image) (v_in f image) (λ a b c. a ∷ b ∷ c ∷ [])
            y_given u_given v_given,
        length-blocks n 3 g (λ i h. refl),
        λ p h. first_of n 3 g given p h (omega arith) (λ j. refl) (λ j. refl),
      )

  to_yuvjp-Written : Written (n * 3) (planes_in n (y_in f image) (u_in f image) (v_in f image)) 1
  to_yuvjp-Written =
      let plane : (ℕ → Outcome ℕ) → List ℕ = λ o. blocks n (λ p. value_of (o p) ∷ []) in
      let size : (o : ℕ → Outcome ℕ) → length (plane o) ≡ n * 1 =
        λ o. length-blocks n 1 (λ p. value_of (o p) ∷ []) (λ i h. refl) in
      let ys = plane (y_in f image) in
      let us = plane (u_in f image) in
      let vs = plane (v_in f image) in
      (
        ys ++ (us ++ vs),
        rw
            (
              ones-blocks n (y_in f image) (λ a. a ∷ []) y_given,
              ones-blocks n (u_in f image) (λ a. a ∷ []) u_given,
              ones-blocks n (v_in f image) (λ a. a ∷ []) v_given,
            )
            refl,
        omega (
          arith,
          length-append ys (us ++ vs),
          length-append us vs,
          size (y_in f image),
          size (u_in f image),
          size (v_in f image),
        ),
        λ p h.
            byte_at-append_left ys (us ++ vs) (p * 1) (omega (arith, size (y_in f image)))
            ∙ one_each p h,
      )

-- What a conversion to such a format writes, and what an image with those bytes shows.
Luminant : Format → Image → Format → Image → Type 0
Luminant t i f image =
    (bytes : List ℕ) × (converted t f (steps_to i.buffer.size i.pixel_step) image ≡ ok bytes)
    × (length bytes ≡ i.buffer.size)
    × ((j : Image)
        → j.pixel_step ≡ i.pixel_step
        → bytes_of j ≡ bytes
        → (p : ℕ) → p < image.pixels
        → y_in t j p ≡ ok (value_of (y_in f image p)))

module _ (i image : Image) (f : Format) (u : Traits) (d : traits f ≡ ok u) (x : Extent image u)
    (len : length (bytes_of image) ≡ image.buffer.size) (all : AllBytes (bytes_of image))
    (same : i.pixels ≡ image.pixels) where
  y_given : (p : ℕ) → p < image.pixels → Byte (y_in f image p)
  y_given p h = y_in-Byte f image u p d x len all h

  u_given : (p : ℕ) → p < image.pixels → Byte (u_in f image p)
  u_given p h = u_in-Byte f image u p d x len all h

  v_given : (p : ℕ) → p < image.pixels → Byte (v_in f image p)
  v_given p h = v_in-Byte f image u p d x len all h

  -- Of an image in one plane, with its step known.
  packed :
      (step : ℕ)
      → 0 < step
      → i.pixel_step ≡ step
      → i.plane_size ≡ i.pixels * i.pixel_step
      → i.buffer.size ≡ i.plane_size * 1
      → (steps_to i.buffer.size i.pixel_step ≡ image.pixels) × (image.pixels * step ≡ i.buffer.size)
  packed step h e plane size =
      let all_bytes : i.buffer.size ≡ image.pixels * step =
        size ∙ omega (arith, plane) ∙ ap₂ (λ n s. n * s) same e in
      (ap₂ steps_to all_bytes e ∙ steps_to-multiple image.pixels step h, sym all_bytes)

  converted-Luminant :
      (t : Format) (w : Traits) → IsLuminant t → traits t ≡ ok w → Extent i w → Luminant t i f image
  unfolding Luminant
  converted-Luminant t w grey-IsLuminant e y =
      let y' = known e y in
      let s = packed 1 (omega arith) y'.step y'.plane y'.size in
      let r = to_grey-Written f image image.pixels y_given u_given v_given in
      (
        r.0,
        ap (λ m. converted grey f m image) s.0 ∙ r.1,
        r.2 ∙ s.1,
        λ j step shown p h. ap₂ byte_at shown (ap (λ k. p * k) (step ∙ y'.step)) ∙ r.3 p h,
      )
  converted-Luminant t w grey16-IsLuminant e y =
      let y' = known e y in
      let s = packed 2 (omega arith) y'.step y'.plane y'.size in
      let r = to_grey16-Written f image image.pixels y_given u_given v_given in
      (
        r.0,
        ap (λ m. converted grey16 f m image) s.0 ∙ r.1,
        r.2 ∙ s.1,
        λ j step shown p h. ap₂ byte_at shown (ap (λ k. p * k) (step ∙ y'.step)) ∙ r.3 p h,
      )
  converted-Luminant t w yuvj-IsLuminant e y =
      let y' = known e y in
      let s = packed 3 (omega arith) y'.step y'.plane y'.size in
      let r = to_yuvj-Written f image image.pixels y_given u_given v_given in
      (
        r.0,
        ap (λ m. converted yuvj f m image) s.0 ∙ r.1,
        r.2 ∙ s.1,
        λ j step shown p h. ap₂ byte_at shown (ap (λ k. p * k) (step ∙ y'.step)) ∙ r.3 p h,
      )
  converted-Luminant t w yuvjp-IsLuminant e y =
      let y' = known e y in
      let r = to_yuvjp-Written f image image.pixels y_given u_given v_given in
      let planes = ap (λ s. i.pixels * s) y'.step in
      (
        r.0,
        ap (λ m. planes_in m (y_in f image) (u_in f image) (v_in f image))
              (read_count-pixels f image u d x)
            ∙ r.1,
        r.2 ∙ omega (arith, same, y'.size, y'.plane, planes),
        λ j step shown p h. ap₂ byte_at shown (omega arith) ∙ r.3 p h,
      )

-- A conversion of a valid image to a valid one of its size and of another format, which is grey,
-- words, YUVJ or YUVJ in planes, makes a valid image of that format, in which each pixel has the
-- luminance that it had.
pub convert-y_in :
    (i image : Image) (v : IsImage i)
    → IsImage image
    → AllBytes (bytes_of image)
    → i.width ≡ image.width
    → i.height ≡ image.height
    → IsLuminant i.format
    → (format_code i.format == format_code image.format) ≡ false
    → (j : Image) × (convert i image ≡ ok j)
      × IsImage j
      × Laid j i.format v.traits_of i.width i.height
      × ((p : ℕ) → p < image.pixels → y_in j.format j p ≡ y_in image.format image p)
unfolding convert Luminant
convert-y_in i image v w all ew eh lum other =
    let x = IsImage-Extent image w in
    let len : length (bytes_of image) ≡ image.buffer.size = length-bytes_of w ∙ sym w.filled in
    let pixels : i.pixels ≡ image.pixels =
      v.laid.pixels_is ∙ ap₂ (λ a b. a * b) ew eh ∙ sym w.laid.pixels_is in
    let c =
      converted-Luminant i image image.format w.traits_of w.defined x len all pixels i.format
        v.traits_of lum v.defined (IsImage-Extent i v) in
    let wide : (i.width == image.width) ≡ true = ground arith in
    let high : (i.height == image.height) ≡ true = ground arith in
    let r =
      redrawn (record i { buffer = Buffer.erase i.buffer }) c.0 (erased-IsImage i v)
        (c.2 ∙ v.filled) in
    let same_traits = ok-injective (sym (erased-IsImage i v).defined ∙ v.defined) in
    let laid : Laid r.0 i.format v.traits_of i.width i.height =
      subst (λ t. Laid r.0 i.format t i.width i.height) same_traits r.3 in
    (
      r.0,
      rw
          (
            wide,
            high,
            coded i.format v.traits_of v.defined,
            coded image.format w.traits_of w.defined,
            other,
            c.1,
          )
          r.1,
      r.2,
      laid,
      λ p h.
          ap (λ f. y_in f r.0 p) laid.format_is
          ∙ c.3 r.0 (laid.pixel_step_is ∙ sym v.laid.pixel_step_is) r.4 p h
          ∙ sym (
              Byte-value_of (y_in image.format image p)
                (y_in-Byte image.format image w.traits_of p w.defined x len all h)),
    )
