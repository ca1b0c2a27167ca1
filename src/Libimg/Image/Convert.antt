-- ===== src/Libimg/Image/Convert.antt =====
-- server/src/libimg/libimgImage.cpp: the conversion of an image to the format of another one. What it writes
-- for a pixel is made of the samples that the accessors of single pixels give, or of those of the
-- reduced ranges.
pub mod Counts
pub mod Luminance
use ozonebase.Prelude.{
  ℕ, zero, suc, ◌+◌, ◌-◌, ◌*◌, ◌/◌, List, [], ◌∷◌, ◌++◌, ◌==◌, ◌&&◌, if◌then◌else◌,
}
use ozonebase.Libgen.Outcome.{Outcome, ok, panic, ◌>>=◌}
use ozonebase.Libgen.Buffer
use ozonebase.Libimg.Raster.{gather}
use ozonebase.Libimg.Colour.{rgb2yuv_y, rgb2yuv_u, rgb2yuv_v, yuvj2yuv_y, yuvj2yuv_uv}
use ozonebase.Libimg.Image.{
  Format, undef, grey, grey16, rgb, rgb48, yuv, yuvj, yuvp, yuvjp, format_code, Image, bytes_of,
}
use ozonebase.Libimg.Image.Geometry.{drawn}
use ozonebase.Libimg.Image.Samples.{
  byte_at, of_byte, of_packed, of_wide, y_in, u_in, v_in, red_in, green_in, blue_in,
}

-- The samples of a pixel in the reduced ranges.
abbrev pub reduced_y : Format → Image → ℕ → Outcome ℕ
reduced_y undef i p = panic
reduced_y grey i p = of_byte yuvj2yuv_y i (p * i.pixel_step)
reduced_y grey16 i p = of_byte yuvj2yuv_y i (p * i.pixel_step)
reduced_y rgb i p = of_packed rgb2yuv_y i (p * i.pixel_step)
reduced_y rgb48 i p = of_wide rgb2yuv_y i (p * i.pixel_step)
reduced_y yuv i p = byte_at (bytes_of i) (p * i.pixel_step)
reduced_y yuvj i p = of_byte yuvj2yuv_y i (p * i.pixel_step)
reduced_y yuvp i p = byte_at (bytes_of i) p
reduced_y yuvjp i p = of_byte yuvj2yuv_y i p

abbrev pub reduced_u : Format → Image → ℕ → Outcome ℕ
reduced_u undef i p = panic
reduced_u grey i p = ok 128
reduced_u grey16 i p = ok 128
reduced_u rgb i p = of_packed rgb2yuv_u i (p * i.pixel_step)
reduced_u rgb48 i p = of_wide rgb2yuv_u i (p * i.pixel_step)
reduced_u yuv i p = byte_at (bytes_of i) (p * i.pixel_step + 1)
reduced_u yuvj i p = of_byte yuvj2yuv_uv i (p * i.pixel_step + 1)
reduced_u yuvp i p = byte_at (bytes_of i) (p + i.plane_size)
reduced_u yuvjp i p = of_byte yuvj2yuv_uv i (p + i.plane_size)

abbrev pub reduced_v : Format → Image → ℕ → Outcome ℕ
reduced_v undef i p = panic
reduced_v grey i p = ok 128
reduced_v grey16 i p = ok 128
reduced_v rgb i p = of_packed rgb2yuv_v i (p * i.pixel_step)
reduced_v rgb48 i p = of_wide rgb2yuv_v i (p * i.pixel_step)
reduced_v yuv i p = byte_at (bytes_of i) (p * i.pixel_step + 2)
reduced_v yuvj i p = of_byte yuvj2yuv_uv i (p * i.pixel_step + 2)
reduced_v yuvp i p = byte_at (bytes_of i) (p + 2 * i.plane_size)
reduced_v yuvjp i p = of_byte yuvj2yuv_uv i (p + 2 * i.plane_size)

-- How often a loop runs by steps to the end, for what is written and for what is read.
abbrev pub steps_to : ℕ → ℕ → ℕ
steps_to size step = (size + step - 1) / step

abbrev pub read_count : Format → Image → ℕ
read_count undef i = 0
read_count grey i = steps_to i.buffer.size 1
read_count grey16 i = steps_to i.buffer.size i.pixel_step
read_count rgb i = steps_to i.buffer.size i.pixel_step
read_count rgb48 i = steps_to i.buffer.size i.pixel_step
read_count yuv i = steps_to i.buffer.size 3
read_count yuvj i = steps_to i.buffer.size 3
read_count yuvp i = i.buffer.size - 2 * i.plane_size
read_count yuvjp i = i.buffer.size - 2 * i.plane_size

-- The bytes of pixels with one or three samples, and of three planes.
abbrev pub ones : ℕ → (ℕ → Outcome ℕ) → (ℕ → List ℕ) → Outcome (List ℕ)
ones n f write = gather n (λ p. f p >>= λ a. ok (write a))

abbrev pub threes :
    ℕ
    → (ℕ → Outcome ℕ)
    → (ℕ → Outcome ℕ)
    → (ℕ → Outcome ℕ)
    → (ℕ → ℕ → ℕ → List ℕ)
    → Outcome (List ℕ)
threes n f g h write = gather n (λ p. f p >>= λ a. g p >>= λ b. h p >>= λ c. ok (write a b c))

abbrev pub planes_in : ℕ → (ℕ → Outcome ℕ) → (ℕ → Outcome ℕ) → (ℕ → Outcome ℕ) → Outcome (List ℕ)
planes_in n f g h = ones n f (λ a. a ∷ []) >>= λ ys.
    ones n g (λ a. a ∷ []) >>= λ us. ones n h (λ a. a ∷ []) >>= λ vs. ok (ys ++ (us ++ vs))

-- What is written to an image of each format, with a number of steps, from an image of another one. What
-- is not written in the wide formats is zero.
abbrev pub to_grey : Format → ℕ → Image → Outcome (List ℕ)
to_grey f n i = ones n (y_in f i) (λ a. a ∷ [])

abbrev pub to_grey16 : Format → ℕ → Image → Outcome (List ℕ)
to_grey16 f n i = ones n (y_in f i) (λ a. a ∷ 0 ∷ [])

abbrev pub to_rgb : Format → ℕ → Image → Outcome (List ℕ)
to_rgb f n i = threes n (red_in f i) (green_in f i) (blue_in f i) (λ a b c. a ∷ b ∷ c ∷ [])

abbrev pub to_rgb48 : Format → ℕ → Image → Outcome (List ℕ)
to_rgb48 f n i =
    threes n (red_in f i) (green_in f i) (blue_in f i) (λ a b c. a ∷ 0 ∷ b ∷ 0 ∷ c ∷ 0 ∷ [])

abbrev pub to_yuv : Format → ℕ → Image → Outcome (List ℕ)
to_yuv f n i = threes n (reduced_y f i) (reduced_u f i) (reduced_v f i) (λ a b c. a ∷ b ∷ c ∷ [])

abbrev pub to_yuvj : Format → ℕ → Image → Outcome (List ℕ)
to_yuvj f n i = threes n (y_in f i) (u_in f i) (v_in f i) (λ a b c. a ∷ b ∷ c ∷ [])

abbrev pub to_yuvp : Format → Image → Outcome (List ℕ)
to_yuvp f i = planes_in (read_count f i) (reduced_y f i) (reduced_u f i) (reduced_v f i)

abbrev pub to_yuvjp : Format → Image → Outcome (List ℕ)
to_yuvjp f i = planes_in (read_count f i) (y_in f i) (u_in f i) (v_in f i)

abbrev pub converted : Format → Format → ℕ → Image → Outcome (List ℕ)
converted undef f n i = panic
converted grey f n i = to_grey f n i
converted grey16 f n i = to_grey16 f n i
converted rgb f n i = to_rgb f n i
converted rgb48 f n i = to_rgb48 f n i
converted yuv f n i = to_yuv f n i
converted yuvj f n i = to_yuvj f n i
converted yuvp f n i = to_yuvp f i
converted yuvjp f n i = to_yuvjp f i

-- `convert`: the buffer is erased and what was written stands in it.
unfoldable pub convert : Image → Image → Outcome Image
convert i image =
    if (i.width == image.width) && (i.height == image.height)
    then (if format_code i.format == 0
        then panic
        else if format_code image.format == 0
        then panic
        else if format_code i.format == format_code image.format
        then (Buffer.assign i.buffer (bytes_of image) >>= λ r. ok (record i { buffer = r.1 }))
        else (converted i.format image.format (steps_to i.buffer.size i.pixel_step) image
            >>= λ bytes. drawn (record i { buffer = Buffer.erase i.buffer }) bytes))
    else panic
