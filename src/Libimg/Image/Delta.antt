-- ===== src/Libimg/Image/Delta.antt =====
-- server/src/libimg/libimgImage.cpp: yDelta, the difference of two images in their luminances, and the
-- correction for the difference of their totals. A quotient by no pixels is a fault.
pub mod Distances
pub mod Adjusted
use ozonebase.Prelude.{
  ℕ, ◌+◌, ◌-◌, ◌*◌, ◌/◌, ◌%◌, ◌^◌, Bool, true, false, ◌&&◌, none, List, [], ◌∷◌, ltb, ◌==◌,
  if◌then◌else◌, ℤ, pos, negsuc, above, below, difference, ◌-ℤ◌,
}
use ozonebase.Libgen.Outcome.{Outcome, ok, panic, fault, ◌>>=◌}
use ozonebase.Libimg.Raster.{gather}
use ozonebase.Libimg.Colour.{rgb2yuvj_y}
use ozonebase.Libimg.Image.{
  Format, undef, grey, grey16, rgb, rgb48, yuv, yuvj, yuvp, yuvjp, format_code, Image, new_image,
  bytes_of,
}
use ozonebase.Libimg.Image.Geometry.{drawn}
use ozonebase.Libimg.Image.Samples.{byte_at, of_bytes, y_in, total}
use ozonebase.Libimg.Image.Convert.{steps_to}

abbrev pub magnitude : ℤ → ℕ
magnitude x = above x + below x

-- What is stored of a pixel.
unfoldable pub delta_byte : ℕ → ℕ → ℕ → ℕ
delta_byte cmp ref corr = magnitude ((pos cmp -ℤ pos ref) -ℤ pos corr) % 256

-- The words of two images, which are subtracted the other way round, and the correction as a short.
abbrev pub corr16 : ℕ → ℤ
corr16 corr =
    let low : ℕ = corr * 256 % 65536 in if ltb low 32768 then pos low else difference low 65536

unfoldable pub delta_word : ℕ → ℕ → ℕ → ℕ
delta_word cmp ref corr = magnitude ((pos ref -ℤ pos cmp) -ℤ corr16 corr) % 65536

abbrev pub word_at : Image → ℕ → Outcome ℕ
word_at i p = byte_at (bytes_of i) (p * i.pixel_step) >>= λ high.
    byte_at (bytes_of i) (p * i.pixel_step + 1) >>= λ low. ok (high * 256 + low)

-- How often the loops run, by the reference or by the image that it is compared with.
abbrev pub ref_count : Image → ℕ
ref_count i = steps_to i.buffer.size i.pixel_step

abbrev pub cmp_count : Format → Image → ℕ
cmp_count undef i = 0
cmp_count grey i = steps_to i.buffer.size i.pixel_step
cmp_count grey16 i = steps_to i.buffer.size i.pixel_step
cmp_count rgb i = steps_to i.buffer.size i.pixel_step
cmp_count rgb48 i = steps_to i.buffer.size i.pixel_step
cmp_count yuv i = steps_to i.buffer.size i.pixel_step
cmp_count yuvj i = steps_to i.buffer.size i.pixel_step
cmp_count yuvp i = i.stride * i.height
cmp_count yuvjp i = i.stride * i.height

-- The luminance of the reference, as a comparison with an image of a format takes it.
abbrev pub ref_y : Format → Format → Image → ℕ → Outcome ℕ
ref_y rgb48 yuvp i p =
    of_bytes rgb2yuvj_y i (p * i.pixel_step) (p * i.pixel_step + 2) (p * i.pixel_step + 2)
ref_y f g i p = y_in f i p

abbrev pub deltas : ℕ → (ℕ → Outcome ℕ) → (ℕ → Outcome ℕ) → ℕ → (ℕ → List ℕ) → Outcome (List ℕ)
deltas n cmp ref corr write =
    gather n (λ p. cmp p >>= λ c. ref p >>= λ r. ok (write (delta_byte c r corr)))

-- What is written for a reference of each format; the low byte of a word is left zero.
abbrev pub grey_delta : Format → Image → Image → ℕ → Outcome (List ℕ)
grey_delta g i image corr = deltas (ref_count i) (y_in g image) (ref_y grey g i) corr (λ d. d ∷ [])

abbrev pub rgb_delta : Format → Image → Image → ℕ → Outcome (List ℕ)
rgb_delta g i image corr = deltas (ref_count i) (y_in g image) (ref_y rgb g i) corr (λ d. d ∷ [])

abbrev pub rgb48_delta : Format → Image → Image → ℕ → Outcome (List ℕ)
rgb48_delta g i image corr =
    deltas (ref_count i) (y_in g image) (ref_y rgb48 g i) corr (λ d. d ∷ [])

abbrev pub yuv_delta : Format → Image → Image → ℕ → Outcome (List ℕ)
yuv_delta g i image corr = deltas (ref_count i) (y_in g image) (ref_y yuv g i) corr (λ d. d ∷ [])

abbrev pub yuvj_delta : Format → Image → Image → ℕ → Outcome (List ℕ)
yuvj_delta g i image corr = deltas (ref_count i) (y_in g image) (ref_y yuvj g i) corr (λ d. d ∷ [])

abbrev pub yuvp_delta : Format → Image → Image → ℕ → Outcome (List ℕ)
yuvp_delta g i image corr =
    deltas (cmp_count g image) (y_in g image) (ref_y yuvp g i) corr (λ d. d ∷ [])

abbrev pub yuvjp_delta : Format → Image → Image → ℕ → Outcome (List ℕ)
yuvjp_delta g i image corr =
    deltas (cmp_count g image) (y_in g image) (ref_y yuvjp g i) corr (λ d. d ∷ [])

abbrev pub grey16_delta : Format → Image → Image → ℕ → Outcome (List ℕ)
grey16_delta grey16 i image corr = gather (ref_count i) (λ p. word_at i p >>= λ r.
    word_at image p >>= λ c. ok (delta_word c r corr / 256 ∷ delta_word c r corr % 256 ∷ []))
grey16_delta g i image corr =
    deltas (ref_count i) (y_in g image) (ref_y grey16 g i) corr (λ d. d ∷ 0 ∷ [])

abbrev pub delta_bytes : Format → Format → Image → Image → ℕ → Outcome (List ℕ)
delta_bytes undef g i image corr = panic
delta_bytes grey g i image corr = grey_delta g i image corr
delta_bytes grey16 g i image corr = grey16_delta g i image corr
delta_bytes rgb g i image corr = rgb_delta g i image corr
delta_bytes rgb48 g i image corr = rgb48_delta g i image corr
delta_bytes yuv g i image corr = yuv_delta g i image corr
delta_bytes yuvj g i image corr = yuvj_delta g i image corr
delta_bytes yuvp g i image corr = yuvp_delta g i image corr
delta_bytes yuvjp g i image corr = yuvjp_delta g i image corr

abbrev pub correction : Image → Image → Bool → Outcome ℕ
correction i image false = ok 0
correction i image true = total i >>= λ ref. total image >>= λ cmp.
    if i.pixels == 0 then fault else ok (magnitude (pos cmp -ℤ pos ref) / i.pixels)

abbrev pub delta_format : Format → Format
delta_format undef = grey
delta_format grey = grey
delta_format grey16 = grey16
delta_format rgb = grey
delta_format rgb48 = grey
delta_format yuv = grey
delta_format yuvj = grey
delta_format yuvp = grey
delta_format yuvjp = grey

unfoldable pub y_delta : Image → Image → Bool → Outcome Image
y_delta i image correct =
    if (i.width == image.width) && (i.height == image.height)
    then (if format_code i.format == 0
        then panic
        else if format_code image.format == 0
        then panic
        else (new_image (delta_format i.format) i.width i.height none >>= λ new.
            correction i image correct >>= λ corr.
            delta_bytes i.format image.format i image corr >>= λ bytes. drawn new bytes))
    else panic
