-- ===== src/Libimg/Colour.antt =====
-- server/src/libimg/libimgImage.h and the tables of Image::initialise in libimgImage.cpp: conversions
-- between the colour spaces. A table is the function that fills it; an entry of the signed tables is
-- an integer.
pub mod Ranges
pub mod Luminance
use ozonebase.Prelude.{
  ℕ, ◌+◌, ◌-◌, ◌*◌, ◌/◌, ◌%◌, ltb, if◌then◌else◌, ℤ, pos, negsuc, above, below, difference, ◌+ℤ◌,
  scale, quot, ltb_ℤ,
}

unfoldable pub clamp : ℤ → ℤ → ℤ → ℤ
clamp value least most =
    if ltb_ℤ value least then least else if ltb_ℤ most value then most else value

-- An int converted to unsigned char.
unfoldable pub to_byte : ℤ → ℕ
to_byte x = (above x + (256 - below x % 256)) % 256

-- A product with a factor below zero.
abbrev pub negated : ℕ → ℕ → ℤ
negated k i = difference 0 (k * i)

-- The distance of a byte from 128.
abbrev pub centred : ℕ → ℤ
centred i = difference i 128

-- Between the reduced ranges of YUV and the full ones of YUVJ.
unfoldable pub yuv2yuvj_y : ℕ → ℕ
unfolding clamp to_byte
yuv2yuvj_y i =
    if ltb i 16
    then 0
    else if ltb 235 i
    then 255
    else to_byte (clamp (quot (scale 255 (difference i 16)) 219) (pos 0) (pos 255))

unfoldable pub yuvj2yuv_y : ℕ → ℕ
unfolding clamp to_byte
yuvj2yuv_y i = to_byte (clamp (quot (pos (i * 219)) 255 +ℤ pos 16) (pos 16) (pos 235))

unfoldable pub yuv2yuvj_uv : ℕ → ℕ
unfolding clamp to_byte
yuv2yuvj_uv i =
    if ltb i 16
    then 16
    else if ltb 240 i
    then 240
    else to_byte (pos 128 +ℤ clamp (quot (scale 127 (centred i)) 112) (difference 0 128) (pos 127))

unfoldable pub yuvj2yuv_uv : ℕ → ℕ
unfolding clamp to_byte
yuvj2yuv_uv i =
    to_byte (pos 128 +ℤ clamp (quot (scale 112 (centred i)) 127) (difference 0 112) (pos 112))

-- From RGB to the full ranges.
unfoldable pub rgb2yuvj_y : ℕ → ℕ → ℕ → ℕ
unfolding clamp to_byte
rgb2yuvj_y r g b =
    to_byte (
      clamp (pos (299 * r / 1000) +ℤ pos (587 * g / 1000) +ℤ pos (114 * b / 1000)) (pos 0)
        (pos 255))

unfoldable pub rgb2yuvj_u : ℕ → ℕ → ℕ → ℕ
unfolding clamp to_byte
rgb2yuvj_u r g b = to_byte (
    pos 128
    +ℤ clamp (quot (negated 169 r) 1000 +ℤ quot (negated 331 g) 1000 +ℤ pos (500 * b / 1000))
        (difference 0 127) (pos 127))

unfoldable pub rgb2yuvj_v : ℕ → ℕ → ℕ → ℕ
unfolding clamp to_byte
rgb2yuvj_v r g b = to_byte (
    pos 128
    +ℤ clamp (pos (500 * r / 1000) +ℤ quot (negated 419 g) 1000 +ℤ quot (negated 81 b) 1000)
        (difference 0 127) (pos 127))

-- From the full ranges to RGB.
unfoldable pub yuvj2rgb_r : ℕ → ℕ → ℕ → ℕ
unfolding clamp to_byte
yuvj2rgb_r y u v = to_byte (clamp (pos y +ℤ quot (scale 1402 (centred v)) 1000) (pos 0) (pos 255))

unfoldable pub yuvj2rgb_g : ℕ → ℕ → ℕ → ℕ
unfolding clamp to_byte
yuvj2rgb_g y u v = to_byte (
    clamp
      (pos y
        +ℤ quot (scale 344 (difference 128 u)) 1000
        +ℤ quot (scale 714 (difference 128 v)) 1000)
      (pos 0) (pos 255))

unfoldable pub yuvj2rgb_b : ℕ → ℕ → ℕ → ℕ
unfolding clamp to_byte
yuvj2rgb_b y u v = to_byte (clamp (pos y +ℤ quot (scale 1772 (centred u)) 1000) (pos 0) (pos 255))

-- From RGB to the reduced ranges.
unfoldable pub rgb2yuv_y : ℕ → ℕ → ℕ → ℕ
unfolding clamp to_byte
rgb2yuv_y r g b = to_byte (
    clamp (pos 16 +ℤ pos (257 * r / 1000) +ℤ pos (504 * g / 1000) +ℤ pos (98 * b / 1000)) (pos 16)
      (pos 235))

unfoldable pub rgb2yuv_u : ℕ → ℕ → ℕ → ℕ
unfolding clamp to_byte
rgb2yuv_u r g b = to_byte (
    pos 128
    +ℤ clamp (quot (negated 148 r) 1000 +ℤ quot (negated 291 g) 1000 +ℤ pos (439 * b / 1000))
        (difference 0 112) (pos 112))

unfoldable pub rgb2yuv_v : ℕ → ℕ → ℕ → ℕ
unfolding clamp to_byte
rgb2yuv_v r g b = to_byte (
    pos 128
    +ℤ clamp (pos (439 * r / 1000) +ℤ quot (negated 368 g) 1000 +ℤ quot (negated 71 b) 1000)
        (difference 0 112) (pos 112))

-- From the reduced ranges to RGB; the tables take what is outside the ranges for their ends.
abbrev pub within_y : ℕ → ℕ
within_y i = if ltb i 16 then 16 else if ltb 235 i then 235 else i

abbrev pub within_uv : ℕ → ℕ
within_uv i = if ltb i 16 then 16 else if ltb 240 i then 240 else i

unfoldable pub luma : ℕ → ℤ
luma i = pos (1164 * (within_y i - 16) / 1000)

unfoldable pub yuv2rgb_r : ℕ → ℕ → ℕ → ℕ
unfolding clamp to_byte luma
yuv2rgb_r y u v =
    to_byte (clamp (luma y +ℤ quot (scale 1596 (centred (within_uv v))) 1000) (pos 0) (pos 255))

unfoldable pub yuv2rgb_g : ℕ → ℕ → ℕ → ℕ
unfolding clamp to_byte luma
yuv2rgb_g y u v = to_byte (
    clamp
      (luma y
        +ℤ quot (scale 391 (difference 128 (within_uv u))) 1000
        +ℤ quot (scale 813 (difference 128 (within_uv v))) 1000)
      (pos 0) (pos 255))

unfoldable pub yuv2rgb_b : ℕ → ℕ → ℕ → ℕ
unfolding clamp to_byte luma
yuv2rgb_b y u v =
    to_byte (clamp (luma y +ℤ quot (scale 2018 (centred (within_uv u))) 1000) (pos 0) (pos 255))
