-- ===== src/Libimg/Colour/Ranges.antt =====
-- server/src/libimg/libimgImage.h: the ranges of the colour spaces, and the way from one to the other
-- and back.
use ozonebase.Prelude.{
  ℕ, ℤ, pos, quot, difference, ◌+ℤ◌, ◌-◌, ◌*◌, ◌/◌, ap, ◌∙◌, ◌+◌, ◌<◌, ◌≤◌, ◌≡◌, arith,
}
use ozonebase.Libimg.Colour.{
  clamp, to_byte, negated, yuv2yuvj_y, yuvj2yuv_y, yuv2yuvj_uv, yuvj2yuv_uv, rgb2yuv_y, rgb2yuv_u,
  rgb2yuv_v,
}

-- A number kept between two bounds, as a byte.
luminance_range :
    (x : ℤ)
    → (16 ≤ to_byte (clamp x (pos 16) (pos 235))) × (to_byte (clamp x (pos 16) (pos 235)) ≤ 235)
unfolding clamp to_byte
luminance_range x = ground arith

chrominance_range :
    (x : ℤ)
    → (16 ≤ to_byte (pos 128 +ℤ clamp x (difference 0 112) (pos 112)))
      × (to_byte (pos 128 +ℤ clamp x (difference 0 112) (pos 112)) ≤ 240)
unfolding clamp to_byte
chrominance_range x = ground arith

-- What a colour becomes in YUV lies in the reduced ranges, 16 to 235 for the luminance and 16
-- to 240 for the others.
pub rgb2yuv_ranges :
    (r g b : ℕ)
    → (16 ≤ rgb2yuv_y r g b)
      × (rgb2yuv_y r g b ≤ 235)
      × (16 ≤ rgb2yuv_u r g b)
      × (rgb2yuv_u r g b ≤ 240)
      × (16 ≤ rgb2yuv_v r g b)
      × (rgb2yuv_v r g b ≤ 240)
unfolding rgb2yuv_y rgb2yuv_u rgb2yuv_v
rgb2yuv_ranges r g b =
    let y =
      luminance_range
        (pos 16 +ℤ pos (257 * r / 1000) +ℤ pos (504 * g / 1000) +ℤ pos (98 * b / 1000)) in
    let u =
      chrominance_range
        (quot (negated 148 r) 1000 +ℤ quot (negated 291 g) 1000 +ℤ pos (439 * b / 1000)) in
    let v =
      chrominance_range
        (pos (439 * r / 1000) +ℤ quot (negated 368 g) 1000 +ℤ quot (negated 71 b) 1000) in
    (y.0, y.1, u.0, u.1, v.0, v.1)

-- Chrominance at a distance from 128, in either direction.
wider_above : (d : ℕ) → d ≤ 112 → yuv2yuvj_uv (128 + d) ≡ 128 + 127 * d / 112
unfolding yuv2yuvj_uv
wider_above d h = ground arith

wider_below : (d : ℕ) → d ≤ 112 → yuv2yuvj_uv (128 - d) ≡ 128 - 127 * d / 112
unfolding yuv2yuvj_uv
wider_below d h = ground arith

narrower_above : (d : ℕ) → d ≤ 127 → yuvj2yuv_uv (128 + d) ≡ 128 + 112 * d / 127
unfolding yuvj2yuv_uv
narrower_above d h = ground arith

narrower_below : (d : ℕ) → d ≤ 127 → yuvj2yuv_uv (128 - d) ≡ 128 - 112 * d / 127
unfolding yuvj2yuv_uv
narrower_below d h = ground arith

above_again :
    (d : ℕ) → d ≤ 112 → yuvj2yuv_uv (yuv2yuvj_uv (128 + d)) ≡ 128 + 112 * (127 * d / 112) / 127
above_again d h = ap yuvj2yuv_uv (wider_above d h) ∙ narrower_above (127 * d / 112) (omega arith)

below_again :
    (d : ℕ) → d ≤ 112 → yuvj2yuv_uv (yuv2yuvj_uv (128 - d)) ≡ 128 - 112 * (127 * d / 112) / 127
below_again d h = ap yuvj2yuv_uv (wider_below d h) ∙ narrower_below (127 * d / 112) (omega arith)

-- A value in the reduced range that is widened to the full one and narrowed again is at most one lower
-- than it was, for the luminance, and at most one nearer to the middle, 128, for the others.
pub yuvj2yuv-yuv2yuvj :
    (y d : ℕ)
    → 16 ≤ y
    → y ≤ 235
    → d ≤ 112
    → (yuvj2yuv_y (yuv2yuvj_y y) ≤ y)
      × (y ≤ yuvj2yuv_y (yuv2yuvj_y y) + 1)
      × (yuvj2yuv_uv (yuv2yuvj_uv (128 + d)) ≤ 128 + d)
      × (128 + d ≤ yuvj2yuv_uv (yuv2yuvj_uv (128 + d)) + 1)
      × (128 - d ≤ yuvj2yuv_uv (yuv2yuvj_uv (128 - d)))
      × (yuvj2yuv_uv (yuv2yuvj_uv (128 - d)) ≤ 128 - d + 1)
unfolding yuvj2yuv_y yuv2yuvj_y
yuvj2yuv-yuv2yuvj y d y₀ y₁ h = (
  ground arith,
  ground arith,
  rw (above_again d h) (omega arith),
  rw (above_again d h) (omega arith),
  rw (below_again d h) (omega arith),
  rw (below_again d h) (omega arith),
)

-- Below its range a chrominance becomes 16, but the lowest one of the range becomes 1; above it 240,
-- but the highest one 255.
pub yuv2yuvj_uv_outside :
    (low high : ℕ)
    → low < 16
    → 240 < high
    → (yuv2yuvj_uv low ≡ yuv2yuvj_uv 16 + 15) × (yuv2yuvj_uv 240 ≡ yuv2yuvj_uv high + 15)
unfolding yuv2yuvj_uv
yuv2yuvj_uv_outside low high l h = (ground arith, ground arith)
