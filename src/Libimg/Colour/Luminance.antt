-- ===== src/Libimg/Colour/Luminance.antt =====
-- server/src/libimg/libimgImage.h: the luminance of a colour.
use ozonebase.Prelude.{ℕ, ◌+◌, ◌<◌, ◌≤◌, arith}
use ozonebase.Libimg.Colour.{rgb2yuvj_y}

-- The luminance of a colour of bytes is not above the brightest of its channels, and not below the
-- darkest by more than 3.
pub rgb2yuvj_y_between :
    (r g b least most : ℕ)
    → most < 256
    → r ≤ most
    → g ≤ most
    → b ≤ most
    → least ≤ r
    → least ≤ g
    → least ≤ b
    → (rgb2yuvj_y r g b ≤ most) × (least ≤ rgb2yuvj_y r g b + 3)
unfolding rgb2yuvj_y
rgb2yuvj_y_between r g b least most h r₁ g₁ b₁ r₀ g₀ b₀ = ground arith
