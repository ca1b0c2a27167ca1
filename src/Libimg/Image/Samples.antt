-- ===== src/Libimg/Image/Samples.antt =====
-- server/src/libimg/libimgImage.cpp: the colours of single pixels, and the totals over an image. A byte
-- outside the bytes of the image is a fault.
pub mod Sums
pub mod Blocks
pub mod Places
use ozonebase.Prelude.{
  ℕ, zero, suc, ◌+◌, ◌-◌, ◌*◌, Bool, true, false, ◌||◌, List, [], ◌∷◌, ltb, ◌==◌, if◌then◌else◌, ℤ,
  pos, difference, ◌+ℤ◌,
}
use ozonebase.Libgen.Outcome.{Outcome, ok, fault, panic, spent, ◌>>=◌}
use ozonebase.Libimg.Image.{
  Format, undef, grey, grey16, rgb, rgb48, yuv, yuvj, yuvp, yuvjp, Image, bytes_of,
}
use ozonebase.Libimg.Colour.{
  rgb2yuvj_y, rgb2yuvj_u, rgb2yuvj_v, yuv2yuvj_y, yuv2yuvj_uv, yuv2rgb_r, yuv2rgb_g, yuv2rgb_b,
  yuvj2rgb_r, yuvj2rgb_g, yuvj2rgb_b,
}

-- `mBuffer[k]`.
unfoldable pub byte_at : List ℕ → ℕ → Outcome ℕ
byte_at [] k = fault
byte_at (b ∷ bytes) zero = ok b
byte_at (b ∷ bytes) (suc k) = byte_at bytes k

-- A function of three bytes.
abbrev pub of_bytes : (ℕ → ℕ → ℕ → ℕ) → Image → ℕ → ℕ → ℕ → Outcome ℕ
of_bytes f i a b c = byte_at (bytes_of i) a >>= λ x.
    byte_at (bytes_of i) b >>= λ y. byte_at (bytes_of i) c >>= λ z. ok (f x y z)

abbrev pub of_byte : (ℕ → ℕ) → Image → ℕ → Outcome ℕ
of_byte f i a = byte_at (bytes_of i) a >>= λ x. ok (f x)

-- Of the three components of a packed pixel, and of one in planes.
abbrev pub of_packed : (ℕ → ℕ → ℕ → ℕ) → Image → ℕ → Outcome ℕ
of_packed f i at = of_bytes f i at (at + 1) (at + 2)

abbrev pub of_wide : (ℕ → ℕ → ℕ → ℕ) → Image → ℕ → Outcome ℕ
of_wide f i at = of_bytes f i at (at + 2) (at + 4)

abbrev pub of_planes : (ℕ → ℕ → ℕ → ℕ) → Image → ℕ → Outcome ℕ
of_planes f i at = of_bytes f i at (at + i.plane_size) (at + 2 * i.plane_size)

-- `red`, `green` and `blue` of the p-th pixel.
abbrev pub red_in : Format → Image → ℕ → Outcome ℕ
red_in undef i p = ok 0
red_in grey i p = byte_at (bytes_of i) (p * i.pixel_step)
red_in grey16 i p = byte_at (bytes_of i) (p * i.pixel_step)
red_in rgb i p = byte_at (bytes_of i) (p * i.pixel_step)
red_in rgb48 i p = byte_at (bytes_of i) (p * i.pixel_step)
red_in yuv i p = of_packed yuv2rgb_r i (p * i.pixel_step)
red_in yuvj i p = of_packed yuvj2rgb_r i (p * i.pixel_step)
red_in yuvp i p = of_planes yuv2rgb_r i (p * i.pixel_step)
red_in yuvjp i p = of_planes yuvj2rgb_r i (p * i.pixel_step)

abbrev pub green_in : Format → Image → ℕ → Outcome ℕ
green_in undef i p = ok 0
green_in grey i p = byte_at (bytes_of i) (p * i.pixel_step)
green_in grey16 i p = byte_at (bytes_of i) (p * i.pixel_step)
green_in rgb i p = byte_at (bytes_of i) (p * i.pixel_step + 1)
green_in rgb48 i p = byte_at (bytes_of i) (p * i.pixel_step + i.pixel_width)
green_in yuv i p = of_packed yuv2rgb_g i (p * i.pixel_step)
green_in yuvj i p = of_packed yuvj2rgb_g i (p * i.pixel_step)
green_in yuvp i p = of_planes yuv2rgb_g i (p * i.pixel_step)
green_in yuvjp i p = of_planes yuvj2rgb_g i (p * i.pixel_step)

abbrev pub blue_in : Format → Image → ℕ → Outcome ℕ
blue_in undef i p = ok 0
blue_in grey i p = byte_at (bytes_of i) (p * i.pixel_step)
blue_in grey16 i p = byte_at (bytes_of i) (p * i.pixel_step)
blue_in rgb i p = byte_at (bytes_of i) (p * i.pixel_step + 2)
blue_in rgb48 i p = byte_at (bytes_of i) (p * i.pixel_step + 2 * i.pixel_width)
blue_in yuv i p = of_packed yuv2rgb_b i (p * i.pixel_step)
blue_in yuvj i p = of_packed yuvj2rgb_b i (p * i.pixel_step)
blue_in yuvp i p = of_planes yuv2rgb_b i (p * i.pixel_step)
blue_in yuvjp i p = of_planes yuvj2rgb_b i (p * i.pixel_step)

-- `y`, `u` and `v` of the p-th pixel.
abbrev pub y_in : Format → Image → ℕ → Outcome ℕ
y_in undef i p = ok 0
y_in grey i p = byte_at (bytes_of i) (p * i.pixel_step)
y_in grey16 i p = byte_at (bytes_of i) (p * i.pixel_step)
y_in rgb i p = of_packed rgb2yuvj_y i (p * i.pixel_step)
y_in rgb48 i p = of_wide rgb2yuvj_y i (p * i.pixel_step)
y_in yuv i p = of_byte yuv2yuvj_y i (p * i.pixel_step)
y_in yuvj i p = byte_at (bytes_of i) (p * i.pixel_step)
y_in yuvp i p = of_byte yuv2yuvj_y i p
y_in yuvjp i p = byte_at (bytes_of i) p

abbrev pub u_in : Format → Image → ℕ → Outcome ℕ
u_in undef i p = ok 128
u_in grey i p = ok 128
u_in grey16 i p = ok 128
u_in rgb i p = of_packed rgb2yuvj_u i (p * i.pixel_step)
u_in rgb48 i p = of_wide rgb2yuvj_u i (p * i.pixel_step)
u_in yuv i p = of_byte yuv2yuvj_uv i (p * i.pixel_step + 1)
u_in yuvj i p = byte_at (bytes_of i) (p * i.pixel_step + 1)
u_in yuvp i p = of_byte yuv2yuvj_uv i (p + i.plane_size)
u_in yuvjp i p = byte_at (bytes_of i) (p + i.plane_size)

abbrev pub v_in : Format → Image → ℕ → Outcome ℕ
v_in undef i p = ok 128
v_in grey i p = ok 128
v_in grey16 i p = ok 128
v_in rgb i p = of_packed rgb2yuvj_v i (p * i.pixel_step)
v_in rgb48 i p = of_wide rgb2yuvj_v i (p * i.pixel_step)
v_in yuv i p = of_byte yuv2yuvj_uv i (p * i.pixel_step + 2)
v_in yuvj i p = byte_at (bytes_of i) (p * i.pixel_step + 2)
v_in yuvp i p = of_byte yuv2yuvj_uv i (p + 2 * i.plane_size)
v_in yuvjp i p = byte_at (bytes_of i) (p + 2 * i.plane_size)

-- The accessors with coordinates.
abbrev pub offset_of : Image → ℕ → ℕ → ℕ
offset_of i x y = (x + y * i.width) * i.pixel_step

unfoldable pub red_xy : Image → ℕ → ℕ → Outcome ℕ
red_xy i x y = red_in i.format i (offset_of i x y)

unfoldable pub green_xy : Image → ℕ → ℕ → Outcome ℕ
green_xy i x y = green_in i.format i (offset_of i x y)

unfoldable pub blue_xy : Image → ℕ → ℕ → Outcome ℕ
blue_xy i x y = blue_in i.format i (offset_of i x y)

unfoldable pub y_xy : Image → ℕ → ℕ → Outcome ℕ
y_xy i x y = y_in i.format i (offset_of i x y)

unfoldable pub u_xy : Image → ℕ → ℕ → Outcome ℕ
u_xy i x y = u_in i.format i (offset_of i x y)

unfoldable pub v_xy : Image → ℕ → ℕ → Outcome ℕ
v_xy i x y = v_in i.format i (offset_of i x y)

-- `while ( pData < end ) { total += ...; pData += step; }`.
unfoldable pub sum_steps : ℕ → (ℕ → Outcome ℕ) → ℕ → ℕ → ℕ → Outcome ℕ
sum_steps zero f step end at = spent
sum_steps (suc fuel) f step end at =
    let rest = sum_steps fuel f step end (at + step) in
    if ltb at end then (f at >>= λ v. rest >>= λ r. ok (v + r)) else ok 0

abbrev pub sum_all : Image → (ℕ → Outcome ℕ) → ℕ → Outcome ℕ
sum_all i f step = sum_steps (suc i.buffer.size) f step i.buffer.size 0

-- `total`.
abbrev pub total_in : Format → Image → Outcome ℕ
total_in undef i = ok 0
total_in grey i = sum_all i (byte_at (bytes_of i)) 1
total_in grey16 i = sum_all i (byte_at (bytes_of i)) i.pixel_step
total_in rgb i = sum_all i (of_packed rgb2yuvj_y i) i.pixel_step
total_in rgb48 i = sum_all i (of_wide rgb2yuvj_y i) i.pixel_step
total_in yuv i = sum_all i (of_byte yuv2yuvj_y i) i.pixel_step
total_in yuvj i = sum_all i (byte_at (bytes_of i)) i.pixel_step
total_in yuvp i = sum_steps (suc i.plane_size) (of_byte yuv2yuvj_y i) 1 i.plane_size 0
total_in yuvjp i = sum_steps (suc i.plane_size) (byte_at (bytes_of i)) 1 i.plane_size 0

unfoldable pub total : Image → Outcome ℕ
total i = total_in i.format i
