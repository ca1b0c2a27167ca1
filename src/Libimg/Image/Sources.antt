-- ===== src/Libimg/Image/Sources.antt =====
-- server/src/libimg/libimgImage.cpp: the copies from the formats of cameras and decoders to those of an
-- image. Where two pixels stand in four bytes, the number of pixels is taken to be even.
pub mod Pairs
pub mod Planes
pub mod Swapped
pub mod Triples
use ozonebase.Prelude.{
  ℕ, zero, suc, ◌+◌, ◌-◌, ◌*◌, ◌/◌, ◌%◌, ◌^◌, Option, none, some, List, [], ◌∷◌, ◌++◌, length,
  replicate, ltb, leb, ◌==◌, if◌then◌else◌,
}
use ozonebase.Libgen.Outcome.{Outcome, ok, fault, panic, thrown, spent, ◌>>=◌}
use ozonebase.Libgen.Buffer.{read_at, write_at}
use ozonebase.Libimg.Raster.{gather}
use ozonebase.Libimg.Colour.{yuv2rgb_r, yuv2rgb_g, yuv2rgb_b}
use ozonebase.Libimg.Image.{
  Format, undef, grey, grey16, rgb, rgb48, yuv, yuvj, yuvp, yuvjp, Image, no_image, clear_image,
  assign_image,
}
use ozonebase.Libimg.Image.Samples.{byte_at}

-- `copyYUVP2YUVP`, expanding: a row of the reduced planes, and the rows that repeat the one before.
unfoldable pub expand_row : List ℕ → ℕ → ℕ → ℕ → Outcome (List ℕ)
expand_row src at width density_x =
    gather (width / density_x) (λ x. byte_at src (at + x) >>= λ v. ok (replicate density_x v))

unfoldable pub repeat_row : ℕ → ℕ → List ℕ → Outcome (List ℕ)
repeat_row zero width done = ok done
repeat_row (suc n) width done =
    repeat_row n width done >>= λ d. read_at d (length d - width) width >>= λ row. ok (d ++ row)

unfoldable pub expand_rows : ℕ → List ℕ → ℕ → ℕ → ℕ → ℕ → List ℕ → Outcome (List ℕ)
expand_rows zero src from width density_x density_y done = ok done
expand_rows (suc n) src from width density_x density_y done =
    expand_rows n src from width density_x density_y done >>= λ d.
    expand_row src (from + n * (width / density_x)) width density_x >>= λ row.
    repeat_row (density_y - 1) width (d ++ row)

unfoldable pub copy_planes : List ℕ → ℕ → ℕ → ℕ → ℕ → Outcome (List ℕ)
copy_planes src width height density_x density_y = read_at src 0 (width * height) >>= λ luminance.
    expand_rows (height / density_y * 2) src (width * height) width density_x density_y luminance

-- Four bytes of the source.
abbrev pub four : List ℕ → ℕ → (ℕ → ℕ → ℕ → ℕ → List ℕ) → Outcome (List ℕ)
four src at f = byte_at src at >>= λ a. byte_at src (at + 1) >>= λ b.
    byte_at src (at + 2) >>= λ c. byte_at src (at + 3) >>= λ d. ok (f a b c d)

-- Two pixels in RGB.
abbrev pub rgb_pair : ℕ → ℕ → ℕ → ℕ → List ℕ
rgb_pair y₁ y₂ u v =
    yuv2rgb_r y₁ u v
    ∷ yuv2rgb_g y₁ u v
    ∷ yuv2rgb_b y₁ u v
    ∷ yuv2rgb_r y₂ u v
    ∷ yuv2rgb_g y₂ u v
    ∷ yuv2rgb_b y₂ u v
    ∷ []

-- How often the loops by four bytes run.
abbrev pub pair_count : ℕ → ℕ → ℕ
pair_count width height = (width * height * 2 + 3) / 4

unfoldable pub copy_yuyv_rgb : List ℕ → ℕ → ℕ → Outcome (List ℕ)
copy_yuyv_rgb src width height =
    gather (pair_count width height) (λ n. four src (n * 4) (λ y₁ u y₂ v. rgb_pair y₁ y₂ u v))

unfoldable pub copy_uyvy_rgb : List ℕ → ℕ → ℕ → Outcome (List ℕ)
copy_uyvy_rgb src width height =
    gather (pair_count width height) (λ n. four src (n * 4) (λ u y₁ v y₂. rgb_pair y₁ y₂ u v))

-- The three planes are filled by one loop, each from its first byte on.
abbrev pub in_planes :
    List ℕ
    → ℕ
    → ℕ
    → (ℕ → ℕ → ℕ → ℕ → List ℕ)
    → (ℕ → ℕ → ℕ → ℕ → List ℕ)
    → (ℕ → ℕ → ℕ → ℕ → List ℕ)
    → Outcome (List ℕ)
in_planes src width height y u v =
    gather (pair_count width height) (λ n. four src (n * 4) y) >>= λ ys.
    gather (pair_count width height) (λ n. four src (n * 4) u) >>= λ us.
    gather (pair_count width height) (λ n. four src (n * 4) v) >>= λ vs. ok (ys ++ (us ++ vs))

unfoldable pub copy_yuyv_yuvp : List ℕ → ℕ → ℕ → Outcome (List ℕ)
copy_yuyv_yuvp src width height =
    in_planes src width height (λ y₁ u y₂ v. y₁ ∷ y₂ ∷ []) (λ y₁ u y₂ v. u ∷ u ∷ [])
      (λ y₁ u y₂ v. v ∷ v ∷ [])

unfoldable pub copy_uyvy_yuvp : List ℕ → ℕ → ℕ → Outcome (List ℕ)
copy_uyvy_yuvp src width height =
    in_planes src width height (λ u y₁ v y₂. y₁ ∷ y₂ ∷ []) (λ u y₁ v y₂. u ∷ u ∷ [])
      (λ u y₁ v y₂. v ∷ v ∷ [])

unfoldable pub copy_bgr : List ℕ → ℕ → ℕ → Outcome (List ℕ)
copy_bgr src width height = gather (width * height) (λ n. byte_at src (n * 3 + 2) >>= λ r.
    byte_at src (n * 3 + 1) >>= λ g. byte_at src (n * 3) >>= λ b. ok (r ∷ g ∷ b ∷ []))

-- The bits of a pixel that is packed in one or two bytes, which the host has with the low one first.
abbrev pub field : ℕ → ℕ → ℕ → ℕ
field word low bits = word / 2 ^ low % 2 ^ bits

abbrev pub fields : ℕ → ℕ → ℕ → ℕ → List ℕ
fields word r_bits g_bits b_bits =
    field word (g_bits + b_bits) r_bits % 256
    ∷ field word b_bits g_bits % 256
    ∷ field word 0 b_bits % 256
    ∷ []

abbrev pub pack_size : ℕ → ℕ → ℕ → ℕ
pack_size r_bits g_bits b_bits = (r_bits + g_bits + b_bits - 1) / 8 + 1

unfoldable pub copy_rgbp : List ℕ → ℕ → ℕ → ℕ → ℕ → ℕ → Outcome (List ℕ)
copy_rgbp src width height r_bits g_bits b_bits =
    if pack_size r_bits g_bits b_bits == 1
    then gather (width * height)
        (λ n. byte_at src n >>= λ word. ok (fields word r_bits g_bits b_bits))
    else if pack_size r_bits g_bits b_bits == 2
    then gather (width * height) (λ n. byte_at src (n * 2) >>= λ low.
        byte_at src (n * 2 + 1) >>= λ high. ok (fields (high * 256 + low) r_bits g_bits b_bits))
    else panic

-- What is copied, and to which format; nothing is where the bytes are taken as they are.
pub data Copy : Type 0 where
  as_is : Copy
  planes_of : ℕ → ℕ → Copy
  yuyv_planes : Copy
  uyvy_planes : Copy
  uyvy_rgb : Copy
  bgr_triples : Copy
  bits_of : ℕ → ℕ → ℕ → Copy

abbrev pub copied : Copy → List ℕ → ℕ → ℕ → Outcome (List ℕ)
copied as_is src width height = ok []
copied (planes_of x y) src width height = copy_planes src width height x y
copied yuyv_planes src width height = copy_yuyv_yuvp src width height
copied uyvy_planes src width height = copy_uyvy_yuvp src width height
copied uyvy_rgb src width height = copy_uyvy_rgb src width height
copied bgr_triples src width height = copy_bgr src width height
copied (bits_of r g b) src width height = copy_rgbp src width height r g b
