-- ===== src/Tests/Sources.antt =====
-- Images made from a few pixels of a camera or a decoder.
use ozonebase.Prelude.{
  ℕ, ◌+◌, ◌*◌, ◌/◌, ◌<◌, ◌≡◌, refl, arith, List, [], ◌∷◌, some, replicate, length-replicate,
}
use ozonebase.Libgen.Outcome.{ok}
use ozonebase.Libimg.Image.{Image, yuvp, bytes_of}
use ozonebase.Libimg.Image.Layout.{IsImage}
use ozonebase.Libimg.Image.Samples.{byte_at}
use ozonebase.Libimg.Colour.{yuv2rgb_r, yuv2rgb_g, yuv2rgb_b}
use ozonebase.Libimg.Image.Sources.Pairs.{uyvy_pixel}
use ozonebase.Libimg.Image.Given.{
  image_of_pixels, image_of_palette, av_yuyv422, av_uyvy422, av_yuv420p, v4l2_yuyv, v4l2_yuv420,
}
use ozonebase.Libimg.Image.Given.Copied.{image_of-yuyv, image_of-uyvy, image_of-yuv420p}

-- Blocks that happen to hold only the byte 7 when they are allocated.
abbrev sevens : ℕ → List ℕ
sevens n = replicate n 7

abbrev pairs : List ℕ
pairs = 16 ∷ 128 ∷ 235 ∷ 129 ∷ 50 ∷ 90 ∷ 60 ∷ 91 ∷ []

image_of-yuyv_example :
    (j : Image) × (image_of_pixels sevens av_yuyv422 2 2 (some pairs) ≡ ok j)
    × (image_of_palette sevens v4l2_yuyv 2 2 (some pairs) ≡ ok j)
    × IsImage j
    × (j.format ≡ yuvp)
    × ((k : ℕ)
        → k < 4
        → (byte_at (bytes_of j) k ≡ byte_at pairs (k * 2))
          × (byte_at (bytes_of j) (4 + k) ≡ byte_at pairs (k / 2 * 4 + 1))
          × (byte_at (bytes_of j) (2 * 4 + k) ≡ byte_at pairs (k / 2 * 4 + 3)))
image_of-yuyv_example =
    image_of-yuyv sevens 2 2 2 pairs (λ n. length-replicate n 7) refl refl (omega arith)

image_of-uyvy_example :
    (j : Image) × (image_of_pixels sevens av_uyvy422 2 2 (some pairs) ≡ ok j)
    × IsImage j
    × (j.format ≡ yuvp)
    × ((k : ℕ)
        → k < 4
        → (byte_at (bytes_of j) (k * 3) ≡ uyvy_pixel pairs k yuv2rgb_r)
          × (byte_at (bytes_of j) (k * 3 + 1) ≡ uyvy_pixel pairs k yuv2rgb_g)
          × (byte_at (bytes_of j) (k * 3 + 2) ≡ uyvy_pixel pairs k yuv2rgb_b))
image_of-uyvy_example =
    image_of-uyvy sevens 2 2 2 pairs (λ n. length-replicate n 7) refl refl (omega arith)

abbrev quarter : List ℕ
quarter = 16 ∷ 17 ∷ 18 ∷ 19 ∷ 100 ∷ 200 ∷ []

image_of-yuv420p_example :
    (j : Image) × (image_of_pixels sevens av_yuv420p 2 2 (some quarter) ≡ ok j)
    × (image_of_palette sevens v4l2_yuv420 2 2 (some quarter) ≡ ok j)
    × IsImage j
    × (j.format ≡ yuvp)
    × ((k : ℕ) → k < 4 → byte_at (bytes_of j) k ≡ byte_at quarter k)
    × ((y x : ℕ)
        → y < 4
        → x < 2
        → byte_at (bytes_of j) (4 + (y * 2 + x)) ≡ byte_at quarter (4 + y / 2 * 1 + x / 2))
image_of-yuv420p_example =
    image_of-yuv420p sevens 1 1 quarter (λ n. length-replicate n 7) refl (omega arith)
