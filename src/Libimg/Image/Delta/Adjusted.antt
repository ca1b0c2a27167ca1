-- ===== src/Libimg/Image/Delta/Adjusted.antt =====
-- server/src/libimg/libimgImage.cpp: yDelta2, where the second image is scaled in place of a correction. The
-- factor in percent, which the code gets in floating point from the totals, is the argument `percent`; a
-- byte of the scaled image is read before the pointer to it moves, the order that C++17 prescribes.
use ozonebase.Prelude.{
  ℕ, ◌*◌, ◌/◌, ◌≡◌, refl, Bool, true, false, ◌&&◌, none, ◌∷◌, [], ltb, ◌==◌, if◌then◌else◌,
}
use ozonebase.Libgen.Outcome.{Outcome, ok, panic, fault, ◌>>=◌}
use ozonebase.Libimg.Raster.{gather}
use ozonebase.Libimg.Image.{Format, grey, format_code, Image, new_image, bytes_of}
use ozonebase.Libimg.Image.Geometry.{drawn}
use ozonebase.Libimg.Image.Samples.{byte_at, total}
use ozonebase.Libimg.Image.Convert.{convert}
use ozonebase.Libimg.Image.Delta.{delta_bytes, delta_format, y_delta}

-- The constructor for a format and an image.
abbrev pub image_in : Format → Image → Outcome Image
image_in format image = new_image format image.width image.height none >>= λ new. convert new image

abbrev pub adjusted_byte : ℕ → ℕ → Outcome ℕ
adjusted_byte k b =
    if k == 0 then fault else ok (if ltb 255 (b * 100 / k) then 255 else b * 100 / k)

abbrev pub adjusted : ℕ → Image → Outcome Image
adjusted k image = image_in grey image >>= λ adj.
    gather adj.buffer.size
      (λ p. byte_at (bytes_of adj) p >>= λ b. adjusted_byte k b >>= λ a. ok (a ∷ []))
    >>= λ bytes. drawn adj bytes

abbrev pub compared : (ℕ → ℕ → Outcome ℕ) → Image → Image → Bool → Outcome Image
compared percent i image false = ok image
compared percent i image true = total i >>= λ ref.
    total image >>= λ cmp. percent ref cmp >>= λ k. if k == 100 then ok image else adjusted k image

unfoldable pub y_delta2 : (ℕ → ℕ → Outcome ℕ) → Image → Image → Bool → Outcome Image
y_delta2 percent i image correct =
    if (i.width == image.width) && (i.height == image.height)
    then (if format_code i.format == 0
        then panic
        else if format_code image.format == 0
        then panic
        else (new_image (delta_format i.format) i.width i.height none >>= λ new.
            compared percent i image correct >>= λ cmp.
            delta_bytes i.format cmp.format i cmp 0 >>= λ bytes. drawn new bytes))
    else panic

-- Where the totals of two images agree to a percent, their difference is the one that yDelta gives without
-- a correction, on every pair of images and every path.
y_delta2-y_delta :
    (percent : ℕ → ℕ → Outcome ℕ) (i image : Image) (ref cmp : ℕ)
    → total i ≡ ok ref
    → total image ≡ ok cmp
    → percent ref cmp ≡ ok 100
    → y_delta2 percent i image true ≡ y_delta i image false
unfolding y_delta2 y_delta
y_delta2-y_delta percent i image ref cmp r c k = rw (r, c, k) refl
