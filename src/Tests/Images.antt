-- ===== src/Tests/Images.antt =====
-- Small images: their layout, parts of them, turned and mirrored, lighter and darker.
use ozonebase.Prelude.{
  ◌++◌, ℕ, ◌%◌, ◌+◌, ◌-◌, ◌*◌, ◌/◌, ◌^◌, ◌<◌, ◌≤◌, ◌≡◌, refl, ◌⊎◌, inr, arith, List, [], ◌∷◌,
  length, map, some, true, false, pos, ltb, if◌then◌else◌,
}
use ozonebase.Libgen.Outcome.{ok, ◌>>=◌}
use ozonebase.Libimg.Colour.{rgb2yuvj_y}
use ozonebase.Libimg.Image.{
  Format, grey, grey16, rgb, yuvp, Image, Traits, traits, grey_space, rgb_space, yuv_space,
  assign_image, bytes_of,
}
use ozonebase.Libimg.Image.Layout.{Laid, IsImage}
use ozonebase.Libimg.Image.Layout.Assigned.{assign_image-append}
use ozonebase.Libimg.Image.Geometry.{pixel, crop, flip, rotate_half}
use ozonebase.Libimg.Image.Geometry.Made.{Shows}
use ozonebase.Libimg.Image.Geometry.Crop.{Inside, crop_lem}
use ozonebase.Libimg.Image.Geometry.Flip.{yuvp-IsPlanar, rgb-IsPacked, flip-mirrored_planes}
use ozonebase.Libimg.Image.Geometry.Mirrored.{mirrored_cell, flip-mirrored_packed}
use ozonebase.Libimg.Image.Geometry.Upside.{flip-upside}
use ozonebase.Libimg.Image.Geometry.Rotate.{rotate_half_lem}
use ozonebase.Libimg.Image.Samples.{y_in, total, byte_at, sum_steps}
use ozonebase.Libimg.Image.Samples.Sums.{add_up}
use ozonebase.Libimg.Image.Samples.Places.{AllBytes, no_byte, one_byte, total-y_in}
use ozonebase.Libimg.Image.Levels.{decay, boost}
use ozonebase.Libimg.Image.Levels.Bytes.{grey-IsFull, grey16-IsWide, boost-IsFull}
use ozonebase.Libimg.Image.Levels.Words.{Changed, decay-IsWide}
use ozonebase.Libimg.Image.Delta.{correction, y_delta}
use ozonebase.Libimg.Image.Delta.Distances.{y_delta_lem}
use ozonebase.Libimg.Image.Convert.{convert}
use ozonebase.Libimg.Image.Convert.Luminance.{grey-IsLuminant, convert-y_in}

-- An image of a format that has the given bytes.
abbrev made : Format → Traits → ℕ → ℕ → List ℕ → Image
made format t width height bytes =
    let pixel_width : ℕ = (t.depth - 1) / 8 + 1 in
    record {
      format = format;
      colour_space = t.space;
      width = width;
      height = height;
      pixels = width * height;
      channels = t.channels;
      planes = t.planes;
      colour_depth = t.depth;
      pixel_width = pixel_width;
      pixel_step = t.channels * pixel_width;
      stride = t.channels * pixel_width * width;
      plane_size = t.channels * pixel_width * width * height;
      size = t.channels * pixel_width * width * height * t.planes;
      buffer = record {
        storage = bytes;
        allocation = length bytes;
        size = length bytes;
        head = 0;
        tail = length bytes;
        adopted = false;
      };
    }

made-IsImage :
    (format : Format) (t : Traits) (width height : ℕ) (bytes : List ℕ)
    → traits format ≡ ok t
    → length bytes ≡ t.channels * ((t.depth - 1) / 8 + 1) * width * height * t.planes
    → length bytes < 2 ^ 31
    → IsImage (made format t width height bytes)
made-IsImage format t width height bytes d e s = record {
  traits_of = t;
  defined = d;
  laid = record {
    format_is = refl;
    width_is = refl;
    height_is = refl;
    pixels_is = refl;
    space_is = refl;
    channels_is = refl;
    planes_is = refl;
    depth_is = refl;
    pixel_width_is = refl;
    pixel_step_is = refl;
    stride_is = refl;
    plane_size_is = refl;
    size_is = refl;
  };
  valid = record { stored = refl; room = omega arith; ends = omega arith; small = s };
  owned = refl;
  filled = e;
}

abbrev grey_traits : Traits
grey_traits = record { space = grey_space; channels = 1; planes = 1; depth = 8 }

abbrev grey16_traits : Traits
grey16_traits = record { space = grey_space; channels = 1; planes = 1; depth = 16 }

abbrev rgb_traits : Traits
rgb_traits = record { space = rgb_space; channels = 3; planes = 1; depth = 8 }

abbrev yuvp_traits : Traits
yuvp_traits = record { space = yuv_space; channels = 1; planes = 3; depth = 8 }

-- A grey image of three by two pixels, one of words, one of two RGB pixels and one in planes.
abbrev grey_bytes : List ℕ
grey_bytes = 10 ∷ 20 ∷ 30 ∷ 40 ∷ 200 ∷ 255 ∷ []

abbrev grey_image : Image
grey_image = made grey grey_traits 3 2 grey_bytes

grey_image-IsImage : IsImage grey_image
grey_image-IsImage = made-IsImage grey grey_traits 3 2 grey_bytes refl refl (omega arith)

grey_bytes-AllBytes : AllBytes grey_bytes
grey_bytes-AllBytes = one_byte _ _ (omega arith) (
    one_byte _ _ (omega arith) (
      one_byte _ _ (omega arith) (
        one_byte _ _ (omega arith)
          (one_byte _ _ (omega arith) (one_byte _ _ (omega arith) no_byte)))))

abbrev word_image : Image
word_image = made grey16 grey16_traits 2 1 (1 ∷ 0 ∷ 255 ∷ 255 ∷ [])

word_image-IsImage : IsImage word_image
word_image-IsImage =
    made-IsImage grey16 grey16_traits 2 1 (1 ∷ 0 ∷ 255 ∷ 255 ∷ []) refl refl (omega arith)

abbrev rgb_bytes : List ℕ
rgb_bytes = 255 ∷ 0 ∷ 0 ∷ 0 ∷ 128 ∷ 64 ∷ []

abbrev rgb_image : Image
rgb_image = made rgb rgb_traits 2 1 rgb_bytes

rgb_image-IsImage : IsImage rgb_image
rgb_image-IsImage = made-IsImage rgb rgb_traits 2 1 rgb_bytes refl refl (omega arith)

rgb_bytes-AllBytes : AllBytes rgb_bytes
rgb_bytes-AllBytes = one_byte _ _ (omega arith) (
    one_byte _ _ (omega arith) (
      one_byte _ _ (omega arith) (
        one_byte _ _ (omega arith)
          (one_byte _ _ (omega arith) (one_byte _ _ (omega arith) no_byte)))))

abbrev plane_bytes : List ℕ
plane_bytes = 16 ∷ 17 ∷ 18 ∷ 19 ∷ 100 ∷ 101 ∷ 102 ∷ 103 ∷ 120 ∷ 121 ∷ 122 ∷ 123 ∷ []

abbrev plane_image : Image
plane_image = made yuvp yuvp_traits 2 2 plane_bytes

plane_image-IsImage : IsImage plane_image
plane_image-IsImage = made-IsImage yuvp yuvp_traits 2 2 plane_bytes refl refl (omega arith)

assign_image-append_example :
    (j : Image) × (assign_image grey_image rgb 2 1 (some (rgb_bytes ++ 9 ∷ [])) false ≡ ok j)
    × IsImage j
    × Laid j rgb rgb_traits 2 1
    × (bytes_of j ≡ rgb_bytes)
assign_image-append_example =
    assign_image-append grey_image rgb_traits rgb 2 1 rgb_bytes (9 ∷ []) refl
      (inr grey_image-IsImage) (grey_image-IsImage).valid refl refl (omega arith)

crop_lem_example :
    ((cols : Inside 3 (pos 1) (pos 2)) × (rows : Inside 2 (pos 0) (pos 1)) × (j : Image) × (crop
          grey_image
          (pos 1)
          (pos 0)
          (pos 2)
          (pos 1)
        ≡ ok (true, j))
      × Shows grey_image j
          (cols.last + 1 - cols.first)
          (rows.last + 1 - rows.first)
          (λ p x y. pixel grey_image p (cols.first + x) (rows.first + y)))
    ⊎ ((¬ (Inside 3 (pos 1) (pos 2) × Inside 2 (pos 0) (pos 1)))
        × (crop grey_image (pos 1) (pos 0) (pos 2) (pos 1) ≡ ok (false, grey_image)))
crop_lem_example = crop_lem grey_image (pos 1) (pos 0) (pos 2) (pos 1) grey_image-IsImage

rotate_half_lem_example :
    (j : Image) × (rotate_half plane_image ≡ ok j)
    × Shows plane_image j 2 2 (λ p x y. pixel plane_image p (2 - 1 - x) (2 - 1 - y))
rotate_half_lem_example = rotate_half_lem plane_image plane_image-IsImage

flip-mirrored_planes_example :
    (j : Image) × (flip plane_image true ≡ ok j)
    × Shows plane_image j 2 2 (λ p x y. pixel plane_image p (2 - 1 - x) y)
flip-mirrored_planes_example = flip-mirrored_planes plane_image plane_image-IsImage yuvp-IsPlanar

flip-mirrored_packed_example :
    (j : Image) × (flip rgb_image true ≡ ok j) × Shows rgb_image j 2 1 (mirrored_cell rgb_image)
flip-mirrored_packed_example =
    flip-mirrored_packed rgb_image rgb_image-IsImage rgb-IsPacked (omega arith) (omega arith)

flip-upside_example :
    (j : Image) × (flip grey_image false ≡ ok j)
    × Shows grey_image j 3 2 (λ p x y. pixel grey_image p x (2 - 1 - y))
flip-upside_example = flip-upside grey_image grey_image-IsImage (omega arith)

total-y_in_example :
    (t : ℕ) × (total rgb_image ≡ ok t) × (add_up 2 0 (y_in rgb rgb_image) ≡ ok t) × (t ≤ 255 * 2)
total-y_in_example = total-y_in rgb_image rgb_image-IsImage rgb_bytes-AllBytes

boost-IsFull_example :
    (j : Image) × (boost grey_image (2 ^ 1) ≡ ok j)
    × IsImage j
    × Laid j grey (grey_image-IsImage).traits_of 3 2
    × (bytes_of j ≡ map (λ b. if ltb (b + b / 2 ^ 1) 256 then b + b / 2 ^ 1 else 0) grey_bytes)
boost-IsFull_example =
    boost-IsFull grey_image 1 grey_image-IsImage grey-IsFull grey_bytes-AllBytes (omega arith)
      (omega arith) (omega arith)

decay-IsWide_example :
    Changed word_image word_image-IsImage (λ w. w - w / 2 ^ 3) (decay word_image (2 ^ 3))
decay-IsWide_example =
    decay-IsWide word_image 3 word_image-IsImage grey16-IsWide
      (one_byte _ _ (omega arith) (
        one_byte _ _ (omega arith)
          (one_byte _ _ (omega arith) (one_byte _ _ (omega arith) no_byte))))
      (omega arith) (omega arith) (omega arith)

abbrev small_grey : Image
small_grey = made grey grey_traits 2 1 (7 ∷ 8 ∷ [])

small_grey-IsImage : IsImage small_grey
small_grey-IsImage = made-IsImage grey grey_traits 2 1 (7 ∷ 8 ∷ []) refl refl (omega arith)

convert-y_in_example :
    (j : Image) × (convert small_grey rgb_image ≡ ok j)
    × IsImage j
    × Laid j grey (small_grey-IsImage).traits_of 2 1
    × ((p : ℕ) → p < 2 → y_in j.format j p ≡ y_in rgb rgb_image p)
convert-y_in_example =
    convert-y_in small_grey rgb_image small_grey-IsImage rgb_image-IsImage rgb_bytes-AllBytes refl
      refl grey-IsLuminant refl

small_correction : correction small_grey rgb_image true ≡ ok 71
unfolding total sum_steps rgb2yuvj_y byte_at
small_correction = refl

small_bytes-AllBytes : AllBytes (7 ∷ 8 ∷ [])
small_bytes-AllBytes = one_byte _ _ (omega arith) (one_byte _ _ (omega arith) no_byte)

y_delta_lem_example :
    (j : Image) × (y_delta small_grey rgb_image true ≡ ok j)
    × IsImage j
    × (j.format ≡ grey)
    × (j.width ≡ 2)
    × (j.height ≡ 1)
    × ((p : ℕ)
        → p < 2
        → y_in grey j p ≡ (
            y_in rgb rgb_image p >>= λ c.
            y_in grey small_grey p >>= λ r. ok ((c - (r + 71) + (r + 71 - c)) % 256)))
y_delta_lem_example =
    y_delta_lem small_grey rgb_image true 71 small_grey-IsImage rgb_image-IsImage
      small_bytes-AllBytes rgb_bytes-AllBytes refl refl refl refl (omega arith) small_correction
