-- ===== src/Libimg/Image.antt =====
-- server/src/libimg/libimgImage.h and libimgImage.cpp: the class Image, how it is laid out in its buffer
-- and how it is assigned. The products of sizes are taken to fit in an int. The text and the mask of an
-- image, which the operations here pass on, are left out.
pub mod Layout
pub mod Geometry
pub mod Samples
pub mod Levels
pub mod Sources
pub mod Given
pub mod Convert
pub mod Delta
use ozonebase.Prelude.{
  ℕ, ◌+◌, ◌-◌, ◌*◌, ◌/◌, Bool, true, false, not, ◌&&◌, Option, none, some, List, ◌==◌,
  if◌then◌else◌,
}
use ozonebase.Libgen.Outcome.{Outcome, ok, thrown, ◌>>=◌}
use ozonebase.Libgen.Buffer
use ozonebase.Libgen.Buffer.{Buffer, empty_buffer, read_at, contents, adopt, set_size}

pub data Format : Type 0 where
  undef : Format
  grey : Format
  grey16 : Format
  rgb : Format
  rgb48 : Format
  yuv : Format
  yuvj : Format
  yuvp : Format
  yuvjp : Format

pub data ColourSpace : Type 0 where
  undef_space : ColourSpace
  grey_space : ColourSpace
  yuv_space : ColourSpace
  yuvj_space : ColourSpace
  rgb_space : ColourSpace

pub record Image : Type 0 where
  pub format : Format
  pub colour_space : ColourSpace
  pub width : ℕ
  pub height : ℕ
  pub pixels : ℕ
  pub channels : ℕ
  pub planes : ℕ
  pub colour_depth : ℕ
  pub pixel_width : ℕ
  pub pixel_step : ℕ
  pub stride : ℕ
  pub plane_size : ℕ
  pub size : ℕ
  pub buffer : Buffer

-- `clear`.
unfoldable pub clear_image : Image → Image
clear_image i = record {
  format = undef;
  colour_space = undef_space;
  width = 0;
  height = 0;
  pixels = 0;
  channels = 0;
  planes = 0;
  colour_depth = 0;
  pixel_width = 0;
  pixel_step = 0;
  stride = 0;
  plane_size = 0;
  size = 0;
  buffer = Buffer.clear i.buffer;
}

-- The enumerators' order, by which formats are compared.
abbrev pub format_code : Format → ℕ
format_code undef = 0
format_code grey = 1
format_code grey16 = 2
format_code rgb = 3
format_code rgb48 = 4
format_code yuv = 5
format_code yuvj = 6
format_code yuvp = 7
format_code yuvjp = 8

-- What the format determines.
pub record Traits : Type 0 where
  pub space : ColourSpace
  pub channels : ℕ
  pub planes : ℕ
  pub depth : ℕ

abbrev traits_with : ColourSpace → ℕ → ℕ → ℕ → Outcome Traits
traits_with space channels planes depth =
    ok (record { space = space; channels = channels; planes = planes; depth = depth })

abbrev pub traits : Format → Outcome Traits
traits undef = thrown
traits grey = traits_with grey_space 1 1 8
traits grey16 = traits_with grey_space 1 1 16
traits rgb = traits_with rgb_space 3 1 8
traits rgb48 = traits_with rgb_space 3 1 16
traits yuv = traits_with yuv_space 3 1 8
traits yuvj = traits_with yuvj_space 3 1 8
traits yuvp = traits_with yuv_space 1 3 8
traits yuvjp = traits_with yuvj_space 1 3 8

unfoldable pub laid_out : Image → Traits → Format → ℕ → ℕ → Image
laid_out i t format width height =
    let pixel_width : ℕ = (t.depth - 1) / 8 + 1 in
    let pixel_step : ℕ = t.channels * pixel_width in
    let stride : ℕ = pixel_step * width in
    let plane_size : ℕ = stride * height in
    record {
      format = format;
      colour_space = t.space;
      width = width;
      height = height;
      pixels = width * height;
      channels = t.channels;
      planes = t.planes;
      colour_depth = t.depth;
      pixel_width = pixel_width;
      pixel_step = pixel_step;
      stride = stride;
      plane_size = plane_size;
      size = plane_size * t.planes;
      buffer = i.buffer;
    }

-- Whether the layout is as it was.
abbrev pub is_laid_out : Image → Format → ℕ → ℕ → Bool
is_laid_out i format width height =
    not (i.buffer.size == 0)
    && ((format_code format == format_code i.format)
        && ((width == i.width) && (height == i.height)))

unfoldable pub lay_out : Image → Format → ℕ → ℕ → Outcome Image
unfolding laid_out
lay_out i format width height =
    if is_laid_out i format width height
    then ok i
    else (traits format >>= λ t. ok (laid_out i t format width height))

-- The end of `assign`, for the data there is, if any.
unfoldable pub store : Image → Option (List ℕ) → Bool → Outcome Image
store i none adopted = set_size i.buffer i.size >>= λ r. ok (record i { buffer = r.1 })
store i (some bytes) true =
    read_at bytes 0 i.size >>= λ taken. ok (record i { buffer = adopt taken })
store i (some bytes) false = read_at bytes 0 i.size >>= λ taken.
    Buffer.assign i.buffer taken >>= λ r. ok (record i { buffer = r.1 })

unfoldable pub assign_image : Image → Format → ℕ → ℕ → Option (List ℕ) → Bool → Outcome Image
unfolding lay_out store
assign_image i format width height bytes adopted =
    lay_out i format width height >>= λ i'. store i' bytes adopted

-- An image just constructed.
abbrev pub no_image : Image
no_image = record {
  format = undef;
  colour_space = undef_space;
  width = 0;
  height = 0;
  pixels = 0;
  channels = 0;
  planes = 0;
  colour_depth = 0;
  pixel_width = 0;
  pixel_step = 0;
  stride = 0;
  plane_size = 0;
  size = 0;
  buffer = empty_buffer;
}

-- The constructor with a format, which owns what it has.
unfoldable pub new_image : Format → ℕ → ℕ → Option (List ℕ) → Outcome Image
unfolding assign_image clear_image
new_image format width height bytes =
    assign_image (clear_image no_image) format width height bytes false

-- `assign( image )`.
unfoldable pub assign_from : Image → Image → Outcome Image
unfolding assign_image
assign_from i image =
    assign_image i image.format image.width image.height
      (if image.buffer.size == 0 then none else some (contents image.buffer)) false

-- The bytes of an image.
abbrev pub bytes_of : Image → List ℕ
bytes_of i = contents i.buffer
