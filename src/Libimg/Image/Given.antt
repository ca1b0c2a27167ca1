-- ===== src/Libimg/Image/Given.antt =====
-- server/src/libimg/libimgImage.cpp: the constructors of Image for the pixels of a camera or a decoder.
-- What a block holds that was just allocated is given by the function `fresh`.
pub mod Copied
use ozonebase.Prelude.{ℕ, ◌*◌, Option, none, some, List, false}
use ozonebase.Libgen.Outcome.{Outcome, ok, panic, ◌>>=◌}
use ozonebase.Libgen.Buffer.{write_at}
use ozonebase.Libimg.Image.{
  Format, grey, grey16, rgb, rgb48, yuvp, yuvjp, Image, no_image, clear_image, assign_image,
}
use ozonebase.Libimg.Image.Sources.{
  Copy, as_is, planes_of, yuyv_planes, uyvy_planes, uyvy_rgb, bgr_triples, bits_of, copied,
}

-- The palettes of V4L2 that the code knows, and the others.
pub data Palette : Type 0 where
  v4l2_yuv420 : Palette
  v4l2_yuv410 : Palette
  v4l2_yuv422p : Palette
  v4l2_yuv411p : Palette
  v4l2_yuyv : Palette
  v4l2_uyvy : Palette
  v4l2_rgb555 : Palette
  v4l2_rgb565 : Palette
  v4l2_bgr24 : Palette
  v4l2_rgb24 : Palette
  v4l2_grey8 : Palette
  v4l2_other : Palette

-- The pixel formats of FFmpeg that the code knows, and the others.
pub data PixelFormat : Type 0 where
  av_yuv420p : PixelFormat
  av_yuyv422 : PixelFormat
  av_uyvy422 : PixelFormat
  av_rgb24 : PixelFormat
  av_bgr24 : PixelFormat
  av_yuv422p : PixelFormat
  av_yuv444p : PixelFormat
  av_yuv410p : PixelFormat
  av_yuv411p : PixelFormat
  av_gray8 : PixelFormat
  av_yuvj420p : PixelFormat
  av_yuvj422p : PixelFormat
  av_yuvj444p : PixelFormat
  av_gray16 : PixelFormat
  av_yuv440p : PixelFormat
  av_yuvj440p : PixelFormat
  av_rgb48 : PixelFormat
  av_rgb565 : PixelFormat
  av_rgb555 : PixelFormat
  av_other : PixelFormat

-- `calcBufferSize`.
abbrev pub palette_buffer_size : Palette → ℕ → ℕ → Outcome ℕ
palette_buffer_size v4l2_yuv420 width height = ok (width * height * 3)
palette_buffer_size v4l2_yuv410 width height = ok (width * height * 3)
palette_buffer_size v4l2_yuv422p width height = ok (width * height * 3)
palette_buffer_size v4l2_yuv411p width height = ok (width * height * 3)
palette_buffer_size v4l2_yuyv width height = ok (width * height * 3)
palette_buffer_size v4l2_uyvy width height = ok (width * height * 3)
palette_buffer_size v4l2_rgb555 width height = ok (width * height * 3)
palette_buffer_size v4l2_rgb565 width height = ok (width * height * 3)
palette_buffer_size v4l2_bgr24 width height = ok (width * height * 3)
palette_buffer_size v4l2_rgb24 width height = ok (width * height * 3)
palette_buffer_size v4l2_grey8 width height = ok (width * height)
palette_buffer_size v4l2_other width height = panic

abbrev pub calc_buffer_size : PixelFormat → ℕ → ℕ → Outcome ℕ
calc_buffer_size av_yuv420p width height = ok (width * height * 3)
calc_buffer_size av_yuyv422 width height = ok (width * height * 3)
calc_buffer_size av_uyvy422 width height = ok (width * height * 3)
calc_buffer_size av_rgb24 width height = ok (width * height * 3)
calc_buffer_size av_bgr24 width height = ok (width * height * 3)
calc_buffer_size av_yuv422p width height = ok (width * height * 3)
calc_buffer_size av_yuv444p width height = ok (width * height * 3)
calc_buffer_size av_yuv410p width height = ok (width * height * 3)
calc_buffer_size av_yuv411p width height = ok (width * height * 3)
calc_buffer_size av_gray8 width height = ok (width * height)
calc_buffer_size av_yuvj420p width height = ok (width * height * 3)
calc_buffer_size av_yuvj422p width height = ok (width * height * 3)
calc_buffer_size av_yuvj444p width height = ok (width * height * 3)
calc_buffer_size av_gray16 width height = ok (width * height * 2)
calc_buffer_size av_yuv440p width height = ok (width * height * 3)
calc_buffer_size av_yuvj440p width height = ok (width * height * 3)
calc_buffer_size av_rgb48 width height = ok (width * height * 6)
calc_buffer_size av_rgb565 width height = ok (width * height * 3)
calc_buffer_size av_rgb555 width height = ok (width * height * 3)
calc_buffer_size av_other width height = panic

-- The format of the image and what is copied.
abbrev pub palette_source : Palette → Outcome (Format × Copy)
palette_source v4l2_yuv420 = ok (yuvp, planes_of 2 2)
palette_source v4l2_yuv410 = ok (yuvp, planes_of 4 4)
palette_source v4l2_yuv422p = ok (yuvp, planes_of 2 1)
palette_source v4l2_yuv411p = ok (yuvp, planes_of 4 1)
palette_source v4l2_yuyv = ok (yuvp, yuyv_planes)
palette_source v4l2_uyvy = ok (yuvp, uyvy_planes)
palette_source v4l2_rgb555 = ok (rgb, bits_of 5 5 5)
palette_source v4l2_rgb565 = ok (rgb, bits_of 5 6 5)
palette_source v4l2_bgr24 = ok (rgb, bgr_triples)
palette_source v4l2_rgb24 = ok (rgb, as_is)
palette_source v4l2_grey8 = ok (grey, as_is)
palette_source v4l2_other = panic

abbrev pub pixel_source : PixelFormat → Outcome (Format × Copy)
pixel_source av_yuv420p = ok (yuvp, planes_of 2 2)
pixel_source av_yuyv422 = ok (yuvp, yuyv_planes)
pixel_source av_uyvy422 = ok (yuvp, uyvy_rgb)
pixel_source av_rgb24 = ok (rgb, as_is)
pixel_source av_bgr24 = ok (rgb, bgr_triples)
pixel_source av_yuv422p = ok (yuvp, planes_of 2 1)
pixel_source av_yuv444p = ok (yuvp, planes_of 1 1)
pixel_source av_yuv410p = ok (yuvp, planes_of 4 4)
pixel_source av_yuv411p = ok (yuvp, planes_of 4 1)
pixel_source av_gray8 = ok (grey, as_is)
pixel_source av_yuvj420p = ok (yuvjp, planes_of 2 2)
pixel_source av_yuvj422p = ok (yuvjp, planes_of 2 1)
pixel_source av_yuvj444p = ok (yuvjp, planes_of 1 1)
pixel_source av_gray16 = ok (grey16, as_is)
pixel_source av_yuv440p = ok (yuvp, planes_of 1 2)
pixel_source av_yuvj440p = ok (yuvjp, planes_of 1 2)
pixel_source av_rgb48 = ok (rgb48, as_is)
pixel_source av_rgb565 = ok (rgb, bits_of 5 6 5)
pixel_source av_rgb555 = ok (rgb, bits_of 5 5 5)
pixel_source av_other = panic

-- The data that the image is assigned.
unfoldable pub image_data : List ℕ → Copy → Option (List ℕ) → ℕ → ℕ → Outcome (Option (List ℕ))
image_data temp copy none width height = ok none
image_data temp as_is (some data_given) width height = ok (some data_given)
image_data temp copy (some data_given) width height =
    copied copy data_given width height >>= λ bytes.
    write_at temp 0 bytes >>= λ written. ok (some written)

-- The constructors.
unfoldable pub image_of :
    (ℕ → List ℕ) → Outcome ℕ → Outcome (Format × Copy) → ℕ → ℕ → Option (List ℕ) → Outcome Image
image_of fresh buffer_size source width height given = buffer_size >>= λ size. source >>= λ s.
    image_data (fresh size) s.1 given width height >>= λ bytes.
    assign_image (clear_image no_image) s.0 width height bytes false

abbrev pub image_of_palette : (ℕ → List ℕ) → Palette → ℕ → ℕ → Option (List ℕ) → Outcome Image
image_of_palette fresh palette width height given =
    image_of fresh (palette_buffer_size palette width height) (palette_source palette) width height
      given

abbrev pub image_of_pixels : (ℕ → List ℕ) → PixelFormat → ℕ → ℕ → Option (List ℕ) → Outcome Image
image_of_pixels fresh pixels width height given =
    image_of fresh (calc_buffer_size pixels width height) (pixel_source pixels) width height given
