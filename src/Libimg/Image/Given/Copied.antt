-- ===== src/Libimg/Image/Given/Copied.antt =====
-- server/src/libimg/libimgImage.cpp: what an image that is made from copied pixels shows.
use ozonebase.Prelude.{
  ℕ, ◌+◌, ◌*◌, ◌/◌, ◌^◌, ◌<◌, ◌≡◌, refl, sym, ap, ◌∙◌, inl, arith, List, length, some, subst,
}
use ozonebase.Libgen.Outcome.{Outcome, ok, ◌>>=◌}
use ozonebase.Libgen.Buffer.{write_at}
use ozonebase.Libgen.Buffer.Fresh.{
  write_at_all, adopted-empty_buffer, size-empty_buffer, empty_buffer-IsValid,
}
use ozonebase.Libgen.Buffer.Room.{IsValid}
use ozonebase.Libimg.Colour.{yuv2rgb_r, yuv2rgb_g, yuv2rgb_b}
use ozonebase.Libimg.Image.{Format, yuvp, Image, Traits, traits, no_image, clear_image, bytes_of}
use ozonebase.Libimg.Image.Layout.Assigned.{assign_image_lem}
use ozonebase.Libimg.Image.Layout.{Laid, IsImage, byte_count}
use ozonebase.Libimg.Image.Geometry.Drawing.{buffer-clear_image}
use ozonebase.Libimg.Image.Samples.{byte_at}
use ozonebase.Libimg.Image.Sources.{Copy, yuyv_planes, uyvy_rgb, planes_of}
use ozonebase.Libimg.Image.Sources.Pairs.{uyvy_pixel, copy_yuyv_yuvp_lem, copy_uyvy_rgb_lem}
use ozonebase.Libimg.Image.Sources.Planes.{copy_planes_lem}
use ozonebase.Libimg.Image.Given.{
  image_data, image_of, image_of_pixels, image_of_palette, av_yuyv422, av_uyvy422, av_yuv420p,
  v4l2_yuyv, v4l2_yuv420,
}

-- An image made from bytes that were copied to all of a new block.
image_of_lem :
    (fresh : ℕ → List ℕ) (format : Format) (copy : Copy) (t : Traits) (width height n : ℕ)
    (given out : List ℕ)
    → ((n : ℕ) → length (fresh n) ≡ n)
    → traits format ≡ ok t
    → image_data (fresh n) copy (some given) width height
      ≡ (write_at (fresh n) 0 out >>= λ written. ok (some written))
    → length out ≡ n
    → n ≡ byte_count t width height
    → n < 2 ^ 31
    → (j : Image) × (image_of fresh (ok n) (ok (format, copy)) width height (some given) ≡ ok j)
      × IsImage j
      × Laid j format t width height
      × (bytes_of j ≡ out)
unfolding image_of
image_of_lem fresh format copy t width height n given out room d e m c s =
    let written = write_at_all (fresh n) out (m ∙ sym (room n)) in
    let r =
      assign_image_lem (clear_image no_image) t format width height out d
        (inl (ap (λ b. b.size) buffer-clear_image ∙ size-empty_buffer))
        (subst IsValid (sym buffer-clear_image) empty_buffer-IsValid)
        (ap (λ b. b.adopted) buffer-clear_image ∙ adopted-empty_buffer) (m ∙ c)
        (subst (λ k. k < 2 ^ 31) (sym m) s) in
    (r.0, rw (e, written) r.1, r.2, r.3, r.4)

-- A new image that is made of an even number of pixels in YUYV, in either kind of format, is planar: each
-- pixel has its own luminance and the other components of its pair.
pub image_of-yuyv :
    (fresh : ℕ → List ℕ) (m width height : ℕ) (src : List ℕ)
    → ((n : ℕ) → length (fresh n) ≡ n)
    → width * height ≡ 2 * m
    → length src ≡ m * 4
    → width * height * 3 < 2 ^ 31
    → (j : Image) × (image_of_pixels fresh av_yuyv422 width height (some src) ≡ ok j)
      × (image_of_palette fresh v4l2_yuyv width height (some src) ≡ ok j)
      × IsImage j
      × (j.format ≡ yuvp)
      × ((k : ℕ)
          → k < width * height
          → (byte_at (bytes_of j) k ≡ byte_at src (k * 2))
            × (byte_at (bytes_of j) (width * height + k) ≡ byte_at src (k / 2 * 4 + 1))
            × (byte_at (bytes_of j) (2 * (width * height) + k) ≡ byte_at src (k / 2 * 4 + 3)))
unfolding image_data
image_of-yuyv fresh m width height src room even whole small =
    let c = copy_yuyv_yuvp_lem m width height src even whole in
    let r =
      image_of_lem fresh yuvp yuyv_planes _ width height (width * height * 3) src c.0 room refl
        (rw c.1 refl) c.2 (omega arith) small in
    let same = λ (k at to : ℕ) (e : byte_at c.0 at ≡ byte_at src to).
      ap (λ bytes. byte_at bytes at) r.4 ∙ e in
    (
      r.0,
      r.1,
      r.1,
      r.2,
      r.3.format_is,
      λ k h. (let e = c.3 k h in (same k _ _ e.0, same k _ _ e.1, same k _ _ e.2)),
    )

-- A new image that is made of pixels in UYVY as FFmpeg has them, an even number of them, is said to be
-- planar, but its bytes are the red, green and blue of one pixel after the other: of the pixel's own
-- luminance and the other components of its pair.
pub image_of-uyvy :
    (fresh : ℕ → List ℕ) (m width height : ℕ) (src : List ℕ)
    → ((n : ℕ) → length (fresh n) ≡ n)
    → width * height ≡ 2 * m
    → length src ≡ m * 4
    → width * height * 3 < 2 ^ 31
    → (j : Image) × (image_of_pixels fresh av_uyvy422 width height (some src) ≡ ok j)
      × IsImage j
      × (j.format ≡ yuvp)
      × ((k : ℕ)
          → k < width * height
          → (byte_at (bytes_of j) (k * 3) ≡ uyvy_pixel src k yuv2rgb_r)
            × (byte_at (bytes_of j) (k * 3 + 1) ≡ uyvy_pixel src k yuv2rgb_g)
            × (byte_at (bytes_of j) (k * 3 + 2) ≡ uyvy_pixel src k yuv2rgb_b))
unfolding image_data
image_of-uyvy fresh m width height src room even whole small =
    let c = copy_uyvy_rgb_lem m width height src even whole in
    let r =
      image_of_lem fresh yuvp uyvy_rgb _ width height (width * height * 3) src c.0 room refl
        (rw c.1 refl) c.2 (omega arith) small in
    let shown =
      λ (at : ℕ) (v : Outcome ℕ) (e : byte_at c.0 at ≡ v). ap (λ bytes. byte_at bytes at) r.4 ∙ e in
    (
      r.0,
      r.1,
      r.2,
      r.3.format_is,
      λ k h. (let e = c.3 k h in (shown _ _ e.0, shown _ _ e.1, shown _ _ e.2)),
    )

-- A new image of even width and height that is made of planes of which the second and the third have a
-- quarter of the samples, FFmpeg's yuv420p or V4L2's YUV420, is planar: its luminances are those given, and
-- each other sample stands at all four places of its block.
pub image_of-yuv420p :
    (fresh : ℕ → List ℕ) (cols rows : ℕ) (src : List ℕ)
    → ((n : ℕ) → length (fresh n) ≡ n)
    → length src ≡ cols * 2 * (rows * 2) + rows * 2 * cols
    → cols * 2 * (rows * 2) * 3 < 2 ^ 31
    → (j : Image) × (image_of_pixels fresh av_yuv420p (cols * 2) (rows * 2) (some src) ≡ ok j)
      × (image_of_palette fresh v4l2_yuv420 (cols * 2) (rows * 2) (some src) ≡ ok j)
      × IsImage j
      × (j.format ≡ yuvp)
      × ((k : ℕ) → k < cols * 2 * (rows * 2) → byte_at (bytes_of j) k ≡ byte_at src k)
      × ((y x : ℕ)
          → y < rows * 2 * 2
          → x < cols * 2
          → byte_at (bytes_of j) (cols * 2 * (rows * 2) + (y * (cols * 2) + x))
            ≡ byte_at src (cols * 2 * (rows * 2) + y / 2 * cols + x / 2))
unfolding image_data
image_of-yuv420p fresh cols rows src room whole small =
    let c = copy_planes_lem src 2 2 cols rows (omega arith) (omega arith) whole in
    let r =
      image_of_lem fresh yuvp (planes_of 2 2) _ (cols * 2) (rows * 2) (cols * 2 * (rows * 2) * 3)
        src c.0 room refl (rw c.1 refl) c.2 (omega arith) small in
    (
      r.0,
      r.1,
      r.1,
      r.2,
      r.3.format_is,
      λ k h. ap (λ bytes. byte_at bytes k) r.4 ∙ c.3 k h,
      λ y x hy hx.
          ap (λ bytes. byte_at bytes (cols * 2 * (rows * 2) + (y * (cols * 2) + x))) r.4
          ∙ c.4 y x hy hx,
    )
