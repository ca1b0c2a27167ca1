-- ===== src/Libimg/Image/Layout/Assigned.antt =====
-- server/src/libimg/libimgImage.cpp: an image after Image::assign with bytes.
use ozonebase.Prelude.{
  ℕ, ◌^◌, ◌<◌, ◌≡◌, refl, sym, ap, ◌∙◌, ◌⊎◌, false, some, List, arith, length, subst, [], ◌++◌,
  take-append, append-nil, length-append,
}
use ozonebase.Libgen.Outcome.{ok}
use ozonebase.Libgen.Buffer.{read_at}
use ozonebase.Libgen.Buffer.Room.{IsValid, read_at-ok}
use ozonebase.Libgen.Buffer.Resize.{assign_lem}
use ozonebase.Libimg.Image.{Format, Image, Traits, traits, store, assign_image, bytes_of}
use ozonebase.Libimg.Image.Layout.{
  Laid, IsImage, byte_count, lay_out_lem, size-Laid, Laid-buffer, Holds-IsImage,
}

read_front :
    (bytes more : List ℕ) (n : ℕ) → n ≡ length bytes → read_at (bytes ++ more) 0 n ≡ ok bytes
read_front bytes more n e =
    read_at-ok (bytes ++ more) 0 n (omega (arith, length-append bytes more, e))
    ∙ ap ok (take-append n 0 bytes more (omega (arith, e)) ∙ append-nil bytes)

-- With enough bytes given, an image that has no bytes or is valid, and whose buffer is valid and owns its
-- storage, becomes a valid one of the format and the size, and shows the first bytes, as many as its layout
-- has; these are fewer than 2^31.
pub assign_image-append :
    (i : Image) (t : Traits) (format : Format) (width height : ℕ) (bytes more : List ℕ)
    → traits format ≡ ok t
    → (i.buffer.size ≡ 0) ⊎ IsImage i
    → IsValid i.buffer
    → i.buffer.adopted ≡ false
    → length bytes ≡ byte_count t width height
    → length bytes < 2 ^ 31
    → (j : Image) × (assign_image i format width height (some (bytes ++ more)) false ≡ ok j)
      × IsImage j
      × Laid j format t width height
      × (bytes_of j ≡ bytes)
unfolding assign_image store
assign_image-append i t format width height bytes more d h v o e s =
    let l = lay_out_lem i t format width height d h in
    let size : l.0.size ≡ length bytes = size-Laid l.0 t format width height l.2 ∙ sym e in
    let stored =
      assign_lem l.0.buffer bytes (subst IsValid (sym l.3) v) (ap (λ b. b.adopted) l.3 ∙ o) s in
    (
      record l.0 { buffer = stored.0 },
      rw (l.1, read_front bytes more l.0.size size, stored.1) refl,
      Holds-IsImage l.0 stored.0 t format width height bytes d l.2 stored.2 (sym size),
      Laid-buffer l.0 stored.0 t format width height l.2,
      stored.2.shows,
    )

-- The same where there are no more bytes than those.
pub assign_image_lem :
    (i : Image) (t : Traits) (format : Format) (width height : ℕ) (bytes : List ℕ)
    → traits format ≡ ok t
    → (i.buffer.size ≡ 0) ⊎ IsImage i
    → IsValid i.buffer
    → i.buffer.adopted ≡ false
    → length bytes ≡ byte_count t width height
    → length bytes < 2 ^ 31
    → (j : Image) × (assign_image i format width height (some bytes) false ≡ ok j)
      × IsImage j
      × Laid j format t width height
      × (bytes_of j ≡ bytes)
assign_image_lem i t format width height bytes d h v o e s =
    let r = assign_image-append i t format width height bytes [] d h v o e s in
    (
      r.0,
      ap (λ given. assign_image i format width height (some given) false) (sym (append-nil bytes))
          ∙ r.1,
      r.2,
      r.3,
      r.4,
    )
