-- ===== src/Libimg/Image/Layout.antt =====
-- server/src/libimg/libimgImage.cpp: what Image::assign leaves.
pub mod Assigned
use ozonebase.Prelude.{
  ℕ, ◌==◌, if◌then◌else◌, ◌≢◌, ◌+◌, ◌-◌, ◌*◌, ◌/◌, ◌^◌, ◌<◌, ◌≡◌, refl, sym, ap, ◌∙◌, ◌⊎◌, inl, inr,
  true, false, some, List, arith, Bool-cases, length, take_all, subst,
}
use ozonebase.Libgen.Outcome.{ok, ok-injective}
use ozonebase.Libgen.Buffer
use ozonebase.Libgen.Buffer.{contents, read_at}
use ozonebase.Libgen.Buffer.Room.{IsValid, read_at-ok, length-contents}
use ozonebase.Libgen.Buffer.Append.{Holds}
use ozonebase.Libgen.Buffer.Resize.{assign_lem}
use ozonebase.Libimg.Image.{
  Format, undef, grey, grey16, rgb, rgb48, yuv, yuvj, yuvp, yuvjp, Image, Traits, traits,
  format_code, laid_out, lay_out, is_laid_out, store, assign_image, bytes_of,
}

-- An image with the layout of a format and a size.
pub record Laid (i : Image) (format : Format) (t : Traits) (width height : ℕ) : Type 0 where
  pub format_is : i.format ≡ format
  pub width_is : i.width ≡ width
  pub height_is : i.height ≡ height
  pub pixels_is : i.pixels ≡ width * height
  pub space_is : i.colour_space ≡ t.space
  pub channels_is : i.channels ≡ t.channels
  pub planes_is : i.planes ≡ t.planes
  pub depth_is : i.colour_depth ≡ t.depth
  pub pixel_width_is : i.pixel_width ≡ (t.depth - 1) / 8 + 1
  pub pixel_step_is : i.pixel_step ≡ t.channels * ((t.depth - 1) / 8 + 1)
  pub stride_is : i.stride ≡ i.pixel_step * width
  pub plane_size_is : i.plane_size ≡ i.stride * height
  pub size_is : i.size ≡ i.plane_size * t.planes

-- An image of a defined format that owns all of its bytes.
pub record IsImage (i : Image) : Type 0 where
  pub traits_of : Traits
  pub defined : traits i.format ≡ ok traits_of
  pub laid : Laid i i.format traits_of i.width i.height
  pub valid : IsValid i.buffer
  pub owned : i.buffer.adopted ≡ false
  pub filled : i.buffer.size ≡ i.size

-- The number of bytes of a layout.
abbrev pub byte_count : Traits → ℕ → ℕ → ℕ
byte_count t width height = t.channels * ((t.depth - 1) / 8 + 1) * width * height * t.planes

laid_out-Laid :
    (i : Image) (t : Traits) (format : Format) (width height : ℕ)
    → Laid (laid_out i t format width height) format t width height
unfolding laid_out
laid_out-Laid i t format width height = record {
  format_is = refl;
  width_is = refl;
  height_is = refl;
  pixels_is = refl;
  space_is = refl;
  channels_is = refl;
  planes_is = refl;
  depth_is = refl;
  pixel_width_is = refl;
  pixel_step_is = refl;
  stride_is = refl;
  plane_size_is = refl;
  size_is = refl;
}

buffer-laid_out :
    (i : Image) (t : Traits) (format : Format) (width height : ℕ)
    → (laid_out i t format width height).buffer ≡ i.buffer
unfolding laid_out
buffer-laid_out i t format width height = refl

-- The format of a code.
format_of : ℕ → Format
format_of n =
    if n == 1
    then grey
    else if n == 2
    then grey16
    else if n == 3
    then rgb
    else if n == 4
    then rgb48
    else if n == 5
    then yuv
    else if n == 6
    then yuvj
    else if n == 7
    then yuvp
    else if n == 8
    then yuvjp
    else undef

format_of-format_code : (f : Format) → format_of (format_code f) ≡ f
unfolding format_of
format_of-format_code undef = refl
format_of-format_code grey = refl
format_of-format_code grey16 = refl
format_of-format_code rgb = refl
format_of-format_code rgb48 = refl
format_of-format_code yuv = refl
format_of-format_code yuvj = refl
format_of-format_code yuvp = refl
format_of-format_code yuvjp = refl

format_code_injective : (a b : Format) → format_code a ≡ format_code b → a ≡ b
format_code_injective a b e =
    sym (format_of-format_code a) ∙ ap format_of e ∙ format_of-format_code b

-- What a layout that is found right says of the image.
is_laid_out_lem :
    (i : Image) (format : Format) (width height : ℕ)
    → is_laid_out i format width height ≡ true
    → (i.buffer.size ≢ 0) × (format ≡ i.format) × (width ≡ i.width) × (height ≡ i.height)
is_laid_out_lem i format width height e =
    (ground arith, format_code_injective format i.format (ground arith), ground arith, ground arith)

Laid-of :
    (i : Image) (t : Traits) (format : Format) (width height : ℕ)
    → traits format ≡ ok t
    → IsImage i
    → format ≡ i.format
    → width ≡ i.width
    → height ≡ i.height
    → Laid i format t width height
Laid-of i t format width height d v ef ew eh =
    let et : v.traits_of ≡ t = ok-injective (sym v.defined ∙ ap traits (sym ef) ∙ d) in
    subst (λ f. Laid i f t width height) (sym ef)
      (subst (λ u. Laid i i.format u width height) et
        (subst (λ w. Laid i i.format v.traits_of w height) (sym ew)
          (subst (λ h. Laid i i.format v.traits_of i.width h) (sym eh) v.laid)))

-- A layout is made where there was none, and kept where it was right.
pub lay_out_lem :
    (i : Image) (t : Traits) (format : Format) (width height : ℕ)
    → traits format ≡ ok t
    → (i.buffer.size ≡ 0) ⊎ IsImage i
    → (j : Image) × (lay_out i format width height ≡ ok j)
      × Laid j format t width height
      × (j.buffer ≡ i.buffer)
unfolding lay_out
lay_out_lem i t format width height d h = elim (Bool-cases (is_laid_out i format width height)) [
  | inl same ↦
      let found = is_laid_out_lem i format width height same in
      elim h [
        | inl new ↦ absurd (found.0 new)
        | inr v ↦
            (i, rw same refl, Laid-of i t format width height d v found.1 found.2 found.3, refl)
      ]
  | inr other ↦ (
    laid_out i t format width height,
    rw (other, d) refl,
    laid_out-Laid i t format width height,
    buffer-laid_out i t format width height,
  )
]

-- The layout does not depend on what the buffer holds.
pub Laid-buffer :
    (i : Image) (b : Buffer.Buffer) (t : Traits) (format : Format) (width height : ℕ)
    → Laid i format t width height
    → Laid (record i { buffer = b }) format t width height
Laid-buffer i b t format width height l = record {
  format_is = l.format_is;
  width_is = l.width_is;
  height_is = l.height_is;
  pixels_is = l.pixels_is;
  space_is = l.space_is;
  channels_is = l.channels_is;
  planes_is = l.planes_is;
  depth_is = l.depth_is;
  pixel_width_is = l.pixel_width_is;
  pixel_step_is = l.pixel_step_is;
  stride_is = l.stride_is;
  plane_size_is = l.plane_size_is;
  size_is = l.size_is;
}

Laid-self :
    (i : Image) (t : Traits) (format : Format) (width height : ℕ)
    → Laid i format t width height
    → Laid i i.format t i.width i.height
Laid-self i t format width height l =
    subst (λ f. Laid i f t i.width i.height) (sym l.format_is)
      (subst (λ w. Laid i format t w i.height) (sym l.width_is)
        (subst (λ h. Laid i format t width h) (sym l.height_is) l))

pub size-Laid :
    (i : Image) (t : Traits) (format : Format) (width height : ℕ)
    → Laid i format t width height
    → i.size ≡ byte_count t width height
size-Laid i t format width height l =
    let stride = l.stride_is ∙ ap (λ k. k * width) l.pixel_step_is in
    let plane = l.plane_size_is ∙ ap (λ k. k * height) stride in
    l.size_is ∙ ap (λ k. k * t.planes) plane

-- A laid out image with a buffer that holds its bytes.
pub Holds-IsImage :
    (i : Image) (b : Buffer.Buffer) (t : Traits) (format : Format) (width height : ℕ)
    (bytes : List ℕ)
    → traits format ≡ ok t
    → Laid i format t width height
    → Holds b bytes
    → length bytes ≡ i.size
    → IsImage (record i { buffer = b })
Holds-IsImage i b t format width height bytes d l h e =
    let l' = Laid-buffer i b t format width height l in
    record {
      traits_of = t;
      defined = ap traits l.format_is ∙ d;
      laid = Laid-self (record i { buffer = b }) t format width height l';
      valid = h.valid;
      owned = h.owned;
      filled = sym (length-contents h.valid) ∙ ap length h.shows ∙ e;
    }
