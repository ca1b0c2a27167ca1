-- ===== src/Libimg/Image/Geometry/Drawing.antt =====
-- server/src/libimg/libimgImage.cpp: a new image, drawn and assigned to an old one.
use ozonebase.Prelude.{
  ℕ, ◌^◌, ◌<◌, ◌≡◌, refl, sym, ap, ap₂, subst, ◌∙◌, inl, inr, false, some, none, List, arith,
  length, replicate, ◌==◌, if◌then◌else◌,
}
use native.Mathlib.Nat.{one-le-mul}
use ozonebase.Libgen.Outcome.{Outcome, ok, ◌>>=◌, >>=-ok, ok-injective}
use ozonebase.Libgen.Buffer.{Buffer, empty_buffer, zeroed, copy_of, contents, write_at, set_size}
use ozonebase.Libgen.Buffer.Resize.{copy_of-Holds}
use ozonebase.Libgen.Buffer.Fresh.{
  set_size-empty_buffer, write_at-zeroed, clear-empty_buffer, size-empty_buffer, contents-zeroed,
  size-copy_of,
}
use ozonebase.Libimg.Image.{
  Format, undef, grey, grey16, rgb, rgb48, yuv, yuvj, yuvp, yuvjp, Image, Traits, traits, store,
  assign_image, new_image, no_image, clear_image, assign_from, bytes_of,
}
use ozonebase.Libimg.Image.Layout.Assigned.{assign_image_lem}
use ozonebase.Libimg.Image.Layout.{Laid, IsImage, byte_count, size-Laid, Laid-buffer, lay_out_lem}
use ozonebase.Libimg.Image.Geometry.{drawn, redraw}

pub buffer-clear_image : (clear_image no_image).buffer ≡ empty_buffer
unfolding clear_image
buffer-clear_image = clear-empty_buffer

-- A new image has the layout of its format and size, and only zero bytes.
pub new_image_lem :
    (format : Format) (t : Traits) (width height : ℕ)
    → traits format ≡ ok t
    → byte_count t width height < 2 ^ 31
    → (c : Image) × (new_image format width height none ≡ ok c)
      × Laid c format t width height
      × (c.buffer ≡ zeroed (byte_count t width height))
unfolding new_image store
new_image_lem format t width height d s =
    let l =
      lay_out_lem (clear_image no_image) t format width height d
        (inl (ap (λ b. b.size) buffer-clear_image ∙ size-empty_buffer)) in
    let sized : set_size l.0.buffer l.0.size
        ≡ ok (byte_count t width height, zeroed (byte_count t width height)) =
      ap₂ set_size (l.3 ∙ buffer-clear_image) (size-Laid l.0 t format width height l.2)
      ∙ set_size-empty_buffer (byte_count t width height) s in
    (
      record l.0 { buffer = zeroed (byte_count t width height) },
      rw (l.1, sized) refl,
      Laid-buffer l.0 (zeroed (byte_count t width height)) t format width height l.2,
      refl,
    )

pub drawn_lem :
    (c : Image) (n : ℕ) (bytes : List ℕ)
    → c.buffer ≡ zeroed n
    → length bytes ≡ n
    → drawn c bytes ≡ ok (record c { buffer = copy_of bytes })
unfolding drawn
drawn_lem c n bytes b e =
    let overwrite = λ (u : Buffer).
      (write_at u.storage u.head bytes >>= λ stored. ok (record u { storage = stored })) in
    let put = λ (u : Buffer). ok (record c { buffer = u }) in
    sym (
      >>=-ok (write_at c.buffer.storage c.buffer.head bytes)
        (λ stored. record c.buffer { storage = stored }) put)
    ∙ ap (λ u. overwrite u >>= put) b
    ∙ ap (λ r. r >>= put) (write_at-zeroed n bytes e)

traits_pos :
    (format : Format) (t : Traits) → traits format ≡ ok t → (0 < t.channels) × (0 < t.planes)
traits_pos undef t d = absurd (cc d)
traits_pos grey t d = subst (λ u. (0 < u.channels) × (0 < u.planes)) (ok-injective d) (omega arith)
traits_pos grey16 t d =
    subst (λ u. (0 < u.channels) × (0 < u.planes)) (ok-injective d) (omega arith)
traits_pos rgb t d = subst (λ u. (0 < u.channels) × (0 < u.planes)) (ok-injective d) (omega arith)
traits_pos rgb48 t d = subst (λ u. (0 < u.channels) × (0 < u.planes)) (ok-injective d) (omega arith)
traits_pos yuv t d = subst (λ u. (0 < u.channels) × (0 < u.planes)) (ok-injective d) (omega arith)
traits_pos yuvj t d = subst (λ u. (0 < u.channels) × (0 < u.planes)) (ok-injective d) (omega arith)
traits_pos yuvp t d = subst (λ u. (0 < u.channels) × (0 < u.planes)) (ok-injective d) (omega arith)
traits_pos yuvjp t d = subst (λ u. (0 < u.channels) × (0 < u.planes)) (ok-injective d) (omega arith)

-- An image of some size in a defined format has bytes.
pub byte_count_pos :
    (format : Format) (t : Traits) (width height : ℕ)
    → traits format ≡ ok t
    → 0 < width
    → 0 < height
    → 0 < byte_count t width height
byte_count_pos format t width height d w h =
    let some_of = traits_pos format t d in
    one-le-mul (one-le-mul (one-le-mul (one-le-mul some_of.0 (omega arith)) w) h) some_of.1

-- So has a row of it.
pub stride_pos : (i : Image) → IsImage i → 0 < i.width → 0 < i.stride
stride_pos i v w =
    let some_of = traits_pos i.format v.traits_of v.defined in
    let step : 0 < i.pixel_step =
      subst (λ k. 0 < k) (sym v.laid.pixel_step_is) (one-le-mul some_of.0 (omega arith)) in
    subst (λ k. 0 < k) (sym v.laid.stride_is) (one-le-mul step w)

assign_from_lem :
    (i done : Image) (format : Format) (width height : ℕ) (bytes : List ℕ)
    → done.format ≡ format
    → done.width ≡ width
    → done.height ≡ height
    → (done.buffer.size == 0) ≡ false
    → contents done.buffer ≡ bytes
    → assign_from i done ≡ assign_image i format width height (some bytes) false
unfolding assign_from
assign_from_lem i done format width height bytes ef ew eh ez eb =
    let given : (if done.buffer.size == 0 then none else some (contents done.buffer)) ≡ some bytes =
      ap (λ b. if b then none else some (contents done.buffer)) ez ∙ ap some eb in
    λ k. assign_image i (ef k) (ew k) (eh k) (given k) false

-- Drawing bytes in a new image of the same format, and assigning it.
pub redraw_lem :
    (i : Image) (v : IsImage i) (width height : ℕ) (draw : Image → Outcome (List ℕ))
    (bytes : List ℕ)
    → ((c : Image)
        → Laid c i.format v.traits_of width height
        → bytes_of c ≡ replicate (byte_count v.traits_of width height) 0
        → draw c ≡ ok bytes)
    → length bytes ≡ byte_count v.traits_of width height
    → length bytes < 2 ^ 31
    → 0 < width
    → 0 < height
    → (j : Image) × (redraw i width height draw ≡ ok j)
      × IsImage j
      × Laid j i.format v.traits_of width height
      × (bytes_of j ≡ bytes)
unfolding redraw
redraw_lem i v width height draw bytes draws e s w h =
    let t : Traits = v.traits_of in
    let n = byte_count t width height in
    let new = new_image_lem i.format t width height v.defined (subst (λ m. m < 2 ^ 31) e s) in
    let drew = draws new.0 new.2 (ap contents new.3 ∙ contents-zeroed n) in
    let put = drawn_lem new.0 n bytes new.3 e in
    let held = copy_of-Holds bytes s in
    let some_bytes : 0 < length bytes =
      subst (λ m. 0 < m) (sym e) (byte_count_pos i.format t width height v.defined w h) in
    let given =
      assign_from_lem i (record new.0 { buffer = copy_of bytes }) i.format width height bytes
        new.2.format_is new.2.width_is new.2.height_is
        (ap (λ m. m == 0) (size-copy_of bytes) ∙ ground arith) held.shows in
    let final =
      assign_image_lem i t i.format width height bytes v.defined (inr v) v.valid v.owned e s in
    (final.0, rw (new.1, drew, put) (given ∙ final.1), final.2, final.3, final.4)
