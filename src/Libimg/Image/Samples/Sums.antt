-- ===== src/Libimg/Image/Samples/Sums.antt =====
-- server/src/libimg/libimgImage.cpp: the total of an image as a sum over its pixels.
use ozonebase.Prelude.{
  ℕ, zero, suc, ◌+◌, ◌-◌, ◌*◌, ◌/◌, ◌<◌, ◌≤◌, ◌≡◌, refl, sym, ap, ◌∙◌, true, false, arith, ltb,
  lt→ltb, subst,
}
use native.Mathlib.Nat.{mul-le-mul_left}
use ozonebase.Libgen.Outcome.{Outcome, ok, ok-injective, ◌>>=◌}
use ozonebase.Libimg.Image.{
  Format, undef, grey, grey16, rgb, rgb48, yuv, yuvj, yuvp, yuvjp, Image, bytes_of, traits, Traits,
}
use ozonebase.Libimg.Colour.{rgb2yuvj_y, yuv2yuvj_y}
use ozonebase.Libimg.Image.Layout.{IsImage}
use ozonebase.Libimg.Image.Samples.{
  byte_at, of_byte, of_packed, of_wide, y_in, sum_steps, sum_all, total_in,
}

-- Values added up from the k-th on.
unfoldable pub add_up : ℕ → ℕ → (ℕ → Outcome ℕ) → Outcome ℕ
add_up zero k f = ok 0
add_up (suc n) k f = f k >>= λ v. add_up n (suc k) f >>= λ r. ok (v + r)

sum_steps_lem :
    (fuel n k step end : ℕ) (f : ℕ → Outcome ℕ)
    → 0 < step
    → n < fuel
    → end ≡ (k + n) * step
    → sum_steps fuel f step end (k * step) ≡ add_up n k (λ p. f (p * step))
unfolding sum_steps add_up
sum_steps_lem zero n k step end f s h e = absurd (omega arith)
sum_steps_lem (suc fuel) zero k step end f s h e =
    let same : end ≡ k * step = e ∙ ap (λ m. m * step) (omega arith) in
    let done : ltb (k * step) end ≡ false = ground arith in rw done refl
sum_steps_lem (suc fuel) (suc n) k step end f s h e =
    let further : end ≡ (suc k + n) * step = e ∙ ap (λ m. m * step) (omega arith) in
    let at : k * step + step ≡ suc k * step = omega arith in
    let room : suc k * step ≤ (suc k + n) * step = omega (arith) in
    let more : ltb (k * step) end ≡ true =
      lt→ltb (k * step) end (omega (arith, further, at, room)) in
    let rest : sum_steps fuel f step end (k * step + step) ≡ add_up n (suc k) (λ p. f (p * step)) =
      ap (sum_steps fuel f step end) at
      ∙ sum_steps_lem fuel n (suc k) step end f s (omega arith) further in
    rw (more, rest) refl

-- A sum of as many values as pixels.
sum_pixels :
    (fuel n step end : ℕ) (f : ℕ → Outcome ℕ)
    → 0 < step
    → end < fuel
    → end ≡ n * step
    → sum_steps fuel f step end 0 ≡ add_up n 0 (λ p. f (p * step))
sum_pixels fuel n step end f s h e =
    let start : 0 ≡ 0 * step = omega arith in
    let few : n * 1 ≤ n * step = mul-le-mul_left n s in
    ap (sum_steps fuel f step end) start
    ∙ sum_steps_lem fuel n 0 step end f s (omega arith) (e ∙ ap (λ m. m * step) (omega arith))

-- What a layout says of the loops: the step, the size of a plane and the number of bytes.
pub record Extent (i : Image) (t : Traits) : Type 0 where
  pub step : i.pixel_step ≡ t.channels * ((t.depth - 1) / 8 + 1)
  pub plane : i.plane_size ≡ i.pixels * i.pixel_step
  pub size : i.buffer.size ≡ i.plane_size * t.planes

pub IsImage-Extent : (i : Image) (v : IsImage i) → Extent i v.traits_of
IsImage-Extent i v = record {
  step = v.laid.pixel_step_is;
  plane =
      v.laid.plane_size_is
      ∙ ap (λ s. s * i.height) v.laid.stride_is
      ∙ omega (arith, ap (λ k. k * i.pixel_step) v.laid.pixels_is);
  size = v.filled ∙ v.laid.size_is;
}

-- Of an image in one plane, and of one with bytes only in its first plane.
packed_total :
    (i : Image) (f : ℕ → Outcome ℕ)
    → 0 < i.pixel_step
    → i.plane_size ≡ i.pixels * i.pixel_step
    → i.buffer.size ≡ i.plane_size * 1
    → sum_all i f i.pixel_step ≡ add_up i.pixels 0 (λ p. f (p * i.pixel_step))
packed_total i f s plane size =
    sum_pixels (suc i.buffer.size) i.pixels i.pixel_step i.buffer.size f s (omega arith)
      (omega (arith, plane, size))

plane_total :
    (i : Image) (f : ℕ → Outcome ℕ)
    → i.pixel_step ≡ 1
    → i.plane_size ≡ i.pixels * i.pixel_step
    → sum_steps (suc i.plane_size) f 1 i.plane_size 0 ≡ add_up i.pixels 0 f
plane_total i f one plane =
    let same : (p : ℕ) → f (p * 1) ≡ f p = λ p. ap f (omega arith) in
    sum_pixels (suc i.plane_size) i.pixels 1 i.plane_size f (omega arith) (omega arith)
      (plane ∙ ap (λ s. i.pixels * s) one)
    ∙ (λ k. add_up i.pixels 0 (λ p. same p k))

pub known : {i : Image} {t u : Traits} → ok u ≡ ok t → Extent i t → Extent i u
known {i} d x = subst (Extent i) (sym (ok-injective d)) x

pub total_in-y_in :
    (f : Format) (i : Image) (t : Traits)
    → traits f ≡ ok t
    → Extent i t
    → total_in f i ≡ add_up i.pixels 0 (y_in f i)
total_in-y_in undef i t d x = absurd (cc d)
total_in-y_in grey i t d x =
    let x' = known d x in
    ap (sum_all i (byte_at (bytes_of i))) (sym x'.step)
    ∙ packed_total i (byte_at (bytes_of i)) (omega (arith, x'.step)) x'.plane x'.size
total_in-y_in grey16 i t d x =
    let x' = known d x in
    packed_total i (byte_at (bytes_of i)) (omega (arith, x'.step)) x'.plane x'.size
total_in-y_in rgb i t d x =
    let x' = known d x in
    packed_total i (of_packed rgb2yuvj_y i) (omega (arith, x'.step)) x'.plane x'.size
total_in-y_in rgb48 i t d x =
    let x' = known d x in
    packed_total i (of_wide rgb2yuvj_y i) (omega (arith, x'.step)) x'.plane x'.size
total_in-y_in yuv i t d x =
    let x' = known d x in
    packed_total i (of_byte yuv2yuvj_y i) (omega (arith, x'.step)) x'.plane x'.size
total_in-y_in yuvj i t d x =
    let x' = known d x in
    packed_total i (byte_at (bytes_of i)) (omega (arith, x'.step)) x'.plane x'.size
total_in-y_in yuvp i t d x =
    let x' = known d x in plane_total i (of_byte yuv2yuvj_y i) x'.step x'.plane
total_in-y_in yuvjp i t d x =
    let x' = known d x in plane_total i (byte_at (bytes_of i)) x'.step x'.plane
