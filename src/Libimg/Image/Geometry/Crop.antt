-- ===== src/Libimg/Image/Geometry/Crop.antt =====
-- server/src/libimg/libimgImage.cpp: what Image::crop makes of an image.
use ozonebase.Prelude.{
  ℕ, ◌+◌, ◌-◌, ◌*◌, ◌^◌, ◌<◌, ◌≤◌, ◌≡◌, refl, sym, ap, ap₂, ◌∙◌, ◌⊎◌, inl, inr, Bool, true, false,
  ◌&&◌, ◌||◌, List, arith, ◌==◌, ℤ, pos, negsuc, above, difference, ltb_ℤ, ◌-ℤ◌, ◌+ℤ◌, Bool-cases,
}
use native.Mathlib.Nat.{mul_comm, mul-le-mul, mul-le-mul_left, mul-le-mul_right}
use ozonebase.Libgen.Outcome.{ok}
use ozonebase.Libgen.Buffer.{read_at}
use ozonebase.Libimg.Raster.{gather, gather-blocks, blocks}
use ozonebase.Libimg.Image.{Image, bytes_of}
use ozonebase.Libimg.Image.Layout.{Laid, IsImage}
use ozonebase.Libimg.Image.Geometry.{pixel, crop, crop_region}
use ozonebase.Libimg.Image.Geometry.Pixels.{Laid-Sizes, length-pixel}
use ozonebase.Libimg.Image.Geometry.Made.{Shows, redraw-raster}
use ozonebase.Libimg.Image.Geometry.Rows.{read_at-row}

module _ (i : Image) (lo_x lo_y new_width new_height : ℕ) (v : IsImage i)
    (in_x : lo_x + new_width ≤ i.width) (in_y : lo_y + new_height ≤ i.height) where
  abbrev shifted : ℕ → ℕ → ℕ → List ℕ
  shifted p x y = pixel i p (lo_x + x) (lo_y + y)

  crop_row :
      (c : Image) (p y : ℕ)
      → Laid c i.format v.traits_of new_width new_height
      → p < i.planes
      → y < new_height
      → read_at
          (bytes_of i)
          (p * i.plane_size + ((lo_y + y) * i.width + lo_x) * i.pixel_step)
          c.stride
        ≡ ok (blocks new_width (λ x. shifted p x y))
  crop_row c p y l hp hy =
      let s = Laid-Sizes v.laid in
      let step : c.pixel_step ≡ i.pixel_step = l.pixel_step_is ∙ sym v.laid.pixel_step_is in
      let row : c.stride ≡ new_width * i.pixel_step =
        l.stride_is ∙ mul_comm c.pixel_step new_width ∙ ap (λ k. new_width * k) step in
      ap (read_at (bytes_of i) (p * i.plane_size + ((lo_y + y) * i.width + lo_x) * i.pixel_step))
        row
      ∙ read_at-row i p lo_x new_width (lo_y + y) _ v hp in_x (omega arith)
          (omega (arith, ap (λ k. (lo_y + y) * k) s.row))

  -- A part of an image is not larger than the image.
  crop_small : i.planes * (new_height * (new_width * i.pixel_step)) < 2 ^ 31
  crop_small =
      let s = Laid-Sizes v.laid in
      let wide : new_width ≤ i.width = omega arith in
      let high : new_height ≤ i.height = omega arith in
      let all = mul-le-mul_left i.planes (mul-le-mul high (mul-le-mul_right i.pixel_step wide)) in
      omega (arith, all, s.whole, v.filled, v.valid.room, v.valid.small)

  -- The whole image is a part of itself.
  whole-Shows : new_width ≡ i.width → new_height ≡ i.height → Shows i i new_width new_height shifted
  whole-Shows ew eh = record {
    image = v;
    format_kept = refl;
    planes_kept = refl;
    step_kept = refl;
    width_is = sym ew;
    height_is = sym eh;
    shows = λ p x y hp hx hy. ap₂ (pixel i p) (omega arith) (omega arith);
  }

  pub crop_region_lem :
      0 < new_width
      → 0 < new_height
      → (j : Image) × (crop_region i lo_x lo_y new_width new_height ≡ ok (true, j))
        × Shows i j new_width new_height shifted
  unfolding crop_region
  crop_region_lem w h = elim (Bool-cases ((new_width == i.width) && (new_height == i.height))) [
    | inl same ↦ (i, rw same refl, whole-Shows (ground arith) (ground arith))
    | inr other ↦
        let r =
          redraw-raster i v new_width new_height shifted
            (λ p x y hp hx hy.
              length-pixel i p (lo_x + x) (lo_y + y) v hp (omega arith) (omega arith))
            (λ new. gather i.planes (λ c. gather new_height (λ ny.
              read_at (bytes_of i)
                (c * i.plane_size + ((lo_y + ny) * i.width + lo_x) * i.pixel_step) new.stride)))
            (λ c l e.
              gather-blocks i.planes _ _
                (λ p hp. gather-blocks new_height _ _ (λ y hy. crop_row c p y l hp hy)))
            crop_small w h in
        (r.0, rw (other, r.1) refl, r.2)
  ]

-- An interval that lies between 0 and `n`.
pub record Inside (n : ℕ) (lo hi : ℤ) : Type 0 where
  pub first : ℕ
  pub last : ℕ
  pub lo_is : lo ≡ pos first
  pub hi_is : hi ≡ pos last
  pub ordered : first ≤ last
  pub before : last < n

-- How the code tells.
abbrev is_reversed : ℤ → ℤ → Bool
is_reversed lo hi = ltb_ℤ hi lo

abbrev is_outside : ℕ → ℤ → ℤ → Bool
is_outside n lo hi = ltb_ℤ lo (pos 0) || ltb_ℤ (difference n 1) hi

Inside-of :
    (n : ℕ) (lo hi : ℤ) → is_reversed lo hi ≡ false → is_outside n lo hi ≡ false → Inside n lo hi
Inside-of n (pos a) (pos b) r o = record {
  first = a;
  last = b;
  lo_is = refl;
  hi_is = refl;
  ordered = ground arith;
  before = ground arith;
}
Inside-of n (pos a) (negsuc b) r o = absurd (ground arith)
Inside-of n (negsuc a) hi r o = absurd (ground arith)

Inside-told :
    (n a b : ℕ)
    → a ≤ b
    → b < n
    → (is_reversed (pos a) (pos b) ≡ false) × (is_outside n (pos a) (pos b) ≡ false)
Inside-told n a b o h = (ground arith, ground arith)

span : (a b : ℕ) → a ≤ b → above ((pos b -ℤ pos a) +ℤ pos 1) ≡ b + 1 - a
span a b h = ground arith

crop-inside :
    (i : Image) (a b c d : ℕ)
    → IsImage i
    → a ≤ b
    → b < i.width
    → c ≤ d
    → d < i.height
    → (j : Image) × (crop i (pos a) (pos c) (pos b) (pos d) ≡ ok (true, j))
      × Shows i j (b + 1 - a) (d + 1 - c) (λ p x y. pixel i p (a + x) (c + y))
unfolding crop
crop-inside i a b c d v ab bw cd dh =
    let x = Inside-told i.width a b ab bw in
    let y = Inside-told i.height c d cd dh in
    let r =
      crop_region_lem i a c (b + 1 - a) (d + 1 - c) v (omega arith) (omega arith) (omega arith)
        (omega arith) in
    (r.0, rw (x.0, y.0, x.1, y.1, span a b ab, span c d cd) r.1, r.2)

crop-refused :
    (i : Image) (lo_x lo_y hi_x hi_y : ℤ)
    → ((is_reversed lo_x hi_x || is_reversed lo_y hi_y)
        || (is_outside i.width lo_x hi_x || is_outside i.height lo_y hi_y))
      ≡ true
    → crop i lo_x lo_y hi_x hi_y ≡ ok (false, i)
unfolding crop
crop-refused i lo_x lo_y hi_x hi_y h =
    elim (Bool-cases (is_reversed lo_x hi_x || is_reversed lo_y hi_y)) [
      | inl reversed ↦ rw reversed refl
      | inr ordered ↦
          let outside : (is_outside i.width lo_x hi_x || is_outside i.height lo_y hi_y) ≡ true =
            sym (
              ap (λ r. r || (is_outside i.width lo_x hi_x || is_outside i.height lo_y hi_y))
                ordered)
            ∙ h in
          rw (ordered, outside) refl
    ]

told :
    (n : ℕ) (lo hi : ℤ)
    → Inside n lo hi
    → (is_reversed lo hi ≡ false) × (is_outside n lo hi ≡ false)
told n lo hi s =
    let t = Inside-told n s.first s.last s.ordered s.before in
    (ap₂ is_reversed s.lo_is s.hi_is ∙ t.0, ap₂ (is_outside n) s.lo_is s.hi_is ∙ t.1)

none_of :
    (a b c d : Bool)
    → ((a || b) || (c || d)) ≡ false
    → (a ≡ false) × (b ≡ false) × (c ≡ false) × (d ≡ false)
none_of a b c d e = (ground arith, ground arith, ground arith, ground arith)

not-Inside :
    (w h : ℕ) (lo_x lo_y hi_x hi_y : ℤ)
    → ((is_reversed lo_x hi_x || is_reversed lo_y hi_y)
        || (is_outside w lo_x hi_x || is_outside h lo_y hi_y))
      ≡ true
    → ¬ (Inside w lo_x hi_x × Inside h lo_y hi_y)
not-Inside w h lo_x lo_y hi_x hi_y refused s =
    let x = told w lo_x hi_x s.0 in
    let y = told h lo_y hi_y s.1 in
    let clear : ((is_reversed lo_x hi_x || is_reversed lo_y hi_y)
          || (is_outside w lo_x hi_x || is_outside h lo_y hi_y))
        ≡ false =
      rw (x.0, y.0, x.1, y.1) refl in
    absurd (cc (refused, clear))

-- What is asked for is cut out when it lies in the image: the new image has its size and shows its
-- pixels. Otherwise the call says no, and the image stays as it was.
pub crop_lem :
    (i : Image) (lo_x lo_y hi_x hi_y : ℤ)
    → IsImage i
    → ((cols : Inside i.width lo_x hi_x) × (rows : Inside i.height lo_y hi_y) × (j : Image) × (crop
            i lo_x lo_y hi_x hi_y
          ≡ ok (true, j))
        × Shows i j
            (cols.last + 1 - cols.first)
            (rows.last + 1 - rows.first)
            (λ p x y. pixel i p (cols.first + x) (rows.first + y)))
      ⊎ ((¬ (Inside i.width lo_x hi_x × Inside i.height lo_y hi_y))
          × (crop i lo_x lo_y hi_x hi_y ≡ ok (false, i)))
crop_lem i lo_x lo_y hi_x hi_y v =
    elim (Bool-cases (
      (is_reversed lo_x hi_x || is_reversed lo_y hi_y)
      || (is_outside i.width lo_x hi_x || is_outside i.height lo_y hi_y))) [
        | inl refused ↦ inr (
          not-Inside i.width i.height lo_x lo_y hi_x hi_y refused,
          crop-refused i lo_x lo_y hi_x hi_y refused,
        )
        | inr inside ↦
            let all = none_of _ _ _ _ inside in
            let cols = Inside-of i.width lo_x hi_x all.0 all.2 in
            let rows = Inside-of i.height lo_y hi_y all.1 all.3 in
            let r =
              crop-inside i cols.first cols.last rows.first rows.last v cols.ordered cols.before
                rows.ordered rows.before in
            inl (
              cols,
              rows,
              r.0,
              (λ k. crop i (cols.lo_is k) (rows.lo_is k) (cols.hi_is k) (rows.hi_is k)) ∙ r.1,
              r.2,
            )
      ]
