-- ===== src/Libimg/Image/Sources/Planes.antt =====
-- server/src/libimg/libimgImage.cpp: planes of a lower density are expanded to that of the luminance.
use ozonebase.Prelude.{
  ℕ, zero, suc, ◌+◌, ◌-◌, ◌*◌, ◌/◌, ◌%◌, ◌<◌, ◌≤◌, ◌≡◌, refl, sym, ap, ◌∙◌, arith, List, ◌++◌,
  length, length-append, length-replicate, length-take, replicate, take, append_assoc, append-nil,
  drop-append, take_all,
}
use native.Mathlib.Nat.{mul-div_cancel, div-add-mod', mod-lt, div-lt_iff_lt-mul}
use ozonebase.Libgen.Outcome.{ok, ◌>>=◌}
use ozonebase.Libgen.Buffer.{read_at}
use ozonebase.Libgen.Buffer.Room.{read_at-ok}
use ozonebase.Libimg.Raster.{gather, gather-blocks, blocks, length-blocks, block_end}
use ozonebase.Libimg.Image.Samples.{byte_at}
use ozonebase.Libimg.Image.Samples.Blocks.{
  byte_at-append_left, byte_at-append_right, byte_at-blocks, byte_of, byte_at-byte_of,
  byte_at-replicate, byte_at-take,
}
use ozonebase.Libimg.Image.Sources.{expand_row, repeat_row, expand_rows, copy_planes}

-- The end of a list is read.
read_last :
    (front row : List ℕ) (n : ℕ)
    → length row ≡ n
    → read_at (front ++ row) (length (front ++ row) - n) n ≡ ok row
read_last front row n e =
    let size = length-append front row in
    let start : length (front ++ row) - n ≡ length front + 0 = omega (arith, size) in
    read_at-ok (front ++ row) (length (front ++ row) - n) n (omega (arith, size))
    ∙ ap (λ at. ok (take n at)) (drop-append (length (front ++ row) - n) 0 front row start)
    ∙ ap ok (take_all n row (omega arith))

-- A source with the luminance of `dense_x * cols` by `dense_y * rows` pixels, and two planes of `cols` by
-- `rows`.
module _ (src : List ℕ) (dense_x dense_y cols rows : ℕ) (some_x : 0 < dense_x)
    (some_y : 0 < dense_y)
    (whole : length src ≡ cols * dense_x * (rows * dense_y) + rows * 2 * cols) where
  abbrev width : ℕ
  width = cols * dense_x

  abbrev luminance_size : ℕ
  luminance_size = cols * dense_x * (rows * dense_y)

  -- A sample of the reduced planes, whose rows are counted through.
  abbrev reduced : ℕ → ℕ → ℕ
  reduced y x = byte_of src (luminance_size + y * cols + x)

  abbrev wide_row : ℕ → List ℕ
  wide_row y = blocks cols (λ x. replicate dense_x (reduced y x))

  length-wide_row : (y : ℕ) → length (wide_row y) ≡ width
  length-wide_row y =
      length-blocks cols dense_x (λ x. replicate dense_x (reduced y x))
        (λ x h. length-replicate dense_x (reduced y x))

  expand_row-wide_row :
      (y : ℕ)
      → y < rows * 2
      → width / dense_x ≡ cols
      → expand_row src (luminance_size + y * (width / dense_x)) width dense_x ≡ ok (wide_row y)
  unfolding expand_row
  expand_row-wide_row y h e =
      let inside = block_end y (rows * 2) cols h in
      let start : luminance_size + y * (width / dense_x) ≡ luminance_size + y * cols =
        ap (λ n. luminance_size + y * n) e in
      (λ k. gather (e k) (λ x. byte_at src (start k + x) >>= λ v. ok (replicate dense_x v)))
      ∙ gather-blocks cols _ _ (λ x l.
        rw (byte_at-byte_of src (luminance_size + y * cols + x) (omega (arith, whole, inside)))
          refl)

  -- The row before is repeated.
  repeat_row-blocks :
      (n : ℕ) (before row : List ℕ)
      → length row ≡ width
      → repeat_row n width (before ++ row) ≡ ok (before ++ blocks (suc n) (λ i. row))
  unfolding repeat_row blocks
  repeat_row-blocks zero before row e = refl
  repeat_row-blocks (suc n) before row e =
      let done = before ++ blocks (suc n) (λ i. row) in
      let rest = repeat_row-blocks n before row e in
      let last : read_at done (length done - width) width ≡ ok row =
        ap (λ d. read_at d (length d - width) width)
          (sym (append_assoc before (blocks n (λ i. row)) row))
        ∙ read_last (before ++ blocks n (λ i. row)) row width e in
      rw (rest, last) (ap ok (append_assoc before (blocks (suc n) (λ i. row)) row))

  abbrev tall_row : ℕ → List ℕ
  tall_row y = blocks dense_y (λ i. wide_row y)

  length-tall_row : (y : ℕ) → length (tall_row y) ≡ dense_y * width
  length-tall_row y = length-blocks dense_y width (λ i. wide_row y) (λ i h. length-wide_row y)

  expand_rows-blocks :
      (n : ℕ) (before : List ℕ)
      → n ≤ rows * 2
      → width / dense_x ≡ cols
      → expand_rows n src luminance_size width dense_x dense_y before
        ≡ ok (before ++ blocks n tall_row)
  unfolding expand_rows blocks
  expand_rows-blocks zero before h e = ap ok (sym (append-nil before))
  expand_rows-blocks (suc n) before h e =
      let rest = expand_rows-blocks n before (omega arith) e in
      let row = expand_row-wide_row n (omega arith) e in
      let again =
        repeat_row-blocks (dense_y - 1) (before ++ blocks n tall_row) (wide_row n)
          (length-wide_row n) in
      let count : suc (dense_y - 1) ≡ dense_y = omega arith in
      rw (rest, row)
        (again
          ∙ ap (λ m. ok ((before ++ blocks n tall_row) ++ blocks m (λ i. wide_row n))) count
          ∙ ap ok (append_assoc before (blocks n tall_row) (tall_row n)))

  abbrev expanded : List ℕ
  expanded = take luminance_size src ++ blocks (rows * 2) tall_row

  copy_planes-expanded : copy_planes src width (rows * dense_y) dense_x dense_y ≡ ok expanded
  unfolding copy_planes
  copy_planes-expanded =
      let e : width / dense_x ≡ cols = mul-div_cancel cols some_x in
      let count : rows * dense_y / dense_y * 2 ≡ rows * 2 =
        ap (λ n. n * 2) (mul-div_cancel rows some_y) in
      let luminance = read_at-ok src 0 luminance_size (omega (arith, whole)) in
      rw luminance (
        ap (λ n. expand_rows n src luminance_size width dense_x dense_y (take luminance_size src))
          count
        ∙ expand_rows-blocks (rows * 2) (take luminance_size src) (omega arith) e)

  length-luminance : length (take luminance_size src) ≡ luminance_size
  length-luminance = omega (arith, length-take luminance_size src, whole)

  -- A sample of the expanded planes.
  expanded_sample :
      (y i x j : ℕ)
      → y < rows * 2
      → i < dense_y
      → x < cols
      → j < dense_x
      → byte_at expanded (luminance_size + ((y * dense_y + i) * width + (x * dense_x + j)))
        ≡ byte_at src (luminance_size + y * cols + x)
  expanded_sample y i x j hy hi hx hj =
      let in_row = block_end x cols dense_x hx in
      let in_tall = block_end i dense_y width hi in
      let inside = block_end y (rows * 2) cols hy in
      byte_at-append_right (take luminance_size src) (blocks (rows * 2) tall_row)
        (y * (dense_y * width) + (i * width + (x * dense_x + j))) _
        (omega (arith, length-luminance))
      ∙ byte_at-blocks (rows * 2) (dense_y * width) y (i * width + (x * dense_x + j)) tall_row hy
          (omega (arith, in_row, in_tall)) (λ y h. length-tall_row y)
      ∙ byte_at-blocks dense_y width i (x * dense_x + j) (λ i. wide_row y) hi
          (omega (arith, in_row)) (λ i h. length-wide_row y)
      ∙ byte_at-blocks cols dense_x x j (λ x. replicate dense_x (reduced y x)) hx hj
          (λ x h. length-replicate dense_x (reduced y x))
      ∙ byte_at-replicate dense_x (reduced y x) j hj
      ∙ sym (byte_at-byte_of src (luminance_size + y * cols + x) (omega (arith, whole, inside)))

  -- What the planes of a lower density are expanded to: the luminance is as in the source, and each of
  -- its other samples stands at all of the `dense_x` by `dense_y` places that it is for.
  pub copy_planes_lem :
      (out : List ℕ) × (copy_planes src width (rows * dense_y) dense_x dense_y ≡ ok out)
      × (length out ≡ width * (rows * dense_y) * 3)
      × ((k : ℕ) → k < luminance_size → byte_at out k ≡ byte_at src k)
      × ((y x : ℕ)
          → y < rows * dense_y * 2
          → x < width
          → byte_at out (luminance_size + (y * width + x))
            ≡ byte_at src (luminance_size + y / dense_y * cols + x / dense_x))
  copy_planes_lem = (
    expanded,
    copy_planes-expanded,
    omega (
      arith,
      length-append (take luminance_size src) (blocks (rows * 2) tall_row),
      length-luminance,
      length-blocks (rows * 2) (dense_y * width) tall_row (λ y h. length-tall_row y),
    ),
    λ k h.
        byte_at-append_left (take luminance_size src) (blocks (rows * 2) tall_row) k
          (omega (arith, length-luminance))
        ∙ byte_at-take luminance_size src k h,
    λ y x hy hx.
        let split_y : y ≡ y / dense_y * dense_y + y % dense_y = sym (div-add-mod' y dense_y) in
        let split_x : x ≡ x / dense_x * dense_x + x % dense_x = sym (div-add-mod' x dense_x) in
        (λ k. byte_at expanded (luminance_size + (split_y k * width + split_x k)))
        ∙ expanded_sample (y / dense_y) (y % dense_y) (x / dense_x) (x % dense_x)
            ((div-lt_iff_lt-mul some_y).1 (omega arith)) (mod-lt y some_y)
            ((div-lt_iff_lt-mul some_x).1 hx) (mod-lt x some_x),
  )
