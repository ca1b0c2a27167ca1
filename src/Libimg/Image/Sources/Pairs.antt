-- ===== src/Libimg/Image/Sources/Pairs.antt =====
-- server/src/libimg/libimgImage.cpp: two pixels in four bytes, whose luminances stand at the even places
-- (YUYV) or at the odd ones (UYVY).
use ozonebase.Prelude.{
  ℕ, zero, suc, ◌+◌, ◌*◌, ◌/◌, ◌%◌, ◌<◌, ◌≡◌, refl, sym, ap, ◌∙◌, arith, List, [], ◌∷◌, ◌++◌,
  length, length-append,
}
use native.Mathlib.Nat.{div-add-mod', mod-lt}
use ozonebase.Libgen.Outcome.{Outcome, ok, ◌>>=◌}
use ozonebase.Libimg.Raster.{gather, gather-blocks, blocks, length-blocks}
use ozonebase.Libimg.Colour.{yuv2rgb_r, yuv2rgb_g, yuv2rgb_b}
use ozonebase.Libimg.Image.Samples.{byte_at}
use ozonebase.Libimg.Image.Samples.Blocks.{
  byte_at-append_left, byte_at-append_right, byte_at-blocks, byte_of, byte_at-byte_of,
}
use ozonebase.Libimg.Image.Sources.{four, rgb_pair, pair_count, copy_yuyv_yuvp, copy_uyvy_rgb}

pair_byte :
    (a b r : ℕ) (o : Outcome ℕ)
    → r < 2
    → (r ≡ 0 → ok a ≡ o)
    → (r ≡ 1 → ok b ≡ o)
    → byte_at (a ∷ b ∷ []) r ≡ o
unfolding byte_at
pair_byte a b zero o h first second = first refl
pair_byte a b (suc zero) o h first second = second refl
pair_byte a b (suc (suc r)) o h first second = absurd (omega arith)

-- A component of a pixel in UYVY: of its own luminance, which is the second of its two bytes, and of the
-- first and the third of the four bytes that it shares.
abbrev pub uyvy_pixel : List ℕ → ℕ → (ℕ → ℕ → ℕ → ℕ) → Outcome ℕ
uyvy_pixel src k component = byte_at src (k * 2 + 1) >>= λ y.
    byte_at src (k / 2 * 4) >>= λ u. byte_at src (k / 2 * 4 + 2) >>= λ v. ok (component y u v)

-- The bytes of either pixel of a pair.
pair_components :
    (y₁ y₂ y u v r : ℕ)
    → r < 2
    → (r ≡ 0 → y₁ ≡ y)
    → (r ≡ 1 → y₂ ≡ y)
    → (byte_at (rgb_pair y₁ y₂ u v) (r * 3) ≡ ok (yuv2rgb_r y u v))
      × (byte_at (rgb_pair y₁ y₂ u v) (r * 3 + 1) ≡ ok (yuv2rgb_g y u v))
      × (byte_at (rgb_pair y₁ y₂ u v) (r * 3 + 2) ≡ ok (yuv2rgb_b y u v))
unfolding byte_at
pair_components y₁ y₂ y u v zero h first second = (
  ap (λ l. ok (yuv2rgb_r l u v)) (first refl),
  ap (λ l. ok (yuv2rgb_g l u v)) (first refl),
  ap (λ l. ok (yuv2rgb_b l u v)) (first refl),
)
pair_components y₁ y₂ y u v (suc zero) h first second = (
  ap (λ l. ok (yuv2rgb_r l u v)) (second refl),
  ap (λ l. ok (yuv2rgb_g l u v)) (second refl),
  ap (λ l. ok (yuv2rgb_b l u v)) (second refl),
)
pair_components y₁ y₂ y u v (suc (suc r)) h first second = absurd (omega arith)

-- The planes of an image in YUYV, of `2 * n` pixels.
module _ (n width height : ℕ) (src : List ℕ) (even : width * height ≡ 2 * n)
    (whole : length src ≡ n * 4) where
  count_is : pair_count width height ≡ n
  count_is = omega (arith, even)

  plane_of :
      (f : ℕ → ℕ → ℕ → ℕ → List ℕ)
      → gather (pair_count width height) (λ i. four src (i * 4) f)
        ≡ ok (
            blocks n (λ i.
              f
                (byte_of src (i * 4))
                (byte_of src (i * 4 + 1))
                (byte_of src (i * 4 + 2))
                (byte_of src (i * 4 + 3))))
  plane_of f =
      ap (λ m. gather m (λ i. four src (i * 4) f)) count_is
      ∙ gather-blocks n _ _ (λ i h.
        rw
          (
            byte_at-byte_of src (i * 4) (omega (arith, whole)),
            byte_at-byte_of src (i * 4 + 1) (omega (arith, whole)),
            byte_at-byte_of src (i * 4 + 2) (omega (arith, whole)),
            byte_at-byte_of src (i * 4 + 3) (omega (arith, whole)),
          )
          refl)

  abbrev luminances : List ℕ
  luminances = blocks n (λ i. byte_of src (i * 4) ∷ byte_of src (i * 4 + 2) ∷ [])

  abbrev doubled : ℕ → List ℕ
  doubled at = blocks n (λ i. byte_of src (i * 4 + at) ∷ byte_of src (i * 4 + at) ∷ [])

  length-luminances : length luminances ≡ n * 2
  length-luminances = length-blocks n 2 _ (λ i h. refl)

  length-doubled : (at : ℕ) → length (doubled at) ≡ n * 2
  length-doubled at = length-blocks n 2 _ (λ i h. refl)

  -- Both bytes of a pair.
  in_pair :
      (g : ℕ → List ℕ) (k : ℕ)
      → ((i : ℕ) → length (g i) ≡ 2)
      → k < n * 2
      → byte_at (blocks n g) k ≡ byte_at (g (k / 2)) (k % 2)
  in_pair g k e h =
      ap (byte_at (blocks n g)) (sym (div-add-mod' k 2))
      ∙ byte_at-blocks n 2 (k / 2) (k % 2) g (omega arith) (mod-lt k (omega arith)) (λ i l. e i)

  byte_at-luminances : (k : ℕ) → k < n * 2 → byte_at luminances k ≡ byte_at src (k * 2)
  byte_at-luminances k h =
      in_pair _ k (λ i. refl) h
      ∙ pair_byte _ _ (k % 2) (byte_at src (k * 2)) (mod-lt k (omega arith))
          (λ r.
            sym (byte_at-byte_of src (k / 2 * 4) (omega (arith, whole)))
            ∙ ap (byte_at src) (omega arith))
          (λ r.
            sym (byte_at-byte_of src (k / 2 * 4 + 2) (omega (arith, whole)))
            ∙ ap (byte_at src) (omega arith))

  byte_at-doubled :
      (at k : ℕ) → at < 4 → k < n * 2 → byte_at (doubled at) k ≡ byte_at src (k / 2 * 4 + at)
  byte_at-doubled at k h l =
      in_pair _ k (λ i. refl) l
      ∙ pair_byte _ _ (k % 2) (byte_at src (k / 2 * 4 + at)) (mod-lt k (omega arith))
          (λ r. sym (byte_at-byte_of src (k / 2 * 4 + at) (omega (arith, whole))))
          (λ r. sym (byte_at-byte_of src (k / 2 * 4 + at) (omega (arith, whole))))

  -- A pixel of the planes has the luminance of its own two bytes, and the other components of the
  -- four bytes that it shares.
  pub copy_yuyv_yuvp_lem :
      (out : List ℕ) × (copy_yuyv_yuvp src width height ≡ ok out)
      × (length out ≡ width * height * 3)
      × ((k : ℕ)
          → k < width * height
          → (byte_at out k ≡ byte_at src (k * 2))
            × (byte_at out (width * height + k) ≡ byte_at src (k / 2 * 4 + 1))
            × (byte_at out (2 * (width * height) + k) ≡ byte_at src (k / 2 * 4 + 3)))
  unfolding copy_yuyv_yuvp
  copy_yuyv_yuvp_lem =
      let l = length-luminances in
      let d = length-doubled in
      (
        luminances ++ (doubled 1 ++ doubled 3),
        rw
            (
              plane_of (λ y₁ u y₂ v. y₁ ∷ y₂ ∷ []),
              plane_of (λ y₁ u y₂ v. u ∷ u ∷ []),
              plane_of (λ y₁ u y₂ v. v ∷ v ∷ []),
            )
            refl,
        omega (
          arith,
          length-append luminances (doubled 1 ++ doubled 3),
          length-append (doubled 1) (doubled 3),
          l,
          d 1,
          d 3,
          even,
        ),
        λ k h. (
          byte_at-append_left luminances (doubled 1 ++ doubled 3) k (omega (arith, l, even))
              ∙ byte_at-luminances k (omega (arith, even)),
          byte_at-append_right luminances (doubled 1 ++ doubled 3) k _ (omega (arith, l, even))
              ∙ byte_at-append_left (doubled 1) (doubled 3) k (omega (arith, d 1, even))
              ∙ byte_at-doubled 1 k (omega arith) (omega (arith, even)),
          byte_at-append_right luminances (doubled 1 ++ doubled 3) (width * height + k) _
                (omega (arith, l, even))
              ∙ byte_at-append_right (doubled 1) (doubled 3) k _ (omega (arith, d 1, even))
              ∙ byte_at-doubled 3 k (omega arith) (omega (arith, even)),
        ),
      )

  abbrev rgb_pixels : ℕ → List ℕ
  rgb_pixels i =
      rgb_pair (byte_of src (i * 4 + 1)) (byte_of src (i * 4 + 3)) (byte_of src (i * 4))
        (byte_of src (i * 4 + 2))

  uyvy_pixel-byte_of :
      (k : ℕ) (component : ℕ → ℕ → ℕ → ℕ)
      → k < n * 2
      → uyvy_pixel src k component
        ≡ ok (
            component
              (byte_of src (k * 2 + 1))
              (byte_of src (k / 2 * 4))
              (byte_of src (k / 2 * 4 + 2)))
  uyvy_pixel-byte_of k component h =
      rw
        (
          byte_at-byte_of src (k * 2 + 1) (omega (arith, whole)),
          byte_at-byte_of src (k / 2 * 4) (omega (arith, whole)),
          byte_at-byte_of src (k / 2 * 4 + 2) (omega (arith, whole)),
        )
        refl

  -- A byte of a pixel in the six bytes of its pair.
  in_rgb_pair :
      (k c : ℕ)
      → k < n * 2
      → c < 3
      → byte_at (blocks n rgb_pixels) (k * 3 + c) ≡ byte_at (rgb_pixels (k / 2)) (k % 2 * 3 + c)
  in_rgb_pair k c h l =
      ap (byte_at (blocks n rgb_pixels)) (omega arith)
      ∙ byte_at-blocks n 6 (k / 2) (k % 2 * 3 + c) rgb_pixels (omega arith) (omega arith)
          (λ i m. refl)

  -- Copied to RGB, each pixel has its own luminance and the other components of its pair.
  pub copy_uyvy_rgb_lem :
      (out : List ℕ) × (copy_uyvy_rgb src width height ≡ ok out)
      × (length out ≡ width * height * 3)
      × ((k : ℕ)
          → k < width * height
          → (byte_at out (k * 3) ≡ uyvy_pixel src k yuv2rgb_r)
            × (byte_at out (k * 3 + 1) ≡ uyvy_pixel src k yuv2rgb_g)
            × (byte_at out (k * 3 + 2) ≡ uyvy_pixel src k yuv2rgb_b))
  unfolding copy_uyvy_rgb
  copy_uyvy_rgb_lem = (
    blocks n rgb_pixels,
    plane_of (λ u y₁ v y₂. rgb_pair y₁ y₂ u v),
    length-blocks n 6 rgb_pixels (λ i h. refl) ∙ omega (arith, even),
    λ k h.
        let l : k < n * 2 = omega (arith, even) in
        let c =
          pair_components (byte_of src (k / 2 * 4 + 1)) (byte_of src (k / 2 * 4 + 3))
            (byte_of src (k * 2 + 1)) (byte_of src (k / 2 * 4)) (byte_of src (k / 2 * 4 + 2))
            (k % 2) (mod-lt k (omega arith)) (λ r. ap (byte_of src) (omega arith))
            (λ r. ap (byte_of src) (omega arith)) in
        (
          ap (byte_at (blocks n rgb_pixels)) (omega arith)
              ∙ in_rgb_pair k 0 l (omega arith)
              ∙ ap (byte_at (rgb_pixels (k / 2))) (omega arith)
              ∙ c.0
              ∙ sym (uyvy_pixel-byte_of k yuv2rgb_r l),
          in_rgb_pair k 1 l (omega arith) ∙ c.1 ∙ sym (uyvy_pixel-byte_of k yuv2rgb_g l),
          in_rgb_pair k 2 l (omega arith) ∙ c.2 ∙ sym (uyvy_pixel-byte_of k yuv2rgb_b l),
        ),
  )
