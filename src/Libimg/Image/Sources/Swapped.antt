-- ===== src/Libimg/Image/Sources/Swapped.antt =====
-- server/src/libimg/libimgImage.cpp: pixels in UYVY are copied like those in YUYV with the bytes exchanged.
use ozonebase.Prelude.{
  ℕ, zero, suc, ◌+◌, ◌-◌, ◌*◌, ◌≡◌, refl, sym, ap, ◌∙◌, inl, inr, arith, List, [], ◌∷◌, ◌++◌,
  length,
}
use ozonebase.Libgen.Outcome.{Outcome, ok, ◌>>=◌}
use ozonebase.Libimg.Raster.{gather}
use ozonebase.Libimg.Image.Samples.{byte_at}
use ozonebase.Libimg.Image.Samples.Blocks.{byte_at-cases}
use ozonebase.Libimg.Image.Sources.{
  four, pair_count, copy_yuyv_yuvp, copy_uyvy_yuvp, copy_yuyv_rgb, copy_uyvy_rgb,
}

-- Each two bytes in the opposite order.
unfoldable pub swapped : List ℕ → List ℕ
swapped [] = []
swapped (a ∷ []) = a ∷ []
swapped (a ∷ b ∷ rest) = b ∷ a ∷ swapped rest

byte_at-swapped :
    (n : ℕ) (src : List ℕ)
    → length src ≡ n * 2
    → (k : ℕ)
    → (byte_at (swapped src) (k * 2) ≡ byte_at src (k * 2 + 1))
      × (byte_at (swapped src) (k * 2 + 1) ≡ byte_at src (k * 2))
unfolding swapped byte_at
byte_at-swapped n [] e k = (refl, refl)
byte_at-swapped n (a ∷ []) e k = absurd (omega arith)
byte_at-swapped n (a ∷ b ∷ rest) e zero = (refl, refl)
byte_at-swapped n (a ∷ b ∷ rest) e (suc k) =
    let r = byte_at-swapped (n - 1) rest (omega arith) k in
    let even : suc k * 2 ≡ suc (suc (k * 2)) = omega arith in
    let odd : suc k * 2 + 1 ≡ suc (suc (k * 2 + 1)) = omega arith in
    (
      ap (byte_at (b ∷ a ∷ swapped rest)) even ∙ r.0 ∙ ap (byte_at (a ∷ b ∷ rest)) (sym odd),
      ap (byte_at (b ∷ a ∷ swapped rest)) odd ∙ r.1 ∙ ap (byte_at (a ∷ b ∷ rest)) (sym even),
    )

-- Reading two bytes in either order.
either_order :
    (src : List ℕ) (j k : ℕ) (f : ℕ → ℕ → Outcome (List ℕ))
    → (byte_at src j >>= λ a. byte_at src k >>= λ b. f a b)
      ≡ (byte_at src k >>= λ b. byte_at src j >>= λ a. f a b)
either_order src j k f = elim (byte_at-cases src j) [
  | inl found ↦ rw found.1 refl
  | inr missing ↦ elim (byte_at-cases src k) [
    | inl found ↦ rw (missing, found.1) refl
    | inr also ↦ rw (missing, also) refl
  ]
]

four-swapped :
    (n : ℕ) (src : List ℕ) (i : ℕ) (f g : ℕ → ℕ → ℕ → ℕ → List ℕ)
    → length src ≡ n * 2
    → ((a b c d : ℕ) → f a b c d ≡ g b a d c)
    → four (swapped src) (i * 4) f ≡ four src (i * 4) g
four-swapped n src i f g e h =
    let first = byte_at-swapped n src e (i * 2) in
    let second = byte_at-swapped n src e (i * 2 + 1) in
    let at : (j k : ℕ) → j ≡ k → byte_at src j ≡ byte_at src k = λ j k. ap (byte_at src) in
    let in_swapped : (j k : ℕ) → j ≡ k → byte_at (swapped src) j ≡ byte_at (swapped src) k =
      λ j k. ap (byte_at (swapped src)) in
    let e₀ : byte_at (swapped src) (i * 4) ≡ byte_at src (i * 4 + 1) =
      in_swapped _ (i * 2 * 2) (omega arith) ∙ first.0 ∙ at (i * 2 * 2 + 1) _ (omega arith) in
    let e₁ : byte_at (swapped src) (i * 4 + 1) ≡ byte_at src (i * 4) =
      in_swapped _ (i * 2 * 2 + 1) (omega arith) ∙ first.1 ∙ at (i * 2 * 2) _ (omega arith) in
    let e₂ : byte_at (swapped src) (i * 4 + 2) ≡ byte_at src (i * 4 + 3) =
      in_swapped _ ((i * 2 + 1) * 2) (omega arith)
      ∙ second.0
      ∙ at ((i * 2 + 1) * 2 + 1) _ (omega arith) in
    let e₃ : byte_at (swapped src) (i * 4 + 3) ≡ byte_at src (i * 4 + 2) =
      in_swapped _ ((i * 2 + 1) * 2 + 1) (omega arith)
      ∙ second.1
      ∙ at ((i * 2 + 1) * 2) _ (omega arith) in
    (λ k. e₀ k >>= λ a. e₁ k >>= λ b. e₂ k >>= λ c. e₃ k >>= λ d. ok (h a b c d k))
    ∙ either_order src (i * 4 + 1) (i * 4)
        (λ a b. byte_at src (i * 4 + 3) >>= λ c. byte_at src (i * 4 + 2) >>= λ d. ok (g b a d c))
    ∙ (λ k. byte_at src (i * 4) >>= λ b. byte_at src (i * 4 + 1) >>= λ a.
        either_order src (i * 4 + 3) (i * 4 + 2) (λ c d. ok (g b a d c)) k)

-- An image in UYVY is copied like the one in YUYV with each two bytes exchanged, to RGB and to planes,
-- also where the source ends too early.
pub copy_uyvy-swapped :
    (n : ℕ) (src : List ℕ) (width height : ℕ)
    → length src ≡ n * 2
    → (copy_uyvy_rgb (swapped src) width height ≡ copy_yuyv_rgb src width height)
      × (copy_uyvy_yuvp (swapped src) width height ≡ copy_yuyv_yuvp src width height)
unfolding copy_uyvy_rgb copy_yuyv_rgb copy_uyvy_yuvp copy_yuyv_yuvp
copy_uyvy-swapped n src width height e =
    let count = pair_count width height in
    let one : (f g : ℕ → ℕ → ℕ → ℕ → List ℕ)
        → ((a b c d : ℕ) → f a b c d ≡ g b a d c)
        → gather count (λ i. four (swapped src) (i * 4) f)
          ≡ gather count (λ i. four src (i * 4) g) =
      λ f g h k. gather count (λ i. four-swapped n src i f g e h k) in
    let ys = one (λ u y₁ v y₂. y₁ ∷ y₂ ∷ []) (λ y₁ u y₂ v. y₁ ∷ y₂ ∷ []) (λ a b c d. refl) in
    let us = one (λ u y₁ v y₂. u ∷ u ∷ []) (λ y₁ u y₂ v. u ∷ u ∷ []) (λ a b c d. refl) in
    let vs = one (λ u y₁ v y₂. v ∷ v ∷ []) (λ y₁ u y₂ v. v ∷ v ∷ []) (λ a b c d. refl) in
    (one _ _ (λ a b c d. refl), (λ k. ys k >>= λ a. us k >>= λ b. vs k >>= λ c. ok (a ++ (b ++ c))))
