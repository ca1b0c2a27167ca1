-- ===== src/Libimg/Image/Levels/Words.antt =====
-- server/src/libimg/libimgImage.cpp: images of words that decay, are boosted or squared.
use ozonebase.Prelude.{
  ℕ, ◌+◌, ◌-◌, ◌*◌, ◌/◌, ◌%◌, ◌^◌, ◌<◌, ◌≤◌, ◌≡◌, refl, sym, ap, ap₂, ◌∙◌, arith, List, [], ◌∷◌,
  map, length, ltb, if◌then◌else◌,
}
use native.Mathlib.Nat.{mul-le-mul_right}
use ozonebase.Libgen.Outcome.{Outcome, ok, ◌>>=◌}
use ozonebase.Libimg.Image.{Format, Image, Traits, traits, bytes_of}
use ozonebase.Libimg.Image.Layout.{IsImage, Laid}
use ozonebase.Libimg.Image.Geometry.{drawn}
use ozonebase.Libimg.Image.Geometry.Pixels.{length-bytes_of}
use ozonebase.Libimg.Image.Samples.Sums.{Extent, IsImage-Extent, known}
use ozonebase.Libimg.Image.Samples.Places.{AllBytes, no_byte, one_byte}
use ozonebase.Libimg.Image.Levels.{
  each_word, lost, boosted_word, squared, decay_bytes, boost_bytes, decay, boost, square, square_in,
  shifted_by,
}
use ozonebase.Libimg.Image.Levels.Shifts.{boosted_word_lem}
use ozonebase.Libimg.Image.Levels.Bytes.{
  IsWide, grey16-IsWide, rgb48-IsWide, redrawn, shifted_by_lem,
}

-- The words that bytes are.
unfoldable pub words : List ℕ → List ℕ
words [] = []
words (high ∷ []) = []
words (high ∷ low ∷ rest) = (high * 256 + low) ∷ words rest

split_word : (w : ℕ) → w < 65536 → w / 256 % 256 * 256 + w % 256 ≡ w
split_word w h = omega arith

each_word_lem :
    (f g : ℕ → ℕ) (n : ℕ) (bytes : List ℕ)
    → ((w : ℕ) → w < 65536 → f w < 65536)
    → ((w : ℕ) → w < 65536 → f w ≡ g w)
    → length bytes ≡ 2 * n
    → AllBytes bytes
    → (done : List ℕ) × (each_word f bytes ≡ ok done)
      × (length done ≡ length bytes)
      × (words done ≡ map g (words bytes))
unfolding each_word words
each_word_lem f g n bytes h s e no_byte = ([], refl, refl, refl)
each_word_lem f g n bytes h s e (one_byte a rest l no_byte) = absurd (omega arith)
each_word_lem f g n bytes h s e (one_byte a rest l (one_byte b rest' m all)) =
    let w : ℕ = a * 256 + b in
    let small : w < 65536 = omega arith in
    let r = each_word_lem f g (n - 1) rest' h s (omega arith) all in
    (
      f w / 256 % 256 ∷ f w % 256 ∷ r.0,
      rw r.1 refl,
      omega (arith, r.2),
      ap₂ (λ x xs. x ∷ xs) (split_word (f w) (h w small) ∙ s w small) r.3,
    )

even_size :
    (f : Format) (i : Image) (t : Traits)
    → IsWide f
    → traits f ≡ ok t
    → Extent i t
    → (n : ℕ) × (i.buffer.size ≡ 2 * n)
even_size f i t grey16-IsWide d x =
    let x' = known d x in
    (i.pixels, x'.size ∙ ap (λ s. s * 1) (x'.plane ∙ ap (λ s. i.pixels * s) x'.step) ∙ omega arith)
even_size f i t rgb48-IsWide d x =
    let x' = known d x in
    (
      3 * i.pixels,
      x'.size ∙ ap (λ s. s * 1) (x'.plane ∙ ap (λ s. i.pixels * s) x'.step) ∙ omega arith,
    )

decay_bytes-IsWide :
    (f : Format) (i : Image) (s : ℕ)
    → IsWide f
    → decay_bytes f i s ≡ each_word (lost s) (bytes_of i)
decay_bytes-IsWide f i s grey16-IsWide = refl
decay_bytes-IsWide f i s rgb48-IsWide = refl

boost_bytes-IsWide :
    (f : Format) (i : Image) (s : ℕ)
    → IsWide f
    → boost_bytes f i s ≡ each_word (boosted_word s) (bytes_of i)
boost_bytes-IsWide f i s grey16-IsWide = refl
boost_bytes-IsWide f i s rgb48-IsWide = refl

square_in-IsWide :
    (f : Format) (i : Image)
    → IsWide f
    → square_in f i ≡ (each_word squared (bytes_of i) >>= λ bytes. drawn i bytes)
square_in-IsWide f i grey16-IsWide = refl
square_in-IsWide f i rgb48-IsWide = refl

-- An image like `i` with other words.
abbrev pub Changed : (i : Image) → IsImage i → (ℕ → ℕ) → Outcome Image → Type 0
Changed i v g o =
    (j : Image) × (o ≡ ok j)
    × IsImage j
    × Laid j i.format v.traits_of i.width i.height
    × (words (bytes_of j) ≡ map g (words (bytes_of i)))

module _ (i : Image) (v : IsImage i) (wide : IsWide i.format) (all : AllBytes (bytes_of i)) where
  changed_words :
      (f g : ℕ → ℕ)
      → ((w : ℕ) → w < 65536 → f w < 65536)
      → ((w : ℕ) → w < 65536 → f w ≡ g w)
      → (done : List ℕ) × (each_word f (bytes_of i) ≡ ok done)
        × (length done ≡ length (bytes_of i))
        × (words done ≡ map g (words (bytes_of i)))
  changed_words f g h s =
      let n = even_size i.format i v.traits_of wide v.defined (IsImage-Extent i v) in
      each_word_lem f g n.0 (bytes_of i) h s (length-bytes_of v ∙ sym v.filled ∙ n.1) all

  shifted_words :
      (change : Format → Image → ℕ → Outcome (List ℕ)) (s : ℕ) (f g : ℕ → ℕ)
      → change i.format i s ≡ each_word f (bytes_of i)
      → ((w : ℕ) → w < 65536 → f w < 65536)
      → ((w : ℕ) → w < 65536 → f w ≡ g w)
      → 0 < s
      → s < i.colour_depth
      → s ≤ 15
      → Changed i v g (shifted_by change i (2 ^ s))
  shifted_words change s f g e h same p d l =
      let w = changed_words f g h same in
      let r = shifted_by_lem change i s w.0 v p d l (e ∙ w.1) (w.2 ∙ length-bytes_of v) in
      (r.0, r.1, r.2, r.3, ap words r.4 ∙ w.3)

-- A valid image of words, grey or RGB, that decays by a power of two, 2 to 2^15, loses that part of
-- each word, rounded down, and is otherwise as it was.
pub decay-IsWide :
    (i : Image) (s : ℕ) (v : IsImage i)
    → IsWide i.format
    → AllBytes (bytes_of i)
    → 0 < s
    → s < i.colour_depth
    → s ≤ 15
    → Changed i v (λ w. w - w / 2 ^ s) (decay i (2 ^ s))
unfolding decay
decay-IsWide i s v wide all p d l =
    shifted_words i v wide all decay_bytes s (lost s) (λ w. w - w / 2 ^ s)
      (decay_bytes-IsWide i.format i s wide) (λ w h. omega arith) (λ w h. refl) p d l

boosted_word_small : (s w : ℕ) → boosted_word s w < 65536
boosted_word_small s w = ground (arith, boosted_word_lem s w)

-- One that is boosted gains that part, but a word that would be past the last value becomes 0.
pub boost-IsWide :
    (i : Image) (s : ℕ) (v : IsImage i)
    → IsWide i.format
    → AllBytes (bytes_of i)
    → 0 < s
    → s < i.colour_depth
    → s ≤ 15
    → Changed i v (λ w. if ltb (w + w / 2 ^ s) 65536 then w + w / 2 ^ s else 0) (boost i (2 ^ s))
unfolding boost
boost-IsWide i s v wide all p d l =
    shifted_words i v wide all boost_bytes s (boosted_word s)
      (λ w. if ltb (w + w / 2 ^ s) 65536 then w + w / 2 ^ s else 0)
      (boost_bytes-IsWide i.format i s wide) (λ w h. boosted_word_small s w)
      (λ w h. boosted_word_lem s w) p d l

squared_small : (w : ℕ) → w < 65536 → w * w / 65536 < 65536
squared_small w h = let bound : w ≤ 65535 = omega arith in omega (arith, mul-le-mul_right w bound)

-- One that is squared has the high half of the product of each word with itself.
pub square-IsWide :
    (i : Image) (v : IsImage i)
    → IsWide i.format
    → AllBytes (bytes_of i)
    → Changed i v (λ w. w * w / 65536) (square i)
unfolding square
square-IsWide i v wide all =
    let w = changed_words i v wide all squared squared squared_small (λ w h. refl) in
    let r = redrawn i w.0 v (w.2 ∙ length-bytes_of v) in
    (r.0, square_in-IsWide i.format i wide ∙ rw w.1 r.1, r.2, r.3, ap words r.4 ∙ w.3)
