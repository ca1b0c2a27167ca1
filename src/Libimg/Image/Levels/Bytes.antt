-- ===== src/Libimg/Image/Levels/Bytes.antt =====
-- server/src/libimg/libimgImage.cpp: images that decay or are boosted.
use ozonebase.Prelude.{
  ℕ, ◌+◌, ◌-◌, ◌/◌, ◌^◌, ◌<◌, ◌≤◌, ◌≡◌, refl, sym, ap, ap₂, ◌∙◌, arith, false, List, ◌∷◌, map,
  length, length-map, if◌then◌else◌, ltb, leb, ◌==◌,
}
use ozonebase.Libgen.Outcome.{Outcome, ok}
use ozonebase.Libgen.Buffer.Fresh.{overwrite_lem}
use ozonebase.Libimg.Image.{
  Format, undef, grey, grey16, rgb, rgb48, yuv, yuvj, yuvp, yuvjp, format_code, Image, bytes_of,
  traits, Traits,
}
use ozonebase.Libimg.Image.Layout.{IsImage, Laid, Laid-buffer, Holds-IsImage}
use ozonebase.Libimg.Image.Geometry.{drawn}
use ozonebase.Libimg.Image.Levels.{
  decay_bytes, boost_bytes, shifted_by, decay, boost, decayed, boosted,
}
use ozonebase.Libimg.Image.Levels.Shifts.{ref_shift-power, decayed_lem, boosted_lem}
use ozonebase.Libimg.Image.Samples.Places.{AllBytes, no_byte, one_byte}
use ozonebase.Libimg.Image.Geometry.Pixels.{length-bytes_of}

-- As many other bytes in the image's place.
pub redrawn :
    (i : Image) (bytes : List ℕ) (v : IsImage i)
    → length bytes ≡ i.size
    → (j : Image) × (drawn i bytes ≡ ok j)
      × IsImage j
      × Laid j i.format v.traits_of i.width i.height
      × (bytes_of j ≡ bytes)
unfolding drawn
redrawn i bytes v e =
    let r = overwrite_lem i.buffer bytes v.valid v.owned (e ∙ sym v.filled) in
    let b = record i.buffer { storage = r.0 } in
    (
      record i { buffer = b },
      rw r.1 refl,
      Holds-IsImage i b v.traits_of i.format i.width i.height bytes v.defined v.laid r.2 e,
      Laid-buffer i b v.traits_of i.format i.width i.height v.laid,
      r.2.shows,
    )

-- The formats whose samples are bytes of the full range, and those whose samples are words.
pub data IsFull : Format → Type 0 where
  grey-IsFull : IsFull grey
  rgb-IsFull : IsFull rgb
  yuvj-IsFull : IsFull yuvj
  yuvjp-IsFull : IsFull yuvjp

pub data IsWide : Format → Type 0 where
  grey16-IsWide : IsWide grey16
  rgb48-IsWide : IsWide rgb48

decay_bytes-IsFull :
    (f : Format) (i : Image) (s : ℕ)
    → IsFull f
    → decay_bytes f i s ≡ ok (map (decayed s) (bytes_of i))
decay_bytes-IsFull f i s grey-IsFull = refl
decay_bytes-IsFull f i s rgb-IsFull = refl
decay_bytes-IsFull f i s yuvj-IsFull = refl
decay_bytes-IsFull f i s yuvjp-IsFull = refl

boost_bytes-IsFull :
    (f : Format) (i : Image) (s : ℕ)
    → IsFull f
    → boost_bytes f i s ≡ ok (map (boosted s) (bytes_of i))
boost_bytes-IsFull f i s grey-IsFull = refl
boost_bytes-IsFull f i s rgb-IsFull = refl
boost_bytes-IsFull f i s yuvj-IsFull = refl
boost_bytes-IsFull f i s yuvjp-IsFull = refl

-- A valid image has a format.
pub coded : (f : Format) (t : Traits) → traits f ≡ ok t → (format_code f == 0) ≡ false
coded undef t d = absurd (cc d)
coded grey t d = refl
coded grey16 t d = refl
coded rgb t d = refl
coded rgb48 t d = refl
coded yuv t d = refl
coded yuvj t d = refl
coded yuvp t d = refl
coded yuvjp t d = refl

-- What is done to the samples is done to the image.
pub shifted_by_lem :
    (change : Format → Image → ℕ → Outcome (List ℕ)) (i : Image) (s : ℕ) (bytes : List ℕ)
    (v : IsImage i)
    → 0 < s
    → s < i.colour_depth
    → s ≤ 15
    → change i.format i s ≡ ok bytes
    → length bytes ≡ i.size
    → (j : Image) × (shifted_by change i (2 ^ s) ≡ ok j)
      × IsImage j
      × Laid j i.format v.traits_of i.width i.height
      × (bytes_of j ≡ bytes)
unfolding shifted_by
shifted_by_lem change i s bytes v h d l e n =
    let r = redrawn i bytes v n in
    let some_shift : (s == 0) ≡ false = ground arith in
    let shallow : leb i.colour_depth s ≡ false = ground arith in
    (
      r.0,
      rw (coded i.format v.traits_of v.defined, ref_shift-power s h l, some_shift, shallow, e) r.1,
      r.2,
      r.3,
      r.4,
    )

map_bytes :
    (f g : ℕ → ℕ) (bytes : List ℕ)
    → ((b : ℕ) → b < 256 → f b ≡ g b)
    → AllBytes bytes
    → map f bytes ≡ map g bytes
map_bytes f g bytes h no_byte = refl
map_bytes f g bytes h (one_byte b rest l all) =
    ap₂ (λ x xs. x ∷ xs) (h b l) (map_bytes f g rest h all)

-- An image of bytes of the full range that decays by a power of two, not too high for its depth, loses
-- that part of each sample, rounded down, and is otherwise as it was.
pub decay-IsFull :
    (i : Image) (s : ℕ) (v : IsImage i)
    → IsFull i.format
    → AllBytes (bytes_of i)
    → 0 < s
    → s < i.colour_depth
    → s ≤ 15
    → (j : Image) × (decay i (2 ^ s) ≡ ok j)
      × IsImage j
      × Laid j i.format v.traits_of i.width i.height
      × (bytes_of j ≡ map (λ b. b - b / 2 ^ s) (bytes_of i))
unfolding decay
decay-IsFull i s v f all h d l =
    shifted_by_lem decay_bytes i s (map (λ b. b - b / 2 ^ s) (bytes_of i)) v h d l
      (decay_bytes-IsFull i.format i s f
        ∙ ap ok (map_bytes (decayed s) (λ b. b - b / 2 ^ s) (bytes_of i) (decayed_lem s) all))
      (length-map (bytes_of i) (λ b. b - b / 2 ^ s) ∙ length-bytes_of v)

-- A valid image of bytes of the full range, grey, RGB, YUVJ or YUVJ in planes, that is boosted by a
-- power of two, 2 to 2^7, gains that part of each sample, rounded down, but a sample that would be
-- past 255 becomes 0.
pub boost-IsFull :
    (i : Image) (s : ℕ) (v : IsImage i)
    → IsFull i.format
    → AllBytes (bytes_of i)
    → 0 < s
    → s < i.colour_depth
    → s ≤ 15
    → (j : Image) × (boost i (2 ^ s) ≡ ok j)
      × IsImage j
      × Laid j i.format v.traits_of i.width i.height
      × (bytes_of j ≡ map (λ b. if ltb (b + b / 2 ^ s) 256 then b + b / 2 ^ s else 0) (bytes_of i))
unfolding boost
boost-IsFull i s v f all h d l =
    let after : ℕ → ℕ = λ b. if ltb (b + b / 2 ^ s) 256 then b + b / 2 ^ s else 0 in
    shifted_by_lem boost_bytes i s (map after (bytes_of i)) v h d l
      (boost_bytes-IsFull i.format i s f
        ∙ ap ok (map_bytes (boosted s) after (bytes_of i) (boosted_lem s) all))
      (length-map (bytes_of i) after ∙ length-bytes_of v)
