-- ===== src/Libimg/Image/Levels.antt =====
-- server/src/libimg/libimgImage.cpp: decay, boost and square, which change the samples in place. The
-- division of what a sample adds or loses by a power of two is a shift. The messages that are only
-- logged are left out.
pub mod Shifts
pub mod Bytes
pub mod Words
use ozonebase.Prelude.{
  ℕ, zero, suc, ◌+◌, ◌-◌, ◌*◌, ◌/◌, ◌%◌, ◌^◌, List, [], ◌∷◌, ◌++◌, map, take, drop, ltb, leb, ◌==◌,
  if◌then◌else◌, pos, difference, above,
}
use ozonebase.Libgen.Outcome.{Outcome, ok, fault, panic, thrown, spent, ◌>>=◌}
use ozonebase.Libimg.Raster.{slice}
use ozonebase.Libimg.Colour.{clamp, to_byte}
use ozonebase.Libimg.Image.{
  Format, undef, grey, grey16, rgb, rgb48, yuv, yuvj, yuvp, yuvjp, format_code, Image, bytes_of,
}
use ozonebase.Libimg.Image.Geometry.{drawn}

-- The loop that looks for the power of two.
unfoldable pub shift_from : ℕ → ℕ → ℕ → ℕ → Outcome ℕ
shift_from zero i shift fraction = spent
shift_from (suc fuel) i shift fraction =
    let rest = shift_from fuel (i * 2) (shift + 1) fraction in
    if ltb i 65536 then (if i == fraction then ok (shift + 1) else rest) else ok shift

abbrev pub ref_shift : ℕ → Outcome ℕ
ref_shift fraction = shift_from 16 2 0 fraction

-- Words, which are stored with the high byte first; one that the end of the image cuts is a fault.
unfoldable pub each_word : (ℕ → ℕ) → List ℕ → Outcome (List ℕ)
each_word f [] = ok []
each_word f (high ∷ []) = fault
each_word f (high ∷ low ∷ rest) =
    let word : ℕ = f (high * 256 + low) in
    each_word f rest >>= λ done. ok (word / 256 % 256 ∷ word % 256 ∷ done)

-- Packed pixels of three bytes.
unfoldable pub each_pixel : (ℕ → ℕ) → (ℕ → ℕ) → List ℕ → Outcome (List ℕ)
each_pixel f g [] = ok []
each_pixel f g (y ∷ []) = fault
each_pixel f g (y ∷ u ∷ []) = fault
each_pixel f g (y ∷ u ∷ v ∷ rest) = each_pixel f g rest >>= λ done. ok (f y ∷ g u ∷ g v ∷ done)

-- A run of bytes in place.
abbrev pub each_of : (ℕ → ℕ) → ℕ → ℕ → List ℕ → List ℕ
each_of f at n bytes = take at bytes ++ (map f (slice bytes at n) ++ drop (at + n) bytes)

-- The three planes, as long as the last one's pointer is in the image.
unfoldable pub each_plane : (ℕ → ℕ) → (ℕ → ℕ) → ℕ → ℕ → List ℕ → List ℕ
each_plane f g plane size bytes =
    let n : ℕ = size - 2 * plane in
    each_of g (2 * plane) n (each_of g plane n (each_of f 0 n bytes))

-- What becomes of a sample.
abbrev pub lost : ℕ → ℕ → ℕ
lost s v = v - v / 2 ^ s

abbrev pub gained : ℕ → ℕ → ℕ
gained s v = v + v / 2 ^ s

unfoldable pub decayed : ℕ → ℕ → ℕ
decayed s v = to_byte (pos (lost s v))

unfoldable pub decayed_yuv : ℕ → ℕ → ℕ
decayed_yuv s v = to_byte (clamp (pos (lost s v)) (pos 16) (pos 256))

unfoldable pub boosted : ℕ → ℕ → ℕ
boosted s v = to_byte (clamp (pos (gained s v)) (pos 0) (pos 256))

unfoldable pub boosted_y : ℕ → ℕ → ℕ
boosted_y s v = to_byte (clamp (pos (gained s v)) (pos 16) (pos 240))

unfoldable pub boosted_uv : ℕ → ℕ → ℕ
boosted_uv s v = to_byte (clamp (pos (gained s v)) (pos 16) (pos 235))

unfoldable pub boosted_word : ℕ → ℕ → ℕ
boosted_word s v = above (clamp (pos (gained s v)) (pos 0) (pos 65536)) % 65536

abbrev pub decay_bytes : Format → Image → ℕ → Outcome (List ℕ)
decay_bytes undef i s = panic
decay_bytes grey i s = ok (map (decayed s) (bytes_of i))
decay_bytes grey16 i s = each_word (lost s) (bytes_of i)
decay_bytes rgb i s = ok (map (decayed s) (bytes_of i))
decay_bytes rgb48 i s = each_word (lost s) (bytes_of i)
decay_bytes yuv i s = ok (map (decayed_yuv s) (bytes_of i))
decay_bytes yuvj i s = ok (map (decayed s) (bytes_of i))
decay_bytes yuvp i s = ok (map (decayed_yuv s) (bytes_of i))
decay_bytes yuvjp i s = ok (map (decayed s) (bytes_of i))

abbrev pub boost_bytes : Format → Image → ℕ → Outcome (List ℕ)
boost_bytes undef i s = panic
boost_bytes grey i s = ok (map (boosted s) (bytes_of i))
boost_bytes grey16 i s = each_word (boosted_word s) (bytes_of i)
boost_bytes rgb i s = ok (map (boosted s) (bytes_of i))
boost_bytes rgb48 i s = each_word (boosted_word s) (bytes_of i)
boost_bytes yuv i s = each_pixel (boosted_y s) (boosted_uv s) (bytes_of i)
boost_bytes yuvj i s = ok (map (boosted s) (bytes_of i))
boost_bytes yuvp i s =
    ok (each_plane (boosted_y s) (boosted_uv s) i.plane_size i.buffer.size (bytes_of i))
boost_bytes yuvjp i s = ok (map (boosted s) (bytes_of i))

-- The frame that decay and boost share.
unfoldable pub shifted_by : (Format → Image → ℕ → Outcome (List ℕ)) → Image → ℕ → Outcome Image
shifted_by change i fraction =
    if format_code i.format == 0
    then panic
    else (ref_shift fraction >>= λ s.
        if s == 0
        then panic
        else if leb i.colour_depth s
        then ok i
        else (change i.format i s >>= λ bytes. drawn i bytes))

unfoldable pub decay : Image → ℕ → Outcome Image
decay i fraction = shifted_by decay_bytes i fraction

unfoldable pub boost : Image → ℕ → Outcome Image
boost i fraction = shifted_by boost_bytes i fraction

-- The product of a word with itself wraps in an int, but its bits from the 16th to the 31st stay.
abbrev pub squared : ℕ → ℕ
squared v = v * v / 65536

abbrev pub square_in : Format → Image → Outcome Image
square_in undef i = panic
square_in grey i = panic
square_in grey16 i = each_word squared (bytes_of i) >>= λ bytes. drawn i bytes
square_in rgb i = panic
square_in rgb48 i = each_word squared (bytes_of i) >>= λ bytes. drawn i bytes
square_in yuv i = panic
square_in yuvj i = panic
square_in yuvp i = panic
square_in yuvjp i = panic

unfoldable pub square : Image → Outcome Image
square i = square_in i.format i
