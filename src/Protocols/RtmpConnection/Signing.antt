-- ===== src/Protocols/RtmpConnection/Signing.antt =====
-- The digests of the handshake (server/src/protocols/ozRtmpConnection.cpp): their places, and that what
-- is signed is verified.
use ozonebase.Prelude.{
  ℕ, zero, suc, ◌+◌, ◌-◌, ◌%◌, ◌≤◌, ◌≡◌, refl, sym, ap, ap₂, ◌∙◌, ◌⊎◌, inl, inr, true, false, List,
  [], ◌∷◌, ◌++◌, arith, ltb, length, take, drop, length-append, length-take, length-drop,
  take-append_self, drop-append_self, drop-append,
}
use ozonebase.Libgen.Outcome.{ok}
use ozonebase.Libgen.Buffer.{write_at, read_at}
use ozonebase.Libgen.Text.{same, same_self}
use ozonebase.Protocols.RtmpConnection.Digest.{
  sig_size, digest_length, sum, calculate_digest_offset, hmac_sha256, calculate_digest,
  verify_digest, sign,
}

pub read_at_ok :
    (block : List ℕ) (at n : ℕ)
    → at + n ≤ length block
    → read_at block at n ≡ ok (take n (drop at block))
unfolding read_at
read_at_ok block at n h = ground arith

-- A digest's place is inside the part of the handshake that its method has for it.
abbrev pub IsPlace : ℕ → ℕ → Type 0
IsPlace method position =
    (method ≡ 1) × (12 ≤ position) × (position + digest_length ≤ 771)
    ⊎ (method ≡ 2) × (776 ≤ position) × (position + digest_length ≤ 1535)

fits_first : (n : ℕ) → ltb 771 (n % 728 + 12 + 32) ≡ false
fits_first n = ground arith

fits_second : (n : ℕ) → ltb 1535 (n % 728 + 776 + 32) ≡ false
fits_second n = ground arith

-- In a handshake of full length each method finds a place, behind the four bytes that tell it and
-- with the whole digest inside the handshake: the checks of the place never fail.
pub calculate_digest_offset_lem :
    (handshake : List ℕ) (method : ℕ)
    → length handshake ≡ sig_size
    → (method ≡ 1) ⊎ (method ≡ 2)
    → (position : ℕ) × (calculate_digest_offset handshake method ≡ ok position)
      × IsPlace method position
unfolding calculate_digest_offset
calculate_digest_offset_lem h method e (inl m) = (
  sum (take 4 (drop 8 h)) % 728 + 12,
  rw m (rw (read_at_ok h 8 4 (omega arith)) (rw (fits_first (sum (take 4 (drop 8 h)))) refl)),
  inl (m, omega arith, omega arith),
)
calculate_digest_offset_lem h method e (inr m) = (
  sum (take 4 (drop 772 h)) % 728 + 776,
  rw m (rw (read_at_ok h 772 4 (omega arith)) (rw (fits_second (sum (take 4 (drop 772 h)))) refl)),
  inr (m, omega arith, omega arith),
)

-- What stands before a place is not touched.
window :
    (k n p : ℕ) (block more : List ℕ)
    → k + n ≤ p
    → p ≤ length block
    → take n (drop k (take p block ++ more)) ≡ take n (drop k block)
window zero zero p block more h l = refl
window zero (suc n) zero block more h l = absurd (omega arith)
window zero (suc n) (suc p) [] more h l = absurd (omega arith)
window zero (suc n) (suc p) (b ∷ block) more h l =
    ap (◌∷◌ b) (window zero n p block more (omega arith) (omega arith))
window (suc k) n zero block more h l = absurd (omega arith)
window (suc k) n (suc p) [] more h l = absurd (omega arith)
window (suc k) n (suc p) (b ∷ block) more h l = window k n p block more (omega arith) (omega arith)

module _ (hmac : List ℕ → List ℕ → List ℕ)
    (full : (key message : List ℕ) → length (hmac key message) ≡ digest_length) where
  abbrev digest_of : ℕ → List ℕ → List ℕ → List ℕ
  digest_of p h key =
      hmac key (take p h ++ take (sig_size - digest_length - p) (drop (p + digest_length) h))

  calculate_digest_ok :
      (p : ℕ) (h key : List ℕ)
      → length h ≡ sig_size
      → p + digest_length ≤ sig_size
      → calculate_digest hmac p h key ≡ ok (digest_of p h key)
  unfolding calculate_digest hmac_sha256
  calculate_digest_ok p h key e l = ground (
    arith,
    read_at_ok h 0 p,
    read_at_ok h (p + digest_length) (sig_size - digest_length - p),
    full key (take p h ++ take (sig_size - digest_length - p) (drop (p + digest_length) h)),
  )

  abbrev signed : ℕ → List ℕ → List ℕ → List ℕ
  signed p h key = take p h ++ (digest_of p h key ++ drop (p + digest_length) h)

  sign_ok :
      (p : ℕ) (h key : List ℕ)
      → length h ≡ sig_size
      → p + digest_length ≤ sig_size
      → sign hmac p h key ≡ ok (signed p h key)
  unfolding sign write_at
  sign_ok p h key e l = rw (calculate_digest_ok p h key e l) (
      rw (full key (take p h ++ take (sig_size - digest_length - p) (drop (p + digest_length) h)))
        (ground arith))

  -- The three parts of a signed handshake.
  signed_parts :
      (p : ℕ) (h key : List ℕ)
      → length h ≡ sig_size
      → p + digest_length ≤ sig_size
      → (take p (signed p h key) ≡ take p h)
        × (take digest_length (drop p (signed p h key)) ≡ digest_of p h key)
        × (drop (p + digest_length) (signed p h key) ≡ drop (p + digest_length) h)
        × (length (signed p h key) ≡ sig_size)
  signed_parts p h key e l =
      let d : List ℕ = digest_of p h key in
      let back : List ℕ = drop (p + digest_length) h in
      let front : length (take p h) ≡ p = omega (arith, length-take p h) in
      let size : length d ≡ digest_length =
        full key (take p h ++ take (sig_size - digest_length - p) back) in
      (
        take-append_self p (take p h) (d ++ back) (sym front),
        ap (take digest_length) (drop-append_self p (take p h) (d ++ back) (sym front))
            ∙ take-append_self digest_length d back (sym size),
        drop-append (p + digest_length) digest_length (take p h) (d ++ back) (omega arith)
            ∙ drop-append_self digest_length d back (sym size),
        omega (
          arith,
          length-append (take p h) (d ++ back),
          length-append d back,
          length-drop (p + digest_length) h,
        ),
      )

  verify_signed :
      (p : ℕ) (h key : List ℕ)
      → length h ≡ sig_size
      → p + digest_length ≤ sig_size
      → verify_digest hmac p (signed p h key) key ≡ ok true
  unfolding verify_digest
  verify_signed p h key e l =
      let (front, middle, back, size) = signed_parts p h key e l in
      let same_digest : digest_of p (signed p h key) key ≡ digest_of p h key =
        ap₂ (λ a b. hmac key (a ++ take (sig_size - digest_length - p) b)) front back in
      rw (calculate_digest_ok p (signed p h key) key size l) (
        rw (read_at_ok (signed p h key) p digest_length (omega arith))
          (ap ok (ap₂ same middle same_digest ∙ same_self (digest_of p h key))))

  -- The bytes that tell the place are before it.
  offset_signed :
      (p method : ℕ) (h key : List ℕ)
      → length h ≡ sig_size
      → IsPlace method p
      → calculate_digest_offset (signed p h key) method ≡ calculate_digest_offset h method
  unfolding calculate_digest_offset
  offset_signed p method h key e (inl (m, low, high)) =
      let (_, _, _, size) = signed_parts p h key e (omega arith) in
      let same_bytes : read_at (signed p h key) 8 4 ≡ read_at h 8 4 =
        read_at_ok (signed p h key) 8 4 (omega arith)
        ∙ (ap ok (
              window 8 4 p h (digest_of p h key ++ drop (p + digest_length) h) (omega arith)
                (omega arith))
            ∙ sym (read_at_ok h 8 4 (omega arith))) in
      rw m (rw same_bytes refl)
  offset_signed p method h key e (inr (m, low, high)) =
      let (_, _, _, size) = signed_parts p h key e (omega arith) in
      let same_bytes : read_at (signed p h key) 772 4 ≡ read_at h 772 4 =
        read_at_ok (signed p h key) 772 4 (omega arith)
        ∙ (ap ok (
              window 772 4 p h (digest_of p h key ++ drop (p + digest_length) h) (omega arith)
                (omega arith))
            ∙ sym (read_at_ok h 772 4 (omega arith))) in
      rw m (rw same_bytes refl)

  place_fits : (method p : ℕ) → IsPlace method p → p + digest_length ≤ sig_size
  place_fits method p (inl (m, low, high)) = omega arith
  place_fits method p (inr (m, low, high)) = omega arith

  -- A handshake of full length that is signed by either method: the signed one has the full length too,
  -- the method finds the same place in it, and the digest there is verified with the key. The HMAC has
  -- 32 bytes.
  pub verify_digest-sign :
      (handshake key : List ℕ) (method : ℕ)
      → length handshake ≡ sig_size
      → (method ≡ 1) ⊎ (method ≡ 2)
      → (position : ℕ) × (out : List ℕ) × (calculate_digest_offset handshake method ≡ ok position)
        × (sign hmac position handshake key ≡ ok out)
        × (length out ≡ sig_size)
        × (calculate_digest_offset out method ≡ ok position)
        × (verify_digest hmac position out key ≡ ok true)
  verify_digest-sign h key method e m =
      let (p, found, place) = calculate_digest_offset_lem h method e m in
      let l : p + digest_length ≤ sig_size = place_fits method p place in
      let (_, _, _, size) = signed_parts p h key e l in
      (
        p,
        signed p h key,
        found,
        sign_ok p h key e l,
        size,
        offset_signed p method h key e place ∙ found,
        verify_signed p h key e l,
      )
