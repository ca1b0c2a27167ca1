-- ===== src/Protocols/RtmpConnection/Digest.antt =====
-- server/src/protocols/ozRtmpConnection.cpp: where the digest of a handshake stands, and how it is made
-- and checked. HMAC-SHA256, which OpenSSL computes, is a parameter: the digest of a message by a key.
use ozonebase.Prelude.{
  ℕ, ◌+◌, ◌-◌, ◌%◌, Bool, List, [], ◌∷◌, ◌++◌, ltb, ◌==◌, if◌then◌else◌, length,
}
use ozonebase.Libgen.Outcome.{Outcome, ok, panic, fault, ◌>>=◌}
use ozonebase.Libgen.Buffer.{write_at, read_at}
use ozonebase.Libgen.Text.{same, codes}

abbrev pub sig_size : ℕ
sig_size = 1536

abbrev pub digest_length : ℕ
digest_length = 32

abbrev key_tail : List ℕ
key_tail =
    0xf0 ∷ 0xee ∷ 0xc2 ∷ 0x4a ∷ 0x80 ∷ 0x68 ∷ 0xbe ∷ 0xe8 ∷ 0x2e ∷ 0x00 ∷ 0xd0 ∷ 0xd1 ∷ 0x02 ∷ 0x9e
    ∷ 0x7e ∷ 0x57 ∷ 0x6e ∷ 0xec ∷ 0x5d ∷ 0x2d ∷ 0x29 ∷ 0x80 ∷ 0x6f ∷ 0xab ∷ 0x93 ∷ 0xb8 ∷ 0xe6
    ∷ 0x36 ∷ 0xcf ∷ 0xeb ∷ 0x31 ∷ 0xae ∷ []

unfoldable pub genuine_fms_key : List ℕ
genuine_fms_key = codes "Genuine Adobe Flash Media Server 001" ++ key_tail

unfoldable pub genuine_fp_key : List ℕ
genuine_fp_key = codes "Genuine Adobe Flash Player 001" ++ key_tail

abbrev pub sum : List ℕ → ℕ
sum [] = 0
sum (b ∷ bytes) = b + sum bytes

-- `calculateDigestOffset`, by the method's number.
unfoldable pub calculate_digest_offset : List ℕ → ℕ → Outcome ℕ
calculate_digest_offset handshake method =
    if method == 1
    then (read_at handshake 8 4 >>= λ bytes.
        if ltb 771 (sum bytes % 728 + 12 + 32) then panic else ok (sum bytes % 728 + 12))
    else if method == 2
    then (read_at handshake 772 4 >>= λ bytes.
        if ltb 1535 (sum bytes % 728 + 776 + 32) then panic else ok (sum bytes % 728 + 776))
    else panic

module _ (hmac : List ℕ → List ℕ → List ℕ) where
  -- `HMACsha256`.
  unfoldable pub hmac_sha256 : List ℕ → List ℕ → Outcome (List ℕ)
  hmac_sha256 message key =
      if length (hmac key message) == digest_length then ok (hmac key message) else panic

  -- The digest of all but the place where it stands.
  unfoldable pub calculate_digest : ℕ → List ℕ → List ℕ → Outcome (List ℕ)
  calculate_digest position handshake key =
      if ltb (sig_size - digest_length) position
      then fault
      else (read_at handshake 0 position >>= λ front.
          read_at handshake (position + digest_length) (sig_size - digest_length - position)
          >>= λ back. hmac_sha256 (front ++ back) key)

  unfoldable pub verify_digest : ℕ → List ℕ → List ℕ → Outcome Bool
  verify_digest position handshake key = calculate_digest position handshake key >>= λ digest.
      read_at handshake position digest_length >>= λ found. ok (same found digest)

  -- `calculateDigest` into the handshake itself.
  unfoldable pub sign : ℕ → List ℕ → List ℕ → Outcome (List ℕ)
  sign position handshake key =
      calculate_digest position handshake key >>= λ digest. write_at handshake position digest
