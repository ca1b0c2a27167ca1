-- ===== src/Protocols/RtpCtrl/Sdes.antt =====
-- Source descriptions of server/src/protocols/ozRtpCtrl.cpp: what is sent is taken, and which ones
-- the loop over their items never leaves.
use ozonebase.Prelude.{
  ℕ, zero, suc, ◌+◌, ◌-◌, ◌*◌, ◌%◌, ◌^◌, ◌<◌, ◌≡◌, ◌≢◌, refl, Bool, true, not, ◌&&◌, ◌==◌, some,
  List, ◌∷◌, ◌++◌, arith, length, length-append,
}
use ozonebase.Libgen.Outcome.{ok, spent}
use ozonebase.Libgen.Bytes.{to_be, read_be}
use ozonebase.Libgen.Buffer.Room.{read_at-ok}
use ozonebase.Protocols.RtpSession.{RtpSession}
use ozonebase.Protocols.RtpCtrl.{
  RtpCtrl, Context, sdes_packet, sdes_items, sdes_loop, recv_packet, read_u32, read_u8, word_len,
  padded_len, rtcp_sdes,
}

-- Whether the session has no number or this one.
abbrev pub knows : RtpCtrl → ℕ → Bool
knows r ssrc = not (not (r.session.ssrc == 0) && not (ssrc == r.session.ssrc))

sdes_loop-stuck :
    (fuel : ℕ) (r : RtpCtrl) (a b c d ssrc content : ℕ) (rest : List ℕ)
    → ssrc < 2 ^ 32
    → knows r ssrc ≡ true
    → content ≢ 0
    → sdes_loop fuel r (a ∷ b ∷ c ∷ d ∷ (to_be 4 ssrc ++ rest)) 0 content ≡ spent
unfolding sdes_loop sdes_items read_u32 read_be to_be
sdes_loop-stuck zero r a b c d ssrc content rest h k n = refl
sdes_loop-stuck (suc fuel) r a b c d ssrc content rest h k n =
    ground (arith, sdes_loop-stuck fuel r a b c d ssrc content rest h k n)

-- A source description of more than 4 bytes with a count of 0, of a source that the session may
-- have, is never left: no fuel is enough for it.
pub recv_packet-stuck :
    (fuel : ℕ) (x : Context) (r : RtpCtrl) (bits l1 l0 ssrc packet_len : ℕ) (rest : List ℕ)
    → bits % 32 ≡ 0
    → ssrc < 2 ^ 32
    → knows r ssrc ≡ true
    → 4 < packet_len
    → packet_len < 2 ^ 63
    → recv_packet fuel x r (bits ∷ rtcp_sdes ∷ l1 ∷ l0 ∷ (to_be 4 ssrc ++ rest)) packet_len ≡ spent
unfolding recv_packet read_u8 read_be
recv_packet-stuck fuel x r bits l1 l0 ssrc packet_len rest z h k l m =
    let n : (packet_len + 2 ^ 64 - 4) % 2 ^ 64 ≢ 0 = λ e. omega (arith, e) in
    ground (
      arith,
      sdes_loop-stuck fuel r bits rtcp_sdes l1 l0 ssrc ((packet_len + 2 ^ 64 - 4) % 2 ^ 64) rest h k
          n,
    )

-- The one item of the description that is sent, read at its place.
sdes_items-own :
    (s : RtpSession) (rest : List ℕ) (content : ℕ)
    → length s.cname < 256
    → sdes_items (sdes_packet s ++ rest) 8 1 content
      ≡ ok (some ((content + 2 ^ 64 - padded_len (length s.cname)) % 2 ^ 64))
unfolding sdes_items sdes_packet read_u8 read_be to_be
sdes_items-own s rest content h =
    ground
      (arith, length-append s.cname rest, read_at-ok (sdes_packet s ++ rest) 10 (length s.cname))

-- A receiver of the same session, with a source number below 2^32, takes the source description
-- that generateSdes wrote, as its whole length and without a change, when the name has less than
-- 256 bytes and not 2 more than a multiple of 4.
pub recv_packet-sdes_packet :
    (fuel : ℕ) (x : Context) (r : RtpCtrl) (rest : List ℕ)
    → r.session.ssrc < 2 ^ 32
    → length r.session.cname < 256
    → length r.session.cname % 4 ≢ 2
    → let n = word_len (10 + length r.session.cname) * 4 in
      recv_packet (suc (suc fuel)) x r (sdes_packet r.session ++ rest) n ≡ ok (some n, r)
unfolding recv_packet sdes_loop sdes_packet read_u32 read_u8 read_be to_be word_len padded_len
recv_packet-sdes_packet fuel x r rest s h l =
    let n : ℕ = word_len (10 + length r.session.cname) * 4 in
    ground (arith, sdes_items-own r.session rest ((n + 2 ^ 64 - 4) % 2 ^ 64))
