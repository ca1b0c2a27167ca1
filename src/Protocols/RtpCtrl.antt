-- ===== src/Protocols/RtpCtrl.antt =====
-- server/src/protocols/ozRtpCtrl.cpp: the RTCP packets that a receiver reads and sends, on a
-- little-endian machine, which fixes the order of bit fields. The overlay RtcpPacket is reads at
-- its offsets; `memory` is the bytes from the pointer on, and a read past them is a fault.
pub mod Report
pub mod Sdes
pub mod Reply
use ozonebase.Prelude.{
  ℕ, zero, suc, ◌+◌, ◌-◌, ◌*◌, ◌/◌, ◌%◌, ◌^◌, Bool, true, false, not, ◌&&◌, Option, none, some,
  List, [], ◌∷◌, ◌++◌, ltb, leb, ◌==◌, if◌then◌else◌, length, take, drop,
}
use ozonebase.Libgen.Outcome.{Outcome, ok, fault, spent, ◌>>=◌}
use ozonebase.Libgen.Bytes.{to_be, read_be, split_bytes}
use ozonebase.Libgen.Buffer.{write_at, read_at}
use ozonebase.Protocols.RtpSession.{
  RtpSession, TimeVal, extended_max, jitter, last_sr_timestamp, update_rtcp_data, update_rtcp_stats,
}

abbrev pub rtcp_sr : ℕ
rtcp_sr = 200

abbrev pub rtcp_rr : ℕ
rtcp_rr = 201

abbrev pub rtcp_sdes : ℕ
rtcp_sdes = 202

abbrev pub rtcp_bye : ℕ
rtcp_bye = 203

abbrev pub rtcp_sdes_cname : ℕ
rtcp_sdes_cname = 1

-- The manager with what it reaches: the session, and of the stream its own and its source's number
-- and whether it was told to stop.
pub record RtpCtrl : Type 0 where
  pub session : RtpSession
  pub ssrc : ℕ
  pub ssrc1 : ℕ
  pub stopped : Bool
  pub packet_queue : List (List ℕ)

-- `RtspStream::updateSsrc`.
pub update_ssrc : RtpCtrl → ℕ → Bool × RtpCtrl
update_ssrc r ssrc =
    if not (r.ssrc1 == 0)
    then (ssrc == r.ssrc1, r)
    else if not (ssrc == 0)
    then (true, record r { ssrc1 = ssrc })
    else (true, r)

-- ntohl of the word at an offset, and a byte.
unfoldable pub read_u32 : List ℕ → ℕ → Outcome ℕ
read_u32 memory at = read_be 4 0 (drop at memory) >>= λ r. ok (r.0)

unfoldable pub read_u8 : List ℕ → ℕ → Outcome ℕ
read_u8 memory at = read_be 1 0 (drop at memory) >>= λ r. ok (r.0)

-- The common header with version 2, no padding and a count of 1.
abbrev pub header : ℕ → ℕ → List ℕ
header pt words = 129 ∷ pt ∷ to_be 2 (words - 1)

-- The words that a number of bytes takes.
unfoldable pub word_len : ℕ → ℕ
word_len byte_len = (byte_len - 1) / 4 + 1

-- A reception report block: the bit fields `lost:24` and `fraction:8` in one little-endian word.
pub report_block : RtpSession → List ℕ
report_block s =
    to_be 4 s.ssrc
    ++ (s.lost_packets % 256
        ∷ s.lost_packets / 256 % 256
        ∷ s.lost_packets / 65536 % 256
        ∷ s.lost_fraction % 256
        ∷ (to_be 4 (extended_max s)
            ++ (to_be 4 (jitter s) ++ (to_be 4 (last_sr_timestamp s) ++ to_be 4 0))))

pub rr_packet : RtpCtrl → List ℕ
rr_packet r = header rtcp_rr 8 ++ (to_be 4 r.ssrc ++ report_block r.session)

-- `generateRr` at an offset of a buffer: its length, the buffer and the session.
pub generate_rr : RtpCtrl → List ℕ → ℕ → Outcome (ℕ × (List ℕ × RtpCtrl))
generate_rr r buffer at =
    let r' = record r { session = update_rtcp_stats r.session } in
    write_at buffer at (rr_packet r') >>= λ buffer'. ok (word_len 32 * 4, (buffer', r'))

-- The bytes that `generateSdes` writes; the length is rounded up to words and no bytes fill it.
pub sdes_packet : RtpSession → List ℕ
sdes_packet s =
    header rtcp_sdes (word_len (10 + length s.cname))
    ++ (to_be 4 s.ssrc ++ (rtcp_sdes_cname ∷ length s.cname % 256 ∷ s.cname))

pub generate_sdes : RtpSession → List ℕ → ℕ → Outcome (ℕ × List ℕ)
generate_sdes s buffer at = write_at buffer at (sdes_packet s) >>= λ buffer'.
    ok (word_len (10 + length s.cname) * 4, buffer')

-- `generateBye`: the source stands behind a word that keeps what the buffer held.
pub generate_bye : RtpSession → List ℕ → ℕ → Outcome (ℕ × List ℕ)
generate_bye s buffer at = write_at buffer at (header rtcp_bye (word_len 12)) >>= λ headed.
    write_at headed (at + 8) (to_be 4 s.ssrc) >>= λ buffer'. ok (word_len 12 * 4, buffer')

-- The answer to a sender report: 256 bytes of stack, whose contents come with the call.
pub reply : RtpCtrl → List ℕ → Outcome RtpCtrl
reply r stack = generate_rr r stack 0 >>= λ rr.
    generate_sdes rr.1.1.session (rr.1.0) (rr.0) >>= λ sdes.
    read_at sdes.1 0 (rr.0 + sdes.0) >>= λ packet.
    ok (record (rr.1.1) { packet_queue = r.packet_queue ++ (packet ∷ []) })

-- The length of an SDES item with the word before it, rounded up; 4 + 2 + item->len + 1.
unfoldable pub padded_len : ℕ → ℕ
padded_len len = ((4 + 2 + len + 1 - 1) / 4 + 1) * 4

-- One pass over `count` items from an offset on: none for an item that is no name, else the length
-- that is left, a 64-bit ssize_t.
unfoldable pub sdes_items : List ℕ → ℕ → ℕ → ℕ → Outcome (Option ℕ)
sdes_items memory at zero content = ok (some content)
sdes_items memory at (suc count) content = read_u8 memory at >>= λ type.
    read_u8 memory (at + 1) >>= λ len.
    let left : ℕ = (content + 2 ^ 64 - padded_len len) % 2 ^ 64 in
    let rest =
      read_at memory (at + 2) len >>= λ cname. sdes_items memory (at + padded_len len) count left in
    if type == rtcp_sdes_cname then rest else ok none

-- `while ( contentLen )`, on fuel: every pass starts at the first item again.
unfoldable pub sdes_loop : ℕ → RtpCtrl → List ℕ → ℕ → ℕ → Outcome Bool
sdes_loop zero r memory count content = spent
sdes_loop (suc fuel) r memory count content =
    let pass : Outcome Bool = sdes_items memory 8 count content >>= λ left. elim left [
      | none ↦ ok false
      | some content' ↦ sdes_loop fuel r memory count content'
    ] in
    if content == 0
    then ok true
    else read_u32 memory 4 >>= λ ssrc.
        (if not (r.session.ssrc == 0) && not (ssrc == r.session.ssrc) then ok false else pass)

-- What the packets' times are taken with: the quotient of `updateRtcpData`, its clock, and the stack.
pub record Context : Type 0 where
  pub factor : ℕ → TimeVal → TimeVal → ℕ
  pub now : TimeVal
  pub stack : List ℕ

-- The times of a sender report, of which uint16_t variables keep the lower halves.
pub take_times : Context → RtpCtrl → List ℕ → Outcome RtpCtrl
take_times x r memory = read_u32 memory 8 >>= λ secs. read_u32 memory 12 >>= λ frac.
    read_u32 memory 16 >>= λ rtp_time. ok (record r {
      session = update_rtcp_data x.factor x.now r.session (secs % 2 ^ 16) (frac % 2 ^ 16) rtp_time;
    })

-- A sender report: none where its source is not the one known.
pub recv_sr : Context → RtpCtrl → List ℕ → ℕ → Outcome (Bool × RtpCtrl)
recv_sr x r memory len = read_u32 memory 4 >>= λ ssrc.
    let (known, r') = update_ssrc r ssrc in
    let answered = (if ltb 1 len then take_times x r' memory else ok r') >>= λ timed.
    reply timed x.stack >>= λ replied. ok (true, replied) in
    if known then answered else ok (false, r')

-- `recvPacket`: the bytes consumed, none for -1. Of the manager only the session counts in a
-- source description.
pub recv_packet : ℕ → Context → RtpCtrl → List ℕ → ℕ → Outcome (Option ℕ × RtpCtrl)
recv_packet fuel x r memory packet_len = read_u8 memory 0 >>= λ bits. read_u8 memory 1 >>= λ pt.
    read_be 2 0 (drop 2 memory) >>= λ l.
    let consumed : Bool → Option ℕ = λ good. if good then some (4 * (l.0 + 1)) else none in
    let report = recv_sr x r memory (l.0) >>= λ a. ok (consumed (a.0), a.1) in
    let content : ℕ = (packet_len + 2 ^ 64 - 4) % 2 ^ 64 in
    let description =
      sdes_loop fuel r memory (bits % 32) content >>= λ good. ok (consumed good, r) in
    if pt == rtcp_sr
    then report
    else if pt == rtcp_sdes
    then description
    else if pt == rtcp_bye
    then ok (consumed true, record r { stopped = true })
    else ok (none, r)

-- `recvPackets`, on fuel: the bytes that are left, or how far the last packet claims to go beyond
-- them, where the int is negative; the loop ends there too.
pub recv_packets : ℕ → ℕ → Context → RtpCtrl → List ℕ → ℕ → Outcome ((ℕ × ℕ) × RtpCtrl)
recv_packets zero sdes_fuel x r memory n_bytes = spent
recv_packets (suc fuel) sdes_fuel x r memory n_bytes =
    let step : Outcome ((ℕ × ℕ) × RtpCtrl) = recv_packet sdes_fuel x r memory n_bytes >>= λ p.
    elim (p.0) [
      | none ↦ ok ((n_bytes, 0), p.1)
      | some k ↦
          let rest = recv_packets fuel sdes_fuel x (p.1) (drop k memory) (n_bytes - k) in
          if ltb n_bytes k then ok ((0, k - n_bytes), p.1) else rest
    ] in
    if n_bytes == 0 then ok ((0, 0), r) else step
