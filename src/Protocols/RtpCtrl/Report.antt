-- ===== src/Protocols/RtpCtrl/Report.antt =====
-- The receiver report of server/src/protocols/ozRtpCtrl.cpp as a reader of RFC 3550 takes it.
use ozonebase.Prelude.{ℕ, ◌+◌, ◌*◌, ◌/◌, ◌%◌, ◌^◌, ◌<◌, ◌≡◌, List, arith, drop}
use ozonebase.Libgen.Outcome.{Outcome, ok, ◌>>=◌}
use ozonebase.Libgen.Bytes.{to_be, read_be}
use ozonebase.Protocols.RtpSession.{extended_max, jitter, last_sr_timestamp}
use ozonebase.Protocols.RtpCtrl.{RtpCtrl, rr_packet, report_block, read_u32, read_u8}

-- What RFC 3550 puts at the offsets of a report with one block.
pub record Report : Type 0 where
  pub receiver : ℕ
  pub source : ℕ
  pub fraction : ℕ
  pub lost : ℕ
  pub highest : ℕ
  pub jitter_of : ℕ
  pub last_sr : ℕ

-- The first of the four bytes of the loss is the fraction, the others are the number.
unfoldable pub read_report : List ℕ → Outcome Report
read_report bytes = read_u32 bytes 4 >>= λ a. read_u32 bytes 8 >>= λ b. read_u8 bytes 12 >>= λ c.
    read_be 3 0 (drop 13 bytes) >>= λ d. read_u32 bytes 16 >>= λ e. read_u32 bytes 20 >>= λ f.
    read_u32 bytes 24 >>= λ g. ok (record {
      receiver = a;
      source = b;
      fraction = c;
      lost = d.0;
      highest = e;
      jitter_of = f;
      last_sr = g;
    })

word-to_be :
    (x : ℕ)
    → x < 2 ^ 32
    → (((0 * 256 + x / 256 ^ 3 % 256) * 256 + x / 256 ^ 2 % 256) * 256 + x / 256 ^ 1 % 256) * 256
        + x / 256 ^ 0 % 256
      ≡ x
word-to_be x h = omega arith

-- A receiver report gives the numbers of the receiver and the source, the highest sequence
-- number, the jitter and the last sender report as the session has them, where they are below
-- 2^32; but the bytes of the loss are in the order of a little-endian bit field: the lowest byte
-- of the lost packets stands where the fraction is, and the fraction in the lowest byte of the
-- lost packets.
pub read_report-rr_packet :
    (r : RtpCtrl)
    → r.ssrc < 2 ^ 32
    → r.session.ssrc < 2 ^ 32
    → extended_max r.session < 2 ^ 32
    → jitter r.session < 2 ^ 32
    → last_sr_timestamp r.session < 2 ^ 32
    → read_report (rr_packet r)
      ≡ ok (record {
        receiver = r.ssrc;
        source = r.session.ssrc;
        fraction = r.session.lost_packets % 256;
        lost =
            (r.session.lost_packets / 256 % 256 * 256 + r.session.lost_packets / 65536 % 256) * 256
            + r.session.lost_fraction % 256;
        highest = extended_max r.session;
        jitter_of = jitter r.session;
        last_sr = last_sr_timestamp r.session;
      })
unfolding read_report rr_packet report_block read_u32 read_u8 read_be to_be
read_report-rr_packet r a b c d e = ground (
  arith,
  word-to_be r.ssrc a,
  word-to_be r.session.ssrc b,
  word-to_be (extended_max r.session) c,
  word-to_be (jitter r.session) d,
  word-to_be (last_sr_timestamp r.session) e,
)
