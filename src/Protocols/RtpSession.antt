-- ===== src/Protocols/RtpSession.antt =====
-- server/src/protocols/ozRtpSession.cpp and ozRtpSession.h: what a receiver keeps of an RTP source.
-- The clock and the floating-point quotients are arguments; unsigned arithmetic wraps.
pub mod Sequence
pub mod Jitter
pub mod Loss
use ozonebase.Prelude.{
  ℕ, ◌+◌, ◌-◌, ◌*◌, ◌/◌, ◌%◌, ◌^◌, Bool, true, false, ◌||◌, List, ltb, leb, ◌==◌, if◌then◌else◌,
}

-- struct timeval.
pub record TimeVal : Type 0 where
  pub sec : ℕ
  pub usec : ℕ

pub record RtpSession : Type 0 where
  pub ssrc : ℕ
  pub cname : List ℕ
  pub max_seq : ℕ
  pub cycles : ℕ
  pub base_seq : ℕ
  pub bad_seq : ℕ
  pub probation : ℕ
  pub received_packets : ℕ
  pub expected_prior : ℕ
  pub received_prior : ℕ
  pub transit : ℕ
  pub jitter_sum : ℕ
  pub rtp_clock : ℕ
  pub rtp_factor : ℕ
  pub base_time_real : TimeVal
  pub base_time_ntp : TimeVal
  pub base_time_rtp : ℕ
  pub last_sr_ntp_secs : ℕ
  pub last_sr_ntp_frac : ℕ
  pub last_sr_ntp : TimeVal
  pub last_sr_rtp : ℕ
  pub expected_packets : ℕ
  pub lost_packets : ℕ
  pub lost_fraction : ℕ

abbrev pub rtp_seq_mod : ℕ
rtp_seq_mod = 2 ^ 16

abbrev pub max_dropout : ℕ
max_dropout = 3000

abbrev pub max_misorder : ℕ
max_misorder = 100

abbrev pub min_sequential : ℕ
min_sequential = 2

abbrev pub u32 : ℕ
u32 = 2 ^ 32

-- `mReceivedPackets` and `mReceivedPrior` keep what they held.
pub init : RtpSession → ℕ → RtpSession
init s seq = record s {
  base_seq = seq;
  max_seq = seq;
  bad_seq = rtp_seq_mod + 1;
  cycles = 0;
  expected_prior = 0;
  jitter_sum = 0;
  transit = 0;
}

-- The constructor: `raw` is the memory that it is given, of which it leaves the counters of
-- received packets, the factor and the statistics as they are.
pub construct : RtpSession → ℕ → List ℕ → TimeVal → RtpSession
construct raw ssrc cname now = record (init raw 0) {
  ssrc = ssrc;
  cname = cname;
  rtp_clock = 0;
  max_seq = rtp_seq_mod - 1;
  probation = min_sequential;
  base_time_real = now;
  base_time_ntp = record { sec = 0; usec = 0 };
  base_time_rtp = 0;
  last_sr_ntp = record { sec = 0; usec = 0 };
  last_sr_rtp = 0;
}

-- uint16_t seq - mMaxSeq.
abbrev pub seq_delta : RtpSession → ℕ → ℕ
seq_delta s seq = (seq + rtp_seq_mod - s.max_seq) % rtp_seq_mod

pub count_packet : RtpSession → RtpSession
count_packet s = record s { received_packets = (s.received_packets + 1) % u32 }

-- The branch for a source that is not valid yet. The comparison is one of ints: 65536 is no uint16_t.
pub probe_seq : RtpSession → ℕ → Bool × RtpSession
unfolding init count_packet
probe_seq s seq =
    if seq == s.max_seq + 1
    then (if s.probation == 1
        then (true, count_packet (init (record s { probation = 0; max_seq = seq }) seq))
        else (true, record s { probation = s.probation - 1; max_seq = seq }))
    else (false, record s { probation = min_sequential - 1; max_seq = seq })

pub update_seq : RtpSession → ℕ → Bool × RtpSession
unfolding probe_seq
update_seq s seq =
    if ltb 0 s.probation
    then probe_seq s seq
    else if ltb (seq_delta s seq) max_dropout
    then (
      seq_delta s seq == 1,
      count_packet (record s {
        cycles = if ltb seq s.max_seq then (s.cycles + rtp_seq_mod) % u32 else s.cycles;
        max_seq = seq;
      }),
    )
    else if leb (seq_delta s seq) (rtp_seq_mod - max_misorder)
    then (if seq == s.bad_seq
        then (seq_delta s seq == 1, count_packet (init s seq))
        else (false, record s { bad_seq = (seq + 1) % rtp_seq_mod }))
    else (false, s)

-- `maxSeq`: the highest sequence number extended by the cycles.
unfoldable pub extended_max : RtpSession → ℕ
extended_max s = (s.cycles + s.max_seq) % u32

-- `elapsed` is uint32_t( tvDiffSec( mBaseTimeReal ) * mRtpFactor ), and `timestamp` that of the
-- packet's header in host order.
pub update_jitter : RtpSession → ℕ → ℕ → RtpSession
update_jitter s elapsed timestamp =
    let packet_transit : ℕ = ((s.base_time_rtp + elapsed) % u32 + u32 - timestamp) % u32 in
    let diff : ℕ = (packet_transit + u32 - s.transit) % u32 in
    let d : ℕ = if ltb diff (2 ^ 31) then diff else u32 - diff in
    if ltb 0 s.rtp_factor
    then record s {
      transit = packet_transit;
      jitter_sum =
          if ltb 0 s.transit
          then (s.jitter_sum + (d + u32 - (s.jitter_sum + 8) % u32 / 16) % u32) % u32
          else s.jitter_sum;
    }
    else record s { jitter_sum = 0 }

-- The microseconds of a sender report's time: the product is one of 32 bits.
pub ntp_usec : ℕ → ℕ
ntp_usec frac = 1000000 * (frac / 2 ^ 16) % u32 / 2 ^ 16

-- `factor` is the quotient of the RTP ticks and the seconds between two NTP times, as a uint32_t.
pub update_rtcp_data : (ℕ → TimeVal → TimeVal → ℕ) → TimeVal → RtpSession → ℕ → ℕ → ℕ → RtpSession
update_rtcp_data factor now s secs frac rtp_time = record (based) {
  last_sr_ntp_secs = secs;
  last_sr_ntp_frac = frac;
  last_sr_ntp = ntp_time;
  last_sr_rtp = rtp_time;
}
  where
    ntp_time : TimeVal
    ntp_time = record { sec = secs; usec = ntp_usec frac }

    based : RtpSession
    based =
        if s.base_time_ntp.sec == 0
        then record s { base_time_real = now; base_time_ntp = ntp_time; base_time_rtp = rtp_time }
        else if s.rtp_clock == 0
        then record s {
          rtp_factor = factor ((rtp_time + u32 - s.base_time_rtp) % u32) s.base_time_ntp ntp_time;
        }
        else s

-- The fraction lost of the packets expected since the last report. The counts are unsigned, so
-- that `lostInterval <= 0` holds at 0 alone, and the result is a uint8_t.
pub fraction_of : ℕ → ℕ → ℕ
fraction_of expected_interval received_interval =
    let lost_interval : ℕ = (expected_interval + u32 - received_interval) % u32 in
    if expected_interval == 0 || lost_interval == 0
    then 0
    else lost_interval * 2 ^ 8 % u32 / expected_interval % 2 ^ 8

pub update_rtcp_stats : RtpSession → RtpSession
update_rtcp_stats s =
    let expected : ℕ = (extended_max s + u32 - s.base_seq + 1) % u32 in
    let expected_interval : ℕ = (expected + u32 - s.expected_prior) % u32 in
    let received_interval : ℕ = (s.received_packets + u32 - s.received_prior) % u32 in
    record s {
      expected_packets = expected;
      lost_packets = (expected + u32 - s.received_packets) % u32;
      expected_prior = expected;
      received_prior = s.received_packets;
      lost_fraction = fraction_of expected_interval received_interval;
    }

-- `jitter` and `lastSrTimestamp`, as the reports give them.
unfoldable pub jitter : RtpSession → ℕ
jitter s = s.jitter_sum / 16

unfoldable pub last_sr_timestamp : RtpSession → ℕ
last_sr_timestamp s = s.last_sr_ntp_secs % 2 ^ 16 * 2 ^ 16 + s.last_sr_ntp_frac / 2 ^ 16
