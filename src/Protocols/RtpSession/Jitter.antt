-- ===== src/Protocols/RtpSession/Jitter.antt =====
-- The interarrival jitter estimate.
use ozonebase.Prelude.{ℕ, ◌+◌, ◌-◌, ◌*◌, ◌%◌, ◌^◌, ◌≤◌, ◌<◌, arith, ltb, if◌then◌else◌}
use ozonebase.Protocols.RtpSession.{RtpSession, u32, update_jitter, jitter}

-- The transit time of a packet that arrives at `elapsed` ticks with `timestamp`.
abbrev pub packet_transit : RtpSession → ℕ → ℕ → ℕ
packet_transit s elapsed timestamp = ((s.base_time_rtp + elapsed) % u32 + u32 - timestamp) % u32

-- How far apart two transit times are, in 32-bit arithmetic.
abbrev pub apart : ℕ → ℕ → ℕ
apart a b = let diff : ℕ = (a + u32 - b) % u32 in if ltb diff (2 ^ 31) then diff else u32 - diff

-- With a known factor, and a transit time that differs from the last one by at most a bound
-- below 2^26, a scaled jitter sum of at most 16 times the bound and 7 stays so, and the reported
-- jitter does not exceed the bound.
pub jitter-update_jitter :
    (s : RtpSession) (elapsed timestamp most : ℕ)
    → s.jitter_sum ≤ 16 * most + 7
    → 0 < s.rtp_factor
    → most < 2 ^ 26
    → timestamp < u32
    → s.transit < u32
    → apart (packet_transit s elapsed timestamp) s.transit ≤ most
    → (jitter (update_jitter s elapsed timestamp) ≤ most)
      × ((update_jitter s elapsed timestamp).jitter_sum ≤ 16 * most + 7)
unfolding update_jitter jitter
jitter-update_jitter s elapsed timestamp most h f m t tr a = ground arith
