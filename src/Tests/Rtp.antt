-- ===== src/Tests/Rtp.antt =====
-- A receiver of RTP packets at work.
use ozonebase.Prelude.{◌+◌, ◌%◌, ◌≡◌, refl, [], ◌∷◌, arith}
use ozonebase.Protocols.RtpSession.{
  RtpSession, TimeVal, rtp_seq_mod, u32, update_seq, extended_max, update_rtcp_stats,
}
use ozonebase.Protocols.RtpSession.Sequence.{IsValid, update_seq-IsValid, extended_max-update_seq}
use ozonebase.Protocols.RtpSession.Loss.{receive_all, skipped, sum, lost_packets-receive_all}

abbrev pub no_time : TimeVal
no_time = record { sec = 0; usec = 0 }

-- A valid source just below the wrap of its sequence numbers.
abbrev pub near_wrap : RtpSession
near_wrap = record {
  ssrc = 77;
  cname = [];
  max_seq = 65534;
  cycles = 65536;
  base_seq = 10;
  bad_seq = 65537;
  probation = 0;
  received_packets = 131061;
  expected_prior = 131051;
  received_prior = 131056;
  transit = 1000;
  jitter_sum = 32;
  rtp_clock = 0;
  rtp_factor = 90000;
  base_time_real = no_time;
  base_time_ntp = no_time;
  base_time_rtp = 5000;
  last_sr_ntp_secs = 0;
  last_sr_ntp_frac = 0;
  last_sr_ntp = no_time;
  last_sr_rtp = 0;
  expected_packets = 0;
  lost_packets = 0;
  lost_fraction = 0;
}

near_wrap-IsValid : IsValid near_wrap
near_wrap-IsValid = omega arith

update_seq-IsValid_example : IsValid (update_seq near_wrap 3).1
update_seq-IsValid_example = update_seq-IsValid near_wrap 3 near_wrap-IsValid (omega arith)

extended_max-update_seq_example :
    (extended_max (update_seq near_wrap (131075 % rtp_seq_mod)).1 ≡ 131075)
    × ((update_seq near_wrap (131075 % rtp_seq_mod)).1.received_packets ≡ (131061 + 1) % u32)
extended_max-update_seq_example =
    extended_max-update_seq near_wrap 131075 near_wrap-IsValid refl (omega arith) (omega arith)
      (omega arith)

lost_packets-receive_all_example :
    let t = update_rtcp_stats (receive_all near_wrap (65536 + 65534) (1 ∷ 4 ∷ 1 ∷ [])) in
    (t.lost_packets ≡ skipped (1 ∷ 4 ∷ 1 ∷ []))
    × (t.expected_packets ≡ near_wrap.received_packets + sum (1 ∷ 4 ∷ 1 ∷ []))
lost_packets-receive_all_example =
    lost_packets-receive_all near_wrap (1 ∷ 4 ∷ 1 ∷ []) near_wrap-IsValid refl refl (omega arith)
      (omega arith)
