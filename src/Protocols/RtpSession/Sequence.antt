-- ===== src/Protocols/RtpSession/Sequence.antt =====
-- Sequence numbers: validation, the extended maximum, resynchronisation.
use ozonebase.Prelude.{ℕ, ◌+◌, ◌-◌, ◌%◌, ◌≤◌, ◌<◌, ◌≡◌, ◌≢◌, false, arith}
use ozonebase.Protocols.RtpSession.{
  RtpSession, rtp_seq_mod, max_dropout, min_sequential, max_misorder, u32, init, update_seq,
  seq_delta, extended_max, count_packet,
}

-- What holds of the sequence state at all times.
pub record IsValid (s : RtpSession) : Type 0 where
  pub max_in : s.max_seq < rtp_seq_mod
  pub cycles_in : s.cycles < u32
  pub cycles_whole : s.cycles % rtp_seq_mod ≡ 0
  pub bad_in : s.bad_seq ≤ rtp_seq_mod + 1
  pub on_probation : s.probation ≤ min_sequential
  pub received_in : s.received_packets < u32
  pub base_in : s.base_seq < rtp_seq_mod

-- `updateSeq` keeps the sequence state well formed on every branch: the cycle count stays a multiple
-- of 65536, and every field stays in its range.
pub update_seq-IsValid :
    (s : RtpSession) (seq : ℕ) → IsValid s → seq < rtp_seq_mod → IsValid (update_seq s seq).1
unfolding update_seq
update_seq-IsValid s seq v h = ground arith

-- Of a valid source that is not on probation, a packet whose true number is below 2^32 and at or
-- ahead of the highest one, by less than the permitted gap of 3000, moves the extended maximum to
-- exactly that number, over the wrap of the 16-bit number too, and is counted.
pub extended_max-update_seq :
    (s : RtpSession) (number : ℕ)
    → IsValid s
    → s.probation ≡ 0
    → s.cycles + s.max_seq ≤ number
    → number < s.cycles + s.max_seq + max_dropout
    → number < u32
    → (extended_max (update_seq s (number % rtp_seq_mod)).1 ≡ number)
      × ((update_seq s (number % rtp_seq_mod)).1.received_packets ≡ (s.received_packets + 1) % u32)
unfolding update_seq extended_max
extended_max-update_seq s number v p lo hi top = ground arith

-- Of a valid source, a packet that is 1 to 99 behind the highest one is refused and changes
-- nothing at all.
pub update_seq-stale :
    (s : RtpSession) (back : ℕ)
    → IsValid s
    → s.probation ≡ 0
    → 0 < back
    → back < max_misorder
    → update_seq s ((s.max_seq + rtp_seq_mod - back) % rtp_seq_mod) ≡ (false, s)
unfolding update_seq
update_seq-stale s back v p lo hi = ground arith

-- Of a valid source, two packets with successive numbers that both jump far from the highest
-- one, the first of them not announced by an earlier jump and below 65535, make the source start
-- over at the second number; the first changes only the announced number.
pub update_seq-restarts :
    (s : RtpSession) (seq : ℕ)
    → IsValid s
    → s.probation ≡ 0
    → max_dropout ≤ seq_delta s seq
    → seq_delta s seq < rtp_seq_mod - max_misorder
    → seq + 1 < rtp_seq_mod
    → seq ≢ s.bad_seq
    → (update_seq s seq ≡ (false, record s { bad_seq = seq + 1 }))
      × ((update_seq (record s { bad_seq = seq + 1 }) (seq + 1)).1
          ≡ count_packet (init s (seq + 1)))
unfolding update_seq
update_seq-restarts s seq v p lo hi top ne = ground arith
