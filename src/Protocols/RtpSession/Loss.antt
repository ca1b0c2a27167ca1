-- ===== src/Protocols/RtpSession/Loss.antt =====
-- Packet counts and what the receiver reports say is lost.
use ozonebase.Prelude.{
  ℕ, ◌+◌, ◌-◌, ◌*◌, ◌/◌, ◌%◌, ◌^◌, ◌≤◌, ◌<◌, ◌≡◌, refl, ◌∙◌, true, false, List, [], ◌∷◌, arith,
  ◌==◌, if◌then◌else◌, length,
}
use ozonebase.Protocols.RtpSession.{
  RtpSession, rtp_seq_mod, max_dropout, u32, update_seq, extended_max, update_rtcp_stats,
  fraction_of, construct,
}
use ozonebase.Protocols.RtpSession.Sequence.{IsValid}

-- Packets of a valid source, each given by how far its number is ahead of the one before.
pub receive_all : RtpSession → ℕ → List ℕ → RtpSession
receive_all s number [] = s
receive_all s number (gap ∷ gaps) =
    receive_all (update_seq s ((number + gap) % rtp_seq_mod)).1 (number + gap) gaps

abbrev pub sum : List ℕ → ℕ
sum [] = 0
sum (x ∷ xs) = x + sum xs

-- Every gap is within the permitted one.
abbrev pub AreForward : List ℕ → Type 0
AreForward [] = Unit {0}
AreForward (g ∷ gs) = (0 < g) × (g < max_dropout) × AreForward gs

record Tracks (s : RtpSession) (number : ℕ) : Type 0 where
  valid : IsValid s
  sound : s.probation ≡ 0
  at : s.cycles + s.max_seq ≡ number

update_seq-Tracks :
    (s : RtpSession) (number gap : ℕ)
    → Tracks s number
    → 0 < gap
    → gap < max_dropout
    → number + gap < u32
    → Tracks (update_seq s ((number + gap) % rtp_seq_mod)).1 (number + gap)
      × ((update_seq s ((number + gap) % rtp_seq_mod)).1.received_packets
          ≡ (s.received_packets + 1) % u32)
      × ((update_seq s ((number + gap) % rtp_seq_mod)).1.base_seq ≡ s.base_seq)
unfolding update_seq
update_seq-Tracks s number gap t lo hi top = ground (
  arith, t.valid.max_in, t.valid.cycles_in, t.valid.cycles_whole, t.valid.bad_in,
  t.valid.received_in, t.valid.base_in, t.sound, t.at,
)

receive_all-Tracks :
    (s : RtpSession) (number : ℕ) (gaps : List ℕ)
    → Tracks s number
    → AreForward gaps
    → number + sum gaps < u32
    → s.received_packets + length gaps < u32
    → Tracks (receive_all s number gaps) (number + sum gaps)
      × ((receive_all s number gaps).received_packets ≡ s.received_packets + length gaps)
      × ((receive_all s number gaps).base_seq ≡ s.base_seq)
unfolding receive_all
receive_all-Tracks s number [] t f top r =
    (let e : number ≡ number + 0 = omega arith in rw (← e) t, omega arith, refl)
receive_all-Tracks s number (gap ∷ gaps) t f top r =
    let (t', r', b') = update_seq-Tracks s number gap t f.0 f.1 (omega arith) in
    let (t'', r'', b'') =
      receive_all-Tracks (update_seq s ((number + gap) % rtp_seq_mod)).1 (number + gap) gaps t' f.2
        (omega arith) (omega arith) in
    (
      let e : number + gap + sum gaps ≡ number + (gap + sum gaps) = omega arith in rw e at t'',
      omega arith,
      b'' ∙ b',
    )

-- The number of packets that were skipped: each gap of `g` skips `g - 1`.
abbrev pub skipped : List ℕ → ℕ
skipped [] = 0
skipped (g ∷ gs) = g - 1 + skipped gs

skipped-sum : (gaps : List ℕ) → AreForward gaps → skipped gaps + length gaps ≡ sum gaps
skipped-sum [] f = omega arith
skipped-sum (g ∷ gs) f = omega (arith, skipped-sum gs f.2)

-- A valid source that is not on probation and has lost nothing so far reports, after any packets in
-- forward order with gaps below 3000, exactly the skipped packets as lost and all numbers since its
-- base as expected, while the extended number stays below 2^32.
pub lost_packets-receive_all :
    (s : RtpSession) (gaps : List ℕ)
    → IsValid s
    → s.probation ≡ 0
    → s.cycles + s.max_seq + 1 ≡ s.base_seq + s.received_packets
    → AreForward gaps
    → s.cycles + s.max_seq + sum gaps + 1 < u32
    → let t = update_rtcp_stats (receive_all s (s.cycles + s.max_seq) gaps) in
      (t.lost_packets ≡ skipped gaps) × (t.expected_packets ≡ s.received_packets + sum gaps)
unfolding update_rtcp_stats extended_max
lost_packets-receive_all s gaps v p none f top = ground (
  arith,
  receive_all-Tracks s (s.cycles + s.max_seq) gaps (record { valid = v; sound = p; at = refl }) f,
  skipped-sum gaps f,
  v.base_in,
)

-- The statistics between two reports.
abbrev pub interval : ℕ → ℕ → ℕ
interval now before = (now + u32 - before) % u32

abbrev pub expected_now : RtpSession → ℕ
expected_now s = (extended_max s + u32 - s.base_seq + 1) % u32

share_in : (l e : ℕ) → l < e → l * 2 ^ 8 / e < 2 ^ 8
share_in l e h = grind arith

share_whole : (e : ℕ) → 0 < e → e * 2 ^ 8 / e ≡ 2 ^ 8
share_whole e h = grind arith

fraction_of-le :
    (e r : ℕ)
    → r ≤ e
    → e < 2 ^ 24
    → 0 < e
    → fraction_of e r ≡ (if r == 0 then 0 else (e - r) * 2 ^ 8 / e)
unfolding fraction_of
fraction_of-le e r le small pos = ground (arith, share_in (e - r) e, share_whole e)

fraction_of-surplus :
    (e x : ℕ)
    → 0 < e
    → 0 < x
    → x < 2 ^ 24
    → fraction_of e (e + x) ≡ (2 ^ 32 - x * 2 ^ 8) / e % 2 ^ 8
unfolding fraction_of
fraction_of-surplus e x p q small = ground arith

-- Where no more packets came than were expected since the last report, and fewer than 2 ^ 24 were
-- expected, the reported fraction is the share of lost ones in 256ths, but 0 where all were lost.
pub lost_fraction-update_rtcp_stats :
    (s : RtpSession) (expected received : ℕ)
    → expected ≡ interval (expected_now s) s.expected_prior
    → received ≡ interval s.received_packets s.received_prior
    → received ≤ expected
    → expected < 2 ^ 24
    → 0 < expected
    → (update_rtcp_stats s).lost_fraction
      ≡ (if received == 0 then 0 else (expected - received) * 2 ^ 8 / expected)
unfolding update_rtcp_stats
lost_fraction-update_rtcp_stats s expected received e r le small pos =
    rw (← e, ← r) (fraction_of-le expected received le small pos)

-- Where more packets came than were expected, the unsigned difference wraps: the fraction is
-- that of 2^32 less 256 for each packet too many, modulo 256.
pub lost_fraction-surplus :
    (s : RtpSession) (expected extra : ℕ)
    → expected ≡ interval (expected_now s) s.expected_prior
    → expected + extra ≡ interval s.received_packets s.received_prior
    → 0 < expected
    → 0 < extra
    → extra < 2 ^ 24
    → (update_rtcp_stats s).lost_fraction ≡ (2 ^ 32 - extra * 2 ^ 8) / expected % 2 ^ 8
unfolding update_rtcp_stats
lost_fraction-surplus s expected extra e r p q small =
    rw (← e, ← r) (fraction_of-surplus expected extra p q small)

-- A new source is accepted with its second packet in succession, whatever number below 65535 it
-- starts at; the packets received are then counted from what the memory held before.
pub construct-validates :
    (raw : RtpSession) (ssrc : ℕ) (cname : List ℕ) (seq : ℕ)
    → seq + 1 < rtp_seq_mod
    → let first = update_seq (construct raw ssrc cname (record { sec = 0; usec = 0 })) seq in
      let second = update_seq first.1 (seq + 1) in
      (first.0 ≡ false)
      × (second.0 ≡ true)
      × (second.1.probation ≡ 0)
      × (second.1.base_seq ≡ seq + 1)
      × (extended_max second.1 ≡ seq + 1)
      × (second.1.received_packets ≡ (raw.received_packets + 1) % u32)
unfolding update_seq construct extended_max
construct-validates raw ssrc cname seq h = ground arith

-- The statistics leave the source's name.
pub cname-update_rtcp_stats : (s : RtpSession) → (update_rtcp_stats s).cname ≡ s.cname
unfolding update_rtcp_stats
cname-update_rtcp_stats s = refl
