-- ===== src/Protocols/RtpCtrl/Reply.antt =====
-- The answer of server/src/protocols/ozRtpCtrl.cpp to a sender report: a receiver report and a
-- source description in one packet, assembled in 256 bytes of stack.
use ozonebase.Prelude.{
  ℕ, ◌+◌, ◌-◌, ◌*◌, ◌<◌, ◌≤◌, ◌≡◌, ◌∙◌, refl, sym, ap, ap₂, List, [], ◌∷◌, ◌++◌, arith, length,
  length-append, length-drop, take, drop, take-append, take-append_self, drop-append, drop-drop,
}
use ozonebase.Libgen.Outcome.{ok, fault}
use ozonebase.Libgen.Bytes.{to_be}
use ozonebase.Libgen.Buffer.{read_at, write_at}
use ozonebase.Libgen.Buffer.Room.{read_at-ok, write_at-ok}
use ozonebase.Protocols.RtpSession.{RtpSession, update_rtcp_stats}
use ozonebase.Protocols.RtpSession.Loss.{cname-update_rtcp_stats}
use ozonebase.Protocols.RtpCtrl.{
  RtpCtrl, rr_packet, report_block, sdes_packet, generate_rr, generate_sdes, reply, word_len,
}

length-rr_packet : (r : RtpCtrl) → length (rr_packet r) ≡ 32
unfolding rr_packet report_block to_be
length-rr_packet r = refl

length-sdes_packet : (s : RtpSession) → length (sdes_packet s) ≡ 10 + length s.cname
unfolding sdes_packet to_be
length-sdes_packet s = omega arith

-- Writing behind what is there already.
write_at-append :
    (at : ℕ) (p q bytes : List ℕ)
    → at ≡ length p
    → length bytes ≤ length q
    → write_at (p ++ q) at bytes ≡ ok (p ++ (bytes ++ drop (length bytes) q))
write_at-append at p q bytes e h =
    write_at-ok (p ++ q) at bytes (omega (arith, length-append p q))
    ∙ ap ok (
        ap₂ (λ xs ys. xs ++ (bytes ++ ys)) (take-append_self at p q e)
          (drop-append (at + length bytes) (length bytes) p q (omega arith)))

-- The bytes of the stack that fill the last word.
abbrev pub filling : RtpSession → List ℕ → List ℕ
filling s stack =
    take (word_len (10 + length s.cname) * 4 - (10 + length s.cname))
      (drop (42 + length s.cname) stack)

answer : RtpCtrl → List ℕ → List ℕ
answer r stack = rr_packet r ++ (sdes_packet r.session ++ filling r.session stack)

rr-written :
    (r : RtpCtrl) (stack : List ℕ)
    → length stack ≡ 256
    → write_at stack 0 (rr_packet r) ≡ ok (rr_packet r ++ drop 32 stack)
rr-written r stack e =
    write_at-append 0 [] stack (rr_packet r) refl (omega (arith, length-rr_packet r))
    ∙ ap (λ k. ok (rr_packet r ++ drop k stack)) (length-rr_packet r)

sdes-written :
    (r : RtpCtrl) (stack : List ℕ)
    → length stack ≡ 256
    → length r.session.cname ≤ 214
    → write_at (rr_packet r ++ drop 32 stack) 32 (sdes_packet r.session)
      ≡ ok (rr_packet r ++ (sdes_packet r.session ++ drop (42 + length r.session.cname) stack))
sdes-written r stack e h =
    write_at-append 32 (rr_packet r) (drop 32 stack) (sdes_packet r.session)
      (sym (length-rr_packet r)) (omega (arith, length-sdes_packet r.session, length-drop 32 stack))
    ∙ ap (λ xs. ok (rr_packet r ++ (sdes_packet r.session ++ xs)))
        (drop-drop (length (sdes_packet r.session)) 32 stack
          ∙ ap (λ k. drop k stack) (omega (arith, length-sdes_packet r.session)))

answer-read :
    (r : RtpCtrl) (stack : List ℕ)
    → length stack ≡ 256
    → length r.session.cname ≤ 214
    → read_at
        (rr_packet r ++ (sdes_packet r.session ++ drop (42 + length r.session.cname) stack))
        0
        (32 + word_len (10 + length r.session.cname) * 4)
      ≡ ok (answer r stack)
unfolding word_len answer
answer-read r stack e h =
    let n = word_len (10 + length r.session.cname) * 4 in
    let left = drop (42 + length r.session.cname) stack in
    read_at-ok (rr_packet r ++ (sdes_packet r.session ++ left)) 0 (32 + n) (
      omega (
        arith,
        length-append (rr_packet r) (sdes_packet r.session ++ left),
        length-append (sdes_packet r.session) left,
        length-rr_packet r,
        length-sdes_packet r.session,
        length-drop (42 + length r.session.cname) stack,
      ))
    ∙ ap ok (
        take-append (32 + n) n (rr_packet r) (sdes_packet r.session ++ left)
          (omega (arith, length-rr_packet r))
        ∙ ap (λ xs. rr_packet r ++ xs)
            (take-append n (n - (10 + length r.session.cname)) (sdes_packet r.session) left
              (omega (arith, length-sdes_packet r.session))))

-- On a stack of 256 bytes, a name of at most 214 bytes makes an answer that fits: the statistics
-- are brought up to date, and one packet is queued, of the receiver report, the source
-- description and the bytes of the stack that fill its last word.
pub reply_lem :
    (r : RtpCtrl) (stack : List ℕ)
    → length stack ≡ 256
    → length r.session.cname ≤ 214
    → let r' = record r { session = update_rtcp_stats r.session } in
      let packet = rr_packet r' ++ (sdes_packet r'.session ++ filling r'.session stack) in
      reply r stack ≡ ok (record r' { packet_queue = r.packet_queue ++ (packet ∷ []) })
unfolding reply generate_rr generate_sdes word_len answer
reply_lem r stack e h =
    let r' = record r { session = update_rtcp_stats r.session } in
    let h' : length r'.session.cname ≤ 214 =
      omega (arith, h, ap (length {A = ℕ}) (cname-update_rtcp_stats r.session)) in
    ground (arith, rr-written r' stack e, sdes-written r' stack e h', answer-read r' stack e h')

sdes-overrun :
    (r : RtpCtrl) (stack : List ℕ)
    → length stack ≡ 256
    → 214 < length r.session.cname
    → write_at (rr_packet r ++ drop 32 stack) 32 (sdes_packet r.session) ≡ fault
unfolding write_at
sdes-overrun r stack e h = ground (
  arith,
  length-append (rr_packet r) (drop 32 stack),
  length-rr_packet r,
  length-drop 32 stack,
  length-sdes_packet r.session,
)

-- On a stack of 256 bytes, a name of more than 214 bytes makes the answer to a sender report run
-- over its end.
pub reply-overruns :
    (r : RtpCtrl) (stack : List ℕ)
    → length stack ≡ 256
    → 214 < length r.session.cname
    → reply r stack ≡ fault
unfolding reply generate_rr generate_sdes word_len
reply-overruns r stack e h =
    let r' = record r { session = update_rtcp_stats r.session } in
    let h' : 214 < length r'.session.cname =
      omega (arith, h, ap (length {A = ℕ}) (cname-update_rtcp_stats r.session)) in
    ground (arith, rr-written r' stack e, sdes-overrun r' stack e h')
