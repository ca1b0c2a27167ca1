-- ===== src/Protocols/RtmpSession/Sequences.antt =====
-- Messages one after the other, sent by buildResponse0 and received by recvRequest of
-- server/src/protocols/ozRtmpSession.cpp.
use ozonebase.Prelude.{
  ℕ, suc, ◌+◌, ◌-◌, ◌*◌, ◌^◌, ◌<◌, ◌≤◌, ◌≡◌, refl, ap, ◌∙◌, List, [], ◌∷◌, ◌++◌, arith, length,
  length-append,
}
use ozonebase.Libgen.Outcome.{Outcome, ok, ◌>>=◌}
use ozonebase.Protocols.RtmpSession.{RequestMap, request_of, put_request, recv_chunks}
use ozonebase.Protocols.RtmpSession.{build_response0}
use ozonebase.Protocols.RtmpSession.Messages.{Message, request_for, IsSendable, framed}

-- Several messages, one after the other.
abbrev pub send_all : ℕ → List Message → Outcome (List ℕ)
send_all n [] = ok []
send_all n (m ∷ ms) = build_response0 n m.id m.message_type m.stream m.payload >>= λ out.
    send_all n ms >>= λ rest. ok (out ++ rest)

-- A bound for the bytes that are sent.
abbrev pub room : List Message → ℕ
room [] = 0
room (m ∷ ms) = 12 + 2 * length m.payload + room ms

abbrev pub put_all : List Message → RequestMap → RequestMap
put_all [] requests = requests
put_all (m ∷ ms) requests = put_all ms (put_request m.id (request_for m) requests)

-- Each message comes where its chunk stream has no part of a message.
abbrev pub AreSendable : List Message → RequestMap → Type 0
AreSendable [] requests = Unit {0}
AreSendable (m ∷ ms) requests =
    IsSendable m
    × ((request_of m.id requests).payload ≡ [])
    × AreSendable ms (put_request m.id (request_for m) requests)

record AllFramed (n : ℕ) (ms : List Message) (requests : RequestMap) (out : List ℕ) (rounds : ℕ)
    : Type 0 where
  sent : send_all n ms ≡ ok out
  few : rounds ≤ length out
  at_most : length out ≤ room ms
  received :
      (more : ℕ)
      → length out < 2 ^ 31
      → recv_chunks (rounds + more) n requests out ≡ recv_chunks more n (put_all ms requests) []

all_framed :
    (n : ℕ) (ms : List Message) (requests : RequestMap)
    → 0 < n
    → n < 2 ^ 31
    → AreSendable ms requests
    → (out : List ℕ) × (rounds : ℕ) × AllFramed n ms requests out rounds
all_framed n [] requests pos hn s = (
  [],
  0,
  record {
    sent = refl;
    few = omega arith;
    at_most = omega arith;
    received = λ more total. ap (λ f. recv_chunks f n requests []) (omega arith);
  },
)
all_framed n (m ∷ ms) requests pos hn s =
    let (out, rounds, f) = framed n m pos hn s.0 in
    let (rest, others, g) =
      all_framed n ms (put_request m.id (request_for m) requests) pos hn s.2 in
    (
      out ++ rest,
      rounds + others,
      record {
        sent = rw (f.sent, g.sent) refl;
        few = omega (arith, f.few, g.few, length-append out rest);
        at_most = omega (arith, f.at_most, g.at_most, length-append out rest);
        received = λ more total.
            ap (λ k. recv_chunks k n requests (out ++ rest)) (omega arith)
            ∙ (f.received requests rest (others + more) s.1 (omega (arith, length-append out rest))
                ∙ g.received more (omega (arith, length-append out rest)));
      },
    )

-- Messages with payloads that are not empty and below 2^24 bytes, on chunk streams with the numbers
-- 2 to 63, whose types are below 256 and whose streams are below 2^32, are sent in chunks of a size
-- from 1 to 2^31 - 1, each where its chunk stream has no part of a message: a receiver of the same
-- chunk size receives them whole, and nothing else, on a fuel of one more than the bytes sent; 12
-- bytes for each message and twice the payloads are below 2^31.
pub recv_chunks-send_all :
    (n : ℕ) (ms : List Message) (requests : RequestMap)
    → 0 < n
    → n < 2 ^ 31
    → AreSendable ms requests
    → room ms < 2 ^ 31
    → (out : List ℕ) × (send_all n ms ≡ ok out)
      × (recv_chunks (suc (length out)) n requests out ≡ ok (put_all ms requests))
unfolding recv_chunks
recv_chunks-send_all n ms requests pos hn s total =
    let (out, rounds, f) = all_framed n ms requests pos hn s in
    let fuel : suc (length out) ≡ rounds + suc (length out - rounds) = omega (arith, f.few) in
    (
      out,
      f.sent,
      ap (λ k. recv_chunks k n requests out) fuel
          ∙ f.received (suc (length out - rounds)) (omega (arith, f.at_most)),
    )
