-- ===== src/Protocols/RtmpStream/Packets.antt =====
-- The packets of a stream (server/src/protocols/ozRtmpStream.cpp) against the messages of the session
-- (ozRtmpSession.cpp).
use ozonebase.Prelude.{
  ℕ, zero, suc, ◌%◌, ◌<◌, ◌≡◌, refl, sym, ap, ◌∙◌, bit_or, List, [], ◌∷◌, ◌++◌, append_assoc, arith,
  length,
}
use ozonebase.Libgen.Outcome.{Outcome, ok, panic, fault, thrown, spent, ◌>>=◌, >>=_cong, >>=-ok}
use ozonebase.Libgen.Bytes.{to_be, to_le, split_bytes}
use ozonebase.Protocols.RtmpSession.{int_min, continued, add_response_payload, build_response0}
use ozonebase.Protocols.RtmpSession.Loading.{continues, resumes}
use ozonebase.Protocols.RtmpStream.{with_header, build_packet, send_packets, joined}

-- All bytes of a call's packets.
abbrev pub sent : Outcome (List (List ℕ) × ℕ) → Outcome (List ℕ)
sent call = call >>= λ r. ok (joined r.0)

marker : (id : ℕ) → id < 64 → bit_or 0xc0 (id % 64) ≡ bit_or 0xc0 id % 256
marker id h = ap (bit_or 0xc0) (omega arith) ∙ (resumes id h ∙ sym (continues id h))

-- A packet with others behind it, against a chunk with others behind it.
one_packet :
    (header chunk : List ℕ) (others : Outcome (List (List ℕ) × ℕ)) (later : Outcome (List ℕ))
    (join : List ℕ → List ℕ)
    → sent others ≡ (later >>= λ out. ok (join out))
    → sent (others >>= λ rest. ok ((header ++ chunk) ∷ rest.0, rest.1))
      ≡ ((later >>= λ out. ok (chunk ++ join out)) >>= λ out. ok (header ++ out))
one_packet header chunk others later join e =
    >>=-ok others (λ rest. ((header ++ chunk) ∷ rest.0, rest.1)) (λ r. ok (joined r.0))
    ∙ (sym (>>=-ok others (λ r. joined r.0) (λ j. ok ((header ++ chunk) ++ j)))
        ∙ (ap (λ m. m >>= λ j. ok ((header ++ chunk) ++ j)) e
            ∙ (>>=-ok later join (λ j. ok ((header ++ chunk) ++ j))
                ∙ (>>=_cong later _ _ (λ out. ap ok (append_assoc header chunk (join out)))
                    ∙ sym (>>=-ok later (λ out. chunk ++ join out) (λ out. ok (header ++ out)))))))

-- The same where the chunk is still to be taken.
first_packet :
    (fuel tx id message_type stream timestamp : ℕ) (header : List ℕ)
    (taken : Outcome (List ℕ × List ℕ))
    → ((payload : List ℕ)
        → sent (send_packets fuel 0 0xc0 tx id message_type stream timestamp payload)
          ≡ (add_response_payload fuel tx id payload >>= λ out. ok (continued id payload out)))
    → sent (
        with_header header taken >>= λ r.
        send_packets fuel 0 0xc0 tx id message_type stream timestamp (r.1) >>= λ rest.
        ok (r.0 ∷ rest.0, rest.1))
      ≡ ((taken >>= λ r.
            add_response_payload fuel tx id (r.1) >>= λ rest. ok (r.0 ++ continued id r.1 rest))
          >>= λ out. ok (header ++ out))
first_packet fuel tx id message_type stream timestamp header (ok r) ih =
    one_packet header (r.0) (send_packets fuel 0 0xc0 tx id message_type stream timestamp (r.1))
      (add_response_payload fuel tx id r.1) (continued id r.1) (ih (r.1))
first_packet fuel tx id message_type stream timestamp header panic ih = refl
first_packet fuel tx id message_type stream timestamp header fault ih = refl
first_packet fuel tx id message_type stream timestamp header thrown ih = refl
first_packet fuel tx id message_type stream timestamp header spent ih = refl

sent-continued :
    (fuel tx id message_type stream timestamp : ℕ) (payload : List ℕ)
    → id < 64
    → sent (send_packets fuel 0 0xc0 tx id message_type stream timestamp payload)
      ≡ (add_response_payload fuel tx id payload >>= λ out. ok (continued id payload out))
unfolding send_packets add_response_payload build_packet
sent-continued zero tx id message_type stream timestamp payload h = refl
sent-continued (suc fuel) tx id message_type stream timestamp [] h = refl
sent-continued (suc fuel) tx id message_type stream timestamp (b ∷ payload) h = rw (marker id h) (
    first_packet fuel tx id message_type stream timestamp (bit_or 0xc0 id % 256 ∷ [])
      (split_bytes (int_min tx (suc (length payload))) (b ∷ payload))
      λ p. sent-continued fuel tx id message_type stream timestamp p h)

-- Once the packets at the start have been sent, the packets of a payload that is not empty are
-- together the message that the session builds of it with the same numbers, on a chunk stream whose
-- number is below 64, whether that is possible or not.
pub sent-send_packets :
    (tx id message_type stream timestamp b : ℕ) (payload : List ℕ)
    → id < 64
    → sent (
        send_packets
          (suc (length (b ∷ payload)))
          0
          0
          tx
          id
          message_type
          stream
          timestamp
          (b ∷ payload))
      ≡ build_response0 tx id message_type stream (b ∷ payload)
unfolding send_packets add_response_payload build_packet build_response0 to_be to_le
sent-send_packets tx id message_type stream timestamp b payload h =
    first_packet (length (b ∷ payload)) tx id message_type stream timestamp
      (id % 64 ∷ to_be 3 0
        ++ (to_be 3 (length (b ∷ payload)) ++ (message_type % 256 ∷ to_le 4 stream)))
      (split_bytes (int_min tx (suc (length payload))) (b ∷ payload))
      λ p. sent-continued (length (b ∷ payload)) tx id message_type stream timestamp p h
