-- ===== src/Protocols/RtmpStream.antt =====
-- server/src/protocols/ozRtmpStream.cpp: the packets of a payload, as sendFrame has buildPacket make
-- them. What the packets hold is the encoder's, and is a parameter.
pub mod Packets
use ozonebase.Prelude.{
  ℕ, zero, suc, ◌+◌, ◌-◌, ◌%◌, ◌<◌, ◌≡◌, refl, sym, ap, ◌∙◌, bit_or, List, [], ◌∷◌, ◌++◌,
  append_assoc, arith, ltb, ◌==◌, ◌&&◌, if◌then◌else◌, length,
}
use ozonebase.Libgen.Outcome.{Outcome, ok, panic, spent, ◌>>=◌, >>=_assoc, >>=_cong, >>=-ok}
use ozonebase.Libgen.Bytes.{to_be, to_le, split_bytes}
use ozonebase.Protocols.RtmpSession.{int_min, continued, add_response_payload, build_response0}

-- The chunk of a packet behind its header, with the payload that is left.
abbrev pub with_header : List ℕ → Outcome (List ℕ × List ℕ) → Outcome (List ℕ × List ℕ)
with_header header taken = taken >>= λ r. ok (header ++ r.0, r.1)

abbrev packet_with : ℕ → List ℕ → List ℕ → Outcome (List ℕ × List ℕ)
packet_with tx header payload =
    with_header header (split_bytes (int_min tx (length payload)) payload)

-- `packetType` after the packets at the start, and `mInitialFrames` after that.
abbrev pub actual_type : ℕ → ℕ → ℕ
actual_type initial kind = if (kind == 0) && ltb 0 initial then 0x40 else kind

abbrev pub initial_left : ℕ → ℕ → ℕ
initial_left initial kind = if (kind == 0) && ltb 0 initial then initial - 1 else initial

-- `buildPacket` by the actual packet type.
unfoldable pub build_packet : ℕ → ℕ → ℕ → ℕ → ℕ → ℕ → List ℕ → Outcome (List ℕ × List ℕ)
build_packet kind tx id message_type stream timestamp payload =
    if kind == 0
    then packet_with tx
        (id % 64 ∷ to_be 3 0 ++ (to_be 3 (length payload) ++ (message_type % 256 ∷ to_le 4 stream)))
        payload
    else if kind == 0x40
    then packet_with tx
        (bit_or 0x40 (id % 64) ∷ to_be 3 timestamp
          ++ (to_be 3 (length payload) ++ (message_type % 256 ∷ [])))
        payload
    else if kind == 0xc0
    then packet_with tx (bit_or 0xc0 (id % 64) ∷ []) payload
    else panic

-- The loop of sendFrame over a payload: the packets, and `mInitialFrames` after them. A packet behind
-- the first has type 0xc0.
unfoldable pub send_packets : ℕ → ℕ → ℕ → ℕ → ℕ → ℕ → ℕ → ℕ → List ℕ → Outcome (List (List ℕ) × ℕ)
send_packets zero initial kind tx id message_type stream timestamp payload = spent
send_packets (suc fuel) initial kind tx id message_type stream timestamp [] = ok ([], initial)
send_packets (suc fuel) initial kind tx id message_type stream timestamp (b ∷ payload) =
    build_packet (actual_type initial kind) tx id message_type stream timestamp (b ∷ payload)
    >>= λ r.
        send_packets fuel (initial_left initial kind) 0xc0 tx id message_type stream timestamp (r.1)
        >>= λ rest. ok (r.0 ∷ rest.0, rest.1)

abbrev pub joined : List (List ℕ) → List ℕ
joined [] = []
joined (p ∷ packets) = p ++ joined packets
