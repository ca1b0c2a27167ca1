-- ===== src/Protocols/RtmpSession.antt =====
-- server/src/protocols/ozRtmpSession.h and .cpp: the chunks of the RTMP chunk stream, sent by
-- buildResponse0 to buildResponse2 and received by the loop of recvRequest. The responses and requests
-- are the contents of their ByteBuffers (Libgen/Buffer); `mRequests` is a list sorted by its keys.
pub mod Commands
pub mod Session
pub mod Handling
pub mod Loading
pub mod Framing
pub mod Messages
pub mod Sequences
pub mod Progress
pub mod Transitions
pub mod States
pub mod Reached
pub mod Stopped
pub mod Answers
pub mod Overruns
use ozonebase.Prelude.{
  ℕ, zero, suc, ◌+◌, ◌-◌, ◌*◌, ◌/◌, ◌%◌, ◌^◌, bit_or, Bool, List, [], ◌∷◌, ◌++◌, ltb, leb, ◌==◌,
  if◌then◌else◌, length,
}
use ozonebase.Libgen.Outcome.{Outcome, ok, fault, spent, ◌>>=◌}
use ozonebase.Libgen.Bytes.{to_be, to_le, split_bytes}
use ozonebase.Libgen.Buffer.{int_of, sub_size}
use ozonebase.Protocols.RtmpRequest.{RtmpRequest, new_request, add_payload, build}

-- `min( int, int )` of server/src/libgen/libgenUtils.h on two arguments of type size_t, as a size_t.
unfoldable pub int_min : ℕ → ℕ → ℕ
unfolding int_of
int_min a b =
    if ltb ((int_of a + 2 ^ 63) % 2 ^ 64) ((int_of b + 2 ^ 63) % 2 ^ 64) then int_of a else int_of b

-- `addResponsePayload`: what it appends. A byte that says that the message goes on stands between
-- two chunks.
abbrev pub continued : ℕ → List ℕ → List ℕ → List ℕ
continued id [] rest = rest
continued id (b ∷ bytes) rest = bit_or 0xc0 id % 256 ∷ rest

unfoldable pub add_response_payload : ℕ → ℕ → ℕ → List ℕ → Outcome (List ℕ)
add_response_payload zero tx id payload = spent
add_response_payload (suc fuel) tx id [] = ok []
add_response_payload (suc fuel) tx id (b ∷ payload) =
    split_bytes (int_min tx (length (b ∷ payload))) (b ∷ payload) >>= λ r.
    add_response_payload fuel tx id (r.1) >>= λ rest. ok (r.0 ++ continued id r.1 rest)

-- The bytes that the three functions append, given `txChunkSize`; `rtmpTimestamp24` is 0.
unfoldable pub build_response0 : ℕ → ℕ → ℕ → ℕ → List ℕ → Outcome (List ℕ)
build_response0 tx id message_type stream payload =
    add_response_payload (suc (length payload)) tx id payload >>= λ chunks. ok (
      id % 64 ∷ to_be 3 0
      ++ (to_be 3 (length payload) ++ (message_type % 256 ∷ to_le 4 stream ++ chunks)))

unfoldable pub build_response1 : ℕ → ℕ → ℕ → ℕ → List ℕ → Outcome (List ℕ)
build_response1 tx id message_type delta payload =
    add_response_payload (suc (length payload)) tx id payload >>= λ chunks.
    ok (
      (64 + id % 64) ∷ to_be 3 delta ++ (to_be 3 (length payload) ++ (message_type % 256 ∷ chunks)))

unfoldable pub build_response2 : ℕ → ℕ → ℕ → List ℕ → Outcome (List ℕ)
build_response2 tx id delta payload =
    add_response_payload (suc (length payload)) tx id payload >>= λ chunks.
    ok ((128 + id % 64) ∷ to_be 3 delta ++ chunks)

-- `mRequests`.
abbrev pub RequestMap : Type 0
RequestMap = List (ℕ × RtmpRequest)

-- The request of a chunk stream, which is a new one where there is none.
unfoldable pub request_of : ℕ → RequestMap → RtmpRequest
request_of id [] = new_request
request_of id (entry ∷ requests) =
    let later = request_of id requests in if entry.0 == id then entry.1 else later

unfoldable pub put_request : ℕ → RtmpRequest → RequestMap → RequestMap
put_request id q [] = (id, q) ∷ []
put_request id q (entry ∷ requests) =
    let later = put_request id q requests in
    if entry.0 == id
    then (id, q) ∷ requests
    else if ltb id entry.0
    then (id, q) ∷ entry ∷ requests
    else entry ∷ later

-- The chunk stream's number, from the low six bits of the first byte and up to two more.
abbrev pub second_byte : List ℕ → Outcome (ℕ × List ℕ)
second_byte [] = fault
second_byte (b ∷ bytes) = ok (b + 64, bytes)

abbrev pub both_bytes : List ℕ → Outcome (ℕ × List ℕ)
both_bytes (b ∷ c ∷ bytes) = ok (bit_or (c * 256) (b + 64), bytes)
both_bytes _ = fault

unfoldable pub chunk_stream_id : ℕ → List ℕ → Outcome (ℕ × List ℕ)
chunk_stream_id low bytes =
    if low == 0 then second_byte bytes else if low == 1 then both_bytes bytes else ok (low, bytes)

-- Take the rest of the message, a chunk at most, given `rxChunkSize`.
unfoldable pub load : ℕ → RtmpRequest → List ℕ → Outcome (RtmpRequest × List ℕ)
unfolding int_of
load rx q bytes =
    let to_load : ℕ = int_of (sub_size q.message_length (length q.payload)) in
    if to_load == 0
    then ok (q, bytes)
    else add_payload q (int_min to_load (int_min rx (length bytes))) bytes

-- One round of the loop, on the first byte and those behind it.
unfoldable pub recv_chunk : ℕ → RequestMap → ℕ → List ℕ → Outcome (RequestMap × List ℕ)
recv_chunk rx requests b bytes = chunk_stream_id (b % 64) bytes >>= λ id.
    build (b / 64) (request_of id.0 requests) id.1 >>= λ header.
    load rx header.0 header.1 >>= λ r. ok (put_request id.0 r.0 requests, r.1)

-- The loop, on a fuel that each round takes one of.
unfoldable pub recv_chunks : ℕ → ℕ → RequestMap → List ℕ → Outcome RequestMap
recv_chunks zero rx requests bytes = spent
recv_chunks (suc fuel) rx requests [] = ok requests
recv_chunks (suc fuel) rx requests (b ∷ bytes) =
    recv_chunk rx requests b bytes >>= λ r. recv_chunks fuel rx r.0 r.1
