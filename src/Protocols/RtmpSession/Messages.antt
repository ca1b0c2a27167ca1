-- ===== src/Protocols/RtmpSession/Messages.antt =====
-- Messages, as buildResponse0 of server/src/protocols/ozRtmpSession.cpp sends them and as recvRequest
-- receives them.
use ozonebase.Prelude.{
  ℕ, suc, ◌+◌, ◌*◌, ◌/◌, ◌%◌, ◌^◌, ◌<◌, ◌≤◌, ◌≡◌, refl, List, [], ◌∷◌, ◌++◌, arith, length,
}
use ozonebase.Libgen.Outcome.{ok, ◌>>=◌, >>=-ok}
use ozonebase.Libgen.Bytes.{read_be-to_be, read_be_one, read_le-to_le}
use ozonebase.Protocols.RtmpRequest.{RtmpRequest, build}
use ozonebase.Protocols.RtmpSession.{
  RequestMap, load, request_of, put_request, recv_chunk, recv_chunks,
}
use ozonebase.Libgen.Bytes.{to_be, to_le}
use ozonebase.Protocols.RtmpSession.{build_response0}
use ozonebase.Protocols.RtmpSession.Framing.{chunked}
use ozonebase.Protocols.RtmpSession.Loading.{small_id}

-- The header of a message that starts anew.
pub header :
    (q : RtmpRequest) (message_type stream size : ℕ) (bytes : List ℕ)
    → message_type < 256
    → stream < 2 ^ 32
    → size < 2 ^ 24
    → build 0 q (to_be 3 0 ++ (to_be 3 size ++ (message_type % 256 ∷ to_le 4 stream ++ bytes)))
      ≡ ok (
        record q {
          message_type = message_type;
          message_stream_id = stream;
          timestamp = 0;
          message_length = size;
        },
        bytes,
      )
unfolding build
header q message_type stream size bytes h k l =
    rw
      (read_be-to_be 3 0 (to_be 3 size ++ (message_type % 256 ∷ to_le 4 stream ++ bytes))
        (omega arith))
      (rw (read_be-to_be 3 size (message_type % 256 ∷ to_le 4 stream ++ bytes) l) (
        rw (read_be_one (message_type % 256) (to_le 4 stream ++ bytes))
          (rw (read_le-to_le 4 stream bytes k) (ground arith))))

-- A message, and the request that it becomes.
pub record Message : Type 0 where
  pub id : ℕ
  pub message_type : ℕ
  pub stream : ℕ
  pub payload : List ℕ

abbrev pub request_for : Message → RtmpRequest
request_for m = record {
  message_type = m.message_type;
  message_stream_id = m.stream;
  timestamp = 0;
  message_length = length m.payload;
  payload = m.payload;
}

pub record IsSendable (m : Message) : Type 0 where
  pub has_id : (2 ≤ m.id) × (m.id < 64)
  pub has_type : m.message_type < 256
  pub has_stream : m.stream < 2 ^ 32
  pub has_payload : (0 < length m.payload) × (length m.payload < 2 ^ 24)

-- What `build_response0` makes of a message, and how that is received where the chunk stream has no
-- part of a message, with whatever follows.
pub record Framed (n : ℕ) (m : Message) (out : List ℕ) (rounds : ℕ) : Type 0 where
  pub sent : build_response0 n m.id m.message_type m.stream m.payload ≡ ok out
  pub few : rounds < length out
  pub at_most : length out ≤ 12 + 2 * length m.payload
  pub received :
      (requests : RequestMap) (rest : List ℕ) (more : ℕ)
      → (request_of m.id requests).payload ≡ []
      → length out + length rest < 2 ^ 31
      → recv_chunks (rounds + more) n requests (out ++ rest)
        ≡ recv_chunks more n (put_request m.id (request_for m) requests) rest

-- The header of a message behind its first byte, and with it.
abbrev pub header_of : Message → List ℕ → List ℕ
header_of m bytes =
    to_be 3 0 ++ (to_be 3 (length m.payload) ++ (m.message_type % 256 ∷ to_le 4 m.stream ++ bytes))

abbrev heading : Message → List ℕ → List ℕ
heading m bytes = m.id % 64 ∷ header_of m bytes

heading-append :
    (m : Message) (bytes rest : List ℕ) → heading m bytes ++ rest ≡ heading m (bytes ++ rest)
unfolding to_be to_le
heading-append m bytes rest = refl

length-heading : (m : Message) (bytes : List ℕ) → length (heading m bytes) ≡ 12 + length bytes
unfolding to_be to_le
length-heading m bytes = omega arith

-- The first chunk of a message.
started :
    (n rounds more : ℕ) (m : Message) (requests : RequestMap) (bytes : List ℕ)
    → IsSendable m
    → (request_of m.id requests).payload ≡ []
    → recv_chunks (suc rounds + more) n requests (heading m bytes) ≡ (
        load n (record (request_for m) { payload = [] }) bytes >>= λ r.
        recv_chunks (rounds + more) n (put_request m.id r.0 requests) r.1)
unfolding recv_chunks recv_chunk
started n rounds more m requests bytes s e = rw one_more (
    rw (the_id, the_format, small_id m.id _ s.has_id.0)
      (rw
        (header (request_of m.id requests) m.message_type m.stream (length m.payload) bytes
          s.has_type s.has_stream s.has_payload.1)
        (rw e (
          >>=-ok (load n _ bytes) (λ r. (put_request m.id r.0 requests, r.1))
            λ r. recv_chunks (rounds + more) n r.0 r.1))))
  where
    one_more : suc rounds + more ≡ suc (rounds + more)
    one_more = omega arith

    the_id : m.id % 64 % 64 ≡ m.id
    the_id = omega (arith, s.has_id)

    the_format : m.id % 64 / 64 ≡ 0
    the_format = omega (arith, s.has_id)

pub framed :
    (n : ℕ) (m : Message)
    → 0 < n
    → n < 2 ^ 31
    → IsSendable m
    → (out : List ℕ) × (rounds : ℕ) × Framed n m out rounds
unfolding build_response0
framed n m pos hn s =
    let (chunks, rounds, t) =
      chunked (suc (length m.payload)) n m.id m.payload pos hn s.has_id.0 s.has_id.1 s.has_payload.1
        s.has_payload.0 (omega arith) in
    (
      heading m chunks,
      suc rounds,
      record {
        sent = rw t.sent refl;
        few = omega (arith, t.few, length-heading m chunks);
        at_most = omega (arith, t.at_most, length-heading m chunks);
        received = λ requests rest more e total. rw (heading-append m chunks rest) (
            rw (started n rounds more m requests (chunks ++ rest) s e) (
              t.received (record (request_for m) { payload = [] }) requests rest more (omega arith)
                s.has_payload.1 (omega (arith, length-heading m chunks))));
      },
    )
