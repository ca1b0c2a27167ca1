-- ===== src/Protocols/RtmpSession/Overruns.antt =====
-- A second message on a chunk stream within one request: recvRequest of
-- server/src/protocols/ozRtmpSession.cpp clears the payload of the first only behind its loop.
use ozonebase.Prelude.{
  ℕ, zero, suc, ◌+◌, ◌-◌, ◌/◌, ◌%◌, ◌^◌, ◌<◌, ◌≤◌, min, ◌≡◌, refl, List, [], ◌∷◌, arith, ltb,
  if◌then◌else◌, length,
}
use ozonebase.Libgen.Outcome.{ok, fault}
use ozonebase.Libgen.Bytes.{split_bytes}
use ozonebase.Libgen.Buffer.{int_of, sub_size}
use ozonebase.Protocols.RtmpRequest.{RtmpRequest, add_payload}
use ozonebase.Protocols.RtmpSession.{RequestMap, int_min, load, request_of, put_request, recv_chunk}
use ozonebase.Protocols.RtmpSession.Loading.{small_id, to_load, int_min_lem}
use ozonebase.Protocols.RtmpSession.Messages.{Message, IsSendable, request_for, header_of, header}

split_bytes_short : (n : ℕ) (bytes : List ℕ) → length bytes < n → split_bytes n bytes ≡ fault
unfolding split_bytes
split_bytes_short zero bytes h = absurd (omega arith)
split_bytes_short (suc n) [] h = refl
split_bytes_short (suc n) (b ∷ bytes) h = ground (arith, split_bytes_short n bytes)

-- The number of bytes that are missing is negative.
negative :
    (a b n : ℕ) → a < b → b < 2 ^ 31 → n < 2 ^ 31 → int_min (2 ^ 64 + a - b) n ≡ 2 ^ 64 + a - b
unfolding int_min int_of
negative a b n h k l = ground arith

wraps : (a b : ℕ) → a < b → b < 2 ^ 31 → int_of (sub_size a b) ≡ 2 ^ 64 + a - b
unfolding int_of
wraps a b h k = ground arith

load-shorter :
    (rx : ℕ) (q : RtmpRequest) (bytes : List ℕ)
    → q.message_length < length q.payload
    → length q.payload < 2 ^ 31
    → rx < 2 ^ 31
    → length bytes < 2 ^ 31
    → load rx q bytes ≡ fault
unfolding load add_payload
load-shorter rx q bytes h k l total = ground (
  arith,
  wraps q.message_length (length q.payload) h k,
  int_min_lem rx (length bytes) l total,
  negative q.message_length (length q.payload) (min rx (length bytes)) h k,
  split_bytes_short ((2 ^ 64 + q.message_length - length q.payload) % 2 ^ 32) bytes,
)

load-full :
    (rx : ℕ) (q : RtmpRequest) (bytes : List ℕ)
    → q.message_length ≡ length q.payload
    → length q.payload < 2 ^ 31
    → load rx q bytes ≡ ok (q, bytes)
unfolding load
load-full rx q bytes h k =
    ground (arith, to_load q.message_length (length q.payload) 0 (omega arith))

-- The header of another message on a chunk stream that has a message of no fewer bytes already, in the
-- same request: where the new message is shorter the read runs out of the request, and where it has the
-- same length its own payload is left to be read as chunks.
pub recv_chunk-again :
    (rx : ℕ) (m : Message) (requests : RequestMap) (bytes : List ℕ)
    → rx < 2 ^ 31
    → IsSendable m
    → length m.payload ≤ length (request_of m.id requests).payload
    → length (request_of m.id requests).payload < 2 ^ 24
    → length bytes < 2 ^ 31
    → let old : List ℕ = (request_of m.id requests).payload in
      recv_chunk rx requests (m.id % 64) (header_of m bytes) ≡ (
        if ltb (length m.payload) (length old)
        then fault
        else ok (put_request m.id (record (request_for m) { payload = old }) requests, bytes))
unfolding recv_chunk
recv_chunk-again rx m requests bytes hrx s le small total =
    rw (the_id, the_format, small_id m.id (header_of m bytes) s.has_id.0)
      (rw
        (header (request_of m.id requests) m.message_type m.stream (length m.payload) bytes
          s.has_type s.has_stream s.has_payload.1)
        (ground (
          arith,
          load-shorter rx (record (request_for m) { payload = (request_of m.id requests).payload })
              bytes,
          load-full rx (record (request_for m) { payload = (request_of m.id requests).payload })
              bytes,
        )))
  where
    the_id : m.id % 64 % 64 ≡ m.id
    the_id = omega (arith, s.has_id)

    the_format : m.id % 64 / 64 ≡ 0
    the_format = omega (arith, s.has_id)
