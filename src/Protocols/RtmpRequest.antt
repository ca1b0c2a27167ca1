-- ===== src/Protocols/RtmpRequest.antt =====
-- server/src/protocols/ozRtmpRequest.h and .cpp: one message that is put together from the chunks of
-- its chunk stream. The payload and the request are the contents of their ByteBuffers (Libgen/Buffer).
use ozonebase.Prelude.{ℕ, ◌+◌, ◌%◌, ◌^◌, Bool, List, [], ◌++◌, ltb, ◌==◌, if◌then◌else◌, length}
use ozonebase.Libgen.Outcome.{Outcome, ok, panic, ◌>>=◌}
use ozonebase.Libgen.Bytes.{read_be, read_le, split_bytes}

pub record RtmpRequest : Type 0 where
  pub message_type : ℕ
  pub message_stream_id : ℕ
  pub timestamp : ℕ
  pub message_length : ℕ
  pub payload : List ℕ

unfoldable pub new_request : RtmpRequest
new_request = record {
  message_type = 0;
  message_stream_id = 0;
  timestamp = 0;
  message_length = 0;
  payload = [];
}

abbrev pub complete : RtmpRequest → Bool
complete q = length q.payload == q.message_length

abbrev pub clear_payload : RtmpRequest → RtmpRequest
clear_payload q = record q { payload = [] }

-- `addPayload` of the first `count` bytes of a request, with the others.
unfoldable pub add_payload : RtmpRequest → ℕ → List ℕ → Outcome (RtmpRequest × List ℕ)
add_payload q count bytes = split_bytes (count % 2 ^ 32) bytes >>= λ r.
    if ltb q.message_length (length (q.payload ++ r.0))
    then panic
    else ok (record q { payload = q.payload ++ r.0 }, r.1)

-- `timestampDelta`.
abbrev pub add_delta : RtmpRequest → ℕ → RtmpRequest
add_delta q delta = record q { timestamp = (q.timestamp + delta) % 2 ^ 32 }

-- Read a chunk's message header of the given format, with the bytes behind it.
unfoldable pub build : ℕ → RtmpRequest → List ℕ → Outcome (RtmpRequest × List ℕ)
build format q bytes =
    if format == 0
    then (read_be 3 0 bytes >>= λ time. read_be 3 0 (time.1) >>= λ size.
        read_be 1 0 (size.1) >>= λ kind. read_le 4 (kind.1) >>= λ stream. ok (
          record q {
            message_type = kind.0;
            message_stream_id = stream.0;
            timestamp = time.0;
            message_length = size.0;
          },
          stream.1,
        ))
    else if format == 1
    then (read_be 3 0 bytes >>= λ delta. read_be 3 0 (delta.1) >>= λ size.
        read_be 1 0 (size.1) >>= λ kind.
        ok
          (record (add_delta q delta.0) { message_type = kind.0; message_length = size.0 }, kind.1))
    else if format == 2
    then (read_be 3 0 bytes >>= λ delta. ok (add_delta q delta.0, delta.1))
    else if format == 3
    then ok (q, bytes)
    else panic
