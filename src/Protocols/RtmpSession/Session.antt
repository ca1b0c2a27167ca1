-- ===== src/Protocols/RtmpSession/Session.antt =====
-- server/src/protocols/ozRtmpSession.h and .cpp: the state of an RtmpSession, its streams, and the
-- records of a command.
use ozonebase.Prelude.{
  ℕ, zero, suc, Bool, true, false, List, [], ◌∷◌, ◌==◌, ◌||◌, if◌then◌else◌, length,
}
use ozonebase.Libgen.Outcome.{Outcome, ok, fault, spent, ◌>>=◌}
use ozonebase.Protocols.Amf.{Amf0Record, decode}
use ozonebase.Protocols.RtmpRequest.{RtmpRequest}
use ozonebase.Protocols.RtmpSession.{RequestMap}
use ozonebase.Protocols.RtmpSession.Commands.{type_cmd_amf3, type_cmd_amf0}

pub data State : Type 0 where
  uninitialized initialized connected stream_created playing stopped : State

-- A stream that was started, and whether it has been told to stop.
pub record RtmpStream : Type 0 where
  pub stream_id : ℕ
  pub provider : ℕ
  pub is_running : Bool

-- The session, with its connection's `mTxChunkSize` and `mRxChunkSize`. The streams that were started
-- and are in no map, because the map had one with their number, are in `unmapped`.
pub record RtmpSession : Type 0 where
  pub state : State
  pub stream_name : List ℕ
  pub stream_source : List ℕ
  pub client_id : List ℕ
  pub streams : List RtmpStream
  pub unmapped : List RtmpStream
  pub requests : RequestMap
  pub tx_chunk_size : ℕ
  pub rx_chunk_size : ℕ

-- A new session on a new connection, with the identity that it drew.
unfoldable pub new_session : List ℕ → RtmpSession
new_session client_id = record {
  state = uninitialized;
  stream_name = [];
  stream_source = [];
  client_id = client_id;
  streams = [];
  unmapped = [];
  requests = [];
  tx_chunk_size = 128;
  rx_chunk_size = 128;
}

abbrev pub Handled : Type 0
Handled = Outcome (RtmpSession × List ℕ)

-- The records that a payload holds, on a fuel that each takes one of.
unfoldable pub decode_all : ℕ → List ℕ → Outcome (List Amf0Record)
decode_all zero bytes = spent
decode_all (suc fuel) [] = ok []
decode_all (suc fuel) (b ∷ bytes) = decode (suc (length (b ∷ bytes))) (b ∷ bytes) >>= λ r.
    decode_all fuel (r.1) >>= λ rest. ok (r.0 ∷ rest)

-- `records[i]`, which is not checked.
abbrev pub record_at : List Amf0Record → ℕ → Outcome Amf0Record
record_at [] i = fault
record_at (r ∷ records) zero = ok r
record_at (r ∷ records) (suc i) = record_at records i

-- The payload of a command: the first byte of one in AMF3 is dropped.
abbrev pub drop_first : List ℕ → Outcome (List ℕ)
drop_first [] = fault
drop_first (b ∷ bytes) = ok bytes

unfoldable pub command_records : RtmpRequest → Outcome (List Amf0Record)
command_records q =
    (if q.message_type == type_cmd_amf3 then drop_first q.payload else ok q.payload) >>= λ bytes.
    decode_all (suc (length bytes)) bytes

abbrev pub is_command : ℕ → Bool
is_command kind = (kind == type_cmd_amf3) || (kind == type_cmd_amf0)

-- `mRtmpStreams.insert`: a stream whose number is there already is not taken.
unfoldable pub has_stream : ℕ → List RtmpStream → Bool
has_stream id [] = false
has_stream id (s ∷ streams) =
    let later = has_stream id streams in if s.stream_id == id then true else later

unfoldable pub start_stream : RtmpSession → ℕ → ℕ → RtmpSession
start_stream s id provider =
    let stream : RtmpStream = record { stream_id = id; provider = provider; is_running = true } in
    if has_stream id s.streams
    then record s { unmapped = stream ∷ s.unmapped }
    else record s { streams = stream ∷ s.streams }

abbrev pub stop_stream : RtmpStream → RtmpStream
stop_stream stream = record stream { is_running = false }

abbrev pub stop_all : List RtmpStream → List RtmpStream
stop_all [] = []
stop_all (stream ∷ streams) = stop_stream stream ∷ stop_all streams
