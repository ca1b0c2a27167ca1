-- ===== src/Tests/Rtmp.antt =====
-- RTMP sessions and connections at work.
use ozonebase.Prelude.{ℕ, suc, ◌≡◌, ◌≢◌, refl, List, [], ◌∷◌, arith, length}
use ozonebase.Libgen.Outcome.{ok, fault, spent}
use ozonebase.Libgen.Bytes.{to_be, to_le, read_be, read_le, split_bytes}
use ozonebase.Libgen.Buffer.{int_of}
use ozonebase.Libgen.Text.{codes}
use ozonebase.Protocols.Amf.{number, string, null}
use ozonebase.Protocols.RtmpRequest.{RtmpRequest, new_request, add_payload, build}
use ozonebase.Protocols.RtmpSession.{
  RequestMap, int_min, add_response_payload, build_response0, request_of, put_request,
  chunk_stream_id, load, recv_chunk, recv_chunks,
}
use ozonebase.Protocols.RtmpSession.Commands.{Host, send_stream_begin}
use ozonebase.Protocols.RtmpSession.Session.{
  connected, stream_created, stopped, RtmpSession, new_session, decode_all,
}
use ozonebase.Protocols.RtmpSession.Handling.{
  handle_create_stream, handle_uninitialized, handle_request, handle_entry, handle_complete,
  recv_request,
}
use ozonebase.Protocols.RtmpSession.Messages.{Message, request_for, header_of}
use ozonebase.Protocols.RtmpSession.Sequences.{send_all, put_all, recv_chunks-send_all}
use ozonebase.Protocols.RtmpSession.Progress.{recv_chunks-ne-spent}
use ozonebase.Protocols.RtmpSession.Transitions.{Transition}
use ozonebase.Protocols.RtmpSession.States.{handle_request-Transition}
use ozonebase.Protocols.RtmpSession.Reached.{IsValid, serve-IsValid}
use ozonebase.Protocols.RtmpSession.Stopped.{recv_request-stopped}
use ozonebase.Protocols.RtmpSession.Answers.{command_message, handle_create_stream-answers}
use ozonebase.Protocols.RtmpSession.Overruns.{recv_chunk-again}
use ozonebase.Protocols.RtmpStream.{send_packets}
use ozonebase.Protocols.RtmpStream.Packets.{sent, sent-send_packets}

-- A machine whose doubles are all 1 and 2, with no streams to offer.
abbrev host : Host
host = record {
  int_of_double = λ bits. 1;
  double_of_int = λ n. 2;
  controller = record { application_classes = []; application_instances = [] };
  providers = [];
}

abbrev hello : Message
hello = record { id = 3; message_type = 20; stream = 0; payload = 1 ∷ 2 ∷ 3 ∷ 4 ∷ 5 ∷ [] }

abbrev other : Message
other = record { id = 4; message_type = 8; stream = 1; payload = 6 ∷ [] }

-- Two messages, the first of them in three chunks.
recv_chunks-send_all_example :
    (out : List ℕ) × (send_all 2 (hello ∷ other ∷ []) ≡ ok out)
    × (recv_chunks (suc (length out)) 2 [] out ≡ ok (put_all (hello ∷ other ∷ []) []))
unfolding request_of put_request new_request
recv_chunks-send_all_example =
    recv_chunks-send_all 2 (hello ∷ other ∷ []) [] (omega arith) (omega arith)
      (
        record {
          has_id = (omega arith, omega arith);
          has_type = omega arith;
          has_stream = omega arith;
          has_payload = (omega arith, omega arith);
        },
        refl,
        (
          record {
            has_id = (omega arith, omega arith);
            has_type = omega arith;
            has_stream = omega arith;
            has_payload = (omega arith, omega arith);
          },
          refl,
          tt,
        ),
      )
      (omega arith)

recv_chunks-ne-spent_example : recv_chunks 4 128 [] (3 ∷ 0 ∷ 0 ∷ []) ≢ spent
recv_chunks-ne-spent_example = recv_chunks-ne-spent 4 128 [] (3 ∷ 0 ∷ 0 ∷ []) (omega arith)

-- A window acknowledgement size, as a client sends it, and as it is put together.
abbrev window_bytes : List ℕ
window_bytes = 2 ∷ 0 ∷ 0 ∷ 0 ∷ 0 ∷ 0 ∷ 4 ∷ 5 ∷ 0 ∷ 0 ∷ 0 ∷ 0 ∷ 0 ∷ 0 ∷ 0 ∷ 9 ∷ []

abbrev window : RtmpRequest
window = record {
  message_type = 5;
  message_stream_id = 0;
  timestamp = 0;
  message_length = 4;
  payload = 0 ∷ 0 ∷ 0 ∷ 9 ∷ [];
}

abbrev begin_bytes : List ℕ
begin_bytes = 2 ∷ 0 ∷ 0 ∷ 0 ∷ 0 ∷ 0 ∷ 6 ∷ 4 ∷ 0 ∷ 0 ∷ 0 ∷ 0 ∷ 0 ∷ 0 ∷ 0 ∷ 0 ∷ 0 ∷ 0 ∷ []

abbrev session : RtmpSession
session = new_session (codes "abcd1234")

handle_request-Transition_example : Transition session session
unfolding new_session handle_request handle_uninitialized send_stream_begin build_response0
    add_response_payload int_min int_of split_bytes to_be to_le
handle_request-Transition_example =
    handle_request-Transition host session 2 window {r = (session, begin_bytes)} (λ e. cc) refl

-- The session after it has served the message.
abbrev served : RtmpSession
served = record session { requests = (2, record window { payload = [] }) ∷ [] }

serve-IsValid_example : IsValid served
unfolding new_session recv_request recv_chunks recv_chunk chunk_stream_id build load add_payload
    request_of put_request new_request read_be read_le handle_complete handle_entry handle_request
    handle_uninitialized send_stream_begin build_response0 add_response_payload int_min int_of
    split_bytes to_be to_le
serve-IsValid_example = serve-IsValid host (codes "abcd1234") (window_bytes ∷ []) {s = served} refl

abbrev stopped_session : RtmpSession
stopped_session = record session { state = stopped }

abbrev answered : RtmpSession × List ℕ
answered = (record stopped_session { requests = (2, record window { payload = [] }) ∷ [] }, [])

recv_request-stopped_example :
    (answered.1 ≡ []) × (answered.0 ≡ record stopped_session { requests = answered.0.requests })
unfolding new_session recv_request recv_chunks recv_chunk chunk_stream_id build load add_payload
    request_of put_request new_request read_be read_le handle_complete handle_entry handle_request
    int_min int_of split_bytes
recv_request-stopped_example =
    recv_request-stopped host stopped_session window_bytes {r = answered} refl refl

abbrev connected_session : RtmpSession
connected_session = record session { state = connected }

handle_create_stream-answers_example :
    (answer : List ℕ) × (payload : List ℕ) × (handle_create_stream host connected_session 3
        (request_for hello)
        (string (codes "createStream") ∷ number 0x4000000000000000 ∷ null ∷ [])
      ≡ ok (record connected_session { state = stream_created }, answer))
    × (recv_chunks (suc (length answer)) 128 [] answer
        ≡ ok ((3, request_for (command_message 3 0 payload)) ∷ []))
    × (decode_all (suc (length payload)) payload
        ≡ ok (string (codes "_result") ∷ number 2 ∷ null ∷ number 2 ∷ []))
unfolding new_session
handle_create_stream-answers_example =
    handle_create_stream-answers host connected_session 3 0x4000000000000000 (request_for hello)
      (null ∷ []) (λ n. omega arith) (omega arith, omega arith) (omega arith, omega arith)
      (omega arith)

-- A message of three bytes behind one of four on the same chunk stream.
abbrev second : Message
second = record { id = 3; message_type = 20; stream = 0; payload = 1 ∷ 2 ∷ 3 ∷ [] }

abbrev begun : RequestMap
begun = (3, request_for hello) ∷ []

recv_chunk-again_example : recv_chunk 128 begun 3 (header_of second (1 ∷ 2 ∷ 3 ∷ [])) ≡ fault
unfolding request_of
recv_chunk-again_example =
    recv_chunk-again 128 second begun (1 ∷ 2 ∷ 3 ∷ []) (omega arith)
      (record {
        has_id = (omega arith, omega arith);
        has_type = omega arith;
        has_stream = omega arith;
        has_payload = (omega arith, omega arith);
      })
      (omega arith) (omega arith) (omega arith)

sent-send_packets_example :
    sent (send_packets 4 0 0 2 4 9 1 40 (1 ∷ 2 ∷ 3 ∷ [])) ≡ build_response0 2 4 9 1 (1 ∷ 2 ∷ 3 ∷ [])
sent-send_packets_example = sent-send_packets 2 4 9 1 40 1 (2 ∷ 3 ∷ []) (omega arith)
