-- ===== src/Protocols/RtmpSession/Handling.antt =====
-- server/src/protocols/ozRtmpSession.cpp: RtmpSession::handleRequest as a function from the session and
-- a request to the session and what is added to the response, and RtmpSession::recvRequest. What a
-- debug message alone reads is not read.
use ozonebase.Prelude.{ℕ, suc, List, [], ◌∷◌, ◌++◌, Option, none, some, ◌==◌, if◌then◌else◌, length}
use ozonebase.Libgen.Outcome.{Outcome, ok, ◌>>=◌}
use ozonebase.Libgen.Bytes.{read_be}
use ozonebase.Libgen.Text.{codes, same, c_str, stringtf}
use ozonebase.Protocols.Amf.{Amf0Record, string, Amf0Fields, end, field}
use ozonebase.Protocols.Amf.Access.{get_number, get_string, get_object, get_record}
use ozonebase.Base.Controller.{verify_stream_name, find_stream}
use ozonebase.Protocols.RtmpRequest.{RtmpRequest, complete, clear_payload}
use ozonebase.Protocols.RtmpSession.{RequestMap, recv_chunks}
use ozonebase.Protocols.RtmpSession.Commands.{
  Host, type_user_ctrl_message, type_window_ack_size, type_cmd_amf3, play_chunk_size,
  send_stream_begin, send_window_ack_size, send_peer_bandwidth, send_chunk_size,
  send_connect_result, send_connected, send_closed, send_stream_created, send_status,
}
use ozonebase.Protocols.RtmpSession.Session.{
  uninitialized, initialized, connected, stream_created, playing, stopped, RtmpStream, RtmpSession,
  Handled, record_at, command_records, is_command, start_stream, stop_all,
}

module _ (host : Host) where
  -- The number of the encoding: the request's, or else the number of the message type for AMF3.
  abbrev pub encoding_of : Option Amf0Record → Outcome ℕ
  encoding_of none = ok type_cmd_amf3
  encoding_of (some r) = get_number r >>= λ bits. ok (host.int_of_double bits)

  abbrev pub app_of : RtmpSession → Option Amf0Record → Outcome RtmpSession
  app_of s none = ok s
  app_of s (some r) = get_string r >>= λ name. ok (record s { stream_name = name })

  unfoldable pub connect : RtmpSession → ℕ → Handled
  connect s encoding = send_window_ack_size s.tx_chunk_size >>= λ window.
      send_peer_bandwidth s.tx_chunk_size >>= λ bandwidth.
      send_stream_begin s.tx_chunk_size 0 >>= λ begin.
      send_connect_result host s.tx_chunk_size (verify_stream_name host.controller s.stream_name)
        encoding
      >>= λ answer. ok (record s { state = connected }, window ++ (bandwidth ++ (begin ++ answer)))

  -- Commands in the state UNINITIALIZED: each is read as if it were "connect".
  unfoldable pub handle_connect : RtmpSession → List Amf0Record → Handled
  handle_connect s [] = ok (s, [])
  handle_connect s (r ∷ []) = ok (s, [])
  handle_connect s (r ∷ t ∷ records) = get_string r >>= λ command. get_number t >>= λ transaction.
      record_at records 0 >>= λ p. get_object p >>= λ parameters.
      app_of s (get_record parameters (codes "app")) >>= λ s'.
      encoding_of (get_record parameters (codes "objectEncoding")) >>= λ encoding.
      if same command (codes "connect") then connect s' encoding else ok (s', [])

  -- Commands in the state CONNECTED.
  unfoldable pub handle_create_stream : RtmpSession → ℕ → RtmpRequest → List Amf0Record → Handled
  handle_create_stream s id q [] = ok (s, [])
  handle_create_stream s id q (r ∷ []) = ok (s, [])
  handle_create_stream s id q (r ∷ t ∷ records) = get_string r >>= λ command.
      get_number t >>= λ transaction.
      if same command (codes "createStream")
      then (send_stream_created host s.tx_chunk_size id q.message_stream_id
            (host.int_of_double transaction)
          >>= λ answer. ok (record s { state = stream_created }, answer))
      else ok (s, [])

  -- An "onStatus" whose description has the name of the source.
  unfoldable pub status :
      RtmpSession → RtmpRequest → ℕ → List ℕ → List ℕ → List ℕ → Amf0Fields → Outcome (List ℕ)
  status s q transaction outcome words details last =
      stringtf words s.stream_source (codes ".") >>= λ description.
      send_status host s.tx_chunk_size q.message_stream_id transaction outcome description details
        s.client_id last

  -- What follows the reset: the stream is started, or the session is told that there is none.
  unfoldable pub start_playing : RtmpSession → RtmpRequest → ℕ → Option ℕ → Handled
  start_playing s q transaction (some provider) =
      status s q transaction (codes "NetStream.Play.Start") (codes "Started playing ")
        s.stream_source end
      >>= λ answer.
          ok (record (start_stream s q.message_stream_id provider) { state = playing }, answer)
  start_playing s q transaction none =
      status s q transaction (codes "NetStream.Play.Failed") (codes "Unknown stream ")
        s.stream_source end
      >>= λ failed. send_closed host s.tx_chunk_size >>= λ closed. ok (s, failed ++ closed)

  unfoldable pub play : RtmpSession → RtmpRequest → ℕ → List ℕ → Handled
  play s₀ q transaction source = send_chunk_size s₀.tx_chunk_size >>= λ size.
      let s : RtmpSession = record s₀ { stream_source = source; tx_chunk_size = play_chunk_size } in
      send_stream_begin s.tx_chunk_size 1 >>= λ begin.
      status s q transaction (codes "NetStream.Play.Reset") (codes "Playing and resetting ")
        s.stream_source end
      >>= λ reset.
          start_playing s q transaction
            (find_stream host.controller host.providers s.stream_name s.stream_source)
          >>= λ r. ok (r.0, size ++ (begin ++ (reset ++ r.1)))

  -- One message for each stream.
  unfoldable pub stop_messages : RtmpSession → RtmpRequest → ℕ → List RtmpStream → Outcome (List ℕ)
  stop_messages s q transaction [] = ok []
  stop_messages s q transaction (stream ∷ streams) =
      status s q transaction (codes "NetStream.Play.Stop") (codes "Stopped playing ")
        (c_str s.stream_source) (field (codes "reason") (string []) end)
      >>= λ message. stop_messages s q transaction streams >>= λ rest. ok (message ++ rest)

  unfoldable pub close_stream : RtmpSession → RtmpRequest → ℕ → Handled
  close_stream s q transaction = stop_messages s q transaction s.streams >>= λ messages.
      ok (record s { state = stopped; streams = stop_all s.streams }, messages)

  -- Commands in the states STREAM_CREATED and PLAYING.
  unfoldable pub handle_play : RtmpSession → RtmpRequest → List Amf0Record → Handled
  handle_play s q [] = ok (s, [])
  handle_play s q (r ∷ []) = ok (s, [])
  handle_play s q (r ∷ t ∷ records) = get_string r >>= λ command. get_number t >>= λ bits.
      if same command (codes "play")
      then (record_at records 1 >>= λ p.
          get_string p >>= λ source. play s q (host.int_of_double bits) source)
      else if same command (codes "closeStream")
      then close_stream s q (host.int_of_double bits)
      else ok (s, [])

  -- The user control messages of these states: the event, and for the event "set buffer length" the
  -- stream and the length, are read and come to nothing.
  unfoldable pub handle_user_ctrl : RtmpSession → List ℕ → Handled
  handle_user_ctrl s payload = read_be 2 0 payload >>= λ event.
      if event.0 == 3
      then (read_be 4 0 (event.1) >>= λ id. read_be 4 0 (id.1) >>= λ size. ok (s, []))
      else ok (s, [])

  -- `handleRequest`, by the state.
  unfoldable pub handle_uninitialized : RtmpSession → RtmpRequest → Handled
  handle_uninitialized s q =
      if q.message_type == type_window_ack_size
      then (send_stream_begin s.tx_chunk_size 0 >>= λ begin. ok (s, begin))
      else if is_command q.message_type
      then (command_records q >>= λ records. handle_connect s records)
      else ok (s, [])

  unfoldable pub handle_initialized : RtmpSession → RtmpRequest → Handled
  handle_initialized s q =
      if q.message_type == type_window_ack_size
      then (send_stream_begin s.tx_chunk_size 0 >>= λ begin.
          send_connected host s.tx_chunk_size >>= λ answer.
          ok (record s { state = connected }, begin ++ answer))
      else ok (s, [])

  unfoldable pub handle_connected : RtmpSession → ℕ → RtmpRequest → Handled
  handle_connected s id q =
      if is_command q.message_type
      then (command_records q >>= λ records. handle_create_stream s id q records)
      else ok (s, [])

  unfoldable pub handle_created : RtmpSession → RtmpRequest → Handled
  handle_created s q =
      if q.message_type == type_user_ctrl_message
      then handle_user_ctrl s q.payload
      else if is_command q.message_type
      then (command_records q >>= λ records. handle_play s q records)
      else ok (s, [])

  unfoldable pub handle_request : RtmpSession → ℕ → RtmpRequest → Handled
  handle_request s id q = elim s.state [
    | uninitialized ↦ handle_uninitialized s q
    | initialized ↦ handle_initialized s q
    | connected ↦ handle_connected s id q
    | stream_created ↦ handle_created s q
    | playing ↦ handle_created s q
    | stopped ↦ ok (s, [])
  ]

  -- The second loop of `recvRequest`, over the entries of `mRequests`: the complete ones are handled
  -- and cleared. The session's own `requests` is put together again from them.
  unfoldable pub handle_entry :
      RtmpSession → ℕ → RtmpRequest → Outcome ((RtmpSession × List ℕ) × RtmpRequest)
  handle_entry s id q =
      if complete q
      then (handle_request s id q >>= λ r. ok (r, clear_payload q))
      else ok ((s, []), q)

  unfoldable pub handle_complete :
      RtmpSession → RequestMap → Outcome ((RtmpSession × RequestMap) × List ℕ)
  handle_complete s [] = ok ((s, []), [])
  handle_complete s (entry ∷ requests) = handle_entry s entry.0 entry.1 >>= λ h.
      handle_complete (h.0.0) requests >>= λ rest.
      ok ((rest.0.0, (entry.0, h.1) ∷ rest.0.1), h.0.1 ++ rest.1)

  unfoldable pub recv_request : RtmpSession → List ℕ → Handled
  recv_request s request =
      recv_chunks (suc (length request)) s.rx_chunk_size s.requests request >>= λ requests.
      handle_complete s requests >>= λ r. ok (record (r.0.0) { requests = r.0.1 }, r.1)
