-- ===== src/Protocols/RtmpSession/States.antt =====
-- The states of an RtmpSession (server/src/protocols/ozRtmpSession.cpp): which one a handled request
-- leads to.
use ozonebase.Prelude.{
  ℕ, ◌≡◌, ◌≢◌, refl, sym, subst, ◌⊎◌, inl, inr, List, [], ◌∷◌, Option, none, some, arith,
  if◌then◌else◌,
}
use ozonebase.Libgen.Outcome.{ok, ◌>>=◌, >>=-ok}
use ozonebase.Libgen.Text.{codes, same}
use ozonebase.Protocols.Amf.{Amf0Record, Amf0Fields}
use ozonebase.Protocols.Amf.Access.{get_number, get_string, get_object, get_record}
use ozonebase.Protocols.RtmpRequest.{RtmpRequest}
use ozonebase.Protocols.RtmpSession.Commands.{
  Host, play_chunk_size, send_chunk_size, send_stream_begin,
}
use ozonebase.Protocols.RtmpSession.Session.{
  State, uninitialized, initialized, connected, stream_created, playing, stopped, RtmpSession,
  Handled, record_at, start_stream, stop_all,
}
use ozonebase.Protocols.RtmpSession.Handling.{
  app_of, encoding_of, status, connect, handle_connect, handle_create_stream, start_playing, play,
  close_stream, handle_play, handle_user_ctrl, handle_uninitialized, handle_connected,
  handle_created, handle_request,
}
use ozonebase.Protocols.RtmpSession.Transitions.{
  Transition, stays, connects, creates, plays, closes, KeepsStreams, Leads, Leads->>=, Leads-ok,
  Leads-if, Leads-pass,
}

module _ (host : Host) where
  same_session : (s : RtmpSession) → Transition s s
  same_session s = stays refl (refl, refl)

  closing :
      (s : RtmpSession)
      → (s.state ≡ stream_created) ⊎ (s.state ≡ playing)
      → Transition s (record s { state = stopped; streams = stop_all s.streams })
  closing s h = closes h refl refl refl

  start_playing-Leads :
      (P : RtmpSession → Type 0) (s : RtmpSession) (q : RtmpRequest) (t : ℕ) (p : Option ℕ)
      → P s
      → ((provider : ℕ)
          → P (record (start_stream s q.message_stream_id provider) { state = playing }))
      → Leads P (start_playing host s q t p)
  unfolding start_playing
  start_playing-Leads P s q t none h g = search (Leads->>=, Leads-ok, h)
  start_playing-Leads P s q t (some p) h g = search (Leads->>=, Leads-ok, g p)

  play-Transition :
      (s : RtmpSession) (q : RtmpRequest) (t : ℕ) (source : List ℕ)
      → (s.state ≡ stream_created) ⊎ (s.state ≡ playing)
      → Leads (Transition s) (play host s q t source)
  unfolding play start_stream
  play-Transition s q t source h = Leads->>= (send_chunk_size s.tx_chunk_size) _ λ size.
      Leads->>= (send_stream_begin play_chunk_size 1) _ λ begin.
        Leads->>= (status host _ q t _ _ _ _) _ λ reset. Leads-pass (start_playing host _ q t _) _ (
          start_playing-Leads (Transition s)
            (record s { stream_source = source; tx_chunk_size = play_chunk_size }) q t _
            (stays refl (refl, refl))
            λ p. plays h refl q.message_stream_id p (ground arith, ground arith))

  handle_play-Transition :
      (s : RtmpSession) (q : RtmpRequest) (records : List Amf0Record)
      → (s.state ≡ stream_created) ⊎ (s.state ≡ playing)
      → Leads (Transition s) (handle_play host s q records)
  unfolding handle_play close_stream
  handle_play-Transition s q [] h = search (Leads-ok, same_session s)
  handle_play-Transition s q (r ∷ []) h = search (Leads-ok, same_session s)
  handle_play-Transition s q (r ∷ t ∷ records) h =
      search (Leads->>=, Leads-if, Leads-ok, same_session s, play-Transition, h, closing s h) depth
        9

  -- The two sessions that the name of the application leads to.
  app_of-Leads :
      {P : RtmpSession → Type 0} (s : RtmpSession) (o : Option Amf0Record)
      (f : RtmpSession → Handled)
      → Leads P (f s)
      → ((name : List ℕ) → Leads P (f (record s { stream_name = name })))
      → Leads P (app_of host s o >>= f)
  app_of-Leads s none f h g = h
  app_of-Leads {P} s (some r) f h g =
      subst (Leads P) (sym (>>=-ok (get_string r) (λ name. record s { stream_name = name }) f))
        (Leads->>= (get_string r) (λ name. f (record s { stream_name = name })) g)

  connect-Transition :
      (s s' : RtmpSession) (encoding : ℕ)
      → s.state ≡ uninitialized
      → KeepsStreams s s'
      → Leads (Transition s) (connect host s' encoding)
  unfolding connect
  connect-Transition s s' encoding h k = search (Leads->>=, Leads-ok, made) depth 9
    where
      made : Transition s (record s' { state = connected })
      made = connects h refl k

  handle_connect-Transition :
      (s : RtmpSession) (records : List Amf0Record)
      → s.state ≡ uninitialized
      → Leads (Transition s) (handle_connect host s records)
  unfolding handle_connect
  handle_connect-Transition s [] h = search (Leads-ok, same_session s)
  handle_connect-Transition s (r ∷ []) h = search (Leads-ok, same_session s)
  handle_connect-Transition s (r ∷ t ∷ records) h = Leads->>= (get_string r) _ λ command.
      Leads->>= (get_number t) _ λ transaction. Leads->>= (record_at records 0) _ λ p.
        Leads->>= (get_object p) _ λ parameters.
          app_of-Leads s (get_record parameters (codes "app")) _
            (rest command parameters s refl (refl, refl))
            λ name. rest command parameters (record s { stream_name = name }) refl (refl, refl)
    where
      rest :
          (command : List ℕ) (parameters : Amf0Fields) (s' : RtmpSession)
          → s'.state ≡ s.state
          → KeepsStreams s s'
          → Leads (Transition s) (
              encoding_of host (get_record parameters (codes "objectEncoding")) >>= λ encoding.
              if same command (codes "connect") then connect host s' encoding else ok (s', []))
      rest command parameters s' e k =
          Leads->>= (encoding_of host (get_record parameters (codes "objectEncoding"))) _
            λ encoding.
              Leads-if (same command (codes "connect")) _ _ (connect-Transition s s' encoding h k)
                (Leads-ok s' [] (stays e k))

  handle_create_stream-Transition :
      (s : RtmpSession) (id : ℕ) (q : RtmpRequest) (records : List Amf0Record)
      → s.state ≡ connected
      → Leads (Transition s) (handle_create_stream host s id q records)
  unfolding handle_create_stream
  handle_create_stream-Transition s id q [] h = search (Leads-ok, same_session s)
  handle_create_stream-Transition s id q (r ∷ []) h = search (Leads-ok, same_session s)
  handle_create_stream-Transition s id q (r ∷ t ∷ records) h =
      search (Leads->>=, Leads-if, Leads-ok, same_session s, made) depth 9
    where
      made : Transition s (record s { state = stream_created })
      made = creates h refl (refl, refl)

  handle_uninitialized-Transition :
      (s : RtmpSession) (q : RtmpRequest)
      → s.state ≡ uninitialized
      → Leads (Transition s) (handle_uninitialized host s q)
  unfolding handle_uninitialized
  handle_uninitialized-Transition s q e =
      search (Leads->>=, Leads-if, Leads-ok, same_session s, handle_connect-Transition, e) depth 7

  handle_connected-Transition :
      (s : RtmpSession) (id : ℕ) (q : RtmpRequest)
      → s.state ≡ connected
      → Leads (Transition s) (handle_connected host s id q)
  unfolding handle_connected
  handle_connected-Transition s id q e =
      search (Leads->>=, Leads-if, Leads-ok, same_session s, handle_create_stream-Transition, e)
        depth 7

  handle_created-Transition :
      (s : RtmpSession) (q : RtmpRequest)
      → (s.state ≡ stream_created) ⊎ (s.state ≡ playing)
      → Leads (Transition s) (handle_created host s q)
  unfolding handle_created handle_user_ctrl
  handle_created-Transition s q e =
      search (Leads->>=, Leads-if, Leads-ok, same_session s, handle_play-Transition, e) depth 9

  handle_request-Leads :
      (st : State) (s : RtmpSession) (id : ℕ) (q : RtmpRequest)
      → s.state ≡ st
      → st ≢ initialized
      → Leads (Transition s) (handle_request host s id q)
  unfolding handle_request
  handle_request-Leads uninitialized s id q e ne =
      subst (Leads (Transition s)) (ground arith) (handle_uninitialized-Transition s q e)
  handle_request-Leads initialized s id q e ne = absurd (ne refl)
  handle_request-Leads connected s id q e ne =
      subst (Leads (Transition s)) (ground arith) (handle_connected-Transition s id q e)
  handle_request-Leads stream_created s id q e ne =
      subst (Leads (Transition s)) (ground arith) (handle_created-Transition s q (inl e))
  handle_request-Leads playing s id q e ne =
      subst (Leads (Transition s)) (ground arith) (handle_created-Transition s q (inr e))
  handle_request-Leads stopped s id q e ne =
      subst (Leads (Transition s)) (ground arith) (Leads-ok s [] (same_session s))

  -- A request that is handled in any state but INITIALIZED leaves the state and the streams, or takes
  -- one of four steps: UNINITIALIZED to CONNECTED, CONNECTED to STREAM_CREATED, STREAM_CREATED or
  -- PLAYING to PLAYING with a stream more, and STREAM_CREATED or PLAYING to STOPPED, which tells the
  -- streams of the map, and no others, to stop.
  pub handle_request-Transition :
      (s : RtmpSession) (id : ℕ) (q : RtmpRequest) {r : RtmpSession × List ℕ}
      → s.state ≢ initialized
      → handle_request host s id q ≡ ok r
      → Transition s r.0
  handle_request-Transition s id q {r} ne e =
      (handle_request-Leads s.state s id q refl ne).holds r e
