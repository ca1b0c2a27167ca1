-- ===== src/Protocols/RtmpSession/Reached.antt =====
-- What holds of an RtmpSession (server/src/protocols/ozRtmpSession.cpp) after any requests.
use ozonebase.Prelude.{
  ℕ, suc, ◌≡◌, ◌≢◌, refl, sym, ap, subst, true, false, ◌⊎◌, inl, inr, List, [], ◌∷◌, length, ◌∙◌,
  Bool-cases,
}
use ozonebase.Libgen.Outcome.{Outcome, ok, ◌>>=◌, >>=-eq-ok, ok-injective}
use ozonebase.Protocols.RtmpRequest.{RtmpRequest, complete}
use ozonebase.Protocols.RtmpSession.{RequestMap, recv_chunks}
use ozonebase.Protocols.RtmpSession.Commands.{Host}
use ozonebase.Protocols.RtmpSession.Session.{
  initialized, playing, stopped, RtmpStream, RtmpSession, new_session, start_stream, has_stream,
  stop_all,
}
use ozonebase.Protocols.RtmpSession.Handling.{
  handle_request, handle_entry, handle_complete, recv_request,
}
use ozonebase.Protocols.RtmpSession.Transitions.{
  Transition, stays, connects, creates, plays, closes,
}
use ozonebase.Protocols.RtmpSession.States.{handle_request-Transition}

abbrev pub AllStopped : List RtmpStream → Type 0
AllStopped [] = Unit {0}
AllStopped (stream ∷ streams) = (stream.is_running ≡ false) × AllStopped streams

abbrev pub AllRunning : List RtmpStream → Type 0
AllRunning [] = Unit {0}
AllRunning (stream ∷ streams) = (stream.is_running ≡ true) × AllRunning streams

-- The state INITIALIZED is not entered, there are streams only while or after one plays, and the
-- streams of the map have been told to stop once the session has stopped; the streams that the map
-- did not take are never told to.
pub record IsValid (s : RtmpSession) : Type 0 where
  pub reached : s.state ≢ initialized
  pub quiet : s.state ≢ playing → s.state ≢ stopped → (s.streams ≡ []) × (s.unmapped ≡ [])
  pub halted : s.state ≡ stopped → AllStopped s.streams
  pub loose : AllRunning s.unmapped

stop_all-AllStopped : (streams : List RtmpStream) → AllStopped (stop_all streams)
stop_all-AllStopped [] = tt
stop_all-AllStopped (stream ∷ streams) = (refl, stop_all-AllStopped streams)

start_stream-AllRunning :
    (s : RtmpSession) (id provider : ℕ)
    → AllRunning s.unmapped
    → AllRunning ((start_stream s id provider).unmapped)
unfolding start_stream
start_stream-AllRunning s id provider h = elim (Bool-cases (has_stream id s.streams)) [
  | inl e ↦ rw e (refl, h)
  | inr e ↦ rw e h
]

Transition-IsValid : (s s' : RtmpSession) → Transition s s' → IsValid s → IsValid s'
Transition-IsValid s s' (stays e k) v = record {
  reached = λ h. v.reached (sym e ∙ h);
  quiet = λ p q. let (a, b) = v.quiet (λ h. p (e ∙ h)) (λ h. q (e ∙ h)) in (k.0 ∙ a, k.1 ∙ b);
  halted = λ h. subst AllStopped (sym k.0) (v.halted (sym e ∙ h));
  loose = subst AllRunning (sym k.1) v.loose;
}
Transition-IsValid s s' (connects b e k) v = record {
  reached = λ h. cc;
  quiet = λ p q. let (a, b) = v.quiet (λ h. cc) (λ h. cc) in (k.0 ∙ a, k.1 ∙ b);
  halted = λ h. absurd cc;
  loose = subst AllRunning (sym k.1) v.loose;
}
Transition-IsValid s s' (creates b e k) v = record {
  reached = λ h. cc;
  quiet = λ p q. let (a, b) = v.quiet (λ h. cc) (λ h. cc) in (k.0 ∙ a, k.1 ∙ b);
  halted = λ h. absurd cc;
  loose = subst AllRunning (sym k.1) v.loose;
}
Transition-IsValid s s' (plays b e id provider k) v = record {
  reached = λ h. cc;
  quiet = λ p q. absurd (p e);
  halted = λ h. absurd cc;
  loose = subst AllRunning (sym k.1) (start_stream-AllRunning s id provider v.loose);
}
Transition-IsValid s s' (closes b e k l) v = record {
  reached = λ h. cc;
  quiet = λ p q. absurd (q e);
  halted = λ h. subst AllStopped (sym k) (stop_all-AllStopped s.streams);
  loose = subst AllRunning (sym l) v.loose;
}

module _ (host : Host) where
  -- An entry that is complete is handled, and any other leaves the session.
  pub handle_entry_cases :
      (s : RtmpSession) (id : ℕ) (q : RtmpRequest) {r : (RtmpSession × List ℕ) × RtmpRequest}
      → handle_entry host s id q ≡ ok r
      → (handle_request host s id q ≡ ok (r.0)) ⊎ (r.0 ≡ (s, []))
  unfolding handle_entry
  handle_entry_cases s id q {r} e = elim (Bool-cases (complete q)) [
    | inl c ↦
        let (a, ea, eb) = >>=-eq-ok (handle_request host s id q) _ (rw c at e) in
        inl (ea ∙ ap (λ x. ok (x.0)) (ok-injective eb))
    | inr c ↦ inr (ap (λ x. x.0) (sym (ok-injective (rw c at e))))
  ]

  handle_entry-IsValid :
      (s : RtmpSession) (id : ℕ) (q : RtmpRequest) {r : (RtmpSession × List ℕ) × RtmpRequest}
      → IsValid s
      → handle_entry host s id q ≡ ok r
      → IsValid (r.0.0)
  handle_entry-IsValid s id q {r} v e = elim (handle_entry_cases s id q {r = r} e) [
    | inl h ↦ Transition-IsValid s r.0.0 (handle_request-Transition host s id q v.reached h) v
    | inr h ↦ subst (λ x. IsValid x.0) (sym h) v
  ]

  handle_complete-IsValid :
      (s : RtmpSession) (requests : RequestMap) {r : (RtmpSession × RequestMap) × List ℕ}
      → IsValid s
      → handle_complete host s requests ≡ ok r
      → IsValid (r.0.0)
  unfolding handle_complete
  handle_complete-IsValid s [] v e = subst (λ x. IsValid (x.0.0)) (ok-injective e) v
  handle_complete-IsValid s (entry ∷ requests) v e =
      let (h, eh, e₁) = >>=-eq-ok (handle_entry host s entry.0 entry.1) _ e in
      let (rest, er, e₂) = >>=-eq-ok (handle_complete host h.0.0 requests) _ e₁ in
      subst (λ x. IsValid (x.0.0)) (ok-injective e₂)
        (handle_complete-IsValid h.0.0 requests (handle_entry-IsValid s entry.0 entry.1 v eh) er)

  -- Several requests, one after the other.
  abbrev pub serve : RtmpSession → List (List ℕ) → Outcome RtmpSession
  serve s [] = ok s
  serve s (request ∷ requests) = recv_request host s request >>= λ r. serve r.0 requests

  recv_request-IsValid :
      (s : RtmpSession) (request : List ℕ) {r : RtmpSession × List ℕ}
      → IsValid s
      → recv_request host s request ≡ ok r
      → IsValid r.0
  unfolding recv_request
  recv_request-IsValid s request {r} v e =
      let (requests, eq, e₁) =
        >>=-eq-ok (recv_chunks (suc (length request)) s.rx_chunk_size s.requests request) _ e in
      let (h, eh, e₂) = >>=-eq-ok (handle_complete host s requests) _ e₁ in
      let w : IsValid (h.0.0) = handle_complete-IsValid s requests v eh in
      subst (λ x. IsValid x.0) (ok-injective e₂)
        (record { reached = w.reached; quiet = w.quiet; halted = w.halted; loose = w.loose })

  new_session-IsValid : (client_id : List ℕ) → IsValid (new_session client_id)
  unfolding new_session
  new_session-IsValid client_id = record {
    reached = λ e. cc;
    quiet = λ p q. (refl, refl);
    halted = λ e. absurd cc;
    loose = tt;
  }

  serve_keeps :
      (s : RtmpSession) (requests : List (List ℕ)) {s' : RtmpSession}
      → IsValid s
      → serve s requests ≡ ok s'
      → IsValid s'
  serve_keeps s [] v e = subst IsValid (ok-injective e) v
  serve_keeps s (request ∷ requests) v e =
      let (r, er, e₁) = >>=-eq-ok (recv_request host s request) _ e in
      serve_keeps r.0 requests (recv_request-IsValid s request v er) e₁

  -- After any requests that a new session has served, whatever their bytes, it has not been in the
  -- state INITIALIZED, it has streams only if it is PLAYING or STOPPED, and if it is STOPPED then all
  -- streams of its map have been told to stop; but those that it started under a number that the map
  -- had already have not, in any state.
  pub serve-IsValid :
      (client_id : List ℕ) (requests : List (List ℕ)) {s : RtmpSession}
      → serve (new_session client_id) requests ≡ ok s
      → IsValid s
  serve-IsValid client_id requests e =
      serve_keeps (new_session client_id) requests (new_session-IsValid client_id) e
