-- ===== src/Protocols/RtmpSession/Stopped.antt =====
-- An RtmpSession (server/src/protocols/ozRtmpSession.cpp) in the state STOPPED.
use ozonebase.Prelude.{ℕ, suc, ◌≡◌, sym, ap, inl, inr, List, [], ◌∷◌, ◌++◌, arith, length, ◌∙◌}
use ozonebase.Libgen.Outcome.{ok, >>=-eq-ok, ok-injective}
use ozonebase.Protocols.RtmpRequest.{RtmpRequest}
use ozonebase.Protocols.RtmpSession.{RequestMap, recv_chunks}
use ozonebase.Protocols.RtmpSession.Commands.{Host}
use ozonebase.Protocols.RtmpSession.Session.{stopped, RtmpSession}
use ozonebase.Protocols.RtmpSession.Handling.{
  handle_request, handle_entry, handle_complete, recv_request,
}
use ozonebase.Protocols.RtmpSession.Reached.{handle_entry_cases}

module _ (host : Host) where
  handle_request-stopped :
      (s : RtmpSession) (id : ℕ) (q : RtmpRequest)
      → s.state ≡ stopped
      → handle_request host s id q ≡ ok (s, [])
  unfolding handle_request
  handle_request-stopped s id q e = ground arith

  handle_entry-stopped :
      (s : RtmpSession) (id : ℕ) (q : RtmpRequest) {r : (RtmpSession × List ℕ) × RtmpRequest}
      → s.state ≡ stopped
      → handle_entry host s id q ≡ ok r
      → r.0 ≡ (s, [])
  handle_entry-stopped s id q {r} e h = elim (handle_entry_cases host s id q {r = r} h) [
    | inl k ↦ ok-injective (sym k ∙ handle_request-stopped s id q e)
    | inr k ↦ k
  ]

  handle_complete-stopped :
      (s : RtmpSession) (requests : RequestMap) {r : (RtmpSession × RequestMap) × List ℕ}
      → s.state ≡ stopped
      → handle_complete host s requests ≡ ok r
      → (r.0.0 ≡ s) × (r.1 ≡ [])
  unfolding handle_complete
  handle_complete-stopped s [] e h =
      let f = ok-injective h in (sym (ap (λ x. x.0.0) f), sym (ap (λ x. x.1) f))
  handle_complete-stopped s (entry ∷ requests) {r} e h =
      let (a, ea, h₁) = >>=-eq-ok (handle_entry host s entry.0 entry.1) _ h in
      let (b, eb, h₂) = >>=-eq-ok (handle_complete host a.0.0 requests) _ h₁ in
      let same_session = handle_entry-stopped s entry.0 entry.1 {r = a} e ea in
      let (c, d) =
        handle_complete-stopped (a.0.0) requests {r = b} (ap (λ x. x.0.state) same_session ∙ e)
          eb in
      let f = ok-injective h₂ in
      (
        sym (ap (λ x. x.0.0) f) ∙ (c ∙ ap (λ x. x.0) same_session),
        sym (ap (λ x. x.1) f) ∙ (ap (λ l. l ++ b.1) (ap (λ x. x.1) same_session) ∙ d),
      )

  -- A session that has stopped serves no more: a request that comes to an end gets no answer, and
  -- changes nothing but the messages that are put together.
  pub recv_request-stopped :
      (s : RtmpSession) (request : List ℕ) {r : RtmpSession × List ℕ}
      → s.state ≡ stopped
      → recv_request host s request ≡ ok r
      → (r.1 ≡ []) × (r.0 ≡ record s { requests = r.0.requests })
  unfolding recv_request
  recv_request-stopped s request {r} e h =
      let (requests, eq, h₁) =
        >>=-eq-ok (recv_chunks (suc (length request)) s.rx_chunk_size s.requests request) _ h in
      let (a, ea, h₂) = >>=-eq-ok (handle_complete host s requests) _ h₁ in
      let (c, d) = handle_complete-stopped s requests {r = a} e ea in
      let f = ok-injective h₂ in
      (
        sym (ap (λ x. x.1) f) ∙ d,
        sym (ap (λ x. x.0) f)
            ∙ (ap (λ (x : RtmpSession). record x { requests = a.0.1 }) c
                ∙ ap (λ (x : RequestMap). record s { requests = x }) (ap (λ x. x.0.requests) f)),
      )
