-- ===== src/Protocols/RtmpSession/Transitions.antt =====
-- What handling a request can do to the state and the streams of an RtmpSession
-- (server/src/protocols/ozRtmpSession.cpp), and how a statement is carried through a chain of calls.
use ozonebase.Prelude.{ℕ, ◌≡◌, subst, ap, Bool, true, false, ◌⊎◌, List, if◌then◌else◌}
use ozonebase.Libgen.Outcome.{Outcome, ok, ◌>>=◌, >>=-eq-ok, ok-injective}
use ozonebase.Protocols.RtmpSession.Session.{
  uninitialized, connected, stream_created, playing, stopped, RtmpSession, Handled, start_stream,
  stop_all,
}

-- What handling one request can do to the state and the streams.
abbrev pub KeepsStreams : RtmpSession → RtmpSession → Type 0
KeepsStreams s s' = (s'.streams ≡ s.streams) × (s'.unmapped ≡ s.unmapped)

pub data Transition (s s' : RtmpSession) : Type 0 where
  stays : s'.state ≡ s.state → KeepsStreams s s' → Transition s s'
  connects : s.state ≡ uninitialized → s'.state ≡ connected → KeepsStreams s s' → Transition s s'
  creates : s.state ≡ connected → s'.state ≡ stream_created → KeepsStreams s s' → Transition s s'
  plays :
      (s.state ≡ stream_created) ⊎ (s.state ≡ playing)
      → s'.state ≡ playing
      → (id provider : ℕ) → KeepsStreams (start_stream s id provider) s'
      → Transition s s'
  closes :
      (s.state ≡ stream_created) ⊎ (s.state ≡ playing)
      → s'.state ≡ stopped
      → s'.streams ≡ stop_all s.streams
      → s'.unmapped ≡ s.unmapped
      → Transition s s'

-- Of a call that comes to a session.
pub record Leads (P : RtmpSession → Type 0) (call : Handled) : Type 0 where
  pub holds : (r : RtmpSession × List ℕ) → call ≡ ok r → P r.0

pub Leads->>= :
    {A : Type 0} {P : RtmpSession → Type 0} (m : Outcome A) (f : A → Handled)
    → ((a : A) → Leads P (f a))
    → Leads P (m >>= f)
Leads->>= m f g = record { holds = λ r e. let (a, _, h) = >>=-eq-ok m f e in (g a).holds r h }

pub Leads-ok :
    {P : RtmpSession → Type 0} (s : RtmpSession) (bytes : List ℕ) → P s → Leads P (ok (s, bytes))
Leads-ok {P} s bytes h = record { holds = λ r e. subst (λ q. P q.0) (ok-injective e) h }

pub Leads-if :
    {P : RtmpSession → Type 0} (b : Bool) (x y : Handled)
    → Leads P x
    → Leads P y
    → Leads P (if b then x else y)
Leads-if true x y h k = h
Leads-if false x y h k = k

pub Leads-pass :
    {P : RtmpSession → Type 0} (m : Handled) (g : RtmpSession × List ℕ → List ℕ)
    → Leads P m
    → Leads P (m >>= λ r. ok (r.0, g r))
Leads-pass {P} m g h = record {
  holds = λ r e.
      let (a, ea, eb) = >>=-eq-ok m _ e in subst P (ap (λ q. q.0) (ok-injective eb)) (h.holds a ea);
}
