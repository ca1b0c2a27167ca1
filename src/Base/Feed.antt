-- ===== src/Base/Feed.antt =====
-- server/src/base/ozFeedBase.h, ozFeedProvider.cpp and ozFeedConsumer.cpp: the network of providers
-- and consumers. An object is a number; the members of all objects are one state, a function of the
-- object each. The locks are not modelled: a call runs from start to end. `Fatal` ends the program.
pub mod Links
pub mod Symmetry
pub mod Removal
pub mod Delivery
pub mod Cleanup
pub mod Waiting
use ozonebase.Prelude.{
  ℕ, zero, suc, ◌+◌, Bool, true, false, not, ◌&&◌, ◌||◌, Option, none, some, List, [], ◌∷◌, ◌++◌,
  ltb, leb, ◌==◌, if◌then◌else◌, length, Bool-cases,
}
use ozonebase.Libgen.Outcome.{Outcome, ok, panic, spent, ◌>>=◌}

-- A frame, with the classes that the comparators ask for.
pub record Frame : Type 0 where
  pub id : ℕ
  pub is_video : Bool
  pub is_audio : Bool
  pub is_data : Bool

abbrev pub Comparator : Type 0
Comparator = Frame → ℕ → Bool

pub video_frames_only : Comparator
video_frames_only f c = f.is_video

pub audio_frames_only : Comparator
audio_frames_only f c = f.is_audio

pub data_frames_only : Comparator
data_frames_only f c = f.is_data

pub no_frames : Comparator
no_frames f c = false

-- FeedLink: the two bits of its type, and its comparators.
pub record FeedLink : Type 0 where
  pub queued : Bool
  pub polled : Bool
  pub comparators : List Comparator

abbrev pub queued_feed_link : FeedLink
queued_feed_link = record { queued = true; polled = false; comparators = [] }

-- `FeedLink::compare`: every comparator lets the frame through.
pub compare_all : List Comparator → Frame → ℕ → Bool
compare_all [] f c = true
compare_all (g ∷ gs) f c = g f c && compare_all gs f c

pub data ProviderState : Type 0 where
  error wait ready ended : ProviderState

-- std::map from objects to links, as its pairs in the order of the keys.
abbrev pub LinkMap : Type 0
LinkMap = List (ℕ × FeedLink)

pub record Network : Type 0 where
  pub consumers : ℕ → LinkMap
  pub providers : ℕ → LinkMap
  pub frame_queue : ℕ → List Frame
  pub provider_limit : ℕ → ℕ
  pub state : ℕ → ProviderState
  pub can_poll : ℕ → Bool
  pub last_frame : ℕ → Option Frame

abbrev pub update {ℓ} : {A : Type ℓ} → (ℕ → A) → ℕ → A → ℕ → A
update f k v j = if j == k then v else f j

unfoldable pub has : ℕ → LinkMap → Bool
has k [] = false
has k ((j, l) ∷ m) = j == k || has k m

-- std::map::insert where the key is not there yet, in the order of the keys, and std::map::erase.
pub add : ℕ → FeedLink → LinkMap → LinkMap
add k l [] = (k, l) ∷ []
add k l ((j, l') ∷ m) = if ltb k j then (k, l) ∷ (j, l') ∷ m else (j, l') ∷ add k l m

pub erase : ℕ → LinkMap → LinkMap
erase k [] = []
erase k ((j, l) ∷ m) = if j == k then erase k m else (j, l) ∷ erase k m

abbrev pub has_provider : Network → ℕ → ℕ → Bool
has_provider n c p = has p (n.providers c)

abbrev pub has_consumer : Network → ℕ → ℕ → Bool
has_consumer n p c = has c (n.consumers p)

-- The two registrations call one another; on fuel, of which two is enough.
mutual
  pub register_provider : ℕ → Network → ℕ → ℕ → FeedLink → Outcome (Bool × Network)
  register_provider zero n c p link = spent
  register_provider (suc fuel) n c p link =
      let n' = record n { providers = update n.providers c (add p link (n.providers c)) } in
      let reciprocal = register_consumer fuel n' p c link >>= λ r. ok (true, r.1) in
      if leb (n.provider_limit c) (length (n.providers c))
      then panic
      else if has_provider n c p
      then ok (false, n)
      else if has_consumer n' p c
      then ok (true, n')
      else reciprocal

  pub register_consumer : ℕ → Network → ℕ → ℕ → FeedLink → Outcome (Bool × Network)
  register_consumer zero n p c link = spent
  register_consumer (suc fuel) n p c link =
      let inserted : Bool = not (has_consumer n p c) in
      let n' =
        if inserted
        then record n { consumers = update n.consumers p (add c link (n.consumers p)) }
        else n in
      let reciprocal = register_provider fuel n' c p queued_feed_link >>= λ r. ok (inserted, r.1) in
      if not (n.can_poll p) && link.polled
      then panic
      else if has_provider n' c p
      then ok (inserted, n')
      else reciprocal

-- So do the deregistrations.
mutual
  pub deregister_provider : ℕ → Network → ℕ → ℕ → Bool → Outcome (Bool × Network)
  deregister_provider zero n c p reciprocate = spent
  deregister_provider (suc fuel) n c p reciprocate =
      let n' = record n { providers = update n.providers c (erase p (n.providers c)) } in
      let reciprocal = deregister_consumer fuel n' p c true >>= λ r. ok (has_provider n c p, r.1) in
      if reciprocate && has_consumer n' p c then reciprocal else ok (has_provider n c p, n')

  pub deregister_consumer : ℕ → Network → ℕ → ℕ → Bool → Outcome (Bool × Network)
  deregister_consumer zero n p c reciprocate = spent
  deregister_consumer (suc fuel) n p c reciprocate =
      let n' = record n { consumers = update n.consumers p (erase c (n.consumers p)) } in
      let reciprocal = deregister_provider fuel n' c p true >>= λ r. ok (has_consumer n p c, r.1) in
      if reciprocate && has_provider n' c p then reciprocal else ok (has_consumer n p c, n')

abbrev pub max_queue_size : ℕ
max_queue_size = 10000

pub queue_frame : Network → Frame → ℕ → Bool × Network
queue_frame n f c =
    if leb max_queue_size (length (n.frame_queue c))
    then (false, n)
    else (true, record n { frame_queue = update n.frame_queue c (n.frame_queue c ++ (f ∷ [])) })

-- Whether a link passes a frame on to the consumer's queue.
pub passes : FeedLink → Frame → ℕ → Bool
passes l f c = l.queued && compare_all l.comparators f c

-- The loop over the consumers, with the list of those whose queue was full.
pub deliver : Network → Frame → LinkMap → List ℕ × Network
deliver n f [] = ([], n)
deliver n f ((c, l) ∷ links) =
    let (queued, n') = if passes l f c then queue_frame n f c else (true, n) in
    let (bad, n'') = deliver n' f links in (if queued then bad else c ∷ bad, n'')

pub drop_bad : Network → ℕ → List ℕ → Outcome Network
drop_bad n p [] = ok n
drop_bad n p (c ∷ bad) = deregister_consumer 2 n p c true >>= λ r. drop_bad (r.1) p bad

pub set_ready : ProviderState → ProviderState
set_ready wait = ready
set_ready s = s

pub set_ended : ProviderState → ProviderState
set_ended error = error
set_ended s = ended

pub distribute_frame : Network → ℕ → Frame → Outcome Network
distribute_frame n p f =
    let started = record n { state = update n.state p (set_ready (n.state p)) } in
    let (bad, delivered) = deliver started f (n.consumers p) in
    drop_bad delivered p bad >>= λ n'.
    ok (if n.can_poll p then record n' { last_frame = update n'.last_frame p (some f) } else n')

unfoldable pub is_ready : ProviderState → Bool
is_ready ready = true
is_ready s = false

unfoldable pub is_wait : ProviderState → Bool
is_wait wait = true
is_wait s = false

unfoldable pub is_ended : ProviderState → Bool
is_ended ended = true
is_ended s = false

pub poll_frame : Network → ℕ → Option Frame
poll_frame n p = if not (is_ready (n.state p)) || not (n.can_poll p) then none else n.last_frame p
