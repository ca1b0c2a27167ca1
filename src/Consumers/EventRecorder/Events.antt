-- ===== src/Consumers/EventRecorder/Events.antt =====
-- The outputs of server/src/consumers/ozEventRecorder.cpp as a sequence of events.
use ozonebase.Prelude.{
  ℕ, ◌+◌, ◌≡◌, ◌∙◌, refl, Bool, true, false, not, ◌&&◌, Option, none, some, List, [], ◌∷◌, ◌++◌,
  ◌==◌, if◌then◌else◌, arith, Option-cases, inl, inr,
}
use ozonebase.Consumers.EventRecorder.{
  AlarmFrame, EventRecorder, alert, Output, begins, ends, image, is_idle, is_alarm, is_alert,
  stored_images, raise, settle, frame_image, process_frame, process_all,
}

-- What a reader of the outputs knows: whether an event is open, and the number of the last one.
abbrev pub Progress : Type 0
Progress = Bool × ℕ

-- An event begins when none is open, with the next number; it ends, and has its images written, while
-- it is open.
unfoldable pub accept : Progress → Output → Option Progress
accept (open_event, event) (begins e f) =
    if not open_event && e == event + 1 then some (true, e) else none
accept (open_event, event) (ends e f) = if open_event && e == event then some (false, e) else none
accept (open_event, event) (image e f a) = if open_event && e == event then some (true, e) else none

unfoldable pub accept_all : Progress → List Output → Option Progress
unfolding accept
accept_all p [] = some p
accept_all p (o ∷ os) = elim (accept p o) [ none ↦ none | some q ↦ accept_all q os ]

-- What a recorder's state tells of the events.
abbrev pub progress : EventRecorder → Progress
progress r = (not (is_idle r.state), r.event_count)

accept_all-append :
    (p q : Progress) (xs ys : List Output)
    → accept_all p xs ≡ some q
    → accept_all p (xs ++ ys) ≡ accept_all q ys
unfolding accept_all accept
accept_all-append p q [] ys e = ground (arith, e)
accept_all-append p q (x ∷ xs) ys e = elim (Option-cases (accept p x)) [
  | inl refused ↦ ground (arith, e, refused)
  | inr (p', taken) ↦ ground (arith, accept_all-append p' q xs ys, taken, e)
]

accept_all-stored :
    (event : ℕ) (fs : List AlarmFrame)
    → accept_all (true, event) (stored_images event fs) ≡ some (true, event)
unfolding accept_all accept stored_images
accept_all-stored event [] = refl
accept_all-stored event (f ∷ fs) = ground (arith, accept_all-stored event fs)

accept_all-raise :
    (r : EventRecorder) (now : ℕ) (f : AlarmFrame)
    → accept_all (progress r) (raise r now f).1 ≡ some (progress (raise r now f).0)
unfolding accept_all accept raise is_idle
accept_all-raise r now f = ground (arith, accept_all-stored (r.event_count + 1) r.frame_store)

accept_all-settle :
    (r : EventRecorder) (now : ℕ) (f : AlarmFrame)
    → accept_all (progress r) (settle r now f).1 ≡ some (progress (settle r now f).0)
unfolding accept_all accept settle is_idle is_alert
accept_all-settle r now f = ground arith

accept_all-frame_image :
    (r : EventRecorder) (f : AlarmFrame)
    → accept_all (progress r) (frame_image r f) ≡ some (progress r)
unfolding accept_all accept frame_image is_idle
accept_all-frame_image r f = ground arith

-- What the state is before the frame may end an event.
abbrev observed : EventRecorder → ℕ → AlarmFrame → EventRecorder × List Output
observed r now f =
    if f.alarmed
    then raise r now f
    else if is_alarm r.state
    then (record r { state = alert }, [])
    else (r, [])

accept_all-observed :
    (r : EventRecorder) (now : ℕ) (f : AlarmFrame)
    → accept_all (progress r) (observed r now f).1 ≡ some (progress (observed r now f).0)
unfolding accept_all is_idle is_alarm
accept_all-observed r now f = ground (arith, accept_all-raise r now f)

accept_all-process_frame :
    (r : EventRecorder) (now : ℕ) (f : Option AlarmFrame)
    → accept_all (progress r) (process_frame r now f).1.1
      ≡ some (progress (process_frame r now f).1.0)
unfolding process_frame accept_all
accept_all-process_frame r now none = refl
accept_all-process_frame r now (some f) =
    let o = observed r now f in
    let s = settle o.0 now f in
    accept_all-append (progress r) (progress o.0) o.1 (s.1 ++ frame_image s.0 f)
      (accept_all-observed r now f)
    ∙ (accept_all-append (progress o.0) (progress s.0) s.1 (frame_image s.0 f)
          (accept_all-settle o.0 now f)
        ∙ accept_all-frame_image s.0 f)

-- Whatever frames a recorder is given, its outputs are a sequence of events: each begins when none
-- is open, with the next number, and images are written and an end is told of the open event only;
-- and afterwards the recorder's state and count tell whether one is open, and its number.
pub accept_all-process_all :
    (r : EventRecorder) (fs : List (ℕ × Option AlarmFrame))
    → accept_all (progress r) (process_all r fs).1 ≡ some (progress (process_all r fs).0)
unfolding process_all accept_all
accept_all-process_all r [] = refl
accept_all-process_all r ((now, f) ∷ fs) =
    let first = (process_frame r now f).1 in
    accept_all-append (progress r) (progress first.0) first.1 (process_all first.0 fs).1
      (accept_all-process_frame r now f)
    ∙ accept_all-process_all first.0 fs
