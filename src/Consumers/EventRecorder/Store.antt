-- ===== src/Consumers/EventRecorder/Store.antt =====
-- The frames that server/src/consumers/ozEventRecorder.cpp keeps from before an event.
use ozonebase.Prelude.{
  ℕ, ◌+◌, ◌*◌, ◌≤◌, ◌<◌, ◌≡◌, ◌∙◌, refl, ap, Bool, true, false, ◌&&◌, some, List, [], ◌∷◌, ◌++◌,
  leb, arith,
}
use ozonebase.Consumers.EventRecorder.{
  AlarmFrame, EventRecorder, is_idle, is_alarm, is_alert, raise, settle, clear_old, process_frame,
  max_event_head_age, max_event_tail_age, usec_per_sec, age_base,
}

-- The frames are in the order of their times, from a time on.
unfoldable pub ordered : ℕ → List AlarmFrame → Bool
ordered t [] = true
ordered t (f ∷ fs) = leb t f.timestamp && ordered f.timestamp fs

-- No frame is older than the head of an event may be.
unfoldable pub all_recent : ℕ → List AlarmFrame → Bool
all_recent now [] = true
all_recent now (f ∷ fs) =
    leb now (f.timestamp + max_event_head_age * usec_per_sec) && all_recent now fs

recent_from :
    (now t : ℕ) (fs : List AlarmFrame)
    → now ≤ t + max_event_head_age * usec_per_sec
    → ordered t fs ≡ true
    → all_recent now fs ≡ true
unfolding ordered all_recent
recent_from now t [] h o = refl
recent_from now t (f ∷ fs) h o = ground (arith, recent_from now f.timestamp fs)

clear_old-recent :
    (now t : ℕ) (fs : List AlarmFrame)
    → ordered t fs ≡ true
    → all_recent now (clear_old now fs) ≡ true
unfolding ordered all_recent clear_old
clear_old-recent now t [] o = refl
clear_old-recent now t (f ∷ fs) o =
    ground (arith, recent_from now f.timestamp fs, clear_old-recent now f.timestamp fs)

all_recent-append :
    (now : ℕ) (fs : List AlarmFrame) (f : AlarmFrame)
    → all_recent now fs ≡ true
    → now ≤ f.timestamp + max_event_head_age * usec_per_sec
    → all_recent now (fs ++ (f ∷ [])) ≡ true
unfolding all_recent
all_recent-append now [] f h l = ground arith
all_recent-append now (g ∷ fs) f h l = ground (arith, all_recent-append now fs f)

store-process_frame :
    (r : EventRecorder) (now : ℕ) (f : AlarmFrame)
    → (process_frame r now (some f)).1.0.frame_store ≡ clear_old now r.frame_store ++ (f ∷ [])
unfolding process_frame raise settle is_alarm is_idle
store-process_frame r now f = ground arith

-- A recorder whose frames are in the order of their times keeps, after a frame that is not too old
-- itself, only frames of the last two seconds.
pub all_recent-process_frame :
    (r : EventRecorder) (now : ℕ) (f : AlarmFrame)
    → ordered 0 r.frame_store ≡ true
    → now ≤ f.timestamp + max_event_head_age * usec_per_sec
    → all_recent now (process_frame r now (some f)).1.0.frame_store ≡ true
all_recent-process_frame r now f o l =
    ap (all_recent now) (store-process_frame r now f)
    ∙ all_recent-append now (clear_old now r.frame_store) f (clear_old-recent now 0 r.frame_store o)
        l

-- When a frame ends an open event, the frame is not alarmed, it is more than three seconds later
-- than the last alarm, and from the first alarm to the last one it was at least the minimum
-- time.
pub process_frame-ends :
    (r : EventRecorder) (now : ℕ) (f : AlarmFrame)
    → is_idle r.state ≡ false
    → is_idle (process_frame r now (some f)).1.0.state ≡ true
    → (f.alarmed ≡ false)
      × (age_base now r.last_alarm_time + max_event_tail_age * usec_per_sec < f.timestamp)
      × (r.alarm_time + r.min_time ≤ r.last_alarm_time)
unfolding process_frame raise settle is_alarm is_idle is_alert
process_frame-ends r now f i e = ground (arith, e)
