-- ===== src/Consumers/EventRecorder.antt =====
-- server/src/consumers/ozEventRecorder.cpp, processFrame: the events that alarmed frames make. The
-- clock is read once in a call. Times are microseconds, and so is `mMinTime`; a comparison of
-- durations in double seconds is one of microseconds. `mLastAlarmTime`, which all recorders share,
-- is one of the fields: there is one recorder. The notifications and image files are values.
pub mod Events
pub mod Store
use ozonebase.Prelude.{
  ℕ, ◌+◌, ◌-◌, ◌*◌, ◌≤◌, ◌<◌, Bool, true, false, not, ◌&&◌, ◌||◌, Option, none, some, List, [], ◌∷◌,
  ◌++◌, map, ltb, leb, ◌==◌, if◌then◌else◌,
}

pub record AlarmFrame : Type 0 where
  pub id : ℕ
  pub timestamp : ℕ
  pub alarmed : Bool

pub data AlarmState : Type 0 where
  idle prealarm alarm alert : AlarmState

pub record EventRecorder : Type 0 where
  pub frame_store : List AlarmFrame
  pub state : AlarmState
  pub frame_count : ℕ
  pub event_count : ℕ
  pub alarm_time : ℕ
  pub min_time : ℕ
  pub last_alarm_time : ℕ

-- An event begins or ends, with its number and the frame's; or an image is written, of an event and
-- a frame, whose name says whether the frame was alarmed.
pub data Output : Type 0 where
  begins ends : ℕ → ℕ → Output
  image : ℕ → ℕ → Bool → Output

abbrev pub max_event_head_age : ℕ
max_event_head_age = 2

abbrev pub max_event_tail_age : ℕ
max_event_tail_age = 3

abbrev pub usec_per_sec : ℕ
usec_per_sec = 1000000

unfoldable pub is_idle : AlarmState → Bool
is_idle idle = true
is_idle s = false

unfoldable pub is_alarm : AlarmState → Bool
is_alarm alarm = true
is_alarm s = false

unfoldable pub is_alert : AlarmState → Bool
is_alert alert = true
is_alert s = false

-- The stored frames of a new event.
pub stored_images : ℕ → List AlarmFrame → List Output
stored_images event [] = []
stored_images event (f ∷ fs) = image event f.id false ∷ stored_images event fs

-- The alarm: a new event when there was none.
unfoldable pub raise : EventRecorder → ℕ → AlarmFrame → EventRecorder × List Output
raise r now f =
    let alarmed = record r { state = alarm; last_alarm_time = now } in
    let event = r.event_count + 1 in
    if is_idle r.state
    then (
      record alarmed { alarm_time = now; event_count = event },
      begins event f.id ∷ stored_images event r.frame_store,
    )
    else (alarmed, [])

-- The time that `age( mLastAlarmTime )` is relative to; 0 stands for the clock.
unfoldable pub age_base : ℕ → ℕ → ℕ
age_base now time = if time == 0 then now else time

-- The end of an event: more than three seconds after the last alarm, and not before its time.
unfoldable pub settle : EventRecorder → ℕ → AlarmFrame → EventRecorder × List Output
settle r now f =
    if is_alert r.state
      && (ltb (age_base now r.last_alarm_time + max_event_tail_age * usec_per_sec) f.timestamp
          && leb (r.alarm_time + r.min_time) r.last_alarm_time)
    then (record r { state = idle }, ends r.event_count f.id ∷ [])
    else (r, [])

-- The image of the frame while there is an event.
pub frame_image : EventRecorder → AlarmFrame → List Output
frame_image r f = if is_idle r.state then [] else image r.event_count f.id (is_alarm r.state) ∷ []

-- The frames at the front of the store that are too old go.
pub clear_old : ℕ → List AlarmFrame → List AlarmFrame
clear_old now [] = []
clear_old now (f ∷ fs) =
    if leb now (f.timestamp + max_event_head_age * usec_per_sec) then f ∷ fs else clear_old now fs

unfoldable pub process_frame :
    EventRecorder → ℕ → Option AlarmFrame → Bool × (EventRecorder × List Output)
process_frame r now none = (false, (r, []))
process_frame r now (some f) =
    let (raised, out) =
      if f.alarmed
      then raise r now f
      else if is_alarm r.state
      then (record r { state = alert }, [])
      else (r, []) in
    let (settled, ended) = settle raised now f in
    (
      true,
      (
        record settled {
          frame_store = clear_old now settled.frame_store ++ (f ∷ []);
          frame_count = settled.frame_count + 1;
        },
        out ++ (ended ++ frame_image settled f),
      ),
    )

-- The loop of `run` over the frames of the queue, each with the clock at its call.
pub process_all : EventRecorder → List (ℕ × Option AlarmFrame) → EventRecorder × List Output
process_all r [] = (r, [])
process_all r ((now, f) ∷ fs) =
    let first = (process_frame r now f).1 in
    let rest = process_all first.0 fs in (rest.0, first.1 ++ rest.1)
