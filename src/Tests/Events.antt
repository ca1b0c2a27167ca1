-- ===== src/Tests/Events.antt =====
-- An event recorder at work.
use ozonebase.Prelude.{ℕ, ◌*◌, ◌≡◌, true, false, Option, some, List, [], ◌∷◌}
use ozonebase.Consumers.EventRecorder.{
  AlarmFrame, EventRecorder, idle, alert, usec_per_sec, process_all,
}
use ozonebase.Consumers.EventRecorder.Events.{progress, accept_all, accept_all-process_all}

abbrev quiet : ℕ → AlarmFrame
quiet t = record { id = t; timestamp = t * usec_per_sec; alarmed = false }

abbrev loud : ℕ → AlarmFrame
loud t = record { id = t; timestamp = t * usec_per_sec; alarmed = true }

abbrev recorder : EventRecorder
recorder = record {
  frame_store = quiet 1 ∷ quiet 3 ∷ [];
  state = idle;
  frame_count = 2;
  event_count = 0;
  alarm_time = 0;
  min_time = 0;
  last_alarm_time = 0;
}

abbrev visitors : List (ℕ × Option AlarmFrame)
visitors = (4000000, some (loud 4)) ∷ (5000000, some (quiet 5)) ∷ (9000000, some (quiet 9)) ∷ []

accept_all-process_all_example :
    accept_all (progress recorder) (process_all recorder visitors).1
    ≡ some (progress (process_all recorder visitors).0)
accept_all-process_all_example = accept_all-process_all recorder visitors

abbrev in_alert : EventRecorder
in_alert = record recorder {
  state = alert;
  event_count = 1;
  alarm_time = 4000000;
  last_alarm_time = 4000000;
}
