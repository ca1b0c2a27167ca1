-- ===== src/Tests/Rates.antt =====
-- A limiter of 10 units of time between frames, of which three are queued.
use ozonebase.Prelude.{◌+◌, ◌*◌, ◌≤◌, ◌≡◌, refl, true, false, none, [], ◌∷◌, length}
use ozonebase.Base.Feed.{Frame}
use ozonebase.Processors.RateLimiter.{
  RateLimiter, Round, start, synchronise, next_frame, pass, run_limited,
}
use ozonebase.Processors.RateLimiter.Rate.{ascends, run_limited-start}

abbrev picture : Frame
picture = record { id = 1; is_video = true; is_audio = false; is_data = false }

abbrev limiter : RateLimiter
limiter = record {
  skip = false;
  is_polled = false;
  is_queued = true;
  interval = 10;
  curr_time = 0;
  next_time = 0;
  frame_queue = picture ∷ picture ∷ picture ∷ [];
  frame_count = 0;
}

abbrev quiet : Round
quiet = record { arrivals = []; polled = none; has_consumers = true }

-- The first frame passes at once, the second at 114, and the third does not come to pass.
two_frames :
    length (run_limited (quiet ∷ quiet ∷ quiet ∷ []) (start limiter 100) (104 ∷ 114 ∷ 119 ∷ [])).0
    ≡ 2
unfolding run_limited synchronise pass next_frame
two_frames = refl

run_limited-start_example :
    100
      + length
          (run_limited (quiet ∷ quiet ∷ quiet ∷ []) (start limiter 100) (104 ∷ 114 ∷ 119 ∷ [])).0
        * 10
    ≤ (run_limited
        (quiet ∷ quiet ∷ quiet ∷ [])
        (start limiter 100)
        (104 ∷ 114 ∷ 119 ∷ [])).1.curr_time
      + 10
unfolding ascends
run_limited-start_example =
    run_limited-start (quiet ∷ quiet ∷ quiet ∷ []) limiter 100 (104 ∷ 114 ∷ 119 ∷ []) refl
