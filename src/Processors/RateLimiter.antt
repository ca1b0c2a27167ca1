-- ===== src/Processors/RateLimiter.antt =====
-- server/src/processors/ozRateLimiter.cpp: frames passed on at a rate. Times are whole numbers of a
-- unit, taken to be added without an error. What the clock shows at each call is a parameter, and what
-- is distributed is the result, in the order of the calls of distributeFrame. The result of
-- checkProviders, which run does not use, is left out.
pub mod Rate
use ozonebase.Prelude.{
  ℕ, ◌+◌, ◌%◌, ◌^◌, Bool, true, false, Option, none, some, List, [], ◌∷◌, ◌++◌, if◌then◌else◌, ltb,
  leb,
}
use ozonebase.Base.Feed.{Frame}

-- The link's kinds and the interval of `mFrameRate` are as they were given; the two times are local
-- to `run`.
pub record RateLimiter : Type 0 where
  pub skip : Bool
  pub is_polled : Bool
  pub is_queued : Bool
  pub interval : ℕ
  pub curr_time : ℕ
  pub next_time : ℕ
  pub frame_queue : List Frame
  pub frame_count : ℕ

-- What a round finds: the frames that came in before it, the frame that polling would give, and
-- whether there are consumers.
pub record Round : Type 0 where
  pub arrivals : List Frame
  pub polled : Option Frame
  pub has_consumers : Bool

abbrev pub start : RateLimiter → ℕ → RateLimiter
start x now = record x { curr_time = now; next_time = now }

-- The loop that waits for the next time: whether it came, the current time and the clock after it.
unfoldable pub synchronise : ℕ → ℕ → List ℕ → (Bool × ℕ) × List ℕ
synchronise next curr [] = ((leb next curr, curr), [])
synchronise next curr (now ∷ clock) =
    let rest = synchronise next now clock in
    if ltb curr next then rest else ((true, curr), now ∷ clock)

abbrev pub front_frame : Bool → List Frame → Option Frame
front_frame has_consumers [] = none
front_frame has_consumers (frame ∷ frames) = if has_consumers then some frame else none

abbrev pub queue_left : Bool → List Frame → List Frame
queue_left skip [] = []
queue_left skip (frame ∷ frames) = if skip then [] else frames

unfoldable pub next_frame : RateLimiter → Round → Option Frame × RateLimiter
next_frame x r =
    if x.is_polled
    then (r.polled, x)
    else if x.is_queued
    then (
      front_frame r.has_consumers x.frame_queue,
      record x { frame_queue = queue_left x.skip x.frame_queue },
    )
    else (none, x)

abbrev pub distribute : Option Frame → RateLimiter → List Frame × RateLimiter
distribute none x = ([], x)
distribute (some frame) x = (frame ∷ [], record x { frame_count = (x.frame_count + 1) % 2 ^ 64 })

-- A round from when its time has come.
unfoldable pub pass : RateLimiter → Round → List Frame × RateLimiter
unfolding next_frame
pass x r =
    let queued : RateLimiter = record x {
      next_time = x.next_time + x.interval;
      frame_queue = x.frame_queue ++ r.arrivals;
    } in
    let taken : Option Frame × RateLimiter = next_frame queued r in distribute taken.0 taken.1

-- The rounds of `run`, until they or the clock's readings end.
unfoldable pub run_limited : List Round → RateLimiter → List ℕ → List Frame × RateLimiter
run_limited [] x clock = ([], x)
run_limited (r ∷ rounds) x clock =
    let s : (Bool × ℕ) × List ℕ = synchronise x.next_time x.curr_time clock in
    let y : RateLimiter = record x { curr_time = s.0.1 } in
    let now : List Frame × RateLimiter = pass y r in
    let rest : List Frame × RateLimiter = run_limited rounds now.1 s.1 in
    if s.0.0 then (now.0 ++ rest.0, rest.1) else ([], y)
