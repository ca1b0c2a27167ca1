-- ===== src/Processors/DelayBuffer.antt =====
-- server/src/processors/ozDelayBuffer.cpp: frames that are passed on when they have reached an age.
-- Ages are floating point, so that the test of an age in a round is a parameter. What a round
-- distributes is its result, in the order of the calls of distributeFrame; the
-- result of checkProviders, which run does not use, is left out.
pub mod Order
use ozonebase.Prelude.{
  ℕ, suc, ◌+◌, ◌%◌, ◌^◌, Bool, List, [], ◌∷◌, ◌++◌, if◌then◌else◌, ltb, length, take, drop,
}
use ozonebase.Base.Feed.{Frame}

-- The filter's `mFrameQueue` and `mFrameCount`, and the `delayQueue` of its run.
pub record DelayBuffer : Type 0 where
  pub frame_queue : List Frame
  pub delay_queue : List Frame
  pub frame_count : ℕ

-- The frames of the incoming queue are put behind those that wait.
unfoldable pub collect : DelayBuffer → DelayBuffer
collect d = record {
  frame_queue = [];
  delay_queue = d.delay_queue ++ d.frame_queue;
  frame_count = (d.frame_count + length d.frame_queue) % 2 ^ 64;
}

-- How many frames the loop sends: those before the first one that is younger than the delay.
unfoldable pub sent_frame_count : (Frame → Bool) → List Frame → ℕ
sent_frame_count is_young [] = 0
sent_frame_count is_young (frame ∷ frames) =
    let rest = sent_frame_count is_young frames in if is_young frame then 0 else suc rest

-- The loop over `delayQueue`, and the erasure of what it sent.
unfoldable pub send : (Frame → Bool) → DelayBuffer → List Frame × DelayBuffer
send is_young d =
    let count : ℕ = sent_frame_count is_young d.delay_queue in
    if ltb 0 count
    then (take count d.delay_queue, record d { delay_queue = drop count d.delay_queue })
    else ([], d)

unfoldable pub round : (Frame → Bool) → DelayBuffer → List Frame × DelayBuffer
round is_young d = send is_young (collect d)

-- What providers queue before a round, and the ages in it.
pub record Round : Type 0 where
  pub arrivals : List Frame
  pub is_young : Frame → Bool

abbrev pub queue_all : DelayBuffer → List Frame → DelayBuffer
queue_all d frames = record d { frame_queue = d.frame_queue ++ frames }

-- The loop of `run`, a round after another, and all frames it distributes.
unfoldable pub run_rounds : List Round → DelayBuffer → List Frame × DelayBuffer
run_rounds [] d = ([], d)
run_rounds (r ∷ rounds) d =
    let first : List Frame × DelayBuffer = round r.is_young (queue_all d r.arrivals) in
    let rest : List Frame × DelayBuffer = run_rounds rounds first.1 in (first.0 ++ rest.0, rest.1)
