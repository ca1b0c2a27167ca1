-- ===== src/Tests/Delays.antt =====
-- A filter with a frame that waits, one that has come in, and more on the way.
use ozonebase.Prelude.{ℕ, ◌≡◌, refl, true, false, [], ◌∷◌, ◌++◌, ◌==◌}
use ozonebase.Base.Feed.{Frame}
use ozonebase.Processors.DelayBuffer.{
  DelayBuffer, Round, sent_frame_count, send, collect, round, run_rounds,
}
use ozonebase.Processors.DelayBuffer.Order.{held, arrivals_of, run_rounds-arrivals_of}

abbrev picture : ℕ → Frame
picture n = record { id = n; is_video = true; is_audio = false; is_data = false }

abbrev filter : DelayBuffer
filter = record { frame_queue = picture 2 ∷ []; delay_queue = picture 1 ∷ []; frame_count = 1 }

-- The third frame is too young in the first round, and holds up a fourth.
abbrev first : Round
first = record { arrivals = picture 3 ∷ picture 4 ∷ []; is_young = λ frame. frame.id == 3 }

abbrev last : Round
last = record { arrivals = picture 5 ∷ []; is_young = λ frame. false }

first_sent : (run_rounds (first ∷ []) filter).0 ≡ picture 1 ∷ picture 2 ∷ []
unfolding run_rounds round collect send sent_frame_count
first_sent = refl

run_rounds-arrivals_of_example :
    (run_rounds (first ∷ last ∷ []) filter).0 ≡ held filter ++ arrivals_of (first ∷ last ∷ [])
run_rounds-arrivals_of_example = run_rounds-arrivals_of (first ∷ []) last filter (λ frame. refl)
