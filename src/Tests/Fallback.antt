-- ===== src/Tests/Fallback.antt =====
-- A fallback between two inputs, of which the second is more important.
use ozonebase.Prelude.{ℕ, ◌≡◌, refl, none, some, List, [], ◌∷◌, ◌==◌, if◌then◌else◌}
use ozonebase.Libgen.Outcome.{ok}
use ozonebase.Processors.InputFallback.{
  ProviderStats, InputFallback, stats_of, same_provider, take_frame, take_frames,
}

abbrev ranked : ℕ → ProviderStats
ranked k = record { priority = k; frame_count = 0; last_frame_time = 1000000 }

abbrev two_inputs : InputFallback
two_inputs = record {
  consumer = 9;
  provider_list = some 2 ∷ some 1 ∷ [];
  provider_stats =
      λ p. if p == 2 then some (ranked 0) else if p == 1 then some (ranked 1) else none;
  current = some 1;
  provider_timeout = 3;
  frame_count = 0;
}

-- The first frame is passed on, and with the second the other input is followed.
take_frames_run :
    (r : List ℕ × InputFallback) × (take_frames two_inputs 2000000 (1 ∷ 2 ∷ 1 ∷ []) ≡ ok r)
    × (r.0 ≡ 1 ∷ 2 ∷ [])
unfolding take_frames take_frame stats_of same_provider
take_frames_run = (_, refl, refl)

abbrev one_input : InputFallback
one_input = record two_inputs {
  provider_list = some 1 ∷ none ∷ [];
  provider_stats = λ p. if p == 1 then some (ranked 0) else none;
}
