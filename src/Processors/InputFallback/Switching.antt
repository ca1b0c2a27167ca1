-- ===== src/Processors/InputFallback/Switching.antt =====
-- Which provider server/src/processors/ozInputFallback.cpp follows.
use ozonebase.Prelude.{
  ℕ, ◌+◌, ◌-◌, ◌*◌, ◌%◌, ◌^◌, ◌<◌, ◌≡◌, ◌∙◌, refl, Bool, Option, none, some, List, [], ◌∷◌, ltb,
  if◌then◌else◌, length, arith, Option-cases, inl, inr,
}
use ozonebase.Libgen.Outcome.{ok, fault}
use ozonebase.Base.Feed.{update}
use ozonebase.Processors.InputFallback.{
  ProviderStats, InputFallback, stats_of, same_provider, take_frame, take_frames, slot,
  check_timeout,
}

-- The priority that a provider has in the statistics, and that of the current one.
unfoldable pub priority_of : InputFallback → ℕ → Option ℕ
priority_of x p = elim (x.provider_stats p) [ none ↦ none | some s ↦ some s.priority ]

unfoldable pub current_priority : InputFallback → Option ℕ
unfolding priority_of
current_priority x = elim (x.current) [ none ↦ none | some p ↦ priority_of x p ]

-- The best, so the least, of a priority and those of some providers, if all have one.
unfoldable pub best : ℕ → (ℕ → Option ℕ) → List ℕ → Option ℕ
best m f [] = some m
best m f (p ∷ ps) = elim (f p) [ none ↦ none | some k ↦ best (if ltb k m then k else m) f ps ]

record Taken (x : InputFallback) (k : ℕ) (x' : InputFallback) : Type 0 where
  follows : current_priority x' ≡ some k
  keeps : (q : ℕ) → priority_of x' q ≡ priority_of x q

take_frame-Taken :
    (x : InputFallback) (now p m k : ℕ)
    → current_priority x ≡ some m
    → priority_of x p ≡ some k
    → (b : Bool) × (x' : InputFallback) × (take_frame x now p ≡ ok (b, x'))
      × Taken x (if ltb k m then k else m) x'
unfolding take_frame stats_of same_provider current_priority priority_of
take_frame-Taken x now p m k c h = elim (Option-cases (x.current)) [
  | inl nothing ↦ ground (arith, c, nothing)
  | inr (q, known) ↦ elim (Option-cases (x.provider_stats q)) [
    | inl nothing ↦ ground (arith, c, known, nothing)
    | inr (s, stats) ↦ elim (Option-cases (x.provider_stats p)) [
      | inl nothing ↦ ground (arith, h, nothing)
      | inr (t, own) ↦
          let current' : Option ℕ = if ltb k m then some p else x.current in
          (
            same_provider current' p,
            record x {
              provider_stats =
                  update x.provider_stats p
                    (some (record t { frame_count = t.frame_count + 1; last_frame_time = now }));
              current = current';
              frame_count = x.frame_count + 1;
            },
            ground (arith, c, h, known, stats, own),
            record {
              follows = ground (arith, c, h, known, stats, own);
              keeps = λ q'. ground (arith, own);
            },
          )
    ]
  ]
]

best_cong :
    (m : ℕ) (f g : ℕ → Option ℕ) (ps : List ℕ) → ((q : ℕ) → f q ≡ g q) → best m f ps ≡ best m g ps
unfolding best
best_cong m f g [] e = refl
best_cong m f g (p ∷ ps) e = elim (Option-cases (g p)) [
  | inl nothing ↦ ground (arith, e p, nothing)
  | inr (k, own) ↦ ground (arith, e p, own, best_cong (if ltb k m then k else m) f g ps e)
]

-- When the current provider and all that have frames in the queue have statistics, the round comes
-- to its end, and then follows a provider of the best priority among them; no priority changes.
pub take_frames_lem :
    (x : InputFallback) (now m k : ℕ) (ps : List ℕ)
    → current_priority x ≡ some m
    → best m (priority_of x) ps ≡ some k
    → (out : List ℕ) × (x' : InputFallback) × (take_frames x now ps ≡ ok (out, x'))
      × (current_priority x' ≡ some k)
      × ((q : ℕ) → priority_of x' q ≡ priority_of x q)
unfolding take_frames best
take_frames_lem x now m k [] c b = ([], x, refl, c ∙ b, λ q. refl)
take_frames_lem x now m k (p ∷ ps) c b = elim (Option-cases (priority_of x p)) [
  | inl nothing ↦ ground (arith, b, nothing)
  | inr (j, own) ↦
      let m' : ℕ = if ltb j m then j else m in
      let (passed, x', e, t) = take_frame-Taken x now p m j c own in
      let b' : best m' (priority_of x') ps ≡ some k =
        best_cong m' (priority_of x') (priority_of x) ps t.keeps ∙ ground (arith, b, own) in
      let (out, x'', e', c', s) = take_frames_lem x' now m' k ps t.follows b' in
      (if passed then p ∷ out else out, x'', ground (arith, e, e'), c', λ q. s q ∙ t.keeps q)
]

-- When the current provider has been silent for too long and the next slot is there but empty, the
-- timeout check comes to its end, and taking the next frame of any provider is a fault.
pub take_frame-check_timeout :
    (x : InputFallback) (now now' p : ℕ) {s : ProviderStats}
    → stats_of x x.current ≡ ok s
    → x.provider_timeout * 1000000 < (now + 2 ^ 64 - s.last_frame_time) % 2 ^ 64
    → s.priority + 1 < length x.provider_list
    → slot (s.priority + 1) x.provider_list ≡ none
    → (x' : InputFallback) × (check_timeout x now ≡ ok x') × (take_frame x' now' p ≡ fault)
unfolding check_timeout take_frame stats_of
take_frame-check_timeout x now now' p {s = s} c l h e =
    (record x { current = none }, ground (arith, c, e), ground arith)
