-- ===== src/Processors/InputFallback.antt =====
-- server/src/processors/ozInputFallback.cpp: passing on the frames of the most important provider
-- that delivers. A provider is its number, as in Base/Feed; none is the null pointer, and following
-- it is a fault. The clock is read once in a round. Times are microseconds.
pub mod Switching
use ozonebase.Prelude.{
  ℕ, zero, suc, ◌+◌, ◌-◌, ◌*◌, ◌%◌, ◌^◌, Bool, true, false, not, ◌&&◌, Option, none, some, List, [],
  ◌∷◌, ◌++◌, ltb, leb, ◌==◌, if◌then◌else◌, length,
}
use ozonebase.Libgen.Outcome.{Outcome, ok, fault, ◌>>=◌}
use ozonebase.Base.Feed.{Network, FeedLink, register_provider, deregister_provider, update}

pub record ProviderStats : Type 0 where
  pub priority : ℕ
  pub frame_count : ℕ
  pub last_frame_time : ℕ

-- The slots of `mProviderList`, the map `mProviderStats`, in which a missing key reads as null, and
-- `mProviderTimeout` in seconds. `consumer` is the number of the object as a consumer.
pub record InputFallback : Type 0 where
  pub consumer : ℕ
  pub provider_list : List (Option ℕ)
  pub provider_stats : ℕ → Option ProviderStats
  pub current : Option ℕ
  pub provider_timeout : ℕ
  pub frame_count : ℕ

-- A slot of the list overwritten.
pub set_slot : List (Option ℕ) → ℕ → Option ℕ → List (Option ℕ)
set_slot [] i p = []
set_slot (s ∷ slots) zero p = p ∷ slots
set_slot (s ∷ slots) (suc i) p = s ∷ set_slot slots i p

-- The loop of `registerProvider` from slot `i` on: every empty slot tries, until one succeeds.
pub register_from :
    Network
    → InputFallback
    → ℕ
    → FeedLink
    → ℕ
    → ℕ
    → List (Option ℕ)
    → Outcome (Bool × (Network × InputFallback))
register_from n x p link now i [] = ok (false, (n, x))
register_from n x p link now i (some q ∷ slots) = register_from n x p link now (i + 1) slots
register_from n x p link now i (none ∷ slots) = register_provider 2 n x.consumer p link >>= λ r.
    let stats : ProviderStats = record { priority = i; frame_count = 0; last_frame_time = now } in
    let rest = register_from (r.1) x p link now (i + 1) slots in
    if r.0
    then ok (
      true,
      (
        r.1,
        record x {
          provider_list = set_slot x.provider_list i (some p);
          provider_stats = update x.provider_stats p (some stats);
        },
      ),
    )
    else rest

pub add_provider :
    Network → InputFallback → ℕ → FeedLink → ℕ → Outcome (Bool × (Network × InputFallback))
add_provider n x p link now = register_from n x p link now 0 x.provider_list

-- The first slot of a provider emptied, and whether there was one.
pub clear_slot : ℕ → List (Option ℕ) → Bool × List (Option ℕ)
clear_slot p [] = (false, [])
clear_slot p (none ∷ slots) = let (found, slots') = clear_slot p slots in (found, none ∷ slots')
clear_slot p (some q ∷ slots) =
    let (found, slots') = clear_slot p slots in
    if q == p then (true, none ∷ slots) else (found, some q ∷ slots')

pub remove_provider :
    Network → InputFallback → ℕ → Bool → Outcome (Bool × (Network × InputFallback))
remove_provider n x p reciprocate =
    let (found, slots) = clear_slot p x.provider_list in
    let x' =
      if found
      then record x { provider_list = slots; provider_stats = update x.provider_stats p none }
      else x in
    deregister_provider 2 n x.consumer p reciprocate >>= λ r. ok (r.0, (r.1, x'))

-- The statistics behind a pointer of the map.
unfoldable pub stats_of : InputFallback → Option ℕ → Outcome ProviderStats
stats_of x none = fault
stats_of x (some p) = elim (x.provider_stats p) [ none ↦ fault | some s ↦ ok s ]

unfoldable pub same_provider : Option ℕ → ℕ → Bool
same_provider none p = false
same_provider (some q) p = p == q

-- A frame of a provider: whether it is passed on.
unfoldable pub take_frame : InputFallback → ℕ → ℕ → Outcome (Bool × InputFallback)
take_frame x now p = stats_of x (some p) >>= λ s.
    let counted = record x {
      provider_stats =
          update x.provider_stats p
            (some (record s { frame_count = s.frame_count + 1; last_frame_time = now }));
    } in
    stats_of counted x.current >>= λ c.
    let current' = if ltb s.priority c.priority then some p else x.current in
    ok (
      same_provider current' p,
      record counted { current = current'; frame_count = x.frame_count + 1 },
    )

-- The loop over the queue, of which a frame is its provider: the providers whose frames are passed on.
unfoldable pub take_frames : InputFallback → ℕ → List ℕ → Outcome (List ℕ × InputFallback)
take_frames x now [] = ok ([], x)
take_frames x now (p ∷ ps) = take_frame x now p >>= λ r.
    take_frames (r.1) now ps >>= λ rest. ok ((if r.0 then p ∷ rest.0 else rest.0), rest.1)

unfoldable pub slot : ℕ → List (Option ℕ) → Option ℕ
slot i [] = none
slot zero (s ∷ slots) = s
slot (suc i) (s ∷ slots) = slot i slots

-- After the queue: when the current provider has been silent for longer than the timeout, the one
-- in the next slot is taken, if there is a next slot.
unfoldable pub check_timeout : InputFallback → ℕ → Outcome InputFallback
check_timeout x now = stats_of x x.current >>= λ s. ok (
    if ltb (x.provider_timeout * 1000000) ((now + 2 ^ 64 - s.last_frame_time) % 2 ^ 64)
      && ltb (s.priority + 1) (length x.provider_list)
    then record x { current = slot (s.priority + 1) x.provider_list }
    else x)
