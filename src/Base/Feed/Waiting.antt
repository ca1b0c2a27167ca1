-- ===== src/Base/Feed/Waiting.antt =====
-- checkProviders and waitForProviders of server/src/base/ozFeedConsumer.cpp: a consumer looks at the
-- states of its providers.
use ozonebase.Prelude.{
  ℕ, ◌+◌, ◌≡◌, ◌<◌, refl, Bool, true, false, not, ◌&&◌, ◌||◌, List, [], ◌∷◌, ◌==◌, ltb,
  if◌then◌else◌, arith, Bool-cases, inl, inr, length,
}
use ozonebase.Libgen.Outcome.{Outcome, ok, panic, spent}
use ozonebase.Base.Feed.{
  LinkMap, Network, ProviderState, error, update, is_ready, is_wait, is_ended,
}

pub is_error : ProviderState → Bool
is_error error = true
is_error s = false

pub check_all : (ℕ → ProviderState) → LinkMap → Bool → Outcome Bool
check_all state [] result = ok result
check_all state ((p, l) ∷ m) result =
    let rest = check_all state m result in
    let failed = check_all state m false in
    if is_ready (state p)
    then rest
    else if not (is_ended (state p))
    then rest
    else if is_wait (state p)
    then failed
    else if not (is_error (state p))
    then failed
    else panic

-- The result; the caller's thread is stopped where it is false.
pub check_providers : Network → ℕ → Outcome Bool
check_providers n c = check_all n.state (n.providers c) (not (length (n.providers c) == 0))

pub any_ended : (ℕ → ProviderState) → LinkMap → Bool
any_ended state [] = false
any_ended state ((p, l) ∷ m) = is_ended (state p) || any_ended state m

check_all-any_ended :
    (state : ℕ → ProviderState) (m : LinkMap) (b : Bool)
    → check_all state m b ≡ ok (b && not (any_ended state m))
unfolding check_all any_ended is_ready is_ended is_wait is_error
check_all-any_ended state [] b = ground arith
check_all-any_ended state ((p, l) ∷ m) b =
    ground (arith, check_all-any_ended state m b, check_all-any_ended state m false)

-- The counts of waiting, ready and bad providers in one round.
pub record Counts : Type 0 where
  pub waiting : ℕ
  pub ready_ones : ℕ
  pub bad : ℕ

unfoldable pub count_states : (ℕ → ProviderState) → LinkMap → Counts
count_states state [] = record { waiting = 0; ready_ones = 0; bad = 0 }
count_states state ((p, l) ∷ m) =
    let r : Counts = count_states state m in
    if is_ready (state p)
    then record r { ready_ones = r.ready_ones + 1 }
    else if is_wait (state p)
    then record r { waiting = r.waiting + 1 }
    else record r { bad = r.bad + 1 }

-- How many the caller waits for; 0 stands for all.
unfoldable pub wait_for : ℕ → ℕ → ℕ
wait_for count providers = if count == 0 then providers else count

-- `waitCount > maxWaitCount && badCount == 0`, the ints of the first test with the subtrahend of
-- `maxWaitCount` on the other side.
unfoldable pub keeps_waiting : ℕ → ℕ → Counts → Bool
keeps_waiting wanted providers k = ltb providers (k.waiting + wanted) && k.bad == 0

-- The rounds of the loop, one for each observation of the providers' states; out of observations
-- the consumer is still waiting.
unfoldable pub wait_rounds : Network → ℕ → ℕ → List (ℕ → ProviderState) → Outcome (Bool × Network)
wait_rounds n c wanted [] = spent
wait_rounds n c wanted (state ∷ states) =
    let k : Counts = count_states state (n.providers c) in
    let rest = wait_rounds (record n { frame_queue = update n.frame_queue c [] }) c wanted states in
    if keeps_waiting wanted (length (n.providers c)) k
    then rest
    else ok (ltb 0 k.ready_ones && k.bad == 0, n)

unfoldable pub wait_for_providers :
    Network → ℕ → ℕ → List (ℕ → ProviderState) → Outcome (Bool × Network)
wait_for_providers n c count states =
    wait_rounds n c (wait_for count (length (n.providers c))) states

total-count_states :
    (state : ℕ → ProviderState) (m : LinkMap)
    → let k = count_states state m in k.waiting + (k.ready_ones + k.bad) ≡ length m
unfolding count_states
total-count_states state [] = refl
total-count_states state ((p, l) ∷ m) = ground (arith, total-count_states state m)

-- Some observation satisfies a test.
unfoldable pub some_round : ((ℕ → ProviderState) → Bool) → List (ℕ → ProviderState) → Bool
some_round test [] = false
some_round test (s ∷ states) = test s || some_round test states

-- In an observation, as many providers as are waited for are ready and none has ended or failed.
pub enough_ready : LinkMap → ℕ → (ℕ → ProviderState) → Bool
enough_ready m wanted state =
    let k : Counts = count_states state m in not (ltb k.ready_ones wanted) && k.bad == 0

rounds-ready :
    (n : Network) (c wanted : ℕ) (states : List (ℕ → ProviderState)) (n' : Network)
    → wait_rounds n c wanted states ≡ ok (true, n')
    → some_round (enough_ready (n.providers c) wanted) states ≡ true
unfolding wait_rounds some_round enough_ready keeps_waiting
rounds-ready n c wanted [] n' e = ground (arith, e)
rounds-ready n c wanted (state ∷ states) n' e =
    let n1 : Network = record n { frame_queue = update n.frame_queue c [] } in
    ground (arith, rounds-ready n1 c wanted states n', total-count_states state (n.providers c), e)

-- Where waiting for providers succeeds, there was a moment at which as many as were waited for were
-- ready, and none had ended or failed.
pub wait_for_providers-ready :
    (n : Network) (c count : ℕ) (states : List (ℕ → ProviderState)) (n' : Network)
    → wait_for_providers n c count states ≡ ok (true, n')
    → some_round (enough_ready (n.providers c) (wait_for count (length (n.providers c)))) states
      ≡ true
unfolding wait_for_providers
wait_for_providers-ready n c count states n' e =
    rounds-ready n c (wait_for count (length (n.providers c))) states n' e

-- At this moment a provider has ended or failed, or no more are waiting than may be.
unfoldable pub settled : LinkMap → ℕ → (ℕ → ProviderState) → Bool
settled m wanted state =
    let k : Counts = count_states state m in
    ltb 0 k.bad || not (ltb (length m) (k.waiting + wanted))

rounds-return :
    (n : Network) (c wanted : ℕ) (states : List (ℕ → ProviderState))
    → some_round (settled (n.providers c) wanted) states ≡ true
    → (b : Bool) × (n' : Network) × (wait_rounds n c wanted states ≡ ok (b, n'))
unfolding wait_rounds some_round settled keeps_waiting
rounds-return n c wanted [] h = ground (arith, h)
rounds-return n c wanted (state ∷ states) h =
    let n1 : Network = record n { frame_queue = update n.frame_queue c [] } in
    let k : Counts = count_states state (n.providers c) in
    elim (Bool-cases (keeps_waiting wanted (length (n.providers c)) k)) [
      | inl more ↦
          let (b, n', e) = rounds-return n1 c wanted states (ground (arith, h)) in
          (b, n', ground (arith, e))
      | inr done ↦ (ltb 0 k.ready_ones && k.bad == 0, n, ground arith)
    ]

-- Waiting for providers returns once it sees that a provider has ended or failed, or that few
-- enough are waiting.
pub wait_for_providers-returns :
    (n : Network) (c count : ℕ) (states : List (ℕ → ProviderState))
    → some_round (settled (n.providers c) (wait_for count (length (n.providers c)))) states ≡ true
    → (b : Bool) × (n' : Network) × (wait_for_providers n c count states ≡ ok (b, n'))
unfolding wait_for_providers
wait_for_providers-returns n c count states h =
    rounds-return n c (wait_for count (length (n.providers c))) states h

-- In every observation no provider has ended or failed.
unfoldable pub all_sound : LinkMap → List (ℕ → ProviderState) → Bool
all_sound m [] = true
all_sound m (state ∷ states) = (count_states state m).bad == 0 && all_sound m states

rounds-stuck :
    (n : Network) (c wanted : ℕ) (states : List (ℕ → ProviderState))
    → length (n.providers c) < wanted
    → all_sound (n.providers c) states ≡ true
    → wait_rounds n c wanted states ≡ spent
unfolding wait_rounds all_sound keeps_waiting
rounds-stuck n c wanted [] h s = refl
rounds-stuck n c wanted (state ∷ states) h s =
    let n1 : Network = record n { frame_queue = update n.frame_queue c [] } in
    ground (arith, rounds-stuck n1 c wanted states)

-- A consumer that waits for more providers than it has goes on waiting, however often it looks and
-- whether they are ready or not, as long as none of them has ended or failed.
pub wait_for_providers-stuck :
    (n : Network) (c count : ℕ) (states : List (ℕ → ProviderState))
    → length (n.providers c) < count
    → all_sound (n.providers c) states ≡ true
    → wait_for_providers n c count states ≡ spent
unfolding wait_for_providers wait_for
wait_for_providers-stuck n c count states h s = ground (arith, rounds-stuck n c count states)

-- Checking the providers never stops the program, and fails where there are none or one of them has
-- ended; those that have failed, or wait, pass.
pub check_providers_lem :
    (n : Network) (c : ℕ)
    → check_providers n c
      ≡ ok (not (length (n.providers c) == 0) && not (any_ended n.state (n.providers c)))
unfolding check_providers
check_providers_lem n c =
    check_all-any_ended n.state (n.providers c) (not (length (n.providers c) == 0))
