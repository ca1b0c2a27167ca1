-- ===== src/Processors/RateLimiter/Rate.antt =====
-- server/src/processors/ozRateLimiter.cpp: how many frames can pass in a time.
use ozonebase.Prelude.{
  ℕ, zero, suc, sym, subst, ◌+◌, ◌*◌, ◌≤◌, ◌≡◌, Bool, true, ◌&&◌, List, [], ◌∷◌, arith, ltb, leb,
  length, length-append, Bool-cases, inl, inr,
}
use ozonebase.Base.Feed.{Frame}
use ozonebase.Processors.RateLimiter.{
  RateLimiter, Round, start, synchronise, next_frame, pass, run_limited,
}

-- Whether readings of a clock never go back, from a time on.
unfoldable pub ascends : ℕ → List ℕ → Bool
ascends curr [] = true
ascends curr (now ∷ clock) = leb curr now && ascends now clock

synchronise_lem :
    (next curr : ℕ) (clock : List ℕ)
    → ascends curr clock ≡ true
    → (curr ≤ (synchronise next curr clock).0.1)
      × (ascends ((synchronise next curr clock).0.1) (synchronise next curr clock).1 ≡ true)
      × ((synchronise next curr clock).0.0 ≡ true → next ≤ (synchronise next curr clock).0.1)
unfolding synchronise ascends
synchronise_lem next curr [] h = (ground arith, ground arith, λ e. ground arith)
synchronise_lem next curr (now ∷ clock) h =
    let below = synchronise_lem next now clock in
    elim (Bool-cases (ltb curr next)) [
      | inl e ↦ (ground (arith, below), ground (arith, below), λ l. ground (arith, below))
      | inr e ↦ (ground arith, ground arith, λ l. ground arith)
    ]

-- What a round does to the times, and how much it passes on.
pass_lem :
    (x : RateLimiter) (r : Round)
    → (length (pass x r).0 ≤ 1)
      × ((pass x r).1.curr_time ≡ x.curr_time)
      × ((pass x r).1.next_time ≡ x.next_time + x.interval)
      × ((pass x r).1.interval ≡ x.interval)
unfolding pass next_frame
pass_lem x r = (ground arith, ground arith, ground arith, ground arith)

-- At most one frame more.
counted :
    (n m i next next' i' c : ℕ)
    → n ≤ 1
    → next' ≡ next + i
    → i' ≡ i
    → next' + m * i' ≤ c + i'
    → next + (n + m) * i ≤ c + i
counted zero m i next next' i' c h e f k = omega (arith, subst (λ j. next' + m * j ≤ c + j) f k)
counted (suc zero) m i next next' i' c h e f k =
    omega (arith, subst (λ j. next' + m * j ≤ c + j) f k)
counted (suc (suc n)) m i next next' i' c h e f k = absurd (omega arith)

run_limited-ascends :
    (rounds : List Round) (x : RateLimiter) (clock : List ℕ)
    → ascends x.curr_time clock ≡ true
    → x.next_time ≤ x.curr_time + x.interval
    → x.next_time + length (run_limited rounds x clock).0 * x.interval
      ≤ (run_limited rounds x clock).1.curr_time + x.interval
unfolding run_limited
run_limited-ascends [] x clock h k = omega (arith, k)
run_limited-ascends (r ∷ rounds) x clock h k =
    let s = synchronise x.next_time x.curr_time clock in
    let y : RateLimiter = record x { curr_time = s.0.1 } in
    let now : List Frame × RateLimiter = pass y r in
    let waited = synchronise_lem x.next_time x.curr_time clock h in
    let passed = pass_lem y r in
    elim (Bool-cases s.0.0) [
      | inl e ↦
          let later =
            run_limited-ascends rounds now.1 s.1
              (subst (λ t. ascends t s.1 ≡ true) (sym passed.1) waited.1)
              (omega (arith, passed.1, passed.2, passed.3, waited.2 e)) in
          rw (e, length-append now.0 (run_limited rounds now.1 s.1).0)
            (counted (length now.0) _ x.interval x.next_time (now.1.next_time) (now.1.interval) _
              passed.0 passed.2 passed.3 later)
      | inr e ↦ rw e (omega (arith, k, waited.0))
    ]

-- Whatever comes in and whenever the clock is read, as long as it does not go back: the frames passed
-- on since the start, times the interval, are no more than the time since the start and one interval
-- more.
pub run_limited-start :
    (rounds : List Round) (x : RateLimiter) (now : ℕ) (clock : List ℕ)
    → ascends now clock ≡ true
    → now + length (run_limited rounds (start x now) clock).0 * x.interval
      ≤ (run_limited rounds (start x now) clock).1.curr_time + x.interval
run_limited-start rounds x now clock h =
    run_limited-ascends rounds (start x now) clock h (omega arith)
