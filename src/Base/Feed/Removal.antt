-- ===== src/Base/Feed/Removal.antt =====
-- Deregistration in server/src/base: a pair of a consumer and a provider leaves both sides.
use ozonebase.Prelude.{ℕ, ◌≡◌, refl, true, false, not, ◌&&◌, ◌==◌, arith, Bool-cases, inl, inr}
use ozonebase.Libgen.Outcome.{ok}
use ozonebase.Base.Feed.{
  Network, update, erase, has_provider, has_consumer, deregister_provider, deregister_consumer,
}
use ozonebase.Base.Feed.Links.{distinct, distinct-erase, has-erase}
use ozonebase.Base.Feed.Symmetry.{Symmetric}

abbrev unlinked : Network → ℕ → ℕ → Network
unlinked n c p = record n {
  providers = update n.providers c (erase p (n.providers c));
  consumers = update n.consumers p (erase c (n.consumers p));
}

-- Of two networks, the second lacks the pair and has else the same.
pub record Unlinked (n : Network) (c p : ℕ) (n' : Network) : Type 0 where
  pub symmetric : Symmetric n'
  pub pairs :
      (c' p' : ℕ) → has_provider n' c' p' ≡ (not ((c' == c) && (p' == p)) && has_provider n c' p')
  pub distinct_kept :
      (p' : ℕ) → distinct (n.consumers p') ≡ true → distinct (n'.consumers p') ≡ true
  pub queues : n'.frame_queue ≡ n.frame_queue
  pub state : n'.state ≡ n.state
  pub can_poll : n'.can_poll ≡ n.can_poll

unlinked-Unlinked : (n : Network) (c p : ℕ) → Symmetric n → Unlinked n c p (unlinked n c p)
unfolding Symmetric
unlinked-Unlinked n c p s = record {
  distinct_kept = λ p' d. ground (arith, d, distinct-erase c (n.consumers p));
  symmetric = λ c' p'. ground (
    arith,
    has-erase p' p (n.providers c),
    has-erase c' c (n.consumers p),
    s c' p',
    s c p',
    s c' p,
    s c p,
  );
  pairs = λ c' p'. ground (arith, has-erase p' p (n.providers c));
  queues = refl;
  state = refl;
  can_poll = refl;
}

-- Erasing only the one side of a pair that is on neither changes no pair.
half-Unlinked :
    (n : Network) (c p : ℕ)
    → Symmetric n
    → has_provider n c p ≡ false
    → Unlinked n c p (record n { providers = update n.providers c (erase p (n.providers c)) })
      × Unlinked n c p (record n { consumers = update n.consumers p (erase c (n.consumers p)) })
unfolding Symmetric
half-Unlinked n c p s new = (
  record {
    distinct_kept = λ p' d. d;
    symmetric =
        λ c' p'. ground (arith, has-erase p' p (n.providers c), s c' p', s c p', s c' p, s c p);
    pairs = λ c' p'. ground (arith, has-erase p' p (n.providers c));
    queues = refl;
    state = refl;
    can_poll = refl;
  },
  record {
    distinct_kept = λ p' d. ground (arith, d, distinct-erase c (n.consumers p));
    symmetric =
        λ c' p'. ground (arith, has-erase c' c (n.consumers p), s c' p', s c p', s c' p, s c p);
    pairs = λ c' p'. ground arith;
    queues = refl;
    state = refl;
    can_poll = refl;
  },
)

-- Deregistering a consumer from a provider of a symmetric network: the result is whether the
-- pair was there, and it is gone from both sides, with every other pair, the queues and the
-- states as before; and a provider that had each consumer once still does.
pub deregister_consumer_lem :
    (n : Network) (p c : ℕ)
    → Symmetric n
    → (n' : Network) × (deregister_consumer 2 n p c true ≡ ok (has_consumer n p c, n'))
      × Unlinked n c p n'
unfolding Symmetric deregister_consumer deregister_provider
deregister_consumer_lem n p c s = elim (Bool-cases (has_provider n c p)) [
  | inl known ↦ (
    unlinked n c p,
    ground (arith, s c p, has-erase c c (n.consumers p)),
    unlinked-Unlinked n c p s,
  )
  | inr new ↦ (
    record n { consumers = update n.consumers p (erase c (n.consumers p)) },
    ground (arith, s c p),
    (half-Unlinked n c p s new).1,
  )
]

pub deregister_provider_lem :
    (n : Network) (c p : ℕ)
    → Symmetric n
    → (n' : Network) × (deregister_provider 2 n c p true ≡ ok (has_provider n c p, n'))
      × Unlinked n c p n'
unfolding Symmetric deregister_provider deregister_consumer
deregister_provider_lem n c p s = elim (Bool-cases (has_provider n c p)) [
  | inl known ↦ (
    unlinked n c p,
    ground (arith, s c p, has-erase p p (n.providers c)),
    unlinked-Unlinked n c p s,
  )
  | inr new ↦ (
    record n { providers = update n.providers c (erase p (n.providers c)) },
    ground (arith, s c p),
    (half-Unlinked n c p s new).0,
  )
]
