-- ===== src/Base/Feed/Symmetry.antt =====
-- Registration in server/src/base: a consumer and a provider know of each other.
use ozonebase.Prelude.{
  ℕ, suc, ◌≡◌, ◌⊎◌, ◌<◌, ◌≤◌, refl, true, false, not, ◌&&◌, ◌||◌, ◌==◌, arith, Bool-cases, inl, inr,
  length,
}
use ozonebase.Libgen.Outcome.{ok, panic}
use ozonebase.Base.Feed.{
  FeedLink, Network, update, add, has_provider, has_consumer, register_provider, register_consumer,
  queued_feed_link,
}
use ozonebase.Base.Feed.Links.{distinct, distinct-add, has-add, has-add_self}

-- Every provider that a consumer has knows that consumer, and the other way round.
unfoldable pub Symmetric : Network → Type 0
Symmetric n = (c p : ℕ) → has_provider n c p ≡ has_consumer n p c

-- The network with the pair added on both sides.
abbrev linked : Network → ℕ → ℕ → FeedLink → FeedLink → Network
linked n c p l l' = record n {
  providers = update n.providers c (add p l (n.providers c));
  consumers = update n.consumers p (add c l' (n.consumers p));
}

-- Of two networks, the second has the pair as well and else the same.
pub record Linked (n : Network) (c p : ℕ) (n' : Network) : Type 0 where
  pub symmetric : Symmetric n'
  pub pairs :
      (c' p' : ℕ) → has_provider n' c' p' ≡ (((c' == c) && (p' == p)) || has_provider n c' p')
  pub distinct_kept :
      (p' : ℕ) → distinct (n.consumers p') ≡ true → distinct (n'.consumers p') ≡ true
  pub queues : n'.frame_queue ≡ n.frame_queue
  pub state : n'.state ≡ n.state
  pub can_poll : n'.can_poll ≡ n.can_poll

linked-Linked :
    (n : Network) (c p : ℕ) (l l' : FeedLink)
    → Symmetric n
    → has_consumer n p c ≡ false
    → Linked n c p (linked n c p l l')
unfolding Symmetric
linked-Linked n c p l l' s new = record {
  distinct_kept = λ p' d. ground (arith, d, distinct-add c l' (n.consumers p));
  symmetric = λ c' p'. ground (
    arith,
    has-add p' p l (n.providers c),
    has-add c' c l' (n.consumers p),
    s c' p',
    s c p',
    s c' p,
    s c p,
  );
  pairs = λ c' p'. ground (arith, has-add p' p l (n.providers c));
  queues = refl;
  state = refl;
  can_poll = refl;
}

-- A consumer that has room for one more provider registers with one that supports its link: the
-- result is whether the pair is new, and on a symmetric network it is then known on both sides,
-- with every other pair, the queues and the states as before; and a provider that had each
-- consumer once still does.
pub register_provider_lem :
    (n : Network) (c p : ℕ) (link : FeedLink)
    → Symmetric n
    → length (n.providers c) < n.provider_limit c
    → (n.can_poll p || not link.polled) ≡ true
    → (n' : Network) × (register_provider 2 n c p link ≡ ok (not (has_provider n c p), n'))
      × Linked n c p n'
unfolding Symmetric register_provider register_consumer
register_provider_lem n c p link s room poll = elim (Bool-cases (has_provider n c p)) [
  | inl known ↦ (
    n,
    ground arith,
    record {
      symmetric = s;
      distinct_kept = λ p' d. d;
      pairs = λ c' p'. ground arith;
      queues = refl;
      state = refl;
      can_poll = refl;
    },
  )
  | inr new ↦ (
    linked n c p link link,
    ground (arith, s c p, has-add_self p link (n.providers c)),
    linked-Linked n c p link link s (ground (arith, s c p)),
  )
]

-- A provider that supports the link registers a consumer that it has already or that has room
-- for one more provider: the result is whether the pair is new, and on a symmetric network it is
-- then known on both sides, with every other pair, the queues and the states as before; and a
-- provider that had each consumer once still does.
pub register_consumer_lem :
    (n : Network) (p c : ℕ) (link : FeedLink)
    → Symmetric n
    → (has_consumer n p c ≡ true) ⊎ (length (n.providers c) < n.provider_limit c)
    → (n.can_poll p || not link.polled) ≡ true
    → (n' : Network) × (register_consumer 2 n p c link ≡ ok (not (has_consumer n p c), n'))
      × Linked n c p n'
unfolding Symmetric register_consumer register_provider
register_consumer_lem n p c link s room poll = elim (Bool-cases (has_consumer n p c)) [
  | inl known ↦ (
    n,
    ground (arith, s c p),
    record {
      symmetric = s;
      distinct_kept = λ p' d. d;
      pairs = λ c' p'. ground (arith, s c p);
      queues = refl;
      state = refl;
      can_poll = refl;
    },
  )
  | inr new ↦ (
    linked n c p queued_feed_link link,
    ground (arith, s c p, has-add_self c link (n.consumers p)),
    linked-Linked n c p queued_feed_link link s new,
  )
]

-- A consumer that has as many providers as it may have stops the program when it registers with
-- one more, and with one that it has already too.
pub register_provider-panics :
    (n : Network) (c p : ℕ) (link : FeedLink) (fuel : ℕ)
    → n.provider_limit c ≤ length (n.providers c)
    → register_provider (suc fuel) n c p link ≡ panic
unfolding register_provider
register_provider-panics n c p link fuel full = ground arith
