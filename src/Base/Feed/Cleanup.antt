-- ===== src/Base/Feed/Cleanup.antt =====
-- The cleanup of a provider and of a consumer, before they are destroyed:
-- server/src/base/ozFeedProvider.cpp and ozFeedConsumer.cpp. The map of all providers by their
-- identity is not modelled.
use ozonebase.Prelude.{ℕ, ◌≡◌, refl, false, not, ◌&&◌, [], ◌∷◌, ◌==◌, if◌then◌else◌, arith}
use ozonebase.Libgen.Outcome.{Outcome, ok, ◌>>=◌}
use ozonebase.Base.Feed.{
  LinkMap, Network, update, has, erase, has_provider, has_consumer, deregister_provider,
  deregister_consumer, set_ended,
}
use ozonebase.Base.Feed.Links.{has-erase}
use ozonebase.Base.Feed.Symmetry.{Symmetric}

-- The loop of a provider over its consumers, which do not call back.
pub leave_consumers : Network → ℕ → LinkMap → Outcome Network
leave_consumers n p [] = ok n
leave_consumers n p ((c, l) ∷ m) =
    let left = deregister_provider 1 n c p false >>= λ r. ok (r.1) in
    (if has_provider n c p then left else ok n) >>= λ n'. leave_consumers n' p m

pub cleanup_provider : Network → ℕ → Outcome Network
cleanup_provider n p =
    leave_consumers (record n { state = update n.state p (set_ended (n.state p)) }) p
      (n.consumers p)
    >>= λ n'. ok (record n' { consumers = update n'.consumers p [] })

-- The loop of a consumer over its providers.
pub leave_providers : Network → ℕ → LinkMap → Outcome Network
leave_providers n c [] = ok n
leave_providers n c ((p, l) ∷ m) =
    let left = deregister_consumer 1 n p c false >>= λ r. ok (r.1) in
    (if has_consumer n p c then left else ok n) >>= λ n'. leave_providers n' c m

pub cleanup_consumer : Network → ℕ → Outcome Network
cleanup_consumer n c = leave_providers n c (n.providers c) >>= λ n'.
    ok
      (record n' { providers = update n'.providers c []; frame_queue = update n'.frame_queue c [] })

-- Deregistering without a call back touches one side only.
deregister_provider-one :
    (n : Network) (c p : ℕ)
    → deregister_provider 1 n c p false
      ≡ ok (
        has_provider n c p,
        record n { providers = update n.providers c (erase p (n.providers c)) },
      )
unfolding deregister_provider
deregister_provider-one n c p = ground arith

deregister_consumer-one :
    (n : Network) (p c : ℕ)
    → deregister_consumer 1 n p c false
      ≡ ok (
        has_consumer n p c,
        record n { consumers = update n.consumers p (erase c (n.consumers p)) },
      )
unfolding deregister_consumer
deregister_consumer-one n p c = ground arith

record LeftConsumers (n : Network) (p : ℕ) (m : LinkMap) (n' : Network) : Type 0 where
  pairs :
      (c' p' : ℕ) → has_provider n' c' p' ≡ (not (has c' m && (p' == p)) && has_provider n c' p')
  consumers : n'.consumers ≡ n.consumers
  state : n'.state ≡ n.state
  queues : n'.frame_queue ≡ n.frame_queue

leave_consumers-Left :
    (n : Network) (p : ℕ) (m : LinkMap)
    → (n' : Network) × (leave_consumers n p m ≡ ok n') × LeftConsumers n p m n'
unfolding leave_consumers has
leave_consumers-Left n p [] =
    (n, refl, record { pairs = λ c' p'. refl; consumers = refl; state = refl; queues = refl })
leave_consumers-Left n p ((c, l) ∷ m) =
    let n1 =
      if has_provider n c p
      then record n { providers = update n.providers c (erase p (n.providers c)) }
      else n in
    let (n', e, r) = leave_consumers-Left n1 p m in
    (
      n',
      ground (arith, deregister_provider-one n c p, e),
      record {
        pairs = λ c' p'.
            ground
              (arith, r.pairs c' p', has-erase p' p (n.providers c), has-erase p p (n.providers c));
        consumers = ground (arith, r.consumers);
        state = ground (arith, r.state);
        queues = ground (arith, r.queues);
      },
    )

record LeftProviders (n : Network) (c : ℕ) (m : LinkMap) (n' : Network) : Type 0 where
  pairs :
      (p' c' : ℕ) → has_consumer n' p' c' ≡ (not (has p' m && (c' == c)) && has_consumer n p' c')
  providers : n'.providers ≡ n.providers
  queues : n'.frame_queue ≡ n.frame_queue

leave_providers-Left :
    (n : Network) (c : ℕ) (m : LinkMap)
    → (n' : Network) × (leave_providers n c m ≡ ok n') × LeftProviders n c m n'
unfolding leave_providers has
leave_providers-Left n c [] =
    (n, refl, record { pairs = λ p' c'. refl; providers = refl; queues = refl })
leave_providers-Left n c ((p, l) ∷ m) =
    let n1 =
      if has_consumer n p c
      then record n { consumers = update n.consumers p (erase c (n.consumers p)) }
      else n in
    let (n', e, r) = leave_providers-Left n1 c m in
    (
      n',
      ground (arith, deregister_consumer-one n p c, e),
      record {
        pairs = λ p' c'.
            ground
              (arith, r.pairs p' c', has-erase c' c (n.consumers p), has-erase c c (n.consumers p));
        providers = ground (arith, r.providers);
        queues = ground (arith, r.queues);
      },
    )

-- What a network is after a provider has been cleaned up.
pub record WithoutProvider (n : Network) (p : ℕ) (n' : Network) : Type 0 where
  pub symmetric : Symmetric n'
  pub pairs : (c' p' : ℕ) → has_provider n' c' p' ≡ (not (p' == p) && has_provider n c' p')
  pub state : n'.state p ≡ set_ended (n.state p)
  pub queues : n'.frame_queue ≡ n.frame_queue

-- Cleaning up a provider of a symmetric network leaves no consumer that has it, changes no other
-- pair and no queue, keeps the network symmetric, and marks the provider as ended unless it failed.
pub cleanup_provider_lem :
    (n : Network) (p : ℕ)
    → Symmetric n
    → (n' : Network) × (cleanup_provider n p ≡ ok n') × WithoutProvider n p n'
unfolding cleanup_provider Symmetric has
cleanup_provider_lem n p s =
    let start : Network = record n { state = update n.state p (set_ended (n.state p)) } in
    let (n', e, r) = leave_consumers-Left start p (n.consumers p) in
    let pairs : (c' p' : ℕ) → has_provider n' c' p' ≡ (not (p' == p) && has_provider n c' p') =
      λ c' p'. ground (arith, r.pairs c' p', s c' p, s c' p') in
    (
      record n' { consumers = update n'.consumers p [] },
      ground (arith, e),
      record {
        symmetric = λ c' p'. ground (arith, pairs c' p', r.consumers, s c' p');
        pairs = pairs;
        state = ground (arith, r.state);
        queues = r.queues;
      },
    )

-- What a network is after a consumer has been cleaned up.
pub record WithoutConsumer (n : Network) (c : ℕ) (n' : Network) : Type 0 where
  pub symmetric : Symmetric n'
  pub pairs : (c' p' : ℕ) → has_provider n' c' p' ≡ (not (c' == c) && has_provider n c' p')
  pub queues : (c' : ℕ) → n'.frame_queue c' ≡ (if c' == c then [] else n.frame_queue c')

-- Cleaning up a consumer of a symmetric network leaves no provider that has it, changes no other
-- pair, keeps the network symmetric, and empties that consumer's queue only.
pub cleanup_consumer_lem :
    (n : Network) (c : ℕ)
    → Symmetric n
    → (n' : Network) × (cleanup_consumer n c ≡ ok n') × WithoutConsumer n c n'
unfolding cleanup_consumer Symmetric has
cleanup_consumer_lem n c s =
    let (n', e, r) = leave_providers-Left n c (n.providers c) in
    (
      record n' { providers = update n'.providers c []; frame_queue = update n'.frame_queue c [] },
      ground (arith, e),
      record {
        symmetric = λ c' p'. ground (arith, r.pairs p' c', r.providers, s c' p', s c p');
        pairs = λ c' p'. ground (arith, r.providers);
        queues = λ c'. ground (arith, r.queues);
      },
    )
