-- ===== src/Base/Feed/Delivery.antt =====
-- distributeFrame of server/src/base/ozFeedProvider.cpp: who gets a frame, and who is dropped.
use ozonebase.Prelude.{
  ℕ, ◌≡◌, ◌∙◌, refl, Bool, true, false, not, ◌&&◌, ◌||◌, Option, none, some, List, [], ◌∷◌, ◌++◌,
  ltb, ◌==◌, if◌then◌else◌, arith, ap, length,
}
use ozonebase.Libgen.Outcome.{ok, ◌>>=◌}
use ozonebase.Base.Feed.{
  Frame, FeedLink, LinkMap, Network, update, has, passes, max_queue_size, queue_frame, deliver,
  drop_bad, distribute_frame, has_provider, set_ready,
}
use ozonebase.Base.Feed.Links.{distinct}
use ozonebase.Base.Feed.Symmetry.{Symmetric}
use ozonebase.Base.Feed.Removal.{deregister_consumer_lem}

-- The link under a key.
unfoldable pub find : ℕ → LinkMap → Option FeedLink
find k [] = none
find k ((j, l) ∷ m) = if j == k then some l else find k m

-- Whether a frame is for the consumer, and whether its queue has room.
abbrev pub wanted : Option FeedLink → Frame → ℕ → Bool
wanted none f c = false
wanted (some l) f c = passes l f c

abbrev pub room : List Frame → Bool
room q = ltb (length q) max_queue_size

-- What the queue of a consumer is afterwards.
abbrev pub queue_after : List Frame → Option FeedLink → Frame → ℕ → List Frame
queue_after q l f c = if wanted l f c && room q then q ++ (f ∷ []) else q

unfoldable member : ℕ → List ℕ → Bool
member c [] = false
member c (d ∷ ds) = d == c || member c ds

find-has : (k : ℕ) (m : LinkMap) → has k m ≡ false → find k m ≡ none
unfolding has find
find-has k [] h = refl
find-has k ((j, l) ∷ m) h = ground (arith, find-has k m)

queue-deliver :
    (n : Network) (f : Frame) (m : LinkMap) (c : ℕ)
    → distinct m ≡ true
    → (deliver n f m).1.frame_queue c ≡ queue_after (n.frame_queue c) (find c m) f c
unfolding deliver distinct find queue_frame
queue-deliver n f [] c d = refl
queue-deliver n f ((j, l) ∷ m) c d =
    let n' = (if passes l f j then queue_frame n f j else (true, n)).1 in
    ground (arith, queue-deliver n' f m c, find-has j m)

bad-deliver :
    (n : Network) (f : Frame) (m : LinkMap) (c : ℕ)
    → distinct m ≡ true
    → member c (deliver n f m).0 ≡ (wanted (find c m) f c && not (room (n.frame_queue c)))
unfolding deliver distinct find queue_frame member
bad-deliver n f [] c d = refl
bad-deliver n f ((j, l) ∷ m) c d =
    let n' = (if passes l f j then queue_frame n f j else (true, n)).1 in
    ground (arith, bad-deliver n' f m c, find-has j m)

-- What delivery leaves as it was.
record SameLinks (n n' : Network) : Type 0 where
  providers : n'.providers ≡ n.providers
  consumers : n'.consumers ≡ n.consumers
  state : n'.state ≡ n.state
  can_poll : n'.can_poll ≡ n.can_poll

deliver-SameLinks : (n : Network) (f : Frame) (m : LinkMap) → SameLinks n (deliver n f m).1
unfolding deliver queue_frame
deliver-SameLinks n f [] = record {
  providers = refl;
  consumers = refl;
  state = refl;
  can_poll = refl;
}
deliver-SameLinks n f ((j, l) ∷ m) =
    let n' = (if passes l f j then queue_frame n f j else (true, n)).1 in
    let r = deliver-SameLinks n' f m in
    record {
      providers = ground (arith, r.providers);
      consumers = ground (arith, r.consumers);
      state = ground (arith, r.state);
      can_poll = ground (arith, r.can_poll);
    }

-- A network in which a list of consumers of one provider has been dropped.
record Dropped (n : Network) (p : ℕ) (bad : List ℕ) (n' : Network) : Type 0 where
  symmetric : Symmetric n'
  pairs :
      (c' p' : ℕ)
      → has_provider n' c' p' ≡ (not (member c' bad && (p' == p)) && has_provider n c' p')
  queues : n'.frame_queue ≡ n.frame_queue
  distinct_kept : (p' : ℕ) → distinct (n.consumers p') ≡ true → distinct (n'.consumers p') ≡ true
  can_poll : n'.can_poll ≡ n.can_poll
  state : n'.state ≡ n.state

drop_bad-Dropped :
    (n : Network) (p : ℕ) (bad : List ℕ)
    → Symmetric n
    → (n' : Network) × (drop_bad n p bad ≡ ok n') × Dropped n p bad n'
unfolding drop_bad member
drop_bad-Dropped n p [] s = (
  n,
  refl,
  record {
    symmetric = s;
    pairs = λ c' p'. refl;
    distinct_kept = λ p' h. h;
    queues = refl;
    can_poll = refl;
    state = refl;
  },
)
drop_bad-Dropped n p (c ∷ bad) s =
    let (n', e, u) = deregister_consumer_lem n p c s in
    let (n'', e', d) = drop_bad-Dropped n' p bad u.symmetric in
    (
      n'',
      ap (λ r. r >>= λ x. drop_bad (x.1) p bad) e ∙ e',
      record {
        symmetric = d.symmetric;
        pairs = λ c' p'. ground (arith, d.pairs c' p', u.pairs c' p');
        queues = d.queues ∙ u.queues;
        distinct_kept = λ p' h. d.distinct_kept p' (u.distinct_kept p' h);
        can_poll = d.can_poll ∙ u.can_poll;
        state = d.state ∙ u.state;
      },
    )

-- What distributing a frame does to a network.
pub record Distributed (n : Network) (p : ℕ) (f : Frame) (n' : Network) : Type 0 where
  pub symmetric : Symmetric n'
  pub queues :
      (c : ℕ) → n'.frame_queue c ≡ queue_after (n.frame_queue c) (find c (n.consumers p)) f c
  pub pairs :
      (c' p' : ℕ)
      → has_provider n' c' p' ≡ (
          not
            ((wanted (find c' (n.consumers p)) f c' && not (room (n.frame_queue c'))) && (p' == p))
          && has_provider n c' p')
  pub distinct_kept :
      (p' : ℕ) → distinct (n.consumers p') ≡ true → distinct (n'.consumers p') ≡ true
  pub polled : n.can_poll p ≡ true → n'.last_frame p ≡ some f
  pub ready : n'.state p ≡ set_ready (n.state p)

abbrev started : Network → ℕ → Network
started n p = record n { state = update n.state p (set_ready (n.state p)) }

abbrev final : Network → ℕ → Frame → Network → Network
final n p f x = if n.can_poll p then record x { last_frame = update x.last_frame p (some f) } else x

-- On a symmetric network whose provider has each consumer once, distributing a frame ends with a
-- symmetric network, in which the queue of each consumer has the frame at its end where the link
-- passes it and the queue has room, and is as before otherwise; the consumers that wanted the frame
-- and had no room are deregistered and no other pair changes; a provider that had each consumer
-- once still does; the frame is stored as the provider's last one where it supports polling; and
-- the provider's state is what setReady makes of it.
pub distribute_frame_lem :
    (n : Network) (p : ℕ) (f : Frame)
    → Symmetric n
    → distinct (n.consumers p) ≡ true
    → (n' : Network) × (distribute_frame n p f ≡ ok n') × Distributed n p f n'
unfolding distribute_frame Symmetric
distribute_frame_lem n p f s d =
    let delivered : Network = (deliver (started n p) f (n.consumers p)).1 in
    let same = deliver-SameLinks (started n p) f (n.consumers p) in
    let (n', e, r) =
      drop_bad-Dropped delivered p (deliver (started n p) f (n.consumers p)).0
        (λ c' p'. ground (arith, s c' p', same.providers, same.consumers)) in
    (
      final n p f n',
      ap (λ o. o >>= λ x. ok (final n p f x)) e,
      record {
        symmetric = λ c' p'. ground (arith, r.symmetric c' p');
        queues = λ c. ground (arith, r.queues, queue-deliver (started n p) f (n.consumers p) c d);
        pairs = λ c' p'. ground (
          arith,
          r.pairs c' p',
          bad-deliver (started n p) f (n.consumers p) c' d,
          same.providers,
        );
        distinct_kept = λ p' h. ground (arith, r.distinct_kept p', h, same.consumers);
        polled = λ h. ground (arith, h, r.can_poll, same.can_poll);
        ready = ground (arith, r.state, same.state);
      },
    )
