-- ===== src/Tests/Feeds.antt =====
-- A small network of server/src/base at work: provider 1 and consumer 2.
use ozonebase.Prelude.{
  ℕ, ◌≡◌, refl, true, false, not, none, List, [], ◌∷◌, ◌==◌, if◌then◌else◌, arith,
}
use ozonebase.Libgen.Outcome.{ok}
use ozonebase.Base.Feed.{
  Frame, Network, ProviderState, wait, ready, queued_feed_link, has, has_provider,
  register_provider, distribute_frame,
}
use ozonebase.Base.Feed.Symmetry.{Symmetric, Linked, register_provider_lem}
use ozonebase.Base.Feed.Links.{distinct}
use ozonebase.Base.Feed.Delivery.{Distributed, distribute_frame_lem}

abbrev sample_feed : Network
sample_feed = record {
  consumers = λ p. if p == 1 then (2, queued_feed_link) ∷ [] else [];
  providers = λ c. if c == 2 then (1, queued_feed_link) ∷ [] else [];
  frame_queue = λ c. [];
  provider_limit = λ c. 2;
  state = λ p. wait;
  can_poll = λ p. true;
  last_frame = λ p. none;
}

sample_feed-Symmetric : Symmetric sample_feed
unfolding Symmetric has
sample_feed-Symmetric = λ c p. ground arith

abbrev sample_frame : Frame
sample_frame = record { id = 1; is_video = true; is_audio = false; is_data = false }

distribute_frame_lem_example :
    (n' : Network) × (distribute_frame sample_feed 1 sample_frame ≡ ok n')
    × Distributed sample_feed 1 sample_frame n'
unfolding distinct has
distribute_frame_lem_example =
    distribute_frame_lem sample_feed 1 sample_frame sample_feed-Symmetric refl

register_provider_lem_example :
    (n' : Network) × (register_provider 2 sample_feed 2 3 queued_feed_link
      ≡ ok (not (has_provider sample_feed 2 3), n'))
    × Linked sample_feed 2 3 n'
register_provider_lem_example =
    register_provider_lem sample_feed 2 3 queued_feed_link sample_feed-Symmetric (omega arith) refl

-- The provider waits at first and is ready at the second look.
abbrev observations : List (ℕ → ProviderState)
observations = (λ p. wait) ∷ (λ p. ready) ∷ []
