-- ===== src/Processors/DelayBuffer/Order.antt =====
-- server/src/processors/ozDelayBuffer.cpp: no frame is lost or overtaken.
use ozonebase.Prelude.{
  ℕ, zero, suc, inl, inr, Bool-cases, lt→ltb, ◌≡◌, refl, sym, ap, ◌∙◌, Bool, false, List, [], ◌∷◌,
  ◌++◌, arith, ltb, length, take, drop, append_assoc, append-nil,
}
use ozonebase.Base.Feed.{Frame}
use ozonebase.Processors.DelayBuffer.{
  DelayBuffer, collect, sent_frame_count, send, round, Round, queue_all, run_rounds,
}

-- The frames that a filter has, the oldest first.
unfoldable pub held : DelayBuffer → List Frame
held d = d.delay_queue ++ d.frame_queue

-- The frames that come in some rounds.
unfoldable pub arrivals_of : List Round → List Frame
arrivals_of [] = []
arrivals_of (r ∷ rounds) = r.arrivals ++ arrivals_of rounds

take-drop : (n : ℕ) (frames : List Frame) → take n frames ++ drop n frames ≡ frames
take-drop zero frames = refl
take-drop (suc n) [] = refl
take-drop (suc n) (frame ∷ frames) = ap (λ x. frame ∷ x) (take-drop n frames)

send-held :
    (is_young : Frame → Bool) (d : DelayBuffer)
    → (send is_young d).0 ++ held ((send is_young d).1) ≡ held d
unfolding send held
send-held is_young d =
    let count : ℕ = sent_frame_count is_young d.delay_queue in
    elim (Bool-cases (ltb 0 count)) [
      | inl e ↦ rw e (
          sym (append_assoc (take count d.delay_queue) (drop count d.delay_queue) d.frame_queue)
          ∙ ap (λ x. x ++ d.frame_queue) (take-drop count d.delay_queue))
      | inr e ↦ rw e refl
    ]

round-held :
    (r : Round) (d : DelayBuffer)
    → (round r.is_young (queue_all d r.arrivals)).0
        ++ held ((round r.is_young (queue_all d r.arrivals)).1)
      ≡ held d ++ r.arrivals
unfolding round collect held
round-held r d =
    send-held r.is_young (collect (queue_all d r.arrivals))
    ∙ (append-nil (d.delay_queue ++ (d.frame_queue ++ r.arrivals))
        ∙ sym (append_assoc d.delay_queue d.frame_queue r.arrivals))

-- Whatever comes and however old it is in which round: the frames that are passed on, followed by
-- those that the filter has at the end, are those that it had at the beginning, followed by those
-- that came, in their order.
pub run_rounds-held :
    (rounds : List Round) (d : DelayBuffer)
    → (run_rounds rounds d).0 ++ held ((run_rounds rounds d).1) ≡ held d ++ arrivals_of rounds
unfolding run_rounds arrivals_of
run_rounds-held [] d = sym (append-nil (held d))
run_rounds-held (r ∷ rounds) d =
    let first : List Frame × DelayBuffer = round r.is_young (queue_all d r.arrivals) in
    append_assoc first.0 (run_rounds rounds first.1).0 (held (run_rounds rounds first.1).1)
    ∙ (ap (λ x. first.0 ++ x) (run_rounds-held rounds first.1)
        ∙ (sym (append_assoc first.0 (held first.1) (arrivals_of rounds))
            ∙ (ap (λ x. x ++ arrivals_of rounds) (round-held r d)
                ∙ append_assoc (held d) r.arrivals (arrivals_of rounds))))

sent_frame_count_all :
    (is_young : Frame → Bool) (frames : List Frame)
    → ((frame : Frame) → is_young frame ≡ false)
    → sent_frame_count is_young frames ≡ length frames
unfolding sent_frame_count
sent_frame_count_all is_young [] h = refl
sent_frame_count_all is_young (frame ∷ frames) h =
    rw (h frame) (ap suc (sent_frame_count_all is_young frames h))

drop-length : (frames : List Frame) → drop (length frames) frames ≡ []
drop-length [] = refl
drop-length (frame ∷ frames) = drop-length frames

held-send :
    (is_young : Frame → Bool) (frames : List Frame) (count : ℕ)
    → ((frame : Frame) → is_young frame ≡ false)
    → held
        ((send is_young (record { frame_queue = []; delay_queue = frames; frame_count = count })).1)
      ≡ []
unfolding held send sent_frame_count
held-send is_young [] count h = refl
held-send is_young (frame ∷ frames) count h =
    rw
      (
        h frame,
        sent_frame_count_all is_young frames h,
        lt→ltb 0 (suc (length frames)) (omega arith),
        drop-length frames,
      )
      refl

held-round :
    (is_young : Frame → Bool) (d : DelayBuffer)
    → ((frame : Frame) → is_young frame ≡ false)
    → held ((round is_young d).1) ≡ []
unfolding round collect
held-round is_young d h = held-send is_young (d.delay_queue ++ d.frame_queue) _ h

held-run_rounds :
    (rounds : List Round) (r : Round) (d : DelayBuffer)
    → ((frame : Frame) → r.is_young frame ≡ false)
    → held ((run_rounds (rounds ++ r ∷ []) d).1) ≡ []
unfolding run_rounds
held-run_rounds [] r d h = held-round r.is_young (queue_all d r.arrivals) h
held-run_rounds (first ∷ rounds) r d h =
    held-run_rounds rounds r ((round first.is_young (queue_all d first.arrivals)).1) h

-- When at last there is a round in which no frame is too young, all frames that the filter had or
-- that came have been passed on, each once and in their order.
pub run_rounds-arrivals_of :
    (rounds : List Round) (r : Round) (d : DelayBuffer)
    → ((frame : Frame) → r.is_young frame ≡ false)
    → (run_rounds (rounds ++ r ∷ []) d).0 ≡ held d ++ arrivals_of (rounds ++ r ∷ [])
run_rounds-arrivals_of rounds r d h =
    let all : List Round = rounds ++ r ∷ [] in
    sym (append-nil ((run_rounds all d).0))
    ∙ (ap (λ x. (run_rounds all d).0 ++ x) (sym (held-run_rounds rounds r d h))
        ∙ run_rounds-held all d)
