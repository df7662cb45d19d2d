-- ===== src/Driver/Threads/Sounds.antt =====
-- What the main thread of `run_scripted_pair_multithread` in src/core/emulator.cpp does to a CPU's thread: it
-- takes requests and progress, posts responses and gives the signal.
use saturnis.Base.{
  ℕ, ◌+◌, ◌≤◌, ◌<◌, ◌≡◌, refl, sym, ap, subst, ◌∙◌, ◌⊎◌, inl, inr, Bool, true, false, Option, none,
  some, List, [], ◌∷◌, arith,
}
use saturnis.Scripted.{PendingBusOp}
use saturnis.Driver.Threads.Producer.{
  ScriptResponse, post, Producer, ProducerPc, top, send_request, send_progress, send_signal,
  check_done, last_progress, set_done, last_signal, stopped, receive, answer_progress,
  answer_signal, asleep,
}
use saturnis.Driver.Threads.Main.{take_request}
use saturnis.Driver.Threads.Invariant.{
  Answers, Nowhere, Place, posted, held, answered, Phase, announcing, IsSound,
}

-- The mailboxes change, and the thread stands where it stood.
module _ (s : Producer) (p q : Option PendingBusOp) (req : List PendingBusOp)
    (resp : List ScriptResponse) (progress : List ℕ) where
  abbrev boxed : Producer
  boxed = record s { req = req; resp = resp; progress = progress }

  Phase-boxed :
      (pc : ProducerPc)
      → (Nowhere s p → Nowhere boxed q)
      → ((w : PendingBusOp) → Place w s p → Place w boxed q)
      → Phase pc s p
      → Phase pc boxed q
  Phase-boxed top f g (inl (w, n)) = inl (w, f n)
  Phase-boxed top f g (inr (w, e, n)) = inr (w, e, g w n)
  Phase-boxed send_request f g (w, e, n) = (w, e, f n)
  Phase-boxed send_progress f g (w, e, n) = (w, e, g w n)
  Phase-boxed send_signal f g (w, e, n) = (w, e, g w n)
  Phase-boxed check_done f g (inl ((w, n), o)) = inl ((w, f n), o)
  Phase-boxed check_done f g (inr (w, e, n)) = inr (w, e, g w n)
  Phase-boxed last_progress f g ((w, n), o) = ((w, f n), o)
  Phase-boxed set_done f g ((w, n), o) = ((w, f n), o)
  Phase-boxed last_signal f g ((w, n), o) = ((w, f n), o)
  Phase-boxed stopped f g ((w, n), o) = ((w, f n), o)
  Phase-boxed receive f g (w, e, n) = (w, e, g w n)
  Phase-boxed answer_progress f g (w, e, n) = (w, e, f n)
  Phase-boxed answer_signal f g (w, n) = (w, f n)
  Phase-boxed asleep f g (w, e, n) = (w, e, g w n)

-- Something is somewhere, or nothing is anywhere.
pub Phase-cases :
    (pc : ProducerPc) (s : Producer) (p : Option PendingBusOp)
    → Phase pc s p
    → Nowhere s p ⊎ ((w : PendingBusOp) × Place w s p)
Phase-cases top s p (inl (w, n)) = inl n
Phase-cases top s p (inr (w, e, n)) = inr (w, n)
Phase-cases send_request s p (w, e, n) = inl n
Phase-cases send_progress s p (w, e, n) = inr (w, n)
Phase-cases send_signal s p (w, e, n) = inr (w, n)
Phase-cases check_done s p (inl ((w, n), o)) = inl n
Phase-cases check_done s p (inr (w, e, n)) = inr (w, n)
Phase-cases last_progress s p ((w, n), o) = inl n
Phase-cases set_done s p ((w, n), o) = inl n
Phase-cases last_signal s p ((w, n), o) = inl n
Phase-cases stopped s p ((w, n), o) = inl n
Phase-cases receive s p (w, e, n) = inr (w, n)
Phase-cases answer_progress s p (w, e, n) = inl n
Phase-cases answer_signal s p (w, n) = inl n
Phase-cases asleep s p (w, e, n) = inr (w, n)

module _ (s : Producer) (p : Option PendingBusOp) (seen epoch : ℕ) (taken answering : Bool)
    (sound : IsSound s p seen taken answering epoch) where
  -- The main thread goes on, with what it is to take still to be taken, and what it is to give still to give.
  pub IsSound-main :
      (taken' answering' : Bool)
      → (taken' ≡ true → taken ≡ true)
      → (answering ≡ true → answering' ≡ true)
      → IsSound s p seen taken' answering' epoch
  IsSound-main taken' answering' back on = record {
    phase = sound.phase;
    flag = sound.flag;
    not_ahead = sound.not_ahead;
    main_not_ahead = sound.main_not_ahead;
    noticed = λ t. sound.noticed (back t);
    roused = λ a. goes_on (sound.roused a);
  }
    where
      goes_on :
          (s.resp ≡ []) ⊎ ((s.seen_epoch < epoch) ⊎ (answering ≡ true))
          → (s.resp ≡ []) ⊎ ((s.seen_epoch < epoch) ⊎ (answering' ≡ true))
      goes_on (inl r) = inl r
      goes_on (inr (inl l)) = inr (inl l)
      goes_on (inr (inr a)) = inr (inr (on a))

  -- It wakes, at the start of its turn.
  pub IsSound-wake : IsSound s p epoch false answering epoch
  IsSound-wake = record {
    phase = sound.phase;
    flag = sound.flag;
    not_ahead = sound.not_ahead;
    main_not_ahead = omega arith;
    noticed = λ t. cc;
    roused = sound.roused;
  }

  -- The signal is given, by whichever thread.
  pub IsSound-later : (next : ℕ) → epoch ≤ next → IsSound s p seen taken answering next
  IsSound-later next le = record {
    phase = sound.phase;
    flag = sound.flag;
    not_ahead = omega (arith, sound.not_ahead);
    main_not_ahead = omega (arith, sound.main_not_ahead);
    noticed = λ t. noticed' (sound.noticed t);
    roused = λ a. roused' (sound.roused a);
  }
    where
      noticed' :
          (s.req ≡ []) ⊎ ((seen < epoch) ⊎ (announcing s.pc ≡ true))
          → (s.req ≡ []) ⊎ ((seen < next) ⊎ (announcing s.pc ≡ true))
      noticed' (inl r) = inl r
      noticed' (inr (inl l)) = inr (inl (omega arith))
      noticed' (inr (inr a)) = inr (inr a)

      roused' :
          (s.resp ≡ []) ⊎ ((s.seen_epoch < epoch) ⊎ (answering ≡ true))
          → (s.resp ≡ []) ⊎ ((s.seen_epoch < next) ⊎ (answering ≡ true))
      roused' (inl r) = inl r
      roused' (inr (inl l)) = inr (inl (omega arith))
      roused' (inr (inr a)) = inr (inr a)

  -- The main thread gives it, behind which nothing is left to tell.
  pub IsSound-announce : (taken' answering' : Bool) → IsSound s p seen taken' answering' (epoch + 1)
  IsSound-announce taken' answering' = record {
    phase = sound.phase;
    flag = sound.flag;
    not_ahead = omega (arith, sound.not_ahead);
    main_not_ahead = omega (arith, sound.main_not_ahead);
    noticed = λ t. inr (inl (omega (arith, sound.main_not_ahead)));
    roused = λ a. inr (inl (omega (arith, sound.not_ahead)));
  }

  pub IsSound-drain :
      (queue : List ℕ) → IsSound (record s { progress = queue }) p seen taken answering epoch
  IsSound-drain queue = record {
    phase = Phase-boxed s p p s.req s.resp queue s.pc (λ n. n) (λ w a. same w a) sound.phase;
    flag = sound.flag;
    not_ahead = sound.not_ahead;
    main_not_ahead = sound.main_not_ahead;
    noticed = sound.noticed;
    roused = sound.roused;
  }
    where
      same : (w : PendingBusOp) → Place w s p → Place w (record s { progress = queue }) p
      same w (posted a b c) = posted a b c
      same w (held a b c) = held a b c
      same w (answered r own a b c) = answered r own a b c

  -- A request is taken out of the mailbox, if nothing is held and one is there.
  pub IsSound-take :
      IsSound
        (record s { req = (take_request p s.req).1 })
        (take_request p s.req).0
        seen
        true
        answering
        epoch
  unfolding take_request
  IsSound-take = go p refl s.req refl
    where
      boxed_with :
          (q : Option PendingBusOp) (queue : List PendingBusOp)
          → queue ≡ []
          → Phase s.pc (record s { req = queue }) q
          → IsSound (record s { req = queue }) q seen true answering epoch
      boxed_with q queue empty phase = record {
        phase = phase;
        flag = sound.flag;
        not_ahead = sound.not_ahead;
        main_not_ahead = sound.main_not_ahead;
        noticed = λ t. inl empty;
        roused = sound.roused;
      }

      stays :
          (v w : PendingBusOp) (queue : List PendingBusOp)
          → p ≡ some w
          → s.req ≡ queue
          → Place v s p
          → Place v (record s { req = queue }) (some w)
      stays v w queue is_held e (posted a b c) = absurd (cc)
      stays v w queue is_held e (held a b c) = held (sym e ∙ a) (sym is_held ∙ b) c
      stays v w queue is_held e (answered r own a b c) = absurd (cc)

      moves :
          (v msg : PendingBusOp) (queue : List PendingBusOp)
          → s.req ≡ msg ∷ queue
          → Place v s p
          → Place v (record s { req = queue }) (some msg)
      moves v msg queue e (posted a b c) =
          let same : msg ∷ queue ≡ v ∷ [] = sym e ∙ a in held (ground arith) (ground arith) c
      moves v msg queue e (held a b c) = absurd (cc)
      moves v msg queue e (answered r own a b c) = absurd (cc)

      held_alone :
          (w : PendingBusOp)
          → p ≡ some w
          → Nowhere s p ⊎ ((v : PendingBusOp) × Place v s p)
          → s.req ≡ []
      held_alone w is_held (inl n) = n.0
      held_alone w is_held (inr (v, posted a b c)) = absurd (cc)
      held_alone w is_held (inr (v, held a b c)) = a
      held_alone w is_held (inr (v, answered r own a b c)) = a

      one_posted :
          (msg : PendingBusOp) (queue : List PendingBusOp)
          → s.req ≡ msg ∷ queue
          → Nowhere s p ⊎ ((v : PendingBusOp) × Place v s p)
          → queue ≡ []
      one_posted msg queue e (inl n) = absurd (cc (n.0))
      one_posted msg queue e (inr (v, posted a b c)) =
          let same : msg ∷ queue ≡ v ∷ [] = sym e ∙ a in ground arith
      one_posted msg queue e (inr (v, held a b c)) = absurd (cc)
      one_posted msg queue e (inr (v, answered r own a b c)) = absurd (cc)

      go :
          (o : Option PendingBusOp)
          → p ≡ o
          → (queue : List PendingBusOp) → s.req ≡ queue
          → IsSound
              (record s { req = (take_request o queue).1 })
              (take_request o queue).0
              seen
              true
              answering
              epoch
      go (some w) is_held queue e =
          boxed_with (some w) queue
            (sym e ∙ held_alone w is_held (Phase-cases s.pc s p sound.phase))
            (Phase-boxed s p (some w) queue s.resp s.progress s.pc (λ n. absurd (cc (n.1, is_held)))
              (λ v a. stays v w queue is_held e a) sound.phase)
      go none free [] e = boxed_with none [] refl (
          Phase-boxed s p none [] s.resp s.progress s.pc (λ n. (refl, refl, n.2)) (λ v a. empty v a)
            sound.phase)
        where
          empty : (v : PendingBusOp) → Place v s p → Place v (record s { req = [] }) none
          empty v (posted a b c) = absurd (cc)
          empty v (held a b c) = absurd (cc)
          empty v (answered r own a b c) = answered r own refl refl c
      go none free (msg ∷ queue) e =
          boxed_with (some msg) queue (one_posted msg queue e (Phase-cases s.pc s p sound.phase)) (
            Phase-boxed s p (some msg) queue s.resp s.progress s.pc (λ n. absurd (cc (n.0, e)))
              (λ v a. moves v msg queue e a) sound.phase)

  -- The response to what is held is posted.
  pub IsSound-answer :
      (w : PendingBusOp) (r : ScriptResponse)
      → p ≡ some w
      → Answers w r
      → IsSound (record s { resp = post s.resp r }) none seen taken true epoch
  IsSound-answer w r is_held own = record {
    phase =
        Phase-boxed s p none s.req (post s.resp r) s.progress s.pc (λ n. absurd (cc (n.1, is_held)))
          (λ v a. given v a) sound.phase;
    flag = sound.flag;
    not_ahead = sound.not_ahead;
    main_not_ahead = sound.main_not_ahead;
    noticed = sound.noticed;
    roused = λ a. inr (inr refl);
  }
    where
      given : (v : PendingBusOp) → Place v s p → Place v (record s { resp = post s.resp r }) none
      given v (posted a b c) = absurd (cc)
      given v (held a b c) =
          let same : w ≡ v = ground arith in
          answered r (subst (λ (x : PendingBusOp). Answers x r) same own) a refl
            (ap (λ (l : List ScriptResponse). post l r) c)
      given v (answered x o a b c) = absurd (cc)
