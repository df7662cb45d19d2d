-- ===== src/Driver/Threads/Mains/Hands.antt =====
-- The steps of the main thread of `run_scripted_pair_multithread` that hand the results out
-- in src/core/emulator.cpp keep the invariant.
use saturnis.Base.{
  ℕ, ◌≡◌, refl, sym, ap, subst, ◌∙◌, inl, inr, Bool, true, false, Option, none, some, List, [], ◌∷◌,
  ◌==◌, if◌then◌else◌, arith, get_or,
}
use saturnis.Bus.{CommitResult}
use saturnis.Scripted.{PendingBusOp}
use saturnis.Driver.Threads.Producer.{post}
use saturnis.Driver.Threads.Main.{
  MainPc, hand_out, announce, check0, Main, Threads, answer_of, hand_out_from,
}
use saturnis.Driver.Threads.Invariant.{
  Answers, IsSound, taken0, taken1, answering_at, ForHeld, MainAt, IsSafe,
}
use saturnis.Driver.Threads.Sounds.{IsSound-answer}
use saturnis.Driver.Threads.Mains.Moves.{Kept, here, moved}

ForHeld-tables :
    (m n : Main) (p0 p1 : Option PendingBusOp) (results : List CommitResult)
    → n.pending_cpu ≡ m.pending_cpu
    → n.pending_script ≡ m.pending_script
    → n.pending_token ≡ m.pending_token
    → ForHeld m p0 p1 results
    → ForHeld n p0 p1 results
ForHeld-tables m n p0 p1 [] c s k h = tt
ForHeld-tables m n p0 p1 (r ∷ rest) c s k (inl (t, w, e, a, h)) = inl (
  ap (λ (l : List ℕ). get_or l r.input_index 1 == 0) c ∙ t,
  w,
  e,
  record {
    same_script = ap (λ (l : List ℕ). get_or l r.input_index 0) s ∙ a.same_script;
    same_token = ap (λ (l : List ℕ). get_or l r.input_index 0) k ∙ a.same_token;
  },
  ForHeld-tables m n none p1 rest c s k h,
)
ForHeld-tables m n p0 p1 (r ∷ rest) c s k (inr (t, w, e, a, h)) = inr (
  ap (λ (l : List ℕ). get_or l r.input_index 1 == 0) c ∙ t,
  w,
  e,
  record {
    same_script = ap (λ (l : List ℕ). get_or l r.input_index 0) s ∙ a.same_script;
    same_token = ap (λ (l : List ℕ). get_or l r.input_index 0) k ∙ a.same_token;
  },
  ForHeld-tables m n p0 none rest c s k h,
)

module _ (t : Threads) (safe : IsSafe t) where
  answering :
      t.main.pc ≡ hand_out
      → t.main.any_committed ≡ true
      → answering_at t.main.pc t.main.any_committed ≡ true
  answering e any = ap (λ (pc : MainPc). answering_at pc t.main.any_committed) e ∙ any

  -- The result is for the request of CPU 0.
  answered_first :
      t.main.pc ≡ hand_out
      → t.main.any_committed ≡ true
      → (r : CommitResult) (rest : List CommitResult) → (w : PendingBusOp) → t.main.p0 ≡ some w
      → Answers w (answer_of t.main r)
      → ForHeld t.main none t.main.p1 rest
      → IsSafe (record t {
        producer0 = record t.producer0 { resp = post t.producer0.resp (answer_of t.main r) };
        main = record t.main { p0 = none; progressed = true; committed = rest };
      })
  answered_first e any r rest w is_held own others = record {
    sound0 =
        subst
          (λ (b : Bool).
            IsSound (record t.producer0 { resp = post t.producer0.resp (answer_of t.main r) }) none
              t.main.seen_epoch (taken0 t.main.pc) b t.epoch)
          (sym (answering e any))
          (IsSound-answer t.producer0 t.main.p0 t.main.seen_epoch t.epoch (taken0 t.main.pc)
            (answering_at t.main.pc t.main.any_committed) safe.sound0 w (answer_of t.main r) is_held
            own);
    sound1 = safe.sound1;
    main_at =
        subst
          (λ (pc : MainPc). MainAt pc (record t {
            producer0 = record t.producer0 { resp = post t.producer0.resp (answer_of t.main r) };
            main = record t.main { p0 = none; progressed = true; committed = rest };
          }))
          (sym e)
          (
            (λ w. inl refl, λ n. inl refl),
            ForHeld-tables t.main (record t.main { p0 = none; progressed = true; committed = rest })
                none t.main.p1 rest refl refl refl others,
            inr any,
          );
  }

  -- The result is for the request of CPU 1.
  answered_second :
      t.main.pc ≡ hand_out
      → t.main.any_committed ≡ true
      → (r : CommitResult) (rest : List CommitResult) → (w : PendingBusOp) → t.main.p1 ≡ some w
      → Answers w (answer_of t.main r)
      → ForHeld t.main t.main.p0 none rest
      → IsSafe (record t {
        producer1 = record t.producer1 { resp = post t.producer1.resp (answer_of t.main r) };
        main = record t.main { p1 = none; progressed = true; committed = rest };
      })
  answered_second e any r rest w is_held own others = record {
    sound1 =
        subst
          (λ (b : Bool).
            IsSound (record t.producer1 { resp = post t.producer1.resp (answer_of t.main r) }) none
              t.main.seen_epoch (taken1 t.main.pc) b t.epoch)
          (sym (answering e any))
          (IsSound-answer t.producer1 t.main.p1 t.main.seen_epoch t.epoch (taken1 t.main.pc)
            (answering_at t.main.pc t.main.any_committed) safe.sound1 w (answer_of t.main r) is_held
            own);
    sound0 = safe.sound0;
    main_at =
        subst
          (λ (pc : MainPc). MainAt pc (record t {
            producer1 = record t.producer1 { resp = post t.producer1.resp (answer_of t.main r) };
            main = record t.main { p1 = none; progressed = true; committed = rest };
          }))
          (sym e)
          (
            (λ w. inl refl, λ n. inl refl),
            ForHeld-tables t.main (record t.main { p1 = none; progressed = true; committed = rest })
                t.main.p0 none rest refl refl refl others,
            inr any,
          );
  }

  -- The end of the loop over the results, and one turn of it.
  pub hand_out-IsSafe :
      t.main.pc ≡ hand_out
      → (results : List CommitResult) → t.main.committed ≡ results
      → Kept (some (hand_out_from t results))
  unfolding hand_out_from
  hand_out-IsSafe e [] left = go t.main.any_committed refl
    where
      go :
          (b : Bool)
          → t.main.any_committed ≡ b
          → IsSafe (record t { main = record t.main { pc = if b then announce else check0 } })
      go true any =
          moved t safe (record t.main { pc = announce }) refl refl refl (λ b. ap taken0 e)
            (λ b. ap taken1 e) (λ a. refl) (here t safe hand_out e).0
      go false any =
          moved t safe (record t.main { pc = check0 }) refl refl refl (λ b. ap taken0 e)
            (λ b. ap taken1 e) (λ a. ground (arith)) (here t safe hand_out e).0
  hand_out-IsSafe e (r ∷ rest) left = go (get_or t.main.pending_cpu r.input_index 1 == 0) refl (
      subst (λ (l : List CommitResult). ForHeld t.main t.main.p0 t.main.p1 l) left
        (here t safe hand_out e).1)
    where
      any : t.main.any_committed ≡ true
      any = elim ((here t safe hand_out e).2) [ inl none_left ↦ absurd (cc) | inr a ↦ a ]

      go :
          (b : Bool)
          → (get_or t.main.pending_cpu r.input_index 1 == 0) ≡ b
          → ForHeld t.main t.main.p0 t.main.p1 (r ∷ rest)
          → IsSafe (
              if b
              then record t {
                producer0 = record t.producer0 {
                  resp = post t.producer0.resp (answer_of t.main r);
                };
                main = record t.main { p0 = none; progressed = true; committed = rest };
              }
              else record t {
                producer1 = record t.producer1 {
                  resp = post t.producer1.resp (answer_of t.main r);
                };
                main = record t.main { p1 = none; progressed = true; committed = rest };
              })
      go true b (inl (c, w, is_held, own, others)) =
          answered_first e any r rest w is_held own others
      go true b (inr o) = absurd (cc (o.0, b))
      go false b (inl o) = absurd (cc (o.0, b))
      go false b (inr (c, w, is_held, own, others)) =
          answered_second e any r rest w is_held own others
