-- ===== src/Driver/Threads/Mains/Moves.antt =====
-- The steps of the main thread of `run_scripted_pair_multithread` that take messages out of the mailboxes
-- in src/core/emulator.cpp keep the invariant.
use saturnis.Base.{ℕ, ◌≡◌, refl, sym, ap, subst, true, false, Option, none, some, List, [], ◌∷◌}
use saturnis.Scripted.{PendingBusOp}
use saturnis.Driver.Threads.Main.{
  MainPc, take0, take1, drain0, drain1, check_peer, Main, Threads, drain, main_at,
}
use saturnis.Driver.Threads.Invariant.{IsSound, taken0, taken1, answering_at, MainAt, IsSafe}
use saturnis.Driver.Threads.Sounds.{IsSound-main, IsSound-drain, IsSound-take}

abbrev pub Kept : Option Threads → Type 0
Kept none = Unit {0}
Kept (some u) = IsSafe u

module _ (t : Threads) (safe : IsSafe t) where
  abbrev pub here : (pc : MainPc) → t.main.pc ≡ pc → MainAt pc t
  here pc e = subst (λ (pc : MainPc). MainAt pc t) e safe.main_at

  -- The threads of the CPUs are as they were, and the main thread is at another place.
  pub moved :
      (m : Main)
      → m.p0 ≡ t.main.p0
      → m.p1 ≡ t.main.p1
      → m.seen_epoch ≡ t.main.seen_epoch
      → (taken0 m.pc ≡ true → taken0 t.main.pc ≡ true)
      → (taken1 m.pc ≡ true → taken1 t.main.pc ≡ true)
      → (answering_at t.main.pc t.main.any_committed ≡ true
          → answering_at m.pc m.any_committed ≡ true)
      → MainAt m.pc (record t { main = m })
      → IsSafe (record t { main = m })
  moved m same0 same1 seen back0 back1 on main_at = record {
    sound0 =
        subst
          (λ (p : Option PendingBusOp).
            IsSound t.producer0 p m.seen_epoch (taken0 m.pc) (answering_at m.pc m.any_committed)
              t.epoch)
          (sym same0)
          (subst
            (λ (n : ℕ).
              IsSound t.producer0 t.main.p0 n (taken0 m.pc) (answering_at m.pc m.any_committed)
                t.epoch)
            (sym seen)
            (IsSound-main t.producer0 t.main.p0 t.main.seen_epoch t.epoch (taken0 t.main.pc)
              (answering_at t.main.pc t.main.any_committed) safe.sound0 (taken0 m.pc)
              (answering_at m.pc m.any_committed) back0 on));
    sound1 =
        subst
          (λ (p : Option PendingBusOp).
            IsSound t.producer1 p m.seen_epoch (taken1 m.pc) (answering_at m.pc m.any_committed)
              t.epoch)
          (sym same1)
          (subst
            (λ (n : ℕ).
              IsSound t.producer1 t.main.p1 n (taken1 m.pc) (answering_at m.pc m.any_committed)
                t.epoch)
            (sym seen)
            (IsSound-main t.producer1 t.main.p1 t.main.seen_epoch t.epoch (taken1 t.main.pc)
              (answering_at t.main.pc t.main.any_committed) safe.sound1 (taken1 m.pc)
              (answering_at m.pc m.any_committed) back1 on));
    main_at = main_at;
  }

  pub take0-IsSafe : t.main.pc ≡ take0 → Kept (main_at take0 t)
  unfolding main_at
  take0-IsSafe e = record {
    sound0 = IsSound-take t.producer0 t.main.p0 t.main.seen_epoch t.epoch (taken0 t.main.pc) false (
        IsSound-main t.producer0 t.main.p0 t.main.seen_epoch t.epoch (taken0 t.main.pc)
          (answering_at t.main.pc t.main.any_committed) safe.sound0 (taken0 t.main.pc) false
          (λ b. b) (λ a. cc));
    sound1 =
        IsSound-main t.producer1 t.main.p1 t.main.seen_epoch t.epoch (taken1 t.main.pc)
          (answering_at t.main.pc t.main.any_committed) safe.sound1 false false (λ b. cc) (λ a. cc);
    main_at = tt;
  }

  pub take1-IsSafe : t.main.pc ≡ take1 → Kept (main_at take1 t)
  unfolding main_at
  take1-IsSafe e = record {
    sound0 =
        IsSound-main t.producer0 t.main.p0 t.main.seen_epoch t.epoch (taken0 t.main.pc)
          (answering_at t.main.pc t.main.any_committed) safe.sound0 true false (λ b. ap taken0 e)
          (λ a. cc);
    sound1 = IsSound-take t.producer1 t.main.p1 t.main.seen_epoch t.epoch (taken1 t.main.pc) false (
        IsSound-main t.producer1 t.main.p1 t.main.seen_epoch t.epoch (taken1 t.main.pc)
          (answering_at t.main.pc t.main.any_committed) safe.sound1 (taken1 t.main.pc) false
          (λ b. b) (λ a. cc));
    main_at = tt;
  }

  pub drain0-IsSafe : t.main.pc ≡ drain0 → (queue : List ℕ) → Kept (some (drain t drain1 0 queue))
  unfolding drain
  drain0-IsSafe e [] =
      moved (record t.main { pc = drain1 }) refl refl refl (λ b. ap taken0 e) (λ b. ap taken1 e)
        (λ a. cc) tt
  drain0-IsSafe e (prog ∷ queue) = record {
    sound0 =
        IsSound-drain t.producer0 t.main.p0 t.main.seen_epoch t.epoch (taken0 t.main.pc)
          (answering_at t.main.pc t.main.any_committed) safe.sound0 queue;
    sound1 = safe.sound1;
    main_at = subst (λ (pc : MainPc). MainAt pc (drain t drain1 0 (prog ∷ queue))) (sym e) tt;
  }

  pub drain1-IsSafe :
      t.main.pc ≡ drain1 → (queue : List ℕ) → Kept (some (drain t check_peer 1 queue))
  unfolding drain
  drain1-IsSafe e [] =
      moved (record t.main { pc = check_peer }) refl refl refl (λ b. ap taken0 e) (λ b. ap taken1 e)
        (λ a. cc) tt
  drain1-IsSafe e (prog ∷ queue) = record {
    sound0 = safe.sound0;
    sound1 =
        IsSound-drain t.producer1 t.main.p1 t.main.seen_epoch t.epoch (taken1 t.main.pc)
          (answering_at t.main.pc t.main.any_committed) safe.sound1 queue;
    main_at = subst (λ (pc : MainPc). MainAt pc (drain t check_peer 1 (prog ∷ queue))) (sym e) tt;
  }
