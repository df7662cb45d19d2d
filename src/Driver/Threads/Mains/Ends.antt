-- ===== src/Driver/Threads/Mains/Ends.antt =====
-- The steps of the main thread of `run_scripted_pair_multithread` from the results to the next turn
-- in src/core/emulator.cpp keep the invariant.
use saturnis.Base.{
  ℕ, ◌+◌, ◌^◌, ◌<◌, ◌≡◌, refl, sym, ap, subst, ◌⊎◌, inl, inr, Bool, true, false, not, ◌&&◌, ◌||◌,
  Option, none, some, if◌then◌else◌, arith, Bool-cases,
}
use saturnis.Driver.{is_none}
use saturnis.Driver.Threads.Producer.{notify, wait_for_change}
use saturnis.Driver.Threads.Main.{
  MainPc, take0, announce, check0, check1, dormant, finished, Threads, end_turn, wake_main, main_at,
}
use saturnis.Driver.Threads.Invariant.{
  IsSound, Fresh, taken0, taken1, answering_at, Lonely, Looked, IsSafe,
}
use saturnis.Driver.Threads.Producers.{woken_at}
use saturnis.Driver.Threads.Sounds.{IsSound-main, IsSound-wake, IsSound-announce}
use saturnis.Driver.Threads.Mains.Moves.{Kept, here, moved}
use saturnis.Driver.Threads.Mains.Commits.{no_pending-cases}

-- A turn that ends asleep has something to wait for.
end_turn-Lonely :
    (t : Threads)
    → Looked t
    → ((t.main.p0 ≡ none)
        → (t.main.p1 ≡ none)
        → Fresh t.producer0 t.main.seen_epoch t.epoch ⊎ Fresh t.producer1 t.main.seen_epoch t.epoch)
    → (not t.main.progressed && (t.main.waiting_for_peer || t.main.no_pending)) ≡ true
    → Lonely t
end_turn-Lonely t looked fresh test = elim (Bool-cases t.main.waiting_for_peer) [
  | inl waits ↦ peer (looked.0 waits)
  | inr not_waits ↦ idle (looked.1 (ground arith))
]
  where
    peer : (t.main.progressed ≡ true) ⊎ Lonely t → Lonely t
    peer (inl p) = absurd (ground arith)
    peer (inr l) = l

    idle : (t.main.progressed ≡ true) ⊎ ((t.main.p0 ≡ none) × (t.main.p1 ≡ none)) → Lonely t
    idle (inl p) = absurd (ground arith)
    idle (inr (a, b)) = alone (fresh a b)
      where
        alone :
            Fresh t.producer0 t.main.seen_epoch t.epoch
              ⊎ Fresh t.producer1 t.main.seen_epoch t.epoch
            → Lonely t
        alone (inl f) = inl (a, f)
        alone (inr f) = inr (b, f)

module _ (t : Threads) (room : t.epoch + 1 < 2 ^ 64) (safe : IsSafe t) where
  pub announce-IsSafe : t.main.pc ≡ announce → Kept (main_at announce t)
  unfolding main_at notify
  announce-IsSafe e =
      subst (λ (n : ℕ). IsSafe (record t { main = record t.main { pc = check0 }; epoch = n }))
        (omega arith)
        (record {
          sound0 =
              IsSound-announce t.producer0 t.main.p0 t.main.seen_epoch t.epoch (taken0 t.main.pc)
                (answering_at t.main.pc t.main.any_committed) safe.sound0 true false;
          sound1 =
              IsSound-announce t.producer1 t.main.p1 t.main.seen_epoch t.epoch (taken1 t.main.pc)
                (answering_at t.main.pc t.main.any_committed) safe.sound1 true false;
          main_at = (λ w. still ((here t safe announce e).0 w), (here t safe announce e).1);
        })
    where
      told : t.main.seen_epoch < t.epoch + 1
      told = omega (arith, safe.sound0.main_not_ahead)

      still :
          (t.main.progressed ≡ true) ⊎ Lonely t
          → (t.main.progressed ≡ true)
            ⊎ Lonely (record t { main = record t.main { pc = check0 }; epoch = t.epoch + 1 })
      still (inl p) = inl p
      still (inr (inl (a, f))) = inr (inl (a, inr (inl told)))
      still (inr (inr (a, f))) = inr (inr (a, inr (inl told)))

module _ (t : Threads) (safe : IsSafe t) where
  -- The end of a turn that does not leave the loop.
  pub end_turn-IsSafe :
      Looked t
      → ((t.main.p0 ≡ none)
          → (t.main.p1 ≡ none)
          → Fresh t.producer0 t.main.seen_epoch t.epoch
            ⊎ Fresh t.producer1 t.main.seen_epoch t.epoch)
      → taken0 t.main.pc ≡ true
      → taken1 t.main.pc ≡ true
      → answering_at t.main.pc t.main.any_committed ≡ false
      → IsSafe (record t { main = end_turn t.main })
  unfolding end_turn
  end_turn-IsSafe looked fresh past0 past1 told =
      go (not t.main.progressed && (t.main.waiting_for_peer || t.main.no_pending)) refl
    where
      go :
          (b : Bool)
          → (not t.main.progressed && (t.main.waiting_for_peer || t.main.no_pending)) ≡ b
          → IsSafe (record t {
            main =
                if b
                then record t.main { pc = dormant }
                else record t.main { pc = take0; progressed = false };
          })
      go true test =
          moved t safe (record t.main { pc = dormant }) refl refl refl (λ b. past0) (λ b. past1)
            (λ a. cc) (end_turn-Lonely t looked fresh test)
      go false test =
          moved t safe (record t.main { pc = take0; progressed = false }) refl refl refl (λ b. cc)
            (λ b. cc) (λ a. cc) tt

  pub check0-IsSafe : t.main.pc ≡ check0 → Kept (main_at check0 t)
  unfolding main_at
  check0-IsSafe e = go t.producer0.is_over refl
    where
      go :
          (b : Bool)
          → t.producer0.is_over ≡ b
          → IsSafe
              (record t { main = if b then record t.main { pc = check1 } else end_turn t.main })
      go true over =
          moved t safe (record t.main { pc = check1 }) refl refl refl (λ b. ap taken0 e)
            (λ b. ap taken1 e) (λ a. cc) (here t safe check0 e, over)
      go false over =
          end_turn-IsSafe (here t safe check0 e) (λ a b. inl (inl over)) (ap taken0 e) (ap taken1 e)
            (ap (λ (pc : MainPc). answering_at pc t.main.any_committed) e)

  pub check1-IsSafe : t.main.pc ≡ check1 → Kept (main_at check1 t)
  unfolding main_at
  check1-IsSafe e = go (t.producer1.is_over && is_none t.main.p0 && is_none t.main.p1) refl
    where
      go :
          (b : Bool)
          → (t.producer1.is_over && is_none t.main.p0 && is_none t.main.p1) ≡ b
          → IsSafe
              (record t { main = if b then record t.main { pc = finished } else end_turn t.main })
      go true test =
          let (none0, none1) = no_pending-cases t.main.p0 t.main.p1 (ground arith) in
          moved t safe (record t.main { pc = finished }) refl refl refl (λ b. ap taken0 e)
            (λ b. ap taken1 e) (λ a. cc) (none0, none1, (here t safe check1 e).1, ground arith)
      go false test =
          end_turn-IsSafe (here t safe check1 e).0 (λ a b. inr (inl (ground arith))) (ap taken0 e)
            (ap taken1 e) (ap (λ (pc : MainPc). answering_at pc t.main.any_committed) e)

  pub dormant-IsSafe :
      t.main.pc ≡ dormant
      → (o : Option ℕ) → wait_for_change t.epoch t.main.seen_epoch ≡ o
      → Kept (wake_main t o)
  dormant-IsSafe e none changed = tt
  dormant-IsSafe e (some n) changed =
      subst
        (λ (k : ℕ).
          IsSafe
            (record t { main = record t.main { seen_epoch = k; pc = take0; progressed = false } }))
        (sym (woken_at t.epoch t.main.seen_epoch n changed))
        (record { sound0 = woken0; sound1 = woken1; main_at = tt })
    where
      woken0 : IsSound t.producer0 t.main.p0 t.epoch false false t.epoch
      woken0 =
          IsSound-wake t.producer0 t.main.p0 t.main.seen_epoch t.epoch (taken0 t.main.pc) false (
            IsSound-main t.producer0 t.main.p0 t.main.seen_epoch t.epoch (taken0 t.main.pc)
              (answering_at t.main.pc t.main.any_committed) safe.sound0 (taken0 t.main.pc) false
              (λ b. b) (λ a. cc))

      woken1 : IsSound t.producer1 t.main.p1 t.epoch false false t.epoch
      woken1 =
          IsSound-wake t.producer1 t.main.p1 t.main.seen_epoch t.epoch (taken1 t.main.pc) false (
            IsSound-main t.producer1 t.main.p1 t.main.seen_epoch t.epoch (taken1 t.main.pc)
              (answering_at t.main.pc t.main.any_committed) safe.sound1 (taken1 t.main.pc) false
              (λ b. b) (λ a. cc))
