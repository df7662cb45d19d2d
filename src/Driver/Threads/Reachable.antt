-- ===== src/Driver/Threads/Reachable.antt =====
-- The steps of `run_scripted_pair_multithread` in src/core/emulator.cpp, in any order, keep its invariant.
use saturnis.Base.{
  ℕ, ◌+◌, ◌^◌, ◌≤◌, ◌<◌, ◌≡◌, refl, subst, ◌⊎◌, inl, inr, true, false, Option, none, some, List, [],
  ◌∷◌, arith,
}
use saturnis.Bus.{CommitResult, BusArbiter}
use saturnis.Scripted.{ScriptedCpu}
use saturnis.Driver.Threads.Producer.{notify, wait_for_change, Producer, new_producer, producer_at}
use saturnis.Driver.Threads.Main.{
  MainPc, take0, take1, drain0, drain1, check_peer, commit_ops, hand_out, announce, check0, check1,
  dormant, finished, Threads, new_threads, drain, hand_out_from, main_at, wake_main,
}
use saturnis.Driver.Threads.Steps.{
  Thread, cpu0_thread, cpu1_thread, main_thread, thread_step, Reach, start, later, after0, after1,
}
use saturnis.Driver.Threads.Invariant.{
  IsSound, Fresh, taken0, taken1, answering_at, Lonely, Looked, MainAt, IsSafe,
}
use saturnis.Driver.Threads.Producers.{After, woken_at, producer_at-After}
use saturnis.Driver.Threads.Sounds.{IsSound-later}
use saturnis.Driver.Threads.Mains.{main_at-IsSafe}
use saturnis.Driver.Threads.Mains.Moves.{Kept}

-- What the main thread knows stays true while the CPUs' threads go on.
module _ (t : Threads) (s0 s1 : Producer) (epoch : ℕ)
    (fresh0 : Fresh t.producer0 t.main.seen_epoch t.epoch → Fresh s0 t.main.seen_epoch epoch)
    (fresh1 : Fresh t.producer1 t.main.seen_epoch t.epoch → Fresh s1 t.main.seen_epoch epoch)
    (over0 : t.producer0.is_over ≡ true → s0.is_over ≡ true)
    (over1 : t.producer1.is_over ≡ true → s1.is_over ≡ true) where
  abbrev onward : Threads
  onward = record t { producer0 = s0; producer1 = s1; epoch = epoch }

  Lonely-onward : Lonely t → Lonely onward
  Lonely-onward (inl (a, f)) = inl (a, fresh0 f)
  Lonely-onward (inr (a, f)) = inr (a, fresh1 f)

  Looked-onward : Looked t → Looked onward
  Looked-onward (waits, idle) = (λ w. go (waits w), idle)
    where
      go : (t.main.progressed ≡ true) ⊎ Lonely t → (t.main.progressed ≡ true) ⊎ Lonely onward
      go (inl p) = inl p
      go (inr l) = inr (Lonely-onward l)

  MainAt-onward : (pc : MainPc) → MainAt pc t → MainAt pc onward
  MainAt-onward take0 h = tt
  MainAt-onward take1 h = tt
  MainAt-onward drain0 h = tt
  MainAt-onward drain1 h = tt
  MainAt-onward check_peer h = tt
  MainAt-onward commit_ops (l, c, s, k) = (Looked-onward l, c, s, k)
  MainAt-onward hand_out (l, h, a) = (Looked-onward l, h, a)
  MainAt-onward announce l = Looked-onward l
  MainAt-onward check0 l = Looked-onward l
  MainAt-onward check1 (l, o) = (Looked-onward l, over0 o)
  MainAt-onward dormant l = Lonely-onward l
  MainAt-onward finished (a, b, o, p) = (a, b, over0 o, over1 p)

-- A step from `t`: the invariant, and how far the epoch goes.
abbrev Goes : Threads → Option Threads → Type 0
Goes t none = Unit {0}
Goes t (some u) = IsSafe u × (u.epoch ≤ t.epoch + 1)

abbrev Within : Threads → Option Threads → Type 0
Within t none = Unit {0}
Within t (some u) = u.epoch ≤ t.epoch + 1

drain-Within :
    (t : Threads) (next : MainPc) (cpu : ℕ) (queue : List ℕ)
    → Within t (some (drain t next cpu queue))
unfolding drain
drain-Within t next cpu [] = omega arith
drain-Within t next cpu (prog ∷ queue) = omega arith

hand_out-Within :
    (t : Threads) (results : List CommitResult) → Within t (some (hand_out_from t results))
unfolding hand_out_from
hand_out-Within t [] = omega arith
hand_out-Within t (r ∷ rest) = ground arith

wake-Within :
    (t : Threads) (o : Option ℕ) → ((n : ℕ) → o ≡ some n → n ≡ t.epoch) → Within t (wake_main t o)
wake-Within t none at = tt
wake-Within t (some n) at = omega arith

main_at-Within : (pc : MainPc) (t : Threads) → Within t (main_at pc t)
unfolding main_at notify
main_at-Within take0 t = omega arith
main_at-Within take1 t = omega arith
main_at-Within drain0 t = drain-Within t drain1 0 t.producer0.progress
main_at-Within drain1 t = drain-Within t check_peer 1 t.producer1.progress
main_at-Within check_peer t = omega arith
main_at-Within commit_ops t = omega arith
main_at-Within hand_out t = hand_out-Within t t.main.committed
main_at-Within announce t = omega arith
main_at-Within check0 t = omega arith
main_at-Within check1 t = omega arith
main_at-Within dormant t =
    wake-Within t (wait_for_change t.epoch t.main.seen_epoch) (woken_at t.epoch t.main.seen_epoch)
main_at-Within finished t = tt

module _ (t : Threads) (room : t.epoch + 1 < 2 ^ 64) (safe : IsSafe t) where
  later_Fresh :
      (s : Producer) (next : ℕ)
      → t.epoch ≤ next
      → Fresh s t.main.seen_epoch t.epoch
      → Fresh s t.main.seen_epoch next
  later_Fresh s next le (inl f) = inl f
  later_Fresh s next le (inr (inl l)) = inr (inl (omega arith))
  later_Fresh s next le (inr (inr p)) = inr (inr p)

  step0 :
      (o : Option (Producer × ℕ))
      → After t.producer0 t.main.p0 t.main.seen_epoch
          (taken0 t.main.pc)
          (answering_at t.main.pc t.main.any_committed)
          t.epoch
          room
          safe.sound0
          o
      → Goes t (after0 t o)
  step0 none a = tt
  step0 (some (s, next)) a = (
    record {
      sound0 = a.sound;
      sound1 =
          IsSound-later t.producer1 t.main.p1 t.main.seen_epoch t.epoch (taken1 t.main.pc)
            (answering_at t.main.pc t.main.any_committed) safe.sound1 next a.no_sooner;
      main_at =
          MainAt-onward t s t.producer1 next a.fresh
            (λ f. later_Fresh t.producer1 next a.no_sooner f) a.over (λ o. o) t.main.pc
            safe.main_at;
    },
    a.bounded,
  )

  step1 :
      (o : Option (Producer × ℕ))
      → After t.producer1 t.main.p1 t.main.seen_epoch
          (taken1 t.main.pc)
          (answering_at t.main.pc t.main.any_committed)
          t.epoch
          room
          safe.sound1
          o
      → Goes t (after1 t o)
  step1 none a = tt
  step1 (some (s, next)) a = (
    record {
      sound0 =
          IsSound-later t.producer0 t.main.p0 t.main.seen_epoch t.epoch (taken0 t.main.pc)
            (answering_at t.main.pc t.main.any_committed) safe.sound0 next a.no_sooner;
      sound1 = a.sound;
      main_at =
          MainAt-onward t t.producer0 s next (λ f. later_Fresh t.producer0 next a.no_sooner f)
            a.fresh (λ o. o) a.over t.main.pc safe.main_at;
    },
    a.bounded,
  )

  both : (o : Option Threads) → Kept o → Within t o → Goes t o
  both none k w = tt
  both (some u) k w = (k, w)

  -- A step of any thread.
  thread_step-Goes : (thread : Thread) → Goes t (thread_step thread t)
  unfolding thread_step
  thread_step-Goes cpu0_thread = step0 (producer_at t.producer0.pc t.producer0 t.epoch) (
      producer_at-After t.producer0 t.main.p0 t.main.seen_epoch (taken0 t.main.pc)
        (answering_at t.main.pc t.main.any_committed) t.epoch room safe.sound0 t.producer0.pc refl)
  thread_step-Goes cpu1_thread = step1 (producer_at t.producer1.pc t.producer1 t.epoch) (
      producer_at-After t.producer1 t.main.p1 t.main.seen_epoch (taken1 t.main.pc)
        (answering_at t.main.pc t.main.any_committed) t.epoch room safe.sound1 t.producer1.pc refl)
  thread_step-Goes main_thread =
      both (main_at t.main.pc t) (main_at-IsSafe t room safe t.main.pc refl)
        (main_at-Within t.main.pc t)

new_threads-IsSafe : (cpu0 cpu1 : ScriptedCpu) (a : BusArbiter) → IsSafe (new_threads cpu0 cpu1 a)
unfolding new_threads
new_threads-IsSafe cpu0 cpu1 a = record { sound0 = fresh cpu0; sound1 = fresh cpu1; main_at = tt }
  where
    fresh : (cpu : ScriptedCpu) → IsSound (new_producer cpu) none 0 false false 0
    fresh cpu = record {
      phase = inl (refl, (refl, refl, refl));
      flag = refl;
      not_ahead = omega arith;
      main_not_ahead = omega arith;
      noticed = λ t. cc;
      roused = λ a. cc;
    }

-- The invariant holds after any number of steps that the epoch has room for.
pub Reach-IsSafe :
    (cpu0 cpu1 : ScriptedCpu) (a : BusArbiter) {n : ℕ} {t : Threads}
    → Reach (new_threads cpu0 cpu1 a) n t
    → n < 2 ^ 64
    → IsSafe t × (t.epoch ≤ n)
unfolding new_threads
Reach-IsSafe cpu0 cpu1 a start room = (new_threads-IsSafe cpu0 cpu1 a, omega arith)
Reach-IsSafe cpu0 cpu1 a (later {n} {t} {u} thread r e) room =
    let (safe, low) = Reach-IsSafe cpu0 cpu1 a r (omega arith) in
    let goes : Goes t (some u) =
      subst (λ (o : Option Threads). Goes t o) e (thread_step-Goes t (omega arith) safe thread) in
    (goes.0, omega (arith, goes.1))
