-- ===== src/Driver/Threads/Deadlock.antt =====
-- No deadlock in `run_scripted_pair_multithread` of src/core/emulator.cpp: a signal is never missed.
use saturnis.Base.{
  ℕ, ◌^◌, ◌<◌, ◌≡◌, refl, sym, ap, subst, ◌∙◌, ◌⊎◌, inl, inr, true, false, Option, none, some, [],
  ◌==◌, arith, Bool-cases,
}
use saturnis.Bus.{BusArbiter}
use saturnis.Scripted.{PendingBusOp, ScriptedCpu}
use saturnis.Driver.Threads.Producer.{
  wait_for_change, with_waiting, wake, Producer, ProducerPc, top, send_request, send_progress,
  send_signal, check_done, last_progress, set_done, last_signal, stopped, receive, answer_progress,
  answer_signal, asleep, producer_at,
}
use saturnis.Driver.Threads.Main.{
  MainPc, take0, take1, drain0, drain1, check_peer, commit_ops, hand_out, announce, check0, check1,
  dormant, finished, Threads, new_threads, main_at, wake_main,
}
use saturnis.Driver.Threads.Steps.{
  Thread, cpu0_thread, cpu1_thread, main_thread, thread_step, Reach, after0, after1,
}
use saturnis.Driver.Threads.Invariant.{
  posted, held, answered, Flying, Phase, raised, announcing, IsSound, Fresh, taken0, taken1,
  answering_at, Lonely, MainAt, IsSafe,
}
use saturnis.Driver.Threads.Reachable.{Reach-IsSafe}

-- A CPU's thread goes on, has ended, or waits for a signal that has not come.
abbrev Waits : Producer → ℕ → Type 0
Waits s epoch = (s.pc ≡ stopped) ⊎ ((s.pc ≡ asleep) × (s.seen_epoch ≡ epoch))

unchanged : (epoch seen : ℕ) → (wait_for_change epoch seen ≡ some epoch) ⊎ (seen ≡ epoch)
unfolding wait_for_change
unchanged epoch seen = elim (Bool-cases (epoch == seen)) [
  | inl same ↦ inr (ground arith)
  | inr other ↦ inl (rw other refl)
]

abbrev CanGo {ℓ} : {A : Type ℓ} → Option A → Type ℓ
CanGo {A} o = (a : A) × (o ≡ some a)

with_waiting-CanGo :
    (s : Producer) (epoch : ℕ) (f : PendingBusOp → Producer)
    → (w : PendingBusOp) → s.waiting ≡ some w
    → CanGo (with_waiting s epoch s.waiting f)
with_waiting-CanGo s epoch f w e = (_, ap (λ (o : Option PendingBusOp). with_waiting s epoch o f) e)

producer_at-CanGo :
    (pc : ProducerPc) (s : Producer) (p : Option PendingBusOp) (epoch : ℕ)
    → s.pc ≡ pc
    → Phase pc s p
    → CanGo (producer_at pc s epoch) ⊎ Waits s epoch
unfolding producer_at
producer_at-CanGo top s p epoch e h = inl (_, refl)
producer_at-CanGo send_request s p epoch e (w, waits, h) =
    inl (with_waiting-CanGo s epoch _ w waits)
producer_at-CanGo send_progress s p epoch e (w, waits, h) =
    inl (with_waiting-CanGo s epoch _ w waits)
producer_at-CanGo send_signal s p epoch e h = inl (_, refl)
producer_at-CanGo check_done s p epoch e h = inl (_, refl)
producer_at-CanGo last_progress s p epoch e h = inl (_, refl)
producer_at-CanGo set_done s p epoch e h = inl (_, refl)
producer_at-CanGo last_signal s p epoch e h = inl (_, refl)
producer_at-CanGo stopped s p epoch e h = inr (inl e)
producer_at-CanGo receive s p epoch e h = inl (_, refl)
producer_at-CanGo answer_progress s p epoch e h = inl (_, refl)
producer_at-CanGo answer_signal s p epoch e h = inl (_, refl)
producer_at-CanGo asleep s p epoch e h = elim (unchanged epoch s.seen_epoch) [
  | inl changed ↦ inl (_, ap (wake s) changed)
  | inr same ↦ inr (inr (e, same))
]

main_at-CanGo :
    (pc : MainPc) (t : Threads)
    → t.main.pc ≡ pc
    → CanGo (main_at pc t)
      ⊎ ((t.main.pc ≡ finished) ⊎ ((t.main.pc ≡ dormant) × (t.main.seen_epoch ≡ t.epoch)))
unfolding main_at
main_at-CanGo take0 t e = inl (_, refl)
main_at-CanGo take1 t e = inl (_, refl)
main_at-CanGo drain0 t e = inl (_, refl)
main_at-CanGo drain1 t e = inl (_, refl)
main_at-CanGo check_peer t e = inl (_, refl)
main_at-CanGo commit_ops t e = inl (_, refl)
main_at-CanGo hand_out t e = inl (_, refl)
main_at-CanGo announce t e = inl (_, refl)
main_at-CanGo check0 t e = inl (_, refl)
main_at-CanGo check1 t e = inl (_, refl)
main_at-CanGo dormant t e = elim (unchanged t.epoch t.main.seen_epoch) [
  | inl changed ↦ inl (_, ap (wake_main t) changed)
  | inr same ↦ inr (inr (e, same))
]
main_at-CanGo finished t e = inr (inl e)

-- A CPU's thread of which the main thread holds nothing, and which it will hear from, does not wait while the
-- main thread does.
no_wait :
    (s : Producer) (p : Option PendingBusOp) (seen epoch : ℕ)
    → IsSound s p seen true false epoch
    → seen ≡ epoch
    → p ≡ none
    → Fresh s seen epoch
    → Waits s epoch
    → ⊥
no_wait s p seen epoch sound same free (inl f) (inl e) =
    let up : s.is_over ≡ true = sound.flag ∙ ap raised e in cc
no_wait s p seen epoch sound same free (inr (inl l)) w = omega arith
no_wait s p seen epoch sound same free (inr (inr f)) (inl e) = cc
no_wait s p seen epoch sound same free f (inr (e, stays)) =
    go (subst (λ (pc : ProducerPc). Phase pc s p) e sound.phase)
  where
    posted_there : (s.req ≡ []) ⊎ ((seen < epoch) ⊎ (announcing s.pc ≡ true)) → s.req ≡ []
    posted_there (inl r) = r
    posted_there (inr (inl l)) = absurd (omega arith)
    posted_there (inr (inr a)) = absurd (cc)

    answered_there : (s.resp ≡ []) ⊎ ((s.seen_epoch < epoch) ⊎ (false ≡ true)) → s.resp ≡ []
    answered_there (inl r) = r
    answered_there (inr (inl l)) = absurd (omega arith)
    answered_there (inr (inr a)) = absurd (cc)

    go : Flying s p → ⊥
    go (w, waits, posted a b c) = cc (posted_there (sound.noticed refl))
    go (w, waits, held a b c) = cc
    go (w, waits, answered r own a b c) = cc (answered_there (sound.roused e))

-- A thread can go on.
abbrev pub SomeStep : Threads → Type 0
SomeStep t = (thread : Thread) × (u : Threads) × (thread_step thread t ≡ some u)

abbrev pub AllEnded : Threads → Type 0
AllEnded t = (t.main.pc ≡ finished) × (t.producer0.pc ≡ stopped) × (t.producer1.pc ≡ stopped)

step_of0 : (t : Threads) → CanGo (producer_at t.producer0.pc t.producer0 t.epoch) → SomeStep t
unfolding thread_step
step_of0 t (a, e) = (cpu0_thread, _, ap (after0 t) e)

step_of1 : (t : Threads) → CanGo (producer_at t.producer1.pc t.producer1 t.epoch) → SomeStep t
unfolding thread_step
step_of1 t (a, e) = (cpu1_thread, _, ap (after1 t) e)

step_of_main : (t : Threads) → CanGo (main_at t.main.pc t) → SomeStep t
unfolding thread_step
step_of_main t (a, e) = (main_thread, a, e)

-- A thread that has raised its flag is not asleep.
ended : (s : Producer) (epoch : ℕ) → raised s.pc ≡ true → Waits s epoch → s.pc ≡ stopped
ended s epoch up (inl e) = e
ended s epoch up (inr (e, stays)) = absurd (cc)

module _ (t : Threads) (safe : IsSafe t) where
  waits0 : SomeStep t ⊎ Waits t.producer0 t.epoch
  waits0 =
      elim (producer_at-CanGo t.producer0.pc t.producer0 t.main.p0 t.epoch refl safe.sound0.phase) [
        | inl go ↦ inl (step_of0 t go)
        | inr w ↦ inr w
      ]

  waits1 : SomeStep t ⊎ Waits t.producer1 t.epoch
  waits1 =
      elim (producer_at-CanGo t.producer1.pc t.producer1 t.main.p1 t.epoch refl safe.sound1.phase) [
        | inl go ↦ inl (step_of1 t go)
        | inr w ↦ inr w
      ]

  over : t.main.pc ≡ finished → SomeStep t ⊎ AllEnded t
  over e = go waits0 waits1
    where
      flags :
          (t.main.p0 ≡ none)
          × (t.main.p1 ≡ none)
          × (t.producer0.is_over ≡ true)
          × (t.producer1.is_over ≡ true)
      flags = subst (λ (pc : MainPc). MainAt pc t) e safe.main_at

      go :
          SomeStep t ⊎ Waits t.producer0 t.epoch
          → SomeStep t ⊎ Waits t.producer1 t.epoch
          → SomeStep t ⊎ AllEnded t
      go (inl s) w = inl s
      go (inr v) (inl s) = inl s
      go (inr v) (inr w) = inr (
        e,
        ended t.producer0 t.epoch (sym safe.sound0.flag ∙ flags.2) v,
        ended t.producer1 t.epoch (sym safe.sound1.flag ∙ flags.3) w,
      )

  asleep_main : t.main.pc ≡ dormant → t.main.seen_epoch ≡ t.epoch → SomeStep t
  asleep_main e same = go (subst (λ (pc : MainPc). MainAt pc t) e safe.main_at) waits0 waits1
    where
      sound0 : IsSound t.producer0 t.main.p0 t.main.seen_epoch true false t.epoch
      sound0 =
          subst
            (λ (pc : MainPc).
              IsSound t.producer0 t.main.p0 t.main.seen_epoch (taken0 pc)
                (answering_at pc t.main.any_committed) t.epoch)
            e safe.sound0

      sound1 : IsSound t.producer1 t.main.p1 t.main.seen_epoch true false t.epoch
      sound1 =
          subst
            (λ (pc : MainPc).
              IsSound t.producer1 t.main.p1 t.main.seen_epoch (taken1 pc)
                (answering_at pc t.main.any_committed) t.epoch)
            e safe.sound1

      go :
          Lonely t
          → SomeStep t ⊎ Waits t.producer0 t.epoch
          → SomeStep t ⊎ Waits t.producer1 t.epoch
          → SomeStep t
      go (inl l) (inl s) w = s
      go (inl (free, fresh)) (inr v) w =
          absurd (no_wait t.producer0 t.main.p0 t.main.seen_epoch t.epoch sound0 same free fresh v)
      go (inr l) v (inl s) = s
      go (inr (free, fresh)) v (inr w) =
          absurd (no_wait t.producer1 t.main.p1 t.main.seen_epoch t.epoch sound1 same free fresh w)

  IsSafe-goes_on : SomeStep t ⊎ AllEnded t
  IsSafe-goes_on = elim (main_at-CanGo t.main.pc t refl) [
    | inl go ↦ inl (step_of_main t go)
    | inr (inl e) ↦ over e
    | inr (inr (e, same)) ↦ inl (asleep_main e same)
  ]

-- Whatever the order of fewer than 2^64 steps of the threads, either all three have ended, or one of them can
-- take a step: they never wait for each other.
pub no_deadlock :
    (cpu0 cpu1 : ScriptedCpu) (a : BusArbiter) (n : ℕ) (t : Threads)
    → Reach (new_threads cpu0 cpu1 a) n t
    → n < 2 ^ 64
    → SomeStep t ⊎ AllEnded t
no_deadlock cpu0 cpu1 a n t r room = IsSafe-goes_on t (Reach-IsSafe cpu0 cpu1 a r room).0
