-- ===== src/Driver/Threads/Steps.antt =====
-- src/core/emulator.cpp: `run_scripted_pair_multithread` as the steps of its three threads, in any order.
use saturnis.Base.{ℕ, zero, suc, ◌≡◌, Option, none, some, List, [], ◌∷◌}
use saturnis.Driver.Threads.Producer.{Producer, producer_at}
use saturnis.Driver.Threads.Main.{Threads, main_at}

pub data Thread : Type 0 where
  cpu0_thread cpu1_thread main_thread : Thread

abbrev pub after0 : Threads → Option (Producer × ℕ) → Option Threads
after0 t none = none
after0 t (some (s, epoch)) = some (record t { producer0 = s; epoch = epoch })

abbrev pub after1 : Threads → Option (Producer × ℕ) → Option Threads
after1 t none = none
after1 t (some (s, epoch)) = some (record t { producer1 = s; epoch = epoch })

unfoldable pub thread_step : Thread → Threads → Option Threads
thread_step cpu0_thread t = after0 t (producer_at t.producer0.pc t.producer0 t.epoch)
thread_step cpu1_thread t = after1 t (producer_at t.producer1.pc t.producer1 t.epoch)
thread_step main_thread t = main_at t.main.pc t

-- The states that n steps lead to, in any order of the threads.
pub data Reach (s : Threads) : ℕ → Threads → Type 0 where
  start : Reach s zero s
  later :
      {n : ℕ} {t u : Threads} (thread : Thread)
      → Reach s n t
      → thread_step thread t ≡ some u
      → Reach s (suc n) u

abbrev or_stay : Threads → Option Threads → Threads
or_stay t none = t
or_stay t (some u) = u

-- The threads run in a given order, where one that cannot go on is passed over.
unfoldable pub run_threads : List Thread → Threads → Threads
run_threads [] t = t
run_threads (thread ∷ rest) t = run_threads rest (or_stay t (thread_step thread t))
