-- ===== src/Driver/Threads/Race.antt =====
-- What `run_scripted_pair_multithread` of src/core/emulator.cpp commits depends on the order of its threads: the
-- main thread reads the mailboxes of requests before those of progress.
use saturnis.Base.{◌+◌, ◌^◌, ◌<◌, ◌≡◌, refl, none, some, List, [], ◌∷◌, arith}
use saturnis.Bus.{update_progress}
use saturnis.Scripted.{PendingBusOp}
use saturnis.Driver.Threads.Producer.{send_request, producer_at}
use saturnis.Driver.Threads.Main.{take0, Threads, take_request, drain, main_at}
use saturnis.Driver.Threads.Steps.{cpu0_thread, main_thread, Thread, thread_step, run_threads}

-- The main thread starts its turn with nothing of CPU 0 held or posted, and CPU 0 is about to post a request.
abbrev pub about_to_post : Threads → PendingBusOp → Threads
about_to_post t w = record t {
  producer0 = record t.producer0 { pc = send_request; waiting = some w; req = []; progress = [] };
  main = record t.main { pc = take0; p0 = none };
}

-- The main thread looks for a request, CPU 0 posts it with its progress, and the main thread goes on to read
-- the progress.
abbrev pub overtaken : List Thread
overtaken = main_thread ∷ cpu0_thread ∷ cpu0_thread ∷ main_thread ∷ main_thread ∷ []

-- If the main thread looks for a request of CPU 0 and finds none, CPU 0 then posts one with its progress, and the
-- main thread goes on to read the progress, then it counts CPU 0 as past the request time of a request that it
-- does not hold, and that is still in the mailbox, whatever else the state is. The request time is below the
-- limit of the clock.
pub update_progress-overtaken :
    (t : Threads) (w : PendingBusOp)
    → w.op.req_time + 1 < 2 ^ 64
    → let u = run_threads overtaken (about_to_post t w) in
      (u.main.p0 ≡ none) × (u.producer0.req ≡ w ∷ []) × (w.op.req_time < u.main.arbiter.progress0)
unfolding run_threads thread_step main_at take_request producer_at drain update_progress
update_progress-overtaken t w room = (refl, refl, ground arith)
