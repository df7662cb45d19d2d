-- ===== src/Driver/Threads/Tests.antt =====
-- Runs of `run_scripted_pair_multithread` of src/core/emulator.cpp in given orders of its threads.
use saturnis.Base.{
  ℕ, zero, suc, ◌+◌, ◌^◌, ◌<◌, ◌≤◌, ◌≡◌, refl, Option, none, some, List, [], ◌∷◌, ◌++◌, arith,
  length, ◌⊎◌,
}
use saturnis.Base.Integer.{ℤ, pos}
use saturnis.Mem.{new_memory}
use saturnis.Dev.{new_hub}
use saturnis.Trace.{Line, commit_line, new_trace}
use saturnis.Bus.{BusArbiter, new_bus_arbiter}
use saturnis.Bus.Rules.{default_latency, default_policy}
use saturnis.Scripted.{PendingBusOp, ScriptOp, ScriptedCpu, script_barrier, new_scripted_cpu}
use saturnis.Scripted.{produce, produce_loop, execute_op, apply_response}
use saturnis.Trace.{add_commit}
use saturnis.Mem.{new_cache, is_mmio}
use saturnis.Bus.{
  contention_extra, execute_commit, fault_response, grant, perform, update_progress,
  validate_enqueue_contract,
}
use saturnis.Bus.Rules.{base_latency, is_aligned, producer_slot, valid_bus_size, validate_bus_op}
use saturnis.Bus.Batch.{
  blank_op, beats, commit_batch, commit_loop, commit_next, committable_from, enqueue_from,
  had_tie_in, pick_from, pick_next,
}
use saturnis.Driver.Threads.Producer.{
  producer_at, begin_turn, produced_by, notify, receive_from, wait_for_change,
}
use saturnis.Driver.Threads.Main.{
  main_at, drain, look_around, commit_pending_ops, take_request, hand_out_from, end_turn,
}
use saturnis.Driver.Threads.Main.{MainPc, Threads, new_threads}
use saturnis.Driver.Threads.Steps.{
  Thread, cpu0_thread, cpu1_thread, main_thread, thread_step, Reach, start, later, run_threads,
}
use saturnis.Driver.Threads.Safety.{
  IsServed, one_request, under_way, OwnResponse, finished-IsServed,
}
use saturnis.Driver.Threads.Race.{overtaken, about_to_post, update_progress-overtaken}
use saturnis.Driver.Threads.Deadlock.{SomeStep, AllEnded, no_deadlock}

abbrev sync : ScriptOp
sync = record { kind = script_barrier; vaddr = 0; size = 0; value = 0; cycles = 0 }

abbrev cpu0 : ScriptedCpu
cpu0 = new_scripted_cpu (pos 0) (sync ∷ []) 4 2

abbrev cpu1 : ScriptedCpu
cpu1 = new_scripted_cpu (pos 1) (sync ∷ []) 4 2

abbrev arbiter : BusArbiter
arbiter = new_bus_arbiter (new_memory 16) new_hub new_trace none default_latency

abbrev repeat : ℕ → List Thread → List Thread
repeat zero l = []
repeat (suc n) l = l ++ repeat n l

abbrev in_turn : List Thread
in_turn = repeat 30 (cpu0_thread ∷ cpu1_thread ∷ main_thread ∷ [])

abbrev pc_of : Threads → MainPc
pc_of t = t.main.pc

abbrev lines_of : Threads → List Line
lines_of t = t.main.arbiter.trace.lines

abbrev pending : PendingBusOp
pending = record { op = record blank_op { req_time = 7 }; script_index = 0 }

-- CPU 1 has posted its request, and CPU 0 posts its own while the main thread reads the mailboxes.
abbrev late0 : List Thread
late0 =
    cpu1_thread ∷ cpu1_thread ∷ cpu1_thread ∷ cpu0_thread ∷ overtaken
    ++ repeat 12 (main_thread ∷ [])

-- Both have posted before it looks.
abbrev early0 : List Thread
early0 =
    cpu1_thread
    ∷ cpu1_thread
    ∷ cpu1_thread
    ∷ cpu0_thread
    ∷ cpu0_thread
    ∷ cpu0_thread
    ∷ repeat 14 (main_thread ∷ [])

abbrev cpus_in : List Line → List ℤ
cpus_in [] = []
cpus_in (commit_line c ∷ rest) = c.op.cpu_id ∷ cpus_in rest
cpus_in (_ ∷ rest) = cpus_in rest

late0_order : cpus_in (lines_of (run_threads late0 (new_threads cpu0 cpu1 arbiter))) ≡ pos 1 ∷ []
unfolding run_threads thread_step main_at producer_at new_threads begin_turn new_scripted_cpu
    produced_by produce produce_loop execute_op drain look_around commit_pending_ops take_request
    hand_out_from beats commit_batch commit_loop commit_next committable_from enqueue_from
    had_tie_in pick_from pick_next base_latency is_aligned producer_slot valid_bus_size
    validate_bus_op contention_extra execute_commit fault_response grant perform update_progress
    validate_enqueue_contract end_turn notify receive_from wait_for_change new_cache apply_response
    add_commit new_bus_arbiter
late0_order = refl

early0_order :
    cpus_in (lines_of (run_threads early0 (new_threads cpu0 cpu1 arbiter))) ≡ pos 0 ∷ pos 1 ∷ []
unfolding run_threads thread_step main_at producer_at new_threads begin_turn new_scripted_cpu
    produced_by produce produce_loop execute_op drain look_around commit_pending_ops take_request
    hand_out_from beats commit_batch commit_loop commit_next committable_from enqueue_from
    had_tie_in pick_from pick_next base_latency is_aligned producer_slot valid_bus_size
    validate_bus_op contention_extra execute_commit fault_response grant perform update_progress
    validate_enqueue_contract end_turn notify receive_from wait_for_change new_cache apply_response
    add_commit new_bus_arbiter default_policy is_mmio
early0_order = refl

record Run (s : Threads) : Type 0 where
  steps : ℕ
  last : Threads
  reach : Reach s steps last

-- One more step, unless the thread cannot take one.
extended :
    {s : Threads} (r : Run s) (thread : Thread) (o : Option Threads)
    → thread_step thread r.last ≡ o
    → Run s
extended r thread none e = r
extended r thread (some u) e = record {
  steps = suc r.steps;
  last = u;
  reach = later thread r.reach e;
}

run_from : {s : Threads} → Run s → List Thread → Run s
run_from r [] = r
run_from r (thread ∷ rest) = run_from (extended r thread (thread_step thread r.last) refl) rest

extended-steps :
    {s : Threads} (r : Run s) (thread : Thread) (o : Option Threads)
    (e : thread_step thread r.last ≡ o)
    → (extended r thread o e).steps ≤ r.steps + 1
unfolding extended
extended-steps r thread none e = omega arith
extended-steps r thread (some u) e = omega arith

run_from-steps :
    {s : Threads} (r : Run s) (l : List Thread) → (run_from r l).steps ≤ r.steps + length l
unfolding run_from
run_from-steps r [] = omega arith
run_from-steps r (thread ∷ rest) =
    let next = extended r thread (thread_step thread r.last) refl in
    omega
      (arith, run_from-steps next rest, extended-steps r thread (thread_step thread r.last) refl)

abbrev run : List Thread → Run (new_threads cpu0 cpu1 arbiter)
run = run_from (record { steps = 0; last = new_threads cpu0 cpu1 arbiter; reach = start })

abbrev whole : Run (new_threads cpu0 cpu1 arbiter)
whole = run (repeat 60 (cpu0_thread ∷ cpu1_thread ∷ main_thread ∷ []))

abbrev part : Run (new_threads cpu0 cpu1 arbiter)
part = run late0

part_room : part.steps < 2 ^ 64
part_room = omega (
  arith,
  run_from-steps (record { steps = 0; last = new_threads cpu0 cpu1 arbiter; reach = start }) late0,
)

one_request_example :
    (under_way part.last.producer0 part.last.main.p0 ≤ 1)
    × (under_way part.last.producer1 part.last.main.p1 ≤ 1)
    × OwnResponse part.last.producer0
    × OwnResponse part.last.producer1
one_request_example = one_request cpu0 cpu1 arbiter part.steps part.last part.reach part_room

no_deadlock_example : SomeStep part.last ⊎ AllEnded part.last
no_deadlock_example = no_deadlock cpu0 cpu1 arbiter part.steps part.last part.reach part_room

finished-IsServed_example :
    IsServed whole.last.producer0 whole.last.main.p0
    × IsServed whole.last.producer1 whole.last.main.p1
unfolding extended run_from thread_step main_at producer_at new_threads begin_turn new_scripted_cpu
    produced_by produce produce_loop execute_op drain look_around commit_pending_ops take_request
    hand_out_from beats commit_batch commit_loop commit_next committable_from enqueue_from
    had_tie_in pick_from pick_next base_latency is_aligned producer_slot valid_bus_size
    validate_bus_op contention_extra execute_commit fault_response grant perform update_progress
    validate_enqueue_contract end_turn notify receive_from wait_for_change new_cache apply_response
    add_commit new_bus_arbiter default_policy is_mmio
finished-IsServed_example =
    finished-IsServed cpu0 cpu1 arbiter whole.steps whole.last whole.reach (omega arith) refl

update_progress-overtaken_example :
    let u = run_threads overtaken (about_to_post (new_threads cpu0 cpu1 arbiter) pending) in
    (u.main.p0 ≡ none)
    × (u.producer0.req ≡ pending ∷ [])
    × (pending.op.req_time < u.main.arbiter.progress0)
update_progress-overtaken_example =
    update_progress-overtaken (new_threads cpu0 cpu1 arbiter) pending (omega arith)
