-- ===== src/Bus/Tests.antt =====
-- Runs of src/bus/bus_arbiter.cpp on small inputs.
use mathlib.Core.List.{Perm}
use saturnis.Base.{
  ℕ, ◌+◌, ◌*◌, ◌%◌, ◌^◌, max, true, false, ◌≤◌, ◌<◌, ◌≡◌, refl, none, some, List, [], ◌∷◌, All,
  arith, get_elem?, length, map, All-replicate,
}
use saturnis.Base.Integer.{ℤ, pos}
use saturnis.Mem.{new_memory, is_mmio}
use saturnis.Mem.Committed.{IsMemory}
use saturnis.Dev.{new_hub}
use saturnis.Dev.Map.{smpc_command_addr}
use saturnis.Dev.History.{IsHub, run_writes, run_writes-IsHub}
use saturnis.Trace.{new_trace}
use saturnis.Bus.{
  CommitResult, BusArbiter, new_bus_arbiter, execute_commit, grant, contention_extra,
}
use saturnis.Bus.Op.{BusKind, read, write, mmio_write, cpu, BusOp}
use saturnis.Bus.Rules.{
  default_latency, default_policy, base_latency, validate_bus_op, valid_bus_size, is_aligned,
  producer_slot,
}
use saturnis.Bus.Batch.{pending_result, may_commit, commit_loop, commit_batch, pick_next}
use saturnis.Bus.Commits.{faults, IsFault, execute_commit-IsFault, execute_commit-timing}
use saturnis.Bus.Effects.{execute_commit-read_write, IsPublished}
use saturnis.Bus.Batches.{IsPaced, StartsFrom, commit_batch-inputs, commit_batch-StartsFrom}
use saturnis.Bus.Completeness.{asked, allowed, commit_loop-CommitsAll}
use saturnis.Bus.Calls.{
  Continues, Call, commit_call, dma_call, batch_call, pending_call, progress_call, run_calls,
  run_calls-Continues,
}
use saturnis.Bus.Ties.{IsCycle, pick_next_cycle}

abbrev fresh : BusArbiter
fresh = new_bus_arbiter (new_memory 64) new_hub new_trace none default_latency

abbrev cpu_op : ℤ → ℕ → ℕ → BusKind → ℕ → ℕ → ℕ → BusOp
cpu_op cpu_id req_time sequence kind addr size data_word = record {
  cpu_id = cpu_id;
  req_time = req_time;
  sequence = sequence;
  kind = kind;
  phys_addr = addr;
  size = size;
  data_word = data_word;
  fill_cache_line = false;
  cache_line_size = 0;
  producer = cpu;
  producer_token = 0;
}

abbrev store0 : BusOp
store0 = cpu_op (pos 0) 3 0 write 16 4 0xAABB_CCDD

abbrev load1 : BusOp
load1 = cpu_op (pos 1) 5 0 read 16 4 0

-- Three bytes at once.
abbrev odd_size : BusOp
odd_size = cpu_op (pos 0) 3 0 write 16 3 7

store0_valid : faults fresh store0 ≡ false
unfolding validate_bus_op valid_bus_size is_aligned new_bus_arbiter producer_slot is_mmio
store0_valid = refl

odd_size-faults : faults fresh odd_size ≡ true
unfolding validate_bus_op valid_bus_size is_aligned new_bus_arbiter producer_slot is_mmio
odd_size-faults = refl

load1_valid : faults (execute_commit fresh store0 false).0 load1 ≡ false
unfolding execute_commit grant validate_bus_op valid_bus_size is_aligned new_bus_arbiter
    producer_slot is_mmio
load1_valid = refl

execute_commit-IsFault_example :
    let (b, r) = execute_commit fresh odd_size false in IsFault fresh b r
execute_commit-IsFault_example = execute_commit-IsFault fresh odd_size false odd_size-faults

store0_fits :
    max 3 fresh.bus_free_time
      + base_latency fresh.latency store0
      + contention_extra fresh store0 true
    < 2 ^ 64
unfolding base_latency contention_extra new_bus_arbiter is_mmio
store0_fits = omega arith

execute_commit-timing_example :
    let (b, r) = execute_commit fresh store0 true in
    (r.start_time ≡ max 3 fresh.bus_free_time)
    × (r.commit_time
        ≡ r.start_time + base_latency fresh.latency store0 + contention_extra fresh store0 true)
    × (b.bus_free_time ≡ r.commit_time)
    × (3 + r.stall ≡ r.commit_time)
execute_commit-timing_example = execute_commit-timing fresh store0 true store0_valid store0_fits

fresh-IsMemory : IsMemory fresh.memory
unfolding new_bus_arbiter new_memory
fresh-IsMemory = All-replicate (λ b. b < 256) 64 (omega arith)

fresh-IsHub : IsHub fresh.devices
unfolding new_bus_arbiter run_writes
fresh-IsHub = run_writes-IsHub []

abbrev calls : List Call
calls =
    commit_call store0
    ∷ dma_call (cpu_op (pos 0) 4 0 mmio_write smpc_command_addr 4 0x1A)
    ∷ progress_call (pos 1) 9
    ∷ batch_call (store0 ∷ load1 ∷ [])
    ∷ pending_call (load1 ∷ [])
    ∷ []

run_calls-Continues_example : Continues fresh (run_calls fresh calls)
run_calls-Continues_example = run_calls-Continues fresh calls fresh-IsHub

store0_inside : 16 + 4 ≤ length fresh.memory.bytes
unfolding new_bus_arbiter new_memory
store0_inside = omega arith

not_mmio : is_mmio 16 ≡ false
unfolding is_mmio
not_mmio = refl

execute_commit-read_write_example :
    (execute_commit (execute_commit fresh store0 false).0 load1 false).1.value
    ≡ 0xAABB_CCDD % 2 ^ (8 * 4)
execute_commit-read_write_example =
    execute_commit-read_write fresh store0 load1 false false fresh-IsMemory refl refl refl refl
      not_mmio store0_inside store0_valid load1_valid

abbrev published : BusArbiter
published = record fresh { progress_tracking_enabled = true; progress0 = 6; progress1 = 4 }

published-IsPublished : IsPublished published
unfolding new_bus_arbiter
published-IsPublished = record {
  tracking = refl;
  published0 = omega arith;
  published1 = omega arith;
}

abbrev ops : List BusOp
ops = load1 ∷ store0 ∷ cpu_op (pos 0) 4 1 read 20 2 0 ∷ []

abbrev pending : List CommitResult
pending = pending_result 0 load1 ∷ pending_result 1 store0 ∷ []

commit_batch-inputs_example :
    All
      (λ r. (may_commit published r.op ≡ true) × (get_elem? ops r.input_index ≡ some r.op))
      (commit_batch published ops).1
commit_batch-inputs_example = commit_batch-inputs published ops

fresh-IsPaced : IsPaced fresh.latency 12
unfolding new_bus_arbiter
fresh-IsPaced = record {
  costs = (omega arith, omega arith, omega arith, omega arith, omega arith, omega arith);
  penalties = (omega arith, omega arith);
}

fresh_free : fresh.bus_free_time ≤ 5
unfolding new_bus_arbiter
fresh_free = omega arith

commit_batch-StartsFrom_example : StartsFrom fresh.bus_free_time (commit_batch fresh ops).1
commit_batch-StartsFrom_example =
    commit_batch-StartsFrom fresh ops 12 5 fresh-IsPaced fresh_free (omega arith) (omega arith)

fresh_running : fresh.trace.should_halt ≡ false
unfolding new_bus_arbiter
fresh_running = refl

fresh_no_halt : fresh.trace.halt_on_fault ≡ false
unfolding new_bus_arbiter
fresh_no_halt = refl

commit_loop-CommitsAll_example :
    Perm (map asked (commit_loop 2 fresh pending).1) (allowed fresh pending)
commit_loop-CommitsAll_example = commit_loop-CommitsAll fresh pending fresh_running fresh_no_halt

-- A busy bus, the last tie of which went to CPU 0.
abbrev busy : BusArbiter
busy = record fresh { bus_free_time = 50; last_grant_cpu = pos 0 }

abbrev ram0 : BusOp
ram0 = cpu_op (pos 0) 10 0 read 16 4 0

abbrev device0 : BusOp
device0 = cpu_op (pos 0) 20 1 mmio_write smpc_command_addr 4 0x1A

abbrev ram1 : BusOp
ram1 = cpu_op (pos 1) 15 0 read 24 4 0

busy-IsCycle : IsCycle busy ram0 device0 ram1
unfolding new_bus_arbiter default_policy is_mmio
busy-IsCycle = record {
  producers = (refl, refl, refl);
  cpus = (refl, refl, refl);
  in_turn = (omega arith, omega arith);
  by_now = (omega arith, omega arith, omega arith);
  priorities = (refl, omega arith);
  last_grant = refl;
}

pick_next_cycle_example :
    (pick_next busy
        (pending_result 0 ram0 ∷ pending_result 1 ram1 ∷ pending_result 2 device0 ∷ [])
        0
        (1 ∷ 2 ∷ [])
      ≡ 2)
    × (pick_next busy
          (pending_result 0 ram0 ∷ pending_result 1 device0 ∷ pending_result 2 ram1 ∷ [])
          0
          (1 ∷ 2 ∷ [])
        ≡ 2)
pick_next_cycle_example = pick_next_cycle busy ram0 device0 ram1 busy-IsCycle

device0_valid : faults busy device0 ≡ false
unfolding validate_bus_op valid_bus_size is_aligned new_bus_arbiter producer_slot is_mmio
device0_valid = refl
