-- ===== src/Driver/Tests.antt =====
-- A run of src/core/emulator.cpp: both CPUs have nothing to ask of the bus.
use saturnis.Base.{arith, ℕ, ◌≡◌, refl, none, some, Option, [], ◌∷◌, length}
use saturnis.Base.Integer.{pos}
use saturnis.Mem.{new_memory}
use saturnis.Dev.{new_hub}
use saturnis.Trace.{new_trace}
use saturnis.Bus.{new_bus_arbiter, update_progress}
use saturnis.Bus.Rules.{default_latency}
use saturnis.Scripted.{
  PendingBusOp, ScriptOp, script_compute, script_barrier, new_scripted_cpu, produce, produce_loop,
  execute_op,
}
use saturnis.Driver.{ScriptedPair, new_pair, publish, run_scripted_pair}
use saturnis.Driver.Starvation.{run_scripted_pair-IsStarved}
use saturnis.Bus.Batch.{blank_op}
use saturnis.Driver.Scripts.{contention_stress_scripts, contention_from}

abbrev think : ScriptOp
think = record { kind = script_compute; vaddr = 0; size = 4; value = 0; cycles = 7 }

abbrev pair : ScriptedPair
pair =
    new_pair (new_scripted_cpu (pos 0) (think ∷ think ∷ []) 4 2)
      (new_scripted_cpu (pos 1) (think ∷ []) 4 2)
      (new_bus_arbiter (new_memory 16) new_hub new_trace none default_latency)

abbrev progress_of : Option ScriptedPair → ℕ
progress_of none = 0
progress_of (some s) = s.arbiter.progress0

clock_of_cpu0 : progress_of (run_scripted_pair 1 pair) ≡ 14
unfolding run_scripted_pair publish produce produce_loop execute_op new_scripted_cpu update_progress
    new_bus_arbiter
clock_of_cpu0 = refl

stress_length : length contention_stress_scripts.0 ≡ 128
unfolding contention_stress_scripts contention_from
stress_length = refl

-- CPU 0 computes and then asks for the bus, and CPU 1 has an empty script: the first turn.
abbrev sync : ScriptOp
sync = record think { kind = script_barrier }

abbrev unequal : ScriptedPair
unequal =
    new_pair (new_scripted_cpu (pos 0) (think ∷ sync ∷ []) 4 2) (new_scripted_cpu (pos 1) [] 4 2)
      (new_bus_arbiter (new_memory 16) new_hub new_trace none default_latency)

abbrev get_pending : Option PendingBusOp → PendingBusOp
get_pending none = record { op = blank_op; script_index = 0 }
get_pending (some p) = p

run_scripted_pair-IsStarved_example : run_scripted_pair 1000 (publish unequal) ≡ none
unfolding publish produce produce_loop execute_op new_scripted_cpu update_progress new_bus_arbiter
run_scripted_pair-IsStarved_example =
    run_scripted_pair-IsStarved 1000 (publish unequal) (get_pending (publish unequal).p0) (record {
      holds = refl;
      idle = refl;
      over = refl;
      behind = omega arith;
      published = omega arith;
      in_range = omega arith;
    })
