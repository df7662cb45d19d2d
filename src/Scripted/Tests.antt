-- ===== src/Scripted/Tests.antt =====
-- Runs of src/cpu/scripted_cpu.cpp on a small script.
use saturnis.Base.{
  ℕ, ◌+◌, ◌*◌, ◌/◌, ◌^◌, false, ◌≤◌, ◌<◌, ◌≡◌, ◌≢◌, refl, none, [], ◌∷◌, All, arith, length,
}
use saturnis.Base.Integer.{pos}
use saturnis.Mem.{
  CommittedMemory, line_at, new_cache, to_phys, is_mmio, is_uncached_alias, forward, forward_in,
  cache_read, read_block,
}
use saturnis.Mem.Bytes.{slice}
use saturnis.Mem.Cache.{IsShaped, IsCoherent}
use saturnis.Bus.{BusResponse}
use saturnis.Scripted.{
  ScriptOp, script_read, script_write, script_compute, ScriptedCpu, new_scripted_cpu, is_uncached,
  produce_read, execute_op, produce_loop, produce, apply_response, instruction_at,
}
use saturnis.Scripted.Requests.{Outcome, produce-Outcome}
use saturnis.Scripted.Forwarding.{apply_response-IsCoherent}

abbrev access : ScriptOp
access = record { kind = script_read; vaddr = 4; size = 2; value = 0; cycles = 0 }

abbrev store_it : ScriptOp
store_it = record access { kind = script_write; value = 0xAABB }

abbrev think : ScriptOp
think = record access { kind = script_compute; cycles = 7 }

-- Seven cycles, a read, and a write with a read behind it.
abbrev start : ScriptedCpu
start = new_scripted_cpu (pos 1) (think ∷ access ∷ store_it ∷ access ∷ []) 4 2

first_request : (produce start).0.local_time ≡ 7
unfolding produce produce_loop execute_op produce_read new_scripted_cpu forward forward_in is_mmio
    is_uncached_alias to_phys cache_read new_cache
first_request = refl

produce-Outcome_example : Outcome start (produce start)
produce-Outcome_example = produce-Outcome start

is_cached : is_uncached 4 ≡ false
unfolding is_mmio is_uncached_alias to_phys
is_cached = refl

abbrev at_write : ScriptedCpu
at_write = record start { pc = 2 }

abbrev answer : BusResponse
answer = record {
  value = 0x0506;
  stall = 4;
  start_time = 7;
  commit_time = 11;
  line_base = 1;
  line_data = 5 ∷ 6 ∷ 7 ∷ 8 ∷ [];
}

no_entries : All (λ e. e.store_id ≢ at_write.next_store_id) at_write.store_buffer.entries
unfolding new_scripted_cpu
no_entries = tt

the_write : instruction_at at_write 2 ≡ store_it
unfolding new_scripted_cpu
the_write = refl

abbrev memory : CommittedMemory
memory = record { bytes = 1 ∷ 2 ∷ 3 ∷ 4 ∷ 5 ∷ 6 ∷ 7 ∷ 8 ∷ [] }

start-IsShaped : IsShaped start.cache
unfolding new_scripted_cpu new_cache
start-IsShaped = record { has_bytes = omega arith; has_lines = omega arith }

no_line : (base : ℕ) → (line_at start.cache base).valid ≡ false
unfolding new_scripted_cpu new_cache
no_line base = ground arith

start-IsCoherent : IsCoherent start.cache memory
start-IsCoherent base valid tagged = absurd (ground (arith, no_line base))

narrow_line : start.cache.line_size < 2 ^ 32
unfolding new_scripted_cpu new_cache
narrow_line = omega arith

the_read : (instruction_at start 1).kind ≡ script_read
unfolding new_scripted_cpu
the_read = refl

the_read_cached : is_uncached (instruction_at start 1).vaddr ≡ false
unfolding new_scripted_cpu is_mmio is_uncached_alias to_phys
the_read_cached = refl

right_base : answer.line_base ≡ to_phys (instruction_at start 1).vaddr / start.cache.line_size
unfolding new_scripted_cpu new_cache to_phys
right_base = refl

right_bytes :
    answer.line_data
    ≡ read_block memory (answer.line_base * start.cache.line_size) start.cache.line_size
unfolding new_scripted_cpu new_cache read_block slice
right_bytes = refl

in_memory : answer.line_base * start.cache.line_size + start.cache.line_size ≤ length memory.bytes
unfolding new_scripted_cpu new_cache
in_memory = omega arith

apply_response-IsCoherent_example : IsCoherent (apply_response start 1 answer 0 none).0.cache memory
apply_response-IsCoherent_example =
    apply_response-IsCoherent start memory 1 0 answer none start-IsShaped start-IsCoherent
      narrow_line the_read the_read_cached right_base right_bytes in_memory
