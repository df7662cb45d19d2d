-- ===== src/Sh2/Tests.antt =====
-- Tests of the SH-2 core, and its theorems at concrete inputs.
mod Codes
mod Sums
mod Stacks
use mathlib.Core.List.{Memᴰ}
use saturnis.Base.{
  All-replicate, length, ◌≤◌, ℕ, ◌+◌, ◌*◌, ◌-◌, ◌%◌, ◌^◌, ◌≡◌, ◌==◌, refl, sym, true, false, none,
  some, List, [], ◌∷◌, arith, All, ◌<◌, set, map, bit_and, if◌then◌else◌, ltb, leb,
}
use saturnis.Base.Integer.{pos}
use saturnis.Base.Word.{u32, u64}
use saturnis.Mem.Bytes.{load, IsByte}
use saturnis.Mem.{new_memory, to_phys, cache_read, is_uncached_alias, is_mmio}
use saturnis.Trace.{TraceLog, new_trace, add_state, add_fault, illegal_op}
use saturnis.Bus.{
  BusResponse, BusArbiter, new_bus_arbiter, execute_commit, grant, perform, contention_extra,
}
use saturnis.Bus.Op.{BusOp, read, write}
use saturnis.Bus.Rules.{
  default_latency, validate_bus_op, valid_bus_size, is_aligned, producer_slot, base_latency,
}
use saturnis.Bus.Commits.{faults}
use saturnis.Mem.Committed.{IsMemory}
use saturnis.Dev.{new_hub}
use saturnis.Sh2.Committed.{loading, pop_system-push_system_committed}
use saturnis.Decode.{field_n, field_m}
use saturnis.Sh2.{
  Sh2Core, new_sh2_core, reset, reg, retire_step, flag, with_flag, t_flag, bit_of, u32_sub, u32_add,
}
use saturnis.Sh2.Alu.{
  execute_flag, execute_sum, execute_difference, execute_div1, div1_step, clrt, addc, subc, div1,
}
use saturnis.Sh2.Transfer.{gbr_reg, vbr_reg, push_system, pop_system, system_value}
use saturnis.Sh2.Rows.{row, first_fit, differs_from}
use saturnis.Sh2.Execute.{
  finish_instruction, execute_op, execute_branch, execute_rte, execute_instruction, execute_op_of,
  execute_rows, branch_op, bt, push_op,
}
use saturnis.Sh2.Produce.{
  run_ahead, is_uncached, core_op, data_access_kind, pending_op, word_width, produce_until_bus,
  enter_exception, op_of_pending, begin_access, push_system_reg, load_rn, store_r0, long_width,
  at_rm, at_rn_high_disp,
}
use saturnis.Sh2.Apply.{
  apply_ifetch_and_step, complete_pending, exception_step, finish_access, load_value,
  post_increment, leave_access, take_icache_line,
}
use saturnis.Sh2.Slots.{after_two, execute_instruction-delay_slot, bra_lem}
use saturnis.Sh2.Exceptions.{serve, access, pushed, pushed_twice, long_read, long_write}
use saturnis.Sh2.Returns.{
  entered, returned, entry_ops, is_store, written, AreAnswered, rte-request_exception_vector,
  request_exception_vector-slot,
}
use saturnis.Sh2.Stack.{answered, pop_system-answered}
use saturnis.Sh2.Pushes.{push_system_skips}
use saturnis.Sh2.Ahead.{Counts, produce_until_bus-Counts}
use saturnis.Sh2.Fetches.{only_cached, fetched_access_is_illegal, cached_branch_is_store}
use saturnis.Sh2.Carries.{long_addition, execute_difference-subc_borrow}
use saturnis.Sh2.Products.{execute_div1_unsigned}

abbrev pub fresh : Sh2Core
fresh = record (new_sh2_core (pos 0)) {
  pc = 0x0600_0000;
  r =
      1 ∷ 0xFFFF_FFFF ∷ 7 ∷ 0x9000_0000 ∷ 0 ∷ 0 ∷ 0 ∷ 0 ∷ 0 ∷ 0 ∷ 0 ∷ 0 ∷ 0 ∷ 0 ∷ 0 ∷ 0x0600_1000
      ∷ [];
}

abbrev branching : Sh2Core
branching = record fresh { pending_branch_target = some 0x0600_0100 }

abbrev pub answer : ℕ → BusResponse
answer value = record {
  value = value;
  stall = 2;
  start_time = 0;
  commit_time = 2;
  line_base = 0;
  line_data = [];
}

execute_instruction-delay_slot_example :
    ((execute_instruction branching 0xA7FF new_trace).0.pc ≡ 0x0600_0100)
    × ((execute_instruction branching 0xA7FF new_trace).0.pending_branch_target ≡ none)
execute_instruction-delay_slot_example =
    execute_instruction-delay_slot branching 0xA7FF new_trace 0x0600_0100 refl

bra_lem_example : (after_two fresh 0xAFFE 0x0009 new_trace).pc ≡ (
    if ltb (0xAFFE % 2 ^ 12) (2 ^ 11)
    then u32 (fresh.pc + 4 + 2 * (0xAFFE % 2 ^ 12))
    else u32 (fresh.pc + 4 + 2 ^ 32 - 2 * (2 ^ 12 - 0xAFFE % 2 ^ 12)))
unfolding new_sh2_core
bra_lem_example = bra_lem fresh 0xAFFE 0x0009 new_trace (omega arith) (omega arith) refl refl

bra_test : (after_two fresh 0xAFFE 0x0009 new_trace).pc ≡ 0x0600_0000
unfolding new_sh2_core
bra_test = bra_lem_example

abbrev exception : Sh2Core × TraceLog
exception = entered fresh 11 5 new_trace (answer 0) (answer 0) (answer 0x0600_2000)

-- A handler about to return, with the stack pointer of its entry.
abbrev handler : Sh2Core
handler = record fresh {
  pc = 0x0600_2010;
  r = set fresh.r 15 0x0600_0FF8;
  has_exception_return_context = true;
}

entry_pointer : reg exception.0 15 ≡ 0x0600_0FF8
unfolding serve produce_until_bus enter_exception op_of_pending apply_ifetch_and_step
    complete_pending exception_step retire_step new_sh2_core u32_sub
entry_pointer = refl

abbrev exit : List BusOp × (Sh2Core × TraceLog)
exit = returned handler 9 new_trace (answer 0x0600_0000) (answer 0)

exit_answered :
    AreAnswered
      (map access (entry_ops fresh 11 5 new_trace (answer 0) (answer 0) (answer 0x0600_2000)))
      (map access exit.0)
      (answer 0x0600_0000 ∷ answer 0 ∷ [])
unfolding written is_store serve produce_until_bus enter_exception op_of_pending
    apply_ifetch_and_step complete_pending exception_step retire_step new_sh2_core u32_sub u32_add
    execute_instruction finish_instruction execute_op execute_op_of first_fit execute_rows
    execute_branch execute_rte data_access_kind is_mmio to_phys
exit_answered = (refl, (refl, tt))

rte-request_exception_vector_example :
    (map access (entry_ops fresh 11 5 new_trace (answer 0) (answer 0) (answer 0x0600_2000))
      ≡ long_write (pushed fresh) fresh.sr
        ∷ long_write (pushed_twice fresh) fresh.pc
        ∷ long_read (u32 (fresh.vbr + 11 * 4))
        ∷ [])
    × (map access exit.0 ≡ long_read (pushed_twice fresh) ∷ long_read (pushed fresh) ∷ [])
    × (reg exit.1.0 15 ≡ reg fresh 15)
    × ((execute_instruction exit.1.0 0x0009 exit.1.1).0.pc ≡ fresh.pc)
    × ((execute_instruction exit.1.0 0x0009 exit.1.1).0.sr ≡ fresh.sr)
unfolding new_sh2_core
rte-request_exception_vector_example =
    rte-request_exception_vector fresh handler 11 5 9 0x0009 new_trace new_trace (answer 0)
      (answer 0) (answer 0x0600_2000) (answer 0x0600_0000) (answer 0) refl (omega arith) refl
      (sym entry_pointer) refl refl refl exit_answered

request_exception_vector-slot_example :
    ((entered branching 11 5 new_trace (answer 0) (answer 0) (answer 0x0600_2000)).0.pc
      ≡ 0x0600_2000)
    × ((execute_instruction
          (entered branching 11 5 new_trace (answer 0) (answer 0) (answer 0x0600_2000)).0
          0x0009
          (entered branching 11 5 new_trace (answer 0) (answer 0) (answer 0x0600_2000)).1).0.pc
        ≡ 0x0600_0100)
unfolding new_sh2_core
request_exception_vector-slot_example =
    request_exception_vector-slot branching 11 5 0x0009 0x0600_0100 new_trace (answer 0) (answer 0)
      (answer 0x0600_2000) refl refl

-- STC.L GBR,@-R15 and LDC.L @R15+,VBR.
stack_fields : (field_n 0x4F13 ≡ 15) × (field_n 0x4F27 ≡ 15) × (field_n 0x4017 ≡ 0)
unfolding field_n
stack_fields = (refl, refl, refl)

push_word : execute_op_of 0x4F13 ≡ some (push_op gbr_reg)
unfolding execute_op_of first_fit execute_rows
push_word = refl

pub words : All (λ x. x < 2 ^ 32) fresh.r
words = (
  omega arith,
  (
    omega arith,
    (
      omega arith,
      (
        omega arith,
        (
          omega arith,
          (
            omega arith,
            (
              omega arith,
              (
                omega arith,
                (
                  omega arith,
                  (
                    omega arith,
                    (
                      omega arith,
                      (omega arith, (omega arith, (omega arith, (omega arith, (omega arith, tt))))),
                    ),
                  ),
                ),
              ),
            ),
          ),
        ),
      ),
    ),
  ),
)
