-- ===== src/Sh2/Execute.antt =====
-- `execute_instruction` of src/cpu/sh2_core.cpp: its chain of tests as a table, its branches, and what every
-- instruction ends with.
mod Table
use mathlib.Core.List.{Memᴰ}
use saturnis.Base.{
  ℕ, ◌+◌, ◌<◌, ◌≡◌, ◌^◌, true, false, not, Option, none, some, List, [], ◌∷◌, if◌then◌else◌, refl,
}
use saturnis.Base.Integer.{ℤ}
use saturnis.Base.Word.{u32}
use saturnis.Mem.{to_phys}
use saturnis.Trace.{
  TraceLog, synthetic_rte_without_context, exception_return, illegal_op, add_fault,
}
use saturnis.Decode.{field_n, field_imm8}
use saturnis.Sh2.{
  Sh2Core, mem_op, trapa_push_sr, rte_pop_pc, reg, write_reg, t_flag, advance, retire_step, u32_add,
  u32_sub, u32_add_i32, signext8, signext12, twice,
}
use saturnis.Sh2.Rows.{Row, row, fits, first_fit, all_differ, differs_from, first_fit-mem}
use saturnis.Sh2.Alu.{
  FlagOp, SumOp, UnaryOp, DifferenceOp, CompareOp, execute_flag, execute_sum, execute_unary,
  execute_difference, execute_compare, nop, sett, div0u, clrt, movt, cmp_eq, cmp_eq_imm, tst,
  mov_imm, add_imm, add_reg, addc, addv, mov_reg, and_reg, xor_reg, or_reg, mulu_w, muls_w, div0s,
  not_reg, negc, neg_reg, extu_b, extu_w, exts_b, exts_w, sub_reg, subc, subv, dmuls, dmulu, div1,
  cmp_hs, cmp_ge, cmp_hi, cmp_gt, cmp_pl, cmp_pz, cmp_str, and_imm, xor_imm, or_imm,
}
use saturnis.Sh2.Transfer.{
  TransferOp, SystemReg, ShiftOp, execute_transfer, execute_shift, push_system, pop_system, stc_gbr,
  stc_vbr, ldc_gbr, ldc_sr, stc_sr, ldc_vbr, sts_macl, sts_mach, lds_macl, lds_mach, mul_l, mova,
  pr_reg, sr_reg, gbr_reg, vbr_reg, mach_reg, macl_reg, shll, shlr, rotl, shal, shar, rotcl, rotcr,
  shad, shld, shll_by, shlr_by,
}
unfoldable pub use Table.*

-- What a branch of the chain leaves: the core, the trace and `next_branch_target`.
pub record Executed : Type 0 where
  pub core : Sh2Core
  pub trace : TraceLog
  pub next_branch_target : Option ℕ

abbrev pub falls_through : Sh2Core → TraceLog → Executed
falls_through c trace = record { core = c; trace = trace; next_branch_target = none }

-- The target of a branch with a displacement of 8 or 12 bits.
abbrev pub branch_target : Sh2Core → ℤ → ℕ
branch_target c disp = u32_add_i32 (u32_add c.pc 4) (twice disp)

abbrev pub delayed : Sh2Core → TraceLog → ℕ → Executed
delayed c trace target = record {
  core = advance c;
  trace = trace;
  next_branch_target = some target;
}

unfoldable pub execute_rte : Sh2Core → TraceLog → Executed
execute_rte c trace =
    if not c.has_exception_return_context
    then falls_through (advance c) (
        add_fault trace (record {
          t = c.t;
          cpu = c.cpu_id;
          pc = c.pc;
          detail = 0;
          reason = synthetic_rte_without_context;
        }))
    else falls_through
        (advance
          (record c { pending_mem_op = some (mem_op rte_pop_pc (to_phys (reg c 15)) 4 0 0) }))
        (add_fault trace (record {
          t = c.t;
          cpu = c.cpu_id;
          pc = u32 (c.pc + 2);
          detail = 0;
          reason = exception_return;
        }))

unfoldable pub execute_trapa : ℕ → Sh2Core → Sh2Core
execute_trapa instr c =
    let sp = u32_sub (reg c 15) 4 in
    record (write_reg c 15 sp) {
      pending_trapa_imm = some (field_imm8 instr);
      pending_mem_op = some (mem_op trapa_push_sr (to_phys sp) 4 c.sr 0);
    }

unfoldable pub execute_branch : BranchOp → ℕ → Sh2Core → TraceLog → Executed
execute_branch bt instr c trace =
    if t_flag c
    then falls_through (record c { pc = branch_target c (signext8 instr) }) trace
    else falls_through (advance c) trace
execute_branch bf instr c trace =
    if not (t_flag c)
    then falls_through (record c { pc = branch_target c (signext8 instr) }) trace
    else falls_through (advance c) trace
execute_branch bt_s instr c trace =
    if t_flag c
    then delayed c trace (branch_target c (signext8 instr))
    else falls_through (advance c) trace
execute_branch bf_s instr c trace =
    if not (t_flag c)
    then delayed c trace (branch_target c (signext8 instr))
    else falls_through (advance c) trace
execute_branch bra instr c trace = delayed c trace (branch_target c (signext12 instr))
execute_branch bsr instr c trace =
    delayed (record c { pr = u32 (c.pc + 4) }) trace (branch_target c (signext12 instr))
execute_branch jsr instr c trace =
    delayed (record c { pr = u32 (c.pc + 4) }) trace (reg c (field_n instr))
execute_branch rts instr c trace = delayed c trace c.pr
execute_branch jmp instr c trace = delayed c trace (reg c (field_n instr))
execute_branch rte instr c trace = execute_rte c trace
execute_branch trapa instr c trace = falls_through (execute_trapa instr c) trace

unfoldable pub execute_illegal : ℕ → Sh2Core → TraceLog → Executed
execute_illegal instr c trace = falls_through (advance c) (
    add_fault trace
      (record { t = c.t; cpu = c.cpu_id; pc = c.pc; detail = instr; reason = illegal_op }))

unfoldable pub execute_op : Option ExecuteOp → ℕ → Sh2Core → TraceLog → Executed
execute_op none instr c trace = execute_illegal instr c trace
execute_op (some (flag_op o)) instr c trace = falls_through (advance (execute_flag o instr c)) trace
execute_op (some (sum_op o)) instr c trace = falls_through (advance (execute_sum o instr c)) trace
execute_op (some (unary_op o)) instr c trace =
    falls_through (advance (execute_unary o instr c)) trace
execute_op (some (difference_op o)) instr c trace =
    falls_through (advance (execute_difference o instr c)) trace
execute_op (some (compare_op o)) instr c trace =
    falls_through (advance (execute_compare o instr c)) trace
execute_op (some (transfer_op o)) instr c trace =
    falls_through (advance (execute_transfer o instr c)) trace
execute_op (some (shift_op o)) instr c trace =
    falls_through (advance (execute_shift o instr c)) trace
execute_op (some (push_op s)) instr c trace = falls_through (advance (push_system s instr c)) trace
execute_op (some (pop_op s)) instr c trace = falls_through (advance (pop_system s instr c)) trace
execute_op (some (branch_op o)) instr c trace = execute_branch o instr c trace

-- What follows the chain: the branch that was pending before the instruction wins over one that the
-- instruction takes itself.
abbrev pub restore_sr : Sh2Core → Sh2Core
restore_sr c =
    if c.pending_rte_restore
    then record c { sr = c.pending_new_sr; pending_rte_restore = false }
    else c

unfoldable pub finish_instruction : Option ℕ → Executed → Sh2Core × TraceLog
finish_instruction (some target) x =
    retire_step (record (restore_sr x.core) { pc = target }) x.trace
finish_instruction none x =
    retire_step
      (elim x.next_branch_target as (λ o. Sh2Core) [
        | none ↦ x.core
        | some target ↦ record x.core { pending_branch_target = some target }
      ])
      x.trace

unfoldable pub execute_instruction : Sh2Core → ℕ → TraceLog → Sh2Core × TraceLog
execute_instruction c instr trace =
    finish_instruction c.pending_branch_target
      (execute_op (execute_op_of instr) instr (record c { pending_branch_target = none }) trace)
