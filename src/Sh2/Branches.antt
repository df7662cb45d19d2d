-- ===== src/Sh2/Branches.antt =====
-- Delay slots in `execute_instruction` of src/cpu/sh2_core.cpp: what an instruction leaves alone, and where the
-- instruction after a branch ends.
use saturnis.Base.{ℕ, ◌≡◌, ◌∙◌, refl, ap, Bool, Option, none, some, Bool-cases, inl, inr}
use saturnis.Base.Integer.{ℤ}
use saturnis.Mem.{TinyCache}
use saturnis.Trace.{TraceLog}
use saturnis.Sh2.{Sh2Core, t_flag}
use saturnis.Sh2.Alu.{
  FlagOp, SumOp, UnaryOp, DifferenceOp, CompareOp, execute_flag, execute_sum, execute_unary,
  execute_difference, execute_compare, execute_div1, nop, sett, div0u, clrt, movt, cmp_eq,
  cmp_eq_imm, tst, mov_imm, add_imm, add_reg, addc, addv, mov_reg, and_reg, xor_reg, or_reg, mulu_w,
  muls_w, div0s, not_reg, negc, neg_reg, extu_b, extu_w, exts_b, exts_w, sub_reg, subc, subv, dmuls,
  dmulu, div1, cmp_hs, cmp_ge, cmp_hi, cmp_gt, cmp_pl, cmp_pz, cmp_str, and_imm, xor_imm, or_imm,
}
use saturnis.Sh2.Transfer.{
  TransferOp, ShiftOp, execute_transfer, execute_shift, push_system, pop_system, stc_gbr, stc_vbr,
  ldc_gbr, ldc_sr, stc_sr, ldc_vbr, sts_macl, sts_mach, lds_macl, lds_mach, mul_l, mova, shll, shlr,
  rotl, shal, shar, rotcl, rotcr, shad, shld, shll_by, shlr_by,
}
use saturnis.Sh2.Execute.{
  ExecuteOp, BranchOp, execute_op, execute_op_of, execute_branch, execute_rte, execute_trapa,
  execute_illegal, finish_instruction, execute_instruction, flag_op, sum_op, unary_op,
  difference_op, compare_op, transfer_op, shift_op, push_op, pop_op, branch_op, bt, bf, bt_s, bf_s,
  bra, bsr, jsr, rts, jmp, rte, trapa,
}

-- What no branch of the chain changes.
pub record Frame : Type 0 where
  pub cpu_id : ℤ
  pub executed : ℕ
  pub target : Option ℕ
  pub vector : Option ℕ
  pub context : Bool
  pub new_pc : ℕ
  pub new_sr : ℕ
  pub restore : Bool
  pub icache : TinyCache

unfoldable pub frame_of : Sh2Core → Frame
frame_of c = record {
  cpu_id = c.cpu_id;
  executed = c.executed;
  target = c.pending_branch_target;
  vector = c.pending_exception_vector;
  context = c.has_exception_return_context;
  new_pc = c.pending_new_pc;
  new_sr = c.pending_new_sr;
  restore = c.pending_rte_restore;
  icache = c.icache;
}

module _ (instr : ℕ) (c : Sh2Core) where
  frame_of-execute_flag : (o : FlagOp) → frame_of (execute_flag o instr c) ≡ frame_of c
  unfolding frame_of execute_flag
  frame_of-execute_flag nop = refl
  frame_of-execute_flag sett = refl
  frame_of-execute_flag div0u = refl
  frame_of-execute_flag clrt = refl
  frame_of-execute_flag movt = refl
  frame_of-execute_flag cmp_eq = refl
  frame_of-execute_flag cmp_eq_imm = refl
  frame_of-execute_flag tst = refl

  frame_of-execute_sum : (o : SumOp) → frame_of (execute_sum o instr c) ≡ frame_of c
  unfolding frame_of execute_sum
  frame_of-execute_sum mov_imm = refl
  frame_of-execute_sum add_imm = refl
  frame_of-execute_sum add_reg = refl
  frame_of-execute_sum addc = refl
  frame_of-execute_sum addv = refl
  frame_of-execute_sum mov_reg = refl
  frame_of-execute_sum and_reg = refl
  frame_of-execute_sum xor_reg = refl
  frame_of-execute_sum or_reg = refl

  frame_of-execute_unary : (o : UnaryOp) → frame_of (execute_unary o instr c) ≡ frame_of c
  unfolding frame_of execute_unary
  frame_of-execute_unary mulu_w = refl
  frame_of-execute_unary muls_w = refl
  frame_of-execute_unary div0s = refl
  frame_of-execute_unary not_reg = refl
  frame_of-execute_unary negc = refl
  frame_of-execute_unary neg_reg = refl
  frame_of-execute_unary extu_b = refl
  frame_of-execute_unary extu_w = refl
  frame_of-execute_unary exts_b = refl
  frame_of-execute_unary exts_w = refl

  frame_of-execute_difference :
      (o : DifferenceOp) → frame_of (execute_difference o instr c) ≡ frame_of c
  unfolding frame_of execute_difference execute_div1
  frame_of-execute_difference sub_reg = refl
  frame_of-execute_difference subc = refl
  frame_of-execute_difference subv = refl
  frame_of-execute_difference dmuls = refl
  frame_of-execute_difference dmulu = refl
  frame_of-execute_difference div1 = refl

  frame_of-execute_compare : (o : CompareOp) → frame_of (execute_compare o instr c) ≡ frame_of c
  unfolding frame_of execute_compare
  frame_of-execute_compare cmp_hs = refl
  frame_of-execute_compare cmp_ge = refl
  frame_of-execute_compare cmp_hi = refl
  frame_of-execute_compare cmp_gt = refl
  frame_of-execute_compare cmp_pl = refl
  frame_of-execute_compare cmp_pz = refl
  frame_of-execute_compare cmp_str = refl
  frame_of-execute_compare and_imm = refl
  frame_of-execute_compare xor_imm = refl
  frame_of-execute_compare or_imm = refl

  frame_of-execute_transfer : (o : TransferOp) → frame_of (execute_transfer o instr c) ≡ frame_of c
  unfolding frame_of execute_transfer
  frame_of-execute_transfer stc_gbr = refl
  frame_of-execute_transfer stc_vbr = refl
  frame_of-execute_transfer ldc_gbr = refl
  frame_of-execute_transfer ldc_sr = refl
  frame_of-execute_transfer stc_sr = refl
  frame_of-execute_transfer ldc_vbr = refl
  frame_of-execute_transfer sts_macl = refl
  frame_of-execute_transfer sts_mach = refl
  frame_of-execute_transfer lds_macl = refl
  frame_of-execute_transfer lds_mach = refl
  frame_of-execute_transfer mul_l = refl
  frame_of-execute_transfer mova = refl

  frame_of-execute_shift : (o : ShiftOp) → frame_of (execute_shift o instr c) ≡ frame_of c
  unfolding frame_of execute_shift
  frame_of-execute_shift shll = refl
  frame_of-execute_shift shlr = refl
  frame_of-execute_shift rotl = refl
  frame_of-execute_shift (shll_by k) = refl
  frame_of-execute_shift (shlr_by k) = refl
  frame_of-execute_shift shal = refl
  frame_of-execute_shift shar = refl
  frame_of-execute_shift rotcl = refl
  frame_of-execute_shift rotcr = refl
  frame_of-execute_shift shad = refl
  frame_of-execute_shift shld = refl

module _ (instr : ℕ) (c : Sh2Core) (trace : TraceLog) where
  frame_of-execute_branch :
      (o : BranchOp) → frame_of (execute_branch o instr c trace).core ≡ frame_of c
  unfolding frame_of execute_branch execute_trapa execute_rte
  frame_of-execute_branch bt = elim (Bool-cases (t_flag c)) [
    | inl e ↦ rw e refl
    | inr e ↦ rw e refl
  ]
  frame_of-execute_branch bf = elim (Bool-cases (t_flag c)) [
    | inl e ↦ rw e refl
    | inr e ↦ rw e refl
  ]
  frame_of-execute_branch bt_s = elim (Bool-cases (t_flag c)) [
    | inl e ↦ rw e refl
    | inr e ↦ rw e refl
  ]
  frame_of-execute_branch bf_s = elim (Bool-cases (t_flag c)) [
    | inl e ↦ rw e refl
    | inr e ↦ rw e refl
  ]
  frame_of-execute_branch bra = refl
  frame_of-execute_branch bsr = refl
  frame_of-execute_branch jsr = refl
  frame_of-execute_branch rts = refl
  frame_of-execute_branch jmp = refl
  frame_of-execute_branch rte = elim (Bool-cases c.has_exception_return_context) [
    | inl e ↦ rw e refl
    | inr e ↦ rw e refl
  ]
  frame_of-execute_branch trapa = refl

  pub frame_of-execute_op :
      (o : Option ExecuteOp) → frame_of (execute_op o instr c trace).core ≡ frame_of c
  unfolding frame_of execute_op execute_illegal push_system pop_system
  frame_of-execute_op none = refl
  frame_of-execute_op (some (flag_op o)) = frame_of-execute_flag instr c o
  frame_of-execute_op (some (sum_op o)) = frame_of-execute_sum instr c o
  frame_of-execute_op (some (unary_op o)) = frame_of-execute_unary instr c o
  frame_of-execute_op (some (difference_op o)) = frame_of-execute_difference instr c o
  frame_of-execute_op (some (compare_op o)) = frame_of-execute_compare instr c o
  frame_of-execute_op (some (transfer_op o)) = frame_of-execute_transfer instr c o
  frame_of-execute_op (some (shift_op o)) = frame_of-execute_shift instr c o
  frame_of-execute_op (some (push_op s)) = refl
  frame_of-execute_op (some (pop_op s)) = refl
  frame_of-execute_op (some (branch_op o)) = frame_of-execute_branch o

-- An instruction by its entry of the table.
pub execute_instruction-by :
    (c : Sh2Core) (instr : ℕ) (trace : TraceLog) (pending : Option ℕ) (o : Option ExecuteOp)
    → c.pending_branch_target ≡ pending
    → execute_op_of instr ≡ o
    → execute_instruction c instr trace
      ≡ finish_instruction pending
          (execute_op o instr (record c { pending_branch_target = none }) trace)
unfolding execute_instruction
execute_instruction-by c instr trace pending o n e =
    ap
      (λ p.
        finish_instruction p (
          execute_op (execute_op_of instr) instr (record c { pending_branch_target = none }) trace))
      n
    ∙ ap
        (λ p.
          finish_instruction pending
            (execute_op p instr (record c { pending_branch_target = none }) trace))
        e
