-- ===== src/Sh2/Execute/Table.antt =====
-- The chain of tests in `execute_instruction` of src/cpu/sh2_core.cpp, as a table.
use mathlib.Core.List.{Memᴰ}
use saturnis.Base.{ℕ, ◌<◌, ◌≡◌, ◌^◌, true, Option, some, List, [], ◌∷◌, refl}
use saturnis.Sh2.Rows.{Row, row, fits, first_fit, all_differ, differs_from, first_fit-mem}
use saturnis.Sh2.Alu.{
  FlagOp, SumOp, UnaryOp, DifferenceOp, CompareOp, nop, sett, div0u, clrt, movt, cmp_eq, cmp_eq_imm,
  tst, mov_imm, add_imm, add_reg, addc, addv, mov_reg, and_reg, xor_reg, or_reg, mulu_w, muls_w,
  div0s, not_reg, negc, neg_reg, extu_b, extu_w, exts_b, exts_w, sub_reg, subc, subv, dmuls, dmulu,
  div1, cmp_hs, cmp_ge, cmp_hi, cmp_gt, cmp_pl, cmp_pz, cmp_str, and_imm, xor_imm, or_imm,
}
use saturnis.Sh2.Transfer.{
  TransferOp, SystemReg, ShiftOp, stc_gbr, stc_vbr, ldc_gbr, ldc_sr, stc_sr, ldc_vbr, sts_macl,
  sts_mach, lds_macl, lds_mach, mul_l, mova, pr_reg, sr_reg, gbr_reg, vbr_reg, mach_reg, macl_reg,
  shll, shlr, rotl, shal, shar, rotcl, rotcr, shad, shld, shll_by, shlr_by,
}

pub data BranchOp : Type 0 where
  bt bf bt_s bf_s bra bsr jsr rts jmp rte trapa : BranchOp

pub data ExecuteOp : Type 0 where
  flag_op : FlagOp → ExecuteOp
  sum_op : SumOp → ExecuteOp
  unary_op : UnaryOp → ExecuteOp
  difference_op : DifferenceOp → ExecuteOp
  compare_op : CompareOp → ExecuteOp
  transfer_op : TransferOp → ExecuteOp
  shift_op : ShiftOp → ExecuteOp
  push_op pop_op : SystemReg → ExecuteOp
  branch_op : BranchOp → ExecuteOp

-- The tests, in the order of the source.
unfoldable pub execute_rows : List (Row ExecuteOp)
execute_rows =
    row 0xFFFF 0x0009 (flag_op nop)
    ∷ row 0xFFFF 0x0018 (flag_op sett)
    ∷ row 0xFFFF 0x0019 (flag_op div0u)
    ∷ row 0xFFFF 0x0008 (flag_op clrt)
    ∷ row 0xF0FF 0x0029 (flag_op movt)
    ∷ row 0xF00F 0x3000 (flag_op cmp_eq)
    ∷ row 0xFF00 0x8800 (flag_op cmp_eq_imm)
    ∷ row 0xF00F 0x2008 (flag_op tst)
    ∷ row 0xF000 0xE000 (sum_op mov_imm)
    ∷ row 0xF000 0x7000 (sum_op add_imm)
    ∷ row 0xF00F 0x300C (sum_op add_reg)
    ∷ row 0xF00F 0x300E (sum_op addc)
    ∷ row 0xF00F 0x300F (sum_op addv)
    ∷ row 0xF00F 0x6003 (sum_op mov_reg)
    ∷ row 0xF00F 0x2009 (sum_op and_reg)
    ∷ row 0xF00F 0x200A (sum_op xor_reg)
    ∷ row 0xF00F 0x200B (sum_op or_reg)
    ∷ row 0xF00F 0x200E (unary_op mulu_w)
    ∷ row 0xF00F 0x200F (unary_op muls_w)
    ∷ row 0xF00F 0x2007 (unary_op div0s)
    ∷ row 0xF00F 0x6007 (unary_op not_reg)
    ∷ row 0xF00F 0x600A (unary_op negc)
    ∷ row 0xF00F 0x600B (unary_op neg_reg)
    ∷ row 0xF00F 0x600C (unary_op extu_b)
    ∷ row 0xF00F 0x600D (unary_op extu_w)
    ∷ row 0xF00F 0x600E (unary_op exts_b)
    ∷ row 0xF00F 0x600F (unary_op exts_w)
    ∷ row 0xF00F 0x3008 (difference_op sub_reg)
    ∷ row 0xF00F 0x300A (difference_op subc)
    ∷ row 0xF00F 0x300B (difference_op subv)
    ∷ row 0xF00F 0x300D (difference_op dmuls)
    ∷ row 0xF00F 0x3005 (difference_op dmulu)
    ∷ row 0xF00F 0x3004 (difference_op div1)
    ∷ row 0xF00F 0x3002 (compare_op cmp_hs)
    ∷ row 0xF00F 0x3003 (compare_op cmp_ge)
    ∷ row 0xF00F 0x3006 (compare_op cmp_hi)
    ∷ row 0xF00F 0x3007 (compare_op cmp_gt)
    ∷ row 0xF0FF 0x4015 (compare_op cmp_pl)
    ∷ row 0xF0FF 0x4011 (compare_op cmp_pz)
    ∷ row 0xF00F 0x200C (compare_op cmp_str)
    ∷ row 0xFF00 0xC900 (compare_op and_imm)
    ∷ row 0xFF00 0xCA00 (compare_op xor_imm)
    ∷ row 0xFF00 0xCB00 (compare_op or_imm)
    ∷ row 0xFF00 0x8900 (branch_op bt)
    ∷ row 0xFF00 0x8B00 (branch_op bf)
    ∷ row 0xFF00 0x8D00 (branch_op bt_s)
    ∷ row 0xFF00 0x8F00 (branch_op bf_s)
    ∷ row 0xF0FF 0x0012 (transfer_op stc_gbr)
    ∷ row 0xF0FF 0x0022 (transfer_op stc_vbr)
    ∷ row 0xF0FF 0x4003 (push_op sr_reg)
    ∷ row 0xF0FF 0x4013 (push_op gbr_reg)
    ∷ row 0xF0FF 0x4023 (push_op vbr_reg)
    ∷ row 0xF0FF 0x4002 (push_op mach_reg)
    ∷ row 0xF0FF 0x4012 (push_op macl_reg)
    ∷ row 0xF0FF 0x401E (transfer_op ldc_gbr)
    ∷ row 0xF0FF 0x400E (transfer_op ldc_sr)
    ∷ row 0xF0FF 0x0002 (transfer_op stc_sr)
    ∷ row 0xF0FF 0x4026 (pop_op pr_reg)
    ∷ row 0xF0FF 0x4007 (pop_op sr_reg)
    ∷ row 0xF0FF 0x4017 (pop_op gbr_reg)
    ∷ row 0xF0FF 0x4027 (pop_op vbr_reg)
    ∷ row 0xF0FF 0x4006 (pop_op mach_reg)
    ∷ row 0xF0FF 0x4016 (pop_op macl_reg)
    ∷ row 0xF0FF 0x402E (transfer_op ldc_vbr)
    ∷ row 0xF0FF 0x001A (transfer_op sts_macl)
    ∷ row 0xF0FF 0x000A (transfer_op sts_mach)
    ∷ row 0xF0FF 0x401A (transfer_op lds_macl)
    ∷ row 0xF0FF 0x400A (transfer_op lds_mach)
    ∷ row 0xF00F 0x0007 (transfer_op mul_l)
    ∷ row 0xFF00 0xC700 (transfer_op mova)
    ∷ row 0xF0FF 0x4000 (shift_op shll)
    ∷ row 0xF0FF 0x4001 (shift_op shlr)
    ∷ row 0xF0FF 0x4004 (shift_op rotl)
    ∷ row 0xF0FF 0x4008 (shift_op (shll_by 2))
    ∷ row 0xF0FF 0x4018 (shift_op (shll_by 8))
    ∷ row 0xF0FF 0x4028 (shift_op (shll_by 16))
    ∷ row 0xF0FF 0x4009 (shift_op (shlr_by 2))
    ∷ row 0xF0FF 0x4019 (shift_op (shlr_by 8))
    ∷ row 0xF0FF 0x4029 (shift_op (shlr_by 16))
    ∷ row 0xF0FF 0x4020 (shift_op shal)
    ∷ row 0xF0FF 0x4021 (shift_op shar)
    ∷ row 0xF0FF 0x4024 (shift_op rotcl)
    ∷ row 0xF0FF 0x4025 (shift_op rotcr)
    ∷ row 0xF00F 0x400C (shift_op shad)
    ∷ row 0xF00F 0x400D (shift_op shld)
    ∷ row 0xF000 0xA000 (branch_op bra)
    ∷ row 0xF000 0xB000 (branch_op bsr)
    ∷ row 0xF0FF 0x400B (branch_op jsr)
    ∷ row 0xFFFF 0x000B (branch_op rts)
    ∷ row 0xF0FF 0x402B (branch_op jmp)
    ∷ row 0xFFFF 0x002B (branch_op rte)
    ∷ row 0xFF00 0xC300 (branch_op trapa)
    ∷ []

unfoldable pub execute_op_of : ℕ → Option ExecuteOp
execute_op_of instr = first_fit execute_rows instr

rows_differ : all_differ execute_rows ≡ true
unfolding all_differ differs_from execute_rows
rows_differ = refl

-- An instruction word is executed as the row that it fits says, since it fits no other.
pub execute_op_of-mem :
    (q : Row ExecuteOp) (instr : ℕ)
    → instr < 2 ^ 16
    → Memᴰ q execute_rows
    → fits q instr ≡ true
    → execute_op_of instr ≡ some q.action
unfolding execute_op_of
execute_op_of-mem q instr h m f = first_fit-mem execute_rows q instr h rows_differ m f
