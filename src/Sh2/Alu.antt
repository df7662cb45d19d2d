-- ===== src/Sh2/Alu.antt =====
-- The branches of `execute_instruction` in src/cpu/sh2_core.cpp that compute: each changes registers and
-- flags, and then `pc_ += 2`, which Execute.antt adds.
use saturnis.Base.{
  ℕ, ◌+◌, ◌*◌, ◌/◌, ◌^◌, Bool, true, false, not, ◌||◌, bit_and, bit_or, bit_xor, ltb, leb, ◌==◌,
  if◌then◌else◌,
}
use saturnis.Base.Integer.{pos, ltb_ℤ}
use saturnis.Base.Word.{u32, not32, shl32}
use saturnis.Decode.{field_n, field_m, field_imm8}
use saturnis.Sh2.{
  Sh2Core, reg, write_reg, t_flag, set_t_flag, q_flag, set_q_flag, m_flag, set_m_flag, sr_t_bit,
  sr_q_bit, sr_m_bit, u32_add, u32_sub, u32_add_i32, signed, cast32, cast64, signext8, mul_ℤ,
  top_bit, add_overflow, sub_overflow, bit_of,
}

-- NOP, SETT, DIV0U, CLRT, MOVT, CMP/EQ, CMP/EQ #imm and TST.
pub data FlagOp : Type 0 where
  nop sett div0u clrt movt cmp_eq cmp_eq_imm tst : FlagOp

unfoldable pub execute_flag : FlagOp → ℕ → Sh2Core → Sh2Core
execute_flag nop instr c = c
execute_flag sett instr c = set_t_flag c true
execute_flag div0u instr c = record c {
  sr = bit_and c.sr (not32 (bit_or (bit_or sr_q_bit sr_m_bit) sr_t_bit));
}
execute_flag clrt instr c = set_t_flag c false
execute_flag movt instr c = write_reg c (field_n instr) (bit_of (t_flag c))
execute_flag cmp_eq instr c = set_t_flag c (reg c (field_n instr) == reg c (field_m instr))
execute_flag cmp_eq_imm instr c = set_t_flag c (reg c 0 == cast32 (signext8 instr))
execute_flag tst instr c =
    set_t_flag c (bit_and (reg c (field_n instr)) (reg c (field_m instr)) == 0)

-- MOV #imm, ADD #imm, ADD, ADDC, ADDV, MOV, AND, XOR and OR.
pub data SumOp : Type 0 where
  mov_imm add_imm add_reg addc addv mov_reg and_reg xor_reg or_reg : SumOp

unfoldable pub execute_sum : SumOp → ℕ → Sh2Core → Sh2Core
execute_sum mov_imm instr c = write_reg c (field_n instr) (cast32 (signext8 instr))
execute_sum add_imm instr c =
    write_reg c (field_n instr) (u32_add_i32 (reg c (field_n instr)) (signext8 instr))
execute_sum add_reg instr c =
    write_reg c (field_n instr) (u32_add (reg c (field_n instr)) (reg c (field_m instr)))
execute_sum addc instr c =
    let sum = reg c (field_n instr) + reg c (field_m instr) + bit_of (t_flag c) in
    write_reg (set_t_flag c (not (sum / 2 ^ 32 == 0))) (field_n instr) (u32 sum)
execute_sum addv instr c =
    let lhs = reg c (field_n instr) in
    let rhs = reg c (field_m instr) in
    let out = u32_add lhs rhs in
    write_reg (set_t_flag c (add_overflow lhs rhs out)) (field_n instr) out
execute_sum mov_reg instr c = write_reg c (field_n instr) (reg c (field_m instr))
execute_sum and_reg instr c =
    write_reg c (field_n instr) (bit_and (reg c (field_n instr)) (reg c (field_m instr)))
execute_sum xor_reg instr c =
    write_reg c (field_n instr) (bit_xor (reg c (field_n instr)) (reg c (field_m instr)))
execute_sum or_reg instr c =
    write_reg c (field_n instr) (bit_or (reg c (field_n instr)) (reg c (field_m instr)))

-- MULU.W, MULS.W, DIV0S, NOT, NEGC, NEG, EXTU.B, EXTU.W, EXTS.B and EXTS.W.
pub data UnaryOp : Type 0 where
  mulu_w muls_w div0s not_reg negc neg_reg extu_b extu_w exts_b exts_w : UnaryOp

unfoldable pub execute_unary : UnaryOp → ℕ → Sh2Core → Sh2Core
execute_unary mulu_w instr c = record c {
  macl = u32 (bit_and (reg c (field_n instr)) 0xFFFF * bit_and (reg c (field_m instr)) 0xFFFF);
}
execute_unary muls_w instr c = record c {
  macl = cast32 (
      mul_ℤ (signed 16 (bit_and (reg c (field_n instr)) 0xFFFF))
        (signed 16 (bit_and (reg c (field_m instr)) 0xFFFF)));
}
execute_unary div0s instr c =
    let d =
      set_m_flag (set_q_flag c (top_bit (reg c (field_n instr))))
        (top_bit (reg c (field_m instr))) in
    set_t_flag d (if q_flag d then m_flag d else not (m_flag d))
execute_unary not_reg instr c = write_reg c (field_n instr) (not32 (reg c (field_m instr)))
execute_unary negc instr c =
    let rhs = u32_add (reg c (field_m instr)) (bit_of (t_flag c)) in
    write_reg (set_t_flag c (not (rhs == 0))) (field_n instr) (u32_sub 0 rhs)
execute_unary neg_reg instr c = write_reg c (field_n instr) (u32_sub 0 (reg c (field_m instr)))
execute_unary extu_b instr c = write_reg c (field_n instr) (bit_and (reg c (field_m instr)) 0xFF)
execute_unary extu_w instr c = write_reg c (field_n instr) (bit_and (reg c (field_m instr)) 0xFFFF)
execute_unary exts_b instr c =
    write_reg c (field_n instr) (cast32 (signed 8 (bit_and (reg c (field_m instr)) 0xFF)))
execute_unary exts_w instr c =
    write_reg c (field_n instr) (cast32 (signed 16 (bit_and (reg c (field_m instr)) 0xFFFF)))

-- SUB, SUBC, SUBV, DMULS.L, DMULU.L and DIV1.
pub data DifferenceOp : Type 0 where
  sub_reg subc subv dmuls dmulu div1 : DifferenceOp

-- The new Rn and Q of DIV1, from the shifted Rn, Rm and the old Q and M.
unfoldable pub div1_step : ℕ → ℕ → Bool → Bool → ℕ × Bool
div1_step shifted rm old_q m_status =
    if not old_q
    then (if not m_status
        then (u32_sub shifted rm, ltb shifted (u32_sub shifted rm))
        else (u32_add shifted rm, ltb (u32_add shifted rm) shifted))
    else if not m_status
    then (u32_add shifted rm, ltb (u32_add shifted rm) shifted)
    else (u32_sub shifted rm, ltb shifted (u32_sub shifted rm))

abbrev pub same_bit : Bool → Bool → Bool
same_bit a b = if a then b else not b

unfoldable pub execute_div1 : ℕ → Sh2Core → Sh2Core
execute_div1 instr c =
    let shifted = bit_or (shl32 (reg c (field_n instr)) 1) (bit_of (t_flag c)) in
    let (rn, new_q) = div1_step shifted (reg c (field_m instr)) (q_flag c) (m_flag c) in
    write_reg (set_t_flag (set_q_flag c new_q) (same_bit new_q (m_flag c))) (field_n instr) rn

unfoldable pub execute_difference : DifferenceOp → ℕ → Sh2Core → Sh2Core
execute_difference sub_reg instr c =
    write_reg c (field_n instr) (u32_sub (reg c (field_n instr)) (reg c (field_m instr)))
execute_difference subc instr c =
    let lhs = reg c (field_n instr) in
    let rhs = u32_add (reg c (field_m instr)) (bit_of (t_flag c)) in
    write_reg (set_t_flag c (ltb lhs rhs)) (field_n instr) (u32_sub lhs rhs)
execute_difference subv instr c =
    let lhs = reg c (field_n instr) in
    let rhs = reg c (field_m instr) in
    let out = u32_sub lhs rhs in
    write_reg (set_t_flag c (sub_overflow lhs rhs out)) (field_n instr) out
execute_difference dmuls instr c =
    let prod =
      cast64 (mul_ℤ (signed 32 (reg c (field_n instr))) (signed 32 (reg c (field_m instr)))) in
    record c { mach = u32 (prod / 2 ^ 32); macl = u32 prod }
execute_difference dmulu instr c =
    let prod = reg c (field_n instr) * reg c (field_m instr) in
    record c { mach = u32 (prod / 2 ^ 32); macl = u32 prod }
execute_difference div1 instr c = execute_div1 instr c

-- CMP/HS, GE, HI, GT, PL, PZ and STR, and AND, XOR and OR #imm,R0.
pub data CompareOp : Type 0 where
  cmp_hs cmp_ge cmp_hi cmp_gt cmp_pl cmp_pz cmp_str and_imm xor_imm or_imm : CompareOp

unfoldable pub execute_compare : CompareOp → ℕ → Sh2Core → Sh2Core
execute_compare cmp_hs instr c = set_t_flag c (leb (reg c (field_m instr)) (reg c (field_n instr)))
execute_compare cmp_ge instr c =
    set_t_flag c
      (not (ltb_ℤ (signed 32 (reg c (field_n instr))) (signed 32 (reg c (field_m instr)))))
execute_compare cmp_hi instr c = set_t_flag c (ltb (reg c (field_m instr)) (reg c (field_n instr)))
execute_compare cmp_gt instr c =
    set_t_flag c (ltb_ℤ (signed 32 (reg c (field_m instr))) (signed 32 (reg c (field_n instr))))
execute_compare cmp_pl instr c = set_t_flag c (ltb_ℤ (pos 0) (signed 32 (reg c (field_n instr))))
execute_compare cmp_pz instr c =
    set_t_flag c (not (ltb_ℤ (signed 32 (reg c (field_n instr))) (pos 0)))
execute_compare cmp_str instr c =
    let x = bit_xor (reg c (field_n instr)) (reg c (field_m instr)) in
    set_t_flag c (
      bit_and x 0xFF == 0
      || bit_and x 0xFF00 == 0
      || bit_and x 0xFF_0000 == 0
      || bit_and x 0xFF00_0000 == 0)
execute_compare and_imm instr c = write_reg c 0 (bit_and (reg c 0) (field_imm8 instr))
execute_compare xor_imm instr c = write_reg c 0 (bit_xor (reg c 0) (field_imm8 instr))
execute_compare or_imm instr c = write_reg c 0 (bit_or (reg c 0) (field_imm8 instr))
