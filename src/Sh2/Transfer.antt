-- ===== src/Sh2/Transfer.antt =====
-- The branches of `execute_instruction` in src/cpu/sh2_core.cpp for system registers and shifts; each is
-- followed by `pc_ += 2`, which Execute.antt adds.
use saturnis.Base.{ℕ, ◌+◌, ◌*◌, not, some, bit_and, bit_or, ◌==◌, if◌then◌else◌}
use saturnis.Base.Word.{u32, u64, not32, shl32, shr}
use saturnis.Mem.{to_phys}
use saturnis.Decode.{field_n, field_m, field_imm8}
use saturnis.Sh2.{
  Sh2Core, mem_op, read_long, write_long, reg, write_reg, t_flag, set_t_flag, u32_add, u32_sub,
  signed, cast64, mul_ℤ, top_bit, bit_of, arithmetic_shift,
}

-- STC GBR and VBR, LDC GBR and SR, STC SR, LDC VBR, STS MACL and MACH, LDS MACL and MACH, MUL.L and MOVA.
pub data TransferOp : Type 0 where
  stc_gbr stc_vbr ldc_gbr ldc_sr stc_sr ldc_vbr sts_macl sts_mach lds_macl lds_mach mul_l mova :
      TransferOp

unfoldable pub execute_transfer : TransferOp → ℕ → Sh2Core → Sh2Core
execute_transfer stc_gbr instr c = write_reg c (field_n instr) c.gbr
execute_transfer stc_vbr instr c = write_reg c (field_n instr) c.vbr
execute_transfer ldc_gbr instr c = record c { gbr = reg c (field_n instr) }
execute_transfer ldc_sr instr c = record c { sr = reg c (field_n instr) }
execute_transfer stc_sr instr c = write_reg c (field_n instr) c.sr
execute_transfer ldc_vbr instr c = record c { vbr = reg c (field_n instr) }
execute_transfer sts_macl instr c = write_reg c (field_n instr) c.macl
execute_transfer sts_mach instr c = write_reg c (field_n instr) c.mach
execute_transfer lds_macl instr c = record c { macl = reg c (field_n instr) }
execute_transfer lds_mach instr c = record c { mach = reg c (field_n instr) }
execute_transfer mul_l instr c = record c {
  macl =
      u32 (cast64 (mul_ℤ (signed 32 (reg c (field_n instr))) (signed 32 (reg c (field_m instr)))));
  t = u64 (c.t + 1);
}
execute_transfer mova instr c =
    write_reg c 0 (u32 (bit_and (u32_add c.pc 4) (not32 3) + field_imm8 instr * 4))

-- The system registers that are stored to and loaded from a stack.
pub data SystemReg : Type 0 where
  pr_reg sr_reg gbr_reg vbr_reg mach_reg macl_reg : SystemReg

abbrev pub system_value : SystemReg → Sh2Core → ℕ
system_value pr_reg c = c.pr
system_value sr_reg c = c.sr
system_value gbr_reg c = c.gbr
system_value vbr_reg c = c.vbr
system_value mach_reg c = c.mach
system_value macl_reg c = c.macl

-- `kLoadAuxPr` to `kLoadAuxMacl`.
abbrev pub load_aux : SystemReg → ℕ
load_aux pr_reg = 1
load_aux sr_reg = 2
load_aux gbr_reg = 3
load_aux vbr_reg = 4
load_aux mach_reg = 5
load_aux macl_reg = 6

-- STC.L and STS.L to @-Rn: the register is decremented at once and the write is left pending.
unfoldable pub push_system : SystemReg → ℕ → Sh2Core → Sh2Core
push_system s instr c =
    let sp = u32_sub (reg c (field_n instr)) 4 in
    let d = write_reg c (field_n instr) sp in
    record d { pending_mem_op = some (mem_op write_long (to_phys sp) 4 (system_value s d) 0) }

-- LDC.L and LDS.L from @Rm+: the read is left pending, with the register that it increments.
unfoldable pub pop_system : SystemReg → ℕ → Sh2Core → Sh2Core
pop_system s instr c =
    let rm = reg c (field_n instr) in
    record c {
      pending_mem_op = some (record (mem_op read_long (to_phys rm) 4 0 0) {
        post_inc_reg = some (field_n instr);
        post_inc_size = 4;
        post_inc_base_before = rm;
        aux = load_aux s;
      });
    }

-- SHLL, SHLR, ROTL, SHLL2/8/16, SHLR2/8/16, SHAL, SHAR, ROTCL, ROTCR, SHAD and SHLD.
pub data ShiftOp : Type 0 where
  shll shlr rotl shal shar rotcl rotcr shad shld : ShiftOp
  shll_by shlr_by : ℕ → ShiftOp

-- The shift by a signed count: to the left, or to the right by `right`.
unfoldable pub dynamic_shift : (ℕ → ℕ → ℕ) → ℕ → ℕ → ℕ
dynamic_shift right rn rm =
    if not (top_bit rm) then shl32 rn (bit_and rm 0x1F) else right rn (bit_and (u32_sub 0 rm) 0x1F)

unfoldable pub execute_shift : ShiftOp → ℕ → Sh2Core → Sh2Core
execute_shift shll instr c =
    let rn = reg c (field_n instr) in
    write_reg (set_t_flag c (top_bit rn)) (field_n instr) (shl32 rn 1)
execute_shift shlr instr c =
    let rn = reg c (field_n instr) in
    write_reg (set_t_flag c (not (bit_and rn 1 == 0))) (field_n instr) (shr rn 1)
execute_shift rotl instr c =
    let rn = reg c (field_n instr) in
    write_reg (set_t_flag c (top_bit rn)) (field_n instr)
      (bit_or (shl32 rn 1) (bit_of (top_bit rn)))
execute_shift (shll_by sh) instr c = write_reg c (field_n instr) (shl32 (reg c (field_n instr)) sh)
execute_shift (shlr_by sh) instr c = write_reg c (field_n instr) (shr (reg c (field_n instr)) sh)
execute_shift shal instr c =
    let rn = reg c (field_n instr) in
    write_reg (set_t_flag c (top_bit rn)) (field_n instr) (shl32 rn 1)
execute_shift shar instr c =
    let rn = reg c (field_n instr) in
    write_reg (set_t_flag c (not (bit_and rn 1 == 0))) (field_n instr) (arithmetic_shift rn 1)
execute_shift rotcl instr c =
    let rn = reg c (field_n instr) in
    write_reg (set_t_flag c (top_bit rn)) (field_n instr) (bit_or (shl32 rn 1) (bit_of (t_flag c)))
execute_shift rotcr instr c =
    let rn = reg c (field_n instr) in
    write_reg (set_t_flag c (not (bit_and rn 1 == 0))) (field_n instr)
      (bit_or (shr rn 1) (if t_flag c then 0x8000_0000 else 0))
execute_shift shad instr c =
    write_reg c (field_n instr)
      (dynamic_shift arithmetic_shift (reg c (field_n instr)) (reg c (field_m instr)))
execute_shift shld instr c =
    write_reg c (field_n instr) (dynamic_shift shr (reg c (field_n instr)) (reg c (field_m instr)))
