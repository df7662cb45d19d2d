-- ===== src/Decode.antt =====
-- src/cpu/sh2_decode.hpp and sh2_decode.cpp: the families of SH-2 instruction words. An instruction is a
-- 16-bit number, and a family's name a constructor.
pub mod Families
mod Tests
use saturnis.Base.{
  ℕ, ◌+◌, ◌/◌, ◌^◌, Bool, Option, none, some, List, [], ◌∷◌, bit_and, ◌==◌, if◌then◌else◌,
}

pub data Family : Type 0 where
  bra_disp12 bsr_disp12 jsr_at_rn jmp_at_rn rts bt bf bt_s bf_s trapa_imm rte ldc_rm_sr stc_sr_rn :
      Family
  sts_l_pr_predec_rn lds_l_postinc_rm_pr mov_w_at_disp_pc_rn mov_l_at_disp_pc_rn : Family
  mova_at_disp_pc_r0 mov_b_at_r0_rm_rn mov_w_at_r0_rm_rn mov_l_at_r0_rm_rn mov_b_rm_at_r0_rn :
      Family
  mov_w_rm_at_r0_rn mov_l_rm_at_r0_rn mov_b_at_disp_gbr_r0 mov_w_at_disp_gbr_r0 : Family
  mov_l_at_disp_gbr_r0 mov_b_r0_at_disp_gbr mov_w_r0_at_disp_gbr mov_l_r0_at_disp_gbr : Family

pub record OpcodePattern : Type 0 where
  pub mask : ℕ
  pub value : ℕ
  pub family : Family

abbrev pub pattern : ℕ → ℕ → Family → OpcodePattern
pattern mask value family = record { mask = mask; value = value; family = family }

unfoldable pub patterns : List OpcodePattern
patterns =
    pattern 0xF000 0xA000 bra_disp12
    ∷ pattern 0xF000 0xB000 bsr_disp12
    ∷ pattern 0xF0FF 0x400B jsr_at_rn
    ∷ pattern 0xF0FF 0x402B jmp_at_rn
    ∷ pattern 0xFFFF 0x000B rts
    ∷ pattern 0xFF00 0x8900 bt
    ∷ pattern 0xFF00 0x8B00 bf
    ∷ pattern 0xFF00 0x8D00 bt_s
    ∷ pattern 0xFF00 0x8F00 bf_s
    ∷ pattern 0xFF00 0xC300 trapa_imm
    ∷ pattern 0xFFFF 0x002B rte
    ∷ pattern 0xF0FF 0x400E ldc_rm_sr
    ∷ pattern 0xF0FF 0x0002 stc_sr_rn
    ∷ pattern 0xF0FF 0x4022 sts_l_pr_predec_rn
    ∷ pattern 0xF0FF 0x4026 lds_l_postinc_rm_pr
    ∷ pattern 0xF000 0x9000 mov_w_at_disp_pc_rn
    ∷ pattern 0xF000 0xD000 mov_l_at_disp_pc_rn
    ∷ pattern 0xFF00 0xC700 mova_at_disp_pc_r0
    ∷ pattern 0xF00F 0x000C mov_b_at_r0_rm_rn
    ∷ pattern 0xF00F 0x000D mov_w_at_r0_rm_rn
    ∷ pattern 0xF00F 0x000E mov_l_at_r0_rm_rn
    ∷ pattern 0xF00F 0x0004 mov_b_rm_at_r0_rn
    ∷ pattern 0xF00F 0x0005 mov_w_rm_at_r0_rn
    ∷ pattern 0xF00F 0x0006 mov_l_rm_at_r0_rn
    ∷ pattern 0xFF00 0xC400 mov_b_at_disp_gbr_r0
    ∷ pattern 0xFF00 0xC500 mov_w_at_disp_gbr_r0
    ∷ pattern 0xFF00 0xC600 mov_l_at_disp_gbr_r0
    ∷ pattern 0xFF00 0xC000 mov_b_r0_at_disp_gbr
    ∷ pattern 0xFF00 0xC100 mov_w_r0_at_disp_gbr
    ∷ pattern 0xFF00 0xC200 mov_l_r0_at_disp_gbr
    ∷ []

abbrev pub matches : OpcodePattern → ℕ → Bool
matches p instr = bit_and instr p.mask == p.value

unfoldable pub family_in : List OpcodePattern → ℕ → Option Family
family_in [] instr = none
family_in (p ∷ rest) instr = if matches p instr then some p.family else family_in rest instr

unfoldable pub decode_family : ℕ → Option Family
decode_family instr = family_in patterns instr

unfoldable pub count_in : List OpcodePattern → ℕ → ℕ
count_in [] instr = 0
count_in (p ∷ rest) instr = (if matches p instr then 1 else 0) + count_in rest instr

unfoldable pub decode_match_count : ℕ → ℕ
decode_match_count instr = count_in patterns instr

-- The fields of an instruction word.
unfoldable pub field_n : ℕ → ℕ
field_n instr = bit_and (instr / 2 ^ 8) 0x0F

unfoldable pub field_m : ℕ → ℕ
field_m instr = bit_and (instr / 2 ^ 4) 0x0F

unfoldable pub field_imm8 : ℕ → ℕ
field_imm8 instr = bit_and instr 0x00FF

unfoldable pub field_disp4 : ℕ → ℕ
field_disp4 instr = bit_and instr 0x000F

unfoldable pub field_disp12 : ℕ → ℕ
field_disp12 instr = bit_and instr 0x0FFF
