-- ===== src/Sh2/Produce/Accesses.antt =====
-- The memory accesses that `produce_until_bus` of src/cpu/sh2_core.cpp begins by itself.
use saturnis.Base.{ℕ, ◌+◌, ◌*◌, Bool, false, some, List, [], ◌∷◌, bit_and, if◌then◌else◌}
use saturnis.Base.Word.{u32, not32}
use saturnis.Mem.{to_phys, is_mmio}
use saturnis.Bus.Op.{BusKind, read, write, mmio_read, mmio_write, BusOp, auto}
use saturnis.Decode.{field_n, field_m, field_imm8, field_disp4}
use saturnis.Sh2.{
  Sh2Core, mem_op, MemKind, read_long, write_long, read_word, write_word, read_byte, write_byte,
  rmw_and_byte_read, rmw_xor_byte_read, rmw_or_byte_read, reg, write_reg, u32_add, u32_sub,
}
use saturnis.Sh2.Rows.{Row, row}
use saturnis.Sh2.Transfer.{
  SystemReg, pr_reg, sr_reg, gbr_reg, vbr_reg, mach_reg, macl_reg, push_system, pop_system,
}

unfoldable pub data_access_kind : ℕ → Bool → BusKind
data_access_kind phys_addr is_write =
    if is_mmio phys_addr
    then (if is_write then mmio_write else mmio_read)
    else if is_write
    then write
    else read

-- `bus::BusOp{cpu_id_, t_, seq, kind, phys_addr, size, value}`.
abbrev pub core_op : Sh2Core → ℕ → BusKind → ℕ → ℕ → ℕ → BusOp
core_op c seq kind phys_addr size value = record {
  cpu_id = c.cpu_id;
  req_time = c.t;
  sequence = seq;
  kind = kind;
  phys_addr = phys_addr;
  size = size;
  data_word = value;
  fill_cache_line = false;
  cache_line_size = 0;
  producer = auto;
  producer_token = 0;
}

pub data Width : Type 0 where
  byte_width word_width long_width : Width

abbrev pub size_of : Width → ℕ
size_of byte_width = 1
size_of word_width = 2
size_of long_width = 4

abbrev pub read_kind : Width → MemKind
read_kind byte_width = read_byte
read_kind word_width = read_word
read_kind long_width = read_long

abbrev pub write_kind : Width → MemKind
write_kind byte_width = write_byte
write_kind word_width = write_word
write_kind long_width = write_long

abbrev pub cut : Width → ℕ → ℕ
cut byte_width value = bit_and value 0xFF
cut word_width value = bit_and value 0xFFFF
cut long_width value = value

-- Where an access goes: to @Rm, @Rn, with a displacement in the low four bits, or in the next four, to
-- @(R0,Rm), @(R0,Rn), or relative to GBR or `pc`.
pub data Address : Type 0 where
  at_rm at_rn at_rm_disp at_rn_disp at_rn_high_disp at_r0_rm at_r0_rn at_gbr at_pc : Address

-- `pc_ + 4`, aligned for a long.
abbrev pub pc_base : Width → Sh2Core → ℕ
pc_base byte_width c = u32_add c.pc 4
pc_base word_width c = u32_add c.pc 4
pc_base long_width c = bit_and (u32_add c.pc 4) (not32 3)

unfoldable pub address : Address → Width → ℕ → Sh2Core → ℕ
address at_rm w instr c = reg c (field_m instr)
address at_rn w instr c = reg c (field_n instr)
address at_rm_disp w instr c = u32 (reg c (field_m instr) + field_disp4 instr * size_of w)
address at_rn_disp w instr c = u32 (reg c (field_n instr) + field_disp4 instr * size_of w)
address at_rn_high_disp w instr c = u32 (reg c (field_n instr) + field_m instr * size_of w)
address at_r0_rm w instr c = u32 (reg c 0 + reg c (field_m instr))
address at_r0_rn w instr c = u32 (reg c 0 + reg c (field_n instr))
address at_gbr w instr c = u32 (c.gbr + field_imm8 instr * size_of w)
address at_pc w instr c = u32 (pc_base w c + field_imm8 instr * size_of w)

-- The accesses: loads to Rn or R0, with or without an increment of Rm; stores of Rm or R0, with or without
-- a decrement of Rn; the system registers' stack forms; and a byte's read that a write follows.
pub data MemAction : Type 0 where
  load_rn load_r0 store_rm store_r0 : Width → Address → MemAction
  load_inc store_dec : Width → MemAction
  push_system_reg pop_system_reg : SystemReg → MemAction
  read_modify : MemKind → MemAction

-- The tests before `execute_instruction`, in the order of the source.
unfoldable pub memory_rows : List (Row MemAction)
memory_rows =
    row 0xF00F 0x6000 (load_rn byte_width at_rm)
    ∷ row 0xF000 0x5000 (load_rn long_width at_rm_disp)
    ∷ row 0xF000 0x1000 (store_rm long_width at_rn_disp)
    ∷ row 0xF0FF 0x4022 (push_system_reg pr_reg)
    ∷ row 0xF0FF 0x4003 (push_system_reg sr_reg)
    ∷ row 0xF0FF 0x4013 (push_system_reg gbr_reg)
    ∷ row 0xF0FF 0x4023 (push_system_reg vbr_reg)
    ∷ row 0xF0FF 0x4002 (push_system_reg mach_reg)
    ∷ row 0xF0FF 0x4012 (push_system_reg macl_reg)
    ∷ row 0xF0FF 0x4026 (pop_system_reg pr_reg)
    ∷ row 0xF0FF 0x4007 (pop_system_reg sr_reg)
    ∷ row 0xF0FF 0x4017 (pop_system_reg gbr_reg)
    ∷ row 0xF0FF 0x4027 (pop_system_reg vbr_reg)
    ∷ row 0xF0FF 0x4006 (pop_system_reg mach_reg)
    ∷ row 0xF0FF 0x4016 (pop_system_reg macl_reg)
    ∷ row 0xFF00 0x8500 (load_r0 word_width at_rm_disp)
    ∷ row 0xFF00 0x8400 (load_r0 byte_width at_rm_disp)
    ∷ row 0xF00F 0x6001 (load_rn word_width at_rm)
    ∷ row 0xF00F 0x000C (load_rn byte_width at_r0_rm)
    ∷ row 0xF00F 0x000D (load_rn word_width at_r0_rm)
    ∷ row 0xF00F 0x000E (load_rn long_width at_r0_rm)
    ∷ row 0xF000 0x9000 (load_rn word_width at_pc)
    ∷ row 0xFF00 0xC400 (load_r0 byte_width at_gbr)
    ∷ row 0xFF00 0xC500 (load_r0 word_width at_gbr)
    ∷ row 0xFF00 0xC600 (load_r0 long_width at_gbr)
    ∷ row 0xF000 0xD000 (load_rn long_width at_pc)
    ∷ row 0xF00F 0x6002 (load_rn long_width at_rm)
    ∷ row 0xF00F 0x6004 (load_inc byte_width)
    ∷ row 0xF00F 0x6005 (load_inc word_width)
    ∷ row 0xF00F 0x6006 (load_inc long_width)
    ∷ row 0xF00F 0x2000 (store_rm byte_width at_rn)
    ∷ row 0xF00F 0x0004 (store_rm byte_width at_r0_rn)
    ∷ row 0xF00F 0x0005 (store_rm word_width at_r0_rn)
    ∷ row 0xF00F 0x0006 (store_rm long_width at_r0_rn)
    ∷ row 0xFF00 0xC000 (store_r0 byte_width at_gbr)
    ∷ row 0xFF00 0xC100 (store_r0 word_width at_gbr)
    ∷ row 0xFF00 0xC200 (store_r0 long_width at_gbr)
    ∷ row 0xF00F 0x8001 (store_r0 word_width at_rn_high_disp)
    ∷ row 0xFF00 0x8100 (store_r0 word_width at_rm_disp)
    ∷ row 0xF00F 0x8000 (store_r0 byte_width at_rn_high_disp)
    ∷ row 0xFF00 0x8000 (store_r0 byte_width at_rm_disp)
    ∷ row 0xF00F 0x2004 (store_dec byte_width)
    ∷ row 0xF00F 0x2005 (store_dec word_width)
    ∷ row 0xF00F 0x2006 (store_dec long_width)
    ∷ row 0xFF00 0xCC00 (read_modify rmw_and_byte_read)
    ∷ row 0xFF00 0xCE00 (read_modify rmw_xor_byte_read)
    ∷ row 0xFF00 0xCF00 (read_modify rmw_or_byte_read)
    ∷ row 0xF00F 0x2001 (store_rm word_width at_rn)
    ∷ row 0xF00F 0x2002 (store_rm long_width at_rn)
    ∷ []

-- The core with the access that the action leaves pending.
unfoldable pub begin_access : MemAction → ℕ → Sh2Core → Sh2Core
begin_access (load_rn w a) instr c = record c {
  pending_mem_op =
      some (mem_op (read_kind w) (to_phys (address a w instr c)) (size_of w) 0 (field_n instr));
}
begin_access (load_r0 w a) instr c = record c {
  pending_mem_op = some (mem_op (read_kind w) (to_phys (address a w instr c)) (size_of w) 0 0);
}
begin_access (store_rm w a) instr c = record c {
  pending_mem_op = some (
      mem_op (write_kind w) (to_phys (address a w instr c)) (size_of w)
        (cut w (reg c (field_m instr))) 0);
}
begin_access (store_r0 w a) instr c = record c {
  pending_mem_op =
      some (mem_op (write_kind w) (to_phys (address a w instr c)) (size_of w) (cut w (reg c 0)) 0);
}
begin_access (load_inc w) instr c = record c {
  pending_mem_op =
      some
        (record (mem_op (read_kind w) (to_phys (reg c (field_m instr))) (size_of w) 0
          (field_n instr)) {
            post_inc_reg = some (field_m instr);
            post_inc_size = size_of w;
            post_inc_base_before = reg c (field_m instr);
          });
}
begin_access (store_dec w) instr c =
    let d = write_reg c (field_n instr) (u32_sub (reg c (field_n instr)) (size_of w)) in
    record d {
      pending_mem_op = some (
          mem_op (write_kind w) (to_phys (reg d (field_n instr))) (size_of w)
            (cut w (reg d (field_m instr))) 0);
    }
begin_access (push_system_reg s) instr c = push_system s instr c
begin_access (pop_system_reg s) instr c = pop_system s instr c
begin_access (read_modify kind) instr c = record c {
  pending_mem_op =
      some
        (record (mem_op kind (to_phys (u32 (c.gbr + reg c 0))) 1 0 0) { aux = field_imm8 instr });
}
