-- ===== src/Sh2.antt =====
-- src/cpu/sh2_core.hpp and sh2_core.cpp: the SH-2 core. This file has its state; `execute_instruction` is in
-- Sh2/Execute.antt, `produce_until_bus` in Sh2/Produce.antt and the rest in Sh2/Apply.antt.
mod Words
pub mod Rows
pub mod Alu
pub mod Transfer
pub mod Execute
pub mod Produce
pub mod Apply
mod Flags
mod Branches
mod Slots
mod Exceptions
mod Returns
mod Stack
mod Pushes
mod Ahead
mod Fetches
mod Carries
mod Products
mod Committed
mod Tests
use saturnis.Base.{
  ℕ, ◌+◌, Bool, true, false, not, Option, none, some, List, bit_and, bit_or, ◌==◌, if◌then◌else◌,
  get_or, set, replicate,
}
use saturnis.Base.Integer.{ℤ}
use saturnis.Base.Word.{u32, u64, not32}
use saturnis.Mem.{TinyCache, new_cache}
use saturnis.Trace.{TraceLog, add_state}
unfoldable pub use Words.*

-- `PendingMemOp::Kind`.
pub data MemKind : Type 0 where
  read_long write_long read_word write_word read_byte write_byte : MemKind
  exception_push_sr exception_push_pc exception_vector_read : MemKind
  trapa_push_sr trapa_push_pc trapa_vector_read : MemKind
  rte_pop_pc rte_pop_sr : MemKind
  rmw_and_byte_read rmw_xor_byte_read rmw_or_byte_read rmw_write_byte : MemKind

pub record PendingMemOp : Type 0 where
  pub kind : MemKind
  pub phys_addr : ℕ
  pub size : ℕ
  pub value : ℕ
  pub dst_reg : ℕ
  pub post_inc_reg : Option ℕ
  pub post_inc_size : ℕ
  pub post_inc_base_before : ℕ
  pub aux : ℕ

-- `PendingMemOp{kind, phys_addr, size, value, dst_reg, std::nullopt, 0, 0}`.
abbrev pub mem_op : MemKind → ℕ → ℕ → ℕ → ℕ → PendingMemOp
mem_op kind phys_addr size value dst_reg = record {
  kind = kind;
  phys_addr = phys_addr;
  size = size;
  value = value;
  dst_reg = dst_reg;
  post_inc_reg = none;
  post_inc_size = 0;
  post_inc_base_before = 0;
  aux = 0;
}

pub record Sh2Core : Type 0 where
  pub cpu_id : ℤ
  pub pc : ℕ
  pub sr : ℕ
  pub pr : ℕ
  pub gbr : ℕ
  pub vbr : ℕ
  pub mach : ℕ
  pub macl : ℕ
  pub r : List ℕ
  pub t : ℕ
  pub executed : ℕ
  pub pending_mem_op : Option PendingMemOp
  pub pending_branch_target : Option ℕ
  pub pending_exception_vector : Option ℕ
  pub exception_return_pc : ℕ
  pub exception_return_sr : ℕ
  pub has_exception_return_context : Bool
  pub pending_new_pc : ℕ
  pub pending_new_sr : ℕ
  pub pending_rte_restore : Bool
  pub pending_trapa_imm : Option ℕ
  pub icache : TinyCache

unfoldable pub new_sh2_core : ℤ → Sh2Core
new_sh2_core cpu_id = record {
  cpu_id = cpu_id;
  pc = 0;
  sr = 0;
  pr = 0;
  gbr = 0;
  vbr = 0;
  mach = 0;
  macl = 0;
  r = replicate 16 0;
  t = 0;
  executed = 0;
  pending_mem_op = none;
  pending_branch_target = none;
  pending_exception_vector = none;
  exception_return_pc = 0;
  exception_return_sr = 0;
  has_exception_return_context = false;
  pending_new_pc = 0;
  pending_new_sr = 0;
  pending_rte_restore = false;
  pending_trapa_imm = none;
  icache = new_cache 16 64;
}

-- `reset` leaves the other registers and the instruction cache as they are.
unfoldable pub reset : Sh2Core → ℕ → ℕ → Sh2Core
reset c pc sp = record c {
  pc = pc;
  r = set c.r 15 sp;
  sr = 0xF0;
  pr = 0;
  gbr = 0;
  vbr = 0;
  mach = 0;
  macl = 0;
  t = 0;
  executed = 0;
  pending_mem_op = none;
  pending_branch_target = none;
  pending_exception_vector = none;
  exception_return_pc = 0;
  exception_return_sr = 0;
  has_exception_return_context = false;
  pending_new_pc = 0;
  pending_new_sr = 0;
  pending_rte_restore = false;
  pending_trapa_imm = none;
}

-- `r_[n]`, and `write_reg`.
abbrev pub reg : Sh2Core → ℕ → ℕ
reg c n = get_or c.r n 0

abbrev pub write_reg : Sh2Core → ℕ → ℕ → Sh2Core
write_reg c n value = record c { r = set c.r n value }

-- A bit of the status register, read and written.
unfoldable pub flag : ℕ → ℕ → Bool
flag mask sr = not (bit_and sr mask == 0)

unfoldable pub with_flag : ℕ → ℕ → Bool → ℕ
with_flag mask sr value = if value then bit_or sr mask else bit_and sr (not32 mask)

abbrev pub sr_t_bit : ℕ
sr_t_bit = 0x001

abbrev pub sr_q_bit : ℕ
sr_q_bit = 0x100

abbrev pub sr_m_bit : ℕ
sr_m_bit = 0x200

abbrev pub t_flag : Sh2Core → Bool
t_flag c = flag sr_t_bit c.sr

abbrev pub set_t_flag : Sh2Core → Bool → Sh2Core
set_t_flag c value = record c { sr = with_flag sr_t_bit c.sr value }

abbrev pub q_flag : Sh2Core → Bool
q_flag c = flag sr_q_bit c.sr

abbrev pub set_q_flag : Sh2Core → Bool → Sh2Core
set_q_flag c value = record c { sr = with_flag sr_q_bit c.sr value }

abbrev pub m_flag : Sh2Core → Bool
m_flag c = flag sr_m_bit c.sr

abbrev pub set_m_flag : Sh2Core → Bool → Sh2Core
set_m_flag c value = record c { sr = with_flag sr_m_bit c.sr value }

-- `pc_ += 2U`.
abbrev pub advance : Sh2Core → Sh2Core
advance c = record c { pc = u32 (c.pc + 2) }

-- `t_ += 1; ++executed_; trace.add_state(...)`, which ends every instruction and every bus step.
unfoldable pub retire_step : Sh2Core → TraceLog → Sh2Core × TraceLog
retire_step c trace =
    let d = record c { t = u64 (c.t + 1); executed = u64 (c.executed + 1) } in
    (d, add_state trace (record { t = d.t; cpu = d.cpu_id; pc = d.pc; sr = d.sr; r = d.r }))

abbrev pub request_exception_vector : Sh2Core → ℕ → Sh2Core
request_exception_vector c vector = record c { pending_exception_vector = some vector }

abbrev pub set_pr : Sh2Core → ℕ → Sh2Core
set_pr c value = record c { pr = value }
