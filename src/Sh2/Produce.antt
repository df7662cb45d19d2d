-- ===== src/Sh2/Produce.antt =====
-- `produce_until_bus` and `produce_ifetch` of src/cpu/sh2_core.cpp: running ahead in the instruction cache
-- until an access needs the bus.
mod Accesses
use saturnis.Base.{
  ℕ, zero, suc, ◌+◌, ◌*◌, ◌%◌, Bool, true, false, ◌||◌, Option, none, some, List, [], ◌∷◌, bit_and,
  if◌then◌else◌,
}
use saturnis.Base.Word.{u32, u64, not32}
use saturnis.Mem.{to_phys, is_mmio, is_uncached_alias, cache_read}
use saturnis.Trace.{TraceLog, exception_entry, add_fault}
use saturnis.Bus.Op.{BusKind, ifetch, read, write, mmio_read, mmio_write, BusOp, auto}
use saturnis.Decode.{field_n, field_m, field_imm8, field_disp4}
use saturnis.Sh2.{
  Sh2Core, PendingMemOp, mem_op, MemKind, read_long, write_long, read_word, write_word, read_byte,
  write_byte, exception_push_sr, exception_push_pc, trapa_push_sr, trapa_push_pc, rmw_and_byte_read,
  rmw_xor_byte_read, rmw_or_byte_read, rmw_write_byte, reg, write_reg, u32_add, u32_sub,
}
use saturnis.Sh2.Rows.{Row, row, first_fit}
use saturnis.Sh2.Transfer.{
  SystemReg, pr_reg, sr_reg, gbr_reg, vbr_reg, mach_reg, macl_reg, push_system, pop_system,
}
use saturnis.Sh2.Execute.{execute_instruction}
unfoldable pub use Accesses.*

-- `is_write` of a pending operation.
abbrev pub writes : MemKind → Bool
writes write_byte = true
writes write_word = true
writes write_long = true
writes exception_push_sr = true
writes exception_push_pc = true
writes trapa_push_sr = true
writes trapa_push_pc = true
writes rmw_write_byte = true
writes _ = false

-- The bus operation of a pending one.
unfoldable pub op_of_pending : Sh2Core → ℕ → PendingMemOp → BusOp
op_of_pending c seq p =
    core_op c seq (data_access_kind p.phys_addr (writes p.kind)) p.phys_addr p.size p.value

pub record Sh2ProduceResult : Type 0 where
  pub op : Option BusOp
  pub executed : ℕ

-- The core, the trace and the result.
pub record Produced : Type 0 where
  pub core : Sh2Core
  pub trace : TraceLog
  pub result : Sh2ProduceResult

abbrev pub produced : Sh2Core → TraceLog → Option BusOp → ℕ → Produced
produced c trace op executed = record {
  core = c;
  trace = trace;
  result = record { op = op; executed = executed };
}

-- The operation of a core with a pending access.
abbrev pub pending_op : Sh2Core → ℕ → Option BusOp
pending_op c seq = elim c.pending_mem_op [ none ↦ none | some p ↦ some (op_of_pending c seq p) ]

abbrev pub is_uncached : ℕ → Bool
is_uncached pc = is_uncached_alias pc || is_mmio (to_phys pc)

abbrev pub miss_op : Sh2Core → ℕ → BusOp
miss_op c seq = record (core_op c seq ifetch (to_phys c.pc) 2 0) {
  fill_cache_line = true;
  cache_line_size = c.icache.line_size % 256;
}

-- The loop, with the budget that is left and the instructions executed so far.
unfoldable pub run_ahead : ℕ → ℕ → Sh2Core → TraceLog → ℕ → Produced
run_ahead zero seq c trace executed = produced c trace none executed
run_ahead (suc budget) seq c trace executed = elim (is_uncached c.pc) [
  | true ↦ produced c trace (some (core_op c seq ifetch (to_phys c.pc) 2 0)) executed
  | false ↦ elim (cache_read c.icache (to_phys c.pc) 2) [
    | none ↦ produced c trace (some (miss_op c seq)) executed
    | some cached ↦ elim (first_fit memory_rows (bit_and cached 0xFFFF)) [
      | some action ↦
          let d = begin_access action (bit_and cached 0xFFFF) c in
          produced d trace (pending_op d seq) executed
      | none ↦
          let (d, trace') = execute_instruction c (bit_and cached 0xFFFF) trace in
          run_ahead budget seq d trace' (u64 (executed + 1))
    ]
  ]
]

unfoldable pub enter_exception : Sh2Core → ℕ → Sh2Core
enter_exception c vector =
    let sp = u32_sub (reg c 15) 4 in
    record (write_reg c 15 sp) {
      pending_mem_op =
          some (record (mem_op exception_push_sr (to_phys sp) 4 c.sr 0) { aux = vector });
      pending_exception_vector = none;
    }

unfoldable pub produce_until_bus : Sh2Core → ℕ → TraceLog → ℕ → Produced
produce_until_bus c seq trace runahead_budget = elim c.pending_exception_vector [
  | some vector ↦
      let d = enter_exception c vector in
      produced d
        (add_fault trace (record {
          t = c.t;
          cpu = c.cpu_id;
          pc = c.pc;
          detail = vector;
          reason = exception_entry;
        }))
        (pending_op d seq) 0
  | none ↦ elim c.pending_mem_op [
    | some p ↦ produced c trace (some (op_of_pending c seq p)) 0
    | none ↦ run_ahead runahead_budget seq c trace 0
  ]
]

unfoldable pub produce_ifetch : Sh2Core → ℕ → BusOp
produce_ifetch c seq = core_op c seq ifetch (to_phys c.pc) 2 0
