-- ===== src/Sh2/Apply.antt =====
-- `apply_ifetch_and_step` and `step` of src/cpu/sh2_core.cpp: what a response of the bus does.
use saturnis.Base.{
  ℕ, ◌+◌, ◌*◌, ◌/◌, Bool, true, false, not, ◌||◌, Option, none, some, bit_and, bit_or, bit_xor,
  ◌==◌, if◌then◌else◌, length,
}
use saturnis.Base.Word.{u32, u64}
use saturnis.Mem.{to_phys, fill_line}
use saturnis.Trace.{TraceLog, cache_fill_mismatch, add_fault}
use saturnis.Bus.{BusResponse, BusArbiter, commit}
use saturnis.Sh2.{
  Sh2Core, PendingMemOp, mem_op, MemKind, read_long, read_word, read_byte, exception_push_sr,
  exception_push_pc, exception_vector_read, trapa_push_sr, trapa_push_pc, trapa_vector_read,
  rte_pop_pc, rte_pop_sr, rmw_and_byte_read, rmw_xor_byte_read, rmw_or_byte_read, rmw_write_byte,
  reg, write_reg, advance, retire_step, u32_add, u32_sub, signed, cast32,
}
use saturnis.Sh2.Execute.{restore_sr, execute_instruction}
use saturnis.Sh2.Produce.{produce_until_bus}

-- The byte that a read-modify-write writes back.
abbrev pub modified : MemKind → ℕ → ℕ → ℕ
modified rmw_and_byte_read byte aux = bit_and byte aux
modified rmw_xor_byte_read byte aux = bit_xor byte aux
modified _ byte aux = bit_or byte aux

abbrev pub or_zero : Option ℕ → ℕ
or_zero none = 0
or_zero (some n) = n

-- The steps of an exception, a trap, a return and a read-modify-write, each of which ends with the bus step's
-- own cost. The core has no pending operation. A trap's number is there whenever its second push is.
unfoldable pub exception_step : PendingMemOp → BusResponse → Sh2Core → Sh2Core
exception_step p response c = elim p.kind [
  | exception_push_sr ↦
      let sp = u32_sub (reg c 15) 4 in
      record (write_reg c 15 sp) {
        pending_mem_op =
            some (record (mem_op exception_push_pc (to_phys sp) 4 c.pc 0) { aux = p.aux });
      }
  | exception_push_pc ↦ record c {
    pending_mem_op = some (mem_op exception_vector_read (to_phys (u32 (c.vbr + p.aux * 4))) 4 0 0);
  }
  | exception_vector_read ↦ record c { pc = response.value; has_exception_return_context = true }
  | trapa_push_sr ↦
      let sp = u32_sub (reg c 15) 4 in
      record (write_reg c 15 sp) {
        pending_mem_op = some (mem_op trapa_push_pc (to_phys sp) 4 (u32_add c.pc 2) 0);
      }
  | trapa_push_pc ↦ record c {
    pending_mem_op =
        some (
          mem_op trapa_vector_read (to_phys (u32 (c.vbr + or_zero c.pending_trapa_imm * 4))) 4 0 0);
  }
  | trapa_vector_read ↦ record c {
    pc = response.value;
    has_exception_return_context = true;
    pending_trapa_imm = none;
  }
  | rte_pop_pc ↦
      let sp = u32_add (reg c 15) 4 in
      record (write_reg c 15 sp) {
        pending_new_pc = response.value;
        pending_mem_op = some (mem_op rte_pop_sr (to_phys sp) 4 0 0);
      }
  | rte_pop_sr ↦ record (write_reg c 15 (u32_add (reg c 15) 4)) {
    pending_new_sr = response.value;
    pending_rte_restore = true;
    pending_branch_target = some c.pending_new_pc;
    has_exception_return_context = false;
  }
  | _ ↦ record c {
    pending_mem_op = some (
        mem_op rmw_write_byte p.phys_addr 1
          (modified p.kind (bit_and response.value 0xFF) (bit_and p.aux 0xFF)) 0);
  }
]

-- The register that a load of a system register sets, by `aux`, or the destination register.
unfoldable pub load_long : PendingMemOp → ℕ → Sh2Core → Sh2Core
load_long p value c =
    if p.aux == 1
    then record c { pr = value }
    else if p.aux == 2
    then record c { sr = value }
    else if p.aux == 3
    then record c { gbr = value }
    else if p.aux == 4
    then record c { vbr = value }
    else if p.aux == 5
    then record c { mach = value }
    else if p.aux == 6
    then record c { macl = value }
    else write_reg c p.dst_reg value

unfoldable pub load_value : PendingMemOp → ℕ → Sh2Core → Sh2Core
load_value p value c = elim p.kind [
  | read_long ↦ load_long p value c
  | read_word ↦ write_reg c p.dst_reg (cast32 (signed 16 (bit_and value 0xFFFF)))
  | read_byte ↦ write_reg c p.dst_reg (cast32 (signed 8 (bit_and value 0xFF)))
  | _ ↦ c
]

unfoldable pub post_increment : PendingMemOp → Sh2Core → Sh2Core
post_increment p c = elim p.post_inc_reg [
  | none ↦ c
  | some m ↦ if m == p.dst_reg then c else write_reg c m (u32_add (reg c m) p.post_inc_size)
]

-- The end of a load or store: the delayed branch, or the next instruction.
unfoldable pub leave_access : Sh2Core → Sh2Core
leave_access c = elim c.pending_branch_target [
  | none ↦ advance c
  | some target ↦ record (restore_sr c) { pc = target; pending_branch_target = none }
]

unfoldable pub finish_access : PendingMemOp → BusResponse → Sh2Core → Sh2Core
finish_access p response c = leave_access (post_increment p (load_value p response.value c))

-- The kinds of which the source returns within their branch.
abbrev pub is_step : MemKind → Bool
is_step exception_push_sr = true
is_step exception_push_pc = true
is_step exception_vector_read = true
is_step trapa_push_sr = true
is_step trapa_push_pc = true
is_step trapa_vector_read = true
is_step rte_pop_pc = true
is_step rte_pop_sr = true
is_step rmw_and_byte_read = true
is_step rmw_xor_byte_read = true
is_step rmw_or_byte_read = true
is_step _ = false

unfoldable pub complete_pending :
    PendingMemOp → BusResponse → Sh2Core → TraceLog → Sh2Core × TraceLog
complete_pending p response c trace =
    let ready = record c { pending_mem_op = none } in
    retire_step
      (if is_step p.kind then exception_step p response ready else finish_access p response ready)
      trace

-- The line of a fetch, if the response has one.
unfoldable pub take_icache_line : BusResponse → Sh2Core → TraceLog → Sh2Core × TraceLog
take_icache_line response c trace =
    if length response.line_data == 0
    then (c, trace)
    else if not (response.line_base == to_phys c.pc / u32 c.icache.line_size)
        || not (length response.line_data == c.icache.line_size)
    then (
      c,
      add_fault trace (record {
        t = c.t;
        cpu = c.cpu_id;
        pc = c.pc;
        detail = to_phys c.pc;
        reason = cache_fill_mismatch;
      }),
    )
    else (record c { icache = fill_line c.icache response.line_base response.line_data }, trace)

unfoldable pub apply_ifetch_and_step : Sh2Core → BusResponse → TraceLog → Sh2Core × TraceLog
apply_ifetch_and_step c response trace =
    let waited = record c { t = u64 (c.t + response.stall) } in
    elim c.pending_mem_op [
      | some p ↦ complete_pending p response waited trace
      | none ↦
          let (d, trace') = take_icache_line response waited trace in
          execute_instruction d (bit_and response.value 0xFFFF) trace'
    ]

-- `step`; the trace that the source passes on is the arbiter's.
unfoldable pub step : Sh2Core → BusArbiter → ℕ → Sh2Core × BusArbiter
step c arbiter seq =
    let p = produce_until_bus c seq arbiter.trace 1 in
    elim p.result.op [
      | none ↦ (p.core, record arbiter { trace = p.trace })
      | some op ↦
          let (after, response) = commit (record arbiter { trace = p.trace }) op in
          let (d, trace) = apply_ifetch_and_step p.core response after.trace in
          (d, record after { trace = trace })
    ]
