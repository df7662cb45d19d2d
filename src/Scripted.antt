-- ===== src/Scripted.antt =====
-- src/cpu/scripted_cpu.hpp and scripted_cpu.cpp: a CPU that runs a script of accesses through its store
-- buffer and cache, and hands what is left to the bus.
pub mod Requests
pub mod Forwarding
mod Tests
use saturnis.Base.{
  ℕ, zero, suc, ◌+◌, ◌/◌, ◌%◌, Bool, true, false, not, ◌&&◌, ◌||◌, Option, none, some, List, [],
  ◌∷◌, ◌==◌, if◌then◌else◌, length, get_elem?, get_or, replicate,
}
use saturnis.Base.Integer.{ℤ}
use saturnis.Base.Word.{u32, u64}
use saturnis.Mem.{
  StoreBuffer, push, forward, retire, TinyCache, new_cache, cache_read, cache_write, fill_line,
  to_phys, is_uncached_alias, is_mmio,
}
use saturnis.Trace.{TraceLog, cache_fill_mismatch, add_fault}
use saturnis.Bus.{BusResponse}
use saturnis.Bus.Op.{BusKind, read, write, mmio_read, mmio_write, barrier, BusOp, auto}

pub data ScriptOpKind : Type 0 where
  script_read script_write script_compute script_barrier : ScriptOpKind

pub record ScriptOp : Type 0 where
  pub kind : ScriptOpKind
  pub vaddr : ℕ
  pub size : ℕ
  pub value : ℕ
  pub cycles : ℕ

pub record PendingBusOp : Type 0 where
  pub op : BusOp
  pub script_index : ℕ

pub record ScriptedCpu : Type 0 where
  pub cpu_id : ℤ
  pub script : List ScriptOp
  pub pc : ℕ
  pub sequence : ℕ
  pub local_time : ℕ
  pub store_buffer : StoreBuffer
  pub cache : TinyCache
  pub last_read : Option ℕ
  pub next_store_id : ℕ

unfoldable pub new_scripted_cpu : ℤ → List ScriptOp → ℕ → ℕ → ScriptedCpu
new_scripted_cpu cpu_id script cache_line_size cache_lines = record {
  cpu_id = cpu_id;
  script = script;
  pc = 0;
  sequence = 0;
  local_time = 0;
  store_buffer = record { entries = [] };
  cache = new_cache cache_line_size cache_lines;
  last_read = none;
  next_store_id = 1;
}

-- `bus::BusOp op{cpu_id_, local_time_, sequence_++, kind, phys, size, data}`.
abbrev pub request : ScriptedCpu → BusKind → ℕ → ℕ → ℕ → BusOp
request c kind phys size data_word = record {
  cpu_id = c.cpu_id;
  req_time = c.local_time;
  sequence = c.sequence;
  kind = kind;
  phys_addr = phys;
  size = size;
  data_word = data_word;
  fill_cache_line = false;
  cache_line_size = 0;
  producer = auto;
  producer_token = 0;
}

-- The CPU behind `sequence_++` and `pc_++`.
abbrev pub issued : ScriptedCpu → ScriptedCpu
issued c = record c { sequence = u64 (c.sequence + 1); pc = c.pc + 1 }

abbrev pub is_uncached : ℕ → Bool
is_uncached vaddr = is_uncached_alias vaddr || is_mmio (to_phys vaddr)

unfoldable pub produce_write : ScriptedCpu → ScriptOp → ScriptedCpu × Option PendingBusOp
produce_write c ins =
    let phys = to_phys ins.vaddr in
    let kind = if is_mmio phys then mmio_write else write in
    (
      record (issued c) {
        next_store_id = u64 (c.next_store_id + 1);
        store_buffer = push c.store_buffer (record {
          store_id = c.next_store_id;
          phys = phys;
          size = ins.size;
          value = ins.value;
        });
        cache =
            if is_uncached ins.vaddr then c.cache else cache_write c.cache phys ins.size ins.value;
      },
      some (record {
        op = record (request c kind phys ins.size ins.value) { producer_token = c.next_store_id };
        script_index = c.pc;
      }),
    )

-- The part of a read that goes to the bus.
unfoldable pub produce_read : ScriptedCpu → ScriptOp → ScriptedCpu × Option PendingBusOp
produce_read c ins =
    let phys = to_phys ins.vaddr in
    let kind = if is_mmio phys then mmio_read else read in
    let plain = request c kind phys ins.size 0 in
    (
      issued c,
      some (record {
        op =
            if is_uncached ins.vaddr
            then plain
            else record plain { fill_cache_line = true; cache_line_size = c.cache.line_size % 256 };
        script_index = c.pc;
      }),
    )

abbrev pub finish_read : ScriptedCpu → ℕ → ScriptedCpu × Option PendingBusOp
finish_read c value = (record c { last_read = some value; pc = c.pc + 1 }, none)

-- The body of the loop of `produce`: `none` where it goes on.
unfoldable pub execute_op : ScriptedCpu → ScriptOp → ScriptedCpu × Option PendingBusOp
execute_op c ins = elim ins.kind [
  | script_compute ↦
      (record c { local_time = u64 (c.local_time + ins.cycles); pc = c.pc + 1 }, none)
  | script_barrier ↦ (issued c, some (record { op = request c barrier 0 0 0; script_index = c.pc }))
  | script_write ↦ produce_write c ins
  | script_read ↦
      if is_uncached ins.vaddr
      then produce_read c ins
      else elim (forward c.store_buffer (to_phys ins.vaddr) ins.size) [
        | some forwarded ↦ finish_read c forwarded
        | none ↦ elim (cache_read c.cache (to_phys ins.vaddr) ins.size) [
          | some cached ↦ finish_read c cached
          | none ↦ produce_read c ins
        ]
      ]
]

-- The loop of `produce`. Every turn advances `pc`, so the length of the script is fuel enough.
unfoldable pub produce_loop : ℕ → ScriptedCpu → ScriptedCpu × Option PendingBusOp
produce_loop zero c = (c, none)
produce_loop (suc n) c = elim (get_elem? c.script c.pc) [
  | none ↦ (c, none)
  | some ins ↦
      let (d, out) = execute_op c ins in elim out [ none ↦ produce_loop n d | some p ↦ (d, some p) ]
]

unfoldable pub produce : ScriptedCpu → ScriptedCpu × Option PendingBusOp
produce c = produce_loop (length c.script) c

abbrev pub blank_script_op : ScriptOp
blank_script_op = record { kind = script_compute; vaddr = 0; size = 4; value = 0; cycles = 0 }

abbrev pub instruction_at : ScriptedCpu → ℕ → ScriptOp
instruction_at c i = get_or c.script i blank_script_op

-- What `apply_response` does for a cached read whose response has a line: the CPU and the trace.
unfoldable pub take_line :
    ScriptedCpu → ℕ → BusResponse → Option TraceLog → ScriptedCpu × Option TraceLog
take_line c phys response trace =
    if not (response.line_base == phys / u32 c.cache.line_size)
      || not (length response.line_data == c.cache.line_size)
    then (
      c,
      elim trace [
        | none ↦ none
        | some log ↦ some (
            add_fault log (record {
              t = c.local_time;
              cpu = c.cpu_id;
              pc = 0;
              detail = phys;
              reason = cache_fill_mismatch;
            }))
      ],
    )
    else (record c { cache = fill_line c.cache response.line_base response.line_data }, trace)

-- And where it has none: a line of zeros with the word read.
unfoldable pub make_line : ScriptedCpu → ℕ → ℕ → BusResponse → ScriptedCpu
make_line c phys size response = record c {
  cache =
      cache_write (fill_line c.cache (phys / u32 c.cache.line_size) (replicate c.cache.line_size 0))
        phys size response.value;
}

-- `apply_response`, with a trace that may be missing.
unfoldable pub apply_response :
    ScriptedCpu → ℕ → BusResponse → ℕ → Option TraceLog → ScriptedCpu × Option TraceLog
apply_response c script_index response producer_token trace =
    let ins = instruction_at c script_index in
    let phys = to_phys ins.vaddr in
    let waited = record c { local_time = u64 (c.local_time + response.stall) } in
    elim ins.kind [
      | script_compute ↦ (waited, trace)
      | script_barrier ↦ (waited, trace)
      | script_write ↦
          (record waited { store_buffer = (retire c.store_buffer producer_token).0 }, trace)
      | script_read ↦
          let answered = record waited { last_read = some response.value } in
          if is_uncached ins.vaddr
          then (answered, trace)
          else if length response.line_data == 0
          then (make_line answered phys ins.size response, trace)
          else take_line answered phys response trace
    ]
