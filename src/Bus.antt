-- ===== src/Bus.antt =====
-- src/bus/bus_arbiter.hpp and bus_arbiter.cpp: the arbiter that commits bus operations against memory,
-- devices and trace. The model is of a build with NDEBUG, in which an invalid operation is a fault and
-- not an aborted assertion. Times are `uint64_t` and wrap.
pub mod Op
pub mod Rules
pub mod Names
pub mod Batch
pub mod Pick
pub mod Commits
pub mod Effects
pub mod Committable
pub mod Batches
pub mod Gate
pub mod Distinct
pub mod Completeness
pub mod Calls
pub mod Ties
mod Tests
use Op.{BusKind, BusProducer, dma, BusOp}
use Rules.{
  BusOpValidationError, no_error, error_code, validate_bus_op, Slot, producer_slot, same_slot,
  PerSlot, at_slot, put_slot, filled, PriorityClass, class_code, ArbitrationPolicy, default_policy,
  LatencyModel, is_cpu, base_latency, is_barrier, is_write, is_mmio_write, is_mmio_read,
}
use saturnis.Base.{
  ℕ, zero, suc, ◌+◌, ◌-◌, ◌*◌, ◌/◌, ◌%◌, max, min, Bool, true, false, not, ◌&&◌, ◌||◌, Option, none,
  some, List, [], ◌∷◌, ◌++◌, bit_and, bit_or, ltb, leb, ◌==◌, if◌then◌else◌, length, get_or,
  remove_at,
}
use saturnis.Base.Integer.{ℤ, pos, negsuc, eq_ℤ, ltb_ℤ}
use saturnis.Base.Word.{u32, u64, shl32, sub64}
use saturnis.Mem.{CommittedMemory, memory_read, memory_write, read_block, is_mmio}
use saturnis.Dev.{DeviceHub, device_read, device_write}
use saturnis.Trace.{
  TraceLog, Reason, enqueue_non_monotonic_req_time, invalid_bus_op, non_monotonic_req_time,
  add_commit, add_fault,
}

pub record BusResponse : Type 0 where
  pub value : ℕ
  pub stall : ℕ
  pub start_time : ℕ
  pub commit_time : ℕ
  pub line_base : ℕ
  pub line_data : List ℕ

pub record CommitResult : Type 0 where
  pub input_index : ℕ
  pub op : BusOp
  pub response : BusResponse

pub record BusArbiter : Type 0 where
  pub memory : CommittedMemory
  pub devices : DeviceHub
  pub trace : TraceLog
  pub policy : ArbitrationPolicy
  pub latency : LatencyModel
  pub bus_free_time : ℕ
  pub last_grant_cpu : ℤ
  pub has_last_addr : Bool
  pub last_addr : ℕ
  pub progress_tracking_enabled : Bool
  pub progress0 : ℕ
  pub progress1 : ℕ
  pub producer_last_req_time : PerSlot ℕ
  pub producer_seen : PerSlot Bool
  pub producer_last_enqueued_req_time : PerSlot ℕ
  pub producer_enqueued_seen : PerSlot Bool

-- `std::numeric_limits<Tick>::max()`.
abbrev pub tick_max : ℕ
tick_max = 0xFFFF_FFFF_FFFF_FFFF

abbrev pub or_default : Option ArbitrationPolicy → ArbitrationPolicy
or_default none = default_policy
or_default (some p) = p

unfoldable pub new_bus_arbiter :
    CommittedMemory → DeviceHub → TraceLog → Option ArbitrationPolicy → LatencyModel → BusArbiter
new_bus_arbiter memory devices trace policy latency = record {
  memory = memory;
  devices = devices;
  trace = trace;
  policy = or_default policy;
  latency = latency;
  bus_free_time = 0;
  last_grant_cpu = pos 1;
  has_last_addr = false;
  last_addr = 0;
  progress_tracking_enabled = false;
  progress0 = tick_max;
  progress1 = tick_max;
  producer_last_req_time = filled 0;
  producer_seen = filled false;
  producer_last_enqueued_req_time = filled 0;
  producer_enqueued_seen = filled false;
}

unfoldable pub contention_extra : BusArbiter → BusOp → Bool → ℕ
contention_extra a op had_tie =
    (if not (is_barrier op.kind) && a.has_last_addr && op.phys_addr == a.last_addr
      then a.latency.same_address_contention
      else 0)
    + (if had_tie then a.latency.tie_turnaround else 0)

-- `(op.req_time > bus_free_time_) ? op.req_time : bus_free_time_`.
abbrev pub start_of : BusArbiter → BusOp → ℕ
start_of a op = if ltb a.bus_free_time op.req_time then op.req_time else a.bus_free_time

abbrev pub invalid_value : ℕ
invalid_value = 0xBAD0_BAD0

unfoldable pub fault_response : BusArbiter → BusOp → ℕ → Reason → ℕ → BusArbiter × BusResponse
unfolding add_fault add_commit
fault_response a op start reason detail = (
  record a {
    trace =
        add_commit
          (add_fault a.trace
            (record { t = start; cpu = op.cpu_id; pc = 0; detail = detail; reason = reason }))
          (record {
            t_start = start;
            t_end = start;
            op = op;
            stall = 0;
            value = invalid_value;
            cache_hit = false;
          });
  },
  record {
    value = invalid_value;
    stall = 0;
    start_time = start;
    commit_time = start;
    line_base = 0;
    line_data = [];
  },
)

unfoldable pub validate_enqueue_contract : BusArbiter → BusOp → BusArbiter × Bool
validate_enqueue_contract a op =
    let slot = producer_slot op in
    if at_slot a.producer_enqueued_seen slot
      && ltb op.req_time (at_slot a.producer_last_enqueued_req_time slot)
    then (
      (fault_response a op (start_of a op) enqueue_non_monotonic_req_time (u32 op.req_time)).0,
      false,
    )
    else (
      record a {
        producer_enqueued_seen = put_slot a.producer_enqueued_seen slot true;
        producer_last_enqueued_req_time =
            put_slot a.producer_last_enqueued_req_time slot op.req_time;
      },
      true,
    )

-- What an operation does to memory and devices, and what it returns.
pub record Effect : Type 0 where
  pub memory : CommittedMemory
  pub devices : DeviceHub
  pub value : ℕ
  pub line_base : ℕ
  pub line_data : List ℕ

unfoldable pub perform : BusArbiter → BusOp → ℕ → Effect
perform a op finish =
    let same : Effect = record {
      memory = a.memory;
      devices = a.devices;
      value = op.data_word;
      line_base = 0;
      line_data = [];
    } in
    if is_barrier op.kind
    then same
    else if is_write op.kind || is_mmio_write op.kind
    then (if is_mmio op.phys_addr || is_mmio_write op.kind
        then record same {
          devices = device_write a.devices finish op.cpu_id op.phys_addr op.size op.data_word;
        }
        else record same { memory = memory_write a.memory op.phys_addr op.size op.data_word })
    else if is_mmio op.phys_addr || is_mmio_read op.kind
    then record same { value = device_read a.devices op.phys_addr op.size }
    else if op.fill_cache_line && ltb 0 op.cache_line_size
    then record same {
      value = memory_read a.memory op.phys_addr op.size;
      line_base = op.phys_addr / op.cache_line_size;
      line_data =
          read_block a.memory (u32 (op.phys_addr / op.cache_line_size * op.cache_line_size))
            op.cache_line_size;
    }
    else record same { value = memory_read a.memory op.phys_addr op.size }

abbrev pub validation_detail : BusOpValidationError → BusOp → ℕ
validation_detail e op =
    bit_or (shl32 (error_code e) 28) (bit_or (bit_and op.phys_addr 0xFFFF) (shl32 op.size 24))

-- The part of `execute_commit` behind the two checks.
unfoldable pub grant : BusArbiter → BusOp → Bool → BusArbiter × BusResponse
grant a op had_tie =
    let slot = producer_slot op in
    let start = start_of a op in
    let finish = u64 (start + u64 (base_latency a.latency op + contention_extra a op had_tie)) in
    let stall = sub64 finish op.req_time in
    let effect = perform a op finish in
    (
      record a {
        memory = effect.memory;
        devices = effect.devices;
        trace = add_commit a.trace (record {
          t_start = start;
          t_end = finish;
          op = op;
          stall = stall;
          value = effect.value;
          cache_hit = false;
        });
        bus_free_time = finish;
        last_grant_cpu = if had_tie && is_cpu op.cpu_id then op.cpu_id else a.last_grant_cpu;
        has_last_addr = if is_barrier op.kind then a.has_last_addr else true;
        last_addr = if is_barrier op.kind then a.last_addr else op.phys_addr;
        producer_seen = put_slot a.producer_seen slot true;
        producer_last_req_time = put_slot a.producer_last_req_time slot op.req_time;
      },
      record {
        value = effect.value;
        stall = stall;
        start_time = start;
        commit_time = finish;
        line_base = effect.line_base;
        line_data = effect.line_data;
      },
    )

-- The two checks of `execute_commit`.
abbrev pub is_late : BusArbiter → BusOp → Bool
is_late a op =
    at_slot a.producer_seen (producer_slot op)
    && ltb op.req_time (at_slot a.producer_last_req_time (producer_slot op))

unfoldable pub execute_commit : BusArbiter → BusOp → Bool → BusArbiter × BusResponse
execute_commit a op had_tie =
    let e = validate_bus_op op in
    if not (error_code e == 0)
    then fault_response a op (start_of a op) invalid_bus_op (validation_detail e op)
    else if is_late a op
    then fault_response a op (start_of a op) non_monotonic_req_time (u32 op.req_time)
    else grant a op had_tie

abbrev pub refused : BusArbiter → BusResponse
refused a = record {
  value = invalid_value;
  stall = 0;
  start_time = a.bus_free_time;
  commit_time = a.bus_free_time;
  line_base = 0;
  line_data = [];
}

unfoldable pub commit : BusArbiter → BusOp → BusArbiter × BusResponse
commit a op =
    if a.trace.should_halt
    then (a, refused a)
    else let (b, accepted) = validate_enqueue_contract a op in
      if accepted then execute_commit b op false else (b, refused b)

unfoldable pub commit_dma : BusArbiter → BusOp → BusArbiter × BusResponse
unfolding commit
commit_dma a op = commit a (record op { cpu_id = negsuc 0; producer = dma })

abbrev pub commit_horizon : BusArbiter → ℕ
commit_horizon a = min a.progress0 a.progress1

abbrev pub has_safe_horizon : BusArbiter → Bool
has_safe_horizon a =
    if not a.progress_tracking_enabled
    then true
    else not (a.progress0 == tick_max) && not (a.progress1 == tick_max)

abbrev pub advance_slot : ℕ → ℕ → ℕ
advance_slot slot executed_up_to =
    if slot == tick_max || ltb slot executed_up_to then executed_up_to else slot

unfoldable pub update_progress : BusArbiter → ℤ → ℕ → BusArbiter
update_progress a cpu_id executed_up_to =
    if eq_ℤ cpu_id (pos 0)
    then record a {
      progress_tracking_enabled = true;
      progress0 = advance_slot a.progress0 executed_up_to;
    }
    else if eq_ℤ cpu_id (pos 1)
    then record a {
      progress_tracking_enabled = true;
      progress1 = advance_slot a.progress1 executed_up_to;
    }
    else a
