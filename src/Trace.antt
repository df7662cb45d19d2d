-- ===== src/Trace.antt =====
-- src/core/trace.hpp and trace.cpp: the trace log. A line is kept as the event that it prints; `add_*`
-- appends, and a fault halts the log if it is to halt on faults. The text of a line is not modelled.
use saturnis.Base.{ℕ, Bool, true, false, List, [], ◌∷◌, ◌++◌, if◌then◌else◌}
use saturnis.Base.Integer.{ℤ}
use saturnis.Bus.Op.{BusOp}

pub record CpuSnapshot : Type 0 where
  pub t : ℕ
  pub cpu : ℤ
  pub pc : ℕ
  pub sr : ℕ
  pub r : List ℕ

pub record CommitEvent : Type 0 where
  pub t_start : ℕ
  pub t_end : ℕ
  pub op : BusOp
  pub stall : ℕ
  pub value : ℕ
  pub cache_hit : Bool

-- The reasons that the bus and the CPUs give.
pub data Reason : Type 0 where
  enqueue_non_monotonic_req_time invalid_bus_op non_monotonic_req_time cache_fill_mismatch : Reason
  exception_entry exception_return synthetic_rte_without_context illegal_op : Reason

pub record FaultEvent : Type 0 where
  pub t : ℕ
  pub cpu : ℤ
  pub pc : ℕ
  pub detail : ℕ
  pub reason : Reason

pub data Line : Type 0 where
  commit_line : CommitEvent → Line
  state_line : CpuSnapshot → Line
  fault_line : FaultEvent → Line

pub record TraceLog : Type 0 where
  pub halt_on_fault : Bool
  pub should_halt : Bool
  pub lines : List Line

abbrev pub new_trace : TraceLog
new_trace = record { halt_on_fault = false; should_halt = false; lines = [] }

unfoldable pub set_halt_on_fault : TraceLog → Bool → TraceLog
set_halt_on_fault log enabled = record log {
  halt_on_fault = enabled;
  should_halt = if enabled then log.should_halt else false;
}

unfoldable pub add_commit : TraceLog → CommitEvent → TraceLog
add_commit log event = record log { lines = log.lines ++ commit_line event ∷ [] }

unfoldable pub add_state : TraceLog → CpuSnapshot → TraceLog
add_state log state = record log { lines = log.lines ++ state_line state ∷ [] }

unfoldable pub add_fault : TraceLog → FaultEvent → TraceLog
add_fault log fault = record log {
  lines = log.lines ++ fault_line fault ∷ [];
  should_halt = if log.halt_on_fault then true else log.should_halt;
}
