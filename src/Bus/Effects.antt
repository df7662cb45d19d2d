-- ===== src/Bus/Effects.antt =====
-- src/bus/bus_arbiter.cpp: what committed operations do to memory, and the progress of the CPUs.
use saturnis.Base.{ℕ, ◌+◌, ◌*◌, ◌%◌, ◌^◌, Bool, true, false, ◌≤◌, ◌<◌, ◌≡◌, arith, length, ◌∙◌}
use saturnis.Base.Integer.{ℤ}
use saturnis.Mem.{memory_read, memory_write, is_mmio}
use saturnis.Mem.Committed.{IsMemory, memory_read-write}
use saturnis.Bus.{
  BusArbiter, perform, grant, execute_commit, commit_horizon, has_safe_horizon, update_progress,
  tick_max,
}
use saturnis.Bus.Op.{BusOp, read, write}
use saturnis.Bus.Rules.{validate_bus_op, error_code, valid_bus_size, is_aligned}
use saturnis.Bus.Commits.{faults}

valid_size : (op : BusOp) → op.kind ≡ write → error_code (validate_bus_op op) ≡ 0 → op.size ≤ 4
unfolding validate_bus_op valid_bus_size is_aligned
valid_size op k h = ground arith

not_error :
    (a : BusArbiter) (op : BusOp) → faults a op ≡ false → error_code (validate_bus_op op) ≡ 0
not_error a op h = ground arith

written :
    (a : BusArbiter) (w : BusOp) (tie : Bool)
    → w.kind ≡ write
    → is_mmio w.phys_addr ≡ false
    → faults a w ≡ false
    → (execute_commit a w tie).0.memory ≡ memory_write a.memory w.phys_addr w.size w.data_word
unfolding execute_commit grant perform
written a w tie k ram ok = ground arith

value_read :
    (b : BusArbiter) (r : BusOp) (tie : Bool)
    → r.kind ≡ read
    → is_mmio r.phys_addr ≡ false
    → faults b r ≡ false
    → (execute_commit b r tie).1.value ≡ memory_read b.memory r.phys_addr r.size
unfolding execute_commit grant perform
value_read b r tie k ram ok = ground arith

-- A read of RAM that is committed after a write of the same address and size, with neither a fault,
-- answers the written word cut to that size, whichever producers they come from.
pub execute_commit-read_write :
    (a : BusArbiter) (w r : BusOp) (w_tie r_tie : Bool)
    → IsMemory a.memory
    → w.kind ≡ write
    → r.kind ≡ read
    → r.phys_addr ≡ w.phys_addr
    → r.size ≡ w.size
    → is_mmio w.phys_addr ≡ false
    → w.phys_addr + w.size ≤ length a.memory.bytes
    → faults a w ≡ false
    → faults (execute_commit a w w_tie).0 r ≡ false
    → (execute_commit (execute_commit a w w_tie).0 r r_tie).1.value ≡ w.data_word % 2 ^ (8 * w.size)
execute_commit-read_write a w r w_tie r_tie bytes kw kr at size ram inside ok_w ok_r =
    let k : w.size ≤ 4 = valid_size w kw (not_error a w ok_w) in
    let ram_r : is_mmio r.phys_addr ≡ false = rw at ram in
    value_read (execute_commit a w w_tie).0 r r_tie kr ram_r ok_r
    ∙ rw (written a w w_tie kw ram ok_w, at, size)
        (ground (
          arith,
          memory_read-write a.memory w.phys_addr w.size w.data_word 0 w.size bytes inside k
              (omega arith),
        ))

-- The progress that the CPUs have published is below the value that stands for none.
pub record IsPublished (a : BusArbiter) : Type 0 where
  pub tracking : a.progress_tracking_enabled ≡ true
  pub published0 : a.progress0 < tick_max
  pub published1 : a.progress1 < tick_max

-- Once both CPUs have published their progress, no further publication below the largest tick closes the
-- gate again or moves the horizon back, whatever the CPU and the time it names.
pub update_progress-IsPublished :
    (a : BusArbiter) (cpu_id : ℤ) (executed_up_to : ℕ)
    → IsPublished a
    → executed_up_to < tick_max
    → let b = update_progress a cpu_id executed_up_to in
      IsPublished b × (has_safe_horizon b ≡ true) × (commit_horizon a ≤ commit_horizon b)
unfolding update_progress
update_progress-IsPublished a cpu_id t p h = (
  record {
    tracking = ground (arith, p.tracking);
    published0 = ground (arith, p.published0);
    published1 = ground (arith, p.published1);
  },
  ground (arith, p.tracking, p.published0, p.published1),
  ground (arith, p.published0, p.published1),
)
