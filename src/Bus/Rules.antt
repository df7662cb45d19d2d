-- ===== src/Bus/Rules.antt =====
-- The stateless parts of src/bus/bus_arbiter.cpp: validation, producer slots, priorities and latencies.
use saturnis.Base.{ℕ, ◌%◌, Bool, true, false, not, ◌&&◌, ◌||◌, ◌==◌, if◌then◌else◌}
use saturnis.Base.Integer.{ℤ, pos, eq_ℤ, is_negative}
use saturnis.Mem.{is_mmio}
use saturnis.Bus.Op.{BusKind, ifetch, read, write, mmio_read, mmio_write, barrier, BusOp, from_dma}

unfoldable pub valid_bus_size : ℕ → Bool
valid_bus_size size = size == 1 || size == 2 || size == 4

pub data BusOpValidationError : Type 0 where
  no_error invalid_size invalid_alignment : BusOpValidationError

abbrev pub error_code : BusOpValidationError → ℕ
error_code no_error = 0
error_code invalid_size = 1
error_code invalid_alignment = 2

unfoldable pub is_aligned : ℕ → ℕ → Bool
is_aligned addr size = if size == 1 then true else addr % size == 0

abbrev pub is_barrier : BusKind → Bool
is_barrier barrier = true
is_barrier _ = false

abbrev pub is_ifetch : BusKind → Bool
is_ifetch ifetch = true
is_ifetch _ = false

abbrev pub is_mmio_read : BusKind → Bool
is_mmio_read mmio_read = true
is_mmio_read _ = false

abbrev pub is_mmio_write : BusKind → Bool
is_mmio_write mmio_write = true
is_mmio_write _ = false

abbrev pub is_read : BusKind → Bool
is_read read = true
is_read _ = false

abbrev pub is_write : BusKind → Bool
is_write write = true
is_write _ = false

unfoldable pub validate_bus_op : BusOp → BusOpValidationError
unfolding valid_bus_size is_aligned
validate_bus_op op =
    if is_barrier op.kind
    then no_error
    else if not (valid_bus_size op.size)
    then invalid_size
    else if (is_mmio_read op.kind
          || is_mmio_write op.kind
          || is_ifetch op.kind
          || is_mmio op.phys_addr)
        && not (is_aligned op.phys_addr op.size)
    then invalid_alignment
    else no_error

-- The index of a producer in the arbiter's arrays of three: 0, 1 and 2.
pub data Slot : Type 0 where
  cpu0_slot cpu1_slot dma_slot : Slot

pub Slot-discrete : Discrete Slot
Slot-discrete = hlevel

abbrev pub same_slot : Slot → Slot → Bool
same_slot cpu0_slot cpu0_slot = true
same_slot cpu1_slot cpu1_slot = true
same_slot dma_slot dma_slot = true
same_slot _ _ = false

unfoldable pub producer_slot : BusOp → Slot
producer_slot op =
    if from_dma op then dma_slot else if eq_ℤ op.cpu_id (pos 1) then cpu1_slot else cpu0_slot

-- An array with an entry for each slot.
pub record PerSlot {ℓ} (A : Type ℓ) : Type ℓ where
  pub of_cpu0 : A
  pub of_cpu1 : A
  pub of_dma : A

module _ {ℓ} {A : Type ℓ} where
  abbrev pub at_slot : PerSlot A → Slot → A
  at_slot p cpu0_slot = p.of_cpu0
  at_slot p cpu1_slot = p.of_cpu1
  at_slot p dma_slot = p.of_dma

  abbrev pub put_slot : PerSlot A → Slot → A → PerSlot A
  put_slot p cpu0_slot v = record p { of_cpu0 = v }
  put_slot p cpu1_slot v = record p { of_cpu1 = v }
  put_slot p dma_slot v = record p { of_dma = v }

  abbrev pub filled : A → PerSlot A
  filled v = record { of_cpu0 = v; of_cpu1 = v; of_dma = v }

pub data PriorityClass : Type 0 where
  cpu_ram cpu_mmio dma_class : PriorityClass

abbrev pub class_code : PriorityClass → ℕ
class_code cpu_ram = 0
class_code cpu_mmio = 1
class_code dma_class = 2

-- `ArbitrationPolicy::priority_of`, which a client may override.
abbrev pub ArbitrationPolicy : Type 0
ArbitrationPolicy = BusOp → PriorityClass

unfoldable pub default_policy : ArbitrationPolicy
default_policy op =
    if is_negative op.cpu_id
    then dma_class
    else if is_mmio_read op.kind || is_mmio_write op.kind || is_mmio op.phys_addr
    then cpu_mmio
    else cpu_ram

pub record LatencyModel : Type 0 where
  pub ram_read : ℕ
  pub ram_write : ℕ
  pub ifetch_cost : ℕ
  pub mmio_read_cost : ℕ
  pub mmio_write_cost : ℕ
  pub barrier_cost : ℕ
  pub same_address_contention : ℕ
  pub tie_turnaround : ℕ

abbrev pub default_latency : LatencyModel
default_latency = record {
  ram_read = 4;
  ram_write = 3;
  ifetch_cost = 5;
  mmio_read_cost = 12;
  mmio_write_cost = 10;
  barrier_cost = 1;
  same_address_contention = 2;
  tie_turnaround = 1;
}

abbrev pub is_cpu : ℤ → Bool
is_cpu cpu_id = eq_ℤ cpu_id (pos 0) || eq_ℤ cpu_id (pos 1)

unfoldable pub base_latency : LatencyModel → BusOp → ℕ
base_latency l op =
    if is_barrier op.kind
    then l.barrier_cost
    else if is_ifetch op.kind
    then l.ifetch_cost
    else if is_mmio_read op.kind || (is_read op.kind && is_mmio op.phys_addr)
    then l.mmio_read_cost
    else if is_mmio_write op.kind || (is_write op.kind && is_mmio op.phys_addr)
    then l.mmio_write_cost
    else if is_write op.kind
    then l.ram_write
    else l.ram_read
