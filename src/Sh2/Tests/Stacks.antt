-- ===== src/Sh2/Tests/Stacks.antt =====
-- A stack access of the SH-2 core in the memory of an arbiter.
use saturnis.Base.{All-replicate, length, ◌≤◌, ◌+◌, ◌≡◌, refl, false, none, some, arith, set}
use saturnis.Mem.Bytes.{IsByte}
use saturnis.Mem.{new_memory, to_phys, is_mmio}
use saturnis.Trace.{new_trace}
use saturnis.Bus.{BusArbiter, new_bus_arbiter, execute_commit, grant, perform, contention_extra}
use saturnis.Bus.Op.{BusOp, read, write}
use saturnis.Bus.Rules.{
  default_latency, validate_bus_op, valid_bus_size, is_aligned, producer_slot, base_latency,
}
use saturnis.Bus.Commits.{faults}
use saturnis.Mem.Committed.{IsMemory}
use saturnis.Dev.{new_hub}
use saturnis.Sh2.Committed.{loading, pop_system-push_system_committed}
use saturnis.Decode.{field_n}
use saturnis.Sh2.{Sh2Core, new_sh2_core, reg, retire_step, u32_sub}
use saturnis.Sh2.Transfer.{gbr_reg, vbr_reg, push_system, pop_system, system_value}
use saturnis.Sh2.Produce.{core_op, data_access_kind, pending_op, op_of_pending}
use saturnis.Sh2.Apply.{
  apply_ifetch_and_step, complete_pending, finish_access, load_value, post_increment, leave_access,
}
use saturnis.Sh2.Stack.{answered}
use saturnis.Sh2.Tests.{fresh}

-- STC.L GBR,@-R15 and LDC.L @R15+,VBR in a memory of 32 bytes.
abbrev stacked : Sh2Core
stacked = record fresh { gbr = 0xAABB_CCDD; r = set fresh.r 15 16 }

abbrev bus : BusArbiter
bus = new_bus_arbiter (new_memory 32) new_hub new_trace none default_latency

abbrev stored_op : BusOp
stored_op = core_op stacked 1 write 12 4 0xAABB_CCDD

stored : pending_op (push_system gbr_reg 0x4F13 stacked) 1 ≡ some stored_op
unfolding new_sh2_core push_system op_of_pending data_access_kind is_mmio to_phys u32_sub field_n
stored = refl

abbrev loading_core : Sh2Core
loading_core = loading bus stacked gbr_reg vbr_reg 0x4F13 0x4F27 stored_op new_trace

abbrev loaded_op : BusOp
loaded_op = core_op loading_core 2 read 12 4 0

loaded : pending_op loading_core 2 ≡ some loaded_op
unfolding new_sh2_core push_system pop_system op_of_pending data_access_kind is_mmio to_phys u32_sub
    field_n apply_ifetch_and_step complete_pending finish_access load_value post_increment
    leave_access retire_step
loaded = refl

bus_memory : IsMemory bus.memory
unfolding new_bus_arbiter new_memory
bus_memory = All-replicate IsByte 32 (omega arith)

stored_inside : stored_op.phys_addr + 4 ≤ length bus.memory.bytes
unfolding new_bus_arbiter new_memory
stored_inside = omega arith

stored_valid : faults bus stored_op ≡ false
unfolding new_bus_arbiter validate_bus_op valid_bus_size is_aligned is_mmio producer_slot
    new_sh2_core
stored_valid = refl

loaded_valid : faults (execute_commit bus stored_op false).0 loaded_op ≡ false
unfolding new_bus_arbiter execute_commit grant perform validate_bus_op valid_bus_size is_aligned
    is_mmio producer_slot base_latency contention_extra new_sh2_core push_system pop_system to_phys
    u32_sub field_n apply_ifetch_and_step complete_pending finish_access load_value post_increment
    leave_access retire_step
loaded_valid = refl

ram_address : is_mmio 12 ≡ false
unfolding is_mmio
ram_address = refl

pop_system-push_system_committed_example :
    (system_value vbr_reg (
        answered loading_core
          (execute_commit (execute_commit bus stored_op false).0 loaded_op false).1
          new_trace)
      ≡ 0xAABB_CCDD)
    × (reg
          (answered loading_core
            (execute_commit (execute_commit bus stored_op false).0 loaded_op false).1
            new_trace)
          (field_n 0x4F13)
        ≡ reg stacked (field_n 0x4F13))
unfolding new_sh2_core field_n
pop_system-push_system_committed_example =
    pop_system-push_system_committed bus stacked gbr_reg vbr_reg 0x4F13 0x4F27 1 2 stored_op
      loaded_op new_trace new_trace (omega arith) (omega arith) refl
      (λ e. absurd (omega (arith, e))) refl (omega arith) bus_memory stored loaded ram_address
      stored_inside stored_valid loaded_valid
