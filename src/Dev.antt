-- ===== src/Dev.antt =====
-- src/dev/devices.hpp and devices.cpp: the memory-mapped registers. Every access is to a 32-bit word, of
-- which the lane of its address and size is read or written; some words have effects of their own.
pub mod Map
mod Lanes
pub mod Plain
pub mod Interrupts
pub mod History
mod Tests
use Map.{
  Registers, display_status_addr, scu_ims_addr, scu_ist_addr, scu_ist_clear_addr,
  scu_ist_source_set_addr, scu_ist_source_clear_addr, scu_dma0_src_addr, scu_dma0_size_addr,
  scu_dma0_ctrl_addr, smpc_status_addr, smpc_command_addr, smpc_command_result_addr, vdp2_tvmd_addr,
  vdp2_tvstat_addr, scsp_mcier_addr, vdp1_scu_irq_bridge_addr, vdp1_event_trigger_addr,
  vdp1_event_status_addr, vdp1_command_addr, vdp1_command_status_addr, vdp1_command_complete_addr,
  vdp1_scu_irq_mask, register_spec, lane_shift, size_mask, materialize_register_value,
  read_persisted_or_zero, put_register, word_addr_of, writable, lane_mask_of, write_bits_of,
}
use saturnis.Base.{
  ℕ, zero, suc, ◌+◌, ◌-◌, ◌*◌, Bool, true, false, not, ◌&&◌, Option, none, some, List, [], ◌∷◌,
  ◌++◌, bit_and, bit_or, ◌==◌, if◌then◌else◌,
}
use saturnis.Base.Integer.{ℤ}
use saturnis.Base.Word.{u32, shl32, shr, not32}

pub record MmioWriteLog : Type 0 where
  pub t : ℕ
  pub cpu : ℤ
  pub addr : ℕ
  pub value : ℕ

pub record DeviceHub : Type 0 where
  pub writes : List MmioWriteLog
  pub mmio_regs : Registers
  pub scu_interrupt_pending : ℕ
  pub scu_interrupt_source_pending : ℕ
  pub smpc_last_command : ℕ
  pub smpc_command_result : ℕ
  pub vdp1_irq_level : ℕ
  pub vdp1_event_counter : ℕ
  pub vdp1_last_command : ℕ
  pub vdp1_completed_counter : ℕ
  pub vdp1_command_pending : Bool

abbrev pub new_hub : DeviceHub
new_hub = record {
  writes = [];
  mmio_regs = [];
  scu_interrupt_pending = 0;
  scu_interrupt_source_pending = 0;
  smpc_last_command = 0;
  smpc_command_result = 0;
  vdp1_irq_level = 0;
  vdp1_event_counter = 0;
  vdp1_last_command = 0;
  vdp1_completed_counter = 0;
  vdp1_command_pending = false;
}

-- The word that a read takes its lane from.
unfoldable pub register_value : DeviceHub → ℕ → ℕ
register_value h word_addr =
    if word_addr == scu_ist_addr
    then bit_and (bit_or h.scu_interrupt_pending h.scu_interrupt_source_pending) (
        not32 (
          materialize_register_value (register_spec scu_ims_addr)
            (read_persisted_or_zero h.mmio_regs scu_ims_addr)))
    else if word_addr == scu_ist_source_set_addr
    then bit_and h.scu_interrupt_source_pending 0xFFFF
    else if word_addr == smpc_command_addr
    then bit_and h.smpc_last_command 0xFF
    else if word_addr == smpc_command_result_addr
    then h.smpc_command_result
    else if word_addr == vdp1_scu_irq_bridge_addr
    then bit_and h.vdp1_irq_level 0x1
    else if word_addr == vdp1_event_status_addr
    then bit_or (bit_and h.vdp1_event_counter 0xFF) (shl32 (bit_and h.vdp1_irq_level 0x1) 8)
    else if word_addr == vdp1_command_addr
    then bit_and h.vdp1_last_command 0xFF
    else if word_addr == vdp1_command_status_addr
    then bit_or
        (bit_or (if h.vdp1_command_pending then 1 else 0)
          (shl32 (bit_and h.vdp1_completed_counter 0xFF) 8))
        (shl32 (bit_and h.vdp1_last_command 0xFF) 16)
    else materialize_register_value (register_spec word_addr)
        (read_persisted_or_zero h.mmio_regs word_addr)

-- `DeviceHub::read`, whose time and CPU arguments the source does not use.
unfoldable pub device_read : DeviceHub → ℕ → ℕ → ℕ
device_read h addr size =
    bit_and (shr (register_value h (word_addr_of addr)) (lane_shift addr size)) (size_mask size)

-- The lambda `signal_vdp1_completion`.
unfoldable pub signal_vdp1_completion : DeviceHub → DeviceHub
signal_vdp1_completion h = record h {
  vdp1_event_counter = u32 (h.vdp1_event_counter + 1);
  vdp1_completed_counter = u32 (h.vdp1_completed_counter + 1);
  vdp1_irq_level = 1;
  scu_interrupt_source_pending = bit_or h.scu_interrupt_source_pending vdp1_scu_irq_mask;
  vdp1_command_pending = false;
}

-- The last part of `write`, for a word with no effect of its own.
unfoldable pub write_persisted : DeviceHub → ℕ → ℕ → ℕ → DeviceHub
write_persisted h word_addr lane_mask write_bits =
    let masked_write = bit_and lane_mask (writable (register_spec word_addr)) in
    if masked_write == 0 then h else record h {
      mmio_regs =
          put_register word_addr
            (bit_or (bit_and (read_persisted_or_zero h.mmio_regs word_addr) (not32 masked_write))
              (bit_and write_bits masked_write))
            h.mmio_regs;
    }

-- `write` behind the log, on the word of the address, the lane's mask and the value's bits in the lane.
unfoldable pub write_word : DeviceHub → ℕ → ℕ → ℕ → DeviceHub
write_word h word_addr lane_mask write_bits =
    if word_addr == scu_ist_addr
    then record h {
      scu_interrupt_pending = bit_or h.scu_interrupt_pending (bit_and write_bits 0xFFFF);
    }
    else if word_addr == scu_ist_clear_addr
    then record h {
      scu_interrupt_pending = bit_and h.scu_interrupt_pending (not32 (bit_and write_bits 0xFFFF));
      scu_interrupt_source_pending =
          bit_and h.scu_interrupt_source_pending (not32 (bit_and write_bits 0xFFFF));
    }
    else if word_addr == scu_ist_source_set_addr
    then record h {
      scu_interrupt_source_pending =
          bit_or h.scu_interrupt_source_pending (bit_and write_bits 0xFFFF);
    }
    else if word_addr == scu_ist_source_clear_addr
    then record h {
      scu_interrupt_source_pending =
          bit_and h.scu_interrupt_source_pending (not32 (bit_and write_bits 0xFFFF));
    }
    else if word_addr == smpc_command_addr
    then record h {
      smpc_last_command = bit_and write_bits 0xFF;
      smpc_command_result = bit_or 0xA500_0000 (bit_and write_bits 0xFF);
    }
    else if word_addr == vdp1_scu_irq_bridge_addr
    then record h {
      vdp1_irq_level = bit_and write_bits 0x1;
      scu_interrupt_source_pending =
          if not (bit_and (bit_and write_bits 0x1) 0x1 == 0)
          then bit_or h.scu_interrupt_source_pending vdp1_scu_irq_mask
          else bit_and h.scu_interrupt_source_pending (not32 vdp1_scu_irq_mask);
    }
    else if word_addr == vdp1_command_addr
    then record h {
      vdp1_last_command = bit_and write_bits 0xFF;
      vdp1_command_pending = not (bit_and write_bits 0xFF == 0);
    }
    else if word_addr == vdp1_event_trigger_addr
    then (if not (bit_and write_bits 0x1 == 0) then signal_vdp1_completion h else h)
    else if word_addr == vdp1_command_complete_addr
    then (if not (bit_and write_bits 0x1 == 0) && h.vdp1_command_pending
        then signal_vdp1_completion h
        else h)
    else write_persisted h word_addr lane_mask write_bits

-- `DeviceHub::write`, its log entry included.
unfoldable pub device_write : DeviceHub → ℕ → ℤ → ℕ → ℕ → ℕ → DeviceHub
device_write h t cpu addr size value =
    write_word
      (record h {
        writes = h.writes ++ record { t = t; cpu = cpu; addr = addr; value = value } ∷ [];
      })
      (word_addr_of addr) (lane_mask_of addr size) (write_bits_of addr size value)
