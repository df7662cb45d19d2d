-- ===== src/Dev/Tests.antt =====
-- Runs of src/dev/devices.cpp on small inputs.
use saturnis.Base.{◌+◌, ◌≡◌, refl, true, not, ◌&&◌, List, [], ◌∷◌, arith, ltb}
use saturnis.Base.Integer.{pos}
use saturnis.Base.Bits.{test_bit}
use saturnis.Dev.{DeviceHub, MmioWriteLog, new_hub, device_read, device_write, write_word}
use saturnis.Dev.Map.{
  scu_ist_addr, scu_ist_clear_addr, scu_ist_source_set_addr, smpc_command_addr, vdp2_tvmd_addr,
  vdp1_command_addr, vdp1_command_complete_addr, register_spec, lane_shift, size_mask,
}
use saturnis.Dev.Plain.{spec_bit, device_read-write}
use saturnis.Dev.Interrupts.{interrupt_clear_bits}
use saturnis.Dev.History.{WriteCall}

-- An SMPC command, as CPU 0 writes it.
abbrev after_command : DeviceHub
after_command = device_write new_hub 10 (pos 0) smpc_command_addr 4 0x1A

command_result : after_command.smpc_command_result ≡ 0xA500_001A
unfolding device_write write_word lane_shift size_mask
command_result = refl

device_read-write_example :
    test_bit
      (device_read (device_write new_hub 1 (pos 0) vdp2_tvmd_addr 2 0x8001) vdp2_tvmd_addr 2)
      0
    ≡ spec_bit (register_spec vdp2_tvmd_addr) (lane_shift vdp2_tvmd_addr 2 + 0) (test_bit 0x8001 0)
unfolding test_bit
device_read-write_example =
    device_read-write new_hub 1 (pos 0) vdp2_tvmd_addr 2 0x8001 0 refl (omega arith)

abbrev raised : DeviceHub
raised = device_write new_hub 1 (pos 0) scu_ist_source_set_addr 4 0x21

interrupt_clear_bits_example :
    test_bit
      (device_read (device_write raised 2 (pos 1) scu_ist_clear_addr 4 0x20) scu_ist_addr 4)
      5
    ≡ (test_bit (device_read raised scu_ist_addr 4) 5 && not (test_bit 0x20 5 && ltb 5 16))
interrupt_clear_bits_example = interrupt_clear_bits raised 2 (pos 1) 0x20 5 (omega arith)

abbrev commanded : DeviceHub
commanded = device_write new_hub 1 (pos 1) vdp1_command_addr 4 7

commanded_pending : commanded.vdp1_command_pending ≡ true
unfolding device_write write_word lane_shift size_mask
commanded_pending = refl

odd_word : test_bit 1 0 ≡ true
unfolding test_bit
odd_word = refl

abbrev finished : DeviceHub
finished = device_write commanded 2 (pos 1) vdp1_command_complete_addr 4 1

abbrev second_completion : MmioWriteLog
second_completion = record { t = 3; cpu = pos 0; addr = vdp1_command_complete_addr; value = 1 }

abbrev calls : List WriteCall
calls =
    record { t = 1; cpu = pos 0; addr = smpc_command_addr; size = 4; value = 0x1A }
    ∷ record { t = 2; cpu = pos 1; addr = vdp2_tvmd_addr; size = 2; value = 0x8001 }
    ∷ []
