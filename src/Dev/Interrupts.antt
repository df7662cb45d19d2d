-- ===== src/Dev/Interrupts.antt =====
-- The interrupt words and the VDP1 command protocol of src/dev/devices.cpp.
use saturnis.Base.{
  ℕ, ◌+◌, ◌%◌, ◌<◌, ◌≡◌, refl, sym, ap, ◌∙◌, true, false, not, ◌&&◌, ◌||◌, [], ◌∷◌, ◌++◌, bit_and,
  bit_or, arith, ltb, ◌==◌,
}
use saturnis.Base.Integer.{ℤ}
use saturnis.Base.Word.{not32, test_bit-not32, u32}
use saturnis.Base.Bits.{test_bit, test_bit-bit_and, test_bit-bit_or, test_bit-mask, bit_and_mask}
use saturnis.Dev.{
  DeviceHub, MmioWriteLog, register_value, device_read, device_write, write_word,
  signal_vdp1_completion,
}
use saturnis.Dev.Map.{
  scu_ims_addr, scu_ist_addr, scu_ist_clear_addr, scu_ist_source_set_addr,
  vdp1_command_complete_addr, vdp1_scu_irq_mask, register_spec, lane_shift,
  materialize_register_value, read_persisted_or_zero, word_addr_of, write_bits_of,
}
use saturnis.Dev.Lanes.{test_bit-write_bits, test_bit-read_lane}

-- The mask register's word.
abbrev pub interrupt_mask : DeviceHub → ℕ
interrupt_mask h =
    materialize_register_value (register_spec scu_ims_addr)
      (read_persisted_or_zero h.mmio_regs scu_ims_addr)

-- A full word is read and written with no shift.
long_bit :
    (h : DeviceHub) (addr i : ℕ)
    → i < 32
    → test_bit (device_read h addr 4) i ≡ test_bit (register_value h (word_addr_of addr)) i
unfolding device_read lane_shift
long_bit h addr i k =
    let e : 0 + i ≡ i = omega arith in
    test_bit-read_lane (register_value h (word_addr_of addr)) addr 4 i k
    ∙ ap (test_bit (register_value h (word_addr_of addr))) e

long_write_bit :
    (addr value i : ℕ) → i < 32 → test_bit (write_bits_of addr 4 value) i ≡ test_bit value i
unfolding lane_shift
long_write_bit addr value i k =
    let e : 0 + i ≡ i = omega arith in
    ap (test_bit (write_bits_of addr 4 value)) (sym e) ∙ test_bit-write_bits addr 4 value i k

low_bits : (x i : ℕ) → test_bit (bit_and x 0xFFFF) i ≡ (test_bit x i && ltb i 16)
low_bits x i = test_bit-bit_and x 0xFFFF i ∙ ap (λ b. test_bit x i && b) (test_bit-mask 16 i)

status_word :
    (h : DeviceHub)
    → register_value h scu_ist_addr
      ≡ bit_and
          (bit_or h.scu_interrupt_pending h.scu_interrupt_source_pending)
          (not32 (interrupt_mask h))
unfolding register_value
status_word h = refl

-- The interrupt status has a bit where either kind of interrupt is pending and the mask lets it pass.
pub interrupt_status_bits :
    (h : DeviceHub) (i : ℕ)
    → i < 32
    → test_bit (device_read h scu_ist_addr 4) i ≡ (
        (test_bit h.scu_interrupt_pending i || test_bit h.scu_interrupt_source_pending i)
        && not (test_bit (interrupt_mask h) i))
interrupt_status_bits h i k =
    long_bit h scu_ist_addr i k
    ∙ ground (
      arith,
      status_word h,
      test_bit-bit_and (bit_or h.scu_interrupt_pending h.scu_interrupt_source_pending)
          (not32 (interrupt_mask h)) i,
      test_bit-bit_or h.scu_interrupt_pending h.scu_interrupt_source_pending i,
      test_bit-not32 (interrupt_mask h) i k,
    )

-- Writing a word to the clear register takes the interrupts of its low 16 bits out of the status and
-- leaves every other bit of the status as it was.
pub interrupt_clear_bits :
    (h : DeviceHub) (t : ℕ) (cpu : ℤ) (value i : ℕ)
    → i < 32
    → test_bit (device_read (device_write h t cpu scu_ist_clear_addr 4 value) scu_ist_addr 4) i
      ≡ (test_bit (device_read h scu_ist_addr 4) i && not (test_bit value i && ltb i 16))
unfolding device_write write_word
interrupt_clear_bits h t cpu value i k =
    let bits = write_bits_of scu_ist_clear_addr 4 value in
    let h' = device_write h t cpu scu_ist_clear_addr 4 value in
    ground (
      arith,
      interrupt_status_bits h i k,
      interrupt_status_bits h' i k,
      test_bit-bit_and h.scu_interrupt_pending (not32 (bit_and bits 0xFFFF)) i,
      test_bit-bit_and h.scu_interrupt_source_pending (not32 (bit_and bits 0xFFFF)) i,
      test_bit-not32 (bit_and bits 0xFFFF) i k,
      low_bits bits i,
      long_write_bit scu_ist_clear_addr value i k,
    )

-- Writing a word to the source register raises the interrupts of its low 16 bits, as far as the mask lets
-- them pass, and keeps those that were there.
pub interrupt_source_bits :
    (h : DeviceHub) (t : ℕ) (cpu : ℤ) (value i : ℕ)
    → i < 32
    → test_bit (device_read (device_write h t cpu scu_ist_source_set_addr 4 value) scu_ist_addr 4) i
      ≡ (test_bit (device_read h scu_ist_addr 4) i
          || (test_bit value i && ltb i 16 && not (test_bit (interrupt_mask h) i)))
unfolding device_write write_word
interrupt_source_bits h t cpu value i k =
    let bits = write_bits_of scu_ist_source_set_addr 4 value in
    let h' = device_write h t cpu scu_ist_source_set_addr 4 value in
    ground (
      arith,
      interrupt_status_bits h i k,
      interrupt_status_bits h' i k,
      test_bit-bit_or h.scu_interrupt_source_pending (bit_and bits 0xFFFF) i,
      low_bits bits i,
      long_write_bit scu_ist_source_set_addr value i k,
    )

odd_bit :
    (addr value : ℕ)
    → test_bit value 0 ≡ true
    → not (bit_and (write_bits_of addr 4 value) 0x1 == 0) ≡ true
unfolding test_bit
odd_bit addr value h =
    let bits = write_bits_of addr 4 value in
    let e : test_bit bits 0 ≡ true = long_write_bit addr value 0 (omega arith) ∙ h in
    ground (arith, odd bits e, bit_and_mask 1 bits)
  where
    odd : (x : ℕ) → test_bit x 0 ≡ true → x % 2 ≡ 1
    odd x k = ground arith

irq_mask_bit : test_bit vdp1_scu_irq_mask 5 ≡ true
unfolding test_bit
irq_mask_bit = refl

-- A write of an odd word to the completion register, with a command pending, finishes that command: both
-- counters go up by one, the interrupt line and its source bit are raised, and the command is no longer
-- pending.
pub vdp1_completes :
    (h : DeviceHub) (t : ℕ) (cpu : ℤ) (value : ℕ)
    → h.vdp1_command_pending ≡ true
    → test_bit value 0 ≡ true
    → let h' = device_write h t cpu vdp1_command_complete_addr 4 value in
      (h'.vdp1_event_counter ≡ u32 (h.vdp1_event_counter + 1))
      × (h'.vdp1_completed_counter ≡ u32 (h.vdp1_completed_counter + 1))
      × (h'.vdp1_irq_level ≡ 1)
      × (test_bit h'.scu_interrupt_source_pending 5 ≡ true)
      × (h'.vdp1_command_pending ≡ false)
unfolding device_write write_word signal_vdp1_completion
vdp1_completes h t cpu value p odd = ground (
  arith,
  odd_bit vdp1_command_complete_addr value odd,
  test_bit-bit_or h.scu_interrupt_source_pending vdp1_scu_irq_mask 5,
  irq_mask_bit,
)

write_complete-idle :
    (h : DeviceHub) (mask bits : ℕ)
    → h.vdp1_command_pending ≡ false
    → write_word h vdp1_command_complete_addr mask bits ≡ h
unfolding write_word
write_complete-idle h mask bits p = ground arith

completed :
    (h : DeviceHub) (t : ℕ) (cpu : ℤ) (value : ℕ)
    → test_bit value 0 ≡ true
    → (device_write h t cpu vdp1_command_complete_addr 4 value).vdp1_command_pending ≡ false
unfolding device_write write_word signal_vdp1_completion
completed h t cpu value odd = ground (arith, odd_bit vdp1_command_complete_addr value odd)

-- A completion with no command pending changes nothing but the log; so a command that was finished is not
-- finished twice.
pub vdp1_completes_once :
    (h : DeviceHub) (t u : ℕ) (cpu dpu : ℤ) (value later size : ℕ)
    → test_bit value 0 ≡ true
    → let h' = device_write h t cpu vdp1_command_complete_addr 4 value in
      let entry : MmioWriteLog = record {
        t = u;
        cpu = dpu;
        addr = vdp1_command_complete_addr;
        value = later;
      } in
      device_write h' u dpu vdp1_command_complete_addr size later
      ≡ record h' { writes = h'.writes ++ entry ∷ [] }
unfolding device_write
vdp1_completes_once h t u cpu dpu value later size odd =
    let h' = device_write h t cpu vdp1_command_complete_addr 4 value in
    let entry : MmioWriteLog = record {
      t = u;
      cpu = dpu;
      addr = vdp1_command_complete_addr;
      value = later;
    } in
    write_complete-idle (record h' { writes = h'.writes ++ entry ∷ [] }) _ _
      (completed h t cpu value odd)
