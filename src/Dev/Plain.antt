-- ===== src/Dev/Plain.antt =====
-- Words of src/dev/devices.cpp with no effect of their own: what a read sees of a write.
use saturnis.Base.{
  ℕ, ◌+◌, ◌<◌, ◌≡◌, ◌≢◌, refl, sym, ap, ◌∙◌, Bool, true, not, ◌&&◌, Option, none, some, List, [],
  ◌∷◌, bit_and, bit_or, arith, ◌==◌, if◌then◌else◌, ◌⊎◌, inl, inr, ◌++◌,
}
use saturnis.Base.Integer.{ℤ}
use saturnis.Base.Word.{not32, test_bit-not32}
use saturnis.Base.Bits.{test_bit, test_bit-bit_and, test_bit-bit_or, test_bit-mask, test_bit-zero}
use saturnis.Dev.{
  DeviceHub, MmioWriteLog, register_value, device_read, device_write, write_word, write_persisted,
}
use saturnis.Dev.Map.{
  Registers, scu_ims_addr, scu_ist_addr, scu_ist_clear_addr, scu_ist_source_set_addr,
  scu_ist_source_clear_addr, smpc_command_addr, smpc_command_result_addr, vdp1_scu_irq_bridge_addr,
  vdp1_event_trigger_addr, vdp1_event_status_addr, vdp1_command_addr, vdp1_command_status_addr,
  vdp1_command_complete_addr, MmioRegisterSpec, register_spec, lane_shift,
  materialize_register_value, read_persisted_or_zero, put_register, word_addr_of, writable,
  lane_mask_of, write_bits_of,
}
use saturnis.Dev.Lanes.{
  lane_width, lane_within, test_bit-lane_mask, test_bit-write_bits, test_bit-read_lane,
}

pub read_persisted-put :
    (k v : ℕ) (regs : Registers) (j : ℕ)
    → read_persisted_or_zero (put_register k v regs) j
      ≡ (if k == j then v else read_persisted_or_zero regs j)
unfolding read_persisted_or_zero put_register
read_persisted-put k v [] j = refl
read_persisted-put k v ((i, w) ∷ regs) j = ground (arith, read_persisted-put k v regs j)

-- Words that neither a read nor a write treats on its own.
abbrev pub is_plain : ℕ → Bool
is_plain w =
    not (w == scu_ist_addr)
    && not (w == scu_ist_clear_addr)
    && not (w == scu_ist_source_set_addr)
    && not (w == scu_ist_source_clear_addr)
    && not (w == smpc_command_addr)
    && not (w == smpc_command_result_addr)
    && not (w == vdp1_scu_irq_bridge_addr)
    && not (w == vdp1_event_trigger_addr)
    && not (w == vdp1_event_status_addr)
    && not (w == vdp1_command_addr)
    && not (w == vdp1_command_status_addr)
    && not (w == vdp1_command_complete_addr)

register_value-plain :
    (h : DeviceHub) (w : ℕ)
    → is_plain w ≡ true
    → register_value h w
      ≡ materialize_register_value (register_spec w) (read_persisted_or_zero h.mmio_regs w)
unfolding register_value
register_value-plain h w p = ground arith

write_word-plain :
    (h : DeviceHub) (w mask bits : ℕ)
    → is_plain w ≡ true
    → write_word h w mask bits ≡ write_persisted h w mask bits
unfolding write_word
write_word-plain h w mask bits p = ground arith

-- Bit i of a register's word: the persisted bit where it may be written, and the reset bit elsewhere.
abbrev pub spec_bit : Option MmioRegisterSpec → ℕ → Bool → Bool
spec_bit none i b = b
spec_bit (some reg) i b = if test_bit reg.writable_mask i then b else test_bit reg.reset_value i

test_bit-materialize :
    (spec : Option MmioRegisterSpec) (p i : ℕ)
    → i < 32
    → test_bit (materialize_register_value spec p) i ≡ spec_bit spec i (test_bit p i)
unfolding materialize_register_value
test_bit-materialize none p i h = refl
test_bit-materialize (some reg) p i h = ground (
  arith,
  test_bit-bit_or (bit_and reg.reset_value (not32 reg.writable_mask)) (bit_and p reg.writable_mask)
      i,
  test_bit-bit_and reg.reset_value (not32 reg.writable_mask) i,
  test_bit-bit_and p reg.writable_mask i,
  test_bit-not32 reg.writable_mask i h,
)

-- The persisted word after a write: the new bits in the writable part of the lane, the old elsewhere.
persisted-write :
    (h : DeviceHub) (w mask bits i : ℕ)
    → i < 32
    → test_bit (read_persisted_or_zero (write_persisted h w mask bits).mmio_regs w) i ≡ (
        if test_bit mask i && test_bit (writable (register_spec w)) i
        then test_bit bits i
        else test_bit (read_persisted_or_zero h.mmio_regs w) i)
unfolding write_persisted
persisted-write h w mask bits i k =
    let mw = bit_and mask (writable (register_spec w)) in
    let old = read_persisted_or_zero h.mmio_regs w in
    let new = bit_or (bit_and old (not32 mw)) (bit_and bits mw) in
    ground (
      arith,
      read_persisted-put w new h.mmio_regs w,
      test_bit-bit_and mask (writable (register_spec w)) i,
      test_bit-bit_or (bit_and old (not32 mw)) (bit_and bits mw) i,
      test_bit-bit_and old (not32 mw) i,
      test_bit-bit_and bits mw i,
      test_bit-not32 mw i k,
      test_bit-zero i,
    )

write_persisted-spec :
    (h : DeviceHub) (w mask bits i : ℕ)
    → i < 32
    → test_bit
        (materialize_register_value
          (register_spec w)
          (read_persisted_or_zero (write_persisted h w mask bits).mmio_regs w))
        i
      ≡ spec_bit (register_spec w) i (
          if test_bit mask i
          then test_bit bits i
          else test_bit (read_persisted_or_zero h.mmio_regs w) i)
write_persisted-spec h w mask bits i k =
    test_bit-materialize (register_spec w) _ i k
    ∙ ap (spec_bit (register_spec w) i) (persisted-write h w mask bits i k)
    ∙ spec_bit-writable (register_spec w) i k _ _ (test_bit mask i)
  where
    spec_bit-writable :
        (spec : Option MmioRegisterSpec) (j : ℕ)
        → j < 32
        → (new old in_mask : Bool)
        → spec_bit spec j (if in_mask && test_bit (writable spec) j then new else old)
          ≡ spec_bit spec j (if in_mask then new else old)
    spec_bit-writable none j l new old in_mask = ground (arith, test_bit-mask 32 j)
    spec_bit-writable (some reg) j l new old in_mask = ground arith

-- A read after a write of the same lane: each bit of it is the value's where the register may be
-- written, and the reset value's where it may not. This holds of every word that has no effect of its
-- own, known or not, of every size and address, and whatever was there before.
pub device_read-write :
    (h : DeviceHub) (t : ℕ) (cpu : ℤ) (addr size value i : ℕ)
    → is_plain (word_addr_of addr) ≡ true
    → i < lane_width size
    → test_bit (device_read (device_write h t cpu addr size value) addr size) i
      ≡ spec_bit (register_spec (word_addr_of addr)) (lane_shift addr size + i) (test_bit value i)
unfolding device_read device_write
device_read-write h t cpu addr size value i plain k =
    let w = word_addr_of addr in
    let mask = lane_mask_of addr size in
    let bits = write_bits_of addr size value in
    let s = lane_shift addr size in
    let logged = record h {
      writes = h.writes ++ record { t = t; cpu = cpu; addr = addr; value = value } ∷ [];
    } in
    let masked : test_bit mask (s + i) ≡ true =
      ground (arith, test_bit-lane_mask addr size (s + i)) in
    test_bit-read_lane (register_value (write_word logged w mask bits) w) addr size i k
    ∙ ap (λ x. test_bit (register_value x w) (s + i)) (write_word-plain logged w mask bits plain)
    ∙ ap (λ (x : ℕ). test_bit x (s + i))
        (register_value-plain (write_persisted logged w mask bits) w plain)
    ∙ write_persisted-spec logged w mask bits (s + i) (omega (arith, lane_within addr size))
    ∙ rw (masked, test_bit-write_bits addr size value i k)

write_persisted-registers :
    (h : DeviceHub) (w mask bits : ℕ)
    → write_persisted h w mask bits
      ≡ record h { mmio_regs = (write_persisted h w mask bits).mmio_regs }
unfolding write_persisted
write_persisted-registers h w mask bits = ground arith

write_persisted-other :
    (h : DeviceHub) (w mask bits j : ℕ)
    → j ≢ w
    → read_persisted_or_zero (write_persisted h w mask bits).mmio_regs j
      ≡ read_persisted_or_zero h.mmio_regs j
unfolding write_persisted
write_persisted-other h w mask bits j ne =
    let mw = bit_and mask (writable (register_spec w)) in
    ground (
      arith,
      read_persisted-put w
          (bit_or (bit_and (read_persisted_or_zero h.mmio_regs w) (not32 mw)) (bit_and bits mw))
          h.mmio_regs j,
    )

masks_kept :
    (h : DeviceHub) (v mask bits w : ℕ)
    → (v ≢ scu_ims_addr) ⊎ (w ≢ scu_ist_addr)
    → (w ≢ scu_ist_addr)
      ⊎ (read_persisted_or_zero (write_persisted h v mask bits).mmio_regs scu_ims_addr
          ≡ read_persisted_or_zero h.mmio_regs scu_ims_addr)
masks_kept h v mask bits w (inl ne) =
    inr (write_persisted-other h v mask bits scu_ims_addr (λ e. ne (sym e)))
masks_kept h v mask bits w (inr ne) = inl ne

-- What a word reads depends on the log not at all, and on the registers only at that word and, for the
-- interrupt status, at the mask.
register_value-registers :
    (h : DeviceHub) (log : List MmioWriteLog) (regs : Registers) (w : ℕ)
    → read_persisted_or_zero regs w ≡ read_persisted_or_zero h.mmio_regs w
    → (w ≢ scu_ist_addr)
      ⊎ (read_persisted_or_zero regs scu_ims_addr ≡ read_persisted_or_zero h.mmio_regs scu_ims_addr)
    → register_value (record h { writes = log; mmio_regs = regs }) w ≡ register_value h w
unfolding register_value
register_value-registers h log regs w e (inl ne) = ground arith
register_value-registers h log regs w e (inr f) = rw (e, f)

-- A write to a word with no effect of its own leaves what every other word reads as it was, but for the
-- interrupt status, which the interrupt mask masks.
pub register_value-write_other :
    (h : DeviceHub) (t : ℕ) (cpu : ℤ) (addr size value w : ℕ)
    → is_plain (word_addr_of addr) ≡ true
    → w ≢ word_addr_of addr
    → (word_addr_of addr ≢ scu_ims_addr) ⊎ (w ≢ scu_ist_addr)
    → register_value (device_write h t cpu addr size value) w ≡ register_value h w
unfolding device_write
register_value-write_other h t cpu addr size value w plain ne ims =
    let v = word_addr_of addr in
    let mask = lane_mask_of addr size in
    let bits = write_bits_of addr size value in
    let logged = record h {
      writes = h.writes ++ record { t = t; cpu = cpu; addr = addr; value = value } ∷ [];
    } in
    ap (λ x. register_value x w)
      (write_word-plain logged v mask bits plain ∙ write_persisted-registers logged v mask bits)
    ∙ register_value-registers h _ _ w (write_persisted-other logged v mask bits w ne)
        (masks_kept logged v mask bits w ims)
