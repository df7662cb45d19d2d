-- ===== src/Dev/History.antt =====
-- What holds of the hub of src/dev/devices.cpp after any history of writes.
use mathlib.Core.List.{append-nil, append_assoc}
use saturnis.Base.{
  subst, ℕ, ◌+◌, ◌^◌, ◌≤◌, ◌<◌, ◌≡◌, sym, ap, ◌∙◌, ◌⊎◌, inl, inr, true, List, [], ◌∷◌, ◌++◌, map,
  bit_and, bit_or, arith, All,
}
use saturnis.Base.Integer.{ℤ}
use saturnis.Base.Word.{not32, not32-lt}
use saturnis.Base.Bits.{bit_and-le, bit_and-le_left, bit_or-lt, bit_or_fields}
use saturnis.Dev.{
  DeviceHub, MmioWriteLog, new_hub, device_write, write_word, write_persisted,
  signal_vdp1_completion,
}
use saturnis.Dev.Map.{
  Registers, register_spec, writable, read_persisted_or_zero, put_register, vdp1_scu_irq_mask,
  word_addr_of, lane_mask_of, write_bits_of,
}

abbrev pub AreWords : Registers → Type 0
AreWords regs = All (λ kv. kv.1 < 2 ^ 32) regs

-- The fields but for the persisted registers.
pub record IsControl (h : DeviceHub) : Type 0 where
  pub pending_word : h.scu_interrupt_pending < 2 ^ 16
  pub source_word : h.scu_interrupt_source_pending < 2 ^ 16
  pub command_byte : h.smpc_last_command < 256
  pub result_echoes :
      (h.smpc_command_result ≡ 0) ⊎ (h.smpc_command_result ≡ 0xA500_0000 + h.smpc_last_command)
  pub irq_bit : h.vdp1_irq_level ≤ 1
  pub vdp1_command_byte : h.vdp1_last_command < 256
  pub counters_agree : h.vdp1_event_counter ≡ h.vdp1_completed_counter
  pub counter_word : h.vdp1_event_counter < 2 ^ 32
  pub pending_has_command : h.vdp1_command_pending ≡ true → 0 < h.vdp1_last_command

writable_word : (w : ℕ) → writable (register_spec w) < 2 ^ 32
unfolding register_spec
writable_word w = ground arith

put-AreWords :
    (k v : ℕ) (regs : Registers) → v < 2 ^ 32 → AreWords regs → AreWords (put_register k v regs)
unfolding put_register
put-AreWords k v [] h hs = (h, tt)
put-AreWords k v ((j, w) ∷ regs) h hs = ground (arith, put-AreWords k v regs h hs.1)

persisted_word : (regs : Registers) (w : ℕ) → AreWords regs → read_persisted_or_zero regs w < 2 ^ 32
unfolding read_persisted_or_zero
persisted_word [] w hs = omega arith
persisted_word ((j, v) ∷ regs) w hs = ground (arith, persisted_word regs w hs.1)

write_persisted-AreWords :
    (h : DeviceHub) (w mask bits : ℕ)
    → AreWords h.mmio_regs
    → AreWords (write_persisted h w mask bits).mmio_regs
unfolding write_persisted
write_persisted-AreWords h w mask bits hs =
    let mw = bit_and mask (writable (register_spec w)) in
    let old = bit_and (read_persisted_or_zero h.mmio_regs w) (not32 mw) in
    let mw_word : mw < 2 ^ 32 =
      omega (arith, bit_and-le mask (writable (register_spec w)), writable_word w) in
    let new_word : bit_or old (bit_and bits mw) < 2 ^ 32 =
      bit_or-lt 32 old (bit_and bits mw)
        (omega (
          arith,
          bit_and-le (read_persisted_or_zero h.mmio_regs w) (not32 mw),
          not32-lt mw mw_word,
        ))
        (omega (arith, bit_and-le bits mw)) in
    ground (arith, put-AreWords w (bit_or old (bit_and bits mw)) h.mmio_regs new_word hs)

write_persisted-IsControl :
    (h : DeviceHub) (w mask bits : ℕ) → IsControl h → IsControl (write_persisted h w mask bits)
unfolding write_persisted
write_persisted-IsControl h w mask bits v = ground arith

signal-IsControl : (h : DeviceHub) → IsControl h → IsControl (signal_vdp1_completion h)
unfolding signal_vdp1_completion
signal-IsControl h v = ground (
  arith,
  bit_or-lt 16 h.scu_interrupt_source_pending vdp1_scu_irq_mask v.source_word (omega arith),
)

write_word-IsControl :
    (h : DeviceHub) (w mask bits : ℕ) → IsControl h → IsControl (write_word h w mask bits)
unfolding write_word
write_word-IsControl h w mask bits v =
    let b = bit_and bits 0xFFFF in
    let c = bit_and bits 0xFF in
    let source = h.scu_interrupt_source_pending in
    ground (
      arith,
      bit_and-le bits 0xFF,
      bit_and-le bits 0x1,
      bit_or_fields 8 0xA5_0000 c (omega (arith, bit_and-le bits 0xFF)),
      bit_and-le_left h.scu_interrupt_pending (not32 b),
      bit_and-le_left source (not32 b),
      bit_and-le_left source (not32 vdp1_scu_irq_mask),
      bit_or-lt 16 h.scu_interrupt_pending b v.pending_word (omega (arith, bit_and-le bits 0xFFFF)),
      bit_or-lt 16 source b v.source_word (omega (arith, bit_and-le bits 0xFFFF)),
      bit_or-lt 16 source vdp1_scu_irq_mask v.source_word (omega arith),
      signal-IsControl h v,
      write_persisted-IsControl h w mask bits v,
    )

write_word-registers :
    (h : DeviceHub) (w mask bits : ℕ)
    → ((write_word h w mask bits).mmio_regs ≡ h.mmio_regs)
      ⊎ ((write_word h w mask bits).mmio_regs ≡ (write_persisted h w mask bits).mmio_regs)
unfolding write_word signal_vdp1_completion
write_word-registers h w mask bits = ground arith

pub write_word-writes :
    (h : DeviceHub) (w mask bits : ℕ) → (write_word h w mask bits).writes ≡ h.writes
unfolding write_word signal_vdp1_completion write_persisted
write_word-writes h w mask bits = ground arith

pub record IsHub (h : DeviceHub) : Type 0 where
  pub control : IsControl h
  pub register_words : AreWords h.mmio_regs

pub device_write-IsHub :
    (h : DeviceHub) (t : ℕ) (cpu : ℤ) (addr size value : ℕ)
    → IsHub h
    → IsHub (device_write h t cpu addr size value)
unfolding device_write
device_write-IsHub h t cpu addr size value v =
    let w = word_addr_of addr in
    let mask = lane_mask_of addr size in
    let bits = write_bits_of addr size value in
    let logged = record h {
      writes = h.writes ++ record { t = t; cpu = cpu; addr = addr; value = value } ∷ [];
    } in
    record {
      control = write_word-IsControl logged w mask bits (record {
        pending_word = v.control.pending_word;
        source_word = v.control.source_word;
        command_byte = v.control.command_byte;
        result_echoes = v.control.result_echoes;
        irq_bit = v.control.irq_bit;
        vdp1_command_byte = v.control.vdp1_command_byte;
        counters_agree = v.control.counters_agree;
        counter_word = v.control.counter_word;
        pending_has_command = v.control.pending_has_command;
      });
      register_words = elim (write_word-registers logged w mask bits) [
        | inl e ↦ subst AreWords (sym e) v.register_words
        | inr e ↦
            subst AreWords (sym e) (write_persisted-AreWords logged w mask bits v.register_words)
      ];
    }

-- A call of `DeviceHub::write`.
pub record WriteCall : Type 0 where
  pub t : ℕ
  pub cpu : ℤ
  pub addr : ℕ
  pub size : ℕ
  pub value : ℕ

unfoldable pub run_writes : DeviceHub → List WriteCall → DeviceHub
run_writes h [] = h
run_writes h (c ∷ cs) = run_writes (device_write h c.t c.cpu c.addr c.size c.value) cs

run_writes-keeps : (h : DeviceHub) (cs : List WriteCall) → IsHub h → IsHub (run_writes h cs)
unfolding run_writes
run_writes-keeps h [] v = v
run_writes-keeps h (c ∷ cs) v =
    run_writes-keeps (device_write h c.t c.cpu c.addr c.size c.value) cs
      (device_write-IsHub h c.t c.cpu c.addr c.size c.value v)

-- After any writes at all to a new hub: the interrupt words have 16 bits, the command bytes 8 and the
-- interrupt level 1; the command result is 0 or echoes the last command; the two VDP1 counters agree; a
-- pending VDP1 command is not 0; and every persisted register is a 32-bit word.
pub run_writes-IsHub : (cs : List WriteCall) → IsHub (run_writes new_hub cs)
run_writes-IsHub cs =
    run_writes-keeps new_hub cs (record { control = ground arith; register_words = tt })

abbrev pub log_entry : WriteCall → MmioWriteLog
log_entry c = record { t = c.t; cpu = c.cpu; addr = c.addr; value = c.value }

-- The log holds every write, unmasked and in order, whatever the address and whether or not a register
-- changed.
pub run_writes-log :
    (h : DeviceHub) (cs : List WriteCall) → (run_writes h cs).writes ≡ h.writes ++ map log_entry cs
unfolding run_writes device_write
run_writes-log h [] = sym (append-nil h.writes)
run_writes-log h (c ∷ cs) =
    run_writes-log (device_write h c.t c.cpu c.addr c.size c.value) cs
    ∙ ap (λ ws. ws ++ map log_entry cs) (write_word-writes _ _ _ _)
    ∙ append_assoc h.writes (log_entry c ∷ []) (map log_entry cs)
