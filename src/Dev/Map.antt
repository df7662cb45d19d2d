-- ===== src/Dev/Map.antt =====
-- The register map of src/dev/devices.cpp: addresses, register specifications, lanes and the persisted
-- values.
use saturnis.Base.{
  ℕ, ◌-◌, ◌*◌, Option, none, some, List, [], ◌∷◌, bit_and, bit_or, ◌==◌, if◌then◌else◌,
}
use saturnis.Base.Word.{not32, shl32}

abbrev pub display_status_addr : ℕ
display_status_addr = 0x05F0_0010

abbrev pub scu_ims_addr : ℕ
scu_ims_addr = 0x05FE_00A0

abbrev pub scu_ist_addr : ℕ
scu_ist_addr = 0x05FE_00A4

abbrev pub scu_ist_clear_addr : ℕ
scu_ist_clear_addr = 0x05FE_00A8

abbrev pub scu_ist_source_set_addr : ℕ
scu_ist_source_set_addr = 0x05FE_00AC

abbrev pub scu_ist_source_clear_addr : ℕ
scu_ist_source_clear_addr = 0x05FE_00B0

abbrev pub scu_dma0_src_addr : ℕ
scu_dma0_src_addr = 0x05FE_0020

abbrev pub scu_dma0_size_addr : ℕ
scu_dma0_size_addr = 0x05FE_0028

abbrev pub scu_dma0_ctrl_addr : ℕ
scu_dma0_ctrl_addr = 0x05FE_002C

abbrev pub smpc_status_addr : ℕ
smpc_status_addr = 0x05D0_0080

abbrev pub smpc_command_addr : ℕ
smpc_command_addr = 0x05D0_0084

abbrev pub smpc_command_result_addr : ℕ
smpc_command_result_addr = 0x05D0_0088

abbrev pub vdp2_tvmd_addr : ℕ
vdp2_tvmd_addr = 0x05F8_0000

abbrev pub vdp2_tvstat_addr : ℕ
vdp2_tvstat_addr = 0x05F8_0004

abbrev pub scsp_mcier_addr : ℕ
scsp_mcier_addr = 0x05C0_0000

abbrev pub vdp1_scu_irq_bridge_addr : ℕ
vdp1_scu_irq_bridge_addr = 0x05D0_008C

abbrev pub vdp1_event_trigger_addr : ℕ
vdp1_event_trigger_addr = 0x05D0_0090

abbrev pub vdp1_event_status_addr : ℕ
vdp1_event_status_addr = 0x05D0_0094

abbrev pub vdp1_command_addr : ℕ
vdp1_command_addr = 0x05D0_0098

abbrev pub vdp1_command_status_addr : ℕ
vdp1_command_status_addr = 0x05D0_009C

abbrev pub vdp1_command_complete_addr : ℕ
vdp1_command_complete_addr = 0x05D0_00A0

abbrev pub vdp1_scu_irq_mask : ℕ
vdp1_scu_irq_mask = 0x20

pub record MmioRegisterSpec : Type 0 where
  pub reset_value : ℕ
  pub writable_mask : ℕ

abbrev spec : ℕ → ℕ → Option MmioRegisterSpec
spec reset mask = some (record { reset_value = reset; writable_mask = mask })

unfoldable pub register_spec : ℕ → Option MmioRegisterSpec
register_spec word_addr =
    if word_addr == display_status_addr
    then spec 0x1 0x0
    else if word_addr == scu_ims_addr
    then spec 0x0 0xFFFF
    else if word_addr == scu_ist_addr
    then spec 0x0 0x0
    else if word_addr == scu_ist_clear_addr
    then spec 0x0 0xFFFF
    else if word_addr == scu_ist_source_set_addr
    then spec 0x0 0xFFFF
    else if word_addr == scu_ist_source_clear_addr
    then spec 0x0 0xFFFF
    else if word_addr == scu_dma0_src_addr
    then spec 0x0 0xFFFF_FFFF
    else if word_addr == scu_dma0_size_addr
    then spec 0x0 0xF_FFFF
    else if word_addr == scu_dma0_ctrl_addr
    then spec 0x0 0x17
    else if word_addr == smpc_status_addr
    then spec 0x1 0x0
    else if word_addr == smpc_command_addr
    then spec 0x0 0xFF
    else if word_addr == smpc_command_result_addr
    then spec 0x0 0x0
    else if word_addr == vdp2_tvmd_addr
    then spec 0x0 0xFFFF
    else if word_addr == vdp2_tvstat_addr
    then spec 0x8 0x0
    else if word_addr == scsp_mcier_addr
    then spec 0x0 0x7FF
    else if word_addr == vdp1_scu_irq_bridge_addr
    then spec 0x0 0x1
    else if word_addr == vdp1_event_trigger_addr
    then spec 0x0 0x1
    else if word_addr == vdp1_event_status_addr
    then spec 0x0 0x0
    else if word_addr == vdp1_command_addr
    then spec 0x0 0xFF
    else if word_addr == vdp1_command_status_addr
    then spec 0x0 0x0
    else if word_addr == vdp1_command_complete_addr
    then spec 0x0 0x1
    else none

unfoldable pub lane_shift : ℕ → ℕ → ℕ
lane_shift addr size =
    if size == 1
    then (3 - bit_and addr 0x3) * 8
    else if size == 2
    then (2 - bit_and addr 0x2) * 8
    else 0

unfoldable pub size_mask : ℕ → ℕ
size_mask size = if size == 1 then 0xFF else if size == 2 then 0xFFFF else 0xFFFF_FFFF

unfoldable pub materialize_register_value : Option MmioRegisterSpec → ℕ → ℕ
materialize_register_value none persisted_value = persisted_value
materialize_register_value (some reg) persisted_value =
    bit_or (bit_and reg.reset_value (not32 reg.writable_mask))
      (bit_and persisted_value reg.writable_mask)

-- `mmio_regs_`, as an association list with one entry for a key.
abbrev pub Registers : Type 0
Registers = List (ℕ × ℕ)

unfoldable pub read_persisted_or_zero : Registers → ℕ → ℕ
read_persisted_or_zero [] word_addr = 0
read_persisted_or_zero ((k, v) ∷ regs) word_addr =
    if k == word_addr then v else read_persisted_or_zero regs word_addr

-- `mmio_regs_[word_addr] = value`.
unfoldable pub put_register : ℕ → ℕ → Registers → Registers
put_register word_addr value [] = (word_addr, value) ∷ []
put_register word_addr value ((k, v) ∷ regs) =
    if k == word_addr then (word_addr, value) ∷ regs else (k, v) ∷ put_register word_addr value regs

abbrev pub word_addr_of : ℕ → ℕ
word_addr_of addr = bit_and addr 0xFFFF_FFFC

-- The bits of a word that a write may change.
abbrev pub writable : Option MmioRegisterSpec → ℕ
writable none = 0xFFFF_FFFF
writable (some reg) = reg.writable_mask

-- The lane's mask, and the bits that a value puts in the lane.
abbrev pub lane_mask_of : ℕ → ℕ → ℕ
lane_mask_of addr size = shl32 (size_mask size) (lane_shift addr size)

abbrev pub write_bits_of : ℕ → ℕ → ℕ → ℕ
write_bits_of addr size value =
    bit_and (shl32 value (lane_shift addr size)) (lane_mask_of addr size)
