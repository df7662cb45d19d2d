-- ===== src/Driver/Scripts.antt =====
-- The scripts of src/core/emulator.cpp: pairs of scripts for the two CPUs.
use saturnis.Base.{ℕ, zero, suc, ◌+◌, ◌*◌, ◌%◌, ◌^◌, List, [], ◌∷◌}
use saturnis.Scripted.{
  ScriptOpKind, script_read, script_write, script_compute, script_barrier, ScriptOp,
}

abbrev script_op : ScriptOpKind → ℕ → ℕ → ℕ → ℕ → ScriptOp
script_op kind vaddr size value cycles = record {
  kind = kind;
  vaddr = vaddr;
  size = size;
  value = value;
  cycles = cycles;
}

abbrev ram_addr : ℕ → ℕ
ram_addr i = 0x2000 + i % 4 * 4

abbrev mmio_addr : ℕ → ℕ
mmio_addr i = 0x05FE_00AC + i % 2 * 4

-- The loop from turn `i` on, with `n` turns to go.
unfoldable pub contention_from : ℕ → ℕ → List ScriptOp × List ScriptOp
contention_from zero i = ([], [])
contention_from (suc n) i =
    let (ops0, ops1) = contention_from n (suc i) in
    (
      script_op script_write (ram_addr i) 4 (0x1000_0000 + i) 0
          ∷ script_op script_read (ram_addr i) 4 0 0
          ∷ script_op script_write (mmio_addr i) 4 (2 ^ (i % 8)) 0
          ∷ script_op script_barrier 0 0 0 0
          ∷ ops0,
      script_op script_read (ram_addr i) 4 0 0
          ∷ script_op script_write (ram_addr i) 4 (0x2000_0000 + i) 0
          ∷ script_op script_read (mmio_addr i) 4 0 0
          ∷ script_op script_barrier 0 0 0 0
          ∷ ops1,
    )

unfoldable pub contention_stress_scripts : List ScriptOp × List ScriptOp
contention_stress_scripts = contention_from 32 0

-- The loop from command `cmd` on, with `n` commands to go: the owner's script and the other's.
unfoldable pub vdp1_events_from : ℕ → ℕ → List ScriptOp × List ScriptOp
vdp1_events_from zero cmd = ([], [])
vdp1_events_from (suc n) cmd =
    let (owner, other) = vdp1_events_from n (suc cmd) in
    (
      script_op script_write 0x05D0_0098 4 cmd 0
          ∷ script_op script_write 0x05D0_00A0 4 1 0
          ∷ script_op script_read 0x05D0_0094 4 0 0
          ∷ owner,
      script_op script_read 0x05FE_00A4 4 0 0
          ∷ script_op script_write 0x05FE_00A8 4 0x20 0
          ∷ script_op script_read 0x05D0_009C 4 0 0
          ∷ other,
    )

unfoldable pub vdp1_source_event_stress_scripts : List ScriptOp × List ScriptOp
vdp1_source_event_stress_scripts = vdp1_events_from 6 1

unfoldable pub vdp1_source_event_stress_scripts_cpu1_owner : List ScriptOp × List ScriptOp
vdp1_source_event_stress_scripts_cpu1_owner =
    let (owner, other) = vdp1_events_from 6 1 in (other, owner)

unfoldable pub dual_demo_scripts : List ScriptOp × List ScriptOp
dual_demo_scripts = (
  script_op script_write 0x1000 4 0xDEAD_BEEF 0
      ∷ script_op script_compute 0 0 0 3
      ∷ script_op script_write 0x2000_1000 4 0xC0FF_EE11 0
      ∷ script_op script_write 0x05F0_0020 4 0x1234 0
      ∷ [],
  script_op script_read 0x1000 4 0 0
      ∷ script_op script_compute 0 0 0 2
      ∷ script_op script_read 0x2000_1000 4 0 0
      ∷ script_op script_read 0x05F0_0010 4 0 0
      ∷ [],
)
