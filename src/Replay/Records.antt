-- ===== src/Replay/Records.antt =====
-- tools/trace_replay/trace_replay.cpp: the records of a trace, how a line is parsed as one, and how the tool
-- classifies them. The fixed names that it prints are constructors.
use saturnis.Base.{
  ℕ, ◌+◌, ◌%◌, ◌^◌, Bool, false, not, ◌&&◌, Option, none, some, leb, ◌==◌, if◌then◌else◌,
}
use saturnis.Base.Word.{u32}
use saturnis.Busarb.{BusMasterId, sh2_a, sh2_b, dma, ArbiterConfig, same_master}
use saturnis.Replay.Text.{Text, codes, eq_text, find_value_span, parse_u64, parse_addr}

pub record TraceRecord : Type 0 where
  pub seq : ℕ
  pub master : Text
  pub tick_first_attempt : ℕ
  pub tick_complete : ℕ
  pub addr : ℕ
  pub addr_text : Text
  pub size : ℕ
  pub rw : Text
  pub kind : Text
  pub service_cycles : ℕ
  pub retries : ℕ
  pub source_line : ℕ

infixl 5 ◌>>=◌
abbrev pub ◌>>=◌ {ℓ κ} : {A : Type ℓ} {B : Type κ} → Option A → (A → Option B) → Option B
none >>= f = none
some a >>= f = f a

-- The fields are looked up first, and then read.
unfoldable pub parse_record : Text → ℕ → Option TraceRecord
parse_record line source_line = do
  seq ← find_value_span line (codes "seq")
  master ← find_value_span line (codes "master")
  tick_first_attempt ← find_value_span line (codes "tick_first_attempt")
  tick_complete ← find_value_span line (codes "tick_complete")
  addr ← find_value_span line (codes "addr")
  size ← find_value_span line (codes "size")
  rw_text ← find_value_span line (codes "rw")
  kind ← find_value_span line (codes "kind")
  service_cycles ← find_value_span line (codes "service_cycles")
  retries ← find_value_span line (codes "retries")
  parsed_seq ← parse_u64 seq
  parsed_tfa ← parse_u64 tick_first_attempt
  parsed_tc ← parse_u64 tick_complete
  parsed_addr ← parse_addr addr
  parsed_size ← parse_u64 size
  parsed_service ← parse_u64 service_cycles
  parsed_retries ← parse_u64 retries
  some (record {
    seq = parsed_seq;
    master = master;
    tick_first_attempt = parsed_tfa;
    tick_complete = parsed_tc;
    addr = parsed_addr;
    addr_text = addr;
    size = parsed_size % 2 ^ 8;
    rw = rw_text;
    kind = kind;
    service_cycles = u32 parsed_service;
    retries = u32 parsed_retries;
    source_line = source_line;
  })

unfoldable pub parse_master : Text → Option BusMasterId
parse_master master =
    if eq_text master (codes "MSH2")
    then some sh2_a
    else if eq_text master (codes "SSH2")
    then some sh2_b
    else if eq_text master (codes "DMA")
    then some dma
    else none

pub data Region : Type 0 where
  bios_rom smpc backup_ram low_wram minit_sinit a_bus_cs01 a_bus_dummy cd_block scsp : Region
  vdp1_vram vdp1_fb vdp1_regs vdp2 scu_regs high_wram on_chip_regs unmapped : Region

-- The number of a region in the order of the names, by which names are told apart.
abbrev pub region_code : Region → ℕ
region_code bios_rom = 0
region_code smpc = 1
region_code backup_ram = 2
region_code low_wram = 3
region_code minit_sinit = 4
region_code a_bus_cs01 = 5
region_code a_bus_dummy = 6
region_code cd_block = 7
region_code scsp = 8
region_code vdp1_vram = 9
region_code vdp1_fb = 10
region_code vdp1_regs = 11
region_code vdp2 = 12
region_code scu_regs = 13
region_code high_wram = 14
region_code on_chip_regs = 15
region_code unmapped = 16

abbrev between : ℕ → ℕ → ℕ → Bool
between low high addr = leb low addr && leb addr high

unfoldable pub region_name : ℕ → Region
region_name addr =
    if leb addr 0x00FF_FFFF
    then bios_rom
    else if between 0x0100_0000 0x017F_FFFF addr
    then smpc
    else if between 0x0180_0000 0x01FF_FFFF addr
    then backup_ram
    else if between 0x0200_0000 0x02FF_FFFF addr
    then low_wram
    else if between 0x1000_0000 0x1FFF_FFFF addr
    then minit_sinit
    else if between 0x2000_0000 0x4FFF_FFFF addr
    then a_bus_cs01
    else if between 0x0500_0000 0x057F_FFFF addr
    then a_bus_dummy
    else if between 0x0580_0000 0x058F_FFFF addr
    then cd_block
    else if between 0x05A0_0000 0x05BF_FFFF addr
    then scsp
    else if between 0x05C0_0000 0x05C7_FFFF addr
    then vdp1_vram
    else if between 0x05C8_0000 0x05CF_FFFF addr
    then vdp1_fb
    else if between 0x05D0_0000 0x05D7_FFFF addr
    then vdp1_regs
    else if between 0x05E0_0000 0x05FB_FFFF addr
    then vdp2
    else if between 0x05FE_0000 0x05FE_FFFF addr
    then scu_regs
    else if between 0x0600_0000 0x07FF_FFFF addr
    then high_wram
    else if between 0xFFFF_FE00 0xFFFF_FFFF addr
    then on_chip_regs
    else unmapped

unfoldable pub is_high_wram : ℕ → Bool
is_high_wram addr = leb 0x0600_0000 addr && leb addr 0x07FF_FFFF

pub data CacheBucket : Type 0 where
  not_applicable cache_hit uncached_or_through cache_miss_half cache_miss_full anomaly : CacheBucket

abbrev pub bucket_code : CacheBucket → ℕ
bucket_code not_applicable = 0
bucket_code cache_hit = 1
bucket_code uncached_or_through = 2
bucket_code cache_miss_half = 3
bucket_code cache_miss_full = 4
bucket_code anomaly = 5

unfoldable pub classify_cache_bucket : ℕ → ℕ → CacheBucket
unfolding is_high_wram
classify_cache_bucket addr service_cycles =
    if not (is_high_wram addr)
    then not_applicable
    else if service_cycles == 1
    then cache_hit
    else if service_cycles == 2
    then uncached_or_through
    else if service_cycles == 4
    then cache_miss_half
    else if service_cycles == 8
    then cache_miss_full
    else anomaly

-- Two SH-2s that ask at the same tick.
abbrev is_sh2_tie : TraceRecord → TraceRecord → Option BusMasterId → Option BusMasterId → Bool
is_sh2_tie previous r (some p) (some c) =
    previous.tick_first_attempt == r.tick_first_attempt
    && not (same_master p dma)
    && not (same_master c dma)
    && not (same_master p c)
is_sh2_tie previous r _ _ = false

unfoldable pub estimate_local_wait_cycles : TraceRecord → Option TraceRecord → ArbiterConfig → ℕ
estimate_local_wait_cycles r none config = 0
estimate_local_wait_cycles r (some previous) config =
    let same = if previous.addr == r.addr then config.same_address_contention else 0 in
    let tie =
      if is_sh2_tie previous r (parse_master previous.master) (parse_master r.master)
      then config.tie_turnaround
      else 0 in
    u32 (same + tie)
