-- ===== src/Driver/Bios.antt =====
-- `run_bios_trace` of src/core/emulator.cpp: two SH-2 cores on a BIOS image.
use saturnis.Base.{
  ℕ, zero, suc, ◌+◌, false, Option, none, some, List, [], ◌∷◌, ◌++◌, ltb, ◌==◌, if◌then◌else◌,
  length, get_or,
}
use saturnis.Base.Integer.{pos}
use saturnis.Base.Word.{u32, u64}
use saturnis.Mem.{CommittedMemory, new_memory, memory_write}
use saturnis.Dev.{new_hub}
use saturnis.Trace.{TraceLog, new_trace}
use saturnis.Bus.{CommitResult, BusArbiter, new_bus_arbiter, update_progress, commit_dma}
use saturnis.Bus.Op.{BusOp, BusKind, mmio_write, mmio_read, auto}
use saturnis.Bus.Rules.{default_latency}
use saturnis.Bus.Batch.{commit_batch}
use saturnis.Sh2.{Sh2Core, new_sh2_core, reset}
use saturnis.Sh2.Produce.{produce_until_bus}
use saturnis.Sh2.Apply.{apply_ifetch_and_step}

-- The loop that writes the image to memory, from byte `i` on.
unfoldable pub load_image : CommittedMemory → ℕ → List ℕ → CommittedMemory
load_image m i [] = m
load_image m i (byte ∷ image) = load_image (memory_write m (u32 i) 1 byte) (suc i) image

pub record BiosMachine : Type 0 where
  pub master : Sh2Core
  pub slave : Sh2Core
  pub arbiter : BusArbiter
  pub p0 : Option BusOp
  pub p1 : Option BusOp
  pub seq : ℕ

unfoldable pub new_bios_machine : CommittedMemory → BiosMachine
new_bios_machine memory = record {
  master = reset (new_sh2_core (pos 0)) 0 0x1_FFF0;
  slave = reset (new_sh2_core (pos 1)) 0 0x1_FFF0;
  arbiter = new_bus_arbiter memory new_hub new_trace none default_latency;
  p0 = none;
  p1 = none;
  seq = 0;
}

-- `if (!p) ... produce_until_bus(seq++, trace, 16)`, for the master and for the slave.
unfoldable pub produce_master : BiosMachine → BiosMachine
produce_master s = elim s.p0 [
  | some op ↦ s
  | none ↦
      let p = produce_until_bus s.master s.seq s.arbiter.trace 16 in
      record s {
        master = p.core;
        arbiter = record s.arbiter { trace = p.trace };
        p0 = p.result.op;
        seq = u64 (s.seq + 1);
      }
]

unfoldable pub produce_slave : BiosMachine → BiosMachine
produce_slave s = elim s.p1 [
  | some op ↦ s
  | none ↦
      let p = produce_until_bus s.slave s.seq s.arbiter.trace 16 in
      record s {
        slave = p.core;
        arbiter = record s.arbiter { trace = p.trace };
        p1 = p.result.op;
        seq = u64 (s.seq + 1);
      }
]

-- `p ? p->req_time + 1 : core.local_time()`.
abbrev pub core_watermark : Sh2Core → Option BusOp → ℕ
core_watermark c none = c.t
core_watermark c (some op) = u64 (op.req_time + 1)

unfoldable pub publish_cores : BiosMachine → BiosMachine
publish_cores s = record s {
  arbiter =
      update_progress (update_progress s.arbiter (pos 0) (core_watermark s.master s.p0)) (pos 1)
        (core_watermark s.slave s.p1);
}

-- `fetches` and `cpus`.
abbrev pub fetch_of : Option BusOp → List BusOp
fetch_of none = []
fetch_of (some op) = op ∷ []

abbrev pub cpus_of : Option BusOp → Option BusOp → List ℕ
cpus_of none none = []
cpus_of none (some q) = 1 ∷ []
cpus_of (some p) none = 0 ∷ []
cpus_of (some p) (some q) = 0 ∷ 1 ∷ []

-- The body of the loop over the results.
unfoldable pub deliver_fetch : List ℕ → BiosMachine → CommitResult → BiosMachine
deliver_fetch cpus s result =
    if get_or cpus result.input_index 1 == 0
    then (let (c, trace) = apply_ifetch_and_step s.master result.response s.arbiter.trace in
        record s { master = c; arbiter = record s.arbiter { trace = trace }; p0 = none })
    else (let (c, trace) = apply_ifetch_and_step s.slave result.response s.arbiter.trace in
        record s { slave = c; arbiter = record s.arbiter { trace = trace }; p1 = none })

unfoldable pub deliver_fetches : List ℕ → BiosMachine → List CommitResult → BiosMachine
deliver_fetches cpus s [] = s
deliver_fetches cpus s (result ∷ rest) = deliver_fetches cpus (deliver_fetch cpus s result) rest

unfoldable pub commit_fetches : BiosMachine → BiosMachine
commit_fetches s =
    let fetches = fetch_of s.p0 ++ fetch_of s.p1 in
    if length fetches == 0
    then s
    else let (a, committed) = commit_batch s.arbiter fetches in
      deliver_fetches (cpus_of s.p0 s.p1) (record s { arbiter = a }) committed

-- The body of the loop. Where the source breaks, its condition ends the loop before the next turn.
unfoldable pub bios_turn : BiosMachine → BiosMachine
bios_turn s = commit_fetches (publish_cores (produce_slave (produce_master s)))

-- The loop on fuel: `none` where the fuel is used up.
unfoldable pub run_bios_loop : ℕ → ℕ → BiosMachine → Option BiosMachine
run_bios_loop zero max_steps s = none
run_bios_loop (suc n) max_steps s =
    let rest = run_bios_loop n max_steps (bios_turn s) in
    if ltb (u64 (s.master.executed + s.slave.executed)) max_steps then rest else some s

-- The write and the read of DMA after the loop.
abbrev pub probe_op : ℕ → ℕ → BusKind → ℕ → BusOp
probe_op req_time sequence kind value = record {
  cpu_id = pos 0;
  req_time = req_time;
  sequence = sequence;
  kind = kind;
  phys_addr = 0x05FE_00AC;
  size = 4;
  data_word = value;
  fill_cache_line = false;
  cache_line_size = 0;
  producer = auto;
  producer_token = 0;
}

unfoldable pub dma_probe : BiosMachine → BusArbiter
dma_probe s =
    let (a, written) = commit_dma s.arbiter (probe_op 0 s.seq mmio_write 0x31) in
    let (b, value) = commit_dma a (probe_op 1 (u64 (s.seq + 1)) mmio_read 0) in b

unfoldable pub run_bios_trace : ℕ → List ℕ → ℕ → Option TraceLog
run_bios_trace fuel bios_image max_steps =
    let start = new_bios_machine (load_image (new_memory 0x200_0000) 0 bios_image) in
    elim (run_bios_loop fuel max_steps start) [ none ↦ none | some s ↦ some (dma_probe s).trace ]
