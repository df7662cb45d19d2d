-- ===== src/Driver.antt =====
-- src/core/emulator.cpp: the single-threaded driver of two scripted CPUs, `run_scripted_pair`. The trace
-- that the source passes on beside the arbiter is the arbiter's own.
pub mod Scripts
pub mod Bios
pub mod Threads
pub mod Image
pub mod Starvation
mod Tests
use saturnis.Base.{
  ℕ, zero, suc, ◌+◌, Bool, true, false, ◌&&◌, Option, none, some, List, [], ◌∷◌, ◌++◌, leb, ◌==◌,
  if◌then◌else◌, length, get_or,
}
use saturnis.Base.Integer.{pos}
use saturnis.Base.Word.{u64}
use saturnis.Bus.{CommitResult, BusArbiter, update_progress}
use saturnis.Bus.Op.{BusOp}
use saturnis.Bus.Batch.{commit_batch}
use saturnis.Scripted.{PendingBusOp, ScriptedCpu, produce, apply_response}

pub record ScriptedPair : Type 0 where
  pub cpu0 : ScriptedCpu
  pub cpu1 : ScriptedCpu
  pub arbiter : BusArbiter
  pub p0 : Option PendingBusOp
  pub p1 : Option PendingBusOp

abbrev pub new_pair : ScriptedCpu → ScriptedCpu → BusArbiter → ScriptedPair
new_pair cpu0 cpu1 arbiter = record {
  cpu0 = cpu0;
  cpu1 = cpu1;
  arbiter = arbiter;
  p0 = none;
  p1 = none;
}

abbrev pub is_done : ScriptedCpu → Bool
is_done c = leb (length c.script) c.pc

-- `if (!p && !cpu.done()) p = cpu.produce();`
abbrev pub refill : ScriptedCpu → Option PendingBusOp → ScriptedCpu × Option PendingBusOp
refill c (some p) = (c, some p)
refill c none = if is_done c then (c, none) else produce c

-- `p ? p->op.req_time + 1 : cpu.local_time()`.
abbrev pub watermark : ScriptedCpu → Option PendingBusOp → ℕ
watermark c (some p) = u64 (p.op.req_time + 1)
watermark c none = c.local_time

-- The first part of a turn: new requests, and the progress that they show.
unfoldable pub publish : ScriptedPair → ScriptedPair
publish s =
    let (cpu0, p0) = refill s.cpu0 s.p0 in
    let (cpu1, p1) = refill s.cpu1 s.p1 in
    record {
      cpu0 = cpu0;
      cpu1 = cpu1;
      p0 = p0;
      p1 = p1;
      arbiter =
          update_progress (update_progress s.arbiter (pos 0) (watermark cpu0 p0)) (pos 1)
            (watermark cpu1 p1);
    }

abbrev pub is_none : Option PendingBusOp → Bool
is_none none = true
is_none (some p) = false

abbrev pub is_finished : ScriptedPair → Bool
is_finished s = is_none s.p0 && is_none s.p1 && is_done s.cpu0 && is_done s.cpu1

abbrev pub ops_of : Option PendingBusOp → List BusOp
ops_of none = []
ops_of (some p) = p.op ∷ []

-- `pending_cpu`, whose entries are 0 and 1.
abbrev pub pending_cpu : Option PendingBusOp → Option PendingBusOp → List ℕ
pending_cpu none none = []
pending_cpu none (some p) = 1 ∷ []
pending_cpu (some p) none = 0 ∷ []
pending_cpu (some p) (some q) = 0 ∷ 1 ∷ []

-- A response handed to the CPU of a pending operation, with the trace.
abbrev pub respond :
    ScriptedCpu → BusArbiter → Option PendingBusOp → CommitResult → ScriptedCpu × BusArbiter
respond c a none r = (c, a)
respond c a (some p) r =
    let (d, trace) =
      apply_response c p.script_index r.response p.op.producer_token (some a.trace) in
    elim trace [ none ↦ (d, a) | some log ↦ (d, record a { trace = log }) ]

-- The body of the loop over the results; `who` is `pending_cpu` of the turn.
unfoldable pub deliver : List ℕ → ScriptedPair → CommitResult → ScriptedPair
deliver who s r =
    if get_or who r.input_index 1 == 0
    then (let (c, a) = respond s.cpu0 s.arbiter s.p0 r in
        record s { cpu0 = c; arbiter = a; p0 = none })
    else (let (c, a) = respond s.cpu1 s.arbiter s.p1 r in
        record s { cpu1 = c; arbiter = a; p1 = none })

unfoldable pub deliver_all : List ℕ → ScriptedPair → List CommitResult → ScriptedPair
deliver_all who s [] = s
deliver_all who s (r ∷ rest) = deliver_all who (deliver who s r) rest

-- The second part of a turn: the pending operations as a batch, and the responses.
unfoldable pub commit_turn : ScriptedPair → ScriptedPair
commit_turn s =
    let ops = ops_of s.p0 ++ ops_of s.p1 in
    if length ops == 0
    then s
    else let (a, committed) = commit_batch s.arbiter ops in
      deliver_all (pending_cpu s.p0 s.p1) (record s { arbiter = a }) committed

-- The loop on fuel: `none` where the fuel is used up.
unfoldable pub run_scripted_pair : ℕ → ScriptedPair → Option ScriptedPair
run_scripted_pair zero s = none
run_scripted_pair (suc n) s =
    let next = publish s in
    let rest = run_scripted_pair n (commit_turn next) in
    if is_finished next then some next else rest
