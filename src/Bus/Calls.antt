-- ===== src/Bus/Calls.antt =====
-- src/bus/bus_arbiter.cpp: the arbiter's memory and devices through any calls to it.
use mathlib.Core.List.{append_assoc, append-nil}
use saturnis.Base.{
  ℕ, zero, suc, ◌+◌, ◌≡◌, ◌⊎◌, inl, inr, refl, sym, ap, subst, ◌∙◌, Bool, false, List, [], ◌∷◌,
  ◌++◌, arith, length, replicate,
}
use saturnis.Base.Integer.{ℤ}
use saturnis.Base.Word.{u64}
use saturnis.Mem.{memory_write}
use saturnis.Mem.Bytes.{length-store}
use saturnis.Dev.{DeviceHub, MmioWriteLog, device_write}
use saturnis.Dev.History.{IsHub, device_write-IsHub, write_word-writes}
use saturnis.Bus.{
  BusResponse, CommitResult, BusArbiter, fault_response, validate_enqueue_contract, perform, grant,
  execute_commit, commit, commit_dma, contention_extra, start_of, update_progress,
}
use saturnis.Bus.Op.{BusOp}
use saturnis.Bus.Commits.{if_holds}
use saturnis.Bus.Rules.{base_latency, filled}
use saturnis.Bus.Batch.{
  enqueue_from, committable_from, commit_next, commit_loop, commit_batch, commit_pending, pick_next,
  had_tie_in, result_at, unmarked, mark_committed,
}

-- What an arbiter becomes: the devices have their invariant, their log has only grown at its end, and memory
-- has its size.
pub record Continues (a b : BusArbiter) : Type 0 where
  pub hub : IsHub b.devices
  pub log : (ws : List MmioWriteLog) × (b.devices.writes ≡ a.devices.writes ++ ws)
  pub memory_size : length b.memory.bytes ≡ length a.memory.bytes

Continues-trans : (a b c : BusArbiter) → Continues a b → Continues b c → Continues a c
Continues-trans a b c g h = record {
  hub = h.hub;
  log = (
    g.log.0 ++ h.log.0,
    h.log.1 ∙ ap (λ ws. ws ++ h.log.0) g.log.1 ∙ append_assoc a.devices.writes g.log.0 h.log.0,
  );
  memory_size = h.memory_size ∙ g.memory_size;
}

-- Neither memory nor devices are touched.
still :
    (a b : BusArbiter)
    → IsHub a.devices
    → b.devices ≡ a.devices
    → b.memory ≡ a.memory
    → Continues a b
still a b v same kept = record {
  hub = subst IsHub (sym same) v;
  log = ([], ap (λ (h : DeviceHub). h.writes) same ∙ sym (append-nil a.devices.writes));
  memory_size = ap (λ m. length m.bytes) kept;
}

device_write-log :
    (h : DeviceHub) (t : ℕ) (cpu : ℤ) (addr size value : ℕ)
    → (device_write h t cpu addr size value).writes
      ≡ h.writes ++ record { t = t; cpu = cpu; addr = addr; value = value } ∷ []
unfolding device_write
device_write-log h t cpu addr size value = write_word-writes _ _ _ _

abbrev finish_of : BusArbiter → BusOp → Bool → ℕ
finish_of a op had_tie =
    u64 (start_of a op + u64 (base_latency a.latency op + contention_extra a op had_tie))

execute_commit-devices :
    (a : BusArbiter) (op : BusOp) (had_tie : Bool)
    → let b = (execute_commit a op had_tie).0 in
      (b.devices ≡ a.devices)
      ⊎ (b.devices
          ≡ device_write a.devices
              (finish_of a op had_tie)
              op.cpu_id
              op.phys_addr
              op.size
              op.data_word)
unfolding execute_commit grant perform fault_response
execute_commit-devices a op had_tie = ground arith

execute_commit-memory :
    (a : BusArbiter) (op : BusOp) (had_tie : Bool)
    → length (execute_commit a op had_tie).0.memory.bytes ≡ length a.memory.bytes
unfolding execute_commit grant perform fault_response memory_write
execute_commit-memory a op had_tie =
    ground (arith, length-store a.memory.bytes op.phys_addr op.size op.data_word)

execute_commit-Continues :
    (a : BusArbiter) (op : BusOp) (had_tie : Bool)
    → IsHub a.devices
    → Continues a (execute_commit a op had_tie).0
execute_commit-Continues a op had_tie v =
    let b = (execute_commit a op had_tie).0 in
    let finish = finish_of a op had_tie in
    elim (execute_commit-devices a op had_tie) [
      | inl same ↦ record {
        hub = subst IsHub (sym same) v;
        log = ([], ap (λ (h : DeviceHub). h.writes) same ∙ sym (append-nil a.devices.writes));
        memory_size = execute_commit-memory a op had_tie;
      }
      | inr wrote ↦ record {
        hub =
            subst IsHub (sym wrote)
              (device_write-IsHub a.devices finish op.cpu_id op.phys_addr op.size op.data_word v);
        log = (
          record { t = finish; cpu = op.cpu_id; addr = op.phys_addr; value = op.data_word } ∷ [],
          ap (λ (h : DeviceHub). h.writes) wrote
              ∙ device_write-log a.devices finish op.cpu_id op.phys_addr op.size op.data_word,
        );
        memory_size = execute_commit-memory a op had_tie;
      }
    ]

-- The contract of `commit` and of `commit_batch` writes at most to the trace.
validate-Continues :
    (a : BusArbiter) (op : BusOp) → IsHub a.devices → Continues a (validate_enqueue_contract a op).0
unfolding validate_enqueue_contract fault_response
validate-Continues a op v =
    still a (validate_enqueue_contract a op).0 v (ground arith) (ground arith)

commit-Continues : (a : BusArbiter) (op : BusOp) → IsHub a.devices → Continues a (commit a op).0
unfolding commit
commit-Continues a op v =
    let b = (validate_enqueue_contract a op).0 in
    let first = validate-Continues a op v in
    if_holds (λ (p : BusArbiter × BusResponse). Continues a p.0) a.trace.should_halt
      (still a a v refl refl)
      (if_holds (λ (p : BusArbiter × BusResponse). Continues a p.0)
        (validate_enqueue_contract a op).1
        (Continues-trans a b (execute_commit b op false).0 first
          (execute_commit-Continues b op false first.hub))
        first)

enqueue_from-Continues :
    (a : BusArbiter) (k : ℕ) (ops : List BusOp)
    → IsHub a.devices
    → Continues a (enqueue_from a k ops).0
unfolding enqueue_from
enqueue_from-Continues a k [] v = still a a v refl refl
enqueue_from-Continues a k (op ∷ ops) v =
    let b = (validate_enqueue_contract a op).0 in
    let first = validate-Continues a op v in
    if_holds (λ (p : BusArbiter × List CommitResult). Continues a p.0) a.trace.should_halt
      (still a a v refl refl)
      (Continues-trans a b (enqueue_from b (suc k) ops).0 first
        (enqueue_from-Continues b (suc k) ops first.hub))

commit_next-Continues :
    (a : BusArbiter) (pending : List CommitResult) (first : ℕ) (rest : List ℕ)
    → IsHub a.devices
    → Continues a (commit_next a pending first rest).0
unfolding commit_next
commit_next-Continues a pending first rest v =
    let i = pick_next a pending first rest in
    execute_commit-Continues a (result_at pending i).op (had_tie_in a pending i (first ∷ rest)) v

commit_loop-Continues :
    (n : ℕ) (a : BusArbiter) (pending : List CommitResult)
    → IsHub a.devices
    → Continues a (commit_loop n a pending).0
unfolding commit_loop
commit_loop-Continues zero a pending v = still a a v refl refl
commit_loop-Continues (suc n) a pending v =
    if_holds (λ (p : BusArbiter × List CommitResult). Continues a p.0) a.trace.should_halt
      (still a a v refl refl)
      (turn (committable_from a 0 pending) (λ b left w. commit_loop-Continues n b left w))
  where
    turn :
        (offered : List ℕ)
        → ((b : BusArbiter) (left : List CommitResult)
            → IsHub b.devices
            → Continues b (commit_loop n b left).0)
        → Continues a
            (elim offered as (λ x. BusArbiter × List CommitResult) [
              | [] ↦ (a, [])
              | first ∷ rest ↦
                  let (b, result, left) = commit_next a pending first rest in
                  let (c, results) = commit_loop n b left in (c, result ∷ results)
            ]).0
    turn [] rec = still a a v refl refl
    turn (first ∷ rest) rec =
        let (b, result, left) = commit_next a pending first rest in
        let step = commit_next-Continues a pending first rest v in
        Continues-trans a b (commit_loop n b left).0 step (rec b left step.hub)

commit_batch-Continues :
    (a : BusArbiter) (ops : List BusOp) → IsHub a.devices → Continues a (commit_batch a ops).0
unfolding commit_batch
commit_batch-Continues a ops v =
    let cleared = record a {
      producer_enqueued_seen = filled false;
      producer_last_enqueued_req_time = filled 0;
    } in
    let (b, pending) = enqueue_from cleared 0 ops in
    let cleared_step = still a cleared v refl refl in
    let enqueued = enqueue_from-Continues cleared 0 ops v in
    Continues-trans a cleared (commit_loop (length pending) b pending).0 cleared_step (
      Continues-trans cleared b (commit_loop (length pending) b pending).0 enqueued
        (commit_loop-Continues (length pending) b pending enqueued.hub))

commit_pending-batch :
    (a : BusArbiter) (ops : List BusOp) → (commit_pending a ops).0 ≡ (commit_batch a ops).0
unfolding commit_pending
commit_pending-batch a ops = go (commit_batch a ops).1
  where
    b : BusArbiter
    b = (commit_batch a ops).0

    go :
        (committed : List CommitResult)
        → (elim committed as (λ x. BusArbiter × List BusOp × List CommitResult) [
          | [] ↦ (b, ops, [])
          | first ∷ rest ↦ (
            b,
            unmarked (mark_committed (replicate (length ops) false) (first ∷ rest)) ops,
            first ∷ rest,
          )
        ]).0
          ≡ b
    go [] = refl
    go (first ∷ rest) = refl

-- One call to the arbiter.
pub data Call : Type 0 where
  commit_call dma_call : BusOp → Call
  batch_call pending_call : List BusOp → Call
  progress_call : ℤ → ℕ → Call

pub run_call : BusArbiter → Call → BusArbiter
run_call a (commit_call op) = (commit a op).0
run_call a (dma_call op) = (commit_dma a op).0
run_call a (batch_call ops) = (commit_batch a ops).0
run_call a (pending_call ops) = (commit_pending a ops).0
run_call a (progress_call cpu t) = update_progress a cpu t

pub run_calls : BusArbiter → List Call → BusArbiter
run_calls a [] = a
run_calls a (c ∷ cs) = run_calls (run_call a c) cs

run_call-Continues : (a : BusArbiter) (c : Call) → IsHub a.devices → Continues a (run_call a c)
unfolding run_call commit_dma update_progress
run_call-Continues a (commit_call op) v = commit-Continues a op v
run_call-Continues a (dma_call op) v = commit-Continues a _ v
run_call-Continues a (batch_call ops) v = commit_batch-Continues a ops v
run_call-Continues a (pending_call ops) v =
    subst (Continues a) (sym (commit_pending-batch a ops)) (commit_batch-Continues a ops v)
run_call-Continues a (progress_call cpu t) v =
    still a (update_progress a cpu t) v (ground arith) (ground arith)

-- Whatever calls are made, of `commit`, `commit_dma`, `commit_batch`, `commit_pending` and `update_progress`, faulty
-- and refused ones included, the devices keep their invariant, among them that the two VDP1 counters agree, that a
-- command result echoes the last command and that a pending VDP1 command is not 0; no entry of the log of device
-- writes is lost or changed; and memory keeps its size.
pub run_calls-Continues :
    (a : BusArbiter) (cs : List Call) → IsHub a.devices → Continues a (run_calls a cs)
unfolding run_calls
run_calls-Continues a [] v = still a a v refl refl
run_calls-Continues a (c ∷ cs) v =
    let step = run_call-Continues a c v in
    Continues-trans a (run_call a c) (run_calls (run_call a c) cs) step
      (run_calls-Continues (run_call a c) cs step.hub)
