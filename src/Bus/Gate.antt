-- ===== src/Bus/Gate.antt =====
-- `commit_batch` of src/bus/bus_arbiter.cpp leaves the published progress as it is.
use saturnis.Base.{
  ℕ, zero, suc, Bool, true, false, ◌≡◌, refl, ◌∙◌, List, [], ◌∷◌, if◌then◌else◌, length, get_elem?,
  some, All,
}
use saturnis.Bus.{CommitResult, BusArbiter}
use saturnis.Bus.Op.{BusOp}
use saturnis.Bus.Rules.{filled}
use saturnis.Bus.Batch.{
  enqueue_from, committable_from, commit_next, commit_loop, commit_batch, may_commit, pick_next,
  had_tie_in, result_at,
}
use saturnis.Bus.Committable.{SameGate, execute_commit-SameGate}
use saturnis.Bus.Batches.{enqueue_from-Enqueued, commit_batch-inputs}

SameGate-trans : (a b c : BusArbiter) → SameGate a b → SameGate b c → SameGate a c
SameGate-trans a b c g h = (h.0 ∙ g.0, h.1 ∙ g.1, h.2 ∙ g.2, h.3 ∙ g.3)

commit_next-SameGate :
    (a : BusArbiter) (pending : List CommitResult) (first : ℕ) (rest : List ℕ)
    → SameGate a (commit_next a pending first rest).0
unfolding commit_next
commit_next-SameGate a pending first rest =
    let i = pick_next a pending first rest in
    execute_commit-SameGate a (result_at pending i).op (had_tie_in a pending i (first ∷ rest))

commit_loop-SameGate :
    (n : ℕ) (a : BusArbiter) (pending : List CommitResult) → SameGate a (commit_loop n a pending).0
unfolding commit_loop
commit_loop-SameGate zero a pending = (refl, refl, refl, refl)
commit_loop-SameGate (suc n) a pending =
    halted a.trace.should_halt (committable_from a 0 pending)
      (λ b left. commit_loop-SameGate n b left)
  where
    halted :
        (h : Bool) (offered : List ℕ)
        → ((b : BusArbiter) (left : List CommitResult) → SameGate b (commit_loop n b left).0)
        → SameGate a
            (if◌then◌else◌ {A = BusArbiter × List CommitResult} h
              (a, [])
              (elim offered as (λ x. BusArbiter × List CommitResult) [
                | [] ↦ (a, [])
                | first ∷ rest ↦
                    let (b, result, left) = commit_next a pending first rest in
                    let (c, results) = commit_loop n b left in (c, result ∷ results)
              ])).0
    halted true offered rec = (refl, refl, refl, refl)
    halted false [] rec = (refl, refl, refl, refl)
    halted false (first ∷ rest) rec =
        let (b, result, left) = commit_next a pending first rest in
        SameGate-trans a b (commit_loop n b left).0 (commit_next-SameGate a pending first rest)
          (rec b left)

pub commit_batch-SameGate : (a : BusArbiter) (ops : List BusOp) → SameGate a (commit_batch a ops).0
unfolding commit_batch
commit_batch-SameGate a ops =
    let cleared = record a {
      producer_enqueued_seen = filled false;
      producer_last_enqueued_req_time = filled 0;
    } in
    let (b, pending) = enqueue_from cleared 0 ops in
    SameGate-trans cleared b (commit_loop (length pending) b pending).0
      (enqueue_from-Enqueued cleared 0 ops).0 (commit_loop-SameGate (length pending) b pending)

-- A batch of one operation that may not be committed commits nothing.
pub commit_batch-none :
    (a : BusArbiter) (op : BusOp) → may_commit a op ≡ false → (commit_batch a (op ∷ [])).1 ≡ []
commit_batch-none a op closed = go (commit_batch a (op ∷ [])).1 (commit_batch-inputs a (op ∷ []))
  where
    only :
        (r : CommitResult) (i : ℕ)
        → may_commit a r.op ≡ true
        → get_elem? (op ∷ []) i ≡ some r.op
        → ⊥
    only r zero c e = cc
    only r (suc i) c e = cc

    go :
        (results : List CommitResult)
        → All
            (λ r. (may_commit a r.op ≡ true) × (get_elem? (op ∷ []) r.input_index ≡ some r.op))
            results
        → results ≡ []
    go [] h = refl
    go (r ∷ rest) h = absurd (only r r.input_index h.0.0 h.0.1)
