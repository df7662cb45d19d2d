-- ===== src/Bus/Batch.antt =====
-- src/bus/bus_arbiter.cpp: `pick_next`, `commit_batch` and `commit_pending`. An index that the source
-- takes into a vector is always inside it; `op_at` gives an operation of its own elsewhere.
use saturnis.Base.{
  ℕ, zero, suc, max, Bool, true, false, not, ◌&&◌, ◌||◌, List, [], ◌∷◌, ltb, ◌==◌, if◌then◌else◌,
  length, get_or, set, replicate, remove_at,
}
use saturnis.Base.Integer.{pos, eq_ℤ, ltb_ℤ}
use saturnis.Bus.{
  CommitResult, BusArbiter, has_safe_horizon, commit_horizon, validate_enqueue_contract,
  execute_commit,
}
use saturnis.Bus.Op.{BusOp, barrier, auto}
use saturnis.Bus.Rules.{producer_slot, same_slot, class_code, is_cpu, filled}

-- `CommitResult{i, op, {}}`.
abbrev pub pending_result : ℕ → BusOp → CommitResult
pending_result i op = record {
  input_index = i;
  op = op;
  response = record {
    value = 0;
    stall = 0;
    start_time = 0;
    commit_time = 0;
    line_base = 0;
    line_data = [];
  };
}

abbrev pub blank_op : BusOp
blank_op = record {
  cpu_id = pos 0;
  req_time = 0;
  sequence = 0;
  kind = barrier;
  phys_addr = 0;
  size = 4;
  data_word = 0;
  fill_cache_line = false;
  cache_line_size = 0;
  producer = auto;
  producer_token = 0;
}

abbrev pub result_at : List CommitResult → ℕ → CommitResult
result_at pending i = get_or pending i (pending_result 0 blank_op)

abbrev pub op_at : List CommitResult → ℕ → BusOp
op_at pending i = (result_at pending i).op

-- `std::max(op.req_time, bus_free_time_)`.
abbrev pub earliest : BusArbiter → BusOp → ℕ
earliest a op = max op.req_time a.bus_free_time

-- The body of the loop of `pick_next` for a candidate that can start as early as the best so far.
unfoldable pub beats : BusArbiter → BusOp → BusOp → Bool
beats a candidate cur =
    if same_slot (producer_slot candidate) (producer_slot cur)
    then ltb candidate.sequence cur.sequence
      || (candidate.sequence == cur.sequence && ltb candidate.req_time cur.req_time)
    else if ltb (class_code (a.policy cur)) (class_code (a.policy candidate))
    then true
    else if ltb (class_code (a.policy candidate)) (class_code (a.policy cur))
    then false
    else if is_cpu candidate.cpu_id && is_cpu cur.cpu_id && not (eq_ℤ candidate.cpu_id cur.cpu_id)
    then eq_ℤ candidate.cpu_id (if eq_ℤ a.last_grant_cpu (pos 0) then pos 1 else pos 0)
    else if not (eq_ℤ candidate.cpu_id cur.cpu_id)
    then ltb_ℤ candidate.cpu_id cur.cpu_id
    else ltb candidate.sequence cur.sequence

-- The loop, with `best` and `best_start`.
unfoldable pub pick_from : BusArbiter → List CommitResult → ℕ → ℕ → List ℕ → ℕ
pick_from a pending best best_start [] = best
pick_from a pending best best_start (idx ∷ rest) =
    let candidate = op_at pending idx in
    let start = earliest a candidate in
    let wins =
      ltb start best_start || (start == best_start && beats a candidate (op_at pending best)) in
    pick_from a pending (if wins then idx else best) (if wins then start else best_start) rest

-- `pick_next`, whose committable indices are not empty: the first and the others.
unfoldable pub pick_next : BusArbiter → List CommitResult → ℕ → List ℕ → ℕ
pick_next a pending first rest =
    pick_from a pending first (earliest a (op_at pending first)) (first ∷ rest)

-- The loop that sets `had_tie`.
unfoldable pub had_tie_in : BusArbiter → List CommitResult → ℕ → List ℕ → Bool
had_tie_in a pending next_idx [] = false
had_tie_in a pending next_idx (i ∷ rest) =
    (not (i == next_idx)
      && earliest a (op_at pending i) == earliest a (op_at pending next_idx)
      && class_code (a.policy (op_at pending i)) == class_code (a.policy (op_at pending next_idx)))
    || had_tie_in a pending next_idx rest

abbrev pub may_commit : BusArbiter → BusOp → Bool
may_commit a op =
    not a.progress_tracking_enabled || (has_safe_horizon a && ltb op.req_time (commit_horizon a))

-- The loop that collects the committable indices, from index `i` on.
unfoldable pub committable_from : BusArbiter → ℕ → List CommitResult → List ℕ
committable_from a i [] = []
committable_from a i (r ∷ rest) =
    let others = committable_from a (suc i) rest in if may_commit a r.op then i ∷ others else others

-- One turn of the loop of `commit_batch` behind its choice of the committable indices.
unfoldable pub commit_next :
    BusArbiter → List CommitResult → ℕ → List ℕ → BusArbiter × CommitResult × List CommitResult
commit_next a pending first rest =
    let next_idx = pick_next a pending first rest in
    let had_tie = had_tie_in a pending next_idx (first ∷ rest) in
    let chosen = result_at pending next_idx in
    let (b, response) = execute_commit a chosen.op had_tie in
    (b, record chosen { response = response }, remove_at pending next_idx)

-- The loop of `commit_batch`: what it leaves, and the results in the order of their commits. Every turn
-- takes one operation out of `pending`, so its length is fuel enough.
unfoldable pub commit_loop : ℕ → BusArbiter → List CommitResult → BusArbiter × List CommitResult
commit_loop zero a pending = (a, [])
commit_loop (suc n) a pending =
    if a.trace.should_halt then (a, []) else elim (committable_from a 0 pending) [
      | [] ↦ (a, [])
      | first ∷ rest ↦
          let (b, result, left) = commit_next a pending first rest in
          let (c, results) = commit_loop n b left in (c, result ∷ results)
    ]

-- The loop that checks the operations' order of arrival, from index `i` on.
unfoldable pub enqueue_from : BusArbiter → ℕ → List BusOp → BusArbiter × List CommitResult
enqueue_from a i [] = (a, [])
enqueue_from a i (op ∷ ops) =
    if a.trace.should_halt
    then (a, [])
    else let (b, accepted) = validate_enqueue_contract a op in
      let (c, pending) = enqueue_from b (suc i) ops in
      (c, if accepted then pending_result i op ∷ pending else pending)

unfoldable pub commit_batch : BusArbiter → List BusOp → BusArbiter × List CommitResult
commit_batch a ops =
    let cleared = record a {
      producer_enqueued_seen = filled false;
      producer_last_enqueued_req_time = filled 0;
    } in
    let (b, pending) = enqueue_from cleared 0 ops in commit_loop (length pending) b pending

-- The loop that sets `was_committed`.
unfoldable pub mark_committed : List Bool → List CommitResult → List Bool
mark_committed was [] = was
mark_committed was (r ∷ rest) =
    mark_committed (if ltb r.input_index (length was) then set was r.input_index true else was) rest

unfoldable pub unmarked : List Bool → List BusOp → List BusOp
unmarked was [] = []
unmarked [] (op ∷ ops) = op ∷ ops
unmarked (w ∷ was) (op ∷ ops) = let rest = unmarked was ops in if w then rest else op ∷ rest

-- What is left of `pending_ops`, and the results.
unfoldable pub commit_pending :
    BusArbiter → List BusOp → BusArbiter × List BusOp × List CommitResult
commit_pending a pending_ops =
    let (b, committed) = commit_batch a pending_ops in
    elim committed [
      | [] ↦ (b, pending_ops, [])
      | first ∷ rest ↦ (
        b,
        unmarked (mark_committed (replicate (length pending_ops) false) (first ∷ rest)) pending_ops,
        first ∷ rest,
      )
    ]
