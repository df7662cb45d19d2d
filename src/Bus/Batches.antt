-- ===== src/Bus/Batches.antt =====
-- `commit_batch` of src/bus/bus_arbiter.cpp: which operations it commits, and in which order.
use mathlib.Core.List.{Memᴰ}
use saturnis.Base.{
  ℕ, zero, suc, ◌+◌, ◌*◌, ◌^◌, Bool, true, false, ◌≤◌, ◌<◌, ◌≡◌, refl, sym, ap, subst, ◌∙◌, List,
  [], ◌∷◌, All, All-map, All-mem, mem-get_elem?, arith, length, get_elem?, some, remove_at,
  length-remove_at,
}
use native.Mathlib.Nat.{mul-le-mul_left}
use saturnis.Trace.{add_fault, add_commit}
use saturnis.Bus.{
  CommitResult, BusArbiter, fault_response, grant, execute_commit, contention_extra,
  validate_enqueue_contract,
}
use saturnis.Bus.Op.{BusOp}
use saturnis.Bus.Rules.{LatencyModel, base_latency, filled}
use saturnis.Bus.Batch.{
  pending_result, op_at, result_at, earliest, may_commit, commit_loop, enqueue_from, commit_batch,
}
use saturnis.Bus.Commits.{if_holds}
use saturnis.Bus.Committable.{
  SameGate, execute_commit-SameGate, may_commit-SameGate, IsTurn, commit_loop-induction,
  mem-remove_at, mem-result_at,
}

next-SameGate :
    (a : BusArbiter) (pending : List CommitResult) (b : BusArbiter) (result : CommitResult)
    (left : List CommitResult)
    → IsTurn a pending b result left
    → SameGate a b
next-SameGate a pending b result left t =
    subst (SameGate a) (sym t.next) (execute_commit-SameGate a (op_at pending t.index) t.had_tie)

-- A result of the batch stands for one of the pending operations, which may be committed.
abbrev CommitsOf : BusArbiter → List CommitResult → CommitResult → Type 0
CommitsOf a pending r =
    (may_commit a r.op ≡ true)
    × ((q : CommitResult) × Memᴰ q pending × (q.input_index ≡ r.input_index) × (q.op ≡ r.op))

commit_loop-CommitsOf :
    (n : ℕ) (a : BusArbiter) (pending : List CommitResult)
    → length pending ≤ n
    → All (CommitsOf a pending) (commit_loop n a pending).1
commit_loop-CommitsOf =
    commit_loop-induction (λ a pending results. All (CommitsOf a pending) results)
      (λ a pending e. tt)
      (λ a pending b result left results t rest.
        let g = next-SameGate a pending b result left t in
        let chosen = result_at pending t.index in
        (
          (
            subst (λ (r : CommitResult). may_commit a r.op ≡ true) (sym t.answer) t.allowed,
            (
              chosen,
              mem-result_at pending t.index t.inside,
              ap (λ (r : CommitResult). r.input_index) (sym t.answer),
              ap (λ (r : CommitResult). r.op) (sym t.answer),
            ),
          ),
          All-map (CommitsOf b left) (CommitsOf a pending)
              (λ r c.
                let (q, m, i, o) = c.1 in
                (
                  sym (may_commit-SameGate a b r.op g) ∙ c.0,
                  (
                    q,
                    mem-remove_at pending t.index q
                        (subst (λ (qs : List CommitResult). Memᴰ q qs) t.leaves m),
                    i,
                    o,
                  ),
                ))
              results rest,
        ))

-- The costs of a latency model are at most `l`.
pub record IsPaced (m : LatencyModel) (l : ℕ) : Type 0 where
  pub costs :
      (m.ram_read ≤ l)
      × (m.ram_write ≤ l)
      × (m.ifetch_cost ≤ l)
      × (m.mmio_read_cost ≤ l)
      × (m.mmio_write_cost ≤ l)
      × (m.barrier_cost ≤ l)
  pub penalties : (m.same_address_contention ≤ l) × (m.tie_turnaround ≤ l)

cost_bound :
    (a : BusArbiter) (op : BusOp) (tie : Bool) (l : ℕ)
    → IsPaced a.latency l
    → base_latency a.latency op + contention_extra a op tie ≤ 3 * l
unfolding base_latency contention_extra
cost_bound a op tie l p = ground (arith, p.costs, p.penalties)

-- The bus is never free earlier than it was, and not later than the start and the greatest cost.
execute_commit-free :
    (a : BusArbiter) (op : BusOp) (tie : Bool) (l : ℕ)
    → IsPaced a.latency l
    → earliest a op + 3 * l < 2 ^ 64
    → let (b, r) = execute_commit a op tie in
      (a.bus_free_time ≤ b.bus_free_time)
      × (b.bus_free_time ≤ earliest a op + 3 * l)
      × (r.start_time ≡ earliest a op)
      × (b.latency ≡ a.latency)
unfolding execute_commit grant fault_response
execute_commit-free a op tie l p h = ground (arith, cost_bound a op tie l p)

-- Start times that do not go back, from a time on.
pub StartsFrom : ℕ → List CommitResult → Type 0
StartsFrom t [] = Unit
StartsFrom t (r ∷ rs) = (t ≤ r.response.start_time) × StartsFrom r.response.start_time rs

-- The clock has room for the operations: they were requested by the time `t`, the bus is free by then, and
-- `n` operations at three times the greatest cost keep below its limit.
pub record HasRoom (a : BusArbiter) (pending : List CommitResult) (l t : ℕ) : Type 0 where
  pub paced : IsPaced a.latency l
  pub free_by : a.bus_free_time ≤ t
  pub requested_by : All (λ r. r.op.req_time ≤ t) pending
  pub below_limit : t + 3 * l * length pending < 2 ^ 64

abbrev Ordered : BusArbiter → List CommitResult → List CommitResult → Type 0
Ordered a pending results =
    (l t lo : ℕ)
    → HasRoom a pending l t
    → ((r : CommitResult) → Memᴰ r pending → may_commit a r.op ≡ true → lo ≤ earliest a r.op)
    → StartsFrom lo results

All-remove_at :
    (P : CommitResult → Type 0) (xs : List CommitResult) (i : ℕ) → All P xs → All P (remove_at xs i)
All-remove_at P [] i h = tt
All-remove_at P (x ∷ xs) zero h = h.1
All-remove_at P (x ∷ xs) (suc i) h = (h.0, All-remove_at P xs i h.1)

length-remove_at_suc :
    (pending : List CommitResult) (i : ℕ) (l : ℕ)
    → i < length pending
    → 3 * l * length pending ≡ 3 * l + 3 * l * length (remove_at pending i)
length-remove_at_suc pending i l h =
    ap (λ (n : ℕ). 3 * l * n) (sym (length-remove_at pending i h)) ∙ omega arith

turn-Ordered :
    (a : BusArbiter) (pending : List CommitResult) (b : BusArbiter) (result : CommitResult)
    (left results : List CommitResult)
    → IsTurn a pending b result left
    → Ordered b left results
    → Ordered a pending (result ∷ results)
unfolding StartsFrom
turn-Ordered a pending b result left results turn rest l t lo room low =
    let op = op_at pending turn.index in
    let m = mem-result_at pending turn.index turn.inside in
    let by : op.req_time ≤ t = All-mem (λ r. r.op.req_time ≤ t) pending room.requested_by m in
    let len = length-remove_at_suc pending turn.index l turn.inside in
    let step =
      execute_commit-free a op turn.had_tie l room.paced
        (omega (arith, room.free_by, room.below_limit)) in
    let start : result.response.start_time ≡ earliest a op =
      ap (λ (r : CommitResult). r.response.start_time) turn.answer ∙ step.2 in
    let free : (a.bus_free_time ≤ b.bus_free_time) × (b.bus_free_time ≤ earliest a op + 3 * l) =
      rw turn.next (step.0, step.1) in
    let same : b.latency ≡ a.latency = ap (λ (x : BusArbiter). x.latency) turn.next ∙ step.3 in
    let low_op : lo ≤ earliest a op = low (result_at pending turn.index) m turn.allowed in
    (
      omega (arith, start, low_op),
      rest l (t + 3 * l) result.response.start_time
          (record {
            paced = subst (λ (x : LatencyModel). IsPaced x l) (sym same) room.paced;
            free_by = omega (arith, free, by, room.free_by);
            requested_by = subst (All (λ r. r.op.req_time ≤ t + 3 * l)) (sym turn.leaves) (
                All-remove_at (λ r. r.op.req_time ≤ t + 3 * l) pending turn.index
                  (All-map (λ r. r.op.req_time ≤ t) (λ r. r.op.req_time ≤ t + 3 * l)
                    (λ r q. omega arith) pending room.requested_by));
            below_limit = omega (
              arith,
              ap length turn.leaves,
              len,
              room.below_limit,
              ap (λ (qs : List CommitResult). 3 * l * length qs) turn.leaves,
            );
          })
          (λ r mr c.
            let was : may_commit a r.op ≡ true =
              sym (may_commit-SameGate a b r.op (next-SameGate a pending b result left turn)) ∙ c in
            let first =
              turn.earliest_of_all r
                (mem-remove_at pending turn.index r
                  (subst (λ (qs : List CommitResult). Memᴰ r qs) turn.leaves mr))
                was in
            omega (arith, first, free, start)),
    )

commit_loop-Ordered :
    (n : ℕ) (a : BusArbiter) (pending : List CommitResult)
    → length pending ≤ n
    → Ordered a pending (commit_loop n a pending).1
unfolding StartsFrom
commit_loop-Ordered = commit_loop-induction Ordered (λ a pending e l t lo room low. tt) turn-Ordered

-- Where the operations of `enqueue_from` come from, and what it keeps of the arbiter.
abbrev pub FromInput : ℕ → List BusOp → CommitResult → Type 0
FromInput k ops q = (j : ℕ) × (q.input_index ≡ k + j) × (get_elem? ops j ≡ some q.op)

abbrev pub Enqueued : BusArbiter → ℕ → List BusOp → BusArbiter × List CommitResult → Type 0
Enqueued a k ops (b, pending) =
    SameGate a b
    × (b.latency ≡ a.latency)
    × (b.bus_free_time ≡ a.bus_free_time)
    × (length pending ≤ length ops)
    × All (FromInput k ops) pending

validate_enqueue-keeps :
    (a : BusArbiter) (op : BusOp)
    → let b = (validate_enqueue_contract a op).0 in
      SameGate a b × (b.latency ≡ a.latency) × (b.bus_free_time ≡ a.bus_free_time)
unfolding validate_enqueue_contract fault_response add_fault add_commit
validate_enqueue-keeps a op = ground arith

pub enqueue_from-Enqueued :
    (a : BusArbiter) (k : ℕ) (ops : List BusOp) → Enqueued a k ops (enqueue_from a k ops)
unfolding enqueue_from
enqueue_from-Enqueued a k [] = ground arith
enqueue_from-Enqueued a k (op ∷ ops) =
    let b = (validate_enqueue_contract a op).0 in
    let accepted = (validate_enqueue_contract a op).1 in
    let pending = (enqueue_from b (suc k) ops).1 in
    let (g, lat, free) = validate_enqueue-keeps a op in
    let (h, lat', free', len, from) = enqueue_from-Enqueued b (suc k) ops in
    let shifted : All (FromInput k (op ∷ ops)) pending =
      All-map (FromInput (suc k) ops) (FromInput k (op ∷ ops))
        (λ q f. let (j, i, e) = f in (suc j, omega arith, e)) pending from in
    let here : FromInput k (op ∷ ops) (pending_result k op) = (0, omega arith, refl) in
    if_holds (Enqueued a k (op ∷ ops)) a.trace.should_halt (ground arith) (
      (h.0 ∙ g.0, h.1 ∙ g.1, h.2 ∙ g.2, h.3 ∙ g.3),
      lat' ∙ lat,
      free' ∙ free,
      ground arith,
      if_holds (All (FromInput k (op ∷ ops))) accepted (here, shifted) shifted,
    )

-- Each result of a batch is for one of the operations given, under that operation's index, and for one that
-- the published progress lets commit: before both CPUs' progress once it is tracked.
pub commit_batch-inputs :
    (a : BusArbiter) (ops : List BusOp)
    → All
        (λ r. (may_commit a r.op ≡ true) × (get_elem? ops r.input_index ≡ some r.op))
        (commit_batch a ops).1
unfolding commit_batch
commit_batch-inputs a ops =
    let cleared = record a {
      producer_enqueued_seen = filled false;
      producer_last_enqueued_req_time = filled 0;
    } in
    let b = (enqueue_from cleared 0 ops).0 in
    let pending = (enqueue_from cleared 0 ops).1 in
    let (g, lat, free, len, from) = enqueue_from-Enqueued cleared 0 ops in
    All-map (CommitsOf b pending)
      (λ r. (may_commit a r.op ≡ true) × (get_elem? ops r.input_index ≡ some r.op))
      (λ r c.
        let (q, m, i, o) = c.1 in
        let (j, at, e) = All-mem (FromInput 0 ops) pending from m in
        let same : r.input_index ≡ j = omega arith in
        (sym (may_commit-SameGate cleared b r.op g) ∙ c.0, rw same (e ∙ ap some o)))
      (commit_loop (length pending) b pending).1
      (commit_loop-CommitsOf (length pending) b pending (omega arith))

-- The commits of a batch start in order, none before the bus was free, whatever the order in which the
-- operations were given. The costs of the latency model are at most l, the operations were requested and the
-- bus is free by the time t, and the clock has room for three times the greatest cost for each of them.
pub commit_batch-StartsFrom :
    (a : BusArbiter) (ops : List BusOp) (l t : ℕ)
    → IsPaced a.latency l
    → a.bus_free_time ≤ t
    → All (λ op. op.req_time ≤ t) ops
    → t + 3 * l * length ops < 2 ^ 64
    → StartsFrom a.bus_free_time (commit_batch a ops).1
unfolding commit_batch
commit_batch-StartsFrom a ops l t paced free_by requested_by limit =
    let cleared = record a {
      producer_enqueued_seen = filled false;
      producer_last_enqueued_req_time = filled 0;
    } in
    let b = (enqueue_from cleared 0 ops).0 in
    let pending = (enqueue_from cleared 0 ops).1 in
    let (g, lat, free, len, from) = enqueue_from-Enqueued cleared 0 ops in
    commit_loop-Ordered (length pending) b pending (omega arith) l t a.bus_free_time
      (record {
        paced = subst (λ (x : LatencyModel). IsPaced x l) (sym lat) paced;
        free_by = omega (arith, free);
        requested_by =
            All-map (FromInput 0 ops) (λ q. q.op.req_time ≤ t)
              (λ q f.
                let (j, i, e) = f in
                All-mem (λ op. op.req_time ≤ t) ops requested_by (mem-get_elem? ops j e))
              pending from;
        below_limit = omega (arith, mul-le-mul_left (3 * l) len);
      })
      (λ r m c. omega (arith, free))
