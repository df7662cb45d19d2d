-- ===== src/Bus/Distinct.antt =====
-- `commit_batch` of src/bus/bus_arbiter.cpp: no operation is committed twice.
use mathlib.Core.List.{Memᴰ}
use saturnis.Base.{
  ℕ, zero, suc, Bool, true, false, ◌≤◌, ◌<◌, ◌≡◌, ◌≢◌, sym, ap, subst, ◌∙◌, List, [], ◌∷◌, arith,
  if◌then◌else◌, length, remove_at, All, All-map, All-mem, All-of-mem,
}
use saturnis.Bus.{CommitResult, BusArbiter, validate_enqueue_contract}
use saturnis.Bus.Op.{BusOp}
use saturnis.Bus.Rules.{filled}
use saturnis.Bus.Batch.{pending_result, result_at, enqueue_from, commit_loop, commit_batch}
use saturnis.Bus.Committable.{mem-remove_at, mem-result_at, IsTurn, commit_loop-induction}
use saturnis.Bus.Batches.{FromInput, enqueue_from-Enqueued}

abbrev pub Differs : CommitResult → CommitResult → Type 0
Differs r q = q.input_index ≢ r.input_index

-- No two results have one index.
abbrev pub AllDistinct : List CommitResult → Type 0
AllDistinct [] = Unit {0}
AllDistinct (r ∷ rest) = All (Differs r) rest × AllDistinct rest

remove_at-AllDistinct :
    (xs : List CommitResult) (i : ℕ) → AllDistinct xs → AllDistinct (remove_at xs i)
remove_at-AllDistinct [] i d = tt
remove_at-AllDistinct (x ∷ xs) zero d = d.1
remove_at-AllDistinct (x ∷ xs) (suc i) d = (
  All-of-mem (Differs x) (remove_at xs i)
      (λ r m. All-mem (Differs x) xs d.0 (mem-remove_at xs i r m)),
  remove_at-AllDistinct xs i d.1,
)

-- What is left differs from what was taken out.
removed-Differs :
    (xs : List CommitResult) (i : ℕ) (r : CommitResult)
    → i < length xs
    → AllDistinct xs
    → Memᴰ r (remove_at xs i)
    → Differs (result_at xs i) r
removed-Differs [] i r h d m = elim h [ ]
removed-Differs (x ∷ xs) zero r h d m = All-mem (Differs x) xs d.0 m
removed-Differs (x ∷ xs) (suc i) r h d (Memᴰ.head e) = λ same.
    All-mem (Differs x) xs d.0 (mem-result_at xs i (omega arith))
      (sym same ∙ ap (λ (q : CommitResult). q.input_index) e)
removed-Differs (x ∷ xs) (suc i) r h d (Memᴰ.tail m) = removed-Differs xs i r (omega arith) d.1 m

-- A result with the index of a pending operation.
abbrev ComesFrom : List CommitResult → CommitResult → Type 0
ComesFrom pending r = (q : CommitResult) × Memᴰ q pending × (r.input_index ≡ q.input_index)

abbrev KeepsDistinct : BusArbiter → List CommitResult → List CommitResult → Type 0
KeepsDistinct a pending results =
    AllDistinct pending → AllDistinct results × All (ComesFrom pending) results

turn-KeepsDistinct :
    (a : BusArbiter) (pending : List CommitResult) (b : BusArbiter) (result : CommitResult)
    (left results : List CommitResult)
    → IsTurn a pending b result left
    → KeepsDistinct b left results
    → KeepsDistinct a pending (result ∷ results)
turn-KeepsDistinct a pending b result left results turn rec d =
    let i = turn.index in
    let behind : AllDistinct left =
      subst (λ (l : List CommitResult). AllDistinct l) (sym turn.leaves)
        (remove_at-AllDistinct pending i d) in
    let (distinct, from) = rec behind in
    let own : result.input_index ≡ (result_at pending i).input_index =
      ap (λ (r : CommitResult). r.input_index) turn.answer in
    let was_left = λ (q : CommitResult) (m : Memᴰ q left).
      subst (λ (l : List CommitResult). Memᴰ q l) turn.leaves m in
    (
      (
        All-map (ComesFrom left) (Differs result)
            (λ r f. λ same.
              removed-Differs pending i f.0 turn.inside d (was_left f.0 f.1) (sym f.2 ∙ same ∙ own))
            results from,
        distinct,
      ),
      (
        (result_at pending i, mem-result_at pending i turn.inside, own),
        All-map (ComesFrom left) (ComesFrom pending)
            (λ r f. (f.0, mem-remove_at pending i f.0 (was_left f.0 f.1), f.2)) results from,
      ),
    )

commit_loop-KeepsDistinct :
    (n : ℕ) (a : BusArbiter) (pending : List CommitResult)
    → length pending ≤ n
    → KeepsDistinct a pending (commit_loop n a pending).1
commit_loop-KeepsDistinct =
    commit_loop-induction KeepsDistinct (λ a pending e d. (tt, tt)) turn-KeepsDistinct

accepted-AllDistinct :
    (accepted : Bool) (k : ℕ) (op : BusOp) (pending : List CommitResult) (ops : List BusOp)
    → All (FromInput (suc k) ops) pending
    → AllDistinct pending
    → AllDistinct (if accepted then pending_result k op ∷ pending else pending)
accepted-AllDistinct false k op pending ops from d = d
accepted-AllDistinct true k op pending ops from d = (
  All-map (FromInput (suc k) ops) (Differs (pending_result k op))
      (λ q f. λ same. absurd (omega (arith, f.1))) pending from,
  d,
)

enqueue_from-AllDistinct :
    (a : BusArbiter) (k : ℕ) (ops : List BusOp) → AllDistinct (enqueue_from a k ops).1
unfolding enqueue_from
enqueue_from-AllDistinct a k [] = tt
enqueue_from-AllDistinct a k (op ∷ ops) =
    let b = (validate_enqueue_contract a op).0 in
    halted a.trace.should_halt _ _ (
      accepted-AllDistinct (validate_enqueue_contract a op).1 k op (enqueue_from b (suc k) ops).1
        ops (enqueue_from-Enqueued b (suc k) ops).4 (enqueue_from-AllDistinct b (suc k) ops))
  where
    halted :
        (h : Bool) (c : BusArbiter) (l : List CommitResult)
        → AllDistinct l
        → AllDistinct (if◌then◌else◌ {A = BusArbiter × List CommitResult} h (a, []) (c, l)).1
    halted true c l d = tt
    halted false c l d = d

-- No two results of a batch are for one of the operations given.
pub commit_batch-AllDistinct :
    (a : BusArbiter) (ops : List BusOp) → AllDistinct (commit_batch a ops).1
unfolding commit_batch
commit_batch-AllDistinct a ops =
    let cleared = record a {
      producer_enqueued_seen = filled false;
      producer_last_enqueued_req_time = filled 0;
    } in
    let (b, pending) = enqueue_from cleared 0 ops in
    (commit_loop-KeepsDistinct (length pending) b pending (omega arith)
      (enqueue_from-AllDistinct cleared 0 ops)).0
