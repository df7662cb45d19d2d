-- ===== src/Bus/Committable.antt =====
-- The committable operations of `commit_batch` in src/bus/bus_arbiter.cpp, and the turns of its loop.
use mathlib.Core.List.{Memᴰ}
use saturnis.Base.{
  ℕ, zero, suc, ◌+◌, Bool, true, false, ◌≤◌, ◌<◌, ◌≡◌, refl, sym, ap, subst, List, [], ◌∷◌, arith,
  ◌⊎◌, All-mem, if◌then◌else◌, length, remove_at, length-remove_at, inl, inr,
}
use saturnis.Bus.{CommitResult, BusArbiter, fault_response, grant, execute_commit}
use saturnis.Bus.Op.{BusOp}
use saturnis.Trace.{add_fault, add_commit}
use saturnis.Bus.Batch.{
  result_at, op_at, earliest, may_commit, committable_from, commit_next, commit_loop, pick_next,
}
use saturnis.Bus.Pick.{pick_next-IsEarliest}

-- What a commit keeps of the arbiter: the published progress, whether it is tracked, and the setting
-- that halts on faults.
abbrev pub SameGate : BusArbiter → BusArbiter → Type 0
SameGate a b =
    (b.progress_tracking_enabled ≡ a.progress_tracking_enabled)
    × (b.progress0 ≡ a.progress0)
    × (b.progress1 ≡ a.progress1)
    × (b.trace.halt_on_fault ≡ a.trace.halt_on_fault)

pub execute_commit-SameGate :
    (a : BusArbiter) (op : BusOp) (tie : Bool) → SameGate a (execute_commit a op tie).0
unfolding execute_commit grant fault_response add_fault add_commit
execute_commit-SameGate a op tie = ground arith

pub may_commit-SameGate :
    (a b : BusArbiter) (op : BusOp) → SameGate a b → may_commit b op ≡ may_commit a op
may_commit-SameGate a b op g = rw (g.0, g.1, g.2) refl

-- An index from k on of a committable operation.
abbrev Offers : BusArbiter → ℕ → List CommitResult → ℕ → Type 0
Offers a k pending i =
    (j : ℕ) × (i ≡ k + j) × (j < length pending) × (may_commit a (op_at pending j) ≡ true)

committable_sound :
    (a : BusArbiter) (k i : ℕ) (pending : List CommitResult)
    → Memᴰ i (committable_from a k pending)
    → Offers a k pending i
unfolding committable_from
committable_sound a k i [] m = elim m [ ]
committable_sound a k i (r ∷ rest) m =
    go (may_commit a r.op) refl (λ n. committable_sound a (suc k) i rest n) m
  where
    go :
        (c : Bool)
        → c ≡ may_commit a r.op
        → (Memᴰ i (committable_from a (suc k) rest) → Offers a (suc k) rest i)
        → Memᴰ i
            (if c then k ∷ committable_from a (suc k) rest else committable_from a (suc k) rest)
        → Offers a k (r ∷ rest) i
    go true e step (Memᴰ.head q) = (0, omega arith, omega arith, sym e)
    go true e step (Memᴰ.tail n) = let (j, p, l, c) = step n in (suc j, omega arith, omega arith, c)
    go false e step n = let (j, p, l, c) = step n in (suc j, omega arith, omega arith, c)

committable_complete :
    (a : BusArbiter) (k : ℕ) (pending : List CommitResult) (r : CommitResult)
    → Memᴰ r pending
    → may_commit a r.op ≡ true
    → (j : ℕ) × (result_at pending j ≡ r) × Memᴰ (k + j) (committable_from a k pending)
unfolding committable_from
committable_complete a k [] r m c = elim m [ ]
committable_complete a k (q ∷ rest) r (Memᴰ.head e) c =
    let d : may_commit a q.op ≡ true = subst (λ (x : CommitResult). may_commit a x.op ≡ true) e c in
    (0, sym e, rw d (Memᴰ.head (omega arith)))
committable_complete a k (q ∷ rest) r (Memᴰ.tail m) c =
    let (j, e, n) = committable_complete a (suc k) rest r m c in
    let at : Memᴰ (k + suc j) (committable_from a (suc k) rest) =
      subst (λ (i : ℕ). Memᴰ i (committable_from a (suc k) rest)) (omega arith) n in
    (suc j, e, behind (may_commit a q.op) at)
  where
    behind :
        (b : Bool) {i : ℕ}
        → Memᴰ i (committable_from a (suc k) rest)
        → Memᴰ i
            (if b then k ∷ committable_from a (suc k) rest else committable_from a (suc k) rest)
    behind true n = Memᴰ.tail n
    behind false n = n

pub mem-remove_at :
    (xs : List CommitResult) (i : ℕ) (r : CommitResult) → Memᴰ r (remove_at xs i) → Memᴰ r xs
mem-remove_at [] i r m = m
mem-remove_at (x ∷ xs) zero r m = Memᴰ.tail m
mem-remove_at (x ∷ xs) (suc i) r (Memᴰ.head e) = Memᴰ.head e
mem-remove_at (x ∷ xs) (suc i) r (Memᴰ.tail m) = Memᴰ.tail (mem-remove_at xs i r m)

pub mem-result_at : (xs : List CommitResult) (i : ℕ) → i < length xs → Memᴰ (result_at xs i) xs
mem-result_at [] i h = elim h [ ]
mem-result_at (x ∷ xs) zero h = Memᴰ.head refl
mem-result_at (x ∷ xs) (suc i) h = Memᴰ.tail (mem-result_at xs i (omega arith))

-- One turn of the loop of `commit_batch`, from `a` and `pending` to `b` and `left`.
pub record IsTurn (a : BusArbiter) (pending : List CommitResult) (b : BusArbiter)
    (result : CommitResult) (left : List CommitResult) : Type 0 where
  pub index : ℕ
  pub had_tie : Bool
  pub inside : index < length pending
  pub allowed : may_commit a (op_at pending index) ≡ true
  pub earliest_of_all :
      (r : CommitResult)
      → Memᴰ r pending
      → may_commit a r.op ≡ true
      → earliest a (op_at pending index) ≤ earliest a r.op
  pub next : b ≡ (execute_commit a (op_at pending index) had_tie).0
  pub answer : result ≡ record (result_at pending index) {
    response = (execute_commit a (op_at pending index) had_tie).1;
  }
  pub leaves : left ≡ remove_at pending index

commit_next-IsTurn :
    (a : BusArbiter) (pending : List CommitResult) (first : ℕ) (rest : List ℕ)
    → committable_from a 0 pending ≡ first ∷ rest
    → let (b, result, left) = commit_next a pending first rest in IsTurn a pending b result left
unfolding commit_next
commit_next-IsTurn a pending first rest e =
    let idx = pick_next a pending first rest in
    let found = pick_next-IsEarliest a pending first rest in
    let (j, at, inside, allowed) =
      committable_sound a 0 idx pending
        (subst (λ (is : List ℕ). Memᴰ idx is) (sym e) found.offered_index) in
    let same : j ≡ idx = omega arith in
    record {
      index = idx;
      had_tie = _;
      inside = omega arith;
      allowed = subst (λ (i : ℕ). may_commit a (op_at pending i) ≡ true) same allowed;
      earliest_of_all = λ r m c.
          let (i, r_at, offered) = committable_complete a 0 pending r m c in
          let at_i : Memᴰ i (committable_from a 0 pending) =
            subst (λ (j : ℕ). Memᴰ j (committable_from a 0 pending)) (omega arith) offered in
          let bound : earliest a (op_at pending idx) ≤ earliest a (op_at pending i) =
            All-mem (λ i. earliest a (op_at pending idx) ≤ earliest a (op_at pending i))
              (first ∷ rest) found.first (subst (λ (is : List ℕ). Memᴰ i is) e at_i) in
          subst (λ (x : CommitResult). earliest a (op_at pending idx) ≤ earliest a x.op) r_at bound;
      next = refl;
      answer = refl;
      leaves = refl;
    }

-- Induction on the loop: on its stopping, with nothing committable or halted, and on a turn.
pub commit_loop-induction :
    (P : BusArbiter → List CommitResult → List CommitResult → Type 0)
    → ((a : BusArbiter) (pending : List CommitResult)
        → (a.trace.should_halt ≡ true) ⊎ (committable_from a 0 pending ≡ [])
        → P a pending [])
    → ((a : BusArbiter) (pending : List CommitResult) (b : BusArbiter) (result : CommitResult)
          (left results : List CommitResult)
        → IsTurn a pending b result left
        → P b left results
        → P a pending (result ∷ results))
    → (n : ℕ) (a : BusArbiter) (pending : List CommitResult) → length pending ≤ n
    → P a pending (commit_loop n a pending).1
unfolding commit_loop committable_from
commit_loop-induction P stop turn zero a [] h = stop a [] (inr (none_of a))
  where
    none_of : (a : BusArbiter) → committable_from a 0 [] ≡ []
    none_of a = refl
commit_loop-induction P stop turn zero a (r ∷ pending) h = absurd (omega arith)
commit_loop-induction P stop turn (suc n) a pending h =
    on_halt a.trace.should_halt refl (λ b left k. commit_loop-induction P stop turn n b left k)
  where
    on_offer :
        (offered : List ℕ)
        → committable_from a 0 pending ≡ offered
        → ((b : BusArbiter) (left : List CommitResult)
            → length left ≤ n
            → P b left (commit_loop n b left).1)
        → P a pending
            (elim offered as (λ x. BusArbiter × List CommitResult) [
              | [] ↦ (a, [])
              | first ∷ rest ↦
                  let (b, result, left) = commit_next a pending first rest in
                  let (c, results) = commit_loop n b left in (c, result ∷ results)
            ]).1
    on_offer [] e rec = stop a pending (inr e)
    on_offer (first ∷ rest) e rec =
        let (b, result, left) = commit_next a pending first rest in
        let t = commit_next-IsTurn a pending first rest e in
        turn a pending b result left (commit_loop n b left).1 t (
          rec b left (omega (arith, ap length t.leaves, length-remove_at pending t.index t.inside)))

    on_halt :
        (halted : Bool)
        → a.trace.should_halt ≡ halted
        → ((b : BusArbiter) (left : List CommitResult)
            → length left ≤ n
            → P b left (commit_loop n b left).1)
        → P a pending
            (if◌then◌else◌ {A = BusArbiter × List CommitResult} halted
              (a, [])
              (elim (committable_from a 0 pending) as (λ x. BusArbiter × List CommitResult) [
                | [] ↦ (a, [])
                | first ∷ rest ↦
                    let (b, result, left) = commit_next a pending first rest in
                    let (c, results) = commit_loop n b left in (c, result ∷ results)
              ])).1
    on_halt true e rec = stop a pending (inl e)
    on_halt false e rec = on_offer (committable_from a 0 pending) refl rec
