-- ===== src/Bus/Completeness.antt =====
-- `commit_batch` of src/bus/bus_arbiter.cpp: no operation that may be committed is left behind, and none is
-- committed twice.
use mathlib.Core.List.Permᴰ
use mathlib.Core.List.{Perm, Permᴰ}
use saturnis.Base.{
  ℕ, zero, suc, Bool, true, false, ◌<◌, ◌≡◌, ◌⊎◌, refl, sym, ap, subst, ◌∙◌, List, [], ◌∷◌, arith,
  if◌then◌else◌, length, remove_at, inl, inr, map, Bool-cases,
}
use saturnis.Trace.{add_fault, add_commit}
use saturnis.Bus.{CommitResult, BusArbiter, fault_response, grant, execute_commit}
use saturnis.Bus.Op.{BusOp}
use saturnis.Bus.Batch.{op_at, result_at, may_commit, committable_from, commit_loop}
use saturnis.Bus.Committable.{
  SameGate, execute_commit-SameGate, may_commit-SameGate, IsTurn, commit_loop-induction,
}

-- The operation of a result, with the index that it was given under.
abbrev pub asked : CommitResult → ℕ × BusOp
asked r = (r.input_index, r.op)

-- The pending operations that the published progress lets commit.
unfoldable pub allowed : BusArbiter → List CommitResult → List (ℕ × BusOp)
allowed a [] = []
allowed a (r ∷ rest) =
    let others = allowed a rest in if may_commit a r.op then asked r ∷ others else others

-- Where there is no committable index, no operation may be committed.
committable-none :
    (a : BusArbiter) (k : ℕ) (pending : List CommitResult)
    → committable_from a k pending ≡ []
    → allowed a pending ≡ []
unfolding committable_from allowed
committable-none a k [] e = refl
committable-none a k (r ∷ rest) e = ground (arith, committable-none a (suc k) rest)

allowed-SameGate :
    (a b : BusArbiter) (pending : List CommitResult)
    → SameGate a b
    → allowed b pending ≡ allowed a pending
unfolding allowed
allowed-SameGate a b [] g = refl
allowed-SameGate a b (r ∷ rest) g =
    rw (may_commit-SameGate a b r.op g, allowed-SameGate a b rest g) refl

-- Taking one of them out.
allowed-remove_at :
    (a : BusArbiter) (pending : List CommitResult) (i : ℕ)
    → i < length pending
    → may_commit a (op_at pending i) ≡ true
    → Permᴰ (asked (result_at pending i) ∷ allowed a (remove_at pending i)) (allowed a pending)
unfolding allowed
allowed-remove_at a [] i h c = absurd (omega arith)
allowed-remove_at a (r ∷ rest) zero h c = rw c (Permᴰ.refl (asked r ∷ allowed a rest))
allowed-remove_at a (r ∷ rest) (suc i) h c =
    let others = allowed-remove_at a rest i (omega arith) c in
    elim (Bool-cases (may_commit a r.op)) [
      | inl first ↦ rw first (Permᴰ.trans (Permᴰ.swap refl refl) (Permᴰ.cons refl others))
      | inr later ↦ rw later others
    ]

execute_commit-running :
    (a : BusArbiter) (op : BusOp) (tie : Bool)
    → a.trace.should_halt ≡ false
    → a.trace.halt_on_fault ≡ false
    → ((execute_commit a op tie).0.trace.should_halt ≡ false)
      × ((execute_commit a op tie).0.trace.halt_on_fault ≡ false)
unfolding execute_commit grant fault_response add_fault add_commit
execute_commit-running a op tie h k = ground arith

abbrev CommitsAll : BusArbiter → List CommitResult → List CommitResult → Type 0
CommitsAll a pending results =
    a.trace.should_halt ≡ false
    → a.trace.halt_on_fault ≡ false
    → Permᴰ (map asked results) (allowed a pending)

stop-CommitsAll :
    (a : BusArbiter) (pending : List CommitResult)
    → (a.trace.should_halt ≡ true) ⊎ (committable_from a 0 pending ≡ [])
    → CommitsAll a pending []
stop-CommitsAll a pending (inl e) h k = absurd (cc)
stop-CommitsAll a pending (inr e) h k =
    subst (Permᴰ []) (sym (committable-none a 0 pending e)) Permᴰ.nil

turn-CommitsAll :
    (a : BusArbiter) (pending : List CommitResult) (b : BusArbiter) (result : CommitResult)
    (left results : List CommitResult)
    → IsTurn a pending b result left
    → CommitsAll b left results
    → CommitsAll a pending (result ∷ results)
turn-CommitsAll a pending b result left results t rest h k =
    let op = op_at pending t.index in
    let running = execute_commit-running a op t.had_tie h k in
    let g : SameGate a b =
      subst (SameGate a) (sym t.next) (execute_commit-SameGate a op t.had_tie) in
    let run : b.trace.should_halt ≡ false =
      ap (λ (x : BusArbiter). x.trace.should_halt) t.next ∙ running.0 in
    let no_halt : b.trace.halt_on_fault ≡ false =
      ap (λ (x : BusArbiter). x.trace.halt_on_fault) t.next ∙ running.1 in
    let same : allowed b left ≡ allowed a (remove_at pending t.index) =
      allowed-SameGate a b left g ∙ ap (allowed a) t.leaves in
    Permᴰ.trans
      (Permᴰ.cons (ap asked t.answer) (subst (Permᴰ (map asked results)) same (rest run no_halt)))
      (allowed-remove_at a pending t.index t.inside t.allowed)

-- A loop that has not halted and does not halt on faults ends, and its results are, with their indices and in some
-- order, exactly the pending operations that the published progress lets commit at its start, faulty ones included:
-- none of them is left behind, none is committed more often than it is pending, and no other is committed.
pub commit_loop-CommitsAll :
    (a : BusArbiter) (pending : List CommitResult)
    → a.trace.should_halt ≡ false
    → a.trace.halt_on_fault ≡ false
    → Perm (map asked (commit_loop (length pending) a pending).1) (allowed a pending)
commit_loop-CommitsAll a pending h k =
    ∣ commit_loop-induction CommitsAll stop-CommitsAll turn-CommitsAll (length pending) a pending
      (omega arith) h k ∣₁
