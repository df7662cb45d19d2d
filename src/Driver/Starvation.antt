-- ===== src/Driver/Starvation.antt =====
-- `run_scripted_pair` of src/core/emulator.cpp, once one CPU has come to the end of its script.
use saturnis.Base.{
  ℕ, zero, suc, ◌+◌, ◌^◌, ◌≤◌, ◌<◌, ◌≡◌, refl, sym, ap, subst, not, ◌∙◌, Bool, true, false, ◌&&◌,
  Option, none, some, List, [], ◌∷◌, ◌++◌, arith, length, if◌then◌else◌, ◌==◌, ltb, min,
}
use saturnis.Bus.{CommitResult, update_progress, advance_slot, tick_max}
use saturnis.Bus.Op.{BusOp}
use saturnis.Bus.Batch.{commit_batch, may_commit}
use saturnis.Bus.Gate.{commit_batch-SameGate, commit_batch-none}
use saturnis.Scripted.{PendingBusOp, ScriptedCpu}
use saturnis.Driver.{
  ScriptedPair, is_done, is_none, refill, watermark, publish, ops_of, pending_cpu, deliver_all,
  commit_turn, run_scripted_pair,
}

-- CPU 1 is at the end of its script with its clock at or before the time at which CPU 0 asks for the bus, and
-- nothing later has been published for it.
pub record IsStarved (s : ScriptedPair) (p : PendingBusOp) : Type 0 where
  pub holds : s.p0 ≡ some p
  pub idle : s.p1 ≡ none
  pub over : is_done s.cpu1 ≡ true
  pub behind : s.cpu1.local_time ≤ p.op.req_time
  pub published : s.arbiter.progress1 ≤ p.op.req_time
  pub in_range : p.op.req_time + 1 < 2 ^ 64

advance_slot-le : (slot e r : ℕ) → slot ≤ r → e ≤ r → advance_slot slot e ≤ r
advance_slot-le slot e r h k = ground arith

shut : (c d : Bool) (x y r : ℕ) → y ≤ r → (c && d && ltb r (min x y)) ≡ false
shut c d x y r h = ground arith

-- The turn publishes nothing that lets the request commit.
module _ (s : ScriptedPair) (p : PendingBusOp) (h : IsStarved s p) where
  refill0 : refill s.cpu0 s.p0 ≡ (s.cpu0, some p)
  refill0 = ap (λ (o : Option PendingBusOp). refill s.cpu0 o) h.holds

  refill1 : refill s.cpu1 s.p1 ≡ (s.cpu1, none)
  refill1 = ap (λ (o : Option PendingBusOp). refill s.cpu1 o) h.idle ∙ rw (h.over) refl

  shown : watermark (refill s.cpu1 s.p1).0 (refill s.cpu1 s.p1).1 ≡ s.cpu1.local_time
  shown = ap (λ (r : ScriptedCpu × Option PendingBusOp). watermark r.0 r.1) refill1

  publish-IsStarved : IsStarved (publish s) p
  unfolding publish update_progress
  publish-IsStarved = record {
    holds = ap (λ (r : ScriptedCpu × Option PendingBusOp). r.1) refill0;
    idle = ap (λ (r : ScriptedCpu × Option PendingBusOp). r.1) refill1;
    over = ap (λ (r : ScriptedCpu × Option PendingBusOp). is_done r.0) refill1 ∙ h.over;
    behind =
        omega
          (arith, h.behind, ap (λ (r : ScriptedCpu × Option PendingBusOp). r.0.local_time) refill1);
    published =
        advance_slot-le s.arbiter.progress1
          (watermark (refill s.cpu1 s.p1).0 (refill s.cpu1 s.p1).1) p.op.req_time h.published
          (omega (arith, shown, h.behind));
    in_range = h.in_range;
  }

  publish-closed : may_commit (publish s).arbiter p.op ≡ false
  unfolding publish update_progress
  publish-closed =
      shut (not ((publish s).arbiter.progress0 == tick_max))
        (not ((publish s).arbiter.progress1 == tick_max)) (publish s).arbiter.progress0
        (publish s).arbiter.progress1 p.op.req_time
        (advance_slot-le s.arbiter.progress1 _ p.op.req_time h.published
          (omega (arith, shown, h.behind)))

deliver-none :
    (s : ScriptedPair) (results : List CommitResult)
    → results ≡ []
    → (who : List ℕ) → deliver_all who s results ≡ s
unfolding deliver_all
deliver-none s [] e who = refl
deliver-none s (r ∷ rest) e who = absurd (cc)

commit_turn-alone :
    (s : ScriptedPair) (p : PendingBusOp)
    → IsStarved s p
    → may_commit s.arbiter p.op ≡ false
    → commit_turn s ≡ record s { arbiter = (commit_batch s.arbiter (p.op ∷ [])).0 }
unfolding commit_turn
commit_turn-alone s p h closed =
    let alone : ops_of s.p0 ++ ops_of s.p1 ≡ p.op ∷ [] =
      λ i. ops_of (h.holds i) ++ ops_of (h.idle i) in
    ap
      (λ (ops : List BusOp).
        if length ops == 0
        then s
        else deliver_all (pending_cpu s.p0 s.p1)
            (record s { arbiter = (commit_batch s.arbiter ops).0 }) (commit_batch s.arbiter ops).1)
      alone
    ∙ deliver-none (record s { arbiter = (commit_batch s.arbiter (p.op ∷ [])).0 })
        (commit_batch s.arbiter (p.op ∷ [])).1 (commit_batch-none s.arbiter p.op closed)
        (pending_cpu s.p0 s.p1)

commit_turn-IsStarved :
    (s : ScriptedPair) (p : PendingBusOp)
    → IsStarved s p
    → may_commit s.arbiter p.op ≡ false
    → IsStarved (commit_turn s) p
commit_turn-IsStarved s p h closed =
    let gate = commit_batch-SameGate s.arbiter (p.op ∷ []) in
    subst (λ (t : ScriptedPair). IsStarved t p) (sym (commit_turn-alone s p h closed))
      (record {
        holds = h.holds;
        idle = h.idle;
        over = h.over;
        behind = h.behind;
        published = omega (arith, h.published, gate.2);
        in_range = h.in_range;
      })

-- A request of CPU 0 that is held when CPU 1 is at the end of its script, with neither its clock nor its published
-- progress past the time of the request, keeps the loop from ending, however much fuel it is given. The time of the
-- request is below the limit of the clock.
pub run_scripted_pair-IsStarved :
    (n : ℕ) (s : ScriptedPair) (p : PendingBusOp) → IsStarved s p → run_scripted_pair n s ≡ none
unfolding run_scripted_pair
run_scripted_pair-IsStarved zero s p h = refl
run_scripted_pair-IsStarved (suc n) s p h =
    let next = publish-IsStarved s p h in
    let rest =
      run_scripted_pair-IsStarved n (commit_turn (publish s)) p
        (commit_turn-IsStarved (publish s) p next (publish-closed s p h)) in
    ap (λ (b : Bool). if b then some (publish s) else run_scripted_pair n (commit_turn (publish s)))
      (ap
        (λ (o : Option PendingBusOp).
          is_none o
          && is_none (publish s).p1
          && is_done (publish s).cpu0
          && is_done (publish s).cpu1)
        next.holds)
    ∙ rest
