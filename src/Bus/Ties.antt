-- ===== src/Bus/Ties.antt =====
-- `pick_next` of src/bus/bus_arbiter.cpp, on operations that can start at the same time.
use saturnis.Base.{Bool, true, false, ◌≤◌, ◌<◌, ◌≡◌, [], ◌∷◌, arith}
use saturnis.Base.Integer.{pos}
use saturnis.Bus.{BusArbiter, execute_commit, grant}
use saturnis.Bus.Op.{BusOp, cpu}
use saturnis.Bus.Rules.{producer_slot, class_code, cpu0_slot, cpu1_slot}
use saturnis.Bus.Batch.{beats, pick_from, pick_next, pending_result}
use saturnis.Bus.Commits.{faults}

-- Three operations that a free bus could all start: an earlier and a later one of CPU 0 and one of CPU 1, of
-- which CPU 0's later one has the higher priority, after a tie that went to CPU 0.
pub record IsCycle (a : BusArbiter) (early late other : BusOp) : Type 0 where
  pub producers : (early.producer ≡ cpu) × (late.producer ≡ cpu) × (other.producer ≡ cpu)
  pub cpus : (early.cpu_id ≡ pos 0) × (late.cpu_id ≡ pos 0) × (other.cpu_id ≡ pos 1)
  pub in_turn : (early.sequence < late.sequence) × (early.req_time < late.req_time)
  pub by_now :
      (early.req_time ≤ a.bus_free_time)
      × (late.req_time ≤ a.bus_free_time)
      × (other.req_time ≤ a.bus_free_time)
  pub priorities :
      (class_code (a.policy early) ≡ class_code (a.policy other))
      × (class_code (a.policy other) < class_code (a.policy late))
  pub last_grant : a.last_grant_cpu ≡ pos 0

slots :
    (a : BusArbiter) (early late other : BusOp)
    → IsCycle a early late other
    → (producer_slot early ≡ cpu0_slot)
      × (producer_slot late ≡ cpu0_slot)
      × (producer_slot other ≡ cpu1_slot)
unfolding producer_slot
slots a early late other c = ground (arith, c.producers, c.cpus)

-- Of the three, CPU 0's earlier operation beats its later one, that one beats CPU 1's and CPU 1's beats
-- CPU 0's earlier one.
beats_cycle :
    (a : BusArbiter) (early late other : BusOp)
    → IsCycle a early late other
    → (beats a early late ≡ true)
      × (beats a late early ≡ false)
      × (beats a late other ≡ true)
      × (beats a other late ≡ false)
      × (beats a other early ≡ true)
unfolding beats
beats_cycle a early late other c =
    let s = slots a early late other c in
    ground (arith, s, c.cpus, c.in_turn, c.priorities, c.last_grant)

-- Three operations in such a cycle: with CPU 1's operation given between the two of CPU 0, CPU 0's later one
-- is picked, and with CPU 1's given last, CPU 1's is picked. So the choice depends on the order in which
-- the operations are given.
pub pick_next_cycle :
    (a : BusArbiter) (early late other : BusOp)
    → IsCycle a early late other
    → (pick_next a
          (pending_result 0 early ∷ pending_result 1 other ∷ pending_result 2 late ∷ [])
          0
          (1 ∷ 2 ∷ [])
        ≡ 2)
      × (pick_next a
            (pending_result 0 early ∷ pending_result 1 late ∷ pending_result 2 other ∷ [])
            0
            (1 ∷ 2 ∷ [])
          ≡ 2)
unfolding pick_next pick_from
pick_next_cycle a early late other c =
    let b = beats_cycle a early late other c in ground (arith, b, c.by_now)

-- Once CPU 0's later operation of such a cycle is committed without a fault, its earlier one is a fault.
pub early_faults :
    (a : BusArbiter) (early late other : BusOp) (had_tie : Bool)
    → IsCycle a early late other
    → faults a late ≡ false
    → faults (execute_commit a late had_tie).0 early ≡ true
unfolding execute_commit grant
early_faults a early late other had_tie c ok =
    let s = slots a early late other c in ground (arith, s, c.in_turn)
