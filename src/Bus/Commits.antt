-- ===== src/Bus/Commits.antt =====
-- `execute_commit`, `commit` and `commit_dma` of src/bus/bus_arbiter.cpp, one operation at a time.
use saturnis.Base.{
  ℕ, ◌+◌, ◌^◌, max, Bool, true, false, not, ◌||◌, ◌<◌, ◌≡◌, refl, [], ◌∷◌, ◌++◌, arith, ◌==◌,
  if◌then◌else◌, length, length-append, Bool-cases, inl, inr,
}
use saturnis.Base.Word.{u32}
use saturnis.Trace.{
  Reason, invalid_bus_op, non_monotonic_req_time, fault_line, commit_line, add_fault, add_commit,
}
use saturnis.Bus.{
  BusResponse, BusArbiter, fault_response, grant, execute_commit, contention_extra, start_of,
  is_late, validation_detail,
}
use saturnis.Bus.Op.{BusOp}
use saturnis.Bus.Rules.{validate_bus_op, error_code, base_latency}

-- An operation that `execute_commit` answers with a fault.
abbrev pub faults : BusArbiter → BusOp → Bool
faults a op = not (error_code (validate_bus_op op) == 0) || is_late a op

-- What a fault leaves behind, and its answer.
pub record IsFault (a b : BusArbiter) (r : BusResponse) : Type 0 where
  pub only_trace : b ≡ record a { trace = b.trace }
  pub two_lines : length b.trace.lines ≡ length a.trace.lines + 2
  pub halts : b.trace.should_halt ≡ (a.trace.halt_on_fault || a.trace.should_halt)
  pub bad_value : r.value ≡ 0xBAD0_BAD0
  pub no_stall : r.stall ≡ 0

fault_response-IsFault :
    (a : BusArbiter) (op : BusOp) (start : ℕ) (reason : Reason) (detail : ℕ)
    → let (b, r) = fault_response a op start reason detail in IsFault a b r
unfolding fault_response add_fault add_commit
fault_response-IsFault a op start reason detail = record {
  only_trace = refl;
  two_lines = omega (
    arith,
    length-append (a.trace.lines ++ fault_line _ ∷ []) (commit_line _ ∷ []),
    length-append a.trace.lines (fault_line _ ∷ []),
  );
  halts = ground arith;
  bad_value = refl;
  no_stall = refl;
}

-- A faulty operation, invalid or out of order, changes nothing but the trace: two lines are added, and the
-- trace halts if it halts on faults. The answer is 0xBAD0BAD0, without a stall.
pub execute_commit-IsFault :
    (a : BusArbiter) (op : BusOp) (had_tie : Bool)
    → faults a op ≡ true
    → let (b, r) = execute_commit a op had_tie in IsFault a b r
unfolding execute_commit
execute_commit-IsFault a op had_tie h =
    let e = validate_bus_op op in
    elim (Bool-cases (not (error_code e == 0))) [
      | inl i ↦
          rw i (fault_response-IsFault a op (start_of a op) invalid_bus_op (validation_detail e op))
      | inr i ↦
          let late : is_late a op ≡ true = ground arith in
          rw (i, late)
            (fault_response-IsFault a op (start_of a op) non_monotonic_req_time (u32 op.req_time))
    ]

-- An operation without a fault starts at the later of its request and the bus's being free, and holds the bus
-- for its latency; the bus is then free at the time of the commit, and the stall is the time from the
-- request to it. This holds while the clock does not reach its limit.
pub execute_commit-timing :
    (a : BusArbiter) (op : BusOp) (had_tie : Bool)
    → faults a op ≡ false
    → max op.req_time a.bus_free_time + base_latency a.latency op + contention_extra a op had_tie
      < 2 ^ 64
    → let (b, r) = execute_commit a op had_tie in
      (r.start_time ≡ max op.req_time a.bus_free_time)
      × (r.commit_time ≡ r.start_time + base_latency a.latency op + contention_extra a op had_tie)
      × (b.bus_free_time ≡ r.commit_time)
      × (op.req_time + r.stall ≡ r.commit_time)
unfolding execute_commit grant
execute_commit-timing a op had_tie ok h = ground arith

-- A property of both branches.
pub if_holds {ℓ} :
    {A : Type ℓ} (P : A → Type 0) (b : Bool) {x y : A} → P x → P y → P (if b then x else y)
if_holds P true p q = p
if_holds P false p q = q
