-- ===== src/Sh2/Ahead.antt =====
-- The run ahead of `produce_until_bus` in src/cpu/sh2_core.cpp: how far it goes, and that its budget only cuts it.
use saturnis.Base.{
  ℕ, zero, suc, ◌+◌, ◌-◌, ◌^◌, ◌<◌, ◌≤◌, ◌≡◌, ◌⊎◌, ◌∙◌, refl, sym, ap, subst, Option, none, some,
  arith, bit_and, Bool-cases, Option-cases, inl, inr,
}
use saturnis.Base.Word.{u64}
use saturnis.Mem.{to_phys, cache_read}
use saturnis.Trace.{TraceLog}
use saturnis.Sh2.{Sh2Core, PendingMemOp, retire_step}
use saturnis.Sh2.Transfer.{push_system, pop_system}
use saturnis.Bus.Op.{BusOp, ifetch}
use saturnis.Sh2.Rows.{first_fit}
use saturnis.Sh2.Branches.{frame_of, frame_of-execute_op}
use saturnis.Sh2.Execute.{
  Executed, execute_instruction, execute_op, execute_op_of, finish_instruction,
}
use saturnis.Sh2.Produce.{
  MemAction, Produced, produce_until_bus, run_ahead, produced, is_uncached, memory_rows,
  begin_access, op_of_pending, load_rn, load_r0, store_rm, store_r0, load_inc, store_dec,
  push_system_reg, pop_system_reg, read_modify, core_op, miss_op,
}

finish_instruction-executed :
    (pending : Option ℕ) (x : Executed)
    → (finish_instruction pending x).0.executed ≡ u64 (x.core.executed + 1)
unfolding finish_instruction retire_step
finish_instruction-executed (some target) x = elim (Bool-cases x.core.pending_rte_restore) [
  | inl e ↦ rw e refl
  | inr e ↦ rw e refl
]
finish_instruction-executed none x = elim (Option-cases x.next_branch_target) [
  | inl e ↦ rw e refl
  | inr (target, e) ↦ rw e refl
]

execute_instruction-executed :
    (c : Sh2Core) (instr : ℕ) (trace : TraceLog)
    → (execute_instruction c instr trace).0.executed ≡ u64 (c.executed + 1)
unfolding execute_instruction frame_of
execute_instruction-executed c instr trace =
    let ready = record c { pending_branch_target = none } in
    finish_instruction-executed c.pending_branch_target
      (execute_op (execute_op_of instr) instr ready trace)
    ∙ ap (λ f. u64 (f.executed + 1)) (frame_of-execute_op instr ready trace (execute_op_of instr))

begin_access-pending :
    (action : MemAction) (instr : ℕ) (c : Sh2Core)
    → ((p : PendingMemOp) × ((begin_access action instr c).pending_mem_op ≡ some p))
      × ((begin_access action instr c).executed ≡ c.executed)
unfolding begin_access push_system pop_system
begin_access-pending (load_rn w a) instr c = ((_, refl), refl)
begin_access-pending (load_r0 w a) instr c = ((_, refl), refl)
begin_access-pending (store_rm w a) instr c = ((_, refl), refl)
begin_access-pending (store_r0 w a) instr c = ((_, refl), refl)
begin_access-pending (load_inc w) instr c = ((_, refl), refl)
begin_access-pending (store_dec w) instr c = ((_, refl), refl)
begin_access-pending (push_system_reg s) instr c = ((_, refl), refl)
begin_access-pending (pop_system_reg s) instr c = ((_, refl), refl)
begin_access-pending (read_modify kind) instr c = ((_, refl), refl)

-- One turn of the loop: it ends with an operation, or it executes the instruction in the cache.
data Turn (seq : ℕ) (c : Sh2Core) (trace : TraceLog) (executed : ℕ) : Type 0 where
  ends :
      (d : Sh2Core) (op : BusOp)
      → d.executed ≡ c.executed
      → ((budget : ℕ)
          → run_ahead (suc budget) seq c trace executed ≡ produced d trace (some op) executed)
      → Turn seq c trace executed
  goes_on :
      (instr : ℕ)
      → ((budget : ℕ)
          → run_ahead (suc budget) seq c trace executed
            ≡ run_ahead budget seq
                (execute_instruction c instr trace).0
                (execute_instruction c instr trace).1
                (u64 (executed + 1)))
      → Turn seq c trace executed

turn : (seq : ℕ) (c : Sh2Core) (trace : TraceLog) (executed : ℕ) → Turn seq c trace executed
unfolding run_ahead
turn seq c trace executed = elim (Bool-cases (is_uncached c.pc)) [
  | inl e ↦ ends c (core_op c seq ifetch (to_phys c.pc) 2 0) refl (λ budget. rw (run_ahead, e) refl)
  | inr e ↦ elim (Option-cases (cache_read c.icache (to_phys c.pc) 2)) [
    | inl miss ↦ ends c (miss_op c seq) refl (λ budget. rw (run_ahead, e, miss) refl)
    | inr (cached, hit) ↦ elim (Option-cases (first_fit memory_rows (bit_and cached 0xFFFF))) [
      | inl plain ↦ goes_on (bit_and cached 0xFFFF) (λ budget. rw (run_ahead, e, hit, plain) refl)
      | inr (action, memory) ↦
          let b = begin_access-pending action (bit_and cached 0xFFFF) c in
          ends (begin_access action (bit_and cached 0xFFFF) c)
            (op_of_pending (begin_access action (bit_and cached 0xFFFF) c) seq b.0.0) b.1
            (λ budget. rw (run_ahead, e, hit, memory, b.0.1) refl)
    ]
  ]
]

-- A run ahead counts what it executes, on the core's counter too, executes at most its budget, and ends without an
-- operation only when the budget is used up.
pub record Counts (budget : ℕ) (c : Sh2Core) (executed : ℕ) (p : Produced) : Type 0 where
  pub at_least : executed ≤ p.result.executed
  pub at_most : p.result.executed ≤ executed + budget
  pub ended :
      ((op : BusOp) × (p.result.op ≡ some op))
      ⊎ ((p.result.op ≡ none) × (p.result.executed ≡ executed + budget))
  pub counted : p.core.executed ≡ u64 (c.executed + (p.result.executed - executed))

run_ahead-Counts :
    (budget seq : ℕ) (c : Sh2Core) (trace : TraceLog) (executed : ℕ)
    → executed + budget < 2 ^ 64
    → c.executed < 2 ^ 64
    → Counts budget c executed (run_ahead budget seq c trace executed)
unfolding run_ahead
run_ahead-Counts zero seq c trace executed h k = record {
  at_least = omega arith;
  at_most = omega arith;
  ended = inr (refl, omega arith);
  counted = omega arith;
}
run_ahead-Counts (suc budget) seq c trace executed h k = elim (turn seq c trace executed) [
  | ends d op same is ↦ rw (is budget) (record {
    at_least = omega arith;
    at_most = omega arith;
    ended = inl (op, refl);
    counted = omega (arith, same);
  })
  | goes_on instr is ↦
      let one = execute_instruction-executed c instr trace in
      let next : u64 (executed + 1) ≡ executed + 1 = omega arith in
      let rest =
        run_ahead-Counts budget seq (execute_instruction c instr trace).0
          (execute_instruction c instr trace).1 (u64 (executed + 1)) (omega arith) (omega arith) in
      rw (is budget) (record {
        at_least = omega (arith, rest.at_least);
        at_most = omega (arith, rest.at_most);
        ended = elim rest.ended [ inl e ↦ inl e | inr e ↦ inr (e.0, omega (arith, e.1)) ];
        counted = omega (arith, rest.counted, one, rest.at_least);
      })
]

-- With no exception requested and no access pending, `produce_until_bus` with a budget of 32 bits ends either with an
-- operation or with as many instructions executed as its budget, never executes more, and its count is what
-- the core's own counter of 64 bits grew by.
pub produce_until_bus-Counts :
    (budget seq : ℕ) (c : Sh2Core) (trace : TraceLog)
    → budget < 2 ^ 32
    → c.executed < 2 ^ 64
    → c.pending_exception_vector ≡ none
    → c.pending_mem_op ≡ none
    → Counts budget c 0 (produce_until_bus c seq trace budget)
unfolding produce_until_bus
produce_until_bus-Counts budget seq c trace h k v m =
    let quiet = record c { pending_exception_vector = none; pending_mem_op = none } in
    let is : c ≡ quiet =
      ap (λ (o : Option ℕ). record c { pending_exception_vector = o }) v
      ∙ ap
          (λ (o : Option PendingMemOp). record c {
            pending_exception_vector = none;
            pending_mem_op = o;
          })
          m in
    subst (λ x. Counts budget x 0 (produce_until_bus x seq trace budget)) (sym is)
      (run_ahead-Counts budget seq quiet trace 0 (omega arith) k)
