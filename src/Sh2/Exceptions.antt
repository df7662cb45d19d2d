-- ===== src/Sh2/Exceptions.antt =====
-- Exceptions of src/cpu/sh2_core.cpp: the accesses of an entry and of RTE, with the responses of a bus, and the
-- state that they leave.
use saturnis.Base.{
  ℕ, ◌+◌, ◌*◌, ◌≡◌, ◌∙◌, refl, ap, true, false, none, some, List, [], ◌∷◌, map, arith, length,
  get_or, set, get_or-set_self, length-set,
}
use saturnis.Base.Word.{u32, u64}
use saturnis.Mem.{to_phys}
use saturnis.Trace.{TraceLog}
use saturnis.Bus.{BusResponse}
use saturnis.Bus.Op.{BusKind, BusOp}
use saturnis.Sh2.{
  Sh2Core, mem_op, rte_pop_pc, request_exception_vector, reg, retire_step, u32_add, u32_sub,
}
use saturnis.Sh2.Rows.{first_fit}
use saturnis.Sh2.Branches.{frame_of, frame_of-execute_op}
use saturnis.Sh2.Execute.{
  execute_instruction, execute_op, execute_op_of, execute_rows, execute_branch, execute_rte,
  finish_instruction, Executed, branch_op, rte,
}
use saturnis.Sh2.Produce.{produce_until_bus, enter_exception, op_of_pending, data_access_kind}
use saturnis.Sh2.Apply.{apply_ifetch_and_step, complete_pending, exception_step}

-- The core against the responses of a bus, one for each operation that it produces: the operations, and the
-- core and the trace at the end.
unfoldable pub serve : List BusResponse → ℕ → Sh2Core → TraceLog → List BusOp × (Sh2Core × TraceLog)
serve [] seq c trace = ([], (c, trace))
serve (response ∷ responses) seq c trace =
    let p = produce_until_bus c seq trace 1 in
    elim p.result.op [
      | none ↦ ([], (p.core, p.trace))
      | some op ↦
          let (d, trace') = apply_ifetch_and_step p.core response p.trace in
          let (ops, last) = serve responses (seq + 1) d trace' in (op ∷ ops, last)
    ]

-- The kind, the address and the data of an operation.
abbrev pub access : BusOp → BusKind × (ℕ × ℕ)
access op = (op.kind, (op.phys_addr, op.data_word))

abbrev pub long_write : ℕ → ℕ → BusKind × (ℕ × ℕ)
long_write vaddr value = (data_access_kind (to_phys vaddr) true, (to_phys vaddr, value))

abbrev pub long_read : ℕ → BusKind × (ℕ × ℕ)
long_read vaddr = (data_access_kind (to_phys vaddr) false, (to_phys vaddr, 0))

-- The stack pointer after one push and after two.
abbrev pub pushed : Sh2Core → ℕ
pushed c = u32_sub (reg c 15) 4

abbrev pub pushed_twice : Sh2Core → ℕ
pushed_twice c = u32_sub (pushed c) 4

-- An exception that is requested pushes SR and then the program counter, reads the vector, and starts
-- at the value read. SR and a pending branch stay, and the core can return.
pub serve-request_exception_vector :
    (c : Sh2Core) (vector seq : ℕ) (trace : TraceLog) (r1 r2 r3 : BusResponse)
    → length c.r ≡ 16
    → let s = serve (r1 ∷ r2 ∷ r3 ∷ []) seq (request_exception_vector c vector) trace in
      (map access s.0
        ≡ long_write (pushed c) c.sr
          ∷ long_write (pushed_twice c) c.pc
          ∷ long_read (u32 (c.vbr + vector * 4))
          ∷ [])
      × (s.1.0.pc ≡ r3.value)
      × (s.1.0.sr ≡ c.sr)
      × (reg s.1.0 15 ≡ pushed_twice c)
      × (s.1.0.pending_branch_target ≡ c.pending_branch_target)
      × (s.1.0.has_exception_return_context ≡ true)
unfolding serve produce_until_bus enter_exception op_of_pending apply_ifetch_and_step
    complete_pending exception_step retire_step
serve-request_exception_vector c vector seq trace r1 r2 r3 h =
    let once : get_or (set c.r 15 (pushed c)) 15 0 ≡ pushed c =
      get_or-set_self c.r 15 (pushed c) 0 (omega arith) in
    let twice : get_or (set (set c.r 15 (pushed c)) 15 (pushed_twice c)) 15 0 ≡ pushed_twice c =
      get_or-set_self (set c.r 15 (pushed c)) 15 (pushed_twice c) 0
        (omega (arith, length-set c.r 15 (pushed c))) in
    rw once (refl, refl, refl, twice, refl, refl)

finish_instruction-restores :
    (x : Executed) (target : ℕ)
    → x.core.pending_rte_restore ≡ true
    → ((finish_instruction (some target) x).0.sr ≡ x.core.pending_new_sr)
      × ((finish_instruction (some target) x).0.pending_rte_restore ≡ false)
unfolding finish_instruction retire_step
finish_instruction-restores x target h = (rw h refl, rw h refl)

-- The instruction in the slot of RTE ends with the status register that RTE read.
pub execute_instruction-restores :
    (c : Sh2Core) (instr : ℕ) (trace : TraceLog) (target : ℕ)
    → c.pending_branch_target ≡ some target
    → c.pending_rte_restore ≡ true
    → ((execute_instruction c instr trace).0.sr ≡ c.pending_new_sr)
      × ((execute_instruction c instr trace).0.pending_rte_restore ≡ false)
unfolding execute_instruction frame_of
execute_instruction-restores c instr trace target h r =
    let ready = record c { pending_branch_target = none } in
    let x = execute_op (execute_op_of instr) instr ready trace in
    let kept = frame_of-execute_op instr ready trace (execute_op_of instr) in
    let f = finish_instruction-restores x target (ap (λ k. k.restore) kept ∙ r) in
    rw h (f.0 ∙ ap (λ k. k.new_sr) kept, f.1)

op_of_rte : execute_op_of 0x002B ≡ some (branch_op rte)
unfolding execute_op_of first_fit execute_rows
op_of_rte = refl

-- RTE, in a core that can return and has nothing pending.
abbrev pub returning : Sh2Core → TraceLog → Sh2Core × TraceLog
returning d trace = execute_instruction d 0x002B trace

abbrev popping : Sh2Core → Sh2Core
popping d = record d {
  pc = u32 (d.pc + 2);
  t = u64 (d.t + 1);
  executed = u64 (d.executed + 1);
  pending_branch_target = none;
  pending_exception_vector = none;
  pending_mem_op = some (mem_op rte_pop_pc (to_phys (reg d 15)) 4 0 0);
}

execute_rte-core :
    (c : Sh2Core) (trace : TraceLog)
    → c.has_exception_return_context ≡ true
    → ((execute_rte c trace).next_branch_target ≡ none)
      × ((execute_rte c trace).core ≡ record c {
        pc = u32 (c.pc + 2);
        pending_mem_op = some (mem_op rte_pop_pc (to_phys (reg c 15)) 4 0 0);
      })
unfolding execute_rte
execute_rte-core c trace k = (rw k refl, rw k refl)

returning-core :
    (d : Sh2Core) (trace : TraceLog)
    → d.has_exception_return_context ≡ true
    → d.pending_branch_target ≡ none
    → d.pending_exception_vector ≡ none
    → (returning d trace).0 ≡ popping d
unfolding execute_instruction execute_op execute_branch finish_instruction retire_step
returning-core d trace k n v =
    let ready = record d { pending_branch_target = none } in
    let e = execute_rte-core ready trace k in rw (op_of_rte, n, e.0, e.1, v) refl

serve-popping :
    (d : Sh2Core) (seq : ℕ) (trace : TraceLog) (q1 q2 : BusResponse)
    → length d.r ≡ 16
    → let s = serve (q1 ∷ q2 ∷ []) seq (popping d) trace in
      (map access s.0 ≡ long_read (reg d 15) ∷ long_read (u32_add (reg d 15) 4) ∷ [])
      × (reg s.1.0 15 ≡ u32_add (u32_add (reg d 15) 4) 4)
      × (s.1.0.pending_branch_target ≡ some q1.value)
      × (s.1.0.pending_new_sr ≡ q2.value)
      × (s.1.0.pending_rte_restore ≡ true)
      × (s.1.0.has_exception_return_context ≡ false)
unfolding serve produce_until_bus op_of_pending apply_ifetch_and_step complete_pending
    exception_step retire_step
serve-popping d seq trace q1 q2 h =
    let up : ℕ = u32_add (reg d 15) 4 in
    let once : get_or (set d.r 15 up) 15 0 ≡ up = get_or-set_self d.r 15 up 0 (omega arith) in
    let twice : get_or (set (set d.r 15 up) 15 (u32_add up 4)) 15 0 ≡ u32_add up 4 =
      get_or-set_self (set d.r 15 up) 15 (u32_add up 4) 0 (omega (arith, length-set d.r 15 up)) in
    rw once (refl, twice, refl, refl, refl, refl)

-- RTE, in a core that can return and has nothing else pending, reads the program counter and then SR from the
-- stack; they wait for the instruction in the slot.
pub serve-rte :
    (d : Sh2Core) (seq : ℕ) (trace : TraceLog) (q1 q2 : BusResponse)
    → length d.r ≡ 16
    → d.has_exception_return_context ≡ true
    → d.pending_branch_target ≡ none
    → d.pending_exception_vector ≡ none
    → let s = serve (q1 ∷ q2 ∷ []) seq (returning d trace).0 (returning d trace).1 in
      (map access s.0 ≡ long_read (reg d 15) ∷ long_read (u32_add (reg d 15) 4) ∷ [])
      × (reg s.1.0 15 ≡ u32_add (u32_add (reg d 15) 4) 4)
      × (s.1.0.pending_branch_target ≡ some q1.value)
      × (s.1.0.pending_new_sr ≡ q2.value)
      × (s.1.0.pending_rte_restore ≡ true)
      × (s.1.0.has_exception_return_context ≡ false)
serve-rte d seq trace q1 q2 h k n v =
    rw (returning-core d trace k n v) (serve-popping d seq (returning d trace).1 q1 q2 h)
