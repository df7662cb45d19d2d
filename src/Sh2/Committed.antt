-- ===== src/Sh2/Committed.antt =====
-- A core of src/cpu/sh2_core.cpp against the arbiter of src/bus/bus_arbiter.cpp: its stack accesses, committed.
use saturnis.Base.{
  ℕ, ◌+◌, ◌^◌, ◌<◌, ◌≤◌, ◌≡◌, ◌≢◌, ◌∙◌, refl, sym, ap, true, false, Option, none, some, arith,
  length, set,
}
use saturnis.Mem.{to_phys, is_mmio}
use saturnis.Mem.Committed.{IsMemory}
use saturnis.Trace.{TraceLog}
use saturnis.Decode.{field_n}
use saturnis.Bus.{BusArbiter, execute_commit}
use saturnis.Bus.Op.{BusOp, read, write}
use saturnis.Bus.Commits.{faults}
use saturnis.Bus.Effects.{execute_commit-read_write}
use saturnis.Sh2.{Sh2Core, mem_op, write_long, reg, u32_sub}
use saturnis.Sh2.Transfer.{SystemReg, push_system, pop_system, system_value}
use saturnis.Sh2.Produce.{pending_op, op_of_pending, data_access_kind}
use saturnis.Sh2.Stack.{popped, answered, system_value-kept}
use saturnis.Sh2.Pushes.{pop_system-push_system, push_system-answered-reg}

data_access_kind-ram :
    (addr : ℕ)
    → is_mmio addr ≡ false
    → (data_access_kind addr true ≡ write) × (data_access_kind addr false ≡ read)
unfolding data_access_kind
data_access_kind-ram addr ram = (rw ram refl, rw ram refl)

abbrev or_itself : BusOp → Option BusOp → BusOp
or_itself w none = w
or_itself w (some x) = x

-- The core with the load begun, after the store `w` is committed.
abbrev pub loading :
    BusArbiter → Sh2Core → SystemReg → SystemReg → ℕ → ℕ → BusOp → TraceLog → Sh2Core
loading a c s s' push pop w trace =
    pop_system s' pop (answered (push_system s push c) (execute_commit a w false).1 trace)

-- A system register that a core stores to its stack and loads again, both accesses committed by the arbiter in RAM
-- with neither a fault, and no branch pending: the loaded register has the stored value and the stack pointer, a
-- register other than R0, is as before.
pub pop_system-push_system_committed :
    (a : BusArbiter) (c : Sh2Core) (s s' : SystemReg) (push pop seq seq' : ℕ) (w r : BusOp)
    (trace trace' : TraceLog)
    → field_n push < length c.r
    → reg c (field_n push) < 2 ^ 32
    → field_n pop ≡ field_n push
    → field_n push ≢ 0
    → c.pending_branch_target ≡ none
    → system_value s c < 2 ^ 32
    → IsMemory a.memory
    → pending_op (push_system s push c) seq ≡ some w
    → pending_op (loading a c s s' push pop w trace) seq' ≡ some r
    → is_mmio w.phys_addr ≡ false
    → w.phys_addr + 4 ≤ length a.memory.bytes
    → faults a w ≡ false
    → faults (execute_commit a w false).0 r ≡ false
    → let last =
        answered
          (loading a c s s' push pop w trace)
          (execute_commit (execute_commit a w false).0 r false).1
          trace' in
      (system_value s' last ≡ system_value s c) × (reg last (field_n push) ≡ reg c (field_n push))
unfolding push_system pop_system op_of_pending
pop_system-push_system_committed a c s s' push pop seq seq' w r trace trace' h x f nz n v bytes ew
      er ram room okw okr =
    let sp : ℕ = u32_sub (reg c (field_n push)) 4 in
    let stored = record c { r = set c.r (field_n push) sp } in
    let begun = push_system s push c in
    let loads = loading a c s s' push pop w trace in
    let d = answered begun (execute_commit a w false).1 trace in
    let pw : op_of_pending begun seq (mem_op write_long (to_phys sp) 4 (system_value s stored) 0)
        ≡ w =
      ap (or_itself w) ew in
    let pr : op_of_pending loads seq' (popped d s' pop) ≡ r = ap (or_itself r) er in
    let at_w : w.phys_addr ≡ to_phys sp = sym (ap (λ x. x.phys_addr) pw) in
    let size_w : w.size ≡ 4 = sym (ap (λ x. x.size) pw) in
    let word : w.data_word ≡ system_value s c =
      sym (ap (λ x. x.data_word) pw) ∙ system_value-kept s c c.pc (set c.r (field_n push) sp) in
    let at_r : r.phys_addr ≡ to_phys sp =
      sym (ap (λ x. x.phys_addr) pr)
      ∙ ap to_phys (
          ap (λ x. reg d x) f
          ∙ push_system-answered-reg c s push (execute_commit a w false).1 trace h n) in
    let ram_sp : is_mmio (to_phys sp) ≡ false = ap is_mmio (sym at_w) ∙ ram in
    let kind_w : w.kind ≡ write =
      sym (ap (λ x. x.kind) pw) ∙ (data_access_kind-ram (to_phys sp) ram_sp).0 in
    let kind_r : r.kind ≡ read =
      sym (ap (λ x. x.kind) pr)
      ∙ (data_access_kind-ram (to_phys (reg d (field_n pop)))
          (ap is_mmio (ap (λ x. x.phys_addr) pr ∙ at_r) ∙ ram_sp)).1 in
    let size_r : r.size ≡ w.size = sym (ap (λ x. x.size) pr) ∙ sym size_w in
    let answer =
      execute_commit-read_write a w r false false bytes kind_w kind_r (at_r ∙ sym at_w) size_r ram
        (rw size_w room) okw okr in
    let value : (execute_commit (execute_commit a w false).0 r false).1.value ≡ system_value s c =
      answer ∙ rw (size_w, word) (omega arith) in
    let whole =
      pop_system-push_system c s s' push pop (execute_commit a w false).1
        (execute_commit (execute_commit a w false).0 r false).1 trace trace' h x f nz n value in
    (whole.2, whole.3)
