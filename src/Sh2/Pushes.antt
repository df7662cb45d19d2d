-- ===== src/Sh2/Pushes.antt =====
-- STC.L and STS.L to @-Rn of src/cpu/sh2_core.cpp, by themselves and with the load that follows.
use saturnis.Base.{
  ℕ, ◌+◌, ◌^◌, ◌<◌, ◌≡◌, ◌≢◌, ◌∙◌, refl, sym, ap, false, Option, none, some, arith, length, set,
  get_or-set_self, length-set, ◌==◌,
}
use saturnis.Base.Word.{u32, u64}
use saturnis.Mem.{to_phys}
use saturnis.Trace.{TraceLog}
use saturnis.Bus.{BusResponse}
use saturnis.Decode.{field_n}
use saturnis.Sh2.{Sh2Core, mem_op, write_long, reg, retire_step, u32_add, u32_sub}
use saturnis.Sh2.Transfer.{SystemReg, system_value, push_system, pop_system}
use saturnis.Sh2.Branches.{execute_instruction-by}
use saturnis.Sh2.Returns.{u32_add-u32_sub}
use saturnis.Sh2.Execute.{
  execute_instruction, execute_op, execute_op_of, finish_instruction, push_op,
}
use saturnis.Sh2.Produce.{push_system_reg, begin_access}
use saturnis.Sh2.Apply.{
  apply_ifetch_and_step, complete_pending, finish_access, load_value, post_increment,
}
use saturnis.Sh2.Stack.{answered, pop_system-answered, leave_access-none, system_value-kept}

-- The core once a write has been answered.
abbrev written : Sh2Core → BusResponse → Sh2Core
written c response = record c {
  pc = u32 (c.pc + 2);
  t = u64 (u64 (c.t + response.stall) + 1);
  executed = u64 (c.executed + 1);
  pending_mem_op = none;
}

write-answered :
    (x : Sh2Core) (addr value : ℕ) (response : BusResponse) (trace : TraceLog)
    → x.pending_branch_target ≡ none
    → answered
        (record x { pending_mem_op = some (mem_op write_long addr 4 value 0) })
        response
        trace
      ≡ written x response
unfolding apply_ifetch_and_step complete_pending finish_access load_value post_increment retire_step
write-answered x addr value response trace n =
    let waited = record x { t = u64 (x.t + response.stall); pending_mem_op = none } in
    rw (leave_access-none waited n) refl

push_system-answered :
    (c : Sh2Core) (s : SystemReg) (instr : ℕ) (response : BusResponse) (trace : TraceLog)
    → c.pending_branch_target ≡ none
    → answered (push_system s instr c) response trace ≡ written (push_system s instr c) response
unfolding push_system
push_system-answered c s instr response trace n =
    let sp : ℕ = u32_sub (reg c (field_n instr)) 4 in
    let stored = record c { r = set c.r (field_n instr) sp } in
    write-answered stored (to_phys sp) (system_value s stored) response trace n

-- The address and the value of the pending access.
abbrev pub pending_address : Sh2Core → Option ℕ
pending_address c = elim c.pending_mem_op [ none ↦ none | some p ↦ some p.phys_addr ]

abbrev pub pending_value : Sh2Core → Option ℕ
pending_value c = elim c.pending_mem_op [ none ↦ none | some p ↦ some p.value ]

pub push_system-answered-reg :
    (c : Sh2Core) (s : SystemReg) (instr : ℕ) (response : BusResponse) (trace : TraceLog)
    → field_n instr < length c.r
    → c.pending_branch_target ≡ none
    → reg (answered (push_system s instr c) response trace) (field_n instr)
      ≡ u32_sub (reg c (field_n instr)) 4
unfolding push_system
push_system-answered-reg c s instr response trace h n =
    ap (λ (x : Sh2Core). reg x (field_n instr)) (push_system-answered c s instr response trace n)
    ∙ get_or-set_self c.r (field_n instr) (u32_sub (reg c (field_n instr)) 4) 0 h

-- A system register that is stored to a stack and loaded from it, with a stack pointer other than R0 and no
-- branch pending: the load reads the long that the store wrote, and if it reads the value written, then the
-- loaded register has the stored one's value and the stack pointer is as before.
pub pop_system-push_system :
    (c : Sh2Core) (s s' : SystemReg) (push pop : ℕ) (r q : BusResponse) (trace trace' : TraceLog)
    → field_n push < length c.r
    → reg c (field_n push) < 2 ^ 32
    → field_n pop ≡ field_n push
    → field_n push ≢ 0
    → c.pending_branch_target ≡ none
    → q.value ≡ system_value s c
    → let begun = push_system s push c in
      let middle = pop_system s' pop (answered begun r trace) in
      let last = answered middle q trace' in
      (pending_value begun ≡ some (system_value s c))
      × (pending_address middle ≡ pending_address begun)
      × (system_value s' last ≡ system_value s c)
      × (reg last (field_n push) ≡ reg c (field_n push))
unfolding push_system pop_system
pop_system-push_system c s s' push pop r q trace trace' h w f nz n v =
    let n0 : ℕ = field_n push in
    let sp : ℕ = u32_sub (reg c n0) 4 in
    let begun = push_system s push c in
    let d = answered begun r trace in
    let is : d ≡ written begun r = push_system-answered c s push r trace n in
    let at_sp : reg d n0 ≡ sp = push_system-answered-reg c s push r trace h n in
    let room : length d.r ≡ length c.r =
      ap (λ (x : Sh2Core). length x.r) is ∙ length-set c.r n0 sp in
    let calm : d.pending_branch_target ≡ none =
      ap (λ (x : Sh2Core). x.pending_branch_target) is ∙ n in
    let done = pop_system-answered d s' pop q trace' (omega (arith, f, room, h)) calm in
    let not_zero : (field_n pop == 0) ≡ false = ground (arith, f, nz) in
    (
      ap some (system_value-kept s c c.pc (set c.r n0 sp)),
      ap (λ x. some (to_phys x)) (ap (λ x. reg d x) f ∙ at_sp),
      done.0 ∙ v,
      ap (λ x. reg (answered (pop_system s' pop d) q trace') x) (sym f)
          ∙ done.1
          ∙ rw not_zero (
              ap (λ x. u32_add x 4) (ap (λ x. reg d x) f ∙ at_sp)
              ∙ u32_add-u32_sub (reg c n0) 4 w (omega arith)),
    )

execute_instruction-push :
    (c : Sh2Core) (s : SystemReg) (instr : ℕ) (trace : TraceLog)
    → execute_op_of instr ≡ some (push_op s)
    → c.pending_branch_target ≡ none
    → (execute_instruction c instr trace).0
      ≡ record (push_system s instr (record c { pending_branch_target = none })) {
        pc = u32 (c.pc + 2);
        t = u64 (c.t + 1);
        executed = u64 (c.executed + 1);
      }
unfolding execute_op finish_instruction retire_step push_system
execute_instruction-push c s instr trace e n =
    ap (λ x. x.0) (execute_instruction-by c instr trace none (some (push_op s)) n e)

-- With no branch pending, a store of a system register to a stack moves the program counter by 2, once its access is
-- answered, if the run ahead began it, and by 4 if `execute_instruction` did, as it does after a fetch.
pub push_system_skips :
    (c : Sh2Core) (s : SystemReg) (instr : ℕ) (response : BusResponse) (trace trace' : TraceLog)
    → execute_op_of instr ≡ some (push_op s)
    → c.pending_branch_target ≡ none
    → ((answered (begin_access (push_system_reg s) instr c) response trace).pc ≡ u32 (c.pc + 2))
      × ((answered (execute_instruction c instr trace).0 response trace').pc
          ≡ u32 (u32 (c.pc + 2) + 2))
unfolding begin_access push_system
push_system_skips c s instr response trace trace' e n =
    let ready = record c { pending_branch_target = none } in
    let sp : ℕ = u32_sub (reg c (field_n instr)) 4 in
    (
      ap (λ (x : Sh2Core). x.pc) (push_system-answered c s instr response trace n),
      ap (λ (x : Sh2Core). (answered x response trace').pc)
            (execute_instruction-push c s instr trace e n)
          ∙ ap (λ (x : Sh2Core). x.pc)
              (write-answered
                (record ready {
                  pc = u32 (c.pc + 2);
                  r = set c.r (field_n instr) sp;
                  t = u64 (c.t + 1);
                  executed = u64 (c.executed + 1);
                })
                (to_phys sp) (system_value s (record ready { r = set c.r (field_n instr) sp }))
                response trace' refl),
    )
