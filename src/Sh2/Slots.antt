-- ===== src/Sh2/Slots.antt =====
-- Delay slots of src/cpu/sh2_core.cpp: the instruction after a branch ends at the branch's target.
use mathlib.Core.List.{Memᴰ}
use saturnis.Base.{
  ℕ, ◌+◌, ◌-◌, ◌*◌, ◌%◌, ◌^◌, ◌<◌, ◌≤◌, ◌≡◌, ◌⊎◌, ◌∙◌, refl, ap, true, false, Option, none, some,
  Bool-cases, Option-cases, inl, inr, if◌then◌else◌, arith, ltb, bit_and, ==_iff, mem-get_elem?,
  ltb→lt,
}
use saturnis.Base.Word.{u32}
use saturnis.Trace.{TraceLog}
use saturnis.Sh2.{Sh2Core, retire_step, u32_add, u32_sub, u32_add_i32, signext12}
use saturnis.Sh2.Rows.{Row, row, first_fit}
use saturnis.Sh2.Branches.{frame_of, frame_of-execute_op}
use saturnis.Sh2.Execute.{
  ExecuteOp, Executed, BranchOp, execute_op, execute_op_of, execute_op_of-mem, execute_rows,
  execute_branch, branch_target, finish_instruction, execute_instruction, branch_op, bra, bsr, jsr,
  rts,
}

abbrev pub after_two : Sh2Core → ℕ → ℕ → TraceLog → Sh2Core
after_two c first second trace =
    let (d, trace') = execute_instruction c first trace in (execute_instruction d second trace').0

finish_instruction-target :
    (x : Executed) (target : ℕ)
    → x.core.pending_branch_target ≡ none
    → ((finish_instruction (some target) x).0.pc ≡ target)
      × ((finish_instruction (some target) x).0.pending_branch_target ≡ none)
unfolding finish_instruction retire_step
finish_instruction-target x target h = elim (Bool-cases x.core.pending_rte_restore) [
  | inl e ↦ (refl, rw e h)
  | inr e ↦ (refl, rw e h)
]

-- While a branch is pending, every instruction, a branch among them, ends at that branch's target with no
-- branch pending.
pub execute_instruction-delay_slot :
    (c : Sh2Core) (instr : ℕ) (trace : TraceLog) (target : ℕ)
    → c.pending_branch_target ≡ some target
    → ((execute_instruction c instr trace).0.pc ≡ target)
      × ((execute_instruction c instr trace).0.pending_branch_target ≡ none)
unfolding execute_instruction frame_of
execute_instruction-delay_slot c instr trace target h =
    let ready = record c { pending_branch_target = none } in
    rw h (
      finish_instruction-target (execute_op (execute_op_of instr) instr ready trace) target
        (ap (λ f. f.target) (frame_of-execute_op instr ready trace (execute_op_of instr))))

execute_instruction-takes :
    (c : Sh2Core) (instr : ℕ) (trace : TraceLog) (o : BranchOp) (target : ℕ)
    → c.pending_branch_target ≡ none
    → execute_op_of instr ≡ some (branch_op o)
    → (execute_branch o instr (record c { pending_branch_target = none }) trace).next_branch_target
      ≡ some target
    → (execute_instruction c instr trace).0.pending_branch_target ≡ some target
unfolding execute_instruction execute_op finish_instruction retire_step
execute_instruction-takes c instr trace o target n e t = rw (n, e, t) refl

-- A taken branch, and the instruction after it.
branch_lem :
    (c : Sh2Core) (instr slot : ℕ) (trace : TraceLog) (o : BranchOp) (target : ℕ)
    → c.pending_branch_target ≡ none
    → execute_op_of instr ≡ some (branch_op o)
    → (execute_branch o instr (record c { pending_branch_target = none }) trace).next_branch_target
      ≡ some target
    → (after_two c instr slot trace).pc ≡ target
branch_lem c instr slot trace o target n e t =
    let (d, trace') = execute_instruction c instr trace in
    (execute_instruction-delay_slot d slot trace' target
      (execute_instruction-takes c instr trace o target n e t)).0

branch_target-forward :
    (c : Sh2Core) (instr : ℕ)
    → instr % 2 ^ 12 < 2 ^ 11
    → branch_target c (signext12 instr) ≡ u32 (c.pc + 4 + 2 * (instr % 2 ^ 12))
unfolding u32_add_i32 u32_add
branch_target-forward c instr h =
    let e : ltb (instr % 2 ^ 12 * 2) (2 ^ 12) ≡ true = ground arith in rw e (omega arith)

branch_target-back :
    (c : Sh2Core) (instr : ℕ)
    → c.pc < 2 ^ 32
    → 2 ^ 11 ≤ instr % 2 ^ 12
    → branch_target c (signext12 instr) ≡ u32 (c.pc + 4 + 2 ^ 32 - 2 * (2 ^ 12 - instr % 2 ^ 12))
unfolding u32_add_i32 u32_sub u32_add
branch_target-back c instr p h =
    let e : ltb (instr % 2 ^ 12 * 2) (2 ^ 12) ≡ false = ground arith in rw e (omega arith)

-- The word of a row of the table, executed.
op_of_fitting :
    (q : Row ExecuteOp) (instr : ℕ)
    → instr < 2 ^ 16
    → Memᴰ q execute_rows
    → bit_and instr q.mask ≡ q.value
    → execute_op_of instr ≡ some q.action
op_of_fitting q instr h m e =
    execute_op_of-mem q instr h m ((==_iff (bit_and instr q.mask) q.value).1 e)

pub op_of_bra :
    (instr : ℕ)
    → instr < 2 ^ 16
    → bit_and instr 0xF000 ≡ 0xA000
    → execute_op_of instr ≡ some (branch_op bra)
unfolding execute_rows
op_of_bra instr h e =
    op_of_fitting (row 0xF000 0xA000 (branch_op bra)) instr h (mem-get_elem? execute_rows 85 refl) e

-- BRA and the instruction in its slot, whichever it is, end at the address of the BRA plus 4 plus twice its
-- signed displacement of 12 bits, modulo 2^32, if no branch was pending before.
pub bra_lem :
    (c : Sh2Core) (instr slot : ℕ) (trace : TraceLog)
    → c.pc < 2 ^ 32
    → instr < 2 ^ 16
    → bit_and instr 0xF000 ≡ 0xA000
    → c.pending_branch_target ≡ none
    → (after_two c instr slot trace).pc ≡ (
        if ltb (instr % 2 ^ 12) (2 ^ 11)
        then u32 (c.pc + 4 + 2 * (instr % 2 ^ 12))
        else u32 (c.pc + 4 + 2 ^ 32 - 2 * (2 ^ 12 - instr % 2 ^ 12)))
unfolding execute_branch
bra_lem c instr slot trace p h e n =
    branch_lem c instr slot trace bra (branch_target c (signext12 instr)) n (op_of_bra instr h e)
      refl
    ∙ elim (Bool-cases (ltb (instr % 2 ^ 12) (2 ^ 11))) [
      | inl s ↦
          rw s (branch_target-forward c instr (omega (arith, ltb→lt (instr % 2 ^ 12) (2 ^ 11) s)))
      | inr s ↦ rw s (branch_target-back c instr p (ground (arith, s)))
    ]

op_of_rts : execute_op_of 0x000B ≡ some (branch_op rts)
unfolding execute_op_of first_fit execute_rows
op_of_rts = refl

finish_instruction-pr :
    (pending : Option ℕ) (x : Executed) → (finish_instruction pending x).0.pr ≡ x.core.pr
unfolding finish_instruction retire_step
finish_instruction-pr (some target) x = elim (Bool-cases x.core.pending_rte_restore) [
  | inl e ↦ rw e refl
  | inr e ↦ rw e refl
]
finish_instruction-pr none x = elim (Option-cases x.next_branch_target) [
  | inl e ↦ rw e refl
  | inr (target, e) ↦ rw e refl
]

call-pr :
    (c : Sh2Core) (instr : ℕ) (o : BranchOp) (trace : TraceLog)
    → execute_op_of instr ≡ some (branch_op o)
    → (o ≡ bsr) ⊎ (o ≡ jsr)
    → (execute_instruction c instr trace).0.pr ≡ u32 (c.pc + 4)
unfolding execute_instruction execute_op execute_branch
call-pr c instr o trace e w =
    let ready = record c { pending_branch_target = none } in
    finish_instruction-pr c.pending_branch_target
      (execute_op (execute_op_of instr) instr ready trace)
    ∙ rw e (elim w [ inl b ↦ rw b refl | inr b ↦ rw b refl ])

-- After BSR or JSR the procedure register holds the address behind the slot, and RTS with that register,
-- followed by any instruction in its slot, ends there.
pub rts-call :
    (c d : Sh2Core) (call slot : ℕ) (o : BranchOp) (trace trace' : TraceLog)
    → execute_op_of call ≡ some (branch_op o)
    → (o ≡ bsr) ⊎ (o ≡ jsr)
    → d.pr ≡ (execute_instruction c call trace).0.pr
    → d.pending_branch_target ≡ none
    → (after_two d 0x000B slot trace').pc ≡ u32 (c.pc + 4)
unfolding execute_branch
rts-call c d call slot o trace trace' e w p n =
    branch_lem d 0x000B slot trace' rts d.pr n op_of_rts refl ∙ p ∙ call-pr c call o trace e w
