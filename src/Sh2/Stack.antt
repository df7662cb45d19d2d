-- ===== src/Sh2/Stack.antt =====
-- LDC.L and LDS.L from @Rn+ of src/cpu/sh2_core.cpp: the registers once the bus has answered.
use saturnis.Base.{
  ℕ, ◌+◌, ◌<◌, ◌≡◌, ◌∙◌, refl, sym, ap, true, false, Option, none, some, List, length, set,
  get_or-set_self, ◌==◌, if◌then◌else◌, Bool-cases, inl, inr,
}
use saturnis.Base.Word.{u32, u64}
use saturnis.Mem.{to_phys}
use saturnis.Trace.{TraceLog}
use saturnis.Bus.{BusResponse}
use saturnis.Decode.{field_n}
use saturnis.Sh2.{Sh2Core, PendingMemOp, mem_op, read_long, reg, retire_step, u32_add}
use saturnis.Sh2.Transfer.{
  SystemReg, pr_reg, sr_reg, gbr_reg, vbr_reg, mach_reg, macl_reg, system_value, load_aux,
  pop_system,
}
use saturnis.Sh2.Apply.{
  apply_ifetch_and_step, complete_pending, finish_access, load_value, load_long, post_increment,
  leave_access,
}

-- The core after the answer to the access that is pending.
abbrev pub answered : Sh2Core → BusResponse → TraceLog → Sh2Core
answered c response trace = (apply_ifetch_and_step c response trace).0

pub system_value-kept :
    (s : SystemReg) (x : Sh2Core) (pc : ℕ) (r : List ℕ)
    → system_value s (record x { pc = pc; r = r }) ≡ system_value s x
system_value-kept pr_reg x pc r = refl
system_value-kept sr_reg x pc r = refl
system_value-kept gbr_reg x pc r = refl
system_value-kept vbr_reg x pc r = refl
system_value-kept mach_reg x pc r = refl
system_value-kept macl_reg x pc r = refl

pub leave_access-none :
    (x : Sh2Core)
    → x.pending_branch_target ≡ none
    → leave_access x ≡ record x { pc = u32 (x.pc + 2) }
unfolding leave_access
leave_access-none x n =
    ap (λ (o : Option ℕ). leave_access (record x { pending_branch_target = o })) n
    ∙ ap (λ (o : Option ℕ). record x { pc = u32 (x.pc + 2); pending_branch_target = o }) (sym n)

post_increment-same :
    (p : PendingMemOp) (m : ℕ) (x : Sh2Core)
    → p.post_inc_reg ≡ some m
    → (m == p.dst_reg) ≡ true
    → post_increment p x ≡ x
unfolding post_increment
post_increment-same p m x i e = rw (i, e) refl

post_increment-other :
    (p : PendingMemOp) (m : ℕ) (x : Sh2Core)
    → p.post_inc_reg ≡ some m
    → (m == p.dst_reg) ≡ false
    → post_increment p x ≡ record x { r = set x.r m (u32_add (reg x m) p.post_inc_size) }
unfolding post_increment
post_increment-other p m x i e = rw (i, e) refl

-- The end of an access that increments register `m`, if it does not load it too.
finish_increment :
    (p : PendingMemOp) (s : SystemReg) (m : ℕ) (x : Sh2Core)
    → p.post_inc_reg ≡ some m
    → m < length x.r
    → x.pending_branch_target ≡ none
    → let y = leave_access (post_increment p x) in
      (system_value s y ≡ system_value s x)
      × (reg y m ≡ (if m == p.dst_reg then reg x m else u32_add (reg x m) p.post_inc_size))
      × (y.pc ≡ u32 (x.pc + 2))
finish_increment p s m x i h n = elim (Bool-cases (m == p.dst_reg)) [
  | inl e ↦
      rw (post_increment-same p m x i e, leave_access-none x n, e)
        (system_value-kept s x (u32 (x.pc + 2)) x.r, refl, refl)
  | inr e ↦
      let up : ℕ = u32_add (reg x m) p.post_inc_size in
      rw (post_increment-other p m x i e, leave_access-none (record x { r = set x.r m up }) n, e)
        (system_value-kept s x (u32 (x.pc + 2)) (set x.r m up), get_or-set_self x.r m up 0 h, refl)
]

-- The access of `pop_system`.
abbrev pub popped : Sh2Core → SystemReg → ℕ → PendingMemOp
popped c s instr = record (mem_op read_long (to_phys (reg c (field_n instr))) 4 0 0) {
  post_inc_reg = some (field_n instr);
  post_inc_size = 4;
  post_inc_base_before = reg c (field_n instr);
  aux = load_aux s;
}

-- With no branch pending, once a load of a system register from a stack is answered, the system register has the value
-- read, the program counter has moved by 2, and the address register is 4 higher, but R0 is as before.
pub pop_system-answered :
    (c : Sh2Core) (s : SystemReg) (instr : ℕ) (response : BusResponse) (trace : TraceLog)
    → field_n instr < length c.r
    → c.pending_branch_target ≡ none
    → let d = answered (pop_system s instr c) response trace in
      (system_value s d ≡ response.value)
      × (reg d (field_n instr) ≡ (
          if field_n instr == 0 then reg c (field_n instr) else u32_add (reg c (field_n instr)) 4))
      × (d.pc ≡ u32 (c.pc + 2))
unfolding pop_system apply_ifetch_and_step complete_pending finish_access load_value load_long
    retire_step
pop_system-answered c pr_reg instr response trace h n =
    finish_increment (popped c pr_reg instr) pr_reg (field_n instr)
      (record c { t = u64 (c.t + response.stall); pending_mem_op = none; pr = response.value }) refl
      h n
pop_system-answered c sr_reg instr response trace h n =
    finish_increment (popped c sr_reg instr) sr_reg (field_n instr)
      (record c { t = u64 (c.t + response.stall); pending_mem_op = none; sr = response.value }) refl
      h n
pop_system-answered c gbr_reg instr response trace h n =
    finish_increment (popped c gbr_reg instr) gbr_reg (field_n instr)
      (record c { t = u64 (c.t + response.stall); pending_mem_op = none; gbr = response.value })
      refl h n
pop_system-answered c vbr_reg instr response trace h n =
    finish_increment (popped c vbr_reg instr) vbr_reg (field_n instr)
      (record c { t = u64 (c.t + response.stall); pending_mem_op = none; vbr = response.value })
      refl h n
pop_system-answered c mach_reg instr response trace h n =
    finish_increment (popped c mach_reg instr) mach_reg (field_n instr)
      (record c { t = u64 (c.t + response.stall); pending_mem_op = none; mach = response.value })
      refl h n
pop_system-answered c macl_reg instr response trace h n =
    finish_increment (popped c macl_reg instr) macl_reg (field_n instr)
      (record c { t = u64 (c.t + response.stall); pending_mem_op = none; macl = response.value })
      refl h n
