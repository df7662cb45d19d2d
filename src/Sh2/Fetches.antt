-- ===== src/Sh2/Fetches.antt =====
-- Two ways of src/cpu/sh2_core.cpp to an instruction: out of the instruction cache, where `produce_until_bus` looks for
-- a memory access first, and with the answer to a fetch, where `execute_instruction` takes it at once.
use mathlib.Core.List.{Memᴰ}
use saturnis.Base.{
  ℕ, suc, ◌+◌, ◌^◌, ◌<◌, ◌≡◌, ◌∙◌, refl, sym, ap, Bool, true, false, Option, none, some, List, [],
  ◌∷◌, bit_and, ◌==◌, arith, Bool-cases, inl, inr, ==_iff, not, ◌||◌, ◌/◌, length, All, All-mem,
  get_elem?,
}
use saturnis.Base.Bits.{bit_and_mask}
use saturnis.Base.Word.{u32, u64}
use saturnis.Mem.{to_phys, cache_read}
use saturnis.Trace.{TraceLog, illegal_op, add_fault, add_state}
use saturnis.Bus.{BusResponse}
use saturnis.Sh2.{Sh2Core, PendingMemOp, retire_step}
use saturnis.Sh2.Alu.{nop}
use saturnis.Sh2.Rows.{
  Row, row, fits, first_fit, differs_from, first_fit-skip, taken_by, first_fit-taken_by,
}
use saturnis.Sh2.Branches.{execute_instruction-by}
use saturnis.Sh2.Execute.{
  ExecuteOp, execute_rows, execute_instruction, execute_op, execute_op_of, execute_illegal,
  finish_instruction, flag_op, branch_op, bt, bf, bt_s, bf_s, BranchOp,
}
use saturnis.Sh2.Produce.{
  MemAction, Width, byte_width, word_width, memory_rows, begin_access, store_r0, at_rn_high_disp,
  run_ahead, is_uncached,
}
use saturnis.Sh2.Apply.{apply_ifetch_and_step, take_icache_line}

-- A row of the memory accesses with which `execute_instruction` has no row in common.
abbrev pub only_cached : Row MemAction → Bool
only_cached q = differs_from (row q.mask q.value (flag_op nop)) execute_rows

pub execute_op_of-only_cached :
    (q : Row MemAction) (instr : ℕ)
    → instr < 2 ^ 16
    → only_cached q ≡ true
    → fits q instr ≡ true
    → execute_op_of instr ≡ none
unfolding execute_op_of first_fit execute_rows
execute_op_of-only_cached q instr h d f =
    first_fit-skip execute_rows [] (row q.mask q.value (flag_op nop)) instr h d f

execute_instruction-illegal :
    (c : Sh2Core) (instr : ℕ) (trace : TraceLog)
    → execute_op_of instr ≡ none
    → c.pending_branch_target ≡ none
    → execute_instruction c instr trace
      ≡ finish_instruction none
          (execute_illegal instr (record c { pending_branch_target = none }) trace)
unfolding execute_op
execute_instruction-illegal c instr trace e n = execute_instruction-by c instr trace none none n e

take_icache_line-kept :
    (response : BusResponse) (c : Sh2Core) (trace : TraceLog)
    → let d = (take_icache_line response c trace).0 in
      (d.r ≡ c.r)
      × (d.pending_mem_op ≡ c.pending_mem_op)
      × (d.pending_branch_target ≡ c.pending_branch_target)
unfolding take_icache_line
take_icache_line-kept response c trace = elim (Bool-cases (length response.line_data == 0)) [
  | inl e ↦ rw e (refl, refl, refl)
  | inr e ↦
      elim (Bool-cases (
        not (response.line_base == to_phys c.pc / u32 c.icache.line_size)
        || not (length response.line_data == c.icache.line_size))) [
          | inl f ↦ rw (e, f) (refl, refl, refl)
          | inr f ↦ rw (e, f) (refl, refl, refl)
        ]
]

apply_ifetch_and_step-fetch :
    (c : Sh2Core) (response : BusResponse) (trace : TraceLog)
    → c.pending_mem_op ≡ none
    → let taken = take_icache_line response (record c { t = u64 (c.t + response.stall) }) trace in
      apply_ifetch_and_step c response trace
      ≡ execute_instruction taken.0 (bit_and response.value 0xFFFF) taken.1
unfolding apply_ifetch_and_step
apply_ifetch_and_step-fetch c response trace m =
    let clear = λ (o : Option PendingMemOp). record c { pending_mem_op = o } in
    let taken = λ (x : Sh2Core).
      take_icache_line response (record x { t = u64 (x.t + response.stall) }) trace in
    ap (λ (o : Option PendingMemOp). apply_ifetch_and_step (clear o) response trace) m
    ∙ ap
        (λ (o : Option PendingMemOp).
          execute_instruction (taken (clear o)).0 (bit_and response.value 0xFFFF)
            (taken (clear o)).1)
        (sym m)

-- A load or store that comes with the answer to a fetch is not performed: with no access and no branch pending, an
-- instruction word of a memory access that `execute_instruction` has no row for, as MOV.L @Rm,Rn, leaves the
-- registers and begins no access, and the trace gets an ILLEGAL_OP fault with the word, then the state.
pub fetched_access_is_illegal :
    (c : Sh2Core) (q : Row MemAction) (response : BusResponse) (trace : TraceLog)
    → only_cached q ≡ true
    → fits q (bit_and response.value 0xFFFF) ≡ true
    → c.pending_mem_op ≡ none
    → c.pending_branch_target ≡ none
    → let (d, trace') =
        take_icache_line response (record c { t = u64 (c.t + response.stall) }) trace in
      let (last, log) = apply_ifetch_and_step c response trace in
      (last.r ≡ c.r)
      × (last.pending_mem_op ≡ none)
      × (log
          ≡ add_state
              (add_fault trace' (record {
                t = d.t;
                cpu = d.cpu_id;
                pc = d.pc;
                detail = bit_and response.value 0xFFFF;
                reason = illegal_op;
              }))
              (record { t = last.t; cpu = last.cpu_id; pc = last.pc; sr = last.sr; r = last.r }))
unfolding execute_illegal finish_instruction retire_step
fetched_access_is_illegal c q response trace o f m n =
    let waited = record c { t = u64 (c.t + response.stall) } in
    let instr : ℕ = bit_and response.value 0xFFFF in
    let small : instr < 2 ^ 16 = omega (arith, bit_and_mask 16 response.value) in
    let taken = take_icache_line response waited trace in
    let kept = take_icache_line-kept response waited trace in
    let is =
      execute_instruction-illegal taken.0 instr taken.1
        (execute_op_of-only_cached q instr small o f) (kept.2 ∙ n) in
    rw (apply_ifetch_and_step-fetch c response trace m ∙ is) (kept.0, kept.1 ∙ m, refl)

-- Words of conditional branches by their bits 0xFF0F, with the store that `memory_rows` has for them.
pub record Shadowed : Type 0 where
  pub value : ℕ
  pub store : MemAction
  pub branch : BranchOp

abbrev shadowed : ℕ → Width → BranchOp → Shadowed
shadowed value w o = record { value = value; store = store_r0 w at_rn_high_disp; branch = o }

abbrev pub shadowed_branches : List Shadowed
shadowed_branches =
    shadowed 0x8900 byte_width bt
    ∷ shadowed 0x8901 word_width bt
    ∷ shadowed 0x8B00 byte_width bf
    ∷ shadowed 0x8B01 word_width bf
    ∷ shadowed 0x8D00 byte_width bt_s
    ∷ shadowed 0x8D01 word_width bt_s
    ∷ shadowed 0x8F00 byte_width bf_s
    ∷ shadowed 0x8F01 word_width bf_s
    ∷ []

IsShadowed : Shadowed → Type 0
IsShadowed s =
    (instr : ℕ)
    → instr < 2 ^ 16
    → bit_and instr 0xFF0F ≡ s.value
    → (first_fit memory_rows instr ≡ some s.store)
      × (execute_op_of instr ≡ some (branch_op s.branch))

shadowed_lem :
    (s : Shadowed) (p : Row MemAction) (q : Row ExecuteOp) (i j : ℕ)
    → taken_by (row 0xFF0F s.value s.store) memory_rows i ≡ true
    → get_elem? memory_rows i ≡ some p
    → p.action ≡ s.store
    → taken_by (row 0xFF0F s.value (branch_op s.branch)) execute_rows j ≡ true
    → get_elem? execute_rows j ≡ some q
    → q.action ≡ branch_op s.branch
    → IsShadowed s
unfolding IsShadowed execute_op_of
shadowed_lem s p q i j t g a u e b = λ instr h f.
    let fit : (bit_and instr 0xFF0F == s.value) ≡ true =
      (==_iff (bit_and instr 0xFF0F) s.value).1 f in
    (
      first_fit-taken_by memory_rows (row 0xFF0F s.value s.store) p i instr h t g fit ∙ ap some a,
      first_fit-taken_by execute_rows (row 0xFF0F s.value (branch_op s.branch)) q j instr h u e fit
          ∙ ap some b,
    )

byte_store : Row MemAction
byte_store = row 0xF00F 0x8000 (store_r0 byte_width at_rn_high_disp)

word_store : Row MemAction
word_store = row 0xF00F 0x8001 (store_r0 word_width at_rn_high_disp)

shadowed_branches-IsShadowed : All IsShadowed shadowed_branches
unfolding memory_rows execute_rows taken_by byte_store word_store
shadowed_branches-IsShadowed = (
  shadowed_lem (shadowed 0x8900 byte_width bt) byte_store (row 0xFF00 0x8900 (branch_op bt)) 39 43
      refl refl refl refl refl refl,
  (
    shadowed_lem (shadowed 0x8901 word_width bt) word_store (row 0xFF00 0x8900 (branch_op bt)) 37 43
        refl refl refl refl refl refl,
    (
      shadowed_lem (shadowed 0x8B00 byte_width bf) byte_store (row 0xFF00 0x8B00 (branch_op bf)) 39
          44 refl refl refl refl refl refl,
      (
        shadowed_lem (shadowed 0x8B01 word_width bf) word_store (row 0xFF00 0x8B00 (branch_op bf))
            37 44 refl refl refl refl refl refl,
        (
          shadowed_lem (shadowed 0x8D00 byte_width bt_s) byte_store
              (row 0xFF00 0x8D00 (branch_op bt_s)) 39 45 refl refl refl refl refl refl,
          (
            shadowed_lem (shadowed 0x8D01 word_width bt_s) word_store
                (row 0xFF00 0x8D00 (branch_op bt_s)) 37 45 refl refl refl refl refl refl,
            (
              shadowed_lem (shadowed 0x8F00 byte_width bf_s) byte_store
                  (row 0xFF00 0x8F00 (branch_op bf_s)) 39 46 refl refl refl refl refl refl,
              (
                shadowed_lem (shadowed 0x8F01 word_width bf_s) word_store
                    (row 0xFF00 0x8F00 (branch_op bf_s)) 37 46 refl refl refl refl refl refl,
                tt,
              ),
            ),
          ),
        ),
      ),
    ),
  ),
)

-- A conditional branch whose displacement ends in the hexadecimal digit 0 or 1, found in the instruction cache, is
-- an instruction that `execute_instruction` takes for that branch; but the run ahead, with budget left, begins a store
-- of R0 instead, of a byte or of a word, and counts no instruction.
pub cached_branch_is_store :
    (s : Shadowed) (c : Sh2Core) (cached budget seq executed : ℕ) (trace : TraceLog)
    → Memᴰ s shadowed_branches
    → is_uncached c.pc ≡ false
    → cache_read c.icache (to_phys c.pc) 2 ≡ some cached
    → cached < 2 ^ 16
    → bit_and cached 0xFF0F ≡ s.value
    → let p = run_ahead (suc budget) seq c trace executed in
      (execute_op_of cached ≡ some (branch_op s.branch))
      × (p.core ≡ begin_access s.store cached c)
      × (p.result.executed ≡ executed)
unfolding IsShadowed run_ahead
cached_branch_is_store s c cached budget seq executed trace m u r h f =
    let is = All-mem IsShadowed shadowed_branches shadowed_branches-IsShadowed m cached h f in
    let whole : bit_and cached 0xFFFF ≡ cached = omega (arith, bit_and_mask 16 cached) in
    let taken : first_fit memory_rows (bit_and cached 0xFFFF) ≡ some s.store =
      ap (first_fit memory_rows) whole ∙ is.0 in
    (is.1, rw (run_ahead, u, r, taken, whole) refl, rw (run_ahead, u, r, taken) refl)
