-- ===== src/Sh2/Returns.antt =====
-- An exception of src/cpu/sh2_core.cpp and the RTE that ends its handler.
use saturnis.Base.{
  ℕ, ◌+◌, ◌*◌, ◌^◌, ◌<◌, ◌≡◌, ◌∙◌, refl, sym, ap, subst, Bool, true, false, ◌&&◌, ◌==◌, Option,
  none, some, List, [], ◌∷◌, map, arith, length, if◌then◌else◌, Bool-cases, inl, inr,
}
use saturnis.Base.Bits.{bit_and_mask}
use saturnis.Base.Word.{u32}
use saturnis.Mem.{to_phys, is_mmio}
use saturnis.Trace.{TraceLog}
use saturnis.Bus.{BusResponse}
use saturnis.Bus.Op.{BusKind, write, mmio_write, BusOp}
use saturnis.Sh2.{Sh2Core, request_exception_vector, reg, u32_add, u32_sub}
use saturnis.Sh2.Slots.{execute_instruction-delay_slot}
use saturnis.Sh2.Exceptions.{
  serve, access, long_write, pushed, pushed_twice, long_read, returning,
  serve-request_exception_vector, serve-rte, execute_instruction-restores,
}
use saturnis.Sh2.Execute.{execute_instruction}
use saturnis.Sh2.Produce.{data_access_kind}

-- The operations of the entry into an exception.
abbrev pub entry_ops :
    Sh2Core → ℕ → ℕ → TraceLog → BusResponse → BusResponse → BusResponse → List BusOp
entry_ops c vector seq trace r1 r2 r3 =
    (serve (r1 ∷ r2 ∷ r3 ∷ []) seq (request_exception_vector c vector) trace).0

unfoldable pub is_store : BusKind → Bool
is_store write = true
is_store mmio_write = true
is_store _ = false

-- What the last of some accesses that wrote to an address wrote there.
unfoldable pub written : ℕ → List (BusKind × (ℕ × ℕ)) → Option ℕ
written addr [] = none
written addr ((kind, (at, stored)) ∷ rest) =
    let later = written addr rest in
    elim later [
      | some word ↦ some word
      | none ↦ if is_store kind && at == addr then some stored else none
    ]

-- The accesses are answered with what the earlier ones wrote last at their addresses.
abbrev pub AreAnswered :
    List (BusKind × (ℕ × ℕ)) → List (BusKind × (ℕ × ℕ)) → List BusResponse → Type 0
AreAnswered earlier [] responses = Unit {0}
AreAnswered earlier (x ∷ accesses) [] = ⊥
AreAnswered earlier ((kind, (at, stored)) ∷ accesses) (r ∷ responses) =
    (written at earlier ≡ some r.value) × AreAnswered earlier accesses responses

-- The core and the trace after the entry into an exception.
abbrev pub entered :
    Sh2Core → ℕ → ℕ → TraceLog → BusResponse → BusResponse → BusResponse → Sh2Core × TraceLog
entered c vector seq trace r1 r2 r3 =
    (serve (r1 ∷ r2 ∷ r3 ∷ []) seq (request_exception_vector c vector) trace).1

-- The operations of a return, and the core and the trace before the instruction in RTE's slot.
abbrev pub returned :
    Sh2Core → ℕ → TraceLog → BusResponse → BusResponse → List BusOp × (Sh2Core × TraceLog)
returned d seq trace q1 q2 = serve (q1 ∷ q2 ∷ []) seq (returning d trace).0 (returning d trace).1

pub u32_add-u32_sub : (x k : ℕ) → x < 2 ^ 32 → k < 2 ^ 32 → u32_add (u32_sub x k) k ≡ x
unfolding u32_add u32_sub
u32_add-u32_sub x k h l = omega arith

u32_sub-lt : (x k : ℕ) → u32_sub x k < 2 ^ 32
unfolding u32_sub
u32_sub-lt x k = omega arith

data_access_kind-is_store :
    (addr : ℕ)
    → (is_store (data_access_kind addr true) ≡ true)
      × (is_store (data_access_kind addr false) ≡ false)
unfolding data_access_kind is_store
data_access_kind-is_store addr = elim (Bool-cases (is_mmio addr)) [
  | inl device ↦ rw device (refl, refl)
  | inr ram ↦ rw ram (refl, refl)
]

to_phys-pushed : (x : ℕ) → (to_phys (u32_sub x 4) == to_phys x) ≡ false
unfolding to_phys u32_sub
to_phys-pushed x = ground (arith, bit_and_mask 29 (u32_sub x 4), bit_and_mask 29 x)

-- The accesses of an entry.
abbrev pushes : Sh2Core → ℕ → List (BusKind × (ℕ × ℕ))
pushes c vector =
    long_write (pushed c) c.sr
    ∷ long_write (pushed_twice c) c.pc
    ∷ long_read (u32 (c.vbr + vector * 4))
    ∷ []

-- Two writes and a read.
written-writes :
    (first second third : BusKind) (at above at3 x y z : ℕ)
    → is_store first ≡ true
    → is_store second ≡ true
    → is_store third ≡ false
    → (at == above) ≡ false
    → let accesses : List (BusKind × (ℕ × ℕ)) =
        (first, (above, x)) ∷ (second, (at, y)) ∷ (third, (at3, z)) ∷ [] in
      (written at accesses ≡ some y) × (written above accesses ≡ some x)
unfolding written
written-writes first second third at above at3 x y z f g h apart = ground (arith, f, g, h, apart)

written-pushes :
    (c : Sh2Core) (vector : ℕ)
    → (written (to_phys (pushed_twice c)) (pushes c vector) ≡ some c.pc)
      × (written (to_phys (pushed c)) (pushes c vector) ≡ some c.sr)
written-pushes c vector =
    let top = to_phys (pushed c) in
    let below = to_phys (pushed_twice c) in
    let entry = to_phys (u32 (c.vbr + vector * 4)) in
    written-writes (data_access_kind top true) (data_access_kind below true)
      (data_access_kind entry false) below top entry c.sr c.pc 0 (data_access_kind-is_store top).0
      (data_access_kind-is_store below).0 (data_access_kind-is_store entry).1
      (to_phys-pushed (pushed c))

value_of :
    (q : BusResponse) (word : ℕ) (o : Option ℕ) → o ≡ some word → o ≡ some q.value → q.value ≡ word
value_of q word o e f = ap (λ (x : Option ℕ). elim x [ none ↦ word | some w ↦ w ]) (sym f ∙ e)

-- An exception and the return from it. The entry pushes SR and then the program counter, and reads its vector. A
-- handler that ends with the stack pointer with which it was entered, with nothing pending and able to return, then
-- reads two longs with RTE. If the bus answers these two reads with what the entry's operations wrote last at their
-- addresses, then after the instruction in the slot, whichever it is, the core is at the old program counter with
-- the old SR, and the stack pointer before that instruction is the old one.
pub rte-request_exception_vector :
    (c d : Sh2Core) (vector seq seq' slot : ℕ) (trace trace' : TraceLog)
    (r1 r2 r3 q1 q2 : BusResponse)
    → length c.r ≡ 16
    → reg c 15 < 2 ^ 32
    → length d.r ≡ 16
    → reg d 15 ≡ reg (entered c vector seq trace r1 r2 r3).0 15
    → d.has_exception_return_context ≡ true
    → d.pending_branch_target ≡ none
    → d.pending_exception_vector ≡ none
    → AreAnswered
        (map access (entry_ops c vector seq trace r1 r2 r3))
        (map access (returned d seq' trace' q1 q2).0)
        (q1 ∷ q2 ∷ [])
    → let back = returned d seq' trace' q1 q2 in
      let last = (execute_instruction back.1.0 slot back.1.1).0 in
      (map access (entry_ops c vector seq trace r1 r2 r3)
        ≡ long_write (pushed c) c.sr
          ∷ long_write (pushed_twice c) c.pc
          ∷ long_read (u32 (c.vbr + vector * 4))
          ∷ [])
      × (map access back.0 ≡ long_read (pushed_twice c) ∷ long_read (pushed c) ∷ [])
      × (reg back.1.0 15 ≡ reg c 15)
      × (last.pc ≡ c.pc)
      × (last.sr ≡ c.sr)
rte-request_exception_vector c d vector seq seq' slot trace trace' r1 r2 r3 q1 q2 h w l sp k n v
      answers =
    let e = serve-request_exception_vector c vector seq trace r1 r2 r3 h in
    let back = returned d seq' trace' q1 q2 in
    let b = serve-rte d seq' trace' q1 q2 l k n v in
    let at_entry : reg d 15 ≡ pushed_twice c = sp ∙ e.3 in
    let up_once : u32_add (reg d 15) 4 ≡ pushed c =
      ap (λ x. u32_add x 4) at_entry
      ∙ u32_add-u32_sub (pushed c) 4 (u32_sub-lt (reg c 15) 4) (omega arith) in
    let up_twice : u32_add (u32_add (reg d 15) 4) 4 ≡ reg c 15 =
      ap (λ x. u32_add x 4) up_once ∙ u32_add-u32_sub (reg c 15) 4 w (omega arith) in
    let reads : map access back.0 ≡ long_read (pushed_twice c) ∷ long_read (pushed c) ∷ [] =
      b.0
      ∙ ap (λ x. long_read x ∷ long_read (u32_add (reg d 15) 4) ∷ []) at_entry
      ∙ ap (λ x. long_read (pushed_twice c) ∷ long_read x ∷ []) up_once in
    let stored = written-pushes c vector in
    let read : AreAnswered (pushes c vector)
        (long_read (pushed_twice c) ∷ long_read (pushed c) ∷ []) (q1 ∷ q2 ∷ []) =
      subst (λ xs. AreAnswered (pushes c vector) xs (q1 ∷ q2 ∷ [])) reads
        (subst (λ xs. AreAnswered xs (map access back.0) (q1 ∷ q2 ∷ [])) e.0 answers) in
    let target = b.2 in
    (
      e.0,
      reads,
      b.1 ∙ up_twice,
      (execute_instruction-delay_slot back.1.0 slot back.1.1 q1.value target).0
          ∙ value_of q1 c.pc _ stored.0 read.0,
      (execute_instruction-restores back.1.0 slot back.1.1 q1.value target b.4).0
          ∙ b.3
          ∙ value_of q2 c.sr _ stored.1 read.1.0,
    )

-- The entry leaves a branch pending that was pending: the first instruction of the handler, whichever it is,
-- is then taken for the slot of that branch and ends at the branch's target, outside the handler.
pub request_exception_vector-slot :
    (c : Sh2Core) (vector seq instr target : ℕ) (trace : TraceLog) (r1 r2 r3 : BusResponse)
    → length c.r ≡ 16
    → c.pending_branch_target ≡ some target
    → let (handler, trace') = entered c vector seq trace r1 r2 r3 in
      (handler.pc ≡ r3.value) × ((execute_instruction handler instr trace').0.pc ≡ target)
request_exception_vector-slot c vector seq instr target trace r1 r2 r3 h b =
    let e = serve-request_exception_vector c vector seq trace r1 r2 r3 h in
    let s = entered c vector seq trace r1 r2 r3 in
    (e.1, (execute_instruction-delay_slot s.0 instr s.1 target (e.4 ∙ b)).0)
