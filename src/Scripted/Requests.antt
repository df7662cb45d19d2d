-- ===== src/Scripted/Requests.antt =====
-- What `produce` of src/cpu/scripted_cpu.cpp hands to the bus, and when it stops.
use saturnis.Base.{
  ℕ, zero, suc, ◌+◌, ◌≤◌, ◌≡◌, refl, Option, none, some, List, [], ◌∷◌, arith, length, get_elem?,
  ap, ◌∙◌,
}
use saturnis.Base.Word.{u64}
use saturnis.Mem.{forward, to_phys, cache_read}
use saturnis.Bus.Commits.{if_holds}
use saturnis.Bus.Op.{auto}
use saturnis.Scripted.{
  ScriptOpKind, script_read, script_write, script_compute, script_barrier, ScriptOp, PendingBusOp,
  ScriptedCpu, is_uncached, finish_read, produce_write, produce_read, execute_op, produce_loop,
  produce,
}

-- What a request says of the CPU that issued it, before (`c`) and behind it (`d`).
pub record IsRequest (c d : ScriptedCpu) (p : PendingBusOp) : Type 0 where
  pub from_cpu : p.op.cpu_id ≡ c.cpu_id
  pub by_cpu : p.op.producer ≡ auto
  pub at_time : p.op.req_time ≡ d.local_time
  pub in_turn : p.op.sequence ≡ c.sequence
  pub next_turn : d.sequence ≡ u64 (c.sequence + 1)
  pub advanced : d.pc ≡ p.script_index + 1
  pub not_before : c.pc ≤ p.script_index

-- What a loop that ends in `d` shows: a request, or the end of the script.
abbrev pub Outcome : ScriptedCpu → ScriptedCpu × Option PendingBusOp → Type 0
Outcome c (d, none) = (d.script ≡ c.script) × (length c.script ≤ d.pc) × (d.sequence ≡ c.sequence)
Outcome c (d, some p) = (d.script ≡ c.script) × IsRequest c d p

-- The same for one turn, which goes on one instruction further.
abbrev TurnOutcome : ScriptedCpu → ScriptedCpu × Option PendingBusOp → Type 0
TurnOutcome c (d, none) =
    (d.script ≡ c.script) × (d.pc ≡ c.pc + 1) × (d.sequence ≡ c.sequence) × (d.cpu_id ≡ c.cpu_id)
TurnOutcome c (d, some p) = (d.script ≡ c.script) × IsRequest c d p

produce_read-TurnOutcome : (c : ScriptedCpu) (ins : ScriptOp) → TurnOutcome c (produce_read c ins)
unfolding produce_read
produce_read-TurnOutcome c ins = (
  refl,
  record {
    from_cpu = ground arith;
    by_cpu = ground arith;
    at_time = ground arith;
    in_turn = ground arith;
    next_turn = refl;
    advanced = refl;
    not_before = omega arith;
  },
)

cached_read-TurnOutcome :
    (c : ScriptedCpu) (ins : ScriptOp) (forwarded cached : Option ℕ)
    → TurnOutcome c (elim forwarded as (λ x. ScriptedCpu × Option PendingBusOp) [
      | some v ↦ finish_read c v
      | none ↦ elim cached as (λ x. ScriptedCpu × Option PendingBusOp) [
        | some v ↦ finish_read c v
        | none ↦ produce_read c ins
      ]
    ])
cached_read-TurnOutcome c ins (some v) cached = (refl, refl, refl, refl)
cached_read-TurnOutcome c ins none (some v) = (refl, refl, refl, refl)
cached_read-TurnOutcome c ins none none = produce_read-TurnOutcome c ins

execute_op-TurnOutcome : (c : ScriptedCpu) (ins : ScriptOp) → TurnOutcome c (execute_op c ins)
unfolding execute_op produce_write produce_read
execute_op-TurnOutcome c ins = go ins.kind refl
  where
    go : (k : ScriptOpKind) → ins.kind ≡ k → TurnOutcome c (execute_op c (record ins { kind = k }))
    go script_compute e = (refl, refl, refl, refl)
    go script_barrier e = (
      refl,
      record {
        from_cpu = refl;
        by_cpu = refl;
        at_time = refl;
        in_turn = refl;
        next_turn = refl;
        advanced = refl;
        not_before = omega arith;
      },
    )
    go script_write e = (
      refl,
      record {
        from_cpu = refl;
        by_cpu = refl;
        at_time = refl;
        in_turn = refl;
        next_turn = refl;
        advanced = refl;
        not_before = omega arith;
      },
    )
    go script_read e =
        if_holds (TurnOutcome c) (is_uncached ins.vaddr) (produce_read-TurnOutcome c ins) (
          cached_read-TurnOutcome c ins (forward c.store_buffer (to_phys ins.vaddr) ins.size)
            (cache_read c.cache (to_phys ins.vaddr) ins.size))

get_elem?-none : (xs : List ScriptOp) (i : ℕ) → get_elem? xs i ≡ none → length xs ≤ i
get_elem?-none [] i h = omega arith
get_elem?-none (x ∷ xs) zero h = absurd (cc)
get_elem?-none (x ∷ xs) (suc i) h = omega (arith, get_elem?-none xs i h)

-- A turn that goes on, and then the rest of the loop.
go_on :
    (c d : ScriptedCpu) (r : ScriptedCpu × Option PendingBusOp)
    → TurnOutcome c (d, none)
    → Outcome d r
    → Outcome c r
go_on c d (e, none) t o = (o.0 ∙ t.0, ground (arith, o, t.0), o.2 ∙ t.2)
go_on c d (e, some p) t o =
    let q = o.1 in
    (
      o.0 ∙ t.0,
      record {
        from_cpu = q.from_cpu ∙ t.3;
        by_cpu = q.by_cpu;
        at_time = q.at_time;
        in_turn = q.in_turn ∙ t.2;
        next_turn = q.next_turn ∙ ap (λ (n : ℕ). u64 (n + 1)) t.2;
        advanced = q.advanced;
        not_before = omega (arith, q.not_before, t.1);
      },
    )

produce_loop-Outcome :
    (n : ℕ) (c : ScriptedCpu) → length c.script ≤ c.pc + n → Outcome c (produce_loop n c)
unfolding produce_loop
produce_loop-Outcome zero c h = (refl, omega arith, refl)
produce_loop-Outcome (suc n) c h = fetched (get_elem? c.script c.pc) refl (produce_loop-Outcome n)
  where
    turned :
        (r : ScriptedCpu × Option PendingBusOp)
        → TurnOutcome c r
        → ((d : ScriptedCpu) → length d.script ≤ d.pc + n → Outcome d (produce_loop n d))
        → Outcome c (elim r.1 as (λ x. ScriptedCpu × Option PendingBusOp) [
          | none ↦ produce_loop n r.0
          | some p ↦ (r.0, some p)
        ])
    turned (d, none) t rec =
        go_on c d (produce_loop n d) t
          (rec d (omega (arith, ap (λ (x : List ScriptOp). length x) t.0, t.1)))
    turned (d, some p) t rec = t

    fetched :
        (fetch : Option ScriptOp)
        → get_elem? c.script c.pc ≡ fetch
        → ((d : ScriptedCpu) → length d.script ≤ d.pc + n → Outcome d (produce_loop n d))
        → Outcome c (elim fetch as (λ x. ScriptedCpu × Option PendingBusOp) [
          | none ↦ (c, none)
          | some ins ↦ elim (execute_op c ins).1 as (λ x. ScriptedCpu × Option PendingBusOp) [
            | none ↦ produce_loop n (execute_op c ins).0
            | some p ↦ ((execute_op c ins).0, some p)
          ]
        ])
    fetched none e rec = (refl, get_elem?-none c.script c.pc e, refl)
    fetched (some ins) e rec = turned (execute_op c ins) (execute_op-TurnOutcome c ins) rec

-- `produce` always comes to an end: with a request that carries the CPU's number, its clock as the request
-- time and its next sequence number, with `pc` right behind the instruction of the request; or with
-- nothing to ask for, and then only at the end of the script and without using up a sequence number.
pub produce-Outcome : (c : ScriptedCpu) → Outcome c (produce c)
unfolding produce
produce-Outcome c = produce_loop-Outcome (length c.script) c (omega arith)
