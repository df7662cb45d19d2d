-- ===== src/Driver/Threads/Batches.antt =====
-- What the main thread of `run_scripted_pair_multithread` in src/core/emulator.cpp hands out: the results of a
-- batch of at most one request for each CPU.
use saturnis.Base.{
  ℕ, zero, suc, ◌≡◌, refl, sym, ◌∙◌, ◌⊎◌, inl, inr, Bool, true, false, Option, none, some, List, [],
  ◌∷◌, ◌++◌, ◌==◌, get_or, get_elem?, All, All-map, length,
}
use saturnis.Bus.{CommitResult}
use saturnis.Bus.Op.{BusOp}
use saturnis.Bus.Distinct.{Differs, AllDistinct}
use saturnis.Scripted.{PendingBusOp}
use saturnis.Driver.{ops_of, pending_cpu}
use saturnis.Driver.Threads.Main.{Main, scripts_of, tokens_of, answer_of}
use saturnis.Driver.Threads.Invariant.{Answers, ForHeld}

abbrev Inside : List BusOp → CommitResult → Type 0
Inside ops r = get_elem? ops r.input_index ≡ some r.op

-- The tables that the main thread has made from what was held then.
pub record IsTabled (m : Main) (p0 p1 : Option PendingBusOp) : Type 0 where
  pub by_cpu : m.pending_cpu ≡ pending_cpu p0 p1
  pub by_script : m.pending_script ≡ scripts_of p0 ++ scripts_of p1
  pub by_token : m.pending_token ≡ tokens_of p0 ++ tokens_of p1

-- The result is for what is held of CPU 0, or of CPU 1.
record IsOf0 (m : Main) (p0 : Option PendingBusOp) (r : CommitResult) : Type 0 where
  request : PendingBusOp
  holds : p0 ≡ some request
  index : r.input_index ≡ 0
  cpu : (get_or m.pending_cpu r.input_index 1 == 0) ≡ true
  answers : Answers request (answer_of m r)

record IsOf1 (m : Main) (p0 p1 : Option PendingBusOp) (r : CommitResult) : Type 0 where
  request : PendingBusOp
  holds : p1 ≡ some request
  index : r.input_index ≡ length (ops_of p0)
  cpu : (get_or m.pending_cpu r.input_index 1 == 0) ≡ false
  answers : Answers request (answer_of m r)

-- The entries of the tables under a result's index, if they are those of a request.
entries :
    (m : Main) (p0 p1 : Option PendingBusOp) (r : CommitResult)
    → IsTabled m p0 p1
    → (i : ℕ) → r.input_index ≡ i
    → (b : Bool) (w : PendingBusOp) → (get_or (pending_cpu p0 p1) i 1 == 0) ≡ b
    → get_or (scripts_of p0 ++ scripts_of p1) i 0 ≡ w.script_index
    → get_or (tokens_of p0 ++ tokens_of p1) i 0 ≡ w.op.producer_token
    → ((get_or m.pending_cpu r.input_index 1 == 0) ≡ b) × Answers w (answer_of m r)
entries m p0 p1 r tables i e b w c s k = (
  (λ j. get_or (tables.by_cpu j) (e j) 1 == 0) ∙ c,
  record {
    same_script = (λ j. get_or (tables.by_script j) (e j) 0) ∙ s;
    same_token = (λ j. get_or (tables.by_token j) (e j) 0) ∙ k;
  },
)

of0 :
    (m : Main) (w : PendingBusOp) (r : CommitResult)
    → r.input_index ≡ 0
    → ((get_or m.pending_cpu r.input_index 1 == 0) ≡ true) × Answers w (answer_of m r)
    → IsOf0 m (some w) r
of0 m w r e found = record {
  request = w;
  holds = refl;
  index = e;
  cpu = found.0;
  answers = found.1;
}

of1 :
    (m : Main) (p0 : Option PendingBusOp) (w : PendingBusOp) (r : CommitResult)
    → r.input_index ≡ length (ops_of p0)
    → ((get_or m.pending_cpu r.input_index 1 == 0) ≡ false) × Answers w (answer_of m r)
    → IsOf1 m p0 (some w) r
of1 m p0 w r e found = record {
  request = w;
  holds = refl;
  index = e;
  cpu = found.0;
  answers = found.1;
}

row :
    (m : Main) (p0 p1 : Option PendingBusOp) (r : CommitResult)
    → IsTabled m p0 p1
    → (i : ℕ) → r.input_index ≡ i
    → get_elem? (ops_of p0 ++ ops_of p1) i ≡ some r.op
    → IsOf0 m p0 r ⊎ IsOf1 m p0 p1 r
row m none none r tables i e inside = absurd (cc)
row m (some w) none r tables zero e inside =
    inl (of0 m w r e (entries m (some w) none r tables 0 e true w refl refl refl))
row m (some w) (some v) r tables zero e inside =
    inl (of0 m w r e (entries m (some w) (some v) r tables 0 e true w refl refl refl))
row m none (some w) r tables zero e inside =
    inr (of1 m none w r e (entries m none (some w) r tables 0 e false w refl refl refl))
row m (some v) none r tables (suc i) e inside = absurd (cc)
row m none (some v) r tables (suc i) e inside = absurd (cc)
row m (some v) (some w) r tables (suc zero) e inside =
    inr (of1 m (some v) w r e (entries m (some v) (some w) r tables 1 e false w refl refl refl))
row m (some v) (some w) r tables (suc (suc i)) e inside = absurd (cc)

-- What is left to hand out is for what is still held, `q0` and `q1`.
abbrev Still :
    Main
    → Option PendingBusOp
    → Option PendingBusOp
    → Option PendingBusOp
    → Option PendingBusOp
    → CommitResult
    → Type 0
Still m p0 p1 q0 q1 r = (IsOf0 m p0 r × (q0 ≡ p0)) ⊎ (IsOf1 m p0 p1 r × (q1 ≡ p1))

ForHeld-Still :
    (m : Main) (p0 p1 q0 q1 : Option PendingBusOp) (results : List CommitResult)
    → All (Still m p0 p1 q0 q1) results
    → AllDistinct results
    → ForHeld m q0 q1 results
ForHeld-Still m p0 p1 q0 q1 [] still d = tt
ForHeld-Still m p0 p1 q0 q1 (r ∷ rest) (inl (o, e), still) d = inl (
  o.cpu,
  o.request,
  e ∙ o.holds,
  o.answers,
  ForHeld-Still m p0 p1 none q1 rest (only1 rest d.0 still) d.1,
)
  where
    other : (q : CommitResult) → Differs r q → Still m p0 p1 q0 q1 q → Still m p0 p1 none q1 q
    other q differs (inl (s, h)) = absurd (differs (s.index ∙ sym o.index))
    other q differs (inr s) = inr s

    only1 :
        (qs : List CommitResult)
        → All (Differs r) qs
        → All (Still m p0 p1 q0 q1) qs
        → All (Still m p0 p1 none q1) qs
    only1 [] differs still = tt
    only1 (q ∷ qs) differs still = (other q differs.0 still.0, only1 qs differs.1 still.1)
ForHeld-Still m p0 p1 q0 q1 (r ∷ rest) (inr (o, e), still) d = inr (
  o.cpu,
  o.request,
  e ∙ o.holds,
  o.answers,
  ForHeld-Still m p0 p1 q0 none rest (only0 rest d.0 still) d.1,
)
  where
    other : (q : CommitResult) → Differs r q → Still m p0 p1 q0 q1 q → Still m p0 p1 q0 none q
    other q differs (inl s) = inl s
    other q differs (inr (s, h)) = absurd (differs (s.index ∙ sym o.index))

    only0 :
        (qs : List CommitResult)
        → All (Differs r) qs
        → All (Still m p0 p1 q0 q1) qs
        → All (Still m p0 p1 q0 none) qs
    only0 [] differs still = tt
    only0 (q ∷ qs) differs still = (other q differs.0 still.0, only0 qs differs.1 still.1)

-- The results of a batch, against what is held.
pub ForHeld-batch :
    (m : Main) (p0 p1 : Option PendingBusOp) (results : List CommitResult)
    → IsTabled m p0 p1
    → All (Inside (ops_of p0 ++ ops_of p1)) results
    → AllDistinct results
    → ForHeld m p0 p1 results
ForHeld-batch m p0 p1 results tables inside = ForHeld-Still m p0 p1 p0 p1 results (
    All-map (Inside (ops_of p0 ++ ops_of p1)) (Still m p0 p1 p0 p1)
      (λ r i. still r (row m p0 p1 r tables r.input_index refl i)) results inside)
  where
    still : (r : CommitResult) → IsOf0 m p0 r ⊎ IsOf1 m p0 p1 r → Still m p0 p1 p0 p1 r
    still r (inl o) = inl (o, refl)
    still r (inr o) = inr (o, refl)
