-- ===== src/Driver/Threads/Safety.antt =====
-- What holds of `run_scripted_pair_multithread` in src/core/emulator.cpp whatever the order of its threads'
-- steps, for as long as the epoch of the signal does not wrap.
use saturnis.Base.{
  ℕ, ◌+◌, ◌^◌, ◌≤◌, ◌<◌, ◌≡◌, refl, sym, subst, ◌∙◌, ◌⊎◌, inl, inr, true, Option, none, some, List,
  [], ◌∷◌, if◌then◌else◌, arith, length,
}
use saturnis.Bus.{BusArbiter}
use saturnis.Scripted.{PendingBusOp, ScriptedCpu}
use saturnis.Driver.{is_done, is_none}
use saturnis.Driver.Threads.Producer.{
  ScriptResponse, Producer, ProducerPc, top, send_request, send_progress, send_signal, check_done,
  last_progress, set_done, last_signal, stopped, receive, answer_progress, answer_signal, asleep,
}
use saturnis.Driver.Threads.Main.{MainPc, finished, Threads, new_threads}
use saturnis.Driver.Threads.Steps.{Reach}
use saturnis.Driver.Threads.Invariant.{
  Answers, Nowhere, Place, posted, held, answered, Flying, Phase, raised, MainAt,
}
use saturnis.Driver.Threads.Sounds.{Phase-cases}
use saturnis.Driver.Threads.Reachable.{Reach-IsSafe}

-- How many messages of a CPU are under way: in its mailbox of requests, held by the main thread, and in its
-- mailbox of responses.
abbrev pub under_way : Producer → Option PendingBusOp → ℕ
under_way s p = length s.req + (if is_none p then 0 else 1) + length s.resp

-- The front of a CPU's mailbox of responses is for the request that the CPU waits with.
abbrev pub OwnResponse : Producer → Type 0
OwnResponse s =
    (r : ScriptResponse) (rest : List ScriptResponse)
    → s.resp ≡ r ∷ rest
    → (w : PendingBusOp) × (s.waiting ≡ some w) × Answers w r

under_way-Place :
    (w : PendingBusOp) (s : Producer) (p : Option PendingBusOp) → Place w s p → under_way s p ≡ 1
under_way-Place w s p (posted a b c) = rw (a, b, c) refl
under_way-Place w s p (held a b c) = rw (a, b, c) refl
under_way-Place w s p (answered r own a b c) = rw (a, b, c) refl

under_way-le :
    (pc : ProducerPc) (s : Producer) (p : Option PendingBusOp) → Phase pc s p → under_way s p ≤ 1
under_way-le pc s p phase = go (Phase-cases pc s p phase)
  where
    go : Nowhere s p ⊎ ((w : PendingBusOp) × Place w s p) → under_way s p ≤ 1
    go (inl (a, b, c)) = rw (a, b, c) (omega arith)
    go (inr (w, place)) = omega (arith, under_way-Place w s p place)

OwnResponse-Flying : (s : Producer) (p : Option PendingBusOp) → Flying s p → OwnResponse s
OwnResponse-Flying s p (w, e, posted a b c) r rest h = absurd (cc)
OwnResponse-Flying s p (w, e, held a b c) r rest h = absurd (cc)
OwnResponse-Flying s p (w, e, answered x own a b c) r rest h =
    let same : x ∷ [] ≡ r ∷ rest = sym c ∙ h in
    (w, e, subst (λ (y : ScriptResponse). Answers w y) (ground arith) own)

-- The invariant of one CPU's thread shows both.
OwnResponse-Phase :
    (pc : ProducerPc) (s : Producer) (p : Option PendingBusOp) → Phase pc s p → OwnResponse s
OwnResponse-Phase top s p (inl (e, (a, b, c))) r rest h = absurd (cc)
OwnResponse-Phase top s p (inr f) r rest h = OwnResponse-Flying s p f r rest h
OwnResponse-Phase send_request s p (w, e, (a, b, c)) r rest h = absurd (cc)
OwnResponse-Phase send_progress s p f r rest h = OwnResponse-Flying s p f r rest h
OwnResponse-Phase send_signal s p f r rest h = OwnResponse-Flying s p f r rest h
OwnResponse-Phase check_done s p (inl ((e, (a, b, c)), o)) r rest h = absurd (cc)
OwnResponse-Phase check_done s p (inr f) r rest h = OwnResponse-Flying s p f r rest h
OwnResponse-Phase last_progress s p ((e, (a, b, c)), o) r rest h = absurd (cc)
OwnResponse-Phase set_done s p ((e, (a, b, c)), o) r rest h = absurd (cc)
OwnResponse-Phase last_signal s p ((e, (a, b, c)), o) r rest h = absurd (cc)
OwnResponse-Phase stopped s p ((e, (a, b, c)), o) r rest h = absurd (cc)
OwnResponse-Phase receive s p f r rest h = OwnResponse-Flying s p f r rest h
OwnResponse-Phase answer_progress s p (w, e, (a, b, c)) r rest h = absurd (cc)
OwnResponse-Phase answer_signal s p (e, (a, b, c)) r rest h = absurd (cc)
OwnResponse-Phase asleep s p f r rest h = OwnResponse-Flying s p f r rest h

-- Whatever the order of fewer than 2^64 steps of the threads, at most one message of each CPU is under way, and
-- a response in its mailbox is for the request, by script index and token, that the CPU waits with.
pub one_request :
    (cpu0 cpu1 : ScriptedCpu) (a : BusArbiter) (n : ℕ) (t : Threads)
    → Reach (new_threads cpu0 cpu1 a) n t
    → n < 2 ^ 64
    → (under_way t.producer0 t.main.p0 ≤ 1)
      × (under_way t.producer1 t.main.p1 ≤ 1)
      × OwnResponse t.producer0
      × OwnResponse t.producer1
one_request cpu0 cpu1 a n t r room =
    let (safe, low) = Reach-IsSafe cpu0 cpu1 a r room in
    (
      under_way-le t.producer0.pc t.producer0 t.main.p0 safe.sound0.phase,
      under_way-le t.producer1.pc t.producer1 t.main.p1 safe.sound1.phase,
      OwnResponse-Phase t.producer0.pc t.producer0 t.main.p0 safe.sound0.phase,
      OwnResponse-Phase t.producer1.pc t.producer1 t.main.p1 safe.sound1.phase,
    )

-- The CPU is at the end of its script, and waits for nothing.
abbrev pub IsServed : Producer → Option PendingBusOp → Type 0
IsServed s p = (s.waiting ≡ none) × (is_done s.cpu ≡ true) × (under_way s p ≡ 0)

raised-IsServed :
    (pc : ProducerPc) (s : Producer) (p : Option PendingBusOp)
    → raised pc ≡ true
    → Phase pc s p
    → IsServed s p
raised-IsServed last_signal s p h ((e, (a, b, c)), o) = (e, o, rw (a, b, c) refl)
raised-IsServed stopped s p h ((e, (a, b, c)), o) = (e, o, rw (a, b, c) refl)
raised-IsServed _ s p h phase = cc

-- Whatever the order of fewer than 2^64 steps of the threads, when the main thread has left its loop, both CPUs
-- are at the end of their scripts, wait for nothing, and no request or response of theirs is under way.
pub finished-IsServed :
    (cpu0 cpu1 : ScriptedCpu) (a : BusArbiter) (n : ℕ) (t : Threads)
    → Reach (new_threads cpu0 cpu1 a) n t
    → n < 2 ^ 64
    → t.main.pc ≡ finished
    → IsServed t.producer0 t.main.p0 × IsServed t.producer1 t.main.p1
finished-IsServed cpu0 cpu1 a n t r room e =
    let (safe, low) = Reach-IsSafe cpu0 cpu1 a r room in
    let (none0, none1, over0, over1) = subst (λ (pc : MainPc). MainAt pc t) e safe.main_at in
    (
      raised-IsServed t.producer0.pc t.producer0 t.main.p0 (sym safe.sound0.flag ∙ over0)
          safe.sound0.phase,
      raised-IsServed t.producer1.pc t.producer1 t.main.p1 (sym safe.sound1.flag ∙ over1)
          safe.sound1.phase,
    )
