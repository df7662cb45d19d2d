-- ===== src/Driver/Threads/Invariant.antt =====
-- The invariant of `run_scripted_pair_multithread` in src/core/emulator.cpp: where a CPU's request stands, and
-- which thread still has a signal to come.
use saturnis.Base.{
  ℕ, ◌≤◌, ◌<◌, ◌≡◌, ◌⊎◌, Bool, true, false, Option, none, some, List, [], ◌∷◌, ◌==◌, ◌++◌, get_or,
}
use saturnis.Bus.{CommitResult}
use saturnis.Scripted.{PendingBusOp}
use saturnis.Driver.{is_done, pending_cpu}
use saturnis.Driver.Threads.Producer.{
  ScriptResponse, Producer, ProducerPc, top, send_request, send_progress, send_signal, check_done,
  last_progress, set_done, last_signal, stopped, receive, answer_progress, answer_signal, asleep,
}
use saturnis.Driver.Threads.Main.{
  MainPc, take0, take1, drain0, drain1, check_peer, commit_ops, hand_out, announce, check0, check1,
  dormant, finished, Main, Threads, scripts_of, tokens_of, answer_of,
}

-- The response is that to the request.
pub record Answers (w : PendingBusOp) (r : ScriptResponse) : Type 0 where
  pub same_script : r.script_index ≡ w.script_index
  pub same_token : r.producer_token ≡ w.op.producer_token

-- Nothing of the CPU is under way; `p` is what the main thread holds of it.
abbrev pub Nowhere : Producer → Option PendingBusOp → Type 0
Nowhere s p = (s.req ≡ []) × (p ≡ none) × (s.resp ≡ [])

-- One request is under way, in one place.
pub data Place (w : PendingBusOp) (s : Producer) (p : Option PendingBusOp) : Type 0 where
  posted : s.req ≡ w ∷ [] → p ≡ none → s.resp ≡ [] → Place w s p
  held : s.req ≡ [] → p ≡ some w → s.resp ≡ [] → Place w s p
  answered :
      (r : ScriptResponse) → Answers w r → s.req ≡ [] → p ≡ none → s.resp ≡ r ∷ [] → Place w s p

abbrev pub Rested : Producer → Option PendingBusOp → Type 0
Rested s p = (s.waiting ≡ none) × Nowhere s p

abbrev pub Flying : Producer → Option PendingBusOp → Type 0
Flying s p = (w : PendingBusOp) × (s.waiting ≡ some w) × Place w s p

abbrev pub Ready : Producer → Option PendingBusOp → Type 0
Ready s p = (w : PendingBusOp) × (s.waiting ≡ some w) × Nowhere s p

abbrev pub Over : Producer → Option PendingBusOp → Type 0
Over s p = Rested s p × (is_done s.cpu ≡ true)

abbrev pub Phase : ProducerPc → Producer → Option PendingBusOp → Type 0
Phase top s p = Rested s p ⊎ Flying s p
Phase send_request s p = Ready s p
Phase send_progress s p = Flying s p
Phase send_signal s p = Flying s p
Phase check_done s p = Over s p ⊎ Flying s p
Phase last_progress s p = Over s p
Phase set_done s p = Over s p
Phase last_signal s p = Over s p
Phase stopped s p = Over s p
Phase receive s p = Flying s p
Phase answer_progress s p = Ready s p
Phase answer_signal s p = Rested s p
Phase asleep s p = Flying s p

-- The flag is up.
abbrev pub raised : ProducerPc → Bool
raised last_signal = true
raised stopped = true
raised _ = false

-- A request is posted and its signal is to come.
abbrev pub announcing : ProducerPc → Bool
announcing send_progress = true
announcing send_signal = true
announcing _ = false

-- What holds of one CPU's thread. `seen` is the main thread's `seen_epoch`, `taken` says that it is past the
-- CPU's mailbox of requests in this turn, and `answering` that it has a signal to give.
pub record IsSound (s : Producer) (p : Option PendingBusOp) (seen : ℕ) (taken answering : Bool)
    (epoch : ℕ) : Type 0 where
  pub phase : Phase s.pc s p
  pub flag : s.is_over ≡ raised s.pc
  pub not_ahead : s.seen_epoch ≤ epoch
  pub main_not_ahead : seen ≤ epoch
  pub noticed : taken ≡ true → (s.req ≡ []) ⊎ ((seen < epoch) ⊎ (announcing s.pc ≡ true))
  pub roused : s.pc ≡ asleep → (s.resp ≡ []) ⊎ ((s.seen_epoch < epoch) ⊎ (answering ≡ true))

-- The main thread has not missed the end of the CPU's thread.
abbrev pub Fresh : Producer → ℕ → ℕ → Type 0
Fresh s seen epoch = (s.is_over ≡ false) ⊎ ((seen < epoch) ⊎ (s.pc ≡ last_signal))

abbrev pub taken0 : MainPc → Bool
taken0 take0 = false
taken0 _ = true

abbrev pub taken1 : MainPc → Bool
taken1 take0 = false
taken1 take1 = false
taken1 _ = true

abbrev pub answering_at : MainPc → Bool → Bool
answering_at hand_out any_committed = any_committed
answering_at announce any_committed = true
answering_at _ any_committed = false

-- The main thread holds nothing of a CPU, and will be called by it.
abbrev pub Lonely : Threads → Type 0
Lonely t =
    ((t.main.p0 ≡ none) × Fresh t.producer0 t.main.seen_epoch t.epoch)
    ⊎ ((t.main.p1 ≡ none) × Fresh t.producer1 t.main.seen_epoch t.epoch)

-- What the two conditions on the end of the turn say, until something is committed.
abbrev pub Looked : Threads → Type 0
Looked t =
    (t.main.waiting_for_peer ≡ true → (t.main.progressed ≡ true) ⊎ Lonely t)
    × (t.main.no_pending ≡ true
        → (t.main.progressed ≡ true) ⊎ ((t.main.p0 ≡ none) × (t.main.p1 ≡ none)))

-- Each result that is left is for a request that is held, and no two are for one.
abbrev pub ForHeld : Main → Option PendingBusOp → Option PendingBusOp → List CommitResult → Type 0
ForHeld m p0 p1 [] = Unit {0}
ForHeld m p0 p1 (r ∷ rest) =
    (((get_or m.pending_cpu r.input_index 1 == 0) ≡ true)
      × (w : PendingBusOp) × (p0 ≡ some w)
      × Answers w (answer_of m r)
      × ForHeld m none p1 rest)
    ⊎ (((get_or m.pending_cpu r.input_index 1 == 0) ≡ false)
        × (w : PendingBusOp) × (p1 ≡ some w)
        × Answers w (answer_of m r)
        × ForHeld m p0 none rest)

abbrev pub MainAt : MainPc → Threads → Type 0
MainAt take0 t = Unit {0}
MainAt take1 t = Unit {0}
MainAt drain0 t = Unit {0}
MainAt drain1 t = Unit {0}
MainAt check_peer t = Unit {0}
MainAt commit_ops t =
    Looked t
    × (t.main.pending_cpu ≡ pending_cpu t.main.p0 t.main.p1)
    × (t.main.pending_script ≡ scripts_of t.main.p0 ++ scripts_of t.main.p1)
    × (t.main.pending_token ≡ tokens_of t.main.p0 ++ tokens_of t.main.p1)
MainAt hand_out t =
    Looked t
    × ForHeld t.main t.main.p0 t.main.p1 t.main.committed
    × ((t.main.committed ≡ []) ⊎ (t.main.any_committed ≡ true))
MainAt announce t = Looked t
MainAt check0 t = Looked t
MainAt check1 t = Looked t × (t.producer0.is_over ≡ true)
MainAt dormant t = Lonely t
MainAt finished t =
    (t.main.p0 ≡ none)
    × (t.main.p1 ≡ none)
    × (t.producer0.is_over ≡ true)
    × (t.producer1.is_over ≡ true)

pub record IsSafe (t : Threads) : Type 0 where
  pub sound0 :
      IsSound t.producer0 t.main.p0 t.main.seen_epoch
        (taken0 t.main.pc)
        (answering_at t.main.pc t.main.any_committed)
        t.epoch
  pub sound1 :
      IsSound t.producer1 t.main.p1 t.main.seen_epoch
        (taken1 t.main.pc)
        (answering_at t.main.pc t.main.any_committed)
        t.epoch
  pub main_at : MainAt t.main.pc t
