-- ===== src/Driver/Threads/Main.antt =====
-- src/core/emulator.cpp: the main thread of `run_scripted_pair_multithread`, in steps as those of a CPU's
-- thread. The loop over a mailbox of progress and the loop over the results take a step for each entry.
use saturnis.Base.{
  ℕ, Bool, true, false, not, ◌&&◌, ◌||◌, Option, none, some, List, [], ◌∷◌, ◌++◌, ◌==◌,
  if◌then◌else◌, get_or,
}
use saturnis.Base.Integer.{pos}
use saturnis.Bus.{CommitResult, BusArbiter, update_progress}
use saturnis.Bus.Batch.{commit_batch}
use saturnis.Scripted.{PendingBusOp, ScriptedCpu}
use saturnis.Driver.{is_none, ops_of, pending_cpu}
use saturnis.Driver.Threads.Producer.{
  ScriptResponse, notify, wait_for_change, post, Producer, new_producer,
}

-- Where the main thread stands in its loop.
pub data MainPc : Type 0 where
  take0 take1 drain0 drain1 check_peer commit_ops hand_out announce check0 check1 : MainPc
  dormant finished : MainPc

pub record Main : Type 0 where
  pub arbiter : BusArbiter
  pub p0 : Option PendingBusOp
  pub p1 : Option PendingBusOp
  pub seen_epoch : ℕ
  pub pc : MainPc
  pub progressed : Bool
  pub waiting_for_peer : Bool
  pub no_pending : Bool
  pub pending_cpu : List ℕ
  pub pending_script : List ℕ
  pub pending_token : List ℕ
  pub committed : List CommitResult
  pub any_committed : Bool

pub record Threads : Type 0 where
  pub producer0 : Producer
  pub producer1 : Producer
  pub main : Main
  pub epoch : ℕ

unfoldable pub new_threads : ScriptedCpu → ScriptedCpu → BusArbiter → Threads
new_threads cpu0 cpu1 arbiter = record {
  producer0 = new_producer cpu0;
  producer1 = new_producer cpu1;
  main = record {
    arbiter = update_progress (update_progress arbiter (pos 0) 0) (pos 1) 0;
    p0 = none;
    p1 = none;
    seen_epoch = 0;
    pc = take0;
    progressed = false;
    waiting_for_peer = false;
    no_pending = false;
    pending_cpu = [];
    pending_script = [];
    pending_token = [];
    committed = [];
    any_committed = false;
  };
  epoch = 0;
}

-- `if (!p) { if (req.try_pop(msg)) ... }`: what is pending, what the mailbox holds, and whether it was taken.
unfoldable pub take_request :
    Option PendingBusOp → List PendingBusOp → Option PendingBusOp × List PendingBusOp × Bool
take_request (some p) queue = (some p, queue, false)
take_request none [] = (none, [], false)
take_request none (msg ∷ queue) = (some msg, queue, true)

abbrev pub scripts_of : Option PendingBusOp → List ℕ
scripts_of none = []
scripts_of (some p) = p.script_index ∷ []

abbrev pub tokens_of : Option PendingBusOp → List ℕ
tokens_of none = []
tokens_of (some p) = p.op.producer_token ∷ []

abbrev pub is_empty {ℓ} : {A : Type ℓ} → List A → Bool
is_empty [] = true
is_empty (x ∷ xs) = false

-- The end of a turn, behind the test of the loop's exit.
unfoldable pub end_turn : Main → Main
end_turn m =
    if not m.progressed && (m.waiting_for_peer || m.no_pending)
    then record m { pc = dormant }
    else record m { pc = take0; progressed = false }

-- The reading of the progress that a CPU has posted.
unfoldable pub drain : Threads → MainPc → ℕ → List ℕ → Threads
drain t next cpu [] = record t { main = record t.main { pc = next } }
drain t next cpu (prog ∷ queue) = record t {
  main = record t.main {
    arbiter = update_progress t.main.arbiter (pos cpu) prog;
    progressed = true;
  };
  producer0 = if cpu == 0 then record t.producer0 { progress = queue } else t.producer0;
  producer1 = if cpu == 0 then t.producer1 else record t.producer1 { progress = queue };
}

-- `pending_cpu` and its companions, and the two conditions on the end of the turn.
unfoldable pub look_around : Threads → Main
look_around t =
    let m = t.main in
    record m {
      pc = commit_ops;
      pending_cpu = pending_cpu m.p0 m.p1;
      pending_script = scripts_of m.p0 ++ scripts_of m.p1;
      pending_token = tokens_of m.p0 ++ tokens_of m.p1;
      waiting_for_peer =
          (not (is_none m.p0) && is_none m.p1 && not t.producer1.is_over)
          || (not (is_none m.p1) && is_none m.p0 && not t.producer0.is_over);
      no_pending = is_none m.p0 && is_none m.p1;
    }

unfoldable pub commit_pending_ops : Main → Main
commit_pending_ops m =
    let ops = ops_of m.p0 ++ ops_of m.p1 in
    let (a, results) = commit_batch m.arbiter ops in
    if is_empty ops then record m { pc = check0 } else record m {
      pc = hand_out;
      arbiter = a;
      committed = results;
      any_committed = not (is_empty results);
    }

-- The response that a result is posted as.
abbrev pub answer_of : Main → CommitResult → ScriptResponse
answer_of m r = record {
  script_index = get_or m.pending_script r.input_index 0;
  producer_token = get_or m.pending_token r.input_index 0;
  response = r.response;
}

-- The loop over the results, one turn; and behind it.
unfoldable pub hand_out_from : Threads → List CommitResult → Threads
hand_out_from t [] = record t {
  main = record t.main { pc = if t.main.any_committed then announce else check0 };
}
hand_out_from t (r ∷ rest) =
    if get_or t.main.pending_cpu r.input_index 1 == 0
    then record t {
      producer0 = record t.producer0 { resp = post t.producer0.resp (answer_of t.main r) };
      main = record t.main { p0 = none; progressed = true; committed = rest };
    }
    else record t {
      producer1 = record t.producer1 { resp = post t.producer1.resp (answer_of t.main r) };
      main = record t.main { p1 = none; progressed = true; committed = rest };
    }

abbrev pub wake_main : Threads → Option ℕ → Option Threads
wake_main t none = none
wake_main t (some epoch) =
    some (record t { main = record t.main { seen_epoch = epoch; pc = take0; progressed = false } })

unfoldable pub main_at : MainPc → Threads → Option Threads
main_at take0 t =
    let (p, queue, taken) = take_request t.main.p0 t.producer0.req in
    some (record t {
      producer0 = record t.producer0 { req = queue };
      main = record t.main { p0 = p; progressed = t.main.progressed || taken; pc = take1 };
    })
main_at take1 t =
    let (p, queue, taken) = take_request t.main.p1 t.producer1.req in
    some (record t {
      producer1 = record t.producer1 { req = queue };
      main = record t.main { p1 = p; progressed = t.main.progressed || taken; pc = drain0 };
    })
main_at drain0 t = some (drain t drain1 0 t.producer0.progress)
main_at drain1 t = some (drain t check_peer 1 t.producer1.progress)
main_at check_peer t = some (record t { main = look_around t })
main_at commit_ops t = some (record t { main = commit_pending_ops t.main })
main_at hand_out t = some (hand_out_from t t.main.committed)
main_at announce t =
    some (record t { main = record t.main { pc = check0 }; epoch = notify t.epoch })
main_at check0 t = some (record t {
  main = if t.producer0.is_over then record t.main { pc = check1 } else end_turn t.main;
})
main_at check1 t = some (record t {
  main =
      if t.producer1.is_over && is_none t.main.p0 && is_none t.main.p1
      then record t.main { pc = finished }
      else end_turn t.main;
})
main_at dormant t = wake_main t (wait_for_change t.epoch t.main.seen_epoch)
main_at finished t = none
