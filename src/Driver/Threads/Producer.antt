-- ===== src/Driver/Threads/Producer.antt =====
-- src/core/emulator.cpp: the signal, the mailboxes and a CPU's thread of `run_scripted_pair_multithread`. A step
-- is one access to what the threads share (a mailbox, a flag, the signal) with the work on the thread's own
-- variables up to it; each is done under a lock or is atomic in the source. A step that is not there, `none`,
-- is a thread that waits for the signal or has ended.
use saturnis.Base.{
  ℕ, ◌+◌, Bool, true, false, ◌&&◌, Option, none, some, List, [], ◌∷◌, ◌++◌, ◌==◌, if◌then◌else◌,
}
use saturnis.Base.Word.{u64}
use saturnis.Bus.{BusResponse}
use saturnis.Scripted.{PendingBusOp, ScriptedCpu, produce, apply_response}
use saturnis.Driver.{is_done, is_none}

pub record ScriptResponse : Type 0 where
  pub script_index : ℕ
  pub producer_token : ℕ
  pub response : BusResponse

-- `SignalHub::notify`, on the epoch.
unfoldable pub notify : ℕ → ℕ
notify epoch = u64 (epoch + 1)

-- `SignalHub::wait_for_change`: the new `seen_epoch`, or `none` while there is no change.
unfoldable pub wait_for_change : ℕ → ℕ → Option ℕ
wait_for_change epoch seen_epoch = if epoch == seen_epoch then none else some epoch

-- `Mailbox::push`; `try_pop` is the split of a mailbox into its front and the rest.
abbrev pub post {ℓ} : {A : Type ℓ} → List A → A → List A
post queue value = queue ++ value ∷ []

-- Where a CPU's thread stands in its loop.
pub data ProducerPc : Type 0 where
  top send_request send_progress send_signal check_done : ProducerPc
  last_progress set_done last_signal stopped : ProducerPc
  receive answer_progress answer_signal asleep : ProducerPc

-- A CPU's thread, with the mailboxes and the flag that it shares with the main thread.
pub record Producer : Type 0 where
  pub cpu : ScriptedCpu
  pub waiting : Option PendingBusOp
  pub seen_epoch : ℕ
  pub pc : ProducerPc
  pub req : List PendingBusOp
  pub resp : List ScriptResponse
  pub progress : List ℕ
  pub is_over : Bool

abbrev pub new_producer : ScriptedCpu → Producer
new_producer cpu = record {
  cpu = cpu;
  waiting = none;
  seen_epoch = 0;
  pc = top;
  req = [];
  resp = [];
  progress = [];
  is_over = false;
}

-- What `cpu.produce()` comes back with.
unfoldable pub produced_by : Producer → ScriptedCpu × Option PendingBusOp → Producer
produced_by s (c, none) = record s { cpu = c; pc = check_done }
produced_by s (c, some w) = record s { cpu = c; waiting = some w; pc = send_request }

unfoldable pub begin_turn : Producer → Option PendingBusOp → Producer
begin_turn s (some w) = record s { pc = check_done }
begin_turn s none =
    if is_done s.cpu then record s { pc = check_done } else produced_by s (produce s.cpu)

-- A use of `*waiting`, which is undefined where nothing is waiting.
abbrev pub with_waiting :
    Producer → ℕ → Option PendingBusOp → (PendingBusOp → Producer) → Option (Producer × ℕ)
with_waiting s epoch none f = none
with_waiting s epoch (some w) f = some (f w, epoch)

unfoldable pub receive_from : Producer → List ScriptResponse → Producer
receive_from s [] = record s { pc = asleep }
receive_from s (r ∷ rest) = record s {
  cpu = (apply_response s.cpu r.script_index r.response r.producer_token none).0;
  resp = rest;
  pc = answer_progress;
}

abbrev pub wake : Producer → Option ℕ → Option (Producer × ℕ)
wake s none = none
wake s (some epoch) = some (record s { seen_epoch = epoch; pc = top }, epoch)

-- A step of a CPU's thread: the thread and the signal's epoch.
unfoldable pub producer_at : ProducerPc → Producer → ℕ → Option (Producer × ℕ)
producer_at top s epoch = some (begin_turn s s.waiting, epoch)
producer_at send_request s epoch =
    with_waiting s epoch s.waiting (λ w. record s { req = post s.req w; pc = send_progress })
producer_at send_progress s epoch =
    with_waiting s epoch s.waiting
      (λ w. record s { progress = post s.progress (u64 (w.op.req_time + 1)); pc = send_signal })
producer_at send_signal s epoch = some (record s { pc = check_done }, notify epoch)
producer_at check_done s epoch =
    some (
      record s { pc = if is_none s.waiting && is_done s.cpu then last_progress else receive },
      epoch,
    )
producer_at last_progress s epoch =
    some (record s { progress = post s.progress s.cpu.local_time; pc = set_done }, epoch)
producer_at set_done s epoch = some (record s { is_over = true; pc = last_signal }, epoch)
producer_at last_signal s epoch = some (record s { pc = stopped }, notify epoch)
producer_at stopped s epoch = none
producer_at receive s epoch = some (receive_from s s.resp, epoch)
producer_at answer_progress s epoch = some (
  record s { progress = post s.progress s.cpu.local_time; waiting = none; pc = answer_signal },
  epoch,
)
producer_at answer_signal s epoch = some (record s { pc = top }, notify epoch)
producer_at asleep s epoch = wake s (wait_for_change epoch s.seen_epoch)
