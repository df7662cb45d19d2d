-- ===== src/Driver/Threads/Mains.antt =====
-- Every step of the main thread of `run_scripted_pair_multithread` in src/core/emulator.cpp keeps the invariant.
pub mod Moves
pub mod Commits
pub mod Hands
pub mod Ends
use saturnis.Base.{
  ℕ, ◌+◌, ◌^◌, ◌<◌, ◌≡◌, refl, sym, ap, subst, ◌∙◌, ◌⊎◌, inl, inr, Bool, true, false, not, ◌&&◌,
  ◌||◌, Option, none, some, List, [], ◌∷◌, ◌++◌, ◌==◌, if◌then◌else◌, arith, Bool-cases, get_or,
  get_elem?, All-map,
}
use saturnis.Bus.{CommitResult}
use saturnis.Bus.Op.{BusOp}
use saturnis.Bus.Batch.{commit_batch, may_commit}
use saturnis.Bus.Batches.{commit_batch-inputs}
use saturnis.Bus.Distinct.{commit_batch-AllDistinct}
use saturnis.Scripted.{PendingBusOp}
use saturnis.Driver.{is_none, ops_of}
use saturnis.Driver.Threads.Producer.{ScriptResponse, notify, wait_for_change, post}
use saturnis.Driver.Threads.Main.{
  MainPc, take0, take1, drain0, drain1, check_peer, commit_ops, hand_out, announce, check0, check1,
  dormant, finished, Main, Threads, is_empty, end_turn, drain, look_around, commit_pending_ops,
  answer_of, hand_out_from, wake_main, main_at,
}
use saturnis.Driver.Threads.Invariant.{
  Answers, IsSound, Fresh, taken0, taken1, answering_at, Lonely, Looked, ForHeld, MainAt, IsSafe,
}
use saturnis.Driver.Threads.Producers.{woken_at}
use saturnis.Driver.Threads.Sounds.{
  IsSound-main, IsSound-wake, IsSound-announce, IsSound-drain, IsSound-take, IsSound-answer,
}
use saturnis.Driver.Threads.Batches.{ForHeld-batch}
use saturnis.Driver.Threads.Mains.Moves.{
  Kept, here, moved, take0-IsSafe, take1-IsSafe, drain0-IsSafe, drain1-IsSafe,
}
use saturnis.Driver.Threads.Mains.Commits.{check_peer-IsSafe, commit_ops-IsSafe}
use saturnis.Driver.Threads.Mains.Hands.{hand_out-IsSafe}
use saturnis.Driver.Threads.Mains.Ends.{
  announce-IsSafe, check0-IsSafe, check1-IsSafe, dormant-IsSafe,
}

module _ (t : Threads) (room : t.epoch + 1 < 2 ^ 64) (safe : IsSafe t) where
  -- A step of the main thread, wherever it stands.
  pub main_at-IsSafe : (pc : MainPc) → t.main.pc ≡ pc → Kept (main_at pc t)
  unfolding main_at
  main_at-IsSafe take0 e = take0-IsSafe t safe e
  main_at-IsSafe take1 e = take1-IsSafe t safe e
  main_at-IsSafe drain0 e = drain0-IsSafe t safe e t.producer0.progress
  main_at-IsSafe drain1 e = drain1-IsSafe t safe e t.producer1.progress
  main_at-IsSafe check_peer e = check_peer-IsSafe t safe e
  main_at-IsSafe commit_ops e = commit_ops-IsSafe t safe e
  main_at-IsSafe hand_out e = hand_out-IsSafe t safe e t.main.committed refl
  main_at-IsSafe announce e = announce-IsSafe t room safe e
  main_at-IsSafe check0 e = check0-IsSafe t safe e
  main_at-IsSafe check1 e = check1-IsSafe t safe e
  main_at-IsSafe dormant e =
      dormant-IsSafe t safe e (wait_for_change t.epoch t.main.seen_epoch) refl
  main_at-IsSafe finished e = tt
