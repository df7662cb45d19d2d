-- ===== src/Driver/Threads/Mains/Commits.antt =====
-- The steps of the main thread of `run_scripted_pair_multithread` up to `commit_batch`
-- in src/core/emulator.cpp keep the invariant.
use saturnis.Base.{
  ◌≡◌, refl, ap, ◌⊎◌, inl, inr, Bool, true, false, not, ◌&&◌, ◌||◌, Option, none, some, List, [],
  ◌∷◌, ◌++◌, if◌then◌else◌, arith, get_elem?, All-map,
}
use saturnis.Bus.{CommitResult}
use saturnis.Bus.Op.{BusOp}
use saturnis.Bus.Batch.{commit_batch, may_commit}
use saturnis.Bus.Batches.{commit_batch-inputs}
use saturnis.Bus.Distinct.{commit_batch-AllDistinct}
use saturnis.Scripted.{PendingBusOp}
use saturnis.Driver.{is_none, ops_of}
use saturnis.Driver.Threads.Main.{
  check_peer, commit_ops, hand_out, check0, Main, Threads, is_empty, look_around,
  commit_pending_ops, main_at,
}
use saturnis.Driver.Threads.Invariant.{taken0, taken1, Lonely, IsSafe}
use saturnis.Driver.Threads.Mains.Moves.{Kept, here, moved}
use saturnis.Driver.Threads.Batches.{ForHeld-batch}

-- The conditions on the end of the turn, from what they read.
look_around-cases :
    (p0 p1 : Option PendingBusOp) (over0 over1 : Bool)
    → ((not (is_none p0) && is_none p1 && not over1)
        || (not (is_none p1) && is_none p0 && not over0))
      ≡ true
    → ((p0 ≡ none) × (over0 ≡ false)) ⊎ ((p1 ≡ none) × (over1 ≡ false))
look_around-cases none none a b h = cc
look_around-cases none (some p) a b h = inl (refl, ground arith)
look_around-cases (some p) none a b h = inr (refl, ground arith)
look_around-cases (some p) (some q) a b h = cc

pub no_pending-cases :
    (p0 p1 : Option PendingBusOp) → (is_none p0 && is_none p1) ≡ true → (p0 ≡ none) × (p1 ≡ none)
no_pending-cases none none h = (refl, refl)
no_pending-cases none (some p) h = cc
no_pending-cases (some p) q h = cc

module _ (t : Threads) (safe : IsSafe t) where
  pub check_peer-IsSafe : t.main.pc ≡ check_peer → Kept (main_at check_peer t)
  unfolding main_at look_around
  check_peer-IsSafe e =
      moved t safe (look_around t) refl refl refl (λ b. ap taken0 e) (λ b. ap taken1 e) (λ a. cc)
        (
          (
            λ w. inr (
                flags (
                  look_around-cases t.main.p0 t.main.p1 t.producer0.is_over t.producer1.is_over w)),
            λ n. inr (no_pending-cases t.main.p0 t.main.p1 n),
          ),
          refl,
          refl,
          refl,
        )
    where
      flags :
          ((t.main.p0 ≡ none) × (t.producer0.is_over ≡ false))
            ⊎ ((t.main.p1 ≡ none) × (t.producer1.is_over ≡ false))
          → Lonely t
      flags (inl (a, b)) = inl (a, inl b)
      flags (inr (a, b)) = inr (a, inl b)

  pub commit_ops-IsSafe : t.main.pc ≡ commit_ops → Kept (main_at commit_ops t)
  unfolding main_at commit_pending_ops
  commit_ops-IsSafe e = go (is_empty ops)
    where
      m : Main
      m = t.main

      ops : List BusOp
      ops = ops_of m.p0 ++ ops_of m.p1

      batch : Main
      batch = record m {
        pc = hand_out;
        arbiter = (commit_batch m.arbiter ops).0;
        committed = (commit_batch m.arbiter ops).1;
        any_committed = not (is_empty (commit_batch m.arbiter ops).1);
      }

      found : (results : List CommitResult) → (results ≡ []) ⊎ (not (is_empty results) ≡ true)
      found [] = inl refl
      found (r ∷ rest) = inr refl

      go : (b : Bool) → IsSafe (record t { main = if b then record m { pc = check0 } else batch })
      go true =
          moved t safe (record m { pc = check0 }) refl refl refl (λ b. ap taken0 e)
            (λ b. ap taken1 e) (λ a. cc) (here t safe commit_ops e).0
      go false =
          moved t safe batch refl refl refl (λ b. ap taken0 e) (λ b. ap taken1 e) (λ a. cc)
            (
              (here t safe commit_ops e).0,
              ForHeld-batch batch m.p0 m.p1 (commit_batch m.arbiter ops).1
                  (record {
                    by_cpu = (here t safe commit_ops e).1;
                    by_script = (here t safe commit_ops e).2;
                    by_token = (here t safe commit_ops e).3;
                  })
                  (All-map
                    (λ r.
                      (may_commit m.arbiter r.op ≡ true)
                      × (get_elem? ops r.input_index ≡ some r.op))
                    (λ r. get_elem? ops r.input_index ≡ some r.op) (λ r h. h.1)
                    (commit_batch m.arbiter ops).1 (commit_batch-inputs m.arbiter ops))
                  (commit_batch-AllDistinct m.arbiter ops),
              found (commit_batch m.arbiter ops).1,
            )
