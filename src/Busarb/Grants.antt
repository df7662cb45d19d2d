-- ===== src/Busarb/Grants.antt =====
-- Waiting and granting in src/busarb/busarb.cpp: `query_wait` and `commit_grant`.
use saturnis.Base.{
  ℕ, ◌+◌, ◌*◌, ◌^◌, ◌≤◌, ◌<◌, ◌≡◌, max, Bool, false, List, [], ◌∷◌, arith, ltb, length, ◌↔◌, All,
  All-map,
}
use saturnis.Busarb.{BusRequest, Arbiter, query_wait, commit_grant, grant_duration}

-- `wait_cycles` is the least delay after which the request may begin: asked again d ticks later it must
-- wait exactly if d is less. This holds as long as the bus is free within 2 ^ 32 ticks.
pub query_wait_least :
    (a : Arbiter) (req : BusRequest) (d : ℕ)
    → a.bus_free_tick < req.now_tick + 2 ^ 32
    → (query_wait a (record req { now_tick = req.now_tick + d })).should_wait
      ≡ ltb d (query_wait a req).wait_cycles
unfolding query_wait
query_wait_least a req d h = ground arith

-- A request must wait if and only if the delay it is told is not 0, however far off the free tick is.
pub query_wait_zero :
    (a : Arbiter) (req : BusRequest)
    → ((query_wait a req).should_wait ≡ false) ↔ ((query_wait a req).wait_cycles ≡ 0)
unfolding query_wait
query_wait_zero a req = (λ h. ground arith, λ h. ground arith)

-- The fields that are `uint32_t` in the source hold such values.
pub record IsWordArbiter (a : Arbiter) : Type 0 where
  pub service_word : (addr : ℕ) (w : Bool) (size : ℕ) → a.access_cycles addr w size < 2 ^ 32
  pub contention_word : a.config.same_address_contention < 2 ^ 32
  pub turnaround_word : a.config.tie_turnaround < 2 ^ 32

grant_duration_bounds :
    (a : Arbiter) (req : BusRequest) (had_tie : Bool)
    → IsWordArbiter a
    → (1 ≤ grant_duration a req had_tie) × (grant_duration a req had_tie < 3 * 2 ^ 32)
unfolding grant_duration
grant_duration_bounds a req had_tie v =
    ground (arith, v.service_word req.addr req.is_write req.size_bytes)

-- A grant holds the bus from its start, which is no earlier than the bus was free, for exactly its
-- service and penalties: a later query must wait exactly if its tick is before that end, and the grant
-- takes at least one tick. This holds while the clock is more than 3 * 2 ^ 32 ticks below its limit.
pub commit_grant-query_wait :
    (a : Arbiter) (req q : BusRequest) (tick : ℕ) (had_tie : Bool)
    → IsWordArbiter a
    → max tick a.bus_free_tick + 3 * 2 ^ 32 ≤ 2 ^ 64
    → ((query_wait (commit_grant a req tick had_tie) q).should_wait
        ≡ ltb q.now_tick (max tick a.bus_free_tick + grant_duration a req had_tie))
      × (1 ≤ grant_duration a req had_tie)
unfolding query_wait commit_grant
commit_grant-query_wait a req q tick had_tie v h =
    ground (arith, grant_duration_bounds a req had_tie v)

commit_grant_free :
    (a : Arbiter) (req : BusRequest) (tick : ℕ) (had_tie : Bool)
    → IsWordArbiter a
    → max tick a.bus_free_tick + 3 * 2 ^ 32 ≤ 2 ^ 64
    → (commit_grant a req tick had_tie).bus_free_tick
      ≡ max tick a.bus_free_tick + grant_duration a req had_tie
unfolding commit_grant
commit_grant_free a req tick had_tie v h = omega (arith, grant_duration_bounds a req had_tie v)

commit_grant-IsWordArbiter :
    (a : Arbiter) (req : BusRequest) (tick : ℕ) (had_tie : Bool)
    → IsWordArbiter a
    → IsWordArbiter (commit_grant a req tick had_tie)
unfolding commit_grant
commit_grant-IsWordArbiter a req tick had_tie v = record {
  service_word = v.service_word;
  contention_word = v.contention_word;
  turnaround_word = v.turnaround_word;
}

pub record Grant : Type 0 where
  pub request : BusRequest
  pub tick_start : ℕ
  pub had_tie : Bool

-- A client's grants, one after another.
pub commit_all : Arbiter → List Grant → Arbiter
commit_all a [] = a
commit_all a (g ∷ gs) = commit_all (commit_grant a g.request g.tick_start g.had_tie) gs

-- Every grant advances the bus. Of an arbiter whose bus is free by the tick `latest`, with service times and
-- settings of 32 bits, after n grants, duplicates included, each asked for by `latest`: the free tick has grown by
-- at least n, and is at most 3 * 2 ^ 32 for each grant beyond `latest`. This holds while that bound is at most
-- 2 ^ 64.
pub commit_all_advances :
    (a : Arbiter) (gs : List Grant) (latest : ℕ)
    → IsWordArbiter a
    → a.bus_free_tick ≤ latest
    → All (λ g. g.tick_start ≤ latest) gs
    → latest + 3 * 2 ^ 32 * length gs ≤ 2 ^ 64
    → (a.bus_free_tick + length gs ≤ (commit_all a gs).bus_free_tick)
      × ((commit_all a gs).bus_free_tick ≤ latest + 3 * 2 ^ 32 * length gs)
unfolding commit_all
commit_all_advances a [] latest v f h w = (omega arith, omega arith)
commit_all_advances a (g ∷ gs) latest v f h w =
    let b = commit_grant a g.request g.tick_start g.had_tie in
    let d = grant_duration_bounds a g.request g.had_tie v in
    let e : b.bus_free_tick
        ≡ max g.tick_start a.bus_free_tick + grant_duration a g.request g.had_tie =
      commit_grant_free a g.request g.tick_start g.had_tie v (omega (arith, h.0)) in
    let rest =
      commit_all_advances b gs (latest + 3 * 2 ^ 32)
        (commit_grant-IsWordArbiter a g.request g.tick_start g.had_tie v) (omega (arith, h.0, e, d))
        (All-map (λ k. k.tick_start ≤ latest) (λ k. k.tick_start ≤ latest + 3 * 2 ^ 32)
          (λ k q. omega arith) gs h.1)
        (omega arith) in
    (omega (arith, rest.0, e, d), omega (arith, rest.1))
