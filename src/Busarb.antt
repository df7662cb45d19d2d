-- ===== src/Busarb.antt =====
-- include/busarb/busarb.hpp and src/busarb/busarb.cpp: the stand-alone arbiter. The timing callback is
-- an argument of the arbiter, a pure function as its determinism contract asks; the opaque `ctx`
-- pointer is part of that function.
pub mod Timing
mod Order
pub mod Winner
pub mod Grants
mod Tests
use saturnis.Base.{
  ℕ, suc, ◌+◌, ◌-◌, min, max, Bool, true, false, not, ◌&&◌, Option, none, some, List, [], ◌∷◌, ltb,
  leb, ◌==◌, if◌then◌else◌,
}
use saturnis.Base.Word.{u32, u64}

pub data BusMasterId : Type 0 where
  sh2_a sh2_b dma : BusMasterId

pub record BusRequest : Type 0 where
  pub master_id : BusMasterId
  pub addr : ℕ
  pub is_write : Bool
  pub size_bytes : ℕ
  pub now_tick : ℕ

pub record BusWaitResult : Type 0 where
  pub should_wait : Bool
  pub wait_cycles : ℕ

pub record ArbiterConfig : Type 0 where
  pub same_address_contention : ℕ
  pub tie_turnaround : ℕ

-- `callbacks.access_cycles(ctx, addr, is_write, size_bytes)`.
abbrev pub AccessCycles : Type 0
AccessCycles = ℕ → Bool → ℕ → ℕ

pub record Arbiter : Type 0 where
  pub access_cycles : AccessCycles
  pub config : ArbiterConfig
  pub bus_free_tick : ℕ
  pub has_last_granted_addr : Bool
  pub last_granted_addr : ℕ
  pub last_granted_cpu : Option BusMasterId

-- The constructor. Its assertion that the callback is not null holds of every function.
unfoldable pub new_arbiter : AccessCycles → ArbiterConfig → Arbiter
new_arbiter callback config = record {
  access_cycles = callback;
  config = config;
  bus_free_tick = 0;
  has_last_granted_addr = false;
  last_granted_addr = 0;
  last_granted_cpu = none;
}

unfoldable pub query_wait : Arbiter → BusRequest → BusWaitResult
query_wait a req =
    if leb a.bus_free_tick req.now_tick
    then record { should_wait = false; wait_cycles = 0 }
    else record {
      should_wait = true;
      wait_cycles = u32 (min (a.bus_free_tick - req.now_tick) 0xffff_ffff);
    }

-- A service of 0 ticks counts as 1.
unfoldable pub service_cycles : Arbiter → BusRequest → ℕ
service_cycles a req = max 1 (a.access_cycles req.addr req.is_write req.size_bytes)

abbrev pub is_cpu : BusMasterId → Bool
is_cpu sh2_a = true
is_cpu sh2_b = true
is_cpu dma = false

-- The ticks that a grant occupies the bus, with the penalties of its address and of a tie.
unfoldable pub grant_duration : Arbiter → BusRequest → Bool → ℕ
unfolding service_cycles
grant_duration a req had_tie =
    service_cycles a req
    + (if a.has_last_granted_addr && req.addr == a.last_granted_addr
        then a.config.same_address_contention
        else 0)
    + (if had_tie then a.config.tie_turnaround else 0)

unfoldable pub commit_grant : Arbiter → BusRequest → ℕ → Bool → Arbiter
commit_grant a req tick_start had_tie = record a {
  bus_free_tick = u64 (max tick_start a.bus_free_tick + grant_duration a req had_tie);
  has_last_granted_addr = true;
  last_granted_addr = req.addr;
  last_granted_cpu = if is_cpu req.master_id then some req.master_id else a.last_granted_cpu;
}

abbrev pub priority : BusMasterId → ℕ
priority dma = 2
priority sh2_a = 1
priority sh2_b = 1

-- The enumerators' values.
abbrev pub master_code : BusMasterId → ℕ
master_code sh2_a = 0
master_code sh2_b = 1
master_code dma = 2

abbrev pub same_master : BusMasterId → BusMasterId → Bool
same_master a b = master_code a == master_code b

-- The CPU that a tie between the two CPUs goes to.
abbrev pub preferred : Option BusMasterId → BusMasterId
preferred none = sh2_a
preferred (some sh2_a) = sh2_b
preferred (some sh2_b) = sh2_a
preferred (some dma) = sh2_a

-- The body of the loop of `pick_winner`: whether `cand` replaces `cur` as the best so far.
unfoldable pub beats : Option BusMasterId → BusRequest → BusRequest → Bool
beats last cand cur =
    if ltb (priority cur.master_id) (priority cand.master_id)
    then true
    else if ltb (priority cand.master_id) (priority cur.master_id)
    then false
    else if is_cpu cand.master_id
        && is_cpu cur.master_id
        && not (same_master cand.master_id cur.master_id)
    then same_master cand.master_id (preferred last)
    else if ltb (master_code cand.master_id) (master_code cur.master_id)
    then true
    else if not (same_master cand.master_id cur.master_id)
    then false
    else if ltb cand.addr cur.addr
    then true
    else if ltb cur.addr cand.addr
    then false
    else if cand.is_write && not cur.is_write
    then true
    else ltb cand.size_bytes cur.size_bytes

-- The loop over the requests from index `i` on, with the best index so far and its request.
unfoldable pub pick_from : Option BusMasterId → ℕ → BusRequest → ℕ → List BusRequest → ℕ
pick_from last best cur i [] = best
pick_from last best cur i (cand ∷ rest) =
    let wins = beats last cand cur in
    pick_from last (if wins then i else best) (if wins then cand else cur) (suc i) rest

unfoldable pub pick_winner : Arbiter → List BusRequest → Option ℕ
pick_winner a [] = none
pick_winner a (r ∷ rest) = some (pick_from a.last_granted_cpu 0 r 1 rest)
