-- ===== src/Busarb/Tests.antt =====
-- Runs of src/busarb/busarb.cpp and ymir_timing.cpp on small inputs.
use mathlib.Core.List.{Memᴰ}
use saturnis.Base.{
  ℕ, ◌+◌, ◌*◌, ◌^◌, ◌≤◌, ◌<◌, ◌≡◌, ◌≢◌, ◌↔◌, refl, max, Bool, true, false, some, List, [], ◌∷◌, All,
  arith, get_elem?,
}
use saturnis.Busarb.{
  BusMasterId, sh2_a, sh2_b, dma, BusRequest, Arbiter, new_arbiter, commit_grant, grant_duration,
  service_cycles, pick_winner, pick_from, beats,
}
use saturnis.Busarb.Timing.{
  ymir_access_cycles, ymir_access_cycles_bounds, cycles_in, region_timings, RegionTiming,
}
use saturnis.Busarb.Grants.{IsWordArbiter, Grant, commit_all, commit_all_advances}
use saturnis.Busarb.Order.{Precedes}
use saturnis.Busarb.Winner.{Wins, pick_winner-Precedes, pick_winner_alternates}

abbrev fresh : Arbiter
fresh = new_arbiter ymir_access_cycles (record { same_address_contention = 2; tie_turnaround = 1 })

abbrev request : BusMasterId → ℕ → Bool → ℕ → BusRequest
request m addr w size = record {
  master_id = m;
  addr = addr;
  is_write = w;
  size_bytes = size;
  now_tick = 0;
}

abbrev read_a : BusRequest
read_a = request sh2_a 0x0600_0000 false 4

abbrev read_b : BusRequest
read_b = request sh2_b 0x0600_0000 false 4

abbrev move : BusRequest
move = request dma 0x05E0_0000 true 4

-- Twenty ticks of VDP2 RAM, then two of contention.
two_grants :
    (commit_grant
      (commit_grant fresh (request sh2_a 0x05E0_0000 false 4) 3 false)
      (request sh2_b 0x05E0_0000 false 4)
      0
      false).bus_free_tick
    ≡ 45
unfolding commit_grant grant_duration service_cycles ymir_access_cycles cycles_in region_timings
    new_arbiter
two_grants = refl

first_tie : pick_winner fresh (read_b ∷ read_a ∷ []) ≡ some 1
unfolding pick_winner pick_from beats new_arbiter
first_tie = refl

fresh-IsWordArbiter : IsWordArbiter fresh
unfolding new_arbiter
fresh-IsWordArbiter = record {
  service_word = λ addr w size. omega (arith, ymir_access_cycles_bounds addr w size);
  contention_word = omega arith;
  turnaround_word = omega arith;
}

abbrev vdp1_ram : RegionTiming
vdp1_ram = record { start = 0x05C0_0000; last = 0x05C7_FFFF; read_cycles = 22; write_cycles = 2 }

vdp1_ram-mem : Memᴰ vdp1_ram region_timings
unfolding region_timings
vdp1_ram-mem = Memᴰ.tail (
    Memᴰ.tail (
      Memᴰ.tail
        (Memᴰ.tail (Memᴰ.tail (Memᴰ.tail (Memᴰ.tail (Memᴰ.tail (Memᴰ.tail (Memᴰ.head refl)))))))))

fresh_soon : fresh.bus_free_tick < 0 + 2 ^ 32
unfolding new_arbiter
fresh_soon = omega arith

fresh_room : max 5 fresh.bus_free_tick + 3 * 2 ^ 32 ≤ 2 ^ 64
unfolding new_arbiter
fresh_room = omega arith

abbrev grants : List Grant
grants =
    record { request = read_a; tick_start = 4; had_tie = true }
    ∷ record { request = read_a; tick_start = 4; had_tie = true }
    ∷ []

fresh_free : fresh.bus_free_tick ≤ 4
unfolding new_arbiter
fresh_free = omega arith

commit_all_advances_example :
    (fresh.bus_free_tick + 2 ≤ (commit_all fresh grants).bus_free_tick)
    × ((commit_all fresh grants).bus_free_tick ≤ 4 + 3 * 2 ^ 32 * 2)
commit_all_advances_example =
    commit_all_advances fresh grants 4 fresh-IsWordArbiter fresh_free (omega arith) (omega arith)

pick_winner-Precedes_example :
    (w : BusRequest) × Wins fresh (read_b ∷ read_a ∷ []) w
    × All (Precedes fresh.last_granted_cpu w) (read_b ∷ read_a ∷ [])
pick_winner-Precedes_example = pick_winner-Precedes fresh read_b (read_a ∷ [])

Wins-of :
    (reqs : List BusRequest) (i : ℕ) (w : BusRequest)
    → pick_winner fresh reqs ≡ some i
    → get_elem? reqs i ≡ some w
    → Wins fresh reqs w
Wins-of reqs i w p q = (i, p, q)

a-Wins : Wins fresh (read_b ∷ read_a ∷ []) read_a
a-Wins = Wins-of (read_b ∷ read_a ∷ []) 1 read_a first_tie refl

a-Wins_first : Wins fresh (read_a ∷ read_b ∷ []) read_a
unfolding pick_winner pick_from beats new_arbiter
a-Wins_first = (0, refl, refl)

swapped : (r : BusRequest) → Memᴰ r (read_a ∷ read_b ∷ []) ↔ Memᴰ r (read_b ∷ read_a ∷ [])
swapped r = (swap read_a read_b, swap read_b read_a)
  where
    swap : (x y : BusRequest) → Memᴰ r (x ∷ y ∷ []) → Memᴰ r (y ∷ x ∷ [])
    swap x y (Memᴰ.head e) = Memᴰ.tail (Memᴰ.head e)
    swap x y (Memᴰ.tail (Memᴰ.head e)) = Memᴰ.head e
    swap x y (Memᴰ.tail (Memᴰ.tail m)) = elim m [ ]

b-Wins : Wins (commit_grant fresh read_a 0 true) (read_a ∷ read_b ∷ []) read_b
unfolding pick_winner pick_from beats new_arbiter commit_grant
b-Wins = (1, refl, refl)

a_is_not_b : sh2_b ≢ sh2_a
a_is_not_b e = ground arith

pick_winner_alternates_example : read_b.master_id ≡ read_b.master_id
pick_winner_alternates_example =
    pick_winner_alternates fresh read_a read_b 0 true (read_a ∷ read_b ∷ []) read_b refl
      (refl, (refl, tt)) (Memᴰ.tail (Memᴰ.head refl)) a_is_not_b b-Wins

move-Wins : Wins fresh (read_a ∷ move ∷ read_b ∷ []) move
unfolding pick_winner pick_from beats new_arbiter
move-Wins = (1, refl, refl)
