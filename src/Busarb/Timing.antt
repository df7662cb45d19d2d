-- ===== src/Busarb/Timing.antt =====
-- src/busarb/ymir_timing.cpp: the calibrated service times of the address regions.
use mathlib.Core.List.{Memᴰ}
use saturnis.Base.{
  ℕ, ◌≤◌, ◌≡◌, refl, Bool, true, false, ◌&&◌, ◌||◌, List, [], ◌∷◌, ltb, leb, if◌then◌else◌, arith,
  All,
}

pub record RegionTiming : Type 0 where
  pub start : ℕ
  pub last : ℕ
  pub read_cycles : ℕ
  pub write_cycles : ℕ

abbrev region : ℕ → ℕ → ℕ → ℕ → RegionTiming
region s e r w = record { start = s; last = e; read_cycles = r; write_cycles = w }

unfoldable pub region_timings : List RegionTiming
region_timings =
    region 0x00000000 0x00FFFFFF 2 2
    ∷ region 0x01000000 0x017FFFFF 4 2
    ∷ region 0x01800000 0x01FFFFFF 2 2
    ∷ region 0x02000000 0x02FFFFFF 2 2
    ∷ region 0x10000000 0x1FFFFFFF 4 2
    ∷ region 0x20000000 0x4FFFFFFF 2 2
    ∷ region 0x05000000 0x057FFFFF 8 2
    ∷ region 0x05800000 0x058FFFFF 40 40
    ∷ region 0x05A00000 0x05BFFFFF 40 2
    ∷ region 0x05C00000 0x05C7FFFF 22 2
    ∷ region 0x05C80000 0x05CFFFFF 22 2
    ∷ region 0x05D00000 0x05D7FFFF 14 2
    ∷ region 0x05E00000 0x05FBFFFF 20 2
    ∷ region 0x05FE0000 0x05FEFFFF 4 2
    ∷ region 0x06000000 0x07FFFFFF 2 2
    ∷ region 0xFFFFFE00 0xFFFFFFFF 2 2
    ∷ []

abbrev pub in_region : RegionTiming → ℕ → Bool
in_region r addr = leb r.start addr && leb addr r.last

abbrev pub region_cycles : RegionTiming → Bool → ℕ
region_cycles r is_write = if is_write then r.write_cycles else r.read_cycles

-- The loop over the table, with the default behind it.
unfoldable pub cycles_in : List RegionTiming → ℕ → Bool → ℕ
cycles_in [] addr is_write = if is_write then 2 else 4
cycles_in (r ∷ rest) addr is_write =
    if in_region r addr then region_cycles r is_write else cycles_in rest addr is_write

unfoldable pub ymir_access_cycles : ℕ → Bool → ℕ → ℕ
unfolding cycles_in region_timings
ymir_access_cycles addr is_write size_bytes = cycles_in region_timings addr is_write

abbrev Within : RegionTiming → Type 0
Within r = (2 ≤ r.read_cycles) × (r.read_cycles ≤ 40) × (2 ≤ r.write_cycles) × (r.write_cycles ≤ 40)

cycles_in_bounds :
    (rs : List RegionTiming) (addr : ℕ) (w : Bool)
    → All Within rs
    → (2 ≤ cycles_in rs addr w) × (cycles_in rs addr w ≤ 40)
unfolding cycles_in
cycles_in_bounds [] addr w h = ground arith
cycles_in_bounds (r ∷ rs) addr w h = ground (arith, cycles_in_bounds rs addr w h.1)

-- Every access takes between 2 and 40 ticks, so the arbiter's clamp to 1 tick is never reached.
pub ymir_access_cycles_bounds :
    (addr : ℕ) (is_write : Bool) (size : ℕ)
    → (2 ≤ ymir_access_cycles addr is_write size) × (ymir_access_cycles addr is_write size ≤ 40)
unfolding ymir_access_cycles
ymir_access_cycles_bounds addr w size = cycles_in_bounds region_timings addr w (omega arith)

abbrev disjoint : RegionTiming → RegionTiming → Bool
disjoint r s = ltb r.last s.start || ltb s.last r.start

disjoint_from : RegionTiming → List RegionTiming → Bool
disjoint_from r [] = true
disjoint_from r (s ∷ rs) = disjoint r s && disjoint_from r rs

pairwise_disjoint : List RegionTiming → Bool
unfolding disjoint_from
pairwise_disjoint [] = true
pairwise_disjoint (r ∷ rs) = disjoint_from r rs && pairwise_disjoint rs

not_in_disjoint :
    (r s : RegionTiming) (rs : List RegionTiming) (addr : ℕ)
    → disjoint_from r rs ≡ true
    → Memᴰ s rs
    → in_region s addr ≡ true
    → in_region r addr ≡ false
unfolding disjoint_from
not_in_disjoint r s [] addr d m h = elim m [ ]
not_in_disjoint r s (t ∷ rs) addr d (Memᴰ.head e) h = ground arith
not_in_disjoint r s (t ∷ rs) addr d (Memᴰ.tail m) h = not_in_disjoint r s rs addr (ground arith) m h

cycles_in_unique :
    (rs : List RegionTiming) (s : RegionTiming) (addr : ℕ) (w : Bool)
    → pairwise_disjoint rs ≡ true
    → Memᴰ s rs
    → in_region s addr ≡ true
    → cycles_in rs addr w ≡ region_cycles s w
unfolding cycles_in pairwise_disjoint
cycles_in_unique [] s addr w d m h = elim m [ ]
cycles_in_unique (r ∷ rs) s addr w d (Memᴰ.head e) h = ground arith
cycles_in_unique (r ∷ rs) s addr w d (Memᴰ.tail m) h = ground (
  arith,
  not_in_disjoint r s rs addr (ground arith) m h,
  cycles_in_unique rs s addr w (ground arith) m h,
)

regions_disjoint : pairwise_disjoint region_timings ≡ true
unfolding pairwise_disjoint region_timings
regions_disjoint = refl

-- The regions do not overlap: an address in a region of the table is served at that region's times,
-- wherever the region stands in the table.
pub ymir_access_cycles_unique :
    (r : RegionTiming) (addr : ℕ) (is_write : Bool) (size : ℕ)
    → Memᴰ r region_timings
    → in_region r addr ≡ true
    → ymir_access_cycles addr is_write size ≡ region_cycles r is_write
unfolding ymir_access_cycles
ymir_access_cycles_unique r addr w size m h =
    cycles_in_unique region_timings r addr w regions_disjoint m h
