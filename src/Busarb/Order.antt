-- ===== src/Busarb/Order.antt =====
-- The order behind `pick_winner`: the master's rank, then the address. Among requests of one master at
-- one address the code goes on by direction and size, which this order leaves open.
use saturnis.Base.{
  ℕ, suc, ◌≤◌, ◌<◌, ◌≡◌, ◌⊎◌, inl, inr, true, false, Option, none, some, arith, List, [], ◌∷◌, All,
  get_elem?, ◌+◌, subst, Bool-cases,
}
use saturnis.Busarb.{BusMasterId, sh2_a, sh2_b, dma, BusRequest, beats, pick_from}

-- DMA first, then the CPU that the tie goes to, then the other CPU.
abbrev pub rank : Option BusMasterId → BusMasterId → ℕ
rank last dma = 0
rank none sh2_a = 1
rank none sh2_b = 2
rank (some sh2_a) sh2_a = 2
rank (some sh2_a) sh2_b = 1
rank (some sh2_b) sh2_a = 1
rank (some sh2_b) sh2_b = 2
rank (some dma) sh2_a = 1
rank (some dma) sh2_b = 2

-- `r` is served no later than `q`.
abbrev pub Precedes : Option BusMasterId → BusRequest → BusRequest → Type 0
Precedes last r q =
    (rank last r.master_id < rank last q.master_id)
    ⊎ ((rank last r.master_id ≡ rank last q.master_id) × (r.addr ≤ q.addr))

pub Precedes-trans :
    (last : Option BusMasterId) (p q r : BusRequest)
    → Precedes last p q
    → Precedes last q r
    → Precedes last p r
Precedes-trans last p q r h k = omega arith

beats-Precedes :
    (last : Option BusMasterId) (cand cur : BusRequest)
    → beats last cand cur ≡ true
    → Precedes last cand cur
unfolding beats
beats-Precedes last cand cur h = ground arith

not_beats-Precedes :
    (last : Option BusMasterId) (cand cur : BusRequest)
    → beats last cand cur ≡ false
    → Precedes last cur cand
unfolding beats
not_beats-Precedes last cand cur h = ground arith

pub Precedes-refl : (last : Option BusMasterId) (r : BusRequest) → Precedes last r r
Precedes-refl last r = omega arith

-- The request at the index that the loop returns, and that it precedes all that the loop has seen.
abbrev pub Best : Option BusMasterId → List BusRequest → ℕ → BusRequest → List BusRequest → Type 0
Best last all k cur rest =
    (r : BusRequest) × (get_elem? all k ≡ some r) × Precedes last r cur × All (Precedes last r) rest

pub pick_from-Best :
    (last : Option BusMasterId) (all : List BusRequest) (best : ℕ) (cur : BusRequest) (i : ℕ)
    (rest : List BusRequest)
    → get_elem? all best ≡ some cur
    → ((j : ℕ) → get_elem? all (i + j) ≡ get_elem? rest j)
    → Best last all (pick_from last best cur i rest) cur rest
unfolding pick_from
pick_from-Best last all best cur i [] h k = (cur, h, Precedes-refl last cur, tt)
pick_from-Best last all best cur i (cand ∷ rest) h k = elim (Bool-cases (beats last cand cur)) [
  | inl e ↦ rw e (
      let (r, at, first, others) =
        pick_from-Best last all i cand (suc i) rest
          (subst (λ (m : ℕ). get_elem? all m ≡ some cand) (omega arith) (k 0))
          (λ j. subst (λ (m : ℕ). get_elem? all m ≡ get_elem? rest j) (omega arith) (k (suc j))) in
      (
        r,
        at,
        Precedes-trans last r cand cur first (beats-Precedes last cand cur e),
        (first, others),
      ))
  | inr e ↦ rw e (
      let (r, at, first, others) =
        pick_from-Best last all best cur (suc i) rest h
          (λ j. subst (λ (m : ℕ). get_elem? all m ≡ get_elem? rest j) (omega arith) (k (suc j))) in
      (
        r,
        at,
        first,
        (Precedes-trans last r cur cand first (not_beats-Precedes last cand cur e), others),
      ))
]
