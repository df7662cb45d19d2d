-- ===== src/Busarb/Winner.antt =====
-- What `pick_winner` of src/busarb/busarb.cpp selects.
use mathlib.Core.List.{Memᴰ}
use saturnis.Base.{
  ℕ, suc, ◌+◌, subst, Bool, Option, ◌<◌, ◌≡◌, ◌≢◌, ◌↔◌, refl, true, false, some, arith, List, [],
  ◌∷◌, All, get_elem?, All-mem, mem-get_elem?,
}
use saturnis.Busarb.{
  BusMasterId, dma, BusRequest, Arbiter, is_cpu, commit_grant, pick_winner, pick_from, beats,
}
use saturnis.Busarb.Order.{rank, Precedes, pick_from-Best}

-- The request at the index that `pick_winner` returns.
abbrev pub Wins : Arbiter → List BusRequest → BusRequest → Type 0
Wins a reqs w = (i : ℕ) × (pick_winner a reqs ≡ some i) × (get_elem? reqs i ≡ some w)

-- A winner is found whenever there is a request, and it comes first in the order of rank and address.
pub pick_winner-Precedes :
    (a : Arbiter) (q : BusRequest) (qs : List BusRequest)
    → (w : BusRequest) × Wins a (q ∷ qs) w × All (Precedes a.last_granted_cpu w) (q ∷ qs)
unfolding pick_winner
pick_winner-Precedes a q qs =
    let (w, at, first, others) =
      pick_from-Best a.last_granted_cpu (q ∷ qs) 0 q 1 qs refl (λ j. rw one-add refl) in
    (w, (pick_from a.last_granted_cpu 0 q 1 qs, refl, at), (first, others))
  where
    one-add : (j : ℕ) → 1 + j ≡ suc j
    one-add j = omega arith

same_winner :
    (a : Arbiter) (reqs : List BusRequest) (v w : BusRequest)
    → Wins a reqs v
    → Wins a reqs w
    → v ≡ w
same_winner a reqs v w (i, p, g) (j, q, h) =
    let e : i ≡ j = cc in let f : get_elem? reqs i ≡ some w = rw e h in cc

Wins-Precedes :
    (a : Arbiter) (reqs : List BusRequest) (w : BusRequest)
    → Wins a reqs w
    → All (Precedes a.last_granted_cpu w) reqs
Wins-Precedes a [] w h = tt
Wins-Precedes a (q ∷ qs) w h =
    let (v, found, order) = pick_winner-Precedes a q qs in
    subst (λ x. All (Precedes a.last_granted_cpu x) (q ∷ qs)) (same_winner a (q ∷ qs) v w found h)
      order

rank-injective : (last : Option BusMasterId) (m n : BusMasterId) → rank last m ≡ rank last n → m ≡ n
rank-injective last m n h = ground arith

-- The master that wins, and the address, do not depend on the order in which the requests are given:
-- two lists with the same requests have winners with the same master and address.
pub pick_winner_unordered :
    (a : Arbiter) (xs ys : List BusRequest) (v w : BusRequest)
    → ((r : BusRequest) → Memᴰ r xs ↔ Memᴰ r ys)
    → Wins a xs v
    → Wins a ys w
    → (v.master_id ≡ w.master_id) × (v.addr ≡ w.addr)
pick_winner_unordered a xs ys v w same hv hw =
    let last = a.last_granted_cpu in
    let vw : Precedes last v w =
      All-mem (Precedes last v) xs (Wins-Precedes a xs v hv)
        ((same w).1 (mem-get_elem? ys hw.0 hw.2)) in
    let wv : Precedes last w v =
      All-mem (Precedes last w) ys (Wins-Precedes a ys w hw)
        ((same v).0 (mem-get_elem? xs hv.0 hv.2)) in
    (rank-injective last v.master_id w.master_id (omega arith), omega arith)

-- No CPU is granted twice in a row while the other waits: after a grant to a CPU, a request of the
-- other CPU among requests without DMA makes that other CPU the winner.
pub pick_winner_alternates :
    (a : Arbiter) (r other : BusRequest) (tick : ℕ) (had_tie : Bool) (reqs : List BusRequest)
    (w : BusRequest)
    → is_cpu r.master_id ≡ true
    → All (λ q. is_cpu q.master_id ≡ true) reqs
    → Memᴰ other reqs
    → other.master_id ≢ r.master_id
    → Wins (commit_grant a r tick had_tie) reqs w
    → w.master_id ≡ other.master_id
unfolding commit_grant
pick_winner_alternates a r other tick had_tie reqs w cpu cpus m ne h =
    let b = commit_grant a r tick had_tie in
    let first : Precedes b.last_granted_cpu w other =
      All-mem (Precedes b.last_granted_cpu w) reqs (Wins-Precedes b reqs w h) m in
    let cw : is_cpu w.master_id ≡ true =
      All-mem (λ q. is_cpu q.master_id ≡ true) reqs cpus (mem-get_elem? reqs h.0 h.2) in
    let co : is_cpu other.master_id ≡ true = All-mem (λ q. is_cpu q.master_id ≡ true) reqs cpus m in
    ground arith

-- DMA wins whenever it asks.
pub pick_winner_dma :
    (a : Arbiter) (d w : BusRequest) (reqs : List BusRequest)
    → d.master_id ≡ dma
    → Memᴰ d reqs
    → Wins a reqs w
    → w.master_id ≡ dma
pick_winner_dma a d w reqs e m h =
    let first : Precedes a.last_granted_cpu w d =
      All-mem (Precedes a.last_granted_cpu w) reqs (Wins-Precedes a reqs w h) m in
    ground arith

-- Between a write and a smaller read of one master at one address the later in the list wins,
-- whichever it is.
pub pick_winner_write_read :
    (a : Arbiter) (wr rd : BusRequest)
    → wr.master_id ≡ rd.master_id
    → wr.addr ≡ rd.addr
    → wr.is_write ≡ true
    → rd.is_write ≡ false
    → rd.size_bytes < wr.size_bytes
    → (pick_winner a (wr ∷ rd ∷ []) ≡ some 1) × (pick_winner a (rd ∷ wr ∷ []) ≡ some 1)
unfolding pick_winner pick_from beats
pick_winner_write_read a wr rd m e w r s = ground arith
