-- ===== src/Bus/Pick.antt =====
-- `pick_next` of src/bus/bus_arbiter.cpp: which of the committable operations goes first.
use mathlib.Core.List.{Memᴰ}
use saturnis.Base.{
  ℕ, Bool, true, false, ◌≤◌, ◌≡◌, refl, List, [], ◌∷◌, All, arith, ltb, inl, inr, sym, subst,
  Bool-cases, ◌==◌, ◌&&◌, ◌||◌,
}
use saturnis.Bus.{BusArbiter, CommitResult}
use saturnis.Bus.Batch.{op_at, earliest, beats, pick_from, pick_next}

-- An index is among those offered, and no other can start earlier.
pub record IsEarliest (a : BusArbiter) (pending : List CommitResult) (offered : List ℕ) (best : ℕ)
    : Type 0 where
  pub offered_index : Memᴰ best offered
  pub first : All (λ i. earliest a (op_at pending best) ≤ earliest a (op_at pending i)) offered

abbrev wins : BusArbiter → List CommitResult → ℕ → ℕ → ℕ → Bool
wins a pending best best_start i =
    ltb (earliest a (op_at pending i)) best_start
    || (earliest a (op_at pending i) == best_start
        && beats a (op_at pending i) (op_at pending best))

pick_from-wins :
    (a : BusArbiter) (pending : List CommitResult) (best best_start i : ℕ) (idxs : List ℕ)
    → wins a pending best best_start i ≡ true
    → pick_from a pending best best_start (i ∷ idxs)
      ≡ pick_from a pending i (earliest a (op_at pending i)) idxs
unfolding pick_from
pick_from-wins a pending best s i idxs w = rw w refl

pick_from-loses :
    (a : BusArbiter) (pending : List CommitResult) (best best_start i : ℕ) (idxs : List ℕ)
    → wins a pending best best_start i ≡ false
    → pick_from a pending best best_start (i ∷ idxs) ≡ pick_from a pending best best_start idxs
unfolding pick_from
pick_from-loses a pending best s i idxs w = rw w refl

pick_from-IsEarliest :
    (a : BusArbiter) (pending : List CommitResult) (idxs : List ℕ) (best best_start : ℕ)
    → best_start ≡ earliest a (op_at pending best)
    → IsEarliest a pending (best ∷ idxs) (pick_from a pending best best_start idxs)
unfolding pick_from
pick_from-IsEarliest a pending [] best s e = record {
  offered_index = Memᴰ.head refl;
  first = (omega arith, tt);
}
pick_from-IsEarliest a pending (i ∷ idxs) best s e = elim (Bool-cases (wins a pending best s i)) [
  | inl w ↦
      let rest = pick_from-IsEarliest a pending idxs i (earliest a (op_at pending i)) refl in
      subst (IsEarliest a pending (best ∷ i ∷ idxs))
        (sym (pick_from-wins a pending best s i idxs w))
        (record {
          offered_index = Memᴰ.tail rest.offered_index;
          first = (ground (arith, rest.first.0), rest.first);
        })
  | inr w ↦
      let rest = pick_from-IsEarliest a pending idxs best s e in
      subst (IsEarliest a pending (best ∷ i ∷ idxs))
        (sym (pick_from-loses a pending best s i idxs w))
        (record {
          offered_index = behind rest.offered_index;
          first = (rest.first.0, (ground (arith, rest.first.0), rest.first.1));
        })
]
  where
    behind : {x : ℕ} → Memᴰ x (best ∷ idxs) → Memᴰ x (best ∷ i ∷ idxs)
    behind (Memᴰ.head q) = Memᴰ.head q
    behind (Memᴰ.tail m) = Memᴰ.tail (Memᴰ.tail m)

-- The operation picked is one of those offered, and none of the others could start earlier.
pub pick_next-IsEarliest :
    (a : BusArbiter) (pending : List CommitResult) (first : ℕ) (rest : List ℕ)
    → IsEarliest a pending (first ∷ rest) (pick_next a pending first rest)
unfolding pick_next
pick_next-IsEarliest a pending first rest =
    let found =
      pick_from-IsEarliest a pending (first ∷ rest) first (earliest a (op_at pending first)) refl in
    record { offered_index = dedupe found.offered_index; first = found.first.1 }
  where
    dedupe : {x : ℕ} → Memᴰ x (first ∷ first ∷ rest) → Memᴰ x (first ∷ rest)
    dedupe (Memᴰ.head q) = Memᴰ.head q
    dedupe (Memᴰ.tail m) = m
