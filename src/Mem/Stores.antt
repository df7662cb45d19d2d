-- ===== src/Mem/Stores.antt =====
-- StoreBuffer of src/mem/memory.cpp: which store a load is forwarded from, and which entry leaves.
use mathlib.Core.List.{reverse-append}
use saturnis.Base.{
  ℕ, ◌≡◌, ◌≢◌, refl, ap, ◌⊎◌, inl, inr, true, false, ◌&&◌, Option, none, some, List, [], ◌∷◌, ◌++◌,
  arith, All, ◌==◌, if◌then◌else◌, Bool-cases, Option-cases,
}
use saturnis.Mem.{StoreEntry, StoreBuffer, push, forward, forward_in, retire, retire_in}

-- A load takes the value of the newest store of its address and size: the one just pushed, if it is of
-- them, and otherwise the one that it would have taken before.
pub forward-push :
    (b : StoreBuffer) (e : StoreEntry) (phys size : ℕ)
    → forward (push b e) phys size
      ≡ (if e.phys == phys && e.size == size then some e.value else forward b phys size)
unfolding forward push forward_in
forward-push b e phys size = ap (λ es. forward_in es phys size) (reverse-append b.entries (e ∷ []))

-- What an entry's leaving means: the first entry of the id goes, and the others stay in their order.
pub record Leaves (es : List StoreEntry) (id : ℕ) (rest : List StoreEntry) : Type 0 where
  pub before : List StoreEntry
  pub entry : StoreEntry
  pub after : List StoreEntry
  pub was : es ≡ before ++ entry ∷ after
  pub is : rest ≡ before ++ after
  pub id_matches : entry.store_id ≡ id
  pub first : All (λ e. e.store_id ≢ id) before

abbrev Retires : List StoreEntry → ℕ → Option (List StoreEntry) → Type 0
Retires es id none = All (λ e. e.store_id ≢ id) es
Retires es id (some rest) = Leaves es id rest

retire_in-none :
    (es : List StoreEntry) (id : ℕ) → retire_in es id ≡ none → All (λ e. e.store_id ≢ id) es
unfolding retire_in
retire_in-none [] id h = tt
retire_in-none (e ∷ es) id h = (ground arith, retire_in-none es id (ground arith))

retire_in-some :
    (es rest : List StoreEntry) (id : ℕ) → retire_in es id ≡ some rest → Leaves es id rest
unfolding retire_in
retire_in-some [] rest id h = absurd (cc)
retire_in-some (e ∷ es) rest id h = elim (Bool-cases (e.store_id == id)) [
  | inl same ↦ record {
    before = [];
    entry = e;
    after = es;
    was = refl;
    is = ground arith;
    id_matches = ground arith;
    first = tt;
  }
  | inr other ↦ elim (Option-cases (retire_in es id)) [
    | inl absent ↦ absurd (ground arith)
    | inr (r, found) ↦
        let l = retire_in-some es r id found in
        record {
          before = e ∷ l.before;
          entry = l.entry;
          after = l.after;
          was = ap (λ xs. e ∷ xs) l.was;
          is = ground (arith, l.is);
          id_matches = l.id_matches;
          first = (ground arith, l.first);
        }
  ]
]

-- `retire` reports whether an entry of the id was there: if so the oldest such entry leaves and the
-- others stay in order, and if not the buffer stays as it was.
pub retire_lem :
    (b : StoreBuffer) (id : ℕ)
    → (((retire b id).1 ≡ true) × Leaves b.entries id (retire b id).0.entries)
      ⊎ (((retire b id).1 ≡ false) × ((retire b id).0 ≡ b) × All (λ e. e.store_id ≢ id) b.entries)
unfolding retire
retire_lem b id = elim (Option-cases (retire_in b.entries id)) [
  | inl e ↦ inr (rw (e, retire), rw (e, retire), retire_in-none b.entries id e)
  | inr (rest, e) ↦ inl (rw (e, retire), rw (e, retire) (retire_in-some b.entries rest id e))
]
