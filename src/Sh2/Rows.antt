-- ===== src/Sh2/Rows.antt =====
-- A chain of tests `if ((instr & mask) == value) ... else if ...`, as a table whose first row that matches is
-- taken; and tables in which at most one row matches.
use mathlib.Core.List.{Memᴰ}
use saturnis.Base.{
  ℕ, Bool, true, false, not, ◌&&◌, ◌<◌, ◌≡◌, inl, inr, refl, sym, ap, ◌∙◌, Option, none, some, List,
  [], ◌∷◌, ◌++◌, zero, suc, get_elem?, bit_and, ◌==◌, arith, Bool-cases, subst, ◌^◌, ==_iff,
  if◌then◌else◌,
}
use saturnis.Decode.Families.{bit_and-swap, bit_and_assoc}

pub record Row {ℓ} (A : Type ℓ) : Type ℓ where
  pub mask : ℕ
  pub value : ℕ
  pub action : A

module _ {ℓ} {A : Type ℓ} where
  abbrev pub row : ℕ → ℕ → A → Row A
  row mask value action = record { mask = mask; value = value; action = action }

  abbrev pub fits : Row A → ℕ → Bool
  fits p instr = bit_and instr p.mask == p.value

  unfoldable pub first_fit : List (Row A) → ℕ → Option A
  first_fit [] instr = none
  first_fit (p ∷ rest) instr = if fits p instr then some p.action else first_fit rest instr

  -- The bits that both masks fix differ.
  abbrev differ_in : Row A → Row A → Bool
  differ_in p q = not (bit_and p.value q.mask == bit_and q.value p.mask)

  unfoldable pub differs_from : Row A → List (Row A) → Bool
  differs_from p [] = true
  differs_from p (q ∷ rest) = differ_in p q && differs_from p rest

  unfoldable pub all_differ : List (Row A) → Bool
  unfolding differs_from
  all_differ [] = true
  all_differ (p ∷ rest) = differs_from p rest && all_differ rest

  not_both :
      (p q : Row A) (instr : ℕ)
      → instr < 2 ^ 16
      → differ_in p q ≡ true
      → fits q instr ≡ true
      → fits p instr ≡ false
  not_both p q instr h d m = elim (Bool-cases (fits p instr)) [
    | inl n ↦
        let mq : bit_and instr q.mask ≡ q.value = (==_iff (bit_and instr q.mask) q.value).0 m in
        let mp : bit_and instr p.mask ≡ p.value = (==_iff (bit_and instr p.mask) p.value).0 n in
        let e : bit_and p.value q.mask ≡ bit_and q.value p.mask =
          ap (λ (v : ℕ). bit_and v q.mask) (sym mp)
          ∙ bit_and-swap instr p.mask q.mask h
          ∙ ap (λ (v : ℕ). bit_and v p.mask) mq in
        absurd (ground (arith, e))
    | inr n ↦ n
  ]

  earlier_row :
      (p q : Row A) (rest : List (Row A)) (instr : ℕ)
      → instr < 2 ^ 16
      → differs_from p rest ≡ true
      → Memᴰ q rest
      → fits q instr ≡ true
      → fits p instr ≡ false
  unfolding differs_from
  earlier_row p q [] instr h d n m = elim n [ ]
  earlier_row p q (s ∷ rest) instr h d (Memᴰ.head e) m =
      not_both p q instr h (subst (λ (x : Row A). differ_in p x ≡ true) (sym e) (ground arith)) m
  earlier_row p q (s ∷ rest) instr h d (Memᴰ.tail n) m =
      earlier_row p q rest instr h (ground arith) n m

  -- In such a table the place of a row does not matter.
  pub first_fit-mem :
      (table : List (Row A)) (q : Row A) (instr : ℕ)
      → instr < 2 ^ 16
      → all_differ table ≡ true
      → Memᴰ q table
      → fits q instr ≡ true
      → first_fit table instr ≡ some q.action
  unfolding first_fit all_differ
  first_fit-mem [] q instr h d n m = elim n [ ]
  first_fit-mem (p ∷ rest) q instr h d (Memᴰ.head e) m =
      let f : fits p instr ≡ true = subst (λ (x : Row A). fits x instr ≡ true) e m in
      rw f (ap (λ (x : Row A). some x.action) (sym e))
  first_fit-mem (p ∷ rest) q instr h d (Memᴰ.tail n) m =
      rw (earlier_row p q rest instr h (ground arith) n m)
        (first_fit-mem rest q instr h (ground arith) n m)

  differ_in-sym : (p q : Row A) → differ_in p q ≡ true → differ_in q p ≡ true
  differ_in-sym p q d = ground arith

  -- A word that fits a row, of this table or another, passes over rows that differ from it.
  pub first_fit-skip :
      (front back : List (Row A)) (q : Row A) (instr : ℕ)
      → instr < 2 ^ 16
      → differs_from q front ≡ true
      → fits q instr ≡ true
      → first_fit (front ++ back) instr ≡ first_fit back instr
  unfolding first_fit differs_from
  first_fit-skip [] back q instr h d f = refl
  first_fit-skip (p ∷ front) back q instr h d f =
      rw (not_both p q instr h (differ_in-sym q p (ground arith)) f)
        (first_fit-skip front back q instr h (ground arith) f)

  -- A row that fixes more than another does, to the same values.
  abbrev pub covers : Row A → Row A → Bool
  covers p q = (bit_and q.mask p.mask == p.mask) && (bit_and q.value p.mask == p.value)

  fits-covers :
      (p q : Row A) (instr : ℕ)
      → instr < 2 ^ 16
      → covers p q ≡ true
      → fits q instr ≡ true
      → fits p instr ≡ true
  fits-covers p q instr h o f =
      let mask : bit_and q.mask p.mask ≡ p.mask = ground arith in
      let value : bit_and q.value p.mask ≡ p.value = ground arith in
      let m : bit_and instr q.mask ≡ q.value = (==_iff (bit_and instr q.mask) q.value).0 f in
      (==_iff (bit_and instr p.mask) p.value).1 (
        ap (λ (v : ℕ). bit_and instr v) (sym mask)
        ∙ sym (bit_and_assoc instr q.mask p.mask h)
        ∙ ap (λ (v : ℕ). bit_and v p.mask) m
        ∙ value)

  -- The row at place `i` is the first that words of `q` fit, and they all fit it.
  unfoldable pub taken_by : Row A → List (Row A) → ℕ → Bool
  taken_by q [] i = false
  taken_by q (p ∷ rest) zero = covers p q
  taken_by q (p ∷ rest) (suc i) = differ_in q p && taken_by q rest i

  abbrev action_of : Option (Row A) → Option A
  action_of none = none
  action_of (some p) = some p.action

  pub first_fit-taken_by :
      (table : List (Row A)) (q p : Row A) (i instr : ℕ)
      → instr < 2 ^ 16
      → taken_by q table i ≡ true
      → get_elem? table i ≡ some p
      → fits q instr ≡ true
      → first_fit table instr ≡ some p.action
  unfolding first_fit taken_by
  first_fit-taken_by [] q p i instr h t g f = absurd (ground (arith, t))
  first_fit-taken_by (s ∷ rest) q p zero instr h t g f =
      rw (fits-covers s q instr h t f) (ap action_of g)
  first_fit-taken_by (s ∷ rest) q p (suc i) instr h t g f =
      rw (not_both s q instr h (differ_in-sym q s (ground arith)) f)
        (first_fit-taken_by rest q p i instr h (ground arith) g f)
