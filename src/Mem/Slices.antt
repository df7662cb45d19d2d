-- ===== src/Mem/Slices.antt =====
-- Slices and stores byte by byte: the lemmas that tie a cache line to its block of memory.
use saturnis.Base.{
  ℕ, suc, ◌+◌, ◌-◌, ◌*◌, ◌/◌, ◌%◌, ◌^◌, ◌≤◌, ◌<◌, ◌≡◌, refl, sym, ◌∙◌, ap, ◌⊎◌, inl, inr, List, [],
  ◌∷◌, arith, length, get_or, dec_lt,
}
use saturnis.Mem.Bytes.{
  store, slice, length-store, length-slice, get_or-slice, get_or-store_outside, word_at-store,
  word_at-one,
}

pub eq_of_get_or :
    (xs ys : List ℕ)
    → length xs ≡ length ys
    → ((i : ℕ) → i < length xs → get_or xs i 0 ≡ get_or ys i 0)
    → xs ≡ ys
eq_of_get_or [] [] e h = refl
eq_of_get_or [] (y ∷ ys) e h = absurd (omega arith)
eq_of_get_or (x ∷ xs) [] e h = absurd (omega arith)
eq_of_get_or (x ∷ xs) (y ∷ ys) e h =
    rw (h 0 (omega arith), eq_of_get_or xs ys (omega arith) (λ i k. h (suc i) (omega arith)))

-- The byte at place i of what a store puts in its range.
pub get_or-store :
    (bytes : List ℕ) (at n v i : ℕ)
    → at + n ≤ length bytes
    → n ≤ 4
    → i < n
    → get_or (store bytes at n v) (at + i) 0 ≡ v / 2 ^ (8 * (n - i - 1)) % 256
get_or-store bytes at n v i h k l =
    sym (word_at-one (store bytes at n v) (at + i))
    ∙ word_at-store bytes at n v i 1 h k (omega arith)

place : (j i s : ℕ) → ((j < i) ⊎ (i + s ≤ j)) ⊎ ((i ≤ j) × (j < i + s))
place j i s = elim (dec_lt j i) [
  | yes a ↦ inl (inl a)
  | no a ↦ elim (dec_lt j (i + s)) [ yes b ↦ inr (omega arith, b) | no b ↦ inl (inr (omega arith)) ]
]

module _ (bytes : List ℕ) (at n : ℕ) (inside : at + n ≤ length bytes) where
  -- A store inside a slice is the slice of the store.
  pub slice-store :
      (i s v : ℕ)
      → i + s ≤ n
      → s ≤ 4
      → slice (store bytes (at + i) s v) at n ≡ store (slice bytes at n) i s v
  slice-store i s v h k =
      eq_of_get_or _ _
        (length-slice _ at n
          ∙ sym (length-store (slice bytes at n) i s v ∙ length-slice bytes at n))
        (λ j l. same j (omega (arith, length-slice (store bytes (at + i) s v) at n)))
    where
      shifted : (j : ℕ) → (j < i) ⊎ (i + s ≤ j) → (at + j < at + i) ⊎ (at + i + s ≤ at + j)
      shifted j (inl a) = inl (omega arith)
      shifted j (inr a) = inr (omega arith)

      same :
          (j : ℕ)
          → j < n
          → get_or (slice (store bytes (at + i) s v) at n) j 0
            ≡ get_or (store (slice bytes at n) i s v) j 0
      same j l = elim (place j i s) [
        | inl out ↦
            get_or-slice (store bytes (at + i) s v) at n j l
            ∙ get_or-store_outside bytes (at + i) s v (at + j) (shifted j out)
            ∙ sym (get_or-slice bytes at n j l)
            ∙ sym (get_or-store_outside (slice bytes at n) i s v j out)
        | inr (low, high) ↦
            let e : at + j ≡ at + i + (j - i) = omega arith in
            let f : j ≡ i + (j - i) = omega arith in
            get_or-slice (store bytes (at + i) s v) at n j l
            ∙ ap (λ (t : ℕ). get_or (store bytes (at + i) s v) t 0) e
            ∙ get_or-store bytes (at + i) s v (j - i) (omega arith) k (omega arith)
            ∙ sym (
                get_or-store (slice bytes at n) i s v (j - i)
                  (omega (arith, length-slice bytes at n)) k (omega arith))
            ∙ sym (ap (λ (t : ℕ). get_or (store (slice bytes at n) i s v) t 0) f)
      ]

  -- A store outside a slice leaves it alone.
  pub slice-store_outside :
      (p s v : ℕ) → (p + s ≤ at) ⊎ (at + n ≤ p) → slice (store bytes p s v) at n ≡ slice bytes at n
  slice-store_outside p s v h =
      eq_of_get_or _ _ (length-slice _ at n ∙ sym (length-slice bytes at n))
        (λ j l. same j (omega (arith, length-slice (store bytes p s v) at n)))
    where
      same :
          (j : ℕ)
          → j < n
          → get_or (slice (store bytes p s v) at n) j 0 ≡ get_or (slice bytes at n) j 0
      same j l =
          get_or-slice (store bytes p s v) at n j l
          ∙ get_or-store_outside bytes p s v (at + j) (omega arith)
          ∙ sym (get_or-slice bytes at n j l)
