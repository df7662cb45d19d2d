-- ===== src/Decode/Families.antt =====
-- src/cpu/sh2_decode.cpp: no instruction word belongs to two families.
use saturnis.Base.{
  ℕ, Bool, true, false, not, ◌&&◌, ◌<◌, ◌≡◌, inl, inr, refl, sym, ap, ◌∙◌, Option, none, some, List,
  [], ◌∷◌, bit_and, ◌==◌, arith, Bool-cases, ◌^◌, ==_iff,
}
use saturnis.Base.Bits.{test_bit-bit_and, eq_of_test_bit, bit_and-le_left}
use saturnis.Decode.{
  Family, OpcodePattern, patterns, matches, family_in, decode_family, count_in, decode_match_count,
}

-- 1 for a family, 0 for none.
abbrev pub is_some : Option Family → ℕ
is_some none = 0
is_some (some f) = 1

-- The bits that both masks fix differ.
abbrev apart : OpcodePattern → OpcodePattern → Bool
apart p q = not (bit_and p.value q.mask == bit_and q.value p.mask)

apart_from : OpcodePattern → List OpcodePattern → Bool
apart_from p [] = true
apart_from p (q ∷ rest) = apart p q && apart_from p rest

all_apart : List OpcodePattern → Bool
all_apart [] = true
all_apart (p ∷ rest) = apart_from p rest && all_apart rest

pub bit_and_assoc : (x a b : ℕ) → x < 2 ^ 16 → bit_and (bit_and x a) b ≡ bit_and x (bit_and a b)
bit_and_assoc x a b h =
    eq_of_test_bit 16 (bit_and (bit_and x a) b) (bit_and x (bit_and a b))
      (omega (arith, bit_and-le_left x a, bit_and-le_left (bit_and x a) b))
      (omega (arith, bit_and-le_left x (bit_and a b)))
      (λ i k. ground (
        arith,
        test_bit-bit_and (bit_and x a) b i,
        test_bit-bit_and x a i,
        test_bit-bit_and x (bit_and a b) i,
        test_bit-bit_and a b i,
      ))

pub bit_and-swap : (x a b : ℕ) → x < 2 ^ 16 → bit_and (bit_and x a) b ≡ bit_and (bit_and x b) a
bit_and-swap x a b h =
    eq_of_test_bit 16 (bit_and (bit_and x a) b) (bit_and (bit_and x b) a)
      (omega (arith, bit_and-le_left x a, bit_and-le_left (bit_and x a) b))
      (omega (arith, bit_and-le_left x b, bit_and-le_left (bit_and x b) a))
      (λ i k. ground (
        arith,
        test_bit-bit_and (bit_and x a) b i,
        test_bit-bit_and x a i,
        test_bit-bit_and (bit_and x b) a i,
        test_bit-bit_and x b i,
      ))

not_both :
    (p q : OpcodePattern) (instr : ℕ)
    → instr < 2 ^ 16
    → apart p q ≡ true
    → matches p instr ≡ true
    → matches q instr ≡ false
not_both p q instr h d m = elim (Bool-cases (matches q instr)) [
  | inl n ↦
      let mp : bit_and instr p.mask ≡ p.value = (==_iff (bit_and instr p.mask) p.value).0 m in
      let mq : bit_and instr q.mask ≡ q.value = (==_iff (bit_and instr q.mask) q.value).0 n in
      let e : bit_and p.value q.mask ≡ bit_and q.value p.mask =
        ap (λ (v : ℕ). bit_and v q.mask) (sym mp)
        ∙ bit_and-swap instr p.mask q.mask h
        ∙ ap (λ (v : ℕ). bit_and v p.mask) mq in
      absurd (ground (arith, e))
  | inr n ↦ n
]

count_in-apart :
    (p : OpcodePattern) (rest : List OpcodePattern) (instr : ℕ)
    → instr < 2 ^ 16
    → apart_from p rest ≡ true
    → matches p instr ≡ true
    → count_in rest instr ≡ 0
unfolding count_in apart_from
count_in-apart p [] instr h d m = refl
count_in-apart p (q ∷ rest) instr h d m =
    ground
      (arith, not_both p q instr h (ground arith) m, count_in-apart p rest instr h (ground arith) m)

count_in-family_in :
    (ps : List OpcodePattern) (instr : ℕ)
    → instr < 2 ^ 16
    → all_apart ps ≡ true
    → count_in ps instr ≡ is_some (family_in ps instr)
unfolding count_in family_in all_apart
count_in-family_in [] instr h d = refl
count_in-family_in (p ∷ rest) instr h d = elim (Bool-cases (matches p instr)) [
  | inl m ↦ rw (m, count_in-apart p rest instr h (ground arith) m) refl
  | inr m ↦ rw (m, count_in-family_in rest instr h (ground arith)) (omega arith)
]

patterns_apart : all_apart patterns ≡ true
unfolding all_apart apart_from patterns
patterns_apart = refl

-- Every 16-bit instruction word matches one pattern if `decode_family` finds a family for it, and none
-- otherwise: no word belongs to two families, so the order of the patterns does not matter.
pub decode_match_count-decode_family :
    (instr : ℕ) → instr < 2 ^ 16 → decode_match_count instr ≡ is_some (decode_family instr)
unfolding decode_match_count decode_family
decode_match_count-decode_family instr h = count_in-family_in patterns instr h patterns_apart
