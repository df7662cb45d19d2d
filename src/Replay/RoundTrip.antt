-- ===== src/Replay/RoundTrip.antt =====
-- tools/trace_replay/trace_replay.cpp: what `main` writes of a record, `parse_record` reads.
use saturnis.Base.{
  ℕ, zero, suc, ◌+◌, ◌*◌, ◌/◌, ◌%◌, ◌^◌, ◌≡◌, ◌≤◌, ◌<◌, refl, sym, ap, ◌∙◌, Option, none, some, [],
  ◌∷◌, ◌++◌, ltb, length, arith, inl, inr, All, All-append, Bool-cases, length-append, lt→ltb,
}
use mathlib.Core.List.{append_assoc, append-nil}
use saturnis.Replay.Text.{Text, decimal_digit, number_from, in_range, parse_u64}
use saturnis.Replay.Print.{decimal_digits, decimal}
use saturnis.Replay.Spans.{IsDigits}

abbrev pow10 : ℕ → ℕ
pow10 zero = 10
pow10 (suc k) = 10 * pow10 k

decimal_digit-code : (d : ℕ) → d < 10 → decimal_digit (b'0' + d) ≡ some d
decimal_digit-code d h = ground arith

number_from-digit :
    (d acc : ℕ) (rest : Text)
    → d < 10
    → number_from decimal_digit 10 ((b'0' + d) ∷ rest) acc
      ≡ number_from decimal_digit 10 rest (acc * 10 + d)
unfolding number_from
number_from-digit d acc rest h =
    ap
      (λ (o : Option ℕ). elim o [
        | none ↦ none
        | some d ↦ number_from decimal_digit 10 rest (acc * 10 + d)
      ])
      (decimal_digit-code d h)

-- The digits of a number are read as the number.
number_from-decimal_digits :
    (k n : ℕ) (rest : Text)
    → n < pow10 k
    → number_from decimal_digit 10 (decimal_digits k n ++ rest) 0
      ≡ number_from decimal_digit 10 rest n
unfolding decimal_digits
number_from-decimal_digits zero n rest h =
    number_from-digit (n % 10) 0 rest (omega arith)
    ∙ ap (λ (m : ℕ). number_from decimal_digit 10 rest m) (omega arith)
number_from-decimal_digits (suc k) n rest h = elim (Bool-cases (ltb n 10)) [
  | inl small ↦ rw small (
      number_from-digit (n % 10) 0 rest (omega arith)
      ∙ ap (λ (m : ℕ). number_from decimal_digit 10 rest m) (ground arith))
  | inr large ↦ rw large (
      ap (λ (s : Text). number_from decimal_digit 10 s 0)
        (append_assoc (decimal_digits k (n / 10)) ((b'0' + n % 10) ∷ []) rest)
      ∙ number_from-decimal_digits k (n / 10) ((b'0' + n % 10) ∷ rest) (omega arith)
      ∙ number_from-digit (n % 10) (n / 10) rest (omega arith)
      ∙ ap (λ (m : ℕ). number_from decimal_digit 10 rest m) (omega arith))
]

abbrev IsDigit : ℕ → Type 0
IsDigit d = (b'0' ≤ d) × (d ≤ b'9')

decimal_digits-All : (k n : ℕ) → All IsDigit (decimal_digits k n)
unfolding decimal_digits
decimal_digits-All zero n = ground arith
decimal_digits-All (suc k) n = elim (Bool-cases (ltb n 10)) [
  | inl small ↦ rw small (ground arith)
  | inr large ↦ rw large (
      All-append IsDigit (decimal_digits k (n / 10)) ((b'0' + n % 10) ∷ [])
        (decimal_digits-All k (n / 10)) (ground arith))
]

decimal_digits-ne : (k n : ℕ) → 0 < length (decimal_digits k n)
unfolding decimal_digits
decimal_digits-ne zero n = omega arith
decimal_digits-ne (suc k) n = elim (Bool-cases (ltb n 10)) [
  | inl small ↦ rw small (omega arith)
  | inr large ↦
      rw large (omega (arith, length-append {0} (decimal_digits k (n / 10)) ((b'0' + n % 10) ∷ [])))
]

IsDigits-of : (s : Text) → 0 < length s → All IsDigit s → IsDigits s
IsDigits-of [] h a = absurd (omega arith)
IsDigits-of (c ∷ s) h a = a

pub decimal-IsDigits : (n : ℕ) → IsDigits (decimal n)
decimal-IsDigits n = IsDigits-of (decimal n) (decimal_digits-ne 19 n) (decimal_digits-All 19 n)

from_chars-ne :
    (s : Text) (n : ℕ)
    → 0 < length s
    → number_from decimal_digit 10 s 0 ≡ some n
    → n < 2 ^ 64
    → parse_u64 s ≡ some n
unfolding parse_u64
from_chars-ne [] n h e low = absurd (omega arith)
from_chars-ne (c ∷ s) n h e low = ap (in_range (2 ^ 64)) e ∙ rw (lt→ltb n (2 ^ 64) low) refl

-- An unsigned integer of 64 bits that is written is read as itself.
pub parse_u64-decimal : (n : ℕ) → n < 2 ^ 64 → parse_u64 (decimal n) ≡ some n
unfolding number_from
parse_u64-decimal n low =
    from_chars-ne (decimal n) n (decimal_digits-ne 19 n)
      (ap (λ (s : Text). number_from decimal_digit 10 s 0) (sym (append-nil (decimal n)))
        ∙ number_from-decimal_digits 19 n [] (omega arith))
      low
