-- ===== src/Base/Bits/Step.antt =====
-- The operators on the lowest digit and on the rest, from the recursion that the native operations
-- stand for.
use Prim.Native.Nat.{
  ℕ, zero, suc, ◌+◌, ◌*◌, ◌/◌, ◌%◌, ◌≤◌, ◌<◌, min, max, differ, digits, bit_and, bit_or, bit_xor,
  bit_and-bitwise, bit_or-bitwise, bit_xor-bitwise,
}
use mathlib.Core.Path.{◌≡◌, refl}
use native.Mathlib.Omega.{arith}

-- Fuel beyond the digits of the first number makes no difference.
enough_digits :
    (at_zero : ℕ → ℕ) (on_digit : ℕ → ℕ → ℕ) (k l x y : ℕ)
    → x ≤ k
    → x ≤ l
    → digits at_zero on_digit k x y ≡ digits at_zero on_digit l x y
enough_digits at_zero on_digit zero zero x y hk hl = refl
enough_digits at_zero on_digit zero (suc l) zero y hk hl = refl
enough_digits at_zero on_digit zero (suc l) (suc x) y hk hl = absurd (omega arith)
enough_digits at_zero on_digit (suc k) zero zero y hk hl = refl
enough_digits at_zero on_digit (suc k) zero (suc x) y hk hl = absurd (omega arith)
enough_digits at_zero on_digit (suc k) (suc l) zero y hk hl = refl
enough_digits at_zero on_digit (suc k) (suc l) (suc x) y hk hl =
    omega
      (arith, enough_digits at_zero on_digit k l (suc x / 2) (y / 2) (omega arith) (omega arith))

-- An operator given by that recursion works on the halves and on the last digits.
by_halves :
    (op : ℕ → ℕ → ℕ) (at_zero : ℕ → ℕ) (on_digit : ℕ → ℕ → ℕ)
    → ((x y : ℕ) → op x y ≡ digits at_zero on_digit x x y)
    → ((y : ℕ) → at_zero y ≡ at_zero (y / 2) * 2 + on_digit 0 (y % 2))
    → (x y : ℕ) → op x y ≡ op (x / 2) (y / 2) * 2 + on_digit (x % 2) (y % 2)
by_halves op at_zero on_digit is start zero y = omega (arith, is 0 y, is 0 (y / 2), start y)
by_halves op at_zero on_digit is start (suc x) y =
    let same =
      enough_digits at_zero on_digit x (suc x / 2) (suc x / 2) (y / 2) (omega arith)
        (omega arith) in
    omega (arith, is (suc x) y, is (suc x / 2) (y / 2), same)

pub zero-bit_and : (y : ℕ) → bit_and 0 y ≡ 0
zero-bit_and = bit_and-bitwise 0

pub zero-bit_or : (y : ℕ) → bit_or 0 y ≡ y
zero-bit_or = bit_or-bitwise 0

pub zero-bit_xor : (y : ℕ) → bit_xor 0 y ≡ y
zero-bit_xor = bit_xor-bitwise 0

pub bit_and_step : (x y : ℕ) → bit_and x y ≡ bit_and (x / 2) (y / 2) * 2 + min (x % 2) (y % 2)
bit_and_step = by_halves bit_and (λ y. 0) min bit_and-bitwise (λ y. omega arith)

pub bit_or_step : (x y : ℕ) → bit_or x y ≡ bit_or (x / 2) (y / 2) * 2 + max (x % 2) (y % 2)
bit_or_step = by_halves bit_or (λ y. y) max bit_or-bitwise (λ y. omega arith)

differ-zero : (d : ℕ) → d < 2 → differ 0 d ≡ d
differ-zero d h = refl

pub bit_xor_step : (x y : ℕ) → bit_xor x y ≡ bit_xor (x / 2) (y / 2) * 2 + differ (x % 2) (y % 2)
bit_xor_step =
    by_halves bit_xor (λ y. y) differ bit_xor-bitwise
      (λ y. omega (arith, differ-zero (y % 2) (omega arith)))
