-- ===== src/Base/Bits.antt =====
-- The bitwise operators `&`, `|`, `^` of C++ read bit by bit. Two numbers below 2 ^ n with the same
-- n low bits are equal, so a law of masks is proved one bit at a time.
pub mod Step
use mathlib.Core.Path.{◌≡◌, refl, sym, ap, ◌∙◌}
use mathlib.Core.Bool.{Bool, true, false, not, xor, ◌&&◌, ◌||◌}
use Prim.Native.Nat.{
  ℕ, zero, suc, ◌+◌, ◌-◌, ◌*◌, ◌/◌, ◌%◌, ◌^◌, ◌≤◌, ◌<◌, bit_and, bit_or, bit_xor, min, max, differ,
}
use native.Mathlib.Nat.{pow-suc, div-div-eq-div-mul, mul_comm}
use native.Mathlib.Omega.{arith}
use saturnis.Base.Tests.{ltb, leb, ◌==◌, if◌then◌else◌}
use Step.{bit_and_step, bit_or_step, bit_xor_step, zero-bit_and, zero-bit_or, zero-bit_xor}

-- Bit `i` of `x`.
unfoldable pub test_bit : ℕ → ℕ → Bool
test_bit x zero = x % 2 == 1
test_bit x (suc i) = test_bit (x / 2) i

pub test_bit-bit_and : (a b i : ℕ) → test_bit (bit_and a b) i ≡ (test_bit a i && test_bit b i)
unfolding test_bit
test_bit-bit_and a b zero = ground (arith, bit_and_step a b)
test_bit-bit_and a b (suc i) =
    let e : bit_and a b / 2 ≡ bit_and (a / 2) (b / 2) = ground (arith, bit_and_step a b) in
    rw e (test_bit-bit_and (a / 2) (b / 2) i)

pub test_bit-bit_or : (a b i : ℕ) → test_bit (bit_or a b) i ≡ (test_bit a i || test_bit b i)
unfolding test_bit
test_bit-bit_or a b zero = ground (arith, bit_or_step a b)
test_bit-bit_or a b (suc i) =
    let e : bit_or a b / 2 ≡ bit_or (a / 2) (b / 2) = ground (arith, bit_or_step a b) in
    rw e (test_bit-bit_or (a / 2) (b / 2) i)

differ_digits :
    (x y : ℕ) → x < 2 → y < 2 → (differ x y < 2) × ((differ x y == 1) ≡ xor (x == 1) (y == 1))
unfolding xor
differ_digits zero zero h k = (omega arith, refl)
differ_digits zero (suc zero) h k = (omega arith, refl)
differ_digits zero (suc (suc y)) h k = absurd (omega arith)
differ_digits (suc zero) zero h k = (omega arith, refl)
differ_digits (suc zero) (suc zero) h k = (omega arith, refl)
differ_digits (suc zero) (suc (suc y)) h k = absurd (omega arith)
differ_digits (suc (suc x)) y h k = absurd (omega arith)

pub test_bit-bit_xor : (a b i : ℕ) → test_bit (bit_xor a b) i ≡ xor (test_bit a i) (test_bit b i)
unfolding test_bit
test_bit-bit_xor a b zero =
    let d = differ_digits (a % 2) (b % 2) (omega arith) (omega arith) in
    let e : bit_xor a b % 2 ≡ differ (a % 2) (b % 2) = omega (arith, bit_xor_step a b, d.0) in
    rw e d.1
test_bit-bit_xor a b (suc i) =
    let d = differ_digits (a % 2) (b % 2) (omega arith) (omega arith) in
    let e : bit_xor a b / 2 ≡ bit_xor (a / 2) (b / 2) = omega (arith, bit_xor_step a b, d.0) in
    rw e (test_bit-bit_xor (a / 2) (b / 2) i)

pub test_bit-zero : (i : ℕ) → test_bit 0 i ≡ false
unfolding test_bit
test_bit-zero zero = refl
test_bit-zero (suc i) = test_bit-zero i

half-mod : (x m : ℕ) → 0 < m → x % (m * 2) / 2 ≡ x / 2 % m
half-mod x m h =
    let e : x / 2 / m ≡ x / (m * 2) = rw (mul_comm m 2) (div-div-eq-div-mul x 2 m) in
    omega (arith, ap (λ (t : ℕ). m * t) e)

parity-mod : (x m : ℕ) → x % (m * 2) % 2 ≡ x % 2
parity-mod x m = omega arith

pub pow_pos : (k : ℕ) → 0 < 2 ^ k
pow_pos zero = omega arith
pow_pos (suc k) = omega (arith, pow-suc 2 k, pow_pos k)

pub pow-add : (a b : ℕ) → 2 ^ (a + b) ≡ 2 ^ a * 2 ^ b
pow-add a zero = let e : a + 0 ≡ a = omega arith in rw e (omega arith)
pow-add a (suc b) =
    let e : a + suc b ≡ suc (a + b) = omega arith in
    rw (e, pow-suc 2 (a + b), pow-suc 2 b) (omega (arith, ap (λ (t : ℕ). 2 * t) (pow-add a b)))

pub test_bit-mod : (k x i : ℕ) → test_bit (x % 2 ^ k) i ≡ (ltb i k && test_bit x i)
unfolding test_bit
test_bit-mod zero x i = let e : x % 1 ≡ 0 = omega arith in rw e (ground (arith, test_bit-zero i))
test_bit-mod (suc k) x zero = rw (pow-suc 2 k, parity-mod x (2 ^ k)) (ground arith)
test_bit-mod (suc k) x (suc i) =
    rw (pow-suc 2 k, half-mod x (2 ^ k) (pow_pos k)) (ground (arith, test_bit-mod k (x / 2) i))

div-pow-suc : (x k : ℕ) → x / 2 ^ suc k ≡ x / 2 / 2 ^ k
div-pow-suc x k = rw (pow-suc 2 k, mul_comm (2 ^ k) 2) (sym (div-div-eq-div-mul x 2 (2 ^ k)))

pub test_bit-div : (k x i : ℕ) → test_bit (x / 2 ^ k) i ≡ test_bit x (k + i)
unfolding test_bit
test_bit-div zero x i =
    let e : x / 1 ≡ x = omega arith in let f : 0 + i ≡ i = omega arith in rw (e, f)
test_bit-div (suc k) x i =
    let f : suc k + i ≡ suc (k + i) = omega arith in
    rw (div-pow-suc x k, f) (test_bit-div k (x / 2) i)

mul-pow-suc : (x k : ℕ) → x * 2 ^ suc k ≡ x * 2 ^ k * 2
mul-pow-suc x k = rw (pow-suc 2 k) (omega arith)

pub test_bit-mul : (k x i : ℕ) → test_bit (x * 2 ^ k) i ≡ (leb k i && test_bit x (i - k))
unfolding test_bit
test_bit-mul zero x i =
    let e : x * 1 ≡ x = omega arith in let f : i - 0 ≡ i = omega arith in rw (e, f) (ground arith)
test_bit-mul (suc k) x zero =
    let e : x * 2 ^ suc k % 2 ≡ 0 = omega (arith, mul-pow-suc x k) in rw e (ground arith)
test_bit-mul (suc k) x (suc i) =
    let e : x * 2 ^ suc k / 2 ≡ x * 2 ^ k = omega (arith, mul-pow-suc x k) in
    let f : suc i - suc k ≡ i - k = omega arith in rw (e, f) (ground (arith, test_bit-mul k x i))

-- Numbers of n bits are equal if all their bits are.
pub eq_of_test_bit :
    (n a b : ℕ) → a < 2 ^ n → b < 2 ^ n → ((i : ℕ) → i < n → test_bit a i ≡ test_bit b i) → a ≡ b
unfolding test_bit
eq_of_test_bit zero a b ha hb h = omega arith
eq_of_test_bit (suc n) a b ha hb h = ground (
  arith,
  pow-suc 2 n,
  h 0,
  eq_of_test_bit n (a / 2) (b / 2) (omega (arith, pow-suc 2 n)) (omega (arith, pow-suc 2 n))
      (λ i p. h (suc i) (omega arith)),
)

bit_and-le_fuel : (n a b : ℕ) → a ≤ n → bit_and a b ≤ b
bit_and-le_fuel n zero b h = omega (arith, zero-bit_and b)
bit_and-le_fuel zero (suc a) b h = absurd (omega arith)
bit_and-le_fuel (suc n) (suc a) b h =
    omega (arith, bit_and_step (suc a) b, bit_and-le_fuel n (suc a / 2) (b / 2) (omega arith))

pub bit_and-le : (a b : ℕ) → bit_and a b ≤ b
bit_and-le a b = bit_and-le_fuel a a b (omega arith)

pub bit_and-le_left : (a b : ℕ) → bit_and a b ≤ a
bit_and-le_left a b = go a a b (omega arith)
  where
    go : (n a b : ℕ) → a ≤ n → bit_and a b ≤ a
    go n zero b h = omega (arith, zero-bit_and b)
    go zero (suc a) b h = absurd (omega arith)
    go (suc n) (suc a) b h =
        omega (arith, bit_and_step (suc a) b, go n (suc a / 2) (b / 2) (omega arith))

half-lt : (n a : ℕ) → a < 2 ^ suc n → a / 2 < 2 ^ n
half-lt n a h = omega (arith, pow-suc 2 n)

pub bit_or-lt : (n a b : ℕ) → a < 2 ^ n → b < 2 ^ n → bit_or a b < 2 ^ n
bit_or-lt zero zero b ha hb = omega (arith, zero-bit_or b)
bit_or-lt zero (suc a) b ha hb = absurd (omega arith)
bit_or-lt (suc n) a b ha hb = omega (
  arith,
  pow-suc 2 n,
  bit_or_step a b,
  bit_or-lt n (a / 2) (b / 2) (half-lt n a ha) (half-lt n b hb),
)

pub bit_xor-lt : (n a b : ℕ) → a < 2 ^ n → b < 2 ^ n → bit_xor a b < 2 ^ n
bit_xor-lt zero zero b ha hb = omega (arith, zero-bit_xor b)
bit_xor-lt zero (suc a) b ha hb = absurd (omega arith)
bit_xor-lt (suc n) a b ha hb = omega (
  arith,
  pow-suc 2 n,
  bit_xor_step a b,
  (differ_digits (a % 2) (b % 2) (omega arith) (omega arith)).0,
  bit_xor-lt n (a / 2) (b / 2) (half-lt n a ha) (half-lt n b hb),
)

-- The bits of a mask of k ones.
pub test_bit-mask : (k i : ℕ) → test_bit (2 ^ k - 1) i ≡ ltb i k
unfolding test_bit
test_bit-mask zero i = ground (arith, test_bit-zero i)
test_bit-mask (suc k) zero =
    let e : (2 ^ suc k - 1) % 2 ≡ 1 = omega (arith, pow-suc 2 k, pow_pos k) in rw e (ground arith)
test_bit-mask (suc k) (suc i) =
    let e : (2 ^ suc k - 1) / 2 ≡ 2 ^ k - 1 = omega (arith, pow-suc 2 k, pow_pos k) in
    rw e (ground (arith, test_bit-mask k i))

bit_and-zero : (a : ℕ) → bit_and a 0 ≡ 0
bit_and-zero a = omega (arith, bit_and-le a 0)

-- `&` with a mask of k ones is the remainder by 2 ^ k.
pub bit_and_mask : (k a : ℕ) → bit_and a (2 ^ k - 1) ≡ a % 2 ^ k
bit_and_mask zero a = omega (arith, bit_and-zero a)
bit_and_mask (suc k) a =
    let e : (2 ^ suc k - 1) / 2 ≡ 2 ^ k - 1 = omega (arith, pow-suc 2 k, pow_pos k) in
    let s : bit_and a (2 ^ suc k - 1)
        ≡ bit_and (a / 2) (2 ^ k - 1) * 2 + min (a % 2) ((2 ^ suc k - 1) % 2) =
      rw e at (bit_and_step a (2 ^ suc k - 1)) in
    let m : a % 2 ^ suc k / 2 ≡ a / 2 % 2 ^ k = rw (pow-suc 2 k) (half-mod a (2 ^ k) (pow_pos k)) in
    let p : a % 2 ^ suc k % 2 ≡ a % 2 = rw (pow-suc 2 k) (parity-mod a (2 ^ k)) in
    omega (arith, s, m, p, bit_and_mask k (a / 2), pow-suc 2 k, pow_pos k)

bit_or-zero_fuel : (n a : ℕ) → a ≤ n → bit_or a 0 ≡ a
bit_or-zero_fuel n zero h = zero-bit_or 0
bit_or-zero_fuel zero (suc a) h = absurd (omega arith)
bit_or-zero_fuel (suc n) (suc a) h =
    omega (arith, bit_or_step (suc a) 0, bit_or-zero_fuel n (suc a / 2) (omega arith))

pub bit_or-zero : (a : ℕ) → bit_or a 0 ≡ a
bit_or-zero a = bit_or-zero_fuel a a (omega arith)

-- `|` of disjoint fields is a sum.
pub bit_or_fields : (k q r : ℕ) → r < 2 ^ k → bit_or (q * 2 ^ k) r ≡ q * 2 ^ k + r
bit_or_fields zero q r h =
    let e : r ≡ 0 = omega arith in
    let f : bit_or q 0 ≡ q = bit_or-zero q in
    let g : q * 1 ≡ q = omega arith in rw (e, g, f) (omega arith)
bit_or_fields (suc k) q r h =
    let e : q * 2 ^ suc k / 2 ≡ q * 2 ^ k = omega (arith, mul-pow-suc q k) in
    let s : bit_or (q * 2 ^ suc k) r
        ≡ bit_or (q * 2 ^ k) (r / 2) * 2 + max (q * 2 ^ suc k % 2) (r % 2) =
      rw e at (bit_or_step (q * 2 ^ suc k) r) in
    omega (arith, s, mul-pow-suc q k, bit_or_fields k q (r / 2) (half-lt k r h))
