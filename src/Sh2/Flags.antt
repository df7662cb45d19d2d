-- ===== src/Sh2/Flags.antt =====
-- The status register of src/cpu/sh2_core.cpp: its bits, written by `set_t_flag`, `set_q_flag` and
-- `set_m_flag` and read by `t_flag`, `q_flag` and `m_flag`.
use saturnis.Base.{
  ℕ, zero, suc, ◌*◌, ◌/◌, ◌%◌, ◌^◌, ◌<◌, ◌≡◌, ◌≢◌, ◌∙◌, sym, refl, Bool, true, false, not, bit_and,
  bit_or, arith, ◌==◌, ltb,
}
use native.Mathlib.Nat.{pow-suc}
use saturnis.Base.Bits.{
  test_bit, test_bit-bit_and, test_bit-bit_or, test_bit-zero, bit_and_mask, bit_or-lt,
  bit_and-le_left,
}
use saturnis.Base.Bits.Step.{bit_and_step}
use saturnis.Base.Word.{not32, test_bit-not32}
use saturnis.Sh2.{flag, with_flag, top_bit}

test_bit-pow : (k i : ℕ) → test_bit (2 ^ k) i ≡ (k == i)
unfolding test_bit
test_bit-pow zero zero = refl
test_bit-pow zero (suc i) = test_bit-zero i ∙ ground arith
test_bit-pow (suc k) zero =
    let e : 2 ^ suc k % 2 ≡ 0 = omega (arith, pow-suc 2 k) in rw e (ground arith)
test_bit-pow (suc k) (suc i) =
    let e : 2 ^ suc k / 2 ≡ 2 ^ k = omega (arith, pow-suc 2 k) in
    rw e (test_bit-pow k i ∙ ground arith)

pub flag-test_bit : (k x : ℕ) → flag (2 ^ k) x ≡ test_bit x k
unfolding flag test_bit
flag-test_bit zero x = let e : bit_and x 1 ≡ x % 2 = bit_and_mask 1 x in rw e (ground arith)
flag-test_bit (suc k) x =
    let e : 2 ^ suc k / 2 ≡ 2 ^ k = omega (arith, pow-suc 2 k) in
    let z : 2 ^ suc k % 2 ≡ 0 = omega (arith, pow-suc 2 k) in
    let s : bit_and x (2 ^ suc k) ≡ bit_and (x / 2) (2 ^ k) * 2 =
      rw (e, z) at (bit_and_step x (2 ^ suc k)) ∙ ground arith in
    let t : not (bit_and (x / 2) (2 ^ k) * 2 == 0) ≡ not (bit_and (x / 2) (2 ^ k) == 0) =
      ground arith in
    rw s (t ∙ flag-test_bit k (x / 2))

-- A flag reads what was written to it.
pub flag-with_flag : (k x : ℕ) (b : Bool) → k < 32 → flag (2 ^ k) (with_flag (2 ^ k) x b) ≡ b
unfolding with_flag
flag-with_flag k x true h =
    flag-test_bit k (bit_or x (2 ^ k))
    ∙ rw (test_bit-bit_or x (2 ^ k) k, test_bit-pow k k) (ground arith)
flag-with_flag k x false h =
    flag-test_bit k (bit_and x (not32 (2 ^ k)))
    ∙ rw (test_bit-bit_and x (not32 (2 ^ k)) k, test_bit-not32 (2 ^ k) k h, test_bit-pow k k)
        (ground arith)

-- Writing a flag leaves the other bits.
pub test_bit-with_flag :
    (k x : ℕ) (b : Bool) (i : ℕ)
    → i < 32
    → i ≢ k
    → test_bit (with_flag (2 ^ k) x b) i ≡ test_bit x i
unfolding with_flag
test_bit-with_flag k x true i h n =
    let e : (k == i) ≡ false = ground arith in
    rw (test_bit-bit_or x (2 ^ k) i, test_bit-pow k i, e) (ground arith)
test_bit-with_flag k x false i h n =
    let e : (k == i) ≡ false = ground arith in
    rw (test_bit-bit_and x (not32 (2 ^ k)) i, test_bit-not32 (2 ^ k) i h, test_bit-pow k i, e)
      (ground arith)

pub flag-with_flag_other :
    (k j x : ℕ) (b : Bool) → j < 32 → j ≢ k → flag (2 ^ j) (with_flag (2 ^ k) x b) ≡ flag (2 ^ j) x
flag-with_flag_other k j x b h n =
    flag-test_bit j (with_flag (2 ^ k) x b)
    ∙ test_bit-with_flag k x b j h n
    ∙ sym (flag-test_bit j x)

pub with_flag-lt :
    (k x : ℕ) (b : Bool) → 2 ^ k < 2 ^ 32 → x < 2 ^ 32 → with_flag (2 ^ k) x b < 2 ^ 32
unfolding with_flag
with_flag-lt k x true h p = bit_or-lt 32 x (2 ^ k) p h
with_flag-lt k x false h p = omega (arith, bit_and-le_left x (not32 (2 ^ k)))

test_bit-top : (k x : ℕ) → x < 2 ^ suc k → test_bit x k ≡ not (ltb x (2 ^ k))
unfolding test_bit
test_bit-top zero x h = ground arith
test_bit-top (suc k) x h =
    test_bit-top k (x / 2) (omega (arith, pow-suc 2 (suc k))) ∙ ground (arith, pow-suc 2 k)

-- The sign bit of a word.
pub top_bit-ltb : (x : ℕ) → x < 2 ^ 32 → top_bit x ≡ not (ltb x (2 ^ 31))
unfolding flag
top_bit-ltb x h = flag-test_bit 31 x ∙ test_bit-top 31 x h
