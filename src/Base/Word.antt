-- ===== src/Base/Word.antt =====
-- Unsigned machine words as native numbers: `uint32_t` values are below 2 ^ 32 and `uint64_t` values
-- below 2 ^ 64, and every operation that can leave the range wraps.
use saturnis.Base.{ℕ, ◌+◌, ◌-◌, ◌*◌, ◌/◌, ◌%◌, ◌^◌, ◌<◌, ◌≡◌, not, bit_xor, arith, lt→ltb}
use mathlib.Core.Bool.{xor}
use saturnis.Base.Bits.{test_bit, test_bit-bit_xor, test_bit-mask, bit_xor-lt}

abbrev pub u32 : ℕ → ℕ
u32 x = x % 2 ^ 32

abbrev pub u64 : ℕ → ℕ
u64 x = x % 2 ^ 64

-- `x << k` and `x >> k` on `uint32_t`, for k below 32.
abbrev pub shl32 : ℕ → ℕ → ℕ
shl32 x k = u32 (x * 2 ^ k)

abbrev pub shr : ℕ → ℕ → ℕ
shr x k = x / 2 ^ k

-- `~x` on `uint32_t`.
abbrev pub not32 : ℕ → ℕ
not32 x = bit_xor x 0xffff_ffff

-- `a - b` on `uint64_t`.
abbrev pub sub64 : ℕ → ℕ → ℕ
sub64 a b = u64 (a + 2 ^ 64 - b)

pub test_bit-not32 : (x i : ℕ) → i < 32 → test_bit (not32 x) i ≡ not (test_bit x i)
unfolding xor
test_bit-not32 x i h =
    rw (test_bit-bit_xor x 0xffff_ffff i, test_bit-mask 32 i, lt→ltb i 32 h) (ground arith)

pub not32-lt : (x : ℕ) → x < 2 ^ 32 → not32 x < 2 ^ 32
not32-lt x h = bit_xor-lt 32 x 0xffff_ffff h (omega arith)
