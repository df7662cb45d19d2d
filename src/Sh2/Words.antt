-- ===== src/Sh2/Words.antt =====
-- The words of src/cpu/sh2_core.cpp: sums and differences that wrap, signed readings, shifts and
-- extensions. A signed value is an integer, and its cast to `uint32_t` or `uint64_t` wraps.
use saturnis.Base.{
  ℕ, ◌+◌, ◌-◌, ◌*◌, ◌/◌, ◌%◌, ◌^◌, Bool, not, bit_and, bit_xor, ◌==◌, ltb, if◌then◌else◌, zero, suc,
}
use saturnis.Base.Integer.{ℤ, pos, negsuc}
use saturnis.Base.Word.{u32, not32}

unfoldable pub u32_add : ℕ → ℕ → ℕ
u32_add a b = u32 (a + b)

unfoldable pub u32_sub : ℕ → ℕ → ℕ
u32_sub a b = u32 (a + 2 ^ 32 - b)

unfoldable pub u32_add_i32 : ℕ → ℤ → ℕ
unfolding u32_add u32_sub
u32_add_i32 a (pos n) = u32_add a n
u32_add_i32 a (negsuc n) = u32_sub a (n + 1)

-- A value of `w` bits read as a signed number.
abbrev pub signed : ℕ → ℕ → ℤ
signed w x = if ltb (x * 2) (2 ^ w) then pos x else negsuc (2 ^ w - 1 - x)

-- `static_cast<std::uint32_t>` and `static_cast<std::uint64_t>` of a signed value.
abbrev pub cast32 : ℤ → ℕ
cast32 (pos n) = n % 2 ^ 32
cast32 (negsuc n) = 2 ^ 32 - 1 - n % 2 ^ 32

abbrev pub cast64 : ℤ → ℕ
cast64 (pos n) = n % 2 ^ 64
cast64 (negsuc n) = 2 ^ 64 - 1 - n % 2 ^ 64

abbrev pub signext8 : ℕ → ℤ
signext8 x = signed 8 (x % 2 ^ 8)

abbrev pub signext12 : ℕ → ℤ
signext12 x = signed 12 (x % 2 ^ 12)

-- `x * 2` on `int32_t`.
abbrev pub twice : ℤ → ℤ
twice (pos n) = pos (n * 2)
twice (negsuc n) = negsuc (n * 2 + 1)

-- The product of two signed values.
abbrev pub negated : ℕ → ℤ
negated zero = pos zero
negated (suc n) = negsuc n

abbrev pub mul_ℤ : ℤ → ℤ → ℤ
mul_ℤ (pos a) (pos b) = pos (a * b)
mul_ℤ (pos a) (negsuc b) = negated (a * (b + 1))
mul_ℤ (negsuc a) (pos b) = negated ((a + 1) * b)
mul_ℤ (negsuc a) (negsuc b) = pos ((a + 1) * (b + 1))

-- `(x & 0x80000000U) != 0U`.
abbrev pub top_bit : ℕ → Bool
top_bit x = not (bit_and x 0x8000_0000 == 0)

unfoldable pub add_overflow : ℕ → ℕ → ℕ → Bool
add_overflow a b r = top_bit (bit_and (not32 (bit_xor a b)) (bit_xor a r))

unfoldable pub sub_overflow : ℕ → ℕ → ℕ → Bool
sub_overflow a b r = top_bit (bit_and (bit_xor a b) (bit_xor a r))

-- `static_cast<std::int32_t>(x) >> k` as a word, for k below 32.
unfoldable pub arithmetic_shift : ℕ → ℕ → ℕ
arithmetic_shift x k = if ltb x (2 ^ 31) then x / 2 ^ k else 2 ^ 32 - 1 - (2 ^ 32 - 1 - x) / 2 ^ k

abbrev pub bit_of : Bool → ℕ
bit_of b = if b then 1 else 0
