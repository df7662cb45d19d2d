-- ===== src/Sh2/Products.antt =====
-- DMULU.L, ROTCL with ROTCR, and DIV1 of src/cpu/sh2_core.cpp.
use native.Mathlib.Nat.{mul-le-mul}
use saturnis.Base.{
  ℕ, ◌+◌, ◌-◌, ◌*◌, ◌/◌, ◌%◌, ◌^◌, ◌<◌, ◌≤◌, ◌≡◌, ◌∙◌, ap, Bool, true, false, not, arith, length,
  get_or-set_self, length-set, ltb, leb, ◌==◌, if◌then◌else◌, bit_and, bit_or,
}
use saturnis.Base.Bits.{
  bit_or_fields, bit_or-zero, test_bit-bit_or, eq_of_test_bit, bit_or-lt, bit_and_mask,
}
use saturnis.Base.Word.{u32, shl32, shr}
use saturnis.Decode.{field_n, field_m}
use saturnis.Sh2.{Sh2Core, reg, with_flag, t_flag, q_flag, m_flag, u32_sub, bit_of, top_bit}
use saturnis.Sh2.Flags.{flag-with_flag, top_bit-ltb}
use saturnis.Sh2.Alu.{execute_difference, execute_div1, div1_step, same_bit, dmulu, div1}
use saturnis.Sh2.Transfer.{execute_shift, rotcl, rotcr}

word_product : (a b : ℕ) → a < 2 ^ 32 → b < 2 ^ 32 → a * b < 2 ^ 64
word_product a b h k =
    let bound : a * b ≤ 0xFFFF_FFFF * 0xFFFF_FFFF =
      mul-le-mul {n₂ = 0xFFFF_FFFF} {m₂ = 0xFFFF_FFFF} (omega arith) (omega arith) in
    omega (arith, bound)

split_lem : (p : ℕ) → p < 2 ^ 64 → 2 ^ 32 * u32 (p / 2 ^ 32) + u32 p ≡ p
split_lem p h = omega arith

-- DMULU.L leaves the whole product of two words, its high word in MACH and its low word in MACL.
pub execute_difference-dmulu :
    (c : Sh2Core) (instr : ℕ)
    → reg c (field_n instr) < 2 ^ 32
    → reg c (field_m instr) < 2 ^ 32
    → 2 ^ 32 * (execute_difference dmulu instr c).mach + (execute_difference dmulu instr c).macl
      ≡ reg c (field_n instr) * reg c (field_m instr)
unfolding execute_difference
execute_difference-dmulu c instr n m =
    split_lem (reg c (field_n instr) * reg c (field_m instr))
      (word_product (reg c (field_n instr)) (reg c (field_m instr)) n m)

bit_or_comm : (a b : ℕ) → a < 2 ^ 32 → b < 2 ^ 32 → bit_or a b ≡ bit_or b a
bit_or_comm a b h k =
    eq_of_test_bit 32 (bit_or a b) (bit_or b a) (bit_or-lt 32 a b h k) (bit_or-lt 32 b a k h)
      (λ i l. ground (arith, test_bit-bit_or a b i, test_bit-bit_or b a i))

bit_of-lt : (b : Bool) → bit_of b < 2
bit_of-lt true = omega arith
bit_of-lt false = omega arith

-- `(x << 1) | b`, and `(x >> 1) | (b ? 0x80000000 : 0)`, as sums.
shift_in_low : (x : ℕ) (b : Bool) → bit_or (shl32 x 1) (bit_of b) ≡ u32 (x * 2) + bit_of b
shift_in_low x b =
    let e : u32 (x * 2) ≡ u32 (x * 2) / 2 * 2 = omega arith in
    rw e (bit_or_fields 1 (u32 (x * 2) / 2) (bit_of b) (bit_of-lt b))

shift_in_high :
    (x : ℕ) (b : Bool)
    → x < 2 ^ 32
    → bit_or (shr x 1) (if b then 0x8000_0000 else 0) ≡ x / 2 + 2 ^ 31 * bit_of b
shift_in_high x true h =
    bit_or_comm (x / 2) 0x8000_0000 (omega arith) (omega arith)
    ∙ bit_or_fields 31 1 (x / 2) (omega arith)
    ∙ omega arith
shift_in_high x false h = bit_or-zero (x / 2) ∙ omega arith

rotate_back :
    (x : ℕ) (b : Bool)
    → x < 2 ^ 32
    → let y = u32 (x * 2) + bit_of b in
      (y < 2 ^ 32) × (y / 2 + 2 ^ 31 * bit_of (not (ltb x (2 ^ 31))) ≡ x) × (not (y % 2 == 0) ≡ b)
rotate_back x true h = (omega arith, ground arith, ground arith)
rotate_back x false h = (omega arith, ground arith, ground arith)

execute_shift-rotcl :
    (c : Sh2Core) (instr : ℕ)
    → field_n instr < length c.r
    → reg c (field_n instr) < 2 ^ 32
    → let d = execute_shift rotcl instr c in
      (reg d (field_n instr) ≡ u32 (reg c (field_n instr) * 2) + bit_of (t_flag c))
      × (t_flag d ≡ not (ltb (reg c (field_n instr)) (2 ^ 31)))
      × (length d.r ≡ length c.r)
unfolding execute_shift
execute_shift-rotcl c instr h w =
    let x : ℕ = reg c (field_n instr) in
    let out : ℕ = bit_or (shl32 x 1) (bit_of (t_flag c)) in
    (
      get_or-set_self c.r (field_n instr) out 0 h ∙ shift_in_low x (t_flag c),
      flag-with_flag 0 c.sr (top_bit x) (omega arith) ∙ top_bit-ltb x w,
      length-set c.r (field_n instr) out,
    )

execute_shift-rotcr :
    (c : Sh2Core) (instr : ℕ)
    → field_n instr < length c.r
    → reg c (field_n instr) < 2 ^ 32
    → let d = execute_shift rotcr instr c in
      (reg d (field_n instr) ≡ reg c (field_n instr) / 2 + 2 ^ 31 * bit_of (t_flag c))
      × (t_flag d ≡ not (reg c (field_n instr) % 2 == 0))
unfolding execute_shift
execute_shift-rotcr c instr h w =
    let x : ℕ = reg c (field_n instr) in
    let out : ℕ = bit_or (shr x 1) (if t_flag c then 0x8000_0000 else 0) in
    (
      get_or-set_self c.r (field_n instr) out 0 h ∙ shift_in_high x (t_flag c) w,
      flag-with_flag 0 c.sr (not (bit_and x 1 == 0)) (omega arith)
          ∙ ap (λ v. not (v == 0)) (bit_and_mask 1 x),
    )

-- ROTCR undoes ROTCL: the register and T are as before.
pub rotcr-rotcl :
    (c : Sh2Core) (instr : ℕ)
    → field_n instr < length c.r
    → reg c (field_n instr) < 2 ^ 32
    → let d = execute_shift rotcr instr (execute_shift rotcl instr c) in
      (reg d (field_n instr) ≡ reg c (field_n instr)) × (t_flag d ≡ t_flag c)
rotcr-rotcl c instr h w =
    let x : ℕ = reg c (field_n instr) in
    let middle = execute_shift rotcl instr c in
    let left = execute_shift-rotcl c instr h w in
    let back = rotate_back x (t_flag c) w in
    let right =
      execute_shift-rotcr middle instr (omega (arith, left.2, h)) (omega (arith, left.0, back.0)) in
    (right.0 ∙ rw (left.0, left.1) back.1, right.1 ∙ rw left.0 back.2)

quotient_bit :
    (a b : ℕ) → a < 2 ^ 32 → b < 2 ^ 32 → same_bit (ltb a (u32 (a + 2 ^ 32 - b))) false ≡ leb b a
quotient_bit a b h k = ground arith

-- DIV1 with Q and M clear subtracts Rm from Rn shifted left with T, modulo 2^32, and sets T if Rm is at most
-- the shifted word: the top bit of Rn, which the shift loses, has no part in it.
pub execute_div1_unsigned :
    (c : Sh2Core) (instr : ℕ)
    → field_n instr < length c.r
    → reg c (field_m instr) < 2 ^ 32
    → q_flag c ≡ false
    → m_flag c ≡ false
    → let shifted : ℕ = u32 (reg c (field_n instr) * 2) + bit_of (t_flag c) in
      let d = execute_difference div1 instr c in
      (reg d (field_n instr) ≡ u32 (shifted + 2 ^ 32 - reg c (field_m instr)))
      × (t_flag d ≡ leb (reg c (field_m instr)) shifted)
unfolding execute_difference execute_div1 div1_step u32_sub
execute_div1_unsigned c instr h w q m =
    let x : ℕ = reg c (field_n instr) in
    let rm : ℕ = reg c (field_m instr) in
    let raw : ℕ = bit_or (shl32 x 1) (bit_of (t_flag c)) in
    let wrapped : Bool = ltb raw (u32 (raw + 2 ^ 32 - rm)) in
    let kept = with_flag 0x100 c.sr wrapped in
    let e : raw ≡ u32 (x * 2) + bit_of (t_flag c) = shift_in_low x (t_flag c) in
    rw (q, m)
      (
        get_or-set_self c.r (field_n instr) (u32 (raw + 2 ^ 32 - rm)) 0 h
            ∙ ap (λ v. u32 (v + 2 ^ 32 - rm)) e,
        flag-with_flag 0 kept (same_bit wrapped false) (omega arith)
            ∙ ap (λ v. same_bit (ltb v (u32 (v + 2 ^ 32 - rm))) false) e
            ∙ quotient_bit (u32 (x * 2) + bit_of (t_flag c)) rm
                (omega (arith, bit_of-lt (t_flag c))) w,
      )
