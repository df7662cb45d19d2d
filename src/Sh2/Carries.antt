-- ===== src/Sh2/Carries.antt =====
-- ADDC, SUBC and DIV1 of src/cpu/sh2_core.cpp against the arithmetic of numbers.
use saturnis.Base.{
  ℕ, ◌+◌, ◌-◌, ◌*◌, ◌/◌, ◌^◌, ◌<◌, ◌≡◌, ◌≢◌, ◌∙◌, refl, sym, ap, Bool, true, false, not, arith,
  List, length, All, get_or-All, get_or, get_or-set_self, get_or-set_ne, length-set, ltb, ◌==◌,
}
use saturnis.Base.Word.{u32}
use saturnis.Decode.{field_n, field_m}
use saturnis.Sh2.{Sh2Core, reg, flag, with_flag, t_flag, u32_add, u32_sub, bit_of}
use saturnis.Sh2.Flags.{flag-with_flag}
use saturnis.Sh2.Alu.{execute_flag, execute_sum, execute_difference, clrt, addc, subc}

carry_lem : (s : ℕ) → s < 2 * 2 ^ 32 → u32 s + 2 ^ 32 * bit_of (not (s / 2 ^ 32 == 0)) ≡ s
carry_lem s h = ground arith

borrow_lem :
    (a b : ℕ) → a < 2 ^ 32 → b < 2 ^ 32 → u32 (a + 2 ^ 32 - b) + b ≡ a + 2 ^ 32 * bit_of (ltb a b)
borrow_lem a b h k = ground arith

bit_of-lt : (b : Bool) → bit_of b < 2
bit_of-lt true = omega arith
bit_of-lt false = omega arith

-- ADDC adds both registers and T exactly: the new T is the carry out of 32 bits.
pub execute_sum-addc :
    (c : Sh2Core) (instr : ℕ)
    → field_n instr < length c.r
    → reg c (field_n instr) < 2 ^ 32
    → reg c (field_m instr) < 2 ^ 32
    → let d = execute_sum addc instr c in
      reg d (field_n instr) + 2 ^ 32 * bit_of (t_flag d)
      ≡ reg c (field_n instr) + reg c (field_m instr) + bit_of (t_flag c)
unfolding execute_sum
execute_sum-addc c instr h n m =
    let sum : ℕ = reg c (field_n instr) + reg c (field_m instr) + bit_of (t_flag c) in
    let carry : Bool = not (sum / 2 ^ 32 == 0) in
    let t : flag 1 (with_flag 1 c.sr carry) ≡ carry = flag-with_flag 0 c.sr carry (omega arith) in
    rw (get_or-set_self c.r (field_n instr) (u32 sum) 0 h, t)
      (carry_lem sum (omega (arith, bit_of-lt (t_flag c))))

-- SUBC subtracts Rm plus T, taken modulo 2^32: with Rm and T both at their greatest it subtracts nothing.
pub execute_difference-subc :
    (c : Sh2Core) (instr : ℕ)
    → field_n instr < length c.r
    → reg c (field_n instr) < 2 ^ 32
    → let d = execute_difference subc instr c in
      reg d (field_n instr) + u32 (reg c (field_m instr) + bit_of (t_flag c))
      ≡ reg c (field_n instr) + 2 ^ 32 * bit_of (t_flag d)
unfolding execute_difference u32_add u32_sub
execute_difference-subc c instr h n =
    let lhs : ℕ = reg c (field_n instr) in
    let rhs : ℕ = u32 (reg c (field_m instr) + bit_of (t_flag c)) in
    let t : flag 1 (with_flag 1 c.sr (ltb lhs rhs)) ≡ ltb lhs rhs =
      flag-with_flag 0 c.sr (ltb lhs rhs) (omega arith) in
    rw (get_or-set_self c.r (field_n instr) (u32 (lhs + 2 ^ 32 - rhs)) 0 h, t)
      (borrow_lem lhs rhs n (omega arith))

difference-lt :
    (c : Sh2Core) (instr : ℕ)
    → field_n instr < length c.r
    → reg (execute_difference subc instr c) (field_n instr) < 2 ^ 32
unfolding execute_difference u32_add u32_sub
difference-lt c instr h =
    let lhs : ℕ = reg c (field_n instr) in
    let rhs : ℕ = u32 (reg c (field_m instr) + bit_of (t_flag c)) in
    rw (get_or-set_self c.r (field_n instr) (u32 (lhs + 2 ^ 32 - rhs)) 0 h) (omega arith)

-- When Rm is 0xFFFFFFFF and T is set, SUBC leaves Rn as it is and clears T, as if nothing had been subtracted.
pub execute_difference-subc_borrow :
    (c : Sh2Core) (instr : ℕ)
    → field_n instr < length c.r
    → reg c (field_n instr) < 2 ^ 32
    → reg c (field_m instr) ≡ 0xFFFF_FFFF
    → t_flag c ≡ true
    → let d = execute_difference subc instr c in
      (reg d (field_n instr) ≡ reg c (field_n instr)) × (bit_of (t_flag d) ≡ 0)
execute_difference-subc_borrow c instr h n m t =
    let s = execute_difference-subc c instr h n in
    let e : reg c (field_m instr) + bit_of (t_flag c) ≡ 2 ^ 32 = rw t (omega (arith, m)) in
    let whole : u32 (reg c (field_m instr) + bit_of (t_flag c)) ≡ 0 = rw e refl in
    let d = execute_difference subc instr c in
    let small : reg d (field_n instr) < 2 ^ 32 = difference-lt c instr h in
    (
      omega (arith, s, whole, small, bit_of-lt (t_flag d)),
      omega (arith, s, whole, small, n, bit_of-lt (t_flag d)),
    )

execute_sum-addc_other :
    (c : Sh2Core) (instr k : ℕ) → field_n instr ≢ k → reg (execute_sum addc instr c) k ≡ reg c k
unfolding execute_sum
execute_sum-addc_other c instr k n =
    get_or-set_ne c.r (field_n instr) k
      (u32 (reg c (field_n instr) + reg c (field_m instr) + bit_of (t_flag c))) 0 n

execute_sum-addc_length :
    (c : Sh2Core) (instr : ℕ) → length (execute_sum addc instr c).r ≡ length c.r
unfolding execute_sum
execute_sum-addc_length c instr =
    length-set c.r (field_n instr)
      (u32 (reg c (field_n instr) + reg c (field_m instr) + bit_of (t_flag c)))

execute_flag-clrt : (c : Sh2Core) → t_flag (execute_flag clrt 0x0008 c) ≡ false
unfolding execute_flag
execute_flag-clrt c = flag-with_flag 0 c.sr false (omega arith)

execute_flag-clrt_r : (c : Sh2Core) → (execute_flag clrt 0x0008 c).r ≡ c.r
unfolding execute_flag
execute_flag-clrt_r c = refl

-- CLRT and two ADDCs add two numbers of 64 bits, each in two registers, with the carry out in T: the low words first,
-- into a register that neither high word is in.
pub long_addition :
    (c : Sh2Core) (low high : ℕ)
    → field_n low < length c.r
    → field_n high < length c.r
    → field_n low ≢ field_n high
    → field_n low ≢ field_m high
    → All (λ x. x < 2 ^ 32) c.r
    → let d = execute_sum addc high (execute_sum addc low (execute_flag clrt 0x0008 c)) in
      reg d (field_n low) + 2 ^ 32 * reg d (field_n high) + 2 ^ 64 * bit_of (t_flag d)
      ≡ reg c (field_n low)
        + 2 ^ 32 * reg c (field_n high)
        + (reg c (field_m low) + 2 ^ 32 * reg c (field_m high))
long_addition c low high hl hh nn nm words =
    let cleared = execute_flag clrt 0x0008 c in
    let first = execute_sum addc low cleared in
    let word : (k : ℕ) → reg c k < 2 ^ 32 =
      λ k. get_or-All (λ x. x < 2 ^ 32) c.r k (omega arith) words in
    let same : (k : ℕ) → reg cleared k ≡ reg c k =
      λ k. ap (λ (r : List ℕ). get_or r k 0) (execute_flag-clrt_r c) in
    let n0 : ℕ = field_n low in
    let m0 : ℕ = field_m low in
    let n1 : ℕ = field_n high in
    let m1 : ℕ = field_m high in
    let room : length cleared.r ≡ length c.r =
      ap (λ (r : List ℕ). length r) (execute_flag-clrt_r c) in
    let one =
      execute_sum-addc cleared low (omega (arith, room, hl)) (omega (arith, same n0, word n0))
        (omega (arith, same m0, word m0)) in
    let clear : bit_of (t_flag cleared) ≡ 0 = ap bit_of (execute_flag-clrt c) in
    let kept1 : reg first n1 ≡ reg c n1 = execute_sum-addc_other cleared low n1 nn ∙ same n1 in
    let kept2 : reg first m1 ≡ reg c m1 = execute_sum-addc_other cleared low m1 nm ∙ same m1 in
    let two =
      execute_sum-addc first high (omega (arith, execute_sum-addc_length cleared low, room, hh))
        (omega (arith, kept1, word n1)) (omega (arith, kept2, word m1)) in
    let low_kept : reg (execute_sum addc high first) n0 ≡ reg first n0 =
      execute_sum-addc_other first high n0 (λ e. nn (sym e)) in
    omega (arith, one, two, clear, kept1, kept2, low_kept, same n0, same m0)
