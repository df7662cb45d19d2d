-- ===== src/Dev/Lanes.antt =====
-- Lanes of src/dev/devices.cpp bit by bit.
use saturnis.Base.{
  ℕ, ◌+◌, ◌-◌, ◌*◌, ◌^◌, ◌≤◌, ◌<◌, ◌≡◌, ap, ◌∙◌, Bool, ◌&&◌, bit_and, arith, ltb, leb, ◌==◌,
  if◌then◌else◌,
}
use saturnis.Base.Word.{shl32, shr}
use saturnis.Base.Bits.{
  test_bit, test_bit-bit_and, test_bit-mod, test_bit-div, test_bit-mul, test_bit-mask, bit_and-le,
}
use saturnis.Dev.Map.{lane_shift, size_mask, lane_mask_of, write_bits_of}

-- The bits of a lane.
abbrev pub lane_width : ℕ → ℕ
lane_width size = if size == 1 then 8 else if size == 2 then 16 else 32

pub size_mask-width : (size : ℕ) → size_mask size ≡ 2 ^ lane_width size - 1
unfolding size_mask
size_mask-width size = ground arith

-- A lane lies within its word, whatever the address and the size.
pub lane_within : (addr size : ℕ) → lane_shift addr size + lane_width size ≤ 32
unfolding lane_shift
lane_within addr size = ground (arith, bit_and-le addr 3, bit_and-le addr 2)

test_bit-shl32 :
    (x k i : ℕ) → test_bit (shl32 x k) i ≡ (ltb i 32 && (leb k i && test_bit x (i - k)))
test_bit-shl32 x k i = test_bit-mod 32 (x * 2 ^ k) i ∙ ap (λ b. ltb i 32 && b) (test_bit-mul k x i)

abbrev pub in_lane : ℕ → ℕ → ℕ → Bool
in_lane addr size i = leb (lane_shift addr size) i && ltb i (lane_shift addr size + lane_width size)

pub test_bit-lane_mask :
    (addr size i : ℕ) → test_bit (lane_mask_of addr size) i ≡ in_lane addr size i
test_bit-lane_mask addr size i =
    let s = lane_shift addr size in
    let k = lane_width size in
    ground (
      arith,
      test_bit-shl32 (size_mask size) s i,
      ap (λ (m : ℕ). test_bit m (i - s)) (size_mask-width size),
      test_bit-mask k (i - s),
      lane_within addr size,
    )

-- Bit i of the lane is bit i of the value.
pub test_bit-write_bits :
    (addr size value i : ℕ)
    → i < lane_width size
    → test_bit (write_bits_of addr size value) (lane_shift addr size + i) ≡ test_bit value i
test_bit-write_bits addr size value i h =
    let s = lane_shift addr size in
    let e : s + i - s ≡ i = omega arith in
    ground (
      arith,
      test_bit-bit_and (shl32 value s) (lane_mask_of addr size) (s + i),
      test_bit-shl32 value s (s + i),
      test_bit-lane_mask addr size (s + i),
      ap (λ (t : ℕ). test_bit value t) e,
      lane_within addr size,
    )

-- Reading a lane takes the bits of the word from the lane's shift on.
pub test_bit-read_lane :
    (word addr size i : ℕ)
    → i < lane_width size
    → test_bit (bit_and (shr word (lane_shift addr size)) (size_mask size)) i
      ≡ test_bit word (lane_shift addr size + i)
test_bit-read_lane word addr size i h =
    let s = lane_shift addr size in
    ground (
      arith,
      test_bit-bit_and (shr word s) (size_mask size) i,
      test_bit-div s word i,
      ap (λ (m : ℕ). test_bit m i) (size_mask-width size),
      test_bit-mask (lane_width size) i,
    )
