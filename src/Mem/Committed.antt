-- ===== src/Mem/Committed.antt =====
-- Committed memory of src/mem/memory.cpp: what reads see of writes.
use saturnis.Base.{
  ℕ, zero, suc, ◌+◌, ◌-◌, ◌*◌, ◌/◌, ◌%◌, ◌^◌, ◌≤◌, ◌≡◌, refl, ap, ◌⊎◌, List, [], ◌∷◌, arith, length,
  get_or, replicate, All,
}
use saturnis.Mem.{CommittedMemory, memory_read, memory_write, read_block}
use saturnis.Mem.Bytes.{
  store, slice, IsByte, word_at, load-word_at, length-store, store-IsByte, word_at-store,
  word_at-store_outside, pow_byte,
}

-- The vector holds bytes.
abbrev pub IsMemory : CommittedMemory → Type 0
IsMemory m = All IsByte m.bytes

-- A write keeps the vector one of bytes, of the same size.
pub memory_write-IsMemory :
    (m : CommittedMemory) (phys size value : ℕ)
    → IsMemory m
    → IsMemory (memory_write m phys size value)
      × (length (memory_write m phys size value).bytes ≡ length m.bytes)
unfolding memory_write
memory_write-IsMemory m p s v h =
    ground (arith, store-IsByte m.bytes p s v h, length-store m.bytes p s v)

-- A read inside the range of a write sees the matching bytes of the value, most significant first: the
-- t bytes at place i of an s-byte write in range.
pub memory_read-write :
    (m : CommittedMemory) (phys size value i t : ℕ)
    → IsMemory m
    → phys + size ≤ length m.bytes
    → size ≤ 4
    → i + t ≤ size
    → memory_read (memory_write m phys size value) (phys + i) t
      ≡ value / 2 ^ (8 * (size - i - t)) % 2 ^ (8 * t)
unfolding memory_read memory_write
memory_read-write m p s v i t h r k l = ground (
  arith,
  length-store m.bytes p s v,
  load-word_at (store m.bytes p s v) (p + i) t (store-IsByte m.bytes p s v h) (omega arith),
  word_at-store m.bytes p s v i t r k l,
)

-- A read that does not overlap a write is not changed by it, in range or not.
pub memory_read-write_disjoint :
    (m : CommittedMemory) (phys size value q t : ℕ)
    → IsMemory m
    → t ≤ 4
    → (q + t ≤ phys) ⊎ (phys + size ≤ q)
    → memory_read (memory_write m phys size value) q t ≡ memory_read m q t
unfolding memory_read memory_write
memory_read-write_disjoint m p s v q t h k d = ground (
  arith,
  length-store m.bytes p s v,
  load-word_at (store m.bytes p s v) q t (store-IsByte m.bytes p s v h) k,
  load-word_at m.bytes q t h k,
  word_at-store_outside m.bytes p s v q t d,
)

-- The number that a list of bytes spells, most significant first.
pub big_endian : ℕ → List ℕ → ℕ
big_endian acc [] = acc
big_endian acc (b ∷ bs) = big_endian (acc * 256 + b) bs

big_endian-slice :
    (bytes : List ℕ) (at n acc : ℕ)
    → n ≤ 4
    → big_endian acc (slice bytes at n) ≡ acc * 2 ^ (8 * n) + word_at bytes at n
unfolding big_endian slice word_at
big_endian-slice bytes at zero acc k = omega arith
big_endian-slice bytes at (suc n) acc k = omega (
  arith,
  big_endian-slice bytes (suc at) n (acc * 256 + get_or bytes at 0) (omega arith),
  ap (λ (t : ℕ). acc * t) (pow_byte n (omega arith)),
)

big_endian-zeros : (n : ℕ) → big_endian 0 (replicate n 0) ≡ 0
unfolding big_endian
big_endian-zeros zero = refl
big_endian-zeros (suc n) = big_endian-zeros n

-- `read` and `read_block` agree: a word of at most 4 bytes is its block of bytes read most significant first, in
-- range or not.
pub memory_read-read_block :
    (m : CommittedMemory) (phys size : ℕ)
    → IsMemory m
    → size ≤ 4
    → memory_read m phys size ≡ big_endian 0 (read_block m phys size)
unfolding memory_read read_block
memory_read-read_block m p s h k =
    ground
      (arith, load-word_at m.bytes p s h k, big_endian-slice m.bytes p s 0 k, big_endian-zeros s)
