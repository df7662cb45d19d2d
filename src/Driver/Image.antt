-- ===== src/Driver/Image.antt =====
-- The BIOS image of `run_bios_trace` in src/core/emulator.cpp, in memory.
use saturnis.Base.{
  ℕ, zero, suc, ◌+◌, ◌-◌, ◌*◌, ◌/◌, ◌%◌, ◌^◌, ◌<◌, ◌≤◌, ◌≡◌, ◌∙◌, refl, List, [], ◌∷◌, arith,
  length, get_or, replicate, All, All-replicate, length-replicate, get_or-All, Bool-cases, inl, inr,
  leb,
}
use saturnis.Base.Word.{u32}
use saturnis.Mem.{CommittedMemory, new_memory, memory_read, memory_write}
use saturnis.Mem.Bytes.{IsByte, load}
use saturnis.Mem.Committed.{
  IsMemory, memory_write-IsMemory, memory_read-write, memory_read-write_disjoint,
}
use saturnis.Driver.Bios.{load_image}

byte_read-write :
    (m : CommittedMemory) (q byte : ℕ)
    → IsMemory m
    → q < length m.bytes
    → byte < 256
    → memory_read (memory_write m q 1 byte) q 1 ≡ byte
byte_read-write m q byte v h b =
    let e : q + 0 ≡ q = omega arith in
    let r : memory_read (memory_write m q 1 byte) (q + 0) 1
        ≡ byte / 2 ^ (8 * (1 - 0 - 1)) % 2 ^ (8 * 1) =
      memory_read-write m q 1 byte 0 1 v (omega arith) (omega arith) (omega arith) in
    let r' : memory_read (memory_write m q 1 byte) q 1 ≡ byte / 1 % 256 = rw e at r in
    omega (arith, r')

-- Below the place where the image is written, memory is as before.
load_image-below :
    (m : CommittedMemory) (i : ℕ) (image : List ℕ) (q : ℕ)
    → IsMemory m
    → i + length image ≤ 2 ^ 32
    → q < i
    → memory_read (load_image m i image) q 1 ≡ memory_read m q 1
unfolding load_image
load_image-below m i [] q v h k = refl
load_image-below m i (byte ∷ image) q v h k =
    let at_i : u32 i ≡ i = omega arith in
    rw at_i (
      load_image-below (memory_write m i 1 byte) (suc i) image q
        (memory_write-IsMemory m i 1 byte v).0 (omega arith) (omega arith)
      ∙ memory_read-write_disjoint m i 1 byte q 1 v (omega arith) (inl (omega arith)))

load_image-from :
    (m : CommittedMemory) (i : ℕ) (image : List ℕ) (k : ℕ)
    → IsMemory m
    → i + length image ≤ length m.bytes
    → length m.bytes ≤ 2 ^ 32
    → All (λ byte. byte < 256) image
    → ((q : ℕ) → i ≤ q → memory_read m q 1 ≡ 0)
    → memory_read (load_image m i image) (i + k) 1 ≡ get_or image k 0
unfolding load_image
load_image-from m i [] k v h l b z = z (i + k) (omega arith)
load_image-from m i (byte ∷ image) zero v h l b z =
    let at_i : u32 i ≡ i = omega arith in
    let e : i + 0 ≡ i = omega arith in
    rw (at_i, e)
      (load_image-below (memory_write m i 1 byte) (suc i) image i
          (memory_write-IsMemory m i 1 byte v).0 (omega arith) (omega arith)
        ∙ byte_read-write m i byte v (omega arith) b.0)
load_image-from m i (byte ∷ image) (suc k) v h l b z =
    let at_i : u32 i ≡ i = omega arith in
    let e : i + suc k ≡ suc i + k = omega arith in
    let w = memory_write m i 1 byte in
    rw (at_i, e)
      (load_image-from w (suc i) image k (memory_write-IsMemory m i 1 byte v).0
        (omega (arith, (memory_write-IsMemory m i 1 byte v).1, h))
        (omega (arith, (memory_write-IsMemory m i 1 byte v).1, l)) b.1
        (λ q p.
          memory_read-write_disjoint m i 1 byte q 1 v (omega arith) (inr (omega arith))
          ∙ z q (omega arith)))

new_memory-IsMemory : (n : ℕ) → IsMemory (new_memory n)
unfolding new_memory
new_memory-IsMemory n = All-replicate IsByte n (omega arith)

new_memory-length : (n : ℕ) → length (new_memory n).bytes ≡ n
unfolding new_memory
new_memory-length n = length-replicate n 0

new_memory-zero : (n q : ℕ) → memory_read (new_memory n) q 1 ≡ 0
unfolding memory_read new_memory load
new_memory-zero n q =
    let z : get_or (replicate n 0) q 0 ≡ 0 =
      get_or-All (λ (x : ℕ). x ≡ 0) (replicate n 0) q refl
        (All-replicate (λ (x : ℕ). x ≡ 0) n refl) in
    let zeros : List ℕ = replicate n 0 in
    elim (Bool-cases (leb (q + 1) (length zeros))) [ inl e ↦ rw (e, z) refl | inr e ↦ rw e refl ]

-- An image of bytes that fits in a memory of up to 2^32 bytes stands there from address 0 on, with zeros behind it.
pub load_image-new_memory :
    (size : ℕ) (image : List ℕ) (k : ℕ)
    → length image ≤ size
    → size ≤ 2 ^ 32
    → All IsByte image
    → memory_read (load_image (new_memory size) 0 image) k 1 ≡ get_or image k 0
load_image-new_memory size image k h l b =
    let e : 0 + k ≡ k = omega arith in
    let n = new_memory-length size in
    let r : memory_read (load_image (new_memory size) 0 image) (0 + k) 1 ≡ get_or image k 0 =
      load_image-from (new_memory size) 0 image k (new_memory-IsMemory size) (omega (arith, n))
        (omega (arith, n)) b (λ q p. new_memory-zero size q) in
    rw e at r
