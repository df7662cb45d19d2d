-- ===== src/Mem/Tests.antt =====
-- Runs of src/mem/memory.cpp on small inputs.
use saturnis.Base.{ℕ, ◌*◌, ◌/◌, ◌%◌, ◌^◌, ◌≡◌, refl, true, some, [], ◌∷◌, arith, subst, sym}
use saturnis.Mem.{
  CommittedMemory, memory_read, memory_write, read_block, StoreEntry, StoreBuffer, retire,
  retire_in, TinyCache, line_at, cache_read, cache_write,
}
use saturnis.Mem.Bytes.{load, store, slice}
use saturnis.Mem.Committed.{IsMemory, big_endian, memory_read-read_block}
use saturnis.Mem.Cache.{
  IsCurrent, IsShaped, IsCoherent, Hit, cache_read-IsCoherent, cache_write-IsCoherent,
  cache_write_stale,
}

abbrev memory : CommittedMemory
memory = record { bytes = 1 ∷ 2 ∷ 3 ∷ 4 ∷ 5 ∷ 6 ∷ 7 ∷ 8 ∷ [] }

memory-IsMemory : IsMemory memory
memory-IsMemory = omega arith

read_word : memory_read memory 2 4 ≡ 0x03040506
unfolding memory_read load
read_word = refl

write_out_of_range : memory_write memory 6 4 0 ≡ memory
unfolding memory_write store
write_out_of_range = refl

-- One line of 4 bytes, which holds the second block.
abbrev cache : TinyCache
cache = record {
  line_size = 4;
  lines = record { valid = true; tag = 1; bytes = 5 ∷ 6 ∷ 7 ∷ 8 ∷ [] } ∷ [];
}

line_at-cache :
    (base : ℕ) → line_at cache base ≡ record { valid = true; tag = 1; bytes = 5 ∷ 6 ∷ 7 ∷ 8 ∷ [] }
line_at-cache base = ground arith

cache-IsCoherent : IsCoherent cache memory
unfolding slice
cache-IsCoherent base valid tagged =
    let e : base ≡ 1 = ground (arith, line_at-cache base) in
    subst (λ (b : ℕ). IsCurrent 4 memory b (line_at cache b)) (sym e)
      (record { inside = omega arith; same = refl })

cache-IsShaped : IsShaped cache
cache-IsShaped = record { has_bytes = omega arith; has_lines = omega arith }

cache_hit : cache_read cache 5 2 ≡ some 0x0607
unfolding cache_read load
cache_hit = refl

cache_read-IsCoherent_example : 0x0607 ≡ memory_read memory 5 2
cache_read-IsCoherent_example =
    cache_read-IsCoherent cache memory 5 2 0x0607 cache-IsCoherent memory-IsMemory (omega arith)
      cache_hit

cache_write-IsCoherent_example :
    IsCoherent (cache_write cache 5 2 0xAABB) (memory_write memory 5 2 0xAABB)
cache_write-IsCoherent_example =
    cache_write-IsCoherent cache memory 5 2 0xAABB cache-IsShaped cache-IsCoherent (omega arith)
      (omega arith)

-- A cache with the first block, and a write of 2 bytes from its last byte on.
abbrev first_block : TinyCache
first_block = record {
  line_size = 4;
  lines = record { valid = true; tag = 0; bytes = 1 ∷ 2 ∷ 3 ∷ 4 ∷ [] } ∷ [];
}

first_block-IsCoherent : IsCoherent first_block memory
unfolding slice
first_block-IsCoherent base valid tagged =
    let e : base ≡ 0 = ground arith in
    subst (λ (b : ℕ). IsCurrent 4 memory b (line_at first_block b)) (sym e)
      (record { inside = omega arith; same = refl })

first_block-Hit : Hit first_block 3 1
first_block-Hit = record { valid = refl; tagged = refl; fits = omega arith }

cache_write_stale_example :
    (cache_read (cache_write first_block 3 2 0xAABB) 3 1 ≡ some (memory_read memory 3 1))
    × (memory_read (memory_write memory 3 2 0xAABB) 3 1 ≡ 0xAABB / 2 ^ (8 * 1) % 256)
cache_write_stale_example =
    cache_write_stale first_block memory 3 2 0xAABB first_block-IsCoherent memory-IsMemory
      first_block-Hit (omega arith) (omega arith) (omega arith) (omega arith)

abbrev entry : ℕ → ℕ → StoreEntry
entry id value = record { store_id = id; phys = 8; size = 4; value = value }

abbrev buffer : StoreBuffer
buffer = record { entries = entry 1 10 ∷ entry 2 20 ∷ entry 2 30 ∷ [] }

retire_second : (retire buffer 2).0.entries ≡ entry 1 10 ∷ entry 2 30 ∷ []
unfolding retire retire_in
retire_second = refl

memory_read-read_block_example : memory_read memory 2 4 ≡ big_endian 0 (read_block memory 2 4)
memory_read-read_block_example = memory_read-read_block memory 2 4 memory-IsMemory (omega arith)
