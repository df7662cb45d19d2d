-- ===== src/Mem.antt =====
-- src/mem/memory.hpp and memory.cpp: committed memory, the tiny cache, the store buffer and the address
-- map. A byte is a number below 256. Accesses have at most 4 bytes, which is what the bus lets through;
-- for more the source shifts a `uint32_t` by 32 or more, which C++ leaves undefined.
pub mod Bytes
pub mod Slices
pub mod Committed
pub mod Cache
pub mod Stores
mod Tests
use mathlib.Core.List.{reverse}
use saturnis.Base.{
  ℕ, zero, suc, ◌+◌, ◌*◌, ◌/◌, ◌%◌, Bool, true, false, not, ◌&&◌, ◌||◌, Option, none, some, List,
  [], ◌∷◌, ◌++◌, bit_and, leb, ◌==◌, if◌then◌else◌, length, get_or, set, replicate,
}
use Bytes.{load, store, slice}

-- The three functions of the address map.
unfoldable pub to_phys : ℕ → ℕ
to_phys vaddr = bit_and vaddr 0x1FFF_FFFF

unfoldable pub is_uncached_alias : ℕ → Bool
is_uncached_alias vaddr = not (bit_and vaddr 0x2000_0000 == 0)

unfoldable pub is_mmio : ℕ → Bool
is_mmio phys =
    (leb 0x05C0_0000 phys && leb phys 0x05CF_FFFF)
    || (leb 0x05D0_0000 phys && leb phys 0x05DF_FFFF)
    || (leb 0x05F0_0000 phys && leb phys 0x05FF_FFFF)

pub record CommittedMemory : Type 0 where
  pub bytes : List ℕ

unfoldable pub new_memory : ℕ → CommittedMemory
new_memory size_bytes = record { bytes = replicate size_bytes 0 }

abbrev pub access_in_range : ℕ → ℕ → ℕ → Bool
access_in_range storage_size phys size = leb (phys + size) storage_size

unfoldable pub memory_read : CommittedMemory → ℕ → ℕ → ℕ
memory_read m phys size =
    if access_in_range (length m.bytes) phys size then load m.bytes phys size 0 else 0

unfoldable pub memory_write : CommittedMemory → ℕ → ℕ → ℕ → CommittedMemory
memory_write m phys size value =
    if access_in_range (length m.bytes) phys size
    then record { bytes = store m.bytes phys size value }
    else m

unfoldable pub read_block : CommittedMemory → ℕ → ℕ → List ℕ
read_block m phys size =
    if access_in_range (length m.bytes) phys size then slice m.bytes phys size else replicate size 0

pub record StoreEntry : Type 0 where
  pub store_id : ℕ
  pub phys : ℕ
  pub size : ℕ
  pub value : ℕ

-- The deque's entries, oldest first.
pub record StoreBuffer : Type 0 where
  pub entries : List StoreEntry

unfoldable pub push : StoreBuffer → StoreEntry → StoreBuffer
push b e = record { entries = b.entries ++ e ∷ [] }

-- The loop of `forward`, over the entries from the newest on.
unfoldable pub forward_in : List StoreEntry → ℕ → ℕ → Option ℕ
forward_in [] phys size = none
forward_in (e ∷ es) phys size =
    if e.phys == phys && e.size == size then some e.value else forward_in es phys size

unfoldable pub forward : StoreBuffer → ℕ → ℕ → Option ℕ
forward b phys size = forward_in (reverse b.entries) phys size

-- `std::find_if` and `erase`: the entries without the first of an id, if there is one.
unfoldable pub retire_in : List StoreEntry → ℕ → Option (List StoreEntry)
retire_in [] id = none
retire_in (e ∷ es) id =
    let rest = retire_in es id in
    if e.store_id == id then some es else elim rest [ none ↦ none | some r ↦ some (e ∷ r) ]

unfoldable pub retire : StoreBuffer → ℕ → StoreBuffer × Bool
retire b id = elim (retire_in b.entries id) [
  | none ↦ (b, false)
  | some es ↦ (record { entries = es }, true)
]

pub record CacheLine : Type 0 where
  pub valid : Bool
  pub tag : ℕ
  pub bytes : List ℕ

pub record TinyCache : Type 0 where
  pub line_size : ℕ
  pub lines : List CacheLine

abbrev pub empty_line : ℕ → CacheLine
empty_line line_size = record { valid = false; tag = 0; bytes = replicate line_size 0 }

unfoldable pub new_cache : ℕ → ℕ → TinyCache
new_cache line_size line_count = record {
  line_size = line_size;
  lines = replicate line_count (empty_line line_size);
}

abbrev pub line_index : TinyCache → ℕ → ℕ
line_index c line_base = line_base % length c.lines

abbrev pub line_at : TinyCache → ℕ → CacheLine
line_at c line_base = get_or c.lines (line_index c line_base) (empty_line c.line_size)

-- The line of an address is in the cache, and the access does not leave it.
abbrev pub hits : TinyCache → ℕ → ℕ → Bool
hits c phys size =
    let line = line_at c (phys / c.line_size) in
    line.valid && line.tag == phys / c.line_size && leb (phys % c.line_size + size) c.line_size

-- `none` where the source returns false.
unfoldable pub cache_read : TinyCache → ℕ → ℕ → Option ℕ
cache_read c phys size =
    if hits c phys size
    then some (load (line_at c (phys / c.line_size)).bytes (phys % c.line_size) size 0)
    else none

unfoldable pub cache_write : TinyCache → ℕ → ℕ → ℕ → TinyCache
cache_write c phys size value =
    let line = line_at c (phys / c.line_size) in
    if hits c phys size
    then record c {
      lines =
          set c.lines (line_index c (phys / c.line_size))
            (record line { bytes = store line.bytes (phys % c.line_size) size value });
    }
    else c

unfoldable pub fill_line : TinyCache → ℕ → List ℕ → TinyCache
fill_line c line_base line_data =
    if length line_data == c.line_size
    then record c {
      lines =
          set c.lines (line_index c line_base)
            (record { valid = true; tag = line_base; bytes = line_data });
    }
    else c
