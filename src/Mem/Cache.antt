-- ===== src/Mem/Cache.antt =====
-- TinyCache of src/mem/memory.cpp against committed memory: filled lines and writes through the cache.
use saturnis.Base.{
  ℕ, suc, ◌+◌, ◌-◌, ◌*◌, ◌/◌, ◌%◌, ◌^◌, ◌≤◌, ◌<◌, ◌≡◌, ◌≢◌, refl, ap, sym, subst, ◌∙◌, ◌⊎◌, inl,
  inr, true, false, some, arith, length, get_or, set, length-set, get_or-set_self, get_or-set_ne,
  Bool-cases, ℕ_discrete, dec_lt,
}
use saturnis.Mem.{
  CommittedMemory, memory_read, memory_write, read_block, CacheLine, TinyCache, empty_line,
  line_index, line_at, hits, cache_read, cache_write, fill_line,
}
use saturnis.Mem.Bytes.{
  load, store, slice, word_at, load-word_at, length-slice, length-store, slice-IsByte,
  word_at-slice,
}
use saturnis.Mem.Slices.{slice-store, slice-store_outside}
use saturnis.Mem.Committed.{IsMemory, memory_read-write}

-- The constructor's sizes: neither is 0.
pub record IsShaped (c : TinyCache) : Type 0 where
  pub has_bytes : 0 < c.line_size
  pub has_lines : 0 < length c.lines

-- A line holds the block of memory of a base.
pub record IsCurrent (n : ℕ) (m : CommittedMemory) (base : ℕ) (line : CacheLine) : Type 0 where
  pub inside : base * n + n ≤ length m.bytes
  pub same : line.bytes ≡ slice m.bytes (base * n) n

-- Every line that is valid and tagged with its own base is current.
abbrev pub IsCoherent : TinyCache → CommittedMemory → Type 0
IsCoherent c m =
    (base : ℕ)
    → (line_at c base).valid ≡ true
    → (line_at c base).tag ≡ base
    → IsCurrent c.line_size m base (line_at c base)

pub record Hit (c : TinyCache) (phys size : ℕ) : Type 0 where
  pub valid : (line_at c (phys / c.line_size)).valid ≡ true
  pub tagged : (line_at c (phys / c.line_size)).tag ≡ phys / c.line_size
  pub fits : phys % c.line_size + size ≤ c.line_size

pub hits-Hit : (c : TinyCache) (phys size : ℕ) → hits c phys size ≡ true → Hit c phys size
hits-Hit c phys size h = ground arith

no_hit :
    (c : TinyCache) (phys size : ℕ)
    → hits c phys size ≡ false
    → phys % c.line_size + size ≤ c.line_size
    → (line_at c (phys / c.line_size)).valid ≡ true
    → (line_at c (phys / c.line_size)).tag ≡ phys / c.line_size
    → ⊥
no_hit c phys size h fits valid tagged = ground arith

cache_read-Hit :
    (c : TinyCache) (phys size : ℕ)
    → Hit c phys size
    → cache_read c phys size
      ≡ some (load (line_at c (phys / c.line_size)).bytes (phys % c.line_size) size 0)
unfolding cache_read
cache_read-Hit c phys size hit = ground arith

split_phys : (phys n : ℕ) → phys / n * n + phys % n ≡ phys
split_phys phys n = omega arith

cache_read-some :
    (c : TinyCache) (phys size v : ℕ)
    → cache_read c phys size ≡ some v
    → Hit c phys size
      × (v ≡ load (line_at c (phys / c.line_size)).bytes (phys % c.line_size) size 0)
unfolding cache_read
cache_read-some c phys size v e = ground arith

-- What a coherent cache reads is what memory holds.
pub cache_read-IsCoherent :
    (c : TinyCache) (m : CommittedMemory) (phys size v : ℕ)
    → IsCoherent c m
    → IsMemory m
    → size ≤ 4
    → cache_read c phys size ≡ some v
    → v ≡ memory_read m phys size
unfolding memory_read
cache_read-IsCoherent c m phys size v co bytes k e =
    let (hit, value) = cache_read-some c phys size v e in
    let base = phys / c.line_size in
    let off = phys % c.line_size in
    let current = co base hit.valid hit.tagged in
    let at : base * c.line_size + off ≡ phys = split_phys phys c.line_size in
    let block = slice m.bytes (base * c.line_size) c.line_size in
    let held : v ≡ load block off size 0 = value ∙ ap (λ bs. load bs off size 0) current.same in
    ground (
      arith,
      held,
      at,
      current.inside,
      hit.fits,
      load-word_at block off size (slice-IsByte m.bytes (base * c.line_size) c.line_size bytes) k,
      word_at-slice m.bytes (base * c.line_size) c.line_size off size hit.fits,
      load-word_at m.bytes phys size bytes k,
      ap (λ (t : ℕ). word_at m.bytes t size) at,
    )

mul_le : (n a b : ℕ) → a ≤ b → a * n ≤ b * n
mul_le n a b h = grind arith

-- The cache with one line replaced.
abbrev put_line : TinyCache → ℕ → CacheLine → TinyCache
put_line c base line = record c { lines = set c.lines (line_index c base) line }

module _ (c : TinyCache) (shaped : IsShaped c) (base : ℕ) (line : CacheLine) where
  index_lt : line_index c base < length c.lines
  index_lt = omega (arith, shaped.has_lines)

  same_index : (b : ℕ) → line_index (put_line c base line) b ≡ line_index c b
  same_index b = ap (λ (n : ℕ). b % n) (length-set c.lines (line_index c base) line)

  line_at-put_same :
      (b : ℕ) → line_index c base ≡ line_index c b → line_at (put_line c base line) b ≡ line
  line_at-put_same b e =
      ap (λ (i : ℕ). get_or (set c.lines (line_index c base) line) i (empty_line c.line_size))
        (same_index b ∙ sym e)
      ∙ get_or-set_self c.lines (line_index c base) line (empty_line c.line_size) index_lt

  line_at-put_ne :
      (b : ℕ) → line_index c base ≢ line_index c b → line_at (put_line c base line) b ≡ line_at c b
  line_at-put_ne b e =
      ap (λ (i : ℕ). get_or (set c.lines (line_index c base) line) i (empty_line c.line_size))
        (same_index b)
      ∙ get_or-set_ne c.lines (line_index c base) (line_index c b) line (empty_line c.line_size) e

  -- A cache stays coherent with a memory if the new line is current for its tag, and every line of
  -- another base is.
  put_line-IsCoherent :
      (m : CommittedMemory)
      → line.tag ≡ base
      → (line.valid ≡ true → IsCurrent c.line_size m base line)
      → ((b : ℕ)
          → b ≢ base
          → (line_at c b).valid ≡ true
          → (line_at c b).tag ≡ b
          → IsCurrent c.line_size m b (line_at c b))
      → IsCoherent (put_line c base line) m
  put_line-IsCoherent m tag new old b valid tagged =
      elim (ℕ_discrete (line_index c base) (line_index c b)) [
        | yes e ↦
            let p = line_at-put_same b e in
            let at_b : base ≡ b = sym tag ∙ ap (λ (l : CacheLine). l.tag) (sym p) ∙ tagged in
            subst (IsCurrent c.line_size m b) (sym p) (
              subst (λ (t : ℕ). IsCurrent c.line_size m t line) at_b
                (new (ap (λ (l : CacheLine). l.valid) (sym p) ∙ valid)))
        | no ne ↦
            let p = line_at-put_ne b ne in
            subst (IsCurrent c.line_size m b) (sym p) (
              old b (λ e. ne (ap (line_index c) (sym e)))
                (ap (λ (l : CacheLine). l.valid) (sym p) ∙ valid)
                (ap (λ (l : CacheLine). l.tag) (sym p) ∙ tagged))
      ]

fill_line-block :
    (c : TinyCache) (m : CommittedMemory) (base : ℕ)
    → base * c.line_size + c.line_size ≤ length m.bytes
    → fill_line c base (read_block m (base * c.line_size) c.line_size)
      ≡ put_line c base (record {
        valid = true;
        tag = base;
        bytes = slice m.bytes (base * c.line_size) c.line_size;
      })
unfolding fill_line read_block
fill_line-block c m base inside =
    ground (arith, length-slice m.bytes (base * c.line_size) c.line_size)

-- A line filled with its block of memory keeps the cache coherent.
pub fill_line-IsCoherent :
    (c : TinyCache) (m : CommittedMemory) (base : ℕ)
    → IsShaped c
    → IsCoherent c m
    → base * c.line_size + c.line_size ≤ length m.bytes
    → IsCoherent (fill_line c base (read_block m (base * c.line_size) c.line_size)) m
fill_line-IsCoherent c m base shaped co inside =
    let block = slice m.bytes (base * c.line_size) c.line_size in
    let line : CacheLine = record { valid = true; tag = base; bytes = block } in
    subst (λ (d : TinyCache). IsCoherent d m) (sym (fill_line-block c m base inside))
      (put_line-IsCoherent c shaped base line m refl (λ _. record { inside = inside; same = refl })
        (λ b _. co b))

outside_block :
    (phys n b s : ℕ) → b ≢ phys / n → phys % n + s ≤ n → (phys + s ≤ b * n) ⊎ (b * n + n ≤ phys)
outside_block phys n b s ne fits = elim (dec_lt b (phys / n)) [
  | yes h ↦ inr (omega (arith, split_phys phys n, mul_le n (suc b) (phys / n) h))
  | no h ↦ inl (omega (arith, split_phys phys n, mul_le n (suc (phys / n)) b (omega arith)))
]

IsCurrent-outside :
    (m : CommittedMemory) (n phys size value b : ℕ) (line : CacheLine)
    → b ≢ phys / n
    → phys % n + size ≤ n
    → IsCurrent n m b line
    → IsCurrent n (memory_write m phys size value) b line
unfolding memory_write
IsCurrent-outside m n phys size value b line ne fits cur = record {
  inside = ground (arith, length-store m.bytes phys size value);
  same = ground (
    arith,
    slice-store_outside m.bytes (b * n) n cur.inside phys size value
        (outside_block phys n b size ne fits),
  );
}

cache_write-hit :
    (c : TinyCache) (phys size value : ℕ)
    → hits c phys size ≡ true
    → cache_write c phys size value
      ≡ put_line c (phys / c.line_size) (record (line_at c (phys / c.line_size)) {
        bytes = store (line_at c (phys / c.line_size)).bytes (phys % c.line_size) size value;
      })
unfolding cache_write
cache_write-hit c phys size value h = ground arith

cache_write-miss :
    (c : TinyCache) (phys size value : ℕ)
    → hits c phys size ≡ false
    → cache_write c phys size value ≡ c
unfolding cache_write
cache_write-miss c phys size value h = ground arith

memory_write-inside :
    (m : CommittedMemory) (phys size value : ℕ)
    → phys + size ≤ length m.bytes
    → memory_write m phys size value ≡ record { bytes = store m.bytes phys size value }
unfolding memory_write
memory_write-inside m phys size value h = ground arith

-- The line that a write hits, written, is current in the written memory.
IsCurrent-inside :
    (m : CommittedMemory) (n phys size value : ℕ) (line : CacheLine)
    → size ≤ 4
    → phys % n + size ≤ n
    → IsCurrent n m (phys / n) line
    → IsCurrent n
        (memory_write m phys size value)
        (phys / n)
        (record line { bytes = store line.bytes (phys % n) size value })
IsCurrent-inside m n phys size value line k fits cur =
    let at = split_phys phys n in
    let e = memory_write-inside m phys size value (omega (arith, at, cur.inside)) in
    let base = phys / n in
    let off = phys % n in
    rw e (record {
      inside = omega (arith, cur.inside, length-store m.bytes phys size value);
      same =
          ap (λ bs. store bs off size value) cur.same
          ∙ sym (slice-store m.bytes (base * n) n cur.inside off size value fits k)
          ∙ ap (λ (p : ℕ). slice (store m.bytes p size value) (base * n) n) at;
    })

-- A write that stays in one line, made to the cache and to memory, keeps the cache coherent.
pub cache_write-IsCoherent :
    (c : TinyCache) (m : CommittedMemory) (phys size value : ℕ)
    → IsShaped c
    → IsCoherent c m
    → size ≤ 4
    → phys % c.line_size + size ≤ c.line_size
    → IsCoherent (cache_write c phys size value) (memory_write m phys size value)
cache_write-IsCoherent c m phys size value shaped co k fits = elim (Bool-cases (hits c phys size)) [
  | inl h ↦
      let hit = hits-Hit c phys size h in
      let base = phys / c.line_size in
      let line = line_at c base in
      let m' = memory_write m phys size value in
      subst (λ (d : TinyCache). IsCoherent d m') (sym (cache_write-hit c phys size value h))
        (put_line-IsCoherent c shaped base
          (record line { bytes = store line.bytes (phys % c.line_size) size value }) m' hit.tagged
          (λ _.
            IsCurrent-inside m c.line_size phys size value line k fits
              (co base hit.valid hit.tagged))
          (λ b ne valid tagged.
            IsCurrent-outside m c.line_size phys size value b (line_at c b) ne fits
              (co b valid tagged)))
  | inr h ↦
      let m' = memory_write m phys size value in
      subst (λ (d : TinyCache). IsCoherent d m') (sym (cache_write-miss c phys size value h))
        (λ b valid tagged.
          IsCurrent-outside m c.line_size phys size value b (line_at c b)
            (λ e.
              no_hit c phys size h fits (subst (λ (t : ℕ). (line_at c t).valid ≡ true) e valid)
                (subst (λ (t : ℕ). (line_at c t).tag ≡ t) e tagged))
            fits (co b valid tagged))
]

-- A write that leaves the line of a cached byte is dropped by the cache, also for that byte: a read right after the
-- write still answers the byte that memory held before it, while memory now holds the value's first byte. The write
-- is of 1 to 4 bytes and inside memory, and the cache was coherent.
pub cache_write_stale :
    (c : TinyCache) (m : CommittedMemory) (phys size value : ℕ)
    → IsCoherent c m
    → IsMemory m
    → Hit c phys 1
    → c.line_size < phys % c.line_size + size
    → phys + size ≤ length m.bytes
    → 0 < size
    → size ≤ 4
    → (cache_read (cache_write c phys size value) phys 1 ≡ some (memory_read m phys 1))
      × (memory_read (memory_write m phys size value) phys 1 ≡ value / 2 ^ (8 * (size - 1)) % 256)
cache_write_stale c m phys size value co bytes hit crosses inside pos k =
    let same = cache_write-miss c phys size value (ground arith) in
    let v = load (line_at c (phys / c.line_size)).bytes (phys % c.line_size) 1 0 in
    let found : cache_read c phys 1 ≡ some v = cache_read-Hit c phys 1 hit in
    let old : v ≡ memory_read m phys 1 =
      cache_read-IsCoherent c m phys 1 v co bytes (omega arith) found in
    let at : phys + 0 ≡ phys = omega arith in
    let shift : size - 0 - 1 ≡ size - 1 = omega arith in
    (
      ap (λ (d : TinyCache). cache_read d phys 1) same ∙ found ∙ ap some old,
      rw (at, shift) at (memory_read-write m phys size value 0 1 bytes inside k (omega arith)),
    )
