-- ===== src/Replay/Accounting.antt =====
-- tools/trace_replay/trace_replay.cpp: every event that is read is accounted for, by the loading and by the
-- selection in `main`.
use saturnis.Base.{
  ℕ, zero, suc, ◌+◌, ◌≡◌, refl, Bool, true, false, Option, none, some, List, [], ◌∷◌, ◌==◌,
  if◌then◌else◌, length, length-append, arith,
}
use saturnis.Busarb.{BusMasterId}
use saturnis.Replay.Text.{Text, eq_text}
use saturnis.Replay.Records.{
  TraceRecord, ◌>>=◌, parse_record, parse_master, region_name, classify_cache_bucket,
}
use saturnis.Replay.Load.{
  Loading, new_loading, keep, counted, keep_or_skip, load_lines, load_jsonl_records,
}
use saturnis.Replay.Binary.{
  read_bytes, decode_record, raw_record, load_structs, load_header, load_binary_records,
}
use saturnis.Replay.Select.{
  insert_record, sort_records, bump, Selection, new_selection, same_region, same_place, same_bucket,
  same_access, include_record, select_record, select_records, Hygiene, summarise,
}

-- Each event is a record or a malformed one.
abbrev pub IsCounted : Loading → Type 0
IsCounted l = l.stats.total_events ≡ length l.records + l.stats.malformed_lines

keep_or_skip-IsCounted :
    (l : Loading) (o : Option TraceRecord) → IsCounted l → IsCounted (keep_or_skip (counted l) o)
unfolding keep
keep_or_skip-IsCounted l none h = omega arith
keep_or_skip-IsCounted l (some rec) h = omega (arith, length-append {0} l.records (rec ∷ []))

load_lines-IsCounted :
    (n : ℕ) (l : Loading) (lines : List Text) → IsCounted l → IsCounted (load_lines n l lines)
unfolding load_lines
load_lines-IsCounted n l [] h = h
load_lines-IsCounted n l ([] ∷ lines) h = load_lines-IsCounted (suc n) l lines h
load_lines-IsCounted n l ((c ∷ line) ∷ lines) h =
    let o = parse_record (c ∷ line) n in
    load_lines-IsCounted (suc n) (keep_or_skip (counted l) o) lines (keep_or_skip-IsCounted l o h)

pub load_structs-IsCounted :
    (n index : ℕ) (l : Loading) (input : List ℕ) (k : Loading)
    → IsCounted l
    → load_structs n index l input ≡ some k
    → IsCounted k
unfolding load_structs
load_structs-IsCounted zero index l input k h e = ground arith
load_structs-IsCounted (suc n) index l input k h e =
    let (got, rest) = read_bytes 48 input in
    let o = decode_record (raw_record got) index in
    went (length got == 0) (length got == 48)
      (load_structs n (suc index) (keep_or_skip (counted l) o) rest) l h
      (λ later.
        load_structs-IsCounted n (suc index) (keep_or_skip (counted l) o) rest k
          (keep_or_skip-IsCounted l o h) later)
      e
  where
    went :
        (a b : Bool) (after : Option Loading) (l : Loading)
        → IsCounted l
        → (after ≡ some k → IsCounted k)
        → (if a then some l else if b then after else none) ≡ some k
        → IsCounted k
    went true b after l h later e = ground arith
    went false true after l h later e = later e
    went false false after l h later e = cc

length-insert_record :
    (r : TraceRecord) (l : List TraceRecord) → length (insert_record r l) ≡ suc (length l)
unfolding insert_record
length-insert_record r [] = refl
length-insert_record r (q ∷ rest) = ground (arith, length-insert_record r rest)

length-sort_records : (l : List TraceRecord) → length (sort_records l) ≡ length l
unfolding sort_records
length-sort_records [] = refl
length-sort_records (r ∷ rest) =
    omega (arith, length-insert_record r (sort_records rest), length-sort_records rest)

select_record-one :
    (s : Selection) (r : TraceRecord) (o : Option BusMasterId)
    → length (select_record s r o).filtered_records + (select_record s r o).invalid_master
      ≡ length s.filtered_records + s.invalid_master + 1
unfolding select_record include_record
select_record-one s r none = omega arith
select_record-one s r (some m) = omega (arith, length-append {0} s.filtered_records (r ∷ []))

-- Each record is included or of an unknown master.
length-select_records :
    (s : Selection) (l : List TraceRecord)
    → let t = select_records s l in
      length t.filtered_records + t.invalid_master
      ≡ length s.filtered_records + s.invalid_master + length l
unfolding select_records
length-select_records s [] = omega arith
length-select_records s (r ∷ rest) =
    let o = parse_master r.master in
    omega (arith, length-select_records (select_record s r o) rest, select_record-one s r o)

-- The hygiene summary adds up: an event is included or excluded, and an excluded one is malformed or of an
-- unknown master.
abbrev pub AddsUp : Hygiene → Type 0
AddsUp h =
    (h.total_events ≡ h.included_events + h.excluded_events)
    × (h.excluded_events ≡ h.excluded_malformed_line + h.excluded_invalid_master)

summarise-AddsUp : (l : Loading) → IsCounted l → AddsUp (summarise l)
unfolding summarise
summarise-AddsUp l h = ground (
  arith,
  length-select_records new_selection (sort_records l.records),
  length-sort_records l.records,
)

-- Whatever the lines of a JSONL file are, its events are those included and those excluded, and the excluded ones
-- are the malformed lines and the records of an unknown master.
pub load_jsonl_records-AddsUp : (lines : List Text) → AddsUp (summarise (load_jsonl_records lines))
unfolding load_jsonl_records
load_jsonl_records-AddsUp lines =
    summarise-AddsUp (load_lines 1 new_loading lines)
      (load_lines-IsCounted 1 new_loading lines (omega arith))

load_binary_records-IsCounted :
    (input : List ℕ) (l : Loading) → load_binary_records input ≡ some l → IsCounted l
unfolding load_binary_records
load_binary_records-IsCounted input l e = go (load_header input) e
  where
    go :
        (o : Option (List ℕ))
        → (o >>= λ rest. load_structs (suc (length rest)) 0 new_loading rest) ≡ some l
        → IsCounted l
    go none e = cc
    go (some rest) e =
        load_structs-IsCounted (suc (length rest)) 0 new_loading rest l (omega arith) e

-- Whatever the bytes of a binary file that is not refused are, the summary adds up.
pub load_binary_records-AddsUp :
    (input : List ℕ) (l : Loading) → load_binary_records input ≡ some l → AddsUp (summarise l)
load_binary_records-AddsUp input l e = summarise-AddsUp l (load_binary_records-IsCounted input l e)

-- All counts of a map.
abbrev pub total {ℓ} : {K : Type ℓ} → List (K × ℕ) → ℕ
total [] = 0
total ((k, n) ∷ rest) = n + total rest

total-bump :
    {K : Type 0} (same : K → K → Bool) (key : K) (m : List (K × ℕ))
    → total (bump same key m) ≡ total m + 1
unfolding bump
total-bump same key [] = omega arith
total-bump same key ((k, n) ∷ rest) = ground (arith, total-bump same key rest)

-- Each of the maps counts every included record once.
pub record CountsAll (s : Selection) : Type 0 where
  pub masters : total s.by_master ≡ length s.filtered_records
  pub regions : total s.by_region ≡ length s.filtered_records
  pub sizes : total s.by_size ≡ length s.filtered_records
  pub rws : total s.by_rw ≡ length s.filtered_records
  pub access_kinds : total s.by_access_kind ≡ length s.filtered_records
  pub places : total s.by_master_region ≡ length s.filtered_records
  pub buckets : total s.by_cache_bucket ≡ length s.filtered_records
  pub accesses : total s.by_access ≡ length s.filtered_records

select_record-CountsAll :
    (s : Selection) (r : TraceRecord) (o : Option BusMasterId)
    → CountsAll s
    → CountsAll (select_record s r o)
unfolding select_record include_record
select_record-CountsAll s r none h = record {
  masters = h.masters;
  regions = h.regions;
  sizes = h.sizes;
  rws = h.rws;
  access_kinds = h.access_kinds;
  places = h.places;
  buckets = h.buckets;
  accesses = h.accesses;
}
select_record-CountsAll s r (some m) h =
    let more = length-append {0} s.filtered_records (r ∷ []) in
    record {
      masters = omega (arith, more, h.masters, total-bump eq_text r.master s.by_master);
      regions =
          omega (arith, more, h.regions, total-bump same_region (region_name r.addr) s.by_region);
      sizes = omega (arith, more, h.sizes, total-bump ◌==◌ r.size s.by_size);
      rws = omega (arith, more, h.rws, total-bump eq_text r.rw s.by_rw);
      access_kinds =
          omega (arith, more, h.access_kinds, total-bump eq_text r.kind s.by_access_kind);
      places = omega (
        arith,
        more,
        h.places,
        total-bump same_place (r.master, region_name r.addr) s.by_master_region,
      );
      buckets = omega (
        arith,
        more,
        h.buckets,
        total-bump same_bucket (classify_cache_bucket r.addr r.service_cycles) s.by_cache_bucket,
      );
      accesses = omega (
        arith,
        more,
        h.accesses,
        total-bump same_access
            (r.master, region_name r.addr, r.kind, classify_cache_bucket r.addr r.service_cycles)
            s.by_access,
      );
    }

select_records-CountsAll :
    (s : Selection) (l : List TraceRecord) → CountsAll s → CountsAll (select_records s l)
unfolding select_records
select_records-CountsAll s [] h = h
select_records-CountsAll s (r ∷ rest) h =
    let o = parse_master r.master in
    select_records-CountsAll (select_record s r o) rest (select_record-CountsAll s r o h)

-- Whatever records are selected from, each of the eight distributions adds up to the number of those included.
pub select_records-CountsAll_new :
    (l : List TraceRecord) → CountsAll (select_records new_selection l)
select_records-CountsAll_new l = select_records-CountsAll new_selection l (record {
  masters = refl;
  regions = refl;
  sizes = refl;
  rws = refl;
  access_kinds = refl;
  places = refl;
  buckets = refl;
  accesses = refl;
})
