-- ===== src/Replay/Select.antt =====
-- tools/trace_replay/trace_replay.cpp: the first part of `main`, which orders the records, leaves out those of an
-- unknown master and counts the others. A map from keys to counts is an association list, and a key that the
-- source joins out of names is the tuple of them.
use saturnis.Base.{
  ℕ, ◌+◌, ◌-◌, Bool, not, ◌&&◌, Option, none, some, List, [], ◌∷◌, ◌++◌, leb, ltb, ◌==◌,
  if◌then◌else◌, length,
}
use saturnis.Busarb.{BusMasterId}
use saturnis.Replay.Text.{Text, eq_text}
use saturnis.Replay.Records.{
  TraceRecord, parse_master, Region, region_name, region_code, CacheBucket, bucket_code,
  classify_cache_bucket,
}
use saturnis.Replay.Load.{Loading}

-- The order of `std::stable_sort`.
unfoldable pub comes_before : TraceRecord → TraceRecord → Bool
comes_before a b =
    if not (a.tick_complete == b.tick_complete)
    then ltb a.tick_complete b.tick_complete
    else ltb a.seq b.seq

unfoldable pub insert_record : TraceRecord → List TraceRecord → List TraceRecord
insert_record r [] = r ∷ []
insert_record r (q ∷ rest) = if comes_before q r then q ∷ insert_record r rest else r ∷ q ∷ rest

unfoldable pub sort_records : List TraceRecord → List TraceRecord
sort_records [] = []
sort_records (r ∷ rest) = insert_record r (sort_records rest)

module _ {K : Type 0} (same : K → K → Bool) where
  -- `m[key] += 1`.
  unfoldable pub bump : K → List (K × ℕ) → List (K × ℕ)
  bump key [] = (key, 1) ∷ []
  bump key ((k, n) ∷ rest) = if same k key then (k, n + 1) ∷ rest else (k, n) ∷ bump key rest

abbrev pub same_region : Region → Region → Bool
same_region a b = region_code a == region_code b

abbrev pub same_bucket : CacheBucket → CacheBucket → Bool
same_bucket a b = bucket_code a == bucket_code b

abbrev pub AccessKey : Type 0
AccessKey = Text × Region × Text × CacheBucket

abbrev pub same_access : AccessKey → AccessKey → Bool
same_access (m, r, k, b) (n, q, l, c) =
    eq_text m n && same_region r q && eq_text k l && same_bucket b c

abbrev pub same_place : Text × Region → Text × Region → Bool
same_place (m, r) (n, q) = eq_text m n && same_region r q

-- `filtered_records` and the maps beside it.
pub record Selection : Type 0 where
  pub filtered_records : List TraceRecord
  pub invalid_master : ℕ
  pub by_master : List (Text × ℕ)
  pub by_region : List (Region × ℕ)
  pub by_size : List (ℕ × ℕ)
  pub by_rw : List (Text × ℕ)
  pub by_access_kind : List (Text × ℕ)
  pub by_master_region : List ((Text × Region) × ℕ)
  pub by_cache_bucket : List (CacheBucket × ℕ)
  pub by_access : List (AccessKey × ℕ)
  pub byte_access_candidates : ℕ

abbrev pub new_selection : Selection
new_selection = record {
  filtered_records = [];
  invalid_master = 0;
  by_master = [];
  by_region = [];
  by_size = [];
  by_rw = [];
  by_access_kind = [];
  by_master_region = [];
  by_cache_bucket = [];
  by_access = [];
  byte_access_candidates = 0;
}

unfoldable pub include_record : Selection → TraceRecord → Selection
include_record s r =
    let region = region_name r.addr in
    let bucket = classify_cache_bucket r.addr r.service_cycles in
    record {
      filtered_records = s.filtered_records ++ r ∷ [];
      invalid_master = s.invalid_master;
      by_master = bump eq_text r.master s.by_master;
      by_region = bump same_region region s.by_region;
      by_size = bump ◌==◌ r.size s.by_size;
      by_rw = bump eq_text r.rw s.by_rw;
      by_access_kind = bump eq_text r.kind s.by_access_kind;
      by_master_region = bump same_place (r.master, region) s.by_master_region;
      by_cache_bucket = bump same_bucket bucket s.by_cache_bucket;
      by_access = bump same_access (r.master, region, r.kind, bucket) s.by_access;
      byte_access_candidates =
          if r.size == 1 then s.byte_access_candidates + 1 else s.byte_access_candidates;
    }

-- The body of the loop, on what the master's name is read as.
unfoldable pub select_record : Selection → TraceRecord → Option BusMasterId → Selection
select_record s r none = record s { invalid_master = s.invalid_master + 1 }
select_record s r (some m) = include_record s r

unfoldable pub select_records : Selection → List TraceRecord → Selection
select_records s [] = s
select_records s (r ∷ rest) = select_records (select_record s r (parse_master r.master)) rest

-- The numbers of the hygiene summary.
pub record Hygiene : Type 0 where
  pub total_events : ℕ
  pub included_events : ℕ
  pub excluded_events : ℕ
  pub excluded_malformed_line : ℕ
  pub excluded_invalid_master : ℕ

unfoldable pub summarise : Loading → Hygiene
summarise l =
    let s = select_records new_selection (sort_records l.records) in
    let included_events = length s.filtered_records in
    record {
      total_events = l.stats.total_events;
      included_events = included_events;
      excluded_events =
          if leb included_events l.stats.total_events
          then l.stats.total_events - included_events
          else 0;
      excluded_malformed_line = l.stats.malformed_lines;
      excluded_invalid_master = s.invalid_master;
    }
