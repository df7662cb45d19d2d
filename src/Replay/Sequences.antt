-- ===== src/Replay/Sequences.antt =====
-- tools/trace_replay/trace_replay.cpp: the counts of duplicate and of non-monotonic sequence numbers.
use saturnis.Base.{
  ℕ, suc, ◌≡◌, ◌≤◌, ◌<◌, refl, ap, false, Option, none, some, List, [], ◌∷◌, ◌++◌, arith, All,
  All-map, All-append,
}
use saturnis.Replay.Text.{Text}
use saturnis.Replay.Records.{TraceRecord, parse_record}
use saturnis.Replay.Load.{
  Loading, new_loading, contains, not_above, keep, counted, keep_or_skip, load_lines,
  load_jsonl_records,
}

abbrev pub seqs : List TraceRecord → List ℕ
seqs [] = []
seqs (r ∷ rest) = r.seq ∷ seqs rest

-- Each is below all that follow.
abbrev pub IsAscending : List ℕ → Type 0
IsAscending [] = Unit {0}
IsAscending (x ∷ rest) = All (λ y. x < y) rest × IsAscending rest

abbrev AtMost : Option ℕ → List ℕ → Type 0
AtMost none xs = xs ≡ []
AtMost (some p) xs = All (λ x. x ≤ p) xs

-- As long as nothing is counted as non-monotonic: no duplicate is, what was seen and kept is at most the last,
-- and what was kept ascends.
abbrev IsSteady : Loading → Type 0
IsSteady l =
    l.stats.non_monotonic_seq_count ≡ 0
    → (l.stats.duplicate_seq_count ≡ 0)
      × AtMost l.previous_seq l.seen
      × AtMost l.previous_seq (seqs l.records)
      × IsAscending (seqs l.records)

seqs-append : (l : List TraceRecord) (r : TraceRecord) → seqs (l ++ r ∷ []) ≡ seqs l ++ r.seq ∷ []
seqs-append [] r = refl
seqs-append (q ∷ l) r = ap (λ (xs : List ℕ). q.seq ∷ xs) (seqs-append l r)

IsAscending-append :
    (xs : List ℕ) (y : ℕ) → All (λ x. x < y) xs → IsAscending xs → IsAscending (xs ++ y ∷ [])
IsAscending-append [] y low h = (tt, tt)
IsAscending-append (x ∷ xs) y low h =
    (All-append (λ z. x < z) xs (y ∷ []) h.0 (low.0, tt), IsAscending-append xs y low.1 h.1)

contains-below : (xs : List ℕ) (a : ℕ) → All (λ x. x < a) xs → contains xs a ≡ false
unfolding contains
contains-below [] a h = refl
contains-below (x ∷ xs) a (lt, h) = ground (arith, contains-below xs a h)

-- A number that is not counted as non-monotonic is above all before it.
below :
    (o : Option ℕ) (xs : List ℕ) (a : ℕ) → AtMost o xs → not_above a o ≡ false → All (λ x. x < a) xs
below none [] a h low = tt
below none (x ∷ xs) a h low = absurd (cc)
below (some p) xs a h low = All-map (λ x. x ≤ p) (λ x. x < a) (λ x le. ground arith) xs h

keep-IsSteady : (l : Loading) (rec : TraceRecord) → IsSteady l → IsSteady (keep l rec)
unfolding keep
keep-IsSteady l rec h none_yet =
    let low : not_above rec.seq l.previous_seq ≡ false = ground arith in
    let (dup, seen, kept, ascends) = h (ground arith) in
    let seen_low = below l.previous_seq l.seen rec.seq seen low in
    let kept_low = below l.previous_seq (seqs l.records) rec.seq kept low in
    (
      rw (contains-below l.seen rec.seq seen_low) dup,
      (
        omega arith,
        All-map (λ x. x < rec.seq) (λ x. x ≤ rec.seq) (λ x lt. omega arith) l.seen seen_low,
      ),
      rw (seqs-append l.records rec) (
          All-append (λ x. x ≤ rec.seq) (seqs l.records) (rec.seq ∷ [])
            (All-map (λ x. x < rec.seq) (λ x. x ≤ rec.seq) (λ x lt. omega arith) (seqs l.records)
              kept_low)
            (omega arith, tt)),
      rw (seqs-append l.records rec) (IsAscending-append (seqs l.records) rec.seq kept_low ascends),
    )

keep_or_skip-IsSteady :
    (l : Loading) (o : Option TraceRecord) → IsSteady l → IsSteady (keep_or_skip (counted l) o)
keep_or_skip-IsSteady l none h = h
keep_or_skip-IsSteady l (some rec) h = keep-IsSteady (counted l) rec h

load_lines-IsSteady :
    (n : ℕ) (l : Loading) (lines : List Text) → IsSteady l → IsSteady (load_lines n l lines)
unfolding load_lines
load_lines-IsSteady n l [] h = h
load_lines-IsSteady n l ([] ∷ lines) h = load_lines-IsSteady (suc n) l lines h
load_lines-IsSteady n l ((c ∷ line) ∷ lines) h =
    let o = parse_record (c ∷ line) n in
    load_lines-IsSteady (suc n) (keep_or_skip (counted l) o) lines (keep_or_skip-IsSteady l o h)

-- If no sequence number of a JSONL file is counted as non-monotonic, none is counted as a duplicate, and the
-- records are in strictly ascending order of their numbers.
pub load_jsonl_records-IsAscending :
    (lines : List Text)
    → (load_jsonl_records lines).stats.non_monotonic_seq_count ≡ 0
    → ((load_jsonl_records lines).stats.duplicate_seq_count ≡ 0)
      × IsAscending (seqs (load_jsonl_records lines).records)
unfolding load_jsonl_records
load_jsonl_records-IsAscending lines e =
    let (dup, seen, kept, ascends) =
      load_lines-IsSteady 1 new_loading lines (λ z. (refl, refl, refl, tt)) e in
    (dup, ascends)
