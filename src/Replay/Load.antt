-- ===== src/Replay/Load.antt =====
-- tools/trace_replay/trace_replay.cpp: the loading of records from JSONL text. A file is the list of its lines,
-- without their ends; the messages that are written beside the counts are not modelled.
use saturnis.Base.{
  ℕ, suc, ◌+◌, Bool, false, ◌||◌, Option, none, some, List, [], ◌∷◌, ◌++◌, leb, ◌==◌, if◌then◌else◌,
}
use saturnis.Replay.Text.{Text}
use saturnis.Replay.Records.{TraceRecord, parse_record}

pub record InputStats : Type 0 where
  pub total_events : ℕ
  pub malformed_lines : ℕ
  pub duplicate_seq_count : ℕ
  pub non_monotonic_seq_count : ℕ

-- The variables of a loading loop: `records`, `stats`, `seen_seq_values` and `previous_seq`.
pub record Loading : Type 0 where
  pub records : List TraceRecord
  pub stats : InputStats
  pub seen : List ℕ
  pub previous_seq : Option ℕ

abbrev pub new_loading : Loading
new_loading = record {
  records = [];
  stats = record {
    total_events = 0;
    malformed_lines = 0;
    duplicate_seq_count = 0;
    non_monotonic_seq_count = 0;
  };
  seen = [];
  previous_seq = none;
}

unfoldable pub contains : List ℕ → ℕ → Bool
contains [] a = false
contains (x ∷ xs) a = a == x || contains xs a

abbrev pub not_above : ℕ → Option ℕ → Bool
not_above seq none = false
not_above seq (some previous) = leb seq previous

-- What the loops do with a record: the counts of its sequence number, and the record kept.
unfoldable pub keep : Loading → TraceRecord → Loading
keep l rec = record {
  records = l.records ++ rec ∷ [];
  stats = record l.stats {
    duplicate_seq_count =
        if contains l.seen rec.seq
        then l.stats.duplicate_seq_count + 1
        else l.stats.duplicate_seq_count;
    non_monotonic_seq_count =
        if not_above rec.seq l.previous_seq
        then l.stats.non_monotonic_seq_count + 1
        else l.stats.non_monotonic_seq_count;
  };
  seen = rec.seq ∷ l.seen;
  previous_seq = some rec.seq;
}

abbrev pub counted : Loading → Loading
counted l = record l { stats = record l.stats { total_events = l.stats.total_events + 1 } }

abbrev pub keep_or_skip : Loading → Option TraceRecord → Loading
keep_or_skip l none = record l {
  stats = record l.stats { malformed_lines = l.stats.malformed_lines + 1 };
}
keep_or_skip l (some rec) = keep l rec

-- The loop over the lines, from line `line_number` on.
unfoldable pub load_lines : ℕ → Loading → List Text → Loading
load_lines line_number l [] = l
load_lines line_number l ([] ∷ lines) = load_lines (suc line_number) l lines
load_lines line_number l ((c ∷ line) ∷ lines) =
    load_lines (suc line_number) (keep_or_skip (counted l) (parse_record (c ∷ line) line_number))
      lines

unfoldable pub load_jsonl_records : List Text → Loading
load_jsonl_records = load_lines 1 new_loading
