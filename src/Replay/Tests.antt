-- ===== src/Replay/Tests.antt =====
-- tools/trace_replay/trace_replay.cpp on concrete traces, and the theorems at them.
use saturnis.Base.{◌^◌, ◌≡◌, refl, none, some, List, [], ◌∷◌, ◌++◌, arith}
use saturnis.Replay.Text.{
  Text, codes, parse_addr, parse_u64, json_escape, find_value_span, behind, behind_prefix,
  skip_blanks, until_quote, until_end, number_from, eq_text, from_chars, trim_prefix,
}
use saturnis.Replay.Records.{
  TraceRecord, parse_record, parse_master, is_high_wram, region_name, classify_cache_bucket,
}
use saturnis.Replay.Load.{new_loading, load_jsonl_records, load_lines, keep, contains}
use saturnis.Replay.Binary.{BinaryTraceRecordV1, load_binary_records}
use saturnis.Replay.Select.{
  new_selection, select_records, sort_records, summarise, insert_record, comes_before,
  select_record, include_record, bump,
}
use saturnis.Replay.Print.{annotated_line, decimal_digits}
use saturnis.Replay.Accounting.{
  AddsUp, CountsAll, load_jsonl_records-AddsUp, select_records-CountsAll_new,
}
use saturnis.Replay.Sequences.{IsAscending, seqs, load_jsonl_records-IsAscending}
use saturnis.Replay.Structs.{
  IsStruct, file_bytes, header_bytes, load_each, load_binary_records-file_bytes,
  load_binary_records-truncated,
}
use saturnis.Replay.Lines.{IsRecord, parse_record-annotated_line}

abbrev fetch : TraceRecord
fetch = record {
  seq = 7;
  master = codes "MSH2";
  tick_first_attempt = 100;
  tick_complete = 108;
  addr = 0x0600_0010;
  addr_text = codes "0x06000010";
  size = 4;
  rw = codes "R";
  kind = codes "ifetch";
  service_cycles = 8;
  retries = 2;
  source_line = 3;
}

abbrev foreign : TraceRecord
foreign = record fetch { seq = 9; master = codes "SCU"; tick_complete = 104 }

abbrev lines : List Text
lines = annotated_line fetch (codes "}") ∷ [] ∷ codes "{}" ∷ annotated_line foreign (codes "}") ∷ []

-- A line that is no record and a record of an unknown master are left out, and both are counted.
lines_summary : summarise (load_jsonl_records lines) ≡ record {
  total_events = 3;
  included_events = 1;
  excluded_events = 2;
  excluded_malformed_line = 1;
  excluded_invalid_master = 1;
}
unfolding load_jsonl_records summarise annotated_line parse_record sort_records load_lines
    select_records find_value_span behind behind_prefix skip_blanks decimal_digits until_quote
    json_escape parse_u64 until_end number_from parse_addr keep insert_record comes_before
    select_record parse_master contains classify_cache_bucket is_high_wram region_name bump
    include_record eq_text from_chars trim_prefix
lines_summary = refl

load_jsonl_records-AddsUp_example : AddsUp (summarise (load_jsonl_records lines))
load_jsonl_records-AddsUp_example = load_jsonl_records-AddsUp lines

lines_steady : (load_jsonl_records lines).stats.non_monotonic_seq_count ≡ 0
unfolding load_jsonl_records annotated_line parse_record load_lines find_value_span behind
    behind_prefix skip_blanks decimal_digits until_quote json_escape parse_u64 until_end number_from
    parse_addr keep contains from_chars trim_prefix
lines_steady = refl

load_jsonl_records-IsAscending_example :
    ((load_jsonl_records lines).stats.duplicate_seq_count ≡ 0)
    × IsAscending (seqs (load_jsonl_records lines).records)
load_jsonl_records-IsAscending_example = load_jsonl_records-IsAscending lines lines_steady

fetch-IsRecord : IsRecord fetch
unfolding eq_text parse_addr from_chars trim_prefix number_from
fetch-IsRecord = record {
  seq = omega arith;
  master = (ground arith, refl);
  tick_first_attempt = omega arith;
  tick_complete = omega arith;
  addr = refl;
  addr_text = (ground arith, refl);
  size = omega arith;
  rw = (ground arith, refl);
  kind = (ground arith, refl);
  service_cycles = omega arith;
  retries = omega arith;
}

parse_record-annotated_line_example :
    parse_record (annotated_line fetch (codes "}")) 12 ≡ some (record fetch { source_line = 12 })
parse_record-annotated_line_example =
    parse_record-annotated_line fetch (codes "}") 12 fetch-IsRecord

abbrev write_struct : BinaryTraceRecordV1
write_struct = record {
  seq = 2 ^ 33;
  tick_first_attempt = 300;
  tick_complete = 302;
  service_cycles = 2;
  retries = 0;
  addr = 0x0600_0010;
  size = 2;
  master = 1;
  rw = 1;
  kind = 2;
}

-- Its size is none of an access.
abbrev odd_struct : BinaryTraceRecordV1
odd_struct = record write_struct { seq = 1; size = 3 }

write_struct-IsStruct : IsStruct write_struct
write_struct-IsStruct = record {
  seq = omega arith;
  tick_first_attempt = omega arith;
  tick_complete = omega arith;
  service_cycles = omega arith;
  retries = omega arith;
  addr = omega arith;
  size = omega arith;
  master = omega arith;
  rw = omega arith;
  kind = omega arith;
}

odd_struct-IsStruct : IsStruct odd_struct
odd_struct-IsStruct = record {
  seq = omega arith;
  tick_first_attempt = omega arith;
  tick_complete = omega arith;
  service_cycles = omega arith;
  retries = omega arith;
  addr = omega arith;
  size = omega arith;
  master = omega arith;
  rw = omega arith;
  kind = omega arith;
}

load_binary_records-file_bytes_example :
    load_binary_records (header_bytes ++ (file_bytes (write_struct ∷ odd_struct ∷ []) ++ []))
    ≡ some (load_each 0 new_loading (write_struct ∷ odd_struct ∷ []))
load_binary_records-file_bytes_example =
    load_binary_records-file_bytes (write_struct ∷ odd_struct ∷ [])
      (write_struct-IsStruct, (odd_struct-IsStruct, tt))

load_binary_records-truncated_example :
    load_binary_records (header_bytes ++ (file_bytes (write_struct ∷ []) ++ (0 ∷ 1 ∷ []))) ≡ none
load_binary_records-truncated_example =
    load_binary_records-truncated (write_struct ∷ []) (0 ∷ 1 ∷ []) (write_struct-IsStruct, tt)
      (omega arith) (omega arith)

select_records-CountsAll_new_example :
    CountsAll (select_records new_selection (fetch ∷ foreign ∷ fetch ∷ []))
select_records-CountsAll_new_example = select_records-CountsAll_new (fetch ∷ foreign ∷ fetch ∷ [])
