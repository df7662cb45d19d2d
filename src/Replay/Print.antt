-- ===== src/Replay/Print.antt =====
-- tools/trace_replay/trace_replay.cpp: the fields that `main` writes of a record to its annotated output, before
-- those that it adds.
use saturnis.Base.{ℕ, zero, suc, ◌+◌, ◌/◌, ◌%◌, List, [], ◌∷◌, ◌++◌, ltb, if◌then◌else◌}
use saturnis.Replay.Text.{Text, codes, json_escape}
use saturnis.Replay.Records.{TraceRecord}

abbrev pub quote : ℕ
quote = b'"'

-- The decimal digits of a number, with at most k further ones before the last.
unfoldable pub decimal_digits : ℕ → ℕ → Text
decimal_digits zero n = (b'0' + n % 10) ∷ []
decimal_digits (suc k) n =
    let more = decimal_digits k (n / 10) ++ (b'0' + n % 10) ∷ [] in
    if ltb n 10 then (b'0' + n % 10) ∷ [] else more

-- An unsigned integer written to a stream: one of 64 bits has at most 20 digits.
abbrev pub decimal : ℕ → Text
decimal = decimal_digits 19

-- What a line shows of a field: a number, or a text between quotes.
pub data Shown : Type 0 where
  digits quoted : Text → Shown

abbrev pub shown : Shown → Text → Text
shown (digits s) rest = s ++ b',' ∷ rest
shown (quoted s) rest = quote ∷ (s ++ quote ∷ b',' ∷ rest)

abbrev pub content : Shown → Text
content (digits s) = s
content (quoted s) = s

-- The fields of a line, and what stands behind them.
abbrev pub fields_text : List (Text × Shown) → Text → Text
fields_text [] rest = rest
fields_text ((key, value) ∷ fields) rest =
    quote ∷ (key ++ quote ∷ b':' ∷ shown value (fields_text fields rest))

abbrev pub fields_of : TraceRecord → List (Text × Shown)
fields_of r =
    (codes "seq", digits (decimal r.seq))
    ∷ (codes "master", quoted (json_escape r.master))
    ∷ (codes "tick_first_attempt", digits (decimal r.tick_first_attempt))
    ∷ (codes "tick_complete", digits (decimal r.tick_complete))
    ∷ (codes "addr", quoted (json_escape r.addr_text))
    ∷ (codes "size", digits (decimal r.size))
    ∷ (codes "rw", quoted (json_escape r.rw))
    ∷ (codes "kind", quoted (json_escape r.kind))
    ∷ (codes "service_cycles", digits (decimal r.service_cycles))
    ∷ (codes "retries", digits (decimal r.retries))
    ∷ []

-- The line of a record, with what is written behind these fields.
unfoldable pub annotated_line : TraceRecord → Text → Text
annotated_line r rest = b'{' ∷ fields_text (fields_of r) rest
