-- ===== src/Replay/Lines.antt =====
-- tools/trace_replay/trace_replay.cpp: the line that `main` writes of a record, and `parse_record` on it.
use saturnis.Base.{ℕ, ◌%◌, ◌^◌, ◌≡◌, ◌≢◌, ◌<◌, refl, ap, ◌∙◌, true, some, ◌∷◌, arith, All}
use saturnis.Base.Word.{u32}
use saturnis.Replay.Text.{Text, codes, eq_text, parse_addr, json_escape, find_value_span}
use saturnis.Replay.Records.{TraceRecord, parse_record}
use saturnis.Replay.Print.{decimal, Shown, digits, quoted, content, fields_of, annotated_line}
use saturnis.Replay.RoundTrip.{decimal-IsDigits, parse_u64-decimal}
use saturnis.Replay.Spans.{IsShowable, find_value_span-Finds}
use saturnis.Replay.Fields.{
  keys, is_in, IsText, json_escape-text, is_plain, is_plain-IsPlain, IsField, field_of,
  field_of-Finds, IsValue-IsShowable, IsText-IsValue,
}

-- What a record of a trace holds.
pub record IsRecord (r : TraceRecord) : Type 0 where
  pub seq : r.seq < 2 ^ 64
  pub master : IsText r.master
  pub tick_first_attempt : r.tick_first_attempt < 2 ^ 64
  pub tick_complete : r.tick_complete < 2 ^ 64
  pub addr : parse_addr r.addr_text ≡ some r.addr
  pub addr_text : IsText r.addr_text
  pub size : r.size < 2 ^ 8
  pub rw : IsText r.rw
  pub kind : IsText r.kind
  pub service_cycles : r.service_cycles < 2 ^ 32
  pub retries : r.retries < 2 ^ 32

module _ (r : TraceRecord) (rest : Text) (h : IsRecord r) where
  fields-IsField : All IsField (fields_of r)
  fields-IsField = (
    (refl, decimal-IsDigits r.seq),
    (
      (refl, IsText-IsValue r.master h.master),
      (
        (refl, decimal-IsDigits r.tick_first_attempt),
        (
          (refl, decimal-IsDigits r.tick_complete),
          (
            (refl, IsText-IsValue r.addr_text h.addr_text),
            (
              (refl, decimal-IsDigits r.size),
              (
                (refl, IsText-IsValue r.rw h.rw),
                (
                  (refl, IsText-IsValue r.kind h.kind),
                  (
                    (refl, decimal-IsDigits r.service_cycles),
                    ((refl, decimal-IsDigits r.retries), tt),
                  ),
                ),
              ),
            ),
          ),
        ),
      ),
    ),
  )

  span :
      (c : ℕ) (key : Text) (value : Shown)
      → is_in (c ∷ key) keys ≡ true
      → is_plain (c ∷ key) ≡ true
      → c ≢ b':'
      → c ≢ b','
      → IsShowable value
      → field_of (c ∷ key) (fields_of r) ≡ some value
      → find_value_span (annotated_line r rest) (c ∷ key) ≡ some (content value)
  unfolding annotated_line
  span c key value k plain no_colon no_comma ok e =
      find_value_span-Finds c key value rest (is_plain-IsPlain (c ∷ key) plain) no_colon no_comma ok
        (field_of-Finds (c ∷ key) value (fields_of r) k fields-IsField e)

  number_span :
      (c : ℕ) (key : Text) (n : ℕ)
      → is_in (c ∷ key) keys ≡ true
      → is_plain (c ∷ key) ≡ true
      → c ≢ b':'
      → c ≢ b','
      → field_of (c ∷ key) (fields_of r) ≡ some (digits (decimal n))
      → find_value_span (annotated_line r rest) (c ∷ key) ≡ some (decimal n)
  number_span c key n k plain no_colon no_comma e =
      span c key (digits (decimal n)) k plain no_colon no_comma (decimal-IsDigits n) e

  text_span :
      (c : ℕ) (key s : Text)
      → is_in (c ∷ key) keys ≡ true
      → is_plain (c ∷ key) ≡ true
      → c ≢ b':'
      → c ≢ b','
      → IsText s
      → field_of (c ∷ key) (fields_of r) ≡ some (quoted (json_escape s))
      → find_value_span (annotated_line r rest) (c ∷ key) ≡ some s
  text_span c key s k plain no_colon no_comma t e =
      span c key (quoted (json_escape s)) k plain no_colon no_comma
        (IsValue-IsShowable (quoted (json_escape s)) (IsText-IsValue s t)) e
      ∙ ap (λ (t : Text). some t) (json_escape-text s t.0)

  seq_span : find_value_span (annotated_line r rest) (codes "seq") ≡ some (decimal r.seq)
  unfolding eq_text
  seq_span = number_span b's' (codes "eq") r.seq refl refl (ground arith) (ground arith) refl

  master_span : find_value_span (annotated_line r rest) (codes "master") ≡ some (r.master)
  unfolding eq_text
  master_span =
      text_span b'm' (codes "aster") r.master refl refl (ground arith) (ground arith) h.master refl

  tick_first_attempt_span :
      find_value_span (annotated_line r rest) (codes "tick_first_attempt")
      ≡ some (decimal r.tick_first_attempt)
  unfolding eq_text
  tick_first_attempt_span =
      number_span b't' (codes "ick_first_attempt") r.tick_first_attempt refl refl (ground arith)
        (ground arith) refl

  tick_complete_span :
      find_value_span (annotated_line r rest) (codes "tick_complete")
      ≡ some (decimal r.tick_complete)
  unfolding eq_text
  tick_complete_span =
      number_span b't' (codes "ick_complete") r.tick_complete refl refl (ground arith)
        (ground arith) refl

  addr_span : find_value_span (annotated_line r rest) (codes "addr") ≡ some (r.addr_text)
  unfolding eq_text
  addr_span =
      text_span b'a' (codes "ddr") r.addr_text refl refl (ground arith) (ground arith) h.addr_text
        refl

  size_span : find_value_span (annotated_line r rest) (codes "size") ≡ some (decimal r.size)
  unfolding eq_text
  size_span = number_span b's' (codes "ize") r.size refl refl (ground arith) (ground arith) refl

  rw_span : find_value_span (annotated_line r rest) (codes "rw") ≡ some (r.rw)
  unfolding eq_text
  rw_span = text_span b'r' (codes "w") r.rw refl refl (ground arith) (ground arith) h.rw refl

  kind_span : find_value_span (annotated_line r rest) (codes "kind") ≡ some (r.kind)
  unfolding eq_text
  kind_span =
      text_span b'k' (codes "ind") r.kind refl refl (ground arith) (ground arith) h.kind refl

  service_cycles_span :
      find_value_span (annotated_line r rest) (codes "service_cycles")
      ≡ some (decimal r.service_cycles)
  unfolding eq_text
  service_cycles_span =
      number_span b's' (codes "ervice_cycles") r.service_cycles refl refl (ground arith)
        (ground arith) refl

  retries_span :
      find_value_span (annotated_line r rest) (codes "retries") ≡ some (decimal r.retries)
  unfolding eq_text
  retries_span =
      number_span b'r' (codes "etries") r.retries refl refl (ground arith) (ground arith) refl

byte-small : (n : ℕ) → n < 2 ^ 8 → n % 2 ^ 8 ≡ n
byte-small n h = omega arith

u32-small : (n : ℕ) → n < 2 ^ 32 → u32 n ≡ n
u32-small n h = omega arith

-- The line that is written of a record is parsed as the record, whatever stands behind these fields, with the
-- number of the line that is read. The numbers of the record fit their fields, its address is what the text of its
-- address reads as, and its texts have no quote and no backslash and are none of the keys.
pub parse_record-annotated_line :
    (r : TraceRecord) (rest : Text) (source_line : ℕ)
    → IsRecord r
    → parse_record (annotated_line r rest) source_line
      ≡ some (record r { source_line = source_line })
unfolding parse_record
parse_record-annotated_line r rest source_line h =
    rw
      (
        seq_span r rest h,
        master_span r rest h,
        tick_first_attempt_span r rest h,
        tick_complete_span r rest h,
        addr_span r rest h,
        size_span r rest h,
        rw_span r rest h,
        kind_span r rest h,
        service_cycles_span r rest h,
        retries_span r rest h,
        parse_u64-decimal r.seq h.seq,
        parse_u64-decimal r.tick_first_attempt h.tick_first_attempt,
        parse_u64-decimal r.tick_complete h.tick_complete,
        h.addr,
        parse_u64-decimal r.size (omega (arith, h.size)),
        parse_u64-decimal r.service_cycles (omega (arith, h.service_cycles)),
        parse_u64-decimal r.retries (omega (arith, h.retries)),
        byte-small r.size h.size,
        u32-small r.service_cycles h.service_cycles,
        u32-small r.retries h.retries,
      )
      refl
