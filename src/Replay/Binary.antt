-- ===== src/Replay/Binary.antt =====
-- tools/trace_replay/trace_replay.cpp: the loading of records from the binary format. A file is the list of its
-- bytes; the messages are not modelled. The machine keeps the low byte of an integer first.
use saturnis.Base.{
  ℕ, zero, suc, ◌+◌, ◌*◌, not, ◌||◌, Option, none, some, List, [], ◌∷◌, ◌==◌, if◌then◌else◌, length,
}
use saturnis.Base.Word.{u32}
use saturnis.Replay.Text.{Text, codes, eq_text, to_hex32}
use saturnis.Replay.Records.{TraceRecord, ◌>>=◌}
use saturnis.Replay.Load.{Loading, new_loading, counted, keep_or_skip}

pub record BinaryTraceRecordV1 : Type 0 where
  pub seq : ℕ
  pub tick_first_attempt : ℕ
  pub tick_complete : ℕ
  pub service_cycles : ℕ
  pub retries : ℕ
  pub addr : ℕ
  pub size : ℕ
  pub master : ℕ
  pub rw : ℕ
  pub kind : ℕ

-- `input.read` of `n` bytes: what was read, and the rest.
unfoldable pub read_bytes : ℕ → List ℕ → List ℕ × List ℕ
read_bytes zero input = ([], input)
read_bytes (suc n) [] = ([], [])
read_bytes (suc n) (b ∷ input) = let (got, rest) = read_bytes n input in (b ∷ got, rest)

-- An integer in memory, the low byte first.
unfoldable pub little_endian : List ℕ → ℕ
little_endian [] = 0
little_endian (b ∷ bytes) = b + 256 * little_endian bytes

-- The 48 bytes of a record as the struct lies in memory.
unfoldable pub raw_record : List ℕ → BinaryTraceRecordV1
raw_record bytes =
    let (seq, r1) = read_bytes 8 bytes in
    let (tick_first_attempt, r2) = read_bytes 8 r1 in
    let (tick_complete, r3) = read_bytes 8 r2 in
    let (service_cycles, r4) = read_bytes 8 r3 in
    let (retries, r5) = read_bytes 8 r4 in
    let (addr, r6) = read_bytes 4 r5 in
    let (size, r7) = read_bytes 1 r6 in
    let (master, r8) = read_bytes 1 r7 in
    let (rw_byte, r9) = read_bytes 1 r8 in
    let (kind, r10) = read_bytes 1 r9 in
    record {
      seq = little_endian seq;
      tick_first_attempt = little_endian tick_first_attempt;
      tick_complete = little_endian tick_complete;
      service_cycles = little_endian service_cycles;
      retries = little_endian retries;
      addr = little_endian addr;
      size = little_endian size;
      master = little_endian master;
      rw = little_endian rw_byte;
      kind = little_endian kind;
    }

unfoldable pub decode_master : ℕ → Option Text
decode_master value =
    if value == 0
    then some (codes "MSH2")
    else if value == 1
    then some (codes "SSH2")
    else if value == 2
    then some (codes "DMA")
    else none

unfoldable pub decode_rw : ℕ → Option Text
decode_rw value =
    if value == 0 then some (codes "R") else if value == 1 then some (codes "W") else none

unfoldable pub decode_kind : ℕ → Option Text
decode_kind value =
    if value == 0
    then some (codes "ifetch")
    else if value == 1
    then some (codes "read")
    else if value == 2
    then some (codes "write")
    else if value == 3
    then some (codes "mmio_read")
    else if value == 4
    then some (codes "mmio_write")
    else none

-- The record of a struct, or `none` where it is malformed.
unfoldable pub decode_record : BinaryTraceRecordV1 → ℕ → Option TraceRecord
decode_record raw index = do
  master ← decode_master raw.master
  rw_text ← decode_rw raw.rw
  kind ← decode_kind raw.kind
  if raw.size == 1 || raw.size == 2 || raw.size == 4
      then some (record {
        seq = raw.seq;
        master = master;
        tick_first_attempt = raw.tick_first_attempt;
        tick_complete = raw.tick_complete;
        addr = raw.addr;
        addr_text = to_hex32 raw.addr;
        size = raw.size;
        rw = rw_text;
        kind = kind;
        service_cycles = u32 raw.service_cycles;
        retries = u32 raw.retries;
        source_line = index + 1;
      })
      else none

-- The loop over the structs, `none` on a truncated one. A turn takes bytes out of the input, so its length
-- is fuel enough.
unfoldable pub load_structs : ℕ → ℕ → Loading → List ℕ → Option Loading
load_structs zero index l input = some l
load_structs (suc n) index l input =
    let (got, rest) = read_bytes 48 input in
    let after =
      load_structs n (suc index) (keep_or_skip (counted l) (decode_record (raw_record got) index))
        rest in
    if length got == 0 then some l else if length got == 48 then after else none

unfoldable pub load_header : List ℕ → Option (List ℕ)
load_header input =
    let (header, rest) = read_bytes 8 input in
    let (magic, numbers) = read_bytes 4 header in
    let (version, record_size) = read_bytes 2 numbers in
    if not (length header == 8)
    then none
    else if not (eq_text magic (codes "BTR1"))
    then none
    else if not (little_endian version == 1)
    then none
    else if not (little_endian record_size == 48)
    then none
    else some rest

unfoldable pub load_binary_records : List ℕ → Option Loading
load_binary_records input = do
  rest ← load_header input
  load_structs (suc (length rest)) 0 new_loading rest
