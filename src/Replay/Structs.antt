-- ===== src/Replay/Structs.antt =====
-- tools/trace_replay/trace_replay.cpp: a binary file of structs is read back as the structs.
use saturnis.Base.{
  ℕ, zero, suc, ◌+◌, ◌*◌, ◌/◌, ◌%◌, ◌^◌, ◌≡◌, ◌≤◌, ◌<◌, refl, ap, ◌∙◌, Option, none, some, List, [],
  ◌∷◌, ◌++◌, ◌==◌, if◌then◌else◌, length, length-append, arith, All,
}
use saturnis.Replay.Text.{eq_text}
use saturnis.Replay.Records.{◌>>=◌}
use saturnis.Replay.Load.{Loading, new_loading, counted, keep_or_skip}
use saturnis.Replay.Binary.{
  BinaryTraceRecordV1, read_bytes, little_endian, raw_record, decode_record, load_structs,
  load_header, load_binary_records,
}

-- The bytes of an integer of `n` bytes as it lies in memory.
abbrev pub to_bytes : ℕ → ℕ → List ℕ
to_bytes zero v = []
to_bytes (suc n) v = v % 256 ∷ to_bytes n (v / 256)

-- The bytes of a struct, in the order of its fields, which need no padding.
abbrev pub struct_bytes : BinaryTraceRecordV1 → List ℕ
struct_bytes r =
    to_bytes 8 r.seq
    ++ (to_bytes 8 r.tick_first_attempt
        ++ (to_bytes 8 r.tick_complete
            ++ (to_bytes 8 r.service_cycles
                ++ (to_bytes 8 r.retries
                    ++ (to_bytes 4 r.addr
                        ++ (to_bytes 1 r.size
                            ++ (to_bytes 1 r.master ++ (to_bytes 1 r.rw ++ to_bytes 1 r.kind))))))))

-- The fields are integers of their widths.
pub record IsStruct (r : BinaryTraceRecordV1) : Type 0 where
  pub seq : r.seq < 2 ^ 64
  pub tick_first_attempt : r.tick_first_attempt < 2 ^ 64
  pub tick_complete : r.tick_complete < 2 ^ 64
  pub service_cycles : r.service_cycles < 2 ^ 64
  pub retries : r.retries < 2 ^ 64
  pub addr : r.addr < 2 ^ 32
  pub size : r.size < 2 ^ 8
  pub master : r.master < 2 ^ 8
  pub rw : r.rw < 2 ^ 8
  pub kind : r.kind < 2 ^ 8

abbrev pow256 : ℕ → ℕ
pow256 zero = 1
pow256 (suc n) = 256 * pow256 n

little_endian-to_bytes : (n v : ℕ) → v < pow256 n → little_endian (to_bytes n v) ≡ v
unfolding little_endian
little_endian-to_bytes zero v h = omega arith
little_endian-to_bytes (suc n) v h = omega (arith, little_endian-to_bytes n (v / 256) (omega arith))

raw_record-struct_bytes : (r : BinaryTraceRecordV1) → IsStruct r → raw_record (struct_bytes r) ≡ r
unfolding raw_record read_bytes
raw_record-struct_bytes r h = λ i. record {
  seq = little_endian-to_bytes 8 r.seq (omega (arith, h.seq)) i;
  tick_first_attempt =
      little_endian-to_bytes 8 r.tick_first_attempt (omega (arith, h.tick_first_attempt)) i;
  tick_complete = little_endian-to_bytes 8 r.tick_complete (omega (arith, h.tick_complete)) i;
  service_cycles = little_endian-to_bytes 8 r.service_cycles (omega (arith, h.service_cycles)) i;
  retries = little_endian-to_bytes 8 r.retries (omega (arith, h.retries)) i;
  addr = little_endian-to_bytes 4 r.addr (omega (arith, h.addr)) i;
  size = little_endian-to_bytes 1 r.size (omega (arith, h.size)) i;
  master = little_endian-to_bytes 1 r.master (omega (arith, h.master)) i;
  rw = little_endian-to_bytes 1 r.rw (omega (arith, h.rw)) i;
  kind = little_endian-to_bytes 1 r.kind (omega (arith, h.kind)) i;
}

abbrev pub file_bytes : List BinaryTraceRecordV1 → List ℕ
file_bytes [] = []
file_bytes (r ∷ rest) = struct_bytes r ++ file_bytes rest

-- What becomes of the structs, from an index on.
abbrev pub load_each : ℕ → Loading → List BinaryTraceRecordV1 → Loading
load_each index l [] = l
load_each index l (r ∷ rest) =
    load_each (suc index) (keep_or_skip (counted l) (decode_record r index)) rest

read_struct :
    (r : BinaryTraceRecordV1) (rest : List ℕ)
    → read_bytes 48 (struct_bytes r ++ rest) ≡ (struct_bytes r, rest)
unfolding read_bytes
read_struct r rest = refl

length-file_bytes : (rs : List BinaryTraceRecordV1) → length (file_bytes rs) ≡ 48 * length rs
length-file_bytes [] = refl
length-file_bytes (r ∷ rest) = omega (arith, length-file_bytes rest)

-- A turn of the loop on a struct.
load_structs-struct_bytes :
    (r : BinaryTraceRecordV1) (n index : ℕ) (l : Loading) (more : List ℕ)
    → IsStruct r
    → load_structs (suc n) index l (struct_bytes r ++ more)
      ≡ load_structs n (suc index) (keep_or_skip (counted l) (decode_record r index)) more
unfolding load_structs read_bytes
load_structs-struct_bytes r n index l more h =
    ap
      (λ (raw : BinaryTraceRecordV1).
        load_structs n (suc index) (keep_or_skip (counted l) (decode_record raw index)) more)
      (raw_record-struct_bytes r h)

-- The loop takes one struct after another, and goes on with what stands behind them.
load_structs-file_bytes :
    (rs : List BinaryTraceRecordV1) (n index : ℕ) (l : Loading) (tail : List ℕ)
    → All IsStruct rs
    → load_structs (length rs + n) index l (file_bytes rs ++ tail)
      ≡ load_structs n (index + length rs) (load_each index l rs) tail
load_structs-file_bytes [] n index l tail h =
    λ i. load_structs (zero_first n i) (zero_last index i) l tail
  where
    zero_first : (k : ℕ) → 0 + k ≡ k
    zero_first k = omega arith

    zero_last : (k : ℕ) → k ≡ k + 0
    zero_last k = omega arith
load_structs-file_bytes (r ∷ rest) n index l tail h =
    let o = decode_record r index in
    let fuel : length (r ∷ rest) + n ≡ suc (length rest + n) = omega arith in
    let at : suc index + length rest ≡ index + length (r ∷ rest) = omega arith in
    ap (λ (k : ℕ). load_structs k index l (file_bytes (r ∷ rest) ++ tail)) fuel
    ∙ load_structs-struct_bytes r (length rest + n) index l (file_bytes rest ++ tail) h.0
    ∙ load_structs-file_bytes rest n (suc index) (keep_or_skip (counted l) o) tail h.1
    ∙ ap
        (λ (k : ℕ). load_structs n k (load_each (suc index) (keep_or_skip (counted l) o) rest) tail)
        at

-- The header of the format, with version 1 and structs of 48 bytes.
abbrev pub header_bytes : List ℕ
header_bytes = b'B' ∷ b'T' ∷ b'R' ∷ b'1' ∷ 1 ∷ 0 ∷ 48 ∷ 0 ∷ []

load_header-header_bytes : (rest : List ℕ) → load_header (header_bytes ++ rest) ≡ some rest
unfolding load_header read_bytes little_endian eq_text
load_header-header_bytes rest = refl

read_bytes-short : (n : ℕ) (l : List ℕ) → length l ≤ n → (read_bytes n l).0 ≡ l
unfolding read_bytes
read_bytes-short zero [] h = refl
read_bytes-short zero (b ∷ l) h = absurd (omega arith)
read_bytes-short (suc n) [] h = refl
read_bytes-short (suc n) (b ∷ l) h =
    ap (λ (xs : List ℕ). b ∷ xs) (read_bytes-short n l (omega arith))

stop_at : (n index : ℕ) (l : Loading) → load_structs (suc n) index l [] ≡ some l
unfolding load_structs read_bytes
stop_at n index l = refl

refuse_at :
    (n index : ℕ) (l : Loading) (tail : List ℕ)
    → 0 < length tail
    → length tail < 48
    → load_structs (suc n) index l tail ≡ none
unfolding load_structs
refuse_at n index l tail some_left short =
    let got : (read_bytes 48 tail).0 ≡ tail = read_bytes-short 48 tail (omega arith) in
    cut_off (read_bytes 48 tail).0 (read_bytes 48 tail).1 (omega (arith, ap (length {A = ℕ}) got))
      (omega (arith, ap (length {A = ℕ}) got))
  where
    cut_off :
        (got rest : List ℕ)
        → 0 < length got
        → length got < 48
        → (if length got == 0
            then some l
            else if length got == 48
            then load_structs n
                (suc index)
                (keep_or_skip (counted l) (decode_record (raw_record got) index))
                rest
            else none)
          ≡ none
    cut_off got rest low high = ground arith

load_binary_records-from :
    (rest : List ℕ)
    → load_binary_records (header_bytes ++ rest)
      ≡ load_structs (suc (length rest)) 0 new_loading rest
unfolding load_binary_records
load_binary_records-from rest =
    ap (λ (o : Option (List ℕ)). o >>= λ xs. load_structs (suc (length xs)) 0 new_loading xs)
      (load_header-header_bytes rest)

-- The loop on a whole file, with fuel for what stands behind the structs.
load_binary_records-tail :
    (rs : List BinaryTraceRecordV1) (tail : List ℕ)
    → All IsStruct rs
    → load_binary_records (header_bytes ++ (file_bytes rs ++ tail))
      ≡ load_structs
          (suc (47 * length rs + length tail))
          (0 + length rs)
          (load_each 0 new_loading rs)
          tail
load_binary_records-tail rs tail h =
    let fuel : suc (length (file_bytes rs ++ tail))
        ≡ length rs + suc (47 * length rs + length tail) =
      omega (arith, length-append {0} (file_bytes rs) tail, length-file_bytes rs) in
    load_binary_records-from (file_bytes rs ++ tail)
    ∙ ap (λ (k : ℕ). load_structs k 0 new_loading (file_bytes rs ++ tail)) fuel
    ∙ load_structs-file_bytes rs (suc (47 * length rs + length tail)) 0 new_loading tail h

-- A file of the header and any number of structs, each as it lies in memory with fields of their widths, is read
-- as those structs, each of them kept or counted as malformed in turn.
pub load_binary_records-file_bytes :
    (rs : List BinaryTraceRecordV1)
    → All IsStruct rs
    → load_binary_records (header_bytes ++ (file_bytes rs ++ []))
      ≡ some (load_each 0 new_loading rs)
load_binary_records-file_bytes rs h =
    load_binary_records-tail rs [] h
    ∙ stop_at (47 * length rs + length {A = ℕ} []) (0 + length rs) (load_each 0 new_loading rs)

-- A file that ends within a struct is refused, however many structs, with fields of their widths, stand before it.
pub load_binary_records-truncated :
    (rs : List BinaryTraceRecordV1) (tail : List ℕ)
    → All IsStruct rs
    → 0 < length tail
    → length tail < 48
    → load_binary_records (header_bytes ++ (file_bytes rs ++ tail)) ≡ none
load_binary_records-truncated rs tail h some_left short =
    load_binary_records-tail rs tail h
    ∙ refuse_at (47 * length rs + length tail) (0 + length rs) (load_each 0 new_loading rs) tail
        some_left short
