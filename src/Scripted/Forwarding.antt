-- ===== src/Scripted/Forwarding.antt =====
-- The store buffer and the cache of src/cpu/scripted_cpu.cpp: what a CPU reads of its own writes, and the
-- lines that it takes from the bus.
use saturnis.Base.{
  ℕ, ◌+◌, ◌*◌, ◌/◌, ◌^◌, false, not, ◌||◌, ◌≤◌, ◌<◌, ◌≡◌, ◌≢◌, refl, ap, sym, subst, ◌∙◌, Option,
  some, List, [], ◌∷◌, ◌++◌, arith, length, All, ◌==◌,
}
use saturnis.Base.Word.{u32}
use saturnis.Mem.{
  CommittedMemory, StoreEntry, StoreBuffer, push, forward, retire, retire_in, fill_line, read_block,
  to_phys,
}
use saturnis.Mem.Bytes.{length-slice}
use saturnis.Mem.Stores.{forward-push}
use saturnis.Mem.Cache.{IsShaped, IsCoherent, fill_line-IsCoherent}
use saturnis.Trace.{TraceLog}
use saturnis.Bus.{BusResponse}
use saturnis.Scripted.{
  script_read, script_write, ScriptOp, ScriptedCpu, is_uncached, finish_read, produce_write,
  execute_op, instruction_at, apply_response, take_line,
}

forward_own : (b : StoreBuffer) (e : StoreEntry) → forward (push b e) e.phys e.size ≡ some e.value
forward_own b e = forward-push b e e.phys e.size ∙ ground arith

forwarded_read :
    (c : ScriptedCpu) (r : ScriptOp) (v : ℕ)
    → r.kind ≡ script_read
    → is_uncached r.vaddr ≡ false
    → forward c.store_buffer (to_phys r.vaddr) r.size ≡ some v
    → execute_op c r ≡ finish_read c v
unfolding execute_op
forwarded_read c r v k cached found = rw (k, cached, found, execute_op) refl

forward-produce_write :
    (c : ScriptedCpu) (w : ScriptOp)
    → forward (produce_write c w).0.store_buffer (to_phys w.vaddr) w.size ≡ some w.value
unfolding produce_write
forward-produce_write c w = forward_own c.store_buffer _

-- A CPU sees its own write before the bus commits it: behind a write to cached memory, a read of the same
-- address and size is finished with the written value, without a request to the bus.
pub execute_op-produce_write :
    (c : ScriptedCpu) (w r : ScriptOp)
    → r.kind ≡ script_read
    → r.vaddr ≡ w.vaddr
    → r.size ≡ w.size
    → is_uncached w.vaddr ≡ false
    → execute_op (produce_write c w).0 r ≡ finish_read (produce_write c w).0 w.value
execute_op-produce_write c w r k at size cached =
    forwarded_read (produce_write c w).0 r w.value k (rw at cached)
      (rw (at, size) (forward-produce_write c w))

retire_in-last :
    (es : List StoreEntry) (e : StoreEntry)
    → All (λ d. d.store_id ≢ e.store_id) es
    → retire_in (es ++ e ∷ []) e.store_id ≡ some es
unfolding retire_in
retire_in-last [] e h = ground arith
retire_in-last (d ∷ es) e h = ground (arith, retire_in-last es e h.1, h.0)

retire-push :
    (b : StoreBuffer) (e : StoreEntry)
    → All (λ d. d.store_id ≢ e.store_id) b.entries
    → (retire (push b e) e.store_id).0 ≡ b
unfolding retire push
retire-push b e h = rw (retire_in-last b.entries e h, retire) refl

-- The response to a write takes exactly that write out of the store buffer: if the id of the write is new, the
-- buffer is then what it was before the write.
pub apply_response-produce_write :
    (c : ScriptedCpu) (w : ScriptOp) (response : BusResponse) (trace : Option TraceLog)
    → All (λ e. e.store_id ≢ c.next_store_id) c.store_buffer.entries
    → instruction_at c c.pc ≡ w
    → w.kind ≡ script_write
    → (apply_response (produce_write c w).0 c.pc response c.next_store_id trace).0.store_buffer
      ≡ c.store_buffer
unfolding apply_response produce_write
apply_response-produce_write c w response trace new at k =
    rw (ap (λ (i : ScriptOp). i.kind) at ∙ k, apply_response) (retire-push c.store_buffer _ new)

length-read_block :
    (m : CommittedMemory) (base n : ℕ)
    → base * n + n ≤ length m.bytes
    → length (read_block m (base * n) n) ≡ n
unfolding read_block
length-read_block m base n inside = ground (arith, length-slice m.bytes (base * n) n)

small_size : (n : ℕ) → n < 2 ^ 32 → u32 n ≡ n
small_size n h = omega arith

-- A line that the bus read from memory keeps the cache coherent with it: after the response to a cached read
-- with the block of its address, whatever the CPU and its cache held. The line size is not 0, as in every
-- cache that the constructor makes, and is a 32-bit number.
pub apply_response-IsCoherent :
    (c : ScriptedCpu) (m : CommittedMemory) (index token : ℕ) (response : BusResponse)
    (trace : Option TraceLog)
    → IsShaped c.cache
    → IsCoherent c.cache m
    → c.cache.line_size < 2 ^ 32
    → (instruction_at c index).kind ≡ script_read
    → is_uncached (instruction_at c index).vaddr ≡ false
    → response.line_base ≡ to_phys (instruction_at c index).vaddr / c.cache.line_size
    → response.line_data ≡ read_block m (response.line_base * c.cache.line_size) c.cache.line_size
    → response.line_base * c.cache.line_size + c.cache.line_size ≤ length m.bytes
    → IsCoherent (apply_response c index response token trace).0.cache m
unfolding apply_response take_line
apply_response-IsCoherent c m index token response trace shaped co small k cached base block
      inside =
    let n = c.cache.line_size in
    let at = response.line_base in
    let phys = to_phys (instruction_at c index).vaddr in
    let len : length response.line_data ≡ n =
      ap (λ (bytes : List ℕ). length bytes) block ∙ length-read_block m at n inside in
    let some_bytes : (length response.line_data == 0) ≡ false = ground (arith, shaped.has_bytes) in
    let whole : (not (at == phys / u32 n) || not (length response.line_data == n)) ≡ false =
      ground (arith, small_size n small) in
    let filled : IsCoherent (fill_line c.cache at response.line_data) m =
      subst (λ (bytes : List ℕ). IsCoherent (fill_line c.cache at bytes) m) (sym block)
        (fill_line-IsCoherent c.cache m at shaped co inside) in
    rw (k, cached, some_bytes, whole, apply_response, take_line) filled
