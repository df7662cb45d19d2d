-- ===== src/Sh2/Tests/Codes.antt =====
-- Code in the instruction cache of the SH-2 core, and code that comes with a fetch.
use mathlib.Core.List.{Memᴰ}
use saturnis.Base.{ℕ, ◌+◌, ◌≡◌, refl, true, false, none, some, List, [], ◌∷◌, arith, bit_and}
use saturnis.Base.Word.{u64}
use saturnis.Mem.Bytes.{load}
use saturnis.Mem.{to_phys, cache_read, is_uncached_alias, is_mmio}
use saturnis.Trace.{new_trace, add_state, add_fault, illegal_op}
use saturnis.Sh2.{Sh2Core, new_sh2_core}
use saturnis.Sh2.Rows.{row, differs_from}
use saturnis.Sh2.Execute.{execute_op_of, execute_rows, branch_op, bt}
use saturnis.Sh2.Produce.{
  run_ahead, is_uncached, word_width, produce_until_bus, begin_access, load_rn, store_r0,
  long_width, at_rm, at_rn_high_disp,
}
use saturnis.Sh2.Apply.{apply_ifetch_and_step, take_icache_line}
use saturnis.Sh2.Ahead.{Counts, produce_until_bus-Counts}
use saturnis.Sh2.Fetches.{only_cached, fetched_access_is_illegal, cached_branch_is_store}
use saturnis.Sh2.Tests.{fresh, answer}

-- A core with one line of code in its cache.
abbrev caching : List ℕ → Sh2Core
caching code = record fresh {
  icache = record {
    line_size = 16;
    lines = record { valid = true; tag = 0x60_0000; bytes = code } ∷ [];
  };
}

-- Three times NOP, and MOV.L @R0,R1.
abbrev three_nops : List ℕ
three_nops = 0 ∷ 9 ∷ 0 ∷ 9 ∷ 0 ∷ 9 ∷ 0x61 ∷ 0x02 ∷ 0 ∷ 0 ∷ 0 ∷ 0 ∷ 0 ∷ 0 ∷ 0 ∷ 0 ∷ []

-- BT with the displacement 1.
abbrev branch_code : List ℕ
branch_code = 0x89 ∷ 1 ∷ 0 ∷ 9 ∷ 0 ∷ 9 ∷ 0 ∷ 9 ∷ 0 ∷ 0 ∷ 0 ∷ 0 ∷ 0 ∷ 0 ∷ 0 ∷ 0 ∷ []

cached_branch :
    cache_read (caching branch_code).icache (to_phys (caching branch_code).pc) 2 ≡ some 0x8901
unfolding cache_read to_phys new_sh2_core load
cached_branch = refl

in_cached_space : is_uncached 0x0600_0000 ≡ false
unfolding is_uncached_alias is_mmio to_phys
in_cached_space = refl

produce_until_bus-Counts_example :
    Counts 5 (caching three_nops) 0 (produce_until_bus (caching three_nops) 1 new_trace 5)
unfolding new_sh2_core
produce_until_bus-Counts_example =
    produce_until_bus-Counts 5 1 (caching three_nops) new_trace (omega arith) (omega arith) refl
      refl

cached_branch_is_store_example :
    (execute_op_of 0x8901 ≡ some (branch_op bt))
    × ((run_ahead 16 1 (caching branch_code) new_trace 0).core
        ≡ begin_access (store_r0 word_width at_rn_high_disp) 0x8901 (caching branch_code))
    × ((run_ahead 16 1 (caching branch_code) new_trace 0).result.executed ≡ 0)
cached_branch_is_store_example =
    cached_branch_is_store
      (record { value = 0x8901; store = store_r0 word_width at_rn_high_disp; branch = bt })
      (caching branch_code) 0x8901 15 1 0 new_trace (Memᴰ.tail (Memᴰ.head refl)) in_cached_space
      cached_branch (omega arith) refl

-- MOV.L @R0,R1.
long_load_only_cached : only_cached (row 0xF00F 0x6002 (load_rn long_width at_rm)) ≡ true
unfolding differs_from execute_rows
long_load_only_cached = refl

fetched_access_is_illegal_example :
    ((apply_ifetch_and_step fresh (answer 0x6102) new_trace).0.r ≡ fresh.r)
    × ((apply_ifetch_and_step fresh (answer 0x6102) new_trace).0.pending_mem_op ≡ none)
    × ((apply_ifetch_and_step fresh (answer 0x6102) new_trace).1
        ≡ add_state
            (add_fault
              (take_icache_line
                (answer 0x6102)
                (record fresh { t = u64 (fresh.t + 2) })
                new_trace).1
              (record {
                t =
                    (take_icache_line
                      (answer 0x6102)
                      (record fresh { t = u64 (fresh.t + 2) })
                      new_trace).0.t;
                cpu =
                    (take_icache_line
                      (answer 0x6102)
                      (record fresh { t = u64 (fresh.t + 2) })
                      new_trace).0.cpu_id;
                pc =
                    (take_icache_line
                      (answer 0x6102)
                      (record fresh { t = u64 (fresh.t + 2) })
                      new_trace).0.pc;
                detail = bit_and 0x6102 0xFFFF;
                reason = illegal_op;
              }))
            (record {
              t = (apply_ifetch_and_step fresh (answer 0x6102) new_trace).0.t;
              cpu = (apply_ifetch_and_step fresh (answer 0x6102) new_trace).0.cpu_id;
              pc = (apply_ifetch_and_step fresh (answer 0x6102) new_trace).0.pc;
              sr = (apply_ifetch_and_step fresh (answer 0x6102) new_trace).0.sr;
              r = (apply_ifetch_and_step fresh (answer 0x6102) new_trace).0.r;
            }))
unfolding new_sh2_core
fetched_access_is_illegal_example =
    fetched_access_is_illegal fresh (row 0xF00F 0x6002 (load_rn long_width at_rm)) (answer 0x6102)
      new_trace long_load_only_cached refl refl refl
