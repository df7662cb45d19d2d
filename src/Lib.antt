-- ===== src/Lib.antt =====
-- Verification of the Saturnis emulator's bus and SH-2 core: the arbiter that commits the operations of two
-- CPUs and DMA in one order, the parts that it commits them against, and the core that issues them.
--
-- The program. CPUs and DMA hand bus operations, each with the time of its request, to the arbiter. The
-- arbiter checks an operation, chooses among those that the CPUs' published progress lets commit, gives it a
-- start, a latency and a stall, performs it on memory or on the devices, and writes a line to the trace.
-- Beside it stand libbusarb, a small arbiter for other emulators, with a table of service times, and a tool that
-- reads recorded traces.
--
-- The files, each with its children in the folder of its name:
--   Base.antt: lists, bits, machine words and integers that the parts share.
--   Busarb.antt: include/busarb/busarb.hpp and src/busarb/busarb.cpp (`query_wait`, `commit_grant`,
--   `pick_winner`); Busarb/Timing.antt: src/busarb/ymir_timing.cpp (`ymir_access_cycles`).
--   Mem.antt: src/mem/memory.cpp (CommittedMemory as `memory_read`, `memory_write`, `read_block`; TinyCache as
--   `cache_read`, `cache_write`, `fill_line`; StoreBuffer as `push`, `forward`, `retire`; the address map).
--   Dev.antt: src/dev/devices.cpp (DeviceHub as `device_read`, `device_write`); Dev/Map.antt: its register map.
--   Trace.antt: src/core/trace.cpp, with a line kept as the event that it prints.
--   Bus.antt: src/bus/bus_arbiter.cpp up to the commit of one operation; Bus/Op.antt: src/bus/bus_op.hpp;
--   Bus/Rules.antt: validation, priorities and latencies; Bus/Batch.antt: `pick_next`, `commit_batch` and
--   `commit_pending`.
--   Scripted.antt: src/cpu/scripted_cpu.cpp (`produce`, `apply_response`).
--   Decode.antt: src/cpu/sh2_decode.cpp (`decode_family`, `decode_match_count`).
--   Driver.antt: src/core/emulator.cpp (`run_scripted_pair` and, in Driver/Scripts.antt, its scripts;
--   `run_bios_trace` in Driver/Bios.antt; `run_scripted_pair_multithread` in Driver/Threads: Producer.antt, a
--   CPU's thread with `SignalHub` and `Mailbox`, Main.antt, the main thread, Steps.antt, their steps).
--   Sh2.antt: src/cpu/sh2_core.hpp and sh2_core.cpp, the state; Sh2/Words.antt: their arithmetic; Sh2/Execute.antt:
--   `execute_instruction`, with the branches in Sh2/Alu.antt and Sh2/Transfer.antt; Sh2/Produce.antt:
--   `produce_until_bus`; Sh2/Apply.antt: `apply_ifetch_and_step` and `step`.
--   Replay.antt: tools/trace_replay/trace_replay.cpp. Replay/Text.antt: `find_value_span`, `parse_u64`, `parse_addr`;
--   Replay/Records.antt: `parse_record` and the classification; Replay/Load.antt: `load_jsonl_records`;
--   Replay/Binary.antt: `load_binary_records`; Replay/Select.antt: the selection in `main`; Replay/Print.antt: its
--   annotated lines.
--
-- State. An object is a record, and a method that changes it returns the changed record. The references
-- that the bus arbiter holds to memory, devices and trace are fields of its record; a CPU that writes a
-- fault to the trace is given that field and gives it back. Machine integers are natural numbers that wrap where they are computed.
-- A virtual policy and the timing callback are functions that the model takes as arguments.
--
-- Bounds. The loop of `commit_batch` runs on fuel, the number of pending operations: each turn takes one of
-- them out; the loop of `produce` runs on the length of the script,
-- and that of `produce_until_bus` on its run-ahead budget. `run_scripted_pair` and `run_bios_trace` run on
-- fuel that their caller gives, and return nothing where that is used up. `load_binary_records` runs on the
-- number of bytes and one, and every turn takes a byte. An integer is printed with up to 20 digits, which
-- 64 bits need. The threads are a relation of steps, and a theorem on a run of them bounds its steps by 2^64
-- where the epoch of the signal must not wrap. Every other loop follows a list. Memory
-- accesses have at most 4 bytes, as the arbiter lets through; theorems that need the 64-bit clock not to wrap say so.
--
-- Threads. A step of a thread is one access to what the threads share, which the source does under a lock or as
-- an atomic, with the thread's own work up to it. A run takes the steps of the three threads in any order.
--
-- Not modelled: the text of trace lines; of the trace replay tool the loop that compares with the libbusarb arbiter,
-- which does not compile, the percentiles, the options and the summary; the entry point with its files and window.
pub mod Base
pub mod Busarb
pub mod Mem
pub mod Dev
pub mod Trace
pub mod Bus
pub mod Scripted
pub mod Decode
pub mod Driver
pub mod Sh2
pub mod Replay
