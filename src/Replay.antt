-- ===== src/Replay.antt =====
-- tools/trace_replay/trace_replay.cpp: the tool that reads a recorded trace. Its records, the two formats in
-- which it reads them and the selection of those that it goes on with.
pub mod Text
pub mod Records
pub mod Load
pub mod Binary
pub mod Select
pub mod Accounting
pub mod Sequences
pub mod Structs
pub mod Print
pub mod Spans
pub mod RoundTrip
pub mod Fields
pub mod Lines
mod Tests
