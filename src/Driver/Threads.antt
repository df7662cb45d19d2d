-- ===== src/Driver/Threads.antt =====
-- src/core/emulator.cpp: `run_scripted_pair_multithread`, the driver with a thread for each CPU beside the main
-- thread, which has the arbiter.
pub mod Producer
pub mod Main
pub mod Steps
pub mod Invariant
pub mod Producers
pub mod Batches
pub mod Sounds
pub mod Mains
pub mod Reachable
pub mod Safety
pub mod Deadlock
pub mod Race
mod Tests
