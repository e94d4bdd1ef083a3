-- ===== src/Miner.antt =====
-- The miner, crates/logdrain/src/miner.rs, in parts: the state, the search for the best cluster,
-- the `add` path, the queries, and what the invariant and the laws say of them.
pub mod Update
pub mod State
pub mod Matching
pub mod Learn
pub mod Add
pub mod Snapshot
pub mod Query
pub mod Layout
pub mod Invariant
pub mod Rematch
pub mod Adding
pub mod Concurrent
