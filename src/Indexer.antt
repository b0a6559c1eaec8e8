-- ===== src/Indexer.antt =====
-- The indexer, crates/indexerd/src.
pub mod Store
pub mod Config
pub mod Recovery
pub mod Cycle
pub mod Cutter
pub mod Closure
