-- ===== src/Consumer.antt =====
-- crates/consumer: the mirror of the feed that a wallet reads.
pub mod Number
pub mod Mem
pub mod Reply
pub mod State
pub mod Act
pub mod Anchors
pub mod Sync
pub mod Apply
