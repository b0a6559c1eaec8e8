-- ===== src/Feed.antt =====
-- The feed crate, crates/feed/src.
pub mod Error
pub mod Felt
pub mod Host
pub mod Codec
pub mod Manifest
pub mod Decimal
pub mod Hex
pub mod Snapshot
pub mod Mpt
pub mod Trie
pub mod Proof
pub mod Checkpoint
pub mod Anchors
