-- ===== src/Examples.antt =====
-- Small concrete inputs, and the theorems applied to them.
pub mod World
pub mod Feed
pub mod Trie
pub mod Trusted
pub mod Files
pub mod Snapshots
pub mod Mirror
pub mod State
pub mod Apply
pub mod Tail
pub mod Anchors
mod Cached
mod Recovery
mod Config
mod Sync
pub mod Start
