-- ===== src/Store.antt =====
-- crates/kvpack/src/store: the local store.
pub mod Retention
pub mod Policy
pub mod Replay
mod Tests
