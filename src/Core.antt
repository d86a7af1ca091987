-- ===== src/Core.antt =====
-- crates/kvpack-core: the wire formats.
pub mod Error
pub mod Half
pub mod Wire
pub mod Codec
pub mod Canonical
pub mod Transform
mod Tests
