-- ===== src/Core/Canonical.antt =====
-- crates/kvpack-core/src/canonical.rs: the encoder and the decoder of canonical objects.
pub mod Encoder
pub mod Decoder
pub mod Reading
pub mod Inverting
