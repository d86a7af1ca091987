-- ===== src/Core/Error.antt =====
-- crates/kvpack-core/src/error.rs: the error type of the wire formats.
use kvpack.Base.{ℕ, String}

-- The enum `PackError`, each variant with its message.
pub data PackError : Type 0 where
  unknown_enum : String → ℕ → PackError
  u64_range : String → PackError
  bad_magic checksum reserved truncated : String → PackError
  bounds semantics graph authentication codec poisoned : String → PackError
