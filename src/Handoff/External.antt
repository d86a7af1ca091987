-- ===== src/Handoff/External.antt =====
-- The code that the handoff calls and that this repository does not hold: SHA-256, HMAC-SHA256, the
-- hex crate, and serde_json under `canonical_json` of crates/kvpack-handoff/src/canonical.rs.
use kvpack.Base.{ℕ, List, Option, Result}
use kvpack.Handoff.{HandoffError}
use kvpack.Handoff.Manifest.{BeginManifest, LayerHeader, SealCore, SealManifest}

-- `canonical_json` of each manifest that is hashed, the digest of a byte string, the tag of a byte
-- string under a key, and lowercase hex with its decoder.
pub record External : Type 0 where
  pub json_begin : BeginManifest → Result HandoffError (List ℕ)
  pub json_header : LayerHeader → Result HandoffError (List ℕ)
  pub json_core : SealCore → Result HandoffError (List ℕ)
  pub json_seal : SealManifest → Result HandoffError (List ℕ)
  pub sha256 : List ℕ → List ℕ
  pub hmac_sha256 : List ℕ → List ℕ → List ℕ
  pub hex_encode : List ℕ → List ℕ
  pub hex_decode : List ℕ → Option (List ℕ)
