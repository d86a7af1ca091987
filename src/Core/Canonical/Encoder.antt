-- ===== src/Core/Canonical/Encoder.antt =====
-- crates/kvpack-core/src/canonical.rs: `Encoder`. The buffer goes into each method and comes out.
use kvpack.Base.{ℕ, List, [], ◌∷◌, ◌++◌, leb, length, Result, ok, fail_if, ◌>>◌}
use kvpack.Base.Bytes.{to_le_bytes}
use kvpack.Core.Error.{PackError, bounds}

abbrev pub new : List ℕ → List ℕ
new magic = magic

abbrev pub u8 : ℕ → List ℕ → List ℕ
u8 value out = out ++ (value ∷ [])

abbrev pub u16 : ℕ → List ℕ → List ℕ
u16 value out = out ++ to_le_bytes 2 value

abbrev pub u32 : ℕ → List ℕ → List ℕ
u32 value out = out ++ to_le_bytes 4 value

abbrev pub u64 : ℕ → List ℕ → List ℕ
u64 value out = out ++ to_le_bytes 8 value

abbrev pub bytes : List ℕ → List ℕ → List ℕ
bytes value out = out ++ value

abbrev pub id : List ℕ → List ℕ → List ℕ
id value out = bytes value out

unfoldable pub string : List ℕ → List ℕ → Result PackError (List ℕ)
string value out = do
  fail_if (leb 0x1_0000 (length value)) (bounds "string is too long")
  ok (bytes value (u16 (length value) out))
