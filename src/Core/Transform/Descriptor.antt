-- ===== src/Core/Transform/Descriptor.antt =====
-- crates/kvpack-core/src/transform.rs: the whole of `TransformDescriptor::decode`.
use kvpack.Base.{List, Result, ok, ◌>>=◌, ◌>>◌}
use kvpack.Core.Error.{PackError}
use kvpack.Core.Canonical.Decoder
use kvpack.Core.Transform.{TransformDescriptor, transform_magic, validate}
use kvpack.Core.Transform.Decode.{decode_fields}
use kvpack.Base.{ℕ}

unfoldable pub decode : List ℕ → Result PackError TransformDescriptor
decode bytes = do
  input ← Decoder.new bytes transform_magic
  (descriptor, rest) ← decode_fields input
  Decoder.finish rest
  validate descriptor
  ok descriptor
