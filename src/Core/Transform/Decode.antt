-- ===== src/Core/Transform/Decode.antt =====
-- crates/kvpack-core/src/transform.rs: `RepackOp::decode` and `TransformDescriptor::decode`.
use kvpack.Base.{ℕ, zero, suc, List, [], ◌∷◌, ◌&&◌, Option, none, some, ◌==◌, if◌then◌else◌}
use kvpack.Base.{bytes_eq}
use kvpack.Core.Error.{unknown_enum, bad_magic, semantics}
use kvpack.Core.Canonical.Decoder
use kvpack.Core.Canonical.Decoder.{Read, pure, fail, lift, ◌>>=◌}
use kvpack.Core.Transform.{
  RepackOp, permute_head_pairs, reorder_planes, regroup_layers, pad_or_trim,
}
use kvpack.Core.Transform.{dtype_cast, rope_permute, cast_dtype_from_wire, rope_direction_from_wire}
use kvpack.Core.Transform.{zero_id, transform_version, TransformDescriptor}

-- The loop that pushes `width` indices.
unfoldable pub decode_indices : ℕ → Read (List ℕ)
decode_indices zero = pure []
decode_indices (suc width) = do
  index ← Decoder.u32
  order ← decode_indices width
  pure (index ∷ order)

unfoldable pub decode_permutation : Read (List ℕ)
decode_permutation = do width ← Decoder.u16; decode_indices width

-- The `match present` on the scale identity's marker.
unfoldable pub scale_marker : ℕ → List ℕ → Read (Option (List ℕ))
scale_marker present id =
    if present == 0 && bytes_eq id zero_id
    then pure none
    else (if present == 1
        then pure (some id)
        else fail (semantics "transform dtype-cast scale-id marker is outside the v1 bounds"))

unfoldable pub decode_cast : Read RepackOp
decode_cast = do
  from_value ← Decoder.u16
  from ← lift (cast_dtype_from_wire from_value)
  to_value ← Decoder.u16
  to ← lift (cast_dtype_from_wire to_value)
  present ← Decoder.u8
  id ← Decoder.id
  scale_id ← scale_marker present id
  pure (dtype_cast from to scale_id)

unfoldable pub decode_rope : Read RepackOp
decode_rope = do
  value ← Decoder.u16
  direction ← lift (rope_direction_from_wire value)
  head_dim ← Decoder.u32
  pure (rope_permute direction head_dim)

-- The `match` of `RepackOp::decode` on the tag.
unfoldable pub decode_tagged : ℕ → Read RepackOp
decode_tagged tag =
    if tag == 1
    then decode_permutation >>= (λ order. pure (permute_head_pairs order))
    else (if tag == 2
        then decode_permutation >>= (λ order. pure (reorder_planes order))
        else (if tag == 3
            then decode_permutation >>= (λ order. pure (regroup_layers order))
            else (if tag == 4
                then Decoder.u64 >>= (λ target_bytes. pure (pad_or_trim target_bytes))
                else (if tag == 5
                    then decode_cast
                    else (if tag == 6
                        then decode_rope
                        else fail (unknown_enum "transform op" tag))))))

unfoldable pub decode_op : Read RepackOp
decode_op = do tag ← Decoder.u16; decode_tagged tag

unfoldable pub decode_ops : ℕ → Read (List RepackOp)
decode_ops zero = pure []
decode_ops (suc count) = do op ← decode_op; ops ← decode_ops count; pure (op ∷ ops)

-- The fields of `TransformDescriptor::decode`, behind the version.
unfoldable pub decode_body : Read TransformDescriptor
decode_body = do
  name ← Decoder.string
  source_layout ← Decoder.string
  count ← Decoder.u16
  ops ← decode_ops count
  pure (record {
    schema_version = transform_version;
    name = name;
    source_layout = source_layout;
    ops = ops;
  })

-- The check of the version, and the fields.
unfoldable pub decode_fields : Read TransformDescriptor
decode_fields = do
  version ← Decoder.u16
  if version == transform_version
      then decode_body
      else fail (bad_magic "invalid transform descriptor version")
