-- ===== src/Core/Transform/OpWire/Reads.antt =====
-- `decode_op` reads back what `encode_op` appended.
use kvpack.Base.{ℕ, ◌%◌, ◌<◌, ◌≡◌, refl, ap, ◌∙◌, List, [], ◌∷◌, ◌++◌, arith}
use kvpack.Base.{Option, none, some, length, All, ok, >>=-eq-ok}
use kvpack.Base.Bytes.{to_le_bytes}
use kvpack.Core.Canonical.Decoder
use kvpack.Core.Canonical.Decoder.{Read, pure, lift, ◌>>=◌}
use kvpack.Core.Canonical.Reading.{Parses, pure-Parses, >>=-Parses, then-Parses, last-Parses}
use kvpack.Core.Canonical.Reading.{lift-Parses, u8-Parses, u16-Parses, u32-Parses, u64-Parses}
use kvpack.Core.Canonical.Reading.{id-Parses}
use kvpack.Core.Transform.{
  RepackOp, permute_head_pairs, reorder_planes, regroup_layers, pad_or_trim,
}
use kvpack.Core.Transform.{dtype_cast, rope_permute, CastDtype, fp16, bf16, fp8_e4m3, RopeDirection}
use kvpack.Core.Transform.{neox_to_interleaved, interleaved_to_neox, cast_dtype_wire, zero_id}
use kvpack.Core.Transform.{cast_dtype_from_wire, rope_direction_wire, rope_direction_from_wire}
use kvpack.Core.Transform.{validate_op, validate_ops, validate_permutation}
use kvpack.Core.Transform.Decode.{decode_indices, decode_permutation, scale_marker, decode_cast}
use kvpack.Core.Transform.Decode.{decode_rope, decode_tagged, decode_op, decode_ops}
use kvpack.Core.Transform.Permutation.{validate_permutation_iff}
use kvpack.Core.Transform.OpWire.{index_bytes, permutation_bytes, scale_bytes, op_bytes, ops_bytes}
use kvpack.Core.Transform.OpWire.{IsU32, IsTypedOp}

pub cast_dtype-from_wire-wire : (t : CastDtype) → cast_dtype_from_wire (cast_dtype_wire t) ≡ ok t
unfolding cast_dtype_from_wire cast_dtype_wire
cast_dtype-from_wire-wire fp16 = refl
cast_dtype-from_wire-wire bf16 = refl
cast_dtype-from_wire-wire fp8_e4m3 = refl

pub rope_direction-from_wire-wire :
    (r : RopeDirection) → rope_direction_from_wire (rope_direction_wire r) ≡ ok r
unfolding rope_direction_from_wire rope_direction_wire
rope_direction-from_wire-wire neox_to_interleaved = refl
rope_direction-from_wire-wire interleaved_to_neox = refl

cast_dtype_wire-lt : (t : CastDtype) → cast_dtype_wire t < 0x1_0000
unfolding cast_dtype_wire
cast_dtype_wire-lt t = ground arith

rope_direction_wire-lt : (r : RopeDirection) → rope_direction_wire r < 0x1_0000
unfolding rope_direction_wire
rope_direction_wire-lt r = ground arith

decode_indices-Parses :
    (order : List ℕ)
    → All IsU32 order
    → Parses (decode_indices (length order)) (index_bytes order) order
unfolding decode_indices
decode_indices-Parses [] h = pure-Parses [] [] refl
decode_indices-Parses (index ∷ order) (h, hs) =
    >>=-Parses Decoder.u32 _ index (index ∷ order) (to_le_bytes 4 index) (index_bytes order)
      (u32-Parses index h)
      (last-Parses (decode_indices (length order)) (λ o. index ∷ o) order (index ∷ order)
        (index_bytes order) (decode_indices-Parses order hs) refl)

permutation_body : List ℕ → List ℕ
permutation_body order = to_le_bytes 2 (length order % 0x1_0000) ++ index_bytes order

decode_permutation-Parses :
    (order : List ℕ)
    → All IsU32 order
    → length order < 0x1_0000
    → Parses decode_permutation (permutation_body order) order
unfolding decode_permutation permutation_body
decode_permutation-Parses order h small =
    let width : length order % 0x1_0000 ≡ length order = omega arith in
    rw width (
      >>=-Parses Decoder.u16 decode_indices (length order) order (to_le_bytes 2 (length order))
        (index_bytes order) (u16-Parses (length order) small) (decode_indices-Parses order h))

-- The marker and the identity of a scale, and the op that they complete.
abbrev scale_tail : CastDtype → CastDtype → Read RepackOp
scale_tail from to = do
  present ← Decoder.u8
  id ← Decoder.id
  scale_id ← scale_marker present id
  pure (dtype_cast from to scale_id)

scale_tail-Parses :
    (from to : CastDtype) (scale_id : Option (List ℕ))
    → IsTypedOp (dtype_cast from to scale_id)
    → Parses (scale_tail from to) (scale_bytes scale_id) (dtype_cast from to scale_id)
unfolding scale_marker
scale_tail-Parses from to none h =
    >>=-Parses Decoder.u8 _ 0 (dtype_cast from to none) (0 ∷ []) zero_id (u8-Parses 0 (omega arith))
      (then-Parses Decoder.id _ zero_id (dtype_cast from to none) zero_id (id-Parses zero_id refl)
        (pure-Parses (dtype_cast from to none) (dtype_cast from to none) refl))
scale_tail-Parses from to (some scale) h =
    >>=-Parses Decoder.u8 _ 1 (dtype_cast from to (some scale)) (1 ∷ []) scale
      (u8-Parses 1 (omega arith))
      (then-Parses Decoder.id _ scale (dtype_cast from to (some scale)) scale (id-Parses scale h.0)
        (pure-Parses (dtype_cast from to (some scale)) (dtype_cast from to (some scale)) refl))

decode_cast-Parses :
    (from to : CastDtype) (scale_id : Option (List ℕ))
    → IsTypedOp (dtype_cast from to scale_id)
    → Parses decode_cast
        (to_le_bytes 2 (cast_dtype_wire from)
          ++ (to_le_bytes 2 (cast_dtype_wire to) ++ scale_bytes scale_id))
        (dtype_cast from to scale_id)
unfolding decode_cast
decode_cast-Parses from to scale_id h =
    let op = dtype_cast from to scale_id in
    let tail = scale_bytes scale_id in
    let from_bytes = to_le_bytes 2 (cast_dtype_wire from) in
    let to_bytes = to_le_bytes 2 (cast_dtype_wire to) in
    >>=-Parses Decoder.u16 _ (cast_dtype_wire from) op from_bytes (to_bytes ++ tail)
      (u16-Parses _ (cast_dtype_wire-lt from))
      (>>=-Parses (lift (cast_dtype_from_wire (cast_dtype_wire from))) _ from op []
        (to_bytes ++ tail) (lift-Parses _ from (cast_dtype-from_wire-wire from))
        (>>=-Parses Decoder.u16 _ (cast_dtype_wire to) op to_bytes tail
          (u16-Parses _ (cast_dtype_wire-lt to))
          (>>=-Parses (lift (cast_dtype_from_wire (cast_dtype_wire to))) (λ t. scale_tail from t) to
            op [] tail (lift-Parses _ to (cast_dtype-from_wire-wire to))
            (scale_tail-Parses from to scale_id h))))

decode_rope-Parses :
    (direction : RopeDirection) (head_dim : ℕ)
    → IsU32 head_dim
    → Parses decode_rope
        (to_le_bytes 2 (rope_direction_wire direction) ++ to_le_bytes 4 head_dim)
        (rope_permute direction head_dim)
unfolding decode_rope
decode_rope-Parses direction head_dim h =
    let op = rope_permute direction head_dim in
    let value = rope_direction_wire direction in
    >>=-Parses Decoder.u16 _ value op (to_le_bytes 2 value) (to_le_bytes 4 head_dim)
      (u16-Parses value (rope_direction_wire-lt direction))
      (>>=-Parses (lift (rope_direction_from_wire value)) _ direction op [] (to_le_bytes 4 head_dim)
        (lift-Parses _ direction (rope_direction-from_wire-wire direction))
        (last-Parses Decoder.u32 (λ n. rope_permute direction n) head_dim op
          (to_le_bytes 4 head_dim) (u32-Parses head_dim h) refl))

-- One op behind its tag.
tagged :
    (tag : ℕ) (bytes : List ℕ) (op : RepackOp)
    → tag < 0x1_0000
    → Parses (decode_tagged tag) bytes op
    → Parses decode_op (to_le_bytes 2 tag ++ bytes) op
unfolding decode_op
tagged tag bytes op h body =
    >>=-Parses Decoder.u16 decode_tagged tag op (to_le_bytes 2 tag) bytes (u16-Parses tag h) body

width_small : (order : List ℕ) → validate_permutation order ≡ ok tt → length order < 0x1_0000
width_small order e = omega (arith, (validate_permutation_iff order).0 e)

-- A permutation op behind its tag, for the three that hold one.
permutation_op :
    (tag : ℕ) (order : List ℕ) (make : List ℕ → RepackOp)
    → tag < 0x1_0000
    → decode_tagged tag ≡ (decode_permutation >>= λ o. pure (make o))
    → All IsU32 order
    → validate_permutation order ≡ ok tt
    → Parses decode_op (permutation_bytes tag order) (make order)
unfolding permutation_body
permutation_op tag order make h e typed valid = tagged tag (permutation_body order) (make order) h (
    rw e (
      last-Parses decode_permutation make order (make order) (permutation_body order)
        (decode_permutation-Parses order typed (width_small order valid)) refl))

pub decode_op-Parses :
    (op : RepackOp) → IsTypedOp op → validate_op op ≡ ok tt → Parses decode_op (op_bytes op) op
unfolding decode_tagged validate_op
decode_op-Parses (permute_head_pairs order) typed valid =
    permutation_op 1 order permute_head_pairs (omega arith) refl typed valid
decode_op-Parses (reorder_planes order) typed valid =
    permutation_op 2 order reorder_planes (omega arith) refl typed valid
decode_op-Parses (regroup_layers order) typed valid =
    permutation_op 3 order regroup_layers (omega arith) refl typed valid
decode_op-Parses (pad_or_trim target_bytes) typed valid =
    tagged 4 (to_le_bytes 8 target_bytes) (pad_or_trim target_bytes) (omega arith) (
      last-Parses Decoder.u64 pad_or_trim target_bytes (pad_or_trim target_bytes)
        (to_le_bytes 8 target_bytes) (u64-Parses target_bytes typed) refl)
decode_op-Parses (dtype_cast from to scale_id) typed valid =
    tagged 5
      (to_le_bytes 2 (cast_dtype_wire from)
        ++ (to_le_bytes 2 (cast_dtype_wire to) ++ scale_bytes scale_id))
      (dtype_cast from to scale_id) (omega arith) (decode_cast-Parses from to scale_id typed)
decode_op-Parses (rope_permute direction head_dim) typed valid =
    tagged 6 (to_le_bytes 2 (rope_direction_wire direction) ++ to_le_bytes 4 head_dim)
      (rope_permute direction head_dim) (omega arith) (decode_rope-Parses direction head_dim typed)

pub decode_ops-Parses :
    (ops : List RepackOp)
    → All IsTypedOp ops
    → validate_ops ops ≡ ok tt
    → Parses (decode_ops (length ops)) (ops_bytes ops) ops
unfolding decode_ops validate_ops
decode_ops-Parses [] typed valid = pure-Parses [] [] refl
decode_ops-Parses (op ∷ ops) (typed, typeds) valid =
    let (_, here, later) = >>=-eq-ok (validate_op op) _ valid in
    >>=-Parses decode_op _ op (op ∷ ops) (op_bytes op) (ops_bytes ops)
      (decode_op-Parses op typed (here ∙ ap ok Unit-eq))
      (last-Parses (decode_ops (length ops)) (λ o. op ∷ o) ops (op ∷ ops) (ops_bytes ops)
        (decode_ops-Parses ops typeds later) refl)
  where
    Unit-eq : {u : Unit {0}} → u ≡ tt
    Unit-eq = refl
