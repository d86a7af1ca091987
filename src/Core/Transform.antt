-- ===== src/Core/Transform.antt =====
-- crates/kvpack-core/src/transform.rs: repack ops, transform descriptors, and their wire form.
-- A string is the list of its UTF-8 bytes, and an identity the list of its 32 bytes.
pub mod Decode
pub mod Descriptor
pub mod Permutation
pub mod OpWire
pub mod RoundTrip
pub mod Canonical
pub mod Exec
use kvpack.Base.{ℕ, zero, suc, ◌%◌, List, [], ◌∷◌, Bool, true, false, ◌&&◌, ◌||◌, not, Option, none}
use kvpack.Base.{some, String, ltb, ◌==◌, if◌then◌else◌, length, set, replicate, Result, ok, err}
use kvpack.Base.{fail_if, ◌>>◌, ◌>>=◌}
use kvpack.Core.Error.{PackError, unknown_enum, bad_magic, bounds, semantics}
use kvpack.Core.Canonical.Encoder

-- `b"KVXFM1\0\0"`
abbrev pub transform_magic : List ℕ
transform_magic = b'K' ∷ b'V' ∷ b'X' ∷ b'F' ∷ b'M' ∷ b'1' ∷ 0 ∷ 0 ∷ []

abbrev pub transform_version : ℕ
transform_version = 1

abbrev pub max_transform_ops : ℕ
max_transform_ops = 64

abbrev pub max_transform_label_bytes : ℕ
max_transform_label_bytes = 128

abbrev pub max_permutation_width : ℕ
max_permutation_width = 16_384

abbrev pub max_pad_target_bytes : ℕ
max_pad_target_bytes = 0x4000_0000

abbrev pub max_rope_head_dim : ℕ
max_rope_head_dim = 4_096

abbrev pub zero_id : List ℕ
zero_id = replicate 32 0

pub data CastDtype : Type 0 where
  fp16 bf16 fp8_e4m3 : CastDtype

unfoldable pub cast_dtype_from_wire : ℕ → Result PackError CastDtype
cast_dtype_from_wire value =
    if value == 1
    then ok fp16
    else (if value == 2
        then ok bf16
        else (if value == 3 then ok fp8_e4m3 else err (unknown_enum "cast dtype" value)))

unfoldable pub cast_dtype_wire : CastDtype → ℕ
cast_dtype_wire fp16 = 1
cast_dtype_wire bf16 = 2
cast_dtype_wire fp8_e4m3 = 3

pub data RopeDirection : Type 0 where
  neox_to_interleaved interleaved_to_neox : RopeDirection

unfoldable pub rope_direction_from_wire : ℕ → Result PackError RopeDirection
rope_direction_from_wire value =
    if value == 1
    then ok neox_to_interleaved
    else (if value == 2 then ok interleaved_to_neox else err (unknown_enum "rope direction" value))

unfoldable pub rope_direction_wire : RopeDirection → ℕ
rope_direction_wire neox_to_interleaved = 1
rope_direction_wire interleaved_to_neox = 2

pub data RepackOp : Type 0 where
  permute_head_pairs : List ℕ → RepackOp
  reorder_planes : List ℕ → RepackOp
  regroup_layers : List ℕ → RepackOp
  pad_or_trim : ℕ → RepackOp
  dtype_cast : CastDtype → CastDtype → Option (List ℕ) → RepackOp
  rope_permute : RopeDirection → ℕ → RepackOp

unfoldable pub encode_indices : List ℕ → List ℕ → List ℕ
encode_indices [] out = out
encode_indices (index ∷ order) out = encode_indices order (Encoder.u32 index out)

unfoldable pub encode_permutation : ℕ → List ℕ → List ℕ → List ℕ
unfolding encode_indices
encode_permutation tag order out =
    encode_indices order (Encoder.u16 (length order % 0x1_0000) (Encoder.u16 tag out))

unfoldable pub encode_op : RepackOp → List ℕ → List ℕ
unfolding encode_permutation cast_dtype_wire rope_direction_wire
encode_op (permute_head_pairs order) out = encode_permutation 1 order out
encode_op (reorder_planes order) out = encode_permutation 2 order out
encode_op (regroup_layers order) out = encode_permutation 3 order out
encode_op (pad_or_trim target_bytes) out = Encoder.u64 target_bytes (Encoder.u16 4 out)
encode_op (dtype_cast from to (some scale)) out =
    let head =
      Encoder.u16 (cast_dtype_wire to) (Encoder.u16 (cast_dtype_wire from) (Encoder.u16 5 out)) in
    Encoder.id scale (Encoder.u8 1 head)
encode_op (dtype_cast from to none) out =
    let head =
      Encoder.u16 (cast_dtype_wire to) (Encoder.u16 (cast_dtype_wire from) (Encoder.u16 5 out)) in
    Encoder.id zero_id (Encoder.u8 0 head)
encode_op (rope_permute direction head_dim) out =
    Encoder.u32 head_dim (Encoder.u16 (rope_direction_wire direction) (Encoder.u16 6 out))

-- `seen[slot]`; the index is below the length where the code reads it.
abbrev pub is_seen : List Bool → ℕ → Bool
is_seen [] slot = false
is_seen (s ∷ seen) zero = s
is_seen (s ∷ seen) (suc slot) = is_seen seen slot

-- The loop over the indices, with the marks of those already met.
unfoldable pub check_indices : List ℕ → List Bool → Result PackError (Unit {0})
check_indices [] seen = ok tt
check_indices (index ∷ order) seen = do
  fail_if (not (ltb index (length seen)))
      (semantics "transform permutation index is outside the permutation width")
  fail_if (is_seen seen index) (semantics "transform permutation repeats a source index")
  check_indices order (set seen index true)

unfoldable pub validate_permutation : List ℕ → Result PackError (Unit {0})
validate_permutation order = do
  fail_if (length order == 0 || ltb max_permutation_width (length order))
      (bounds "transform permutation width is outside the v1 bounds")
  check_indices order (replicate (length order) false)

abbrev pub is_fp8 : CastDtype → Bool
is_fp8 fp8_e4m3 = true
is_fp8 other = false

abbrev pub same_dtype : CastDtype → CastDtype → Bool
same_dtype fp16 fp16 = true
same_dtype bf16 bf16 = true
same_dtype fp8_e4m3 fp8_e4m3 = true
same_dtype from to = false

abbrev pub is_some : Option (List ℕ) → Bool
is_some none = false
is_some (some id) = true

abbrev pub bool_ne : Bool → Bool → Bool
bool_ne true b = not b
bool_ne false b = b

unfoldable pub validate_op : RepackOp → Result PackError (Unit {0})
unfolding validate_permutation
validate_op (permute_head_pairs order) = validate_permutation order
validate_op (reorder_planes order) = validate_permutation order
validate_op (regroup_layers order) = validate_permutation order
validate_op (pad_or_trim target_bytes) =
    fail_if (target_bytes == 0 || ltb max_pad_target_bytes target_bytes)
      (bounds "transform pad-or-trim target is outside the v1 bounds")
validate_op (dtype_cast from to scale_id) = do
  fail_if (same_dtype from to) (semantics "transform dtype-cast endpoints must differ")
  let needs_scale = is_fp8 from || is_fp8 to
  fail_if (bool_ne needs_scale (is_some scale_id))
      (semantics "transform dtype-cast scale-id presence must match fp8e4m3 endpoints")
validate_op (rope_permute direction head_dim) =
    fail_if (ltb head_dim 2 || (ltb max_rope_head_dim head_dim || not (head_dim % 2 == 0)))
      (bounds "transform rope-permute head dim is outside the v1 bounds")

unfoldable pub is_ascii : List ℕ → Bool
is_ascii [] = true
is_ascii (b ∷ bytes) = ltb b 128 && is_ascii bytes

unfoldable pub validate_label : List ℕ → String → Result PackError (Unit {0})
validate_label value what =
    fail_if
      (length value == 0 || (ltb max_transform_label_bytes (length value) || not (is_ascii value)))
      (bounds what)

pub record TransformDescriptor : Type 0 where
  pub schema_version : ℕ
  pub name : List ℕ
  pub source_layout : List ℕ
  pub ops : List RepackOp

unfoldable pub validate_ops : List RepackOp → Result PackError (Unit {0})
validate_ops [] = ok tt
validate_ops (op ∷ ops) = do validate_op op; validate_ops ops

unfoldable pub validate : TransformDescriptor → Result PackError (Unit {0})
validate descriptor = do
  fail_if (not (descriptor.schema_version == transform_version))
      (bad_magic "transform descriptor schema version is outside the v1 bounds")
  validate_label descriptor.name "transform name is outside the v1 bounds"
  validate_label descriptor.source_layout "transform source layout is outside the v1 bounds"
  fail_if (ltb max_transform_ops (length descriptor.ops))
      (bounds "transform op count is outside the v1 bounds")
  validate_ops descriptor.ops

unfoldable pub encode_ops : List RepackOp → List ℕ → List ℕ
encode_ops [] out = out
encode_ops (op ∷ ops) out = encode_ops ops (encode_op op out)

-- `TransformDescriptor::encode`.
unfoldable pub encode : TransformDescriptor → Result PackError (List ℕ)
encode descriptor = do
  validate descriptor
  let out = Encoder.u16 transform_version (Encoder.new transform_magic)
  named ← Encoder.string descriptor.name out
  sourced ← Encoder.string descriptor.source_layout named
  ok (encode_ops descriptor.ops (Encoder.u16 (length descriptor.ops % 0x1_0000) sourced))
