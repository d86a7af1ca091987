-- ===== src/Core/Transform/Exec.antt =====
-- crates/kvpack-core/src/transform/exec.rs: the executors of the repack ops, and the inverse ops.
-- A plane is its bytes. `usize` is of 64 bits; the checked products fail above it.
pub mod Slabs
pub mod Inverse
use kvpack.Base.{
  ℕ, zero, suc, ◌+◌, ◌*◌, ◌/◌, ◌%◌, min, List, [], ◌∷◌, ◌++◌, Bool, true, false, ◌||◌,
}
use kvpack.Base.{
  not, Option, none, some, ltb, ◌==◌, if◌then◌else◌, max_u64, length, set, take, drop,
}
use kvpack.Base.{replicate, Result, ok, err, fail_if, ◌>>◌, ◌>>=◌}
use kvpack.Core.Error.{PackError, bounds, semantics}
use kvpack.Core.Transform.{RopeDirection, neox_to_interleaved, interleaved_to_neox, RepackOp}
use kvpack.Core.Transform.{
  permute_head_pairs, reorder_planes, regroup_layers, pad_or_trim, dtype_cast,
}
use kvpack.Core.Transform.{
  rope_permute, validate_permutation, validate_op, validate, TransformDescriptor,
}
use kvpack.Core.Transform.{max_permutation_width}

pub record KvPlaneShape : Type 0 where
  pub tokens : ℕ
  pub kv_heads : ℕ
  pub head_dim : ℕ
  pub element_bytes : ℕ

-- `checked_mul` of `usize`, `none` passed on.
unfoldable pub checked_mul : Option ℕ → ℕ → Option ℕ
checked_mul none b = none
checked_mul (some a) b = if ltb max_u64 (a * b) then none else some (a * b)

unfoldable pub ok_or : Option ℕ → PackError → Result PackError ℕ
ok_or none e = err e
ok_or (some n) e = ok n

unfoldable pub plane_bytes : KvPlaneShape → Result PackError ℕ
plane_bytes shape = do
  fail_if (shape.tokens == 0) (bounds "transform plane has zero tokens")
  fail_if (shape.kv_heads == 0) (bounds "transform plane has zero kv heads")
  fail_if (shape.head_dim == 0) (bounds "transform plane has zero head dim")
  fail_if (shape.element_bytes == 0) (bounds "transform plane has zero element bytes")
  ok_or
      (checked_mul (checked_mul (checked_mul (some shape.tokens) shape.kv_heads) shape.head_dim)
        shape.element_bytes)
      (bounds "transform plane byte count overflows")

unfoldable pub checked_plane : KvPlaneShape → List ℕ → Result PackError ℕ
checked_plane shape plane = do
  expected ← plane_bytes shape
  fail_if (not (length plane == expected))
      (bounds "transform plane bytes do not match the declared shape")
  ok expected

-- `&plane[start..start + size]`, and `output[start..start + size].copy_from_slice(bytes)`; the
-- ranges stand inside for the planes that pass the checks.
unfoldable pub slice : ℕ → ℕ → List ℕ → List ℕ
slice start size plane = take size (drop start plane)

unfoldable pub copy_from_slice : ℕ → List ℕ → List ℕ → List ℕ
copy_from_slice start bytes output =
    take start output ++ (bytes ++ drop (start + length bytes) output)

-- The loop over the order from `slot` on, with slabs of `slab` bytes from `base` on.
unfoldable pub copy_slabs : ℕ → ℕ → List ℕ → ℕ → List ℕ → List ℕ → List ℕ
copy_slabs base slab plane slot [] output = output
copy_slabs base slab plane slot (source ∷ order) output =
    copy_slabs base slab plane (slot + 1) order
      (copy_from_slice (base + slot * slab) (slice (base + source * slab) slab plane) output)

unfoldable pub permute_slabs : List ℕ → List ℕ → Result PackError (List ℕ)
permute_slabs order plane = do
  fail_if (ltb max_permutation_width (length order) || not (length plane % length order == 0))
      (bounds "transform slab count does not divide the plane bytes")
  validate_permutation order
  ok (copy_slabs 0 (length plane / length order) plane 0 order (replicate (length plane) 0))

-- The loop over the rows from `row` on.
unfoldable pub copy_rows : ℕ → ℕ → ℕ → ℕ → List ℕ → List ℕ → List ℕ → List ℕ
copy_rows zero row row_bytes pair_bytes order plane output = output
copy_rows (suc rows) row row_bytes pair_bytes order plane output =
    copy_rows rows (row + 1) row_bytes pair_bytes order plane
      (copy_slabs (row * row_bytes) pair_bytes plane 0 order output)

unfoldable pub apply_head_pairs : List ℕ → KvPlaneShape → List ℕ → Result PackError (List ℕ)
apply_head_pairs order shape plane = do
  fail_if (not (shape.kv_heads % 2 == 0) || not (length order == shape.kv_heads / 2))
      (bounds "transform head-pair order does not match the declared kv heads")
  validate_permutation order
  row_bytes ←
      ok_or (checked_mul (checked_mul (some shape.kv_heads) shape.head_dim) shape.element_bytes)
        (bounds "transform row byte count overflows")
  ok (
      copy_rows shape.tokens 0 row_bytes (2 * shape.head_dim * shape.element_bytes) order plane
        (replicate (length plane) 0))

-- The source and the target of the two moves for a rotation dim.
unfoldable pub rope_moves : RopeDirection → ℕ → ℕ → (ℕ × ℕ) × (ℕ × ℕ)
rope_moves neox_to_interleaved half index = ((index, 2 * index), (index + half, 2 * index + 1))
rope_moves interleaved_to_neox half index = ((2 * index, index), (2 * index + 1, index + half))

unfoldable pub move_element : ℕ → ℕ → List ℕ → ℕ × ℕ → List ℕ → List ℕ
move_element base element_bytes plane (source, target) output =
    copy_from_slice (base + target * element_bytes)
      (slice (base + source * element_bytes) element_bytes plane) output

-- `for index in 0..half`, `steps` of it left, and `for head in 0..heads`.
unfoldable pub rope_head : RopeDirection → ℕ → ℕ → ℕ → List ℕ → ℕ → ℕ → List ℕ → List ℕ
rope_head direction half base element_bytes plane zero index output = output
rope_head direction half base element_bytes plane (suc steps) index output =
    let (first, second) = rope_moves direction half index in
    rope_head direction half base element_bytes plane steps (index + 1) (
      move_element base element_bytes plane second
        (move_element base element_bytes plane first output))

unfoldable pub rope_heads : RopeDirection → ℕ → ℕ → ℕ → List ℕ → ℕ → ℕ → List ℕ → List ℕ
rope_heads direction half head_bytes element_bytes plane zero head output = output
rope_heads direction half head_bytes element_bytes plane (suc heads) head output =
    rope_heads direction half head_bytes element_bytes plane heads (head + 1)
      (rope_head direction half (head * head_bytes) element_bytes plane half 0 output)

unfoldable pub apply_rope : RopeDirection → ℕ → KvPlaneShape → List ℕ → Result PackError (List ℕ)
apply_rope direction head_dim shape plane = do
  fail_if (not (head_dim == shape.head_dim) || (ltb head_dim 2 || not (head_dim % 2 == 0)))
      (bounds "transform rope head dim does not match the declared plane shape")
  let head_bytes = head_dim * shape.element_bytes
  ok (
      rope_heads direction (head_dim / 2) head_bytes shape.element_bytes plane
        (length plane / head_bytes) 0 (replicate (length plane) 0))

unfoldable pub pad_plane : ℕ → List ℕ → List ℕ
pad_plane target plane =
    copy_from_slice 0 (take (min (length plane) target) plane) (replicate target 0)

-- The `match` of `apply_repack_op`.
unfoldable pub execute : RepackOp → KvPlaneShape → List ℕ → Result PackError (List ℕ)
execute (permute_head_pairs order) shape plane = apply_head_pairs order shape plane
execute (reorder_planes order) shape plane = permute_slabs order plane
execute (regroup_layers order) shape plane = permute_slabs order plane
execute (pad_or_trim target_bytes) shape plane = ok (pad_plane target_bytes plane)
execute (dtype_cast from to scale) shape plane =
    err (semantics "transform dtype-cast is not bit-exact; the executor rejects lossy casts")
execute (rope_permute direction head_dim) shape plane = apply_rope direction head_dim shape plane

unfoldable pub apply_repack_op : RepackOp → KvPlaneShape → List ℕ → Result PackError (List ℕ)
apply_repack_op op shape plane = do
  validate_op op
  expected ← checked_plane shape plane
  execute op shape plane

unfoldable pub apply_ops : List RepackOp → KvPlaneShape → List ℕ → Result PackError (List ℕ)
apply_ops [] shape current = ok current
apply_ops (op ∷ ops) shape current = do
  next ← apply_repack_op op shape current
  apply_ops ops shape next

unfoldable pub apply_transform :
    TransformDescriptor → KvPlaneShape → List ℕ → Result PackError (List ℕ)
apply_transform descriptor shape plane = do
  validate descriptor
  apply_ops descriptor.ops shape plane

-- `invert`, its loop from `slot` on. A slot is below 2^32 for a width that is in the bounds.
unfoldable pub invert_from : ℕ → List ℕ → List ℕ → List ℕ
invert_from slot [] inverse = inverse
invert_from slot (source ∷ order) inverse = invert_from (slot + 1) order (set inverse source slot)

unfoldable pub invert : List ℕ → List ℕ
invert order = invert_from 0 order (replicate (length order) 0)

unfoldable pub flip : RopeDirection → RopeDirection
flip neox_to_interleaved = interleaved_to_neox
flip interleaved_to_neox = neox_to_interleaved

unfoldable pub inverse_repack_op : RepackOp → Option RepackOp
inverse_repack_op (permute_head_pairs order) = some (permute_head_pairs (invert order))
inverse_repack_op (reorder_planes order) = some (reorder_planes (invert order))
inverse_repack_op (regroup_layers order) = some (regroup_layers (invert order))
inverse_repack_op (pad_or_trim target_bytes) = none
inverse_repack_op (dtype_cast from to scale) = none
inverse_repack_op (rope_permute direction head_dim) = some (rope_permute (flip direction) head_dim)
