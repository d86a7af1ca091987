-- ===== src/Core/Transform/OpWire.antt =====
-- The wire form of one op: what `encode_op` appends, and that `decode_op` reads it back.
pub mod Reads
pub mod Inverts
use kvpack.Base.{ℕ, zero, suc, ◌%◌, ◌<◌, ◌≤◌, ◌≡◌, refl, sym, ap, ◌∙◌, List, [], ◌∷◌, ◌++◌, arith}
use kvpack.Base.{Option, none, some, length, All, append_assoc, append-nil, max_u64}
use kvpack.Base.Bytes.{IsByte, to_le_bytes}
use kvpack.Core.Transform.{
  RepackOp, permute_head_pairs, reorder_planes, regroup_layers, pad_or_trim,
}
use kvpack.Core.Transform.{dtype_cast, rope_permute, cast_dtype_wire, rope_direction_wire, zero_id}
use kvpack.Core.Transform.{encode_indices, encode_permutation, encode_op, encode_ops}

abbrev pub index_bytes : List ℕ → List ℕ
index_bytes [] = []
index_bytes (index ∷ order) = to_le_bytes 4 index ++ index_bytes order

abbrev pub permutation_bytes : ℕ → List ℕ → List ℕ
permutation_bytes tag order =
    to_le_bytes 2 tag ++ (to_le_bytes 2 (length order % 0x1_0000) ++ index_bytes order)

abbrev pub scale_bytes : Option (List ℕ) → List ℕ
scale_bytes (some scale) = (1 ∷ []) ++ scale
scale_bytes none = (0 ∷ []) ++ zero_id

abbrev pub op_bytes : RepackOp → List ℕ
op_bytes (permute_head_pairs order) = permutation_bytes 1 order
op_bytes (reorder_planes order) = permutation_bytes 2 order
op_bytes (regroup_layers order) = permutation_bytes 3 order
op_bytes (pad_or_trim target_bytes) = to_le_bytes 2 4 ++ to_le_bytes 8 target_bytes
op_bytes (dtype_cast from to scale_id) =
    to_le_bytes 2 5
    ++ (to_le_bytes 2 (cast_dtype_wire from)
        ++ (to_le_bytes 2 (cast_dtype_wire to) ++ scale_bytes scale_id))
op_bytes (rope_permute direction head_dim) =
    to_le_bytes 2 6 ++ (to_le_bytes 2 (rope_direction_wire direction) ++ to_le_bytes 4 head_dim)

abbrev pub ops_bytes : List RepackOp → List ℕ
ops_bytes [] = []
ops_bytes (op ∷ ops) = op_bytes op ++ ops_bytes ops

-- The ranges of the Rust types: `u32` indices and head dims, a `u64` target, 32-byte identities.
abbrev pub IsU32 : ℕ → Type 0
IsU32 v = v < 0x1_0000_0000

abbrev pub IsId : List ℕ → Type 0
IsId v = (length v ≡ 32) × All IsByte v

abbrev pub IsTypedOp : RepackOp → Type 0
IsTypedOp (permute_head_pairs order) = All IsU32 order
IsTypedOp (reorder_planes order) = All IsU32 order
IsTypedOp (regroup_layers order) = All IsU32 order
IsTypedOp (pad_or_trim target_bytes) = target_bytes ≤ max_u64
IsTypedOp (dtype_cast from to none) = Unit
IsTypedOp (dtype_cast from to (some scale)) = IsId scale
IsTypedOp (rope_permute direction head_dim) = IsU32 head_dim

encode_indices-append : (order out : List ℕ) → encode_indices order out ≡ out ++ index_bytes order
unfolding encode_indices
encode_indices-append [] out = sym (append-nil out)
encode_indices-append (index ∷ order) out =
    encode_indices-append order (out ++ to_le_bytes 4 index)
    ∙ append_assoc out (to_le_bytes 4 index) (index_bytes order)

encode_permutation-append :
    (tag : ℕ) (order out : List ℕ)
    → encode_permutation tag order out ≡ out ++ permutation_bytes tag order
unfolding encode_permutation
encode_permutation-append tag order out = encode_indices-append order _ ∙ simp append_assoc

pub encode_op-append : (op : RepackOp) (out : List ℕ) → encode_op op out ≡ out ++ op_bytes op
unfolding encode_op
encode_op-append (permute_head_pairs order) out = encode_permutation-append 1 order out
encode_op-append (reorder_planes order) out = encode_permutation-append 2 order out
encode_op-append (regroup_layers order) out = encode_permutation-append 3 order out
encode_op-append (pad_or_trim target_bytes) out = simp append_assoc
encode_op-append (dtype_cast from to none) out = simp append_assoc
encode_op-append (dtype_cast from to (some scale)) out = simp append_assoc
encode_op-append (rope_permute direction head_dim) out = simp append_assoc

pub encode_ops-append :
    (ops : List RepackOp) (out : List ℕ) → encode_ops ops out ≡ out ++ ops_bytes ops
unfolding encode_ops
encode_ops-append [] out = sym (append-nil out)
encode_ops-append (op ∷ ops) out =
    encode_ops-append ops (encode_op op out)
    ∙ ap (λ t. t ++ ops_bytes ops) (encode_op-append op out)
    ∙ append_assoc out (op_bytes op) (ops_bytes ops)
