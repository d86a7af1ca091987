-- ===== src/Core/Transform/OpWire/Inverts.antt =====
-- The bytes that `decode_op` accepts are those that `encode_op` appends for its result.
use kvpack.Base.{ℕ, zero, suc, ◌%◌, ◌≡◌, refl, sym, ap, ◌∙◌, List, [], ◌∷◌, ◌++◌, arith}
use kvpack.Base.{Option, none, some, length, All, append-nil, ok, Result, err}
use kvpack.Base.{true, ◌&&◌, ◌==◌, bytes_eq, eq_of_bytes_eq, Bool-cases, ==_iff, inl, inr}
use kvpack.Base.Bytes.{to_le_bytes}
use kvpack.Core.Error.{PackError}
use kvpack.Core.Canonical.Decoder
use kvpack.Core.Canonical.Decoder.{Read, pure, fail, lift, ◌>>=◌}
use kvpack.Core.Canonical.Inverting.{Inverts, pure-Inverts, >>=-Inverts, weaken-Inverts}
use kvpack.Core.Canonical.Inverting.{u8-Inverts, u16-Inverts, u32-Inverts, u64-Inverts, id-Inverts}
use kvpack.Core.Transform.{
  RepackOp, permute_head_pairs, reorder_planes, regroup_layers, pad_or_trim,
}
use kvpack.Core.Transform.{dtype_cast, rope_permute, CastDtype, RopeDirection, zero_id}
use kvpack.Core.Transform.{cast_dtype_wire, cast_dtype_from_wire, rope_direction_wire}
use kvpack.Core.Transform.{rope_direction_from_wire}
use kvpack.Core.Transform.Decode.{decode_indices, decode_permutation, scale_marker, decode_cast}
use kvpack.Core.Transform.Decode.{decode_rope, decode_tagged, decode_op, decode_ops}
use kvpack.Core.Transform.OpWire.{index_bytes, permutation_bytes, scale_bytes, op_bytes, ops_bytes}
use kvpack.Core.Transform.OpWire.{IsU32, IsId, IsTypedOp}

cast_dtype-wire-from_wire :
    (value : ℕ) (t : CastDtype) → cast_dtype_from_wire value ≡ ok t → value ≡ cast_dtype_wire t
unfolding cast_dtype_from_wire cast_dtype_wire
cast_dtype-wire-from_wire value t e = ground arith

rope_direction-wire-from_wire :
    (value : ℕ) (r : RopeDirection)
    → rope_direction_from_wire value ≡ ok r
    → value ≡ rope_direction_wire r
unfolding rope_direction_from_wire rope_direction_wire
rope_direction-wire-from_wire value r e = ground arith

-- A lifted result reads nothing.
lift-Inverts :
    {A : Type 0} (r : Result PackError A) → Inverts (lift r) (λ v bytes. (bytes ≡ []) × (r ≡ ok v))
lift-Inverts (ok v) = pure-Inverts (λ w bytes. (bytes ≡ []) × (ok v ≡ ok w)) v (refl, refl)
lift-Inverts (err x) = λ d d' rest v at_rest plain e. cc

decode_indices-Inverts :
    (width : ℕ)
    → Inverts
        (decode_indices width)
        (λ order bytes. (bytes ≡ index_bytes order) × (length order ≡ width) × All IsU32 order)
unfolding decode_indices
decode_indices-Inverts zero = pure-Inverts _ [] (refl, refl, tt)
decode_indices-Inverts (suc width) = >>=-Inverts Decoder.u32 _ _ _ u32-Inverts (λ index bytes p.
    >>=-Inverts (decode_indices width) _ _ _ (decode_indices-Inverts width) (λ order more q.
      pure-Inverts _ (index ∷ order) (rw (append-nil more, p.0, q.0), ap suc q.1, (p.1, q.2))))

abbrev permutation_body : List ℕ → List ℕ
permutation_body order = to_le_bytes 2 (length order % 0x1_0000) ++ index_bytes order

decode_permutation-Inverts :
    Inverts decode_permutation (λ order bytes. (bytes ≡ permutation_body order) × All IsU32 order)
unfolding decode_permutation
decode_permutation-Inverts = >>=-Inverts Decoder.u16 _ _ _ u16-Inverts (λ width bytes p.
    weaken-Inverts (decode_indices width) _ _ (decode_indices-Inverts width) (λ order more q.
      let same : length order % 0x1_0000 ≡ width = omega (arith, q.1, p.1) in
      (rw (same, p.0, q.0), q.2)))

pub fail-Inverts {ℓ} :
    {A : Type 0} (e : PackError) (P : A → List ℕ → Type ℓ) → Inverts (fail {A = A} e) P
fail-Inverts x P d d' rest v at_rest plain e = cc

abbrev IsTypedScale : Option (List ℕ) → Type 0
IsTypedScale none = Unit
IsTypedScale (some scale) = IsId scale

scale_marker-Inverts :
    (present : ℕ) (id : List ℕ)
    → IsId id
    → Inverts (scale_marker present id) (λ scale_id bytes.
      (bytes ≡ []) × (present ∷ id ≡ scale_bytes scale_id) × IsTypedScale scale_id)
unfolding scale_marker
scale_marker-Inverts present id typed = elim (Bool-cases (present == 0 && bytes_eq id zero_id)) [
  | inl absent ↦
      let zero : present ≡ 0 = ground arith in
      let same : id ≡ zero_id = eq_of_bytes_eq id zero_id (ground arith) in
      rw absent (pure-Inverts _ none (refl, rw (zero, same) refl, tt))
  | inr other ↦ elim (Bool-cases (present == 1)) [
    | inl given ↦
        let one : present ≡ 1 = ground arith in
        rw (other, given) (pure-Inverts _ (some id) (refl, rw one refl, typed))
    | inr bad ↦ rw (other, bad) (fail-Inverts _ _)
  ]
]

IsTypedScale-op :
    (from to : CastDtype) (scale_id : Option (List ℕ))
    → IsTypedScale scale_id
    → IsTypedOp (dtype_cast from to scale_id)
IsTypedScale-op from to none h = h
IsTypedScale-op from to (some scale) h = h

-- An op is read from its bytes, behind the tag.
abbrev Reads : ℕ → RepackOp → List ℕ → Type 0
Reads tag op bytes = (to_le_bytes 2 tag ++ bytes ≡ op_bytes op) × IsTypedOp op

cast_bytes :
    (v w : ℕ) (b₁ b₂ b₃ b₄ b₅ b₆ b₇ : List ℕ) (from to : CastDtype) (present : ℕ) (id : List ℕ)
    (scale_id : Option (List ℕ))
    → b₁ ≡ to_le_bytes 2 v
    → (b₂ ≡ []) × (cast_dtype_from_wire v ≡ ok from)
    → b₃ ≡ to_le_bytes 2 w
    → (b₄ ≡ []) × (cast_dtype_from_wire w ≡ ok to)
    → b₅ ≡ present ∷ []
    → b₆ ≡ id
    → (b₇ ≡ []) × (present ∷ id ≡ scale_bytes scale_id) × IsTypedScale scale_id
    → to_le_bytes 2 5 ++ (b₁ ++ (b₂ ++ (b₃ ++ (b₄ ++ (b₅ ++ (b₆ ++ (b₇ ++ [])))))))
      ≡ op_bytes (dtype_cast from to scale_id)
cast_bytes v w b₁ b₂ b₃ b₄ b₅ b₆ b₇ from to present id scale_id p₁ p₂ p₃ p₄ p₅ p₆ p₇ =
    let left = cast_dtype-wire-from_wire v from p₂.1 in
    let right = cast_dtype-wire-from_wire w to p₄.1 in
    rw (p₁, p₂.0, p₃, p₄.0, p₅, p₆, p₇.0, append-nil id, p₇.1, left, right) refl

decode_cast-Inverts : Inverts decode_cast (Reads 5)
unfolding decode_cast
decode_cast-Inverts = >>=-Inverts Decoder.u16 _ _ _ u16-Inverts (λ v bytes₁ p₁.
    >>=-Inverts (lift (cast_dtype_from_wire v)) _ _ _ (lift-Inverts (cast_dtype_from_wire v))
      (λ from bytes₂ p₂. >>=-Inverts Decoder.u16 _ _ _ u16-Inverts (λ w bytes₃ p₃.
        >>=-Inverts (lift (cast_dtype_from_wire w)) _ _ _ (lift-Inverts (cast_dtype_from_wire w))
          (λ to bytes₄ p₄. >>=-Inverts Decoder.u8 _ _ _ u8-Inverts (λ present bytes₅ p₅.
            >>=-Inverts Decoder.id _ _ _ id-Inverts (λ id bytes₆ p₆.
              >>=-Inverts (scale_marker present id) _ _ _
                (scale_marker-Inverts present id (p₆.1, p₆.2))
                (λ scale_id bytes₇ p₇. pure-Inverts _ (dtype_cast from to scale_id) (
                  cast_bytes v w bytes₁ bytes₂ bytes₃ bytes₄ bytes₅ bytes₆ bytes₇ from to present id
                      scale_id p₁.0 p₂ p₃.0 p₄ p₅.0 p₆.0 p₇,
                  IsTypedScale-op from to scale_id p₇.2,
                ))))))))

decode_rope-Inverts : Inverts decode_rope (Reads 6)
unfolding decode_rope
decode_rope-Inverts = >>=-Inverts Decoder.u16 _ _ _ u16-Inverts (λ v bytes₁ p₁.
    >>=-Inverts (lift (rope_direction_from_wire v)) _ _ _
      (lift-Inverts (rope_direction_from_wire v))
      (λ direction bytes₂ p₂. >>=-Inverts Decoder.u32 _ _ _ u32-Inverts (λ head_dim bytes₃ p₃.
        pure-Inverts _ (rope_permute direction head_dim) (
          rw (append-nil bytes₃, p₂.0, p₃.0, p₁.0, rope_direction-wire-from_wire v direction p₂.1)
              refl,
          p₃.1,
        ))))

-- A permutation op, for each of the three tags.
permutation-Inverts :
    (tag : ℕ) (make : List ℕ → RepackOp)
    → ((order : List ℕ) → op_bytes (make order) ≡ permutation_bytes tag order)
    → ((order : List ℕ) → All IsU32 order → IsTypedOp (make order))
    → Inverts (decode_permutation >>= λ order. pure (make order)) (Reads tag)
permutation-Inverts tag make e typed =
    >>=-Inverts decode_permutation _ _ _ decode_permutation-Inverts (λ order bytes p.
      pure-Inverts _ (make order)
        (ap (◌++◌ (to_le_bytes 2 tag)) (append-nil bytes ∙ p.0) ∙ sym (e order), typed order p.1))

at_tag :
    (tag k : ℕ) (m : Read RepackOp)
    → (tag == k) ≡ true
    → Inverts m (Reads k)
    → Inverts m (Reads tag)
at_tag tag k m e inv =
    let same : tag ≡ k = (==_iff tag k).0 e in
    weaken-Inverts m (Reads k) (Reads tag) inv (λ op bytes p. rw same p)

target-Inverts : Inverts (Decoder.u64 >>= λ n. pure (pad_or_trim n)) (Reads 4)
target-Inverts = >>=-Inverts Decoder.u64 _ _ _ u64-Inverts (λ n bytes p.
    pure-Inverts _ (pad_or_trim n) (rw (append-nil bytes, p.0) refl, omega (arith, p.1)))

decode_tagged-Inverts : (tag : ℕ) → Inverts (decode_tagged tag) (Reads tag)
unfolding decode_tagged
decode_tagged-Inverts tag = elim (Bool-cases (tag == 1)) [
  | inl e₁ ↦
      rw e₁ (at_tag tag 1 _ e₁ (permutation-Inverts 1 permute_head_pairs (λ o. refl) (λ o h. h)))
  | inr n₁ ↦ elim (Bool-cases (tag == 2)) [
    | inl e₂ ↦
        rw (n₁, e₂)
          (at_tag tag 2 _ e₂ (permutation-Inverts 2 reorder_planes (λ o. refl) (λ o h. h)))
    | inr n₂ ↦ elim (Bool-cases (tag == 3)) [
      | inl e₃ ↦
          rw (n₁, n₂, e₃)
            (at_tag tag 3 _ e₃ (permutation-Inverts 3 regroup_layers (λ o. refl) (λ o h. h)))
      | inr n₃ ↦ elim (Bool-cases (tag == 4)) [
        | inl e₄ ↦ rw (n₁, n₂, n₃, e₄) (at_tag tag 4 _ e₄ target-Inverts)
        | inr n₄ ↦ elim (Bool-cases (tag == 5)) [
          | inl e₅ ↦ rw (n₁, n₂, n₃, n₄, e₅) (at_tag tag 5 _ e₅ decode_cast-Inverts)
          | inr n₅ ↦ elim (Bool-cases (tag == 6)) [
            | inl e₆ ↦ rw (n₁, n₂, n₃, n₄, n₅, e₆) (at_tag tag 6 _ e₆ decode_rope-Inverts)
            | inr n₆ ↦ rw (n₁, n₂, n₃, n₄, n₅, n₆) (fail-Inverts _ _)
          ]
        ]
      ]
    ]
  ]
]

pub decode_op-Inverts : Inverts decode_op (λ op bytes. (bytes ≡ op_bytes op) × IsTypedOp op)
unfolding decode_op
decode_op-Inverts = >>=-Inverts Decoder.u16 _ _ _ u16-Inverts (λ tag bytes p.
    weaken-Inverts (decode_tagged tag) _ _ (decode_tagged-Inverts tag)
      (λ op more q. (ap (λ t. t ++ more) p.0 ∙ q.0, q.1)))

pub decode_ops-Inverts :
    (count : ℕ)
    → Inverts
        (decode_ops count)
        (λ ops bytes. (bytes ≡ ops_bytes ops) × (length ops ≡ count) × All IsTypedOp ops)
unfolding decode_ops
decode_ops-Inverts zero = pure-Inverts _ [] (refl, refl, tt)
decode_ops-Inverts (suc count) = >>=-Inverts decode_op _ _ _ decode_op-Inverts (λ op bytes p.
    >>=-Inverts (decode_ops count) _ _ _ (decode_ops-Inverts count) (λ ops more q.
      pure-Inverts _ (op ∷ ops) (rw (append-nil more, p.0, q.0), ap suc q.1, (p.1, q.2))))
