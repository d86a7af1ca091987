-- ===== src/Handoff/Verify.antt =====
-- crates/kvpack-handoff/src/verify.rs: the incremental verifier of one BEGIN, planes, SEAL stream. A
-- method of `&mut self` returns the new verifier with its result; every `?` of the source stands
-- before its first assignment, so an error carries no state. A rolling hash is the bytes fed to it.
pub mod Stream
pub mod Fed
pub mod Seal
use kvpack.Base.{
  ℕ, ◌+◌, ◌++◌, List, [], ◌∷◌, Option, none, some, Bool, true, false, not, ◌&&◌, ◌||◌,
}
use kvpack.Base.{ltb, ◌==◌, if◌then◌else◌, min, length, get_elem?, ascii, bytes_eq, saturating_add}
use kvpack.Base.{Result, ok, err, ◌>>=◌, ◌>>◌, fail_if}
use kvpack.Handoff.{HandoffError, validation, text, numbered}
use kvpack.Handoff.External.{External}
use kvpack.Handoff.Mac.{MacKey}
use kvpack.Handoff.Manifest.{
  BeginManifest, LayerHeader, SealManifest, TensorRole, key, value, is_key, ValidationLimits,
}
use kvpack.Handoff.Manifest.Layout.{
  is_v2, is_prerope_v2, layout_walk_v2, expected_from_walk_entry, checked_add, and_then, ok_or,
}
use kvpack.Handoff.Manifest.Table.{validate_prerope_key_plane_finite}
use kvpack.Handoff.Manifest.Validation as Begin
use kvpack.Handoff.Manifest.Headers.{
  validate_for, validate_for_v2_expected, sha256_hex, descriptor_prefix, artifact_prefix,
  descriptor_chain_sha256, artifact_sha256, seal_validate_for, authenticate_hmac,
}

pub record VerifiedPlane : Type 0 where
  pub header : LayerHeader
  pub bytes : List ℕ

pub record VerifiedLayerPair : Type 0 where
  pub layer : ℕ
  pub key_plane : VerifiedPlane
  pub value_plane : Option VerifiedPlane

-- `VerifiedLayerPairV1::new`.
unfoldable pub new_pair : VerifiedPlane → VerifiedPlane → Result HandoffError VerifiedLayerPair
new_pair k v = do
  fail_if
      (not (k.header.layer == v.header.layer)
        || not (is_key k.header.role)
        || is_key v.header.role
        || not (v.header.sequence == min (k.header.sequence + 1) 0xffff_ffff))
      (validation (text "verified layer pair is not one adjacent K-then-V pair"))
  ok (record { layer = k.header.layer; key_plane = k; value_plane = some v })

-- `VerifiedLayerPairV1::new_single`.
unfoldable pub new_single : VerifiedPlane → Result HandoffError VerifiedLayerPair
new_single k = do
  fail_if (not (is_key k.header.role))
      (validation (text "verified single-role layer is not a key-role plane"))
  ok (record { layer = k.header.layer; key_plane = k; value_plane = none })

unfoldable pub canonical_bytes : VerifiedLayerPair → ℕ
canonical_bytes pair = elim pair.value_plane [
  | none ↦ pair.key_plane.header.byte_length
  | some v ↦ saturating_add pair.key_plane.header.byte_length v.header.byte_length
]

pub record VerifiedSeal : Type 0 where
  pub seal : SealManifest
  pub transfer_id : List ℕ
  pub descriptor_chain_sha256 : List ℕ
  pub payload_sha256 : List ℕ

pub record IncrementalVerifier : Type 0 where
  pub begin : BeginManifest
  pub limits : ValidationLimits
  pub layout_walk : Option (List (ℕ × ℕ × TensorRole))
  pub headers : List LayerHeader
  pub payload_bytes : ℕ
  pub payload_hash : List ℕ
  pub descriptor_hash : List ℕ
  pub artifact_prefix_hash : List ℕ
  pub sealed : Bool

unfoldable pub next_sequence : IncrementalVerifier → ℕ
next_sequence v = min (length v.headers) 0xffff_ffff

unfoldable pub outside_table : ℕ → HandoffError
outside_table sequence =
    validation (numbered "layer frame is outside the declared layout table" sequence)

unfoldable pub expected_layer_at : IncrementalVerifier → ℕ → Result HandoffError ℕ
expected_layer_at v sequence = elim v.layout_walk [
  | none ↦ err (validation (text "a v1 begin declares no layout walk"))
  | some walk ↦ elim (get_elem? walk sequence) [
    | none ↦ err (outside_table sequence)
    | some entry ↦ ok entry.1
  ]
]

unfoldable pub is_single_role_frame : IncrementalVerifier → ℕ → Bool
is_single_role_frame v sequence = elim v.layout_walk [
  | none ↦ false
  | some walk ↦ elim (get_elem? walk sequence) [
    | none ↦ false
    | some entry ↦ elim (get_elem? v.begin.layout_table entry.0) [
      | none ↦ false
      | some c ↦ length c.roles == 1
    ]
  ]
]

-- The contract of the plane that is due: the precomputed walk of a v2 begin, or the v1 order.
unfoldable pub check_next : IncrementalVerifier → LayerHeader → Result HandoffError (Unit {0})
check_next v header =
    let sequence = next_sequence v in
    elim v.layout_walk [
      | some walk ↦ do
        expected ←
            ok_or (and_then (get_elem? walk sequence) (expected_from_walk_entry v.begin))
              (outside_table sequence)
        validate_for_v2_expected header v.begin sequence expected
      | none ↦ validate_for header v.begin sequence
    ]

unfoldable pub validate_next_header :
    IncrementalVerifier → LayerHeader → Result HandoffError (Unit {0})
validate_next_header v header = do
  fail_if v.sealed (validation (text "cannot validate a layer header after the terminal seal"))
  check_next v header
  fail_if (ltb v.limits.max_frame_bytes header.byte_length)
      (validation (text "layer descriptor exceeds the configured frame bound"))

unfoldable pub values_ok : BeginManifest → LayerHeader → List ℕ → Result HandoffError (Unit {0})
values_ok begin header payload =
    if is_prerope_v2 begin && is_key header.role
    then validate_prerope_key_plane_finite payload
    else ok tt

module _ (ext : External) where
  unfoldable pub new : BeginManifest → ValidationLimits → Result HandoffError IncrementalVerifier
  new begin limits = do
    Begin.validate begin limits
    json ← ext.json_begin begin
    ok (record {
      begin = begin;
      limits = limits;
      layout_walk = if is_v2 begin then some (layout_walk_v2 begin) else none;
      headers = [];
      payload_bytes = 0;
      payload_hash = [];
      descriptor_hash = descriptor_prefix ext;
      artifact_prefix_hash = artifact_prefix ext ++ json ++ (10 ∷ []);
      sealed = false;
    })

  unfoldable pub verify_plane :
      IncrementalVerifier
      → LayerHeader
      → List ℕ
      → Result HandoffError (VerifiedPlane × IncrementalVerifier)
  verify_plane v header payload =
      let sequence = length v.headers in
      do
        fail_if v.sealed (validation (text "cannot verify a layer plane after the terminal seal"))
        fail_if (ltb 0xffff_ffff sequence) (validation (text "layer sequence exceeds u32"))
        validate_next_header v header
        fail_if
            (ltb v.limits.max_frame_bytes header.byte_length
              || not (length payload == header.byte_length)
              || not (bytes_eq (sha256_hex ext payload) header.sha256))
            (validation (numbered "layer frame length or SHA-256 mismatch" sequence))
        values_ok v.begin header payload
        total ←
            ok_or (checked_add v.payload_bytes header.byte_length)
              (validation (text "payload byte count overflow"))
        fail_if (ltb v.limits.max_total_bytes total || ltb v.begin.expected_payload_bytes total)
            (validation (text "received payload exceeds its declared or configured total bound"))
        json ← ext.json_header header
        ok (
          record { header = header; bytes = payload },
          record v {
            headers = v.headers ++ (header ∷ []);
            payload_bytes = total;
            payload_hash = v.payload_hash ++ payload;
            descriptor_hash = v.descriptor_hash ++ json ++ (10 ∷ []);
            artifact_prefix_hash = v.artifact_prefix_hash ++ json ++ (10 ∷ []);
          },
        )

  unfoldable pub verify_seal :
      IncrementalVerifier → SealManifest → Result HandoffError (VerifiedSeal × IncrementalVerifier)
  verify_seal v seal =
      let payload_sha256 = sha256_hex ext v.payload_hash in
      let descriptor_sha256 = sha256_hex ext v.descriptor_hash in
      do
        fail_if v.sealed (validation (text "terminal seal was already verified"))
        chain ← descriptor_chain_sha256 ext v.headers
        fail_if (not (bytes_eq descriptor_sha256 chain))
            (validation (text "incremental descriptor chain disagrees with compatibility verifier"))
        seal_validate_for ext seal v.begin v.headers v.payload_bytes payload_sha256
        core_json ← ext.json_core seal.core
        let incremental = sha256_hex ext (v.artifact_prefix_hash ++ core_json) in
            do
              fail_if (not (bytes_eq incremental seal.artifact_sha256)) disagrees
              artifact ← artifact_sha256 ext v.begin v.headers seal.core
              fail_if (not (bytes_eq incremental artifact)) disagrees
              ok (
                record {
                  seal = seal;
                  transfer_id = v.begin.transfer_id;
                  descriptor_chain_sha256 = descriptor_sha256;
                  payload_sha256 = payload_sha256;
                },
                record v { sealed = true },
              )
    where
      disagrees : HandoffError
      disagrees = validation (text "incremental artifact identity disagrees with terminal seal")

  unfoldable pub authenticate_seal_hmac :
      IncrementalVerifier → VerifiedSeal → MacKey → Result HandoffError (Unit {0})
  authenticate_seal_hmac v verified mac = authenticate_hmac ext verified.seal v.begin v.headers mac
