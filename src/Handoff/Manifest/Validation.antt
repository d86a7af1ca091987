-- ===== src/Handoff/Manifest/Validation.antt =====
-- crates/kvpack-handoff/src/manifest/validation.rs: which BEGIN manifests are accepted.
use kvpack.Base.{ℕ, ◌*◌, ◌/◌, List, [], ◌∷◌, Option, none, some}
use kvpack.Base.{Bool, true, false, not, ◌&&◌, ◌||◌, ltb, leb, ◌==◌, if◌then◌else◌, ascii}
use kvpack.Base.{bytes_eq, Result, ok, ◌>>=◌, ◌>>◌, fail_if, saturating_add}
use kvpack.Handoff.{HandoffError, validation, text}
use kvpack.Handoff.Manifest.{
  BeginManifest, ValidationLimits, live_handoff_schema_v1, live_handoff_protocol_v1,
  portable_kv_abi_v1, portable_kv_abi_v2, portable_kv_abi_v2_prerope, wire_schedule_layer_order,
  wire_schedule_decode_priority,
}
use kvpack.Handoff.Manifest.Layout.{
  checked_mul, checked_add, and_then, ok_or, is_v2, payload_overflow, v2_frame_counts,
}
use kvpack.Handoff.Manifest.Table.{all, valid_label, valid_sha256, validate_layout_table}

unfoldable pub checked_payload_bytes : BeginManifest → Result HandoffError ℕ
checked_payload_bytes begin =
    let two = checked_mul begin.geometry.num_layers 2 in
    let tokens = and_then two (λ v. checked_mul v begin.cached_token_count) in
    let heads = and_then tokens (λ v. checked_mul v begin.geometry.num_kv_heads) in
    let dims = and_then heads (λ v. checked_mul v begin.geometry.head_dim) in
    ok_or (and_then dims (λ v. checked_mul v 2)) payload_overflow

unfoldable pub validate_schedule : BeginManifest → Result HandoffError (Unit {0})
validate_schedule begin = elim begin.schedule [
  | none ↦ ok tt
  | some schedule ↦
      fail_if
        (not (bytes_eq schedule wire_schedule_layer_order)
          && not (bytes_eq schedule wire_schedule_decode_priority))
        (validation (text "layout table declares an unknown wire schedule"))
]

unfoldable pub geometry_bounds : HandoffError
geometry_bounds = validation (text "geometry or cached-token count is outside configured bounds")

unfoldable pub abi_ok : BeginManifest → Bool
abi_ok begin =
    if is_v2 begin
    then bytes_eq begin.portable_abi portable_kv_abi_v2
      || bytes_eq begin.portable_abi portable_kv_abi_v2_prerope
    else bytes_eq begin.portable_abi portable_kv_abi_v1

unfoldable pub is_some : {A : Type 0} → Option A → Bool
is_some none = false
is_some (some a) = true

unfoldable pub expected_counts : BeginManifest → ValidationLimits → Result HandoffError (ℕ × ℕ)
expected_counts begin limits =
    if is_v2 begin
    then (do validate_layout_table begin limits; validate_schedule begin; v2_frame_counts begin)
    else (do
      fail_if (is_some begin.schedule)
          (validation (text "wire schedule requires a v2 layout table"))
      fail_if (begin.geometry.num_kv_heads == 0 || begin.geometry.head_dim == 0) geometry_bounds
      fail_if (ltb 0xffff_ffff (begin.geometry.num_layers * 2))
          (validation (text "layer-frame count overflow"))
      bytes ← checked_payload_bytes begin
      ok (begin.geometry.num_layers * 2, bytes))

unfoldable pub weights_ok : List ℕ → Bool
weights_ok weights =
    bytes_eq weights (ascii "q4_k_m")
    || bytes_eq weights (ascii "q4_k_xl")
    || bytes_eq weights (ascii "nvfp4")
    || bytes_eq weights (ascii "mxfp4")
    || bytes_eq weights (ascii "bf16")

unfoldable pub identity_ok : BeginManifest → Bool
identity_ok begin =
    let endpoints = begin.endpoints in
    let identity = begin.identity in
    let labels =
      endpoints.consumer_engine_abi ∷ endpoints.consumer_node ∷ endpoints.producer_engine_abi
      ∷ endpoints.producer_node ∷ endpoints.trust_domain ∷ identity.model_revision
      ∷ identity.tokenizer_revision ∷ [] in
    let digests =
      begin.transfer_id ∷ begin.token_ids_sha256 ∷ identity.adapter_sha256
      ∷ identity.chat_template_sha256 ∷ identity.context_policy_sha256 ∷ identity.model_sha256
      ∷ identity.tokenizer_sha256 ∷ [] in
    all (λ label. valid_label label 256) labels
    && all valid_sha256 digests
    && elim begin.hmac_key_id [ none ↦ true | some id ↦ valid_label id 64 ]

unfoldable pub validate_lifetime : BeginManifest → ValidationLimits → Result HandoffError (Unit {0})
validate_lifetime begin limits =
    let latest_created = saturating_add limits.now_unix_ms limits.max_clock_skew_ms in
    do
      latest_deadline ←
          ok_or (checked_add begin.created_unix_ms limits.max_session_ms)
            (validation (text "session deadline overflow"))
      fail_if
          (begin.created_unix_ms == 0
            || ltb latest_created begin.created_unix_ms
            || leb begin.deadline_unix_ms begin.created_unix_ms
            || ltb latest_deadline begin.deadline_unix_ms
            || ltb begin.deadline_unix_ms limits.now_unix_ms)
          (validation (text "handoff creation/deadline is invalid or expired"))

unfoldable pub validate : BeginManifest → ValidationLimits → Result HandoffError (Unit {0})
validate begin limits = do
  fail_if
      (not (begin.schema_version == live_handoff_schema_v1)
        || not (bytes_eq begin.protocol live_handoff_protocol_v1)
        || not (abi_ok begin))
      (validation (text "unsupported live handoff schema, protocol, ABI, or strategy"))
  fail_if
      (begin.cached_token_count == 0
        || ltb limits.max_cached_tokens begin.cached_token_count
        || ltb limits.max_context_tokens begin.geometry.max_context_tokens
        || leb begin.geometry.max_context_tokens begin.cached_token_count
        || begin.geometry.num_layers == 0
        || ltb limits.max_layers begin.geometry.num_layers)
      geometry_bounds
  (frames, bytes) ← expected_counts begin limits
  fail_if
      (not (begin.expected_layer_frames == frames)
        || not (begin.expected_payload_bytes == bytes)
        || ltb limits.max_total_bytes bytes
        || ltb limits.max_frame_bytes (bytes / frames))
      (validation (text "declared frame or payload bounds do not match geometry"))
  fail_if
      (not (bytes_eq begin.precision.compute (ascii "float16"))
        || not (bytes_eq begin.precision.kv (ascii "float16"))
        || not (weights_ok begin.precision.weights))
      (validation (
        text
          "v1 requires q4_k_m, q4_k_xl, nvfp4, mxfp4, or bf16 weights with float16 compute and KV"))
  fail_if (not (identity_ok begin))
      (validation (text "identity contains an invalid label or SHA-256"))
  validate_lifetime begin limits

unfoldable pub expected_plane_bytes : BeginManifest → Result HandoffError ℕ
expected_plane_bytes begin = do
  bytes ← checked_payload_bytes begin
  ok (bytes / begin.expected_layer_frames)
