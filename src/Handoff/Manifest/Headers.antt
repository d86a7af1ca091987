-- ===== src/Handoff/Manifest/Headers.antt =====
-- crates/kvpack-handoff/src/manifest/validation.rs: which layer headers are accepted, the digests
-- over a stream, and which terminal seals are accepted.
use kvpack.Base.{
  ℕ, min, ◌+◌, ◌-◌, ◌/◌, ◌%◌, ◌++◌, List, [], ◌∷◌, Option, none, some, Bool, true, false, not,
}
use kvpack.Base.{◌&&◌, ◌||◌, ltb, leb, ◌==◌, if◌then◌else◌, length, ascii, bytes_eq}
use kvpack.Base.{Result, ok, err, ◌>>=◌, ◌>>◌, fail_if}
use kvpack.Base.Bytes.{to_le_bytes}
use kvpack.Handoff.{HandoffError, validation, text, numbered}
use kvpack.Handoff.External.{External}
use kvpack.Handoff.Mac.{MacKey, tag_hex, verify_hex}
use kvpack.Handoff.Manifest.{
  BeginManifest, LayerHeader, SealCore, SealManifest, CanaryRecord, key, value, same_role,
  live_handoff_schema_v1, live_handoff_protocol_v1,
}
use kvpack.Handoff.Manifest.Layout.{
  ExpectedPlane, is_v2, is_prerope_v2, plane_bytes, plane_element_bytes_v2, expected_plane_dtype_v2,
  expected_plane_at, ok_or,
}
use kvpack.Handoff.Manifest.Table.{valid_sha256}
use kvpack.Handoff.Manifest.Validation.{expected_plane_bytes, is_some}

unfoldable pub same_shape : ℕ × ℕ × ℕ → ℕ × ℕ × ℕ → Bool
same_shape (a, b, c) (a', b', c') = a == a' && b == b' && c == c'

unfoldable pub off_contract : ℕ → HandoffError
off_contract sequence =
    validation
      (numbered "layer frame does not match the ordered canonical tensor contract" sequence)

unfoldable pub off_table : ℕ → HandoffError
off_table sequence =
    validation (numbered "layer frame does not match the v2 layout-table contract" sequence)

unfoldable pub validate_for_v2_expected :
    LayerHeader → BeginManifest → ℕ → ExpectedPlane → Result HandoffError (Unit {0})
validate_for_v2_expected header begin next_sequence expected =
    let range_len = header.logical_token_end - header.logical_token_start in
    let c = expected.class in
    let expected_dtype = expected_plane_dtype_v2 begin c expected.role in
    let dtype_ok : Bool = elim header.dtype [
      | some tag ↦ bytes_eq tag expected_dtype
      | none ↦ bytes_eq expected_dtype (ascii "float16")
    ] in
    let class_ok : Bool = elim header.layout_class [
      | some name ↦ bytes_eq name c.class
      | none ↦ false
    ] in
    do
      fail_if (ltb header.logical_token_end header.logical_token_start)
          (validation (numbered "layer frame has an inverted token range" next_sequence))
      expected_bytes ←
          ok_or (plane_bytes range_len c (plane_element_bytes_v2 begin expected.role))
            (validation (numbered "layer frame byte bound overflow" next_sequence))
      fail_if
          (not (header.schema_version == live_handoff_schema_v1)
            || not (bytes_eq header.transfer_id begin.transfer_id)
            || not (header.sequence == next_sequence)
            || not (header.layer == expected.layer)
            || not (same_role header.role expected.role)
            || not class_ok
            || not (header.logical_token_start == expected.range_start)
            || not (header.logical_token_end == expected.range_end)
            || not (same_shape header.shape (range_len, c.kv_heads, c.head_dim))
            || not (header.byte_length == expected_bytes)
            || not dtype_ok
            || not (valid_sha256 header.sha256))
          (off_table next_sequence)

unfoldable pub validate_for_v2 : LayerHeader → BeginManifest → ℕ → Result HandoffError (Unit {0})
validate_for_v2 header begin next_sequence = do
  expected ← expected_plane_at begin next_sequence
  validate_for_v2_expected header begin next_sequence expected

unfoldable pub validate_for_v1 : LayerHeader → BeginManifest → ℕ → Result HandoffError (Unit {0})
validate_for_v1 header begin next_sequence =
    let expected_role = if next_sequence % 2 == 0 then key else value in
    let shape : ℕ × ℕ × ℕ =
      (begin.cached_token_count, begin.geometry.num_kv_heads, begin.geometry.head_dim) in
    do
      fail_if
          (not (header.schema_version == live_handoff_schema_v1)
            || not (bytes_eq header.transfer_id begin.transfer_id)
            || not (header.sequence == next_sequence)
            || not (header.layer == next_sequence / 2)
            || not (same_role header.role expected_role)
            || not (header.logical_token_start == 0)
            || not (header.logical_token_end == begin.cached_token_count)
            || not (same_shape header.shape shape))
          (off_contract next_sequence)
      plane ← expected_plane_bytes begin
      fail_if
          (not (header.byte_length == plane)
            || not (valid_sha256 header.sha256)
            || is_some header.dtype
            || is_some header.layout_class)
          (off_contract next_sequence)

unfoldable pub validate_for : LayerHeader → BeginManifest → ℕ → Result HandoffError (Unit {0})
validate_for header begin next_sequence =
    if is_v2 begin
    then validate_for_v2 header begin next_sequence
    else validate_for_v1 header begin next_sequence

-- The window of the canary lies in the cached tokens, and its digests are well formed.
unfoldable pub canary_ok : BeginManifest → Option CanaryRecord → Bool
canary_ok begin none = not (is_prerope_v2 begin)
canary_ok begin (some canary) =
    is_prerope_v2 begin
    && ltb 0 canary.sample_token_count
    && leb (min (canary.sample_token_start + canary.sample_token_count) 0xffff_ffff)
        begin.cached_token_count
    && valid_sha256 canary.post_rope_k_sha256
    && valid_sha256 canary.post_rope_v_sha256

unfoldable pub hmac_shape_ok : Option (List ℕ) → Option (List ℕ) → Bool
hmac_shape_ok (some id) (some tag) = valid_sha256 tag
hmac_shape_ok (some id) none = false
hmac_shape_ok none none = true
hmac_shape_ok none (some tag) = false

module _ (ext : External) where
  -- `hex::encode(hash.finalize())` of a hash that was fed `bytes`.
  unfoldable pub sha256_hex : List ℕ → List ℕ
  sha256_hex bytes = ext.hex_encode (ext.sha256 bytes)

  unfoldable pub token_bytes : List ℕ → List ℕ
  token_bytes [] = []
  token_bytes (token ∷ tokens) = to_le_bytes 4 token ++ token_bytes tokens

  unfoldable pub token_ids_sha256 : List ℕ → List ℕ
  token_ids_sha256 tokens =
      sha256_hex (ascii "kvpack-live-token-ids-v1" ++ (0 ∷ []) ++ token_bytes tokens)

  -- The headers as JSON, each followed by a line feed.
  unfoldable pub header_lines : List LayerHeader → Result HandoffError (List ℕ)
  header_lines [] = ok []
  header_lines (header ∷ headers) = do
    json ← ext.json_header header
    rest ← header_lines headers
    ok (json ++ (10 ∷ []) ++ rest)

  unfoldable pub descriptor_prefix : List ℕ
  descriptor_prefix = ascii "kvpack-live-descriptor-chain-v1" ++ (0 ∷ [])

  unfoldable pub descriptor_chain_sha256 : List LayerHeader → Result HandoffError (List ℕ)
  descriptor_chain_sha256 headers = do
    lines ← header_lines headers
    ok (sha256_hex (descriptor_prefix ++ lines))

  -- The stream of BEGIN, headers and core under a domain's prefix.
  unfoldable pub artifact_stream :
      List ℕ → BeginManifest → List LayerHeader → SealCore → Result HandoffError (List ℕ)
  artifact_stream prefix begin headers core = do
    json ← ext.json_begin begin
    lines ← header_lines headers
    last ← ext.json_core core
    ok (prefix ++ json ++ (10 ∷ []) ++ lines ++ last)

  unfoldable pub artifact_prefix : List ℕ
  artifact_prefix = ascii "kvpack-live-artifact-v1" ++ (0 ∷ [])

  unfoldable pub artifact_sha256 :
      BeginManifest → List LayerHeader → SealCore → Result HandoffError (List ℕ)
  artifact_sha256 begin headers core = do
    stream ← artifact_stream artifact_prefix begin headers core
    ok (sha256_hex stream)

  unfoldable pub artifact_mac_stream :
      BeginManifest → List LayerHeader → SealCore → Result HandoffError (List ℕ)
  artifact_mac_stream = artifact_stream (ascii "kvpack-live-artifact-mac-v1" ++ (0 ∷ []))

  unfoldable pub artifact_hmac_sha256 :
      BeginManifest → List LayerHeader → SealCore → MacKey → Result HandoffError (List ℕ)
  artifact_hmac_sha256 begin headers core mac = do
    stream ← artifact_mac_stream begin headers core
    ok (tag_hex ext mac stream)

  unfoldable pub unsealed : HandoffError
  unsealed = validation (text "terminal seal does not authenticate the complete ordered handoff")

  -- The fields of the core against BEGIN and the counts of the stream.
  unfoldable pub differs_in_counts : SealCore → BeginManifest → List LayerHeader → ℕ → List ℕ → Bool
  differs_in_counts core begin headers payload_bytes payload_sha256 =
      not (core.schema_version == live_handoff_schema_v1)
      || not (bytes_eq core.protocol live_handoff_protocol_v1)
      || not (bytes_eq core.transfer_id begin.transfer_id)
      || not (core.frame_count == begin.expected_layer_frames)
      || not (core.frame_count == length headers)
      || not (core.payload_bytes == begin.expected_payload_bytes)
      || not (core.payload_bytes == payload_bytes)
      || not (bytes_eq core.payload_sha256 payload_sha256)

  -- The chain of descriptors, the tokens and the time of completion.
  unfoldable pub differs_in_chain : SealCore → BeginManifest → List ℕ → Bool
  differs_in_chain core begin chain =
      not (bytes_eq core.descriptor_chain_sha256 chain)
      || not (bytes_eq core.token_ids_sha256 begin.token_ids_sha256)
      || not (bytes_eq core.token_ids_sha256 (token_ids_sha256 core.prompt_token_ids))
      || not (length core.prompt_token_ids == begin.cached_token_count + 1)
      || ltb core.completed_unix_ms begin.created_unix_ms
      || ltb begin.deadline_unix_ms core.completed_unix_ms

  unfoldable pub differs_in_artifact : SealManifest → BeginManifest → List ℕ → Bool
  differs_in_artifact seal begin artifact =
      not (bytes_eq seal.artifact_sha256 artifact)
      || not (canary_ok begin seal.core.canary)
      || not (hmac_shape_ok begin.hmac_key_id seal.artifact_hmac_sha256)

  unfoldable pub seal_validate_for :
      SealManifest → BeginManifest → List LayerHeader → ℕ → List ℕ → Result HandoffError (Unit {0})
  seal_validate_for seal begin headers payload_bytes payload_sha256 = do
    fail_if (differs_in_counts seal.core begin headers payload_bytes payload_sha256) unsealed
    chain ← descriptor_chain_sha256 headers
    fail_if (differs_in_chain seal.core begin chain) unsealed
    artifact ← artifact_sha256 begin headers seal.core
    fail_if (differs_in_artifact seal begin artifact) unsealed

  unfoldable pub authenticate_hmac :
      SealManifest → BeginManifest → List LayerHeader → MacKey → Result HandoffError (Unit {0})
  authenticate_hmac seal begin headers mac = elim seal.artifact_hmac_sha256 [
    | none ↦ err (validation (text "sealed artifact carries no HMAC tag to authenticate"))
    | some tag ↦ do
      stream ← artifact_mac_stream begin headers seal.core
      verify_hex ext mac stream tag
  ]
