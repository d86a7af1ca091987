-- ===== src/Handoff/TransferTests.antt =====
-- crates/kvpack-handoff: the theorems on a transfer of one layer with one head of one element.
use kvpack.Base.{
  ℕ, ◌+◌, ◌%◌, ◌≡◌, refl, List, [], ◌∷◌, ◌++◌, none, some, false, length, replicate, ascii,
}
use kvpack.Base.{true, ok, ◌>>◌}
use kvpack.Handoff.External.{External}
use kvpack.Handoff.Manifest.{
  BeginManifest, LayerHeader, SealManifest, TensorRole, LayoutClass, key, value,
  consumer_last_prompt_token, live_handoff_schema_v1, live_handoff_protocol_v1, portable_kv_abi_v1,
  portable_kv_abi_v2, portable_kv_abi_v2_prerope, wire_schedule_decode_priority, is_key, same_role,
  default_limits,
}
use kvpack.Handoff.Manifest.Layout.{
  checked_mul, checked_add, and_then, ok_or, contains, stepped, without, layers, is_v2,
  is_prerope_v2, plane_element_bytes_v2, windowed, schedule_class_order, layout_walk_v2, window,
  plane_bytes, count_roles, count_classes, v2_frame_counts, plane_payload_extension,
}
use kvpack.Handoff.Manifest.Table.{is_label_byte, all, valid_label, is_hex_byte, valid_sha256}
use kvpack.Handoff.Manifest.Validation.{
  checked_payload_bytes, abi_ok, is_some, expected_counts, weights_ok, identity_ok,
  validate_lifetime, validate, expected_plane_bytes,
}
use kvpack.Handoff.Manifest.Walk.{walk_bytes}
use kvpack.Handoff.Manifest.Bounds.{v2_frame_counts-walk}
use kvpack.Handoff.Manifest.Headers.{
  same_shape, validate_for_v1, validate_for, canary_ok, hmac_shape_ok, sha256_hex, token_bytes,
  token_ids_sha256, header_lines, descriptor_prefix, descriptor_chain_sha256, artifact_stream,
  artifact_prefix, artifact_sha256, differs_in_counts, differs_in_chain, differs_in_artifact,
  seal_validate_for,
}
use kvpack.Handoff.Verify.{
  IncrementalVerifier, VerifiedPlane, VerifiedSeal, new_pair, next_sequence, is_single_role_frame,
  check_next, validate_next_header, values_ok, new, verify_plane, verify_seal,
}
use kvpack.Handoff.Verify.Stream.{IsStream, IsNumbered, total_bytes}
use kvpack.Handoff.Verify.Fed.{IsFed}
use kvpack.Handoff.Verify.Seal.{
  Reachable, started, verified, Reachable-IsStream, verify_seal-validates, verify_seal_complete,
}
use kvpack.Handoff.Coordinator.{}
use kvpack.Handoff.Coordinator.Publication.{}

abbrev pub hex : List ℕ → List ℕ
hex [] = []
hex (digit ∷ _) = replicate 64 (48 + digit)

-- A digest that keeps the last digit of the length, written 64 times.
abbrev pub ext : External
ext = record {
  json_begin = λ _. ok (123 ∷ []);
  json_header = λ _. ok (123 ∷ []);
  json_core = λ _. ok (123 ∷ []);
  json_seal = λ _. ok (123 ∷ []);
  sha256 = λ bytes. (length bytes % 10) ∷ [];
  hmac_sha256 = λ key bytes. (length bytes % 10) ∷ [];
  hex_encode = λ digest. hex digest;
  hex_decode = λ text. some text;
}

abbrev pub label : List ℕ
label = ascii "a"

abbrev pub digest : ℕ → List ℕ
digest n = replicate 64 (48 + n)

abbrev pub begin : BeginManifest
begin = record {
  cached_token_count = 1;
  created_unix_ms = 1;
  deadline_unix_ms = 2;
  endpoints = record {
    consumer_engine_abi = label;
    consumer_node = label;
    producer_engine_abi = label;
    producer_node = label;
    trust_domain = label;
  };
  expected_layer_frames = 2;
  expected_payload_bytes = 4;
  geometry = record { head_dim = 1; max_context_tokens = 2; num_kv_heads = 1; num_layers = 1 };
  identity = record {
    adapter_sha256 = digest 0;
    chat_template_sha256 = digest 0;
    context_policy_sha256 = digest 0;
    model_revision = label;
    model_sha256 = digest 0;
    tokenizer_revision = label;
    tokenizer_sha256 = digest 0;
  };
  portable_abi = portable_kv_abi_v1;
  precision = record { compute = ascii "float16"; kv = ascii "float16"; weights = ascii "bf16" };
  protocol = live_handoff_protocol_v1;
  schema_version = 1;
  strategy = consumer_last_prompt_token;
  token_ids_sha256 = digest 3;
  transfer_id = digest 0;
  layout_table = [];
  schedule = none;
  hmac_key_id = none;
}

abbrev pub header : ℕ → TensorRole → LayerHeader
header n role = record {
  byte_length = 2;
  layer = 0;
  logical_token_end = 1;
  logical_token_start = 0;
  role = role;
  schema_version = 1;
  sequence = n;
  sha256 = digest 2;
  shape = (1, 1, 1);
  transfer_id = digest 0;
  dtype = none;
  layout_class = none;
}

abbrev pub seal : SealManifest
seal = record {
  artifact_sha256 = digest 1;
  artifact_hmac_sha256 = none;
  core = record {
    completed_unix_ms = 2;
    descriptor_chain_sha256 = digest 6;
    frame_count = 2;
    payload_bytes = 4;
    payload_sha256 = digest 4;
    prompt_token_ids = 7 ∷ 8 ∷ [];
    protocol = live_handoff_protocol_v1;
    schema_version = 1;
    strategy = consumer_last_prompt_token;
    token_ids_sha256 = digest 3;
    transfer_id = digest 0;
    canary = none;
  };
}

-- The verifier after `n` of the two planes.
abbrev verifier : (headers : List LayerHeader) (payload lines : List ℕ) → IncrementalVerifier
verifier headers payload lines = record {
  begin = begin;
  limits = default_limits;
  layout_walk = none;
  headers = headers;
  payload_bytes = length payload;
  payload_hash = payload;
  descriptor_hash = ascii "kvpack-live-descriptor-chain-v1" ++ (0 ∷ []) ++ lines;
  artifact_prefix_hash = ascii "kvpack-live-artifact-v1" ++ (0 ∷ 123 ∷ 10 ∷ []) ++ lines;
  sealed = false;
}

abbrev pub at_start : IncrementalVerifier
at_start = verifier [] [] []

abbrev at_end : IncrementalVerifier
at_end =
    verifier (header 0 key ∷ header 1 value ∷ []) (1 ∷ 2 ∷ 3 ∷ 4 ∷ []) (123 ∷ 10 ∷ 123 ∷ 10 ∷ [])

abbrev at_key : IncrementalVerifier
at_key = verifier (header 0 key ∷ []) (1 ∷ 2 ∷ []) (123 ∷ 10 ∷ [])

abbrev pub witness : VerifiedSeal
witness = record {
  seal = seal;
  transfer_id = digest 0;
  descriptor_chain_sha256 = digest 6;
  payload_sha256 = digest 4;
}

transfer :
    (new ext begin default_limits ≡ ok at_start)
    × (verify_plane ext at_start (header 0 key) (1 ∷ 2 ∷ [])
        ≡ ok (record { header = header 0 key; bytes = 1 ∷ 2 ∷ [] }, at_key))
    × (verify_plane ext at_key (header 1 value) (3 ∷ 4 ∷ [])
        ≡ ok (record { header = header 1 value; bytes = 3 ∷ 4 ∷ [] }, at_end))
    × (verify_seal ext at_end seal ≡ ok (witness, record at_end { sealed = true }))
unfolding live_handoff_schema_v1 live_handoff_protocol_v1 portable_kv_abi_v1 portable_kv_abi_v2
    portable_kv_abi_v2_prerope wire_schedule_decode_priority is_key same_role default_limits
    checked_mul checked_add and_then ok_or contains stepped without layers is_v2 is_prerope_v2
    plane_element_bytes_v2 windowed schedule_class_order layout_walk_v2 window plane_bytes
    count_roles count_classes v2_frame_counts plane_payload_extension is_label_byte all valid_label
    is_hex_byte valid_sha256 checked_payload_bytes abi_ok is_some expected_counts weights_ok
    identity_ok validate_lifetime validate expected_plane_bytes same_shape validate_for_v1
    validate_for canary_ok hmac_shape_ok sha256_hex token_bytes token_ids_sha256 header_lines
    descriptor_prefix descriptor_chain_sha256 artifact_stream artifact_prefix artifact_sha256
    differs_in_counts differs_in_chain differs_in_artifact seal_validate_for new_pair next_sequence
    is_single_role_frame check_next validate_next_header values_ok new verify_plane verify_seal
    ascii
transfer = (refl, refl, refl, refl)

abbrev planes : List VerifiedPlane
planes =
    record { header = header 0 key; bytes = 1 ∷ 2 ∷ [] }
    ∷ record { header = header 1 value; bytes = 3 ∷ 4 ∷ [] }
    ∷ []

reached_end : Reachable ext begin default_limits planes at_end
reached_end =
    verified (header 1 value) (3 ∷ 4 ∷ []) _
      (verified (header 0 key) (1 ∷ 2 ∷ []) _ (started (transfer.0)) (transfer.1)) (transfer.2)

Reachable-IsStream_example : IsStream ext at_end × IsFed ext planes at_end
Reachable-IsStream_example = Reachable-IsStream ext begin default_limits reached_end

verify_seal-validates_example : verify_seal ext at_end seal ≡ (
    seal_validate_for ext seal begin at_end.headers 4 (sha256_hex ext (1 ∷ 2 ∷ 3 ∷ 4 ∷ []))
    >> ok (
      record {
        seal = seal;
        transfer_id = digest 0;
        descriptor_chain_sha256 = sha256_hex ext at_end.descriptor_hash;
        payload_sha256 = sha256_hex ext (1 ∷ 2 ∷ 3 ∷ 4 ∷ []);
      },
      record at_end { sealed = true },
    ))
verify_seal-validates_example =
    verify_seal-validates ext at_end seal
      (Reachable-IsStream ext begin default_limits reached_end).0 refl

verify_seal_complete_example :
    (length at_end.headers ≡ 2)
    × (total_bytes at_end.headers ≡ 4)
    × IsNumbered 0 at_end.headers
    × (artifact_sha256 ext begin at_end.headers seal.core ≡ ok (digest 1))
    × (record at_end { sealed = true } ≡ record at_end { sealed = true })
verify_seal_complete_example =
    verify_seal_complete ext at_end seal (Reachable-IsStream ext begin default_limits reached_end).0
      (transfer.3)

-- Two classes, of which the windowed one is streamed first.
abbrev class : ℕ → ℕ → List ℕ → LayoutClass
class window_tokens heads except = record {
  class = label;
  dtype = ascii "float16";
  except = except;
  from = 0;
  head_dim = 1;
  kv_heads = heads;
  roles = key ∷ value ∷ [];
  step = 1;
  until = 3;
  window_tokens = window_tokens;
}

abbrev two_classes : BeginManifest
two_classes = record begin {
  layout_table = class 0 2 (1 ∷ []) ∷ class 1 3 (0 ∷ 2 ∷ []) ∷ [];
  portable_abi = portable_kv_abi_v2;
  schedule = some wire_schedule_decode_priority;
}

counts_two : v2_frame_counts two_classes ≡ ok (6, 28)
unfolding checked_mul checked_add and_then ok_or contains stepped without layers is_v2 is_prerope_v2
    plane_element_bytes_v2 windowed schedule_class_order layout_walk_v2 window plane_bytes
    count_roles count_classes v2_frame_counts plane_payload_extension live_handoff_schema_v1
    live_handoff_protocol_v1 portable_kv_abi_v1 portable_kv_abi_v2 portable_kv_abi_v2_prerope
    wire_schedule_decode_priority is_key same_role default_limits ascii
counts_two = refl

v2_frame_counts-walk_example :
    (6 ≡ length (layout_walk_v2 two_classes))
    × (28 ≡ walk_bytes two_classes (layout_walk_v2 two_classes))
v2_frame_counts-walk_example = v2_frame_counts-walk two_classes counts_two
