-- ===== src/Handoff/Manifest.antt =====
-- crates/kvpack-handoff/src/manifest.rs: the manifests of a live handoff and their limits. A text is
-- the list of its UTF-8 bytes.
pub mod Layout
pub mod Table
pub mod Validation
pub mod Headers
pub mod Checked
pub mod Walk
pub mod Bounds
use kvpack.Base.{ℕ, List, Bool, true, false, Option, ◌*◌, ascii}

unfoldable pub live_handoff_schema_v1 : ℕ
live_handoff_schema_v1 = 1

unfoldable pub live_handoff_protocol_v1 : List ℕ
live_handoff_protocol_v1 = ascii "kvpack-live-f16-le-v1"

unfoldable pub portable_kv_abi_v1 : List ℕ
portable_kv_abi_v1 = ascii "canonical-kv-f16-le-v1"

unfoldable pub portable_kv_abi_v2 : List ℕ
portable_kv_abi_v2 = ascii "canonical-kv-v2"

unfoldable pub portable_kv_abi_v2_prerope : List ℕ
portable_kv_abi_v2_prerope = ascii "canonical-kv-prerope-v2"

unfoldable pub wire_schedule_layer_order : List ℕ
wire_schedule_layer_order = ascii "layer-order"

unfoldable pub wire_schedule_decode_priority : List ℕ
wire_schedule_decode_priority = ascii "decode-priority"

-- The one strategy.
pub data HandoffStrategy : Type 0 where
  consumer_last_prompt_token : HandoffStrategy

pub data TensorRole : Type 0 where
  key value : TensorRole

unfoldable pub is_key : TensorRole → Bool
is_key key = true
is_key value = false

unfoldable pub same_role : TensorRole → TensorRole → Bool
same_role key key = true
same_role value value = true
same_role key value = false
same_role value key = false

pub record EndpointIdentity : Type 0 where
  pub consumer_engine_abi : List ℕ
  pub consumer_node : List ℕ
  pub producer_engine_abi : List ℕ
  pub producer_node : List ℕ
  pub trust_domain : List ℕ

pub record ExactIdentity : Type 0 where
  pub adapter_sha256 : List ℕ
  pub chat_template_sha256 : List ℕ
  pub context_policy_sha256 : List ℕ
  pub model_revision : List ℕ
  pub model_sha256 : List ℕ
  pub tokenizer_revision : List ℕ
  pub tokenizer_sha256 : List ℕ

pub record Geometry : Type 0 where
  pub head_dim : ℕ
  pub max_context_tokens : ℕ
  pub num_kv_heads : ℕ
  pub num_layers : ℕ

pub record Precision : Type 0 where
  pub compute : List ℕ
  pub kv : List ℕ
  pub weights : List ℕ

pub record LayoutClass : Type 0 where
  pub class : List ℕ
  pub dtype : List ℕ
  pub except : List ℕ
  pub from : ℕ
  pub head_dim : ℕ
  pub kv_heads : ℕ
  pub roles : List TensorRole
  pub step : ℕ
  pub until : ℕ
  pub window_tokens : ℕ

pub record BeginManifest : Type 0 where
  pub cached_token_count : ℕ
  pub created_unix_ms : ℕ
  pub deadline_unix_ms : ℕ
  pub endpoints : EndpointIdentity
  pub expected_layer_frames : ℕ
  pub expected_payload_bytes : ℕ
  pub geometry : Geometry
  pub identity : ExactIdentity
  pub portable_abi : List ℕ
  pub precision : Precision
  pub protocol : List ℕ
  pub schema_version : ℕ
  pub strategy : HandoffStrategy
  pub token_ids_sha256 : List ℕ
  pub transfer_id : List ℕ
  pub layout_table : List LayoutClass
  pub schedule : Option (List ℕ)
  pub hmac_key_id : Option (List ℕ)

pub record LayerHeader : Type 0 where
  pub byte_length : ℕ
  pub layer : ℕ
  pub logical_token_end : ℕ
  pub logical_token_start : ℕ
  pub role : TensorRole
  pub schema_version : ℕ
  pub sequence : ℕ
  pub sha256 : List ℕ
  pub shape : ℕ × ℕ × ℕ
  pub transfer_id : List ℕ
  pub dtype : Option (List ℕ)
  pub layout_class : Option (List ℕ)

pub record CanaryRecord : Type 0 where
  pub sample_token_start : ℕ
  pub sample_token_count : ℕ
  pub post_rope_k_sha256 : List ℕ
  pub post_rope_v_sha256 : List ℕ

pub record SealCore : Type 0 where
  pub completed_unix_ms : ℕ
  pub descriptor_chain_sha256 : List ℕ
  pub frame_count : ℕ
  pub payload_bytes : ℕ
  pub payload_sha256 : List ℕ
  pub prompt_token_ids : List ℕ
  pub protocol : List ℕ
  pub schema_version : ℕ
  pub strategy : HandoffStrategy
  pub token_ids_sha256 : List ℕ
  pub transfer_id : List ℕ
  pub canary : Option CanaryRecord

pub record SealManifest : Type 0 where
  pub artifact_sha256 : List ℕ
  pub artifact_hmac_sha256 : Option (List ℕ)
  pub core : SealCore

pub record AckManifest : Type 0 where
  pub artifact_sha256 : List ℕ
  pub protocol : List ℕ
  pub schema_version : ℕ
  pub status : List ℕ
  pub transfer_id : List ℕ

pub record AbortManifest : Type 0 where
  pub code : List ℕ
  pub protocol : List ℕ
  pub schema_version : ℕ
  pub transfer_id : List ℕ

pub record ValidationLimits : Type 0 where
  pub max_cached_tokens : ℕ
  pub max_clock_skew_ms : ℕ
  pub max_context_tokens : ℕ
  pub max_frame_bytes : ℕ
  pub max_layers : ℕ
  pub max_session_ms : ℕ
  pub max_total_bytes : ℕ
  pub now_unix_ms : ℕ

-- `ValidationLimits::default()`.
unfoldable pub default_limits : ValidationLimits
default_limits = record {
  max_cached_tokens = 32767;
  max_clock_skew_ms = 30000;
  max_context_tokens = 32768;
  max_frame_bytes = 64 * 1024 * 1024;
  max_layers = 64;
  max_session_ms = 15 * 60 * 1000;
  max_total_bytes = 4 * 1024 * 1024 * 1024;
  now_unix_ms = 1;
}
