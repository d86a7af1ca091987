-- ===== src/Capacity.antt =====
-- crates/kvpack/src/capacity.rs: `CapacityWorksheet::production_v1`, the capacities of a deployment
-- from its workload, in checked 64-bit arithmetic: the input with its bounds, and the arithmetic.
mod Tests
pub mod Plan
pub mod Scaling
pub mod Objects
pub mod Rates
use kvpack.Base.{ℕ, ◌+◌, ◌-◌, ◌*◌, ◌/◌, ◌^◌, max, String, Bool, ◌||◌, ltb, leb, ◌==◌, max_u64}
use kvpack.Base.{if◌then◌else◌, Result, ok, err, ◌>>=◌, ◌>>◌, fail_if}

abbrev pub capacity_worksheet_schema_version : ℕ
capacity_worksheet_schema_version = 1

abbrev pub production_capacity_ratio_millis : ℕ
production_capacity_ratio_millis = 1000

abbrev pub production_durable_target_millis : ℕ
production_durable_target_millis = 750

abbrev pub production_quarantine_millis : ℕ
production_quarantine_millis = 10

abbrev pub production_internal_target_millis : ℕ
production_internal_target_millis = 750

abbrev pub production_write_amplification_limit_millis : ℕ
production_write_amplification_limit_millis = 1300

abbrev pub production_gateway_data_streams : ℕ
production_gateway_data_streams = 4

abbrev pub production_gateway_receive_buffers_per_stream : ℕ
production_gateway_receive_buffers_per_stream = 2

abbrev pub production_gateway_receive_buffer_bytes : ℕ
production_gateway_receive_buffer_bytes = 4 * 1024 * 1024

abbrev pub production_gateway_in_flight_bytes : ℕ
production_gateway_in_flight_bytes =
    production_gateway_data_streams * production_gateway_receive_buffers_per_stream
    * production_gateway_receive_buffer_bytes

abbrev pub max_capacity_concurrency : ℕ
max_capacity_concurrency = 1000000

abbrev pub max_capacity_gateway_instances : ℕ
max_capacity_gateway_instances = 65536

abbrev pub max_capacity_catalog_bytes_per_row : ℕ
max_capacity_catalog_bytes_per_row = 1024 * 1024

abbrev pub max_capacity_write_amplification_millis : ℕ
max_capacity_write_amplification_millis = 10000

abbrev pub max_capacity_network_utilization_millis : ℕ
max_capacity_network_utilization_millis = 950

abbrev pub max_capacity_backup_generations : ℕ
max_capacity_backup_generations = 3650

pub record CapacityWorksheetInput : Type 0 where
  pub retained_unique_kv_bytes : ℕ
  pub retained_object_overhead_bytes : ℕ
  pub pinned_object_bytes : ℕ
  pub catalog_row_count : ℕ
  pub catalog_bytes_per_row : ℕ
  pub catalog_fixed_bytes : ℕ
  pub wal_reserve_bytes : ℕ
  pub concurrent_uploads : ℕ
  pub maximum_upload_bytes : ℕ
  pub concurrent_restores : ℕ
  pub maximum_agent_plan_bytes : ℕ
  pub source_pins_per_restore : ℕ
  pub source_fds_per_restore : ℕ
  pub gateway_instances : ℕ
  pub daily_unique_kv_bytes : ℕ
  pub peak_five_minute_unique_kv_bytes : ℕ
  pub peak_five_minute_new_object_bytes : ℕ
  pub physical_write_amplification_millis : ℕ
  pub device_write_budget_bytes_per_day : ℕ
  pub peak_network_payload_bytes_per_second : ℕ
  pub network_target_utilization_millis : ℕ
  pub backup_bytes_per_generation : ℕ
  pub retained_backup_generations : ℕ

pub record CapacityWorksheet : Type 0 where
  pub schema_version : ℕ
  pub input : CapacityWorksheetInput
  pub retained_object_bytes : ℕ
  pub pinned_object_bytes : ℕ
  pub evictable_object_bytes : ℕ
  pub staging_quota_bytes : ℕ
  pub store_quota_bytes : ℕ
  pub quarantine_cap_bytes : ℕ
  pub minimum_object_filesystem_bytes : ℕ
  pub estimated_catalog_live_bytes : ℕ
  pub wal_reserve_bytes : ℕ
  pub catalog_backup_temporary_bytes : ℕ
  pub minimum_internal_filesystem_bytes : ℕ
  pub agent_admission_capacity_bytes : ℕ
  pub gateway_transport_window_bytes : ℕ
  pub admission_and_window_bytes : ℕ
  pub maximum_active_grants : ℕ
  pub required_source_pins : ℕ
  pub required_source_fds : ℕ
  pub endurance_bytes_per_five_minutes : ℕ
  pub physical_write_bytes_per_five_minutes : ℕ
  pub physical_write_bytes_per_day : ℕ
  pub device_write_budget_bytes_per_day : ℕ
  pub endurance_within_device_budget : Bool
  pub physical_write_amplification_within_v1_gate : Bool
  pub required_network_bits_per_second : ℕ
  pub backup_retention_bytes : ℕ

pub data CapacityPlanningError : Type 0 where
  invalid overflow : String → CapacityPlanningError

unfoldable pub add : ℕ → ℕ → String → Result CapacityPlanningError ℕ
add left right label =
    if leb (left + right) max_u64 then ok (left + right) else err (overflow label)

-- `u64::try_from` of a 128-bit number.
unfoldable pub narrow : ℕ → String → Result CapacityPlanningError ℕ
narrow value label = if leb value max_u64 then ok value else err (overflow label)

unfoldable pub multiply : ℕ → ℕ → String → Result CapacityPlanningError ℕ
multiply left right label = do
  fail_if (leb (2 ^ 128) (left * right)) (overflow label)
  narrow (left * right) label

unfoldable pub scale_ceil : ℕ → ℕ → ℕ → String → Result CapacityPlanningError ℕ
scale_ceil value numerator denominator label = do
  fail_if (leb (2 ^ 128) (value * numerator)) (overflow label)
  narrow ((value * numerator + (denominator - 1)) / denominator) label

unfoldable pub scale_floor : ℕ → ℕ → ℕ → String → Result CapacityPlanningError ℕ
scale_floor value numerator denominator label = do
  fail_if (leb (2 ^ 128) (value * numerator)) (overflow label)
  narrow (value * numerator / denominator) label

unfoldable pub validate : CapacityWorksheetInput → Result CapacityPlanningError (Unit {0})
validate input = do
  fail_if (input.retained_unique_kv_bytes == 0) (invalid "retained unique KV bytes must be nonzero")
  fail_if
      (input.catalog_row_count == 0
        || input.catalog_bytes_per_row == 0
        || ltb max_capacity_catalog_bytes_per_row input.catalog_bytes_per_row
        || input.catalog_fixed_bytes == 0
        || input.wal_reserve_bytes == 0)
      (invalid "catalog rows, row size, fixed bytes, or WAL reserve are outside bounds")
  fail_if
      (input.concurrent_uploads == 0
        || ltb max_capacity_concurrency input.concurrent_uploads
        || input.maximum_upload_bytes == 0)
      (invalid "upload concurrency or maximum upload bytes are outside bounds")
  fail_if
      (input.concurrent_restores == 0
        || ltb max_capacity_concurrency input.concurrent_restores
        || input.maximum_agent_plan_bytes == 0
        || ltb max_capacity_concurrency input.source_pins_per_restore
        || ltb input.source_pins_per_restore input.source_fds_per_restore)
      (invalid "restore concurrency, plan bytes, pins, or descriptors are outside bounds")
  fail_if
      (input.gateway_instances == 0 || ltb max_capacity_gateway_instances input.gateway_instances)
      (invalid "gateway instance count is outside bounds")
  fail_if
      (input.daily_unique_kv_bytes == 0
        || ltb input.daily_unique_kv_bytes input.peak_five_minute_unique_kv_bytes
        || input.peak_five_minute_new_object_bytes == 0
        || input.physical_write_amplification_millis == 0
        || ltb max_capacity_write_amplification_millis input.physical_write_amplification_millis
        || input.device_write_budget_bytes_per_day == 0)
      (invalid "write rate, amplification, or device budget is outside bounds")
  fail_if
      (input.peak_network_payload_bytes_per_second == 0
        || input.network_target_utilization_millis == 0
        || ltb max_capacity_network_utilization_millis input.network_target_utilization_millis)
      (invalid "network payload rate or target utilization is outside bounds")
  fail_if
      (input.backup_bytes_per_generation == 0
        || input.retained_backup_generations == 0
        || ltb max_capacity_backup_generations input.retained_backup_generations)
      (invalid "backup generation bytes or retention count are outside bounds")
  ok tt
