-- ===== src/Capacity/Plan.antt =====
-- crates/kvpack/src/capacity.rs: `CapacityWorksheet::production_v1`. The calculation is cut in four
-- parts, run in the order of the source.
use kvpack.Base.{ℕ, ◌-◌, max, ltb, leb, Result, ok, ◌>>=◌, ◌>>◌, fail_if}
use kvpack.Capacity.{
  capacity_worksheet_schema_version, production_capacity_ratio_millis,
  production_durable_target_millis, production_quarantine_millis, production_internal_target_millis,
  production_write_amplification_limit_millis, production_gateway_in_flight_bytes,
  CapacityWorksheetInput, CapacityWorksheet, CapacityPlanningError, invalid, add, multiply,
  scale_ceil, scale_floor, validate,
}

-- The object store: what is retained, what may be staged, and the quotas over them.
pub record ObjectPlan : Type 0 where
  pub retained_object_bytes : ℕ
  pub evictable_object_bytes : ℕ
  pub staging_quota_bytes : ℕ
  pub store_quota_bytes : ℕ
  pub quarantine_cap_bytes : ℕ
  pub minimum_object_filesystem_bytes : ℕ

unfoldable pub object_plan : CapacityWorksheetInput → Result CapacityPlanningError ObjectPlan
object_plan input = do
  retained ←
      add input.retained_unique_kv_bytes input.retained_object_overhead_bytes
        "retained object bytes"
  fail_if (ltb retained input.pinned_object_bytes)
      (invalid "pinned object bytes exceed retained object bytes")
  staging ← multiply input.concurrent_uploads input.maximum_upload_bytes "staging quota"
  target ←
      scale_ceil retained production_capacity_ratio_millis production_durable_target_millis
        "retained-data store quota"
  both ← add retained staging "retained plus staging bytes"
  quarantine ←
      scale_floor (max target both) production_quarantine_millis production_capacity_ratio_millis
        "quarantine cap"
  filesystem ← add (max target both) quarantine "object filesystem capacity"
  ok (record {
    retained_object_bytes = retained;
    evictable_object_bytes = retained - input.pinned_object_bytes;
    staging_quota_bytes = staging;
    store_quota_bytes = max target both;
    quarantine_cap_bytes = quarantine;
    minimum_object_filesystem_bytes = filesystem;
  })

pub record CatalogPlan : Type 0 where
  pub estimated_catalog_live_bytes : ℕ
  pub minimum_internal_filesystem_bytes : ℕ

unfoldable pub catalog_plan : CapacityWorksheetInput → Result CapacityPlanningError CatalogPlan
catalog_plan input = do
  rows ← multiply input.catalog_row_count input.catalog_bytes_per_row "catalog row estimate"
  live ← add input.catalog_fixed_bytes rows "live catalog estimate"
  live_and_wal ← add live input.wal_reserve_bytes "catalog plus WAL reserve"
  with_backup ← add live_and_wal live "catalog backup working set"
  filesystem ←
      scale_ceil with_backup production_capacity_ratio_millis production_internal_target_millis
        "internal filesystem capacity"
  ok (record {
    estimated_catalog_live_bytes = live;
    minimum_internal_filesystem_bytes = filesystem;
  })

pub record AdmissionPlan : Type 0 where
  pub agent_admission_capacity_bytes : ℕ
  pub gateway_transport_window_bytes : ℕ
  pub admission_and_window_bytes : ℕ
  pub required_source_pins : ℕ
  pub required_source_fds : ℕ

unfoldable pub admission_plan : CapacityWorksheetInput → Result CapacityPlanningError AdmissionPlan
admission_plan input = do
  agents ←
      multiply input.concurrent_restores input.maximum_agent_plan_bytes "agent admission capacity"
  windows ←
      multiply input.gateway_instances production_gateway_in_flight_bytes
        "gateway transport windows"
  both ← add agents windows "admission and gateway window capacity"
  pins ← multiply input.concurrent_restores input.source_pins_per_restore "source pin count"
  fds ← multiply input.concurrent_restores input.source_fds_per_restore "source descriptor count"
  ok (record {
    agent_admission_capacity_bytes = agents;
    gateway_transport_window_bytes = windows;
    admission_and_window_bytes = both;
    required_source_pins = pins;
    required_source_fds = fds;
  })

pub record RatePlan : Type 0 where
  pub physical_write_bytes_per_five_minutes : ℕ
  pub physical_write_bytes_per_day : ℕ
  pub required_network_bits_per_second : ℕ
  pub backup_retention_bytes : ℕ

unfoldable pub rate_plan : CapacityWorksheetInput → Result CapacityPlanningError RatePlan
rate_plan input = do
  five_minutes ←
      scale_ceil input.peak_five_minute_unique_kv_bytes input.physical_write_amplification_millis
        production_capacity_ratio_millis "five-minute physical writes"
  day ←
      scale_ceil input.daily_unique_kv_bytes input.physical_write_amplification_millis
        production_capacity_ratio_millis "daily physical writes"
  bits ← multiply input.peak_network_payload_bytes_per_second 8 "network payload bits"
  line_rate ←
      scale_ceil bits production_capacity_ratio_millis input.network_target_utilization_millis
        "network line rate"
  backups ←
      multiply input.backup_bytes_per_generation input.retained_backup_generations
        "backup retention"
  ok (record {
    physical_write_bytes_per_five_minutes = five_minutes;
    physical_write_bytes_per_day = day;
    required_network_bits_per_second = line_rate;
    backup_retention_bytes = backups;
  })

unfoldable pub production_v1 :
    CapacityWorksheetInput → Result CapacityPlanningError CapacityWorksheet
production_v1 input = do
  validate input
  objects ← object_plan input
  catalog ← catalog_plan input
  admission ← admission_plan input
  rates ← rate_plan input
  ok (record {
    schema_version = capacity_worksheet_schema_version;
    input = input;
    retained_object_bytes = objects.retained_object_bytes;
    pinned_object_bytes = input.pinned_object_bytes;
    evictable_object_bytes = objects.evictable_object_bytes;
    staging_quota_bytes = objects.staging_quota_bytes;
    store_quota_bytes = objects.store_quota_bytes;
    quarantine_cap_bytes = objects.quarantine_cap_bytes;
    minimum_object_filesystem_bytes = objects.minimum_object_filesystem_bytes;
    estimated_catalog_live_bytes = catalog.estimated_catalog_live_bytes;
    wal_reserve_bytes = input.wal_reserve_bytes;
    catalog_backup_temporary_bytes = catalog.estimated_catalog_live_bytes;
    minimum_internal_filesystem_bytes = catalog.minimum_internal_filesystem_bytes;
    agent_admission_capacity_bytes = admission.agent_admission_capacity_bytes;
    gateway_transport_window_bytes = admission.gateway_transport_window_bytes;
    admission_and_window_bytes = admission.admission_and_window_bytes;
    maximum_active_grants = input.concurrent_restores;
    required_source_pins = admission.required_source_pins;
    required_source_fds = admission.required_source_fds;
    endurance_bytes_per_five_minutes = input.peak_five_minute_new_object_bytes;
    physical_write_bytes_per_five_minutes = rates.physical_write_bytes_per_five_minutes;
    physical_write_bytes_per_day = rates.physical_write_bytes_per_day;
    device_write_budget_bytes_per_day = input.device_write_budget_bytes_per_day;
    endurance_within_device_budget =
        leb rates.physical_write_bytes_per_day input.device_write_budget_bytes_per_day;
    physical_write_amplification_within_v1_gate =
        leb input.physical_write_amplification_millis production_write_amplification_limit_millis;
    required_network_bits_per_second = rates.required_network_bits_per_second;
    backup_retention_bytes = rates.backup_retention_bytes;
  })
