-- ===== src/Capacity/Tests.antt =====
-- crates/kvpack/src/capacity.rs: the theorems on the sample of the source's tests.
use kvpack.Base.{◌+◌, ◌≤◌, ◌≡◌, refl, ◌↔◌, true, max_u64, ok}
use kvpack.Capacity.{
  CapacityWorksheetInput, CapacityWorksheet, add, narrow, multiply, scale_ceil, scale_floor,
  validate,
}
use kvpack.Capacity.Plan.{
  ObjectPlan, object_plan, catalog_plan, admission_plan, rate_plan, production_v1,
}
use kvpack.Capacity.Objects.{IsSized, production_v1-IsSized, object_plan_iff, exact_filesystem}
use kvpack.Capacity.Rates.{IsRated, production_v1-IsRated}

abbrev sample : CapacityWorksheetInput
sample = record {
  retained_unique_kv_bytes = 750;
  retained_object_overhead_bytes = 0;
  pinned_object_bytes = 250;
  catalog_row_count = 10;
  catalog_bytes_per_row = 10;
  catalog_fixed_bytes = 50;
  wal_reserve_bytes = 75;
  concurrent_uploads = 2;
  maximum_upload_bytes = 100;
  concurrent_restores = 3;
  maximum_agent_plan_bytes = 200;
  source_pins_per_restore = 4;
  source_fds_per_restore = 2;
  gateway_instances = 2;
  daily_unique_kv_bytes = 1000;
  peak_five_minute_unique_kv_bytes = 100;
  peak_five_minute_new_object_bytes = 110;
  physical_write_amplification_millis = 1300;
  device_write_budget_bytes_per_day = 1300;
  peak_network_payload_bytes_per_second = 100;
  network_target_utilization_millis = 800;
  backup_bytes_per_generation = 50;
  retained_backup_generations = 3;
}

abbrev sheet : CapacityWorksheet
sheet = record {
  input = sample;
  schema_version = 1;
  retained_object_bytes = 750;
  pinned_object_bytes = 250;
  evictable_object_bytes = 500;
  staging_quota_bytes = 200;
  store_quota_bytes = 1000;
  quarantine_cap_bytes = 10;
  minimum_object_filesystem_bytes = 1010;
  estimated_catalog_live_bytes = 150;
  wal_reserve_bytes = 75;
  catalog_backup_temporary_bytes = 150;
  minimum_internal_filesystem_bytes = 500;
  agent_admission_capacity_bytes = 600;
  gateway_transport_window_bytes = 67108864;
  admission_and_window_bytes = 67109464;
  maximum_active_grants = 3;
  required_source_pins = 12;
  required_source_fds = 6;
  endurance_bytes_per_five_minutes = 110;
  physical_write_bytes_per_five_minutes = 130;
  physical_write_bytes_per_day = 1300;
  device_write_budget_bytes_per_day = 1300;
  endurance_within_device_budget = true;
  physical_write_amplification_within_v1_gate = true;
  required_network_bits_per_second = 1000;
  backup_retention_bytes = 150;
}

computes : production_v1 sample ≡ ok sheet
unfolding production_v1 validate object_plan catalog_plan admission_plan rate_plan add narrow
    multiply scale_ceil scale_floor
computes = refl

production_v1-IsSized_example : IsSized sample 750 500 200 1000 10 1010
production_v1-IsSized_example = production_v1-IsSized sample computes

production_v1-IsRated_example : IsRated sample 1300 1000
production_v1-IsRated_example = production_v1-IsRated sample computes

object_plan_iff_example :
    ((plan : ObjectPlan) × (object_plan sample ≡ ok plan))
    ↔ ((250 ≤ 750 + 0) × (exact_filesystem sample ≤ max_u64))
object_plan_iff_example = object_plan_iff sample
