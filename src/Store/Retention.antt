-- ===== src/Store/Retention.antt =====
-- crates/kvpack/src/store/policy.rs and policy/replay.rs: the inputs of the retention score, the
-- score, and the schedule of access flushes. `u64` and `u128` are numbers with their saturation.
use kvpack.Base.{
  ℕ, ◌+◌, ◌-◌, ◌*◌, ◌/◌, ◌^◌, min, max, Bool, ◌||◌, Option, none, some, String, ltb, leb,
}
use kvpack.Base.{◌==◌, if◌then◌else◌, max_u64, saturating_add, Result, ok, err, ◌>>=◌}
pub mod Score

-- The errors of the store that the policy returns.
pub data StoreError : Type 0 where
  state : String → StoreError

abbrev pub max_u128 : ℕ
max_u128 = 2 ^ 128 - 1

abbrev pub saturating_mul_128 : ℕ → ℕ → ℕ
saturating_mul_128 a b = min (a * b) max_u128

abbrev pub saturating_add_128 : ℕ → ℕ → ℕ
saturating_add_128 a b = min (a + b) max_u128

abbrev pub max_i64 : ℕ
max_i64 = 2 ^ 63 - 1

pub record RetentionInputs : Type 0 where
  pub predicted_reuse_millis : ℕ
  pub avoided_prefill_ns : ℕ
  pub best_restore_ns : ℕ
  pub physical_bytes : ℕ
  pub shared_ancestor_bytes : ℕ
  pub write_wear_bytes : ℕ
  pub promotion_bandwidth_bytes_per_second : ℕ
  pub queue_interference_ns : ℕ

unfoldable pub conservative : ℕ → ℕ → RetentionInputs
conservative physical_bytes avoided_prefill_ns = record {
  predicted_reuse_millis = 1000;
  avoided_prefill_ns = avoided_prefill_ns;
  best_restore_ns = 0;
  physical_bytes = physical_bytes;
  shared_ancestor_bytes = 0;
  write_wear_bytes = 0;
  promotion_bandwidth_bytes_per_second = 0;
  queue_interference_ns = 0;
}

unfoldable pub validate : RetentionInputs → Result StoreError RetentionInputs
validate r =
    if ltb 1000 r.predicted_reuse_millis
      || (r.physical_bytes == 0 || ltb r.physical_bytes r.shared_ancestor_bytes)
    then err (state "retention inputs are invalid")
    else ok r

unfoldable pub with_physical_bytes : RetentionInputs → ℕ → Result StoreError RetentionInputs
unfolding validate
with_physical_bytes r physical_bytes = validate (record r {
  physical_bytes = physical_bytes;
  shared_ancestor_bytes = min r.shared_ancestor_bytes physical_bytes;
})

unfoldable pub marginal_physical_bytes : RetentionInputs → ℕ
marginal_physical_bytes r = max (r.physical_bytes - r.shared_ancestor_bytes) 1

unfoldable pub promotion_ns : RetentionInputs → ℕ
promotion_ns r =
    let bandwidth = r.promotion_bandwidth_bytes_per_second in
    if bandwidth == 0
    then 0
    else min
        (saturating_add_128 (saturating_mul_128 r.physical_bytes 1_000_000_000) (bandwidth - 1)
          / bandwidth)
        max_u64

-- `benefit_ns` of `score`.
unfoldable pub benefit_ns : RetentionInputs → ℕ
unfolding promotion_ns
benefit_ns r = r.avoided_prefill_ns - r.best_restore_ns - promotion_ns r - r.queue_interference_ns

unfoldable pub effective_bytes : RetentionInputs → ℕ
unfolding marginal_physical_bytes
effective_bytes r = max (saturating_add (marginal_physical_bytes r) r.write_wear_bytes) 1

-- The quotient at the end of `score`, in 1 to `i64::MAX`.
unfoldable pub bounded_score : ℕ → RetentionInputs → ℕ
bounded_score frequency r =
    let numerator =
      saturating_mul_128 (saturating_mul_128 frequency r.predicted_reuse_millis) (benefit_ns r) in
    min (max (numerator / 1000 / effective_bytes r) 1) max_i64

-- `score` of replay.rs.
unfoldable pub score : ℕ → RetentionInputs → ℕ
score frequency r =
    if r.physical_bytes == 0 || r.predicted_reuse_millis == 0
    then 0
    else (if benefit_ns r == 0 then 0 else bounded_score frequency r)

unfoldable pub retention_value : ℕ → RetentionInputs → Result StoreError ℕ
unfolding validate score
retention_value frequency inputs = do inputs' ← validate inputs; ok (score frequency inputs')

abbrev pub access_flush_interval_ns : ℕ
access_flush_interval_ns = 30_000_000_000

abbrev pub access_flush_hard_bound_ns : ℕ
access_flush_hard_bound_ns = 60_000_000_000

pub record AccessFlushSchedule : Type 0 where
  pub next_attempt_ns : ℕ
  pub hard_deadline_ns : ℕ
  pub overdue : Bool

-- `retry.unwrap_or(normal)`: a previous attempt counts if it is no older than the first access.
unfoldable pub retry_or_normal : ℕ → Option ℕ → ℕ
retry_or_normal first_pending_ns none = saturating_add first_pending_ns access_flush_interval_ns
retry_or_normal first_pending_ns (some attempt) =
    if leb first_pending_ns attempt
    then saturating_add attempt access_flush_interval_ns
    else saturating_add first_pending_ns access_flush_interval_ns

unfoldable pub access_flush_schedule : ℕ → Option ℕ → ℕ → AccessFlushSchedule
unfolding retry_or_normal
access_flush_schedule first_pending_ns previous_attempt_ns now_ns =
    let hard_deadline_ns = saturating_add first_pending_ns access_flush_hard_bound_ns in
    let planned = retry_or_normal first_pending_ns previous_attempt_ns in
    record {
      next_attempt_ns =
          if ltb now_ns hard_deadline_ns
          then min planned hard_deadline_ns
          else max planned (saturating_add now_ns access_flush_interval_ns);
      hard_deadline_ns = hard_deadline_ns;
      overdue = ltb hard_deadline_ns now_ns;
    }
