-- ===== src/Capacity/Rates.antt =====
-- The write rates and the network rate of a worksheet.
use kvpack.Base.{ℕ, ◌+◌, ◌*◌, ◌≤◌, ◌<◌, ◌≡◌, ok, >>=-eq-ok, ok-injective, arith}
use mathlib.Core.Path.{subst}
use kvpack.Capacity.{CapacityWorksheetInput, CapacityWorksheet, multiply, scale_ceil, validate}
use kvpack.Capacity.Plan.{
  RatePlan, object_plan, catalog_plan, admission_plan, rate_plan, production_v1,
}
use kvpack.Capacity.Scaling.{multiply-ok, scale_ceil-ok}

-- The line rate carries the payload bits at the target utilisation and the daily writes cover the
-- daily bytes with their amplification, each rounded up to the next whole number.
unfoldable pub IsRated : CapacityWorksheetInput → (day line_rate : ℕ) → Type 0
IsRated input day line_rate =
    (input.daily_unique_kv_bytes * input.physical_write_amplification_millis ≤ day * 1000)
    × (day * 1000 < input.daily_unique_kv_bytes * input.physical_write_amplification_millis + 1000)
    × (input.peak_network_payload_bytes_per_second * 8 * 1000
        ≤ line_rate * input.network_target_utilization_millis)
    × (line_rate * input.network_target_utilization_millis
        < input.peak_network_payload_bytes_per_second * 8 * 1000
          + input.network_target_utilization_millis)

validate-utilization :
    (input : CapacityWorksheetInput)
    → validate input ≡ ok tt
    → 1 ≤ input.network_target_utilization_millis
unfolding validate
validate-utilization input h = ground arith

rate_plan-IsRated :
    (input : CapacityWorksheetInput) {plan : RatePlan}
    → 1 ≤ input.network_target_utilization_millis
    → rate_plan input ≡ ok plan
    → IsRated input plan.physical_write_bytes_per_day plan.required_network_bits_per_second
unfolding rate_plan IsRated
rate_plan-IsRated input {plan = plan} used h =
    let amplification = input.physical_write_amplification_millis in
    let (_, _, h₁) =
      >>=-eq-ok (scale_ceil input.peak_five_minute_unique_kv_bytes amplification 1000 _) _ h in
    let (day, e₂, h₂) =
      >>=-eq-ok (scale_ceil input.daily_unique_kv_bytes amplification 1000 _) _ h₁ in
    let (bits, e₃, h₃) =
      >>=-eq-ok (multiply input.peak_network_payload_bytes_per_second 8 _) _ h₂ in
    let (rate, e₄, h₄) =
      >>=-eq-ok (scale_ceil bits 1000 input.network_target_utilization_millis _) _ h₃ in
    let (_, _, h₅) =
      >>=-eq-ok (multiply input.backup_bytes_per_generation input.retained_backup_generations _) _
        h₄ in
    let f₂ = scale_ceil-ok input.daily_unique_kv_bytes amplification 1000 _ (omega arith) e₂ in
    let f₃ = multiply-ok _ _ _ e₃ in
    let f₄ = scale_ceil-ok bits 1000 input.network_target_utilization_millis _ used e₄ in
    let made : IsRated input day rate =
      (f₂.0, f₂.1, omega (arith, f₃.0, f₄.0), omega (arith, f₃.0, f₄.1)) in
    subst
      (λ (p : RatePlan).
        IsRated input p.physical_write_bytes_per_day p.required_network_bits_per_second)
      (ok-injective h₅) made

-- A worksheet's line rate is the least that carries the peak payload at the target utilisation, and
-- its daily physical writes are the least that cover the daily bytes with their amplification.
pub production_v1-IsRated :
    (input : CapacityWorksheetInput) {w : CapacityWorksheet}
    → production_v1 input ≡ ok w
    → IsRated input w.physical_write_bytes_per_day w.required_network_bits_per_second
unfolding production_v1
production_v1-IsRated input h =
    let (_, valid, h₁) = >>=-eq-ok (validate input) _ h in
    let (objects, _, h₂) = >>=-eq-ok (object_plan input) _ h₁ in
    let (catalog, _, h₃) = >>=-eq-ok (catalog_plan input) _ h₂ in
    let (admission, _, h₄) = >>=-eq-ok (admission_plan input) _ h₃ in
    let (rates, rated, h₅) = >>=-eq-ok (rate_plan input) _ h₄ in
    subst
      (λ (w : CapacityWorksheet).
        IsRated input w.physical_write_bytes_per_day w.required_network_bits_per_second)
      (ok-injective h₅) (rate_plan-IsRated input (validate-utilization input valid) rated)
