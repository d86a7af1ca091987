-- ===== src/Capacity/Objects.antt =====
-- The quotas of the object store and the rates: what they guarantee, and that they are not larger than
-- needed.
use kvpack.Base.{ℕ, ◌+◌, ◌-◌, ◌*◌, ◌/◌, max, ◌≤◌, ◌<◌, ◌≡◌, refl, ◌⊎◌, ◌↔◌, ltb, leb, max_u64}
use kvpack.Base.{false, ok, >>=-eq-ok, fail_if-eq-ok, Bool-cases, inl, inr, ok-injective, arith}
use mathlib.Core.Path.{subst}
use kvpack.Capacity.{
  CapacityWorksheetInput, CapacityWorksheet, add, multiply, scale_ceil, scale_floor, validate,
}
use kvpack.Capacity.Plan.{
  ObjectPlan, object_plan, catalog_plan, admission_plan, rate_plan, production_v1,
}
use kvpack.Capacity.Scaling.{
  add-ok, multiply-ok, scale_ceil-ok, scale_floor-ok, add-fits, multiply-fits, durable-fits,
  quarantine-fits,
}

-- What the object store's quotas must hold for the retained, pinned and staged bytes: the durable
-- target of 75 %, room for every upload, no more than one of the two asks for, and 1 % of quarantine.
pub record IsSized (input : CapacityWorksheetInput)
    (retained evictable staging quota quarantine filesystem : ℕ) : Type 0 where
  pub counted : retained ≡ input.retained_unique_kv_bytes + input.retained_object_overhead_bytes
  pub pinned : input.pinned_object_bytes + evictable ≡ retained
  pub staged : staging ≡ input.concurrent_uploads * input.maximum_upload_bytes
  pub target : retained * 1000 ≤ quota * 750
  pub room : retained + staging ≤ quota
  pub tight : (quota ≡ retained + staging) ⊎ (quota * 750 < retained * 1000 + 750)
  pub quarantined : (quarantine * 1000 ≤ quota * 10) × (quota * 10 < quarantine * 1000 + 1000)
  pub whole : filesystem ≡ quota + quarantine
  pub bounded : filesystem ≤ max_u64

max_tight :
    (target both sum asked : ℕ)
    → both ≡ sum
    → target * 750 < asked + 750
    → (max target both ≡ sum) ⊎ (max target both * 750 < asked + 750)
max_tight target both sum asked e h = elim (Bool-cases (leb target both)) [
  | inl staged ↦ inl (ground arith)
  | inr retained ↦ inr (ground arith)
]

PlanIsSized : CapacityWorksheetInput → ObjectPlan → Type 0
PlanIsSized input plan =
    IsSized input plan.retained_object_bytes plan.evictable_object_bytes plan.staging_quota_bytes
      plan.store_quota_bytes plan.quarantine_cap_bytes plan.minimum_object_filesystem_bytes

object_plan-IsSized :
    (input : CapacityWorksheetInput) {plan : ObjectPlan}
    → object_plan input ≡ ok plan
    → PlanIsSized input plan
unfolding object_plan PlanIsSized
object_plan-IsSized input h =
    let (retained, e₁, h₁) =
      >>=-eq-ok (add input.retained_unique_kv_bytes input.retained_object_overhead_bytes _) _ h in
    let (pinned, h₂) = fail_if-eq-ok (ltb retained input.pinned_object_bytes) _ _ h₁ in
    let (staging, e₂, h₃) =
      >>=-eq-ok (multiply input.concurrent_uploads input.maximum_upload_bytes _) _ h₂ in
    let (target, e₃, h₄) = >>=-eq-ok (scale_ceil retained 1000 750 _) _ h₃ in
    let (both, e₄, h₅) = >>=-eq-ok (add retained staging _) _ h₄ in
    let (quarantine, e₅, h₆) = >>=-eq-ok (scale_floor (max target both) 10 1000 _) _ h₅ in
    let (filesystem, e₆, h₇) = >>=-eq-ok (add (max target both) quarantine _) _ h₆ in
    let f₁ = add-ok _ _ _ e₁ in
    let f₂ = multiply-ok _ _ _ e₂ in
    let f₃ = scale_ceil-ok retained 1000 750 _ (omega arith) e₃ in
    let f₄ = add-ok _ _ _ e₄ in
    let f₅ = scale_floor-ok (max target both) 10 1000 _ (omega arith) e₅ in
    let f₆ = add-ok _ _ _ e₆ in
    subst (PlanIsSized input) (ok-injective h₇) (record {
      counted = f₁.0;
      pinned = ground arith;
      staged = f₂.0;
      target = omega (arith, f₃);
      room = omega (arith, f₄);
      tight = max_tight target both _ (retained * 1000) f₄.0 (f₃.1);
      quarantined = (f₅.0, f₅.1);
      whole = f₆.0;
      bounded = f₆.1;
    })

-- A worksheet sizes the object store for the retained bytes at a durable target of 75 % and for all
-- uploads beside them, not larger than one of the two asks for, with a quarantine of 1 % rounded down,
-- and the whole fits in 64 bits.
pub production_v1-IsSized :
    (input : CapacityWorksheetInput) {w : CapacityWorksheet}
    → production_v1 input ≡ ok w
    → IsSized input w.retained_object_bytes w.evictable_object_bytes w.staging_quota_bytes
        w.store_quota_bytes w.quarantine_cap_bytes w.minimum_object_filesystem_bytes
unfolding production_v1 PlanIsSized
production_v1-IsSized input h =
    let (_, _, h₁) = >>=-eq-ok (validate input) _ h in
    let (objects, sized, h₂) = >>=-eq-ok (object_plan input) _ h₁ in
    let (catalog, _, h₃) = >>=-eq-ok (catalog_plan input) _ h₂ in
    let (admission, _, h₄) = >>=-eq-ok (admission_plan input) _ h₃ in
    let (rates, _, h₅) = >>=-eq-ok (rate_plan input) _ h₄ in
    subst
      (λ (w : CapacityWorksheet).
        IsSized input w.retained_object_bytes w.evictable_object_bytes w.staging_quota_bytes
          w.store_quota_bytes w.quarantine_cap_bytes w.minimum_object_filesystem_bytes)
      (ok-injective h₅) (object_plan-IsSized input sized)

-- The quota and the quarantine of the inputs, in unbounded arithmetic.
unfoldable pub exact_quota : CapacityWorksheetInput → ℕ
exact_quota input =
    let retained = input.retained_unique_kv_bytes + input.retained_object_overhead_bytes in
    max ((retained * 1000 + 749) / 750)
      (retained + input.concurrent_uploads * input.maximum_upload_bytes)

unfoldable pub exact_filesystem : CapacityWorksheetInput → ℕ
exact_filesystem input = exact_quota input + exact_quota input * 10 / 1000

exact_le :
    (r s q z : ℕ)
    → r * 1000 ≤ q * 750
    → r + s ≤ q
    → q * 10 < z * 1000 + 1000
    → max ((r * 1000 + 749) / 750) (r + s) + max ((r * 1000 + 749) / 750) (r + s) * 10 / 1000
      ≤ q + z
exact_le r s q z target room above =
    let quota : max ((r * 1000 + 749) / 750) (r + s) ≤ q = omega arith in omega arith

object_plan-fits :
    (input : CapacityWorksheetInput)
    → input.pinned_object_bytes
      ≤ input.retained_unique_kv_bytes + input.retained_object_overhead_bytes
    → exact_filesystem input ≤ max_u64
    → (plan : ObjectPlan) × (object_plan input ≡ ok plan)
unfolding exact_filesystem exact_quota object_plan
object_plan-fits input pinned fits =
    let r = input.retained_unique_kv_bytes + input.retained_object_overhead_bytes in
    let s = input.concurrent_uploads * input.maximum_upload_bytes in
    let target = (r * 1000 + 749) / 750 in
    let quota = max target (r + s) in
    let room : ltb r input.pinned_object_bytes ≡ false = ground arith in
    let plan : ObjectPlan = record {
      retained_object_bytes = r;
      evictable_object_bytes = r - input.pinned_object_bytes;
      staging_quota_bytes = s;
      store_quota_bytes = quota;
      quarantine_cap_bytes = quota * 10 / 1000;
      minimum_object_filesystem_bytes = quota + quota * 10 / 1000;
    } in
    (
      plan,
      rw
          (
            add-fits input.retained_unique_kv_bytes input.retained_object_overhead_bytes
                "retained object bytes" (omega arith),
            room,
            multiply-fits input.concurrent_uploads input.maximum_upload_bytes "staging quota"
                (omega arith),
            durable-fits r "retained-data store quota" (omega arith),
            add-fits r s "retained plus staging bytes" (omega arith),
            quarantine-fits quota "quarantine cap" (omega arith),
            add-fits quota (quota * 10 / 1000) "object filesystem capacity" fits,
          )
          refl,
    )

-- The plan of the object store is refused exactly when more is pinned than retained or when the
-- object filesystem, in unbounded arithmetic, does not fit in 64 bits: no step in between overflows
-- before its result does.
pub object_plan_iff :
    (input : CapacityWorksheetInput)
    → ((plan : ObjectPlan) × (object_plan input ≡ ok plan)) ↔ (
        (input.pinned_object_bytes
          ≤ input.retained_unique_kv_bytes + input.retained_object_overhead_bytes)
        × (exact_filesystem input ≤ max_u64))
unfolding exact_filesystem exact_quota PlanIsSized
object_plan_iff input = (
  (λ (plan, h).
      let w = object_plan-IsSized input h in
      let r = input.retained_unique_kv_bytes + input.retained_object_overhead_bytes in
      let s = input.concurrent_uploads * input.maximum_upload_bytes in
      let bound =
        exact_le r s plan.store_quota_bytes plan.quarantine_cap_bytes
          (omega (arith, w.counted, w.target)) (omega (arith, w.counted, w.staged, w.room))
          (w.quarantined.1) in
      (omega (arith, w.counted, w.pinned), omega (arith, bound, w.whole, w.bounded))),
  (λ (pinned, fits). object_plan-fits input pinned fits),
)
