-- ===== src/Handoff/Permits.antt =====
-- crates/kvpack-handoff/src/coordinator.rs: `LayerPermitPoolV1` and the release of its permits.
-- The mutex is held over each step, so a step is atomic; a poisoned mutex is not modelled.
pub mod Conservation
pub mod Progress
use kvpack.Base.{
  ℕ, zero, suc, ◌+◌, ◌-◌, min, List, [], ◌∷◌, Bool, true, false, ◌||◌, Option, none, some,
}
use kvpack.Base.{ltb, ◌==◌, ◌≡◌, if◌then◌else◌, max_u64, saturating_add, Result, ok, err}
use kvpack.Handoff.{HandoffError, text, validation}

pub record PermitPool : Type 0 where
  pub capacity : ℕ
  pub available : ℕ
  pub in_use : ℕ

unfoldable pub new : ℕ → Result HandoffError PermitPool
new capacity =
    if capacity == 0 || ltb 64 capacity
    then err (validation (text "layer permit capacity must be in 1..=64"))
    else ok (record { capacity = capacity; available = capacity; in_use = 0 })

-- The pool after one permit is taken: none where `try_acquire` returns none, which is where
-- `acquire` waits.
unfoldable pub try_acquire : PermitPool → Option PermitPool
try_acquire p =
    if p.available == 0
    then none
    else some (record p { available = p.available - 1; in_use = p.in_use + 1 })

-- `release_inner` of a permit that still holds its pool.
unfoldable pub release_inner : PermitPool → PermitPool
release_inner p = record p {
  in_use = p.in_use - 1;
  available = min (saturating_add p.available 1) p.capacity;
}

-- A pool with the number of permits that threads hold; a permit releases once, by `release` or by
-- its drop.
pub data Step : PermitPool × ℕ → PermitPool × ℕ → Type 0 where
  acquired : {p q : PermitPool} {held : ℕ} → try_acquire p ≡ some q → Step (p, held) (q, suc held)
  released : {p : PermitPool} {held : ℕ} → Step (p, suc held) (release_inner p, held)

pub data Reachable (capacity : ℕ) : PermitPool × ℕ → Type 0 where
  fresh : {p : PermitPool} → new capacity ≡ ok p → Reachable capacity (p, 0)
  step : {s t : PermitPool × ℕ} → Reachable capacity s → Step s t → Reachable capacity t
