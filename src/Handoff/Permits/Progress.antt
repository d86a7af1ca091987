-- ===== src/Handoff/Permits/Progress.antt =====
-- crates/kvpack-handoff/src/coordinator.rs: when `try_acquire` takes a permit. The wake-up of a thread
-- that waits in `acquire` is not modelled.
use kvpack.Base.{ℕ, ◌+◌, ◌-◌, ◌<◌, ◌≡◌, arith, none, some, ok, ◌⊎◌, inl, inr, ◌==◌, Bool-cases}
use kvpack.Handoff.Permits.{PermitPool, new, try_acquire, release_inner, Reachable, fresh, step}
use kvpack.Handoff.Permits.Conservation.{IsConserved, Reachable-IsConserved}

new-positive : (capacity : ℕ) (p : PermitPool) → new capacity ≡ ok p → 0 < capacity
unfolding new
new-positive capacity p h = ground arith

Reachable-positive : (capacity : ℕ) (s : PermitPool × ℕ) → Reachable capacity s → 0 < capacity
Reachable-positive capacity s (fresh h) = new-positive capacity _ h
Reachable-positive capacity s (step r _) = Reachable-positive capacity _ r

abbrev pub taken : PermitPool → PermitPool
taken p = record p { available = p.available - 1; in_use = p.in_use + 1 }

acquire-free : (p : PermitPool) → 0 < p.available → try_acquire p ≡ some (taken p)
unfolding try_acquire
acquire-free p h = ground arith

acquire-empty : (p : PermitPool) → p.available ≡ 0 → try_acquire p ≡ none
unfolding try_acquire
acquire-empty p h = ground arith

acquire-release :
    (p : PermitPool)
    → p.available ≡ 0
    → 0 < p.capacity
    → 0 < p.in_use
    → try_acquire (release_inner p) ≡ some p
unfolding try_acquire release_inner
acquire-release p h room used = ground arith

-- In every reachable state, `try_acquire` takes a permit where the threads hold fewer than the
-- capacity, and otherwise, where it takes none, some thread holds one, and a release lets the next
-- `try_acquire` take it, which leaves the pool as it was.
pub try_acquire_progress :
    (capacity held : ℕ) (p : PermitPool)
    → Reachable capacity (p, held)
    → ((held < capacity) × (try_acquire p ≡ some (taken p)))
      ⊎ ((0 < held)
          × ((held ≡ capacity)
              × ((try_acquire p ≡ none) × (try_acquire (release_inner p) ≡ some p))))
unfolding IsConserved
try_acquire_progress capacity held p r =
    let (same, (used, (total, _))) = Reachable-IsConserved capacity (p, held) r in
    let room : 0 < capacity = Reachable-positive capacity (p, held) r in
    elim (Bool-cases (p.available == 0)) [
      | inl h ↦ inr (
        ground arith,
        (
          ground arith,
          (
            acquire-empty p (ground arith),
            acquire-release p (ground arith) (ground arith) (ground arith),
          ),
        ),
      )
      | inr h ↦ inl (ground arith, acquire-free p (ground arith))
    ]
