-- ===== src/Handoff/Permits/Conservation.antt =====
-- The permits of the pool are conserved.
use kvpack.Base.{ℕ, ◌+◌, ◌≤◌, ◌≡◌, arith, ok}
use kvpack.Handoff.Permits.{PermitPool, new, try_acquire, release_inner, Step, acquired, released}
use kvpack.Handoff.Permits.{Reachable, fresh, step}

-- What every reachable state keeps.
unfoldable pub IsConserved : ℕ → PermitPool × ℕ → Type 0
IsConserved capacity (p, held) =
    (p.capacity ≡ capacity)
    × ((p.in_use ≡ held) × ((p.available + held ≡ capacity) × (capacity ≤ 64)))

new-IsConserved :
    (capacity : ℕ) (p : PermitPool) → new capacity ≡ ok p → IsConserved capacity (p, 0)
unfolding new IsConserved
new-IsConserved capacity p h = ground arith

Step-IsConserved :
    (capacity : ℕ) {s t : PermitPool × ℕ}
    → Step s t
    → IsConserved capacity s
    → IsConserved capacity t
unfolding try_acquire release_inner IsConserved
Step-IsConserved capacity (acquired h) inv = ground arith
Step-IsConserved capacity released inv = ground arith

-- In every reachable state of a pool, the pool still has the capacity it was made with, `in_use`
-- is the number of permits held, and the available permits and those held add up to the capacity,
-- which is at most 64.
pub Reachable-IsConserved :
    (capacity : ℕ) (s : PermitPool × ℕ) → Reachable capacity s → IsConserved capacity s
Reachable-IsConserved capacity s (fresh h) = new-IsConserved capacity _ h
Reachable-IsConserved capacity s (step r h) =
    Step-IsConserved _ h (Reachable-IsConserved capacity _ r)
