-- ===== src/Capacity/Scaling.antt =====
-- The checked arithmetic of the worksheet: the 128-bit products never change the result, and the
-- scaled values are rounded as they should.
use kvpack.Base.{ℕ, ◌+◌, ◌-◌, ◌*◌, ◌/◌, ◌≤◌, ◌<◌, ◌≡◌, String, max_u64, ok}
use kvpack.Base.{arith, sym}
use native.Mathlib.Nat.{lt-div-mul-add, div-mul-le_self}
use kvpack.Capacity.{add, narrow, multiply, scale_ceil, scale_floor}

pub add-ok : (a b : ℕ) (label : String) {r : ℕ} → add a b label ≡ ok r → (r ≡ a + b) × (r ≤ max_u64)
unfolding add
add-ok a b label h = ground arith

pub multiply-ok :
    (a b : ℕ) (label : String) {r : ℕ} → multiply a b label ≡ ok r → (r ≡ a * b) × (r ≤ max_u64)
unfolding multiply narrow
multiply-ok a b label h = ground arith

-- The least `r` with `a * n ≤ r * d`.
pub scale_ceil-ok :
    (a n d : ℕ) (label : String) {r : ℕ}
    → 1 ≤ d
    → scale_ceil a n d label ≡ ok r
    → (a * n ≤ r * d) × (r * d < a * n + d) × (r ≤ max_u64)
unfolding scale_ceil narrow
scale_ceil-ok a n d label {r = r} positive h =
    let x : ℕ = a * n + (d - 1) in
    let value : r ≡ x / d = ground arith in
    let small : r ≤ max_u64 = ground arith in
    let above = lt-div-mul-add {a = x} {b = d} positive in
    let below = div-mul-le_self x d in
    rw value (omega (arith, above), omega (arith, below), rw (sym value) small)

-- The greatest `r` with `r * d ≤ a * n`.
pub scale_floor-ok :
    (a n d : ℕ) (label : String) {r : ℕ}
    → 1 ≤ d
    → scale_floor a n d label ≡ ok r
    → (r * d ≤ a * n) × (a * n < r * d + d) × (r ≤ max_u64)
unfolding scale_floor narrow
scale_floor-ok a n d label {r = r} positive h =
    let value : r ≡ a * n / d = ground arith in
    let small : r ≤ max_u64 = ground arith in
    let above = lt-div-mul-add {a = a * n} {b = d} positive in
    rw value (div-mul-le_self (a * n) d, above, rw (sym value) small)

-- What fits is computed.
pub add-fits : (a b : ℕ) (label : String) → a + b ≤ max_u64 → add a b label ≡ ok (a + b)
unfolding add
add-fits a b label h = ground arith

pub multiply-fits : (a b : ℕ) (label : String) → a * b ≤ max_u64 → multiply a b label ≡ ok (a * b)
unfolding multiply narrow
multiply-fits a b label h = ground arith

pub durable-fits :
    (a : ℕ) (label : String)
    → (a * 1000 + 749) / 750 ≤ max_u64
    → scale_ceil a 1000 750 label ≡ ok ((a * 1000 + 749) / 750)
unfolding scale_ceil narrow
durable-fits a label h = ground arith

pub quarantine-fits :
    (a : ℕ) (label : String)
    → a * 10 / 1000 ≤ max_u64
    → scale_floor a 10 1000 label ≡ ok (a * 10 / 1000)
unfolding scale_floor narrow
quarantine-fits a label h = ground arith
