-- ===== src/Store/Retention/Score.antt =====
-- The score is monotone in the frequency, and the flush schedule respects its deadline.
use kvpack.Base.{ℕ, ◌+◌, ◌*◌, ◌/◌, ◌≤◌, ◌<◌, ◌≡◌, min, max, arith}
use kvpack.Base.{true, ◌⊎◌, ◌↔◌, Option, none, some, max_u64}
use kvpack.Store.Retention.{
  RetentionInputs, score, bounded_score, benefit_ns, effective_bytes, max_i64,
}
use kvpack.Store.Retention.{saturating_mul_128, access_flush_schedule}
use kvpack.Store.Retention.{access_flush_interval_ns, access_flush_hard_bound_ns}

mul_mono : (a b c : ℕ) → a ≤ b → a * c ≤ b * c
mul_mono a b c h = grind arith

saturating_mul_mono : (a b c : ℕ) → a ≤ b → saturating_mul_128 a c ≤ saturating_mul_128 b c
saturating_mul_mono a b c h = omega (arith, mul_mono a b c h)

div_mono : (a b c : ℕ) → a ≤ b → a / c ≤ b / c
div_mono a b c h = grind arith

bounded_score_mono : (f g : ℕ) (r : RetentionInputs) → f ≤ g → bounded_score f r ≤ bounded_score g r
unfolding bounded_score
bounded_score_mono f g r h =
    let reuse = saturating_mul_mono f g r.predicted_reuse_millis h in
    let value = saturating_mul_mono _ _ (benefit_ns r) reuse in
    let scaled = div_mono _ _ 1000 value in
    let per_byte = div_mono _ _ (effective_bytes r) scaled in cut per_byte
  where
    cut : {a b : ℕ} → a ≤ b → min (max a 1) max_i64 ≤ min (max b 1) max_i64
    cut h = omega arith

bounded_score-range :
    (f : ℕ) (r : RetentionInputs) → (1 ≤ bounded_score f r) × (bounded_score f r ≤ max_i64)
unfolding bounded_score
bounded_score-range f r = (omega arith, omega arith)

-- A chunk that is accessed more often is not worth less, a score fits `i64`, and whether it is zero
-- does not depend on the frequency: it is zero exactly for no bytes, no predicted reuse or no time
-- saved.
pub score_mono :
    (f g : ℕ) (r : RetentionInputs)
    → f ≤ g
    → (score f r ≤ score g r)
      × (score g r ≤ max_i64)
      × ((score f r ≡ 0)
          ↔ ((r.physical_bytes ≡ 0) ⊎ (r.predicted_reuse_millis ≡ 0) ⊎ (benefit_ns r ≡ 0)))
unfolding score
score_mono f g r h =
    let bigger = bounded_score_mono f g r h in
    let range = bounded_score-range g r in
    let range' = bounded_score-range f r in
    (ground arith, ground arith, (ground arith, ground arith))

-- When accesses are flushed: before the hard deadline the next attempt is not planned past it, and
-- an attempt from the deadline on waits one interval at least, so a retry cannot spin. `overdue` is
-- set exactly when the deadline has passed. (The clock and the
-- first time, each with its bound, fit `u64`.)
pub access_flush_schedule_bounds :
    (first now : ℕ) (previous : Option ℕ)
    → first + access_flush_hard_bound_ns ≤ max_u64
    → now + access_flush_interval_ns ≤ max_u64
    → let s = access_flush_schedule first previous now in
      (s.hard_deadline_ns ≡ first + access_flush_hard_bound_ns)
      × ((s.overdue ≡ true) ↔ (s.hard_deadline_ns < now))
      × (((now < s.hard_deadline_ns)
            × (s.next_attempt_ns ≤ s.hard_deadline_ns)
            × (first + access_flush_interval_ns ≤ s.next_attempt_ns))
          ⊎ ((s.hard_deadline_ns ≤ now) × (now + access_flush_interval_ns ≤ s.next_attempt_ns)))
unfolding access_flush_schedule
access_flush_schedule_bounds first now none h k = ground arith
access_flush_schedule_bounds first now (some attempt) h k = ground arith
