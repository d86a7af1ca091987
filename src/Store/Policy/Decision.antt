-- ===== src/Store/Policy/Decision.antt =====
-- crates/kvpack/src/store/policy.rs: the admission decision while room is scarce.
use mathlib.Core.List.{Mem}
use kvpack.Base.{
  ℕ, ◌≤◌, ◌<◌, ◌≡◌, refl, All, All-imp, some, List, [], max, arith, ltb, ◌⊎◌, inl, inr,
  Option-cases, Bool-cases, ◌∙◌, ap,
}
use kvpack.Base.Maps.{lookup}
use kvpack.Store.Retention.{RetentionInputs, score}
use kvpack.Store.Policy.{TinyLfuPolicy, estimate}
use kvpack.Store.Policy.Admission.{
  AdmissionDecision, admit, admit_over_victim, reject_lower_frequency, Candidate, candidates,
  precedes, min_by_key, against_victim, admission_decision_with_retention,
}
use kvpack.Store.Policy.Least.{
  IsLeast, IsNoLater, precedes-IsNoLater, all_mem, min_by_key-IsLeast, min_by_key-All,
  min_by_key-none, candidates-lookup, precedes_trans, precedes-asym, precedes_irrefl,
}

-- The objects in probation, with their entries.
abbrev pub on_probation : TinyLfuPolicy → List Candidate
on_probation p = candidates p.entries p.probation

min_by_key-probation :
    (p : TinyLfuPolicy) (v : Candidate)
    → min_by_key precedes (on_probation p) ≡ some v
    → (lookup v.0 p.entries ≡ some v.1)
      × (Mem v (on_probation p) × All (λ c. IsNoLater v c) (on_probation p))
unfolding IsLeast
min_by_key-probation p v found = (
  min_by_key-All (λ c. lookup c.0 p.entries ≡ some c.1) precedes (on_probation p) v found
      (candidates-lookup p.entries p.probation),
  (
    min_by_key-All (λ c. Mem c (on_probation p)) precedes (on_probation p) v found
        (all_mem (on_probation p)),
    All-imp (λ c h. precedes-IsNoLater v c h) (on_probation p)
        (min_by_key-IsLeast precedes precedes_trans precedes-asym precedes_irrefl (on_probation p) v
          found),
  ),
)

-- What is no later than a candidate does not score higher than it.
IsNoLater-score : (a b : Candidate) → IsNoLater a b → a.1.score ≤ b.1.score
unfolding IsNoLater
IsNoLater-score a b h = ground arith

-- The two outcomes against a victim.
pub Weighed : ℕ → Candidate → List Candidate → AdmissionDecision → Type 0
Weighed scored v cs decision =
    ((v.1.score < scored) × (decision ≡ admit_over_victim v.0))
    ⊎ (All (λ c. scored ≤ c.1.score) cs × (decision ≡ reject_lower_frequency))

against_victim-Weighed :
    (scored : ℕ) (v : Candidate) (cs : List Candidate)
    → All (λ c. IsNoLater v c) cs
    → Weighed scored v cs (against_victim scored (some v))
unfolding against_victim Weighed
against_victim-Weighed scored (k, e) cs h = elim (Bool-cases (ltb e.score scored)) [
  | inl lower ↦ inl (ground arith, rw lower refl)
  | inr higher ↦ inr (
    All-imp
        (λ c no_later.
          let below = IsNoLater-score (k, e) c no_later in
          let above : scored ≤ e.score = ground arith in omega (arith, below, above))
        cs h,
    rw higher refl,
  )
]

module _ (digest : ℕ → ℕ → ℕ) where
  decision-against :
      (p : TinyLfuPolicy) (key utilization : ℕ) (r : RetentionInputs)
      → 850 ≤ utilization
      → utilization < 950
      → admission_decision_with_retention digest p key r utilization
        ≡ against_victim
            (score (max (estimate digest p key) 1) r)
            (min_by_key precedes (on_probation p))
  unfolding admission_decision_with_retention
  decision-against p key utilization r from to = ground arith

  -- From 850 and below 950 thousandths of utilization, an object is admitted where nothing known is
  -- in probation. Otherwise there is an object in probation that against each of them is no later in
  -- the order of score, time of last access and key: the decision is to admit over that one where it
  -- scores lower than the object, and else nothing in probation scores lower and it is to reject.
  pub admission_decision_weakest :
      (p : TinyLfuPolicy) (key utilization : ℕ) (r : RetentionInputs)
      → 850 ≤ utilization
      → utilization < 950
      → ((on_probation p ≡ [])
          × (admission_decision_with_retention digest p key r utilization ≡ admit))
        ⊎ ((v : Candidate) × ((lookup v.0 p.entries ≡ some v.1)
              × (Mem v (on_probation p)
                  × (All (λ c. IsNoLater v c) (on_probation p)
                      × Weighed
                          (score (max (estimate digest p key) 1) r)
                          v
                          (on_probation p)
                          (admission_decision_with_retention digest p key r utilization)))))
  unfolding against_victim
  admission_decision_weakest p key utilization r from to =
      let same = decision-against p key utilization r from to in
      elim (Option-cases (min_by_key precedes (on_probation p))) [
        | inl nothing ↦ inl (
          min_by_key-none precedes (on_probation p) nothing,
          same ∙ ap (against_victim (score (max (estimate digest p key) 1) r)) nothing,
        )
        | inr (v, found) ↦
            let (known, (there, least)) = min_by_key-probation p v found in
            inr (
              v,
              (
                known,
                (
                  there,
                  (
                    least,
                    rw (same, found)
                        (against_victim-Weighed (score (max (estimate digest p key) 1) r) v
                          (on_probation p) least),
                  ),
                ),
              ),
            )
      ]
