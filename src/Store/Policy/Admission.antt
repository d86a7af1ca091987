-- ===== src/Store/Policy/Admission.antt =====
-- crates/kvpack/src/store/policy.rs: the admission decisions, `victim`, and the pending accesses.
use kvpack.Base.{ℕ, List, [], ◌∷◌, ◌++◌, Bool, true, false, Option, none, some, ltb, leb, ◌==◌, max}
use kvpack.Base.{if◌then◌else◌, Result, ok, ◌>>=◌}
use kvpack.Base.Maps.{lookup, insert}
use kvpack.Store.Retention.{StoreError, RetentionInputs, conservative, validate, score}
use kvpack.Store.Policy.{PolicyEntry, PendingPolicyAccess, TinyLfuPolicy, is_protected, increment}
use kvpack.Store.Policy.{estimate}
use kvpack.Store.Policy.Access.{count_access}

pub data AdmissionDecision : Type 0 where
  admit : AdmissionDecision
  admit_over_victim : ℕ → AdmissionDecision
  reject_lower_frequency reject_promotion_stopped : AdmissionDecision

-- A candidate of `min_by_key`: the key with its entry.
abbrev pub Candidate : Type 0
Candidate = ℕ × PolicyEntry

-- `filter_map(|key| self.entries.get(key).map(|entry| (*key, entry)))`.
unfoldable pub candidates : List (ℕ × PolicyEntry) → List ℕ → List Candidate
candidates entries [] = []
candidates entries (key ∷ queue) = elim (lookup key entries) [
  | none ↦ candidates entries queue
  | some entry ↦ (key, entry) ∷ candidates entries queue
]

-- `(score, last_access_ns, key)` in lexicographic order.
unfoldable pub precedes : Candidate → Candidate → Bool
precedes (k, e) (j, f) =
    if ltb e.score f.score
    then true
    else (if e.score == f.score
        then (if ltb e.last_access_ns f.last_access_ns
            then true
            else (if e.last_access_ns == f.last_access_ns then ltb k j else false))
        else false)

-- The same with `segment == Protected` in front.
unfoldable pub precedes_victim : Candidate → Candidate → Bool
precedes_victim (k, e) (j, f) =
    if is_protected e.segment
    then (if is_protected f.segment then precedes (k, e) (j, f) else false)
    else (if is_protected f.segment then true else precedes (k, e) (j, f))

-- `min_by_key` keeps the first of several least candidates.
unfoldable pub least_from : {C : Type 0} → (C → C → Bool) → C → List C → C
least_from before best [] = best
least_from before best (c ∷ cs) = least_from before (if before c best then c else best) cs

unfoldable pub min_by_key : {C : Type 0} → (C → C → Bool) → List C → Option C
min_by_key before [] = none
min_by_key before (c ∷ cs) = some (least_from before c cs)

unfoldable pub victim : TinyLfuPolicy → Option ℕ
victim p = elim (min_by_key precedes_victim (candidates p.entries (p.probation ++ p.protection))) [
  | none ↦ none
  | some c ↦ some c.0
]

-- The choice between the candidate and the cheapest object in probation.
unfoldable pub against_victim : ℕ → Option Candidate → AdmissionDecision
against_victim candidate_score none = admit
against_victim candidate_score (some (key, entry)) =
    if ltb entry.score candidate_score then admit_over_victim key else reject_lower_frequency

module _ (digest : ℕ → ℕ → ℕ) where
  unfoldable pub admission_decision_with_retention :
      TinyLfuPolicy → ℕ → RetentionInputs → ℕ → AdmissionDecision
  admission_decision_with_retention p key retention utilization_millis =
      if leb 950 utilization_millis
      then reject_promotion_stopped
      else (if ltb utilization_millis 850
          then admit
          else against_victim (score (max (estimate digest p key) 1) retention)
              (min_by_key precedes (candidates p.entries p.probation)))

  unfoldable pub admission_decision : TinyLfuPolicy → ℕ → ℕ → ℕ → ℕ → AdmissionDecision
  admission_decision p key object_bytes avoided_recompute_ns =
      admission_decision_with_retention p key (conservative object_bytes avoided_recompute_ns)

  -- The decision, and the policy after it.
  unfoldable pub automatic_admission_decision :
      TinyLfuPolicy
      → ℕ
      → RetentionInputs
      → ℕ
      → Result StoreError (AdmissionDecision × TinyLfuPolicy)
  automatic_admission_decision p key retention utilization_millis = do
    valid ← validate retention
    let counted = increment digest p key
    let decision = admission_decision_with_retention counted key valid utilization_millis
    ok (decision, count_access counted)

-- `drain_pending`, `restore_pending`, `has_pending` and `oldest_pending_ns`.
unfoldable pub values : List (ℕ × PendingPolicyAccess) → List PendingPolicyAccess
values [] = []
values ((key, access) ∷ pending) = access ∷ values pending

unfoldable pub drain_pending : TinyLfuPolicy → List PendingPolicyAccess × TinyLfuPolicy
drain_pending p = (values p.pending, record p { pending = [] })

unfoldable pub restore_pending : List PendingPolicyAccess → TinyLfuPolicy → TinyLfuPolicy
restore_pending [] p = p
restore_pending (access ∷ accesses) p =
    restore_pending accesses (record p { pending = insert access.object_key access p.pending })
