-- ===== src/Store/Policy/Simulation.antt =====
-- crates/kvpack/src/store/policy/replay.rs: `replay_tinylfu`, a run of the policy over its events.
use kvpack.Base.{ℕ, List, [], ◌∷◌, ◌++◌, Option, none, some, Result, ok, ◌>>=◌}
use kvpack.Store.Retention.{StoreError}
use kvpack.Store.Policy.{TinyLfuConfig, TinyLfuPolicy, remove_object, new}
use kvpack.Store.Policy.Access.{record_access}
use kvpack.Store.Policy.Admission.{AdmissionDecision, admission_decision, victim}

pub data PolicyReplayEvent : Type 0 where
  access : ℕ → ℕ → ℕ → ℕ → PolicyReplayEvent
  admission : ℕ → ℕ → ℕ → ℕ → PolicyReplayEvent
  evict : PolicyReplayEvent

pub record PolicyReplayResult : Type 0 where
  pub admissions : List AdmissionDecision
  pub victims : List (Option ℕ)

unfoldable pub remove_victim : Option ℕ → TinyLfuPolicy → TinyLfuPolicy
remove_victim none p = p
remove_victim (some key) p = remove_object p key

module _ (digest : ℕ → ℕ → ℕ) where
  unfoldable pub replay_policy_event :
      PolicyReplayEvent → TinyLfuPolicy × PolicyReplayResult → TinyLfuPolicy × PolicyReplayResult
  replay_policy_event (access key object_bytes avoided_recompute_ns now_ns) (p, r) =
      (record_access digest key object_bytes avoided_recompute_ns now_ns p, r)
  replay_policy_event (admission key object_bytes avoided_recompute_ns utilization_millis) (p, r) =
      let decision =
        admission_decision digest p key object_bytes avoided_recompute_ns utilization_millis in
      (p, record r { admissions = r.admissions ++ (decision ∷ []) })
  replay_policy_event evict (p, r) =
      (remove_victim (victim p) p, record r { victims = r.victims ++ (victim p ∷ []) })

  unfoldable pub replay_policy_events :
      List PolicyReplayEvent → TinyLfuPolicy × PolicyReplayResult → PolicyReplayResult
  replay_policy_events [] (p, r) = r
  replay_policy_events (event ∷ events) (p, r) =
      replay_policy_events events (replay_policy_event event (p, r))

  unfoldable pub replay_tinylfu :
      TinyLfuConfig → List PolicyReplayEvent → Result StoreError PolicyReplayResult
  replay_tinylfu config events = do
    p ← new config
    ok (replay_policy_events events (p, record { admissions = []; victims = [] }))
