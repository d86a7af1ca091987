-- ===== src/Store/Replay.antt =====
-- crates/kvpack/src/store/policy/replay.rs: the replay of a cache trace under five policies.
-- A method of `&mut self` returns the new state; `digest` is the hash of the sketch.
pub mod Victim
pub mod Room
pub mod Ends
pub mod Trace
pub mod Outcomes
pub mod Running
pub mod Total
use kvpack.Base.{ℕ, zero, suc, ◌+◌, ◌-◌, ◌*◌, ◌/◌, ◌<◌, min, max, List, [], ◌∷◌, ◌++◌, Bool, true}
use kvpack.Base.{
  false, ◌||◌, not, Option, none, some, ltb, leb, ◌==◌, if◌then◌else◌, max_u64, length,
}
use kvpack.Base.{saturating_add, Result, ok, err, ◌>>=◌, fail_if, ◌>>◌}
use kvpack.Base.Maps.{lookup, insert, remove, modify}
use kvpack.Store.Retention.{StoreError, state, RetentionInputs, validate}
use kvpack.Store.Policy
use kvpack.Store.Policy.{TinyLfuPolicy, production, remove_key, touch, remove_object}
use kvpack.Store.Policy.Access.{register_with_retention, record_access_with_retention}
use kvpack.Store.Policy.Admission
use kvpack.Store.Policy.Admission.{AdmissionDecision, min_by_key, automatic_admission_decision}

pub data CacheReplayPolicy : Type 0 where
  lru lfu tiny_lfu arc clock_pro : CacheReplayPolicy

pub data CacheReplayTier : Type 0 where
  resident local gateway : CacheReplayTier

pub record ReplayTierProfile : Type 0 where
  pub bytes_per_second : ℕ
  pub fixed_latency_ns : ℕ
  pub initially_available : Bool

pub record CacheReplayConfig : Type 0 where
  pub capacity_bytes : ℕ
  pub maximum_entries : ℕ
  pub resident_profile : ReplayTierProfile
  pub local_profile : ReplayTierProfile
  pub gateway_profile : ReplayTierProfile

pub data CacheTraceEvent : Type 0 where
  access : ℕ → CacheReplayTier → RetentionInputs → CacheTraceEvent
  source_failed source_recovered : CacheReplayTier → CacheTraceEvent

pub data CacheReplayOutcome : Type 0 where
  hit_outcome miss_admitted miss_rejected source_unavailable : CacheReplayOutcome

pub record CacheReplayResult : Type 0 where
  pub outcomes : List CacheReplayOutcome
  pub evictions : List ℕ
  pub hits : ℕ
  pub misses : ℕ
  pub admitted : ℕ
  pub rejected : ℕ
  pub source_failures : ℕ
  pub resident_bytes : ℕ
  pub total_service_ns : ℕ

pub record ReplayEntry : Type 0 where
  pub retention : RetentionInputs
  pub frequency : ℕ
  pub last_access : ℕ
  pub referenced : Bool
  pub hot : Bool

pub record ReplayState : Type 0 where
  pub policy : CacheReplayPolicy
  pub config : CacheReplayConfig
  pub entries : List (ℕ × ReplayEntry)
  pub stored_bytes : ℕ
  pub tick : ℕ
  pub tiny : TinyLfuPolicy
  pub arc_recent : List ℕ
  pub arc_frequent : List ℕ
  pub arc_recent_ghost : List ℕ
  pub arc_frequent_ghost : List ℕ
  pub arc_target_bytes : ℕ
  pub clock : List ℕ

-- An entry as `hit` leaves it.
unfoldable pub hit_entry : ℕ → RetentionInputs → ReplayEntry → ReplayEntry
hit_entry tick retention entry = record {
  retention = retention;
  frequency = saturating_add entry.frequency 1;
  last_access = tick;
  referenced = true;
  hot = entry.hot || leb 2 (saturating_add entry.frequency 1);
}

unfoldable pub arc_hit : ℕ → ReplayState → ReplayState
arc_hit key s =
    let (recent, found) = remove_key s.arc_recent key in
    record s {
      arc_recent = recent;
      arc_frequent = if found then s.arc_frequent ++ (key ∷ []) else touch s.arc_frequent key;
    }

-- The ARC lists and target of `insert`.
unfoldable pub arc_insert : ℕ → ℕ → ReplayState → ReplayState
arc_insert key bytes s =
    let (recent_ghost, in_recent) = remove_key s.arc_recent_ghost key in
    let (frequent_ghost, in_frequent) = remove_key s.arc_frequent_ghost key in
    if in_recent
    then record s {
      arc_recent_ghost = recent_ghost;
      arc_target_bytes = min (saturating_add s.arc_target_bytes bytes) s.config.capacity_bytes;
      arc_frequent = s.arc_frequent ++ (key ∷ []);
    }
    else (if in_frequent
        then record s {
          arc_frequent_ghost = frequent_ghost;
          arc_target_bytes = s.arc_target_bytes - bytes;
          arc_frequent = s.arc_frequent ++ (key ∷ []);
        }
        else record s { arc_recent = s.arc_recent ++ (key ∷ []) })

module _ (digest : ℕ → ℕ → ℕ) where
  unfoldable pub hit : ℕ → RetentionInputs → ReplayState → ReplayState
  hit key retention before =
      let s = record before {
        entries = modify key (hit_entry before.tick retention) before.entries;
      } in
      elim s.policy [
        | tiny_lfu ↦ record s {
          tiny = record_access_with_retention digest key retention s.tick s.tiny;
        }
        | arc ↦ arc_hit key s
        | clock_pro ↦ s
        | lru ↦ s
        | lfu ↦ s
      ]

  unfoldable pub insert_object : ℕ → RetentionInputs → ReplayState → ReplayState
  insert_object key retention before =
      let s = record before {
        stored_bytes = saturating_add before.stored_bytes retention.physical_bytes;
        entries =
            insert key
              (record {
                retention = retention;
                frequency = 1;
                last_access = before.tick;
                referenced = true;
                hot = false;
              })
              before.entries;
      } in
      elim s.policy [
        | tiny_lfu ↦ record s { tiny = register_with_retention digest key retention s.tick s.tiny }
        | arc ↦ arc_insert key retention.physical_bytes s
        | clock_pro ↦ record s { clock = s.clock ++ (key ∷ []) }
        | lru ↦ s
        | lfu ↦ s
      ]

-- `retain(|key| seen.insert(*key))`: the queue that is left, and the set after it.
unfoldable pub contains : ℕ → List ℕ → Bool
contains key [] = false
contains key (k ∷ ks) = if key == k then true else contains key ks

unfoldable pub retain_new : List ℕ → List ℕ → List ℕ × List ℕ
retain_new [] seen = ([], seen)
retain_new (key ∷ queue) seen =
    let kept = retain_new queue (key ∷ seen) in
    let rest = retain_new queue seen in if contains key seen then rest else (key ∷ kept.0, kept.1)

-- `pop_front` of a queue, its result dropped.
unfoldable pub popped : List ℕ → List ℕ
popped [] = []
popped (key ∷ queue) = queue

-- The `while` of `trim_ghosts`; a round shortens one queue, so both lengths are rounds enough.
unfoldable pub trim_loop : ℕ → ℕ → List ℕ → List ℕ → List ℕ × List ℕ
trim_loop zero maximum_entries recent frequent = (recent, frequent)
trim_loop (suc rounds) maximum_entries recent frequent =
    let fewer_recent = trim_loop rounds maximum_entries (popped recent) frequent in
    let fewer_frequent = trim_loop rounds maximum_entries recent (popped frequent) in
    if ltb maximum_entries (saturating_add (length recent) (length frequent))
    then (if leb (length frequent) (length recent) then fewer_recent else fewer_frequent)
    else (recent, frequent)

unfoldable pub trim_ghosts : List ℕ → List ℕ → ℕ → List ℕ × List ℕ
trim_ghosts recent frequent maximum_entries =
    let (kept_recent, seen) = retain_new recent [] in
    let kept_frequent = (retain_new frequent seen).0 in
    trim_loop (length kept_recent + length kept_frequent) maximum_entries kept_recent kept_frequent
