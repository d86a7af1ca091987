-- ===== src/Store/Replay/Trace.antt =====
-- crates/kvpack/src/store/policy/replay.rs: `replay_cache_policy`, the run over a trace.
use kvpack.Base.{ℕ, ◌-◌, ◌*◌, ◌/◌, min, List, [], ◌∷◌, ◌++◌, Bool, true, false, ◌||◌, Option}
use kvpack.Base.{
  none, some, ltb, ◌==◌, if◌then◌else◌, max_u64, length, saturating_add, Result, ok, err,
}
use kvpack.Base.{◌>>=◌}
use kvpack.Base.Maps.{lookup}
use kvpack.Store.Retention.{StoreError, state, RetentionInputs, validate, saturating_add_128}
use kvpack.Store.Retention.{saturating_mul_128}
use kvpack.Store.Policy
use kvpack.Store.Policy.{production, TinyLfuPolicy}
use kvpack.Store.Policy.Admission.{
  AdmissionDecision, admit, admit_over_victim, reject_lower_frequency,
}
use kvpack.Store.Policy.Admission.{reject_promotion_stopped, automatic_admission_decision}
use kvpack.Store.Replay.{CacheReplayPolicy, CacheReplayTier, ReplayTierProfile, CacheReplayConfig}
use kvpack.Store.Replay.{CacheTraceEvent, CacheReplayOutcome, CacheReplayResult, ReplayState, hit}
use kvpack.Store.Replay.{
  insert_object, lru, lfu, tiny_lfu, arc, clock_pro, resident, local, gateway,
}
use kvpack.Store.Replay.{access, source_failed, source_recovered, hit_outcome, miss_admitted}
use kvpack.Store.Replay.{miss_rejected, source_unavailable}
use kvpack.Store.Replay.Victim.{make_room}

unfoldable pub validate_replay_config : CacheReplayConfig → ℕ → Result StoreError (Unit {0})
validate_replay_config config event_count =
    if (config.capacity_bytes == 0)
      || ((config.maximum_entries == 0)
          || (ltb 10_000_000 event_count
              || ((config.resident_profile.bytes_per_second == 0)
                  || ((config.local_profile.bytes_per_second == 0)
                      || (config.gateway_profile.bytes_per_second == 0)))))
    then err (state "cache replay configuration is invalid")
    else ok tt

unfoldable pub profile : CacheReplayConfig → CacheReplayTier → ReplayTierProfile
profile config resident = config.resident_profile
profile config local = config.local_profile
profile config gateway = config.gateway_profile

unfoldable pub replay_service_ns : ReplayTierProfile → RetentionInputs → ℕ
replay_service_ns profile retention =
    let scaled = saturating_mul_128 retention.physical_bytes 1_000_000_000 in
    let transfer =
      min (saturating_add_128 scaled (profile.bytes_per_second - 1) / profile.bytes_per_second)
        max_u64 in
    saturating_add
      (saturating_add (saturating_add profile.fixed_latency_ns transfer) retention.best_restore_ns)
      retention.queue_interference_ns

-- `availability`, the map from the three tiers.
pub record Availability : Type 0 where
  pub resident_up : Bool
  pub local_up : Bool
  pub gateway_up : Bool

unfoldable pub is_available : Availability → CacheReplayTier → Bool
is_available a resident = a.resident_up
is_available a local = a.local_up
is_available a gateway = a.gateway_up

unfoldable pub set_available : Availability → CacheReplayTier → Bool → Availability
set_available a resident up = record a { resident_up = up }
set_available a local up = record a { local_up = up }
set_available a gateway up = record a { gateway_up = up }

-- The locals of the run.
pub record Replay : Type 0 where
  pub cache : ReplayState
  pub availability : Availability
  pub result : CacheReplayResult

unfoldable pub with_outcome : CacheReplayOutcome → CacheReplayResult → CacheReplayResult
with_outcome outcome r = record r { outcomes = r.outcomes ++ (outcome ∷ []) }

unfoldable pub rejection : Replay → Replay
rejection r = record r {
  result =
      with_outcome miss_rejected
        (record (r.result) { rejected = saturating_add r.result.rejected 1 });
}

-- `projected`, a share of the capacity in thousandths.
unfoldable pub projected : ReplayState → ℕ → ℕ
projected s bytes =
    if s.config.capacity_bytes == 0
    then 1000
    else min (min (saturating_add s.stored_bytes bytes * 1000) max_u64 / s.config.capacity_bytes)
        1000

-- A miss is counted; then its source is not available, or it serves the object.
unfoldable pub missed : Replay → Replay
missed r = record r { result = record (r.result) { misses = saturating_add r.result.misses 1 } }

unfoldable pub unavailable : RetentionInputs → Replay → Replay
unavailable retention r = record r {
  result = with_outcome source_unavailable (record (r.result) {
    source_failures = saturating_add r.result.source_failures 1;
    total_service_ns = saturating_add r.result.total_service_ns retention.avoided_prefill_ns;
  });
}

unfoldable pub served : CacheReplayTier → RetentionInputs → Replay → Replay
served tier retention r = record r {
  result = record (r.result) {
    total_service_ns =
        saturating_add r.result.total_service_ns
          (replay_service_ns (profile r.cache.config tier) retention);
  };
}

module _ (digest : ℕ → ℕ → ℕ) where
  unfoldable pub admitted_object : ℕ → RetentionInputs → Replay → Replay
  admitted_object key retention r = record r {
    cache = insert_object digest key retention r.cache;
    result =
        with_outcome miss_admitted
          (record (r.result) { admitted = saturating_add r.result.admitted 1 });
  }

  unfoldable pub after_room : ℕ → RetentionInputs → Replay → Bool × (ReplayState × List ℕ) → Replay
  after_room key retention r (is_room, (cache, evictions)) =
      let after = record r {
        cache = cache;
        result = record (r.result) { evictions = evictions };
      } in
      if is_room then admitted_object key retention after else rejection after

  -- From the check of the object's size to the end of the turn of the loop.
  unfoldable pub place_object : ℕ → ℕ → RetentionInputs → Option ℕ → Replay → Option Replay
  place_object fuel key retention preferred r =
      let room : Option Replay =
        elim (make_room fuel retention.physical_bytes preferred r.cache r.result.evictions) [
          | none ↦ none
          | some outcome ↦ some (after_room key retention r outcome)
        ] in
      if ltb r.cache.config.capacity_bytes retention.physical_bytes
      then some (rejection r)
      else room

  -- The decision of TinyLFU, where that is the policy; the others take no part in it.
  unfoldable pub decide :
      ℕ → RetentionInputs → Replay → Result StoreError (AdmissionDecision × Replay)
  decide key retention r =
      let asked = (do
        (decision, tiny) ←
            automatic_admission_decision digest r.cache.tiny key retention
              (projected r.cache retention.physical_bytes)
        ok (decision, record r { cache = record (r.cache) { tiny = tiny } })) in
      elim r.cache.policy [
        | tiny_lfu ↦ asked
        | lru ↦ ok (admit, r)
        | lfu ↦ ok (admit, r)
        | arc ↦ ok (admit, r)
        | clock_pro ↦ ok (admit, r)
      ]

  unfoldable pub follow : ℕ → ℕ → RetentionInputs → AdmissionDecision → Replay → Option Replay
  follow fuel key retention admit r = place_object fuel key retention none r
  follow fuel key retention (admit_over_victim v) r = place_object fuel key retention (some v) r
  follow fuel key retention reject_lower_frequency r = some (rejection r)
  follow fuel key retention reject_promotion_stopped r = some (rejection r)

  -- A miss, from the count of it on.
  unfoldable pub miss :
      ℕ → ℕ → CacheReplayTier → RetentionInputs → Replay → Result StoreError (Option Replay)
  miss fuel key tier retention r =
      let decided = (do
        (decision, after) ← decide key retention (served tier retention (missed r))
        ok (follow fuel key retention decision after)) in
      if is_available r.availability tier
      then decided
      else ok (some (unavailable retention (missed r)))

  unfoldable pub access_object :
      ℕ → ℕ → CacheReplayTier → RetentionInputs → Replay → Result StoreError (Option Replay)
  access_object fuel key tier inputs before = do
    retention ← validate inputs
    let r = record before {
      cache = record (before.cache) { tick = saturating_add before.cache.tick 1 };
    }
    elim (lookup key r.cache.entries) [
      | none ↦ miss fuel key tier retention r
      | some entry ↦ ok (
          some (record r {
            cache = hit digest key retention r.cache;
            result =
                with_outcome hit_outcome
                  (record (r.result) { hits = saturating_add r.result.hits 1 });
          }))
    ]

  -- One event of the trace.
  unfoldable pub replay_event : ℕ → CacheTraceEvent → Replay → Result StoreError (Option Replay)
  replay_event fuel (source_failed tier) r =
      ok (some (record r { availability = set_available r.availability tier false }))
  replay_event fuel (source_recovered tier) r =
      ok (some (record r { availability = set_available r.availability tier true }))
  replay_event fuel (access key tier retention) r = access_object fuel key tier retention r

  unfoldable pub replay_events :
      ℕ → List CacheTraceEvent → Replay → Result StoreError (Option Replay)
  replay_events fuel [] r = ok (some r)
  replay_events fuel (event ∷ events) r = do
    next ← replay_event fuel event r
    elim next [ none ↦ ok none | some after ↦ replay_events fuel events after ]

  unfoldable pub finished : Option Replay → Option CacheReplayResult
  finished none = none
  finished (some r) = some (record (r.result) { resident_bytes = r.cache.stored_bytes })

  unfoldable pub start : CacheReplayPolicy → CacheReplayConfig → TinyLfuPolicy → Replay
  start policy config tiny = record {
    cache = record {
      policy = policy;
      config = config;
      entries = [];
      stored_bytes = 0;
      tick = 0;
      tiny = tiny;
      arc_recent = [];
      arc_frequent = [];
      arc_recent_ghost = [];
      arc_frequent_ghost = [];
      arc_target_bytes = config.capacity_bytes / 2;
      clock = [];
    };
    availability = record {
      resident_up = config.resident_profile.initially_available;
      local_up = config.local_profile.initially_available;
      gateway_up = config.gateway_profile.initially_available;
    };
    result = record {
      outcomes = [];
      evictions = [];
      hits = 0;
      misses = 0;
      admitted = 0;
      rejected = 0;
      source_failures = 0;
      resident_bytes = 0;
      total_service_ns = 0;
    };
  }

  -- `fuel` bounds the rounds of each `make_room`; none says that one of them still runs.
  unfoldable pub replay_cache_policy :
      ℕ
      → CacheReplayPolicy
      → CacheReplayConfig
      → List CacheTraceEvent
      → Result StoreError (Option CacheReplayResult)
  replay_cache_policy fuel policy config events = do
    checked ← validate_replay_config config (length events)
    tiny_config ← production config.capacity_bytes
    tiny ← Policy.new tiny_config
    last ← replay_events fuel events (start policy config tiny)
    ok (finished last)
