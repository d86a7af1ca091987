-- ===== src/Store/Tests.antt =====
-- crates/kvpack/src/store: the theorems at concrete policies.
use kvpack.Base.{ℕ, ◌+◌, ◌*◌, ◌≤◌, ◌<◌, ◌≡◌, refl, ◌↔◌, ◌⊎◌, inl, List, [], ◌∷◌, All, none}
use kvpack.Base.{some, min, true, false, arith}
use kvpack.Base.Maps.{lookup, IsUnique, total}
use kvpack.Store.Retention.{RetentionInputs, score, benefit_ns, max_i64}
use kvpack.Store.Retention.{access_flush_schedule, access_flush_hard_bound_ns}
use kvpack.Store.Retention.{access_flush_interval_ns}
use kvpack.Store.Retention.Score.{score_mono, access_flush_schedule_bounds}
use kvpack.Store.Policy.{PolicyEntry, RetentionSegment, probationary, protected}
use kvpack.Store.Policy.{TinyLfuPolicy, estimate, increment, demote_protected_overflow}
use kvpack.Store.Policy.{protected_bound, is_protected}
use kvpack.Store.Policy.Demotion.{IsBalanced, queue_bytes, bytes_of}
use kvpack.Store.Policy.Demotion.{demote_protected_overflow-bounded}
use kvpack.Store.Policy.Sketch.{IsSketch, estimate-increment_grows, estimate-increment_counts}
use kvpack.Store.Policy.Admission.{
  candidates, precedes_victim, precedes, min_by_key, least_from, victim,
}
use kvpack.Base.{max, ok, length}
use kvpack.Store.Retention.{validate}
use kvpack.Store.Policy.{production, is_power_of_two}
use kvpack.Store.Policy
use kvpack.Base.Maps.{insert, modify}
use kvpack.Store.Replay.{
  CacheTraceEvent, access, source_failed, local, CacheReplayResult, miss_admitted, hit_outcome,
  source_unavailable, hit, hit_entry, insert_object,
}
use kvpack.Base.Maps.{remove}
use kvpack.Store.Replay.Victim.{evict, forget, is_crowded}
use kvpack.Store.Replay.Trace.{
  replay_cache_policy, replay_events, replay_event, access_object, miss, missed, served,
  unavailable, decide, follow, place_object, after_room, admitted_object, with_outcome,
  validate_replay_config, start, finished, is_available, set_available, profile, replay_service_ns,
}
use kvpack.Store.Replay.Outcomes.{accesses}
use kvpack.Store.Replay.Ends.{IsDecided, make_room_ends}
use kvpack.Store.Replay.Total.{AreValid, replay_cache_policy_total}
use kvpack.Base.Maps.{IsUnique}
use kvpack.Base.{Bool}
use kvpack.Store.Policy.{estimate_rows, sketch_index}
use kvpack.Store.Retention.{promotion_ns, effective_bytes, marginal_physical_bytes, bounded_score}
use kvpack.Store.Policy.Admission.{
  admission_decision_with_retention, against_victim, admit_over_victim, admit, Candidate,
}
use mathlib.Core.List.{Mem}
use kvpack.Store.Policy.Decision.{on_probation, Weighed, admission_decision_weakest}
use kvpack.Store.Policy.Least.{evictable, IsNoLater, IsNoLaterVictim, victim_least}
use kvpack.Store.Replay.{ReplayEntry, ReplayState, ReplayTierProfile, lru}
use kvpack.Base.Maps.{remove}
use kvpack.Store.Replay.Victim.{evict, forget, make_room}
use kvpack.Store.Replay.Room.{IsRanked, IsAccounted, HasRoom, make_room-succeeds}

abbrev inputs : RetentionInputs
inputs = record {
  predicted_reuse_millis = 500;
  avoided_prefill_ns = 90_000;
  best_restore_ns = 10_000;
  physical_bytes = 40;
  shared_ancestor_bytes = 8;
  write_wear_bytes = 2;
  promotion_bandwidth_bytes_per_second = 0;
  queue_interference_ns = 100;
}

score_mono_example :
    (score 2 inputs ≤ score 5 inputs)
    × (score 5 inputs ≤ max_i64)
    × ((score 2 inputs ≡ 0) ↔ (
        (inputs.physical_bytes ≡ 0)
        ⊎ (inputs.predicted_reuse_millis ≡ 0)
        ⊎ (benefit_ns inputs ≡ 0)))
score_mono_example = score_mono 2 5 inputs (omega arith)

access_flush_schedule_bounds_example :
    let s = access_flush_schedule 100 (some 200) 300 in
    (s.hard_deadline_ns ≡ 100 + access_flush_hard_bound_ns)
    × ((s.overdue ≡ true) ↔ (s.hard_deadline_ns < 300))
    × (((300 < s.hard_deadline_ns)
          × (s.next_attempt_ns ≤ s.hard_deadline_ns)
          × (100 + access_flush_interval_ns ≤ s.next_attempt_ns))
        ⊎ ((s.hard_deadline_ns ≤ 300) × (300 + access_flush_interval_ns ≤ s.next_attempt_ns)))
access_flush_schedule_bounds_example =
    access_flush_schedule_bounds 100 300 (some 200) (omega arith) (omega arith)

abbrev entry : ℕ → ℕ → RetentionSegment → PolicyEntry
entry bytes scored segment = record {
  object_bytes = bytes;
  retention = inputs;
  frequency = 2;
  score = scored;
  segment = segment;
  last_access_ns = 9;
}

-- Two protected objects of 700 bytes, where 500 are allowed, and one in probation.
abbrev policy : TinyLfuPolicy
policy = record {
  config = record {
    capacity_bytes = 1000;
    sketch_width = 2;
    reset_after_accesses = 1_000_000;
    protected_fraction_millis = 500;
  };
  sketch = 1 ∷ 0 ∷ 65_535 ∷ 2 ∷ 0 ∷ 0 ∷ 3 ∷ 1 ∷ [];
  accesses = 4;
  entries =
      (1, entry 400 7 protected) ∷ (2, entry 300 3 protected) ∷ (3, entry 50 5 probationary) ∷ [];
  probation = 3 ∷ [];
  protection = 1 ∷ 2 ∷ [];
  protected_bytes = 700;
  pending = [];
}

policy-IsBalanced : IsBalanced policy
unfolding IsBalanced queue_bytes bytes_of lookup
policy-IsBalanced = refl

demote_protected_overflow-bounded_example :
    IsBalanced (demote_protected_overflow policy)
    × ((demote_protected_overflow policy).protected_bytes ≤ protected_bound policy.config)
demote_protected_overflow-bounded_example =
    demote_protected_overflow-bounded policy policy-IsBalanced

abbrev digest : ℕ → ℕ → ℕ
digest row key = row + key * 3

policy-IsSketch : IsSketch policy.sketch
unfolding IsSketch
policy-IsSketch = ground arith

estimate-increment_grows_example :
    estimate digest policy 2 ≤ estimate digest (increment digest policy 1) 2
estimate-increment_grows_example = estimate-increment_grows digest policy 1 2 policy-IsSketch

estimate-increment_counts_example :
    min (estimate digest policy 1 + 1) 0xffff ≤ estimate digest (increment digest policy 1) 1
estimate-increment_counts_example =
    estimate-increment_counts digest policy 1 policy-IsSketch (omega arith) refl

policy_victim : victim policy ≡ some 3
unfolding victim candidates precedes_victim precedes min_by_key least_from is_protected lookup
policy_victim = refl

victim_least_example :
    ((victim policy ≡ none) × (evictable policy ≡ []))
    ⊎ ((key : ℕ) × (e : PolicyEntry) × ((victim policy ≡ some key)
          × ((lookup key policy.entries ≡ some e)
              × (Mem (key, e) (evictable policy)
                  × All (λ c. IsNoLaterVictim (key, e) c) (evictable policy)))))
victim_least_example = victim_least policy

abbrev stored : ℕ → ReplayEntry
stored last_access = record {
  retention = inputs;
  frequency = 1;
  last_access = last_access;
  referenced = true;
  hot = false;
}

abbrev tier : ReplayTierProfile
tier = record { bytes_per_second = 1; fixed_latency_ns = 0; initially_available = true }

-- Two objects of 40 bytes in a cache of 100.
abbrev cache : ReplayState
cache = record {
  policy = lru;
  config = record {
    capacity_bytes = 100;
    maximum_entries = 4;
    resident_profile = tier;
    local_profile = tier;
    gateway_profile = tier;
  };
  entries = (1, stored 6) ∷ (2, stored 5) ∷ [];
  stored_bytes = 80;
  tick = 6;
  tiny = policy;
  arc_recent = [];
  arc_frequent = [];
  arc_recent_ghost = [];
  arc_frequent_ghost = [];
  arc_target_bytes = 50;
  clock = [];
}

cache-IsRanked : IsRanked cache.policy
unfolding IsRanked
cache-IsRanked = inl refl

cache-IsAccounted : IsAccounted cache
unfolding IsAccounted IsUnique total lookup
cache-IsAccounted = ((refl, (refl, tt)), refl)

make_room-succeeds_example :
    (t : ReplayState) × (evicted : List ℕ) × ((make_room 3 60 none cache []
        ≡ some (true, (t, evicted)))
      × (HasRoom 60 cache t × IsAccounted t))
make_room-succeeds_example =
    make_room-succeeds 3 60 none cache [] (omega arith) cache-IsRanked cache-IsAccounted
      (omega arith) (omega arith)

-- The same with 25 bytes counted that no entry has.
abbrev miscounted : ReplayState
miscounted = record cache { stored_bytes = 105 }

cache-IsUnique : IsUnique cache.entries
unfolding IsUnique lookup
cache-IsUnique = (refl, (refl, tt))

make_room_ends_example :
    (is_room : Bool) × (t : ReplayState) × (evicted : List ℕ) × ((make_room 3 80 none miscounted []
        ≡ some (is_room, (t, evicted)))
      × (IsDecided 80 miscounted is_room t
          × (IsUnique t.entries × ((length t.entries ≤ 2) × (t.config ≡ cache.config)))))
make_room_ends_example =
    make_room_ends 3 80 none miscounted [] (omega arith) cache-IsRanked cache-IsUnique

-- Key 9 against the object in probation.
policy_decision : admission_decision_with_retention digest policy 9 inputs 900 ≡ admit_over_victim 3
unfolding admission_decision_with_retention against_victim min_by_key least_from candidates lookup
    precedes estimate estimate_rows sketch_index score benefit_ns promotion_ns effective_bytes
    marginal_physical_bytes bounded_score
policy_decision = refl

admission_decision_weakest_example :
    ((on_probation policy ≡ [])
      × (admission_decision_with_retention digest policy 9 inputs 900 ≡ admit))
    ⊎ ((v : Candidate) × ((lookup v.0 policy.entries ≡ some v.1)
          × (Mem v (on_probation policy)
              × (All (λ c. IsNoLater v c) (on_probation policy)
                  × Weighed
                      (score (max (estimate digest policy 9) 1) inputs)
                      v
                      (on_probation policy)
                      (admission_decision_with_retention digest policy 9 inputs 900)))))
admission_decision_weakest_example =
    admission_decision_weakest digest policy 9 900 inputs (omega arith) (omega arith)

-- A miss, a hit, a source that fails, and a miss that it cannot serve.
abbrev trace : List CacheTraceEvent
trace =
    access 1 local inputs ∷ access 1 local inputs ∷ source_failed local ∷ access 2 local inputs ∷ []

abbrev replayed : CacheReplayResult
replayed = record {
  outcomes = miss_admitted ∷ hit_outcome ∷ source_unavailable ∷ [];
  evictions = [];
  hits = 1;
  misses = 2;
  admitted = 1;
  rejected = 0;
  source_failures = 1;
  resident_bytes = 40;
  total_service_ns = 40_000_100_100;
}

trace-replayed : replay_cache_policy digest 3 lru cache.config trace ≡ ok (some replayed)
unfolding replay_cache_policy replay_events replay_event access_object miss missed served
    unavailable decide follow place_object after_room admitted_object with_outcome
    validate_replay_config start finished is_available set_available profile replay_service_ns
    make_room is_crowded hit hit_entry insert_object lookup insert modify production Policy.new
    is_power_of_two validate
trace-replayed = refl

trace-valid : validate_replay_config cache.config (length trace) ≡ ok tt
unfolding validate_replay_config
trace-valid = refl

trace-AreValid : AreValid trace
unfolding AreValid validate
trace-AreValid = (refl, (refl, (refl, tt)))

replay_cache_policy_total_example :
    (result : CacheReplayResult) × ((replay_cache_policy digest 5 lru cache.config trace
        ≡ ok (some result))
      × (length result.outcomes ≡ accesses trace))
replay_cache_policy_total_example =
    replay_cache_policy_total digest 5 lru cache.config trace cache-IsRanked trace-valid
      trace-AreValid (omega arith)

-- An empty cache, and inputs that differ only in the bytes of the object.
abbrev empty_cache : ReplayState
empty_cache = record cache { entries = []; stored_bytes = 0 }

abbrev sized : ℕ → RetentionInputs
sized bytes = record inputs { physical_bytes = bytes }

-- An object of 80 bytes is stored, hit with inputs of 10 bytes, and evicted: 70 bytes stay counted.
drifted : ReplayState
drifted = evict 1 (hit digest 1 (sized 10) (insert_object digest 1 (sized 80) empty_cache))

drifted-bytes : (drifted.entries ≡ []) × (drifted.stored_bytes ≡ 70)
unfolding drifted evict forget hit hit_entry insert_object lookup insert remove modify
drifted-bytes = (refl, refl)
