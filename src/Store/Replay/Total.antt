-- ===== src/Store/Replay/Total.antt =====
-- crates/kvpack/src/store/policy/replay.rs: the replay of a valid trace under LRU and LFU.
use kvpack.Base.{
  ℕ, ◌<◌, ◌≡◌, refl, List, [], ◌∷◌, true, false, none, some, inl, inr, length, arith, Bool-cases,
  Option-cases, Result-cases, ok, ltb, ◌==◌, saturating_add,
}
use kvpack.Base.Maps.{lookup, IsUnique}
use kvpack.Store.Retention.{RetentionInputs, validate}
use kvpack.Store.Policy
use kvpack.Store.Policy.{production, TinyLfuPolicy, TinyLfuConfig, is_power_of_two}
use kvpack.Store.Policy.Admission.{admit}
use kvpack.Store.Replay.{
  CacheTraceEvent, access, source_failed, source_recovered, CacheReplayPolicy, CacheReplayConfig,
  CacheReplayTier, CacheReplayResult, hit, hit_outcome,
}
use kvpack.Store.Replay.Room.{IsRanked}
use kvpack.Store.Replay.Trace.{
  Replay, with_outcome, decide, follow, miss, missed, served, unavailable, is_available,
  access_object, replay_event, replay_events, finished, start, replay_cache_policy,
  validate_replay_config,
}
use kvpack.Store.Replay.Outcomes.{accesses, replay_cache_policy-accesses}
use kvpack.Store.Replay.Running.{IsRunning, decide-ranked, hit-IsRunning, place_object-ends}

-- The trace's inputs pass `validate`.
unfoldable pub AreValid : List CacheTraceEvent → Type 0
AreValid [] = Unit {0}
AreValid (access key tier inputs ∷ events) = (validate inputs ≡ ok inputs) × AreValid events
AreValid (source_failed tier ∷ events) = AreValid events
AreValid (source_recovered tier ∷ events) = AreValid events

module _ (digest : ℕ → ℕ → ℕ) where
  miss-ends :
      (fuel key : ℕ) (tier : CacheReplayTier) (retention : RetentionInputs) (r : Replay)
      → IsRunning fuel r.cache
      → lookup key r.cache.entries ≡ none
      → (t : Replay) × ((miss digest fuel key tier retention r ≡ ok (some t))
          × IsRunning fuel t.cache)
  unfolding miss follow served missed unavailable
  miss-ends fuel key tier retention r running absent =
      let serving = served tier retention (missed r) in
      let decided : decide digest key retention serving ≡ ok (admit, serving) =
        decide-ranked digest key retention serving running.ranked in
      let (t, (placed, after)) =
        place_object-ends digest fuel key retention serving running absent in
      elim (Bool-cases (is_available r.availability tier)) [
        | inl up ↦ (t, (rw (up, decided, placed) refl, after))
        | inr down ↦ (unavailable retention (missed r), (rw down refl, running))
      ]

  -- The turn of a hit.
  abbrev hit_turn : ℕ → RetentionInputs → Replay → Replay
  hit_turn key inputs r = record r {
    cache = hit digest key inputs r.cache;
    result = with_outcome hit_outcome (record (r.result) { hits = saturating_add r.result.hits 1 });
  }

  access_object-ends :
      (fuel key : ℕ) (tier : CacheReplayTier) (inputs : RetentionInputs) (r : Replay)
      → validate inputs ≡ ok inputs
      → IsRunning fuel r.cache
      → (t : Replay) × ((access_object digest fuel key tier inputs r ≡ ok (some t))
          × IsRunning fuel t.cache)
  unfolding access_object
  access_object-ends fuel key tier inputs r valid running =
      let ticked : Replay = record r {
        cache = record (r.cache) { tick = saturating_add r.cache.tick 1 };
      } in
      let going : IsRunning fuel ticked.cache = record {
        ranked = running.ranked;
        unique = running.unique;
        within = running.within;
        enough = running.enough;
      } in
      elim (Option-cases (lookup key r.cache.entries)) [
        | inl absent ↦
            let (t, (missed_it, after)) = miss-ends fuel key tier inputs ticked going absent in
            (t, (rw (valid, absent) missed_it, after))
        | inr (e, found) ↦ (
          hit_turn key inputs ticked,
          (rw (valid, found) refl, hit-IsRunning digest fuel key inputs ticked.cache going),
        )
      ]

  replay_event-ends :
      (fuel : ℕ) (event : CacheTraceEvent) (events : List CacheTraceEvent) (r : Replay)
      → AreValid (event ∷ events)
      → IsRunning fuel r.cache
      → (t : Replay) × ((replay_event digest fuel event r ≡ ok (some t))
          × (IsRunning fuel t.cache × AreValid events))
  unfolding replay_event AreValid
  replay_event-ends fuel (access key tier inputs) events r (valid, rest) running =
      let (t, (ran, after)) = access_object-ends fuel key tier inputs r valid running in
      (t, (ran, (after, rest)))
  replay_event-ends fuel (source_failed tier) events r valid running = (_, (refl, (running, valid)))
  replay_event-ends fuel (source_recovered tier) events r valid running =
      (_, (refl, (running, valid)))

  replay_events-ends :
      (fuel : ℕ) (events : List CacheTraceEvent) (r : Replay)
      → AreValid events
      → IsRunning fuel r.cache
      → (t : Replay) × (replay_events digest fuel events r ≡ ok (some t))
  unfolding replay_events
  replay_events-ends fuel [] r valid running = (r, refl)
  replay_events-ends fuel (event ∷ events) r valid running =
      let (t, (ran, (after, rest))) = replay_event-ends fuel event events r valid running in
      let (last, others) = replay_events-ends fuel events t rest after in (last, rw ran others)

  new-ok :
      (c : TinyLfuConfig)
      → ltb c.sketch_width 64 ≡ false
      → is_power_of_two 64 c.sketch_width ≡ true
      → (c.reset_after_accesses == 0) ≡ false
      → ltb 1000 c.protected_fraction_millis ≡ false
      → (p : TinyLfuPolicy) × (Policy.new c ≡ ok p)
  unfolding Policy.new
  new-ok c wide power resets fraction = elim (Result-cases (Policy.new c)) [
    | inl (e, bad) ↦ absurd (ground arith)
    | inr (p, made) ↦ (p, made)
  ]

  abbrev production_config : ℕ → TinyLfuConfig
  production_config capacity_bytes = record {
    capacity_bytes = capacity_bytes;
    sketch_width = 16_384;
    reset_after_accesses = 1_000_000;
    protected_fraction_millis = 800;
  }

  production-config :
      (config : CacheReplayConfig) (events : ℕ)
      → validate_replay_config config events ≡ ok tt
      → production config.capacity_bytes ≡ ok (production_config config.capacity_bytes)
  unfolding validate_replay_config production
  production-config config events h =
      let set : (config.capacity_bytes == 0) ≡ false = ground arith in rw set refl

  production-new :
      (capacity_bytes : ℕ)
      → (p : TinyLfuPolicy) × (Policy.new (production_config capacity_bytes) ≡ ok p)
  unfolding is_power_of_two
  production-new capacity_bytes = new-ok (production_config capacity_bytes) refl refl refl refl

  -- For LRU and LFU, with a configuration that is valid for the length of the trace, inputs that are
  -- valid and more fuel than the cache has places, a replay ends with a result, and it has one
  -- outcome for each access of the trace, whatever the failures of the sources and the evictions.
  pub replay_cache_policy_total :
      (fuel : ℕ) (policy : CacheReplayPolicy) (config : CacheReplayConfig)
      (events : List CacheTraceEvent)
      → IsRanked policy
      → validate_replay_config config (length events) ≡ ok tt
      → AreValid events
      → config.maximum_entries < fuel
      → (result : CacheReplayResult) × ((replay_cache_policy digest fuel policy config events
            ≡ ok (some result))
          × (length result.outcomes ≡ accesses events))
  unfolding replay_cache_policy finished start IsUnique
  replay_cache_policy_total fuel policy config events ranked checked valid enough =
      let made = production-config config (length events) checked in
      let (tiny, new_tiny) = production-new config.capacity_bytes in
      let (t, ran) =
        replay_events-ends fuel events (start digest policy config tiny) valid
          (record { ranked = ranked; unique = tt; within = omega arith; enough = enough }) in
      let result : CacheReplayResult = record (t.result) {
        resident_bytes = t.cache.stored_bytes;
      } in
      let produced : replay_cache_policy digest fuel policy config events ≡ ok (some result) =
        rw (checked, made, new_tiny, ran) refl in
      (
        result,
        (produced, replay_cache_policy-accesses digest fuel policy config events result produced),
      )
