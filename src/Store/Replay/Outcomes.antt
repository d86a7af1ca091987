-- ===== src/Store/Replay/Outcomes.antt =====
-- crates/kvpack/src/store/policy/replay.rs: a replay records one outcome for each access.
use kvpack.Base.{ℕ, ◌+◌, ◌≡◌, List, [], ◌∷◌, Bool, true, false, Option, none, some, ok}
use kvpack.Base.{length, length-append, arith, >>=-eq-ok, ltb, Bool-cases}
use kvpack.Base.{Option-cases, inl, inr, ap, ◌∙◌, Result-cases}
use kvpack.Base.Maps.{lookup}
use kvpack.Store.Retention.{RetentionInputs, validate}
use kvpack.Store.Policy.Admission.{
  AdmissionDecision, admit, admit_over_victim, reject_lower_frequency,
}
use kvpack.Store.Policy.Admission.{reject_promotion_stopped}
use kvpack.Store.Replay.{
  CacheTraceEvent, access, source_failed, source_recovered, CacheReplayOutcome,
}
use kvpack.Store.Replay.{CacheReplayResult, CacheReplayTier, ReplayState, CacheReplayConfig}
use kvpack.Store.Replay.{CacheReplayPolicy}
use kvpack.Store.Replay.Victim.{make_room}
use kvpack.Store.Replay.Trace.{Replay, with_outcome, rejection, admitted_object, after_room}
use kvpack.Store.Replay.Trace.{place_object, decide, follow, miss, access_object, replay_event}
use kvpack.Base.{saturating_add}
use kvpack.Store.Replay.{hit_outcome}
use kvpack.Store.Policy
use kvpack.Store.Policy.{production}
use kvpack.Store.Replay.Trace.{validate_replay_config}
use kvpack.Store.Replay.Trace.{
  missed, served, unavailable, is_available, replay_events, finished, start, replay_cache_policy,
}

-- The accesses of a trace.
unfoldable pub accesses : List CacheTraceEvent → ℕ
accesses [] = 0
accesses (access key tier retention ∷ events) = accesses events + 1
accesses (source_failed tier ∷ events) = accesses events
accesses (source_recovered tier ∷ events) = accesses events

abbrev recorded : Replay → ℕ
recorded r = length r.result.outcomes

with_outcome-length :
    (o : CacheReplayOutcome) (r : CacheReplayResult)
    → length (with_outcome o r).outcomes ≡ length r.outcomes + 1
unfolding with_outcome
with_outcome-length o r = omega (arith, length-append r.outcomes (o ∷ []))

rejection-recorded : (r : Replay) → recorded (rejection r) ≡ recorded r + 1
unfolding rejection
rejection-recorded r = with_outcome-length _ _

unavailable-recorded :
    (retention : RetentionInputs) (r : Replay)
    → recorded (unavailable retention (missed r)) ≡ recorded r + 1
unfolding unavailable missed
unavailable-recorded retention r = with_outcome-length _ _

module _ (digest : ℕ → ℕ → ℕ) where
  after_room-recorded :
      (key : ℕ) (retention : RetentionInputs) (r : Replay) (is_room : Bool) (cache : ReplayState)
      (evictions : List ℕ)
      → recorded (after_room digest key retention r (is_room, (cache, evictions))) ≡ recorded r + 1
  unfolding after_room admitted_object
  after_room-recorded key retention r true cache evictions = with_outcome-length _ _
  after_room-recorded key retention r false cache evictions = rejection-recorded _

  place_object-recorded :
      (fuel key : ℕ) (retention : RetentionInputs) (preferred : Option ℕ) (r t : Replay)
      → place_object digest fuel key retention preferred r ≡ some t
      → recorded t ≡ recorded r + 1
  unfolding place_object
  place_object-recorded fuel key retention preferred r t h =
      elim (Bool-cases (ltb r.cache.config.capacity_bytes retention.physical_bytes)) [
        | inl large ↦ ground (arith, rejection-recorded r)
        | inr fits ↦
            elim (Option-cases
              (make_room fuel retention.physical_bytes preferred r.cache r.result.evictions)) [
                | inl running ↦ absurd (ground arith)
                | inr ((is_room, (cache, evictions)), done) ↦
                    ground (arith, after_room-recorded key retention r is_room cache evictions)
              ]
      ]

  follow-recorded :
      (fuel key : ℕ) (retention : RetentionInputs) (d : AdmissionDecision) (r t : Replay)
      → follow digest fuel key retention d r ≡ some t
      → recorded t ≡ recorded r + 1
  unfolding follow
  follow-recorded fuel key retention admit r t h =
      place_object-recorded fuel key retention none r t h
  follow-recorded fuel key retention (admit_over_victim v) r t h =
      place_object-recorded fuel key retention (some v) r t h
  follow-recorded fuel key retention reject_lower_frequency r t h =
      ground (arith, rejection-recorded r)
  follow-recorded fuel key retention reject_promotion_stopped r t h =
      ground (arith, rejection-recorded r)

  decide-result :
      (key : ℕ) (retention : RetentionInputs) (r t : Replay) (d : AdmissionDecision)
      → decide digest key retention r ≡ ok (d, t)
      → t.result ≡ r.result
  unfolding decide
  decide-result key retention r t d h = ground arith

  miss-recorded :
      (fuel key : ℕ) (tier : CacheReplayTier) (retention : RetentionInputs) (r t : Replay)
      → miss digest fuel key tier retention r ≡ ok (some t)
      → recorded t ≡ recorded r + 1
  unfolding miss missed served
  miss-recorded fuel key tier retention r t h =
      let counted = missed r in
      let serving = served tier retention counted in
      elim (Bool-cases (is_available r.availability tier)) [
        | inr down ↦ ground (arith, unavailable-recorded retention r)
        | inl up ↦ elim (Result-cases (decide digest key retention serving)) [
          | inl (e, failed) ↦ absurd (ground arith)
          | inr ((d, after), decided) ↦
              let followed : follow digest fuel key retention d after ≡ some t = ground arith in
              let same = decide-result key retention serving after d decided in
              follow-recorded fuel key retention d after t followed
              ∙ ap (λ x. length x.outcomes + 1) same
        ]
      ]

  access_object-recorded :
      (fuel key : ℕ) (tier : CacheReplayTier) (inputs : RetentionInputs) (r t : Replay)
      → access_object digest fuel key tier inputs r ≡ ok (some t)
      → recorded t ≡ recorded r + 1
  unfolding access_object
  access_object-recorded fuel key tier inputs r t h =
      let (retention, valid, rest) = >>=-eq-ok (validate inputs) _ h in
      let ticked = record r { cache = record (r.cache) { tick = saturating_add r.cache.tick 1 } } in
      elim (Option-cases (lookup key r.cache.entries)) [
        | inl absent ↦
            let missing : miss digest fuel key tier retention ticked ≡ ok (some t) = ground arith in
            miss-recorded fuel key tier retention ticked t missing
        | inr (entry, found) ↦
            let recorded_hit =
              with_outcome-length hit_outcome
                (record (r.result) { hits = saturating_add r.result.hits 1 }) in
            ground (arith, recorded_hit)
      ]

  replay_event-recorded :
      (fuel : ℕ) (event : CacheTraceEvent) (events : List CacheTraceEvent) (r t : Replay)
      → replay_event digest fuel event r ≡ ok (some t)
      → recorded t + accesses events ≡ recorded r + accesses (event ∷ events)
  unfolding replay_event accesses
  replay_event-recorded fuel (access key tier inputs) events r t h =
      omega (arith, access_object-recorded fuel key tier inputs r t h)
  replay_event-recorded fuel (source_failed tier) events r t h = ground arith
  replay_event-recorded fuel (source_recovered tier) events r t h = ground arith

  replay_events-recorded :
      (fuel : ℕ) (events : List CacheTraceEvent) (r t : Replay)
      → replay_events digest fuel events r ≡ ok (some t)
      → recorded t ≡ recorded r + accesses events
  unfolding replay_events accesses
  replay_events-recorded fuel [] r t h = ground arith
  replay_events-recorded fuel (event ∷ events) r t h =
      let (next, replayed, rest) = >>=-eq-ok (replay_event digest fuel event r) _ h in
      elim (Option-cases next) [
        | inl running ↦ absurd (ground arith)
        | inr (s, after) ↦
            let one = replay_event-recorded fuel event events r s (replayed ∙ ap ok after) in
            let others : replay_events digest fuel events s ≡ ok (some t) = ground arith in
            omega (arith, one, replay_events-recorded fuel events s t others)
      ]

  -- A replay that ends has one outcome for each access of the trace, whatever the policy, the
  -- failures of the sources and the evictions.
  pub replay_cache_policy-accesses :
      (fuel : ℕ) (policy : CacheReplayPolicy) (config : CacheReplayConfig)
      (events : List CacheTraceEvent) (result : CacheReplayResult)
      → replay_cache_policy digest fuel policy config events ≡ ok (some result)
      → length result.outcomes ≡ accesses events
  unfolding replay_cache_policy finished start
  replay_cache_policy-accesses fuel policy config events result h =
      let (checked, _, h₁) = >>=-eq-ok (validate_replay_config config (length events)) _ h in
      let (tiny_config, _, h₂) = >>=-eq-ok (production config.capacity_bytes) _ h₁ in
      let (tiny, _, h₃) = >>=-eq-ok (Policy.new tiny_config) _ h₂ in
      let (last, replayed, h₄) =
        >>=-eq-ok (replay_events digest fuel events (start digest policy config tiny)) _ h₃ in
      elim (Option-cases last) [
        | inl running ↦ absurd (ground arith)
        | inr (t, after) ↦
            let counted =
              replay_events-recorded fuel events (start digest policy config tiny) t
                (replayed ∙ ap ok after) in
            ground (arith, counted)
      ]
