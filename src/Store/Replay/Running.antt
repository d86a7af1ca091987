-- ===== src/Store/Replay/Running.antt =====
-- crates/kvpack/src/store/policy/replay.rs: the cache of a replay under LRU and LFU, between its steps.
use kvpack.Base.{
  ℕ, ◌+◌, ◌≤◌, ◌<◌, ◌≡◌, refl, sym, ap, List, Bool, true, false, none, some, inl, inr, length,
  arith, Bool-cases, ok, ltb, saturating_add,
}
use mathlib.Core.Path.{subst}
use kvpack.Base.Maps.{lookup, insert, modify, IsUnique, insert-IsUnique, modify-IsUnique}
use kvpack.Store.Retention.{RetentionInputs}
use kvpack.Store.Policy.Admission.{admit}
use kvpack.Store.Replay.{ReplayState, ReplayEntry, hit, hit_entry, insert_object}
use kvpack.Store.Replay.Room.{IsRanked}
use kvpack.Store.Replay.Ends.{Ended, IsDecided, decided-place, make_room-Ended}
use kvpack.Store.Replay.Trace.{Replay, rejection, admitted_object, after_room, place_object, decide}

-- The fuel is enough for a cache that stores each key once, within its places.
pub record IsRunning (fuel : ℕ) (s : ReplayState) : Type 0 where
  pub ranked : IsRanked s.policy
  pub unique : IsUnique s.entries
  pub within : length s.entries ≤ s.config.maximum_entries
  pub enough : s.config.maximum_entries < fuel

abbrev fresh_entry : ReplayState → RetentionInputs → ReplayEntry
fresh_entry s retention = record {
  retention = retention;
  frequency = 1;
  last_access = s.tick;
  referenced = true;
  hot = false;
}

module _ (digest : ℕ → ℕ → ℕ) where
  insert_object-ranked :
      (key : ℕ) (retention : RetentionInputs) (s : ReplayState)
      → IsRanked s.policy
      → insert_object digest key retention s ≡ record s {
        stored_bytes = saturating_add s.stored_bytes retention.physical_bytes;
        entries = insert key (fresh_entry s retention) s.entries;
      }
  unfolding insert_object IsRanked
  insert_object-ranked key retention s (inl p) = ground arith
  insert_object-ranked key retention s (inr p) = ground arith

  hit-ranked :
      (key : ℕ) (retention : RetentionInputs) (s : ReplayState)
      → IsRanked s.policy
      → hit digest key retention s
        ≡ record s { entries = modify key (hit_entry s.tick retention) s.entries }
  unfolding hit IsRanked
  hit-ranked key retention s (inl p) = ground arith
  hit-ranked key retention s (inr p) = ground arith

  pub decide-ranked :
      (key : ℕ) (retention : RetentionInputs) (r : Replay)
      → IsRanked r.cache.policy
      → decide digest key retention r ≡ ok (admit, r)
  unfolding decide IsRanked
  decide-ranked key retention r (inl p) = ground arith
  decide-ranked key retention r (inr p) = ground arith

  -- The object that finds a place is stored.
  inserted-IsRunning :
      (fuel key : ℕ) (retention : RetentionInputs) (s : ReplayState)
      → IsRunning fuel s
      → lookup key s.entries ≡ none
      → length s.entries + 1 ≤ s.config.maximum_entries
      → IsRunning fuel (insert_object digest key retention s)
  inserted-IsRunning fuel key retention s running absent place =
      let (unique, longer) =
        insert-IsUnique key (fresh_entry s retention) s.entries absent running.unique in
      rw (insert_object-ranked key retention s running.ranked) (record {
        ranked = running.ranked;
        unique = unique;
        within = omega (arith, longer, place);
        enough = running.enough;
      })

  pub hit-IsRunning :
      (fuel key : ℕ) (retention : RetentionInputs) (s : ReplayState)
      → IsRunning fuel s
      → IsRunning fuel (hit digest key retention s)
  hit-IsRunning fuel key retention s running =
      let (unique, same) =
        modify-IsUnique key (hit_entry s.tick retention) s.entries running.unique in
      rw (hit-ranked key retention s running.ranked) (record {
        ranked = running.ranked;
        unique = unique;
        within = omega (arith, same, running.within);
        enough = running.enough;
      })

  after_room-IsRunning :
      (fuel key : ℕ) (retention : RetentionInputs) (r : Replay) (is_room : Bool) (t : ReplayState)
      (evictions : List ℕ) (s : ReplayState)
      → IsRunning fuel t
      → lookup key t.entries ≡ none
      → t.config ≡ s.config
      → IsDecided retention.physical_bytes s is_room t
      → IsRunning fuel (after_room digest key retention r (is_room, (t, evictions))).cache
  unfolding after_room admitted_object rejection
  after_room-IsRunning fuel key retention r false t evictions s running absent same decided =
      running
  after_room-IsRunning fuel key retention r true t evictions s running absent same decided =
      inserted-IsRunning fuel key retention t running absent (
        omega (
          arith,
          decided-place retention.physical_bytes s t decided,
          ap (λ c. c.maximum_entries) same,
        ))

  Ended-IsRunning :
      (fuel incoming : ℕ) (s : ReplayState) (evictions : List ℕ)
      → IsRunning fuel s
      → (end : Ended fuel incoming none s evictions) → IsRunning fuel end.last
  Ended-IsRunning fuel incoming s evictions running end =
      let same = ap (λ c. c.maximum_entries) end.config in
      record {
        ranked = subst IsRanked (sym end.policy) running.ranked;
        unique = end.unique;
        within = omega (arith, end.fewer, running.within, same);
        enough = omega (arith, running.enough, same);
      }

  pub place_object-ends :
      (fuel key : ℕ) (retention : RetentionInputs) (r : Replay)
      → IsRunning fuel r.cache
      → lookup key r.cache.entries ≡ none
      → (t : Replay) × ((place_object digest fuel key retention none r ≡ some t)
          × IsRunning fuel t.cache)
  unfolding place_object rejection
  place_object-ends fuel key retention r running absent =
      let end : Ended fuel retention.physical_bytes none r.cache r.result.evictions =
        make_room-Ended fuel retention.physical_bytes none r.cache r.result.evictions
          (omega (arith, running.within, running.enough)) running.ranked running.unique in
      elim (Bool-cases (ltb r.cache.config.capacity_bytes retention.physical_bytes)) [
        | inl large ↦ (rejection r, (rw large refl, running))
        | inr fits ↦ (
          after_room digest key retention r (end.is_room, (end.last, end.evicted)),
          (
            rw (fits, end.ran) refl,
            after_room-IsRunning fuel key retention r end.is_room end.last end.evicted r.cache
                (Ended-IsRunning fuel retention.physical_bytes r.cache r.result.evictions running
                  end)
                (end.absent key absent) end.config end.decided,
          ),
        )
      ]
