-- ===== src/Store/Policy/Access.antt =====
-- crates/kvpack/src/store/policy.rs: `register_with_retention`, `record_access_with_retention`,
-- `age` and `restore_entry` of the TinyLFU policy.
use kvpack.Base.{
  ℕ, zero, suc, ◌+◌, ◌*◌, ◌/◌, min, max, List, [], ◌∷◌, ◌++◌, Option, none, some, leb,
}
use kvpack.Base.{if◌then◌else◌, ◌&&◌, not, saturating_add, set, ok, err, max_u64, map}
use kvpack.Base.Maps.{lookup, insert, modify}
use kvpack.Store.Retention.{RetentionInputs, conservative, validate, score}
use kvpack.Store.Policy.{RetentionSegment, probationary, protected, PolicyEntry, TinyLfuPolicy}
use kvpack.Store.Policy.{sketch_depth, touch, remove_key, counter_at, sketch_index, increment}
use kvpack.Store.Policy.{estimate, mark_pending, is_protected, demote_protected_overflow}

abbrev pub fresh_entry : RetentionInputs → ℕ → ℕ → PolicyEntry
fresh_entry retention frequency now_ns = record {
  object_bytes = retention.physical_bytes;
  retention = retention;
  frequency = frequency;
  score = score frequency retention;
  segment = probationary;
  last_access_ns = now_ns;
}

-- The object's size in an entry that is there, or the given one.
unfoldable pub known_bytes : Option PolicyEntry → ℕ → ℕ
known_bytes none bytes = bytes
known_bytes (some entry) bytes = entry.object_bytes

-- `entry(key).or_insert_with(..)`.
unfoldable pub or_insert : ℕ → PolicyEntry → List (ℕ × PolicyEntry) → List (ℕ × PolicyEntry)
or_insert key fresh entries = elim (lookup key entries) [
  | none ↦ insert key fresh entries
  | some entry ↦ entries
]

unfoldable pub has_segment : Option PolicyEntry → RetentionSegment
has_segment none = probationary
has_segment (some entry) = entry.segment

abbrev pub promoted : PolicyEntry → PolicyEntry
promoted entry = record entry { segment = protected }

-- The key moves to the back of its queue, or from probation to the protected queue from its second
-- counted access on.
unfoldable pub move_key : ℕ → ℕ → ℕ → TinyLfuPolicy → TinyLfuPolicy
move_key key estimated object_bytes p =
    let was_protected = is_protected (has_segment (lookup key p.entries)) in
    if not was_protected && leb 2 estimated
    then record p {
      probation = (remove_key p.probation key).0;
      protection = p.protection ++ (key ∷ []);
      entries = modify key promoted p.entries;
      protected_bytes = saturating_add p.protected_bytes object_bytes;
    }
    else (if not was_protected
        then record p { probation = touch p.probation key }
        else record p { protection = touch p.protection key })

abbrev pub refreshed : RetentionInputs → ℕ → ℕ → PolicyEntry → PolicyEntry
refreshed retention estimated now_ns entry = record entry {
  frequency = estimated;
  object_bytes = retention.physical_bytes;
  retention = retention;
  score = score estimated retention;
  last_access_ns = now_ns;
}

-- The retention that `record_access_with_retention` keeps: with the size that is known, and no more
-- shared bytes than that.
unfoldable pub clamped : RetentionInputs → ℕ → RetentionInputs
clamped retention object_bytes = record retention {
  physical_bytes = object_bytes;
  shared_ancestor_bytes = min retention.shared_ancestor_bytes object_bytes;
}

abbrev pub aged : PolicyEntry → PolicyEntry
aged entry = record entry {
  frequency = max (entry.frequency / 2) 1;
  score = score (max (entry.frequency / 2) 1) entry.retention;
}

-- The loop of `age` over the keys.
unfoldable pub age_keys : List ℕ → TinyLfuPolicy → TinyLfuPolicy
age_keys [] p = p
age_keys (key ∷ keys) p =
    age_keys keys (mark_pending (record p { entries = modify key aged p.entries }) key)

unfoldable pub age : TinyLfuPolicy → TinyLfuPolicy
age p =
    let halved = record p { sketch = map (λ c. c / 2) p.sketch } in
    record (age_keys (map (λ e. e.0) p.entries) halved) { accesses = 0 }

-- The count of accesses, and the reset when it is reached.
unfoldable pub count_access : TinyLfuPolicy → TinyLfuPolicy
count_access p =
    let counted = record p { accesses = saturating_add p.accesses 1 } in
    if leb p.config.reset_after_accesses counted.accesses then age counted else counted

module _ (digest : ℕ → ℕ → ℕ) where
  unfoldable pub register_with_retention : ℕ → RetentionInputs → ℕ → TinyLfuPolicy → TinyLfuPolicy
  register_with_retention key retention now_ns p = elim (lookup key p.entries) [
    | some entry ↦ p
    | none ↦ elim (validate retention) [
      | err e ↦ p
      | ok valid ↦
          mark_pending
            (record p {
              entries =
                  insert key (fresh_entry valid (max (estimate digest p key) 1) now_ns) p.entries;
              probation = p.probation ++ (key ∷ []);
            })
            key
    ]
  ]

  unfoldable pub register : ℕ → ℕ → ℕ → ℕ → TinyLfuPolicy → TinyLfuPolicy
  register key object_bytes avoided_recompute_ns now_ns =
      register_with_retention key (conservative object_bytes avoided_recompute_ns) now_ns

  -- The part of `record_access_with_retention` behind the validation, up to the demotion.
  unfoldable pub place_access : ℕ → RetentionInputs → ℕ → ℕ → TinyLfuPolicy → TinyLfuPolicy
  place_access key retention estimated now_ns p =
      let present = record p {
        entries = or_insert key (fresh_entry retention estimated now_ns) p.entries;
      } in
      let moved = move_key key estimated (known_bytes (lookup key present.entries) 0) present in
      record moved { entries = modify key (refreshed retention estimated now_ns) moved.entries }

  unfoldable pub record_access_with_retention :
      ℕ → RetentionInputs → ℕ → TinyLfuPolicy → TinyLfuPolicy
  record_access_with_retention key retention now_ns p = elim (validate retention) [
    | err e ↦ p
    | ok valid ↦
        let kept = clamped valid (known_bytes (lookup key p.entries) valid.physical_bytes) in
        let counted = increment digest p key in
        let estimated = max (estimate digest counted key) 1 in
        let placed = place_access key kept estimated now_ns counted in
        count_access (mark_pending (demote_protected_overflow placed) key)
  ]

  unfoldable pub record_access : ℕ → ℕ → ℕ → ℕ → TinyLfuPolicy → TinyLfuPolicy
  record_access key object_bytes avoided_recompute_ns now_ns =
      record_access_with_retention key (conservative object_bytes avoided_recompute_ns) now_ns

  -- The loop of `restore_entry` over the rows from `row` on.
  unfoldable pub raise_rows : ℕ → ℕ → ℕ → ℕ → ℕ → List ℕ → List ℕ
  raise_rows zero row key frequency width sketch = sketch
  raise_rows (suc rows) row key frequency width sketch =
      let index = sketch_index digest key row width in
      raise_rows rows (row + 1) key frequency width
        (set sketch index (max (counter_at sketch index) (min frequency 0xffff)))

  unfoldable pub restore_entry :
      ℕ → ℕ → ℕ → ℕ → RetentionSegment → ℕ → TinyLfuPolicy → TinyLfuPolicy
  restore_entry key object_bytes frequency scored segment last_access_ns p =
      elim (lookup key p.entries) [
        | some entry ↦ p
        | none ↦
            let entry : PolicyEntry = record {
              object_bytes = object_bytes;
              retention =
                  conservative object_bytes (min (scored * object_bytes) max_u64 / max frequency 1);
              frequency = max frequency 1;
              score = scored;
              segment = segment;
              last_access_ns = last_access_ns;
            } in
            let inserted = record p {
              sketch = raise_rows sketch_depth 0 key frequency p.config.sketch_width p.sketch;
              entries = insert key entry p.entries;
            } in
            elim segment [
              | probationary ↦ record inserted { probation = p.probation ++ (key ∷ []) }
              | protected ↦ record inserted {
                protection = p.protection ++ (key ∷ []);
                protected_bytes = saturating_add p.protected_bytes object_bytes;
              }
            ]
      ]
