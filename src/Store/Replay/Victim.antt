-- ===== src/Store/Replay/Victim.antt =====
-- crates/kvpack/src/store/policy/replay.rs: `victim`, `remove` and `make_room` of `ReplayState`.
use kvpack.Base.{ℕ, zero, suc, ◌-◌, ◌*◌, max, List, [], ◌∷◌, ◌++◌, Bool, true, false, ◌||◌}
use kvpack.Base.{
  Option, none, some, ltb, leb, ◌==◌, if◌then◌else◌, max_u64, length, saturating_add, min,
}
use kvpack.Base.Maps.{lookup, remove, modify}
use kvpack.Store.Policy.{remove_key, remove_object}
use kvpack.Store.Policy.Admission
use kvpack.Store.Policy.Admission.{min_by_key}
use kvpack.Store.Replay.{ReplayEntry, ReplayState, trim_ghosts, lru, lfu, tiny_lfu, arc, clock_pro}

-- `(last_access, key)` and `(frequency, last_access, key)` in lexicographic order.
unfoldable pub older : ℕ × ReplayEntry → ℕ × ReplayEntry → Bool
older (k, e) (j, f) =
    if ltb e.last_access f.last_access
    then true
    else (if e.last_access == f.last_access then ltb k j else false)

unfoldable pub rarer : ℕ × ReplayEntry → ℕ × ReplayEntry → Bool
rarer (k, e) (j, f) =
    if ltb e.frequency f.frequency
    then true
    else (if e.frequency == f.frequency then older (k, e) (j, f) else false)

unfoldable pub front : List ℕ → Option ℕ
front [] = none
front (key ∷ queue) = some key

unfoldable pub key_of : Option (ℕ × ReplayEntry) → Option ℕ
key_of none = none
key_of (some c) = some c.0

unfoldable pub stored_size : Option ReplayEntry → ℕ
stored_size none = 0
stored_size (some entry) = entry.retention.physical_bytes

unfoldable pub fold_bytes : List (ℕ × ReplayEntry) → List ℕ → ℕ → ℕ
fold_bytes entries [] sum = sum
fold_bytes entries (key ∷ queue) sum =
    fold_bytes entries queue (saturating_add sum (stored_size (lookup key entries)))

unfoldable pub arc_victim : ReplayState → Option ℕ
arc_victim s =
    if ltb s.arc_target_bytes (fold_bytes s.entries s.arc_recent 0) || (length s.arc_frequent == 0)
    then front s.arc_recent
    else front s.arc_frequent

unfoldable pub second_chance : ReplayEntry → ReplayEntry
second_chance entry = record entry { referenced = false; hot = entry.hot || leb 2 entry.frequency }

unfoldable pub cooled : ReplayEntry → ReplayEntry
cooled entry = record entry { hot = false }

-- The `for _ in 0..bound` of CLOCK-Pro; `?` on an empty clock leaves the function.
unfoldable pub clock_loop :
    ℕ → List ℕ → List (ℕ × ReplayEntry) → Option ℕ × (List ℕ × List (ℕ × ReplayEntry))
clock_loop zero clock entries = (front clock, (clock, entries))
clock_loop (suc rounds) [] entries = (none, ([], entries))
clock_loop (suc rounds) (key ∷ queue) entries =
    let clock = queue ++ (key ∷ []) in
    elim (lookup key entries) [
      | none ↦ clock_loop rounds queue entries
      | some entry ↦
          let again = clock_loop rounds clock (modify key second_chance entries) in
          let colder = clock_loop rounds clock (modify key cooled entries) in
          if entry.referenced
          then again
          else (if entry.hot then colder else (some key, (clock, entries)))
    ]

unfoldable pub clock_victim : ReplayState → Option ℕ × ReplayState
clock_victim s =
    let bound = max (min (length s.clock * 3) max_u64) 1 in
    let (key, (clock, entries)) = clock_loop bound s.clock s.entries in
    (key, record s { clock = clock; entries = entries })

-- The victim, and the state after the search: CLOCK-Pro turns its hand.
unfoldable pub victim : ReplayState → Option ℕ × ReplayState
victim s = elim s.policy [
  | lru ↦ (key_of (min_by_key older s.entries), s)
  | lfu ↦ (key_of (min_by_key rarer s.entries), s)
  | tiny_lfu ↦ (Admission.victim s.tiny, s)
  | arc ↦ (arc_victim s, s)
  | clock_pro ↦ clock_victim s
]

unfoldable pub arc_remove : ℕ → ReplayState → ReplayState
arc_remove key s =
    let (recent, in_recent) = remove_key s.arc_recent key in
    let (frequent, in_frequent) = remove_key s.arc_frequent key in
    let moved =
      if in_recent
      then record s { arc_recent = recent; arc_recent_ghost = s.arc_recent_ghost ++ (key ∷ []) }
      else (if in_frequent
          then record s {
            arc_frequent = frequent;
            arc_frequent_ghost = s.arc_frequent_ghost ++ (key ∷ []);
          }
          else s) in
    let (recent_ghost, frequent_ghost) =
      trim_ghosts moved.arc_recent_ghost moved.arc_frequent_ghost moved.config.maximum_entries in
    record moved { arc_recent_ghost = recent_ghost; arc_frequent_ghost = frequent_ghost }

-- What `remove` does to the structures of the policy.
unfoldable pub forget : ℕ → ReplayState → ReplayState
forget key s = elim s.policy [
  | tiny_lfu ↦ record s { tiny = remove_object s.tiny key }
  | arc ↦ arc_remove key s
  | clock_pro ↦ record s { clock = (remove_key s.clock key).0 }
  | lru ↦ s
  | lfu ↦ s
]

unfoldable pub evict : ℕ → ReplayState → ReplayState
evict key s = elim (lookup key s.entries) [
  | none ↦ s
  | some entry ↦ forget key (record s {
    entries = remove key s.entries;
    stored_bytes = s.stored_bytes - entry.retention.physical_bytes;
  })
]

-- The condition of the `while` of `make_room`.
unfoldable pub is_crowded : ℕ → ReplayState → Bool
is_crowded incoming s =
    ltb s.config.capacity_bytes (saturating_add s.stored_bytes incoming)
    || leb s.config.maximum_entries (length s.entries)

-- The preferred victim while it is stored, else the victim of the policy.
unfoldable pub choose : Option ℕ → ReplayState → Option ℕ × ReplayState
choose none s = victim s
choose (some key) s = elim (lookup key s.entries) [ none ↦ victim s | some entry ↦ (some key, s) ]

-- `make_room` on fuel: none where the loop still runs, else whether there is room, the state, and
-- the evictions appended to those of before.
unfoldable pub make_room :
    ℕ → ℕ → Option ℕ → ReplayState → List ℕ → Option (Bool × (ReplayState × List ℕ))
make_room zero incoming preferred s evictions = none
make_room (suc fuel) incoming preferred s evictions =
    let (chosen, t) = choose preferred s in
    let round : Option (Bool × (ReplayState × List ℕ)) = elim chosen [
      | none ↦ some (false, (t, evictions))
      | some key ↦ make_room fuel incoming none (evict key t) (evictions ++ (key ∷ []))
    ] in
    if is_crowded incoming s then round else some (true, (s, evictions))
