-- ===== src/Store/Policy.antt =====
-- crates/kvpack/src/store/policy.rs and policy/replay.rs: the TinyLFU retention policy.
-- A method of `&mut self` returns the new policy. A queue is a list, its front first.
pub mod Admission
pub mod Simulation
pub mod Access
pub mod Demotion
pub mod Sketch
pub mod Least
pub mod Decision
use kvpack.Base.{
  ℕ, zero, suc, ◌+◌, ◌-◌, ◌*◌, ◌/◌, ◌%◌, ◌<◌, min, max, List, [], ◌∷◌, ◌++◌, Bool, true,
}
use kvpack.Base.{
  false, ◌||◌, not, Option, none, some, ltb, leb, ◌==◌, if◌then◌else◌, max_u64, length,
}
use kvpack.Base.{saturating_add, replicate, set, Result, ok, err}
use kvpack.Base.Maps.{lookup, insert, remove, modify}
use kvpack.Store.Retention.{StoreError, state, RetentionInputs, conservative, validate, score}

pub data RetentionSegment : Type 0 where
  probationary protected : RetentionSegment

pub record TinyLfuConfig : Type 0 where
  pub capacity_bytes : ℕ
  pub sketch_width : ℕ
  pub reset_after_accesses : ℕ
  pub protected_fraction_millis : ℕ

unfoldable pub production : ℕ → Result StoreError TinyLfuConfig
production capacity_bytes =
    if capacity_bytes == 0
    then err (state "TinyLFU capacity must be nonzero")
    else ok (record {
      capacity_bytes = capacity_bytes;
      sketch_width = 16_384;
      reset_after_accesses = 1_000_000;
      protected_fraction_millis = 800;
    })

pub record PolicyEntry : Type 0 where
  pub object_bytes : ℕ
  pub retention : RetentionInputs
  pub frequency : ℕ
  pub score : ℕ
  pub segment : RetentionSegment
  pub last_access_ns : ℕ

pub record PendingPolicyAccess : Type 0 where
  pub object_key : ℕ
  pub frequency : ℕ
  pub score : ℕ
  pub segment : RetentionSegment
  pub last_access_ns : ℕ
  pub first_pending_ns : ℕ

pub record TinyLfuPolicy : Type 0 where
  pub config : TinyLfuConfig
  pub sketch : List ℕ
  pub accesses : ℕ
  pub entries : List (ℕ × PolicyEntry)
  pub probation : List ℕ
  pub protection : List ℕ
  pub protected_bytes : ℕ
  pub pending : List (ℕ × PendingPolicyAccess)

abbrev pub sketch_depth : ℕ
sketch_depth = 4

-- `is_power_of_two`, by halving; a number has at most as many halvings as its size.
unfoldable pub is_power_of_two : ℕ → ℕ → Bool
is_power_of_two zero n = n == 1
is_power_of_two (suc fuel) n =
    let half = is_power_of_two fuel (n / 2) in
    if n == 1 then true else (if n % 2 == 0 then half else false)

unfoldable pub new : TinyLfuConfig → Result StoreError TinyLfuPolicy
new config =
    if ltb config.sketch_width 64
      || (not (is_power_of_two 64 config.sketch_width)
          || (config.reset_after_accesses == 0 || ltb 1000 config.protected_fraction_millis))
    then err (state "TinyLFU configuration is invalid")
    else ok (record {
      config = config;
      sketch = replicate (config.sketch_width * sketch_depth) 0;
      accesses = 0;
      entries = [];
      probation = [];
      protection = [];
      protected_bytes = 0;
      pending = [];
    })

-- `remove_key` of replay.rs: the queue without the key's first place, and whether it was there.
unfoldable pub remove_key : List ℕ → ℕ → List ℕ × Bool
remove_key [] key = ([], false)
remove_key (candidate ∷ queue) key =
    let (rest, found) = remove_key queue key in
    if candidate == key then (queue, true) else (candidate ∷ rest, found)

unfoldable pub touch : List ℕ → ℕ → List ℕ
touch queue key = (remove_key queue key).0 ++ (key ∷ [])

-- `sketch[index]`; an index of a row below the depth is inside.
abbrev pub counter_at : List ℕ → ℕ → ℕ
counter_at [] index = 0
counter_at (c ∷ sketch) zero = c
counter_at (c ∷ sketch) (suc index) = counter_at sketch index

-- `digest row key` is the `u64` at the front of SHA-256 over the domain, the row and the key.
-- The width is a power of two, so `value & (width - 1)` is the remainder by the width.
module _ (digest : ℕ → ℕ → ℕ) where
  unfoldable pub sketch_index : ℕ → ℕ → ℕ → ℕ
  sketch_index key row width = row * width + digest row key % width

  -- The loop of `increment` over the rows from `row` on.
  unfoldable pub increment_rows : ℕ → ℕ → ℕ → ℕ → List ℕ → List ℕ
  increment_rows zero row key width sketch = sketch
  increment_rows (suc rows) row key width sketch =
      let index = sketch_index key row width in
      increment_rows rows (row + 1) key width
        (set sketch index (min (counter_at sketch index + 1) 0xffff))

  unfoldable pub increment : TinyLfuPolicy → ℕ → TinyLfuPolicy
  increment p key = record p {
    sketch = increment_rows sketch_depth 0 key p.config.sketch_width p.sketch;
  }

  -- The least counter of the rows after the first.
  unfoldable pub estimate_rows : ℕ → ℕ → ℕ → ℕ → List ℕ → ℕ
  estimate_rows zero row key width sketch = counter_at sketch (sketch_index key row width)
  estimate_rows (suc rows) row key width sketch =
      min (counter_at sketch (sketch_index key row width))
        (estimate_rows rows (row + 1) key width sketch)

  unfoldable pub estimate : TinyLfuPolicy → ℕ → ℕ
  estimate p key = estimate_rows 3 0 key p.config.sketch_width p.sketch

-- `mark_pending`: nothing for a key without an entry; the first pending time is kept.
unfoldable pub pending_access : ℕ → PolicyEntry → ℕ → PendingPolicyAccess
pending_access key entry first_pending_ns = record {
  object_key = key;
  frequency = entry.frequency;
  score = entry.score;
  segment = entry.segment;
  last_access_ns = entry.last_access_ns;
  first_pending_ns = first_pending_ns;
}

unfoldable pub first_pending : Option PendingPolicyAccess → PolicyEntry → ℕ
first_pending none entry = entry.last_access_ns
first_pending (some pending) entry = pending.first_pending_ns

unfoldable pub mark_pending : TinyLfuPolicy → ℕ → TinyLfuPolicy
mark_pending p key = elim (lookup key p.entries) [
  | none ↦ p
  | some entry ↦ record p {
    pending =
        insert key (pending_access key entry (first_pending (lookup key p.pending) entry))
          p.pending;
  }
]

-- `remove`.
unfoldable pub is_protected : RetentionSegment → Bool
is_protected probationary = false
is_protected protected = true

unfoldable pub freed_bytes : Option PolicyEntry → ℕ
freed_bytes none = 0
freed_bytes (some entry) = if is_protected entry.segment then entry.object_bytes else 0

unfoldable pub remove_object : TinyLfuPolicy → ℕ → TinyLfuPolicy
remove_object p key = record p {
  protected_bytes = p.protected_bytes - freed_bytes (lookup key p.entries);
  entries = remove key p.entries;
  probation = (remove_key p.probation key).0;
  protection = (remove_key p.protection key).0;
  pending = remove key p.pending;
}

-- The bound of `demote_protected_overflow`.
unfoldable pub protected_bound : TinyLfuConfig → ℕ
protected_bound config =
    min (config.capacity_bytes * config.protected_fraction_millis) max_u64 / 1000

abbrev pub demoted : PolicyEntry → PolicyEntry
demoted entry = record entry { segment = probationary }

-- What one round does with the key from the front; the queue is already without it.
unfoldable pub demote_one : TinyLfuPolicy → ℕ → TinyLfuPolicy
demote_one p key = elim (lookup key p.entries) [
  | none ↦ p
  | some entry ↦ record p {
    entries = modify key demoted p.entries;
    protected_bytes = p.protected_bytes - entry.object_bytes;
    probation = p.probation ++ (key ∷ []);
  }
]

-- The loop of `demote_protected_overflow`; each round takes a key off the queue given, which is
-- `protection`.
unfoldable pub demote_loop : List ℕ → ℕ → TinyLfuPolicy → TinyLfuPolicy
demote_loop [] bound p = p
demote_loop (key ∷ queue) bound p =
    let rest = demote_loop queue bound (demote_one (record p { protection = queue }) key) in
    if ltb bound p.protected_bytes then rest else p

unfoldable pub demote_protected_overflow : TinyLfuPolicy → TinyLfuPolicy
demote_protected_overflow p = demote_loop p.protection (protected_bound p.config) p
