-- ===== src/Store/Replay/Room.antt =====
-- crates/kvpack/src/store/policy/replay.rs: `make_room` under LRU and LFU, from states whose byte count
-- is the sum over their entries.
use kvpack.Base.{
  ℕ, zero, suc, ◌+◌, ◌-◌, ◌≤◌, ◌≡◌, refl, List, [], ◌∷◌, ◌++◌, Bool, true, false, Option,
}
use kvpack.Base.{none, some, ◌⊎◌, inl, inr, length, saturating_add, arith}
use kvpack.Base.{◌≢◌, ap, ◌∙◌, Bool-cases, Option-cases}
use kvpack.Base.Maps.{lookup, remove, IsUnique, remove-IsUnique, lookup-All, total, total-remove}
use kvpack.Base.Maps.{length-remove}
use kvpack.Store.Policy.Admission.{min_by_key, least_from}
use kvpack.Store.Policy.Least.{least_from-All}
use kvpack.Store.Replay.{ReplayEntry, ReplayState, lru, lfu, CacheReplayPolicy}
use kvpack.Store.Replay.Victim.{older, rarer, key_of, victim, forget, evict, is_crowded, choose}
use kvpack.Store.Replay.Victim.{make_room}

-- The policies whose victim is the least stored entry of an order.
unfoldable pub IsRanked : CacheReplayPolicy → Type 0
IsRanked p = (p ≡ lru) ⊎ (p ≡ lfu)

-- A state whose map has each key once and whose byte count is the sum over its entries.
unfoldable pub IsAccounted : ReplayState → Type 0
IsAccounted s =
    IsUnique s.entries × (s.stored_bytes ≡ total (λ e. e.retention.physical_bytes) s.entries)

-- A victim is stored; without one nothing is.
unfoldable pub FindsVictim : Option ℕ × ReplayState → ReplayState → Type 0
FindsVictim (chosen, t) s =
    (t ≡ s)
    × (((chosen ≡ none) × (s.entries ≡ []))
        ⊎ ((k : ℕ) × (e : ReplayEntry) × ((chosen ≡ some k) × (lookup k s.entries ≡ some e))))

ranked-FindsVictim :
    (before : ℕ × ReplayEntry → ℕ × ReplayEntry → Bool) (m : List (ℕ × ReplayEntry))
    (s : ReplayState)
    → s.entries ≡ m
    → IsUnique m
    → FindsVictim (key_of (min_by_key before m), s) s
unfolding FindsVictim min_by_key key_of
ranked-FindsVictim before [] s e h = (refl, inl (refl, e))
ranked-FindsVictim before (c ∷ m) s e h =
    let found = lookup-All (c ∷ m) h in
    let least = least_from before c m in
    (
      refl,
      inr (
        least.0,
        least.1,
        (
          refl,
          rw e (least_from-All (λ d. lookup d.0 (c ∷ m) ≡ some d.1) before c m found.0 found.1),
        ),
      ),
    )

victim-lru :
    (s : ReplayState) → s.policy ≡ lru → victim s ≡ (key_of (min_by_key older s.entries), s)
unfolding victim
victim-lru s p = ground arith

victim-lfu :
    (s : ReplayState) → s.policy ≡ lfu → victim s ≡ (key_of (min_by_key rarer s.entries), s)
unfolding victim
victim-lfu s p = ground arith

victim-FindsVictim :
    (s : ReplayState) → IsRanked s.policy → IsUnique s.entries → FindsVictim (victim s) s
unfolding IsRanked
victim-FindsVictim s (inl p) h = rw (victim-lru s p) (ranked-FindsVictim older s.entries s refl h)
victim-FindsVictim s (inr p) h = rw (victim-lfu s p) (ranked-FindsVictim rarer s.entries s refl h)

pub choose-FindsVictim :
    (preferred : Option ℕ) (s : ReplayState)
    → IsRanked s.policy
    → IsUnique s.entries
    → FindsVictim (choose preferred s) s
unfolding choose FindsVictim
choose-FindsVictim none s ranked h = victim-FindsVictim s ranked h
choose-FindsVictim (some key) s ranked h = elim (Option-cases (lookup key s.entries)) [
  | inl absent ↦ rw (absent, choose) (victim-FindsVictim s ranked h)
  | inr (e, found) ↦ rw (found, choose) ((refl, inr (key, e, (refl, found))))
]

-- The state without a stored entry, where the policy keeps no structure of its own.
abbrev pub without : ℕ → ReplayEntry → ReplayState → ReplayState
without key e s = record s {
  entries = remove key s.entries;
  stored_bytes = s.stored_bytes - e.retention.physical_bytes;
}

pub evict-ranked :
    (key : ℕ) (e : ReplayEntry) (s : ReplayState)
    → IsRanked s.policy
    → lookup key s.entries ≡ some e
    → evict key s ≡ without key e s
unfolding evict forget IsRanked
evict-ranked key e s (inl p) found = ground arith
evict-ranked key e s (inr p) found = ground arith

pub make_room-evicts :
    (fuel incoming key : ℕ) (preferred : Option ℕ) (s : ReplayState) (evictions : List ℕ)
    → is_crowded incoming s ≡ true
    → (choose preferred s).0 ≡ some key
    → (choose preferred s).1 ≡ s
    → make_room (suc fuel) incoming preferred s evictions
      ≡ make_room fuel incoming none (evict key s) (evictions ++ (key ∷ []))
unfolding make_room
make_room-evicts fuel incoming key preferred s evictions crowded chosen same = ground arith

-- What `make_room` leaves for an object of so many bytes.
unfoldable pub HasRoom : ℕ → ReplayState → ReplayState → Type 0
HasRoom incoming s t =
    (t.config ≡ s.config)
    × ((saturating_add t.stored_bytes incoming ≤ s.config.capacity_bytes)
        × (length t.entries + 1 ≤ s.config.maximum_entries))

crowded-nonempty :
    (incoming : ℕ) (s : ReplayState)
    → IsAccounted s
    → 1 ≤ s.config.maximum_entries
    → incoming ≤ s.config.capacity_bytes
    → is_crowded incoming s ≡ true
    → s.entries ≢ []
unfolding is_crowded IsAccounted total
crowded-nonempty incoming s accounted places fits crowded empty = ground arith

pub roomy-HasRoom :
    (incoming : ℕ) (s : ReplayState) → is_crowded incoming s ≡ false → HasRoom incoming s s
unfolding is_crowded HasRoom
roomy-HasRoom incoming s h = ground arith

without-IsAccounted :
    (key : ℕ) (e : ReplayEntry) (s : ReplayState)
    → lookup key s.entries ≡ some e
    → IsAccounted s
    → IsAccounted (without key e s)
unfolding IsAccounted
without-IsAccounted key e s found (unique, sum) = (
  remove-IsUnique key s.entries unique,
  omega (arith, total-remove (λ d. d.retention.physical_bytes) key e s.entries unique found, sum),
)

-- A round of a crowded cache takes one stored entry out.
make_room-round :
    (fuel incoming : ℕ) (preferred : Option ℕ) (s : ReplayState) (evictions : List ℕ)
    → IsRanked s.policy
    → IsAccounted s
    → s.entries ≢ []
    → is_crowded incoming s ≡ true
    → (key : ℕ) × (e : ReplayEntry) × ((lookup key s.entries ≡ some e)
        × (make_room (suc fuel) incoming preferred s evictions
            ≡ make_room fuel incoming none (without key e s) (evictions ++ (key ∷ []))))
unfolding FindsVictim IsAccounted
make_room-round fuel incoming preferred s evictions ranked accounted nonempty crowded =
    let (same, chosen_cases) = choose-FindsVictim preferred s ranked accounted.0 in
    elim chosen_cases [
      | inl (nothing, empty) ↦ absurd (nonempty empty)
      | inr (key, e, (chosen, found)) ↦ (
        key,
        e,
        (
          found,
          make_room-evicts fuel incoming key preferred s evictions crowded chosen same
              ∙ ap (λ t. make_room fuel incoming none t (evictions ++ (key ∷ [])))
                  (evict-ranked key e s ranked found),
        ),
      )
    ]

-- For LRU and LFU, from a state that stores each key once and whose byte count is the sum over its
-- entries, and for an object that the capacity holds, a cache of at least one place has room after
-- finitely many evictions: with more fuel than there are entries the loop ends, answers true, and
-- leaves such a state, with the object's bytes within the capacity and a place for it.
pub make_room-succeeds :
    (fuel incoming : ℕ) (preferred : Option ℕ) (s : ReplayState) (evictions : List ℕ)
    → length s.entries + 1 ≤ fuel
    → IsRanked s.policy
    → IsAccounted s
    → 1 ≤ s.config.maximum_entries
    → incoming ≤ s.config.capacity_bytes
    → (t : ReplayState) × (evicted : List ℕ) × ((make_room fuel incoming preferred s evictions
          ≡ some (true, (t, evicted)))
        × (HasRoom incoming s t × IsAccounted t))
unfolding make_room IsAccounted HasRoom
make_room-succeeds zero incoming preferred s evictions enough ranked accounted places fits =
    absurd (omega arith)
make_room-succeeds (suc fuel) incoming preferred s evictions enough ranked accounted places fits =
    elim (Bool-cases (is_crowded incoming s)) [
      | inr roomy ↦ (s, evictions, (ground arith, (roomy-HasRoom incoming s roomy, accounted)))
      | inl crowded ↦
          let nonempty = crowded-nonempty incoming s accounted places fits crowded in
          let (key, e, (found, round)) =
            make_room-round fuel incoming preferred s evictions ranked accounted nonempty crowded in
          let fewer = length-remove key e s.entries accounted.0 found in
          let (t, evicted, (done, kept)) =
            make_room-succeeds fuel incoming none (without key e s) (evictions ++ (key ∷ []))
              (omega (arith, fewer, enough)) ranked (without-IsAccounted key e s found accounted)
              places fits in
          (t, evicted, (round ∙ done, kept))
    ]
