-- ===== src/Store/Replay/Ends.antt =====
-- crates/kvpack/src/store/policy/replay.rs: `make_room` under LRU and LFU, from states that may count
-- other bytes than their entries have.
use kvpack.Base.{
  ℕ, zero, suc, ◌+◌, ◌≤◌, ◌≡◌, refl, List, [], ◌∷◌, ◌++◌, Bool, true, false, Option, none, some,
  ◌⊎◌, inl, inr, length, arith, ap, sym, ◌∙◌, Bool-cases,
}
use mathlib.Core.Bool.{false≢true}
use kvpack.Base.Maps.{lookup, IsUnique, remove-IsUnique, length-remove, lookup-remove}
use kvpack.Store.Replay.{ReplayEntry, ReplayState}
use kvpack.Store.Replay.Victim.{is_crowded, choose, make_room}
use kvpack.Store.Replay.Room.{
  IsRanked, FindsVictim, choose-FindsVictim, without, evict-ranked, make_room-evicts, HasRoom,
  roomy-HasRoom,
}

-- There is room, or nothing is left to evict and there is none.
pub IsDecided : ℕ → ReplayState → Bool → ReplayState → Type 0
IsDecided incoming s is_room t =
    ((is_room ≡ true) × HasRoom incoming s t)
    ⊎ ((is_room ≡ false) × ((t.entries ≡ []) × (is_crowded incoming t ≡ true)))

pub decided-place :
    (incoming : ℕ) (s t : ReplayState)
    → IsDecided incoming s true t
    → length t.entries + 1 ≤ s.config.maximum_entries
unfolding IsDecided HasRoom
decided-place incoming s t (inl (_, (_, (_, place)))) = place
decided-place incoming s t (inr (h, _)) = absurd (false≢true (sym h))

-- A run of the loop that ended.
pub record Ended (fuel incoming : ℕ) (preferred : Option ℕ) (s : ReplayState) (evictions : List ℕ)
    : Type 0 where
  pub is_room : Bool
  pub last : ReplayState
  pub evicted : List ℕ
  pub ran : make_room fuel incoming preferred s evictions ≡ some (is_room, (last, evicted))
  pub unique : IsUnique last.entries
  pub policy : last.policy ≡ s.policy
  pub config : last.config ≡ s.config
  pub fewer : length last.entries ≤ length s.entries
  pub absent : (k : ℕ) → lookup k s.entries ≡ none → lookup k last.entries ≡ none
  pub decided : IsDecided incoming s is_room last

Ended-roomy :
    (fuel incoming : ℕ) (preferred : Option ℕ) (s : ReplayState) (evictions : List ℕ)
    → IsUnique s.entries
    → is_crowded incoming s ≡ false
    → Ended (suc fuel) incoming preferred s evictions
unfolding make_room IsDecided
Ended-roomy fuel incoming preferred s evictions unique roomy = record {
  is_room = true;
  last = s;
  evicted = evictions;
  ran = ground arith;
  unique = unique;
  policy = refl;
  config = refl;
  fewer = omega arith;
  absent = λ k h. h;
  decided = inl (refl, roomy-HasRoom incoming s roomy);
}

Ended-empty :
    (fuel incoming : ℕ) (preferred : Option ℕ) (s : ReplayState) (evictions : List ℕ)
    → IsUnique s.entries
    → is_crowded incoming s ≡ true
    → (choose preferred s).0 ≡ none
    → (choose preferred s).1 ≡ s
    → s.entries ≡ []
    → Ended (suc fuel) incoming preferred s evictions
unfolding make_room IsDecided
Ended-empty fuel incoming preferred s evictions unique crowded nothing same empty = record {
  is_room = false;
  last = s;
  evicted = evictions;
  ran = ground arith;
  unique = unique;
  policy = refl;
  config = refl;
  fewer = omega arith;
  absent = λ k h. h;
  decided = inr (refl, (empty, crowded));
}

Ended-round :
    (fuel incoming key : ℕ) (e : ReplayEntry) (preferred : Option ℕ) (s : ReplayState)
    (evictions : List ℕ)
    → IsUnique s.entries
    → lookup key s.entries ≡ some e
    → make_room (suc fuel) incoming preferred s evictions
      ≡ make_room fuel incoming none (without key e s) (evictions ++ (key ∷ []))
    → Ended fuel incoming none (without key e s) (evictions ++ (key ∷ []))
    → Ended (suc fuel) incoming preferred s evictions
unfolding IsDecided HasRoom
Ended-round fuel incoming key e preferred s evictions unique found round rest = record {
  is_room = rest.is_room;
  last = rest.last;
  evicted = rest.evicted;
  ran = round ∙ rest.ran;
  unique = rest.unique;
  policy = rest.policy;
  config = rest.config;
  fewer = omega (arith, rest.fewer, length-remove key e s.entries unique found);
  absent = λ k h. rest.absent k (ground (arith, lookup-remove k key s.entries));
  decided = rest.decided;
}

pub make_room-Ended :
    (fuel incoming : ℕ) (preferred : Option ℕ) (s : ReplayState) (evictions : List ℕ)
    → length s.entries + 1 ≤ fuel
    → IsRanked s.policy
    → IsUnique s.entries
    → Ended fuel incoming preferred s evictions
unfolding FindsVictim
make_room-Ended zero incoming preferred s evictions enough ranked unique = absurd (omega arith)
make_room-Ended (suc fuel) incoming preferred s evictions enough ranked unique =
    elim (Bool-cases (is_crowded incoming s)) [
      | inr roomy ↦ Ended-roomy fuel incoming preferred s evictions unique roomy
      | inl crowded ↦
          let (same, chosen_cases) = choose-FindsVictim preferred s ranked unique in
          elim chosen_cases [
            | inl (nothing, empty) ↦
                Ended-empty fuel incoming preferred s evictions unique crowded nothing same empty
            | inr (key, e, (chosen, found)) ↦
                let fewer = length-remove key e s.entries unique found in
                Ended-round fuel incoming key e preferred s evictions unique found
                  (make_room-evicts fuel incoming key preferred s evictions crowded chosen same
                    ∙ ap (λ t. make_room fuel incoming none t (evictions ++ (key ∷ [])))
                        (evict-ranked key e s ranked found))
                  (make_room-Ended fuel incoming none (without key e s) (evictions ++ (key ∷ []))
                    (omega (arith, fewer, enough)) ranked (remove-IsUnique key s.entries unique))
          ]
    ]

-- For LRU and LFU, from every state that stores each key once, whatever bytes it counts, the loop
-- ends: with more fuel than there are entries it answers true and leaves the object's bytes within
-- the capacity and a place for it, or it answers false, has evicted everything, and there is still
-- no room. It stores no more objects than before, each once, and keeps the configuration.
pub make_room_ends :
    (fuel incoming : ℕ) (preferred : Option ℕ) (s : ReplayState) (evictions : List ℕ)
    → length s.entries + 1 ≤ fuel
    → IsRanked s.policy
    → IsUnique s.entries
    → (is_room : Bool) × (t : ReplayState) × (evicted : List ℕ) × ((make_room fuel incoming
            preferred s evictions
          ≡ some (is_room, (t, evicted)))
        × (IsDecided incoming s is_room t
            × (IsUnique t.entries
                × ((length t.entries ≤ length s.entries) × (t.config ≡ s.config)))))
make_room_ends fuel incoming preferred s evictions enough ranked unique =
    let end = make_room-Ended fuel incoming preferred s evictions enough ranked unique in
    (
      end.is_room,
      end.last,
      end.evicted,
      (end.ran, (end.decided, (end.unique, (end.fewer, end.config)))),
    )
