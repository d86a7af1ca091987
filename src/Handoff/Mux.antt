-- ===== src/Handoff/Mux.antt =====
-- crates/kvpack-handoff/src/receiver/spray.rs: `SequenceMuxV1`, which puts the layer frames of
-- several streams back in order. The mux reads a frame's sequence and only carries the rest, which
-- is the parameter `B`. A method of `&mut self` returns the new mux.
pub mod Steps
pub mod Order
use kvpack.Base.{ℕ, ◌+◌, List, [], ◌∷◌, ◌++◌, Bool, true, false, ◌||◌, Option, none, some, ltb, leb}
use kvpack.Base.{◌==◌, if◌then◌else◌, Result, ok, err}
use kvpack.Base.Maps.{lookup, insert, remove}
use kvpack.Handoff.{HandoffError, validation, exceeds_count, duplicate}

pub record SprayLayerFrame (B : Type 0) : Type 0 where
  pub sequence : ℕ
  pub body : B

pub record SequenceMux (B : Type 0) : Type 0 where
  pub expected : ℕ
  pub next : ℕ
  pub stash : List (ℕ × SprayLayerFrame B)

unfoldable pub contains_key : {V : Type 0} → ℕ → List (ℕ × V) → Bool
contains_key key m = elim (lookup key m) [ none ↦ false | some v ↦ true ]

module _ {B : Type 0} where
  unfoldable pub new : ℕ → SequenceMux B
  new expected = record { expected = expected; next = 0; stash = [] }

  unfoldable pub accept : SequenceMux B → SprayLayerFrame B → Result HandoffError (SequenceMux B)
  accept m frame =
      if leb m.expected frame.sequence
      then err (validation (exceeds_count frame.sequence))
      else (if ltb frame.sequence m.next || contains_key frame.sequence m.stash
          then err (validation (duplicate frame.sequence))
          else ok (record m { stash = insert frame.sequence frame m.stash }))

  unfoldable pub pop_ready : SequenceMux B → Option (SprayLayerFrame B × SequenceMux B)
  pop_ready m = elim (lookup m.next m.stash) [
    | none ↦ none
    | some frame ↦ some (frame, record m { next = m.next + 1; stash = remove m.next m.stash })
  ]

  unfoldable pub is_complete : SequenceMux B → Bool
  is_complete m = m.next == m.expected

-- The calls of the session, in any order: an arrival, which ends the session when it is refused, and
-- a pop, which finds a frame or nothing.
pub data Call (B : Type 0) : Type 0 where
  arrive : SprayLayerFrame B → Call B
  pop : Call B

module _ {B : Type 0} where
  unfoldable pub pop_into :
      SequenceMux B → List (SprayLayerFrame B) → SequenceMux B × List (SprayLayerFrame B)
  pop_into m popped = elim (pop_ready m) [
    | none ↦ (m, popped)
    | some next ↦ (next.1, popped ++ (next.0 ∷ []))
  ]

  unfoldable pub run :
      List (Call B)
      → SequenceMux B × List (SprayLayerFrame B)
      → Result HandoffError (SequenceMux B × List (SprayLayerFrame B))
  run [] state = ok state
  run (pop ∷ calls) (m, popped) = run calls (pop_into m popped)
  run (arrive frame ∷ calls) (m, popped) = elim (accept m frame) [
    | err e ↦ err e
    | ok after ↦ run calls (after, popped)
  ]
