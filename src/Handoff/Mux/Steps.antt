-- ===== src/Handoff/Mux/Steps.antt =====
-- crates/kvpack-handoff/src/receiver/spray.rs: what one call of the mux keeps.
use kvpack.Base.{ℕ, zero, suc, ◌+◌, ◌≤◌, ◌<◌, ◌≡◌, refl, ap, List, [], ◌∷◌, ◌++◌, map, true}
use kvpack.Base.{none, some, ◌==◌, ok, arith, length, get_elem?, ◌⊎◌}
use kvpack.Base.{inl, inr, Bool-cases, Option-cases}
use kvpack.Base.Maps.{lookup, insert, remove, lookup-insert, lookup-remove}
use kvpack.Handoff.Mux.{SprayLayerFrame, SequenceMux, contains_key, new, accept, pop_ready}
use kvpack.Handoff.Mux.{is_complete, pop_into}

-- The numbers below `n` in order.
unfoldable pub upto : ℕ → List ℕ
upto zero = []
upto (suc n) = upto n ++ (n ∷ [])

add_one : (n : ℕ) → n + 1 ≡ suc n
add_one n = omega arith

upto-suc : (n : ℕ) → upto (n + 1) ≡ upto n ++ (n ∷ [])
unfolding upto
upto-suc n = ap upto (add_one n)

module _ {B : Type 0} where
  -- A stashed frame stands under its sequence, which is yet to be popped and is below the count.
  pub IsStash : SequenceMux B → Type 0
  IsStash m =
      (k : ℕ) (f : SprayLayerFrame B)
      → lookup k m.stash ≡ some f
      → (f.sequence ≡ k) × ((m.next ≤ k) × (k < m.expected))

  unfoldable pub IsOrdered : SequenceMux B → List (SprayLayerFrame B) → Type 0
  IsOrdered m popped = map (λ f. f.sequence) popped ≡ upto m.next

  unfoldable stashed : SequenceMux B → SprayLayerFrame B → SequenceMux B
  stashed m f = record m { stash = insert f.sequence f m.stash }

  accept-ok :
      (m t : SequenceMux B) (f : SprayLayerFrame B)
      → accept m f ≡ ok t
      → (f.sequence < m.expected)
        × ((m.next ≤ f.sequence) × ((lookup f.sequence m.stash ≡ none) × (stashed m f ≡ t)))
  unfolding accept contains_key stashed
  accept-ok m t f h = ground arith

  stashed-IsStash :
      (m : SequenceMux B) (f : SprayLayerFrame B)
      → f.sequence < m.expected
      → m.next ≤ f.sequence
      → IsStash m
      → IsStash (stashed m f)
  unfolding stashed IsStash
  stashed-IsStash m f below above inv k g h =
      ground (arith, inv k g, lookup-insert k f.sequence f m.stash)

  unfoldable advanced : SequenceMux B → SequenceMux B
  advanced m = record m { next = m.next + 1; stash = remove m.next m.stash }

  pop_ready-some :
      (m t : SequenceMux B) (f : SprayLayerFrame B)
      → pop_ready m ≡ some (f, t)
      → (lookup m.next m.stash ≡ some f) × (advanced m ≡ t)
  unfolding pop_ready advanced
  pop_ready-some m t f h = ground arith

  popped-IsStash : (m : SequenceMux B) → IsStash m → IsStash (advanced m)
  unfolding IsStash advanced
  popped-IsStash m inv k g h = ground (arith, inv k g, lookup-remove k m.next m.stash)

  -- What the calls keep: the stash, the order of the frames popped, and their number.
  unfoldable pub IsSound : SequenceMux B → List (SprayLayerFrame B) → Type 0
  IsSound m popped =
      IsStash m × (IsOrdered m popped × ((length popped ≡ m.next) × (m.next ≤ m.expected)))

  map-snoc :
      (fs : List (SprayLayerFrame B)) (f : SprayLayerFrame B)
      → map (λ g. g.sequence) (fs ++ (f ∷ [])) ≡ map (λ g. g.sequence) fs ++ (f.sequence ∷ [])
  map-snoc [] f = refl
  map-snoc (g ∷ fs) f = ap (◌∷◌ g.sequence) (map-snoc fs f)

  length-snoc :
      (fs : List (SprayLayerFrame B)) (f : SprayLayerFrame B)
      → length (fs ++ (f ∷ [])) ≡ length fs + 1
  length-snoc [] f = refl
  length-snoc (g ∷ fs) f = omega (arith, length-snoc fs f)

  ordered-snoc :
      (m : SequenceMux B) (popped : List (SprayLayerFrame B)) (f : SprayLayerFrame B)
      → f.sequence ≡ m.next
      → map (λ g. g.sequence) popped ≡ upto m.next
      → map (λ g. g.sequence) (popped ++ (f ∷ [])) ≡ upto (m.next + 1)
  ordered-snoc m popped f same ordered = cc (map-snoc popped f, upto-suc m.next)

  advanced-IsSound :
      (m : SequenceMux B) (popped : List (SprayLayerFrame B)) (f : SprayLayerFrame B)
      → lookup m.next m.stash ≡ some f
      → IsSound m popped
      → IsSound (advanced m) (popped ++ (f ∷ []))
  unfolding advanced IsSound IsOrdered upto IsStash
  advanced-IsSound m popped f h (stash, (ordered, (count, bound))) = (
    popped-IsStash m stash,
    (
      ordered-snoc m popped f (stash m.next f h).0 ordered,
      (omega (arith, length-snoc popped f), omega (arith, (stash m.next f h).1.1)),
    ),
  )

  stashed-IsSound :
      (m : SequenceMux B) (popped : List (SprayLayerFrame B)) (f : SprayLayerFrame B)
      → f.sequence < m.expected
      → m.next ≤ f.sequence
      → IsSound m popped
      → IsSound (stashed m f) popped
  unfolding stashed IsSound IsOrdered
  stashed-IsSound m popped f below above (stash, rest) =
      (stashed-IsStash m f below above stash, rest)

  -- A frame that arrived is in the stash or stands at its place among those popped.
  pub IsKept : SequenceMux B → List (SprayLayerFrame B) → SprayLayerFrame B → Type 0
  IsKept m popped f = (lookup f.sequence m.stash ≡ some f) ⊎ (get_elem? popped f.sequence ≡ some f)

  get_elem?-snoc :
      (fs : List (SprayLayerFrame B)) (f g : SprayLayerFrame B) (i : ℕ)
      → get_elem? fs i ≡ some g
      → get_elem? (fs ++ (f ∷ [])) i ≡ some g
  get_elem?-snoc [] f g i h = cc
  get_elem?-snoc (k ∷ fs) f g zero h = h
  get_elem?-snoc (k ∷ fs) f g (suc i) h = get_elem?-snoc fs f g i h

  get_elem?-last :
      (fs : List (SprayLayerFrame B)) (f : SprayLayerFrame B)
      → get_elem? (fs ++ (f ∷ [])) (length fs) ≡ some f
  get_elem?-last [] f = refl
  get_elem?-last (g ∷ fs) f = get_elem?-last fs f

  stashed-IsKept :
      (m : SequenceMux B) (popped : List (SprayLayerFrame B)) (f g : SprayLayerFrame B)
      → lookup f.sequence m.stash ≡ none
      → IsKept m popped g
      → IsKept (stashed m f) popped g
  unfolding stashed IsKept
  stashed-IsKept m popped f g free (inl h) =
      inl (ground (arith, lookup-insert g.sequence f.sequence f m.stash))
  stashed-IsKept m popped f g free (inr h) = inr h

  advanced-IsKept :
      (m : SequenceMux B) (popped : List (SprayLayerFrame B)) (f g : SprayLayerFrame B)
      → lookup m.next m.stash ≡ some f
      → length popped ≡ m.next
      → IsKept m popped g
      → IsKept (advanced m) (popped ++ (f ∷ [])) g
  unfolding advanced IsKept
  advanced-IsKept m popped f g h count (inl k) = elim (Bool-cases (g.sequence == m.next)) [
    | inl same ↦ inr (ground (arith, get_elem?-last popped f))
    | inr other ↦ inl (ground (arith, lookup-remove g.sequence m.next m.stash))
  ]
  advanced-IsKept m popped f g h count (inr k) = inr (get_elem?-snoc popped f g _ k)

  pop-cases :
      (m : SequenceMux B)
      → (pop_ready m ≡ none)
        ⊎ ((f : SprayLayerFrame B) × ((lookup m.next m.stash ≡ some f)
              × (pop_ready m ≡ some (f, advanced m))))
  unfolding pop_ready advanced
  pop-cases m = elim (Option-cases (lookup m.next m.stash)) [
    | inl h ↦ inl (ground arith)
    | inr (f, h) ↦ inr (f, (h, ground arith))
  ]

  pub pop_into-IsSound :
      (m : SequenceMux B) (popped : List (SprayLayerFrame B))
      → IsSound m popped
      → IsSound (pop_into m popped).0 (pop_into m popped).1
  unfolding pop_into
  pop_into-IsSound m popped sound = elim (pop-cases m) [
    | inl h ↦ rw (h, pop_into) sound
    | inr (f, (h, at_front)) ↦ rw (at_front, pop_into) (advanced-IsSound m popped f h sound)
  ]

  pub pop_into-IsKept :
      (m : SequenceMux B) (popped : List (SprayLayerFrame B)) (g : SprayLayerFrame B)
      → length popped ≡ m.next
      → IsKept m popped g
      → IsKept (pop_into m popped).0 (pop_into m popped).1 g
  unfolding pop_into
  pop_into-IsKept m popped g count kept = elim (pop-cases m) [
    | inl h ↦ rw (h, pop_into) kept
    | inr (f, (h, at_front)) ↦ rw (at_front, pop_into) (advanced-IsKept m popped f g h count kept)
  ]

  pub accept-IsSound :
      (m t : SequenceMux B) (popped : List (SprayLayerFrame B)) (f : SprayLayerFrame B)
      → accept m f ≡ ok t
      → IsSound m popped
      → IsSound t popped
  accept-IsSound m t popped f h sound =
      let (below, (above, (free, same))) = accept-ok m t f h in
      rw (← same) (stashed-IsSound m popped f below above sound)

  pub accept-IsKept :
      (m t : SequenceMux B) (popped : List (SprayLayerFrame B)) (f g : SprayLayerFrame B)
      → accept m f ≡ ok t
      → IsKept m popped g
      → IsKept t popped g
  accept-IsKept m t popped f g h kept =
      let (below, (above, (free, same))) = accept-ok m t f h in
      rw (← same) (stashed-IsKept m popped f g free kept)

  pub accepted-IsKept :
      (m t : SequenceMux B) (popped : List (SprayLayerFrame B)) (f : SprayLayerFrame B)
      → accept m f ≡ ok t
      → IsKept t popped f
  unfolding stashed IsKept
  accepted-IsKept m t popped f h =
      let (below, (above, (free, same))) = accept-ok m t f h in
      inl (ground (arith, lookup-insert f.sequence f.sequence f m.stash))

  pub complete-all :
      (m : SequenceMux B) (popped : List (SprayLayerFrame B)) (f : SprayLayerFrame B)
      → is_complete m ≡ true
      → IsSound m popped
      → IsKept m popped f
      → get_elem? popped f.sequence ≡ some f
  unfolding is_complete IsSound IsStash IsKept
  complete-all m popped f done (stash, rest) (inl h) =
      let bounds = (stash f.sequence f h).1 in absurd (ground arith)
  complete-all m popped f done sound (inr h) = h

pub new-IsSound : (B : Type 0) (expected : ℕ) → IsSound {B = B} (new expected) []
unfolding new IsSound IsStash IsOrdered upto lookup
new-IsSound B expected = ((λ k f h. cc), (refl, (refl, omega arith)))
