-- ===== src/Base/Maps.antt =====
-- `BTreeMap` with identities as keys: a list of entries in the order of the keys. An identity of 32
-- bytes is the number that its bytes spell, most significant first, so that the order of the numbers
-- is the order of the byte strings.
use kvpack.Base.{
  ℕ, ◌≡◌, refl, List, [], ◌∷◌, Option, none, some, ltb, ◌==◌, if◌then◌else◌, arith, All, All-imp,
  false, length, inl, inr, Bool-cases, ◌+◌,
}
use mathlib.Core.Option

module _ {V : Type 0} where
  unfoldable pub lookup : ℕ → List (ℕ × V) → Option V
  lookup k [] = none
  lookup k ((j, v) ∷ m) = if k == j then some v else lookup k m

  unfoldable pub insert : ℕ → V → List (ℕ × V) → List (ℕ × V)
  insert k v [] = (k, v) ∷ []
  insert k v ((j, w) ∷ m) =
      if k == j
      then (k, v) ∷ m
      else (if ltb k j then (k, v) ∷ (j, w) ∷ m else (j, w) ∷ insert k v m)

  unfoldable pub remove : ℕ → List (ℕ × V) → List (ℕ × V)
  remove k [] = []
  remove k ((j, v) ∷ m) = if k == j then remove k m else (j, v) ∷ remove k m

  -- A write through `get_mut`.
  unfoldable pub modify : ℕ → (V → V) → List (ℕ × V) → List (ℕ × V)
  modify k f [] = []
  modify k f ((j, v) ∷ m) = if k == j then (j, f v) ∷ modify k f m else (j, v) ∷ modify k f m

  pub lookup-insert :
      (j k : ℕ) (v : V) (m : List (ℕ × V))
      → lookup j (insert k v m) ≡ (if j == k then some v else lookup j m)
  unfolding lookup insert
  lookup-insert j k v [] = refl
  lookup-insert j k v ((i, w) ∷ m) = ground (arith, lookup-insert j k v m)

  pub lookup-remove :
      (j k : ℕ) (m : List (ℕ × V)) → lookup j (remove k m) ≡ (if j == k then none else lookup j m)
  unfolding lookup remove
  lookup-remove j k [] = ground arith
  lookup-remove j k ((i, w) ∷ m) = ground (arith, lookup-remove j k m)

  pub lookup-modify :
      (j k : ℕ) (f : V → V) (m : List (ℕ × V))
      → lookup j (modify k f m) ≡ (if j == k then Option.map f (lookup j m) else lookup j m)
  unfolding lookup modify
  lookup-modify j k f [] = ground arith
  lookup-modify j k f ((i, w) ∷ m) = ground (arith, lookup-modify j k f m)

  -- Each key stands in one entry.
  unfoldable pub IsUnique : List (ℕ × V) → Type 0
  IsUnique [] = Unit {0}
  IsUnique ((k, v) ∷ m) = (lookup k m ≡ none) × IsUnique m

  pub remove-IsUnique : (k : ℕ) (m : List (ℕ × V)) → IsUnique m → IsUnique (remove k m)
  unfolding remove IsUnique
  remove-IsUnique k [] h = tt
  remove-IsUnique k ((j, v) ∷ m) (fresh, h) = elim (Bool-cases (k == j)) [
    | inl same ↦ rw (same, remove, IsUnique) (remove-IsUnique k m h)
    | inr other ↦
        rw (other, remove, IsUnique) ((ground (arith, lookup-remove j k m), remove-IsUnique k m h))
  ]

  pub remove-absent : (k : ℕ) (m : List (ℕ × V)) → lookup k m ≡ none → remove k m ≡ m
  unfolding remove lookup
  remove-absent k [] h = refl
  remove-absent k ((j, v) ∷ m) h = ground (arith, remove-absent k m)

  -- Each entry of such a map is what its key finds.
  pub lookup-All : (m : List (ℕ × V)) → IsUnique m → All (λ c. lookup c.0 m ≡ some c.1) m
  unfolding lookup IsUnique
  lookup-All [] h = tt
  lookup-All ((k, v) ∷ m) (fresh, h) =
      (ground arith, All-imp (λ c found. ground arith) m (lookup-All m h))

  -- The sum over the entries.
  unfoldable pub total : (V → ℕ) → List (ℕ × V) → ℕ
  total weight [] = 0
  total weight ((k, v) ∷ m) = weight v + total weight m

  pub total-remove :
      (weight : V → ℕ) (k : ℕ) (v : V) (m : List (ℕ × V))
      → IsUnique m
      → lookup k m ≡ some v
      → total weight (remove k m) + weight v ≡ total weight m
  unfolding total remove lookup IsUnique
  total-remove weight k v [] h found = cc
  total-remove weight k v ((j, w) ∷ m) (fresh, h) found =
      ground (arith, total-remove weight k v m h, remove-absent k m)

  pub length-remove :
      (k : ℕ) (v : V) (m : List (ℕ × V))
      → IsUnique m
      → lookup k m ≡ some v
      → length (remove k m) + 1 ≡ length m
  unfolding remove lookup IsUnique
  length-remove k v [] h found = cc
  length-remove k v ((j, w) ∷ m) (fresh, h) found =
      ground (arith, length-remove k v m h, remove-absent k m)

  -- An entry of a new key.
  pub insert-IsUnique :
      (k : ℕ) (v : V) (m : List (ℕ × V))
      → lookup k m ≡ none
      → IsUnique m
      → IsUnique (insert k v m) × (length (insert k v m) ≡ length m + 1)
  unfolding insert lookup IsUnique
  insert-IsUnique k v [] absent h = ((refl, tt), refl)
  insert-IsUnique k v ((j, w) ∷ m) absent (fresh, h) =
      let (tail, longer) = insert-IsUnique k v m (ground arith) h in
      let apart : (k == j) ≡ false = ground arith in
      elim (Bool-cases (ltb k j)) [
        | inl first ↦ rw (apart, first, insert) ((absent, (fresh, h)), omega arith)
        | inr later ↦
            rw (apart, later, insert)
              ((ground (arith, lookup-insert j k v m), tail), omega (arith, longer))
      ]

  pub modify-IsUnique :
      (k : ℕ) (f : V → V) (m : List (ℕ × V))
      → IsUnique m
      → IsUnique (modify k f m) × (length (modify k f m) ≡ length m)
  unfolding modify IsUnique
  modify-IsUnique k f [] h = (tt, refl)
  modify-IsUnique k f ((j, w) ∷ m) (fresh, h) =
      let (tail, same) = modify-IsUnique k f m h in
      let absent : lookup j (modify k f m) ≡ none = ground (arith, lookup-modify j k f m) in
      elim (Bool-cases (k == j)) [
        | inl here ↦ rw (here, modify) ((absent, tail), omega (arith, same))
        | inr there ↦ rw (there, modify) ((absent, tail), omega (arith, same))
      ]
