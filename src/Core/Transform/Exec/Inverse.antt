-- ===== src/Core/Transform/Exec/Inverse.antt =====
-- crates/kvpack-core/src/transform/exec.rs: `invert` gives the inverse permutation.
use mathlib.Core.Path.{subst}
use kvpack.Base.{
  ℕ, zero, suc, ◌+◌, ◌<◌, ◌≡◌, ◌≢◌, refl, sym, ap, ◌∙◌, List, [], ◌∷◌, length, get_elem?, set,
}
use kvpack.Base.{All, All-imp, some, ok, replicate, length-replicate, arith}
use kvpack.Core.Transform.{validate_permutation}
use kvpack.Core.Transform.Permutation.{IsDistinct, validate_permutation_iff}
use kvpack.Core.Transform.Exec.{invert_from, invert}

length-set : (xs : List ℕ) (i v : ℕ) → length (set xs i v) ≡ length xs
length-set [] i v = refl
length-set (x ∷ xs) zero v = refl
length-set (x ∷ xs) (suc i) v = omega (arith, length-set xs i v)

get_elem?-set_same : (xs : List ℕ) (i v : ℕ) → i < length xs → get_elem? (set xs i v) i ≡ some v
get_elem?-set_same [] i v h = absurd (omega arith)
get_elem?-set_same (x ∷ xs) zero v h = refl
get_elem?-set_same (x ∷ xs) (suc i) v h = get_elem?-set_same xs i v (omega arith)

get_elem?-set_other : (xs : List ℕ) (i j v : ℕ) → i ≢ j → get_elem? (set xs i v) j ≡ get_elem? xs j
get_elem?-set_other [] i j v h = refl
get_elem?-set_other (x ∷ xs) zero zero v h = absurd (h refl)
get_elem?-set_other (x ∷ xs) zero (suc j) v h = refl
get_elem?-set_other (x ∷ xs) (suc i) zero v h = refl
get_elem?-set_other (x ∷ xs) (suc i) (suc j) v h = get_elem?-set_other xs i j v (λ e. h (ap suc e))

invert_from-other :
    (slot j : ℕ) (order inverse : List ℕ)
    → All (λ s. s ≢ j) order
    → get_elem? (invert_from slot order inverse) j ≡ get_elem? inverse j
unfolding invert_from
invert_from-other slot j [] inverse h = refl
invert_from-other slot j (s ∷ order) inverse (first, h) =
    invert_from-other (slot + 1) j order (set inverse s slot) h
    ∙ get_elem?-set_other inverse s j slot first

plus_zero : (n : ℕ) → n ≡ n + 0
plus_zero n = omega arith

plus_suc : (n k : ℕ) → n + 1 + k ≡ n + suc k
plus_suc n k = omega arith

zero_plus : (n : ℕ) → 0 + n ≡ n
zero_plus n = omega arith

invert_from-at :
    (slot k s : ℕ) (order inverse : List ℕ)
    → IsDistinct order
    → All (λ i. i < length inverse) order
    → get_elem? order k ≡ some s
    → get_elem? (invert_from slot order inverse) s ≡ some (slot + k)
unfolding invert_from
invert_from-at slot k s [] inverse distinct below h = absurd (ground arith)
invert_from-at slot zero s (i ∷ order) inverse (fresh, distinct) (first, below) h =
    let same : i ≡ s = cc in
    invert_from-other (slot + 1) s order (set inverse i slot)
      (All-imp (λ t apart met. apart (same ∙ sym met)) order fresh)
    ∙ subst (λ j. get_elem? (set inverse i slot) j ≡ some slot) same
        (get_elem?-set_same inverse i slot first)
    ∙ ap some (plus_zero slot)
invert_from-at slot (suc k) s (i ∷ order) inverse (fresh, distinct) (first, below) h =
    invert_from-at (slot + 1) k s order (set inverse i slot) distinct
      (All-imp (λ t less. omega (arith, less, length-set inverse i slot)) order below) h
    ∙ ap some (plus_suc slot k)

-- For an order that `validate_permutation` accepts, `invert` holds at each source of the order the
-- slot where that source stands.
pub invert-at :
    (order : List ℕ) (slot source : ℕ)
    → validate_permutation order ≡ ok tt
    → get_elem? order slot ≡ some source
    → get_elem? (invert order) source ≡ some slot
unfolding invert
invert-at order slot source valid h =
    let (some_slot, few, (below, distinct)) = (validate_permutation_iff order).0 valid in
    let size = length-replicate {A = ℕ} (length order) 0 in
    invert_from-at 0 slot source order (replicate (length order) 0) distinct
      (All-imp (λ t less. omega (arith, less, size)) order below) h
    ∙ ap some (zero_plus slot)
