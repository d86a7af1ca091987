-- ===== src/Core/Transform/Exec/Slabs.antt =====
-- crates/kvpack-core/src/transform/exec.rs: what the copying loops leave in the output.
use kvpack.Base.{ℕ, zero, suc, ◌+◌, ◌*◌, ◌≤◌, ◌≡◌, refl, sym, ap, ◌∙◌, List, [], ◌∷◌, ◌++◌, length}
use kvpack.Base.{drop, replicate, All, arith, append_assoc, append-nil}
use kvpack.Base.{take-append, drop-append, drop-drop, length-take, length-drop, length-append}
use native.Mathlib.Nat.{mod-add-div, mul-le-mul_right}
use kvpack.Base.{◌/◌, ◌%◌, ◌<◌, ok, ltb, not, false, ◌==◌, ◌||◌, length-replicate}
use kvpack.Core.Transform.{validate_permutation, max_permutation_width}
use kvpack.Core.Transform.Permutation.{validate_permutation_iff}
use kvpack.Core.Transform.Exec.{slice, copy_from_slice, copy_slabs, permute_slabs}

-- The slabs that the sources name, one after the other.
unfoldable pub slabs : ℕ → ℕ → List ℕ → List ℕ → List ℕ
slabs base slab plane [] = []
slabs base slab plane (source ∷ order) =
    slice (base + source * slab) slab plane ++ slabs base slab plane order

-- The counts are variables with equations.
copy_from_slice-append :
    (start : ℕ) (done bytes rest : List ℕ)
    → length done ≡ start
    → copy_from_slice start bytes (done ++ rest) ≡ (done ++ bytes) ++ drop (length bytes) rest
unfolding copy_from_slice
copy_from_slice-append start done bytes rest h =
    let front = take-append start done rest h in
    let back =
      sym (drop-drop start (length bytes) (start + length bytes) (done ++ rest) (omega arith))
      ∙ ap (drop (length bytes)) (drop-append start done rest h) in
    cc (front, back, append_assoc done bytes (drop (length bytes) rest))

-- A slab that stands inside the plane.
unfoldable pub IsInside : ℕ → ℕ → ℕ → ℕ → Type 0
IsInside base slab size source = base + source * slab + slab ≤ size

slice-length :
    (start size : ℕ) (plane : List ℕ)
    → start + size ≤ length plane
    → length (slice start size plane) ≡ size
unfolding slice
slice-length start size plane h =
    length-take size (drop start plane) (omega (arith, length-drop start plane))

pub copy_slabs-append :
    (base slab slot : ℕ) (plane order done rest : List ℕ)
    → length done ≡ base + slot * slab
    → All (IsInside base slab (length plane)) order
    → copy_slabs base slab plane slot order (done ++ rest)
      ≡ (done ++ slabs base slab plane order) ++ drop (length order * slab) rest
unfolding copy_slabs slabs IsInside
copy_slabs-append base slab slot plane [] done rest h inside =
    let e : length {A = ℕ} [] * slab ≡ 0 = omega arith in rw (e, append-nil done) refl
copy_slabs-append base slab slot plane (source ∷ order) done rest h (first, inside) =
    let bytes = slice (base + source * slab) slab plane in
    let size = slice-length (base + source * slab) slab plane first in
    let copied = copy_from_slice-append (base + slot * slab) done bytes rest h in
    let next =
      copy_slabs-append base slab (slot + 1) plane order (done ++ bytes) (drop slab rest)
        (omega (arith, length-append done bytes, size, h)) inside in
    let shorter =
      drop-drop slab (length order * slab) (length (source ∷ order) * slab) rest (omega arith) in
    cc (
      copied ∙ ap (λ k. (done ++ bytes) ++ drop k rest) size,
      next,
      append_assoc done bytes (slabs base slab plane order),
      shorter,
    )

-- All sources below the number of slabs stand inside.
sources-IsInside :
    (n slab size : ℕ) (order : List ℕ)
    → size ≡ n * slab
    → All (λ s. s < n) order
    → All (IsInside 0 slab size) order
unfolding IsInside
sources-IsInside n slab size [] h below = tt
sources-IsInside n slab size (s ∷ order) h (first, below) = (
  omega (arith, mul-le-mul_right {m = suc s} {n = n} slab (omega arith)),
  sources-IsInside n slab size order h below,
)

exact_slabs : (size n : ℕ) → size % n ≡ 0 → size ≡ n * (size / n)
exact_slabs size n h = omega (arith, mod-add-div size n)

drop-all : (n : ℕ) (xs : List ℕ) → length xs ≡ n → drop n xs ≡ []
drop-all zero [] h = refl
drop-all zero (x ∷ xs) h = absurd (omega arith)
drop-all (suc n) [] h = refl
drop-all (suc n) (x ∷ xs) h = drop-all n xs (omega arith)

guard-open :
    (n m : ℕ)
    → n ≤ max_permutation_width
    → m ≡ 0
    → (ltb max_permutation_width n || not (m == 0)) ≡ false
guard-open n m few even = ground arith

-- For an order that `validate_permutation` accepts and a plane whose bytes divide into as many slabs,
-- the executor succeeds, and its output is the slabs that the order names, one after the other.
pub permute_slabs-slabs :
    (order plane : List ℕ)
    → validate_permutation order ≡ ok tt
    → length plane % length order ≡ 0
    → permute_slabs order plane ≡ ok (slabs 0 (length plane / length order) plane order)
unfolding permute_slabs
permute_slabs-slabs order plane valid even =
    let (some_slab, few, (below, distinct)) = (validate_permutation_iff order).0 valid in
    let n = length order in
    let slab = length plane / n in
    let size = exact_slabs (length plane) n even in
    let blank : List ℕ = replicate (length plane) 0 in
    let copied =
      copy_slabs-append 0 slab 0 plane order [] blank (omega arith)
        (sources-IsInside n slab (length plane) order size below) in
    let nothing_left =
      drop-all (n * slab) blank (omega (arith, size, length-replicate {A = ℕ} (length plane) 0)) in
    let open_guard = guard-open n (length plane % n) few even in
    rw (open_guard, valid)
      (ap ok (
        copied
        ∙ ap (λ rest. slabs 0 slab plane order ++ rest) nothing_left
        ∙ append-nil (slabs 0 slab plane order)))
