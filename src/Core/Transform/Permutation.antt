-- ===== src/Core/Transform/Permutation.antt =====
-- What `validate_permutation` accepts: lists of 1 to MAX_PERMUTATION_WIDTH distinct indices, each
-- below the length.
use kvpack.Base.{ℕ, zero, suc, ◌≤◌, ◌<◌, ◌≡◌, refl, sym, ap, ◌∙◌, List, [], ◌∷◌, arith, ◌≢◌}
use kvpack.Base.{Bool, true, false, not, ◌||◌, ltb, ◌==◌, length, set, replicate, All, ok}
use kvpack.Base.{fail_if-eq-ok, lt→ltb, length-replicate, ◌↔◌}
use kvpack.Core.Transform.{check_indices, validate_permutation, is_seen, max_permutation_width}

-- No index occurs twice.
abbrev pub IsDistinct : List ℕ → Type 0
IsDistinct [] = Unit
IsDistinct (x ∷ xs) = All (λ y. x ≢ y) xs × IsDistinct xs

abbrev pub IsPermutation : List ℕ → Type 0
IsPermutation order = All (λ i. i < length order) order × IsDistinct order

length-set : (seen : List Bool) (slot : ℕ) (v : Bool) → length (set seen slot v) ≡ length seen
length-set [] slot v = refl
length-set (s ∷ seen) zero v = refl
length-set (s ∷ seen) (suc slot) v = ap suc (length-set seen slot v)

is_seen-set_self :
    (seen : List Bool) (slot : ℕ) → slot < length seen → is_seen (set seen slot true) slot ≡ true
is_seen-set_self [] slot h = absurd (omega arith)
is_seen-set_self (s ∷ seen) zero h = refl
is_seen-set_self (s ∷ seen) (suc slot) h = is_seen-set_self seen slot (omega arith)

is_seen-set_ne : (seen : List Bool) (i j : ℕ) → i ≢ j → is_seen (set seen i true) j ≡ is_seen seen j
is_seen-set_ne [] i j h = refl
is_seen-set_ne (s ∷ seen) zero zero h = absurd (h refl)
is_seen-set_ne (s ∷ seen) zero (suc j) h = refl
is_seen-set_ne (s ∷ seen) (suc i) zero h = refl
is_seen-set_ne (s ∷ seen) (suc i) (suc j) h = is_seen-set_ne seen i j (λ e. h (ap suc e))

-- What the loop accepts, from any marks on.
abbrev Fresh : List Bool → ℕ → Type 0
Fresh seen index = (index < length seen) × (is_seen seen index ≡ false)

All-impl : (P Q : ℕ → Type 0) (xs : List ℕ) → ((x : ℕ) → P x → Q x) → All P xs → All Q xs
All-impl P Q [] f h = tt
All-impl P Q (x ∷ xs) f h = (f x h.0, All-impl P Q xs f h.1)

check_indices-accepts :
    (order : List ℕ) (seen : List Bool)
    → check_indices order seen ≡ ok tt
    → All (Fresh seen) order × IsDistinct order
unfolding check_indices
check_indices-accepts [] seen e = (tt, tt)
check_indices-accepts (i ∷ order) seen e =
    let (inside, e₁) = fail_if-eq-ok (not (ltb i (length seen))) _ _ e in
    let (fresh, e₂) = fail_if-eq-ok (is_seen seen i) _ _ e₁ in
    let (later, distinct) = check_indices-accepts order (set seen i true) e₂ in
    let here : i < length seen = ground arith in
    (
      ((here, fresh), All-impl _ _ order (older here) later),
      (All-impl _ _ order (other here) later, distinct),
    )
  where
    other : i < length seen → (j : ℕ) → Fresh (set seen i true) j → i ≢ j
    other here j (_, marked) e' =
        absurd (grind (arith, is_seen-set_self seen i here, rw (← e') at marked))

    older : i < length seen → (j : ℕ) → Fresh (set seen i true) j → Fresh seen j
    older here j (below, marked) = (
      omega (arith, length-set seen i true),
      sym (is_seen-set_ne seen i j (other here j (below, marked))) ∙ marked,
    )

check_indices_complete :
    (order : List ℕ) (seen : List Bool)
    → All (Fresh seen) order
    → IsDistinct order
    → check_indices order seen ≡ ok tt
unfolding check_indices
check_indices_complete [] seen a d = refl
check_indices_complete (i ∷ order) seen ((here, fresh), a) (ne, d) =
    let later = All-both order (λ j p q. still j p q) a ne in
    let rest = check_indices_complete order (set seen i true) later d in
    rw (lt→ltb i (length seen) here, fresh) rest
  where
    still : (j : ℕ) → Fresh seen j → i ≢ j → Fresh (set seen i true) j
    still j (below, unmarked) ne' =
        (omega (arith, length-set seen i true), is_seen-set_ne seen i j ne' ∙ unmarked)

    All-both :
        (xs : List ℕ)
        → ((j : ℕ) → Fresh seen j → i ≢ j → Fresh (set seen i true) j)
        → All (Fresh seen) xs
        → All (λ j. i ≢ j) xs
        → All (Fresh (set seen i true)) xs
    All-both [] f p q = tt
    All-both (x ∷ xs) f (p, ps) (q, qs) = (f x p q, All-both xs f ps qs)

is_seen-replicate : (n i : ℕ) → is_seen (replicate n false) i ≡ false
is_seen-replicate zero i = refl
is_seen-replicate (suc n) zero = refl
is_seen-replicate (suc n) (suc i) = is_seen-replicate n i

-- `validate_permutation` accepts exactly the lists of 1 to MAX_PERMUTATION_WIDTH entries that are
-- permutations of the indices below their length: each entry is below the length, and none repeats.
pub validate_permutation_iff :
    (order : List ℕ)
    → (validate_permutation order ≡ ok tt)
      ↔ ((1 ≤ length order) × (length order ≤ max_permutation_width) × IsPermutation order)
unfolding validate_permutation
validate_permutation_iff order = (accepts, complete)
  where
    n : ℕ
    n = length order

    accepts :
        validate_permutation order ≡ ok tt
        → (1 ≤ n) × (n ≤ max_permutation_width) × IsPermutation order
    accepts e =
        let (size, e₁) = fail_if-eq-ok (n == 0 || ltb max_permutation_width n) _ _ e in
        let (fresh, distinct) = check_indices-accepts order (replicate n false) e₁ in
        (
          ground arith,
          ground arith,
          (
            All-impl _ _ order (λ i p. omega (arith, length-replicate n false, p.0)) fresh,
            distinct,
          ),
        )

    complete :
        (1 ≤ n) × (n ≤ max_permutation_width) × IsPermutation order
        → validate_permutation order ≡ ok tt
    complete (lo, hi, (below, distinct)) =
        let fresh =
          All-impl (λ i. i < n) (Fresh (replicate n false)) order
            (λ i p. (omega (arith, length-replicate n false), is_seen-replicate n i)) below in
        let rest = check_indices_complete order (replicate n false) fresh distinct in ground arith
