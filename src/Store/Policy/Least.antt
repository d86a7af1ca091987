-- ===== src/Store/Policy/Least.antt =====
-- crates/kvpack/src/store/policy.rs: `victim` against an independent order of the objects.
use mathlib.Core.Path.{subst}
use mathlib.Core.List.{Mem, mem-cons_self, mem-cons_of_mem}
use kvpack.Base.{
  ℕ, ◌≡◌, refl, List, [], ◌∷◌, ◌++◌, Bool, true, false, Option, none, some, All, All-imp,
}
use kvpack.Base.{◌<◌, ◌≤◌, ◌⊎◌, inl, inr, Bool-cases, Option-cases, arith}
use kvpack.Base.Maps.{lookup}
use kvpack.Store.Policy.{PolicyEntry, TinyLfuPolicy, is_protected}
use kvpack.Store.Policy.Admission.{Candidate, candidates, precedes, precedes_victim, least_from}
use kvpack.Store.Policy.Admission.{min_by_key, victim}

pub precedes_trans :
    (a b c : Candidate) → precedes a b ≡ false → precedes b c ≡ false → precedes a c ≡ false
unfolding precedes
precedes_trans a b c h g = ground arith

precedes_victim_trans :
    (a b c : Candidate)
    → precedes_victim a b ≡ false
    → precedes_victim b c ≡ false
    → precedes_victim a c ≡ false
unfolding precedes_victim is_protected
precedes_victim_trans a b c h g = ground (arith, precedes_trans a b c)

pub precedes_irrefl : (a : Candidate) → precedes a a ≡ false
unfolding precedes
precedes_irrefl a = ground arith

pub precedes-asym : (a b : Candidate) → precedes a b ≡ true → precedes b a ≡ false
unfolding precedes
precedes-asym a b h = ground arith

precedes_victim-asym : (a b : Candidate) → precedes_victim a b ≡ true → precedes_victim b a ≡ false
unfolding precedes_victim is_protected
precedes_victim-asym a b h = ground (arith, precedes-asym a b)

precedes_victim_irrefl : (a : Candidate) → precedes_victim a a ≡ false
unfolding precedes_victim is_protected
precedes_victim_irrefl a = ground (arith, precedes_irrefl a)

some-injective : {C : Type 0} {x y : C} → ◌≡◌ {A = Option C} (some x) (some y) → x ≡ y
some-injective h = cc

-- No candidate comes before the one that the scan keeps.
module _ {C : Type 0} (before : C → C → Bool)
    (trans : (a b c : C) → before a b ≡ false → before b c ≡ false → before a c ≡ false)
    (asym : (a b : C) → before a b ≡ true → before b a ≡ false)
    (irrefl : (a : C) → before a a ≡ false) where
  -- Nothing of the list comes before the element.
  unfoldable pub IsLeast : List C → C → Type 0
  IsLeast cs v = All (λ c. before c v ≡ false) cs

  scan-first :
      (best c : C) (cs : List C)
      → before c best ≡ true
      → least_from before c cs ≡ least_from before best (c ∷ cs)
  unfolding least_from
  scan-first best c cs h = rw h refl

  scan-later :
      (best c : C) (cs : List C)
      → before c best ≡ false
      → least_from before best cs ≡ least_from before best (c ∷ cs)
  unfolding least_from
  scan-later best c cs h = rw h refl

  least_from-IsLeast : (best : C) (cs : List C) → IsLeast (best ∷ cs) (least_from before best cs)
  unfolding IsLeast least_from
  least_from-IsLeast best [] = (irrefl best, tt)
  least_from-IsLeast best (c ∷ cs) = elim (Bool-cases (before c best)) [
    | inl first ↦
        let (least, rest) = least_from-IsLeast c cs in
        subst (IsLeast (best ∷ (c ∷ cs))) (scan-first best c cs first)
          ((trans best c (least_from before c cs) (asym c best first) least, (least, rest)))
    | inr later ↦
        let (least, rest) = least_from-IsLeast best cs in
        subst (IsLeast (best ∷ (c ∷ cs))) (scan-later best c cs later)
          ((least, (trans c best (least_from before best cs) later least, rest)))
  ]

  pub min_by_key-IsLeast : (cs : List C) (v : C) → min_by_key before cs ≡ some v → IsLeast cs v
  unfolding min_by_key IsLeast
  min_by_key-IsLeast [] v h = tt
  min_by_key-IsLeast (c ∷ cs) v h =
      subst (IsLeast (c ∷ cs)) (some-injective h) (least_from-IsLeast c cs)

pub candidates-lookup :
    (entries : List (ℕ × PolicyEntry)) (queue : List ℕ)
    → All (λ c. lookup c.0 entries ≡ some c.1) (candidates entries queue)
unfolding candidates
candidates-lookup entries [] = tt
candidates-lookup entries (key ∷ queue) = elim (Option-cases (lookup key entries)) [
  | inl absent ↦ rw (absent, candidates) (candidates-lookup entries queue)
  | inr (e, found) ↦ rw (found, candidates) ((found, candidates-lookup entries queue))
]

pub least_from-All :
    {C : Type 0} (P : C → Type 0) (before : C → C → Bool) (best : C) (cs : List C)
    → P best
    → All P cs
    → P (least_from before best cs)
unfolding least_from
least_from-All P before best [] h hs = h
least_from-All P before best (c ∷ cs) h (g, hs) = elim (Bool-cases (before c best)) [
  | inl first ↦ rw (first, least_from) (least_from-All P before c cs g hs)
  | inr later ↦ rw (later, least_from) (least_from-All P before best cs h hs)
]

pub min_by_key-All :
    {C : Type 0} (P : C → Type 0) (before : C → C → Bool) (cs : List C) (v : C)
    → min_by_key before cs ≡ some v
    → All P cs
    → P v
unfolding min_by_key
min_by_key-All P before [] v h hs = absurd (ground arith)
min_by_key-All P before (c ∷ cs) v h hs =
    subst P (some-injective h) (least_from-All P before c cs hs.0 hs.1)

-- The objects that the queues hold and the map knows, with their entries.
abbrev pub evictable : TinyLfuPolicy → List Candidate
evictable p = candidates p.entries (p.probation ++ p.protection)

-- No later than the other in the order of score, time of last access and key.
unfoldable pub IsNoLater : Candidate → Candidate → Type 0
IsNoLater (k, e) (j, f) =
    (e.score < f.score)
    ⊎ ((e.score ≡ f.score)
        × ((e.last_access_ns < f.last_access_ns)
            ⊎ ((e.last_access_ns ≡ f.last_access_ns) × (k ≤ j))))

-- In probation while the other is protected, or of the same segment and no later.
unfoldable pub IsNoLaterVictim : Candidate → Candidate → Type 0
IsNoLaterVictim (k, e) (j, f) =
    ((is_protected e.segment ≡ false) × (is_protected f.segment ≡ true))
    ⊎ ((is_protected e.segment ≡ is_protected f.segment) × IsNoLater (k, e) (j, f))

pub precedes-IsNoLater : (a b : Candidate) → precedes b a ≡ false → IsNoLater a b
unfolding precedes IsNoLater
precedes-IsNoLater a b h = ground arith

precedes_victim-IsNoLater : (a b : Candidate) → precedes_victim b a ≡ false → IsNoLaterVictim a b
unfolding precedes_victim IsNoLaterVictim is_protected
precedes_victim-IsNoLater a b h = ground (arith, precedes-IsNoLater a b)

pub min_by_key-none :
    {C : Type 0} (before : C → C → Bool) (cs : List C) → min_by_key before cs ≡ none → cs ≡ []
unfolding min_by_key
min_by_key-none before [] h = refl
min_by_key-none before (c ∷ cs) h = cc

pub all_mem : {C : Type 0} (cs : List C) → All (λ c. Mem c cs) cs
all_mem [] = tt
all_mem (c ∷ cs) = (mem-cons_self, All-imp (λ d h. mem-cons_of_mem c h) cs (all_mem cs))

-- There is no victim exactly where the queues hold no known object. Otherwise the victim is one of
-- them, with its entry, and against each of them it is in probation while the other is protected, or
-- of the same segment and no later in the order of score, time of last access and key.
pub victim_least :
    (p : TinyLfuPolicy)
    → ((victim p ≡ none) × (evictable p ≡ []))
      ⊎ ((key : ℕ) × (e : PolicyEntry) × ((victim p ≡ some key)
            × ((lookup key p.entries ≡ some e)
                × (Mem (key, e) (evictable p)
                    × All (λ c. IsNoLaterVictim (key, e) c) (evictable p)))))
unfolding victim IsLeast
victim_least p = elim (Option-cases (min_by_key precedes_victim (evictable p))) [
  | inl nothing ↦
      inl (rw (nothing, victim) refl, min_by_key-none precedes_victim (evictable p) nothing)
  | inr ((key, e), found) ↦ inr (
    key,
    e,
    (
      rw (found, victim) refl,
      (
        min_by_key-All (λ c. lookup c.0 p.entries ≡ some c.1) precedes_victim (evictable p) (key, e)
            found (candidates-lookup p.entries (p.probation ++ p.protection)),
        (
          min_by_key-All (λ c. Mem c (evictable p)) precedes_victim (evictable p) (key, e) found
              (all_mem (evictable p)),
          All-imp (λ c h. precedes_victim-IsNoLater (key, e) c h) (evictable p)
              (min_by_key-IsLeast precedes_victim precedes_victim_trans precedes_victim-asym
                precedes_victim_irrefl (evictable p) (key, e) found),
        ),
      ),
    ),
  )
]
