-- ===== src/Store/Policy/Demotion.antt =====
-- crates/kvpack/src/store/policy.rs: `demote_protected_overflow` brings the protected bytes under
-- their bound.
use kvpack.Base.{ℕ, ◌+◌, ◌-◌, ◌≤◌, ◌≡◌, refl, List, [], ◌∷◌, ◌++◌, Option, none, some, ltb}
use kvpack.Base.{inl, inr, Bool-cases, Option-cases, arith}
use kvpack.Base.Maps.{lookup, modify, lookup-modify}
use kvpack.Store.Policy.{PolicyEntry, TinyLfuPolicy, demote_one, demote_loop, demoted}
use kvpack.Store.Policy.{demote_protected_overflow, protected_bound}

unfoldable pub bytes_of : Option PolicyEntry → ℕ
bytes_of none = 0
bytes_of (some e) = e.object_bytes

-- The bytes of the entries that the keys of a queue find.
unfoldable pub queue_bytes : List (ℕ × PolicyEntry) → List ℕ → ℕ
queue_bytes entries [] = 0
queue_bytes entries (key ∷ queue) = bytes_of (lookup key entries) + queue_bytes entries queue

-- The count of the protected bytes is the sum over the protected queue.
unfoldable pub IsBalanced : TinyLfuPolicy → Type 0
IsBalanced p = p.protected_bytes ≡ queue_bytes p.entries p.protection

queue_bytes-modify :
    (key : ℕ) (entries : List (ℕ × PolicyEntry)) (queue : List ℕ)
    → queue_bytes (modify key demoted entries) queue ≡ queue_bytes entries queue
unfolding queue_bytes bytes_of
queue_bytes-modify key entries [] = refl
queue_bytes-modify key entries (j ∷ queue) =
    ground (arith, queue_bytes-modify key entries queue, lookup-modify j key demoted entries)

demote_one-none : (p : TinyLfuPolicy) (key : ℕ) → lookup key p.entries ≡ none → demote_one p key ≡ p
unfolding demote_one
demote_one-none p key h = ground arith

demote_one-some :
    (p : TinyLfuPolicy) (key : ℕ) (e : PolicyEntry)
    → lookup key p.entries ≡ some e
    → demote_one p key ≡ record p {
      entries = modify key demoted p.entries;
      protected_bytes = p.protected_bytes - e.object_bytes;
      probation = p.probation ++ (key ∷ []);
    }
unfolding demote_one
demote_one-some p key e h = ground arith

-- What a round of the loop keeps, for the key at the front of the protected queue.
IsDemoted : List ℕ → TinyLfuPolicy → Type 0
IsDemoted queue p = IsBalanced p × ((p.protection ≡ queue))

demote_one-IsDemoted :
    (key : ℕ) (queue : List ℕ) (p : TinyLfuPolicy)
    → p.protected_bytes ≡ queue_bytes p.entries (key ∷ queue)
    → IsDemoted queue (demote_one (record p { protection = queue }) key)
unfolding IsDemoted IsBalanced queue_bytes bytes_of
demote_one-IsDemoted key queue p balanced = elim (Option-cases (lookup key p.entries)) [
  | inl absent ↦
      rw (demote_one-none (record p { protection = queue }) key absent) ((ground arith, refl))
  | inr (e, found) ↦
      rw (demote_one-some (record p { protection = queue }) key e found)
        ((ground (arith, queue_bytes-modify key p.entries queue), refl))
]

demote_one-config : (p : TinyLfuPolicy) (key : ℕ) → (demote_one p key).config ≡ p.config
unfolding demote_one
demote_one-config p key = ground arith

demote_loop-bounded :
    (queue : List ℕ) (bound : ℕ) (p : TinyLfuPolicy)
    → p.protection ≡ queue
    → IsBalanced p
    → IsBalanced (demote_loop queue bound p) × ((demote_loop queue bound p).protected_bytes ≤ bound)
unfolding demote_loop IsBalanced queue_bytes IsDemoted
demote_loop-bounded [] bound p same balanced = (balanced, ground arith)
demote_loop-bounded (key ∷ queue) bound p same balanced =
    let (kept, next) = demote_one-IsDemoted key queue p (ground arith) in
    let after =
      demote_loop-bounded queue bound (demote_one (record p { protection = queue }) key) next
        kept in
    elim (Bool-cases (ltb bound p.protected_bytes)) [
      | inl over ↦ rw (over, demote_loop) after
      | inr under ↦ rw (under, demote_loop) ((balanced, ground arith))
    ]

-- Where the count of the protected bytes is the sum over the protected queue, it is so again after
-- `demote_protected_overflow`, and the count is then at most the configured share of the capacity.
pub demote_protected_overflow-bounded :
    (p : TinyLfuPolicy)
    → IsBalanced p
    → IsBalanced (demote_protected_overflow p)
      × ((demote_protected_overflow p).protected_bytes ≤ protected_bound p.config)
unfolding demote_protected_overflow
demote_protected_overflow-bounded p balanced =
    demote_loop-bounded p.protection (protected_bound p.config) p refl balanced
