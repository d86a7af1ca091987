-- ===== src/Handoff/Mux/Order.antt =====
-- The mux hands out the frames in the order of their sequences, each once, and loses none.
use mathlib.Core.Path.{subst}
use kvpack.Base.{
  ℕ, ◌≤◌, ◌≡◌, List, [], ◌∷◌, map, true, ok, length, get_elem?, All, Result-cases, All-imp, some,
  arith, ok-injective, inl, inr,
}
use kvpack.Handoff.Mux.{SprayLayerFrame, SequenceMux, new, accept, is_complete, Call, arrive, pop}
use kvpack.Handoff.Mux.{run}
use kvpack.Handoff.Mux.Steps.{upto, IsOrdered, IsSound, IsKept, pop_into-IsSound, pop_into-IsKept}
use kvpack.Handoff.Mux.Steps.{accept-IsSound, accept-IsKept, accepted-IsKept, new-IsSound}
use kvpack.Handoff.Mux.Steps.{complete-all}

module _ {B : Type 0} where
  -- The frames that arrive in the calls.
  unfoldable pub arrivals : List (Call B) → List (SprayLayerFrame B)
  arrivals [] = []
  arrivals (arrive f ∷ calls) = f ∷ arrivals calls
  arrivals (pop ∷ calls) = arrivals calls

  run-arrive :
      (m n : SequenceMux B) (popped out : List (SprayLayerFrame B)) (f : SprayLayerFrame B)
      (calls : List (Call B))
      → run (arrive f ∷ calls) (m, popped) ≡ ok (n, out)
      → (t : SequenceMux B) × ((accept m f ≡ ok t) × (run calls (t, popped) ≡ ok (n, out)))
  unfolding run
  run-arrive m n popped out f calls h = elim (Result-cases (accept m f)) [
    | inl (e, refused) ↦ absurd (ground arith)
    | inr (t, taken) ↦ (t, (taken, ground arith))
  ]

  run-IsSound :
      (calls : List (Call B)) (m n : SequenceMux B) (popped out : List (SprayLayerFrame B))
      → run calls (m, popped) ≡ ok (n, out)
      → IsSound m popped
      → IsSound n out
  unfolding run
  run-IsSound [] m n popped out h sound = subst (λ s. IsSound s.0 s.1) (ok-injective h) sound
  run-IsSound (arrive f ∷ calls) m n popped out h sound =
      let (t, (taken, rest)) = run-arrive m n popped out f calls h in
      run-IsSound calls t n popped out rest (accept-IsSound m t popped f taken sound)
  run-IsSound (pop ∷ calls) m n popped out h sound =
      run-IsSound calls _ n _ out h (pop_into-IsSound m popped sound)

  run-IsKept :
      (calls : List (Call B)) (m n : SequenceMux B) (popped out : List (SprayLayerFrame B))
      (g : SprayLayerFrame B)
      → run calls (m, popped) ≡ ok (n, out)
      → IsSound m popped
      → IsKept m popped g
      → IsKept n out g
  unfolding run IsSound
  run-IsKept [] m n popped out g h sound kept = subst (λ s. IsKept s.0 s.1 g) (ok-injective h) kept
  run-IsKept (arrive f ∷ calls) m n popped out g h sound kept =
      let (t, (taken, rest)) = run-arrive m n popped out f calls h in
      run-IsKept calls t n popped out g rest (accept-IsSound m t popped f taken sound)
        (accept-IsKept m t popped f g taken kept)
  run-IsKept (pop ∷ calls) m n popped out g h sound kept =
      run-IsKept calls _ n _ out g h (pop_into-IsSound m popped sound)
        (pop_into-IsKept m popped g sound.1.1.0 kept)

  run-arrivals :
      (calls : List (Call B)) (m n : SequenceMux B) (popped out : List (SprayLayerFrame B))
      → run calls (m, popped) ≡ ok (n, out)
      → IsSound m popped
      → All (IsKept n out) (arrivals calls)
  unfolding run arrivals
  run-arrivals [] m n popped out h sound = tt
  run-arrivals (arrive f ∷ calls) m n popped out h sound =
      let (t, (taken, rest)) = run-arrive m n popped out f calls h in
      let after = accept-IsSound m t popped f taken sound in
      (
        run-IsKept calls t n popped out f rest after (accepted-IsKept m t popped f taken),
        run-arrivals calls t n popped out rest after,
      )
  run-arrivals (pop ∷ calls) m n popped out h sound =
      run-arrivals calls _ n _ out h (pop_into-IsSound m popped sound)

  -- Whatever the order in which frames arrive at a new mux and are popped, as long as no arrival is
  -- refused, the frames popped have the sequences 0, 1, 2 and so on, without a gap or a repetition,
  -- and there are as many of them as `next` says, which is at most the declared count.
  pub run-in_order :
      (expected : ℕ) (calls : List (Call B)) (m : SequenceMux B) (out : List (SprayLayerFrame B))
      → run calls (new expected, []) ≡ ok (m, out)
      → (map (λ f. f.sequence) out ≡ upto m.next) × ((length out ≡ m.next) × (m.next ≤ m.expected))
  unfolding IsSound IsOrdered
  run-in_order expected calls m out h = (run-IsSound calls _ m [] out h (new-IsSound B expected)).1

  -- Where arrivals and pops at a new mux, in any order and with no arrival refused, end with the mux
  -- complete, each frame that arrived was popped, with its body, at the place of its sequence.
  pub run-delivers :
      (expected : ℕ) (calls : List (Call B)) (m : SequenceMux B) (out : List (SprayLayerFrame B))
      → run calls (new expected, []) ≡ ok (m, out)
      → is_complete m ≡ true
      → All (λ f. get_elem? out f.sequence ≡ some f) (arrivals calls)
  run-delivers expected calls m out h done =
      All-imp
        (λ f. complete-all m out f done (run-IsSound calls _ m [] out h (new-IsSound B expected)))
        (arrivals calls) (run-arrivals calls _ m [] out h (new-IsSound B expected))
