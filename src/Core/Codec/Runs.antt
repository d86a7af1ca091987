-- ===== src/Core/Codec/Runs.antt =====
-- Runs of equal bytes, and the literal packet between them.
use kvpack.Base.{ℕ, zero, suc, ◌+◌, ◌-◌, ◌≤◌, ◌<◌, ◌≡◌, refl, ap, List, [], ◌∷◌, arith}
use kvpack.Base.{length, take, drop, replicate, ◌⊎◌, inl, inr, length-drop, drop-drop}
use kvpack.Core.Codec.{repeated_run_loop, repeated_run, literal_loop}

repeated_run_loop_bounds :
    (first run : ℕ) (input : List ℕ)
    → run ≤ 128
    → (run ≤ repeated_run_loop first run input)
      × (repeated_run_loop first run input ≤ 128)
      × (repeated_run_loop first run input ≤ run + length input)
unfolding repeated_run_loop
repeated_run_loop_bounds first run [] h = omega arith
repeated_run_loop_bounds first run (b ∷ input) h =
    ground (arith, repeated_run_loop_bounds first (run + 1) input)

-- A run is of 1 to 128 bytes, and lies inside the input.
pub repeated_run_bounds :
    (b : ℕ) (input : List ℕ)
    → (1 ≤ repeated_run (b ∷ input))
      × (repeated_run (b ∷ input) ≤ 128)
      × (repeated_run (b ∷ input) ≤ suc (length input))
unfolding repeated_run
repeated_run_bounds b input = omega (arith, repeated_run_loop_bounds b 1 input (omega arith))

take-repeated_run_loop :
    (first run more : ℕ) (input : List ℕ)
    → repeated_run_loop first run input ≡ run + more
    → take more input ≡ replicate more first
unfolding repeated_run_loop
take-repeated_run_loop first run zero input h = refl
take-repeated_run_loop first run (suc more) [] h = absurd (omega arith)
take-repeated_run_loop first run (suc more) (b ∷ input) h =
    ground (arith, take-repeated_run_loop first (run + 1) more input)

-- The bytes of a run are copies of its first byte.
pub take-repeated_run :
    (b : ℕ) (input : List ℕ)
    → take (repeated_run (b ∷ input)) (b ∷ input) ≡ replicate (repeated_run (b ∷ input)) b
unfolding repeated_run
take-repeated_run b input =
    let run = repeated_run_loop b 1 input in
    let e : run ≡ suc (run - 1) = omega (arith, repeated_run_loop_bounds b 1 input (omega arith)) in
    rw e (ap (◌∷◌ b) (take-repeated_run_loop b 1 (run - 1) input (omega arith)))

-- One round of the literal loop: full, stopped by a run, cut at 128 bytes, or going on.
abbrev Round : ℕ → ℕ → ℕ → ℕ → Type 0
Round count run later whole =
    ((128 ≤ count) × (whole ≡ count))
    ⊎ ((3 ≤ run) × (whole ≡ count))
    ⊎ ((128 < count + run) × (whole ≡ 128))
    ⊎ ((count + run ≤ 128) × (whole ≡ later))

literal_loop-Round :
    (fuel count b : ℕ) (input : List ℕ)
    → Round count
        (repeated_run (b ∷ input))
        (literal_loop fuel
          (count + repeated_run (b ∷ input))
          (drop (repeated_run (b ∷ input)) (b ∷ input)))
        (literal_loop (suc fuel) count (b ∷ input))
unfolding literal_loop
literal_loop-Round fuel count b input = ground arith

pub literal_loop_bounds :
    (fuel count : ℕ) (input : List ℕ)
    → count ≤ 128
    → (count ≤ literal_loop fuel count input)
      × (literal_loop fuel count input ≤ 128)
      × (literal_loop fuel count input ≤ count + length input)
literal_loop_bounds fuel count [] h = unfold literal_loop in omega arith
literal_loop_bounds zero count (b ∷ input) h = unfold literal_loop in omega arith
literal_loop_bounds (suc fuel) count (b ∷ input) h =
    let run = repeated_run (b ∷ input) in
    elim (literal_loop-Round fuel count b input) [
      | inl p ↦ omega arith
      | inr (inl p) ↦ omega arith
      | inr (inr (inl p)) ↦ omega (arith, repeated_run_bounds b input)
      | inr (inr (inr p)) ↦ omega (
        arith,
        repeated_run_bounds b input,
        length-drop run (b ∷ input),
        literal_loop_bounds fuel (count + run) (drop run (b ∷ input)) p.0,
      )
    ]

-- What follows a literal packet that is not full: nothing, or a run worth a repeat packet.
abbrev pub RunOrEnd : List ℕ → Type 0
RunOrEnd [] = Unit
RunOrEnd (b ∷ input) = 3 ≤ repeated_run (b ∷ input)

-- The literal packet stops at 128 bytes, at the end, or before a run of three.
pub literal_loop_stops :
    (fuel count : ℕ) (input : List ℕ)
    → count ≤ 128
    → length input ≤ fuel
    → literal_loop fuel count input < 128
    → RunOrEnd (drop (literal_loop fuel count input - count) input)
literal_loop_stops fuel count [] h hf lt = ends _
  where
    ends : (n : ℕ) → RunOrEnd (drop n [])
    ends zero = tt
    ends (suc n) = tt
literal_loop_stops zero count (b ∷ input) h hf lt = absurd (omega arith)
literal_loop_stops (suc fuel) count (b ∷ input) h hf lt =
    let run = repeated_run (b ∷ input) in
    let rest = drop run (b ∷ input) in
    let end = literal_loop fuel (count + run) rest in
    elim (literal_loop-Round fuel count b input) [
      | inl p ↦ absurd (omega arith)
      | inr (inl p) ↦
          let zero_left : literal_loop (suc fuel) count (b ∷ input) - count ≡ 0 = omega arith in
          rw zero_left p.0
      | inr (inr (inl p)) ↦ absurd (omega arith)
      | inr (inr (inr p)) ↦
          let shorter : length rest ≤ fuel =
            omega (arith, length-drop run (b ∷ input), repeated_run_bounds b input) in
          let grown : count + run ≤ end = (literal_loop_bounds fuel (count + run) rest p.0).0 in
          let split : drop (end - (count + run)) rest ≡ drop (end - count) (b ∷ input) =
            drop-drop run (end - (count + run)) (end - count) (b ∷ input) (omega arith) in
          rw p.1
            (rw split at (literal_loop_stops fuel (count + run) rest p.0 shorter (omega arith)))
    ]
