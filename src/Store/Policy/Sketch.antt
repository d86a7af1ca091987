-- ===== src/Store/Policy/Sketch.antt =====
-- crates/kvpack/src/store/policy.rs: the estimates of the frequency sketch when an access is counted.
use mathlib.Core.Path.{subst}
use native.Mathlib.Nat.{mod-lt}
use kvpack.Base.{ℕ, zero, suc, ◌+◌, ◌*◌, ◌%◌, ◌≤◌, ◌<◌, ◌≡◌, refl, min, List, [], ◌∷◌, All, set}
use kvpack.Base.{length, arith, ◌==◌, true, Bool-cases, inl, inr}
use kvpack.Store.Policy.{TinyLfuPolicy, counter_at, sketch_index, increment_rows, increment}
use kvpack.Store.Policy.{estimate_rows, estimate, sketch_depth}

-- The bound of a counter.
unfoldable pub IsSketch : List ℕ → Type 0
IsSketch sketch = All (λ c. c ≤ 0xffff) sketch

counter_at-set_same :
    (sketch : List ℕ) (i v : ℕ) → i < length sketch → counter_at (set sketch i v) i ≡ v
counter_at-set_same [] i v h = absurd (omega arith)
counter_at-set_same (c ∷ sketch) zero v h = refl
counter_at-set_same (c ∷ sketch) (suc i) v h = counter_at-set_same sketch i v (omega arith)

counter_at-set_grows :
    (sketch : List ℕ) (i j v : ℕ)
    → counter_at sketch i ≤ v
    → counter_at sketch j ≤ counter_at (set sketch i v) j
counter_at-set_grows [] i j v h = omega arith
counter_at-set_grows (c ∷ sketch) zero zero v h = h
counter_at-set_grows (c ∷ sketch) zero (suc j) v h = omega arith
counter_at-set_grows (c ∷ sketch) (suc i) zero v h = omega arith
counter_at-set_grows (c ∷ sketch) (suc i) (suc j) v h = counter_at-set_grows sketch i j v h

counter_at-bounded : (sketch : List ℕ) (i : ℕ) → IsSketch sketch → counter_at sketch i ≤ 0xffff
unfolding IsSketch
counter_at-bounded [] i h = omega arith
counter_at-bounded (c ∷ sketch) zero h = h.0
counter_at-bounded (c ∷ sketch) (suc i) h = counter_at-bounded sketch i h.1

set-IsSketch :
    (sketch : List ℕ) (i v : ℕ) → v ≤ 0xffff → IsSketch sketch → IsSketch (set sketch i v)
unfolding IsSketch
set-IsSketch [] i v b h = tt
set-IsSketch (c ∷ sketch) zero v b h = (b, h.1)
set-IsSketch (c ∷ sketch) (suc i) v b h = (h.0, set-IsSketch sketch i v b h.1)

length-set : (sketch : List ℕ) (i v : ℕ) → length (set sketch i v) ≡ length sketch
length-set [] i v = refl
length-set (c ∷ sketch) zero v = refl
length-set (c ∷ sketch) (suc i) v = omega (arith, length-set sketch i v)

-- A counter raised by one, at most to its bound.
raised : List ℕ → ℕ → List ℕ
raised sketch i = set sketch i (min (counter_at sketch i + 1) 0xffff)

raised-IsSketch : (sketch : List ℕ) (i : ℕ) → IsSketch sketch → IsSketch (raised sketch i)
unfolding raised
raised-IsSketch sketch i h = set-IsSketch sketch i _ (omega arith) h

raised-grows :
    (sketch : List ℕ) (i j : ℕ)
    → IsSketch sketch
    → counter_at sketch j ≤ counter_at (raised sketch i) j
unfolding raised
raised-grows sketch i j h =
    counter_at-set_grows sketch i j _ (omega (arith, counter_at-bounded sketch i h))

equal_rows : (row r : ℕ) → (row == r) ≡ true → row ≡ r
equal_rows row r h = ground arith

min-counts :
    (x y v w : ℕ)
    → min (x + 1) 0xffff ≤ v
    → min (y + 1) 0xffff ≤ w
    → min (min x y + 1) 0xffff ≤ min v w
min-counts x y v w h g = omega arith

row-inside : (row width d n : ℕ) → row < 4 → 1 ≤ width → n ≡ width * 4 → row * width + d % width < n
row-inside zero width d n below wide size = omega (arith, mod-lt d wide)
row-inside (suc zero) width d n below wide size = omega (arith, mod-lt d wide)
row-inside (suc (suc zero)) width d n below wide size = omega (arith, mod-lt d wide)
row-inside (suc (suc (suc zero))) width d n below wide size = omega (arith, mod-lt d wide)
row-inside (suc (suc (suc (suc row)))) width d n below wide size = absurd (omega arith)

module _ (digest : ℕ → ℕ → ℕ) where
  increment_rows-grows :
      (rows row key width : ℕ) (sketch : List ℕ) (j : ℕ)
      → IsSketch sketch
      → counter_at sketch j ≤ counter_at (increment_rows digest rows row key width sketch) j
  unfolding increment_rows raised
  increment_rows-grows zero row key width sketch j h = omega arith
  increment_rows-grows (suc rows) row key width sketch j h =
      let i = sketch_index digest key row width in
      omega (
        arith,
        raised-grows sketch i j h,
        increment_rows-grows rows (row + 1) key width (raised sketch i) j
            (raised-IsSketch sketch i h),
      )

  increment_rows-front :
      (rows row key width : ℕ) (sketch : List ℕ)
      → IsSketch sketch
      → sketch_index digest key row width < length sketch
      → min (counter_at sketch (sketch_index digest key row width) + 1) 0xffff
        ≤ counter_at
            (increment_rows digest (suc rows) row key width sketch)
            (sketch_index digest key row width)
  unfolding increment_rows raised
  increment_rows-front rows row key width sketch h inside =
      let i = sketch_index digest key row width in
      omega (
        arith,
        counter_at-set_same sketch i (min (counter_at sketch i + 1) 0xffff) inside,
        increment_rows-grows rows (row + 1) key width (raised sketch i) i
            (raised-IsSketch sketch i h),
      )

  increment_rows-counts :
      (rows row key width r : ℕ) (sketch : List ℕ)
      → IsSketch sketch
      → row ≤ r
      → r < row + rows
      → sketch_index digest key r width < length sketch
      → min (counter_at sketch (sketch_index digest key r width) + 1) 0xffff
        ≤ counter_at
            (increment_rows digest rows row key width sketch)
            (sketch_index digest key r width)
  unfolding increment_rows raised
  increment_rows-counts zero row key width r sketch h from to inside = absurd (omega arith)
  increment_rows-counts (suc rows) row key width r sketch h from to inside =
      let i = sketch_index digest key row width in
      let j = sketch_index digest key r width in
      let next = raised-IsSketch sketch i h in
      elim (Bool-cases (row == r)) [
        | inl same ↦
            subst
              (λ q.
                sketch_index digest key q width < length sketch
                → min (counter_at sketch (sketch_index digest key q width) + 1) 0xffff
                  ≤ counter_at (increment_rows digest (suc rows) row key width sketch)
                      (sketch_index digest key q width))
              (equal_rows row r same) (increment_rows-front rows row key width sketch h) inside
        | inr later ↦ omega (
          arith,
          raised-grows sketch i j h,
          increment_rows-counts rows (row + 1) key width r (raised sketch i) next (ground arith)
              (omega arith)
              (omega (arith, inside, length-set sketch i (min (counter_at sketch i + 1) 0xffff))),
        )
      ]

  sketch_index-inside :
      (p : TinyLfuPolicy) (key row : ℕ)
      → row < 4
      → 1 ≤ p.config.sketch_width
      → length p.sketch ≡ p.config.sketch_width * sketch_depth
      → sketch_index digest key row p.config.sketch_width < length p.sketch
  unfolding sketch_index
  sketch_index-inside p key row below wide size =
      row-inside row p.config.sketch_width (digest row key) (length p.sketch) below wide size

  row-grows :
      (p : TinyLfuPolicy) (key other row : ℕ)
      → IsSketch p.sketch
      → counter_at p.sketch (sketch_index digest other row p.config.sketch_width)
        ≤ counter_at
            (increment_rows digest sketch_depth 0 key p.config.sketch_width p.sketch)
            (sketch_index digest other row p.config.sketch_width)
  row-grows p key other row h = increment_rows-grows sketch_depth 0 key _ p.sketch _ h

  row-counts :
      (p : TinyLfuPolicy) (key row : ℕ)
      → IsSketch p.sketch
      → 1 ≤ p.config.sketch_width
      → length p.sketch ≡ p.config.sketch_width * sketch_depth
      → row < 4
      → min (counter_at p.sketch (sketch_index digest key row p.config.sketch_width) + 1) 0xffff
        ≤ counter_at
            (increment_rows digest sketch_depth 0 key p.config.sketch_width p.sketch)
            (sketch_index digest key row p.config.sketch_width)
  row-counts p key row h wide size below =
      increment_rows-counts sketch_depth 0 key p.config.sketch_width row p.sketch h (omega arith)
        (omega arith) (sketch_index-inside p key row below wide size)

  -- In a sketch whose counters are at most 0xffff, counting an access to one key lowers the estimate
  -- of no key.
  pub estimate-increment_grows :
      (p : TinyLfuPolicy) (key other : ℕ)
      → IsSketch p.sketch
      → estimate digest p other ≤ estimate digest (increment digest p key) other
  unfolding estimate estimate_rows increment
  estimate-increment_grows p key other h = omega (
    arith,
    row-grows p key other 0 h,
    row-grows p key other (0 + 1) h,
    row-grows p key other (0 + 1 + 1) h,
    row-grows p key other (0 + 1 + 1 + 1) h,
  )

  -- In a sketch of four rows of the configured width, which is not zero, with counters of at most
  -- 0xffff, counting an access to a key raises its own estimate by at least one, up to 0xffff.
  pub estimate-increment_counts :
      (p : TinyLfuPolicy) (key : ℕ)
      → IsSketch p.sketch
      → 1 ≤ p.config.sketch_width
      → length p.sketch ≡ p.config.sketch_width * sketch_depth
      → min (estimate digest p key + 1) 0xffff ≤ estimate digest (increment digest p key) key
  unfolding estimate estimate_rows increment
  estimate-increment_counts p key h wide size =
      let counts0 = row-counts p key 0 h wide size (omega arith) in
      let counts1 = row-counts p key (0 + 1) h wide size (omega arith) in
      let counts2 = row-counts p key (0 + 1 + 1) h wide size (omega arith) in
      let counts3 = row-counts p key (0 + 1 + 1 + 1) h wide size (omega arith) in
      min-counts _ _ _ _ counts0 (min-counts _ _ _ _ counts1 (min-counts _ _ _ _ counts2 counts3))
