-- ===== src/Core/Half/Nearest.antt =====
-- Rounding to nearest, ties to even: an independent description of `round_mantissa` and of
-- `f32_to_f16` on the range where the source rounds.
use native.Mathlib.Nat.{one-le-pow, pow-le-pow_right, mod-add-div', mod-lt, div-lt_iff_lt-mul}
use kvpack.Base.{ℕ, suc, sym, ◌+◌, ◌-◌, ◌*◌, ◌/◌, ◌%◌, ◌^◌, ◌≤◌, ◌<◌, ◌≡◌, ◌&&◌, ◌||◌}
use kvpack.Base.{
  Bool, true, false, ltb, leb, ◌==◌, if◌then◌else◌, arith, Bool-cases, inl, inr, leb→le,
}
use kvpack.Core.Half.{f32_to_f16, f16_normal, round_mantissa, is_nan, from_bool}

-- `k` is the multiple of `unit` nearest to `n`, and on a tie the even one.
unfoldable pub IsNearestEven : ℕ → ℕ → ℕ → Type 0
IsNearestEven n unit k =
    (2 * n ≤ 2 * (k * unit) + unit)
    × (2 * (k * unit) ≤ 2 * n + unit)
    × (2 * n ≡ 2 * (k * unit) + unit → k % 2 ≡ 0)
    × (2 * (k * unit) ≡ 2 * n + unit → k % 2 ≡ 0)

nearest :
    (n half k r : ℕ)
    → n ≡ r + k * (2 * half)
    → r < 2 * half
    → IsNearestEven n (2 * half) (k + from_bool (ltb half r || (r == half && k % 2 == 1)))
unfolding IsNearestEven from_bool
nearest n half k r e h = ground arith

no_wrap : (q : ℕ) (b : Bool) → q < 65535 → (q + from_bool b) % 65536 ≡ q + from_bool b
unfolding from_bool
no_wrap q true h = omega arith
no_wrap q false h = omega arith

round_mantissa-le : (n shift : ℕ) → round_mantissa n shift ≤ n / 2 ^ shift + 1
unfolding round_mantissa from_bool
round_mantissa-le n shift = ground arith

few : (n j : ℕ) → n < 2 ^ 24 → n / 2 ^ suc (13 + j) < 1024
few n j h =
    let large : 2 ^ 14 ≤ 2 ^ suc (13 + j) =
      pow-le-pow_right {n = 2} (omega arith) {i = 14} {j = suc (13 + j)} (omega arith) in
    (div-lt_iff_lt-mul {k = 2 ^ suc (13 + j)} {x = n} {y = 1024} (omega arith)).1 (omega arith)

round_mantissa-nearest :
    (n k : ℕ) → n / 2 ^ suc k < 65535 → IsNearestEven n (2 ^ suc k) (round_mantissa n (suc k))
unfolding round_mantissa
round_mantissa-nearest n k small =
    let half : ℕ = 2 ^ k in
    let positive : 1 ≤ half = one-le-pow k 2 (omega arith) in
    let unit : 2 ^ suc k ≡ 2 * half = omega arith in
    let whole : n % (2 * half) + n / (2 * half) * (2 * half) ≡ n = mod-add-div' n (2 * half) in
    let inside : n % (2 * half) < 2 * half = mod-lt n (omega arith) in
    let kept = nearest n half (n / (2 * half)) (n % (2 * half)) (sym whole) inside in
    let before : suc k - 1 ≡ k = omega arith in
    rw (unit, before, no_wrap (n / (2 * half)) _ (rw (sym unit) small)) kept

-- The three fields of a binary32 pattern.
pub fields :
    (s e m : ℕ)
    → s < 2
    → e < 256
    → m < 2 ^ 23
    → ((s * 2 ^ 31 + e * 2 ^ 23 + m) / 2 ^ 31 % 2 ≡ s)
      × ((s * 2 ^ 31 + e * 2 ^ 23 + m) / 2 ^ 23 % 2 ^ 8 ≡ e)
      × ((s * 2 ^ 31 + e * 2 ^ 23 + m) % 2 ^ 23 ≡ m)
fields s e m hs he hm = (omega arith, omega arith, omega arith)

pub f32_to_f16-normal :
    (s e m : ℕ)
    → s < 2
    → 113 ≤ e
    → e ≤ 142
    → m < 2 ^ 23
    → f32_to_f16 (s * 2 ^ 31 + e * 2 ^ 23 + m)
      ≡ s * 2 ^ 15 + (e - 112) * 2 ^ 10 + round_mantissa m 13
unfolding f32_to_f16 is_nan f16_normal
f32_to_f16-normal s e m hs l u hm =
    let (a, b, c) = fields s e m hs (omega arith) hm in rw (a, b, c) (ground arith)

pub f32_to_f16-subnormal :
    (s e m : ℕ)
    → s < 2
    → 103 ≤ e
    → e ≤ 112
    → m < 2 ^ 23
    → f32_to_f16 (s * 2 ^ 31 + e * 2 ^ 23 + m) ≡ s * 2 ^ 15 + round_mantissa (m + 2 ^ 23) (126 - e)
unfolding f32_to_f16 is_nan
f32_to_f16-subnormal s e m hs l u hm =
    let (a, b, c) = fields s e m hs (omega arith) hm in
    let shift : 13 + (113 - e) ≡ 126 - e = omega arith in rw (a, b, c, shift) (ground arith)

pub f32_to_f16-tiny :
    (s e m : ℕ)
    → s < 2
    → e < 103
    → m < 2 ^ 23
    → f32_to_f16 (s * 2 ^ 31 + e * 2 ^ 23 + m) ≡ s * 2 ^ 15
unfolding f32_to_f16 is_nan
f32_to_f16-tiny s e m hs l hm =
    let (a, b, c) = fields s e m hs (omega arith) hm in rw (a, b, c) (ground arith)

-- What is rounded and to which unit, for a magnitude with the biased exponent `e` and mantissa `m`:
-- from 2^-14 on, the pattern counted from the exponent of binary16 and its last 13 bits; below, the
-- whole significand and the bits under 2^-24.
unfoldable pub significand : ℕ → ℕ → ℕ
significand e m = if leb 113 e then (e - 112) * 2 ^ 23 + m else m + 2 ^ 23

unfoldable pub unit : ℕ → ℕ
unit e = if leb 113 e then 2 ^ 13 else 2 ^ (126 - e)

-- A finite binary32 of magnitude from 2^-24 up to 2^16 becomes the sign and the nearest magnitude
-- pattern of binary16, ties to even, with the carry into the exponent and into infinity.
pub f32_to_f16-nearest :
    (s e m : ℕ)
    → s < 2
    → 103 ≤ e
    → e ≤ 142
    → m < 2 ^ 23
    → (k : ℕ) × (f32_to_f16 (s * 2 ^ 31 + e * 2 ^ 23 + m) ≡ s * 2 ^ 15 + k)
      × (k ≤ 0x7c00)
      × IsNearestEven (significand e m) (unit e) k
unfolding significand unit IsNearestEven
f32_to_f16-nearest s e m hs l u hm = elim (Bool-cases (leb 113 e)) [
  | inl high ↦
      let low : 113 ≤ e = leb→le 113 e high in
      let near = round_mantissa-nearest m 12 (omega arith) in
      rw high (
        (e - 112) * 2 ^ 10 + round_mantissa m 13,
        omega (arith, f32_to_f16-normal s e m hs low u hm),
        omega (arith, near),
        (
          omega (arith, near),
          omega (arith, near),
          λ tie. omega (arith, near.2 (omega arith)),
          λ tie. omega (arith, near.3 (omega arith)),
        ),
      )
  | inr deep ↦
      let small : e ≤ 112 = ground arith in
      let shift : 126 - e ≡ suc (13 + (112 - e)) = omega arith in
      let kept = few (m + 2 ^ 23) (112 - e) (omega arith) in
      let near = round_mantissa-nearest (m + 2 ^ 23) (13 + (112 - e)) (omega (arith, kept)) in
      rw deep (
        round_mantissa (m + 2 ^ 23) (126 - e),
        f32_to_f16-subnormal s e m hs l small hm,
        rw shift (omega (arith, kept, round_mantissa-le (m + 2 ^ 23) (suc (13 + (112 - e))))),
        rw shift near,
      )
]

-- A binary32 strictly between 2^-25 and 2^-24 becomes a zero with its sign, although the least
-- subnormal, not zero, is the nearest magnitude of binary16.
pub f32_to_f16-flushes :
    (s m : ℕ)
    → s < 2
    → 1 ≤ m
    → m < 2 ^ 23
    → (f32_to_f16 (s * 2 ^ 31 + 102 * 2 ^ 23 + m) ≡ s * 2 ^ 15)
      × IsNearestEven (m + 2 ^ 23) (2 ^ 24) 1
      × ¬ IsNearestEven (m + 2 ^ 23) (2 ^ 24) 0
unfolding IsNearestEven
f32_to_f16-flushes s m hs l hm = (
  f32_to_f16-tiny s 102 m hs (omega arith) hm,
  (omega arith, omega arith, λ tie. omega arith, λ tie. omega arith),
  λ zero_nearest. omega (arith, zero_nearest.0),
)
