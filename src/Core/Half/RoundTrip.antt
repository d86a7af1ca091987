-- ===== src/Core/Half/RoundTrip.antt =====
-- The 65,536 patterns of binary16 through binary32 and back.
use kvpack.Base.{
  ℕ, zero, suc, ◌+◌, ◌*◌, ◌/◌, ◌%◌, ◌≤◌, ◌<◌, ◌^◌, ◌≡◌, refl, ltb, if◌then◌else◌, arith, ◌-◌,
  Bool-cases, inl, inr, ltb→lt,
}
use kvpack.Base.Bits.{agree_below→eq, agree_below}
use kvpack.Core.Half.Nearest.{f32_to_f16-normal}
use kvpack.Core.Half.{
  f16_to_f32, f32_to_f16, f32_subnormal, normalize, f16_normal, round_mantissa, is_nan, from_bool,
}

-- The pattern itself, or the one quiet NaN that the source returns for every NaN.
unfoldable pub canonical : ℕ → ℕ
canonical h = if ltb 0x7c00 (h % 2 ^ 15) then 0x7e00 else h

-- The subnormals of one sign, and the NaNs, by evaluation.
subnormal :
    (sign mantissa : ℕ)
    → sign < 2
    → mantissa < 1024
    → f32_to_f16 (f16_to_f32 (sign * 32768 + mantissa)) ≡ sign * 32768 + mantissa
unfolding agree_below f16_to_f32 f32_to_f16 f32_subnormal normalize f16_normal round_mantissa is_nan
    from_bool
subnormal zero mantissa s h =
    agree_below→eq (λ m. f32_to_f16 (f16_to_f32 (0 * 32768 + m))) (λ m. 0 * 32768 + m) 1024 refl
      mantissa h
subnormal (suc zero) mantissa s h =
    agree_below→eq (λ m. f32_to_f16 (f16_to_f32 (1 * 32768 + m))) (λ m. 1 * 32768 + m) 1024 refl
      mantissa h
subnormal (suc (suc sign)) mantissa s h = absurd (omega arith)

nan :
    (sign mantissa : ℕ)
    → sign < 2
    → mantissa < 1023
    → f32_to_f16 (f16_to_f32 (sign * 32768 + (31745 + mantissa))) ≡ 0x7e00
unfolding agree_below f16_to_f32 f32_to_f16 f32_subnormal normalize f16_normal round_mantissa is_nan
    from_bool
nan zero mantissa s h =
    agree_below→eq (λ m. f32_to_f16 (f16_to_f32 (0 * 32768 + (31745 + m)))) (λ m. 0x7e00) 1023 refl
      mantissa h
nan (suc zero) mantissa s h =
    agree_below→eq (λ m. f32_to_f16 (f16_to_f32 (1 * 32768 + (31745 + m)))) (λ m. 0x7e00) 1023 refl
      mantissa h
nan (suc (suc sign)) mantissa s h = absurd (omega arith)

-- The normals, by arithmetic.
f16_to_f32-normal :
    (sign exponent mantissa : ℕ)
    → sign < 2
    → 1 ≤ exponent
    → exponent < 31
    → mantissa < 1024
    → f16_to_f32 (sign * 32768 + (exponent * 1024 + mantissa))
      ≡ sign * 2 ^ 31 + (exponent + 112) * 2 ^ 23 + mantissa * 2 ^ 13
unfolding f16_to_f32
f16_to_f32-normal sign exponent mantissa s l u h =
    let pattern : ℕ = sign * 32768 + (exponent * 1024 + mantissa) in
    let a : pattern / 2 ^ 15 % 2 ≡ sign = omega arith in
    let b : pattern / 2 ^ 10 % 2 ^ 5 ≡ exponent = omega arith in
    let c : pattern % 2 ^ 10 ≡ mantissa = omega arith in rw (a, b, c) (ground arith)

normal :
    (sign exponent mantissa : ℕ)
    → sign < 2
    → 1 ≤ exponent
    → exponent < 31
    → mantissa < 1024
    → f32_to_f16 (f16_to_f32 (sign * 32768 + (exponent * 1024 + mantissa)))
      ≡ sign * 32768 + (exponent * 1024 + mantissa)
unfolding round_mantissa from_bool
normal sign exponent mantissa s l u h =
    rw
      (
        f16_to_f32-normal sign exponent mantissa s l u h,
        f32_to_f16-normal sign (exponent + 112) (mantissa * 2 ^ 13) s (omega arith) (omega arith)
            (omega arith),
      )
      (ground arith)

infinite :
    (sign : ℕ) → sign < 2 → f32_to_f16 (f16_to_f32 (sign * 32768 + 31744)) ≡ sign * 32768 + 31744
unfolding f16_to_f32 f32_to_f16 f32_subnormal normalize f16_normal round_mantissa is_nan from_bool
infinite zero s = refl
infinite (suc zero) s = refl
infinite (suc (suc sign)) s = absurd (omega arith)

data Class (rest : ℕ) : Type 0 where
  is_subnormal : rest < 1024 → Class rest
  is_normal : 1024 ≤ rest → rest < 31744 → Class rest
  is_infinite : rest ≡ 31744 → Class rest
  is_beyond : 31744 < rest → Class rest

classify : (rest : ℕ) → Class rest
classify rest = elim (Bool-cases (ltb rest 1024)) [
  | inl low ↦ is_subnormal (ltb→lt rest 1024 low)
  | inr high ↦ elim (Bool-cases (ltb rest 31744)) [
    | inl low ↦ is_normal (ground arith) (ltb→lt rest 31744 low)
    | inr top ↦ elim (Bool-cases (ltb 31744 rest)) [
      | inl beyond ↦ is_beyond (ltb→lt 31744 rest beyond)
      | inr at ↦ is_infinite (ground arith)
    ]
  ]
]

by_fields :
    (sign rest : ℕ)
    → sign < 2
    → rest < 32768
    → f32_to_f16 (f16_to_f32 (sign * 32768 + rest))
      ≡ (if ltb 0x7c00 rest then 0x7e00 else sign * 32768 + rest)
by_fields sign rest s h = elim (classify rest) [
  | is_subnormal low ↦ ground (arith, subnormal sign rest s low)
  | is_normal low high ↦
      let split : rest / 1024 * 1024 + rest % 1024 ≡ rest = omega arith in
      let same =
        normal sign (rest / 1024) (rest % 1024) s (omega arith) (omega arith) (omega arith) in
      let whole : f32_to_f16 (f16_to_f32 (sign * 32768 + rest)) ≡ sign * 32768 + rest =
        rw split at same in
      ground (arith, whole)
  | is_infinite at ↦ rw at (infinite sign s)
  | is_beyond above ↦
      let offset : 31745 + (rest - 31745) ≡ rest = omega arith in
      let quiet = nan sign (rest - 31745) s (omega arith) in
      let whole : f32_to_f16 (f16_to_f32 (sign * 32768 + rest)) ≡ 0x7e00 = rw offset at quiet in
      ground (arith, whole)
]

-- Every binary16 pattern other than a NaN survives the way through binary32 unchanged, and each NaN
-- becomes the quiet NaN 0x7e00.
pub f32_to_f16-f16_to_f32 : (h : ℕ) → h < 65536 → f32_to_f16 (f16_to_f32 h) ≡ canonical h
unfolding canonical
f32_to_f16-f16_to_f32 h u =
    let fields : h / 32768 * 32768 + h % 32768 ≡ h = omega arith in
    let both = by_fields (h / 32768) (h % 32768) (omega arith) (omega arith) in rw fields at both
