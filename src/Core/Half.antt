-- ===== src/Core/Half.antt =====
-- crates/kvpack-core/src/half.rs: the conversions between binary16 and binary32, on bit patterns.
-- `x >> k` is `x / 2 ^ k`, a mask of the low `k` bits is `x % 2 ^ k`, `x | y` of numbers that share no
-- bit is `x + y`, and an `f32` is its `to_bits`.
-- The exponent of an `f32` keeps its bias: the source's `exponent` is `exponent - 127` here.
pub mod Nearest
pub mod RoundTrip
use kvpack.Base.{ℕ, zero, suc, ◌+◌, ◌-◌, ◌*◌, ◌/◌, ◌%◌, ◌^◌, bit_or, Bool, true, false, ◌&&◌, ◌||◌}
use kvpack.Base.{ltb, leb, ◌==◌, not, if◌then◌else◌}

-- The loop that shifts a subnormal's mantissa until its leading bit is the hidden bit. Ten steps are
-- enough for a mantissa that is not zero.
unfoldable pub normalize : ℕ → ℕ → ℕ → ℕ × ℕ
normalize zero mantissa exponent = (mantissa, exponent)
normalize (suc fuel) mantissa exponent = elim (mantissa / 2 ^ 10 % 2 == 0) [
  | true ↦ normalize fuel (mantissa * 2) (exponent - 1)
  | false ↦ (mantissa, exponent)
]

unfoldable pub f32_subnormal : ℕ → ℕ → ℕ
f32_subnormal sign mantissa =
    let (mantissa, exponent) = normalize 10 mantissa 113 in
    sign * 2 ^ 31 + exponent * 2 ^ 23 + mantissa % 2 ^ 10 * 2 ^ 13

unfoldable pub f16_to_f32 : ℕ → ℕ
f16_to_f32 bits =
    let sign = bits / 2 ^ 15 % 2 in
    let exponent = bits / 2 ^ 10 % 2 ^ 5 in
    let mantissa = bits % 2 ^ 10 in
    if exponent == 0
    then (if mantissa == 0 then sign * 2 ^ 31 else f32_subnormal sign mantissa)
    else (if exponent == 0x1f
        then (if mantissa == 0
            then sign * 2 ^ 31 + 0x7f800000
            else bit_or (sign * 2 ^ 31 + 0x7f800000 + mantissa * 2 ^ 13) 0x00400000)
        else sign * 2 ^ 31 + (exponent + 127 - 15) * 2 ^ 23 + mantissa * 2 ^ 13)

-- `u32::from(flag)`.
unfoldable pub from_bool : Bool → ℕ
from_bool true = 1
from_bool false = 0

unfoldable pub round_mantissa : ℕ → ℕ → ℕ
round_mantissa mantissa shift =
    let dropped = mantissa % 2 ^ shift in
    let kept = mantissa / 2 ^ shift in
    let halfway = 2 ^ (shift - 1) in
    let round_up = ltb halfway dropped || (dropped == halfway && kept % 2 == 1) in
    (kept + from_bool round_up) % 2 ^ 16

unfoldable pub is_nan : ℕ → Bool
is_nan bits = bits / 2 ^ 23 % 2 ^ 8 == 0xff && not (bits % 2 ^ 23 == 0)

-- The normal results, a carry of the rounding into the exponent included.
unfoldable pub f16_normal : ℕ → ℕ → ℕ → ℕ
f16_normal sign exponent mantissa =
    let biased = (exponent - 112) * 2 ^ 10 in
    let rounded = round_mantissa mantissa 13 in
    if rounded == 0x400 then sign + (exponent - 111) * 2 ^ 10 else sign + biased + rounded

unfoldable pub f32_to_f16 : ℕ → ℕ
f32_to_f16 bits =
    let sign = bits / 2 ^ 31 % 2 * 2 ^ 15 in
    let exponent = bits / 2 ^ 23 % 2 ^ 8 in
    let mantissa = bits % 2 ^ 23 in
    if is_nan bits
    then 0x7e00
    else (if ltb 142 exponent
        then sign + 0x7c00
        else (if ltb exponent 103
            then sign
            else (if leb 113 exponent
                then f16_normal sign exponent mantissa
                else sign + round_mantissa (mantissa + 0x00800000) (13 + (113 - exponent)))))
