-- ===== src/Base/Bytes.antt =====
-- Bytes, and integers as little-endian bytes: `to_le_bytes` and `from_le_bytes` of any width.
use kvpack.Base.{ℕ, zero, suc, ◌+◌, ◌*◌, ◌/◌, ◌%◌, ◌^◌, ◌<◌, ◌≡◌, refl, ap, List, [], ◌∷◌}
use kvpack.Base.{length, All, arith}

abbrev pub IsByte : ℕ → Type 0
IsByte b = b < 256

-- `value.to_le_bytes()` of a `w`-byte integer.
abbrev pub to_le_bytes : ℕ → ℕ → List ℕ
to_le_bytes zero v = []
to_le_bytes (suc w) v = (v % 256) ∷ to_le_bytes w (v / 256)

abbrev pub from_le_bytes : List ℕ → ℕ
from_le_bytes [] = 0
from_le_bytes (b ∷ bs) = b + 256 * from_le_bytes bs

pub length-to_le_bytes : (w v : ℕ) → length (to_le_bytes w v) ≡ w
length-to_le_bytes zero v = refl
length-to_le_bytes (suc w) v = ap suc (length-to_le_bytes w (v / 256))

pub to_le_bytes-IsByte : (w v : ℕ) → All IsByte (to_le_bytes w v)
to_le_bytes-IsByte zero v = tt
to_le_bytes-IsByte (suc w) v = (omega arith, to_le_bytes-IsByte w (v / 256))

pub from-to_le_bytes : (w v : ℕ) → v < 256 ^ w → from_le_bytes (to_le_bytes w v) ≡ v
from-to_le_bytes zero v h = omega arith
from-to_le_bytes (suc w) v h = omega (arith, from-to_le_bytes w (v / 256) (div_lt w v h))
  where
    div_lt : (w v : ℕ) → v < 256 ^ suc w → v / 256 < 256 ^ w
    div_lt w v h = omega arith

pub to-from_le_bytes :
    (w : ℕ) (bs : List ℕ) → length bs ≡ w → All IsByte bs → to_le_bytes w (from_le_bytes bs) ≡ bs
to-from_le_bytes zero [] h a = refl
to-from_le_bytes zero (b ∷ bs) h a = absurd (omega arith)
to-from_le_bytes (suc w) [] h a = absurd (omega arith)
to-from_le_bytes (suc w) (b ∷ bs) h (hb, a) =
    let low : (b + 256 * from_le_bytes bs) % 256 ≡ b = omega arith in
    let high : (b + 256 * from_le_bytes bs) / 256 ≡ from_le_bytes bs = omega arith in
    rw (low, high) (ap (◌∷◌ b) (to-from_le_bytes w bs (omega arith) a))

pub from_le_bytes-lt : (bs : List ℕ) → All IsByte bs → from_le_bytes bs < 256 ^ length bs
from_le_bytes-lt [] a = omega arith
from_le_bytes-lt (b ∷ bs) (hb, a) = omega (arith, from_le_bytes-lt bs a, step bs)
  where
    step : (bs : List ℕ) → 256 ^ suc (length bs) ≡ 256 * 256 ^ length bs
    step bs = omega arith
