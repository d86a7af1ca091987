-- ===== src/Core/Canonical/Decoder.antt =====
-- crates/kvpack-core/src/canonical.rs: `Decoder`.
-- Its offset is state that each method returns anew.
use kvpack.Base.{ℕ, zero, suc, ◌+◌, List, [], ◌∷◌, Bool, false}
use kvpack.Base.{◌&&◌, not, ltb, leb, ◌==◌, if◌then◌else◌, max_u64, length, take, drop, bytes_eq}
use kvpack.Base.{Result, ok, err, fail_if, ◌>>◌}
use kvpack.Base.Bytes.{from_le_bytes}
use kvpack.Core.Error.{PackError, bad_magic, reserved, truncated, bounds, semantics}

-- `std::str::from_utf8`, as the standard library documents it: `left` continuation bytes are still
-- due, the next one in the range from `low` to `high`.
unfoldable pub utf8_from : ℕ → ℕ → ℕ → List ℕ → Bool
utf8_from left low high [] = left == 0
utf8_from zero low high (b ∷ bytes) =
    let one = utf8_from 0 0x80 0xbf bytes in
    let two = utf8_from 1 0x80 0xbf bytes in
    let three =
      utf8_from 2 (if b == 0xe0 then 0xa0 else 0x80) (if b == 0xed then 0x9f else 0xbf) bytes in
    let four =
      utf8_from 3 (if b == 0xf0 then 0x90 else 0x80) (if b == 0xf4 then 0x8f else 0xbf) bytes in
    if ltb b 0x80
    then one
    else (if leb 0xc2 b && leb b 0xdf
        then two
        else (if leb 0xe0 b && leb b 0xef
            then three
            else (if leb 0xf0 b && leb b 0xf4 then four else false)))
utf8_from (suc left) low high (b ∷ bytes) =
    let more = utf8_from left 0x80 0xbf bytes in if leb low b && leb b high then more else false

abbrev pub is_utf8 : List ℕ → Bool
is_utf8 bytes = utf8_from 0 0x80 0xbf bytes

pub record Decoder : Type 0 where
  pub input : List ℕ
  pub offset : ℕ

-- A method of the decoder: a value and the decoder after it, or an error.
abbrev pub Read : Type 0 → Type 0
Read A = Decoder → Result PackError (A × Decoder)

abbrev pub pure : {A : Type 0} → A → Read A
pure a d = ok (a, d)

abbrev pub fail : {A : Type 0} → PackError → Read A
fail e d = err e

abbrev pub lift : {A : Type 0} → Result PackError A → Read A
lift (ok a) d = ok (a, d)
lift (err e) d = err e

abbrev pub and_then :
    {A B : Type 0} → Result PackError (A × Decoder) → (A → Read B) → Result PackError (B × Decoder)
and_then (ok (a, d)) f = f a d
and_then (err e) f = err e

infixl 5 ◌>>=◌
abbrev pub ◌>>=◌ : {A B : Type 0} → Read A → (A → Read B) → Read B
◌>>=◌ m f d = and_then (m d) f

unfoldable pub new : List ℕ → List ℕ → Result PackError Decoder
new bytes magic = do
  fail_if (ltb (length bytes) 8) (truncated "truncated canonical object")
  fail_if (not (bytes_eq (take 8 bytes) magic)) (bad_magic "invalid canonical object magic")
  ok (record { input = bytes; offset = 8 })

unfoldable pub take_bytes : ℕ → Read (List ℕ)
take_bytes len d =
    if ltb max_u64 (d.offset + len)
    then err (bounds "canonical offset overflow")
    else (if ltb (length d.input) (d.offset + len)
        then err (truncated "truncated canonical object")
        else ok (take len (drop d.offset d.input), record d { offset = d.offset + len }))

-- `take(1)?[0]`
unfoldable pub u8 : Read ℕ
u8 = do value ← take_bytes 1; pure (from_le_bytes value)

unfoldable pub u16 : Read ℕ
u16 = do value ← take_bytes 2; pure (from_le_bytes value)

unfoldable pub u32 : Read ℕ
u32 = do value ← take_bytes 4; pure (from_le_bytes value)

unfoldable pub u64 : Read ℕ
u64 = do value ← take_bytes 8; pure (from_le_bytes value)

unfoldable pub id : Read (List ℕ)
id = take_bytes 32

-- `from_utf8(bytes).map_err(..)?`, and the owned copy.
abbrev pub from_utf8 : List ℕ → Read (List ℕ)
from_utf8 value = if is_utf8 value then pure value else fail (semantics "state name is not UTF-8")

unfoldable pub string : Read (List ℕ)
string = do len ← u16; value ← take_bytes len; from_utf8 value

unfoldable pub finish : Decoder → Result PackError (Unit {0})
finish d = fail_if (not (d.offset == length d.input)) (reserved "trailing canonical bytes")
