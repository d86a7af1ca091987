-- ===== src/Core/Canonical/Reading.antt =====
-- Rules for the decoder's methods: what they read from bytes that are known.
use kvpack.Base.{ℕ, ◌+◌, ◌%◌, ◌^◌, ◌≤◌, ◌<◌, ◌≡◌, refl, sym, ap, ◌∙◌, List, [], ◌∷◌, ◌++◌}
use kvpack.Base.{true, arith, max_u64, length, take, drop}
use kvpack.Base.{length-append, take-append, drop-append, drop-drop}
use kvpack.Base.{append_assoc, append-nil, ok}
use mathlib.Core.Path.{subst}
use kvpack.Base.Bytes.{IsByte, to_le_bytes, from_le_bytes, from-to_le_bytes}
use kvpack.Base.Bytes.{length-to_le_bytes}
use kvpack.Core.Error.{PackError}
use kvpack.Base.{Result}
use kvpack.Core.Canonical.Decoder.{Decoder, Read, pure, ◌>>=◌, take_bytes, u8, u16, u32, u64, id}
use kvpack.Core.Canonical.Decoder.{lift, string, is_utf8, from_utf8}

-- The decoder stands before `rest`. No slice is longer than `isize::MAX`.
pub record At (d : Decoder) (rest : List ℕ) : Type 0 where
  pub ahead : drop d.offset d.input ≡ rest
  pub place : d.offset + length rest ≡ length d.input
  pub small : length d.input < 2 ^ 63

-- `m` reads `bytes` as `v`, whatever follows.
abbrev pub Parses : {A : Type 0} → Read A → List ℕ → A → Type 0
Parses m bytes v =
    (d : Decoder) (rest : List ℕ)
    → At d (bytes ++ rest)
    → (d' : Decoder) × (m d ≡ ok (v, d')) × At d' rest

pub pure-Parses : {A : Type 0} (v w : A) → v ≡ w → Parses (pure v) [] w
pure-Parses v w e d rest at_rest = (d, ap (λ t. ok (t, d)) e, at_rest)

bind-ok :
    {A B : Type 0} (m : Read A) (f : A → Read B) (d d₁ : Decoder) (v : A)
    → m d ≡ ok (v, d₁)
    → (m >>= f) d ≡ f v d₁
bind-ok m f d d₁ v e = rw e

pub >>=-Parses :
    {A B : Type 0} (m : Read A) (f : A → Read B) (v : A) (w : B) (bytes more : List ℕ)
    → Parses m bytes v
    → Parses (f v) more w
    → Parses (m >>= f) (bytes ++ more) w
>>=-Parses m f v w bytes more first second d rest at_rest =
    let (d₁, e₁, at₁) = first d (more ++ rest) (rw append_assoc at at_rest) in
    let (d₂, e₂, at₂) = second d₁ rest at₁ in (d₂, bind-ok m f d d₁ v e₁ ∙ e₂, at₂)

pub take_bytes-Parses :
    (n : ℕ) (bytes : List ℕ) → length bytes ≡ n → Parses (take_bytes n) bytes bytes
take_bytes-Parses n bytes e d rest at_rest =
    let size = length-append bytes rest in
    let front = take-append n bytes rest e in
    let back = drop-append n bytes rest e in
    let ahead = at_rest.ahead in
    let slice : take n (drop d.offset d.input) ≡ bytes = ap (take n) ahead ∙ front in
    (
      record d { offset = d.offset + n },
      (unfold take_bytes in ground arith),
      record {
        ahead = sym (drop-drop d.offset n (d.offset + n) d.input refl) ∙ ap (drop n) ahead ∙ back;
        place = omega arith;
        small = at_rest.small;
      },
    )

-- A second step that reads nothing.
pub then-Parses :
    {A B : Type 0} (m : Read A) (f : A → Read B) (v : A) (w : B) (bytes : List ℕ)
    → Parses m bytes v
    → Parses (f v) [] w
    → Parses (m >>= f) bytes w
then-Parses m f v w bytes first second = rw append-nil at (>>=-Parses m f v w bytes [] first second)

-- A last step that computes the result.
pub last-Parses :
    {A B : Type 0} (m : Read A) (f : A → B) (v : A) (w : B) (bytes : List ℕ)
    → Parses m bytes v
    → f v ≡ w
    → Parses (m >>= λ a. pure (f a)) bytes w
last-Parses m f v w bytes first e =
    then-Parses m (λ a. pure (f a)) v w bytes first (pure-Parses (f v) w e)

pub lift-Parses : {A : Type 0} (r : Result PackError A) (v : A) → r ≡ ok v → Parses (lift r) [] v
lift-Parses r v e d rest at_rest = (d, rw e, at_rest)

number-Parses :
    (w v : ℕ)
    → v < 256 ^ w
    → Parses (take_bytes w >>= λ b. pure (from_le_bytes b)) (to_le_bytes w v) v
number-Parses w v h =
    last-Parses (take_bytes w) from_le_bytes (to_le_bytes w v) v (to_le_bytes w v)
      (take_bytes-Parses w (to_le_bytes w v) (length-to_le_bytes w v)) (from-to_le_bytes w v h)

pub u8-Parses : (v : ℕ) → IsByte v → Parses u8 (v ∷ []) v
unfolding u8
u8-Parses v h =
    let low : v % 256 ≡ v = omega arith in
    subst (λ bytes. Parses u8 bytes v) (ap (λ (b : ℕ). b ∷ []) low)
      (number-Parses 1 v (omega arith))

pub u16-Parses : (v : ℕ) → v < 0x1_0000 → Parses u16 (to_le_bytes 2 v) v
unfolding u16
u16-Parses v h = number-Parses 2 v (omega arith)

pub u32-Parses : (v : ℕ) → v < 0x1_0000_0000 → Parses u32 (to_le_bytes 4 v) v
unfolding u32
u32-Parses v h = number-Parses 4 v (omega arith)

pub u64-Parses : (v : ℕ) → v ≤ max_u64 → Parses u64 (to_le_bytes 8 v) v
unfolding u64
u64-Parses v h = number-Parses 8 v (omega arith)

pub id-Parses : (v : List ℕ) → length v ≡ 32 → Parses id v v
unfolding id
id-Parses v h = take_bytes-Parses 32 v h

pub string-Parses :
    (v : List ℕ)
    → length v < 0x1_0000
    → is_utf8 v ≡ true
    → Parses string (to_le_bytes 2 (length v) ++ v) v
unfolding string
string-Parses v h valid =
    >>=-Parses u16 _ (length v) v (to_le_bytes 2 (length v)) v (u16-Parses (length v) h) (
      then-Parses (take_bytes (length v)) from_utf8 v v v (take_bytes-Parses (length v) v refl)
        (λ d rest at_rest. (d, rw valid, at_rest)))
