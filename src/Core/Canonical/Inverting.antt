-- ===== src/Core/Canonical/Inverting.antt =====
-- Rules for the decoder's methods: which bytes they have read when they succeed.
use kvpack.Base.{ℕ, ◌+◌, ◌^◌, ◌≤◌, ◌<◌, ◌≡◌, refl, sym, ap, ◌∙◌, List, [], ◌∷◌, ◌++◌}
use kvpack.Base.{arith, length, take, drop, All, All-take, All-drop}
use kvpack.Base.{length-take, length-drop, drop-drop}
use kvpack.Base.{
  take-append-drop, append_assoc, append-nil, Bool-cases, Result, ok, err, ok-injective, inl, inr,
}
use kvpack.Core.Error.{PackError}
use mathlib.Core.Path.{subst}
use kvpack.Base.Bytes.{IsByte, to_le_bytes, from_le_bytes, to-from_le_bytes}
use kvpack.Base.Bytes.{from_le_bytes-lt}
use kvpack.Core.Canonical.Decoder.{
  Decoder, Read, pure, and_then, ◌>>=◌, take_bytes, u8, u16, u32, u64, id,
}
use kvpack.Core.Canonical.Decoder.{string, is_utf8, from_utf8}
use kvpack.Core.Canonical.Reading.{At}

-- Where `m` succeeds, it has read bytes that `P` relates to its value.
abbrev pub Inverts {ℓ} : {A : Type 0} → Read A → (A → List ℕ → Type ℓ) → Type ℓ
Inverts {A} m P =
    (d d' : Decoder) (rest : List ℕ) (v : A)
    → At d rest
    → All IsByte rest
    → m d ≡ ok (v, d')
    → (bytes more : List ℕ) × (rest ≡ bytes ++ more) × P v bytes × At d' more × All IsByte more

bind-eq-ok :
    {A B : Type 0} (m : Read A) (f : A → Read B) (d d₂ : Decoder) (w : B)
    → (m >>= f) d ≡ ok (w, d₂)
    → (v : A) × (d₁ : Decoder) × (m d ≡ ok (v, d₁)) × (f v d₁ ≡ ok (w, d₂))
bind-eq-ok {A} m f d d₂ w e = go (m d) refl e
  where
    go :
        (r : Result PackError (A × Decoder))
        → m d ≡ r
        → and_then r f ≡ ok (w, d₂)
        → (v : A) × (d₁ : Decoder) × (m d ≡ ok (v, d₁)) × (f v d₁ ≡ ok (w, d₂))
    go (ok (v, d₁)) e₁ e₂ = (v, d₁, e₁, e₂)
    go (err x) e₁ e₂ = cc

-- The rule of consequence, and those for `pure` and `>>=`.
pub weaken-Inverts {ℓ κ} :
    {A : Type 0} (m : Read A) (P : A → List ℕ → Type ℓ) (Q : A → List ℕ → Type κ)
    → Inverts m P
    → ((v : A) (bytes : List ℕ) → P v bytes → Q v bytes)
    → Inverts m Q
weaken-Inverts m P Q inv weak d d' rest v at_rest plain e =
    let (bytes, more, split, p, at_more, plain_more) = inv d d' rest v at_rest plain e in
    (bytes, more, split, weak v bytes p, at_more, plain_more)

pub pure-Inverts {ℓ} : {A : Type 0} (P : A → List ℕ → Type ℓ) (v : A) → P v [] → Inverts (pure v) P
pure-Inverts {A} P v p d d' rest w at_rest plain e =
    let same = ok-injective e in
    (
      [],
      rest,
      refl,
      subst (λ x. P x []) (ap (λ (x : A × Decoder). x.0) same) p,
      subst (λ x. At x rest) (ap (λ (x : A × Decoder). x.1) same) at_rest,
      plain,
    )

pub >>=-Inverts {ℓ κ} :
    {A B : Type 0} (m : Read A) (f : A → Read B) (P : A → List ℕ → Type ℓ) (Q : B → List ℕ → Type κ)
    → Inverts m P
    → ((v : A) (bytes : List ℕ) → P v bytes → Inverts (f v) (λ w more. Q w (bytes ++ more)))
    → Inverts (m >>= f) Q
>>=-Inverts {A} m f P Q first second d d' rest w at_rest plain e =
    let (v, d₁, e₁, e₂) = bind-eq-ok m f d d' w e in
    let (bytes, more, split, p, at_more, plain_more) = first d d₁ rest v at_rest plain e₁ in
    let (bytes', more', split', q, at', plain') =
      second v bytes p d₁ d' more w at_more plain_more e₂ in
    (
      bytes ++ bytes',
      more',
      split ∙ ap (◌++◌ bytes) split' ∙ sym (append_assoc bytes bytes' more'),
      q,
      at',
      plain',
    )

take_bytes-eq-ok :
    (n : ℕ) (d d' : Decoder) (v : List ℕ)
    → take_bytes n d ≡ ok (v, d')
    → (d.offset + n ≤ length d.input)
      × (take n (drop d.offset d.input) ≡ v)
      × (d'.offset ≡ d.offset + n)
      × (d'.input ≡ d.input)
unfolding take_bytes
take_bytes-eq-ok n d d' v e = ground arith

-- The bytes that `take` returns are the next `n`.
pub take_bytes-Inverts :
    (n : ℕ) → Inverts (take_bytes n) (λ v bytes. (bytes ≡ v) × (length v ≡ n) × All IsByte v)
take_bytes-Inverts n d d' rest v at_rest plain e =
    let (inside, slice, moved, kept) = take_bytes-eq-ok n d d' v e in
    let front : take n rest ≡ v = rw (at_rest.ahead) at slice in
    let cut = length-take n rest (omega (arith, at_rest.place)) in
    let left = length-drop n rest in
    let place = at_rest.place in
    (
      v,
      drop n rest,
      sym (rw (← front) (take-append-drop n rest)),
      (refl, ap length (sym front) ∙ cut, rw (← front) (All-take IsByte n rest plain)),
      record {
        ahead =
            rw (moved, kept)
              (sym (drop-drop d.offset n (d.offset + n) d.input refl) ∙ ap (drop n) at_rest.ahead);
        place = rw (moved, kept) (omega arith);
        small = rw kept at_rest.small;
      },
      All-drop IsByte n rest plain,
    )

number-Inverts :
    (w : ℕ)
    → Inverts
        (take_bytes w >>= λ b. pure (from_le_bytes b))
        (λ v bytes. (bytes ≡ to_le_bytes w v) × (v < 256 ^ w))
number-Inverts w =
    >>=-Inverts (take_bytes w) (λ b. pure (from_le_bytes b)) _ _ (take_bytes-Inverts w)
      (λ v bytes p.
        pure-Inverts (λ n more. (bytes ++ more ≡ to_le_bytes w n) × (n < 256 ^ w)) (from_le_bytes v)
          (
            append-nil bytes ∙ p.0 ∙ sym (to-from_le_bytes w v p.1 p.2),
            rw p.1 at (from_le_bytes-lt v p.2),
          ))

pub u8-Inverts : Inverts u8 (λ v bytes. (bytes ≡ v ∷ []) × IsByte v)
unfolding u8
u8-Inverts =
    weaken-Inverts u8 _ _ (number-Inverts 1)
      (λ v bytes p. (p.0 ∙ ap (λ (b : ℕ). b ∷ []) (omega arith), omega arith))

pub u16-Inverts : Inverts u16 (λ v bytes. (bytes ≡ to_le_bytes 2 v) × (v < 0x1_0000))
unfolding u16
u16-Inverts = number-Inverts 2

pub u32-Inverts : Inverts u32 (λ v bytes. (bytes ≡ to_le_bytes 4 v) × (v < 0x1_0000_0000))
unfolding u32
u32-Inverts = number-Inverts 4

pub u64-Inverts : Inverts u64 (λ v bytes. (bytes ≡ to_le_bytes 8 v) × (v < 2 ^ 64))
unfolding u64
u64-Inverts = number-Inverts 8

pub id-Inverts : Inverts id (λ v bytes. (bytes ≡ v) × (length v ≡ 32) × All IsByte v)
unfolding id
id-Inverts = take_bytes-Inverts 32

pub string-Inverts :
    Inverts string
      (λ v bytes. (bytes ≡ to_le_bytes 2 (length v) ++ v) × (length v < 0x1_0000) × All IsByte v)
unfolding string
string-Inverts = >>=-Inverts u16 _ _ _ u16-Inverts (λ len prefix p.
    >>=-Inverts (take_bytes len) from_utf8 _ _ (take_bytes-Inverts len)
      (λ v bytes q. checked len prefix p v bytes q))
  where
    checked :
        (len : ℕ) (prefix : List ℕ)
        → (prefix ≡ to_le_bytes 2 len) × (len < 0x1_0000)
        → (v bytes : List ℕ) → (bytes ≡ v) × (length v ≡ len) × All IsByte v
        → Inverts (from_utf8 v) (λ w more.
          (prefix ++ (bytes ++ more) ≡ to_le_bytes 2 (length w) ++ w)
          × (length w < 0x1_0000)
          × All IsByte w)
    checked len prefix p v bytes q = elim (Bool-cases (is_utf8 v)) [
      | inl valid ↦
          rw valid (pure-Inverts _ v (rw (append-nil bytes, p.0, q.0, q.1) refl, rw q.1 p.1, q.2))
      | inr bad ↦ rw bad (λ d d' rest w at_rest plain e. cc)
    ]
