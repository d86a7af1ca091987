-- ===== src/Core/Transform/Canonical.antt =====
-- The bytes that `TransformDescriptor::decode` accepts are those that `encode` writes.
use kvpack.Base.{ℕ, ◌^◌, ◌<◌, ◌≤◌, ◌≡◌, refl, sym, ap, ◌∙◌, List, [], ◌∷◌, ◌++◌, arith}
use kvpack.Base.{not, ltb, ◌==◌, length, drop, take, All, All-drop, append-nil, ok}
use kvpack.Base.{fail_if-eq-ok, >>=-eq-ok, bytes_eq, eq_of_bytes_eq, length-drop, take-append-drop}
use kvpack.Base.{Bool-cases, inl, inr, ok-injective, ==_iff}
use kvpack.Base.{if◌then◌else◌}
use kvpack.Core.Error.{bad_magic}
use kvpack.Base.Bytes.{IsByte, to_le_bytes}
use kvpack.Core.Canonical.Decoder
use kvpack.Core.Canonical.Decoder.{Decoder}
use kvpack.Core.Canonical.Reading.{At}
use kvpack.Core.Canonical.Inverting.{
  Inverts, pure-Inverts, >>=-Inverts, weaken-Inverts, u16-Inverts,
}
use kvpack.Core.Canonical.Inverting.{string-Inverts}
use kvpack.Core.Transform.{
  TransformDescriptor, validate, encode, transform_magic, transform_version,
}
use kvpack.Core.Transform.Decode.{decode_ops, decode_body, decode_fields}
use kvpack.Core.Transform.Descriptor.{decode}
use kvpack.Core.Transform.OpWire.{IsTypedOp}
use kvpack.Core.Transform.OpWire.Inverts.{decode_ops-Inverts, fail-Inverts}
use kvpack.Core.Transform.RoundTrip.{body_bytes, descriptor_bytes}
use kvpack.Core.Transform.RoundTrip.{encode-descriptor_bytes}

decode_body-Inverts : Inverts decode_body (λ t bytes. (bytes ≡ body_bytes t) × All IsTypedOp t.ops)
unfolding decode_body
decode_body-Inverts = >>=-Inverts Decoder.string _ _ _ string-Inverts (λ name b₁ p₁.
    >>=-Inverts Decoder.string _ _ _ string-Inverts (λ source b₂ p₂.
      >>=-Inverts Decoder.u16 _ _ _ u16-Inverts (λ count b₃ p₃.
        >>=-Inverts (decode_ops count) _ _ _ (decode_ops-Inverts count) (λ ops b₄ p₄.
          pure-Inverts _
            (record {
              schema_version = transform_version;
              name = name;
              source_layout = source;
              ops = ops;
            })
            (rw (append-nil b₄, p₁.0, p₂.0, p₃.0, p₄.0, p₄.1) refl, p₄.2)))))

decode_fields-Inverts :
    Inverts decode_fields
      (λ t bytes. (bytes ≡ to_le_bytes 2 transform_version ++ body_bytes t) × All IsTypedOp t.ops)
unfolding decode_fields
decode_fields-Inverts = >>=-Inverts Decoder.u16 _ _ _ u16-Inverts (λ v bytes p. checked v bytes p.0)
  where
    checked :
        (v : ℕ) (bytes : List ℕ)
        → bytes ≡ to_le_bytes 2 v
        → Inverts
            (if v == transform_version
              then decode_body
              else Decoder.fail (bad_magic "invalid transform descriptor version"))
            (λ t more.
              (bytes ++ more ≡ to_le_bytes 2 transform_version ++ body_bytes t)
              × All IsTypedOp t.ops)
    checked v bytes e = elim (Bool-cases (v == transform_version)) [
      | inl hit ↦
          let same : v ≡ transform_version = (==_iff v transform_version).0 hit in
          rw hit (
            weaken-Inverts decode_body _ _ decode_body-Inverts
              (λ t more q. (rw (e, same, q.0) refl, q.1)))
      | inr miss ↦ rw miss (fail-Inverts _ _)
    ]

new-eq-ok :
    (bytes magic : List ℕ) (d : Decoder)
    → Decoder.new bytes magic ≡ ok d
    → (take 8 bytes ≡ magic) × (8 ≤ length bytes) × (record { input = bytes; offset = 8 } ≡ d)
unfolding Decoder.new
new-eq-ok bytes magic d e =
    let (long, e₁) = fail_if-eq-ok (ltb (length bytes) 8) _ _ e in
    let (same, e₂) = fail_if-eq-ok (not (bytes_eq (take 8 bytes) magic)) _ _ e₁ in
    (eq_of_bytes_eq (take 8 bytes) magic (ground arith), ground arith, ok-injective e₂)

finish-eq-ok : (d : Decoder) (rest : List ℕ) → At d rest → Decoder.finish d ≡ ok tt → rest ≡ []
unfolding Decoder.finish
finish-eq-ok d rest at_rest e =
    let place = at_rest.place in
    let end : d.offset ≡ length d.input = ground arith in empty rest (omega arith)
  where
    empty : (xs : List ℕ) → length xs ≡ 0 → xs ≡ []
    empty [] h = refl
    empty (x ∷ xs) h = absurd (omega arith)

-- The steps of a `decode` that succeeds.
record Steps (bytes : List ℕ) (t : TransformDescriptor) : Type 0 where
  start : Decoder
  end : Decoder
  opened : Decoder.new bytes transform_magic ≡ ok start
  read : decode_fields start ≡ ok (t, end)
  finished : Decoder.finish end ≡ ok tt
  valid : validate t ≡ ok tt

decode-Steps : (bytes : List ℕ) (t : TransformDescriptor) → decode bytes ≡ ok t → Steps bytes t
unfolding decode
decode-Steps bytes t e =
    let (start, opened, e₁) = >>=-eq-ok (Decoder.new bytes transform_magic) _ e in
    let ((u, end), read, e₂) = >>=-eq-ok (decode_fields start) _ e₁ in
    let (_, finished, e₃) = >>=-eq-ok (Decoder.finish end) _ e₂ in
    let (_, valid, e₄) = >>=-eq-ok (validate u) _ e₃ in
    let same : u ≡ t = ok-injective e₄ in
    record {
      start = start;
      end = end;
      opened = opened;
      read = read ∙ ap (λ x. ok (x, end)) same;
      finished = finished;
      valid = ap validate (sym same) ∙ valid;
    }

-- Bytes that `decode` accepts as a descriptor are the bytes that `encode` writes for it, so each
-- descriptor has one byte form; the ops of the descriptor hold values of the Rust types. (A byte
-- slice has at most `isize::MAX` bytes.)
pub encode-decode :
    (bytes : List ℕ) (t : TransformDescriptor)
    → All IsByte bytes
    → length bytes < 2 ^ 63
    → decode bytes ≡ ok t
    → (encode t ≡ ok bytes) × All IsTypedOp t.ops
encode-decode bytes t plain small e =
    let s = decode-Steps bytes t e in
    let (magic, long, opened) = new-eq-ok bytes transform_magic s.start s.opened in
    let tail = drop 8 bytes in
    let at_start : At (record { input = bytes; offset = 8 }) tail = record {
      ahead = refl;
      place = omega (arith, length-drop 8 bytes);
      small = small;
    } in
    let (front, rest, split, p, at_end, _) =
      decode_fields-Inverts (record { input = bytes; offset = 8 }) s.end tail t at_start
        (All-drop IsByte 8 bytes plain) (ap decode_fields opened ∙ s.read) in
    let nothing = finish-eq-ok s.end rest at_end s.finished in
    let whole : bytes ≡ descriptor_bytes t =
      sym (take-append-drop 8 bytes) ∙ rw (magic, split, nothing, append-nil front, p.0) refl in
    (encode-descriptor_bytes t s.valid ∙ ap ok (sym whole), p.1)
