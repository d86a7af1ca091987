-- ===== src/Core/Transform/RoundTrip.antt =====
-- `TransformDescriptor::decode` after `encode`.
use kvpack.Base.{ℕ, ◌%◌, ◌^◌, ◌<◌, ◌≤◌, ◌≡◌, refl, sym, ap, ◌∙◌, List, [], ◌∷◌, ◌++◌}
use kvpack.Base.{arith, true, not, ltb, ◌==◌, length, All, append_assoc, ok}
use kvpack.Base.{append-nil, fail_if-eq-ok, >>=-eq-ok, String, ok-injective}
use kvpack.Base.Bytes.{to_le_bytes}
use kvpack.Core.Canonical.Encoder
use kvpack.Core.Canonical.Decoder
use kvpack.Core.Canonical.Decoder.{Decoder, is_utf8, utf8_from}
use kvpack.Core.Canonical.Reading.{At, Parses, >>=-Parses, last-Parses, u16-Parses, string-Parses}
use kvpack.Core.Transform.{TransformDescriptor, validate_ops, validate_label}
use kvpack.Core.Transform.{is_ascii, validate, encode, transform_magic, transform_version}
use kvpack.Core.Transform.{max_transform_ops, max_transform_label_bytes}
use kvpack.Core.Transform.Decode.{decode_ops, decode_body, decode_fields}
use kvpack.Core.Transform.Descriptor.{decode}
use kvpack.Core.Transform.OpWire.{IsTypedOp, ops_bytes, encode_ops-append}
use kvpack.Core.Transform.OpWire.Reads.{decode_ops-Parses}

abbrev pub string_bytes : List ℕ → List ℕ
string_bytes v = to_le_bytes 2 (length v) ++ v

-- The canonical bytes behind the magic.
abbrev pub body_bytes : TransformDescriptor → List ℕ
body_bytes t =
    string_bytes t.name
    ++ (string_bytes t.source_layout ++ (to_le_bytes 2 (length t.ops) ++ ops_bytes t.ops))

abbrev pub descriptor_bytes : TransformDescriptor → List ℕ
descriptor_bytes t = transform_magic ++ (to_le_bytes 2 transform_version ++ body_bytes t)

-- What `validate` establishes of the fields.
pub record IsLabel (v : List ℕ) : Type 0 where
  pub nonempty : 1 ≤ length v
  pub bounded : length v ≤ max_transform_label_bytes
  pub ascii : is_ascii v ≡ true

pub record IsValid (t : TransformDescriptor) : Type 0 where
  pub version : t.schema_version ≡ transform_version
  pub label : IsLabel t.name
  pub layout : IsLabel t.source_layout
  pub few : length t.ops ≤ max_transform_ops
  pub each : validate_ops t.ops ≡ ok tt

validate_label-IsLabel : (v : List ℕ) (what : String) → validate_label v what ≡ ok tt → IsLabel v
unfolding validate_label
validate_label-IsLabel v what e = ground arith

pub validate-IsValid : (t : TransformDescriptor) → validate t ≡ ok tt → IsValid t
unfolding validate
validate-IsValid t e =
    let (version, e₁) = fail_if-eq-ok (not (t.schema_version == transform_version)) _ _ e in
    let (_, name, e₂) = >>=-eq-ok (validate_label t.name _) _ e₁ in
    let (_, source, e₃) = >>=-eq-ok (validate_label t.source_layout _) _ e₂ in
    let (few, e₄) = fail_if-eq-ok (ltb max_transform_ops (length t.ops)) _ _ e₃ in
    record {
      version = ground arith;
      label = validate_label-IsLabel t.name _ name;
      layout = validate_label-IsLabel t.source_layout _ source;
      few = ground arith;
      each = e₄;
    }

ascii-utf8 : (v : List ℕ) → is_ascii v ≡ true → is_utf8 v ≡ true
unfolding is_ascii utf8_from
ascii-utf8 [] h = refl
ascii-utf8 (b ∷ v) h = ground (arith, ascii-utf8 v)

encode_string : (v out : List ℕ) → IsLabel v → Encoder.string v out ≡ ok (out ++ string_bytes v)
unfolding Encoder.string
encode_string v out l = ground (arith, append_assoc out (to_le_bytes 2 (length v)) v)

-- A valid descriptor is encoded as its canonical bytes.
pub encode-descriptor_bytes :
    (t : TransformDescriptor) → validate t ≡ ok tt → encode t ≡ ok (descriptor_bytes t)
unfolding encode
encode-descriptor_bytes t e =
    let v = validate-IsValid t e in
    let start : List ℕ = transform_magic ++ to_le_bytes 2 transform_version in
    let width : length t.ops % 0x1_0000 ≡ length t.ops = ground arith in
    rw
      (
        e,
        encode_string t.name start v.label,
        encode_string t.source_layout (start ++ string_bytes t.name) v.layout,
        width,
        encode_ops-append,
      )
      (ap ok (simp append_assoc))

-- The descriptor with the version that `decode` writes into it.
abbrev pub rebuilt : TransformDescriptor → TransformDescriptor
rebuilt t = record t { schema_version = transform_version }

pub rebuilt-eq : (t : TransformDescriptor) → IsValid t → rebuilt t ≡ t
rebuilt-eq t v = λ i. record t { schema_version = sym v.version i }

string_label : (v : List ℕ) → IsLabel v → Parses Decoder.string (string_bytes v) v
string_label v l = string-Parses v (omega (arith, l.bounded)) (ascii-utf8 v l.ascii)

decode_body-Parses :
    (t : TransformDescriptor)
    → IsValid t
    → All IsTypedOp t.ops
    → Parses decode_body (body_bytes t) (rebuilt t)
unfolding decode_body
decode_body-Parses t v typed =
    let count = to_le_bytes 2 (length t.ops) in
    let few = v.few in
    >>=-Parses Decoder.string _ t.name (rebuilt t) (string_bytes t.name)
      (string_bytes t.source_layout ++ (count ++ ops_bytes t.ops)) (string_label t.name v.label)
      (>>=-Parses Decoder.string _ t.source_layout (rebuilt t) (string_bytes t.source_layout)
        (count ++ ops_bytes t.ops) (string_label t.source_layout v.layout)
        (>>=-Parses Decoder.u16 _ (length t.ops) (rebuilt t) count (ops_bytes t.ops)
          (u16-Parses (length t.ops) (omega arith))
          (last-Parses (decode_ops (length t.ops)) (λ ops. record (rebuilt t) { ops = ops }) t.ops
            (rebuilt t) (ops_bytes t.ops) (decode_ops-Parses t.ops typed v.each) refl)))

decode_fields-Parses :
    (t : TransformDescriptor)
    → IsValid t
    → All IsTypedOp t.ops
    → Parses decode_fields (to_le_bytes 2 transform_version ++ body_bytes t) (rebuilt t)
unfolding decode_fields
decode_fields-Parses t v typed =
    >>=-Parses Decoder.u16 _ transform_version (rebuilt t) (to_le_bytes 2 transform_version)
      (body_bytes t) (u16-Parses transform_version (omega arith)) (decode_body-Parses t v typed)

finish-At_end : (d : Decoder) → At d [] → Decoder.finish d ≡ ok tt
unfolding Decoder.finish
finish-At_end d at_end = let place = at_end.place in ground arith

-- The decoder behind the magic.
abbrev pub started : List ℕ → Decoder
started tail = record { input = transform_magic ++ tail; offset = 8 }

new-started :
    (tail : List ℕ) → Decoder.new (transform_magic ++ tail) transform_magic ≡ ok (started tail)
unfolding Decoder.new
new-started tail = ground arith

decode_steps :
    (tail : List ℕ) (t u : TransformDescriptor) (d : Decoder)
    → decode_fields (started tail) ≡ ok (u, d)
    → Decoder.finish d ≡ ok tt
    → u ≡ t
    → validate t ≡ ok tt
    → decode (transform_magic ++ tail) ≡ ok t
unfolding decode
decode_steps tail t u d read finished same valid =
    rw (new-started tail, read, finished, same, valid)

decode-descriptor_bytes :
    (t : TransformDescriptor)
    → validate t ≡ ok tt
    → All IsTypedOp t.ops
    → length (descriptor_bytes t) < 2 ^ 63
    → decode (descriptor_bytes t) ≡ ok t
decode-descriptor_bytes t e typed small =
    let v = validate-IsValid t e in
    let tail = to_le_bytes 2 transform_version ++ body_bytes t in
    let same = ap length (append-nil tail) in
    let at_start : At (started tail) (tail ++ []) = record {
      ahead = sym (append-nil tail);
      place = rw same (omega arith);
      small = small;
    } in
    let (d, read, at_end) = decode_fields-Parses t v typed (started tail) [] at_start in
    decode_steps tail t (rebuilt t) d read (finish-At_end d at_end) (rebuilt-eq t v) e

encode-eq-ok : (t : TransformDescriptor) (bytes : List ℕ) → encode t ≡ ok bytes → validate t ≡ ok tt
unfolding encode
encode-eq-ok t bytes e = let (_, valid, _) = >>=-eq-ok (validate t) _ e in valid

-- What `encode` writes for a descriptor whose ops hold values of the Rust types, `decode` reads back
-- as that descriptor. (A byte vector has at most `isize::MAX` bytes.)
pub decode-encode :
    (t : TransformDescriptor) (bytes : List ℕ)
    → All IsTypedOp t.ops
    → length bytes < 2 ^ 63
    → encode t ≡ ok bytes
    → decode bytes ≡ ok t
decode-encode t bytes typed small e =
    let valid = encode-eq-ok t bytes e in
    let same = ok-injective (sym (encode-descriptor_bytes t valid) ∙ e) in
    rw (← same) (decode-descriptor_bytes t valid typed (rw (← same) at small))
