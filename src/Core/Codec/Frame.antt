-- ===== src/Core/Codec/Frame.antt =====
-- The whole frame: `decode_codec_frame` after `encode_codec_frame`, and the other way round.
use kvpack.Base.{ℕ, ◌+◌, ◌≤◌, ◌≡◌, refl, sym, ap, ◌∙◌, List, []}
use kvpack.Base.{◌++◌, arith, length, take, drop, ltb, ◌==◌, not, ◌||◌, length-drop, length-take}
use kvpack.Base.{
  take-append-drop, drop-drop, All, All-take, All-drop, ok, fail_if-eq-ok, ok-injective,
  append_assoc,
}
use kvpack.Base.{bytes_eq, bytes_eq_refl, eq_of_bytes_eq, ==_iff, >>=-eq-ok}
use kvpack.Base.Bytes.{IsByte, to_le_bytes, from_le_bytes, from-to_le_bytes, to-from_le_bytes}
use kvpack.Core.Wire.{max_chunk_plaintext, wire_version}
use kvpack.Core.Codec.{
  Codec, raw, lossless, frame_magic, get_u16, get_u32, lossless_packets, lossless_loop,
}
use kvpack.Core.Codec.{encode_codec_frame, decode_payload, decode_codec_frame}
use kvpack.Core.Codec.Encoder.{header, frame, encode_codec_frame-frame, encode_codec_frame-bounds}
use kvpack.Core.Codec.Encoder.{length-lossless_packets}
use kvpack.Core.Codec.RoundTrip.{lossless_loop-lossless_packets}

decode_payload-frame :
    (codec : Codec) (plaintext : List ℕ)
    → 1 ≤ length plaintext
    → length plaintext ≤ max_chunk_plaintext
    → decode_payload codec
        (frame codec plaintext)
        (drop 16 (frame codec plaintext))
        (length plaintext)
      ≡ ok plaintext
unfolding decode_payload
decode_payload-frame raw plaintext lo hi = ground arith
decode_payload-frame lossless plaintext lo hi =
    let n = length plaintext in
    let payload = lossless_packets n plaintext in
    let small = length-lossless_packets plaintext in
    rw (
      lossless_loop-lossless_packets n (length payload) n 0 plaintext [] (omega arith) (omega arith)
          (omega arith) (omega arith) (omega arith),
      (==_iff n n).1 refl,
      encode_codec_frame-frame lossless plaintext lo hi,
      bytes_eq_refl (frame lossless plaintext),
    )

decode_codec_frame-frame :
    (codec : Codec) (plaintext : List ℕ)
    → 1 ≤ length plaintext
    → length plaintext ≤ max_chunk_plaintext
    → decode_codec_frame codec (frame codec plaintext) (length plaintext) ≡ ok plaintext
unfolding decode_codec_frame get_u16 get_u32
decode_codec_frame-frame raw plaintext lo hi =
    let size : from_le_bytes (to_le_bytes 4 (length plaintext)) ≡ length plaintext =
      from-to_le_bytes 4 (length plaintext) (omega arith) in
    ground (arith, decode_payload-frame raw plaintext lo hi)
decode_codec_frame-frame lossless plaintext lo hi =
    let size : from_le_bytes (to_le_bytes 4 (length plaintext)) ≡ length plaintext =
      from-to_le_bytes 4 (length plaintext) (omega arith) in
    ground (arith, decode_payload-frame lossless plaintext lo hi)

-- Decoding the frame of a plaintext with the plaintext's length gives the plaintext back, with
-- either codec.
pub decode-encode_codec_frame :
    (codec : Codec) (plaintext : List ℕ) {f : List ℕ}
    → encode_codec_frame codec plaintext ≡ ok f
    → decode_codec_frame codec f (length plaintext) ≡ ok plaintext
decode-encode_codec_frame codec plaintext e =
    let (lo, hi) = encode_codec_frame-bounds codec plaintext e in
    let same = sym e ∙ encode_codec_frame-frame codec plaintext lo hi in
    rw (ok-injective same) (decode_codec_frame-frame codec plaintext lo hi)

-- A slice of sixteen bytes or more as the four fields of the header and the payload.
fields :
    (encoded : List ℕ)
    → encoded
      ≡ take 8 encoded
        ++ (take 2 (drop 8 encoded)
            ++ (take 2 (drop 10 encoded) ++ (take 4 (drop 12 encoded) ++ drop 16 encoded)))
fields encoded =
    let tail = drop 16 encoded in
    let at_twelve : take 4 (drop 12 encoded) ++ tail ≡ drop 12 encoded = cut 12 4 16 refl in
    let at_ten : take 2 (drop 10 encoded) ++ drop 12 encoded ≡ drop 10 encoded = cut 10 2 12 refl in
    let at_eight : take 2 (drop 8 encoded) ++ drop 10 encoded ≡ drop 8 encoded = cut 8 2 10 refl in
    sym (rw (at_twelve, at_ten, at_eight) (take-append-drop 8 encoded))
  where
    cut : (n m k : ℕ) → k ≡ n + m → take m (drop n encoded) ++ drop k encoded ≡ drop n encoded
    cut n m k e = rw (drop-drop n m k encoded e) at (take-append-drop m (drop n encoded))

field_bytes :
    (w offset v : ℕ) (encoded : List ℕ)
    → All IsByte encoded
    → offset + w ≤ length encoded
    → from_le_bytes (take w (drop offset encoded)) ≡ v
    → take w (drop offset encoded) ≡ to_le_bytes w v
field_bytes w offset v encoded bytes inside e =
    let slice = take w (drop offset encoded) in
    let size : length slice ≡ w =
      length-take w (drop offset encoded) (omega (arith, length-drop offset encoded)) in
    let plain = All-take IsByte w (drop offset encoded) (All-drop IsByte offset encoded bytes) in
    sym (rw e at (to-from_le_bytes w slice size plain))

-- What the header checks of `decode_codec_frame` establish.
decode_codec_frame-header :
    (codec : Codec) (encoded plaintext : List ℕ) (n : ℕ)
    → All IsByte encoded
    → decode_codec_frame codec encoded n ≡ ok plaintext
    → (encoded ≡ header codec n ++ drop 16 encoded)
      × (1 ≤ n)
      × (n ≤ max_chunk_plaintext)
      × (decode_payload codec encoded (drop 16 encoded) n ≡ ok plaintext)
unfolding decode_codec_frame get_u16 get_u32
decode_codec_frame-header codec encoded plaintext n bytes e =
    let (long, e₁) = fail_if-eq-ok (ltb (length encoded) 16) _ _ e in
    let (magic, e₂) = fail_if-eq-ok (not (bytes_eq (take 8 encoded) (frame_magic codec))) _ _ e₁ in
    let (version, e₃) = fail_if-eq-ok (not (get_u16 encoded 8 == wire_version)) _ _ e₂ in
    let (spare, e₄) = fail_if-eq-ok (not (get_u16 encoded 10 == 0)) _ _ e₃ in
    let (sizes, e₅) =
      fail_if-eq-ok (not (get_u32 encoded 12 == n) || (n == 0 || ltb max_chunk_plaintext n)) _ _
        e₄ in
    let inside : 16 ≤ length encoded = ground arith in
    let magic_bytes : take 8 encoded ≡ frame_magic codec =
      eq_of_bytes_eq (take 8 encoded) (frame_magic codec) (ground arith) in
    let version_bytes = field_bytes 2 8 wire_version encoded bytes (omega arith) (ground arith) in
    let spare_bytes = field_bytes 2 10 0 encoded bytes (omega arith) (ground arith) in
    let size_bytes = field_bytes 4 12 n encoded bytes (omega arith) (ground arith) in
    let split = fields encoded in
    (
      split
          ∙ rw (magic_bytes, version_bytes, spare_bytes, size_bytes)
              (sym (append_assoc (frame_magic codec) _ (drop 16 encoded))),
      ground arith,
      ground arith,
      e₅,
    )

decode_payload-canonical :
    (codec : Codec) (encoded plaintext : List ℕ) (n : ℕ)
    → encoded ≡ header codec n ++ drop 16 encoded
    → 1 ≤ n
    → n ≤ max_chunk_plaintext
    → decode_payload codec encoded (drop 16 encoded) n ≡ ok plaintext
    → (encode_codec_frame codec plaintext ≡ ok encoded) × (length plaintext ≡ n)
unfolding decode_payload
decode_payload-canonical raw encoded plaintext n split lo hi e =
    let (size, e₁) = fail_if-eq-ok (not (length (drop 16 encoded) == n)) _ _ e in
    let same : drop 16 encoded ≡ plaintext = ok-injective e₁ in
    let counted : length (drop 16 encoded) ≡ n = ground arith in
    let count : length plaintext ≡ n = ap length (sym same) ∙ counted in
    (
      encode_codec_frame-frame raw plaintext (omega arith) (omega arith)
          ∙ ap ok (rw (count, ← same) (sym split)),
      count,
    )
decode_payload-canonical lossless encoded plaintext n split lo hi e =
    let payload = drop 16 encoded in
    let (decoded, e₁, rest) = >>=-eq-ok (lossless_loop (length payload) n 0 payload []) _ e in
    let (size, e₂) = fail_if-eq-ok (not (length decoded == n)) _ _ rest in
    let (again, e₃, rest₂) = >>=-eq-ok (encode_codec_frame lossless decoded) _ e₂ in
    let (canonical, e₄) = fail_if-eq-ok (not (bytes_eq again encoded)) _ _ rest₂ in
    let same : decoded ≡ plaintext = ok-injective e₄ in
    let bytes : again ≡ encoded = eq_of_bytes_eq again encoded (ground arith) in
    let counted : length decoded ≡ n = ground arith in
    (rw (← same) (e₃ ∙ ap ok bytes), ap length (sym same) ∙ counted)

-- A frame that `decode_codec_frame` accepts is the one that `encode_codec_frame` writes for the
-- decoded plaintext, with the same codec, and that plaintext has the expected length. So also for
-- a raw frame, which the code does not compare with the encoder's output.
pub decode_codec_frame-canonical :
    (codec : Codec) (encoded plaintext : List ℕ) (n : ℕ)
    → All IsByte encoded
    → decode_codec_frame codec encoded n ≡ ok plaintext
    → (encode_codec_frame codec plaintext ≡ ok encoded) × (length plaintext ≡ n)
decode_codec_frame-canonical codec encoded plaintext n bytes e =
    let (split, lo, hi, accepted) = decode_codec_frame-header codec encoded plaintext n bytes e in
    decode_payload-canonical codec encoded plaintext n split lo hi accepted
