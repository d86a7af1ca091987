-- ===== src/Core/Codec/Encoder.antt =====
-- One packet of the lossless encoder, and the size of what it writes.
use kvpack.Base.{ℕ, zero, suc, ◌+◌, ◌-◌, ◌*◌, ◌%◌, ◌≤◌, ◌<◌, ◌≡◌, refl, List, [], ◌∷◌, ◌++◌, arith}
use kvpack.Base.{length, take, drop, ltb, ◌⊎◌, inl, inr, length-drop, length-take, length-append}
use kvpack.Base.{drop-drop, ok, err, bit_or, fail_if-eq-ok, ◌||◌, ◌==◌}
use kvpack.Base.Bytes.{to_le_bytes}
use kvpack.Core.Error.{bounds}
use kvpack.Core.Wire.{max_chunk_plaintext, max_codec_overhead, wire_version}
use kvpack.Core.Codec.{Codec, raw, lossless, repeated_run, literal_loop, lossless_packets}
use kvpack.Core.Codec.{frame_header, frame_magic, encode_codec_frame}
use kvpack.Core.Codec.Runs.{repeated_run_bounds, literal_loop_bounds, literal_loop_stops, RunOrEnd}

-- The length of the literal packet that would start the input.
abbrev pub literal_count : ℕ → List ℕ → ℕ
literal_count b input =
    literal_loop (length (b ∷ input)) (repeated_run (b ∷ input))
      (drop (repeated_run (b ∷ input)) (b ∷ input))

-- The first packet is a repeat packet of a run of three or more, or a literal packet.
pub lossless_packets_round :
    (fuel b : ℕ) (input : List ℕ)
    → ((3 ≤ repeated_run (b ∷ input))
        × (lossless_packets (suc fuel) (b ∷ input)
            ≡ bit_or 0x80 ((repeated_run (b ∷ input) - 1) % 256)
              ∷ b
              ∷ lossless_packets fuel (drop (repeated_run (b ∷ input)) (b ∷ input))))
      ⊎ ((repeated_run (b ∷ input) < 3)
          × (lossless_packets (suc fuel) (b ∷ input)
              ≡ ((literal_count b input - 1) % 256)
                ∷ (take (literal_count b input) (b ∷ input)
                    ++ lossless_packets fuel (drop (literal_count b input) (b ∷ input)))))
unfolding lossless_packets
lossless_packets_round fuel b input = ground arith

pub literal_count_bounds :
    (b : ℕ) (input : List ℕ)
    → (1 ≤ literal_count b input)
      × (literal_count b input ≤ 128)
      × (literal_count b input ≤ suc (length input))
literal_count_bounds b input =
    let run = repeated_run (b ∷ input) in
    omega (
      arith,
      repeated_run_bounds b input,
      length-drop run (b ∷ input),
      literal_loop_bounds (length (b ∷ input)) run (drop run (b ∷ input))
          (repeated_run_bounds b input).1,
    )

-- Behind a literal packet that is not full comes the end or a run.
literal_count_stops :
    (b : ℕ) (input : List ℕ)
    → literal_count b input < 128
    → RunOrEnd (drop (literal_count b input) (b ∷ input))
literal_count_stops b input h =
    let run = repeated_run (b ∷ input) in
    let rest = drop run (b ∷ input) in
    let small = (repeated_run_bounds b input).1 in
    let grown = (literal_loop_bounds (length (b ∷ input)) run rest small).0 in
    let split : drop (literal_count b input - run) rest ≡ drop (literal_count b input) (b ∷ input) =
      drop-drop run (literal_count b input - run) (literal_count b input) (b ∷ input)
        (omega arith) in
    rw split at (
      literal_loop_stops (length (b ∷ input)) run rest small
        (omega (arith, length-drop run (b ∷ input))) h)

-- An input that starts with a run costs no overhead, any other at most one control byte more
-- than one in 128.
packets_size :
    (fuel : ℕ) (input : List ℕ)
    → length input ≤ fuel
    → (128 * length (lossless_packets fuel input) ≤ 129 * length input + 127)
      × (RunOrEnd input → 128 * length (lossless_packets fuel input) ≤ 129 * length input)
packets_size fuel [] h = unfold lossless_packets in omega arith
packets_size zero (b ∷ input) h = absurd (omega arith)
packets_size (suc fuel) (b ∷ input) h =
    let run = repeated_run (b ∷ input) in
    let after_run = drop run (b ∷ input) in
    let count = literal_count b input in
    let literal = take count (b ∷ input) in
    let after_literal = drop count (b ∷ input) in
    let cut = length-drop count (b ∷ input) in
    let in_literal = literal_count_bounds b input in
    elim (lossless_packets_round fuel b input) [
      | inl (long, e) ↦
          let shorter = length-drop run (b ∷ input) in
          let in_run = repeated_run_bounds b input in
          let rest = packets_size fuel after_run (omega arith) in
          rw e (omega arith, λ _. omega arith)
      | inr (short, e) ↦
          let rest = packets_size fuel after_literal (omega arith) in
          let size = length-append literal (lossless_packets fuel after_literal) in
          let taken = length-take count (b ∷ input) in_literal.2 in
          rw e (
            elim (full_or_less count in_literal.1) [
              | inl full ↦ omega arith
              | inr less ↦ let tight = rest.1 (literal_count_stops b input less) in omega arith
            ],
            λ long. absurd (omega arith),
          )
    ]
  where
    full_or_less : (n : ℕ) → n ≤ 128 → (n ≡ 128) ⊎ (n < 128)
    full_or_less n h = grind arith

pub length-lossless_packets :
    (input : List ℕ)
    → 128 * length (lossless_packets (length input) input) ≤ 129 * length input + 127
length-lossless_packets input = (packets_size (length input) input (omega arith)).0

-- The frame of a plaintext: the header, then the bytes of the codec.
abbrev body : Codec → List ℕ → List ℕ
body raw plaintext = plaintext
body lossless plaintext = lossless_packets (length plaintext) plaintext

abbrev pub header : Codec → ℕ → List ℕ
header codec n =
    frame_magic codec ++ (to_le_bytes 2 wire_version ++ (to_le_bytes 2 0 ++ to_le_bytes 4 n))

abbrev pub frame : Codec → List ℕ → List ℕ
frame codec plaintext = header codec (length plaintext) ++ body codec plaintext

pub encode_codec_frame-frame :
    (codec : Codec) (plaintext : List ℕ)
    → 1 ≤ length plaintext
    → length plaintext ≤ max_chunk_plaintext
    → encode_codec_frame codec plaintext ≡ ok (frame codec plaintext)
unfolding encode_codec_frame frame_header
encode_codec_frame-frame raw plaintext lo hi = ground arith
encode_codec_frame-frame lossless plaintext lo hi =
    ground (arith, length-lossless_packets plaintext)

pub length-frame :
    (codec : Codec) (plaintext : List ℕ)
    → length plaintext ≤ max_chunk_plaintext
    → length (frame codec plaintext) ≤ max_chunk_plaintext + max_codec_overhead
length-frame raw plaintext hi = omega arith
length-frame lossless plaintext hi = omega (arith, length-lossless_packets plaintext)

-- A plaintext that the encoder accepts has 1 to MAX_CHUNK_PLAINTEXT bytes.
pub encode_codec_frame-bounds :
    (codec : Codec) (plaintext : List ℕ) {f : List ℕ}
    → encode_codec_frame codec plaintext ≡ ok f
    → (1 ≤ length plaintext) × (length plaintext ≤ max_chunk_plaintext)
unfolding encode_codec_frame
encode_codec_frame-bounds codec plaintext e =
    let (inside, _) =
      fail_if-eq-ok (length plaintext == 0 || ltb max_chunk_plaintext (length plaintext)) _ _ e in
    ground arith

outside :
    (codec : Codec) (plaintext : List ℕ)
    → (length plaintext ≡ 0) ⊎ (max_chunk_plaintext < length plaintext)
    → encode_codec_frame codec plaintext ≡ err (bounds "chunk plaintext must be in 1..=4 MiB")
unfolding encode_codec_frame
outside codec plaintext h = ground arith

-- `encode_codec_frame` writes a frame of at most MAX_CHUNK_PLAINTEXT + MAX_CODEC_OVERHEAD bytes for
-- every plaintext of 1 to MAX_CHUNK_PLAINTEXT bytes, with either codec: its error for a lossless
-- frame past that bound is never returned. Any other plaintext is refused as out of bounds.
pub encode_codec_frame_total :
    (codec : Codec) (plaintext : List ℕ)
    → ((1 ≤ length plaintext)
        × (length plaintext ≤ max_chunk_plaintext)
        × ((f : List ℕ) × (encode_codec_frame codec plaintext ≡ ok f)
            × (length f ≤ max_chunk_plaintext + max_codec_overhead)))
      ⊎ (((length plaintext ≡ 0) ⊎ (max_chunk_plaintext < length plaintext))
          × (encode_codec_frame codec plaintext
              ≡ err (bounds "chunk plaintext must be in 1..=4 MiB")))
encode_codec_frame_total codec plaintext = elim (size_cases (length plaintext)) [
  | inl (lo, hi) ↦ inl (
    lo,
    hi,
    (
      frame codec plaintext,
      encode_codec_frame-frame codec plaintext lo hi,
      length-frame codec plaintext hi,
    ),
  )
  | inr bad ↦ inr (bad, outside codec plaintext bad)
]
  where
    size_cases :
        (n : ℕ) → ((1 ≤ n) × (n ≤ max_chunk_plaintext)) ⊎ ((n ≡ 0) ⊎ (max_chunk_plaintext < n))
    size_cases zero = inr (inl refl)
    size_cases (suc n) = grind arith
