-- ===== src/Core/Tests.antt =====
-- crates/kvpack-core: the theorems at concrete chunks and descriptors.
use kvpack.Base.{ℕ, ◌+◌, ◌/◌, ◌≤◌, ◌<◌, ◌≡◌, refl, ◌↔◌, ◌⊎◌, List, [], ◌∷◌, length, All, ok, err}
use kvpack.Base.{arith}
use kvpack.Base.Bytes.{IsByte}
use kvpack.Base.{◌*◌, ◌^◌}
use kvpack.Core.Half.{f16_to_f32, f32_to_f16}
use kvpack.Core.Half.RoundTrip.{canonical, f32_to_f16-f16_to_f32}
use kvpack.Core.Half.Nearest.{
  IsNearestEven, significand, unit, f32_to_f16-nearest, f32_to_f16-flushes,
}
use kvpack.Core.Error.{bounds}
use kvpack.Core.Wire.{max_chunk_plaintext, max_codec_overhead}
use kvpack.Core.Codec.{
  lossless, encode_codec_frame, decode_codec_frame, lossless_packets, frame_header, literal_loop,
  repeated_run, repeated_run_loop,
}
use kvpack.Core.Codec.Encoder.{encode_codec_frame_total}
use kvpack.Core.Codec.Frame.{decode-encode_codec_frame, decode_codec_frame-canonical}
use kvpack.Core.Canonical.Encoder
use kvpack.Core.Transform
use kvpack.Core.Transform.{TransformDescriptor, RepackOp, reorder_planes, rope_permute, pad_or_trim}
use kvpack.Core.Transform.{
  neox_to_interleaved, validate_permutation, validate, validate_ops, validate_op, validate_label,
  check_indices, is_ascii, encode_ops, encode_op, encode_permutation, encode_indices,
  rope_direction_wire, max_permutation_width,
}
use kvpack.Core.Transform.Descriptor.{decode}
use kvpack.Core.Transform.Permutation.{validate_permutation_iff, IsPermutation}
use kvpack.Core.Transform.OpWire.{IsTypedOp}
use kvpack.Core.Transform.RoundTrip.{decode-encode}
use kvpack.Core.Transform.Canonical.{encode-decode}
use kvpack.Core.Transform.Exec.{permute_slabs}
use kvpack.Base.{get_elem?, some}
use kvpack.Core.Transform.Exec.{invert}
use kvpack.Core.Transform.Exec.Inverse.{invert-at}
use kvpack.Core.Transform.Exec.Slabs.{slabs, permute_slabs-slabs}

-- A run of four bytes, then two literals.
abbrev chunk : List ℕ
chunk = 7 ∷ 7 ∷ 7 ∷ 7 ∷ 1 ∷ 2 ∷ []

-- The frame of `chunk`.
abbrev chunk_frame : List ℕ
chunk_frame =
    75 ∷ 86 ∷ 82 ∷ 76 ∷ 69 ∷ 49 ∷ 0 ∷ 0 ∷ 1 ∷ 0 ∷ 0 ∷ 0 ∷ 6 ∷ 0 ∷ 0 ∷ 0 ∷ 131 ∷ 7 ∷ 1 ∷ 1 ∷ 2 ∷ []

encode_codec_frame_total_example :
    ((1 ≤ length chunk)
      × (length chunk ≤ max_chunk_plaintext)
      × ((f : List ℕ) × (encode_codec_frame lossless chunk ≡ ok f)
          × (length f ≤ max_chunk_plaintext + max_codec_overhead)))
    ⊎ (((length chunk ≡ 0) ⊎ (max_chunk_plaintext < length chunk))
        × (encode_codec_frame lossless chunk ≡ err (bounds "chunk plaintext must be in 1..=4 MiB")))
encode_codec_frame_total_example = encode_codec_frame_total lossless chunk

-- A descriptor of three ops.
abbrev descriptor : TransformDescriptor
descriptor = record {
  schema_version = 1;
  name = 97 ∷ [];
  source_layout = 98 ∷ [];
  ops = reorder_planes (1 ∷ 0 ∷ []) ∷ rope_permute neox_to_interleaved 4 ∷ pad_or_trim 300 ∷ [];
}

abbrev descriptor_frame : List ℕ
descriptor_frame =
    75 ∷ 86 ∷ 88 ∷ 70 ∷ 77 ∷ 49 ∷ 0 ∷ 0 ∷ 1 ∷ 0 ∷ 1 ∷ 0 ∷ 97 ∷ 1 ∷ 0 ∷ 98 ∷ 3 ∷ 0 ∷ 2 ∷ 0 ∷ 2 ∷ 0
    ∷ 1 ∷ 0 ∷ 0 ∷ 0 ∷ 0 ∷ 0 ∷ 0 ∷ 0 ∷ 6 ∷ 0 ∷ 1 ∷ 0 ∷ 4 ∷ 0 ∷ 0 ∷ 0 ∷ 4 ∷ 0 ∷ 44 ∷ 1 ∷ 0 ∷ 0 ∷ 0 ∷ 0
    ∷ 0 ∷ 0 ∷ []

chunk_encoded : encode_codec_frame lossless chunk ≡ ok chunk_frame
unfolding encode_codec_frame frame_header lossless_packets literal_loop repeated_run
    repeated_run_loop
chunk_encoded = refl

decode-encode_codec_frame_example :
    decode_codec_frame lossless chunk_frame (length chunk) ≡ ok chunk
decode-encode_codec_frame_example =
    decode-encode_codec_frame lossless chunk {f = chunk_frame} chunk_encoded

chunk_frame-bytes : All IsByte chunk_frame
chunk_frame-bytes = ground arith

decode_codec_frame-canonical_example :
    (encode_codec_frame lossless chunk ≡ ok chunk_frame) × (length chunk ≡ 6)
decode_codec_frame-canonical_example =
    decode_codec_frame-canonical lossless chunk_frame chunk 6 chunk_frame-bytes
      (decode-encode_codec_frame lossless chunk {f = chunk_frame} chunk_encoded)

validate_permutation_iff_example : (validate_permutation (2 ∷ 0 ∷ 1 ∷ []) ≡ ok tt) ↔ (
    (1 ≤ length {A = ℕ} (2 ∷ 0 ∷ 1 ∷ []))
    × (length {A = ℕ} (2 ∷ 0 ∷ 1 ∷ []) ≤ max_permutation_width)
    × IsPermutation (2 ∷ 0 ∷ 1 ∷ []))
validate_permutation_iff_example = validate_permutation_iff (2 ∷ 0 ∷ 1 ∷ [])

descriptor_encoded : Transform.encode descriptor ≡ ok descriptor_frame
unfolding Transform.encode validate validate_ops validate_op validate_label validate_permutation
    check_indices is_ascii encode_ops encode_op encode_permutation encode_indices
    rope_direction_wire Encoder.string
descriptor_encoded = refl

descriptor-IsTypedOp : All IsTypedOp descriptor.ops
descriptor-IsTypedOp = ground arith

decode-encode_example : decode descriptor_frame ≡ ok descriptor
decode-encode_example =
    decode-encode descriptor descriptor_frame descriptor-IsTypedOp (omega arith) descriptor_encoded

descriptor_frame-bytes : All IsByte descriptor_frame
descriptor_frame-bytes = ground arith

encode-decode_example :
    (Transform.encode descriptor ≡ ok descriptor_frame) × All IsTypedOp descriptor.ops
encode-decode_example =
    encode-decode descriptor_frame descriptor descriptor_frame-bytes (omega arith) (
      decode-encode descriptor descriptor_frame descriptor-IsTypedOp (omega arith)
        descriptor_encoded)

abbrev order : List ℕ
order = 2 ∷ 0 ∷ 1 ∷ []

abbrev plane : List ℕ
plane = 10 ∷ 11 ∷ 20 ∷ 21 ∷ 30 ∷ 31 ∷ []

order_valid : validate_permutation order ≡ ok tt
unfolding validate_permutation check_indices
order_valid = refl

permute_slabs-slabs_example :
    permute_slabs order plane ≡ ok (slabs 0 (length plane / length order) plane order)
permute_slabs-slabs_example = permute_slabs-slabs order plane order_valid refl

invert-at_example : get_elem? (invert order) 2 ≡ some 0
invert-at_example = invert-at order 0 2 order_valid refl

-- One third and its negation, the value 2^-24 and a half more, and 1.5 times 2^-25.
f32_to_f16-f16_to_f32_example : f32_to_f16 (f16_to_f32 0x3555) ≡ canonical 0x3555
f32_to_f16-f16_to_f32_example = f32_to_f16-f16_to_f32 0x3555 (omega arith)

f32_to_f16-nearest_example :
    (k : ℕ) × (f32_to_f16 (1 * 2 ^ 31 + 125 * 2 ^ 23 + 0x2aaaab) ≡ 1 * 2 ^ 15 + k)
    × (k ≤ 0x7c00)
    × IsNearestEven (significand 125 0x2aaaab) (unit 125) k
f32_to_f16-nearest_example =
    f32_to_f16-nearest 1 125 0x2aaaab (omega arith) (omega arith) (omega arith) (omega arith)

f32_to_f16-flushes_example :
    (f32_to_f16 (0 * 2 ^ 31 + 102 * 2 ^ 23 + 2 ^ 22) ≡ 0 * 2 ^ 15)
    × IsNearestEven (2 ^ 22 + 2 ^ 23) (2 ^ 24) 1
    × ¬ IsNearestEven (2 ^ 22 + 2 ^ 23) (2 ^ 24) 0
f32_to_f16-flushes_example = f32_to_f16-flushes 0 (2 ^ 22) (omega arith) (omega arith) (omega arith)
