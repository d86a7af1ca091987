-- ===== src/Core/Wire.antt =====
-- crates/kvpack-core/src/consts.rs: sizes, bounds and magics of the wire formats.
use kvpack.Base.{ℕ, ◌+◌, ◌*◌, ◌/◌, List, [], ◌∷◌}

abbrev pub alignment : ℕ
alignment = 4096

abbrev pub chunk_header_bytes : ℕ
chunk_header_bytes = alignment

abbrev pub max_chunk_plaintext : ℕ
max_chunk_plaintext = 4 * 1024 * 1024

abbrev pub codec_frame_header_bytes : ℕ
codec_frame_header_bytes = 16

-- `MAX_CHUNK_PLAINTEXT.div_ceil(128)` is the quotient rounded up.
abbrev pub max_codec_overhead : ℕ
max_codec_overhead = codec_frame_header_bytes + (max_chunk_plaintext + 127) / 128

abbrev pub wire_version : ℕ
wire_version = 1

-- `b"KVRAW1\0\0"`
abbrev pub raw_frame_magic : List ℕ
raw_frame_magic = b'K' ∷ b'V' ∷ b'R' ∷ b'A' ∷ b'W' ∷ b'1' ∷ 0 ∷ 0 ∷ []

-- `b"KVRLE1\0\0"`
abbrev pub lossless_frame_magic : List ℕ
lossless_frame_magic = b'K' ∷ b'V' ∷ b'R' ∷ b'L' ∷ b'E' ∷ b'1' ∷ 0 ∷ 0 ∷ []
