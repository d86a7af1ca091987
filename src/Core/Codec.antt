-- ===== src/Core/Codec.antt =====
-- crates/kvpack-core/src/chunk.rs: the codec frame of one chunk, raw or run-length encoded.
-- A byte slice is a list of numbers; a slice from an index on is the rest of the list.
pub mod Runs
pub mod Encoder
pub mod RoundTrip
pub mod Frame
use kvpack.Base.{ℕ, zero, suc, ◌+◌, ◌-◌, ◌%◌, List, [], ◌∷◌, ◌++◌}
use kvpack.Base.{◌&&◌, ◌||◌, not, ltb, leb, ◌==◌, if◌then◌else◌, saturating_add, max_u64}
use kvpack.Base.{bit_and, bit_or, length, take, drop, replicate, bytes_eq}
use kvpack.Base.{Result, ok, err, ◌>>=◌, ◌>>◌, fail_if}
use kvpack.Base.Bytes.{to_le_bytes, from_le_bytes}
use kvpack.Core.Error.{PackError, bad_magic, reserved, truncated, bounds}
use kvpack.Core.Wire.{max_chunk_plaintext, codec_frame_header_bytes, max_codec_overhead}
use kvpack.Core.Wire.{wire_version, raw_frame_magic, lossless_frame_magic}

pub data Codec : Type 0 where
  raw lossless : Codec

-- `get_u16` and `get_u32`; every call comes after the check of the header's length.
unfoldable pub get_u16 : List ℕ → ℕ → ℕ
get_u16 source offset = from_le_bytes (take 2 (drop offset source))

unfoldable pub get_u32 : List ℕ → ℕ → ℕ
get_u32 source offset = from_le_bytes (take 4 (drop offset source))

unfoldable pub frame_header : List ℕ → ℕ → Result PackError (List ℕ)
frame_header magic plaintext_bytes = do
  fail_if (leb 0x1_0000_0000 plaintext_bytes) (bounds "codec plaintext length exceeds u32")
  ok (magic ++ (to_le_bytes 2 wire_version ++ (to_le_bytes 2 0 ++ to_le_bytes 4 plaintext_bytes)))

-- The loop of `repeated_run`: `input` is the part of the slice from `start + length` on.
unfoldable pub repeated_run_loop : ℕ → ℕ → List ℕ → ℕ
repeated_run_loop first run [] = run
repeated_run_loop first run (b ∷ input) =
    let more = repeated_run_loop first (run + 1) input in
    if ltb run 128 && b == first then more else run

-- `repeated_run(input, start)`, for the slice from `start` on, which is not empty where it is called.
unfoldable pub repeated_run : List ℕ → ℕ
repeated_run [] = 1
repeated_run (first ∷ input) = repeated_run_loop first 1 input

-- The inner loop of the lossless encoder: `count` is `index - literal_start`, `input` the slice from
-- `index` on, and the result is the final `index - literal_start`. A round takes a byte at least, so
-- the length of `input` is enough fuel.
unfoldable pub literal_loop : ℕ → ℕ → List ℕ → ℕ
literal_loop fuel count [] = count
literal_loop zero count (b ∷ input) = count
literal_loop (suc fuel) count (b ∷ input) =
    let next_run = repeated_run (b ∷ input) in
    let more = literal_loop fuel (count + next_run) (drop next_run (b ∷ input)) in
    if not (ltb count 128)
    then count
    else (if leb 3 next_run then count else (if ltb 128 (count + next_run) then 128 else more))

-- The outer loop: what it pushes to `result` for the slice from `index` on.
unfoldable pub lossless_packets : ℕ → List ℕ → List ℕ
lossless_packets fuel [] = []
lossless_packets zero (b ∷ input) = []
lossless_packets (suc fuel) (b ∷ input) =
    let run = repeated_run (b ∷ input) in
    let after_run = lossless_packets fuel (drop run (b ∷ input)) in
    let count = literal_loop (length (b ∷ input)) run (drop run (b ∷ input)) in
    let after_literal = lossless_packets fuel (drop count (b ∷ input)) in
    if leb 3 run
    then bit_or 0x80 ((run - 1) % 256) ∷ b ∷ after_run
    else ((count - 1) % 256) ∷ (take count (b ∷ input) ++ after_literal)

unfoldable pub encode_codec_frame : Codec → List ℕ → Result PackError (List ℕ)
encode_codec_frame codec plaintext = do
  fail_if (length plaintext == 0 || ltb max_chunk_plaintext (length plaintext))
      (bounds "chunk plaintext must be in 1..=4 MiB")
  elim codec [
    | raw ↦ do header ← frame_header raw_frame_magic (length plaintext); ok (header ++ plaintext)
    | lossless ↦ do
      header ← frame_header lossless_frame_magic (length plaintext)
      let result = header ++ lossless_packets (length plaintext) plaintext
      fail_if (ltb (max_chunk_plaintext + max_codec_overhead) (length result))
          (bounds "lossless frame exceeds encoded bound")
      ok result
  ]

-- The lossless decoder's loop over the payload from `index` on. A round takes a byte at least, so
-- the length of the payload is enough fuel.
unfoldable pub lossless_loop : ℕ → ℕ → ℕ → List ℕ → List ℕ → Result PackError (List ℕ)
lossless_loop fuel expected index [] result = ok result
lossless_loop zero expected index (control ∷ payload) result = ok result
lossless_loop (suc fuel) expected index (control ∷ payload) result =
    let run = bit_and control 0x7f + 1 in
    let after_literal =
      lossless_loop fuel expected (index + 1 + run) (drop run payload)
        (result ++ take run payload) in
    let after_check =
      if ltb expected (saturating_add (length result) run)
      then err (bounds "lossless frame expands past bound")
      else after_literal in
    let after_bounds =
      if ltb (length payload) run
      then err (truncated "truncated lossless literal packet")
      else after_check in
    let literal =
      if ltb max_u64 (index + 1 + run)
      then err (bounds "lossless literal offset overflow")
      else after_bounds in
    let repeat : Result PackError (List ℕ) = elim payload [
      | [] ↦ err (truncated "truncated lossless repeat packet")
      | value ∷ rest ↦
          let after_repeat =
            lossless_loop fuel expected (index + 2) rest (result ++ replicate run value) in
          if ltb expected (saturating_add (length result) run)
          then err (bounds "lossless frame expands past bound")
          else after_repeat
    ] in
    if not (bit_and control 0x80 == 0) then repeat else literal

abbrev pub frame_magic : Codec → List ℕ
frame_magic raw = raw_frame_magic
frame_magic lossless = lossless_frame_magic

-- What `decode_codec_frame` does with the payload: the raw arm returns from the function, the
-- lossless arm goes on to the comparison with the encoder's output.
unfoldable pub decode_payload : Codec → List ℕ → List ℕ → ℕ → Result PackError (List ℕ)
decode_payload raw encoded payload expected_plaintext_bytes = do
  fail_if (not (length payload == expected_plaintext_bytes)) (bounds "raw frame length mismatch")
  ok payload
decode_payload lossless encoded payload expected_plaintext_bytes = do
  decoded ← lossless_loop (length payload) expected_plaintext_bytes 0 payload []
  fail_if (not (length decoded == expected_plaintext_bytes))
      (bounds "lossless decoded length mismatch")
  again ← encode_codec_frame lossless decoded
  fail_if (not (bytes_eq again encoded)) (reserved "codec frame is not canonical")
  ok decoded

unfoldable pub decode_codec_frame : Codec → List ℕ → ℕ → Result PackError (List ℕ)
decode_codec_frame codec encoded expected_plaintext_bytes = do
  fail_if (ltb (length encoded) codec_frame_header_bytes) (truncated "truncated codec frame")
  fail_if (not (bytes_eq (take 8 encoded) (frame_magic codec)))
      (bad_magic "codec frame magic does not match codec")
  fail_if (not (get_u16 encoded 8 == wire_version)) (bad_magic "unsupported codec frame version")
  fail_if (not (get_u16 encoded 10 == 0)) (reserved "codec frame reserved field is nonzero")
  fail_if
      (not (get_u32 encoded 12 == expected_plaintext_bytes)
        || (expected_plaintext_bytes == 0 || ltb max_chunk_plaintext expected_plaintext_bytes))
      (bounds "codec frame decoded length mismatch")
  decode_payload codec encoded (drop codec_frame_header_bytes encoded) expected_plaintext_bytes
