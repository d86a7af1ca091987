-- ===== src/Core/Codec/RoundTrip.antt =====
-- `decode_codec_frame` against `encode_codec_frame`.
use kvpack.Base.{ℕ, zero, suc, ◌+◌, ◌-◌, ◌%◌, ◌≤◌, ◌<◌, ◌≡◌, refl, ap, ◌∙◌, List, [], ◌∷◌}
use kvpack.Base.{◌++◌, arith, length, take, drop, replicate, inl, inr, length-drop}
use kvpack.Base.{length-take, length-append, length-replicate, take-append, drop-append}
use kvpack.Base.{take-append-drop, append_assoc, append-nil}
use kvpack.Base.{ok, bit_or, bit_and, max_u64}
use kvpack.Base.Bits.{low_seven, top_bit, set_top_bit}
use kvpack.Core.Codec.{repeated_run, lossless_packets, lossless_loop}
use kvpack.Core.Codec.Runs.{repeated_run_bounds, take-repeated_run}
use kvpack.Core.Codec.Encoder.{literal_count, literal_count_bounds, lossless_packets_round}

-- One round of the decoder on a repeat packet, and on a literal packet, that fit.
repeat_round :
    (fuel expected index n value : ℕ) (rest result : List ℕ)
    → 1 ≤ n
    → n ≤ 128
    → length result + n ≤ expected
    → expected < max_u64
    → lossless_loop (suc fuel) expected index (bit_or 0x80 ((n - 1) % 256) ∷ value ∷ rest) result
      ≡ lossless_loop fuel expected (index + 2) rest (result ++ replicate n value)
unfolding lossless_loop
repeat_round fuel expected index n value rest result lo hi fits small =
    let e : (n - 1) % 256 ≡ n - 1 = omega arith in
    let control : bit_or 0x80 (n - 1) ≡ 128 + (n - 1) = set_top_bit (n - 1) (omega arith) in
    let top : bit_and (128 + (n - 1)) 0x80 ≡ 128 =
      top_bit (128 + (n - 1)) (omega arith) ∙ omega arith in
    let run : bit_and (128 + (n - 1)) 0x7f + 1 ≡ n =
      ap (λ (t : ℕ). t + 1) (low_seven (128 + (n - 1)) (omega arith)) ∙ omega arith in
    rw (e, control, top, run) (ground arith)

literal_round :
    (fuel expected index n : ℕ) (literal rest result : List ℕ)
    → 1 ≤ n
    → n ≤ 128
    → length literal ≡ n
    → length result + n ≤ expected
    → expected < max_u64
    → index + 1 + n ≤ max_u64
    → lossless_loop (suc fuel) expected index (((n - 1) % 256) ∷ (literal ++ rest)) result
      ≡ lossless_loop fuel expected (index + 1 + n) rest (result ++ literal)
unfolding lossless_loop
literal_round fuel expected index n literal rest result lo hi size fits small at_end =
    let e : (n - 1) % 256 ≡ n - 1 = omega arith in
    let top : bit_and (n - 1) 0x80 ≡ 0 = top_bit (n - 1) (omega arith) ∙ omega arith in
    let run : bit_and (n - 1) 0x7f + 1 ≡ n =
      ap (λ (t : ℕ). t + 1) (low_seven (n - 1) (omega arith)) ∙ omega arith in
    rw (e, top, run, take-append n literal rest size, drop-append n literal rest size)
      (ground (arith, length-append literal rest))

-- The decoder's loop reads back all that the encoder's loop writes.
pub lossless_loop-lossless_packets :
    (fuel spare expected index : ℕ) (input result : List ℕ)
    → length input ≤ fuel
    → length (lossless_packets fuel input) ≤ spare
    → length result + length input ≡ expected
    → expected < max_u64
    → index + length (lossless_packets fuel input) ≤ max_u64
    → lossless_loop spare expected index (lossless_packets fuel input) result ≡ ok (result ++ input)
lossless_loop-lossless_packets fuel spare expected index [] result h s e small at_end =
    rw append-nil (empty fuel spare)
  where
    empty :
        (fuel spare : ℕ)
        → lossless_loop spare expected index (lossless_packets fuel []) result ≡ ok result
    empty fuel spare = unfold lossless_packets lossless_loop in refl
lossless_loop-lossless_packets zero spare expected index (b ∷ input) result h s e small at_end =
    absurd (omega arith)
lossless_loop-lossless_packets (suc fuel) zero expected index (b ∷ input) result h s e small
      at_end =
    elim (lossless_packets_round fuel b input) [
      | inl (long, p) ↦ absurd (omega (arith, ap length p))
      | inr (short, p) ↦ absurd (omega (arith, ap length p))
    ]
lossless_loop-lossless_packets (suc fuel) (suc spare) expected index (b ∷ input) result h s e small
      at_end =
    elim (lossless_packets_round fuel b input) [
      | inl (long, p) ↦
          let run = repeated_run (b ∷ input) in
          let rest = drop run (b ∷ input) in
          let size = ap length p in
          let in_run = repeated_run_bounds b input in
          let cut = length-drop run (b ∷ input) in
          let copies = length-replicate run b in
          let written = length-append result (replicate run b) in
          let whole : replicate run b ++ rest ≡ b ∷ input =
            rw (take-repeated_run b input) at (take-append-drop run (b ∷ input)) in
          rw p (
            repeat_round spare expected index run b _ result in_run.0 in_run.1 (omega arith) small
            ∙ lossless_loop-lossless_packets fuel spare expected (index + 2) rest
                (result ++ replicate run b) (omega arith) (omega arith) (omega arith) small
                (omega arith)
            ∙ ap ok (append_assoc result (replicate run b) rest ∙ ap (◌++◌ result) whole))
      | inr (short, p) ↦
          let count = literal_count b input in
          let literal = take count (b ∷ input) in
          let rest = drop count (b ∷ input) in
          let size = ap length p in
          let in_literal = literal_count_bounds b input in
          let cut = length-drop count (b ∷ input) in
          let taken = length-take count (b ∷ input) in_literal.2 in
          let payload = length-append literal (lossless_packets fuel rest) in
          let written = length-append result literal in
          rw p (
            literal_round spare expected index count literal _ result in_literal.0 in_literal.1
              taken (omega arith) small (omega arith)
            ∙ lossless_loop-lossless_packets fuel spare expected (index + 1 + count) rest
                (result ++ literal) (omega arith) (omega arith) (omega arith) small (omega arith)
            ∙ ap ok (
                append_assoc result literal rest
                ∙ ap (◌++◌ result) (take-append-drop count (b ∷ input))))
    ]
