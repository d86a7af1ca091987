-- ===== src/Handoff/Verify/Stream.antt =====
-- What the incremental verifier holds of the stream that it has accepted so far.
use kvpack.Base.{ℕ, suc, ◌+◌, ◌≤◌, ◌++◌, ◌≡◌, refl, sym, ap, ◌∙◌, List, [], ◌∷◌, false, not}
use kvpack.Base.{
  ltb, ◌==◌, ◌||◌, length, get_elem?, bytes_eq, eq_of_bytes_eq, true, arith, append-nil,
  append_assoc, length-append,
}
use kvpack.Base.{
  Result, ok, ◌>>=◌, >>=-eq-ok, fail_if-eq-ok, ok-injective, inl, inr, Bool-cases, Option-cases,
}
use mathlib.Core.Path.{subst}
use kvpack.Handoff.{HandoffError}
use kvpack.Handoff.External.{External}
use kvpack.Handoff.Manifest.{BeginManifest, LayerHeader, ValidationLimits}
use kvpack.Handoff.Manifest.Layout.{
  ExpectedPlane, expected_plane_at, is_v2, checked_add, ok_or, and_then, expected_from_walk_entry,
}
use kvpack.Handoff.Manifest.Checked.{checked_add-ok}
use kvpack.Handoff.Manifest.Validation as Begin
use kvpack.Handoff.Manifest.Headers.{
  validate_for, validate_for_v1, validate_for_v2, validate_for_v2_expected, header_lines,
  descriptor_prefix, artifact_prefix, sha256_hex,
}
use kvpack.Handoff.Verify.{
  IncrementalVerifier, VerifiedPlane, next_sequence, outside_table, check_next,
  validate_next_header, new, verify_plane, values_ok,
}

-- The headers carry the sequences `first`, `first + 1` and so on.
unfoldable pub IsNumbered : ℕ → List LayerHeader → Type 0
IsNumbered first [] = Unit {0}
IsNumbered first (header ∷ headers) = (header.sequence ≡ first) × IsNumbered (suc first) headers

unfoldable pub total_bytes : List LayerHeader → ℕ
total_bytes [] = 0
total_bytes (header ∷ headers) = header.byte_length + total_bytes headers

-- The count of bytes is the sum over the headers and within both bounds, the headers are numbered
-- from zero, and each rolling hash was fed the stream that it stands for.
pub record IsStream (ext : External) (v : IncrementalVerifier) : Type 0 where
  pub counted : v.payload_bytes ≡ total_bytes v.headers
  pub fed : length v.payload_hash ≡ v.payload_bytes
  pub configured : v.payload_bytes ≤ v.limits.max_total_bytes
  pub declared : v.payload_bytes ≤ v.begin.expected_payload_bytes
  pub numbered : IsNumbered 0 v.headers
  pub lines : List ℕ
  pub begin_json : List ℕ
  pub written : header_lines ext v.headers ≡ ok lines
  pub opened : ext.json_begin v.begin ≡ ok begin_json
  pub chained : v.descriptor_hash ≡ descriptor_prefix ext ++ lines
  pub prefixed : v.artifact_prefix_hash ≡ artifact_prefix ext ++ begin_json ++ (10 ∷ []) ++ lines

IsNumbered-append :
    (first : ℕ) (headers : List LayerHeader) (header : LayerHeader)
    → IsNumbered first headers
    → header.sequence ≡ first + length headers
    → IsNumbered first (headers ++ (header ∷ []))
unfolding IsNumbered
IsNumbered-append first [] header h e = (omega arith, tt)
IsNumbered-append first (x ∷ xs) header (h, hs) e =
    (h, IsNumbered-append (suc first) xs header hs (omega arith))

total_bytes-append :
    (headers : List LayerHeader) (header : LayerHeader)
    → total_bytes (headers ++ (header ∷ [])) ≡ total_bytes headers + header.byte_length
unfolding total_bytes
total_bytes-append [] header = omega arith
total_bytes-append (x ∷ xs) header = omega (arith, total_bytes-append xs header)

join :
    {m t : Result HandoffError (List ℕ)} {lines : List ℕ} (first after more : List ℕ)
    → m ≡ ok first
    → t ≡ ok (after ++ more)
    → first ++ (10 ∷ []) ++ after ≡ lines
    → (m >>= λ json. t >>= λ rest. ok (json ++ (10 ∷ []) ++ rest)) ≡ ok (lines ++ more)
join first after more at next whole =
    rw (at, next, sym whole) (ap ok (sym (append_assoc (first ++ (10 ∷ [])) after more)))

header_lines-append :
    (ext : External) (headers : List LayerHeader) (header : LayerHeader) {lines json : List ℕ}
    → header_lines ext headers ≡ ok lines
    → ext.json_header header ≡ ok json
    → header_lines ext (headers ++ (header ∷ [])) ≡ ok (lines ++ (json ++ (10 ∷ [])))
unfolding header_lines
header_lines-append ext [] header {json = json} w j =
    rw (sym (ok-injective w), j, append-nil (json ++ (10 ∷ []))) refl
header_lines-append ext (x ∷ xs) header {lines = lines} {json = json} w j =
    let (first, at, rest) = >>=-eq-ok (ext.json_header x) _ w in
    let (tail_lines, tail, whole) = >>=-eq-ok (header_lines ext xs) _ rest in
    join first tail_lines (json ++ (10 ∷ [])) at (header_lines-append ext xs header tail j)
      (ok-injective whole)

-- A header that the contract accepts has the sequence that is due.
validate_for_v2_expected-sequence :
    (header : LayerHeader) (begin : BeginManifest) (n : ℕ) (expected : ExpectedPlane)
    → validate_for_v2_expected header begin n expected ≡ ok tt
    → header.sequence ≡ n
unfolding validate_for_v2_expected
validate_for_v2_expected-sequence header begin n expected h = ground arith

validate_for_v1-sequence :
    (header : LayerHeader) (begin : BeginManifest) (n : ℕ)
    → validate_for_v1 header begin n ≡ ok tt
    → header.sequence ≡ n
unfolding validate_for_v1
validate_for_v1-sequence header begin n h = ground arith

-- The sequence and the bound of an accepted header.
validate_for-sequence :
    (header : LayerHeader) (begin : BeginManifest) (n : ℕ)
    → validate_for header begin n ≡ ok tt
    → header.sequence ≡ n
unfolding validate_for validate_for_v2
validate_for-sequence header begin n h = elim (Bool-cases (is_v2 begin)) [
  | inl v2 ↦
      let in_table : validate_for_v2 header begin n ≡ ok tt = ground arith in
      let (expected, _, rest) =
        >>=-eq-ok (expected_plane_at begin n) (validate_for_v2_expected header begin n) in_table in
      validate_for_v2_expected-sequence header begin n expected rest
  | inr v1 ↦
      let in_order : validate_for_v1 header begin n ≡ ok tt = ground arith in
      validate_for_v1-sequence header begin n in_order
]

check_next-sequence :
    (v : IncrementalVerifier) (header : LayerHeader)
    → check_next v header ≡ ok tt
    → header.sequence ≡ next_sequence v
unfolding check_next
check_next-sequence v header h = elim (Option-cases v.layout_walk) [
  | inl flat ↦ validate_for-sequence header v.begin (next_sequence v) (ground arith)
  | inr (walk, flat) ↦
      let n = next_sequence v in
      let due =
        ok_or (and_then (get_elem? walk n) (expected_from_walk_entry v.begin)) (outside_table n) in
      let inner : (due >>= validate_for_v2_expected header v.begin n) ≡ ok tt = ground arith in
      let (expected, _, rest) = >>=-eq-ok due (validate_for_v2_expected header v.begin n) inner in
      validate_for_v2_expected-sequence header v.begin n expected rest
]

validate_next_header-facts :
    (v : IncrementalVerifier) (header : LayerHeader)
    → validate_next_header v header ≡ ok tt
    → (header.sequence ≡ next_sequence v)
      × (header.byte_length ≤ v.limits.max_frame_bytes)
      × (v.sealed ≡ false)
unfolding validate_next_header
validate_next_header-facts v header h =
    let (unsealed, rest) = fail_if-eq-ok v.sealed _ _ h in
    let (unit, checked, bounded) = >>=-eq-ok (check_next v header) _ rest in
    (check_next-sequence v header checked, ground arith, unsealed)

-- What an accepted plane was and what it changes.
pub record IsAccepted (ext : External) (v : IncrementalVerifier) (header : LayerHeader)
    (payload : List ℕ) (plane : VerifiedPlane) (v' : IncrementalVerifier) : Type 0 where
  pub carried : record { header = header; bytes = payload } ≡ plane
  pub hashed : sha256_hex ext payload ≡ header.sha256
  pub small : length v.headers ≤ 0xffff_ffff
  pub due : header.sequence ≡ next_sequence v
  pub sized : length payload ≡ header.byte_length
  pub configured : v.payload_bytes + header.byte_length ≤ v.limits.max_total_bytes
  pub declared : v.payload_bytes + header.byte_length ≤ v.begin.expected_payload_bytes
  pub json : List ℕ
  pub written : ext.json_header header ≡ ok json
  pub after :
      record v {
        headers = v.headers ++ (header ∷ []);
        payload_bytes = v.payload_bytes + header.byte_length;
        payload_hash = v.payload_hash ++ payload;
        descriptor_hash = v.descriptor_hash ++ json ++ (10 ∷ []);
        artifact_prefix_hash = v.artifact_prefix_hash ++ json ++ (10 ∷ []);
      }
      ≡ v'

pub verify_plane-IsAccepted :
    (ext : External) (v : IncrementalVerifier) (header : LayerHeader) (payload : List ℕ)
    {plane : VerifiedPlane} {v' : IncrementalVerifier}
    → verify_plane ext v header payload ≡ ok (plane, v')
    → IsAccepted ext v header payload plane v'
unfolding verify_plane
verify_plane-IsAccepted ext v header payload h =
    let (unsealed, h₁) = fail_if-eq-ok v.sealed _ _ h in
    let (few, h₂) = fail_if-eq-ok (ltb 0xffff_ffff (length v.headers)) _ _ h₁ in
    let (_, checked, h₃) = >>=-eq-ok (validate_next_header v header) _ h₂ in
    let (matches, h₄) =
      fail_if-eq-ok
        (ltb v.limits.max_frame_bytes header.byte_length
          || not (length payload == header.byte_length)
          || not (bytes_eq (sha256_hex ext payload) header.sha256))
        _ _ h₃ in
    let (_, finite, h₅) = >>=-eq-ok (values_ok v.begin header payload) _ h₄ in
    let (total, added, h₆) =
      >>=-eq-ok (ok_or (checked_add v.payload_bytes header.byte_length) _) _ h₅ in
    let (bounded, h₇) =
      fail_if-eq-ok (ltb v.limits.max_total_bytes total || ltb v.begin.expected_payload_bytes total)
        _ _ h₆ in
    let (json, written, h₈) = >>=-eq-ok (ext.json_header header) _ h₇ in
    let sum : total ≡ v.payload_bytes + header.byte_length =
      checked_add-ok v.payload_bytes header.byte_length _ added in
    let (due, _, _) = validate_next_header-facts v header checked in
    let digest : bytes_eq (sha256_hex ext payload) header.sha256 ≡ true = ground arith in
    record {
      carried = ap (λ p. p.0) (ok-injective h₈);
      hashed = eq_of_bytes_eq (sha256_hex ext payload) header.sha256 digest;
      small = ground arith;
      due = due;
      sized = ground arith;
      configured = ground arith;
      declared = ground arith;
      json = json;
      written = written;
      after = rw (sym sum) (ap (λ p. p.1) (ok-injective h₈));
    }

due_length :
    (v : IncrementalVerifier) (header : LayerHeader)
    → header.sequence ≡ next_sequence v
    → length v.headers ≤ 0xffff_ffff
    → header.sequence ≡ 0 + length v.headers
unfolding next_sequence
due_length v header due few = omega arith

extend :
    {hashed : List ℕ} (start lines : List ℕ)
    → hashed ≡ start ++ lines
    → (json : List ℕ) → hashed ++ json ++ (10 ∷ []) ≡ start ++ (lines ++ (json ++ (10 ∷ [])))
extend start lines e json =
    rw e
      (append_assoc (start ++ lines) json (10 ∷ []) ∙ append_assoc start lines (json ++ (10 ∷ [])))

-- A plane that is accepted keeps the invariant of the stream.
pub verify_plane-IsStream :
    (ext : External) (v : IncrementalVerifier) (header : LayerHeader) (payload : List ℕ)
    {plane : VerifiedPlane} {v' : IncrementalVerifier}
    → IsStream ext v
    → verify_plane ext v header payload ≡ ok (plane, v')
    → IsStream ext v'
verify_plane-IsStream ext v header payload w h =
    let accepted = verify_plane-IsAccepted ext v header payload h in
    let line : List ℕ = accepted.json ++ (10 ∷ []) in
    subst (IsStream ext) accepted.after (record {
      counted = omega (arith, w.counted, total_bytes-append v.headers header);
      fed = omega (arith, w.fed, accepted.sized, length-append v.payload_hash payload);
      configured = accepted.configured;
      declared = accepted.declared;
      numbered =
          IsNumbered-append 0 v.headers header w.numbered
            (due_length v header accepted.due accepted.small);
      lines = w.lines ++ line;
      begin_json = w.begin_json;
      written = header_lines-append ext v.headers header w.written accepted.written;
      opened = w.opened;
      chained = extend (descriptor_prefix ext) w.lines w.chained accepted.json;
      prefixed =
          extend (artifact_prefix ext ++ w.begin_json ++ (10 ∷ [])) w.lines w.prefixed
            accepted.json;
    })

pub new-IsStream :
    (ext : External) (begin : BeginManifest) (limits : ValidationLimits) {v : IncrementalVerifier}
    → new ext begin limits ≡ ok v
    → IsStream ext v
unfolding new IsNumbered total_bytes header_lines
new-IsStream ext begin limits h =
    let (_, valid, h₁) = >>=-eq-ok (Begin.validate begin limits) _ h in
    let (json, opened, h₂) = >>=-eq-ok (ext.json_begin begin) _ h₁ in
    subst (IsStream ext) (ok-injective h₂) (record {
      counted = refl;
      fed = refl;
      configured = omega arith;
      declared = omega arith;
      numbered = tt;
      lines = [];
      begin_json = json;
      written = refl;
      opened = opened;
      chained = sym (append-nil (descriptor_prefix ext));
      prefixed = sym (append-nil (artifact_prefix ext ++ json ++ (10 ∷ [])));
    })
