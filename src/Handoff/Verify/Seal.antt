-- ===== src/Handoff/Verify/Seal.antt =====
-- The terminal seal against the stream: the rolling hashes agree with the digests of the whole.
use kvpack.Base.{ℕ, ◌++◌, ◌≡◌, refl, sym, ap, ◌∙◌, List, [], ◌∷◌, true, false, length}
use kvpack.Base.{bytes_eq, bytes_eq_refl, eq_of_bytes_eq, ok, ◌>>=◌, ◌>>◌, arith, inl, inr}
use kvpack.Base.{>>=_assoc, >>=-eq-ok, fail_if-eq-ok, ok-injective, Result-cases}
use mathlib.Core.Path.{subst}
use kvpack.Handoff.External.{External}
use kvpack.Handoff.Manifest.{BeginManifest, LayerHeader, SealManifest, SealCore, ValidationLimits}
use kvpack.Handoff.Manifest.Headers.{
  seal_validate_for, descriptor_chain_sha256, artifact_sha256, artifact_stream, sha256_hex,
  differs_in_counts, differs_in_chain, differs_in_artifact,
}
use kvpack.Handoff.Verify.{
  IncrementalVerifier, VerifiedPlane, VerifiedSeal, new, verify_plane, verify_seal,
}
use kvpack.Handoff.Manifest.Validation as Begin
use kvpack.Handoff.Verify.Fed.{IsFed, payloads, verify_plane-IsFed}
use kvpack.Handoff.Verify.Stream.{
  IsStream, IsNumbered, total_bytes, new-IsStream, verify_plane-IsStream,
}

descriptor_chain_sha256-stream :
    (ext : External) (v : IncrementalVerifier) (w : IsStream ext v)
    → descriptor_chain_sha256 ext v.headers ≡ ok (sha256_hex ext v.descriptor_hash)
unfolding descriptor_chain_sha256
descriptor_chain_sha256-stream ext v w = rw (w.written, w.chained) refl

artifact_sha256-stream :
    (ext : External) (v : IncrementalVerifier) (w : IsStream ext v) (core : SealCore)
    → artifact_sha256 ext v.begin v.headers core
      ≡ (ext.json_core core >>= λ json. ok (sha256_hex ext (v.artifact_prefix_hash ++ json)))
unfolding artifact_sha256 artifact_stream
artifact_sha256-stream ext v w core =
    rw (w.opened, w.written, w.prefixed) (>>=_assoc (ext.json_core core) _ _)

seal_validate_for-artifact :
    (ext : External) (seal : SealManifest) (begin : BeginManifest) (headers : List LayerHeader)
    (bytes : ℕ) (digest : List ℕ)
    → seal_validate_for ext seal begin headers bytes digest ≡ ok tt
    → artifact_sha256 ext begin headers seal.core ≡ ok seal.artifact_sha256
unfolding seal_validate_for differs_in_artifact
seal_validate_for-artifact ext seal begin headers bytes digest h =
    let (_, h₁) =
      fail_if-eq-ok (differs_in_counts ext seal.core begin headers bytes digest) _ _ h in
    let (chain, _, h₂) = >>=-eq-ok (descriptor_chain_sha256 ext headers) _ h₁ in
    let (_, h₃) = fail_if-eq-ok (differs_in_chain ext seal.core begin chain) _ _ h₂ in
    let (artifact, hashed, h₄) = >>=-eq-ok (artifact_sha256 ext begin headers seal.core) _ h₃ in
    let same : bytes_eq seal.artifact_sha256 artifact ≡ true = ground arith in
    hashed ∙ ap ok (sym (eq_of_bytes_eq seal.artifact_sha256 artifact same))

-- On the stream that the verifier holds, the terminal seal is accepted exactly when the direct check
-- of the whole stream accepts it, with the same error otherwise: the tests of the rolling hashes
-- against the recomputed digests never fail.
pub verify_seal-validates :
    (ext : External) (v : IncrementalVerifier) (seal : SealManifest)
    → IsStream ext v
    → v.sealed ≡ false
    → verify_seal ext v seal ≡ (
        seal_validate_for ext seal v.begin v.headers v.payload_bytes (sha256_hex ext v.payload_hash)
        >> ok (
          record {
            seal = seal;
            transfer_id = v.begin.transfer_id;
            descriptor_chain_sha256 = sha256_hex ext v.descriptor_hash;
            payload_sha256 = sha256_hex ext v.payload_hash;
          },
          record v { sealed = true },
        ))
unfolding verify_seal
verify_seal-validates ext v seal w unsealed =
    let check =
      seal_validate_for ext seal v.begin v.headers v.payload_bytes
        (sha256_hex ext v.payload_hash) in
    elim (Result-cases check) [
      | inl (e, bad) ↦
          rw
            (
              unsealed,
              descriptor_chain_sha256-stream ext v w,
              bytes_eq_refl (sha256_hex ext v.descriptor_hash),
              bad,
            )
            refl
      | inr (_, good) ↦
          let whole =
            seal_validate_for-artifact ext seal v.begin v.headers v.payload_bytes
              (sha256_hex ext v.payload_hash) good in
          let (json, written, same) =
            >>=-eq-ok (ext.json_core seal.core)
              (λ json. ok (sha256_hex ext (v.artifact_prefix_hash ++ json)))
              (sym (artifact_sha256-stream ext v w seal.core) ∙ whole) in
          rw
            (
              unsealed,
              descriptor_chain_sha256-stream ext v w,
              bytes_eq_refl (sha256_hex ext v.descriptor_hash),
              good,
              written,
              ok-injective same,
              whole,
              bytes_eq_refl seal.artifact_sha256,
            )
            refl
    ]

seal_validate_for-counts :
    (ext : External) (seal : SealManifest) (begin : BeginManifest) (headers : List LayerHeader)
    (bytes : ℕ) (digest : List ℕ)
    → seal_validate_for ext seal begin headers bytes digest ≡ ok tt
    → (length headers ≡ begin.expected_layer_frames) × (bytes ≡ begin.expected_payload_bytes)
unfolding seal_validate_for differs_in_counts
seal_validate_for-counts ext seal begin headers bytes digest h =
    let (same, _) =
      fail_if-eq-ok (differs_in_counts ext seal.core begin headers bytes digest) _ _ h in
    (ground arith, ground arith)

-- A seal that is accepted closes a stream of all the declared frames, in the order of their
-- sequences, whose lengths add up to the declared bytes, and carries the digest of the whole stream.
pub verify_seal_complete :
    (ext : External) (v : IncrementalVerifier) (seal : SealManifest) {verified : VerifiedSeal}
    {v' : IncrementalVerifier}
    → IsStream ext v
    → verify_seal ext v seal ≡ ok (verified, v')
    → (length v.headers ≡ v.begin.expected_layer_frames)
      × (total_bytes v.headers ≡ v.begin.expected_payload_bytes)
      × IsNumbered 0 v.headers
      × (artifact_sha256 ext v.begin v.headers seal.core ≡ ok seal.artifact_sha256)
      × (record v { sealed = true } ≡ v')
unfolding verify_seal
verify_seal_complete ext v seal w h =
    let (unsealed, _) = fail_if-eq-ok v.sealed _ _ h in
    let digest = sha256_hex ext v.payload_hash in
    let direct = sym (verify_seal-validates ext v seal w unsealed) ∙ h in
    let (_, good, same) =
      >>=-eq-ok (seal_validate_for ext seal v.begin v.headers v.payload_bytes digest) _ direct in
    let (frames, bytes) =
      seal_validate_for-counts ext seal v.begin v.headers v.payload_bytes digest good in
    (
      frames,
      sym w.counted ∙ bytes,
      w.numbered,
      seal_validate_for-artifact ext seal v.begin v.headers v.payload_bytes digest good,
      ap (λ p. p.1) (ok-injective same),
    )

-- A seal that is accepted keeps the stream.
pub verify_seal-IsStream :
    (ext : External) (v : IncrementalVerifier) (seal : SealManifest) {verified : VerifiedSeal}
    {v' : IncrementalVerifier}
    → IsStream ext v
    → verify_seal ext v seal ≡ ok (verified, v')
    → IsStream ext v'
verify_seal-IsStream ext v seal w h =
    let (_, _, _, _, after) = verify_seal_complete ext v seal w h in
    subst (IsStream ext) after (record {
      counted = w.counted;
      fed = w.fed;
      configured = w.configured;
      declared = w.declared;
      numbered = w.numbered;
      lines = w.lines;
      begin_json = w.begin_json;
      written = w.written;
      opened = w.opened;
      chained = w.chained;
      prefixed = w.prefixed;
    })

-- What a receiver can do with the verifier of one transfer, with the planes that were accepted.
pub data Reachable (ext : External) (begin : BeginManifest) (limits : ValidationLimits)
    : List VerifiedPlane → IncrementalVerifier → Type 0 where
  started :
      {v : IncrementalVerifier} → new ext begin limits ≡ ok v → Reachable ext begin limits [] v
  verified :
      {planes : List VerifiedPlane} {v v' : IncrementalVerifier} (header : LayerHeader)
      (payload : List ℕ) (plane : VerifiedPlane)
      → Reachable ext begin limits planes v
      → verify_plane ext v header payload ≡ ok (plane, v')
      → Reachable ext begin limits (planes ++ (record { header = header; bytes = payload } ∷ [])) v'
  sealed :
      {planes : List VerifiedPlane} {v v' : IncrementalVerifier} (seal : SealManifest)
      (witness : VerifiedSeal)
      → Reachable ext begin limits planes v
      → verify_seal ext v seal ≡ ok (witness, v')
      → Reachable ext begin limits planes v'

pub new-IsFed :
    (ext : External) (begin : BeginManifest) (limits : ValidationLimits) {v : IncrementalVerifier}
    → new ext begin limits ≡ ok v
    → IsFed ext [] v
unfolding new payloads
new-IsFed ext begin limits h =
    let (_, valid, h₁) = >>=-eq-ok (Begin.validate begin limits) _ h in
    let (json, opened, h₂) = >>=-eq-ok (ext.json_begin begin) _ h₁ in
    subst (IsFed ext []) (ok-injective h₂) (record { carried = refl; hashed = refl; checked = tt })

verify_seal-IsFed :
    (ext : External) (planes : List VerifiedPlane) (v : IncrementalVerifier) (seal : SealManifest)
    {verified : VerifiedSeal} {v' : IncrementalVerifier}
    → IsStream ext v
    → IsFed ext planes v
    → verify_seal ext v seal ≡ ok (verified, v')
    → IsFed ext planes v'
verify_seal-IsFed ext planes v seal w fed h =
    let (_, _, _, _, after) = verify_seal_complete ext v seal w h in
    subst (IsFed ext planes) after
      (record { carried = fed.carried; hashed = fed.hashed; checked = fed.checked })

-- Whatever planes and seals were offered, the verifier holds a stream, and it is that of the planes
-- which were accepted. The headers are those of the planes, in order, and numbered from zero. The
-- payload hash was fed their payloads, one after the other, each of the length and the digest that
-- its header declares. The count of bytes is the sum of the lengths and within both bounds. The
-- other rolling hashes were fed their prefixes and the lines of the headers.
pub Reachable-IsStream :
    (ext : External) (begin : BeginManifest) (limits : ValidationLimits)
    {planes : List VerifiedPlane} {v : IncrementalVerifier}
    → Reachable ext begin limits planes v
    → IsStream ext v × IsFed ext planes v
Reachable-IsStream ext begin limits (started h) =
    (new-IsStream ext begin limits h, new-IsFed ext begin limits h)
Reachable-IsStream ext begin limits (verified {planes = planes} {v = v} header payload plane r h) =
    let (w, fed) = Reachable-IsStream ext begin limits r in
    (
      verify_plane-IsStream ext v header payload w h,
      verify_plane-IsFed ext planes v header payload fed h,
    )
Reachable-IsStream ext begin limits (sealed {planes = planes} {v = v} seal witness r h) =
    let (w, fed) = Reachable-IsStream ext begin limits r in
    (verify_seal-IsStream ext v seal w h, verify_seal-IsFed ext planes v seal w fed h)
