-- ===== src/Handoff/Bundle/Safe.antt =====
-- crates/kvpack-handoff/src/bundle.rs: the stream behind a prepared or committed bundle.
use kvpack.Base.{
  Bool, false, if◌then◌else◌, ℕ, ◌≡◌, refl, sym, ap, ◌∙◌, List, Option, none, some, true, ◌||◌, not,
  length,
}
use kvpack.Base.{Result, ok, err, inl, inr, Bool-cases, fail_if-eq-ok, ok-injective}
use mathlib.Core.Path.{subst}
use mathlib.Core.Bool.{false≢true}
use kvpack.Handoff.{HandoffError}
use kvpack.Handoff.External.{External}
use kvpack.Handoff.Manifest.{BeginManifest, ValidationLimits, LayerHeader, SealManifest}
use kvpack.Handoff.Manifest.Validation.{is_some, validate}
use kvpack.Handoff.Verify.{
  IncrementalVerifier, VerifiedPlane, VerifiedSeal, verify_plane, verify_seal,
}
use kvpack.Handoff.Verify.Stream.{IsStream, new-IsStream, total_bytes, verify_plane-IsStream}
use kvpack.Handoff.Verify.Seal.{verify_seal_complete, verify_seal-IsStream}
use kvpack.Handoff.Bundle as Stager
use kvpack.Handoff.Bundle.{
  Disk, BundleStager, FileName, Directory, ◌>=>◌, lift_io, is_closed, write_new, sync,
  write_verified, write_prepared_seal, prepare_shared_seal, layers, staging, parent,
}
use kvpack.Handoff.Coordinator.{}

-- All declared frames have arrived, their bytes add up, and the terminal seal was verified.
unfoldable pub IsComplete : IncrementalVerifier → Type 0
IsComplete v =
    (v.sealed ≡ true)
    × (length v.headers ≡ v.begin.expected_layer_frames)
    × (total_bytes v.headers ≡ v.begin.expected_payload_bytes)

unfoldable pub IsSafe : (ext : External) {W : Type 0} → BundleStager W → Type 0
IsSafe ext s =
    IsStream ext s.verifier
    × (is_some s.prepared ≡ true → IsComplete s.verifier)
    × (s.committed ≡ true → is_some s.prepared ≡ true)

pub IsSafe-IsStream :
    (ext : External) {W : Type 0} (s : BundleStager W) → IsSafe ext s → IsStream ext s.verifier
unfolding IsSafe
IsSafe-IsStream ext s h = h.0

pub >=>-keeps :
    {S A B : Type 0} (I : S → Type 0) (r : S × Result HandoffError A)
    (f : S → A → S × Result HandoffError B)
    → I r.0
    → ((s : S) (a : A) → I s → I (f s a).0)
    → I (r >=> f).0
unfolding ◌>=>◌
>=>-keeps I (s, ok a) f h k = k s a h
>=>-keeps I (s, err e) f h k = h

pub if-keeps :
    {S : Type 0} (I : S → Type 0) (b : Bool) {x y : S} → I x → I y → I (if b then x else y)
if-keeps I true h k = h
if-keeps I false h k = k

-- What comes before a `?` that succeeds, and what follows it.
pub >=>-eq-ok :
    {S A B : Type 0} (r : S × Result HandoffError A) (f : S → A → S × Result HandoffError B)
    {last : S} {b : B}
    → (r >=> f) ≡ (last, ok b)
    → (s : S) × (a : A) × (r ≡ (s, ok a)) × (f s a ≡ (last, ok b))
unfolding ◌>=>◌
>=>-eq-ok (s, ok a) f h = (s, a, refl, h)
>=>-eq-ok (s, err e) f h = absurd (err≢ok (ap (λ p. p.1) h))
  where
    err≢ok :
        {A : Type 0} {e : HandoffError} {a : A} → ¬ (◌≡◌ {A = Result HandoffError A} (err e) (ok a))
    err≢ok h = cc

module _ (ext : External) {W : Type 0} (fs : Disk W) where
  pub write_verified-IsSafe :
      (s : BundleStager W) (plane : VerifiedPlane)
      → IsSafe ext s
      → IsSafe ext (write_verified ext fs s plane).0
  unfolding write_verified IsSafe write_new lift_io
  write_verified-IsSafe s plane h = elim (Bool-cases (is_closed s)) [
    | inl closed ↦ rw closed h
    | inr opened ↦
        rw opened
          (>=>-keeps (IsSafe ext) _ _ (>=>-keeps (IsSafe ext) _ _ h (λ s _ h. h)) (λ s _ h. h))
  ]

  -- With a complete stream the seal may be written.
  write_prepared_seal-IsSafe :
      (s : BundleStager W) (seal : SealManifest)
      → IsSafe ext s
      → IsComplete s.verifier
      → IsSafe ext (write_prepared_seal ext fs s seal).0
  unfolding write_prepared_seal IsSafe write_new sync lift_io is_some
  write_prepared_seal-IsSafe s seal h c =
      let I : BundleStager W → Type 0 = λ s. IsSafe ext s × IsComplete s.verifier in
      (>=>-keeps I _ _
        (>=>-keeps I _ _
          (>=>-keeps I _ _ (>=>-keeps I (s, ext.json_seal seal) _ (h, c) (λ s _ h. h)) (λ s _ h. h))
          (λ s _ h. h))
        (λ s _ (h, c). ((h.0, (λ _. c), λ _. refl), c))).0

  pub prepare_shared_seal-IsSafe :
      (s : BundleStager W) (verified : VerifiedSeal)
      → IsSafe ext s
      → IsComplete s.verifier
      → IsSafe ext (prepare_shared_seal ext fs s verified).0
  unfolding prepare_shared_seal
  prepare_shared_seal-IsSafe s verified h c = elim (Bool-cases (is_closed s)) [
    | inl closed ↦ rw closed h
    | inr opened ↦ rw opened (write_prepared_seal-IsSafe s verified.seal h c)
  ]

  publish_from-IsSafe :
      (s : BundleStager W) (seal : Option SealManifest)
      → s.prepared ≡ seal
      → IsSafe ext s
      → IsSafe ext (Stager.publish_from ext fs s seal).0
  unfolding Stager.publish_from IsSafe write_new sync lift_io is_some
  publish_from-IsSafe s none e h = h
  publish_from-IsSafe s (some seal) e h =
      let I : BundleStager W → Type 0 = λ s. IsSafe ext s × (is_some s.prepared ≡ true) in
      (>=>-keeps I _ _
        (>=>-keeps I _ _
          (>=>-keeps I _ _
            (>=>-keeps I _ _ (>=>-keeps I _ _ (h, ap is_some e) (λ s _ h. h)) (λ s _ h. h))
            (λ s _ h. h))
          (λ s _ h. h))
        (λ s _ (h, p). ((h.0, h.1, λ _. p), p))).0

  pub publish-IsSafe : (s : BundleStager W) → IsSafe ext s → IsSafe ext (Stager.publish ext fs s).0
  unfolding Stager.publish
  publish-IsSafe s h = elim (Bool-cases (s.committed || s.aborted)) [
    | inl closed ↦ rw closed h
    | inr opened ↦ rw opened (publish_from-IsSafe s s.prepared refl h)
  ]

  pub abort-IsSafe : (s : BundleStager W) → IsSafe ext s → IsSafe ext (Stager.abort ext fs s).0
  unfolding Stager.abort IsSafe lift_io
  abort-IsSafe s h =
      elim (Bool-cases (s.committed || s.aborted || not (fs.staging_exists s.disk))) [
        | inl closed ↦ rw closed h
        | inr opened ↦ rw opened (>=>-keeps (IsSafe ext) _ _ h (λ s _ h. h))
      ]

module _ (ext : External) {W : Type 0} where
  -- A plane is accepted only before the seal, when nothing is prepared.
  pub unsealed-IsSafe :
      (s : BundleStager W) (header : LayerHeader) (payload : List ℕ) {plane : VerifiedPlane}
      {v : IncrementalVerifier}
      → IsSafe ext s
      → verify_plane ext s.verifier header payload ≡ ok (plane, v)
      → IsSafe ext (record s { verifier = v })
  unfolding IsSafe verify_plane IsComplete
  unsealed-IsSafe s header payload (w, prepared, committed) h =
      let (unsealed, _) = fail_if-eq-ok s.verifier.sealed _ _ h in
      (
        verify_plane-IsStream ext s.verifier header payload w h,
        (λ p. absurd (false≢true (sym unsealed ∙ (prepared p).0))),
        committed,
      )

  pub sealed-IsSafe :
      (s : BundleStager W) (seal : SealManifest) {verified : VerifiedSeal} {v : IncrementalVerifier}
      → IsSafe ext s
      → verify_seal ext s.verifier seal ≡ ok (verified, v)
      → IsSafe ext (record s { verifier = v }) × IsComplete v
  unfolding IsSafe IsComplete
  sealed-IsSafe s seal {v = v} (w, prepared, committed) h =
      let (frames, bytes, _, _, after) = verify_seal_complete ext s.verifier seal w h in
      let whole : IsComplete v = subst IsComplete after (refl, frames, bytes) in
      ((verify_seal-IsStream ext s.verifier seal w h, (λ _. whole), committed), whole)

module _ (ext : External) {W : Type 0} (fs : Disk W) where
  pub create-IsSafe :
      (disk : W) (begin : BeginManifest) (limits : ValidationLimits) {after : W}
      {s : BundleStager W}
      → Stager.create ext fs disk begin limits ≡ (after, ok s)
      → IsSafe ext s
  unfolding Stager.create IsSafe is_some
  create-IsSafe disk begin limits h =
      let (_, v, verified, h₁) = >=>-eq-ok _ _ h in
      let (_, _, valid, started) = >=>-eq-ok (disk, validate begin limits) _ verified in
      let (_, _, _, same) = >=>-eq-ok _ _ h₁ in
      let fresh = new-IsStream ext begin limits (ap (λ p. p.1) started) in
      subst (IsSafe ext) (ok-injective (ap (λ p. p.1) same))
        (fresh, (λ e. absurd (false≢true e)), λ e. e)
