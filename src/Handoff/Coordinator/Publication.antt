-- ===== src/Handoff/Coordinator/Publication.antt =====
-- crates/kvpack-handoff/src/coordinator.rs: the verifier behind a committed bundle.
use kvpack.Base.{ℕ, ◌≡◌, refl, ap, List, Option, none, some, true, not, ltb, ◌==◌}
use kvpack.Base.{Result, ok, err, inl, inr, Bool-cases, ok-injective}
use mathlib.Core.Path.{subst}
use kvpack.Handoff.{HandoffError}
use kvpack.Handoff.External.{External}
use kvpack.Handoff.Manifest.{
  BeginManifest, LayerHeader, SealManifest, TensorRole, key, value, ValidationLimits,
}
use kvpack.Handoff.Manifest.Validation.{is_some}
use kvpack.Handoff.Verify.{
  IncrementalVerifier, VerifiedPlane, VerifiedLayerPair, VerifiedSeal, new_pair, new_single,
  is_single_role_frame, verify_plane, verify_seal,
}
use kvpack.Handoff.Bundle as Stager
use kvpack.Handoff.Bundle.{
  Disk, BundleStager, FileName, Directory, ◌>=>◌, lift_io, is_closed, write_new, sync,
  write_verified, write_prepared_seal, prepare_shared_seal, layers, staging, parent,
}
use kvpack.Handoff.Coordinator.{
  create, advance, finish_pair, ingest_role, StreamingCoordinator, PendingKey, with_verifier,
  ingest_plane, stage_plane, prepare_seal, verify_and_stage, finish_key, finish_value, complete,
  check_ready_cursor, verify_and_prepare_seal, publish, abort,
}
use kvpack.Handoff.Bundle.Safe.{
  IsSafe, IsComplete, >=>-keeps, write_verified-IsSafe, prepare_shared_seal-IsSafe, publish-IsSafe,
  abort-IsSafe, create-IsSafe, >=>-eq-ok, if-keeps, unsealed-IsSafe, sealed-IsSafe,
}

-- What follows the staging of a plane leaves the stager as it is, whatever its result.
module _ {W P : Type 0} (I : BundleStager W → Type 0) where
  abbrev pub Safe : StreamingCoordinator W P → Type 0
  Safe c = I c.stager

  abbrev Left : {A : Type 0} → StreamingCoordinator W P × Result HandoffError A → Type 0
  Left r = Safe r.0

  advance-Safe :
      (c : StreamingCoordinator W P) (layer expected : ℕ)
      → Safe c
      → Safe (advance c layer expected).0
  unfolding advance
  advance-Safe c layer expected h = elim (Bool-cases (not (layer == expected))) [
    | inl off ↦ rw off h
    | inr at ↦ elim (Bool-cases (ltb c.ready_layers 0xffff_ffff)) [
      | inl room ↦ rw (at, room) h
      | inr full ↦ rw (at, full) h
    ]
  ]

  complete-Safe :
      (c : StreamingCoordinator W P) (pair : Result HandoffError VerifiedLayerPair) (permit : P)
      → Safe c
      → Safe (complete c pair permit).0
  unfolding complete check_ready_cursor
  complete-Safe c pair permit h =
      >=>-keeps Safe (c, pair) _ h
        (λ c pair h.
          >=>-keeps Safe _ _
            (>=>-keeps Safe (c, _) _ h (λ c expected h. advance-Safe c pair.layer expected h))
            (λ c _ h. h))

  pub finish_key-Safe :
      (c : StreamingCoordinator W P) (plane : VerifiedPlane) (permit : P)
      → Safe c
      → Safe (finish_key c plane permit).0
  unfolding finish_key
  finish_key-Safe c plane permit h =
      elim (Bool-cases (is_single_role_frame c.stager.verifier plane.header.sequence)) [
        | inl single ↦ rw single (complete-Safe c (new_single plane) permit h)
        | inr pair ↦ elim (Bool-cases (is_some c.pending_key)) [
          | inl waiting ↦ rw (pair, waiting) h
          | inr free ↦ rw (pair, free) h
        ]
      ]

  pub finish_pair-Safe :
      (c : StreamingCoordinator W P) (plane : VerifiedPlane) (pending : Option (PendingKey P))
      → Safe c
      → Safe (finish_pair c plane pending).0
  unfolding finish_pair
  finish_pair-Safe c plane none h = h
  finish_pair-Safe c plane (some pending) h =
      complete-Safe (record c { pending_key = none }) (new_pair pending.plane plane) pending.permit
        h

module _ (ext : External) {W : Type 0} (fs : Disk W) {P : Type 0} where
  stage_plane-IsSafe :
      (c : StreamingCoordinator W P) (header : LayerHeader) (payload : List ℕ)
      (verified : Result HandoffError (VerifiedPlane × IncrementalVerifier))
      → verify_plane ext c.stager.verifier header payload ≡ verified
      → IsSafe ext c.stager
      → IsSafe ext (stage_plane ext fs c verified).0.stager
  unfolding stage_plane with_verifier
  stage_plane-IsSafe c header payload (err e) h safe = safe
  stage_plane-IsSafe c header payload (ok (plane, v)) h safe =
      >=>-keeps (Safe (IsSafe ext)) _ _
        (write_verified-IsSafe ext fs (record c.stager { verifier = v }) plane
          (unsealed-IsSafe ext c.stager header payload safe h))
        (λ c _ h. h)

  prepare_seal-IsSafe :
      (c : StreamingCoordinator W P) (seal : SealManifest)
      (verified : Result HandoffError (VerifiedSeal × IncrementalVerifier))
      → verify_seal ext c.stager.verifier seal ≡ verified
      → IsSafe ext c.stager
      → IsSafe ext (prepare_seal ext fs c verified).0.stager
  unfolding prepare_seal with_verifier
  prepare_seal-IsSafe c seal (err e) h safe = safe
  prepare_seal-IsSafe c seal (ok (witness, v)) h safe =
      let (after, whole) = sealed-IsSafe ext c.stager seal safe h in
      >=>-keeps (Safe (IsSafe ext)) _ _
        (prepare_shared_seal-IsSafe ext fs (record c.stager { verifier = v }) witness after whole)
        (λ c _ h. h)

  ingest_role-Safe :
      (c : StreamingCoordinator W P) (header : LayerHeader) (payload : List ℕ) (role : TensorRole)
      (permit : Option P)
      → IsSafe ext c.stager
      → IsSafe ext (ingest_role ext fs c header payload role permit).0.stager
  unfolding ingest_role verify_and_stage finish_value
  ingest_role-Safe c header payload key none h = h
  ingest_role-Safe c header payload value (some held) h = h
  ingest_role-Safe c header payload key (some held) h =
      >=>-keeps (Safe (IsSafe ext)) _ _ (stage_plane-IsSafe c header payload _ refl h)
        (λ c plane h. finish_key-Safe (IsSafe ext) c plane held h)
  ingest_role-Safe c header payload value none h =
      >=>-keeps (Safe (IsSafe ext)) _ _ (stage_plane-IsSafe c header payload _ refl h)
        (λ c plane h. finish_pair-Safe (IsSafe ext) c plane c.pending_key h)

  -- The calls on a coordinator, with whatever result they have.
  pub data Reached (begin : BeginManifest) (limits : ValidationLimits)
      : StreamingCoordinator W P → Type 0 where
    created :
        (disk after : W) {c : StreamingCoordinator W P}
        → create ext fs disk begin limits ≡ (after, ok c)
        → Reached begin limits c
    ingested :
        {c : StreamingCoordinator W P} (header : LayerHeader) (payload : List ℕ) (permit : Option P)
        → Reached begin limits c
        → Reached begin limits (ingest_plane ext fs c header payload permit).0
    prepared :
        {c : StreamingCoordinator W P} (seal : SealManifest)
        → Reached begin limits c
        → Reached begin limits (verify_and_prepare_seal ext fs c seal).0
    published :
        {c : StreamingCoordinator W P}
        → Reached begin limits c
        → Reached begin limits (publish ext fs c).0
    aborted :
        {c : StreamingCoordinator W P}
        → Reached begin limits c
        → Reached begin limits (abort ext fs c).0

  created-IsSafe :
      (disk : W) (begin : BeginManifest) (limits : ValidationLimits) {after : W}
      {c : StreamingCoordinator W P}
      → create ext fs disk begin limits ≡ (after, ok c)
      → IsSafe ext c.stager
  unfolding create
  created-IsSafe disk begin limits h =
      let (_, s, made, same) = >=>-eq-ok (Stager.create ext fs disk begin limits) _ h in
      subst (Safe (IsSafe ext)) (ok-injective (ap (λ p. p.1) same))
        (create-IsSafe ext fs disk begin limits made)

  pub Reached-IsSafe :
      (begin : BeginManifest) (limits : ValidationLimits) {c : StreamingCoordinator W P}
      → Reached begin limits c
      → IsSafe ext c.stager
  unfolding ingest_plane verify_and_prepare_seal publish abort
  Reached-IsSafe begin limits (created disk after h) = created-IsSafe disk begin limits h
  Reached-IsSafe begin limits (ingested {c = c} header payload permit r) =
      let h = Reached-IsSafe begin limits r in
      if-keeps (Left (IsSafe ext)) c.terminal_prepared h
        (ingest_role-Safe c header payload header.role permit h)
  Reached-IsSafe begin limits (prepared {c = c} seal r) =
      let h = Reached-IsSafe begin limits r in
      if-keeps (Left (IsSafe ext)) (is_some c.pending_key) h (prepare_seal-IsSafe c seal _ refl h)
  Reached-IsSafe begin limits (published {c = c} r) =
      let h = Reached-IsSafe begin limits r in
      if-keeps (Left (IsSafe ext)) (not c.terminal_prepared) h (publish-IsSafe ext fs c.stager h)
  Reached-IsSafe begin limits (aborted {c = c} r) =
      abort-IsSafe ext fs c.stager (Reached-IsSafe begin limits r)

  -- A committed bundle has a verified seal and all the declared frames, whose bytes add up to the
  -- declared ones, whatever calls were made on the coordinator and whichever of them failed.
  pub Reached-IsComplete :
      (begin : BeginManifest) (limits : ValidationLimits) {c : StreamingCoordinator W P}
      → Reached begin limits c
      → c.stager.committed ≡ true
      → IsComplete c.stager.verifier
  unfolding IsSafe
  Reached-IsComplete begin limits r committed =
      let (_, sealed, ready) = Reached-IsSafe begin limits r in sealed (ready committed)
