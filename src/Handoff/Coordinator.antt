-- ===== src/Handoff/Coordinator.antt =====
-- crates/kvpack-handoff/src/coordinator.rs: `StreamingCoordinatorV1`, which pairs the K and V planes of
-- a stream, emits the layers that are complete, and seals and publishes the bundle. A permit is the
-- parameter `P`; the durations are left out. A method returns the coordinator with its result.
pub mod Publication
pub mod Stored
use kvpack.Base.{
  ℕ, ◌+◌, List, Option, none, some, Bool, true, false, not, ltb, ◌==◌, if◌then◌else◌, Result, ok,
  err,
}
use kvpack.Handoff.{HandoffError, validation, text}
use kvpack.Handoff.External.{External}
use kvpack.Handoff.Mac.{MacKey}
use kvpack.Handoff.Manifest.{
  BeginManifest, ValidationLimits, LayerHeader, SealManifest, TensorRole, key, value,
}
use kvpack.Handoff.Manifest.Layout.{is_v2}
use kvpack.Handoff.Manifest.Validation.{is_some}
use kvpack.Handoff.Verify.{
  IncrementalVerifier, VerifiedPlane, VerifiedLayerPair, VerifiedSeal, new_pair, new_single,
  expected_layer_at, is_single_role_frame, verify_plane, verify_seal, authenticate_seal_hmac,
}
use kvpack.Handoff.Bundle as Stager
use kvpack.Handoff.Bundle.{Disk, BundleStager, ◌>=>◌, write_verified, prepare_shared_seal}

pub record LayerReady (P : Type 0) : Type 0 where
  pub pair : VerifiedLayerPair
  pub permit : P

pub record PendingKey (P : Type 0) : Type 0 where
  pub plane : VerifiedPlane
  pub permit : P

pub record StreamingCoordinator (W P : Type 0) : Type 0 where
  pub stager : BundleStager W
  pub pending_key : Option (PendingKey P)
  pub ready_layers : ℕ
  pub terminal_prepared : Bool

module _ {W P : Type 0} where
  unfoldable pub with_verifier :
      StreamingCoordinator W P → IncrementalVerifier → StreamingCoordinator W P
  with_verifier c v = record c { stager = record c.stager { verifier = v } }

  -- The cursor against the layer that is expected.
  unfoldable pub advance :
      StreamingCoordinator W P → ℕ → ℕ → StreamingCoordinator W P × Result HandoffError (Unit {0})
  advance c layer expected =
      if not (layer == expected)
      then (c, err (validation (text "layer-ready order does not match the strict stream cursor")))
      else (if ltb c.ready_layers 0xffff_ffff
          then (record c { ready_layers = c.ready_layers + 1 }, ok tt)
          else (c, err (validation (text "layer-ready count overflow"))))

  unfoldable pub check_ready_cursor :
      StreamingCoordinator W P → ℕ → ℕ → StreamingCoordinator W P × Result HandoffError (Unit {0})
  check_ready_cursor c layer sequence =
      let verifier = c.stager.verifier in
      let expected : Result HandoffError ℕ =
        if is_v2 verifier.begin then expected_layer_at verifier sequence else ok c.ready_layers in
      (c, expected) >=> λ c expected. advance c layer expected

  -- What follows when a layer is complete: the pair is made, the cursor checked, the layer emitted.
  unfoldable pub complete :
      StreamingCoordinator W P
      → Result HandoffError VerifiedLayerPair
      → P
      → StreamingCoordinator W P × Result HandoffError (Option (LayerReady P))
  complete c pair permit = (c, pair) >=> λ c pair.
      check_ready_cursor c pair.layer pair.key_plane.header.sequence >=> λ c _.
      (c, ok (some (record { pair = pair; permit = permit })))

  unfoldable pub finish_key :
      StreamingCoordinator W P
      → VerifiedPlane
      → P
      → StreamingCoordinator W P × Result HandoffError (Option (LayerReady P))
  finish_key c plane permit =
      if is_single_role_frame c.stager.verifier plane.header.sequence
      then complete c (new_single plane) permit
      else (if is_some c.pending_key
          then (c, err (validation (text "received another K plane before its V plane")))
          else (
            record c { pending_key = some (record { plane = plane; permit = permit }) },
            ok none,
          ))

  unfoldable pub finish_pair :
      StreamingCoordinator W P
      → VerifiedPlane
      → Option (PendingKey P)
      → StreamingCoordinator W P × Result HandoffError (Option (LayerReady P))
  finish_pair c plane none = (c, err (validation (text "received V without a pending K plane")))
  finish_pair c plane (some pending) =
      complete (record c { pending_key = none }) (new_pair pending.plane plane) pending.permit

  unfoldable pub finish_value :
      StreamingCoordinator W P
      → VerifiedPlane
      → StreamingCoordinator W P × Result HandoffError (Option (LayerReady P))
  finish_value c plane = finish_pair c plane c.pending_key

module _ (ext : External) {W : Type 0} (fs : Disk W) {P : Type 0} where
  unfoldable pub create :
      W → BeginManifest → ValidationLimits → W × Result HandoffError (StreamingCoordinator W P)
  create disk begin limits = Stager.create ext fs disk begin limits >=> λ disk stager. (
    disk,
    ok (record {
      stager = stager;
      pending_key = none;
      ready_layers = 0;
      terminal_prepared = false;
    }),
  )

  -- The plane that the verifier accepted, with its new state, is staged.
  unfoldable pub stage_plane :
      StreamingCoordinator W P
      → Result HandoffError (VerifiedPlane × IncrementalVerifier)
      → StreamingCoordinator W P × Result HandoffError VerifiedPlane
  stage_plane c (err e) = (c, err e)
  stage_plane c (ok (plane, v)) =
      let (staged, result) = write_verified ext fs (with_verifier c v).stager plane in
      (record c { stager = staged }, result) >=> λ c _. (c, ok plane)

  unfoldable pub verify_and_stage :
      StreamingCoordinator W P
      → LayerHeader
      → List ℕ
      → StreamingCoordinator W P × Result HandoffError VerifiedPlane
  verify_and_stage c header payload =
      stage_plane c (verify_plane ext c.stager.verifier header payload)

  -- A K plane must bring a permit, and a V plane must not.
  unfoldable pub ingest_role :
      StreamingCoordinator W P
      → LayerHeader
      → List ℕ
      → TensorRole
      → Option P
      → StreamingCoordinator W P × Result HandoffError (Option (LayerReady P))
  ingest_role c header payload key none =
      (c, err (validation (text "a K plane payload requires a pre-acquired layer permit")))
  ingest_role c header payload value (some held) =
      (c, err (validation (text "a V plane cannot acquire a second layer permit")))
  ingest_role c header payload key (some held) =
      verify_and_stage c header payload >=> λ c plane. finish_key c plane held
  ingest_role c header payload value none =
      verify_and_stage c header payload >=> λ c plane. finish_value c plane

  unfoldable pub ingest_plane :
      StreamingCoordinator W P
      → LayerHeader
      → List ℕ
      → Option P
      → StreamingCoordinator W P × Result HandoffError (Option (LayerReady P))
  ingest_plane c header payload permit =
      if c.terminal_prepared
      then (c, err (validation (text "cannot ingest a plane after terminal seal preparation")))
      else ingest_role c header payload header.role permit

  unfoldable pub prepare_seal :
      StreamingCoordinator W P
      → Result HandoffError (VerifiedSeal × IncrementalVerifier)
      → StreamingCoordinator W P × Result HandoffError VerifiedSeal
  prepare_seal c (err e) = (c, err e)
  prepare_seal c (ok (witness, v)) =
      let (staged, result) = prepare_shared_seal ext fs (with_verifier c v).stager witness in
      (record c { stager = staged }, result) >=> λ c _.
      (record c { terminal_prepared = true }, ok witness)

  unfoldable pub verify_and_prepare_seal :
      StreamingCoordinator W P
      → SealManifest
      → StreamingCoordinator W P × Result HandoffError VerifiedSeal
  verify_and_prepare_seal c seal =
      if is_some c.pending_key
      then (c, err (validation (text "cannot seal with an incomplete K/V layer pair")))
      else prepare_seal c (verify_seal ext c.stager.verifier seal)

  unfoldable pub authenticate :
      StreamingCoordinator W P → VerifiedSeal → MacKey → Result HandoffError (Unit {0})
  authenticate c verified mac = authenticate_seal_hmac ext c.stager.verifier verified mac

  unfoldable pub publish :
      StreamingCoordinator W P → StreamingCoordinator W P × Result HandoffError (Unit {0})
  publish c =
      if not c.terminal_prepared
      then (c, err (validation (text "cannot publish before terminal seal verification")))
      else (let (staged, result) = Stager.publish ext fs c.stager in
          (record c { stager = staged }, result))

  unfoldable pub abort :
      StreamingCoordinator W P → StreamingCoordinator W P × Result HandoffError (Unit {0})
  abort c =
      let (staged, result) = Stager.abort ext fs c.stager in
      (record c { stager = staged; pending_key = none }, result)
