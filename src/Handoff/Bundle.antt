-- ===== src/Handoff/Bundle.antt =====
-- crates/kvpack-handoff/src/bundle.rs: `BundleStager`, which writes the verified planes and the seal
-- to a staging directory and publishes it. The file system is the parameter `Disk`. A method returns
-- the stager with its result, since an error leaves what was done before it.
pub mod Safe
pub mod Files
pub mod Stored
use kvpack.Base.{
  ℕ, List, [], ◌∷◌, ◌++◌, Option, none, some, Bool, false, true, ◌||◌, not, if◌then◌else◌, Result,
  ok, err,
}
use kvpack.Handoff.{HandoffError, validation, text}
use kvpack.Handoff.External.{External}
use kvpack.Handoff.Manifest.{ValidationLimits, BeginManifest, SealManifest, TensorRole}
use kvpack.Handoff.Manifest.Layout.{plane_payload_extension}
use kvpack.Handoff.Manifest.Validation.{is_some, validate}
use kvpack.Handoff.Verify.{IncrementalVerifier, VerifiedPlane, VerifiedSeal, new, verify_seal}

-- The files of a staging directory: a layer's are named by layer, role and extension.
pub data FileName : Type 0 where
  header_file : ℕ → TensorRole → FileName
  payload_file : ℕ → TensorRole → List ℕ → FileName
  begin_json seal_json ready : FileName

pub data Directory : Type 0 where
  layers staging parent : Directory

-- The calls of the file system on one staging directory, each of which may fail. `create_staging`
-- checks the paths and creates the directory with its folder of layers.
pub record Disk (W : Type 0) : Type 0 where
  pub create_staging : W → W × Result HandoffError (Unit {0})
  pub write_new_sync : W → FileName → List ℕ → W × Result HandoffError (Unit {0})
  pub sync_all : W → Directory → W × Result HandoffError (Unit {0})
  pub rename_noreplace : W → W × Result HandoffError (Unit {0})
  pub remove_dir_all : W → W × Result HandoffError (Unit {0})
  pub staging_exists : W → Bool

-- The `?` of a method that has changed its state: what follows runs on the new state.
infixl 5 ◌>=>◌
unfoldable pub ◌>=>◌ :
    {S A B : Type 0}
    → S × Result HandoffError A
    → (S → A → S × Result HandoffError B)
    → S × Result HandoffError B
(s, ok a) >=> f = f s a
(s, err e) >=> f = (s, err e)

pub record BundleStager (W : Type 0) : Type 0 where
  pub begin : BeginManifest
  pub committed : Bool
  pub prepared : Option SealManifest
  pub verifier : IncrementalVerifier
  pub aborted : Bool
  pub disk : W

module _ {W : Type 0} where
  unfoldable pub is_closed : BundleStager W → Bool
  is_closed s = s.committed || is_some s.prepared || s.aborted

  unfoldable pub lift_io :
      BundleStager W
      → W × Result HandoffError (Unit {0})
      → BundleStager W × Result HandoffError (Unit {0})
  lift_io s (disk, result) = (record s { disk = disk }, result)

module _ (ext : External) {W : Type 0} (fs : Disk W) where
  unfoldable pub create :
      W → BeginManifest → ValidationLimits → W × Result HandoffError (BundleStager W)
  create disk begin limits =
      (disk, validate begin limits) >=> (λ disk _. (disk, new ext begin limits)) >=> (λ disk v.
        fs.create_staging disk
        >=> (λ disk _. (disk, ext.json_begin begin))
        >=> (λ disk json. fs.write_new_sync disk begin_json json)
        >=> (λ disk _. (
          disk,
          ok (record {
            begin = begin;
            committed = false;
            prepared = none;
            verifier = v;
            aborted = false;
            disk = disk;
          }),
        )))

  unfoldable pub write_new :
      BundleStager W → FileName → List ℕ → BundleStager W × Result HandoffError (Unit {0})
  write_new s file bytes = lift_io s (fs.write_new_sync s.disk file bytes)

  unfoldable pub sync : BundleStager W → Directory → BundleStager W × Result HandoffError (Unit {0})
  sync s directory = lift_io s (fs.sync_all s.disk directory)

  unfoldable pub write_verified :
      BundleStager W → VerifiedPlane → BundleStager W × Result HandoffError (Unit {0})
  write_verified s plane =
      let header = plane.header in
      let payload =
        payload_file header.layer header.role (plane_payload_extension s.begin header.role) in
      if is_closed s
      then (s, err (validation (text "cannot stage a plane outside the receiving state")))
      else ((s, ext.json_header header)
          >=> (λ s json. write_new s (header_file header.layer header.role) json)
          >=> (λ s _. write_new s payload plane.bytes))

  unfoldable pub write_prepared_seal :
      BundleStager W → SealManifest → BundleStager W × Result HandoffError (Unit {0})
  write_prepared_seal s seal =
      (s, ext.json_seal seal)
      >=> (λ s json. write_new s seal_json json)
      >=> (λ s _. sync s layers)
      >=> (λ s _. sync s staging)
      >=> (λ s _. (record s { prepared = some seal }, ok tt))

  unfoldable pub prepare_shared_seal :
      BundleStager W → VerifiedSeal → BundleStager W × Result HandoffError (Unit {0})
  prepare_shared_seal s verified =
      if is_closed s
      then (s, err (validation (text "bundle cannot prepare another terminal seal")))
      else write_prepared_seal s verified.seal

  -- What `publish` does with the seal that was prepared, or with none.
  unfoldable pub publish_from :
      BundleStager W → Option SealManifest → BundleStager W × Result HandoffError (Unit {0})
  publish_from s none = (s, err (validation (text "bundle seal was not prepared")))
  publish_from s (some seal) =
      write_new s ready (seal.artifact_sha256 ++ (10 ∷ []))
      >=> (λ s _. sync s layers)
      >=> (λ s _. sync s staging)
      >=> (λ s _. lift_io s (fs.rename_noreplace s.disk))
      >=> (λ s _. sync s parent)
      >=> (λ s _. (record s { committed = true }, ok tt))

  unfoldable pub publish : BundleStager W → BundleStager W × Result HandoffError (Unit {0})
  publish s =
      if s.committed || s.aborted
      then (s, err (validation (text "bundle cannot be published in its current state")))
      else publish_from s s.prepared

  -- The compatibility method that seals and publishes.
  unfoldable pub seal :
      BundleStager W → SealManifest → BundleStager W × Result HandoffError (Unit {0})
  seal s manifest =
      if is_closed s
      then (s, err (validation (text "bundle cannot be sealed in its current state")))
      else elim (verify_seal ext s.verifier manifest) [
        | err e ↦ (s, err e)
        | ok (verified, v) ↦
            write_prepared_seal (record s { verifier = v }) verified.seal >=> (λ s _. publish s)
      ]

  unfoldable pub abort : BundleStager W → BundleStager W × Result HandoffError (Unit {0})
  abort s =
      if s.committed || s.aborted || not (fs.staging_exists s.disk)
      then (s, ok tt)
      else (lift_io s (fs.remove_dir_all s.disk) >=> (λ s _. (record s { aborted = true }, ok tt)))
