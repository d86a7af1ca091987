-- ===== src/Handoff/Coordinator/Stored.antt =====
-- crates/kvpack-handoff/src/coordinator.rs: the files of a published bundle. A session ends with the
-- first call that fails, so all calls here succeed.
use kvpack.Base.{ℕ, ◌≡◌, List, Option, ok}
use kvpack.Handoff.External.{External}
use kvpack.Handoff.Manifest.{BeginManifest, LayerHeader, SealManifest, ValidationLimits}
use kvpack.Handoff.Verify.{VerifiedPlane, VerifiedPlane, VerifiedSeal}
use kvpack.Handoff.Bundle as Stager
use kvpack.Handoff.Bundle.{Disk, BundleStager, ◌>=>◌, write_verified, prepare_shared_seal}
use kvpack.Handoff.Bundle.Files.{IsFileSystem, IsStored}
use kvpack.Handoff.Coordinator.{
  StreamingCoordinator, LayerReady, create, ingest_plane, verify_and_prepare_seal, publish,
}
use kvpack.Handoff.Coordinator.Publication.{Safe}

module _ (ext : External) {W : Type 0} {fs : Disk W} (files : IsFileSystem fs) {P : Type 0} where
  abbrev Stored : StreamingCoordinator W P → Type 0
  Stored = Safe (IsStored ext files)

  -- A session of calls that all succeed, as a receiver makes it.
  pub data Session (begin : BeginManifest) (limits : ValidationLimits)
      : StreamingCoordinator W P → Type 0 where
    opened :
        (disk after : W) {c : StreamingCoordinator W P}
        → create ext fs disk begin limits ≡ (after, ok c)
        → Session begin limits c
    received :
        {c d : StreamingCoordinator W P} (header : LayerHeader) (payload : List ℕ)
        (permit : Option P) (emitted : Option (LayerReady P))
        → Session begin limits c
        → ingest_plane ext fs c header payload permit ≡ (d, ok emitted)
        → Session begin limits d
    closed :
        {c d : StreamingCoordinator W P} (seal : SealManifest) (witness : VerifiedSeal)
        → Session begin limits c
        → verify_and_prepare_seal ext fs c seal ≡ (d, ok witness)
        → Session begin limits d
    committed :
        {c d : StreamingCoordinator W P}
        → Session begin limits c
        → publish ext fs c ≡ (d, ok tt)
        → Session begin limits d
