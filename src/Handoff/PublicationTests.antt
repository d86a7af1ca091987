-- ===== src/Handoff/PublicationTests.antt =====
-- crates/kvpack-handoff: the publication of a transfer on a small file system in memory.
use kvpack.Base.{
  ℕ, List, [], ◌∷◌, Option, none, some, true, false, bytes_eq, if◌then◌else◌, Result, ok, err,
}
use kvpack.Handoff.{HandoffError, io}
use kvpack.Handoff.Manifest.{TensorRole, key, value, default_limits}
use kvpack.Handoff.Verify.Seal.{}
use kvpack.Handoff.Bundle as Stager
use kvpack.Handoff.Bundle.{Disk}
use kvpack.Handoff.Coordinator.{
  StreamingCoordinator, create, ingest_plane, verify_and_prepare_seal, publish,
}
use kvpack.Handoff.Coordinator.Publication.{}
use kvpack.Handoff.Bundle.{FileName, begin_json, seal_json, ready, header_file, payload_file}
use kvpack.Handoff.Coordinator.{LayerReady}
use kvpack.Handoff.Coordinator.Stored.{committed}
use kvpack.Handoff.TransferTests.{ext, begin, header, seal, at_start}

-- A file is found by the bytes that spell its name.
abbrev role_byte : TensorRole → ℕ
role_byte key = 0
role_byte value = 1

abbrev spelled : FileName → List ℕ
spelled begin_json = 0 ∷ []
spelled seal_json = 1 ∷ []
spelled ready = 2 ∷ []
spelled (header_file layer role) = 3 ∷ layer ∷ role_byte role ∷ []
spelled (payload_file layer role extension) = 4 ∷ layer ∷ role_byte role ∷ extension

abbrev Memory : Type 0
Memory = List ℕ → Option (List ℕ)

abbrev write_at :
    Memory → List ℕ → List ℕ → Option (List ℕ) → Memory × Result HandoffError (Unit {0})
write_at disk name bytes (some _) = (disk, err (io "file exists"))
write_at disk name bytes none =
    (λ other. if bytes_eq other name then some bytes else disk other, ok tt)

abbrev disk : Disk Memory
disk = record {
  create_staging = λ d. (d, ok tt);
  write_new_sync = λ d file bytes. write_at d (spelled file) bytes (d (spelled file));
  sync_all = λ d _. (d, ok tt);
  rename_noreplace = λ d. (d, ok tt);
  remove_dir_all = λ d. (d, ok tt);
  staging_exists = λ _. true;
}

abbrev at_create : StreamingCoordinator Memory (Unit {0})
at_create = record {
  stager = record {
    begin = begin;
    committed = false;
    prepared = none;
    verifier = at_start;
    aborted = false;
    disk = (create ext disk {P = Unit {0}} (λ _. none) begin default_limits).0;
  };
  pending_key = none;
  ready_layers = 0;
  terminal_prepared = false;
}

abbrev with_key : StreamingCoordinator Memory (Unit {0})
with_key = (ingest_plane ext disk at_create (header 0 key) (1 ∷ 2 ∷ []) (some tt)).0

abbrev with_value : StreamingCoordinator Memory (Unit {0})
with_value = (ingest_plane ext disk with_key (header 1 value) (3 ∷ 4 ∷ []) none).0

abbrev with_seal : StreamingCoordinator Memory (Unit {0})
with_seal = (verify_and_prepare_seal ext disk with_value seal).0

abbrev with_bundle : StreamingCoordinator Memory (Unit {0})
with_bundle = (publish ext disk with_seal).0

abbrev layer_zero : LayerReady (Unit {0})
layer_zero = record {
  pair = record {
    layer = 0;
    key_plane = record { header = header 0 key; bytes = 1 ∷ 2 ∷ [] };
    value_plane = some (record { header = header 1 value; bytes = 3 ∷ 4 ∷ [] });
  };
  permit = tt;
}
