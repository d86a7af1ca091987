-- ===== src/Handoff/Bundle/Files.antt =====
-- crates/kvpack-handoff/src/bundle.rs: the files of a bundle, on a file system with the documented
-- behaviour.
use kvpack.Base.{ℕ, ◌≡◌, refl, sym, ap, ◌∙◌, List, [], ◌∷◌, ◌++◌, Option, some, true}
use kvpack.Base.{ok, All, All-imp, length}
use mathlib.Core.Path.{subst}
use kvpack.Handoff.External.{External}
use kvpack.Handoff.Manifest.{BeginManifest, LayerHeader, SealManifest}
use kvpack.Handoff.Manifest.Layout.{plane_payload_extension}
use kvpack.Handoff.Manifest.Headers.{sha256_hex}
use kvpack.Handoff.Bundle.{
  Disk, BundleStager, FileName, header_file, payload_file, begin_json, seal_json, ready, Directory,
  lift_io, write_new, sync,
}

-- The documented behaviour of the calls on the files of one bundle, read under the staging name
-- before the rename and under the final name after it. A file is opened with `create_new`, which
-- refuses a file that is there, so no write changes another's content.
pub record IsFileSystem {W : Type 0} (fs : Disk W) : Type 0 where
  pub read : W → FileName → Option (List ℕ)
  pub written :
      (disk : W) (file : FileName) (bytes : List ℕ)
      → (fs.write_new_sync disk file bytes).1 ≡ ok tt
      → read (fs.write_new_sync disk file bytes).0 file ≡ some bytes
  pub write_keeps :
      (disk : W) (file : FileName) (bytes : List ℕ) (other : FileName) (content : List ℕ)
      → read disk other ≡ some content
      → read (fs.write_new_sync disk file bytes).0 other ≡ some content
  pub sync_keeps :
      (disk : W) (directory : Directory) (other : FileName) (content : List ℕ)
      → read disk other ≡ some content
      → read (fs.sync_all disk directory).0 other ≡ some content
  pub rename_keeps :
      (disk : W) (other : FileName) (content : List ℕ)
      → read disk other ≡ some content
      → read (fs.rename_noreplace disk).0 other ≡ some content

module _ (ext : External) {W : Type 0} {fs : Disk W} (files : IsFileSystem fs) where
  -- The header's file holds its canonical JSON, and the payload's file holds bytes of the length and
  -- the digest that the header declares.
  unfoldable pub HasPlane : W → BeginManifest → LayerHeader → Type 0
  HasPlane disk begin header =
      (json : List ℕ) × (bytes : List ℕ) × (ext.json_header header ≡ ok json)
      × (files.read disk (header_file header.layer header.role) ≡ some json)
      × (files.read disk
            (payload_file header.layer header.role (plane_payload_extension begin header.role))
          ≡ some bytes)
      × (length bytes ≡ header.byte_length)
      × (sha256_hex ext bytes ≡ header.sha256)

  -- The files of a stager: the BEGIN, the planes of the verifier's headers, the seal that was
  -- prepared, and once committed the READY mark with the artifact's digest.
  pub record IsStored (s : BundleStager W) : Type 0 where
    pub opened :
        (json : List ℕ) × (ext.json_begin s.begin ≡ ok json)
        × (files.read s.disk begin_json ≡ some json)
    pub planes : All (HasPlane s.disk s.begin) s.verifier.headers
    pub sealed :
        (seal : SealManifest)
        → s.prepared ≡ some seal
        → (json : List ℕ) × (ext.json_seal seal ≡ ok json)
          × (files.read s.disk seal_json ≡ some json)
    pub marked :
        s.committed ≡ true
        → (seal : SealManifest) × (s.prepared ≡ some seal)
          × (files.read s.disk ready ≡ some (seal.artifact_sha256 ++ (10 ∷ [])))

  -- What calls of the file system do to a stager: its files stay, and only the disk changes.
  pub record Extends (s t : BundleStager W) : Type 0 where
    pub begin : s.begin ≡ t.begin
    pub verifier : s.verifier ≡ t.verifier
    pub prepared : s.prepared ≡ t.prepared
    pub committed : s.committed ≡ t.committed
    pub grows :
        (other : FileName) (content : List ℕ)
        → files.read s.disk other ≡ some content
        → files.read t.disk other ≡ some content

  pub Extends-trans : {s t u : BundleStager W} → Extends s t → Extends t u → Extends s u
  Extends-trans a b = record {
    begin = a.begin ∙ b.begin;
    verifier = a.verifier ∙ b.verifier;
    prepared = a.prepared ∙ b.prepared;
    committed = a.committed ∙ b.committed;
    grows = λ other content h. b.grows other content (a.grows other content h);
  }

  -- The stager after a call that only changes the disk.
  moved :
      (s t : BundleStager W) (disk : W)
      → record s { disk = disk } ≡ t
      → ((other : FileName) (content : List ℕ)
          → files.read s.disk other ≡ some content
          → files.read disk other ≡ some content)
      → Extends s t
  moved s t disk same grows =
      subst (Extends s) same
        (record { begin = refl; verifier = refl; prepared = refl; committed = refl; grows = grows })

  pub write_new-Extends :
      (s : BundleStager W) (file : FileName) (bytes : List ℕ) {t : BundleStager W} {unit : Unit {0}}
      → write_new ext fs s file bytes ≡ (t, ok unit)
      → Extends s t × (files.read t.disk file ≡ some bytes)
  unfolding write_new lift_io
  write_new-Extends s file bytes h = (
    moved s _ (fs.write_new_sync s.disk file bytes).0 (ap (λ p. p.0) h)
        (λ other content. files.write_keeps s.disk file bytes other content),
    ap (λ p. files.read p.0.disk file) (sym h) ∙ files.written s.disk file bytes (ap (λ p. p.1) h),
  )

  pub sync-Extends :
      (s : BundleStager W) (directory : Directory) {t : BundleStager W} {unit : Unit {0}}
      → sync ext fs s directory ≡ (t, ok unit)
      → Extends s t
  unfolding sync lift_io
  sync-Extends s directory h =
      moved s _ (fs.sync_all s.disk directory).0 (ap (λ p. p.0) h)
        (λ other content. files.sync_keeps s.disk directory other content)

  pub rename-Extends :
      (s : BundleStager W) {t : BundleStager W} {unit : Unit {0}}
      → lift_io s (fs.rename_noreplace s.disk) ≡ (t, ok unit)
      → Extends s t
  unfolding lift_io
  rename-Extends s h =
      moved s _ (fs.rename_noreplace s.disk).0 (ap (λ p. p.0) h)
        (λ other content. files.rename_keeps s.disk other content)

  pub HasPlane-grows :
      (disk after : W) (begin : BeginManifest)
      → ((other : FileName) (content : List ℕ)
          → files.read disk other ≡ some content
          → files.read after other ≡ some content)
      → (header : LayerHeader) → HasPlane disk begin header
      → HasPlane after begin header
  unfolding HasPlane
  HasPlane-grows disk after begin grows header (json, bytes, written, head, body, sized, hashed) =
      (json, bytes, written, grows _ _ head, grows _ _ body, sized, hashed)

  pub IsStored-Extends : (s t : BundleStager W) → Extends s t → IsStored s → IsStored t
  IsStored-Extends s t a h =
      let (json, opens, there) = h.opened in
      record {
        opened = (json, ap ext.json_begin (sym a.begin) ∙ opens, a.grows _ _ there);
        planes =
            subst (λ b. All (HasPlane t.disk b) t.verifier.headers) a.begin
              (subst (λ v. All (HasPlane t.disk s.begin) v.headers) a.verifier
                (All-imp (HasPlane-grows s.disk t.disk s.begin a.grows) s.verifier.headers
                  h.planes));
        sealed = λ seal p.
            let (text, writes, found) = h.sealed seal (a.prepared ∙ p) in
            (text, writes, a.grows _ _ found);
        marked = λ c.
            let (seal, p, found) = h.marked (a.committed ∙ c) in
            (seal, sym a.prepared ∙ p, a.grows _ _ found);
      }
