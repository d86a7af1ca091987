-- ===== src/Handoff/Bundle/Stored.antt =====
-- crates/kvpack-handoff/src/bundle.rs: the files after the calls of the stager that succeed.
use kvpack.Base.{ℕ, ◌≡◌, refl, sym, ap, ◌∙◌, List, [], ◌∷◌, Option, none, some, Bool, true, false}
use kvpack.Base.{Result, ok, err, if◌then◌else◌, All, All-append, ◌||◌, arith, ok-injective}
use mathlib.Core.Path.{subst}
use mathlib.Core.Bool.{false≢true}
use kvpack.Handoff.{HandoffError}
use kvpack.Handoff.External.{External}
use kvpack.Handoff.Manifest.{BeginManifest, LayerHeader, SealManifest, ValidationLimits}
use kvpack.Handoff.Manifest.Layout.{plane_payload_extension}
use kvpack.Handoff.Manifest.Validation.{validate}
use kvpack.Handoff.Verify.{IncrementalVerifier, VerifiedPlane, VerifiedSeal, verify_plane}
use kvpack.Handoff.Verify.Stream.{verify_plane-IsAccepted}
use kvpack.Handoff.Verify.Fed.{IsPlane}
use kvpack.Handoff.Verify.Seal.{new-IsFed}
use kvpack.Handoff.Bundle as Stager
use kvpack.Handoff.Bundle.{
  Disk, BundleStager, header_file, payload_file, begin_json, seal_json, ready, ◌>=>◌, is_closed,
  write_new, sync, write_verified, write_prepared_seal, prepare_shared_seal, layers, staging,
  parent, lift_io,
}
use kvpack.Handoff.Bundle.Safe.{>=>-eq-ok}
use kvpack.Handoff.Bundle.Files.{
  IsFileSystem, HasPlane, IsStored, Extends, Extends-trans, write_new-Extends, sync-Extends,
  rename-Extends, IsStored-Extends,
}

pub none≢some : {A : Type 0} {a : A} → ¬ (◌≡◌ {A = Option A} none (some a))
none≢some h = cc

pub err≢ok :
    {A : Type 0} {e : HandoffError} {a : A} → ¬ (◌≡◌ {A = Result HandoffError A} (err e) (ok a))
err≢ok h = cc

-- A method that succeeds has passed its guard.
pub guard-ok :
    {S B : Type 0} (refused : Bool) (s : S) (e : HandoffError) {r : S × Result HandoffError B}
    {t : S} {b : B}
    → (if refused then (s, err e) else r) ≡ (t, ok b)
    → r ≡ (t, ok b)
guard-ok true s e h = absurd (err≢ok (ap (λ p. p.1) h))
guard-ok false s e h = h

some-injective : {A : Type 0} {a b : A} → ◌≡◌ {A = Option A} (some a) (some b) → a ≡ b
some-injective h = cc

guard-open :
    {S B : Type 0} (refused : Bool) (s : S) (e : HandoffError) (r : S × Result HandoffError B)
    {t : S} {b : B}
    → (if refused then (s, err e) else r) ≡ (t, ok b)
    → refused ≡ false
guard-open true s e r h = absurd (err≢ok (ap (λ p. p.1) h))
guard-open false s e r h = refl

open-committed : {W : Type 0} (s : BundleStager W) → is_closed s ≡ false → s.committed ≡ false
unfolding is_closed
open-committed s h = ground arith

module _ (ext : External) {W : Type 0} {fs : Disk W} (files : IsFileSystem fs) where
  -- The two files of a plane.
  write_verified-files :
      (s : BundleStager W) (plane : VerifiedPlane) {t : BundleStager W} {unit : Unit {0}}
      → write_verified ext fs s plane ≡ (t, ok unit)
      → (json : List ℕ) × Extends ext files s t
        × (ext.json_header plane.header ≡ ok json)
        × (files.read t.disk (header_file plane.header.layer plane.header.role) ≡ some json)
        × (files.read t.disk (
              payload_file plane.header.layer plane.header.role
                (plane_payload_extension s.begin plane.header.role))
            ≡ some plane.bytes)
  unfolding write_verified
  write_verified-files s plane h =
      let (s₂, _, first, last) = >=>-eq-ok _ _ (guard-ok (is_closed s) s _ h) in
      let (s₁, json, encoded, head) = >=>-eq-ok (s, ext.json_header plane.header) _ first in
      let (a, found) = write_new-Extends ext files s₁ _ json head in
      let (b, body) = write_new-Extends ext files s₂ _ plane.bytes last in
      let start : Extends ext files s s₂ =
        subst (λ x. Extends ext files x s₂) (sym (ap (λ p. p.0) encoded)) a in
      (json, Extends-trans ext files start b, ap (λ p. p.1) encoded, b.grows _ _ found, body)

  -- A plane that was verified and staged is stored with those before it.
  pub write_verified-IsStored :
      (s : BundleStager W) (header : LayerHeader) (payload : List ℕ) (plane : VerifiedPlane)
      (v : IncrementalVerifier) {t : BundleStager W} {unit : Unit {0}}
      → IsStored ext files s
      → verify_plane ext s.verifier header payload ≡ ok (plane, v)
      → write_verified ext fs (record s { verifier = v }) plane ≡ (t, ok unit)
      → IsStored ext files t
  unfolding HasPlane IsPlane
  write_verified-IsStored s header payload plane v {t = t} h verified staged =
      let accepted = verify_plane-IsAccepted ext s.verifier header payload verified in
      let (json, x, encoded, head, body) =
        write_verified-files (record s { verifier = v }) plane staged in
      let before : IsStored ext files (record t { verifier = s.verifier }) =
        IsStored-Extends ext files s _
          (record {
            begin = x.begin;
            verifier = refl;
            prepared = x.prepared;
            committed = x.committed;
            grows = x.grows;
          })
          h in
      let (sized, hashed) =
        subst (IsPlane ext) accepted.carried (accepted.sized, accepted.hashed) in
      let there : HasPlane ext files t.disk s.begin plane.header =
        (json, plane.bytes, encoded, head, body, sized, hashed) in
      let last : HasPlane ext files t.disk t.begin header =
        subst (λ b. HasPlane ext files t.disk b header) x.begin
          (subst (HasPlane ext files t.disk s.begin) (sym (ap (λ p. p.header) accepted.carried))
            there) in
      record {
        opened = before.opened;
        planes =
            subst (All (HasPlane ext files t.disk t.begin))
              (ap (λ w. w.headers) (accepted.after ∙ x.verifier))
              (All-append (HasPlane ext files t.disk t.begin) s.verifier.headers (header ∷ [])
                before.planes (last, tt));
        sealed = before.sealed;
        marked = before.marked;
      }

  -- A seal that was verified and prepared is stored.
  write_prepared_seal-IsStored :
      (s : BundleStager W) (seal : SealManifest) {t : BundleStager W} {unit : Unit {0}}
      → IsStored ext files s
      → s.committed ≡ false
      → write_prepared_seal ext fs s seal ≡ (t, ok unit)
      → IsStored ext files t
  unfolding write_prepared_seal
  write_prepared_seal-IsStored s seal h fresh staged =
      let (s₄, _, h₄, last) = >=>-eq-ok _ _ staged in
      let (s₃, _, h₃, synced) = >=>-eq-ok _ _ h₄ in
      let (s₂, _, h₂, synced_layers) = >=>-eq-ok _ _ h₃ in
      let (s₁, json, encoded, wrote) = >=>-eq-ok (s, ext.json_seal seal) _ h₂ in
      let (a, found) = write_new-Extends ext files s₁ seal_json json wrote in
      let b = sync-Extends ext files s₂ layers synced_layers in
      let c = sync-Extends ext files s₃ staging synced in
      let x : Extends ext files s₁ s₄ = Extends-trans ext files a (Extends-trans ext files b c) in
      let y : Extends ext files s s₄ =
        subst (λ z. Extends ext files z s₄) (sym (ap (λ p. p.0) encoded)) x in
      let kept = IsStored-Extends ext files s s₄ y h in
      subst (IsStored ext files) (ap (λ p. p.0) last) (record {
        opened = kept.opened;
        planes = kept.planes;
        sealed = λ other same.
            let e : seal ≡ other = some-injective same in
            (
              json,
              ap ext.json_seal (sym e) ∙ ap (λ p. p.1) encoded,
              c.grows _ _ (b.grows _ _ found),
            );
        marked = λ p. absurd (false≢true (sym fresh ∙ (y.committed ∙ p)));
      })

  pub prepare_shared_seal-IsStored :
      (s : BundleStager W) (verified : VerifiedSeal) {t : BundleStager W} {unit : Unit {0}}
      → IsStored ext files s
      → prepare_shared_seal ext fs s verified ≡ (t, ok unit)
      → IsStored ext files t
  unfolding prepare_shared_seal
  prepare_shared_seal-IsStored s verified h staged =
      let written = guard-ok (is_closed s) s _ staged in
      write_prepared_seal-IsStored s verified.seal h
        (open-committed s (guard-open (is_closed s) s _ _ staged)) written

  publish_from-IsStored :
      (s : BundleStager W) (seal : Option SealManifest) {t : BundleStager W} {unit : Unit {0}}
      → s.prepared ≡ seal
      → IsStored ext files s
      → Stager.publish_from ext fs s seal ≡ (t, ok unit)
      → IsStored ext files t
  unfolding Stager.publish_from
  publish_from-IsStored s none e h published = absurd (err≢ok (ap (λ p. p.1) published))
  publish_from-IsStored s (some seal) e h published =
      let (s₅, _, h₅, last) = >=>-eq-ok _ _ published in
      let (s₄, _, h₄, synced_parent) = >=>-eq-ok _ _ h₅ in
      let (s₃, _, h₃, renamed) = >=>-eq-ok _ _ h₄ in
      let (s₂, _, h₂, synced) = >=>-eq-ok _ _ h₃ in
      let (s₁, _, wrote, synced_layers) = >=>-eq-ok _ _ h₂ in
      let (a, found) = write_new-Extends ext files s ready _ wrote in
      let b : Extends ext files s₁ s₅ =
        Extends-trans ext files (sync-Extends ext files s₁ layers synced_layers) (
          Extends-trans ext files (sync-Extends ext files s₂ staging synced) (
            Extends-trans ext files (rename-Extends ext files s₃ renamed)
              (sync-Extends ext files s₄ parent synced_parent))) in
      let y = Extends-trans ext files a b in
      let kept = IsStored-Extends ext files s s₅ y h in
      subst (IsStored ext files) (ap (λ p. p.0) last) (record {
        opened = kept.opened;
        planes = kept.planes;
        sealed = kept.sealed;
        marked = λ _. (seal, sym y.prepared ∙ e, b.grows _ _ found);
      })

  pub publish-IsStored :
      (s : BundleStager W) {t : BundleStager W} {unit : Unit {0}}
      → IsStored ext files s
      → Stager.publish ext fs s ≡ (t, ok unit)
      → IsStored ext files t
  unfolding Stager.publish
  publish-IsStored s h published =
      publish_from-IsStored s s.prepared refl h (guard-ok (s.committed || s.aborted) s _ published)

  pub create-IsStored :
      (disk : W) (begin : BeginManifest) (limits : ValidationLimits) {after : W}
      {s : BundleStager W}
      → Stager.create ext fs disk begin limits ≡ (after, ok s)
      → IsStored ext files s
  unfolding Stager.create
  create-IsStored disk begin limits h =
      let (_, v, verified, h₁) = >=>-eq-ok _ _ h in
      let (w₃, _, h₂, made) = >=>-eq-ok _ _ h₁ in
      let (w₂, json, h₃, wrote) = >=>-eq-ok _ _ h₂ in
      let (w₁, _, _, encoded) = >=>-eq-ok _ _ h₃ in
      let (_, _, valid, started) = >=>-eq-ok (disk, validate begin limits) _ verified in
      let none_yet = (new-IsFed ext begin limits (ap (λ p. p.1) started)).carried in
      subst (IsStored ext files) (ok-injective (ap (λ p. p.1) made)) (record {
        opened = (
          json,
          ap (λ p. p.1) encoded,
          ap (λ p. files.read p.0 begin_json) (sym wrote)
              ∙ files.written w₂ begin_json json (ap (λ p. p.1) wrote),
        );
        planes = subst (All (HasPlane ext files w₃ begin)) (sym none_yet) tt;
        sealed = λ _ p. absurd (none≢some p);
        marked = λ p. absurd (false≢true p);
      })
