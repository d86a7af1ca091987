-- ===== src/Handoff/Verify/Fed.antt =====
-- crates/kvpack-handoff/src/verify.rs: the payloads that the rolling hash was fed.
use kvpack.Base.{
  ℕ, ◌≡◌, refl, sym, ap, ◌∙◌, List, [], ◌∷◌, ◌++◌, map, All, All-append, length, append-nil,
  append_assoc, ok,
}
use mathlib.Core.Path.{subst}
use kvpack.Handoff.External.{External}
use kvpack.Handoff.Manifest.{LayerHeader}
use kvpack.Handoff.Manifest.Headers.{sha256_hex}
use kvpack.Handoff.Verify.{IncrementalVerifier, VerifiedPlane, verify_plane}
use kvpack.Handoff.Verify.Stream.{verify_plane-IsAccepted}

-- The payloads of the planes, one after the other.
unfoldable pub payloads : List VerifiedPlane → List ℕ
payloads [] = []
payloads (plane ∷ planes) = plane.bytes ++ payloads planes

-- The payload has the length and the digest that its header declares.
unfoldable pub IsPlane : External → VerifiedPlane → Type 0
IsPlane ext plane =
    (length plane.bytes ≡ plane.header.byte_length)
    × (sha256_hex ext plane.bytes ≡ plane.header.sha256)

-- The verifier holds the headers of the planes, and its payload hash was fed their payloads.
pub record IsFed (ext : External) (planes : List VerifiedPlane) (v : IncrementalVerifier)
    : Type 0 where
  pub carried : v.headers ≡ map (λ (plane : VerifiedPlane). plane.header) planes
  pub hashed : v.payload_hash ≡ payloads planes
  pub checked : All (IsPlane ext) planes

payloads-append :
    (planes : List VerifiedPlane) (plane : VerifiedPlane)
    → payloads (planes ++ (plane ∷ [])) ≡ payloads planes ++ plane.bytes
unfolding payloads
payloads-append [] plane = append-nil plane.bytes
payloads-append (first ∷ planes) plane =
    ap (λ rest. first.bytes ++ rest) (payloads-append planes plane)
    ∙ sym (append_assoc first.bytes (payloads planes) plane.bytes)

map-append :
    {A B : Type 0} (f : A → B) (xs : List A) (x : A)
    → map f (xs ++ (x ∷ [])) ≡ map f xs ++ (f x ∷ [])
map-append f [] x = refl
map-append f (y ∷ xs) x = ap (λ rest. f y ∷ rest) (map-append f xs x)

-- A plane that is accepted is appended to those before it.
pub verify_plane-IsFed :
    (ext : External) (planes : List VerifiedPlane) (v : IncrementalVerifier) (header : LayerHeader)
    (payload : List ℕ) {plane : VerifiedPlane} {v' : IncrementalVerifier}
    → IsFed ext planes v
    → verify_plane ext v header payload ≡ ok (plane, v')
    → IsFed ext (planes ++ (record { header = header; bytes = payload } ∷ [])) v'
unfolding IsPlane
verify_plane-IsFed ext planes v header payload fed h =
    let accepted = verify_plane-IsAccepted ext v header payload h in
    let last : VerifiedPlane = record { header = header; bytes = payload } in
    subst (IsFed ext (planes ++ (last ∷ []))) accepted.after (record {
      carried =
          ap (λ headers. headers ++ (header ∷ [])) fed.carried
          ∙ sym (map-append (λ (plane : VerifiedPlane). plane.header) planes last);
      hashed = ap (λ bytes. bytes ++ payload) fed.hashed ∙ sym (payloads-append planes last);
      checked =
          All-append (IsPlane ext) planes (last ∷ []) fed.checked
            ((accepted.sized, accepted.hashed), tt);
    })
