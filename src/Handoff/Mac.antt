-- ===== src/Handoff/Mac.antt =====
-- crates/kvpack-handoff/src/mac.rs: `MacKey`, the tag of a byte string under a tenant's key. HMAC
-- takes a key of every length, so `new_from_slice` never fails.
use kvpack.Base.{ℕ, ◌/◌, ◌%◌, List, [], ◌∷◌, ◌++◌, none, some, not, ◌||◌, ◌==◌, length}
use kvpack.Base.{ltb, ascii, bytes_eq, Result, ok, err, ◌>>◌, fail_if}
use kvpack.Handoff.{HandoffError, validation, text}
use kvpack.Handoff.External.{External}
use kvpack.Handoff.Manifest.Table.{all, is_hex_byte}

-- A key is its 32 bytes.
pub record MacKey : Type 0 where
  pub bytes : List ℕ

unfoldable pub from_slice : List ℕ → Result HandoffError MacKey
from_slice bytes = do
  fail_if (not (length bytes == 32)) (validation (text "MAC key must be exactly 32 bytes"))
  ok (record { bytes = bytes })

module _ (ext : External) where
  unfoldable pub from_hex : List ℕ → Result HandoffError MacKey
  from_hex hex_key = do
    fail_if (not (length hex_key == 64) || not (all is_hex_byte hex_key))
        (validation (text "MAC key must be 64 lowercase hexadecimal digits"))
    elim (ext.hex_decode hex_key) [
      | none ↦ err (validation (text "MAC key hex decode failed"))
      | some bytes ↦ ok (record { bytes = bytes })
    ]

  unfoldable pub tag_hex : MacKey → List ℕ → List ℕ
  tag_hex key stream = ext.hex_encode (ext.hmac_sha256 key.bytes stream)

  unfoldable pub verify_hex : MacKey → List ℕ → List ℕ → Result HandoffError (Unit {0})
  verify_hex key stream expected_hex = elim (ext.hex_decode expected_hex) [
    | none ↦ err (validation (text "artifact HMAC tag is not valid hex"))
    | some expected ↦
        fail_if (not (bytes_eq (ext.hmac_sha256 key.bytes stream) expected))
          (validation (text "artifact HMAC tag rejected"))
  ]

  unfoldable pub domain_stream : List ℕ → List ℕ → List ℕ
  domain_stream domain stream =
      ascii "kvpack-domain-mac-v1"
      ++ (0 ∷ length domain / 256 % 256 ∷ length domain % 256 ∷ [])
      ++ domain
      ++ stream

  unfoldable pub domain_ok : List ℕ → Result HandoffError (Unit {0})
  domain_ok domain =
      fail_if (length domain == 0 || ltb 65535 (length domain))
        (validation (text "MAC domain must contain 1..=65535 bytes"))

  unfoldable pub tag_domain_hex : MacKey → List ℕ → List ℕ → Result HandoffError (List ℕ)
  tag_domain_hex key domain stream = do
    domain_ok domain
    ok (ext.hex_encode (ext.hmac_sha256 key.bytes (domain_stream domain stream)))

  unfoldable pub verify_domain_hex :
      MacKey → List ℕ → List ℕ → List ℕ → Result HandoffError (Unit {0})
  verify_domain_hex key domain stream expected_hex = do
    domain_ok domain
    fail_if (not (length expected_hex == 64) || not (all is_hex_byte expected_hex))
        (validation (text "protocol HMAC tag must be 64 lowercase hex characters"))
    elim (ext.hex_decode expected_hex) [
      | none ↦ err (validation (text "protocol HMAC tag is not valid hex"))
      | some expected ↦
          fail_if
            (not (bytes_eq (ext.hmac_sha256 key.bytes (domain_stream domain stream)) expected))
            (validation (text "protocol HMAC tag rejected"))
    ]
