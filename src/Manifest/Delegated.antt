-- ===== src/Manifest/Delegated.antt =====
-- crates/nix-seal-manifest/src/lib.rs: the capability to create one ciphertext, signed in a domain of
-- its own.
pub mod Sound
use nix_seal.Prelude.{
  ℕ, ◌-◌, Bool, true, false, not, ◌||◌, Option, some, none, List, [], ◌∷◌, is_empty, length, ltb,
  leb, ◌==◌, Result, ok, err, ◌>>=◌, ◌>>◌, fail_if, ok_or,
}
use nix_seal.Prelude.Text.{Text, codes, text_eq, starts_with, contains_text}
use nix_seal.Prelude.Numbers.{checked_add}
use nix_seal.Prelude.Collections.{BTreeMap, map_values}
use nix_seal.Libraries.{Libraries}
use nix_seal.Keys.Approval.{
  ManifestError, ApprovalVerificationKey, version, limit, json, time, binding, untrusted_signer,
}
use nix_seal.Manifest.Types.{
  DelegatedCreateCapabilityV1, SignedDelegatedCreateCapabilityV1, EnvelopeSignature,
  delegated_create_capability_schema, delegated_capability_payload_type,
  delegated_capability_ssh_namespace, max_delegated_plaintext_bytes, max_payload_bytes,
}
use nix_seal.Manifest.Crates.{Crates}
use nix_seal.Manifest.Pae.{pae}
use nix_seal.Manifest.Keys.{ApprovalSigningKey, accepts, sign_with_namespace}
use nix_seal.Manifest.Envelope.{is_digest, bad_entry, find, verify_signature_entry}

-- The subtraction is made only where it cannot stop at zero: the tests before it are first.
abbrev bad_capability : DelegatedCreateCapabilityV1 → Bool
bad_capability c =
    not (text_eq c.schema delegated_create_capability_schema)
    || not (text_eq c.operation (codes "create"))
    || not (is_digest c.bootstrap_plan_hash)
    || not (is_digest c.recipient_set_hash)
    || not (is_digest c.plaintext_sha256)
    || is_empty c.source
    || starts_with c.source (codes "/")
    || contains_text c.source (codes "..")
    || contains_text c.source (codes "/./")
    || c.max_plaintext_bytes == 0
    || ltb max_delegated_plaintext_bytes c.max_plaintext_bytes
    || ltb c.not_before c.issued_at
    || leb c.expires_at c.not_before
    || ltb 900 (c.expires_at - c.issued_at)

-- `&envelope.signatures[0]`, where there is exactly one.
abbrev only_entry : List EnvelopeSignature → Option EnvelopeSignature
only_entry (entry ∷ []) = some entry
only_entry _ = none

module _ (lib : Libraries) (crates : Crates) where
  unfoldable pub validate_delegated_capability :
      DelegatedCreateCapabilityV1 → Result ManifestError (Unit {0})
  validate_delegated_capability capability = do
    fail_if (bad_capability capability) binding
    id ← ok_or (crates.url_safe_decode capability.capability_id) binding
    fail_if (not (length id == 32)) binding

  unfoldable pub sign_delegated_create_capability :
      DelegatedCreateCapabilityV1
      → ApprovalSigningKey
      → Result ManifestError SignedDelegatedCreateCapabilityV1
  sign_delegated_create_capability capability key = do
    validate_delegated_capability capability
    payload ← ok_or (crates.capability_jcs capability) json
    fail_if (ltb max_payload_bytes (length payload)) limit
    message ← pae delegated_capability_payload_type payload
    signature ← sign_with_namespace lib crates key message delegated_capability_ssh_namespace
    ok (record {
      payload_type = delegated_capability_payload_type;
      payload = crates.base64_encode payload;
      signatures = signature ∷ [];
    })

  -- The window of time that the verification checks.
  unfoldable pub check_window :
      DelegatedCreateCapabilityV1 → ℕ → ℕ → Result ManifestError (Unit {0})
  check_window capability now allowed_clock_skew = do
    latest_issued ← ok_or (checked_add now allowed_clock_skew) time
    fail_if
        (ltb latest_issued capability.issued_at
          || ltb now capability.not_before
          || leb capability.expires_at now)
        time

  -- The end of the verification: the signature is a trusted key's, over the payload under its type.
  unfoldable pub check_signature :
      Text
      → Text
      → EnvelopeSignature
      → BTreeMap Text ApprovalVerificationKey
      → Result ManifestError (Unit {0})
  check_signature payload_type payload entry trusted = do
    message ← pae payload_type payload
    fail_if (bad_entry entry) limit
    key ← ok_or (find (accepts lib crates entry.key_id) (map_values trusted)) untrusted_signer
    verify_signature_entry lib crates entry key message delegated_capability_ssh_namespace

  unfoldable pub verify_delegated_create_capability :
      SignedDelegatedCreateCapabilityV1
      → BTreeMap Text ApprovalVerificationKey
      → ℕ
      → ℕ
      → Result ManifestError DelegatedCreateCapabilityV1
  verify_delegated_create_capability envelope trusted now allowed_clock_skew = do
    entry ←
        ok_or
          (elim (text_eq envelope.payload_type delegated_capability_payload_type) [
            | true ↦ only_entry envelope.signatures
            | false ↦ none
          ])
          version
    payload ← ok_or (lib.base64_decode envelope.payload) json
    fail_if (ltb max_payload_bytes (length payload)) limit
    capability ← ok_or (crates.capability_json payload) json
    validate_delegated_capability capability
    canonical ← ok_or (crates.capability_jcs capability) json
    fail_if (not (text_eq canonical payload)) json
    check_window capability now allowed_clock_skew
    check_signature envelope.payload_type payload entry trusted
    ok capability
