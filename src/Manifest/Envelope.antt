-- ===== src/Manifest/Envelope.antt =====
-- crates/nix-seal-manifest/src/lib.rs: signing, countersigning and verifying the envelope of an
-- artifact.
pub mod Signers
pub mod Countersign
pub mod Decode
pub mod RoundTrip
pub mod Bindings
use nix_seal.Prelude.{
  ℕ, Bool, true, false, not, ◌||◌, ◌&&◌, Option, some, none, List, [], ◌∷◌, ◌++◌, is_empty, length,
  all, any, ltb, leb, ◌==◌, Result, ok, err, ◌>>=◌, ◌>>◌, fail_if, ok_or, fold_each, if◌then◌else◌,
}
use nix_seal.Prelude.Text.{Text, codes, text_eq, text_ord, is_ascii_digit}
use nix_seal.Prelude.Numbers.{checked_add}
use nix_seal.Prelude.Collections.{BTreeMap, contains, set_insert, map_values}
use nix_seal.Libraries.{Libraries}
use nix_seal.Keys.Approval.{
  ManifestError, ApprovalVerificationKey, is_ed25519, key_id, parse_public_key, version, limit,
  json, time, binding, threshold, duplicate_signer, untrusted_signer, invalid_signature,
}
use nix_seal.Manifest.Types.{
  TargetManifestV3, EnvelopeSignature, SignedEnvelopeV1, ExpectedBinding, VerifiedManifest,
  ApprovalSignatureAlgorithm, ed25519_v1, ssh_ed25519_sshsig_v1, artifact_schema, payload_type_v3,
  max_payload_bytes, max_signatures, max_signature_bytes, ssh_signature_namespace,
  possession_proof_ssh_namespace,
}
use nix_seal.Manifest.Crates.{Crates}
use nix_seal.Manifest.Pae.{pae}
use nix_seal.Manifest.Keys.{ApprovalSigningKey, accepts, encode_public, sign, sign_with_namespace}

abbrev is_digest_byte : ℕ → Bool
is_digest_byte c = is_ascii_digit c || (leb b'a' c && leb c b'f')

unfoldable pub is_digest : Text → Bool
is_digest value = length value == 64 && all is_digest_byte value

-- `expires_at.is_some_and(|expiry| …)`.
abbrev pub expires_by : Option ℕ → ℕ → Bool
expires_by none t = false
expires_by (some expiry) t = leb expiry t

unfoldable pub validate_manifest_structure : TargetManifestV3 → Result ManifestError (Unit {0})
unfolding is_digest
validate_manifest_structure manifest = do
  fail_if (not (text_eq manifest.schema artifact_schema) || is_empty manifest.tool_version) version
  fail_if
      (not (is_digest manifest.plan_hash)
        || not (is_digest manifest.target_policy_hash)
        || not (is_digest manifest.artifact_policy_hash)
        || not (is_digest manifest.source_ciphertext_hash)
        || not (is_digest manifest.artifact_ciphertext_hash)
        || not (is_digest manifest.recipient_fingerprint)
        || manifest.artifact_generation == 0)
      binding
  fail_if (expires_by manifest.expires_at manifest.issued_at) time

abbrev differs_from : TargetManifestV3 → ExpectedBinding → Bool
differs_from manifest expected =
    not (text_eq manifest.tool_version expected.tool_version)
    || not (text_eq manifest.artifact_policy_hash expected.artifact_policy_hash)
    || not (text_eq manifest.source_ciphertext_hash expected.source_ciphertext_hash)
    || not (text_eq manifest.artifact_ciphertext_hash expected.artifact_ciphertext_hash)
    || not (text_eq manifest.target_id expected.target_id)
    || not (text_eq manifest.secret_id expected.secret_id)
    || not (text_eq manifest.recipient_fingerprint expected.recipient_fingerprint)
    || not (manifest.artifact_generation == expected.artifact_generation)

unfoldable pub validate_expected :
    TargetManifestV3 → ExpectedBinding → Result ManifestError (Unit {0})
validate_expected manifest expected = do
  latest_issued ← ok_or (checked_add expected.now expected.allowed_clock_skew) time
  fail_if (ltb latest_issued manifest.issued_at || expires_by manifest.expires_at expected.now) time
  fail_if (differs_from manifest expected) binding

abbrev pub bad_entry : EnvelopeSignature → Bool
bad_entry entry = is_empty entry.key_id || ltb max_signature_bytes (length entry.signature)

-- `iter.find(test)`.
unfoldable pub find {ℓ} : {A : Type ℓ} → (A → Bool) → List A → Option A
find test [] = none
find test (x ∷ xs) = let rest = find test xs in if test x then some x else rest

-- What `decode_envelope` returns.
pub record Decoded : Type 0 where
  pub manifest : TargetManifestV3
  pub payload : Text
  pub message : Text

module _ (lib : Libraries) (crates : Crates) where
  unfoldable pub decode_envelope : SignedEnvelopeV1 → Result ManifestError Decoded
  decode_envelope envelope = do
    fail_if (not (text_eq envelope.payload_type payload_type_v3)) version
    fail_if (ltb max_signatures (length envelope.signatures)) limit
    fail_if (any bad_entry envelope.signatures) limit
    payload ← ok_or (lib.base64_decode envelope.payload) json
    fail_if (ltb max_payload_bytes (length payload)) limit
    manifest ← ok_or (crates.manifest_json payload) json
    validate_manifest_structure manifest
    canonical ← ok_or (crates.manifest_jcs manifest) json
    fail_if (not (text_eq canonical payload)) json
    message ← pae envelope.payload_type payload
    ok (record { manifest = manifest; payload = payload; message = message })

  unfoldable pub inspect_unverified : SignedEnvelopeV1 → Result ManifestError TargetManifestV3
  inspect_unverified envelope = do decoded ← decode_envelope envelope; ok decoded.manifest

  unfoldable pub verify_signature_entry :
      EnvelopeSignature → ApprovalVerificationKey → Text → Text → Result ManifestError (Unit {0})
  verify_signature_entry entry key message namespace = elim entry.algorithm [
    | ed25519_v1 ↦ do
      bytes ← ok_or (lib.base64_decode entry.signature) invalid_signature
      signature ← ok_or (crates.ed25519_signature bytes) invalid_signature
      fail_if (not (crates.ed25519_verify_strict key.native message signature)) invalid_signature
    | ssh_ed25519_sshsig_v1 ↦ do
      signature ← ok_or (crates.sshsig_from_pem entry.signature) invalid_signature
      fail_if (not (is_ed25519 signature.algorithm)) invalid_signature
      fail_if (not (crates.ssh_verify key.ssh namespace message signature)) invalid_signature
  ]

  -- `ApprovalSigningKey::prove_possession`.
  unfoldable pub prove_possession : ApprovalSigningKey → Text → Result ManifestError (Unit {0})
  prove_possession key challenge = do
    fail_if (is_empty challenge || ltb max_payload_bytes (length challenge)) limit
    signature ← sign_with_namespace lib crates key challenge possession_proof_ssh_namespace
    encoded ← encode_public lib crates key
    public ← parse_public_key lib encoded
    verify_signature_entry signature public challenge possession_proof_ssh_namespace

  unfoldable pub sign_manifest :
      TargetManifestV3 → ApprovalSigningKey → Result ManifestError SignedEnvelopeV1
  sign_manifest manifest key = do
    validate_manifest_structure manifest
    payload ← ok_or (crates.manifest_jcs manifest) json
    fail_if (ltb max_payload_bytes (length payload)) limit
    message ← pae payload_type_v3 payload
    signature ← sign lib crates key message
    ok (record {
      payload_type = payload_type_v3;
      payload = crates.base64_encode payload;
      signatures = signature ∷ [];
    })

  unfoldable pub add_signature :
      SignedEnvelopeV1 → ApprovalSigningKey → Result ManifestError SignedEnvelopeV1
  add_signature envelope key = do
    decoded ← decode_envelope envelope
    fail_if (leb max_signatures (length envelope.signatures)) limit
    signature ← sign lib crates key decoded.message
    encoded ← encode_public lib crates key
    public ← parse_public_key lib encoded
    fail_if
        (any (λ (e : EnvelopeSignature). accepts lib crates e.key_id public) envelope.signatures)
        duplicate_signer
    ok (record envelope {
      signatures = envelope.signatures ++ signature ∷ [];
      payload = crates.base64_encode decoded.payload;
    })

  module _ (trusted : BTreeMap Text ApprovalVerificationKey) where
    -- The body of the loop of `verify`; `signers` are the keys that have signed so far.
    unfoldable pub verify_entry :
        Text → List Text → EnvelopeSignature → Result ManifestError (List Text)
    verify_entry message signers entry = do
      key ← ok_or (find (accepts lib crates entry.key_id) (map_values trusted)) untrusted_signer
      fail_if (contains (key_id lib key) signers) duplicate_signer
      verify_signature_entry entry key message ssh_signature_namespace
      ok (set_insert (key_id lib key) signers)

    unfoldable pub verify_entries : Text → List EnvelopeSignature → Result ManifestError (List Text)
    verify_entries message entries = fold_each (verify_entry message) [] entries

    unfoldable pub verify :
        SignedEnvelopeV1 → ℕ → ExpectedBinding → Result ManifestError VerifiedManifest
    verify envelope needed expected = do
      fail_if (needed == 0 || ltb (length trusted) needed || is_empty envelope.signatures) threshold
      decoded ← decode_envelope envelope
      validate_expected decoded.manifest expected
      signers ← verify_entries decoded.message envelope.signatures
      fail_if (ltb (length signers) needed) threshold
      ok (record { manifest = decoded.manifest; signers = signers })
