-- ===== src/Tests/Manifest/Witnesses.antt =====
-- The theorems on envelopes, capabilities and keys at the samples.
use nix_seal.Prelude.{◌+◌, ◌≡◌, ◌≢◌, refl, [], ◌∷◌, ◌++◌, ok, err, length, arith}
use nix_seal.Prelude.Text.{Text, codes, text_eq}
use nix_seal.Prelude.Collections.{BTreeMap}
use nix_seal.Keys.Approval.{
  ApprovalVerificationKey, key_id, duplicate_signer, duplicate_trusted_key, public_key_prefix,
}
use nix_seal.Manifest.Types.{
  EnvelopeSignature, SignedEnvelopeV1, SignedDelegatedCreateCapabilityV1, VerifiedManifest,
  ed25519_v1, payload_type_v3, delegated_capability_payload_type,
}
use nix_seal.Manifest.Pae.{encoding}
use nix_seal.Manifest.Pae.Injective.{pae_injective}
use nix_seal.Manifest.Agent.{to_be_bytes, read_agent_string, agent_request}
use nix_seal.Manifest.Agent.Frames.{IsRequest, encode_request-IsRequest}
use nix_seal.Manifest.Keys.{native_key, insert_encoded}
use nix_seal.Manifest.Keys.Trusted.{IsInserted, insert_encoded-IsInserted, insert_encoded-duplicate}
use nix_seal.Manifest.Envelope.{Decoded, verify, add_signature}
use nix_seal.Manifest.Envelope.Bindings.{IsVerified, verify-IsVerified}
use nix_seal.Manifest.Envelope.Countersign.{
  IsAdded, add_signature-IsAdded, add_signature-duplicate_signer,
}
use nix_seal.Manifest.Envelope.RoundTrip.{HasLaws, verify-sign_manifest}
use nix_seal.Manifest.Delegated.Sound.{
  IsAllowed, verify_delegated-IsAllowed, capability_message-apart,
}
use nix_seal.Tests.Manifest.{manifest, expected, capability, lib, crates, secret, public}
use nix_seal.Tests.Sample.{hash}
use nix_seal.Tests.Run.{run}
use nix_seal.Tests.Manifest.Run.{sign_run}

abbrev id : Text
id = codes "ed25519:nix-seal.ed25519-key-id.v1" ++ 0 ∷ secret

abbrev entry : EnvelopeSignature
entry = record { key_id = id; algorithm = ed25519_v1; signature = hash }

abbrev signed : SignedEnvelopeV1
signed = record { payload_type = payload_type_v3; payload = codes "{}"; signatures = entry ∷ [] }

abbrev unsigned : SignedEnvelopeV1
unsigned = record { payload_type = payload_type_v3; payload = codes "{}"; signatures = [] }

abbrev trusted : BTreeMap Text ApprovalVerificationKey
trusted = (id, public) ∷ []

abbrev verified : VerifiedManifest
verified = record { manifest = manifest; signers = id ∷ [] }

abbrev decoded : Decoded
decoded = record {
  manifest = manifest;
  payload = codes "{}";
  message = encoding payload_type_v3 (codes "{}");
}

abbrev delegated : SignedDelegatedCreateCapabilityV1
delegated = record {
  payload_type = delegated_capability_payload_type;
  payload = codes "{}";
  signatures = entry ∷ [];
}

laws : HasLaws lib crates
unfolding sign_run text_eq
laws = record {
  base64_decode-base64_encode = λ s. refl;
  length-base64_encode = λ s. omega arith;
  length-ed25519_sign = λ k m. refl;
  ed25519_signature-sign = λ k m. refl;
  ed25519_verify_strict-sign = λ k m. refl;
}

verify-IsVerified_example : IsVerified lib crates trusted signed 1 expected verified
unfolding run sign_run
verify-IsVerified_example = verify-IsVerified lib crates trusted signed 1 expected verified refl

verify-sign_manifest_example :
    verify lib crates ((key_id lib public, public) ∷ []) signed 1 expected
    ≡ ok (record { manifest = manifest; signers = key_id lib public ∷ [] })
unfolding run sign_run
verify-sign_manifest_example =
    verify-sign_manifest lib crates laws secret public refl manifest signed refl (λ payload e. refl)
      expected refl

add_signature-IsAdded_example : IsAdded lib crates laws unsigned (native_key secret) signed
unfolding run sign_run
add_signature-IsAdded_example =
    add_signature-IsAdded lib crates laws unsigned (native_key secret) signed refl

add_signature-duplicate_signer_example :
    add_signature lib crates signed (native_key secret) ≡ err duplicate_signer
unfolding run sign_run
add_signature-duplicate_signer_example =
    add_signature-duplicate_signer lib crates laws unsigned secret signed public refl refl
      (omega arith) refl

verify_delegated-IsAllowed_example : IsAllowed lib crates delegated trusted 150 5 capability
unfolding run sign_run
verify_delegated-IsAllowed_example =
    verify_delegated-IsAllowed lib crates delegated trusted 150 5 capability refl

capability_message-apart_example :
    encoding payload_type_v3 (codes "{}") ≢ encoding delegated_capability_payload_type (codes "{}")
unfolding run sign_run
capability_message-apart_example =
    capability_message-apart lib crates signed decoded (codes "{}")
      (encoding delegated_capability_payload_type (codes "{}")) refl refl

pae_injective_example : (payload_type_v3 ≡ payload_type_v3) × (codes "{}" ≡ codes "{}")
unfolding run sign_run
pae_injective_example =
    pae_injective payload_type_v3 payload_type_v3 (codes "{}") (codes "{}")
      (encoding payload_type_v3 (codes "{}")) refl refl

read_agent_string_runs :
    read_agent_string (to_be_bytes (length secret) ++ (secret ++ hash)) ≡ ok (secret, hash)
unfolding run sign_run
read_agent_string_runs = refl

encode_request-IsRequest_example :
    IsRequest secret hash (agent_request (13 + 32 + 64) 32 64 secret hash)
unfolding run sign_run
encode_request-IsRequest_example =
    encode_request-IsRequest secret hash (agent_request (13 + 32 + 64) 32 64 secret hash) refl

insert_encoded-IsInserted_example : IsInserted lib [] trusted id (public_key_prefix ++ secret)
unfolding run sign_run
insert_encoded-IsInserted_example =
    insert_encoded-IsInserted lib crates [] (public_key_prefix ++ secret) trusted id refl

insert_encoded-duplicate_example :
    insert_encoded lib crates trusted (public_key_prefix ++ secret) ≡ err duplicate_trusted_key
unfolding run sign_run
insert_encoded-duplicate_example =
    insert_encoded-duplicate lib crates [] (public_key_prefix ++ secret) trusted id refl
      (public_key_prefix ++ secret) public refl refl
