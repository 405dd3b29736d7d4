-- ===== src/Manifest/Types.antt =====
-- crates/nix-seal-manifest/src/lib.rs: the manifest of an artifact, its envelope, and the values that
-- a caller expects. What serde derives is not modelled.
use nix_seal.Prelude.{ℕ, ◌*◌, Option, List}
use nix_seal.Prelude.Text.{Text, codes}
use nix_seal.Core.Id.{Identifier}

abbrev pub artifact_schema : Text
artifact_schema = codes "nix-seal.artifact.v3"

abbrev pub payload_type_v3 : Text
payload_type_v3 = codes "application/vnd.nix-seal.target-manifest.v3+json"

abbrev pub private_key_prefix : Text
private_key_prefix = codes "NIX-SEAL-ED25519-PRIVATE-v1:"

abbrev pub ssh_agent_key_prefix : Text
ssh_agent_key_prefix = codes "NIX-SEAL-SSH-AGENT-ED25519-v1:"

abbrev pub max_payload_bytes : ℕ
max_payload_bytes = 1024 * 1024

abbrev pub max_signatures : ℕ
max_signatures = 256

abbrev pub max_signature_bytes : ℕ
max_signature_bytes = 32 * 1024

abbrev pub max_agent_message_bytes : ℕ
max_agent_message_bytes = 1024 * 1024

abbrev pub agent_request_sign : ℕ
agent_request_sign = 13

abbrev pub agent_failure : ℕ
agent_failure = 5

abbrev pub agent_sign_response : ℕ
agent_sign_response = 14

abbrev pub ssh_signature_namespace : Text
ssh_signature_namespace = codes "nix-seal-artifact-v3"

abbrev pub delegated_capability_payload_type : Text
delegated_capability_payload_type =
    codes "application/vnd.nix-seal.delegated-create-capability.v1+json"

abbrev pub delegated_capability_ssh_namespace : Text
delegated_capability_ssh_namespace = codes "nix-seal-delegated-create-capability-v1"

abbrev pub possession_proof_ssh_namespace : Text
possession_proof_ssh_namespace = codes "nix-seal-key-possession-v1"

abbrev pub delegated_create_capability_schema : Text
delegated_create_capability_schema = codes "nix-seal.delegated-create-capability.v1"

abbrev pub max_delegated_plaintext_bytes : ℕ
max_delegated_plaintext_bytes = 65536

pub record TargetManifestV3 : Type 0 where
  pub schema : Text
  pub tool_version : Text
  pub plan_hash : Text
  pub target_policy_hash : Text
  pub artifact_policy_hash : Text
  pub source_ciphertext_hash : Text
  pub artifact_ciphertext_hash : Text
  pub target_id : Identifier
  pub secret_id : Identifier
  pub recipient_fingerprint : Text
  pub artifact_generation : ℕ
  pub issued_at : ℕ
  pub expires_at : Option ℕ

pub data ApprovalSignatureAlgorithm : Type 0 where
  ed25519_v1 ssh_ed25519_sshsig_v1 : ApprovalSignatureAlgorithm

pub record EnvelopeSignature : Type 0 where
  pub key_id : Text
  pub algorithm : ApprovalSignatureAlgorithm
  pub signature : Text

pub record SignedEnvelopeV1 : Type 0 where
  pub payload_type : Text
  pub payload : Text
  pub signatures : List EnvelopeSignature

pub record DelegatedCreateCapabilityV1 : Type 0 where
  pub schema : Text
  pub operation : Text
  pub capability_id : Text
  pub bootstrap_plan_hash : Text
  pub secret_id : Identifier
  pub source : Text
  pub recipient_set_hash : Text
  pub plaintext_sha256 : Text
  pub max_plaintext_bytes : ℕ
  pub issued_at : ℕ
  pub not_before : ℕ
  pub expires_at : ℕ

pub record SignedDelegatedCreateCapabilityV1 : Type 0 where
  pub payload_type : Text
  pub payload : Text
  pub signatures : List EnvelopeSignature

pub record ExpectedBinding : Type 0 where
  pub tool_version : Text
  pub artifact_policy_hash : Text
  pub source_ciphertext_hash : Text
  pub artifact_ciphertext_hash : Text
  pub target_id : Identifier
  pub secret_id : Identifier
  pub recipient_fingerprint : Text
  pub artifact_generation : ℕ
  pub now : ℕ
  pub allowed_clock_skew : ℕ

-- `signers` is a set of key identifiers.
pub record VerifiedManifest : Type 0 where
  pub manifest : TargetManifestV3
  pub signers : List Text
