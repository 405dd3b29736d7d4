-- ===== src/Tests/Manifest.antt =====
-- Signing and verifying with crates that are toys: base64 is the identity, every signature is one
-- text, and there is one manifest and one capability.
pub mod Run
mod Witnesses
use nix_seal.Prelude.{ℕ, true, false, none, some, List, [], ◌∷◌, ok}
use nix_seal.Prelude.Text.{Text, codes, text_eq}
use nix_seal.Prelude.Collections.{BTreeMap}
use nix_seal.Libraries.{Libraries, ed25519}
use nix_seal.Keys.Approval.{ApprovalVerificationKey}
use nix_seal.Manifest.Types.{
  TargetManifestV3, DelegatedCreateCapabilityV1, SignedDelegatedCreateCapabilityV1,
  SignedEnvelopeV1, ExpectedBinding, artifact_schema, delegated_create_capability_schema,
}
use nix_seal.Manifest.Crates.{Crates}
use nix_seal.Tests.Sample.{libraries, hash}

abbrev pub manifest : TargetManifestV3
manifest = record {
  schema = artifact_schema;
  tool_version = codes "1";
  plan_hash = hash;
  target_policy_hash = hash;
  artifact_policy_hash = hash;
  source_ciphertext_hash = hash;
  artifact_ciphertext_hash = hash;
  target_id = codes "web";
  secret_id = codes "db";
  recipient_fingerprint = hash;
  artifact_generation = 2;
  issued_at = 100;
  expires_at = some 200;
}

abbrev pub expected : ExpectedBinding
expected = record {
  tool_version = codes "1";
  artifact_policy_hash = hash;
  source_ciphertext_hash = hash;
  artifact_ciphertext_hash = hash;
  target_id = codes "web";
  secret_id = codes "db";
  recipient_fingerprint = hash;
  artifact_generation = 2;
  now = 150;
  allowed_clock_skew = 5;
}

abbrev pub capability : DelegatedCreateCapabilityV1
capability = record {
  schema = delegated_create_capability_schema;
  operation = codes "create";
  capability_id = codes "abcdefghijklmnopqrstuvwxyz012345";
  bootstrap_plan_hash = hash;
  secret_id = codes "db";
  source = codes "secrets/db.age";
  recipient_set_hash = hash;
  plaintext_sha256 = hash;
  max_plaintext_bytes = 100;
  issued_at = 100;
  not_before = 100;
  expires_at = 400;
}

abbrev pub lib : Libraries
lib = record libraries {
  base64_decode = λ s. some s;
  ssh_from_ed25519 = λ s. some (record { algorithm = ed25519; ed25519_bytes = some s });
}

abbrev pub crates : Crates
crates = record {
  base64_encode = λ s. s;
  url_safe_decode = λ s. some s;
  ed25519_public = λ s. s;
  ed25519_sign = λ k m. hash;
  ed25519_signature = λ s. some s;
  ed25519_verify_strict = λ k m s. text_eq s hash;
  ssh_private_key = λ s. none;
  ssh_sign = λ k n m. none;
  sshsig_from_pem = λ s. none;
  ssh_verify = λ k n m s. false;
  sshsig_signed_data = λ n m. none;
  ssh_public_bytes = λ k. none;
  ssh_signature = λ s. none;
  sshsig_new = λ k n s. none;
  ssh_to_openssh = λ k. none;
  manifest_jcs = λ m. some (codes "{}");
  manifest_json = λ s. some manifest;
  capability_jcs = λ c. some (codes "{}");
  capability_json = λ s. some capability;
  agent_exchange = λ s r. none;
}

abbrev pub secret : Text
secret = codes "0123456789abcdef0123456789abcdef"

abbrev pub public : ApprovalVerificationKey
public = record {
  native = secret;
  ssh = record { algorithm = ed25519; ed25519_bytes = some secret };
}
