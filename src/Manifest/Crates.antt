-- ===== src/Manifest/Crates.antt =====
-- The third-party calls of crates/nix-seal-manifest/src/lib.rs: base64, ed25519-dalek, ssh-key, serde
-- and the socket of an SSH agent. Each field is one call, as a function of its input.
use nix_seal.Prelude.{Option, Bool}
use nix_seal.Prelude.Text.{Text}
use nix_seal.Libraries.{SshPublicKey, SshAlgorithm}
use nix_seal.Manifest.Types.{TargetManifestV3, DelegatedCreateCapabilityV1}

-- `ssh_key::PrivateKey`, `ssh_key::SshSig` and `ssh_key::Signature`, as far as they are looked into.
pub record SshPrivateKey : Type 0 where
  pub is_encrypted : Bool
  pub algorithm : SshAlgorithm
  pub public_key : SshPublicKey
  pub secret : Text

pub record SshSig : Type 0 where
  pub algorithm : SshAlgorithm
  pub blob : Text

pub record SshSignature : Type 0 where
  pub algorithm : SshAlgorithm
  pub blob : Text

pub record Crates : Type 0 where
  -- `base64::STANDARD.encode` and `base64::URL_SAFE_NO_PAD.decode`.
  pub base64_encode : Text → Text
  pub url_safe_decode : Text → Option Text
  -- `SigningKey::verifying_key`, `sign(message).to_bytes()`, `Signature::from_slice` and
  -- `VerifyingKey::verify_strict(message, signature)`. A signing key is its 32 bytes.
  pub ed25519_public : Text → Text
  pub ed25519_sign : Text → Text → Text
  pub ed25519_signature : Text → Option Text
  pub ed25519_verify_strict : Text → Text → Text → Bool
  -- `PrivateKey::from_openssh`, and `key.sign(namespace, Sha512, message)` printed as PEM.
  pub ssh_private_key : Text → Option SshPrivateKey
  pub ssh_sign : SshPrivateKey → Text → Text → Option Text
  -- `SshSig::from_pem` and `public_key.verify(namespace, message, signature)`.
  pub sshsig_from_pem : Text → Option SshSig
  pub ssh_verify : SshPublicKey → Text → Text → SshSig → Bool
  -- `SshSig::signed_data(namespace, Sha512, message)`, `public_key.to_bytes()`,
  -- `Signature::try_from(bytes)`, and `SshSig::new(key, namespace, Sha512, signature)` as PEM.
  pub sshsig_signed_data : Text → Text → Option Text
  pub ssh_public_bytes : SshPublicKey → Option Text
  pub ssh_signature : Text → Option SshSignature
  pub sshsig_new : SshPublicKey → Text → SshSignature → Option Text
  -- `public_key.to_openssh()`.
  pub ssh_to_openssh : SshPublicKey → Option Text
  -- `serde_jcs::to_vec` and `serde_json::from_slice` of the two payloads.
  pub manifest_jcs : TargetManifestV3 → Option Text
  pub manifest_json : Text → Option TargetManifestV3
  pub capability_jcs : DelegatedCreateCapabilityV1 → Option Text
  pub capability_json : Text → Option DelegatedCreateCapabilityV1
  -- Connecting to the agent at a socket, writing a request, and all that the agent then sends.
  pub agent_exchange : Text → Text → Option Text
