-- ===== src/Keys/Approval.antt =====
-- crates/nix-seal-manifest/src/lib.rs: the public approval keys, native or OpenSSH, and their
-- identifier.
use nix_seal.Prelude.{
  Bool, true, false, not, none, some, ◌++◌, ◌∷◌, Result, ok, fail_if, ok_or, ◌>>=◌, ◌>>◌, length,
  ◌==◌,
}
use nix_seal.Prelude.Text.{Text, codes, strip_prefix}
use nix_seal.Prelude.Trim.{trim}
use nix_seal.Libraries.{Libraries, SshPublicKey, SshAlgorithm, ed25519, other}

pub data ManifestError : Type 0 where
  random private_key_format public_key_format json version limit time binding : ManifestError
  threshold duplicate_signer untrusted_signer duplicate_trusted_key : ManifestError
  invalid_signature agent_unavailable agent_rejected agent_protocol : ManifestError

abbrev pub public_key_prefix : Text
public_key_prefix = codes "nix-seal-ed25519-v1:"

abbrev pub is_ed25519 : SshAlgorithm → Bool
is_ed25519 ed25519 = true
is_ed25519 other = false

pub record ApprovalVerificationKey : Type 0 where
  pub native : Text
  pub ssh : SshPublicKey

module _ (lib : Libraries) where
  -- The text behind the prefix of a native key.
  unfoldable pub parse_native : Text → Result ManifestError ApprovalVerificationKey
  parse_native body = do
    decoded ← ok_or (lib.base64_decode body) public_key_format
    fail_if (not (length decoded == 32)) public_key_format
    native ← ok_or (lib.verifying_key decoded) public_key_format
    ssh ← ok_or (lib.ssh_from_ed25519 native) public_key_format
    ok (record { native = native; ssh = ssh })

  unfoldable pub parse_openssh : Text → Result ManifestError ApprovalVerificationKey
  parse_openssh value = do
    key ← ok_or (lib.ssh_from_openssh value) public_key_format
    fail_if (not (is_ed25519 key.algorithm)) public_key_format
    bytes ← ok_or key.ed25519_bytes public_key_format
    native ← ok_or (lib.verifying_key bytes) public_key_format
    ok (record { native = native; ssh = key })

  unfoldable pub parse_public_key : Text → Result ManifestError ApprovalVerificationKey
  unfolding parse_native parse_openssh strip_prefix trim
  parse_public_key encoded = elim (strip_prefix (trim encoded) public_key_prefix) [
    | some body ↦ parse_native body
    | none ↦ parse_openssh (trim encoded)
  ]

  unfoldable pub native_key_id : Text → Text
  native_key_id key =
      codes "ed25519:" ++ lib.blake3_hex (codes "nix-seal.ed25519-key-id.v1" ++ 0 ∷ key)

  -- `ApprovalVerificationKey::key_id`.
  unfoldable pub key_id : ApprovalVerificationKey → Text
  unfolding native_key_id
  key_id key = native_key_id key.native

  unfoldable pub validate_public_key : Text → Result ManifestError (Unit {0})
  unfolding parse_public_key
  validate_public_key encoded = do _ ← parse_public_key encoded; ok tt

  unfoldable pub public_key_id : Text → Result ManifestError Text
  unfolding parse_public_key key_id
  public_key_id encoded = do key ← parse_public_key encoded; ok (key_id key)
