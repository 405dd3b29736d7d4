-- ===== src/Manifest/Keys.antt =====
-- crates/nix-seal-manifest/src/lib.rs: the private approval keys and the set of trusted ones.
pub mod Trusted
use nix_seal.Prelude.{
  ℕ, Bool, true, false, not, ◌||◌, Option, some, none, List, [], ◌∷◌, ◌++◌, is_empty, length, ltb,
  ◌==◌, keep, Result, ok, err, ◌>>=◌, ◌>>◌, fail_if, ok_or, if◌then◌else◌,
}
use nix_seal.Prelude.Text.{is_ascii_whitespace, Text, codes, strip_prefix, text_eq, text_ord, grow}
use nix_seal.Prelude.Trim.{trim}
use nix_seal.Prelude.Collections.{BTreeMap, contains_key, map_insert}
use nix_seal.Libraries.{Libraries, SshPublicKey}
use nix_seal.Keys.Approval.{
  ManifestError, ApprovalVerificationKey, public_key_prefix, is_ed25519, parse_public_key,
  native_key_id, key_id, random, private_key_format, public_key_format, limit, invalid_signature,
  agent_protocol, duplicate_trusted_key,
}
use nix_seal.Manifest.Types.{
  EnvelopeSignature, ed25519_v1, ssh_ed25519_sshsig_v1, private_key_prefix, ssh_agent_key_prefix,
  max_signature_bytes, max_payload_bytes, ssh_signature_namespace,
}
use nix_seal.Manifest.Crates.{Crates, SshPrivateKey}
use nix_seal.Manifest.Agent.{to_be_bytes, validate_agent_socket, ssh_agent_sign}

-- On Unix. A native key is its 32 bytes.
pub data ApprovalSigningKey : Type 0 where
  native_key : Text → ApprovalSigningKey
  ssh_key : SshPrivateKey → ApprovalSigningKey
  ssh_agent_key : SshPublicKey → Text → ApprovalSigningKey

-- The fields between white space: `split_ascii_whitespace`.
unfoldable pub split_whitespace : Text → List Text
split_whitespace [] = [] ∷ []
split_whitespace (c ∷ s) =
    let rest = split_whitespace s in if is_ascii_whitespace c then [] ∷ rest else grow c rest

abbrev pub first_two : List Text → Result ManifestError (Text × Text)
first_two (a ∷ b ∷ _) = ok (a, b)
first_two _ = err public_key_format

-- `ApprovalSigningKey::generate`, of the bytes that the system's generator fills in.
unfoldable pub generate : Option Text → Result ManifestError ApprovalSigningKey
generate bytes = do key ← ok_or bytes random; ok (native_key key)

module _ (lib : Libraries) (crates : Crates) where
  unfoldable pub normalize_ssh_public_key : SshPublicKey → Result ManifestError Text
  unfolding split_whitespace
  normalize_ssh_public_key key = do
    encoded ← ok_or (crates.ssh_to_openssh key) public_key_format
    (algorithm, body) ← first_two (keep (λ f. not (is_empty f)) (split_whitespace encoded))
    fail_if (not (text_eq algorithm (codes "ssh-ed25519"))) public_key_format
    ok (algorithm ++ b' ' ∷ body)

  unfoldable pub canonical_ssh_key_id : SshPublicKey → Result ManifestError Text
  canonical_ssh_key_id key = do
    bytes ← ok_or key.ed25519_bytes public_key_format
    verifying ← ok_or (lib.verifying_key bytes) public_key_format
    ok (native_key_id lib verifying)

  unfoldable pub legacy_ssh_key_id_bytes : Text → Text
  unfolding to_be_bytes
  legacy_ssh_key_id_bytes bytes =
      let blob = to_be_bytes 11 ++ (codes "ssh-ed25519" ++ (to_be_bytes 32 ++ bytes)) in
      codes "ssh-ed25519:"
      ++ lib.blake3_hex (
          codes "nix-seal.ssh-ed25519-key-id.v1"
          ++ 0 ∷ (codes "ssh-ed25519 " ++ crates.base64_encode blob))

  unfoldable pub legacy_ssh_key_id : SshPublicKey → Result ManifestError Text
  legacy_ssh_key_id key = do
    bytes ← ok_or key.ed25519_bytes public_key_format
    ok (legacy_ssh_key_id_bytes bytes)

  unfoldable pub encode_public_key : Text → Text
  encode_public_key key = public_key_prefix ++ crates.base64_encode key

  -- `ApprovalVerificationKey::accepts_wire_id`.
  unfoldable pub accepts_wire_id : ApprovalVerificationKey → Text → Result ManifestError Bool
  accepts_wire_id key wire_id =
      if text_eq wire_id (native_key_id lib key.native)
      then ok true
      else (do id ← legacy_ssh_key_id key.ssh; ok (text_eq wire_id id))

  -- `key.accepts_wire_id(wire_id).unwrap_or(false)`.
  abbrev pub or_false : Result ManifestError Bool → Bool
  or_false (ok b) = b
  or_false (err e) = false

  unfoldable pub accepts : Text → ApprovalVerificationKey → Bool
  accepts wire_id key = or_false (accepts_wire_id key wire_id)

  unfoldable pub parse_signing_key : Text → Result ManifestError ApprovalSigningKey
  unfolding strip_prefix trim
  parse_signing_key encoded = elim (strip_prefix (trim encoded) private_key_prefix) [
    | some body ↦ do
      decoded ← ok_or (lib.base64_decode body) private_key_format
      fail_if (not (length decoded == 32)) private_key_format
      ok (native_key decoded)
    | none ↦ do
      key ← ok_or (crates.ssh_private_key (trim encoded)) private_key_format
      fail_if (key.is_encrypted || not (is_ed25519 key.algorithm)) private_key_format
      ok (ssh_key key)
  ]

  unfoldable pub parse_ssh_public_key : Text → Result ManifestError SshPublicKey
  unfolding trim
  parse_ssh_public_key encoded = do
    key ← ok_or (lib.ssh_from_openssh (trim encoded)) public_key_format
    fail_if (not (is_ed25519 key.algorithm)) public_key_format
    ok key

  unfoldable pub parse_with_agent : Text → Text → Result ManifestError ApprovalSigningKey
  unfolding strip_prefix trim
  parse_with_agent encoded socket = elim (strip_prefix (trim encoded) ssh_agent_key_prefix) [
    | some body ↦ do
      path ← validate_agent_socket socket
      key ← parse_ssh_public_key body
      ok (ssh_agent_key key path)
    | none ↦ parse_signing_key (trim encoded)
  ]

  unfoldable pub encode_private : ApprovalSigningKey → Result ManifestError Text
  encode_private (native_key key) = ok (private_key_prefix ++ crates.base64_encode key)
  encode_private (ssh_key key) = err private_key_format
  encode_private (ssh_agent_key key socket) = err private_key_format

  unfoldable pub encode_public : ApprovalSigningKey → Result ManifestError Text
  encode_public (native_key key) = ok (encode_public_key (crates.ed25519_public key))
  encode_public (ssh_key key) = normalize_ssh_public_key key.public_key
  encode_public (ssh_agent_key key socket) = normalize_ssh_public_key key

  unfoldable pub signing_key_id : ApprovalSigningKey → Result ManifestError Text
  signing_key_id (native_key key) = ok (native_key_id lib (crates.ed25519_public key))
  signing_key_id (ssh_key key) = canonical_ssh_key_id key.public_key
  signing_key_id (ssh_agent_key key socket) = canonical_ssh_key_id key

  -- `parse_public_key(encoded).is_ok_and(…)`.
  abbrev pub has_id : Text → Result ManifestError ApprovalVerificationKey → Bool
  has_id id (ok key) = text_eq (key_id lib key) id
  has_id id (err e) = false

  abbrev pub matches_parsed : Result ManifestError Text → Text → Bool
  matches_parsed (ok id) encoded = has_id id (parse_public_key lib encoded)
  matches_parsed (err e) encoded = false

  unfoldable pub matches_public_key : ApprovalSigningKey → Text → Bool
  unfolding parse_public_key key_id
  matches_public_key key encoded = matches_parsed (signing_key_id key) encoded

  -- The entry of a signature by an OpenSSH key, with its limit on the size.
  unfoldable pub sshsig_entry : SshPublicKey → Text → Result ManifestError EnvelopeSignature
  sshsig_entry key signature = do
    fail_if (ltb max_signature_bytes (length signature)) limit
    id ← legacy_ssh_key_id key
    ok (record { key_id = id; algorithm = ssh_ed25519_sshsig_v1; signature = signature })

  unfoldable pub sign_with_namespace :
      ApprovalSigningKey → Text → Text → Result ManifestError EnvelopeSignature
  sign_with_namespace (native_key key) message namespace = ok (record {
    key_id = native_key_id lib (crates.ed25519_public key);
    algorithm = ed25519_v1;
    signature = crates.base64_encode (crates.ed25519_sign key message);
  })
  sign_with_namespace (ssh_key key) message namespace = do
    signature ← ok_or (crates.ssh_sign key namespace message) invalid_signature
    sshsig_entry key.public_key signature
  sign_with_namespace (ssh_agent_key key socket) message namespace = do
    signed_data ← ok_or (crates.sshsig_signed_data namespace message) invalid_signature
    key_blob ← ok_or (crates.ssh_public_bytes key) invalid_signature
    signature ← ssh_agent_sign crates socket key_blob signed_data
    fail_if (not (is_ed25519 signature.algorithm)) agent_protocol
    encoded ← ok_or (crates.sshsig_new key namespace signature) invalid_signature
    sshsig_entry key encoded

  unfoldable pub sign : ApprovalSigningKey → Text → Result ManifestError EnvelopeSignature
  sign key message = sign_with_namespace key message ssh_signature_namespace

  -- `TrustedKeys::insert_encoded` returns the set with the new key, and its identifier.
  unfoldable pub insert_encoded :
      BTreeMap Text ApprovalVerificationKey
      → Text
      → Result ManifestError (BTreeMap Text ApprovalVerificationKey × Text)
  insert_encoded trusted encoded = do
    key ← parse_public_key lib encoded
    fail_if (contains_key (key_id lib key) trusted) duplicate_trusted_key
    ok (map_insert (key_id lib key) key trusted, key_id lib key)
