-- ===== src/Tests/Manifest/Run.antt =====
-- `unfolding sign_run` lets a test compute with the signing of manifests.
use nix_seal.Manifest.Agent.{
  to_be_bytes, from_be_bytes, validate_agent_socket, read_agent_string, checked_sum, agent_request,
  encode_request, read_exact, read_response, read_stream, ssh_agent_sign,
}
use nix_seal.Manifest.Delegated.{
  validate_delegated_capability, sign_delegated_create_capability, check_window, check_signature,
  verify_delegated_create_capability,
}
use nix_seal.Manifest.Envelope.{
  is_digest, validate_manifest_structure, validate_expected, find, decode_envelope,
  inspect_unverified, verify_signature_entry, prove_possession, sign_manifest, add_signature,
  verify_entry, verify_entries, verify,
}
use nix_seal.Manifest.Keys.{
  split_whitespace, generate, normalize_ssh_public_key, canonical_ssh_key_id,
  legacy_ssh_key_id_bytes, legacy_ssh_key_id, encode_public_key, accepts_wire_id, accepts,
  parse_signing_key, parse_ssh_public_key, parse_with_agent, encode_private, encode_public,
  signing_key_id, matches_public_key, sshsig_entry, sign_with_namespace, sign, insert_encoded,
}
use nix_seal.Manifest.Pae.{digits, to_string, capacity, pae}

unfoldable pub sign_run : Unit {0}
unfolding to_be_bytes from_be_bytes validate_agent_socket read_agent_string checked_sum
    agent_request encode_request read_exact read_response read_stream ssh_agent_sign
    validate_delegated_capability sign_delegated_create_capability check_window check_signature
    verify_delegated_create_capability is_digest validate_manifest_structure validate_expected find
    decode_envelope inspect_unverified verify_signature_entry prove_possession sign_manifest
    add_signature verify_entry verify_entries verify split_whitespace generate
    normalize_ssh_public_key canonical_ssh_key_id legacy_ssh_key_id_bytes legacy_ssh_key_id
    encode_public_key accepts_wire_id accepts parse_signing_key parse_ssh_public_key
    parse_with_agent encode_private encode_public signing_key_id matches_public_key sshsig_entry
    sign_with_namespace sign insert_encoded digits to_string capacity pae
sign_run = tt
