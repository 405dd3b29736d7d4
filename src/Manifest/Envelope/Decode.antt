-- ===== src/Manifest/Envelope/Decode.antt =====
-- crates/nix-seal-manifest/src/lib.rs, `decode_envelope`: what a decoded envelope is.
use nix_seal.Prelude.{
  ◌≤◌, ◌≡◌, subst, false, not, ltb, some, length, any, arith, ok, fail_if, ok_or, >>=-eq-ok,
  >>-eq-ok, fail_if-eq-ok, ok_or-eq-ok, ok_injective,
}
use nix_seal.Prelude.Text.{Text, text_eq, text_eq_iff}
use nix_seal.Libraries.{Libraries}
use nix_seal.Keys.Approval.{ManifestError, version, limit, json}
use nix_seal.Manifest.Types.{SignedEnvelopeV1, payload_type_v3, max_payload_bytes, max_signatures}
use nix_seal.Manifest.Crates.{Crates}
use nix_seal.Manifest.Pae.{pae}
use nix_seal.Manifest.Envelope.{Decoded, bad_entry, validate_manifest_structure, decode_envelope}

pub not_eq-same : (s t : Text) (e : ManifestError) → fail_if (not (text_eq s t)) e ≡ ok tt → s ≡ t
not_eq-same s t e h =
    (text_eq_iff s t).0 (let k = fail_if-eq-ok (not (text_eq s t)) e h in ground arith)

module _ (lib : Libraries) (crates : Crates) where
  -- The payload of a decoded envelope is the one canonical text of a manifest that is well formed,
  -- and is within the limits.
  pub record IsDecoded (envelope : SignedEnvelopeV1) (decoded : Decoded) : Type 0 where
    pub of_type : envelope.payload_type ≡ payload_type_v3
    pub few : length envelope.signatures ≤ max_signatures
    pub entries : any bad_entry envelope.signatures ≡ false
    pub is_payload : lib.base64_decode envelope.payload ≡ some decoded.payload
    pub small : length decoded.payload ≤ max_payload_bytes
    pub parsed : crates.manifest_json decoded.payload ≡ some decoded.manifest
    pub valid : validate_manifest_structure decoded.manifest ≡ ok tt
    pub canonical : crates.manifest_jcs decoded.manifest ≡ some decoded.payload
    pub encoded : pae payload_type_v3 decoded.payload ≡ ok decoded.message

  pub decode_envelope-IsDecoded :
      (envelope : SignedEnvelopeV1) (decoded : Decoded)
      → decode_envelope lib crates envelope ≡ ok decoded
      → IsDecoded envelope decoded
  unfolding decode_envelope
  decode_envelope-IsDecoded envelope decoded h =
      let (of_type, h1) =
        >>-eq-ok (fail_if (not (text_eq envelope.payload_type payload_type_v3)) version) _ h in
      let (few, h2) =
        >>-eq-ok (fail_if (ltb max_signatures (length envelope.signatures)) limit) _ h1 in
      let (entries, h3) = >>-eq-ok (fail_if (any bad_entry envelope.signatures) limit) _ h2 in
      let (payload, is_payload, h4) =
        >>=-eq-ok (ok_or (lib.base64_decode envelope.payload) json) _ h3 in
      let (small, h5) = >>-eq-ok (fail_if (ltb max_payload_bytes (length payload)) limit) _ h4 in
      let (manifest, parsed, h6) = >>=-eq-ok (ok_or (crates.manifest_json payload) json) _ h5 in
      let (valid, h7) = >>-eq-ok (validate_manifest_structure manifest) _ h6 in
      let (canonical, printed, h8) = >>=-eq-ok (ok_or (crates.manifest_jcs manifest) json) _ h7 in
      let (same, h9) = >>-eq-ok (fail_if (not (text_eq canonical payload)) json) _ h8 in
      let (message, encoded, h10) = >>=-eq-ok (pae envelope.payload_type payload) _ h9 in
      let right_type = not_eq-same envelope.payload_type payload_type_v3 version of_type in
      let few_test = fail_if-eq-ok (ltb max_signatures (length envelope.signatures)) limit few in
      let small_test = fail_if-eq-ok (ltb max_payload_bytes (length payload)) limit small in
      subst (IsDecoded envelope) (ok_injective h10) (record {
        of_type = right_type;
        few = ground arith;
        entries = fail_if-eq-ok (any bad_entry envelope.signatures) limit entries;
        is_payload = ok_or-eq-ok (lib.base64_decode envelope.payload) json is_payload;
        small = ground arith;
        parsed = ok_or-eq-ok (crates.manifest_json payload) json parsed;
        valid = valid;
        canonical =
            subst (λ p. crates.manifest_jcs manifest ≡ some p)
              (not_eq-same canonical payload json same)
              (ok_or-eq-ok (crates.manifest_jcs manifest) json printed);
        encoded = subst (λ t. pae t payload ≡ ok message) right_type encoded;
      })
