-- ===== src/Manifest/Envelope/RoundTrip.antt =====
-- crates/nix-seal-manifest/src/lib.rs, `sign_manifest` and `verify`: what is signed with a native key
-- is verified with that key.
use nix_seal.Prelude.{
  ◌+◌, ◌*◌, ◌/◌, ◌≤◌, ◌≡◌, refl, true, false, ltb, some, [], ◌∷◌, length, arith, ok, fail_if, ok_or,
  >>=-eq-ok, >>-eq-ok, fail_if-eq-ok, ok_or-eq-ok, ok_injective,
}
use nix_seal.Prelude.Text.{Text, text_eq_refl}
use nix_seal.Prelude.Collections.{contains, set_insert, place}
use nix_seal.Libraries.{Libraries}
use nix_seal.Keys.Approval.{ApprovalVerificationKey, native_key_id, key_id, limit, json}
use nix_seal.Manifest.Types.{
  TargetManifestV3, EnvelopeSignature, SignedEnvelopeV1, ExpectedBinding, ed25519_v1,
  payload_type_v3, max_payload_bytes, ssh_signature_namespace,
}
use nix_seal.Manifest.Crates.{Crates}
use nix_seal.Manifest.Pae.{pae}
use nix_seal.Manifest.Keys.{accepts, accepts_wire_id, native_key, sign, sign_with_namespace}
use nix_seal.Manifest.Envelope.{
  bad_entry, find, validate_manifest_structure, validate_expected, decode_envelope, sign_manifest,
  verify_signature_entry, verify_entry, verify_entries, verify,
}

module _ (lib : Libraries) (crates : Crates) where
  -- What the code relies on of base64 and ed25519-dalek: decoding undoes encoding, which is longer by
  -- no more than a third, and a signature has 64 bytes and is valid under the key of its signer.
  pub record HasLaws : Type 0 where
    pub base64_decode-base64_encode :
        (s : Text) → lib.base64_decode (crates.base64_encode s) ≡ some s
    pub length-base64_encode :
        (s : Text) → length (crates.base64_encode s) ≤ 4 * ((length s + 2) / 3)
    pub length-ed25519_sign : (key message : Text) → length (crates.ed25519_sign key message) ≡ 64
    pub ed25519_signature-sign :
        (key message : Text)
        → crates.ed25519_signature (crates.ed25519_sign key message)
          ≡ some (crates.ed25519_sign key message)
    pub ed25519_verify_strict-sign :
        (key message : Text)
        → crates.ed25519_verify_strict
            (crates.ed25519_public key)
            message
            (crates.ed25519_sign key message)
          ≡ true

  -- The entry that a native key signs.
  abbrev native_entry : Text → Text → EnvelopeSignature
  native_entry secret message = record {
    key_id = native_key_id lib (crates.ed25519_public secret);
    algorithm = ed25519_v1;
    signature = crates.base64_encode (crates.ed25519_sign secret message);
  }

  module _ (laws : HasLaws) (secret : Text) where
    native_entry-bad_entry : (message : Text) → bad_entry (native_entry secret message) ≡ false
    unfolding native_key_id
    native_entry-bad_entry message = ground (
      arith,
      laws.length-ed25519_sign secret message,
      laws.length-base64_encode (crates.ed25519_sign secret message),
    )

    native_entry-verified :
        (message namespace : Text) (key : ApprovalVerificationKey)
        → key.native ≡ crates.ed25519_public secret
        → verify_signature_entry lib crates (native_entry secret message) key message namespace
          ≡ ok tt
    unfolding verify_signature_entry
    native_entry-verified message namespace key same =
        rw
          (
            same,
            laws.base64_decode-base64_encode (crates.ed25519_sign secret message),
            laws.ed25519_signature-sign secret message,
            laws.ed25519_verify_strict-sign secret message,
          )
          refl

    native_entry-accepts :
        (message : Text) (key : ApprovalVerificationKey)
        → key.native ≡ crates.ed25519_public secret
        → accepts lib crates (native_entry secret message).key_id key ≡ true
    unfolding accepts accepts_wire_id
    native_entry-accepts message key same =
        rw (same, text_eq_refl (native_key_id lib (crates.ed25519_public secret))) refl

    -- The parts of a signed envelope.
    pub sign_manifest-eq-ok :
        (manifest : TargetManifestV3) (envelope : SignedEnvelopeV1)
        → sign_manifest lib crates manifest (native_key secret) ≡ ok envelope
        → (payload : Text) × (message : Text) × (validate_manifest_structure manifest ≡ ok tt)
          × (crates.manifest_jcs manifest ≡ some payload)
          × (ltb max_payload_bytes (length payload) ≡ false)
          × (pae payload_type_v3 payload ≡ ok message)
          × (◌≡◌ {A = SignedEnvelopeV1}
              (record {
                payload_type = payload_type_v3;
                payload = crates.base64_encode payload;
                signatures = native_entry secret message ∷ [];
              })
              envelope)
    unfolding sign_manifest sign sign_with_namespace
    sign_manifest-eq-ok manifest envelope h =
        let (valid, h1) = >>-eq-ok (validate_manifest_structure manifest) _ h in
        let (payload, printed, h2) = >>=-eq-ok (ok_or (crates.manifest_jcs manifest) json) _ h1 in
        let (small, h3) = >>-eq-ok (fail_if (ltb max_payload_bytes (length payload)) limit) _ h2 in
        let (message, encoded, h4) = >>=-eq-ok (pae payload_type_v3 payload) _ h3 in
        (
          payload,
          message,
          valid,
          ok_or-eq-ok (crates.manifest_jcs manifest) json printed,
          fail_if-eq-ok (ltb max_payload_bytes (length payload)) limit small,
          encoded,
          ok_injective h4,
        )

    decode_envelope-signed :
        (manifest : TargetManifestV3) (payload message : Text)
        → validate_manifest_structure manifest ≡ ok tt
        → crates.manifest_jcs manifest ≡ some payload
        → crates.manifest_json payload ≡ some manifest
        → ltb max_payload_bytes (length payload) ≡ false
        → pae payload_type_v3 payload ≡ ok message
        → decode_envelope lib crates (record {
          payload_type = payload_type_v3;
          payload = crates.base64_encode payload;
          signatures = native_entry secret message ∷ [];
        })
          ≡ ok (record { manifest = manifest; payload = payload; message = message })
    unfolding decode_envelope
    decode_envelope-signed manifest payload message valid printed parsed small encoded =
        rw
          (
            text_eq_refl payload_type_v3,
            native_entry-bad_entry message,
            laws.base64_decode-base64_encode payload,
            small,
            parsed,
            valid,
            printed,
            text_eq_refl payload,
            encoded,
          )
          refl

    verify_entries-signed :
        (message : Text) (key : ApprovalVerificationKey)
        → key.native ≡ crates.ed25519_public secret
        → verify_entries lib crates
            ((key_id lib key, key) ∷ [])
            message
            (native_entry secret message ∷ [])
          ≡ ok (key_id lib key ∷ [])
    unfolding verify_entries verify_entry find contains set_insert place
    verify_entries-signed message key same =
        rw
          (
            native_entry-accepts message key same,
            native_entry-verified message ssh_signature_namespace key same,
          )
          refl

    -- A manifest that is signed with a native key, and that is the expected one at the time of
    -- verification, is verified with the public key trusted and one signature asked for, where its
    -- canonical text is parsed as the manifest: the manifest is returned as it was, and the only
    -- signer is the key.
    pub verify-sign_manifest :
        (key : ApprovalVerificationKey)
        → key.native ≡ crates.ed25519_public secret
        → (manifest : TargetManifestV3) (envelope : SignedEnvelopeV1)
        → sign_manifest lib crates manifest (native_key secret) ≡ ok envelope
        → ((payload : Text)
            → crates.manifest_jcs manifest ≡ some payload
            → crates.manifest_json payload ≡ some manifest)
        → (expected : ExpectedBinding) → validate_expected manifest expected ≡ ok tt
        → verify lib crates ((key_id lib key, key) ∷ []) envelope 1 expected
          ≡ ok (record { manifest = manifest; signers = key_id lib key ∷ [] })
    unfolding verify
    verify-sign_manifest key same manifest envelope signed reads expected bound =
        let (payload, message, valid, printed, small, encoded, built) =
          sign_manifest-eq-ok manifest envelope signed in
        rw
          (
            ← built,
            decode_envelope-signed manifest payload message valid printed (reads payload printed)
                small encoded,
            bound,
            verify_entries-signed message key same,
          )
          refl
