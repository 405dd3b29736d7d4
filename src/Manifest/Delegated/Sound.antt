-- ===== src/Manifest/Delegated/Sound.antt =====
-- crates/nix-seal-manifest/src/lib.rs, `verify_delegated_create_capability`: what a verified capability
-- allows, and that its signature is over no manifest.
use nix_seal.Prelude.{
  ℕ, ◌+◌, ◌≤◌, ◌<◌, ◌≡◌, ◌≢◌, refl, subst, true, false, not, ◌==◌, ltb, some, none, List, [], ◌∷◌,
  length, arith, ok, fail_if, ok_or, >>=-eq-ok, >>-eq-ok, fail_if-eq-ok, ok_or-eq-ok, ok_injective,
  Bool-cases, inl, inr,
}
use nix_seal.Prelude.Text.{Text, codes, text_eq, text_eq_iff, starts_with, contains_text}
use nix_seal.Prelude.Numbers.{checked_add}
use nix_seal.Prelude.Collections.{BTreeMap, HasEntry, map_values}
use nix_seal.Libraries.{Libraries}
use nix_seal.Keys.Approval.{
  ApprovalVerificationKey, version, limit, json, binding, untrusted_signer,
}
use nix_seal.Manifest.Types.{
  DelegatedCreateCapabilityV1, SignedDelegatedCreateCapabilityV1, SignedEnvelopeV1,
  EnvelopeSignature, payload_type_v3, delegated_capability_payload_type,
  delegated_capability_ssh_namespace, max_delegated_plaintext_bytes, max_payload_bytes,
}
use nix_seal.Manifest.Crates.{Crates}
use nix_seal.Manifest.Pae.{pae}
use nix_seal.Manifest.Pae.Injective.{pae_injective}
use nix_seal.Manifest.Keys.{accepts}
use nix_seal.Manifest.Envelope.{
  Decoded, bad_entry, find, is_digest, decode_envelope, verify_signature_entry,
}
use nix_seal.Manifest.Envelope.Signers.{find-eq-some}
use nix_seal.Manifest.Envelope.Decode.{not_eq-same, decode_envelope-IsDecoded}
use nix_seal.Manifest.Delegated.{
  bad_capability, only_entry, validate_delegated_capability, check_window, check_signature,
  verify_delegated_create_capability,
}

-- A capability is for one creation of at most 64 KiB below the repository, within a quarter of an
-- hour of its issue.
pub record IsLimited (capability : DelegatedCreateCapabilityV1) : Type 0 where
  pub operation : capability.operation ≡ codes "create"
  pub plaintext : is_digest capability.plaintext_sha256 ≡ true
  pub relative : starts_with capability.source (codes "/") ≡ false
  pub inside : contains_text capability.source (codes "..") ≡ false
  pub positive : 1 ≤ capability.max_plaintext_bytes
  pub bounded : capability.max_plaintext_bytes ≤ max_delegated_plaintext_bytes
  pub issued_first : capability.issued_at ≤ capability.not_before
  pub not_empty : capability.not_before < capability.expires_at
  pub short : capability.expires_at ≤ capability.issued_at + 900

bad_capability-IsLimited :
    (capability : DelegatedCreateCapabilityV1)
    → bad_capability capability ≡ false
    → IsLimited capability
bad_capability-IsLimited c h = record {
  operation = (text_eq_iff c.operation (codes "create")).0 (ground arith);
  plaintext = ground arith;
  relative = ground arith;
  inside = ground arith;
  positive = ground arith;
  bounded = ground arith;
  issued_first = ground arith;
  not_empty = ground arith;
  short = ground arith;
}

only_entry-eq-some :
    (entries : List EnvelopeSignature) {entry : EnvelopeSignature}
    → only_entry entries ≡ some entry
    → entries ≡ entry ∷ []
only_entry-eq-some [] h = cc
only_entry-eq-some (e ∷ []) h = cc
only_entry-eq-some (e ∷ f ∷ rest) h = cc

types_apart : text_eq payload_type_v3 delegated_capability_payload_type ≡ false
unfolding text_eq
types_apart = refl

module _ (lib : Libraries) (crates : Crates) where
  validate_delegated_capability-eq-ok :
      (capability : DelegatedCreateCapabilityV1)
      → validate_delegated_capability lib crates capability ≡ ok tt
      → IsLimited capability
        × ((id : Text) × (crates.url_safe_decode capability.capability_id ≡ some id)
            × (length id ≡ 32))
  unfolding validate_delegated_capability
  validate_delegated_capability-eq-ok c h =
      let (good, h1) = >>-eq-ok (fail_if (bad_capability c) binding) _ h in
      let (id, decoded, h2) =
        >>=-eq-ok (ok_or (crates.url_safe_decode c.capability_id) binding) _ h1 in
      let sized = fail_if-eq-ok (not (length id == 32)) binding h2 in
      (
        bad_capability-IsLimited c (fail_if-eq-ok (bad_capability c) binding good),
        (id, ok_or-eq-ok (crates.url_safe_decode c.capability_id) binding decoded, ground arith),
      )

  -- A trusted key has signed a payload under its type, for the namespace of capabilities.
  pub record IsSignedPayload (payload_type payload : Text) (entry : EnvelopeSignature)
      (trusted : BTreeMap Text ApprovalVerificationKey) : Type 0 where
    pub message : Text
    pub encoded : pae payload_type payload ≡ ok message
    pub holder : Text
    pub key : ApprovalVerificationKey
    pub is_trusted : HasEntry holder key trusted
    pub names_key : accepts lib crates entry.key_id key ≡ true
    pub verified :
        verify_signature_entry lib crates entry key message delegated_capability_ssh_namespace
        ≡ ok tt

  check_signature-IsSignedPayload :
      (payload_type payload : Text) (entry : EnvelopeSignature)
      (trusted : BTreeMap Text ApprovalVerificationKey)
      → check_signature lib crates payload_type payload entry trusted ≡ ok tt
      → IsSignedPayload payload_type payload entry trusted
  unfolding check_signature
  check_signature-IsSignedPayload payload_type payload entry trusted h =
      let (message, encoded, h1) = >>=-eq-ok (pae payload_type payload) _ h in
      let (sized, h2) = >>-eq-ok (fail_if (bad_entry entry) limit) _ h1 in
      let (key, found, verified) =
        >>=-eq-ok
          (ok_or (find (accepts lib crates entry.key_id) (map_values trusted)) untrusted_signer) _
          h2 in
      let (holder, there, names_key) = find-eq-some (accepts lib crates entry.key_id) trusted (
        ok_or-eq-ok (find (accepts lib crates entry.key_id) (map_values trusted)) untrusted_signer
          found) in
      record {
        message = message;
        encoded = encoded;
        holder = holder;
        key = key;
        is_trusted = there;
        names_key = names_key;
        verified = verified;
      }

  -- What a verification of a capability has established.
  pub record IsAllowed (envelope : SignedDelegatedCreateCapabilityV1)
      (trusted : BTreeMap Text ApprovalVerificationKey) (now skew : ℕ)
      (capability : DelegatedCreateCapabilityV1) : Type 0 where
    pub limited : IsLimited capability
    pub issued : capability.issued_at ≤ now + skew
    pub begun : capability.not_before ≤ now
    pub lasting : now < capability.expires_at
    pub payload : Text
    pub is_payload : lib.base64_decode envelope.payload ≡ some payload
    pub parsed : crates.capability_json payload ≡ some capability
    pub canonical : crates.capability_jcs capability ≡ some payload
    pub entry : EnvelopeSignature
    pub only : envelope.signatures ≡ entry ∷ []
    pub signed : IsSignedPayload delegated_capability_payload_type payload entry trusted

  check_window-eq-ok :
      (c : DelegatedCreateCapabilityV1) (now skew : ℕ)
      → check_window lib crates c now skew ≡ ok tt
      → (c.issued_at ≤ now + skew) × (c.not_before ≤ now) × (now < c.expires_at)
  unfolding check_window checked_add
  check_window-eq-ok c now skew h = ground arith

  the_entry :
      (envelope : SignedDelegatedCreateCapabilityV1) (entry : EnvelopeSignature)
      → ok_or
          (elim (text_eq envelope.payload_type delegated_capability_payload_type) [
            | true ↦ only_entry envelope.signatures
            | false ↦ none
          ])
          version
        ≡ ok entry
      → (envelope.payload_type ≡ delegated_capability_payload_type)
        × (envelope.signatures ≡ entry ∷ [])
  the_entry envelope entry h =
      elim (Bool-cases (text_eq envelope.payload_type delegated_capability_payload_type)) [
        | inl same ↦ (
          (text_eq_iff envelope.payload_type delegated_capability_payload_type).0 same,
          only_entry-eq-some envelope.signatures
              (ok_or-eq-ok (only_entry envelope.signatures) version (rw same at h)),
        )
        | inr differs ↦ let e = rw differs at h in absurd (cc)
      ]

  -- A capability that is verified allows one creation, of at most 64 KiB, at a path that is relative
  -- and does not go up; it is in force at the given time and for at most 900 seconds from its issue;
  -- the envelope has one signature, which a trusted key made over the encoding of the capability's
  -- canonical form.
  pub verify_delegated-IsAllowed :
      (envelope : SignedDelegatedCreateCapabilityV1)
      (trusted : BTreeMap Text ApprovalVerificationKey) (now skew : ℕ)
      (capability : DelegatedCreateCapabilityV1)
      → verify_delegated_create_capability lib crates envelope trusted now skew ≡ ok capability
      → IsAllowed envelope trusted now skew capability
  unfolding verify_delegated_create_capability
  verify_delegated-IsAllowed envelope trusted now skew result h =
      let (entry, first, h1) = >>=-eq-ok (ok_or _ version) _ h in
      let (payload, is_payload, h2) =
        >>=-eq-ok (ok_or (lib.base64_decode envelope.payload) json) _ h1 in
      let (small, h3) = >>-eq-ok (fail_if (ltb max_payload_bytes (length payload)) limit) _ h2 in
      let (c, parsed, h4) = >>=-eq-ok (ok_or (crates.capability_json payload) json) _ h3 in
      let (valid, h5) = >>-eq-ok (validate_delegated_capability lib crates c) _ h4 in
      let (printed, canonical, h6) = >>=-eq-ok (ok_or (crates.capability_jcs c) json) _ h5 in
      let (same, h7) = >>-eq-ok (fail_if (not (text_eq printed payload)) json) _ h6 in
      let (in_time, h8) = >>-eq-ok (check_window lib crates c now skew) _ h7 in
      let (signed, h9) =
        >>-eq-ok (check_signature lib crates envelope.payload_type payload entry trusted) _ h8 in
      let (of_type, only) = the_entry envelope entry first in
      let (issued, begun, lasting) = check_window-eq-ok c now skew in_time in
      subst (IsAllowed envelope trusted now skew) (ok_injective h9) (record {
        limited = (validate_delegated_capability-eq-ok c valid).0;
        issued = issued;
        begun = begun;
        lasting = lasting;
        payload = payload;
        is_payload = ok_or-eq-ok (lib.base64_decode envelope.payload) json is_payload;
        parsed = ok_or-eq-ok (crates.capability_json payload) json parsed;
        canonical =
            subst (λ p. crates.capability_jcs c ≡ some p) (not_eq-same printed payload json same)
              (ok_or-eq-ok (crates.capability_jcs c) json canonical);
        entry = entry;
        only = only;
        signed =
            subst (λ p. IsSignedPayload p payload entry trusted) of_type
              (check_signature-IsSignedPayload envelope.payload_type payload entry trusted signed);
      })

  -- The message that a capability's signature is over is that of no manifest, whatever its envelope:
  -- a signature of the one cannot be taken for a signature of the other.
  pub capability_message-apart :
      (envelope : SignedEnvelopeV1) (decoded : Decoded) (payload message : Text)
      → decode_envelope lib crates envelope ≡ ok decoded
      → pae delegated_capability_payload_type payload ≡ ok message
      → decoded.message ≢ message
  capability_message-apart envelope decoded payload message h encoded same =
      let printed = (decode_envelope-IsDecoded lib crates envelope decoded h).encoded in
      let (types, _) =
        pae_injective payload_type_v3 delegated_capability_payload_type decoded.payload payload
          message (subst (λ m. pae payload_type_v3 decoded.payload ≡ ok m) same printed) encoded in
      let apart : text_eq payload_type_v3 delegated_capability_payload_type ≡ false = types_apart in
      let equal = (text_eq_iff payload_type_v3 delegated_capability_payload_type).1 types in cc
