-- ===== src/Manifest/Envelope/Countersign.antt =====
-- crates/nix-seal-manifest/src/lib.rs, `add_signature`: what a countersignature adds, and that a key
-- signs an envelope once.
use nix_seal.Prelude.{
  ◌≤◌, ◌<◌, ◌≡◌, refl, subst, Bool, true, false, not, ◌||◌, ltb, leb, List, [], ◌∷◌, ◌++◌, length,
  length-append, is_empty, any, arith, ok, err, fail_if, ok_or, >>=-eq-ok, >>-eq-ok, fail_if-eq-ok,
  ok_injective,
}
use nix_seal.Prelude.Text.{Text, text_eq_refl}
use nix_seal.Libraries.{Libraries, SshPublicKey}
use nix_seal.Keys.Approval.{
  ApprovalVerificationKey, is_ed25519, native_key_id, parse_public_key, limit, duplicate_signer,
  invalid_signature, agent_protocol, public_key_format,
}
use nix_seal.Manifest.Types.{
  EnvelopeSignature, SignedEnvelopeV1, payload_type_v3, max_payload_bytes, max_signatures,
  max_signature_bytes, ssh_signature_namespace,
}
use nix_seal.Manifest.Crates.{Crates}
use nix_seal.Manifest.Agent.{ssh_agent_sign}
use nix_seal.Manifest.Keys.{
  ApprovalSigningKey, native_key, ssh_key, ssh_agent_key, accepts, accepts_wire_id, encode_public,
  encode_public_key, legacy_ssh_key_id, legacy_ssh_key_id_bytes, sshsig_entry, sign,
  sign_with_namespace,
}
use nix_seal.Manifest.Envelope.{Decoded, bad_entry, decode_envelope, add_signature}
use nix_seal.Manifest.Envelope.Decode.{decode_envelope-IsDecoded}
use nix_seal.Manifest.Envelope.RoundTrip.{HasLaws}

any-append {ℓ} :
    {A : Type ℓ} (p : A → Bool) (xs ys : List A) → any p (xs ++ ys) ≡ (any p xs || any p ys)
any-append p [] ys = refl
any-append p (x ∷ xs) ys = ground (arith, any-append p xs ys)

module _ (lib : Libraries) (crates : Crates) (laws : HasLaws lib crates) where
  sshsig_entry-good :
      (key : SshPublicKey) (signature : Text) (entry : EnvelopeSignature)
      → sshsig_entry lib crates key signature ≡ ok entry
      → bad_entry entry ≡ false
  unfolding sshsig_entry legacy_ssh_key_id legacy_ssh_key_id_bytes
  sshsig_entry-good key signature entry h =
      let (sized, h1) = >>-eq-ok (fail_if (ltb max_signature_bytes (length signature)) limit) _ h in
      let (id, named, h2) = >>=-eq-ok (legacy_ssh_key_id lib crates key) _ h1 in
      let (bytes, found, h3) = >>=-eq-ok (ok_or key.ed25519_bytes public_key_format) _ named in
      let small = fail_if-eq-ok (ltb max_signature_bytes (length signature)) limit sized in
      subst (λ (e : EnvelopeSignature). bad_entry e ≡ false) (ok_injective h2)
        (subst (λ (i : Text). (is_empty i || ltb max_signature_bytes (length signature)) ≡ false)
          (ok_injective h3) small)

  -- No key makes an entry that the limits of an envelope refuse.
  sign_with_namespace-good :
      (key : ApprovalSigningKey) (message namespace : Text) (entry : EnvelopeSignature)
      → sign_with_namespace lib crates key message namespace ≡ ok entry
      → bad_entry entry ≡ false
  unfolding sign_with_namespace native_key_id
  sign_with_namespace-good (native_key secret) message namespace entry h =
      subst (λ (e : EnvelopeSignature). bad_entry e ≡ false) (ok_injective h)
        (ground (
          arith,
          laws.length-ed25519_sign secret message,
          laws.length-base64_encode (crates.ed25519_sign secret message),
        ))
  sign_with_namespace-good (ssh_key key) message namespace entry h =
      let (signature, made, h1) =
        >>=-eq-ok (ok_or (crates.ssh_sign key namespace message) invalid_signature) _ h in
      sshsig_entry-good key.public_key signature entry h1
  sign_with_namespace-good (ssh_agent_key key socket) message namespace entry h =
      let (to_sign, built, h1) =
        >>=-eq-ok (ok_or (crates.sshsig_signed_data namespace message) invalid_signature) _ h in
      let (blob, printed, h2) =
        >>=-eq-ok (ok_or (crates.ssh_public_bytes key) invalid_signature) _ h1 in
      let (signature, made, h3) = >>=-eq-ok (ssh_agent_sign crates socket blob to_sign) _ h2 in
      let (right, h4) =
        >>-eq-ok (fail_if (not (is_ed25519 signature.algorithm)) agent_protocol) _ h3 in
      let (encoded, wrapped, h5) =
        >>=-eq-ok (ok_or (crates.sshsig_new key namespace signature) invalid_signature) _ h4 in
      sshsig_entry-good key encoded entry h5

  -- What a countersignature does to an envelope.
  pub record IsAdded (envelope : SignedEnvelopeV1) (key : ApprovalSigningKey)
      (result : SignedEnvelopeV1) : Type 0 where
    pub decoded : Decoded
    pub before : decode_envelope lib crates envelope ≡ ok decoded
    pub entry : EnvelopeSignature
    pub signed : sign lib crates key decoded.message ≡ ok entry
    pub public : ApprovalVerificationKey
    pub encoded : Text
    pub printed : encode_public lib crates key ≡ ok encoded
    pub parsed : parse_public_key lib encoded ≡ ok public
    pub new :
        any (λ (e : EnvelopeSignature). accepts lib crates e.key_id public) envelope.signatures
        ≡ false
    pub appended : result.signatures ≡ envelope.signatures ++ entry ∷ []
    pub few : length result.signatures ≤ max_signatures
    pub after : decode_envelope lib crates result ≡ ok decoded

  decode_envelope-added :
      (envelope result : SignedEnvelopeV1) (decoded : Decoded) (entry : EnvelopeSignature)
      → decode_envelope lib crates envelope ≡ ok decoded
      → bad_entry entry ≡ false
      → leb max_signatures (length envelope.signatures) ≡ false
      → decode_envelope lib crates (record envelope {
        signatures = envelope.signatures ++ entry ∷ [];
        payload = crates.base64_encode decoded.payload;
      })
        ≡ ok decoded
  unfolding decode_envelope
  decode_envelope-added envelope result decoded entry h good room =
      let d = decode_envelope-IsDecoded lib crates envelope decoded h in
      let few : ltb max_signatures (length (envelope.signatures ++ entry ∷ [])) ≡ false =
        ground (arith, length-append envelope.signatures (entry ∷ []), room) in
      let entries : any bad_entry (envelope.signatures ++ entry ∷ []) ≡ false =
        ground (arith, any-append bad_entry envelope.signatures (entry ∷ []), d.entries, good) in
      let small : ltb max_payload_bytes (length decoded.payload) ≡ false =
        ground (arith, d.small) in
      rw
        (
          d.of_type,
          text_eq_refl payload_type_v3,
          few,
          entries,
          laws.base64_decode-base64_encode decoded.payload,
          small,
          d.parsed,
          d.valid,
          d.canonical,
          text_eq_refl decoded.payload,
          d.encoded,
        )
        refl

  -- A countersignature leaves the signatures that were there and adds one at the end, by a key that
  -- none of them names; the new envelope is within the limit on signatures and decodes to the same
  -- manifest and the same message as before.
  pub add_signature-IsAdded :
      (envelope : SignedEnvelopeV1) (key : ApprovalSigningKey) (result : SignedEnvelopeV1)
      → add_signature lib crates envelope key ≡ ok result
      → IsAdded envelope key result
  unfolding add_signature sign
  add_signature-IsAdded envelope key result h =
      let (decoded, before, h1) = >>=-eq-ok (decode_envelope lib crates envelope) _ h in
      let (room, h2) =
        >>-eq-ok (fail_if (leb max_signatures (length envelope.signatures)) limit) _ h1 in
      let (entry, signed, h3) = >>=-eq-ok (sign lib crates key decoded.message) _ h2 in
      let (encoded, printed, h4) = >>=-eq-ok (encode_public lib crates key) _ h3 in
      let (public, parsed, h5) = >>=-eq-ok (parse_public_key lib encoded) _ h4 in
      let named =
        any (λ (e : EnvelopeSignature). accepts lib crates e.key_id public) envelope.signatures in
      let (new, h6) = >>-eq-ok (fail_if named duplicate_signer) _ h5 in
      let room_test = fail_if-eq-ok (leb max_signatures (length envelope.signatures)) limit room in
      subst (IsAdded envelope key) (ok_injective h6) (record {
        decoded = decoded;
        before = before;
        entry = entry;
        signed = signed;
        public = public;
        encoded = encoded;
        printed = printed;
        parsed = parsed;
        new = fail_if-eq-ok named duplicate_signer new;
        appended = refl;
        few = ground (arith, length-append envelope.signatures (entry ∷ []), room_test);
        after =
            decode_envelope-added envelope result decoded entry before
              (sign_with_namespace-good key decoded.message ssh_signature_namespace entry signed)
              room_test;
      })

  -- A native key that has signed an envelope cannot sign it again, where its public key is read back
  -- as it was printed and there is room for a signature: the error is that of a duplicate signer.
  pub add_signature-duplicate_signer :
      (envelope : SignedEnvelopeV1) (secret : Text) (result : SignedEnvelopeV1)
      (public : ApprovalVerificationKey)
      → parse_public_key lib (encode_public_key lib crates (crates.ed25519_public secret))
        ≡ ok public
      → public.native ≡ crates.ed25519_public secret
      → length result.signatures < max_signatures
      → add_signature lib crates envelope (native_key secret) ≡ ok result
      → add_signature lib crates result (native_key secret) ≡ err duplicate_signer
  unfolding add_signature sign sign_with_namespace encode_public accepts accepts_wire_id
  add_signature-duplicate_signer envelope secret result public parsed same room h =
      let a = add_signature-IsAdded envelope (native_key secret) result h in
      let room_test : leb max_signatures (length result.signatures) ≡ false = ground arith in
      let made = ok_injective a.signed in
      let names : accepts lib crates a.entry.key_id public ≡ true =
        subst (λ (e : EnvelopeSignature). accepts lib crates e.key_id public ≡ true) made
          (rw (same, text_eq_refl (native_key_id lib (crates.ed25519_public secret))) refl) in
      let named : any (λ (e : EnvelopeSignature). accepts lib crates e.key_id public)
            result.signatures
          ≡ true =
        rw a.appended (
          rw
            (any-append (λ (e : EnvelopeSignature). accepts lib crates e.key_id public)
              envelope.signatures (a.entry ∷ []))
            (ground (arith, names))) in
      rw (a.after, room_test, parsed, named) refl
