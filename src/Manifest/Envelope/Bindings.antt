-- ===== src/Manifest/Envelope/Bindings.antt =====
-- crates/nix-seal-manifest/src/lib.rs, `validate_expected` and `verify`: a verified manifest is the
-- one that was expected, at a time at which it is valid, with enough signatures.
use nix_seal.Prelude.{
  ℕ, ◌+◌, ◌≤◌, ◌<◌, ◌≡◌, refl, subst, false, not, ◌||◌, ◌==◌, ltb, Option, some, none, length,
  is_empty, arith, ok, fail_if, ok_or, >>=-eq-ok, >>-eq-ok, fail_if-eq-ok, ok_injective,
}
use nix_seal.Prelude.Text.{Text, text_eq, text_eq_iff}
use nix_seal.Prelude.Numbers.{checked_add}
use nix_seal.Prelude.Collections.{BTreeMap}
use nix_seal.Libraries.{Libraries}
use nix_seal.Keys.Approval.{ApprovalVerificationKey, time, binding, threshold}
use nix_seal.Manifest.Types.{TargetManifestV3, SignedEnvelopeV1, ExpectedBinding, VerifiedManifest}
use nix_seal.Manifest.Crates.{Crates}
use nix_seal.Manifest.Envelope.{
  Decoded, expires_by, decode_envelope, validate_expected, verify_entries, verify,
}
use nix_seal.Manifest.Envelope.Signers.{AreSigners, verify_entries-AreSigners}

abbrev pub IsUnexpired : Option ℕ → ℕ → Type 0
IsUnexpired none now = Unit
IsUnexpired (some expiry) now = now < expiry

-- A manifest is the one that a caller expects, and is valid at the caller's time.
pub record IsBound (manifest : TargetManifestV3) (expected : ExpectedBinding) : Type 0 where
  pub tool_version : manifest.tool_version ≡ expected.tool_version
  pub artifact_policy_hash : manifest.artifact_policy_hash ≡ expected.artifact_policy_hash
  pub source_ciphertext_hash : manifest.source_ciphertext_hash ≡ expected.source_ciphertext_hash
  pub artifact_ciphertext_hash :
      manifest.artifact_ciphertext_hash ≡ expected.artifact_ciphertext_hash
  pub target_id : manifest.target_id ≡ expected.target_id
  pub secret_id : manifest.secret_id ≡ expected.secret_id
  pub recipient_fingerprint : manifest.recipient_fingerprint ≡ expected.recipient_fingerprint
  pub artifact_generation : manifest.artifact_generation ≡ expected.artifact_generation
  pub issued : manifest.issued_at ≤ expected.now + expected.allowed_clock_skew
  pub unexpired : IsUnexpired manifest.expires_at expected.now

text_eq-of_not : (s t : Text) → not (text_eq s t) ≡ false → s ≡ t
text_eq-of_not s t h = (text_eq_iff s t).0 (ground arith)

expires_by-IsUnexpired :
    (expiry : Option ℕ) (now : ℕ) → expires_by expiry now ≡ false → IsUnexpired expiry now
expires_by-IsUnexpired none now h = tt
expires_by-IsUnexpired (some expiry) now h = ground arith

pub validate_expected-IsBound :
    (manifest : TargetManifestV3) (expected : ExpectedBinding)
    → validate_expected manifest expected ≡ ok tt
    → IsBound manifest expected
unfolding validate_expected checked_add
validate_expected-IsBound m e h =
    let (latest, added, h1) = >>=-eq-ok (ok_or (checked_add e.now e.allowed_clock_skew) time) _ h in
    let (window, bound) =
      >>-eq-ok (fail_if (ltb latest m.issued_at || expires_by m.expires_at e.now) time) _ h1 in
    let in_time =
      fail_if-eq-ok (ltb latest m.issued_at || expires_by m.expires_at e.now) time window in
    let same = fail_if-eq-ok _ binding bound in
    record {
      tool_version = text_eq-of_not m.tool_version e.tool_version (ground arith);
      artifact_policy_hash =
          text_eq-of_not m.artifact_policy_hash e.artifact_policy_hash (ground arith);
      source_ciphertext_hash =
          text_eq-of_not m.source_ciphertext_hash e.source_ciphertext_hash (ground arith);
      artifact_ciphertext_hash =
          text_eq-of_not m.artifact_ciphertext_hash e.artifact_ciphertext_hash (ground arith);
      target_id = text_eq-of_not m.target_id e.target_id (ground arith);
      secret_id = text_eq-of_not m.secret_id e.secret_id (ground arith);
      recipient_fingerprint =
          text_eq-of_not m.recipient_fingerprint e.recipient_fingerprint (ground arith);
      artifact_generation = ground arith;
      issued = ground arith;
      unexpired = expires_by-IsUnexpired m.expires_at e.now (ground arith);
    }

module _ (lib : Libraries) (crates : Crates) (trusted : BTreeMap Text ApprovalVerificationKey) where
  -- What a verified manifest is: decoded from the envelope, the expected one, and signed by at least
  -- as many distinct trusted keys as were asked for.
  pub record IsVerified (envelope : SignedEnvelopeV1) (needed : ℕ) (expected : ExpectedBinding)
      (verified : VerifiedManifest) : Type 0 where
    pub decoded : Decoded
    pub decodes : decode_envelope lib crates envelope ≡ ok decoded
    pub manifest : verified.manifest ≡ decoded.manifest
    pub bound : IsBound verified.manifest expected
    pub positive : 1 ≤ needed
    pub enough : needed ≤ length verified.signers
    pub signers : AreSigners lib crates trusted decoded.message envelope.signatures verified.signers

  -- An envelope that is verified holds a manifest with the expected hashes, target, secret,
  -- recipients and generation, issued and not expired at the given time; its signers are distinct
  -- trusted keys, no fewer than asked for and asked for at least one, each with a signature of the
  -- payload's encoding in the envelope, and the envelope has no other signature.
  pub verify-IsVerified :
      (envelope : SignedEnvelopeV1) (needed : ℕ) (expected : ExpectedBinding)
      (verified : VerifiedManifest)
      → verify lib crates trusted envelope needed expected ≡ ok verified
      → IsVerified envelope needed expected verified
  unfolding verify
  verify-IsVerified envelope needed expected verified h =
      let (counted, h1) =
        >>-eq-ok
          (fail_if (needed == 0 || ltb (length trusted) needed || is_empty envelope.signatures)
            threshold)
          _ h in
      let positive =
        fail_if-eq-ok (needed == 0 || ltb (length trusted) needed || is_empty envelope.signatures)
          threshold counted in
      let (decoded, decodes, h2) = >>=-eq-ok (decode_envelope lib crates envelope) _ h1 in
      let (checked, h3) = >>-eq-ok (validate_expected decoded.manifest expected) _ h2 in
      let (signers, ran, h4) =
        >>=-eq-ok (verify_entries lib crates trusted decoded.message envelope.signatures) _ h3 in
      let (met, h5) = >>-eq-ok (fail_if (ltb (length signers) needed) threshold) _ h4 in
      let enough = fail_if-eq-ok (ltb (length signers) needed) threshold met in
      subst (IsVerified envelope needed expected) (ok_injective h5) (record {
        decoded = decoded;
        decodes = decodes;
        manifest = refl;
        bound = validate_expected-IsBound decoded.manifest expected checked;
        positive = ground arith;
        enough = ground arith;
        signers =
            verify_entries-AreSigners lib crates trusted decoded.message envelope.signatures signers
              ran;
      })
