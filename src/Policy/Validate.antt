-- ===== src/Policy/Validate.antt =====
-- crates/nix-seal-policy/src/lib.rs, `validate`, and the report on lifecycles, which validates first.
pub mod Checks
pub mod Namespace
pub mod Signing
use nix_seal.Prelude.{
  ℕ, ◌*◌, ltb, Bool, ◌||◌, ◌&&◌, not, none, some, List, [], ◌∷◌, length, is_empty, any, Result, ok,
  err, ◌>>=◌, ◌>>◌, fail_if, ok_or, is_err, for_each, fold_each, collect, if◌then◌else◌,
}
use nix_seal.Prelude.Text.{Text, codes, text_ord}
use nix_seal.Prelude.Collections.{BTreeMap, contains_key, map_get, map_insert, map_values}
use nix_seal.Libraries.{Libraries}
use nix_seal.Core.Id.{Identifier}
use nix_seal.Core.Plan.{PlanV2, Identity, Target}
use nix_seal.Keys.Recipient.{normalize_recipient}
use nix_seal.Keys.Approval.{ManifestError, validate_public_key, public_key_id}
use nix_seal.Policy.Error.{
  PolicyError, Checked, violation, too_many_objects, authorization_id_twice, identity_public_bounds,
  invalid_age_recipient, invalid_verification_key, signing_key_reused, target_missing_identity,
  target_identity_kind, system_time,
}
use nix_seal.Policy.Merge.{ensure_schema}
use nix_seal.Policy.Groups.{validate_group_graph}
use nix_seal.Policy.Selectors.{validate_target}
use nix_seal.Policy.Lifecycle.{SecretLifecycleReportV1, report_secret}
use nix_seal.Policy.Secrets.{validate_secrets}
use nix_seal.Policy.Templates.{validate_templates}
use nix_seal.Policy.Approval.{is_age_kind, is_signing_kind, is_target, validate_approval}
use nix_seal.Policy.Generators.Order.{validate_generator_graph}

abbrev pub collection_sizes : PlanV2 → List ℕ
collection_sizes plan =
    length plan.identities
    ∷ length plan.groups
    ∷ length plan.targets
    ∷ length plan.secrets
    ∷ length plan.generators
    ∷ length plan.templates
    ∷ length plan.approval_policies
    ∷ length plan.backends
    ∷ []

-- The keys of the first map that the second has too, in key order: `intersection`.
unfoldable pub shared_keys :
    {A B : Type 0} → BTreeMap Identifier A → BTreeMap Identifier B → List Identifier
shared_keys [] right = []
shared_keys ((id, value) ∷ left) right =
    let rest = shared_keys left right in if contains_key id right then id ∷ rest else rest

unfoldable pub refuse_shared : Text → Text → List Identifier → Checked
refuse_shared left_name right_name [] = ok tt
refuse_shared left_name right_name (id ∷ ids) =
    err (violation (authorization_id_twice id left_name right_name))

unfoldable pub validate_authorization_namespace : PlanV2 → Checked
validate_authorization_namespace plan = do
  refuse_shared (codes "identity") (codes "group") (shared_keys plan.identities plan.groups)
  refuse_shared (codes "identity") (codes "target") (shared_keys plan.identities plan.targets)
  refuse_shared (codes "group") (codes "target") (shared_keys plan.groups plan.targets)

abbrev pub bad_public : Identity → Bool
bad_public identity = is_empty identity.public || ltb (16 * 1024) (length identity.public)

module _ (lib : Libraries) where
  unfoldable pub check_identity : Identifier × Identity → Checked
  check_identity (id, identity) = do
    fail_if (is_age_kind identity.kind && is_err (normalize_recipient lib identity.public))
        (violation (invalid_age_recipient id))
    fail_if (is_signing_kind identity.kind && is_err (validate_public_key lib identity.public))
        (violation (invalid_verification_key id))

  -- `public_key_id(…).map_err(…)?`.
  abbrev pub key_or_violation : Identifier → Result ManifestError Text → Result PolicyError Text
  key_or_violation id (ok key) = ok key
  key_or_violation id (err e) = err (violation (invalid_verification_key id))

  -- `signer_keys` maps the identifier of a key to the identity that declared it.
  unfoldable pub claim_key :
      BTreeMap Text Identifier
      → Identifier × Identity
      → Result PolicyError (BTreeMap Text Identifier)
  claim_key keys (id, identity) =
      if is_signing_kind identity.kind
      then (do
        key ← key_or_violation id (public_key_id lib identity.public)
        elim (map_get key keys) [
          | none ↦ ok (map_insert key id keys)
          | some previous ↦ err (violation (signing_key_reused previous id))
        ])
      else ok keys

module _ (plan : PlanV2) where
  unfoldable pub check_target : Identifier × Target → Checked
  check_target (id, target) = do
    validate_target id target
    identity ←
        ok_or (map_get target.identity plan.identities)
          (violation (target_missing_identity id target.identity))
    fail_if (not (is_target identity.kind)) (violation (target_identity_kind id target.identity))

module _ (lib : Libraries) where
  unfoldable pub validate : PlanV2 → Checked
  validate plan = do
    ensure_schema plan
    fail_if (any (λ count. ltb 10000 count) (collection_sizes plan)) (violation too_many_objects)
    validate_authorization_namespace plan
    validate_group_graph plan
    fail_if (any bad_public (map_values plan.identities)) (violation identity_public_bounds)
    for_each (check_identity lib) plan.identities
    _ ← fold_each (claim_key lib) [] plan.identities
    for_each (check_target plan) plan.targets
    validate_secrets plan lib
    validate_templates plan
    for_each (validate_approval plan) plan.approval_policies
    validate_generator_graph plan

  unfoldable pub lifecycle_report : PlanV2 → ℕ → Result PolicyError (List SecretLifecycleReportV1)
  lifecycle_report plan system_now = do
    validate plan
    now ← ok_or (lib.timestamp_from_system system_now) (violation system_time)
    collect (report_secret lib now) plan.secrets
