-- ===== src/Policy/Secrets.antt =====
-- crates/nix-seal-policy/src/lib.rs: what a secret of the plan must satisfy.
pub mod Consumers
pub mod References
pub mod Sources
use nix_seal.Prelude.{
  ℕ, Bool, true, false, ◌||◌, ◌&&◌, not, Option, none, some, List, [], ◌∷◌, is_empty, any, Result,
  ok, err, ◌>>=◌, ◌>>◌, fail_if, for_each, fold_each, if◌then◌else◌,
}
use nix_seal.Prelude.Text.{Text, text_ord}
use nix_seal.Prelude.Collections.{BTreeMap, contains, set_insert, contains_key, map_get, map_values}
use nix_seal.Libraries.{Libraries}
use nix_seal.Core.Id.{Identifier}
use nix_seal.Core.Plan.{
  PlanV2, Secret, Identity, DeliveryMode, rekeyed, direct, RuntimeSettings, is_default_selectors,
}
use nix_seal.Core.Symlink.{valid_compatibility_symlink}
use nix_seal.Policy.Error.{
  PolicyError, Checked, RuntimeLabel, runtime, runtime_override, violation, secret_source_path,
  secret_source_reused, secret_source_hash, missing_consumer, missing_administrator,
  administrator_members, consumer_members, no_encryption_recipients, missing_approval_policy,
  approval_policy_required, override_missing_target, override_not_consumer, runtime_mode,
  runtime_symlink, repository_only_consumers, repository_only_direct,
}
use nix_seal.Policy.Chars.{valid_repository_relative_path, is_sha256, is_private_runtime_mode}
use nix_seal.Policy.Groups.{expand_group_leaves, hunt}
use nix_seal.Policy.Selectors.{validate_target_selectors, selected_consumer_targets}
use nix_seal.Policy.Lifecycle.{validate_lifecycle}
use nix_seal.Policy.Approval.{is_administrator, is_signer}

abbrev pub is_direct : DeliveryMode → Bool
is_direct rekeyed = false
is_direct direct = true

unfoldable pub bad_symlink : Option Text → Bool
bad_symlink none = false
bad_symlink (some path) = not (valid_compatibility_symlink path)

unfoldable pub validate_runtime_settings : Identifier → RuntimeLabel → RuntimeSettings → Checked
validate_runtime_settings secret_id label settings = do
  fail_if (not (is_private_runtime_mode settings.mode)) (violation (runtime_mode secret_id label))
  fail_if (bad_symlink settings.compatibility_symlink) (violation (runtime_symlink secret_id label))

unfoldable pub validate_repository_only_secret : Identifier → Secret → Checked
validate_repository_only_secret id secret = do
  fail_if
      (secret.repository_only
        && (not (is_empty secret.consumers) || not (is_default_selectors secret.selectors)))
      (violation (repository_only_consumers id))
  fail_if (secret.repository_only && is_direct secret.delivery)
      (violation (repository_only_direct id))

-- `targets.contains(target_id)` of a result that may be an error.
unfoldable pub selected_contains : Result PolicyError (List Identifier) → Identifier → Bool
selected_contains (err e) target_id = false
selected_contains (ok targets) target_id = contains target_id targets

-- `plan.identities.get(id).is_some_and(…)` for the two administrator kinds.
abbrev pub is_admin_identity : Option Identity → Bool
is_admin_identity none = false
is_admin_identity (some identity) = is_administrator identity.kind

module _ (plan : PlanV2) where
  unfoldable pub target_is_consumer : Secret → Identifier → Bool
  target_is_consumer secret target_id =
      selected_contains (selected_consumer_targets plan secret) target_id
      || hunt plan target_id secret.consumers

  unfoldable pub check_consumer : Identifier → Identifier → Checked
  check_consumer id consumer =
      fail_if (not (contains_key consumer plan.targets) && not (contains_key consumer plan.groups))
        (violation (missing_consumer id consumer))

  unfoldable pub check_administrator : Identifier → Identifier → Checked
  check_administrator id administrator =
      fail_if
        (not (contains_key administrator plan.identities)
          && not (contains_key administrator plan.groups))
        (violation (missing_administrator id administrator))

  -- The two branches that leave a secret without a recipient.
  unfoldable pub lacks_recipients : Secret → List Identifier → List Identifier → Bool
  lacks_recipients secret administrator_leaves consumer_leaves =
      let has_administrator =
        not (is_empty administrator_leaves)
        || is_empty secret.administrators
          && any (λ (i : Identity). is_administrator i.kind) (map_values plan.identities) in
      not (is_direct secret.delivery) && not has_administrator
      || is_direct secret.delivery && not has_administrator && is_empty consumer_leaves

  unfoldable pub check_approval : Identifier → Option Identifier → Checked
  check_approval id (some policy) =
      fail_if (not (contains_key policy plan.approval_policies))
        (violation (missing_approval_policy id policy))
  check_approval id none =
      fail_if (not (any (λ (i : Identity). is_signer i.kind) (map_values plan.identities)))
        (violation (approval_policy_required id))

  unfoldable pub check_override : Identifier → Secret → Identifier × RuntimeSettings → Checked
  check_override id secret (target_id, settings) = do
    fail_if (not (contains_key target_id plan.targets))
        (violation (override_missing_target id target_id))
    fail_if (not (target_is_consumer secret target_id))
        (violation (override_not_consumer id target_id))
    validate_runtime_settings id runtime_override settings

  -- The part of the loop's body that reads the plan's references.
  unfoldable pub check_references : Identifier → Secret → Checked
  check_references id secret = do
    for_each (check_consumer id) secret.consumers
    for_each (check_administrator id) secret.administrators
    validate_target_selectors plan id secret
    validate_repository_only_secret id secret
    administrator_leaves ← expand_group_leaves plan secret.administrators
    fail_if
        (any (λ identity_id. not (is_admin_identity (map_get identity_id plan.identities)))
          administrator_leaves)
        (violation (administrator_members id))
    consumer_leaves ← selected_consumer_targets plan secret
    fail_if (any (λ target_id. not (contains_key target_id plan.targets)) consumer_leaves)
        (violation (consumer_members id))
    fail_if (lacks_recipients secret administrator_leaves consumer_leaves)
        (violation (no_encryption_recipients id))
    check_approval id secret.approval_policy

  module _ (lib : Libraries) where
    -- The body of the loop; `sources` are the ciphertext paths seen so far.
    unfoldable pub validate_secret :
        List Text → Identifier × Secret → Result PolicyError (List Text)
    validate_secret sources (id, secret) = do
      fail_if (not (valid_repository_relative_path secret.source))
          (violation (secret_source_path id))
      fail_if (contains secret.source sources) (violation (secret_source_reused id))
      fail_if (not (is_sha256 secret.source_ciphertext_hash)) (violation (secret_source_hash id))
      check_references id secret
      validate_runtime_settings id runtime secret.runtime
      for_each (check_override id secret) secret.runtime_overrides
      validate_lifecycle lib id secret.lifecycle
      ok (set_insert secret.source sources)

    unfoldable pub validate_secrets : Checked
    validate_secrets = do _ ← fold_each validate_secret [] plan.secrets; ok tt
