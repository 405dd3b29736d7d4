-- ===== src/Tests/Policy.antt =====
-- The policy on the sample plan: what it computes, and the theorems at these inputs.
use nix_seal.Prelude.{
  not, is_err, err, inl, ℕ, ◌≡◌, ◌≢◌, ◌≤◌, ◌↔◌, refl, true, false, some, none, List, [], ◌∷◌, ◌++◌,
  All, length, is_empty, ok,
}
use nix_seal.Prelude.Text.{Text, codes, text_ord}
use nix_seal.Prelude.Collections.{HasEntry, contains, to_set, map_get, contains_key, map_values}
use nix_seal.Core.Id.{Identifier, IsId}
use nix_seal.Core.Id.Paths.{parse-slash}
use nix_seal.Core.Plan.{Secret, Identity, activation}
use nix_seal.Policy.Approval.{TargetApprovalPolicyV1, is_recovery, target_approval_policy}
use nix_seal.Policy.Approval.Signers.{AllSigners, target_approval_policy_sound}
use nix_seal.Policy.Approval.Declared.{target_approval_policy-returns}
use nix_seal.Policy.Chars.{is_private_runtime_mode}
use nix_seal.Policy.Chars.Mode.{is_private_runtime_mode-owner}
use nix_seal.Policy.Groups.{expand_group_leaves}
use nix_seal.Policy.Groups.Reach.{Reaches, IsLeaf}
use nix_seal.Policy.Groups.Expand.{expand_group_leaves-total}
use nix_seal.Policy.Recipients.Sound.{IsRecipient}
use nix_seal.Policy.Recipients.Recovery.{secret_recipients_sound}
use nix_seal.Policy.Secrets.{is_direct, target_is_consumer}
use nix_seal.Policy.Secrets.Consumers.{target_is_consumer-Selected, repository_only-no_consumer}
use nix_seal.Policy.Secrets.Sources.{validate_secrets-HasSource}
use nix_seal.Policy.Selectors.Selected.{Selected, selected_consumer_targets-Selected}
use nix_seal.Policy.Target.{
  TargetSecretPolicyV1, TargetPolicyV1, target_policy, secret_artifact_policy,
}
use nix_seal.Policy.Target.Artifact.{secret_artifact_policy-target_is_consumer}
use nix_seal.Policy.Target.Returns.{target_policy-returns}
use nix_seal.Policy.Recipients.{SecretRecipientsV1, secret_recipients}
use nix_seal.Policy.Recipients.Returns.{secret_recipients-returns}
use nix_seal.Policy.Target.Privilege.{IsGranted, target_policy-least_privilege}
use nix_seal.Policy.Target.Rendered.{IsRenderable, target_policy-templates}
use nix_seal.Policy.Templates.{output_id}
use nix_seal.Policy.Templates.Phase.{HasPhase, template_phase-HasPhase}
use nix_seal.Policy.Error.{group_graph, out_of_fuel}
use nix_seal.Policy.Kahn.{walk}
use nix_seal.Policy.Kahn.Fuel.{walk-ends}
use nix_seal.Policy.Merge.Union.{IsMerged, merge-IsMerged}
use nix_seal.Policy.Validate.Namespace.{AreDisjoint, validate_authorization_namespace-AreDisjoint}
use nix_seal.Policy.Validate.Signing.{target_approval_policy-SignsWith}
use nix_seal.Policy.Validate.{validate, validate_authorization_namespace}
use nix_seal.Tests.Run.{run}
use nix_seal.Tests.Sample.{
  libraries, plan, strict_plan, twice, read_time, host, mac, mac_target, cyclic, more, merged,
  seal_key, database, archive, laptop, config,
}
use nix_seal.Tests.Expected.{plan_text, one_signer, host_policy, config_policy, laptop_recipients}

validate_sample : validate libraries plan ≡ ok tt
unfolding run read_time
validate_sample = refl

expand_group_leaves-total_example :
    (leaves : List Identifier) × (expand_group_leaves plan (codes "everyone" ∷ []) ≡ ok leaves)
    × ((id : Identifier)
        → (contains id leaves ≡ true)
          ↔ ∥ (Reaches plan (codes "everyone" ∷ []) id × IsLeaf plan id) ∥₁)
expand_group_leaves-total_example = expand_group_leaves-total plan (codes "everyone" ∷ [])

target_policy-least_privilege_example :
    (validate libraries plan ≡ ok tt)
    × ((id : Identifier) (entry : TargetSecretPolicyV1)
        → map_get id host_policy.secrets ≡ some entry
        → IsGranted plan host plan.secrets id entry)
    × ((id : Identifier) (secret : Secret)
        → HasEntry id secret plan.secrets
        → target_is_consumer plan secret host ≡ true
        → contains_key id host_policy.secrets ≡ true)
unfolding run read_time
target_policy-least_privilege_example =
    target_policy-least_privilege libraries plan_text plan host host_policy refl

target_is_consumer-Selected_example :
    (target_is_consumer plan laptop mac ≡ true) ↔ ∥ Selected plan laptop mac ∥₁
unfolding run
target_is_consumer-Selected_example =
    target_is_consumer-Selected plan laptop (mac ∷ []) mac refl refl

repository_only-no_consumer_example :
    (target_is_consumer plan archive host ≡ false) × (is_direct archive.delivery ≡ false)
unfolding run
repository_only-no_consumer_example =
    repository_only-no_consumer plan (codes "archive") archive host refl refl

selected_consumer_targets-Selected_example :
    (contains host (mac ∷ []) ≡ true) ↔ ∥ Selected plan laptop host ∥₁
unfolding run
selected_consumer_targets-Selected_example =
    selected_consumer_targets-Selected plan laptop (mac ∷ []) host refl

secret_recipients_sound_example :
    (is_empty laptop_recipients.recipients ≡ false)
    × ((id : Identifier) (key : Text)
        → map_get id laptop_recipients.recipients ≡ some key
        → IsRecipient plan laptop id key)
    × ((id : Identifier) (identity : Identity)
        → HasEntry id identity plan.identities
        → is_recovery identity.kind ≡ true
        → contains_key id laptop_recipients.recipients ≡ true)
unfolding run read_time
secret_recipients_sound_example =
    secret_recipients_sound libraries plan_text plan (codes "laptop") laptop laptop_recipients refl
      refl

target_policy-templates_example : IsRenderable plan host_policy.secrets config_policy
unfolding run read_time
target_policy-templates_example =
    target_policy-templates libraries plan_text plan host host_policy (codes "config") config_policy
      refl refl

target_approval_policy_sound_example :
    (1 ≤ one_signer.threshold)
    × (one_signer.threshold ≤ length one_signer.signers)
    × AllSigners plan one_signer.signers
unfolding run
target_approval_policy_sound_example = target_approval_policy_sound plan none one_signer refl

target_approval_policy-returns_example :
    (policy : TargetApprovalPolicyV1) × (target_approval_policy strict_plan (some (codes "twice"))
      ≡ ok policy)
    × (policy.threshold ≡ twice.threshold)
    × (length policy.signers ≡ length (to_set twice.signers))
unfolding run
target_approval_policy-returns_example =
    target_approval_policy-returns strict_plan (codes "twice") twice refl refl

template_phase-HasPhase_example :
    (map_values config.placeholders ≢ [])
    × All (HasPhase plan activation) (map_values config.placeholders)
unfolding run
template_phase-HasPhase_example =
    template_phase-HasPhase plan (codes "config") config activation refl

is_private_runtime_mode-owner_example :
    (is_private_runtime_mode (codes "0400") ≡ true)
    ↔ ((b : ℕ) × (codes "0400" ≡ b'0' ∷ b ∷ b'0' ∷ b'0' ∷ []) × (b'1' ≤ b) × (b ≤ b'7'))
is_private_runtime_mode-owner_example = is_private_runtime_mode-owner (codes "0400")

parse-slash_example : IsId (codes "db" ++ b'/' ∷ codes "primary.key")
unfolding run
parse-slash_example = parse-slash (codes "db") (codes "primary.key") refl refl

output_id_runs : output_id (codes "config") ≡ ok (codes "templates/" ++ codes "config")
unfolding run
output_id_runs = refl

target_policy-returns_example :
    (policy : TargetPolicyV1) × (target_policy libraries plan_text plan mac ≡ ok policy)
unfolding run read_time
target_policy-returns_example =
    target_policy-returns libraries plan_text plan mac mac_target (codes "plan") refl refl refl refl

secret_recipients-returns_example :
    (result : SecretRecipientsV1) × (secret_recipients libraries plan_text plan (codes "database")
      ≡ ok result)
unfolding run read_time
secret_recipients-returns_example =
    secret_recipients-returns libraries plan_text plan (codes "database") database (codes "plan")
      refl refl refl refl

merge-IsMerged_example : IsMerged plan more merged
unfolding run
merge-IsMerged_example = merge-IsMerged plan more merged refl

validate_authorization_namespace-AreDisjoint_example :
    (validate_authorization_namespace plan ≡ ok tt) ↔ (
      AreDisjoint plan.identities plan.groups
      × AreDisjoint plan.identities plan.targets
      × AreDisjoint plan.groups plan.targets)
validate_authorization_namespace-AreDisjoint_example =
    validate_authorization_namespace-AreDisjoint plan

target_approval_policy-SignsWith_example : codes "seal" ≡ codes "seal"
unfolding run read_time
target_approval_policy-SignsWith_example =
    target_approval_policy-SignsWith libraries plan none one_signer (codes "seal") (codes "seal")
      (codes "key1") (codes "key1") seal_key refl refl refl refl refl refl

validate_secrets-HasSource_example : codes "archive" ≡ codes "archive"
unfolding run read_time
validate_secrets-HasSource_example =
    validate_secrets-HasSource libraries plan (codes "archive") (codes "archive") archive archive
      refl (inl (refl, refl)) (inl (refl, refl)) refl

walk-ends_example : walk group_graph cyclic ≢ err out_of_fuel
walk-ends_example = walk-ends group_graph cyclic

secret_artifact_policy-target_is_consumer_example :
    is_err (secret_artifact_policy host_policy (codes "laptop"))
    ≡ not (target_is_consumer plan laptop host)
unfolding run read_time
secret_artifact_policy-target_is_consumer_example =
    secret_artifact_policy-target_is_consumer libraries plan_text plan host host_policy
      (codes "laptop") laptop refl refl refl
