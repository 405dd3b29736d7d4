-- ===== src/Policy/Target.antt =====
-- crates/nix-seal-policy/src/lib.rs: the policy that one target may activate, its part for one
-- secret, and their hashes. The canonical JSON of serde_jcs is a parameter.
pub mod Parts
pub mod Privilege
pub mod Rendered
pub mod Returns
pub mod Artifact
use nix_seal.Prelude.{
  ℕ, Bool, true, false, ◌&&◌, not, Option, none, some, List, [], ◌∷◌, all, Result, ok, err, ◌>>=◌,
  ◌>>◌, fail_if, ok_or, fold_each, if◌then◌else◌,
}
use nix_seal.Prelude.Text.{Text, codes, text_ord}
use nix_seal.Prelude.Collections.{BTreeMap, contains_key, map_get, map_insert, map_values}
use nix_seal.Libraries.{Libraries}
use nix_seal.Core.Id.{Identifier}
use nix_seal.Core.Plan.{
  PlanV2, Secret, Template, TemplatePlaceholder, TargetKind, TargetServiceActions, DeliveryMode,
  ActivationPhase, RuntimeSettings, runtime_for_target,
}
use nix_seal.Policy.Error.{
  PolicyError, violation, policy_missing_target, target_missing_identity, artifact_not_authorized,
}
use nix_seal.Policy.Secrets.{target_is_consumer}
use nix_seal.Policy.Templates.{template_phase}
use nix_seal.Policy.Approval.{TargetApprovalPolicyV1, target_approval_policy}
use nix_seal.Policy.Validate.{validate}
use nix_seal.Policy.Recipients.{domain_hash, canonical, plan_hash}

abbrev pub target_policy_schema : Text
target_policy_schema = codes "nix-seal.target-policy.v1"

abbrev pub secret_artifact_policy_schema : Text
secret_artifact_policy_schema = codes "nix-seal.secret-artifact-policy.v1"

pub record TargetSecretPolicyV1 : Type 0 where
  pub source : Text
  pub source_ciphertext_hash : Text
  pub delivery : DeliveryMode
  pub phase : ActivationPhase
  pub runtime : RuntimeSettings
  pub approval : TargetApprovalPolicyV1

pub record TargetTemplatePolicyV1 : Type 0 where
  pub source : Text
  pub phase : ActivationPhase
  pub placeholders : BTreeMap Text TemplatePlaceholder
  pub runtime : RuntimeSettings

pub record TargetPolicyV1 : Type 0 where
  pub schema : Text
  pub plan_hash : Text
  pub target_id : Identifier
  pub target_kind : TargetKind
  pub system : Text
  pub username : Option Text
  pub recipient_identity : Identifier
  pub recipient : Text
  pub service_actions : Option TargetServiceActions
  pub secrets : BTreeMap Identifier TargetSecretPolicyV1
  pub templates : BTreeMap Identifier TargetTemplatePolicyV1

pub record SecretArtifactPolicyV1 : Type 0 where
  pub schema : Text
  pub target_id : Identifier
  pub target_kind : TargetKind
  pub system : Text
  pub username : Option Text
  pub recipient_identity : Identifier
  pub recipient : Text
  pub secret_id : Identifier
  pub secret : TargetSecretPolicyV1

module _ (plan : PlanV2) where
  module _ (target_id : Identifier) where
    unfoldable pub secret_policy : Secret → Result PolicyError TargetSecretPolicyV1
    secret_policy secret = do
      approval ← target_approval_policy plan secret.approval_policy
      ok (record {
        source = secret.source;
        source_ciphertext_hash = secret.source_ciphertext_hash;
        delivery = secret.delivery;
        phase = secret.phase;
        runtime = runtime_for_target secret target_id;
        approval = approval;
      })

    -- The body of the loop over the secrets of the plan.
    unfoldable pub add_secret :
        BTreeMap Identifier TargetSecretPolicyV1
        → Identifier × Secret
        → Result PolicyError (BTreeMap Identifier TargetSecretPolicyV1)
    add_secret secrets (secret_id, secret) =
        if target_is_consumer plan secret target_id
        then (do policy ← secret_policy secret; ok (map_insert secret_id policy secrets))
        else ok secrets

    unfoldable pub target_secrets :
        BTreeMap Identifier Secret → Result PolicyError (BTreeMap Identifier TargetSecretPolicyV1)
    target_secrets secrets = fold_each add_secret [] secrets

  module _ (secrets : BTreeMap Identifier TargetSecretPolicyV1) where
    -- The closure of `filter`.
    unfoldable pub is_authorized : Template → Bool
    is_authorized template =
        all (λ (p : TemplatePlaceholder). contains_key p.secret secrets)
          (map_values template.placeholders)

    -- `filter`, `map` and `collect`, one template at a time.
    unfoldable pub add_template :
        BTreeMap Identifier TargetTemplatePolicyV1
        → Identifier × Template
        → Result PolicyError (BTreeMap Identifier TargetTemplatePolicyV1)
    add_template templates (template_id, template) =
        if is_authorized template
        then (do
          phase ← template_phase plan template_id template
          ok (
              map_insert template_id
                (record {
                  source = template.source;
                  phase = phase;
                  placeholders = template.placeholders;
                  runtime = template.runtime;
                })
                templates))
        else ok templates

    unfoldable pub target_templates :
        BTreeMap Identifier Template
        → Result PolicyError (BTreeMap Identifier TargetTemplatePolicyV1)
    target_templates templates = fold_each add_template [] templates

module _ (lib : Libraries) (plan_jcs : PlanV2 → Option Text) where
  unfoldable pub target_policy : PlanV2 → Identifier → Result PolicyError TargetPolicyV1
  target_policy plan target_id = do
    validate lib plan
    target ← ok_or (map_get target_id plan.targets) (violation (policy_missing_target target_id))
    recipient ←
        ok_or (map_get target.identity plan.identities)
          (violation (target_missing_identity target_id target.identity))
    secrets ← target_secrets plan target_id plan.secrets
    templates ← target_templates plan secrets plan.templates
    hash ← plan_hash lib plan_jcs plan
    ok (record {
      schema = target_policy_schema;
      plan_hash = hash;
      target_id = target_id;
      target_kind = target.kind;
      system = target.system;
      username = target.username;
      recipient_identity = target.identity;
      recipient = recipient.public;
      service_actions = target.service_actions;
      secrets = secrets;
      templates = templates;
    })

unfoldable pub secret_artifact_policy :
    TargetPolicyV1 → Identifier → Result PolicyError SecretArtifactPolicyV1
secret_artifact_policy policy secret_id = do
  secret ←
      ok_or (map_get secret_id policy.secrets)
        (violation (artifact_not_authorized secret_id policy.target_id))
  ok (record {
    schema = secret_artifact_policy_schema;
    target_id = policy.target_id;
    target_kind = policy.target_kind;
    system = policy.system;
    username = policy.username;
    recipient_identity = policy.recipient_identity;
    recipient = policy.recipient;
    secret_id = secret_id;
    secret = secret;
  })

module _ (lib : Libraries) where
  unfoldable pub target_policy_hash :
      (TargetPolicyV1 → Option Text) → TargetPolicyV1 → Result PolicyError Text
  target_policy_hash policy_jcs policy = do
    bytes ← canonical policy_jcs policy
    ok (domain_hash lib (codes "nix-seal target policy hash v1") bytes)

  unfoldable pub secret_artifact_policy_hash :
      (SecretArtifactPolicyV1 → Option Text) → TargetPolicyV1 → Identifier → Result PolicyError Text
  secret_artifact_policy_hash artifact_jcs policy secret_id = do
    artifact ← secret_artifact_policy policy secret_id
    bytes ← canonical artifact_jcs artifact
    ok (domain_hash lib (codes "nix-seal secret artifact policy hash v1") bytes)
