-- ===== src/Policy/Target/Returns.antt =====
-- The steps of `target_policy` of crates/nix-seal-policy/src/lib.rs on a plan that is valid.
use nix_seal.Prelude.{
  ◌≡◌, refl, inl, inr, true, not, Option, some, [], All-map, ok, ok_or, fail_if, for_each, is_empty,
  fold_each-returns, >>=-eq-ok, >>-eq-ok, ok_or-eq-ok, Bool-cases, ltb, ◌||◌, length,
}
use nix_seal.Prelude.Text.{Text, codes, text_ord}
use nix_seal.Prelude.Collections.{
  BTreeMap, distinct, map_keys, map_get, get-HasEntry, All-HasEntry, map_insert,
}
use nix_seal.Libraries.{Libraries}
use nix_seal.Core.Id.{Identifier}
use nix_seal.Core.Plan.{
  PlanV2, Secret, Template, Target, Identity, ActivationPhase, runtime_for_target,
}
use nix_seal.Policy.Chars.{is_normalized_public_path}
use nix_seal.Policy.Selectors.{validate_target}
use nix_seal.Policy.Secrets.{check_approval, target_is_consumer}
use nix_seal.Policy.Secrets.References.{check_references-References}
use nix_seal.Policy.Templates.{check_placeholder, template_phase, validate_template}
use nix_seal.Policy.Approval.{TargetApprovalPolicyV1}
use nix_seal.Policy.Approval.Default.{approval-returns}
use nix_seal.Policy.Validate.{check_target, validate}
use nix_seal.Policy.Validate.Checks.{Checks, validate-Checks}
use nix_seal.Policy.Recipients.{domain_hash, canonical, canonical_json, plan_hash}
use nix_seal.Policy.Target.{
  target_policy_schema, TargetSecretPolicyV1, TargetTemplatePolicyV1, TargetPolicyV1, secret_policy,
  add_secret, target_secrets, is_authorized, add_template, target_templates, target_policy,
}

abbrev policy_of_secret : Secret → Identifier → TargetApprovalPolicyV1 → TargetSecretPolicyV1
policy_of_secret secret target_id approval = record {
  source = secret.source;
  source_ciphertext_hash = secret.source_ciphertext_hash;
  delivery = secret.delivery;
  phase = secret.phase;
  runtime = runtime_for_target secret target_id;
  approval = approval;
}

abbrev policy_of_template : Template → ActivationPhase → TargetTemplatePolicyV1
policy_of_template template phase = record {
  source = template.source;
  phase = phase;
  placeholders = template.placeholders;
  runtime = template.runtime;
}

abbrev policy_of_target :
    Identifier
    → Target
    → Identity
    → Text
    → BTreeMap Identifier TargetSecretPolicyV1
    → BTreeMap Identifier TargetTemplatePolicyV1
    → TargetPolicyV1
policy_of_target target_id target identity hash secrets templates = record {
  schema = target_policy_schema;
  plan_hash = hash;
  target_id = target_id;
  target_kind = target.kind;
  system = target.system;
  username = target.username;
  recipient_identity = target.identity;
  recipient = identity.public;
  service_actions = target.service_actions;
  secrets = secrets;
  templates = templates;
}

module _ (plan : PlanV2) where
  -- What `validate` says of an entry of the secrets and of the templates.
  abbrev HasApproval : Identifier × Secret → Type 0
  HasApproval entry = check_approval plan entry.0 entry.1.approval_policy ≡ ok tt

  abbrev PhaseReturns : Identifier × Template → Type 0
  PhaseReturns entry = (phase : ActivationPhase) × (template_phase plan entry.0 entry.1 ≡ ok phase)

  phase_of_template :
      (entry : Identifier × Template) → validate_template plan entry ≡ ok tt → PhaseReturns entry
  unfolding validate_template
  phase_of_template (id, template) h =
      let (_, h1) = >>-eq-ok (fail_if (not (is_normalized_public_path template.source)) _) _ h in
      let (_, h2) =
        >>-eq-ok
          (fail_if (is_empty template.placeholders || ltb 256 (length template.placeholders)) _) _
          h1 in
      let (_, h3) = >>-eq-ok (for_each (check_placeholder plan id) template.placeholders) _ h2 in
      let (phase, found, _) = >>=-eq-ok (template_phase plan id template) _ h3 in (phase, found)

  add_secret-returns :
      (target_id : Identifier)
      → distinct (map_keys plan.identities) ≡ true
      → Checks plan
      → (m : BTreeMap Identifier TargetSecretPolicyV1) (entry : Identifier × Secret)
      → HasApproval entry
      → (result : BTreeMap Identifier TargetSecretPolicyV1) × (add_secret plan target_id m entry
          ≡ ok result)
  unfolding add_secret secret_policy
  add_secret-returns target_id once checks m (id, secret) h =
      let (approval, found) =
        approval-returns plan id secret.approval_policy once checks.policies h in
      elim (Bool-cases (target_is_consumer plan secret target_id)) [
        | inl consumer ↦ (
          map_insert id (policy_of_secret secret target_id approval) m,
          rw (consumer, found) refl,
        )
        | inr other ↦ (m, rw other refl)
      ]

  add_template-returns :
      (secrets : BTreeMap Identifier TargetSecretPolicyV1)
      (m : BTreeMap Identifier TargetTemplatePolicyV1) (entry : Identifier × Template)
      → PhaseReturns entry
      → (result : BTreeMap Identifier TargetTemplatePolicyV1) × (add_template plan secrets m entry
          ≡ ok result)
  unfolding add_template
  add_template-returns secrets m (id, template) (phase, found) =
      elim (Bool-cases (is_authorized plan secrets template)) [
        | inl authorized ↦
            (map_insert id (policy_of_template template phase) m, rw (authorized, found) refl)
        | inr refused ↦ (m, rw refused refl)
      ]

  pub identity_of_target :
      (id : Identifier) (target : Target)
      → check_target plan (id, target) ≡ ok tt
      → (identity : Identity) × (map_get target.identity plan.identities ≡ some identity)
  unfolding check_target
  identity_of_target id target h =
      let (_, h1) = >>-eq-ok (validate_target id target) _ h in
      let (identity, found, _) =
        >>=-eq-ok (ok_or (map_get target.identity plan.identities) _) _ h1 in
      (identity, ok_or-eq-ok _ _ found)

-- A plan that is valid has a policy for each of its targets: no step of the projection fails, given
-- that the identities have distinct keys and that the plan can be written as canonical JSON.
pub target_policy-returns :
    (lib : Libraries) (plan_jcs : PlanV2 → Option Text) (plan : PlanV2) (target_id : Identifier)
    (target : Target) (bytes : Text)
    → validate lib plan ≡ ok tt
    → distinct (map_keys plan.identities) ≡ true
    → map_get target_id plan.targets ≡ some target
    → plan_jcs plan ≡ some bytes
    → (policy : TargetPolicyV1) × (target_policy lib plan_jcs plan target_id ≡ ok policy)
unfolding target_policy target_secrets target_templates plan_hash canonical_json canonical
target_policy-returns lib plan_jcs plan target_id target bytes valid once declared written =
    let checks = validate-Checks lib plan valid in
    let (identity, named) = identity_of_target plan target_id target (
      All-HasEntry (λ (e : Identifier × Target). check_target plan e ≡ ok tt) plan.targets
        checks.targets (get-HasEntry target_id plan.targets declared)) in
    let (secrets, projected) =
      fold_each-returns (HasApproval plan) (add_secret plan target_id)
        (add_secret-returns plan target_id once checks) plan.secrets []
        (All-map
          (λ (e : Identifier × Secret) h. (check_references-References plan e.0 e.1 h).approval)
          plan.secrets checks.secrets) in
    let (templates, rendered) =
      fold_each-returns (PhaseReturns plan) (add_template plan secrets)
        (add_template-returns plan secrets) plan.templates []
        (All-map (phase_of_template plan) plan.templates checks.templates) in
    (
      policy_of_target target_id target identity
          (domain_hash lib (codes "nix-seal plan hash v1") bytes) secrets templates,
      rw (valid, declared, named, projected, rendered, written) refl,
    )
