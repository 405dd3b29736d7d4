-- ===== src/Policy/Target/Parts.antt =====
-- What a target policy that was returned consists of.
use nix_seal.Prelude.{
  ◌≡◌, Option, some, ok, >>=-eq-ok, >>-eq-ok, ok_or-eq-ok, ok_injective, subst, refl,
}
use nix_seal.Prelude.Text.{Text, text_ord}
use nix_seal.Prelude.Collections.{map_get}
use nix_seal.Libraries.{Libraries}
use nix_seal.Core.Id.{Identifier}
use nix_seal.Core.Plan.{PlanV2, Target, Identity}
use nix_seal.Policy.Validate.{validate}
use nix_seal.Policy.Recipients.{plan_hash}
use nix_seal.Policy.Target.{TargetPolicyV1, target_secrets, target_templates, target_policy}

pub record Parts (lib : Libraries) (plan_jcs : PlanV2 → Option Text) (plan : PlanV2)
    (target_id : Identifier) (policy : TargetPolicyV1) : Type 0 where
  pub target : Target
  pub identity : Identity
  pub valid : validate lib plan ≡ ok tt
  pub declared : map_get target_id plan.targets ≡ some target
  pub recipient : map_get target.identity plan.identities ≡ some identity
  pub secrets : target_secrets plan target_id plan.secrets ≡ ok policy.secrets
  pub templates : target_templates plan policy.secrets plan.templates ≡ ok policy.templates
  pub same_target : policy.target_id ≡ target_id
  pub same_recipient : policy.recipient ≡ identity.public

pub target_policy-Parts :
    (lib : Libraries) (plan_jcs : PlanV2 → Option Text) (plan : PlanV2) (target_id : Identifier)
    (policy : TargetPolicyV1)
    → target_policy lib plan_jcs plan target_id ≡ ok policy
    → Parts lib plan_jcs plan target_id policy
unfolding target_policy
target_policy-Parts lib plan_jcs plan target_id policy h =
    let (valid, h1) = >>-eq-ok (validate lib plan) _ h in
    let (target, found, h2) = >>=-eq-ok _ _ h1 in
    let (identity, named, h3) = >>=-eq-ok _ _ h2 in
    let (secrets, of_secrets, h4) = >>=-eq-ok (target_secrets plan target_id plan.secrets) _ h3 in
    let (templates, of_templates, h5) =
      >>=-eq-ok (target_templates plan secrets plan.templates) _ h4 in
    let (hash, of_hash, h6) = >>=-eq-ok (plan_hash lib plan_jcs plan) _ h5 in
    let e = ok_injective h6 in
    record {
      target = target;
      identity = identity;
      valid = valid;
      declared = ok_or-eq-ok _ _ found;
      recipient = ok_or-eq-ok _ _ named;
      secrets =
          subst (λ (q : TargetPolicyV1). target_secrets plan target_id plan.secrets ≡ ok q.secrets)
            e of_secrets;
      templates =
          subst
            (λ (q : TargetPolicyV1).
              target_templates plan q.secrets plan.templates ≡ ok q.templates)
            e of_templates;
      same_target = subst (λ (q : TargetPolicyV1). q.target_id ≡ target_id) e refl;
      same_recipient = subst (λ (q : TargetPolicyV1). q.recipient ≡ identity.public) e refl;
    }
