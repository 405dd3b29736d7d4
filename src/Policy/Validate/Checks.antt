-- ===== src/Policy/Validate/Checks.antt =====
-- What every object of a plan has passed once `validate` accepts the plan.
use nix_seal.Prelude.{
  ◌≡◌, not, List, [], any, All, ltb, ok, fail_if, for_each, for_each-All, fold_each, fold_each-All,
  >>=-eq-ok, >>-eq-ok,
}
use nix_seal.Prelude.Text.{Text, text_ord}
use nix_seal.Prelude.Collections.{map_values, contains}
use nix_seal.Libraries.{Libraries}
use nix_seal.Core.Id.{Identifier}
use nix_seal.Core.Plan.{PlanV2, Secret}
use nix_seal.Policy.Chars.{valid_repository_relative_path, is_sha256}
use nix_seal.Policy.Merge.{ensure_schema}
use nix_seal.Policy.Groups.{validate_group_graph}
use nix_seal.Policy.Secrets.{check_references, validate_secret, validate_secrets}
use nix_seal.Policy.Templates.{validate_template, validate_templates}
use nix_seal.Policy.Approval.{validate_approval}
use nix_seal.Policy.Validate.{
  collection_sizes, validate_authorization_namespace, bad_public, check_identity, claim_key,
  check_target, validate,
}

pub record Checks (plan : PlanV2) : Type 0 where
  pub targets : All (λ entry. check_target plan entry ≡ ok tt) plan.targets
  pub secrets : All (λ entry. check_references plan entry.0 entry.1 ≡ ok tt) plan.secrets
  pub templates : All (λ entry. validate_template plan entry ≡ ok tt) plan.templates
  pub policies : All (λ entry. validate_approval plan entry ≡ ok tt) plan.approval_policies

module _ (lib : Libraries) (plan : PlanV2) where
  validate_secret-references :
      (sources : List Text) (entry : Identifier × Secret) (result : List Text)
      → validate_secret plan lib sources entry ≡ ok result
      → check_references plan entry.0 entry.1 ≡ ok tt
  unfolding validate_secret
  validate_secret-references sources (id, secret) result h =
      let (_, h1) = >>-eq-ok (fail_if (not (valid_repository_relative_path secret.source)) _) _ h in
      let (_, h2) = >>-eq-ok (fail_if (contains secret.source sources) _) _ h1 in
      let (_, h3) = >>-eq-ok (fail_if (not (is_sha256 secret.source_ciphertext_hash)) _) _ h2 in
      (>>-eq-ok (check_references plan id secret) _ h3).0

  secrets-checked :
      validate_secrets plan lib ≡ ok tt
      → All (λ entry. check_references plan entry.0 entry.1 ≡ ok tt) plan.secrets
  unfolding validate_secrets
  secrets-checked h =
      let (sources, looped, _) =
        >>=-eq-ok (fold_each (validate_secret plan lib) [] plan.secrets) _ h in
      fold_each-All (λ (entry : Identifier × Secret). check_references plan entry.0 entry.1 ≡ ok tt)
        (validate_secret plan lib) validate_secret-references plan.secrets [] sources looped

  pub validate-Checks : validate lib plan ≡ ok tt → Checks plan
  unfolding validate validate_templates
  validate-Checks h =
      let (_, h1) = >>-eq-ok (ensure_schema plan) _ h in
      let (_, h2) =
        >>-eq-ok (fail_if (any (λ count. ltb 10000 count) (collection_sizes plan)) _) _ h1 in
      let (_, h3) = >>-eq-ok (validate_authorization_namespace plan) _ h2 in
      let (_, h4) = >>-eq-ok (validate_group_graph plan) _ h3 in
      let (_, h5) = >>-eq-ok (fail_if (any bad_public (map_values plan.identities)) _) _ h4 in
      let (_, h6) = >>-eq-ok (for_each (check_identity lib) plan.identities) _ h5 in
      let (_, _, h7) = >>=-eq-ok (fold_each (claim_key lib) [] plan.identities) _ h6 in
      let (targets, h8) = >>-eq-ok (for_each (check_target plan) plan.targets) _ h7 in
      let (secrets, h9) = >>-eq-ok (validate_secrets plan lib) _ h8 in
      let (templates, h10) = >>-eq-ok (for_each (validate_template plan) plan.templates) _ h9 in
      let (policies, _) =
        >>-eq-ok (for_each (validate_approval plan) plan.approval_policies) _ h10 in
      record {
        targets = for_each-All (check_target plan) plan.targets targets;
        secrets = secrets-checked secrets;
        templates = for_each-All (validate_template plan) plan.templates templates;
        policies = for_each-All (validate_approval plan) plan.approval_policies policies;
      }
