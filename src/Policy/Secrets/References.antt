-- ===== src/Policy/Secrets/References.antt =====
-- What a secret's references resolve to once their checks have passed.
use nix_seal.Prelude.{
  ◌≡◌, false, not, List, ok, fail_if, for_each, any, >>=-eq-ok, >>-eq-ok, fail_if-eq-ok,
}
use nix_seal.Prelude.Text.{text_ord}
use nix_seal.Prelude.Collections.{map_get, contains_key}
use nix_seal.Core.Id.{Identifier}
use nix_seal.Core.Plan.{PlanV2, Secret}
use nix_seal.Policy.Groups.{expand_group_leaves}
use nix_seal.Policy.Selectors.{validate_target_selectors, selected_consumer_targets}
use nix_seal.Policy.Secrets.{
  check_consumer, check_administrator, validate_repository_only_secret, is_admin_identity,
  lacks_recipients, check_approval, check_references,
}

-- What the checks on the references of a secret establish.
pub record References (plan : PlanV2) (id : Identifier) (secret : Secret) : Type 0 where
  pub administrators : List Identifier
  pub expanded : expand_group_leaves plan secret.administrators ≡ ok administrators
  pub admins : any (λ x. not (is_admin_identity (map_get x plan.identities))) administrators ≡ false
  pub targets : List Identifier
  pub selected : selected_consumer_targets plan secret ≡ ok targets
  pub declared : any (λ x. not (contains_key x plan.targets)) targets ≡ false
  pub enough : lacks_recipients plan secret administrators targets ≡ false
  pub approval : check_approval plan id secret.approval_policy ≡ ok tt

module _ (plan : PlanV2) where
  pub check_references-References :
      (id : Identifier) (secret : Secret)
      → check_references plan id secret ≡ ok tt
      → References plan id secret
  unfolding check_references
  check_references-References id secret h =
      let (_, h1) = >>-eq-ok (for_each (check_consumer plan id) secret.consumers) _ h in
      let (_, h2) = >>-eq-ok (for_each (check_administrator plan id) secret.administrators) _ h1 in
      let (_, h3) = >>-eq-ok (validate_target_selectors plan id secret) _ h2 in
      let (_, h4) = >>-eq-ok (validate_repository_only_secret id secret) _ h3 in
      let (administrators, expanded, h5) =
        >>=-eq-ok (expand_group_leaves plan secret.administrators) _ h4 in
      let (admins, h6) =
        >>-eq-ok
          (fail_if (any (λ x. not (is_admin_identity (map_get x plan.identities))) administrators)
            _)
          _ h5 in
      let (targets, selected, h7) = >>=-eq-ok (selected_consumer_targets plan secret) _ h6 in
      let (declared, h8) =
        >>-eq-ok (fail_if (any (λ x. not (contains_key x plan.targets)) targets) _) _ h7 in
      let (enough, approval) =
        >>-eq-ok (fail_if (lacks_recipients plan secret administrators targets) _) _ h8 in
      record {
        administrators = administrators;
        expanded = expanded;
        admins = fail_if-eq-ok _ _ admins;
        targets = targets;
        selected = selected;
        declared = fail_if-eq-ok _ _ declared;
        enough = fail_if-eq-ok _ _ enough;
        approval = approval;
      }
