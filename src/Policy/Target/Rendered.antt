-- ===== src/Policy/Target/Rendered.antt =====
-- The templates of a target's policy.
use nix_seal.Prelude.{
  ◌≡◌, inl, inr, true, Option, some, All, all-All, arith, ok, fold_each-rule, >>=-eq-ok,
  ok_injective, Bool-cases, subst,
}
use nix_seal.Prelude.Text.{Text, text_ord}
use nix_seal.Prelude.Collections.{
  BTreeMap, map_get, map_insert, map_values, contains_key, get-map_insert,
}
use nix_seal.Libraries.{Libraries}
use nix_seal.Core.Id.{Identifier}
use nix_seal.Core.Plan.{PlanV2, Template}
use nix_seal.Policy.Templates.{template_phase}
use nix_seal.Policy.Templates.Phase.{HasPhase, template_phase-HasPhase}
use nix_seal.Policy.Target.{
  TargetPolicyV1, TargetSecretPolicyV1, TargetTemplatePolicyV1, is_authorized, add_template,
  target_templates, target_policy,
}
use nix_seal.Policy.Target.Parts.{target_policy-Parts}

module _ (plan : PlanV2) (secrets : BTreeMap Identifier TargetSecretPolicyV1) where
  -- What a template of a target's policy may use, and when it is rendered.
  pub record IsRenderable (t : TargetTemplatePolicyV1) : Type 0 where
    pub authorized : All (λ p. contains_key p.secret secrets ≡ true) (map_values t.placeholders)
    pub phases : All (HasPhase plan t.phase) (map_values t.placeholders)

  abbrev AllRenderable : BTreeMap Identifier TargetTemplatePolicyV1 → Type 0
  AllRenderable m =
      (id : Identifier) (t : TargetTemplatePolicyV1) → map_get id m ≡ some t → IsRenderable t

  insert-AllRenderable :
      (m : BTreeMap Identifier TargetTemplatePolicyV1) (id : Identifier)
      (t : TargetTemplatePolicyV1)
      → AllRenderable m
      → IsRenderable t
      → AllRenderable (map_insert id t m)
  insert-AllRenderable m id t h new j q get = elim (Bool-cases (text_ord.eq_test id j)) [
    | inl same ↦ subst IsRenderable (ground (arith, get-map_insert id j t m)) new
    | inr other ↦ h j q (ground (arith, get-map_insert id j t m))
  ]

  add_template-AllRenderable :
      (m : BTreeMap Identifier TargetTemplatePolicyV1) (x : Identifier × Template)
      (result : BTreeMap Identifier TargetTemplatePolicyV1)
      → AllRenderable m
      → add_template plan secrets m x ≡ ok result
      → AllRenderable result
  unfolding add_template is_authorized
  add_template-AllRenderable m (id, template) result h e =
      elim (Bool-cases (is_authorized plan secrets template)) [
        | inl allowed ↦
            let (phase, found, same) =
              >>=-eq-ok (template_phase plan id template) _ (rw allowed at e) in
            subst AllRenderable (ok_injective same) (
              insert-AllRenderable m id _ h (record {
                authorized = all-All _ (map_values template.placeholders) allowed;
                phases = (template_phase-HasPhase plan id template phase found).1;
              }))
        | inr refused ↦ subst AllRenderable (ok_injective (rw refused at e)) h
      ]

-- Every template of a target's policy uses only secrets of that policy, all of them of the phase
-- in which the template is rendered.
pub target_policy-templates :
    (lib : Libraries) (plan_jcs : PlanV2 → Option Text) (plan : PlanV2) (target_id : Identifier)
    (policy : TargetPolicyV1) (id : Identifier) (template : TargetTemplatePolicyV1)
    → target_policy lib plan_jcs plan target_id ≡ ok policy
    → map_get id policy.templates ≡ some template
    → IsRenderable plan policy.secrets template
unfolding target_templates map_get
target_policy-templates lib plan_jcs plan target_id policy id template h get =
    let parts = target_policy-Parts lib plan_jcs plan target_id policy h in
    fold_each-rule (AllRenderable plan policy.secrets) (add_template plan policy.secrets)
      plan.templates (λ m x t. add_template-AllRenderable plan policy.secrets m x t)
      (λ j q nothing. absurd (cc)) parts.templates id template get
