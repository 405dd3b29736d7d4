-- ===== src/Policy/Target/Artifact.antt =====
-- `secret_artifact_policy`: which artifacts a target's policy authorizes.
use nix_seal.Prelude.{
  ◌≡◌, refl, sym, ◌∙◌, inl, inr, true, not, Option, some, ok, is_err, Bool-cases, Option-cases,
  subst,
}
use nix_seal.Prelude.Text.{Text, text_ord}
use nix_seal.Prelude.Collections.{
  HasEntry-get, get-HasEntry, distinct, map_keys, map_get, contains_key-get,
}
use nix_seal.Libraries.{Libraries}
use nix_seal.Core.Id.{Identifier}
use nix_seal.Core.Plan.{PlanV2, Secret}
use nix_seal.Policy.Secrets.{target_is_consumer}
use nix_seal.Policy.Target.{TargetPolicyV1, target_policy, secret_artifact_policy}
use nix_seal.Policy.Target.Privilege.{target_policy-least_privilege}

some_injective : {A : Type 0} {a b : A} → some a ≡ some b → a ≡ b
some_injective h = cc

-- An artifact of a secret can be authorized for a target exactly if the target is a consumer of the
-- secret: the projection of the target's policy to the secret fails for every other target. The
-- secrets of the plan have distinct keys.
pub secret_artifact_policy-target_is_consumer :
    (lib : Libraries) (plan_jcs : PlanV2 → Option Text) (plan : PlanV2) (target_id : Identifier)
    (policy : TargetPolicyV1) (id : Identifier) (secret : Secret)
    → target_policy lib plan_jcs plan target_id ≡ ok policy
    → distinct (map_keys plan.secrets) ≡ true
    → map_get id plan.secrets ≡ some secret
    → is_err (secret_artifact_policy policy id) ≡ not (target_is_consumer plan secret target_id)
unfolding secret_artifact_policy
secret_artifact_policy-target_is_consumer lib plan_jcs plan target_id policy id secret h once
      declared =
    let (_, granted, full) = target_policy-least_privilege lib plan_jcs plan target_id policy h in
    elim (Bool-cases (target_is_consumer plan secret target_id)) [
      | inl consumer ↦
          let there = full id secret (get-HasEntry id plan.secrets declared) consumer in
          let (entry, found) = contains_key-get id policy.secrets there in rw (consumer, found) refl
      | inr other ↦ elim (Option-cases (map_get id policy.secrets)) [
        | inl gone ↦ rw (other, gone) refl
        | inr (entry, found) ↦
            let g = granted id entry found in
            let same =
              some_injective (sym (HasEntry-get id plan.secrets once g.entry) ∙ declared) in
            let yes_it_is =
              subst (λ s. target_is_consumer plan s target_id ≡ true) same g.consumer in
            absurd (cc)
      ]
    ]
