-- ===== src/Policy/Templates/Phase.antt =====
-- The phase that `template_phase` of crates/nix-seal-policy/src/lib.rs gives a template.
use nix_seal.Prelude.{
  ◌≡◌, inl, inr, not, some, List, [], ◌∷◌, All, All-map, arith, ok, ◌≢◌, fail_if, for_each,
  for_each-All, >>=-eq-ok, >>-eq-ok, ok_injective, Option-cases, subst,
}
use nix_seal.Prelude.Text.{text_ord}
use nix_seal.Prelude.Collections.{map_get, map_values}
use nix_seal.Core.Id.{Identifier}
use nix_seal.Core.Plan.{
  PlanV2, Secret, Template, TemplatePlaceholder, ActivationPhase, phase_eq, phase_eq_iff,
}
use nix_seal.Policy.Error.{PolicyError}
use nix_seal.Policy.Templates.{placeholder_phase, check_phase, common_phase, template_phase}

-- The secret of a placeholder is declared, and of the phase.
pub record HasPhase (plan : PlanV2) (phase : ActivationPhase) (p : TemplatePlaceholder)
    : Type 0 where
  pub secret : Secret
  pub declared : map_get p.secret plan.secrets ≡ some secret
  pub of_phase : secret.phase ≡ phase

module _ (plan : PlanV2) (template_id : Identifier) where
  placeholder_phase-HasPhase :
      (p : TemplatePlaceholder) (phase : ActivationPhase)
      → placeholder_phase plan template_id p ≡ ok phase
      → HasPhase plan phase p
  unfolding placeholder_phase
  placeholder_phase-HasPhase p phase h = elim (Option-cases (map_get p.secret plan.secrets)) [
    | inl gone ↦ let e = rw gone at h in absurd (cc)
    | inr (secret, found) ↦ record {
      secret = secret;
      declared = found;
      of_phase = ok_injective (rw found at h);
    }
  ]

  check_phase-HasPhase :
      (phase : ActivationPhase) (p : TemplatePlaceholder)
      → check_phase plan template_id phase p ≡ ok tt
      → HasPhase plan phase p
  unfolding check_phase
  check_phase-HasPhase phase p h =
      let (candidate, found, tested) = >>=-eq-ok (placeholder_phase plan template_id p) _ h in
      subst (λ q. HasPhase plan q p) (same candidate phase _ tested)
        (placeholder_phase-HasPhase p candidate found)
    where
      same :
          (a b : ActivationPhase) (e : PolicyError) → fail_if (not (phase_eq a b)) e ≡ ok tt → a ≡ b
      same a b e t = ground (arith, phase_eq_iff a b)

  common_phase-HasPhase :
      (ps : List TemplatePlaceholder) (phase : ActivationPhase)
      → common_phase plan template_id ps ≡ ok phase
      → All (HasPhase plan phase) ps
  unfolding common_phase
  common_phase-HasPhase [] phase h = tt
  common_phase-HasPhase (p ∷ ps) phase h =
      let (first, found, rest) = >>=-eq-ok (placeholder_phase plan template_id p) _ h in
      let (checked, same) = >>-eq-ok (for_each (check_phase plan template_id first) ps) _ rest in
      subst (λ q. All (HasPhase plan q) (p ∷ ps)) (ok_injective same)
        (
          placeholder_phase-HasPhase p first found,
          All-map (check_phase-HasPhase first) ps
              (for_each-All (check_phase plan template_id first) ps checked),
        )

-- A template that has a phase uses at least one secret, and each secret that it uses is declared
-- and has that phase.
pub template_phase-HasPhase :
    (plan : PlanV2) (template_id : Identifier) (template : Template) (phase : ActivationPhase)
    → template_phase plan template_id template ≡ ok phase
    → (map_values template.placeholders ≢ [])
      × All (HasPhase plan phase) (map_values template.placeholders)
unfolding template_phase
template_phase-HasPhase plan template_id template phase h = (
  λ e. nonempty e,
  common_phase-HasPhase plan template_id (map_values template.placeholders) phase h,
)
  where
    nonempty : map_values template.placeholders ≡ [] → ⊥
    nonempty e = absurd (unfold common_phase in let bad = rw e at h in cc)
