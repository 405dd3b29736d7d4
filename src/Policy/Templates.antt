-- ===== src/Policy/Templates.antt =====
-- crates/nix-seal-policy/src/lib.rs: templates, and the phase in which one is rendered.
pub mod Phase
pub mod Output
use nix_seal.Prelude.{
  ℕ, ltb, Bool, true, false, ◌||◌, not, Option, none, some, List, [], ◌∷◌, ◌++◌, length, is_empty,
  Result, ok, err, ◌>>=◌, ◌>>◌, fail_if, ok_or, for_each, if◌then◌else◌,
}
use nix_seal.Prelude.Text.{Text, codes, text_ord}
use nix_seal.Prelude.Collections.{BTreeMap, contains_key, map_get, map_values}
use nix_seal.Core.Id
use nix_seal.Core.Id.{Identifier, IdError}
use nix_seal.Core.Plan.{PlanV2, Secret, Template, TemplatePlaceholder, ActivationPhase, phase_eq}
use nix_seal.Policy.Error.{
  PolicyError, Checked, violation, template_source, template_placeholder_count, placeholder_name,
  placeholder_missing_secret, template_missing_secret, template_no_placeholders, template_phases,
  template_mode, template_symlink, template_output_id, template_collision,
}
use nix_seal.Policy.Chars.{is_normalized_public_path, is_placeholder_name, is_private_runtime_mode}
use nix_seal.Policy.Lifecycle.{is_some}

-- `result.map_err(|error| Violation(error.to_string()))`.
abbrev pub or_violation : Result IdError Identifier → Result PolicyError Identifier
or_violation (ok id) = ok id
or_violation (err e) = err (violation (template_output_id e))

-- `Id::parse(format!("templates/{id}"))`.
unfoldable pub output_id : Identifier → Result PolicyError Identifier
output_id id = or_violation (Id.parse (codes "templates/" ++ id))

module _ (plan : PlanV2) where
  -- The closure that `phases` maps over the placeholders.
  unfoldable pub placeholder_phase :
      Identifier → TemplatePlaceholder → Result PolicyError ActivationPhase
  placeholder_phase template_id placeholder = do
    secret ←
        ok_or (map_get placeholder.secret plan.secrets)
          (violation (template_missing_secret template_id placeholder.secret))
    ok secret.phase

  unfoldable pub check_phase : Identifier → ActivationPhase → TemplatePlaceholder → Checked
  check_phase template_id phase placeholder = do
    candidate ← placeholder_phase template_id placeholder
    fail_if (not (phase_eq candidate phase)) (violation (template_phases template_id))

  unfoldable pub common_phase :
      Identifier → List TemplatePlaceholder → Result PolicyError ActivationPhase
  common_phase template_id [] = err (violation (template_no_placeholders template_id))
  common_phase template_id (first ∷ rest) = do
    phase ← placeholder_phase template_id first
    for_each (check_phase template_id phase) rest
    ok phase

  unfoldable pub template_phase : Identifier → Template → Result PolicyError ActivationPhase
  template_phase template_id template = common_phase template_id (map_values template.placeholders)

  unfoldable pub check_placeholder : Identifier → Text × TemplatePlaceholder → Checked
  check_placeholder id (name, placeholder) = do
    fail_if (not (is_placeholder_name name)) (violation (placeholder_name id name))
    fail_if (not (contains_key placeholder.secret plan.secrets))
        (violation (placeholder_missing_secret id name placeholder.secret))

  unfoldable pub validate_template : Identifier × Template → Checked
  validate_template (id, template) = do
    fail_if (not (is_normalized_public_path template.source)) (violation (template_source id))
    fail_if (is_empty template.placeholders || ltb 256 (length template.placeholders))
        (violation (template_placeholder_count id))
    for_each (check_placeholder id) template.placeholders
    _ ← template_phase id template
    fail_if (not (is_private_runtime_mode template.runtime.mode)) (violation (template_mode id))
    fail_if (is_some template.runtime.compatibility_symlink) (violation (template_symlink id))
    output ← output_id id
    fail_if (contains_key output plan.secrets) (violation (template_collision id output))

  unfoldable pub validate_templates : Checked
  validate_templates = for_each validate_template plan.templates
