-- ===== src/Tests/Runtime/Witnesses.antt =====
-- The theorems on activations, templates and services at the samples.
use nix_seal.Prelude.{◌≡◌, ◌↔◌, refl, ◌≢◌, not, List, [], ◌∷◌, ◌++◌, ok, err, is_err, Result}
use nix_seal.Prelude.Text.{Text, codes}
use nix_seal.Core.Plan.{utf8}
use nix_seal.Policy.Chars.{is_private_runtime_mode, is_placeholder_name}
use nix_seal.Runtime.Error.{RuntimeError, out_of_fuel}
use nix_seal.Runtime.Names.{parse_mode, is_runtime_placeholder_name}
use nix_seal.Runtime.Names.Agree.{parse_mode-is_private_runtime_mode}
use nix_seal.Runtime.Spec.{validate_post_switch}
use nix_seal.Runtime.Spec.Valid.{IsValid, validate_activation-IsValid}
use nix_seal.Runtime.Services.{Call, run_post_switch_with}
use nix_seal.Runtime.Services.Actions.{Reloads, Restarts, run_post_switch_with-Restarts}
use nix_seal.Runtime.Template.{
  TemplatePart, literal, placeholder, visit_template_source, validate_template_source,
}
use nix_seal.Runtime.Template.Fuel.{visit_template_source-ends}
use nix_seal.Runtime.Template.Output.{IsRendered, render_template_into-IsRendered}
use nix_seal.Runtime.Template.Spells.{IsVisited, visit_template_source-IsVisited}
use nix_seal.Tests.Runtime.{spec, actions, systemctl, calls, source, placeholders, pieces}
use nix_seal.Tests.Run.{run}
use nix_seal.Tests.Runtime.Run.{host_run}

abbrev output : Text
output = codes "a={{ b }} pw=secret!"

abbrev parts : List TemplatePart
parts =
    literal (codes "a={{ b }} pw=")
    ∷ placeholder (record { secret_id = codes "db"; encoding = utf8 })
    ∷ literal (codes "!")
    ∷ []

-- The visitor that keeps the parts.
abbrev keep_part : List TemplatePart → TemplatePart → Result RuntimeError (List TemplatePart)
keep_part kept part = ok (kept ++ part ∷ [])

keeps : (kept : List TemplatePart) (part : TemplatePart) → keep_part kept part ≢ err out_of_fuel
keeps kept part same = absurd (cc)

parse_mode-is_private_runtime_mode_example :
    (is_err (parse_mode (codes "0440")) ≡ not (is_private_runtime_mode (codes "0440")))
    × (is_runtime_placeholder_name (codes "0440") ≡ is_placeholder_name (codes "0440"))
parse_mode-is_private_runtime_mode_example = parse_mode-is_private_runtime_mode (codes "0440")

validate_activation-IsValid_example : IsValid spec
unfolding run host_run
validate_activation-IsValid_example = validate_activation-IsValid spec refl

run_post_switch_with_runs : run_post_switch_with 0 actions systemctl ≡ (calls, ok tt)
unfolding run host_run systemctl
run_post_switch_with_runs = refl

run_post_switch_with-Restarts_example :
    (run_post_switch_with 0 actions systemctl ≡ (calls, ok tt)) ↔ (
      (validate_post_switch actions ≡ ok tt)
      × ((between : List Call) × Reloads 0 actions.manager systemctl [] actions.reload_units between
          × Restarts 0 actions.manager systemctl between actions.restart_units calls))
run_post_switch_with-Restarts_example = run_post_switch_with-Restarts 0 actions systemctl calls

visit_template_source-IsVisited_example : IsVisited placeholders keep_part [] source parts
unfolding run host_run
visit_template_source-IsVisited_example =
    visit_template_source-IsVisited placeholders keep_part [] source parts refl

visit_template_source-ends_example :
    visit_template_source keep_part placeholders [] source ≢ err out_of_fuel
visit_template_source-ends_example =
    visit_template_source-ends keep_part placeholders keeps [] source

render_template_into-IsRendered_example : IsRendered pieces source placeholders output
unfolding run host_run
render_template_into-IsRendered_example =
    render_template_into-IsRendered pieces (λ written. ok tt) source placeholders output refl

-- A brace right before a marker hides it from the scan, whether the name is declared or not.
hidden_marker :
    validate_template_source (codes "{{nix-seal:pw}} {{{nix-seal:pw}}") placeholders ≡ ok tt
unfolding run host_run
hidden_marker = refl

hidden_undeclared :
    validate_template_source (codes "{{nix-seal:pw}} {{{nix-seal:other}}") placeholders ≡ ok tt
unfolding run host_run
hidden_undeclared = refl
