-- ===== src/Policy/Generators/Order.antt =====
-- crates/nix-seal-policy/src/lib.rs, `validate_generator_graph`.
use nix_seal.Prelude.{
  ◌==◌, ltb, Bool, false, ◌||◌, ◌&&◌, not, Option, none, some, List, [], length, is_empty, any, map,
  Result, ok, ◌>>=◌, ◌>>◌, fail_if, for_each, fold_each,
}
use nix_seal.Prelude.Text.{Text, text_ord, is_ascii_control}
use nix_seal.Prelude.Collections.{to_set, contains_key, map_values}
use nix_seal.Core.Id.{Identifier}
use nix_seal.Core.Plan.{PlanV2, Generator, Secret}
use nix_seal.Policy.Error.{
  PolicyError, Checked, violation, generator_graph, generator_limits, generator_no_output,
  generator_parameters, generator_duplicate_dependencies, generator_missing_dependency, graph_cycle,
}
use nix_seal.Policy.Chars.{is_generator_parameter_name}
use nix_seal.Policy.Kahn.{Graph, empty_graph, add_node, walk}
use nix_seal.Policy.Generators.Execution.{validate_generator_execution}
use nix_seal.Policy.Generators.Outputs.{
  Claimed, validate_generator_outputs, validate_generator_secret_dependencies,
  validate_generator_prompts, validate_generated_secret_dependency_order,
}

unfoldable pub exceeds_limits : Generator → Bool
exceeds_limits generator =
    ltb 10000 (length generator.dependencies)
    || ltb 10000 (length generator.secret_dependencies)
    || ltb 10000 (length generator.outputs)
    || ltb 10000 (length generator.public_outputs)

unfoldable pub is_bad_parameter : Text × Text → Bool
is_bad_parameter (key, value) =
    not (is_generator_parameter_name key) || ltb 4096 (length value) || any is_ascii_control value

abbrev pub is_bad_validation : Option Text → Bool
is_bad_validation none = false
is_bad_validation (some value) =
    is_empty value || ltb 4096 (length value) || any is_ascii_control value

unfoldable pub bad_parameters : Generator → Bool
bad_parameters generator =
    ltb 128 (length generator.parameters)
    || any is_bad_parameter generator.parameters
    || is_bad_validation generator.validation

-- The variables of the first loop.
pub record GeneratorScan : Type 0 where
  pub graph : Graph
  pub claimed : Claimed
  pub prompts : List Identifier

abbrev pub empty_scan : GeneratorScan
empty_scan = record {
  graph = empty_graph;
  claimed = record { outputs = []; public_ids = []; destinations = []; producers = [] };
  prompts = [];
}

abbrev pub secret_sources : PlanV2 → List Text
secret_sources plan = map (λ (s : Secret). s.source) (map_values plan.secrets)

module _ (plan : PlanV2) where
  unfoldable pub check_dependency : Identifier → Identifier → Checked
  check_dependency generator_id dependency =
      fail_if (not (contains_key dependency plan.generators))
        (violation (generator_missing_dependency generator_id dependency))

  unfoldable pub scan_generator :
      GeneratorScan → Identifier × Generator → Result PolicyError GeneratorScan
  scan_generator s (generator_id, generator) = do
    fail_if (exceeds_limits generator) (violation (generator_limits generator_id))
    validate_generator_execution generator_id generator
    prompts ← validate_generator_prompts generator_id generator s.prompts
    fail_if (is_empty generator.outputs && is_empty generator.public_outputs)
        (violation (generator_no_output generator_id))
    claimed ←
        validate_generator_outputs plan (to_set (secret_sources plan)) s.claimed generator_id
          generator
    validate_generator_secret_dependencies plan generator_id generator
    fail_if (bad_parameters generator) (violation (generator_parameters generator_id))
    fail_if (not (length (to_set generator.dependencies) == length generator.dependencies))
        (violation (generator_duplicate_dependencies generator_id))
    for_each (check_dependency generator_id) (to_set generator.dependencies)
    ok (record {
      graph = add_node s.graph generator_id (to_set generator.dependencies);
      claimed = claimed;
      prompts = prompts;
    })

  unfoldable pub validate_generator_graph : Checked
  validate_generator_graph = do
    scan ← fold_each scan_generator empty_scan plan.generators
    visited ← walk generator_graph scan.graph
    fail_if (not (visited == length plan.generators)) (violation (graph_cycle generator_graph))
    validate_generated_secret_dependency_order plan scan.claimed.producers
