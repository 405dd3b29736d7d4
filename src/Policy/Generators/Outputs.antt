-- ===== src/Policy/Generators/Outputs.antt =====
-- crates/nix-seal-policy/src/lib.rs: the outputs, prompts and secret dependencies that a generator
-- declares, against those of the generators before it.
use nix_seal.Prelude.{
  ◌==◌, ltb, Bool, false, ◌||◌, not, Option, none, some, List, [], length, is_empty, any, Result,
  ok, ◌>>=◌, ◌>>◌, fail_if, for_each, fold_each,
}
use nix_seal.Prelude.Text.{Text, text_ord}
use nix_seal.Prelude.Collections.{
  BTreeMap, contains, set_insert, to_set, contains_key, map_get, map_insert,
}
use nix_seal.Core.Id.{Identifier}
use nix_seal.Core.Plan.{PlanV2, Generator, GeneratorPrompt, GeneratorPublicOutput}
use nix_seal.Policy.Error.{
  PolicyError, Checked, violation, secret_output, public_output, secret_dependency_order,
  generator_prompts, generator_secret_dependencies,
}
use nix_seal.Policy.Chars.{valid_repository_relative_path}

-- The sets that `validate_generator_outputs` is lent.
pub record Claimed : Type 0 where
  pub outputs : List Identifier
  pub public_ids : List Identifier
  pub destinations : List Text
  pub producers : BTreeMap Identifier Identifier

-- `output_producers.get(secret_id)` and the test on the producer.
unfoldable pub lacks_producer : Generator → Option Identifier → Bool
lacks_producer generator none = false
lacks_producer generator (some producer) = not (contains producer generator.dependencies)

abbrev pub shown_producer : Option Identifier → Identifier
shown_producer none = []
shown_producer (some producer) = producer

module _ (plan : PlanV2) where
  unfoldable pub claim_output : Identifier → Claimed → Identifier → Result PolicyError Claimed
  claim_output generator_id c output = do
    fail_if
        (not (contains_key output plan.secrets)
          || contains output c.public_ids
          || contains output c.outputs)
        (violation (secret_output generator_id output))
    ok (record c {
      outputs = set_insert output c.outputs;
      producers = map_insert output generator_id c.producers;
    })

  unfoldable pub claim_public_output :
      Identifier → List Text → Claimed → GeneratorPublicOutput → Result PolicyError Claimed
  claim_public_output generator_id secret_sources c output = do
    fail_if
        (contains output.id c.public_ids
          || contains output.id c.outputs
          || not (valid_repository_relative_path output.destination)
          || contains output.destination c.destinations
          || contains output.destination secret_sources)
        (violation (public_output generator_id output.id))
    ok (record c {
      public_ids = set_insert output.id c.public_ids;
      destinations = set_insert output.destination c.destinations;
    })

  unfoldable pub validate_generator_outputs :
      List Text → Claimed → Identifier → Generator → Result PolicyError Claimed
  validate_generator_outputs secret_sources c generator_id generator = do
    claimed ← fold_each (claim_output generator_id) c generator.outputs
    fold_each (claim_public_output generator_id secret_sources) claimed generator.public_outputs

  unfoldable pub validate_generator_secret_dependencies : Identifier → Generator → Checked
  validate_generator_secret_dependencies generator_id generator =
      let dependencies = to_set generator.secret_dependencies in
      fail_if
        (not (length dependencies == length generator.secret_dependencies)
          || any (λ secret. not (contains_key secret plan.secrets)) dependencies
          || any (λ secret. contains secret generator.outputs) dependencies)
        (violation (generator_secret_dependencies generator_id))

  unfoldable pub check_dependency_order :
      BTreeMap Identifier Identifier → Identifier → Generator → Identifier → Checked
  check_dependency_order producers generator_id generator secret_id =
      let producer = map_get secret_id producers in
      fail_if (lacks_producer generator producer)
        (violation (secret_dependency_order generator_id (shown_producer producer) secret_id))

  unfoldable pub check_generator_order :
      BTreeMap Identifier Identifier → Identifier × Generator → Checked
  check_generator_order producers (generator_id, generator) =
      for_each (check_dependency_order producers generator_id generator)
        generator.secret_dependencies

  unfoldable pub validate_generated_secret_dependency_order :
      BTreeMap Identifier Identifier → Checked
  validate_generated_secret_dependency_order producers =
      for_each (check_generator_order producers) plan.generators

-- The closure of `prompts.iter().any`, which also takes note of the prompt's identifier.
unfoldable pub claim_prompt :
    Identifier → List Identifier → GeneratorPrompt → Result PolicyError (List Identifier)
claim_prompt generator_id known prompt = do
  fail_if
      (is_empty prompt.message
        || ltb 4096 (length prompt.message)
        || any (λ byte. byte == 0) prompt.message
        || contains prompt.id known)
      (violation (generator_prompts generator_id))
  ok (set_insert prompt.id known)

unfoldable pub validate_generator_prompts :
    Identifier → Generator → List Identifier → Result PolicyError (List Identifier)
validate_generator_prompts generator_id generator known = do
  fail_if (ltb 64 (length generator.prompts)) (violation (generator_prompts generator_id))
  fold_each (claim_prompt generator_id) known generator.prompts
