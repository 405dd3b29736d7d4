-- ===== src/Policy/Error.antt =====
-- crates/nix-seal-policy/src/lib.rs, `PolicyError`. A violation is a constructor for each message,
-- with the identifiers and texts that the message shows.
use nix_seal.Prelude.{Result}
use nix_seal.Prelude.Text.{Text}
use nix_seal.Core.Id.{Identifier, IdError}

-- The labels that `validate_bounded_selector_values` is given.
pub data Label : Type 0 where
  target_values target_tags secret_selectors : Identifier → Label

-- The two graphs, whose messages differ in this word.
pub data GraphKind : Type 0 where
  group_graph generator_graph : GraphKind

-- `runtime` and `runtime override`.
pub data RuntimeLabel : Type 0 where
  runtime runtime_override : RuntimeLabel

pub data Violation : Type 0 where
  plan_not_utf8 plan_too_large : Violation
  too_many_objects : Violation
  identity_public_bounds : Violation
  invalid_age_recipient invalid_verification_key : Identifier → Violation
  signing_key_reused : Identifier → Identifier → Violation
  target_missing_identity target_identity_kind : Identifier → Identifier → Violation
  authorization_id_twice : Identifier → Text → Text → Violation
  secret_source_path secret_source_reused secret_source_hash : Identifier → Violation
  missing_consumer missing_administrator : Identifier → Identifier → Violation
  administrator_members consumer_members : Identifier → Violation
  no_encryption_recipients : Identifier → Violation
  missing_approval_policy : Identifier → Identifier → Violation
  approval_policy_required : Identifier → Violation
  override_missing_target override_not_consumer : Identifier → Identifier → Violation
  runtime_mode runtime_symlink : Identifier → RuntimeLabel → Violation
  repository_only_consumers repository_only_direct : Identifier → Violation
  duplicate_tags post_switch_policy : Identifier → Violation
  selector_ids : Identifier → Text → Violation
  selector_missing_target selector_missing_group selector_group_member :
      Identifier → Identifier → Violation
  selector_kinds : Identifier → Violation
  selector_value : Label → Violation
  selector_duplicates : Identifier → Text → Violation
  consumer_not_target : Violation
  timestamp : Text → Violation
  lifecycle_chronology : Identifier → Violation
  system_time rotation_interval rotation_due_time : Violation
  template_source template_placeholder_count : Identifier → Violation
  placeholder_name : Identifier → Text → Violation
  placeholder_missing_secret : Identifier → Text → Identifier → Violation
  template_missing_secret : Identifier → Identifier → Violation
  template_no_placeholders template_phases template_mode template_symlink : Identifier → Violation
  template_output_id : IdError → Violation
  template_collision : Identifier → Identifier → Violation
  group_too_large : Identifier → Violation
  group_member : Identifier → Identifier → Violation
  graph_limits graph_inconsistent graph_cycle : GraphKind → Violation
  missing_group : Identifier → Violation
  recipients_missing_secret : Identifier → Violation
  administrator_unresolved administrator_kind : Identifier → Violation
  direct_consumer_unresolved : Identifier → Violation
  policy_missing missing_signer not_a_signer : Identifier → Violation
  impossible_threshold : Violation
  approval_threshold : Identifier → Violation
  approval_non_signer : Identifier → Identifier → Violation
  generator_limits generator_no_output generator_parameters : Identifier → Violation
  generator_duplicate_dependencies : Identifier → Violation
  generator_missing_dependency : Identifier → Identifier → Violation
  secret_output public_output : Identifier → Identifier → Violation
  secret_dependency_order : Identifier → Identifier → Identifier → Violation
  generator_prompts generator_secret_dependencies : Identifier → Violation
  generator_executable generator_store_path generator_settings : Identifier → Violation
  argon2id_shape argon2id_bounds : Identifier → Violation
  argon2id_integer : Text → Violation
  builtin_secret_dependencies builtin_public_outputs builtin_output_count : Identifier → Violation
  policy_missing_target : Identifier → Violation
  artifact_not_authorized : Identifier → Identifier → Violation

-- `out_of_fuel` is of the model alone: a loop of the model that stops before the program's does.
pub data PolicyError : Type 0 where
  read toml json : PolicyError
  unsupported_schema : Text → PolicyError
  duplicate : Text → Identifier → PolicyError
  violation : Violation → PolicyError
  out_of_fuel : PolicyError

abbrev pub Checked : Type 0
Checked = Result PolicyError (Unit {0})
