-- ===== src/Tests/Run.antt =====
-- `unfolding run` lets a test compute with the whole program.
use nix_seal.Core.Id
use nix_seal.Core.Path.{body, leading, is_absolute, components, has_file_name}
use nix_seal.Core.Plan.{runtime_for_target}
use nix_seal.Core.Symlink.{valid_compatibility_symlink}
use nix_seal.Keys.Approval.{
  parse_native, parse_openssh, parse_public_key, native_key_id, key_id, validate_public_key,
  public_key_id,
}
use nix_seal.Keys.Recipient.{
  normalize_recipient_inner, normalize_recipient, normalize_migration_recipient,
}
use nix_seal.Policy.Approval.{
  ids_of_kind, approval_choice, add_signer, add_signers, target_approval_policy, check_signer,
  validate_approval,
}
use nix_seal.Policy.Chars.{
  is_sha256, is_owner_only, is_private_runtime_mode, is_normalized_public_path, is_placeholder_name,
  valid_repository_relative_path, valid_store_executable, is_generator_parameter_name,
}
use nix_seal.Policy.Generators.Execution.{
  is_one_of, argon2id_value, argon2id_parameter, validate_argon2id_password_hash_generator,
  bad_settings, validate_generator_execution,
}
use nix_seal.Policy.Generators.Order.{
  exceeds_limits, is_bad_parameter, bad_parameters, check_dependency, scan_generator,
  validate_generator_graph,
}
use nix_seal.Policy.Generators.Outputs.{
  claim_output, claim_public_output, validate_generator_outputs,
  validate_generator_secret_dependencies, lacks_producer, check_dependency_order,
  check_generator_order, validate_generated_secret_dependency_order, claim_prompt,
  validate_generator_prompts,
}
use nix_seal.Policy.Groups.{
  offer, offer_all, expand_one, expand_loop, expand_group_leaves, hunt_through, hunt_loop, hunt,
  check_member, group_dependencies, scan_group, validate_group_graph,
}
use nix_seal.Policy.Kahn.{
  push_dependent, push_dependents, add_node, ready_nodes, release, release_all, visit, drain, walk,
}
use nix_seal.Policy.Lifecycle.{
  parse_timestamp, parse_optional, is_inconsistent, validate_lifecycle, due_time, rotation_due_at,
  state_at, report_secret,
}
use nix_seal.Policy.Merge.{read_plan_source, ensure_schema, append_entry, disjoint_append, merge}
use nix_seal.Policy.Recipients.{
  domain_hash, canonical, administrator_ids, add_administrator, add_administrators, add_recovery,
  add_target, add_targets, add_consumers, canonical_json, plan_hash, secret_recipients,
}
use nix_seal.Policy.Secrets.{
  bad_symlink, validate_runtime_settings, validate_repository_only_secret, selected_contains,
  target_is_consumer, check_consumer, check_administrator, lacks_recipients, check_approval,
  check_override, check_references, validate_secret, validate_secrets,
}
use nix_seal.Policy.Selectors.{
  validate_bounded_selector_values, has_duplicates, bad_service_actions, validate_target,
  check_selector_group, check_selector_ids, check_selector_texts, validate_target_selectors,
  selects, matches, retained, extend_groups, base_candidates, selected_consumer_targets,
}
use nix_seal.Policy.Target.{
  secret_policy, add_secret, target_secrets, is_authorized, add_template, target_templates,
  target_policy, secret_artifact_policy, target_policy_hash, secret_artifact_policy_hash,
}
use nix_seal.Policy.Templates.{
  placeholder_phase, check_phase, common_phase, template_phase, check_placeholder, output_id,
  validate_template, validate_templates,
}
use nix_seal.Policy.Validate.{
  shared_keys, refuse_shared, validate_authorization_namespace, check_identity, claim_key,
  check_target, validate, lifecycle_report,
}
use nix_seal.Prelude.Collections.{map_get, contains_key, map_replace, map_place, map_insert}
use nix_seal.Prelude.Collections.{contains, place, set_insert, set_union, to_set, distinct}
use nix_seal.Prelude.Numbers.{
  to_digit, parse_digits, from_str_radix, checked_add, checked_mul, checked_sub, trailing_zeros,
}
use nix_seal.Prelude.Text.{
  text_eq, text_lt, text_ord, any_control_char, starts_with, contains_text, ends_with_byte,
  strip_prefix, split,
}
use nix_seal.Prelude.Trim.{strip_any, strip_all, trim}

unfoldable pub run : Unit {0}
unfolding Id.parse body leading is_absolute components has_file_name runtime_for_target
    valid_compatibility_symlink parse_native parse_openssh parse_public_key native_key_id key_id
    validate_public_key public_key_id normalize_recipient_inner normalize_recipient
    normalize_migration_recipient ids_of_kind approval_choice add_signer add_signers
    target_approval_policy check_signer validate_approval is_sha256 is_owner_only
    is_private_runtime_mode is_normalized_public_path is_placeholder_name
    valid_repository_relative_path valid_store_executable is_generator_parameter_name is_one_of
    argon2id_value argon2id_parameter validate_argon2id_password_hash_generator bad_settings
    validate_generator_execution exceeds_limits is_bad_parameter bad_parameters check_dependency
    scan_generator validate_generator_graph claim_output claim_public_output
    validate_generator_outputs validate_generator_secret_dependencies lacks_producer
    check_dependency_order check_generator_order validate_generated_secret_dependency_order
    claim_prompt validate_generator_prompts offer offer_all expand_one expand_loop
    expand_group_leaves hunt_through hunt_loop hunt check_member group_dependencies scan_group
    validate_group_graph push_dependent push_dependents add_node ready_nodes release release_all
    visit drain walk parse_timestamp parse_optional is_inconsistent validate_lifecycle due_time
    rotation_due_at state_at report_secret read_plan_source ensure_schema append_entry
    disjoint_append merge domain_hash canonical administrator_ids add_administrator
    add_administrators add_recovery add_target add_targets add_consumers canonical_json plan_hash
    secret_recipients bad_symlink validate_runtime_settings validate_repository_only_secret
    selected_contains target_is_consumer check_consumer check_administrator lacks_recipients
    check_approval check_override check_references validate_secret validate_secrets
    validate_bounded_selector_values has_duplicates bad_service_actions validate_target
    check_selector_group check_selector_ids check_selector_texts validate_target_selectors selects
    matches retained extend_groups base_candidates selected_consumer_targets secret_policy
    add_secret target_secrets is_authorized add_template target_templates target_policy
    secret_artifact_policy target_policy_hash secret_artifact_policy_hash placeholder_phase
    check_phase common_phase template_phase check_placeholder output_id validate_template
    validate_templates shared_keys refuse_shared validate_authorization_namespace check_identity
    claim_key check_target validate lifecycle_report map_get contains_key map_replace map_place
    map_insert contains place set_insert set_union to_set distinct to_digit parse_digits
    from_str_radix checked_add checked_mul checked_sub trailing_zeros text_eq text_lt text_ord
    any_control_char starts_with contains_text ends_with_byte strip_prefix split strip_any strip_all
    trim
run = tt
