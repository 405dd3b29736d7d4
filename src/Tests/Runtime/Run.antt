-- ===== src/Tests/Runtime/Run.antt =====
-- `unfolding host_run` lets a test compute with the activation of a host.
use nix_seal.Runtime.Generations.{
  generation_name, parse_u64_from, see_entry, next_generation, current_generation,
}
use nix_seal.Runtime.Names.{
  validate_mode, parse_mode, is_account_name, is_unit_name, is_runtime_placeholder_name,
  template_output_id, begins_with, has_absolute_parent, valid_compatibility_path,
  is_normalized_absolute_path,
}
use nix_seal.Runtime.Services.{manager_arguments, reload_each, restart_each, run_post_switch_with}
use nix_seal.Runtime.Spec.{
  check_unit, validate_post_switch, check_artifact, check_template, validate_activation,
}
use nix_seal.Runtime.Streams.{write_groups, base64_loop, copy_base64, hex, copy_hex}
use nix_seal.Runtime.Switch.{
  without, symlink_metadata, create_link, remove_file, rename, sync_root, check_current, clear_next,
  switch_current,
}
use nix_seal.Runtime.Template.{
  is_utf8_from, is_utf8, find_text, read_name, visit_loop, visit_template_source,
  validate_template_source, template_write_all, render_part, render_template_into,
}
use nix_seal.Runtime.World.{call}

unfoldable pub host_run : Unit {0}
unfolding generation_name parse_u64_from see_entry next_generation current_generation validate_mode
    parse_mode is_account_name is_unit_name is_runtime_placeholder_name template_output_id
    begins_with has_absolute_parent valid_compatibility_path is_normalized_absolute_path
    manager_arguments reload_each restart_each run_post_switch_with check_unit validate_post_switch
    check_artifact check_template validate_activation write_groups base64_loop copy_base64 hex
    copy_hex without symlink_metadata create_link remove_file rename sync_root check_current
    clear_next switch_current is_utf8_from is_utf8 find_text read_name visit_loop
    visit_template_source validate_template_source template_write_all render_part
    render_template_into call
host_run = tt
