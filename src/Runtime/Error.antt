-- ===== src/Runtime/Error.antt =====
-- crates/nix-seal-runtime/src/lib.rs, `RuntimeError`. An error of the operating system is one `io`.
-- `out_of_fuel` is of the model alone: a loop of the model that stops before the program's does.
use nix_seal.Prelude.Text.{Text}
use nix_seal.Keys.Approval.{ManifestError}

pub data RuntimeError : Type 0 where
  io unsafe_source invalid_destination compatibility_path limit envelope : RuntimeError
  invalid_spec template_syntax template_encoding unknown_account pending_post_switch : RuntimeError
  crypto out_of_fuel : RuntimeError
  service_action : Text → RuntimeError
  service_timeout : Text → RuntimeError
  manifest : ManifestError → RuntimeError
