-- ===== src/Runtime/Names.antt =====
-- crates/nix-seal-runtime/src/lib.rs: the checks on modes, names and paths of an activation.
pub mod Agree
use nix_seal.Prelude.{
  ℕ, ◌*◌, ◌^◌, ◌%◌, Bool, true, false, not, ◌||◌, ◌&&◌, Option, some, none, List, [], ◌∷◌, ◌++◌,
  is_empty, length, all, any, ltb, leb, ◌==◌, is_err, Result, ok, err, ◌>>=◌, ◌>>◌, fail_if, ok_or,
  fold_each, if◌then◌else◌,
}
use nix_seal.Prelude.Text.{
  Text, codes, text_eq, text_ord, starts_with, is_ascii_control, is_ascii_whitespace,
  is_ascii_lowercase, is_ascii_digit,
}
use nix_seal.Prelude.Numbers.{from_str_radix}
use nix_seal.Prelude.Collections.{BTreeMap, contains, set_insert}
use nix_seal.Core.Id
use nix_seal.Core.Id.{Identifier, IdError}
use nix_seal.Core.Plan.{ActivationPhase, activation, TemplateEncoding, phase_eq}
use nix_seal.Core.Path.{
  Component, root_dir, cur_dir, parent_dir, normal, is_absolute, components, is_root_or_normal,
  has_file_name,
}
use nix_seal.Core.Symlink.{valid_compatibility_symlink}
use nix_seal.Runtime.Error.{RuntimeError, invalid_spec, invalid_destination}

-- `mode & 0o077` is the remainder by 64.
unfoldable pub validate_mode : ℕ → Result RuntimeError (Unit {0})
validate_mode mode =
    fail_if (mode == 0 || ltb 0o700 mode || not (mode % 64 == 0)) invalid_destination

unfoldable pub parse_mode : Text → Result RuntimeError ℕ
unfolding validate_mode
parse_mode value = do
  fail_if (not (length value == 4) || not (starts_with value (codes "0"))) invalid_spec
  mode ← ok_or (from_str_radix value 8) invalid_spec
  validate_mode mode
  ok mode

abbrev pub is_bad_account_byte : ℕ → Bool
is_bad_account_byte c = is_ascii_control c || c == b'/' || c == b':' || is_ascii_whitespace c

unfoldable pub is_account_name : Text → Bool
is_account_name value =
    not (is_empty value) && leb (length value) 256 && not (any is_bad_account_byte value)

abbrev pub is_ascii_uppercase : ℕ → Bool
is_ascii_uppercase c = leb b'A' c && leb c b'Z'

abbrev pub is_unit_byte : ℕ → Bool
is_unit_byte c =
    is_ascii_lowercase c
    || is_ascii_uppercase c
    || is_ascii_digit c
    || (c == b'_' || c == b'-' || c == b'.' || c == b'@' || c == b':')

unfoldable pub is_unit_name : Text → Bool
is_unit_name value = not (is_empty value) && leb (length value) 256 && all is_unit_byte value

abbrev pub starts_lowercase_or_digit : Text → Bool
starts_lowercase_or_digit [] = false
starts_lowercase_or_digit (c ∷ s) = is_ascii_lowercase c || is_ascii_digit c

abbrev pub is_name_byte : ℕ → Bool
is_name_byte c = is_ascii_lowercase c || is_ascii_digit c || (c == b'_' || c == b'-' || c == b'.')

unfoldable pub is_runtime_placeholder_name : Text → Bool
is_runtime_placeholder_name value =
    not (is_empty value)
    && leb (length value) 128
    && starts_lowercase_or_digit value
    && all is_name_byte value

abbrev pub or_invalid_spec : Result IdError Identifier → Result RuntimeError Identifier
or_invalid_spec (ok id) = ok id
or_invalid_spec (err e) = err invalid_spec

unfoldable pub template_output_id : Identifier → Result RuntimeError Identifier
template_output_id template_id = or_invalid_spec (Id.parse (codes "templates/" ++ template_id))

abbrev pub component_eq : Component → Component → Bool
component_eq root_dir root_dir = true
component_eq cur_dir cur_dir = true
component_eq parent_dir parent_dir = true
component_eq (normal s) (normal t) = text_eq s t
component_eq _ _ = false

-- `path.starts_with(base)`, over the components of both.
unfoldable pub begins_with : List Component → List Component → Bool
begins_with path [] = true
begins_with [] (c ∷ base) = false
begins_with (d ∷ path) (c ∷ base) = component_eq d c && begins_with path base

-- A compatibility link that passed the first check has a parent, and an absolute one: it is the
-- path up to the last slash.
unfoldable pub has_absolute_parent : Text → Bool
has_absolute_parent path = is_absolute path && has_file_name (components path)

unfoldable pub valid_compatibility_path : Text → Text → Bool
unfolding begins_with has_absolute_parent
valid_compatibility_path path runtime_root =
    valid_compatibility_symlink path
    && not (begins_with (components path) (components runtime_root))
    && has_absolute_parent path

unfoldable pub is_normalized_absolute_path : Text → Bool
is_normalized_absolute_path path = is_absolute path && all is_root_or_normal (components path)
