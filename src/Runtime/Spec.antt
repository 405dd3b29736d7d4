-- ===== src/Runtime/Spec.antt =====
-- crates/nix-seal-runtime/src/lib.rs, `ActivationSpecV2` and its checks before any access to files.
pub mod Valid
use nix_seal.Prelude.{
  ℕ, ◌*◌, ◌^◌, ◌%◌, Bool, true, false, not, ◌||◌, ◌&&◌, Option, some, none, List, [], ◌∷◌, ◌++◌,
  is_empty, length, all, any, ltb, leb, ◌==◌, is_err, Result, ok, err, ◌>>=◌, ◌>>◌, fail_if, ok_or,
  fold_each, if◌then◌else◌,
}
use nix_seal.Prelude.Text.{
  Text, codes, text_eq, text_ord, starts_with, is_ascii_control, is_ascii_whitespace,
  is_ascii_lowercase, is_ascii_digit,
}
use nix_seal.Prelude.Numbers.{from_str_radix}
use nix_seal.Prelude.Collections.{BTreeMap, contains, set_insert}
use nix_seal.Core.Id
use nix_seal.Core.Id.{Identifier, IdError}
use nix_seal.Core.Plan.{ActivationPhase, activation, TemplateEncoding, phase_eq}
use nix_seal.Core.Path.{
  Component, root_dir, cur_dir, parent_dir, normal, is_absolute, components, is_root_or_normal,
  has_file_name,
}
use nix_seal.Core.Symlink.{valid_compatibility_symlink}
use nix_seal.Runtime.Names.{
  parse_mode, is_account_name, is_unit_name, is_runtime_placeholder_name, template_output_id,
  valid_compatibility_path, is_normalized_absolute_path,
}
use nix_seal.Runtime.Error.{RuntimeError, invalid_spec, invalid_destination}

abbrev pub activation_schema : Text
activation_schema = codes "nix-seal.activation.v2"

pub data RuntimeStorageV1 : Type 0 where
  persistent volatile_tmpfs volatile_tmpfs_no_swap : RuntimeStorageV1

pub data ServiceManagerV1 : Type 0 where
  systemd_system systemd_user launchd_system launchd_user : ServiceManagerV1

pub record PostSwitchSpecV1 : Type 0 where
  pub executable : Text
  pub manager : ServiceManagerV1
  pub reload_units : List Text
  pub restart_units : List Text
  pub timeout_seconds : ℕ

pub record ActivationArtifactSpecV2 : Type 0 where
  pub secret_id : Identifier
  pub phase : ActivationPhase
  pub mode : Text
  pub owner : Text
  pub group : Text
  pub compatibility_symlink : Option Text

pub record TemplatePlaceholderSpecV1 : Type 0 where
  pub secret_id : Identifier
  pub encoding : TemplateEncoding

pub record ActivationTemplateSpecV1 : Type 0 where
  pub source : Text
  pub template_id : Identifier
  pub phase : ActivationPhase
  pub placeholders : BTreeMap Text TemplatePlaceholderSpecV1
  pub mode : Text
  pub owner : Text
  pub group : Text

pub record ActivationSpecV2 : Type 0 where
  pub schema : Text
  pub runtime_root : Text
  pub runtime_storage : RuntimeStorageV1
  pub runtime_generation : Option ℕ
  pub plan : Text
  pub artifact_cache_root : Text
  pub target_id : Identifier
  pub phase : ActivationPhase
  pub allowed_clock_skew : ℕ
  pub artifacts : List ActivationArtifactSpecV2
  pub templates : List ActivationTemplateSpecV1
  pub post_switch : Option PostSwitchSpecV1

abbrev pub is_launchd : ServiceManagerV1 → Bool
is_launchd launchd_system = true
is_launchd launchd_user = true
is_launchd _ = false

-- The loop over the units, which remembers those that it has seen.
unfoldable pub check_unit : List Text → Text → Result RuntimeError (List Text)
check_unit units unit = do
  fail_if (not (is_unit_name unit) || contains unit units) invalid_spec
  ok (set_insert unit units)

abbrev pub ends : {A : Type 0} → Result RuntimeError A → Result RuntimeError (Unit {0})
ends (ok a) = ok tt
ends (err e) = err e

unfoldable pub validate_post_switch : PostSwitchSpecV1 → Result RuntimeError (Unit {0})
unfolding check_unit
validate_post_switch spec = do
  fail_if
      (not (is_absolute spec.executable)
        || spec.timeout_seconds == 0
        || ltb 60 spec.timeout_seconds
        || ltb 256 (length spec.reload_units)
        || ltb 256 (length spec.restart_units)
        || is_launchd spec.manager && not (is_empty spec.reload_units))
      invalid_spec
  ends (fold_each check_unit [] (spec.reload_units ++ spec.restart_units))

-- What the two loops of the validation have seen. Two compatibility links that pass their check are
-- equal as paths only if they are equal as texts.
pub record Seen : Type 0 where
  pub destinations : List Text
  pub secret_ids : List Text
  pub compatibility_paths : List Text

abbrev pub is_taken : Option Text → Text → List Text → Bool
is_taken none runtime_root paths = false
is_taken (some path) runtime_root paths =
    not (valid_compatibility_path path runtime_root) || contains path paths

abbrev pub insert_path : Option Text → List Text → List Text
insert_path none paths = paths
insert_path (some path) paths = set_insert path paths

abbrev pub bad_artifact : Text → ActivationPhase → Seen → ActivationArtifactSpecV2 → Bool
bad_artifact runtime_root phase seen artifact =
    not (phase_eq artifact.phase phase)
    || contains artifact.secret_id seen.destinations
    || contains artifact.secret_id seen.secret_ids
    || is_err (parse_mode artifact.mode)
    || not (is_account_name artifact.owner)
    || not (is_account_name artifact.group)
    || is_taken artifact.compatibility_symlink runtime_root seen.compatibility_paths

unfoldable pub check_artifact :
    Text → ActivationPhase → Seen → ActivationArtifactSpecV2 → Result RuntimeError Seen
check_artifact runtime_root phase seen artifact = do
  fail_if (bad_artifact runtime_root phase seen artifact) invalid_spec
  ok (record {
    destinations = set_insert artifact.secret_id seen.destinations;
    secret_ids = set_insert artifact.secret_id seen.secret_ids;
    compatibility_paths = insert_path artifact.compatibility_symlink seen.compatibility_paths;
  })

abbrev pub is_bad_placeholder : List Text → Text × TemplatePlaceholderSpecV1 → Bool
is_bad_placeholder secret_ids (name, placeholder) =
    not (is_runtime_placeholder_name name) || not (contains placeholder.secret_id secret_ids)

abbrev pub bad_template :
    ActivationPhase → List Text → List Text → Text → ActivationTemplateSpecV1 → Bool
bad_template phase secret_ids destinations destination template =
    not (is_normalized_absolute_path template.source)
    || not (phase_eq template.phase phase)
    || contains destination destinations
    || is_empty template.placeholders
    || ltb 256 (length template.placeholders)
    || is_err (parse_mode template.mode)
    || not (is_account_name template.owner)
    || not (is_account_name template.group)
    || any (is_bad_placeholder secret_ids) template.placeholders

unfoldable pub check_template :
    ActivationPhase
    → List Text
    → List Text
    → ActivationTemplateSpecV1
    → Result RuntimeError (List Text)
check_template phase secret_ids destinations template = do
  destination ← template_output_id template.template_id
  fail_if (bad_template phase secret_ids destinations destination template) invalid_spec
  ok (set_insert destination destinations)

abbrev pub validate_actions : Option PostSwitchSpecV1 → Result RuntimeError (Unit {0})
validate_actions none = ok tt
validate_actions (some actions) = validate_post_switch actions

abbrev pub is_zero_generation : Option ℕ → Bool
is_zero_generation none = false
is_zero_generation (some n) = n == 0

abbrev pub nothing_seen : Seen
nothing_seen = record { destinations = []; secret_ids = []; compatibility_paths = [] }

abbrev pub bad_spec : ActivationSpecV2 → Bool
bad_spec spec =
    not (text_eq spec.schema activation_schema)
    || not (is_normalized_absolute_path spec.runtime_root)
    || not (is_normalized_absolute_path spec.plan)
    || not (is_normalized_absolute_path spec.artifact_cache_root)
    || is_zero_generation spec.runtime_generation
    || ltb 86400 spec.allowed_clock_skew
    || is_empty spec.artifacts
    || ltb 10000 (length spec.artifacts)
    || ltb 1024 (length spec.templates)

unfoldable pub validate_activation : ActivationSpecV2 → Result RuntimeError (Unit {0})
unfolding check_artifact check_template
validate_activation spec = do
  fail_if (bad_spec spec) invalid_spec
  seen ← fold_each (check_artifact spec.runtime_root spec.phase) nothing_seen spec.artifacts
  destinations ←
      fold_each (check_template spec.phase seen.secret_ids) seen.destinations spec.templates
  validate_actions spec.post_switch
