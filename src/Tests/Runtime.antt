-- ===== src/Tests/Runtime.antt =====
-- An activation of one secret and one template, and a service manager that knows one active unit.
mod Run
mod Witnesses
mod Streams
mod Switch
use nix_seal.Prelude.{
  ℕ, true, false, none, some, List, [], ◌∷◌, ◌++◌, ◌==◌, ok, Result, length, if◌then◌else◌,
}
use nix_seal.Prelude.Text.{Text, codes, text_eq}
use nix_seal.Prelude.Collections.{BTreeMap}
use nix_seal.Core.Plan.{activation, utf8}
use nix_seal.Runtime.Error.{RuntimeError}
use nix_seal.Runtime.Spec.{
  ActivationSpecV2, ActivationArtifactSpecV2, ActivationTemplateSpecV1, TemplatePlaceholderSpecV1,
  PostSwitchSpecV1, activation_schema, persistent, systemd_system,
}
use nix_seal.Runtime.Services.{Call, ExitStatus, Manager, call_of}

abbrev pub secret_file : ActivationArtifactSpecV2
secret_file = record {
  secret_id = codes "db";
  phase = activation;
  mode = codes "0400";
  owner = codes "root";
  group = codes "root";
  compatibility_symlink = some (codes "/etc/db");
}

abbrev pub shown : TemplatePlaceholderSpecV1
shown = record { secret_id = codes "db"; encoding = utf8 }

abbrev pub placeholders : BTreeMap Text TemplatePlaceholderSpecV1
placeholders = (codes "pw", shown) ∷ []

abbrev pub config_file : ActivationTemplateSpecV1
config_file = record {
  source = codes "/nix/store/t";
  template_id = codes "conf";
  phase = activation;
  placeholders = placeholders;
  mode = codes "0600";
  owner = codes "root";
  group = codes "root";
}

abbrev pub actions : PostSwitchSpecV1
actions = record {
  executable = codes "/usr/bin/systemctl";
  manager = systemd_system;
  reload_units = codes "nginx" ∷ [];
  restart_units = codes "db" ∷ codes "old" ∷ [];
  timeout_seconds = 30;
}

abbrev pub spec : ActivationSpecV2
spec = record {
  schema = activation_schema;
  runtime_root = codes "/run/s";
  runtime_storage = persistent;
  runtime_generation = none;
  plan = codes "/nix/p";
  artifact_cache_root = codes "/var/c";
  target_id = codes "web";
  phase = activation;
  allowed_clock_skew = 300;
  artifacts = secret_file ∷ [];
  templates = config_file ∷ [];
  post_switch = some actions;
}

-- The unit `old` is inactive; every other call succeeds.
unfoldable pub systemctl : Manager
unfolding text_eq
systemctl made call = ok (some (if text_eq call.unit (codes "old") then 3 else 0))

abbrev pub calls : List Call
calls =
    call_of (codes "nginx") (codes "reload" ∷ codes "nginx" ∷ [])
    ∷ call_of (codes "db") (codes "is-active" ∷ codes "--quiet" ∷ codes "db" ∷ [])
    ∷ call_of (codes "db") (codes "try-restart" ∷ codes "db" ∷ [])
    ∷ call_of (codes "old") (codes "is-active" ∷ codes "--quiet" ∷ codes "old" ∷ [])
    ∷ []

abbrev pub source : Text
source = codes "a={{ b }} pw={{nix-seal:pw}}!"

abbrev pub pieces : TemplatePlaceholderSpecV1 → Result RuntimeError (List Text)
pieces p = ok (codes "se" ∷ codes "cret" ∷ [])
