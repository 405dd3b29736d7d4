-- ===== src/Tests/Sample.antt =====
-- A plan with two hosts, a nested group, an administrator and a signer, and libraries that read
-- every key and take a text for its own hash.
use nix_seal.Prelude.{◌++◌, ℕ, ◌+◌, true, false, Option, none, some, [], ◌∷◌}
use nix_seal.Prelude.Text.{Text, codes}
use nix_seal.Prelude.Numbers.{from_str_radix}
use nix_seal.Libraries.{Libraries, ed25519}
use nix_seal.Policy.Kahn.{Graph}
use nix_seal.Core.Plan.{
  PlanV2, Target, Secret, Template, Generator, ApprovalPolicy, rekeyed, direct, activation,
  administrator, target, recovery, signer, nix_os, darwin, utf8, default_plan, default_runtime,
  default_selectors,
}

unfoldable pub read_time : Text → Option ℕ
unfolding from_str_radix
read_time s = from_str_radix s 10

abbrev pub libraries : Libraries
libraries = record {
  x25519_recipient = λ s. some s;
  plugin_recipient = λ s. none;
  ssh_recipient = λ s. none;
  base64_decode = λ s. none;
  verifying_key = λ s. some s;
  ssh_from_ed25519 = λ s. none;
  ssh_from_openssh = λ s. some (record { algorithm = ed25519; ed25519_bytes = some s });
  blake3_hex = λ s. s;
  blake3_derive_hex = λ c s. s;
  parse_timestamp = read_time;
  timestamp_to_string = λ t. [];
  timestamp_add_seconds = λ t s. some (t + s);
  timestamp_from_system = λ t. some t;
}

abbrev pub hash : Text
hash = codes "0123456789abcdef0123456789abcdef0123456789abcdef0123456789abcdef"

-- For all servers, by a group of a group.
abbrev pub database : Secret
database = record {
  source = codes "secrets/db.age";
  source_ciphertext_hash = hash;
  delivery = rekeyed;
  administrators = codes "ops" ∷ [];
  consumers = codes "everyone" ∷ [];
  selectors = default_selectors;
  phase = activation;
  runtime = default_runtime;
  runtime_overrides = [];
  lifecycle = record {
    created_at = some (codes "100");
    rotated_at = none;
    expires_at = some (codes "500");
    rotate_after_days = none;
    contact = none;
    purpose = none;
    classification = none;
    incident_reference = none;
  };
  repository_only = false;
  approval_policy = none;
}

-- For the repository alone.
abbrev pub archive : Secret
archive = record database {
  source = codes "secrets/archive.age";
  consumers = [];
  repository_only = true;
}

-- For the Darwin hosts, which a selector picks.
abbrev pub laptop : Secret
laptop = record database {
  source = codes "secrets/laptop.age";
  consumers = [];
  delivery = direct;
  selectors = record default_selectors { kinds = darwin ∷ [] };
}

abbrev pub config : Template
config = record {
  source = codes "templates/app.conf";
  placeholders = (codes "db", record { secret = codes "database"; encoding = utf8 }) ∷ [];
  runtime = default_runtime;
}

abbrev pub random : Generator
random = record {
  executable = codes "builtin:random";
  arguments = [];
  runtime_inputs = [];
  timeout_seconds = 30;
  max_output_bytes = 67108864;
  dependencies = [];
  secret_dependencies = [];
  outputs = codes "database" ∷ [];
  public_outputs = [];
  prompts = [];
  parameters = [];
  validation = none;
}

abbrev pub host : Text
host = codes "host"

abbrev pub mac : Text
mac = codes "mac"

abbrev pub mac_target : Target
mac_target = record {
  kind = darwin;
  system = codes "aarch64-darwin";
  identity = codes "mac-key";
  username = none;
  configuration = none;
  environment = none;
  tags = [];
  service_actions = none;
}

abbrev pub plan : PlanV2
plan = record default_plan {
  identities =
      (codes "host-key", record { kind = target; public = codes "age1host" })
      ∷ (codes "mac-key", record { kind = target; public = codes "age1mac" })
      ∷ (codes "ops", record { kind = administrator; public = codes "age1ops" })
      ∷ (codes "safe", record { kind = recovery; public = codes "age1safe" })
      ∷ (codes "seal", record { kind = signer; public = codes "key1" })
      ∷ [];
  groups =
      (codes "everyone", record { members = codes "servers" ∷ [] })
      ∷ (codes "servers", record { members = host ∷ [] })
      ∷ [];
  targets =
      (
        host,
        record {
          kind = nix_os;
          system = codes "x86_64-linux";
          identity = codes "host-key";
          username = none;
          configuration = none;
          environment = none;
          tags = [];
          service_actions = none;
        },
      )
      ∷ (mac, mac_target)
      ∷ [];
  secrets =
      (codes "archive", archive) ∷ (codes "database", database) ∷ (codes "laptop", laptop) ∷ [];
  generators = (codes "random", random) ∷ [];
  templates = (codes "config", config) ∷ [];
}

-- One signer, listed twice.
abbrev pub twice : ApprovalPolicy
twice = record { threshold = 1; signers = codes "seal" ∷ codes "seal" ∷ [] }

abbrev pub strict_plan : PlanV2
strict_plan = record plan { approval_policies = (codes "twice", twice) ∷ [] }

-- A second source with one more group, and the two merged.
abbrev pub more : PlanV2
more = record default_plan { groups = (codes "extra", record { members = [] }) ∷ [] }

abbrev pub merged : PlanV2
merged = record plan {
  groups =
      (codes "everyone", record { members = codes "servers" ∷ [] })
      ∷ (codes "extra", record { members = [] })
      ∷ (codes "servers", record { members = host ∷ [] })
      ∷ [];
}

-- The identifier of the key of the identity `seal`.
abbrev pub seal_key : Text
seal_key = codes "ed25519:" ++ (codes "nix-seal.ed25519-key-id.v1" ++ 0 ∷ codes "key1")

-- Two groups, of which each waits for the other.
abbrev pub cyclic : Graph
cyclic = record {
  indegree = (codes "a", 1) ∷ (codes "b", 1) ∷ [];
  dependents = (codes "a", codes "b" ∷ []) ∷ (codes "b", codes "a" ∷ []) ∷ [];
}
