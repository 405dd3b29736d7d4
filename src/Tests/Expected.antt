-- ===== src/Tests/Expected.antt =====
-- What the projections of the sample plan are.
use nix_seal.Prelude.{Option, none, some, [], ◌∷◌}
use nix_seal.Prelude.Text.{Text, codes}
use nix_seal.Policy.Approval.{TargetApprovalPolicyV1}
use nix_seal.Policy.Target.{
  TargetSecretPolicyV1, TargetTemplatePolicyV1, TargetPolicyV1, target_policy_schema,
}
use nix_seal.Policy.Recipients.{SecretRecipientsV1, secret_recipients_schema}
use nix_seal.Core.Plan.{PlanV2, rekeyed, direct, activation, nix_os, utf8, default_runtime}
use nix_seal.Tests.Sample.{hash, host}

-- The canonical JSON of the plan, which the hash of the sample is.
abbrev pub plan_text : PlanV2 → Option Text
plan_text p = some (codes "plan")

abbrev pub one_signer : TargetApprovalPolicyV1
one_signer = record { threshold = 1; signers = (codes "seal", codes "key1") ∷ [] }

abbrev pub database_policy : TargetSecretPolicyV1
database_policy = record {
  source = codes "secrets/db.age";
  source_ciphertext_hash = hash;
  delivery = rekeyed;
  phase = activation;
  runtime = default_runtime;
  approval = one_signer;
}

abbrev pub config_policy : TargetTemplatePolicyV1
config_policy = record {
  source = codes "templates/app.conf";
  phase = activation;
  placeholders = (codes "db", record { secret = codes "database"; encoding = utf8 }) ∷ [];
  runtime = default_runtime;
}

-- What the target `host` may activate.
abbrev pub host_policy : TargetPolicyV1
host_policy = record {
  schema = target_policy_schema;
  plan_hash = codes "plan";
  target_id = host;
  target_kind = nix_os;
  system = codes "x86_64-linux";
  username = none;
  recipient_identity = codes "host-key";
  recipient = codes "age1host";
  service_actions = none;
  secrets = (codes "database", database_policy) ∷ [];
  templates = (codes "config", config_policy) ∷ [];
}

-- Who the secret `laptop` is encrypted to.
abbrev pub laptop_recipients : SecretRecipientsV1
laptop_recipients = record {
  schema = secret_recipients_schema;
  plan_hash = codes "plan";
  secret_id = codes "laptop";
  delivery = direct;
  recipients =
      (codes "mac-key", codes "age1mac")
      ∷ (codes "ops", codes "age1ops")
      ∷ (codes "safe", codes "age1safe")
      ∷ [];
}
