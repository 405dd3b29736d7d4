-- ===== src/Core/Plan.antt =====
-- crates/nix-seal-core/src/lib.rs: the compiled plan and its parts. A machine integer is its value;
-- a `BTreeMap` is a map in key order; what serde reads and writes is not modelled.
use nix_seal.Prelude.{
  ℕ, ◌*◌, ◌≡◌, ◌↔◌, Bool, true, false, ◌&&◌, Option, none, some, List, [], is_empty, arith, ltb,
  ◌==◌,
}
use nix_seal.Prelude.Text.{Text, codes, text_ord}
use nix_seal.Prelude.Collections.{Ord, BTreeMap, map_get}
use nix_seal.Core.Id.{Identifier}

abbrev pub plan_schema : Text
plan_schema = codes "nix-seal.plan.v2"

abbrev pub default_generator_timeout_seconds : ℕ
default_generator_timeout_seconds = 30

abbrev pub default_generator_max_output_bytes : ℕ
default_generator_max_output_bytes = 64 * 1024 * 1024

pub data IdentityKind : Type 0 where
  administrator target recovery signer authorizer plugin : IdentityKind

pub record Identity : Type 0 where
  pub kind : IdentityKind
  pub public : Text

pub record Group : Type 0 where
  pub members : List Identifier

pub data TargetKind : Type 0 where
  nix_os darwin home_manager : TargetKind

pub record TargetServiceActions : Type 0 where
  pub executable : Text
  pub timeout_seconds : ℕ

pub record Target : Type 0 where
  pub kind : TargetKind
  pub system : Text
  pub identity : Identifier
  pub username : Option Text
  pub configuration : Option Text
  pub environment : Option Text
  pub tags : List Text
  pub service_actions : Option TargetServiceActions

pub record TargetSelectors : Type 0 where
  pub targets : List Identifier
  pub groups : List Identifier
  pub kinds : List TargetKind
  pub systems : List Text
  pub usernames : List Text
  pub configurations : List Text
  pub environments : List Text
  pub tags : List Text

pub data DeliveryMode : Type 0 where
  rekeyed direct : DeliveryMode

pub data ActivationPhase : Type 0 where
  partitioning users activation services : ActivationPhase

pub record RuntimeSettings : Type 0 where
  pub owner : Text
  pub group : Text
  pub mode : Text
  pub restart_units : List Text
  pub reload_units : List Text
  pub compatibility_symlink : Option Text

pub record Lifecycle : Type 0 where
  pub created_at : Option Text
  pub rotated_at : Option Text
  pub expires_at : Option Text
  pub rotate_after_days : Option ℕ
  pub contact : Option Text
  pub purpose : Option Text
  pub classification : Option Text
  pub incident_reference : Option Text

pub record Secret : Type 0 where
  pub source : Text
  pub source_ciphertext_hash : Text
  pub delivery : DeliveryMode
  pub administrators : List Identifier
  pub consumers : List Identifier
  pub selectors : TargetSelectors
  pub phase : ActivationPhase
  pub runtime : RuntimeSettings
  pub runtime_overrides : BTreeMap Identifier RuntimeSettings
  pub lifecycle : Lifecycle
  pub repository_only : Bool
  pub approval_policy : Option Identifier

pub data GeneratorPromptMode : Type 0 where
  hidden visible : GeneratorPromptMode

pub record GeneratorPublicOutput : Type 0 where
  pub id : Identifier
  pub destination : Text

pub record GeneratorPrompt : Type 0 where
  pub id : Identifier
  pub mode : GeneratorPromptMode
  pub message : Text
  pub multiline : Bool
  pub persistent : Bool

pub record Generator : Type 0 where
  pub executable : Text
  pub arguments : List Text
  pub runtime_inputs : List Text
  pub timeout_seconds : ℕ
  pub max_output_bytes : ℕ
  pub dependencies : List Identifier
  pub secret_dependencies : List Identifier
  pub outputs : List Identifier
  pub public_outputs : List GeneratorPublicOutput
  pub prompts : List GeneratorPrompt
  pub parameters : BTreeMap Text Text
  pub validation : Option Text

pub data TemplateEncoding : Type 0 where
  utf8 base64 hex : TemplateEncoding

pub record TemplatePlaceholder : Type 0 where
  pub secret : Identifier
  pub encoding : TemplateEncoding

pub record Template : Type 0 where
  pub source : Text
  pub placeholders : BTreeMap Text TemplatePlaceholder
  pub runtime : RuntimeSettings

pub record ApprovalPolicy : Type 0 where
  pub threshold : ℕ
  pub signers : List Identifier

pub data BackendKind : Type 0 where
  age : BackendKind

pub record Backend : Type 0 where
  pub kind : BackendKind
  pub options : BTreeMap Text Text

pub record PlanV2 : Type 0 where
  pub schema : Text
  pub identities : BTreeMap Identifier Identity
  pub groups : BTreeMap Identifier Group
  pub targets : BTreeMap Identifier Target
  pub secrets : BTreeMap Identifier Secret
  pub generators : BTreeMap Identifier Generator
  pub templates : BTreeMap Identifier Template
  pub approval_policies : BTreeMap Identifier ApprovalPolicy
  pub backends : BTreeMap Identifier Backend

-- `PlanV2::default()`.
abbrev pub default_plan : PlanV2
default_plan = record {
  schema = plan_schema;
  identities = [];
  groups = [];
  targets = [];
  secrets = [];
  generators = [];
  templates = [];
  approval_policies = [];
  backends = [];
}

-- `TargetSelectors::default()`, and the derived comparison with it.
abbrev pub default_selectors : TargetSelectors
default_selectors = record {
  targets = [];
  groups = [];
  kinds = [];
  systems = [];
  usernames = [];
  configurations = [];
  environments = [];
  tags = [];
}

abbrev pub is_default_selectors : TargetSelectors → Bool
is_default_selectors s =
    is_empty s.targets
    && is_empty s.groups
    && is_empty s.kinds
    && is_empty s.systems
    && is_empty s.usernames
    && is_empty s.configurations
    && is_empty s.environments
    && is_empty s.tags

-- `RuntimeSettings::default()`.
abbrev pub default_runtime : RuntimeSettings
default_runtime = record {
  owner = codes "root";
  group = codes "root";
  mode = codes "0400";
  restart_units = [];
  reload_units = [];
  compatibility_symlink = none;
}

-- `Secret::runtime_for_target`.
unfoldable pub runtime_for_target : Secret → Identifier → RuntimeSettings
unfolding map_get
runtime_for_target secret target_id = elim (map_get target_id secret.runtime_overrides) [
  | none ↦ secret.runtime
  | some r ↦ r
]

-- The derived order of `TargetKind`, by the position of the variant.
abbrev pub kind_rank : TargetKind → ℕ
kind_rank nix_os = 0
kind_rank darwin = 1
kind_rank home_manager = 2

abbrev pub kind_eq : TargetKind → TargetKind → Bool
kind_eq a b = kind_rank a == kind_rank b

pub kind_eq_iff : (a b : TargetKind) → (kind_eq a b ≡ true) ↔ (a ≡ b)
kind_eq_iff a b = ground arith

instance abbrev pub kind_ord : Ord TargetKind
kind_ord = record {
  eq_test = kind_eq;
  eq_test_iff = kind_eq_iff;
  lt_test = λ a b. ltb (kind_rank a) (kind_rank b);
}

-- `ActivationPhase::eq`.
abbrev pub phase_eq : ActivationPhase → ActivationPhase → Bool
phase_eq partitioning partitioning = true
phase_eq users users = true
phase_eq activation activation = true
phase_eq services services = true
phase_eq _ _ = false

pub phase_eq_iff : (a b : ActivationPhase) → (phase_eq a b ≡ true) ↔ (a ≡ b)
phase_eq_iff a b = ground arith
