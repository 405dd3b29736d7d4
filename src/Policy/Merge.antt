-- ===== src/Policy/Merge.antt =====
-- crates/nix-seal-policy/src/lib.rs, `merge` and `ensure_schema`. The loading of plans is a read of
-- a file and a deserializer; its limit on the size is here.
pub mod Union
use nix_seal.Prelude.{
  ℕ, ◌*◌, not, Result, ok, err, ◌>>=◌, ◌>>◌, fold_each, fail_if, if◌then◌else◌, length, ltb,
}
use nix_seal.Prelude.Text.{Text, codes, text_eq, text_ord}
use nix_seal.Prelude.Collections.{BTreeMap, contains_key, map_insert}
use nix_seal.Core.Id.{Identifier}
use nix_seal.Core.Plan.{PlanV2, plan_schema}
use nix_seal.Policy.Error.{
  PolicyError, Checked, unsupported_schema, duplicate, violation, plan_too_large,
}

abbrev pub max_plan_bytes : ℕ
max_plan_bytes = 16 * 1024 * 1024

-- `read_plan_source`, of a file that opens and reads: `take` leaves at most one byte too many, which
-- is enough to tell that the file is too long.
unfoldable pub read_plan_source : Text → Result PolicyError Text
read_plan_source content =
    if ltb max_plan_bytes (length content) then err (violation plan_too_large) else ok content

unfoldable pub ensure_schema : PlanV2 → Checked
ensure_schema plan =
    fail_if (not (text_eq plan.schema plan_schema)) (unsupported_schema plan.schema)

-- One round of `disjoint_append!`: the insert returns an old value if the key was there.
unfoldable pub append_entry :
    {A : Type 0}
    → Text
    → BTreeMap Identifier A
    → Identifier × A
    → Result PolicyError (BTreeMap Identifier A)
append_entry kind left (id, value) =
    if contains_key id left then err (duplicate kind id) else ok (map_insert id value left)

unfoldable pub disjoint_append :
    {A : Type 0}
    → Text
    → BTreeMap Identifier A
    → BTreeMap Identifier A
    → Result PolicyError (BTreeMap Identifier A)
disjoint_append kind left right = fold_each (append_entry kind) left right

unfoldable pub merge : PlanV2 → PlanV2 → Result PolicyError PlanV2
merge left right = do
  ensure_schema left
  ensure_schema right
  identities ← disjoint_append (codes "identities") left.identities right.identities
  groups ← disjoint_append (codes "groups") left.groups right.groups
  targets ← disjoint_append (codes "targets") left.targets right.targets
  secrets ← disjoint_append (codes "secrets") left.secrets right.secrets
  generators ← disjoint_append (codes "generators") left.generators right.generators
  templates ← disjoint_append (codes "templates") left.templates right.templates
  policies ←
      disjoint_append (codes "approval_policies") left.approval_policies right.approval_policies
  backends ← disjoint_append (codes "backends") left.backends right.backends
  ok (record left {
    identities = identities;
    groups = groups;
    targets = targets;
    secrets = secrets;
    generators = generators;
    templates = templates;
    approval_policies = policies;
    backends = backends;
  })
