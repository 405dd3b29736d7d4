-- ===== src/Policy/Selectors.antt =====
-- crates/nix-seal-policy/src/lib.rs: selector values and the targets that a secret is for.
pub mod Extend
pub mod Selected
use nix_seal.Prelude.{
  ℕ, ◌+◌, ◌*◌, ◌==◌, ltb, leb, Bool, true, false, ◌||◌, ◌&&◌, not, Option, none, some, List, [],
  ◌∷◌, ◌++◌, length, is_empty, all, any, keep, Result, ok, err, ◌>>=◌, ◌>>◌, fail_if, for_each,
  if◌then◌else◌,
}
use nix_seal.Prelude.Text.{Text, codes, text_eq, text_ord, is_ascii_control}
use nix_seal.Prelude.Collections.{Ord, contains, set_union, to_set, contains_key, map_get, map_keys}
use nix_seal.Core.Id.{Identifier}
use nix_seal.Core.Path.{components, is_absolute, is_root_or_normal}
use nix_seal.Core.Plan.{
  PlanV2, Secret, Target, TargetServiceActions, TargetSelectors, kind_ord, is_default_selectors,
}
use nix_seal.Policy.Error.{
  PolicyError, Checked, Label, violation, target_values, target_tags, secret_selectors,
  selector_value, duplicate_tags, post_switch_policy, selector_ids, selector_missing_target,
  selector_missing_group, selector_group_member, selector_kinds, selector_duplicates,
  consumer_not_target,
}
use nix_seal.Policy.Groups.{expand_group_leaves}

abbrev pub is_bad_selector_value : Text → Bool
is_bad_selector_value value = is_empty value || ltb 256 (length value) || any is_ascii_control value

unfoldable pub validate_bounded_selector_values : Label → List Text → Checked
validate_bounded_selector_values label values =
    for_each (λ value. fail_if (is_bad_selector_value value) (violation (selector_value label)))
      values

-- `iter.flatten()` of an optional text, and `is_some_and`.
abbrev pub listed : Option Text → List Text
listed none = []
listed (some value) = value ∷ []

-- `values.iter().collect::<BTreeSet<_>>().len() != values.len()`.
unfoldable pub has_duplicates : {K : Type 0} ⦃o : Ord K⦄ → List K → Bool
has_duplicates values = not (length (to_set values) == length values)

unfoldable pub bad_service_actions : Option TargetServiceActions → Bool
bad_service_actions none = false
bad_service_actions (some actions) =
    not (is_absolute actions.executable)
    || any (λ c. not (is_root_or_normal c)) (components actions.executable)
    || any is_ascii_control actions.executable
    || ltb (16 * 1024) (length actions.executable)
    || not (leb 1 actions.timeout_seconds && leb actions.timeout_seconds 60)

unfoldable pub validate_target : Identifier → Target → Checked
validate_target id target = do
  validate_bounded_selector_values (target_values id) (
      target.system
      ∷ (listed target.username ++ (listed target.configuration ++ listed target.environment)))
  validate_bounded_selector_values (target_tags id) target.tags
  fail_if (has_duplicates target.tags) (violation (duplicate_tags id))
  fail_if (bad_service_actions target.service_actions) (violation (post_switch_policy id))

unfoldable pub check_selector_ids : Identifier → Text → List Identifier → Checked
check_selector_ids secret_id label values =
    fail_if (ltb 10000 (length values) || has_duplicates values)
      (violation (selector_ids secret_id label))

unfoldable pub check_selector_texts : Identifier → Text → List Text → Checked
check_selector_texts secret_id label values =
    fail_if (has_duplicates values) (violation (selector_duplicates secret_id label))

-- `is_empty() || option.is_some_and(|value| values.contains(value))`.
unfoldable pub selects : List Text → Option Text → Bool
selects values none = is_empty values
selects values (some value) = is_empty values || contains value values

-- The closure of `candidates.retain` on a target of the plan.
unfoldable pub matches : TargetSelectors → Target → Bool
matches selectors target =
    (is_empty selectors.kinds || contains target.kind selectors.kinds)
    && (is_empty selectors.systems || contains target.system selectors.systems)
    && selects selectors.usernames target.username
    && selects selectors.configurations target.configuration
    && selects selectors.environments target.environment
    && all (λ tag. contains tag target.tags) selectors.tags

module _ (plan : PlanV2) where
  unfoldable pub check_selector_group : Identifier → Identifier → Checked
  check_selector_group secret_id group = do
    fail_if (not (contains_key group plan.groups))
        (violation (selector_missing_group secret_id group))
    leaves ← expand_group_leaves plan (group ∷ [])
    fail_if (any (λ m. not (contains_key m plan.targets)) leaves)
        (violation (selector_group_member secret_id group))

  unfoldable pub validate_target_selectors : Identifier → Secret → Checked
  validate_target_selectors secret_id secret =
      let selectors = secret.selectors in
      do
        check_selector_ids secret_id (codes "targets") selectors.targets
        check_selector_ids secret_id (codes "groups") selectors.groups
        for_each
            (λ target.
              fail_if (not (contains_key target plan.targets))
                (violation (selector_missing_target secret_id target)))
            selectors.targets
        for_each (check_selector_group secret_id) selectors.groups
        fail_if (has_duplicates selectors.kinds) (violation (selector_kinds secret_id))
        validate_bounded_selector_values (secret_selectors secret_id) (
            selectors.systems
            ++ (selectors.usernames
                ++ (selectors.configurations ++ (selectors.environments ++ selectors.tags))))
        check_selector_texts secret_id (codes "systems") selectors.systems
        check_selector_texts secret_id (codes "usernames") selectors.usernames
        check_selector_texts secret_id (codes "configurations") selectors.configurations
        check_selector_texts secret_id (codes "environments") selectors.environments
        check_selector_texts secret_id (codes "tags") selectors.tags

  unfoldable pub retained : TargetSelectors → Identifier → Bool
  retained selectors target_id = elim (map_get target_id plan.targets) [
    | none ↦ false
    | some target ↦ matches selectors target
  ]

  -- The candidates before `retain`: the listed targets, or all, and the leaves of each group.
  unfoldable pub extend_groups :
      List Identifier → List Identifier → Result PolicyError (List Identifier)
  extend_groups candidates [] = ok candidates
  extend_groups candidates (g ∷ gs) =
      expand_group_leaves plan (g ∷ []) >>= λ leaves. extend_groups (set_union candidates leaves) gs

  unfoldable pub base_candidates : TargetSelectors → List Identifier
  base_candidates selectors =
      if not (is_empty selectors.targets) || not (is_empty selectors.groups)
      then to_set selectors.targets
      else to_set (map_keys plan.targets)

  unfoldable pub selected_consumer_targets : Secret → Result PolicyError (List Identifier)
  selected_consumer_targets secret = do
    selected ← expand_group_leaves plan secret.consumers
    if is_default_selectors secret.selectors then ok selected else do
      candidates ← extend_groups (base_candidates secret.selectors) secret.selectors.groups
      let all_selected = set_union selected (keep (retained secret.selectors) candidates)
      fail_if (any (λ id. not (contains_key id plan.targets)) all_selected)
          (violation consumer_not_target)
      ok all_selected
