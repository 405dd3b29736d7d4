-- ===== src/Policy/Selectors/Selected.antt =====
-- Which targets a secret is for, said without the walks and the sets: those that its consumers
-- reach, and those that its selectors pick.
use mathlib.Core.Bool.{So-prop}
use mathlib.Core.Logic.{∥∥₁_elim, ∥∥₁_map, ⊎_elim}
use nix_seal.Prelude.{
  ◌≡◌, refl, inl, inr, ◌↔◌, Bool, true, false, ◌||◌, ◌&&◌, not, List, [], ◌∷◌, is_empty, any, keep,
  arith, ok, guarded-eq-ok, Bool-cases, subst,
}
use nix_seal.Prelude.Text.{text_ord}
use nix_seal.Prelude.Collections.{
  contains, set_union, contains_key, map_keys, contains-set_union, contains-to_set, contains-keys,
}
use nix_seal.Core.Id.{Identifier}
use nix_seal.Core.Plan.{PlanV2, Secret, TargetSelectors, is_default_selectors}
use nix_seal.Policy.Error.{violation, consumer_not_target}
use nix_seal.Policy.Groups.{expand_group_leaves}
use nix_seal.Policy.Groups.Reach.{Reaches, IsLeaf}
use nix_seal.Policy.Groups.Expand.{expand_group_leaves-total}
use nix_seal.Policy.Selectors.Extend.{Extends, extend_groups-total}
use nix_seal.Policy.Selectors.{retained, extend_groups, base_candidates, selected_consumer_targets}

-- What selectors pick from before their tests: every target if they name none, else the targets
-- that they name and the leaves of the groups that they name.
pub data Candidate (plan : PlanV2) (selectors : TargetSelectors) (id : Identifier) : Type 0 where
  any_target :
      is_empty selectors.targets ≡ true
      → is_empty selectors.groups ≡ true
      → contains_key id plan.targets ≡ true
      → Candidate plan selectors id
  named_target : contains id selectors.targets ≡ true → Candidate plan selectors id
  in_group : Reaches plan selectors.groups id → IsLeaf plan id → Candidate plan selectors id

pub data Selected (plan : PlanV2) (secret : Secret) (id : Identifier) : Type 0 where
  by_reference : Reaches plan secret.consumers id → IsLeaf plan id → Selected plan secret id
  by_selector :
      is_default_selectors secret.selectors ≡ false
      → Candidate plan secret.selectors id
      → retained plan secret.selectors id ≡ true
      → Selected plan secret id

contains-keep :
    (p : Identifier → Bool) (xs : List Identifier) (id : Identifier)
    → contains id (keep p xs) ≡ (contains id xs && p id)
unfolding contains
contains-keep p [] id = refl
contains-keep p (x ∷ xs) id = ground (arith, contains-keep p xs id, text_ord.eq_test_iff x id)

nonempty_of_contains :
    (xs : List Identifier) (id : Identifier) → contains id xs ≡ true → is_empty xs ≡ false
unfolding contains
nonempty_of_contains [] id m = cc
nonempty_of_contains (x ∷ xs) id m = refl

module _ (plan : PlanV2) where
  abbrev bases : Secret → List Identifier
  bases secret = base_candidates plan secret.selectors

  base-Candidate :
      (s : TargetSelectors) (id : Identifier)
      → contains id (base_candidates plan s) ≡ true
      → Candidate plan s id
  unfolding base_candidates
  base-Candidate s id m = elim (Bool-cases (is_empty s.targets && is_empty s.groups)) [
    | inl none_named ↦
        any_target (ground arith) (ground arith) (
          ground (arith, contains-to_set (map_keys plan.targets) id, contains-keys id plan.targets))
    | inr some_named ↦ named_target (ground (arith, contains-to_set s.targets id))
  ]

  -- The candidates of the walk are the candidates of the specification.
  candidates-from :
      (s : TargetSelectors) (all_of : List Identifier)
      → Extends plan (base_candidates plan s) s.groups all_of
      → (id : Identifier) → contains id all_of ≡ true
      → ∥ Candidate plan s id ∥₁
  candidates-from s all_of ext id m =
      ∥∥₁_map (ext.from id m) (⊎_elim (base-Candidate s id) (λ (r, l). in_group r l))

  candidates-to :
      (s : TargetSelectors) (all_of : List Identifier)
      → Extends plan (base_candidates plan s) s.groups all_of
      → (id : Identifier) → Candidate plan s id
      → contains id all_of ≡ true
  unfolding base_candidates
  candidates-to s all_of ext id (any_target no_targets no_groups m) =
      ext.kept id
        (ground (arith, contains-to_set (map_keys plan.targets) id, contains-keys id plan.targets))
  candidates-to s all_of ext id (named_target m) =
      ext.kept id (ground (arith, contains-to_set s.targets id, nonempty_of_contains s.targets id))
  candidates-to s all_of ext id (in_group r l) = ext.added id r l

default-Selected :
    (plan : PlanV2) (secret : Secret) (leaves : List Identifier) (id : Identifier)
    → is_default_selectors secret.selectors ≡ true
    → (contains id leaves ≡ true) ↔ ∥ (Reaches plan secret.consumers id × IsLeaf plan id) ∥₁
    → (contains id leaves ≡ true) ↔ ∥ Selected plan secret id ∥₁
default-Selected plan secret leaves id default leaf = (
  λ m. ∥∥₁_map (leaf.0 m) (λ (r, l). by_reference r l),
  λ s. ∥∥₁_elim s (So-prop _) (only_reference plan secret leaves id default leaf),
)
  where
    only_reference :
        (plan : PlanV2) (secret : Secret) (leaves : List Identifier) (id : Identifier)
        → is_default_selectors secret.selectors ≡ true
        → (contains id leaves ≡ true) ↔ ∥ (Reaches plan secret.consumers id × IsLeaf plan id) ∥₁
        → Selected plan secret id
        → contains id leaves ≡ true
    only_reference plan secret leaves id default leaf (by_reference r l) = leaf.1 ∣ (r, l) ∣₁
    only_reference plan secret leaves id default leaf (by_selector custom c p) = cc

module _ (plan : PlanV2) (secret : Secret) (leaves all_of : List Identifier) (id : Identifier)
    (custom : is_default_selectors secret.selectors ≡ false)
    (leaf : (contains id leaves ≡ true) ↔ ∥ (Reaches plan secret.consumers id × IsLeaf plan id) ∥₁)
    (ext : Extends plan (bases plan secret) secret.selectors.groups all_of) where
  abbrev chosen : List Identifier
  chosen = keep (retained plan secret.selectors) all_of

  chosen_iff :
      contains id (set_union leaves chosen)
      ≡ (contains id leaves || contains id all_of && retained plan secret.selectors id)
  chosen_iff = ground (
    arith,
    contains-set_union chosen id leaves,
    contains-keep (retained plan secret.selectors) all_of id,
  )

  Selected-chosen : Selected plan secret id → contains id (set_union leaves chosen) ≡ true
  Selected-chosen (by_reference r l) = ground (arith, chosen_iff, leaf.1 ∣ (r, l) ∣₁)
  Selected-chosen (by_selector c candidate p) =
      ground (arith, chosen_iff, candidates-to plan secret.selectors all_of ext id candidate)

  custom-Selected : (contains id (set_union leaves chosen) ≡ true) ↔ ∥ Selected plan secret id ∥₁
  custom-Selected = (
    λ m. elim (Bool-cases (contains id leaves)) [
      | inl old ↦ ∥∥₁_map (leaf.0 old) (λ (r, l). by_reference r l)
      | inr new ↦
          ∥∥₁_map (candidates-from plan secret.selectors all_of ext id (ground (arith, chosen_iff)))
            (λ c. by_selector custom c (ground (arith, chosen_iff)))
    ],
    λ s. ∥∥₁_elim s (So-prop _) Selected-chosen,
  )

-- The result of the code, once its two walks have returned.
module _ (plan : PlanV2) (secret : Secret) (leaves all_of : List Identifier)
    (first : expand_group_leaves plan secret.consumers ≡ ok leaves)
    (second : extend_groups plan (bases plan secret) secret.selectors.groups ≡ ok all_of) where
  abbrev picked : List Identifier
  picked = set_union leaves (keep (retained plan secret.selectors) all_of)

  selected-default :
      (targets : List Identifier)
      → is_default_selectors secret.selectors ≡ true
      → selected_consumer_targets plan secret ≡ ok targets
      → leaves ≡ targets
  unfolding selected_consumer_targets
  selected-default targets default h = let e = rw (first, default) at h in cc

  selected-custom :
      (targets : List Identifier)
      → is_default_selectors secret.selectors ≡ false
      → selected_consumer_targets plan secret ≡ ok targets
      → picked ≡ targets
  unfolding selected_consumer_targets
  selected-custom targets custom h =
      let checked = rw (first, custom, second) at h in
      guarded-eq-ok (any (λ x. not (contains_key x plan.targets)) picked)
        (violation consumer_not_target) checked

-- A secret's consumers, when they can be computed, are exactly the targets that its references
-- reach and those that its selectors pick.
pub selected_consumer_targets-Selected :
    (plan : PlanV2) (secret : Secret) (targets : List Identifier) (id : Identifier)
    → selected_consumer_targets plan secret ≡ ok targets
    → (contains id targets ≡ true) ↔ ∥ Selected plan secret id ∥₁
selected_consumer_targets-Selected plan secret targets id h =
    let (leaves, first, leaf) = expand_group_leaves-total plan secret.consumers in
    let (all_of, second, ext) =
      extend_groups-total plan (bases plan secret) secret.selectors.groups in
    elim (Bool-cases (is_default_selectors secret.selectors)) [
      | inl default ↦
          subst (λ t. (contains id t ≡ true) ↔ ∥ Selected plan secret id ∥₁)
            (selected-default plan secret leaves all_of first second targets default h)
            (default-Selected plan secret leaves id default (leaf id))
      | inr custom ↦
          subst (λ t. (contains id t ≡ true) ↔ ∥ Selected plan secret id ∥₁)
            (selected-custom plan secret leaves all_of first second targets custom h)
            (custom-Selected plan secret leaves all_of id custom (leaf id) ext)
    ]
