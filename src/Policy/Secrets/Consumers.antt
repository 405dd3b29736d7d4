-- ===== src/Policy/Secrets/Consumers.antt =====
-- Who may read a secret: `target_is_consumer` against the specification, and the secrets that are
-- for the repository alone.
use nix_seal.Prelude.{
  ◌≡◌, refl, ◌↔◌, inl, inr, Bool, true, false, not, ◌||◌, ◌&&◌, List, [], arith, is_empty,
  is_empty-eq, ok, ◌>>◌, Bool-cases, length, fail_if,
}
use nix_seal.Prelude.Text.{text_ord}
use nix_seal.Prelude.Collections.{contains}
use nix_seal.Core.Id.{Identifier}
use nix_seal.Core.Plan.{PlanV2, Secret, is_default_selectors}
use nix_seal.Policy.Error.{
  PolicyError, violation, repository_only_consumers, repository_only_direct,
}
use nix_seal.Policy.Groups.{offer_all, expand_group_leaves, hunt, hunt_loop, hunt_through}
use nix_seal.Policy.Groups.Reach.{IsLeaf}
use nix_seal.Policy.Groups.Expand.{expand_loop-empty}
use nix_seal.Policy.Groups.Invariant.{blank}
use nix_seal.Policy.Groups.Hunted.{hunt-reaches}
use nix_seal.Policy.Selectors.{selected_consumer_targets}
use nix_seal.Policy.Selectors.Selected.{Selected, by_reference, selected_consumer_targets-Selected}
use nix_seal.Policy.Secrets.{
  is_direct, validate_repository_only_secret, selected_contains, target_is_consumer,
}

-- Where the consumers of a secret can be computed, `target_is_consumer` says of an identifier that
-- is no group exactly whether the secret is for it: its second walk finds nothing more.
pub target_is_consumer-Selected :
    (plan : PlanV2) (secret : Secret) (targets : List Identifier) (target_id : Identifier)
    → selected_consumer_targets plan secret ≡ ok targets
    → IsLeaf plan target_id
    → (target_is_consumer plan secret target_id ≡ true) ↔ ∥ Selected plan secret target_id ∥₁
unfolding target_is_consumer selected_contains
target_is_consumer-Selected plan secret targets target_id h leaf =
    let spec = selected_consumer_targets-Selected plan secret targets target_id h in
    (
      λ yes_it_is. elim (Bool-cases (contains target_id targets)) [
        | inl direct ↦ spec.0 direct
        | inr walked ↦
            ∣ by_reference (hunt-reaches plan secret.consumers target_id (ground arith)) leaf ∣₁
      ],
      λ s. ground (arith, spec.1 s),
    )

-- A secret with neither consumers nor selectors has no target.
expand_nothing : (plan : PlanV2) → expand_group_leaves plan [] ≡ ok []
unfolding expand_group_leaves offer_all
expand_nothing plan = expand_loop-empty plan (length plan.groups) blank refl

hunt_nothing : (plan : PlanV2) (target_id : Identifier) → hunt plan target_id [] ≡ false
unfolding hunt hunt_loop hunt_through
hunt_nothing plan target_id = refl

not-consumer :
    (plan : PlanV2) (secret : Secret) (target_id : Identifier)
    → is_empty secret.consumers ≡ true
    → is_default_selectors secret.selectors ≡ true
    → target_is_consumer plan secret target_id ≡ false
unfolding target_is_consumer selected_contains selected_consumer_targets contains
not-consumer plan secret target_id no_consumers default =
    let e = is_empty-eq secret.consumers no_consumers in
    rw (e, expand_nothing plan, default, hunt_nothing plan target_id) refl

checked-closed :
    (id : Identifier) (secret : Secret)
    → validate_repository_only_secret id secret ≡ ok tt
    → secret.repository_only ≡ true
    → (is_empty secret.consumers ≡ true)
      × (is_default_selectors secret.selectors ≡ true)
      × (is_direct secret.delivery ≡ false)
unfolding validate_repository_only_secret
checked-closed id secret checked only =
    closed secret.repository_only (is_empty secret.consumers)
      (is_default_selectors secret.selectors) (is_direct secret.delivery)
      (violation (repository_only_consumers id)) (violation (repository_only_direct id)) checked
      only
  where
    closed :
        (only c s d : Bool) (e f : PolicyError)
        → (fail_if (only && (not c || not s)) e >> fail_if (only && d) f) ≡ ok tt
        → only ≡ true
        → (c ≡ true) × (s ≡ true) × (d ≡ false)
    closed only c s d e f h o = ground arith

-- A secret that is for the repository alone and passes its check is authorized for no target, and
-- its ciphertext is not delivered directly.
pub repository_only-no_consumer :
    (plan : PlanV2) (id : Identifier) (secret : Secret) (target_id : Identifier)
    → validate_repository_only_secret id secret ≡ ok tt
    → secret.repository_only ≡ true
    → (target_is_consumer plan secret target_id ≡ false) × (is_direct secret.delivery ≡ false)
repository_only-no_consumer plan id secret target_id checked only =
    let (no_consumers, default, not_direct) = checked-closed id secret checked only in
    (not-consumer plan secret target_id no_consumers default, not_direct)
