-- ===== src/Policy/Recipients/Administrators.antt =====
-- The administrators of a secret, which `secret_recipients` of
-- crates/nix-seal-policy/src/lib.rs encrypts to first.
use nix_seal.Prelude.{
  ℕ, zero, suc, length, ◌≡◌, refl, sym, ◌∙◌, inl, inr, Bool, true, false, not, ◌||◌, ◌&&◌, List, [],
  ◌∷◌, All, All-map, arith, ok, any, any-All, is_empty, Bool-cases, Option-cases,
}
use nix_seal.Prelude.Text.{Text, text_ord}
use nix_seal.Prelude.Collections.{
  BTreeMap, distinct, contains, to_set, contains-to_set, map_keys, map_values, map_get, map_insert,
  HasEntry-get, All-of_contains, contains-of_All,
}
use nix_seal.Core.Id.{Identifier}
use nix_seal.Core.Plan.{PlanV2, Secret, Identity}
use nix_seal.Policy.Groups.{offer_all, expand_loop, expand_group_leaves}
use nix_seal.Policy.Secrets.References.{References}
use nix_seal.Policy.Secrets.{is_admin_identity}
use nix_seal.Policy.Approval.{is_administrator, ids_of_kind}
use nix_seal.Policy.Approval.Default.{ids_of_kind-All, ids_of_kind-any}
use nix_seal.Policy.Recipients.{administrator_ids, add_administrator}

nonempty_of_contains :
    (id : Identifier) (xs : List Identifier) → contains id xs ≡ true → is_empty xs ≡ false
unfolding contains
nonempty_of_contains id [] h = cc
nonempty_of_contains id (x ∷ xs) h = refl

module _ (plan : PlanV2) where
  abbrev pub IsAdmin : Identifier → Type 0
  IsAdmin id = is_admin_identity (map_get id plan.identities) ≡ true

  pub add_administrator-returns :
      (m : BTreeMap Identifier Text) (id : Identifier)
      → IsAdmin id
      → (k : Identifier) × (key : Text) × (add_administrator plan m id ≡ ok (map_insert k key m))
  unfolding add_administrator
  add_administrator-returns m id h = elim (Option-cases (map_get id plan.identities)) [
    | inl gone ↦ let e = rw gone at h in absurd (cc)
    | inr (identity, found) ↦ let e = rw found at h in (id, identity.public, rw (found, e) refl)
  ]

  expand_nothing :
      (fuel : ℕ) (leaves : List Identifier)
      → expand_loop plan fuel (record { leaves = []; pending = []; visited = [] }) ≡ ok leaves
      → is_empty leaves ≡ true
  unfolding expand_loop
  expand_nothing zero leaves h = ground arith
  expand_nothing (suc fuel) leaves h = ground arith

  no_administrators :
      (administrators leaves : List Identifier)
      → is_empty administrators ≡ true
      → expand_group_leaves plan administrators ≡ ok leaves
      → is_empty leaves ≡ true
  unfolding expand_group_leaves offer_all
  no_administrators [] leaves e h = expand_nothing (length plan.groups) leaves h
  no_administrators (x ∷ xs) leaves e h = cc

  abbrev pub has_administrator : Secret → List Identifier → Bool
  has_administrator secret leaves =
      not (is_empty leaves)
      || is_empty secret.administrators
        && any (λ (i : Identity). is_administrator i.kind) (map_values plan.identities)

  pub administrator_ids-returns :
      (id : Identifier) (secret : Secret)
      → distinct (map_keys plan.identities) ≡ true
      → (refs : References plan id secret)
      → (ids : List Identifier) × (administrator_ids plan secret ≡ ok ids)
        × All IsAdmin ids
        × (has_administrator secret refs.administrators ≡ true → is_empty ids ≡ false)
  unfolding administrator_ids
  administrator_ids-returns id secret once refs =
      elim (Bool-cases (is_empty secret.administrators)) [
        | inr listed ↦ (
          refs.administrators,
          rw listed refs.expanded,
          All-map (λ x n. ground arith) refs.administrators
              (any-All _ refs.administrators refs.admins),
          λ h. ground arith,
        )
        | inl by_default ↦
            let admins = ids_of_kind is_administrator plan.identities in
            let each =
              ids_of_kind-All is_administrator plan.identities IsAdmin
                (λ j i e t. let found = HasEntry-get j plan.identities once e in rw found t) in
            (
              to_set admins,
              rw by_default refl,
              All-of_contains (to_set admins) (λ x c.
                  contains-of_All IsAdmin admins each x (sym (contains-to_set admins x) ∙ c)),
              λ h.
                  let (j, there) = ids_of_kind-any is_administrator plan.identities (
                    ground (
                      arith,
                      no_administrators secret.administrators refs.administrators by_default
                          refs.expanded,
                    )) in
                  nonempty_of_contains j (to_set admins) (contains-to_set admins j ∙ there),
            )
      ]
