-- ===== src/Policy/Selectors/Extend.antt =====
-- What `extend_groups` adds to the candidates, with the loop over the selectors' groups.
use mathlib.Core.Logic.{∥∥₁_elim, ∥∥₁_map, ⊎_elim}
use nix_seal.Prelude.{◌≡◌, refl, ◌⊎◌, inl, inr, ◌↔◌, true, List, [], ◌∷◌, arith, ok, Bool-cases}
use nix_seal.Prelude.Text.{text_ord}
use nix_seal.Prelude.Collections.{contains, set_union, contains-set_union}
use nix_seal.Core.Id.{Identifier}
use nix_seal.Core.Plan.{PlanV2}
use nix_seal.Policy.Groups.Reach.{
  Reaches, IsLeaf, Reaches-head, Reaches-tail, Reaches-split, not-Reaches-nil,
}
use nix_seal.Policy.Groups.Expand.{expand_group_leaves-total}
use nix_seal.Policy.Selectors.{extend_groups}

module _ (plan : PlanV2) where
  -- What `extend_groups` adds to the candidates.
  pub record Extends (candidates groups all_of : List Identifier) : Type 0 where
    pub from :
        (id : Identifier)
        → contains id all_of ≡ true
        → ∥ ((contains id candidates ≡ true) ⊎ (Reaches plan groups id × IsLeaf plan id)) ∥₁
    pub kept : (id : Identifier) → contains id candidates ≡ true → contains id all_of ≡ true
    pub added :
        (id : Identifier) → Reaches plan groups id → IsLeaf plan id → contains id all_of ≡ true

  module _ (candidates leaves : List Identifier) (g : Identifier) (gs all_of : List Identifier)
      (leaf : (id : Identifier)
        → (contains id leaves ≡ true) ↔ ∥ (Reaches plan (g ∷ []) id × IsLeaf plan id) ∥₁)
      (rest : Extends (set_union candidates leaves) gs all_of) where
    from_union :
        (id : Identifier)
        → contains id (set_union candidates leaves) ≡ true
        → ∥ ((contains id candidates ≡ true) ⊎ (Reaches plan (g ∷ gs) id × IsLeaf plan id)) ∥₁
    from_union id m = elim (Bool-cases (contains id candidates)) [
      | inl old ↦ ∣ inl old ∣₁
      | inr new ↦
          ∥∥₁_map ((leaf id).0 (ground (arith, contains-set_union leaves id candidates)))
            (λ (r, l). inr (Reaches-head plan g gs r, l))
    ]

    added_step :
        (id : Identifier) → Reaches plan (g ∷ gs) id → IsLeaf plan id → contains id all_of ≡ true
    added_step id r l = elim (Reaches-split plan g gs r) [
      | inr there ↦ rest.added id there l
      | inl here ↦
          let m = (leaf id).1 ∣ (here, l) ∣₁ in
          rest.kept id (ground (arith, contains-set_union leaves id candidates))
    ]

    Extends-step : Extends candidates (g ∷ gs) all_of
    Extends-step = record {
      from = λ id m.
          ∥∥₁_elim (rest.from id m) squash₁
            (⊎_elim (from_union id) (λ (r, l). ∣ inr (Reaches-tail plan g gs r, l) ∣₁));
      kept = λ id m. rest.kept id (ground (arith, contains-set_union leaves id candidates));
      added = added_step;
    }

  pub extend_groups-total :
      (candidates groups : List Identifier)
      → (all_of : List Identifier) × (extend_groups plan candidates groups ≡ ok all_of)
        × Extends candidates groups all_of
  unfolding extend_groups
  extend_groups-total candidates [] = (
    candidates,
    refl,
    record {
      from = λ id m. ∣ inl m ∣₁;
      kept = λ id m. m;
      added = λ id r l. absurd (not-Reaches-nil plan r);
    },
  )
  extend_groups-total candidates (g ∷ gs) =
      let (leaves, first, leaf) = expand_group_leaves-total plan (g ∷ []) in
      let (all_of, later, rest) = extend_groups-total (set_union candidates leaves) gs in
      (all_of, rw first later, Extends-step candidates leaves g gs all_of leaf rest)
