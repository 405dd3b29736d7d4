-- ===== src/Policy/Groups/Expand.antt =====
-- The walk of `expand_group_leaves` of crates/nix-seal-policy/src/lib.rs as a whole.
use nix_seal.Prelude.{
  ℕ, zero, suc, ◌≤◌, ◌≡◌, refl, ap, inl, inr, ◌↔◌, true, some, List, [], ◌∷◌, length, arith, ok,
  List-cases, ◌∙◌,
}
use mathlib.Core.Bool.{So-prop}
use mathlib.Core.Logic.{∥∥₁_elim}
use nix_seal.Prelude.Text.{text_ord}
use nix_seal.Prelude.Collections.{
  BTreeMap, contains, map_get, map_keys, contains_key-get, get-contains_key,
}
use nix_seal.Core.Id.{Identifier}
use nix_seal.Core.Plan.{PlanV2, Group}
use nix_seal.Policy.Groups.{Expansion, offer_all, expand_one, expand_loop, expand_group_leaves}
use nix_seal.Policy.Groups.Reach.{Reaches, listed, member, IsLeaf}
use nix_seal.Policy.Groups.Invariant.{
  no_member, on_top, blank, Handled, Inv, Inv-start, Inv-next, work-next, next,
}
use nix_seal.Policy.Groups.Offer.{unseen-le-length, work, work-offer_all}

pub expand_loop-empty :
    (plan : PlanV2) (fuel : ℕ) (e : Expansion)
    → e.pending ≡ []
    → expand_loop plan fuel e ≡ ok e.leaves
unfolding expand_loop
expand_loop-empty plan zero e h = ground arith
expand_loop-empty plan (suc fuel) e h = ground arith

expand_loop-push :
    (plan : PlanV2) (fuel : ℕ) (e : Expansion) (top : Identifier) (rest : List Identifier)
    (group : Group)
    → e.pending ≡ top ∷ rest
    → map_get top plan.groups ≡ some group
    → expand_loop plan (suc fuel) e
      ≡ expand_loop plan fuel (offer_all plan (record e { pending = rest }) group.members)
unfolding expand_loop expand_one
expand_loop-push plan fuel e top rest group h get = rw (h, get) refl

pub length-map_keys : {V : Type 0} (m : BTreeMap Identifier V) → length (map_keys m) ≡ length m
length-map_keys [] = refl
length-map_keys ((k, v) ∷ m) = ap suc (length-map_keys m)

module _ (plan : PlanV2) (refs : List Identifier) where
  -- With the stack empty the leaves are those that the references reach.
  reached :
      (e : Expansion)
      → Inv plan refs e
      → e.pending ≡ []
      → {x : Identifier} → Reaches plan refs x
      → Handled plan refs e x
  reached e inv empty (listed h) = inv.start _ h
  reached e inv empty (member {group_id} {id} {group} r get h) =
      let from = reached e inv empty r in
      elim (inv.closed group_id group (from.0 (get-contains_key group_id plan.groups get)) get) [
        | inl waits ↦ absurd (no_member group_id e.pending empty waits)
        | inr done ↦ done id h
      ]

  abbrev Answers : List Identifier → Type 0
  Answers leaves =
      (x : Identifier) → (contains x leaves ≡ true) ↔ ∥ (Reaches plan refs x × IsLeaf plan x) ∥₁

  answers : (e : Expansion) → Inv plan refs e → e.pending ≡ [] → Answers e.leaves
  answers e inv empty x = (
    λ m. ∣ inv.leaf x m ∣₁,
    λ r. ∥∥₁_elim r (So-prop _) (λ (p, leaf). (reached e inv empty p).1 leaf),
  )

  loop-Answers :
      (fuel : ℕ) (e : Expansion)
      → Inv plan refs e
      → work plan e ≤ fuel
      → (leaves : List Identifier) × (expand_loop plan fuel e ≡ ok leaves) × Answers leaves
  loop-Answers zero e inv w = elim (List-cases e.pending) [
    | inl empty ↦ (e.leaves, expand_loop-empty plan zero e empty, answers e inv empty)
    | inr (top, rest, stack) ↦ absurd (omega (arith, ap (λ (l : List Identifier). length l) stack))
  ]
  loop-Answers (suc fuel) e inv w = elim (List-cases e.pending) [
    | inl empty ↦ (e.leaves, expand_loop-empty plan (suc fuel) e empty, answers e inv empty)
    | inr (top, rest, stack) ↦
        let seen = inv.seen top (inv.waiting top (on_top e top rest stack)) in
        let (group, get) = contains_key-get top plan.groups seen.1 in
        let (leaves, result, good) =
          loop-Answers fuel (next plan refs e top rest group inv stack get)
            (Inv-next plan refs e top rest group inv stack get)
            (omega (arith, work-next plan refs e top rest group inv stack get)) in
        (leaves, expand_loop-push plan fuel e top rest group stack get ∙ result, good)
  ]

-- The walk returns, whatever the references and the groups are, also where groups contain
-- themselves; an identifier is in the result exactly if it is no group and the references reach it.
pub expand_group_leaves-total :
    (plan : PlanV2) (references : List Identifier)
    → (leaves : List Identifier) × (expand_group_leaves plan references ≡ ok leaves)
      × ((id : Identifier)
          → (contains id leaves ≡ true) ↔ ∥ (Reaches plan references id × IsLeaf plan id) ∥₁)
unfolding expand_group_leaves
expand_group_leaves-total plan references =
    loop-Answers plan references (length plan.groups) (offer_all plan blank references)
      (Inv-start plan references)
      (omega (
        arith,
        work-offer_all plan references blank,
        unseen-le-length (map_keys plan.groups) [],
        length-map_keys plan.groups,
      ))
