-- ===== src/Policy/Groups/Hunted.antt =====
-- The walk of `target_is_consumer` of crates/nix-seal-policy/src/lib.rs, against the references.
use nix_seal.Prelude.{
  ℕ, zero, suc, ◌≡◌, inl, inr, Bool, true, false, List, [], ◌∷◌, arith, Bool-cases, Option-cases,
  if◌then◌else◌, not, length, subst,
}
use nix_seal.Prelude.Text.{text_ord, text_eq, text_eq_iff}
use nix_seal.Prelude.Collections.{contains, contains_key, map_get}
use nix_seal.Core.Id.{Identifier}
use nix_seal.Core.Plan.{PlanV2}
use nix_seal.Policy.Groups.{Hunt, found, going, hunt_through, hunt_loop, hunt}
use nix_seal.Policy.Groups.Reach.{Reaches, listed, member}

module _ (plan : PlanV2) (references : List Identifier) (target_id : Identifier) where
  -- What a state of the walk may hold: groups that the references reach, or a find that is right.
  abbrev IsHonest : Hunt → Type 0
  IsHonest found = Reaches plan references target_id
  IsHonest (going pending visited) =
      (id : Identifier) → contains id pending ≡ true → Reaches plan references id

  push_honest :
      (enter fresh : Bool) (pending : List Identifier) (m : Identifier)
      → Reaches plan references m
      → ((id : Identifier) → contains id pending ≡ true → Reaches plan references id)
      → (id : Identifier)
      → contains id (if enter then (if fresh then m ∷ pending else pending) else pending) ≡ true
      → Reaches plan references id
  unfolding contains
  push_honest false fresh pending m r h id c = h id c
  push_honest true false pending m r h id c = h id c
  push_honest true true pending m r h id c = elim (Bool-cases (text_ord.eq_test m id)) [
    | inl same ↦ subst (Reaches plan references) ((text_ord.eq_test_iff m id).0 same) r
    | inr other ↦ h id (rw other at c)
  ]

  hunt_through-IsHonest :
      (ms pending visited : List Identifier)
      → ((id : Identifier) → contains id ms ≡ true → Reaches plan references id)
      → ((id : Identifier) → contains id pending ≡ true → Reaches plan references id)
      → IsHonest (hunt_through plan target_id pending visited ms)
  unfolding hunt_through contains
  hunt_through-IsHonest [] pending visited hm hp = hp
  hunt_through-IsHonest (m ∷ ms) pending visited hm hp =
      let here = hm m (ground (arith, text_ord.eq_test_iff m m)) in
      elim (Bool-cases (text_eq m target_id)) [
        | inl same ↦
            rw same (subst (Reaches plan references) ((text_eq_iff m target_id).0 same) here)
        | inr other ↦ rw other (
            hunt_through-IsHonest ms _ _ (λ id h. hm id (ground arith))
              (push_honest (contains_key m plan.groups) (not (contains m visited)) pending m here
                hp))
      ]

  hunt_loop-reaches :
      (fuel : ℕ) (h : Hunt)
      → IsHonest h
      → hunt_loop plan target_id fuel h ≡ true
      → Reaches plan references target_id
  unfolding hunt_loop contains
  hunt_loop-reaches fuel found r e = r
  hunt_loop-reaches zero (going pending visited) r e = cc
  hunt_loop-reaches (suc fuel) (going [] visited) r e = cc
  hunt_loop-reaches (suc fuel) (going (id ∷ pending) visited) r e =
      let below = λ (x : Identifier) (m : contains x pending ≡ true). r x (ground arith) in
      elim (Option-cases (map_get id plan.groups)) [
        | inl gone ↦
            hunt_loop-reaches fuel (going pending visited) below (rw (gone, hunt_loop) at e)
        | inr (group, get) ↦
            let here = r id (ground (arith, text_ord.eq_test_iff id id)) in
            hunt_loop-reaches fuel (hunt_through plan target_id pending visited group.members)
              (hunt_through-IsHonest group.members pending visited (λ x m. member here get m) below)
              (rw (get, hunt_loop) at e)
      ]

  pub hunt-reaches : hunt plan target_id references ≡ true → Reaches plan references target_id
  unfolding hunt contains
  hunt-reaches e =
      hunt_loop-reaches (suc (length plan.groups)) (hunt_through plan target_id [] [] references)
        (hunt_through-IsHonest references [] [] (λ id m. listed m) (λ id m. absurd (cc))) e
