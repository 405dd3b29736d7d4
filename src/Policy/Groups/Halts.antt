-- ===== src/Policy/Groups/Halts.antt =====
-- The loop of `target_is_consumer` of crates/nix-seal-policy/src/lib.rs, without fuel.
use nix_seal.Prelude.{
  ℕ, zero, suc, ◌+◌, ◌≤◌, ◌<◌, ◌≡◌, refl, Bool, true, false, not, none, some, List, [], ◌∷◌, length,
  arith, Bool-cases, Option-cases, inl, inr, if◌then◌else◌,
}
use nix_seal.Prelude.Text.{text_ord, text_eq}
use nix_seal.Prelude.Collections.{
  contains, contains_key, set_insert, map_get, map_keys, contains-keys,
}
use nix_seal.Core.Id.{Identifier}
use nix_seal.Core.Plan.{PlanV2, Group}
use nix_seal.Policy.Groups.{Hunt, found, going, hunt_through, hunt_loop, hunt}
use nix_seal.Policy.Groups.Expand.{length-map_keys}
use nix_seal.Policy.Groups.Offer.{unseen, unseen-insert-le, unseen-insert-lt, unseen-le-length}

module _ (plan : PlanV2) (target_id : Identifier) where
  -- The loop stops from a state with an answer: where the target is found, or where no group waits.
  pub data Halts : Hunt → Bool → Type 0 where
    halt_found : Halts found true
    halt_empty : (visited : List Identifier) → Halts (going [] visited) false
    halt_missing :
        (id : Identifier) (pending visited : List Identifier) (answer : Bool)
        → map_get id plan.groups ≡ none
        → Halts (going pending visited) answer
        → Halts (going (id ∷ pending) visited) answer
    halt_round :
        (id : Identifier) (pending visited : List Identifier) (group : Group) (answer : Bool)
        → map_get id plan.groups ≡ some group
        → Halts (hunt_through plan target_id pending visited group.members) answer
        → Halts (going (id ∷ pending) visited) answer

  abbrev rounds : Hunt → ℕ
  rounds found = 0
  rounds (going pending visited) = unseen (map_keys plan.groups) visited + length pending

  enter-rounds :
      (m : Identifier) (pending visited : List Identifier) (enter fresh : Bool)
      → contains_key m plan.groups ≡ enter
      → not (contains m visited) ≡ fresh
      → rounds (
          going
            (if enter then (if fresh then m ∷ pending else pending) else pending)
            (if enter then set_insert m visited else visited))
        ≤ rounds (going pending visited)
  enter-rounds m pending visited false fresh h k = omega arith
  enter-rounds m pending visited true false h k =
      omega (arith, unseen-insert-le (map_keys plan.groups) visited m)
  enter-rounds m pending visited true true h k =
      ground (arith, unseen-insert-lt (map_keys plan.groups) visited m, contains-keys m plan.groups)

  hunt_through-rounds :
      (ms pending visited : List Identifier)
      → rounds (hunt_through plan target_id pending visited ms) ≤ rounds (going pending visited)
  unfolding hunt_through
  hunt_through-rounds [] pending visited = omega arith
  hunt_through-rounds (m ∷ ms) pending visited = elim (Bool-cases (text_eq m target_id)) [
    | inl same ↦ rw same (omega arith)
    | inr other ↦
        let enter = contains_key m plan.groups in
        let fresh = not (contains m visited) in
        rw other (
          omega (
            arith,
            hunt_through-rounds ms
                (if enter then (if fresh then m ∷ pending else pending) else pending)
                (if enter then set_insert m visited else visited),
            enter-rounds m pending visited enter fresh refl refl,
          ))
  ]

  hunt_loop-Halts :
      (fuel : ℕ) (h : Hunt) → rounds h < fuel → Halts h (hunt_loop plan target_id fuel h)
  unfolding hunt_loop
  hunt_loop-Halts zero h less = absurd (omega (arith, less))
  hunt_loop-Halts (suc fuel) found less = halt_found
  hunt_loop-Halts (suc fuel) (going [] visited) less = halt_empty visited
  hunt_loop-Halts (suc fuel) (going (id ∷ pending) visited) less =
      elim (Option-cases (map_get id plan.groups)) [
        | inl gone ↦
            rw (hunt_loop, gone)
              (halt_missing id pending visited _ gone
                (hunt_loop-Halts fuel (going pending visited) (omega (arith, less))))
        | inr (group, get) ↦
            rw (hunt_loop, get)
              (halt_round id pending visited group _ get (
                hunt_loop-Halts fuel (hunt_through plan target_id pending visited group.members)
                  (omega (arith, less, hunt_through-rounds group.members pending visited))))
      ]

  -- The search answers what its loop stops with, on every plan: its fuel does not run out.
  pub hunt-Halts :
      (consumers : List Identifier)
      → Halts (hunt_through plan target_id [] [] consumers) (hunt plan target_id consumers)
  unfolding hunt
  hunt-Halts consumers =
      hunt_loop-Halts (suc (length plan.groups)) (hunt_through plan target_id [] [] consumers) (
        omega (
          arith,
          hunt_through-rounds consumers [] [],
          unseen-le-length (map_keys plan.groups) [],
          length-map_keys plan.groups,
        ))
