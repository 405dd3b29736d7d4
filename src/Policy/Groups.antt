-- ===== src/Policy/Groups.antt =====
-- crates/nix-seal-policy/src/lib.rs: groups of identities and targets, the walk that lists the
-- leaves of groups, and the walk that looks for one target.
pub mod Reach
pub mod Offer
pub mod Invariant
pub mod Expand
pub mod Hunted
pub mod Halts
use nix_seal.Prelude.{
  ℕ, zero, suc, ◌+◌, ◌==◌, ltb, Bool, true, false, not, Option, none, some, List, [], ◌∷◌, length,
  foldl, keep, Result, ok, err, ◌>>=◌, ◌>>◌, fail_if, ok_or, for_each, fold_each, if◌then◌else◌,
}
use nix_seal.Prelude.Text.{text_eq, text_ord}
use nix_seal.Prelude.Collections.{BTreeMap, contains, set_insert, to_set, contains_key, map_get}
use nix_seal.Core.Id.{Identifier}
use nix_seal.Core.Plan.{PlanV2, Group}
use nix_seal.Policy.Error.{
  PolicyError, Checked, violation, out_of_fuel, group_graph, group_too_large, group_member,
  graph_cycle, missing_group,
}
use nix_seal.Policy.Kahn.{Graph, empty_graph, add_node, walk}

-- The variables of `expand_group_leaves`. The stack `pending` has its top at the head.
pub record Expansion : Type 0 where
  pub leaves : List Identifier
  pub pending : List Identifier
  pub visited : List Identifier

module _ (plan : PlanV2) where
  abbrev pub is_group : Identifier → Bool
  is_group id = contains_key id plan.groups

  -- The body of both loops over references: a group waits unless it was seen, the rest are leaves.
  unfoldable pub offer : Expansion → Identifier → Expansion
  offer e reference =
      if is_group reference
      then (if contains reference e.visited then e else record e {
        visited = set_insert reference e.visited;
        pending = reference ∷ e.pending;
      })
      else record e { leaves = set_insert reference e.leaves }

  unfoldable pub offer_all : Expansion → List Identifier → Expansion
  offer_all e [] = e
  offer_all e (r ∷ rs) = offer_all (offer e r) rs

  -- One round of the `while` loop, after `id` was popped.
  unfoldable pub expand_one :
      Expansion → Identifier → List Identifier → Result PolicyError Expansion
  expand_one e id rest = do
    group ← ok_or (map_get id plan.groups) (violation (missing_group id))
    ok (offer_all (record e { pending = rest }) group.members)

  unfoldable pub expand_loop : ℕ → Expansion → Result PolicyError (List Identifier)
  expand_loop zero e = elim e.pending [ [] ↦ ok e.leaves | _ ∷ _ ↦ err out_of_fuel ]
  expand_loop (suc fuel) e = elim e.pending [
    | [] ↦ ok e.leaves
    | id ∷ rest ↦ expand_one e id rest >>= λ next. expand_loop fuel next
  ]

  -- A group is pushed once at most, so the number of groups is fuel enough.
  unfoldable pub expand_group_leaves : List Identifier → Result PolicyError (List Identifier)
  expand_group_leaves references =
      expand_loop (length plan.groups)
        (offer_all (record { leaves = []; pending = []; visited = [] }) references)

-- The walk of `target_is_consumer`: it stops where the target is found.
pub data Hunt : Type 0 where
  found : Hunt
  going : List Identifier → List Identifier → Hunt

module _ (plan : PlanV2) (target_id : Identifier) where
  -- The body of both loops: `pending` is a stack, `visited` the groups seen.
  unfoldable pub hunt_through : List Identifier → List Identifier → List Identifier → Hunt
  hunt_through pending visited [] = going pending visited
  hunt_through pending visited (m ∷ ms) =
      if text_eq m target_id
      then found
      else (let enter = contains_key m plan.groups in
          let fresh = not (contains m visited) in
          hunt_through (if enter then (if fresh then m ∷ pending else pending) else pending)
            (if enter then set_insert m visited else visited) ms)

  -- A group is pushed once at most, so that the fuel of `hunt` is not used up: the clause for no fuel
  -- stands for nothing in the code.
  unfoldable pub hunt_loop : ℕ → Hunt → Bool
  hunt_loop fuel found = true
  hunt_loop zero (going pending visited) = false
  hunt_loop (suc fuel) (going [] visited) = false
  hunt_loop (suc fuel) (going (id ∷ pending) visited) = elim (map_get id plan.groups) [
    | none ↦ hunt_loop fuel (going pending visited)
    | some group ↦ hunt_loop fuel (hunt_through pending visited group.members)
  ]

  unfoldable pub hunt : List Identifier → Bool
  hunt consumers = hunt_loop (suc (length plan.groups)) (hunt_through [] [] consumers)

-- In how many of the three namespaces a member stands.
abbrev pub one_if : Bool → ℕ
one_if b = if b then 1 else 0

module _ (plan : PlanV2) where
  unfoldable pub check_member : Identifier → Identifier → Checked
  check_member group_id member =
      fail_if
        (not (
          one_if (contains_key member plan.groups)
            + one_if (contains_key member plan.targets)
            + one_if (contains_key member plan.identities)
          == 1))
        (violation (group_member group_id member))

  unfoldable pub group_dependencies : Group → List Identifier
  group_dependencies group = to_set (keep (λ m. contains_key m plan.groups) group.members)

  unfoldable pub scan_group : Graph → Identifier × Group → Result PolicyError Graph
  scan_group graph (group_id, group) = do
    fail_if (ltb 10000 (length group.members)) (violation (group_too_large group_id))
    for_each (check_member group_id) group.members
    ok (add_node graph group_id (group_dependencies group))

  unfoldable pub validate_group_graph : Checked
  validate_group_graph = do
    graph ← fold_each scan_group empty_graph plan.groups
    visited ← walk group_graph graph
    fail_if (not (visited == length plan.groups)) (violation (graph_cycle group_graph))
