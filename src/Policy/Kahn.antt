-- ===== src/Policy/Kahn.antt =====
-- crates/nix-seal-policy/src/lib.rs: the topological walk of `validate_group_graph` and of
-- `validate_generator_graph`, whose loops are the same but for the words of their messages.
pub mod Fuel
use nix_seal.Prelude.{
  ℕ, zero, suc, ◌==◌, Option, none, some, List, [], ◌∷◌, ◌++◌, length, Result, ok, err, ◌>>=◌,
  ok_or, fold_each, if◌then◌else◌,
}
use nix_seal.Prelude.Numbers.{checked_add, checked_sub}
use nix_seal.Prelude.Text.{text_ord}
use nix_seal.Prelude.Collections.{BTreeMap, map_get, map_insert}
use nix_seal.Core.Id.{Identifier}
use nix_seal.Policy.Error.{
  PolicyError, GraphKind, violation, out_of_fuel, graph_limits, graph_inconsistent,
}

-- The two maps that the first loop fills.
pub record Graph : Type 0 where
  pub indegree : BTreeMap Identifier ℕ
  pub dependents : BTreeMap Identifier (List Identifier)

abbrev pub empty_graph : Graph
empty_graph = record { indegree = []; dependents = [] }

-- `map.get(k)` where a missing entry means no dependents.
abbrev pub entries_of : Option (List Identifier) → List Identifier
entries_of none = []
entries_of (some entries) = entries

-- `dependents.entry(dependency).or_default().push(node)`.
unfoldable pub push_dependent :
    Identifier
    → BTreeMap Identifier (List Identifier)
    → Identifier
    → BTreeMap Identifier (List Identifier)
push_dependent node dependents dependency =
    map_insert dependency (entries_of (map_get dependency dependents) ++ node ∷ []) dependents

unfoldable pub push_dependents :
    Identifier
    → BTreeMap Identifier (List Identifier)
    → List Identifier
    → BTreeMap Identifier (List Identifier)
push_dependents node dependents [] = dependents
push_dependents node dependents (d ∷ ds) =
    push_dependents node (push_dependent node dependents d) ds

-- What the first loop adds for one node with its dependencies.
unfoldable pub add_node : Graph → Identifier → List Identifier → Graph
add_node g node dependencies = record {
  indegree = map_insert node (length dependencies) g.indegree;
  dependents = push_dependents node g.dependents dependencies;
}

-- The nodes whose count is zero, in key order.
unfoldable pub ready_nodes : BTreeMap Identifier ℕ → List Identifier
ready_nodes [] = []
ready_nodes ((id, count) ∷ m) = let rest = ready_nodes m in if count == 0 then id ∷ rest else rest

-- The variables of the second loop.
pub record Walk : Type 0 where
  pub ready : List Identifier
  pub indegree : BTreeMap Identifier ℕ

module _ (kind : GraphKind) where
  -- The body of the `for dependent in entries` loop.
  unfoldable pub release : Walk → Identifier → Result PolicyError Walk
  release w dependent = do
    count ← ok_or (map_get dependent w.indegree) (violation (graph_inconsistent kind))
    left ← ok_or (checked_sub count 1) (violation (graph_inconsistent kind))
    ok (record {
      indegree = map_insert dependent left w.indegree;
      ready = if left == 0 then w.ready ++ dependent ∷ [] else w.ready;
    })

  unfoldable pub release_all : Walk → List Identifier → Result PolicyError Walk
  release_all w entries = fold_each release w entries

  -- One round of the `while` loop, after `id` left the front of the queue.
  unfoldable pub visit :
      BTreeMap Identifier (List Identifier)
      → Walk
      → Identifier
      → List Identifier
      → Result PolicyError Walk
  visit dependents w id rest =
      release_all (record w { ready = rest }) (entries_of (map_get id dependents))

  -- The `while` loop, which counts the nodes it visits.
  unfoldable pub drain : BTreeMap Identifier (List Identifier) → ℕ → Walk → ℕ → Result PolicyError ℕ
  drain dependents zero w visited = elim w.ready [ [] ↦ ok visited | _ ∷ _ ↦ err out_of_fuel ]
  drain dependents (suc fuel) w visited = elim w.ready [
    | [] ↦ ok visited
    | id ∷ rest ↦ ok_or (checked_add visited 1) (violation (graph_limits kind)) >>= λ count.
        visit dependents w id rest >>= λ next. drain dependents fuel next count
  ]

  -- A node is queued once at most, so the number of nodes is fuel enough.
  unfoldable pub walk : Graph → Result PolicyError ℕ
  walk g =
      drain g.dependents (length g.indegree)
        (record { ready = ready_nodes g.indegree; indegree = g.indegree }) 0
