-- ===== src/Policy/Kahn/Fuel.antt =====
-- The fuel of the topological walk of crates/nix-seal-policy/src/lib.rs.
use nix_seal.Prelude.{
  ℕ, zero, suc, ◌+◌, ◌-◌, ◌≤◌, ◌≡◌, ◌≢◌, refl, ap, inl, inr, ◌==◌, ◌∙◌, leb, some, List, [], ◌∷◌,
  ◌++◌, length, arith, ok, err, Result, fold_each-rule, ok_injective, Bool-cases, Option-cases,
  Result-cases, if◌then◌else◌, subst,
}
use nix_seal.Prelude.Numbers.{checked_add, checked_sub}
use nix_seal.Prelude.Text.{text_ord}
use nix_seal.Prelude.Collections.{BTreeMap, map_get, map_insert, map_replace, get-contains_key}
use nix_seal.Core.Id.{Identifier}
use nix_seal.Policy.Error.{PolicyError, GraphKind, out_of_fuel}
use nix_seal.Policy.Kahn.{
  Graph, Walk, entries_of, ready_nodes, release, release_all, visit, drain, walk,
}

-- One for a count that is not zero.
abbrev weight : ℕ → ℕ
weight count = if count == 0 then 0 else 1

-- The nodes that wait for others, and with those that are ready the rounds that can still come.
abbrev waiting : BTreeMap Identifier ℕ → ℕ
waiting [] = 0
waiting ((id, count) ∷ m) = weight count + waiting m

abbrev rounds : Walk → ℕ
rounds w = waiting w.indegree + length w.ready

waiting-map_replace :
    (id : Identifier) (m : BTreeMap Identifier ℕ) (count left : ℕ)
    → map_get id m ≡ some count
    → waiting (map_replace id left m) + weight count ≡ waiting m + weight left
unfolding map_get map_replace
waiting-map_replace id [] count left h = absurd (cc)
waiting-map_replace id ((j, c) ∷ m) count left h = elim (Bool-cases (text_ord.eq_test j id)) [
  | inl here ↦ let same = rw here at h in ground arith
  | inr other ↦
      let rest = waiting-map_replace id m count left (rw other at h) in
      rw other (omega (arith, rest))
]

length-snoc : (xs : List Identifier) (x : Identifier) → length (xs ++ x ∷ []) ≡ suc (length xs)
length-snoc [] x = refl
length-snoc (y ∷ xs) x = ground (arith, length-snoc xs x)

waiting-ready : (m : BTreeMap Identifier ℕ) → waiting m + length (ready_nodes m) ≡ length m
unfolding ready_nodes
waiting-ready [] = refl
waiting-ready ((id, count) ∷ m) = ground (arith, waiting-ready m)

-- The walk after a dependent that waited for `count` nodes.
abbrev after : Walk → Identifier → ℕ → Walk
after w dependent left = record {
  indegree = map_insert dependent left w.indegree;
  ready = if left == 0 then w.ready ++ dependent ∷ [] else w.ready;
}

after-rounds :
    (w : Walk) (dependent : Identifier) (count : ℕ)
    → map_get dependent w.indegree ≡ some count
    → 1 ≤ count
    → rounds (after w dependent (count - 1)) ≤ rounds w
unfolding map_insert
after-rounds w dependent count found low =
    let replaced = waiting-map_replace dependent w.indegree count (count - 1) found in
    let present = get-contains_key dependent w.indegree found in
    let longer = length-snoc w.ready dependent in
    rw present (elim (Bool-cases (count - 1 == 0)) [
      | inl last ↦ rw last (ground arith)
      | inr more ↦ rw more (ground arith)
    ])

err_injective :
    {A : Type 0} {a b : PolicyError} → ◌≡◌ {A = Result PolicyError A} (err a) (err b) → a ≡ b
err_injective h = cc

module _ (kind : GraphKind) where
  release-rounds :
      (w next : Walk) (dependent : Identifier)
      → release kind w dependent ≡ ok next
      → rounds next ≤ rounds w
  unfolding release checked_sub
  release-rounds w next dependent h = elim (Option-cases (map_get dependent w.indegree)) [
    | inl gone ↦ let e = rw gone at h in absurd (cc)
    | inr (count, found) ↦
        let e = rw found at h in
        elim (Bool-cases (leb 1 count)) [
          | inr nothing ↦ let e1 = rw nothing at e in absurd (cc)
          | inl some_left ↦
              let e1 = rw some_left at e in
              subst (λ (q : Walk). rounds q ≤ rounds w) (ok_injective e1)
                (after-rounds w dependent count found (ground arith))
        ]
  ]

  release-no_fuel : (w : Walk) (dependent : Identifier) → release kind w dependent ≢ err out_of_fuel
  unfolding release
  release-no_fuel w dependent h = elim (Option-cases (map_get dependent w.indegree)) [
    | inl gone ↦ let e = rw gone at h in cc
    | inr (count, found) ↦
        let e = rw found at h in
        elim (Option-cases (checked_sub count 1)) [
          | inl nothing ↦ let e1 = rw nothing at e in cc
          | inr (left, some_left) ↦ let e1 = rw some_left at e in cc
        ]
  ]

  release_all-no_fuel :
      (entries : List Identifier) (w : Walk) → release_all kind w entries ≢ err out_of_fuel
  unfolding release_all
  release_all-no_fuel [] w h = cc
  release_all-no_fuel (d ∷ ds) w h = elim (Result-cases (release kind w d)) [
    | inl (next, now) ↦ release_all-no_fuel ds next (rw now at h)
    | inr (e, failed) ↦ release-no_fuel w d (failed ∙ (rw failed at h))
  ]

  release_all-rounds :
      (entries : List Identifier) (w next : Walk)
      → release_all kind w entries ≡ ok next
      → rounds next ≤ rounds w
  unfolding release_all
  release_all-rounds entries w next h =
      fold_each-rule (λ (q : Walk). rounds q ≤ rounds w) (release kind) entries
        (λ s d t below e. let step = release-rounds s t d e in omega (arith, step, below))
        (omega arith) h

  drain-ends :
      (dependents : BTreeMap Identifier (List Identifier)) (fuel : ℕ) (ready : List Identifier)
      (indegree : BTreeMap Identifier ℕ) (visited : ℕ)
      → rounds (record { ready = ready; indegree = indegree }) ≤ fuel
      → drain kind dependents fuel (record { ready = ready; indegree = indegree }) visited
        ≢ err out_of_fuel
  unfolding drain visit
  drain-ends dependents zero [] indegree visited below h = cc
  drain-ends dependents zero (id ∷ rest) indegree visited below h = omega (arith, below)
  drain-ends dependents (suc fuel) [] indegree visited below h = cc
  drain-ends dependents (suc fuel) (id ∷ rest) indegree visited below h =
      elim (Option-cases (checked_add visited 1)) [
        | inl full ↦ let e = rw full at h in cc
        | inr (count, counted) ↦
            let e = rw counted at h in
            let start : Walk = record { ready = rest; indegree = indegree } in
            let entries = entries_of (map_get id dependents) in
            elim (Result-cases (release_all kind start entries)) [
              | inr (bad, failed) ↦
                  release_all-no_fuel entries start
                    (failed ∙ ap err (err_injective (rw failed at e)))
              | inl (next, released) ↦
                  let fewer = release_all-rounds entries start next released in
                  drain-ends dependents fuel next.ready next.indegree count
                    (omega (arith, fewer, below)) (rw released at e)
            ]
      ]

-- The topological walk ends within its fuel on every graph, also where the counts and the dependents
-- do not fit each other: it answers with the number of visited nodes or with an error of the code.
pub walk-ends : (kind : GraphKind) (g : Graph) → walk kind g ≢ err out_of_fuel
unfolding walk
walk-ends kind g =
    drain-ends kind g.dependents (length g.indegree) (ready_nodes g.indegree) g.indegree 0
      (omega (arith, waiting-ready g.indegree))
