-- ===== src/Prelude/Collections/Sets.antt =====
-- `BTreeSet<T>`: `insert` says whether the value was new, `collect` builds a set from an iterator.
use Prim.Native.Nat.{◌+◌, ◌≤◌, suc}
use mathlib.Core.Path.{◌≡◌, refl, subst}
use mathlib.Core.Logic.{◌↔◌, inl, inr}
use mathlib.Core.Bool.{Bool, true, false, ◌&&◌, ◌||◌, not}
use mathlib.Core.List.{List, [], ◌∷◌, ◌++◌}
use native.Mathlib.Omega.{arith}
use nix_seal.Prelude.Tests.{if◌then◌else◌, Bool-cases, Bool-ext}
use nix_seal.Prelude.Lists.{length, All}

-- `Eq` and `Ord` of a key type.
pub record Ord (K : Type 0) : Type 0 where
  pub eq_test : K → K → Bool
  pub eq_test_iff : (a b : K) → (eq_test a b ≡ true) ↔ (a ≡ b)
  pub lt_test : K → K → Bool

module _ {K : Type 0} ⦃o : Ord K⦄ where
  unfoldable pub contains : K → List K → Bool
  contains k [] = false
  contains k (x ∷ s) = o.eq_test x k || contains k s

  unfoldable pub place : K → List K → List K
  place k [] = k ∷ []
  place k (x ∷ s) = let rest = place k s in if o.lt_test k x then k ∷ x ∷ s else x ∷ rest

  unfoldable pub set_insert : K → List K → List K
  unfolding contains place
  set_insert k s = if contains k s then s else place k s

  unfoldable pub set_union : List K → List K → List K
  unfolding set_insert
  set_union s [] = s
  set_union s (x ∷ xs) = set_union (set_insert x s) xs

  -- `iter.collect::<BTreeSet<_>>()`.
  unfoldable pub to_set : List K → List K
  unfolding set_union
  to_set xs = set_union [] xs

  pub eq_test_refl : (a : K) → o.eq_test a a ≡ true
  eq_test_refl a = (o.eq_test_iff a a).1 refl

  pub contains-place :
      (k j : K) (s : List K) → contains j (place k s) ≡ (o.eq_test k j || contains j s)
  unfolding contains place
  contains-place k j [] = refl
  contains-place k j (x ∷ s) = ground (arith, contains-place k j s)

  pub contains-set_insert :
      (k j : K) (s : List K) → contains j (set_insert k s) ≡ (o.eq_test k j || contains j s)
  unfolding set_insert
  contains-set_insert k j s = elim (Bool-cases (contains k s)) [
    | inl old ↦ elim (Bool-cases (o.eq_test k j)) [
      | inl same ↦ let e = (o.eq_test_iff k j).0 same in rw (same, old) (rw (← e) old)
      | inr other ↦ rw (other, old) refl
    ]
    | inr new ↦ rw new (contains-place k j s)
  ]

  pub contains-set_union :
      (xs : List K) (j : K) (s : List K)
      → contains j (set_union s xs) ≡ (contains j s || contains j xs)
  unfolding set_union contains
  contains-set_union [] j s = ground arith
  contains-set_union (x ∷ xs) j s =
      ground (arith, contains-set_union xs j (set_insert x s), contains-set_insert x j s)

  pub set_union-append : (xs ys s : List K) → set_union s (xs ++ ys) ≡ set_union (set_union s xs) ys
  unfolding set_union
  set_union-append [] ys s = refl
  set_union-append (x ∷ xs) ys s = set_union-append xs ys (set_insert x s)

  pub contains-to_set : (xs : List K) (j : K) → contains j (to_set xs) ≡ contains j xs
  unfolding to_set contains
  contains-to_set xs j = contains-set_union xs j []

  pub length-place : (k : K) (s : List K) → length (place k s) ≡ suc (length s)
  unfolding place
  length-place k [] = refl
  length-place k (x ∷ s) = ground (arith, length-place k s)

  -- No value stands twice in the list.
  unfoldable pub distinct : List K → Bool
  unfolding contains
  distinct [] = true
  distinct (x ∷ xs) = not (contains x xs) && distinct xs

  pub length-set_insert :
      (k : K) (s : List K)
      → length (set_insert k s) ≡ (if contains k s then length s else suc (length s))
  unfolding set_insert
  length-set_insert k s = ground (arith, length-place k s)

  length-set_insert_old :
      (k : K) (s : List K) → contains k s ≡ true → length (set_insert k s) ≡ length s
  unfolding set_insert
  length-set_insert_old k s h = rw h

  pub length-set_insert_new :
      (k : K) (s : List K) → contains k s ≡ false → length (set_insert k s) ≡ suc (length s)
  unfolding set_insert
  length-set_insert_new k s h = rw h (length-place k s)

  length-set_union-le : (xs s : List K) → length (set_union s xs) ≤ length s + length xs
  unfolding set_union
  length-set_union-le [] s = omega arith
  length-set_union-le (x ∷ xs) s =
      ground (arith, length-set_union-le xs (set_insert x s), length-set_insert x s)

  -- A union that loses no length takes in values that are new and distinct.
  set_union-distinct :
      (xs s : List K)
      → length (set_union s xs) ≡ length s + length xs
      → (distinct xs ≡ true) × ((j : K) → contains j xs ≡ true → contains j s ≡ false)
  unfolding set_union distinct contains
  set_union-distinct [] s h = (refl, λ j m. cc)
  set_union-distinct (x ∷ xs) s h = elim (Bool-cases (contains x s)) [
    | inl old ↦
        absurd
          (omega (arith, length-set_union-le xs (set_insert x s), length-set_insert_old x s old))
    | inr new ↦
        let size = length-set_insert_new x s new in
        let (rest, apart) = set_union-distinct xs (set_insert x s) (omega (arith, h, size)) in
        let fresh = λ (j : K). contains-set_insert x j s in
        (
          elim (Bool-cases (contains x xs)) [
            | inl again ↦ ground (arith, apart x again, fresh x, eq_test_refl x)
            | inr once ↦ ground (arith, once, rest)
          ],
          λ j m. elim (Bool-cases (o.eq_test x j)) [
            | inl same ↦ rw (← (o.eq_test_iff x j).0 same) new
            | inr other ↦ ground (arith, apart j, fresh j)
          ],
        )
  ]

  -- `xs.iter().collect::<BTreeSet<_>>().len() == xs.len()` finds the lists without duplicates.
  pub to_set-distinct : (xs : List K) → length (to_set xs) ≡ length xs → distinct xs ≡ true
  unfolding to_set
  to_set-distinct xs h = (set_union-distinct xs [] (omega (arith, h))).0

  eq_test_sym : (a b : K) → o.eq_test a b ≡ o.eq_test b a
  eq_test_sym a b =
      Bool-ext (o.eq_test a b) (o.eq_test b a) (λ h. rw ((o.eq_test_iff a b).0 h) (eq_test_refl b))
        (λ h. rw ((o.eq_test_iff b a).0 h) (eq_test_refl a))

  distinct-place :
      (k : K) (s : List K) → contains k s ≡ false → distinct s ≡ true → distinct (place k s) ≡ true
  unfolding place contains distinct
  distinct-place k [] h d = refl
  distinct-place k (x ∷ s) h d = ground (
    arith,
    contains-place k x s,
    distinct-place k s,
    o.eq_test_iff k x,
    o.eq_test_iff x k,
    eq_test_sym k x,
  )

  -- A new value in a set of distinct ones leaves them distinct.
  pub set_insert-distinct :
      (k : K) (s : List K) → distinct s ≡ true → distinct (set_insert k s) ≡ true
  unfolding set_insert
  set_insert-distinct k s d = elim (Bool-cases (contains k s)) [
    | inl old ↦ rw old d
    | inr new ↦ rw new (distinct-place k s new d)
  ]

  -- What holds of every value that a list contains holds of all its elements, and back.
  pub All-of_contains {κ} :
      {P : K → Type κ} (xs : List K) → ((a : K) → contains a xs ≡ true → P a) → All P xs
  unfolding contains
  All-of_contains [] h = tt
  All-of_contains (x ∷ xs) h =
      (h x (ground (arith, eq_test_refl x)), All-of_contains xs (λ a m. h a (ground arith)))

  pub contains-of_All {κ} :
      (P : K → Type κ) (xs : List K) → All P xs → (a : K) → contains a xs ≡ true → P a
  unfolding contains
  contains-of_All P [] h a m = absurd (cc)
  contains-of_All P (x ∷ xs) h a m = elim (Bool-cases (o.eq_test x a)) [
    | inl same ↦ subst P ((o.eq_test_iff x a).0 same) h.0
    | inr other ↦ contains-of_All P xs h.1 a (rw other at m)
  ]
