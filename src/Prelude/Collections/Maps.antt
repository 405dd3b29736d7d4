-- ===== src/Prelude/Collections/Maps.antt =====
-- `BTreeMap<K, V>`: a list of entries in the order of their keys. `map_insert` writes the value and
-- `map_get` before it says whether `insert` would return an old one.
use Prim.Native.Nat.{suc}
use mathlib.Core.Path.{◌≡◌, refl, subst}
use mathlib.Core.Logic.{◌⊎◌, inl, inr}
use mathlib.Core.Bool.{Bool, true, false, ◌||◌}
use mathlib.Core.Option.{Option, none, some}
use mathlib.Core.List.{List, [], ◌∷◌}
use native.Mathlib.Omega.{arith}
use nix_seal.Prelude.Tests.{if◌then◌else◌, Bool-cases}
use nix_seal.Prelude.Lists.{length, All}
use nix_seal.Prelude.Collections.Sets.{Ord, contains, distinct}

abbrev pub BTreeMap : Type 0 → Type 0 → Type 0
BTreeMap K V = List (K × V)

abbrev pub map_keys : {K V : Type 0} → BTreeMap K V → List K
map_keys [] = []
map_keys ((k, v) ∷ m) = k ∷ map_keys m

abbrev pub map_values : {K V : Type 0} → BTreeMap K V → List V
map_values [] = []
map_values ((k, v) ∷ m) = v ∷ map_values m

-- A map has an entry.
abbrev pub HasEntry : {K V : Type 0} → K → V → BTreeMap K V → Type 0
HasEntry k v [] = ⊥
HasEntry k v ((j, w) ∷ m) = ((j ≡ k) × (w ≡ v)) ⊎ HasEntry k v m

module _ {K V : Type 0} ⦃o : Ord K⦄ where
  unfoldable pub map_get : K → BTreeMap K V → Option V
  map_get k [] = none
  map_get k ((j, v) ∷ m) = let rest = map_get k m in if o.eq_test j k then some v else rest

  unfoldable pub contains_key : K → BTreeMap K V → Bool
  contains_key k [] = false
  contains_key k ((j, v) ∷ m) = o.eq_test j k || contains_key k m

  unfoldable pub map_replace : K → V → BTreeMap K V → BTreeMap K V
  map_replace k v [] = []
  map_replace k v ((j, w) ∷ m) =
      let rest = map_replace k v m in if o.eq_test j k then (j, v) ∷ m else (j, w) ∷ rest

  unfoldable pub map_place : K → V → BTreeMap K V → BTreeMap K V
  map_place k v [] = (k, v) ∷ []
  map_place k v ((j, w) ∷ m) =
      let rest = map_place k v m in if o.lt_test k j then (k, v) ∷ (j, w) ∷ m else (j, w) ∷ rest

  unfoldable pub map_insert : K → V → BTreeMap K V → BTreeMap K V
  unfolding contains_key map_replace map_place
  map_insert k v m = if contains_key k m then map_replace k v m else map_place k v m

  pub contains_key-get :
      (k : K) (m : BTreeMap K V) → contains_key k m ≡ true → (v : V) × (map_get k m ≡ some v)
  unfolding contains_key map_get
  contains_key-get k [] h = cc
  contains_key-get k ((j, v) ∷ m) h = elim (Bool-cases (o.eq_test j k)) [
    | inl same ↦ (v, rw same)
    | inr other ↦ let (w, e) = contains_key-get k m (rw other at h) in (w, rw other e)
  ]

  pub get-contains_key :
      (k : K) (m : BTreeMap K V) {v : V} → map_get k m ≡ some v → contains_key k m ≡ true
  unfolding contains_key map_get
  get-contains_key k [] h = cc
  get-contains_key k ((j, w) ∷ m) h = elim (Bool-cases (o.eq_test j k)) [
    | inl same ↦ rw same
    | inr other ↦ rw other (get-contains_key k m (rw other at h))
  ]

  pub contains_key-false-get :
      (k : K) (m : BTreeMap K V) → contains_key k m ≡ false → map_get k m ≡ none
  unfolding contains_key map_get
  contains_key-false-get k [] h = refl
  contains_key-false-get k ((j, v) ∷ m) h = elim (Bool-cases (o.eq_test j k)) [
    | inl same ↦ absurd (cc)
    | inr other ↦ rw other (contains_key-false-get k m (rw other at h))
  ]

  pub contains-keys : (k : K) (m : BTreeMap K V) → contains k (map_keys m) ≡ contains_key k m
  unfolding contains contains_key
  contains-keys k [] = refl
  contains-keys k ((j, v) ∷ m) = rw (contains-keys k m)

  get-map_place :
      (k j : K) (v : V) (m : BTreeMap K V)
      → contains_key k m ≡ false
      → map_get j (map_place k v m) ≡ (if o.eq_test k j then some v else map_get j m)
  unfolding map_get map_place contains_key
  get-map_place k j v [] h = refl
  get-map_place k j v ((i, w) ∷ m) h =
      ground (arith, get-map_place k j v m, o.eq_test_iff k j, o.eq_test_iff i j, o.eq_test_iff i k)

  get-map_replace :
      (k j : K) (v : V) (m : BTreeMap K V)
      → contains_key k m ≡ true
      → map_get j (map_replace k v m) ≡ (if o.eq_test k j then some v else map_get j m)
  unfolding map_get map_replace contains_key
  get-map_replace k j v [] h = cc
  get-map_replace k j v ((i, w) ∷ m) h =
      ground
        (arith, get-map_replace k j v m, o.eq_test_iff k j, o.eq_test_iff i j, o.eq_test_iff i k)

  pub get-map_insert :
      (k j : K) (v : V) (m : BTreeMap K V)
      → map_get j (map_insert k v m) ≡ (if o.eq_test k j then some v else map_get j m)
  unfolding map_insert
  get-map_insert k j v m = elim (Bool-cases (contains_key k m)) [
    | inl old ↦ rw old (get-map_replace k j v m old)
    | inr new ↦ rw new (get-map_place k j v m new)
  ]

  contains_key-map_place :
      (k j : K) (v : V) (m : BTreeMap K V)
      → contains_key j (map_place k v m) ≡ (o.eq_test k j || contains_key j m)
  unfolding map_place contains_key
  contains_key-map_place k j v [] = refl
  contains_key-map_place k j v ((i, w) ∷ m) = ground (arith, contains_key-map_place k j v m)

  contains_key-map_replace :
      (k j : K) (v : V) (m : BTreeMap K V)
      → contains_key k m ≡ true
      → contains_key j (map_replace k v m) ≡ (o.eq_test k j || contains_key j m)
  unfolding map_replace contains_key
  contains_key-map_replace k j v [] h = cc
  contains_key-map_replace k j v ((i, w) ∷ m) h = ground (
    arith,
    contains_key-map_replace k j v m,
    o.eq_test_iff k j,
    o.eq_test_iff i j,
    o.eq_test_iff i k,
  )

  pub contains_key-map_insert :
      (k j : K) (v : V) (m : BTreeMap K V)
      → contains_key j (map_insert k v m) ≡ (o.eq_test k j || contains_key j m)
  unfolding map_insert
  contains_key-map_insert k j v m = elim (Bool-cases (contains_key k m)) [
    | inl old ↦ rw old (contains_key-map_replace k j v m old)
    | inr new ↦ rw new (contains_key-map_place k j v m)
  ]

  length-map_place : (k : K) (v : V) (m : BTreeMap K V) → length (map_place k v m) ≡ suc (length m)
  unfolding map_place
  length-map_place k v [] = refl
  length-map_place k v ((j, w) ∷ m) = ground (arith, length-map_place k v m)

  length-map_replace : (k : K) (v : V) (m : BTreeMap K V) → length (map_replace k v m) ≡ length m
  unfolding map_replace
  length-map_replace k v [] = refl
  length-map_replace k v ((j, w) ∷ m) = ground (arith, length-map_replace k v m)

  pub length-map_insert :
      (k : K) (v : V) (m : BTreeMap K V)
      → length (map_insert k v m) ≡ (if contains_key k m then length m else suc (length m))
  unfolding map_insert
  length-map_insert k v m = ground (arith, length-map_place k v m, length-map_replace k v m)

  pub get-HasEntry : (k : K) (m : BTreeMap K V) {v : V} → map_get k m ≡ some v → HasEntry k v m
  unfolding map_get
  get-HasEntry k [] h = absurd (cc)
  get-HasEntry k ((j, w) ∷ m) h = elim (Bool-cases (o.eq_test j k)) [
    | inl same ↦ inl ((o.eq_test_iff j k).0 same, ground arith)
    | inr other ↦ inr (get-HasEntry k m (rw other at h))
  ]

  -- With each key once, a lookup finds every entry.
  pub HasEntry-get :
      (k : K) (m : BTreeMap K V) {v : V}
      → distinct (map_keys m) ≡ true
      → HasEntry k v m
      → map_get k m ≡ some v
  unfolding map_get distinct
  HasEntry-get k [] h e = absurd e
  HasEntry-get k ((j, w) ∷ m) h (inl (same, value)) = ground (arith, o.eq_test_iff j k, same, value)
  HasEntry-get k ((j, w) ∷ m) h (inr there) =
      let rest = HasEntry-get k m (ground arith) there in
      let present = get-contains_key k m rest in
      ground (arith, contains-keys k m, o.eq_test_iff j k, present, rest)

-- What holds of every entry holds of the one that is found.
pub All-HasEntry {ℓ} :
    {K V : Type 0} (Q : K × V → Type ℓ) (m : BTreeMap K V) {k : K} {v : V}
    → All Q m
    → HasEntry k v m
    → Q (k, v)
All-HasEntry Q [] h e = absurd e
All-HasEntry Q ((j, w) ∷ m) {k} {v} h (inl (same, value)) =
    subst (λ x. Q (x, v)) same (subst (λ x. Q (j, x)) value h.0)
All-HasEntry Q ((j, w) ∷ m) h (inr there) = All-HasEntry Q m h.1 there
