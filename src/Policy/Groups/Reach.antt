-- ===== src/Policy/Groups/Reach.antt =====
-- What a list of references stands for: the identifiers that are listed, or that are members of a
-- group which the references stand for. The leaves are those that are no group.
use nix_seal.Prelude.{◌≡◌, ◌⊎◌, inl, inr, true, false, some, List, [], ◌∷◌, Bool-cases, arith}
use nix_seal.Prelude.Text.{text_ord}
use nix_seal.Prelude.Collections.{contains, contains_key, map_get}
use nix_seal.Core.Id.{Identifier}
use nix_seal.Core.Plan.{PlanV2, Group}

pub data Reaches (plan : PlanV2) (references : List Identifier) : Identifier → Type 0 where
  listed : {id : Identifier} → contains id references ≡ true → Reaches plan references id
  member :
      {group_id id : Identifier} {group : Group}
      → Reaches plan references group_id
      → map_get group_id plan.groups ≡ some group
      → contains id group.members ≡ true
      → Reaches plan references id

abbrev pub IsLeaf : PlanV2 → Identifier → Type 0
IsLeaf plan id = contains_key id plan.groups ≡ false

pub Reaches-mono :
    (plan : PlanV2) (references others : List Identifier)
    → ((id : Identifier) → contains id references ≡ true → contains id others ≡ true)
    → {id : Identifier} → Reaches plan references id
    → Reaches plan others id
Reaches-mono plan references others h (listed m) = listed (h _ m)
Reaches-mono plan references others h (member r get m) =
    member (Reaches-mono plan references others h r) get m

pub Reaches-head :
    (plan : PlanV2) (first : Identifier) (rest : List Identifier) {id : Identifier}
    → Reaches plan (first ∷ []) id
    → Reaches plan (first ∷ rest) id
unfolding contains
Reaches-head plan first rest r =
    Reaches-mono plan (first ∷ []) (first ∷ rest) (λ id m. ground arith) r

pub Reaches-tail :
    (plan : PlanV2) (first : Identifier) (rest : List Identifier) {id : Identifier}
    → Reaches plan rest id
    → Reaches plan (first ∷ rest) id
unfolding contains
Reaches-tail plan first rest r = Reaches-mono plan rest (first ∷ rest) (λ id m. ground arith) r

-- What a list reaches, its first reference or the rest reaches.
pub Reaches-split :
    (plan : PlanV2) (first : Identifier) (rest : List Identifier) {id : Identifier}
    → Reaches plan (first ∷ rest) id
    → Reaches plan (first ∷ []) id ⊎ Reaches plan rest id
unfolding contains
Reaches-split plan first rest (listed {id} m) = elim (Bool-cases (text_ord.eq_test first id)) [
  | inl same ↦ inl (listed (rw same))
  | inr other ↦ inr (listed (rw other at m))
]
Reaches-split plan first rest (member r get m) = elim (Reaches-split plan first rest r) [
  | inl here ↦ inl (member here get m)
  | inr there ↦ inr (member there get m)
]

pub not-Reaches-nil : (plan : PlanV2) {id : Identifier} → Reaches plan [] id → ⊥
unfolding contains
not-Reaches-nil plan (listed m) = cc
not-Reaches-nil plan (member r get m) = not-Reaches-nil plan r
