-- ===== src/Policy/Groups/Offer.antt =====
-- What one pass of `offer` over a list of references does to the leaves, the stack and the groups
-- seen, and the measure by which the stack runs empty.
use nix_seal.Prelude.{
  ℕ, ◌+◌, ◌≤◌, ◌<◌, ◌≡◌, true, false, ◌||◌, ◌&&◌, not, List, [], ◌∷◌, length, arith, if◌then◌else◌,
  Bool-cases, inl, inr,
}
use nix_seal.Prelude.Text.{text_ord}
use nix_seal.Prelude.Collections.{
  contains, set_insert, map_keys, contains-set_insert, contains-keys,
}
use nix_seal.Core.Id.{Identifier}
use nix_seal.Core.Plan.{PlanV2}
use nix_seal.Policy.Groups.{Expansion, is_group, offer, offer_all}

-- The keys that are not in a set.
abbrev pub unseen : List Identifier → List Identifier → ℕ
unseen [] visited = 0
unseen (k ∷ ks) visited = (if contains k visited then 0 else 1) + unseen ks visited

pub unseen-le-length : (ks visited : List Identifier) → unseen ks visited ≤ length ks
unseen-le-length [] visited = omega arith
unseen-le-length (k ∷ ks) visited = ground (arith, unseen-le-length ks visited)

pub unseen-insert-le :
    (ks visited : List Identifier) (id : Identifier)
    → unseen ks (set_insert id visited) ≤ unseen ks visited
unseen-insert-le [] visited id = omega arith
unseen-insert-le (k ∷ ks) visited id =
    ground (arith, unseen-insert-le ks visited id, contains-set_insert id k visited)

pub unseen-insert-lt :
    (ks visited : List Identifier) (id : Identifier)
    → contains id ks ≡ true
    → contains id visited ≡ false
    → unseen ks (set_insert id visited) < unseen ks visited
unfolding contains
unseen-insert-lt [] visited id h new = cc
unseen-insert-lt (k ∷ ks) visited id h new = elim (Bool-cases (text_ord.eq_test k id)) [
  | inl same ↦
      let e = (text_ord.eq_test_iff k id).0 same in
      ground (
        arith,
        e,
        unseen-insert-le ks visited id,
        contains-set_insert id k visited,
        text_ord.eq_test_iff id k,
      )
  | inr other ↦
      ground (
        arith,
        unseen-insert-lt ks visited id (rw other at h) new,
        contains-set_insert id k visited,
      )
]

module _ (plan : PlanV2) where
  leaves-offer :
      (e : Expansion) (r x : Identifier)
      → contains x (offer plan e r).leaves
        ≡ (contains x e.leaves || text_ord.eq_test r x && not (is_group plan r))
  unfolding offer
  leaves-offer e r x = ground (arith, contains-set_insert r x e.leaves)

  visited-offer :
      (e : Expansion) (r x : Identifier)
      → contains x (offer plan e r).visited
        ≡ (contains x e.visited || text_ord.eq_test r x && is_group plan r)
  unfolding offer
  visited-offer e r x = ground (arith, contains-set_insert r x e.visited, text_ord.eq_test_iff r x)

  pending-offer :
      (e : Expansion) (r x : Identifier)
      → contains x (offer plan e r).pending ≡ (
          contains x e.pending
          || text_ord.eq_test r x && is_group plan r && not (contains x e.visited))
  unfolding offer contains
  pending-offer e r x = ground (arith, text_ord.eq_test_iff r x)

  abbrev pub work : Expansion → ℕ
  work e = unseen (map_keys plan.groups) e.visited + length e.pending

  work-offer : (e : Expansion) (r : Identifier) → work (offer plan e r) ≤ work e
  unfolding offer
  work-offer e r =
      ground
        (arith, unseen-insert-lt (map_keys plan.groups) e.visited r, contains-keys r plan.groups)

  pub leaves-offer_all :
      (rs : List Identifier) (e : Expansion) (x : Identifier)
      → contains x (offer_all plan e rs).leaves
        ≡ (contains x e.leaves || contains x rs && not (is_group plan x))
  unfolding offer_all contains
  leaves-offer_all [] e x = ground arith
  leaves-offer_all (r ∷ rs) e x =
      ground (
        arith,
        leaves-offer_all rs (offer plan e r) x,
        leaves-offer e r x,
        text_ord.eq_test_iff r x,
      )

  pub visited-offer_all :
      (rs : List Identifier) (e : Expansion) (x : Identifier)
      → contains x (offer_all plan e rs).visited
        ≡ (contains x e.visited || contains x rs && is_group plan x)
  unfolding offer_all contains
  visited-offer_all [] e x = ground arith
  visited-offer_all (r ∷ rs) e x = ground (
    arith,
    visited-offer_all rs (offer plan e r) x,
    visited-offer e r x,
    text_ord.eq_test_iff r x,
  )

  pub pending-offer_all :
      (rs : List Identifier) (e : Expansion) (x : Identifier)
      → contains x (offer_all plan e rs).pending
        ≡ (contains x e.pending || contains x rs && is_group plan x && not (contains x e.visited))
  unfolding offer_all contains
  pending-offer_all [] e x = ground arith
  pending-offer_all (r ∷ rs) e x = ground (
    arith,
    pending-offer_all rs (offer plan e r) x,
    pending-offer e r x,
    visited-offer e r x,
    text_ord.eq_test_iff r x,
  )

  pub work-offer_all : (rs : List Identifier) (e : Expansion) → work (offer_all plan e rs) ≤ work e
  unfolding offer_all
  work-offer_all [] e = omega arith
  work-offer_all (r ∷ rs) e = omega (arith, work-offer_all rs (offer plan e r), work-offer e r)
