-- ===== src/Policy/Validate/Namespace.antt =====
-- `validate_authorization_namespace` of crates/nix-seal-policy/src/lib.rs.
use nix_seal.Prelude.{
  ◌≡◌, refl, ◌↔◌, inl, inr, true, false, [], ◌∷◌, arith, ok, >>-eq-ok, Bool-cases, subst,
}
use nix_seal.Prelude.Text.{Text, codes, text_ord}
use nix_seal.Prelude.Collections.{BTreeMap, contains_key}
use nix_seal.Core.Id.{Identifier}
use nix_seal.Core.Plan.{PlanV2}
use nix_seal.Policy.Validate.{shared_keys, refuse_shared, validate_authorization_namespace}

-- No key of the first map is one of the second.
abbrev pub AreDisjoint : {A B : Type 0} → BTreeMap Identifier A → BTreeMap Identifier B → Type 0
AreDisjoint left right =
    (id : Identifier) → contains_key id left ≡ true → contains_key id right ≡ false

module _ {A B : Type 0} (left_name right_name : Text) (right : BTreeMap Identifier B) where
  refused-disjoint :
      (left : BTreeMap Identifier A)
      → refuse_shared left_name right_name (shared_keys left right) ≡ ok tt
      → AreDisjoint left right
  unfolding refuse_shared shared_keys contains_key
  refused-disjoint [] h id e = absurd (cc)
  refused-disjoint ((j, v) ∷ left) h id e = elim (Bool-cases (contains_key j right)) [
    | inl shared ↦ let bad = rw shared at h in absurd (cc)
    | inr fresh ↦ elim (Bool-cases (text_ord.eq_test j id)) [
      | inl here ↦
          subst (λ x. contains_key x right ≡ false) ((text_ord.eq_test_iff j id).0 here) fresh
      | inr other ↦ refused-disjoint left (rw fresh at h) id (rw other at e)
    ]
  ]

  disjoint-accepted :
      (left : BTreeMap Identifier A)
      → AreDisjoint left right
      → refuse_shared left_name right_name (shared_keys left right) ≡ ok tt
  unfolding refuse_shared shared_keys contains_key
  disjoint-accepted [] d = refl
  disjoint-accepted ((j, v) ∷ left) d =
      let fresh = d j (ground (arith, text_ord.eq_test_iff j j)) in
      rw fresh (disjoint-accepted left (λ id e. d id (ground arith)))

-- The check on the namespace passes exactly where identities, groups and targets are pairwise
-- without a common identifier.
pub validate_authorization_namespace-AreDisjoint :
    (plan : PlanV2)
    → (validate_authorization_namespace plan ≡ ok tt) ↔ (
        AreDisjoint plan.identities plan.groups
        × AreDisjoint plan.identities plan.targets
        × AreDisjoint plan.groups plan.targets)
unfolding validate_authorization_namespace
validate_authorization_namespace-AreDisjoint plan = (
  λ h.
      let (a, h1) =
        >>-eq-ok
          (refuse_shared (codes "identity") (codes "group")
            (shared_keys plan.identities plan.groups))
          _ h in
      let (b, c) =
        >>-eq-ok
          (refuse_shared (codes "identity") (codes "target")
            (shared_keys plan.identities plan.targets))
          _ h1 in
      (
        refused-disjoint _ _ plan.groups plan.identities a,
        refused-disjoint _ _ plan.targets plan.identities b,
        refused-disjoint _ _ plan.targets plan.groups c,
      ),
  λ (a, b, c).
      rw
        (
          disjoint-accepted (codes "identity") (codes "group") plan.groups plan.identities a,
          disjoint-accepted (codes "identity") (codes "target") plan.targets plan.identities b,
          disjoint-accepted (codes "group") (codes "target") plan.targets plan.groups c,
        )
        refl,
)
