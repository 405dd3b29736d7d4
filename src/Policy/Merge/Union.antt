-- ===== src/Policy/Merge/Union.antt =====
-- The maps of two plans and of what `merge` of crates/nix-seal-policy/src/lib.rs makes of them.
use nix_seal.Prelude.{
  ◌≡◌, ◌⊎◌, inl, inr, ◌↔◌, true, false, none, some, [], ◌∷◌, arith, ok, >>=-eq-ok, >>-eq-ok,
  ok_injective, Bool-cases, subst,
}
use nix_seal.Prelude.Text.{Text, codes, text_ord}
use nix_seal.Prelude.Collections.{
  BTreeMap, map_get, map_insert, contains_key, contains_key-map_insert, get-map_insert,
  contains_key-false-get,
}
use nix_seal.Core.Id.{Identifier}
use nix_seal.Core.Plan.{PlanV2}
use nix_seal.Policy.Merge.{ensure_schema, append_entry, disjoint_append, merge}

-- The keys of the two maps differ, and the entries of the third are those of both.
pub record IsUnion {A : Type 0} (left right result : BTreeMap Identifier A) : Type 0 where
  pub disjoint : (id : Identifier) → contains_key id right ≡ true → contains_key id left ≡ false
  pub entries :
      (id : Identifier) (value : A)
      → (map_get id result ≡ some value)
        ↔ ((map_get id left ≡ some value) ⊎ (map_get id right ≡ some value))

module _ {A : Type 0} where
  IsUnion-nothing : (left : BTreeMap Identifier A) → IsUnion left [] left
  unfolding map_get contains_key
  IsUnion-nothing left = record {
    disjoint = λ id h. absurd (cc);
    entries = λ id value. (λ h. inl h, λ h. elim h [ inl l ↦ l | inr r ↦ absurd (cc) ]);
  }

  IsUnion-append :
      (left rest result : BTreeMap Identifier A) (j : Identifier) (v : A)
      → contains_key j left ≡ false
      → IsUnion (map_insert j v left) rest result
      → IsUnion left ((j, v) ∷ rest) result
  unfolding map_get contains_key
  IsUnion-append left rest result j v fresh u = record {
    disjoint = λ id h. elim (Bool-cases (text_ord.eq_test j id)) [
      | inl here ↦
          subst (λ x. contains_key x left ≡ false) ((text_ord.eq_test_iff j id).0 here) fresh
      | inr other ↦ ground (arith, u.disjoint id, contains_key-map_insert j id v left)
    ];
    entries = λ id value. elim (Bool-cases (text_ord.eq_test j id)) [
      | inl here ↦
          let gone : map_get id left ≡ none =
            contains_key-false-get id left (
              subst (λ x. contains_key x left ≡ false) ((text_ord.eq_test_iff j id).0 here)
                fresh) in
          let absent : contains_key id rest ≡ false =
            ground (arith, u.disjoint id, contains_key-map_insert j id v left) in
          let not_later = contains_key-false-get id rest absent in
          ground (arith, u.entries id value, get-map_insert j id v left, gone, not_later)
      | inr other ↦ ground (arith, u.entries id value, get-map_insert j id v left)
    ];
  }

  disjoint_append-IsUnion :
      (kind : Text) (left right result : BTreeMap Identifier A)
      → disjoint_append kind left right ≡ ok result
      → IsUnion left right result
  unfolding disjoint_append append_entry
  disjoint_append-IsUnion kind left [] result h =
      subst (IsUnion left []) (ok_injective h) (IsUnion-nothing left)
  disjoint_append-IsUnion kind left ((j, v) ∷ rest) result h =
      elim (Bool-cases (contains_key j left)) [
        | inl old ↦ let e = rw old at h in absurd (cc)
        | inr fresh ↦
            IsUnion-append left rest result j v fresh
              (disjoint_append-IsUnion kind (map_insert j v left) rest result (rw fresh at h))
      ]

-- What a merged plan consists of.
pub record IsMerged (left right result : PlanV2) : Type 0 where
  pub identities : IsUnion left.identities right.identities result.identities
  pub groups : IsUnion left.groups right.groups result.groups
  pub targets : IsUnion left.targets right.targets result.targets
  pub secrets : IsUnion left.secrets right.secrets result.secrets
  pub generators : IsUnion left.generators right.generators result.generators
  pub templates : IsUnion left.templates right.templates result.templates
  pub policies : IsUnion left.approval_policies right.approval_policies result.approval_policies
  pub backends : IsUnion left.backends right.backends result.backends

-- Where two plans merge, no identifier is in both of any kind, and the objects of the result are
-- those of the two plans and no other.
pub merge-IsMerged :
    (left right result : PlanV2) → merge left right ≡ ok result → IsMerged left right result
unfolding merge
merge-IsMerged left right result h =
    let (_, h0) = >>-eq-ok (ensure_schema left) _ h in
    let (_, h1) = >>-eq-ok (ensure_schema right) _ h0 in
    let (a, ea, h2) =
      >>=-eq-ok (disjoint_append (codes "identities") left.identities right.identities) _ h1 in
    let (b, eb, h3) = >>=-eq-ok (disjoint_append (codes "groups") left.groups right.groups) _ h2 in
    let (c, ec, h4) =
      >>=-eq-ok (disjoint_append (codes "targets") left.targets right.targets) _ h3 in
    let (d, ed, h5) =
      >>=-eq-ok (disjoint_append (codes "secrets") left.secrets right.secrets) _ h4 in
    let (e, ee, h6) =
      >>=-eq-ok (disjoint_append (codes "generators") left.generators right.generators) _ h5 in
    let (f, ef, h7) =
      >>=-eq-ok (disjoint_append (codes "templates") left.templates right.templates) _ h6 in
    let (g, eg, h8) =
      >>=-eq-ok
        (disjoint_append (codes "approval_policies") left.approval_policies right.approval_policies)
        _ h7 in
    let (k, ek, h9) =
      >>=-eq-ok (disjoint_append (codes "backends") left.backends right.backends) _ h8 in
    subst (IsMerged left right) (ok_injective h9) (record {
      identities = disjoint_append-IsUnion _ _ _ a ea;
      groups = disjoint_append-IsUnion _ _ _ b eb;
      targets = disjoint_append-IsUnion _ _ _ c ec;
      secrets = disjoint_append-IsUnion _ _ _ d ed;
      generators = disjoint_append-IsUnion _ _ _ e ee;
      templates = disjoint_append-IsUnion _ _ _ f ef;
      policies = disjoint_append-IsUnion _ _ _ g eg;
      backends = disjoint_append-IsUnion _ _ _ k ek;
    })
