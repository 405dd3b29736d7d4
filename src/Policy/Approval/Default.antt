-- ===== src/Policy/Approval/Default.antt =====
-- The approval policy of a secret that names none: one signature of any signer of the plan.
use nix_seal.Prelude.{
  ◌≤◌, ◌≡◌, refl, ◌∙◌, inl, inr, Bool, true, Option, none, some, [], ◌∷◌, length, any, arith, ok,
  All, Bool-cases,
}
use nix_seal.Prelude.Text.{Text, text_ord}
use nix_seal.Prelude.Collections.{
  BTreeMap, HasEntry, contains, distinct, map_keys, map_values, contains_key, HasEntry-get,
  contains-set_union, contains_key-get, All-HasEntry, get-HasEntry,
}
use nix_seal.Core.Id.{Identifier}
use nix_seal.Core.Plan.{PlanV2, Identity, IdentityKind, ApprovalPolicy}
use nix_seal.Policy.Secrets.{check_approval}
use nix_seal.Policy.Approval.{
  TargetApprovalPolicyV1, is_signer, ids_of_kind, target_approval_policy, approval_choice,
  validate_approval,
}
use nix_seal.Policy.Approval.Declared.{
  policy_of, in_range, IsSigner, add_signers-returns, target_approval_policy-returns,
}

pub ids_of_kind-All :
    (test : IdentityKind → Bool) (m : BTreeMap Identifier Identity) (Q : Identifier → Type 0)
    → ((id : Identifier) (i : Identity) → HasEntry id i m → test i.kind ≡ true → Q id)
    → All Q (ids_of_kind test m)
unfolding ids_of_kind
ids_of_kind-All test [] Q h = tt
ids_of_kind-All test ((id, identity) ∷ m) Q h =
    let rest = ids_of_kind-All test m Q (λ j i e t. h j i (inr e) t) in
    elim (Bool-cases (test identity.kind)) [
      | inl taken ↦ rw taken (h id identity (inl (refl, refl)) taken, rest)
      | inr left_out ↦ rw left_out rest
    ]

pub ids_of_kind-any :
    (test : IdentityKind → Bool) (m : BTreeMap Identifier Identity)
    → any (λ (i : Identity). test i.kind) (map_values m) ≡ true
    → (id : Identifier) × (contains id (ids_of_kind test m) ≡ true)
unfolding ids_of_kind contains
ids_of_kind-any test [] h = absurd (cc)
ids_of_kind-any test ((id, identity) ∷ m) h = elim (Bool-cases (test identity.kind)) [
  | inl taken ↦ (id, rw taken (ground (arith, text_ord.eq_test_iff id id)))
  | inr left_out ↦
      let (j, there) = ids_of_kind-any test m (rw left_out at h) in (j, rw left_out there)
]

length_positive :
    (id : Identifier) (m : BTreeMap Identifier Text) → contains_key id m ≡ true → 1 ≤ length m
unfolding contains_key
length_positive id [] h = absurd (cc)
length_positive id (entry ∷ m) h = omega arith

module _ (plan : PlanV2) where
  default-returns :
      distinct (map_keys plan.identities) ≡ true
      → any (λ (i : Identity). is_signer i.kind) (map_values plan.identities) ≡ true
      → (policy : TargetApprovalPolicyV1) × (target_approval_policy plan none ≡ ok policy)
  unfolding target_approval_policy approval_choice
  default-returns once some_signer =
      let ids = ids_of_kind is_signer plan.identities in
      let signs =
        ids_of_kind-All is_signer plan.identities (IsSigner plan)
          (λ id i e t. let found = HasEntry-get id plan.identities once e in rw found t) in
      let (signers, added, same) =
        add_signers-returns plan ids [] [] signs
          (record { keys = λ j. unfold contains_key contains in refl; size = refl }) in
      let (id, listed) = ids_of_kind-any is_signer plan.identities some_signer in
      let present : contains_key id signers ≡ true =
        same.keys id ∙ contains-set_union ids id [] ∙ unfold contains in listed in
      (
        policy_of 1 signers,
        rw added (in_range 1 signers (omega arith) (length_positive id signers present)),
      )

  -- Where the check on a secret's approval passes, the policy of the secret can be projected.
  pub approval-returns :
      (id : Identifier) (chosen : Option Identifier)
      → distinct (map_keys plan.identities) ≡ true
      → All (λ entry. validate_approval plan entry ≡ ok tt) plan.approval_policies
      → check_approval plan id chosen ≡ ok tt
      → (policy : TargetApprovalPolicyV1) × (target_approval_policy plan chosen ≡ ok policy)
  unfolding check_approval
  approval-returns id none once valid h = default-returns once (ground arith)
  approval-returns id (some name) once valid h =
      let (declared, found) = contains_key-get name plan.approval_policies (ground arith) in
      let checked =
        All-HasEntry (λ (entry : Identifier × ApprovalPolicy). validate_approval plan entry ≡ ok tt)
          plan.approval_policies valid (get-HasEntry name plan.approval_policies found) in
      let (policy, returned, _, _) =
        target_approval_policy-returns plan name declared checked found in
      (policy, returned)
