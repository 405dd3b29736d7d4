-- ===== src/Policy/Approval/Declared.antt =====
-- `validate_approval` and `target_approval_policy` of crates/nix-seal-policy/src/lib.rs on one declared
-- policy.
use nix_seal.Prelude.{
  ℕ, ◌≤◌, ◌≡◌, refl, ◌∙◌, inl, inr, true, ◌||◌, ◌==◌, ltb, some, List, [], ◌∷◌, length, arith, ok,
  All, >>-eq-ok, for_each-All, Option-cases, fail_if, ◌>>◌,
}
use nix_seal.Prelude.Text.{Text, text_ord}
use nix_seal.Prelude.Collections.{
  BTreeMap, contains, set_insert, set_union, to_set, contains_key, map_get, map_insert,
  contains-set_insert, contains_key-map_insert, length-set_insert, length-map_insert,
  contains-to_set, All-of_contains, contains-of_All,
}
use nix_seal.Core.Id.{Identifier}
use nix_seal.Core.Plan.{PlanV2, ApprovalPolicy}
use nix_seal.Policy.Error.{violation, impossible_threshold, approval_threshold}
use nix_seal.Policy.Approval.{
  TargetApprovalPolicyV1, is_some_signer, add_signer, add_signers, check_signer, validate_approval,
  target_approval_policy, approval_choice,
}

-- A map and a set with the same keys, and as many of them.
pub record SameKeys (m : BTreeMap Identifier Text) (s : List Identifier) : Type 0 where
  pub keys : (id : Identifier) → contains_key id m ≡ contains id s
  pub size : length m ≡ length s

SameKeys-insert :
    (m : BTreeMap Identifier Text) (s : List Identifier) (id : Identifier) (value : Text)
    → SameKeys m s
    → SameKeys (map_insert id value m) (set_insert id s)
SameKeys-insert m s id value h = record {
  keys = λ j.
      ground (arith, contains_key-map_insert id j value m, contains-set_insert id j s, h.keys j);
  size = ground (arith, length-map_insert id value m, length-set_insert id s, h.keys id, h.size);
}

abbrev pub policy_of : ℕ → BTreeMap Identifier Text → TargetApprovalPolicyV1
policy_of threshold signers = record { threshold = threshold; signers = signers }

-- The test on a threshold in range.
pub in_range :
    (threshold : ℕ) (signers : BTreeMap Identifier Text)
    → 1 ≤ threshold
    → threshold ≤ length signers
    → (fail_if (threshold == 0 || ltb (length signers) threshold) (violation impossible_threshold)
        >> ok (policy_of threshold signers))
      ≡ ok (policy_of threshold signers)
in_range threshold signers p q = ground arith

module _ (plan : PlanV2) where
  abbrev pub IsSigner : Identifier → Type 0
  IsSigner id = is_some_signer (map_get id plan.identities) ≡ true

  add_signer-returns :
      (m : BTreeMap Identifier Text) (id : Identifier)
      → IsSigner id
      → (value : Text) × (add_signer plan m id ≡ ok (map_insert id value m))
  unfolding add_signer
  add_signer-returns m id h = elim (Option-cases (map_get id plan.identities)) [
    | inl gone ↦ let e = rw gone at h in absurd (cc)
    | inr (identity, found) ↦ let e = rw found at h in (identity.public, rw (found, e) refl)
  ]

  pub add_signers-returns :
      (ids : List Identifier) (m : BTreeMap Identifier Text) (s : List Identifier)
      → All IsSigner ids
      → SameKeys m s
      → (result : BTreeMap Identifier Text) × (add_signers plan m ids ≡ ok result)
        × SameKeys result (set_union s ids)
  unfolding add_signers set_union
  add_signers-returns [] m s h same = (m, refl, same)
  add_signers-returns (id ∷ ids) m s h same =
      let (value, now) = add_signer-returns m id h.0 in
      let (result, later, keys) =
        add_signers-returns ids (map_insert id value m) (set_insert id s) h.1
          (SameKeys-insert m s id value same) in
      (result, rw now later, keys)

  check_signer-IsSigner :
      (id signer_id : Identifier) → check_signer plan id signer_id ≡ ok tt → IsSigner signer_id
  unfolding check_signer
  check_signer-IsSigner id signer_id h = ground arith

  accepted_signers :
      (id : Identifier) (policy : ApprovalPolicy)
      → validate_approval plan (id, policy) ≡ ok tt
      → All IsSigner policy.signers
        × (1 ≤ policy.threshold)
        × (policy.threshold ≤ length (to_set policy.signers))
  unfolding validate_approval
  accepted_signers id policy h =
      let (bounds, each) =
        >>-eq-ok
          (fail_if (policy.threshold == 0 || ltb (length (to_set policy.signers)) policy.threshold)
            (violation (approval_threshold id)))
          _ h in
      let checked = for_each-All (check_signer plan id) (to_set policy.signers) each in
      (
        All-of_contains policy.signers (λ x m. check_signer-IsSigner id x (
            contains-of_All (λ y. check_signer plan id y ≡ ok tt) (to_set policy.signers) checked x
              (contains-to_set policy.signers x ∙ m))),
        ground arith,
        ground arith,
      )

-- A declared policy that passes its check can be given to any target: the projection returns, with
-- the declared threshold and one key for each distinct declared signer.
pub target_approval_policy-returns :
    (plan : PlanV2) (id : Identifier) (declared : ApprovalPolicy)
    → validate_approval plan (id, declared) ≡ ok tt
    → map_get id plan.approval_policies ≡ some declared
    → (policy : TargetApprovalPolicyV1) × (target_approval_policy plan (some id) ≡ ok policy)
      × (policy.threshold ≡ declared.threshold)
      × (length policy.signers ≡ length (to_set declared.signers))
unfolding target_approval_policy approval_choice to_set
target_approval_policy-returns plan id declared valid found =
    let (signers_ok, positive, enough) = accepted_signers plan id declared valid in
    let (signers, added, same) =
      add_signers-returns plan declared.signers [] [] signers_ok
        (record { keys = λ j. unfold contains_key contains in refl; size = refl }) in
    (
      record { threshold = declared.threshold; signers = signers },
      rw (found, added) (in_range declared.threshold signers positive (omega (arith, same.size))),
      refl,
      same.size,
    )
