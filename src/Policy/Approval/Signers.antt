-- ===== src/Policy/Approval/Signers.antt =====
-- The threshold and the signers that `target_approval_policy` of crates/nix-seal-policy/src/lib.rs
-- gives a target.
use nix_seal.Prelude.{
  ℕ, ◌≤◌, ◌≡◌, inl, inr, true, ◌||◌, ◌==◌, ltb, Option, some, List, [], length, arith, ok,
  >>=-eq-ok, fold_each-rule, Bool-cases, Option-cases, subst, fail_if, ◌>>◌,
}
use nix_seal.Prelude.Text.{Text, text_ord}
use nix_seal.Prelude.Collections.{BTreeMap, map_get, map_insert, get-map_insert}
use nix_seal.Core.Id.{Identifier}
use nix_seal.Core.Plan.{PlanV2, Identity}
use nix_seal.Policy.Error.{violation, impossible_threshold}
use nix_seal.Policy.Approval.{
  TargetApprovalPolicyV1, is_signer, add_signer, add_signers, approval_choice,
  target_approval_policy,
}

-- A key that stands among the signers is the public value of a signing identity of the plan.
pub record IsSignerKey (plan : PlanV2) (id : Identifier) (key : Text) : Type 0 where
  pub identity : Identity
  pub declared : map_get id plan.identities ≡ some identity
  pub signs : is_signer identity.kind ≡ true
  pub public : key ≡ identity.public

module _ (plan : PlanV2) where
  abbrev pub AllSigners : BTreeMap Identifier Text → Type 0
  AllSigners signers =
      (id : Identifier) (key : Text) → map_get id signers ≡ some key → IsSignerKey plan id key

  pub add_signer-eq-ok :
      (signers : BTreeMap Identifier Text) (signer_id : Identifier)
      (result : BTreeMap Identifier Text)
      → add_signer plan signers signer_id ≡ ok result
      → (identity : Identity) × (map_get signer_id plan.identities ≡ some identity)
        × (is_signer identity.kind ≡ true)
        × (result ≡ map_insert signer_id identity.public signers)
  unfolding add_signer
  add_signer-eq-ok signers signer_id result h =
      elim (Option-cases (map_get signer_id plan.identities)) [
        | inl gone ↦ let e = rw gone at h in absurd (cc)
        | inr (identity, found) ↦
            let e = rw found at h in (identity, found, ground arith, ground arith)
      ]

  add_signer-AllSigners :
      (signers : BTreeMap Identifier Text) (signer_id : Identifier)
      (result : BTreeMap Identifier Text)
      → AllSigners signers
      → add_signer plan signers signer_id ≡ ok result
      → AllSigners result
  add_signer-AllSigners signers signer_id result h e id key get =
      let (identity, found, signs, same) = add_signer-eq-ok signers signer_id result e in
      let inserted = get-map_insert signer_id id identity.public signers in
      elim (Bool-cases (text_ord.eq_test signer_id id)) [
        | inl here ↦
            let at_id = (text_ord.eq_test_iff signer_id id).0 here in
            record { identity = identity; declared = cc; signs = signs; public = ground arith }
        | inr other ↦ h id key (ground arith)
      ]

  add_signers-AllSigners :
      (ids : List Identifier) (result : BTreeMap Identifier Text)
      → add_signers plan [] ids ≡ ok result
      → AllSigners result
  unfolding add_signers map_get
  add_signers-AllSigners ids result h =
      fold_each-rule AllSigners (add_signer plan) ids (λ s x t. add_signer-AllSigners s x t)
        (λ id key get. cc) h

-- The test on the threshold, passed.
threshold_met :
    (threshold : ℕ) (signers : BTreeMap Identifier Text) (policy : TargetApprovalPolicyV1)
    → (fail_if (threshold == 0 || ltb (length signers) threshold) (violation impossible_threshold)
        >> ok (record { threshold = threshold; signers = signers }))
      ≡ ok policy
    → (1 ≤ policy.threshold)
      × (policy.threshold ≤ length policy.signers)
      × (signers ≡ policy.signers)
threshold_met threshold signers policy h = ground arith

-- An approval policy that a target is given has a threshold of at least one and of no more than the
-- number of its signers, and each signer's key is that of a signing identity of the plan.
pub target_approval_policy_sound :
    (plan : PlanV2) (policy_id : Option Identifier) (policy : TargetApprovalPolicyV1)
    → target_approval_policy plan policy_id ≡ ok policy
    → (1 ≤ policy.threshold)
      × (policy.threshold ≤ length policy.signers)
      × AllSigners plan policy.signers
unfolding target_approval_policy
target_approval_policy_sound plan policy_id policy h =
    let ((threshold, ids), chosen, rest) = >>=-eq-ok (approval_choice plan policy_id) _ h in
    let (signers, added, checked) = >>=-eq-ok (add_signers plan [] ids) _ rest in
    let (positive, enough, same) = threshold_met threshold signers policy checked in
    (positive, enough, subst (AllSigners plan) same (add_signers-AllSigners plan ids signers added))
