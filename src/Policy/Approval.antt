-- ===== src/Policy/Approval.antt =====
-- crates/nix-seal-policy/src/lib.rs: approval policies, declared and as a target gets them.
pub mod Signers
pub mod Declared
pub mod Default
use nix_seal.Prelude.{
  ℕ, ◌==◌, ltb, Bool, true, false, ◌||◌, not, Option, none, some, List, [], ◌∷◌, length, any,
  Result, ok, err, ◌>>=◌, ◌>>◌, fail_if, ok_or, for_each, fold_each, if◌then◌else◌,
}
use nix_seal.Prelude.Text.{Text, text_ord}
use nix_seal.Prelude.Collections.{BTreeMap, to_set, contains_key, map_get, map_insert}
use nix_seal.Core.Id.{Identifier}
use nix_seal.Core.Plan.{
  PlanV2, ApprovalPolicy, Identity, IdentityKind, administrator, target, recovery, signer,
  authorizer, plugin,
}
use nix_seal.Policy.Error.{
  PolicyError, Checked, violation, policy_missing, missing_signer, not_a_signer,
  impossible_threshold, approval_threshold, approval_non_signer,
}

pub record TargetApprovalPolicyV1 : Type 0 where
  pub threshold : ℕ
  pub signers : BTreeMap Identifier Text

abbrev pub is_signer : IdentityKind → Bool
is_signer signer = true
is_signer _ = false

abbrev pub is_administrator : IdentityKind → Bool
is_administrator administrator = true
is_administrator recovery = true
is_administrator _ = false

abbrev pub is_recovery : IdentityKind → Bool
is_recovery recovery = true
is_recovery _ = false

abbrev pub is_target : IdentityKind → Bool
is_target target = true
is_target _ = false

-- The kinds whose public value is an age recipient; the other two hold a verification key.
abbrev pub is_age_kind : IdentityKind → Bool
is_age_kind administrator = true
is_age_kind target = true
is_age_kind recovery = true
is_age_kind plugin = true
is_age_kind _ = false

abbrev pub is_signing_kind : IdentityKind → Bool
is_signing_kind signer = true
is_signing_kind authorizer = true
is_signing_kind _ = false

-- The identifiers of the identities whose kind passes a test, in key order.
unfoldable pub ids_of_kind : (IdentityKind → Bool) → BTreeMap Identifier Identity → List Identifier
ids_of_kind test [] = []
ids_of_kind test ((id, identity) ∷ m) =
    let rest = ids_of_kind test m in if test identity.kind then id ∷ rest else rest

-- The arms of the `match` on the signer's identity.
abbrev pub is_some_signer : Option Identity → Bool
is_some_signer none = false
is_some_signer (some identity) = is_signer identity.kind

module _ (plan : PlanV2) where
  -- The threshold and the signers of the named policy, or one of all signers of the plan.
  unfoldable pub approval_choice : Option Identifier → Result PolicyError (ℕ × List Identifier)
  approval_choice (some policy_id) = do
    policy ← ok_or (map_get policy_id plan.approval_policies) (violation (policy_missing policy_id))
    ok (policy.threshold, policy.signers)
  approval_choice none = ok (1, ids_of_kind is_signer plan.identities)

  unfoldable pub add_signer :
      BTreeMap Identifier Text → Identifier → Result PolicyError (BTreeMap Identifier Text)
  add_signer signers signer_id = do
    identity ← ok_or (map_get signer_id plan.identities) (violation (missing_signer signer_id))
    fail_if (not (is_signer identity.kind)) (violation (not_a_signer signer_id))
    ok (map_insert signer_id identity.public signers)

  unfoldable pub add_signers :
      BTreeMap Identifier Text → List Identifier → Result PolicyError (BTreeMap Identifier Text)
  add_signers signers ids = fold_each add_signer signers ids

  unfoldable pub target_approval_policy :
      Option Identifier → Result PolicyError TargetApprovalPolicyV1
  target_approval_policy policy_id = do
    (threshold, signer_ids) ← approval_choice policy_id
    signers ← add_signers [] signer_ids
    fail_if (threshold == 0 || ltb (length signers) threshold) (violation impossible_threshold)
    ok (record { threshold = threshold; signers = signers })

  unfoldable pub check_signer : Identifier → Identifier → Checked
  check_signer id signer_id =
      fail_if (not (is_some_signer (map_get signer_id plan.identities)))
        (violation (approval_non_signer id signer_id))

  unfoldable pub validate_approval : Identifier × ApprovalPolicy → Checked
  validate_approval (id, policy) = do
    fail_if (policy.threshold == 0 || ltb (length (to_set policy.signers)) policy.threshold)
        (violation (approval_threshold id))
    for_each (check_signer id) (to_set policy.signers)
