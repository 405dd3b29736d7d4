-- ===== src/Policy/Validate/Signing.antt =====
-- The loop of `validate` of crates/nix-seal-policy/src/lib.rs over the signing keys, and the keys of the
-- signers that a target is given.
use nix_seal.Prelude.{
  ◌≡◌, sym, inl, inr, true, false, Option, none, some, [], any, arith, ltb, ok, fail_if, for_each,
  fold_each, >>=-eq-ok, >>-eq-ok, Bool-cases, Option-cases, subst, ok_injective,
}
use nix_seal.Prelude.Text.{Text, text_ord}
use nix_seal.Prelude.Collections.{
  BTreeMap, HasEntry, get-HasEntry, map_values, map_get, map_insert, contains_key, contains_key-get,
  contains_key-map_insert,
}
use nix_seal.Libraries.{Libraries}
use nix_seal.Core.Id.{Identifier}
use nix_seal.Core.Plan.{PlanV2, Identity}
use nix_seal.Keys.Approval.{public_key_id}
use nix_seal.Policy.Merge.{ensure_schema}
use nix_seal.Policy.Claims.{claims-distinct}
use nix_seal.Policy.Groups.{validate_group_graph}
use nix_seal.Policy.Approval.{
  TargetApprovalPolicyV1, is_signer, is_signing_kind, target_approval_policy,
}
use nix_seal.Policy.Approval.Signers.{target_approval_policy_sound}
use nix_seal.Policy.Validate.{
  collection_sizes, validate_authorization_namespace, bad_public, check_identity, key_or_violation,
  claim_key, validate,
}

module _ (lib : Libraries) where
  -- An identity of the list that signs with the key of that identifier.
  pub record SignsWith (key : Text) (identity : Identity) : Type 0 where
    pub signs : is_signing_kind identity.kind ≡ true
    pub with_key : public_key_id lib identity.public ≡ ok key

  absent_of_none :
      (key : Text) (keys : BTreeMap Text Identifier)
      → map_get key keys ≡ none
      → contains_key key keys ≡ false
  absent_of_none key keys h = elim (Bool-cases (contains_key key keys)) [
    | inr absent ↦ absent
    | inl present ↦ let (id, found) = contains_key-get key keys present in absurd (cc)
  ]

  claim_key-fresh :
      (keys result : BTreeMap Text Identifier) (id : Identifier) (identity : Identity) (key : Text)
      → SignsWith key identity
      → claim_key lib keys (id, identity) ≡ ok result
      → (contains_key key keys ≡ false) × (result ≡ map_insert key id keys)
  unfolding claim_key
  claim_key-fresh keys result id identity key s h =
      let (own, found, h1) =
        >>=-eq-ok (key_or_violation lib id (public_key_id lib identity.public)) _
          (rw s.signs at h) in
      let same : key ≡ own = ok_injective (rw s.with_key at found) in
      elim (Option-cases (map_get own keys)) [
        | inl free ↦
            let h2 = ok_injective (rw free at h1) in
            subst (λ k. (contains_key k keys ≡ false) × (result ≡ map_insert k id keys)) (sym same)
              (absent_of_none own keys free, sym h2)
        | inr (previous, taken) ↦ let h2 = rw taken at h1 in absurd (cc)
      ]

  -- A round only adds keys.
  claim_key-keeps :
      (keys result : BTreeMap Text Identifier) (entry : Identifier × Identity) (key : Text)
      → claim_key lib keys entry ≡ ok result
      → contains_key key result ≡ false
      → contains_key key keys ≡ false
  unfolding claim_key
  claim_key-keeps keys result (id, identity) key h gone =
      elim (Bool-cases (is_signing_kind identity.kind)) [
        | inr other ↦
            subst (λ m. contains_key key m ≡ false) (sym (ok_injective (rw other at h))) gone
        | inl signs ↦
            let (own, found, h1) =
              >>=-eq-ok (key_or_violation lib id (public_key_id lib identity.public)) _
                (rw signs at h) in
            elim (Option-cases (map_get own keys)) [
              | inr (previous, taken) ↦ let h2 = rw taken at h1 in absurd (cc)
              | inl free ↦
                  let same = ok_injective (rw free at h1) in
                  ground (arith, contains_key-map_insert own key id keys, same)
            ]
      ]

  claim_key-taken :
      (keys result : BTreeMap Text Identifier) (id : Identifier) (identity : Identity) (key : Text)
      → SignsWith key identity
      → claim_key lib keys (id, identity) ≡ ok result
      → (contains_key key keys ≡ false) × (contains_key key result ≡ true)
  claim_key-taken keys result id identity key s h =
      let (free, inserted) = claim_key-fresh keys result id identity key s h in
      (
        free,
        ground (
          arith,
          inserted,
          contains_key-map_insert key key id keys,
          text_ord.eq_test_iff key key,
        ),
      )

  -- Of a valid plan, two identities that sign with one key are one identity.
  pub validate-SignsWith :
      (plan : PlanV2) (id other : Identifier) (identity another : Identity) (key : Text)
      → validate lib plan ≡ ok tt
      → HasEntry id identity plan.identities
      → HasEntry other another plan.identities
      → SignsWith key identity
      → SignsWith key another
      → id ≡ other
  unfolding validate
  validate-SignsWith plan id other identity another key valid a b s t =
      let (_, h1) = >>-eq-ok (ensure_schema plan) _ valid in
      let (_, h2) =
        >>-eq-ok (fail_if (any (λ count. ltb 10000 count) (collection_sizes plan)) _) _ h1 in
      let (_, h3) = >>-eq-ok (validate_authorization_namespace plan) _ h2 in
      let (_, h4) = >>-eq-ok (validate_group_graph plan) _ h3 in
      let (_, h5) = >>-eq-ok (fail_if (any bad_public (map_values plan.identities)) _) _ h4 in
      let (_, h6) = >>-eq-ok (for_each (check_identity lib) plan.identities) _ h5 in
      let (keys, claimed, _) = >>=-eq-ok (fold_each (claim_key lib) [] plan.identities) _ h6 in
      claims-distinct (claim_key lib) contains_key SignsWith claim_key-taken
        (λ s t j i k. claim_key-keeps s t (j, i) k) plan.identities [] keys id other identity
        another key claimed a b s t

-- In a valid plan, the signers of an approval policy that a target is given have different keys: two
-- of them whose public values have one key identifier are one signer, so that a threshold of signers
-- is one of distinct keys.
pub target_approval_policy-SignsWith :
    (lib : Libraries) (plan : PlanV2) (policy_id : Option Identifier)
    (policy : TargetApprovalPolicyV1) (id other : Identifier) (public another key : Text)
    → validate lib plan ≡ ok tt
    → target_approval_policy plan policy_id ≡ ok policy
    → map_get id policy.signers ≡ some public
    → map_get other policy.signers ≡ some another
    → public_key_id lib public ≡ ok key
    → public_key_id lib another ≡ ok key
    → id ≡ other
target_approval_policy-SignsWith lib plan policy_id policy id other public another key valid given a
      b s t =
    let (_, _, signers) = target_approval_policy_sound plan policy_id policy given in
    let x = signers id public a in
    let y = signers other another b in
    validate-SignsWith lib plan id other x.identity y.identity key valid
      (get-HasEntry id plan.identities x.declared) (get-HasEntry other plan.identities y.declared)
      (record {
        signs = signing x.identity x.signs;
        with_key = subst (λ p. public_key_id lib p ≡ ok key) x.public s;
      })
      (record {
        signs = signing y.identity y.signs;
        with_key = subst (λ p. public_key_id lib p ≡ ok key) y.public t;
      })
  where
    signing : (i : Identity) → is_signer i.kind ≡ true → is_signing_kind i.kind ≡ true
    signing i h = ground arith
