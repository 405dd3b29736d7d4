-- ===== src/Policy/Recipients/Sound.antt =====
-- Who a canonical ciphertext is encrypted to.
use nix_seal.Prelude.{
  ◌≡◌, refl, ◌⊎◌, inl, inr, Bool, true, false, not, some, [], ◌∷◌, arith, ok, fold_each-rule_All,
  >>=-eq-ok, >>-eq-ok, ok_injective, ok_or-eq-ok, fail_if, Bool-cases, subst, if◌then◌else◌,
}
use nix_seal.Prelude.Text.{Text, text_ord}
use nix_seal.Prelude.Collections.{
  BTreeMap, HasEntry, map_get, map_insert, get-map_insert, get-HasEntry, All-of_contains,
}
use nix_seal.Core.Id.{Identifier}
use nix_seal.Core.Plan.{PlanV2, Secret, Identity, Target}
use nix_seal.Policy.Error.{PolicyError}
use nix_seal.Policy.Selectors.{selected_consumer_targets}
use nix_seal.Policy.Selectors.Selected.{Selected, selected_consumer_targets-Selected}
use nix_seal.Policy.Approval.{is_administrator, is_recovery}
use nix_seal.Policy.Secrets.{is_direct}
use nix_seal.Policy.Recipients.{
  add_administrator, add_recovery, add_target, add_targets, add_consumers,
}

-- A target of the plan that a secret is for, with the identity `id`.
pub record IsConsumerKey (plan : PlanV2) (secret : Secret) (id : Identifier) : Type 0 where
  pub target_id : Identifier
  pub target : Target
  pub declared : map_get target_id plan.targets ≡ some target
  pub identity : target.identity ≡ id
  pub selected : ∥ Selected plan secret target_id ∥₁
  pub direct : is_direct secret.delivery ≡ true

-- Why a key is among the recipients of a secret.
pub record IsRecipient (plan : PlanV2) (secret : Secret) (id : Identifier) (key : Text)
    : Type 0 where
  pub identity : Identity
  pub entry : HasEntry id identity plan.identities
  pub public : key ≡ identity.public
  pub allowed : (is_administrator identity.kind ≡ true) ⊎ IsConsumerKey plan secret id

module _ (plan : PlanV2) (secret : Secret) where
  abbrev pub AllRecipients : BTreeMap Identifier Text → Type 0
  AllRecipients m =
      (id : Identifier) (key : Text) → map_get id m ≡ some key → IsRecipient plan secret id key

  insert-AllRecipients :
      (m : BTreeMap Identifier Text) (id : Identifier) (key : Text)
      → AllRecipients m
      → IsRecipient plan secret id key
      → AllRecipients (map_insert id key m)
  insert-AllRecipients m id key h new j q get = elim (Bool-cases (text_ord.eq_test id j)) [
    | inl same ↦
        let here =
          subst (λ x. IsRecipient plan secret x key) ((text_ord.eq_test_iff id j).0 same) new in
        subst (IsRecipient plan secret j) (ground (arith, get-map_insert id j key m)) here
    | inr other ↦ h j q (ground (arith, get-map_insert id j key m))
  ]

  pub add_administrator-AllRecipients :
      (m : BTreeMap Identifier Text) (id : Identifier) (result : BTreeMap Identifier Text)
      → AllRecipients m
      → add_administrator plan m id ≡ ok result
      → AllRecipients result
  unfolding add_administrator
  add_administrator-AllRecipients m id result h e =
      let (identity, found, rest) = >>=-eq-ok _ _ e in
      let (tested, same) = >>-eq-ok (fail_if (not (is_administrator identity.kind)) _) _ rest in
      subst AllRecipients (ok_injective same) (
        insert-AllRecipients m id identity.public h (record {
          identity = identity;
          entry = get-HasEntry id plan.identities (ok_or-eq-ok _ _ found);
          public = refl;
          allowed = inl (holds (is_administrator identity.kind) _ tested);
        }))
    where
      holds : (b : Bool) (e : PolicyError) → fail_if (not b) e ≡ ok tt → b ≡ true
      holds b e t = ground arith

  add_target-AllRecipients :
      (m : BTreeMap Identifier Text) (target_id : Identifier) (result : BTreeMap Identifier Text)
      → is_direct secret.delivery ≡ true
      → ∥ Selected plan secret target_id ∥₁
      → AllRecipients m
      → add_target plan m target_id ≡ ok result
      → AllRecipients result
  unfolding add_target
  add_target-AllRecipients m target_id result is_sent selected h e =
      let (target, found, rest) = >>=-eq-ok _ _ e in
      let (identity, named, same) = >>=-eq-ok _ _ rest in
      subst AllRecipients (ok_injective same) (
        insert-AllRecipients m target.identity identity.public h (record {
          identity = identity;
          entry = get-HasEntry target.identity plan.identities (ok_or-eq-ok _ _ named);
          public = refl;
          allowed = inr (record {
            target_id = target_id;
            target = target;
            declared = ok_or-eq-ok _ _ found;
            identity = refl;
            selected = selected;
            direct = is_sent;
          });
        }))

  pub add_consumers-AllRecipients :
      (m result : BTreeMap Identifier Text)
      → AllRecipients m
      → add_consumers plan m secret ≡ ok result
      → AllRecipients result
  unfolding add_consumers add_targets
  add_consumers-AllRecipients m result h e = elim (Bool-cases (is_direct secret.delivery)) [
    | inr kept ↦ subst AllRecipients (ok_injective (rw kept at e)) h
    | inl is_sent ↦
        let (targets, chosen, added) =
          >>=-eq-ok (selected_consumer_targets plan secret) _ (rw is_sent at e) in
        fold_each-rule_All AllRecipients (λ x. ∥ Selected plan secret x ∥₁) (add_target plan)
          targets (λ s x t q p f. add_target-AllRecipients s x t is_sent q p f)
          (All-of_contains targets
            (λ x c. (selected_consumer_targets-Selected plan secret targets x chosen).0 c))
          h added
  ]

  -- The loop over all identities adds those for recovery, and only those.
  pub add_recovery-AllRecipients :
      (identities : BTreeMap Identifier Identity) (m : BTreeMap Identifier Text)
      → ((id : Identifier) (i : Identity)
          → HasEntry id i identities
          → HasEntry id i plan.identities)
      → AllRecipients m
      → AllRecipients (add_recovery plan m identities)
  unfolding add_recovery
  add_recovery-AllRecipients [] m within h = h
  add_recovery-AllRecipients ((id, identity) ∷ rest) m within h =
      add_recovery-AllRecipients rest _ (λ j i e. within j i (inr e))
        (step (is_recovery identity.kind) refl)
    where
      step :
          (b : Bool)
          → is_recovery identity.kind ≡ b
          → AllRecipients (if b then map_insert id identity.public m else m)
      step false e = h
      step true e = insert-AllRecipients m id identity.public h (record {
        identity = identity;
        entry = within id identity (inl (refl, refl));
        public = refl;
        allowed = inl (ground arith);
      })
