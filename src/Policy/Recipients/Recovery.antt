-- ===== src/Policy/Recipients/Recovery.antt =====
-- `secret_recipients` of crates/nix-seal-policy/src/lib.rs as a whole, with the recovery identities.
use nix_seal.Prelude.{
  ◌≡◌, sym, inl, inr, Bool, true, false, Option, some, [], ◌∷◌, arith, ok, fold_each-rule,
  >>=-eq-ok, >>-eq-ok, ok_injective, fail_if, fail_if-eq-ok, Bool-cases, Option-cases, subst,
  is_empty, if◌then◌else◌,
}
use nix_seal.Prelude.Text.{Text, text_ord}
use nix_seal.Prelude.Collections.{
  BTreeMap, HasEntry, map_get, map_insert, contains_key, contains_key-map_insert,
}
use nix_seal.Libraries.{Libraries}
use nix_seal.Core.Id.{Identifier}
use nix_seal.Core.Plan.{PlanV2, Secret, Identity}
use nix_seal.Policy.Selectors.{selected_consumer_targets}
use nix_seal.Policy.Approval.{is_recovery}
use nix_seal.Policy.Secrets.{is_direct}
use nix_seal.Policy.Validate.{validate}
use nix_seal.Policy.Recipients.{
  SecretRecipientsV1, administrator_ids, add_administrator, add_administrators, add_recovery,
  add_target, add_targets, add_consumers, secret_recipients, plan_hash,
}
use nix_seal.Policy.Recipients.Sound.{
  IsRecipient, AllRecipients, add_administrator-AllRecipients, add_consumers-AllRecipients,
  add_recovery-AllRecipients,
}

module _ (plan : PlanV2) where
  abbrev pub Has : Identifier → BTreeMap Identifier Text → Type 0
  Has id m = contains_key id m ≡ true

  -- Every recovery identity of the plan is there.
  abbrev AllRecovered : BTreeMap Identifier Text → Type 0
  AllRecovered m =
      (id : Identifier) (identity : Identity)
      → HasEntry id identity plan.identities
      → is_recovery identity.kind ≡ true
      → contains_key id m ≡ true

  pub kept-insert :
      (id j : Identifier) (key : Text) (m : BTreeMap Identifier Text)
      → Has id m
      → Has id (map_insert j key m)
  kept-insert id j key m h = ground (arith, contains_key-map_insert j id key m)

  pub kept-recovery :
      (id : Identifier) (identities : BTreeMap Identifier Identity) (m : BTreeMap Identifier Text)
      → Has id m
      → Has id (add_recovery plan m identities)
  unfolding add_recovery
  kept-recovery id [] m h = h
  kept-recovery id ((j, identity) ∷ rest) m h =
      kept-recovery id rest _ (ground (arith, kept-insert id j identity.public m))

  recovery-Has :
      (id : Identifier) (identity : Identity) (identities : BTreeMap Identifier Identity)
      (m : BTreeMap Identifier Text)
      → HasEntry id identity identities
      → is_recovery identity.kind ≡ true
      → Has id (add_recovery plan m identities)
  unfolding add_recovery
  recovery-Has id identity [] m e r = absurd e
  recovery-Has id identity ((j, i) ∷ rest) m (inr there) r = recovery-Has id identity rest _ there r
  recovery-Has id identity ((j, i) ∷ rest) m (inl (same_id, same)) r =
      kept-recovery id rest _ (
        here (is_recovery i.kind)
          (subst (λ (x : Identity). is_recovery x.kind ≡ true) (sym same) r))
    where
      here : (b : Bool) → b ≡ true → Has id (if b then map_insert j i.public m else m)
      here true e =
          ground
            (arith, contains_key-map_insert j id i.public m, text_ord.eq_test_iff j id, same_id)
      here false e = cc

  pub kept-target :
      (id : Identifier) (m : BTreeMap Identifier Text) (target_id : Identifier)
      (result : BTreeMap Identifier Text)
      → Has id m
      → add_target plan m target_id ≡ ok result
      → Has id result
  unfolding add_target
  kept-target id m target_id result h e = elim (Option-cases (map_get target_id plan.targets)) [
    | inl gone ↦ let e1 = rw gone at e in absurd (cc)
    | inr (target, found) ↦
        let e1 = rw found at e in
        elim (Option-cases (map_get target.identity plan.identities)) [
          | inl gone ↦ let e2 = rw gone at e1 in absurd (cc)
          | inr (identity, named) ↦
              let e2 = rw named at e1 in
              subst (Has id) (ok_injective e2) (kept-insert id target.identity identity.public m h)
        ]
  ]

  pub kept-consumers :
      (id : Identifier) (m : BTreeMap Identifier Text) (secret : Secret)
      (result : BTreeMap Identifier Text)
      → Has id m
      → add_consumers plan m secret ≡ ok result
      → Has id result
  unfolding add_consumers add_targets
  kept-consumers id m secret result h e = elim (Bool-cases (is_direct secret.delivery)) [
    | inr kept ↦ subst (Has id) (ok_injective (rw kept at e)) h
    | inl is_sent ↦
        let (targets, chosen, added) =
          >>=-eq-ok (selected_consumer_targets plan secret) _ (rw is_sent at e) in
        fold_each-rule (Has id) (add_target plan) targets (λ s x t. kept-target id s x t) h added
  ]

-- The recipients of a secret, once they are returned, are not none. Each is an administrator or a
-- recovery identity of the plan, or, for direct delivery alone, the identity of a target that the
-- secret is for; its key is the one that the plan declares. Every recovery identity of the plan is
-- among them.
pub secret_recipients_sound :
    (lib : Libraries) (plan_jcs : PlanV2 → Option Text) (plan : PlanV2) (secret_id : Identifier)
    (secret : Secret) (result : SecretRecipientsV1)
    → map_get secret_id plan.secrets ≡ some secret
    → secret_recipients lib plan_jcs plan secret_id ≡ ok result
    → (is_empty result.recipients ≡ false)
      × ((id : Identifier) (key : Text)
          → map_get id result.recipients ≡ some key
          → IsRecipient plan secret id key)
      × ((id : Identifier) (identity : Identity)
          → HasEntry id identity plan.identities
          → is_recovery identity.kind ≡ true
          → contains_key id result.recipients ≡ true)
unfolding secret_recipients add_administrators map_get
secret_recipients_sound lib plan_jcs plan secret_id secret result declared h =
    let (valid, h1) = >>-eq-ok (validate lib plan) _ h in
    let (ids, chosen, h2) = >>=-eq-ok (administrator_ids plan secret) _ (rw declared at h1) in
    let (admins, added, h3) = >>=-eq-ok (add_administrators plan [] ids) _ h2 in
    let (all_of, finished, h4) =
      >>=-eq-ok (add_consumers plan (add_recovery plan admins plan.identities) secret) _ h3 in
    let (tested, h5) = >>-eq-ok (fail_if (is_empty all_of) _) _ h4 in
    let (hash, hashed, h6) = >>=-eq-ok (plan_hash lib plan_jcs plan) _ h5 in
    let e = ok_injective h6 in
    let first =
      fold_each-rule (AllRecipients plan secret) (add_administrator plan) ids
        (λ s x t. add_administrator-AllRecipients plan secret s x t) {s = []}
        (λ id key nothing. absurd (cc)) added in
    let every =
      add_consumers-AllRecipients plan secret (add_recovery plan admins plan.identities) all_of
        (add_recovery-AllRecipients plan secret plan.identities admins (λ id i m. m) first)
        finished in
    let recovered =
      λ (id : Identifier) (i : Identity) (m : HasEntry id i plan.identities)
          (r : is_recovery i.kind ≡ true).
        kept-consumers plan id (add_recovery plan admins plan.identities) secret all_of
          (recovery-Has plan id i plan.identities admins m r) finished in
    (
      subst (λ (q : SecretRecipientsV1). is_empty q.recipients ≡ false) e
          (fail_if-eq-ok (is_empty all_of) _ tested),
      subst (λ (q : SecretRecipientsV1). AllRecipients plan secret q.recipients) e every,
      subst (λ (q : SecretRecipientsV1). AllRecovered plan q.recipients) e recovered,
    )
