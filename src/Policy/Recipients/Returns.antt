-- ===== src/Policy/Recipients/Returns.antt =====
-- The steps of `secret_recipients` of crates/nix-seal-policy/src/lib.rs on a plan that is valid.
use nix_seal.Prelude.{
  ◌≡◌, refl, ◌⊎◌, inl, inr, Bool, true, false, not, ◌||◌, ◌&&◌, Option, some, List, [], ◌∷◌, All,
  All-map, arith, ok, Result, any-All, is_empty, fold_each, Bool-cases,
}
use nix_seal.Prelude.Text.{Text, codes, text_ord}
use nix_seal.Prelude.Collections.{
  BTreeMap, distinct, map_keys, map_get, map_insert, get-HasEntry, All-HasEntry, contains_key,
  contains_key-get, contains_key-map_insert,
}
use nix_seal.Libraries.{Libraries}
use nix_seal.Core.Id.{Identifier}
use nix_seal.Core.Plan.{PlanV2, Secret, Target, Identity}
use nix_seal.Policy.Error.{PolicyError}
use nix_seal.Policy.Secrets.References.{References, check_references-References}
use nix_seal.Policy.Secrets.{is_direct, lacks_recipients, check_references}
use nix_seal.Policy.Validate.{check_target, validate}
use nix_seal.Policy.Validate.Checks.{Checks, validate-Checks}
use nix_seal.Policy.Target.Returns.{identity_of_target}
use nix_seal.Policy.Recipients.{
  SecretRecipientsV1, secret_recipients_schema, add_administrator, add_administrators, add_recovery,
  add_target, add_targets, add_consumers, secret_recipients, plan_hash, domain_hash, canonical,
  canonical_json,
}
use nix_seal.Policy.Recipients.Administrators.{
  IsAdmin, add_administrator-returns, has_administrator, administrator_ids-returns,
}

nonempty_of_key :
    (id : Identifier) (m : BTreeMap Identifier Text) → contains_key id m ≡ true → is_empty m ≡ false
unfolding contains_key
nonempty_of_key id [] h = cc
nonempty_of_key id (entry ∷ m) h = refl

nonempty_of_insert :
    (id : Identifier) (key : Text) (m : BTreeMap Identifier Text)
    → is_empty (map_insert id key m) ≡ false
nonempty_of_insert id key m =
    nonempty_of_key id (map_insert id key m)
      (ground (arith, contains_key-map_insert id id key m, text_ord.eq_test_iff id id))

-- The steps of a loop that each insert something.
abbrev Inserts :
    (BTreeMap Identifier Text → Identifier → Result PolicyError (BTreeMap Identifier Text))
    → (Identifier → Type 0)
    → Type 0
Inserts f Q =
    (m : BTreeMap Identifier Text) (x : Identifier)
    → Q x
    → (k : Identifier) × (v : Text) × (f m x ≡ ok (map_insert k v m))

loop-Inserts :
    (f : BTreeMap Identifier Text → Identifier → Result PolicyError (BTreeMap Identifier Text))
    (Q : Identifier → Type 0)
    → Inserts f Q
    → (xs : List Identifier) (m : BTreeMap Identifier Text) → All Q xs
    → (result : BTreeMap Identifier Text) × (fold_each f m xs ≡ ok result)
      × ((is_empty m && is_empty xs) ≡ false → is_empty result ≡ false)
loop-Inserts f Q step [] m h = (m, refl, λ e. ground arith)
loop-Inserts f Q step (x ∷ xs) m h =
    let (k, v, now) = step m x h.0 in
    let (result, later, full) = loop-Inserts f Q step xs (map_insert k v m) h.1 in
    let some_entry = nonempty_of_insert k v m in
    (result, rw now later, λ e. full (rw some_entry refl))

module _ (plan : PlanV2) where
  add_target-returns :
      Checks plan
      → (m : BTreeMap Identifier Text) (id : Identifier) → contains_key id plan.targets ≡ true
      → (k : Identifier) × (key : Text) × (add_target plan m id ≡ ok (map_insert k key m))
  unfolding add_target
  add_target-returns checks m id h =
      let (target, declared) = contains_key-get id plan.targets h in
      let (identity, named) = identity_of_target plan id target (
        All-HasEntry (λ (e : Identifier × Target). check_target plan e ≡ ok tt) plan.targets
          checks.targets (get-HasEntry id plan.targets declared)) in
      (target.identity, identity.public, rw (declared, named) refl)

  add_recovery-nonempty :
      (identities : BTreeMap Identifier Identity) (m : BTreeMap Identifier Text)
      → is_empty m ≡ false
      → is_empty (add_recovery plan m identities) ≡ false
  unfolding add_recovery
  add_recovery-nonempty [] m h = h
  add_recovery-nonempty ((j, identity) ∷ rest) m h =
      add_recovery-nonempty rest _ (ground (arith, nonempty_of_insert j identity.public m))

  add_consumers-returns :
      (id : Identifier) (secret : Secret)
      → Checks plan
      → (refs : References plan id secret) (m : BTreeMap Identifier Text)
      → (result : BTreeMap Identifier Text) × (add_consumers plan m secret ≡ ok result)
        × ((is_empty m && not (is_direct secret.delivery && not (is_empty refs.targets))) ≡ false
            → is_empty result ≡ false)
  unfolding add_consumers add_targets
  add_consumers-returns id secret checks refs m = elim (Bool-cases (is_direct secret.delivery)) [
    | inr kept ↦ (m, rw kept refl, λ e. ground arith)
    | inl is_sent ↦
        let (result, added, full) =
          loop-Inserts (add_target plan) (λ x. contains_key x plan.targets ≡ true)
            (add_target-returns checks) refs.targets m
            (All-map (λ x n. ground arith) refs.targets (any-All _ refs.targets refs.declared)) in
        (result, rw (is_sent, refs.selected) added, λ e. full (ground arith))
  ]

-- Of the two tests of `lacks_recipients`, one is passed.
enough-cases :
    (sent admin nobody : Bool)
    → (not sent && not admin || sent && not admin && nobody) ≡ false
    → (admin ≡ true) ⊎ ((sent ≡ true) × (nobody ≡ false))
enough-cases sent true nobody h = inl refl
enough-cases true false nobody h = inr (refl, h)
enough-cases false false nobody h = absurd (cc)

-- A plan that is valid has recipients for each of its secrets: no step of the derivation fails, given
-- that the identities have distinct keys and that the plan can be written as canonical JSON.
pub secret_recipients-returns :
    (lib : Libraries) (plan_jcs : PlanV2 → Option Text) (plan : PlanV2) (secret_id : Identifier)
    (secret : Secret) (bytes : Text)
    → validate lib plan ≡ ok tt
    → distinct (map_keys plan.identities) ≡ true
    → map_get secret_id plan.secrets ≡ some secret
    → plan_jcs plan ≡ some bytes
    → (result : SecretRecipientsV1) × (secret_recipients lib plan_jcs plan secret_id ≡ ok result)
unfolding secret_recipients add_administrators plan_hash canonical_json canonical lacks_recipients
secret_recipients-returns lib plan_jcs plan secret_id secret bytes valid once declared written =
    let checks = validate-Checks lib plan valid in
    let refs = check_references-References plan secret_id secret (
      All-HasEntry (λ (e : Identifier × Secret). check_references plan e.0 e.1 ≡ ok tt) plan.secrets
        checks.secrets (get-HasEntry secret_id plan.secrets declared)) in
    let (ids, chosen, admins, some_admin) =
      administrator_ids-returns plan secret_id secret once refs in
    let (first, added, full) =
      loop-Inserts (add_administrator plan) (IsAdmin plan) (add_administrator-returns plan) ids []
        admins in
    let recovered = add_recovery plan first plan.identities in
    let (every, sent, kept) = add_consumers-returns plan secret_id secret checks refs recovered in
    let not_empty : is_empty every ≡ false =
      elim (enough-cases (is_direct secret.delivery)
        (has_administrator plan secret refs.administrators) (is_empty refs.targets) refs.enough) [
          | inl admin ↦
              let start =
                add_recovery-nonempty plan plan.identities first (full (some_admin admin)) in
              kept (rw start refl)
          | inr (direct, consumers) ↦ kept (both_false (is_empty recovered) _ _ direct consumers)
        ] in
    (
      record {
        schema = secret_recipients_schema;
        plan_hash = domain_hash lib (codes "nix-seal plan hash v1") bytes;
        secret_id = secret_id;
        delivery = secret.delivery;
        recipients = every;
      },
      rw (valid, declared, chosen, added, sent, not_empty, written) refl,
    )
  where
    both_false : (e d n : Bool) → d ≡ true → n ≡ false → (e && not (d && not n)) ≡ false
    both_false e d n p q = ground arith
