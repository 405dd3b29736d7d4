-- ===== src/Policy/Target/Privilege.antt =====
-- The secrets of the policy that `target_policy` of crates/nix-seal-policy/src/lib.rs gives a target.
use mathlib.Core.Bool.{false≢true}
use mathlib.Core.Logic.{⊎_elim}
use nix_seal.Prelude.{
  ◌≡◌, refl, ◌⊎◌, inl, inr, true, false, Option, some, [], ◌∷◌, arith, ok, fold_each, >>=-eq-ok,
  ok_injective, Bool-cases, subst, sym, ◌∙◌,
}
use nix_seal.Prelude.Text.{Text, text_ord}
use nix_seal.Prelude.Collections.{
  BTreeMap, HasEntry, map_get, map_insert, contains_key, get-map_insert, contains_key-map_insert,
}
use nix_seal.Libraries.{Libraries}
use nix_seal.Core.Id.{Identifier}
use nix_seal.Core.Plan.{PlanV2, Secret}
use nix_seal.Policy.Secrets.{target_is_consumer}
use nix_seal.Policy.Validate.{validate}
use nix_seal.Policy.Target.{
  TargetPolicyV1, TargetSecretPolicyV1, secret_policy, add_secret, target_secrets, target_policy,
}
use nix_seal.Policy.Target.Parts.{target_policy-Parts}

-- Where an entry of a target's policy comes from.
pub record IsGranted (plan : PlanV2) (target_id : Identifier) (secrets : BTreeMap Identifier Secret)
    (id : Identifier) (policy : TargetSecretPolicyV1) : Type 0 where
  pub secret : Secret
  pub entry : HasEntry id secret secrets
  pub consumer : target_is_consumer plan secret target_id ≡ true
  pub projected : secret_policy plan target_id secret ≡ ok policy

module _ (plan : PlanV2) (target_id : Identifier) where
  add_secret-cases :
      (acc : BTreeMap Identifier TargetSecretPolicyV1) (id : Identifier) (secret : Secret)
      (result : BTreeMap Identifier TargetSecretPolicyV1)
      → add_secret plan target_id acc (id, secret) ≡ ok result
      → ((target_is_consumer plan secret target_id ≡ false) × (acc ≡ result))
        ⊎ ((policy : TargetSecretPolicyV1) × (target_is_consumer plan secret target_id ≡ true)
            × (secret_policy plan target_id secret ≡ ok policy)
            × (map_insert id policy acc ≡ result))
  unfolding add_secret
  add_secret-cases acc id secret result h =
      elim (Bool-cases (target_is_consumer plan secret target_id)) [
        | inl consumer ↦
            let (policy, projected, e) =
              >>=-eq-ok (secret_policy plan target_id secret) _ (rw consumer at h) in
            inr (policy, consumer, projected, ok_injective e)
        | inr other ↦ inl (other, ok_injective (rw other at h))
      ]

  abbrev Secrets : Type 0
  Secrets = BTreeMap Identifier TargetSecretPolicyV1

  -- What the loop over some of the secrets does to what it started with.
  record Adds (acc : Secrets) (secrets : BTreeMap Identifier Secret) (result : Secrets)
      : Type 0 where
    granted :
        (id : Identifier) (policy : TargetSecretPolicyV1)
        → map_get id result ≡ some policy
        → (map_get id acc ≡ some policy) ⊎ IsGranted plan target_id secrets id policy
    kept : (id : Identifier) → contains_key id acc ≡ true → contains_key id result ≡ true
    full :
        (id : Identifier) (secret : Secret)
        → HasEntry id secret secrets
        → target_is_consumer plan secret target_id ≡ true
        → contains_key id result ≡ true

  weaken :
      (id j : Identifier) (secret : Secret) (rest : BTreeMap Identifier Secret)
      (policy : TargetSecretPolicyV1)
      → IsGranted plan target_id rest j policy
      → IsGranted plan target_id ((id, secret) ∷ rest) j policy
  weaken id j secret rest policy g = record {
    secret = g.secret;
    entry = inr g.entry;
    consumer = g.consumer;
    projected = g.projected;
  }

  module _ (acc : Secrets) (id : Identifier) (secret : Secret) (rest : BTreeMap Identifier Secret)
      (result : Secrets) where
    Adds-skip :
        target_is_consumer plan secret target_id ≡ false
        → Adds acc rest result
        → Adds acc ((id, secret) ∷ rest) result
    Adds-skip other tail = record {
      granted = λ j policy get.
          ⊎_elim inl (λ g. inr (weaken id j secret rest policy g)) (tail.granted j policy get);
      kept = tail.kept;
      full = λ j s entry consumer.
          ⊎_elim (λ (_, same). absurd (false≢true (sym other ∙ consumer_at same consumer)))
            (λ there. tail.full j s there consumer) entry;
    }
      where
        consumer_at :
            {s : Secret}
            → secret ≡ s
            → target_is_consumer plan s target_id ≡ true
            → target_is_consumer plan secret target_id ≡ true
        consumer_at same consumer = rw same consumer

    Adds-insert :
        (policy : TargetSecretPolicyV1)
        → target_is_consumer plan secret target_id ≡ true
        → secret_policy plan target_id secret ≡ ok policy
        → Adds (map_insert id policy acc) rest result
        → Adds acc ((id, secret) ∷ rest) result
    Adds-insert policy consumer projected tail = record {
      granted = λ j q get.
          ⊎_elim (inserted j q) (λ g. inr (weaken id j secret rest q g)) (tail.granted j q get);
      kept = λ j m. tail.kept j (ground (arith, contains_key-map_insert id j policy acc));
      full = λ j s entry c.
          ⊎_elim
            (λ (same, _).
              tail.kept j (
                ground (arith, contains_key-map_insert id j policy acc, text_ord.eq_test_iff id j)))
            (λ there. tail.full j s there c) entry;
    }
      where
        inserted :
            (j : Identifier) (q : TargetSecretPolicyV1)
            → map_get j (map_insert id policy acc) ≡ some q
            → (map_get j acc ≡ some q) ⊎ IsGranted plan target_id ((id, secret) ∷ rest) j q
        inserted j q get = elim (Bool-cases (text_ord.eq_test id j)) [
          | inl same ↦
              let e : policy ≡ q = ground (arith, get-map_insert id j policy acc) in
              inr (record {
                secret = secret;
                entry = inl ((text_ord.eq_test_iff id j).0 same, refl);
                consumer = consumer;
                projected = subst (λ r. secret_policy plan target_id secret ≡ ok r) e projected;
              })
          | inr apart ↦ inl (ground (arith, get-map_insert id j policy acc))
        ]

  loop-Adds :
      (secrets : BTreeMap Identifier Secret) (acc result : Secrets)
      → fold_each (add_secret plan target_id) acc secrets ≡ ok result
      → Adds acc secrets result
  loop-Adds [] acc result h =
      let e = ok_injective h in
      record {
        granted = λ id policy get. inl (subst (λ r. map_get id r ≡ some policy) (sym e) get);
        kept = λ id m. subst (λ r. contains_key id r ≡ true) e m;
        full = λ id secret entry. absurd entry;
      }
  loop-Adds ((id, secret) ∷ rest) acc result h =
      let (mid, now, later) = >>=-eq-ok (add_secret plan target_id acc (id, secret)) _ h in
      let tail = loop-Adds rest mid result later in
      elim (add_secret-cases acc id secret mid now) [
        | inl (other, e) ↦
            Adds-skip acc id secret rest result other (subst (λ a. Adds a rest result) (sym e) tail)
        | inr (policy, consumer, projected, e) ↦
            Adds-insert acc id secret rest result policy consumer projected
              (subst (λ a. Adds a rest result) (sym e) tail)
      ]

-- A target policy that is returned was projected from a plan that is valid. Each of its secrets is
-- the projection of a secret of the plan that the target is a consumer of, and every secret of the
-- plan that the target is a consumer of is there.
pub target_policy-least_privilege :
    (lib : Libraries) (plan_jcs : PlanV2 → Option Text) (plan : PlanV2) (target_id : Identifier)
    (policy : TargetPolicyV1)
    → target_policy lib plan_jcs plan target_id ≡ ok policy
    → (validate lib plan ≡ ok tt)
      × ((id : Identifier) (entry : TargetSecretPolicyV1)
          → map_get id policy.secrets ≡ some entry
          → IsGranted plan target_id plan.secrets id entry)
      × ((id : Identifier) (secret : Secret)
          → HasEntry id secret plan.secrets
          → target_is_consumer plan secret target_id ≡ true
          → contains_key id policy.secrets ≡ true)
unfolding target_secrets map_get
target_policy-least_privilege lib plan_jcs plan target_id policy h =
    let parts = target_policy-Parts lib plan_jcs plan target_id policy h in
    let adds = loop-Adds plan target_id plan.secrets [] policy.secrets parts.secrets in
    (
      parts.valid,
      λ id entry get. ⊎_elim (λ nothing. absurd (cc)) (λ g. g) (adds.granted id entry get),
      adds.full,
    )
