-- ===== src/Policy/Recipients.antt =====
-- crates/nix-seal-policy/src/lib.rs, `secret_recipients` and the hash of a plan. The canonical JSON
-- of serde_jcs is a parameter.
pub mod Sound
pub mod Recovery
pub mod Administrators
pub mod Returns
use nix_seal.Prelude.{
  ℕ, Bool, true, false, not, Option, none, some, List, [], ◌∷◌, is_empty, Result, ok, err, ◌>>=◌,
  ◌>>◌, fail_if, ok_or, fold_each, if◌then◌else◌,
}
use nix_seal.Prelude.Text.{Text, codes, text_ord}
use nix_seal.Prelude.Collections.{BTreeMap, to_set, map_get, map_insert}
use nix_seal.Libraries.{Libraries}
use nix_seal.Core.Id.{Identifier}
use nix_seal.Core.Plan.{PlanV2, Secret, Identity, DeliveryMode}
use nix_seal.Policy.Error.{
  PolicyError, violation, json, recipients_missing_secret, administrator_unresolved,
  administrator_kind, direct_consumer_unresolved, target_missing_identity, no_encryption_recipients,
}
use nix_seal.Policy.Groups.{expand_group_leaves}
use nix_seal.Policy.Selectors.{selected_consumer_targets}
use nix_seal.Policy.Approval.{is_administrator, is_recovery, ids_of_kind}
use nix_seal.Policy.Secrets.{is_direct}
use nix_seal.Policy.Validate.{validate}

abbrev pub secret_recipients_schema : Text
secret_recipients_schema = codes "nix-seal.secret-recipients.v1"

pub record SecretRecipientsV1 : Type 0 where
  pub schema : Text
  pub plan_hash : Text
  pub secret_id : Identifier
  pub delivery : DeliveryMode
  pub recipients : BTreeMap Identifier Text

-- `domain_hash`: a BLAKE3 hasher with a derived key.
unfoldable pub domain_hash : Libraries → Text → Text → Text
domain_hash lib context bytes = lib.blake3_derive_hex context bytes

-- `serde_jcs::to_vec(value)?`.
unfoldable pub canonical {ℓ} : {A : Type ℓ} → (A → Option Text) → A → Result PolicyError Text
canonical to_vec value = ok_or (to_vec value) json

module _ (plan : PlanV2) where
  -- The administrators of a secret: the declared ones, or all of the plan.
  unfoldable pub administrator_ids : Secret → Result PolicyError (List Identifier)
  administrator_ids secret =
      if is_empty secret.administrators
      then ok (to_set (ids_of_kind is_administrator plan.identities))
      else expand_group_leaves plan secret.administrators

  unfoldable pub add_administrator :
      BTreeMap Identifier Text → Identifier → Result PolicyError (BTreeMap Identifier Text)
  add_administrator recipients identity_id = do
    identity ←
        ok_or (map_get identity_id plan.identities)
          (violation (administrator_unresolved identity_id))
    fail_if (not (is_administrator identity.kind)) (violation (administrator_kind identity_id))
    ok (map_insert identity_id identity.public recipients)

  unfoldable pub add_administrators :
      BTreeMap Identifier Text → List Identifier → Result PolicyError (BTreeMap Identifier Text)
  add_administrators recipients ids = fold_each add_administrator recipients ids

  -- The loop over the identities that adds those for recovery.
  unfoldable pub add_recovery :
      BTreeMap Identifier Text → BTreeMap Identifier Identity → BTreeMap Identifier Text
  add_recovery recipients [] = recipients
  add_recovery recipients ((id, identity) ∷ m) =
      add_recovery
        (if is_recovery identity.kind then map_insert id identity.public recipients else recipients)
        m

  unfoldable pub add_target :
      BTreeMap Identifier Text → Identifier → Result PolicyError (BTreeMap Identifier Text)
  add_target recipients target_id = do
    target ←
        ok_or (map_get target_id plan.targets) (violation (direct_consumer_unresolved target_id))
    identity ←
        ok_or (map_get target.identity plan.identities)
          (violation (target_missing_identity target_id target.identity))
    ok (map_insert target.identity identity.public recipients)

  unfoldable pub add_targets :
      BTreeMap Identifier Text → List Identifier → Result PolicyError (BTreeMap Identifier Text)
  add_targets recipients ids = fold_each add_target recipients ids

  unfoldable pub add_consumers :
      BTreeMap Identifier Text → Secret → Result PolicyError (BTreeMap Identifier Text)
  add_consumers recipients secret =
      if is_direct secret.delivery
      then (do targets ← selected_consumer_targets plan secret; add_targets recipients targets)
      else ok recipients

module _ (lib : Libraries) (plan_jcs : PlanV2 → Option Text) where
  unfoldable pub canonical_json : PlanV2 → Result PolicyError Text
  canonical_json plan = canonical plan_jcs plan

  unfoldable pub plan_hash : PlanV2 → Result PolicyError Text
  plan_hash plan = do
    bytes ← canonical_json plan
    ok (domain_hash lib (codes "nix-seal plan hash v1") bytes)

  unfoldable pub secret_recipients : PlanV2 → Identifier → Result PolicyError SecretRecipientsV1
  secret_recipients plan secret_id = do
    validate lib plan
    secret ←
        ok_or (map_get secret_id plan.secrets) (violation (recipients_missing_secret secret_id))
    administrators ← administrator_ids plan secret
    declared ← add_administrators plan [] administrators
    recipients ← add_consumers plan (add_recovery plan declared plan.identities) secret
    fail_if (is_empty recipients) (violation (no_encryption_recipients secret_id))
    hash ← plan_hash plan
    ok (record {
      schema = secret_recipients_schema;
      plan_hash = hash;
      secret_id = secret_id;
      delivery = secret.delivery;
      recipients = recipients;
    })
