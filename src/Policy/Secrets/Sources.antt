-- ===== src/Policy/Secrets/Sources.antt =====
-- The loop of `validate_secrets` of crates/nix-seal-policy/src/lib.rs over the ciphertext paths.
use nix_seal.Prelude.{
  ◌≡◌, refl, true, false, not, List, [], arith, ok, fail_if, for_each, fold_each, >>=-eq-ok,
  >>-eq-ok, fail_if-eq-ok, ok_injective, subst,
}
use nix_seal.Prelude.Text.{Text, text_ord}
use nix_seal.Prelude.Collections.{HasEntry, contains, set_insert, contains-set_insert}
use nix_seal.Libraries.{Libraries}
use nix_seal.Core.Id.{Identifier}
use nix_seal.Core.Plan.{PlanV2, Secret}
use nix_seal.Policy.Error.{runtime}
use nix_seal.Policy.Chars.{valid_repository_relative_path, is_sha256}
use nix_seal.Policy.Claims.{claims-distinct}
use nix_seal.Policy.Lifecycle.{validate_lifecycle}
use nix_seal.Policy.Secrets.{
  check_references, validate_runtime_settings, check_override, validate_secret, validate_secrets,
}

abbrev HasSource : Text → Secret → Type 0
HasSource source secret = secret.source ≡ source

module _ (lib : Libraries) (plan : PlanV2) where
  validate_secret-inserts :
      (sources result : List Text) (id : Identifier) (secret : Secret)
      → validate_secret plan lib sources (id, secret) ≡ ok result
      → (contains secret.source sources ≡ false) × (set_insert secret.source sources ≡ result)
  unfolding validate_secret
  validate_secret-inserts sources result id secret h =
      let (_, h1) = >>-eq-ok (fail_if (not (valid_repository_relative_path secret.source)) _) _ h in
      let (fresh, h2) = >>-eq-ok (fail_if (contains secret.source sources) _) _ h1 in
      let (_, h3) = >>-eq-ok (fail_if (not (is_sha256 secret.source_ciphertext_hash)) _) _ h2 in
      let (_, h4) = >>-eq-ok (check_references plan id secret) _ h3 in
      let (_, h5) = >>-eq-ok (validate_runtime_settings id runtime secret.runtime) _ h4 in
      let (_, h6) =
        >>-eq-ok (for_each (check_override plan id secret) secret.runtime_overrides) _ h5 in
      let (_, h7) = >>-eq-ok (validate_lifecycle lib id secret.lifecycle) _ h6 in
      (fail_if-eq-ok _ _ fresh, ok_injective h7)

  takes :
      (sources result : List Text) (id : Identifier) (secret : Secret) (source : Text)
      → HasSource source secret
      → validate_secret plan lib sources (id, secret) ≡ ok result
      → (contains source sources ≡ false) × (contains source result ≡ true)
  takes sources result id secret source here h =
      let (fresh, inserted) = validate_secret-inserts sources result id secret h in
      (
        subst (λ s. contains s sources ≡ false) here fresh,
        ground (
          arith,
          here,
          inserted,
          contains-set_insert secret.source source sources,
          text_ord.eq_test_iff secret.source source,
        ),
      )

  keeps :
      (sources result : List Text) (id : Identifier) (secret : Secret) (source : Text)
      → validate_secret plan lib sources (id, secret) ≡ ok result
      → contains source result ≡ false
      → contains source sources ≡ false
  keeps sources result id secret source h gone =
      let (_, inserted) = validate_secret-inserts sources result id secret h in
      ground (arith, inserted, contains-set_insert secret.source source sources)

-- Where the secrets of a plan pass their checks, no two of them share the path of their ciphertext.
pub validate_secrets-HasSource :
    (lib : Libraries) (plan : PlanV2) (id other : Identifier) (secret another : Secret)
    → validate_secrets plan lib ≡ ok tt
    → HasEntry id secret plan.secrets
    → HasEntry other another plan.secrets
    → secret.source ≡ another.source
    → id ≡ other
unfolding validate_secrets
validate_secrets-HasSource lib plan id other secret another h a b same =
    let (sources, looped, _) =
      >>=-eq-ok (fold_each (validate_secret plan lib) [] plan.secrets) _ h in
    claims-distinct (validate_secret plan lib) contains HasSource (takes lib plan) (keeps lib plan)
      plan.secrets [] sources id other secret another another.source looped a b same refl
