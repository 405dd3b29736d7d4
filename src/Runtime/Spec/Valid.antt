-- ===== src/Runtime/Spec/Valid.antt =====
-- crates/nix-seal-runtime/src/lib.rs, `ActivationSpecV2::validate`: what a valid activation is.
use nix_seal.Prelude.{
  suc, ◌+◌, ◌≤◌, ◌≡◌, sym, ap, ◌∙◌, subst, true, false, Option, some, none, List, [], ◌∷◌, ◌++◌,
  length, length-append, map, is_empty, any, any-All, All, All-map, is_err, arith, Result, ok, err,
  fail_if, fold_each, fold_each-All, >>=-eq-ok, >>-eq-ok, fail_if-eq-ok, ok_injective,
}
use nix_seal.Prelude.Text.{Text, text_ord}
use nix_seal.Prelude.Collections.{
  BTreeMap, contains, set_insert, set_union, to_set, distinct, length-set_insert_new,
  to_set-distinct, contains-to_set, set_union-append,
}
use nix_seal.Core.Id.{Identifier}
use nix_seal.Core.Plan.{phase_eq_iff}
use nix_seal.Runtime.Error.{RuntimeError, invalid_spec}
use nix_seal.Runtime.Names.{
  parse_mode, is_account_name, is_runtime_placeholder_name, template_output_id,
  valid_compatibility_path, is_normalized_absolute_path,
}
use nix_seal.Runtime.Spec.{
  ActivationSpecV2, ActivationArtifactSpecV2, ActivationTemplateSpecV1, TemplatePlaceholderSpecV1,
  Seen, nothing_seen, is_taken, is_bad_placeholder, bad_artifact, bad_template, bad_spec,
  check_artifact, check_template, validate_actions, validate_activation,
}

-- A loop in which each round adds a new key to a set: the set is that of all keys, and it has grown
-- by the number of rounds.
module _ {S A : Type 0} (f : S → A → Result RuntimeError S) (keys : S → List Text) (key : A → Text)
    (round : (s : S) (x : A) (t : S)
      → f s x ≡ ok t
      → (contains (key x) (keys s) ≡ false) × (keys t ≡ set_insert (key x) (keys s))) where
  fold-keys :
      (xs : List A) (s t : S)
      → fold_each f s xs ≡ ok t
      → (keys t ≡ set_union (keys s) (map key xs))
        × (length (keys t) ≡ length (keys s) + length (map key xs))
  unfolding set_union
  fold-keys [] s t h =
      let same = ok_injective h in (ap keys (sym same), rw (ap keys same) (omega arith))
  fold-keys (x ∷ xs) s t h =
      let (u, now, later) = >>=-eq-ok (f s x) (λ u. fold_each f u xs) h in
      let (new, grown) = round s x u now in
      let (union, size) = fold-keys xs u t later in
      let one : length (set_insert (key x) (keys s)) ≡ suc (length (keys s)) =
        length-set_insert_new (key x) (keys s) new in
      (rw grown at union, omega (arith, size, ap length grown, one))

-- An artifact of a valid activation.
pub record IsArtifact (spec : ActivationSpecV2) (artifact : ActivationArtifactSpecV2) : Type 0 where
  pub in_phase : artifact.phase ≡ spec.phase
  pub private : is_err (parse_mode artifact.mode) ≡ false
  pub owner : is_account_name artifact.owner ≡ true
  pub group : is_account_name artifact.group ≡ true
  pub link :
      (path : Text)
      → artifact.compatibility_symlink ≡ some path
      → valid_compatibility_path path spec.runtime_root ≡ true

-- A template of a valid activation, where `ids` are the secrets that it activates.
pub record IsTemplate (spec : ActivationSpecV2) (ids : List Identifier)
    (template : ActivationTemplateSpecV1) : Type 0 where
  pub in_phase : template.phase ≡ spec.phase
  pub private : is_err (parse_mode template.mode) ≡ false
  pub some_output : (id : Identifier) × (template_output_id template.template_id ≡ ok id)
  pub known :
      All
        (λ p. (is_runtime_placeholder_name p.0 ≡ true) × (contains p.1.secret_id ids ≡ true))
        template.placeholders

untaken :
    (link : Option Text) (root : Text) (paths : List Text)
    → is_taken link root paths ≡ false
    → (path : Text) → link ≡ some path
    → valid_compatibility_path path root ≡ true
untaken none root paths h path e = cc
untaken (some p) root paths h path e =
    let same : p ≡ path = cc in
    subst (λ (q : Text). valid_compatibility_path q root ≡ true) same (ground arith)

check_artifact-eq-ok :
    (spec : ActivationSpecV2) (seen : Seen) (artifact : ActivationArtifactSpecV2) (result : Seen)
    → check_artifact spec.runtime_root spec.phase seen artifact ≡ ok result
    → IsArtifact spec artifact
      × (contains artifact.secret_id seen.destinations ≡ false)
      × (result.destinations ≡ set_insert artifact.secret_id seen.destinations)
      × (contains artifact.secret_id seen.secret_ids ≡ false)
      × (result.secret_ids ≡ set_insert artifact.secret_id seen.secret_ids)
unfolding check_artifact
check_artifact-eq-ok spec seen a result h =
    let bad = bad_artifact spec.runtime_root spec.phase seen a in
    let (good, h1) = >>-eq-ok (fail_if bad invalid_spec) _ h in
    let tests = fail_if-eq-ok bad invalid_spec good in
    let built = ok_injective h1 in
    (
      record {
        in_phase = (phase_eq_iff a.phase spec.phase).0 (ground arith);
        private = ground arith;
        owner = ground arith;
        group = ground arith;
        link =
            untaken a.compatibility_symlink spec.runtime_root seen.compatibility_paths
              (ground arith);
      },
      ground arith,
      sym (ap (λ (s : Seen). s.destinations) built),
      ground arith,
      sym (ap (λ (s : Seen). s.secret_ids) built),
    )

good_placeholders :
    (ids : List Identifier) (m : BTreeMap Text TemplatePlaceholderSpecV1)
    → any (is_bad_placeholder ids) m ≡ false
    → All (λ p. (is_runtime_placeholder_name p.0 ≡ true) × (contains p.1.secret_id ids ≡ true)) m
good_placeholders ids m h =
    All-map (λ (n, p) g. (ground arith, ground arith)) m (any-All (is_bad_placeholder ids) m h)

check_template-eq-ok :
    (spec : ActivationSpecV2) (ids : List Identifier) (destinations : List Text)
    (template : ActivationTemplateSpecV1) (result : List Text)
    → check_template spec.phase ids destinations template ≡ ok result
    → IsTemplate spec ids template
      × ((id : Identifier) × (template_output_id template.template_id ≡ ok id)
          × (contains id destinations ≡ false)
          × (result ≡ set_insert id destinations))
unfolding check_template
check_template-eq-ok spec ids destinations t result h =
    let (id, output, h1) = >>=-eq-ok (template_output_id t.template_id) _ h in
    let bad = bad_template spec.phase ids destinations id t in
    let (good, h2) = >>-eq-ok (fail_if bad invalid_spec) _ h1 in
    let tests = fail_if-eq-ok bad invalid_spec good in
    (
      record {
        in_phase = (phase_eq_iff t.phase spec.phase).0 (ground arith);
        private = ground arith;
        some_output = (id, output);
        known = good_placeholders ids t.placeholders (ground arith);
      },
      (id, output, ground arith, sym (ok_injective h2)),
    )

-- The destination of a template, which a valid activation has.
abbrev pub output_of : ActivationTemplateSpecV1 → Text
output_of template = elim (template_output_id template.template_id) [ ok id ↦ id | err e ↦ [] ]

abbrev pub artifact_ids : List ActivationArtifactSpecV2 → List Text
artifact_ids artifacts = map (λ (a : ActivationArtifactSpecV2). a.secret_id) artifacts

abbrev pub template_ids : List ActivationTemplateSpecV1 → List Text
template_ids templates = map output_of templates

-- What a validated activation promises: the destinations of its secrets and templates are all
-- distinct, each secret and each template is private to its owner and belongs to the phase, and a
-- template shows only secrets that the activation has.
pub record IsValid (spec : ActivationSpecV2) : Type 0 where
  pub absolute : is_normalized_absolute_path spec.runtime_root ≡ true
  pub some_artifact : is_empty spec.artifacts ≡ false
  pub few : length spec.artifacts ≤ 10000
  pub destinations : distinct (artifact_ids spec.artifacts ++ template_ids spec.templates) ≡ true
  pub artifacts : All (IsArtifact spec) spec.artifacts
  pub templates : All (IsTemplate spec (artifact_ids spec.artifacts)) spec.templates
  pub actions : validate_actions spec.post_switch ≡ ok tt

check_template-round :
    (spec : ActivationSpecV2) (ids destinations : List Text) (t : ActivationTemplateSpecV1)
    (result : List Text)
    → check_template spec.phase ids destinations t ≡ ok result
    → (contains (output_of t) destinations ≡ false)
      × (result ≡ set_insert (output_of t) destinations)
check_template-round spec ids destinations t result h =
    let (_, (id, output, new, grown)) = check_template-eq-ok spec ids destinations t result h in
    (rw (output_of, output) new, rw (output_of, output) grown)

-- The destinations after the two loops.
destinations-distinct :
    (xs ys : List Text) (middle last : List Text)
    → middle ≡ set_union [] xs
    → length middle ≡ length xs
    → last ≡ set_union middle ys
    → length last ≡ length middle + length ys
    → distinct (xs ++ ys) ≡ true
unfolding to_set
destinations-distinct xs ys middle last first size second more =
    let same : last ≡ to_set (xs ++ ys) =
      second ∙ ap (λ (m : List Text). set_union m ys) first ∙ sym (set_union-append xs ys []) in
    to_set-distinct (xs ++ ys) (omega (arith, ap length same, length-append xs ys, size, more))

-- A valid template knows the same secrets under any set with the same members.
IsTemplate-same :
    (spec : ActivationSpecV2) (ids others : List Text)
    → ((id : Text) → contains id ids ≡ contains id others)
    → (t : ActivationTemplateSpecV1) → IsTemplate spec ids t
    → IsTemplate spec others t
IsTemplate-same spec ids others same t h = record {
  in_phase = h.in_phase;
  private = h.private;
  some_output = h.some_output;
  known = All-map (λ p k. (k.0, sym (same p.1.secret_id) ∙ k.1)) t.placeholders h.known;
}

-- An activation that passes the validation writes each secret and each template to a destination of
-- its own, with a mode that gives the group and others nothing, for the phase of the activation; a
-- link for compatibility stands outside the runtime root; and a template names only secrets of the
-- activation.
pub validate_activation-IsValid :
    (spec : ActivationSpecV2) → validate_activation spec ≡ ok tt → IsValid spec
unfolding validate_activation to_set
validate_activation-IsValid spec h =
    let (good, h1) = >>-eq-ok (fail_if (bad_spec spec) invalid_spec) _ h in
    let tests = fail_if-eq-ok (bad_spec spec) invalid_spec good in
    let step = check_artifact spec.runtime_root spec.phase in
    let (seen, first, h2) = >>=-eq-ok (fold_each step nothing_seen spec.artifacts) _ h1 in
    let each = check_template spec.phase seen.secret_ids in
    let (last, second, actions) =
      >>=-eq-ok (fold_each each seen.destinations spec.templates) _ h2 in
    let id = λ (a : ActivationArtifactSpecV2). a.secret_id in
    let (dest, dest_size) =
      fold-keys step (λ (s : Seen). s.destinations) id
        (λ s x t e. let (_, new, grown, _, _) = check_artifact-eq-ok spec s x t e in (new, grown))
        spec.artifacts nothing_seen seen first in
    let (ids, _) =
      fold-keys step (λ (s : Seen). s.secret_ids) id
        (λ s x t e. let (_, _, _, new, grown) = check_artifact-eq-ok spec s x t e in (new, grown))
        spec.artifacts nothing_seen seen first in
    let (out, out_size) =
      fold-keys each (λ s. s) output_of
        (λ s x t e. check_template-round spec seen.secret_ids s x t e) spec.templates
        seen.destinations last second in
    record {
      absolute = ground arith;
      some_artifact = ground arith;
      few = ground arith;
      destinations =
          destinations-distinct (artifact_ids spec.artifacts) (template_ids spec.templates)
            seen.destinations last dest (omega (arith, dest_size)) out out_size;
      artifacts =
          fold_each-All (IsArtifact spec) step (λ s x t e. (check_artifact-eq-ok spec s x t e).0)
            spec.artifacts nothing_seen seen first;
      templates =
          All-map
            (IsTemplate-same spec seen.secret_ids (artifact_ids spec.artifacts)
              (λ j. ap (contains j) ids ∙ contains-to_set (artifact_ids spec.artifacts) j))
            spec.templates
            (fold_each-All (IsTemplate spec seen.secret_ids) each
              (λ s x t e. (check_template-eq-ok spec seen.secret_ids s x t e).0) spec.templates
              seen.destinations last second);
      actions = actions;
    }
