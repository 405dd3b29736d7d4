-- ===== src/Policy/Lifecycle.antt =====
-- crates/nix-seal-policy/src/lib.rs: the chronology of a secret, and its state at a given time.
use nix_seal.Prelude.{
  ℕ, ◌==◌, ltb, leb, Bool, true, false, ◌||◌, ◌&&◌, not, Option, none, some, ◌++◌, Result, ok,
  ◌>>=◌, fail_if, ok_or, if◌then◌else◌,
}
use nix_seal.Prelude.Text.{Text, codes}
use nix_seal.Prelude.Numbers.{checked_mul}
use nix_seal.Libraries.{Libraries}
use nix_seal.Core.Id.{Identifier}
use nix_seal.Core.Plan.{Secret, Lifecycle}
use nix_seal.Policy.Error.{
  PolicyError, Checked, violation, timestamp, lifecycle_chronology, rotation_interval,
  rotation_due_time,
}

pub data LifecycleStateV1 : Type 0 where
  unmanaged current rotation_due expired : LifecycleStateV1

pub record SecretLifecycleReportV1 : Type 0 where
  pub secret_id : Identifier
  pub state : LifecycleStateV1
  pub expires_at : Option Text
  pub rotation_due_at : Option Text

-- `option.is_some()`, `option.or(other)`, and a test on two options that are both there.
abbrev pub is_some {ℓ} : {A : Type ℓ} → Option A → Bool
is_some none = false
is_some (some a) = true

abbrev pub or_else {ℓ} : {A : Type ℓ} → Option A → Option A → Option A
or_else none b = b
or_else (some a) b = some a

abbrev pub both_and : (ℕ → ℕ → Bool) → Option ℕ → Option ℕ → Bool
both_and test (some a) (some b) = test a b
both_and test _ _ = false

abbrev pub is_zero : Option ℕ → Bool
is_zero none = false
is_zero (some n) = n == 0

-- `format!("secret {id} createdAt")`.
abbrev pub label_of : Identifier → Text → Text
label_of id field = codes "secret " ++ (id ++ field)

-- What the four tests of `validate_lifecycle` refuse.
unfoldable pub is_inconsistent : Option ℕ → Option ℕ → Option ℕ → Option ℕ → Bool
is_inconsistent created rotated expires days =
    both_and ltb rotated created
    || both_and leb expires created
    || is_zero days
    || is_some days && not (is_some (or_else rotated created))

-- `option.is_some_and(|time| time <= now)`.
abbrev pub is_past : ℕ → Option ℕ → Bool
is_past now none = false
is_past now (some time) = leb time now

unfoldable pub state_at : ℕ → Option ℕ → Option ℕ → LifecycleStateV1
state_at now expires due =
    if is_past now expires
    then expired
    else if is_past now due
    then rotation_due
    else if not (is_some expires) && not (is_some due)
    then unmanaged
    else current

module _ (lib : Libraries) where
  unfoldable pub parse_timestamp : Text → Text → Result PolicyError ℕ
  parse_timestamp label value = ok_or (lib.parse_timestamp value) (violation (timestamp label))

  -- `option.map(parse).transpose()?`.
  unfoldable pub parse_optional : Text → Option Text → Result PolicyError (Option ℕ)
  parse_optional label none = ok none
  parse_optional label (some value) = parse_timestamp label value >>= λ t. ok (some t)

  unfoldable pub validate_lifecycle : Identifier → Lifecycle → Checked
  validate_lifecycle id lifecycle = do
    created ← parse_optional (label_of id (codes " createdAt")) lifecycle.created_at
    rotated ← parse_optional (label_of id (codes " rotatedAt")) lifecycle.rotated_at
    expires ← parse_optional (label_of id (codes " expiresAt")) lifecycle.expires_at
    fail_if (is_inconsistent created rotated expires lifecycle.rotate_after_days)
        (violation (lifecycle_chronology id))

  unfoldable pub due_time : Text → ℕ → Result PolicyError ℕ
  due_time base days = do
    start ← parse_timestamp (codes "rotation base") base
    seconds ← ok_or (checked_mul days 86400) (violation rotation_interval)
    ok_or (lib.timestamp_add_seconds start seconds) (violation rotation_due_time)

  -- `rotation_base.zip(days).map(…).transpose()?`.
  unfoldable pub rotation_due_at : Option Text → Option ℕ → Result PolicyError (Option ℕ)
  rotation_due_at (some base) (some days) = due_time base days >>= λ t. ok (some t)
  rotation_due_at (some base) none = ok none
  rotation_due_at none days = ok none

  abbrev pub show : Option ℕ → Option Text
  show none = none
  show (some t) = some (lib.timestamp_to_string t)

  unfoldable pub report_secret :
      ℕ → Identifier × Secret → Result PolicyError SecretLifecycleReportV1
  report_secret now (secret_id, secret) =
      let lifecycle = secret.lifecycle in
      do
        expires ← parse_optional (codes "expiresAt") lifecycle.expires_at
        due ←
            rotation_due_at (or_else lifecycle.rotated_at lifecycle.created_at)
              lifecycle.rotate_after_days
        ok (record {
          secret_id = secret_id;
          state = state_at now expires due;
          expires_at = show expires;
          rotation_due_at = show due;
        })
