-- ===== src/Runtime/Services.antt =====
-- crates/nix-seal-runtime/src/lib.rs, `run_post_switch_with`: the actions on services after a switch.
-- What a call of the service manager answers may depend on all calls before it.
pub mod Actions
use nix_seal.Prelude.{
  ℕ, Bool, true, false, not, ◌||◌, Option, some, none, List, [], ◌∷◌, ◌++◌, ◌==◌, Result, ok, err,
  if◌then◌else◌,
}
use nix_seal.Prelude.Text.{Text, codes}
use nix_seal.Manifest.Pae.{to_string}
use nix_seal.Runtime.Error.{RuntimeError, invalid_spec, service_action}
use nix_seal.Runtime.Spec.{
  PostSwitchSpecV1, ServiceManagerV1, systemd_system, systemd_user, launchd_system, launchd_user,
  validate_post_switch,
}

-- One call of the service manager: the unit it is for, and its arguments.
pub record Call : Type 0 where
  pub unit : Text
  pub arguments : List Text

abbrev pub call_of : Text → List Text → Call
call_of unit arguments = record { unit = unit; arguments = arguments }

-- `ExitStatus`: its code, which a process that a signal ended does not have.
abbrev pub ExitStatus : Type 0
ExitStatus = Option ℕ

abbrev pub is_success : ExitStatus → Bool
is_success none = false
is_success (some code) = code == 0

-- Inactive and unknown units, which are left alone.
abbrev pub is_inactive : ExitStatus → Bool
is_inactive none = false
is_inactive (some code) = code == 3 || code == 4

abbrev pub is_systemd : ServiceManagerV1 → Bool
is_systemd systemd_system = true
is_systemd systemd_user = true
is_systemd _ = false

abbrev pub user_flag : ServiceManagerV1 → List Text
user_flag systemd_user = codes "--user" ∷ []
user_flag _ = []

-- `uid` is the effective user.
unfoldable pub manager_arguments :
    ℕ → ServiceManagerV1 → Bool → Text → Result RuntimeError (List Text)
manager_arguments uid systemd_system true unit = ok (codes "reload" ∷ unit ∷ [])
manager_arguments uid systemd_user true unit = ok (codes "--user" ∷ codes "reload" ∷ unit ∷ [])
manager_arguments uid launchd_system true unit = err invalid_spec
manager_arguments uid launchd_user true unit = err invalid_spec
manager_arguments uid systemd_system false unit = ok (codes "try-restart" ∷ unit ∷ [])
manager_arguments uid systemd_user false unit =
    ok (codes "--user" ∷ codes "try-restart" ∷ unit ∷ [])
manager_arguments uid launchd_system false unit =
    ok (codes "kickstart" ∷ codes "-k" ∷ (codes "system/" ++ unit) ∷ [])
manager_arguments uid launchd_user false unit =
    ok (codes "kickstart" ∷ codes "-k" ∷ (codes "gui/" ++ (to_string uid ++ b'/' ∷ unit)) ∷ [])

abbrev pub active_call : ServiceManagerV1 → Text → Call
active_call manager unit =
    call_of unit (user_flag manager ++ codes "is-active" ∷ codes "--quiet" ∷ unit ∷ [])

-- The calls that were made, and how the actions ended.
abbrev pub Outcome : Type 0
Outcome = List Call × Result RuntimeError (Unit {0})

-- What the service manager answers to a call after others.
abbrev pub Manager : Type 0
Manager = List Call → Call → Result RuntimeError ExitStatus

module _ (uid : ℕ) (manager : ServiceManagerV1) (run : Manager) where
  -- A call that must succeed, and what follows it.
  abbrev pub succeed : List Call → Call → Outcome → Outcome
  succeed made call later = elim (run made call) [
    | err e ↦ (made ++ call ∷ [], err e)
    | ok status ↦
        if is_success status then later else (made ++ call ∷ [], err (service_action call.unit))
  ]

  abbrev pub act : Bool → List Call → Text → (List Call → Outcome) → Outcome
  act reload made unit later = elim (manager_arguments uid manager reload unit) [
    | err e ↦ (made, err e)
    | ok arguments ↦
        succeed made (call_of unit arguments) (later (made ++ call_of unit arguments ∷ []))
  ]

  unfoldable pub reload_each : List Call → List Text → Outcome
  unfolding manager_arguments
  reload_each made [] = (made, ok tt)
  reload_each made (unit ∷ units) = act true made unit (λ calls. reload_each calls units)

  -- Systemd is asked first whether the unit is active.
  unfoldable pub restart_each : List Call → List Text → Outcome
  unfolding manager_arguments
  restart_each made [] = (made, ok tt)
  restart_each made (unit ∷ units) = elim (is_systemd manager) [
    | false ↦ act false made unit (λ calls. restart_each calls units)
    | true ↦
        let asked = made ++ active_call manager unit ∷ [] in
        elim (run made (active_call manager unit)) [
          | err e ↦ (asked, err e)
          | ok status ↦ elim (is_success status) [
            | true ↦ act false asked unit (λ calls. restart_each calls units)
            | false ↦ elim (is_inactive status) [
              | true ↦ restart_each asked units
              | false ↦ (asked, err (service_action unit))
            ]
          ]
        ]
  ]

abbrev pub and_then : Outcome → (List Call → Outcome) → Outcome
and_then (made, ok _) later = later made
and_then (made, err e) later = (made, err e)

unfoldable pub run_post_switch_with : ℕ → PostSwitchSpecV1 → Manager → Outcome
unfolding reload_each restart_each
run_post_switch_with uid actions run =
    and_then ([], validate_post_switch actions)
      (λ made.
        and_then (reload_each uid actions.manager run made actions.reload_units)
          (λ calls. restart_each uid actions.manager run calls actions.restart_units))
