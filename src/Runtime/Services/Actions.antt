-- ===== src/Runtime/Services/Actions.antt =====
-- crates/nix-seal-runtime/src/lib.rs, `run_post_switch_with`: the runs of the actions that succeed, as
-- a relation on the calls made.
use nix_seal.Prelude.{
  ℕ, ◌≡◌, refl, sym, ap, ◌∙◌, subst, ◌↔◌, inl, inr, Bool, true, false, some, none, List, [], ◌∷◌,
  ◌++◌, ok, err, arith, Bool-cases, Result-cases,
}
use nix_seal.Prelude.Text.{Text}
use nix_seal.Runtime.Spec.{PostSwitchSpecV1, ServiceManagerV1, validate_post_switch}
use nix_seal.Runtime.Services.{
  Call, call_of, ExitStatus, Outcome, Manager, is_success, is_inactive, is_systemd, active_call,
  manager_arguments, succeed, act, reload_each, restart_each, and_then, run_post_switch_with,
}

module _ (uid : ℕ) (manager : ServiceManagerV1) (run : Manager) where
  -- A unit is reloaded or restarted by one call, with the arguments for its manager, that succeeds.
  pub record Acts (reload : Bool) (made : List Call) (unit : Text) (after : List Call)
      : Type 0 where
    pub arguments : List Text
    pub right : manager_arguments uid manager reload unit ≡ ok arguments
    pub status : ExitStatus
    pub answered : run made (call_of unit arguments) ≡ ok status
    pub success : is_success status ≡ true
    pub grown : made ++ call_of unit arguments ∷ [] ≡ after

  -- The units are reloaded in order.
  pub data Reloads : List Call → List Text → List Call → Type 0 where
    none_left : {made : List Call} → Reloads made [] made
    reloaded :
        {made between after : List Call} {unit : Text} {units : List Text}
        → Acts true made unit between
        → Reloads between units after
        → Reloads made (unit ∷ units) after

  -- Systemd has said of a unit that it is active, or that it is not.
  pub record Asked (test : ExitStatus → Bool) (made : List Call) (unit : Text) : Type 0 where
    pub systemd : is_systemd manager ≡ true
    pub status : ExitStatus
    pub answered : run made (active_call manager unit) ≡ ok status
    pub passed : test status ≡ true

  -- The units are restarted in order: with systemd those that are active, and those that are not
  -- are left alone; with launchd all.
  pub data Restarts : List Call → List Text → List Call → Type 0 where
    finished : {made : List Call} → Restarts made [] made
    left_alone :
        {made after : List Call} {unit : Text} {units : List Text}
        → Asked is_inactive made unit
        → Restarts (made ++ active_call manager unit ∷ []) units after
        → Restarts made (unit ∷ units) after
    restarted :
        {made between after : List Call} {unit : Text} {units : List Text}
        → Asked is_success made unit
        → Acts false (made ++ active_call manager unit ∷ []) unit between
        → Restarts between units after
        → Restarts made (unit ∷ units) after
    started :
        {made between after : List Call} {unit : Text} {units : List Text}
        → is_systemd manager ≡ false
        → Acts false made unit between
        → Restarts between units after
        → Restarts made (unit ∷ units) after

  act-ok :
      (reload : Bool) (made : List Call) (unit : Text) (later : List Call → Outcome)
      (after : List Call)
      → act uid manager run reload made unit later ≡ (after, ok tt)
      → (between : List Call) × Acts reload made unit between × (later between ≡ (after, ok tt))
  act-ok reload made unit later after h =
      elim (Result-cases (manager_arguments uid manager reload unit)) [
        | inr (e, bad) ↦ let k = rw (act, bad) at h in absurd (cc)
        | inl (arguments, right) ↦
            let h1 = rw (act, right) at h in
            let call : Call = call_of unit arguments in
            elim (Result-cases (run made call)) [
              | inr (e, bad) ↦ let k = rw (succeed, bad) at h1 in absurd (cc)
              | inl (status, answered) ↦
                  let h2 = rw (succeed, answered) at h1 in
                  elim (Bool-cases (is_success status)) [
                    | inr bad ↦ let k = rw bad at h2 in absurd (cc)
                    | inl success ↦ (
                      made ++ call ∷ [],
                      record {
                        arguments = arguments;
                        right = right;
                        status = status;
                        answered = answered;
                        success = success;
                        grown = refl;
                      },
                      rw success at h2,
                    )
                  ]
            ]
      ]

  ok-act :
      (reload : Bool) (made : List Call) (unit : Text) (later : List Call → Outcome)
      (between : List Call)
      → Acts reload made unit between
      → act uid manager run reload made unit later ≡ later between
  ok-act reload made unit later between a =
      rw (act, a.right, succeed, a.answered, a.success) (ap later a.grown)

  reload_each-Reloads :
      (made : List Call) (units : List Text) (after : List Call)
      → reload_each uid manager run made units ≡ (after, ok tt)
      → Reloads made units after
  unfolding reload_each
  reload_each-Reloads made [] after h =
      subst (λ (m : List Call). Reloads made [] m) (ap (λ (o : Outcome). o.0) h) none_left
  reload_each-Reloads made (unit ∷ units) after h =
      let (between, acts, rest) =
        act-ok true made unit (λ calls. reload_each uid manager run calls units) after h in
      reloaded acts (reload_each-Reloads between units after rest)

  Reloads-reload_each :
      (made : List Call) (units : List Text) (after : List Call)
      → Reloads made units after
      → reload_each uid manager run made units ≡ (after, ok tt)
  unfolding reload_each
  Reloads-reload_each made [] _ none_left = refl
  Reloads-reload_each made (unit ∷ units) after (reloaded {between = between} acts rest) =
      ok-act true made unit (λ calls. reload_each uid manager run calls units) between acts
      ∙ Reloads-reload_each between units after rest

  restart_each-Restarts :
      (made : List Call) (units : List Text) (after : List Call)
      → restart_each uid manager run made units ≡ (after, ok tt)
      → Restarts made units after
  unfolding restart_each
  restart_each-Restarts made [] after h =
      subst (λ (m : List Call). Restarts made [] m) (ap (λ (o : Outcome). o.0) h) finished
  restart_each-Restarts made (unit ∷ units) after h =
      let later = λ (calls : List Call). restart_each uid manager run calls units in
      let asked = made ++ active_call manager unit ∷ [] in
      elim (Bool-cases (is_systemd manager)) [
        | inr launchd ↦
            let (between, acts, rest) =
              act-ok false made unit later after (rw (restart_each, launchd) at h) in
            started launchd acts (restart_each-Restarts between units after rest)
        | inl systemd ↦
            let h1 = rw (restart_each, systemd) at h in
            elim (Result-cases (run made (active_call manager unit))) [
              | inr (e, bad) ↦ let k = rw bad at h1 in absurd (cc)
              | inl (status, answered) ↦
                  let h2 = rw answered at h1 in
                  elim (Bool-cases (is_success status)) [
                    | inl active ↦
                        let (between, acts, rest) =
                          act-ok false asked unit later after (rw active at h2) in
                        restarted
                          (record {
                            systemd = systemd;
                            status = status;
                            answered = answered;
                            passed = active;
                          })
                          acts (restart_each-Restarts between units after rest)
                    | inr other ↦
                        let h3 = rw other at h2 in
                        elim (Bool-cases (is_inactive status)) [
                          | inr bad ↦ let k = rw bad at h3 in absurd (cc)
                          | inl inactive ↦
                              left_alone
                                (record {
                                  systemd = systemd;
                                  status = status;
                                  answered = answered;
                                  passed = inactive;
                                })
                                (restart_each-Restarts asked units after (rw inactive at h3))
                        ]
                  ]
            ]
      ]

  inactive-failed : (status : ExitStatus) → is_inactive status ≡ true → is_success status ≡ false
  inactive-failed none h = refl
  inactive-failed (some code) h = ground arith

  Restarts-restart_each :
      (made : List Call) (units : List Text) (after : List Call)
      → Restarts made units after
      → restart_each uid manager run made units ≡ (after, ok tt)
  unfolding restart_each
  Restarts-restart_each made [] _ finished = refl
  Restarts-restart_each made (unit ∷ units) after (left_alone a rest) =
      rw (restart_each, a.systemd, a.answered, inactive-failed a.status a.passed, a.passed)
        (Restarts-restart_each (made ++ active_call manager unit ∷ []) units after rest)
  Restarts-restart_each made (unit ∷ units) after (restarted {between = between} a acts rest) =
      rw (restart_each, a.systemd, a.answered, a.passed)
        (ok-act false (made ++ active_call manager unit ∷ []) unit
            (λ calls. restart_each uid manager run calls units) between acts
          ∙ Restarts-restart_each between units after rest)
  Restarts-restart_each made (unit ∷ units) after (started {between = between} launchd acts rest) =
      rw (restart_each, launchd)
        (ok-act false made unit (λ calls. restart_each uid manager run calls units) between acts
          ∙ Restarts-restart_each between units after rest)

and_then-ok :
    (first : Outcome) (later : List Call → Outcome) (after : List Call)
    → and_then first later ≡ (after, ok tt)
    → (made : List Call) × (first ≡ (made, ok tt)) × (later made ≡ (after, ok tt))
and_then-ok (made, ok tt) later after h = (made, refl, h)
and_then-ok (made, err e) later after h = absurd (cc)

-- The actions after a switch succeed with certain calls exactly where they are valid and the calls
-- are these: first a successful reload of each unit to reload, in order; then for each unit to
-- restart, in order, the question whether it is active, and a successful restart if it is and
-- nothing if it is inactive or unknown; launchd is not asked.
pub run_post_switch_with-Restarts :
    (uid : ℕ) (actions : PostSwitchSpecV1) (run : Manager) (after : List Call)
    → (run_post_switch_with uid actions run ≡ (after, ok tt)) ↔ (
        (validate_post_switch actions ≡ ok tt)
        × ((between : List Call) × Reloads uid actions.manager run [] actions.reload_units between
            × Restarts uid actions.manager run between actions.restart_units after))
unfolding run_post_switch_with
run_post_switch_with-Restarts uid actions run after = (
  λ h.
      let (made, valid, h1) = and_then-ok ([], validate_post_switch actions) _ after h in
      let checked : validate_post_switch actions ≡ ok tt = ap (λ (o : Outcome). o.1) valid in
      let none_made : made ≡ [] = sym (ap (λ (o : Outcome). o.0) valid) in
      let (between, reloads, restarts) =
        and_then-ok (reload_each uid actions.manager run made actions.reload_units) _ after h1 in
      (
        checked,
        (
          between,
          subst (λ (m : List Call). Reloads uid actions.manager run m actions.reload_units between)
              none_made
              (reload_each-Reloads uid actions.manager run made actions.reload_units between
                reloads),
          restart_each-Restarts uid actions.manager run between actions.restart_units after
              restarts,
        ),
      ),
  λ (checked, (between, reloads, restarts)).
      rw
        (
          checked,
          Reloads-reload_each uid actions.manager run [] actions.reload_units between reloads,
        )
        (Restarts-restart_each uid actions.manager run between actions.restart_units after
          restarts),
)
