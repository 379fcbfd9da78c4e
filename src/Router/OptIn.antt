-- ===== src/Router/OptIn.antt =====
-- A cutover needs the opt-in: without it the old mapping is never deleted.
use yataverse_distribution.Prelude.{
  ℕ, ◌+◌, ◌≡◌, refl, sym, ap, ◌∙◌, Bool, true, false, Option, none, some, Result, ok, err, arith,
  Result-cases, Bool-cases, inl, inr, ok_inj, List, [], ◌∷◌, ◌++◌,
}
use yataverse_distribution.Json.{lookup, int_of}
use yataverse_distribution.Router.{
  Host, gad, Listing, Router, Refused, Command, delete, list, add, Tool, set_mapping, add_new,
  roll_back, replaces, on_refused, ◌>>>=◌, continue, give, command, current_mapping, refuse_if,
  same_host, maps_to, Action, restore_primary, keep_primary, wait_for_confirmation, take_over,
  renew_standby, decide, apply_action, Checks, StateFile, Report, main_run, plan, carry_out,
  decided, require_cutover_opt_in, is_cutover, save_failures, load_failures, next_failures,
}

-- How many `upnpc -d` are among the commands.
unfoldable pub deletes : List Command → ℕ
deletes [] = 0
deletes (delete ∷ sent) = 1 + deletes sent
deletes (list ∷ sent) = deletes sent
deletes (add h ∷ sent) = deletes sent

deletes-append : (sent more : List Command) → deletes (sent ++ more) ≡ deletes sent + deletes more
unfolding deletes
deletes-append [] more = omega arith
deletes-append (delete ∷ sent) more = omega (arith, deletes-append sent more)
deletes-append (list ∷ sent) more = deletes-append sent more
deletes-append (add h ∷ sent) more = deletes-append sent more

-- A function that sends no `upnpc -d`.
record Spares {A : Type 0} (m : Tool A) : Type 0 where
  at : (router : Router) → deletes (m router).1.sent ≡ deletes router.sent

module _ {A B : Type 0} where
  bind-Spares :
      (m : Tool A) (f : A → Tool B) → Spares m → ((a : A) → Spares (f a)) → Spares (m >>>= f)
  unfolding ◌>>>=◌
  bind-Spares m f spares later = record { at = λ router. go (m router) ∙ spares.at router }
    where
      go : (r : Result Refused A × Router) → deletes (continue r f).1.sent ≡ deletes r.1.sent
      go (ok a, router) = (later a).at router
      go (err e, router) = refl

  on_refused-Spares :
      (m : Tool A) (cleanup : Tool B) → Spares m → Spares cleanup → Spares (on_refused m cleanup)
  unfolding on_refused
  on_refused-Spares m cleanup spares tidy = record {
    at = λ router. go (m router) ∙ spares.at router;
  }
    where
      go :
          (r : Result Refused A × Router)
          → deletes
              (elim r.0 as (λ _. Result Refused A × Router) [
                | ok x ↦ r
                | err e ↦ (err e, (cleanup r.1).1)
              ]).1.sent
            ≡ deletes r.1.sent
      go (ok x, router) = refl
      go (err e, router) = tidy.at router

give-Spares : {A : Type 0} (r : Result Refused A) → Spares (give r)
unfolding give
give-Spares r = record { at = λ router. refl }

command-Spares : (c : Command) → deletes (c ∷ []) ≡ 0 → Spares (command c)
unfolding command
command-Spares c none_deleted = record { at = λ router. go router.answers router.sent }
  where
    go :
        (answers : List (Option Listing)) (sent : List Command)
        → deletes (command c (record { answers = answers; sent = sent })).1.sent ≡ deletes sent
    go [] sent = omega (arith, deletes-append sent (c ∷ []), none_deleted)
    go (none ∷ answers) sent = omega (arith, deletes-append sent (c ∷ []), none_deleted)
    go (some l ∷ answers) sent = omega (arith, deletes-append sent (c ∷ []), none_deleted)

current_mapping-Spares : Spares current_mapping
unfolding current_mapping
current_mapping-Spares =
    bind-Spares _ _ (command-Spares list (unfold deletes in refl)) λ l. give-Spares _

add_new-Spares : (target : Host) → Spares (add_new target)
unfolding add_new refuse_if
add_new-Spares target =
    bind-Spares _ _ (command-Spares (add target) (unfold deletes in refl))
      λ _. bind-Spares _ _ current_mapping-Spares λ now. give-Spares _

roll_back-Spares : (current : Option Host) (target : Host) → Spares (roll_back current target)
unfolding roll_back
roll_back-Spares none target = give-Spares _
roll_back-Spares (some owner) target = elim (Bool-cases (same_host owner target)) [
  | inl same ↦ rw same (give-Spares (ok tt))
  | inr other ↦ rw other (
      bind-Spares _ _ (command-Spares (add owner) (unfold deletes in refl))
        λ _. give-Spares (ok tt))
]

-- A target that owns the mapping already, or finds none, has nothing deleted.
set_mapping-Spares :
    (target : Host) (current : Option Host)
    → replaces current target ≡ false
    → Spares (set_mapping target current)
unfolding set_mapping
set_mapping-Spares target current same =
    bind-Spares _ _ (rw same (give-Spares (ok tt)))
      λ _. on_refused-Spares _ _ (add_new-Spares target) (roll_back-Spares current target)

-- The renewal is decided for the mapping that the standby has.
decide-renew :
    (primary standby listener : Bool) (failures : ℕ) (mapping : Option Host)
    → decide primary standby failures mapping listener ≡ ok renew_standby
    → maps_to mapping gad ≡ true
unfolding decide
decide-renew primary standby listener failures mapping h = ground arith

-- What a plan that is not refused rests on.
plan-eq_ok :
    (checks : Checks) (file : StateFile) (mapping : Result Refused (Option Host))
    (owner : Option Host) (report : Report)
    → plan checks file mapping ≡ ok (owner, report)
    → (next_failures checks.primary file ≡ ok report.failures)
      × (decide checks.primary checks.standby report.failures owner checks.listener
          ≡ ok report.action)
unfolding plan
plan-eq_ok checks file (err e) owner report h = cc
plan-eq_ok checks file (ok current) owner report h =
    elim (Result-cases (next_failures checks.primary file)) [
      | inr (e, f) ↦ cc (rw f at h)
      | inl (n, f) ↦
          elim (Result-cases (decide checks.primary checks.standby n current checks.listener)) [
            | inr (e, d) ↦ cc (rw (f, d) at h)
            | inl (action, d) ↦
                let k : ◌≡◌ {A = Option Host × Report}
                    (current, record { action = action; failures = n }) (owner, report) =
                  cc (rw (f, d) at h) in
                let count : n ≡ report.failures =
                  ap (λ (r : Option Host × Report). r.1.failures) k in
                (
                  f ∙ ap ok count,
                  rw (sym count, sym (ap (λ (r : Option Host × Report). r.0) k))
                      (d ∙ ap (λ (r : Option Host × Report). ok r.1.action) k),
                )
          ]
    ]

maps_to-replaces :
    (current : Option Host) (target : Host)
    → maps_to current target ≡ true
    → replaces current target ≡ false
unfolding maps_to replaces
maps_to-replaces none target h = refl
maps_to-replaces (some owner) target h = ground arith

carry_out-deletes :
    (action : Action) (n : ℕ) (apply : Bool) (owner : Option Host) (file : StateFile)
    (router : Router)
    → (action ≡ renew_standby → maps_to owner gad ≡ true)
    → deletes
        (carry_out apply false (owner, record { action = action; failures = n }) file router).1.sent
      ≡ deletes router.sent
unfolding carry_out require_cutover_opt_in is_cutover apply_action give
carry_out-deletes action n false owner file router renews = refl
carry_out-deletes restore_primary n true owner file router renews = refl
carry_out-deletes take_over n true owner file router renews = refl
carry_out-deletes keep_primary n true owner file router renews = refl
carry_out-deletes wait_for_confirmation n true owner file router renews = refl
carry_out-deletes renew_standby n true owner file router renews =
    (set_mapping-Spares gad owner (maps_to-replaces owner gad (renews refl))).at router

-- Without the opt-in, a run sends no command that deletes a mapping, whatever it observes, whatever
-- the router answers, and whether or not it applies the action.
pub main_run-deletes :
    (apply : Bool) (checks : Checks) (file : StateFile) (router : Router)
    → deletes (main_run apply false checks file router).1.sent ≡ deletes router.sent
unfolding main_run
main_run-deletes apply checks file router =
    elim (Result-cases (plan checks file (current_mapping router).0)) [
      | inr (e, failed) ↦
          ap (λ p. deletes (decided apply false file (current_mapping router).1 p).1.sent) failed
          ∙ current_mapping-Spares.at router
      | inl ((owner, report), planned) ↦
          ap (λ p. deletes (decided apply false file (current_mapping router).1 p).1.sent) planned
          ∙ carry_out-deletes report.action report.failures apply owner file
              (current_mapping router).1
              (λ renew.
                decide-renew checks.primary checks.standby checks.listener report.failures owner
                  ((plan-eq_ok checks file _ owner report planned).1 ∙ ap ok renew))
          ∙ current_mapping-Spares.at router
    ]

carry_out-eq_ok :
    (allowed : Bool) (owner : Option Host) (planned report : Report) (file file' : StateFile)
    (router router' : Router)
    → carry_out true allowed (owner, planned) file router ≡ (ok report, router', file')
    → (planned ≡ report) × (file' ≡ save_failures planned.failures)
unfolding carry_out
carry_out-eq_ok allowed owner planned report file file' router router' h =
    elim (Result-cases (require_cutover_opt_in planned.action allowed)) [
      | inr (e, no_opt_in) ↦ cc (rw no_opt_in at h)
      | inl (_, opt_in) ↦ elim (Result-cases (apply_action planned.action owner router).0) [
        | inr (e, failed) ↦ cc (rw (opt_in, failed) at h)
        | inl (_, done) ↦ (cc (rw (opt_in, done) at h), cc (rw (opt_in, done) at h))
      ]
    ]

-- The count of a healthy primary, and of one that is not.
next_failures-eq_ok :
    (healthy : Bool) (file : StateFile) (m : ℕ)
    → next_failures healthy file ≡ ok m
    → (healthy ≡ true → m ≡ 0)
      × (healthy ≡ false → (n : ℕ) × (load_failures file ≡ ok n) × (m ≡ n + 1))
unfolding next_failures
next_failures-eq_ok true file m h = (λ e. sym (ok_inj h), λ e. cc)
next_failures-eq_ok false file m h = elim (Result-cases (load_failures file)) [
  | inr (e, failed) ↦ cc (rw failed at h)
  | inl (n, loaded) ↦ (λ e. cc, λ e. (n, loaded, sym (ok_inj (rw loaded at h))))
]

-- A run that applies its action and is not refused leaves a count in the state file that reads back
-- as the one it reports: 0 when the primary is healthy, else one more than the count that was
-- loaded from the file before.
pub main_run-counts :
    (allowed : Bool) (checks : Checks) (file file' : StateFile) (router router' : Router)
    (report : Report)
    → main_run true allowed checks file router ≡ (ok report, router', file')
    → (load_failures file' ≡ ok report.failures)
      × (checks.primary ≡ true → report.failures ≡ 0)
      × (checks.primary ≡ false → (n : ℕ) × (load_failures file ≡ ok n) × (report.failures ≡ n + 1))
unfolding main_run
main_run-counts allowed checks file file' router router' report h =
    elim (Result-cases (plan checks file (current_mapping router).0)) [
      | inr (e, failed) ↦
          let refused =
            sym (ap (λ p. decided true allowed file (current_mapping router).1 p) failed) ∙ h in
          cc
      | inl ((owner, planned), p) ↦
          let run = sym (ap (λ p. decided true allowed file (current_mapping router).1 p) p) ∙ h in
          let (reports, saves) =
            carry_out-eq_ok allowed owner planned report file file' (current_mapping router).1
              router' run in
          let count : planned.failures ≡ report.failures =
            ap (λ (r : Report). r.failures) reports in
          let (healthy, failing) =
            next_failures-eq_ok checks.primary file report.failures
              ((plan-eq_ok checks file _ owner planned p).0 ∙ ap ok count) in
          (
            rw saves (unfold load_failures save_failures lookup int_of in ap ok count),
            healthy,
            failing,
          )
    ]
