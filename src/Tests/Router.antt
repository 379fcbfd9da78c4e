-- ===== src/Tests/Router.antt =====
-- The router tool at concrete observations and answers.
use yataverse_distribution.Prelude.{
  ℕ, ◌+◌, ◌≡◌, ◌≤◌, ◌↔◌, ◌++◌, refl, [], ◌∷◌, List, Option, none, some, ok, err, true, false,
}
use yataverse_distribution.Json.{lookup, int_of}
use yataverse_distribution.Router.{
  Host, xavier, gad, host, Listing, Router, Command, delete, list, add, Checks, save_failures,
  command_unavailable, take_over, renew_standby, decide, maps_to, same_host, set_mapping,
  remove_old, add_new, replaces, roll_back, on_refused, refuse_if, router_mapping, current_mapping,
  command, give, ◌>>>=◌, main_run, plan, carry_out, next_failures, load_failures, apply_action,
  require_cutover_opt_in, is_cutover,
}
use yataverse_distribution.Router.Decides.{decide-eq_take_over}
use yataverse_distribution.Router.Cutover.{
  owner_after, set_mapping-strands, set_mapping-confirmed, set_mapping-rolls_back,
}
use yataverse_distribution.Router.OptIn.{deletes, main_run-deletes, main_run-counts}

decide-eq_take_over_example : (decide false true 3 (some xavier) false ≡ ok take_over) ↔ (
    (false ≡ false)
    × (3 ≤ 3)
    × (false ≡ false)
    × (true ≡ true)
    × (maps_to (some xavier) gad ≡ false))
decide-eq_take_over_example = decide-eq_take_over false true false 3 (some xavier)

-- Listings that show no mapping, and the mapping of one host.
abbrev shows_none : Listing
shows_none = record { public_ip_found = true; entries = [] }

abbrev shows : Host → Listing
shows owner = record {
  public_ip_found = true;
  entries = record { target = host owner; port_443 = true } ∷ [];
}

abbrev answering : List (Option Listing) → Router
answering answers = record { answers = answers; sent = [] }

not_removed :
    remove_old (answering (some shows_none ∷ none ∷ []))
    ≡ (err command_unavailable, record { answers = []; sent = delete ∷ list ∷ [] })
unfolding remove_old ◌>>>=◌ command current_mapping give router_mapping refuse_if
not_removed = refl

set_mapping-strands_example :
    (set_mapping gad (some xavier) (answering (some shows_none ∷ none ∷ []))
      ≡ (err command_unavailable, record { answers = []; sent = delete ∷ list ∷ [] }))
    × (more : List Command) × (delete ∷ list ∷ [] ≡ [] ++ more)
    × (owner_after more (some xavier) ≡ none)
set_mapping-strands_example =
    set_mapping-strands xavier gad _ _ command_unavailable (unfold same_host in refl) not_removed

taken_over :
    set_mapping gad none (answering (some shows_none ∷ some (shows gad) ∷ []))
    ≡ (ok tt, record { answers = []; sent = add gad ∷ list ∷ [] })
unfolding set_mapping add_new replaces on_refused roll_back ◌>>>=◌ command current_mapping give
    router_mapping refuse_if maps_to
taken_over = refl

set_mapping-confirmed_example :
    (used : List (Option Listing)) × (more : List Command) × (added shown : Listing) × (now : Option
      Host)
    × (some shows_none ∷ some (shows gad) ∷ [] ≡ used ++ (some added ∷ some shown ∷ []))
    × (add gad ∷ list ∷ [] ≡ [] ++ (more ++ (add gad ∷ list ∷ [])))
    × (router_mapping shown ≡ ok now)
    × (maps_to now gad ≡ true)
set_mapping-confirmed_example = set_mapping-confirmed gad none _ _ taken_over

-- The old mapping is gone, and the router refuses the new one.
removed :
    remove_old (answering (some shows_none ∷ some shows_none ∷ none ∷ []))
    ≡ (ok tt, record { answers = none ∷ []; sent = delete ∷ list ∷ [] })
unfolding remove_old ◌>>>=◌ command current_mapping give router_mapping refuse_if
removed = refl

not_added :
    add_new gad (record { answers = none ∷ []; sent = delete ∷ list ∷ [] })
    ≡ (err command_unavailable, record { answers = []; sent = delete ∷ list ∷ add gad ∷ [] })
unfolding add_new ◌>>>=◌ command
not_added = refl

set_mapping-rolls_back_example :
    ((set_mapping gad (some xavier) (answering (some shows_none ∷ some shows_none ∷ none ∷ []))).0
      ≡ err command_unavailable)
    × ((set_mapping gad
          (some xavier)
          (answering (some shows_none ∷ some shows_none ∷ none ∷ []))).1.sent
        ≡ delete ∷ list ∷ add gad ∷ add xavier ∷ [])
set_mapping-rolls_back_example =
    set_mapping-rolls_back xavier gad _ _ _ _ (unfold same_host in refl) removed not_added

-- A third failure of the primary, with the mapping still its own.
abbrev failing : Checks
failing = record { primary = false; standby = true; listener = false }

main_run-deletes_example :
    deletes
      (main_run true false failing (save_failures 2) (answering (some (shows xavier) ∷ []))).1.sent
    ≡ deletes []
main_run-deletes_example =
    main_run-deletes true failing (save_failures 2) (answering (some (shows xavier) ∷ []))

renewed :
    main_run true false failing
      (save_failures 2)
      (answering (some (shows gad) ∷ some shows_none ∷ some (shows gad) ∷ []))
    ≡ (
      ok (record { action = renew_standby; failures = 3 }),
      record { answers = []; sent = list ∷ add gad ∷ list ∷ [] },
      save_failures 3,
    )
unfolding main_run plan carry_out current_mapping ◌>>>=◌ command give router_mapping next_failures
    load_failures save_failures lookup int_of decide maps_to require_cutover_opt_in is_cutover
    apply_action set_mapping add_new replaces on_refused roll_back refuse_if
renewed = refl

main_run-counts_example :
    (load_failures (save_failures 3) ≡ ok 3)
    × (false ≡ true → ◌≡◌ {A = ℕ} 3 0)
    × (false ≡ false → (n : ℕ) × (load_failures (save_failures 2) ≡ ok n) × (3 ≡ n + 1))
main_run-counts_example =
    main_run-counts false failing (save_failures 2) (save_failures 3) _ _ _ renewed
