-- ===== src/Router.antt =====
-- deploy/router_standby.py: the decision about the shared HTTPS lease, its counter file and the
-- cutover. The answers of `upnpc` are inputs of the model, one for each command in turn.
pub mod Decides
pub mod Cutover
pub mod OptIn
use yataverse_distribution.Prelude.{
  ℕ, zero, suc, ◌+◌, ◌==◌, Bool, true, false, not, ◌&&◌, ◌||◌, Option, none, some, List, [], ◌∷◌,
  ◌++◌, leb, ltb, Result, ok, err, require, ◌>>=◌, ◌>>◌, if◌then◌else◌,
}
use yataverse_distribution.Json.{Json, Dict, lookup, int_of}

pub data Refused : Type 0 where
  command_unavailable : Refused
  address_differs multiple_mappings unexpected_owner : Refused
  listener_active standby_failed cutover_disabled : Refused
  state_unreadable invalid_count : Refused
  mapping_kept mapping_unconfirmed : Refused

-- The two hosts that may own the mapping: `XAVIER_IP` and `GAD_IP`.
pub data Host : Type 0 where
  xavier gad : Host

-- `a == b`
unfoldable pub same_host : Host → Host → Bool
same_host xavier xavier = true
same_host gad gad = true
same_host _ _ = false

-- `mapping == host`, where the mapping may be `None`.
unfoldable pub maps_to : Option Host → Host → Bool
unfolding same_host
maps_to none host = false
maps_to (some owner) host = same_host owner host

-- A line of the router's table that the second pattern matches, as its owner's address, which is
-- one of the two or another, and whether its port is 443.
pub data Address : Type 0 where
  host : Host → Address
  elsewhere : Address

pub record Entry : Type 0 where
  pub target : Address
  pub port_443 : Bool

-- What the two patterns find in the output of `upnpc -l`.
pub record Listing : Type 0 where
  pub public_ip_found : Bool
  pub entries : List Entry

unfoldable pub router_mapping : Listing → Result Refused (Option Host)
router_mapping l = do
  require l.public_ip_found address_differs
  elim l.entries [
    | [] ↦ ok none
    | entry ∷ others ↦ elim others [
      | next ∷ more ↦ err multiple_mappings
      | [] ↦ elim entry.target [
        | elsewhere ↦ err unexpected_owner
        | host owner ↦ if entry.port_443 then ok (some owner) else err unexpected_owner
      ]
    ]
  ]

pub data Action : Type 0 where
  restore_primary keep_primary wait_for_confirmation take_over renew_standby : Action

unfoldable pub decide : Bool → Bool → ℕ → Option Host → Bool → Result Refused Action
unfolding maps_to
decide primary_healthy standby_healthy failures mapping primary_listener_active =
    if primary_healthy
    then ok (if maps_to mapping xavier then keep_primary else restore_primary)
    else if ltb failures 3
    then ok wait_for_confirmation
    else (do
      require (not primary_listener_active) listener_active
      require standby_healthy standby_failed
      ok (if maps_to mapping gad then renew_standby else take_over))

-- `action in ("restore-primary", "take-over")`
unfoldable pub is_cutover : Action → Bool
is_cutover restore_primary = true
is_cutover take_over = true
is_cutover _ = false

unfoldable pub require_cutover_opt_in : Action → Bool → Result Refused (Unit {0})
unfolding is_cutover
require_cutover_opt_in action allowed =
    require (not (is_cutover action && not allowed)) cutover_disabled

-- The state file: absent, not readable as a dict, or a dict.
pub data StateFile : Type 0 where
  absent unreadable : StateFile
  saved : Dict → StateFile

unfoldable pub save_failures : ℕ → StateFile
save_failures count = saved (("consecutive-primary-failures", Json.int count) ∷ [])

unfoldable pub load_failures : StateFile → Result Refused ℕ
load_failures absent = ok 0
load_failures unreadable = err state_unreadable
load_failures (saved d) = elim (lookup "consecutive-primary-failures" d) [
  | none ↦ err state_unreadable
  | some value ↦ elim (int_of (some value)) [ none ↦ err invalid_count | some count ↦ ok count ]
]

-- `upnpc -d 8443 TCP`, `upnpc -l` and `upnpc -a target 443 8443 TCP 900`.
pub data Command : Type 0 where
  delete list : Command
  add : Host → Command

-- The commands sent so far, and what the next ones give: none where the command refuses, else its
-- output, which matters for `list` only. A command behind the last answer refuses.
pub record Router : Type 0 where
  pub answers : List (Option Listing)
  pub sent : List Command

-- A function that sends commands. What was sent stays sent when it raises.
abbrev pub Tool : Type 0 → Type 0
Tool A = Router → Result Refused A × Router

module _ {A : Type 0} where
  unfoldable pub give : Result Refused A → Tool A
  give r router = (r, router)

module _ {A B : Type 0} where
  abbrev pub continue : Result Refused A × Router → (A → Tool B) → Result Refused B × Router
  continue (ok a, router) f = f a router
  continue (err e, router) f = (err e, router)

  -- `except Refused: on_error; raise`
  unfoldable pub on_refused : Tool A → Tool B → Tool A
  on_refused m cleanup router =
      let run = m router in
      let cleaned = cleanup run.1 in elim run.0 [ ok a ↦ run | err e ↦ (err e, cleaned.1) ]

  infixl 5 ◌>>>=◌
  unfoldable pub ◌>>>=◌ : Tool A → (A → Tool B) → Tool B
  ◌>>>=◌ m f router = continue (m router) f

unfoldable pub command : Command → Tool Listing
command c router = elim router.answers [
  | [] ↦ (err command_unavailable, record router { sent = router.sent ++ (c ∷ []) })
  | answer ∷ others ↦
      let router' : Router = record { answers = others; sent = router.sent ++ (c ∷ []) } in
      elim answer [ none ↦ (err command_unavailable, router') | some l ↦ (ok l, router') ]
]

-- `router_mapping(command(["upnpc", "-l"]))`
unfoldable pub current_mapping : Tool (Option Host)
current_mapping = command list >>>= λ l. give (router_mapping l)

-- `if b: raise e`
unfoldable pub refuse_if : Bool → Refused → Tool (Unit {0})
refuse_if b e = give (require (not b) e)

-- `current and current != target`
unfoldable pub replaces : Option Host → Host → Bool
replaces none target = false
replaces (some owner) target = not (same_host owner target)

-- The host that the rollback adds again.
unfoldable pub roll_back : Option Host → Host → Tool (Unit {0})
roll_back none target = give (ok tt)
roll_back (some owner) target =
    if same_host owner target then give (ok tt) else command (add owner) >>>= λ _. give (ok tt)

unfoldable pub remove_old : Tool (Unit {0})
remove_old = command delete >>>= λ _. current_mapping >>>= λ left.
    refuse_if (elim left [ none ↦ false | some owner ↦ true ]) mapping_kept

unfoldable pub add_new : Host → Tool (Unit {0})
add_new target = command (add target) >>>= λ _.
    current_mapping >>>= λ now. refuse_if (not (maps_to now target)) mapping_unconfirmed

unfoldable pub set_mapping : Host → Option Host → Tool (Unit {0})
set_mapping target current =
    (if replaces current target then remove_old else give (ok tt)) >>>= λ _.
    on_refused (add_new target) (roll_back current target)

-- What `main` observes besides the router.
pub record Checks : Type 0 where
  pub primary : Bool
  pub standby : Bool
  pub listener : Bool

-- What `main` prints: the action and the count of failures.
pub record Report : Type 0 where
  pub action : Action
  pub failures : ℕ

-- `0 if primary else load_failures(...) + 1`
unfoldable pub next_failures : Bool → StateFile → Result Refused ℕ
next_failures true file = ok 0
next_failures false file = do count ← load_failures file; ok (count + 1)

-- The mapping that the action asks for.
unfoldable pub apply_action : Action → Option Host → Tool (Unit {0})
apply_action restore_primary mapping = set_mapping xavier mapping
apply_action take_over mapping = set_mapping gad mapping
apply_action renew_standby mapping = set_mapping gad mapping
apply_action _ mapping = give (ok tt)

-- From the mapping to the action. The checks on the standby and on the listener are not run before
-- three failures; `decide` does not look at them then.
unfoldable pub plan :
    Checks → StateFile → Result Refused (Option Host) → Result Refused (Option Host × Report)
plan checks file mapping = do
  owner ← mapping
  failures ← next_failures checks.primary file
  action ← decide checks.primary checks.standby failures owner checks.listener
  ok (owner, record { action = action; failures = failures })

abbrev pub Outcome : Type 0
Outcome = Result Refused Report × Router × StateFile

-- `if args.apply: ...`
unfoldable pub carry_out : Bool → Bool → Option Host × Report → StateFile → Router → Outcome
carry_out apply allowed (owner, report) file router =
    let (done, after) = apply_action report.action owner router in
    if not apply
    then (ok report, router, file)
    else elim (require_cutover_opt_in report.action allowed) [
      | err e ↦ (err e, router, file)
      | ok _ ↦ (done >> ok report, after, save_failures report.failures)
    ]

-- What follows the decision.
abbrev pub decided :
    Bool → Bool → StateFile → Router → Result Refused (Option Host × Report) → Outcome
decided apply allowed file router (err e) = (err e, router, file)
decided apply allowed file router (ok planned) = carry_out apply allowed planned file router

-- The body of `main` under its lock. The state file comes back as it is left behind.
unfoldable pub main_run : Bool → Bool → Checks → StateFile → Router → Outcome
main_run apply allowed checks file router =
    let (mapping, after) = current_mapping router in
    decided apply allowed file after (plan checks file mapping)
