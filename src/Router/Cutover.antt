-- ===== src/Router/Cutover.antt =====
-- What the commands of a cutover do to the mapping.
use yataverse_distribution.Prelude.{
  ◌≡◌, refl, sym, ap, ap₂, ◌∙◌, append_assoc, append-nil, if◌then◌else◌, Bool, true, false, Option,
  none, some, Result, ok, err, arith, List, [], ◌∷◌, ◌++◌,
}
use yataverse_distribution.Router.{
  Host, Listing, Router, Refused, Command, delete, list, add, Tool, set_mapping, remove_old,
  add_new, roll_back, replaces, on_refused, ◌>>>=◌, give, command, current_mapping, refuse_if,
  continue, mapping_unconfirmed, same_host, maps_to, mapping_kept, router_mapping,
}

module _ {A B : Type 0} where
  >>>=-eq_ok :
      (m : Tool A) (f : A → Tool B) (router router' : Router) (b : B)
      → (m >>>= f) router ≡ (ok b, router')
      → (a : A) × (between : Router) × (m router ≡ (ok a, between))
        × (f a between ≡ (ok b, router'))
  unfolding ◌>>>=◌
  >>>=-eq_ok m f router router' b h = go (m router) refl h
    where
      go :
          (r : Result Refused A × Router)
          → m router ≡ r
          → continue r f ≡ (ok b, router')
          → (a : A) × (between : Router) × (m router ≡ (ok a, between))
            × (f a between ≡ (ok b, router'))
      go (ok a, between) e h = (a, between, e, h)
      go (err x, between) e h = cc

  on_refused-eq_ok :
      (m : Tool A) (cleanup : Tool B) (router router' : Router) (a : A)
      → on_refused m cleanup router ≡ (ok a, router')
      → m router ≡ (ok a, router')
  unfolding on_refused
  on_refused-eq_ok m cleanup router router' a h = go (m router) refl h
    where
      go :
          (r : Result Refused A × Router)
          → m router ≡ r
          → elim r.0 [ ok x ↦ r | err e ↦ (err e, (cleanup r.1).1) ] ≡ (ok a, router')
          → m router ≡ (ok a, router')
      go (ok x, between) e h = e ∙ h
      go (err x, between) e h = cc

  on_refused-eq_err :
      (m : Tool A) (cleanup : Tool B) (router failed : Router) (e : Refused)
      → m router ≡ (err e, failed)
      → on_refused m cleanup router ≡ (err e, (cleanup failed).1)
  unfolding on_refused
  on_refused-eq_err m cleanup router failed e h =
      rw (h, on_refused) (ap (λ r. (err e, (cleanup r.1).1)) h)

refuse_if-eq_ok :
    (b : Bool) (e : Refused) (router router' : Router)
    → refuse_if b e router ≡ (ok tt, router')
    → (b ≡ false) × (router ≡ router')
unfolding refuse_if give
refuse_if-eq_ok false e router router' h = (refl, ap (λ r. r.1) h)
refuse_if-eq_ok true e router router' h = cc

-- The owner of the mapping when each of these commands has taken effect.
unfoldable pub owner_after : List Command → Option Host → Option Host
owner_after [] owner = owner
owner_after (delete ∷ sent) owner = owner_after sent none
owner_after (list ∷ sent) owner = owner_after sent owner
owner_after (add host ∷ sent) owner = owner_after sent (some host)

-- However `remove_old` ends, the commands that it has sent leave no owner.
remove_old-sent :
    (answers : List (Option Listing)) (sent : List Command) (owner : Option Host)
    → (more : List Command) × ((remove_old (record { answers = answers; sent = sent })).1.sent
        ≡ sent ++ more)
      × (owner_after more owner ≡ none)
unfolding remove_old ◌>>>=◌ command current_mapping give refuse_if owner_after
remove_old-sent [] sent owner = (delete ∷ [], refl, refl)
remove_old-sent (none ∷ answers) sent owner = (delete ∷ [], refl, refl)
remove_old-sent (some l ∷ []) sent owner =
    (delete ∷ list ∷ [], append_assoc sent (delete ∷ []) (list ∷ []), refl)
remove_old-sent (some l ∷ none ∷ answers) sent owner =
    (delete ∷ list ∷ [], append_assoc sent (delete ∷ []) (list ∷ []), refl)
remove_old-sent (some l ∷ some l' ∷ answers) sent owner = (
  delete ∷ list ∷ [],
  listed (router_mapping l') refl ∙ append_assoc sent (delete ∷ []) (list ∷ []),
  refl,
)
  where
    listed :
        (r : Result Refused (Option Host))
        → router_mapping l' ≡ r
        → (remove_old (record { answers = some l ∷ some l' ∷ answers; sent = sent })).1.sent
          ≡ (sent ++ (delete ∷ [])) ++ (list ∷ [])
    listed (err e) is = rw is refl
    listed (ok now) is = rw is refl

-- When the removal of the old mapping fails behind the delete, for example at the listing that is
-- to confirm it, the tool raises that failure and sends no further command. If the commands that it
-- has sent took effect, the mapping has no owner then.
pub set_mapping-strands :
    (owner target : Host) (router failed : Router) (e : Refused)
    → same_host owner target ≡ false
    → remove_old router ≡ (err e, failed)
    → (set_mapping target (some owner) router ≡ (err e, failed))
      × (more : List Command) × (failed.sent ≡ router.sent ++ more)
      × (owner_after more (some owner) ≡ none)
unfolding set_mapping
set_mapping-strands owner target router failed e other failure =
    let (more, sent, gone) = remove_old-sent router.answers router.sent (some owner) in
    (
      unfold replaces ◌>>>=◌ in rw (other, failure) refl,
      more,
      ap (λ r. r.1.sent) (sym failure) ∙ sent,
      gone,
    )

-- A command that is answered takes the next answer.
command-eq_ok :
    (c : Command) (router router' : Router) (l : Listing)
    → command c router ≡ (ok l, router')
    → (router.answers ≡ some l ∷ router'.answers) × (router'.sent ≡ router.sent ++ (c ∷ []))
unfolding command
command-eq_ok c router router' l h = go router.answers refl
  where
    go :
        (answers : List (Option Listing))
        → router.answers ≡ answers
        → (router.answers ≡ some l ∷ router'.answers) × (router'.sent ≡ router.sent ++ (c ∷ []))
    go [] e = cc (rw e at h)
    go (none ∷ others) e = cc (rw e at h)
    go (some m ∷ others) e =
        let run = rw e at h in
        let same : m ≡ l = cc (ap (λ r. r.0) run) in
        let left : others ≡ router'.answers = ap (λ r. r.1.answers) run in
        (e ∙ ap₂ (λ x xs. some x ∷ xs) same left, sym (ap (λ r. r.1.sent) run))

current_mapping-eq_ok :
    (router router' : Router) (now : Option Host)
    → current_mapping router ≡ (ok now, router')
    → (l : Listing) × (router.answers ≡ some l ∷ router'.answers)
      × (router'.sent ≡ router.sent ++ (list ∷ []))
      × (router_mapping l ≡ ok now)
unfolding current_mapping give
current_mapping-eq_ok router router' now h =
    let (l, between, listed, h1) = >>>=-eq_ok (command list) _ router router' now h in
    let (answers, sent) = command-eq_ok list router between l listed in
    let same = ap (λ r. r.1) h1 in
    (
      l,
      answers ∙ ap (λ (r : Router). some l ∷ r.answers) same,
      ap (λ (r : Router). r.sent) (sym same) ∙ sent,
      ap (λ r. r.0) h1,
    )

-- What was answered and sent between two states of the router.
record Between (router router' : Router) : Type 0 where
  used : List (Option Listing)
  more : List Command
  answers : router.answers ≡ used ++ router'.answers
  sent : router'.sent ≡ router.sent ++ more

removed-Between :
    (replaced : Bool) (router cleared : Router)
    → (if replaced then remove_old else give (ok tt)) router ≡ (ok tt, cleared)
    → Between router cleared
unfolding remove_old give
removed-Between false router cleared h =
    let same = ap (λ r. r.1) h in
    record {
      used = [];
      more = [];
      answers = ap (λ (r : Router). r.answers) same;
      sent = ap (λ (r : Router). r.sent) (sym same) ∙ sym (append-nil router.sent);
    }
removed-Between true router cleared h =
    let (l, r1, deleted, h1) = >>>=-eq_ok (command delete) _ router cleared tt h in
    let (left, r2, listed, h2) = >>>=-eq_ok current_mapping _ r1 cleared tt h1 in
    let (a1, s1) = command-eq_ok delete router r1 l deleted in
    let (l', a2, s2, _) = current_mapping-eq_ok r1 r2 left listed in
    let (_, same) = refuse_if-eq_ok _ mapping_kept r2 cleared h2 in
    record {
      used = some l ∷ some l' ∷ [];
      more = delete ∷ list ∷ [];
      answers = rw (a1, a2, same) refl;
      sent = rw (← same, s2, s1) (append_assoc router.sent (delete ∷ []) (list ∷ []));
    }

-- A replacement that ends well has sent, last of all, the command that adds the new owner and a
-- listing. The listing's answer, the last one that the router gave, shows the new owner.
pub set_mapping-confirmed :
    (target : Host) (current : Option Host) (router router' : Router)
    → set_mapping target current router ≡ (ok tt, router')
    → (used : List (Option Listing)) × (more : List Command) × (added shown : Listing)
      × (now : Option Host) × (router.answers ≡ used ++ (some added ∷ some shown ∷ router'.answers))
      × (router'.sent ≡ router.sent ++ (more ++ (add target ∷ list ∷ [])))
      × (router_mapping shown ≡ ok now)
      × (maps_to now target ≡ true)
unfolding set_mapping add_new
set_mapping-confirmed target current router router' h =
    let (_, cleared, first, h1) = >>>=-eq_ok _ _ router router' tt h in
    let h2 = on_refused-eq_ok (add_new target) (roll_back current target) cleared router' tt h1 in
    let b = removed-Between (replaces current target) router cleared first in
    let (added, r1, adds, h3) = >>>=-eq_ok (command (add target)) _ cleared router' tt h2 in
    let (now, r2, listed, h4) = >>>=-eq_ok current_mapping _ r1 router' tt h3 in
    let (shows, same) = refuse_if-eq_ok _ mapping_unconfirmed r2 router' h4 in
    let (a1, s1) = command-eq_ok (add target) cleared r1 added adds in
    let (shown, a2, s2, is) = current_mapping-eq_ok r1 r2 now listed in
    (
      b.used,
      b.more,
      added,
      shown,
      now,
      b.answers
          ∙ ap (λ xs. b.used ++ xs)
              (a1
                ∙ ap (λ xs. some added ∷ xs)
                    (a2 ∙ ap (λ (r : Router). some shown ∷ r.answers) same)),
      rw (← same, s2, s1, b.sent) (simp append_assoc),
      is,
      ground (arith, shows),
    )

-- When the old mapping was removed and the new one fails, the tool raises that failure, and the
-- last command that it sends adds the old mapping again.
pub set_mapping-rolls_back :
    (owner target : Host) (router cleared failed : Router) (e : Refused)
    → same_host owner target ≡ false
    → remove_old router ≡ (ok tt, cleared)
    → add_new target cleared ≡ (err e, failed)
    → ((set_mapping target (some owner) router).0 ≡ err e)
      × ((set_mapping target (some owner) router).1.sent ≡ failed.sent ++ (add owner ∷ []))
unfolding set_mapping
set_mapping-rolls_back owner target router cleared failed e other removed failure =
    let run : set_mapping target (some owner) router
        ≡ (err e, (roll_back (some owner) target failed).1) =
      started
      ∙ on_refused-eq_err (add_new target) (roll_back (some owner) target) cleared failed e
          failure in
    (ap (λ r. r.0) run, ap (λ r. r.1.sent) run ∙ last failed.answers failed.sent)
  where
    started :
        set_mapping target (some owner) router
        ≡ on_refused (add_new target) (roll_back (some owner) target) cleared
    started = unfold replaces ◌>>>=◌ in rw (other, removed) refl

    last :
        (answers : List (Option Listing)) (sent : List Command)
        → (roll_back (some owner) target (record { answers = answers; sent = sent })).1.sent
          ≡ sent ++ (add owner ∷ [])
    last [] sent = unfold roll_back command ◌>>>=◌ give in rw other refl
    last (none ∷ answers) sent = unfold roll_back command ◌>>>=◌ give in rw other refl
    last (some l ∷ answers) sent = unfold roll_back command ◌>>>=◌ give in rw other refl
