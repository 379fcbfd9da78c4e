-- ===== src/Ship/Once/Evidence.antt =====
-- What stands behind the checkpoint of a shipping round.
use yataverse_distribution.Prelude.{
  ℕ, ◌+◌, ◌-◌, ◌==◌, ◌≡◌, ◌≤◌, inl, inr, refl, sym, ap, ◌∙◌, subst, ◌&&◌, Option, none, some, List,
  String, length, min, leb, ltb, Bytes, Result, ok, Result-cases, Bool-cases, ok_inj, arith,
  if◌then◌else◌,
}
use yataverse_distribution.Prelude.Actions.{
  lift-Keeps, current-Keeps, current-eq_ok, give, current, lift-eq_ok, then-at,
}
use yataverse_distribution.Json.{Json, Dict, is_sha256}
use yataverse_distribution.Inventory.{Item}
use yataverse_distribution.Ship.{ShipError, Skipped}
use yataverse_distribution.Ship.Rows.{
  Chosen, chosen_range, chosen_skip, chosen_end, selected_rows-Chosen,
}
use yataverse_distribution.Ship.Checks.{Args, stop_of, check_args, raw_cids_of, start_of, cursor_of}
use yataverse_distribution.Ship.Once.{Hosts, World, complete, ship_selected, ship_from, ship_once}
use yataverse_distribution.Ship.Once.Moves.{Advances, skip, ship}
use yataverse_distribution.Ship.Once.Steps as Steps
use yataverse_distribution.Ship.Once.Steps.{skip_row-Advances, ship_range-Advances}

module _ (loads : Bytes → Option Dict) (loads_text : List ℕ → Option Dict)
    (loads_large : List ℕ → Option (Option Dict × Option Json)) (hexdigest : Bytes → String)
    (hosts : Hosts) (args : Args) (lines : List Bytes) where
  check_args-stop : check_args args ≡ ok tt → stop_of args ≤ args.count
  unfolding check_args
  check_args-stop h =
      elim (Bool-cases (
        is_sha256 args.sha256
        && leb 1 args.count
        && ltb args.start_row (stop_of args)
        && leb (stop_of args) args.count)) [
          | inl good ↦ ground (arith, good)
          | inr bad ↦ cc (rw bad at h)
        ]

  Chosen-length :
      (start : ℕ) (raw_cids : List String) (rows : List Item) (skipped : Option Skipped)
      → skipped ≡ none
      → start + 1 ≤ length lines
      → start + 1 ≤ stop_of args
      → Chosen loads hexdigest lines raw_cids start
          (min args.max_blocks (stop_of args - start))
          args.max_bytes
          rows
          skipped
      → (1 ≤ length rows) × (start + length rows ≤ stop_of args)
  Chosen-length start raw_cids rows skipped e inside before (chosen_range p some_rows r) =
      (some_rows, omega (arith, before, r.blocks))
  Chosen-length start raw_cids rows skipped e inside before (chosen_skip s j) = cc
  Chosen-length start raw_cids rows skipped e inside before (chosen_end past) =
      omega (arith, inside, past)

  module _ (c : Option Dict) where
    abbrev K : World hosts.Remote → Type 0
    K = Steps.K loads loads_text loads_large hexdigest hosts args lines c

    abbrev P : World hosts.Remote → Type 0
    P = Steps.P loads loads_text loads_large hexdigest hosts args lines c

    stay : (w : World hosts.Remote) → K w → P w
    stay = Steps.stay loads loads_text loads_large hexdigest hosts args lines c

    ship_selected-Advances :
        (start : ℕ) (raw_cids : List String) (rows : List Item) (skipped : Option Skipped)
        (w : World hosts.Remote)
        → K w
        → start_of args c ≡ ok start
        → raw_cids_of args args.raw_cids_file ≡ ok raw_cids
        → start + 1 ≤ length lines
        → start + 1 ≤ stop_of args
        → Chosen loads hexdigest lines raw_cids start
            (min args.max_blocks (stop_of args - start))
            args.max_bytes
            rows
            skipped
        → P
            (ship_selected loads loads_text loads_large hexdigest hosts args lines start rows
              skipped w).1
    unfolding ship_selected
    ship_selected-Advances start raw_cids rows none w k at raw inside before chosen =
        let (some_rows, within) =
          Chosen-length start raw_cids rows none refl inside before chosen in
        ship_range-Advances loads loads_text loads_large hexdigest hosts args lines c start
          (length rows) w k
          λ root car_sha256 archive confirmed.
            ship start raw_cids rows root car_sha256 archive at raw some_rows within chosen
              confirmed
    ship_selected-Advances start raw_cids rows (some s) w k at raw inside before chosen =
        skip_row-Advances loads loads_text loads_large hexdigest hosts args lines c start s w k
          λ verified. skip start raw_cids rows s at raw before chosen verified

    ship_from-Advances :
        (start : ℕ) (raw_cids : List String) (w : World hosts.Remote)
        → K w
        → start_of args c ≡ ok start
        → raw_cids_of args args.raw_cids_file ≡ ok raw_cids
        → stop_of args ≤ args.count
        → start + 1 ≤ stop_of args
        → P (ship_from loads loads_text loads_large hexdigest hosts args lines start raw_cids w).1
    unfolding ship_from
    ship_from-Advances start raw_cids w k at raw bounded before =
        then-at K P _ _ w (lift-Keeps K _) k stay λ chosen w1 e1 k1.
          let (counted, is_chosen) =
            selected_rows-Chosen loads hexdigest lines raw_cids start
              (min args.max_blocks (stop_of args - start)) args.max_bytes args.sha256 args.count
              chosen.0 chosen.1 (lift-eq_ok _ _ _ _ e1) in
          ship_selected-Advances start raw_cids chosen.0 chosen.1 w1 k1 at raw
            (omega (arith, counted, bounded, before)) before is_chosen

    start_at :
        (w now w' : World hosts.Remote) (start : ℕ)
        → K w
        → ◌≡◌ {A = Result ShipError (World hosts.Remote) × World hosts.Remote}
            (current w)
            (ok now, w')
        → start_of args now.checkpoint ≡ ok start
        → start_of args c ≡ ok start
    unfolding Steps.K
    start_at w now w' start k e h =
        let (same, moved) = current-eq_ok w now w' e in
        subst (λ state. start_of args state ≡ ok start) (ap (λ v. v.checkpoint) (sym same) ∙ k) h

    start_of-stop : (start : ℕ) → start_of args c ≡ ok start → start ≤ stop_of args
    unfolding start_of
    start_of-stop start h = elim (Result-cases (cursor_of args c)) [
      | inr (x, bad) ↦ cc (rw bad at h)
      | inl (cursor, is) ↦ elim (Bool-cases (leb cursor (stop_of args))) [
        | inl good ↦
            subst (λ n. n ≤ stop_of args) (ok_inj (rw (is, good) at h)) (ground (arith, good))
        | inr bad ↦ cc (rw (is, bad) at h)
      ]
    ]

    course-Advances :
        (start : ℕ) (raw_cids : List String) (w : World hosts.Remote)
        → K w
        → start_of args c ≡ ok start
        → raw_cids_of args args.raw_cids_file ≡ ok raw_cids
        → stop_of args ≤ args.count
        → P
            ((if start == stop_of args
                then give (complete start)
                else ship_from loads loads_text loads_large hexdigest hosts args lines start
                    raw_cids)
              w).1
    unfolding give
    course-Advances start raw_cids w k at raw bounded = elim (Bool-cases (start == stop_of args)) [
      | inl done ↦ rw done (stay w k)
      | inr more ↦ rw more (
          ship_from-Advances start raw_cids w k at raw bounded
            (ground (arith, more, start_of-stop start at)))
    ]

  -- A round, however it ends, leaves the checkpoint as it was, or moves it by one row behind a
  -- skipped row, whose block the raw store has verified or whose receipt the archive has answered
  -- with, or behind the chosen rows, which the importer has confirmed, never past the stop row.
  pub ship_once-Advances :
      (w : World hosts.Remote)
      → Advances loads loads_text loads_large hexdigest hosts args lines w.checkpoint
          (ship_once loads loads_text loads_large hexdigest hosts args lines w).1.checkpoint
  unfolding ship_once Steps.P Steps.K
  ship_once-Advances w =
      let c = w.checkpoint in
      then-at (K c) (P c) _ _ w (lift-Keeps (K c) _) refl (stay c) λ a w1 e1 k1.
        then-at (K c) (P c) _ _ w1 (lift-Keeps (K c) _) k1 (stay c) λ raw_cids w2 e2 k2.
          then-at (K c) (P c) _ _ w2 (current-Keeps (K c)) k2 (stay c) λ now w3 e3 k3.
            then-at (K c) (P c) _ _ w3 (lift-Keeps (K c) _) k3 (stay c) λ start w4 e4 k4.
              course-Advances c start raw_cids w4 k4
                (start_at c w2 now w3 start k2 e3 (lift-eq_ok _ _ _ _ e4)) (lift-eq_ok _ _ _ _ e2)
                (check_args-stop (lift-eq_ok _ _ _ _ e1))
