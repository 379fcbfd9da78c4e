-- ===== src/Ship/Once/Steps.antt =====
-- The steps of a shipping round, each with the checkpoint behind it.
use yataverse_distribution.Prelude.{
  arith, ℕ, ◌+◌, ◌≡◌, refl, ◌∙◌, true, none, Bool-cases, inl, inr, ◌&&◌, sym, ap, subst, Option,
  some, List, String, Bytes, ok,
}
use yataverse_distribution.Prelude.Actions.{
  Action, Keeps, lift-Keeps, give-Keeps, current-Keeps, bind-Keeps, ◌>>=◌, >>=-eq_ok, ensure-eq_ok,
  lift, give, ensure, change, then-at,
}
use yataverse_distribution.Json.{Json, Dict, lookup, is_number, is_text}
use yataverse_distribution.Ship.{
  ShipError, import_differs, no_archive, Skipped, Reason, verified_raw_block_store,
  oversized_for_car,
}
use yataverse_distribution.Ship.Checks.{
  Args, last_receipt, confirms_import, check_large, large_archive_receipt_matches, same_size,
}
use yataverse_distribution.Ship.Once.{
  Hosts, World, run, save, verify_reason, verify_skipped, verify_remote_large_archive, skip_row,
  imported_car, finish, ship_range, skip_record, ship_record,
}
use yataverse_distribution.Ship.Once.Keeps.{
  run-Keeps, verify_skipped-Keeps, save_skip-Keeps, export-Keeps, transport-Keeps, unpack-Keeps,
  imported_car-Keeps, clean-Keeps, unlink_archive-Keeps, compression-Keeps,
}
use yataverse_distribution.Ship.Once.Moves.{
  Confirmed, Verified, by_store, by_archive, Advances, unchanged,
}

module _ (loads : Bytes → Option Dict) (loads_text : List ℕ → Option Dict)
    (loads_large : List ℕ → Option (Option Dict × Option Json)) (hexdigest : Bytes → String)
    (hosts : Hosts) (args : Args) (lines : List Bytes) where
  module _ (c : Option Dict) where
    unfoldable pub K : World hosts.Remote → Type 0
    K w = w.checkpoint ≡ c

    unfoldable pub P : World hosts.Remote → Type 0
    P w = Advances loads loads_text loads_large hexdigest hosts args lines c w.checkpoint

    pub stay : (w : World hosts.Remote) → K w → P w
    unfolding K P
    stay w k =
        subst (Advances loads loads_text loads_large hexdigest hosts args lines c) (sym k) unchanged

    pub K-same : (w w' : World hosts.Remote) → w'.checkpoint ≡ w.checkpoint → K w → K w'
    unfolding K
    K-same w w' e k = cc

    pub P-same : (w w' : World hosts.Remote) → w'.checkpoint ≡ w.checkpoint → P w → P w'
    unfolding P
    P-same w w' e p =
        subst (Advances loads loads_text loads_large hexdigest hosts args lines c) (sym e) p

    imported_car-Confirmed :
        (start blocks : ℕ) (car_sha256 : String) (imported : Dict) (w w' : World hosts.Remote)
        → imported_car loads loads_text loads_large hexdigest hosts args lines start
            (start + blocks)
            blocks
            car_sha256
            w
          ≡ (ok imported, w')
        → Confirmed loads loads_text loads_large hexdigest hosts args lines start blocks car_sha256
    unfolding imported_car run lift
    imported_car-Confirmed start blocks car_sha256 imported w w' h =
        let (output, w1, e1, h1) =
          >>=-eq_ok
            (run loads loads_text loads_large hexdigest hosts args lines
              (hosts.import_car start (start + blocks) car_sha256))
            _ w w' imported h in
        let (parsed, w2, e2, h2) =
          >>=-eq_ok (lift (last_receipt loads_text output)) _ w1 w' imported h1 in
        let (checked, w3, e3, h3) =
          >>=-eq_ok
            (ensure (confirms_import start (start + blocks) blocks car_sha256 parsed)
              import_differs)
            _ w2 w' imported h2 in
        record {
          before = w.remote;
          after = (hosts.import_car start (start + blocks) car_sha256 w.remote).1;
          output = output;
          imported = parsed;
          answer =
              ap (λ r. (r, (hosts.import_car start (start + blocks) car_sha256 w.remote).1))
                (ap (λ r. r.0) e1);
          parsed = ap (λ r. r.0) e2;
          confirms = (ensure-eq_ok _ _ _ _ e3).0;
        }

    pub save-Advances :
        {B : Type 0} (state : Dict) (f : Unit {0} → Action ShipError (World hosts.Remote) B)
        (w : World hosts.Remote)
        → Advances loads loads_text loads_large hexdigest hosts args lines c (some state)
        → ((a : Unit {0}) → Keeps P (f a))
        → P ((save loads loads_text loads_large hexdigest hosts args lines (some state) >>= f) w).1
    unfolding save change ◌>>=◌ P
    save-Advances state f w now later = (later tt).at (record w { checkpoint = some state }) now

    check_large-eq_ok :
        (s : Skipped) (sha256 : String) (receipt : Option Dict) (size : Option Json)
        → check_large s sha256 (receipt, size) ≡ ok tt
        → (d : Dict) × (receipt ≡ some d)
          × (is_number s.row (lookup "row" d) ≡ true)
          × (is_text sha256 (lookup "inventory_sha256" d) ≡ true)
          × (is_text s.item.cid (lookup "original_cid" d) ≡ true)
          × (is_number s.item.size (lookup "original_bytes" d) ≡ true)
          × (same_size (lookup "car_bytes" d) size ≡ true)
    unfolding check_large large_archive_receipt_matches
    check_large-eq_ok s sha256 none size h = cc
    check_large-eq_ok s sha256 (some d) size h =
        elim (Bool-cases
          (large_archive_receipt_matches d s sha256 && same_size (lookup "car_bytes" d) size)) [
            | inr bad ↦ cc (rw bad at h)
            | inl good ↦ (
              d,
              refl,
              ground (arith, good),
              ground (arith, good),
              ground (arith, good),
              ground (arith, good),
              ground (arith, good),
            )
          ]

    verify_reason-Verified :
        (r : Reason) (s : Skipped) (w w' : World hosts.Remote)
        → s.reason ≡ r
        → verify_reason loads loads_text loads_large hexdigest hosts args lines r s w ≡ (ok tt, w')
        → Verified loads loads_text loads_large hexdigest hosts args lines s
    unfolding verify_reason verify_remote_large_archive run lift
    verify_reason-Verified verified_raw_block_store s w w' e h =
        let after = (hosts.verify_raw s.item w.remote).1 in
        by_store w.remote after (ap (λ r. (r, after)) (ap (λ r. r.0) h)) e
    verify_reason-Verified oversized_for_car s w w' e h =
        let (_, w1, e1, h1) = >>=-eq_ok (ensure args.has_large_archive no_archive) _ w w' tt h in
        let (output, w2, e2, h2) =
          >>=-eq_ok
            (run loads loads_text loads_large hexdigest hosts args lines
              (hosts.large_archive s.row))
            _ w1 w' tt h1 in
        let (result, w3, e3, h3) =
          >>=-eq_ok (lift (last_receipt loads_large output)) _ w2 w' tt h2 in
        let after = (hosts.large_archive s.row w1.remote).1 in
        let (d, is, row, inventory, cid, size, disk) =
          check_large-eq_ok s args.sha256 result.0 result.1 (ap (λ r. r.0) h3) in
        by_archive
          (record {
            before = w1.remote;
            after = after;
            output = output;
            receipt = d;
            size = result.1;
            answer = ap (λ r. (r, after)) (ap (λ r. r.0) e2);
            parsed = ap (λ r. r.0) e3 ∙ ap (λ r. ok (r, result.1)) is;
            names_row = row;
            names_inventory = inventory;
            names_cid = cid;
            names_size = size;
            on_disk = disk;
          })
          e

    pub skip_row-Advances :
        (start : ℕ) (s : Skipped) (w : World hosts.Remote)
        → K w
        → (Verified loads loads_text loads_large hexdigest hosts args lines s
            → Advances loads loads_text loads_large hexdigest hosts args lines c
                (some (skip_record args.sha256 (start + 1))))
        → P (skip_row loads loads_text loads_large hexdigest hosts args lines start s w).1
    unfolding skip_row verify_skipped save change give
    skip_row-Advances start s w k found =
        then-at K P _ _ w
          (verify_skipped-Keeps loads loads_text loads_large hexdigest hosts args lines K K-same s)
          k stay
          λ _ w1 e1 k1. then-at K P _ _ w1 (current-Keeps K) k1 stay λ now w2 e2 k2.
            then-at K P _ _ w2
              (save_skip-Keeps loads loads_text loads_large hexdigest hosts args lines K K-same
                start s _)
              k2 stay
              λ _ w3 e3 k3.
                save-Advances _ _ w3 (found (verify_reason-Verified s.reason s w w1 refl e1))
                  λ _. give-Keeps P _

    finish-Advances :
        (start end : ℕ) (car_sha256 : String) (archive : Option Dict) (imported : Dict)
        (w : World hosts.Remote)
        → K w
        → ((root : Json)
            → Advances loads loads_text loads_large hexdigest hosts args lines c
                (some (ship_record args.sha256 end root car_sha256 archive)))
        → P
            (finish loads loads_text loads_large hexdigest hosts args lines start end car_sha256
              archive imported w).1
    unfolding finish
    finish-Advances start end car_sha256 archive imported w k found =
        then-at K P _ _ w
          (clean-Keeps loads loads_text loads_large hexdigest hosts args lines K K-same start end) k
          stay
          λ _ w1 e1 k1. then-at K P _ _ w1 (lift-Keeps K _) k1 stay λ root w2 e2 k2.
            save-Advances _ _ w2 (found root) λ _.
              bind-Keeps P _ _
                (run-Keeps loads loads_text loads_large hexdigest hosts args lines P P-same _)
                λ _. bind-Keeps P _ _ (current-Keeps P) λ now.
                  bind-Keeps P _ _
                    (unlink_archive-Keeps loads loads_text loads_large hexdigest hosts args lines P
                      P-same start end _)
                    λ _.
                      bind-Keeps P _ _
                        (compression-Keeps loads loads_text loads_large hexdigest hosts args lines P
                          P-same archive)
                        λ made. give-Keeps P _

    pub ship_range-Advances :
        (start blocks : ℕ) (w : World hosts.Remote)
        → K w
        → ((root : Json) (car_sha256 : String) (archive : Option Dict)
            → Confirmed loads loads_text loads_large hexdigest hosts args lines start blocks
                car_sha256
            → Advances loads loads_text loads_large hexdigest hosts args lines c
                (some (ship_record args.sha256 (start + blocks) root car_sha256 archive)))
        → P
            (ship_range loads loads_text loads_large hexdigest hosts args lines start
              (start + blocks)
              blocks
              w).1
    unfolding ship_range
    ship_range-Advances start blocks w k found =
        then-at K P _ _ w (current-Keeps K) k stay λ now w1 e1 k1.
          then-at K P _ _ w1
            (export-Keeps loads loads_text loads_large hexdigest hosts args lines K K-same start
              (start + blocks) blocks _)
            k1 stay
            λ exported w2 e2 k2.
              then-at K P _ _ w2
                (transport-Keeps loads loads_text loads_large hexdigest hosts args lines K K-same
                  start (start + blocks) blocks exported)
                k2 stay
                λ carried w3 e3 k3.
                  then-at K P _ _ w3
                    (run-Keeps loads loads_text loads_large hexdigest hosts args lines K K-same _)
                    k3 stay
                    λ _ w4 e4 k4.
                      then-at K P _ _ w4
                        (unpack-Keeps loads loads_text loads_large hexdigest hosts args lines K
                          K-same start (start + blocks) blocks carried.1)
                        k4 stay
                        λ _ w5 e5 k5.
                          then-at K P _ _ w5
                            (imported_car-Keeps loads loads_text loads_large hexdigest hosts args
                              lines K K-same start (start + blocks) blocks carried.0)
                            k5 stay
                            λ imported w6 e6 k6.
                              finish-Advances start (start + blocks) carried.0 carried.1 imported w6
                                k6
                                λ root.
                                  found root carried.0 carried.1 (
                                    imported_car-Confirmed start blocks carried.0 imported w5 w6 e6)
