-- ===== src/Ship/Once/Keeps.antt =====
-- The steps of a shipping round that do not save the checkpoint.
use yataverse_distribution.Prelude.{ℕ, ◌≡◌, refl, Option, none, some, List, ◌∷◌, String, Bytes}
use yataverse_distribution.Prelude.Actions.{
  Action, Keeps, lift-Keeps, give-Keeps, current-Keeps, ensure-Keeps, change-Keeps, bind-Keeps,
  if-Keeps,
}
use yataverse_distribution.Json.{Json, Dict}
use yataverse_distribution.Ship.{
  ShipError, Skipped, Reason, verified_raw_block_store, oversized_for_car,
}
use yataverse_distribution.Ship.Checks.{Args}
use yataverse_distribution.Ship.Once.{
  Hosts, World, run, verify_remote_large_archive, verify_reason, verify_skipped, save_skip,
  export_remote, export_local, new_export, export, pack_transport_archive, transport,
  unpack_remote_archive, imported_car, clean, unlink_archive, compression,
}

module _ (loads : Bytes → Option Dict) (loads_text : List ℕ → Option Dict)
    (loads_large : List ℕ → Option (Option Dict × Option Json)) (hexdigest : Bytes → String)
    (hosts : Hosts) (args : Args) (lines : List Bytes) where
  -- What depends on the checkpoint only.
  module _ (P : World hosts.Remote → Type 0)
      (same : (w w' : World hosts.Remote) → w'.checkpoint ≡ w.checkpoint → P w → P w') where
    pub run-Keeps :
        {A : Type 0} (m : Action ShipError hosts.Remote A)
        → Keeps P (run loads loads_text loads_large hexdigest hosts args lines m)
    unfolding run
    run-Keeps m = record { at = λ w p. same w (record w { remote = (m w.remote).1 }) refl p }

    verify_reason-Keeps :
        (r : Reason) (s : Skipped)
        → Keeps P (verify_reason loads loads_text loads_large hexdigest hosts args lines r s)
    unfolding verify_reason verify_remote_large_archive
    verify_reason-Keeps verified_raw_block_store s = run-Keeps _
    verify_reason-Keeps oversized_for_car s = bind-Keeps P _ _ (ensure-Keeps P _ _) λ _.
        bind-Keeps P _ _ (run-Keeps _)
          λ output. bind-Keeps P _ _ (lift-Keeps P _) λ result. lift-Keeps P _

    pub verify_skipped-Keeps :
        (s : Skipped)
        → Keeps P (verify_skipped loads loads_text loads_large hexdigest hosts args lines s)
    unfolding verify_skipped
    verify_skipped-Keeps s = verify_reason-Keeps s.reason s

    pub save_skip-Keeps :
        (start : ℕ) (s : Skipped) (saved : Option (Option Skipped))
        → Keeps P (save_skip loads loads_text loads_large hexdigest hosts args lines start s saved)
    unfolding save_skip
    save_skip-Keeps start s none =
        change-Keeps P _ λ w p. same w (record w { skips = (start, some s) ∷ w.skips }) refl p
    save_skip-Keeps start s (some saved) = ensure-Keeps P _ _

    new_export-Keeps :
        (start end blocks : ℕ)
        → Keeps P
            (new_export loads loads_text loads_large hexdigest hosts args lines start end blocks)
    unfolding new_export export_remote export_local
    new_export-Keeps start end blocks =
        bind-Keeps P _ _
          (if-Keeps P _ _ _
            (bind-Keeps P _ _ (run-Keeps _)
              λ output. bind-Keeps P _ _ (run-Keeps _) λ _. give-Keeps P _)
            (bind-Keeps P _ _ (run-Keeps _) λ _. run-Keeps _))
          λ output. bind-Keeps P _ _ (lift-Keeps P _) λ exported.
            bind-Keeps P _ _ (current-Keeps P) λ w. bind-Keeps P _ _ (ensure-Keeps P _ _) λ _.
              bind-Keeps P _ _
                (change-Keeps P _ λ w p.
                  same w (record w { exports = ((start, end), exported) ∷ w.exports }) refl p)
                λ _. give-Keeps P _

    pub export-Keeps :
        (start end blocks : ℕ) (saved : Option Dict)
        → Keeps P
            (export loads loads_text loads_large hexdigest hosts args lines start end blocks saved)
    unfolding export
    export-Keeps start end blocks none = new_export-Keeps start end blocks
    export-Keeps start end blocks (some saved) =
        bind-Keeps P _ _ (current-Keeps P)
          λ w. bind-Keeps P _ _ (ensure-Keeps P _ _) λ _. give-Keeps P _

    pub transport-Keeps :
        (start end blocks : ℕ) (exported : Dict)
        → Keeps P (
            transport loads loads_text loads_large hexdigest hosts args lines start end blocks
              exported)
    unfolding transport pack_transport_archive
    transport-Keeps start end blocks exported =
        if-Keeps P _ _ _
          (bind-Keeps P _ _
            (bind-Keeps P _ _ (run-Keeps _) λ output. bind-Keeps P _ _ (lift-Keeps P _) λ result.
              bind-Keeps P _ _ (current-Keeps P)
                λ w. bind-Keeps P _ _ (ensure-Keeps P _ _) λ _. give-Keeps P _)
            λ archive. bind-Keeps P _ _ (lift-Keeps P _) λ sha256. give-Keeps P _)
          (bind-Keeps P _ _ (lift-Keeps P _) λ sha256. give-Keeps P _)

    pub unpack-Keeps :
        (start end blocks : ℕ) (archive : Option Dict)
        → Keeps P (
            unpack_remote_archive loads loads_text loads_large hexdigest hosts args lines start end
              blocks archive)
    unfolding unpack_remote_archive
    unpack-Keeps start end blocks none = give-Keeps P _
    unpack-Keeps start end blocks (some archive) = bind-Keeps P _ _ (lift-Keeps P _) λ compressed.
        bind-Keeps P _ _ (lift-Keeps P _) λ carv2. bind-Keeps P _ _ (lift-Keeps P _) λ size.
          bind-Keeps P _ _ (run-Keeps _)
            λ output. bind-Keeps P _ _ (lift-Keeps P _) λ result. ensure-Keeps P _ _

    pub imported_car-Keeps :
        (start end blocks : ℕ) (sha256 : String)
        → Keeps P (
            imported_car loads loads_text loads_large hexdigest hosts args lines start end blocks
              sha256)
    unfolding imported_car
    imported_car-Keeps start end blocks sha256 = bind-Keeps P _ _ (run-Keeps _) λ output.
        bind-Keeps P _ _ (lift-Keeps P _)
          λ imported. bind-Keeps P _ _ (ensure-Keeps P _ _) λ _. give-Keeps P _

    pub clean-Keeps :
        (start end : ℕ)
        → Keeps P (clean loads loads_text loads_large hexdigest hosts args lines start end)
    unfolding clean
    clean-Keeps start end =
        bind-Keeps P _ _ (run-Keeps _) λ _. if-Keeps P _ _ _ (run-Keeps _) (give-Keeps P _)

    pub unlink_archive-Keeps :
        (start end : ℕ) (archive : Option Bytes)
        → Keeps P (
            unlink_archive loads loads_text loads_large hexdigest hosts args lines start end
              archive)
    unfolding unlink_archive
    unlink_archive-Keeps start end none = give-Keeps P _
    unlink_archive-Keeps start end (some archive) = run-Keeps _

    pub compression-Keeps :
        (archive : Option Dict)
        → Keeps P (compression loads loads_text loads_large hexdigest hosts args lines archive)
    unfolding compression
    compression-Keeps none = give-Keeps P _
    compression-Keeps (some archive) = bind-Keeps P _ _ (lift-Keeps P _) λ a.
        bind-Keeps P _ _ (lift-Keeps P _) λ b. bind-Keeps P _ _ (lift-Keeps P _) λ c. give-Keeps P _
