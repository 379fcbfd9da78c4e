-- ===== src/Ship/Once.antt =====
-- `ship_once` of deploy/ship_lake_car.py without an S3 destination. The commands are an interface:
-- each may change the hosts and the CAR files, and may raise. Files that the round writes itself
-- are explicit; the lock and failures of the disk are left out.
pub mod Keeps
pub mod Moves
pub mod Steps
pub mod Evidence
use yataverse_distribution.Prelude.{
  ℕ, ◌+◌, ◌-◌, ◌==◌, Bool, true, false, ◌&&◌, Option, none, some, List, [], ◌∷◌, ◌++◌, String,
  length, min, Bytes, Result, ok, err, if◌then◌else◌,
}
use yataverse_distribution.Prelude.Actions.{
  Action, give, raise, current, change, ensure, lift, ◌>>=◌, ◌>>◌,
}
use yataverse_distribution.Json.{Json, Dict, lookup}
use yataverse_distribution.Inventory.{Item}
use yataverse_distribution.Ship.{
  ShipError, no_archive, skip_differs, saved_car_differs, export_differs, archive_differs,
  unpack_differs, import_differs, Skipped, Reason, verified_raw_block_store, oversized_for_car,
  selected_rows,
}
use yataverse_distribution.Ship.Checks.{
  Args, stop_of, check_args, raw_cids_of, start_of, last_receipt, field, text_field, check_large,
  same_skipped, fits_saved, fits_export, fits_archive, confirms_import, confirms_unpack,
}

-- The commands of a round, by the rows `start` to `end` of its CAR file. An output is the list of
-- its lines.
pub record Hosts : Type 1 where
  pub Remote : Type 0
  -- The CAR file and the archive in the state directory.
  pub car : Remote → ℕ → ℕ → Option Bytes
  pub archive : Remote → ℕ → ℕ → Option Bytes
  pub verify_raw : Item → Action ShipError Remote (Unit {0})
  pub large_archive : ℕ → Action ShipError Remote (List (List ℕ))
  pub export_source : ℕ → ℕ → Action ShipError Remote (List (List ℕ))
  pub fetch_car : ℕ → ℕ → Action ShipError Remote (Unit {0})
  pub classpath : Action ShipError Remote (Unit {0})
  pub export_https : ℕ → ℕ → Action ShipError Remote (List (List ℕ))
  pub pack_archive : ℕ → ℕ → Action ShipError Remote (List (List ℕ))
  pub send : ℕ → ℕ → Action ShipError Remote (Unit {0})
  pub unpack_archive : ℕ → ℕ → String → String → Json → Action ShipError Remote (List (List ℕ))
  pub import_car : ℕ → ℕ → String → Action ShipError Remote (List (List ℕ))
  pub clean_remote : ℕ → ℕ → Action ShipError Remote (Unit {0})
  pub clean_source : ℕ → ℕ → Action ShipError Remote (Unit {0})
  pub unlink_car : ℕ → ℕ → Action ShipError Remote (Unit {0})
  pub unlink_archive : ℕ → ℕ → Action ShipError Remote (Unit {0})

-- The hosts, and the files that the round reads and writes: a skip file by its row, the receipt of
-- an export by its rows.
pub record World (Remote : Type 0) : Type 0 where
  pub remote : Remote
  pub checkpoint : Option Dict
  pub skips : List (ℕ × Option Skipped)
  pub exports : List ((ℕ × ℕ) × Dict)

unfoldable pub find_skip : ℕ → List (ℕ × Option Skipped) → Option (Option Skipped)
find_skip row [] = none
find_skip row ((at, saved) ∷ skips) = if at == row then some saved else find_skip row skips

unfoldable pub find_export : ℕ → ℕ → List ((ℕ × ℕ) × Dict) → Option Dict
find_export start end [] = none
find_export start end (((a, b), receipt) ∷ exports) =
    if a == start && b == end then some receipt else find_export start end exports

-- `result["compression"]`
pub record Compression : Type 0 where
  pub carv2_bytes : Json
  pub compressed_bytes : Json
  pub ratio : Json

pub data Outcome : Type 0 where
  complete : ℕ → Outcome
  skipped_oversized : Skipped → Outcome
  shipped : ℕ → ℕ → Json → Option Compression → Outcome

-- The checkpoint behind a skipped row, and behind a CAR file.
unfoldable pub skip_record : String → ℕ → Dict
skip_record sha256 cursor = ("cursor", Json.int cursor) ∷ ("inventory_sha256", Json.str sha256) ∷ []

unfoldable pub transport_record : Option Dict → Dict
transport_record none = []
transport_record (some archive) = elim (lookup "compressed_sha256" archive) [
  | none ↦ []
  | some sha256 ↦ ("last_transport_sha256", sha256) ∷ []
]

unfoldable pub ship_record : String → ℕ → Json → String → Option Dict → Dict
ship_record sha256 cursor root car_sha256 archive =
    ("cursor", Json.int cursor)
    ∷ ("inventory_sha256", Json.str sha256)
    ∷ ("last_root", root)
    ∷ ("last_car_sha256", Json.str car_sha256)
    ∷ transport_record archive

module _ (loads : Bytes → Option Dict) (loads_text : List ℕ → Option Dict)
    (loads_large : List ℕ → Option (Option Dict × Option Json)) (hexdigest : Bytes → String)
    (hosts : Hosts) (args : Args) (lines : List Bytes) where
  abbrev pub Step : Type 0 → Type 0
  Step A = Action ShipError (World hosts.Remote) A

  -- A command; what it did to the hosts stays, also when it raises.
  unfoldable pub run : {A : Type 0} → Action ShipError hosts.Remote A → Step A
  run m w = let (r, remote) = m w.remote in (r, record w { remote = remote })

  unfoldable pub save : Option Dict → Step (Unit {0})
  save state = change (λ w. record w { checkpoint = state })

  unfoldable pub verify_remote_large_archive : Skipped → Step (Unit {0})
  verify_remote_large_archive skipped = do
    ensure args.has_large_archive no_archive
    output ← run (hosts.large_archive skipped.row)
    result ← lift (last_receipt loads_large output)
    lift (check_large skipped args.sha256 result)

  unfoldable pub verify_reason : Reason → Skipped → Step (Unit {0})
  verify_reason verified_raw_block_store skipped = run (hosts.verify_raw skipped.item)
  verify_reason oversized_for_car skipped = verify_remote_large_archive skipped

  unfoldable pub verify_skipped : Skipped → Step (Unit {0})
  verify_skipped skipped = verify_reason skipped.reason skipped

  unfoldable pub save_skip : ℕ → Skipped → Option (Option Skipped) → Step (Unit {0})
  save_skip start skipped none = change (λ w. record w { skips = (start, some skipped) ∷ w.skips })
  save_skip start skipped (some saved) = ensure (same_skipped saved skipped) skip_differs

  unfoldable pub skip_row : ℕ → Skipped → Step Outcome
  skip_row start skipped = do
    verify_skipped skipped
    w ← current
    save_skip start skipped (find_skip start w.skips)
    save (some (skip_record args.sha256 (start + 1)))
    give (skipped_oversized skipped)

  -- The exporter on the source host and the copy of its file, or the exporter here.
  unfoldable pub export_remote : ℕ → ℕ → Step (List (List ℕ))
  export_remote start end = do
    output ← run (hosts.export_source start end)
    run (hosts.fetch_car start end)
    give output

  unfoldable pub export_local : ℕ → ℕ → Step (List (List ℕ))
  export_local start end = do run hosts.classpath; run (hosts.export_https start end)

  unfoldable pub new_export : ℕ → ℕ → ℕ → Step Dict
  new_export start end blocks = do
    output ← if args.has_source_ssh_host then export_remote start end else export_local start end
    exported ← lift (last_receipt loads_text output)
    w ← current
    ensure (fits_export hexdigest start end blocks exported (hosts.car w.remote start end))
        export_differs
    change (λ w. record w { exports = ((start, end), exported) ∷ w.exports })
    give exported

  -- The receipt of the export, which an earlier round may have saved.
  unfoldable pub export : ℕ → ℕ → ℕ → Option Dict → Step Dict
  export start end blocks none = new_export start end blocks
  export start end blocks (some exported) = do
    w ← current
    ensure (fits_saved hexdigest start end exported (hosts.car w.remote start end))
        saved_car_differs
    give exported

  unfoldable pub pack_transport_archive : ℕ → ℕ → ℕ → Dict → Step Dict
  pack_transport_archive start end blocks exported = do
    output ← run (hosts.pack_archive start end)
    result ← lift (last_receipt loads_text output)
    w ← current
    ensure (fits_archive hexdigest exported blocks result (hosts.archive w.remote start end))
        archive_differs
    give result

  -- The digest that the importer is to find, and the receipt of the archive.
  unfoldable pub transport : ℕ → ℕ → ℕ → Dict → Step (String × Option Dict)
  transport start end blocks exported =
      let packed = (do
        archive ← pack_transport_archive start end blocks exported
        sha256 ← lift (text_field "carv2_sha256" archive)
        give (sha256, some archive)) in
      let plain = (do sha256 ← lift (text_field "sha256" exported); give (sha256, none)) in
      if args.carv2_zstd then packed else plain

  unfoldable pub unpack_remote_archive : ℕ → ℕ → ℕ → Option Dict → Step (Unit {0})
  unpack_remote_archive start end blocks none = give tt
  unpack_remote_archive start end blocks (some archive) = do
    compressed ← lift (text_field "compressed_sha256" archive)
    carv2 ← lift (text_field "carv2_sha256" archive)
    size ← lift (field "carv2_bytes" archive)
    output ← run (hosts.unpack_archive start end compressed carv2 size)
    result ← lift (last_receipt loads_text output)
    ensure (confirms_unpack blocks compressed carv2 result) unpack_differs

  unfoldable pub imported_car : ℕ → ℕ → ℕ → String → Step Dict
  imported_car start end blocks car_sha256 = do
    output ← run (hosts.import_car start end car_sha256)
    imported ← lift (last_receipt loads_text output)
    ensure (confirms_import start end blocks car_sha256 imported) import_differs
    give imported

  unfoldable pub clean : ℕ → ℕ → Step (Unit {0})
  clean start end = do
    run (hosts.clean_remote start end)
    if args.has_source_ssh_host then run (hosts.clean_source start end) else give tt

  -- `archive_path.exists()`
  unfoldable pub unlink_archive : ℕ → ℕ → Option Bytes → Step (Unit {0})
  unlink_archive start end none = give tt
  unlink_archive start end (some archive) = run (hosts.unlink_archive start end)

  unfoldable pub compression : Option Dict → Step (Option Compression)
  compression none = give none
  compression (some archive) = do
    carv2_bytes ← lift (field "carv2_bytes" archive)
    compressed_bytes ← lift (field "compressed_bytes" archive)
    ratio ← lift (field "ratio_uncompressed_over_compressed" archive)
    give (
        some (record {
          carv2_bytes = carv2_bytes;
          compressed_bytes = compressed_bytes;
          ratio = ratio;
        }))

  -- Behind the confirmed import: the checkpoint, and the end of the local files.
  unfoldable pub finish : ℕ → ℕ → String → Option Dict → Dict → Step Outcome
  finish start end car_sha256 archive imported = do
    clean start end
    root ← lift (field "root" imported)
    save (some (ship_record args.sha256 end root car_sha256 archive))
    run (hosts.unlink_car start end)
    w ← current
    unlink_archive start end (hosts.archive w.remote start end)
    c ← compression archive
    give (shipped start end root c)

  unfoldable pub ship_range : ℕ → ℕ → ℕ → Step Outcome
  ship_range start end blocks = do
    w ← current
    exported ← export start end blocks (find_export start end w.exports)
    (car_sha256, archive) ← transport start end blocks exported
    run (hosts.send start end)
    unpack_remote_archive start end blocks archive
    imported ← imported_car start end blocks car_sha256
    finish start end car_sha256 archive imported

  unfoldable pub ship_selected : ℕ → List Item → Option Skipped → Step Outcome
  ship_selected start rows none = ship_range start (start + length rows) (length rows)
  ship_selected start rows (some skipped) = skip_row start skipped

  unfoldable pub ship_from : ℕ → List String → Step Outcome
  ship_from start raw_cids = do
    (rows, skipped) ← lift (
        selected_rows loads hexdigest lines args.sha256 args.count start
          (min args.max_blocks (stop_of args - start)) args.max_bytes raw_cids)
    ship_selected start rows skipped

  unfoldable pub ship_once : Step Outcome
  ship_once = do
    lift (check_args args)
    raw_cids ← lift (raw_cids_of args args.raw_cids_file)
    w ← current
    start ← lift (start_of args w.checkpoint)
    if start == stop_of args then give (complete start) else ship_from start raw_cids
