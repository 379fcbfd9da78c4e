-- ===== src/Tests/Ship.antt =====
-- The choice of the rows of a CAR file from the two rows of the test inventory.
use yataverse_distribution.Prelude.{
  ◌≡◌, refl, ℕ, [], ◌∷◌, List, true, false, Option, none, some, Result, ok, err,
}
use yataverse_distribution.Inventory.{Item}
use yataverse_distribution.Ship.{verified_raw_block_store, snapshot_differs, selected_rows}
use yataverse_distribution.Prelude.Actions.{Action, give}
use yataverse_distribution.Json.{Dict, Json, int, str}
use yataverse_distribution.Ship.Checks.{Args}
use yataverse_distribution.Ship.Once.{
  Hosts, World, shipped, complete, skipped_oversized, ship_record, skip_record, ship_once,
}
use yataverse_distribution.Ship.Once.Moves.{Advances}
use yataverse_distribution.Ship.Once.Evidence.{ship_once-Advances}
use yataverse_distribution.Tests.Inventory.{cid_a, cid_b, toy_loads, two_rows}
use yataverse_distribution.Tests.RawStore.{toy_hex}

abbrev both : List Item
both = record { cid = cid_a; size = 5 } ∷ record { cid = cid_b; size = 7 } ∷ []

raw_row_is_skipped :
    selected_rows toy_loads toy_hex two_rows.lines (toy_hex []) 2 0 2 3000 (cid_a ∷ [])
    ≡ ok (
      [],
      some (record {
        row = 0;
        item = record { cid = cid_a; size = 5 };
        reason = verified_raw_block_store;
      }),
    )
unfolding selected_rows yataverse_distribution.Ship.pick_lines yataverse_distribution.Ship.pick_line
    yataverse_distribution.Ship.in_window yataverse_distribution.Ship.entry_of
    yataverse_distribution.Ship.is_car_cid yataverse_distribution.Ship.pick
    yataverse_distribution.Ship.max_car_block yataverse_distribution.Ship.second_pass
    yataverse_distribution.Ship.second_row yataverse_distribution.Ship.unchecked_entry
    yataverse_distribution.Ship.skipped_row yataverse_distribution.Ship.checked_entry
    yataverse_distribution.Json.has_key yataverse_distribution.Json.text_of
    yataverse_distribution.Json.lookup yataverse_distribution.Json.int_of
    yataverse_distribution.Json.all_codes yataverse_distribution.RawStore.is_cid_v0
    yataverse_distribution.RawStore.is_cid_v1 yataverse_distribution.Replicate.Put.contains
    yataverse_distribution.Inventory.concat_lines
raw_row_is_skipped = refl

behind_the_last_row :
    selected_rows toy_loads toy_hex two_rows.lines (toy_hex []) 2 2 2 3000 [] ≡ ok ([], none)
unfolding selected_rows yataverse_distribution.Ship.pick_lines yataverse_distribution.Ship.pick_line
    yataverse_distribution.Ship.in_window
behind_the_last_row = refl

other_snapshot :
    selected_rows toy_loads toy_hex two_rows.lines (toy_hex []) 3 0 2 3000 [] ≡ err snapshot_differs
unfolding selected_rows yataverse_distribution.Ship.pick_lines yataverse_distribution.Ship.pick_line
    yataverse_distribution.Ship.in_window yataverse_distribution.Ship.entry_of
    yataverse_distribution.Json.has_key yataverse_distribution.Json.text_of
    yataverse_distribution.Json.lookup yataverse_distribution.Json.int_of
    yataverse_distribution.Ship.is_car_cid yataverse_distribution.RawStore.is_cid_v0
    yataverse_distribution.RawStore.is_cid_v1 yataverse_distribution.Ship.pick
    yataverse_distribution.Replicate.Put.contains yataverse_distribution.Ship.max_car_block
other_snapshot = refl

-- Hosts that answer as asked: one receipt for the export of both rows and for their import.
abbrev toy_receipt : List ℕ → Option Dict
toy_receipt line = some (
    ("status", str "complete")
    ∷ ("sha256", str (toy_hex []))
    ∷ ("car_sha256", str (toy_hex []))
    ∷ ("start-row", int 0)
    ∷ ("start_row", int 0)
    ∷ ("end-row", int 2)
    ∷ ("end_row", int 2)
    ∷ ("blocks", int 2)
    ∷ ("root", str "root")
    ∷ [])

abbrev toy_large : List ℕ → Option (Option Dict × Option Json)
toy_large line = none

abbrev toy_hosts : Hosts
toy_hosts = record {
  Remote = ℕ;
  car = λ r a b. some [];
  archive = λ r a b. none;
  verify_raw = λ item. give tt;
  large_archive = λ row. give [];
  export_source = λ a b. give [];
  fetch_car = λ a b. give tt;
  classpath = give tt;
  export_https = λ a b. give ((1 ∷ []) ∷ (32 ∷ []) ∷ []);
  pack_archive = λ a b. give [];
  send = λ a b. give tt;
  unpack_archive = λ a b c d e. give [];
  import_car = λ a b c. give ((2 ∷ []) ∷ []);
  clean_remote = λ a b. give tt;
  clean_source = λ a b. give tt;
  unlink_car = λ a b. give tt;
  unlink_archive = λ a b. give tt;
}

abbrev toy_args : Args
toy_args = record {
  sha256 = toy_hex [];
  count = 2;
  start_row = 0;
  stop_row = none;
  max_blocks = 2;
  max_bytes = 3000;
  raw_cids_file = none;
  has_raw_block_store = false;
  has_large_archive = false;
  has_source_ssh_host = false;
  carv2_zstd = false;
}

abbrev fresh_world : World ℕ
fresh_world = record { remote = 0; checkpoint = none; skips = []; exports = [] }

both_rows_shipped :
    (ship_once toy_loads toy_receipt toy_large toy_hex toy_hosts toy_args two_rows.lines
      fresh_world).0
    ≡ ok (shipped 0 2 (str "root") none)
unfolding ship_once yataverse_distribution.Ship.Once.run yataverse_distribution.Ship.Once.save
    yataverse_distribution.Ship.Once.export yataverse_distribution.Ship.Once.new_export
    yataverse_distribution.Ship.Once.export_local yataverse_distribution.Ship.Once.find_export
    yataverse_distribution.Ship.Once.transport
    yataverse_distribution.Ship.Once.unpack_remote_archive
    yataverse_distribution.Ship.Once.imported_car yataverse_distribution.Ship.Once.clean
    yataverse_distribution.Ship.Once.unlink_archive yataverse_distribution.Ship.Once.compression
    yataverse_distribution.Ship.Once.finish yataverse_distribution.Ship.Once.ship_range
    yataverse_distribution.Ship.Once.ship_selected yataverse_distribution.Ship.Once.ship_from
    yataverse_distribution.Ship.Once.ship_record yataverse_distribution.Ship.Once.transport_record
    yataverse_distribution.Ship.Checks.stop_of yataverse_distribution.Ship.Checks.check_args
    yataverse_distribution.Ship.Checks.raw_cids_of yataverse_distribution.Ship.Checks.cursor_of
    yataverse_distribution.Ship.Checks.start_of yataverse_distribution.Ship.Checks.is_space
    yataverse_distribution.Ship.Checks.is_blank yataverse_distribution.Ship.Checks.last_line
    yataverse_distribution.Ship.Checks.parsed_line yataverse_distribution.Ship.Checks.last_receipt
    yataverse_distribution.Ship.Checks.field yataverse_distribution.Ship.Checks.text_field
    yataverse_distribution.Ship.Checks.fits_saved yataverse_distribution.Ship.Checks.fits_export
    yataverse_distribution.Ship.Checks.confirms_import yataverse_distribution.Ship.selected_rows
    yataverse_distribution.Ship.pick_lines yataverse_distribution.Ship.pick_line
    yataverse_distribution.Ship.in_window yataverse_distribution.Ship.entry_of
    yataverse_distribution.Ship.is_car_cid yataverse_distribution.Ship.pick
    yataverse_distribution.Ship.max_car_block yataverse_distribution.Ship.checked_entry
    yataverse_distribution.Json.has_key yataverse_distribution.Json.text_of
    yataverse_distribution.Json.lookup yataverse_distribution.Json.int_of
    yataverse_distribution.Json.all_codes yataverse_distribution.Json.is_text
    yataverse_distribution.Json.is_number yataverse_distribution.Json.is_sha256
    yataverse_distribution.Prelude.Actions.give yataverse_distribution.Prelude.Actions.current
    yataverse_distribution.Prelude.Actions.change yataverse_distribution.Prelude.Actions.ensure
    yataverse_distribution.Prelude.Actions.lift yataverse_distribution.Prelude.Actions.◌>>=◌
    yataverse_distribution.RawStore.is_cid_v0 yataverse_distribution.RawStore.is_cid_v1
    yataverse_distribution.Replicate.Put.contains yataverse_distribution.Inventory.concat_lines
both_rows_shipped = refl

both_rows-saved :
    (ship_once toy_loads toy_receipt toy_large toy_hex toy_hosts toy_args two_rows.lines
      fresh_world).1.checkpoint
    ≡ some (ship_record (toy_hex []) 2 (str "root") (toy_hex []) none)
unfolding ship_once yataverse_distribution.Ship.Once.run yataverse_distribution.Ship.Once.save
    yataverse_distribution.Ship.Once.export yataverse_distribution.Ship.Once.new_export
    yataverse_distribution.Ship.Once.export_local yataverse_distribution.Ship.Once.find_export
    yataverse_distribution.Ship.Once.transport
    yataverse_distribution.Ship.Once.unpack_remote_archive
    yataverse_distribution.Ship.Once.imported_car yataverse_distribution.Ship.Once.clean
    yataverse_distribution.Ship.Once.unlink_archive yataverse_distribution.Ship.Once.compression
    yataverse_distribution.Ship.Once.finish yataverse_distribution.Ship.Once.ship_range
    yataverse_distribution.Ship.Once.ship_selected yataverse_distribution.Ship.Once.ship_from
    yataverse_distribution.Ship.Once.ship_record yataverse_distribution.Ship.Once.transport_record
    yataverse_distribution.Ship.Checks.stop_of yataverse_distribution.Ship.Checks.check_args
    yataverse_distribution.Ship.Checks.raw_cids_of yataverse_distribution.Ship.Checks.cursor_of
    yataverse_distribution.Ship.Checks.start_of yataverse_distribution.Ship.Checks.is_space
    yataverse_distribution.Ship.Checks.is_blank yataverse_distribution.Ship.Checks.last_line
    yataverse_distribution.Ship.Checks.parsed_line yataverse_distribution.Ship.Checks.last_receipt
    yataverse_distribution.Ship.Checks.field yataverse_distribution.Ship.Checks.text_field
    yataverse_distribution.Ship.Checks.fits_saved yataverse_distribution.Ship.Checks.fits_export
    yataverse_distribution.Ship.Checks.confirms_import yataverse_distribution.Ship.selected_rows
    yataverse_distribution.Ship.pick_lines yataverse_distribution.Ship.pick_line
    yataverse_distribution.Ship.in_window yataverse_distribution.Ship.entry_of
    yataverse_distribution.Ship.is_car_cid yataverse_distribution.Ship.pick
    yataverse_distribution.Ship.max_car_block yataverse_distribution.Ship.checked_entry
    yataverse_distribution.Json.has_key yataverse_distribution.Json.text_of
    yataverse_distribution.Json.lookup yataverse_distribution.Json.int_of
    yataverse_distribution.Json.all_codes yataverse_distribution.Json.is_text
    yataverse_distribution.Json.is_number yataverse_distribution.Json.is_sha256
    yataverse_distribution.Prelude.Actions.give yataverse_distribution.Prelude.Actions.current
    yataverse_distribution.Prelude.Actions.change yataverse_distribution.Prelude.Actions.ensure
    yataverse_distribution.Prelude.Actions.lift yataverse_distribution.Prelude.Actions.◌>>=◌
    yataverse_distribution.RawStore.is_cid_v0 yataverse_distribution.RawStore.is_cid_v1
    yataverse_distribution.Replicate.Put.contains yataverse_distribution.Inventory.concat_lines
both_rows-saved = refl

ship_once-Advances_example :
    Advances toy_loads toy_receipt toy_large toy_hex toy_hosts toy_args two_rows.lines none
      (ship_once toy_loads toy_receipt toy_large toy_hex toy_hosts toy_args two_rows.lines
        fresh_world).1.checkpoint
ship_once-Advances_example =
    ship_once-Advances toy_loads toy_receipt toy_large toy_hex toy_hosts toy_args two_rows.lines
      fresh_world
