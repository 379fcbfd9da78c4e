-- ===== src/Tests/Migration.antt =====
-- A checkpoint in the middle of one inventory of two rows, moved to another with the same rows.
use yataverse_distribution.Prelude.{ℕ, ◌≡◌, refl, List, String, Bytes, Option, none, some, true, ok}
use yataverse_distribution.Json.{Json, Dict, lookup, is_text, text_of, int_of, has_key, is_sha256}
use yataverse_distribution.RawStore.{is_cid_v0, is_cid_v1}
use yataverse_distribution.Replicate.{State, fresh_state, valid_cid}
use yataverse_distribution.Replicate.Migration.{
  Inventories, Files, Prepared, migrate, inventory_sizes, marker_of, is_offset_cursor, digest_of,
  add_lines, keeps_sizes, back_up, moved,
}
use yataverse_distribution.Replicate.Migration.Kept.{IsRead, migrate-Kept}
use yataverse_distribution.Tests.Inventory.{toy_loads, two_rows}
use yataverse_distribution.Tests.RawStore.{toy_hex, five}

abbrev digest : String
digest = "0123456789abcdef0123456789abcdef0123456789abcdef0123456789abcdef"

abbrev toy_payload : String → Option (Option Dict)
toy_payload s = none

abbrev toy_decimal : ℕ → String
toy_decimal n = "0"

abbrev inventories : Inventories
inventories = record {
  local = true;
  lines = some two_rows.lines;
  sha256 = some digest;
  previous_lines = some two_rows.lines;
  previous_sha256 = some digest;
  served = ok (some (Json.str digest));
}

abbrev files : Files
files = record { checkpoint = some five; pre_inventory = none; pre_local = none }

abbrev halfway : State
halfway = record fresh_state { cursor = some "1" }

abbrev prepared : Prepared
prepared = record {
  state = moved (some "0") (marker_of (some digest)) halfway;
  pre_inventory = some five;
  pre_local = none;
  is_saved = true;
}

migrates :
    migrate toy_loads toy_hex toy_payload toy_decimal inventories files halfway two_rows.lines
      two_rows.lines digest
    ≡ ok prepared
unfolding migrate is_offset_cursor inventory_sizes digest_of is_sha256 add_lines has_key text_of
    lookup int_of valid_cid is_cid_v0 is_cid_v1 keeps_sizes is_text back_up
migrates = refl

migrate-Kept_example :
    (old : List (String × ℕ)) × (new : List (String × ℕ)) × IsRead toy_loads toy_hex toy_payload
      toy_decimal two_rows.lines
      (some digest)
      old
    × IsRead toy_loads toy_hex toy_payload toy_decimal two_rows.lines (some digest) new
    × ((cid : String) (size : ℕ) → lookup cid old ≡ some size → lookup cid new ≡ some size)
    × ((saved : Bytes) → files.checkpoint ≡ some saved → prepared.pre_inventory ≡ some saved)
    × (prepared.state.cursor ≡ some "0")
    × (prepared.state.listing_source ≡ some (Json.str (marker_of (some digest))))
migrate-Kept_example =
    migrate-Kept toy_loads toy_hex toy_payload toy_decimal inventories files halfway two_rows.lines
      two_rows.lines digest prepared migrates
