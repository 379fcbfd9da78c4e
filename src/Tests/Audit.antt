-- ===== src/Tests/Audit.antt =====
-- Audits of the two rows of the test inventory.
use yataverse_distribution.Prelude.{
  ℕ, ◌-◌, ◌&&◌, leb, if◌then◌else◌, ◌≡◌, refl, [], ◌∷◌, List, String, Option, none, some, Result,
  ok, length, true, bytes_eq,
}
use yataverse_distribution.Json.{
  Dict, Json, lookup, has_key, text_of, int_of, is_text, is_number, is_sha256,
}
use yataverse_distribution.RawStore.{is_cid_v0, is_cid_v1}
use yataverse_distribution.Inventory.{Item, concat_lines, rows, read_rows, seek, read_row}
use yataverse_distribution.Receipts.{
  ReceiptFile, object, strip, in_inventory, loaded_record, sum_sizes, is_sha256_text,
}
use yataverse_distribution.Replicate.Put.{contains}
use yataverse_distribution.Audit.{
  AuditError, Report, complete, partial, audit_inventory, audit_lines, audit_row, row_of,
  checked_row, is_lake_cid, add_missing,
}
use yataverse_distribution.Audit.Rows.{Reads, Describes, audit_inventory-Describes}
use yataverse_distribution.Audit.Roots as Roots
use yataverse_distribution.Audit.Roots.{
  Node, audit_receipts, audit_cars, audit_range, names_rows, has_car_sha, text_or_none, is_node,
  same_links, add_car, mark, audit_natives, audit_larges, union, audit_pins, add_direct, audit_raw,
  report, tally, is_marked, size_in, range_in_name, take_decimals,
}
use yataverse_distribution.Audit.Roots.Evidence.{Proves, audit_receipts-Proves}
use yataverse_distribution.Tests.Inventory.{
  cid_a, cid_b, toy_loads, toy_hexdigest, two_rows, loaded,
}
use yataverse_distribution.Tests.RawStore.{toy_sha256, toy_b32decode, toy_hex}

abbrev one_pinned : Report
one_pinned = record {
  status = partial;
  inventory_rows = 2;
  inventory_bytes = 12;
  pinned_rows = 1;
  pinned_bytes = 5;
  raw_rows = 0;
  raw_bytes = 0;
  missing_rows = 1;
  missing_bytes = 7;
  missing_sample = cid_b ∷ [];
  inventory_sha256 = toy_hex [];
}

audited :
    audit_inventory toy_sha256 toy_b32decode toy_hex toy_loads two_rows.lines
      (toy_hex [])
      2
      (cid_a ∷ [])
      none
    ≡ ok one_pinned
unfolding audit_inventory is_sha256 audit_lines row_of has_key text_of lookup int_of is_lake_cid
    is_cid_v0 is_cid_v1 audit_row contains yataverse_distribution.Audit.raw_cids add_missing
audited = refl

audit_inventory-Describes_example :
    (items : List Item) × Reads
      (cid_a ∷ [])
      none
      toy_sha256
      toy_b32decode
      toy_hex
      toy_loads
      two_rows.lines
      items
    × (length items ≡ 2)
    × (toy_hex (concat_lines two_rows.lines) ≡ toy_hex [])
    × Describes (cid_a ∷ []) none toy_sha256 toy_b32decode toy_hex toy_loads items one_pinned
audit_inventory-Describes_example =
    audit_inventory-Describes (cid_a ∷ []) none toy_sha256 toy_b32decode toy_hex toy_loads
      two_rows.lines (toy_hex []) 2 one_pinned audited

abbrev import_receipt : Dict
import_receipt =
    ("status", Json.str "complete")
    ∷ ("inventory_sha256", Json.str "00")
    ∷ ("start_row", Json.int 0)
    ∷ ("end_row", Json.int 2)
    ∷ ("blocks", Json.int 2)
    ∷ ("bytes", Json.int 12)
    ∷ ("root", Json.str cid_a)
    ∷ ("car_sha256", Json.str (toy_hex []))
    ∷ ("repository", Json.str "/repo")
    ∷ []

abbrev cars : List ReceiptFile
cars = record { name = "row-0-1-import.json"; contents = object import_receipt } ∷ []

abbrev toy_root : String → Result AuditError (Option Node)
toy_root root = ok (
    some
      (record { inventory_sha256 = "00"; start_row = 0; end_row = 2; links = cid_a ∷ cid_b ∷ [] }))

abbrev toy_decimal : ℕ → Option ℕ
toy_decimal c = if leb 48 c && leb c 57 then some (c - 48) else none

abbrev both_held : Roots.Report
both_held = record {
  status = complete;
  inventory_rows = 2;
  covered_rows = 2;
  covered_bytes = 12;
  missing_rows = 0;
  missing_bytes = 0;
  missing_sample = [];
  coverage = record {
    covered = true ∷ true ∷ [];
    car_rows = 2;
    native_rows = 0;
    large_rows = 0;
    direct_rows = 1;
    raw_rows = 0;
    unpinned_car_roots = 0;
    unpinned_native_roots = 0;
    unpinned_large_roots = 0;
  };
}

proved :
    audit_receipts toy_sha256 toy_b32decode toy_hexdigest toy_hex toy_loads toy_decimal loaded
      two_rows "/repo"
      (cid_a ∷ [])
      []
      toy_root
      cars
      []
      []
      none
    ≡ ok both_held
unfolding audit_receipts audit_cars audit_range range_in_name strip take_decimals bytes_eq
    in_inventory rows read_rows seek read_row text_of lookup int_of loaded_record names_rows is_text
    is_number sum_sizes is_lake_cid is_cid_v0 is_cid_v1 has_car_sha is_sha256_text is_sha256
    text_or_none contains is_node same_links add_car mark audit_natives audit_larges union
    audit_pins add_direct audit_raw report tally is_marked size_in
proved = refl

audit_receipts-Proves_example :
    Proves toy_sha256 toy_b32decode toy_hexdigest toy_hex toy_loads toy_decimal loaded two_rows
      "/repo"
      (cid_a ∷ [])
      []
      toy_root
      none
      cars
      []
      both_held
audit_receipts-Proves_example =
    audit_receipts-Proves toy_sha256 toy_b32decode toy_hexdigest toy_hex toy_loads toy_decimal
      loaded two_rows "/repo" (cid_a ∷ []) [] toy_root none cars [] [] both_held refl proved
