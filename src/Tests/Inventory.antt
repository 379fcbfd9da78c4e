-- ===== src/Tests/Inventory.antt =====
-- An inventory of two rows. The parser and the digest are toys: a line is a number of a row.
use yataverse_distribution.Prelude.{
  ℕ, ◌≡◌, refl, [], ◌∷◌, List, String, Bytes, Option, none, some, ok, length, arith, false, ◌==◌,
  if◌then◌else◌,
}
use yataverse_distribution.Json.{Dict, str, int, has_key, lookup, text_of, int_of}
use yataverse_distribution.Inventory.{
  Item, File, Inventory, load, load_lines, read_item, checked_item, is_cid, concat_lines, rows,
  page,
}
use yataverse_distribution.Inventory.Load.{Snapshot, load-Snapshot}
use yataverse_distribution.Inventory.Pages.{
  rows-Snapshot, page-Snapshot, list_pages, list_pages-eq_items,
}

abbrev pub cid_a : String
cid_a = "baaaaaaaaaaaaaaaaaaaaaaaaaaaaaaaaaaaaaaaaaaaaaaa"

abbrev pub cid_b : String
cid_b = "bbbbbbbbbbbbbbbbbbbbbbbbbbbbbbbbbbbbbbbbbbbbbbbb"

abbrev toy_row : String → ℕ → Dict
toy_row cid size = ("cid", str cid) ∷ ("bytes", int size) ∷ []

abbrev pub toy_loads : Bytes → Option Dict
toy_loads [] = none
toy_loads (n ∷ line) =
    if n == 1 then some (toy_row cid_a 5) else if n == 2 then some (toy_row cid_b 7) else none

abbrev pub toy_hexdigest : Bytes → String
toy_hexdigest bytes = "00"

abbrev pub two_rows : File
two_rows = record { lines = (1 ∷ 10 ∷ []) ∷ (2 ∷ 10 ∷ []) ∷ []; identity = 3 }

abbrev pub two_items : List Item
two_items = record { cid = cid_a; size = 5 } ∷ record { cid = cid_b; size = 7 } ∷ []

abbrev pub loaded : Inventory
loaded = record {
  offsets = 0 ∷ 2 ∷ [];
  sizes = (cid_a, 5) ∷ (cid_b, 7) ∷ [];
  positions = (cid_a, 0) ∷ (cid_b, 1) ∷ [];
  sha256 = "00";
  total_bytes = 12;
  file_identity = 3;
}

load-two_rows : load toy_loads toy_hexdigest two_rows "00" 2 ≡ ok loaded
unfolding load load_lines read_item checked_item is_cid concat_lines has_key lookup text_of int_of
load-two_rows = refl

load-Snapshot_example :
    (items : List Item) × Snapshot toy_loads toy_hexdigest two_rows loaded items
    × (length items ≡ 2)
    × (toy_hexdigest (concat_lines two_rows.lines) ≡ "00")
load-Snapshot_example = load-Snapshot toy_loads toy_hexdigest two_rows "00" 2 loaded load-two_rows

pub snapshot : Snapshot toy_loads toy_hexdigest two_rows loaded two_items
unfolding read_item checked_item is_cid has_key lookup text_of int_of
snapshot = record {
  reads = (refl, (refl, tt));
  offsets = refl;
  sizes = refl;
  positions = refl;
  total = refl;
  identity = refl;
  nodup = (refl, (refl, tt));
}

rows-Snapshot_example :
    rows toy_loads toy_hexdigest loaded two_rows 1 1000
    ≡ ok (record { cid = cid_b; size = 7 } ∷ [], 2)
rows-Snapshot_example =
    rows-Snapshot toy_loads toy_hexdigest refl two_rows loaded two_items snapshot 1 1000
      (omega arith) (omega arith) (omega arith)

page-Snapshot_example :
    page toy_loads toy_hexdigest loaded two_rows 0
    ≡ ok (record { blocks = two_items; cursor = none; truncated = false })
page-Snapshot_example =
    page-Snapshot toy_loads toy_hexdigest refl two_rows loaded two_items snapshot 0 (omega arith)

list_pages-eq_items_example :
    list_pages toy_loads toy_hexdigest loaded two_rows 1 0 [] ≡ ok two_items
list_pages-eq_items_example =
    list_pages-eq_items toy_loads toy_hexdigest refl two_rows loaded two_items snapshot 1
      (omega arith) (omega arith)
