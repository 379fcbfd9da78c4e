-- ===== src/Audit/Roots.antt =====
-- `audit_receipts` of deploy/audit_lake.py: the rows of an inventory that receipts with pinned
-- roots, pins and raw blocks cover. `root_reader` gives the node of a root, or none if it has
-- another shape than these nodes; sets of CIDs are lists without repetition.
pub mod Marks
pub mod Evidence
use yataverse_distribution.Prelude.{
  ℕ, zero, suc, ◌+◌, ◌-◌, ◌*◌, ◌==◌, Bool, true, false, not, ◌&&◌, ◌||◌, Option, none, some, List,
  [], ◌∷◌, ◌++◌, String, ltb, leb, length, replicate, Bytes, bytes_eq, Result, ok, err, require,
  ◌>>=◌, ◌>>◌, if◌then◌else◌, get_elem?,
}
use text.Mathlib.Text.{◌==◌ as text_eq}
use yataverse_distribution.Json.{Dict, lookup, text_of, is_text, is_number, codes}
use yataverse_distribution.Inventory.{
  InventoryError, Item, File, Inventory, rows, invalid_receipt_name,
}
use yataverse_distribution.RawStore.{RawBlockStoreError, sha256_digest}
use yataverse_distribution.RawStore.Store as Store
use yataverse_distribution.Receipts.{
  Range, ReceiptFile, loaded_record, in_inventory, sum_sizes, is_sha256_text, is_nonempty_text,
  strip,
}
use yataverse_distribution.Replicate.Put.{contains}
use yataverse_distribution.Audit.{
  AuditError, RawBlocks, Status, complete, partial, is_lake_cid, checked_body, add_missing,
  inventory_refused, raw_refused, receipt_differs, root_differs, large_row_invalid,
}

-- The node that a CAR root names.
pub record Node : Type 0 where
  pub inventory_sha256 : String
  pub start_row : ℕ
  pub end_row : ℕ
  pub links : List String

-- `covered` and the counters.
pub record Coverage : Type 0 where
  pub covered : List Bool
  pub car_rows : ℕ
  pub native_rows : ℕ
  pub large_rows : ℕ
  pub direct_rows : ℕ
  pub raw_rows : ℕ
  pub unpinned_car_roots : ℕ
  pub unpinned_native_roots : ℕ
  pub unpinned_large_roots : ℕ

pub record Report : Type 0 where
  pub status : Status
  pub inventory_rows : ℕ
  pub covered_rows : ℕ
  pub covered_bytes : ℕ
  pub missing_rows : ℕ
  pub missing_bytes : ℕ
  pub missing_sample : List String
  pub coverage : Coverage

-- `for row in range(start, end): covered[row] = 1`, from row `i` on.
unfoldable pub mark : ℕ → ℕ → ℕ → List Bool → List Bool
mark start end i [] = []
mark start end i (b ∷ bs) = (b || (leb start i && ltb i end)) ∷ mark start end (suc i) bs

abbrev pub mark_rows : Range → List Bool → List Bool
mark_rows r covered = mark r.start r.end 0 covered

abbrev pub mark_row : ℕ → List Bool → List Bool
mark_row row covered = mark row (row + 1) 0 covered

unfoldable pub is_marked : List Bool → ℕ → Bool
is_marked covered row = elim (get_elem? covered row) [ none ↦ false | some b ↦ b ]

-- The inventory's exception as it comes.
abbrev pub from_inventory : {A : Type 0} → Result InventoryError A → Result AuditError A
from_inventory (ok a) = ok a
from_inventory (err e) = err (inventory_refused e)

abbrev pub from_raw : {A : Type 0} → Result RawBlockStoreError A → Result AuditError A
from_raw (ok a) = ok a
from_raw (err e) = err (raw_refused e)

-- Whether the node lists just these rows.
unfoldable pub same_links : List Item → List String → Bool
same_links [] [] = true
same_links [] (link ∷ links) = false
same_links (item ∷ items) [] = false
same_links (item ∷ items) (link ∷ links) = text_eq link item.cid && same_links items links

unfoldable pub is_node : Inventory → Range → List Item → Option Node → Bool
unfolding same_links
is_node inv r items none = false
is_node inv r items (some node) =
    text_eq node.inventory_sha256 inv.sha256
    && node.start_row == r.start
    && node.end_row == r.end
    && same_links items node.links

-- The root of a receipt that passes the checks that both kinds share.
unfoldable pub names_rows : Inventory → String → Range → List Item → ℕ → Dict → Bool
names_rows inv repository r items actual_end d =
    actual_end == r.end
    && is_text "complete" (lookup "status" d)
    && is_text inv.sha256 (lookup "inventory_sha256" d)
    && is_number r.start (lookup "start_row" d)
    && is_number r.end (lookup "end_row" d)
    && is_number (length items) (lookup "blocks" d)
    && is_number (sum_sizes items) (lookup "bytes" d)
    && is_text repository (lookup "repository" d)
    && is_lake_cid (text_of (lookup "root" d))

unfoldable pub has_car_sha : Dict → Bool
has_car_sha d = is_sha256_text (text_of (lookup "car_sha256" d))

unfoldable pub has_peer : Dict → Bool
has_peer d = is_nonempty_text (text_of (lookup "source_peer" d))

unfoldable pub text_or_none : Option String → Result AuditError String
text_or_none none = err receipt_differs
text_or_none (some s) = ok s

-- `\d+`, greedily, with the number that `int` reads in it, and what follows. `decimal` is the value
-- of a character that is a decimal digit in Unicode.
unfoldable pub take_decimals :
    (ℕ → Option ℕ) → List ℕ → ℕ → Bool → Result InventoryError (ℕ × List ℕ)
take_decimals decimal [] value some_digit =
    if some_digit then ok (value, []) else err invalid_receipt_name
take_decimals decimal (c ∷ cs) value some_digit = elim (decimal c) [
  | none ↦ if some_digit then ok (value, c ∷ cs) else err invalid_receipt_name
  | some digit ↦ take_decimals decimal cs (value * 10 + digit) true
]

-- `re.fullmatch(r"row-(\d+)-(\d+)" + suffix, path.name)`, with the range of its rows.
unfoldable pub range_in_name : (ℕ → Option ℕ) → String → String → Result InventoryError Range
unfolding take_decimals
range_in_name decimal suffix name = do
  digits ← strip (codes "row-") (codes name)
  (start, behind) ← take_decimals decimal digits 0 false
  digits' ← strip (codes "-") behind
  (last, behind') ← take_decimals decimal digits' 0 false
  require (bytes_eq behind' (codes suffix)) invalid_receipt_name
  ok (record { start = start; end = last + 1 })

-- `re.fullmatch(r"row-(\d+)-jacob-import\.json", path.name)`
unfoldable pub row_in_name : (ℕ → Option ℕ) → String → Result InventoryError ℕ
unfolding take_decimals
row_in_name decimal name = do
  digits ← strip (codes "row-") (codes name)
  (row, behind) ← take_decimals decimal digits 0 false
  require (bytes_eq behind (codes "-jacob-import.json")) invalid_receipt_name
  ok row

-- The pins that `direct | recursive` has.
unfoldable pub union : List String → List String → List String
union direct [] = direct
union direct (cid ∷ cids) =
    let rest = union direct cids in if contains cid direct then rest else cid ∷ rest

-- What a receipt of a range adds, if its root is pinned.
unfoldable pub add_car : Option (Range × List Item) → Coverage → Coverage
add_car none c = record c { unpinned_car_roots = c.unpinned_car_roots + 1 }
add_car (some (r, items)) c = record c {
  covered = mark_rows r c.covered;
  car_rows = c.car_rows + length items;
}

unfoldable pub add_native : Option (Range × List Item) → Coverage → Coverage
add_native none c = record c { unpinned_native_roots = c.unpinned_native_roots + 1 }
add_native (some (r, items)) c = record c {
  covered = mark_rows r c.covered;
  native_rows = c.native_rows + length items;
}

module _ (sha256 : Bytes → Bytes) (b32decode : List ℕ → Option Bytes) (hexdigest : Bytes → String)
    (hex : Bytes → String) (loads : Bytes → Option Dict) (decimal : ℕ → Option ℕ) (inv : Inventory)
    (file : File) (repository : String) (recursive direct : List String)
    (root_reader : String → Result AuditError (Option Node)) where
  -- The range of a receipt with its rows, or none if its root is not pinned.
  unfoldable pub audit_range :
      String → (Dict → Bool) → ReceiptFile → Result AuditError (Option (Range × List Item))
  audit_range suffix has_rest f = do
    r ← from_inventory (range_in_name decimal suffix f.name)
    require (in_inventory inv r && leb (r.end - r.start) 1000) receipt_differs
    (items, actual_end) ← from_inventory (rows loads hexdigest inv file r.start (r.end - r.start))
    d ← from_inventory (loaded_record f.contents)
    require (names_rows inv repository r items actual_end d && has_rest d) receipt_differs
    root ← text_or_none (text_of (lookup "root" d))
    let pinned = (do
      node ← root_reader root
      require (is_node inv r items node) root_differs
      ok (some (r, items)))
    if contains root recursive then pinned else ok none

  unfoldable pub audit_cars : List ReceiptFile → Coverage → Result AuditError Coverage
  audit_cars [] c = ok c
  audit_cars (f ∷ fs) c = do
    found ← audit_range "-import.json" has_car_sha f
    audit_cars fs (add_car found c)

  unfoldable pub audit_natives : List ReceiptFile → Coverage → Result AuditError Coverage
  audit_natives [] c = ok c
  audit_natives (f ∷ fs) c = do
    found ← audit_range "-native.json" has_peer f
    audit_natives fs (add_native found c)

  unfoldable pub names_item : ℕ → Item → Bytes → Dict → Bool
  names_item row item digest d =
      is_text "complete" (lookup "status" d)
      && is_number row (lookup "row" d)
      && is_text inv.sha256 (lookup "inventory_sha256" d)
      && is_text item.cid (lookup "original_cid" d)
      && is_number item.size (lookup "original_bytes" d)
      && is_text (hex digest) (lookup "original_sha256" d)
      && is_text repository (lookup "repository" d)
      && is_lake_cid (text_of (lookup "recovery_root" d))
      && has_car_sha d

  -- What a receipt of a large block adds.
  unfoldable pub add_large : String → ℕ → Item → Coverage → Coverage
  add_large root row item c =
      if not (contains root recursive)
      then record c { unpinned_large_roots = c.unpinned_large_roots + 1 }
      else if contains item.cid direct || contains item.cid recursive
      then record c { covered = mark_row row c.covered; large_rows = c.large_rows + 1 }
      else c

  -- The checks on the receipt of a row.
  unfoldable pub checked_large : ReceiptFile → ℕ → Item → Coverage → Result AuditError Coverage
  checked_large f row item c = do
    d ← from_inventory (loaded_record f.contents)
    digest ← from_raw (sha256_digest sha256 b32decode (codes item.cid))
    require (names_item row item digest d) receipt_differs
    root ← text_or_none (text_of (lookup "recovery_root" d))
    ok (add_large root row item c)

  -- `inventory.rows(row, 1)[0][0]`, and the checks.
  unfoldable pub large_row : ReceiptFile → ℕ → List Item → Coverage → Result AuditError Coverage
  large_row f row [] c = err large_row_invalid
  large_row f row (item ∷ later) c = checked_large f row item c

  unfoldable pub audit_large : ReceiptFile → Coverage → Result AuditError Coverage
  audit_large f c = do
    row ← from_inventory (row_in_name decimal f.name)
    require (ltb row (length inv.offsets)) large_row_invalid
    (items, _) ← from_inventory (rows loads hexdigest inv file row 1)
    large_row f row items c

  unfoldable pub audit_larges : List ReceiptFile → Coverage → Result AuditError Coverage
  audit_larges [] c = ok c
  audit_larges (f ∷ fs) c = do c' ← audit_large f c; audit_larges fs c'

  unfoldable pub add_direct : Option ℕ → Coverage → Coverage
  add_direct none c = c
  add_direct (some row) c = record c {
    covered = mark_row row c.covered;
    direct_rows = c.direct_rows + 1;
  }

  -- The loop over `direct | recursive`.
  unfoldable pub audit_pins : List String → Coverage → Coverage
  audit_pins [] c = c
  audit_pins (cid ∷ cids) c = audit_pins cids (add_direct (lookup cid inv.positions) c)

  -- `inventory.sizes[cid]`; a loaded inventory has the same keys in `positions` and `sizes`.
  unfoldable pub size_in : String → ℕ
  size_in cid = elim (lookup cid inv.sizes) [ none ↦ 0 | some size ↦ size ]

  unfoldable pub add_raw : RawBlocks → String → Option ℕ → Coverage → Result AuditError Coverage
  add_raw raw cid none c = ok c
  add_raw raw cid (some row) c = do
    checked_body sha256 b32decode hexdigest loads (size_in cid)
        (Store.read sha256 b32decode hexdigest cid (size_in cid) (raw.slots cid))
    ok (record c { covered = mark_row row c.covered; raw_rows = c.raw_rows + 1 })

  -- The loop over `raw_store.cids()`.
  unfoldable pub audit_raw_cids : RawBlocks → List String → Coverage → Result AuditError Coverage
  audit_raw_cids raw [] c = ok c
  audit_raw_cids raw (cid ∷ cids) c = do
    c' ← add_raw raw cid (lookup cid inv.positions) c
    audit_raw_cids raw cids c'

  unfoldable pub audit_raw : Option RawBlocks → Coverage → Result AuditError Coverage
  audit_raw none c = ok c
  audit_raw (some raw) c = audit_raw_cids raw raw.cids c

  -- The last loop, over `inventory.positions.items()`: rows, bytes and missing CIDs.
  unfoldable pub tally : List Bool → List (String × ℕ) → ℕ → ℕ → List String → ℕ × ℕ × List String
  tally covered [] n bytes missing = (n, bytes, missing)
  tally covered ((cid, row) ∷ entries) n bytes missing =
      let marked = is_marked covered row in
      tally covered entries (if marked then n + 1 else n)
        (if marked then bytes + size_in cid else bytes)
        (if marked then missing else add_missing missing cid)

  unfoldable pub report : Coverage → Report
  report c =
      let (n, bytes, missing) = tally c.covered inv.positions 0 0 [] in
      record {
        status = if n == length inv.offsets then complete else partial;
        inventory_rows = length inv.offsets;
        covered_rows = n;
        covered_bytes = bytes;
        missing_rows = length inv.offsets - n;
        missing_bytes = inv.total_bytes - bytes;
        missing_sample = missing;
        coverage = c;
      }

  abbrev pub nothing_covered : Coverage
  nothing_covered = record {
    covered = replicate (length inv.offsets) false;
    car_rows = 0;
    native_rows = 0;
    large_rows = 0;
    direct_rows = 0;
    raw_rows = 0;
    unpinned_car_roots = 0;
    unpinned_native_roots = 0;
    unpinned_large_roots = 0;
  }

  unfoldable pub audit_receipts :
      List ReceiptFile
      → List ReceiptFile
      → List ReceiptFile
      → Option RawBlocks
      → Result AuditError Report
  audit_receipts cars natives larges raw = do
    c ← audit_cars cars nothing_covered
    c' ← audit_natives natives c
    c'' ← audit_larges larges c'
    all ← audit_raw raw (audit_pins (union direct recursive) c'')
    ok (report all)
