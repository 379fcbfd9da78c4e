-- ===== src/Audit.antt =====
-- deploy/audit_lake.py. Here is `audit_inventory`, which counts the rows of an inventory by where
-- Kubo or the raw store holds them; the audit by receipts is in the children. A set of CIDs is a
-- list.
pub mod Rows
pub mod Roots
use yataverse_distribution.Prelude.{
  ℕ, ◌+◌, ◌-◌, ◌==◌, Bool, true, false, not, ◌&&◌, ◌||◌, Option, none, some, List, [], ◌∷◌, ◌++◌,
  String, ltb, leb, length, Bytes, Result, ok, err, require, ◌>>=◌, ◌>>◌, if◌then◌else◌,
}
use text.Mathlib.Text.{◌==◌ as text_eq}
use yataverse_distribution.Json.{Dict, lookup, has_key, text_of, int_of, codes, is_sha256}
use yataverse_distribution.Inventory.{InventoryError, Item, concat_lines}
use yataverse_distribution.RawStore.{RawBlockStoreError, is_cid_v0, is_cid_v1}
use yataverse_distribution.RawStore.Store as Store
use yataverse_distribution.RawStore.Store.{Slot}
use yataverse_distribution.Replicate.Put.{contains}

pub data AuditError : Type 0 where
  invalid_identity invalid_row invalid_cid_or_size duplicate_cid snapshot_differs : AuditError
  raw_size_differs invalid_pin_line receipt_differs root_differs large_row_invalid : AuditError
  root_unreadable : AuditError
  raw_refused : RawBlockStoreError → AuditError
  inventory_refused : InventoryError → AuditError

-- `CID.fullmatch` of a value that may be no text.
unfoldable pub is_lake_cid : Option String → Bool
is_lake_cid none = false
is_lake_cid (some cid) = is_cid_v0 (codes cid) || is_cid_v1 (codes cid)

-- A line of `pin ls`, split at blanks: its CID, if it is of the type that was asked for.
unfoldable pub pin_of_line : String → List String → Result AuditError String
unfolding is_lake_cid
pin_of_line pin_type (cid ∷ kind ∷ []) =
    if is_lake_cid (some cid) && text_eq kind pin_type then ok cid else err invalid_pin_line
pin_of_line pin_type _ = err invalid_pin_line

unfoldable pub pins_of_type : String → List (List String) → Result AuditError (List String)
unfolding pin_of_line
pins_of_type pin_type [] = ok []
pins_of_type pin_type (line ∷ lines) = do
  pin ← pin_of_line pin_type line
  pins ← pins_of_type pin_type lines
  ok (pin ∷ pins)

-- The raw store: the CIDs that `cids()` lists, and the files of each.
pub record RawBlocks : Type 0 where
  pub cids : List String
  pub slots : String → Slot

unfoldable pub raw_cids : Option RawBlocks → List String
raw_cids none = []
raw_cids (some raw) = raw.cids

-- The counters of the loop.
pub record Tally : Type 0 where
  pub seen : List String
  pub count : ℕ
  pub total_bytes : ℕ
  pub pinned_count : ℕ
  pub pinned_bytes : ℕ
  pub raw_count : ℕ
  pub raw_bytes : ℕ
  pub missing : List String

abbrev pub no_rows : Tally
no_rows = record {
  seen = [];
  count = 0;
  total_bytes = 0;
  pinned_count = 0;
  pinned_bytes = 0;
  raw_count = 0;
  raw_bytes = 0;
  missing = [];
}

pub data Status : Type 0 where
  complete partial : Status

pub record Report : Type 0 where
  pub status : Status
  pub inventory_rows : ℕ
  pub inventory_bytes : ℕ
  pub pinned_rows : ℕ
  pub pinned_bytes : ℕ
  pub raw_rows : ℕ
  pub raw_bytes : ℕ
  pub missing_rows : ℕ
  pub missing_bytes : ℕ
  pub missing_sample : List String
  pub inventory_sha256 : String

unfoldable pub checked_row : Option String → Option ℕ → Result AuditError Item
checked_row (some cid) (some size) =
    if is_lake_cid (some cid) && leb 1 size
    then ok (record { cid = cid; size = size })
    else err invalid_cid_or_size
checked_row _ _ = err invalid_cid_or_size

-- `if len(missing) < 3: missing.append(cid)`
unfoldable pub add_missing : List String → String → List String
add_missing missing cid = if ltb (length missing) 3 then missing ++ (cid ∷ []) else missing

-- A row that has been counted, before it is known where the block is.
abbrev pub count_row : Item → Tally → Tally
count_row item t = record t {
  seen = item.cid ∷ t.seen;
  count = t.count + 1;
  total_bytes = t.total_bytes + item.size;
}

abbrev pub count_pinned : Item → Tally → Tally
count_pinned item t = record (count_row item t) {
  pinned_count = t.pinned_count + 1;
  pinned_bytes = t.pinned_bytes + item.size;
}

abbrev pub count_raw : Item → Tally → Tally
count_raw item t = record (count_row item t) {
  raw_count = t.raw_count + 1;
  raw_bytes = t.raw_bytes + item.size;
}

abbrev pub count_missing : Item → Tally → Tally
count_missing item t = record (count_row item t) { missing = add_missing t.missing item.cid }

abbrev pub report_of : String → Tally → Report
report_of sha256 t = record {
  status = if t.count - t.pinned_count - t.raw_count == 0 then complete else partial;
  inventory_rows = t.count;
  inventory_bytes = t.total_bytes;
  pinned_rows = t.pinned_count;
  pinned_bytes = t.pinned_bytes;
  raw_rows = t.raw_count;
  raw_bytes = t.raw_bytes;
  missing_rows = t.count - t.pinned_count - t.raw_count;
  missing_bytes = t.total_bytes - t.pinned_bytes - t.raw_bytes;
  missing_sample = t.missing;
  inventory_sha256 = sha256;
}

module _ (sha256 : Bytes → Bytes) (b32decode : List ℕ → Option Bytes) (hexdigest : Bytes → String)
    (loads : Bytes → Option Dict) where
  unfoldable pub row_of : Option Dict → Result AuditError Item
  unfolding checked_row
  row_of none = err invalid_row
  row_of (some row) =
      if has_key "cid" row && has_key "bytes" row
      then checked_row (text_of (lookup "cid" row)) (int_of (lookup "bytes" row))
      else err invalid_row

  -- What `raw_store.read` gave of a block that the store lists.
  unfoldable pub checked_body :
      ℕ → Result RawBlockStoreError (Option Bytes) → Result AuditError (Unit {0})
  checked_body size (err e) = err (raw_refused e)
  checked_body size (ok none) = err raw_size_differs
  checked_body size (ok (some body)) = if length body == size then ok tt else err raw_size_differs

  unfoldable pub check_raw : Option RawBlocks → Item → Result AuditError (Unit {0})
  check_raw none item = err raw_size_differs
  check_raw (some raw) item =
      checked_body item.size
        (Store.read sha256 b32decode hexdigest item.cid item.size (raw.slots item.cid))

  unfoldable pub audit_row : List String → Option RawBlocks → Item → Tally → Result AuditError Tally
  audit_row pins raw item t =
      if contains item.cid t.seen
      then err duplicate_cid
      else if contains item.cid pins
      then ok (count_pinned item t)
      else if contains item.cid (raw_cids raw)
      then check_raw raw item >> ok (count_raw item t)
      else ok (count_missing item t)

  unfoldable pub audit_lines :
      List String → Option RawBlocks → List Bytes → Tally → Result AuditError Tally
  audit_lines pins raw [] t = ok t
  audit_lines pins raw (line ∷ lines) t = do
    item ← row_of (loads line)
    t' ← audit_row pins raw item t
    audit_lines pins raw lines t'

  unfoldable pub audit_inventory :
      List Bytes → String → ℕ → List String → Option RawBlocks → Result AuditError Report
  audit_inventory lines expected_sha256 expected_count pins raw = do
    require (leb 1 expected_count && is_sha256 expected_sha256) invalid_identity
    t ← audit_lines pins raw lines no_rows
    require (t.count == expected_count && text_eq (hexdigest (concat_lines lines)) expected_sha256)
        snapshot_differs
    ok (report_of (hexdigest (concat_lines lines)) t)
