-- ===== src/Inventory.antt =====
-- `Inventory` of deploy/serve_lake.py: the immutable snapshot of rows, by byte offset. The file is
-- the list of its lines; `identity` stands for the inode, size and time that `stat` reports.
pub mod Load
pub mod Pages
use yataverse_distribution.Prelude.{
  ℕ, zero, suc, ◌+◌, ◌-◌, ◌==◌, Bool, true, false, not, ◌&&◌, ◌||◌, Option, none, some, List, [],
  ◌∷◌, ◌++◌, String, ltb, leb, length, get_elem?, min, Bytes, Result, ok, err, require, ◌>>=◌, ◌>>◌,
  if◌then◌else◌,
}
use text.Mathlib.Text.{◌==◌ as text_eq}
use yataverse_distribution.Json.{
  Json, Dict, lookup, has_key, text_of, int_of, codes, all_codes, between,
}

pub data InventoryError : Type 0 where
  invalid_row invalid_cid_or_size duplicate_cid snapshot_differs : InventoryError
  file_changed cursor_outside bad_row_limit : InventoryError
  no_receipt_directory directory_absent invalid_receipt_name : InventoryError
  receipt_unreadable receipt_not_object receipt_range_invalid receipt_differs : InventoryError
  bad_block_limit cid_absent over_api_limit raw_store_refused metadata_not_object : InventoryError
  no_epochs epochs_differ cid_in_two_epochs one_reader_per_epoch : InventoryError
  bad_request_limit bad_client_timeout invalid_query invalid_cursor invalid_cid : InventoryError
  raw_size_differs not_durable block_unavailable block_cid_differs : InventoryError

pub record Item : Type 0 where
  pub cid : String
  pub size : ℕ

pub record File : Type 0 where
  pub lines : List Bytes
  pub identity : ℕ

pub record Inventory : Type 0 where
  pub offsets : List ℕ
  pub sizes : List (String × ℕ)
  pub positions : List (String × ℕ)
  pub sha256 : String
  pub total_bytes : ℕ
  pub file_identity : ℕ

-- `^[a-zA-Z0-9]{46,100}$`
unfoldable pub is_cid : String → Bool
unfolding all_codes
is_cid s =
    let cs = codes s in
    between 46 100 (length cs)
    && all_codes (λ c. between b'a' b'z' c || between b'A' b'Z' c || between b'0' b'9' c) cs

unfoldable pub concat_lines : List Bytes → Bytes
concat_lines [] = []
concat_lines (line ∷ lines) = line ++ concat_lines lines

-- The checks on the two values of a row.
unfoldable pub checked_item : Option String → Option ℕ → Result InventoryError Item
unfolding is_cid
checked_item (some cid) (some size) =
    if is_cid cid && ltb 0 size
    then ok (record { cid = cid; size = size })
    else err invalid_cid_or_size
checked_item _ _ = err invalid_cid_or_size

abbrev pub page_size : ℕ
page_size = 200

-- One listing page: its blocks, and the cursor behind it unless it is the last. The cursor is a
-- number here; the source writes it in decimal.
pub record Page : Type 0 where
  pub blocks : List Item
  pub cursor : Option ℕ
  pub truncated : Bool

abbrev pub empty_inventory : File → String → Inventory
empty_inventory file expected_sha256 = record {
  offsets = [];
  sizes = [];
  positions = [];
  sha256 = expected_sha256;
  total_bytes = 0;
  file_identity = file.identity;
}

-- `source.seek(at)` to the start of a line.
unfoldable pub seek : ℕ → List Bytes → List Bytes
seek at [] = []
seek at (line ∷ lines) =
    let rest = seek (at - length line) lines in if at == 0 then line ∷ lines else rest

-- `json.loads` of a line, which is none unless it is a dict, and the hex digest of a file.
module _ (loads : Bytes → Option Dict) (hexdigest : Bytes → String) where
  -- `row["cid"], row["bytes"]` of the line and the checks on both.
  unfoldable pub read_item : Bytes → Result InventoryError Item
  read_item line = elim (loads line) [
    | none ↦ err invalid_row
    | some row ↦
        if has_key "cid" row && has_key "bytes" row
        then checked_item (text_of (lookup "cid" row)) (int_of (lookup "bytes" row))
        else err invalid_row
  ]

  -- `row["cid"], row["bytes"]` of the line without the checks, if they are a text and a count.
  unfoldable pub read_row : Bytes → Result InventoryError Item
  read_row line = elim (loads line) [
    | none ↦ err invalid_row
    | some row ↦ elim (text_of (lookup "cid" row)) [
      | none ↦ err invalid_row
      | some cid ↦ elim (int_of (lookup "bytes" row)) [
        | none ↦ err invalid_row
        | some size ↦ ok (record { cid = cid; size = size })
      ]
    ]
  ]

  -- The loop of `__init__`; `offset` is `source.tell()`. The digest is taken of the whole file.
  unfoldable pub load_lines : List Bytes → ℕ → Inventory → Result InventoryError Inventory
  load_lines [] offset inv = ok inv
  load_lines (line ∷ lines) offset inv = do
    item ← read_item line
    require (not (has_key item.cid inv.sizes)) duplicate_cid
    load_lines lines (offset + length line) (record inv {
      offsets = inv.offsets ++ (offset ∷ []);
      sizes = inv.sizes ++ ((item.cid, item.size) ∷ []);
      positions = inv.positions ++ ((item.cid, length inv.offsets) ∷ []);
      total_bytes = inv.total_bytes + item.size;
    })

  unfoldable pub load : File → String → ℕ → Result InventoryError Inventory
  load file expected_sha256 expected_count = do
    inv ← load_lines file.lines 0 (empty_inventory file expected_sha256)
    require
        (text_eq (hexdigest (concat_lines file.lines)) expected_sha256
          && length inv.offsets == expected_count)
        snapshot_differs
    ok inv

  -- `limit` rounds of `json.loads(source.readline())`. Past the end a line is empty, and no JSON.
  unfoldable pub read_rows : ℕ → List Bytes → Result InventoryError (List Item)
  read_rows zero lines = ok []
  read_rows (suc n) [] = err invalid_row
  read_rows (suc n) (line ∷ lines) = do
    item ← read_row line
    rest ← read_rows n lines
    ok (item ∷ rest)

  -- `rows`, of the file as it stands now.
  unfoldable pub rows : Inventory → File → ℕ → ℕ → Result InventoryError (List Item × ℕ)
  rows inv current offset limit = do
    require (current.identity == inv.file_identity) file_changed
    require (ltb offset (length inv.offsets)) cursor_outside
    require (leb 1 limit && leb limit 1000) bad_row_limit
    let end = min (offset + limit) (length inv.offsets)
    items ← elim (get_elem? inv.offsets offset) [
      | none ↦ err cursor_outside
      | some at ↦ read_rows (end - offset) (seek at current.lines)
    ]
    ok (items, end)

  unfoldable pub page : Inventory → File → ℕ → Result InventoryError Page
  page inv current offset = do
    (blocks, end) ← rows inv current offset page_size
    let more = ltb end (length inv.offsets)
    ok (record { blocks = blocks; cursor = if more then some end else none; truncated = more })
