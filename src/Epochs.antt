-- ===== src/Epochs.antt =====
-- `EpochInventory` and `EpochBlocks` of deploy/serve_lake.py: the inventories of the epochs as one.
pub mod Parts
use yataverse_distribution.Prelude.{
  ℕ, suc, ◌+◌, ◌-◌, ◌==◌, Bool, not, ◌&&◌, Option, none, some, List, [], ◌∷◌, ◌++◌, String, ltb,
  leb, length, get_elem?, is_empty, Bytes, Result, ok, err, require, ◌>>=◌, ◌>>◌, if◌then◌else◌,
}
use text.Mathlib.Text.{◌==◌ as text_eq}
use yataverse_distribution.Json.{Dict, lookup, has_key}
use yataverse_distribution.Inventory.{
  InventoryError, Item, File, Inventory, Page, concat_lines, page_size, cursor_outside,
  bad_row_limit, cid_absent, no_epochs, epochs_differ, cid_in_two_epochs, one_reader_per_epoch,
}
use yataverse_distribution.Inventory as Inventory
use yataverse_distribution.Receipts.{bisect_right}

-- The inventory of an epoch, and its file as it stands.
pub record Epoch : Type 0 where
  pub inventory : Inventory
  pub file : File

pub record EpochInventory : Type 0 where
  pub parts : List Epoch
  pub starts : List ℕ
  pub sizes : List (String × ℕ)
  pub owner : List (String × ℕ)
  pub total : ℕ
  pub sha256 : String
  pub total_bytes : ℕ

abbrev pub count : Epoch → ℕ
count part = length part.inventory.offsets

unfoldable pub total_rows : List Epoch → ℕ
total_rows [] = 0
total_rows (part ∷ parts) = count part + total_rows parts

unfoldable pub bytes_of_parts : List Epoch → ℕ
bytes_of_parts [] = 0
bytes_of_parts (part ∷ parts) = part.inventory.total_bytes + bytes_of_parts parts

unfoldable pub contents_of : List Epoch → Bytes
contents_of [] = []
contents_of (part ∷ parts) = concat_lines part.file.lines ++ contents_of parts

-- The first row of each part.
unfoldable pub epoch_starts : ℕ → List Epoch → List ℕ
epoch_starts start [] = []
epoch_starts start (part ∷ parts) = start ∷ epoch_starts (start + count part) parts

-- The two dicts `sizes` and `owner`.
pub record Owned : Type 0 where
  pub sizes : List (String × ℕ)
  pub owner : List (String × ℕ)

abbrev pub own : String → ℕ → ℕ → Owned → Owned
own cid size index o = record {
  sizes = o.sizes ++ ((cid, size) ∷ []);
  owner = o.owner ++ ((cid, index) ∷ []);
}

-- The loop over `part.sizes.items()`, and the one over the parts.
unfoldable pub own_sizes : ℕ → List (String × ℕ) → Owned → Result InventoryError Owned
own_sizes index [] o = ok o
own_sizes index ((cid, size) ∷ entries) o = do
  require (not (has_key cid o.sizes)) cid_in_two_epochs
  own_sizes index entries (own cid size index o)

unfoldable pub own_parts : ℕ → List Epoch → Owned → Result InventoryError Owned
own_parts index [] o = ok o
own_parts index (part ∷ parts) o = do
  o' ← own_sizes index part.inventory.sizes o
  own_parts (suc index) parts o'

module _ (loads : Bytes → Option Dict) (hexdigest : Bytes → String) where
  unfoldable pub new_epochs : List Epoch → String → ℕ → Result InventoryError EpochInventory
  new_epochs parts expected_sha256 expected_count = do
    require (not (is_empty parts)) no_epochs
    require
        (text_eq (hexdigest (contents_of parts)) expected_sha256
          && total_rows parts == expected_count)
        epochs_differ
    o ← own_parts 0 parts (record { sizes = []; owner = [] })
    ok (record {
      parts = parts;
      starts = epoch_starts 0 parts;
      sizes = o.sizes;
      owner = o.owner;
      total = total_rows parts;
      sha256 = expected_sha256;
      total_bytes = bytes_of_parts parts;
    })

  -- The rows of a part that starts at `start`, with the cursor moved by as much.
  unfoldable pub part_rows : Epoch → ℕ → ℕ → ℕ → Result InventoryError (List Item × ℕ)
  part_rows part start offset limit = do
    (items, end) ← Inventory.rows loads hexdigest part.inventory part.file (offset - start) limit
    ok (items, start + end)

  unfoldable pub rows_at : Option Epoch → Option ℕ → ℕ → ℕ → Result InventoryError (List Item × ℕ)
  unfolding part_rows
  rows_at (some part) (some start) offset limit = part_rows part start offset limit
  rows_at _ _ offset limit = err cursor_outside

  unfoldable pub epoch_rows : EpochInventory → ℕ → ℕ → Result InventoryError (List Item × ℕ)
  epoch_rows inv offset limit = do
    require (ltb offset inv.total) cursor_outside
    require (leb 1 limit && leb limit 1000) bad_row_limit
    let index = bisect_right inv.starts offset - 1
    rows_at (get_elem? inv.parts index) (get_elem? inv.starts index) offset limit

  unfoldable pub epoch_page : EpochInventory → ℕ → Result InventoryError Page
  epoch_page inv offset = do
    (blocks, end) ← epoch_rows inv offset page_size
    let more = ltb end inv.total
    ok (record { blocks = blocks; cursor = if more then some end else none; truncated = more })

-- `EpochBlocks`: the epochs' readers, each with the `read` that it has.
abbrev pub Reader : Type 0
Reader = String → Result InventoryError Bytes

pub record EpochBlocks : Type 0 where
  pub inventory : EpochInventory
  pub readers : List Reader

unfoldable pub new_epoch_blocks : EpochInventory → List Reader → Result InventoryError EpochBlocks
new_epoch_blocks inv readers = do
  require (length readers == length inv.parts) one_reader_per_epoch
  ok (record { inventory = inv; readers = readers })

unfoldable pub read_at : Option Reader → String → Result InventoryError Bytes
read_at none cid = err cid_absent
read_at (some read) cid = read cid

unfoldable pub owner_index : Option ℕ → Result InventoryError ℕ
owner_index none = err cid_absent
owner_index (some index) = ok index

unfoldable pub read_epoch : EpochBlocks → String → Result InventoryError Bytes
read_epoch blocks cid = do
  index ← owner_index (lookup cid blocks.inventory.owner)
  read_at (get_elem? blocks.readers index) cid
