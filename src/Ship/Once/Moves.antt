-- ===== src/Ship/Once/Moves.antt =====
-- How a shipping round may change the checkpoint.
use yataverse_distribution.Prelude.{
  ℕ, ◌+◌, ◌-◌, ◌≡◌, ◌≤◌, true, Option, none, some, List, String, length, min, Bytes, ok,
}
use yataverse_distribution.Json.{Json, Dict, lookup, is_number, is_text}
use yataverse_distribution.Inventory.{Item}
use yataverse_distribution.Ship.{Skipped, verified_raw_block_store, oversized_for_car}
use yataverse_distribution.Ship.Rows.{Chosen}
use yataverse_distribution.Ship.Checks.{
  Args, stop_of, raw_cids_of, start_of, last_receipt, confirms_import, same_size,
}
use yataverse_distribution.Ship.Once.{Hosts, skip_record, ship_record}

module _ (loads : Bytes → Option Dict) (loads_text : List ℕ → Option Dict)
    (loads_large : List ℕ → Option (Option Dict × Option Json)) (hexdigest : Bytes → String)
    (hosts : Hosts) (args : Args) (lines : List Bytes) where
  -- The importer has confirmed the rows from `start` on as blocks of one CAR file.
  pub record Confirmed (start blocks : ℕ) (car_sha256 : String) : Type 0 where
    pub before : hosts.Remote
    pub after : hosts.Remote
    pub output : List (List ℕ)
    pub imported : Dict
    pub answer : hosts.import_car start (start + blocks) car_sha256 before ≡ (ok output, after)
    pub parsed : last_receipt loads_text output ≡ ok imported
    pub confirms : confirms_import start (start + blocks) blocks car_sha256 imported ≡ true

  -- The archive of a large block has answered with a receipt that names the row, the inventory, and
  -- the block with its size, and its CAR file has the bytes that the receipt names.
  pub record Archived (s : Skipped) : Type 0 where
    pub before : hosts.Remote
    pub after : hosts.Remote
    pub output : List (List ℕ)
    pub receipt : Dict
    pub size : Option Json
    pub answer : hosts.large_archive s.row before ≡ (ok output, after)
    pub parsed : last_receipt loads_large output ≡ ok (some receipt, size)
    pub names_row : is_number s.row (lookup "row" receipt) ≡ true
    pub names_inventory : is_text args.sha256 (lookup "inventory_sha256" receipt) ≡ true
    pub names_cid : is_text s.item.cid (lookup "original_cid" receipt) ≡ true
    pub names_size : is_number s.item.size (lookup "original_bytes" receipt) ≡ true
    pub on_disk : same_size (lookup "car_bytes" receipt) size ≡ true

  -- A skipped row whose block the hosts have: the raw store has verified it, or the archive.
  pub data Verified (s : Skipped) : Type 0 where
    by_store :
        (before after : hosts.Remote)
        → hosts.verify_raw s.item before ≡ (ok tt, after)
        → s.reason ≡ verified_raw_block_store
        → Verified s
    by_archive : Archived s → s.reason ≡ oversized_for_car → Verified s

  -- The checkpoint `c` before the round, and the one behind it.
  pub data Advances (c : Option Dict) : Option Dict → Type 0 where
    unchanged : Advances c c
    skip :
        (start : ℕ) (raw_cids : List String) (rows : List Item) (s : Skipped)
        → start_of args c ≡ ok start
        → raw_cids_of args args.raw_cids_file ≡ ok raw_cids
        → start + 1 ≤ stop_of args
        → Chosen loads hexdigest lines raw_cids start
            (min args.max_blocks (stop_of args - start))
            args.max_bytes
            rows
            (some s)
        → Verified s
        → Advances c (some (skip_record args.sha256 (start + 1)))
    ship :
        (start : ℕ) (raw_cids : List String) (rows : List Item) (root : Json) (car_sha256 : String)
        (archive : Option Dict)
        → start_of args c ≡ ok start
        → raw_cids_of args args.raw_cids_file ≡ ok raw_cids
        → 1 ≤ length rows
        → start + length rows ≤ stop_of args
        → Chosen loads hexdigest lines raw_cids start
            (min args.max_blocks (stop_of args - start))
            args.max_bytes
            rows
            none
        → Confirmed start (length rows) car_sha256
        → Advances c (some (ship_record args.sha256 (start + length rows) root car_sha256 archive))
