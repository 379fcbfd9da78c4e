-- ===== src/LocalBlocks.antt =====
-- `LocalBlocks` of deploy/serve_lake.py: a block from the raw store or from the local Kubo. Each
-- command to Kubo is a function of the CID: none where it fails, or what it prints. A command that
-- outlives its timeout is left out.
pub mod Verified
use yataverse_distribution.Prelude.{
  ℕ, ◌==◌, Bool, true, false, ◌&&◌, ◌||◌, Option, none, some, List, [], ◌∷◌, ◌++◌, String, ltb, leb,
  length, Bytes, bytes_eq, Result, ok, err, require, ◌>>=◌, ◌>>◌, if◌then◌else◌,
}
use yataverse_distribution.Json.{Dict, lookup, codes}
use yataverse_distribution.Inventory.{
  InventoryError, File, Inventory, bad_block_limit, cid_absent, over_api_limit, raw_store_refused,
  metadata_not_object, raw_size_differs, not_durable, block_unavailable, block_cid_differs,
}
use yataverse_distribution.RawStore.{
  RawBlockStoreError, attribute_error, is_cid_v0, is_cid_v1, verify_cid,
}
use yataverse_distribution.RawStore.Store as Store
use yataverse_distribution.RawStore.Store.{Slot}
use yataverse_distribution.Receipts.{Directory, CarReceipts, covers}

-- `pin ls --type=direct`, `pin ls --type=all` (both stripped) and `block get`.
pub record Ipfs : Type 0 where
  pub pin_direct : String → Option (List ℕ)
  pub pin_all : String → Option (List ℕ)
  pub block_get : String → Option Bytes

pub record LocalBlocks : Type 0 where
  pub inventory : Inventory
  pub max_block_bytes : ℕ
  pub raw_store : Option (String → Slot)
  pub car_receipts : Option CarReceipts

unfoldable pub largest_block_bytes : ℕ
largest_block_bytes = 256000000

unfoldable pub new_blocks :
    Inventory → ℕ → Option (String → Slot) → Option CarReceipts → Result InventoryError LocalBlocks
new_blocks inventory limit raw_store car_receipts = do
  require (leb 1 limit && leb limit largest_block_bytes) bad_block_limit
  ok (record {
    inventory = inventory;
    max_block_bytes = limit;
    raw_store = raw_store;
    car_receipts = car_receipts;
  })

-- What stands behind a prefix, if the text has it.
unfoldable pub after_prefix : List ℕ → List ℕ → Option (List ℕ)
after_prefix [] text = some text
after_prefix (p ∷ ps) [] = none
after_prefix (p ∷ ps) (c ∷ cs) = let rest = after_prefix ps cs in if p == c then rest else none

-- The pattern ` indirect through ` with the CID of a root.
unfoldable pub is_indirect : String → List ℕ → Bool
unfolding after_prefix
is_indirect cid line = elim (after_prefix (codes cid ++ codes " indirect through ") line) [
  | none ↦ false
  | some root ↦ is_cid_v0 root || is_cid_v1 root
]

unfoldable pub says : (List ℕ → Bool) → Option (List ℕ) → Bool
says p none = false
says p (some line) = p line

-- The exception behind `except RawBlockStoreError`; an `AttributeError` passes.
unfoldable pub refused_as : RawBlockStoreError → InventoryError
refused_as attribute_error = metadata_not_object
refused_as _ = raw_store_refused

-- The size in the inventory, or `CID absent from inventory`.
unfoldable pub size_of : Option ℕ → Result InventoryError ℕ
size_of none = err cid_absent
size_of (some size) = ok size

module _ (ipfs : Ipfs) where
  -- `durable` behind both commands.
  unfoldable pub is_pinned : String → Bool
  unfolding says is_indirect
  is_pinned cid =
      says (bytes_eq (codes cid ++ codes " direct")) (ipfs.pin_direct cid)
      || says (λ line. bytes_eq (codes cid ++ codes " recursive") line || is_indirect cid line)
          (ipfs.pin_all cid)

  module _ (sha256 : Bytes → Bytes) (b32decode : List ℕ → Option Bytes) (hexdigest : Bytes → String)
      (loads : Bytes → Option Dict) (file : File) (repository : String)
      (car native : List Directory) where
    -- What `raw_store.read` gave.
    unfoldable pub checked_raw :
        ℕ → Result RawBlockStoreError (Option Bytes) → Result InventoryError (Option Bytes)
    unfolding refused_as
    checked_raw size (err e) = err (refused_as e)
    checked_raw size (ok none) = ok none
    checked_raw size (ok (some block)) =
        if length block == size then ok (some block) else err raw_size_differs

    unfoldable pub read_raw :
        Option (String → Slot) → String → ℕ → ℕ → Result InventoryError (Option Bytes)
    read_raw none cid max_bytes size = ok none
    read_raw (some slots) cid max_bytes size =
        checked_raw size (Store.read sha256 b32decode hexdigest cid max_bytes (slots cid))

    -- `self.car_receipts is not None and self.car_receipts.covers(cid)`
    unfoldable pub is_covered :
        Inventory → Option CarReceipts → String → Result InventoryError (Bool × Option CarReceipts)
    is_covered inv none cid = ok (false, none)
    is_covered inv (some receipts) cid = do
      (hit, receipts') ← covers loads hexdigest inv file repository car native receipts cid
      ok (hit, some receipts')

    unfoldable pub checked_get : String → ℕ → Option Bytes → Result InventoryError Bytes
    checked_get cid size none = err block_unavailable
    checked_get cid size (some block) = do
      require (length block == size) block_unavailable
      elim (verify_cid sha256 b32decode (codes cid) block) [
        | err e ↦ err block_cid_differs
        | ok _ ↦ ok block
      ]

    -- From the pins on, when the raw store does not have the block.
    unfoldable pub read_kubo :
        LocalBlocks → String → ℕ → Result InventoryError (Bytes × Option CarReceipts)
    read_kubo blocks cid size = do
      (hit, receipts) ← is_covered blocks.inventory blocks.car_receipts cid
      require (hit || is_pinned cid) not_durable
      block ← checked_get cid size (ipfs.block_get cid)
      ok (block, receipts)

    -- `read`, with the receipts as it leaves them.
    unfoldable pub read : LocalBlocks → String → Result InventoryError (Bytes × Option CarReceipts)
    read blocks cid = do
      size ← size_of (lookup cid blocks.inventory.sizes)
      require (leb size blocks.max_block_bytes) over_api_limit
      stored ← read_raw blocks.raw_store cid blocks.max_block_bytes size
      elim stored [
        | some block ↦ ok (block, blocks.car_receipts)
        | none ↦ read_kubo blocks cid size
      ]
