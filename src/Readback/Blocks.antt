-- ===== src/Readback/Blocks.antt =====
-- `OfflineBlocks.read` of deploy/verify_lake_leaves.py. The raw store is the files of each CID; an
-- answer of Kubo is its status and body, none where the request fails.
use yataverse_distribution.Prelude.{
  ℕ, ◌+◌, ◌==◌, Bool, true, false, ◌&&◌, ◌||◌, Option, none, some, List, [], ◌∷◌, String, leb,
  length, take, Bytes, Result, ok, err, require, ◌>>◌, if◌then◌else◌,
}
use yataverse_distribution.Json.{Json, Dict, lookup, codes}
use yataverse_distribution.RawStore.Store.{Slot}
use yataverse_distribution.RawStore.Store as Store
use yataverse_distribution.RawStore.{RawBlockStoreError}
use yataverse_distribution.RawStore as RawStore
use yataverse_distribution.LocalBlocks.{after_prefix}
use yataverse_distribution.Readback.{
  ReadbackError, over_readback_limit, raw_store_refused, rpc_failed, invalid_rpc_error, rpc_refused,
  local_size_differs, attribute_error,
}

unfoldable pub max_block : ℕ
max_block = 256000000

-- `text.startswith(prefix)`, and `part in text`.
unfoldable pub starts_with : List ℕ → List ℕ → Bool
unfolding after_prefix
starts_with prefix text = elim (after_prefix prefix text) [ none ↦ false | some rest ↦ true ]

unfoldable pub is_part : List ℕ → List ℕ → Bool
is_part part [] = starts_with part []
is_part part (c ∷ text) = starts_with part (c ∷ text) || is_part part text

-- The message of an error that is not a missing block is refused.
unfoldable pub missing_block : String → Option Json → Result ReadbackError (Option Bytes)
missing_block cid none = err invalid_rpc_error
missing_block cid (some (Json.str message)) =
    if starts_with (codes "block was not found locally (offline):") (codes message)
      && is_part (codes cid) (codes message)
    then ok none
    else err rpc_refused
missing_block cid (some value) = err rpc_refused

-- `except RawBlockStoreError`; Python's own exception passes.
unfoldable pub store_error : RawBlockStoreError → ReadbackError
store_error RawStore.attribute_error = attribute_error
store_error _ = raw_store_refused

module _ (loads : Bytes → Option Dict) where
  unfoldable pub error_answer : String → Option Dict → Result ReadbackError (Option Bytes)
  error_answer cid none = err invalid_rpc_error
  error_answer cid (some d) = missing_block cid (lookup "Message" d)

  unfoldable pub checked_answer :
      String → ℕ → Option (ℕ × Bytes) → Result ReadbackError (Option Bytes)
  checked_answer cid size none = err rpc_failed
  checked_answer cid size (some (status, body)) =
      let read = take (size + 1) body in
      if status == 200
      then (if length read == size then ok (some read) else err local_size_differs)
      else if status == 500
      then error_answer cid (loads (take 4096 body))
      else err rpc_refused

  unfoldable pub from_kubo :
      String
      → ℕ
      → Result RawBlockStoreError (Option Bytes)
      → Option (ℕ × Bytes)
      → Result ReadbackError (Option Bytes)
  from_kubo cid size (err e) answer = err (store_error e)
  from_kubo cid size (ok (some raw)) answer = ok (some raw)
  from_kubo cid size (ok none) answer = checked_answer cid size answer

  module _ (sha256 : Bytes → Bytes) (b32decode : List ℕ → Option Bytes) (hexdigest : Bytes → String)
      (slot_of : String → Slot) (block_get : String → Option (ℕ × Bytes)) where
    unfoldable pub read : String → ℕ → Result ReadbackError (Option Bytes)
    read cid size = do
      require (leb 1 size && leb size max_block) over_readback_limit
      from_kubo cid size (Store.read sha256 b32decode hexdigest cid max_block (slot_of cid))
          (block_get cid)
