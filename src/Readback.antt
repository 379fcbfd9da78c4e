-- ===== src/Readback.antt =====
-- deploy/verify_lake_leaves.py: the checkpoint of a readback and `advance`, the step of one batch,
-- over an unknown block reader, digest and CID check.
pub mod Accounts
pub mod Checkpoint
pub mod Blocks
pub mod Resume
use yataverse_distribution.Prelude.{
  ℕ, zero, suc, ◌+◌, ◌*◌, ◌/◌, ◌%◌, ◌==◌, Bool, true, false, not, ◌&&◌, Option, none, some, List,
  [], ◌∷◌, ◌++◌, String, ltb, leb, length, Bytes, Result, ok, err, require, ◌>>=◌, ◌>>◌,
  if◌then◌else◌, replicate,
}
use yataverse_distribution.Json.{
  Dict, codes, lookup, has_key, int_of, text_of, is_text, is_number, is_sha256,
}
use yataverse_distribution.Inventory.{Item, File, Inventory, rows, InventoryError}
use yataverse_distribution.RawStore.{verify_cid}

pub data ReadbackError : Type 0 where
  oversized_block size_differs cid_differs : ReadbackError
  checkpoint_unreadable checkpoint_differs over_readback_limit : ReadbackError
  raw_store_refused rpc_failed invalid_rpc_error rpc_refused local_size_differs : ReadbackError
  attribute_error : ReadbackError
  inventory_refused : InventoryError → ReadbackError

-- The counters of a checkpoint.
pub record State : Type 0 where
  pub cursor : ℕ
  pub present_rows : ℕ
  pub present_bytes : ℕ
  pub missing_rows : ℕ
  pub missing_bytes : ℕ
  pub scan_sha256 : String

pub data Status : Type 0 where
  complete partial waiting : Status

-- `n.to_bytes(width, "big")`; a number that does not fit raises in the source.
unfoldable pub be_bytes : ℕ → ℕ → Bytes
be_bytes zero n = []
be_bytes (suc width) n = be_bytes width (n / 256) ++ (n % 256 ∷ [])

-- `b"present"` and `b"missing"`
abbrev present_kind : Bytes
present_kind = codes "present"

abbrev missing_kind : Bytes
missing_kind = codes "missing"

-- The inventory's error as the readback's.
abbrev pub inventory_result : {A : Type 0} → Result InventoryError A → Result ReadbackError A
inventory_result (ok a) = ok a
inventory_result (err e) = err (inventory_refused e)

-- `"complete" if ... else "partial"` behind a batch, or `"waiting"`.
unfoldable pub status_of : ℕ → Bool → State → Status
status_of total stopped st =
    if stopped
    then waiting
    else if st.cursor == total && st.missing_rows == 0
    then complete
    else partial

-- `hashlib.sha256` and its `hexdigest`, `bytes.fromhex`, `base64.b32decode`, and `reader.read`.
module _ (sha256 : Bytes → Bytes) (hexdigest : Bytes → String) (fromhex : String → Bytes)
    (b32decode : List ℕ → Option Bytes)
    (read : String → ℕ → Result ReadbackError (Option Bytes)) where
  -- The next `scan_sha256`.
  unfoldable pub scan : State → Item → Bytes → Bytes → String
  unfolding be_bytes
  scan st row kind digest = hexdigest (
      fromhex st.scan_sha256
      ++ (be_bytes 8 st.cursor ++ (codes row.cid ++ (be_bytes 8 row.size ++ (kind ++ digest)))))

  unfoldable pub count_present : State → Item → Bytes → State
  count_present st row block = record {
    cursor = st.cursor + 1;
    present_rows = st.present_rows + 1;
    present_bytes = st.present_bytes + row.size;
    missing_rows = st.missing_rows;
    missing_bytes = st.missing_bytes;
    scan_sha256 = scan st row present_kind (sha256 block);
  }

  unfoldable pub count_missing : State → Item → State
  count_missing st row = record {
    cursor = st.cursor + 1;
    present_rows = st.present_rows;
    present_bytes = st.present_bytes;
    missing_rows = st.missing_rows + 1;
    missing_bytes = st.missing_bytes + row.size;
    scan_sha256 = scan st row missing_kind (replicate 32 0);
  }

  -- `verify_cid(cid, data)`, with its error as the readback's.
  unfoldable pub checked_block : Item → Bytes → Result ReadbackError (Unit {0})
  checked_block row block = do
    require (length block == row.size) size_differs
    elim (verify_cid sha256 b32decode (codes row.cid) block) [
      | ok _ ↦ ok tt
      | err _ ↦ err cid_differs
    ]

  -- The loop over the rows: the counters behind it, and whether it waits for a missing block.
  unfoldable pub walk : ℕ → Bool → List Item → ℕ → State → Result ReadbackError (State × Bool)
  walk max_bytes stop_at_missing [] added st = ok (st, false)
  walk max_bytes stop_at_missing (row ∷ rows) added st =
      let step = (do
        block ← read row.cid row.size
        elim block [
          | none ↦
              let rest =
                walk max_bytes stop_at_missing rows (added + row.size) (count_missing st row) in
              if stop_at_missing then ok (st, true) else rest
          | some bytes ↦ (do
            checked_block row bytes
            walk max_bytes stop_at_missing rows (added + row.size) (count_present st row bytes))
        ]) in
      if ltb 0 added && ltb max_bytes (added + row.size)
      then ok (st, false)
      else if ltb max_bytes row.size
      then err oversized_block
      else step

  module _ (loads : Bytes → Option Dict) where
    unfoldable pub advance :
        Inventory → File → State → ℕ → ℕ → Bool → Result ReadbackError (State × Status)
    advance inventory file st max_rows max_bytes stop_at_missing =
        let total = length inventory.offsets in
        let batch = (do
          (next, end) ← inventory_result (rows loads hexdigest inventory file st.cursor max_rows)
          (current, stopped) ← walk max_bytes stop_at_missing next 0 st
          ok (current, status_of total stopped current)) in
        if st.cursor == total
        then ok (st, if st.missing_rows == 0 then complete else partial)
        else batch
