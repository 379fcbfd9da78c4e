-- ===== src/Readback/Checkpoint.antt =====
-- `load_state`, `save_state` and the run in `main` of deploy/verify_lake_leaves.py. A checkpoint
-- file is absent, no JSON object, or a dict.
use yataverse_distribution.Prelude.{
  ℕ, ◌+◌, ◌==◌, Bool, true, ◌&&◌, Option, none, some, List, [], ◌∷◌, String, leb, Bytes, Result, ok,
  err, require, ◌>>=◌, ◌>>◌, if◌then◌else◌,
}
use text.Mathlib.Text.{◌==◌ as text_eq}
use yataverse_distribution.Json.{
  Json, Dict, lookup, has_key, is_text, is_number, int_of, text_of, is_sha256,
}
use yataverse_distribution.Inventory.{Inventory, File}
use yataverse_distribution.Readback.{
  ReadbackError, checkpoint_unreadable, checkpoint_differs, State, Status, advance,
}

-- The entries of a checkpoint that are not counted.
pub record Identity : Type 0 where
  pub inventory_sha256 : String
  pub inventory_rows : ℕ
  pub repository : String
  pub peer_id : String

unfoldable pub fresh_state : State
fresh_state = record {
  cursor = 0;
  present_rows = 0;
  present_bytes = 0;
  missing_rows = 0;
  missing_bytes = 0;
  scan_sha256 = "0000000000000000000000000000000000000000000000000000000000000000";
}

-- The dict of a checkpoint.
unfoldable pub dict_of : Identity → State → Dict
dict_of id st =
    ("schema", Json.int 1)
    ∷ ("inventory_sha256", Json.str id.inventory_sha256)
    ∷ ("inventory_rows", Json.int id.inventory_rows)
    ∷ ("repository", Json.str id.repository)
    ∷ ("peer_id", Json.str id.peer_id)
    ∷ ("cursor", Json.int st.cursor)
    ∷ ("present_rows", Json.int st.present_rows)
    ∷ ("present_bytes", Json.int st.present_bytes)
    ∷ ("missing_rows", Json.int st.missing_rows)
    ∷ ("missing_bytes", Json.int st.missing_bytes)
    ∷ ("scan_sha256", Json.str st.scan_sha256)
    ∷ []

-- `set(d) <= set(other)`
unfoldable pub has_keys_of : Dict → Dict → Bool
has_keys_of [] other = true
has_keys_of ((key, value) ∷ d) other = has_key key other && has_keys_of d other

unfoldable pub same_keys : Dict → Dict → Bool
same_keys d other = has_keys_of d other && has_keys_of other d

unfoldable pub same_identity : Identity → Dict → Bool
same_identity id d =
    is_number 1 (lookup "schema" d)
    && is_text id.inventory_sha256 (lookup "inventory_sha256" d)
    && is_number id.inventory_rows (lookup "inventory_rows" d)
    && is_text id.repository (lookup "repository" d)
    && is_text id.peer_id (lookup "peer_id" d)

-- A counter: an int that is not negative.
unfoldable pub counter : Option ℕ → Result ReadbackError ℕ
counter none = err checkpoint_differs
counter (some n) = ok n

unfoldable pub scan_text : Option String → Result ReadbackError String
scan_text none = err checkpoint_differs
scan_text (some s) = ok s

unfoldable pub is_consistent : Identity → State → Bool
is_consistent id st =
    leb st.cursor id.inventory_rows
    && st.present_rows + st.missing_rows == st.cursor
    && is_sha256 st.scan_sha256

unfoldable pub counters : Dict → Result ReadbackError State
counters d = do
  cursor ← counter (int_of (lookup "cursor" d))
  present_rows ← counter (int_of (lookup "present_rows" d))
  present_bytes ← counter (int_of (lookup "present_bytes" d))
  missing_rows ← counter (int_of (lookup "missing_rows" d))
  missing_bytes ← counter (int_of (lookup "missing_bytes" d))
  scan ← scan_text (text_of (lookup "scan_sha256" d))
  ok (record {
    cursor = cursor;
    present_rows = present_rows;
    present_bytes = present_bytes;
    missing_rows = missing_rows;
    missing_bytes = missing_bytes;
    scan_sha256 = scan;
  })

unfoldable pub load_state : Identity → Option (Option Dict) → Result ReadbackError State
load_state id none = ok fresh_state
load_state id (some none) = err checkpoint_unreadable
load_state id (some (some d)) = do
  require (same_keys d (dict_of id fresh_state) && same_identity id d) checkpoint_differs
  st ← counters d
  require (is_consistent id st) checkpoint_differs
  ok st

-- `result == state`
unfoldable pub same_state : State → State → Bool
same_state a b =
    a.cursor == b.cursor
    && a.present_rows == b.present_rows
    && a.present_bytes == b.present_bytes
    && a.missing_rows == b.missing_rows
    && a.missing_bytes == b.missing_bytes
    && text_eq a.scan_sha256 b.scan_sha256

-- The file behind a run.
unfoldable pub save_state : Identity → State → State → Option (Option Dict) → Option (Option Dict)
save_state id state result saved =
    if same_state result state then saved else some (some (dict_of id result))

module _ (sha256 : Bytes → Bytes) (hexdigest : Bytes → String) (fromhex : String → Bytes)
    (b32decode : List ℕ → Option Bytes) (read : String → ℕ → Result ReadbackError (Option Bytes))
    (loads : Bytes → Option Dict) where
  -- The run of `main`, with the file as it leaves it; a run that raises leaves it as it was.
  unfoldable pub scan_once :
      Identity
      → Inventory
      → File
      → ℕ
      → ℕ
      → Bool
      → Option (Option Dict)
      → Result ReadbackError (Status × Option (Option Dict))
  scan_once id inventory file max_rows max_bytes stop saved = do
    state ← load_state id saved
    (result, status) ←
        advance sha256 hexdigest fromhex b32decode read loads inventory file state max_rows
          max_bytes stop
    ok (status, save_state id state result saved)
