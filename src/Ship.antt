-- ===== src/Ship.antt =====
-- deploy/ship_lake_car.py. Here is the choice of the rows of a CAR file; Ship/Once is a round.
pub mod Rows
pub mod Checks
pub mod Once
use yataverse_distribution.Prelude.{
  ℕ, zero, suc, ◌+◌, ◌-◌, ◌*◌, ◌==◌, Bool, true, false, not, ◌&&◌, ◌||◌, Option, none, some, List,
  [], ◌∷◌, ◌++◌, String, ltb, leb, length, get_elem?, is_empty, Bytes, Result, ok, err, require,
  ◌>>=◌, ◌>>◌, if◌then◌else◌,
}
use text.Mathlib.Text.{◌==◌ as text_eq}
use yataverse_distribution.Json.{Dict, lookup, has_key, text_of, int_of, codes}
use yataverse_distribution.Inventory.{Item, concat_lines}
use yataverse_distribution.RawStore.{is_cid_v0, is_cid_v1}
use yataverse_distribution.Replicate.Put.{contains}

pub data ShipError : Type 0 where
  invalid_row invalid_cid_or_size snapshot_differs over_byte_budget : ShipError
  invalid_identity invalid_bounds raw_manifest_differs checkpoint_differs : ShipError
  checkpoint_past_stop no_receipt invalid_receipt missing_field large_receipt_differs : ShipError
  no_archive skip_differs saved_car_differs export_differs archive_differs : ShipError
  unpack_differs import_differs command_refused : ShipError

unfoldable pub is_car_cid : Option String → Bool
is_car_cid none = false
is_car_cid (some cid) = is_cid_v0 (codes cid) || is_cid_v1 (codes cid)

unfoldable pub max_car_block : ℕ
max_car_block = 8000000

-- `rows` and `total`.
pub record Picked : Type 0 where
  pub rows : List Item
  pub total : ℕ

pub data Reason : Type 0 where
  verified_raw_block_store oversized_for_car : Reason

-- A row that no CAR file carries.
pub record Skipped : Type 0 where
  pub row : ℕ
  pub item : Item
  pub reason : Reason

unfoldable pub checked_entry : Option String → Option ℕ → Result ShipError Item
checked_entry (some cid) (some size) =
    if is_car_cid (some cid) && leb 1 size
    then ok (record { cid = cid; size = size })
    else err invalid_cid_or_size
checked_entry _ _ = err invalid_cid_or_size

unfoldable pub entry_of : Option Dict → Result ShipError Item
unfolding checked_entry
entry_of none = err invalid_row
entry_of (some row) =
    if has_key "cid" row && has_key "bytes" row
    then checked_entry (text_of (lookup "cid" row)) (int_of (lookup "bytes" row))
    else err invalid_row

unfoldable pub unchecked_entry : Option String → Option ℕ → Result ShipError Item
unchecked_entry (some cid) (some size) = ok (record { cid = cid; size = size })
unchecked_entry _ _ = err invalid_row

-- A row that is in the window, at the position `count`.
unfoldable pub pick : List String → ℕ → ℕ → ℕ → Item → Picked → Picked
pick raw_cids start max_bytes count item p =
    if contains item.cid raw_cids
    then p
    else if ltb max_car_block item.size
        || ltb max_bytes (p.total + item.size + 1024 * (length p.rows + 1))
    then p
    else if length p.rows == count - start
    then record { rows = p.rows ++ (item ∷ []); total = p.total + item.size }
    else p

unfoldable pub in_window : ℕ → ℕ → ℕ → ℕ → Picked → Bool
in_window start max_blocks max_bytes count p =
    leb start count && ltb count (start + max_blocks) && ltb p.total max_bytes

module _ (loads : Bytes → Option Dict) (hexdigest : Bytes → String) where
  unfoldable pub pick_line : List String → ℕ → ℕ → ℕ → ℕ → Bytes → Picked → Result ShipError Picked
  pick_line raw_cids start max_blocks max_bytes count line p =
      let picked = (do
        item ← entry_of (loads line)
        ok (pick raw_cids start max_bytes count item p)) in
      if in_window start max_blocks max_bytes count p then picked else ok p

  unfoldable pub pick_lines :
      List String → ℕ → ℕ → ℕ → ℕ → List Bytes → Picked → Result ShipError Picked
  pick_lines raw_cids start max_blocks max_bytes count [] p = ok p
  pick_lines raw_cids start max_blocks max_bytes count (line ∷ lines) p = do
    p' ← pick_line raw_cids start max_blocks max_bytes count line p
    pick_lines raw_cids start max_blocks max_bytes (suc count) lines p'

  -- The second pass, for the row at `start`.
  unfoldable pub skipped_row : List String → ℕ → Item → Result ShipError Skipped
  skipped_row raw_cids start item =
      if contains item.cid raw_cids
      then ok (record { row = start; item = item; reason = verified_raw_block_store })
      else if ltb max_car_block item.size
      then ok (record { row = start; item = item; reason = oversized_for_car })
      else err over_byte_budget

  unfoldable pub second_row : List String → ℕ → Option Dict → Result ShipError Skipped
  second_row raw_cids start none = err invalid_row
  second_row raw_cids start (some row) = do
    item ← unchecked_entry (text_of (lookup "cid" row)) (int_of (lookup "bytes" row))
    skipped_row raw_cids start item

  unfoldable pub second_pass : List String → ℕ → Option Bytes → Result ShipError Skipped
  second_pass raw_cids start none = err invalid_row
  second_pass raw_cids start (some line) = second_row raw_cids start (loads line)

  unfoldable pub selected_rows :
      List Bytes
      → String
      → ℕ
      → ℕ
      → ℕ
      → ℕ
      → List String
      → Result ShipError (List Item × Option Skipped)
  selected_rows lines expected_sha256 expected_count start max_blocks max_bytes raw_cids = do
    p ← pick_lines raw_cids start max_blocks max_bytes 0 lines (record { rows = []; total = 0 })
    require
        (text_eq (hexdigest (concat_lines lines)) expected_sha256 && length lines == expected_count)
        snapshot_differs
    let second = (do
      skipped ← second_pass raw_cids start (get_elem? lines start)
      ok ([], some skipped))
    if leb (length lines) start
        then ok ([], none)
        else if is_empty p.rows
        then second
        else ok (p.rows, none)
