-- ===== src/Replicate/Migration.antt =====
-- `prepare_listing_state` of deploy/replicate_lake.py and what it reads: how a checkpoint comes to
-- a local inventory, or from one to the next. A file is the list of its lines. The base-64 payload
-- of a cursor of the public listing and the decimal text of a number are parameters.
pub mod Kept
use Prim.Native.Char.{code}
use Prim.Native.String.{◌++◌ as text_append}
use text.Mathlib.Text.{◌==◌ as text_eq}
use yataverse_distribution.Prelude.{
  ℕ, suc, ◌==◌, Bool, true, false, not, ◌&&◌, ◌||◌, Option, none, some, List, [], ◌∷◌, ◌++◌, String,
  ltb, length, is_empty, Bytes, bytes_eq, Result, ok, err, require, ◌>>=◌, ◌>>◌, if◌then◌else◌,
}
use yataverse_distribution.Json.{
  Json, Dict, null, lookup, has_key, is_number, is_text, text_of, int_of, codes, all_codes, between,
  is_sha256,
}
use yataverse_distribution.Inventory.{concat_lines}
use yataverse_distribution.Replicate.{
  ReplicationError, State, valid_cid, is_some_text, row_unreadable, digest_invalid, row_invalid,
  snapshot_differs, legacy_cursor_unknown, legacy_cursor_undecodable, legacy_cursor_without_cid,
  legacy_cid_absent, listing_source_invalid, public_listing_refused, inventory_not_pinned,
  identity_differs, cursor_not_offset, previous_cid_differs, not_served, backup_differs,
}

-- What the arguments name, and the digest that the listing says it serves.
pub record Inventories : Type 0 where
  pub local : Bool
  pub lines : Option (List Bytes)
  pub sha256 : Option String
  pub previous_lines : Option (List Bytes)
  pub previous_sha256 : Option String
  pub served : Result ReplicationError (Option Json)

-- The bytes of `checkpoint.json` and of the two backups, if they are there.
pub record Files : Type 0 where
  pub checkpoint : Option Bytes
  pub pre_inventory : Option Bytes
  pub pre_local : Option Bytes

-- The state that is returned, the backups, and whether the state was saved.
pub record Prepared : Type 0 where
  pub state : State
  pub pre_inventory : Option Bytes
  pub pre_local : Option Bytes
  pub is_saved : Bool

-- What stands behind a prefix of a text.
unfoldable pub text_behind : List ℕ → String → Option String
text_behind [] s = some s
text_behind (p ∷ ps) String.[] = none
text_behind (p ∷ ps) (String.◌∷◌ c s) =
    let rest = text_behind ps s in if p == code c then rest else none

-- `[0-9]+`
unfoldable pub is_offset : String → Bool
unfolding all_codes
is_offset s = not (is_empty (codes s)) && all_codes (between b'0' b'9') (codes s)

-- `cursor is None or` the cursor is an offset.
unfoldable pub is_offset_cursor : Option String → Bool
unfolding is_offset
is_offset_cursor none = true
is_offset_cursor (some s) = is_offset s

-- The bytes of the backup behind it, which is written once and never changed.
unfoldable pub back_up : Option Bytes → Option Bytes → Result ReplicationError (Option Bytes)
back_up none backup = ok backup
back_up (some old) none = ok (some old)
back_up (some old) (some backup) =
    if bytes_eq backup old then ok (some backup) else err backup_differs

-- `new_sizes.get(cid) == size` for each entry of the old sizes.
unfoldable pub is_size : ℕ → Option ℕ → Bool
is_size size none = false
is_size size (some n) = n == size

unfoldable pub keeps_sizes : List (String × ℕ) → List (String × ℕ) → Bool
unfolding is_size
keeps_sizes [] new = true
keeps_sizes ((cid, size) ∷ old) new = is_size size (lookup cid new) && keeps_sizes old new

unfoldable pub checked_marker : Option Json → Result ReplicationError (Option String)
checked_marker none = ok none
checked_marker (some null) = ok none
checked_marker (some (Json.str s)) = ok (some s)
checked_marker _ = err listing_source_invalid

-- `"local-inventory:" + str(sha256)`
unfoldable pub marker_of : Option String → String
marker_of none = "local-inventory:None"
marker_of (some s) = text_append "local-inventory:" s

unfoldable pub is_same_marker : String → Option String → Bool
is_same_marker target none = false
is_same_marker target (some s) = text_eq s target

abbrev pub unchanged : Files → State → Prepared
unchanged files st = record {
  state = st;
  pre_inventory = files.pre_inventory;
  pre_local = files.pre_local;
  is_saved = false;
}

abbrev pub moved : Option String → String → State → State
moved cursor target st = record st { cursor = cursor; listing_source = some (Json.str target) }

unfoldable pub digest_of : Option String → Result ReplicationError String
digest_of none = err digest_invalid
digest_of (some s) = if is_sha256 s then ok s else err digest_invalid

unfoldable pub cid_of_key : Option String → Option String
unfolding text_behind
cid_of_key none = none
cid_of_key (some key) = text_behind (codes "ipld/") key

-- The CID of a payload, which is none if it is no dict.
unfoldable pub payload_cid : Option Dict → Option String
unfolding cid_of_key
payload_cid none = none
payload_cid (some d) =
    if is_number 1 (lookup "v" d) then cid_of_key (text_of (lookup "startAfter" d)) else none

unfoldable pub checked_cid : Option String → Result ReplicationError String
checked_cid none = err legacy_cursor_without_cid
checked_cid (some cid) = if valid_cid (some cid) then ok cid else err legacy_cursor_without_cid

module _ (loads : Bytes → Option Dict) (hexdigest : Bytes → String)
    (payload_of : String → Option (Option Dict)) (decimal : ℕ → String) where
  unfoldable pub legacy_cursor_cid : String → Result ReplicationError String
  unfolding checked_cid payload_cid
  legacy_cursor_cid cursor = elim (text_behind (codes "1-") cursor) [
    | none ↦ err legacy_cursor_unknown
    | some encoded ↦ (do
      require
          (not (is_empty (codes encoded))
            && all_codes
                (λ c.
                  between b'A' b'Z' c
                  || between b'a' b'z' c
                  || between b'0' b'9' c
                  || c == b'_'
                  || c == b'-')
                (codes encoded))
          legacy_cursor_unknown
      elim (payload_of encoded) [
        | none ↦ err legacy_cursor_undecodable
        | some payload ↦ checked_cid (payload_cid payload)
      ])
  ]

  -- The row behind the one of a CID; the lines behind that are not parsed.
  unfoldable pub offset_after : String → ℕ → List Bytes → Result ReplicationError (Option ℕ)
  offset_after cid index [] = ok none
  offset_after cid index (line ∷ lines) =
      let rest = offset_after cid (suc index) lines in
      elim (loads line) [
        | none ↦ err row_unreadable
        | some row ↦ if is_text cid (lookup "cid" row) then ok (some (suc index)) else rest
      ]

  unfoldable pub searched : Option String → List Bytes → Result ReplicationError (Option ℕ)
  unfolding offset_after
  searched none lines = ok none
  searched (some cid) lines = offset_after cid 0 lines

  unfoldable pub found_offset : Option String → Option ℕ → Result ReplicationError (Option String)
  found_offset none offset = ok none
  found_offset (some cid) none = err legacy_cid_absent
  found_offset (some cid) (some offset) = ok (some (decimal offset))

  unfoldable pub inventory_offset :
      List Bytes → String → Option String → Result ReplicationError (Option String)
  inventory_offset lines expected_sha256 after_cid = do
    require (is_sha256 expected_sha256) digest_invalid
    offset ← searched after_cid lines
    require (text_eq (hexdigest (concat_lines lines)) expected_sha256) snapshot_differs
    found_offset after_cid offset

  -- The loop of `inventory_sizes`.
  unfoldable pub add_entry :
      Option String → Option ℕ → List (String × ℕ) → Result ReplicationError (List (String × ℕ))
  add_entry (some cid) (some size) sizes =
      if valid_cid (some cid) && ltb 0 size && not (has_key cid sizes)
      then ok (sizes ++ ((cid, size) ∷ []))
      else err row_invalid
  add_entry _ _ sizes = err row_invalid

  unfoldable pub add_line :
      Option Dict → List (String × ℕ) → Result ReplicationError (List (String × ℕ))
  unfolding add_entry
  add_line none sizes = err row_unreadable
  add_line (some row) sizes =
      if has_key "cid" row && has_key "bytes" row
      then add_entry (text_of (lookup "cid" row)) (int_of (lookup "bytes" row)) sizes
      else err row_unreadable

  unfoldable pub add_lines :
      List Bytes → List (String × ℕ) → Result ReplicationError (List (String × ℕ))
  unfolding add_line
  add_lines [] sizes = ok sizes
  add_lines (line ∷ lines) sizes = do sizes' ← add_line (loads line) sizes; add_lines lines sizes'

  unfoldable pub inventory_sizes :
      List Bytes → Option String → Result ReplicationError (List (String × ℕ))
  inventory_sizes lines expected_sha256 = do
    expected ← digest_of expected_sha256
    sizes ← add_lines lines []
    require (text_eq (hexdigest (concat_lines lines)) expected && not (is_empty sizes))
        snapshot_differs
    ok sizes

  -- From one local inventory to the next.
  unfoldable pub migrate :
      Inventories
      → Files
      → State
      → List Bytes
      → List Bytes
      → String
      → Result ReplicationError Prepared
  migrate inv files st old_lines lines expected = do
    require (is_offset_cursor st.cursor) cursor_not_offset
    old_sizes ← inventory_sizes old_lines inv.previous_sha256
    new_sizes ← inventory_sizes lines (some expected)
    require (keeps_sizes old_sizes new_sizes) previous_cid_differs
    served ← inv.served
    require (is_text expected served) not_served
    backup ← back_up files.checkpoint files.pre_inventory
    ok (record {
      state = moved (some "0") (marker_of (some expected)) st;
      pre_inventory = backup;
      pre_local = files.pre_local;
      is_saved = true;
    })

  unfoldable pub migrate_from :
      Inventories
      → Files
      → State
      → Option (List Bytes)
      → List Bytes
      → String
      → String
      → Result ReplicationError Prepared
  migrate_from inv files st none lines expected marker = err identity_differs
  migrate_from inv files st (some old_lines) lines expected marker = do
    require (text_eq marker (marker_of inv.previous_sha256)) identity_differs
    migrate inv files st old_lines lines expected

  -- The inventory that the checkpoint names already.
  unfoldable pub resume : Files → State → List Bytes → String → Result ReplicationError Prepared
  resume files st lines expected = do
    require (is_offset_cursor st.cursor) cursor_not_offset
    offset ← inventory_offset lines expected none
    ok (unchanged files st)

  -- `legacy_cursor_cid(state["cursor"]) if ... state["cursor"] else None`
  unfoldable pub legacy_cid : Option String → Result ReplicationError (Option String)
  legacy_cid none = ok none
  legacy_cid (some cursor) =
      if is_some_text (some cursor)
      then (do cid ← legacy_cursor_cid cursor; ok (some cid))
      else ok none

  -- From the public listing to a local inventory.
  unfoldable pub adopt : Files → State → List Bytes → String → Result ReplicationError Prepared
  adopt files st lines expected = do
    after_cid ← legacy_cid st.cursor
    offset ← inventory_offset lines expected after_cid
    backup ← back_up files.checkpoint files.pre_local
    ok (record {
      state = moved offset (marker_of (some expected)) st;
      pre_inventory = files.pre_inventory;
      pre_local = backup;
      is_saved = true;
    })

  unfoldable pub prepare_local :
      Inventories
      → Files
      → State
      → Option String
      → Option (List Bytes)
      → Option String
      → Result ReplicationError Prepared
  prepare_local inv files st marker (some lines) (some expected) =
      if not (is_some_text (some expected))
      then err inventory_not_pinned
      else if not (is_some_text marker)
      then adopt files st lines expected
      else if is_same_marker (marker_of (some expected)) marker
      then resume files st lines expected
      else (elim marker [
        | none ↦ err identity_differs
        | some s ↦ migrate_from inv files st inv.previous_lines lines expected s
      ])
  prepare_local inv files st marker _ _ = err inventory_not_pinned

  unfoldable pub is_none : Option String → Bool
  is_none none = true
  is_none (some s) = false

  unfoldable pub prepare_listing_state :
      Inventories → Files → State → Result ReplicationError Prepared
  prepare_listing_state inv files st = do
    marker ← checked_marker st.listing_source
    if inv.local
        then prepare_local inv files st marker inv.lines inv.sha256
        else if is_none marker
        then ok (unchanged files st)
        else err public_listing_refused
