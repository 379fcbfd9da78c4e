-- ===== src/Replicate.antt =====
-- deploy/replicate_lake.py: the copy of the lake into Kubo. Here are the checkpoint, the listing
-- and the inventory checks; the children hold the prefetch window, the verified put and the batch.
pub mod Checkpoint
pub mod Prefetch
pub mod Put
pub mod Batch
pub mod Migration
pub mod Sources
use yataverse_distribution.Prelude.{
  ℕ, zero, suc, ◌+◌, ◌==◌, Bool, true, false, not, ◌&&◌, ◌||◌, Option, none, some, List, [], ◌∷◌,
  String, ltb, leb, length, is_empty, Bytes, Result, ok, err, require, ◌>>=◌, ◌>>◌, if◌then◌else◌,
}
use yataverse_distribution.Json.{
  Json, Dict, null, lookup, has_key, is_number, text_of, int_of, codes,
}
use yataverse_distribution.RawStore.{is_cid_v0, is_cid_v1}
use yataverse_distribution.Inventory.{Item}

pub data ReplicationError : Type 0 where
  not_json not_ok unbounded_page no_truncation_verdict cursor_not_text : ReplicationError
  truncated_without_cursor invalid_cid invalid_size : ReplicationError
  checkpoint_unreadable unknown_schema invalid_cursor invalid_counters attribute_error :
      ReplicationError
  over_prefetch_budget over_block_bytes size_differs storage_exceeded reserve_crossed :
      ReplicationError
  inventory_differs cid_prefix_unreadable unsupported_cid_version cid_rederived_differs :
      ReplicationError
  readback_differs pin_receipt_differs pin_missing raw_store_refused : ReplicationError
  row_unreadable digest_invalid row_invalid snapshot_differs legacy_cursor_unknown :
      ReplicationError
  legacy_cursor_undecodable legacy_cursor_without_cid legacy_cid_absent : ReplicationError
  listing_source_invalid public_listing_refused inventory_not_pinned identity_differs :
      ReplicationError
  cursor_not_offset previous_cid_differs not_served backup_differs : ReplicationError
  url_differs url_cid_invalid both_origins_failed peer_unavailable : ReplicationError
  rpc_refused : Bool → ReplicationError

-- `valid_cid` of a text.
unfoldable pub valid_cid : Option String → Bool
valid_cid none = false
valid_cid (some cid) = is_cid_v0 (codes cid) || is_cid_v1 (codes cid)

-- The state that `checkpoint.json` holds; a listing source may be any JSON.
pub record State : Type 0 where
  pub cursor : Option String
  pub cycles : ℕ
  pub pages_total : ℕ
  pub new_blocks_total : ℕ
  pub new_bytes_total : ℕ
  pub listing_source : Option Json

-- The file: absent, not JSON, JSON but no dict, or a dict.
pub data CheckpointFile : Type 0 where
  absent unreadable not_object : CheckpointFile
  object : Dict → CheckpointFile

abbrev pub fresh_state : State
fresh_state = record {
  cursor = none;
  cycles = 0;
  pages_total = 0;
  new_blocks_total = 0;
  new_bytes_total = 0;
  listing_source = none;
}

-- The cursor, if it is `None` or a text.
unfoldable pub checked_cursor : Option Json → Result ReplicationError (Option String)
checked_cursor (some null) = ok none
checked_cursor (some (Json.str s)) = ok (some s)
checked_cursor _ = err invalid_cursor

unfoldable pub checked_counter : Option Json → Result ReplicationError ℕ
checked_counter (some (Json.int n)) = ok n
checked_counter _ = err invalid_counters

unfoldable pub has_counters : Dict → Bool
has_counters d =
    has_key "cursor" d
    && has_key "cycles" d
    && has_key "pages_total" d
    && has_key "new_blocks_total" d
    && has_key "new_bytes_total" d

-- `state_load`. Other keys than these are dropped here.
unfoldable pub state_load : CheckpointFile → Result ReplicationError State
state_load absent = ok fresh_state
state_load unreadable = err checkpoint_unreadable
state_load not_object = err attribute_error
state_load (object d) = do
  require (is_number 1 (lookup "schema" d) && has_counters d) unknown_schema
  cursor ← checked_cursor (lookup "cursor" d)
  cycles ← checked_counter (lookup "cycles" d)
  pages ← checked_counter (lookup "pages_total" d)
  blocks ← checked_counter (lookup "new_blocks_total" d)
  bytes ← checked_counter (lookup "new_bytes_total" d)
  ok (record {
    cursor = cursor;
    cycles = cycles;
    pages_total = pages;
    new_blocks_total = blocks;
    new_bytes_total = bytes;
    listing_source = lookup "listing_source" d;
  })

-- A text or `None` in JSON; a key that the dict may not have.
unfoldable pub json_text : Option String → Json
json_text none = null
json_text (some s) = Json.str s

unfoldable pub optional_entry : String → Option Json → Dict
optional_entry key none = []
optional_entry key (some value) = (key, value) ∷ []

-- The dict that `state_save` writes.
unfoldable pub state_save : State → CheckpointFile
state_save st = object (
    ("schema", Json.int 1)
    ∷ ("cursor", json_text st.cursor)
    ∷ ("cycles", Json.int st.cycles)
    ∷ ("pages_total", Json.int st.pages_total)
    ∷ ("new_blocks_total", Json.int st.new_blocks_total)
    ∷ ("new_bytes_total", Json.int st.new_bytes_total)
    ∷ optional_entry "listing_source" st.listing_source)

-- The JSON of a listing: `blocks` is none unless it is a list, and a block is none unless it is a
-- dict.
pub record ListingJson : Type 0 where
  pub status_ok : Option Json
  pub blocks : Option (List (Option Dict))
  pub truncated : Option Json
  pub cursor : Option Json
  pub inventory_sha256 : Option Json

pub record Listing : Type 0 where
  pub blocks : List Item
  pub truncated : Bool
  pub cursor : Option String
  pub inventory_sha256 : Option Json

-- A block of the page, once its CID and its size are checked.
unfoldable pub checked_block : Option Dict → Result ReplicationError Item
checked_block none = err invalid_cid
checked_block (some d) = do
  require (valid_cid (text_of (lookup "cid" d))) invalid_cid
  elim (text_of (lookup "cid" d)) [
    | none ↦ err invalid_cid
    | some cid ↦ elim (int_of (lookup "size" d)) [
      | none ↦ err invalid_size
      | some size ↦ require (ltb 0 size) invalid_size >> ok (record { cid = cid; size = size })
    ]
  ]

unfoldable pub checked_blocks : List (Option Dict) → Result ReplicationError (List Item)
unfolding checked_block
checked_blocks [] = ok []
checked_blocks (d ∷ ds) = do item ← checked_block d; items ← checked_blocks ds; ok (item ∷ items)

-- `isinstance(blocks, list) and blocks and len(blocks) <= 200`
unfoldable pub bounded_page :
    Option (List (Option Dict)) → Result ReplicationError (List (Option Dict))
bounded_page none = err unbounded_page
bounded_page (some blocks) =
    if not (is_empty blocks) && leb (length blocks) 200 then ok blocks else err unbounded_page

unfoldable pub truncation : Option Json → Result ReplicationError Bool
truncation (some (Json.bool b)) = ok b
truncation _ = err no_truncation_verdict

unfoldable pub listing_cursor : Option Json → Result ReplicationError (Option String)
listing_cursor none = ok none
listing_cursor (some null) = ok none
listing_cursor (some (Json.str s)) = ok (some s)
listing_cursor _ = err cursor_not_text

-- `bool(cursor)`
unfoldable pub is_some_text : Option String → Bool
is_some_text none = false
is_some_text (some s) = not (is_empty (codes s))

-- `listing.get("ok") is True`
unfoldable pub is_true : Option Json → Bool
is_true (some (Json.bool b)) = b
is_true _ = false

-- The checks of `fetch_listing` on the parsed body, which is none if it is no JSON.
unfoldable pub fetch_listing : Option ListingJson → Result ReplicationError Listing
fetch_listing none = err not_json
fetch_listing (some j) = do
  require (is_true j.status_ok) not_ok
  blocks ← bounded_page j.blocks
  truncated ← truncation j.truncated
  cursor ← listing_cursor j.cursor
  require (not (truncated && not (is_some_text cursor))) truncated_without_cursor
  items ← checked_blocks blocks
  ok (record {
    blocks = items;
    truncated = truncated;
    cursor = cursor;
    inventory_sha256 = j.inventory_sha256;
  })
