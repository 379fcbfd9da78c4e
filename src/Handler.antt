-- ===== src/Handler.antt =====
-- `handler_for` of deploy/serve_lake.py: the requests in progress, the two semaphores, and the
-- reply to a request. The requests run in threads, so a run is a list of events, in any order. The
-- path and the query come parsed, where the target can be parsed; a broken connection and a timeout
-- of Kubo are left out.
pub mod Slots
use yataverse_distribution.Prelude.{
  ℕ, zero, suc, ◌+◌, ◌-◌, ◌*◌, ◌==◌, Bool, true, false, not, ◌&&◌, ◌||◌, Option, none, some, List,
  [], ◌∷◌, ◌++◌, String, ltb, leb, length, Bytes, Result, ok, err, require, ◌>>=◌, ◌>>◌,
  if◌then◌else◌,
}
use text.Mathlib.Text.{◌==◌ as text_eq}
use yataverse_distribution.Json.{codes, between, all_codes}
use yataverse_distribution.Inventory.{
  InventoryError, Page, is_cid, bad_request_limit, bad_client_timeout, invalid_query,
  invalid_cursor, invalid_cid,
}

-- `/health`, `/api/v1/lake/blocks` with its query, `/ipfs/` with a CID and whether there is a
-- query, or another path; `broken` is a target at which `urlsplit` raises, such as `http://[`.
pub data Request : Type 0 where
  health elsewhere broken : Request
  blocks : List (String × List String) → Request
  ipfs : String → Bool → Request

pub data Reply : Type 0 where
  healthy : String → ℕ → ℕ → Reply
  listing : Page → Reply
  block : Bytes → Reply
  reader_busy large_reader_busy not_found : Reply
  refused : InventoryError → Reply

-- What the handler asks of its inventory and its block reader.
pub record Source : Type 0 where
  pub sha256 : String
  pub row_count : ℕ
  pub byte_count : ℕ
  pub listed_size : String → Option ℕ
  pub page_at : ℕ → Result InventoryError Page
  pub read_block : String → Result InventoryError Bytes

-- A request in progress, and `large_block_acquired`.
pub record Running : Type 0 where
  pub request : Request
  pub large : Bool

-- The values of the semaphores, and the requests in progress.
pub record Server : Type 0 where
  pub free_slots : ℕ
  pub free_large : ℕ
  pub running : List Running

unfoldable pub handler_for : ℕ → ℕ → Result InventoryError Server
handler_for max_concurrent_requests large_client_timeout = do
  require (leb 1 max_concurrent_requests && leb max_concurrent_requests 64) bad_request_limit
  require (leb 120 large_client_timeout && leb large_client_timeout 1800) bad_client_timeout
  ok (record { free_slots = max_concurrent_requests; free_large = 1; running = [] })

-- `query.get("cursor", ["0"])[0]` of a query that has no other key, and one value.
unfoldable pub query_cursor : List (String × List String) → Result InventoryError String
query_cursor [] = ok "0"
query_cursor ((key, value ∷ []) ∷ []) = if text_eq key "cursor" then ok value else err invalid_query
query_cursor _ = err invalid_query

unfoldable pub decimal : List ℕ → ℕ → ℕ
decimal [] n = n
decimal (c ∷ cs) n = decimal cs (n * 10 + (c - b'0'))

-- `0|[1-9][0-9]*`, and `int(cursor)`
unfoldable pub cursor_number : List ℕ → Result InventoryError ℕ
unfolding decimal all_codes
cursor_number [] = err invalid_cursor
cursor_number (c ∷ cs) =
    if (c == b'0' && length cs == 0) || (between b'1' b'9' c && all_codes (between b'0' b'9') cs)
    then ok (decimal (c ∷ cs) 0)
    else err invalid_cursor

-- `size > LARGE_BLOCK_THRESHOLD`
unfoldable pub has_large_size : Option ℕ → Bool
has_large_size none = false
has_large_size (some size) = ltb 8000000 size

unfoldable pub replied : Result InventoryError Reply → Reply
replied (ok reply) = reply
replied (err e) = refused e

-- The request in progress at a position, and the others.
unfoldable pub take_out : ℕ → List Running → Option (Running × List Running)
take_out i [] = none
take_out zero (r ∷ rs) = some (r, rs)
take_out (suc i) (r ∷ rs) = elim (take_out i rs) [
  | none ↦ none
  | some found ↦ some (found.0, r ∷ found.1)
]

-- The `finally` block.
unfoldable pub release : Running → List Running → Server → Server
release r others s = record {
  free_slots = s.free_slots + 1;
  free_large = if r.large then s.free_large + 1 else s.free_large;
  running = others;
}

-- A request comes in; the thread of one tries for the large slot; the thread of one ends.
pub data Event : Type 0 where
  comes_in : Request → Event
  asks_large ends : ℕ → Event

-- The thread of a broken request ends at `urlsplit`, before the `try`, and releases nothing.
unfoldable pub admitted : Request → List Running → List Running
admitted broken running = running
admitted request running = record { request = request; large = false } ∷ running

unfoldable pub arrived : Request → Server → Option Reply × Server
arrived request s =
    if s.free_slots == 0
    then (some reader_busy, s)
    else (none, record s { free_slots = s.free_slots - 1; running = admitted request s.running })

module _ (source : Source) where
  unfoldable pub needs_large : Request → Bool
  unfolding has_large_size
  needs_large (ipfs cid false) = is_cid cid && has_large_size (source.listed_size cid)
  needs_large _ = false

  -- The body of the `try`, once the slots are taken.
  unfoldable pub reply_to : Request → Reply
  unfolding replied
  reply_to health = healthy source.sha256 source.row_count source.byte_count
  reply_to (blocks query) = replied (do
    cursor ← query_cursor query
    n ← cursor_number (codes cursor)
    page ← source.page_at n
    ok (listing page))
  reply_to (ipfs cid false) =
      replied (do require (is_cid cid) invalid_cid; bytes ← source.read_block cid; ok (block bytes))
  reply_to _ = not_found

  -- `large_block_slot.acquire(blocking=False)` by a request that needs it and does not have it.
  unfoldable pub reserved : Option (Running × List Running) → Server → Option Reply × Server
  reserved none s = (none, s)
  reserved (some (r, others)) s =
      if needs_large r.request && not r.large
      then if s.free_large == 0 then (some large_reader_busy, release r others s) else (
        none,
        record s {
          free_large = s.free_large - 1;
          running = record { request = r.request; large = true } ∷ others;
        },
      )
      else (none, s)

  -- A request that still has to ask for the large slot does not end here.
  unfoldable pub finished : Option (Running × List Running) → Server → Option Reply × Server
  finished none s = (none, s)
  finished (some (r, others)) s =
      if needs_large r.request && not r.large
      then (none, s)
      else (some (reply_to r.request), release r others s)

  unfoldable pub step : Event → Server → Option Reply × Server
  step (comes_in request) s = arrived request s
  step (asks_large i) s = reserved (take_out i s.running) s
  step (ends i) s = finished (take_out i s.running) s

  unfoldable pub serve : List Event → Server → Server
  serve [] s = s
  serve (event ∷ events) s = serve events (step event s).1
