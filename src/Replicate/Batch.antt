-- ===== src/Replicate/Batch.antt =====
-- `run_batch` of deploy/replicate_lake.py behind `preflight`, on a `KuboRPC`. The listing, the
-- block source and the free disk space are inputs; each save of the checkpoint is one step.
pub mod Rounds
pub mod Pages
pub mod Cursor
pub mod Totals
use yataverse_distribution.Prelude.{
  ℕ, zero, suc, ◌+◌, ◌-◌, ◌*◌, ◌==◌, Bool, true, false, not, ◌&&◌, ◌||◌, Option, none, some, List,
  [], ◌∷◌, ◌++◌, String, ltb, leb, length, min, Bytes, Result, ok, err, if◌then◌else◌,
}
use yataverse_distribution.Prelude.Actions.{
  Action, give, raise, current, change, ensure, lift, ◌>>=◌, ◌>>◌,
}
use yataverse_distribution.Json.{Json, is_text}
use yataverse_distribution.Inventory.{Item}
use yataverse_distribution.Replicate.{
  ReplicationError, State, Listing, over_prefetch_budget, over_block_bytes, size_differs,
  storage_exceeded, reserve_crossed, inventory_differs,
}
use yataverse_distribution.Replicate.Prefetch.{Event, submit, yield, refuse, prefetch_ordered}
use yataverse_distribution.Replicate.Put.{
  Rpc, World, contains, is_durable, add_pin_entry, put_verified, block_size, Batch,
}

-- The options that the batch reads, and the capacity that `preflight` has read.
pub record Args : Type 0 where
  pub max_pages : ℕ
  pub max_new_bytes : ℕ
  pub max_block_bytes : ℕ
  pub fetch_workers : ℕ
  pub max_prefetch_bytes : ℕ
  pub min_free_bytes : ℕ
  pub local : Bool
  pub inventory_sha256 : String
  pub raw_enabled : Bool
  pub repo_size : ℕ
  pub storage_max : ℕ

-- The local counters of `run_batch`.
pub record Counters : Type 0 where
  pub new_bytes : ℕ
  pub new_blocks : ℕ
  pub checked_blocks : ℕ

-- What the loop over a listing's blocks selects.
pub record Selection : Type 0 where
  pub items : List Item
  pub checked : ℕ
  pub budget_stop : Bool

pub data Status : Type 0 where
  byte_budget cycle_complete page_limit : Status

pub data PageEnd : Type 0 where
  over_budget last_page more_pages : PageEnd

abbrev pub none_selected : Bool → Selection
none_selected stop = record { items = []; checked = 0; budget_stop = stop }

abbrev pub one_checked : Selection → Selection
one_checked s = record s { checked = s.checked + 1 }

abbrev pub one_selected : Item → Selection → Selection
one_selected item s = record s { items = item ∷ s.items }

-- `state["new_blocks_total"] += 1; state["new_bytes_total"] += size`
abbrev pub add_block : ℕ → State → State
add_block size st = record st {
  new_blocks_total = st.new_blocks_total + 1;
  new_bytes_total = st.new_bytes_total + size;
}

-- The checkpoint behind a page that is followed by another, and behind the last one.
abbrev pub next_page : Option String → State → State
next_page cursor st = record st { pages_total = st.pages_total + 1; cursor = cursor }

abbrev pub next_cycle : State → State
next_cycle st = record st {
  pages_total = st.pages_total + 1;
  cursor = none;
  cycles = st.cycles + 1;
}

module _ (sha256 : Bytes → Bytes) (b32decode : List ℕ → Option Bytes) (hexdigest : Bytes → String)
    (rpc : Rpc) (args : Args) (listing : Option String → Result ReplicationError Listing)
    (fetch_block : String → ℕ → Result ReplicationError Bytes)
    (free_bytes : World rpc.Daemon → ℕ) where
  -- `require_disk_reserve`
  unfoldable pub reserve_left : World rpc.Daemon → ℕ → Bool
  reserve_left w new_bytes = leb (args.min_free_bytes + 2 * new_bytes) (free_bytes w)

  -- A CID that is not among the pins, but that the daemon holds durably, becomes one of them.
  unfoldable pub note_durable : String → Batch sha256 b32decode hexdigest rpc (Unit {0})
  note_durable cid = do
    w ← current
    let look = (do
      durable ← is_durable sha256 b32decode hexdigest rpc cid
      if durable then add_pin_entry sha256 b32decode hexdigest rpc cid else give tt)
    if contains cid w.pins then give tt else look

  -- A block that is among the pins, before the blocks behind it.
  unfoldable pub check_known :
      Item
      → Batch sha256 b32decode hexdigest rpc Selection
      → Batch sha256 b32decode hexdigest rpc Selection
  check_known item others = do
    size ← block_size sha256 b32decode hexdigest rpc item.cid
    ensure (size == item.size) size_differs
    rest ← others
    give (one_checked rest)

  -- A block to be copied, where `planned` counts it.
  unfoldable pub plan_copy :
      Item
      → ℕ
      → ℕ
      → Batch sha256 b32decode hexdigest rpc Selection
      → Batch sha256 b32decode hexdigest rpc Selection
  plan_copy item new_bytes planned others = do
    ensure (ltb (args.repo_size + 2 * (new_bytes + planned)) args.storage_max) storage_exceeded
    w ← current
    ensure (reserve_left w planned) reserve_crossed
    rest ← others
    give (one_selected item rest)

  -- The loop over `listing["blocks"]`.
  unfoldable pub select : List Item → ℕ → ℕ → Batch sha256 b32decode hexdigest rpc Selection
  select [] new_bytes planned = give (none_selected false)
  select (item ∷ items) new_bytes planned = do
    ensure (leb item.size args.max_block_bytes) over_block_bytes
    note_durable item.cid
    w ← current
    let known = check_known item (select items new_bytes planned)
    let fresh =
        plan_copy item new_bytes (planned + item.size)
          (select items new_bytes (planned + item.size))
    if contains item.cid w.pins
        then known
        else if ltb args.max_new_bytes (new_bytes + (planned + item.size))
        then give (none_selected true)
        else fresh

  abbrev pub one_copied : Item → Counters → Counters
  one_copied item c = record {
    new_bytes = c.new_bytes + item.size;
    new_blocks = c.new_blocks + 1;
    checked_blocks = c.checked_blocks + 1;
  }

  abbrev pub record_copy : Item → Bytes → World rpc.Daemon → World rpc.Daemon
  record_copy item block w = record w {
    receipts = w.receipts ++ ((item.cid, item.size, hexdigest block) ∷ []);
    saved = add_block item.size w.saved;
  }

  -- One block that `prefetch_ordered` yields.
  unfoldable pub copy_block : Item → Batch sha256 b32decode hexdigest rpc (Unit {0})
  copy_block item = do
    block ← lift (fetch_block item.cid (min item.size args.max_block_bytes))
    ensure (length block == item.size) size_differs
    put_verified sha256 b32decode hexdigest rpc args.raw_enabled item.cid block
    change (record_copy item block)

  -- The loop over the yielded blocks.
  unfoldable pub copy : List Event → Counters → Batch sha256 b32decode hexdigest rpc Counters
  copy [] c = give c
  copy (submit item ∷ events) c = copy events c
  copy (yield item ∷ events) c = do copy_block item; copy events (one_copied item c)
  copy (refuse item ∷ events) c = raise over_prefetch_budget

  -- The end of a page: nothing is saved when the byte budget stopped it.
  unfoldable pub finish_page : Bool → Listing → Batch sha256 b32decode hexdigest rpc PageEnd
  finish_page budget_stop l =
      if budget_stop
      then give over_budget
      else if l.truncated
      then (do change (λ w. record w { saved = next_page l.cursor w.saved }); give more_pages)
      else (do change (λ w. record w { saved = next_cycle w.saved }); give last_page)

  -- A page of a listing.
  unfoldable pub run_listing :
      Listing → Counters → Batch sha256 b32decode hexdigest rpc (Counters × PageEnd)
  run_listing l c = do
    ensure (not args.local || is_text args.inventory_sha256 l.inventory_sha256) inventory_differs
    selected ← select l.blocks c.new_bytes 0
    let checked : Counters = record c { checked_blocks = c.checked_blocks + selected.checked }
    c' ← copy (prefetch_ordered selected.items args.fetch_workers args.max_prefetch_bytes) checked
    end ← finish_page selected.budget_stop l
    give (c', end)

  -- One round of `for _ in range(args.max_pages)`.
  unfoldable pub run_page : Counters → Batch sha256 b32decode hexdigest rpc (Counters × PageEnd)
  run_page c = do w ← current; l ← lift (listing w.saved.cursor); run_listing l c

  -- How the loop goes on behind a page.
  abbrev pub go_on :
      Counters
      → Batch sha256 b32decode hexdigest rpc (Counters × Status)
      → PageEnd
      → Batch sha256 b32decode hexdigest rpc (Counters × Status)
  go_on c others over_budget = give (c, byte_budget)
  go_on c others last_page = give (c, cycle_complete)
  go_on c others more_pages = others

  unfoldable pub run_pages : ℕ → Counters → Batch sha256 b32decode hexdigest rpc (Counters × Status)
  run_pages zero c = give (c, page_limit)
  run_pages (suc pages) c = do (c', end) ← run_page c; go_on c' (run_pages pages c') end

  unfoldable pub run_batch : Batch sha256 b32decode hexdigest rpc (Counters × Status)
  run_batch =
      run_pages args.max_pages (record { new_bytes = 0; new_blocks = 0; checked_blocks = 0 })
