-- ===== src/Tests/Replicate.antt =====
-- A replication batch over one page of one block, into a toy daemon that remembers its pin.
use yataverse_distribution.Prelude.{
  ℕ, ◌+◌, ◌≡◌, ◌≤◌, refl, [], ◌∷◌, String, Bytes, Bool, Option, none, some, Result, ok, err, true,
  false, length, arith, All, bytes_eq,
}
use yataverse_distribution.Prelude.Actions.{give, ◌>>=◌, ensure, lift, current, change, attempt}
use yataverse_distribution.Inventory.{Item}
use yataverse_distribution.RawStore.Store.{absent}
use yataverse_distribution.Replicate.{
  ReplicationError, fresh_state, state_load, state_save, Listing, size_differs,
}
use yataverse_distribution.Replicate.Checkpoint.{state_load-state_save}
use yataverse_distribution.Replicate.Prefetch.{prefetch_ordered}
use yataverse_distribution.Replicate.Prefetch.Window.{
  yields, Within, prefetch_ordered-yields, prefetch_ordered-Within,
}
use yataverse_distribution.Replicate.Put.{
  Rpc, World, contains, ask, put_verified, put_options, is_text_of, lists, is_durable, listed, pin,
  pin_or_store, confirm, add_pin_entry,
}
use yataverse_distribution.Replicate.Put.Durable.{Held, put_verified-Held}
use yataverse_distribution.Replicate.Batch.{
  Args, Counters, over_budget, last_page, cycle_complete, run_batch, run_pages, run_page,
  run_listing, select, note_durable, plan_copy, reserve_left, copy, copy_block, finish_page,
}
use yataverse_distribution.Replicate.Batch.Pages.{Accounted, run_listing-pinned}
use yataverse_distribution.Replicate.Batch.Cursor.{
  SameProgress, run_listing-raises, run_listing-over_budget,
}
use yataverse_distribution.Replicate.Batch.Totals.{run_batch-Tally}
use yataverse_distribution.Tests.Inventory.{cid_a, two_items}
use yataverse_distribution.Tests.RawStore.{toy_sha256, toy_b32decode, toy_hex, five}

state_load-state_save_example : state_load (state_save fresh_state) ≡ ok fresh_state
state_load-state_save_example = state_load-state_save fresh_state

prefetch_ordered-yields_example : yields (prefetch_ordered two_items 1 7) ≡ two_items
prefetch_ordered-yields_example = prefetch_ordered-yields two_items 1 7 (omega arith)

prefetch_ordered-Within_example : Within 2 10 [] (prefetch_ordered two_items 2 10)
prefetch_ordered-Within_example = prefetch_ordered-Within two_items 2 10 (omega arith)

-- The state is whether the block is pinned.
abbrev toy_rpc : Rpc
toy_rpc = record {
  Daemon = Bool;
  cid_format = λ cid d. (ok ("cidv1" ∷ "raw" ∷ "sha2-256" ∷ "32" ∷ []), d);
  block_put = λ options block d. (ok (some cid_a), d);
  block_get = λ cid size d. (ok five, d);
  pin_add = λ cid d. (ok (some (cid ∷ [])), true);
  pin_ls = λ kind cid d. (ok d, d);
  block_stat = λ cid d. (ok (some 5), d);
}

abbrev before : World Bool
before = record {
  daemon = false;
  pins = [];
  raw_cids = [];
  slots = λ cid. record { block = absent; meta = absent };
  saved = fresh_state;
  receipts = [];
}

abbrev after : World Bool
after = record before { daemon = true; pins = cid_a ∷ [] }

put_verified-five :
    put_verified toy_sha256 toy_b32decode toy_hex toy_rpc false cid_a five before ≡ (ok tt, after)
unfolding put_verified ◌>>=◌ ask lift put_options ensure is_text_of bytes_eq pin_or_store attempt
    pin lists contains confirm is_durable listed give add_pin_entry change
put_verified-five = refl

put_verified-Held_example :
    Held toy_sha256 toy_b32decode toy_hex toy_rpc cid_a five after
    × ((w0 : World Bool) × (w1 : World Bool) × (ask toy_sha256 toy_b32decode toy_hex toy_rpc
            (toy_rpc.block_get cid_a (length five))
            w0
          ≡ (ok five, w1)))
put_verified-Held_example =
    put_verified-Held toy_sha256 toy_b32decode toy_hex toy_rpc false cid_a five before after
      put_verified-five

abbrev toy_args : Args
toy_args = record {
  max_pages = 2;
  max_new_bytes = 100;
  max_block_bytes = 50;
  fetch_workers = 2;
  max_prefetch_bytes = 60;
  min_free_bytes = 10;
  local = false;
  inventory_sha256 = "00";
  raw_enabled = false;
  repo_size = 0;
  storage_max = 1000;
}

abbrev one_page : Listing
one_page = record {
  blocks = record { cid = cid_a; size = 5 } ∷ [];
  truncated = false;
  cursor = none;
  inventory_sha256 = none;
}

abbrev toy_listing : Option String → Result ReplicationError Listing
toy_listing cursor = ok one_page

abbrev toy_fetch : String → ℕ → Result ReplicationError Bytes
toy_fetch cid limit = ok five

abbrev toy_free : World Bool → ℕ
toy_free w = 1000

abbrev no_counts : Counters
no_counts = record { new_bytes = 0; new_blocks = 0; checked_blocks = 0 }

abbrev one_copied : Counters
one_copied = record { new_bytes = 5; new_blocks = 1; checked_blocks = 1 }

abbrev copied : World Bool
copied = record after {
  saved = record {
    cursor = none;
    cycles = 1;
    pages_total = 1;
    new_blocks_total = 1;
    new_bytes_total = 5;
    listing_source = none;
  };
  receipts = (cid_a, 5, toy_hex five) ∷ [];
}

batch_runs :
    run_batch toy_sha256 toy_b32decode toy_hex toy_rpc toy_args toy_listing toy_fetch toy_free
      before
    ≡ (ok (one_copied, cycle_complete), copied)
unfolding run_batch run_pages ◌>>=◌ run_page current lift run_listing ensure select note_durable
    contains is_durable listed ask give plan_copy reserve_left copy prefetch_ordered copy_block
    put_verified put_options is_text_of bytes_eq pin_or_store attempt pin lists confirm
    add_pin_entry change finish_page
batch_runs = refl

run_batch-Tally_example :
    (one_copied.new_bytes ≤ 100)
    × (copied.saved.new_bytes_total ≡ before.saved.new_bytes_total + 5)
    × (copied.saved.new_blocks_total ≡ before.saved.new_blocks_total + 1)
run_batch-Tally_example =
    run_batch-Tally toy_sha256 toy_b32decode toy_hex toy_rpc toy_args toy_listing toy_fetch toy_free
      one_copied cycle_complete before copied batch_runs

page_runs :
    run_listing toy_sha256 toy_b32decode toy_hex toy_rpc toy_args toy_listing toy_fetch toy_free
      one_page no_counts before
    ≡ (ok (one_copied, last_page), copied)
unfolding ◌>>=◌ current lift run_listing ensure select note_durable contains is_durable listed ask
    give plan_copy reserve_left copy prefetch_ordered copy_block put_verified put_options is_text_of
    bytes_eq pin_or_store attempt pin lists confirm add_pin_entry change finish_page
page_runs = refl

run_listing-pinned_example :
    All
      (λ (i : Item).
        (contains i.cid copied.pins ≡ true)
        × Accounted toy_sha256 toy_b32decode toy_hex toy_rpc toy_args toy_listing toy_fetch toy_free
            i)
      one_page.blocks
run_listing-pinned_example =
    run_listing-pinned toy_sha256 toy_b32decode toy_hex toy_rpc toy_args toy_listing toy_fetch
      toy_free one_page no_counts one_copied last_page before copied page_runs (λ e. cc)

-- A source that sends other bytes.
abbrev short_fetch : String → ℕ → Result ReplicationError Bytes
short_fetch cid limit = ok (9 ∷ [])

short_page :
    run_listing toy_sha256 toy_b32decode toy_hex toy_rpc toy_args toy_listing short_fetch toy_free
      one_page no_counts before
    ≡ (err size_differs, before)
unfolding ◌>>=◌ current lift run_listing ensure select note_durable contains is_durable listed ask
    give plan_copy reserve_left copy prefetch_ordered copy_block put_verified put_options is_text_of
    bytes_eq pin_or_store attempt pin lists confirm add_pin_entry change finish_page
short_page = refl

run_listing-raises_example : SameProgress before.saved before.saved
run_listing-raises_example =
    run_listing-raises toy_sha256 toy_b32decode toy_hex toy_rpc toy_args toy_listing short_fetch
      toy_free one_page no_counts size_differs before before short_page

-- A budget of four bytes.
abbrev tight_args : Args
tight_args = record toy_args { max_new_bytes = 4 }

tight_page :
    run_listing toy_sha256 toy_b32decode toy_hex toy_rpc tight_args toy_listing toy_fetch toy_free
      one_page no_counts before
    ≡ (ok (no_counts, over_budget), before)
unfolding ◌>>=◌ current lift run_listing ensure select note_durable contains is_durable listed ask
    give plan_copy reserve_left copy prefetch_ordered copy_block put_verified put_options is_text_of
    bytes_eq pin_or_store attempt pin lists confirm add_pin_entry change finish_page
tight_page = refl

run_listing-over_budget_example : SameProgress before.saved before.saved
run_listing-over_budget_example =
    run_listing-over_budget toy_sha256 toy_b32decode toy_hex toy_rpc tight_args toy_listing
      toy_fetch toy_free one_page no_counts no_counts before before tight_page
