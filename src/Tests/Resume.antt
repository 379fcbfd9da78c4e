-- ===== src/Tests/Resume.antt =====
-- Two runs of the readback from its checkpoint file.
use yataverse_distribution.Prelude.{
  ℕ, ◌≡◌, refl, [], ◌∷◌, List, Option, none, some, ok, err, true, arith, take, drop, Bytes,
  bytes_eq,
}
use yataverse_distribution.Json.{Dict, is_sha256, has_key, lookup, text_of, int_of}
use yataverse_distribution.Inventory.{read_item, checked_item, is_cid}
use yataverse_distribution.Inventory.Load.{Snapshot}
use yataverse_distribution.Readback.{State, over_readback_limit, complete, waiting}
use yataverse_distribution.Readback.Accounts.{Balanced, Counted}
use yataverse_distribution.Readback.Checkpoint.{Identity, dict_of, load_state, scan_once}
use yataverse_distribution.Readback.Blocks as Blocks
use yataverse_distribution.Readback.Resume.{scan_once-resumes}
use yataverse_distribution.Tests.Inventory.{cid_a, toy_loads, two_rows, two_items, loaded}
use yataverse_distribution.Tests.RawStore.{empty_slot, toy_hex, toy_hex-is_sha256}
use yataverse_distribution.Tests.Readback.{toy_sha256, toy_fromhex, toy_b32decode, toy_read}

abbrev toy_identity : Identity
toy_identity = record {
  inventory_sha256 = "00";
  inventory_rows = 2;
  repository = "repo";
  peer_id = "peer";
}

abbrev first_row : State
first_row = record {
  cursor = 1;
  present_rows = 1;
  present_bytes = 5;
  missing_rows = 0;
  missing_bytes = 0;
  scan_sha256 = toy_hex [];
}

abbrev first_file : Option (Option Dict)
first_file = some (some (dict_of toy_identity first_row))

snapshot : Snapshot toy_loads toy_hex two_rows loaded two_items
unfolding read_item checked_item is_cid has_key lookup text_of int_of
snapshot = record {
  reads = (refl, (refl, tt));
  offsets = refl;
  sizes = refl;
  positions = refl;
  total = refl;
  identity = refl;
  nodup = (refl, (refl, tt));
}

first_run :
    scan_once toy_sha256 toy_hex toy_fromhex toy_b32decode toy_read toy_loads toy_identity loaded
      two_rows 10 100 true none
    ≡ ok (waiting, first_file)
unfolding scan_once yataverse_distribution.Readback.Checkpoint.load_state
    yataverse_distribution.Readback.Checkpoint.fresh_state
    yataverse_distribution.Readback.Checkpoint.save_state
    yataverse_distribution.Readback.Checkpoint.same_state
    yataverse_distribution.Readback.Checkpoint.dict_of
    yataverse_distribution.Readback.Checkpoint.has_keys_of
    yataverse_distribution.Readback.Checkpoint.same_keys
    yataverse_distribution.Readback.Checkpoint.same_identity
    yataverse_distribution.Readback.Checkpoint.counter
    yataverse_distribution.Readback.Checkpoint.scan_text
    yataverse_distribution.Readback.Checkpoint.is_consistent
    yataverse_distribution.Readback.Checkpoint.counters yataverse_distribution.Readback.advance
    yataverse_distribution.Readback.walk yataverse_distribution.Readback.checked_block
    yataverse_distribution.Readback.count_present yataverse_distribution.Readback.status_of
    yataverse_distribution.Readback.scan yataverse_distribution.Inventory.rows
    yataverse_distribution.Inventory.read_rows yataverse_distribution.Inventory.seek
    yataverse_distribution.Inventory.read_row yataverse_distribution.Json.text_of
    yataverse_distribution.Json.lookup yataverse_distribution.Json.int_of
    yataverse_distribution.Json.has_key yataverse_distribution.Json.is_text
    yataverse_distribution.Json.is_number yataverse_distribution.Json.is_sha256
    yataverse_distribution.Json.all_codes yataverse_distribution.RawStore.verify_cid
    yataverse_distribution.Prelude.bytes_eq
first_run = refl

second_run :
    scan_once toy_sha256 toy_hex toy_fromhex toy_b32decode toy_read toy_loads toy_identity loaded
      two_rows 10 100 true first_file
    ≡ ok (waiting, first_file)
unfolding scan_once yataverse_distribution.Readback.Checkpoint.load_state
    yataverse_distribution.Readback.Checkpoint.fresh_state
    yataverse_distribution.Readback.Checkpoint.save_state
    yataverse_distribution.Readback.Checkpoint.same_state
    yataverse_distribution.Readback.Checkpoint.dict_of
    yataverse_distribution.Readback.Checkpoint.has_keys_of
    yataverse_distribution.Readback.Checkpoint.same_keys
    yataverse_distribution.Readback.Checkpoint.same_identity
    yataverse_distribution.Readback.Checkpoint.counter
    yataverse_distribution.Readback.Checkpoint.scan_text
    yataverse_distribution.Readback.Checkpoint.is_consistent
    yataverse_distribution.Readback.Checkpoint.counters yataverse_distribution.Readback.advance
    yataverse_distribution.Readback.walk yataverse_distribution.Readback.checked_block
    yataverse_distribution.Readback.count_present yataverse_distribution.Readback.status_of
    yataverse_distribution.Readback.scan yataverse_distribution.Inventory.rows
    yataverse_distribution.Inventory.read_rows yataverse_distribution.Inventory.seek
    yataverse_distribution.Inventory.read_row yataverse_distribution.Json.text_of
    yataverse_distribution.Json.lookup yataverse_distribution.Json.int_of
    yataverse_distribution.Json.has_key yataverse_distribution.Json.is_text
    yataverse_distribution.Json.is_number yataverse_distribution.Json.is_sha256
    yataverse_distribution.Json.all_codes yataverse_distribution.RawStore.verify_cid
    yataverse_distribution.Prelude.bytes_eq
second_run = refl

refused_size :
    Blocks.read toy_loads toy_sha256 toy_b32decode toy_hex (λ cid. empty_slot) (λ cid. none) cid_a 0
    ≡ err over_readback_limit
unfolding Blocks.read
refused_size = refl

block_of_kubo :
    Blocks.read toy_loads toy_sha256 toy_b32decode toy_hex
      (λ cid. empty_slot)
      (λ cid. some (200, 7 ∷ []))
      cid_a
      1
    ≡ ok (some (7 ∷ []))
unfolding Blocks.read Blocks.max_block Blocks.from_kubo yataverse_distribution.RawStore.Store.read
    yataverse_distribution.RawStore.sha256_digest Blocks.checked_answer
block_of_kubo = refl

scan_once-resumes_example :
    (st st' : State) × (load_state toy_identity none ≡ ok st)
    × (load_state toy_identity first_file ≡ ok st')
    × Counted 100 true (take 10 (drop st.cursor two_items)) 0 st st'
    × Balanced st'
    × (waiting ≡ complete → (st'.cursor ≡ 2) × (st'.missing_rows ≡ 0))
scan_once-resumes_example =
    scan_once-resumes toy_sha256 toy_hex toy_fromhex toy_b32decode toy_read toy_hex-is_sha256
      toy_loads refl toy_identity loaded two_rows two_items 10 100 true none first_file waiting
      snapshot refl (omega arith) (omega arith) first_run
