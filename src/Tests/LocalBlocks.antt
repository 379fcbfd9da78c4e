-- ===== src/Tests/LocalBlocks.antt =====
-- A block of five bytes, pinned directly, and no raw store.
use yataverse_distribution.Prelude.{◌≡◌, ◌≤◌, refl, [], ◌++◌, none, some, ok, length, bytes_eq}
use yataverse_distribution.Json.{codes, lookup}
use yataverse_distribution.RawStore.{verify_cid}
use yataverse_distribution.LocalBlocks.{
  Ipfs, LocalBlocks, read, is_pinned, says, size_of, read_raw, is_covered, checked_get, read_kubo,
}
use yataverse_distribution.LocalBlocks.Verified.{IsHeld, read-Served}
use yataverse_distribution.Tests.Inventory.{cid_a, toy_loads, two_rows, loaded}
use yataverse_distribution.Tests.RawStore.{toy_sha256, toy_b32decode, toy_hex, five}

abbrev toy_ipfs : Ipfs
toy_ipfs = record {
  pin_direct = λ cid. some (codes cid ++ codes " direct");
  pin_all = λ cid. none;
  block_get = λ cid. some five;
}

abbrev toy_blocks : LocalBlocks
toy_blocks = record {
  inventory = loaded;
  max_block_bytes = 10;
  raw_store = none;
  car_receipts = none;
}

served :
    read toy_ipfs toy_sha256 toy_b32decode toy_hex toy_loads two_rows "/repo" [] [] toy_blocks cid_a
    ≡ ok (five, none)
unfolding read size_of read_raw read_kubo is_covered is_pinned says checked_get verify_cid bytes_eq
    lookup
served = refl

read-Served_example :
    (lookup cid_a loaded.sizes ≡ some (length five))
    × (length five ≤ 10)
    × (verify_cid toy_sha256 toy_b32decode (codes cid_a) five ≡ ok tt)
    × IsHeld toy_ipfs toy_sha256 toy_b32decode toy_hex toy_loads two_rows "/repo" [] [] toy_blocks
        cid_a five
read-Served_example =
    read-Served toy_ipfs toy_sha256 toy_b32decode toy_hex toy_loads two_rows "/repo" [] []
      toy_blocks cid_a five none served
