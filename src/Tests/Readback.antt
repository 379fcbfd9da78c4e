-- ===== src/Tests/Readback.antt =====
-- A batch of the readback over two rows, of which the second is missing. The CIDs decode to a
-- digest of the toy function: 32 times the length.
use yataverse_distribution.Prelude.{
  ℕ, ◌≡◌, refl, [], ◌∷◌, List, String, Bytes, Option, none, some, Result, ok, true, length,
  replicate, ◌==◌, if◌then◌else◌, bytes_eq,
}
use yataverse_distribution.Json.{text_of, lookup, int_of}
use yataverse_distribution.RawStore.{verify_cid}
use yataverse_distribution.Inventory.{rows, read_rows, read_row, seek}
use yataverse_distribution.Readback.{
  ReadbackError, State, waiting, status_of, checked_block, count_present, walk, advance, scan,
}
use yataverse_distribution.Tests.Inventory.{toy_loads, toy_hexdigest, two_rows, loaded}

abbrev pub toy_sha256 : Bytes → Bytes
toy_sha256 bytes = replicate 32 (length bytes)

abbrev pub toy_fromhex : String → Bytes
toy_fromhex s = 0 ∷ []

abbrev pub toy_b32decode : List ℕ → Option Bytes
toy_b32decode cs = some (1 ∷ 0x55 ∷ 0x12 ∷ 0x20 ∷ replicate 32 5)

abbrev pub toy_read : String → ℕ → Result ReadbackError (Option Bytes)
toy_read cid size = ok (if size == 5 then some (replicate 5 9) else none)

abbrev before_scan : State
before_scan = record {
  cursor = 0;
  present_rows = 0;
  present_bytes = 0;
  missing_rows = 0;
  missing_bytes = 0;
  scan_sha256 = "00";
}

abbrev after_scan : State
after_scan = record {
  cursor = 1;
  present_rows = 1;
  present_bytes = 5;
  missing_rows = 0;
  missing_bytes = 0;
  scan_sha256 = "00";
}

waits_for_second :
    advance toy_sha256 toy_hexdigest toy_fromhex toy_b32decode toy_read toy_loads loaded two_rows
      before_scan 10 100 true
    ≡ ok (after_scan, waiting)
unfolding advance walk checked_block count_present status_of scan rows read_rows seek read_row
    text_of lookup int_of verify_cid bytes_eq
waits_for_second = refl
