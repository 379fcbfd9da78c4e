-- ===== src/Tests/Receipts.antt =====
-- Receipts over the two rows of the test inventory.
use yataverse_distribution.Prelude.{
  ℕ, ◌≡◌, ◌<◌, refl, [], ◌∷◌, ◌++◌, List, none, some, ok, true, length, All, bytes_eq,
}
use yataverse_distribution.Json.{Dict, str, int, lookup, text_of, is_number, is_text, is_sha256}
use yataverse_distribution.Inventory.{is_cid}
use yataverse_distribution.Receipts.{
  Range, object, Directory, CarReceipts, refresh, collect, native_range, car_range, files_of,
  same_mtimes, covers_row, covers, is_cid_text,
}
use yataverse_distribution.Receipts.Merge.{any_range}
use yataverse_distribution.Receipts.Covers.{InInventory, refresh-any_range, covers-any_range}
use yataverse_distribution.Tests.Inventory.{toy_loads, toy_hexdigest, two_rows, loaded, cid_a}

abbrev receipt : Dict
receipt =
    ("status", str "complete")
    ∷ ("inventory_sha256", str "00")
    ∷ ("start_row", int 0)
    ∷ ("end_row", int 2)
    ∷ ("blocks", int 2)
    ∷ ("root", str cid_a)
    ∷ ("car_sha256", str "0123456789abcdef0123456789abcdef0123456789abcdef0123456789abcdef")
    ∷ ("repository", str "/repo")
    ∷ []

abbrev car_directory : List Directory
car_directory =
    record {
      is_dir = true;
      files = record { name = "row-0-1-import.json"; contents = object receipt } ∷ [];
      mtime = 7;
    }
    ∷ []

abbrev unread : CarReceipts
unread = record { mtimes = none; starts = []; ranges = [] }

abbrev both_rows : Range
both_rows = record { start = 0; end = 2 }

abbrev read_once : CarReceipts
read_once = record { mtimes = some (7 ∷ []); starts = 0 ∷ []; ranges = both_rows ∷ [] }

refreshed :
    refresh toy_loads toy_hexdigest loaded two_rows "/repo" car_directory [] unread ≡ ok read_once
unfolding refresh lookup is_text is_number text_of is_cid_text is_cid is_sha256 bytes_eq
refreshed = refl

refresh-any_range_example :
    (natives cars : List Range) × (collect
        (native_range toy_loads toy_hexdigest loaded two_rows "/repo")
        (files_of [])
      ≡ ok natives)
    × (collect (car_range loaded "/repo") (files_of car_directory) ≡ ok cars)
    × All (InInventory loaded) (natives ++ cars)
    × ((row : ℕ) → covers_row read_once row ≡ any_range row (natives ++ cars))
refresh-any_range_example =
    refresh-any_range toy_loads toy_hexdigest loaded two_rows "/repo" car_directory [] unread
      read_once (unfold same_mtimes in refl) refreshed

covered :
    covers toy_loads toy_hexdigest loaded two_rows "/repo" car_directory [] unread cid_a
    ≡ ok (true, read_once)
unfolding covers refresh lookup is_text is_number text_of is_cid_text is_cid is_sha256 bytes_eq
covered = refl

covers-any_range_example :
    (row : ℕ) × (natives cars : List Range) × (lookup cid_a loaded.positions ≡ some row)
    × (collect (native_range toy_loads toy_hexdigest loaded two_rows "/repo") (files_of [])
        ≡ ok natives)
    × (collect (car_range loaded "/repo") (files_of car_directory) ≡ ok cars)
    × (true ≡ any_range row (natives ++ cars))
    × (true ≡ true → row < length loaded.offsets)
covers-any_range_example =
    covers-any_range toy_loads toy_hexdigest loaded two_rows "/repo" car_directory [] unread
      read_once cid_a true (unfold same_mtimes in refl) covered
