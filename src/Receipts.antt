-- ===== src/Receipts.antt =====
-- `CarReceipts` of deploy/serve_lake.py: the inventory ranges that receipts prove, merged, and the
-- question whether a row is in one of them.
pub mod Merge
pub mod Covers
use yataverse_distribution.Prelude.{
  ℕ, zero, suc, ◌+◌, ◌-◌, ◌*◌, ◌==◌, Bool, true, false, not, ◌&&◌, ◌||◌, Option, none, some, List,
  [], ◌∷◌, ◌++◌, String, ltb, leb, max, length, get_elem?, is_empty, Bytes, bytes_eq, Result, ok,
  err, require, ◌>>=◌, ◌>>◌, if◌then◌else◌,
}
use yataverse_distribution.Json.{
  Json, Dict, lookup, text_of, is_number, is_text, codes, between, is_sha256,
}
use yataverse_distribution.Inventory.{
  InventoryError, Item, File, Inventory, rows, is_cid, invalid_receipt_name, receipt_unreadable,
  receipt_not_object, receipt_range_invalid, receipt_differs, directory_absent,
  no_receipt_directory, invalid_cid_or_size,
}

-- Rows `start` up to and without `end`.
pub record Range : Type 0 where
  pub start : ℕ
  pub end : ℕ

-- What `json.loads(path.read_text())` gives.
pub data Contents : Type 0 where
  unreadable not_object : Contents
  object : Dict → Contents

-- A file that `glob` found.
pub record ReceiptFile : Type 0 where
  pub name : String
  pub contents : Contents

-- A directory: what its glob finds, in the order of the file system, and its `st_mtime_ns`.
pub record Directory : Type 0 where
  pub is_dir : Bool
  pub files : List ReceiptFile
  pub mtime : ℕ

-- `[0-9]+`, greedily, with its value, and what follows.
unfoldable pub take_digits : List ℕ → ℕ → Bool → Result InventoryError (ℕ × List ℕ)
take_digits [] value some_digit = if some_digit then ok (value, []) else err invalid_receipt_name
take_digits (c ∷ cs) value some_digit =
    let rest = take_digits cs (value * 10 + (c - b'0')) true in
    if between b'0' b'9' c
    then rest
    else if some_digit
    then ok (value, c ∷ cs)
    else err invalid_receipt_name

-- What follows these characters.
unfoldable pub strip : List ℕ → List ℕ → Result InventoryError (List ℕ)
strip [] cs = ok cs
strip (p ∷ ps) [] = err invalid_receipt_name
strip (p ∷ ps) (c ∷ cs) =
    let rest = strip ps cs in if p == c then rest else err invalid_receipt_name

-- `re.fullmatch(r"row-([0-9]+)-([0-9]+)" + suffix, name)`, with the range of its rows.
unfoldable pub named_range : String → String → Result InventoryError Range
unfolding take_digits strip
named_range suffix name = do
  digits ← strip (codes "row-") (codes name)
  (start, behind) ← take_digits digits 0 false
  digits' ← strip (codes "-") behind
  (last, behind') ← take_digits digits' 0 false
  require (bytes_eq behind' (codes suffix)) invalid_receipt_name
  ok (record { start = start; end = last + 1 })

unfoldable pub loaded_record : Contents → Result InventoryError Dict
loaded_record unreadable = err receipt_unreadable
loaded_record not_object = err receipt_not_object
loaded_record (object d) = ok d

-- `isinstance(value, str) and CID.fullmatch(value)`
unfoldable pub is_cid_text : Option String → Bool
is_cid_text none = false
is_cid_text (some s) = is_cid s

unfoldable pub is_sha256_text : Option String → Bool
is_sha256_text none = false
is_sha256_text (some s) = is_sha256 s

-- `isinstance(value, str) and value`
unfoldable pub is_nonempty_text : Option String → Bool
is_nonempty_text none = false
is_nonempty_text (some s) = not (is_empty (codes s))

unfoldable pub sum_sizes : List Item → ℕ
sum_sizes [] = 0
sum_sizes (item ∷ items) = item.size + sum_sizes items

-- The checks that both kinds of receipt share.
unfoldable pub names_range : Inventory → String → Range → Dict → Bool
names_range inv repository r d =
    is_text "complete" (lookup "status" d)
    && is_text inv.sha256 (lookup "inventory_sha256" d)
    && is_number r.start (lookup "start_row" d)
    && is_number r.end (lookup "end_row" d)
    && is_text repository (lookup "repository" d)
    && is_cid_text (text_of (lookup "root" d))

-- `0 <= start < end <= len(inventory.offsets)`
unfoldable pub in_inventory : Inventory → Range → Bool
in_inventory inv r = ltb r.start r.end && leb r.end (length inv.offsets)

unfoldable pub car_range : Inventory → String → ReceiptFile → Result InventoryError Range
unfolding named_range loaded_record names_range in_inventory is_sha256_text
car_range inv repository f = do
  r ← named_range "-import.json" f.name
  d ← loaded_record f.contents
  require
      (names_range inv repository r d
        && is_number (r.end - r.start) (lookup "blocks" d)
        && in_inventory inv r
        && is_sha256_text (text_of (lookup "car_sha256" d)))
      receipt_differs
  ok r

-- `ranges.sort()` orders pairs.
unfoldable pub range_le : Range → Range → Bool
range_le a b = ltb a.start b.start || (a.start == b.start && leb a.end b.end)

unfoldable pub insert : Range → List Range → List Range
unfolding range_le
insert r [] = r ∷ []
insert r (q ∷ qs) = let rest = insert r qs in if range_le r q then r ∷ q ∷ qs else q ∷ rest

unfoldable pub sorted : List Range → List Range
unfolding insert
sorted [] = []
sorted (r ∷ rs) = insert r (sorted rs)

-- The loop that merges, with `covered[-1]` beside it.
unfoldable pub merge_from : Range → List Range → List Range
merge_from last [] = last ∷ []
merge_from last (r ∷ rs) =
    let longer : Range = record { start = last.start; end = max last.end r.end } in
    let joined = merge_from longer rs in
    let apart = last ∷ merge_from r rs in if leb r.start last.end then joined else apart

unfoldable pub merge : List Range → List Range
unfolding merge_from
merge [] = []
merge (r ∷ rs) = merge_from r rs

-- The object: its two directories' times at the last refresh, and what it derived from them.
pub record CarReceipts : Type 0 where
  pub mtimes : Option (List ℕ)
  pub starts : List ℕ
  pub ranges : List Range

unfoldable pub starts_of_ranges : List Range → List ℕ
starts_of_ranges [] = []
starts_of_ranges (r ∷ rs) = r.start ∷ starts_of_ranges rs

-- `bisect.bisect_right` on an ascending list: how many of its elements are at most `x`.
unfoldable pub bisect_right : List ℕ → ℕ → ℕ
bisect_right [] x = 0
bisect_right (s ∷ ss) x = if leb s x then suc (bisect_right ss x) else 0

unfoldable pub mtimes_of : List Directory → List ℕ
mtimes_of [] = []
mtimes_of (d ∷ ds) = d.mtime ∷ mtimes_of ds

unfoldable pub all_dirs : List Directory → Bool
all_dirs [] = true
all_dirs (d ∷ ds) = d.is_dir && all_dirs ds

unfoldable pub files_of : List Directory → List ReceiptFile
files_of [] = []
files_of (d ∷ ds) = d.files ++ files_of ds

-- `mtime == self.mtime_ns`
unfoldable pub same_mtimes : List ℕ → Option (List ℕ) → Bool
same_mtimes now none = false
same_mtimes now (some before) = bytes_eq now before

unfoldable pub collect :
    (ReceiptFile → Result InventoryError Range)
    → List ReceiptFile
    → Result InventoryError (List Range)
collect f [] = ok []
collect f (file ∷ files) = do r ← f file; rs ← collect f files; ok (r ∷ rs)

-- `self.inventory.positions[cid]`; the caller has looked the CID up in `sizes`.
unfoldable pub position_of : Inventory → String → Result InventoryError ℕ
position_of inv cid = elim (lookup cid inv.positions) [
  | none ↦ err invalid_cid_or_size
  | some row ↦ ok row
]

-- `range[1]` of the range at `index`, compared with the row.
unfoldable pub row_below : List Range → ℕ → ℕ → Bool
row_below ranges index row = elim (get_elem? ranges index) [ none ↦ false | some r ↦ ltb row r.end ]

-- `index = bisect_right(starts, row) - 1; index >= 0 and row < ranges[index][1]`
unfoldable pub covers_row : CarReceipts → ℕ → Bool
unfolding bisect_right row_below
covers_row receipts row =
    let n = bisect_right receipts.starts row in ltb 0 n && row_below receipts.ranges (n - 1) row

module _ (loads : Bytes → Option Dict) (hexdigest : Bytes → String) where
  unfoldable pub native_range :
      Inventory → File → String → ReceiptFile → Result InventoryError Range
  unfolding named_range loaded_record names_range in_inventory is_nonempty_text sum_sizes
  native_range inv file repository f = do
    r ← named_range "-native.json" f.name
    d ← loaded_record f.contents
    require (in_inventory inv r && leb (r.end - r.start) 1000) receipt_range_invalid
    (items, actual_end) ← rows loads hexdigest inv file r.start (r.end - r.start)
    require
        (actual_end == r.end
          && names_range inv repository r d
          && is_number (length items) (lookup "blocks" d)
          && is_number (sum_sizes items) (lookup "bytes" d)
          && is_nonempty_text (text_of (lookup "source_peer" d)))
        receipt_differs
    ok r

  -- `refresh`: the CAR directory, if any, stands before the native ones among the times, and behind
  -- them among the ranges.
  unfoldable pub refresh :
      Inventory
      → File
      → String
      → List Directory
      → List Directory
      → CarReceipts
      → Result InventoryError CarReceipts
  unfolding merge sorted starts_of_ranges mtimes_of all_dirs files_of same_mtimes collect
      native_range car_range
  refresh inv file repository car native receipts =
      let now = mtimes_of (car ++ native) in
      let renewed = (do
        natives ← collect (native_range inv file repository) (files_of native)
        cars ← collect (car_range inv repository) (files_of car)
        let covered = merge (sorted (natives ++ cars))
        ok (record { mtimes = some now; starts = starts_of_ranges covered; ranges = covered })) in
      if not (all_dirs (car ++ native))
      then err directory_absent
      else if same_mtimes now receipts.mtimes
      then ok receipts
      else renewed

  -- The object as the constructor leaves it.
  unfoldable pub new_receipts :
      Inventory
      → File
      → String
      → List Directory
      → List Directory
      → Result InventoryError CarReceipts
  unfolding refresh
  new_receipts inv file repository car native = do
    require (not (is_empty (car ++ native))) no_receipt_directory
    refresh inv file repository car native (record { mtimes = none; starts = []; ranges = [] })

  -- `covers`, with the receipts as it leaves them.
  unfoldable pub covers :
      Inventory
      → File
      → String
      → List Directory
      → List Directory
      → CarReceipts
      → String
      → Result InventoryError (Bool × CarReceipts)
  unfolding refresh covers_row position_of
  covers inv file repository car native receipts cid = do
    receipts' ← refresh inv file repository car native receipts
    row ← position_of inv cid
    ok (covers_row receipts' row, receipts')
