-- ===== src/Ship/Checks.antt =====
-- What a shipping round checks of its arguments, its files and the receipts of its commands.
use yataverse_distribution.Prelude.{
  ℕ, ◌==◌, Bool, true, false, not, ◌&&◌, ◌||◌, Option, none, some, List, [], ◌∷◌, String, ltb, leb,
  length, Bytes, Result, ok, err, require, ◌>>=◌, ◌>>◌, if◌then◌else◌,
}
use text.Mathlib.Text.{◌==◌ as text_eq}
use yataverse_distribution.Json.{
  Json, Dict, lookup, text_of, int_of, is_text, is_number, is_sha256, between,
}
use yataverse_distribution.Replicate.Put.{contains}
use yataverse_distribution.Ship.{
  ShipError, invalid_identity, invalid_bounds, raw_manifest_differs, checkpoint_differs,
  checkpoint_past_stop, no_receipt, invalid_receipt, missing_field, large_receipt_differs,
  is_car_cid, Skipped, Reason, verified_raw_block_store, oversized_for_car,
}

-- `args.raw_cids_file`: `cids` is none where it is no list, and a CID where it is no text.
pub record RawManifest : Type 0 where
  pub inventory_sha256 : Option Json
  pub cids : Option (List (Option String))

-- The arguments that decide the course of a round, without an S3 destination.
pub record Args : Type 0 where
  pub sha256 : String
  pub count : ℕ
  pub start_row : ℕ
  pub stop_row : Option ℕ
  pub max_blocks : ℕ
  pub max_bytes : ℕ
  pub raw_cids_file : Option RawManifest
  pub has_raw_block_store : Bool
  pub has_large_archive : Bool
  pub has_source_ssh_host : Bool
  pub carv2_zstd : Bool

unfoldable pub stop_of : Args → ℕ
stop_of args = elim args.stop_row [ none ↦ args.count | some stop ↦ stop ]

unfoldable pub check_args : Args → Result ShipError (Unit {0})
check_args args = do
  require
      (is_sha256 args.sha256
        && leb 1 args.count
        && ltb args.start_row (stop_of args)
        && leb (stop_of args) args.count)
      invalid_identity
  require
      (leb 1 args.max_blocks
        && leb args.max_blocks 1000
        && leb 1 args.max_bytes
        && leb args.max_bytes 536870912)
      invalid_bounds
  ok tt

-- The CIDs, if each of them is one, and none is there twice.
unfoldable pub distinct_cids : List (Option String) → Result ShipError (List String)
distinct_cids [] = ok []
distinct_cids (none ∷ cids) = err raw_manifest_differs
distinct_cids (some cid ∷ cids) = do
  others ← distinct_cids cids
  require (is_car_cid (some cid) && not (contains cid others)) raw_manifest_differs
  ok (cid ∷ others)

unfoldable pub manifest_cids : Option (List (Option String)) → Result ShipError (List String)
manifest_cids none = err raw_manifest_differs
manifest_cids (some cids) = distinct_cids cids

unfoldable pub raw_cids_of : Args → Option RawManifest → Result ShipError (List String)
raw_cids_of args none = ok []
raw_cids_of args (some manifest) = do
  require (is_text args.sha256 manifest.inventory_sha256 && args.has_raw_block_store)
      raw_manifest_differs
  manifest_cids manifest.cids

-- The checkpoint; a negative cursor, which no round writes, counts as none.
unfoldable pub cursor_of : Args → Option Dict → Result ShipError ℕ
cursor_of args none = ok args.start_row
cursor_of args (some state) = do
  require (is_text args.sha256 (lookup "inventory_sha256" state)) checkpoint_differs
  elim (int_of (lookup "cursor" state)) [ none ↦ err checkpoint_differs | some cursor ↦ ok cursor ]

-- The row at which the round starts: the stop row, if all rows are shipped.
unfoldable pub start_of : Args → Option Dict → Result ShipError ℕ
start_of args state = do
  start ← cursor_of args state
  require (leb start (stop_of args)) checkpoint_past_stop
  ok start

-- The white space of `str.strip`, by code point.
unfoldable pub is_space : ℕ → Bool
is_space c =
    between 9 13 c
    || between 28 32 c
    || c == 0x85
    || c == 0xA0
    || c == 0x1680
    || between 0x2000 0x200A c
    || between 0x2028 0x2029 c
    || c == 0x202F
    || c == 0x205F
    || c == 0x3000

unfoldable pub is_blank : List ℕ → Bool
is_blank [] = true
is_blank (c ∷ line) = is_space c && is_blank line

-- The last of the lines that are not blank.
unfoldable pub last_line : List (List ℕ) → Option (List ℕ) → Option (List ℕ)
last_line [] found = found
last_line (line ∷ lines) found = last_line lines (if is_blank line then found else some line)

unfoldable pub parsed_line :
    {A : Type 0} → (List ℕ → Option A) → Option (List ℕ) → Result ShipError A
parsed_line loads none = err no_receipt
parsed_line loads (some line) = elim (loads line) [ none ↦ err invalid_receipt | some d ↦ ok d ]

-- The last line of an output, parsed; JSON that is no object counts as invalid.
unfoldable pub last_receipt :
    {A : Type 0} → (List ℕ → Option A) → List (List ℕ) → Result ShipError A
last_receipt loads lines = parsed_line loads (last_line lines none)

-- `receipt[key]`
unfoldable pub field : String → Dict → Result ShipError Json
field key receipt = elim (lookup key receipt) [ none ↦ err missing_field | some value ↦ ok value ]

unfoldable pub text_field : String → Dict → Result ShipError String
text_field key receipt = elim (text_of (lookup key receipt)) [
  | none ↦ err missing_field
  | some value ↦ ok value
]

unfoldable pub is_sha256_json : Option Json → Bool
is_sha256_json (some (Json.str s)) = is_sha256 s
is_sha256_json _ = false

unfoldable pub is_positive : Option Json → Bool
is_positive (some (Json.int n)) = leb 1 n
is_positive _ = false

unfoldable pub large_archive_receipt_matches : Dict → Skipped → String → Bool
large_archive_receipt_matches receipt skipped inventory_sha =
    is_number 1 (lookup "schema" receipt)
    && is_number skipped.row (lookup "row" receipt)
    && is_text inventory_sha (lookup "inventory_sha256" receipt)
    && is_text skipped.item.cid (lookup "original_cid" receipt)
    && is_number skipped.item.size (lookup "original_bytes" receipt)
    && is_text "fresh-offline-kubo-import-cat-and-original-cid-rehydration"
        (lookup "validation" receipt)
    && is_sha256_json (lookup "car_sha256" receipt)
    && is_positive (lookup "car_bytes" receipt)

-- `value == other`, where `other` is an int.
unfoldable pub same_size : Option Json → Option Json → Bool
same_size (some (Json.int n)) size = is_number n size
same_size _ size = false

-- The answer of the archive: the receipt, if it is a dict, and `car_bytes_on_disk`.
unfoldable pub check_large :
    Skipped → String → Option Dict × Option Json → Result ShipError (Unit {0})
check_large skipped inventory_sha (none, size) = err large_receipt_differs
check_large skipped inventory_sha (some receipt, size) =
    require
      (large_archive_receipt_matches receipt skipped inventory_sha
        && same_size (lookup "car_bytes" receipt) size)
      large_receipt_differs

unfoldable pub same_reason : Reason → Reason → Bool
same_reason verified_raw_block_store verified_raw_block_store = true
same_reason oversized_for_car oversized_for_car = true
same_reason _ _ = false

-- A skip file that is there; none is another content.
unfoldable pub same_skipped : Option Skipped → Skipped → Bool
same_skipped none skipped = false
same_skipped (some saved) skipped =
    saved.row == skipped.row
    && text_eq saved.item.cid skipped.item.cid
    && saved.item.size == skipped.item.size
    && same_reason saved.reason skipped.reason

-- `value == other`, where `other` is a text.
unfoldable pub same_text : Option Json → Option Json → Bool
same_text value (some (Json.str s)) = is_text s value
same_text value _ = false

module _ (hexdigest : Bytes → String) where
  -- The saved receipt of an export and the CAR file; and the answer of an exporter.
  unfoldable pub fits_saved : ℕ → ℕ → Dict → Option Bytes → Bool
  fits_saved start end exported none = false
  fits_saved start end exported (some car) =
      is_text (hexdigest car) (lookup "sha256" exported)
      && is_number start (lookup "start-row" exported)
      && is_number end (lookup "end-row" exported)

  unfoldable pub fits_export : ℕ → ℕ → ℕ → Dict → Option Bytes → Bool
  fits_export start end blocks exported car =
      is_text "complete" (lookup "status" exported)
      && is_number blocks (lookup "blocks" exported)
      && fits_saved start end exported car

  -- The receipt of the packer, for the CAR file of `exported`, and the archive.
  unfoldable pub fits_archive : Dict → ℕ → Dict → Option Bytes → Bool
  fits_archive exported blocks result none = false
  fits_archive exported blocks result (some archive) =
      is_text "carv2+zstd" (lookup "format" result)
      && same_text (lookup "carv1_sha256" result) (lookup "sha256" exported)
      && is_number blocks (lookup "blocks" result)
      && is_text (hexdigest archive) (lookup "compressed_sha256" result)
      && is_number (length archive) (lookup "compressed_bytes" result)
      && is_sha256_json (lookup "carv2_sha256" result)

unfoldable pub confirms_import : ℕ → ℕ → ℕ → String → Dict → Bool
confirms_import start end blocks car_sha256 imported =
    is_text "complete" (lookup "status" imported)
    && is_number start (lookup "start_row" imported)
    && is_number end (lookup "end_row" imported)
    && is_text car_sha256 (lookup "car_sha256" imported)
    && is_number blocks (lookup "blocks" imported)

unfoldable pub confirms_unpack : ℕ → String → String → Dict → Bool
confirms_unpack blocks compressed_sha256 carv2_sha256 result =
    is_text "complete" (lookup "status" result)
    && is_text compressed_sha256 (lookup "compressed_sha256" result)
    && is_text carv2_sha256 (lookup "carv2_sha256" result)
    && is_number blocks (lookup "blocks" result)
