-- ===== src/Car/Zstd.antt =====
-- `pack` and `unpack` of deploy/carv2_zstd.py over the two files that each of them writes, and
-- `zstd_frame_content_size`. The zstd command is a function of the bytes, none where it refuses;
-- files that another process puts in between, and failures of the disk, are left out.
pub mod RoundTrip
use yataverse_distribution.Prelude.{
  ℕ, ◌+◌, ◌*◌, ◌/◌, ◌%◌, ◌==◌, Bool, true, false, not, ◌&&◌, ◌||◌, Option, none, some, List, [],
  ◌∷◌, String, ltb, leb, length, take, drop, get_elem?, Bytes, bytes_eq, Result, ok, err, require,
  ◌>>=◌, ◌>>◌, if◌then◌else◌,
}
use text.Mathlib.Text.{◌==◌ as text_eq}
use yataverse_distribution.Json.{Json, Dict, lookup, is_text, is_number}
use yataverse_distribution.Car.Stream.{
  ArchiveError, input_absent, bounds_exceeded, receipt_missing, saved_unreadable, saved_differs,
  disk_low, count_differs, zstd_refused, output_exists, receipt_exists, not_zstd_frame,
  reserved_bits, no_content_size, compressed_differs, content_over_bound, output_size_differs,
  carv2_differs,
}
use yataverse_distribution.Car.Copy.{Row}
use yataverse_distribution.Car.Archive.{Validation, build_carv2, validate_carv2, from_le}

-- A receipt on disk: absent, something that is no dict, or a dict.
pub data Saved : Type 0 where
  absent unreadable : Saved
  receipt : Dict → Saved

-- The output with its receipt.
pub record Place : Type 0 where
  pub output : Option Bytes
  pub saved : Saved

abbrev pub empty_place : Place
empty_place = record { output = none; saved = absent }

-- `publish_no_replace`, and then `write_json_no_replace`; a failure of the second removes the
-- output.
unfoldable pub publish : Bytes → Dict → Place → Result ArchiveError Dict × Place
publish file d place = elim place.output [
  | some old ↦ (err output_exists, place)
  | none ↦ elim place.saved [
    | absent ↦ (ok d, record { output = some file; saved = receipt d })
    | unreadable ↦ (err receipt_exists, place)
    | receipt old ↦ (err receipt_exists, place)
  ]
]

-- What was computed without the files, and then published.
unfoldable pub published :
    Result ArchiveError (Bytes × Dict) → Place → Result ArchiveError Dict × Place
published (err e) place = (err e, place)
published (ok (file, d)) place = publish file d place

unfoldable pub loaded : Saved → Result ArchiveError Dict
loaded absent = err receipt_missing
loaded unreadable = err saved_unreadable
loaded (receipt d) = ok d

unfoldable pub is_present : Place → Bool
is_present place = elim place.output [
  | some file ↦ true
  | none ↦ elim place.saved [ absent ↦ false | unreadable ↦ true | receipt d ↦ true ]
]

-- The bytes of a header field: `(0, 1, 2, 4)[dict_flag]`, and `fcs_width`.
unfoldable pub dict_width : ℕ → ℕ
dict_width flag = if flag == 0 then 0 else if flag == 1 then 1 else if flag == 2 then 2 else 4

unfoldable pub size_width : ℕ → Bool → ℕ
size_width flag single_segment =
    if flag == 0
    then (if single_segment then 1 else 0)
    else if flag == 1
    then 2
    else if flag == 2
    then 4
    else 8

-- The frame header behind its magic number: the descriptor, and what follows it.
unfoldable pub content_size : ℕ → Bytes → Result ArchiveError ℕ
unfolding dict_width size_width from_le
content_size descriptor rest =
    let single_segment = (descriptor / 32) % 2 == 1 in
    let offset = (if single_segment then 0 else 1) + dict_width (descriptor % 4) in
    let width = size_width (descriptor / 64) single_segment in
    if not ((descriptor / 8) % 4 == 0)
    then err reserved_bits
    else if width == 0 || ltb (length rest) (offset + width)
    then err no_content_size
    else ok (from_le (take width (drop offset rest)) + (if width == 2 then 256 else 0))

abbrev pub magic : Bytes
magic = 0x28 ∷ 0xB5 ∷ 0x2F ∷ 0xFD ∷ []

unfoldable pub zstd_frame_content_size : Bytes → Result ArchiveError ℕ
unfolding content_size
zstd_frame_content_size file =
    let head = take 18 file in
    elim (get_elem? head 4) [
      | none ↦ err not_zstd_frame
      | some descriptor ↦
          if bytes_eq (take 4 head) magic
          then content_size descriptor (drop 5 head)
          else err not_zstd_frame
    ]

pub record PackArgs : Type 0 where
  pub max_blocks : ℕ
  pub max_bytes : ℕ

pub record UnpackArgs : Type 0 where
  pub expected_compressed_sha256 : Option String
  pub expected_carv2_sha256 : Option String
  pub max_blocks : ℕ
  pub max_bytes : ℕ

-- `expected and value != expected` does not hold; no expected digest is the empty text.
unfoldable pub is_expected : String → Option String → Bool
is_expected value none = true
is_expected value (some expected) = text_eq value expected

module _ (sha256 : Bytes → Bytes) (hexdigest : Bytes → String)
    (compress decompress : Bytes → Option Bytes) where
  unfoldable pub zstd : Option Bytes → Result ArchiveError Bytes
  zstd none = err zstd_refused
  zstd (some file) = ok file

  -- The two ratios are numbers that are not modelled.
  unfoldable pub pack_receipt : Bytes → Bytes → Bytes → List Row → Dict
  pack_receipt carv1 carv2 compressed rows =
      ("schema", Json.int 1)
      ∷ ("format", Json.str "carv2+zstd")
      ∷ ("carv1_sha256", Json.str (hexdigest carv1))
      ∷ ("carv1_bytes", Json.int (length carv1))
      ∷ ("carv2_sha256", Json.str (hexdigest carv2))
      ∷ ("carv2_bytes", Json.int (length carv2))
      ∷ ("compressed_sha256", Json.str (hexdigest compressed))
      ∷ ("compressed_bytes", Json.int (length compressed))
      ∷ ("blocks", Json.int (length rows))
      ∷ ("index_entries", Json.int (length rows))
      ∷ ("compression", Json.str "zstd")
      ∷ ("compression_level", Json.int 9)
      ∷ ("ratio_uncompressed_over_compressed", Json.other)
      ∷ ("saved_fraction", Json.other)
      ∷ []

  -- The archive and its receipt, before they are published.
  unfoldable pub compressed_archive : Bytes → ℕ → Result ArchiveError (Bytes × Dict)
  compressed_archive carv1 max_blocks = do
    (carv2, rows) ← build_carv2 sha256 carv1 max_blocks
    checked ← validate_carv2 sha256 carv2 max_blocks
    require (checked.blocks == length rows) count_differs
    compressed ← zstd (compress carv2)
    ok (compressed, pack_receipt carv1 carv2 compressed rows)

  unfoldable pub fits_pack : Bytes → Bytes → Dict → Bool
  fits_pack carv1 output saved =
      is_text "carv2+zstd" (lookup "format" saved)
      && is_text (hexdigest carv1) (lookup "carv1_sha256" saved)
      && is_text (hexdigest output) (lookup "compressed_sha256" saved)
      && is_number (length output) (lookup "compressed_bytes" saved)

  -- A run that finds both files.
  unfoldable pub saved_pack : Bytes → Option Bytes → Saved → Result ArchiveError Dict
  saved_pack carv1 none saved = err receipt_missing
  saved_pack carv1 (some output) saved = do
    d ← loaded saved
    require (fits_pack carv1 output d) saved_differs
    ok d

  unfoldable pub pack_bounds : Bytes → PackArgs → Bool
  pack_bounds carv1 args =
      leb 1 args.max_blocks
      && leb args.max_blocks 1000
      && leb 1 (length carv1)
      && leb (length carv1) args.max_bytes

  unfoldable pub pack_fresh : Bytes → PackArgs → ℕ → Place → Result ArchiveError Dict × Place
  pack_fresh carv1 args free place =
      if ltb free (2 * length carv1 + 64 * 1024 * 1024)
      then (err disk_low, place)
      else published (compressed_archive carv1 args.max_blocks) place

  unfoldable pub pack : Option Bytes → PackArgs → ℕ → Place → Result ArchiveError Dict × Place
  pack none args free place = (err input_absent, place)
  pack (some carv1) args free place =
      if not (pack_bounds carv1 args)
      then (err bounds_exceeded, place)
      else if is_present place
      then (saved_pack carv1 place.output place.saved, place)
      else pack_fresh carv1 args free place

  unfoldable pub unpack_receipt : Bytes → Bytes → Validation → Dict
  unpack_receipt compressed carv2 v =
      ("schema", Json.int 1)
      ∷ ("format", Json.str "carv2+zstd")
      ∷ ("compressed_sha256", Json.str (hexdigest compressed))
      ∷ ("compressed_bytes", Json.int (length compressed))
      ∷ ("carv2_sha256", Json.str (hexdigest carv2))
      ∷ ("carv2_bytes", Json.int v.carv2_bytes)
      ∷ ("blocks", Json.int v.blocks)
      ∷ ("index_entries", Json.int v.index_entries)
      ∷ ("status", Json.str "complete")
      ∷ []

  unfoldable pub fits_unpack : UnpackArgs → Bytes → Bytes → Validation → Dict → Bool
  fits_unpack args compressed output v saved =
      is_text "carv2+zstd" (lookup "format" saved)
      && is_text (hexdigest compressed) (lookup "compressed_sha256" saved)
      && is_text (hexdigest output) (lookup "carv2_sha256" saved)
      && is_number v.blocks (lookup "blocks" saved)
      && is_number v.carv2_bytes (lookup "carv2_bytes" saved)
      && is_expected (hexdigest output) args.expected_carv2_sha256

  unfoldable pub saved_unpack : UnpackArgs → Bytes → Option Bytes → Saved → Result ArchiveError Dict
  saved_unpack args compressed none saved = err receipt_missing
  saved_unpack args compressed (some output) saved = do
    d ← loaded saved
    v ← validate_carv2 sha256 output args.max_blocks
    require (fits_unpack args compressed output v d) saved_differs
    ok d

  unfoldable pub restored_archive : UnpackArgs → Bytes → Result ArchiveError (Bytes × Dict)
  restored_archive args compressed = do
    declared ← zstd_frame_content_size compressed
    require (leb declared (args.max_bytes + 128 * args.max_blocks + 1024)) content_over_bound
    carv2 ← zstd (decompress compressed)
    require (length carv2 == declared) output_size_differs
    v ← validate_carv2 sha256 carv2 args.max_blocks
    require (is_expected (hexdigest carv2) args.expected_carv2_sha256) carv2_differs
    ok (carv2, unpack_receipt compressed carv2 v)

  unfoldable pub unpack : Option Bytes → UnpackArgs → Place → Result ArchiveError Dict × Place
  unpack none args place = (err input_absent, place)
  unpack (some compressed) args place =
      if not (is_expected (hexdigest compressed) args.expected_compressed_sha256)
      then (err compressed_differs, place)
      else if is_present place
      then (saved_unpack args compressed place.output place.saved, place)
      else published (restored_archive args compressed) place
