-- ===== src/Car/Archive.antt =====
-- The bytes of a CARv2 file: what `pack` of deploy/carv2_zstd.py writes before it compresses, and
-- `validate_carv2`.
pub mod Validates
use yataverse_distribution.Prelude.{
  ℕ, ◌+◌, ◌-◌, ◌*◌, ◌==◌, Bool, true, false, not, ◌&&◌, ◌||◌, List, [], ◌∷◌, ◌++◌, leb, length,
  take, drop, replicate, Bytes, bytes_eq, Result, ok, err, require, ◌>>=◌, ◌>>◌,
}
use yataverse_distribution.Car.Stream.{
  ArchiveError, Stream, read_exact, not_carv2, unsupported_characteristics, invalid_offsets,
  index_missing, index_mismatch,
}
use yataverse_distribution.Car.Copy.{Row, copy_carv1_payload}
use yataverse_distribution.Car.Index.{carv2_data_offset, encode_index, carv2_header}

abbrev pub pragma : Bytes
pragma = 0x0A ∷ 0xA1 ∷ 0x67 ∷ 0x76 ∷ 0x65 ∷ 0x72 ∷ 0x73 ∷ 0x69 ∷ 0x6F ∷ 0x6E ∷ 0x02 ∷ []

abbrev pub carv2_header_bytes : ℕ
carv2_header_bytes = 40

-- `destination.seek(at); destination.write(data)` on a file that has those bytes.
unfoldable pub overwrite : ℕ → Bytes → Bytes → Bytes
overwrite at new file = take at file ++ (new ++ drop (at + length new) file)

-- One little-endian field of `struct.unpack`.
unfoldable pub from_le : Bytes → ℕ
from_le [] = 0
from_le (b ∷ bs) = b + 256 * from_le bs

-- `any(data)`
unfoldable pub any_nonzero : Bytes → Bool
any_nonzero [] = false
any_nonzero (b ∷ bs) = not (b == 0) || any_nonzero bs

-- The dict that `validate_carv2` returns.
pub record Validation : Type 0 where
  pub carv2_bytes : ℕ
  pub blocks : ℕ
  pub index_entries : ℕ

module _ (sha256 : Bytes → Bytes) where
  -- The uncompressed archive that `pack` writes and flushes, with the rows of its index. The
  -- header is first written as zeros, and then over them.
  unfoldable pub build_carv2 : Bytes → ℕ → Result ArchiveError (Bytes × List Row)
  unfolding overwrite
  build_carv2 carv1 max_blocks = do
    (rows, payload) ← copy_carv1_payload sha256 carv1 (length carv1) max_blocks 0 true
    let index_offset = length pragma + carv2_header_bytes + length payload
    index ← encode_index rows
    header ← carv2_header (index_offset - carv2_data_offset) index_offset
    let file = pragma ++ (replicate carv2_header_bytes 0 ++ (payload ++ index))
    ok (overwrite (length pragma) header file, rows)

  unfoldable pub validate_carv2 : Bytes → ℕ → Result ArchiveError Validation
  unfolding from_le any_nonzero
  validate_carv2 file max_blocks = do
    require (bytes_eq (take (length pragma) file) pragma) not_carv2
    (raw_header, _) ←
        read_exact carv2_header_bytes
          (record { source = drop (length pragma) file; dest = []; written = 0 })
    require (not (any_nonzero (take 16 raw_header))) unsupported_characteristics
    let data_offset = from_le (take 8 (drop 16 raw_header))
    let data_size = from_le (take 8 (drop 24 raw_header))
    let index_offset = from_le (take 8 (drop 32 raw_header))
    require
        (data_offset == carv2_data_offset
          && leb 1 data_size
          && index_offset == data_offset + data_size)
        invalid_offsets
    require (not (leb (length file) index_offset)) index_missing
    (rows, _) ← copy_carv1_payload sha256 file data_size max_blocks data_offset false
    expected_index ← encode_index rows
    let actual_index = take (length expected_index + 1) (drop index_offset file)
    require (bytes_eq actual_index expected_index) index_mismatch
    ok (record { carv2_bytes = length file; blocks = length rows; index_entries = length rows })
