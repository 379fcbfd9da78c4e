-- ===== src/Car/Copy.antt =====
-- `copy_carv1_payload` of deploy/carv2_zstd.py, over an unknown SHA-256.
pub mod Exact
pub mod Front
pub mod Ends
pub mod Rows
pub mod Section
use yataverse_distribution.Prelude.{
  ℕ, zero, suc, ◌+◌, ◌-◌, ◌*◌, ◌==◌, Bool, true, false, not, ◌&&◌, ◌||◌, List, [], ◌∷◌, ◌++◌, ltb,
  leb, length, drop, is_empty, Bytes, bytes_eq, Result, ok, err, if◌then◌else◌,
  ◌>>=◌ as bind_result,
}
use yataverse_distribution.Car.Stream.{
  ArchiveError, Stream, Copier, pure, raise, position, check, read_and_write, copy_counted, ◌>>=◌,
  ◌>>◌, invalid_header_size, frame_exceeds_section, unsupported_cid_version, only_sha256,
  cid_longer_than_frame, digest_mismatch, too_many_blocks, trailing_or_missing, no_frames,
  out_of_fuel,
}
use yataverse_distribution.Car.Varint.{
  uvarint, read_uvarint, read_varint_after_first, default_limit,
}

abbrev pub sha2_256 : ℕ
sha2_256 = 0x12

abbrev pub max_header_bytes : ℕ
max_header_bytes = 16 * 1024 * 1024

-- One index row: `(mh_code, block_digest, frame_offset)`.
pub record Row : Type 0 where
  pub code : ℕ
  pub digest : Bytes
  pub offset : ℕ

-- What the CID's prefix says: `mh_code`, `digest_size` and `cid_size`, which counts the prefix.
pub record CidPrefix : Type 0 where
  pub mh_code : ℕ
  pub digest_size : ℕ
  pub cid_size : ℕ

-- The branch on `first[0]`.
unfoldable pub cid_prefix : ℕ → Copier CidPrefix
cid_prefix first =
    if first == sha2_256
    then (do
      (digest_size, n) ← read_uvarint 1024
      pure (record {
        mh_code = sha2_256;
        digest_size = digest_size;
        cid_size = 1 + length (uvarint digest_size);
      }))
    else (do
      check (first == 1) unsupported_cid_version
      (version, version_len) ← read_varint_after_first first
      check (version == 1) unsupported_cid_version
      (codec, codec_len) ← read_uvarint default_limit
      (mh_code, mh_len) ← read_uvarint default_limit
      (digest_size, digest_len) ← read_uvarint 1024
      pure (record {
        mh_code = mh_code;
        digest_size = digest_size;
        cid_size = version_len + codec_len + mh_len + digest_len;
      }))

-- `first[0]`, of the one byte that `read_exact(source, 1)` returned.
abbrev first_of_read : Bytes → ℕ
first_of_read [] = 0
first_of_read (b ∷ bs) = b

-- The checks behind the loop: `require_eof` reads one byte more.
unfoldable pub finish : ℕ → Bool → List Row → Stream → Result ArchiveError (List Row × Bytes)
finish total_size require_eof rows s =
    if not (s.written == total_size) || (require_eof && not (is_empty s.source))
    then err trailing_or_missing
    else if is_empty rows
    then err no_frames
    else ok (rows, s.dest)

module _ (sha256 : Bytes → Bytes) where
  -- What follows the CID's prefix in a frame.
  unfoldable pub frame_body : ℕ → ℕ → CidPrefix → Copier Row
  frame_body frame_offset frame_size p = do
    check (p.digest_size == 32 && p.mh_code == sha2_256) only_sha256
    block_digest ← read_and_write p.digest_size
    check (leb (p.cid_size + p.digest_size) frame_size) cid_longer_than_frame
    hashed ← copy_counted (frame_size - (p.cid_size + p.digest_size))
    check (bytes_eq (sha256 hashed) block_digest) digest_mismatch
    pure (record { code = p.mh_code; digest = block_digest; offset = frame_offset })

  -- One round of the `while` loop, up to the row that it appends.
  unfoldable pub copy_frame : ℕ → Copier Row
  unfolding frame_body cid_prefix
  copy_frame total_size = do
    frame_offset ← position
    (frame_size, frame_prefix_size) ← read_uvarint total_size
    here ← position
    check (leb 1 frame_size && leb (here + frame_size) total_size) frame_exceeds_section
    first ← read_and_write 1
    p ← cid_prefix (first_of_read first)
    frame_body frame_offset frame_size p

  -- `while written < total_size`. A frame takes two bytes at least, so `total_size` rounds are
  -- enough.
  unfoldable pub copy_frames : ℕ → ℕ → ℕ → List Row → Copier (List Row)
  unfolding copy_frame
  copy_frames zero total_size max_blocks rows = do
    here ← position
    check (leb total_size here) out_of_fuel
    pure rows
  copy_frames (suc fuel) total_size max_blocks rows = do
    here ← position
    let next = (do
      row ← copy_frame total_size
      check (leb (length rows + 1) max_blocks) too_many_blocks
      copy_frames fuel total_size max_blocks (rows ++ (row ∷ [])))
    if ltb here total_size then next else pure rows

  -- The header and the frames, before the checks on the end of the file.
  unfoldable pub copy_section : ℕ → ℕ → Copier (List Row)
  unfolding copy_frames
  copy_section total_size max_blocks = do
    (header_size, n) ← read_uvarint max_header_bytes
    check (leb 1 header_size && leb header_size max_header_bytes) invalid_header_size
    header ← read_and_write header_size
    copy_frames total_size total_size max_blocks []

  -- The index rows and what the destination was given, from the file `source`.
  unfoldable pub copy_carv1_payload :
      Bytes → ℕ → ℕ → ℕ → Bool → Result ArchiveError (List Row × Bytes)
  unfolding copy_section finish
  copy_carv1_payload source total_size max_blocks start_offset require_eof =
      bind_result
        (copy_section total_size max_blocks
          (record { source = drop start_offset source; dest = []; written = 0 }))
        (λ (rows, s). finish total_size require_eof rows s)
