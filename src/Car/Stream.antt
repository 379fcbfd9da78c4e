-- ===== src/Car/Stream.antt =====
-- The file objects of deploy/carv2_zstd.py while `copy_carv1_payload` runs: what the source has not
-- yielded yet, what the destination has been given, and the counter `written`. An exception ends
-- the whole copy and its caller drops the temporaries, so no stream comes back beside an error.
pub mod Exact
pub mod Ends
use yataverse_distribution.Prelude.{
  ℕ, zero, suc, ◌+◌, ◌-◌, ◌*◌, min, Bool, true, false, [], ◌∷◌, ◌++◌, ltb, length, take, drop,
  is_empty, Bytes, Result, ok, err, if◌then◌else◌,
}

-- The messages of `ArchiveError`, `struct_error` for `struct.error`, and `out_of_fuel`, which no
-- Python run raises.
pub data ArchiveError : Type 0 where
  input_absent bounds_exceeded receipt_missing saved_unreadable saved_differs disk_low :
      ArchiveError
  count_differs zstd_refused output_exists receipt_exists not_zstd_frame reserved_bits :
      ArchiveError
  no_content_size compressed_differs content_over_bound output_size_differs carv2_differs :
      ArchiveError
  truncated_varint varint_over_limit invalid_varint : ArchiveError
  truncated_car_data truncated_car_block : ArchiveError
  invalid_header_size frame_exceeds_section unsupported_cid_version : ArchiveError
  truncated_cid_varint invalid_cid_varint : ArchiveError
  only_sha256 cid_longer_than_frame digest_mismatch too_many_blocks : ArchiveError
  trailing_or_missing no_frames : ArchiveError
  struct_error out_of_fuel : ArchiveError
  not_carv2 unsupported_characteristics invalid_offsets index_missing index_mismatch : ArchiveError

pub record Stream : Type 0 where
  pub source : Bytes
  pub dest : Bytes
  pub written : ℕ

abbrev pub Copier : Type 0 → Type 0
Copier A = Stream → Result ArchiveError (A × Stream)

module _ {A : Type 0} where
  unfoldable pub pure : A → Copier A
  pure a s = ok (a, s)

  unfoldable pub raise : ArchiveError → Copier A
  raise e s = err e

-- The value of `written`.
unfoldable pub position : Copier ℕ
position s = ok (s.written, s)

-- `if not b: raise e`
unfoldable pub check : Bool → ArchiveError → Copier (Unit {0})
check true e s = ok (tt, s)
check false e s = err e

module _ {A B : Type 0} where
  abbrev continue :
      Result ArchiveError (A × Stream) → (A → Copier B) → Result ArchiveError (B × Stream)
  continue (ok (a, s)) f = f a s
  continue (err e) f = err e

  infixl 5 ◌>>=◌
  unfoldable pub ◌>>=◌ : Copier A → (A → Copier B) → Copier B
  unfolding pure raise position check
  ◌>>=◌ m f s = continue (m s) f

infixl 5 ◌>>◌
abbrev pub ◌>>◌ : {B : Type 0} → Copier (Unit {0}) → Copier B → Copier B
m >> k = m >>= λ _. k

-- The `write` closure: the destination grows, and so does `written`.
unfoldable pub write : Bytes → Copier (Unit {0})
write bytes s = ok (tt, record s { dest = s.dest ++ bytes; written = s.written + length bytes })

-- `raw = source.read(1)`, the test for the end of the file, and `capture(raw)`.
unfoldable pub capture_byte : ArchiveError → Copier ℕ
capture_byte at_end s = elim s.source [
  | [] ↦ err at_end
  | b ∷ rest ↦ ok (b, record { source = rest; dest = s.dest ++ (b ∷ []); written = s.written + 1 })
]

abbrev pub copy_chunk_bytes : ℕ
copy_chunk_bytes = 1024 * 1024

-- `read_exact`: a round of its loop for each unit of fuel. A round takes one byte at least, so
-- `size` rounds are enough.
read_rounds : ℕ → ℕ → ℕ → Bytes → Bytes → Result ArchiveError (Bytes × Bytes)
read_rounds zero chunk size chunks source =
    if ltb (length chunks) size then err out_of_fuel else ok (chunks, source)
read_rounds (suc fuel) chunk size chunks source =
    let wanted = min chunk (size - length chunks) in
    let part = take wanted source in
    let rest = read_rounds fuel chunk size (chunks ++ part) (drop wanted source) in
    if ltb (length chunks) size
    then (if is_empty part then err truncated_car_data else rest)
    else ok (chunks, source)

unfoldable pub read_exact : ℕ → Copier Bytes
unfolding read_rounds
read_exact size s = elim (read_rounds size copy_chunk_bytes size [] s.source) [
  | ok (chunks, source) ↦ ok (chunks, record s { source = source })
  | err e ↦ err e
]

-- `copy_exact` with its digest: the bytes that the digest was updated with come back. The
-- destination is written directly, and not through the closure that counts.
copy_rounds : ℕ → ℕ → ℕ → Bytes → Stream → Result ArchiveError (Bytes × Stream)
copy_rounds zero chunk remaining digest s =
    if ltb 0 remaining then err out_of_fuel else ok (digest, s)
copy_rounds (suc fuel) chunk remaining digest s =
    let wanted = min chunk remaining in
    let part = take wanted s.source in
    let rest =
      copy_rounds fuel chunk (remaining - length part) (digest ++ part)
        (record s { source = drop wanted s.source; dest = s.dest ++ part }) in
    if ltb 0 remaining
    then (if is_empty part then err truncated_car_block else rest)
    else ok (digest, s)

unfoldable pub copy_exact : ℕ → Copier Bytes
unfolding copy_rounds
copy_exact size = copy_rounds size copy_chunk_bytes size []

-- `data = read_exact(source, n); write(data)`
unfoldable pub read_and_write : ℕ → Copier Bytes
unfolding write
read_and_write n = do data' ← read_exact n; write data'; pure data'

-- `written += size`
advance : ℕ → Copier (Unit {0})
advance size s = ok (tt, record s { written = s.written + size })

-- `copy_exact(source, destination, size, digest); written += size`
unfoldable pub copy_counted : ℕ → Copier Bytes
unfolding advance
copy_counted size = do hashed ← copy_exact size; advance size; pure hashed
