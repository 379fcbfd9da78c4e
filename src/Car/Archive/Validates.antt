-- ===== src/Car/Archive/Validates.antt =====
-- What `pack` builds, `validate_carv2` accepts.
use yataverse_distribution.Prelude.{
  ℕ, zero, suc, ◌+◌, ◌-◌, ◌^◌, ◌<◌, ◌≡◌, refl, sym, ap, ap₂, append_assoc, ◌∙◌, true, false, List,
  [], ◌∷◌, ◌++◌, arith, length, length-append, take, take_all, take-append, drop, drop-append,
  replicate, Bytes, bytes_eq, bytes_eq_refl, ==_self, le→leb, lt→not_leb, Result, Result-cases, inl,
  inr, ok, All, ◌>>=◌, ◌/◌,
}
use native.Mathlib.Nat.{pow-suc}
use yataverse_distribution.Car.Stream.{Stream, ArchiveError}
use yataverse_distribution.Car.Stream.Exact.{read_exact_at}
use yataverse_distribution.Car.Varint.{uvarint}
use yataverse_distribution.Car.Copy.{Row, copy_carv1_payload}
use yataverse_distribution.Car.Copy.Rows.{IsBacked}
use yataverse_distribution.Car.Copy.Section.{copy_carv1_payload-IsBacked, copy_carv1_payload-inside}
use yataverse_distribution.Car.Index.{
  multihash_index_sorted, key_le, by_code, sorted, concat_results, encode_code, carv2_data_offset,
  le_bytes, pack_le, encode_index, carv2_header,
}
use yataverse_distribution.Car.Archive.{
  pragma, carv2_header_bytes, overwrite, from_le, any_nonzero, build_carv2, validate_carv2,
}

-- A field reads back as the number that was packed.
from_le-le_bytes : (width n : ℕ) → n < 256 ^ width → from_le (le_bytes width n) ≡ n
unfolding from_le le_bytes
from_le-le_bytes zero n h = omega arith
from_le-le_bytes (suc width) n h =
    omega (arith, from_le-le_bytes width (n / 256) (omega (arith, pow-suc 256 width)))

-- The file with its four parts named.
abbrev pub layout : Bytes → Bytes → Bytes → Bytes
layout header payload index = pragma ++ (header ++ (payload ++ index))

-- What the checks of `validate_carv2` read from a header.
pub record IsHeader (header : Bytes) (size : ℕ) : Type 0 where
  pub long : length header ≡ carv2_header_bytes
  pub plain : any_nonzero (take 16 header) ≡ false
  pub offset : from_le (take 8 (drop 16 header)) ≡ carv2_data_offset
  pub data_size : from_le (take 8 (drop 24 header)) ≡ size
  pub index : from_le (take 8 (drop 32 header)) ≡ carv2_data_offset + size

carv2_header_result :
    (size index : ℕ) (header : Bytes)
    → carv2_header size index ≡ ok header
    → (size < 256 ^ 8)
      × (index < 256 ^ 8)
      × (header
          ≡ replicate 16 0
            ++ (le_bytes 8 carv2_data_offset ++ (le_bytes 8 size ++ le_bytes 8 index)))
unfolding carv2_header
carv2_header_result size index header h = ground arith

carv2_header-IsHeader :
    (size : ℕ) (header : Bytes)
    → carv2_header size (carv2_data_offset + size) ≡ ok header
    → IsHeader header size
unfolding le_bytes from_le any_nonzero
carv2_header-IsHeader size header h =
    let (size-lt, index-lt, whole) = carv2_header_result size (carv2_data_offset + size) header h in
    record {
      long = ap length whole;
      plain = ap (λ f. any_nonzero (take 16 f)) whole;
      offset = ap (λ f. from_le (take 8 (drop 16 f))) whole;
      data_size = ap (λ f. from_le (take 8 (drop 24 f))) whole ∙ from_le-le_bytes 8 size size-lt;
      index = ap (λ f. from_le (take 8 (drop 32 f))) whole ∙ from_le-le_bytes 8 _ index-lt;
    }

overwrite-layout :
    (header payload index : Bytes)
    → length header ≡ carv2_header_bytes
    → overwrite
        (length pragma)
        header
        (pragma ++ (replicate carv2_header_bytes 0 ++ (payload ++ index)))
      ≡ layout header payload index
unfolding overwrite
overwrite-layout header payload index long = rw long

drop_to_index :
    (header payload index : Bytes)
    → length header ≡ carv2_header_bytes
    → drop (carv2_data_offset + length payload) (layout header payload index) ≡ index
drop_to_index header payload index long =
    let front = pragma ++ (header ++ payload) in
    let size : length front ≡ carv2_data_offset + length payload =
      omega (arith, long, length-append header payload) in
    let split : layout header payload index ≡ front ++ index =
      ap (λ b. pragma ++ b) (sym (append_assoc header payload index)) in
    ap₂ drop (sym size) split ∙ drop-append front index

abbrev placed : List Row → Bytes → Bytes → Bytes → Result ArchiveError (Bytes × List Row)
placed rows payload index header = ok (
  overwrite (length pragma) header
      (pragma ++ (replicate carv2_header_bytes 0 ++ (payload ++ index))),
  rows,
)

abbrev index_of : Bytes → Bytes → Result ArchiveError Bytes
index_of n body = ok (uvarint multihash_index_sorted ++ (n ++ body))

length_tag : length (uvarint multihash_index_sorted) ≡ 2
unfolding uvarint
length_tag = refl

module _ (sha256 : Bytes → Bytes) where
  validate_layout :
      (header payload index : Bytes) (blocks : ℕ) (rows : List Row)
      → IsHeader header (length payload)
      → 0 < length payload
      → 0 < length index
      → copy_carv1_payload sha256
          (layout header payload index)
          (length payload)
          blocks
          carv2_data_offset
          false
        ≡ ok (rows, payload)
      → encode_index rows ≡ ok index
      → validate_carv2 sha256 (layout header payload index) blocks
        ≡ ok (record {
          carv2_bytes = length (layout header payload index);
          blocks = length rows;
          index_entries = length rows;
        })
  unfolding validate_carv2 bytes_eq
  validate_layout header payload index blocks rows is some_payload some_index copied encoded =
      let s : Stream = record { source = header ++ (payload ++ index); dest = []; written = 0 } in
      let n = length payload in
      let behind : carv2_data_offset + n < length (layout header payload index) =
        omega
          (arith, is.long, length-append header (payload ++ index), length-append payload index) in
      rw (
        read_exact_at carv2_header_bytes s header (payload ++ index) refl is.long,
        is.plain,
        is.offset,
        is.data_size,
        is.index,
        copied,
        encoded,
        le→leb 1 n some_payload,
        ==_self (carv2_data_offset + n),
        lt→not_leb (carv2_data_offset + n) (length (layout header payload index)) behind,
        drop_to_index header payload index is.long,
        take_all (length index + 1) index (omega arith),
        bytes_eq_refl index,
      )

  -- The parts of a file that `build_carv2` returned.
  pub record Built (carv1 file : Bytes) (blocks : ℕ) (rows : List Row) : Type 0 where
    pub payload : Bytes
    pub index : Bytes
    pub header : Bytes
    pub copied : copy_carv1_payload sha256 carv1 (length carv1) blocks 0 true ≡ ok (rows, payload)
    pub encoded : encode_index rows ≡ ok index
    pub headed : carv2_header (51 + length payload - 51) (51 + length payload) ≡ ok header
    pub file_bytes :
        file
        ≡ overwrite
            (length pragma)
            header
            (pragma ++ (replicate carv2_header_bytes 0 ++ (payload ++ index)))

  pub built :
      (carv1 file : Bytes) (blocks : ℕ) (rows : List Row)
      → build_carv2 sha256 carv1 blocks ≡ ok (file, rows)
      → Built carv1 file blocks rows
  unfolding build_carv2
  built carv1 file blocks rows h =
      elim (Result-cases (copy_carv1_payload sha256 carv1 (length carv1) blocks 0 true)) [
        | inr (x, e) ↦ cc (rw e at h)
        | inl ((rows', payload), e) ↦ encoded rows' payload e (rw e at h)
      ]
    where
      headed :
          (rows' : List Row) (payload index : Bytes)
          → copy_carv1_payload sha256 carv1 (length carv1) blocks 0 true ≡ ok (rows', payload)
          → encode_index rows' ≡ ok index
          → (carv2_header (51 + length payload - 51) (51 + length payload) >>= λ header.
              placed rows' payload index header)
            ≡ ok (file, rows)
          → Built carv1 file blocks rows
      headed rows' payload index c i h =
          elim (Result-cases (carv2_header (51 + length payload - 51) (51 + length payload))) [
            | inr (x, e) ↦ cc (rw e at h)
            | inl (header, e) ↦
                let k = rw e at h in
                let same : rows' ≡ rows = cc in
                record {
                  payload = payload;
                  index = index;
                  header = header;
                  copied = c ∙ ap (λ (x : List Row). ok (x, payload)) same;
                  encoded = ap encode_index (sym same) ∙ i;
                  headed = e;
                  file_bytes = cc;
                }
          ]

      encoded :
          (rows' : List Row) (payload : Bytes)
          → copy_carv1_payload sha256 carv1 (length carv1) blocks 0 true ≡ ok (rows', payload)
          → (encode_index rows' >>= λ index.
              carv2_header (51 + length payload - 51) (51 + length payload) >>= λ header.
              placed rows' payload index header)
            ≡ ok (file, rows)
          → Built carv1 file blocks rows
      encoded rows' payload c h = elim (Result-cases (encode_index rows')) [
        | inr (x, e) ↦ cc (rw e at h)
        | inl (index, e) ↦ headed rows' payload index c e (rw e at h)
      ]

  backed_nonempty :
      (rows : List Row) (payload : Bytes)
      → All (IsBacked sha256 payload) rows
      → 0 < length rows
      → 0 < length payload
  backed_nonempty [] payload backed some = absurd (omega arith)
  backed_nonempty (row ∷ rows) payload (b, _) some = omega (
    arith,
    b.width,
    ap length b.place,
    length-append b.before ((b.prefix ++ b.front) ++ (row.digest ++ (b.payload ++ b.behind))),
    length-append (b.prefix ++ b.front) (row.digest ++ (b.payload ++ b.behind)),
    length-append row.digest (b.payload ++ b.behind),
  )

  index_nonempty :
      (rows : List Row) (index : Bytes) → encode_index rows ≡ ok index → 0 < length index
  unfolding encode_index
  index_nonempty rows index h =
      let codes = by_code rows [] in
      elim (Result-cases (pack_le 4 (length codes))) [
        | inr (x, e) ↦ cc (rw e at h)
        | inl (n, e) ↦ body n (rw e at h)
      ]
    where
      body :
          (n : Bytes)
          → (concat_results encode_code (sorted key_le (by_code rows [])) >>= λ body.
              index_of n body)
            ≡ ok index
          → 0 < length index
      body n h =
          elim (Result-cases (concat_results encode_code (sorted key_le (by_code rows [])))) [
            | inr (x, e) ↦ cc (rw e at h)
            | inl (b, e) ↦
                let k = rw e at h in
                let same : uvarint multihash_index_sorted ++ (n ++ b) ≡ index = cc in
                omega (
                  arith,
                  length_tag,
                  ap length same,
                  length-append (uvarint multihash_index_sorted) (n ++ b),
                )
          ]

  copy_at_offset :
      (carv1 : Bytes) (blocks : ℕ) (rows : List Row) (header payload index : Bytes)
      → copy_carv1_payload sha256 carv1 (length carv1) blocks 0 true ≡ ok (rows, payload)
      → length header ≡ carv2_header_bytes
      → copy_carv1_payload sha256
          (layout header payload index)
          (length payload)
          blocks
          carv2_data_offset
          false
        ≡ ok (rows, payload)
  copy_at_offset carv1 blocks rows header payload index copied long =
      let (_, _, _, _, total, _) =
        copy_carv1_payload-IsBacked sha256 carv1 (length carv1) blocks 0 true rows payload copied in
      let start : length (pragma ++ header) ≡ carv2_data_offset = omega (arith, long) in
      ap₂ (λ (k m : ℕ). copy_carv1_payload sha256 (layout header payload index) k blocks m false)
        total (sym start)
      ∙ copy_carv1_payload-inside sha256 carv1 (length carv1) blocks 0 rows payload
          (pragma ++ header) index copied

  payload_inside :
      (header payload index carv1 : Bytes)
      → length header ≡ carv2_header_bytes
      → payload ≡ carv1
      → take (length carv1) (drop carv2_data_offset (layout header payload index)) ≡ carv1
  payload_inside header payload index carv1 long same =
      let front : length (pragma ++ header) ≡ carv2_data_offset = omega (arith, long) in
      ap (λ (k : ℕ). take (length carv1) (drop k (layout header payload index))) (sym front)
      ∙ ap₂ (λ (k : ℕ) d. take k d) (ap length (sym same))
          (drop-append (pragma ++ header) (payload ++ index))
      ∙ take-append payload index
      ∙ same

  -- The archive that `pack` builds passes `validate_carv2` under the same block limit, which
  -- reports its size and as many blocks as it has rows. It holds the CARv1 file unchanged.
  pub build_carv2-validates :
      (carv1 file : Bytes) (blocks : ℕ) (rows : List Row)
      → build_carv2 sha256 carv1 blocks ≡ ok (file, rows)
      → (validate_carv2 sha256 file blocks
          ≡ ok (record {
            carv2_bytes = length file;
            blocks = length rows;
            index_entries = length rows;
          }))
        × (take (length carv1) (drop carv2_data_offset file) ≡ carv1)
  build_carv2-validates carv1 file blocks rows h =
      let b = built carv1 file blocks rows h in
      let n = length b.payload in
      let (backed, some_rows, _, _, _, whole) =
        copy_carv1_payload-IsBacked sha256 carv1 (length carv1) blocks 0 true rows b.payload
          b.copied in
      let is =
        carv2_header-IsHeader n b.header
          (sym (ap (λ (k : ℕ). carv2_header k (51 + n)) (omega arith)) ∙ b.headed) in
      let file-eq : file ≡ layout b.header b.payload b.index =
        b.file_bytes ∙ overwrite-layout b.header b.payload b.index is.long in
      let accepted =
        validate_layout b.header b.payload b.index blocks rows is
          (backed_nonempty rows b.payload backed some_rows) (index_nonempty rows b.index b.encoded)
          (copy_at_offset carv1 blocks rows b.header b.payload b.index b.copied is.long)
          b.encoded in
      (
        rw file-eq accepted,
        ap (λ f. take (length carv1) (drop carv2_data_offset f)) file-eq
            ∙ payload_inside b.header b.payload b.index carv1 is.long (whole refl),
      )
