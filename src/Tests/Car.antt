-- ===== src/Tests/Car.antt =====
-- A CARv1 file of one raw block, and what the archiver makes of it. The digest function is a toy:
-- 32 times the length of what it hashes.
use yataverse_distribution.Prelude.{
  ℕ, ◌+◌, ◌≡◌, ◌≢◌, refl, sym, ap, ◌++◌, [], ◌∷◌, List, length, take, drop, replicate, Bytes,
  bytes_eq, ok, err, true, false, arith,
}
use yataverse_distribution.Car.Stream.{
  ◌>>=◌, capture_byte, read_exact, read_and_write, copy_exact, copy_counted, out_of_fuel,
}
use yataverse_distribution.Car.Varint.{uvarint, read_uvarint, read_varint_after_first}
use yataverse_distribution.Car.Varint.RoundTrip.{read_uvarint-uvarint}
use yataverse_distribution.Car.Copy.{
  Row, copy_carv1_payload, copy_section, copy_frames, copy_frame, frame_body, cid_prefix, finish,
}
use yataverse_distribution.Car.Copy.Ends.{copy_carv1_payload-ends}
use yataverse_distribution.Car.Copy.Section.{copy_carv1_payload-inside}
use yataverse_distribution.Car.Index.{
  carv2_data_offset, encode_index, by_code, sorted, concat_results, encode_pair, encode_width,
  encode_code, carv2_header, pack_le, le_bytes,
}
use yataverse_distribution.Car.Archive.{pragma, build_carv2, validate_carv2}
use yataverse_distribution.Car.Archive.Validates.{build_carv2-validates}

abbrev pub toy_sha256 : Bytes → Bytes
toy_sha256 bytes = replicate 32 (length bytes)

abbrev pub one_block : Bytes
one_block = 1 ∷ 0xA0 ∷ 37 ∷ 1 ∷ 0x55 ∷ 0x12 ∷ 0x20 ∷ (replicate 32 1 ++ (7 ∷ []))

abbrev pub one_row : List Row
one_row = record { code = 0x12; digest = replicate 32 1; offset = 2 } ∷ []

copy_one_block : copy_carv1_payload toy_sha256 one_block 40 4 0 true ≡ ok (one_row, one_block)
unfolding copy_carv1_payload copy_section copy_frames copy_frame frame_body cid_prefix finish ◌>>=◌
    read_uvarint capture_byte read_and_write read_exact read_varint_after_first copy_counted
    copy_exact bytes_eq
copy_one_block = refl

-- The CARv2 file of it.
abbrev pub field : ℕ → Bytes
field n = n ∷ replicate 7 0

abbrev pub one_header : Bytes
one_header = replicate 16 0 ++ (field 51 ++ (field 40 ++ field 91))

abbrev pub one_index : Bytes
one_index =
    0x81
    ∷ 0x08
    ∷ 1
    ∷ 0
    ∷ 0
    ∷ 0
    ∷ (field 0x12 ++ (1 ∷ 0 ∷ 0 ∷ 0 ∷ 40 ∷ 0 ∷ 0 ∷ 0 ∷ (field 40 ++ (replicate 32 1 ++ field 2))))

abbrev pub one_archive : Bytes
one_archive = pragma ++ (one_header ++ (one_block ++ one_index))

pub build_one_archive : build_carv2 toy_sha256 one_block 4 ≡ ok (one_archive, one_row)
unfolding build_carv2 encode_index by_code sorted concat_results encode_pair encode_width
    encode_code carv2_header pack_le uvarint le_bytes
build_one_archive = rw copy_one_block refl

build_carv2-validates_example :
    (validate_carv2 toy_sha256 one_archive 4
      ≡ ok (record { carv2_bytes = length one_archive; blocks = 1; index_entries = 1 }))
    × (take (length one_block) (drop carv2_data_offset one_archive) ≡ one_block)
build_carv2-validates_example =
    build_carv2-validates toy_sha256 one_block one_archive 4 one_row build_one_archive

copy_carv1_payload-inside_example :
    copy_carv1_payload toy_sha256 (pragma ++ (one_block ++ (0 ∷ []))) 40 4 11 false
    ≡ ok (one_row, one_block)
copy_carv1_payload-inside_example =
    copy_carv1_payload-inside toy_sha256 one_block 40 4 0 one_row one_block pragma (0 ∷ [])
      copy_one_block

-- A file that ends inside its frame.
copy_carv1_payload-ends_example :
    copy_carv1_payload toy_sha256 (take 20 one_block) 40 4 0 true ≢ err out_of_fuel
copy_carv1_payload-ends_example = copy_carv1_payload-ends toy_sha256 (take 20 one_block) 40 4 0 true

-- 300 is written as 0xAC 0x02.
uvarint_300 : uvarint 300 ≡ 0xAC ∷ 0x02 ∷ []
unfolding uvarint
uvarint_300 = refl

read_uvarint-uvarint_example :
    read_uvarint 1024 (record { source = 0xAC ∷ 0x02 ∷ 9 ∷ []; dest = []; written = 0 })
    ≡ ok (
      (300, length (uvarint 300)),
      record { source = 9 ∷ []; dest = [] ++ uvarint 300; written = 0 + length (uvarint 300) },
    )
read_uvarint-uvarint_example =
    read_uvarint-uvarint 1024 300 (record { source = 0xAC ∷ 0x02 ∷ 9 ∷ []; dest = []; written = 0 })
      (9 ∷ []) (omega arith) (omega arith) (ap (λ d. d ++ (9 ∷ [])) (sym uvarint_300))
