-- ===== src/Tests/Zstd.antt =====
-- The archive of one block, compressed by a toy that knows this archive only.
use yataverse_distribution.Prelude.{
  ◌≡◌, refl, sym, ap, ◌∙◌, [], ◌∷◌, List, Option, none, some, Bytes, bytes_eq, bytes_eq→eq, length,
  take, drop, ok, Bool-cases, inl, inr, if◌then◌else◌,
}
use yataverse_distribution.Json.{Dict}
use yataverse_distribution.Car.Copy.{Row}
use yataverse_distribution.Car.Index.{carv2_data_offset}
use yataverse_distribution.Car.Archive.{from_le}
use yataverse_distribution.Car.Archive.Validates.{build_carv2-validates}
use yataverse_distribution.Car.Zstd.{
  PackArgs, Place, receipt, empty_place, zstd_frame_content_size, content_size, size_width,
  dict_width, pack, pack_fresh, pack_bounds, pack_receipt, compressed_archive, zstd, is_present,
  published, publish, unpack, unpack_receipt,
}
use yataverse_distribution.Car.Zstd.RoundTrip.{IsLossless, shipped, sized, pack-pack, unpack-pack}
use yataverse_distribution.Tests.Car.{
  toy_sha256, one_block, one_row, one_archive, build_one_archive,
}
use yataverse_distribution.Tests.RawStore.{toy_hex}

abbrev frame : Bytes
frame = 0x28 ∷ 0xB5 ∷ 0x2F ∷ 0xFD ∷ 0x20 ∷ length one_archive ∷ []

abbrev toy_compress : Bytes → Option Bytes
toy_compress file = if bytes_eq file one_archive then some frame else none

abbrev toy_decompress : Bytes → Option Bytes
toy_decompress file = some one_archive

frame_size : zstd_frame_content_size frame ≡ ok (length one_archive)
unfolding zstd_frame_content_size content_size size_width dict_width from_le bytes_eq
frame_size = refl

toy-IsLossless : IsLossless toy_sha256 toy_hex toy_compress toy_decompress
toy-IsLossless file zipped h = elim (Bool-cases (bytes_eq file one_archive)) [
  | inr other ↦ cc (rw other at h)
  | inl same ↦
      let is = bytes_eq→eq file one_archive same in
      let frame_is : frame ≡ zipped = cc (rw same at h) in
      (ap some (sym is), rw (← frame_is) (frame_size ∙ ap (λ x. ok (length x)) (sym is)))
]

abbrev one_receipt : Dict
one_receipt =
    pack_receipt toy_sha256 toy_hex toy_compress toy_decompress one_block one_archive frame one_row

abbrev one_place : Place
one_place = record { output = some frame; saved = receipt one_receipt }

abbrev toy_args : PackArgs
toy_args = record { max_blocks = 4; max_bytes = 100 }

made :
    compressed_archive toy_sha256 toy_hex toy_compress toy_decompress one_block 4
    ≡ ok (frame, one_receipt)
unfolding compressed_archive zstd bytes_eq
made =
    rw
      (
        build_one_archive,
        (build_carv2-validates toy_sha256 one_block one_archive 4 one_row build_one_archive).0,
      )
      refl

packed :
    pack toy_sha256 toy_hex toy_compress toy_decompress
      (some one_block)
      toy_args
      70000000
      empty_place
    ≡ (ok one_receipt, one_place)
unfolding pack pack_fresh pack_bounds is_present published publish
packed = rw made refl

pack-pack_example :
    pack toy_sha256 toy_hex toy_compress toy_decompress (some one_block) toy_args 5 one_place
    ≡ (ok one_receipt, one_place)
pack-pack_example =
    pack-pack toy_sha256 toy_hex toy_compress toy_decompress one_block toy_args 70000000 5
      one_receipt one_place packed

unpack-pack_example :
    (carv2 : Bytes) × (zipped : Bytes) × (rows : List Row) × (one_place
      ≡ record { output = some zipped; saved = receipt one_receipt })
    × (one_receipt
        ≡ pack_receipt toy_sha256 toy_hex toy_compress toy_decompress one_block carv2 zipped rows)
    × (take (length one_block) (drop carv2_data_offset carv2) ≡ one_block)
    × (unpack toy_sha256 toy_hex toy_compress toy_decompress
          (some zipped)
          (shipped toy_sha256 toy_hex toy_compress toy_decompress 4 carv2 zipped)
          empty_place
        ≡ (
          ok (
              unpack_receipt toy_sha256 toy_hex toy_compress toy_decompress zipped carv2
                (sized toy_sha256 toy_hex toy_compress toy_decompress carv2 rows)),
          record {
            output = some carv2;
            saved = receipt (
                unpack_receipt toy_sha256 toy_hex toy_compress toy_decompress zipped carv2
                  (sized toy_sha256 toy_hex toy_compress toy_decompress carv2 rows));
          },
        ))
unpack-pack_example =
    unpack-pack toy_sha256 toy_hex toy_compress toy_decompress one_block toy_args 70000000
      one_receipt one_place toy-IsLossless packed
