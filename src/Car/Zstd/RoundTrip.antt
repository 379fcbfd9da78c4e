-- ===== src/Car/Zstd/RoundTrip.antt =====
-- What `pack` writes, `unpack` restores.
use yataverse_distribution.Prelude.{
  ℕ, ◌+◌, ◌*◌, ◌≡◌, refl, sym, ap, ◌∙◌, true, ◌==◌, ==_self, Option, some, List, String, ltb, leb,
  le→leb, length, take, drop, Bytes, Result, ok, ok_inj, err, Result-cases, Bool-cases,
  Option-cases, inl, inr, arith,
}
use text.Mathlib.TextPositions.{eq_refl}
use yataverse_distribution.Json.{Dict, lookup, is_text, is_number}
use yataverse_distribution.Car.Stream.{ArchiveError}
use yataverse_distribution.Car.Copy.{Row}
use yataverse_distribution.Car.Index.{carv2_data_offset}
use yataverse_distribution.Car.Archive.{Validation, build_carv2, validate_carv2}
use yataverse_distribution.Car.Archive.Validates.{build_carv2-validates}
use yataverse_distribution.Car.Zstd.{
  receipt, Place, empty_place, publish, published, loaded, is_present, PackArgs, UnpackArgs,
  is_expected, zstd_frame_content_size, zstd, pack_receipt, compressed_archive, fits_pack,
  saved_pack, pack_bounds, pack_fresh, pack, unpack_receipt, restored_archive, unpack,
}

module _ (sha256 : Bytes → Bytes) (hexdigest : Bytes → String)
    (compress decompress : Bytes → Option Bytes) where
  -- What `pack` has made of a CARv1 file in an empty place.
  pub record Packed (carv1 : Bytes) (args : PackArgs) (d : Dict) (place : Place) : Type 0 where
    pub carv2 : Bytes
    pub rows : List Row
    pub compressed : Bytes
    pub bounds : pack_bounds sha256 hexdigest compress decompress carv1 args ≡ true
    pub built : build_carv2 sha256 carv1 args.max_blocks ≡ ok (carv2, rows)
    pub zipped : compress carv2 ≡ some compressed
    pub written : d ≡ pack_receipt sha256 hexdigest compress decompress carv1 carv2 compressed rows
    pub placed : place ≡ record { output = some compressed; saved = receipt d }

  compressed_archive-eq_ok :
      (carv1 : Bytes) (max_blocks : ℕ) (file : Bytes) (d : Dict)
      → compressed_archive sha256 hexdigest compress decompress carv1 max_blocks ≡ ok (file, d)
      → (carv2 : Bytes) × (rows : List Row) × (build_carv2 sha256 carv1 max_blocks
          ≡ ok (carv2, rows))
        × (compress carv2 ≡ some file)
        × (d ≡ pack_receipt sha256 hexdigest compress decompress carv1 carv2 file rows)
  unfolding compressed_archive zstd
  compressed_archive-eq_ok carv1 max_blocks file d h =
      elim (Result-cases (build_carv2 sha256 carv1 max_blocks)) [
        | inr (x, e) ↦ cc (rw e at h)
        | inl ((carv2, rows), e) ↦ elim (Result-cases (validate_carv2 sha256 carv2 max_blocks)) [
          | inr (x, bad) ↦ cc (rw (e, bad) at h)
          | inl (v, good) ↦ elim (Bool-cases (v.blocks == length rows)) [
            | inr bad ↦ cc (rw (e, good, bad) at h)
            | inl same ↦ elim (Option-cases (compress carv2)) [
              | inl bad ↦ cc (rw (e, good, same, bad) at h)
              | inr (compressed, zipped) ↦
                  let is = ok_inj (rw (e, good, same, zipped) at h) in
                  let file_is : compressed ≡ file = ap (λ p. p.0) is in
                  (
                    carv2,
                    rows,
                    e,
                    zipped ∙ ap some file_is,
                    sym (ap (λ p. p.1) is)
                        ∙ ap
                            (λ z.
                              pack_receipt sha256 hexdigest compress decompress carv1 carv2 z rows)
                            file_is,
                  )
            ]
          ]
        ]
      ]

  published-empty :
      (r : Result ArchiveError (Bytes × Dict)) (d : Dict) (place : Place)
      → published r empty_place ≡ (ok d, place)
      → (file : Bytes) × (r ≡ ok (file, d))
        × (place ≡ record { output = some file; saved = receipt d })
  unfolding published publish
  published-empty (err e) d place h = cc
  published-empty (ok (file, d')) d place h =
      let is : d' ≡ d = ok_inj (ap (λ r. r.0) h) in
      (
        file,
        ap (λ x. ok (file, x)) is,
        sym (ap (λ r. r.1) h) ∙ ap (λ x. record { output = some file; saved = receipt x }) is,
      )

  pack-Packed :
      (carv1 : Bytes) (args : PackArgs) (free : ℕ) (d : Dict) (place : Place)
      → pack sha256 hexdigest compress decompress (some carv1) args free empty_place ≡ (ok d, place)
      → Packed carv1 args d place
  unfolding pack pack_fresh is_present
  pack-Packed carv1 args free d place h =
      elim (Bool-cases (pack_bounds sha256 hexdigest compress decompress carv1 args)) [
        | inr bad ↦ cc (rw bad at h)
        | inl fits ↦ elim (Bool-cases (ltb free (2 * length carv1 + 64 * 1024 * 1024))) [
          | inl low ↦ cc (rw (fits, low) at h)
          | inr room ↦
              let (file, made, placed) =
                published-empty
                  (compressed_archive sha256 hexdigest compress decompress carv1 args.max_blocks) d
                  place (rw (fits, room) at h) in
              let (carv2, rows, built, zipped, written) =
                compressed_archive-eq_ok carv1 args.max_blocks file d made in
              record {
                carv2 = carv2;
                rows = rows;
                compressed = file;
                bounds = fits;
                built = built;
                zipped = zipped;
                written = written;
                placed = placed;
              }
        ]
      ]

  fits_pack-pack_receipt :
      (carv1 carv2 file : Bytes) (rows : List Row)
      → fits_pack sha256 hexdigest compress decompress carv1 file
          (pack_receipt sha256 hexdigest compress decompress carv1 carv2 file rows)
        ≡ true
  unfolding fits_pack pack_receipt lookup is_text is_number
  fits_pack-pack_receipt carv1 carv2 file rows =
      rw (eq_refl (hexdigest carv1), eq_refl (hexdigest file), ==_self (length file)) refl

  -- A second `pack` of the same CARv1 file, behind one that ended well, gives the receipt that was
  -- saved and leaves both files alone.
  pub pack-pack :
      (carv1 : Bytes) (args : PackArgs) (free free' : ℕ) (d : Dict) (place : Place)
      → pack sha256 hexdigest compress decompress (some carv1) args free empty_place ≡ (ok d, place)
      → pack sha256 hexdigest compress decompress (some carv1) args free' place ≡ (ok d, place)
  unfolding pack saved_pack loaded is_present
  pack-pack carv1 args free free' d place h =
      let k = pack-Packed carv1 args free d place h in
      let fits : fits_pack sha256 hexdigest compress decompress carv1 k.compressed d ≡ true =
        rw k.written (fits_pack-pack_receipt carv1 k.carv2 k.compressed k.rows) in
      rw (k.placed, k.bounds, fits) refl

  -- What the archiver relies on of the zstd command: it restores what it has compressed, and writes
  -- the size of that into the header of its frame.
  abbrev pub IsLossless : Type 0
  IsLossless =
      (file frame : Bytes)
      → compress file ≡ some frame
      → (decompress frame ≡ some file) × (zstd_frame_content_size frame ≡ ok (length file))

  -- The arguments that a shipper gives to the other side, of an archive and its frame.
  abbrev pub shipped : ℕ → Bytes → Bytes → UnpackArgs
  shipped max_blocks carv2 frame = record {
    expected_compressed_sha256 = some (hexdigest frame);
    expected_carv2_sha256 = some (hexdigest carv2);
    max_blocks = max_blocks;
    max_bytes = length carv2;
  }

  abbrev pub sized : Bytes → List Row → Validation
  sized carv2 rows = record {
    carv2_bytes = length carv2;
    blocks = length rows;
    index_entries = length rows;
  }

  unpack-compressed :
      (carv1 carv2 frame : Bytes) (rows : List Row) (max_blocks : ℕ)
      → IsLossless
      → build_carv2 sha256 carv1 max_blocks ≡ ok (carv2, rows)
      → compress carv2 ≡ some frame
      → restored_archive sha256 hexdigest compress decompress (shipped max_blocks carv2 frame) frame
        ≡ ok (
          carv2,
          unpack_receipt sha256 hexdigest compress decompress frame carv2 (sized carv2 rows),
        )
  unfolding restored_archive zstd is_expected
  unpack-compressed carv1 carv2 frame rows max_blocks lossless built zipped =
      let (restores, declares) = lossless carv2 frame zipped in
      let (valid, _) = build_carv2-validates sha256 carv1 carv2 max_blocks rows built in
      let room : leb (length carv2) (length carv2 + 128 * max_blocks + 1024) ≡ true =
        le→leb _ _ (omega arith) in
      rw (declares, room, restores, ==_self (length carv2), valid, eq_refl (hexdigest carv2)) refl

  -- What `pack` has made of a CARv1 file, `unpack` restores in an empty place, given the digests
  -- and the bounds that a shipper takes from the receipt: the CARv2 archive, which holds the CARv1
  -- file unchanged, with a receipt of its size and blocks.
  pub unpack-pack :
      (carv1 : Bytes) (args : PackArgs) (free : ℕ) (d : Dict) (place : Place)
      → IsLossless
      → pack sha256 hexdigest compress decompress (some carv1) args free empty_place ≡ (ok d, place)
      → (carv2 : Bytes) × (frame : Bytes) × (rows : List Row) × (place
          ≡ record { output = some frame; saved = receipt d })
        × (d ≡ pack_receipt sha256 hexdigest compress decompress carv1 carv2 frame rows)
        × (take (length carv1) (drop carv2_data_offset carv2) ≡ carv1)
        × (unpack sha256 hexdigest compress decompress
              (some frame)
              (shipped args.max_blocks carv2 frame)
              empty_place
            ≡ (
              ok (
                  unpack_receipt sha256 hexdigest compress decompress frame carv2
                    (sized carv2 rows)),
              record {
                output = some carv2;
                saved = receipt (
                    unpack_receipt sha256 hexdigest compress decompress frame carv2
                      (sized carv2 rows));
              },
            ))
  unfolding unpack is_present is_expected published publish
  unpack-pack carv1 args free d place lossless h =
      let k = pack-Packed carv1 args free d place h in
      let (_, inside) = build_carv2-validates sha256 carv1 k.carv2 args.max_blocks k.rows k.built in
      (
        k.carv2,
        k.compressed,
        k.rows,
        k.placed,
        k.written,
        inside,
        rw
            (
              eq_refl (hexdigest k.compressed),
              unpack-compressed carv1 k.carv2 k.compressed k.rows args.max_blocks lossless k.built
                  k.zipped,
            )
            refl,
      )
