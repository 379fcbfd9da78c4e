-- ===== src/Car/Copy/Section.antt =====
-- `copy_carv1_payload` as a whole: what a successful copy says, and the copy of a section that
-- stands inside a longer file.
use yataverse_distribution.Prelude.{
  ◌>>=◌ as bind_result, ℕ, ◌≤◌, ◌<◌, ◌≡◌, refl, sym, ap, ap₂, ◌∙◌, subst, append-nil, List, [], ◌∷◌,
  ◌++◌, Bool, true, false, Bytes, Result, ok, err, length, take, take-append, drop, drop-append,
  All, arith,
}
use yataverse_distribution.Car.Stream.{ArchiveError, Stream}
use yataverse_distribution.Car.Stream.Exact.{extend}
use yataverse_distribution.Car.Copy.{Row, copy_section, finish, copy_carv1_payload}
use yataverse_distribution.Car.Copy.Exact.{copy_section-IsExact}
use yataverse_distribution.Car.Copy.Rows.{IsBacked, copy_section-Kept}

finish_result :
    (total : ℕ) (eof : Bool) (rows' : List Row) (s : Stream) (rows : List Row) (dest : Bytes)
    → finish total eof rows' s ≡ ok (rows, dest)
    → (rows ≡ rows')
      × (dest ≡ s.dest)
      × (s.written ≡ total)
      × (0 < length rows)
      × (eof ≡ true → s.source ≡ [])
unfolding finish
finish_result total eof rows' s rows dest h = ground arith

finish_inside :
    (total : ℕ) (rows : List Row) (s : Stream)
    → s.written ≡ total
    → 0 < length rows
    → finish total false rows s ≡ ok (rows, s.dest)
unfolding finish
finish_inside total [] s e h = absurd (omega arith)
finish_inside total (row ∷ rows) s e h = ground arith

module _ (sha256 : Bytes → Bytes) where
  module _ (source : Bytes) (total blocks start : ℕ) (eof : Bool) (rows : List Row)
      (dest : Bytes) where
    -- The stream that a successful copy leaves before its last checks.
    record Finished : Type 0 where
      last : Stream
      section :
          copy_section sha256 total blocks
            (record { source = drop start source; dest = []; written = 0 })
          ≡ ok (rows, last)
      output : dest ≡ last.dest
      size : last.written ≡ total
      some_rows : 0 < length rows
      at_end : eof ≡ true → last.source ≡ []

    finished : copy_carv1_payload sha256 source total blocks start eof ≡ ok (rows, dest) → Finished
    unfolding copy_carv1_payload
    finished h = go _ refl h
      where
        go :
            (r : Result ArchiveError (List Row × Stream))
            → copy_section sha256 total blocks
                (record { source = drop start source; dest = []; written = 0 })
              ≡ r
            → bind_result r (λ (rows, s). finish total eof rows s) ≡ ok (rows, dest)
            → Finished
        go (err e) r h = cc
        go (ok (rows', last)) r h =
            let f = finish_result total eof rows' last rows dest h in
            record {
              last = last;
              section = r ∙ ap (λ (x : List Row). ok (x, last)) (sym f.0);
              output = f.1;
              size = f.2;
              some_rows = f.3;
              at_end = f.4;
            }

  pub copy_carv1_payload-IsBacked :
      (source : Bytes) (total blocks start : ℕ) (eof : Bool) (rows : List Row) (dest : Bytes)
      → copy_carv1_payload sha256 source total blocks start eof ≡ ok (rows, dest)
      → All (IsBacked sha256 dest) rows
        × (0 < length rows)
        × (length rows ≤ blocks)
        × (dest ≡ take total (drop start source))
        × (length dest ≡ total)
        × (eof ≡ true → dest ≡ drop start source)
  copy_carv1_payload-IsBacked source total blocks start eof rows dest h =
      let f = finished source total blocks start eof rows dest h in
      let k = copy_section-Kept sha256 total blocks (drop start source) rows f.last f.section in
      let run = (copy_section-IsExact sha256 total blocks).run _ rows f.last f.section in
      let long : length dest ≡ total = omega (arith, ap length f.output, k.synced, f.size) in
      let cut : drop start source ≡ dest ++ f.last.source =
        run.left ∙ ap (λ d. d ++ f.last.source) (sym run.grown ∙ sym f.output) in
      (
        subst (λ d. All (IsBacked sha256 d) rows) (sym f.output) k.backed,
        f.some_rows,
        k.bounded,
        sym (take-append dest f.last.source) ∙ ap₂ take long (sym cut),
        long,
        λ at_end. sym (append-nil dest) ∙ ap (λ r. dest ++ r) (sym (f.at_end at_end)) ∙ sym cut,
      )

  -- A section that is accepted as a whole file is accepted inside a longer file, without
  -- `require_eof`, with the same rows and the same output, whatever stands before and behind it.
  pub copy_carv1_payload-inside :
      (source : Bytes) (total blocks start : ℕ) (rows : List Row) (dest before behind : Bytes)
      → copy_carv1_payload sha256 source total blocks start true ≡ ok (rows, dest)
      → copy_carv1_payload sha256 (before ++ (dest ++ behind)) total blocks (length before) false
        ≡ ok (rows, dest)
  unfolding copy_carv1_payload
  copy_carv1_payload-inside source total blocks start rows dest before behind h =
      let f = finished source total blocks start true rows dest h in
      let run = (copy_section-IsExact sha256 total blocks).run _ rows f.last f.section in
      let whole : drop start source ≡ dest =
        run.left
        ∙ ap₂ (λ x y. x ++ y) (sym run.grown ∙ sym f.output) (f.at_end refl)
        ∙ append-nil dest in
      let there : drop (length before) (before ++ (dest ++ behind)) ≡ drop start source ++ behind =
        drop-append before (dest ++ behind) ∙ ap (λ d. d ++ behind) (sym whole) in
      rw (there, run.further behind)
        (finish_inside total rows (extend f.last behind) f.size f.some_rows
          ∙ ap (λ d. ok (rows, d)) (sym f.output))
