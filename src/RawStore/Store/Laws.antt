-- ===== src/RawStore/Store/Laws.antt =====
-- What the raw store returns, and what it keeps.
use yataverse_distribution.Prelude.{
  ℕ, ◌+◌, ◌≤◌, ◌≡◌, refl, sym, ap, ◌∙◌, Bool, true, false, not, ◌&&◌, Option, none, some, List, [],
  ◌∷◌, String, leb, length, take, is_empty, take_all, Bytes, bytes_eq, bytes_eq_refl, bytes_eq→eq,
  Result, ok, err, require, ◌>>=◌, ◌>>◌, arith, ok_inj, Result-cases, Bool-cases, Option-cases, inl,
  inr,
}
use text.Mathlib.TextPositions.{eq_refl}
use yataverse_distribution.Json.{
  Dict, lookup, is_number, is_text, text_of, int_of, codes, is_sha256,
}
use yataverse_distribution.RawStore.{
  existing_differs, RawBlockStoreError, sha256_digest, verify_cid, file_missing,
}
use yataverse_distribution.RawStore.Store.{
  Node, absent, file, link, Metadata, object, Slot, exists, regular, contents, max_block,
  loaded_meta, meta_fits, bounded, block_fits, read_files, read, new_meta, same_as_read, put_new,
  put,
}

and_false : (b : Bool) → (b && false) ≡ false
and_false true = refl
and_false false = refl

within :
    (m : ℕ) (block : Bytes)
    → (not (is_empty block) && leb (length block) m) ≡ true
    → length block ≤ m + 1
within m [] b = omega arith
within m (x ∷ block) b = ground arith

module _ (sha256 : Bytes → Bytes) (b32decode : List ℕ → Option Bytes)
    (hexdigest : Bytes → String) where
  -- The size in the metadata is within the bound, and is that of the block.
  fits_bounds :
      (d : Dict) (cid : String) (max_bytes : ℕ) (block : Bytes)
      → meta_fits cid max_bytes d ≡ true
      → block_fits sha256 b32decode hexdigest d block ≡ true
      → (1 ≤ length block) × (length block ≤ max_bytes)
  unfolding meta_fits block_fits
  fits_bounds d cid max_bytes block f b = elim (Option-cases (int_of (lookup "bytes" d))) [
    | inl e ↦ ground (arith, rw e at b)
    | inr (n, e) ↦ ground (arith, rw e at f, rw e at b)
  ]

  read_files-eq_some :
      (cid : String) (max_bytes : ℕ) (stored : Option Bytes) (meta : Option Metadata)
      (block : Bytes)
      → read_files sha256 b32decode hexdigest cid max_bytes stored meta ≡ ok (some block)
      → (verify_cid sha256 b32decode (codes cid) block ≡ ok tt)
        × (1 ≤ length block)
        × (length block ≤ max_bytes)
  unfolding read_files
  read_files-eq_some cid max_bytes none meta block h = cc
  read_files-eq_some cid max_bytes (some stored) none block h = cc
  read_files-eq_some cid max_bytes (some stored) (some meta) block h =
      elim (Result-cases (loaded_meta meta)) [
        | inr (x, e) ↦ cc (rw e at h)
        | inl (d, e) ↦
            let cut = take (max_bytes + 1) stored in
            elim (Bool-cases (meta_fits cid max_bytes d)) [
              | inr bad ↦ cc (rw (e, bad) at h)
              | inl fits ↦ elim (Bool-cases (block_fits sha256 b32decode hexdigest d cut)) [
                | inr bad ↦ cc (rw (e, fits, bad) at h)
                | inl same ↦ elim (Result-cases (verify_cid sha256 b32decode (codes cid) cut)) [
                  | inr (x, v) ↦ cc (rw (e, fits, same, v) at h)
                  | inl (u, v) ↦
                      let is : cut ≡ block = cc (rw (e, fits, same, v) at h) in
                      let (low, high) = fits_bounds d cid max_bytes cut fits same in
                      (rw (← is) v, rw (← is) low, rw (← is) high)
                ]
              ]
            ]
      ]

  -- A block that `read` returns passes the CID check, and its size is positive and within the bound
  -- of the call, whatever the files hold.
  pub read-eq_some :
      (cid : String) (max_bytes : ℕ) (slot : Slot) (block : Bytes)
      → read sha256 b32decode hexdigest cid max_bytes slot ≡ ok (some block)
      → (verify_cid sha256 b32decode (codes cid) block ≡ ok tt)
        × (1 ≤ length block)
        × (length block ≤ max_bytes)
  unfolding read
  read-eq_some cid max_bytes slot block h =
      elim (Result-cases (sha256_digest sha256 b32decode (codes cid))) [
        | inr (x, e) ↦ cc (rw e at h)
        | inl (digest, e) ↦ elim (Bool-cases (not (exists slot.block) && not (exists slot.meta))) [
          | inl none_there ↦ cc (rw (e, none_there) at h)
          | inr some_there ↦
              read_files-eq_some cid max_bytes (regular slot.block) (regular slot.meta) block
                (rw (e, some_there) at h)
        ]
      ]

  -- The block that the CID check accepts has a digest.
  verify_cid-digest :
      (cid : List ℕ) (block : Bytes)
      → verify_cid sha256 b32decode cid block ≡ ok tt
      → (digest : Bytes) × (sha256_digest sha256 b32decode cid ≡ ok digest)
  unfolding verify_cid
  verify_cid-digest cid block h = elim (Result-cases (sha256_digest sha256 b32decode cid)) [
    | inr (x, e) ↦ cc (rw e at h)
    | inl found ↦ found
  ]

  -- `hexdigest` writes 64 hexadecimal digits.
  module _ (hex : (b : Bytes) → is_sha256 (hexdigest b) ≡ true) where
    new_meta-fits :
        (cid : String) (block : Bytes)
        → bounded block ≡ true
        → (meta_fits cid max_block (new_meta sha256 b32decode hexdigest cid block) ≡ true)
          × (block_fits sha256 b32decode hexdigest
                (new_meta sha256 b32decode hexdigest cid block)
                block
              ≡ true)
    unfolding meta_fits new_meta block_fits lookup is_number is_text int_of text_of
    new_meta-fits cid [] b = cc
    new_meta-fits cid (x ∷ block) b = (
      ground (arith, hex (x ∷ block), eq_refl cid),
      ground (arith, eq_refl (hexdigest (x ∷ block))),
    )

    -- What `put` leaves reads back, where the block is a regular file.
    read_files-new :
        (cid : String) (block : Bytes)
        → bounded block ≡ true
        → verify_cid sha256 b32decode (codes cid) block ≡ ok tt
        → read_files sha256 b32decode hexdigest cid max_block
            (some block)
            (some (object (new_meta sha256 b32decode hexdigest cid block)))
          ≡ ok (some block)
    unfolding read_files loaded_meta
    read_files-new cid block b v =
        let (meta, same) = new_meta-fits cid block b in
        let whole : take (max_block + 1) block ≡ block =
          take_all (max_block + 1) block (within max_block block b) in
        rw (meta, whole, same, v) refl

    put_new-eq_ok :
        (cid : String) (block : Bytes) (node : Node Bytes) (slot : Slot)
        → put_new sha256 b32decode hexdigest cid block node ≡ ok slot
        → (contents slot.block ≡ some block)
          × (slot.meta ≡ file (object (new_meta sha256 b32decode hexdigest cid block)))
          × ((regular node ≡ contents node) → regular slot.block ≡ some block)
    unfolding put_new
    put_new-eq_ok cid block absent slot h =
        let same : record {
          block = file block;
          meta = file (object (new_meta sha256 b32decode hexdigest cid block));
        }
            ≡ slot =
          ok_inj h in
        (
          ap (λ (s : Slot). contents s.block) (sym same),
          ap (λ (s : Slot). s.meta) (sym same),
          λ r. ap (λ (s : Slot). regular s.block) (sym same),
        )
    put_new-eq_ok cid block (file old) slot h = elim (Bool-cases (bytes_eq old block)) [
      | inr e ↦ cc (rw e at h)
      | inl e ↦
          let same : record {
            block = file old;
            meta = file (object (new_meta sha256 b32decode hexdigest cid block));
          }
              ≡ slot =
            ok_inj (rw e at h) in
          let eq = bytes_eq→eq old block e in
          (
            ap (λ (s : Slot). contents s.block) (sym same) ∙ ap some eq,
            ap (λ (s : Slot). s.meta) (sym same),
            λ r. ap (λ (s : Slot). regular s.block) (sym same) ∙ ap some eq,
          )
    ]
    put_new-eq_ok cid block (link old) slot h = elim (Bool-cases (bytes_eq old block)) [
      | inr e ↦ cc (rw e at h)
      | inl e ↦
          let same : record {
            block = link old;
            meta = file (object (new_meta sha256 b32decode hexdigest cid block));
          }
              ≡ slot =
            ok_inj (rw e at h) in
          (
            ap (λ (s : Slot). contents s.block) (sym same) ∙ ap some (bytes_eq→eq old block e),
            ap (λ (s : Slot). s.meta) (sym same),
            λ r. cc,
          )
    ]

    -- Two regular files, of which the metadata is the one that `put` writes.
    read-new :
        (cid : String) (block : Bytes) (slot : Slot)
        → bounded block ≡ true
        → verify_cid sha256 b32decode (codes cid) block ≡ ok tt
        → regular slot.block ≡ some block
        → slot.meta ≡ file (object (new_meta sha256 b32decode hexdigest cid block))
        → read sha256 b32decode hexdigest cid max_block slot ≡ ok (some block)
    unfolding read
    read-new cid block slot b v stored meta =
        let (digest, d) = verify_cid-digest (codes cid) block v in
        rw (d, stored, meta, and_false (not (exists slot.block))) (read_files-new cid block b v)

    -- A block that `put` has taken reads back unchanged, whether it was stored now or before, if no
    -- symbolic link stands in the place of the block.
    pub read-put :
        (cid : String) (block : Bytes) (slot slot' : Slot)
        → regular slot.block ≡ contents slot.block
        → put sha256 b32decode hexdigest cid block slot ≡ ok slot'
        → read sha256 b32decode hexdigest cid max_block slot' ≡ ok (some block)
    unfolding put
    read-put cid block slot slot' plain h = elim (Bool-cases (bounded block)) [
      | inr bad ↦ cc (rw bad at h)
      | inl b ↦ elim (Result-cases (verify_cid sha256 b32decode (codes cid) block)) [
        | inr (x, v) ↦ cc (rw (b, v) at h)
        | inl (u, v) ↦ elim (Bool-cases (exists slot.meta)) [
          | inr fresh ↦
              let (_, meta, kept) =
                put_new-eq_ok cid block slot.block slot' (rw (b, v, fresh) at h) in
              read-new cid block slot' b v (kept plain) meta
          | inl old ↦
              known (read sha256 b32decode hexdigest cid max_block slot) refl (rw (b, v, old) at h)
        ]
      ]
    ]
      where
        known :
            (r : Result RawBlockStoreError (Option Bytes))
            → read sha256 b32decode hexdigest cid max_block slot ≡ r
            → ◌>>=◌ {B = Slot} r (λ old.
              require (same_as_read sha256 b32decode hexdigest block old) existing_differs
              >> ok slot)
              ≡ ok slot'
            → read sha256 b32decode hexdigest cid max_block slot' ≡ ok (some block)
        known (err x) e k = cc
        known (ok none) e k = unfold same_as_read in cc
        known (ok (some old)) e k =
            elim (Bool-cases (same_as_read sha256 b32decode hexdigest block (some old))) [
              | inr differs ↦ cc (rw differs at k)
              | inl same ↦
                  let kept : slot ≡ slot' = ok_inj (rw same at k) in
                  let eq : old ≡ block = bytes_eq→eq old block (unfold same_as_read in same) in
                  rw (← kept) (e ∙ ap (λ b. ok (some b)) eq)
            ]

    regular-eq_some :
        (node : Node Bytes) (block : Bytes) → regular node ≡ some block → node ≡ file block
    regular-eq_some absent block h = cc
    regular-eq_some (file old) block h = cc
    regular-eq_some (link old) block h = cc

    put_new-file :
        (cid : String) (block : Bytes)
        → put_new sha256 b32decode hexdigest cid block (file block)
          ≡ ok (record {
            block = file block;
            meta = file (object (new_meta sha256 b32decode hexdigest cid block));
          })
    unfolding put_new
    put_new-file cid block = rw (bytes_eq_refl block) refl

    -- A crash between the two files leaves the block without metadata. `read` then refuses, and
    -- a second `put` of the same block ends as the first one would have.
    pub put-put_crashed :
        (cid : String) (block : Bytes) (slot slot' : Slot)
        → slot.meta ≡ absent
        → regular slot.block ≡ contents slot.block
        → put sha256 b32decode hexdigest cid block slot ≡ ok slot'
        → (read sha256 b32decode hexdigest cid max_block (record slot' { meta = absent })
            ≡ err file_missing)
          × (put sha256 b32decode hexdigest cid block (record slot' { meta = absent }) ≡ ok slot')
    unfolding put read
    put-put_crashed cid block slot slot' none_yet plain h = elim (Bool-cases (bounded block)) [
      | inr bad ↦ cc (rw bad at h)
      | inl b ↦ elim (Result-cases (verify_cid sha256 b32decode (codes cid) block)) [
        | inr (x, v) ↦ cc (rw (b, v) at h)
        | inl (u, v) ↦
            let (digest, d) = verify_cid-digest (codes cid) block v in
            let (_, meta, kept) =
              put_new-eq_ok cid block slot.block slot' (rw (b, v, none_yet) at h) in
            let stored : slot'.block ≡ file block =
              regular-eq_some slot'.block block (kept plain) in
            (
              rw (d, stored) (unfold read_files in refl),
              rw (b, v, stored)
                  (put_new-file cid block
                    ∙ ap (λ m. ok (record { block = file block; meta = m })) (sym meta)),
            )
      ]
    ]
