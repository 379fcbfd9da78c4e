-- ===== src/LocalBlocks/Verified.antt =====
-- The blocks that `LocalBlocks.read` serves.
use yataverse_distribution.Prelude.{
  ℕ, ◌==◌, ◌≡◌, ◌≤◌, ◌⊎◌, inl, inr, refl, Bool, true, false, ◌||◌, Option, none, some, List, String,
  leb, length, Bytes, Result, ok, err, require, >>=-eq_ok, Result-cases, Bool-cases, arith,
}
use yataverse_distribution.Json.{Dict, lookup, codes}
use yataverse_distribution.Inventory.{File, not_durable, over_api_limit}
use yataverse_distribution.RawStore.{RawBlockStoreError, verify_cid}
use yataverse_distribution.RawStore.Store as Store
use yataverse_distribution.RawStore.Store.{Slot}
use yataverse_distribution.RawStore.Store.Laws.{read-eq_some}
use yataverse_distribution.Receipts.{Directory, CarReceipts}
use yataverse_distribution.LocalBlocks.{
  Ipfs, LocalBlocks, is_pinned, size_of, checked_raw, read_raw, is_covered, checked_get, read_kubo,
  read,
}

size_of-eq_ok : (found : Option ℕ) (size : ℕ) → size_of found ≡ ok size → found ≡ some size
unfolding size_of
size_of-eq_ok none size h = cc
size_of-eq_ok (some n) size h = cc

module _ (ipfs : Ipfs) (sha256 : Bytes → Bytes) (b32decode : List ℕ → Option Bytes)
    (hexdigest : Bytes → String) (loads : Bytes → Option Dict) (file : File) (repository : String)
    (car native : List Directory) where
  -- The block is the one that the CID names, and it has the size that is given.
  abbrev pub IsBlockOf : String → ℕ → Bytes → Type 0
  IsBlockOf cid size block =
      (verify_cid sha256 b32decode (codes cid) block ≡ ok tt) × (length block ≡ size)

  checked_get-eq_ok :
      (cid : String) (size : ℕ) (got : Option Bytes) (block : Bytes)
      → checked_get ipfs sha256 b32decode hexdigest loads file repository car native cid size got
        ≡ ok block
      → IsBlockOf cid size block
  unfolding checked_get
  checked_get-eq_ok cid size none block h = cc
  checked_get-eq_ok cid size (some b) block h = elim (Bool-cases (length b == size)) [
    | inr e ↦ cc (rw e at h)
    | inl e ↦ elim (Result-cases (verify_cid sha256 b32decode (codes cid) b)) [
      | inr (x, v) ↦ cc (rw (e, v) at h)
      | inl (u, v) ↦
          let is : b ≡ block = cc (rw (e, v) at h) in (rw (← is) v, rw (← is) (ground arith))
    ]
  ]

  checked_raw-eq_ok :
      (size : ℕ) (r : Result RawBlockStoreError (Option Bytes)) (block : Bytes)
      → checked_raw ipfs sha256 b32decode hexdigest loads file repository car native size r
        ≡ ok (some block)
      → (r ≡ ok (some block)) × (length block ≡ size)
  unfolding checked_raw
  checked_raw-eq_ok size (err e) block h = cc
  checked_raw-eq_ok size (ok none) block h = cc
  checked_raw-eq_ok size (ok (some b)) block h = elim (Bool-cases (length b == size)) [
    | inr e ↦ cc (rw e at h)
    | inl e ↦ let is : b ≡ block = cc (rw e at h) in (rw is refl, rw (← is) (ground arith))
  ]

  read_raw-eq_ok :
      (store : Option (String → Slot)) (cid : String) (max_bytes size : ℕ) (block : Bytes)
      → read_raw ipfs sha256 b32decode hexdigest loads file repository car native store cid
          max_bytes size
        ≡ ok (some block)
      → IsBlockOf cid size block
        × (slots : String → Slot) × (store ≡ some slots)
        × (Store.read sha256 b32decode hexdigest cid max_bytes (slots cid) ≡ ok (some block))
  unfolding read_raw
  read_raw-eq_ok none cid max_bytes size block h = cc
  read_raw-eq_ok (some slots) cid max_bytes size block h =
      let (e, long) =
        checked_raw-eq_ok size (Store.read sha256 b32decode hexdigest cid max_bytes (slots cid))
          block h in
      let (v, _, _) = read-eq_some sha256 b32decode hexdigest cid max_bytes (slots cid) block e in
      ((v, long), slots, refl, e)

  -- Why a block counts as held: it is in the raw store, a receipt covers it, or it is pinned.
  abbrev pub IsHeld : LocalBlocks → String → Bytes → Type 0
  IsHeld blocks cid block =
      ((slots : String → Slot) × (blocks.raw_store ≡ some slots)
        × (Store.read sha256 b32decode hexdigest cid blocks.max_block_bytes (slots cid)
            ≡ ok (some block)))
      ⊎ (((receipts : Option CarReceipts) × (is_covered ipfs sha256 b32decode hexdigest loads file
                repository car native blocks.inventory blocks.car_receipts cid
              ≡ ok (true, receipts)))
          ⊎ (is_pinned ipfs cid ≡ true))

  read_kubo-eq_ok :
      (blocks : LocalBlocks) (cid : String) (size : ℕ) (block : Bytes)
      (receipts : Option CarReceipts)
      → read_kubo ipfs sha256 b32decode hexdigest loads file repository car native blocks cid size
        ≡ ok (block, receipts)
      → IsBlockOf cid size block × IsHeld blocks cid block
  unfolding read_kubo
  read_kubo-eq_ok blocks cid size block receipts h =
      let ((hit, now), c, h1) = >>=-eq_ok _ _ h in
      let (_, held, h2) = >>=-eq_ok _ _ h1 in
      let (got, g, h3) = >>=-eq_ok _ _ h2 in
      let is : got ≡ block = cc in
      (rw (← is) (checked_get-eq_ok cid size (ipfs.block_get cid) got g), why hit now c held)
    where
      why :
          (hit : Bool) (now : Option CarReceipts)
          → is_covered ipfs sha256 b32decode hexdigest loads file repository car native
              blocks.inventory blocks.car_receipts cid
            ≡ ok (hit, now)
          → require (hit || is_pinned ipfs cid) not_durable ≡ ok tt
          → IsHeld blocks cid block
      why true now c held = inr (inl (now, c))
      why false now c held = elim (Bool-cases (is_pinned ipfs cid)) [
        | inl said ↦ inr (inr said)
        | inr unsaid ↦ cc (rw unsaid at held)
      ]

  -- A block that `read` serves is listed in the inventory with its size, within the byte limit, and
  -- its bytes have the CID and that size. It was in the raw store, or a receipt covers its row, or
  -- Kubo says that it is pinned.
  pub read-Served :
      (blocks : LocalBlocks) (cid : String) (block : Bytes) (receipts : Option CarReceipts)
      → read ipfs sha256 b32decode hexdigest loads file repository car native blocks cid
        ≡ ok (block, receipts)
      → (lookup cid blocks.inventory.sizes ≡ some (length block))
        × (length block ≤ blocks.max_block_bytes)
        × (verify_cid sha256 b32decode (codes cid) block ≡ ok tt)
        × IsHeld blocks cid block
  unfolding read
  read-Served blocks cid block receipts h =
      let (size, s, h1) = >>=-eq_ok _ _ h in
      let (_, fits, h2) = >>=-eq_ok _ _ h1 in
      let (stored, r, h3) = >>=-eq_ok _ _ h2 in
      let ((v, long), held) = from stored size r h3 in
      (
        rw long (size_of-eq_ok (lookup cid blocks.inventory.sizes) size s),
        rw long (limit size blocks.max_block_bytes fits),
        v,
        held,
      )
    where
      limit : (m n : ℕ) → require (leb m n) over_api_limit ≡ ok tt → m ≤ n
      limit m n f = elim (Bool-cases (leb m n)) [ inl y ↦ ground arith | inr y ↦ cc (rw y at f) ]

      from :
          (stored : Option Bytes) (size : ℕ)
          → read_raw ipfs sha256 b32decode hexdigest loads file repository car native
              blocks.raw_store cid blocks.max_block_bytes size
            ≡ ok stored
          → elim stored [
            | some found ↦ ok (found, blocks.car_receipts)
            | none ↦
                read_kubo ipfs sha256 b32decode hexdigest loads file repository car native blocks
                  cid size
          ]
            ≡ ok (block, receipts)
          → IsBlockOf cid size block × IsHeld blocks cid block
      from none size r k = read_kubo-eq_ok blocks cid size block receipts k
      from (some found) size r k =
          let is : found ≡ block = cc in
          let (of_size, slots, e, there) =
            read_raw-eq_ok blocks.raw_store cid blocks.max_block_bytes size block (rw is at r) in
          (of_size, inl (slots, e, there))
