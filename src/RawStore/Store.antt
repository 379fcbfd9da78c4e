-- ===== src/RawStore/Store.antt =====
-- `RawBlockStore.read` and `RawBlockStore.put` of deploy/raw_block_store.py. The two paths of a CID
-- carry its name, so different CIDs have different files, and a call touches those of its own CID
-- only: the store is the pair of them. Writing under a temporary name and `os.replace` is one step;
-- directories in the place of a file, and failures of the disk, are left out.
pub mod Laws
use yataverse_distribution.Prelude.{
  ℕ, ◌+◌, ◌==◌, Bool, true, false, not, ◌&&◌, ◌||◌, Option, none, some, List, [], ◌∷◌, String, ltb,
  leb, length, take, is_empty, Bytes, bytes_eq, Result, ok, err, require, ◌>>=◌, ◌>>◌,
  if◌then◌else◌,
}
use text.Mathlib.Text.{◌==◌ as text_eq}
use yataverse_distribution.Json.{
  Json, Dict, lookup, is_number, is_text, text_of, int_of, codes, is_sha256,
}
use yataverse_distribution.RawStore.{
  RawBlockStoreError, sha256_digest, verify_cid, file_missing, meta_unreadable, meta_differs,
  block_differs, size_exceeds_bound, existing_differs, incomplete_differs, attribute_error,
}

-- A path: nothing there, a regular file, or a symbolic link to a regular file.
pub data Node (A : Type 0) : Type 0 where
  absent : Node A
  file : A → Node A
  link : A → Node A

-- What `json.loads` gives of the metadata.
pub data Metadata : Type 0 where
  unreadable not_object : Metadata
  object : Dict → Metadata

-- The files of one CID.
pub record Slot : Type 0 where
  pub block : Node Bytes
  pub meta : Node Metadata

module _ {A : Type 0} where
  -- `path.exists()`
  abbrev pub exists : Node A → Bool
  exists absent = false
  exists _ = true

  -- The contents, if `path.is_file() and not path.is_symlink()`.
  abbrev pub regular : Node A → Option A
  regular absent = none
  regular (file a) = some a
  regular (link a) = none

  -- The contents behind a link too.
  abbrev pub contents : Node A → Option A
  contents absent = none
  contents (file a) = some a
  contents (link a) = some a

unfoldable pub max_block : ℕ
max_block = 256000000

-- The value that has a property, if it is there.
abbrev pub has : {A : Type 0} → (A → Bool) → Option A → Bool
has p none = false
has p (some a) = p a

unfoldable pub loaded_meta : Metadata → Result RawBlockStoreError Dict
loaded_meta unreadable = err meta_unreadable
loaded_meta not_object = err attribute_error
loaded_meta (object d) = ok d

unfoldable pub meta_fits : String → ℕ → Dict → Bool
meta_fits cid max_bytes d =
    is_number 1 (lookup "schema" d)
    && is_text cid (lookup "cid" d)
    && has (λ n. leb 1 n && leb n max_bytes) (int_of (lookup "bytes" d))
    && has is_sha256 (text_of (lookup "sha256" d))

-- `not block` and `len(block) > MAX_BLOCK`
abbrev pub bounded : Bytes → Bool
bounded block = not (is_empty block) && leb (length block) max_block

module _ (sha256 : Bytes → Bytes) (b32decode : List ℕ → Option Bytes)
    (hexdigest : Bytes → String) where
  unfoldable pub block_fits : Dict → Bytes → Bool
  block_fits d block =
      has (λ n. length block == n) (int_of (lookup "bytes" d))
      && is_text (hexdigest block) (lookup "sha256" d)

  -- The read of two regular files.
  unfoldable pub read_files :
      String → ℕ → Option Bytes → Option Metadata → Result RawBlockStoreError (Option Bytes)
  read_files cid max_bytes (some stored) (some meta) = do
    d ← loaded_meta meta
    require (meta_fits cid max_bytes d) meta_differs
    let block = take (max_bytes + 1) stored
    require (block_fits d block) block_differs
    verify_cid sha256 b32decode (codes cid) block
    ok (some block)
  read_files cid max_bytes _ _ = err file_missing

  unfoldable pub read : String → ℕ → Slot → Result RawBlockStoreError (Option Bytes)
  read cid max_bytes slot =
      let present = read_files cid max_bytes (regular slot.block) (regular slot.meta) in
      (do
        digest ← sha256_digest sha256 b32decode (codes cid)
        if not (exists slot.block) && not (exists slot.meta) then ok none else present)

  -- The dict that `put` writes.
  unfoldable pub new_meta : String → Bytes → Dict
  new_meta cid block =
      ("schema", Json.int 1)
      ∷ ("cid", Json.str cid)
      ∷ ("bytes", Json.int (length block))
      ∷ ("sha256", Json.str (hexdigest block))
      ∷ []

  -- `self.read(cid) != block`
  unfoldable pub same_as_read : Bytes → Option Bytes → Bool
  same_as_read block none = false
  same_as_read block (some old) = bytes_eq old block

  -- `put` when there is no metadata: the block first, unless it is there, and then the metadata.
  unfoldable pub put_new : String → Bytes → Node Bytes → Result RawBlockStoreError Slot
  put_new cid block absent =
      ok (record { block = file block; meta = file (object (new_meta cid block)) })
  put_new cid block (file old) =
      if bytes_eq old block
      then ok (record { block = file old; meta = file (object (new_meta cid block)) })
      else err incomplete_differs
  put_new cid block (link old) =
      if bytes_eq old block
      then ok (record { block = link old; meta = file (object (new_meta cid block)) })
      else err incomplete_differs

  unfoldable pub put : String → Bytes → Slot → Result RawBlockStoreError Slot
  put cid block slot =
      let again = (do
        old ← read cid max_block slot
        require (same_as_read block old) existing_differs
        ok slot) in
      (do
        require (bounded block) size_exceeds_bound
        verify_cid sha256 b32decode (codes cid) block
        if exists slot.meta then again else put_new cid block slot.block)
