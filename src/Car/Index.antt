-- ===== src/Car/Index.antt =====
-- `encode_index` and `carv2_header` of deploy/carv2_zstd.py. A `defaultdict` is the list of its
-- entries in insertion order, and `sorted` is insertion sort, as the keys compared are total.
use yataverse_distribution.Prelude.{
  ℕ, zero, suc, ◌+◌, ◌*◌, ◌/◌, ◌%◌, ◌^◌, ◌==◌, Bool, true, false, ◌&&◌, ◌||◌, List, [], ◌∷◌, ◌++◌,
  ltb, leb, length, Option, none, some, replicate, bytes_eq, Bytes, Result, ok, err, ◌>>=◌,
  if◌then◌else◌,
}
use yataverse_distribution.Car.Stream.{ArchiveError, struct_error}
use yataverse_distribution.Car.Varint.{uvarint}
use yataverse_distribution.Car.Copy.{Row}

abbrev pub multihash_index_sorted : ℕ
multihash_index_sorted = 0x0401

abbrev pub carv2_data_offset : ℕ
carv2_data_offset = 51

-- The low `width` bytes of a number, lowest first.
unfoldable pub le_bytes : ℕ → ℕ → Bytes
le_bytes zero n = []
le_bytes (suc width) n = n % 256 ∷ le_bytes width (n / 256)

-- `struct.pack` of one little-endian field (`I` has 4 bytes, `Q` has 8), which refuses a number
-- that does not fit.
unfoldable pub pack_le : ℕ → ℕ → Result ArchiveError Bytes
pack_le width n = if ltb n (256 ^ width) then ok (le_bytes width n) else err struct_error

-- `d[key] = change(d[key])` for a key that may be absent.
unfoldable pub update_at : {V : Type 0} → ℕ → (Option V → V) → List (ℕ × V) → List (ℕ × V)
update_at key change [] = (key, change none) ∷ []
update_at key change ((k, v) ∷ entries) =
    if k == key then (k, change (some v)) ∷ entries else (k, v) ∷ update_at key change entries

abbrev pub Pair : Type 0
Pair = Bytes × ℕ

-- `widths[key].append(pair)`
abbrev pub append_pair : Pair → Option (List Pair) → List Pair
append_pair pair none = pair ∷ []
append_pair pair (some pairs) = pairs ++ (pair ∷ [])

abbrev pub put_width : ℕ → Pair → Option (List (ℕ × List Pair)) → List (ℕ × List Pair)
put_width width pair none = update_at width (append_pair pair) []
put_width width pair (some widths) = update_at width (append_pair pair) widths

-- `by_code[code][len(digest) + 8].append((digest, offset))` for each row.
unfoldable pub by_code :
    List Row → List (ℕ × List (ℕ × List Pair)) → List (ℕ × List (ℕ × List Pair))
unfolding update_at
by_code [] codes = codes
by_code (row ∷ rows) codes =
    by_code rows
      (update_at row.code (put_width (length row.digest + 8) (row.digest, row.offset)) codes)

module _ {A : Type 0} (le : A → A → Bool) where
  unfoldable pub insert : A → List A → List A
  insert a [] = a ∷ []
  insert a (b ∷ bs) = if le a b then a ∷ b ∷ bs else b ∷ insert a bs

  unfoldable pub sorted : List A → List A
  unfolding insert
  sorted [] = []
  sorted (a ∷ rest) = insert a (sorted rest)

-- `a <= b` on bytes, and on pairs of bytes and an offset.
unfoldable pub bytes_le : Bytes → Bytes → Bool
bytes_le [] ys = true
bytes_le (x ∷ xs) [] = false
bytes_le (x ∷ xs) (y ∷ ys) = ltb x y || (x == y && bytes_le xs ys)

unfoldable pub pair_le : Pair → Pair → Bool
unfolding bytes_le bytes_eq
pair_le (digest, offset) (digest', offset') =
    if bytes_eq digest digest' then leb offset offset' else bytes_le digest digest'

abbrev pub key_le : {V : Type 0} → ℕ × V → ℕ × V → Bool
key_le (k, v) (k', v') = leb k k'

-- The results of a step over a list, one after the other.
unfoldable pub concat_results :
    {A : Type 0} → (A → Result ArchiveError Bytes) → List A → Result ArchiveError Bytes
concat_results f [] = ok []
concat_results f (a ∷ others) = do first ← f a; rest ← concat_results f others; ok (first ++ rest)

unfoldable pub encode_pair : Pair → Result ArchiveError Bytes
encode_pair (digest, offset) = do packed ← pack_le 8 offset; ok (digest ++ packed)

unfoldable pub encode_width : ℕ × List Pair → Result ArchiveError Bytes
encode_width (width, pairs) = do
  w ← pack_le 4 width
  size ← pack_le 8 (width * length pairs)
  records ← concat_results encode_pair (sorted pair_le pairs)
  ok (w ++ (size ++ records))

unfoldable pub encode_code : ℕ × List (ℕ × List Pair) → Result ArchiveError Bytes
encode_code (code, widths) = do
  c ← pack_le 8 code
  n ← pack_le 4 (length widths)
  body ← concat_results encode_width (sorted key_le widths)
  ok (c ++ (n ++ body))

unfoldable pub encode_index : List Row → Result ArchiveError Bytes
encode_index rows = do
  let codes = by_code rows []
  n ← pack_le 4 (length codes)
  body ← concat_results encode_code (sorted key_le codes)
  ok (uvarint multihash_index_sorted ++ (n ++ body))

unfoldable pub carv2_header : ℕ → ℕ → Result ArchiveError Bytes
unfolding pack_le
carv2_header data_size index_offset = do
  offset ← pack_le 8 carv2_data_offset
  size ← pack_le 8 data_size
  index ← pack_le 8 index_offset
  ok (replicate 16 0 ++ (offset ++ (size ++ index)))
