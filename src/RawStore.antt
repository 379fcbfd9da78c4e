-- ===== src/RawStore.antt =====
-- The CID check of deploy/raw_block_store.py, over an unknown SHA-256 and base32 decoder. A CID is
-- the list of its character codes. `attribute_error` is Python's own exception.
pub mod Store
use yataverse_distribution.Prelude.{
  ℕ, zero, suc, ◌+◌, ◌-◌, ◌*◌, ◌/◌, ◌%◌, ◌^◌, ◌==◌, bit_and, bit_or, Bool, false, not, ◌&&◌, ◌||◌,
  Option, none, some, List, [], ◌∷◌, ◌++◌, length, drop, get_elem?, replicate, Bytes, bytes_eq,
  Result, ok, err, require, ◌>>=◌, ◌>>◌, if◌then◌else◌,
}
use yataverse_distribution.Json.{all_codes, between}

pub data RawBlockStoreError : Type 0 where
  truncated_cid_varint oversized_cid_varint invalid_base32 : RawBlockStoreError
  unsupported_cid_version invalid_cid_syntax not_sha256 cid_differs : RawBlockStoreError
  file_missing meta_unreadable meta_differs block_differs : RawBlockStoreError
  size_exceeds_bound existing_differs incomplete_differs attribute_error : RawBlockStoreError

-- The rounds of `_varint`, of which there are ten.
varint_loop : ℕ → Bytes → ℕ → ℕ → ℕ → Result RawBlockStoreError (ℕ × ℕ)
varint_loop zero input offset shift value = err oversized_cid_varint
varint_loop (suc rounds) input offset shift value = elim (get_elem? input offset) [
  | none ↦ err truncated_cid_varint
  | some byte ↦
      let value' = bit_or value (bit_and byte 0x7f * 2 ^ shift) in
      let rest = varint_loop rounds input (offset + 1) (shift + 7) value' in
      if bit_and byte 0x80 == 0 then ok (value', offset + 1) else rest
]

unfoldable pub varint : Bytes → ℕ → Result RawBlockStoreError (ℕ × ℕ)
unfolding varint_loop
varint input offset = varint_loop 10 input offset 0 0

-- `[1-9A-HJ-NP-Za-km-z]`
abbrev is_base58 : ℕ → Bool
is_base58 c =
    between b'1' b'9' c
    || (between b'A' b'Z' c && not (c == b'I') && not (c == b'O'))
    || (between b'a' b'z' c && not (c == b'l'))

-- `Qm[1-9A-HJ-NP-Za-km-z]{44}`
unfoldable pub is_cid_v0 : List ℕ → Bool
unfolding all_codes
is_cid_v0 (q ∷ m ∷ cs) = q == b'Q' && m == b'm' && length cs == 44 && all_codes is_base58 cs
is_cid_v0 _ = false

-- `b[a-z2-7]{20,200}`
unfoldable pub is_cid_v1 : List ℕ → Bool
unfolding all_codes
is_cid_v1 (b ∷ cs) =
    b == b'b'
    && between 20 200 (length cs)
    && all_codes (λ c. between b'a' b'z' c || between b'2' b'7' c) cs
is_cid_v1 [] = false

-- `BASE58.index(char)`, of a character that is in `BASE58`.
unfoldable pub base58_index : ℕ → ℕ
base58_index c =
    if between b'1' b'9' c
    then c - b'1'
    else if between b'A' b'H' c
    then 9 + (c - b'A')
    else if between b'J' b'N' c
    then 17 + (c - b'J')
    else if between b'P' b'Z' c
    then 22 + (c - b'P')
    else if between b'a' b'k' c
    then 33 + (c - b'a')
    else 44 + (c - b'm')

unfoldable pub base58_value : List ℕ → ℕ → ℕ
unfolding base58_index
base58_value [] value = value
base58_value (c ∷ cs) value = base58_value cs (value * 58 + base58_index c)

-- `value.to_bytes((value.bit_length() + 7) // 8, "big")` behind `out`. The fuel is a bound of the
-- count of bytes.
big_endian : ℕ → ℕ → Bytes → Bytes
big_endian zero value out = out
big_endian (suc fuel) value out =
    let rest = big_endian fuel (value / 256) (value % 256 ∷ out) in if value == 0 then out else rest

-- How many `1` the CID begins with. A CID of version 0 begins with `Q`.
leading_ones : List ℕ → ℕ
leading_ones [] = 0
leading_ones (c ∷ cs) = if c == b'1' then suc (leading_ones cs) else 0

-- `cid[1:].upper()` and its padding, of lower case letters and digits.
abbrev upper : ℕ → ℕ
upper c = if between b'a' b'z' c then c - 32 else c

uppers : List ℕ → List ℕ
uppers [] = []
uppers (c ∷ cs) = upper c ∷ uppers cs

unfoldable pub padded : List ℕ → List ℕ
unfolding uppers
padded cs = uppers cs ++ replicate ((8 - length cs % 8) % 8) b'='

module _ (sha256 : Bytes → Bytes) (b32decode : List ℕ → Option Bytes) where
  -- The bytes of the multihash: `encoded` behind the two branches. 46 base-58 digits take at most
  -- 46 bytes.
  unfoldable pub multihash : List ℕ → Result RawBlockStoreError Bytes
  unfolding is_cid_v0 is_cid_v1 base58_value big_endian leading_ones padded varint
  multihash cid =
      if is_cid_v0 cid
      then ok (replicate (leading_ones cid) 0 ++ big_endian 46 (base58_value cid 0) [])
      else if is_cid_v1 cid
      then (elim (b32decode (padded (drop 1 cid))) [
        | none ↦ err invalid_base32
        | some encoded ↦ (do
          (version, offset) ← varint encoded 0
          require (version == 1) unsupported_cid_version
          (codec, offset') ← varint encoded offset
          ok (drop offset' encoded))
      ])
      else err invalid_cid_syntax

  unfoldable pub sha256_digest : List ℕ → Result RawBlockStoreError Bytes
  unfolding multihash varint
  sha256_digest cid = do
    encoded ← multihash cid
    (code, offset) ← varint encoded 0
    (size, offset') ← varint encoded offset
    require (code == 0x12 && size == 32 && length encoded - offset' == 32) not_sha256
    ok (drop offset' encoded)

  unfoldable pub verify_cid : List ℕ → Bytes → Result RawBlockStoreError (Unit {0})
  unfolding sha256_digest
  verify_cid cid block = do
    digest ← sha256_digest cid
    require (bytes_eq (sha256 block) digest) cid_differs
