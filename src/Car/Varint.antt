-- ===== src/Car/Varint.antt =====
-- The variable-length integers of deploy/carv2_zstd.py: `uvarint`, and `read_uvarint` and
-- `_read_varint_after_first` on the copied stream.
pub mod Unroll
pub mod RoundTrip
pub mod Ends
pub mod Announced
use yataverse_distribution.Prelude.{
  ℕ, zero, suc, ◌+◌, ◌-◌, ◌*◌, ◌/◌, ◌^◌, bit_and, bit_or, [], ◌∷◌, ◌++◌, ltb, leb, Bytes,
  if◌then◌else◌,
}
use yataverse_distribution.Car.Stream.{
  Copier, pure, raise, capture_byte, ◌>>=◌, truncated_varint, varint_over_limit, invalid_varint,
  truncated_cid_varint, invalid_cid_varint,
}

-- The loop of `uvarint`, a round for each unit of fuel. Each round makes the value smaller, so with
-- `value` units the fuel ends at 0 only, where the loop has ended too.
unfoldable pub uvarint_loop : ℕ → ℕ → Bytes → Bytes
uvarint_loop zero value out = out ++ (value ∷ [])
uvarint_loop (suc fuel) value out =
    let rest = uvarint_loop fuel (value / 2 ^ 7) (out ++ (bit_or (bit_and value 0x7f) 0x80 ∷ [])) in
    if leb 0x80 value then rest else out ++ (value ∷ [])

-- A negative argument, which raises in the source, has no counterpart in ℕ.
unfoldable pub uvarint : ℕ → Bytes
unfolding uvarint_loop
uvarint value = uvarint_loop value value []

-- The loop of `read_uvarint`; `rounds` is `10 - length`.
unfoldable pub read_uvarint_loop : ℕ → ℕ → ℕ → ℕ → ℕ → Copier (ℕ × ℕ)
read_uvarint_loop limit zero value shift length = raise invalid_varint
read_uvarint_loop limit (suc rounds) value shift length = do
  byte ← capture_byte truncated_varint
  let value' = bit_or value (bit_and byte 0x7f * 2 ^ shift)
  let rest = read_uvarint_loop limit rounds value' (shift + 7) (length + 1)
  if ltb byte 0x80
      then (if ltb limit value' then raise varint_over_limit else pure (value', length + 1))
      else rest

unfoldable pub read_uvarint : ℕ → Copier (ℕ × ℕ)
unfolding read_uvarint_loop
read_uvarint limit = read_uvarint_loop limit 10 0 0 0

-- The default `limit` of `read_uvarint`.
abbrev pub default_limit : ℕ
default_limit = 2 ^ 64 - 1

read_after_first_loop : ℕ → ℕ → ℕ → ℕ → Copier (ℕ × ℕ)
read_after_first_loop zero value shift length = raise invalid_cid_varint
read_after_first_loop (suc rounds) value shift length = do
  byte ← capture_byte truncated_cid_varint
  let value' = bit_or value (bit_and byte 0x7f * 2 ^ shift)
  let rest = read_after_first_loop rounds value' (shift + 7) (length + 1)
  if ltb byte 0x80 then pure (value', length + 1) else rest

-- `_read_varint_after_first`
unfoldable pub read_varint_after_first : ℕ → Copier (ℕ × ℕ)
unfolding read_after_first_loop
read_varint_after_first first =
    let value = bit_and first 0x7f in
    if ltb first 0x80 then pure (value, 1) else read_after_first_loop 9 value 7 1
