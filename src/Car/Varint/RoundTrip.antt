-- ===== src/Car/Varint/RoundTrip.antt =====
-- What `read_uvarint` makes of any bytes, and of those that `uvarint` wrote.
use yataverse_distribution.Prelude.{
  ℕ, zero, suc, ◌+◌, ◌/◌, ◌%◌, ◌*◌, ◌^◌, ◌≤◌, ◌<◌, ◌≡◌, ap, inl, inr, Bool-cases, ltb, [], ◌∷◌,
  ◌++◌, arith, ok, length, Bytes, append_assoc,
}
use yataverse_distribution.Car.Stream.{Stream, ◌>>=◌, capture_byte}
use yataverse_distribution.Car.Stream.Exact.{
  IsExact, bind-IsExact, if-IsExact, pure-IsExact, raise-IsExact, capture_byte-IsExact,
}
use yataverse_distribution.Prelude.Bits.{bit_and-seven_ones, bit_or-shifted}
use yataverse_distribution.Car.Varint.Unroll.{uvarint_last, uvarint_more}
use native.Mathlib.Numerals.{towards_suc}
use native.Mathlib.Nat.{div-add-mod, pow-suc}
use yataverse_distribution.Car.Varint.{
  read_uvarint_loop, read_uvarint, read_after_first_loop, read_varint_after_first, uvarint,
}

read_uvarint_loop-IsExact :
    (limit rounds value shift n : ℕ) → IsExact (read_uvarint_loop limit rounds value shift n)
unfolding read_uvarint_loop
read_uvarint_loop-IsExact limit zero value shift n = raise-IsExact _
read_uvarint_loop-IsExact limit (suc rounds) value shift n =
    bind-IsExact _ _ (capture_byte-IsExact _) λ byte.
      if-IsExact _ _ _ (if-IsExact _ _ _ (raise-IsExact _) (pure-IsExact _))
        (read_uvarint_loop-IsExact limit rounds _ _ _)

pub read_uvarint-IsExact : (limit : ℕ) → IsExact (read_uvarint limit)
unfolding read_uvarint
read_uvarint-IsExact limit = read_uvarint_loop-IsExact limit 10 0 0 0

read_after_first_loop-IsExact :
    (rounds value shift n : ℕ) → IsExact (read_after_first_loop rounds value shift n)
unfolding read_after_first_loop
read_after_first_loop-IsExact zero value shift n = raise-IsExact _
read_after_first_loop-IsExact (suc rounds) value shift n =
    bind-IsExact _ _ (capture_byte-IsExact _)
      λ byte. if-IsExact _ _ _ (pure-IsExact _) (read_after_first_loop-IsExact rounds _ _ _)

pub read_varint_after_first-IsExact : (first : ℕ) → IsExact (read_varint_after_first first)
unfolding read_varint_after_first
read_varint_after_first-IsExact first =
    if-IsExact _ _ _ (pure-IsExact _) (read_after_first_loop-IsExact 9 _ 7 1)

pow_seven_more : (s : ℕ) → 2 ^ (s + 7) ≡ 128 * 2 ^ s
pow_seven_more s = simp towards_suc (omega arith)

-- The group at bit `s` and what stands above it add up to the value at bit `s`.
value_at : (v s : ℕ) → v % 128 * 2 ^ s + v / 128 * 2 ^ (s + 7) ≡ v * 2 ^ s
value_at v s = omega (
  arith,
  ap (λ (t : ℕ). t * 2 ^ s) (div-add-mod v 128),
  ap (λ (t : ℕ). v / 128 * t) (pow_seven_more s),
)

group_below : (v s acc : ℕ) → acc < 2 ^ s → acc + v % 128 * 2 ^ s < 2 ^ (s + 7)
group_below v s acc h =
    let small : v % 128 ≤ 127 = omega arith in grind (arith, pow_seven_more s, small)

module _ (limit acc shift n : ℕ) (dest : Bytes) (written : ℕ) (rest : Bytes)
    (below : acc < 2 ^ shift) where
  last_round :
      (rounds v : ℕ)
      → v < 128
      → acc + v * 2 ^ shift ≤ limit
      → read_uvarint_loop limit
          (suc rounds)
          acc
          shift
          n
          (record { source = v ∷ rest; dest = dest; written = written })
        ≡ ok (
          (acc + v * 2 ^ shift, n + 1),
          record { source = rest; dest = dest ++ (v ∷ []); written = written + 1 },
        )
  unfolding read_uvarint_loop ◌>>=◌ capture_byte
  last_round rounds v small fits =
      ground (arith, bit_and-seven_ones v, bit_or-shifted shift acc (v % 128) below)

  inner_round :
      (rounds v : ℕ)
      → read_uvarint_loop limit
          (suc rounds)
          acc
          shift
          n
          (record { source = (v % 128 + 128) ∷ rest; dest = dest; written = written })
        ≡ read_uvarint_loop limit rounds
            (acc + v % 128 * 2 ^ shift)
            (shift + 7)
            (n + 1)
            (record { source = rest; dest = dest ++ ((v % 128 + 128) ∷ []); written = written + 1 })
  unfolding read_uvarint_loop ◌>>=◌ capture_byte
  inner_round rounds v =
      ground (arith, bit_and-seven_ones (v % 128 + 128), bit_or-shifted shift acc (v % 128) below)

some_left : (rounds v : ℕ) → v < 128 ^ suc rounds → 128 ≤ v → 0 < rounds
some_left zero v wide large = absurd (omega arith)
some_left (suc rounds) v wide large = omega arith

-- The loop reads what `uvarint` wrote, from any bit on.
read_uvarint_loop-uvarint :
    (limit rounds v acc shift n : ℕ) (dest : Bytes) (written : ℕ) (rest : Bytes)
    → v < 128 ^ rounds
    → 0 < rounds
    → acc < 2 ^ shift
    → acc + v * 2 ^ shift ≤ limit
    → read_uvarint_loop limit rounds acc shift n
        (record { source = uvarint v ++ rest; dest = dest; written = written })
      ≡ ok (
        (acc + v * 2 ^ shift, n + length (uvarint v)),
        record { source = rest; dest = dest ++ uvarint v; written = written + length (uvarint v) },
      )
read_uvarint_loop-uvarint limit zero v acc shift n dest written rest wide some_round below fits =
    absurd (omega arith)
read_uvarint_loop-uvarint limit (suc rounds) v acc shift n dest written rest wide some_round below
      fits =
    elim (Bool-cases (ltb v 128)) [
      | inl small ↦
          rw (uvarint_last v (ground arith))
            (last_round limit acc shift n dest written rest below rounds v (ground arith) fits)
      | inr large ↦
          let more = uvarint_more v (ground arith) in
          let b = v % 128 + 128 in
          let later =
            read_uvarint_loop-uvarint limit rounds (v / 128) (acc + v % 128 * 2 ^ shift) (shift + 7)
              (n + 1) (dest ++ (b ∷ [])) (written + 1) rest (omega (arith, pow-suc 128 rounds))
              (some_left rounds v wide (ground arith)) (group_below v shift acc below)
              (omega (arith, value_at v shift)) in
          ground (
            arith,
            more,
            inner_round limit acc shift n dest written (uvarint (v / 128) ++ rest) below rounds v,
            later,
            value_at v shift,
            append_assoc dest (b ∷ []) (uvarint (v / 128)),
          )
    ]

-- `read_uvarint` returns the number that `uvarint` wrote and the count of its bytes. It has copied
-- those bytes, and none behind them.
pub read_uvarint-uvarint :
    (limit v : ℕ) (s : Stream) (rest : Bytes)
    → v ≤ limit
    → v < 2 ^ 64
    → s.source ≡ uvarint v ++ rest
    → read_uvarint limit s
      ≡ ok (
        (v, length (uvarint v)),
        record {
          source = rest;
          dest = s.dest ++ uvarint v;
          written = s.written + length (uvarint v);
        },
      )
unfolding read_uvarint
read_uvarint-uvarint limit v s rest fits wide there =
    let run =
      read_uvarint_loop-uvarint limit 10 v 0 0 0 s.dest s.written rest (omega arith) (omega arith)
        (omega arith) (omega arith) in
    ground (arith, run)
