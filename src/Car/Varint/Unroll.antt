-- ===== src/Car/Varint/Unroll.antt =====
-- `uvarint` by its recursion equation: the accumulator and the fuel of the loop are gone.
use yataverse_distribution.Prelude.{
  ℕ, zero, suc, ◌+◌, ◌/◌, ◌%◌, ◌^◌, ◌≤◌, ◌<◌, ◌≡◌, bit_and, bit_or, [], ◌∷◌, ◌++◌, arith, Bytes,
  append_assoc,
}
use yataverse_distribution.Prelude.Bits.{bit_and-seven_ones, bit_or-top_bit}
use yataverse_distribution.Car.Varint.{uvarint_loop, uvarint}

-- A byte that is not the last.
inner_byte : (v : ℕ) → bit_or (bit_and v 0x7f) 0x80 ≡ v % 128 + 128
inner_byte v = rw (bit_and-seven_ones v) (bit_or-top_bit (v % 128) (omega arith))

uvarint_loop-append :
    (fuel v : ℕ) (out : Bytes) → uvarint_loop fuel v out ≡ out ++ uvarint_loop fuel v []
unfolding uvarint_loop
uvarint_loop-append zero v out = ground arith
uvarint_loop-append (suc fuel) v out =
    let b = bit_or (bit_and v 0x7f) 0x80 in
    ground (
      arith,
      uvarint_loop-append fuel (v / 2 ^ 7) (out ++ (b ∷ [])),
      uvarint_loop-append fuel (v / 2 ^ 7) (b ∷ []),
      append_assoc out (b ∷ []) (uvarint_loop fuel (v / 2 ^ 7) []),
    )

uvarint_loop_fuel :
    (f g v : ℕ) (out : Bytes) → v ≤ f → v ≤ g → uvarint_loop f v out ≡ uvarint_loop g v out
unfolding uvarint_loop
uvarint_loop_fuel zero zero v out p q = ground arith
uvarint_loop_fuel zero (suc g) v out p q = ground arith
uvarint_loop_fuel (suc f) zero v out p q = ground arith
uvarint_loop_fuel (suc f) (suc g) v out p q =
    ground (arith, uvarint_loop_fuel f g (v / 2 ^ 7) (out ++ (bit_or (bit_and v 0x7f) 0x80 ∷ [])))

pub uvarint_last : (v : ℕ) → v < 128 → uvarint v ≡ v ∷ []
unfolding uvarint
uvarint_last zero h = ground arith
uvarint_last (suc v) h = ground arith

pub uvarint_more : (v : ℕ) → 128 ≤ v → uvarint v ≡ (v % 128 + 128) ∷ uvarint (v / 128)
unfolding uvarint
uvarint_more zero h = absurd (omega arith)
uvarint_more (suc v) h = ground (
  arith,
  inner_byte (suc v),
  uvarint_loop-append v (suc v / 128) ((suc v % 128 + 128) ∷ []),
  uvarint_loop_fuel v (suc v / 128) (suc v / 128) [],
)
