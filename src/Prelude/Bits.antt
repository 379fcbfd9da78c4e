-- ===== src/Prelude/Bits.antt =====
-- Masks of seven bits and disjunctions with a shifted group, on unbounded numbers. Each comes from
-- the digit recursion that the native bit operations stand for.
use Prim.Native.Nat.{
  ℕ, zero, suc, ◌+◌, ◌*◌, ◌/◌, ◌%◌, ◌^◌, ◌≤◌, ◌<◌, min, max, bit_and, bit_or, digits, bitwise,
  bit_and-bitwise, bit_or-bitwise,
}
use mathlib.Core.Path.{◌≡◌, refl, ap}
use native.Mathlib.Omega.{arith}
use native.Mathlib.Nat.{pow-suc, le_refl}

module _ (base : ℕ → ℕ) (digit : ℕ → ℕ → ℕ) where
  -- Any two fuels that reach the number give one result.
  enough_digits : (a n m b : ℕ) → a ≤ n → a ≤ m → digits base digit n a b ≡ digits base digit m a b
  enough_digits a zero zero b p q = refl
  enough_digits zero (suc n) zero b p q = refl
  enough_digits zero zero (suc m) b p q = refl
  enough_digits zero (suc n) (suc m) b p q = refl
  enough_digits (suc a) (suc n) zero b p q = absurd (omega arith)
  enough_digits (suc a) zero (suc m) b p q = absurd (omega arith)
  enough_digits (suc a) (suc n) (suc m) b p q =
      rw (enough_digits (suc a / 2) n m (b / 2) (omega arith) (omega arith))

  lowest_digit :
      (a b : ℕ)
      → bitwise base digit (suc a) b
        ≡ bitwise base digit (suc a / 2) (b / 2) * 2 + digit (suc a % 2) (b % 2)
  lowest_digit a b =
      omega (arith, enough_digits (suc a / 2) a (suc a / 2) (b / 2) (omega arith) (le_refl _))

and_halves : (a b : ℕ) → bit_and a b ≡ bit_and (a / 2) (b / 2) * 2 + min (a % 2) (b % 2)
and_halves zero b = simp bit_and-bitwise (omega arith)
and_halves (suc a) b = simp bit_and-bitwise (lowest_digit (λ y. 0) min a b)

or_halves : (a b : ℕ) → bit_or a b ≡ bit_or (a / 2) (b / 2) * 2 + max (a % 2) (b % 2)
or_halves zero b = simp bit_or-bitwise (omega arith)
or_halves (suc a) b = simp bit_or-bitwise (lowest_digit (λ y. y) max a b)

zero-bit_or : (b : ℕ) → bit_or 0 b ≡ b
zero-bit_or b = bit_or-bitwise 0 b

bit_and-zero_below : (bound a : ℕ) → a ≤ bound → bit_and a 0 ≡ 0
bit_and-zero_below bound zero h = refl
bit_and-zero_below zero (suc a) h = absurd (omega arith)
bit_and-zero_below (suc bound) (suc a) h =
    omega (arith, and_halves (suc a) 0, bit_and-zero_below bound (suc a / 2) (omega arith))

bit_and-one_one : (a : ℕ) → bit_and a 1 ≡ a % 2
bit_and-one_one a = omega (arith, and_halves a 1, bit_and-zero_below _ (a / 2) (le_refl _))

bit_and-two_ones : (a : ℕ) → bit_and a 3 ≡ a % 4
bit_and-two_ones a = omega (arith, and_halves a 3, bit_and-one_one (a / 2))

bit_and-three_ones : (a : ℕ) → bit_and a 7 ≡ a % 8
bit_and-three_ones a = omega (arith, and_halves a 7, bit_and-two_ones (a / 2))

bit_and-four_ones : (a : ℕ) → bit_and a 15 ≡ a % 16
bit_and-four_ones a = omega (arith, and_halves a 15, bit_and-three_ones (a / 2))

bit_and-five_ones : (a : ℕ) → bit_and a 31 ≡ a % 32
bit_and-five_ones a = omega (arith, and_halves a 31, bit_and-four_ones (a / 2))

bit_and-six_ones : (a : ℕ) → bit_and a 63 ≡ a % 64
bit_and-six_ones a = omega (arith, and_halves a 63, bit_and-five_ones (a / 2))

-- `a & 0x7f`
pub bit_and-seven_ones : (a : ℕ) → bit_and a 0x7f ≡ a % 128
bit_and-seven_ones a = omega (arith, and_halves a 127, bit_and-six_ones (a / 2))

-- `a | (g << s)` adds where `a` lies below bit `s`.
pub bit_or-shifted : (s a g : ℕ) → a < 2 ^ s → bit_or a (g * 2 ^ s) ≡ a + g * 2 ^ s
bit_or-shifted zero zero g h = omega (arith, zero-bit_or (g * 2 ^ 0))
bit_or-shifted zero (suc a) g h = absurd (omega arith)
bit_or-shifted (suc s) a g h = omega (
  arith,
  or_halves a (g * 2 ^ suc s),
  pow-suc 2 s,
  ap (λ (t : ℕ). g * t) (pow-suc 2 s),
  ap (λ (t : ℕ). bit_or (a / 2) t)
      (let e : g * 2 ^ suc s / 2 ≡ g * 2 ^ s = omega (arith, ap (λ (t : ℕ). g * t) (pow-suc 2 s)) in
        e),
  bit_or-shifted s (a / 2) g (omega (arith, pow-suc 2 s)),
)

-- `a | 0x80`
pub bit_or-top_bit : (a : ℕ) → a < 128 → bit_or a 0x80 ≡ a + 128
bit_or-top_bit a h = bit_or-shifted 7 a 1 h
