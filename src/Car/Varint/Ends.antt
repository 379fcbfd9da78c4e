-- ===== src/Car/Varint/Ends.antt =====
-- The readers of variable-length integers end: they have no fuel, and ten rounds.
use yataverse_distribution.Prelude.{ℕ, zero, suc}
use yataverse_distribution.Car.Stream.Ends.{
  Ends, bind-Ends, if-Ends, pure-Ends, raise-Ends, capture_byte-Ends,
}
use yataverse_distribution.Car.Varint.{
  read_uvarint_loop, read_uvarint, read_after_first_loop, read_varint_after_first,
}

read_uvarint_loop-Ends :
    (limit rounds value shift n : ℕ) → Ends (read_uvarint_loop limit rounds value shift n)
unfolding read_uvarint_loop
read_uvarint_loop-Ends limit zero value shift n = raise-Ends _ (λ e. cc)
read_uvarint_loop-Ends limit (suc rounds) value shift n =
    bind-Ends _ _ (capture_byte-Ends _ (λ e. cc)) λ byte.
      if-Ends _ _ _ (if-Ends _ _ _ (raise-Ends _ (λ e. cc)) (pure-Ends _))
        (read_uvarint_loop-Ends limit rounds _ _ _)

pub read_uvarint-Ends : (limit : ℕ) → Ends (read_uvarint limit)
unfolding read_uvarint
read_uvarint-Ends limit = read_uvarint_loop-Ends limit 10 0 0 0

read_after_first_loop-Ends :
    (rounds value shift n : ℕ) → Ends (read_after_first_loop rounds value shift n)
unfolding read_after_first_loop
read_after_first_loop-Ends zero value shift n = raise-Ends _ (λ e. cc)
read_after_first_loop-Ends (suc rounds) value shift n =
    bind-Ends _ _ (capture_byte-Ends _ (λ e. cc))
      λ byte. if-Ends _ _ _ (pure-Ends _) (read_after_first_loop-Ends rounds _ _ _)

pub read_varint_after_first-Ends : (first : ℕ) → Ends (read_varint_after_first first)
unfolding read_varint_after_first
read_varint_after_first-Ends first =
    if-Ends _ _ _ (pure-Ends _) (read_after_first_loop-Ends 9 _ 7 1)
