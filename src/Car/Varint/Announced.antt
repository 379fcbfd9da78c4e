-- ===== src/Car/Varint/Announced.antt =====
-- Where `read_uvarint` of deploy/carv2_zstd.py reads a number: the bytes it took say the same
-- number in front of any others.
use yataverse_distribution.Prelude.{
  ℕ, zero, suc, ◌+◌, ◌*◌, ◌^◌, ◌≡◌, sym, ap, ◌∙◌, Bool-cases, inl, inr, true, false, ltb, [], ◌∷◌,
  ◌++◌, arith, ok, length, Bytes, append_assoc, length-append, ◌<◌, bit_and, bit_or, if◌then◌else◌,
}
use yataverse_distribution.Car.Stream.{Stream, ◌>>=◌, capture_byte, raise, pure, varint_over_limit}
use yataverse_distribution.Car.Varint.{read_uvarint_loop, read_uvarint}

module _ (limit : ℕ) where
  -- One round on the byte `b`.
  round_last :
      (rounds value shift n b : ℕ) (rest dest : Bytes) (written : ℕ)
      → ltb b 0x80 ≡ true
      → read_uvarint_loop limit
          (suc rounds)
          value
          shift
          n
          (record { source = b ∷ rest; dest = dest; written = written })
        ≡ (if ltb limit (bit_or value (bit_and b 0x7f * 2 ^ shift))
              then raise {A = ℕ × ℕ} varint_over_limit
              else pure (bit_or value (bit_and b 0x7f * 2 ^ shift), n + 1))
            (record { source = rest; dest = dest ++ (b ∷ []); written = written + 1 })
  unfolding read_uvarint_loop ◌>>=◌ capture_byte
  round_last rounds value shift n b rest dest written small = ground arith

  round_more :
      (rounds value shift n b : ℕ) (rest dest : Bytes) (written : ℕ)
      → ltb b 0x80 ≡ false
      → read_uvarint_loop limit
          (suc rounds)
          value
          shift
          n
          (record { source = b ∷ rest; dest = dest; written = written })
        ≡ read_uvarint_loop limit rounds
            (bit_or value (bit_and b 0x7f * 2 ^ shift))
            (shift + 7)
            (n + 1)
            (record { source = rest; dest = dest ++ (b ∷ []); written = written + 1 })
  unfolding read_uvarint_loop ◌>>=◌ capture_byte
  round_more rounds value shift n b rest dest written large = ground arith

  -- The bytes that a run of the loop took, and what they say in front of any others.
  record Taken (rounds value shift n : ℕ) (dest : Bytes) (s' : Stream) (size used : ℕ)
      : Type 0 where
    prefix : Bytes
    grown : s'.dest ≡ dest ++ prefix
    count : used ≡ n + length prefix
    nonempty : 0 < length prefix
    again :
        (rest dest : Bytes) (written : ℕ)
        → read_uvarint_loop limit rounds value shift n
            (record { source = prefix ++ rest; dest = dest; written = written })
          ≡ ok (
            (size, used),
            record { source = rest; dest = dest ++ prefix; written = written + length prefix },
          )

  Taken-more :
      (rounds value shift n b : ℕ) (rest dest : Bytes) (s' : Stream) (size used : ℕ)
      → ltb b 0x80 ≡ false
      → Taken rounds
          (bit_or value (bit_and b 0x7f * 2 ^ shift))
          (shift + 7)
          (n + 1)
          (dest ++ (b ∷ []))
          s'
          size
          used
      → Taken (suc rounds) value shift n dest s' size used
  Taken-more rounds value shift n b rest dest s' size used large t = record {
    prefix = b ∷ t.prefix;
    grown = t.grown ∙ append_assoc dest (b ∷ []) t.prefix;
    count = grind (arith, t.count);
    nonempty = ground arith;
    again = λ rest dest written.
        round_more rounds value shift n b (t.prefix ++ rest) dest written large
        ∙ t.again rest (dest ++ (b ∷ [])) (written + 1)
        ∙ grind (arith, append_assoc dest (b ∷ []) t.prefix);
  }

  Taken-last :
      (rounds value shift n b : ℕ) (rest dest : Bytes) (written : ℕ) (s' : Stream) (size used : ℕ)
      → ltb b 0x80 ≡ true
      → (if ltb limit (bit_or value (bit_and b 0x7f * 2 ^ shift))
            then raise {A = ℕ × ℕ} varint_over_limit
            else pure (bit_or value (bit_and b 0x7f * 2 ^ shift), n + 1))
          (record { source = rest; dest = dest ++ (b ∷ []); written = written + 1 })
        ≡ ok ((size, used), s')
      → Taken (suc rounds) value shift n dest s' size used
  unfolding pure raise
  Taken-last rounds value shift n b rest dest written s' size used small h =
      elim (Bool-cases (ltb limit (bit_or value (bit_and b 0x7f * 2 ^ shift)))) [
        | inl over ↦ let h' = rw over at h in cc
        | inr within ↦
            let h' = rw within at h in
            record {
              prefix = b ∷ [];
              grown = cc h';
              count = cc h';
              nonempty = ground arith;
              again = λ rest dest written.
                  round_last rounds value shift n b rest dest written small ∙ rw within (cc h');
            }
      ]

  loop-Taken :
      (rounds value shift n : ℕ) (source dest : Bytes) (written : ℕ) (s' : Stream) (size used : ℕ)
      → read_uvarint_loop limit rounds value shift n
          (record { source = source; dest = dest; written = written })
        ≡ ok ((size, used), s')
      → Taken rounds value shift n dest s' size used
  unfolding read_uvarint_loop ◌>>=◌ capture_byte raise
  loop-Taken zero value shift n source dest written s' size used h = cc
  loop-Taken (suc rounds) value shift n [] dest written s' size used h = cc
  loop-Taken (suc rounds) value shift n (b ∷ rest) dest written s' size used h =
      elim (Bool-cases (ltb b 0x80)) [
        | inl small ↦
            Taken-last rounds value shift n b rest dest written s' size used small
              (sym (round_last rounds value shift n b rest dest written small) ∙ h)
        | inr large ↦ Taken-more rounds value shift n b rest dest s' size used large (
            loop-Taken rounds _ _ _ rest _ _ s' size used
              (sym (round_more rounds value shift n b rest dest written large) ∙ h))
      ]

-- `read_uvarint` reads `size` from these bytes, no byte more or less, whatever follows them.
pub record Says (limit : ℕ) (prefix : Bytes) (size : ℕ) : Type 0 where
  pub again :
      (rest dest : Bytes) (written : ℕ)
      → read_uvarint limit (record { source = prefix ++ rest; dest = dest; written = written })
        ≡ ok (
          (size, length prefix),
          record { source = rest; dest = dest ++ prefix; written = written + length prefix },
        )

-- A successful read has copied a prefix that says the number.
pub read_uvarint-Says :
    (limit : ℕ) (s s' : Stream) (size used : ℕ)
    → read_uvarint limit s ≡ ok ((size, used), s')
    → (prefix : Bytes) × (s'.dest ≡ s.dest ++ prefix) × Says limit prefix size
unfolding read_uvarint
read_uvarint-Says limit s s' size used h =
    let t = loop-Taken limit 10 0 0 0 s.source s.dest s.written s' size used h in
    (
      t.prefix,
      t.grown,
      record {
        again = λ rest dest written.
            let there : Stream = record {
              source = rest;
              dest = dest ++ t.prefix;
              written = written + length t.prefix;
            } in
            let count : used ≡ length t.prefix = grind (arith, t.count) in
            t.again rest dest written ∙ ap (λ n. ok ((size, n), there)) count;
      },
    )

-- A successful read has copied as many bytes as it counts, one at least.
pub read_uvarint-copied :
    (limit : ℕ) (s s' : Stream) (size used : ℕ)
    → read_uvarint limit s ≡ ok ((size, used), s')
    → (length s'.dest ≡ length s.dest + used) × (0 < used)
unfolding read_uvarint
read_uvarint-copied limit s s' size used h =
    let t = loop-Taken limit 10 0 0 0 s.source s.dest s.written s' size used h in
    let count : used ≡ length t.prefix = grind (arith, t.count) in
    (
      omega (arith, ap length t.grown, length-append s.dest t.prefix, count),
      omega (arith, t.nonempty, count),
    )
