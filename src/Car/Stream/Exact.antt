-- ===== src/Car/Stream/Exact.antt =====
-- Steps of a copy that move bytes from the source to the destination unchanged, count them, and do
-- not look past them: the property that lets a copied section stand inside a longer file.
use yataverse_distribution.Prelude.{
  ℕ, zero, suc, ◌+◌, ◌-◌, ◌≤◌, ◌<◌, ◌≡◌, refl, sym, ap, ap₂, ◌∙◌, ◌⊎◌, inl, inr, Bool-cases, leb,
  leb→le, min, Bool, true, false, [], ◌∷◌, ◌++◌, arith, length, length-append, length-take,
  length-drop, take-append-drop, take-append_le, drop-append_le, take, drop, Bytes, Result, ok, err,
  if◌then◌else◌, append-nil, append_assoc,
}
use yataverse_distribution.Car.Stream.{
  Stream, Copier, ArchiveError, truncated_car_data, truncated_car_block, copy_chunk_bytes, pure,
  raise, check, position, continue, ◌>>=◌, capture_byte, read_and_write, copy_counted, read_rounds,
  copy_rounds, read_exact, copy_exact,
}

abbrev pub extend : Stream → Bytes → Stream
extend s tail = record s { source = s.source ++ tail }

-- What a round takes from the front of `a ++ rest` it takes from `a`.
regroup : (front a : Bytes) (n : ℕ) → (front ++ take n a) ++ drop n a ≡ front ++ a
regroup front a n =
    append_assoc front (take n a) (drop n a) ∙ ap (λ b. front ++ b) (take-append-drop n a)

module _ (chunk size : ℕ) (moves : 0 < chunk) where
  read_rounds_enough :
      (fuel : ℕ) (chunks a rest : Bytes)
      → length chunks + length a ≡ size
      → length a ≤ fuel
      → read_rounds fuel chunk size chunks (a ++ rest) ≡ ok (chunks ++ a, rest)
  unfolding read_rounds
  read_rounds_enough zero chunks [] rest e f = rw append-nil (ground arith)
  read_rounds_enough zero chunks (x ∷ a) rest e f = absurd (omega arith)
  read_rounds_enough (suc fuel) chunks [] rest e f = rw append-nil (ground arith)
  read_rounds_enough (suc fuel) chunks (x ∷ a) rest e f =
      let n = min chunk (size - length chunks) in
      let fits : n ≤ length (x ∷ a) = omega arith in
      ground (
        arith,
        take-append_le n (x ∷ a) rest fits,
        drop-append_le n (x ∷ a) rest fits,
        length-take n (x ∷ a),
        length-drop n (x ∷ a),
        length-append chunks (take n (x ∷ a)),
        regroup chunks (x ∷ a) n,
        read_rounds_enough fuel (chunks ++ take n (x ∷ a)) (drop n (x ∷ a)) rest,
      )

  read_rounds_short :
      (fuel : ℕ) (chunks source : Bytes)
      → length chunks + length source < size
      → size ≤ length chunks + fuel
      → read_rounds fuel chunk size chunks source ≡ err truncated_car_data
  unfolding read_rounds
  read_rounds_short zero chunks source e f = absurd (omega arith)
  read_rounds_short (suc fuel) chunks source e f =
      let n = min chunk (size - length chunks) in
      ground (
        arith,
        length-take n source,
        length-drop n source,
        length-append chunks (take n source),
        read_rounds_short fuel (chunks ++ take n source) (drop n source),
      )

module _ (chunk : ℕ) (moves : 0 < chunk) where
  copy_rounds_enough :
      (fuel remaining : ℕ) (digest a rest dest : Bytes) (written : ℕ)
      → length a ≡ remaining
      → length a ≤ fuel
      → copy_rounds fuel chunk remaining digest
          (record { source = a ++ rest; dest = dest; written = written })
        ≡ ok (digest ++ a, record { source = rest; dest = dest ++ a; written = written })
  unfolding copy_rounds
  copy_rounds_enough zero remaining digest [] rest dest written e f =
      rw (append-nil, append-nil) (ground arith)
  copy_rounds_enough zero remaining digest (x ∷ a) rest dest written e f = absurd (omega arith)
  copy_rounds_enough (suc fuel) remaining digest [] rest dest written e f =
      rw (append-nil, append-nil) (ground arith)
  copy_rounds_enough (suc fuel) remaining digest (x ∷ a) rest dest written e f =
      let n = min chunk remaining in
      let fits : n ≤ length (x ∷ a) = omega arith in
      ground (
        arith,
        take-append_le n (x ∷ a) rest fits,
        drop-append_le n (x ∷ a) rest fits,
        length-take n (x ∷ a),
        length-drop n (x ∷ a),
        regroup digest (x ∷ a) n,
        regroup dest (x ∷ a) n,
        copy_rounds_enough fuel (remaining - length (take n (x ∷ a))) (digest ++ take n (x ∷ a))
            (drop n (x ∷ a)) rest (dest ++ take n (x ∷ a)) written,
      )

  copy_rounds_short :
      (fuel remaining : ℕ) (digest source dest : Bytes) (written : ℕ)
      → length source < remaining
      → remaining ≤ fuel
      → copy_rounds fuel chunk remaining digest
          (record { source = source; dest = dest; written = written })
        ≡ err truncated_car_block
  unfolding copy_rounds
  copy_rounds_short zero remaining digest source dest written e f = absurd (omega arith)
  copy_rounds_short (suc fuel) remaining digest source dest written e f =
      let n = min chunk remaining in
      ground (
        arith,
        length-take n source,
        length-drop n source,
        copy_rounds_short fuel (remaining - length (take n source)) (digest ++ take n source)
            (drop n source) (dest ++ take n source) written,
      )

-- `read_exact` in one step: the bytes asked for, or an exception when the file is shorter.
pub read_exact_enough :
    (a rest dest : Bytes) (written : ℕ)
    → read_exact (length a) (record { source = a ++ rest; dest = dest; written = written })
      ≡ ok (a, record { source = rest; dest = dest; written = written })
unfolding read_exact
read_exact_enough a rest dest written = ground (
  arith,
  read_rounds_enough copy_chunk_bytes (length a) (omega arith) (length a) [] a rest (omega arith)
      (omega arith),
)

pub read_exact_short :
    (size : ℕ) (s : Stream) → length s.source < size → read_exact size s ≡ err truncated_car_data
unfolding read_exact
read_exact_short size s h = ground (
  arith,
  read_rounds_short copy_chunk_bytes size (omega arith) size [] s.source (omega arith)
      (omega arith),
)

pub copy_exact_enough :
    (a rest dest : Bytes) (written : ℕ)
    → copy_exact (length a) (record { source = a ++ rest; dest = dest; written = written })
      ≡ ok (a, record { source = rest; dest = dest ++ a; written = written })
unfolding copy_exact
copy_exact_enough a rest dest written =
    copy_rounds_enough copy_chunk_bytes (omega arith) (length a) (length a) [] a rest dest written
      refl (omega arith)

pub copy_exact_short :
    (size : ℕ) (s : Stream) → length s.source < size → copy_exact size s ≡ err truncated_car_block
unfolding copy_exact
copy_exact_short size s h =
    copy_rounds_short copy_chunk_bytes (omega arith) size size [] s.source s.dest s.written h
      (omega arith)

-- The run of `m` from `s` that gave `a` and left `s'`.
pub record Moves {A : Type 0} (m : Copier A) (s : Stream) (a : A) (s' : Stream) : Type 0 where
  pub moved : Bytes
  pub left : s.source ≡ moved ++ s'.source
  pub grown : s'.dest ≡ s.dest ++ moved
  pub counted : s'.written ≡ s.written + length moved
  pub further : (tail : Bytes) → m (extend s tail) ≡ ok (a, extend s' tail)

pub record IsExact {A : Type 0} (m : Copier A) : Type 0 where
  pub run : (s : Stream) (a : A) (s' : Stream) → m s ≡ ok (a, s') → Moves m s a s'

-- A step that leaves the stream alone.
stays :
    {A : Type 0} (m : Copier A) (s s' : Stream) (a : A)
    → s ≡ s'
    → ((tail : Bytes) → m (extend s tail) ≡ ok (a, extend s tail))
    → Moves m s a s'
stays m s s' a same again = record {
  moved = [];
  left = ap (λ (t : Stream). t.source) same;
  grown = ap (λ (t : Stream). t.dest) (sym same) ∙ sym (append-nil s.dest);
  counted = omega (arith, ap (λ (t : Stream). t.written) same);
  further = λ tail. again tail ∙ ap (λ (t : Stream). ok (a, extend t tail)) same;
}

module _ {A : Type 0} where
  pub pure-IsExact : (a : A) → IsExact (pure a)
  unfolding pure
  pure-IsExact a = record { run = λ s b s' h. stays (pure a) s s' b (cc) (λ tail. cc) }

  pub raise-IsExact : (e : ArchiveError) → IsExact (raise {A = A} e)
  unfolding raise
  raise-IsExact e = record { run = λ s a s' h. cc }

pub position-IsExact : IsExact position
unfolding position
position-IsExact = record { run = λ s b s' h. stays position s s' b (cc) (λ tail. cc) }

pub check-IsExact : (b : Bool) (e : ArchiveError) → IsExact (check b e)
unfolding check
check-IsExact true e = record { run = λ s b s' h. stays (check true e) s s' b (cc) (λ tail. cc) }
check-IsExact false e = record { run = λ s a s' h. cc }

module _ {A B : Type 0} (m : Copier A) (f : A → Copier B) where
  after :
      (s s' s'' : Stream) (a : A) (b : B)
      → m s ≡ ok (a, s')
      → Moves m s a s'
      → Moves (f a) s' b s''
      → Moves (m >>= f) s b s''
  unfolding ◌>>=◌
  after s s' s'' a b e first second = record {
    moved = first.moved ++ second.moved;
    left =
        first.left
        ∙ ap (λ t. first.moved ++ t) second.left
        ∙ sym (append_assoc first.moved second.moved s''.source);
    grown =
        second.grown
        ∙ ap (λ t. t ++ second.moved) first.grown
        ∙ append_assoc s.dest first.moved second.moved;
    counted = omega (arith, first.counted, second.counted, length-append first.moved second.moved);
    further = λ tail. rw (first.further tail) (second.further tail);
  }

  pub bind-IsExact : IsExact m → ((a : A) → IsExact (f a)) → IsExact (m >>= f)
  unfolding ◌>>=◌
  bind-IsExact hm hf = record { run = λ s b s'' h. go s b s'' (m s) refl h }
    where
      go :
          (s : Stream) (b : B) (s'' : Stream) (r : Result ArchiveError (A × Stream))
          → m s ≡ r
          → continue r f ≡ ok (b, s'')
          → Moves (m >>= f) s b s''
      go s b s'' (ok (a, s')) e h = after s s' s'' a b e (hm.run s a s' e) ((hf a).run s' b s'' h)
      go s b s'' (err x) e h = cc

pub if-IsExact :
    {A : Type 0} (b : Bool) (m n : Copier A) → IsExact m → IsExact n → IsExact (if b then m else n)
if-IsExact true m n hm hn = hm
if-IsExact false m n hm hn = hn

pub capture_byte-IsExact : (e : ArchiveError) → IsExact (capture_byte e)
unfolding capture_byte
capture_byte-IsExact e = record { run = λ s b s' h. go s.source s.dest s.written b s' h }
  where
    go :
        (source dest : Bytes) (written : ℕ) (b : ℕ) (s' : Stream)
        → capture_byte e (record { source = source; dest = dest; written = written }) ≡ ok (b, s')
        → Moves (capture_byte e) (record { source = source; dest = dest; written = written }) b s'
    go [] dest written b s' h = cc
    go (x ∷ rest) dest written b s' h = record {
      moved = x ∷ [];
      left = ground arith;
      grown = ground arith;
      counted = ground arith;
      further = λ tail. ground arith;
    }

-- The bytes that a read of `size` takes, where the source has as many.
pub split_source :
    (size : ℕ) (source : Bytes)
    → size ≤ length source
    → (source ≡ take size source ++ drop size source) × (length (take size source) ≡ size)
split_source size source h =
    (sym (take-append-drop size source), omega (arith, length-take size source))

module _ (size : ℕ) (s : Stream) where
  -- The stream after `size` bytes went through.
  abbrev pub passed : Bytes → Bytes → Stream
  passed a rest = record { source = rest; dest = s.dest ++ a; written = s.written + size }

  module _ (a rest : Bytes) (there : s.source ≡ a ++ rest) (long : length a ≡ size) where
    opened : record { source = a ++ rest; dest = s.dest; written = s.written } ≡ s
    opened = λ i. record { source = sym there i; dest = s.dest; written = s.written }

    pub read_exact_at : read_exact size s ≡ ok (a, record s { source = rest })
    read_exact_at = sym (ap₂ read_exact long opened) ∙ read_exact_enough a rest s.dest s.written

    copy_exact_at : copy_exact size s ≡ ok (a, record s { source = rest; dest = s.dest ++ a })
    copy_exact_at = sym (ap₂ copy_exact long opened) ∙ copy_exact_enough a rest s.dest s.written

    pub read_and_write_enough : read_and_write size s ≡ ok (a, passed a rest)
    unfolding read_and_write ◌>>=◌
    read_and_write_enough = rw read_exact_at (ground arith)

    pub copy_counted_enough : copy_counted size s ≡ ok (a, passed a rest)
    unfolding copy_counted ◌>>=◌
    copy_counted_enough = rw copy_exact_at (ground arith)

  pub read_and_write_short : length s.source < size → read_and_write size s ≡ err truncated_car_data
  unfolding read_and_write ◌>>=◌
  read_and_write_short h = rw (read_exact_short size s h)

  pub copy_counted_short : length s.source < size → copy_counted size s ≡ err truncated_car_block
  unfolding copy_counted ◌>>=◌
  copy_counted_short h = rw (copy_exact_short size s h)

-- A step that passes `size` bytes on, or raises when the source is shorter.
module _ (size : ℕ) (m : Copier Bytes) (e : ArchiveError) where
  module _
      (enough : (s : Stream) (a rest : Bytes)
        → s.source ≡ a ++ rest
        → length a ≡ size
        → m s ≡ ok (a, passed size s a rest))
      (short : (s : Stream) → length s.source < size → m s ≡ err e) where
    passes-IsExact : IsExact m
    passes-IsExact = record {
      run = λ s b s' h. go s b s' h (Bool-cases (leb size (length s.source)));
    }
      where
        go :
            (s : Stream) (b : Bytes) (s' : Stream)
            → m s ≡ ok (b, s')
            → (leb size (length s.source) ≡ true) ⊎ (leb size (length s.source) ≡ false)
            → Moves m s b s'
        go s b s' h (inl fits) =
            let (there, long) = split_source size s.source (leb→le _ _ fits) in
            let a = take size s.source in
            let rest = drop size s.source in
            let same = enough s a rest there long in
            let stream : s' ≡ passed size s a rest = cc in
            let value : b ≡ a = cc in
            record {
              moved = a;
              left = there ∙ ap (λ (t : Stream). a ++ t.source) (sym stream);
              grown = ap (λ (t : Stream). t.dest) stream;
              counted = omega (arith, ap (λ (t : Stream). t.written) stream);
              further = λ tail.
                  enough (extend s tail) a (rest ++ tail)
                    (ap (λ t. t ++ tail) there ∙ append_assoc a rest tail) long
                  ∙ ap₂ (λ x (t : Stream). ok (x, extend t tail)) (sym value) (sym stream);
            }
        go s b s' h (inr wide) = cc (short s (ground arith))

    -- What a successful step returned and left.
    passes_result :
        (s : Stream) (b : Bytes) (s' : Stream)
        → m s ≡ ok (b, s')
        → (length b ≡ size) × (s' ≡ passed size s b s'.source) × (s.source ≡ b ++ s'.source)
    passes_result s b s' h = go (Bool-cases (leb size (length s.source)))
      where
        go :
            (leb size (length s.source) ≡ true) ⊎ (leb size (length s.source) ≡ false)
            → (length b ≡ size) × (s' ≡ passed size s b s'.source) × (s.source ≡ b ++ s'.source)
        go (inl fits) =
            let (there, long) = split_source size s.source (leb→le _ _ fits) in
            let a = take size s.source in
            let rest = drop size s.source in
            let same = enough s a rest there long in
            let stream : s' ≡ passed size s a rest = cc in
            let value : b ≡ a = cc in
            let left : s'.source ≡ rest = ap (λ (t : Stream). t.source) stream in
            (
              ap length value ∙ long,
              stream ∙ ap₂ (passed size s) (sym value) (sym left),
              there ∙ ap₂ (λ x y. x ++ y) (sym value) (sym left),
            )
        go (inr wide) = cc (short s (ground arith))

pub read_and_write-IsExact : (size : ℕ) → IsExact (read_and_write size)
read_and_write-IsExact size =
    passes-IsExact size (read_and_write size) truncated_car_data (read_and_write_enough size)
      (read_and_write_short size)

pub copy_counted-IsExact : (size : ℕ) → IsExact (copy_counted size)
copy_counted-IsExact size =
    passes-IsExact size (copy_counted size) truncated_car_block (copy_counted_enough size)
      (copy_counted_short size)

-- Both ends of a successful bind.
pub >>=-eq_ok :
    {A B : Type 0} (m : Copier A) (f : A → Copier B) (s s'' : Stream) (b : B)
    → (m >>= f) s ≡ ok (b, s'')
    → (a : A) × (s' : Stream) × (m s ≡ ok (a, s')) × (f a s' ≡ ok (b, s''))
unfolding ◌>>=◌
>>=-eq_ok {A} {B} m f s s'' b h = go (m s) refl h
  where
    go :
        (r : Result ArchiveError (A × Stream))
        → m s ≡ r
        → continue r f ≡ ok (b, s'')
        → (a : A) × (s' : Stream) × (m s ≡ ok (a, s')) × (f a s' ≡ ok (b, s''))
    go (ok (a, s')) e h = (a, s', e, h)
    go (err x) e h = cc

pub read_and_write_result :
    (size : ℕ) (s : Stream) (b : Bytes) (s' : Stream)
    → read_and_write size s ≡ ok (b, s')
    → (length b ≡ size) × (s' ≡ passed size s b s'.source) × (s.source ≡ b ++ s'.source)
read_and_write_result size =
    passes_result size (read_and_write size) truncated_car_data (read_and_write_enough size)
      (read_and_write_short size)

pub copy_counted_result :
    (size : ℕ) (s : Stream) (b : Bytes) (s' : Stream)
    → copy_counted size s ≡ ok (b, s')
    → (length b ≡ size) × (s' ≡ passed size s b s'.source) × (s.source ≡ b ++ s'.source)
copy_counted_result size =
    passes_result size (copy_counted size) truncated_car_block (copy_counted_enough size)
      (copy_counted_short size)

pub check_result :
    (b : Bool) (e : ArchiveError) (s : Stream) (u : Unit {0}) (s' : Stream)
    → check b e s ≡ ok (u, s')
    → (b ≡ true) × (s' ≡ s)
unfolding check
check_result true e s u s' h = (refl, cc)
check_result false e s u s' h = cc

pub position_result :
    (s : Stream) (n : ℕ) (s' : Stream) → position s ≡ ok (n, s') → (n ≡ s.written) × (s' ≡ s)
unfolding position
position_result s n s' h = (cc, cc)

pub pure_result :
    {A : Type 0} (a : A) (s : Stream) (b : A) (s' : Stream)
    → pure a s ≡ ok (b, s')
    → (b ≡ a) × (s' ≡ s)
unfolding pure
pure_result a s b s' h = (cc, cc)

-- An exact step never moves the counter back.
pub written_grows :
    {A : Type 0} (m : Copier A) (s s' : Stream) (a : A)
    → IsExact m
    → m s ≡ ok (a, s')
    → s.written ≤ s'.written
written_grows m s s' a exact h = omega (arith, (exact.run s a s' h).counted)

-- The counter stays the length of the output.
pub written-eq_length :
    {A : Type 0} (m : Copier A) (s s' : Stream) (a : A)
    → IsExact m
    → m s ≡ ok (a, s')
    → s.written ≡ length s.dest
    → s'.written ≡ length s'.dest
written-eq_length m s s' a exact h synced =
    let run = exact.run s a s' h in
    omega (arith, run.counted, ap length run.grown, length-append s.dest run.moved)
