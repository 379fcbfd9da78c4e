-- ===== src/Car/Copy/Front.antt =====
-- The prefix of a CID in `copy_carv1_payload` of deploy/carv2_zstd.py: what `cid_size` counts of it.
use yataverse_distribution.Prelude.{
  ℕ, ◌+◌, ◌≤◌, ◌≡◌, ap, ◌∙◌, sym, ◌⊎◌, inl, inr, Bool-cases, ◌==◌, refl, ltb, true, ok, length,
  arith,
}
use yataverse_distribution.Car.Stream.{Stream}
use yataverse_distribution.Car.Stream.Exact.{>>=-eq_ok, check_result, pure_result}
use yataverse_distribution.Car.Varint.{uvarint, read_varint_after_first, default_limit}
use yataverse_distribution.Car.Varint.Announced.{read_uvarint-copied}
use yataverse_distribution.Car.Copy.{CidPrefix, sha2_256, cid_prefix}

-- The size that is counted up to the digest, where the front of the CID has `bytes` bytes: all of
-- them, or, for a CID without a version, two, whatever the bytes of its digest size.
abbrev pub Counts : ℕ → ℕ → Type 0
Counts counted bytes = (counted ≡ bytes) ⊎ ((counted ≡ 2) × (2 ≤ bytes))

after_first-one :
    (s s' : Stream) (first version n : ℕ)
    → (first == 1) ≡ true
    → read_varint_after_first first s ≡ ok ((version, n), s')
    → (n ≡ 1) × (s' ≡ s)
unfolding read_varint_after_first
after_first-one s s' first version n one h =
    let small : ltb first 0x80 ≡ true = ground arith in
    let (value, same) = pure_result _ s (version, n) s' (rw small at h) in
    (ap (λ (x : ℕ × ℕ). x.1) value, same)

two : 1 + length (uvarint 32) ≡ 2
unfolding uvarint
two = refl

all_read :
    (c n1 n2 n3 n4 l l3 l4 l5 l6 l' bytes : ℕ)
    → c ≡ n1 + n2 + n3 + n4
    → n1 ≡ 1
    → l4 ≡ l3 + n2
    → l5 ≡ l4 + n3
    → l6 ≡ l5 + n4
    → l3 ≡ l
    → l' ≡ l6
    → l' + 1 ≡ l + bytes
    → c ≡ bytes
all_read c n1 n2 n3 n4 l l3 l4 l5 l6 l' bytes e1 e2 e3 e4 e5 e6 e7 e8 = omega arith

pub cid_prefix-Counts :
    (first : ℕ) (s s' : Stream) (p : CidPrefix) (bytes : ℕ)
    → cid_prefix first s ≡ ok (p, s')
    → p.digest_size ≡ 32
    → length s'.dest + 1 ≡ length s.dest + bytes
    → Counts p.cid_size bytes
unfolding cid_prefix
cid_prefix-Counts first s s' p bytes h wide grown = elim (Bool-cases (first == sha2_256)) [
  | inl old ↦
      let h0 = rw old at h in
      let ((size, n), s1, e1, h1) = >>=-eq_ok _ _ s s' p h0 in
      let (value, same) = pure_result _ s1 p s' h1 in
      let (g, one_read) = read_uvarint-copied 1024 s s1 size n e1 in
      let size_is : size ≡ 32 = sym (ap (λ (q : CidPrefix). q.digest_size) value) ∙ wide in
      let counted = ap (λ (q : CidPrefix). q.cid_size) value in
      let to = ap (λ (t : Stream). length t.dest) same in
      inr (
        counted ∙ ap (λ (w : ℕ). 1 + length (uvarint w)) size_is ∙ two,
        omega (arith, g, one_read, to, grown),
      )
  | inr new ↦
      let h0 = rw new at h in
      let (u, s1, e1, h1) = >>=-eq_ok _ _ s s' p h0 in
      let ((version, n1), s2, e2, h2) = >>=-eq_ok _ _ s1 s' p h1 in
      let (u', s3, e3, h3) = >>=-eq_ok _ _ s2 s' p h2 in
      let ((codec, n2), s4, e4, h4) = >>=-eq_ok _ _ s3 s' p h3 in
      let ((code, n3), s5, e5, h5) = >>=-eq_ok _ _ s4 s' p h4 in
      let ((size, n4), s6, e6, h6) = >>=-eq_ok _ _ s5 s' p h5 in
      let (value, same) = pure_result _ s6 p s' h6 in
      let (one, same1) = check_result _ _ s u s1 e1 in
      let (n1_is, same2) = after_first-one s1 s2 first version n1 one e2 in
      let (_, same3) = check_result _ _ s2 u' s3 e3 in
      let (g4, _) = read_uvarint-copied default_limit s3 s4 codec n2 e4 in
      let (g5, _) = read_uvarint-copied default_limit s4 s5 code n3 e5 in
      let (g6, _) = read_uvarint-copied 1024 s5 s6 size n4 e6 in
      let counted = ap (λ (q : CidPrefix). q.cid_size) value in
      let len = λ (t : Stream). length t.dest in
      inl (
        all_read _ _ _ _ _ _ _ _ _ _ _ _ counted n1_is g4 g5 g6 (ap len (same3 ∙ same2 ∙ same1))
          (ap len same) grown)
]
