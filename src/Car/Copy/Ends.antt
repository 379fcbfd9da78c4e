-- ===== src/Car/Copy/Ends.antt =====
-- The `while` loop of `copy_carv1_payload` ends: each frame takes a byte at least, so the fuel that
-- the model gives the loop is enough.
use yataverse_distribution.Prelude.{
  ℕ, zero, suc, ◌+◌, ◌≤◌, ◌<◌, ◌≡◌, ◌≢◌, List, Bool, Bytes, ok, err, arith, ap, ltb, le→leb, [],
  ◌∷◌, ◌++◌, drop,
}
use yataverse_distribution.Car.Stream.{Stream, ◌>>=◌, out_of_fuel}
use yataverse_distribution.Car.Stream.Exact.{
  >>=-eq_ok, check-IsExact, position-IsExact, read_and_write_result, position_result, check_result,
  written_grows,
}
use yataverse_distribution.Car.Varint.RoundTrip.{read_uvarint-IsExact}
use yataverse_distribution.Car.Stream.Ends.{
  Ends, bind-Ends, bind-Ends_at, if-Ends, if-Ends_at, pure-Ends, check-Ends, position-Ends,
  read_and_write-Ends, copy_counted-Ends,
}
use yataverse_distribution.Car.Varint.Ends.{read_uvarint-Ends, read_varint_after_first-Ends}
use yataverse_distribution.Car.Copy.{
  Row, CidPrefix, cid_prefix, frame_body, copy_frame, copy_frames, copy_section, finish,
  copy_carv1_payload,
}
use yataverse_distribution.Car.Copy.Exact.{rest_of_frame-IsExact}

cid_prefix-Ends : (first : ℕ) → Ends (cid_prefix first)
unfolding cid_prefix
cid_prefix-Ends first = if-Ends _ _ _ (bind-Ends _ _ (read_uvarint-Ends _) λ p. pure-Ends _) (
    bind-Ends _ _ (check-Ends _ _ (λ e. cc)) λ _.
      bind-Ends _ _ (read_varint_after_first-Ends _) λ v.
        bind-Ends _ _ (check-Ends _ _ (λ e. cc)) λ _. bind-Ends _ _ (read_uvarint-Ends _) λ codec.
          bind-Ends _ _ (read_uvarint-Ends _)
            λ code. bind-Ends _ _ (read_uvarint-Ends _) λ size. pure-Ends _)

module _ (sha256 : Bytes → Bytes) where
  frame_body-Ends : (offset size : ℕ) (p : CidPrefix) → Ends (frame_body sha256 offset size p)
  unfolding frame_body
  frame_body-Ends offset size p = bind-Ends _ _ (check-Ends _ _ (λ e. cc)) λ _.
      bind-Ends _ _ (read_and_write-Ends _) λ digest. bind-Ends _ _ (check-Ends _ _ (λ e. cc)) λ _.
        bind-Ends _ _ (copy_counted-Ends _)
          λ hashed. bind-Ends _ _ (check-Ends _ _ (λ e. cc)) λ _. pure-Ends _

  copy_frame-Ends : (total : ℕ) → Ends (copy_frame sha256 total)
  unfolding copy_frame
  copy_frame-Ends total = bind-Ends _ _ position-Ends λ offset.
      bind-Ends _ _ (read_uvarint-Ends _) λ size. bind-Ends _ _ position-Ends λ here.
        bind-Ends _ _ (check-Ends _ _ (λ e. cc)) λ _.
          bind-Ends _ _ (read_and_write-Ends _)
            λ first. bind-Ends _ _ (cid_prefix-Ends _) λ p. frame_body-Ends _ _ p

  -- A frame moves the counter on.
  pub copy_frame-grows :
      (total : ℕ) (s s' : Stream) (row : Row)
      → copy_frame sha256 total s ≡ ok (row, s')
      → s.written < s'.written
  unfolding copy_frame
  copy_frame-grows total s s' row h =
      let (offset, s1, e1, h1) = >>=-eq_ok _ _ s s' row h in
      let ((size, n), s2, e2, h2) = >>=-eq_ok _ _ s1 s' row h1 in
      let (here, s3, e3, h3) = >>=-eq_ok _ _ s2 s' row h2 in
      let (u, s4, e4, h4) = >>=-eq_ok _ _ s3 s' row h3 in
      let (first, s5, e5, h5) = >>=-eq_ok _ _ s4 s' row h4 in
      omega (
        arith,
        written_grows _ s s1 offset position-IsExact e1,
        written_grows _ s1 s2 (size, n) (read_uvarint-IsExact total) e2,
        written_grows _ s2 s3 here position-IsExact e3,
        written_grows _ s3 s4 u (check-IsExact _ _) e4,
        ap (λ (t : Stream). t.written) (read_and_write_result 1 s4 first s5 e5).1,
        written_grows _ s5 s' row (rest_of_frame-IsExact sha256 _ _ _) h5,
      )

  copy_frames_end :
      (fuel total blocks : ℕ) (rows : List Row) (s : Stream)
      → total ≤ s.written + fuel
      → copy_frames sha256 fuel total blocks rows s ≢ err out_of_fuel
  unfolding copy_frames
  copy_frames_end zero total blocks rows s f = bind-Ends_at _ _ s (position-Ends.at s) λ here s1 e.
      let (at, same) = position_result s here s1 e in
      rw (le→leb total here (omega (arith, at))) (unfold ◌>>=◌ in λ h. cc)
  copy_frames_end (suc fuel) total blocks rows s f =
      bind-Ends_at _ _ s (position-Ends.at s) λ here s1 e.
        if-Ends_at (ltb here total) _ _ s1
          (λ more. bind-Ends_at _ _ s1 ((copy_frame-Ends total).at s1) λ row s2 e2.
            bind-Ends_at _ _ s2 ((check-Ends _ _ (λ x. cc)).at s2) λ u s3 e3.
              copy_frames_end fuel total blocks (rows ++ (row ∷ [])) s3 (
                omega (
                  arith,
                  ap (λ (t : Stream). t.written) (position_result s here s1 e).1,
                  copy_frame-grows total s1 s2 row e2,
                  ap (λ (t : Stream). t.written) (check_result _ _ s2 u s3 e3).1,
                )))
          (λ done. (pure-Ends rows).at s1)

  copy_section-Ends : (total blocks : ℕ) → Ends (copy_section sha256 total blocks)
  unfolding copy_section
  copy_section-Ends total blocks = bind-Ends _ _ (read_uvarint-Ends _) λ size.
      bind-Ends _ _ (check-Ends _ _ (λ e. cc)) λ _.
        bind-Ends _ _ (read_and_write-Ends _)
          λ header. record { at = λ s. copy_frames_end total total blocks [] s (omega arith) }

  -- The copy returns rows or raises one of the source's exceptions: its loop never stops because
  -- the fuel is used up.
  pub copy_carv1_payload-ends :
      (source : Bytes) (total blocks start : ℕ) (eof : Bool)
      → copy_carv1_payload sha256 source total blocks start eof ≢ err out_of_fuel
  unfolding copy_carv1_payload finish
  copy_carv1_payload-ends source total blocks start eof h = ground (
    arith,
    (copy_section-Ends total blocks).at
        (record { source = drop start source; dest = []; written = 0 }),
  )
