-- ===== src/Car/Copy/Exact.antt =====
-- The copy of a CARv1 section passes its bytes on unchanged, counts them, and does not look past
-- the section.
use yataverse_distribution.Prelude.{ℕ, zero, suc, List, Bytes}
use yataverse_distribution.Car.Stream.{◌>>=◌}
use yataverse_distribution.Car.Stream.Exact.{
  IsExact, bind-IsExact, if-IsExact, pure-IsExact, check-IsExact, position-IsExact,
  read_and_write-IsExact, copy_counted-IsExact,
}
use yataverse_distribution.Car.Varint.RoundTrip.{
  read_uvarint-IsExact, read_varint_after_first-IsExact,
}
use yataverse_distribution.Car.Copy.{
  Row, CidPrefix, cid_prefix, frame_body, copy_frame, copy_frames, copy_section,
}

pub cid_prefix-IsExact : (first : ℕ) → IsExact (cid_prefix first)
unfolding cid_prefix
cid_prefix-IsExact first =
    if-IsExact _ _ _ (bind-IsExact _ _ (read_uvarint-IsExact _) λ p. pure-IsExact _) (
      bind-IsExact _ _ (check-IsExact _ _) λ _.
        bind-IsExact _ _ (read_varint_after_first-IsExact _) λ v.
          bind-IsExact _ _ (check-IsExact _ _) λ _.
            bind-IsExact _ _ (read_uvarint-IsExact _) λ codec.
              bind-IsExact _ _ (read_uvarint-IsExact _)
                λ code. bind-IsExact _ _ (read_uvarint-IsExact _) λ size. pure-IsExact _)

module _ (sha256 : Bytes → Bytes) where
  frame_body-IsExact : (offset size : ℕ) (p : CidPrefix) → IsExact (frame_body sha256 offset size p)
  unfolding frame_body
  frame_body-IsExact offset size p = bind-IsExact _ _ (check-IsExact _ _) λ _.
      bind-IsExact _ _ (read_and_write-IsExact _) λ digest.
        bind-IsExact _ _ (check-IsExact _ _) λ _.
          bind-IsExact _ _ (copy_counted-IsExact _)
            λ hashed. bind-IsExact _ _ (check-IsExact _ _) λ _. pure-IsExact _

  pub rest_of_frame-IsExact :
      (first offset size : ℕ) → IsExact (cid_prefix first >>= λ p. frame_body sha256 offset size p)
  rest_of_frame-IsExact first offset size =
      bind-IsExact _ _ (cid_prefix-IsExact first) λ p. frame_body-IsExact offset size p

  pub copy_frame-IsExact : (total : ℕ) → IsExact (copy_frame sha256 total)
  unfolding copy_frame
  copy_frame-IsExact total = bind-IsExact _ _ position-IsExact λ offset.
      bind-IsExact _ _ (read_uvarint-IsExact _) λ size. bind-IsExact _ _ position-IsExact λ here.
        bind-IsExact _ _ (check-IsExact _ _)
          λ _. bind-IsExact _ _ (read_and_write-IsExact _) λ first. rest_of_frame-IsExact _ _ _

  copy_frames-IsExact :
      (fuel total blocks : ℕ) (rows : List Row)
      → IsExact (copy_frames sha256 fuel total blocks rows)
  unfolding copy_frames
  copy_frames-IsExact zero total blocks rows =
      bind-IsExact _ _ position-IsExact
        λ here. bind-IsExact _ _ (check-IsExact _ _) λ _. pure-IsExact _
  copy_frames-IsExact (suc fuel) total blocks rows = bind-IsExact _ _ position-IsExact λ here.
      if-IsExact _ _ _
        (bind-IsExact _ _ (copy_frame-IsExact total)
          λ row. bind-IsExact _ _ (check-IsExact _ _) λ _. copy_frames-IsExact fuel total blocks _)
        (pure-IsExact _)

  pub copy_section-IsExact : (total blocks : ℕ) → IsExact (copy_section sha256 total blocks)
  unfolding copy_section
  copy_section-IsExact total blocks = bind-IsExact _ _ (read_uvarint-IsExact _) λ size.
      bind-IsExact _ _ (check-IsExact _ _) λ _.
        bind-IsExact _ _ (read_and_write-IsExact _)
          λ header. copy_frames-IsExact total total blocks _
