-- ===== src/Car/Copy/Rows.antt =====
-- What a successful copy says of its rows: each names a frame of the copied bytes, and the frame's
-- payload hashes to the digest in the row.
use yataverse_distribution.Prelude.{
  ℕ, zero, suc, ◌+◌, ◌≤◌, ◌≡◌, refl, sym, ap, ◌∙◌, subst, subst₂, append-nil, List, [], ◌∷◌, ◌++◌,
  true, false, Bytes, bytes_eq→eq, ok, length, length-append, All, arith, leb, leb→le, ltb,
  append_assoc, if◌then◌else◌, Bool-cases, inl, inr, ◌⊎◌,
}
use yataverse_distribution.Car.Stream.{Stream, Copier, pure, check, ◌>>=◌, too_many_blocks}
use yataverse_distribution.Car.Stream.Exact.{
  Moves, check-IsExact, read_and_write-IsExact, written-eq_length, >>=-eq_ok, check_result,
  position_result, pure_result, read_and_write_result, copy_counted_result,
}
use yataverse_distribution.Car.Varint.RoundTrip.{read_uvarint-IsExact}
use yataverse_distribution.Car.Varint.Announced.{Says, read_uvarint-Says}
use yataverse_distribution.Car.Copy.{
  Row, CidPrefix, sha2_256, frame_body, copy_frame, copy_frames, copy_section, first_of_read,
}
use yataverse_distribution.Car.Copy.Front.{Counts, cid_prefix-Counts}
use yataverse_distribution.Car.Copy.Exact.{cid_prefix-IsExact, copy_frame-IsExact}

module _ (sha256 : Bytes → Bytes) where
  -- The frame of a row: at the row's offset stands the prefix that says the frame's size. Behind
  -- the prefix are the front of the CID, the row's digest, and a payload that hashes to it. The
  -- size is that of the front as it is counted, the digest and the payload.
  pub record IsBacked (dest : Bytes) (row : Row) : Type 0 where
    pub before : Bytes
    pub prefix : Bytes
    pub front : Bytes
    pub payload : Bytes
    pub behind : Bytes
    pub limit : ℕ
    pub size : ℕ
    pub front_size : ℕ
    pub place : dest ≡ before ++ ((prefix ++ front) ++ (row.digest ++ (payload ++ behind)))
    pub starts : length before ≡ row.offset
    pub says : Says limit prefix size
    pub counts : Counts front_size (length front)
    pub fills : size ≡ (front_size + length row.digest) + length payload
    pub hashes : sha256 payload ≡ row.digest
    pub width : length row.digest ≡ 32
    pub kind : row.code ≡ sha2_256

  more_behind :
      (a b c d e more : Bytes)
      → (a ++ (b ++ (c ++ (d ++ e)))) ++ more ≡ a ++ (b ++ (c ++ (d ++ (e ++ more))))
  more_behind a b c d e more = simp append_assoc

  IsBacked-append :
      (dest more : Bytes) (row : Row) → IsBacked dest row → IsBacked (dest ++ more) row
  IsBacked-append dest more row h = record {
    before = h.before;
    prefix = h.prefix;
    front = h.front;
    payload = h.payload;
    behind = h.behind ++ more;
    place =
        ap (λ d. d ++ more) h.place
        ∙ more_behind h.before (h.prefix ++ h.front) row.digest h.payload h.behind more;
    limit = h.limit;
    size = h.size;
    front_size = h.front_size;
    starts = h.starts;
    says = h.says;
    counts = h.counts;
    fills = h.fills;
    hashes = h.hashes;
    width = h.width;
    kind = h.kind;
  }

  All-IsBacked-append :
      (dest more : Bytes) (rows : List Row)
      → All (IsBacked dest) rows
      → All (IsBacked (dest ++ more)) rows
  All-IsBacked-append dest more [] h = tt
  All-IsBacked-append dest more (row ∷ rows) (h, hs) =
      (IsBacked-append dest more row h, All-IsBacked-append dest more rows hs)

  -- The end of a frame, behind the prefix of its CID.
  record Body (s s' : Stream) (offset size : ℕ) (p : CidPrefix) (row : Row) : Type 0 where
    payload : Bytes
    grown : s'.dest ≡ (s.dest ++ row.digest) ++ payload
    starts : row.offset ≡ offset
    wide : p.digest_size ≡ 32
    fills : size ≡ (p.cid_size + length row.digest) + length payload
    hashes : sha256 payload ≡ row.digest
    width : length row.digest ≡ 32
    kind : row.code ≡ sha2_256

  frame_body-Body :
      (offset size : ℕ) (p : CidPrefix) (s s' : Stream) (row : Row)
      → frame_body sha256 offset size p s ≡ ok (row, s')
      → Body s s' offset size p row
  unfolding frame_body
  frame_body-Body offset size p s s' row h =
      let (u, s1, e1, h1) = >>=-eq_ok _ _ s s' row h in
      let (digest, s2, e2, h2) = >>=-eq_ok _ _ s1 s' row h1 in
      let (u', s3, e3, h3) = >>=-eq_ok _ _ s2 s' row h2 in
      let (hashed, s4, e4, h4) = >>=-eq_ok _ _ s3 s' row h3 in
      let (u'', s5, e5, h5) = >>=-eq_ok _ _ s4 s' row h4 in
      let (sha, same1) = check_result _ _ s u s1 e1 in
      let (long, there, _) = read_and_write_result p.digest_size s1 digest s2 e2 in
      let (fits, same3) = check_result _ _ s2 u' s3 e3 in
      let (long4, there4, _) = copy_counted_result _ s3 hashed s4 e4 in
      let (match, same5) = check_result _ _ s4 u'' s5 e5 in
      let (value, same) = pure_result _ s5 row s' h5 in
      let name : row.digest ≡ digest = ap (λ (r : Row). r.digest) value in
      let dest2 = ap (λ (t : Stream). t.dest) there in
      let dest4 = ap (λ (t : Stream). t.dest) there4 in
      let dest1 = ap (λ (t : Stream). t.dest) same1 in
      let dest3 = ap (λ (t : Stream). t.dest) same3 in
      let dest5 = ap (λ (t : Stream). t.dest) same5 in
      let dest6 = ap (λ (t : Stream). t.dest) same in
      let digests = bytes_eq→eq (sha256 hashed) digest match in
      record {
        payload = hashed;
        grown = cc (dest6, dest5, dest4, dest3, dest2, dest1, name);
        starts = ap (λ (r : Row). r.offset) value;
        wide = ground arith;
        fills = omega (arith, long4, long, ap length name, leb→le _ _ fits);
        hashes = digests ∙ sym name;
        width = ground (arith);
        kind = ap (λ (r : Row). r.code) value ∙ ground arith;
      }

  -- What a run of an exact step adds to the destination.
  added : {A : Type 0} (m : Copier A) (s s' : Stream) (a : A) → Moves m s a s' → Bytes
  added m s s' a run = run.moved

  front_bytes :
      (d1 d2 d3 d4 d5 : Bytes) (before m1 m2 m3 digest payload : Bytes)
      → d1 ≡ before ++ m1
      → d2 ≡ d1 ++ m2
      → d3 ≡ d2 ++ m3
      → d4 ≡ (d3 ++ digest) ++ payload
      → d4 ≡ before ++ ((m1 ++ (m2 ++ m3)) ++ (digest ++ (payload ++ [])))
  front_bytes d1 d2 d3 d4 d5 before m1 m2 m3 digest payload e1 e2 e3 e4 =
      rw (e4, e3, e2, e1) (simp (append_assoc, append-nil))

  copy_frame-IsBacked :
      (total : ℕ) (s s' : Stream) (row : Row)
      → s.written ≡ length s.dest
      → copy_frame sha256 total s ≡ ok (row, s')
      → IsBacked s'.dest row
  unfolding copy_frame
  copy_frame-IsBacked total s s' row synced h =
      let (offset, s1, e1, h1) = >>=-eq_ok _ _ s s' row h in
      let ((size, n), s2, e2, h2) = >>=-eq_ok _ _ s1 s' row h1 in
      let (here, s3, e3, h3) = >>=-eq_ok _ _ s2 s' row h2 in
      let (u, s4, e4, h4) = >>=-eq_ok _ _ s3 s' row h3 in
      let (first, s5, e5, h5) = >>=-eq_ok _ _ s4 s' row h4 in
      let (p, s6, e6, h6) = >>=-eq_ok _ _ s5 s' row h5 in
      let body = frame_body-Body offset size p s6 s' row h6 in
      let (at, same1) = position_result s offset s1 e1 in
      let (prefix, grown2, says) = read_uvarint-Says total s1 s2 size n e2 in
      let (_, same3) = position_result s2 here s3 e3 in
      let (_, same4) = check_result _ _ s3 u s4 e4 in
      let (one5, there5, _) = read_and_write_result 1 s4 first s5 e5 in
      let r6 = (cid_prefix-IsExact _).run s5 p s6 e6 in
      record {
        before = s.dest;
        prefix = prefix;
        front = first ++ r6.moved;
        payload = body.payload;
        limit = total;
        size = size;
        front_size = p.cid_size;
        behind = [];
        place =
            front_bytes s2.dest s5.dest s6.dest s'.dest s.dest s.dest prefix first r6.moved
              row.digest body.payload (grown2 ∙ ap (λ (t : Stream). t.dest ++ prefix) same1)
              (ap (λ (t : Stream). t.dest) there5
                ∙ ap (λ (t : Stream). t.dest ++ first) (same4 ∙ same3))
              r6.grown body.grown;
        starts = omega (arith, body.starts);
        says = says;
        counts =
            cid_prefix-Counts (first_of_read first) s5 s6 p (length (first ++ r6.moved)) e6
              body.wide
              (omega (
                arith,
                ap length r6.grown,
                length-append s5.dest r6.moved,
                length-append first r6.moved,
                one5,
              ));
        fills = body.fills;
        hashes = body.hashes;
        width = body.width;
        kind = body.kind;
      }

  -- What the loop keeps: the counter is the length of the output, the rows are backed by it, and
  -- there are no more than allowed.
  pub record Kept (blocks : ℕ) (rows : List Row) (s : Stream) : Type 0 where
    pub synced : s.written ≡ length s.dest
    pub backed : All (IsBacked s.dest) rows
    pub bounded : length rows ≤ blocks

  All-snoc :
      (dest : Bytes) (rows : List Row) (row : Row)
      → All (IsBacked dest) rows
      → IsBacked dest row
      → All (IsBacked dest) (rows ++ (row ∷ []))
  All-snoc dest [] row h b = (b, tt)
  All-snoc dest (x ∷ rows) row (h, hs) b = (h, All-snoc dest rows row hs b)

  Kept-frame :
      (total blocks : ℕ) (rows : List Row) (s s' : Stream) (row : Row)
      → Kept blocks rows s
      → copy_frame sha256 total s ≡ ok (row, s')
      → leb (length rows + 1) blocks ≡ true
      → Kept blocks (rows ++ (row ∷ [])) s'
  Kept-frame total blocks rows s s' row k h fits =
      let run = (copy_frame-IsExact sha256 total).run s row s' h in
      record {
        synced =
            omega
              (arith, run.counted, ap length run.grown, length-append s.dest run.moved, k.synced);
        backed =
            All-snoc s'.dest rows row
              (subst (λ d. All (IsBacked d) rows) (sym run.grown)
                (All-IsBacked-append s.dest run.moved rows k.backed))
              (copy_frame-IsBacked total s s' row k.synced h);
        bounded = omega (arith, length-append rows (row ∷ []), leb→le _ _ fits);
      }

  copy_frames-Kept :
      (fuel total blocks : ℕ) (rows : List Row) (s s' : Stream) (out : List Row)
      → Kept blocks rows s
      → copy_frames sha256 fuel total blocks rows s ≡ ok (out, s')
      → Kept blocks out s'
  unfolding copy_frames
  copy_frames-Kept zero total blocks rows s s' out k h =
      let (here, s1, e1, h1) = >>=-eq_ok _ _ s s' out h in
      let (u, s2, e2, h2) = >>=-eq_ok _ _ s1 s' out h1 in
      let (value, same) = pure_result rows s2 out s' h2 in
      let all : s' ≡ s =
        same ∙ (check_result _ _ s1 u s2 e2).1 ∙ (position_result s here s1 e1).1 in
      subst₂ (Kept blocks) (sym value) (sym all) k
  copy_frames-Kept (suc fuel) total blocks rows s s' out k h =
      let (here, s1, e1, h1) = >>=-eq_ok _ _ s s' out h in
      let k1 = subst (Kept blocks rows) (sym (position_result s here s1 e1).1) k in
      go (copy_frames-Kept fuel total blocks) here s1 k1 (Bool-cases (ltb here total)) h1
    where
      go :
          ((rows : List Row) (s s' : Stream) (out : List Row)
            → Kept blocks rows s
            → copy_frames sha256 fuel total blocks rows s ≡ ok (out, s')
            → Kept blocks out s')
          → (here : ℕ) (s1 : Stream) → Kept blocks rows s1
          → (ltb here total ≡ true) ⊎ (ltb here total ≡ false)
          → (if ltb here total
                then (copy_frame sha256 total >>= λ row.
                    check (leb (length rows + 1) blocks) too_many_blocks >>= λ _.
                    copy_frames sha256 fuel total blocks (rows ++ (row ∷ [])))
                else pure rows)
              s1
            ≡ ok (out, s')
          → Kept blocks out s'
      go later here s1 k1 (inl more) h1 =
          let h2 = rw more at h1 in
          let (row, s2, e2, h3) = >>=-eq_ok _ _ s1 s' out h2 in
          let (u, s3, e3, h4) = >>=-eq_ok _ _ s2 s' out h3 in
          let (fits, same) = check_result _ _ s2 u s3 e3 in
          later (rows ++ (row ∷ [])) s3 s' out
            (subst (Kept blocks (rows ++ (row ∷ []))) (sym same)
              (Kept-frame total blocks rows s1 s2 row k1 e2 fits))
            h4
      go later here s1 k1 (inr done) h1 =
          let (value, same) = pure_result rows s1 out s' (rw done at h1) in
          subst₂ (Kept blocks) (sym value) (sym same) k1

  pub copy_section-Kept :
      (total blocks : ℕ) (source : Bytes) (rows : List Row) (s' : Stream)
      → copy_section sha256 total blocks (record { source = source; dest = []; written = 0 })
        ≡ ok (rows, s')
      → Kept blocks rows s'
  unfolding copy_section
  copy_section-Kept total blocks source rows s' h =
      let s : Stream = record { source = source; dest = []; written = 0 } in
      let ((size, n), s1, e1, h1) = >>=-eq_ok _ _ s s' rows h in
      let (u, s2, e2, h2) = >>=-eq_ok _ _ s1 s' rows h1 in
      let (header, s3, e3, h3) = >>=-eq_ok _ _ s2 s' rows h2 in
      let w1 = written-eq_length _ s s1 (size, n) (read_uvarint-IsExact _) e1 refl in
      let w2 = written-eq_length _ s1 s2 u (check-IsExact _ _) e2 w1 in
      let w3 = written-eq_length _ s2 s3 header (read_and_write-IsExact _) e3 w2 in
      copy_frames-Kept total total blocks [] s3 s' rows
        (record { synced = w3; backed = tt; bounded = omega arith }) h3
