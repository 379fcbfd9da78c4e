-- ===== src/Receipts/Merge.antt =====
-- Sorting and merging receipts keeps the rows that they cover, and leaves ranges apart.
use yataverse_distribution.Prelude.{
  ℕ, ◌+◌, ◌≤◌, ◌≡◌, refl, ◌∙◌, Bool, false, ◌&&◌, ◌||◌, List, [], ◌∷◌, ltb, leb, max, arith,
  Bool-cases, inl, inr, All,
}
use yataverse_distribution.Receipts.{Range, range_le, insert, sorted, merge_from, merge}

-- The row is in the range; the row is in one of the ranges.
abbrev pub in_range : ℕ → Range → Bool
in_range row r = leb r.start row && ltb row r.end

unfoldable pub any_range : ℕ → List Range → Bool
any_range row [] = false
any_range row (r ∷ rs) = in_range row r || any_range row rs

any_range-insert :
    (row : ℕ) (r : Range) (rs : List Range)
    → any_range row (insert r rs) ≡ (in_range row r || any_range row rs)
unfolding any_range insert
any_range-insert row r [] = refl
any_range-insert row r (q ∷ qs) = ground (arith, any_range-insert row r qs)

any_range-sorted : (row : ℕ) (rs : List Range) → any_range row (sorted rs) ≡ any_range row rs
unfolding any_range sorted
any_range-sorted row [] = refl
any_range-sorted row (r ∷ rs) =
    ground (arith, any_range-insert row r (sorted rs), any_range-sorted row rs)

-- No range starts below the bound.
abbrev pub From : ℕ → List Range → Type 0
From low rs = All (λ (r : Range). low ≤ r.start) rs

abbrev pub IsSorted : List Range → Type 0
IsSorted [] = Unit
IsSorted (r ∷ rs) = From r.start rs × IsSorted rs

From-weaken : (low low' : ℕ) (rs : List Range) → low' ≤ low → From low rs → From low' rs
From-weaken low low' [] h f = tt
From-weaken low low' (r ∷ rs) h (here, f) = (omega arith, From-weaken low low' rs h f)

From-insert :
    (low : ℕ) (r : Range) (rs : List Range) → low ≤ r.start → From low rs → From low (insert r rs)
unfolding insert
From-insert low r [] h f = (h, tt)
From-insert low r (q ∷ qs) h (here, f) = elim (Bool-cases (range_le r q)) [
  | inl e ↦ rw e (h, (here, f))
  | inr e ↦ rw e (here, From-insert low r qs h f)
]

insert-IsSorted : (r : Range) (rs : List Range) → IsSorted rs → IsSorted (insert r rs)
unfolding insert
insert-IsSorted r [] s = (tt, tt)
insert-IsSorted r (q ∷ qs) (below, s) = elim (Bool-cases (range_le r q)) [
  | inl e ↦
      let le : r.start ≤ q.start = unfold range_le in ground arith in
      rw e ((le, From-weaken q.start r.start qs le below), (below, s))
  | inr e ↦
      let ge : q.start ≤ r.start = unfold range_le in ground arith in
      rw e (From-insert q.start r qs ge below, insert-IsSorted r qs s)
]

pub sorted-IsSorted : (rs : List Range) → IsSorted (sorted rs)
unfolding sorted
sorted-IsSorted [] = tt
sorted-IsSorted (r ∷ rs) = insert-IsSorted r (sorted rs) (sorted-IsSorted rs)

any_range-merge_from :
    (row : ℕ) (last : Range) (rs : List Range)
    → From last.start rs
    → IsSorted rs
    → any_range row (merge_from last rs) ≡ (in_range row last || any_range row rs)
unfolding any_range merge_from
any_range-merge_from row last [] f s = refl
any_range-merge_from row last (r ∷ rs) (here, f) (below, s) =
    let longer : Range = record { start = last.start; end = max last.end r.end } in
    elim (Bool-cases (leb r.start last.end)) [
      | inl e ↦ rw e (ground (arith, any_range-merge_from row longer rs f s))
      | inr e ↦ rw e (ground (arith, any_range-merge_from row r rs below s))
    ]

-- The starts ascend, and each range ends below the start of the next.
abbrev pub IsApart : List Range → Type 0
IsApart [] = Unit
IsApart (r ∷ rs) = From r.start rs × From (r.end + 1) rs × IsApart rs

From-merge_from :
    (low : ℕ) (last : Range) (rs : List Range)
    → low ≤ last.start
    → From low rs
    → From low (merge_from last rs)
unfolding merge_from
From-merge_from low last [] h f = (h, tt)
From-merge_from low last (r ∷ rs) h (here, f) =
    let longer : Range = record { start = last.start; end = max last.end r.end } in
    elim (Bool-cases (leb r.start last.end)) [
      | inl e ↦ rw e (From-merge_from low longer rs h f)
      | inr e ↦ rw e (h, From-merge_from low r rs here f)
    ]

merge_from-IsApart :
    (last : Range) (rs : List Range)
    → From last.start rs
    → IsSorted rs
    → IsApart (merge_from last rs)
unfolding merge_from
merge_from-IsApart last [] f s = (tt, tt, tt)
merge_from-IsApart last (r ∷ rs) (here, f) (below, s) =
    let longer : Range = record { start = last.start; end = max last.end r.end } in
    elim (Bool-cases (leb r.start last.end)) [
      | inl e ↦ rw e (merge_from-IsApart longer rs f s)
      | inr e ↦
          let past : last.end + 1 ≤ r.start = ground arith in
          rw e (
            From-merge_from last.start r rs here f,
            From-merge_from (last.end + 1) r rs past
                (From-weaken r.start (last.end + 1) rs past below),
            merge_from-IsApart r rs below s,
          )
    ]

pub any_range-merge-sorted :
    (row : ℕ) (rs : List Range) → any_range row (merge (sorted rs)) ≡ any_range row rs
unfolding merge
any_range-merge-sorted row rs = go (sorted rs) (sorted-IsSorted rs) ∙ any_range-sorted row rs
  where
    go : (qs : List Range) → IsSorted qs → any_range row (merge qs) ≡ any_range row qs
    go [] s = refl
    go (q ∷ qs) (below, s) = any_range-merge_from row q qs below s ∙ unfold any_range in refl

pub merge-IsApart : (rs : List Range) → IsSorted rs → IsApart (merge rs)
unfolding merge
merge-IsApart [] s = tt
merge-IsApart (r ∷ rs) (below, s) = merge_from-IsApart r rs below s
