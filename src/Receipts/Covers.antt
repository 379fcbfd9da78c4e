-- ===== src/Receipts/Covers.antt =====
-- What the receipts cover after a refresh.
use yataverse_distribution.Prelude.{
  ℕ, zero, suc, ◌+◌, ◌-◌, ◌≤◌, ◌<◌, ◌≡◌, refl, sym, ap, ◌∙◌, Bool, true, false, ◌&&◌, Option, some,
  List, [], ◌∷◌, ◌++◌, String, ltb, leb, arith, Bytes, length, ◌==◌, subst, lt→ltb, Bool-cases,
  Result-cases, Option-cases, inl, inr, All, Result, ok, require, ◌>>=◌, ◌>>◌,
}
use yataverse_distribution.Json.{Dict, lookup, text_of, is_number}
use yataverse_distribution.Inventory.{
  InventoryError, File, Inventory, rows, receipt_range_invalid, receipt_differs,
}
use yataverse_distribution.Receipts.{
  Range, ReceiptFile, Directory, CarReceipts, starts_of_ranges, bisect_right, row_below, covers_row,
  merge, sorted, refresh, collect, native_range, covers, position_of, car_range, files_of,
  mtimes_of, all_dirs, same_mtimes, in_inventory, named_range, loaded_record, names_range,
  is_nonempty_text, sum_sizes,
}
use yataverse_distribution.Receipts.Merge.{
  any_range, From, IsApart, any_range-merge-sorted, merge-IsApart, sorted-IsSorted,
}

-- A row below every start is in no range, and `bisect_right` finds nothing before it.
any_range-From :
    (row low : ℕ) (rs : List Range) → row < low → From low rs → any_range row rs ≡ false
unfolding any_range
any_range-From row low [] h f = refl
any_range-From row low (r ∷ rs) h (here, f) = ground (arith, any_range-From row low rs h f)

bisect_right-From :
    (row low : ℕ) (rs : List Range)
    → row < low
    → From low rs
    → bisect_right (starts_of_ranges rs) row ≡ 0
unfolding bisect_right starts_of_ranges
bisect_right-From row low [] h f = refl
bisect_right-From row low (r ∷ rs) h (here, f) = ground arith

-- The test of `covers` on ranges that lie apart.
abbrev found : List Range → ℕ → ℕ → Bool
found rs row n = ltb 0 n && row_below rs (n - 1) row

found-any_range :
    (rs : List Range) (row : ℕ)
    → IsApart rs
    → found rs row (bisect_right (starts_of_ranges rs) row) ≡ any_range row rs
unfolding bisect_right starts_of_ranges any_range row_below
found-any_range [] row apart = refl
found-any_range (r ∷ rs) row (ascends, past, apart) = elim (Bool-cases (leb r.start row)) [
  | inr before ↦ rw before (sym (any_range-From row r.start rs (ground arith) ascends))
  | inl started ↦ elim (Bool-cases (ltb row r.end)) [
    | inl inside ↦
        rw (started, bisect_right-From row (r.end + 1) rs (ground arith) past) (ground arith)
    | inr ended ↦
        rw (started, ended)
          (later ended (bisect_right (starts_of_ranges rs) row) (found-any_range rs row apart))
  ]
]
  where
    later :
        ltb row r.end ≡ false
        → (n : ℕ) → found rs row n ≡ any_range row rs
        → found (r ∷ rs) row (suc n) ≡ any_range row rs
    later ended zero h = ended ∙ h
    later ended (suc k) h =
        let e : suc (suc k) - 1 ≡ suc k = omega arith in
        let e' : suc k - 1 ≡ k = omega arith in
        rw (lt→ltb 0 (suc (suc k)) (omega arith), e) (rw (lt→ltb 0 (suc k) (omega arith), e') at h)

-- The ranges that a refresh read lie in the inventory.
pub InInventory : Inventory → Range → Type 0
InInventory inv r = (r.start < r.end) × (r.end ≤ length inv.offsets)

in_inventory-InInventory :
    (inv : Inventory) (r : Range) → in_inventory inv r ≡ true → InInventory inv r
unfolding in_inventory InInventory
in_inventory-InInventory inv r h = (ground arith, ground arith)

All-collect :
    (P : Range → Type 0) (f : ReceiptFile → Result InventoryError Range)
    → ((file : ReceiptFile) (r : Range) → f file ≡ ok r → P r)
    → (files : List ReceiptFile) (rs : List Range) → collect f files ≡ ok rs
    → All P rs
unfolding collect
All-collect P f each [] [] h = tt
All-collect P f each [] (r ∷ rs) h = cc
All-collect P f each (file ∷ files) rs h = elim (Result-cases (f file)) [
  | inr (x, e) ↦ cc (rw e at h)
  | inl (r, e) ↦ elim (Result-cases (collect f files)) [
    | inr (x, e') ↦ cc (rw (e, e') at h)
    | inl (rest, e') ↦
        let same : r ∷ rest ≡ rs = cc (rw (e, e') at h) in
        subst (λ l. All P l) same (each file r e, All-collect P f each files rest e')
  ]
]

All-append : (P : Range → Type 0) (xs ys : List Range) → All P xs → All P ys → All P (xs ++ ys)
All-append P [] ys p q = q
All-append P (x ∷ xs) ys (here, p) q = (here, All-append P xs ys p q)

any_range-inside :
    (inv : Inventory) (row : ℕ) (rs : List Range)
    → All (InInventory inv) rs
    → any_range row rs ≡ true
    → row < length inv.offsets
unfolding any_range InInventory
any_range-inside inv row [] a h = cc
any_range-inside inv row (r ∷ rs) (here, a) h = ground (arith, any_range-inside inv row rs a)

car_range-InInventory :
    (inv : Inventory) (repository : String) (f : ReceiptFile) (r : Range)
    → car_range inv repository f ≡ ok r
    → InInventory inv r
unfolding car_range
car_range-InInventory inv repository f r h =
    elim (Result-cases (named_range "-import.json" f.name)) [
      | inr (x, e) ↦ cc (rw e at h)
      | inl (q, e) ↦ elim (Result-cases (loaded_record f.contents)) [
        | inr (x, d) ↦ cc (rw (e, d) at h)
        | inl (record', d) ↦ elim (Bool-cases (in_inventory inv q)) [
          | inl inside ↦
              let same : q ≡ r = ground (arith, rw (e, d) at h) in
              subst (InInventory inv) same (in_inventory-InInventory inv q inside)
          | inr outside ↦ ground (arith, rw (e, d) at h)
        ]
      ]
    ]

position_of-eq_ok :
    (inv : Inventory) (cid : String) (row : ℕ)
    → position_of inv cid ≡ ok row
    → lookup cid inv.positions ≡ some row
unfolding position_of
position_of-eq_ok inv cid row h = elim (Option-cases (lookup cid inv.positions)) [
  | inl e ↦ ground (arith, e)
  | inr (n, e) ↦ ground (arith, e)
]

module _ (loads : Bytes → Option Dict) (hexdigest : Bytes → String) (inv : Inventory) (file : File)
    (repository : String) where
  native_range-InInventory :
      (f : ReceiptFile) (r : Range)
      → native_range loads hexdigest inv file repository f ≡ ok r
      → InInventory inv r
  unfolding native_range
  native_range-InInventory f r h = elim (Result-cases (named_range "-native.json" f.name)) [
    | inr (x, e) ↦ cc (rw e at h)
    | inl (q, e) ↦ elim (Result-cases (loaded_record f.contents)) [
      | inr (x, d) ↦ cc (rw (e, d) at h)
      | inl (record', d) ↦ elim (Bool-cases (in_inventory inv q)) [
        | inr outside ↦ cc (rw (e, d, outside) at h)
        | inl inside ↦
            subst (InInventory inv) (same q record' (rw (e, d, inside) at h))
              (in_inventory-InInventory inv q inside)
      ]
    ]
  ]
    where
      same :
          (q : Range) (d : Dict)
          → (require (leb (q.end - q.start) 1000) receipt_range_invalid
              >> (rows loads hexdigest inv file q.start (q.end - q.start) >>= λ got.
                  require
                    (got.1 == q.end
                      && names_range inv repository q d
                      && is_number (length got.0) (lookup "blocks" d)
                      && is_number (sum_sizes got.0) (lookup "bytes" d)
                      && is_nonempty_text (text_of (lookup "source_peer" d)))
                    receipt_differs
                  >> ok q))
            ≡ ok r
          → q ≡ r
      same q d k = elim (Result-cases (rows loads hexdigest inv file q.start (q.end - q.start))) [
        | inr (x, e) ↦ ground (arith, rw e at k)
        | inl (got, e) ↦ ground (arith, rw e at k)
      ]

  -- A refresh that reads the directories anew reads one range of each receipt, all inside the
  -- inventory, and then covers a row exactly when one of those ranges has it.
  pub refresh-any_range :
      (car native : List Directory) (receipts receipts' : CarReceipts)
      → same_mtimes (mtimes_of (car ++ native)) receipts.mtimes ≡ false
      → refresh loads hexdigest inv file repository car native receipts ≡ ok receipts'
      → (natives cars : List Range) × (collect
            (native_range loads hexdigest inv file repository)
            (files_of native)
          ≡ ok natives)
        × (collect (car_range inv repository) (files_of car) ≡ ok cars)
        × All (InInventory inv) (natives ++ cars)
        × ((row : ℕ) → covers_row receipts' row ≡ any_range row (natives ++ cars))
  unfolding refresh covers_row
  refresh-any_range car native receipts receipts' anew h =
      elim (Bool-cases (all_dirs (car ++ native))) [
        | inr absent ↦ cc (rw absent at h)
        | inl present ↦
            elim (Result-cases
              (collect (native_range loads hexdigest inv file repository) (files_of native))) [
                | inr (x, n) ↦ cc (rw (present, anew, n) at h)
                | inl (natives, n) ↦
                    elim (Result-cases (collect (car_range inv repository) (files_of car))) [
                      | inr (x, c) ↦ cc (rw (present, anew, n, c) at h)
                      | inl (cars, c) ↦
                          let covered = merge (sorted (natives ++ cars)) in
                          let same : record {
                            mtimes = some (mtimes_of (car ++ native));
                            starts = starts_of_ranges covered;
                            ranges = covered;
                          }
                              ≡ receipts' =
                            cc (rw (present, anew, n, c) at h) in
                          (
                            natives,
                            cars,
                            n,
                            c,
                            All-append (InInventory inv) natives cars
                                (All-collect (InInventory inv) _ native_range-InInventory
                                  (files_of native) natives n)
                                (All-collect (InInventory inv) _
                                  (car_range-InInventory inv repository) (files_of car) cars c),
                            λ row.
                                ap (λ (r : CarReceipts). covers_row r row) (sym same)
                                ∙ found-any_range covered row (
                                    merge-IsApart (sorted (natives ++ cars))
                                      (sorted-IsSorted (natives ++ cars)))
                                ∙ any_range-merge-sorted row (natives ++ cars),
                          )
                    ]
              ]
      ]

  -- The answer of `covers` behind a refresh that reads the directories anew: the CID has a position
  -- in the inventory, and the answer is whether one of the ranges that the receipts name has that
  -- row, as each receipt stands. If so, it is a row of the inventory.
  pub covers-any_range :
      (car native : List Directory) (receipts receipts' : CarReceipts) (cid : String) (hit : Bool)
      → same_mtimes (mtimes_of (car ++ native)) receipts.mtimes ≡ false
      → covers loads hexdigest inv file repository car native receipts cid ≡ ok (hit, receipts')
      → (row : ℕ) × (natives cars : List Range) × (lookup cid inv.positions ≡ some row)
        × (collect (native_range loads hexdigest inv file repository) (files_of native)
            ≡ ok natives)
        × (collect (car_range inv repository) (files_of car) ≡ ok cars)
        × (hit ≡ any_range row (natives ++ cars))
        × (hit ≡ true → row < length inv.offsets)
  unfolding covers
  covers-any_range car native receipts receipts' cid hit anew h =
      elim (Result-cases (refresh loads hexdigest inv file repository car native receipts)) [
        | inr (x, e) ↦ cc (rw e at h)
        | inl (fresh, e) ↦ elim (Result-cases (position_of inv cid)) [
          | inr (x, gone) ↦ cc (rw (e, gone) at h)
          | inl (row, here) ↦
              let answer : covers_row fresh row ≡ hit = cc (rw (e, here) at h) in
              let (natives, cars, n, c, inside, agree) =
                refresh-any_range car native receipts fresh anew e in
              (
                row,
                natives,
                cars,
                position_of-eq_ok inv cid row here,
                n,
                c,
                sym answer ∙ agree row,
                λ yes.
                    any_range-inside inv row (natives ++ cars) inside
                      (sym (agree row) ∙ answer ∙ yes),
              )
        ]
      ]
