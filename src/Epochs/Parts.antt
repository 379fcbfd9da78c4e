-- ===== src/Epochs/Parts.antt =====
-- Which part of the epochs a row is in.
use yataverse_distribution.Prelude.{
  ok_inj, sym, ap, ap₂, ◌∙◌, ◌++◌, All, length, length-drop, take, drop, min, none, ℕ, zero, suc,
  ◌+◌, ◌-◌, ◌≡◌, ◌≤◌, ◌<◌, refl, Bool, true, false, Option, some, List, [], ◌∷◌, String, ltb, leb,
  get_elem?, Bytes, ok, Result-cases, arith, Bool-cases, inl, inr, ◌==◌, ◌&&◌, is_empty,
}
use text.Mathlib.Text.{◌==◌ as text_eq}
use yataverse_distribution.Json.{Dict}
use yataverse_distribution.Inventory.{Item}
use yataverse_distribution.Inventory.Load.{Snapshot, length-offsets}
use yataverse_distribution.Inventory.Pages.{rows-Snapshot}
use yataverse_distribution.Receipts.{bisect_right}
use yataverse_distribution.Epochs.{
  Epoch, EpochInventory, count, total_rows, epoch_starts, new_epochs, part_rows, rows_at,
  epoch_rows, contents_of, own_parts,
}

bisect_right-before :
    (start offset : ℕ) (parts : List Epoch)
    → offset < start
    → bisect_right (epoch_starts start parts) offset ≡ 0
unfolding bisect_right epoch_starts
bisect_right-before start offset [] h = refl
bisect_right-before start offset (part ∷ parts) h = ground arith

-- The part at `index` starts at `start` and has the row `offset`.
pub record HasRow (parts : List Epoch) (starts : List ℕ) (offset : ℕ) : Type 0 where
  pub index : ℕ
  pub part : Epoch
  pub start : ℕ
  pub at_part : get_elem? parts index ≡ some part
  pub at_start : get_elem? starts index ≡ some start
  pub low : start ≤ offset
  pub high : offset < start + count part

find :
    (start offset : ℕ) (parts : List Epoch)
    → start ≤ offset
    → offset < start + total_rows parts
    → (r : HasRow parts (epoch_starts start parts) offset) × (bisect_right
          (epoch_starts start parts)
          offset
        ≡ suc r.index)
unfolding bisect_right epoch_starts total_rows
find start offset [] low high = absurd (omega arith)
find start offset (part ∷ parts) low high = elim (Bool-cases (ltb offset (start + count part))) [
  | inl here ↦ (
    record {
      index = 0;
      part = part;
      start = start;
      at_part = refl;
      at_start = refl;
      low = low;
      high = ground arith;
    },
    ground (arith, bisect_right-before (start + count part) offset parts (ground arith)),
  )
  | inr later ↦
      let (r, e) = find (start + count part) offset parts (ground arith) (omega arith) in
      (
        record {
          index = suc r.index;
          part = r.part;
          start = r.start;
          at_part = r.at_part;
          at_start = r.at_start;
          low = r.low;
          high = r.high;
        },
        ground (arith, e),
      )
]

module _ (loads : Bytes → Option Dict) (hexdigest : Bytes → String) where
  -- What `new_epochs` fixes of the parts, their starts and the number of rows.
  new_epochs-eq_ok :
      (parts : List Epoch) (digest : String) (n : ℕ) (inv : EpochInventory)
      → new_epochs loads hexdigest parts digest n ≡ ok inv
      → (inv.parts ≡ parts)
        × (inv.starts ≡ epoch_starts 0 parts)
        × (inv.total ≡ total_rows parts)
        × (total_rows parts ≡ n)
  unfolding new_epochs
  new_epochs-eq_ok parts digest n inv h = elim (Bool-cases (is_empty parts)) [
    | inl e ↦ cc (rw e at h)
    | inr e ↦
        elim (Bool-cases
          (text_eq (hexdigest (contents_of parts)) digest && total_rows parts == n)) [
            | inr f ↦ cc (rw (e, f) at h)
            | inl f ↦ elim (Result-cases (own_parts 0 parts (record { sizes = []; owner = [] }))) [
              | inr (x, o) ↦ cc (rw (e, f, o) at h)
              | inl (owned, o) ↦
                  let is = ok_inj (rw (e, f, o) at h) in
                  (
                    sym (ap (λ i. i.parts) is),
                    sym (ap (λ i. i.starts) is),
                    sym (ap (λ i. i.total) is),
                    counted (text_eq (hexdigest (contents_of parts)) digest) (total_rows parts) f,
                  )
            ]
          ]
  ]
    where
      counted : (b : Bool) (m : ℕ) → (b && m == n) ≡ true → m ≡ n
      counted true m f = ground arith
      counted false m f = cc

  epoch_rows-found :
      (inv : EpochInventory) (offset limit index : ℕ) (part : Epoch) (start : ℕ)
      → get_elem? inv.parts index ≡ some part
      → get_elem? inv.starts index ≡ some start
      → bisect_right inv.starts offset - 1 ≡ index
      → ltb offset inv.total ≡ true
      → 1 ≤ limit
      → limit ≤ 1000
      → epoch_rows loads hexdigest inv offset limit
        ≡ part_rows loads hexdigest part start offset limit
  unfolding epoch_rows rows_at
  epoch_rows-found inv offset limit index part start p s e below low high =
      let one : leb 1 limit ≡ true = ground arith in
      let thousand : leb limit 1000 ≡ true = ground arith in rw (below, one, thousand, e, p, s) refl

  -- Each row below the expected count is in the part that the search finds.
  epoch_rows-part_rows :
      (parts : List Epoch) (digest : String) (n : ℕ) (inv : EpochInventory) (offset limit : ℕ)
      → new_epochs loads hexdigest parts digest n ≡ ok inv
      → offset < n
      → 1 ≤ limit
      → limit ≤ 1000
      → (r : HasRow parts (epoch_starts 0 parts) offset) × (epoch_rows loads hexdigest inv offset
            limit
          ≡ part_rows loads hexdigest r.part r.start offset limit)
  epoch_rows-part_rows parts digest n inv offset limit made inside low high =
      let (p, s, t, m) = new_epochs-eq_ok parts digest n inv made in
      let (r, e) = find 0 offset parts (omega arith) (omega arith) in
      (
        r,
        epoch_rows-found inv offset limit r.index r.part r.start (rw p r.at_part) (rw s r.at_start)
            (rw s (omega (arith, e))) (rw t (ground (arith, m))) low high,
      )

-- All rows of the epochs, one part behind the other.
abbrev pub all_items : (Epoch → List Item) → List Epoch → List Item
all_items items_of [] = []
all_items items_of (part ∷ parts) = items_of part ++ all_items items_of parts

drop_front : (n : ℕ) (xs ys : List Item) → n ≤ length xs → drop n (xs ++ ys) ≡ drop n xs ++ ys
drop_front zero [] ys h = refl
drop_front zero (x ∷ xs) ys h = refl
drop_front (suc n) [] ys h = absurd (omega arith)
drop_front (suc n) (x ∷ xs) ys h = drop_front n xs ys (omega arith)

drop_behind : (n : ℕ) (xs ys : List Item) → drop (length xs + n) (xs ++ ys) ≡ drop n ys
drop_behind n [] ys = ap (λ k. drop k ys) (omega arith)
drop_behind n (x ∷ xs) ys =
    let k : length (x ∷ xs) + n ≡ suc (length xs + n) = omega arith in
    ap (λ m. drop m (x ∷ (xs ++ ys))) k ∙ drop_behind n xs ys

take_front : (n : ℕ) (xs ys : List Item) → take (min n (length xs)) (xs ++ ys) ≡ take n xs
take_front n [] ys =
    let none_left : min n 0 ≡ 0 = omega arith in ap (λ k. take k ys) none_left ∙ nothing n
  where
    nothing : (n : ℕ) → ◌≡◌ {A = List Item} [] (take n [])
    nothing zero = refl
    nothing (suc n) = refl
take_front zero (x ∷ xs) ys =
    let none_left : min 0 (length (x ∷ xs)) ≡ 0 = omega arith in
    ap (λ k. take k (x ∷ (xs ++ ys))) none_left
take_front (suc n) (x ∷ xs) ys =
    let k : min (suc n) (length (x ∷ xs)) ≡ suc (min n (length xs)) = omega arith in
    ap (λ m. take m (x ∷ (xs ++ ys))) k ∙ ap (λ l. x ∷ l) (take_front n xs ys)

module _ (loads : Bytes → Option Dict) (empty_refused : loads [] ≡ none)
    (hexdigest : Bytes → String) (items_of : Epoch → List Item) where
  -- Each part is a snapshot of its file.
  abbrev pub Snapshots : List Epoch → Type 0
  Snapshots parts =
      All (λ part. Snapshot loads hexdigest part.file part.inventory (items_of part)) parts

  -- The rows from `offset` on are those of the part, and then the later parts.
  located :
      (base offset index start : ℕ) (parts : List Epoch) (part : Epoch)
      → Snapshots parts
      → get_elem? parts index ≡ some part
      → get_elem? (epoch_starts base parts) index ≡ some start
      → start ≤ offset
      → offset < start + count part
      → Snapshot loads hexdigest part.file part.inventory (items_of part)
        × (base ≤ start)
        × (later : List Item) × (drop (offset - base) (all_items items_of parts)
            ≡ drop (offset - start) (items_of part) ++ later)
  unfolding epoch_starts
  located base offset index start [] part snaps p q low high = cc
  located base offset zero start (x ∷ parts) part (snap, snaps) p q low high =
      let is : x ≡ part = cc in
      let at : base ≡ start = cc in
      let long = length-offsets loads hexdigest x.file x.inventory (items_of x) snap in
      let wide : count x ≡ count part = ap (λ (e : Epoch). count e) is in
      rw (← is, ← at)
        (
          snap,
          omega arith,
          all_items items_of parts,
          drop_front (offset - base) (items_of x) (all_items items_of parts)
              (omega (arith, long, wide, at, high)),
        )
  located base offset (suc index) start (x ∷ parts) part (snap, snaps) p q low high =
      let long = length-offsets loads hexdigest x.file x.inventory (items_of x) snap in
      let (found, inside, later, e) =
        located (base + count x) offset index start parts part snaps p q low high in
      let skip : offset - base ≡ length (items_of x) + (offset - (base + count x)) =
        omega (arith, long, inside, low) in
      (
        found,
        omega (arith, inside),
        later,
        ap (λ k. drop k (items_of x ++ all_items items_of parts)) skip
            ∙ drop_behind (offset - (base + count x)) (items_of x) (all_items items_of parts)
            ∙ e,
      )

  -- In an inventory of epochs that has been accepted, whose parts are snapshots of unchanged files,
  -- a cursor below the expected count and a limit within 1..1000 give the next rows of all epochs
  -- in order, up to the limit or to the end of the part that has the row, and the row behind them.
  pub epoch_rows-all_items :
      (parts : List Epoch) (digest : String) (n : ℕ) (inv : EpochInventory) (offset limit : ℕ)
      → Snapshots parts
      → new_epochs loads hexdigest parts digest n ≡ ok inv
      → offset < n
      → 1 ≤ limit
      → limit ≤ 1000
      → (r : HasRow parts (epoch_starts 0 parts) offset) × (epoch_rows loads hexdigest inv offset
            limit
          ≡ ok (
            take
                (min limit (r.start + count r.part - offset))
                (drop offset (all_items items_of parts)),
            offset + min limit (r.start + count r.part - offset),
          ))
  unfolding part_rows
  epoch_rows-all_items parts digest n inv offset limit snaps made inside low high =
      let (r, e) =
        epoch_rows-part_rows loads hexdigest parts digest n inv offset limit made inside low high in
      let (snap, _, later, split) =
        located 0 offset r.index r.start parts r.part snaps r.at_part r.at_start r.low r.high in
      let items = items_of r.part in
      let long = length-offsets loads hexdigest r.part.file r.part.inventory items snap in
      let rest = length-drop (offset - r.start) items in
      let listed =
        rows-Snapshot loads hexdigest empty_refused r.part.file r.part.inventory items snap
          (offset - r.start) limit (omega (arith, long, r.low, r.high)) low high in
      let k : min limit (r.start + count r.part - offset)
          ≡ min limit (length (drop (offset - r.start) items)) =
        omega (arith, rest, long, r.low, r.high) in
      let page : take limit (drop (offset - r.start) items)
          ≡ take (min limit (r.start + count r.part - offset))
              (drop offset (all_items items_of parts)) =
        sym (take_front limit (drop (offset - r.start) items) later)
        ∙ ap₂ (λ m l. take m l) (sym k)
            (sym split ∙ ap (λ m. drop m (all_items items_of parts)) (omega arith)) in
      let end : r.start + min (offset - r.start + limit) (length items)
          ≡ offset + min limit (r.start + count r.part - offset) =
        omega (arith, long, r.low, r.high) in
      (r, e ∙ (rw listed (ap₂ (λ l m. ok (l, m)) page end)))
