-- ===== src/Inventory/Pages.antt =====
-- `rows` and `page` of a loaded inventory whose file has not changed.
use yataverse_distribution.Prelude.{
  ℕ, zero, suc, ◌+◌, ◌-◌, ◌≤◌, ◌<◌, ◌≡◌, refl, sym, ap, ap₂, ◌∙◌, true, Option, none, some, List,
  [], ◌∷◌, ◌++◌, arith, length, get_elem?, take, drop, length-drop, min, Bytes, String, take_clip,
  drop-add, Result, ok, err, ◌>>=◌, lt→ltb, ltb→lt, not_ltb→le, ltb, le→leb, Bool-cases,
  Option-cases, inl, inr, append_assoc, ◌*◌, ==_self, if◌then◌else◌, take_all, take-append-drop,
}
use yataverse_distribution.Json.{Dict, lookup, text_of, int_of}
use yataverse_distribution.Inventory.{
  InventoryError, cursor_outside, Item, File, Inventory, page_size, read_item, checked_item,
  read_row, read_rows, rows, page, seek,
}
use yataverse_distribution.Inventory.Load.{Reads, Snapshot, starts_of, length-offsets, length-Reads}

starts_le : (at k p : ℕ) (lines : List Bytes) → get_elem? (starts_of at lines) k ≡ some p → at ≤ p
starts_le at zero p [] h = cc
starts_le at (suc k) p [] h = cc
starts_le at zero p (line ∷ lines) h = ground arith
starts_le at (suc k) p (line ∷ lines) h = omega (arith, starts_le (at + length line) k p lines h)

-- Each line has a byte.
abbrev NonEmpty : List Bytes → Type 0
NonEmpty [] = Unit
NonEmpty (line ∷ lines) = (0 < length line) × NonEmpty lines

-- A seek to the offset of line `k` is at line `k`.
seek-starts_of :
    (at k p : ℕ) (lines : List Bytes)
    → NonEmpty lines
    → get_elem? (starts_of at lines) k ≡ some p
    → seek (p - at) lines ≡ drop k lines
unfolding seek
seek-starts_of at zero p [] full h = cc
seek-starts_of at (suc k) p [] full h = cc
seek-starts_of at zero p (line ∷ lines) full h = ground arith
seek-starts_of at (suc k) p (line ∷ lines) (some_byte, full) h =
    let low = starts_le (at + length line) k p lines h in
    let ih = seek-starts_of (at + length line) k p lines full h in
    let back : p - at - length line ≡ p - (at + length line) = omega arith in
    rw back (ground (arith, ih))

starts_some :
    (at k : ℕ) (lines : List Bytes)
    → k < length lines
    → (p : ℕ) × (get_elem? (starts_of at lines) k ≡ some p)
starts_some at k [] h = absurd (omega arith)
starts_some at zero (line ∷ lines) h = (at, refl)
starts_some at (suc k) (line ∷ lines) h = starts_some (at + length line) k lines (omega arith)

module _ (loads : Bytes → Option Dict) (hexdigest : Bytes → String) where
  Reads-drop :
      (k : ℕ) (lines : List Bytes) (items : List Item)
      → Reads loads hexdigest lines items
      → Reads loads hexdigest (drop k lines) (drop k items)
  Reads-drop zero lines items r = r
  Reads-drop (suc k) [] [] r = tt
  Reads-drop (suc k) [] (item ∷ items) r = absurd r
  Reads-drop (suc k) (line ∷ lines) [] r = absurd r
  Reads-drop (suc k) (line ∷ lines) (item ∷ items) (e, r) = Reads-drop k lines items r

  -- The checks that a row has passed at the start do not change what is read of it.
  read_row-read_item :
      (line : Bytes) (item : Item)
      → read_item loads hexdigest line ≡ ok item
      → read_row loads hexdigest line ≡ ok item
  unfolding read_item read_row checked_item
  read_row-read_item line item h = elim (Option-cases (loads line)) [
    | inl e ↦ cc (rw (e, read_item) at h)
    | inr (row, e) ↦ elim (Option-cases (text_of (lookup "cid" row))) [
      | inl f ↦ ground (arith, rw (e, f, read_item) at h)
      | inr (cid, f) ↦ elim (Option-cases (int_of (lookup "bytes" row))) [
        | inl g ↦ ground (arith, rw (e, f, g, read_item) at h)
        | inr (size, g) ↦ rw (e, f, g, read_row) (ground (arith, rw (e, f, g, read_item) at h))
      ]
    ]
  ]

  read_rows-Reads :
      (n : ℕ) (lines : List Bytes) (items : List Item)
      → Reads loads hexdigest lines items
      → n ≤ length items
      → read_rows loads hexdigest n lines ≡ ok (take n items)
  unfolding read_rows
  read_rows-Reads zero lines items r h = refl
  read_rows-Reads (suc n) lines [] r h = absurd (omega arith)
  read_rows-Reads (suc n) [] (item ∷ items) r h = absurd r
  read_rows-Reads (suc n) (line ∷ lines) (item ∷ items) (e, r) h =
      rw (read_row-read_item line item e, read_rows-Reads n lines items r (omega arith))

  -- A reader that follows the cursors, up to a number of pages, and keeps the blocks.
  unfoldable pub list_pages :
      Inventory → File → ℕ → ℕ → List Item → Result InventoryError (List Item)
  list_pages inv file zero offset seen = err cursor_outside
  list_pages inv file (suc pages) offset seen = do
    p ← page loads hexdigest inv file offset
    elim p.cursor [
      | none ↦ ok (seen ++ p.blocks)
      | some next ↦ list_pages inv file pages next (seen ++ p.blocks)
    ]

  -- `json.loads` refuses the empty string.
  module _ (empty_refused : loads [] ≡ none) where
    Reads-NonEmpty :
        (lines : List Bytes) (items : List Item)
        → Reads loads hexdigest lines items
        → NonEmpty lines
    Reads-NonEmpty [] items r = tt
    Reads-NonEmpty (line ∷ lines) [] r = absurd r
    Reads-NonEmpty ([] ∷ lines) (item ∷ items) (e, r) = unfold read_item in cc (empty_refused, e)
    Reads-NonEmpty ((b ∷ line) ∷ lines) (item ∷ items) (e, r) =
        (omega arith, Reads-NonEmpty lines items r)

    module _ (file : File) (inv : Inventory) (items : List Item)
        (s : Snapshot loads hexdigest file inv items) where
      -- On an unchanged file, a cursor inside the inventory and a limit within 1..1000 give the
      -- next rows in order, as many as there are up to the limit, and the row behind them.
      pub rows-Snapshot :
          (offset limit : ℕ)
          → offset < length items
          → 1 ≤ limit
          → limit ≤ 1000
          → rows loads hexdigest inv file offset limit
            ≡ ok (take limit (drop offset items), min (offset + limit) (length items))
      unfolding rows
      rows-Snapshot offset limit inside low high =
          let end = min (offset + limit) (length inv.offsets) in
          let counted = length-offsets loads hexdigest file inv items s in
          let lines = length-Reads loads hexdigest file.lines items s.reads in
          let (at, found) = starts_some 0 offset file.lines (omega (arith, lines)) in
          let there : get_elem? inv.offsets offset ≡ some at =
            ap (λ o. get_elem? o offset) s.offsets ∙ found in
          let sought : seek at file.lines ≡ drop offset file.lines =
            let z : at ≡ at - 0 = omega arith in
            ap (λ k. seek k file.lines) z
            ∙ seek-starts_of 0 offset at file.lines (Reads-NonEmpty file.lines items s.reads)
                found in
          let size : end - offset ≡ min limit (length (drop offset items)) =
            omega (arith, length-drop offset items, counted) in
          let read : read_rows loads hexdigest (end - offset) (seek at file.lines)
              ≡ ok (take limit (drop offset items)) =
            ap₂ (λ k ls. read_rows loads hexdigest k ls) size sought
            ∙ read_rows-Reads (min limit (length (drop offset items))) (drop offset file.lines)
                (drop offset items) (Reads-drop offset file.lines items s.reads) (omega arith)
            ∙ ap ok (take_clip limit (drop offset items)) in
          let within : ltb offset (length inv.offsets) ≡ true =
            lt→ltb offset (length inv.offsets) (omega (arith, counted)) in
          rw
            (
              s.identity,
              ==_self file.identity,
              within,
              le→leb 1 limit low,
              le→leb limit 1000 high,
              there,
              read,
            )
            (ap (λ k. ok (take limit (drop offset items), min (offset + limit) k)) counted)

      -- A page holds the next 200 rows, or those that are left. It gives a cursor, the row behind
      -- it, exactly when rows are left.
      pub page-Snapshot :
          (offset : ℕ)
          → offset < length items
          → page loads hexdigest inv file offset
            ≡ ok (record {
              blocks = take page_size (drop offset items);
              cursor =
                  if ltb (offset + page_size) (length items)
                  then some (offset + page_size)
                  else none;
              truncated = ltb (offset + page_size) (length items);
            })
      unfolding page
      page-Snapshot offset inside =
          let counted = length-offsets loads hexdigest file inv items s in
          rw (rows-Snapshot offset page_size inside (omega arith) (omega arith), counted)
            (ground arith)

      list_pages_from :
          (pages offset : ℕ) (seen : List Item)
          → offset < length items
          → length items ≤ offset + pages * page_size
          → list_pages inv file pages offset seen ≡ ok (seen ++ drop offset items)
      unfolding list_pages
      list_pages_from zero offset seen inside fuel = absurd (omega arith)
      list_pages_from (suc pages) offset seen inside fuel =
          elim (Bool-cases (ltb (offset + page_size) (length items))) [
            | inl more ↦
                let joined : (seen ++ take page_size (drop offset items))
                      ++ drop (offset + page_size) items
                    ≡ seen ++ drop offset items =
                  append_assoc seen (take page_size (drop offset items)) _
                  ∙ ap (λ r. seen ++ (take page_size (drop offset items) ++ r))
                      (sym (drop-add offset page_size items))
                  ∙ ap (λ r. seen ++ r) (take-append-drop page_size (drop offset items)) in
                rw (page-Snapshot offset inside, more)
                  (list_pages_from pages (offset + page_size)
                      (seen ++ take page_size (drop offset items)) (ltb→lt _ _ more) (omega arith)
                    ∙ ap ok joined)
            | inr done ↦
                rw (page-Snapshot offset inside, done)
                  (ap (λ r. ok (seen ++ r))
                    (take_all page_size (drop offset items)
                      (omega (arith, length-drop offset items, not_ltb→le _ _ done))))
          ]

      -- On an unchanged file, whose rows are not none, a reader that begins at 0 and follows the
      -- cursors, up to enough pages for all rows, has every row of the inventory, once and in
      -- order.
      pub list_pages-eq_items :
          (pages : ℕ)
          → 0 < length items
          → length items ≤ pages * page_size
          → list_pages inv file pages 0 [] ≡ ok items
      list_pages-eq_items pages some_row enough = list_pages_from pages 0 [] some_row (omega arith)
