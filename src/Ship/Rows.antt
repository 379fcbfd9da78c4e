-- ===== src/Ship/Rows.antt =====
-- Which rows a CAR file gets.
pub mod Lists
use yataverse_distribution.Prelude.{
  ℕ, zero, suc, ◌+◌, ◌-◌, ◌*◌, ◌≡◌, ◌≤◌, ◌⊎◌, inl, inr, refl, ap, ◌∙◌, true, false, ◌&&◌, ◌||◌,
  ◌==◌, Option, none, some, List, [], ◌∷◌, ◌++◌, String, ltb, leb, length, length-append, get_elem?,
  drop, is_empty, All, Bytes, ok, ok_inj, Result-cases, Bool-cases, arith, subst₂,
}
use text.Mathlib.Text.{◌==◌ as text_eq}
use yataverse_distribution.Json.{Dict, lookup, text_of, int_of}
use yataverse_distribution.Inventory.{Item, concat_lines}
use yataverse_distribution.Inventory.Load.{total_of}
use yataverse_distribution.Replicate.Put.{contains}
use yataverse_distribution.Ship.{
  Picked, Skipped, verified_raw_block_store, oversized_for_car, unchecked_entry, skipped_row,
  second_row, max_car_block, entry_of, pick, in_window, pick_line, pick_lines, second_pass,
  selected_rows,
}
use yataverse_distribution.Ship.Rows.Lists.{
  get_elem?-drop, drop-next, get_elem?-snoc, total_of-snoc, All-snoc,
}

module _ (loads : Bytes → Option Dict) (hexdigest : Bytes → String) (lines : List Bytes)
    (raw_cids : List String) (start max_blocks max_bytes : ℕ) where
  -- The rows are those of the lines from `start` on, one after the other. A CAR file may carry each
  -- of them, and together they keep the bounds.
  pub record IsRange (p : Picked) : Type 0 where
    pub at :
        (k : ℕ) (item : Item)
        → get_elem? p.rows k ≡ some item
        → (line : Bytes) × (get_elem? lines (start + k) ≡ some line)
          × (entry_of (loads line) ≡ ok item)
    pub blocks : length p.rows ≤ max_blocks
    pub sum : p.total ≡ total_of p.rows
    pub room : p.total + 1024 * length p.rows ≤ max_bytes
    pub each :
        All
          (λ (item : Item). (item.size ≤ max_car_block) × (contains item.cid raw_cids ≡ false))
          p.rows

  fits : (m n a b : ℕ) → (ltb m n || ltb a b) ≡ false → (n ≤ m) × (b ≤ a)
  fits m n a b h = ground arith

  pick-IsRange :
      (count : ℕ) (line : Bytes) (item : Item) (p : Picked)
      → get_elem? lines count ≡ some line
      → entry_of (loads line) ≡ ok item
      → in_window start max_blocks max_bytes count p ≡ true
      → IsRange p
      → IsRange (pick raw_cids start max_bytes count item p)
  unfolding pick in_window
  pick-IsRange count line item p here entry window r =
      elim (Bool-cases (contains item.cid raw_cids)) [
        | inl e ↦ rw e r
        | inr loose ↦
            elim (Bool-cases (
              ltb max_car_block item.size
              || ltb max_bytes (p.total + item.size + 1024 * (length p.rows + 1)))) [
                | inl e ↦ rw (loose, e) r
                | inr small ↦ elim (Bool-cases (length p.rows == count - start)) [
                  | inr e ↦ rw (loose, small, e) r
                  | inl next ↦
                      let (of_car, in_budget) =
                        fits max_car_block item.size max_bytes
                          (p.total + item.size + 1024 * (length p.rows + 1)) small in
                      let long = length-append p.rows (item ∷ []) in
                      let place : start + length p.rows ≡ count = ground (arith, window, next) in
                      rw (loose, small, next)
                        (record {
                          at = λ k y h. elim (get_elem?-snoc p.rows item y k h) [
                            | inl there ↦ r.at k y there
                            | inr (e, same) ↦ (line, rw (e, place) here, entry ∙ ap ok same)
                          ];
                          blocks = omega (arith, long, below next);
                          sum = omega (arith, total_of-snoc p.rows item, r.sum);
                          room = omega (arith, long, in_budget);
                          each =
                              All-snoc
                                (λ (i : Item).
                                  (i.size ≤ max_car_block) × (contains i.cid raw_cids ≡ false))
                                p.rows item r.each (of_car, loose);
                        })
                ]
              ]
      ]
    where
      below : (length p.rows == count - start) ≡ true → length p.rows + 1 ≤ max_blocks
      below e = ground (arith, window, e)

  pick_line-IsRange :
      (count : ℕ) (line : Bytes) (p p' : Picked)
      → get_elem? lines count ≡ some line
      → pick_line loads hexdigest raw_cids start max_blocks max_bytes count line p ≡ ok p'
      → IsRange p
      → IsRange p'
  unfolding pick_line
  pick_line-IsRange count line p p' here h r =
      elim (Bool-cases (in_window start max_blocks max_bytes count p)) [
        | inr out ↦ rw (← ok_inj (rw out at h)) r
        | inl window ↦ elim (Result-cases (entry_of (loads line))) [
          | inr (x, bad) ↦ cc (rw (window, bad) at h)
          | inl (item, entry) ↦
              rw (← ok_inj (rw (window, entry) at h))
                (pick-IsRange count line item p here entry window r)
        ]
      ]

  pick_lines-IsRange :
      (count : ℕ) (rest : List Bytes) (p p' : Picked)
      → drop count lines ≡ rest
      → pick_lines loads hexdigest raw_cids start max_blocks max_bytes count rest p ≡ ok p'
      → IsRange p
      → IsRange p'
  unfolding pick_lines
  pick_lines-IsRange count [] p p' e h r = rw (← ok_inj h) r
  pick_lines-IsRange count (line ∷ rest) p p' e h r =
      elim (Result-cases
        (pick_line loads hexdigest raw_cids start max_blocks max_bytes count line p)) [
          | inr (x, bad) ↦ cc (rw bad at h)
          | inl (next, picked) ↦
              pick_lines-IsRange (suc count) rest next p' (drop-next count lines line rest e)
                (rw picked at h)
                (pick_line-IsRange count line p next (get_elem?-drop count lines line rest e) picked
                  r)
        ]

  nothing_picked : IsRange (record { rows = []; total = 0 })
  nothing_picked = record {
    at = λ k item h. cc;
    blocks = omega arith;
    sum = refl;
    room = omega arith;
    each = tt;
  }

  -- Why a row is skipped.
  unfoldable pub Justified : Skipped → Type 0
  Justified s = elim s.reason [
    | verified_raw_block_store ↦ contains s.item.cid raw_cids ≡ true
    | oversized_for_car ↦ ltb max_car_block s.item.size ≡ true
  ]

  -- The skipped row is the one of the line at `start`, and skipped for a reason.
  pub record AtStart (s : Skipped) : Type 0 where
    pub line : Bytes
    pub fields : Dict
    pub here : get_elem? lines start ≡ some line
    pub parsed : loads line ≡ some fields
    pub cid : text_of (lookup "cid" fields) ≡ some s.item.cid
    pub size : int_of (lookup "bytes" fields) ≡ some s.item.size
    pub row : s.row ≡ start
    pub justified : Justified s

  -- What a choice says: a range of rows, or the one row that is skipped, or that there is none
  -- left.
  pub data Chosen : List Item → Option Skipped → Type 0 where
    chosen_range : (p : Picked) → 1 ≤ length p.rows → IsRange p → Chosen p.rows none
    chosen_skip : (s : Skipped) → AtStart s → Chosen [] (some s)
    chosen_end : length lines ≤ start → Chosen [] none

  some_rows : (rows : List Item) → is_empty rows ≡ false → 1 ≤ length rows
  some_rows [] h = cc
  some_rows (x ∷ rows) h = omega arith

  skipped_row-Justified :
      (item : Item) (s : Skipped)
      → skipped_row loads hexdigest raw_cids start item ≡ ok s
      → (s.row ≡ start) × (item ≡ s.item) × Justified s
  unfolding skipped_row Justified
  skipped_row-Justified item s h = elim (Bool-cases (contains item.cid raw_cids)) [
    | inl kept ↦ let is = ok_inj (rw kept at h) in rw (← is) (refl, refl, kept)
    | inr loose ↦ elim (Bool-cases (ltb max_car_block item.size)) [
      | inl large ↦ let is = ok_inj (rw (loose, large) at h) in rw (← is) (refl, refl, large)
      | inr small ↦ cc (rw (loose, small) at h)
    ]
  ]

  unchecked_entry-eq_ok :
      (cid : Option String) (size : Option ℕ) (item : Item)
      → unchecked_entry cid size ≡ ok item
      → (cid ≡ some item.cid) × (size ≡ some item.size)
  unfolding unchecked_entry
  unchecked_entry-eq_ok none size item h = cc
  unchecked_entry-eq_ok (some cid) none item h = cc
  unchecked_entry-eq_ok (some cid) (some size) item h =
      (ap (λ i. some i.cid) (ok_inj h), ap (λ i. some i.size) (ok_inj h))

  second_row-AtStart :
      (line : Bytes) (row : Option Dict) (s : Skipped)
      → get_elem? lines start ≡ some line
      → loads line ≡ row
      → second_row loads hexdigest raw_cids start row ≡ ok s
      → AtStart s
  unfolding second_row
  second_row-AtStart line none s here parsed h = cc
  second_row-AtStart line (some row) s here parsed h =
      elim (Result-cases
        (unchecked_entry (text_of (lookup "cid" row)) (int_of (lookup "bytes" row)))) [
          | inr (x, bad) ↦ cc (rw bad at h)
          | inl (item, entry) ↦
              let (at, same, why) = skipped_row-Justified item s (rw entry at h) in
              let (cid, size) = unchecked_entry-eq_ok _ _ item entry in
              record {
                line = line;
                fields = row;
                here = here;
                parsed = parsed;
                cid = cid ∙ ap (λ i. some i.cid) same;
                size = size ∙ ap (λ i. some i.size) same;
                row = at;
                justified = why;
              }
        ]

  second_pass-AtStart :
      (line : Option Bytes) (s : Skipped)
      → get_elem? lines start ≡ line
      → second_pass loads hexdigest raw_cids start line ≡ ok s
      → AtStart s
  unfolding second_pass
  second_pass-AtStart none s here h = cc
  second_pass-AtStart (some line) s here h = second_row-AtStart line (loads line) s here refl h

  pub selected_rows-Chosen :
      (digest : String) (n : ℕ) (rows : List Item) (skipped : Option Skipped)
      → selected_rows loads hexdigest lines digest n start max_blocks max_bytes raw_cids
        ≡ ok (rows, skipped)
      → (length lines ≡ n) × Chosen rows skipped
  unfolding selected_rows
  selected_rows-Chosen digest n rows skipped h =
      elim (Result-cases (
        pick_lines loads hexdigest raw_cids start max_blocks max_bytes 0 lines
          (record { rows = []; total = 0 }))) [
            | inr (x, bad) ↦ cc (rw bad at h)
            | inl (p, picked) ↦
                elim (Bool-cases
                  (text_eq (hexdigest (concat_lines lines)) digest && length lines == n)) [
                    | inr bad ↦ cc (rw (picked, bad) at h)
                    | inl same ↦
                        let counted : length lines ≡ n = ground (arith, same) in
                        elim (Bool-cases (leb (length lines) start)) [
                          | inl past ↦
                              let is = ok_inj (rw (picked, same, past) at h) in
                              (
                                counted,
                                subst₂ Chosen (ap (λ r. r.0) is) (ap (λ r. r.1) is)
                                    (chosen_end (ground (arith, past))),
                              )
                          | inr inside ↦ elim (Bool-cases (is_empty p.rows)) [
                            | inr full ↦
                                let is = ok_inj (rw (picked, same, inside, full) at h) in
                                (
                                  counted,
                                  subst₂ Chosen (ap (λ r. r.0) is) (ap (λ r. r.1) is) (
                                      chosen_range p (some_rows p.rows full) (
                                        pick_lines-IsRange 0 lines (record { rows = []; total = 0 })
                                          p refl picked nothing_picked)),
                                )
                            | inl empty ↦
                                elim (Result-cases (
                                  second_pass loads hexdigest raw_cids start
                                    (get_elem? lines start))) [
                                      | inr (x, bad) ↦
                                          cc (rw (picked, same, inside, empty, bad) at h)
                                      | inl (s, found) ↦
                                          let is =
                                            ok_inj (rw (picked, same, inside, empty, found) at h) in
                                          (
                                            counted,
                                            subst₂ Chosen (ap (λ r. r.0) is) (ap (λ r. r.1) is) (
                                                chosen_skip s (
                                                  second_pass-AtStart (get_elem? lines start) s refl
                                                    found)),
                                          )
                                    ]
                          ]
                        ]
                  ]
          ]
