-- ===== src/Audit/Rows.antt =====
-- What the counters of `audit_inventory` count.
use yataverse_distribution.Prelude.{
  ℕ, ◌+◌, ◌-◌, ◌≡◌, ◌≤◌, refl, sym, ap, ◌∙◌, Bool, true, not, ◌&&◌, ◌==◌, Option, List, [], ◌∷◌,
  ◌++◌, append_assoc, append-nil, String, ltb, leb, length, take, take_all, take-append_le,
  length-append, Bytes, ok, ok_inj, Result-cases, Bool-cases, inl, inr, arith, if◌then◌else◌,
}
use text.Mathlib.Text.{◌==◌ as text_eq}
use text.Mathlib.TextEquality.{eq_iff}
use yataverse_distribution.Json.{Dict, is_sha256}
use yataverse_distribution.Inventory.{Item, concat_lines}
use yataverse_distribution.Inventory.Load.{total_of}
use yataverse_distribution.Replicate.Put.{contains}
use yataverse_distribution.Audit.{
  RawBlocks, raw_cids, Tally, no_rows, Report, complete, partial, add_missing, row_of, check_raw,
  audit_row, audit_lines, audit_inventory, report_of, count_pinned, count_raw, count_missing,
}

-- The rows of a kind, in order.
abbrev pub select_rows : (String → Bool) → List Item → List Item
select_rows p [] = []
select_rows p (item ∷ items) =
    if p item.cid then item ∷ select_rows p items else select_rows p items

abbrev pub cids_of : List Item → List String
cids_of [] = []
cids_of (item ∷ items) = item.cid ∷ cids_of items

add_missing-take :
    (missing : List String) (cid : String) (later : List String)
    → take 3 (missing ++ (cid ∷ later)) ≡ take 3 (add_missing missing cid ++ later)
unfolding add_missing
add_missing-take missing cid later = elim (Bool-cases (ltb (length missing) 3)) [
  | inl e ↦ rw e (ap (take 3) (sym (append_assoc missing (cid ∷ []) later)))
  | inr e ↦ rw e (
      take-append_le 3 missing (cid ∷ later) (ground arith)
      ∙ sym (take-append_le 3 missing later (ground arith)))
]

add_missing-short :
    (missing : List String) (cid : String)
    → length missing ≤ 3
    → length (add_missing missing cid) ≤ 3
unfolding add_missing
add_missing-short missing cid h = elim (Bool-cases (ltb (length missing) 3)) [
  | inl e ↦ rw e (omega (arith, length-append missing (cid ∷ []), ltb_le e))
  | inr e ↦ rw e h
]
  where
    ltb_le : ltb (length missing) 3 ≡ true → length missing + 1 ≤ 3
    ltb_le e = ground arith

module _ (pins : List String) (raw : Option RawBlocks) where
  abbrev pub is_pinned_cid : String → Bool
  is_pinned_cid cid = contains cid pins

  -- Not pinned, but in the raw store.
  abbrev pub is_raw_cid : String → Bool
  is_raw_cid cid = not (contains cid pins) && contains cid (raw_cids raw)

  abbrev pub is_missing_cid : String → Bool
  is_missing_cid cid = not (contains cid pins) && not (contains cid (raw_cids raw))

  -- The counters have grown by these rows, each under its kind.
  pub record Counted (items : List Item) (t t' : Tally) : Type 0 where
    pub rows : t'.count ≡ t.count + length items
    pub bytes : t'.total_bytes ≡ t.total_bytes + total_of items
    pub pinned_rows : t'.pinned_count ≡ t.pinned_count + length (select_rows is_pinned_cid items)
    pub pinned_bytes : t'.pinned_bytes ≡ t.pinned_bytes + total_of (select_rows is_pinned_cid items)
    pub raw_rows : t'.raw_count ≡ t.raw_count + length (select_rows is_raw_cid items)
    pub raw_bytes : t'.raw_bytes ≡ t.raw_bytes + total_of (select_rows is_raw_cid items)
    pub sample :
        take 3 (t.missing ++ cids_of (select_rows is_missing_cid items)) ≡ take 3 t'.missing
    pub short : length t.missing ≤ 3 → length t'.missing ≤ 3

  module _ (sha256 : Bytes → Bytes) (b32decode : List ℕ → Option Bytes) (hexdigest : Bytes → String)
      (loads : Bytes → Option Dict) where
    -- The rows of the lines, in order.
    abbrev pub Reads : List Bytes → List Item → Type 0
    Reads [] [] = Unit
    Reads [] (item ∷ items) = ⊥
    Reads (line ∷ lines) [] = ⊥
    Reads (line ∷ lines) (item ∷ items) =
        (row_of sha256 b32decode hexdigest loads (loads line) ≡ ok item) × Reads lines items

    one_row-Counted :
        (item : Item) (items : List Item) (t next t' : Tally)
        → audit_row sha256 b32decode hexdigest loads pins raw item t ≡ ok next
        → Counted items next t'
        → Counted (item ∷ items) t t'
    unfolding audit_row
    one_row-Counted item items t next t' h k = elim (Bool-cases (contains item.cid t.seen)) [
      | inl seen ↦ cc (rw seen at h)
      | inr new ↦ elim (Bool-cases (contains item.cid pins)) [
        | inl pinned ↦
            let is = ok_inj (rw (new, pinned) at h) in
            let k' : Counted items (count_pinned item t) t' = rw is k in
            record {
              rows = omega (arith, k'.rows);
              bytes = omega (arith, k'.bytes);
              pinned_rows = rw pinned (omega (arith, k'.pinned_rows));
              pinned_bytes = rw pinned (omega (arith, k'.pinned_bytes));
              raw_rows = rw pinned (k'.raw_rows);
              raw_bytes = rw pinned (k'.raw_bytes);
              sample = rw pinned (k'.sample);
              short = k'.short;
            }
        | inr loose ↦ elim (Bool-cases (contains item.cid (raw_cids raw))) [
          | inl stored ↦ elim (Result-cases (check_raw sha256 b32decode hexdigest loads raw item)) [
            | inr (e, bad) ↦ cc (rw (new, loose, stored, bad) at h)
            | inl (u, good) ↦
                let is = ok_inj (rw (new, loose, stored, good) at h) in
                let k' : Counted items (count_raw item t) t' = rw is k in
                record {
                  rows = omega (arith, k'.rows);
                  bytes = omega (arith, k'.bytes);
                  pinned_rows = rw loose (k'.pinned_rows);
                  pinned_bytes = rw loose (k'.pinned_bytes);
                  raw_rows = rw (loose, stored) (omega (arith, k'.raw_rows));
                  raw_bytes = rw (loose, stored) (omega (arith, k'.raw_bytes));
                  sample = rw (loose, stored) (k'.sample);
                  short = k'.short;
                }
          ]
          | inr gone ↦
              let is = ok_inj (rw (new, loose, gone) at h) in
              let k' : Counted items (count_missing item t) t' = rw is k in
              record {
                rows = omega (arith, k'.rows);
                bytes = omega (arith, k'.bytes);
                pinned_rows = rw loose (k'.pinned_rows);
                pinned_bytes = rw loose (k'.pinned_bytes);
                raw_rows = rw (loose, gone) (k'.raw_rows);
                raw_bytes = rw (loose, gone) (k'.raw_bytes);
                sample =
                    rw (loose, gone)
                      (add_missing-take t.missing item.cid
                          (cids_of (select_rows is_missing_cid items))
                        ∙ k'.sample);
                short = λ few. k'.short (add_missing-short t.missing item.cid few);
              }
        ]
      ]
    ]

    pub audit_lines-Counted :
        (lines : List Bytes) (t t' : Tally)
        → audit_lines sha256 b32decode hexdigest loads pins raw lines t ≡ ok t'
        → (items : List Item) × Reads lines items × Counted items t t'
    unfolding audit_lines
    audit_lines-Counted [] t t' h =
        let is : t ≡ t' = ok_inj h in
        (
          [],
          tt,
          rw (← is) (record {
            rows = omega arith;
            bytes = omega arith;
            pinned_rows = omega arith;
            pinned_bytes = omega arith;
            raw_rows = omega arith;
            raw_bytes = omega arith;
            sample = ap (take 3) (append-nil t.missing);
            short = λ few. few;
          }),
        )
    audit_lines-Counted (line ∷ lines) t t' h =
        elim (Result-cases (row_of sha256 b32decode hexdigest loads (loads line))) [
          | inr (e, bad) ↦ cc (rw bad at h)
          | inl (item, read) ↦
              elim (Result-cases (audit_row sha256 b32decode hexdigest loads pins raw item t)) [
                | inr (e, bad) ↦ cc (rw (read, bad) at h)
                | inl (next, done) ↦
                    let (items, all, k) =
                      audit_lines-Counted lines next t' (rw (read, done) at h) in
                    (item ∷ items, (read, all), one_row-Counted item items t next t' done k)
              ]
        ]

    -- What the report says of these rows.
    pub record Describes (items : List Item) (report : Report) : Type 0 where
      pub rows : report.inventory_rows ≡ length items
      pub bytes : report.inventory_bytes ≡ total_of items
      pub pinned_rows : report.pinned_rows ≡ length (select_rows is_pinned_cid items)
      pub pinned_bytes : report.pinned_bytes ≡ total_of (select_rows is_pinned_cid items)
      pub raw_rows : report.raw_rows ≡ length (select_rows is_raw_cid items)
      pub raw_bytes : report.raw_bytes ≡ total_of (select_rows is_raw_cid items)
      pub missing_rows : report.missing_rows ≡ length (select_rows is_missing_cid items)
      pub missing_bytes : report.missing_bytes ≡ total_of (select_rows is_missing_cid items)
      pub missing_sample :
          report.missing_sample ≡ take 3 (cids_of (select_rows is_missing_cid items))
      pub when_complete : report.status ≡ complete → select_rows is_missing_cid items ≡ []
      pub when_partial : report.status ≡ partial → 1 ≤ length (select_rows is_missing_cid items)

    -- Each row is of one kind.
    rows_of_kinds :
        (items : List Item)
        → length items
          ≡ length (select_rows is_pinned_cid items)
            + length (select_rows is_raw_cid items)
            + length (select_rows is_missing_cid items)
    rows_of_kinds [] = omega arith
    rows_of_kinds (item ∷ items) = elim (Bool-cases (contains item.cid pins)) [
      | inl e ↦ rw e (omega (arith, rows_of_kinds items))
      | inr e ↦ elim (Bool-cases (contains item.cid (raw_cids raw))) [
        | inl f ↦ rw (e, f) (omega (arith, rows_of_kinds items))
        | inr f ↦ rw (e, f) (omega (arith, rows_of_kinds items))
      ]
    ]

    bytes_of_kinds :
        (items : List Item)
        → total_of items
          ≡ total_of (select_rows is_pinned_cid items)
            + total_of (select_rows is_raw_cid items)
            + total_of (select_rows is_missing_cid items)
    bytes_of_kinds [] = omega arith
    bytes_of_kinds (item ∷ items) = elim (Bool-cases (contains item.cid pins)) [
      | inl e ↦ rw e (omega (arith, bytes_of_kinds items))
      | inr e ↦ elim (Bool-cases (contains item.cid (raw_cids raw))) [
        | inl f ↦ rw (e, f) (omega (arith, bytes_of_kinds items))
        | inr f ↦ rw (e, f) (omega (arith, bytes_of_kinds items))
      ]
    ]

    none_left : (items : List Item) → length items ≡ 0 → items ≡ []
    none_left [] h = refl
    none_left (item ∷ items) h = absurd (omega (arith, h))

    status_at : (n : ℕ) → (if n == 0 then complete else partial) ≡ complete → n ≡ 0
    status_at n h = ground arith

    status_past : (n : ℕ) → (if n == 0 then complete else partial) ≡ partial → 1 ≤ n
    status_past n h = ground arith

    report_of-Describes :
        (items : List Item) (digest : String) (t : Tally)
        → Counted items no_rows t
        → Describes items (report_of digest t)
    report_of-Describes items digest t k =
        let m : t.count - t.pinned_count - t.raw_count ≡ length (select_rows is_missing_cid items) =
          omega (arith, k.rows, k.pinned_rows, k.raw_rows, rows_of_kinds items) in
        record {
          rows = omega (arith, k.rows);
          bytes = omega (arith, k.bytes);
          pinned_rows = omega (arith, k.pinned_rows);
          pinned_bytes = omega (arith, k.pinned_bytes);
          raw_rows = omega (arith, k.raw_rows);
          raw_bytes = omega (arith, k.raw_bytes);
          missing_rows = m;
          missing_bytes = omega (arith, k.bytes, k.pinned_bytes, k.raw_bytes, bytes_of_kinds items);
          missing_sample = sym (k.sample ∙ take_all 3 t.missing (k.short (omega arith)));
          when_complete = λ e.
              none_left (select_rows is_missing_cid items)
                (sym m ∙ status_at (t.count - t.pinned_count - t.raw_count) e);
          when_partial =
              λ e. omega (arith, m, status_past (t.count - t.pinned_count - t.raw_count) e);
        }

    -- A report of `audit_inventory` describes the rows of a file that has the declared digest and
    -- number of rows: those that are pinned, those that only the raw store has, and the missing
    -- ones, with their bytes and up to three of the missing CIDs. It says `complete` exactly when
    -- no row is missing.
    pub audit_inventory-Describes :
        (lines : List Bytes) (digest : String) (n : ℕ) (report : Report)
        → audit_inventory sha256 b32decode hexdigest loads lines digest n pins raw ≡ ok report
        → (items : List Item) × Reads lines items
          × (length items ≡ n)
          × (hexdigest (concat_lines lines) ≡ digest)
          × Describes items report
    unfolding audit_inventory
    audit_inventory-Describes lines digest n report h =
        elim (Bool-cases (leb 1 n && is_sha256 digest)) [
          | inr bad ↦ cc (rw bad at h)
          | inl good ↦
              elim (Result-cases
                (audit_lines sha256 b32decode hexdigest loads pins raw lines no_rows)) [
                  | inr (e, bad) ↦ cc (rw (good, bad) at h)
                  | inl (t, done) ↦
                      elim (Bool-cases
                        (t.count == n && text_eq (hexdigest (concat_lines lines)) digest)) [
                          | inr bad ↦ cc (rw (good, done, bad) at h)
                          | inl same ↦
                              let is = ok_inj (rw (good, done, same) at h) in
                              let (items, all, k) = audit_lines-Counted lines no_rows t done in
                              (
                                items,
                                all,
                                ground (arith, k.rows, same),
                                ground
                                    (arith, same, eq_iff (hexdigest (concat_lines lines)) digest),
                                rw (← is) (
                                    report_of-Describes items (hexdigest (concat_lines lines)) t k),
                              )
                        ]
                ]
        ]
