-- ===== src/Replicate/Migration/Kept.antt =====
-- What a move to the next inventory keeps.
use text.Mathlib.Text.{◌==◌ as text_eq}
use text.Mathlib.TextEquality.{eq_iff}
use yataverse_distribution.Prelude.{
  ℕ, ◌≡◌, ◌++◌, not, ltb, ◌&&◌, is_empty, append_assoc, append-nil, subst, refl, sym, ap, ◌∙◌, true,
  Option, none, some, List, [], ◌∷◌, String, Bytes, bytes_eq, bytes_eq→eq, ok, ok_inj, Result-cases,
  Bool-cases, inl, inr, arith,
}
use yataverse_distribution.Json.{Json, Dict, lookup, is_text, has_key, text_of, int_of, is_sha256}
use yataverse_distribution.Replicate.{State, valid_cid}
use yataverse_distribution.Inventory.{concat_lines}
use yataverse_distribution.Replicate.Migration.{
  Inventories, Files, Prepared, is_offset_cursor, back_up, is_size, keeps_sizes, inventory_sizes,
  add_entry, add_line, add_lines, digest_of, migrate, marker_of,
}

is_size-eq : (size : ℕ) (found : Option ℕ) → is_size size found ≡ true → found ≡ some size
unfolding is_size
is_size-eq size none h = cc
is_size-eq size (some n) h = let is : n ≡ size = ground arith in rw is refl

-- Each entry of the old sizes is one of the new sizes.
lookup-keeps_sizes :
    (old new : List (String × ℕ)) (cid : String) (size : ℕ)
    → keeps_sizes old new ≡ true
    → lookup cid old ≡ some size
    → lookup cid new ≡ some size
unfolding keeps_sizes lookup
lookup-keeps_sizes [] new cid size k h = cc
lookup-keeps_sizes ((key, n) ∷ old) new cid size k h =
    elim (Bool-cases (is_size n (lookup key new))) [
      | inr gone ↦ cc (rw gone at k)
      | inl here ↦ elim (Bool-cases (text_eq key cid)) [
        | inl same ↦
            let is : key ≡ cid = ground (arith, eq_iff key cid) in
            let n_is : n ≡ size = cc (rw same at h) in
            rw (← is, ← n_is) (is_size-eq n (lookup key new) here)
        | inr other ↦ lookup-keeps_sizes old new cid size (rw here at k) (rw other at h)
      ]
    ]

back_up-eq_ok :
    (old : Bytes) (before after : Option Bytes)
    → back_up (some old) before ≡ ok after
    → after ≡ some old
unfolding back_up
back_up-eq_ok old none after h = sym (ok_inj h)
back_up-eq_ok old (some b) after h = elim (Bool-cases (bytes_eq b old)) [
  | inr e ↦ cc (rw e at h)
  | inl e ↦ let is = bytes_eq→eq b old e in sym (ok_inj (rw e at h)) ∙ ap some is
]

module _ (loads : Bytes → Option Dict) (hexdigest : Bytes → String)
    (payload_of : String → Option (Option Dict)) (decimal : ℕ → String) where
  -- The sizes are those of the lines, one entry for each and in order.
  abbrev pub Listed : List Bytes → List (String × ℕ) → Type 0
  Listed [] [] = Unit
  Listed [] (entry ∷ sizes) = ⊥
  Listed (line ∷ lines) [] = ⊥
  Listed (line ∷ lines) ((cid, size) ∷ sizes) =
      ((row : Dict) × (loads line ≡ some row)
        × (text_of (lookup "cid" row) ≡ some cid)
        × (int_of (lookup "bytes" row) ≡ some size))
      × Listed lines sizes

  -- An inventory that was read in full and has the expected digest.
  pub record IsRead (lines : List Bytes) (expected : Option String) (sizes : List (String × ℕ))
      : Type 0 where
    pub digest : String
    pub is_expected : expected ≡ some digest
    pub hashes : hexdigest (concat_lines lines) ≡ digest
    pub listed : Listed lines sizes

  add_entry-eq_ok :
      (cid : Option String) (size : Option ℕ) (sizes sizes' : List (String × ℕ))
      → add_entry loads hexdigest payload_of decimal cid size sizes ≡ ok sizes'
      → (c : String) × (n : ℕ) × (cid ≡ some c)
        × (size ≡ some n)
        × (sizes' ≡ sizes ++ ((c, n) ∷ []))
  unfolding add_entry
  add_entry-eq_ok none size sizes sizes' h = cc
  add_entry-eq_ok (some c) none sizes sizes' h = cc
  add_entry-eq_ok (some c) (some n) sizes sizes' h =
      elim (Bool-cases (valid_cid (some c) && ltb 0 n && not (has_key c sizes))) [
        | inr bad ↦ cc (rw bad at h)
        | inl good ↦ (c, n, refl, refl, sym (ok_inj (rw good at h)))
      ]

  add_line-eq_ok :
      (row : Option Dict) (sizes sizes' : List (String × ℕ))
      → add_line loads hexdigest payload_of decimal row sizes ≡ ok sizes'
      → (d : Dict) × (c : String) × (n : ℕ) × (row ≡ some d)
        × (text_of (lookup "cid" d) ≡ some c)
        × (int_of (lookup "bytes" d) ≡ some n)
        × (sizes' ≡ sizes ++ ((c, n) ∷ []))
  unfolding add_line
  add_line-eq_ok none sizes sizes' h = cc
  add_line-eq_ok (some d) sizes sizes' h =
      elim (Bool-cases (has_key "cid" d && has_key "bytes" d)) [
        | inr bad ↦ cc (rw bad at h)
        | inl good ↦
            let (c, n, cid, size, is) = add_entry-eq_ok _ _ sizes sizes' (rw good at h) in
            (d, c, n, refl, cid, size, is)
      ]

  add_lines-Listed :
      (lines : List Bytes) (before sizes : List (String × ℕ))
      → add_lines loads hexdigest payload_of decimal lines before ≡ ok sizes
      → (more : List (String × ℕ)) × (sizes ≡ before ++ more) × Listed lines more
  unfolding add_lines
  add_lines-Listed [] before sizes h = ([], sym (ok_inj h) ∙ sym (append-nil before), tt)
  add_lines-Listed (line ∷ lines) before sizes h =
      elim (Result-cases (add_line loads hexdigest payload_of decimal (loads line) before)) [
        | inr (x, bad) ↦ cc (rw bad at h)
        | inl (next, added) ↦
            let (d, c, n, row, cid, size, is) = add_line-eq_ok (loads line) before next added in
            let (more, all, listed) = add_lines-Listed lines next sizes (rw added at h) in
            (
              (c, n) ∷ more,
              all ∙ ap (λ xs. xs ++ more) is ∙ append_assoc before ((c, n) ∷ []) more,
              ((d, row, cid, size), listed),
            )
      ]

  digest_of-eq_ok :
      (expected : Option String) (digest : String)
      → digest_of expected ≡ ok digest
      → expected ≡ some digest
  unfolding digest_of
  digest_of-eq_ok none digest h = cc
  digest_of-eq_ok (some s) digest h = elim (Bool-cases (is_sha256 s)) [
    | inr bad ↦ cc (rw bad at h)
    | inl good ↦ ap some (ok_inj (rw good at h))
  ]

  inventory_sizes-IsRead :
      (lines : List Bytes) (expected : Option String) (sizes : List (String × ℕ))
      → inventory_sizes loads hexdigest payload_of decimal lines expected ≡ ok sizes
      → IsRead lines expected sizes
  unfolding inventory_sizes
  inventory_sizes-IsRead lines expected sizes h = elim (Result-cases (digest_of expected)) [
    | inr (x, bad) ↦ cc (rw bad at h)
    | inl (digest, named) ↦
        elim (Result-cases (add_lines loads hexdigest payload_of decimal lines [])) [
          | inr (x, bad) ↦ cc (rw (named, bad) at h)
          | inl (all, added) ↦
              elim (Bool-cases
                (text_eq (hexdigest (concat_lines lines)) digest && not (is_empty all))) [
                  | inr bad ↦ cc (rw (named, added, bad) at h)
                  | inl same ↦
                      let is = ok_inj (rw (named, added, same) at h) in
                      let (more, alone, listed) = add_lines-Listed lines [] all added in
                      record {
                        digest = digest;
                        is_expected = digest_of-eq_ok expected digest named;
                        hashes =
                            ground (arith, same, eq_iff (hexdigest (concat_lines lines)) digest);
                        listed = subst (λ xs. Listed lines xs) (sym alone ∙ is) listed;
                      }
                ]
        ]
  ]

  -- A move to the next inventory that ends well has read both, line by line, and each has its
  -- digest; each CID of the old one is in the new one with the same size, the checkpoint as it was
  -- is in its backup, and the walk starts again at row 0 of the new one.
  pub migrate-Kept :
      (inv : Inventories) (files : Files) (st : State) (old_lines lines : List Bytes)
      (expected : String) (p : Prepared)
      → migrate loads hexdigest payload_of decimal inv files st old_lines lines expected ≡ ok p
      → (old new : List (String × ℕ)) × IsRead old_lines inv.previous_sha256 old
        × IsRead lines (some expected) new
        × ((cid : String) (size : ℕ) → lookup cid old ≡ some size → lookup cid new ≡ some size)
        × ((saved : Bytes) → files.checkpoint ≡ some saved → p.pre_inventory ≡ some saved)
        × (p.state.cursor ≡ some "0")
        × (p.state.listing_source ≡ some (Json.str (marker_of (some expected))))
  unfolding migrate
  migrate-Kept inv files st old_lines lines expected p h =
      elim (Bool-cases (is_offset_cursor st.cursor)) [
        | inr c ↦ cc (rw c at h)
        | inl c ↦
            elim (Result-cases
              (inventory_sizes loads hexdigest payload_of decimal old_lines inv.previous_sha256)) [
                | inr (x, o) ↦ cc (rw (c, o) at h)
                | inl (old, o) ↦
                    elim (Result-cases
                      (inventory_sizes loads hexdigest payload_of decimal lines (some expected))) [
                        | inr (x, n) ↦ cc (rw (c, o, n) at h)
                        | inl (new, n) ↦ elim (Bool-cases (keeps_sizes old new)) [
                          | inr k ↦ cc (rw (c, o, n, k) at h)
                          | inl k ↦ elim (Result-cases inv.served) [
                            | inr (x, s) ↦ cc (rw (c, o, n, k, s) at h)
                            | inl (served, s) ↦ elim (Bool-cases (is_text expected served)) [
                              | inr t ↦ cc (rw (c, o, n, k, s, t) at h)
                              | inl t ↦
                                  elim (Result-cases
                                    (back_up files.checkpoint files.pre_inventory)) [
                                      | inr (x, b) ↦ cc (rw (c, o, n, k, s, t, b) at h)
                                      | inl (backup, b) ↦
                                          let is = ok_inj (rw (c, o, n, k, s, t, b) at h) in
                                          (
                                            old,
                                            new,
                                            inventory_sizes-IsRead old_lines inv.previous_sha256 old
                                                o,
                                            inventory_sizes-IsRead lines (some expected) new n,
                                            (λ cid size. lookup-keeps_sizes old new cid size k),
                                            (λ saved e.
                                                sym (ap (λ q. q.pre_inventory) is)
                                                ∙ back_up-eq_ok saved files.pre_inventory backup
                                                    (rw e at b)),
                                            sym (ap (λ q. q.state.cursor) is),
                                            sym (ap (λ q. q.state.listing_source) is),
                                          )
                                    ]
                            ]
                          ]
                        ]
                      ]
              ]
      ]
