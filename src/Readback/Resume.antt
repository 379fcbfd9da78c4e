-- ===== src/Readback/Resume.antt =====
-- A run of the readback goes on from the file of the run before.
use yataverse_distribution.Prelude.{
  ℕ, ◌+◌, ◌≤◌, ◌≡◌, refl, ap, ◌∙◌, subst, Bool, true, ◌&&◌, ◌==◌, ==_self, Option, none, some, List,
  [], ◌∷◌, String, ltb, length, take, drop, Bytes, Result, ok, ok_inj, Result-cases, Bool-cases,
  inl, inr, arith,
}
use text.Mathlib.TextPositions.{eq_refl}
use text.Mathlib.TextEquality.{eq_iff}
use yataverse_distribution.Json.{
  Dict, is_sha256, all_codes, is_text, is_number, lookup, has_key, int_of, text_of,
}
use yataverse_distribution.Inventory.{Item, File, Inventory, rows}
use yataverse_distribution.Inventory.Load.{Snapshot, length-offsets}
use yataverse_distribution.Readback.{
  ReadbackError, State, Status, complete, scan, checked_block, count_present, count_missing, walk,
  advance, inventory_result,
}
use yataverse_distribution.Readback.Accounts.{Balanced, Counted, advance-Counted}
use yataverse_distribution.Readback.Checkpoint.{
  Identity, fresh_state, dict_of, has_keys_of, same_keys, same_identity, counter, scan_text,
  is_consistent, counters, load_state, same_state, save_state, scan_once,
}

abbrev Hex : State → Type 0
Hex st = is_sha256 st.scan_sha256 ≡ true

module _ (sha256 : Bytes → Bytes) (hexdigest : Bytes → String) (fromhex : String → Bytes)
    (b32decode : List ℕ → Option Bytes) (read : String → ℕ → Result ReadbackError (Option Bytes))
    (is_hex : (b : Bytes) → is_sha256 (hexdigest b) ≡ true) where
  walk-Hex :
      (max_bytes : ℕ) (stop : Bool) (items : List Item) (added : ℕ) (st st' : State)
      (stopped : Bool)
      → walk sha256 hexdigest fromhex b32decode read max_bytes stop items added st
        ≡ ok (st', stopped)
      → Hex st
      → Hex st'
  unfolding walk count_present count_missing scan
  walk-Hex max_bytes stop [] added st st' stopped h x = subst Hex (ap (λ r. r.0) (ok_inj h)) x
  walk-Hex max_bytes stop (row ∷ items) added st st' stopped h x =
      elim (Bool-cases (ltb 0 added && ltb max_bytes (added + row.size))) [
        | inl full ↦ subst Hex (ap (λ r. r.0) (ok_inj (rw full at h))) x
        | inr free ↦ elim (Bool-cases (ltb max_bytes row.size)) [
          | inl huge ↦ cc (rw (free, huge) at h)
          | inr fits ↦ elim (Result-cases (read row.cid row.size)) [
            | inr (e, r) ↦ cc (rw (free, fits, r) at h)
            | inl (none, r) ↦ elim (Bool-cases stop) [
              | inl stops ↦ subst Hex (ap (λ p. p.0) (ok_inj (rw (free, fits, r, stops) at h))) x
              | inr scans ↦
                  walk-Hex max_bytes stop items (added + row.size) _ st' stopped
                    (rw (free, fits, r, scans) at h) (is_hex _)
            ]
            | inl (some bytes, r) ↦
                elim (Result-cases
                  (checked_block sha256 hexdigest fromhex b32decode read row bytes)) [
                    | inr (e, c) ↦ cc (rw (free, fits, r, c) at h)
                    | inl (u, c) ↦
                        walk-Hex max_bytes stop items (added + row.size) _ st' stopped
                          (rw (free, fits, r, c) at h) (is_hex _)
                  ]
          ]
        ]
      ]

  advance-Hex :
      (loads : Bytes → Option Dict) (inv : Inventory) (file : File) (st st' : State)
      (max_rows max_bytes : ℕ) (stop : Bool) (status : Status)
      → advance sha256 hexdigest fromhex b32decode read loads inv file st max_rows max_bytes stop
        ≡ ok (st', status)
      → Hex st
      → Hex st'
  unfolding advance
  advance-Hex loads inv file st st' max_rows max_bytes stop status h x =
      elim (Bool-cases (st.cursor == length inv.offsets)) [
        | inl at_end ↦ subst Hex (ap (λ r. r.0) (ok_inj (rw at_end at h))) x
        | inr inside ↦
            elim (Result-cases
              (inventory_result (rows loads hexdigest inv file st.cursor max_rows))) [
                | inr (e, bad) ↦ cc (rw (inside, bad) at h)
                | inl (page, listed) ↦
                    elim (Result-cases
                      (walk sha256 hexdigest fromhex b32decode read max_bytes stop page.0 0 st)) [
                        | inr (e, bad) ↦ cc (rw (inside, listed, bad) at h)
                        | inl (walked, is) ↦
                            subst Hex (ap (λ r. r.0) (ok_inj (rw (inside, listed, is) at h)))
                              (walk-Hex max_bytes stop page.0 0 st walked.0 walked.1 is x)
                      ]
              ]
      ]

same_identity-dict_of : (id : Identity) (st : State) → same_identity id (dict_of id st) ≡ true
unfolding same_identity dict_of lookup is_number is_text
same_identity-dict_of id st =
    rw
      (
        eq_refl id.inventory_sha256,
        ==_self id.inventory_rows,
        eq_refl id.repository,
        eq_refl id.peer_id,
      )
      refl

same_keys-dict_of :
    (id : Identity) (st : State) → same_keys (dict_of id st) (dict_of id fresh_state) ≡ true
unfolding same_keys dict_of has_keys_of has_key
same_keys-dict_of id st = refl

counters-dict_of : (id : Identity) (st : State) → counters (dict_of id st) ≡ ok st
unfolding counters dict_of lookup int_of text_of counter scan_text
counters-dict_of id st = refl

-- A checkpoint that fits comes back.
load_state-dict_of :
    (id : Identity) (st : State)
    → is_consistent id st ≡ true
    → load_state id (some (some (dict_of id st))) ≡ ok st
unfolding load_state
load_state-dict_of id st fits =
    rw (same_keys-dict_of id st, same_identity-dict_of id st, counters-dict_of id st, fits) refl

fresh_state-is_consistent : (id : Identity) → is_consistent id fresh_state ≡ true
unfolding is_consistent fresh_state is_sha256 all_codes
fresh_state-is_consistent id = ground arith

-- What is loaded fits.
load_state-is_consistent :
    (id : Identity) (saved : Option (Option Dict)) (st : State)
    → load_state id saved ≡ ok st
    → is_consistent id st ≡ true
unfolding load_state
load_state-is_consistent id none st h = rw (← ok_inj h) (fresh_state-is_consistent id)
load_state-is_consistent id (some none) st h = cc
load_state-is_consistent id (some (some d)) st h =
    elim (Bool-cases (same_keys d (dict_of id fresh_state) && same_identity id d)) [
      | inr bad ↦ cc (rw bad at h)
      | inl good ↦ elim (Result-cases (counters d)) [
        | inr (x, bad) ↦ cc (rw (good, bad) at h)
        | inl (read_state, is) ↦ elim (Bool-cases (is_consistent id read_state)) [
          | inr bad ↦ cc (rw (good, is, bad) at h)
          | inl fits ↦ rw (← ok_inj (rw (good, is, fits) at h)) fits
        ]
      ]
    ]

same_state-eq : (a b : State) → same_state a b ≡ true → b ≡ a
unfolding same_state
same_state-eq a b h =
    let c : b.cursor ≡ a.cursor = ground (arith, h) in
    let p : b.present_rows ≡ a.present_rows = ground (arith, h) in
    let q : b.present_bytes ≡ a.present_bytes = ground (arith, h) in
    let m : b.missing_rows ≡ a.missing_rows = ground (arith, h) in
    let n : b.missing_bytes ≡ a.missing_bytes = ground (arith, h) in
    let t : b.scan_sha256 ≡ a.scan_sha256 = ground (arith, h, eq_iff a.scan_sha256 b.scan_sha256) in
    cc

is_consistent-of :
    (id : Identity) (st : State)
    → Balanced st
    → st.cursor ≤ id.inventory_rows
    → Hex st
    → is_consistent id st ≡ true
unfolding is_consistent
is_consistent-of id st balanced inside hex = ground (arith, balanced, inside, hex)

is_consistent-Balanced :
    (id : Identity) (st : State)
    → is_consistent id st ≡ true
    → Balanced st × (st.cursor ≤ id.inventory_rows) × Hex st
unfolding is_consistent
is_consistent-Balanced id st h = (ground (arith, h), ground (arith, h), ground (arith, h))

-- The file behind a run holds the result of the run.
load_state-save_state :
    (id : Identity) (st st' : State) (saved : Option (Option Dict))
    → load_state id saved ≡ ok st
    → is_consistent id st' ≡ true
    → load_state id (save_state id st st' saved) ≡ ok st'
unfolding save_state
load_state-save_state id st st' saved h fits = elim (Bool-cases (same_state st' st)) [
  | inl same ↦ rw same (h ∙ ap ok (same_state-eq st' st same))
  | inr changed ↦ rw changed (load_state-dict_of id st' fits)
]

module _ (sha256 : Bytes → Bytes) (hexdigest : Bytes → String) (fromhex : String → Bytes)
    (b32decode : List ℕ → Option Bytes) (read : String → ℕ → Result ReadbackError (Option Bytes))
    (is_hex : (b : Bytes) → is_sha256 (hexdigest b) ≡ true) (loads : Bytes → Option Dict)
    (empty_refused : loads [] ≡ none) where
  -- What a run of `main` does that does not raise, over a snapshot with the declared number of
  -- rows, with 1 to 1000 rows a batch and digests of 64 hexadecimal digits: the file before it and
  -- the file behind it both load; between them are the next rows, at most `max_rows` of them and
  -- within the byte limit, each counted once; the counters fit each other, and `complete` means
  -- that the checkpoint is at the end and has no missing row.
  pub scan_once-resumes :
      (id : Identity) (inv : Inventory) (file : File) (items : List Item) (max_rows max_bytes : ℕ)
      (stop : Bool) (saved saved' : Option (Option Dict)) (status : Status)
      → Snapshot loads hexdigest file inv items
      → id.inventory_rows ≡ length inv.offsets
      → 1 ≤ max_rows
      → max_rows ≤ 1000
      → scan_once sha256 hexdigest fromhex b32decode read loads id inv file max_rows max_bytes stop
          saved
        ≡ ok (status, saved')
      → (st st' : State) × (load_state id saved ≡ ok st)
        × (load_state id saved' ≡ ok st')
        × Counted max_bytes stop (take max_rows (drop st.cursor items)) 0 st st'
        × Balanced st'
        × (status ≡ complete → (st'.cursor ≡ length items) × (st'.missing_rows ≡ 0))
  unfolding scan_once
  scan_once-resumes id inv file items max_rows max_bytes stop saved saved' status s counts low high
        h =
      elim (Result-cases (load_state id saved)) [
        | inr (e, bad) ↦ cc (rw bad at h)
        | inl (st, loaded) ↦
            elim (Result-cases (
              advance sha256 hexdigest fromhex b32decode read loads inv file st max_rows max_bytes
                stop)) [
                  | inr (e, bad) ↦ cc (rw (loaded, bad) at h)
                  | inl ((st', status'), run) ↦
                      let is = ok_inj (rw (loaded, run) at h) in
                      let long = length-offsets loads hexdigest file inv items s in
                      let (balanced, inside, hex) =
                        is_consistent-Balanced id st
                          (load_state-is_consistent id saved st loaded) in
                      let (k, fits, bound, ends) =
                        advance-Counted sha256 hexdigest fromhex b32decode read loads empty_refused
                          inv file items st st' max_rows max_bytes stop status' s balanced
                          (omega (arith, inside, counts, long)) low high run in
                      let hex' =
                        advance-Hex sha256 hexdigest fromhex b32decode read is_hex loads inv file st
                          st' max_rows max_bytes stop status' run hex in
                      let again =
                        load_state-save_state id st st' saved loaded (
                          is_consistent-of id st' fits (omega (arith, bound, counts, long)) hex') in
                      (
                        st,
                        st',
                        loaded,
                        subst (λ f. load_state id f ≡ ok st') (ap (λ r. r.1) is) again,
                        k,
                        fits,
                        λ c. ends (ap (λ r. r.0) is ∙ c),
                      )
                ]
      ]
