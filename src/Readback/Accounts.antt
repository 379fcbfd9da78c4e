-- ===== src/Readback/Accounts.antt =====
-- What a batch adds to the counters of a checkpoint.
use yataverse_distribution.Prelude.{
  ℕ, suc, ◌+◌, ◌≤◌, ◌<◌, ◌≡◌, refl, sym, ap, ◌∙◌, subst, Bool, true, false, ◌==◌, Option, none,
  some, List, [], ◌∷◌, String, ltb, length, take, drop, length-take, length-drop, ◌≢◌, Bytes,
  Result, ok, ◌>>=◌, Result-cases, Bool-cases, inl, inr, arith, if◌then◌else◌, ◌&&◌,
}
use yataverse_distribution.Json.{Dict}
use yataverse_distribution.Inventory.{Item, File, Inventory}
use yataverse_distribution.Inventory.Load.{Snapshot, total_of, length-offsets}
use yataverse_distribution.Inventory.Pages.{rows-Snapshot}
use yataverse_distribution.Readback.{
  ReadbackError, State, Status, complete, partial, status_of, checked_block, count_present,
  count_missing, walk, advance,
}

-- The counters of the checkpoint fit each other: each row before the cursor is counted once.
abbrev pub Balanced : State → Type 0
Balanced st = st.present_rows + st.missing_rows ≡ st.cursor

-- From one checkpoint to the next, the first `done` of these rows were counted, each once, and
-- their sizes; they stay within the byte limit.
pub record Counted (max_bytes : ℕ) (stop : Bool) (items : List Item) (added : ℕ) (st st' : State)
    : Type 0 where
  pub done : ℕ
  pub within : done ≤ length items
  pub cursor : st'.cursor ≡ st.cursor + done
  pub row_sum : st'.present_rows + st'.missing_rows ≡ st.present_rows + st.missing_rows + done
  pub byte_sum :
      st'.present_bytes + st'.missing_bytes
      ≡ st.present_bytes + st.missing_bytes + total_of (take done items)
  pub bounded : added ≤ max_bytes → added + total_of (take done items) ≤ max_bytes
  pub none_missing : stop ≡ true → st'.missing_rows ≡ st.missing_rows
  pub none_present : st.present_rows ≤ st'.present_rows

nothing :
    (max_bytes : ℕ) (stop : Bool) (items : List Item) (added : ℕ) (st : State)
    → Counted max_bytes stop items added st st
nothing max_bytes stop items added st = record {
  done = 0;
  within = omega arith;
  cursor = omega arith;
  row_sum = omega arith;
  byte_sum = omega arith;
  bounded = λ h. omega arith;
  none_missing = λ h. refl;
  none_present = omega arith;
}

-- One row more in front.
one_more :
    (max_bytes added : ℕ) (stop : Bool) (row : Item) (items : List Item) (st next st' : State)
    → added + row.size ≤ max_bytes
    → next.cursor ≡ st.cursor + 1
    → next.present_rows + next.missing_rows ≡ st.present_rows + st.missing_rows + 1
    → next.present_bytes + next.missing_bytes ≡ st.present_bytes + st.missing_bytes + row.size
    → (stop ≡ true → next.missing_rows ≡ st.missing_rows)
    → st.present_rows ≤ next.present_rows
    → Counted max_bytes stop items (added + row.size) next st'
    → Counted max_bytes stop (row ∷ items) added st st'
one_more max_bytes added stop row items st next st' room c r b m p k = record {
  done = suc k.done;
  within = omega (arith, k.within);
  cursor = omega (arith, k.cursor, c);
  row_sum = omega (arith, k.row_sum, r);
  byte_sum = omega (arith, k.byte_sum, b);
  bounded = λ h. omega (arith, k.bounded room);
  none_missing = λ s. k.none_missing s ∙ m s;
  none_present = omega (arith, k.none_present, p);
}

-- A row that passes both tests of the loop leaves room for itself.
room_left :
    (added size max_bytes : ℕ)
    → (ltb 0 added && ltb max_bytes (added + size)) ≡ false
    → ltb max_bytes size ≡ false
    → added + size ≤ max_bytes
room_left added size max_bytes h k = ground arith

module _ (sha256 : Bytes → Bytes) (hexdigest : Bytes → String) (fromhex : String → Bytes)
    (b32decode : List ℕ → Option Bytes)
    (read : String → ℕ → Result ReadbackError (Option Bytes)) where
  walk-Counted :
      (max_bytes : ℕ) (stop : Bool) (items : List Item) (added : ℕ) (st st' : State)
      (stopped : Bool)
      → walk sha256 hexdigest fromhex b32decode read max_bytes stop items added st
        ≡ ok (st', stopped)
      → Counted max_bytes stop items added st st'
  unfolding walk count_missing count_present
  walk-Counted max_bytes stop [] added st st' stopped h =
      let same : st ≡ st' = cc in
      subst (λ s. Counted max_bytes stop [] added st s) same (nothing max_bytes stop [] added st)
  walk-Counted max_bytes stop (row ∷ items) added st st' stopped h =
      elim (Bool-cases (ltb 0 added && ltb max_bytes (added + row.size))) [
        | inl full ↦
            let same : st ≡ st' = cc (rw full at h) in
            subst (λ s. Counted max_bytes stop (row ∷ items) added st s) same
              (nothing max_bytes stop (row ∷ items) added st)
        | inr free ↦ elim (Bool-cases (ltb max_bytes row.size)) [
          | inl huge ↦ cc (rw (free, huge) at h)
          | inr fits ↦
              let room = room_left added row.size max_bytes free fits in
              elim (Result-cases (read row.cid row.size)) [
                | inr (e, r) ↦ cc (rw (free, fits, r) at h)
                | inl (none, r) ↦ gone room (rw (free, fits, r) at h) (
                    walk-Counted max_bytes false items (added + row.size) (missing row) st' stopped)
                | inl (some bytes, r) ↦
                    elim (Result-cases
                      (checked_block sha256 hexdigest fromhex b32decode read row bytes)) [
                        | inr (e, c) ↦ cc (rw (free, fits, r, c) at h)
                        | inl (u, c) ↦ here room bytes (
                            walk-Counted max_bytes stop items (added + row.size) (present row bytes)
                              st' stopped (rw (free, fits, r, c) at h))
                      ]
              ]
        ]
      ]
    where
      missing : Item → State
      missing r = count_missing sha256 hexdigest fromhex b32decode read st r

      present : Item → Bytes → State
      present r bytes = count_present sha256 hexdigest fromhex b32decode read st r bytes

      gone :
          added + row.size ≤ max_bytes
          → (if stop
              then ok (st, true)
              else walk sha256 hexdigest fromhex b32decode read max_bytes stop items
                  (added + row.size)
                  (missing row))
            ≡ ok (st', stopped)
          → (walk sha256 hexdigest fromhex b32decode read max_bytes false items
                  (added + row.size)
                  (missing row)
                ≡ ok (st', stopped)
              → Counted max_bytes false items (added + row.size) (missing row) st')
          → Counted max_bytes stop (row ∷ items) added st st'
      gone room h' later = elim (Bool-cases stop) [
        | inl stops ↦
            let same : st ≡ st' = cc (rw stops at h') in
            subst (λ s. Counted max_bytes stop (row ∷ items) added st s) same
              (nothing max_bytes stop (row ∷ items) added st)
        | inr scans ↦
            subst (λ b. Counted max_bytes b (row ∷ items) added st st') (sym scans)
              (one_more max_bytes added false row items st (missing row) st' room (omega arith)
                (omega arith) (omega arith) (λ s. cc) (omega arith) (later (rw scans at h')))
      ]

      here :
          added + row.size ≤ max_bytes
          → (bytes : Bytes)
          → Counted max_bytes stop items (added + row.size) (present row bytes) st'
          → Counted max_bytes stop (row ∷ items) added st st'
      here room bytes k =
          one_more max_bytes added stop row items st (present row bytes) st' room (omega arith)
            (omega arith) (omega arith) (λ s. refl) (omega arith) k

  status_of-complete :
      (total : ℕ) (stopped : Bool) (st : State)
      → status_of total stopped st ≡ complete
      → (st.cursor ≡ total) × (st.missing_rows ≡ 0)
  unfolding status_of
  status_of-complete total stopped st h = (ground arith, ground arith)

  -- Whatever was counted of the rows behind the cursor, the counters fit and the cursor is inside.
  Counted-inside :
      (items : List Item) (max_rows max_bytes : ℕ) (stop : Bool) (st st' : State)
      → Balanced st
      → st.cursor ≤ length items
      → Counted max_bytes stop (take max_rows (drop st.cursor items)) 0 st st'
      → Balanced st' × (st'.cursor ≤ length items)
  Counted-inside items max_rows max_bytes stop st st' balanced inside k = (
    omega (arith, k.cursor, k.row_sum, balanced),
    omega (
      arith,
      k.cursor,
      k.within,
      length-take max_rows (drop st.cursor items),
      length-drop st.cursor items,
    ),
  )

  module _ (loads : Bytes → Option Dict) (empty_refused : loads [] ≡ none) where
    -- A batch of `advance` over an unchanged inventory counts the next rows, at most `max_rows` of
    -- them and in order, once each with their sizes, within the byte limit. The counters still fit
    -- each other, the cursor stays inside the inventory, a batch that stops at a missing row counts
    -- none as missing, and `complete` means that the cursor is at the end and no row is missing.
    pub advance-Counted :
        (inv : Inventory) (file : File) (items : List Item) (st st' : State)
        (max_rows max_bytes : ℕ) (stop : Bool) (status : Status)
        → Snapshot loads hexdigest file inv items
        → Balanced st
        → st.cursor ≤ length items
        → 1 ≤ max_rows
        → max_rows ≤ 1000
        → advance sha256 hexdigest fromhex b32decode read loads inv file st max_rows max_bytes stop
          ≡ ok (st', status)
        → Counted max_bytes stop (take max_rows (drop st.cursor items)) 0 st st'
          × Balanced st'
          × (st'.cursor ≤ length items)
          × (status ≡ complete → (st'.cursor ≡ length items) × (st'.missing_rows ≡ 0))
    unfolding advance
    advance-Counted inv file items st st' max_rows max_bytes stop status s balanced inside low high
          h =
        elim (Bool-cases (st.cursor == length inv.offsets)) [
          | inl at_end ↦
              let run = rw at_end at h in
              let same : st ≡ st' = cc run in
              let k =
                subst (λ t. Counted max_bytes stop (take max_rows (drop st.cursor items)) 0 st t)
                  same (nothing max_bytes stop _ 0 st) in
              let (fits, bound) =
                Counted-inside items max_rows max_bytes stop st st' balanced inside k in
              (
                k,
                fits,
                bound,
                λ c. (
                  omega (arith, counted, ap (λ (t : State). t.cursor) same, equal at_end),
                  none_left run c same,
                ),
              )
          | inr more ↦
              let within : st.cursor < length items =
                omega (arith, inside, counted, different more) in
              let read_rows =
                rows-Snapshot loads hexdigest empty_refused file inv items s st.cursor max_rows
                  within low high in
              walked (rw (more, read_rows) at h)
        ]
      where
        counted : length inv.offsets ≡ length items
        counted = length-offsets loads hexdigest file inv items s

        equal : (st.cursor == length inv.offsets) ≡ true → st.cursor ≡ length inv.offsets
        equal e = ground arith

        different : (st.cursor == length inv.offsets) ≡ false → st.cursor ≢ length inv.offsets
        different e = ground arith

        none_left :
            ◌≡◌ {A = Result ReadbackError (State × Status)}
              (ok (st, if st.missing_rows == 0 then complete else partial))
              (ok (st', status))
            → status ≡ complete
            → st ≡ st'
            → st'.missing_rows ≡ 0
        none_left run c same = ground (arith, ap (λ (t : State). t.missing_rows) same)

        walked :
            ◌>>=◌ {B = State × Status}
                (walk sha256 hexdigest fromhex b32decode read max_bytes stop
                  (take max_rows (drop st.cursor items))
                  0
                  st)
                (λ r. ok (r.0, status_of (length inv.offsets) r.1 r.0))
              ≡ ok (st', status)
            → Counted max_bytes stop (take max_rows (drop st.cursor items)) 0 st st'
              × Balanced st'
              × (st'.cursor ≤ length items)
              × (status ≡ complete → (st'.cursor ≡ length items) × (st'.missing_rows ≡ 0))
        walked run =
            elim (Result-cases (
              walk sha256 hexdigest fromhex b32decode read max_bytes stop
                (take max_rows (drop st.cursor items)) 0 st)) [
                  | inr (e, w) ↦ cc (rw w at run)
                  | inl ((last, stopped), w) ↦
                      let same : last ≡ st' = cc (rw w at run) in
                      let ends : status_of (length inv.offsets) stopped last ≡ status =
                        cc (rw w at run) in
                      let k =
                        walk-Counted max_bytes stop _ 0 st st' stopped
                          (w ∙ ap (λ t. ok (t, stopped)) same) in
                      let (fits, bound) =
                        Counted-inside items max_rows max_bytes stop st st' balanced inside k in
                      (
                        k,
                        fits,
                        bound,
                        λ c.
                            let (at_end, none_left) =
                              status_of-complete _ stopped last (ends ∙ c) in
                            (
                              omega (arith, at_end, counted, ap (λ (t : State). t.cursor) same),
                              omega (arith, none_left, ap (λ (t : State). t.missing_rows) same),
                            ),
                      )
                ]
