-- ===== src/Replicate/Batch/Totals.antt =====
-- The byte budget of a batch, and the totals of the checkpoint.
use yataverse_distribution.Prelude.{
  ℕ, zero, suc, ◌+◌, ◌≤◌, ◌≡◌, refl, sym, ap, ◌∙◌, subst, Bool, Option, List, [], ◌∷◌, String,
  Bytes, Result, ok, inl, inr, arith, not_ltb→le,
}
use yataverse_distribution.Prelude.Actions.{
  Action, give, raise, change, lift, ◌>>=◌, >>=-eq_ok, ensure-eq_ok, give-eq_ok, current-eq_ok,
  if-eq,
}
use yataverse_distribution.Inventory.{Item}
use yataverse_distribution.Replicate.{ReplicationError, State, Listing}
use yataverse_distribution.Replicate.Prefetch.{Event, submit, yield, refuse, prefetch_ordered}
use yataverse_distribution.Replicate.Prefetch.Window.{yields, prefetch_ordered-NoRefuse}
use yataverse_distribution.Replicate.Put.{Rpc, World}
use yataverse_distribution.Replicate.Put.Keeps.{put_verified-Keeps}
use yataverse_distribution.Replicate.Batch.{
  Args, Counters, Selection, PageEnd, Status, over_budget, last_page, more_pages, select,
  copy_block, copy, finish_page, run_listing, run_page, run_pages, run_batch, go_on, byte_budget,
  cycle_complete, page_limit, add_block, one_copied,
}
use yataverse_distribution.Replicate.Batch.Rounds.{
  saved-Untouched, select-Keeps, known, stopped, fresh, select-Round,
}
use yataverse_distribution.Replicate.Batch.Pages.{copy-pinned}

abbrev total_size : List Item → ℕ
total_size [] = 0
total_size (i ∷ items) = i.size + total_size items

-- From one point of a batch to a later one: the bytes stay within the budget, and what the counters
-- grew by is what the totals of the checkpoint grew by.
pub record Tally (args : Args) (c c' : Counters) (st st' : State) : Type 0 where
  pub within : c.new_bytes ≤ args.max_new_bytes → c'.new_bytes ≤ args.max_new_bytes
  pub bytes : st'.new_bytes_total + c.new_bytes ≡ st.new_bytes_total + c'.new_bytes
  pub blocks : st'.new_blocks_total + c.new_blocks ≡ st.new_blocks_total + c'.new_blocks

module _ (sha256 : Bytes → Bytes) (b32decode : List ℕ → Option Bytes) (hexdigest : Bytes → String)
    (rpc : Rpc) (args : Args) (listing : Option String → Result ReplicationError Listing)
    (fetch_block : String → ℕ → Result ReplicationError Bytes)
    (free_bytes : World rpc.Daemon → ℕ) where
  select-within :
      (items : List Item) (new_bytes planned : ℕ) (w w' : World rpc.Daemon) (s : Selection)
      → select sha256 b32decode hexdigest rpc args listing fetch_block free_bytes items new_bytes
          planned w
        ≡ (ok s, w')
      → new_bytes + planned ≤ args.max_new_bytes
      → new_bytes + (planned + total_size s.items) ≤ args.max_new_bytes
  unfolding select
  select-within [] new_bytes planned w w' s h fits =
      omega (arith, ap (λ (t : Selection). total_size t.items) (give-eq_ok _ s w w' h).0)
  select-within (item ∷ items) new_bytes planned w w' s h fits =
      elim (select-Round sha256 b32decode hexdigest rpc args listing fetch_block free_bytes item
        items new_bytes planned w w' s h) [
          | known rest w1 there run is sized ↦ omega (
            arith,
            select-within items new_bytes planned w1 w' rest run fits,
            ap (λ (t : Selection). total_size t.items) is,
          )
          | stopped is ↦ omega (arith, ap (λ (t : Selection). total_size t.items) is)
          | fresh rest w1 room run is ↦
              let room' = not_ltb→le _ _ room in
              omega (
                arith,
                select-within items new_bytes (planned + item.size) w1 w' rest run (omega arith),
                ap (λ (t : Selection). total_size t.items) is,
              )
        ]

  -- One block copied is one block and its size in the checkpoint.
  copy_block-saved :
      (item : Item) (w w' : World rpc.Daemon)
      → copy_block sha256 b32decode hexdigest rpc args listing fetch_block free_bytes item w
        ≡ (ok tt, w')
      → w'.saved ≡ add_block item.size w.saved
  unfolding copy_block change lift
  copy_block-saved item w w' h =
      let (block, w1, k1, h1) = >>=-eq_ok _ _ w w' tt h in
      let (_, w2, k2, h2) = >>=-eq_ok _ _ w1 w' tt h1 in
      let (_, w3, k3, h3) = >>=-eq_ok _ _ w2 w' tt h2 in
      let s1 : w.saved ≡ w1.saved = ap (λ r. r.1.saved) k1 in
      let s2 : w1.saved ≡ w2.saved =
        ap (λ (v : World rpc.Daemon). v.saved) (ensure-eq_ok _ _ w1 w2 k2).1 in
      let s3 : w3.saved ≡ w2.saved =
        subst (λ r. r.1.saved ≡ w2.saved) k3
          ((put_verified-Keeps sha256 b32decode hexdigest rpc _
              (saved-Untouched (λ st. st ≡ w2.saved)) args.raw_enabled item.cid block).at
            w2 refl) in
      sym (ap (λ r. r.1.saved) h3) ∙ ap (add_block item.size) (s3 ∙ sym s2 ∙ sym s1)

  copy-Tally :
      (events : List Event) (c c' : Counters) (w w' : World rpc.Daemon)
      → copy sha256 b32decode hexdigest rpc args listing fetch_block free_bytes events c w
        ≡ (ok c', w')
      → (c'.new_bytes ≡ c.new_bytes + total_size (yields events))
        × (w'.saved.new_bytes_total + c.new_bytes ≡ w.saved.new_bytes_total + c'.new_bytes)
        × (w'.saved.new_blocks_total + c.new_blocks ≡ w.saved.new_blocks_total + c'.new_blocks)
  unfolding copy yields
  copy-Tally [] c c' w w' h =
      let (is, same) = give-eq_ok c c' w w' h in
      (
        omega (arith, ap (λ (t : Counters). t.new_bytes) is),
        omega (
          arith,
          ap (λ (t : Counters). t.new_bytes) is,
          ap (λ (v : World rpc.Daemon). v.saved.new_bytes_total) same,
        ),
        omega (
          arith,
          ap (λ (t : Counters). t.new_blocks) is,
          ap (λ (v : World rpc.Daemon). v.saved.new_blocks_total) same,
        ),
      )
  copy-Tally (submit item ∷ events) c c' w w' h = copy-Tally events c c' w w' h
  copy-Tally (refuse item ∷ events) c c' w w' h = unfold raise in cc h
  copy-Tally (yield item ∷ events) c c' w w' h =
      let (_, w1, copied, h1) = >>=-eq_ok _ _ w w' c' h in
      let next =
        one_copied sha256 b32decode hexdigest rpc args listing fetch_block free_bytes item c in
      let (sum, bytes, blocks) = copy-Tally events next c' w1 w' h1 in
      let saved = copy_block-saved item w w1 copied in
      (
        omega (arith, sum),
        omega (arith, bytes, ap (λ (t : State). t.new_bytes_total) saved),
        omega (arith, blocks, ap (λ (t : State). t.new_blocks_total) saved),
      )

  finish_page-totals :
      (stop : Bool) (l : Listing) (end : PageEnd) (w w' : World rpc.Daemon)
      → finish_page sha256 b32decode hexdigest rpc args listing fetch_block free_bytes stop l w
        ≡ (ok end, w')
      → (w'.saved.new_bytes_total ≡ w.saved.new_bytes_total)
        × (w'.saved.new_blocks_total ≡ w.saved.new_blocks_total)
  unfolding finish_page ◌>>=◌ change give
  finish_page-totals stop l end w w' h = elim (if-eq stop _ _ w (ok end, w') h) [
    | inl (_, k) ↦
        (sym (ap (λ r. r.1.saved.new_bytes_total) k), sym (ap (λ r. r.1.saved.new_blocks_total) k))
    | inr (_, k) ↦ elim (if-eq l.truncated _ _ w (ok end, w') k) [
      | inl (_, e) ↦ (
        sym (ap (λ r. r.1.saved.new_bytes_total) e),
        sym (ap (λ r. r.1.saved.new_blocks_total) e),
      )
      | inr (_, e) ↦ (
        sym (ap (λ r. r.1.saved.new_bytes_total) e),
        sym (ap (λ r. r.1.saved.new_blocks_total) e),
      )
    ]
  ]

  run_listing-Tally :
      (l : Listing) (c c' : Counters) (end : PageEnd) (w w' : World rpc.Daemon)
      → run_listing sha256 b32decode hexdigest rpc args listing fetch_block free_bytes l c w
        ≡ (ok (c', end), w')
      → Tally args c c' w.saved w'.saved
  unfolding run_listing
  run_listing-Tally l c c' end w w' h =
      let (_, w1, k1, h1) = >>=-eq_ok _ _ w w' (c', end) h in
      let (s, w2, k2, h2) = >>=-eq_ok _ _ w1 w' (c', end) h1 in
      let (copied, w3, k3, h3) = >>=-eq_ok _ _ w2 w' (c', end) h2 in
      let (how, w4, k4, h4) = >>=-eq_ok _ _ w3 w' (c', end) h3 in
      let (is, same) = give-eq_ok (copied, how) (c', end) w4 w' h4 in
      let checked : Counters = record c { checked_blocks = c.checked_blocks + s.checked } in
      let events = prefetch_ordered s.items args.fetch_workers args.max_prefetch_bytes in
      let (sum, bytes, blocks) = copy-Tally events checked copied w2 w3 k3 in
      let in_order =
        prefetch_ordered-NoRefuse s.items args.fetch_workers args.max_prefetch_bytes
          (copy-pinned sha256 b32decode hexdigest rpc args listing fetch_block free_bytes events
            checked copied w2 w3 k3).1 in
      let (bytes_kept, blocks_kept) = finish_page-totals s.budget_stop l how w3 w4 k4 in
      let st1 : w.saved ≡ w1.saved =
        ap (λ (v : World rpc.Daemon). v.saved) (ensure-eq_ok _ _ w w1 k1).1 in
      let st2 : w2.saved ≡ w1.saved =
        subst (λ r. r.1.saved ≡ w1.saved) k2
          ((select-Keeps sha256 b32decode hexdigest rpc args listing fetch_block free_bytes _
              (saved-Untouched (λ st. st ≡ w1.saved)) l.blocks c.new_bytes 0).at
            w1 refl) in
      let from : w2.saved ≡ w.saved = st2 ∙ sym st1 in
      let nb : copied.new_bytes ≡ c'.new_bytes = ap (λ r. r.0.new_bytes) is in
      let nk : copied.new_blocks ≡ c'.new_blocks = ap (λ r. r.0.new_blocks) is in
      let fb = ap (λ (st : State). st.new_bytes_total) from in
      let fk = ap (λ (st : State). st.new_blocks_total) from in
      let tb = ap (λ (v : World rpc.Daemon). v.saved.new_bytes_total) same in
      let tk = ap (λ (v : World rpc.Daemon). v.saved.new_blocks_total) same in
      record {
        within = λ fits. omega (
          arith,
          sum,
          nb,
          ap total_size in_order,
          select-within l.blocks c.new_bytes 0 w1 w2 s k2 (omega arith),
        );
        bytes = omega (arith, bytes, bytes_kept, fb, tb, nb);
        blocks = omega (arith, blocks, blocks_kept, fk, tk, nk);
      }

  run_page-Tally :
      (c c' : Counters) (end : PageEnd) (w w' : World rpc.Daemon)
      → run_page sha256 b32decode hexdigest rpc args listing fetch_block free_bytes c w
        ≡ (ok (c', end), w')
      → Tally args c c' w.saved w'.saved
  unfolding run_page lift
  run_page-Tally c c' end w w' h =
      let (now, w1, k1, h1) = >>=-eq_ok _ _ w w' (c', end) h in
      let (l, w2, k2, h2) = >>=-eq_ok _ _ w1 w' (c', end) h1 in
      let same : w ≡ w2 = (current-eq_ok w now w1 k1).1 ∙ ap (λ r. r.1) k2 in
      subst (λ (v : World rpc.Daemon). Tally args c c' v.saved w'.saved) (sym same)
        (run_listing-Tally l c c' end w2 w' h2)

  Tally-trans :
      (c c' c'' : Counters) (st st' st'' : State)
      → Tally args c c' st st'
      → Tally args c' c'' st' st''
      → Tally args c c'' st st''
  Tally-trans c c' c'' st st' st'' t u = record {
    within = λ h. u.within (t.within h);
    bytes = omega (arith, t.bytes, u.bytes);
    blocks = omega (arith, t.blocks, u.blocks);
  }

  given :
      (c c' : Counters) (status status' : Status) (w w' : World rpc.Daemon)
      → ◌≡◌ {A = Result ReplicationError (Counters × Status) × World rpc.Daemon}
          (give (c, status) w)
          (ok (c', status'), w')
      → Tally args c c' w.saved w'.saved
  given c c' status status' w w' h =
      let (is, same) = give-eq_ok (c, status) (c', status') w w' h in
      let nb : c.new_bytes ≡ c'.new_bytes = ap (λ r. r.0.new_bytes) is in
      let nk : c.new_blocks ≡ c'.new_blocks = ap (λ r. r.0.new_blocks) is in
      let tb = ap (λ (v : World rpc.Daemon). v.saved.new_bytes_total) same in
      let tk = ap (λ (v : World rpc.Daemon). v.saved.new_blocks_total) same in
      record {
        within = λ h. omega (arith, nb);
        bytes = omega (arith, nb, tb);
        blocks = omega (arith, nk, tk);
      }

  settled :
      (c c' : Counters) (status : Status) (end : PageEnd) {c0 : Counters}
      (w w1 w' : World rpc.Daemon)
      (others : Action ReplicationError (World rpc.Daemon) (Counters × Status))
      → Tally args c0 c w.saved w1.saved
      → go_on sha256 b32decode hexdigest rpc args listing fetch_block free_bytes c others end w1
        ≡ (ok (c', status), w')
      → (others w1 ≡ (ok (c', status), w') → Tally args c c' w1.saved w'.saved)
      → Tally args c0 c' w.saved w'.saved
  settled c c' status over_budget {c0} w w1 w' others t h later =
      Tally-trans c0 c c' w.saved w1.saved w'.saved t (given c c' byte_budget status w1 w' h)
  settled c c' status last_page {c0} w w1 w' others t h later =
      Tally-trans c0 c c' w.saved w1.saved w'.saved t (given c c' cycle_complete status w1 w' h)
  settled c c' status more_pages {c0} w w1 w' others t h later =
      Tally-trans c0 c c' w.saved w1.saved w'.saved t (later h)

  -- Pages one after another, up to their number: the new bytes never go past the byte budget, and
  -- the totals in the checkpoint grow by the blocks and the bytes that the batch reports.
  pub run_pages-Tally :
      (pages : ℕ) (c c' : Counters) (status : Status) (w w' : World rpc.Daemon)
      → run_pages sha256 b32decode hexdigest rpc args listing fetch_block free_bytes pages c w
        ≡ (ok (c', status), w')
      → Tally args c c' w.saved w'.saved
  unfolding run_pages
  run_pages-Tally zero c c' status w w' h = given c c' page_limit status w w' h
  run_pages-Tally (suc pages) c c' status w w' h =
      let (r, w1, k1, h1) = >>=-eq_ok _ _ w w' (c', status) h in
      settled r.0 c' status r.1 w w1 w'
        (run_pages sha256 b32decode hexdigest rpc args listing fetch_block free_bytes pages r.0)
        (run_page-Tally c r.0 r.1 w w1 k1) h1 (λ k. run_pages-Tally pages r.0 c' status w1 w' k)

  -- A batch behind its preflight: the bytes that it reports are within `max_new_bytes`, and the
  -- totals in the checkpoint have grown by the blocks and the bytes that it reports.
  pub run_batch-Tally :
      (c' : Counters) (status : Status) (w w' : World rpc.Daemon)
      → run_batch sha256 b32decode hexdigest rpc args listing fetch_block free_bytes w
        ≡ (ok (c', status), w')
      → (c'.new_bytes ≤ args.max_new_bytes)
        × (w'.saved.new_bytes_total ≡ w.saved.new_bytes_total + c'.new_bytes)
        × (w'.saved.new_blocks_total ≡ w.saved.new_blocks_total + c'.new_blocks)
  unfolding run_batch
  run_batch-Tally c' status w w' h =
      let t = run_pages-Tally args.max_pages _ c' status w w' h in
      (t.within (omega arith), omega (arith, t.bytes), omega (arith, t.blocks))
