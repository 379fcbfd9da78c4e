-- ===== src/Replicate/Batch/Pages.antt =====
-- A page moves the cursor only when every block on it is accounted for.
use yataverse_distribution.Prelude.{
  ℕ, ◌+◌, ◌≡◌, sym, ap, ◌∙◌, subst, Bool, true, false, Option, List, [], ◌∷◌, String, All, Bytes,
  Result, ok, err, length, min, arith, inl, inr, ◌⊎◌, ◌≢◌,
}
use yataverse_distribution.Prelude.Actions.{
  give, raise, change, lift, ensure-eq_ok, ◌>>=◌, >>=-eq_ok, if-eq, give-eq_ok,
}
use yataverse_distribution.Inventory.{Item}
use yataverse_distribution.Replicate.{ReplicationError, size_differs, Listing}
use yataverse_distribution.Replicate.Prefetch.{Event, submit, yield, refuse}
use yataverse_distribution.Replicate.Prefetch.Window.{yields, NoRefuse, prefetch_ordered-NoRefuse}
use yataverse_distribution.Replicate.Put.{Rpc, World, contains, ask}
use yataverse_distribution.Replicate.Put.Durable.{Held, put_verified-Held}
use yataverse_distribution.Replicate.Batch.{
  Args, Counters, Selection, PageEnd, over_budget, select, one_copied, copy_block, copy,
  finish_page, run_listing,
}
use yataverse_distribution.Replicate.Batch.Rounds.{
  Sized, contains-Untouched, copy-Keeps, known, stopped, fresh, select-Round,
}

module _ (sha256 : Bytes → Bytes) (b32decode : List ℕ → Option Bytes) (hexdigest : Bytes → String)
    (rpc : Rpc) (args : Args) (listing : Option String → Result ReplicationError Listing)
    (fetch_block : String → ℕ → Result ReplicationError Bytes)
    (free_bytes : World rpc.Daemon → ℕ) where
  -- Pinned after the selection, or selected: each block, unless the loop was stopped.
  select-All :
      (Q : Item → Type 0) (items : List Item) (new_bytes planned : ℕ) (w w' : World rpc.Daemon)
      (s : Selection)
      → select sha256 b32decode hexdigest rpc args listing fetch_block free_bytes items new_bytes
          planned w
        ≡ (ok s, w')
      → s.budget_stop ≡ false
      → ((i : Item)
          → contains i.cid w'.pins ≡ true
          → Sized sha256 b32decode hexdigest rpc args listing fetch_block free_bytes i
          → Q i)
      → All Q s.items
      → All Q items
  select-All Q [] new_bytes planned w w' s h go pinned a = tt
  select-All Q (item ∷ items) new_bytes planned w w' s h go pinned a =
      elim (select-Round sha256 b32decode hexdigest rpc args listing fetch_block free_bytes item
        items new_bytes planned w w' s h) [
          | known rest w1 there run is sized ↦ (
            pinned item there sized,
            select-All Q items new_bytes planned w1 w' rest run
                (ap (λ (t : Selection). t.budget_stop) is ∙ go) pinned
                (subst (λ l. All Q l) (sym (ap (λ (t : Selection). t.items) is)) a),
          )
          | stopped is ↦ cc (ap (λ (t : Selection). t.budget_stop) is)
          | fresh rest w1 room run is ↦
              let here : All Q (item ∷ rest.items) =
                subst (λ l. All Q l) (sym (ap (λ (t : Selection). t.items) is)) a in
              (
                here.0,
                select-All Q items new_bytes (planned + item.size) w1 w' rest run
                    (ap (λ (t : Selection). t.budget_stop) is ∙ go) pinned here.1,
              )
        ]

  -- The block has been fetched with its listed size and put: the daemon has returned the same
  -- bytes, and has told that it is pinned, or the raw store took it.
  pub record Copied (item : Item) : Type 0 where
    pub block : Bytes
    pub before : World rpc.Daemon
    pub after : World rpc.Daemon
    pub put : World rpc.Daemon
    pub fetched : fetch_block item.cid (min item.size args.max_block_bytes) ≡ ok block
    pub size : length block ≡ item.size
    pub reread :
        ask sha256 b32decode hexdigest rpc (rpc.block_get item.cid (length block)) before
        ≡ (ok block, after)
    pub held : Held sha256 b32decode hexdigest rpc item.cid block put

  -- A block that was there with its listed size, or has been copied.
  abbrev pub Accounted : Item → Type 0
  Accounted item =
      Sized sha256 b32decode hexdigest rpc args listing fetch_block free_bytes item ⊎ Copied item

  copy_block-Copied :
      (item : Item) (w w' : World rpc.Daemon)
      → copy_block sha256 b32decode hexdigest rpc args listing fetch_block free_bytes item w
        ≡ (ok tt, w')
      → (contains item.cid w'.pins ≡ true) × Copied item
  unfolding copy_block change lift
  copy_block-Copied item w w' h =
      let (block, w1, fetched, h1) = >>=-eq_ok _ _ w w' tt h in
      let (_, w2, same, h2) = >>=-eq_ok _ _ w1 w' tt h1 in
      let (_, w3, put, h3) = >>=-eq_ok _ _ w2 w' tt h2 in
      let (held, back) =
        put_verified-Held sha256 b32decode hexdigest rpc args.raw_enabled item.cid block w2 w3
          put in
      let (before, after, reread) = back in
      (
        subst (λ (v : World rpc.Daemon). contains item.cid v.pins ≡ true) (ap (λ r. r.1) h3)
            held.pinned,
        record {
          block = block;
          before = before;
          after = after;
          put = w3;
          fetched = ap (λ r. r.0) fetched;
          size = ground (arith, (ensure-eq_ok _ size_differs w1 w2 same).0);
          reread = reread;
          held = held;
        },
      )

  pub copy-pinned :
      (events : List Event) (c c' : Counters) (w w' : World rpc.Daemon)
      → copy sha256 b32decode hexdigest rpc args listing fetch_block free_bytes events c w
        ≡ (ok c', w')
      → All (λ (i : Item). (contains i.cid w'.pins ≡ true) × Accounted i) (yields events)
        × NoRefuse events
  unfolding copy yields
  copy-pinned [] c c' w w' h = (tt, tt)
  copy-pinned (submit item ∷ events) c c' w w' h = copy-pinned events c c' w w' h
  copy-pinned (refuse item ∷ events) c c' w w' h = unfold raise in cc h
  copy-pinned (yield item ∷ events) c c' w w' h =
      let (_, w1, one, h1) = >>=-eq_ok _ _ w w' c' h in
      let (later, none_refused) = copy-pinned events _ c' w1 w' h1 in
      let (there, copied) = copy_block-Copied item w w1 one in
      let kept =
        (copy-Keeps sha256 b32decode hexdigest rpc args listing fetch_block free_bytes
            (λ w. contains item.cid w.pins ≡ true) (contains-Untouched item.cid) (λ v i b p. p)
            events
            (one_copied sha256 b32decode hexdigest rpc args listing fetch_block free_bytes item
              c)).at
          w1 there in
      (((subst (λ r. contains item.cid r.1.pins ≡ true) h1 kept, inr copied), later), none_refused)

  -- The end of a page leaves the pins, and leaves everything when the budget stopped the page.
  pub finish_page-eq_ok :
      (stop : Bool) (l : Listing) (end : PageEnd) (w w' : World rpc.Daemon)
      → finish_page sha256 b32decode hexdigest rpc args listing fetch_block free_bytes stop l w
        ≡ (ok end, w')
      → ((stop ≡ true) × (end ≡ over_budget) × (w ≡ w'))
        ⊎ ((stop ≡ false) × (end ≢ over_budget) × (w.pins ≡ w'.pins))
  unfolding finish_page ◌>>=◌ change give
  finish_page-eq_ok stop l end w w' h = elim (if-eq stop _ _ w (ok end, w') h) [
    | inl (stops, k) ↦ inl (stops, cc, ap (λ r. r.1) k)
    | inr (goes, k) ↦ elim (if-eq l.truncated _ _ w (ok end, w') k) [
      | inl (more, e) ↦ inr (goes, λ x. cc, ap (λ r. r.1.pins) e)
      | inr (last, e) ↦ inr (goes, λ x. cc, ap (λ r. r.1.pins) e)
    ]
  ]

  pub finish_page-never_raises :
      (stop : Bool) (l : Listing) (e : ReplicationError) (w w' : World rpc.Daemon)
      → finish_page sha256 b32decode hexdigest rpc args listing fetch_block free_bytes stop l w
        ≢ (err e, w')
  unfolding finish_page ◌>>=◌ change give
  finish_page-never_raises stop l e w w' h = elim (if-eq stop _ _ w (err e, w') h) [
    | inl (_, k) ↦ cc
    | inr (_, k) ↦ elim (if-eq l.truncated _ _ w (err e, w') k) [
      | inl (_, x) ↦ cc
      | inr (_, x) ↦ cc
    ]
  ]

  -- A page that ends well, other than by the byte budget, has every block of the listing among the
  -- pins. Of each the daemon or the raw store has told the listed size, or it has been fetched with
  -- that size, put, and read back as the same bytes.
  pub run_listing-pinned :
      (l : Listing) (c c' : Counters) (end : PageEnd) (w w' : World rpc.Daemon)
      → run_listing sha256 b32decode hexdigest rpc args listing fetch_block free_bytes l c w
        ≡ (ok (c', end), w')
      → end ≢ over_budget
      → All (λ (i : Item). (contains i.cid w'.pins ≡ true) × Accounted i) l.blocks
  unfolding run_listing
  run_listing-pinned l c c' end w w' h moved =
      let (_, w1, _, h1) = >>=-eq_ok _ _ w w' (c', end) h in
      let (s, w2, selected, h2) = >>=-eq_ok _ _ w1 w' (c', end) h1 in
      let (copied, w3, ran, h3) = >>=-eq_ok _ _ w2 w' (c', end) h2 in
      let (how, w4, finished, h4) = >>=-eq_ok _ _ w3 w' (c', end) h3 in
      let (is, same) = give-eq_ok (copied, how) (c', end) w4 w' h4 in
      let (pinned, none_refused) = copy-pinned _ _ copied w2 w3 ran in
      let in_order =
        prefetch_ordered-NoRefuse s.items args.fetch_workers args.max_prefetch_bytes none_refused in
      elim (finish_page-eq_ok s.budget_stop l how w3 w4 finished) [
        | inl (_, stops, _) ↦ absurd (moved (sym (ap (λ r. r.1) is) ∙ stops))
        | inr (goes, _, pins) ↦
            let last : w3.pins ≡ w'.pins = pins ∙ ap (λ (v : World rpc.Daemon). v.pins) same in
            let kept = λ (i : Item) (p : contains i.cid w2.pins ≡ true).
              (copy-Keeps sha256 b32decode hexdigest rpc args listing fetch_block free_bytes
                  (λ v. contains i.cid v.pins ≡ true) (contains-Untouched i.cid) (λ v j b q. q) _
                  _).at
                w2 p in
            subst (λ ps. All (λ (i : Item). (contains i.cid ps ≡ true) × Accounted i) l.blocks) last
              (select-All (λ i. (contains i.cid w3.pins ≡ true) × Accounted i) l.blocks c.new_bytes
                0 w1 w2 s selected goes
                (λ i p sized.
                  (subst (λ r. contains i.cid r.1.pins ≡ true) ran (kept i p), inl sized))
                (subst
                  (λ is'. All (λ (i : Item). (contains i.cid w3.pins ≡ true) × Accounted i) is')
                  in_order pinned))
      ]
