-- ===== src/Replicate/Batch/Rounds.antt =====
-- What the loops of a page leave alone, and the ways in which a round of the selection goes on.
use yataverse_distribution.Prelude.{
  ℕ, ◌+◌, ◌≡◌, refl, sym, ap, ◌∙◌, subst, Bool, true, false, ◌||◌, Option, List, [], ◌∷◌, String,
  ltb, Bytes, Result, ok, inl, inr, arith,
}
use yataverse_distribution.Prelude.Actions.{
  Action, >>=-eq_ok, ensure-eq_ok, if-eq, give-eq_ok, current-eq_ok, Keeps, give-Keeps, raise-Keeps,
  ensure-Keeps, change-Keeps, bind-Keeps, lift-Keeps, current-Keeps, if-Keeps,
}
use text.Mathlib.Text.{◌==◌ as text_eq}
use yataverse_distribution.Inventory.{Item}
use yataverse_distribution.Replicate.{ReplicationError, size_differs, State, Listing}
use yataverse_distribution.Replicate.Prefetch.{Event, submit, yield, refuse}
use yataverse_distribution.Replicate.Put.{Rpc, World, contains, block_size}
use yataverse_distribution.Replicate.Put.Keeps.{
  Untouched, is_durable-Keeps, add_pin_entry-Keeps, put_verified-Keeps, block_size-Keeps,
}
use yataverse_distribution.Replicate.Batch.{
  Args, Counters, Selection, none_selected, one_checked, one_selected, note_durable, check_known,
  plan_copy, select, record_copy, copy_block, copy,
}

-- A CID stays among the pins.
pub contains-Untouched :
    {D : Type 0} (cid : String) → Untouched {D = D} (λ w. contains cid w.pins ≡ true)
unfolding contains
contains-Untouched cid = record {
  daemon = λ w d p. p;
  pins = λ w c p. or_true (text_eq c cid) (contains cid w.pins) p;
  raw = λ w slots raw_cids p. p;
}
  where
    or_true : (a b : Bool) → b ≡ true → (a || b) ≡ true
    or_true true b h = refl
    or_true false b h = h

-- What is said of the checkpoint alone stays true in the per-block work.
pub saved-Untouched : {D : Type 0} (P : State → Type 0) → Untouched {D = D} (λ w. P w.saved)
saved-Untouched P = record { daemon = λ w d p. p; pins = λ w c p. p; raw = λ w slots raw_cids p. p }

module _ (sha256 : Bytes → Bytes) (b32decode : List ℕ → Option Bytes) (hexdigest : Bytes → String)
    (rpc : Rpc) (args : Args) (listing : Option String → Result ReplicationError Listing)
    (fetch_block : String → ℕ → Result ReplicationError Bytes)
    (free_bytes : World rpc.Daemon → ℕ) where
  -- The loops over a page, for what they have no say in.
  module _ (P : World rpc.Daemon → Type 0) (free : Untouched P) where
    note_durable-Keeps :
        (cid : String)
        → Keeps P
            (note_durable sha256 b32decode hexdigest rpc args listing fetch_block free_bytes cid)
    unfolding note_durable
    note_durable-Keeps cid = bind-Keeps P _ _ (current-Keeps P) λ w.
        if-Keeps P _ _ _ (give-Keeps P tt) (
          bind-Keeps P _ _ (is_durable-Keeps sha256 b32decode hexdigest rpc P free cid) λ durable.
            if-Keeps P durable _ _ (add_pin_entry-Keeps sha256 b32decode hexdigest rpc P free cid)
              (give-Keeps P tt))

    pub check_known-Keeps :
        (item : Item) (others : Action ReplicationError (World rpc.Daemon) Selection)
        → Keeps P others
        → Keeps P (
            check_known sha256 b32decode hexdigest rpc args listing fetch_block free_bytes item
              others)
    unfolding check_known
    check_known-Keeps item others k =
        bind-Keeps P _ _ (block_size-Keeps sha256 b32decode hexdigest rpc P free item.cid) λ size.
          bind-Keeps P _ _ (ensure-Keeps P _ _) λ _. bind-Keeps P _ _ k λ rest. give-Keeps P _

    pub plan_copy-Keeps :
        (item : Item) (new_bytes planned : ℕ)
        (others : Action ReplicationError (World rpc.Daemon) Selection)
        → Keeps P others
        → Keeps P (
            plan_copy sha256 b32decode hexdigest rpc args listing fetch_block free_bytes item
              new_bytes planned others)
    unfolding plan_copy
    plan_copy-Keeps item new_bytes planned others k = bind-Keeps P _ _ (ensure-Keeps P _ _) λ _.
        bind-Keeps P _ _ (current-Keeps P)
          λ w. bind-Keeps P _ _ (ensure-Keeps P _ _) λ _. bind-Keeps P _ _ k λ rest. give-Keeps P _

    pub select-Keeps :
        (items : List Item) (new_bytes planned : ℕ)
        → Keeps P (
            select sha256 b32decode hexdigest rpc args listing fetch_block free_bytes items
              new_bytes planned)
    unfolding select
    select-Keeps [] new_bytes planned = give-Keeps P _
    select-Keeps (item ∷ items) new_bytes planned = bind-Keeps P _ _ (ensure-Keeps P _ _) λ _.
        bind-Keeps P _ _ (note_durable-Keeps item.cid) λ _. bind-Keeps P _ _ (current-Keeps P) λ w.
          if-Keeps P _ _ _ (check_known-Keeps item _ (select-Keeps items new_bytes planned)) (
            if-Keeps P _ _ _ (give-Keeps P _) (
              plan_copy-Keeps item new_bytes _ _
                (select-Keeps items new_bytes (planned + item.size))))

    module _
        (recorded : (w : World rpc.Daemon) (item : Item) (block : Bytes)
          → P w
          → P (
              record_copy sha256 b32decode hexdigest rpc args listing fetch_block free_bytes item
                block w)) where
      copy_block-Keeps :
          (item : Item)
          → Keeps P
              (copy_block sha256 b32decode hexdigest rpc args listing fetch_block free_bytes item)
      unfolding copy_block
      copy_block-Keeps item = bind-Keeps P _ _ (lift-Keeps P _) λ block.
          bind-Keeps P _ _ (ensure-Keeps P _ _) λ _.
            bind-Keeps P _ _
              (put_verified-Keeps sha256 b32decode hexdigest rpc P free args.raw_enabled item.cid
                block)
              λ _. change-Keeps P _ (λ w p. recorded w item block p)

      pub copy-Keeps :
          (events : List Event) (c : Counters)
          → Keeps P
              (copy sha256 b32decode hexdigest rpc args listing fetch_block free_bytes events c)
      unfolding copy
      copy-Keeps [] c = give-Keeps P c
      copy-Keeps (submit item ∷ events) c = copy-Keeps events c
      copy-Keeps (yield item ∷ events) c =
          bind-Keeps P _ _ (copy_block-Keeps item) λ _. copy-Keeps events _
      copy-Keeps (refuse item ∷ events) c = raise-Keeps P _

  -- The daemon, or the raw store for its own blocks, has told the listed size of the block.
  abbrev pub Sized : Item → Type 0
  Sized item =
      (before after : World rpc.Daemon) × (block_size sha256 b32decode hexdigest rpc item.cid before
        ≡ (ok item.size, after))

  check_known-eq_ok :
      (item : Item) (others : Action ReplicationError (World rpc.Daemon) Selection)
      (w w' : World rpc.Daemon) (s : Selection)
      → check_known sha256 b32decode hexdigest rpc args listing fetch_block free_bytes item others w
        ≡ (ok s, w')
      → (rest : Selection) × (w1 : World rpc.Daemon) × (others w1 ≡ (ok rest, w'))
        × (one_checked rest ≡ s)
        × Sized item
  unfolding check_known
  check_known-eq_ok item others w w' s h =
      let (size, w1, told, h1) = >>=-eq_ok _ _ w w' s h in
      let (_, w2, same, h2) = >>=-eq_ok _ _ w1 w' s h1 in
      let (rest, w3, run, h3) = >>=-eq_ok _ _ w2 w' s h2 in
      let (is, at_end) = give-eq_ok (one_checked rest) s w3 w' h3 in
      let listed : size ≡ item.size = ground (arith, (ensure-eq_ok _ size_differs w1 w2 same).0) in
      (
        rest,
        w2,
        run ∙ ap (λ (v : World rpc.Daemon). (ok rest, v)) at_end,
        is,
        (w, w1, told ∙ ap (λ n. (ok n, w1)) listed),
      )

  plan_copy-eq_ok :
      (item : Item) (new_bytes planned : ℕ)
      (others : Action ReplicationError (World rpc.Daemon) Selection) (w w' : World rpc.Daemon)
      (s : Selection)
      → plan_copy sha256 b32decode hexdigest rpc args listing fetch_block free_bytes item new_bytes
          planned others w
        ≡ (ok s, w')
      → (rest : Selection) × (w1 : World rpc.Daemon) × (others w1 ≡ (ok rest, w'))
        × (one_selected item rest ≡ s)
  unfolding plan_copy
  plan_copy-eq_ok item new_bytes planned others w w' s h =
      let (_, w1, _, h1) = >>=-eq_ok _ _ w w' s h in
      let (_, w2, _, h2) = >>=-eq_ok _ _ w1 w' s h1 in
      let (_, w3, _, h3) = >>=-eq_ok _ _ w2 w' s h2 in
      let (rest, w4, run, h4) = >>=-eq_ok _ _ w3 w' s h3 in
      let (is, at_end) = give-eq_ok (one_selected item rest) s w4 w' h4 in
      (rest, w3, run ∙ ap (λ (v : World rpc.Daemon). (ok rest, v)) at_end, is)

  -- The three ways in which a round of the loop goes on.
  pub data Round (item : Item) (items : List Item) (new_bytes planned : ℕ) (s : Selection)
      (w' : World rpc.Daemon) : Type 0 where
    known :
        (rest : Selection) (w1 : World rpc.Daemon)
        → contains item.cid w'.pins ≡ true
        → select sha256 b32decode hexdigest rpc args listing fetch_block free_bytes items new_bytes
            planned w1
          ≡ (ok rest, w')
        → one_checked rest ≡ s
        → Sized item
        → Round item items new_bytes planned s w'
    stopped : none_selected true ≡ s → Round item items new_bytes planned s w'
    fresh :
        (rest : Selection) (w1 : World rpc.Daemon)
        → ltb args.max_new_bytes (new_bytes + (planned + item.size)) ≡ false
        → select sha256 b32decode hexdigest rpc args listing fetch_block free_bytes items new_bytes
            (planned + item.size)
            w1
          ≡ (ok rest, w')
        → one_selected item rest ≡ s
        → Round item items new_bytes planned s w'

  pub select-Round :
      (item : Item) (items : List Item) (new_bytes planned : ℕ) (w w' : World rpc.Daemon)
      (s : Selection)
      → select sha256 b32decode hexdigest rpc args listing fetch_block free_bytes
          (item ∷ items)
          new_bytes
          planned
          w
        ≡ (ok s, w')
      → Round item items new_bytes planned s w'
  unfolding select
  select-Round item items new_bytes planned w w' s h =
      let (_, w1, _, h1) = >>=-eq_ok _ _ w w' s h in
      let (_, w2, _, h2) = >>=-eq_ok _ _ w1 w' s h1 in
      let (now, w3, seen, h3) = >>=-eq_ok _ _ w2 w' s h2 in
      let (is_now, same) = current-eq_ok w2 now w3 seen in
      elim (if-eq (contains item.cid now.pins) _ _ w3 (ok s, w') h3) [
        | inl (there, h4) ↦
            let (rest, w4, run, is, sized) = check_known-eq_ok item _ w3 w' s h4 in
            let pinned : contains item.cid w3.pins ≡ true =
              subst (λ (v : World rpc.Daemon). contains item.cid v.pins ≡ true) (sym is_now ∙ same)
                there in
            let free = contains-Untouched {D = rpc.Daemon} item.cid in
            let kept =
              (check_known-Keeps _ free item _ (select-Keeps _ free items new_bytes planned)).at w3
                pinned in
            known rest w4 (subst (λ r. contains item.cid r.1.pins ≡ true) h4 kept) run is sized
        | inr (absent, h4) ↦
            elim (if-eq (ltb args.max_new_bytes (new_bytes + (planned + item.size))) _ _ w3
              (ok s, w') h4) [
                | inl (over, h5) ↦ stopped (give-eq_ok (none_selected true) s w3 w' h5).0
                | inr (room, h5) ↦
                    let (rest, w4, run, is) =
                      plan_copy-eq_ok item new_bytes (planned + item.size) _ w3 w' s h5 in
                    fresh rest w4 room run is
              ]
      ]
