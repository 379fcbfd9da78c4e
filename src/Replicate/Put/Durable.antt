-- ===== src/Replicate/Put/Durable.antt =====
-- What a verified put leaves behind.
use yataverse_distribution.Prelude.{
  ℕ, ◌≡◌, refl, sym, ap, ◌∙◌, subst, Bool, true, not, ◌||◌, Option, none, some, List, ◌∷◌, String,
  length, Bytes, bytes_eq, bytes_eq→eq, Result, ok, err, Bool-cases, inl, inr, ◌⊎◌,
}
use yataverse_distribution.Prelude.Actions.{Action, raise, change, >>=-eq_ok, ensure-eq_ok}
use text.Mathlib.TextPositions.{eq_refl}
use yataverse_distribution.RawStore.{RawBlockStoreError}
use yataverse_distribution.RawStore.Store as Store
use yataverse_distribution.RawStore.Store.{Slot}
use yataverse_distribution.Replicate.{ReplicationError, pin_missing, readback_differs}
use yataverse_distribution.Replicate.Put.{
  Rpc, World, contains, ask, is_durable, add_pin_entry, set_slot, stored, store_raw, confirm,
  after_refusal, pin_or_store, put_verified, is_protobuf_refusal,
}

module _ (sha256 : Bytes → Bytes) (b32decode : List ℕ → Option Bytes) (hexdigest : Bytes → String)
    (rpc : Rpc) where
  -- The block is accounted for in `pins`, and is held: the last word of the daemon is that it is
  -- pinned, or the raw store has just taken it.
  pub record Held (cid : String) (block : Bytes) (w' : World rpc.Daemon) : Type 0 where
    pub pinned : contains cid w'.pins ≡ true
    pub held :
        ((w0 : World rpc.Daemon) × (w1 : World rpc.Daemon) × (is_durable sha256 b32decode hexdigest
              rpc cid w0
            ≡ (ok true, w1))
          × (w1.daemon ≡ w'.daemon))
        ⊎ ((slot : Slot) × (Store.put sha256 b32decode hexdigest cid block slot
              ≡ ok (w'.slots cid)))

  confirm-Held :
      (cid : String) (block : Bytes) (w w' : World rpc.Daemon)
      → confirm sha256 b32decode hexdigest rpc cid w ≡ (ok tt, w')
      → Held cid block w'
  unfolding confirm add_pin_entry change contains
  confirm-Held cid block w w' h =
      let (durable, w1, asked, h1) = >>=-eq_ok _ _ w w' tt h in
      let (u, w2, ensured, h2) = >>=-eq_ok _ _ w1 w' tt h1 in
      let (yes', same) = ensure-eq_ok durable pin_missing w1 w2 ensured in
      let last : record w2 { pins = cid ∷ w2.pins } ≡ w' = ap (λ r. r.1) h2 in
      record {
        pinned =
            subst (λ (v : World rpc.Daemon). contains cid v.pins ≡ true) last
              (rw (eq_refl cid) refl);
        held = inl (
          w,
          w1,
          asked ∙ ap (λ b. (ok b, w1)) yes',
          ap (λ (v : World rpc.Daemon). v.daemon) same
              ∙ ap (λ (v : World rpc.Daemon). v.daemon) last,
        );
      }

  store_raw-Held :
      (cid : String) (block : Bytes) (w w' : World rpc.Daemon)
      → store_raw sha256 b32decode hexdigest rpc cid block w ≡ (ok tt, w')
      → Held cid block w'
  unfolding store_raw contains
  store_raw-Held cid block w w' h =
      go (Store.put sha256 b32decode hexdigest cid block (w.slots cid)) refl h
    where
      go :
          (r : Result RawBlockStoreError Slot)
          → Store.put sha256 b32decode hexdigest cid block (w.slots cid) ≡ r
          → stored sha256 b32decode hexdigest rpc cid r w ≡ (ok tt, w')
          → Held cid block w'
      go (err x) p k = cc
      go (ok slot) p k =
          let last = ap (λ r. r.1) k in
          let kept : set_slot sha256 b32decode hexdigest rpc cid slot w.slots cid ≡ slot =
            rw (eq_refl cid) refl in
          record {
            pinned =
                subst (λ (v : World rpc.Daemon). contains cid v.pins ≡ true) last
                  (rw (eq_refl cid) refl);
            held = inr (
              w.slots cid,
              p ∙ ap ok (sym kept ∙ ap (λ (v : World rpc.Daemon). v.slots cid) last),
            );
          }

  after_refusal-Held :
      (raw_enabled : Bool) (cid : String) (block : Bytes) (e : ReplicationError)
      (w w' : World rpc.Daemon)
      → after_refusal sha256 b32decode hexdigest rpc raw_enabled cid block e w ≡ (ok tt, w')
      → Held cid block w'
  unfolding after_refusal
  after_refusal-Held raw_enabled cid block e w w' h =
      let (durable, w1, asked, h1) = >>=-eq_ok _ _ w w' tt h in
      elim (Bool-cases durable) [
        | inl there ↦ confirm-Held cid block w1 w' (rw there at h1)
        | inr gone ↦ elim (Bool-cases (not raw_enabled || not (is_protobuf_refusal e))) [
          | inl raised ↦ unfold raise in cc (rw (gone, raised) at h1)
          | inr stores ↦ store_raw-Held cid block w1 w' (rw (gone, stores) at h1)
        ]
      ]

  pin_or_store-Held :
      (raw_enabled : Bool) (cid : String) (block : Bytes) (w w' : World rpc.Daemon)
      → pin_or_store sha256 b32decode hexdigest rpc raw_enabled cid block w ≡ (ok tt, w')
      → Held cid block w'
  unfolding pin_or_store
  pin_or_store-Held raw_enabled cid block w w' h =
      let (refusal, w1, asked, h1) = >>=-eq_ok _ _ w w' tt h in go refusal w1 h1
    where
      go :
          (refusal : Option ReplicationError) (w1 : World rpc.Daemon)
          → elim refusal as (λ _. Action ReplicationError (World rpc.Daemon) (Unit {0})) [
            | none ↦ confirm sha256 b32decode hexdigest rpc cid
            | some e ↦ after_refusal sha256 b32decode hexdigest rpc raw_enabled cid block e
          ]
              w1
            ≡ (ok tt, w')
          → Held cid block w'
      go none w1 h1 = confirm-Held cid block w1 w' h1
      go (some e) w1 h1 = after_refusal-Held raw_enabled cid block e w1 w' h1

  -- A put that ends well has the CID among the pins. The daemon has returned the same bytes under
  -- the CID, and either its last answer says that the CID is pinned, or the raw store took the
  -- block.
  pub put_verified-Held :
      (raw_enabled : Bool) (cid : String) (block : Bytes) (w w' : World rpc.Daemon)
      → put_verified sha256 b32decode hexdigest rpc raw_enabled cid block w ≡ (ok tt, w')
      → Held cid block w'
        × ((w0 : World rpc.Daemon) × (w1 : World rpc.Daemon) × (ask sha256 b32decode hexdigest rpc
                (rpc.block_get cid (length block))
                w0
              ≡ (ok block, w1)))
  unfolding put_verified
  put_verified-Held raw_enabled cid block w w' h =
      let (words, w1, _, h1) = >>=-eq_ok _ _ w w' tt h in
      let (options, w2, _, h2) = >>=-eq_ok _ _ w1 w' tt h1 in
      let (produced, w3, _, h3) = >>=-eq_ok _ _ w2 w' tt h2 in
      let (_, w4, _, h4) = >>=-eq_ok _ _ w3 w' tt h3 in
      let (reread, w5, got, h5) = >>=-eq_ok _ _ w4 w' tt h4 in
      let (_, w6, same, h6) = >>=-eq_ok _ _ w5 w' tt h5 in
      let eq =
        bytes_eq→eq reread block
          (ensure-eq_ok (bytes_eq reread block) readback_differs w5 w6 same).0 in
      (pin_or_store-Held raw_enabled cid block w6 w' h6, (w4, w5, got ∙ ap (λ b. (ok b, w5)) eq))
