-- ===== src/Replicate/Put/Keeps.antt =====
-- The per-block work changes no part of the batch's state but the daemon, the pins and the raw
-- store: what is true of the rest stays true, also when it raises.
use yataverse_distribution.Prelude.{
  ℕ, Bool, true, Option, none, some, List, ◌∷◌, String, Bytes, Result, ok, err,
}
use yataverse_distribution.Prelude.Actions.{
  Action, give, raise, Keeps, give-Keeps, raise-Keeps, ensure-Keeps, change-Keeps, bind-Keeps,
  attempt-Keeps, lift-Keeps, current-Keeps, if-Keeps,
}
use yataverse_distribution.RawStore.{RawBlockStoreError}
use yataverse_distribution.RawStore.Store as Store
use yataverse_distribution.RawStore.Store.{Slot}
use yataverse_distribution.Replicate.{ReplicationError, attribute_error}
use yataverse_distribution.Replicate.Put.{
  Rpc, World, Kind, direct, recursive, ask, listed, is_durable, add_pin_entry, pin, set_slot,
  stored, store_raw, confirm, after_refusal, pin_or_store, put_verified, block_size,
}

-- A property that the daemon, the raw store and one more pin have no say in.
pub record Untouched {D : Type 0} (P : World D → Type 0) : Type 0 where
  pub daemon : (w : World D) (d : D) → P w → P (record w { daemon = d })
  pub pins : (w : World D) (cid : String) → P w → P (record w { pins = cid ∷ w.pins })
  pub raw :
      (w : World D) (slots : String → Slot) (raw_cids : List String)
      → P w
      → P (record w { slots = slots; raw_cids = raw_cids })

module _ (sha256 : Bytes → Bytes) (b32decode : List ℕ → Option Bytes) (hexdigest : Bytes → String)
    (rpc : Rpc) (P : World rpc.Daemon → Type 0) (free : Untouched P) where
  pub ask-Keeps :
      {A : Type 0} (m : Action ReplicationError rpc.Daemon A)
      → Keeps P (ask sha256 b32decode hexdigest rpc m)
  unfolding ask
  ask-Keeps m = record { at = λ w p. free.daemon w (m w.daemon).1 p }

  listed-Keeps :
      (kind : Kind) (cid : String) → Keeps P (listed sha256 b32decode hexdigest rpc kind cid)
  unfolding listed
  listed-Keeps kind cid = record { at = (ask-Keeps (rpc.pin_ls kind cid)).at }

  pub is_durable-Keeps : (cid : String) → Keeps P (is_durable sha256 b32decode hexdigest rpc cid)
  unfolding is_durable
  is_durable-Keeps cid =
      bind-Keeps P _ _ (listed-Keeps direct cid)
        λ pinned. if-Keeps P pinned _ _ (give-Keeps P true) (listed-Keeps recursive cid)

  pub add_pin_entry-Keeps :
      (cid : String) → Keeps P (add_pin_entry sha256 b32decode hexdigest rpc cid)
  unfolding add_pin_entry
  add_pin_entry-Keeps cid = change-Keeps P _ (λ w p. free.pins w cid p)

  pin-Keeps : (cid : String) → Keeps P (pin sha256 b32decode hexdigest rpc cid)
  unfolding pin
  pin-Keeps cid = bind-Keeps P _ _ (ask-Keeps (rpc.pin_add cid)) λ pins. ensure-Keeps P _ _

  confirm-Keeps : (cid : String) → Keeps P (confirm sha256 b32decode hexdigest rpc cid)
  unfolding confirm
  confirm-Keeps cid =
      bind-Keeps P _ _ (is_durable-Keeps cid)
        λ durable. bind-Keeps P _ _ (ensure-Keeps P _ _) λ _. add_pin_entry-Keeps cid

  store_raw-Keeps :
      (cid : String) (block : Bytes) → Keeps P (store_raw sha256 b32decode hexdigest rpc cid block)
  unfolding store_raw
  store_raw-Keeps cid block = record {
    at = λ w p. go w p (Store.put sha256 b32decode hexdigest cid block (w.slots cid));
  }
    where
      go :
          (w : World rpc.Daemon)
          → P w
          → (r : Result RawBlockStoreError Slot)
          → P (stored sha256 b32decode hexdigest rpc cid r w).1
      go w p (err e) = p
      go w p (ok slot) = free.pins _ cid (
          free.raw w (set_slot sha256 b32decode hexdigest rpc cid slot w.slots) (cid ∷ w.raw_cids)
            p)

  after_refusal-Keeps :
      (raw_enabled : Bool) (cid : String) (block : Bytes) (e : ReplicationError)
      → Keeps P (after_refusal sha256 b32decode hexdigest rpc raw_enabled cid block e)
  unfolding after_refusal
  after_refusal-Keeps raw_enabled cid block e = bind-Keeps P _ _ (is_durable-Keeps cid) λ durable.
      if-Keeps P durable _ _ (confirm-Keeps cid)
        (if-Keeps P _ _ _ (raise-Keeps P e) (store_raw-Keeps cid block))

  pin_or_store-Keeps :
      (raw_enabled : Bool) (cid : String) (block : Bytes)
      → Keeps P (pin_or_store sha256 b32decode hexdigest rpc raw_enabled cid block)
  unfolding pin_or_store
  pin_or_store-Keeps raw_enabled cid block =
      bind-Keeps P _ _ (attempt-Keeps P _ (pin-Keeps cid)) λ refusal. handled refusal
    where
      handled :
          (refusal : Option ReplicationError)
          → Keeps P (elim refusal as (λ _. Action ReplicationError (World rpc.Daemon) (Unit {0})) [
            | none ↦ confirm sha256 b32decode hexdigest rpc cid
            | some e ↦ after_refusal sha256 b32decode hexdigest rpc raw_enabled cid block e
          ])
      handled none = confirm-Keeps cid
      handled (some e) = after_refusal-Keeps raw_enabled cid block e

  pub put_verified-Keeps :
      (raw_enabled : Bool) (cid : String) (block : Bytes)
      → Keeps P (put_verified sha256 b32decode hexdigest rpc raw_enabled cid block)
  unfolding put_verified
  put_verified-Keeps raw_enabled cid block = bind-Keeps P _ _ (ask-Keeps _) λ words.
      bind-Keeps P _ _ (lift-Keeps P _) λ options. bind-Keeps P _ _ (ask-Keeps _) λ produced.
        bind-Keeps P _ _ (ensure-Keeps P _ _) λ _. bind-Keeps P _ _ (ask-Keeps _) λ reread.
          bind-Keeps P _ _ (ensure-Keeps P _ _) λ _. pin_or_store-Keeps raw_enabled cid block

  pub block_size-Keeps : (cid : String) → Keeps P (block_size sha256 b32decode hexdigest rpc cid)
  unfolding block_size
  block_size-Keeps cid =
      bind-Keeps P _ _ (current-Keeps P) λ w.
        if-Keeps P _ _ _ (lift-Keeps P _) (bind-Keeps P _ _ (ask-Keeps _) λ size. answered size)
    where
      answered :
          (size : Option ℕ)
          → Keeps P (elim size as (λ _. Action ReplicationError (World rpc.Daemon) ℕ) [
            | none ↦ raise attribute_error
            | some n ↦ give n
          ])
      answered none = raise-Keeps P _
      answered (some n) = give-Keeps P n
