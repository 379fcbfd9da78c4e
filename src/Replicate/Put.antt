-- ===== src/Replicate/Put.antt =====
-- The per-block work of class `KuboRPC` of deploy/replicate_lake.py. The daemon is an interface:
-- each request may change it, and may raise `ReplicationError`.
pub mod Durable
pub mod Keeps
use yataverse_distribution.Prelude.{
  ℕ, ◌+◌, ◌*◌, ◌==◌, Bool, true, false, not, ◌&&◌, ◌||◌, Option, none, some, List, [], ◌∷◌, ◌++◌,
  String, ltb, leb, length, Bytes, bytes_eq, Result, ok, err, if◌then◌else◌,
}
use yataverse_distribution.Prelude.Actions.{
  Action, give, raise, current, change, ensure, lift, attempt, ◌>>=◌, ◌>>◌,
}
use text.Mathlib.Text.{◌==◌ as text_eq}
use yataverse_distribution.RawStore.{RawBlockStoreError}
use yataverse_distribution.RawStore.Store as Store
use yataverse_distribution.RawStore.Store.{Slot}
use yataverse_distribution.Replicate.{
  ReplicationError, State, cid_prefix_unreadable, unsupported_cid_version, cid_rederived_differs,
  readback_differs, pin_receipt_differs, pin_missing, raw_store_refused, rpc_refused,
  attribute_error,
}

pub data Kind : Type 0 where
  direct recursive : Kind

-- The options of `block/put`.
pub data Options : Type 0 where
  v0 : Bool → Options
  v1 : String → String → String → Bool → Options

-- The requests: the words of `Formatted`, the `Key`, the bytes, the `Pins` if they are a list,
-- whether the reply names the CID as pinned in that way, and the `Size` if it is a count.
pub record Rpc : Type 1 where
  pub Daemon : Type 0
  pub cid_format : String → Action ReplicationError Daemon (List String)
  pub block_put : Options → Bytes → Action ReplicationError Daemon (Option String)
  pub block_get : String → ℕ → Action ReplicationError Daemon Bytes
  pub pin_add : String → Action ReplicationError Daemon (Option (List String))
  pub pin_ls : Kind → String → Action ReplicationError Daemon Bool
  pub block_stat : String → Action ReplicationError Daemon (Option ℕ)

-- What a batch changes: the daemon, the two sets of the Kubo object, the raw store, the checkpoint
-- as it is saved, and the receipts.
pub record World (D : Type 0) : Type 0 where
  pub daemon : D
  pub pins : List String
  pub raw_cids : List String
  pub slots : String → Slot
  pub saved : State
  pub receipts : List (String × ℕ × String)

unfoldable pub contains : String → List String → Bool
contains cid [] = false
contains cid (c ∷ cs) = text_eq c cid || contains cid cs

unfoldable pub is_text_of : String → Option String → Bool
is_text_of cid none = false
is_text_of cid (some s) = text_eq s cid

unfoldable pub lists : String → Option (List String) → Bool
unfolding contains
lists cid none = false
lists cid (some pins) = contains cid pins

-- `"pin: protobuf:" in str(exc)`
unfoldable pub is_protobuf_refusal : ReplicationError → Bool
is_protobuf_refusal (rpc_refused b) = b
is_protobuf_refusal _ = false

-- The options for `version codec hash_name hash_length`.
unfoldable pub put_options : List String → ℕ → Result ReplicationError Options
put_options (version ∷ codec ∷ hash_name ∷ hash_length ∷ []) size =
    let big = ltb (2 * 1024 * 1024) size in
    if text_eq version "cidv0"
    then ok (v0 big)
    else if text_eq version "cidv1"
    then ok (v1 codec hash_name hash_length big)
    else err unsupported_cid_version
put_options _ size = err cid_prefix_unreadable

module _ (sha256 : Bytes → Bytes) (b32decode : List ℕ → Option Bytes) (hexdigest : Bytes → String)
    (rpc : Rpc) where
  abbrev pub Batch : Type 0 → Type 0
  Batch A = Action ReplicationError (World rpc.Daemon) A

  module _ {A : Type 0} where
    unfoldable pub ask : Action ReplicationError rpc.Daemon A → Batch A
    ask m w = let (r, d) = m w.daemon in (r, record w { daemon = d })

  -- One pass of the loop of `durable_pin_type`: a refused request counts as no answer.
  unfoldable pub listed : Kind → String → Batch Bool
  listed kind cid w =
      let (r, w') = ask (rpc.pin_ls kind cid) w in (elim r [ ok b ↦ ok b | err e ↦ ok false ], w')

  -- `durable_pin_type(cid) is not None`
  unfoldable pub is_durable : String → Batch Bool
  is_durable cid = do pinned ← listed direct cid; if pinned then give true else listed recursive cid

  unfoldable pub add_pin_entry : String → Batch (Unit {0})
  add_pin_entry cid = change (λ w. record w { pins = cid ∷ w.pins })

  -- `pin/add` with the check of its receipt.
  unfoldable pub pin : String → Batch (Unit {0})
  pin cid = do pins ← ask (rpc.pin_add cid); ensure (lists cid pins) pin_receipt_differs

  abbrev pub set_slot : String → Slot → (String → Slot) → String → Slot
  set_slot cid slot slots c = if text_eq c cid then slot else slots c

  -- What follows `self.raw_store.put(cid, data)`.
  abbrev pub stored : String → Result RawBlockStoreError Slot → Batch (Unit {0})
  stored cid (err e) w = (err raw_store_refused, w)
  stored cid (ok slot) w = (
    ok tt,
    record w {
      slots = set_slot cid slot w.slots;
      raw_cids = cid ∷ w.raw_cids;
      pins = cid ∷ w.pins;
    },
  )

  -- `self.raw_store.put(cid, data); self.raw_cids.add(cid); self.pins.add(cid)`
  unfoldable pub store_raw : String → Bytes → Batch (Unit {0})
  store_raw cid block w =
      stored cid (Store.put sha256 b32decode hexdigest cid block (w.slots cid)) w

  -- The last check, and `self.pins.add(cid)`.
  unfoldable pub confirm : String → Batch (Unit {0})
  confirm cid = do durable ← is_durable cid; ensure durable pin_missing; add_pin_entry cid

  -- `except ReplicationError as exc` around `pin/add`.
  unfoldable pub after_refusal : Bool → String → Bytes → ReplicationError → Batch (Unit {0})
  after_refusal raw_enabled cid block e = do
    durable ← is_durable cid
    if durable
        then confirm cid
        else if not raw_enabled || not (is_protobuf_refusal e)
        then raise e
        else store_raw cid block

  -- From the check of the read back bytes on.
  unfoldable pub pin_or_store : Bool → String → Bytes → Batch (Unit {0})
  pin_or_store raw_enabled cid block = do
    refusal ← attempt (pin cid)
    elim refusal [ none ↦ confirm cid | some e ↦ after_refusal raw_enabled cid block e ]

  unfoldable pub put_verified : Bool → String → Bytes → Batch (Unit {0})
  put_verified raw_enabled cid block = do
    words ← ask (rpc.cid_format cid)
    options ← lift (put_options words (length block))
    produced ← ask (rpc.block_put options block)
    ensure (is_text_of cid produced) cid_rederived_differs
    reread ← ask (rpc.block_get cid (length block))
    ensure (bytes_eq reread block) readback_differs
    pin_or_store raw_enabled cid block

  -- `block_size`. A CID in `raw_cids` whose files are gone raises `TypeError`.
  unfoldable pub block_size : String → Batch ℕ
  block_size cid = do
    w ← current
    let stored =
        lift (elim (Store.read sha256 b32decode hexdigest cid Store.max_block (w.slots cid)) [
          | err e ↦ err raw_store_refused
          | ok found ↦ elim found [ none ↦ err attribute_error | some block ↦ ok (length block) ]
        ])
    let stat = (do
      size ← ask (rpc.block_stat cid)
      elim size [ none ↦ raise attribute_error | some n ↦ give n ])
    if contains cid w.raw_cids then stored else stat
