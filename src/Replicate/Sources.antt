-- ===== src/Replicate/Sources.antt =====
-- The block sources of deploy/replicate_lake.py: `origin_fallback_block_fetcher`, with its counters
-- and the time up to which it leaves the primary source alone, and the fetch of
-- `peer_first_block_fetcher`. The transfers and the clock are inputs; times are in seconds.
pub mod Counted
use Prim.Native.String.{◌++◌ as text_append}
use yataverse_distribution.Prelude.{
  ℕ, ◌+◌, ◌*◌, ◌/◌, Bool, true, false, not, Option, none, some, List, [], ◌∷◌, String, ltb, min,
  Bytes, Result, ok, err, require, ◌>>=◌, ◌>>◌, if◌then◌else◌,
}
use yataverse_distribution.Json.{codes}
use yataverse_distribution.Replicate.{
  ReplicationError, valid_cid, url_differs, url_cid_invalid, both_origins_failed, peer_unavailable,
}
use yataverse_distribution.Replicate.Migration.{text_behind}

-- `counts` and `primary_suppressed_until`.
pub record Origins : Type 0 where
  pub primary : ℕ
  pub fallback : ℕ
  pub suppressed_until : ℕ

-- The CID behind the configured base of a URL.
unfoldable pub url_cid : String → String → Result ReplicationError String
url_cid base url = elim (text_behind (codes base) url) [
  | none ↦ err url_differs
  | some cid ↦ require (valid_cid (some cid)) url_cid_invalid >> ok cid
]

-- `counts[source] += 1`
abbrev pub count_primary : Origins → Origins
count_primary o = record o { primary = o.primary + 1 }

abbrev pub count_fallback : Origins → Origins
count_fallback o = record o { fallback = o.fallback + 1 }

-- What the fallback gave.
unfoldable pub from_fallback :
    Result ReplicationError Bytes → Origins → Result ReplicationError Bytes × Origins
from_fallback (ok block) o = (ok block, count_fallback o)
from_fallback (err e) o = (err both_origins_failed, o)

-- What the primary gave, when it was asked; `failed_at` is the time behind its failure.
unfoldable pub from_primary :
    Result ReplicationError Bytes
    → ℕ
    → Result ReplicationError Bytes
    → Origins
    → Result ReplicationError Bytes × Origins
unfolding from_fallback
from_primary (ok block) failed_at fallback o = (ok block, count_primary o)
from_primary (err e) failed_at fallback o =
    from_fallback fallback (record o { suppressed_until = failed_at + 60 })

module _ (transfer : String → ℕ → Result ReplicationError Bytes)
    (primary_base fallback_base : String) where
  unfoldable pub fetch_cid :
      Result ReplicationError String
      → String
      → ℕ
      → ℕ
      → ℕ
      → Origins
      → Result ReplicationError Bytes × Origins
  unfolding from_primary from_fallback
  fetch_cid (err e) url limit now failed_at o = (err e, o)
  fetch_cid (ok cid) url limit now failed_at o =
      let fallback = transfer (text_append fallback_base cid) limit in
      if ltb now o.suppressed_until
      then from_fallback fallback o
      else from_primary (transfer url limit) failed_at fallback o

  -- `fetch` of `origin_fallback_block_fetcher`, begun at `now`.
  unfoldable pub fetch_origin :
      String → ℕ → ℕ → ℕ → Origins → Result ReplicationError Bytes × Origins
  unfolding fetch_cid
  fetch_origin url limit now failed_at o =
      fetch_cid (url_cid primary_base url) url limit now failed_at o

-- `transfer_seconds`
unfoldable pub transfer_seconds : ℕ → ℕ
transfer_seconds limit = min 600 (12 + limit / (512 * 1024))

-- One pass of the loop: what the peer gave, and whether time remained behind a failure.
pub record Attempt : Type 0 where
  pub answer : Result ReplicationError Bytes
  pub remains : Bool

-- The loop over the peer; a list that ends too early stands for a loop that is still waiting.
unfoldable pub ask_peer :
    Bool → Result ReplicationError Bytes → List Attempt → Option (Result ReplicationError Bytes)
ask_peer peer_only public_answer [] = none
ask_peer peer_only public_answer (attempt ∷ attempts) =
    let rest = ask_peer peer_only public_answer attempts in
    elim attempt.answer [
      | ok block ↦ some (ok block)
      | err e ↦
          if not peer_only
          then some public_answer
          else if attempt.remains
          then rest
          else some (err peer_unavailable)
    ]
