-- ===== src/Replicate/Sources/Counted.antt =====
-- What the block sources count, and when the primary one is left alone.
use Prim.Native.String.{◌++◌ as text_append}
use yataverse_distribution.Prelude.{
  ℕ, ◌+◌, ◌≡◌, refl, ◌⊎◌, ltb, String, Bytes, Result, ok, err, Bool-cases, inl, inr,
}
use yataverse_distribution.Replicate.{ReplicationError}
use yataverse_distribution.Replicate.Sources.{
  Origins, url_cid, from_fallback, from_primary, fetch_cid, fetch_origin,
}

-- The block is the answer of one of the two sources, and that one is counted.
abbrev pub IsCounted :
    Result ReplicationError Bytes
    → Result ReplicationError Bytes
    → Result ReplicationError Bytes
    → Origins
    → Origins
    → Type 0
IsCounted primary fallback (ok block) o o' =
    ((primary ≡ ok block) × (o'.primary ≡ o.primary + 1) × (o'.fallback ≡ o.fallback))
    ⊎ ((fallback ≡ ok block) × (o'.primary ≡ o.primary) × (o'.fallback ≡ o.fallback + 1))
IsCounted primary fallback (err e) o o' = (o'.primary ≡ o.primary) × (o'.fallback ≡ o.fallback)

from_fallback-IsCounted :
    (p f : Result ReplicationError Bytes) (o : Origins)
    → IsCounted p f (from_fallback f o).0 o (from_fallback f o).1
unfolding from_fallback
from_fallback-IsCounted p (ok block) o = inr (refl, refl, refl)
from_fallback-IsCounted p (err e) o = (refl, refl)

from_primary-IsCounted :
    (p : Result ReplicationError Bytes) (failed_at : ℕ) (f : Result ReplicationError Bytes)
    (o : Origins)
    → IsCounted p f (from_primary p failed_at f o).0 o (from_primary p failed_at f o).1
unfolding from_primary from_fallback
from_primary-IsCounted (ok block) failed_at f o = inl (refl, refl, refl)
from_primary-IsCounted (err e) failed_at (ok block) o = inr (refl, refl, refl)
from_primary-IsCounted (err e) failed_at (err e') o = (refl, refl)

module _ (transfer : String → ℕ → Result ReplicationError Bytes)
    (primary_base fallback_base : String) where
  -- A fetch of a URL whose base and CID are right gives the bytes that the primary source sent for
  -- the URL, or those that the fallback sent for its CID, and counts exactly that source, once; if
  -- it raises, it counts nothing.
  pub fetch_origin-IsCounted :
      (url cid : String) (limit now failed_at : ℕ) (o : Origins)
      → url_cid primary_base url ≡ ok cid
      → IsCounted
          (transfer url limit)
          (transfer (text_append fallback_base cid) limit)
          (fetch_origin transfer primary_base fallback_base url limit now failed_at o).0
          o
          (fetch_origin transfer primary_base fallback_base url limit now failed_at o).1
  unfolding fetch_origin fetch_cid
  fetch_origin-IsCounted url cid limit now failed_at o good =
      elim (Bool-cases (ltb now o.suppressed_until)) [
        | inl early ↦
            rw (good, early)
              (from_fallback-IsCounted (transfer url limit)
                (transfer (text_append fallback_base cid) limit) o)
        | inr late ↦
            rw (good, late)
              (from_primary-IsCounted (transfer url limit) failed_at
                (transfer (text_append fallback_base cid) limit) o)
      ]
