-- ===== src/Tests/Sources.antt =====
-- A primary source that fails, and a fallback that has the block.
use yataverse_distribution.Prelude.{ℕ, ◌≡◌, refl, String, Bytes, Result, ok, err, if◌then◌else◌}
use text.Mathlib.Text.{◌==◌ as text_eq}
use Prim.Native.String.{◌++◌ as text_append}
use yataverse_distribution.RawStore.{is_cid_v0, is_cid_v1}
use yataverse_distribution.Replicate.{ReplicationError, size_differs, valid_cid}
use yataverse_distribution.Replicate.Migration.{text_behind}
use yataverse_distribution.Replicate.Sources.{Origins, url_cid, fetch_origin}
use yataverse_distribution.Replicate.Sources.Counted.{IsCounted, fetch_origin-IsCounted}
use yataverse_distribution.Tests.Inventory.{cid_a}
use yataverse_distribution.Tests.RawStore.{five}

abbrev url : String
url = text_append "http://127.0.0.1/ipfs/" cid_a

abbrev toy_transfer : String → ℕ → Result ReplicationError Bytes
toy_transfer at limit = if text_eq at url then err size_differs else ok five

abbrev origins : Origins
origins = record { primary = 3; fallback = 1; suppressed_until = 50 }

right_url : url_cid "http://127.0.0.1/ipfs/" url ≡ ok cid_a
unfolding url_cid text_behind valid_cid is_cid_v0 is_cid_v1
right_url = refl

fetch_origin-IsCounted_example :
    IsCounted
      (toy_transfer url 5)
      (toy_transfer (text_append "https://a/ipfs/" cid_a) 5)
      (fetch_origin toy_transfer "http://127.0.0.1/ipfs/" "https://a/ipfs/" url 5 60 61 origins).0
      origins
      (fetch_origin toy_transfer "http://127.0.0.1/ipfs/" "https://a/ipfs/" url 5 60 61 origins).1
fetch_origin-IsCounted_example =
    fetch_origin-IsCounted toy_transfer "http://127.0.0.1/ipfs/" "https://a/ipfs/" url cid_a 5 60 61
      origins right_url
