-- ===== src/Tests/RawStore.antt =====
-- A raw block put into an empty store, and read back.
use yataverse_distribution.Prelude.{
  ℕ, ◌≡◌, ◌≤◌, refl, [], ◌∷◌, List, String, Bytes, Option, some, ok, err, length, replicate,
  bytes_eq, true,
}
use yataverse_distribution.Json.{Dict, Json, codes, is_sha256}
use yataverse_distribution.RawStore.{verify_cid, file_missing}
use yataverse_distribution.RawStore.Store.{
  Slot, absent, file, object, read, put, put_new, new_meta, max_block,
}
use yataverse_distribution.RawStore.Store.Laws.{read-eq_some, read-put, put-put_crashed}
use yataverse_distribution.Tests.Inventory.{cid_a}

abbrev pub toy_sha256 : Bytes → Bytes
toy_sha256 bytes = replicate 32 (length bytes)

-- A digest in hexadecimal, of any bytes.
abbrev pub toy_hex : Bytes → String
toy_hex bytes = "0123456789abcdef0123456789abcdef0123456789abcdef0123456789abcdef"

pub toy_hex-is_sha256 : (b : Bytes) → is_sha256 (toy_hex b) ≡ true
unfolding is_sha256
toy_hex-is_sha256 b = refl

abbrev pub toy_b32decode : List ℕ → Option Bytes
toy_b32decode cs = some (1 ∷ 0x55 ∷ 0x12 ∷ 0x20 ∷ replicate 32 5)

abbrev pub five : Bytes
five = replicate 5 9

abbrev pub empty_slot : Slot
empty_slot = record { block = absent; meta = absent }

abbrev five_meta : Dict
five_meta =
    ("schema", Json.int 1)
    ∷ ("cid", Json.str cid_a)
    ∷ ("bytes", Json.int 5)
    ∷ ("sha256", Json.str (toy_hex five))
    ∷ []

abbrev five_slot : Slot
five_slot = record { block = file five; meta = file (object five_meta) }

put-five : put toy_sha256 toy_b32decode toy_hex cid_a five empty_slot ≡ ok five_slot
unfolding put put_new new_meta max_block verify_cid bytes_eq
put-five = refl

read-put_example : read toy_sha256 toy_b32decode toy_hex cid_a max_block five_slot ≡ ok (some five)
read-put_example =
    read-put toy_sha256 toy_b32decode toy_hex toy_hex-is_sha256 cid_a five empty_slot five_slot refl
      put-five

put-put_crashed_example :
    (read toy_sha256 toy_b32decode toy_hex cid_a max_block (record five_slot { meta = absent })
      ≡ err file_missing)
    × (put toy_sha256 toy_b32decode toy_hex cid_a five (record five_slot { meta = absent })
        ≡ ok five_slot)
put-put_crashed_example =
    put-put_crashed toy_sha256 toy_b32decode toy_hex toy_hex-is_sha256 cid_a five empty_slot
      five_slot refl refl put-five

read-eq_some_example :
    (verify_cid toy_sha256 toy_b32decode (codes cid_a) five ≡ ok tt)
    × (1 ≤ length five)
    × (length five ≤ max_block)
read-eq_some_example =
    read-eq_some toy_sha256 toy_b32decode toy_hex cid_a max_block five_slot five read-put_example
