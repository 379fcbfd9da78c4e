-- ===== src/Tests/Epochs.antt =====
-- One epoch of two rows.
use yataverse_distribution.Prelude.{List, take, drop, min, ◌+◌, ◌-◌, arith, ◌≡◌, refl, [], ◌∷◌, ok}
use yataverse_distribution.Json.{has_key}
use yataverse_distribution.Inventory.{Item, concat_lines}
use yataverse_distribution.Epochs.{
  Epoch, EpochInventory, new_epochs, epoch_rows, count, epoch_starts, contents_of, total_rows,
  own_parts, own_sizes, bytes_of_parts,
}
use yataverse_distribution.Epochs.Parts.{HasRow, epoch_rows-all_items}
use yataverse_distribution.Tests.Inventory.{
  cid_a, toy_loads, toy_hexdigest, two_rows, two_items, loaded, snapshot,
}

abbrev epoch : Epoch
epoch = record { inventory = loaded; file = two_rows }

abbrev one_epoch : EpochInventory
one_epoch = record {
  parts = epoch ∷ [];
  starts = 0 ∷ [];
  sizes = loaded.sizes;
  owner = (cid_a, 0) ∷ ("bbbbbbbbbbbbbbbbbbbbbbbbbbbbbbbbbbbbbbbbbbbbbbbb", 0) ∷ [];
  total = 2;
  sha256 = "00";
  total_bytes = 12;
}

accepted : new_epochs toy_loads toy_hexdigest (epoch ∷ []) "00" 2 ≡ ok one_epoch
unfolding new_epochs epoch_starts contents_of total_rows own_parts own_sizes bytes_of_parts
    concat_lines has_key
accepted = refl

abbrev both : Epoch → List Item
both part = two_items

epoch_rows-all_items_example :
    (r : HasRow (epoch ∷ []) (epoch_starts 0 (epoch ∷ [])) 1) × (epoch_rows toy_loads toy_hexdigest
        one_epoch 1 5
      ≡ ok (
        take (min 5 (r.start + count r.part - 1)) (drop 1 two_items),
        1 + min 5 (r.start + count r.part - 1),
      ))
epoch_rows-all_items_example =
    epoch_rows-all_items toy_loads refl toy_hexdigest both (epoch ∷ []) "00" 2 one_epoch 1 5
      (snapshot, tt) accepted (omega arith) (omega arith) (omega arith)
