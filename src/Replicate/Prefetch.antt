-- ===== src/Replicate/Prefetch.antt =====
-- `prefetch_ordered` of deploy/replicate_lake.py: the downloads that it starts and the blocks that
-- it yields, in the order in which it does so.
pub mod Window
use yataverse_distribution.Prelude.{
  ℕ, ◌+◌, ◌-◌, Bool, ◌||◌, List, [], ◌∷◌, ◌++◌, ltb, leb, length, if◌then◌else◌,
}
use yataverse_distribution.Inventory.{Item}

-- A download is submitted to the pool, the oldest one is awaited and yielded, or an item is
-- refused.
pub data Event : Type 0 where
  submit yield refuse : Item → Event

-- The downloads in flight, oldest first, and `pending_bytes`.
pub record InFlight : Type 0 where
  pub items : List Item
  pub bytes : ℕ

-- `while pending and (len(pending) >= workers or pending_bytes + size > max_prefetch_bytes)`
unfoldable pub drain : ℕ → ℕ → ℕ → List Item → ℕ → List Event × InFlight
drain workers budget size [] bytes = ([], record { items = []; bytes = bytes })
drain workers budget size (oldest ∷ others) bytes =
    let rest = drain workers budget size others (bytes - oldest.size) in
    if leb workers (length (oldest ∷ others)) || ltb budget (bytes + size)
    then (yield oldest ∷ rest.0, rest.1)
    else ([], record { items = oldest ∷ others; bytes = bytes })

-- The last loop.
unfoldable pub drain_all : List Item → List Event
drain_all [] = []
drain_all (oldest ∷ others) = yield oldest ∷ drain_all others

unfoldable pub prefetch_from : ℕ → ℕ → List Item → InFlight → List Event
unfolding drain drain_all
prefetch_from workers budget [] pending = drain_all pending.items
prefetch_from workers budget (item ∷ items) pending =
    let (yielded, left) = drain workers budget item.size pending.items pending.bytes in
    let next : InFlight = record {
      items = left.items ++ (item ∷ []);
      bytes = left.bytes + item.size;
    } in
    let rest = prefetch_from workers budget items next in
    if ltb budget item.size then refuse item ∷ [] else yielded ++ (submit item ∷ rest)

unfoldable pub prefetch_ordered : List Item → ℕ → ℕ → List Event
unfolding prefetch_from
prefetch_ordered items workers budget =
    prefetch_from workers budget items (record { items = []; bytes = 0 })
