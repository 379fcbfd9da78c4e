-- ===== src/Tests/Handler.antt =====
-- Two requests for one slot.
use yataverse_distribution.Prelude.{◌+◌, ◌≡◌, refl, [], ◌∷◌, List, none, ok, err, length}
use yataverse_distribution.Inventory.{cid_absent}
use yataverse_distribution.Handler.{
  Source, Server, Event, comes_in, ends, health, broken, handler_for, serve, step, arrived,
  admitted,
}
use yataverse_distribution.Handler.Slots.{larges, all_lost, NoneBroken, serve-slots}

abbrev source : Source
source = record {
  sha256 = "00";
  row_count = 2;
  byte_count = 12;
  listed_size = λ cid. none;
  page_at = λ offset. err cid_absent;
  read_block = λ cid. err cid_absent;
}

abbrev idle : Server
idle = record { free_slots = 1; free_large = 1; running = [] }

abbrev events : List Event
events = comes_in health ∷ comes_in health ∷ ends 0 ∷ comes_in health ∷ []

made : handler_for 1 120 ≡ ok idle
unfolding handler_for
made = refl

serve-slots_example :
    ((serve source events idle).free_slots
        + length (serve source events idle).running
        + all_lost source events idle
      ≡ 1)
    × ((serve source events idle).free_large + larges (serve source events idle).running ≡ 1)
    × (NoneBroken events → all_lost source events idle ≡ 0)
serve-slots_example = serve-slots source 1 120 idle events made

-- One broken request, and the server with its only slot is busy with nothing in progress.
stuck :
    serve source (comes_in broken ∷ []) idle
    ≡ record { free_slots = 0; free_large = 1; running = [] }
unfolding serve step arrived admitted
stuck = refl
