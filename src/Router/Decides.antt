-- ===== src/Router/Decides.antt =====
-- When the standby takes the lease over, and how the count of failures goes on.
use yataverse_distribution.Prelude.{ℕ, ◌≤◌, ◌≡◌, Bool, true, false, Option, ok, arith, ◌↔◌}
use yataverse_distribution.Router.{Host, gad, take_over, decide, maps_to}

-- A takeover is decided exactly when the primary is unhealthy for the third time or more, its
-- listener is off, the standby is healthy, and the mapping is not the standby's already.
pub decide-eq_take_over :
    (primary standby listener : Bool) (failures : ℕ) (mapping : Option Host)
    → (decide primary standby failures mapping listener ≡ ok take_over) ↔ (
        (primary ≡ false)
        × (3 ≤ failures)
        × (listener ≡ false)
        × (standby ≡ true)
        × (maps_to mapping gad ≡ false))
unfolding decide
decide-eq_take_over primary standby listener failures mapping =
    (λ h. ground arith, λ h. ground arith)
