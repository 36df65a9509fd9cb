-- ===== src/Tests/Activity.antt =====
-- A waiter, another who gives up, and news for both.
use mcp_symposium.Prelude.{true, ◌≡◌, refl, List, [], ◌∷◌}
use mcp_symposium.Activity.{new_hub, holds, register, notify}
use mcp_symposium.Activity.Wakes.{
  Event, notified, registered, cancelled, received, run, spares, notify-register,
}

abbrev between : List Event
between = registered "bob" ∷ notified ("carol" ∷ []) ∷ cancelled "bob" 1 ∷ received 7 ∷ []

notify-register_example :
    holds 0 (notify ("bob" ∷ []) (run between (register "bob" new_hub).1)).full ≡ true
unfolding register spares
notify-register_example = notify-register "bob" ("bob" ∷ []) between new_hub refl refl
