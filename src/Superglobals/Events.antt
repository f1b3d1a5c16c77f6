-- ===== src/Superglobals/Events.antt =====
-- crates/ignis/src/php/superglobals.rs: what happens on a thread, as a list of events.
use ignis.Shared.{ℕ, Bool, List, [], ◌∷◌, Option, none, some, if◌then◌else◌}
use ignis.Superglobals.{Arrays, Scopes, set_superglobals, on_switch, on_destroy}

-- What happens on a thread: a switch to {main} or to a fiber, which then calls
-- `ignis_set_superglobals` so many times, or the end of a fiber.
pub data Event : Type 0 where
  runs : (to : ℕ) → (to_main : Bool) → (sets : List Arrays) → Event
  destroys : (ctx : ℕ) → Event

abbrev pub sets_all : Option ℕ → List Arrays → Scopes → Scopes
sets_all active [] w = w
sets_all active (vals ∷ rest) w = sets_all active rest (set_superglobals active vals w)

abbrev pub active_of : ℕ → Bool → Option ℕ
active_of to to_main = if to_main then none else some to

unfoldable pub happen : Event → Scopes → Scopes
happen (runs to to_main sets) w = sets_all (active_of to to_main) sets (on_switch to to_main w)
happen (destroys ctx) w = on_destroy ctx w

unfoldable pub run : List Event → Scopes → Scopes
unfolding happen
run [] w = w
run (e ∷ es) w = run es (happen e w)
