-- ===== src/Scoped/Events.antt =====
-- crates/ignis/src/php/scoped.rs: what happens on a thread, as a list of switches and of what each
-- scope then does.
use ignis.Shared.{ℕ, List, [], ◌∷◌, Option, none, some, lookup, insert}
use ignis.Scoped.{Slots, Scoped, allocate, seal, rows_clear, free_obj, on_switch}

-- The engine writes the properties of an object straight into its slots.
pub data Act : Type 0 where
  assigns : (handle : ℕ) → Slots → Act
  allocates : Option (ℕ × Slots) → Act
  seals : (handle : ℕ) → Act
  clears : Act
  frees : (handle : ℕ) → Act

unfoldable pub act : (scope : ℕ) → Act → Scoped → Scoped
act scope (assigns handle slots) w = elim (lookup handle w.live) [
  | some _ ↦ record w { live = insert handle slots w.live }
  | none ↦ w
]
act scope (allocates class) w = (allocate class w).0
act scope (seals handle) w = seal handle w
act scope clears w = rows_clear scope w
act scope (frees handle) w = free_obj handle w

abbrev pub acts : (scope : ℕ) → List Act → Scoped → Scoped
acts scope [] w = w
acts scope (a ∷ as_) w = acts scope as_ (act scope a w)

-- A thread, with the scope that runs.
pub record World : Type 0 where
  pub current : ℕ
  pub scoped : Scoped

-- The switch to a scope, and what it then does.
pub data Event : Type 0 where
  runs : (scope : ℕ) → List Act → Event

unfoldable pub happen : Event → World → World
unfolding act
happen (runs scope turn) w = record {
  current = scope;
  scoped = acts scope turn (on_switch w.current scope w.scoped);
}

unfoldable pub run : List Event → World → World
unfolding happen
run [] w = w
run (e ∷ events) w = run events (happen e w)
