-- ===== src/Scoped.antt =====
-- crates/ignis/src/php/scoped.rs: objects whose declared properties live per fiber. A scope is the
-- address of a fiber's context, 0 for {main}; an object is named by its handle. A value stands for a
-- zval, without its count of references; none is IS_UNDEF.
pub mod Rows
pub mod Apart
pub mod Events
pub mod Return
mod Examples
use ignis.Shared.{
  ℕ, ◌≡◌, refl, Bool, true, false, List, [], ◌∷◌, Option, none, some, ◌==◌, if◌then◌else◌, lookup,
  insert, remove,
}

abbrev pub Slots : Type 0
Slots = List (Option ℕ)

-- `row_zero`: what the constructors' writes are sealed into.
abbrev pub row_zero : ℕ
row_zero = 0

-- A thread's state. `live`: the objects with what their slots hold now, as many as the class
-- declares. `tables`: for a scope, its copies of the slots.
pub record Scoped : Type 0 where
  pub live : List (ℕ × Slots)
  pub tables : List (ℕ × List (ℕ × Slots))

-- `entry(scope).or_default()`
abbrev pub rows_of : ℕ → List (ℕ × List (ℕ × Slots)) → List (ℕ × Slots)
rows_of scope tables = elim (lookup scope tables) [ some rows ↦ rows | none ↦ [] ]

abbrev pub row : (scope handle : ℕ) → List (ℕ × List (ℕ × Slots)) → Option Slots
row scope handle tables = lookup handle (rows_of scope tables)

abbrev pub zeroed : Slots → Slots
zeroed [] = []
zeroed (v ∷ vs) = none ∷ zeroed vs

-- What an object's slots become: row zero's values, or IS_UNDEF in as many slots.
abbrev pub defaults : Option Slots → Slots → Slots
defaults (some values) slots = values
defaults none slots = zeroed slots

-- `{main}` has one key, though its context has an address. Main is none where it is null.
unfoldable pub scope_of : (main : Option ℕ) → (context : Option ℕ) → ℕ
scope_of main none = row_zero
scope_of none (some context) = context
scope_of (some main) (some context) = if context == main then row_zero else context

-- `Err` where the class is not found. The handle and the declared defaults are the engine's.
unfoldable pub allocate : (class : Option (ℕ × Slots)) → Scoped → Scoped × Option ℕ
allocate none w = (w, none)
allocate (some (handle, slots)) w = (record w { live = insert handle slots w.live }, some handle)

-- What the constructor wrote goes to row zero, whatever scope it ran in.
unfoldable pub seal : (handle : ℕ) → Scoped → Scoped
seal handle w = elim (lookup handle w.live) [
  | none ↦ w
  | some slots ↦ record w {
    tables = insert row_zero (insert handle slots (rows_of row_zero w.tables)) w.tables;
  }
]

-- One object's slots go to the table of the scope that is left, and those of the scope that is
-- entered come out of its table.
unfoldable pub swap_tables :
    (leaving entering handle : ℕ)
    → Slots
    → List (ℕ × List (ℕ × Slots))
    → List (ℕ × List (ℕ × Slots))
swap_tables leaving entering handle slots tables =
    let saved = insert leaving (insert handle slots (rows_of leaving tables)) tables in
    elim (lookup entering saved) [
      | some rows ↦ insert entering (remove handle rows) saved
      | none ↦ saved
    ]

unfoldable pub swap_slots :
    (leaving entering handle : ℕ) → Slots → List (ℕ × List (ℕ × Slots)) → Slots
swap_slots leaving entering handle slots tables =
    let saved = insert leaving (insert handle slots (rows_of leaving tables)) tables in
    elim (row entering handle saved) [
      | some values ↦ values
      | none ↦ defaults (row row_zero handle saved) slots
    ]

-- The loop over the live objects.
unfoldable pub swap_all :
    (leaving entering : ℕ)
    → List (ℕ × Slots)
    → List (ℕ × List (ℕ × Slots))
    → List (ℕ × Slots) × List (ℕ × List (ℕ × Slots))
unfolding swap_tables swap_slots
swap_all leaving entering [] tables = ([], tables)
swap_all leaving entering ((handle, slots) ∷ live) tables =
    let (rest, after) =
      swap_all leaving entering live (swap_tables leaving entering handle slots tables) in
    ((handle, swap_slots leaving entering handle slots tables) ∷ rest, after)

unfoldable pub on_switch : (leaving entering : ℕ) → Scoped → Scoped
unfolding swap_all
on_switch leaving entering w =
    let (live, tables) = swap_all leaving entering w.live w.tables in
    if leaving == entering then w else record { live = live; tables = tables }

abbrev pub reset_all : List (ℕ × Slots) → List (ℕ × List (ℕ × Slots)) → List (ℕ × Slots)
reset_all [] tables = []
reset_all ((handle, slots) ∷ live) tables =
    (handle, defaults (row row_zero handle tables) slots) ∷ reset_all live tables

-- The running scope's tables go, and every object reads row zero again.
unfoldable pub rows_clear : (scope : ℕ) → Scoped → Scoped
rows_clear scope w =
    if scope == row_zero
    then w
    else record { live = reset_all w.live w.tables; tables = remove scope w.tables }

abbrev pub remove_from : ℕ → List (ℕ × List (ℕ × Slots)) → List (ℕ × List (ℕ × Slots))
remove_from handle [] = []
remove_from handle ((scope, rows) ∷ tables) =
    (scope, remove handle rows) ∷ remove_from handle tables

unfoldable pub free_obj : (handle : ℕ) → Scoped → Scoped
free_obj handle w = record { live = remove handle w.live; tables = remove_from handle w.tables }
