-- ===== src/Superglobals.antt =====
-- crates/ignis/src/php/superglobals.rs: whose $_SERVER, $_GET, $_POST and $_COOKIE the symbol table
-- holds. A fiber is named by its context; a value stands for a zval, without its count of references.
pub mod Events
pub mod Isolation
pub mod Orphan
mod Examples
use ignis.Shared.{
  ℕ, suc, ◌≡◌, refl, Bool, true, false, ◌&&◌, List, [], ◌∷◌, Option, none, some, ◌==◌,
  if◌then◌else◌, lookup, insert, remove,
}

-- The four entries of the symbol table; none is IS_UNDEF.
pub record Arrays : Type 0 where
  pub server : Option ℕ
  pub get : Option ℕ
  pub post : Option ℕ
  pub cookie : Option ℕ

abbrev pub undef4 : Arrays
undef4 = record { server = none; get = none; post = none; cookie = none }

-- An IS_UNDEF entry leaves the current value in place.
abbrev over : Option ℕ → Option ℕ → Option ℕ
over none now = now
over (some v) now = some v

-- A thread's state. `claimed`: the process has a reserved slot for contexts. `view`: the isolated
-- fiber whose arrays the symbol table holds, none for the base world. `slots`: what an isolated
-- fiber's context keeps.
pub record Scopes : Type 0 where
  pub claimed : Bool
  pub table : Arrays
  pub base : Option Arrays
  pub view : Option ℕ
  pub slots : List (ℕ × Arrays)
  pub switches : ℕ

unfoldable pub install : Arrays → Scopes → Scopes
install vals w = record w {
  table = record {
    server = over vals.server w.table.server;
    get = over vals.get w.table.get;
    post = over vals.post w.table.post;
    cookie = over vals.cookie w.table.cookie;
  };
}

-- What the symbol table holds goes to its owner's slot, or to the base.
unfoldable pub save_current_view : Scopes → Scopes
save_current_view w = elim w.view [
  | none ↦ record w { base = some w.table }
  | some owner ↦ if w.claimed then record w { slots = insert owner w.table w.slots } else w
]

-- The running fiber gets its own slot, if it has none; none is {main}.
unfoldable pub isolate_current : (active : Option ℕ) → Scopes → Scopes
unfolding save_current_view
isolate_current none w = w
isolate_current (some ctx) w =
    let saved = save_current_view w in
    elim (lookup ctx w.slots) [
      | some vals ↦ w
      | none ↦
          if w.claimed
          then record saved { slots = insert ctx undef4 saved.slots; view = some ctx }
          else w
    ]

unfoldable pub set_superglobals : (active : Option ℕ) → Arrays → Scopes → Scopes
unfolding isolate_current install
set_superglobals active vals w = install vals (isolate_current active w)

abbrev is_owner : ℕ → Option ℕ → Bool
is_owner to none = false
is_owner to (some owner) = owner == to

abbrev install_base : Option Arrays → Scopes → Scopes
install_base none w = w
install_base (some base) w = install base w

-- The fiber-switch observer. A fiber without a slot keeps whatever is installed.
unfoldable pub on_switch : (to : ℕ) → (to_main : Bool) → Scopes → Scopes
unfolding install save_current_view
on_switch to to_main w =
    let counted = record w { switches = suc w.switches } in
    let saved = save_current_view counted in
    if w.claimed
    then elim (lookup to w.slots) [
      | some vals ↦
          if is_owner to w.view then counted else record (install vals saved) { view = some to }
      | none ↦
          if to_main
          then elim w.view [
            | none ↦ counted
            | some owner ↦ record (install_base saved.base saved) { view = none }
          ]
          else counted
    ]
    else counted

unfoldable pub on_destroy : (ctx : ℕ) → Scopes → Scopes
on_destroy ctx w =
    if w.claimed
    then record w {
      slots = remove ctx w.slots;
      view = if is_owner ctx w.view then none else w.view;
    }
    else w
