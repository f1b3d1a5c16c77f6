-- ===== src/Scoped/Examples.antt =====
-- The theorems on scoped objects at a concrete service and two fibers.
use ignis.Shared.{
  ℕ, ◌≡◌, refl, inl, All, List, [], ◌∷◌, some, lookup, insert, remove, UniqueKeys, arith,
}
use ignis.Scoped.{Scoped, row, on_switch, swap_all, swap_slots, swap_tables}
use ignis.Scoped.Rows.{next_slots, next_row, on_switch-refines}
use ignis.Scoped.Events.{assigns, seals, clears, Event, runs, World, happen, run}
use ignis.Scoped.Return.{Allowed, Owns, own_values_return}

-- The service 3 was made in {main} and sealed, and the service 4 is another.
abbrev sealed : Scoped
sealed = record {
  live = (3, some 10 ∷ []) ∷ (4, some 1 ∷ some 2 ∷ []) ∷ [];
  tables = (0, (3, some 10 ∷ []) ∷ []) ∷ [];
}

sealed-UniqueKeys : UniqueKeys sealed.live
sealed-UniqueKeys = ((λ e. ground (arith, e), tt), (tt, tt))

-- The fiber 500 inherits what the constructor wrote.
inherits : lookup 3 (on_switch 0 500 sealed).live ≡ some (some 10 ∷ [])
unfolding on_switch swap_all swap_slots swap_tables lookup insert remove
inherits = refl

on_switch-refines_example :
    (lookup 3 (on_switch 0 500 sealed).live
      ≡ some (next_slots 0 500 (some 10 ∷ []) (λ (i : ℕ). row i 3 sealed.tables)))
    × (row 0 3 (on_switch 0 500 sealed).tables
        ≡ next_row 0 500 (some 10 ∷ []) (λ (i : ℕ). row i 3 sealed.tables) 0)
unfolding lookup
on_switch-refines_example =
    on_switch-refines 0 500 0 3 (some 10 ∷ []) sealed sealed-UniqueKeys (λ e. ground (arith, e))
      refl

-- The fiber 500 has written 77 to the service.
abbrev in_request : World
in_request = record { current = 500; scoped = record sealed { live = (3, some 77 ∷ []) ∷ [] } }

abbrev other_requests : List Event
other_requests =
    runs 600 (assigns 3 (some 88 ∷ []) ∷ seals 3 ∷ clears ∷ [])
    ∷ runs 0 (assigns 3 (some 99 ∷ []) ∷ [])
    ∷ []

other_requests-Allowed : All (Allowed 500 3) other_requests
other_requests-Allowed = (
  (inl (λ e. ground (arith, e)), (tt, ((λ e. ground (arith, e)), tt))),
  ((inl (λ e. ground (arith, e)), tt), tt),
)

in_request-Owns : Owns 500 3 (some 77 ∷ []) 500 in_request.scoped
unfolding lookup
in_request-Owns = record {
  unique = (tt, tt);
  alive = λ e. ground (arith, e);
  kept = inl (refl, refl);
}

own_values_return_example :
    lookup 3 (happen (runs 500 []) (run other_requests in_request)).scoped.live
    ≡ some (some 77 ∷ [])
own_values_return_example =
    own_values_return 500 3 (some 77 ∷ []) other_requests in_request (λ e. ground (arith, e))
      other_requests-Allowed in_request-Owns
