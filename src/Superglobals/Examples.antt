-- ===== src/Superglobals/Examples.antt =====
-- The theorems on superglobals at concrete fibers.
use ignis.Shared.{◌≡◌, refl, inl, inr, true, false, All, List, [], ◌∷◌, some, lookup, arith}
use ignis.Superglobals.{Scopes, undef4, on_switch, on_destroy}
use ignis.Superglobals.Events.{Event, runs, destroys, run}
use ignis.Superglobals.Isolation.{Holds, Allowed, all_set, arrays_return}
use ignis.Superglobals.Orphan.{view_outlives_owner}

-- {main} is 1. The fiber 20 is isolated with its arrays installed, and 30 is isolated.
abbrev two_requests : Scopes
two_requests = record {
  claimed = true;
  table = all_set 21 22 23 24;
  base = some (all_set 11 12 13 14);
  view = some 20;
  slots = (20, undef4) ∷ (30, all_set 31 32 33 34) ∷ [];
  switches = 0;
}

abbrev interleaved : List Event
interleaved =
    runs 1 true []
    ∷ runs 30 false (all_set 35 36 37 38 ∷ [])
    ∷ runs 20 false []
    ∷ runs 40 false (all_set 41 42 43 44 ∷ [])
    ∷ destroys 30
    ∷ []

interleaved-Allowed : All (Allowed 20) interleaved
interleaved-Allowed = (
  inl (λ e. ground (arith, e)),
  (
    inl (λ e. ground (arith, e)),
    (inr (refl, refl, refl), (inl (λ e. ground (arith, e)), ((λ e. ground (arith, e)), tt))),
  ),
)

two_requests-Holds : Holds 20 21 22 23 24 two_requests
unfolding lookup
two_requests-Holds = record { claimed = refl; kept = inl (refl, refl, λ x. ground (arith, x)) }

arrays_return_example :
    (on_switch 20 false (run interleaved two_requests)).table ≡ all_set 21 22 23 24
arrays_return_example =
    arrays_return 20 21 22 23 24 interleaved two_requests interleaved-Allowed two_requests-Holds

view_outlives_owner_example :
    let in_main = on_switch 1 true (on_destroy 20 two_requests) in
    (in_main.table ≡ all_set 21 22 23 24)
    × ((on_switch 30 false in_main).base ≡ some (all_set 21 22 23 24))
unfolding lookup
view_outlives_owner_example =
    view_outlives_owner 20 1 30 (all_set 31 32 33 34) two_requests refl refl refl refl
      (λ e. ground (arith, e)) (λ e. ground (arith, e))
