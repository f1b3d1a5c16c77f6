-- ===== src/Accept/Examples.antt =====
-- The theorem on the accept loop at a cap of two, and the stop that comes between two looks at it.
use ignis.Shared.{ℕ, ◌≤◌, ◌≡◌, refl, List, [], ◌∷◌, ◌++◌, length, ltb, if◌then◌else◌}
use ignis.Accept.{
  starts_accepting, served, refused_over_capacity, connection, shutdown_signalled, admit, accept,
  stop_listener, notify_waiters, close, Event, polls_stop, notifies, polls_accept, closes, happen,
  run,
}
use ignis.Accept.Capped.{connections_capped}

-- A turn in which a connection comes.
abbrev turn : ℕ → List Event
turn number = polls_stop ∷ polls_stop ∷ polls_stop ∷ polls_accept (connection number) ∷ []

-- The third is refused, and the fourth is served after the first has ended.
abbrev busy : List Event
busy = turn 1 ++ turn 2 ++ turn 3 ++ closes 1 ∷ turn 4

-- The loop has seen the flag unset when the drain sets it and notifies nobody.
abbrev missed : List Event
missed = notifies ∷ polls_stop ∷ polls_stop ∷ polls_accept (connection 6) ∷ turn 7

connections_capped_example :
    let w = (run (busy ++ polls_stop ∷ []) (starts_accepting 2)).0 in
    (length w.live ≤ 2)
    × ((admit 5 w).1 ≡ (if ltb (length w.live) 2 then served else refused_over_capacity))
    × (length (run missed (stop_listener w)).1 ≤ 1)
connections_capped_example = connections_capped 2 5 (busy ++ polls_stop ∷ []) missed

fates_when_busy :
    (run busy (starts_accepting 2)).1 ≡ served ∷ served ∷ refused_over_capacity ∷ served ∷ []
unfolding run happen shutdown_signalled accept admit close starts_accepting
fates_when_busy = refl

-- One connection is served after the stop.
served_after_stop :
    (run missed (stop_listener (run (polls_stop ∷ []) (starts_accepting 2)).0)).1 ≡ served ∷ []
unfolding run happen shutdown_signalled accept admit stop_listener notify_waiters starts_accepting
served_after_stop = refl
