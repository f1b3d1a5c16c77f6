-- ===== src/Supervise/Examples.antt =====
-- The theorems on the supervisor of threads at two workers, one of which panics at once, again and again.
use ignis.Shared.{
  ℕ, ◌+◌, ◌-◌, ◌*◌, ◌≤◌, ◌≡◌, refl, ◌⊎◌, All, List, [], ◌∷◌, map, none, some, arith, sum_by,
  if◌then◌else◌, ◌==◌, pos,
}
use ignis.Supervise.{
  Worker, Visit, Budget, exhausted, visit, supervise_workers, sixty_seconds, finished, after_join,
  minute_over, join, respawn, ended_for_reload, turns, pass, spawn,
}
use ignis.Supervise.Slots.{Seated, numbers, no_slot_lost, visited, ended_slot_returns}
use ignis.Supervise.Charged.{charge, restarts_bounded}

-- At the time `now` the slot 1 has panicked, and any other runs.
abbrev panicking : (now slot : ℕ) → Visit
panicking now slot = record {
  at_retry = now;
  at_minute = now;
  at_pause = now;
  ended = if slot == 1 then some none else none;
  generation_seen = 0;
  generation_spawned = 0;
  spawned = now + slot;
}

abbrev two_rounds : List (ℕ → Visit)
two_rounds = panicking 50000000 ∷ panicking 100000000 ∷ []

no_slot_lost_example :
    (map Worker.slot (supervise_workers 2 (panicking 0) 0 0 two_rounds).1 ≡ numbers 1 2)
    × All Seated (supervise_workers 2 (panicking 0) 0 0 two_rounds).1
no_slot_lost_example = no_slot_lost 2 (panicking 0) 0 0 two_rounds

restarts_bounded_example :
    let (after, workers, told) = supervise_workers 2 (panicking 0) 0 0 two_rounds in
    (sum_by charge told * sixty_seconds ≤ 10 * (sixty_seconds + (100000000 - 0)))
    × (after.restarts_this_minute ≤ 10)
restarts_bounded_example =
    restarts_bounded 100000000 2 (panicking 0) 0 0 two_rounds (omega arith)
      ((λ slot. omega arith), ((λ slot. omega arith), tt))

-- Both panics are charged.
two_charged : sum_by charge (supervise_workers 2 (panicking 0) 0 0 two_rounds).2 ≡ 2
unfolding supervise_workers turns pass visit finished after_join minute_over join respawn
    ended_for_reload spawn
two_charged = refl

-- The budget of the minute is spent.
abbrev spent_budget : Budget
spent_budget = record { restarts_this_minute = 10; minute = 0; restarts = 10 }

abbrev worker : Worker
worker = record { slot = 1; handle = some 7; generation = 0; retry_at = none }

ended_slot_returns_example :
    ((visit (panicking 0 1) spent_budget worker).1.handle ≡ some 1)
    ⊎ ((visit (panicking 5000000000 1) spent_budget (
          visited
            ((panicking 50000000 1, spent_budget) ∷ [])
            (visit (panicking 0 1) spent_budget worker).1)).1.handle
        ≡ some 5000000001)
ended_slot_returns_example =
    ended_slot_returns (panicking 0 1) (panicking 5000000000 1) spent_budget spent_budget
      ((panicking 50000000 1, spent_budget) ∷ []) worker (λ e. ground (arith, e)) refl
      (λ e. ground (arith, e)) (omega arith, tt) (omega arith)

-- It is not restarted at once.
pauses : (visit (panicking 0 1) spent_budget worker).2 ≡ exhausted (pos 1)
unfolding visit finished after_join minute_over join respawn ended_for_reload
pauses = refl
