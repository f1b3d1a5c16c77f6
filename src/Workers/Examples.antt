-- ===== src/Workers/Examples.antt =====
-- The theorems on the master at one child that runs and one that is paused.
use ignis.Shared.{ℕ, ◌≡◌, ◌≢◌, refl, true, [], ◌∷◌, Option, none, some, arith}
use ignis.Workers.{Child, Master, Exit, Turn, no_signal, take_child, turn}
use ignis.Workers.Slots.{seats, turn-seats}

abbrev first_child : Child
first_child = record { slot = 0; pid = 100; spawned_at = 0; retry_at = none }

abbrev paused_child : Child
paused_child = record { slot = 1; pid = 101; spawned_at = 0; retry_at = some 6000 }

abbrev two_children : Master
two_children = record {
  children = first_child ∷ paused_child ∷ [];
  worst_status = 0;
  restarts_this_minute = 3;
  minute = 0;
  shutdown_deadline = none;
  restarts = 3;
}

abbrev first_ends : Turn
first_ends = record {
  exits = record { pid = 100; status = 1; now = 5000; forked = some 200 } ∷ [];
  now = 5001;
  retried = λ _. none;
  reloaded = λ _. none;
  signal = no_signal;
}

some_pid : ◌≢◌ {A = Option ℕ} (some 200) none
some_pid = ground arith

turn-seats_example :
    seats 0 (turn true 10000 first_ends two_children).children ≡ seats 0 two_children.children
turn-seats_example = turn-seats 0 10000 first_ends two_children (some_pid, tt) refl

abbrev going_down : Master
going_down = record two_children { children = paused_child ∷ []; shutdown_deadline = some 17000 }

abbrev fork_fails : Exit
fork_fails = record { pid = 100; status = 1; now = 5000; forked = none }

taken : take_child 100 two_children.children ≡ some (first_child, paused_child ∷ [])
unfolding take_child
taken = refl
