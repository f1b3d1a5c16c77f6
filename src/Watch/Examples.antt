-- ===== src/Watch/Examples.antt =====
-- The theorems on the watcher at concrete orders of events.
use ignis.Shared.{◌+◌, ◌≤◌, ◌<◌, ◌≡◌, refl, ◌⊎◌, true, List, [], ◌∷◌, arith}
use ignis.Watch.{
  Settings, Watch, quiet_watch, Move, run, step, schedule_wake, task_turn, request, claim_reset,
  event, notifies, turns, requests, claims, leaves_to_reload, boots,
}
use ignis.Watch.Claims.{claims_once}
use ignis.Watch.Wake.{has_task, event_seen}

abbrev defaults : Settings
defaults = record { settle_ms = 300; reload_parallel = 1 }

-- A file changes, the task sleeps and reads, and the change settles.
abbrev saved : List Move
saved = event 1000 ∷ notifies ∷ turns 1320 ∷ turns 1320 ∷ turns 1321 ∷ turns 1321 ∷ turns 1321 ∷ []

saved_settles :
    ((run defaults quiet_watch saved).generation ≡ 1)
    × ((run defaults quiet_watch saved).last_event ≡ 0)
unfolding run step schedule_wake task_turn
saved_settles = (refl, refl)

event_seen_example :
    let w = run defaults quiet_watch (event 1000 ∷ notifies ∷ turns 1320 ∷ event 1321 ∷ []) in
    (w.wake_scheduled ≡ has_task w.task)
    × ((w.last_event ≡ 0) ⊎ (w.wake_scheduled ≡ true) ⊎ (0 < w.rechecking) ⊎ (0 < w.notified))
event_seen_example = event_seen defaults (event 1000 ∷ notifies ∷ turns 1320 ∷ event 1321 ∷ [])

abbrev two_claims : List Move
two_claims = requests ∷ claims 1 ∷ claims 1 ∷ []

two_claims_grant_one : (run defaults quiet_watch two_claims).claimed ≡ 1
unfolding run step request claim_reset
two_claims_grant_one = refl

claims_once_example :
    ((run defaults quiet_watch two_claims).claimed + 0
      ≤ 0 + (run defaults quiet_watch two_claims).reset_generation)
    × ((run defaults quiet_watch two_claims).reset_generation
        ≤ (run defaults quiet_watch two_claims).generation)
claims_once_example = claims_once defaults quiet_watch two_claims (omega arith) (omega arith)

abbrev two_reloads : List Move
two_reloads = leaves_to_reload ∷ leaves_to_reload ∷ boots ∷ leaves_to_reload ∷ []

abbrev one_away : Watch
one_away = record quiet_watch { reloading = 1; away = 1 }
