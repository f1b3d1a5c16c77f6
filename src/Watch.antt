-- ===== src/Watch.antt =====
-- crates/ignis/src/watch.rs: the generation of the code, the claim of the cache reset, the slots of
-- workers that are away reloading, and the race of file events with the task that wakes the loops.
-- Each step is one atomic action; a callback of an event has two, so has the end of the task. The
-- runtime is taken to be there: it is made before a file is watched.
pub mod Claims
pub mod Slots
pub mod Wake
mod Examples
use ignis.Shared.{
  ℕ, zero, suc, ◌+◌, ◌-◌, ◌≡◌, refl, Bool, true, false, not, List, [], ◌∷◌, Option, none, some, max,
  ltb, leb, ◌==◌, if◌then◌else◌, wrapping_add,
}

-- Where the task that `schedule_wake` spawned stands in its loop: before its sleep ends, after the
-- read of `LAST_EVENT`, before the compare-and-swap, the bump and the wake, and past the loop.
pub data Phase : Type 0 where
  sleeps bumps announces leaves : Phase
  has_read settles : (last : ℕ) → Phase

-- The statics. `task` is the task that holds the flag; `rechecking` counts the tasks that have
-- released it and have not looked at `LAST_EVENT` again, `notified` the callbacks that have stored
-- their event and not called `schedule_wake`. The rest is history: `claimed` counts the claims that
-- were granted, `away` the workers that are away, `wakes` the calls of `wake_all`.
pub record Watch : Type 0 where
  pub last_event : ℕ
  pub wake_scheduled : Bool
  pub generation : ℕ
  pub reset_generation : ℕ
  pub reloading : ℕ
  pub task : Option Phase
  pub rechecking : ℕ
  pub notified : ℕ
  pub claimed : ℕ
  pub away : ℕ
  pub wakes : ℕ

abbrev pub quiet_watch : Watch
quiet_watch = record {
  last_event = 0;
  wake_scheduled = false;
  generation = 0;
  reset_generation = 0;
  reloading = 0;
  task = none;
  rechecking = 0;
  notified = 0;
  claimed = 0;
  away = 0;
  wakes = 0;
}

-- `IGNIS_WATCH_SETTLE_MS` and `IGNIS_WATCH_RELOAD_PARALLEL`, or their defaults.
pub record Settings : Type 0 where
  pub settle_ms : ℕ
  pub reload_parallel : ℕ

unfoldable pub schedule_wake : Watch → Watch
schedule_wake w =
    if w.wake_scheduled then w else record w { wake_scheduled = true; task = some sleeps }

-- `seen` is the generation that the caller has read.
unfoldable pub claim_reset : (seen : ℕ) → Watch → Watch × Bool
claim_reset seen w =
    (record w { reset_generation = max w.reset_generation seen }, ltb w.reset_generation seen)

unfoldable pub begin_reload : Settings → Watch → Watch × Bool
begin_reload s w =
    if ltb w.reloading s.reload_parallel
    then (record w { reloading = w.reloading + 1 }, true)
    else (w, false)

unfoldable pub end_reload : Watch → Watch
end_reload w = record w {
  reloading = w.reloading - 1;
  wakes = if ltb 0 w.generation then suc w.wakes else w.wakes;
}

unfoldable pub request : Watch → Watch
request w = record w { generation = wrapping_add w.generation 1; wakes = suc w.wakes }

-- One action of the task's loop, the clock reading `now`.
unfoldable pub task_turn : Settings → (now : ℕ) → Option Phase → Watch → Watch
task_turn s now none w = w
task_turn s now (some sleeps) w = record w { task = some (has_read w.last_event) }
task_turn s now (some (has_read last)) w =
    if last == 0
    then record w { task = some leaves }
    else if leb s.settle_ms (now - last)
    then record w { task = some (settles last) }
    else record w { task = some sleeps }
task_turn s now (some (settles last)) w =
    if w.last_event == last
    then record w { last_event = 0; task = some bumps }
    else record w { task = some sleeps }
task_turn s now (some bumps) w = record w {
  generation = wrapping_add w.generation 1;
  task = some announces;
}
task_turn s now (some announces) w = record w { wakes = suc w.wakes; task = some leaves }
task_turn s now (some leaves) w = record w {
  wake_scheduled = false;
  task = none;
  rechecking = suc w.rechecking;
}

pub data Move : Type 0 where
  event : (now : ℕ) → Move  -- a watched file changed: the store of its time
  notifies : Move  -- the call of `schedule_wake` after it
  turns : (now : ℕ) → Move
  rechecks : Move  -- the look at `LAST_EVENT` after the release
  requests : Move
  claims : (seen : ℕ) → Move  -- the generation read is the one now or an older one
  leaves_to_reload : Move  -- a worker asks to be the next to go
  boots : Move  -- a worker that went away boots
  boots_afresh : Move  -- a worker boots that was not away: the first time, or after a crash

unfoldable pub step : Settings → Watch → Move → Watch
unfolding schedule_wake claim_reset begin_reload end_reload request task_turn
step s w (event now) = record w { last_event = now; notified = suc w.notified }
step s w notifies = elim w.notified [ zero ↦ w | suc n ↦ schedule_wake (record w { notified = n }) ]
step s w (turns now) = task_turn s now w.task w
step s w rechecks = elim w.rechecking [
  | zero ↦ w
  | suc n ↦
      if w.last_event == 0
      then record w { rechecking = n }
      else schedule_wake (record w { rechecking = n })
]
step s w requests = request w
step s w (claims seen) =
    let (after, granted) = claim_reset seen w in
    if leb seen w.generation
    then record after { claimed = w.claimed + (if granted then 1 else 0) }
    else w
step s w leaves_to_reload =
    let (after, granted) = begin_reload s w in
    record after { away = w.away + (if granted then 1 else 0) }
step s w boots = elim w.away [ zero ↦ w | suc n ↦ record (end_reload w) { away = n } ]
step s w boots_afresh = end_reload w

unfoldable pub run : Settings → Watch → List Move → Watch
run s w [] = w
run s w (m ∷ ms) = run s (step s w m) ms
