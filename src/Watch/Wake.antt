-- ===== src/Watch/Wake.antt =====
-- crates/ignis/src/watch.rs: no event of a watched file is lost between the callback and the task.
use ignis.Shared.{
  ℕ, ◌<◌, ◌≡◌, ◌⊎◌, inl, refl, Bool, true, false, List, [], ◌∷◌, Option, none, some, arith,
}
use ignis.Watch.{
  Settings, Watch, Move, Phase, step, run, schedule_wake, claim_reset, begin_reload, end_reload,
  request, task_turn, event, notifies, turns, rechecks, requests, claims, leaves_to_reload, boots,
  boots_afresh, sleeps, bumps, announces, leaves, has_read, settles, quiet_watch,
}

abbrev pub has_task : Option Phase → Bool
has_task none = false
has_task (some p) = true

-- The flag says whether there is a task, and an event that has not settled has someone to see it:
-- the task, one that releases the flag, or a callback that is about to ask for a task.
pub record Awake (w : Watch) : Type 0 where
  pub flag : w.wake_scheduled ≡ has_task w.task
  pub seen : (w.last_event ≡ 0) ⊎ (w.wake_scheduled ≡ true) ⊎ (0 < w.rechecking) ⊎ (0 < w.notified)

turn-Awake :
    (s : Settings) (now : ℕ) (p : Option Phase) (w : Watch)
    → w.task ≡ p
    → Awake w
    → Awake (task_turn s now p w)
unfolding task_turn
turn-Awake s now none w e h = h
turn-Awake s now (some sleeps) w e h = record {
  flag = ground (arith, h.flag);
  seen = ground (arith, h.seen);
}
turn-Awake s now (some (has_read last)) w e h = record {
  flag = ground (arith, h.flag);
  seen = ground (arith, h.seen);
}
turn-Awake s now (some (settles last)) w e h = record {
  flag = ground (arith, h.flag);
  seen = ground (arith, h.seen);
}
turn-Awake s now (some bumps) w e h = record {
  flag = ground (arith, h.flag);
  seen = ground (arith, h.seen);
}
turn-Awake s now (some announces) w e h = record {
  flag = ground (arith, h.flag);
  seen = ground (arith, h.seen);
}
turn-Awake s now (some leaves) w e h = record { flag = refl; seen = ground arith }

step-Awake : (s : Settings) (w : Watch) (m : Move) → Awake w → Awake (step s w m)
unfolding step schedule_wake claim_reset begin_reload end_reload request
step-Awake s w (event now) h = record { flag = h.flag; seen = ground arith }
step-Awake s w notifies h = record {
  flag = ground (arith, h.flag);
  seen = ground (arith, h.flag, h.seen);
}
step-Awake s w (turns now) h = turn-Awake s now w.task w refl h
step-Awake s w rechecks h = record {
  flag = ground (arith, h.flag);
  seen = ground (arith, h.flag, h.seen);
}
step-Awake s w requests h = record { flag = h.flag; seen = h.seen }
step-Awake s w (claims seen) h = record {
  flag = ground (arith, h.flag);
  seen = ground (arith, h.seen);
}
step-Awake s w leaves_to_reload h = record {
  flag = ground (arith, h.flag);
  seen = ground (arith, h.seen);
}
step-Awake s w boots h = record { flag = ground (arith, h.flag); seen = ground (arith, h.seen) }
step-Awake s w boots_afresh h = record { flag = h.flag; seen = h.seen }

run-Awake : (s : Settings) (w : Watch) (ms : List Move) → Awake w → Awake (run s w ms)
unfolding run
run-Awake s w [] h = h
run-Awake s w (m ∷ ms) h = run-Awake s (step s w m) ms (step-Awake s w m h)

-- From the start on, in any order of events: an event that has not settled has someone who will see
-- it, the task that holds the flag, a task that has released it and looks again, or a callback that
-- has not asked for a task yet; and the flag is set exactly while a task holds it.
pub event_seen :
    (s : Settings) (ms : List Move)
    → let w = run s quiet_watch ms in
      (w.wake_scheduled ≡ has_task w.task)
      × ((w.last_event ≡ 0) ⊎ (w.wake_scheduled ≡ true) ⊎ (0 < w.rechecking) ⊎ (0 < w.notified))
event_seen s ms =
    let h = run-Awake s quiet_watch ms (record { flag = refl; seen = inl refl }) in (h.flag, h.seen)
