-- ===== src/Workers/Shutdown.antt =====
-- crates/ignis/src/workers.rs: what the master still does with the slots once it is to shut down, and
-- where fork fails.
use ignis.Shared.{
  ℕ, ◌≤◌, ◌<◌, ◌≡◌, refl, ap, wrapping_add, Bool, true, false, List, [], ◌∷◌, Option, none, some,
  arith, max, ltb, leb,
}
use ignis.Workers.Slots.{new_minute-children}
use ignis.Workers.{
  Child, Master, Exit, no_signal, take_child, new_minute, bring_back, reap, reap_all,
  retry_paused_slots, retry_child, on_signal, turn, is_none,
}

-- Once the master is to shut down, a paused slot whose time has come gets a worker all the same, if
-- fork succeeds: after a turn without exits or a signal the slot's new worker is the master's only
-- child, and the deadline stands as it was.
pub paused_slot_respawns :
    (respawn : Bool) (drain_timeout d at now pid : ℕ) (fork : ℕ → Option ℕ) (c : Child) (s : Master)
    → s.shutdown_deadline ≡ some d
    → s.children ≡ c ∷ []
    → c.retry_at ≡ some at
    → at ≤ now
    → fork c.slot ≡ some pid
    → let after =
        turn respawn drain_timeout
          (record { exits = []; now = now; retried = fork; reloaded = fork; signal = no_signal })
          s in
      (after.children ≡ record { slot = c.slot; pid = pid; spawned_at = now; retry_at = none } ∷ [])
      × (after.shutdown_deadline ≡ some d)
unfolding turn reap_all on_signal retry_paused_slots retry_child
paused_slot_respawns respawn drain_timeout d at now pid fork c s e cs r l f =
    let due : ltb now at ≡ false = ground arith in (rw (cs, r, due, f, turn) refl, e)

new_minute-restarts :
    (now : ℕ) (s : Master)
    → s.restarts_this_minute < 10
    → leb 10 (new_minute now s).restarts_this_minute ≡ false
unfolding new_minute
new_minute-restarts now s l = ground arith

new_minute-total : (now : ℕ) (s : Master) → (new_minute now s).restarts ≡ s.restarts
unfolding new_minute
new_minute-total now s = ground arith

-- With respawning, before a shutdown and within the restart budget: where fork fails for a worker
-- that ended, the master goes on with the other children alone, though a restart is counted.
pub failed_fork_drops :
    (e : Exit) (s : Master) (c : Child) (others : List Child)
    → s.shutdown_deadline ≡ none
    → s.restarts_this_minute < 10
    → take_child e.pid s.children ≡ some (c, others)
    → e.forked ≡ none
    → ((reap true e s).children ≡ others) × ((reap true e s).restarts ≡ wrapping_add s.restarts 1)
unfolding reap bring_back
failed_fork_drops e s c others d l q f =
    let serving : is_none s.shutdown_deadline ≡ true = ap (λ (o : Option ℕ). is_none o) d in
    let gone : Master = record s {
      children = others;
      worst_status = max s.worst_status e.status;
    } in
    let budget = new_minute-restarts e.now gone l in
    (
      rw (q, serving, reap, budget, f) (new_minute-children e.now gone),
      rw (q, serving, reap, budget) (ap (λ x. wrapping_add x 1) (new_minute-total e.now gone)),
    )
