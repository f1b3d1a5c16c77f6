-- ===== src/Dispatch/Leak.antt =====
-- crates/ignis/src/reactor.rs, `Op::Watch` in the dispatcher: the task is spawned before its entry
-- goes into `cancellable_tasks_by_op`. On a runtime with several threads it may run at once.
use ignis.Shared.{
  ℕ, ◌≡◌, refl, Bool, true, false, List, [], ◌∷◌, ◌++◌, some, arith, lookup, insert, remove,
  lookup-insert,
}
use ignis.Reactor.{Op, watch, Outcome, complete}
use ignis.Dispatch.{
  World, Task, timed, running, produced, forgot, won, ended, idle, holds, spawned, handle_op,
  dispatch_from, receive_from, produce_task, advance_task, Move, receives, dispatches, produces,
  advances, step, run, send,
}

-- The watched descriptor is ready at once and the task runs to its end before the insert.
abbrev pub task_overtakes : ℕ → Outcome → List Move
task_overtakes id o =
    receives
    ∷ dispatches
    ∷ produces id o
    ∷ advances id
    ∷ advances id
    ∷ advances id
    ∷ dispatches
    ∷ []

module _ (w : World) (id fd : ℕ) (write : Bool) (rest : List (ℕ × Op)) (o : Outcome) where
  abbrev received : World
  received = record w {
    reactor = record (w.reactor) { to_tokio = rest };
    dispatcher = holds id (watch fd write);
  }

  abbrev with_task : List (ℕ × Unit {0}) → Task → World
  with_task table t = record received {
    tasks = (id, t) ∷ w.tasks;
    table = table;
    dispatcher = spawned id;
  }

  receive_lem :
      w.dispatcher ≡ idle
      → w.reactor.to_tokio ≡ (id, watch fd write) ∷ rest
      → step w receives ≡ received
  unfolding step receive_from
  receive_lem d q = rw (d, q, step, receive_from)

  spawn_lem : step received dispatches ≡ with_task w.table (timed running false false)
  unfolding step dispatch_from handle_op
  spawn_lem = refl

  produce_lem :
      step (with_task w.table (timed running false false)) (produces id o)
      ≡ with_task w.table (timed (produced o) false false)
  unfolding step produce_task lookup insert
  produce_lem = ground arith

  forget_lem :
      step (with_task w.table (timed (produced o) false false)) (advances id)
      ≡ with_task (remove id w.table) (timed (forgot o) false false)
  unfolding step advance_task lookup insert
  forget_lem = ground arith

  claim_lem :
      step (with_task (remove id w.table) (timed (forgot o) false false)) (advances id)
      ≡ with_task (remove id w.table) (timed (won o) true false)
  unfolding step advance_task lookup insert
  claim_lem = ground arith

  abbrev sent : World
  sent = send (with_task (remove id w.table) (timed ended true false)) id o

  send_lem : step (with_task (remove id w.table) (timed (won o) true false)) (advances id) ≡ sent
  unfolding step advance_task lookup insert
  send_lem = ground arith

  insert_lem :
      w.reactor.connected ≡ true
      → let u = step sent dispatches in
        (u.reactor.from_tokio ≡ w.reactor.from_tokio ++ record { id = id; outcome = o } ∷ [])
        × (lookup id u.tasks ≡ some (timed ended true false))
        × (lookup id u.table ≡ some tt)
        × (u.dispatcher ≡ idle)
  unfolding step dispatch_from complete lookup
  insert_lem k =
      (ground arith, ground arith, ground (arith, lookup-insert id id tt (remove id w.table)), refl)

  -- Where the scheduler lets the task of a watch end before the dispatcher has made its entry, the
  -- op completes, and an entry for the task that is over stays in the table.
  pub entry_outlives_task :
      w.reactor.connected ≡ true
      → w.dispatcher ≡ idle
      → w.reactor.to_tokio ≡ (id, watch fd write) ∷ rest
      → let u = run w (task_overtakes id o) in
        (u.reactor.from_tokio ≡ w.reactor.from_tokio ++ record { id = id; outcome = o } ∷ [])
        × (lookup id u.tasks ≡ some (timed ended true false))
        × (lookup id u.table ≡ some tt)
        × (u.dispatcher ≡ idle)
  unfolding run
  entry_outlives_task k d q =
      rw (receive_lem d q, spawn_lem, produce_lem, forget_lem, claim_lem, send_lem) (insert_lem k)
