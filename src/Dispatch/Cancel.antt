-- ===== src/Dispatch/Cancel.antt =====
-- crates/ignis/src/reactor.rs, `Op::CancelWatch`: that no
-- interleaving with the task leaves an op whose completion nobody will send.
use ignis.Shared.{
  ℕ, ◌+◌, ◌<◌, ◌≡◌, refl, Bool, true, List, [], ◌∷◌, some, arith, length, u64_mod, ◌⊎◌, Values,
  lookup,
}
use ignis.Reactor.{Op, new, poll, Polled, returned, blocked}
use ignis.Dispatch.Ledger.{HasClaim}
use ignis.Dispatch.Minded.{Minded, dispatch-Minded, task-minded, advance-minded, reap-minded}
use ignis.Dispatch.Once.{Lawful, HasRoom, start-HasRoom, start-Lawful, step-HasRoom, step-Lawful}
use ignis.Dispatch.{
  World, start, timed, Phase, ended, Dispatcher, idle, receive_from, deliver_batch, advance_task,
  reap_task, quiet, Move, submits, reserves, completes, injects, delivers, delivers_stream, cancels,
  polls, receives, dispatches, produces, advances, reaps, step, run,
}

-- The tasks and the dispatcher are as they were.
same-Minded : (w u : World) → u.tasks ≡ w.tasks → u.dispatcher ≡ w.dispatcher → Minded w → Minded u
same-Minded w u t d m = record { all = λ j. rw (t, d) (m.all j) }

receive-Minded :
    (w : World) (d : Dispatcher) (q : List (ℕ × Op))
    → w.dispatcher ≡ d
    → Minded w
    → Minded (receive_from d q w)
unfolding receive_from
receive-Minded w idle ((id, op) ∷ rest) e m = record { all = λ j. ground (arith, m.all j) }
receive-Minded w idle [] e m = m
receive-Minded w _ q e m = m

deliver_batch-Minded : (w : World) (p : Polled) → Minded w → Minded (deliver_batch w p)
unfolding deliver_batch
deliver_batch-Minded w (returned r cs) m = same-Minded w _ refl refl m
deliver_batch-Minded w (blocked r) m = same-Minded w _ refl refl m

task-dispatcher :
    (w : World) (id : ℕ)
    → ((advance_task w id).dispatcher ≡ w.dispatcher) × ((reap_task w id).dispatcher ≡ w.dispatcher)
unfolding advance_task reap_task
task-dispatcher w id = (ground arith, ground arith)

step-Minded : (w : World) (m : Move) → Values HasClaim w.tasks → Minded w → Minded (step w m)
unfolding step
step-Minded w receives h k = receive-Minded w w.dispatcher w.reactor.to_tokio refl k
step-Minded w dispatches h k = record { all = dispatch-Minded w w.dispatcher refl k }
step-Minded w (produces id o) h k = record {
  all = λ j. rw (task-minded w id o j (k.all j)).1 (task-minded w id o j (k.all j)).0;
}
step-Minded w (advances id) h k = record {
  all = λ j. rw (task-dispatcher w id).0 (advance-minded w id j h (k.all j));
}
step-Minded w (reaps id) h k = record {
  all = λ j. rw (task-dispatcher w id).1 (reap-minded w id j (k.all j));
}
step-Minded w (polls t entered left) h k =
    deliver_batch-Minded w (poll w.reactor t (quiet entered left)) k
step-Minded w (completes id o) h k =
    same-Minded w (step w (completes id o)) (ground arith) (ground arith) k
step-Minded w (cancels id now) h k =
    same-Minded w (step w (cancels id now)) (ground arith) (ground arith) k
step-Minded w (submits op) h k = same-Minded w _ refl refl k
step-Minded w reserves h k = same-Minded w _ refl refl k
step-Minded w (injects o) h k = same-Minded w _ refl refl k
step-Minded w (delivers req) h k = same-Minded w _ refl refl k
step-Minded w (delivers_stream req) h k = same-Minded w _ refl refl k

run-Minded :
    (w : World) (ms : List Move) → HasRoom w (length ms) → Lawful w → Minded w → Minded (run w ms)
unfolding run
run-Minded w [] room v k = k
run-Minded w (m ∷ ms) room v k =
    run-Minded (step w m) ms (step-HasRoom w m (length ms) room)
      (step-Lawful w m (length ms) room v) (step-Minded w m v.sound.claims k)

-- From a new reactor on, in any order of fewer than 2^64 - 1 actions: while the dispatcher is between two ops, a
-- timer or a watch that has ended, or that was aborted, has had its completion claimed, by the task
-- or by the cancel. So no cancel leaves an op that nobody announces.
pub ended_claimed :
    (spin : ℕ) (ms : List Move) (j : ℕ) (p : Phase) (c a : Bool)
    → length ms + 1 < u64_mod
    → (run (start (new spin)) ms).dispatcher ≡ idle
    → lookup j (run (start (new spin)) ms).tasks ≡ some (timed p c a)
    → (p ≡ ended) ⊎ (a ≡ true)
    → lookup j (run (start (new spin)) ms).tasks ≡ some (timed p true a)
unfolding lookup
ended_claimed spin ms j p c a l d e o =
    let m =
      run-Minded (start (new spin)) ms (start-HasRoom spin (length ms) l) (start-Lawful spin)
        (record { all = λ i. refl }) in
    ground (arith, m.all j)
