-- ===== src/Dispatch/Examples.antt =====
-- The laws of the dispatcher at concrete schedules.
use ignis.Shared.{
  ◌+◌, ◌<◌, ◌≤◌, ◌≡◌, ◌⊎◌, inl, refl, true, false, List, [], ◌∷◌, none, some, arith, lookup, insert,
  remove,
}
use ignis.Reactor.{sleep, watch, cancel_watch, Outcome, new, submit, complete, poll}
use ignis.Dispatch.{
  World, start, timed, ended, Move, submits, receives, dispatches, produces, advances, polls,
  cancelled_error, quiet, step, run, receive_from, dispatch_from, handle_op, abort_task, claim_task,
  produce_task, advance_task, deliver_batch,
}
use ignis.Dispatch.Ledger.{ledger, queued_units}
use ignis.Dispatch.History.{only}
use ignis.Dispatch.Once.{inflight_exact, completes_once, blocked_has_work}
use ignis.Dispatch.Cancel.{ended_claimed}

-- A watch becomes ready just as it is cancelled: its task is past its await when the dispatcher
-- takes its entry out and wins the claim.
abbrev race : List Move
race =
    submits (watch 3 false)
    ∷ receives
    ∷ dispatches
    ∷ dispatches
    ∷ submits (cancel_watch 1)
    ∷ receives
    ∷ dispatches
    ∷ produces 1 Outcome.ready
    ∷ dispatches
    ∷ dispatches
    ∷ advances 1
    ∷ dispatches
    ∷ advances 1
    ∷ dispatches
    ∷ advances 1
    ∷ polls none 5 9
    ∷ []

abbrev raced : World
raced = run (start (new 0)) race

race_delivers_both :
    raced.delivered
    ≡ record { id = 1; outcome = cancelled_error }
      ∷ record { id = 2; outcome = cancelled_error }
      ∷ []
unfolding new run step submit receive_from dispatch_from handle_op abort_task claim_task
    produce_task advance_task deliver_batch poll lookup insert remove complete
race_delivers_both = refl

inflight_exact_example : raced.reactor.inflight ≡ ledger (λ _. 1) raced
inflight_exact_example = inflight_exact 0 race (omega arith)

completes_once_example : queued_units (only 1) raced.delivered + ledger (only 1) raced ≤ 1
completes_once_example = completes_once 0 race 1 (omega arith) (omega arith)

abbrev waiting : List Move
waiting = submits (sleep 500) ∷ receives ∷ dispatches ∷ dispatches ∷ []

blocked_has_work_example :
    (0 < ledger (λ _. 1) (run (start (new 0)) waiting))
    ⊎ (0 < (run (start (new 0)) waiting).reactor.servers)
unfolding new run step submit receive_from dispatch_from handle_op poll insert
blocked_has_work_example = blocked_has_work 0 waiting none (quiet 1 2) (omega arith) refl

ended_claimed_example : lookup 1 raced.tasks ≡ some (timed ended true true)
unfolding new run step submit receive_from dispatch_from handle_op abort_task claim_task
    produce_task advance_task deliver_batch poll lookup insert remove complete
ended_claimed_example = ended_claimed 0 race 1 ended true true (omega arith) refl refl (inl refl)

abbrev watching : World
watching = run (start (new 0)) (submits (watch 3 false) ∷ [])
