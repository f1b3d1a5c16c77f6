-- ===== src/Dispatch/Inflight.antt =====
-- crates/ignis/src/reactor.rs, `inflight`: the counter against the history, and the law of a whole
-- run of the reactor, its dispatcher and its tasks.
use ignis.Shared.{
  ℕ, ◌+◌, ◌-◌, ◌<◌, ◌≤◌, ◌≡◌, refl, ap, List, [], ◌∷◌, Option, arith, length, length-append, sum_by,
  u64_mod,
}
use ignis.Reactor.{
  Op, sleep, Outcome, submit, reserve_op, complete, inject, poll, Polled, returned, blocked,
}
use ignis.Reactor.Calls.{after_poll}
use ignis.Reactor.Poll.{batch, poll_keeps}
use ignis.Reactor.Answers.{deliver_request_with_id, deliver_stream_request, cancel_request}
use ignis.Dispatch.{
  World, Dispatcher, idle, holds, deliver_batch, quiet, Move, polls, receives, dispatches, produces,
  advances, reaps, step, dispatch_from, receive_from, produce_task, advance_task, reap_task,
  handle_op, abort_task, claim_task,
}
use ignis.Dispatch.Conserves.{Balanced, receive-history, dispatch-history, task-history}

-- Every unit that was counted and has not been delivered is counted now.
abbrev pub Counts : World → Type 0
Counts w = w.reactor.inflight + length w.delivered ≡ length w.issued

pub sum_ones {ℓ} : {A : Type ℓ} (xs : List A) → sum_by (λ _. 1) xs ≡ length xs
sum_ones [] = refl
sum_ones (x ∷ xs) = omega (arith, sum_ones xs)

deliver_batch-Counts :
    (w : World) (p : Polled)
    → (after_poll p).inflight ≡ w.reactor.inflight - length (batch p)
    → length (batch p) ≤ w.reactor.inflight
    → Counts w
    → Counts (deliver_batch w p)
unfolding deliver_batch
deliver_batch-Counts w (returned r cs) e l c = omega (arith, length-append w.delivered cs)
deliver_batch-Counts w (blocked r) e l c = omega arith

-- The batch of a poll was counted, so the saturating subtraction never saturates.
batch-le-inflight :
    (w : World) (t : Option ℕ) (entered left : ℕ)
    → Balanced (λ _. 1) w
    → Counts w
    → length (batch (poll w.reactor t (quiet entered left))) ≤ w.reactor.inflight
batch-le-inflight w t entered left b c =
    let p = quiet entered left in
    let keeps = (poll_keeps w.reactor t p).0 in
    omega (
      arith,
      b,
      ap length keeps,
      length-append (batch (poll w.reactor t p)) (after_poll (poll w.reactor t p)).from_tokio,
      length-append w.reactor.from_tokio [],
      sum_ones w.issued,
      sum_ones w.reactor.from_tokio,
      sum_ones w.delivered,
    )

receive-inflight :
    (w : World) (d : Dispatcher) (q : List (ℕ × Op))
    → ((receive_from d q w).reactor.inflight ≡ w.reactor.inflight)
unfolding receive_from
receive-inflight w idle [] = refl
receive-inflight w idle ((id, op) ∷ rest) = refl
receive-inflight w _ q = refl

dispatch-inflight :
    (w : World) (d : Dispatcher) → (dispatch_from d w).reactor.inflight ≡ w.reactor.inflight
unfolding dispatch_from handle_op abort_task claim_task complete
dispatch-inflight w (holds id (sleep us)) = ground arith
dispatch-inflight w (holds id _) = ground arith
dispatch-inflight w _ = ground arith

task-inflight :
    (w : World) (id : ℕ) (o : Outcome)
    → ((produce_task w id o).reactor.inflight ≡ w.reactor.inflight)
      × ((advance_task w id).reactor.inflight ≡ w.reactor.inflight)
      × ((reap_task w id).reactor.inflight ≡ w.reactor.inflight)
unfolding produce_task advance_task reap_task complete
task-inflight w id o = (ground arith, ground arith, ground arith)

pub step-Counts :
    (w : World) (m : Move)
    → length w.issued + 1 < u64_mod
    → Balanced (λ _. 1) w
    → Counts w
    → Counts (step w m)
unfolding step submit reserve_op complete inject deliver_request_with_id deliver_stream_request
    cancel_request
step-Counts w (polls t entered left) l b c =
    let wait = quiet entered left in
    deliver_batch-Counts w (poll w.reactor t wait) (poll_keeps w.reactor t wait).1
      (batch-le-inflight w t entered left b c) c
step-Counts w receives l b c = omega (
  arith,
  receive-inflight w w.dispatcher w.reactor.to_tokio,
  ap length (receive-history w w.dispatcher w.reactor.to_tokio).0,
  ap length (receive-history w w.dispatcher w.reactor.to_tokio).1,
)
step-Counts w dispatches l b c = omega (
  arith,
  dispatch-inflight w w.dispatcher,
  ap length (dispatch-history w w.dispatcher).0,
  ap length (dispatch-history w w.dispatcher).1,
)
step-Counts w (produces id o) l b c =
    let h = task-history w id o in
    omega (arith, (task-inflight w id o).0, ap length h.0, ap length h.1)
step-Counts w (advances id) l b c =
    let h = task-history w id Outcome.ready in
    omega (arith, (task-inflight w id Outcome.ready).1, ap length h.2, ap length h.3)
step-Counts w (reaps id) l b c =
    let h = task-history w id Outcome.ready in
    omega (arith, (task-inflight w id Outcome.ready).2, ap length h.4, ap length h.5)
step-Counts w _ l b c = ground arith
