-- ===== src/Dispatch/Answered.antt =====
-- crates/ignis/src/reactor.rs: the answers map's invariant under the actions of the whole world.
use ignis.Shared.{
  ℕ, ◌+◌, ◌<◌, ◌≡◌, refl, List, [], ◌∷◌, arith, u64_mod, lookup, Option-cases, inl, inr,
}
use ignis.Reactor.{Op, sleep, Outcome, Reactor, complete, poll, Polled, returned, blocked}
use ignis.Reactor.Calls.{Call, apply, after_poll}
use ignis.Reactor.Answers.Invariant.{Inv, Inv-grow, apply-Inv}
use ignis.Dispatch.{
  World, Dispatcher, idle, holds, deliver_batch, quiet, Move, submits, reserves, completes, injects,
  delivers, delivers_stream, cancels, polls, receives, dispatches, produces, advances, reaps, step,
  dispatch_from, receive_from, advance_task, produce_task, reap_task, handle_op, abort_task,
  claim_task,
}

-- The fields that the invariant reads are the same.
abbrev pub SameAnswers : Reactor → Reactor → Type 0
SameAnswers r s =
    (r.next_id ≡ s.next_id)
    × (s.answers ≡ r.answers)
    × (s.connected ≡ r.connected)
    × (s.channels ≡ r.channels)

same-Inv : (r s : Reactor) → SameAnswers r s → Inv r → Inv s
same-Inv r s (n, a, c, h) v = Inv-grow r s (omega arith) a c h v

complete-same : (r : Reactor) (id : ℕ) (o : Outcome) → SameAnswers r (complete r id o)
unfolding complete
complete-same r id o = (ground arith, ground arith, ground arith, ground arith)

receive-same :
    (w : World) (d : Dispatcher) (q : List (ℕ × Op))
    → SameAnswers w.reactor (receive_from d q w).reactor
unfolding receive_from
receive-same w idle ((id, op) ∷ rest) = (refl, refl, refl, refl)
receive-same w idle [] = (refl, refl, refl, refl)
receive-same w _ q = (refl, refl, refl, refl)

dispatch-same : (w : World) (d : Dispatcher) → SameAnswers w.reactor (dispatch_from d w).reactor
unfolding dispatch_from handle_op abort_task claim_task complete
dispatch-same w (holds id (sleep us)) = (ground arith, ground arith, ground arith, ground arith)
dispatch-same w (holds id _) = (ground arith, ground arith, ground arith, ground arith)
dispatch-same w _ = (ground arith, ground arith, ground arith, ground arith)

task-same :
    (w : World) (id : ℕ) (o : Outcome)
    → SameAnswers w.reactor (produce_task w id o).reactor
      × SameAnswers w.reactor (advance_task w id).reactor
      × SameAnswers w.reactor (reap_task w id).reactor
unfolding produce_task advance_task reap_task complete
task-same w id o = (
  (ground arith, ground arith, ground arith, ground arith),
  (ground arith, ground arith, ground arith, ground arith),
  (ground arith, ground arith, ground arith, ground arith),
)

deliver_batch-Inv : (w : World) (p : Polled) → Inv (after_poll p) → Inv (deliver_batch w p).reactor
unfolding deliver_batch
deliver_batch-Inv w (returned r cs) v = v
deliver_batch-Inv w (blocked r) v = v

pub step-Inv :
    (w : World) (m : Move)
    → w.reactor.next_id + 1 < u64_mod
    → Inv w.reactor
    → Inv (step w m).reactor
unfolding step apply
step-Inv w (submits op) l v = apply-Inv w.reactor (Call.submits op) l v
step-Inv w reserves l v = apply-Inv w.reactor Call.reserves l v
step-Inv w (completes id o) l v = elim (Option-cases (lookup id w.reserved)) [
  | inl q ↦ rw (q, step) v
  | inr (a, q) ↦ rw (q, step) (same-Inv w.reactor _ (complete-same w.reactor id o) v)
]
step-Inv w (injects o) l v = apply-Inv w.reactor (Call.injects o) l v
step-Inv w (delivers req) l v = apply-Inv w.reactor (Call.delivers req) l v
step-Inv w (delivers_stream req) l v = apply-Inv w.reactor (Call.delivers_stream req) l v
step-Inv w (cancels id now) l v = elim (Option-cases (lookup id w.reactor.answers)) [
  | inl q ↦ rw (q, step) v
  | inr (a, q) ↦ rw (q, step) (apply-Inv w.reactor (Call.cancels id now) l v)
]
step-Inv w (polls t entered left) l v =
    deliver_batch-Inv w (poll w.reactor t (quiet entered left))
      (apply-Inv w.reactor (Call.polls t (quiet entered left)) l v)
step-Inv w receives l v = same-Inv w.reactor _ (receive-same w w.dispatcher w.reactor.to_tokio) v
step-Inv w dispatches l v = same-Inv w.reactor _ (dispatch-same w w.dispatcher) v
step-Inv w (produces id o) l v = same-Inv w.reactor _ (task-same w id o).0 v
step-Inv w (advances id) l v = same-Inv w.reactor _ (task-same w id Outcome.ready).1 v
step-Inv w (reaps id) l v = same-Inv w.reactor _ (task-same w id Outcome.ready).2 v
