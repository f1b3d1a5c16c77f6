-- ===== src/Dispatch/Sound.antt =====
-- crates/ignis/src/reactor.rs: what holds of the dispatcher and its tasks between any two actions.
use ignis.Shared.{
  ℕ, ◌+◌, ◌<◌, ◌≤◌, ◌≡◌, refl, ◌∙◌, Bool, true, false, List, [], ◌∷◌, Option, none, some, arith,
  lookup, insert, remove, Values, Values-lookup, Values-insert, UniqueKeys, KeysBelow,
  insert-UniqueKeys, remove-UniqueKeys, insert-KeysBelow, remove-KeysBelow, KeysBelow-mono,
  Option-cases, inl, inr, u64_mod,
}
use ignis.Reactor.{
  Op, sleep, watch, cancel_watch, custom, Outcome, Reactor, reserve_op, complete, poll, Polled,
  returned, blocked, Wait,
}
use ignis.Reactor.Calls.{Call, apply, after_poll}
use ignis.Reactor.Counters.{next_id-apply, connected-apply}
use ignis.Dispatch.{
  World, Task, timed, future, over, Phase, running, produced, forgot, won, ended, Dispatcher, idle,
  holds, found, aborts, handle_op, abort_task, claim_task, dispatch_from, receive_from,
  deliver_batch, produce_task, advance_task, reap_task, quiet, send, Move, submits, reserves,
  completes, injects, delivers, delivers_stream, cancels, polls, receives, dispatches, produces,
  advances, reaps, step,
}
use ignis.Dispatch.Ledger.{HasClaim}

pub record Sound (w : World) : Type 0 where
  pub claims : Values HasClaim w.tasks
  pub connected : w.reactor.connected ≡ true
  pub reserved_once : UniqueKeys w.reserved
  pub reserved_given : KeysBelow w.reactor.next_id w.reserved

task-claims :
    (w : World) (id : ℕ) (t : Task)
    → Values HasClaim w.tasks
    → HasClaim t
    → Values HasClaim (insert id t w.tasks)
task-claims w id t h k = Values-insert HasClaim id t w.tasks k h

HasClaim-aborted : (p : Phase) (c a b : Bool) → HasClaim (timed p c a) → HasClaim (timed p c b)
HasClaim-aborted (won o) false a b h = h
HasClaim-aborted (won o) true a b h = tt
HasClaim-aborted _ c a b h = tt

abort-claims :
    (w : World) (id target : ℕ)
    → Values HasClaim w.tasks
    → Values HasClaim (abort_task w id target).tasks
unfolding abort_task
abort-claims w id target h = elim (Option-cases (lookup target w.tasks)) [
  | inl q ↦ rw (q, abort_task) h
  | inr (timed p c a, q) ↦
      rw (q, abort_task)
        (task-claims w target (timed p c true) h
          (HasClaim-aborted p c a true (Values-lookup HasClaim target (timed p c a) w.tasks h q)))
  | inr (future o, q) ↦ rw (q, abort_task) h
  | inr (over, q) ↦ rw (q, abort_task) h
]

HasClaim-claimed : (p : Phase) (a : Bool) → HasClaim (timed p true a)
HasClaim-claimed running a = tt
HasClaim-claimed _ a = tt

claim-claims :
    (w : World) (id target : ℕ)
    → Values HasClaim w.tasks
    → Values HasClaim (claim_task w id target).tasks
unfolding claim_task
claim-claims w id target h = elim (Option-cases (lookup target w.tasks)) [
  | inl q ↦ rw (q, claim_task) h
  | inr (timed p false a, q) ↦
      rw (q, claim_task) (task-claims w target (timed p true a) h (HasClaim-claimed p a))
  | inr (timed p true a, q) ↦ rw (q, claim_task) h
  | inr (future o, q) ↦ rw (q, claim_task) h
  | inr (over, q) ↦ rw (q, claim_task) h
]

handle-claims :
    (w : World) (id : ℕ) (op : Op)
    → Values HasClaim w.tasks
    → Values HasClaim (handle_op w id op).tasks
unfolding handle_op
handle-claims w id (sleep us) h = ground (arith, h)
handle-claims w id (watch fd write) h = (tt, h)
handle-claims w id custom h = (tt, h)
handle-claims w id (cancel_watch target) h = ground (arith, h)

dispatch-claims :
    (w : World) (d : Dispatcher)
    → Values HasClaim w.tasks
    → Values HasClaim (dispatch_from d w).tasks
unfolding dispatch_from
dispatch-claims w (holds id op) h = handle-claims w id op h
dispatch-claims w (found id target) h = abort-claims w id target h
dispatch-claims w (aborts id target) h = claim-claims w id target h
dispatch-claims w _ h = h

-- What the dispatcher and the tasks do leaves the ids and the promises alone.
pub dispatch-ids :
    (w : World) (d : Dispatcher)
    → ((dispatch_from d w).reactor.next_id ≡ w.reactor.next_id)
      × ((dispatch_from d w).reactor.connected ≡ w.reactor.connected)
      × ((dispatch_from d w).reserved ≡ w.reserved)
unfolding dispatch_from handle_op abort_task claim_task complete
dispatch-ids w (holds id (sleep us)) = (ground arith, ground arith, ground arith)
dispatch-ids w (holds id _) = (ground arith, ground arith, ground arith)
dispatch-ids w _ = (ground arith, ground arith, ground arith)

produce-claims :
    (w : World) (id : ℕ) (o : Outcome)
    → Values HasClaim w.tasks
    → Values HasClaim (produce_task w id o).tasks
unfolding produce_task
produce-claims w id o h = elim (Option-cases (lookup id w.tasks)) [
  | inr (timed running c a, q) ↦
      rw (q, produce_task) (task-claims w id (timed (produced o) c a) h tt)
  | inr (future none, q) ↦ rw (q, produce_task) (task-claims w id (future (some o)) h tt)
  | inl q ↦ rw (q, produce_task) h
  | inr (timed (produced p) c a, q) ↦ rw (q, produce_task) h
  | inr (timed (forgot p) c a, q) ↦ rw (q, produce_task) h
  | inr (timed (won p) c a, q) ↦ rw (q, produce_task) h
  | inr (timed ended c a, q) ↦ rw (q, produce_task) h
  | inr (future (some p), q) ↦ rw (q, produce_task) h
  | inr (over, q) ↦ rw (q, produce_task) h
]

reap-claims :
    (w : World) (id : ℕ) → Values HasClaim w.tasks → Values HasClaim (reap_task w id).tasks
unfolding reap_task
reap-claims w id h = elim (Option-cases (lookup id w.tasks)) [
  | inr (timed running c true, q) ↦ rw (q, reap_task) (task-claims w id (timed ended c true) h tt)
  | inr (timed running c false, q) ↦ rw (q, reap_task) h
  | inl q ↦ rw (q, reap_task) h
  | inr (timed (produced p) c a, q) ↦ rw (q, reap_task) h
  | inr (timed (forgot p) c a, q) ↦ rw (q, reap_task) h
  | inr (timed (won p) c a, q) ↦ rw (q, reap_task) h
  | inr (timed ended c a, q) ↦ rw (q, reap_task) h
  | inr (future p, q) ↦ rw (q, reap_task) h
  | inr (over, q) ↦ rw (q, reap_task) h
]

advance-claims :
    (w : World) (id : ℕ) → Values HasClaim w.tasks → Values HasClaim (advance_task w id).tasks
unfolding advance_task
advance-claims w id h = elim (Option-cases (lookup id w.tasks)) [
  | inr (timed (produced o) c a, q) ↦
      rw (q, advance_task) (task-claims w id (timed (forgot o) c a) h tt)
  | inr (timed (forgot o) false a, q) ↦
      rw (q, advance_task) (task-claims w id (timed (won o) true a) h tt)
  | inr (timed (forgot o) true a, q) ↦
      rw (q, advance_task) (task-claims w id (timed ended true a) h tt)
  | inr (timed (won o) c a, q) ↦ rw (q, advance_task) (task-claims w id (timed ended c a) h tt)
  | inr (future (some o), q) ↦ rw (q, advance_task) (task-claims w id over h tt)
  | inr (timed running c a, q) ↦ rw (q, advance_task) h
  | inr (timed ended c a, q) ↦ rw (q, advance_task) h
  | inr (future none, q) ↦ rw (q, advance_task) h
  | inr (over, q) ↦ rw (q, advance_task) h
  | inl q ↦ rw (q, advance_task) h
]

-- The invariant reads four fields, and the id counter only as a bound.
Sound-same :
    (w u : World)
    → Values HasClaim u.tasks
    → w.reactor.next_id ≤ u.reactor.next_id
    → u.reactor.connected ≡ w.reactor.connected
    → u.reserved ≡ w.reserved
    → Sound w
    → Sound u
Sound-same w u h n c r s = record {
  claims = h;
  connected = c ∙ s.connected;
  reserved_once = rw r s.reserved_once;
  reserved_given =
      rw r (KeysBelow-mono w.reactor.next_id u.reactor.next_id w.reserved n s.reserved_given);
}

pub task-ids :
    (w : World) (id : ℕ)
    → ((advance_task w id).reactor.next_id ≡ w.reactor.next_id)
      × ((advance_task w id).reactor.connected ≡ w.reactor.connected)
      × ((advance_task w id).reserved ≡ w.reserved)
unfolding advance_task complete
task-ids w id = (ground arith, ground arith, ground arith)

-- A call of the reactor that makes no promise.
call-Sound :
    (w u : World) (c : Call)
    → w.reactor.next_id + 1 < u64_mod
    → u.reactor ≡ apply w.reactor c
    → u.tasks ≡ w.tasks
    → u.reserved ≡ w.reserved
    → Sound w
    → Sound u
call-Sound w u c l e t r s =
    Sound-same w u (rw t s.claims) (rw e (next_id-apply w.reactor c l).0)
      (rw e (connected-apply w.reactor c)) r s

deliver_batch-Sound :
    (w : World) (p : Polled)
    → (after_poll p).next_id ≡ w.reactor.next_id
    → (after_poll p).connected ≡ w.reactor.connected
    → Sound w
    → Sound (deliver_batch w p)
unfolding deliver_batch
deliver_batch-Sound w (returned r cs) n c s = Sound-same w _ s.claims (omega arith) c refl s
deliver_batch-Sound w (blocked r) n c s = Sound-same w _ s.claims (omega arith) c refl s

pub poll-next_id :
    (r : Reactor) (t : Option ℕ) (p : Wait)
    → ((after_poll (poll r t p)).next_id ≡ r.next_id)
      × ((after_poll (poll r t p)).connected ≡ r.connected)
unfolding poll
poll-next_id r t p = ground arith

receive-Sound :
    (w : World) (d : Dispatcher) (q : List (ℕ × Op)) → Sound w → Sound (receive_from d q w)
unfolding receive_from
receive-Sound w idle ((id, op) ∷ rest) s = Sound-same w _ s.claims (omega arith) refl refl s
receive-Sound w idle [] s = s
receive-Sound w _ q s = s

completes-Sound :
    (w : World) (id : ℕ) (o : Outcome)
    → Sound w
    → Sound (record (send w id o) { reserved = remove id w.reserved })
unfolding complete
completes-Sound w id o s = record {
  claims = s.claims;
  connected = ground (arith, s.connected);
  reserved_once = remove-UniqueKeys id w.reserved s.reserved_once;
  reserved_given =
      let same : (complete w.reactor id o).next_id ≡ w.reactor.next_id = ground arith in
      rw same (remove-KeysBelow id w.reactor.next_id w.reserved s.reserved_given);
}

pub receive-ids :
    (w : World) (d : Dispatcher) (q : List (ℕ × Op))
    → (receive_from d q w).reactor.next_id ≡ w.reactor.next_id
unfolding receive_from
receive-ids w idle [] = refl
receive-ids w idle ((id, op) ∷ rest) = refl
receive-ids w _ q = refl

-- Every action of the PHP thread, the dispatcher, a task or the scheduler keeps the invariant.
pub step-Sound :
    (w : World) (m : Move) → w.reactor.next_id + 1 < u64_mod → Sound w → Sound (step w m)
unfolding step apply produce_task reap_task reserve_op
step-Sound w (submits op) l s = call-Sound w _ (Call.submits op) l refl refl refl s
step-Sound w reserves l s = record {
  claims = s.claims;
  connected = s.connected;
  reserved_once = insert-UniqueKeys w.reactor.next_id tt w.reserved s.reserved_once;
  reserved_given =
      insert-KeysBelow w.reactor.next_id tt _ w.reserved (omega arith)
        (KeysBelow-mono w.reactor.next_id _ w.reserved (omega arith) s.reserved_given);
}
step-Sound w (completes id o) l s = elim (Option-cases (lookup id w.reserved)) [
  | inl q ↦ rw (q, step) s
  | inr (a, q) ↦ rw (q, step) (completes-Sound w id o s)
]
step-Sound w (injects o) l s = call-Sound w _ (Call.injects o) l refl refl refl s
step-Sound w (delivers req) l s = call-Sound w _ (Call.delivers req) l refl refl refl s
step-Sound w (delivers_stream req) l s =
    call-Sound w _ (Call.delivers_stream req) l refl refl refl s
step-Sound w (cancels id now) l s = elim (Option-cases (lookup id w.reactor.answers)) [
  | inl q ↦ rw (q, step) s
  | inr (a, q) ↦ rw (q, step) (call-Sound w _ (Call.cancels id now) l refl refl refl s)
]
step-Sound w (polls timeout entered left) l s =
    let wait = quiet entered left in
    deliver_batch-Sound w (poll w.reactor timeout wait) (poll-next_id w.reactor timeout wait).0
      (poll-next_id w.reactor timeout wait).1 s
step-Sound w receives l s = receive-Sound w w.dispatcher w.reactor.to_tokio s
step-Sound w dispatches l s =
    let (n, c, r) = dispatch-ids w w.dispatcher in
    Sound-same w (dispatch_from w.dispatcher w) (dispatch-claims w w.dispatcher s.claims)
      (omega arith) c r s
step-Sound w (produces id o) l s =
    Sound-same w (produce_task w id o) (produce-claims w id o s.claims) (ground arith)
      (ground arith) (ground arith) s
step-Sound w (advances id) l s =
    let (n, c, r) = task-ids w id in
    Sound-same w (advance_task w id) (advance-claims w id s.claims) (omega arith) c r s
step-Sound w (reaps id) l s =
    Sound-same w (reap_task w id) (reap-claims w id s.claims) (ground arith) (ground arith)
      (ground arith) s
