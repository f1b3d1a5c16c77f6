-- ===== src/Dispatch/Ledger.antt =====
-- crates/ignis/src/reactor.rs: where each unit that is counted in flight stands between its
-- submission and the batch that `poll` returns it in. The ledger weighs a unit by its op id, so
-- that one law counts all of them, or those of one id.
use ignis.Shared.{
  ℕ, ◌+◌, ◌≡◌, refl, ap, true, false, List, [], ◌∷◌, none, some, arith, sum_by, sum_by-append,
  lookup, insert, sum_entries, sum-insert, Option-cases, inl, inr, Values, Values-lookup,
}
use ignis.Reactor.{Op, sleep, Outcome, slept, Completion, Reactor, complete}
use ignis.Dispatch.{
  World, Task, timed, future, over, running, produced, forgot, won, ended, Dispatcher, idle, holds,
  spawned, found, aborts, claimed, replies, handle_op, abort_task, claim_task, dispatch_from,
  receive_from, produce_task, advance_task, reap_task, cancelled_error,
}

-- What a task still owes: until the claim is made it owes its completion, whoever sends it.
abbrev pub units : (ℕ → ℕ) → ℕ → Task → ℕ
units f id (timed p false a) = f id
units f id (timed (won o) true a) = f id
units f id (timed _ true a) = 0
units f id (future _) = f id
units f id over = 0

abbrev pub dispatcher_units : (ℕ → ℕ) → Dispatcher → ℕ
dispatcher_units f idle = 0
dispatcher_units f (holds id op) = f id
dispatcher_units f (spawned id) = 0
dispatcher_units f (found id target) = f id
dispatcher_units f (aborts id target) = f id
dispatcher_units f (claimed id target) = f id + f target
dispatcher_units f (replies id) = f id

abbrev pub queued_units : (ℕ → ℕ) → List Completion → ℕ
queued_units f = sum_by (λ c. f c.id)

-- Not yet received, in the dispatcher's hands, in a task, promised by another thread, or done.
abbrev pub ledger : (ℕ → ℕ) → World → ℕ
ledger f w =
    sum_by (λ p. f p.0) w.reactor.to_tokio
    + dispatcher_units f w.dispatcher
    + sum_entries (units f) w.tasks
    + sum_entries (λ id _. f id) w.reserved
    + queued_units f w.reactor.from_tokio

-- A task that won the claim has made it.
abbrev pub HasClaim : Task → Type 0
HasClaim (timed (won o) false a) = ⊥
HasClaim _ = Unit {0}

module _ (f : ℕ → ℕ) where
  pub complete-queued :
      (r : Reactor) (id : ℕ) (o : Outcome)
      → r.connected ≡ true
      → (queued_units f (complete r id o).from_tokio ≡ queued_units f r.from_tokio + f id)
        × ((complete r id o).to_tokio ≡ r.to_tokio)
  unfolding complete
  complete-queued r id o k = (
    ground (arith, sum_by-append (λ c. f c.id) r.from_tokio (record { id = id; outcome = o } ∷ [])),
    ground arith,
  )

  -- What a change of task `id` does to the sum.
  change :
      (w : World) (id : ℕ) (old new : Task)
      → lookup id w.tasks ≡ some old
      → sum_entries (units f) (insert id new w.tasks) + units f id old
        ≡ sum_entries (units f) w.tasks + units f id new
  change w id old new e = sum-insert (units f) id new old w.tasks e

  handle-ledger :
      (w : World) (id : ℕ) (op : Op)
      → w.reactor.connected ≡ true
      → w.dispatcher ≡ holds id op
      → ledger f (handle_op w id op) ≡ ledger f w
  unfolding handle_op
  handle-ledger w id (sleep us) k e =
      ground (arith, ap (dispatcher_units f) e, complete-queued w.reactor id (slept 0) k)
  handle-ledger w id _ k e = ground (arith, ap (dispatcher_units f) e)

  abort-ledger :
      (w : World) (id target : ℕ)
      → w.dispatcher ≡ found id target
      → ledger f (abort_task w id target) ≡ ledger f w
  unfolding abort_task
  abort-ledger w id target e = elim (Option-cases (lookup target w.tasks)) [
    | inl q ↦ ground (arith, ap (dispatcher_units f) e)
    | inr (timed p true a, q) ↦
        ground (arith, ap (dispatcher_units f) e, change w target _ (timed p true true) q)
    | inr (timed p false a, q) ↦
        ground (arith, ap (dispatcher_units f) e, change w target _ (timed p false true) q)
    | inr (future o, q) ↦ ground (arith, ap (dispatcher_units f) e)
    | inr (over, q) ↦ ground (arith, ap (dispatcher_units f) e)
  ]

  claim-ledger :
      (w : World) (id target : ℕ)
      → Values HasClaim w.tasks
      → w.dispatcher ≡ aborts id target
      → ledger f (claim_task w id target) ≡ ledger f w
  unfolding claim_task
  claim-ledger w id target h e = elim (Option-cases (lookup target w.tasks)) [
    | inl q ↦ ground (arith, ap (dispatcher_units f) e)
    | inr (timed p true a, q) ↦ ground (arith, ap (dispatcher_units f) e)
    | inr (timed p false a, q) ↦
        let claim = Values-lookup HasClaim target (timed p false a) w.tasks h q in
        ground (arith, ap (dispatcher_units f) e, claim, change w target _ (timed p true a) q)
    | inr (future o, q) ↦ ground (arith, ap (dispatcher_units f) e)
    | inr (over, q) ↦ ground (arith, ap (dispatcher_units f) e)
  ]

  pub dispatch-ledger :
      (w : World) (d : Dispatcher)
      → w.reactor.connected ≡ true
      → Values HasClaim w.tasks
      → w.dispatcher ≡ d
      → ledger f (dispatch_from d w) ≡ ledger f w
  unfolding dispatch_from
  dispatch-ledger w idle k h e = refl
  dispatch-ledger w (holds id op) k h e = handle-ledger w id op k e
  dispatch-ledger w (spawned id) k h e = ground (arith, ap (dispatcher_units f) e)
  dispatch-ledger w (found id target) k h e = abort-ledger w id target e
  dispatch-ledger w (aborts id target) k h e = claim-ledger w id target h e
  dispatch-ledger w (claimed id target) k h e =
      ground (arith, ap (dispatcher_units f) e, complete-queued w.reactor target cancelled_error k)
  dispatch-ledger w (replies id) k h e =
      ground (arith, ap (dispatcher_units f) e, complete-queued w.reactor id cancelled_error k)

  pub receive-ledger :
      (w : World) (d : Dispatcher) (q : List (ℕ × Op))
      → w.dispatcher ≡ d
      → w.reactor.to_tokio ≡ q
      → ledger f (receive_from d q w) ≡ ledger f w
  unfolding receive_from
  receive-ledger w idle [] e t = refl
  receive-ledger w idle ((id, op) ∷ rest) e t =
      ground (arith, ap (dispatcher_units f) e, ap (sum_by (λ p. f p.0)) t)
  receive-ledger w _ q e t = refl

  pub produce-ledger :
      (w : World) (id : ℕ) (o : Outcome) → ledger f (produce_task w id o) ≡ ledger f w
  unfolding produce_task
  produce-ledger w id o = elim (Option-cases (lookup id w.tasks)) [
    | inl q ↦ ground arith
    | inr (timed running true a, q) ↦ ground (arith, change w id _ (timed (produced o) true a) q)
    | inr (timed running false a, q) ↦ ground (arith, change w id _ (timed (produced o) false a) q)
    | inr (future none, q) ↦ ground (arith, change w id _ (future (some o)) q)
    | inr (timed (produced p) c a, q) ↦ ground arith
    | inr (timed (forgot p) c a, q) ↦ ground arith
    | inr (timed (won p) c a, q) ↦ ground arith
    | inr (timed ended c a, q) ↦ ground arith
    | inr (future (some p), q) ↦ ground arith
    | inr (over, q) ↦ ground arith
  ]

  pub reap-ledger : (w : World) (id : ℕ) → ledger f (reap_task w id) ≡ ledger f w
  unfolding reap_task
  reap-ledger w id = elim (Option-cases (lookup id w.tasks)) [
    | inl q ↦ ground arith
    | inr (timed running true true, q) ↦ ground (arith, change w id _ (timed ended true true) q)
    | inr (timed running false true, q) ↦ ground (arith, change w id _ (timed ended false true) q)
    | inr (timed p c a, q) ↦ ground arith
    | inr (future p, q) ↦ ground arith
    | inr (over, q) ↦ ground arith
  ]

  pub advance-ledger :
      (w : World) (id : ℕ)
      → w.reactor.connected ≡ true
      → Values HasClaim w.tasks
      → ledger f (advance_task w id) ≡ ledger f w
  unfolding advance_task
  advance-ledger w id k h = elim (Option-cases (lookup id w.tasks)) [
    | inl q ↦ ground arith
    | inr (timed (produced o) true a, q) ↦ ground (arith, change w id _ (timed (forgot o) true a) q)
    | inr (timed (produced o) false a, q) ↦
        ground (arith, change w id _ (timed (forgot o) false a) q)
    | inr (timed (forgot o) false a, q) ↦ ground (arith, change w id _ (timed (won o) true a) q)
    | inr (timed (forgot o) true a, q) ↦ ground (arith, change w id _ (timed ended true a) q)
    | inr (timed (won o) true a, q) ↦
        ground (arith, complete-queued w.reactor id o k, change w id _ (timed ended true a) q)
    | inr (timed (won o) false a, q) ↦
        absurd (Values-lookup HasClaim id (timed (won o) false a) w.tasks h q)
    | inr (future (some o), q) ↦
        ground (arith, complete-queued w.reactor id o k, change w id _ over q)
    | inr (timed running c a, q) ↦ ground arith
    | inr (timed ended c a, q) ↦ ground arith
    | inr (future none, q) ↦ ground arith
    | inr (over, q) ↦ ground arith
  ]
