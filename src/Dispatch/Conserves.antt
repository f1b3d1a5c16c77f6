-- ===== src/Dispatch/Conserves.antt =====
-- crates/ignis/src/reactor.rs: nothing that is counted in flight is lost or announced twice, under
-- every interleaving; and the counter `inflight` is the length of the ledger.
use ignis.Shared.{
  ℕ, ◌+◌, ◌≡◌, refl, ap, List, [], ◌∷◌, ◌++◌, Option, arith, sum_by, sum_by-append, lookup,
  Option-cases, inl, inr, KeysBelow-Absent, lookup-of_Absent, sum-insert_new, sum-remove,
}
use ignis.Reactor.Calls.{after_poll}
use ignis.Reactor.Poll.{batch, poll_keeps}
use ignis.Reactor.{
  Wait, sleep, Op, Outcome, request, HttpRequest, Reactor, submit, reserve_op, inject, poll, Polled,
  returned, blocked, cancelled,
}
use ignis.Reactor.Answers.{deliver_request_with_id, deliver_stream_request, cancel_request}
use ignis.Dispatch.{
  World, Dispatcher, idle, holds, handle_op, abort_task, claim_task, deliver_batch, quiet, Move,
  submits, reserves, completes, injects, delivers, delivers_stream, cancels, polls, receives,
  dispatches, produces, advances, reaps, step, dispatch_from, receive_from, produce_task,
  advance_task, reap_task,
}
use ignis.Dispatch.Ledger.{
  ledger, queued_units, complete-queued, dispatch-ledger, receive-ledger, produce-ledger,
  advance-ledger, reap-ledger,
}
use ignis.Dispatch.Sound.{Sound}

-- Each unit ever issued is in the ledger or was delivered, by the weight `f`.
abbrev pub Balanced : (ℕ → ℕ) → World → Type 0
Balanced f w = sum_by f w.issued ≡ ledger f w + queued_units f w.delivered

poll-to_tokio :
    (r : Reactor) (t : Option ℕ) (w : Wait) → (after_poll (poll r t w)).to_tokio ≡ r.to_tokio
unfolding poll
poll-to_tokio r t w = ground arith

-- The history is written by calls only.
pub receive-history :
    (w : World) (d : Dispatcher) (q : List (ℕ × Op))
    → ((receive_from d q w).issued ≡ w.issued) × ((receive_from d q w).delivered ≡ w.delivered)
unfolding receive_from
receive-history w idle [] = (refl, refl)
receive-history w idle ((id, op) ∷ rest) = (refl, refl)
receive-history w _ q = (refl, refl)

pub dispatch-history :
    (w : World) (d : Dispatcher)
    → ((dispatch_from d w).issued ≡ w.issued) × ((dispatch_from d w).delivered ≡ w.delivered)
unfolding dispatch_from handle_op abort_task claim_task
dispatch-history w (holds id (sleep us)) = ground arith
dispatch-history w (holds id _) = ground arith
dispatch-history w _ = ground arith

pub task-history :
    (w : World) (id : ℕ) (o : Outcome)
    → ((produce_task w id o).issued ≡ w.issued)
      × ((produce_task w id o).delivered ≡ w.delivered)
      × ((advance_task w id).issued ≡ w.issued)
      × ((advance_task w id).delivered ≡ w.delivered)
      × ((reap_task w id).issued ≡ w.issued)
      × ((reap_task w id).delivered ≡ w.delivered)
unfolding produce_task advance_task reap_task
task-history w id o =
    (ground arith, ground arith, ground arith, ground arith, ground arith, ground arith)

module _ (f : ℕ → ℕ) where
  -- Where the history is not touched, the ledger decides.
  kept :
      (w u : World)
      → ledger f u ≡ ledger f w
      → u.issued ≡ w.issued
      → u.delivered ≡ w.delivered
      → Balanced f w
      → Balanced f u
  kept w u e i d b = rw (i, d, e) b

  submit-Balanced : (w : World) (op : Op) → Balanced f w → Balanced f (step w (submits op))
  unfolding step submit
  submit-Balanced w op b =
      ground (arith, sum_by-append (λ p. f p.0) w.reactor.to_tokio ((w.reactor.next_id, op) ∷ []))

  reserve-Balanced : (w : World) → Sound w → Balanced f w → Balanced f (step w reserves)
  unfolding step reserve_op
  reserve-Balanced w s b = omega (
    arith,
    b,
    sum-insert_new (λ id _. f id) w.reactor.next_id tt w.reserved
        (lookup-of_Absent w.reactor.next_id w.reserved
          (KeysBelow-Absent w.reactor.next_id w.reserved s.reserved_given)),
  )

  queue_one :
      (r : Reactor) (id : ℕ) (o : Outcome)
      → queued_units f (r.from_tokio ++ record { id = id; outcome = o } ∷ [])
        ≡ queued_units f r.from_tokio + f id
  queue_one r id o =
      omega (arith, sum_by-append (λ c. f c.id) r.from_tokio (record { id = id; outcome = o } ∷ []))

  complete-Balanced :
      (w : World) (id : ℕ) (o : Outcome)
      → Sound w
      → Balanced f w
      → Balanced f (step w (completes id o))
  unfolding step
  complete-Balanced w id o s b = elim (Option-cases (lookup id w.reserved)) [
    | inl q ↦ rw (q, step) b
    | inr (v, q) ↦
        rw (q, step)
          (ground (
            arith,
            complete-queued f w.reactor id o s.connected,
            sum-remove (λ id _. f id) id v w.reserved s.reserved_once q,
          ))
  ]

  inject-Balanced :
      (w : World) (o : Outcome) → Sound w → Balanced f w → Balanced f (step w (injects o))
  unfolding step inject
  inject-Balanced w o s b = ground (arith, s.connected, queue_one w.reactor w.reactor.next_id o)

  deliver-Balanced :
      (w : World) (req : HttpRequest) → Sound w → Balanced f w → Balanced f (step w (delivers req))
  unfolding step deliver_request_with_id
  deliver-Balanced w req s b =
      ground (arith, s.connected, queue_one w.reactor w.reactor.next_id (request req))

  deliver_stream-Balanced :
      (w : World) (req : HttpRequest)
      → Sound w
      → Balanced f w
      → Balanced f (step w (delivers_stream req))
  unfolding step deliver_stream_request
  deliver_stream-Balanced w req s b =
      ground (arith, s.connected, queue_one w.reactor w.reactor.next_id (request req))

  cancel-Balanced :
      (w : World) (id now : ℕ) → Sound w → Balanced f w → Balanced f (step w (cancels id now))
  unfolding step cancel_request
  cancel-Balanced w id now s b = ground (arith, s.connected, queue_one w.reactor id (cancelled now))

  deliver_batch-Balanced :
      (w : World) (p : Polled)
      → (after_poll p).to_tokio ≡ w.reactor.to_tokio
      → batch p ++ (after_poll p).from_tokio ≡ w.reactor.from_tokio ++ []
      → Balanced f w
      → Balanced f (deliver_batch w p)
  unfolding deliver_batch
  deliver_batch-Balanced w (returned r cs) t q b = omega (
    arith,
    b,
    ap (sum_by (λ p. f p.0)) t,
    ap (queued_units f) q,
    sum_by-append (λ c. f c.id) cs r.from_tokio,
    sum_by-append (λ c. f c.id) w.reactor.from_tokio [],
    sum_by-append (λ c. f c.id) w.delivered cs,
  )
  deliver_batch-Balanced w (blocked r) t q b = omega (
    arith,
    b,
    ap (sum_by (λ p. f p.0)) t,
    ap (queued_units f) q,
    sum_by-append (λ c. f c.id) w.reactor.from_tokio [],
  )

  -- Every action keeps the balance, for every weight.
  pub step-Balanced : (w : World) (m : Move) → Sound w → Balanced f w → Balanced f (step w m)
  unfolding step
  step-Balanced w (submits op) s b = submit-Balanced w op b
  step-Balanced w reserves s b = reserve-Balanced w s b
  step-Balanced w (completes id o) s b = complete-Balanced w id o s b
  step-Balanced w (injects o) s b = inject-Balanced w o s b
  step-Balanced w (delivers req) s b = deliver-Balanced w req s b
  step-Balanced w (delivers_stream req) s b = deliver_stream-Balanced w req s b
  step-Balanced w (cancels id now) s b = cancel-Balanced w id now s b
  step-Balanced w (polls t entered left) s b =
      let wait = quiet entered left in
      deliver_batch-Balanced w (poll w.reactor t wait) (poll-to_tokio w.reactor t wait)
        (poll_keeps w.reactor t wait).0 b
  step-Balanced w receives s b =
      let h = receive-history w w.dispatcher w.reactor.to_tokio in
      kept w (receive_from w.dispatcher w.reactor.to_tokio w)
        (receive-ledger f w w.dispatcher w.reactor.to_tokio refl refl) h.0 h.1 b
  step-Balanced w dispatches s b =
      let h = dispatch-history w w.dispatcher in
      kept w (dispatch_from w.dispatcher w)
        (dispatch-ledger f w w.dispatcher s.connected s.claims refl) h.0 h.1 b
  step-Balanced w (produces id o) s b =
      let h = task-history w id o in
      kept w (produce_task w id o) (produce-ledger f w id o) h.0 h.1 b
  step-Balanced w (advances id) s b =
      let h = task-history w id Outcome.ready in
      kept w (advance_task w id) (advance-ledger f w id s.connected s.claims) h.2 h.3 b
  step-Balanced w (reaps id) s b =
      let h = task-history w id Outcome.ready in
      kept w (reap_task w id) (reap-ledger f w id) h.4 h.5 b
