-- ===== src/Dispatch/History.antt =====
-- crates/ignis/src/reactor.rs: how one action extends the history of issued ids.
use ignis.Shared.{
  ℕ, ◌+◌, ◌<◌, ◌≤◌, ◌≡◌, ◌≢◌, refl, ap, ◌⊎◌, inl, inr, ◌∷◌, none, arith, length, u64_mod, lookup,
  if◌then◌else◌, ◌==◌, sum_by,
}
use ignis.Reactor.{Outcome, submit, reserve_op, inject, complete, poll, Polled, returned, blocked}
use ignis.Reactor.Calls.{after_poll}
use ignis.Reactor.Answers.{deliver_request_with_id, deliver_stream_request, cancel_request}
use ignis.Dispatch.{
  World, deliver_batch, quiet, Move, submits, reserves, completes, injects, delivers,
  delivers_stream, cancels, polls, receives, dispatches, produces, advances, reaps, step,
  dispatch_from, receive_from, advance_task, produce_task, reap_task,
}
use ignis.Dispatch.Sound.{dispatch-ids, task-ids, receive-ids, poll-next_id}
use ignis.Dispatch.Conserves.{receive-history, dispatch-history, task-history}

-- Nothing is issued, or the id that the counter stands at.
abbrev pub Issues : World → World → Type 0
Issues w u =
    ((u.issued ≡ w.issued)
      × (w.reactor.next_id ≤ u.reactor.next_id)
      × (u.reactor.next_id ≤ w.reactor.next_id + 1))
    ⊎ ((u.issued ≡ w.reactor.next_id ∷ w.issued) × (u.reactor.next_id ≡ w.reactor.next_id + 1))

abbrev pub NotCancel : ℕ → Move → Type 0
NotCancel i (cancels id now) = i ≢ id
NotCancel i _ = Unit {0}

deliver_batch-Issues :
    (w : World) (p : Polled)
    → (after_poll p).next_id ≡ w.reactor.next_id
    → Issues w (deliver_batch w p)
unfolding deliver_batch
deliver_batch-Issues w (returned r cs) e = inl (refl, omega arith, omega arith)
deliver_batch-Issues w (blocked r) e = inl (refl, omega arith, omega arith)

kept-Issues :
    (w u : World) → u.issued ≡ w.issued → u.reactor.next_id ≡ w.reactor.next_id → Issues w u
kept-Issues w u e n = inl (e, omega arith, omega arith)

still-ids :
    (w : World) (id : ℕ) (o : Outcome)
    → ((produce_task w id o).reactor.next_id ≡ w.reactor.next_id)
      × ((reap_task w id).reactor.next_id ≡ w.reactor.next_id)
unfolding produce_task reap_task
still-ids w id o = (ground arith, ground arith)

-- Every action but a cancellation issues the next id, or none.
pub step-Issues :
    (w : World) (m : Move)
    → w.reactor.next_id + 1 < u64_mod
    → Issues w (step w m) ⊎ ((id now : ℕ) × (m ≡ cancels id now))
unfolding step submit reserve_op inject complete deliver_request_with_id deliver_stream_request
step-Issues w (submits op) l = inl (ground arith)
step-Issues w reserves l = inl (inr (refl, omega arith))
step-Issues w (completes id o) l = inl (inl (ground arith, ground arith, ground arith))
step-Issues w (injects o) l = inl (inr (refl, ground arith))
step-Issues w (delivers req) l = inl (inr (ground arith, ground arith))
step-Issues w (delivers_stream req) l = inl (inr (ground arith, ground arith))
step-Issues w (cancels id now) l = inr (id, now, refl)
step-Issues w (polls t entered left) l =
    let wait = quiet entered left in
    inl (deliver_batch-Issues w (poll w.reactor t wait) (poll-next_id w.reactor t wait).0)
step-Issues w receives l = inl (
    kept-Issues w (receive_from w.dispatcher w.reactor.to_tokio w)
      (receive-history w w.dispatcher w.reactor.to_tokio).0
      (receive-ids w w.dispatcher w.reactor.to_tokio))
step-Issues w dispatches l = inl (
    kept-Issues w (dispatch_from w.dispatcher w) (dispatch-history w w.dispatcher).0
      (dispatch-ids w w.dispatcher).0)
step-Issues w (produces id o) l =
    inl (kept-Issues w (produce_task w id o) (task-history w id o).0 (still-ids w id o).0)
step-Issues w (advances id) l =
    inl (kept-Issues w (advance_task w id) (task-history w id Outcome.ready).2 (task-ids w id).0)
step-Issues w (reaps id) l = inl (
    kept-Issues w (reap_task w id) (task-history w id Outcome.ready).4
      (still-ids w id Outcome.ready).1)

cancel-bounds :
    (w : World) (id now : ℕ)
    → (length (step w (cancels id now)).issued ≤ length w.issued + 1)
      × ((step w (cancels id now)).reactor.next_id ≡ w.reactor.next_id)
unfolding step cancel_request
cancel-bounds w id now = (ground arith, ground arith)

-- An action lengthens the history by one id at most, and moves the counter by one at most.
pub step_bounds :
    (w : World) (m : Move)
    → w.reactor.next_id + 1 < u64_mod
    → (length (step w m).issued ≤ length w.issued + 1)
      × ((step w m).reactor.next_id ≤ w.reactor.next_id + 1)
step_bounds w m l = elim (step-Issues w m l) [
  | inl (inl (e, a, b)) ↦ (omega (arith, ap length e), b)
  | inl (inr (e, n)) ↦ (omega (arith, ap length e), omega arith)
  | inr (id, now, e) ↦ rw e (omega (arith, cancel-bounds w id now))
]

-- The weight that counts the units of id `i`.
abbrev pub only : ℕ → ℕ → ℕ
only i j = if i == j then 1 else 0

-- No id from the counter on has been issued, and `i` at most once.
pub record IsFresh (i : ℕ) (w : World) : Type 0 where
  pub ahead : (j : ℕ) → w.reactor.next_id ≤ j → sum_by (only j) w.issued ≡ 0
  pub once : sum_by (only i) w.issued ≤ 1

pub issue-IsFresh : (i : ℕ) (w u : World) → Issues w u → IsFresh i w → IsFresh i u
issue-IsFresh i w u (inl (e, a, b)) v = record {
  ahead = λ j l. rw e (v.ahead j (omega arith));
  once = rw e v.once;
}
issue-IsFresh i w u (inr (e, n)) v = record {
  ahead = λ j l. rw e (ground (arith, v.ahead j));
  once = rw e (ground (arith, v.ahead i, v.once));
}

pub cancel-IsFresh :
    (i id now : ℕ) (w : World)
    → i ≢ id
    → id < w.reactor.next_id
    → IsFresh i w
    → IsFresh i (step w (cancels id now))
unfolding step cancel_request
cancel-IsFresh i id now w n l v = record {
  ahead = λ j k. ground (arith, v.ahead j);
  once = ground (arith, v.once);
}

pub cancel_unknown :
    (w : World) (id now : ℕ) → lookup id w.reactor.answers ≡ none → step w (cancels id now) ≡ w
unfolding step
cancel_unknown w id now e = rw (e, step)
