-- ===== src/Serve/Owed.antt =====
-- crates/ignis/src/http.rs over reactor.rs: what an exchange leaves behind, and when it cancels.
use ignis.Shared.{
  ℕ, ◌+◌, ◌<◌, ◌≡◌, refl, sym, subst, ◌∙◌, inl, inr, Bool, true, List, [], ◌∷◌, ◌++◌, none, some,
  Bytes, length, lookup, u64_mod, Bool-cases, Option-cases,
}
use ignis.Reactor.{Reactor, Completion, cancelled}
use ignis.Reactor.Answers.{cancel_request, drop_receiver}
use ignis.Reactor.Answers.Invariant.{Inv}
use ignis.Serve.{
  CancelOnDrop, drop_guard, plain, channel_body, Exchange, waiting, sending, over, hangs_up, Move,
  run, happen, drop_exchange, handle, awaits, Collected,
}
use ignis.Serve.Kept.{Owes, Kept}
use ignis.Serve.Answered.{true_not_false}
use ignis.Serve.Steps.{run-Kept, handle-Kept}

-- The completions after a request is given up: one more, where it is owed an answer.
abbrev pub cancellation : (id now : ℕ) → Reactor → List Completion
cancellation id now r = elim (lookup id r.answers) [
  | some _ ↦ r.from_tokio ++ record { id = id; outcome = cancelled now } ∷ []
  | none ↦ r.from_tokio
]

cancel-cancellation :
    (r : Reactor) (id now : ℕ)
    → r.connected ≡ true
    → (cancel_request r id now).from_tokio ≡ cancellation id now r
unfolding cancel_request
cancel-cancellation r id now k = elim (Option-cases (lookup id r.answers)) [
  | inl q ↦ rw (q, cancel_request, cancellation) refl
  | inr (a, q) ↦ rw (q, k, cancel_request, cancellation) refl
]

guard-cancellation :
    (id now : ℕ) (guard : CancelOnDrop) (r : Reactor)
    → r.connected ≡ true
    → guard.id ≡ id
    → (guard.answered ≡ true → lookup id r.answers ≡ none)
    → (drop_guard guard now r).from_tokio ≡ cancellation id now r
unfolding drop_guard
guard-cancellation id now guard r k i a = elim (Bool-cases guard.answered) [
  | inl y ↦ rw (y, drop_guard) (rw (a y, cancellation) refl)
  | inr z ↦ rw (z, i, drop_guard) (cancel-cancellation r id now k)
]

drop-cancellation :
    (id now : ℕ) (exchange : Exchange) (r : Reactor)
    → Kept id (r, exchange)
    → (drop_exchange now exchange r).from_tokio ≡ cancellation id now r
unfolding drop_exchange drop_receiver
drop-cancellation id now (waiting guard) r k =
    let (i, a, n) = k.owes in
    guard-cancellation id now guard r k.inv.connected i (λ y. elim (true_not_false (sym y ∙ a)) [ ])
drop-cancellation id now (sending (plain bytes)) r k = rw (k.owes, cancellation) refl
drop-cancellation id now (sending (channel_body guard)) r k =
    let (i, n, m, done) = k.owes in guard-cancellation id now guard r k.inv.connected i done
drop-cancellation id now over r k = rw (k.owes, cancellation) refl

-- From a well-formed reactor, a request that is delivered to a thread, and then any calls of the
-- thread and of other requests, and any polls of hyper, fewer than the ids that are left: where
-- the exchange is over, be it that the client left at any time, nothing is owed to the request
-- any more, so its id counts no longer for the thread's load.
pub over_owes_nothing :
    (path : Bytes) (is_grpc : Bool) (method uri : Bytes) (headers : List (Bytes × Bytes))
    (body : Collected) (r : Reactor) (guard : CancelOnDrop) (steps : List Move)
    → Inv r
    → r.next_id + 1 < u64_mod
    → (handle path is_grpc method uri headers body r).1 ≡ awaits guard
    → (handle path is_grpc method uri headers body r).0.next_id + length steps < u64_mod
    → (run steps ((handle path is_grpc method uri headers body r).0, waiting guard)).1 ≡ over
    → lookup guard.id
        (run steps ((handle path is_grpc method uri headers body r).0, waiting guard)).0.answers
      ≡ none
over_owes_nothing path is_grpc method uri headers body r guard steps v b e l o =
    let (after, exchange) =
      run steps ((handle path is_grpc method uri headers body r).0, waiting guard) in
    let kept : Kept guard.id (after, exchange) =
      run-Kept guard.id steps _ l
        (handle-Kept path is_grpc method uri headers body r guard b v e) in
    subst (λ (x : Exchange). Owes guard.id x after) o kept.owes

-- From a well-formed reactor, a request that is delivered to a thread, and then any calls of the
-- thread and of other requests, and any polls of hyper, fewer than the ids that are left: when
-- hyper drops the exchange then, the thread is sent one completion, the cancellation of the
-- request, if the request is still owed an answer, and none if not.
pub hang_up_cancels :
    (path : Bytes) (is_grpc : Bool) (method uri : Bytes) (headers : List (Bytes × Bytes))
    (body : Collected) (r : Reactor) (guard : CancelOnDrop) (steps : List Move) (now : ℕ)
    → Inv r
    → r.next_id + 1 < u64_mod
    → (handle path is_grpc method uri headers body r).1 ≡ awaits guard
    → (handle path is_grpc method uri headers body r).0.next_id + length steps < u64_mod
    → let (after, exchange) =
        run steps ((handle path is_grpc method uri headers body r).0, waiting guard) in
      (happen hangs_up now (after, exchange)).0.from_tokio ≡ cancellation guard.id now after
unfolding happen
hang_up_cancels path is_grpc method uri headers body r guard steps now v b e l =
    drop-cancellation guard.id now _ _
      (run-Kept guard.id steps _ l (handle-Kept path is_grpc method uri headers body r guard b v e))
