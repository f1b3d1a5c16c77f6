-- ===== src/Dispatch/Minded.antt =====
-- crates/ignis/src/reactor.rs: every action keeps somebody minded to announce each cancellable op.
use ignis.Shared.{
  ℕ, ◌≡◌, refl, Bool, true, false, Option, none, some, arith, Values, Values-lookup, lookup,
  lookup-insert, Option-cases, inl, inr, ◌==◌,
}
use ignis.Reactor.{sleep, watch, cancel_watch, custom, Outcome}
use ignis.Dispatch.Ledger.{HasClaim}
use ignis.Dispatch.{
  World, Task, timed, future, over, running, produced, forgot, won, ended, Dispatcher, idle, holds,
  spawned, found, aborts, claimed, replies, handle_op, abort_task, claim_task, dispatch_from,
  produce_task, advance_task, reap_task,
}

-- The dispatcher has aborted the task of op `j` and has the claim to make.
abbrev pub claims_next : Dispatcher → ℕ → Bool
claims_next (aborts id target) j = target == j
claims_next _ j = false

-- Somebody will still announce the op of a task: the claim was made, or the dispatcher is about to
-- make it, or the task is neither aborted nor over and will.
abbrev pub is_minded : Bool → Option Task → Bool
is_minded soon (some (timed ended false a)) = soon
is_minded soon (some (timed p false true)) = soon
is_minded soon _ = true

pub record Minded (w : World) : Type 0 where
  pub all : (j : ℕ) → is_minded (claims_next w.dispatcher j) (lookup j w.tasks) ≡ true

minded_idle : (b : Bool) (t : Option Task) → is_minded false t ≡ true → is_minded b t ≡ true
minded_idle true (some (timed ended false a)) h = refl
minded_idle true (some (timed running false true)) h = refl
minded_idle b t h = ground arith

abort-minded :
    (w : World) (id target j : ℕ)
    → w.dispatcher ≡ found id target
    → is_minded (claims_next w.dispatcher j) (lookup j w.tasks) ≡ true
    → is_minded
        (claims_next (abort_task w id target).dispatcher j)
        (lookup j (abort_task w id target).tasks)
      ≡ true
unfolding abort_task
abort-minded w id target j e m = elim (Option-cases (lookup target w.tasks)) [
  | inl q ↦ ground (arith, minded_idle (target == j) (lookup j w.tasks))
  | inr (timed p c a, q) ↦ ground (
    arith,
    lookup-insert target j (timed p c true) w.tasks,
    minded_idle (target == j) (lookup j w.tasks),
  )
  | inr (future o, q) ↦ ground (arith, minded_idle (target == j) (lookup j w.tasks))
  | inr (over, q) ↦ ground (arith, minded_idle (target == j) (lookup j w.tasks))
]

claim-minded :
    (w : World) (id target j : ℕ)
    → w.dispatcher ≡ aborts id target
    → is_minded (claims_next w.dispatcher j) (lookup j w.tasks) ≡ true
    → is_minded
        (claims_next (claim_task w id target).dispatcher j)
        (lookup j (claim_task w id target).tasks)
      ≡ true
unfolding claim_task
claim-minded w id target j e m = elim (Option-cases (lookup target w.tasks)) [
  | inl q ↦ ground arith
  | inr (timed p false a, q) ↦ ground (arith, lookup-insert target j (timed p true a) w.tasks)
  | inr (timed p true a, q) ↦ ground arith
  | inr (future o, q) ↦ ground arith
  | inr (over, q) ↦ ground arith
]

pub task-minded :
    (w : World) (id : ℕ) (o : Outcome) (j : ℕ)
    → is_minded (claims_next w.dispatcher j) (lookup j w.tasks) ≡ true
    → (is_minded (claims_next w.dispatcher j) (lookup j (produce_task w id o).tasks) ≡ true)
      × ((produce_task w id o).dispatcher ≡ w.dispatcher)
unfolding produce_task
task-minded w id o j m = elim (Option-cases (lookup id w.tasks)) [
  | inl q ↦ ground arith
  | inr (timed running c a, q) ↦ ground (arith, lookup-insert id j (timed (produced o) c a) w.tasks)
  | inr (timed (produced p) c a, q) ↦ ground arith
  | inr (timed (forgot p) c a, q) ↦ ground arith
  | inr (timed (won p) c a, q) ↦ ground arith
  | inr (timed ended c a, q) ↦ ground arith
  | inr (future none, q) ↦ ground (arith, lookup-insert id j (future (some o)) w.tasks)
  | inr (future (some p), q) ↦ ground arith
  | inr (over, q) ↦ ground arith
]

pub dispatch-Minded :
    (w : World) (d : Dispatcher)
    → w.dispatcher ≡ d
    → Minded w
    → (j : ℕ)
    → is_minded (claims_next (dispatch_from d w).dispatcher j) (lookup j (dispatch_from d w).tasks)
      ≡ true
unfolding dispatch_from handle_op lookup
dispatch-Minded w idle e m j = m.all j
dispatch-Minded w (holds id (sleep us)) e m j = ground (arith, m.all j)
dispatch-Minded w (holds id (watch fd write)) e m j = ground (arith, m.all j)
dispatch-Minded w (holds id (cancel_watch target)) e m j = ground (arith, m.all j)
dispatch-Minded w (holds id custom) e m j = ground (arith, m.all j)
dispatch-Minded w (spawned id) e m j = ground (arith, m.all j)
dispatch-Minded w (found id target) e m j = abort-minded w id target j e (m.all j)
dispatch-Minded w (aborts id target) e m j = claim-minded w id target j e (m.all j)
dispatch-Minded w (claimed id target) e m j = ground (arith, m.all j)
dispatch-Minded w (replies id) e m j = ground (arith, m.all j)

pub advance-minded :
    (w : World) (id j : ℕ)
    → Values HasClaim w.tasks
    → is_minded (claims_next w.dispatcher j) (lookup j w.tasks) ≡ true
    → is_minded (claims_next w.dispatcher j) (lookup j (advance_task w id).tasks) ≡ true
unfolding advance_task
advance-minded w id j h m = elim (Option-cases (lookup id w.tasks)) [
  | inl q ↦ ground arith
  | inr (timed running c a, q) ↦ ground arith
  | inr (timed (produced o) c a, q) ↦
      ground (arith, lookup-insert id j (timed (forgot o) c a) w.tasks)
  | inr (timed (forgot o) false a, q) ↦
      ground (arith, lookup-insert id j (timed (won o) true a) w.tasks)
  | inr (timed (forgot o) true a, q) ↦
      ground (arith, lookup-insert id j (timed ended true a) w.tasks)
  | inr (timed (won o) true a, q) ↦ ground (arith, lookup-insert id j (timed ended true a) w.tasks)
  | inr (timed (won o) false a, q) ↦
      absurd (Values-lookup HasClaim id (timed (won o) false a) w.tasks h q)
  | inr (timed ended c a, q) ↦ ground arith
  | inr (future none, q) ↦ ground arith
  | inr (future (some o), q) ↦ ground (arith, lookup-insert id j over w.tasks)
  | inr (over, q) ↦ ground arith
]

pub reap-minded :
    (w : World) (id j : ℕ)
    → is_minded (claims_next w.dispatcher j) (lookup j w.tasks) ≡ true
    → is_minded (claims_next w.dispatcher j) (lookup j (reap_task w id).tasks) ≡ true
unfolding reap_task
reap-minded w id j m = elim (Option-cases (lookup id w.tasks)) [
  | inl q ↦ ground arith
  | inr (timed running c true, q) ↦ ground (arith, lookup-insert id j (timed ended c true) w.tasks)
  | inr (timed running c false, q) ↦ ground arith
  | inr (timed (produced o) c a, q) ↦ ground arith
  | inr (timed (forgot o) c a, q) ↦ ground arith
  | inr (timed (won o) c a, q) ↦ ground arith
  | inr (timed ended c a, q) ↦ ground arith
  | inr (future o, q) ↦ ground arith
  | inr (over, q) ↦ ground arith
]
