-- ===== src/Dispatch.antt =====
-- crates/ignis/src/reactor.rs, the dispatcher task that `Reactor::new` spawns, the tasks that it
-- spawns in turn, and their races: each step below is one action that other threads can see. The
-- scheduler and the kernel choose the order, so they choose the list of moves.
pub mod Ledger
pub mod Sound
pub mod Conserves
pub mod Inflight
pub mod History
pub mod Answered
pub mod Once
pub mod Minded
pub mod Cancel
pub mod Leak
mod Examples
use ignis.Shared.{
  ℕ, suc, ◌+◌, ◌≡◌, refl, Bool, true, false, List, [], ◌∷◌, ◌++◌, Option, none, some, codes, ◌==◌,
  if◌then◌else◌, lookup, insert, remove,
}
use ignis.Reactor.{
  Op, sleep, watch, cancel_watch, custom, Outcome, slept, error, HttpRequest, Completion, Reactor,
  submit, reserve_op, complete, inject, Polled, returned, blocked, Wait, poll, Answer,
}
use ignis.Reactor.Answers.{deliver_request_with_id, deliver_stream_request, cancel_request}
use ignis.Reactor.Calls.{Call, apply}

-- Where a timer or a watch stands: its await, then out of the table, then the claim, then the send.
pub data Phase : Type 0 where
  running : Phase
  produced forgot won : Outcome → Phase
  ended : Phase

-- `timed` is a task that `CancelWatch` can call off, with its `completed` flag and whether it was
-- aborted; `future` is the task of an `Op::Custom`, with the outcome that it has come to.
pub data Task : Type 0 where
  timed : Phase → (completed aborted : Bool) → Task
  future : Option Outcome → Task
  over : Task

-- Where the dispatcher stands in its loop.
pub data Dispatcher : Type 0 where
  idle : Dispatcher
  holds : (id : ℕ) → Op → Dispatcher
  spawned : (id : ℕ) → Dispatcher  -- before the insert into the table
  found : (id target : ℕ) → Dispatcher  -- the entry is out of the table
  aborts : (id target : ℕ) → Dispatcher  -- the task was aborted, before the claim
  claimed : (id target : ℕ) → Dispatcher  -- the claim was won, before the send
  replies : (id : ℕ) → Dispatcher  -- before the completion of the cancel itself

-- `table` is `cancellable_tasks_by_op`: an entry is the handle of the task of the same op.
-- `reserved` holds the ids of `reserve_op` whose completion another thread still owes. `issued` and
-- `delivered` are the history: an id for each unit counted in flight, and what `poll` returned.
pub record World : Type 0 where
  pub reactor : Reactor
  pub dispatcher : Dispatcher
  pub tasks : List (ℕ × Task)
  pub table : List (ℕ × Unit {0})
  pub reserved : List (ℕ × Unit {0})
  pub issued : List ℕ
  pub delivered : List Completion

abbrev pub start : Reactor → World
start r = record {
  reactor = r;
  dispatcher = idle;
  tasks = [];
  table = [];
  reserved = [];
  issued = [];
  delivered = [];
}

pub data Move : Type 0 where
  submits : Op → Move
  reserves : Move
  completes : (id : ℕ) → Outcome → Move
  injects : Outcome → Move
  delivers delivers_stream : HttpRequest → Move
  cancels : (id now : ℕ) → Move
  polls : Option ℕ → (entered left : ℕ) → Move
  receives : Move  -- the dispatcher takes an op
  dispatches : Move  -- the dispatcher takes its next action
  produces : (id : ℕ) → Outcome → Move  -- what the task awaited has come
  advances : (id : ℕ) → Move  -- the task takes its next action
  reaps : (id : ℕ) → Move  -- tokio drops an aborted task at its await

abbrev pub send : World → ℕ → Outcome → World
send w id o = record w { reactor = complete w.reactor id o }

abbrev pub cancelled_error : Outcome
cancelled_error = error (codes "cancelled")

-- The `match op` of the loop.
unfoldable pub handle_op : World → ℕ → Op → World
handle_op w id (sleep us) =
    if us == 0
    then record (send w id (slept 0)) { dispatcher = idle }
    else record w { tasks = (id, timed running false false) ∷ w.tasks; dispatcher = spawned id }
handle_op w id custom = record w { tasks = (id, future none) ∷ w.tasks; dispatcher = idle }
handle_op w id (watch fd write) = record w {
  tasks = (id, timed running false false) ∷ w.tasks;
  dispatcher = spawned id;
}
handle_op w id (cancel_watch target) = elim (lookup target w.table) [
  | some _ ↦ record w { table = remove target w.table; dispatcher = found id target }
  | none ↦ record w { dispatcher = replies id }
]

-- `task.completed.swap(true)`: the first to swap sends.
unfoldable pub claim_task : World → ℕ → ℕ → World
claim_task w id target = elim (lookup target w.tasks) [
  | some (timed p false a) ↦ record w {
    tasks = insert target (timed p true a) w.tasks;
    dispatcher = claimed id target;
  }
  | _ ↦ record w { dispatcher = replies id }
]

unfoldable pub abort_task : World → ℕ → ℕ → World
abort_task w id target = elim (lookup target w.tasks) [
  | some (timed p c _) ↦ record w {
    tasks = insert target (timed p c true) w.tasks;
    dispatcher = aborts id target;
  }
  | _ ↦ record w { dispatcher = aborts id target }
]

unfoldable pub dispatch_from : Dispatcher → World → World
unfolding handle_op claim_task abort_task
dispatch_from idle w = w
dispatch_from (holds id op) w = handle_op w id op
dispatch_from (spawned id) w = record w { table = insert id tt w.table; dispatcher = idle }
dispatch_from (found id target) w = abort_task w id target
dispatch_from (aborts id target) w = claim_task w id target
dispatch_from (claimed id target) w = record (send w target cancelled_error) {
  dispatcher = replies id;
}
dispatch_from (replies id) w = record (send w id cancelled_error) { dispatcher = idle }

unfoldable pub receive_from : Dispatcher → List (ℕ × Op) → World → World
receive_from idle ((id, op) ∷ rest) w = record w {
  reactor = record (w.reactor) { to_tokio = rest };
  dispatcher = holds id op;
}
receive_from _ _ w = w

-- What a task awaits comes, unless it is past its await.
unfoldable pub produce_task : World → ℕ → Outcome → World
produce_task w id o = elim (lookup id w.tasks) [
  | some (timed running c a) ↦ record w { tasks = insert id (timed (produced o) c a) w.tasks }
  | some (future none) ↦ record w { tasks = insert id (future (some o)) w.tasks }
  | _ ↦ w
]

-- The task's next action after its await.
unfoldable pub advance_task : World → ℕ → World
advance_task w id = elim (lookup id w.tasks) [
  | some (timed (produced o) c a) ↦ record w {
    tasks = insert id (timed (forgot o) c a) w.tasks;
    table = remove id w.table;
  }
  | some (timed (forgot o) false a) ↦ record w { tasks = insert id (timed (won o) true a) w.tasks }
  | some (timed (forgot o) true a) ↦ record w { tasks = insert id (timed ended true a) w.tasks }
  | some (timed (won o) c a) ↦ record (send w id o) { tasks = insert id (timed ended c a) w.tasks }
  | some (future (some o)) ↦ record (send w id o) { tasks = insert id over w.tasks }
  | _ ↦ w
]

unfoldable pub reap_task : World → ℕ → World
reap_task w id = elim (lookup id w.tasks) [
  | some (timed running c true) ↦ record w { tasks = insert id (timed ended c true) w.tasks }
  | _ ↦ w
]

-- A wait in which nothing arrives: sends to the channel are moves of their own.
abbrev pub quiet : ℕ → ℕ → Wait
quiet entered left = record { entered_us = entered; left_us = left; spun = []; waited = [] }

-- What `poll` returns goes to the PHP thread.
unfoldable pub deliver_batch : World → Polled → World
deliver_batch w (returned r cs) = record w { reactor = r; delivered = w.delivered ++ cs }
deliver_batch w (blocked r) = record w { reactor = r }

unfoldable pub step : World → Move → World
unfolding receive_from deliver_batch
step w (submits op) =
    let (r, id) = submit w.reactor op in
    record w {
      reactor = r;
      issued = if w.reactor.dispatcher_alive then id ∷ w.issued else w.issued;
    }
step w reserves =
    let (r, id) = reserve_op w.reactor in
    record w { reactor = r; issued = id ∷ w.issued; reserved = insert id tt w.reserved }
step w (completes id o) = elim (lookup id w.reserved) [
  | some _ ↦ record (send w id o) { reserved = remove id w.reserved }
  | none ↦ w
]
step w (injects o) =
    let (r, id) = inject w.reactor o in record w { reactor = r; issued = id ∷ w.issued }
step w (delivers req) =
    let (r, id) = deliver_request_with_id w.reactor req in
    record w { reactor = r; issued = id ∷ w.issued }
step w (delivers_stream req) =
    let (r, id) = deliver_stream_request w.reactor req in
    record w { reactor = r; issued = id ∷ w.issued }
step w (cancels id now) = elim (lookup id w.reactor.answers) [
  | some _ ↦ record w { reactor = cancel_request w.reactor id now; issued = id ∷ w.issued }
  | none ↦ w
]
step w (polls timeout entered left) = deliver_batch w (poll w.reactor timeout (quiet entered left))
step w receives = receive_from w.dispatcher w.reactor.to_tokio w
step w dispatches = dispatch_from w.dispatcher w
step w (produces id o) = produce_task w id o
step w (advances id) = advance_task w id
step w (reaps id) = reap_task w id

unfoldable pub run : World → List Move → World
run w [] = w
run w (m ∷ ms) = run (step w m) ms
