-- ===== src/Lib.antt =====
-- The runtime of ignis, a PHP application server: PHP threads whose loops run fibers, and a tokio
-- runtime that does their I/O, joined by one reactor per PHP thread. The listed files are under
-- crates/ignis/src.
--
-- Reactor.antt models reactor.rs: `Op`, `Outcome`, `Completion`, the handle `Reactor` with its
-- fields, ids, the in-flight counter, and `poll`. Reactor/Answers.antt has the map of answers
-- owed to clients, with `deliver_request_with_id`, `respond`, `respond_start`, `stream_end`,
-- `cancel_request` and the rest, each a function from the reactor to the reactor and what the
-- source returns. Reactor/Calls.antt has every call as data, so that a history is a list. A
-- oneshot or a gRPC channel of the source is a `Channel`: whether the client still holds its
-- receiver, and what was sent.
--
-- Dispatch.antt models the dispatcher task that `Reactor::new` spawns, the tasks it spawns in
-- turn, and their races with `poll`, with the front door and with other threads. Each step of the
-- dispatcher and of a task is one action that other threads can see (a receive, a spawn, an
-- insert, a removal, an abort, the swap of `completed`, a send); a call of `submit`,
-- `cancel_request`, `deliver` or `poll` by another thread is one step. The list of moves is the
-- scheduler's choice. `ledger` counts where each unit in flight stands.
--
-- Published.antt and Metrics.antt model metrics.rs: the slots a loop publishes, and
-- `Totals::add`.
--
-- Wait.antt models php/wait.rs: the table of fibers by the op they wait for, the outcomes on
-- their way, `await_op` and `await_any` in two halves, `resume_parked` and the cancellation of a
-- parked fiber.
--
-- Park.antt models php/park.rs, the calls of libc that are interposed: the gate and the policy
-- with its cache of call sites; in Park/ the arithmetic of timeouts (Times), `would_block`
-- (Descriptor), `park_pollfds` (Race), and the handlers (Calls, Sleeps, Poll, Select, Connect).
-- The kernel's answers, the clock and what wakes a fiber are arguments; a handler returns which
-- real call it makes.
--
-- Output.antt models php/output.rs: the buffers and bindings of a thread's fibers, `ub_write`,
-- `flush`, captures and streams, over the reactor's `respond_start` and `stream_sender`.
-- Output/Streams.antt has the acts of several fibers in any order, and Output/Ops.antt the ops of
-- `ignis_stream_write` that wait for room, which php/module.rs, `send_chunk`, submits.
--
-- Superglobals.antt models php/superglobals.rs: the view that the symbol table holds, the base
-- world, the slots of isolated fibers, and the observers of a switch and of a fiber's end.
--
-- Scoped.antt models php/scoped.rs: the live objects whose declared properties are per scope, the
-- copies that the scopes have of their slots, row zero, the switch of scopes, and what a
-- request's end and an object's end drop. Scoped/Rows.antt has the specification that looks at
-- one object.
--
-- Post.antt models php/post.rs: the body of each fiber's request, how far the engine has read it,
-- and the pointers of `SG(request_info)` to the strings that the bodies own.
--
-- Http.antt models http.rs: the registry of the threads that serve, `pick`, `start`,
-- `leave_dispatch`, `unregister`, `wake_all`, health and the wait of `drain`. A reactor stands in
-- a store under its thread's number, since the thread and the registry share it. Each turn of the
-- drain's wait sees the process as it then is.
--
-- Watch.antt models watch.rs: the statics, the callback of a file event, the task that
-- `schedule_wake` spawns with its atomic actions one by one, the claim of the cache reset with a
-- generation that may have been read earlier, and the reload slots.
--
-- Workers.antt models workers.rs: the master's loop `supervise`, a turn at a time, with the
-- answers of fork, waitpid, the clock and the signal as arguments of the turn. `run` forks the
-- first children and calls it.
--
-- Config.antt models config.rs: `Config`, `default_env` and the sequence of its calls in
-- `serve_to_legacy_args`, as a list of steps. The names of the environment are constructors.
--
-- Flags.antt models main.rs: `parse_runtime_flags` and `take_inline_code`.
--
-- Accept.antt models http.rs, `accept_loop` and the loop of `serve_connection`: the permits of
-- connections, the refusal over the cap, the stop of the listener, and the idle timer. The load
-- of LISTENER_STOP, the creation of the notification's future and the accept are steps of their
-- own, between which the drain may stop the listener and notify. The semaphore is the number of
-- its permits.
--
-- Serve.antt models the other half of http.rs: `handle`, the guard that cancels on a drop, and
-- the body of a streamed answer, over the reactor of Reactor.antt. hyper's polls and drops and
-- the thread's calls are steps in any order.
--
-- Supervise.antt models main.rs, `supervise_workers`: the slots of worker threads, their budget
-- of restarts and the pause of a slot that has none left. What a turn reads of the clock, the
-- threads and the watcher is an argument.
--
-- Functions.antt models php/module.rs: the functions that PHP calls (`ignis_submit_sleep`,
-- `ignis_watch`, `ignis_cancel`, `ignis_poll`, `ignis_respond` and the others) over the reactor
-- of Reactor.antt and the parked fibers of Wait.antt. The types of arguments are taken to be
-- checked, the rule by which the engine reads a text as a key is an argument.
--
-- Bounds. Counters and ids are 64-bit words and wrap (`u64_mod`). The theorems on histories ask
-- that the id counter does not reach its last value, which at one id each nanosecond takes five
-- hundred years. No fuel is used: histories are lists and every function is structural. Times are
-- arguments. Memory orderings are not modelled: the atomic operations of the dispatcher, of its
-- tasks, of the file watcher and of the accept loop are steps of their own, and a call of the
-- reactor's methods from outside is one step. A reactor is well-formed if its answers have
-- distinct ids that were given out, and the clients' channels agree with them (`Inv`).
--
-- Not modelled: `watch_fd` (the outcome of a watch is the environment's), the arguments of
-- `serve`, the gRPC framing, the boot check of the interposed symbols, the registration of the
-- PHP functions of module.rs, the PHP engine with its bindings, and hyper, tokio and the Temporal
-- client themselves.
pub mod Shared
pub mod Published
pub mod Reactor
pub mod Dispatch
pub mod Metrics
pub mod Wait
pub mod Park
pub mod Output
pub mod Superglobals
pub mod Scoped
pub mod Post
pub mod Http
pub mod Accept
pub mod Serve
pub mod Functions
pub mod Watch
pub mod Workers
pub mod Config
pub mod Flags
pub mod Supervise
