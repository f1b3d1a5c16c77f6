-- ===== src/Reactor.antt =====
-- crates/ignis/src/reactor.rs: the one bridge between a PHP thread and tokio, as explicit state.
-- Here: the data that crosses the bridge, the handle's fields, ids and the in-flight count, the
-- completion channel and `poll`. The answers owed to clients are in Reactor/Answers.
pub mod Answers
pub mod Calls
pub mod Poll
mod Examples
pub mod Counters
use ignis.Shared.{
  ℕ, ◌+◌, ◌-◌, ◌≡◌, refl, Bool, true, false, ◌&&◌, List, [], ◌∷◌, ◌++◌, Option, none, some, Bytes,
  codes, length, ltb, ◌==◌, if◌then◌else◌, wrapping_add, wrapping_sub,
}
use ignis.Published.{Published, unpublished}

-- `custom` is a future that another component made; what it will answer is not known here.
pub data Op : Type 0 where
  sleep : (us : ℕ) → Op
  watch : (fd : ℕ) → (write : Bool) → Op
  cancel_watch : (target : ℕ) → Op
  custom : Op

pub record HttpRequest : Type 0 where
  pub method : Bytes
  pub uri : Bytes
  pub headers : List (Bytes × Bytes)
  pub body : Bytes

-- `stream` holds the bound of the chunk channel whose receiving end it carries.
pub data ResponseBody : Type 0 where
  full : Bytes → ResponseBody
  stream : (bound : ℕ) → ResponseBody

pub record HttpResponse : Type 0 where
  pub status : ℕ
  pub headers : List (Bytes × Bytes)
  pub body : ResponseBody

pub data Outcome : Type 0 where
  slept : (late_us : ℕ) → Outcome
  request : HttpRequest → Outcome
  ready : Outcome
  cancelled : (dropped_at : ℕ) → Outcome
  json : Bytes → Outcome
  failed : Bytes → Outcome
  blob : Option Bytes → Outcome
  error : Bytes → Outcome

-- A message of a gRPC response stream, or its terminal status. The code is an `i32`, as its bits.
pub data GrpcMsg : Type 0 where
  message : Bytes → GrpcMsg
  status : (code : ℕ) → Bytes → GrpcMsg

pub record Completion : Type 0 where
  pub id : ℕ
  pub outcome : Outcome

-- What a request id still owes. The sending end that each state carries is the one of the
-- request's own channel, so it is named by the id.
pub data Answer : Type 0 where
  whole streaming grpc : Answer

-- The transport's end of a request: whether it still holds the receiver, and what was sent to it.
pub record Channel : Type 0 where
  pub receiver_alive : Bool
  pub response : Option HttpResponse
  pub messages : List GrpcMsg

abbrev pub fresh_channel : Channel
fresh_channel = record { receiver_alive = true; response = none; messages = [] }

-- `connected`: the receiving end of the completion channel is there. It is a field of the same
-- struct, so it is for as long as the reactor is. `dispatcher_alive`: tokio still holds the
-- receiving end of `to_tokio`.
pub record Reactor : Type 0 where
  pub next_id : ℕ
  pub inflight : ℕ
  pub servers : ℕ
  pub dispatcher_alive : Bool
  pub to_tokio : List (ℕ × Op)
  pub connected : Bool
  pub from_tokio : List Completion
  pub answers : List (ℕ × Answer)
  pub channels : ℕ → Channel
  pub last_active_us : ℕ
  pub spin_us : ℕ
  pub published : Published

-- `Reactor::new`; `spin_us` is `IGNIS_POLL_SPIN_US`, 0 where it is unset or no number.
unfoldable pub new : ℕ → Reactor
new spin_us = record {
  next_id = 1;
  inflight = 0;
  servers = 0;
  dispatcher_alive = true;
  to_tokio = [];
  connected = true;
  from_tokio = [];
  answers = [];
  channels = λ _. fresh_channel;
  last_active_us = 0;
  spin_us = spin_us;
  published = unpublished;
}

-- A send on the completion channel: the reactor after it, and whether it succeeded.
abbrev pub send_done : Reactor → ℕ → Outcome → Reactor × Bool
send_done r id outcome =
    if r.connected
    then (
      record r { from_tokio = r.from_tokio ++ record { id = id; outcome = outcome } ∷ [] },
      true,
    )
    else (r, false)

-- Op ids are never reused before the counter wraps.
unfoldable pub reserve_op : Reactor → Reactor × ℕ
reserve_op r = (
  record r { next_id = wrapping_add r.next_id 1; inflight = wrapping_add r.inflight 1 },
  r.next_id,
)

-- A send error means that the runtime is shutting down: the op is dropped and uncounted.
unfoldable pub submit : Reactor → Op → Reactor × ℕ
submit r op =
    let counted = record r {
      next_id = wrapping_add r.next_id 1;
      inflight = wrapping_add r.inflight 1;
    } in
    if r.dispatcher_alive
    then (record counted { to_tokio = r.to_tokio ++ (r.next_id, op) ∷ [] }, r.next_id)
    else (record counted { inflight = wrapping_sub counted.inflight 1 }, r.next_id)

unfoldable pub complete : Reactor → ℕ → Outcome → Reactor
complete r id outcome = (send_done r id outcome).0

unfoldable pub inject : Reactor → Outcome → Reactor × ℕ
unfolding reserve_op complete
inject r outcome = let (reserved, id) = reserve_op r in (complete reserved id outcome, id)

unfoldable pub server_started : Reactor → Reactor
server_started r = record r { servers = wrapping_add r.servers 1 }

-- `now_us` is the time since the reactor was made.
unfoldable pub touch : Reactor → ℕ → Reactor
touch r now_us = record r { last_active_us = now_us }

-- Time since the PHP thread last entered `poll`, or last left it with work.
unfoldable pub idle_in_php : Reactor → ℕ → ℕ
idle_in_php r now_us = now_us - r.last_active_us

unfoldable pub should_spin_before_sleeping : Reactor → Bool
should_spin_before_sleeping r = ltb 0 r.spin_us && ltb 0 r.inflight

-- What a call of `poll` comes to: it returns a batch, or it sleeps with nothing to wake it.
pub data Polled : Type 0 where
  returned : Reactor → List Completion → Polled
  blocked : Reactor → Polled

-- The times at which `poll` is entered and left, and the completions that arrive meanwhile: `spun`
-- before the spin gives up, `waited` after that.
pub record Wait : Type 0 where
  pub entered_us : ℕ
  pub left_us : ℕ
  pub spun : List Completion
  pub waited : List Completion

-- The first completion was taken: take all that is ready, and uncount the batch.
leave_with : Reactor → ℕ → List Completion → Polled
unfolding touch
leave_with r now_us out =
    returned (touch (record r { from_tokio = []; inflight = r.inflight - length out }) now_us) out

-- `recv_timeout` or `recv`.
sleep_for : Reactor → Option ℕ → ℕ → List Completion → Polled
unfolding leave_with
sleep_for r timeout now_us (c ∷ rest) = leave_with r now_us (c ∷ rest)
sleep_for r (some t) now_us [] = returned r []
sleep_for r none now_us [] = blocked r

-- The spin of `try_recv`: with a completion in hand the thread does not sleep.
spin_then_sleep : Reactor → Option ℕ → ℕ → List Completion → List Completion → Polled
unfolding leave_with sleep_for
spin_then_sleep r timeout now_us (c ∷ rest) waited = leave_with r now_us (c ∷ rest ++ waited)
spin_then_sleep r timeout now_us [] waited = sleep_for r timeout now_us waited

unfoldable pub poll : Reactor → Option ℕ → Wait → Polled
unfolding touch should_spin_before_sleeping leave_with sleep_for spin_then_sleep
poll r timeout w =
    let entered = touch r w.entered_us in
    let ready_soon = entered.from_tokio ++ w.spun in
    if entered.inflight == 0 && entered.servers == 0
    then returned (record entered { from_tokio = ready_soon ++ w.waited }) []
    else if should_spin_before_sleeping entered
    then spin_then_sleep entered timeout w.left_us ready_soon w.waited
    else sleep_for entered timeout w.left_us (ready_soon ++ w.waited)
