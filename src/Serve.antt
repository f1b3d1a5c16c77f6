-- ===== src/Serve.antt =====
-- crates/ignis/src/http.rs: one request on a connection, from `handle` to the end of its body. hyper
-- polls and drops, the PHP thread calls the reactor; the two alternate in any order.
pub mod Kept
pub mod Answered
pub mod Steps
pub mod Owed
mod Examples
use ignis.Shared.{
  ℕ, ◌≡◌, refl, Bool, true, false, not, List, [], ◌∷◌, Option, none, some, Bytes, codes, same_text,
  lookup, if◌then◌else◌,
}
use ignis.Reactor.{
  Answer, whole, streaming, grpc, HttpRequest, HttpResponse, ResponseBody, full, stream, Reactor,
}
use ignis.Reactor.Answers.{deliver_request_with_id, cancel_request, drop_receiver, stream_sender}
use ignis.Reactor.Calls.{Call, apply}

-- The reactor is the one that the exchange is with.
pub record CancelOnDrop : Type 0 where
  pub id : ℕ
  pub answered : Bool

-- `now` is the instant of the drop.
unfoldable pub drop_guard : CancelOnDrop → (now : ℕ) → Reactor → Reactor
drop_guard guard now r = if guard.answered then r else cancel_request r guard.id now

-- What `Limited` makes of the frames of the body.
pub data Collected : Type 0 where
  whole_body : Bytes → Collected
  length_limit broken : Collected

pub data CollectedBody : Type 0 where
  taken : Bytes → CollectedBody
  refused_body : (status : ℕ) → (message : Bytes) → CollectedBody

unfoldable pub collect_body : Collected → CollectedBody
collect_body (whole_body bytes) = taken bytes
collect_body length_limit = refused_body 413 (codes "request body too large\n")
collect_body broken = refused_body 400 (codes "bad request body\n")

-- A body that is sent on: all of it, or the chunks of PHP, which keep the guard.
pub data Body : Type 0 where
  plain : Bytes → Body
  channel_body : CancelOnDrop → Body

pub record Response : Type 0 where
  pub status : ℕ
  pub headers : List (Bytes × Bytes)
  pub body : Body

unfoldable pub simple : (status : ℕ) → (message : Bytes) → Response
simple status message = record {
  status = status;
  headers = (codes "content-type", codes "text/plain") ∷ [];
  body = plain message;
}

pub data Handled : Type 0 where
  health_report metrics_report grpc_call : Handled
  refused : Response → Handled
  awaits : CancelOnDrop → Handled

-- The part of `handle` that is for PHP, up to its await.
unfoldable pub handle_php :
    (method uri : Bytes) → List (Bytes × Bytes) → Collected → Reactor → Reactor × Handled
unfolding collect_body simple
handle_php method uri headers body r = elim (collect_body body) [
  | refused_body status message ↦ (r, refused (simple status message))
  | taken bytes ↦
      let (delivered, id) =
        deliver_request_with_id r
          (record { method = method; uri = uri; headers = headers; body = bytes }) in
      (delivered, awaits (record { id = id; answered = false }))
]

-- `handle` up to its await. Whether the request is gRPC is read off its content type.
unfoldable pub handle :
    (path : Bytes)
    → (is_grpc : Bool) → (method uri : Bytes) → List (Bytes × Bytes)
    → Collected
    → Reactor
    → Reactor × Handled
unfolding handle_php
handle path is_grpc method uri headers body r =
    if same_text path (codes "/_ignis/health")
    then (r, health_report)
    else if same_text path (codes "/_ignis/metrics")
    then (r, metrics_report)
    else if is_grpc
    then (r, grpc_call)
    else handle_php method uri headers body r

unfoldable pub disarmed_for_this_answer : (streamed : Bool) → Bool
disarmed_for_this_answer streamed = not streamed

abbrev pub is_stream : ResponseBody → Bool
is_stream (full bytes) = false
is_stream (stream bound) = true

-- Where a header cannot be sent, the builder drops the body, and a guard with it.
unfoldable pub php_response :
    (valid : Bool) → HttpResponse → CancelOnDrop → (now : ℕ) → Reactor → Reactor × Response
unfolding drop_guard simple
php_response valid resp guard now r =
    let bad = simple 500 (codes "bad response headers\n") in
    elim resp.body [
      | full bytes ↦ (
        drop_guard guard now r,
        if valid
            then record { status = resp.status; headers = resp.headers; body = plain bytes }
            else bad,
      )
      | stream bound ↦
          if valid
          then (
            r,
            record { status = resp.status; headers = resp.headers; body = channel_body guard },
          )
          else (drop_guard guard now r, bad)
    ]

-- `handle` after its await: the response, or none where the sender was dropped.
unfoldable pub answer :
    (valid : Bool) → Option HttpResponse → CancelOnDrop → (now : ℕ) → Reactor → Reactor × Response
unfolding disarmed_for_this_answer php_response simple
answer valid (some resp) guard now r =
    php_response valid resp
      (record guard { answered = disarmed_for_this_answer (is_stream resp.body) }) now
      (drop_receiver r guard.id)
answer valid none guard now r =
    (drop_receiver r guard.id, simple 500 (codes "no response from php\n"))

pub data Exchange : Type 0 where
  waiting : CancelOnDrop → Exchange
  sending : Body → Exchange
  over : Exchange

-- What hyper does: it polls the future of the request, or the body, or drops either. `closed` says
-- that no clone of the chunks' sender is left.
pub data Event : Type 0 where
  polls_request : (valid : Bool) → Event
  polls_body : (closed : Bool) → Event
  hangs_up : Event

-- The oneshot's sender is there while the answer is owed as a whole.
abbrev pub has_responder : ℕ → Reactor → Bool
has_responder id r = elim (lookup id r.answers) [
  | some whole ↦ true
  | some streaming ↦ false
  | some grpc ↦ false
  | none ↦ false
]

unfoldable pub poll_request :
    (valid : Bool) → (now : ℕ) → CancelOnDrop → Reactor → Reactor × Exchange
unfolding answer
poll_request valid now guard r = elim (r.channels guard.id).response [
  | some resp ↦
      let (after, response) = answer valid (some resp) guard now r in (after, sending response.body)
  | none ↦
      let (after, response) = answer valid none guard now r in
      if has_responder guard.id r then (r, waiting guard) else (after, sending response.body)
]

-- The end of the chunks is seen when no sender is left.
unfoldable pub poll_frame : (closed : Bool) → CancelOnDrop → Reactor → CancelOnDrop
poll_frame closed guard r =
    if stream_sender r guard.id
    then guard
    else if closed
    then record guard { answered = true }
    else guard

unfoldable pub drop_exchange : (now : ℕ) → Exchange → Reactor → Reactor
unfolding drop_guard
drop_exchange now (waiting guard) r = drop_receiver (drop_guard guard now r) guard.id
drop_exchange now (sending (plain bytes)) r = r
drop_exchange now (sending (channel_body guard)) r = drop_guard guard now r
drop_exchange now over r = r

unfoldable pub happen : Event → (now : ℕ) → Reactor × Exchange → Reactor × Exchange
unfolding poll_request poll_frame drop_exchange
happen (polls_request valid) now (r, waiting guard) = poll_request valid now guard r
happen (polls_body closed) now (r, sending (channel_body guard)) =
    (r, sending (channel_body (poll_frame closed guard r)))
happen hangs_up now (r, exchange) = (drop_exchange now exchange r, over)
happen _ now w = w

-- The PHP thread and other requests call the reactor, and hyper moves the exchange.
pub data Move : Type 0 where
  calls : Call → Move
  moves : Event → (now : ℕ) → Move

unfoldable pub run : List Move → Reactor × Exchange → Reactor × Exchange
unfolding happen
run [] w = w
run (calls c ∷ rest) (r, exchange) = run rest (apply r c, exchange)
run (moves event now ∷ rest) w = run rest (happen event now w)
