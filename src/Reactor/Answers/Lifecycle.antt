-- ===== src/Reactor/Answers/Lifecycle.antt =====
-- crates/ignis/src/reactor.rs: what a history of calls can do to a request that was answered, and
-- how a failure status ends a gRPC call.
use ignis.Shared.{
  ℕ, ◌+◌, ◌<◌, ◌≤◌, ◌≡◌, ◌≢◌, ◌∙◌, true, false, List, [], ◌∷◌, ◌++◌, Option, none, some, Bytes,
  arith, u64_mod, length, lookup, lookup-remove_self,
}
use ignis.Reactor.{
  whole, grpc, HttpResponse, GrpcMsg, status, Reactor, submit, reserve_op, complete, inject,
  server_started, poll,
}
use ignis.Reactor.Answers.{
  deliver_request_with_id, deliver_stream_request, stream_send, stream_end, cancel_request, respond,
  is_grpc, respond_start, respond_end, fail_pending, drop_receiver, take_answer, grpc_refusal,
  stream_sender,
}
use ignis.Reactor.Counters.{next_id-apply, respond-next_id, stream_end-next_id}
use ignis.Reactor.Calls.{Call, apply, run, delivers, stream_ends, responds}
use ignis.Reactor.Answers.Invariant.{Inv, apply-Inv, respond-Inv, stream_end-Inv, lookup-lt}
use ignis.Reactor.Answers.Transitions.{next_state, apply-next_state}

-- An id that was given out and owes nothing.
pub record IsSettled (id : ℕ) (r : Reactor) : Type 0 where
  pub given : id < r.next_id
  pub gone : lookup id r.answers ≡ none

-- What the client of an id has been sent.
abbrev pub Sent : ℕ → Reactor → Option HttpResponse → List GrpcMsg → Type 0
Sent id r resp ms = ((r.channels id).response ≡ resp) × ((r.channels id).messages ≡ ms)

pub next_state-none :
    (r : Reactor) (c : Call) (j : ℕ) → j < r.next_id → next_state r c j none ≡ none
unfolding next_state
next_state-none r (delivers req) j l = ground arith
next_state-none r _ j l = ground arith

pub apply-IsSettled :
    (r : Reactor) (c : Call) (id : ℕ)
    → r.next_id + 1 < u64_mod
    → Inv r
    → IsSettled id r
    → IsSettled id (apply r c)
apply-IsSettled r c id l v s = record {
  given = omega (arith, next_id-apply r c l);
  gone = apply-next_state r c id v.connected ∙ rw s.gone (next_state-none r c id s.given);
}

stream_end-Sent :
    (r : Reactor) (id code : ℕ) (text : Bytes) (j : ℕ)
    → lookup j r.answers ≡ none
    → ((stream_end r id code text).0.channels j ≡ r.channels j)
unfolding stream_end take_answer
stream_end-Sent r id code text j e = ground arith

respond-Sent :
    (r : Reactor) (id : ℕ) (resp : HttpResponse) (j : ℕ)
    → lookup j r.answers ≡ none
    → ((respond r id resp).0.channels j ≡ r.channels j)
unfolding respond take_answer is_grpc
respond-Sent r id resp j e =
    ground
      (arith, stream_end-Sent r id (grpc_refusal resp.status).0 (grpc_refusal resp.status).1 j e)

apply-Sent :
    (r : Reactor) (c : Call) (id : ℕ)
    → r.connected ≡ true
    → IsSettled id r
    → ((apply r c).channels id).response ≡ (r.channels id).response
unfolding apply submit reserve_op complete inject server_started deliver_request_with_id
    deliver_stream_request stream_send cancel_request respond_start respond_end take_answer
    fail_pending drop_receiver poll
apply-Sent r (stream_ends i code text) id k s = rw (stream_end-Sent r i code text id s.gone)
apply-Sent r (responds i resp) id k s = rw (respond-Sent r i resp id s.gone)
apply-Sent r _ id k s = ground arith

apply-Sent_messages :
    (r : Reactor) (c : Call) (id : ℕ)
    → r.connected ≡ true
    → IsSettled id r
    → ((apply r c).channels id).messages ≡ (r.channels id).messages
unfolding apply submit reserve_op complete inject server_started deliver_request_with_id
    deliver_stream_request stream_send cancel_request respond_start respond_end take_answer
    fail_pending drop_receiver poll
apply-Sent_messages r (stream_ends i code text) id k s =
    rw (stream_end-Sent r i code text id s.gone)
apply-Sent_messages r (responds i resp) id k s = rw (respond-Sent r i resp id s.gone)
apply-Sent_messages r _ id k s = ground arith

-- In a well-formed reactor with room for the ids of a history of calls: an id that is settled stays
-- settled after the history, and its client has been sent what it had been sent before.
pub run-IsSettled :
    (r : Reactor) (cs : List Call) (id : ℕ) {resp : Option HttpResponse} {ms : List GrpcMsg}
    → r.next_id + length cs < u64_mod
    → Inv r
    → IsSettled id r
    → Sent id r resp ms
    → IsSettled id (run r cs) × Sent id (run r cs) resp ms
unfolding run
run-IsSettled r [] id l v s p = (s, p)
run-IsSettled r (c ∷ cs) id l v s p =
    run-IsSettled (apply r c) cs id (omega (arith, next_id-apply r c))
      (apply-Inv r c (omega arith) v) (apply-IsSettled r c id (omega arith) v s)
      (apply-Sent r c id v.connected s ∙ p.0, apply-Sent_messages r c id v.connected s ∙ p.1)

-- Every later answer to a settled id, a cancel of it included, is refused and changes nothing.
pub settled_refuses :
    (r : Reactor) (id : ℕ)
    → IsSettled id r
    → ((resp : HttpResponse) → respond r id resp ≡ (r, false))
      × ((code : ℕ) (headers : List (Bytes × Bytes)) (bound : ℕ)
          → respond_start r id code headers bound ≡ (r, false))
      × (respond_end r id ≡ (r, false))
      × ((msg : Bytes) → stream_send r id msg ≡ (r, false))
      × ((code : ℕ) (text : Bytes) → stream_end r id code text ≡ (r, false))
      × ((now : ℕ) → cancel_request r id now ≡ r)
      × (stream_sender r id ≡ false)
unfolding respond respond_start respond_end stream_send stream_end cancel_request stream_sender
    take_answer is_grpc
settled_refuses r id s = (
  λ resp. ground (arith, s.gone),
  λ code headers bound. ground (arith, s.gone),
  ground (arith, s.gone),
  λ msg. ground (arith, s.gone),
  λ code text. ground (arith, s.gone),
  λ now. ground (arith, s.gone),
  ground (arith, s.gone),
)

respond_whole :
    (r : Reactor) (id : ℕ) (resp : HttpResponse)
    → Inv r
    → id < r.next_id
    → lookup id r.answers ≡ some whole
    → (r.channels id).receiver_alive ≡ true
    → ((respond r id resp).1 ≡ true)
      × IsSettled id (respond r id resp).0
      × Sent id (respond r id resp).0 (some resp) []
unfolding respond take_answer is_grpc
respond_whole r id resp v l e a = (
  ground arith,
  record { given = ground arith; gone = ground (arith, lookup-remove_self id r.answers) },
  (ground arith, ground (arith, v.agrees id)),
)

-- In a well-formed reactor with room for the ids of a history of calls: a whole response to a
-- request that is owed one and whose client is there is delivered, and after the history the client
-- has been sent this response and no message, and the id is settled.
pub answered_once :
    (r : Reactor) (id : ℕ) (resp : HttpResponse) (cs : List Call)
    → r.next_id + length cs + 1 < u64_mod
    → Inv r
    → lookup id r.answers ≡ some whole
    → (r.channels id).receiver_alive ≡ true
    → ((respond r id resp).1 ≡ true)
      × IsSettled id (run (respond r id resp).0 cs)
      × Sent id (run (respond r id resp).0 cs) (some resp) []
answered_once r id resp cs l v e a =
    let (done, settled, sent) =
      respond_whole r id resp v (lookup-lt id r.next_id whole r.answers v.given_out e) e a in
    let (later, kept) =
      run-IsSettled (respond r id resp).0 cs id (omega (arith, respond-next_id r id resp))
        (respond-Inv r id resp v) settled sent in
    (done, later, kept)

grpc_refusal-ne_zero : (s : ℕ) → (grpc_refusal s).0 ≢ 0
unfolding grpc_refusal
grpc_refusal-ne_zero s = ground arith

stream_end_grpc :
    (r : Reactor) (id code : ℕ) (text : Bytes)
    → Inv r
    → id < r.next_id
    → code ≢ 0
    → lookup id r.answers ≡ some grpc
    → (r.channels id).receiver_alive ≡ true
    → ((stream_end r id code text).1 ≡ true)
      × IsSettled id (stream_end r id code text).0
      × Sent id
          (stream_end r id code text).0
          none
          ((r.channels id).messages ++ status code text ∷ [])
unfolding stream_end take_answer
stream_end_grpc r id code text v l n e a = (
  ground arith,
  record { given = ground arith; gone = ground (arith, lookup-remove_self id r.answers) },
  (ground (arith, v.agrees id), ground arith),
)

respond_failure :
    (r : Reactor) (id : ℕ) (resp : HttpResponse)
    → lookup id r.answers ≡ some grpc
    → 400 ≤ resp.status
    → respond r id resp ≡ stream_end r id (grpc_refusal resp.status).0 (grpc_refusal resp.status).1
unfolding respond is_grpc
respond_failure r id resp e h = ground arith

-- In a well-formed reactor with room for the ids of a history of calls: a whole response with a
-- status of 400 or more, given to an open gRPC call whose client is there, ends the call. The
-- client gets a terminal status after the messages it had, with a code other than 0 (OK), and after
-- the history it has been sent nothing else and the id is settled.
pub refused_grpc :
    (r : Reactor) (id : ℕ) (resp : HttpResponse) (cs : List Call)
    → r.next_id + length cs + 1 < u64_mod
    → Inv r
    → lookup id r.answers ≡ some grpc
    → (r.channels id).receiver_alive ≡ true
    → 400 ≤ resp.status
    → let (code, text) = grpc_refusal resp.status in
      ((respond r id resp).1 ≡ true)
      × (code ≢ 0)
      × IsSettled id (run (respond r id resp).0 cs)
      × Sent id
          (run (respond r id resp).0 cs)
          none
          ((r.channels id).messages ++ status code text ∷ [])
refused_grpc r id resp cs l v e a h =
    let code = (grpc_refusal resp.status).0 in
    let text = (grpc_refusal resp.status).1 in
    let (done, settled, sent) =
      stream_end_grpc r id code text v (lookup-lt id r.next_id grpc r.answers v.given_out e)
        (grpc_refusal-ne_zero resp.status) e a in
    let (later, kept) =
      run-IsSettled (stream_end r id code text).0 cs id
        (omega (arith, stream_end-next_id r id code text)) (stream_end-Inv r id code text v) settled
        sent in
    rw (respond_failure r id resp e h) (done, grpc_refusal-ne_zero resp.status, later, kept)
