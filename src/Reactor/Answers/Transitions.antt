-- ===== src/Reactor/Answers/Transitions.antt =====
-- crates/ignis/src/reactor.rs: the protocol of one request id, apart from maps and channels: what
-- each call makes of what the id owes. The map operations are proved to implement it for every id.
use ignis.Shared.{
  ℕ, ◌≡◌, refl, Bool, true, false, List, Option, none, some, Bytes, arith, lookup, remove,
  lookup-insert, lookup-remove, ◌==◌, if◌then◌else◌, leb,
}
use ignis.Reactor.{
  Answer, whole, streaming, grpc, HttpResponse, Reactor, submit, reserve_op, complete, inject,
  server_started, poll,
}
use ignis.Reactor.Answers.{
  deliver_request_with_id, deliver_stream_request, stream_send, stream_end, cancel_request, respond,
  is_grpc, respond_start, respond_end, fail_pending, drop_receiver, take_answer, grpc_refusal,
}
use ignis.Reactor.Calls.{
  Call, apply, delivers, delivers_stream, stream_ends, cancels, responds, starts, ends, fails,
}

-- A stream that closes: only a gRPC stream does.
abbrev pub closed : Option Answer → Option Answer
closed (some grpc) = none
closed s = s

-- An answer with a status: a whole answer is given, and a gRPC call is refused by a failure only.
abbrev pub answered : Bool → Option Answer → Option Answer
answered failure (some whole) = none
answered true (some grpc) = none
answered failure s = s

-- The head of a streamed answer, to a client that is there or not.
abbrev pub begun : Bool → Option Answer → Option Answer
begun true (some whole) = some streaming
begun false (some whole) = none
begun alive s = s

abbrev pub finished : Option Answer → Option Answer
finished (some streaming) = none
finished s = s

-- What id `j` owes after a call, from what it owed before.
unfoldable pub next_state : Reactor → Call → ℕ → Option Answer → Option Answer
next_state r (delivers req) j s = if r.next_id == j then some whole else s
next_state r (delivers_stream req) j s = if r.next_id == j then some grpc else s
next_state r (stream_ends id code text) j s = if id == j then closed s else s
next_state r (cancels id now) j s = if id == j then none else s
next_state r (responds id resp) j s = if id == j then answered (leb 400 resp.status) s else s
next_state r (starts id code headers bound) j s =
    if id == j then begun (r.channels id).receiver_alive s else s
next_state r (ends id) j s = if id == j then finished s else s
next_state r fails j s = none
next_state r _ j s = s

stream_end-lookup :
    (r : Reactor) (id code : ℕ) (text : Bytes) (j : ℕ)
    → lookup j (stream_end r id code text).0.answers
      ≡ (if id == j then closed (lookup j r.answers) else lookup j r.answers)
unfolding stream_end take_answer
stream_end-lookup r id code text j = ground (arith, lookup-remove id j r.answers)

respond-lookup :
    (r : Reactor) (id : ℕ) (resp : HttpResponse) (j : ℕ)
    → lookup j (respond r id resp).0.answers ≡ (
        if id == j then answered (leb 400 resp.status) (lookup j r.answers) else lookup j r.answers)
unfolding respond take_answer is_grpc
respond-lookup r id resp j = ground (
  arith,
  lookup-remove id j r.answers,
  stream_end-lookup r id (grpc_refusal resp.status).0 (grpc_refusal resp.status).1 j,
)

respond_start-lookup :
    (r : Reactor) (id code : ℕ) (headers : List (Bytes × Bytes)) (bound j : ℕ)
    → lookup j (respond_start r id code headers bound).0.answers ≡ (
        if id == j
        then begun (r.channels id).receiver_alive (lookup j r.answers)
        else lookup j r.answers)
unfolding respond_start
respond_start-lookup r id code headers bound j = ground (
  arith,
  lookup-remove id j r.answers,
  lookup-insert id j streaming (remove id r.answers),
  lookup-insert id j grpc (remove id r.answers),
)

-- While the completion channel is connected, after any call every id owes what the protocol says:
-- the id of the call makes its move, and no other id is touched, but by `fail_pending`, which clears
-- them all.
pub apply-next_state :
    (r : Reactor) (c : Call) (j : ℕ)
    → r.connected ≡ true
    → lookup j (apply r c).answers ≡ next_state r c j (lookup j r.answers)
unfolding apply next_state submit reserve_op complete inject server_started deliver_request_with_id
    deliver_stream_request stream_send cancel_request respond_end take_answer fail_pending
    drop_receiver poll lookup
apply-next_state r (delivers req) j k = ground (arith, lookup-insert r.next_id j whole r.answers)
apply-next_state r (delivers_stream req) j k =
    ground (arith, lookup-insert r.next_id j grpc r.answers)
apply-next_state r (stream_ends id code text) j k = stream_end-lookup r id code text j
apply-next_state r (cancels id now) j k = ground (arith, lookup-remove id j r.answers)
apply-next_state r (responds id resp) j k = respond-lookup r id resp j
apply-next_state r (starts id code headers bound) j k =
    respond_start-lookup r id code headers bound j
apply-next_state r (ends id) j k = ground (arith, lookup-remove id j r.answers)
apply-next_state r fails j k = refl
apply-next_state r _ j k = ground arith
