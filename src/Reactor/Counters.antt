-- ===== src/Reactor/Counters.antt =====
-- crates/ignis/src/reactor.rs: the id counter under every call. It moves by one id at a time.
use ignis.Shared.{ℕ, ◌+◌, ◌≤◌, ◌<◌, ◌≡◌, arith, u64_mod, Bytes}
use ignis.Reactor.{
  HttpResponse, Reactor, submit, reserve_op, complete, inject, server_started, poll,
}
use ignis.Reactor.Answers.{
  deliver_request_with_id, deliver_stream_request, stream_send, stream_end, cancel_request, respond,
  respond_start, respond_end, fail_pending, drop_receiver, take_answer, grpc_refusal,
}
use ignis.Reactor.Calls.{Call, apply, stream_ends, responds}

pub stream_end-next_id :
    (r : Reactor) (id code : ℕ) (text : Bytes) → (stream_end r id code text).0.next_id ≡ r.next_id
unfolding stream_end
stream_end-next_id r id code text = ground arith

pub respond-next_id :
    (r : Reactor) (id : ℕ) (resp : HttpResponse) → (respond r id resp).0.next_id ≡ r.next_id
unfolding respond take_answer
respond-next_id r id resp =
    ground
      (arith, stream_end-next_id r id (grpc_refusal resp.status).0 (grpc_refusal resp.status).1)

-- A call gives out one id at most, and ids go up by one.
pub next_id-apply :
    (r : Reactor) (c : Call)
    → r.next_id + 1 < u64_mod
    → (r.next_id ≤ (apply r c).next_id) × ((apply r c).next_id ≤ r.next_id + 1)
unfolding apply submit reserve_op complete inject server_started deliver_request_with_id
    deliver_stream_request stream_send cancel_request respond_start respond_end fail_pending
    drop_receiver poll
next_id-apply r (responds id resp) l = omega (arith, respond-next_id r id resp)
next_id-apply r (stream_ends id code text) l = omega (arith, stream_end-next_id r id code text)
next_id-apply r _ l = ground arith

stream_end-connected :
    (r : Reactor) (id code : ℕ) (text : Bytes)
    → (stream_end r id code text).0.connected ≡ r.connected
unfolding stream_end
stream_end-connected r id code text = ground arith

respond-connected :
    (r : Reactor) (id : ℕ) (resp : HttpResponse) → (respond r id resp).0.connected ≡ r.connected
unfolding respond take_answer
respond-connected r id resp =
    ground
      (arith, stream_end-connected r id (grpc_refusal resp.status).0 (grpc_refusal resp.status).1)

-- The completion channel stays connected under every call.
pub connected-apply : (r : Reactor) (c : Call) → (apply r c).connected ≡ r.connected
unfolding apply submit reserve_op complete inject server_started deliver_request_with_id
    deliver_stream_request stream_send cancel_request respond_start respond_end fail_pending
    drop_receiver poll
connected-apply r (responds id resp) = respond-connected r id resp
connected-apply r (stream_ends id code text) = stream_end-connected r id code text
connected-apply r _ = ground arith
