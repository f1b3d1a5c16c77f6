-- ===== src/Reactor/Calls.antt =====
-- crates/ignis/src/reactor.rs: every call of the reactor that changes it, as data, and a history of
-- calls. The PHP thread, tokio and the client make them in any order; each is atomic on the state.
use ignis.Shared.{ℕ, List, [], ◌∷◌, Option, Bytes}
use ignis.Reactor.{
  Op, Outcome, HttpRequest, HttpResponse, Reactor, submit, reserve_op, complete, inject,
  server_started, Polled, returned, blocked, Wait, poll,
}
use ignis.Reactor.Answers.{
  deliver_request_with_id, deliver_stream_request, stream_send, stream_end, cancel_request, respond,
  respond_start, respond_end, fail_pending, drop_receiver,
}

pub data Call : Type 0 where
  submits : Op → Call
  reserves : Call
  completes : (id : ℕ) → Outcome → Call
  injects : Outcome → Call
  delivers : HttpRequest → Call
  delivers_stream : HttpRequest → Call
  stream_sends : (id : ℕ) → Bytes → Call
  stream_ends : (id code : ℕ) → Bytes → Call
  cancels : (id now : ℕ) → Call
  responds : (id : ℕ) → HttpResponse → Call
  starts : (id code : ℕ) → List (Bytes × Bytes) → (bound : ℕ) → Call
  ends : (id : ℕ) → Call
  fails : Call
  leaves : (id : ℕ) → Call  -- the client drops its end
  serves : Call
  polls : Option ℕ → Wait → Call

abbrev pub after_poll : Polled → Reactor
after_poll (returned r _) = r
after_poll (blocked r) = r

unfoldable pub apply : Reactor → Call → Reactor
apply r (submits op) = (submit r op).0
apply r reserves = (reserve_op r).0
apply r (completes id o) = complete r id o
apply r (injects o) = (inject r o).0
apply r (delivers req) = (deliver_request_with_id r req).0
apply r (delivers_stream req) = (deliver_stream_request r req).0
apply r (stream_sends id msg) = (stream_send r id msg).0
apply r (stream_ends id code text) = (stream_end r id code text).0
apply r (cancels id now) = cancel_request r id now
apply r (responds id resp) = (respond r id resp).0
apply r (starts id code headers bound) = (respond_start r id code headers bound).0
apply r (ends id) = (respond_end r id).0
apply r fails = (fail_pending r).0
apply r (leaves id) = drop_receiver r id
apply r serves = server_started r
apply r (polls timeout w) = after_poll (poll r timeout w)

unfoldable pub run : Reactor → List Call → Reactor
run r [] = r
run r (c ∷ cs) = run (apply r c) cs
