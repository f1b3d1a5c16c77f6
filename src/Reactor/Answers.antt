-- ===== src/Reactor/Answers.antt =====
-- crates/ignis/src/reactor.rs: the map of answers that the thread owes, and every operation on it.
-- A send to a client succeeds while the transport holds the receiving end of the id's channel.
pub mod Lifecycle
pub mod Pending
pub mod Transitions
pub mod Invariant
use ignis.Shared.{
  ℕ, ◌+◌, ◌≡◌, refl, ◌⊎◌, inl, inr, Option-cases, Bool-cases, Bool, true, false, ◌&&◌, List, [],
  ◌∷◌, ◌++◌, Option, none, some, Bytes, codes, to_string, length, leb, ◌==◌, if◌then◌else◌,
  wrapping_add, lookup, insert, remove, max,
}
use ignis.Reactor.{
  Outcome, request, cancelled, HttpRequest, HttpResponse, ResponseBody, stream, GrpcMsg, message,
  status, Answer, whole, streaming, grpc, Channel, fresh_channel, Reactor, send_done,
}

-- One channel is changed, the others stay.
abbrev pub update : (ℕ → Channel) → ℕ → Channel → ℕ → Channel
update f i c j = if i == j then c else f j

-- How an HTTP failure reads as a gRPC status.
unfoldable pub grpc_refusal : ℕ → ℕ × Bytes
grpc_refusal s =
    if s == 503
    then (14, codes "unavailable: the server is at its request budget")
    else if s == 504
    then (4, codes "deadline exceeded")
    else if s == 500
    then (13, codes "internal")
    else (2, codes "the server refused the call with HTTP " ++ to_string s)

-- The request becomes known, is counted, and goes to PHP; it is forgotten if PHP is gone.
deliver : Answer → Reactor → HttpRequest → Reactor × ℕ
deliver kind r req =
    let id = r.next_id in
    let known = record r {
      next_id = wrapping_add r.next_id 1;
      answers = insert id kind r.answers;
      channels = update r.channels id fresh_channel;
      inflight = wrapping_add r.inflight 1;
    } in
    let (sent, delivered) = send_done known id (request req) in
    if delivered then (sent, id) else (record sent { answers = remove id sent.answers }, id)

unfoldable pub deliver_request_with_id : Reactor → HttpRequest → Reactor × ℕ
unfolding deliver
deliver_request_with_id = deliver whole

unfoldable pub deliver_stream_request : Reactor → HttpRequest → Reactor × ℕ
unfolding deliver
deliver_stream_request = deliver grpc

-- A send on the gRPC stream of `id`, and whether the client was there to take it.
abbrev send_grpc : Reactor → ℕ → GrpcMsg → Reactor × Bool
send_grpc r id m =
    let c = r.channels id in
    if c.receiver_alive
    then (
      record r { channels = update r.channels id (record c { messages = c.messages ++ m ∷ [] }) },
      true,
    )
    else (r, false)

-- A send on the oneshot of `id`.
abbrev send_response : Reactor → ℕ → HttpResponse → Reactor × Bool
send_response r id resp =
    let c = r.channels id in
    if c.receiver_alive
    then (record r { channels = update r.channels id (record c { response = some resp }) }, true)
    else (r, false)

unfoldable pub stream_send : Reactor → ℕ → Bytes → Reactor × Bool
stream_send r id msg = elim (lookup id r.answers) [
  | some grpc ↦ send_grpc r id (message msg)
  | _ ↦ (r, false)
]

abbrev is_whole : Answer → Bool
is_whole whole = true
is_whole _ = false

abbrev is_streaming : Answer → Bool
is_streaming streaming = true
is_streaming _ = false

abbrev is_grpc_answer : Answer → Bool
is_grpc_answer grpc = true
is_grpc_answer _ = false

-- Takes the answer of `id` out, only if it is in the state that the caller expects.
unfoldable pub take_answer : Reactor → ℕ → (Answer → Bool) → Reactor × Bool
take_answer r id expected = elim (lookup id r.answers) [
  | some a ↦ if expected a then (record r { answers = remove id r.answers }, true) else (r, false)
  | none ↦ (r, false)
]

unfoldable pub stream_end : Reactor → ℕ → ℕ → Bytes → Reactor × Bool
unfolding take_answer
stream_end r id code text =
    let (taken, found) = take_answer r id is_grpc_answer in
    if found
    then (if code == 0 then taken else (send_grpc taken id (status code text)).0, true)
    else (taken, false)

-- The response future of `id` was dropped before PHP answered; `now` is that instant.
unfoldable pub cancel_request : Reactor → ℕ → ℕ → Reactor
cancel_request r id now = elim (lookup id r.answers) [
  | some _ ↦
      (send_done (record r { answers = remove id r.answers; inflight = wrapping_add r.inflight 1 })
        id (cancelled now)).0
  | none ↦ r
]

unfoldable pub is_grpc : Reactor → ℕ → Bool
is_grpc r id = elim (lookup id r.answers) [ some a ↦ is_grpc_answer a | none ↦ false ]

unfoldable pub respond : Reactor → ℕ → HttpResponse → Reactor × Bool
respond r id resp =
    let (code, text) = grpc_refusal resp.status in
    let (taken, found) = take_answer r id is_whole in
    if leb 400 resp.status && is_grpc r id
    then stream_end r id code text
    else if found
    then send_response taken id resp
    else (taken, false)

-- The head of a streamed answer goes out now; the chunks follow over a channel of bound `bound`.
unfoldable pub respond_start : Reactor → ℕ → ℕ → List (Bytes × Bytes) → ℕ → Reactor × Bool
respond_start r id code headers bound = elim (lookup id r.answers) [
  | some whole ↦
      let removed = record r { answers = remove id r.answers } in
      let (sent, alive) =
        send_response removed id
          (record { status = code; headers = headers; body = stream (max bound 1) }) in
      if alive
      then (record sent { answers = insert id streaming sent.answers }, true)
      else (sent, false)
  | some other ↦ (record r { answers = insert id other (remove id r.answers) }, false)
  | none ↦ (r, false)
]

-- Whether there is a sending end of a streamed answer to hand out.
unfoldable pub stream_sender : Reactor → ℕ → Bool
stream_sender r id = elim (lookup id r.answers) [ some a ↦ is_streaming a | none ↦ false ]

unfoldable pub respond_end : Reactor → ℕ → Reactor × Bool
unfolding take_answer
respond_end r id = take_answer r id is_streaming

-- The thread is going away: every responder is dropped. Returns how many there were.
unfoldable pub fail_pending : Reactor → Reactor × ℕ
fail_pending r = (record r { answers = [] }, length r.answers)

unfoldable pub pending_requests : Reactor → ℕ
pending_requests r = length r.answers

-- What the transport awaits: a client that leaves drops its receiver.
unfoldable pub drop_receiver : Reactor → ℕ → Reactor
drop_receiver r id = record r {
  channels = update r.channels id (record (r.channels id) { receiver_alive = false });
}

-- `take_answer` either refuses and changes nothing, or takes out an answer of the expected state.
take_cases :
    (r : Reactor) (id : ℕ) (expected : Answer → Bool)
    → (take_answer r id expected ≡ (r, false))
      ⊎ ((a : Answer) × (lookup id r.answers ≡ some a)
          × (expected a ≡ true)
          × (take_answer r id expected ≡ (record r { answers = remove id r.answers }, true)))
unfolding take_answer
take_cases r id expected = elim (Option-cases (lookup id r.answers)) [
  | inl e ↦ inl (rw (e, take_answer))
  | inr (a, e) ↦ elim (Bool-cases (expected a)) [
    | inl y ↦ inr (a, e, y, rw (e, take_answer, y))
    | inr n ↦ inl (rw (e, take_answer, n))
  ]
]
