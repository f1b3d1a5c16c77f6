-- ===== src/Reactor/Answers/Invariant.antt =====
-- crates/ignis/src/reactor.rs: what holds of the answers map between any two calls. A key is an id
-- that was given out, it is there once, and its state agrees with what its client was sent.
use ignis.Shared.{
  ℕ, ◌+◌, ◌<◌, ◌≤◌, ◌≡◌, refl, ◌∙◌, ◌⊎◌, inl, inr, Bool, true, List, [], ◌∷◌, Option, none, some,
  max, leb, ◌&&◌, Bool-cases, eq_of_==, ◌++◌, Bytes, lookup-remove_self, arith, length, u64_mod,
  lookup, insert, remove, UniqueKeys, KeysBelow, lookup-insert, lookup-remove, insert-UniqueKeys,
  remove-UniqueKeys, insert-KeysBelow, remove-KeysBelow, KeysBelow-mono, Option-cases, ◌==◌,
}
use ignis.Reactor.{
  Wait, Answer, whole, streaming, grpc, HttpRequest, HttpResponse, GrpcMsg, message, status, full,
  stream, Channel, fresh_channel, Reactor, new, poll, submit, reserve_op, inject, complete,
  server_started,
}
use ignis.Reactor.Answers.{
  update, deliver, deliver_request_with_id, deliver_stream_request, stream_send, stream_end,
  cancel_request, respond, respond_start, respond_end, fail_pending, drop_receiver, take_answer,
  take_cases, is_whole, is_grpc, grpc_refusal,
}
use ignis.Reactor.Counters.{next_id-apply}
use ignis.Reactor.Calls.{
  after_poll, Call, apply, run, submits, reserves, completes, injects, delivers, delivers_stream,
  stream_sends, stream_ends, cancels, responds, starts, ends, fails, leaves, serves, polls,
}

abbrev pub IsStream : Option HttpResponse → Type 0
IsStream none = ⊥
IsStream (some r) = elim r.body [ full _ ↦ ⊥ | stream _ ↦ Unit {0} ]

-- What a state says of the id's channel.
abbrev pub Agrees : Option Answer → Channel → Type 0
Agrees none c = Unit {0}
Agrees (some whole) c = (c.response ≡ none) × (c.messages ≡ [])
Agrees (some streaming) c = IsStream c.response × (c.messages ≡ [])
Agrees (some grpc) c = c.response ≡ none

pub record Inv (r : Reactor) : Type 0 where
  pub unique : UniqueKeys r.answers
  pub given_out : KeysBelow r.next_id r.answers
  pub connected : r.connected ≡ true
  pub agrees : (id : ℕ) → Agrees (lookup id r.answers) (r.channels id)

pub new-Inv : (spin : ℕ) → Inv (new spin)
unfolding new lookup
new-Inv spin = record { unique = tt; given_out = tt; connected = refl; agrees = λ id. tt }

-- The invariant reads four fields, and the id counter only as a bound.
pub Inv-grow :
    (r s : Reactor)
    → r.next_id ≤ s.next_id
    → s.answers ≡ r.answers
    → s.connected ≡ r.connected
    → s.channels ≡ r.channels
    → Inv r
    → Inv s
Inv-grow r s l a c ch v = record {
  unique = rw a v.unique;
  given_out = rw a (KeysBelow-mono r.next_id s.next_id r.answers l v.given_out);
  connected = c ∙ v.connected;
  agrees = λ id. rw (a, ch) (v.agrees id);
}

deliver-Inv :
    (kind : Answer) (r : Reactor) (req : HttpRequest)
    → r.next_id + 1 < u64_mod
    → Agrees (some kind) fresh_channel
    → Inv r
    → Inv (deliver kind r req).0
unfolding deliver
deliver-Inv kind r req l k v = rw v.connected (record {
  unique = insert-UniqueKeys r.next_id kind r.answers v.unique;
  given_out =
      insert-KeysBelow r.next_id kind _ r.answers (omega arith)
        (KeysBelow-mono r.next_id _ r.answers (omega arith) v.given_out);
  connected = refl;
  agrees = λ id. rw lookup-insert (ground (arith, v.agrees id, k));
})

-- Taking an answer out.
remove-Inv : (r : Reactor) (id : ℕ) → Inv r → Inv (record r { answers = remove id r.answers })
remove-Inv r id v = record {
  unique = remove-UniqueKeys id r.answers v.unique;
  given_out = remove-KeysBelow id r.next_id r.answers v.given_out;
  connected = v.connected;
  agrees = λ j. rw lookup-remove (ground (arith, v.agrees j));
}

-- A message sent on an id that is no longer owed, or that is a gRPC stream.
messages-Inv :
    (r : Reactor) (id : ℕ) (ms : List GrpcMsg)
    → (lookup id r.answers ≡ none) ⊎ (lookup id r.answers ≡ some grpc)
    → Inv r
    → Inv (record r { channels = update r.channels id (record (r.channels id) { messages = ms }) })
messages-Inv r id ms k v = record {
  unique = v.unique;
  given_out = v.given_out;
  connected = v.connected;
  agrees = λ j. ground (arith, v.agrees j);
}

response-Inv :
    (r : Reactor) (id : ℕ) (resp : HttpResponse)
    → lookup id r.answers ≡ none
    → Inv r
    → Inv (record r {
      channels = update r.channels id (record (r.channels id) { response = some resp });
    })
response-Inv r id resp k v = record {
  unique = v.unique;
  given_out = v.given_out;
  connected = v.connected;
  agrees = λ j. ground (arith, v.agrees j);
}

leave-Inv : (r : Reactor) (id : ℕ) → Inv r → Inv (drop_receiver r id)
unfolding drop_receiver
leave-Inv r id v = record {
  unique = v.unique;
  given_out = v.given_out;
  connected = v.connected;
  agrees = λ j. ground (arith, v.agrees j);
}

take-Inv : (r : Reactor) (id : ℕ) (e : Answer → Bool) → Inv r → Inv (take_answer r id e).0
take-Inv r id e v = elim (take_cases r id e) [
  | inl q ↦ rw q v
  | inr (a, _, _, q) ↦ rw q (remove-Inv r id v)
]

stream_send-Inv : (r : Reactor) (id : ℕ) (msg : Bytes) → Inv r → Inv (stream_send r id msg).0
unfolding stream_send
stream_send-Inv r id msg v =
    ground (arith, messages-Inv r id ((r.channels id).messages ++ message msg ∷ []))

pub stream_end-Inv :
    (r : Reactor) (id code : ℕ) (text : Bytes) → Inv r → Inv (stream_end r id code text).0
unfolding stream_end
stream_end-Inv r id code text v = ground (
  arith,
  lookup-remove_self id r.answers,
  remove-Inv r id v,
  messages-Inv (record r { answers = remove id r.answers }) id
      ((r.channels id).messages ++ status code text ∷ []),
)

pub respond-Inv : (r : Reactor) (id : ℕ) (resp : HttpResponse) → Inv r → Inv (respond r id resp).0
unfolding respond
respond-Inv r id resp v = elim (Bool-cases (leb 400 resp.status && is_grpc r id)) [
  | inl g ↦ rw g (stream_end-Inv r id (grpc_refusal resp.status).0 (grpc_refusal resp.status).1 v)
  | inr g ↦ rw g (elim (take_cases r id is_whole) [
    | inl q ↦ rw q v
    | inr (a, _, _, q) ↦ rw q (
        ground (
          arith,
          remove-Inv r id v,
          response-Inv (record r { answers = remove id r.answers }) id resp
              (lookup-remove_self id r.answers),
        ))
  ])
]

-- The entry of an id is put back, or a new one in a state that agrees with its channel.
insert-Inv :
    (r : Reactor) (id : ℕ) (a : Answer)
    → id < r.next_id
    → Agrees (some a) (r.channels id)
    → Inv r
    → Inv (record r { answers = insert id a r.answers })
insert-Inv r id a l k v = record {
  unique = insert-UniqueKeys id a r.answers v.unique;
  given_out = insert-KeysBelow id a r.next_id r.answers l v.given_out;
  connected = v.connected;
  agrees = λ j. rw lookup-insert (elim (Bool-cases (id == j)) [
    | inl e ↦ rw (e, ← eq_of_== id j e) k
    | inr n ↦ rw n (v.agrees j)
  ]);
}

pub lookup-lt :
    (k n : ℕ) (a : Answer) (m : List (ℕ × Answer)) → KeysBelow n m → lookup k m ≡ some a → k < n
unfolding lookup
lookup-lt k n a [] h e = cc
lookup-lt k n a ((j, b) ∷ m) h e = ground (arith, lookup-lt k n a m h.1)

start-Inv :
    (r : Reactor) (id code : ℕ) (headers : List (Bytes × Bytes)) (bound : ℕ)
    → lookup id r.answers ≡ some whole
    → Inv r
    → Inv (respond_start r id code headers bound).0
unfolding respond_start
start-Inv r id code headers bound e v =
    let taken = record r { answers = remove id r.answers } in
    let head : HttpResponse = record {
      status = code;
      headers = headers;
      body = stream (max bound 1);
    } in
    let sent = response-Inv taken id head (lookup-remove_self id r.answers) (remove-Inv r id v) in
    elim (Bool-cases (r.channels id).receiver_alive) [
      | inl alive ↦
          rw (e, respond_start, alive)
            (insert-Inv _ id streaming (lookup-lt id r.next_id whole r.answers v.given_out e)
              (ground (arith, v.agrees id)) (rw alive at sent))
      | inr gone ↦ rw (e, respond_start, gone) (remove-Inv r id v)
    ]

-- An answer that is taken out and put back.
put_back-Inv :
    (r : Reactor) (id : ℕ) (a : Answer)
    → lookup id r.answers ≡ some a
    → Inv r
    → Inv (record r { answers = insert id a (remove id r.answers) })
put_back-Inv r id a e v =
    insert-Inv (record r { answers = remove id r.answers }) id a
      (lookup-lt id r.next_id a r.answers v.given_out e) (rw e at (v.agrees id)) (remove-Inv r id v)

respond_start-Inv :
    (r : Reactor) (id code : ℕ) (headers : List (Bytes × Bytes)) (bound : ℕ)
    → Inv r
    → Inv (respond_start r id code headers bound).0
unfolding respond_start
respond_start-Inv r id code headers bound v = elim (Option-cases (lookup id r.answers)) [
  | inl e ↦ rw (e, respond_start) v
  | inr (whole, e) ↦ start-Inv r id code headers bound e v
  | inr (streaming, e) ↦ rw (e, respond_start) (put_back-Inv r id streaming e v)
  | inr (grpc, e) ↦ rw (e, respond_start) (put_back-Inv r id grpc e v)
]

cancel-Inv : (r : Reactor) (id now : ℕ) → Inv r → Inv (cancel_request r id now)
unfolding cancel_request
cancel-Inv r id now v = ground (
  arith,
  remove-Inv r id v,
  Inv-grow (record r { answers = remove id r.answers }) (cancel_request r id now),
)

-- The calls that leave the answers alone.
poll-Inv : (r : Reactor) (t : Option ℕ) (w : Wait) → Inv r → Inv (after_poll (poll r t w))
unfolding poll
poll-Inv r t w v =
    Inv-grow r (after_poll (poll r t w)) (ground arith) (ground arith) (ground arith) (ground arith)
      v

-- Every call of the reactor, by the PHP thread, by tokio or by the client, keeps the invariant, while the id
-- counter is not at its last value.
pub apply-Inv : (r : Reactor) (c : Call) → r.next_id + 1 < u64_mod → Inv r → Inv (apply r c)
unfolding apply deliver_request_with_id deliver_stream_request respond_end fail_pending submit
    reserve_op complete inject server_started lookup
apply-Inv r (submits op) l v =
    Inv-grow r (apply r (submits op)) (ground arith) (ground arith) (ground arith) (ground arith) v
apply-Inv r reserves l v =
    Inv-grow r (apply r reserves) (ground arith) (ground arith) (ground arith) (ground arith) v
apply-Inv r (completes id o) l v =
    Inv-grow r (apply r (completes id o)) (ground arith) (ground arith) (ground arith)
      (ground arith) v
apply-Inv r (injects o) l v =
    Inv-grow r (apply r (injects o)) (ground arith) (ground arith) (ground arith) (ground arith) v
apply-Inv r (delivers req) l v = deliver-Inv whole r req l (refl, refl) v
apply-Inv r (delivers_stream req) l v = deliver-Inv grpc r req l refl v
apply-Inv r (stream_sends id msg) l v = stream_send-Inv r id msg v
apply-Inv r (stream_ends id code text) l v = stream_end-Inv r id code text v
apply-Inv r (cancels id now) l v = cancel-Inv r id now v
apply-Inv r (responds id resp) l v = respond-Inv r id resp v
apply-Inv r (starts id code headers bound) l v = respond_start-Inv r id code headers bound v
apply-Inv r (ends id) l v = take-Inv r id _ v
apply-Inv r fails l v = record {
  unique = tt;
  given_out = tt;
  connected = v.connected;
  agrees = λ id. tt;
}
apply-Inv r (leaves id) l v = leave-Inv r id v
apply-Inv r serves l v =
    Inv-grow r (server_started r) (ground arith) (ground arith) (ground arith) (ground arith) v
apply-Inv r (polls t w) l v = poll-Inv r t w v

-- A history of calls keeps it, while the id counter does not reach its last value.
pub run-Inv :
    (r : Reactor) (cs : List Call) → r.next_id + length cs < u64_mod → Inv r → Inv (run r cs)
unfolding run
run-Inv r [] l v = v
run-Inv r (c ∷ cs) l v =
    run-Inv (apply r c) cs (omega (arith, next_id-apply r c)) (apply-Inv r c (omega arith) v)
