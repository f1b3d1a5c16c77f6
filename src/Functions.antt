-- ===== src/Functions.antt =====
-- crates/ignis/src/php/module.rs: the functions that PHP calls, over the reactor. A thread's reactor is
-- none where none was installed; a PHP array is the list of its entries in order. How the engine reads
-- a text as a key, and `String::from_utf8_lossy`, are arguments.
pub mod Headers
pub mod Batch
pub mod Ops
mod Examples
use ignis.Shared.{
  ℕ, zero, suc, ◌+◌, ◌-◌, ◌*◌, ◌%◌, ◌^◌, ◌≡◌, refl, Bool, true, false, List, [], ◌∷◌, ◌++◌, Option,
  none, some, Bytes, same_text, ◌==◌, ltb, if◌then◌else◌, min, max, insert, lookup, ℤ, pos, negsuc,
  u64_mod,
}
use ignis.Reactor.{
  Op, sleep, watch, cancel_watch, custom, Outcome, slept, request, ready, cancelled, json, failed,
  blob, error, HttpRequest, HttpResponse, full, Completion, Reactor, submit, reserve_op, complete,
  Wait, poll, returned, blocked,
}
use ignis.Reactor.Answers.{respond, respond_end, stream_send, stream_end, stream_sender}
use ignis.Wait.{Parked, is_parked, resume_parked}
use ignis.Published.{Published, set, stamp}

-- `as u64` of an `i64`, and back: two's complement.
unfoldable pub as_u64 : ℤ → ℕ
as_u64 (pos n) = n % u64_mod
as_u64 (negsuc n) = u64_mod - 1 - n % u64_mod

unfoldable pub as_i64 : ℕ → ℤ
as_i64 n =
    let m = n % u64_mod in if ltb m 9223372036854775808 then pos m else negsuc (u64_mod - 1 - m)

-- `max(0) as u64`
abbrev pub not_negative : ℤ → ℕ
not_negative (pos n) = n
not_negative (negsuc n) = 0

-- What a function answers: nothing where it has thrown.
pub data Answered : Type 0 where
  thrown : Answered
  long : ℤ → Answered
  boolean : Bool → Answered

-- `reactor_or_throw`
unfoldable pub with_reactor :
    Option Reactor → (Reactor → Reactor × Answered) → Option Reactor × Answered
with_reactor none f = (none, thrown)
with_reactor (some r) f = let (after, answered) = f r in (some after, answered)

abbrev pub submitted : Reactor × ℕ → Reactor × Answered
submitted (r, id) = (r, long (as_i64 id))

abbrev pub told : Reactor × Bool → Reactor × Answered
told (r, done) = (r, boolean done)

-- `arguments`: how many there are, and the first where it is an integer.
unfoldable pub submit_sleep : ℕ → Option ℤ → Option Reactor → Option Reactor × Answered
unfolding with_reactor
submit_sleep arguments ms r =
    if arguments == 1
    then elim ms [
      | none ↦ (r, thrown)
      | some ms ↦
          with_reactor r
            (λ q. submitted (submit q (sleep (min (not_negative ms * 1000) (u64_mod - 1)))))
    ]
    else (r, thrown)

-- `ready_now`: what `libc::poll` says of the descriptor; none where the stream has no descriptor.
unfoldable pub watch_stream :
    (fd : Option ℕ) → (mode : ℕ) → (ready_now : Bool) → Option Reactor → Option Reactor × Answered
unfolding with_reactor
watch_stream none mode ready_now r = (r, thrown)
watch_stream (some fd) mode ready_now r = with_reactor r (λ q.
    let (reserved, id) = reserve_op q in
    if ready_now
    then (complete reserved id ready, long (as_i64 id))
    else submitted (submit q (watch fd (mode == 2))))

unfoldable pub cancel_op : ℤ → Option Reactor → Option Reactor × Answered
unfolding with_reactor as_u64
cancel_op target r = with_reactor r (λ q. submitted (submit q (cancel_watch (as_u64 target))))

-- `status.clamp(100, 599) as u16`
abbrev pub status_code : ℤ → ℕ
status_code status = min (max (not_negative status) 100) 599

unfoldable pub answer_request :
    (id status : ℤ) → List (Bytes × Bytes) → Bytes → Option Reactor → Option Reactor × Answered
unfolding with_reactor as_u64
answer_request id status headers body r = with_reactor r (λ q. told (
    respond q (as_u64 id)
      (record { status = status_code status; headers = headers; body = full body })))

unfoldable pub end_response : ℤ → Option Reactor → Option Reactor × Answered
unfolding with_reactor as_u64
end_response id r = with_reactor r (λ q. told (respond_end q (as_u64 id)))

unfoldable pub grpc_send : ℤ → Bytes → Option Reactor → Option Reactor × Answered
unfolding with_reactor as_u64
grpc_send id message r = with_reactor r (λ q. told (stream_send q (as_u64 id) message))

-- `code as i32`, as its bits.
unfoldable pub grpc_end : (id code : ℤ) → Bytes → Option Reactor → Option Reactor × Answered
unfolding with_reactor as_u64
grpc_end id code text r =
    with_reactor r (λ q. told (stream_end q (as_u64 id) (as_u64 code % 2 ^ 32) text))

-- What `try_send` on the chunks' channel answers.
pub data TrySend : Type 0 where
  sent_now channel_full channel_closed : TrySend

-- A thread without a reactor is answered -1. A full channel makes an op of the send.
unfoldable pub send_chunk : ℕ → TrySend → Option Reactor → Option Reactor × ℤ
unfolding as_i64
send_chunk id try none = (none, negsuc 0)
send_chunk id sent_now (some r) = (some r, if stream_sender r id then pos 0 else negsuc 0)
send_chunk id channel_closed (some r) = (some r, negsuc 0)
send_chunk id channel_full (some r) =
    let (after, op) = submit r custom in
    if stream_sender r id then (some after, as_i64 op) else (some r, negsuc 0)

-- The keys and the values of an array of headers. A value of any other type is `unsupported`, and an
-- element of a list that is no text is none.
pub data Key : Type 0 where
  named : Bytes → Key
  indexed : ℕ → Key

pub data Value : Type 0 where
  text : Bytes → Value
  many : List (Option Bytes) → Value
  unsupported : Value

abbrev pub Table : Type 0
Table = List (Key × Value)

unfoldable pub push_each_value :
    (lossy : Bytes → Bytes) → (name : Bytes) → List (Option Bytes) → List (Bytes × Bytes)
push_each_value lossy name [] = []
push_each_value lossy name (some value ∷ values) =
    (name, lossy value) ∷ push_each_value lossy name values
push_each_value lossy name (none ∷ values) = push_each_value lossy name values

unfoldable pub header_pairs : (lossy : Bytes → Bytes) → Table → List (Bytes × Bytes)
unfolding push_each_value
header_pairs lossy [] = []
header_pairs lossy ((named name, text value) ∷ rest) =
    (lossy name, lossy value) ∷ header_pairs lossy rest
header_pairs lossy ((named name, many values) ∷ rest) =
    push_each_value lossy (lossy name) values ++ header_pairs lossy rest
header_pairs lossy ((named name, unsupported) ∷ rest) = header_pairs lossy rest
header_pairs lossy ((indexed n, value) ∷ rest) = header_pairs lossy rest

abbrev pub same_key : Key → Key → Bool
same_key (named a) (named b) = same_text a b
same_key (indexed a) (indexed b) = a == b
same_key (named a) (indexed b) = false
same_key (indexed a) (named b) = false

-- An entry is replaced where it stands, or added at the end.
unfoldable pub add_assoc : Key → Value → Table → Table
add_assoc key value [] = (key, value) ∷ []
add_assoc key value ((k, v) ∷ rest) =
    let added = add_assoc key value rest in
    if same_key k key then (key, value) ∷ rest else (k, v) ∷ added

-- The loop over the headers of a request.
unfoldable pub add_headers : (key_of : Bytes → Key) → List (Bytes × Bytes) → Table → Table
unfolding add_assoc
add_headers key_of [] table = table
add_headers key_of ((name, value) ∷ headers) table =
    add_headers key_of headers (add_assoc (key_of name) (text value) table)

pub record RequestArray : Type 0 where
  pub method : Bytes
  pub uri : Bytes
  pub headers : Table
  pub body : Bytes

unfoldable pub request_to_zval : (key_of : Bytes → Key) → HttpRequest → RequestArray
unfolding add_headers
request_to_zval key_of req = record {
  method = req.method;
  uri = req.uri;
  headers = add_headers key_of req.headers [];
  body = req.body;
}

-- An element of the array that `ignis_poll` returns, under the id of its op.
pub data Item : Type 0 where
  late : ℤ → Item
  one : Item
  payload : Bytes → Item
  null : Item
  failure : Bytes → Item
  cancel : (age_us : ℤ) → Item
  event : RequestArray → Item

-- None means no limit.
unfoldable pub poll_timeout_us : ℤ → Option ℕ
poll_timeout_us (pos ms) = some (ms * 1000)
poll_timeout_us (negsuc n) = none

-- `now`: the clock when an id's cancellation is read.
abbrev pub item_of : (key_of : Bytes → Key) → (now : ℕ → ℕ) → ℕ → Outcome → Option Item
item_of key_of now id (slept late_us) = some (late (as_i64 late_us))
item_of key_of now id ready = some one
item_of key_of now id (json bytes) = some (payload bytes)
item_of key_of now id (blob (some bytes)) = some (payload bytes)
item_of key_of now id (blob none) = some null
item_of key_of now id (failed bytes) = some (failure bytes)
item_of key_of now id (cancelled dropped_at) = some (cancel (as_i64 (now id - dropped_at)))
item_of key_of now id (request req) = some (event (request_to_zval key_of req))
item_of key_of now id (error bytes) = none

-- Whether the outcome is for a fiber that is parked in C, if there is one.
abbrev pub is_for_fiber : Outcome → Bool
is_for_fiber (slept late_us) = true
is_for_fiber ready = true
is_for_fiber (error bytes) = true
is_for_fiber (json bytes) = false
is_for_fiber (blob bytes) = false
is_for_fiber (failed bytes) = false
is_for_fiber (cancelled dropped_at) = false
is_for_fiber (request req) = false

abbrev pub add_item : Option Item → ℕ → List (ℕ × Item) → List (ℕ × Item)
add_item none id items = items
add_item (some item) id items = insert id item items

-- The loop over a batch: the tables of parked fibers, the array, and the fibers that were resumed, each
-- with its op. `runs`: what a fiber that is resumed does to the tables before it suspends again.
unfoldable pub hand_out :
    (key_of : Bytes → Key)
    → (now : ℕ → ℕ) → (runs : ℕ → Parked → Parked) → List Completion
    → Parked
    → List (ℕ × Item)
    → Parked × List (ℕ × Item) × List (ℕ × ℕ)
hand_out key_of now runs [] parked items = (parked, items, [])
hand_out key_of now runs (c ∷ batch) parked items =
    let (woken, fiber) = resume_parked c.id c.outcome parked in
    let kept =
      hand_out key_of now runs batch parked
        (add_item (item_of key_of now c.id c.outcome) c.id items) in
    if is_for_fiber c.outcome
    then elim fiber [
      | some f ↦
          let (last, out, more) = hand_out key_of now runs batch (runs f woken) items in
          (last, out, (c.id, f) ∷ more)
      | none ↦ kept
    ]
    else kept

-- The poll of the reactor, and the batch handed out; none where the thread sleeps on.
unfoldable pub poll_and_hand_out :
    (key_of : Bytes → Key)
    → (now : ℕ → ℕ) → (runs : ℕ → Parked → Parked) → (timeout_ms : ℤ) → Wait
    → Reactor
    → Parked
    → Option (Reactor × Parked × List (ℕ × Item) × List (ℕ × ℕ))
unfolding hand_out poll_timeout_us
poll_and_hand_out key_of now runs timeout_ms w r parked =
    elim (poll r (poll_timeout_us timeout_ms) w) [
      | blocked after ↦ none
      | returned after batch ↦
          let (last, out, resumed) = hand_out key_of now runs batch parked [] in
          some (after, last, out, resumed)
    ]

-- What PHP publishes: the integers under names, the others are passed over.
unfoldable pub publish_stats : List (Key × Option ℤ) → (now_ms : ℕ) → Published → Published
publish_stats [] now_ms p = stamp p now_ms
publish_stats ((named name, some value) ∷ rest) now_ms p =
    publish_stats rest now_ms (set p name (not_negative value))
publish_stats ((named name, none) ∷ rest) now_ms p = publish_stats rest now_ms p
publish_stats ((indexed n, value) ∷ rest) now_ms p = publish_stats rest now_ms p
