-- ===== src/Output/Push.antt =====
-- crates/ignis/src/php/output.rs, `Bound::push`: a frame to the client of one response, and what
-- another response sees of it.
use ignis.Shared.{
  ℕ, ◌≡◌, ◌≢◌, refl, sym, ap, subst, ◌∙◌, ◌⊎◌, inl, inr, true, false, List, [], ◌∷◌, ◌++◌, some,
  Bytes, ◌==◌, if◌then◌else◌, lookup, remove, lookup-insert, lookup-remove, arith, Bool-cases,
  ==_refl,
}
use mathlib.Core.List.{append-nil, append_assoc}
use ignis.Reactor.{Reactor, whole, streaming, grpc}
use ignis.Reactor.Answers.{respond_start, stream_sender}
use ignis.Output.{Output, Bound, Room, takes, full_up, gone, push, send_frame}

-- The bytes that the channel of a response took, in order.
abbrev pub sent : ℕ → List (ℕ × Bytes) → Bytes
sent id [] = []
sent id ((j, frame) ∷ frames) = let rest = sent id frames in if j == id then frame ++ rest else rest

-- The response can be begun, or is being streamed.
abbrev pub IsOpen : Reactor → Bound → Type 0
IsOpen r b =
    ((b.started ≡ true) × (lookup b.id r.answers ≡ some streaming))
    ⊎ ((b.started ≡ false)
        × (lookup b.id r.answers ≡ some whole)
        × ((r.channels b.id).receiver_alive ≡ true))

sent-append : (id : ℕ) (xs ys : List (ℕ × Bytes)) → sent id (xs ++ ys) ≡ sent id xs ++ sent id ys
sent-append id [] ys = refl
sent-append id ((j, frame) ∷ xs) ys = elim (Bool-cases (j == id)) [
  | inl y ↦
      rw (y, sent)
        (ap (λ (r : Bytes). frame ++ r) (sent-append id xs ys)
          ∙ sym (append_assoc frame (sent id xs) (sent id ys)))
  | inr n ↦ rw (n, sent) (sent-append id xs ys)
]

start_opens :
    (r : Reactor) (id code : ℕ) (headers : List (Bytes × Bytes)) (chunks : ℕ)
    → lookup id r.answers ≡ some whole
    → (r.channels id).receiver_alive ≡ true
    → ((respond_start r id code headers chunks).1 ≡ true)
      × (lookup id (respond_start r id code headers chunks).0.answers ≡ some streaming)
unfolding respond_start
start_opens r id code headers chunks e a =
    ground (arith, e, a, lookup-insert id id streaming (remove id r.answers))

-- What a push comes to where the response is open.
push_streaming :
    (chunks : ℕ) (b : Bound) (frame : Bytes) (room : Room) (o : Output)
    → b.started ≡ true
    → lookup b.id o.reactor.answers ≡ some streaming
    → push chunks b frame room o
      ≡ ((send_frame b.id frame room o).0, b, (send_frame b.id frame room o).1)
unfolding push stream_sender
push_streaming chunks b frame room o s e = rw (s, e, push, stream_sender) refl

push_begins :
    (chunks : ℕ) (b : Bound) (frame : Bytes) (room : Room) (o : Output)
    → b.started ≡ false
    → lookup b.id o.reactor.answers ≡ some whole
    → (o.reactor.channels b.id).receiver_alive ≡ true
    → let opened = record o {
      reactor = (respond_start o.reactor b.id b.status b.headers chunks).0;
    } in
      push chunks b frame room o ≡ (
        (send_frame b.id frame room opened).0,
        record b { headers = []; started = true },
        (send_frame b.id frame room opened).1,
      )
unfolding push stream_sender
push_begins chunks b frame room o s e a =
    let (ok, open_now) = start_opens o.reactor b.id b.status b.headers chunks e a in
    rw (s, ok, open_now, push, stream_sender) refl

pub sent_one : (id : ℕ) (frame : Bytes) → sent id ((id, frame) ∷ []) ≡ frame
sent_one id frame = rw (==_refl id, sent) (append-nil frame)

-- Whatever the channel answers, but that the client has gone: the frame is sent or given back.
pub send_frame-sent :
    (id : ℕ) (frame : Bytes) (room : Room) (o : Output)
    → room ≢ gone
    → sent id (send_frame id frame room o).0.frames ++ (send_frame id frame room o).1
      ≡ sent id o.frames ++ frame
send_frame-sent id frame takes o k =
    append-nil (sent id (o.frames ++ (id, frame) ∷ []))
    ∙ (sent-append id o.frames ((id, frame) ∷ [])
        ∙ ap (λ (r : Bytes). sent id o.frames ++ r) (sent_one id frame))
send_frame-sent id frame full_up o k = refl
send_frame-sent id frame gone o k = elim (k refl) [ ]

pub send_frame-kept :
    (id : ℕ) (frame : Bytes) (room : Room) (o : Output)
    → ((send_frame id frame room o).0.reactor ≡ o.reactor)
      × ((send_frame id frame room o).0.bound ≡ o.bound)
send_frame-kept id frame takes o = (refl, refl)
send_frame-kept id frame full_up o = (refl, refl)
send_frame-kept id frame gone o = (refl, refl)

pub send_frame-other :
    (id j : ℕ) (frame : Bytes) (room : Room) (o : Output)
    → j ≢ id
    → sent id (send_frame j frame room o).0.frames ≡ sent id o.frames
send_frame-other id j frame takes o n =
    sent-append id o.frames ((j, frame) ∷ []) ∙ ground (arith, n, append-nil (sent id o.frames))
send_frame-other id j frame full_up o n = refl
send_frame-other id j frame gone o n = refl

-- A push to a response that is open, with its client there.
pub record Pushed (o : Output) (b : Bound) (frame : Bytes) (p : Output × Bound × Bytes)
    : Type 0 where
  pub bytes : sent b.id p.0.frames ++ p.2 ≡ sent b.id o.frames ++ frame
  pub same_id : p.1.id ≡ b.id
  pub still_open : IsOpen p.0.reactor p.1
  pub kept : p.0.bound ≡ o.bound

pub push-Pushed :
    (chunks : ℕ) (b : Bound) (frame : Bytes) (room : Room) (o : Output)
    → IsOpen o.reactor b
    → room ≢ gone
    → Pushed o b frame (push chunks b frame room o)
push-Pushed chunks b frame room o (inl (st, e)) k =
    let (r, q) = send_frame-kept b.id frame room o in
    subst (Pushed o b frame) (sym (push_streaming chunks b frame room o st e)) (record {
      bytes = send_frame-sent b.id frame room o k;
      same_id = refl;
      still_open = inl (st, ap (λ (r : Reactor). lookup b.id r.answers) r ∙ e);
      kept = q;
    })
push-Pushed chunks b frame room o (inr (st, e, a)) k =
    let opened : Output = record o {
      reactor = (respond_start o.reactor b.id b.status b.headers chunks).0;
    } in
    let (ok, open_now) = start_opens o.reactor b.id b.status b.headers chunks e a in
    let (r, q) = send_frame-kept b.id frame room opened in
    subst (Pushed o b frame) (sym (push_begins chunks b frame room o st e a)) (record {
      bytes = send_frame-sent b.id frame room opened k;
      same_id = refl;
      still_open = inl (refl, ap (λ (r : Reactor). lookup b.id r.answers) r ∙ open_now);
      kept = q;
    })

-- The response is being streamed then.
pub push-sender :
    (chunks : ℕ) (b : Bound) (frame : Bytes) (room : Room) (o : Output)
    → IsOpen o.reactor b
    → stream_sender (push chunks b frame room o).0.reactor b.id ≡ true
unfolding stream_sender
push-sender chunks b frame room o (inl (st, e)) =
    let (r, q) = send_frame-kept b.id frame room o in
    rw (push_streaming chunks b frame room o st e, r, e, stream_sender) refl
push-sender chunks b frame room o (inr (st, e, a)) =
    let opened : Output = record o {
      reactor = (respond_start o.reactor b.id b.status b.headers chunks).0;
    } in
    let (ok, open_now) = start_opens o.reactor b.id b.status b.headers chunks e a in
    let (r, q) = send_frame-kept b.id frame room opened in
    rw (push_begins chunks b frame room o st e a, r, open_now, stream_sender) refl

-- What a push to the response `j` leaves of another, whatever becomes of it.
pub record Beside (id j : ℕ) (o : Output) (p : Output × Bound × Bytes) : Type 0 where
  pub frames : sent id p.0.frames ≡ sent id o.frames
  pub answer : lookup id p.0.reactor.answers ≡ lookup id o.reactor.answers
  pub channel : p.0.reactor.channels id ≡ o.reactor.channels id
  pub own_id : p.1.id ≡ j
  pub own_bound : p.0.bound ≡ o.bound

start-Beside :
    (r : Reactor) (id j code : ℕ) (headers : List (Bytes × Bytes)) (chunks : ℕ)
    → j ≢ id
    → (lookup id (respond_start r j code headers chunks).0.answers ≡ lookup id r.answers)
      × ((respond_start r j code headers chunks).0.channels id ≡ r.channels id)
unfolding respond_start
start-Beside r id j code headers chunks n = (
  ground (
    arith,
    n,
    lookup-remove j id r.answers,
    lookup-insert j id streaming (remove j r.answers),
    lookup-insert j id grpc (remove j r.answers),
  ),
  ground (arith, n),
)

send_frame-Beside :
    (id : ℕ) (b c : Bound) (frame : Bytes) (room : Room) (o : Output)
    → b.id ≢ id
    → c.id ≡ b.id
    → Beside id b.id o ((send_frame b.id frame room o).0, c, (send_frame b.id frame room o).1)
send_frame-Beside id b c frame room o n e =
    let (r, q) = send_frame-kept b.id frame room o in
    record {
      frames = send_frame-other id b.id frame room o n;
      answer = ap (λ (r : Reactor). lookup id r.answers) r;
      channel = ap (λ (r : Reactor). r.channels id) r;
      own_id = e;
      own_bound = q;
    }

begun-Beside :
    (id chunks : ℕ) (b : Bound) (o : Output) (p : Output × Bound × Bytes)
    → b.id ≢ id
    → let opened = record o {
      reactor = (respond_start o.reactor b.id b.status b.headers chunks).0;
    } in
      Beside id b.id opened p → Beside id b.id o p
begun-Beside id chunks b o p n h =
    let (a, c) = start-Beside o.reactor id b.id b.status b.headers chunks n in
    record {
      frames = h.frames;
      answer = h.answer ∙ a;
      channel = h.channel ∙ c;
      own_id = h.own_id;
      own_bound = h.own_bound;
    }

pub still-Beside :
    (id : ℕ) (b c : Bound) (back : Bytes) (o : Output) → c.id ≡ b.id → Beside id b.id o (o, c, back)
still-Beside id b c back o e = record {
  frames = refl;
  answer = refl;
  channel = refl;
  own_id = e;
  own_bound = refl;
}

pub push-Beside :
    (id chunks : ℕ) (b : Bound) (frame : Bytes) (room : Room) (o : Output)
    → b.id ≢ id
    → Beside id b.id o (push chunks b frame room o)
unfolding push
push-Beside id chunks b frame room o n =
    let opened : Output = record o {
      reactor = (respond_start o.reactor b.id b.status b.headers chunks).0;
    } in
    elim (Bool-cases b.started) [
      | inl st ↦ elim (Bool-cases (stream_sender o.reactor b.id)) [
        | inl y ↦
            rw (st, y, push)
              (send_frame-Beside id b (record b { started = true }) frame room o n refl)
        | inr z ↦ rw (st, z, push) (still-Beside id b (record b { started = true }) [] o refl)
      ]
      | inr st ↦ elim (Bool-cases (respond_start o.reactor b.id b.status b.headers chunks).1) [
        | inr z ↦
            rw (st, z, push)
              (begun-Beside id chunks b o (opened, record b { headers = []; started = false }, []) n
                (still-Beside id b (record b { headers = []; started = false }) [] opened refl))
        | inl y ↦ elim (Bool-cases (stream_sender opened.reactor b.id)) [
          | inl w ↦
              rw (st, y, w, push)
                (begun-Beside id chunks b o
                  (
                    (send_frame b.id frame room opened).0,
                    record b { headers = []; started = true },
                    (send_frame b.id frame room opened).1,
                  )
                  n
                  (send_frame-Beside id b (record b { headers = []; started = true }) frame room
                    opened n refl))
          | inr w ↦
              rw (st, y, w, push)
                (begun-Beside id chunks b o (opened, record b { headers = []; started = true }, [])
                  n (still-Beside id b (record b { headers = []; started = true }) [] opened refl))
        ]
      ]
    ]
