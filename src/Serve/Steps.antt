-- ===== src/Serve/Steps.antt =====
-- crates/ignis/src/http.rs over reactor.rs: an exchange through any steps.
use ignis.Shared.{
  ℕ, ◌+◌, ◌≤◌, ◌<◌, ◌≡◌, ◌≢◌, refl, sym, ap, subst, ◌∙◌, ◌⊎◌, inl, inr, Bool, true, false, List, [],
  ◌∷◌, Option, none, some, Bytes, length, lookup, arith, u64_mod, Bool-cases, Option-cases, codes,
  same_text,
}
use ignis.Reactor.{Answer, whole, streaming, grpc, HttpRequest, Reactor}
use ignis.Reactor.Answers.{deliver_request_with_id, cancel_request, drop_receiver, stream_sender}
use ignis.Reactor.Counters.{next_id-apply}
use ignis.Reactor.Calls.{apply, delivers}
use ignis.Reactor.Answers.Invariant.{Inv, apply-Inv}
use ignis.Reactor.Answers.Transitions.{next_state, apply-next_state}
use ignis.Serve.{
  CancelOnDrop, drop_guard, plain, channel_body, Exchange, waiting, sending, over, Event,
  polls_request, polls_body, hangs_up, Move, calls, moves, run, happen, answer, php_response,
  poll_request, poll_frame, drop_exchange, handle, handle_php, Handled, awaits, Collected,
  whole_body, length_limit, broken, collect_body, health_report, metrics_report, grpc_call, refused,
}
use ignis.Serve.Kept.{Kept, call-Owes, cancel-next_id, leave-next_id, guard-Kept, left-Kept}
use ignis.Serve.Answered.{true_not_false, poll_request-Kept}

pub guard-next_id :
    (guard : CancelOnDrop) (now : ℕ) (r : Reactor) → (drop_guard guard now r).next_id ≡ r.next_id
unfolding drop_guard
guard-next_id guard now r = ground (arith, cancel-next_id r guard.id now)

pub drop_exchange-Kept :
    (id now : ℕ) (exchange : Exchange) (r : Reactor)
    → r.next_id + 1 < u64_mod
    → Kept id (r, exchange)
    → Kept id (drop_exchange now exchange r, over)
unfolding drop_exchange
drop_exchange-Kept id now (waiting guard) r l k =
    let (i, a, n) = k.owes in
    left-Kept id guard.id (drop_guard guard now r) (omega (arith, l, guard-next_id guard now r))
      (guard-Kept id now guard r l k.inv k.given i (λ y. elim (true_not_false (sym y ∙ a)) [ ]))
drop_exchange-Kept id now (sending (plain bytes)) r l k = record {
  inv = k.inv;
  given = k.given;
  owes = k.owes;
}
drop_exchange-Kept id now (sending (channel_body guard)) r l k =
    let (i, n, m, done) = k.owes in guard-Kept id now guard r l k.inv k.given i done
drop_exchange-Kept id now over r l k = k

pub no_sender :
    (id : ℕ) (r : Reactor)
    → lookup id r.answers ≢ some grpc
    → lookup id r.answers ≢ some whole
    → stream_sender r id ≡ false
    → lookup id r.answers ≡ none
unfolding stream_sender
no_sender id r n m z = elim (Option-cases (lookup id r.answers)) [
  | inl q ↦ q
  | inr (whole, q) ↦ elim (m q) [ ]
  | inr (streaming, q) ↦ ground (arith, q, z)
  | inr (grpc, q) ↦ elim (n q) [ ]
]

pub poll_frame-Kept :
    (id : ℕ) (closed : Bool) (guard : CancelOnDrop) (r : Reactor)
    → Kept id (r, sending (channel_body guard))
    → Kept id (r, sending (channel_body (poll_frame closed guard r)))
unfolding poll_frame
poll_frame-Kept id closed guard r k =
    let (i, n, m, done) = k.owes in
    elim (Bool-cases (stream_sender r guard.id)) [
      | inl y ↦ rw (y, poll_frame) k
      | inr z ↦ elim (Bool-cases closed) [
        | inl c ↦
            rw (z, c, poll_frame)
              (record {
                inv = k.inv;
                given = k.given;
                owes = (i, n, m, λ _. no_sender id r n m (ap (stream_sender r) (sym i) ∙ z));
              })
        | inr c ↦ rw (z, c, poll_frame) k
      ]
    ]

pub happen-Kept :
    (id : ℕ) (event : Event) (now : ℕ) (w : Reactor × Exchange)
    → w.0.next_id + 1 < u64_mod
    → Kept id w
    → Kept id (happen event now w)
unfolding happen
happen-Kept id (polls_request valid) now (r, waiting guard) l k =
    poll_request-Kept id now valid guard r l k
happen-Kept id (polls_request valid) now (r, sending body) l k = k
happen-Kept id (polls_request valid) now (r, over) l k = k
happen-Kept id (polls_body closed) now (r, waiting guard) l k = k
happen-Kept id (polls_body closed) now (r, sending (plain bytes)) l k = k
happen-Kept id (polls_body closed) now (r, sending (channel_body guard)) l k =
    poll_frame-Kept id closed guard r k
happen-Kept id (polls_body closed) now (r, over) l k = k
happen-Kept id hangs_up now (r, exchange) l k = drop_exchange-Kept id now exchange r l k

pub poll_request-next_id :
    (valid : Bool) (now : ℕ) (guard : CancelOnDrop) (r : Reactor)
    → (poll_request valid now guard r).0.next_id ≡ r.next_id
unfolding poll_request answer php_response drop_guard cancel_request drop_receiver
poll_request-next_id valid now guard r = ground arith

pub happen-next_id :
    (event : Event) (now : ℕ) (w : Reactor × Exchange)
    → (happen event now w).0.next_id ≡ w.0.next_id
unfolding happen poll_request answer php_response drop_exchange
happen-next_id (polls_request valid) now (r, waiting guard) = poll_request-next_id valid now guard r
happen-next_id (polls_request valid) now (r, sending body) = refl
happen-next_id (polls_request valid) now (r, over) = refl
happen-next_id (polls_body closed) now (r, waiting guard) = refl
happen-next_id (polls_body closed) now (r, sending (plain bytes)) = refl
happen-next_id (polls_body closed) now (r, sending (channel_body guard)) = refl
happen-next_id (polls_body closed) now (r, over) = refl
happen-next_id hangs_up now (r, waiting guard) =
    leave-next_id (drop_guard guard now r) guard.id ∙ guard-next_id guard now r
happen-next_id hangs_up now (r, sending (plain bytes)) = refl
happen-next_id hangs_up now (r, sending (channel_body guard)) = guard-next_id guard now r
happen-next_id hangs_up now (r, over) = refl

pub run-Kept :
    (id : ℕ) (steps : List Move) (w : Reactor × Exchange)
    → w.0.next_id + length steps < u64_mod
    → Kept id w
    → Kept id (run steps w)
unfolding run
run-Kept id [] w l k = k
run-Kept id (calls c ∷ rest) (r, exchange) l k =
    let bound : (r.next_id ≤ (apply r c).next_id) × ((apply r c).next_id ≤ r.next_id + 1) =
      next_id-apply r c (omega (arith, l)) in
    run-Kept id rest (apply r c, exchange) (omega (arith, l, bound.1))
      (record {
        inv = apply-Inv r c (omega (arith, l)) k.inv;
        given = omega (arith, k.given, bound.0);
        owes = call-Owes id exchange r c k.inv k.given k.owes;
      })
run-Kept id (moves event now ∷ rest) w l k =
    run-Kept id rest (happen event now w) (omega (arith, l, happen-next_id event now w))
      (happen-Kept id event now w (omega (arith, l)) k)

pub delivered-id :
    (r : Reactor) (req : HttpRequest)
    → r.connected ≡ true
    → (deliver_request_with_id r req).1 ≡ r.next_id
unfolding deliver_request_with_id
delivered-id r req k = ground (arith, k)

pub delivered-whole :
    (r : Reactor) (req : HttpRequest) (j : ℕ)
    → r.connected ≡ true
    → j ≡ r.next_id
    → lookup j (deliver_request_with_id r req).0.answers ≡ some whole
unfolding apply next_state
delivered-whole r req j k i = apply-next_state r (delivers req) j k ∙ ground (arith, i)

pub delivered-next_id :
    (r : Reactor) (req : HttpRequest)
    → r.next_id + 1 < u64_mod
    → r.connected ≡ true
    → (deliver_request_with_id r req).0.next_id ≡ r.next_id + 1
unfolding deliver_request_with_id
delivered-next_id r req l k = ground (arith, l, k)

pub some_apart : ◌≢◌ {A = Option Answer} (some whole) (some grpc)
some_apart e = ground (arith, e)

pub delivered-Kept :
    (r : Reactor) (req : HttpRequest)
    → r.next_id + 1 < u64_mod
    → Inv r
    → let (after, id) = deliver_request_with_id r req in
      Kept id (after, waiting (record { id = id; answered = false }))
unfolding apply
delivered-Kept r req l v = record {
  inv = apply-Inv r (delivers req) l v;
  given = omega (arith, delivered-id r req v.connected, delivered-next_id r req l v.connected);
  owes = (
    refl,
    refl,
    λ e.
        some_apart (sym (delivered-whole r req _ v.connected (delivered-id r req v.connected)) ∙ e),
  );
}

abbrev pub guard_of : CancelOnDrop → Handled → CancelOnDrop
guard_of guard (awaits other) = other
guard_of guard health_report = guard
guard_of guard metrics_report = guard
guard_of guard grpc_call = guard
guard_of guard (refused response) = guard

-- A handler either awaits no answer, or has delivered a request and awaits its answer.
abbrev pub Begins : Reactor → Reactor × Handled → Type 0
Begins r begun =
    ((guard : CancelOnDrop) → begun.1 ≢ awaits guard)
    ⊎ ((req : HttpRequest) × (let (after, id) = deliver_request_with_id r req in
          begun ≡ (after, awaits (record { id = id; answered = false }))))

pub handle_php-Begins :
    (method uri : Bytes) (headers : List (Bytes × Bytes)) (body : Collected) (r : Reactor)
    → Begins r (handle_php method uri headers body r)
unfolding handle_php collect_body
handle_php-Begins method uri headers (whole_body bytes) r = inr (_, refl)
handle_php-Begins method uri headers length_limit r = inl (λ guard e. ground (arith, e))
handle_php-Begins method uri headers broken r = inl (λ guard e. ground (arith, e))

pub handle-Begins :
    (path : Bytes) (is_grpc : Bool) (method uri : Bytes) (headers : List (Bytes × Bytes))
    (body : Collected) (r : Reactor)
    → Begins r (handle path is_grpc method uri headers body r)
unfolding handle
handle-Begins path is_grpc method uri headers body r =
    elim (Bool-cases (same_text path (codes "/_ignis/health"))) [
      | inl y ↦ rw (y, handle) (inl (λ guard e. ground (arith, e)))
      | inr m ↦ elim (Bool-cases (same_text path (codes "/_ignis/metrics"))) [
        | inl y ↦ rw (m, y, handle) (inl (λ guard e. ground (arith, e)))
        | inr n ↦ elim (Bool-cases is_grpc) [
          | inl y ↦ rw (m, n, y, handle) (inl (λ guard e. ground (arith, e)))
          | inr o ↦ rw (m, n, o, handle) (handle_php-Begins method uri headers body r)
        ]
      ]
    ]

pub handle-Kept :
    (path : Bytes) (is_grpc : Bool) (method uri : Bytes) (headers : List (Bytes × Bytes))
    (body : Collected) (r : Reactor) (guard : CancelOnDrop)
    → r.next_id + 1 < u64_mod
    → Inv r
    → (handle path is_grpc method uri headers body r).1 ≡ awaits guard
    → Kept guard.id ((handle path is_grpc method uri headers body r).0, waiting guard)
handle-Kept path is_grpc method uri headers body r guard l v e =
    elim (handle-Begins path is_grpc method uri headers body r) [
      | inl never ↦ elim (never guard e) [ ]
      | inr (req, q) ↦
          let same : guard ≡ record { id = (deliver_request_with_id r req).1; answered = false } =
            ap (guard_of guard) (sym e) ∙ ap (λ (h : Reactor × Handled). guard_of guard h.1) q in
          subst (λ (h : Reactor × Handled). Kept guard.id (h.0, waiting guard)) (sym q)
            (subst (λ (g : CancelOnDrop). Kept g.id ((deliver_request_with_id r req).0, waiting g))
              (sym same) (delivered-Kept r req l v))
    ]
