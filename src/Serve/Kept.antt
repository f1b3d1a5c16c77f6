-- ===== src/Serve/Kept.antt =====
-- crates/ignis/src/http.rs over reactor.rs: what is kept of what the reactor owes to an exchange.
use ignis.Shared.{
  ℕ, ◌+◌, ◌<◌, ◌≡◌, ◌≢◌, refl, sym, ap, ◌∙◌, inl, inr, true, false, Option, none, some, Bytes,
  lookup, arith, u64_mod, Bool-cases,
}
use ignis.Reactor.{Answer, whole, streaming, grpc, Reactor}
use ignis.Reactor.Answers.{cancel_request, drop_receiver}
use ignis.Reactor.Calls.{Call, apply, delivers, delivers_stream, cancels, leaves}
use ignis.Reactor.Answers.Invariant.{Inv, apply-Inv}
use ignis.Reactor.Answers.Transitions.{next_state, apply-next_state}
use ignis.Reactor.Answers.Lifecycle.{next_state-none}
use ignis.Serve.{CancelOnDrop, drop_guard, plain, channel_body, Exchange, waiting, sending, over}

-- What the reactor may owe to the request while the exchange stands here.
abbrev pub Owes : ℕ → Exchange → Reactor → Type 0
Owes id (waiting guard) r =
    (guard.id ≡ id) × (guard.answered ≡ false) × (lookup id r.answers ≢ some grpc)
Owes id (sending (plain bytes)) r = lookup id r.answers ≡ none
Owes id (sending (channel_body guard)) r =
    (guard.id ≡ id)
    × (lookup id r.answers ≢ some grpc)
    × (lookup id r.answers ≢ some whole)
    × (guard.answered ≡ true → lookup id r.answers ≡ none)
Owes id over r = lookup id r.answers ≡ none

pub record Kept (id : ℕ) (w : Reactor × Exchange) : Type 0 where
  pub inv : Inv w.0
  pub given : id < w.0.next_id
  pub owes : Owes id w.1 w.0

pub absurd_none : {a : Answer} → ◌≢◌ {A = Option Answer} none (some a)
absurd_none e = ground (arith, e)

pub next_state-not_grpc :
    (r : Reactor) (c : Call) (j : ℕ) (s : Option Answer)
    → j < r.next_id
    → s ≢ some grpc
    → next_state r c j s ≢ some grpc
unfolding next_state
next_state-not_grpc r c j none l n e = elim (absurd_none (sym (next_state-none r c j l) ∙ e)) [ ]
next_state-not_grpc r c j (some grpc) l n e = n refl
next_state-not_grpc r (delivers_stream req) j (some whole) l n e = ground (arith, e, l)
next_state-not_grpc r (delivers_stream req) j (some streaming) l n e = ground (arith, e, l)
next_state-not_grpc r _ j (some whole) l n e = ground (arith, e, l)
next_state-not_grpc r _ j (some streaming) l n e = ground (arith, e, l)

pub next_state-not_whole :
    (r : Reactor) (c : Call) (j : ℕ) (s : Option Answer)
    → j < r.next_id
    → s ≢ some whole
    → next_state r c j s ≢ some whole
unfolding next_state
next_state-not_whole r c j none l n e = elim (absurd_none (sym (next_state-none r c j l) ∙ e)) [ ]
next_state-not_whole r c j (some whole) l n e = n refl
next_state-not_whole r (delivers req) j (some grpc) l n e = ground (arith, e, l)
next_state-not_whole r (delivers req) j (some streaming) l n e = ground (arith, e, l)
next_state-not_whole r _ j (some grpc) l n e = ground (arith, e, l)
next_state-not_whole r _ j (some streaming) l n e = ground (arith, e, l)

pub call-none :
    (id : ℕ) (r : Reactor) (c : Call)
    → Inv r
    → id < r.next_id
    → lookup id r.answers ≡ none
    → lookup id (apply r c).answers ≡ none
call-none id r c v l e = apply-next_state r c id v.connected ∙ rw e (next_state-none r c id l)

pub call-Owes :
    (id : ℕ) (exchange : Exchange) (r : Reactor) (c : Call)
    → Inv r
    → id < r.next_id
    → Owes id exchange r
    → Owes id exchange (apply r c)
call-Owes id (waiting guard) r c v l (i, a, n) = (
  i,
  a,
  λ e.
      next_state-not_grpc r c id (lookup id r.answers) l n
        (sym (apply-next_state r c id v.connected) ∙ e),
)
call-Owes id (sending (plain bytes)) r c v l e = call-none id r c v l e
call-Owes id (sending (channel_body guard)) r c v l (i, n, m, a) = (
  i,
  λ e.
      next_state-not_grpc r c id (lookup id r.answers) l n
        (sym (apply-next_state r c id v.connected) ∙ e),
  λ e.
      next_state-not_whole r c id (lookup id r.answers) l m
        (sym (apply-next_state r c id v.connected) ∙ e),
  λ e. call-none id r c v l (a e),
)
call-Owes id over r c v l e = call-none id r c v l e

pub cancel-Inv :
    (r : Reactor) (id now : ℕ) → r.next_id + 1 < u64_mod → Inv r → Inv (cancel_request r id now)
unfolding apply
cancel-Inv r id now l v = apply-Inv r (cancels id now) l v

pub leave-Inv : (r : Reactor) (id : ℕ) → r.next_id + 1 < u64_mod → Inv r → Inv (drop_receiver r id)
unfolding apply
leave-Inv r id l v = apply-Inv r (leaves id) l v

pub cancel-next_id : (r : Reactor) (id now : ℕ) → (cancel_request r id now).next_id ≡ r.next_id
unfolding cancel_request
cancel-next_id r id now = ground arith

pub leave-next_id : (r : Reactor) (id : ℕ) → (drop_receiver r id).next_id ≡ r.next_id
unfolding drop_receiver
leave-next_id r id = refl

pub leave-answers : (r : Reactor) (id : ℕ) → (drop_receiver r id).answers ≡ r.answers
unfolding drop_receiver
leave-answers r id = refl

pub cancel-none :
    (r : Reactor) (id now : ℕ)
    → r.connected ≡ true
    → lookup id (cancel_request r id now).answers ≡ none
unfolding apply next_state
cancel-none r id now k = apply-next_state r (cancels id now) id k ∙ ground arith

-- The reactor after a guard is dropped.
pub guard-Kept :
    (id now : ℕ) (guard : CancelOnDrop) (r : Reactor)
    → r.next_id + 1 < u64_mod
    → Inv r
    → id < r.next_id
    → guard.id ≡ id
    → (guard.answered ≡ true → lookup id r.answers ≡ none)
    → Kept id (drop_guard guard now r, over)
unfolding drop_guard
guard-Kept id now guard r l v g i a = elim (Bool-cases guard.answered) [
  | inl y ↦ rw (y, drop_guard) (record { inv = v; given = g; owes = a y })
  | inr z ↦
      rw (z, i, drop_guard)
        (record {
          inv = cancel-Inv r id now l v;
          given = omega (arith, g, cancel-next_id r id now);
          owes = cancel-none r id now v.connected;
        })
]

pub left-Kept :
    (id j : ℕ) (r : Reactor)
    → r.next_id + 1 < u64_mod
    → Kept id (r, over)
    → Kept id (drop_receiver r j, over)
left-Kept id j r l k = record {
  inv = leave-Inv r j l k.inv;
  given = omega (arith, k.given, leave-next_id r j);
  owes = ap (lookup id) (leave-answers r j) ∙ k.owes;
}

-- A body that owes nothing stands like an exchange that is over.
pub plain-Kept :
    (id : ℕ) (bytes : Bytes) (r : Reactor) → Kept id (r, over) → Kept id (r, sending (plain bytes))
plain-Kept id bytes r k = record { inv = k.inv; given = k.given; owes = k.owes }
