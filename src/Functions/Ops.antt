-- ===== src/Functions/Ops.antt =====
-- crates/ignis/src/php/module.rs: an id of an op goes to PHP as an integer and comes back.
use ignis.Shared.{
  ℕ, ◌<◌, ◌%◌, ◌≡◌, refl, ap, ◌∙◌, inl, inr, true, false, List, [], ◌∷◌, ◌++◌, Option, none, some,
  ◌==◌, ltb, u64_mod, wrapping_add, arith, Bool-cases,
}
use ignis.Reactor.{Op, watch, cancel_watch, Reactor, submit}
use ignis.Functions.{as_u64, as_i64, long, watch_stream, cancel_op, with_reactor}

as_u64-as_i64 : (n : ℕ) → n < u64_mod → as_u64 (as_i64 n) ≡ n
unfolding as_u64 as_i64
as_u64-as_i64 n l = elim (Bool-cases (ltb (n % u64_mod) 9223372036854775808)) [
  | inl y ↦ rw (y, as_i64) (omega (arith, l))
  | inr z ↦ rw (z, as_i64) (omega (arith, l))
]

-- What the thread has asked of its dispatcher.
abbrev pub queued : Option Reactor → List (ℕ × Op)
queued none = []
queued (some r) = r.to_tokio

submitted_op :
    (r : Reactor) (op : Op)
    → r.dispatcher_alive ≡ true
    → ((submit r op).0.to_tokio ≡ r.to_tokio ++ (r.next_id, op) ∷ [])
      × ((submit r op).1 ≡ r.next_id)
      × ((submit r op).0.next_id ≡ wrapping_add r.next_id 1)
      × ((submit r op).0.dispatcher_alive ≡ true)
unfolding submit
submitted_op r op a = ground (arith, a)

-- Where the dispatcher lives, and the descriptor of a stream is not ready: a watch answers the integer
-- of its op's id, be it one above those of an `i64`, and a cancel that is given this integer asks the
-- dispatcher to cancel this op and no other, after the watch.
pub cancel_names_watch :
    (fd mode : ℕ) (r : Reactor)
    → r.dispatcher_alive ≡ true
    → r.next_id < u64_mod
    → let (after, answered) = watch_stream (some fd) mode false (some r) in
      (answered ≡ long (as_i64 r.next_id))
      × (queued (cancel_op (as_i64 r.next_id) after).0
          ≡ queued after ++ (wrapping_add r.next_id 1, cancel_watch r.next_id) ∷ [])
      × (queued after ≡ r.to_tokio ++ (r.next_id, watch fd (mode == 2)) ∷ [])
unfolding watch_stream cancel_op with_reactor
cancel_names_watch fd mode r a l =
    let (queue, id, next, alive) = submitted_op r (watch fd (mode == 2)) a in
    let (after, _, _, _) =
      submitted_op (submit r (watch fd (mode == 2))).0 (cancel_watch (as_u64 (as_i64 r.next_id)))
        alive in
    (
      ap (λ (i : ℕ). long (as_i64 i)) id,
      after
          ∙ ap (λ (e : ℕ × Op). (submit r (watch fd (mode == 2))).0.to_tokio ++ e ∷ [])
              (rw (next, as_u64-as_i64 r.next_id l) refl),
      queue,
    )
