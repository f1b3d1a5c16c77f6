-- ===== src/Reactor/Answers/Pending.antt =====
-- crates/ignis/src/reactor.rs, `pending_requests`: the length of the map against a count over ids.
use ignis.Shared.{
  ℕ, zero, suc, ◌+◌, ◌<◌, ◌≤◌, ◌≡◌, refl, sym, fun_ext, ap, ◌∙◌, List, [], ◌∷◌, Option, none, some,
  Bytes, arith, length, lookup, lookup-insert, lookup-remove_self, remove, length-remove,
  length-insert_new, remove-Absent, if◌then◌else◌, UniqueKeys, KeysBelow, Absent, lookup-of_Absent,
  u64_mod,
}
use ignis.Reactor.{Answer, whole, streaming, Reactor}
use ignis.Reactor.Answers.{pending_requests, respond_start}
use ignis.Reactor.Calls.{Call, apply}
use ignis.Reactor.Answers.Invariant.{Inv, apply-Inv}
use ignis.Reactor.Answers.Transitions.{next_state, apply-next_state}

abbrev pub owes : Option Answer → ℕ
owes none = 0
owes (some a) = 1

-- How many of the ids below `n` owe an answer of any kind.
pub owing : ℕ → (ℕ → Option Answer) → ℕ
owing zero f = 0
owing (suc n) f = owes (f n) + owing n f

owing-nothing : (n : ℕ) → owing n (λ i. lookup i []) ≡ 0
unfolding owing lookup
owing-nothing zero = refl
owing-nothing (suc n) = omega (arith, owing-nothing n)

owing-cons_above :
    (n j : ℕ) (a : Answer) (m : List (ℕ × Answer))
    → n ≤ j
    → owing n (λ i. lookup i ((j, a) ∷ m)) ≡ owing n (λ i. lookup i m)
unfolding owing lookup
owing-cons_above zero j a m l = refl
owing-cons_above (suc n) j a m l = ground (arith, owing-cons_above n j a m (omega arith))

owing-cons :
    (n j : ℕ) (a : Answer) (m : List (ℕ × Answer))
    → j < n
    → Absent j m
    → owing n (λ i. lookup i ((j, a) ∷ m)) ≡ suc (owing n (λ i. lookup i m))
unfolding owing lookup
owing-cons zero j a m l h = elim l [ ]
owing-cons (suc n) j a m l h =
    ground (arith, owing-cons_above n j a m, owing-cons n j a m, lookup-of_Absent j m h)

length-owing :
    (n : ℕ) (m : List (ℕ × Answer))
    → UniqueKeys m
    → KeysBelow n m
    → length m ≡ owing n (λ i. lookup i m)
length-owing n [] u k = rw (owing-nothing n)
length-owing n ((j, a) ∷ m) u k =
    ap suc (length-owing n m u.1 k.1) ∙ sym (owing-cons n j a m k.0 u.0)

-- The map's length counts each id that was given out and owes an answer, in whichever state, once.
pending-owing :
    (r : Reactor) → Inv r → pending_requests r ≡ owing r.next_id (λ i. lookup i r.answers)
unfolding pending_requests
pending-owing r v = length-owing r.next_id r.answers v.unique v.given_out

-- In a well-formed reactor with an id left to give out: after any call the number of pending
-- requests is the number of ids that the protocol leaves owing an answer of some kind.
pub pending-apply :
    (r : Reactor) (c : Call)
    → r.next_id + 1 < u64_mod
    → Inv r
    → pending_requests (apply r c)
      ≡ owing (apply r c).next_id (λ i. next_state r c i (lookup i r.answers))
pending-apply r c l v =
    pending-owing (apply r c) (apply-Inv r c l v)
    ∙ ap (owing (apply r c).next_id) (fun_ext (λ i. apply-next_state r c i v.connected))

-- In a well-formed reactor, for a request that is owed a response: `respond_start` succeeds exactly
-- if the client is there. Then the request is streaming and still pending, and else it is removed
-- and the number of pending requests falls by one.
pub respond_start-pending :
    (r : Reactor) (id code : ℕ) (headers : List (Bytes × Bytes)) (bound : ℕ)
    → Inv r
    → lookup id r.answers ≡ some whole
    → let (s, begun) = respond_start r id code headers bound in
      (pending_requests s + 1 ≡ pending_requests r + (if begun then 1 else 0))
      × (begun ≡ (r.channels id).receiver_alive)
      × (lookup id s.answers ≡ (if begun then some streaming else none))
unfolding pending_requests respond_start
respond_start-pending r id code headers bound v e = ground (
  arith,
  length-remove id whole r.answers v.unique e,
  lookup-remove_self id r.answers,
  lookup-insert id id streaming (remove id r.answers),
  length-insert_new id streaming (remove id r.answers) (remove-Absent id r.answers),
)
