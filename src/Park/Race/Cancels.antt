-- ===== src/Park/Race/Cancels.antt =====
-- crates/ignis/src/php/park.rs, `park_pollfds`: what becomes of the ops of a race.
use ignis.Shared.{
  ℕ, suc, ◌+◌, ◌*◌, ◌<◌, ◌≡◌, refl, sym, ap, ◌∙◌, inl, inr, true, false, List, [], ◌∷◌, ◌++◌, none,
  some, ◌==◌, if◌then◌else◌, arith, length, u64_mod, ℤ, Bool-cases, length-append,
}
use mathlib.Core.List.{append-nil, append_assoc}
use ignis.Reactor.{Reactor, Op, cancel_watch, submit}
use ignis.Park.Race.{
  Pollfd, Thread, all_watches, timer, submit_all, cancel_losers, is_empty, park_pollfds,
}

-- The ops with the ids that a reactor gives them, from `n` on.
abbrev pub numbered : ℕ → List Op → List (ℕ × Op)
numbered n [] = []
numbered n (op ∷ ops) = (n, op) ∷ numbered (suc n) ops

abbrev pub ids_from : ℕ → List Op → List ℕ
ids_from n [] = []
ids_from n (op ∷ ops) = n ∷ ids_from (suc n) ops

-- A cancel for every id but the one that woke.
abbrev pub cancels : ℕ → List ℕ → List Op
cancels woke [] = []
cancels woke (id ∷ ids) =
    let rest = cancels woke ids in if id == woke then rest else cancel_watch id ∷ rest

-- `s` is `r` with these ops submitted, in order.
pub record Submitted (r : Reactor) (ops : List Op) (s : Reactor) : Type 0 where
  pub sent : s.to_tokio ≡ r.to_tokio ++ numbered r.next_id ops
  pub next : s.next_id ≡ r.next_id + length ops
  pub alive : s.dispatcher_alive ≡ true

submit-Submitted :
    (r : Reactor) (op : Op)
    → r.dispatcher_alive ≡ true
    → r.next_id + 1 < u64_mod
    → Submitted r (op ∷ []) (submit r op).0
unfolding submit
submit-Submitted r op a l = record {
  sent = rw (a, submit) refl;
  next = rw (a, submit) (omega arith);
  alive = rw (a, submit) refl;
}

nothing-Submitted : (r : Reactor) → r.dispatcher_alive ≡ true → Submitted r [] r
nothing-Submitted r a = record { sent = sym (append-nil r.to_tokio); next = omega arith; alive = a }

numbered-append :
    (n m : ℕ) (xs ys : List Op)
    → m ≡ n + length xs
    → numbered n (xs ++ ys) ≡ numbered n xs ++ numbered m ys
numbered-append n m [] ys e = ap (λ (i : ℕ). numbered i ys) (omega arith)
numbered-append n m (x ∷ xs) ys e =
    ap (λ (r : List (ℕ × Op)). (n, x) ∷ r) (numbered-append (suc n) m xs ys (omega arith))

Submitted-then :
    (r s t : Reactor) (xs ys : List Op)
    → Submitted r xs s
    → Submitted s ys t
    → Submitted r (xs ++ ys) t
Submitted-then r s t xs ys h k = record {
  sent =
      k.sent
      ∙ (ap (λ (l : List (ℕ × Op)). l ++ numbered s.next_id ys) h.sent
          ∙ (append_assoc r.to_tokio (numbered r.next_id xs) (numbered s.next_id ys)
              ∙ ap (λ (l : List (ℕ × Op)). r.to_tokio ++ l)
                  (sym (numbered-append r.next_id s.next_id xs ys h.next))));
  next = omega (arith, h.next, k.next, length-append xs ys);
  alive = k.alive;
}

submit-id : (r : Reactor) (op : Op) → r.dispatcher_alive ≡ true → (submit r op).1 ≡ r.next_id
unfolding submit
submit-id r op a = rw (a, submit) refl

next_ids :
    (r s : Reactor) (op : Op) (ops : List Op)
    → Submitted r (op ∷ []) s
    → ids_from s.next_id ops ≡ ids_from (suc r.next_id) ops
next_ids r s op ops h = ap (λ (n : ℕ). ids_from n ops) (omega (arith, h.next))

submit_all-Submitted :
    (ops : List Op) (r : Reactor)
    → r.dispatcher_alive ≡ true
    → r.next_id + length ops < u64_mod
    → Submitted r ops (submit_all ops r).0 × ((submit_all ops r).1 ≡ ids_from r.next_id ops)
unfolding submit_all
submit_all-Submitted [] r a l = (nothing-Submitted r a, refl)
submit_all-Submitted (op ∷ ops) r a l =
    let h = submit-Submitted r op a (omega arith) in
    let (k, e) = submit_all-Submitted ops (submit r op).0 h.alive (omega (arith, h.next)) in
    (
      Submitted-then r (submit r op).0 (submit_all ops (submit r op).0).0 (op ∷ []) ops h k,
      ap (λ (n : ℕ). n ∷ (submit_all ops (submit r op).0).1) (submit-id r op a)
          ∙ ap (λ (l : List ℕ). r.next_id ∷ l) (e ∙ next_ids r (submit r op).0 op ops h),
    )

cancel_losers-Submitted :
    (woke : ℕ) (ids : List ℕ) (r : Reactor)
    → r.dispatcher_alive ≡ true
    → r.next_id + length ids < u64_mod
    → Submitted r (cancels woke ids) (cancel_losers woke ids r)
unfolding cancel_losers
cancel_losers-Submitted woke [] r a l = nothing-Submitted r a
cancel_losers-Submitted woke (id ∷ ids) r a l = elim (Bool-cases (id == woke)) [
  | inl e ↦ rw (e, cancel_losers, cancels) (cancel_losers-Submitted woke ids r a (omega arith))
  | inr e ↦
      let h = submit-Submitted r (cancel_watch id) a (omega arith) in
      let k =
        cancel_losers-Submitted woke ids (submit r (cancel_watch id)).0 h.alive
          (omega (arith, h.next)) in
      rw (e, cancel_losers, cancels)
        (Submitted-then r (submit r (cancel_watch id)).0
          (cancel_losers woke ids (submit r (cancel_watch id)).0) (cancel_watch id ∷ [])
          (cancels woke ids) h k)
]

ids_from-append :
    (n m : ℕ) (xs ys : List Op)
    → m ≡ n + length xs
    → ids_from n xs ++ ids_from m ys ≡ ids_from n (xs ++ ys)
ids_from-append n m [] ys e = ap (λ (i : ℕ). ids_from i ys) (omega arith)
ids_from-append n m (x ∷ xs) ys e =
    ap (λ (l : List ℕ). n ∷ l) (ids_from-append (suc n) m xs ys (omega arith))

length-ids_from : (n : ℕ) (ops : List Op) → length (ids_from n ops) ≡ length ops
length-ids_from n [] = refl
length-ids_from n (op ∷ ops) = ap suc (length-ids_from (suc n) ops)

is_empty-ids_from : (n : ℕ) (ops : List Op) → 0 < length ops → is_empty (ids_from n ops) ≡ false
is_empty-ids_from n [] l = ground arith
is_empty-ids_from n (op ∷ ops) l = refl

-- The ops of a race: one for each interest, and one for the timeout.
abbrev pub race : List Pollfd → ℤ → List Op
race fds timeout = all_watches fds ++ timer timeout

module _ (fds : List Pollfd) (timeout : ℤ) (t : Thread) (r : Reactor) where
  abbrev watched : Reactor
  watched = (submit_all (all_watches fds) r).0

  abbrev timed : Reactor
  timed = (submit_all (timer timeout) watched).0

  race-Submitted :
      r.dispatcher_alive ≡ true
      → r.next_id + length (race fds timeout) < u64_mod
      → Submitted r (race fds timeout) timed
        × ((submit_all (all_watches fds) r).1 ++ (submit_all (timer timeout) watched).1
            ≡ ids_from r.next_id (race fds timeout))
  race-Submitted a l =
      let n : length (race fds timeout) ≡ length (all_watches fds) + length (timer timeout) =
        length-append (all_watches fds) (timer timeout) in
      let (h, e) = submit_all-Submitted (all_watches fds) r a (omega arith) in
      let (k, f) = submit_all-Submitted (timer timeout) watched h.alive (omega (arith, h.next)) in
      (
        Submitted-then r watched timed (all_watches fds) (timer timeout) h k,
        ap (λ (l : List ℕ). l ++ (submit_all (timer timeout) watched).1) e
            ∙ (ap (λ (l : List ℕ). ids_from r.next_id (all_watches fds) ++ l) f
                ∙ ids_from-append r.next_id watched.next_id (all_watches fds) (timer timeout)
                    h.next),
      )

  -- While the dispatcher lives and has ids for the race and its cancels, with at least one op to wait
  -- for: after a wake, what was submitted is the race, in order, and then a cancel for each op of it
  -- but the one that woke.
  pub race_cancelled :
      (woke : ℕ)
      → t.reactor ≡ some r
      → r.dispatcher_alive ≡ true
      → r.next_id + 2 * length (race fds timeout) < u64_mod
      → 0 < length (race fds timeout)
      → (s : Reactor) × ((park_pollfds fds timeout (some woke) t).0.reactor ≡ some s)
        × Submitted r (race fds timeout ++ cancels woke (ids_from r.next_id (race fds timeout))) s
  unfolding park_pollfds
  race_cancelled woke q a l n =
      let (h, e) = race-Submitted a (omega arith) in
      let ids : List ℕ = ids_from r.next_id (race fds timeout) in
      let k : Submitted timed (cancels woke ids) (cancel_losers woke ids timed) =
        cancel_losers-Submitted woke ids timed h.alive
          (omega (arith, h.next, length-ids_from r.next_id (race fds timeout))) in
      (
        cancel_losers woke ids timed,
        rw (q, e, is_empty-ids_from r.next_id (race fds timeout) n, park_pollfds) refl,
        Submitted-then r timed (cancel_losers woke ids timed) (race fds timeout) (cancels woke ids)
            h k,
      )

  -- While the dispatcher lives and has ids for the race: where the fiber cannot suspend, or is unwound
  -- by a cancellation, what was submitted is the race and no cancel, and the caller is told that it
  -- could not park.
  pub race_abandoned :
      t.reactor ≡ some r
      → r.dispatcher_alive ≡ true
      → r.next_id + length (race fds timeout) < u64_mod
      → (s : Reactor) × ((park_pollfds fds timeout none t).0.reactor ≡ some s)
        × ((park_pollfds fds timeout none t).1 ≡ none)
        × Submitted r (race fds timeout) s
  unfolding park_pollfds
  race_abandoned q a l =
      let (h, e) = race-Submitted a l in
      elim (Bool-cases
        (is_empty ((submit_all (all_watches fds) r).1 ++ (submit_all (timer timeout) watched).1))) [
          | inl y ↦ (timed, rw (q, y, park_pollfds) refl, rw (q, y, park_pollfds) refl, h)
          | inr y ↦ (timed, rw (q, y, park_pollfds) refl, rw (q, y, park_pollfds) refl, h)
        ]
