-- ===== src/Dispatch/Once.antt =====
-- crates/ignis/src/reactor.rs: the laws of a whole run, from `Reactor::new` on, under every order in
-- which the PHP thread, the dispatcher, the tasks and the clients act.
use ignis.Shared.{
  ℕ, suc, ◌+◌, ◌<◌, ◌≤◌, ◌≡◌, refl, ◌⊎◌, inl, inr, List, [], ◌∷◌, Option, arith, length, All,
  u64_mod, lookup, sum_by, Option-cases,
}
use ignis.Reactor.{Reactor, new, blocked, Wait, poll}
use ignis.Reactor.Poll.{poll_result, poll-poll_result}
use ignis.Reactor.Answers.Invariant.{Inv, new-Inv, lookup-lt}
use ignis.Dispatch.{World, start, Move, step, run}
use ignis.Dispatch.Ledger.{ledger, queued_units}
use ignis.Dispatch.Sound.{Sound, step-Sound}
use ignis.Dispatch.Conserves.{Balanced, step-Balanced}
use ignis.Dispatch.Inflight.{Counts, step-Counts, sum_ones}
use ignis.Dispatch.History.{
  NotCancel, step_bounds, step-Issues, only, IsFresh, issue-IsFresh, cancel-IsFresh, cancel_unknown,
}
use ignis.Dispatch.Answered.{step-Inv}

pub record Lawful (w : World) : Type 0 where
  pub sound : Sound w
  pub balanced : (f : ℕ → ℕ) → Balanced f w
  pub counts : Counts w
  pub answers : Inv w.reactor

-- Room for `n` more actions before a counter wraps.
pub record HasRoom (w : World) (n : ℕ) : Type 0 where
  pub ids : w.reactor.next_id + n < u64_mod
  pub units : length w.issued + n < u64_mod

pub start-Lawful : (spin : ℕ) → Lawful (start (new spin))
unfolding new
start-Lawful spin = record {
  sound = record { claims = tt; connected = refl; reserved_once = tt; reserved_given = tt };
  balanced = λ f. omega arith;
  counts = omega arith;
  answers = new-Inv spin;
}

pub step-Lawful : (w : World) (m : Move) (n : ℕ) → HasRoom w (suc n) → Lawful w → Lawful (step w m)
step-Lawful w m n room v = record {
  sound = step-Sound w m (omega (arith, room.ids)) v.sound;
  balanced = λ f. step-Balanced f w m v.sound (v.balanced f);
  counts = step-Counts w m (omega (arith, room.units)) (v.balanced (λ _. 1)) v.counts;
  answers = step-Inv w m (omega (arith, room.ids)) v.answers;
}

pub step-HasRoom : (w : World) (m : Move) (n : ℕ) → HasRoom w (suc n) → HasRoom (step w m) n
step-HasRoom w m n room =
    let (u, i) = step_bounds w m (omega (arith, room.ids)) in
    record { ids = omega (arith, room.ids); units = omega (arith, room.units) }

pub run-Lawful : (w : World) (ms : List Move) → HasRoom w (length ms) → Lawful w → Lawful (run w ms)
unfolding run
run-Lawful w [] room v = v
run-Lawful w (m ∷ ms) room v =
    run-Lawful (step w m) ms (step-HasRoom w m (length ms) room)
      (step-Lawful w m (length ms) room v)

pub start-HasRoom : (spin n : ℕ) → n + 1 < u64_mod → HasRoom (start (new spin)) n
unfolding new
start-HasRoom spin n l = record { ids = omega arith; units = omega arith }

-- From a new reactor on, in any order of fewer than 2^64 - 1 actions: the units that were counted
-- in flight for an id are as many as those delivered to PHP for it and those outstanding: not yet
-- received, in the dispatcher's hands, in a task, promised by another thread, or in the completion
-- channel. So none is lost and none is announced twice.
pub run-Balanced :
    (spin : ℕ) (ms : List Move) (i : ℕ)
    → length ms + 1 < u64_mod
    → let w = run (start (new spin)) ms in
      sum_by (only i) w.issued ≡ ledger (only i) w + queued_units (only i) w.delivered
run-Balanced spin ms i l =
    (run-Lawful (start (new spin)) ms (start-HasRoom spin (length ms) l)
        (start-Lawful spin)).balanced
      (only i)

-- From a new reactor on, in any order of fewer than 2^64 - 1 actions: the counter of ops in flight
-- is the number of units that are outstanding, over all ids.
pub inflight_exact :
    (spin : ℕ) (ms : List Move)
    → length ms + 1 < u64_mod
    → let w = run (start (new spin)) ms in w.reactor.inflight ≡ ledger (λ _. 1) w
inflight_exact spin ms l =
    let w = run (start (new spin)) ms in
    let v =
      run-Lawful (start (new spin)) ms (start-HasRoom spin (length ms) l) (start-Lawful spin) in
    omega (arith, v.balanced (λ _. 1), v.counts, sum_ones w.issued, sum_ones w.delivered)

-- From a new reactor on, in any order of fewer than 2^64 - 1 actions: a poll sleeps for ever only if
-- a unit is outstanding that it can wait for, or a server listens.
pub blocked_has_work :
    (spin : ℕ) (ms : List Move) (t : Option ℕ) (p : Wait) {r : Reactor}
    → length ms + 1 < u64_mod
    → poll (run (start (new spin)) ms).reactor t p ≡ blocked r
    → (0 < ledger (λ _. 1) (run (start (new spin)) ms))
      ⊎ (0 < (run (start (new spin)) ms).reactor.servers)
unfolding poll_result
blocked_has_work spin ms t p l e =
    let w = run (start (new spin)) ms in
    ground (arith, inflight_exact spin ms l, poll-poll_result w.reactor t p)

step-IsFresh :
    (i : ℕ) (w : World) (m : Move)
    → w.reactor.next_id + 1 < u64_mod
    → NotCancel i m
    → Inv w.reactor
    → IsFresh i w
    → IsFresh i (step w m)
step-IsFresh i w m l n v f = elim (step-Issues w m l) [
  | inl h ↦ issue-IsFresh i w (step w m) h f
  | inr (id, now, e) ↦ rw e (elim (Option-cases (lookup id w.reactor.answers)) [
    | inl q ↦ rw (cancel_unknown w id now q) f
    | inr (a, q) ↦
        cancel-IsFresh i id now w (rw e at n)
          (lookup-lt id w.reactor.next_id a w.reactor.answers v.given_out q) f
  ])
]

run-IsFresh :
    (i : ℕ) (w : World) (ms : List Move)
    → HasRoom w (length ms)
    → All (NotCancel i) ms
    → Lawful w
    → IsFresh i w
    → IsFresh i (run w ms)
unfolding run
run-IsFresh i w [] room n v f = f
run-IsFresh i w (m ∷ ms) room n v f =
    run-IsFresh i (step w m) ms (step-HasRoom w m (length ms) room) n.1
      (step-Lawful w m (length ms) room v)
      (step-IsFresh i w m (omega (arith, room.ids)) n.0 v.answers f)

start-IsFresh : (spin i : ℕ) → IsFresh i (start (new spin))
start-IsFresh spin i = record { ahead = λ j l. refl; once = omega arith }

-- From a new reactor on, in any order of fewer than 2^64 - 1 actions none of which is a client's
-- cancel of the request with this id: what was delivered for the id and what is still to come for
-- it add up to one at most.
pub completes_once :
    (spin : ℕ) (ms : List Move) (i : ℕ)
    → length ms + 1 < u64_mod
    → All (NotCancel i) ms
    → let w = run (start (new spin)) ms in queued_units (only i) w.delivered + ledger (only i) w ≤ 1
completes_once spin ms i l n =
    let room = start-HasRoom spin (length ms) l in
    let fresh =
      run-IsFresh i (start (new spin)) ms room n (start-Lawful spin) (start-IsFresh spin i) in
    omega (arith, run-Balanced spin ms i l, fresh.once)
