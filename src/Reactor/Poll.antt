-- ===== src/Reactor/Poll.antt =====
-- crates/ignis/src/reactor.rs, `poll`: the spin and the two kinds of sleep against one description
-- of what a poll comes to.
use mathlib.Core.List.{append-nil, append_assoc}
use ignis.Shared.{
  ℕ, ◌-◌, ◌≡◌, refl, inl, inr, ◌&&◌, List, [], ◌∷◌, ◌++◌, Option, none, some, arith, length, ◌==◌,
  if◌then◌else◌, Bool-cases,
}
use ignis.Reactor.{
  Completion, Reactor, touch, Polled, returned, blocked, Wait, leave_with, sleep_for,
  spin_then_sleep, poll,
}
use ignis.Reactor.Calls.{after_poll}

-- A poll with `all` the completions that are there or come while it waits: nothing is waited for
-- on an empty reactor without servers; else all of them are taken, or the wait ends as it may.
unfoldable pub take_all : Reactor → Option ℕ → ℕ → List Completion → Polled
take_all r t left (c ∷ rest) =
    returned
      (record r {
        from_tokio = [];
        inflight = r.inflight - length (c ∷ rest);
        last_active_us = left;
      })
      (c ∷ rest)
take_all r (some t) left [] = returned r []
take_all r none left [] = blocked r

unfoldable pub poll_result : Reactor → Option ℕ → Wait → Polled
unfolding take_all
poll_result r t w =
    let entered = record r { last_active_us = w.entered_us } in
    let all = r.from_tokio ++ (w.spun ++ w.waited) in
    if r.inflight == 0 && r.servers == 0
    then returned (record entered { from_tokio = all }) []
    else take_all entered t w.left_us all

sleep-take_all :
    (r : Reactor) (t : Option ℕ) (left : ℕ) (q : List Completion)
    → sleep_for r t left q ≡ take_all r t left q
unfolding sleep_for leave_with take_all touch
sleep-take_all r t left (c ∷ rest) = refl
sleep-take_all r (some t) left [] = refl
sleep-take_all r none left [] = refl

spin-take_all :
    (r : Reactor) (t : Option ℕ) (left : ℕ) (q waited : List Completion)
    → spin_then_sleep r t left q waited ≡ take_all r t left (q ++ waited)
unfolding spin_then_sleep leave_with take_all touch
spin-take_all r t left (c ∷ rest) waited = refl
spin-take_all r t left [] waited = sleep-take_all r t left waited

-- On every path of a poll, with and without the spin, its result is the one that `poll_result`
-- describes, which knows of no spin.
pub poll-poll_result : (r : Reactor) (t : Option ℕ) (w : Wait) → poll r t w ≡ poll_result r t w
unfolding poll poll_result touch
poll-poll_result r t w =
    let entered = touch r w.entered_us in
    let ready_soon = r.from_tokio ++ w.spun in
    ground (
      arith,
      append_assoc r.from_tokio w.spun w.waited,
      spin-take_all entered t w.left_us ready_soon w.waited,
      sleep-take_all entered t w.left_us (ready_soon ++ w.waited),
    )

abbrev pub batch : Polled → List Completion
batch (returned r cs) = cs
batch (blocked r) = []

nothing_left : (xs ys : List Completion) → xs ++ ys ≡ [] → xs ≡ []
nothing_left [] ys e = refl
nothing_left (x ∷ xs) ys e = cc

-- All or nothing is taken; nothing only where there is nothing.
take_all-keeps :
    (r : Reactor) (t : Option ℕ) (left : ℕ) (all extra : List Completion)
    → r.from_tokio ++ extra ≡ all
    → (batch (take_all r t left all) ++ (after_poll (take_all r t left all)).from_tokio ≡ all)
      × ((after_poll (take_all r t left all)).inflight
          ≡ r.inflight - length (batch (take_all r t left all)))
unfolding take_all
take_all-keeps r t left (c ∷ rest) extra e = (append-nil (c ∷ rest), refl)
take_all-keeps r (some t) left [] extra e = (nothing_left r.from_tokio extra e, omega arith)
take_all-keeps r none left [] extra e = (nothing_left r.from_tokio extra e, omega arith)

-- The batch a poll returns, followed by what it leaves in the channel, is what was there followed by
-- what came meanwhile, in order; and the counter falls by the batch's length, down to 0 at most.
pub poll_keeps :
    (r : Reactor) (t : Option ℕ) (w : Wait)
    → (batch (poll r t w) ++ (after_poll (poll r t w)).from_tokio
        ≡ r.from_tokio ++ (w.spun ++ w.waited))
      × ((after_poll (poll r t w)).inflight ≡ r.inflight - length (batch (poll r t w)))
unfolding poll_result
poll_keeps r t w =
    let entered = record r { last_active_us = w.entered_us } in
    rw (poll-poll_result r t w) (elim (Bool-cases (r.inflight == 0 && r.servers == 0)) [
      | inl e ↦ rw (e, poll_result) (refl, omega arith)
      | inr e ↦
          rw (e, poll_result)
            (take_all-keeps entered t w.left_us (r.from_tokio ++ (w.spun ++ w.waited))
              (w.spun ++ w.waited) refl)
    ])
