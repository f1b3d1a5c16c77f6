-- ===== src/Accept/Capped.antt =====
-- crates/ignis/src/http.rs: the cap on connections, and the end of an idle one.
use ignis.Shared.{
  ℕ, suc, ◌+◌, ◌≤◌, ◌≡◌, refl, ◌∙◌, inl, inr, true, List, [], ◌∷◌, some, ◌==◌, ltb, if◌then◌else◌,
  length, length-append, arith, Bool-cases, Option-cases,
}
use ignis.Accept.{
  Acceptor, Phase, looking, passed, waiting, accepting, returned, starts_accepting, served,
  refused_over_capacity, shutdown_signalled, admit, accept, stop_listener, notify_waiters, end_one,
  close, Event, polls_stop, stops, notifies, polls_accept, closes, happen, run, shuts_down, sleeps,
  idle_turn,
}

end_one-length :
    (number : ℕ) (live : List ℕ) (others : List ℕ)
    → end_one number live ≡ some others
    → length live ≡ suc (length others)
end_one-length number [] others e = ground (arith, e)
end_one-length number (c ∷ live) others e = elim (Bool-cases (c == number)) [
  | inl y ↦ ground (arith, e, y)
  | inr z ↦ elim (Option-cases (end_one number live)) [
    | inl q ↦ ground (arith, e, z, q)
    | inr (rest, q) ↦ ground (arith, e, z, q, end_one-length number live rest q)
  ]
]

-- The connections that are served and the permits that are left.
abbrev seats : Acceptor → ℕ
seats w = w.permits + length w.live

close-seats : (number : ℕ) (w : Acceptor) → seats (close number w) ≡ seats w
unfolding close
close-seats number w = elim (Option-cases (end_one number w.live)) [
  | inl q ↦ rw (q, close) refl
  | inr (others, q) ↦ rw (q, close) (omega (arith, end_one-length number w.live others q))
]

happen-seats : (event : Event) (w : Acceptor) → seats (happen event w).0 ≡ seats w
unfolding happen shutdown_signalled accept admit stop_listener notify_waiters
happen-seats (closes number) w = close-seats number w
happen-seats polls_stop w = ground arith
happen-seats stops w = refl
happen-seats notifies w = ground arith
happen-seats (polls_accept answer) w = ground arith

run-seats : (events : List Event) (w : Acceptor) → seats (run events w).0 ≡ seats w
unfolding run
run-seats [] w = refl
run-seats (event ∷ events) w = run-seats events (happen event w).0 ∙ happen-seats event w

-- The connections that the loop can still accept once the flag is set: one, if it is past the load.
abbrev due : Phase → ℕ
due looking = 0
due passed = 1
due (waiting notified) = 1
due (accepting notified) = 1
due returned = 0

happen-due :
    (event : Event) (w : Acceptor)
    → w.listener_stop ≡ true
    → ((happen event w).0.listener_stop ≡ true)
      × (length (happen event w).1 + due (happen event w).0.phase ≤ due w.phase)
unfolding happen shutdown_signalled accept admit stop_listener notify_waiters close
happen-due (closes number) w e = ground (arith, e)
happen-due polls_stop w e = ground (arith, e)
happen-due stops w e = ground (arith, e)
happen-due notifies w e = ground (arith, e)
happen-due (polls_accept answer) w e = ground (arith, e)

run-due :
    (events : List Event) (w : Acceptor)
    → w.listener_stop ≡ true
    → length (run events w).1 ≤ due w.phase
unfolding run
run-due [] w e = omega arith
run-due (event ∷ events) w e =
    let (kept, less) = happen-due event w e in
    omega (
      arith,
      less,
      run-due events (happen event w).0 kept,
      length-append (happen event w).1 (run events (happen event w).0).1,
    )

due-one : (phase : Phase) → due phase ≤ 1
due-one looking = omega arith
due-one passed = omega arith
due-one (waiting notified) = omega arith
due-one (accepting notified) = omega arith
due-one returned = omega arith

admit-fate :
    (number cap : ℕ) (w : Acceptor)
    → seats w ≡ cap
    → (admit number w).1 ≡ (if ltb (length w.live) cap then served else refused_over_capacity)
unfolding admit
admit-fate number cap w e = ground (arith, e)

started-seats : (cap : ℕ) (events : List Event) → seats (run events (starts_accepting cap)).0 ≡ cap
unfolding starts_accepting
started-seats cap events = run-seats events (starts_accepting cap) ∙ omega arith

-- For any polls of the two branches, failed accepts too, ends of connections, and stops and
-- notifications of the drain, in any order: never more than `cap` connections are served at once; a
-- connection that is accepted then is served if fewer are, and refused if as many are; and if the
-- listener is stopped then, at most one connection is accepted after that, whatever happens.
pub connections_capped :
    (cap number : ℕ) (before after : List Event)
    → let w = (run before (starts_accepting cap)).0 in
      (length w.live ≤ cap)
      × ((admit number w).1 ≡ (if ltb (length w.live) cap then served else refused_over_capacity))
      × (length (run after (stop_listener w)).1 ≤ 1)
unfolding stop_listener
connections_capped cap number before after =
    let w = (run before (starts_accepting cap)).0 in
    (
      omega (arith, started-seats cap before),
      admit-fate number cap w (started-seats cap before),
      omega (arith, run-due after (stop_listener w) refl, due-one w.phase),
    )

-- A connection that sleeps, and has no request meanwhile, is shut down when it wakes.
idle_shuts_down :
    (idle_timeout now last_activity for_ms : ℕ)
    → last_activity ≤ now
    → idle_turn idle_timeout now last_activity ≡ sleeps for_ms
    → idle_turn idle_timeout (now + for_ms) last_activity ≡ shuts_down
unfolding idle_turn
idle_shuts_down idle_timeout now last_activity for_ms l e = ground (arith, l, e)
