-- ===== src/Accept.antt =====
-- crates/ignis/src/http.rs: `accept_loop` with its permits and its race with the stop of the listener,
-- and the idle timer of `serve_connection`. A connection is named by its number. Each load, store and
-- notification is a step of its own, as is each poll of a branch of the `select!`.
pub mod Capped
mod Examples
use ignis.Shared.{
  ℕ, zero, suc, ◌+◌, ◌-◌, ◌≡◌, refl, Bool, true, false, List, [], ◌∷◌, ◌++◌, Option, none, some,
  ◌==◌, leb, if◌then◌else◌,
}

-- Where the loop stands in a turn. `notified` holds whether the stop has notified it since it was made.
pub data Phase : Type 0 where
  looking : Phase  -- before the load of LISTENER_STOP
  passed : Phase  -- the flag was not set, before `notified()` is made
  waiting : (notified : Bool) → Phase  -- before the branch of the stop is polled
  accepting : (notified : Bool) → Phase  -- that branch was pending, before `accept` is polled
  returned : Phase

-- `permits`: what is left in the semaphore. `live`: the connections that hold one each.
pub record Acceptor : Type 0 where
  pub permits : ℕ
  pub live : List ℕ
  pub listener_stop : Bool
  pub phase : Phase

unfoldable pub starts_accepting : (max_connections : ℕ) → Acceptor
starts_accepting max_connections = record {
  permits = max_connections;
  live = [];
  listener_stop = false;
  phase = looking;
}

-- What became of a connection that was accepted.
pub data Fate : Type 0 where
  served refused_over_capacity : Fate

-- What `listener.accept()` answers when it is polled.
pub data Accepted : Type 0 where
  pending failed : Accepted
  connection : (number : ℕ) → Accepted

-- `shutdown_signalled`, and the select that polls it first.
unfoldable pub shutdown_signalled : Acceptor → Acceptor
shutdown_signalled w = elim w.phase [
  | looking ↦ if w.listener_stop then record w { phase = returned } else record w { phase = passed }
  | passed ↦ record w { phase = waiting false }
  | waiting notified ↦
      if notified then record w { phase = returned } else record w { phase = accepting false }
  | accepting notified ↦ w
  | returned ↦ w
]

-- A connection that was accepted gets a permit, if one is left.
unfoldable pub admit : (number : ℕ) → Acceptor → Acceptor × Fate
admit number w = elim w.permits [
  | zero ↦ (record w { phase = looking }, refused_over_capacity)
  | suc left ↦ (record w { phase = looking; permits = left; live = number ∷ w.live }, served)
]

-- The other branch of the select, and the rest of the turn.
unfoldable pub accept : Accepted → Acceptor → Acceptor × List Fate
unfolding admit
accept answer w = elim w.phase [
  | accepting notified ↦ elim answer [
    | pending ↦ (record w { phase = waiting notified }, [])
    | failed ↦ (record w { phase = looking }, [])
    | connection number ↦ let (after, fate) = admit number w in (after, fate ∷ [])
  ]
  | looking ↦ (w, [])
  | passed ↦ (w, [])
  | waiting notified ↦ (w, [])
  | returned ↦ (w, [])
]

-- The drain sets the flag, and then notifies whoever waits by then.
unfoldable pub stop_listener : Acceptor → Acceptor
stop_listener w = record w { listener_stop = true }

unfoldable pub notify_waiters : Acceptor → Acceptor
notify_waiters w = elim w.phase [
  | waiting notified ↦ record w { phase = waiting true }
  | accepting notified ↦ record w { phase = accepting true }
  | looking ↦ w
  | passed ↦ w
  | returned ↦ w
]

-- The connection's task is over, and its permit is dropped with it.
abbrev pub end_one : ℕ → List ℕ → Option (List ℕ)
end_one number [] = none
end_one number (c ∷ live) =
    let rest = end_one number live in
    if c == number then some live else elim rest [ some others ↦ some (c ∷ others) | none ↦ none ]

unfoldable pub close : ℕ → Acceptor → Acceptor
close number w = elim (end_one number w.live) [
  | none ↦ w
  | some others ↦ record w { permits = suc w.permits; live = others }
]

pub data Event : Type 0 where
  polls_stop stops notifies : Event
  polls_accept : Accepted → Event
  closes : ℕ → Event

unfoldable pub happen : Event → Acceptor → Acceptor × List Fate
unfolding shutdown_signalled accept stop_listener notify_waiters close
happen polls_stop w = (shutdown_signalled w, [])
happen stops w = (stop_listener w, [])
happen notifies w = (notify_waiters w, [])
happen (polls_accept answer) w = accept answer w
happen (closes number) w = (close number w, [])

-- The state after the events, and what became of the connections that were accepted.
unfoldable pub run : List Event → Acceptor → Acceptor × List Fate
unfolding happen
run [] w = (w, [])
run (event ∷ events) w =
    let (after, fates) = happen event w in
    let (last, more) = run events after in (last, fates ++ more)

pub data Turn : Type 0 where
  shuts_down : Turn
  sleeps : (for_ms : ℕ) → Turn

-- A turn of the loop of `serve_connection`, the last request being at `last_activity`.
unfoldable pub idle_turn : (idle_timeout now last_activity : ℕ) → Turn
idle_turn idle_timeout now last_activity =
    let idle_for = now - last_activity in
    if leb idle_timeout idle_for then shuts_down else sleeps (idle_timeout - idle_for)
