-- ===== src/Park/Race.antt =====
-- crates/ignis/src/php/park.rs, `park_pollfds` and its callers: one watch for each interest and the
-- caller's timeout in one race. Which op wakes the fiber, if any does, is an argument.
pub mod Cancels
use Prim.Native.Nat.{bit_and}
use ignis.Shared.{
  ℕ, suc, ◌+◌, ◌*◌, ◌≡◌, refl, Bool, true, false, not, List, [], ◌∷◌, ◌++◌, map, Option, none, some,
  ◌==◌, if◌then◌else◌, ltb, ℤ, pos, negsuc,
}
use ignis.Reactor.{Reactor, Op, watch, sleep, cancel_watch, submit}
use ignis.Park.{Park}
use ignis.Park.Times.{milliseconds_ceil}

pub record Pollfd : Type 0 where
  pub fd : ℤ
  pub events : ℕ

abbrev pub pollin : ℕ
pollin = 1

abbrev pub pollout : ℕ
pollout = 4

-- A PHP thread's state that the handlers change; `reactor` is none where the thread has none.
pub record Thread : Type 0 where
  pub park : Park
  pub reactor : Option Reactor

abbrev pub failed_park : Thread → Thread
failed_park t = record t { park = record (t.park) { park_failed = suc t.park.park_failed } }

abbrev pub watches_of : ℤ → ℕ → List Op
watches_of (negsuc n) events = []
watches_of (pos fd) events =
    (if bit_and events pollin == 0 then [] else watch fd false ∷ [])
    ++ (if bit_and events pollout == 0 then [] else watch fd true ∷ [])

-- The ops that are submitted for one descriptor.
abbrev pub watches : Pollfd → List Op
watches p = watches_of p.fd p.events

abbrev pub all_watches : List Pollfd → List Op
all_watches [] = []
all_watches (p ∷ ps) = watches p ++ all_watches ps

abbrev pub timer : ℤ → List Op
timer (pos (suc ms)) = sleep (suc ms * 1000) ∷ []
timer _ = []

unfoldable pub submit_all : List Op → Reactor → Reactor × List ℕ
submit_all [] r = (r, [])
submit_all (op ∷ ops) r =
    let (after, id) = submit r op in let (last, ids) = submit_all ops after in (last, id ∷ ids)

-- `CancelWatch` for every id but the one that woke.
unfoldable pub cancel_losers : ℕ → List ℕ → Reactor → Reactor
cancel_losers woke [] r = r
cancel_losers woke (id ∷ ids) r =
    cancel_losers woke ids (if id == woke then r else (submit r (cancel_watch id)).0)

abbrev pub is_empty {ℓ} : {A : Type ℓ} → List A → Bool
is_empty [] = true
is_empty (_ ∷ _) = false

abbrev pub is_timer : ℕ → List ℕ → Bool
is_timer woke [] = false
is_timer woke (id ∷ ids) = woke == id

-- `none`: could not park. `some true`: a descriptor woke the fiber, `some false`: the timer did.
unfoldable pub park_pollfds :
    List Pollfd → (timeout_ms : ℤ) → (woke : Option ℕ) → Thread → Thread × Option Bool
unfolding submit_all cancel_losers
park_pollfds fds timeout_ms woke t = elim t.reactor [
  | none ↦ (failed_park t, none)
  | some r ↦
      let (watched, ids) = submit_all (all_watches fds) r in
      let (timed, timers) = submit_all (timer timeout_ms) watched in
      if is_empty (ids ++ timers) then (record t { reactor = some timed }, none) else elim woke [
        | none ↦ (record t { reactor = some timed }, none)
        | some id ↦ (
          record t { reactor = some (cancel_losers id (ids ++ timers) timed) },
          some (not (is_timer id timers)),
        )
      ]
]
