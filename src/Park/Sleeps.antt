-- ===== src/Park/Sleeps.antt =====
-- crates/ignis/src/php/park.rs: sleeps, flock and waitpid.
use Prim.Native.Nat.{bit_and}
use ignis.Shared.{
  ℕ, suc, ◌*◌, ◌/◌, ◌%◌, Bool, true, false, ◌&&◌, List, [], ◌∷◌, Option, none, some, Bytes, codes,
  ◌==◌, if◌then◌else◌, min, ℤ, pos, u64_mod, ◌-◌,
}
use ignis.Reactor.{sleep, submit}
use ignis.Park.{may_park}
use ignis.Park.Times.{Timespec, microseconds_of, unslept_seconds}
use ignis.Park.Race.{Thread, failed_park}
use ignis.Park.Calls.{Site, with_park, unguarded, Io, park_io}

-- `woke`: the fiber was suspended and the timer's outcome resumed it.
unfoldable pub park_sleep : (us : ℕ) → (woke : Bool) → Thread → Thread × Bool
park_sleep us woke t = elim t.reactor [
  | none ↦ (failed_park t, false)
  | some r ↦ (record t { reactor = some (submit r (sleep us)).0 }, woke)
]

-- A sleep that the fiber took, or the real call that the handler makes instead.
pub data Slept : Type 0 where
  parked really : Slept

-- What the handlers share: `interval` is none where the caller's is refused.
unfoldable pub sleep_handler :
    (sym : Bytes) → Site → (interval : Option ℕ) → (woke : Bool) → Thread → Thread × Slept
unfolding park_sleep
sleep_handler sym site interval woke t =
    let (p, parks) = may_park site.rows site.dladdr site.ret sym t.park in
    if parks
    then elim interval [
      | none ↦ (unguarded (with_park t p), really)
      | some us ↦
          let (after, done) = park_sleep us woke (with_park t p) in
          (unguarded after, if done then parked else really)
    ]
    else (with_park t p, really)

-- `nanosleep` answers 0, with nothing remaining, where it parked.
unfoldable pub ignis_park_nanosleep :
    Site → (req : Option Timespec) → (woke : Bool) → Thread → Thread × Slept
ignis_park_nanosleep site none = sleep_handler (codes "nanosleep") site none
ignis_park_nanosleep site (some req) = sleep_handler (codes "nanosleep") site (microseconds_of req)

unfoldable pub ignis_park_usleep : Site → (us : ℕ) → (woke : Bool) → Thread → Thread × Slept
ignis_park_usleep site us = sleep_handler (codes "usleep") site (some us)

-- What the real nanosleep of `usleep` is given.
unfoldable pub usleep_interval : ℕ → Timespec
usleep_interval us = record { tv_sec = pos (us / 1000000); tv_nsec = pos (us % 1000000 * 1000) }

-- `rc` and `remaining` are the real nanosleep's answers. Returns the seconds still to go.
unfoldable pub ignis_park_sleep :
    Site → (s : ℕ) → (woke : Bool) → (rc : ℤ) → (remaining : Timespec) → Thread → Thread × ℕ
unfolding sleep_handler
ignis_park_sleep site s woke rc remaining t =
    let (after, done) =
      sleep_handler (codes "sleep") site (some (min (s * 1000000) (u64_mod - 1))) woke t in
    elim done [ parked ↦ (after, 0) | really ↦ (after, unslept_seconds rc remaining) ]

-- What flock with LOCK_NB answers.
pub data Try : Type 0 where
  takes contends breaks : Try  -- `contends`: EWOULDBLOCK

-- An attempt, and whether the fiber was woken from the sleep after it.
pub record Attempt : Type 0 where
  pub tried : Try
  pub woke : Bool

pub data Flock : Type 0 where
  locked failed blocked : Flock  -- `blocked`: the handler makes the caller's blocking call

-- The thread's state, the sleeps that were made, and what the loop answers; `none` is a loop that
-- still waits.
abbrev pub Locking : Type 0
Locking = Thread × List ℕ × Option Flock

-- The rest of the loop's body, after an attempt; `later` is the loop's next turns.
abbrev pub attempted :
    Try → (wait_us : ℕ) → (rest : Thread × Bool) → (later : Locking) → Thread → Locking
attempted takes wait_us rest later t = (t, [], some locked)
attempted breaks wait_us rest later t = (t, [], some failed)
attempted contends wait_us (rested, true) (after, waits, answer) t =
    (after, wait_us ∷ waits, answer)
attempted contends wait_us (rested, false) later t =
    (failed_park rested, wait_us ∷ [], some blocked)

unfoldable pub flock_loop : (wait_us : ℕ) → List Attempt → Thread → Locking
unfolding park_sleep
flock_loop wait_us [] t = (t, [], none)
flock_loop wait_us (a ∷ attempts) t =
    let rested = park_sleep wait_us a.woke t in
    let later = flock_loop (min (wait_us * 2) 20000) attempts rested.0 in
    attempted a.tried wait_us rested later t

-- LOCK_NB is 4 and LOCK_UN is 8.
unfoldable pub ignis_park_flock : Site → (operation : ℕ) → List Attempt → Thread → Locking
unfolding flock_loop
ignis_park_flock site operation attempts t =
    let blocking = bit_and operation 4 == 0 && bit_and operation 8 == 0 in
    let (p, parks) = may_park site.rows site.dladdr site.ret (codes "flock") t.park in
    let (after, waits, answer) = flock_loop 200 attempts (with_park t p) in
    if parks
    then (if blocking
        then (unguarded after, waits, answer)
        else (unguarded (with_park t p), [], some blocked))
    else (with_park t p, [], some blocked)

-- Waits on the child's pidfd where one can be opened. The real wait4 follows in every case. WNOHANG
-- is 1.
unfoldable pub ignis_park_waitpid :
    Site → (pid : ℤ) → (options : ℕ) → (pidfd : Option ℕ) → Io → Thread → Thread
ignis_park_waitpid site (pos (suc pid)) options pidfd io t =
    let (p, parks) = may_park site.rows site.dladdr site.ret (codes "waitpid") t.park in
    if bit_and options 1 == 0
    then (if parks
        then elim pidfd [
          | some fd ↦ unguarded (park_io (pos fd) false io (with_park t p)).0
          | none ↦ unguarded (with_park t p)
        ]
        else with_park t p)
    else t
ignis_park_waitpid site pid options pidfd io t = t
