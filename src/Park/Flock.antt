-- ===== src/Park/Flock.antt =====
-- crates/ignis/src/php/park.rs, `ignis_park_flock`: how long a fiber waits between two attempts at a
-- lock.
use Prim.Native.Nat.{bit_and}
use ignis.Shared.{
  ℕ, ◌*◌, ◌≤◌, ◌≡◌, ◌⊎◌, Bool, true, false, ◌&&◌, List, [], ◌∷◌, some, codes, ◌==◌, min, arith, All,
}
use ignis.Park.{may_park}
use ignis.Park.Race.{Thread}
use ignis.Park.Calls.{Site, with_park}
use ignis.Park.Sleeps.{
  park_sleep, Try, takes, contends, breaks, Attempt, blocked, Locking, attempted, flock_loop,
  ignis_park_flock,
}

abbrev pub Brief : ℕ → Type 0
Brief us = (200 ≤ us) × (us ≤ 20000)

attempted-waits :
    (tried : Try) (us : ℕ) (rest : Thread × Bool) (later : Locking) (t : Thread)
    → Brief us
    → All Brief later.1
    → All Brief (attempted tried us rest later t).1
attempted-waits takes us rest later t h k = tt
attempted-waits breaks us rest later t h k = tt
attempted-waits contends us (rested, true) later t h k = (h, k)
attempted-waits contends us (rested, false) later t h k = (h, tt)

flock_loop-waits :
    (us : ℕ) (attempts : List Attempt) (t : Thread)
    → Brief us
    → All Brief (flock_loop us attempts t).1
unfolding flock_loop
flock_loop-waits us [] t h = tt
flock_loop-waits us (a ∷ attempts) t h =
    let rested = park_sleep us a.woke t in
    attempted-waits a.tried us rested (flock_loop (min (us * 2) 20000) attempts rested.0) t h
      (flock_loop-waits (min (us * 2) 20000) attempts rested.0 (ground (arith, h)))

-- A blocking call that parks sleeps between 200 microseconds and 20 milliseconds before each further
-- attempt, whatever the lock does; a call with LOCK_NB or LOCK_UN never sleeps, and is made as it is.
pub flock_waits :
    (site : Site) (operation : ℕ) (attempts : List Attempt) (t : Thread)
    → let (after, waits, answer) = ignis_park_flock site operation attempts t in
      All Brief waits
      × (((bit_and operation 4 == 0 && bit_and operation 8 == 0) ≡ true)
          ⊎ ((waits ≡ []) × (answer ≡ some blocked)))
unfolding ignis_park_flock
flock_waits site operation attempts t = ground (
  arith,
  flock_loop-waits 200 attempts
      (with_park t (may_park site.rows site.dladdr site.ret (codes "flock") t.park).0)
      (ground arith),
)
