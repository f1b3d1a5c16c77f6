-- ===== src/Park/Poll.antt =====
-- crates/ignis/src/php/park.rs, `poll_impl` and its callers: the wait for several descriptors. What the
-- zero-timeout polls answer, the clock, and what wakes the fiber come with each round of the loop.
use ignis.Shared.{
  ℕ, zero, ◌-◌, Bool, true, false, not, ◌&&◌, ◌||◌, List, [], ◌∷◌, Option, none, some, Bytes, codes,
  if◌then◌else◌, leb, min, ℤ, pos, negsuc, i32_max,
}
use ignis.Park.{may_park}
use ignis.Park.Times.{Timespec, ms_ceil}
use ignis.Park.Race.{Pollfd, Thread, park_pollfds}
use ignis.Park.Calls.{Site, with_park, unguarded}

-- `answers`: the value that the caller gets, and when; `blocks`: the real call, which blocks for at
-- most this long.
pub data Polled : Type 0 where
  answers : (r : ℤ) → (at_ms : ℕ) → Polled
  blocks : (timeout : ℤ) → Polled

abbrev pub is_zero : ℤ → Bool
is_zero (pos zero) = true
is_zero _ = false

-- What is left of the caller's timeout; none where nothing is.
abbrev pub left_of : (timeout : ℤ) → (elapsed : ℕ) → Option ℤ
left_of (negsuc n) elapsed = some (negsuc 0)
left_of (pos ms) elapsed = if leb ms elapsed then none else some (pos (min (ms - elapsed) i32_max))

-- `elapsed` is the clock at the head of the loop, `woken_at` after the park, `recheck` what the
-- zero-timeout poll then answers.
pub record Round : Type 0 where
  pub elapsed : ℕ
  pub woke : Option ℕ
  pub woken_at : ℕ
  pub recheck : ℤ

unfoldable pub poll_loop :
    List Pollfd → (timeout : ℤ) → List Round → Thread → Thread × Option Polled
poll_loop fds timeout [] t = (t, none)
poll_loop fds timeout (r ∷ rounds) t = elim (left_of timeout r.elapsed) [
  | none ↦ (t, some (answers r.recheck r.elapsed))
  | some left ↦ elim (park_pollfds fds left r.woke t).1 [
    | none ↦ ((park_pollfds fds left r.woke t).0, some (blocks left))
    | some by_fd ↦
        if by_fd && is_zero r.recheck
        then poll_loop fds timeout rounds (park_pollfds fds left r.woke t).0
        else ((park_pollfds fds left r.woke t).0, some (answers r.recheck r.woken_at))
  ]
]

abbrev no_fds : List Pollfd → Bool
no_fds [] = true
no_fds (_ ∷ _) = false

-- `probe` is what the first zero-timeout poll answers.
unfoldable pub poll_impl :
    (sym : Bytes)
    → Site
    → List Pollfd
    → (timeout : ℤ) → (probe : ℤ) → List Round
    → Thread
    → Thread × Option Polled
unfolding poll_loop
poll_impl sym site fds timeout probe rounds t =
    let (p, parks) = may_park site.rows site.dladdr site.ret sym t.park in
    let (after, answer) = poll_loop fds timeout rounds (with_park t p) in
    if parks
    then (if is_zero timeout || no_fds fds
        then (unguarded (with_park t p), some (blocks timeout))
        else if not (is_zero probe)
        then (unguarded (with_park t p), some (answers probe 0))
        else (unguarded after, answer))
    else (with_park t p, some (blocks timeout))

unfoldable pub ignis_park_poll :
    Site → List Pollfd → (timeout : ℤ) → (probe : ℤ) → List Round → Thread → Thread × Option Polled
ignis_park_poll = poll_impl (codes "poll")

abbrev pub timespec_ms : Option Timespec → ℤ
timespec_ms none = negsuc 0
timespec_ms (some ts) = pos (ms_ceil ts)

-- With a signal mask the wait stays the kernel's.
unfoldable pub ignis_park_ppoll :
    Site
    → List Pollfd
    → Option Timespec
    → (masked : Bool) → (probe : ℤ) → List Round
    → Thread
    → Thread × Option Polled
unfolding poll_impl
ignis_park_ppoll site fds ts masked probe rounds t =
    if masked
    then (t, some (blocks (timespec_ms ts)))
    else poll_impl (codes "ppoll") site fds (timespec_ms ts) probe rounds t
