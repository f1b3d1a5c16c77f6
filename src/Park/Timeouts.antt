-- ===== src/Park/Timeouts.antt =====
-- crates/ignis/src/php/park.rs, `poll_impl`: when a poll answers that its timeout has elapsed, and
-- that it answers.
use ignis.Shared.{
  ℕ, ◌+◌, ◌-◌, ◌≤◌, ◌≡◌, ◌≢◌, refl, ◌⊎◌, inl, inr, Bool, false, List, [], ◌∷◌, Option, none, some,
  min, arith, ℤ, pos, negsuc, i32_max,
}
use ignis.Park.Race.{Pollfd, Thread, park_pollfds, submit_all}
use ignis.Park.Poll.{answers, left_of, Round, poll_loop}

-- A timer that wakes the fiber has run for as long as it was to.
abbrev pub NotEarly : ℤ → Round → Option Bool → Type 0
NotEarly (negsuc n) r won = Unit
NotEarly (pos ms) r won = won ≡ some false → r.elapsed + ms ≤ r.woken_at

abbrev pub TimersHonest : List Pollfd → (timeout : ℤ) → List Round → Thread → Type 0
TimersHonest fds timeout [] t = Unit
TimersHonest fds timeout (r ∷ rounds) t = elim (left_of timeout r.elapsed) [
  | none ↦ Unit
  | some left ↦
      NotEarly left r (park_pollfds fds left r.woke t).1
      × TimersHonest fds timeout rounds (park_pollfds fds left r.woke t).0
]

-- With no timeout there is no timer to win.
no_timer :
    (fds : List Pollfd) (woke : Option ℕ) (t : Thread)
    → (park_pollfds fds (negsuc 0) woke t).1 ≡ some false
    → 1 ≤ 0
unfolding park_pollfds submit_all
no_timer fds woke t e = ground arith

abbrev pub Reached : ℤ → ℕ → Type 0
Reached (pos ms) at_ms = ms ≤ at_ms
Reached (negsuc n) at_ms = ⊥

-- Where the timers do not end early, with a timeout that a `c_int` can hold, and from any state: the
-- loop answers 0 only where the caller's timeout has elapsed, so never to a caller without one.
pub poll_zero_late :
    (fds : List Pollfd) (timeout : ℤ) (rounds : List Round) (t : Thread) (at_ms : ℕ)
    → ((ms : ℕ) → timeout ≡ pos ms → ms ≤ i32_max)
    → TimersHonest fds timeout rounds t
    → (poll_loop fds timeout rounds t).1 ≡ some (answers (pos 0) at_ms)
    → Reached timeout at_ms
unfolding poll_loop
poll_zero_late fds (negsuc n) [] t at_ms b h e = ground arith
poll_zero_late fds (pos ms) [] t at_ms b h e = ground arith
poll_zero_late fds (negsuc n) (r ∷ rounds) t at_ms b h e = ground (
  arith,
  no_timer fds r.woke t,
  poll_zero_late fds (negsuc n) rounds (park_pollfds fds (negsuc 0) r.woke t).0 at_ms b h.1,
)
poll_zero_late fds (pos ms) (r ∷ rounds) t at_ms b h e = ground (
  arith,
  h,
  b ms refl,
  poll_zero_late fds (pos ms) rounds
      (park_pollfds fds (pos (min (ms - r.elapsed) i32_max)) r.woke t).0 at_ms b,
)

-- Some round begins when the timeout has elapsed.
abbrev pub Expires : ℕ → List Round → Type 0
Expires ms [] = ⊥
Expires ms (r ∷ rounds) = (ms ≤ r.elapsed) ⊎ Expires ms rounds

-- A caller whose timeout is not negative gets an answer, whatever wakes the fiber and from any state,
-- where one of the loop's rounds begins after the timeout: spurious wakes do not keep it there.
pub poll_returns :
    (fds : List Pollfd) (ms : ℕ) (rounds : List Round) (t : Thread)
    → Expires ms rounds
    → (poll_loop fds (pos ms) rounds t).1 ≢ none
unfolding poll_loop
poll_returns fds ms [] t x e = x
poll_returns fds ms (r ∷ rounds) t (inl late) e = ground (arith, late, e)
poll_returns fds ms (r ∷ rounds) t (inr more) e = ground (
  arith,
  e,
  poll_returns fds ms rounds (park_pollfds fds (pos (min (ms - r.elapsed) i32_max)) r.woke t).0
      more,
)
