-- ===== src/Park/Select.antt =====
-- crates/ignis/src/php/park.rs, `ignis_park_select`: which interests of the caller's sets a fiber
-- waits for, and when the call is forwarded. The sets are the caller's interests in the descriptors
-- from 0 up to `n`; a null set has none.
use ignis.Shared.{
  ℕ, suc, ◌+◌, Bool, true, false, not, ◌&&◌, ◌||◌, List, [], ◌∷◌, Option, none, some, codes, ◌==◌,
  if◌then◌else◌, ℤ, pos,
}
use ignis.Park.{may_park}
use ignis.Park.Times.{Timespec}
use ignis.Park.Race.{Pollfd, pollin, pollout, Thread, park_pollfds}
use ignis.Park.Calls.{Site, with_park, unguarded}
use ignis.Park.Poll.{timespec_ms, is_zero}

pub record Interest : Type 0 where
  pub reads : Bool
  pub writes : Bool
  pub excepts : Bool

abbrev pub events_of : Interest → ℕ
events_of i = (if i.reads then pollin else 0) + (if i.writes then pollout else 0)

-- The descriptors to wait for; none where one is wanted for exceptions only.
unfoldable pub interests : (fd : ℕ) → List Interest → Option (List Pollfd)
interests fd [] = some []
interests fd (i ∷ is) =
    let rest = interests (suc fd) is in
    let events = events_of i in
    if events == 0 && i.excepts
    then none
    else if events == 0
    then rest
    else elim rest [ none ↦ none | some fds ↦ some (record { fd = pos fd; events = events } ∷ fds) ]

-- `forwards`: the caller's own call, with its own timeout; `hands`: the probe's answer and its sets;
-- `fills`: the call with a zero timeout, on the caller's sets.
pub data Selected : Type 0 where
  forwards hands fills : Selected

abbrev no_interests : List Interest → Bool
no_interests [] = true
no_interests (_ ∷ _) = false

-- `probe` is what the zero-timeout select answers on copies of the sets.
unfoldable pub ignis_park_select :
    Site
    → List Interest
    → (tv : Option Timespec) → (probe : ℤ) → (woke : Option ℕ) → Thread
    → Thread × Selected
unfolding interests
ignis_park_select site is tv probe woke t =
    let (p, parks) = may_park site.rows site.dladdr site.ret (codes "select") t.park in
    if parks
    then (if no_interests is || is_zero (timespec_ms tv)
        then (unguarded (with_park t p), forwards)
        else if not (is_zero probe)
        then (unguarded (with_park t p), hands)
        else elim (interests 0 is) [
          | none ↦ (unguarded (with_park t p), forwards)
          | some fds ↦
              let (after, won) = park_pollfds fds (timespec_ms tv) woke (with_park t p) in
              elim won [
                | none ↦ (unguarded after, forwards)
                | some by_fd ↦ (unguarded after, fills)
              ]
        ])
    else (with_park t p, forwards)
