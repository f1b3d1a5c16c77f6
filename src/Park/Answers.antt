-- ===== src/Park/Answers.antt =====
-- crates/ignis/src/php/park.rs: when a handler of a read or a write answers by itself.
use ignis.Shared.{
  ℕ, zero, suc, ◌<◌, ◌≡◌, refl, ◌⊎◌, Bool, true, false, List, [], ◌∷◌, Option, none, some, Bytes,
  if◌then◌else◌, arith, ℤ, pos,
}
use ignis.Reactor.{Reactor, submit}
use ignis.Park.{may_park, drop_guard}
use ignis.Park.Sites.{may_park-gate}
use ignis.Park.Descriptor.{would_block}
use ignis.Park.Race.{Pollfd, Thread, all_watches, submit_all, park_pollfds, pollin, pollout}
use ignis.Park.Calls.{
  Io, real_call, would_wait, timed_out, sock_timeout_ms, park_io, io_handler, Site, with_park,
}

-- The one descriptor that a read or a write waits for.
abbrev pub watched : ℤ → Bool → List Pollfd
watched fd write = record { fd = fd; events = if write then pollout else pollin } ∷ []

-- The id of the timer of a race, which is submitted after the watches.
abbrev pub timer_id : List Pollfd → Option Reactor → Option ℕ
timer_id fds none = none
timer_id fds (some r) = some (submit_all (all_watches fds) r).0.next_id

-- The timer can win only where there is one, and it woke the fiber.
timer_won :
    (fds : List Pollfd) (ms : ℕ) (woke : Option ℕ) (t : Thread)
    → (park_pollfds fds (pos ms) woke t).1 ≡ some false
    → (0 < ms) × ((id : ℕ) × (woke ≡ some id) × (timer_id fds t.reactor ≡ some id))
unfolding park_pollfds submit_all submit
timer_won fds zero woke t e = ground (arith, e)
timer_won fds (suc ms) none t e = ground (arith, e)
timer_won fds (suc ms) (some id) t e = (omega arith, (id, refl, ground (arith, e)))

park_io-timed_out :
    (fd : ℤ) (write : Bool) (io : Io) (t : Thread)
    → (park_io fd write io t).1 ≡ timed_out
    → (0 < sock_timeout_ms io.timeout)
      × ((id : ℕ) × (io.woke ≡ some id) × (timer_id (watched fd write) t.reactor ≡ some id))
unfolding park_io
park_io-timed_out fd write io t e =
    timer_won (watched fd write) (sock_timeout_ms io.timeout) io.woke t (ground (arith, e))

-- In every case a handler leaves the gate as it found it. It answers EAGAIN by itself only where the
-- call was to block, the descriptor was not ready, the socket has a timeout of its own, and the op that
-- woke the fiber is the timer, which is submitted after the watches; else it makes the real call.
pub io_handler-answer :
    (name : Bytes) (write dontwait : Bool) (site : Site) (fd : ℤ) (io : Io) (t : Thread)
    → let (after, answer) = io_handler name write dontwait site fd io t in
      (after.park.gate ≡ t.park.gate)
      × ((answer ≡ real_call)
          ⊎ ((answer ≡ would_wait)
              × (t.park.gate ≡ 1)
              × (dontwait ≡ false)
              × (would_block io.descriptor ≡ true)
              × (io.ready ≡ false)
              × (0 < sock_timeout_ms io.timeout)
              × ((id : ℕ) × (io.woke ≡ some id)
                  × (timer_id (watched fd write) t.reactor ≡ some id))))
unfolding io_handler drop_guard
io_handler-answer name write dontwait site fd io t = ground (
  arith,
  may_park-gate site.rows site.dladdr site.ret name t.park,
  park_io-timed_out fd write io
      (with_park t (may_park site.rows site.dladdr site.ret name t.park).0),
)
