-- ===== src/Park/Examples.antt =====
-- The theorems on parked calls at concrete calls, descriptors and policies.
use ignis.Shared.{
  ℕ, zero, suc, ◌≤◌, ◌<◌, ◌≡◌, ◌≢◌, refl, ◌⊎◌, inl, inr, true, false, List, [], ◌∷◌, ◌++◌, Option,
  none, some, Bytes, codes, arith, pos, negsuc, i32_max, lookup,
}
use ignis.Reactor.{Reactor, new, submit, watch, sleep, cancel_watch}
use ignis.Park.{Row, Park, libs, may_park, site_parks}
use ignis.Park.Times.{milliseconds_ceil}
use ignis.Park.Policy.{IsPlain, name, print, libs-print}
use ignis.Park.Sites.{decides, visit, sites_answer}
use ignis.Park.Descriptor.{s_ifsock, would_block}
use ignis.Park.Race.{Pollfd, Thread, park_pollfds, submit_all, cancel_losers}
use ignis.Park.Race.Cancels.{Submitted, cancels, ids_from, race, race_cancelled}
use ignis.Park.Calls.{Io, real_call, would_wait, Site, io_handler, sock_timeout_ms, park_io}
use ignis.Park.Answers.{watched, timer_id, io_handler-answer}
use ignis.Park.Poll.{Round, poll_loop}
use ignis.Park.Timeouts.{TimersHonest, poll_zero_late, poll_returns}
use ignis.Park.Connect.{
  Result, ignis_park_connect, flags_after, forwarded, Reports, connect_restores, park_on,
}

abbrev php_sockets : List Row
php_sockets = (codes "libphp", some (codes "recv")) ∷ (codes "libpq", none) ∷ []

abbrev loader : ℕ → Option Bytes
loader zero = none
loader (suc ret) = some (codes "/usr/lib/libpq.so.5")

abbrev symbols : ℕ → Bytes
symbols ret = codes "recv"

abbrev in_fiber : Park
in_fiber = record {
  gate = 1;
  sites = [];
  inventory = [];
  probing = false;
  probe_hits = [];
  park_failed = 0;
}

abbrev fiber : Thread
fiber = record { park = in_fiber; reactor = some (new 0) }

abbrev pq : Site
pq = record { rows = php_sockets; dladdr = loader; ret = 40 }

letter : (c : ℕ) → 97 ≤ c → IsPlain c
letter c l = record {
  no_comma = ground (arith, l);
  no_colon = ground (arith, l);
  no_space = ground (arith, l);
}

-- One symbol of one library, and all of another.
abbrev short_policy : List Row
short_policy = (codes "c", some (codes "up")) ∷ (codes "pq", none) ∷ []

libs-print_example : libs (some (print short_policy)) ≡ short_policy
libs-print_example = libs-print short_policy (
  (
    name 99 [] (letter 99 (omega arith)) tt,
    name 117 (112 ∷ []) (letter 117 (omega arith)) (letter 112 (omega arith), tt),
  ),
  (name 112 (113 ∷ []) (letter 112 (omega arith)) (letter 113 (omega arith), tt), tt),
)

sites_answer_example :
    (site_parks php_sockets loader 40
      (codes "recv")
      (visit php_sockets loader symbols (40 ∷ 0 ∷ 41 ∷ []) in_fiber)).1
    ≡ decides php_sockets loader 40 (codes "recv")
sites_answer_example = sites_answer php_sockets loader symbols in_fiber (40 ∷ 0 ∷ 41 ∷ []) 40 refl

abbrev two_fds : List Pollfd
two_fds = record { fd = pos 5; events = 1 } ∷ record { fd = pos 6; events = 5 } ∷ []

-- Four ops, of which the second wins.
race_cancelled_example :
    (s : Reactor) × ((park_pollfds two_fds (pos 30) (some 2) fiber).0.reactor ≡ some s)
    × Submitted
        (new 0)
        (race two_fds (pos 30) ++ cancels 2 (ids_from (new 0).next_id (race two_fds (pos 30))))
        s
unfolding new
race_cancelled_example =
    race_cancelled two_fds (pos 30) fiber (new 0) 2 refl refl (omega arith) (omega arith)

four_ops_race :
    race two_fds (pos 30) ++ cancels 2 (ids_from 1 (race two_fds (pos 30)))
    ≡ watch 5 false
      ∷ watch 6 false
      ∷ watch 6 true
      ∷ sleep 30000
      ∷ cancel_watch 1
      ∷ cancel_watch 3
      ∷ cancel_watch 4
      ∷ []
four_ops_race = refl

-- A connected stream socket with no data and a read timeout of 50 ms, which the timer ends.
abbrev idle_socket : Io
idle_socket = record {
  descriptor = record {
    flags = some 2;
    mode = some s_ifsock;
    accepts = some 0;
    connected = true;
    socket_type = some 1;
    own_address = none;
  };
  ready = false;
  timeout = some (pos 0, pos 50000);
  woke = some 2;
}

io_handler-answer_example :
    let (after, answer) = io_handler (codes "recv") false false pq (pos 5) idle_socket fiber in
    (after.park.gate ≡ fiber.park.gate)
    × ((answer ≡ real_call)
        ⊎ ((answer ≡ would_wait)
            × (fiber.park.gate ≡ 1)
            × (false ≡ false)
            × (would_block idle_socket.descriptor ≡ true)
            × (idle_socket.ready ≡ false)
            × (0 < sock_timeout_ms idle_socket.timeout)
            × ((id : ℕ) × (idle_socket.woke ≡ some id)
                × (timer_id (watched (pos 5) false) fiber.reactor ≡ some id))))
io_handler-answer_example =
    io_handler-answer (codes "recv") false false pq (pos 5) idle_socket fiber

times_out : (io_handler (codes "recv") false false pq (pos 5) idle_socket fiber).1 ≡ would_wait
unfolding new io_handler park_io may_park site_parks park_pollfds submit_all cancel_losers
    sock_timeout_ms would_block lookup milliseconds_ceil submit
times_out = refl

-- A descriptor wakes the fiber at 20 ms and has nothing to read; then the timer ends the rest.
abbrev spurious : List Round
spurious =
    record { elapsed = 0; woke = some 1; woken_at = 20; recheck = pos 0 }
    ∷ record { elapsed = 20; woke = some 5; woken_at = 51; recheck = pos 0 }
    ∷ []

abbrev one_fd : List Pollfd
one_fd = record { fd = pos 5; events = 1 } ∷ []

late_enough : TimersHonest one_fd (pos 50) spurious fiber
unfolding new park_pollfds submit_all cancel_losers submit
late_enough = (λ e. ground (arith, e), (λ e. omega arith, tt))

at_most_c_int : (ms : ℕ) → pos 50 ≡ pos ms → ms ≤ i32_max
at_most_c_int ms e = ground (arith, e)

poll_zero_late_example : 50 ≤ 51
unfolding new park_pollfds submit_all cancel_losers submit poll_loop
poll_zero_late_example =
    poll_zero_late one_fd (pos 50) spurious fiber 51 at_most_c_int late_enough refl

-- The fiber wakes at 20 ms, spuriously, and the thread is busy until 70 ms.
abbrev busy_thread : List Round
busy_thread =
    record { elapsed = 0; woke = some 1; woken_at = 20; recheck = pos 0 }
    ∷ record { elapsed = 70; woke = some 6; woken_at = 70; recheck = pos 0 }
    ∷ []

poll_returns_example : (poll_loop one_fd (pos 50) busy_thread fiber).1 ≢ none
poll_returns_example = poll_returns one_fd 50 busy_thread fiber (inr (inl (omega arith)))

abbrev in_progress : Result
in_progress = record { rc = negsuc 0; errno = 115 }

abbrev refused : Result
refused = record { rc = negsuc 0; errno = 111 }

-- A connect that is refused after the fiber has waited for it.
connect_restores_example :
    let (after, c) = ignis_park_connect pq 7 (some 2) in_progress true (inr 111) fiber in
    (flags_after 2 c.set_flags ≡ 2)
    × (after.park.gate ≡ fiber.park.gate)
    × ((c ≡ forwarded) ⊎ Reports in_progress (inr 111) c)
connect_restores_example = connect_restores pq 7 2 in_progress true (inr 111) fiber

connect_refused :
    (ignis_park_connect pq 7 (some 2) in_progress true (inr 111) fiber).1.result ≡ some refused
unfolding new ignis_park_connect park_on may_park site_parks lookup
connect_refused = refl
