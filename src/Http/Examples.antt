-- ===== src/Http/Examples.antt =====
-- The theorems on the front door at two threads, the first of which owes an answer.
use ignis.Shared.{
  ℕ, zero, suc, ◌+◌, ◌-◌, ◌%◌, ◌≤◌, ◌<◌, ◌≡◌, refl, ◌⊎◌, All, List, [], ◌∷◌, ◌++◌, some, arith,
  codes, get_elem?, u64_mod, wrapping_add, insert, ◌==◌, if◌then◌else◌,
}
use ignis.Reactor.{HttpRequest, Reactor, new}
use ignis.Reactor.Answers.{deliver_request_with_id, pending_requests}
use ignis.Http.{Front, no_front, load, pick, scan, Turn, drain_wait}
use ignis.Http.Pick.{pick_least}
use ignis.Http.Drain.{GoesOn, pending_at, drain_returns}

abbrev get_request : HttpRequest
get_request = record { method = codes "GET"; uri = codes "/"; headers = []; body = [] }

abbrev busy : Reactor
busy = (deliver_request_with_id (new 0) get_request).0

abbrev two_threads : Front
two_threads = record (no_front (λ t. if t == 7 then busy else new 0)) { registered = 7 ∷ 8 ∷ [] }

loads : (load two_threads 0 ≡ 1) × (load two_threads 1 ≡ 0)
unfolding load new deliver_request_with_id pending_requests insert
loads = (refl, refl)

small_loads : (i : ℕ) → i < 2 → load two_threads i < u64_mod - 1
small_loads zero l = omega (arith, loads)
small_loads (suc zero) l = omega (arith, loads)
small_loads (suc (suc i)) l = omega arith

pick_least_example :
    (k t : ℕ) × ((pick two_threads).1 ≡ some t)
    × (get_elem? (7 ∷ 8 ∷ []) ((0 % 2 + k) % 2) ≡ some t)
    × ((i : ℕ) → i < 2 → load two_threads ((0 % 2 + k) % 2) ≤ load two_threads i)
    × ((j : ℕ) → j < k → load two_threads ((0 % 2 + k) % 2) < load two_threads ((0 % 2 + j) % 2))
    × ((pick two_threads).0 ≡ record two_threads { next = wrapping_add 0 1 })
pick_least_example = pick_least two_threads (omega arith) small_loads

-- The idle thread is picked.
picked_idle : (pick two_threads).1 ≡ some 8
unfolding pick scan load new deliver_request_with_id pending_requests insert
picked_idle = refl

abbrev waits : List Turn
waits =
    record { front = two_threads; now_ms = 100; elapsed_ms = 0; took_ms = 0 }
    ∷ record { front = two_threads; now_ms = 106; elapsed_ms = 6; took_ms = 6 }
    ∷ record { front = two_threads; now_ms = 111; elapsed_ms = 11; took_ms = 11 }
    ∷ []

drain_returns_example :
    (before : List Turn) × (turn : Turn) × (after : List Turn) × (waits ≡ before ++ turn ∷ after)
    × All (GoesOn 10) before
    × ((pending_at turn ≡ 0) ⊎ (10 ≤ turn.elapsed_ms))
    × (drain_wait 10 waits ≡ some (turn.took_ms, pending_at turn))
drain_returns_example =
    drain_returns 10 waits (omega arith, (omega arith, (omega arith, tt))) (omega arith)

abbrev last_thread : Front
last_thread = record two_threads { registered = 7 ∷ [] }
