-- ===== src/Metrics/Examples.antt =====
-- The totals of two threads that have published.
use ignis.Shared.{◌≡◌, refl, List, [], ◌∷◌}
use ignis.Reactor.{Reactor, new}
use ignis.Metrics.{no_totals, add, add_all}

abbrev busy_thread : Reactor
unfolding new
busy_thread = record (new 0) {
  inflight = 3;
  published = record ((new 0).published) { queued = 4; budget = 64; at_ms = 900 };
}

abbrev two_threads : List Reactor
two_threads = busy_thread ∷ record busy_thread { inflight = 2 } ∷ []

two_threads_total : (add_all 1000 no_totals two_threads).ops ≡ 5
unfolding new add_all add
two_threads_total = refl
