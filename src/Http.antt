-- ===== src/Http.antt =====
-- crates/ignis/src/http.rs: the registry of the PHP threads that serve, which of them a request
-- goes to, who joins and leaves, health, and the drain. A reactor is shared by its thread and the
-- registry, so it stands in a store under its thread's number, and the registry holds numbers.
pub mod Pick
pub mod Registry
pub mod Drain
mod Examples
use ignis.Shared.{
  ℕ, zero, suc, ◌+◌, ◌-◌, ◌%◌, ◌≡◌, refl, Bool, true, false, not, ◌&&◌, ◌||◌, List, [], ◌∷◌, ◌++◌,
  map, Option, none, some, length, get_elem?, ltb, leb, ◌==◌, if◌then◌else◌, wrapping_add, u64_mod,
}
use ignis.Reactor.{Reactor, inject, ready, server_started, idle_in_php}
use ignis.Reactor.Answers.{pending_requests, fail_pending}
use ignis.Metrics.{Totals, no_totals, add_all}

-- `bound` and `inherited` hold an address by its number.
pub record Front : Type 0 where
  pub threads : ℕ → Reactor
  pub registered : List ℕ
  pub next : ℕ
  pub bound : Option ℕ
  pub inherited : Option ℕ
  pub shutting_down : Bool
  pub listener_stop : Bool

-- The process before the first `ignis_serve`.
abbrev pub no_front : (ℕ → Reactor) → Front
no_front threads = record {
  threads = threads;
  registered = [];
  next = 0;
  bound = none;
  inherited = none;
  shutting_down = false;
  listener_stop = false;
}

-- `rs[i].pending_requests()`. Every index that is asked for is below the length.
unfoldable pub load : Front → ℕ → ℕ
load f i = elim (get_elem? f.registered i) [ some t ↦ pending_requests (f.threads t) | none ↦ 0 ]

-- The loop of `pick` over the offsets from `k` on, `turns` of them.
unfoldable pub scan : (ℕ → ℕ) → (n start turns k best best_load : ℕ) → ℕ
scan load n start zero k best best_load = best
scan load n start (suc turns) k best best_load =
    let i = (start + k) % n in
    let found = scan load n start turns (suc k) i (load i) in
    let passed = scan load n start turns (suc k) best best_load in
    if ltb (load i) best_load then (if load i == 0 then i else found) else passed

-- The thread for the next request. `none` is the answer to no thread at all.
unfoldable pub pick : Front → Front × Option ℕ
pick f =
    let n = length f.registered in
    let start = f.next % n in
    if n == 0 then (f, none) else (
      record f { next = wrapping_add f.next 1 },
      get_elem? f.registered (scan (load f) n start n 0 start (u64_mod - 1)),
    )

-- `pending_requests() > 0 && idle_in_php() > limit`, the thread's clock reading `now`.
unfoldable pub is_stalled : Front → (limit now : ℕ) → ℕ → Bool
is_stalled f limit now t =
    ltb 0 (pending_requests (f.threads t)) && ltb limit (idle_in_php (f.threads t) now)

abbrev pub count : (ℕ → Bool) → List ℕ → ℕ
count p [] = 0
count p (t ∷ ts) = (if p t then 1 else 0) + count p ts

unfoldable pub stalled_threads : Front → (limit now : ℕ) → ℕ × ℕ
stalled_threads f limit now = (count (is_stalled f limit now) f.registered, length f.registered)

pub data Health : Type 0 where
  ok draining unavailable : Health

unfoldable pub health : Front → (now : ℕ) → Health
unfolding stalled_threads
health f now =
    let (stalled, total) = stalled_threads f 1000000 now in
    if ltb 0 total && ltb stalled total && not f.shutting_down
    then ok
    else if f.shutting_down
    then draining
    else unavailable

-- Takes the thread out of dispatch: `retain` by pointer.
abbrev pub without : ℕ → List ℕ → List ℕ
without t [] = []
without t (u ∷ us) = if u == t then without t us else u ∷ without t us

abbrev pub set_thread : (ℕ → Reactor) → ℕ → Reactor → ℕ → Reactor
set_thread threads t r u = if t == u then r else threads u

unfoldable pub leave_dispatch : Front → ℕ → Front
leave_dispatch f t = record f { registered = without t f.registered }

-- The thread ended: its requests fail. Also returns how many there were.
unfoldable pub unregister : Front → ℕ → Front × ℕ
unfolding leave_dispatch
unregister f t =
    let left = leave_dispatch f t in
    let (r, n) = fail_pending (left.threads t) in
    (record left { threads = set_thread left.threads t r }, n)

-- One completion that nobody awaits, to each registered thread.
wake_each : List ℕ → (ℕ → Reactor) → ℕ → Reactor
wake_each [] threads = threads
wake_each (t ∷ ts) threads = wake_each ts (set_thread threads t (inject (threads t) ready).0)

unfoldable pub wake_all : Front → Front
unfolding wake_each
wake_all f = record f { threads = wake_each f.registered f.threads }

abbrev join : Front → ℕ → Front
join f t = record f {
  threads = set_thread f.threads t (server_started (f.threads t));
  registered = f.registered ++ t ∷ [];
}

-- `address` is what the text parses to, and `listened` the address that the system binds for it. The
-- calls on a socket that is bound already are taken to succeed.
unfoldable pub start : Front → ℕ → (address listened : Option ℕ) → Front × Option ℕ
start f t address listened = elim f.bound [
  | some b ↦ (join f t, some b)
  | none ↦ elim address [
    | none ↦ (f, none)
    | some asked ↦ elim f.inherited [
      | some held ↦
          let taken = record f { inherited = none } in
          if held == asked
          then (join (record taken { bound = some held }) t, some held)
          else (taken, none)
      | none ↦ elim listened [
        | some local ↦ (join (record f { bound = some local }) t, some local)
        | none ↦ (f, none)
      ]
    ]
  ]
]

unfoldable pub totals : ℕ → Front → Totals
totals now f = add_all now no_totals (map f.threads f.registered)

-- The two phases that `drain` announces.
unfoldable pub drain_begins : Front → Front
drain_begins f = record f { shutting_down = true }

unfoldable pub drain_stops_listener : Front → Front
drain_stops_listener f = record f { listener_stop = true }

-- What one turn of the wait sees: the process, how long the wait has taken when that is asked of it,
-- and how long when it returns.
pub record Turn : Type 0 where
  pub front : Front
  pub now_ms : ℕ
  pub elapsed_ms : ℕ
  pub took_ms : ℕ

-- The loop of `drain` over the turns that it gets; `none` is a wait that goes on.
unfoldable pub drain_wait : ℕ → List Turn → Option (ℕ × ℕ)
drain_wait limit [] = none
drain_wait limit (turn ∷ turns) =
    let pending = (totals turn.now_ms turn.front).pending in
    let rest = drain_wait limit turns in
    if pending == 0 || leb limit turn.elapsed_ms then some (turn.took_ms, pending) else rest
