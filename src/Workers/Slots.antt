-- ===== src/Workers/Slots.antt =====
-- crates/ignis/src/workers.rs: what becomes of the slots while the master supervises.
use ignis.Shared.{
  ℕ, ◌+◌, ◌≡◌, ◌≢◌, refl, ap, subst, ◌∙◌, inl, inr, true, List, [], ◌∷◌, map, Option, none, some,
  arith, max, ltb, leb, ◌==◌, if◌then◌else◌, sum_by, sum_by-append, All, Option-cases, Bool-cases,
}
use ignis.Workers.{
  Child, Master, Exit, Turn, Signal, no_signal, hangup, shut_down, spawn, take_child, new_minute,
  bring_back, reap, reap_all, or_else, retry_paused_slots, retry_child, reload_one_at_a_time,
  on_signal, turn, is_none,
}

-- How many children stand for slot `k`, running or paused.
abbrev pub in_slot : ℕ → Child → ℕ
in_slot k c = if c.slot == k then 1 else 0

abbrev pub seats : ℕ → List Child → ℕ
seats k cs = sum_by (in_slot k) cs

-- The exits whose fork succeeds.
abbrev pub Forked : Exit → Type 0
Forked e = e.forked ≢ none

-- What is taken out and what is left are the list.
abbrev Parts : (Child → ℕ) → List Child → Option (Child × List Child) → Type 0
Parts w cs none = Unit
Parts w cs (some (c, others)) = sum_by w others + w c ≡ sum_by w cs

take_child-Parts : (w : Child → ℕ) (pid : ℕ) (cs : List Child) → Parts w cs (take_child pid cs)
unfolding take_child
take_child-Parts w pid [] = tt
take_child-Parts w pid (d ∷ ds) = elim (Bool-cases (d.pid == pid)) [
  | inl y ↦ rw (y, take_child) (omega arith)
  | inr n ↦ elim (Option-cases (take_child pid ds)) [
    | inl q ↦ rw (n, q, take_child) tt
    | inr ((c, others), q) ↦
        let h = subst (Parts w ds) q (take_child-Parts w pid ds) in
        rw (n, q, take_child) (omega (arith, h))
  ]
]

seats-replaced :
    (k now : ℕ) (c : Child) (o : Option ℕ)
    → in_slot k (or_else (spawn c.slot now o) c) ≡ in_slot k c
seats-replaced k now c none = refl
seats-replaced k now c (some pid) = refl

seats-retry :
    (k now : ℕ) (fork : ℕ → Option ℕ) (c : Child) → in_slot k (retry_child now fork c) ≡ in_slot k c
unfolding retry_child
seats-retry k now fork c = elim (Option-cases c.retry_at) [
  | inl e ↦ rw (e, retry_child) refl
  | inr (t, e) ↦ elim (Bool-cases (ltb now t)) [
    | inl y ↦ rw (e, y, retry_child) refl
    | inr n ↦ rw (e, n, retry_child) (seats-replaced k now c (fork c.slot))
  ]
]

seats-map :
    (k : ℕ) (f : Child → Child) (cs : List Child)
    → ((c : Child) → in_slot k (f c) ≡ in_slot k c)
    → seats k (map f cs) ≡ seats k cs
seats-map k f [] h = refl
seats-map k f (c ∷ cs) h = omega (arith, h c, seats-map k f cs h)

bring_back-seats :
    (k now : ℕ) (forked : Option ℕ) (c : Child) (s : Master)
    → forked ≢ none
    → seats k (bring_back now forked c s).children ≡ seats k s.children + in_slot k c
unfolding bring_back
bring_back-seats k now none c s n = absurd (n refl)
bring_back-seats k now (some pid) c s n = elim (Bool-cases (leb 10 s.restarts_this_minute)) [
  | inl y ↦ rw (y, bring_back) (sum_by-append (in_slot k) s.children _ ∙ omega arith)
  | inr y ↦ rw (y, bring_back) (sum_by-append (in_slot k) s.children _ ∙ omega arith)
]

pub new_minute-children : (now : ℕ) (s : Master) → (new_minute now s).children ≡ s.children
unfolding new_minute
new_minute-children now s = ground arith

new_minute-deadline :
    (now : ℕ) (s : Master) → (new_minute now s).shutdown_deadline ≡ s.shutdown_deadline
unfolding new_minute
new_minute-deadline now s = ground arith

bring_back-deadline :
    (now : ℕ) (o : Option ℕ) (c : Child) (s : Master)
    → (bring_back now o c s).shutdown_deadline ≡ s.shutdown_deadline
unfolding bring_back
bring_back-deadline now o c s = ground arith

reap-seats :
    (k : ℕ) (e : Exit) (s : Master)
    → Forked e
    → s.shutdown_deadline ≡ none
    → (seats k (reap true e s).children ≡ seats k s.children)
      × ((reap true e s).shutdown_deadline ≡ none)
unfolding reap
reap-seats k e s f d = elim (Option-cases (take_child e.pid s.children)) [
  | inl q ↦ rw (q, reap) (refl, d)
  | inr ((c, others), q) ↦
      let gone : Master = record s {
        children = others;
        worst_status = max s.worst_status e.status;
      } in
      let h =
        subst (Parts (in_slot k) s.children) q (take_child-Parts (in_slot k) e.pid s.children) in
      let serving : is_none s.shutdown_deadline ≡ true = ap (λ (o : Option ℕ). is_none o) d in
      rw (q, serving, reap)
        (
          bring_back-seats k e.now e.forked c (new_minute e.now gone) f
              ∙ (ap (λ (cs : List Child). seats k cs + in_slot k c) (new_minute-children e.now gone)
                  ∙ h),
          bring_back-deadline e.now e.forked c (new_minute e.now gone)
              ∙ (new_minute-deadline e.now gone ∙ d),
        )
]

reap_all-seats :
    (k : ℕ) (es : List Exit) (s : Master)
    → All Forked es
    → s.shutdown_deadline ≡ none
    → (seats k (reap_all true es s).children ≡ seats k s.children)
      × ((reap_all true es s).shutdown_deadline ≡ none)
unfolding reap_all
reap_all-seats k [] s f d = (refl, d)
reap_all-seats k (e ∷ es) s f d =
    let (h, d2) = reap-seats k e s f.0 d in
    let (h3, d3) = reap_all-seats k es (reap true e s) f.1 d2 in (h3 ∙ h, d3)

signal-seats :
    (k drain_timeout : ℕ) (t : Turn) (signal : Signal) (s : Master)
    → seats k (on_signal signal t drain_timeout s).children ≡ seats k s.children
unfolding on_signal reload_one_at_a_time
signal-seats k drain_timeout t no_signal s = refl
signal-seats k drain_timeout t shut_down s = refl
signal-seats k drain_timeout t hangup s =
    seats-map k (λ c. or_else (spawn c.slot t.now (t.reloaded c.slot)) c) s.children
      (λ c. seats-replaced k t.now c (t.reloaded c.slot))

-- With respawning, before a shutdown, and where fork succeeds for every exit of the turn: a turn of
-- the master, whichever signal comes, leaves every slot as many children as it had, running or
-- paused. So a worker that keeps ending is never dropped.
pub turn-seats :
    (k drain_timeout : ℕ) (t : Turn) (s : Master)
    → All Forked t.exits
    → s.shutdown_deadline ≡ none
    → seats k (turn true drain_timeout t s).children ≡ seats k s.children
unfolding turn retry_paused_slots
turn-seats k drain_timeout t s f d =
    let reaped = reap_all true t.exits s in
    let retried : List Child = retry_paused_slots t.now t.retried reaped.children in
    signal-seats k drain_timeout t t.signal (record reaped { children = retried })
    ∙ (seats-map k (retry_child t.now t.retried) reaped.children (seats-retry k t.now t.retried)
        ∙ (reap_all-seats k t.exits s f d).0)
