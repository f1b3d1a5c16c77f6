-- ===== src/Workers.antt =====
-- crates/ignis/src/workers.rs: the master that supervises forked workers. What the system calls
-- answer (the children that waitpid reaps, the pids that fork gives, the clock, the signal) is an
-- argument of each turn of the loop, which reads the clock once; times are in milliseconds.
pub mod Slots
pub mod Shutdown
mod Examples
use ignis.Shared.{
  ℕ, suc, ◌+◌, ◌-◌, ◌≡◌, refl, Bool, true, false, not, ◌&&◌, ◌||◌, List, [], ◌∷◌, ◌++◌, map, Option,
  none, some, max, ltb, leb, ◌==◌, if◌then◌else◌, wrapping_add,
}

pub record Child : Type 0 where
  pub slot : ℕ
  pub pid : ℕ
  pub spawned_at : ℕ
  pub retry_at : Option ℕ

-- The variables of `supervise`, and `RESTARTS`.
pub record Master : Type 0 where
  pub children : List Child
  pub worst_status : ℕ
  pub restarts_this_minute : ℕ
  pub minute : ℕ
  pub shutdown_deadline : Option ℕ
  pub restarts : ℕ

-- A fresh child in a slot, where fork gave a pid.
abbrev pub spawn : (slot now : ℕ) → Option ℕ → Option Child
spawn slot now none = none
spawn slot now (some pid) =
    some (record { slot = slot; pid = pid; spawned_at = now; retry_at = none })

abbrev pub is_none {ℓ} : {A : Type ℓ} → Option A → Bool
is_none none = true
is_none (some _) = false

-- `children.iter().position(pid)` and `children.remove`: the first child with the pid, and the rest.
unfoldable pub take_child : ℕ → List Child → Option (Child × List Child)
take_child pid [] = none
take_child pid (c ∷ cs) =
    let rest = take_child pid cs in
    if c.pid == pid
    then some (c, cs)
    else elim rest [ some (found, others) ↦ some (found, c ∷ others) | none ↦ none ]

abbrev pub add_child : Option Child → List Child → List Child
add_child none cs = cs
add_child (some c) cs = cs ++ c ∷ []

-- A minute that has passed starts again with a full budget.
unfoldable pub new_minute : (now : ℕ) → Master → Master
new_minute now s =
    if ltb 60000 (now - s.minute) then record s { minute = now; restarts_this_minute = 0 } else s

-- The child goes back to its slot at once, or is paused where the budget is used up.
unfoldable pub bring_back : (now : ℕ) → (forked : Option ℕ) → Child → Master → Master
bring_back now forked child s =
    if leb 10 s.restarts_this_minute
    then record s { children = s.children ++ record child { retry_at = some (now + 5000) } ∷ [] }
    else record s {
      restarts_this_minute = s.restarts_this_minute + 1;
      restarts = wrapping_add s.restarts 1;
      children = add_child (spawn child.slot now forked) s.children;
    }

-- One child that `reap_one` found, at its time, and what fork then answers.
pub record Exit : Type 0 where
  pub pid : ℕ
  pub status : ℕ
  pub now : ℕ
  pub forked : Option ℕ

unfoldable pub reap : (respawn : Bool) → Exit → Master → Master
unfolding new_minute bring_back
reap respawn e s = elim (take_child e.pid s.children) [
  | none ↦ s
  | some (child, others) ↦
      let gone = record s { children = others; worst_status = max s.worst_status e.status } in
      if not (is_none s.shutdown_deadline) || not respawn
      then gone
      else bring_back e.now e.forked child (new_minute e.now gone)
]

unfoldable pub reap_all : (respawn : Bool) → List Exit → Master → Master
reap_all respawn [] s = s
reap_all respawn (e ∷ es) s = reap_all respawn es (reap respawn e s)

abbrev pub or_else : Option Child → Child → Child
or_else none c = c
or_else (some fresh) c = fresh

-- A paused child whose time has come is replaced, if fork succeeds.
retry_child : (now : ℕ) → (fork : ℕ → Option ℕ) → Child → Child
retry_child now fork c = elim c.retry_at [
  | none ↦ c
  | some t ↦ if ltb now t then c else or_else (spawn c.slot now (fork c.slot)) c
]

unfoldable pub retry_paused_slots : (now : ℕ) → (fork : ℕ → Option ℕ) → List Child → List Child
unfolding retry_child
retry_paused_slots now fork = map (retry_child now fork)

-- Each child is told to end, waited for, and replaced, if fork succeeds.
unfoldable pub reload_one_at_a_time : (now : ℕ) → (fork : ℕ → Option ℕ) → List Child → List Child
reload_one_at_a_time now fork = map (λ c. or_else (spawn c.slot now (fork c.slot)) c)

pub data Signal : Type 0 where
  no_signal hangup shut_down : Signal

-- What the system answers in one turn: the exits, the retries' and the reload's pids by slot, and
-- the signal that came.
pub record Turn : Type 0 where
  pub exits : List Exit
  pub now : ℕ
  pub retried : ℕ → Option ℕ
  pub reloaded : ℕ → Option ℕ
  pub signal : Signal

unfoldable pub on_signal : Signal → Turn → (drain_timeout : ℕ) → Master → Master
on_signal no_signal t drain_timeout s = s
on_signal hangup t drain_timeout s = record s {
  children = reload_one_at_a_time t.now t.reloaded s.children;
}
on_signal shut_down t drain_timeout s = record s {
  shutdown_deadline = elim s.shutdown_deadline [
    | some d ↦ some d
    | none ↦ some (t.now + drain_timeout + 2000)
  ];
}

-- A turn of `supervise` up to its two exits.
unfoldable pub turn : (respawn : Bool) → (drain_timeout : ℕ) → Turn → Master → Master
unfolding on_signal
turn respawn drain_timeout t s =
    let reaped = reap_all respawn t.exits s in
    let retried = record reaped { children = retry_paused_slots t.now t.retried reaped.children } in
    on_signal t.signal t drain_timeout retried

abbrev no_children : List Child → Bool
no_children [] = true
no_children (_ ∷ _) = false

-- The status that `supervise` returns with, where it returns after the turn.
unfoldable pub verdict : (now : ℕ) → Master → Option ℕ
verdict now s =
    if no_children s.children
    then (if is_none s.shutdown_deadline then some s.worst_status else some 0)
    else elim s.shutdown_deadline [ none ↦ none | some d ↦ if ltb d now then some 0 else none ]

unfoldable pub supervise :
    (respawn : Bool) → (drain_timeout : ℕ) → List Turn → Master → Master × Option ℕ
supervise respawn drain_timeout [] s = (s, none)
supervise respawn drain_timeout (t ∷ ts) s =
    let after = turn respawn drain_timeout t s in
    let rest = supervise respawn drain_timeout ts after in
    elim (verdict t.now after) [ some status ↦ (after, some status) | none ↦ rest ]
