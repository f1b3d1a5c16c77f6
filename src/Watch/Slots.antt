-- ===== src/Watch/Slots.antt =====
-- crates/ignis/src/watch.rs, `begin_reload` and `end_reload`: how many workers are away at once.
use ignis.Shared.{ℕ, ◌+◌, ◌≤◌, ◌<◌, ◌≡◌, refl, List, [], ◌∷◌, Option, none, some, arith, All}
use ignis.Watch.{
  Settings, Watch, Move, Phase, step, run, schedule_wake, claim_reset, begin_reload, end_reload,
  request, task_turn, event, notifies, turns, rechecks, requests, claims, leaves_to_reload, boots,
  boots_afresh, sleeps, bumps, announces, leaves, has_read, settles,
}

-- The slots taken are the workers that are away, and no more than there are slots.
pub record SlotsExact (s : Settings) (w : Watch) : Type 0 where
  pub exact : w.reloading ≡ w.away
  pub within : w.away ≤ s.reload_parallel

abbrev pub NotAfresh : Move → Type 0
NotAfresh boots_afresh = ⊥
NotAfresh _ = Unit

turn-slots :
    (s : Settings) (now : ℕ) (p : Option Phase) (w : Watch)
    → ((task_turn s now p w).reloading ≡ w.reloading) × ((task_turn s now p w).away ≡ w.away)
unfolding task_turn
turn-slots s now none w = (refl, refl)
turn-slots s now (some sleeps) w = (refl, refl)
turn-slots s now (some (has_read last)) w = ground arith
turn-slots s now (some (settles last)) w = ground arith
turn-slots s now (some bumps) w = (refl, refl)
turn-slots s now (some announces) w = (refl, refl)
turn-slots s now (some leaves) w = (refl, refl)

step-SlotsExact :
    (s : Settings) (w : Watch) (m : Move) → NotAfresh m → SlotsExact s w → SlotsExact s (step s w m)
unfolding step schedule_wake claim_reset begin_reload end_reload request
step-SlotsExact s w (event now) n h = record { exact = h.exact; within = h.within }
step-SlotsExact s w notifies n h = record {
  exact = ground (arith, h.exact);
  within = ground (arith, h.within);
}
step-SlotsExact s w (turns now) n h =
    let (r, a) = turn-slots s now w.task w in
    record { exact = omega (arith, h.exact); within = omega (arith, h.within) }
step-SlotsExact s w rechecks n h = record {
  exact = ground (arith, h.exact);
  within = ground (arith, h.within);
}
step-SlotsExact s w requests n h = record { exact = h.exact; within = h.within }
step-SlotsExact s w (claims seen) n h = record {
  exact = ground (arith, h.exact);
  within = ground (arith, h.within);
}
step-SlotsExact s w leaves_to_reload n h = record {
  exact = ground (arith, h.exact);
  within = ground (arith, h.exact, h.within);
}
step-SlotsExact s w boots n h = record {
  exact = ground (arith, h.exact);
  within = ground (arith, h.within);
}
step-SlotsExact s w boots_afresh n h = absurd n

-- In any order of events in which no worker boots that was not away: the slots taken are the workers
-- that are away, which are never more than `IGNIS_WATCH_RELOAD_PARALLEL`.
pub run-SlotsExact :
    (s : Settings) (w : Watch) (ms : List Move)
    → All NotAfresh ms
    → SlotsExact s w
    → SlotsExact s (run s w ms)
unfolding run
run-SlotsExact s w [] n h = h
run-SlotsExact s w (m ∷ ms) n h = run-SlotsExact s (step s w m) ms n.1 (step-SlotsExact s w m n.0 h)

-- With every slot taken, a worker that boots after a crash frees the slot of another that is still
-- away: the next to ask goes too, and one more is away than the setting allows.
pub boot_frees_slot :
    (s : Settings) (w : Watch)
    → w.reloading ≡ s.reload_parallel
    → w.away ≡ s.reload_parallel
    → 0 < s.reload_parallel
    → let v = run s w (boots_afresh ∷ leaves_to_reload ∷ []) in
      (v.away ≡ s.reload_parallel + 1) × (v.reloading ≡ s.reload_parallel)
unfolding run step begin_reload end_reload
boot_frees_slot s w r a p = ground arith
