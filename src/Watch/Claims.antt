-- ===== src/Watch/Claims.antt =====
-- crates/ignis/src/watch.rs, `claim_reset`: one reset for each generation.
use ignis.Shared.{ℕ, ◌+◌, ◌≤◌, ◌<◌, List, [], ◌∷◌, Option, none, some, arith, length, u64_mod}
use ignis.Watch.{
  Settings, Watch, Move, Phase, step, run, schedule_wake, claim_reset, begin_reload, end_reload,
  request, task_turn, event, notifies, turns, rechecks, requests, claims, leaves_to_reload, boots,
  boots_afresh, sleeps, bumps, announces, leaves, has_read, settles,
}

-- A step grants at most as many claims as the claimed generation grows by, and claims no generation
-- that has not come.
abbrev Keeps : Watch → Watch → Type 0
Keeps w v =
    (v.claimed + w.reset_generation ≤ w.claimed + v.reset_generation)
    × (v.reset_generation ≤ v.generation)
    × (v.generation ≤ w.generation + 1)

turn-Keeps :
    (s : Settings) (now : ℕ) (p : Option Phase) (w : Watch)
    → w.generation + 1 < u64_mod
    → w.reset_generation ≤ w.generation
    → Keeps w (task_turn s now p w)
unfolding task_turn
turn-Keeps s now none w l h = ground arith
turn-Keeps s now (some sleeps) w l h = ground arith
turn-Keeps s now (some (has_read last)) w l h = ground arith
turn-Keeps s now (some (settles last)) w l h = ground arith
turn-Keeps s now (some bumps) w l h = ground arith
turn-Keeps s now (some announces) w l h = ground arith
turn-Keeps s now (some leaves) w l h = ground arith

step-Keeps :
    (s : Settings) (w : Watch) (m : Move)
    → w.generation + 1 < u64_mod
    → w.reset_generation ≤ w.generation
    → Keeps w (step s w m)
unfolding step schedule_wake claim_reset begin_reload end_reload request
step-Keeps s w (event now) l h = ground arith
step-Keeps s w notifies l h = ground arith
step-Keeps s w (turns now) l h = turn-Keeps s now w.task w l h
step-Keeps s w rechecks l h = ground arith
step-Keeps s w requests l h = ground arith
step-Keeps s w (claims seen) l h = ground arith
step-Keeps s w leaves_to_reload l h = ground arith
step-Keeps s w boots l h = ground arith
step-Keeps s w boots_afresh l h = ground arith

-- In any order of events, while the generation does not reach its last value, and where no claim has
-- been made of a generation to come: the claims that are granted are at most as many as the claimed
-- generation grows by, which stays at most the generation. So each generation is claimed once at
-- most, also by threads that read it before it moved on.
pub claims_once :
    (s : Settings) (w : Watch) (ms : List Move)
    → w.generation + length ms < u64_mod
    → w.reset_generation ≤ w.generation
    → ((run s w ms).claimed + w.reset_generation ≤ w.claimed + (run s w ms).reset_generation)
      × ((run s w ms).reset_generation ≤ (run s w ms).generation)
unfolding run
claims_once s w [] l h = (omega arith, h)
claims_once s w (m ∷ ms) l h =
    let (k, h2, g) = step-Keeps s w m (omega arith) h in
    let (c, d) = claims_once s (step s w m) ms (omega (arith, g)) h2 in (omega (arith, k, c), d)
