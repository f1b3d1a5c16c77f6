-- ===== src/Supervise.antt =====
-- crates/ignis/src/main.rs: the supervisor of worker threads, `supervise_workers`. Times are in
-- nanoseconds. What a turn of the loop reads of the world for one slot is a `Visit`.
pub mod Slots
pub mod Charged
mod Examples
use ignis.Shared.{
  ℕ, zero, suc, ◌+◌, ◌-◌, ◌≡◌, refl, Bool, true, false, not, List, [], ◌∷◌, ◌++◌, Option, none,
  some, ℤ, pos, ltb, leb, if◌then◌else◌, wrapping_add,
}

-- A handle is a thread's number.
pub record Worker : Type 0 where
  pub slot : ℕ
  pub handle : Option ℕ
  pub generation : ℕ
  pub retry_at : Option ℕ

-- The clock at its three readings, the watcher's generation at its two, whether the slot's thread has
-- finished, with its status or none where it panicked, and the thread that a spawn makes.
pub record Visit : Type 0 where
  pub at_retry : ℕ
  pub at_minute : ℕ
  pub at_pause : ℕ
  pub ended : Option (Option ℤ)
  pub generation_seen : ℕ
  pub generation_spawned : ℕ
  pub spawned : ℕ

-- The locals of the loop, and `RESTARTS`.
pub record Budget : Type 0 where
  pub restarts_this_minute : ℕ
  pub minute : ℕ
  pub restarts : ℕ

-- What is logged.
pub data Told : Type 0 where
  quiet retrying reloaded : Told
  exhausted respawned : (status : ℤ) → Told

abbrev pub is_some {ℓ} : {A : Type ℓ} → Option A → Bool
is_some none = false
is_some (some a) = true

abbrev pub sixty_seconds : ℕ
sixty_seconds = 60000000000

abbrev pub five_seconds : ℕ
five_seconds = 5000000000

unfoldable pub spawn : Visit → (slot : ℕ) → Worker
spawn v slot = record {
  slot = slot;
  handle = some v.spawned;
  generation = v.generation_spawned;
  retry_at = none;
}

unfoldable pub finished : Visit → Worker → Bool
finished v w = elim w.handle [ none ↦ false | some thread ↦ is_some v.ended ]

-- `unwrap_or(1)`
abbrev pub status_of : Option (Option ℤ) → ℤ
status_of (some (some status)) = status
status_of (some none) = pos 1
status_of none = pos 1

unfoldable pub join : Visit → Worker → Worker × ℤ
join v w =
    (record w { handle = none }, elim w.handle [ none ↦ pos 1 | some thread ↦ status_of v.ended ])

unfoldable pub ended_for_reload : Visit → Worker → Bool
ended_for_reload v w = ltb w.generation v.generation_seen

unfoldable pub respawn : Visit → Worker → Worker
respawn v w = record w {
  generation = v.generation_spawned;
  retry_at = none;
  handle = some v.spawned;
}

unfoldable pub minute_over : Visit → Budget → Budget
minute_over v b =
    if ltb sixty_seconds (v.at_minute - b.minute)
    then record b { minute = v.at_minute; restarts_this_minute = 0 }
    else b

-- A thread that has been joined.
unfoldable pub after_join : Visit → Budget → Worker → ℤ → Budget × Worker × Told
unfolding ended_for_reload respawn
after_join v b w status =
    if ended_for_reload v w
    then (b, respawn v w, reloaded)
    else if leb 10 b.restarts_this_minute
    then (if is_some w.retry_at
        then (b, w, quiet)
        else (b, record w { retry_at = some (v.at_pause + five_seconds) }, exhausted status))
    else (
      record b {
        restarts_this_minute = b.restarts_this_minute + 1;
        restarts = wrapping_add b.restarts 1;
      },
      respawn v w,
      respawned status,
    )

-- The body of the loop over the workers.
unfoldable pub visit : Visit → Budget → Worker → Budget × Worker × Told
unfolding finished join respawn minute_over after_join
visit v b w = elim w.retry_at [
  | some retry_at ↦
      if ltb v.at_retry retry_at
      then (b, w, quiet)
      else (b, respawn v (record w { retry_at = none }), retrying)
  | none ↦
      let (joined, status) = join v w in
      let next = after_join v (minute_over v b) joined status in
      if not (finished v w) then (b, w, quiet) else next
]

-- A turn of the loop, with what is read for each slot.
unfoldable pub pass : (ℕ → Visit) → Budget → List Worker → Budget × List Worker × List Told
unfolding visit
pass visits b [] = (b, [], [])
pass visits b (w ∷ workers) =
    let (after, now, told) = visit (visits w.slot) b w in
    let (last, others, more) = pass visits after workers in (last, now ∷ others, told ∷ more)

-- The loop, which has no end, for as many turns as there are readings.
unfoldable pub turns : List (ℕ → Visit) → Budget → List Worker → Budget × List Worker × List Told
unfolding pass
turns [] b workers = (b, workers, [])
turns (visits ∷ rounds) b workers =
    let (after, now, told) = pass visits b workers in
    let (last, left, more) = turns rounds after now in (last, left, told ++ more)

-- The slots from `slot` on, `n` of them.
abbrev pub spawn_all : (ℕ → Visit) → (slot n : ℕ) → List Worker
spawn_all visits slot zero = []
spawn_all visits slot (suc n) = spawn (visits slot) slot ∷ spawn_all visits (suc slot) n

unfoldable pub supervise_workers :
    (threads : ℕ)
    → (started : ℕ → Visit) → (minute restarts : ℕ) → List (ℕ → Visit)
    → Budget × List Worker × List Told
unfolding turns
supervise_workers threads started minute restarts rounds =
    turns rounds (record { restarts_this_minute = 0; minute = minute; restarts = restarts })
      (spawn_all started 1 threads)
