-- ===== src/Supervise/Slots.antt =====
-- crates/ignis/src/main.rs, `supervise_workers`: no slot is lost.
use ignis.Shared.{
  ℕ, zero, suc, ◌+◌, ◌≤◌, ◌<◌, ◌≡◌, ◌≢◌, refl, ap, ◌∙◌, ◌⊎◌, inl, inr, All, List, [], ◌∷◌, map,
  none, some, arith,
}
use ignis.Supervise.{
  Worker, Visit, Budget, spawn, finished, join, respawn, after_join, visit, pass, turns, spawn_all,
  supervise_workers, five_seconds,
}

-- The slot has a thread, or a time at which it is tried again.
abbrev pub Seated : Worker → Type 0
Seated w = (w.handle ≢ none) ⊎ (w.retry_at ≢ none)

abbrev pub numbers : (from n : ℕ) → List ℕ
numbers from zero = []
numbers from (suc n) = from ∷ numbers (suc from) n

visit-slot : (v : Visit) (b : Budget) (w : Worker) → (visit v b w).1.slot ≡ w.slot
unfolding visit after_join respawn join
visit-slot v b w = ground arith

visit-Seated : (v : Visit) (b : Budget) (w : Worker) → Seated w → Seated (visit v b w).1
unfolding visit after_join respawn join finished
visit-Seated v b w s = ground (arith, s)

pass-slots :
    (visits : ℕ → Visit) (b : Budget) (workers : List Worker)
    → map Worker.slot (pass visits b workers).1 ≡ map Worker.slot workers
unfolding pass
pass-slots visits b [] = refl
pass-slots visits b (w ∷ workers) =
    rw (visit-slot (visits w.slot) b w)
      (ap (λ (r : List ℕ). w.slot ∷ r) (pass-slots visits (visit (visits w.slot) b w).0 workers))

pass-Seated :
    (visits : ℕ → Visit) (b : Budget) (workers : List Worker)
    → All Seated workers
    → All Seated (pass visits b workers).1
unfolding pass
pass-Seated visits b [] a = tt
pass-Seated visits b (w ∷ workers) a = (
  visit-Seated (visits w.slot) b w a.0,
  pass-Seated visits (visit (visits w.slot) b w).0 workers a.1,
)

turns-Seated :
    (rounds : List (ℕ → Visit)) (b : Budget) (workers : List Worker)
    → All Seated workers
    → (map Worker.slot (turns rounds b workers).1 ≡ map Worker.slot workers)
      × All Seated (turns rounds b workers).1
unfolding turns
turns-Seated [] b workers a = (refl, a)
turns-Seated (visits ∷ rounds) b workers a =
    let (same, seated) =
      turns-Seated rounds (pass visits b workers).0 (pass visits b workers).1
        (pass-Seated visits b workers a) in
    (same ∙ pass-slots visits b workers, seated)

spawn_all-Seated :
    (visits : ℕ → Visit) (slot n : ℕ)
    → (map Worker.slot (spawn_all visits slot n) ≡ numbers slot n)
      × All Seated (spawn_all visits slot n)
unfolding spawn
spawn_all-Seated visits slot zero = (refl, tt)
spawn_all-Seated visits slot (suc n) =
    let (same, seated) = spawn_all-Seated visits (suc slot) n in
    (ap (λ (r : List ℕ). slot ∷ r) same, (inl (λ e. ground (arith, e)), seated))

-- Whatever the threads do and the clock and the watcher say, for any number of turns: the supervisor
-- has the slots 1 to `threads`, in order, and each has a thread or a time at which it is tried again.
pub no_slot_lost :
    (threads : ℕ) (started : ℕ → Visit) (minute restarts : ℕ) (rounds : List (ℕ → Visit))
    → (map Worker.slot (supervise_workers threads started minute restarts rounds).1
        ≡ numbers 1 threads)
      × All Seated (supervise_workers threads started minute restarts rounds).1
unfolding supervise_workers
no_slot_lost threads started minute restarts rounds =
    let (first, seated) = spawn_all-Seated started 1 threads in
    let (same, still) = turns-Seated rounds _ (spawn_all started 1 threads) seated in
    (same ∙ first, still)

-- What becomes of a slot in visits one after another, whatever is spent between them.
unfoldable pub visited : List (Visit × Budget) → Worker → Worker
visited [] w = w
visited ((v, b) ∷ later) w = visited later (visit v b w).1

abbrev pub Before : ℕ → Visit × Budget → Type 0
Before t (v, b) = v.at_retry < t

waits :
    (t : ℕ) (between : List (Visit × Budget)) (w : Worker)
    → All (Before t) between
    → w.retry_at ≡ some t
    → visited between w ≡ w
unfolding visited visit
waits t [] w a e = refl
waits t ((v, b) ∷ between) w a e = ap (visited between) still ∙ waits t between w a.1 e
  where
    still : (visit v b w).1 ≡ w
    still = ground (arith, e, a.0)

retried :
    (t : ℕ) (v : Visit) (b : Budget) (w : Worker)
    → w.retry_at ≡ some t
    → t ≤ v.at_retry
    → (visit v b w).1.handle ≡ some v.spawned
unfolding visit respawn
retried t v b w e l = ground (arith, e, l)

restarted_or_paused :
    (v : Visit) (b : Budget) (w : Worker)
    → w.handle ≢ none
    → w.retry_at ≡ none
    → v.ended ≢ none
    → ((visit v b w).1.handle ≡ some v.spawned)
      ⊎ ((visit v b w).1.retry_at ≡ some (v.at_pause + five_seconds))
unfolding visit after_join respawn join finished
restarted_or_paused v b w h e f = ground (arith, h, e, f)

-- A slot that is not paused, whose thread has ended when it is visited, any later visits before five
-- seconds have passed since, and one after that, whatever the budget is at each: the slot has the
-- thread that the first visit spawned, or after the last the thread that this one spawned.
pub ended_slot_returns :
    (v last : Visit) (b spent : Budget) (between : List (Visit × Budget)) (w : Worker)
    → w.handle ≢ none
    → w.retry_at ≡ none
    → v.ended ≢ none
    → All (Before (v.at_pause + five_seconds)) between
    → v.at_pause + five_seconds ≤ last.at_retry
    → ((visit v b w).1.handle ≡ some v.spawned)
      ⊎ ((visit last spent (visited between (visit v b w).1)).1.handle ≡ some last.spawned)
ended_slot_returns v last b spent between w h e f a l = elim (restarted_or_paused v b w h e f) [
  | inl q ↦ inl q
  | inr q ↦ inr (
      ap (λ (x : Worker). (visit last spent x).1.handle)
        (waits (v.at_pause + five_seconds) between (visit v b w).1 a q)
      ∙ retried (v.at_pause + five_seconds) last spent (visit v b w).1 q l)
]
