-- ===== src/Supervise/Charged.antt =====
-- crates/ignis/src/main.rs, `supervise_workers`: the budget of restarts.
use ignis.Shared.{
  ℕ, ◌+◌, ◌-◌, ◌*◌, ◌≤◌, ◌<◌, ◌≡◌, subst, inl, inr, All, List, [], ◌∷◌, ◌++◌, ltb, leb, arith,
  sum_by, sum_by-append, Bool-cases, Option-cases, ℤ,
}
use ignis.Supervise.{
  Worker, Visit, Budget, Told, quiet, retrying, reloaded, exhausted, respawned, is_some, finished,
  join, ended_for_reload, minute_over, after_join, visit, pass, turns, spawn_all, supervise_workers,
  sixty_seconds,
}

-- The restarts that the budget is for.
abbrev pub charge : Told → ℕ
charge (respawned status) = 1
charge (exhausted status) = 0
charge quiet = 0
charge retrying = 0
charge reloaded = 0

-- The clock does not pass `T`.
abbrev pub Until : ℕ → (ℕ → Visit) → Type 0
Until T visits = (slot : ℕ) → (visits slot).at_minute ≤ T

-- From `start` on, `n` restarts have been charged, at most ten in a minute.
module _ (start T : ℕ) where
  record Within (n : ℕ) (b : Budget) : Type 0 where
    few : b.restarts_this_minute ≤ 10
    later : start ≤ b.minute
    until : b.minute ≤ T
    spent :
        n * sixty_seconds + (10 - b.restarts_this_minute) * sixty_seconds
        ≤ 10 * (sixty_seconds + (b.minute - start))

  minute-Within :
      (v : Visit) (b : Budget) (n : ℕ) → v.at_minute ≤ T → Within n b → Within n (minute_over v b)
  unfolding minute_over
  minute-Within v b n l h = elim (Bool-cases (ltb sixty_seconds (v.at_minute - b.minute))) [
    | inl y ↦
        let over : sixty_seconds < v.at_minute - b.minute = ground (arith, y) in
        rw (y, minute_over)
          (record {
            few = omega arith;
            later = omega (arith, over, h.later);
            until = l;
            spent = omega (arith, over, h.spent, h.few, h.later);
          })
    | inr z ↦ rw (z, minute_over) h
  ]

  same-Within : (n : ℕ) (b : Budget) → Within n b → Within (n + 0) b
  same-Within n b h = subst (λ (k : ℕ). Within k b) (omega arith) h

  joined-Within :
      (v : Visit) (b : Budget) (w : Worker) (status : ℤ) (n : ℕ)
      → Within n b
      → Within (n + charge (after_join v b w status).2) (after_join v b w status).0
  unfolding after_join
  joined-Within v b w status n h = elim (Bool-cases (ended_for_reload v w)) [
    | inl y ↦ rw (y, after_join) (same-Within n b h)
    | inr z ↦ elim (Bool-cases (leb 10 b.restarts_this_minute)) [
      | inl full ↦ elim (Bool-cases (is_some w.retry_at)) [
        | inl y ↦ rw (z, full, y, after_join) (same-Within n b h)
        | inr m ↦ rw (z, full, m, after_join) (same-Within n b h)
      ]
      | inr left ↦
          let room : b.restarts_this_minute < 10 = ground (arith, left) in
          rw (z, left, after_join)
            (record {
              few = omega (arith, room);
              later = h.later;
              until = h.until;
              spent = omega (arith, room, h.spent);
            })
    ]
  ]

  visit-Within :
      (v : Visit) (b : Budget) (w : Worker) (n : ℕ)
      → v.at_minute ≤ T
      → Within n b
      → Within (n + charge (visit v b w).2) (visit v b w).0
  unfolding visit
  visit-Within v b w n l h = elim (Option-cases w.retry_at) [
    | inr (t, e) ↦ elim (Bool-cases (ltb v.at_retry t)) [
      | inl y ↦ rw (e, y, visit) (same-Within n b h)
      | inr z ↦ rw (e, z, visit) (same-Within n b h)
    ]
    | inl e ↦ elim (Bool-cases (finished v w)) [
      | inl y ↦
          rw (e, y, visit)
            (joined-Within v (minute_over v b) (join v w).0 (join v w).1 n
              (minute-Within v b n l h))
      | inr z ↦ rw (e, z, visit) (same-Within n b h)
    ]
  ]

  pass-Within :
      (visits : ℕ → Visit) (b : Budget) (workers : List Worker) (n : ℕ)
      → Until T visits
      → Within n b
      → Within (n + sum_by charge (pass visits b workers).2) (pass visits b workers).0
  unfolding pass
  pass-Within visits b [] n l h = same-Within n b h
  pass-Within visits b (w ∷ workers) n l h =
      let (after, now, told) = visit (visits w.slot) b w in
      subst (λ (k : ℕ). Within k (pass visits after workers).0) (omega arith)
        (pass-Within visits after workers (n + charge told) l
          (visit-Within (visits w.slot) b w n (l w.slot) h))

  turns-Within :
      (rounds : List (ℕ → Visit)) (b : Budget) (workers : List Worker) (n : ℕ)
      → All (Until T) rounds
      → Within n b
      → Within (n + sum_by charge (turns rounds b workers).2) (turns rounds b workers).0
  unfolding turns
  turns-Within [] b workers n a h = same-Within n b h
  turns-Within (visits ∷ rounds) b workers n a h =
      let (after, now, told) = pass visits b workers in
      let more = (turns rounds after now).2 in
      let both : n + sum_by charge told + sum_by charge more ≡ n + sum_by charge (told ++ more) =
        omega (arith, sum_by-append charge told more) in
      subst (λ (k : ℕ). Within k (turns rounds after now).0) both
        (turns-Within rounds after now (n + sum_by charge told) a.1
          (pass-Within visits b workers n a.0 h))

-- For any number of turns in which the clock does not pass `T`, whatever else happens: the restarts
-- that are charged, times sixty seconds, are at most ten times the sixty seconds and the time since
-- the supervisor started; and never more than ten are charged to one minute.
pub restarts_bounded :
    (T threads : ℕ) (started : ℕ → Visit) (minute restarts : ℕ) (rounds : List (ℕ → Visit))
    → minute ≤ T
    → All (Until T) rounds
    → let (after, workers, told) = supervise_workers threads started minute restarts rounds in
      (sum_by charge told * sixty_seconds ≤ 10 * (sixty_seconds + (T - minute)))
      × (after.restarts_this_minute ≤ 10)
unfolding supervise_workers
restarts_bounded T threads started minute restarts rounds l a =
    let last =
      turns-Within minute T rounds
        (record { restarts_this_minute = 0; minute = minute; restarts = restarts })
        (spawn_all started 1 threads) 0 a
        (record { few = omega arith; later = omega arith; until = l; spent = omega arith }) in
    (omega (arith, last.spent, last.until), last.few)
