-- ===== src/Wait/Examples.antt =====
-- The theorem on parked fibers at a concrete wait.
use ignis.Shared.{◌≡◌, refl, inl, inr, true, false, [], ◌∷◌, none, some, lookup, insert}
use ignis.Reactor.{slept}
use ignis.Wait.{Parked, await_any_begins, await_any_ends, resume_parked, cancel_parked_any}
use ignis.Wait.Once.{Waiting, Gone, await_any_settles}

-- Fiber 500 waits for the ops 4, 5 and 6, and fiber 600 for the op 3.
abbrev two_waits : Parked
two_waits = record { parked = (3, 600) ∷ (4, 500) ∷ (5, 500) ∷ (6, 500) ∷ []; results = [] }

two_waits_begin :
    await_any_begins
      (some 500)
      false
      (4 ∷ 5 ∷ 6 ∷ [])
      (record { parked = (3, 600) ∷ []; results = [] })
    ≡ some two_waits
unfolding await_any_begins insert
two_waits_begin = refl

two_waits-Waiting : Waiting 500 (4 ∷ 5 ∷ 6 ∷ []) two_waits
unfolding lookup
two_waits-Waiting = (refl, (refl, (refl, tt)))

await_any_settles_example :
    let (resumed, who) = resume_parked 5 (slept 0) two_waits in
    let (done, got) = await_any_ends (4 ∷ 5 ∷ 6 ∷ []) false resumed in
    let (thrown, told) = cancel_parked_any 500 two_waits in
    let (dropped, nothing) = await_any_ends (4 ∷ 5 ∷ 6 ∷ []) true thrown in
    ((who ≡ some 500)
      × (got ≡ some (5, slept 0))
      × (done.results ≡ [])
      × Gone (4 ∷ 5 ∷ 6 ∷ []) done)
    × ((told ≡ true) × (nothing ≡ none) × (dropped.results ≡ []) × Gone (4 ∷ 5 ∷ 6 ∷ []) dropped)
await_any_settles_example =
    await_any_settles 500 5 (slept 0) (4 ∷ 5 ∷ 6 ∷ []) two_waits refl two_waits-Waiting
      (inr (inl refl))
