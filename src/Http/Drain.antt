-- ===== src/Http/Drain.antt =====
-- crates/ignis/src/http.rs, `drain`: the wait ends, and what it waits for.
use ignis.Shared.{
  ℕ, suc, ◌+◌, ◌*◌, ◌≤◌, ◌<◌, ◌≡◌, ◌≢◌, refl, ap, ◌⊎◌, inl, inr, false, All, List, [], ◌∷◌, ◌++◌,
  some, arith, length, leb, ◌==◌, ==_refl, ne_of_==, Bool-cases,
}
use ignis.Reactor.Answers.{pending_requests}
use ignis.Metrics.{add_all}
use ignis.Http.{Front, Turn, totals, drain_wait, leave_dispatch}

-- Each turn comes at least 5 ms after the one before: the loop sleeps between two turns.
abbrev pub Paced : ℕ → List Turn → Type 0
Paced from_ms [] = Unit
Paced from_ms (turn ∷ turns) = (from_ms ≤ turn.elapsed_ms) × Paced (from_ms + 5) turns

leb-limit : (a b : ℕ) → leb a b ≡ false → b < a
leb-limit a b e = ground arith

one_more :
    {limit from_ms elapsed n : ℕ}
    → elapsed < limit
    → from_ms ≤ elapsed
    → limit + 5 ≤ from_ms + 5 * suc n
    → 0 < n
one_more a b c = omega arith

-- What the registered threads owe at a turn.
abbrev pub pending_at : Turn → ℕ
pending_at turn = (totals turn.now_ms turn.front).pending

-- A turn at which there is something to wait for, and time.
abbrev pub GoesOn : ℕ → Turn → Type 0
GoesOn limit turn = (pending_at turn ≢ 0) × (turn.elapsed_ms < limit)

-- The wait returns at a turn that is the first at which it need not go on.
abbrev Returns : ℕ → List Turn → Type 0
Returns limit turns =
    (before : List Turn) × (turn : Turn) × (after : List Turn) × (turns ≡ before ++ turn ∷ after)
    × All (GoesOn limit) before
    × ((pending_at turn ≡ 0) ⊎ (limit ≤ turn.elapsed_ms))
    × (drain_wait limit turns ≡ some (turn.took_ms, pending_at turn))

drain_from :
    (limit from_ms : ℕ) (turns : List Turn)
    → Paced from_ms turns
    → limit + 5 ≤ from_ms + 5 * length turns
    → 0 < length turns
    → Returns limit turns
unfolding drain_wait
drain_from limit from_ms [] p l n = ground arith
drain_from limit from_ms (turn ∷ turns) p l n = elim (Bool-cases (pending_at turn == 0)) [
  | inl z ↦ ([], turn, turns, refl, tt, inl (ground arith), rw (z, drain_wait) refl)
  | inr z ↦ elim (Bool-cases (leb limit turn.elapsed_ms)) [
    | inl y ↦ ([], turn, turns, refl, tt, inr (ground arith), rw (z, y, drain_wait) refl)
    | inr y ↦
        let (before, last, after, e, on, why, r) =
          drain_from limit (from_ms + 5) turns p.1 (omega arith)
            (one_more (leb-limit limit turn.elapsed_ms y) p.0 l) in
        (
          turn ∷ before,
          last,
          after,
          ap (λ (ts : List Turn). turn ∷ ts) e,
          ((ne_of_== (pending_at turn) 0 z, leb-limit limit turn.elapsed_ms y), on),
          why,
          rw (z, y, drain_wait) r,
        )
  ]
]

-- Where each turn comes at least 5 ms after the one before, and there are enough of them to cover
-- the limit and one more: the wait returns, at the first turn at which the registered threads owe
-- nothing or the limit has passed, and says what they owe at this turn.
pub drain_returns :
    (limit : ℕ) (turns : List Turn)
    → Paced 0 turns
    → limit + 5 ≤ 5 * length turns
    → (before : List Turn) × (turn : Turn) × (after : List Turn) × (turns ≡ before ++ turn ∷ after)
      × All (GoesOn limit) before
      × ((pending_at turn ≡ 0) ⊎ (limit ≤ turn.elapsed_ms))
      × (drain_wait limit turns ≡ some (turn.took_ms, pending_at turn))
drain_returns limit turns p l = drain_from limit 0 turns p (omega arith) (omega arith)

-- Where the only registered thread has left dispatch, the drain returns on its first turn with
-- nothing pending, and the thread still owes every answer that it owed.
pub drain_overlooks :
    (f : Front) (t limit now elapsed : ℕ) (turns : List Turn)
    → f.registered ≡ t ∷ []
    → (drain_wait limit (
          record {
            front = leave_dispatch f t;
            now_ms = now;
            elapsed_ms = elapsed;
            took_ms = elapsed;
          }
          ∷ turns)
        ≡ some (elapsed, 0))
      × (pending_requests ((leave_dispatch f t).threads t) ≡ pending_requests (f.threads t))
unfolding drain_wait leave_dispatch totals add_all
drain_overlooks f t limit now elapsed turns e =
    (rw (e, ==_refl t, drain_wait, totals, add_all) refl, refl)
