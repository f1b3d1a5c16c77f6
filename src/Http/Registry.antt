-- ===== src/Http/Registry.antt =====
-- crates/ignis/src/http.rs: threads that join and leave, what that does to the count of requests
-- that the drain waits for, and health.
use ignis.Shared.{
  ℕ, zero, suc, ◌+◌, ◌*◌, ◌≤◌, ◌<◌, ◌≡◌, ◌↔◌, refl, ap, ◌⊎◌, inl, inr, Option-cases, Bool, true,
  false, List, [], ◌∷◌, ◌++◌, Option, none, some, arith, length, get_elem?, sum_by, ◌==◌, eq_of_==,
  Bool-cases,
}
use ignis.Reactor.{server_started}
use ignis.Reactor.Answers.{pending_requests}
use ignis.Http.{
  Front, leave_dispatch, start, without, set_thread, health, ok, draining, is_stalled,
  stalled_threads, count,
}

-- How many requests the registered threads owe.
abbrev pub owed : Front → ℕ
owed f = sum_by (λ t. pending_requests (f.threads t)) f.registered

abbrev pub times : ℕ → List ℕ → ℕ
times t ts = count (λ u. u == t) ts

sum-without :
    (w : ℕ → ℕ) (t : ℕ) (ts : List ℕ) → sum_by w (without t ts) + (times t ts) * w t ≡ sum_by w ts
sum-without w t [] = omega arith
sum-without w t (u ∷ us) =
    let ih = sum-without w t us in
    elim (Bool-cases (u == t)) [
      | inl e ↦ rw e (omega (arith, ih, ap w (eq_of_== u t e)))
      | inr e ↦ rw e (omega (arith, ih))
    ]

-- A thread that leaves dispatch keeps its reactor as it is, and what it owes is no longer in what
-- the registered threads owe: the sum falls by that, once for each of its registrations.
pub leave_dispatch-owed :
    (f : Front) (t : ℕ)
    → (owed (leave_dispatch f t) + times t f.registered * pending_requests (f.threads t) ≡ owed f)
      × ((leave_dispatch f t).threads ≡ f.threads)
unfolding leave_dispatch
leave_dispatch-owed f t = (sum-without (λ u. pending_requests (f.threads u)) t f.registered, refl)

count-le : (p : ℕ → Bool) (ts : List ℕ) → count p ts ≤ length ts
count-le p [] = omega arith
count-le p (t ∷ ts) = ground (arith, count-le p ts)

-- A thread that the test refuses, with its index.
abbrev pub Refused : (ℕ → Bool) → List ℕ → Type 0
Refused p ts = (i t : ℕ) × (get_elem? ts i ≡ some t) × (p t ≡ false)

count-lt_length : (p : ℕ → Bool) (ts : List ℕ) → count p ts < length ts → Refused p ts
count-lt_length p [] l = ground arith
count-lt_length p (t ∷ ts) l = elim (Bool-cases (p t)) [
  | inl y ↦ let (i, u, q, n) = count-lt_length p ts (omega (arith, rw y at l)) in (suc i, u, q, n)
  | inr n ↦ (0, t, refl, n)
]

length-gt_count :
    (p : ℕ → Bool) (ts : List ℕ) (i t : ℕ)
    → get_elem? ts i ≡ some t
    → p t ≡ false
    → count p ts < length ts
length-gt_count p [] i t e n = ground arith
length-gt_count p (u ∷ us) zero t e n = ground (arith, count-le p us)
length-gt_count p (u ∷ us) (suc i) t e n = ground (arith, length-gt_count p us i t e n)

ok-well :
    (f : Front) (now : ℕ)
    → health f now ≡ ok
    → (f.shutting_down ≡ false)
      × (count (is_stalled f 1000000 now) f.registered < length f.registered)
unfolding health stalled_threads
ok-well f now e = ground arith

well-ok :
    (f : Front) (now : ℕ)
    → f.shutting_down ≡ false
    → count (is_stalled f 1000000 now) f.registered < length f.registered
    → health f now ≡ ok
unfolding health stalled_threads
well-ok f now d l = ground arith

-- Health answers that the process is well exactly if no drain has begun and some registered thread
-- is not stalled; and that it drains exactly if a drain has begun.
pub health-ok :
    (f : Front) (now : ℕ)
    → (health f now ≡ ok
        ↔ ((f.shutting_down ≡ false) × Refused (is_stalled f 1000000 now) f.registered))
      × (health f now ≡ draining ↔ f.shutting_down ≡ true)
unfolding health stalled_threads
health-ok f now =
    let p : ℕ → Bool = is_stalled f 1000000 now in
    (
      (
        λ e. (let (d, l) = ok-well f now e in (d, count-lt_length p f.registered l)),
        λ (d, (i, t, e, n)). (well-ok f now d (length-gt_count p f.registered i t e n)),
      ),
      (λ e. ground arith, λ e. ground arith),
    )

-- A start that succeeds answers with the address the process is bound to from then on, which is the
-- one it was bound to before if there was one; the thread joins the registry as its last and its
-- reactor counts one more server. A start that fails leaves the registry, the threads and the
-- rotation as they were, and can only happen while the process is not bound, which it stays.
pub start-outcome :
    (f : Front) (t : ℕ) (address listened : Option ℕ)
    → ((b : ℕ) × ((start f t address listened).1 ≡ some b)
        × ((start f t address listened).0.bound ≡ some b)
        × ((f.bound ≡ none) ⊎ (f.bound ≡ some b))
        × ((start f t address listened).0.registered ≡ f.registered ++ t ∷ [])
        × ((start f t address listened).0.threads
            ≡ set_thread f.threads t (server_started (f.threads t))))
      ⊎ (((start f t address listened).1 ≡ none)
          × ((start f t address listened).0.bound ≡ none)
          × (f.bound ≡ none)
          × ((start f t address listened).0.registered ≡ f.registered)
          × ((start f t address listened).0.threads ≡ f.threads))
unfolding start
start-outcome f t address listened = elim (Option-cases f.bound) [
  | inr (b, e) ↦ rw (e, start) (inl (b, refl, e, inr refl, refl, refl))
  | inl e ↦ elim (Option-cases address) [
    | inl a ↦ rw (e, a, start) (inr (refl, e, refl, refl, refl))
    | inr (asked, a) ↦ elim (Option-cases f.inherited) [
      | inl i ↦ elim (Option-cases listened) [
        | inl n ↦ rw (e, a, i, n, start) (inr (refl, e, refl, refl, refl))
        | inr (local, n) ↦ rw (e, a, i, n, start) (inl (local, refl, refl, inl refl, refl, refl))
      ]
      | inr (held, i) ↦ elim (Bool-cases (held == asked)) [
        | inl q ↦ rw (e, a, i, q, start) (inl (held, refl, refl, inl refl, refl, refl))
        | inr q ↦ rw (e, a, i, q, start) (inr (refl, e, refl, refl, refl))
      ]
    ]
  ]
]
