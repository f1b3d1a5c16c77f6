-- ===== src/Metrics/Sums.antt =====
-- crates/ignis/src/metrics.rs: what the pass over the threads comes to, field by field.
use ignis.Shared.{
  ℕ, ◌+◌, ◌-◌, ◌≡◌, refl, List, [], ◌∷◌, max, arith, sum_by, ◌==◌, if◌then◌else◌, wrapping_add,
  u64_mod, ◌%◌, ap, ◌∙◌,
}
use ignis.Reactor.{Reactor}
use ignis.Reactor.Answers.{pending_requests}
use ignis.Metrics.{Totals, add, add_all}

-- The largest weight of a list, or `m` if that is larger.
abbrev pub max_by {ℓ} : {A : Type ℓ} → (A → ℕ) → ℕ → List A → ℕ
max_by f m [] = m
max_by f m (x ∷ xs) = max_by f (max m (f x)) xs

-- How long ago a loop published, 0 for one that never did.
abbrev pub publish_age : ℕ → Reactor → ℕ
publish_age now r = if r.published.at_ms == 0 then 0 else now - r.published.at_ms

wrapping_sum : (a b c : ℕ) → (wrapping_add a b + c) % u64_mod ≡ (a + (b + c)) % u64_mod
wrapping_sum a b c = omega arith

age_step :
    (now : ℕ) (t : Totals) (r : Reactor)
    → (add now t r).oldest_publish_age_ms ≡ max t.oldest_publish_age_ms (publish_age now r)
unfolding add
age_step now t r = ground arith

-- Modulo the machine word, each counter of the totals after a pass over the threads is what it
-- was before plus the sum of the threads' counters.
pub add_all-sums :
    (now : ℕ) (t : Totals) (rs : List Reactor)
    → ((add_all now t rs).pending % u64_mod ≡ (t.pending + sum_by pending_requests rs) % u64_mod)
      × ((add_all now t rs).ops % u64_mod ≡ (t.ops + sum_by (λ r. r.inflight) rs) % u64_mod)
      × ((add_all now t rs).queued % u64_mod
          ≡ (t.queued + sum_by (λ r. r.published.queued) rs) % u64_mod)
      × ((add_all now t rs).queued_peak % u64_mod
          ≡ (t.queued_peak + sum_by (λ r. r.published.queued_peak) rs) % u64_mod)
      × ((add_all now t rs).queued_admitted % u64_mod
          ≡ (t.queued_admitted + sum_by (λ r. r.published.queued_admitted) rs) % u64_mod)
      × ((add_all now t rs).rejected % u64_mod
          ≡ (t.rejected + sum_by (λ r. r.published.rejected) rs) % u64_mod)
      × ((add_all now t rs).handled % u64_mod
          ≡ (t.handled + sum_by (λ r. r.published.handled) rs) % u64_mod)
      × ((add_all now t rs).fibers_idle % u64_mod
          ≡ (t.fibers_idle + sum_by (λ r. r.published.fibers_idle) rs) % u64_mod)
      × ((add_all now t rs).fibers_created % u64_mod
          ≡ (t.fibers_created + sum_by (λ r. r.published.fibers_created) rs) % u64_mod)
      × ((add_all now t rs).resumes % u64_mod
          ≡ (t.resumes + sum_by (λ r. r.published.resumes) rs) % u64_mod)
unfolding add_all add
add_all-sums now t [] = omega arith
add_all-sums now t (r ∷ rs) =
    let (a, b, c, d, e, f, g, h, i, j) = add_all-sums now (add now t r) rs in
    (
      a ∙ wrapping_sum t.pending (pending_requests r) (sum_by pending_requests rs),
      b
          ∙ wrapping_sum t.ops ((λ (r : Reactor). r.inflight) r)
              (sum_by (λ (r : Reactor). r.inflight) rs),
      c
          ∙ wrapping_sum t.queued ((λ (r : Reactor). r.published.queued) r)
              (sum_by (λ (r : Reactor). r.published.queued) rs),
      d
          ∙ wrapping_sum t.queued_peak ((λ (r : Reactor). r.published.queued_peak) r)
              (sum_by (λ (r : Reactor). r.published.queued_peak) rs),
      e
          ∙ wrapping_sum t.queued_admitted ((λ (r : Reactor). r.published.queued_admitted) r)
              (sum_by (λ (r : Reactor). r.published.queued_admitted) rs),
      f
          ∙ wrapping_sum t.rejected ((λ (r : Reactor). r.published.rejected) r)
              (sum_by (λ (r : Reactor). r.published.rejected) rs),
      g
          ∙ wrapping_sum t.handled ((λ (r : Reactor). r.published.handled) r)
              (sum_by (λ (r : Reactor). r.published.handled) rs),
      h
          ∙ wrapping_sum t.fibers_idle ((λ (r : Reactor). r.published.fibers_idle) r)
              (sum_by (λ (r : Reactor). r.published.fibers_idle) rs),
      i
          ∙ wrapping_sum t.fibers_created ((λ (r : Reactor). r.published.fibers_created) r)
              (sum_by (λ (r : Reactor). r.published.fibers_created) rs),
      j
          ∙ wrapping_sum t.resumes ((λ (r : Reactor). r.published.resumes) r)
              (sum_by (λ (r : Reactor). r.published.resumes) rs),
    )

-- The two per-thread settings and the age of the oldest publish are the largest of the totals
-- before and the threads' own, a thread that never published counting 0.
pub add_all-maxima :
    (now : ℕ) (t : Totals) (rs : List Reactor)
    → ((add_all now t rs).budget ≡ max_by (λ (r : Reactor). r.published.budget) t.budget rs)
      × ((add_all now t rs).queue_depth
          ≡ max_by (λ (r : Reactor). r.published.queue_depth) t.queue_depth rs)
      × ((add_all now t rs).oldest_publish_age_ms
          ≡ max_by (publish_age now) t.oldest_publish_age_ms rs)
unfolding add_all add
add_all-maxima now t [] = (refl, refl, refl)
add_all-maxima now t (r ∷ rs) =
    let (b, q, a) = add_all-maxima now (add now t r) rs in
    (b, q, a ∙ ap (λ m. max_by (publish_age now) m rs) (age_step now t r))
