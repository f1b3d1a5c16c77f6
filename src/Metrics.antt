-- ===== src/Metrics.antt =====
-- crates/ignis/src/metrics.rs, `Totals`: what `/_ignis/metrics` and the drain sum over the
-- registered threads. The sums wrap at the machine word, as a release build's do.
pub mod Sums
mod Examples
use ignis.Shared.{ℕ, ◌+◌, ◌-◌, ◌≡◌, refl, List, [], ◌∷◌, max, ◌==◌, if◌then◌else◌, wrapping_add}
use ignis.Published.{Published}
use ignis.Reactor.{Reactor}
use ignis.Reactor.Answers.{pending_requests}

pub record Totals : Type 0 where
  pub pending : ℕ
  pub ops : ℕ
  pub oldest_publish_age_ms : ℕ
  pub budget : ℕ
  pub queue_depth : ℕ
  pub queued : ℕ
  pub queued_peak : ℕ
  pub queued_admitted : ℕ
  pub rejected : ℕ
  pub handled : ℕ
  pub fibers_idle : ℕ
  pub fibers_created : ℕ
  pub resumes : ℕ

abbrev pub no_totals : Totals
no_totals = record {
  pending = 0;
  ops = 0;
  oldest_publish_age_ms = 0;
  budget = 0;
  queue_depth = 0;
  queued = 0;
  queued_peak = 0;
  queued_admitted = 0;
  rejected = 0;
  handled = 0;
  fibers_idle = 0;
  fibers_created = 0;
  resumes = 0;
}

-- `now_ms` is the wall clock.
unfoldable pub add : ℕ → Totals → Reactor → Totals
add now_ms t r =
    let p = r.published in
    record t {
      pending = wrapping_add t.pending (pending_requests r);
      ops = wrapping_add t.ops r.inflight;
      oldest_publish_age_ms =
          if p.at_ms == 0
          then t.oldest_publish_age_ms
          else max t.oldest_publish_age_ms (now_ms - p.at_ms);
      budget = max t.budget p.budget;
      queue_depth = max t.queue_depth p.queue_depth;
      queued = wrapping_add t.queued p.queued;
      queued_peak = wrapping_add t.queued_peak p.queued_peak;
      queued_admitted = wrapping_add t.queued_admitted p.queued_admitted;
      rejected = wrapping_add t.rejected p.rejected;
      handled = wrapping_add t.handled p.handled;
      fibers_idle = wrapping_add t.fibers_idle p.fibers_idle;
      fibers_created = wrapping_add t.fibers_created p.fibers_created;
      resumes = wrapping_add t.resumes p.resumes;
    }

-- The pass over the registered reactors.
unfoldable pub add_all : ℕ → Totals → List Reactor → Totals
add_all now_ms t [] = t
add_all now_ms t (r ∷ rs) = add_all now_ms (add now_ms t r) rs
