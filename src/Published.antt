-- ===== src/Published.antt =====
-- crates/ignis/src/metrics.rs, `Published`: what one PHP loop publishes about itself, a slot of its
-- reactor for each number. The slots are atomics of one machine word; field names are texts.
use ignis.Shared.{ℕ, ◌≡◌, refl, Bytes, codes, same_text, if◌then◌else◌}

pub record Published : Type 0 where
  pub budget : ℕ
  pub queue_depth : ℕ
  pub queued : ℕ
  pub queued_peak : ℕ
  pub queued_admitted : ℕ
  pub rejected : ℕ
  pub fibers_idle : ℕ
  pub fibers_created : ℕ
  pub resumes : ℕ
  pub handled : ℕ
  -- wall-clock milliseconds of the last publish, 0 before the first
  pub at_ms : ℕ

-- `Published::default()`
abbrev pub unpublished : Published
unpublished = record {
  budget = 0;
  queue_depth = 0;
  queued = 0;
  queued_peak = 0;
  queued_admitted = 0;
  rejected = 0;
  fibers_idle = 0;
  fibers_created = 0;
  resumes = 0;
  handled = 0;
  at_ms = 0;
}

unfoldable pub set : Published → Bytes → ℕ → Published
set p field v =
    if same_text field (codes "budget")
    then record p { budget = v }
    else if same_text field (codes "queue_depth")
    then record p { queue_depth = v }
    else if same_text field (codes "queued")
    then record p { queued = v }
    else if same_text field (codes "queued_peak")
    then record p { queued_peak = v }
    else if same_text field (codes "queued_admitted")
    then record p { queued_admitted = v }
    else if same_text field (codes "rejected")
    then record p { rejected = v }
    else if same_text field (codes "fibers_idle")
    then record p { fibers_idle = v }
    else if same_text field (codes "fibers_created")
    then record p { fibers_created = v }
    else if same_text field (codes "resumes")
    then record p { resumes = v }
    else if same_text field (codes "handled")
    then record p { handled = v }
    else p

unfoldable pub stamp : Published → ℕ → Published
stamp p now_ms = record p { at_ms = now_ms }

set_queued : (set unpublished (codes "queued") 7).queued ≡ 7
unfolding set
set_queued = refl

set_typo : set unpublished (codes "queud") 999 ≡ unpublished
unfolding set
set_typo = refl
