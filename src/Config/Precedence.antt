-- ===== src/Config/Precedence.antt =====
-- crates/ignis/src/config.rs: the environment beats the file, and the file the product's defaults.
use ignis.Shared.{
  ℕ, ◌≡◌, refl, sym, ap, ◌∙◌, inl, inr, Bool, List, [], ◌∷◌, Option, none, some, Bytes, codes,
  to_string, Option-cases, ◌==◌, if◌then◌else◌, arith,
}
use ignis.Config.{
  Variable, tag, Env, Config, Step, default_env, take_step, take_steps, steps, number, joined,
  switched_on, default_threads, default_workers, first_of, ignis_listen, ignis_threads,
  ignis_workers, ignis_php_ini, rust_log, ignis_fiber_budget, ignis_queue_depth,
  ignis_budget_exempt, ignis_max_body_bytes, ignis_max_connections, ignis_header_timeout_ms,
  ignis_idle_timeout_ms, ignis_drain_timeout_ms, ignis_watch, ignis_watch_settle_ms,
  ignis_watch_reload_parallel,
}

-- What the file says of a variable.
abbrev pub in_file : Config → Variable → Option Bytes
in_file cfg ignis_listen = cfg.listen
in_file cfg ignis_threads = number cfg.threads
in_file cfg ignis_workers = number cfg.workers
in_file cfg ignis_php_ini = cfg.php_ini
in_file cfg rust_log = cfg.log
in_file cfg ignis_fiber_budget = number cfg.budget.fibers
in_file cfg ignis_queue_depth = number cfg.budget.queue
in_file cfg ignis_budget_exempt = joined cfg.exempt
in_file cfg ignis_max_body_bytes = number cfg.limits.max_body_bytes
in_file cfg ignis_max_connections = number cfg.limits.max_connections
in_file cfg ignis_header_timeout_ms = number cfg.limits.header_timeout_ms
in_file cfg ignis_idle_timeout_ms = number cfg.limits.idle_timeout_ms
in_file cfg ignis_drain_timeout_ms = number cfg.limits.drain_timeout_ms
in_file cfg ignis_watch = switched_on cfg.watch.enabled
in_file cfg ignis_watch_settle_ms = number cfg.watch.settle_ms
in_file cfg ignis_watch_reload_parallel = number cfg.watch.reload_parallel

-- The product's default for a variable, where it has one.
abbrev pub of_product : (nts : Bool) → (cores : ℕ) → Variable → Option Bytes
of_product nts cores ignis_listen = some (codes "127.0.0.1:8080")
of_product nts cores ignis_threads = some (to_string (default_threads nts cores))
of_product nts cores ignis_workers = some (to_string (default_workers nts cores))
of_product nts cores ignis_fiber_budget = some (codes "1024")
of_product nts cores ignis_queue_depth = some (codes "4096")
of_product nts cores ignis_budget_exempt = some (codes "/_ignis/")
of_product nts cores _ = none

-- The first value that the steps have for a variable.
abbrev first_for : Variable → List Step → Option Bytes
first_for v [] = none
first_for v ((name, value) ∷ ss) =
    let rest = first_for v ss in if tag name == tag v then first_of value rest else rest

first_of_assoc : (a b c : Option Bytes) → first_of (first_of a b) c ≡ first_of a (first_of b c)
first_of_assoc none b c = refl
first_of_assoc (some x) b c = refl

abbrev untag : ℕ → Variable
untag n =
    if n == 0
    then ignis_listen
    else if n == 1
    then ignis_threads
    else if n == 2
    then ignis_workers
    else if n == 3
    then ignis_php_ini
    else if n == 4
    then rust_log
    else if n == 5
    then ignis_fiber_budget
    else if n == 6
    then ignis_queue_depth
    else if n == 7
    then ignis_budget_exempt
    else if n == 8
    then ignis_max_body_bytes
    else if n == 9
    then ignis_max_connections
    else if n == 10
    then ignis_header_timeout_ms
    else if n == 11
    then ignis_idle_timeout_ms
    else if n == 12
    then ignis_drain_timeout_ms
    else if n == 13
    then ignis_watch
    else if n == 14
    then ignis_watch_settle_ms
    else ignis_watch_reload_parallel

untag-tag : (v : Variable) → untag (tag v) ≡ v
untag-tag ignis_listen = refl
untag-tag ignis_threads = refl
untag-tag ignis_workers = refl
untag-tag ignis_php_ini = refl
untag-tag rust_log = refl
untag-tag ignis_fiber_budget = refl
untag-tag ignis_queue_depth = refl
untag-tag ignis_budget_exempt = refl
untag-tag ignis_max_body_bytes = refl
untag-tag ignis_max_connections = refl
untag-tag ignis_header_timeout_ms = refl
untag-tag ignis_idle_timeout_ms = refl
untag-tag ignis_drain_timeout_ms = refl
untag-tag ignis_watch = refl
untag-tag ignis_watch_settle_ms = refl
untag-tag ignis_watch_reload_parallel = refl

-- A variable is known by its tag.
same_value : (env : Env) (a b : Variable) → tag a ≡ tag b → env a ≡ env b
same_value env a b e = ap env (sym (untag-tag a) ∙ (ap untag e ∙ untag-tag b))

take_step-value :
    (name : Variable) (value : Option Bytes) (env : Env) (v : Variable)
    → take_step (name, value) env v ≡ first_of (env v) (if tag name == tag v then value else none)
unfolding take_step default_env
take_step-value name none env v = elim (Option-cases (env v)) [
  | inl e ↦ ground (arith, e)
  | inr (x, e) ↦ ground (arith, e)
]
take_step-value name (some x) env v = ground (arith, same_value env name v)

take_steps-value :
    (ss : List Step) (env : Env) (v : Variable)
    → take_steps ss env v ≡ first_of (env v) (first_for v ss)
unfolding take_steps
take_steps-value [] env v = ground arith
take_steps-value ((name, value) ∷ ss) env v =
    take_steps-value ss (take_step (name, value) env) v
    ∙ (ap (λ x. first_of x (first_for v ss)) (take_step-value name value env v)
        ∙ ground (arith, first_of_assoc (env v) value (first_for v ss)))

first_of-none : (a : Option Bytes) → first_of a none ≡ a
first_of-none none = refl
first_of-none (some x) = refl

steps-value :
    (nts : Bool) (cores : ℕ) (cfg : Config) (v : Variable)
    → first_for v (steps nts cores cfg) ≡ first_of (in_file cfg v) (of_product nts cores v)
unfolding steps
steps-value nts cores cfg ignis_listen = refl
steps-value nts cores cfg ignis_threads = refl
steps-value nts cores cfg ignis_workers = refl
steps-value nts cores cfg ignis_php_ini = refl
steps-value nts cores cfg rust_log = refl
steps-value nts cores cfg ignis_fiber_budget = refl
steps-value nts cores cfg ignis_queue_depth = refl
steps-value nts cores cfg ignis_budget_exempt = refl
steps-value nts cores cfg ignis_max_body_bytes = refl
steps-value nts cores cfg ignis_max_connections = refl
steps-value nts cores cfg ignis_header_timeout_ms = refl
steps-value nts cores cfg ignis_idle_timeout_ms = refl
steps-value nts cores cfg ignis_drain_timeout_ms = refl
steps-value nts cores cfg ignis_watch = refl
steps-value nts cores cfg ignis_watch_settle_ms = refl
steps-value nts cores cfg ignis_watch_reload_parallel = refl

-- Every variable of the environment ends up with the value it had there, or else the file's, or
-- else the product's default, or else stays unset.
pub serve-precedence :
    (nts : Bool) (cores : ℕ) (cfg : Config) (env : Env) (v : Variable)
    → take_steps (steps nts cores cfg) env v
      ≡ first_of (env v) (first_of (in_file cfg v) (of_product nts cores v))
serve-precedence nts cores cfg env v =
    take_steps-value (steps nts cores cfg) env v
    ∙ ap (first_of (env v)) (steps-value nts cores cfg v)
