-- ===== src/Config.antt =====
-- crates/ignis/src/config.rs: `ignis serve`, which bridges the configuration file and the product's
-- defaults into the environment. The parse of the file and the file system are arguments. A variable
-- of the environment is a constructor, named as the source names it; `nts` is the build without
-- threads.
pub mod Precedence
mod Examples
use ignis.Shared.{
  ℕ, ◌≡◌, refl, Bool, true, false, List, [], ◌∷◌, ◌++◌, Option, none, some, Bytes, codes, to_string,
  same_text, ◌==◌, if◌then◌else◌,
}

pub data Variable : Type 0 where
  ignis_listen ignis_threads ignis_workers ignis_php_ini rust_log : Variable
  ignis_fiber_budget ignis_queue_depth ignis_budget_exempt : Variable
  ignis_max_body_bytes ignis_max_connections ignis_header_timeout_ms : Variable
  ignis_idle_timeout_ms ignis_drain_timeout_ms : Variable
  ignis_watch ignis_watch_settle_ms ignis_watch_reload_parallel : Variable

abbrev pub tag : Variable → ℕ
tag ignis_listen = 0
tag ignis_threads = 1
tag ignis_workers = 2
tag ignis_php_ini = 3
tag rust_log = 4
tag ignis_fiber_budget = 5
tag ignis_queue_depth = 6
tag ignis_budget_exempt = 7
tag ignis_max_body_bytes = 8
tag ignis_max_connections = 9
tag ignis_header_timeout_ms = 10
tag ignis_idle_timeout_ms = 11
tag ignis_drain_timeout_ms = 12
tag ignis_watch = 13
tag ignis_watch_settle_ms = 14
tag ignis_watch_reload_parallel = 15

abbrev pub Env : Type 0
Env = Variable → Option Bytes

pub record Budget : Type 0 where
  pub fibers : Option ℕ
  pub queue : Option ℕ

pub record Limits : Type 0 where
  pub max_body_bytes : Option ℕ
  pub max_connections : Option ℕ
  pub header_timeout_ms : Option ℕ
  pub idle_timeout_ms : Option ℕ
  pub drain_timeout_ms : Option ℕ

pub record Watch : Type 0 where
  pub enabled : Option Bool
  pub settle_ms : Option ℕ
  pub reload_parallel : Option ℕ

pub record Config : Type 0 where
  pub entry : Option Bytes
  pub listen : Option Bytes
  pub threads : Option ℕ
  pub workers : Option ℕ
  pub supervise : Option Bool
  pub php_ini : Option Bytes
  pub log : Option Bytes
  pub budget : Budget
  pub limits : Limits
  pub watch : Watch
  pub exempt : Option (List Bytes)

-- Only where the environment does not already have the name.
unfoldable pub default_env : Variable → Bytes → Env → Env
default_env name value env = elim (env name) [
  | some _ ↦ env
  | none ↦ λ other. if tag name == tag other then some value else env other
]

-- `if let Some(v)`: a step that the file may leave out.
abbrev pub Step : Type 0
Step = Variable × Option Bytes

unfoldable pub take_step : Step → Env → Env
take_step (name, none) env = env
take_step (name, some value) env = default_env name value env

unfoldable pub take_steps : List Step → Env → Env
take_steps [] env = env
take_steps (s ∷ ss) env = take_steps ss (take_step s env)

abbrev pub default_threads : (nts : Bool) → (cores : ℕ) → ℕ
default_threads nts cores = if nts then 1 else cores

abbrev pub default_workers : (nts : Bool) → (cores : ℕ) → ℕ
default_workers nts cores = if nts then cores else 1

abbrev pub number : Option ℕ → Option Bytes
number none = none
number (some n) = some (to_string n)

-- `v.join(",")`
abbrev pub join : List Bytes → Bytes
join [] = []
join (x ∷ []) = x
join (x ∷ y ∷ xs) = x ++ b',' ∷ join (y ∷ xs)

abbrev pub joined : Option (List Bytes) → Option Bytes
joined none = none
joined (some xs) = some (join xs)

abbrev pub switched_on : Option Bool → Option Bytes
switched_on (some true) = some (codes "1")
switched_on _ = none

-- The file's values and the product's defaults, in the source's order. The path of `php_ini` is taken
-- to be UTF-8, which `to_string_lossy` leaves as it is.
unfoldable pub steps : (nts : Bool) → (cores : ℕ) → Config → List Step
steps nts cores cfg =
    (ignis_listen, cfg.listen)
    ∷ (ignis_listen, some (codes "127.0.0.1:8080"))
    ∷ (ignis_threads, number cfg.threads)
    ∷ (ignis_workers, number cfg.workers)
    ∷ (ignis_threads, some (to_string (default_threads nts cores)))
    ∷ (ignis_workers, some (to_string (default_workers nts cores)))
    ∷ (ignis_php_ini, cfg.php_ini)
    ∷ (rust_log, cfg.log)
    ∷ (ignis_fiber_budget, number cfg.budget.fibers)
    ∷ (ignis_fiber_budget, some (codes "1024"))
    ∷ (ignis_queue_depth, number cfg.budget.queue)
    ∷ (ignis_queue_depth, some (codes "4096"))
    ∷ (ignis_budget_exempt, joined cfg.exempt)
    ∷ (ignis_budget_exempt, some (codes "/_ignis/"))
    ∷ (ignis_max_body_bytes, number cfg.limits.max_body_bytes)
    ∷ (ignis_max_connections, number cfg.limits.max_connections)
    ∷ (ignis_header_timeout_ms, number cfg.limits.header_timeout_ms)
    ∷ (ignis_idle_timeout_ms, number cfg.limits.idle_timeout_ms)
    ∷ (ignis_drain_timeout_ms, number cfg.limits.drain_timeout_ms)
    ∷ (ignis_watch, switched_on cfg.watch.enabled)
    ∷ (ignis_watch_settle_ms, number cfg.watch.settle_ms)
    ∷ (ignis_watch_reload_parallel, number cfg.watch.reload_parallel)
    ∷ []

abbrev pub first_of {ℓ} : {A : Type ℓ} → Option A → Option A → Option A
first_of (some a) later = some a
first_of none later = later
