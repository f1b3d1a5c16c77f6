-- ===== src/Config/Examples.antt =====
-- The precedence at a file that sets the listener and the threads.
use ignis.Shared.{◌≡◌, refl, true, false, none, some, codes, to_string}
use ignis.Config.{
  Env, Config, take_steps, take_step, default_env, steps, ignis_listen, ignis_threads,
}
use ignis.Config.Precedence.{serve-precedence}

abbrev small_config : Config
small_config = record {
  entry = some (codes "app.php");
  listen = some (codes "0.0.0.0:80");
  threads = some 4;
  workers = none;
  supervise = none;
  php_ini = none;
  log = none;
  budget = record { fibers = none; queue = none };
  limits = record {
    max_body_bytes = none;
    max_connections = none;
    header_timeout_ms = none;
    idle_timeout_ms = none;
    drain_timeout_ms = none;
  };
  watch = record { enabled = some true; settle_ms = none; reload_parallel = none };
  exempt = none;
}

-- The environment has a number of threads.
abbrev given : Env
given ignis_threads = some (codes "8")
given _ = none

serve-precedence_example :
    take_steps (steps false 16 small_config) given ignis_threads ≡ some (codes "8")
serve-precedence_example = serve-precedence false 16 small_config given ignis_threads

-- The file beats the product where the environment is silent.
listener : take_steps (steps false 16 small_config) given ignis_listen ≡ some (codes "0.0.0.0:80")
unfolding take_steps take_step default_env steps to_string
listener = refl
