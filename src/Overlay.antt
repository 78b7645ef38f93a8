-- ===== src/Overlay.antt =====
-- main.go: the environment over the configuration file. os.Getenv is a function, with the empty
-- string for a variable that is not set.
pub mod Laws
use goxo.Base.{
  Option, none, some, List, [], ◌∷◌, Result, ok, err, ◌>>=◌, map_err, if◌then◌else◌, ◌==◌,
}
use goxo.Base.Int.{ℤ}
use goxo.Base.Text.{Str, str_Eq, bytes}
use goxo.Go.Fields.{fields}
use goxo.Go.Decimal.{atoi}
use goxo.Go.Files.{FileError, not_exist}
use goxo.Config.{Config, Yaml, LoadError, read, default, load}
use goxo.Engine.Assembly.{Params}

abbrev pub Env : Type 0
Env = Str → Str

-- config.DefaultPath
abbrev pub default_path : Str
default_path = bytes "/goxo.yaml"

unfoldable pub handler_or : Env → Str → List Str → List Str
handler_or env key fallback = if env key == [] then fallback else fields (env key)

unfoldable pub env_or : Env → Str → Str → Str
env_or env key fallback = if env key == [] then fallback else env key

unfoldable pub duration_or : (Str → Result Str ℤ) → Env → Str → ℤ → ℤ
duration_or parse_duration env key fallback =
    if env key == []
    then fallback
    else elim (parse_duration (env key)) [ ok d ↦ d | err _ ↦ fallback ]

unfoldable pub int_or : Env → Str → ℤ → ℤ
int_or env key fallback =
    if env key == [] then fallback else elim (atoi (env key)) [ none ↦ fallback | some n ↦ n ]

-- `errors.Is(err, os.ErrNotExist)` on what Load returned.
unfoldable pub or_default : Result LoadError Config → Result LoadError Config
or_default (ok c) = ok c
or_default (err (read path not_exist)) = ok default
or_default (err e) = err e

module _ (y : Yaml) (parse_duration : Str → Result Str ℤ) where
  unfoldable pub load_config : Env → (Str → Result FileError Str) → Result LoadError Config
  unfolding or_default
  load_config env read_file =
      let path = env (bytes "GOXO_CONFIG") in
      if path == []
      then or_default (load y parse_duration read_file default_path)
      else load y parse_duration read_file path

-- The Params that run hands to the engine.
unfoldable pub params : (Str → Result Str ℤ) → Env → Config → Params
unfolding handler_or env_or duration_or int_or
params parse_duration env c = record {
  handler = handler_or env (bytes "GOXO_HANDLER") c.handler;
  fdset_path = env_or env (bytes "GOXO_FDSET") c.fdset;
  universe = env (bytes "UNIVERSE");
  timeout = duration_or parse_duration env (bytes "GOXO_HANDLER_TIMEOUT") c.handler_timeout;
  pool_size = int_or env (bytes "GOXO_POOL_SIZE") c.worker_pool_size;
  worker_cap = int_or env (bytes "GOXO_WORKER_CAP") c.worker_queue_size;
  shutdown_grace =
      duration_or parse_duration env (bytes "GOXO_SHUTDOWN_GRACE") c.worker_shutdown_grace;
}
