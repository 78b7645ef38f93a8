-- ===== src/Main.antt =====
-- main.go: run and main, from the environment and the files to the exit code.
pub mod Exits
use goxo.Base.{ℕ, Option, none, some, List, [], Result, ok, err}
use goxo.Base.Int.{ℤ}
use goxo.Base.Text.{Str, bytes}
use goxo.Go.Files.{FileError}
use goxo.Codec.{Protobuf}
use goxo.Config
use goxo.Config.{Yaml}
use goxo.Settings
use goxo.Settings.{Settings, Proto}
use goxo.Manifest
use goxo.Manifest.{Manifest}
use goxo.Overlay.{Env, env_or, load_config, params}
use goxo.Engine.Assembly.{Params}
use goxo.Engine.Running
use goxo.Engine.Running.{Event, RunError, Exit, World, load_codec}

-- What the program runs on: the libraries, the files, the environment, and what the engine meets.
-- `embedded` is the descriptor set that is compiled in.
pub record Machine : Type 1 where
  pub yaml : Yaml
  pub parse_duration : Str → Result Str ℤ
  pub unmarshal_manifest : Str → Result Str Manifest.Wire
  pub proto : Proto
  pub embedded : Str
  pub protobuf : Protobuf
  pub read_file : Str → Result FileError Str
  pub env : Env
  pub world : World

pub data MainError : Type 0 where
  settings : Settings.LoadError → MainError
  manifest : Manifest.LoadError → MainError
  config : Config.LoadError → MainError
  engine : RunError → MainError

-- run has returned, or the engine goes on.
pub data MainExit : Type 0 where
  returned : Option MainError → MainExit
  running : MainExit

unfoldable pub engine_exit : Exit → MainExit
engine_exit (Exit.returned none) = returned none
engine_exit (Exit.returned (some e)) = returned (some (engine e))
engine_exit Exit.running = running

module _ (k : Machine) where
  unfoldable pub load_settings : Result Settings.LoadError Settings
  load_settings =
      (Settings.load k.proto k.embedded k.read_file
        (env_or k.env (bytes "OXO_SETTINGS_PATH") Settings.default_path)
        (Settings.fresh_once k.proto)).1

  unfoldable pub load_manifest : Result Manifest.LoadError Manifest
  load_manifest =
      Manifest.load k.unmarshal_manifest k.read_file
        (env_or k.env (bytes "OXO_DEFINITION_PATH") Manifest.default_path)

  unfoldable pub engine_params : Config.Config → Params
  engine_params c = params k.parse_duration k.env c

  -- engine.Run, called with what was loaded.
  unfoldable pub run_engine : Settings → Manifest → Config.Config → List Event × Exit
  unfolding engine_params
  run_engine s m c =
      Running.run k.world (load_codec k.protobuf k.read_file (engine_params c).fdset_path) m s
        (engine_params c)

  unfoldable pub run : List Event × MainExit
  unfolding load_settings load_manifest run_engine engine_exit
  run = elim load_settings [
    | err e ↦ ([], returned (some (settings e)))
    | ok s ↦ elim load_manifest [
      | err e ↦ ([], returned (some (manifest e)))
      | ok m ↦ elim (load_config k.yaml k.parse_duration k.env k.read_file) [
        | err e ↦ ([], returned (some (config e)))
        | ok c ↦ let (events, exit) = run_engine s m c in (events, engine_exit exit)
      ]
    ]
  ]

-- main: the exit code, once run has returned.
unfoldable pub exit_code : MainExit → Option ℕ
exit_code (returned none) = some 0
exit_code (returned (some e)) = some 1
exit_code running = none

unfoldable pub main : Machine → Option ℕ
unfolding run exit_code
main k = exit_code (run k).1
