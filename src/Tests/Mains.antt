-- ===== src/Tests/Mains.antt =====
-- main.go and the healthcheck at work: from files and environment to exit codes.
use goxo.Base.{
  ℕ, ◌-◌, ◌≡◌, ◌≢◌, refl, ap, ◌∙◌, ◌⊎◌, ◌↔◌, inl, arith, some, [], ◌++◌, Result, ok, err,
  if◌then◌else◌, ◌==◌, ==_iff, length, take, drop, take-length-append, length-append,
}
use goxo.Base.Text.{Str, bytes, str_Eq}
use goxo.Bus.Transport.{cancelled, connect, consume}
use goxo.Config.{Config, load}
use goxo.Settings.{Settings}
use goxo.Manifest.{Manifest}
use goxo.Engine.Assembly.{in_selectors, bus_config, worker_config, merge_args}
use goxo.Engine.Running
use goxo.Engine.Running.{load_codec}
use goxo.Engine.Release.{SetUp}
use goxo.Go.Address.{join_host_port}
use goxo.Go.Decimal.{itoa}
use goxo.Health.{health_addr, probe_addr, probe, respond}
use goxo.Health.Meeting.{port_of, served_port}
use goxo.Health.Probing.{Hosts, probe_iff}
use goxo.Main.{Machine, main, engine_params}
use goxo.Main.Exits.{Loads, main_clean_iff}
use goxo.Overlay.{Env, load_config, params}
use goxo.Tests.Knobs.{sample_yaml, sample_duration, no_settings, sample_proto, sample_env}
use goxo.Tests.Notes.{sample_protobuf}
use goxo.Tests.Runs.{world}

abbrev machine_env : Env
machine_env k = if k == bytes "GOXO_FDSET" then bytes "/fdset" else []

-- Every file is there; the settings have no arguments.
abbrev machine : Machine
machine = record {
  yaml = sample_yaml;
  parse_duration = sample_duration;
  unmarshal_manifest =
      λ text. ok (record { name = text; in_selectors = []; out_selectors = []; args = [] });
  proto = record sample_proto { messages = λ m name. [] };
  embedded = [];
  protobuf = sample_protobuf;
  read_file = λ path. ok (bytes "x");
  env = machine_env;
  world = world;
}

main_clean_iff_example : (main machine ≡ some 0) ↔ (
    (s : Settings) × (m : Manifest) × (c : Config) × Loads machine s m c
    × SetUp world
        (load_codec sample_protobuf machine.read_file (engine_params machine c).fdset_path)
        m
        s
        (engine_params machine c)
    × ((in_selectors s m ≡ [])
        ⊎ ((in_selectors s m ≢ [])
            × ((consume world.answer
                  (bus_config m s (engine_params machine c))
                  world.handle
                  world.arriving).1
                ≡ some cancelled))))
main_clean_iff_example = main_clean_iff machine

clean_exit : main machine ≡ some 0
unfolding main goxo.Settings.load goxo.Manifest.load load_config load goxo.Config.parse_file
    Running.run params goxo.Go.Fields.fields load_codec goxo.Codec.new_registry worker_config
    merge_args connect bus_config consume
clean_exit = refl

-- One port answers on this host: 5000.
abbrev asked : Str → Str
asked rest = take (length rest - 7) rest

abbrev sample_get : Str → Result Str ℕ
sample_get url =
    if port_of (asked (drop 7 url)) == bytes "5000" then ok 200 else err (bytes "refused")

asked_lem : (addr : Str) → asked (addr ++ bytes "/status") ≡ addr
asked_lem addr =
    ap (λ n. take n (addr ++ bytes "/status")) (omega (arith, length-append addr (bytes "/status")))
    ∙ take-length-append addr (bytes "/status")

get_lem :
    (addr : Str)
    → sample_get (bytes "http://" ++ (addr ++ bytes "/status"))
      ≡ (if port_of addr == bytes "5000" then ok 200 else err (bytes "refused"))
get_lem addr =
    ap (λ a. if port_of a == bytes "5000" then ok 200 else err (bytes "refused")) (asked_lem addr)

-- The listener takes connections to any address of the machine.
abbrev local_settings : Settings
local_settings = record no_settings { healthcheck_host = [] }

local_settings_port : port_of (health_addr local_settings) ≡ bytes "5000"
unfolding health_addr itoa join_host_port
local_settings_port = refl

sample_host : Hosts sample_get local_settings
unfolding respond
sample_host = record {
  here = λ p _ h.
      get_lem (join_host_port (bytes "127.0.0.1") p)
      ∙ ground (
        arith,
        h,
        local_settings_port,
        ==_iff (port_of (join_host_port (bytes "127.0.0.1") p)) (bytes "5000"),
      );
  elsewhere = λ p h. (
    bytes "refused",
    get_lem (join_host_port (bytes "127.0.0.1") p)
        ∙ ground (
          arith,
          h,
          local_settings_port,
          ==_iff (port_of (join_host_port (bytes "127.0.0.1") p)) (bytes "5000"),
        ),
  );
}

probe_iff_example :
    (probe sample_get (probe_addr sample_env) ≡ 0) ↔ (◌≡◌ {A = ℕ} 5000 (served_port local_settings))
probe_iff_example =
    probe_iff sample_env local_settings 5000 sample_get (omega arith) (omega arith)
      (inl (refl, refl)) (inl refl) sample_host
