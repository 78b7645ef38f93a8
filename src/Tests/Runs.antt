-- ===== src/Tests/Runs.antt =====
-- A run of the engine, and what a worker's run leaves behind.
use goxo.Base.{ℕ, false, ◌≡◌, ◌≢◌, refl, ◌⊎◌, ◌↔◌, none, some, List, [], ◌∷◌, ◌++◌, Result, ok, err}
use goxo.Base.Int.{pos}
use goxo.Base.Text.{bytes}
use goxo.Manifest.{Manifest}
use goxo.Bus.Transport
use goxo.Bus.Transport.{done, settled, cancelled, connect, consume}
use goxo.Engine.Assembly.{Params, in_selectors, bus_config, worker_config, merge_args}
use goxo.Engine.Running.{
  CodecLoadError, Resource, bus, health, signals, pool, Event, opened, closed, consuming, returned,
  World, run,
}
use goxo.Engine.Release.{Closes, closings, SetUp, run-Closes, run_clean_iff}
use goxo.Health.{health_addr}
use goxo.Go.Address.{join_host_port}
use goxo.Go.Decimal.{itoa}
use goxo.Worker.State.{finished, ready}
use goxo.Worker.Steps
use goxo.Worker.Steps.{Action}
use goxo.Worker.Invariant.{times, tally}
use goxo.Worker.Ledger.{Moves, ledger, ledger-run}
use goxo.Worker.Drain.{run-drains}
use goxo.Worker.Stdin.{Wired, limit}
use goxo.Worker.Feeding.{stdin-Wired}
use goxo.Tests.Samples
use goxo.Tests.Engine.{sample_manifest, sample_settings, params}
use goxo.Tests.Workers.{one_message, ended, started, one_message_few}

ledger-run_example :
    Moves 7 one_message (record { taken = 0; pending = 0; settled = [] }) (ledger 7 ended)
ledger-run_example = ledger-run Samples.sample_config (pos 2) one_message 7 one_message_few

run-drains_example :
    (more : List Action) × ((Steps.run (one_message ++ more) started).sup ≡ finished)
    × ((Steps.run (one_message ++ more) started).disp ≡ ready)
    × ((Steps.run (one_message ++ more) started).fired ≡ [])
    × ((Steps.run (one_message ++ more) started).msgs ≡ [])
    × ((Steps.run (one_message ++ more) started).accepted ≡ ended.accepted)
    × ((tag : ℕ)
        → tally tag (Steps.run (one_message ++ more) started).calls ≡ times tag ended.accepted)
run-drains_example = run-drains Samples.sample_config (pos 2) one_message one_message_few

stdin-Wired_example :
    Wired Samples.sample_config (limit ended.disp ended.next_id) (ended.procs 0).stdin
stdin-Wired_example = stdin-Wired Samples.sample_config (pos 2) one_message 0 one_message_few

-- Everything answers, and the consumer is cancelled at once.
abbrev pub world : World
world = record {
  unmarshal = λ _. err (bytes "no value");
  answer = λ _. none;
  listen = λ _. none;
  handle = λ d. settled (Transport.ack d.tag false);
  arriving = done ∷ [];
}

abbrev loaded : Result CodecLoadError (Unit {0})
loaded = ok tt

abbrev consumer : Manifest
consumer = record sample_manifest { in_selectors = bytes "v3.in" ∷ [] }

abbrev with_descriptors : Params
with_descriptors = record params { fdset_path = bytes "/fdset" }

abbrev whole_run : List Event
whole_run =
    opened bus
    ∷ opened (health (bytes "0.0.0.0:5000"))
    ∷ opened signals
    ∷ opened (pool (pos 0))
    ∷ consuming []
    ∷ closed (pool (pos 0))
    ∷ closed signals
    ∷ closed (health (bytes "0.0.0.0:5000"))
    ∷ closed bus
    ∷ []

whole_run_lem :
    run world loaded consumer sample_settings with_descriptors ≡ (whole_run, returned none)
unfolding run worker_config merge_args connect bus_config consume health_addr join_host_port itoa
whole_run_lem = refl

run-Closes_example :
    Closes whole_run []
    × ((before : List Resource) × ((pool with_descriptors.shutdown_grace
            ∷ signals
            ∷ health (health_addr sample_settings)
            ∷ bus
            ∷ [])
          ≡ before ++ closings whole_run))
run-Closes_example =
    run-Closes world loaded consumer sample_settings with_descriptors whole_run none whole_run_lem

run_clean_iff_sample :
    ((run world loaded consumer sample_settings with_descriptors).1 ≡ returned none) ↔ (
      SetUp world loaded consumer sample_settings with_descriptors
      × ((in_selectors sample_settings consumer ≡ [])
          ⊎ ((in_selectors sample_settings consumer ≢ [])
              × ((consume world.answer
                    (bus_config consumer sample_settings with_descriptors)
                    world.handle
                    world.arriving).1
                  ≡ some cancelled))))
run_clean_iff_sample = run_clean_iff world loaded consumer sample_settings with_descriptors
